-- ===== src/HostRuntime/Proofs/Guards.antt =====
-- When a room can be opened.
use Prim.Native.Char.{Char}
use easy_mc_server.Prelude.{
  ℕ, ◌≡◌, ◌≢◌, ◌≤◌, ◌↔◌, refl, ap, Bool, true, false, not, ◌||◌, Option, none, some, List, [], ◌∷◌,
  Text, undefined, str, String, truthy, or_else, ◌==◌, ltb, ==_iff, eq_iff, str_eq, any, All,
  get_or, ok, arith, Bool-cases, inl, inr,
}
use easy_mc_server.HostRuntime.Paths.{
  is_safe_path_segment, is_safe_file_name, is_safe_app_data_root,
}
use easy_mc_server.HostRuntime.Input.{
  ℤ, pos, negsuc, FailureReason, SelectedVersion, select_supported_minecraft_version, Loader,
  choose_loader, launcher_jar_of, is_falsy, is_true, is_truthy, ModInput, RuntimeInput, Consent,
}
use easy_mc_server.HostRuntime.Layout.{checksums_match, is_mod_verified}
use easy_mc_server.HostRuntime.Plan.{
  fail_if, has_crashed, is_refused, lacks_java, is_older, validate_with,
}

abbrev pub root_of : RuntimeInput → Text
root_of input = or_else input.room.app_data_root input.room.data_root

-- Two checksums that are there and the same.
abbrev pub Match : Text → Text → Type 0
Match expected actual = (expected ≡ actual) × (truthy actual ≡ true)

-- What a room needs to be opened, with the version and the loader that are chosen for it.
pub record MayOpen (input : RuntimeInput) (selected : SelectedVersion) (l : Loader) : Type 0 where
  pub supported :
      select_supported_minecraft_version input.supported_versions input.minecraft_version
      ≡ ok selected
  pub java :
      (n : ℕ) × (input.java.major_version ≡ some (pos n)) × (get_or selected.java_major 21 ≤ n)
  pub java_path : truthy input.java.path ≡ true
  pub consent : input.eula ≢ is_falsy
  pub bootstrap : input.fabric.bootstrap_state ≢ str "failed"
  pub installer : Match input.fabric.expected_installer_sha256 input.fabric.installer_sha256
  pub fixed : input.pack.fixed ≡ true
  pub pack : Match input.pack.expected_sha256 input.pack.sha256
  pub mods :
      All
        (λ (m : ModInput).
          Match (or_else m.expected_sha256 m.sha256) m.sha256
          × (is_safe_file_name m.file_name ≡ true))
        input.pack.mods
  pub healthy : has_crashed input.runtime ≡ false
  pub room_id : is_safe_path_segment input.room.id ≡ true
  pub root : is_safe_app_data_root (root_of input) ≡ true
  pub loader :
      choose_loader input.fabric.loaders selected.version input.fabric.loader_version ≡ some l
  pub jar : is_safe_file_name (launcher_jar_of selected.version l) ≡ true

fail_if-none :
    (b : Bool) (r : FailureReason) (rest : Option FailureReason)
    → fail_if b r rest ≡ none
    → (b ≡ false) × (rest ≡ none)
unfolding fail_if
fail_if-none b r rest h = (ground (arith, h), ground (arith, h))

checksums_match_iff :
    (expected actual : Text) → (checksums_match expected actual ≡ true) ↔ Match expected actual
unfolding checksums_match
checksums_match_iff e a = (
  λ h. ((==_iff e a).0 (ground arith), ground arith),
  λ (same, given). ground (arith, same, given, ==_iff e a),
)

characters-truthy : (c : Char) (s : String) → truthy (str (String.◌∷◌ c s)) ≡ true
unfolding truthy
characters-truthy c s = elim (Bool-cases (str_eq (String.◌∷◌ c s) "")) [
  | inl e ↦ let same = (eq_iff (String.◌∷◌ c s) "").0 e in cc same
  | inr e ↦ ap not e
]

safe_segment-truthy : (t : Text) → is_safe_path_segment t ≡ true → truthy t ≡ true
unfolding is_safe_path_segment
safe_segment-truthy undefined h = cc h
safe_segment-truthy (str String.[]) h = ground (arith, h)
safe_segment-truthy (str (String.◌∷◌ c s)) h = characters-truthy c s

safe_root-truthy : (t : Text) → is_safe_app_data_root t ≡ true → truthy t ≡ true
unfolding is_safe_app_data_root any
safe_root-truthy undefined h = cc h
safe_root-truthy (str String.[]) h = ground (arith, h)
safe_root-truthy (str (String.◌∷◌ c s)) h = characters-truthy c s

mods-verified :
    (mods : List ModInput)
    → any (λ m. not (is_mod_verified m)) mods ≡ false
    → any (λ (m : ModInput). not (is_safe_file_name m.file_name)) mods ≡ false
    → All
        (λ (m : ModInput).
          Match (or_else m.expected_sha256 m.sha256) m.sha256
          × (is_safe_file_name m.file_name ≡ true))
        mods
unfolding any is_mod_verified
mods-verified [] h k = tt
mods-verified (m ∷ mods) h k = (
  (
    (checksums_match_iff (or_else m.expected_sha256 m.sha256) m.sha256).0 (ground (arith, h)),
    ground (arith, k),
  ),
  mods-verified mods (ground (arith, h)) (ground (arith, k)),
)

verified-mods :
    (mods : List ModInput)
    → All
        (λ (m : ModInput).
          Match (or_else m.expected_sha256 m.sha256) m.sha256
          × (is_safe_file_name m.file_name ≡ true))
        mods
    → (any (λ m. not (is_mod_verified m)) mods ≡ false)
      × (any (λ (m : ModInput). not (is_safe_file_name m.file_name)) mods ≡ false)
unfolding any is_mod_verified
verified-mods [] a = (refl, refl)
verified-mods (m ∷ mods) a =
    let matched = (checksums_match_iff (or_else m.expected_sha256 m.sha256) m.sha256).1 a.0.0 in
    let safe = a.0.1 in
    let (x, y) = verified-mods mods a.1 in (ground (arith, matched, x), ground (arith, safe, y))

-- The guards of `validateHostRuntime`, all of which pass.
pub validate_with-none :
    (input : RuntimeInput) (selected : SelectedVersion) (l : Loader)
    → select_supported_minecraft_version input.supported_versions input.minecraft_version
      ≡ ok selected
    → validate_with input selected ≡ none
    → choose_loader input.fabric.loaders selected.version input.fabric.loader_version ≡ some l
    → is_safe_file_name (launcher_jar_of selected.version l) ≡ true
    → MayOpen input selected l
unfolding validate_with
validate_with-none input selected l is h loads is_jar =
    let f = input.fabric in
    let (java, h1) = fail_if-none (lacks_java input.java) _ _ h in
    let (old, h2) =
      fail_if-none (is_older input.java.major_version (get_or selected.java_major 21)) _ _ h1 in
    let (eula, h3) = fail_if-none (is_refused input.eula) _ _ h2 in
    let (boot, h4) = fail_if-none (f.bootstrap_state == str "failed") _ _ h3 in
    let (sums, h5) =
      fail_if-none (not (checksums_match f.expected_installer_sha256 f.installer_sha256)) _ _ h4 in
    let (fix, h6) = fail_if-none (not input.pack.fixed) _ _ h5 in
    let (pack, h7) =
      fail_if-none (not (checksums_match input.pack.expected_sha256 input.pack.sha256)) _ _ h6 in
    let (mods, h8) = fail_if-none (any (λ m. not (is_mod_verified m)) input.pack.mods) _ _ h7 in
    let (crash, h9) = fail_if-none (has_crashed input.runtime) _ _ h8 in
    let (there, h10) =
      fail_if-none (not (truthy input.room.id) || not (truthy (root_of input))) _ _ h9 in
    let (safe, h11) =
      fail_if-none
        (not (is_safe_app_data_root (root_of input)) || not (is_safe_path_segment input.room.id)) _
        _ h10 in
    let (names, h12) =
      fail_if-none (any (λ (m : ModInput). not (is_safe_file_name m.file_name)) input.pack.mods) _ _
        h11 in
    record {
      supported = is;
      java = new_enough input.java.major_version old java;
      java_path = ground (arith, java);
      consent = λ e. ground (arith, eula, e);
      bootstrap = λ e. ground (arith, boot, (==_iff f.bootstrap_state (str "failed")).1 e);
      installer =
          (checksums_match_iff f.expected_installer_sha256 f.installer_sha256).0
            (ground (arith, sums));
      fixed = ground (arith, fix);
      pack =
          (checksums_match_iff input.pack.expected_sha256 input.pack.sha256).0
            (ground (arith, pack));
      mods = mods-verified input.pack.mods mods names;
      healthy = crash;
      room_id = ground (arith, safe);
      root = ground (arith, safe);
      loader = loads;
      jar = is_jar;
    }
  where
    new_enough :
        (o : Option ℤ)
        → is_older o (get_or selected.java_major 21) ≡ false
        → lacks_java (record input.java { major_version = o }) ≡ false
        → (n : ℕ) × (o ≡ some (pos n)) × (get_or selected.java_major 21 ≤ n)
    new_enough none older lacks = cc lacks
    new_enough (some (negsuc n)) older lacks = cc older
    new_enough (some (pos n)) older lacks = (n, refl, ground (arith, older))

pub passes-validate_with :
    (input : RuntimeInput) (selected : SelectedVersion) (l : Loader)
    → MayOpen input selected l
    → validate_with input selected ≡ none
unfolding validate_with fail_if
passes-validate_with input selected l m =
    let f = input.fabric in
    let (n, is_n, enough) = m.java in
    let has_path = m.java_path in
    let installer =
      (checksums_match_iff f.expected_installer_sha256 f.installer_sha256).1 m.installer in
    let pack = (checksums_match_iff input.pack.expected_sha256 input.pack.sha256).1 m.pack in
    let (verified, names) = verified-mods input.pack.mods m.mods in
    let healthy = m.healthy in
    let id_there = safe_segment-truthy input.room.id m.room_id in
    let root_there = safe_root-truthy (root_of input) m.root in
    let fixed = m.fixed in
    let id_safe = m.room_id in
    let root_safe = m.root in
    let boot : (f.bootstrap_state == str "failed") ≡ false =
      elim (Bool-cases (f.bootstrap_state == str "failed")) [
        | inl e ↦ absurd (m.bootstrap ((==_iff f.bootstrap_state (str "failed")).0 e))
        | inr e ↦ e
      ] in
    let agreed : is_refused input.eula ≡ false = consented input.eula m.consent in
    rw
      (
        is_n,
        has_path,
        installer,
        pack,
        verified,
        names,
        healthy,
        id_there,
        root_there,
        fixed,
        id_safe,
        root_safe,
        boot,
        agreed,
        old_enough n enough,
      )
      refl
  where
    consented : (c : Consent) → c ≢ is_falsy → is_refused c ≡ false
    consented is_falsy h = absurd (h refl)
    consented is_true h = refl
    consented is_truthy h = refl

    old_enough :
        (n : ℕ) → get_or selected.java_major 21 ≤ n → ltb n (get_or selected.java_major 21) ≡ false
    old_enough n h = ground (arith, h)

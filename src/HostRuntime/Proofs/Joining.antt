-- ===== src/HostRuntime/Proofs/Joining.antt =====
-- What `joinPath` makes of a folder and a safe name.
use mathlib.Core.List.{map-append}
use easy_mc_server.Prelude.{
  ℕ, ◌≡◌, ◌≢◌, refl, ap, ◌∙◌, Bool, true, false, List, [], ◌∷◌, ◌++◌, map, eqb, all, arith,
}
use easy_mc_server.HostRuntime.Paths.{
  slash, is_alphanumeric, is_segment_char, is_segment, to_slash, squeeze, join_parts, join_path,
}

-- Whether the last character is a slash.
unfoldable pub ends_in_slash : Bool → List ℕ → Bool
ends_in_slash b [] = b
ends_in_slash b (c ∷ cs) = ends_in_slash (eqb c slash) cs

pub squeeze-append :
    (b : Bool) (xs ys : List ℕ)
    → squeeze b (xs ++ ys) ≡ squeeze b xs ++ squeeze (ends_in_slash b xs) ys
unfolding squeeze ends_in_slash
squeeze-append b [] ys = refl
squeeze-append b (c ∷ cs) ys = ground (arith, squeeze-append (eqb c slash) cs ys)

pub squeeze_idem : (b : Bool) (xs : List ℕ) → squeeze b (squeeze b xs) ≡ squeeze b xs
unfolding squeeze
squeeze_idem b [] = refl
squeeze_idem b (c ∷ cs) = ground (arith, squeeze_idem (eqb c slash) cs)

ends_in_slash-squeeze :
    (b : Bool) (xs : List ℕ) → ends_in_slash b (squeeze b xs) ≡ ends_in_slash b xs
unfolding squeeze ends_in_slash
ends_in_slash-squeeze b [] = refl
ends_in_slash-squeeze b (c ∷ cs) = ground (arith, ends_in_slash-squeeze (eqb c slash) cs)

to_slash_idem : (c : ℕ) → to_slash (to_slash c) ≡ to_slash c
unfolding to_slash
to_slash_idem c = ground arith

pub map-squeeze :
    (b : Bool) (xs : List ℕ)
    → map to_slash (squeeze b (map to_slash xs)) ≡ squeeze b (map to_slash xs)
unfolding squeeze
map-squeeze b [] = refl
map-squeeze b (c ∷ cs) = ground (arith, map-squeeze (eqb (to_slash c) slash) cs, to_slash_idem c)

pub ends_in_slash-append :
    (b : Bool) (xs ys : List ℕ) → ends_in_slash b (xs ++ ys) ≡ ends_in_slash (ends_in_slash b xs) ys
unfolding ends_in_slash
ends_in_slash-append b [] ys = refl
ends_in_slash-append b (c ∷ cs) ys = ends_in_slash-append (eqb c slash) cs ys

pub segment_char-plain :
    (c : ℕ) → is_segment_char c ≡ true → (eqb c slash ≡ false) × (to_slash c ≡ c)
unfolding is_segment_char is_alphanumeric to_slash
segment_char-plain c h = (ground arith, ground arith)

segment-plain :
    (cs : List ℕ)
    → all is_segment_char cs ≡ true
    → (squeeze false cs ≡ cs) × (ends_in_slash false cs ≡ false) × (map to_slash cs ≡ cs)
unfolding all squeeze ends_in_slash
segment-plain [] h = (refl, refl, refl)
segment-plain (c ∷ cs) h =
    let here : is_segment_char c ≡ true = ground arith in
    let (not_slash, same) = segment_char-plain c here in
    let (a, b, d) = segment-plain cs (ground arith) in
    (ground (arith, not_slash, a), ground (arith, not_slash, b), ground (arith, same, d))

pub alphanumeric-plain : (c : ℕ) → is_alphanumeric c ≡ true → is_segment_char c ≡ true
unfolding is_segment_char
alphanumeric-plain c h = ground (arith, h)

-- A name after a slash or none, which is not the empty string.
pub record IsName (cs : List ℕ) : Type 0 where
  pub squeezed : (b : Bool) → squeeze b cs ≡ cs
  pub ends : (b : Bool) → ends_in_slash b cs ≡ false
  pub mapped : map to_slash cs ≡ cs

pub segment-IsName : (cs : List ℕ) → is_segment cs ≡ true → IsName cs
unfolding is_segment squeeze ends_in_slash
segment-IsName [] h = cc h
segment-IsName (c ∷ cs) h =
    let first : is_alphanumeric c ≡ true = ground arith in
    let is_char : is_segment_char c ≡ true = alphanumeric-plain c first in
    let (not_slash, same) = segment_char-plain c is_char in
    let (a, b, d) = segment-plain cs (ground arith) in
    record {
      squeezed = λ z. ground (arith, not_slash, a);
      ends = λ z. ground (arith, not_slash, b);
      mapped = ground (arith, same, d);
    }

-- A folder, as `joinPath` makes one: joining changes nothing, and no slash ends it.
pub record IsFolder (a : List ℕ) : Type 0 where
  pub same : squeeze false (map to_slash a) ≡ a
  pub solid : ends_in_slash false (map to_slash a) ≡ false
  pub given : a ≢ []

pub join_parts-two : (a b : List ℕ) → a ≢ [] → b ≢ [] → join_parts (a ∷ b ∷ []) ≡ a ++ slash ∷ b
unfolding join_parts
join_parts-two [] b h k = absurd (h refl)
join_parts-two (c ∷ cs) [] h k = absurd (k refl)
join_parts-two (c ∷ cs) (d ∷ ds) h k = refl

pub segment-given : (b : List ℕ) → is_segment b ≡ true → b ≢ []
unfolding is_segment
segment-given [] h e = cc h
segment-given (c ∷ cs) h e = cc e

-- Joining a folder and a name puts a slash between them.
pub join_path-segment :
    (a b : List ℕ) → IsFolder a → is_segment b ≡ true → join_path (a ∷ b ∷ []) ≡ a ++ slash ∷ b
unfolding join_path squeeze
join_path-segment a b f h =
    let n = segment-IsName b h in
    let at = map to_slash a in
    ap (λ p. squeeze false (map to_slash p)) (join_parts-two a b f.given (segment-given b h))
    ∙ ap (squeeze false) (map-append to_slash a (slash ∷ b))
    ∙ squeeze-append false at (slash ∷ map to_slash b)
    ∙ rw (f.same, f.solid, n.mapped, n.squeezed true) refl

pub append-given : (a b : List ℕ) → a ≢ [] → (a ++ b) ≢ []
append-given [] b h e = h refl
append-given (c ∷ cs) b h e = cc e

pub IsFolder-segment : (a b : List ℕ) → IsFolder a → is_segment b ≡ true → IsFolder (a ++ slash ∷ b)
unfolding squeeze ends_in_slash to_slash
IsFolder-segment a b f h =
    let n = segment-IsName b h in
    let at = map to_slash a in
    record {
      same =
          ap (squeeze false) (map-append to_slash a (slash ∷ b))
          ∙ squeeze-append false at (slash ∷ map to_slash b)
          ∙ rw (f.same, f.solid, n.mapped, n.squeezed true) refl;
      solid =
          ap (ends_in_slash false) (map-append to_slash a (slash ∷ b))
          ∙ ends_in_slash-append false at (slash ∷ map to_slash b)
          ∙ rw (n.mapped, n.ends true) refl;
      given = append-given a (slash ∷ b) f.given;
    }

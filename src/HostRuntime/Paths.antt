-- ===== src/HostRuntime/Paths.antt =====
-- Paths of the host runtime: `joinPath` and the tests `isSafePathSegment`, `isSafeFileName` and
-- `isSafeAppDataRoot`. A path that is made is the list of its characters.
use easy_mc_server.Prelude.{
  ℕ, ◌≡◌, refl, Bool, true, false, not, ◌&&◌, ◌||◌, List, [], ◌∷◌, ◌++◌, map, Text, undefined, str,
  ◌==◌, eqb, leb, ltb, length, any, all, if◌then◌else◌,
}
use easy_mc_server.Prelude.Chars.{codes, chars, same_chars, ends_with}

abbrev pub slash : ℕ
slash = b'/'

abbrev backslash : ℕ
backslash = 92

-- `[A-Za-z0-9]`
unfoldable pub is_alphanumeric : ℕ → Bool
is_alphanumeric c =
    (leb b'A' c && leb c b'Z') || (leb b'a' c && leb c b'z') || (leb b'0' c && leb c b'9')

-- `[A-Za-z0-9._-]`
unfoldable pub is_segment_char : ℕ → Bool
unfolding is_alphanumeric
is_segment_char c = is_alphanumeric c || eqb c b'.' || eqb c b'_' || eqb c b'-'

-- `/^[A-Za-z0-9][A-Za-z0-9._-]*$/`
unfoldable pub is_segment : List ℕ → Bool
unfolding is_alphanumeric is_segment_char
is_segment [] = false
is_segment (c ∷ cs) = is_alphanumeric c && all is_segment_char cs

unfoldable pub is_safe_path_segment : Text → Bool
unfolding is_segment
is_safe_path_segment undefined = false
is_safe_path_segment (str s) =
    ltb 0 (length (codes s))
    && not (str s == str ".")
    && not (str s == str "..")
    && is_segment (codes s)
    && not (any (eqb slash) (codes s))
    && not (any (eqb backslash) (codes s))
    && not (any (eqb b':') (codes s))

unfoldable pub is_safe_file_name : Text → Bool
unfolding is_safe_path_segment
is_safe_file_name t = is_safe_path_segment t && ends_with (codes ".jar") (chars t)

-- `replaceAll("\\", "/")` on a character.
unfoldable pub to_slash : ℕ → ℕ
to_slash c = if eqb c backslash then slash else c

-- A character before the first segment.
unfoldable pub on_first : ℕ → List (List ℕ) → List (List ℕ)
on_first c [] = (c ∷ []) ∷ []
on_first c (s ∷ ss) = (c ∷ s) ∷ ss

-- `split("/")`
unfoldable pub split_path : List ℕ → List (List ℕ)
unfolding on_first
split_path [] = [] ∷ []
split_path (c ∷ cs) = let rest = split_path cs in if eqb c slash then [] ∷ rest else on_first c rest

unfoldable pub has_parent_path_segment : List ℕ → Bool
unfolding split_path to_slash
has_parent_path_segment p = any (same_chars (codes "..")) (split_path (map to_slash p))

-- The white space that `trim` takes away.
unfoldable pub is_space : ℕ → Bool
is_space c =
    (leb 9 c && leb c 13)
    || eqb c 32
    || eqb c 160
    || eqb c 5760
    || (leb 8192 c && leb c 8202)
    || eqb c 8232
    || eqb c 8233
    || eqb c 8239
    || eqb c 8287
    || eqb c 12288
    || eqb c 65279

unfoldable pub is_safe_app_data_root : Text → Bool
unfolding is_space has_parent_path_segment
is_safe_app_data_root undefined = false
is_safe_app_data_root (str p) =
    any (λ c. not (is_space c)) (codes p)
    && not (any (eqb 0) (codes p))
    && not (has_parent_path_segment (codes p))

-- `replaceAll(/\/+/g, "/")`, after a slash or not.
unfoldable pub squeeze : Bool → List ℕ → List ℕ
squeeze after [] = []
squeeze after (c ∷ cs) =
    let rest = squeeze (eqb c slash) cs in if eqb c slash && after then rest else c ∷ rest

-- `parts.filter(Boolean).join("/")`
unfoldable pub join_parts : List (List ℕ) → List ℕ
join_parts [] = []
join_parts ([] ∷ ps) = join_parts ps
join_parts ((c ∷ cs) ∷ ps) =
    let rest = join_parts ps in elim rest [ [] ↦ c ∷ cs | r ∷ rs ↦ c ∷ cs ++ slash ∷ r ∷ rs ]

-- The last replacement of the source puts a drive letter back as it was.
unfoldable pub join_path : List (List ℕ) → List ℕ
unfolding squeeze join_parts to_slash
join_path ps = squeeze false (map to_slash (join_parts ps))

joined :
    join_path (codes "C:\\data\\" ∷ codes "rooms" ∷ [] ∷ codes "r1" ∷ []) ≡ codes "C:/data/rooms/r1"
unfolding join_path
joined = refl

parents : has_parent_path_segment (codes "a\\..\\b") ≡ true
unfolding has_parent_path_segment same_chars any
parents = refl

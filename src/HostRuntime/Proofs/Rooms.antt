-- ===== src/HostRuntime/Proofs/Rooms.antt =====
-- The folder of a room, and what lies in it.
use mathlib.Core.List.{map-append, append_assoc}
use easy_mc_server.Prelude.{
  ℕ, ◌≡◌, ◌≢◌, refl, sym, ap, ◌∙◌, true, false, List, [], ◌∷◌, ◌++◌, map, Text, undefined, str, All,
  arith,
}
use easy_mc_server.Prelude.Chars.{codes, chars}
use easy_mc_server.HostRuntime.Paths.{
  slash, is_segment, is_safe_path_segment, is_safe_file_name, to_slash, squeeze, join_parts,
  join_path,
}
use easy_mc_server.HostRuntime.Proofs.Joining.{
  segment-IsName, IsFolder, join_path-segment, IsFolder-segment, ends_in_slash, squeeze-append,
  squeeze_idem, map-squeeze, ends_in_slash-append, segment-given,
}

pub safe_path_segment-segment :
    (t : Text) → is_safe_path_segment t ≡ true → is_segment (chars t) ≡ true
unfolding is_safe_path_segment
safe_path_segment-segment undefined h = cc h
safe_path_segment-segment (str s) h = ground (arith, h)

pub safe_file_name-segment : (t : Text) → is_safe_file_name t ≡ true → is_segment (chars t) ≡ true
unfolding is_safe_file_name
safe_file_name-segment t h = safe_path_segment-segment t (ground (arith, h))

-- The folder of all rooms, with the slash that ends it.
unfoldable pub rooms_of : List ℕ → List ℕ
rooms_of root = squeeze false (map to_slash (root ++ codes "/rooms/"))

join_parts-three :
    (root id : List ℕ)
    → root ≢ []
    → id ≢ []
    → join_parts (root ∷ codes "rooms" ∷ id ∷ []) ≡ root ++ codes "/rooms/" ++ id
unfolding join_parts
join_parts-three [] id h k = absurd (h refl)
join_parts-three (c ∷ cs) [] h k = absurd (k refl)
join_parts-three (c ∷ cs) (d ∷ ds) h k = sym (append_assoc (c ∷ cs) (codes "/rooms/") (d ∷ ds))

pub room_root-rooms_of :
    (root id : List ℕ)
    → root ≢ []
    → is_segment id ≡ true
    → join_path (root ∷ codes "rooms" ∷ id ∷ []) ≡ rooms_of root ++ id
unfolding join_path rooms_of
room_root-rooms_of root id h k =
    let n = segment-IsName id k in
    let x = root ++ codes "/rooms/" in
    ap (λ p. squeeze false (map to_slash p)) (join_parts-three root id h (segment-given id k))
    ∙ ap (squeeze false) (map-append to_slash x id)
    ∙ squeeze-append false (map to_slash x) (map to_slash id)
    ∙ rw (n.mapped, n.squeezed) refl

append-given_right : (a b : List ℕ) → b ≢ [] → (a ++ b) ≢ []
append-given_right [] b h e = h e
append-given_right (c ∷ cs) b h e = cc e

pub joined-IsFolder :
    (x id : List ℕ) → is_segment id ≡ true → IsFolder (squeeze false (map to_slash x) ++ id)
joined-IsFolder x id k =
    let n = segment-IsName id k in
    let s = squeeze false (map to_slash x) in
    let joined : map to_slash (s ++ id) ≡ s ++ id =
      map-append to_slash s id ∙ rw (map-squeeze false x, n.mapped) refl in
    record {
      same =
          ap (squeeze false) joined
          ∙ squeeze-append false s id
          ∙ rw (squeeze_idem false (map to_slash x), n.squeezed) refl;
      solid = ap (ends_in_slash false) joined ∙ ends_in_slash-append false s id ∙ n.ends _;
      given = append-given_right s id (segment-given id k);
    }

pub room_root-IsFolder : (root id : List ℕ) → is_segment id ≡ true → IsFolder (rooms_of root ++ id)
unfolding rooms_of
room_root-IsFolder root id k = joined-IsFolder (root ++ codes "/rooms/") id k

abbrev pub descend : List ℕ → List (List ℕ) → List ℕ
descend base [] = base
descend base (n ∷ ns) = descend (base ++ slash ∷ n) ns

-- A path that goes down from a folder by names only, one at least, none of which is "." or "..".
pub record IsWithin (base p : List ℕ) : Type 0 where
  pub name : List ℕ
  pub names : List (List ℕ)
  pub goes : p ≡ descend base (name ∷ names)
  pub are_names : All (λ n. is_segment n ≡ true) (name ∷ names)

pub child-IsWithin :
    (base n : List ℕ)
    → IsFolder base
    → is_segment n ≡ true
    → IsWithin base (join_path (base ∷ n ∷ []))
child-IsWithin base n f h = record {
  name = n;
  names = [];
  goes = join_path-segment base n f h;
  are_names = (h, tt);
}

pub grandchild-IsWithin :
    (base m n : List ℕ)
    → IsFolder base
    → is_segment m ≡ true
    → is_segment n ≡ true
    → IsWithin base (join_path (join_path (base ∷ m ∷ []) ∷ n ∷ []))
grandchild-IsWithin base m n f h k = record {
  name = m;
  names = n ∷ [];
  goes =
      ap (λ z. join_path (z ∷ n ∷ [])) (join_path-segment base m f h)
      ∙ join_path-segment (base ++ slash ∷ m) n (IsFolder-segment base m f h) k;
  are_names = (h, (k, tt));
}

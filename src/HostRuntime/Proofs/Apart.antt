-- ===== src/HostRuntime/Proofs/Apart.antt =====
-- What the plan of a room writes lies in the folder of the room, and the folders of two rooms are apart.
use mathlib.Core.List.{append_assoc, append-nil}
use easy_mc_server.Prelude.{
  ℕ, ◌≡◌, ◌≢◌, refl, sym, ap, subst, ◌∙◌, true, List, [], ◌∷◌, ◌++◌, Text, undefined, str, all, All,
  arith, ok,
}
use easy_mc_server.Prelude.Chars.{codes, chars, codes-equal}
use easy_mc_server.HostRuntime.Paths.{slash, is_segment_char, is_segment, is_safe_path_segment}
use easy_mc_server.HostRuntime.Input.{RuntimeInput}
use easy_mc_server.HostRuntime.Plan.{Plan, create_host_runtime_plan}
use easy_mc_server.HostRuntime.Proofs.Joining.{segment_char-plain, alphanumeric-plain}
use easy_mc_server.HostRuntime.Proofs.Guards.{root_of}
use easy_mc_server.HostRuntime.Proofs.Opening.{plan_for, planned-MayOpen}
use easy_mc_server.HostRuntime.Proofs.Shared.{trunk, rooms_of-trunk}
use easy_mc_server.HostRuntime.Proofs.Rooms.{safe_path_segment-segment, rooms_of, descend, IsWithin}
use easy_mc_server.HostRuntime.Proofs.Placed.{
  room_paths, cached_paths, metadata_name, room_folder, plan_for-IsWithin, plan_for-cached,
}

descend-below : (base : List ℕ) (ns : List (List ℕ)) → (r : List ℕ) × (descend base ns ≡ base ++ r)
descend-below base [] = ([], sym (append-nil base))
descend-below base (n ∷ ns) =
    let (r, e) = descend-below (base ++ slash ∷ n) ns in
    ((slash ∷ n) ++ r, e ∙ append_assoc base (slash ∷ n) r)

append-cancel : (xs ys zs : List ℕ) → xs ++ ys ≡ xs ++ zs → ys ≡ zs
append-cancel [] ys zs e = e
append-cancel (x ∷ xs) ys zs e = append-cancel xs ys zs (cc e)

-- Two names that stand before a slash in the same text are the same.
names-cut :
    (a b r t : List ℕ)
    → all is_segment_char a ≡ true
    → all is_segment_char b ≡ true
    → a ++ slash ∷ r ≡ b ++ slash ∷ t
    → a ≡ b
unfolding all
names-cut [] [] r t h k e = refl
names-cut [] (d ∷ ds) r t h k e =
    let same : slash ≡ d = cc e in
    let (not_slash, other) = segment_char-plain d (ground (arith, k)) in
    absurd (ground (arith, same, not_slash))
names-cut (c ∷ cs) [] r t h k e =
    let same : c ≡ slash = cc e in
    let (not_slash, other) = segment_char-plain c (ground (arith, h)) in
    absurd (ground (arith, same, not_slash))
names-cut (c ∷ cs) (d ∷ ds) r t h k e =
    let heads : c ≡ d = cc e in
    let tails : cs ++ slash ∷ r ≡ ds ++ slash ∷ t = cc e in
    let rest = names-cut cs ds r t (ground (arith, h)) (ground (arith, k)) tails in cc (heads, rest)

segment-chars : (cs : List ℕ) → is_segment cs ≡ true → all is_segment_char cs ≡ true
unfolding is_segment all
segment-chars [] h = refl
segment-chars (c ∷ cs) h = ground (arith, h, alphanumeric-plain c)

IsWithin-below : (base x : List ℕ) → IsWithin base x → (r : List ℕ) × (x ≡ base ++ slash ∷ r)
IsWithin-below base x w =
    let (r, e) = descend-below (base ++ slash ∷ w.name) w.names in
    (w.name ++ r, w.goes ∙ e ∙ append_assoc base (slash ∷ w.name) r)

-- A path in the folders of two rooms is in the folder of one room.
IsWithin-room :
    (root a b x : List ℕ)
    → is_segment a ≡ true
    → is_segment b ≡ true
    → IsWithin (rooms_of root ++ a) x
    → IsWithin (rooms_of root ++ b) x
    → a ≡ b
IsWithin-room root a b x h k v w =
    let (r, e) = IsWithin-below (rooms_of root ++ a) x v in
    let (t, f) = IsWithin-below (rooms_of root ++ b) x w in
    names-cut a b r t (segment-chars a h) (segment-chars b k) (
      append-cancel (rooms_of root) (a ++ slash ∷ r) (b ++ slash ∷ t) (
        sym (append_assoc (rooms_of root) a (slash ∷ r))
        ∙ sym e
        ∙ f
        ∙ append_assoc (rooms_of root) b (slash ∷ t)))

safe_ids-equal :
    (a b : Text)
    → is_safe_path_segment a ≡ true
    → is_safe_path_segment b ≡ true
    → chars a ≡ chars b
    → a ≡ b
unfolding is_safe_path_segment
safe_ids-equal undefined b h k e = cc h
safe_ids-equal (str s) undefined h k e = cc k
safe_ids-equal (str s) (str t) h k e = ap str (codes-equal s t e)

All-map :
    {P Q : List ℕ → Type 0}
    → ((x : List ℕ) → P x → Q x)
    → (xs : List (List ℕ)) → All P xs
    → All Q xs
All-map f [] a = tt
All-map f (x ∷ xs) a = (f x a.0, All-map f xs a.1)

-- A path in the folder of a room is none in the cache of its root.
room-cache :
    (root id x r : List ℕ)
    → IsWithin (rooms_of root ++ id) x
    → x ≡ trunk root ++ codes "cache" ++ r
    → ⊥
room-cache root id x r v e =
    let (t, f) = IsWithin-below (rooms_of root ++ id) x v in
    let in_rooms : x ≡ trunk root ++ (codes "rooms/" ++ id ++ slash ∷ t) =
      f
      ∙ ap (λ z. z ++ id ++ slash ∷ t) (rooms_of-trunk root)
      ∙ ap (λ z. z ++ slash ∷ t) (append_assoc (trunk root) (codes "rooms/") id)
      ∙ append_assoc (trunk root) (codes "rooms/" ++ id) (slash ∷ t) in
    let tails =
      append-cancel (trunk root) (codes "rooms/" ++ id ++ slash ∷ t) (codes "cache" ++ r)
        (sym in_rooms ∙ e ∙ append_assoc (trunk root) (codes "cache") r) in
    r_is_not-c (cc tails)
  where
    r_is_not-c : ◌≡◌ {A = ℕ} 114 99 → ⊥
    r_is_not-c h = omega (arith, h)

-- The facts of a plan that is made.
plan-facts :
    (input : RuntimeInput) (p : Plan)
    → create_host_runtime_plan input ≡ ok p
    → is_segment (metadata_name p) ≡ true
    → (is_safe_path_segment input.room.id ≡ true)
      × (p.layout.room_root ≡ room_folder input)
      × All (IsWithin p.layout.room_root) (room_paths p)
      × (p.cache.root ≡ trunk (chars (root_of input)) ++ codes "cache")
      × All (IsWithin p.cache.root) (cached_paths p)
plan-facts input p e named =
    let (state, selected, l, m, f, same) = planned-MayOpen input p e in
    let q = plan_for input state selected l in
    let placed =
      subst
        (λ z.
          (z.layout.room_root ≡ room_folder input)
          × All (IsWithin z.layout.room_root) (room_paths z))
        (sym same) (plan_for-IsWithin input state selected l m) in
    let cached =
      subst
        (λ z.
          (z.cache.root ≡ trunk (chars (root_of input)) ++ codes "cache")
          × All (IsWithin z.cache.root) (cached_paths z))
        (sym same)
        (plan_for-cached input state selected l m
          (subst (λ z. is_segment (metadata_name z) ≡ true) same named)) in
    (m.room_id, placed.0, placed.1, cached.0, cached.1)

-- In a plan whose version makes a safe file name, the room's own paths lie below the folder of the
-- room, and those for downloads and metadata below the cache, by names that lead no way up. The plans
-- of two rooms under one root, whose ids differ, share the cache, and no path of the one room's own is
-- a path of the other room's own, the cache, or one below it. The sources of mods, which the input may
-- name, are left out.
pub room_paths-IsWithin :
    (i j : RuntimeInput) (p q : Plan)
    → create_host_runtime_plan i ≡ ok p
    → create_host_runtime_plan j ≡ ok q
    → is_segment (metadata_name p) ≡ true
    → is_segment (metadata_name q) ≡ true
    → root_of i ≡ root_of j
    → i.room.id ≢ j.room.id
    → All (IsWithin p.layout.room_root) (room_paths p)
      × All (IsWithin p.cache.root) (cached_paths p)
      × (p.cache.root ≡ q.cache.root)
      × All (λ x. All (λ y. x ≢ y) (room_paths q)) (room_paths p)
      × All (λ x. All (λ y. x ≢ y) (q.cache.root ∷ cached_paths q)) (room_paths p)
room_paths-IsWithin i j p q e f named also same other =
    let (p_safe, p_root, p_in, p_cache, p_cached) = plan-facts i p e named in
    let (q_safe, q_root, q_in, q_cache, q_cached) = plan-facts j q f also in
    let at_j = ap (λ t. rooms_of (chars t) ++ chars j.room.id) (sym same) in
    let one_cache : q.cache.root ≡ trunk (chars (root_of i)) ++ codes "cache" =
      q_cache ∙ ap (λ t. trunk (chars t) ++ codes "cache") (sym same) in
    let in_room =
      λ (x : List ℕ) (v : IsWithin p.layout.room_root x). subst (λ b. IsWithin b x) p_root v in
    let meet =
      λ (x y : List ℕ) (v : IsWithin p.layout.room_root x) (w : IsWithin q.layout.room_root y)
          (z : x ≡ y).
        other (
          safe_ids-equal i.room.id j.room.id p_safe q_safe (
            IsWithin-room (chars (root_of i)) (chars i.room.id) (chars j.room.id) x
              (safe_path_segment-segment i.room.id p_safe)
              (safe_path_segment-segment j.room.id q_safe) (in_room x v)
              (subst (λ b. IsWithin b x) (q_root ∙ at_j)
                (subst (IsWithin q.layout.room_root) (sym z) w)))) in
    let beside =
      λ (x y : List ℕ) (v : IsWithin p.layout.room_root x) (w : IsWithin q.cache.root y)
          (z : x ≡ y).
        let (r, g) = IsWithin-below q.cache.root y w in
        room-cache (chars (root_of i)) (chars i.room.id) x (slash ∷ r) (in_room x v)
          (z ∙ g ∙ ap (λ c. c ++ slash ∷ r) one_cache) in
    let aside = λ (x : List ℕ) (v : IsWithin p.layout.room_root x) (z : x ≡ q.cache.root).
      room-cache (chars (root_of i)) (chars i.room.id) x [] (in_room x v)
        (z ∙ one_cache ∙ sym (append-nil (trunk (chars (root_of i)) ++ codes "cache"))) in
    (
      p_in,
      p_cached,
      p_cache ∙ sym one_cache,
      All-map (λ x v. All-map (λ y w. meet x y v w) (room_paths q) q_in) (room_paths p) p_in,
      All-map (λ x v. (aside x v, All-map (λ y w. beside x y v w) (cached_paths q) q_cached))
          (room_paths p) p_in,
    )

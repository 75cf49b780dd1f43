-- ===== src/HostRuntime/Proofs/Shared.antt =====
-- The folder that the rooms under one root share, which is beside the folder of the rooms.
use mathlib.Core.List.{map-append, append_assoc}
use easy_mc_server.Prelude.{
  ℕ, ◌≡◌, ◌≢◌, refl, sym, ap, ◌∙◌, Bool, true, false, List, [], ◌∷◌, ◌++◌, map, all,
}
use easy_mc_server.Prelude.Chars.{codes}
use easy_mc_server.HostRuntime.Paths.{slash, is_segment, to_slash, squeeze, join_parts, join_path}
use easy_mc_server.HostRuntime.Proofs.Joining.{
  segment-IsName, IsFolder, squeeze-append, segment-given, join_parts-two,
}
use easy_mc_server.HostRuntime.Proofs.Rooms.{rooms_of, joined-IsFolder}

-- A root with the slash that ends it.
unfoldable pub trunk : List ℕ → List ℕ
trunk root = squeeze false (map to_slash (root ++ (slash ∷ [])))

join_path-trunk :
    (root n : List ℕ)
    → root ≢ []
    → is_segment n ≡ true
    → join_path (root ∷ n ∷ []) ≡ trunk root ++ n
unfolding join_path trunk
join_path-trunk root n h k =
    let x = root ++ (slash ∷ []) in
    let name = segment-IsName n k in
    ap (λ p. squeeze false (map to_slash p))
      (join_parts-two root n h (segment-given n k) ∙ sym (append_assoc root (slash ∷ []) n))
    ∙ ap (squeeze false) (map-append to_slash x n)
    ∙ squeeze-append false (map to_slash x) (map to_slash n)
    ∙ rw (name.mapped, name.squeezed) refl

-- A text without slashes at its front, after the root.
squeeze-trunk :
    (root t : List ℕ)
    → map to_slash t ≡ t
    → ((b : Bool) → squeeze b t ≡ t)
    → squeeze false (map to_slash (root ++ (slash ∷ []) ++ t)) ≡ trunk root ++ t
unfolding trunk
squeeze-trunk root t mapped squeezed =
    let x = root ++ (slash ∷ []) in
    ap (squeeze false) (map-append to_slash x t)
    ∙ squeeze-append false (map to_slash x) (map to_slash t)
    ∙ rw (mapped, squeezed) refl

pub rooms_of-trunk : (root : List ℕ) → rooms_of root ≡ trunk root ++ codes "rooms/"
unfolding rooms_of to_slash squeeze
rooms_of-trunk root =
    ap (λ p. squeeze false (map to_slash p)) (sym (append_assoc root (slash ∷ []) (codes "rooms/")))
    ∙ squeeze-trunk root (codes "rooms/") refl (λ b.
      elim b as (λ z. squeeze z (codes "rooms/") ≡ codes "rooms/") [ true ↦ refl | false ↦ refl ])

join_parts-cache :
    (root n : List ℕ)
    → root ≢ []
    → n ≢ []
    → join_parts (root ∷ codes "cache" ∷ n ∷ [])
      ≡ root ++ (slash ∷ []) ++ (codes "cache" ++ slash ∷ n)
unfolding join_parts
join_parts-cache [] n h k = absurd (h refl)
join_parts-cache (c ∷ cs) [] h k = absurd (k refl)
join_parts-cache (c ∷ cs) (d ∷ ds) h k =
    sym (append_assoc (c ∷ cs) (slash ∷ []) (codes "cache" ++ slash ∷ d ∷ ds))

-- The cache of a root.
pub cache-IsFolder :
    (root : List ℕ)
    → root ≢ []
    → (join_path (root ∷ codes "cache" ∷ []) ≡ trunk root ++ codes "cache")
      × IsFolder (trunk root ++ codes "cache")
unfolding trunk is_segment all
cache-IsFolder root h = (
  join_path-trunk root (codes "cache") h refl,
  joined-IsFolder (root ++ (slash ∷ [])) (codes "cache") refl,
)

-- A folder of the cache.
pub join_path-cache :
    (root n : List ℕ)
    → root ≢ []
    → is_segment n ≡ true
    → join_path (root ∷ codes "cache" ∷ n ∷ []) ≡ trunk root ++ codes "cache" ++ slash ∷ n
unfolding join_path to_slash squeeze
join_path-cache root n h k =
    let name = segment-IsName n k in
    ap (λ p. squeeze false (map to_slash p)) (join_parts-cache root n h (segment-given n k))
    ∙ squeeze-trunk root (codes "cache" ++ slash ∷ n) (rw name.mapped refl) (λ b.
      elim b as (λ z. squeeze z (codes "cache" ++ slash ∷ n) ≡ codes "cache" ++ slash ∷ n) [
        | true ↦ rw (name.squeezed true) refl
        | false ↦ rw (name.squeezed true) refl
      ])
    ∙ sym (append_assoc (trunk root) (codes "cache") (slash ∷ n))

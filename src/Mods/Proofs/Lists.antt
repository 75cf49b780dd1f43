-- ===== src/Mods/Proofs/Lists.antt =====
-- Lists of missing fields, and members of lists that are mapped or are filtered to nothing.
use easy_mc_server.Prelude.{
  ℕ, suc, ◌≡◌, ◌⊎◌, refl, sym, subst, ap, ◌∙◌, Bool, true, false, not, ◌&&◌, List, [], ◌∷◌, ◌++◌,
  map, filter, All, arith, inl, inr, Bool-cases,
}
use mathlib.Core.List.{Memᴰ}
use mathlib.Core.List.Memᴰ
use easy_mc_server.Mods.Entry.{ModFile}
use easy_mc_server.Mods.Metadata.{Field, none_missing, evaluate_files}
use easy_mc_server.Mods.Verdict.{is_nil}

pub none_missing-append :
    (xs ys : List Field) → none_missing (xs ++ ys) ≡ (none_missing xs && none_missing ys)
none_missing-append [] ys = refl
none_missing-append (x ∷ xs) ys = refl

pub evaluate_files-each :
    (evaluate : ℕ → ModFile → List Field) (P : ModFile → Type 0)
    (each : (i : ℕ) (f : ModFile) → none_missing (evaluate i f) ≡ true → P f) (i : ℕ)
    (fs : List ModFile)
    → none_missing (evaluate_files evaluate i fs) ≡ true
    → All P fs
unfolding evaluate_files
evaluate_files-each evaluate P each i [] h = tt
evaluate_files-each evaluate P each i (f ∷ fs) h =
    let split = none_missing-append (evaluate i f) (evaluate_files evaluate (suc i) fs) in
    (each i f (ground arith), evaluate_files-each evaluate P each (suc i) fs (ground arith))

module _ {A : Type 0} where
  pub is_nil-append : (xs : List A) (x : A) → is_nil (xs ++ (x ∷ [])) ≡ false
  is_nil-append [] x = refl
  is_nil-append (y ∷ xs) x = refl

  pub is_nil-filter :
      (p : A → Bool) (xs : List A) (a : A)
      → is_nil (filter (λ x. not (p x)) xs) ≡ true
      → Memᴰ a xs
      → p a ≡ true
  unfolding filter
  is_nil-filter p [] a h m = elim m [ ]
  is_nil-filter p (x ∷ xs) a h m = elim (Bool-cases (p x)) [
    | inr b ↦ cc (rw b at h)
    | inl b ↦ elim (Memᴰ.cases_cons m) [
      | inl e ↦ ap p e ∙ b
      | inr n ↦ is_nil-filter p xs a (rw b at h) n
    ]
  ]

  pub List-cases : (xs : List A) → (xs ≡ []) ⊎ ((y : A) × (ys : List A) × (xs ≡ (y ∷ ys)))
  List-cases [] = inl refl
  List-cases (y ∷ ys) = inr (y, ys, refl)

  pub All-tabulate {κ} : (P : A → Type κ) (xs : List A) → ((a : A) → Memᴰ a xs → P a) → All P xs
  All-tabulate P [] h = tt
  All-tabulate P (x ∷ xs) h = (h x (Memᴰ.head refl), All-tabulate P xs (λ a m. h a (Memᴰ.tail m)))

  pub All-append {κ} : (P : A → Type κ) (xs ys : List A) → All P xs → All P ys → All P (xs ++ ys)
  All-append P [] ys h k = k
  All-append P (x ∷ xs) ys h k = (h.0, All-append P xs ys h.1 k)

  pub All-Memᴰ {κ} : (P : A → Type κ) (xs : List A) (a : A) → All P xs → Memᴰ a xs → P a
  All-Memᴰ P (x ∷ xs) a h (Memᴰ.head e) = subst P (sym e) h.0
  All-Memᴰ P (x ∷ xs) a h (Memᴰ.tail m) = All-Memᴰ P xs a h.1 m
  All-Memᴰ P [] a h m = elim m [ ]

module _ {A B : Type 0} (f : A → B) where
  pub All-map {κ} : (P : B → Type κ) (xs : List A) → All (λ a. P (f a)) xs → All P (map f xs)
  All-map P [] h = tt
  All-map P (x ∷ xs) h = (h.0, All-map P xs h.1)

  pub map-Memᴰ : (xs : List A) (a : A) → Memᴰ a xs → Memᴰ (f a) (map f xs)
  map-Memᴰ [] a m = elim m [ ]
  map-Memᴰ (x ∷ xs) a (Memᴰ.head e) = Memᴰ.head (ap f e)
  map-Memᴰ (x ∷ xs) a (Memᴰ.tail m) = Memᴰ.tail (map-Memᴰ xs a m)

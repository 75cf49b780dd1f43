-- ===== src/Prelude/Histories.antt =====
-- Histories: a step for each call, one after the other, where a call may have to be fresh.
use mathlib.Core.List.{List, [], ◌∷◌}

module _ {ℓ κ} {S : Type ℓ} {C : Type κ} (step : S → C → S) where
  unfoldable pub run_all : S → List C → S
  run_all s [] = s
  run_all s (c ∷ cs) = run_all (step s c) cs

  abbrev pub EachFresh {μ} : (C → S → Type μ) → S → List C → Type μ
  EachFresh fresh s [] = Unit
  EachFresh fresh s (c ∷ cs) = fresh c s × EachFresh fresh (step s c) cs

  -- What every fresh call keeps holds after every such history.
  pub run_all_induction {μ ν} :
      (fresh : C → S → Type μ) (P : S → Type ν)
      → ((s : S) (c : C) → fresh c s → P s → P (step s c))
      → (s : S) (cs : List C) → EachFresh fresh s cs
      → P s
      → P (run_all s cs)
  unfolding run_all
  run_all_induction fresh P keep s [] f h = h
  run_all_induction fresh P keep s (c ∷ cs) f h =
      run_all_induction fresh P keep (step s c) cs f.1 (keep s c f.0 h)

-- ===== src/Base/Dict.antt =====
-- Hash maps as association lists. The order stands for an iteration order the code must not rely on.
pub mod Laws
use Prim.Native.Nat.{ℕ, suc, ◌+◌, ◌≤◌, ◌<◌}
use mathlib.Core.Path.{◌≡◌, refl}
use mathlib.Core.Logic.{◌≢◌, ◌⊎◌, inl, inr, ite}
use mathlib.Core.Bool.{Bool, true, false}
use mathlib.Core.Option.{Option, none, some}
use mathlib.Core.List.{List, [], ◌∷◌, ◌++◌, map}
use native.Mathlib.Omega.{arith}
use ida_rs_cli.Base.Tests.{Eq, if◌then◌else◌}
use ida_rs_cli.Base.Lists.{length}

abbrev pub Dict {ℓ} : Type ℓ → Type ℓ → Type ℓ
Dict K V = List (K × V)

module _ {ℓ} {K V : Type ℓ} where
  -- `retain`.
  unfoldable pub retain : (K → V → Bool) → Dict K V → Dict K V
  retain p [] = []
  retain p ((k, v) ∷ d) = let rest = retain p d in if p k v then (k, v) ∷ rest else rest

  abbrev pub keys : Dict K V → List K
  keys [] = []
  keys ((k, v) ∷ d) = k ∷ keys d

  abbrev pub values : Dict K V → List V
  values [] = []
  values ((k, v) ∷ d) = v ∷ values d

  -- Every entry satisfies a predicate.
  abbrev pub All {μ} : (K → V → Type μ) → Dict K V → Type μ
  All P [] = Unit
  All P ((k, v) ∷ d) = P k v × All P d

module _ {ℓ} {K V : Type ℓ} ⦃e : Eq K⦄ where
  unfoldable pub lookup : K → Dict K V → Option V
  lookup k [] = none
  lookup k ((j, v) ∷ d) = ite (e.dec j k) (some v) (lookup k d)

  -- `insert`, which replaces the value of a key that is there.
  unfoldable pub insert : K → V → Dict K V → Dict K V
  insert k v [] = (k, v) ∷ []
  insert k v ((j, w) ∷ d) = ite (e.dec j k) ((k, v) ∷ d) ((j, w) ∷ insert k v d)

  -- `remove`.
  unfoldable pub remove : K → Dict K V → Dict K V
  remove k [] = []
  remove k ((j, w) ∷ d) = let rest = remove k d in ite (e.dec j k) rest ((j, w) ∷ rest)

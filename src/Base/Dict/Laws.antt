-- ===== src/Base/Dict/Laws.antt =====
-- What a lookup finds after each map operation, how sizes change, and that keys stay distinct.
use Prim.Native.Nat.{suc, ◌≤◌}
use mathlib.Core.Path.{◌≡◌, refl}
use mathlib.Core.Logic.{inl, inr, ite, if_pos, if_neg}
use mathlib.Core.Bool.{Bool}
use mathlib.Core.Option.{Option, none, some}
use mathlib.Core.List.{[], ◌∷◌}
use native.Mathlib.Omega.{arith}
use ida_rs_cli.Base.Tests.{Eq, if◌then◌else◌, Option-cases}
use ida_rs_cli.Base.Lists.{length}
use ida_rs_cli.Base.Dict.{Dict, retain, All, lookup, insert, remove}

abbrev pub keep_if {ℓ} : {K V : Type ℓ} → (K → V → Bool) → K → Option V → Option V
keep_if p k none = none
keep_if p k (some v) = if p k v then some v else none

module _ {ℓ} {K V : Type ℓ} where
  pub length-retain-le : (p : K → V → Bool) (d : Dict K V) → length (retain p d) ≤ length d
  unfolding retain
  length-retain-le p [] = omega arith
  length-retain-le p ((k, v) ∷ d) = ground (arith, length-retain-le p d)

  pub retain-All {μ} :
      (P : K → V → Type μ) (p : K → V → Bool) (d : Dict K V) → All P d → All P (retain p d)
  unfolding retain
  retain-All P p [] h = tt
  retain-All P p ((k, v) ∷ d) h = ground (arith, retain-All P p d h.1)

module _ {ℓ} {K V : Type ℓ} ⦃e : Eq K⦄ where
  abbrev pub NodupKeys : Dict K V → Type ℓ
  NodupKeys [] = Unit
  NodupKeys ((k, _) ∷ d) = (lookup k d ≡ none) × NodupKeys d

  pub lookup-insert :
      (j k : K) (v : V) (d : Dict K V)
      → lookup j (insert k v d) ≡ ite (e.dec k j) (some v) (lookup j d)
  unfolding lookup insert
  lookup-insert j k v [] = refl
  lookup-insert j k v ((i, w) ∷ d) = ground (arith, lookup-insert j k v d)

  pub lookup-remove :
      (j k : K) (d : Dict K V) → lookup j (remove k d) ≡ ite (e.dec k j) none (lookup j d)
  unfolding lookup remove
  lookup-remove j k [] = ground arith
  lookup-remove j k ((i, w) ∷ d) = ground (arith, lookup-remove j k d)

  lookup-retain-none :
      (k : K) (p : K → V → Bool) (d : Dict K V) → lookup k d ≡ none → lookup k (retain p d) ≡ none
  unfolding lookup retain
  lookup-retain-none k p [] h = refl
  lookup-retain-none k p ((j, v) ∷ d) h = ground (arith, lookup-retain-none k p d)

  pub lookup-retain :
      (k : K) (p : K → V → Bool) (d : Dict K V)
      → NodupKeys d
      → lookup k (retain p d) ≡ keep_if p k (lookup k d)
  unfolding lookup retain
  lookup-retain k p [] u = refl
  lookup-retain k p ((j, v) ∷ d) u =
      ground (arith, lookup-retain k p d u.1, lookup-retain-none k p d)

  pub insert-NodupKeys : (k : K) (v : V) (d : Dict K V) → NodupKeys d → NodupKeys (insert k v d)
  unfolding insert lookup
  insert-NodupKeys k v [] u = (refl, tt)
  insert-NodupKeys k v ((j, w) ∷ d) u =
      ground (arith, insert-NodupKeys k v d u.1, lookup-insert j k v d)

  pub remove-NodupKeys : (k : K) (d : Dict K V) → NodupKeys d → NodupKeys (remove k d)
  unfolding remove
  remove-NodupKeys k [] u = tt
  remove-NodupKeys k ((j, w) ∷ d) u = ground (arith, remove-NodupKeys k d u.1, lookup-remove j k d)

  pub retain-NodupKeys : (p : K → V → Bool) (d : Dict K V) → NodupKeys d → NodupKeys (retain p d)
  unfolding retain
  retain-NodupKeys p [] u = tt
  retain-NodupKeys p ((j, w) ∷ d) u =
      ground (arith, retain-NodupKeys p d u.1, lookup-retain-none j p d u.0)

  pub length-insert_new :
      (k : K) (v : V) (d : Dict K V) → lookup k d ≡ none → length (insert k v d) ≡ suc (length d)
  unfolding lookup insert
  length-insert_new k v [] h = refl
  length-insert_new k v ((j, w) ∷ d) h = ground (arith, length-insert_new k v d)

  pub length-insert_old :
      (k : K) (v w : V) (d : Dict K V) → lookup k d ≡ some w → length (insert k v d) ≡ length d
  unfolding lookup insert
  length-insert_old k v w [] h = absurd (cc)
  length-insert_old k v w ((j, x) ∷ d) h = ground (arith, length-insert_old k v w d)

  pub length-insert-le : (k : K) (v : V) (d : Dict K V) → length (insert k v d) ≤ suc (length d)
  length-insert-le k v d = elim (Option-cases (lookup k d)) [
    | inl h ↦ omega (arith, length-insert_new k v d h)
    | inr (w, h) ↦ omega (arith, length-insert_old k v w d h)
  ]

  pub length-remove-le : (k : K) (d : Dict K V) → length (remove k d) ≤ length d
  unfolding remove
  length-remove-le k [] = omega arith
  length-remove-le k ((j, w) ∷ d) = ground (arith, length-remove-le k d)

  pub length-remove_old :
      (k : K) (w : V) (d : Dict K V) → lookup k d ≡ some w → suc (length (remove k d)) ≤ length d
  unfolding lookup remove
  length-remove_old k w [] h = absurd (cc)
  length-remove_old k w ((j, x) ∷ d) h =
      ground (arith, length-remove_old k w d, length-remove-le k d)

  -- A predicate on all entries holds of what a lookup finds, and is kept by each operation.
  pub All-lookup {μ} :
      (P : K → V → Type μ) (k : K) {v : V} (d : Dict K V) → All P d → lookup k d ≡ some v → P k v
  unfolding lookup
  All-lookup P k [] h f = absurd (cc)
  All-lookup P k {v} ((j, w) ∷ d) h f = elim (e.dec j k) [
    | yes p ↦ subst2 p (some_eq (rw (if_pos _ p) at f)) h.0
    | no p ↦ All-lookup P k d h.1 (rw (if_neg _ p) at f)
  ]
    where
      some_eq : some w ≡ some v → w ≡ v
      some_eq q = cc

      subst2 : j ≡ k → w ≡ v → P j w → P k v
      subst2 p q x = rw (← p, ← q) x

  pub All-insert {μ} :
      (P : K → V → Type μ) (k : K) (v : V) (d : Dict K V) → All P d → P k v → All P (insert k v d)
  unfolding insert
  All-insert P k v [] h x = (x, tt)
  All-insert P k v ((j, w) ∷ d) h x = ground (arith, All-insert P k v d h.1 x)

  pub All-remove {μ} : (P : K → V → Type μ) (k : K) (d : Dict K V) → All P d → All P (remove k d)
  unfolding remove
  All-remove P k [] h = tt
  All-remove P k ((j, w) ∷ d) h = ground (arith, All-remove P k d h.1)

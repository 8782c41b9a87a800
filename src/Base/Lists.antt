-- ===== src/Base/Lists.antt =====
-- Lists measured by native numbers, and predicates on all elements.
use Prim.Native.Nat.{ℕ, zero, suc, ◌+◌, ◌-◌, ◌≤◌, min}
use mathlib.Core.Path.{◌≡◌, refl, ap}
use mathlib.Core.Bool.{Bool, true, false, ◌||◌}
use mathlib.Core.List.{List, [], ◌∷◌, ◌++◌}
use mathlib.Core.Logic.{inl, inr, if_pos}
use native.Mathlib.Omega.{arith}
use ida_rs_cli.Base.Tests.{if◌then◌else◌, Eq, ◌==◌, leb, Bool-cases}

module _ {ℓ} {A : Type ℓ} where
  abbrev pub length : List A → ℕ
  length [] = 0
  length (x ∷ xs) = suc (length xs)

  abbrev pub take : ℕ → List A → List A
  take zero xs = []
  take (suc n) [] = []
  take (suc n) (x ∷ xs) = x ∷ take n xs

  abbrev pub drop : ℕ → List A → List A
  drop zero xs = xs
  drop (suc n) [] = []
  drop (suc n) (x ∷ xs) = drop n xs

  -- The elements that pass a test, in order.
  abbrev pub select : (A → Bool) → List A → List A
  select p [] = []
  select p (x ∷ xs) = let rest = select p xs in if p x then x ∷ rest else rest

  -- `contains` of a vector, a slice or a set.
  abbrev pub contains : ⦃e : Eq A⦄ → List A → A → Bool
  contains [] a = false
  contains (x ∷ xs) a = x == a || contains xs a

  pub contains-here : ⦃e : Eq A⦄ (x : A) (xs : List A) → contains (x ∷ xs) x ≡ true
  contains-here ⦃e⦄ x xs = rw (if_pos (e.dec x x) refl true false) refl

  pub contains-there :
      ⦃e : Eq A⦄ (y : A) (x : A) (xs : List A) → contains xs x ≡ true → contains (y ∷ xs) x ≡ true
  contains-there y x xs h = elim (Bool-cases (y == x)) [ inl t ↦ rw t refl | inr f ↦ rw f h ]

  pub length-append : (xs ys : List A) → length (xs ++ ys) ≡ length xs + length ys
  length-append [] ys = omega arith
  length-append (x ∷ xs) ys = omega (arith, length-append xs ys)

  pub length-push :
      (n : ℕ) (xs : List A) (x : A) → leb n (length xs) ≡ false → length (xs ++ x ∷ []) ≤ n
  length-push n xs x room = let l = length-append xs (x ∷ []) in ground (arith, l)

  pub length-take : (n : ℕ) (xs : List A) → length (take n xs) ≡ min n (length xs)
  length-take zero xs = omega arith
  length-take (suc n) [] = omega arith
  length-take (suc n) (x ∷ xs) = omega (arith, length-take n xs)

  pub length-drop : (n : ℕ) (xs : List A) → length (drop n xs) ≡ length xs - n
  length-drop zero xs = omega arith
  length-drop (suc n) [] = omega arith
  length-drop (suc n) (x ∷ xs) = omega (arith, length-drop n xs)

  pub length-select-le : (p : A → Bool) (xs : List A) → length (select p xs) ≤ length xs
  length-select-le p [] = omega arith
  length-select-le p (x ∷ xs) = ground (arith, length-select-le p xs)

pub append_assoc {ℓ} : {A : Type ℓ} → (xs ys zs : List A) → (xs ++ ys) ++ zs ≡ xs ++ (ys ++ zs)
append_assoc [] ys zs = refl
append_assoc (x ∷ xs) ys zs = ap (λ l. x ∷ l) (append_assoc xs ys zs)

pub append_nil {ℓ} : {A : Type ℓ} → (xs : List A) → xs ++ [] ≡ xs
append_nil [] = refl
append_nil (x ∷ xs) = ap (λ l. x ∷ l) (append_nil xs)

pub drop_nil {ℓ} : {A : Type ℓ} → (n : ℕ) → drop {A = A} n [] ≡ []
drop_nil zero = refl
drop_nil (suc n) = refl

pub take_nil {ℓ} : {A : Type ℓ} → (n : ℕ) → take {A = A} n [] ≡ []
take_nil zero = refl
take_nil (suc n) = refl

module _ {ℓ κ} {A : Type ℓ} where
  -- A predicate on every element.
  abbrev pub Every : (A → Type κ) → List A → Type κ
  Every P [] = Unit
  Every P (x ∷ xs) = P x × Every P xs

  pub Every-take : (P : A → Type κ) (n : ℕ) (xs : List A) → Every P xs → Every P (take n xs)
  Every-take P zero xs h = tt
  Every-take P (suc n) [] h = tt
  Every-take P (suc n) (x ∷ xs) h = (h.0, Every-take P n xs h.1)

  pub Every-map :
      (P Q : A → Type κ) → ((a : A) → P a → Q a) → (xs : List A) → Every P xs → Every Q xs
  Every-map P Q f [] h = tt
  Every-map P Q f (x ∷ xs) h = (f x h.0, Every-map P Q f xs h.1)

  pub Every-append :
      (P : A → Type κ) (xs ys : List A) → Every P xs → Every P ys → Every P (xs ++ ys)
  Every-append P [] ys h k = k
  Every-append P (x ∷ xs) ys h k = (h.0, Every-append P xs ys h.1 k)

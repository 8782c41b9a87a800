-- ===== src/Base/Distinct.antt =====
-- Lists of numbers that differ from one another, and how long they can be.
use ida_rs_cli.Base.{
  ℕ, zero, suc, ◌≤◌, ◌<◌, false, not, ◌||◌, List, [], ◌∷◌, ◌++◌, ◌==◌, nat_eq, length, select,
  contains, ◌≡◌, refl, subst, arith, Every, Bool-cases, inl, inr,
}

abbrev pub AllDistinct : List ℕ → Type 0
AllDistinct [] = Unit
AllDistinct (x ∷ xs) = (contains xs x ≡ false) × AllDistinct xs

abbrev others : ℕ → List ℕ → List ℕ
others n xs = select (λ y. not (y == n)) xs

contains-others : (n x : ℕ) (xs : List ℕ) → contains xs x ≡ false → contains (others n xs) x ≡ false
contains-others n x [] h = refl
contains-others n x (y ∷ xs) h = ground (arith, contains-others n x xs)

others-AllDistinct : (n : ℕ) (xs : List ℕ) → AllDistinct xs → AllDistinct (others n xs)
others-AllDistinct n [] h = tt
others-AllDistinct n (x ∷ xs) h =
    ground (arith, others-AllDistinct n xs h.1, contains-others n x xs h.0)

others-Every : (n : ℕ) (xs : List ℕ) → Every (λ x. x < suc n) xs → Every (λ x. x < n) (others n xs)
others-Every n [] h = tt
others-Every n (x ∷ xs) h = ground (arith, others-Every n xs h.1)

length-others_absent :
    (n : ℕ) (xs : List ℕ) → contains xs n ≡ false → length xs ≤ length (others n xs)
length-others_absent n [] h = omega arith
length-others_absent n (x ∷ xs) h = ground (arith, length-others_absent n xs)

length-others : (n : ℕ) (xs : List ℕ) → AllDistinct xs → length xs ≤ suc (length (others n xs))
length-others n [] h = omega arith
length-others n (x ∷ xs) h = elim (Bool-cases (x == n)) [
  | inl t ↦
      let same : x ≡ n = ground arith in
      rw (t)
        (omega (arith, length-others_absent n xs (subst (λ k. contains xs k ≡ false) same h.0)))
  | inr f ↦ rw (f) (omega (arith, length-others n xs h.1))
]

-- Numbers below `n` that differ from one another are `n` at most.
pub length-AllDistinct :
    (n : ℕ) (xs : List ℕ) → Every (λ x. x < n) xs → AllDistinct xs → length xs ≤ n
length-AllDistinct zero [] h d = omega arith
length-AllDistinct zero (x ∷ xs) h d = omega (arith, h.0)
length-AllDistinct (suc n) xs h d = omega (
  arith,
  length-others n xs d,
  length-AllDistinct n (others n xs) (others-Every n xs h) (others-AllDistinct n xs d),
)

contains-append :
    (n : ℕ) (xs ys : List ℕ) → contains (xs ++ ys) n ≡ (contains xs n || contains ys n)
contains-append n [] ys = refl
contains-append n (x ∷ xs) ys = ground (arith, contains-append n xs ys)

pub push-AllDistinct :
    (xs : List ℕ) (n : ℕ) → AllDistinct xs → contains xs n ≡ false → AllDistinct (xs ++ n ∷ [])
push-AllDistinct [] n d h = (refl, tt)
push-AllDistinct (x ∷ xs) n d h =
    ground (arith, push-AllDistinct xs n d.1, contains-append x xs (n ∷ []))

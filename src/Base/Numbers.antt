-- ===== src/Base/Numbers.antt =====
-- `u64` values as text: what `format!` prints and `parse` reads.
use Prim.Native.Char.{Char, code}
use Prim.Native.String.{String}
use Prim.Native.Nat.{ℕ, zero, suc, ◌+◌, ◌*◌, ◌/◌, ◌%◌, ◌^◌, ◌-◌, ◌<◌}
use mathlib.Core.Path.{◌≡◌, refl, ◌∙◌, ap}
use mathlib.Core.Logic.{inl, inr}
use mathlib.Core.Bool.{Bool, true, false, ◌&&◌}
use mathlib.Core.Option.{Option, none, some}
use native.Mathlib.Omega.{arith}
use native.Mathlib.Numerals.{unary_clauses}
use ida_rs_cli.Base.Tests.{if◌then◌else◌, ◌==◌, ltb, leb, nat_eq, Bool-cases}

abbrev pub word : ℕ
word = 2 ^ 64

unfoldable pub digit : ℕ → Char
digit zero = "0"
digit (suc zero) = "1"
digit (suc (suc zero)) = "2"
digit (suc (suc (suc zero))) = "3"
digit (suc (suc (suc (suc zero)))) = "4"
digit (suc (suc (suc (suc (suc zero))))) = "5"
digit (suc (suc (suc (suc (suc (suc zero)))))) = "6"
digit (suc (suc (suc (suc (suc (suc (suc zero))))))) = "7"
digit (suc (suc (suc (suc (suc (suc (suc (suc zero)))))))) = "8"
digit _ = "9"

-- The decimal digits before `rest`. A `u64` has 20 at most.
unfoldable pub digits_onto : ℕ → ℕ → String → String
digits_onto zero n rest = rest
digits_onto (suc fuel) n rest =
    let front = digits_onto fuel (n / 10) (String.◌∷◌ (digit (n % 10)) rest) in
    if ltb n 10 then String.◌∷◌ (digit n) rest else front

unfoldable pub print : ℕ → String
print n = digits_onto 20 n String.[]

abbrev pub is_digit : Char → Bool
is_digit c = leb 48 (code c) && leb (code c) 57

unfoldable pub parse_onto : ℕ → String → Option ℕ
parse_onto n String.[] = some n
parse_onto n (String.◌∷◌ c s) =
    let m = n * 10 + (code c - 48) in
    let rest = parse_onto m s in if is_digit c && ltb m word then rest else none

-- `parse::<u64>`: digits that stay below 2 ^ 64, behind one plus sign at most.
unfoldable pub parse : String → Option ℕ
parse String.[] = none
parse (String.◌∷◌ c s) =
    if code c == 43
    then elim s [ String.[] ↦ none | String.◌∷◌ d t ↦ parse_onto 0 (String.◌∷◌ d t) ]
    else parse_onto 0 (String.◌∷◌ c s)

code-digit : (d : ℕ) → d < 10 → code (digit d) ≡ 48 + d
unfolding digit
code-digit zero h = refl
code-digit (suc zero) h = refl
code-digit (suc (suc zero)) h = refl
code-digit (suc (suc (suc zero))) h = refl
code-digit (suc (suc (suc (suc zero)))) h = refl
code-digit (suc (suc (suc (suc (suc zero))))) h = refl
code-digit (suc (suc (suc (suc (suc (suc zero)))))) h = refl
code-digit (suc (suc (suc (suc (suc (suc (suc zero))))))) h = refl
code-digit (suc (suc (suc (suc (suc (suc (suc (suc zero)))))))) h = refl
code-digit (suc (suc (suc (suc (suc (suc (suc (suc (suc zero))))))))) h = refl
code-digit (suc (suc (suc (suc (suc (suc (suc (suc (suc (suc n)))))))))) h = absurd (omega arith)

ltb-true : (m : ℕ) → m < word → ltb m word ≡ true
ltb-true m k = ground arith

parse_onto-digit :
    (m n : ℕ) (rest : String)
    → n < 10
    → m * 10 + n < word
    → parse_onto m (String.◌∷◌ (digit n) rest) ≡ parse_onto (m * 10 + n) rest
unfolding parse_onto
parse_onto-digit m n rest h k =
    let c = code-digit n h in
    let at : m * 10 + (code (digit n) - 48) ≡ m * 10 + n = omega (arith, c) in
    let shown : is_digit (digit n) ≡ true = ground (arith, c) in
    rw (shown, at, ltb-true (m * 10 + n) k)

tenth : (fuel n : ℕ) → n < 10 ^ suc fuel → n / 10 < 10 ^ fuel
tenth fuel n h = let k = simp unary_clauses at h in omega (arith, k)

parse_onto-digits_onto :
    (fuel n : ℕ) (rest : String)
    → n < 10 ^ fuel
    → n < word
    → parse_onto 0 (digits_onto fuel n rest) ≡ parse_onto n rest
unfolding digits_onto
parse_onto-digits_onto zero n rest h k = ap (λ i. parse_onto i rest) (omega (arith, h))
parse_onto-digits_onto (suc fuel) n rest h k = elim (Bool-cases (ltb n 10)) [
  | inl one ↦ rw one (
      parse_onto-digit 0 n rest (ground arith) (omega arith)
      ∙ ap (λ i. parse_onto i rest) (omega arith))
  | inr more ↦ rw more (
      parse_onto-digits_onto fuel (n / 10) (String.◌∷◌ (digit (n % 10)) rest) (tenth fuel n h)
        (omega arith)
      ∙ parse_onto-digit (n / 10) (n % 10) rest (omega arith) (omega arith)
      ∙ ap (λ i. parse_onto i rest) (omega arith))
]

abbrev has_head : String → Bool
has_head String.[] = false
has_head (String.◌∷◌ c s) = true

digits_onto-has_head :
    (fuel n : ℕ) (c : Char) (rest : String)
    → has_head (digits_onto fuel n (String.◌∷◌ c rest)) ≡ true
unfolding digits_onto
digits_onto-has_head zero n c rest = refl
digits_onto-has_head (suc fuel) n c rest =
    ground (arith, digits_onto-has_head fuel (n / 10) (digit (n % 10)) (String.◌∷◌ c rest))

print-has_head : (n : ℕ) → has_head (print n) ≡ true
unfolding print digits_onto
print-has_head n = elim (Bool-cases (ltb n 10)) [
  | inl one ↦ rw one refl
  | inr more ↦ rw more (digits_onto-has_head 19 (n / 10) (digit (n % 10)) String.[])
]

parse-parse_onto :
    (s : String) (n : ℕ) → has_head s ≡ true → parse_onto 0 s ≡ some n → parse s ≡ some n
unfolding parse parse_onto
parse-parse_onto String.[] n h e = cc
parse-parse_onto (String.◌∷◌ c s) n h e = elim (Bool-cases (code c == 43)) [
  | inr other ↦ rw other e
  | inl plus ↦ absurd (no_plus (ground arith))
]
  where
    no_plus : is_digit c ≡ false → ⊥
    no_plus off = let f = rw off at e in cc

-- What is printed is read back.
pub parse-print : (n : ℕ) → n < word → parse (print n) ≡ some n
unfolding print parse_onto
parse-print n h =
    parse-parse_onto (print n) n (print-has_head n)
      (parse_onto-digits_onto 20 n String.[] (omega arith) h)

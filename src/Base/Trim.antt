-- ===== src/Base/Trim.antt =====
-- Rust's `trim`, `trim_matches` and `to_ascii_lowercase`.
use Prim.Native.Char.{Char, char, code, IsScalar}
use Prim.Native.Nat.{ℕ, ◌+◌, ◌-◌, ◌%◌, ◌<◌, compare, Ordering}
use Prim.Native.String.{String}
use mathlib.Core.Path.{◌≡◌, refl, sym, ap, ◌∙◌}
use mathlib.Core.Bool.{Bool, true, false, ◌&&◌, ◌||◌}
use mathlib.Core.Logic.{◌≢◌, inl, inr, if_pos, if_neg}
use native.Mathlib.Omega.{arith}
use ida_rs_cli.Base.Tests.{if◌then◌else◌, ◌==◌, leb, nat_eq, string_eq, Bool-cases}

-- Unicode's White_Space.
abbrev pub is_space : ℕ → Bool
is_space n =
    (leb 9 n && leb n 13)
    || n == 32
    || n == 133
    || n == 160
    || n == 5760
    || (leb 8192 n && leb n 8202)
    || n == 8232
    || n == 8233
    || n == 8239
    || n == 8287
    || n == 12288

abbrev pub trim_start_by : (ℕ → Bool) → String → String
trim_start_by p String.[] = String.[]
trim_start_by p (String.◌∷◌ c s) =
    let rest = trim_start_by p s in if p (code c) then rest else String.◌∷◌ c s

abbrev pub cons_trimmed : Bool → Char → String → String
cons_trimmed true c String.[] = String.[]
cons_trimmed true c (String.◌∷◌ d s) = String.◌∷◌ c (String.◌∷◌ d s)
cons_trimmed false c s = String.◌∷◌ c s

abbrev pub trim_end_by : (ℕ → Bool) → String → String
trim_end_by p String.[] = String.[]
trim_end_by p (String.◌∷◌ c s) = cons_trimmed (p (code c)) c (trim_end_by p s)

abbrev pub trim_by : (ℕ → Bool) → String → String
trim_by p s = trim_end_by p (trim_start_by p s)

-- `str::trim`.
abbrev pub trim : String → String
trim s = trim_by is_space s

pub below-IsScalar : (n : ℕ) → n < 55296 → IsScalar n
below-IsScalar n h = let e : compare n 55296 ≡ Ordering.lt = ground arith in rw e tt

unfoldable pub lower_letter : ℕ → Char
lower_letter k = char (97 + k % 26) (below-IsScalar (97 + k % 26) (omega arith))

abbrev lower_char : Char → Char
lower_char c = if leb 65 (code c) && leb (code c) 90 then lower_letter (code c - 65) else c

-- `str::to_ascii_lowercase`.
abbrev pub to_ascii_lowercase : String → String
to_ascii_lowercase String.[] = String.[]
to_ascii_lowercase (String.◌∷◌ c s) = String.◌∷◌ (lower_char c) (to_ascii_lowercase s)

abbrev all_of : (ℕ → Bool) → String → Bool
all_of p String.[] = true
all_of p (String.◌∷◌ c s) = p (code c) && all_of p s

abbrev pub is_blank : String → Bool
is_blank String.[] = true
is_blank (String.◌∷◌ c s) = false

all_of-trim_start : (p : ℕ → Bool) (s : String) → all_of p (trim_start_by p s) ≡ all_of p s
all_of-trim_start p String.[] = refl
all_of-trim_start p (String.◌∷◌ c s) = elim (Bool-cases (p (code c))) [
  | inl t ↦ rw t (all_of-trim_start p s)
  | inr f ↦ rw (f, trim_start_by) (ap (λ b. b && all_of p s) f)
]

cons_true :
    (p : ℕ → Bool) (c : Char) (s : String)
    → p (code c) ≡ true
    → all_of p (cons_trimmed true c s) ≡ all_of p s
cons_true p c String.[] t = refl
cons_true p c (String.◌∷◌ d s) t = ap (λ b. b && all_of p (String.◌∷◌ d s)) t

all_of-cons_trimmed :
    (p : ℕ → Bool) (c : Char) (s : String)
    → all_of p (cons_trimmed (p (code c)) c s) ≡ (p (code c) && all_of p s)
all_of-cons_trimmed p c s = elim (Bool-cases (p (code c))) [
  | inl t ↦ rw t (cons_true p c s t)
  | inr f ↦ rw f (ap (λ b. b && all_of p s) f)
]

all_of-trim_end : (p : ℕ → Bool) (s : String) → all_of p (trim_end_by p s) ≡ all_of p s
all_of-trim_end p String.[] = refl
all_of-trim_end p (String.◌∷◌ c s) =
    all_of-cons_trimmed p c (trim_end_by p s) ∙ ap (λ b. p (code c) && b) (all_of-trim_end p s)

blank-cons_trimmed : (c : Char) (s : String) → is_blank (cons_trimmed true c s) ≡ is_blank s
blank-cons_trimmed c String.[] = refl
blank-cons_trimmed c (String.◌∷◌ d s) = refl

blank-trim_end : (p : ℕ → Bool) (s : String) → is_blank (trim_end_by p s) ≡ all_of p s
blank-trim_end p String.[] = refl
blank-trim_end p (String.◌∷◌ c s) = elim (Bool-cases (p (code c))) [
  | inl t ↦ rw t (blank-cons_trimmed c (trim_end_by p s) ∙ blank-trim_end p s)
  | inr f ↦ rw f refl
]

blank-trim : (p : ℕ → Bool) (s : String) → is_blank (trim_by p s) ≡ all_of p s
blank-trim p s = blank-trim_end p (trim_start_by p s) ∙ all_of-trim_start p s

pub blank-trim-trim :
    (p : ℕ → Bool) (s : String) → is_blank (trim_by p (trim_by p s)) ≡ is_blank (trim_by p s)
blank-trim-trim p s =
    blank-trim p (trim_by p s)
    ∙ all_of-trim_end p (trim_start_by p s)
    ∙ all_of-trim_start p s
    ∙ sym (blank-trim p s)

nonempty : (c : Char) (s : String) → String.◌∷◌ c s ≢ ""
nonempty c s q = absurd (cc)

pub blank-eq : (s : String) → (s == "") ≡ is_blank s
blank-eq String.[] = if_pos (string_eq.dec "" "") refl true false
blank-eq (String.◌∷◌ c s) = if_neg (string_eq.dec (String.◌∷◌ c s) "") (nonempty c s) true false

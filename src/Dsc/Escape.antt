-- ===== src/Dsc/Escape.antt =====
-- Python reads an escaped text back, and nothing of it as code.
use ida_rs_cli.Base.{
  ℕ, true, false, ◌||◌, Option, none, some, List, [], ◌∷◌, ◌++◌, append_assoc, if◌then◌else◌, ◌==◌,
  nat_eq, ◌≡◌, refl, sym, subst, Bool-cases, inl, inr, arith,
}
use ida_rs_cli.Dsc.{replace, escape_python_string}

abbrev and_char : ℕ → Option (List ℕ × List ℕ) → Option (List ℕ × List ℕ)
and_char c none = none
and_char c (some (text, rest)) = some (c ∷ text, rest)

-- The character that Python reads for a backslash and `e`, among those that the escaping writes.
abbrev unescaped : ℕ → Option ℕ
unescaped e =
    if e == 92
    then some 92
    else if e == 34
    then some 34
    else if e == 110
    then some 10
    else if e == 114
    then some 13
    else none

-- How Python reads a double-quoted text after its opening quote: the text and what follows the closing
-- quote. A raw end of line in it is an error. That Python refuses a script with a NUL is left out.
abbrev pub read_quoted : List ℕ → Option (List ℕ × List ℕ)
read_quoted [] = none
read_quoted (c ∷ []) = if c == 34 then some ([], []) else none
read_quoted (c ∷ e ∷ cs) =
    let escaped = read_quoted cs in
    let plain = read_quoted (e ∷ cs) in
    if c == 34
    then some ([], e ∷ cs)
    else if c == 10 || c == 13
    then none
    else if c == 92
    then elim (unescaped e) [ none ↦ none | some d ↦ and_char d escaped ]
    else and_char c plain

replace-append :
    (c : ℕ) (t xs ys : List ℕ) → replace c t (xs ++ ys) ≡ replace c t xs ++ replace c t ys
replace-append c t [] ys = refl
replace-append c t (x ∷ xs) ys = elim (Bool-cases (x == c)) [
  | inl e ↦
      rw (e, replace-append c t xs ys) (sym (append_assoc t (replace c t xs) (replace c t ys)))
  | inr f ↦ rw (f, replace-append c t xs ys) refl
]

escape-append :
    (xs ys : List ℕ)
    → escape_python_string (xs ++ ys) ≡ escape_python_string xs ++ escape_python_string ys
unfolding escape_python_string
escape-append xs ys =
    rw
      (
        replace-append 92 (92 ∷ 92 ∷ []) xs ys,
        replace-append 34 (92 ∷ 34 ∷ []) (replace 92 (92 ∷ 92 ∷ []) xs)
            (replace 92 (92 ∷ 92 ∷ []) ys),
        replace-append 10 (92 ∷ 110 ∷ []) (replace 34 (92 ∷ 34 ∷ []) (replace 92 (92 ∷ 92 ∷ []) xs))
            _,
        replace-append 13 (92 ∷ 114 ∷ [])
            (replace 10 (92 ∷ 110 ∷ []) (replace 34 (92 ∷ 34 ∷ []) (replace 92 (92 ∷ 92 ∷ []) xs)))
            _,
      )
      refl

-- What the escaping writes for one character.
data Escaped (c : ℕ) : Type 0 where
  coded : (e : ℕ) → escape_python_string (c ∷ []) ≡ 92 ∷ e ∷ [] → unescaped e ≡ some c → Escaped c
  kept :
      escape_python_string (c ∷ []) ≡ c ∷ []
      → (c == 34) ≡ false
      → (c == 10 || c == 13) ≡ false
      → (c == 92) ≡ false
      → Escaped c

escape_one : (c : ℕ) → Escaped c
unfolding escape_python_string nat_eq
escape_one c = elim (Bool-cases (c == 92)) [
  | inl t ↦ subst (λ x. Escaped x) (sym (is c 92 t)) (coded 92 refl refl)
  | inr a ↦ elim (Bool-cases (c == 34)) [
    | inl t ↦ subst (λ x. Escaped x) (sym (is c 34 t)) (coded 34 refl refl)
    | inr b ↦ elim (Bool-cases (c == 10)) [
      | inl t ↦ subst (λ x. Escaped x) (sym (is c 10 t)) (coded 110 refl refl)
      | inr d ↦ elim (Bool-cases (c == 13)) [
        | inl t ↦ subst (λ x. Escaped x) (sym (is c 13 t)) (coded 114 refl refl)
        | inr e ↦ kept (rw (a, b, d, e) refl) b (rw (d, e) refl) a
      ]
    ]
  ]
]
  where
    is : (m n : ℕ) → (m == n) ≡ true → m ≡ n
    is m n h = ground arith

read_quoted-coded :
    (c e : ℕ) (xs : List ℕ)
    → unescaped e ≡ some c
    → read_quoted (92 ∷ e ∷ xs) ≡ and_char c (read_quoted xs)
unfolding nat_eq
read_quoted-coded c e xs h = rw (h) refl

read_quoted-kept :
    (c : ℕ) (xs rest : List ℕ)
    → (c == 34) ≡ false
    → (c == 10 || c == 13) ≡ false
    → (c == 92) ≡ false
    → read_quoted (c ∷ (xs ++ 34 ∷ rest)) ≡ and_char c (read_quoted (xs ++ 34 ∷ rest))
read_quoted-kept c [] rest a b d = rw (a, b, d) refl
read_quoted-kept c (x ∷ xs) rest a b d = rw (a, b, d) refl

read_quoted-end : (rest : List ℕ) → read_quoted (34 ∷ rest) ≡ some ([], rest)
unfolding nat_eq
read_quoted-end [] = refl
read_quoted-end (x ∷ xs) = refl

escape_nil : escape_python_string [] ≡ []
unfolding escape_python_string
escape_nil = refl

-- Python, reading a double-quoted text that holds the escaping of `s`, gets `s` back, and stops at the
-- quote that the script put behind it: nothing of `s` is read as code.
pub read_quoted-escape_python_string :
    (s rest : List ℕ) → read_quoted (escape_python_string s ++ 34 ∷ rest) ≡ some (s, rest)
read_quoted-escape_python_string [] rest = rw (escape_nil) (read_quoted-end rest)
read_quoted-escape_python_string (c ∷ s) rest =
    let next = read_quoted-escape_python_string s rest in
    rw (escape-append (c ∷ []) s) (elim (escape_one c) [
      | coded e w h ↦
          rw (w, read_quoted-coded c e (escape_python_string s ++ 34 ∷ rest) h, next) refl
      | kept w a b d ↦ rw (w, read_quoted-kept c (escape_python_string s) rest a b d, next) refl
    ])

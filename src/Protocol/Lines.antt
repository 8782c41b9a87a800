-- ===== src/Protocol/Lines.antt =====
-- The reader against the bytes alone: how they come in chunks makes no difference.
use ida_rs_cli.Base.{
  ℕ, ◌≤◌, ◌<◌, true, none, some, List, [], ◌∷◌, ◌++◌, length, length-append, append_assoc,
  append_nil, ltb, if◌then◌else◌, ◌==◌, nat_eq, ◌≡◌, refl, sym, ap, ◌∙◌, Bool-cases, Option-cases,
  inl, inr, arith, Every,
}
use ida_rs_cli.Protocol.{
  Read, line, too_long, split_newline, unread, ended, read_from, read_line_capped,
}

abbrev pub flat : List (List ℕ) → List ℕ
flat [] = []
flat (c ∷ chunks) = c ++ flat chunks

-- The bytes before the first newline, or all, and the bytes behind it.
abbrev pub first_line : List ℕ → List ℕ
first_line [] = []
first_line (b ∷ bs) = let rest = first_line bs in if b == 10 then [] else b ∷ rest

abbrev pub behind_line : List ℕ → List ℕ
behind_line [] = []
behind_line (b ∷ bs) = let rest = behind_line bs in if b == 10 then bs else rest

abbrev pub NonEmpty : List ℕ → Type 0
NonEmpty [] = ⊥
NonEmpty (b ∷ bs) = Unit

some_eq : {A : Type 0} {x y : A} → some x ≡ some y → x ≡ y
some_eq q = cc

none_not_some : (p : List ℕ × List ℕ) → none ≡ some p → ⊥
none_not_some p q = absurd (cc)

split-first :
    (c rest : List ℕ) (p : List ℕ × List ℕ)
    → split_newline c ≡ some p
    → (first_line (c ++ rest) ≡ p.0) × (behind_line (c ++ rest) ≡ p.1 ++ rest)
split-first [] rest p h = absurd (cc)
split-first (b ∷ bs) rest p h = elim (Bool-cases (b == 10)) [
  | inl t ↦ let q = some_eq (rw t at h) in rw t (ap (λ x. x.0) q, ap (λ x. x.1 ++ rest) q)
  | inr f ↦ elim (Option-cases (split_newline bs)) [
    | inl n ↦ absurd (none_not_some p (rw (f, n) at h))
    | inr (r, e) ↦
        let q = some_eq (rw (f, e) at h) in
        let ih = split-first bs rest r e in
        rw f (ap (λ l. b ∷ l) ih.0 ∙ ap (λ x. x.0) q, ih.1 ∙ ap (λ x. x.1 ++ rest) q)
  ]
]

split-none :
    (c rest : List ℕ)
    → split_newline c ≡ none
    → (first_line (c ++ rest) ≡ c ++ first_line rest) × (behind_line (c ++ rest) ≡ behind_line rest)
split-none [] rest h = (refl, refl)
split-none (b ∷ bs) rest h = elim (Bool-cases (b == 10)) [
  | inl t ↦ absurd (none_not_some ([], bs) (sym (rw t at h)))
  | inr f ↦ elim (Option-cases (split_newline bs)) [
    | inl n ↦ let ih = split-none bs rest n in rw f (ap (λ l. b ∷ l) ih.0, ih.1)
    | inr (r, e) ↦ absurd (none_not_some (b ∷ r.0, r.1) (sym (rw (f, e) at h)))
  ]
]

-- What is read after `out`, by the bytes alone.
pub data Reads (max : ℕ) (bytes out : List ℕ) : Read → Type 0 where
  whole :
      {l : List ℕ} {rest : List (List ℕ)}
      → l ≡ out ++ first_line bytes
      → length l ≤ max
      → flat rest ≡ behind_line bytes
      → Reads max bytes out (line l rest)
  over :
      {rest : List (List ℕ)}
      → max < length (out ++ first_line bytes)
      → Reads max bytes out (too_long rest)

flat-unread : (bs : List ℕ) (chunks : List (List ℕ)) → flat (unread bs chunks) ≡ bs ++ flat chunks
flat-unread [] chunks = refl
flat-unread (b ∷ bs) chunks = refl

found-Reads :
    (max : ℕ) (bytes out before : List ℕ) (rest : List (List ℕ))
    → first_line bytes ≡ before
    → flat rest ≡ behind_line bytes
    → Reads max bytes out (ended max (out ++ before) rest)
found-Reads max bytes out before rest f b = elim (Bool-cases (ltb max (length (out ++ before)))) [
  | inl t ↦ rw t (over (rw f (ground arith)))
  | inr g ↦ rw g (whole (rw f refl) (ground arith) b)
]

more-Reads :
    (max : ℕ) (c rest out : List ℕ) (r : Read)
    → split_newline c ≡ none
    → Reads max rest (out ++ c) r
    → Reads max (c ++ rest) out r
more-Reads max c rest out r n (whole e l b) =
    let s = split-none c rest n in
    whole (e ∙ append_assoc out c (first_line rest) ∙ ap (λ l. out ++ l) (sym s.0)) l (b ∙ sym s.1)
more-Reads max c rest out r n (over m) =
    over (rw ((split-none c rest n).0, ← append_assoc out c (first_line rest)) m)

longer :
    (max : ℕ) (out c rest : List ℕ)
    → ltb max (length (out ++ c)) ≡ true
    → max < length (out ++ (c ++ rest))
longer max out c rest t =
    let h : max < length (out ++ c) = ground arith in
    omega (arith, length-append out c, length-append out (c ++ rest), length-append c rest, h)

read_from-Reads :
    (max : ℕ) (out : List ℕ) (chunks : List (List ℕ))
    → length out ≤ max
    → Every NonEmpty chunks
    → Reads max (flat chunks) out (read_from max out chunks)
unfolding read_from
read_from-Reads max out [] h k = whole (sym (append_nil out)) h refl
read_from-Reads max out ([] ∷ chunks) h k = absurd k.0
read_from-Reads max out ((b ∷ bs) ∷ chunks) h k = elim (Option-cases (split_newline (b ∷ bs))) [
  | inl n ↦
      rw (n, read_from)
        (elim (Bool-cases (ltb max (length (out ++ b ∷ bs)))) [
          | inl t ↦ rw t (
              over (
                rw ((split-none (b ∷ bs) (flat chunks) n).0)
                  (longer max out (b ∷ bs) (first_line (flat chunks)) t)))
          | inr f ↦ rw f (
              more-Reads max (b ∷ bs) (flat chunks) out _ n
                (read_from-Reads max (out ++ b ∷ bs) chunks (ground arith) k.1))
        ])
  | inr (p, e) ↦
      let s = split-first (b ∷ bs) (flat chunks) p e in
      rw (e, read_from)
        (found-Reads max (b ∷ (bs ++ flat chunks)) out p.0 (unread p.1 chunks) s.0
          (flat-unread p.1 chunks ∙ sym s.1))
]

-- However the bytes come in chunks, none of them empty: when the first line has `max` bytes at most, the
-- reader returns it without its newline (all bytes, if there is no newline) and leaves exactly the bytes
-- behind it to be read; when it is longer, the reader fails.
pub read_line_capped-Reads :
    (max : ℕ) (chunks : List (List ℕ))
    → Every NonEmpty chunks
    → Reads max (flat chunks) [] (read_line_capped max chunks)
unfolding read_line_capped
read_line_capped-Reads max chunks k = read_from-Reads max [] chunks (omega arith) k

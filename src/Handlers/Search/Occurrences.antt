-- ===== src/Handlers/Search/Occurrences.antt =====
-- Where a pattern stands, and that the loop over a chunk finds it there.
use ida_rs_cli.Base.{
  ℕ, zero, suc, ◌+◌, ◌-◌, ◌≤◌, Bool, true, ◌&&◌, List, [], ◌∷◌, ◌++◌, length, length-push,
  append_assoc, append_nil, take, ltb, leb, if◌then◌else◌, ◌≡◌, refl, sym, ap, ◌∙◌, Bool-cases, inl,
  inr, arith,
}
use ida_rs_cli.Handlers.Search.{Pattern, Segment, byte_fits, starts, scan}

-- The bytes at an address, and whether a pattern stands there.
abbrev pub read : (ℕ → ℕ) → ℕ → ℕ → List ℕ
read mem addr zero = []
read mem addr (suc n) = mem addr ∷ read mem (suc addr) n

abbrev pub stands : (ℕ → ℕ) → Pattern → ℕ → Bool
stands mem [] addr = true
stands mem (p ∷ ps) addr = byte_fits p (mem addr) && stands mem ps (suc addr)

-- Among `n` addresses from `addr` on, those where the pattern stands.
abbrev pub occurrences : (ℕ → ℕ) → Pattern → ℕ → ℕ → List ℕ
occurrences mem pat zero addr = []
occurrences mem pat (suc n) addr =
    let rest = occurrences mem pat n (suc addr) in if stands mem pat addr then addr ∷ rest else rest

-- All places in the segments where the pattern fits and stands.
abbrev pub all_occurrences : (ℕ → ℕ) → Pattern → List Segment → List ℕ
all_occurrences mem pat [] = []
all_occurrences mem pat (seg ∷ segs) =
    occurrences mem pat (seg.len + 1 - length pat) seg.start_address ++ all_occurrences mem pat segs

pub length-read : (mem : ℕ → ℕ) (addr n : ℕ) → length (read mem addr n) ≡ n
length-read mem addr zero = refl
length-read mem addr (suc n) = ap (λ k. suc k) (length-read mem (suc addr) n)

pub starts-read :
    (mem : ℕ → ℕ) (pat : Pattern) (addr n : ℕ)
    → length pat ≤ n
    → starts pat (read mem addr n) ≡ stands mem pat addr
starts-read mem [] addr n h = refl
starts-read mem (p ∷ ps) addr zero h = absurd (omega (arith, h))
starts-read mem (p ∷ ps) addr (suc n) h =
    ap (λ b. byte_fits p (mem addr) && b) (starts-read mem ps (suc addr) n (omega (arith, h)))

pub occurrences-add :
    (mem : ℕ → ℕ) (pat : Pattern) (m n addr : ℕ)
    → occurrences mem pat (m + n) addr
      ≡ occurrences mem pat m addr ++ occurrences mem pat n (addr + m)
occurrences-add mem pat zero n addr =
    let e : 0 + n ≡ n = omega arith in let f : addr + 0 ≡ addr = omega arith in rw (e, f) refl
occurrences-add mem pat (suc m) n addr =
    let e : suc m + n ≡ suc (m + n) = omega arith in
    let f : addr + suc m ≡ suc addr + m = omega arith in
    rw (e, f, occurrences-add mem pat m n (suc addr))
      (elim (Bool-cases (stands mem pat addr)) [ inl t ↦ rw t refl | inr g ↦ rw g refl ])

pub take_within : {A : Type 0} → (n : ℕ) (xs : List A) → length xs ≤ n → take n xs ≡ xs
take_within zero [] h = refl
take_within zero (x ∷ xs) h = absurd (omega (arith, h))
take_within (suc n) [] h = refl
take_within (suc n) (x ∷ xs) h = ap (λ l. x ∷ l) (take_within n xs (omega (arith, h)))

pub take_full : {A : Type 0} → (n : ℕ) (xs ys : List A) → length xs ≡ n → take n (xs ++ ys) ≡ xs
take_full zero [] ys h = refl
take_full zero (x ∷ xs) ys h = absurd (omega (arith, h))
take_full (suc n) [] ys h = absurd (omega (arith, h))
take_full (suc n) (x ∷ xs) ys h = ap (λ l. x ∷ l) (take_full n xs ys (omega (arith, h)))

pub take-take-append :
    {A : Type 0} → (n : ℕ) (xs ys : List A) → take n (take n xs ++ ys) ≡ take n (xs ++ ys)
take-take-append zero xs ys = refl
take-take-append (suc n) [] ys = refl
take-take-append (suc n) (x ∷ xs) ys = ap (λ l. x ∷ l) (take-take-append n xs ys)

module _ (mem : ℕ → ℕ) (pat : Pattern) (max_results : ℕ) (solid : 1 ≤ length pat) where
  pub scan-occurrences :
      (n addr : ℕ) (matches : List ℕ)
      → length matches ≤ max_results
      → scan pat max_results addr (read mem addr n) matches
        ≡ take max_results (matches ++ occurrences mem pat (n + 1 - length pat) addr)
  unfolding scan
  scan-occurrences zero addr matches h =
      let e : 0 + 1 - length pat ≡ 0 = omega (arith, solid) in
      rw (e, append_nil matches) (sym (take_within max_results matches h))
  scan-occurrences (suc n) addr matches h =
      let l : length (mem addr ∷ read mem (suc addr) n) ≡ suc n = length-read mem addr (suc n) in
      elim (Bool-cases (ltb (length (mem addr ∷ read mem (suc addr) n)) (length pat))) [
        | inl short ↦
            let e : suc n + 1 - length pat ≡ 0 = ground arith in
            rw (short, scan, e, append_nil matches) (sym (take_within max_results matches h))
        | inr fits ↦ elim (Bool-cases (leb max_results (length matches))) [
          | inl full ↦ rw (fits, scan, full) (sym (take_full max_results matches _ (ground arith)))
          | inr room ↦
              let e : suc n + 1 - length pat ≡ suc (n + 1 - length pat) = ground arith in
              let s = starts-read mem pat addr (suc n) (ground arith) in
              rw (fits, scan, room, e, s)
                (elim (Bool-cases (stands mem pat addr)) [
                  | inl t ↦ rw t (
                      scan-occurrences n (suc addr) (matches ++ addr ∷ [])
                        (length-push max_results matches addr room)
                      ∙ ap (λ l. take max_results l) (append_assoc matches (addr ∷ []) _))
                  | inr f ↦ rw f (scan-occurrences n (suc addr) matches h)
                ])
        ]
      ]

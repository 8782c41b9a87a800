-- ===== src/Paging/Laws.antt =====
-- What the loop computes: a slice of the filtered list, and its length.
use ida_rs_cli.Base.{
  ℕ, suc, ◌+◌, ◌-◌, Bool, true, false, List, [], ◌∷◌, ◌++◌, map, length, length-append,
  append_assoc, append_nil, drop_nil, take_nil, take, drop, select, leb, ◌≡◌, refl, sym, ap, ◌∙◌,
  arith, Bool-cases, inl, inr,
}
use ida_rs_cli.Paging.{Page, page, page_from, visit, admit}

pub page_eq {ℓ} :
    {B : Type ℓ} {xs ys : List B} {m n : ℕ}
    → xs ≡ ys
    → m ≡ n
    → Path (Page B) record { items = xs; total = m } record { items = ys; total = n }
page_eq p q i = record { items = p i; total = q i }

drop_before {ℓ} :
    {A : Type ℓ}
    → (offset t : ℕ) (a : A) (kept : List A) → leb (suc t) offset ≡ true
    → drop (offset - suc t) kept ≡ drop (offset - t) (a ∷ kept)
drop_before offset t a kept h =
    let e : offset - t ≡ suc (offset - suc t) = ground arith in rw e refl

drop_after {ℓ} :
    {A : Type ℓ}
    → (offset t : ℕ) (kept : List A) → leb (suc t) offset ≡ false
    → drop (offset - t) kept ≡ kept
drop_after offset t kept h = let e : offset - t ≡ 0 = ground arith in rw e refl

drop_after_suc {ℓ} :
    {A : Type ℓ}
    → (offset t : ℕ) (kept : List A) → leb (suc t) offset ≡ false
    → drop (offset - suc t) kept ≡ kept
drop_after_suc offset t kept h = let e : offset - suc t ≡ 0 = ground arith in rw e refl

take_full {ℓ} :
    {A : Type ℓ} → (limit n : ℕ) (xs : List A) → leb limit n ≡ true → take (limit - n) xs ≡ []
take_full limit n xs h = let e : limit - n ≡ 0 = ground arith in rw e refl

module _ {ℓ κ} {A : Type ℓ} {B : Type κ} where
  -- What remains to be shown of the kept elements `kept`, when the loop stands at `p`.
  abbrev shown : (A → B) → ℕ → ℕ → List A → Page B → Page B
  shown row offset limit kept p = record {
    items = p.items ++ map row (take (limit - length p.items) (drop (offset - p.total) kept));
    total = p.total + length kept;
  }

  push-shown :
      (row : A → B) (limit : ℕ) (a : A) (kept : List A) (items : List B)
      → leb limit (length items) ≡ false
      → (items ++ row a ∷ []) ++ map row (take (limit - length (items ++ row a ∷ [])) kept)
        ≡ items ++ map row (take (limit - length items) (a ∷ kept))
  push-shown row limit a kept items h =
      let m : limit - length (items ++ row a ∷ []) ≡ limit - suc (length items) =
        omega (arith, length-append items (row a ∷ [])) in
      let e : limit - length items ≡ suc (limit - suc (length items)) = ground arith in
      rw (m, e) (append_assoc items (row a ∷ []) (map row (take (limit - suc (length items)) kept)))

  admit-shown :
      (row : A → B) (offset limit : ℕ) (a : A) (kept : List A) (p : Page B)
      → shown row offset limit kept (admit row offset limit a p)
        ≡ shown row offset limit (a ∷ kept) p
  unfolding admit
  admit-shown row offset limit a kept p = elim (Bool-cases (leb (suc p.total) offset)) [
    | inl t ↦ rw t (
        page_eq
          (ap (λ l. p.items ++ map row (take (limit - length p.items) l))
            (drop_before offset p.total a kept t))
          (omega arith))
    | inr f ↦ rw f (elim (Bool-cases (leb limit (length p.items))) [
      | inl t ↦ rw t (
          page_eq
            (rw
              (
                take_full limit (length p.items) (drop (offset - suc p.total) kept) t,
                take_full limit (length p.items) (drop (offset - p.total) (a ∷ kept)) t,
              )
              refl)
            (omega arith))
      | inr g ↦ rw g (
          page_eq
            (rw (drop_after_suc offset p.total kept f, drop_after offset p.total (a ∷ kept) f)
              (push-shown row limit a kept p.items g))
            (omega arith))
    ])
  ]

  visit-shown :
      (keep : A → Bool) (row : A → B) (offset limit : ℕ) (a : A) (xs : List A) (p : Page B)
      → shown row offset limit (select keep xs) (visit keep row offset limit a p)
        ≡ shown row offset limit (select keep (a ∷ xs)) p
  unfolding visit
  visit-shown keep row offset limit a xs p = elim (Bool-cases (keep a)) [
    | inl t ↦ rw t (admit-shown row offset limit a (select keep xs) p)
    | inr f ↦ rw f refl
  ]

  page_from-shown :
      (keep : A → Bool) (row : A → B) (offset limit : ℕ) (xs : List A) (p : Page B)
      → page_from keep row offset limit xs p ≡ shown row offset limit (select keep xs) p
  unfolding page_from
  page_from-shown keep row offset limit [] p =
      page_eq
        (sym (
          rw (drop_nil {A = A} (offset - p.total), take_nil {A = A} (limit - length p.items))
            (append_nil p.items)))
        (omega arith)
  page_from-shown keep row offset limit (a ∷ xs) p =
      page_from-shown keep row offset limit xs (visit keep row offset limit a p)
      ∙ visit-shown keep row offset limit a xs p

  -- A page holds the rows of the elements that pass the filter, without the first `offset` of them
  -- and `limit` at most, in order; its total counts all that pass.
  pub page-slice :
      (keep : A → Bool) (row : A → B) (offset limit : ℕ) (xs : List A)
      → page keep row offset limit xs ≡ record {
        items = map row (take limit (drop offset (select keep xs)));
        total = length (select keep xs);
      }
  unfolding page
  page-slice keep row offset limit xs =
      page_from-shown keep row offset limit xs record { items = []; total = 0 }
      ∙ page_eq
          (let e : limit - 0 ≡ limit = omega arith in
            let f : offset - 0 ≡ offset = omega arith in rw (e, f) refl)
          (omega arith)

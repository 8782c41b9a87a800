-- ===== src/Paging/Walks.antt =====
-- A client that follows `next_offset` from page to page: abstractly, and for the shared loop.
use ida_rs_cli.Base.{
  ℕ, zero, suc, ◌+◌, ◌-◌, ◌≤◌, ◌<◌, min, Bool, true, false, Option, none, some, List, [], ◌∷◌, ◌++◌,
  map, length, length-take, length-drop, take, drop, select, ltb, if◌then◌else◌, ◌≡◌, refl, sym, ap,
  ◌∙◌, arith, Bool-cases, inl, inr,
}
use ida_rs_cli.Base.Numbers.{word}
use ida_rs_cli.Paging.{Served, page, next_offset, collect, follow}
use ida_rs_cli.Paging.Laws.{page-slice}

-- Where a page of `limit` rows at `offset` of `n` says that the next one starts.
abbrev pub next_of : ℕ → ℕ → ℕ → Option ℕ
next_of limit offset n =
    let stop = offset + min limit (n - offset) in if ltb stop n then some stop else none

pub served_eq {ℓ} :
    {B : Type ℓ} {xs ys : List B} {m n : Option ℕ}
    → xs ≡ ys
    → m ≡ n
    → Path (Served B) record { rows = xs; next = m } record { rows = ys; next = n }
served_eq p q i = record { rows = p i; next = q i }

module _ {ℓ} {B : Type ℓ} where
  take-drop : (k : ℕ) (xs : List B) → take k xs ++ drop k xs ≡ xs
  take-drop zero xs = refl
  take-drop (suc k) [] = refl
  take-drop (suc k) (x ∷ xs) = ap (λ l. x ∷ l) (take-drop k xs)

  drop-drop : (j k : ℕ) (xs : List B) → drop k (drop j xs) ≡ drop (j + k) xs
  drop-drop zero k xs = let e : 0 + k ≡ k = omega arith in rw e refl
  drop-drop (suc j) zero [] = let e : suc j + 0 ≡ suc j = omega arith in rw e refl
  drop-drop (suc j) (suc k) [] = let e : suc j + suc k ≡ suc (j + suc k) = omega arith in rw e refl
  drop-drop (suc j) k (x ∷ xs) =
      let e : suc j + k ≡ suc (j + k) = omega arith in rw e (drop-drop j k xs)

  take_all : (k : ℕ) (xs : List B) → length xs ≤ k → take k xs ≡ xs
  take_all zero [] h = refl
  take_all zero (x ∷ xs) h = absurd (omega (arith, h))
  take_all (suc k) [] h = refl
  take_all (suc k) (x ∷ xs) h = ap (λ l. x ∷ l) (take_all k xs (omega (arith, h)))

  -- The contract of a paged listing of `all`.
  abbrev pub Serves : List B → ℕ → (ℕ → Served B) → Type ℓ
  Serves all limit serve =
      (offset : ℕ)
      → serve offset
        ≡ record { rows = take limit (drop offset all); next = next_of limit offset (length all) }

  module _ (all : List B) (limit : ℕ) (serve : ℕ → Served B) (law : Serves all limit serve) where
    pub collect-all :
        1 ≤ limit
        → (fuel offset : ℕ) → offset ≤ length all
        → length all - offset < fuel
        → collect serve fuel offset ≡ some (drop offset all)
    collect-all pos zero offset h k = absurd (omega (arith, k))
    collect-all pos (suc fuel) offset h k =
        ap (λ s. follow s.rows (collect serve fuel) s.next) (law offset)
        ∙ elim (Bool-cases (ltb (offset + min limit (length all - offset)) (length all))) [
          | inl t ↦
              let e : min limit (length all - offset) ≡ limit = ground arith in
              let t' : ltb (offset + limit) (length all) ≡ true = ground arith in
              rw (e, t', collect-all pos fuel (offset + limit) (ground arith) (ground arith))
                (ap (λ l. some (take limit (drop offset all) ++ l))
                    (sym (drop-drop offset limit all))
                  ∙ ap (λ l. some l) (take-drop limit (drop offset all)))
          | inr f ↦ rw f (
              ap (λ l. some l)
                (take_all limit (drop offset all) (rw (length-drop offset all) (ground arith))))
        ]

pub next_offset-page {ℓ} :
    {B : Type ℓ}
    → (offset limit : ℕ) (items : List B) (n : ℕ) → n < word
    → length items ≡ min limit (n - offset)
    → next_offset offset record { items = items; total = n } ≡ next_of limit offset n
unfolding next_offset
next_offset-page offset limit items n fits e =
    let stop : ℕ = offset + min limit (n - offset) in
    rw e (elim (Bool-cases (ltb (offset + min limit (n - offset)) n)) [
      | inl t ↦
          let s : min (offset + min limit (n - offset)) (word - 1)
              ≡ offset + min limit (n - offset) =
            ground arith in
          rw (s, t) refl
      | inr f ↦
          let s : ltb (min (offset + min limit (n - offset)) (word - 1)) n ≡ false = ground arith in
          rw (s, f) refl
    ])

module _ {ℓ κ} {A : Type ℓ} {B : Type κ} where
  pub length-map : (f : A → B) (xs : List A) → length (map f xs) ≡ length xs
  length-map f [] = refl
  length-map f (x ∷ xs) = ap (λ n. suc n) (length-map f xs)

  take-map : (f : A → B) (k : ℕ) (xs : List A) → take k (map f xs) ≡ map f (take k xs)
  take-map f zero xs = refl
  take-map f (suc k) [] = refl
  take-map f (suc k) (x ∷ xs) = ap (λ l. f x ∷ l) (take-map f k xs)

  drop-map : (f : A → B) (k : ℕ) (xs : List A) → drop k (map f xs) ≡ map f (drop k xs)
  drop-map f zero xs = refl
  drop-map f (suc k) [] = refl
  drop-map f (suc k) (x ∷ xs) = drop-map f k xs

  pub slice-map :
      (f : A → B) (j k : ℕ) (xs : List A) → map f (take k (drop j xs)) ≡ take k (drop j (map f xs))
  slice-map f j k xs = sym (ap (λ l. take k l) (drop-map f j xs) ∙ take-map f k (drop j xs))

  -- One answer of a listing handler.
  abbrev pub serve_page : (A → Bool) → (A → B) → ℕ → List A → ℕ → Served B
  serve_page keep row limit xs offset =
      let p = page keep row offset limit xs in
      record { rows = p.items; next = next_offset offset p }

  pub page-Serves :
      (keep : A → Bool) (row : A → B) (limit : ℕ) (xs : List A)
      → length (select keep xs) < word
      → Serves (map row (select keep xs)) limit (serve_page keep row limit xs)
  page-Serves keep row limit xs fits offset =
      ap (λ p. record { rows = p.items; next = next_offset offset p })
        (page-slice keep row offset limit xs)
      ∙ rw (length-map row (select keep xs)) (
          served_eq (slice-map row offset limit (select keep xs)) (
            next_offset-page offset limit (map row (take limit (drop offset (select keep xs))))
              (length (select keep xs)) fits
              (length-map row (take limit (drop offset (select keep xs)))
                ∙ length-take limit (drop offset (select keep xs))
                ∙ ap (λ n. min limit n) (length-drop offset (select keep xs)))))

  -- A client that starts at offset 0, asks for 1 row or more at a time and follows `next_offset`
  -- receives the row of every element that passes the filter, once and in order, within as many
  -- pages as there are such elements, and one more.
  pub collect-page :
      (keep : A → Bool) (row : A → B) (limit : ℕ) (xs : List A)
      → 1 ≤ limit
      → length (select keep xs) < word
      → collect (serve_page keep row limit xs) (suc (length (select keep xs))) 0
        ≡ some (map row (select keep xs))
  collect-page keep row limit xs pos fits =
      collect-all (map row (select keep xs)) limit (serve_page keep row limit xs)
        (page-Serves keep row limit xs fits) pos (suc (length (select keep xs))) 0 (omega arith)
        (rw (length-map row (select keep xs)) (omega arith))

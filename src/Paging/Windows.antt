-- ===== src/Paging/Windows.antt =====
-- src/ida/handlers/xrefs.rs: a window of a linked chain, which may have a cycle.
use ida_rs_cli.Base.{
  ℕ, zero, suc, ◌+◌, ◌≤◌, min, Bool, true, false, Option, none, some, List, [], ◌∷◌, ◌++◌, length,
  length-append, append_assoc, append_nil, drop_nil, take_nil, length-take, take, drop, ltb, ◌==◌,
  nat_eq, ◌≡◌, refl, sym, ap, ◌∙◌, arith,
}

module _ {ℓ} {T : Type ℓ} where
  -- The loop of `take_window`, `none` when it does not end within `fuel` links.
  unfoldable pub window_from :
      (T → Option T) → ℕ → ℕ → ℕ → Option T → ℕ → List T → Option (List T × Bool)
  window_from advance offset limit fuel none skipped items = some (items, false)
  window_from advance offset limit zero (some item) skipped items = none
  window_from advance offset limit (suc fuel) (some item) skipped items =
      elim (ltb skipped offset) [
        | true ↦ window_from advance offset limit fuel (advance item) (suc skipped) items
        | false ↦ elim (length items == limit) [
          | true ↦ some (items, true)
          | false ↦
              window_from advance offset limit fuel (advance item) skipped (items ++ item ∷ [])
        ]
      ]

  -- The fuel is the bound that its comment names: `offset + limit + 1` steps.
  unfoldable pub take_window : Option T → ℕ → ℕ → (T → Option T) → Option (List T × Bool)
  take_window first offset limit advance =
      window_from advance offset limit (offset + limit + 1) first 0 []

  -- The first `n` links of the chain.
  abbrev pub links : (T → Option T) → ℕ → Option T → List T
  links advance zero current = []
  links advance (suc n) none = []
  links advance (suc n) (some item) = item ∷ links advance n (advance item)

  -- What is left to skip and to collect goes down link by link.
  window_from-links :
      (advance : T → Option T) (offset limit d r fuel : ℕ) (current : Option T) (skipped : ℕ)
      (items : List T)
      → skipped + d ≡ offset
      → length items + r ≡ limit
      → fuel ≡ d + r + 1
      → window_from advance offset limit fuel current skipped items
        ≡ some (
          items ++ take r (drop d (links advance fuel current)),
          ltb (d + r) (length (links advance fuel current)),
        )
  unfolding window_from
  window_from-links advance offset limit d r zero current skipped items h k e =
      absurd (omega (arith, e))
  window_from-links advance offset limit d r (suc fuel) none skipped items h k e =
      let l : ltb (d + r) 0 ≡ false = ground arith in
      rw (drop_nil {A = T} d, take_nil {A = T} r, append_nil items, l) refl
  window_from-links advance offset limit (suc d) r (suc fuel) (some item) skipped items h k e =
      let t : ltb skipped offset ≡ true = ground arith in
      let n : ℕ = length (links advance fuel (advance item)) in
      let l : ltb (suc d + r) (suc n) ≡ ltb (d + r) n = ground arith in
      rw (t, window_from)
        (window_from-links advance offset limit d r fuel (advance item) (suc skipped) items
            (omega arith) k (omega arith)
          ∙ ap (λ b. some (items ++ take r (drop d (links advance fuel (advance item))), b))
              (sym l))
  window_from-links advance offset limit zero zero (suc fuel) (some item) skipped items h k e =
      let f : ltb skipped offset ≡ false = ground arith in
      let t : (length items == limit) ≡ true = ground arith in
      let l : ltb 0 (suc (length (links advance fuel (advance item)))) ≡ true = ground arith in
      rw (f, window_from) (rw (t, append_nil items) (ap (λ b. some (items, b)) (sym l)))
  window_from-links advance offset limit zero (suc r) (suc fuel) (some item) skipped items h k e =
      let f : ltb skipped offset ≡ false = ground arith in
      let g : (length items == limit) ≡ false = ground arith in
      let n : ℕ = length (links advance fuel (advance item)) in
      let l : ltb (0 + suc r) (suc n) ≡ ltb (0 + r) n = ground arith in
      rw (f, window_from)
        (rw g (
          window_from-links advance offset limit zero r fuel (advance item) skipped
            (items ++ item ∷ []) h (omega (arith, length-append items (item ∷ []))) (omega arith)
          ∙ ap (λ l. some (l, ltb (0 + r) n))
              (append_assoc items (item ∷ []) (take r (links advance fuel (advance item))))
          ∙ ap (λ b. some (items ++ item ∷ take r (links advance fuel (advance item)), b)) (sym l)))

  -- A window never takes more than `offset + limit + 1` steps, whatever the chain, even one with
  -- a cycle. It holds what follows the first `offset` links, `limit` of them at most, and is marked
  -- as truncated exactly when the chain has more than `offset + limit` links.
  pub take_window_lem :
      (first : Option T) (offset limit : ℕ) (advance : T → Option T)
      → take_window first offset limit advance
        ≡ some (
          take limit (drop offset (links advance (offset + limit + 1) first)),
          ltb (offset + limit) (length (links advance (offset + limit + 1) first)),
        )
  unfolding take_window
  take_window_lem first offset limit advance =
      window_from-links advance offset limit offset limit (offset + limit + 1) first 0 []
        (omega arith) (omega arith) refl

  -- A chain that ends, and its links.
  pub data Chain (advance : T → Option T) : Option T → List T → Type ℓ where
    stop : Chain advance none []
    link :
        {item : T} {xs : List T}
        → Chain advance (advance item) xs
        → Chain advance (some item) (item ∷ xs)

  links-take :
      (advance : T → Option T) (n : ℕ) {current : Option T} {xs : List T}
      → Chain advance current xs
      → links advance n current ≡ take n xs
  links-take advance zero c = refl
  links-take advance (suc n) stop = refl
  links-take advance (suc n) (link {item} c) = ap (λ l. item ∷ l) (links-take advance n c)

  slice-take :
      (j k m : ℕ) (xs : List T) → j + k ≤ m → take k (drop j (take m xs)) ≡ take k (drop j xs)
  slice-take zero zero m xs h = refl
  slice-take zero (suc k) zero xs h = absurd (omega (arith, h))
  slice-take zero (suc k) (suc m) [] h = refl
  slice-take zero (suc k) (suc m) (x ∷ xs) h =
      ap (λ l. x ∷ l) (slice-take zero k m xs (omega (arith, h)))
  slice-take (suc j) k zero xs h = absurd (omega (arith, h))
  slice-take (suc j) k (suc m) [] h = refl
  slice-take (suc j) k (suc m) (x ∷ xs) h = slice-take j k m xs (omega (arith, h))

  pub take_window-Chain :
      (first : Option T) (offset limit : ℕ) (advance : T → Option T) (xs : List T)
      → Chain advance first xs
      → take_window first offset limit advance
        ≡ some (take limit (drop offset xs), ltb (offset + limit) (length xs))
  take_window-Chain first offset limit advance xs c =
      let l : ltb (offset + limit) (min (offset + limit + 1) (length xs))
          ≡ ltb (offset + limit) (length xs) =
        ground arith in
      take_window_lem first offset limit advance
      ∙ rw
          (
            links-take advance (offset + limit + 1) c,
            slice-take offset limit (offset + limit + 1) xs (omega arith),
            length-take (offset + limit + 1) xs,
            l,
          )
          refl

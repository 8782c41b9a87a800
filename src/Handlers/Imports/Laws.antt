-- ===== src/Handlers/Imports/Laws.antt =====
-- What the windows of imports and exports hold.
use ida_rs_cli.Base.{
  ℕ, suc, ◌-◌, Bool, true, false, some, List, [], ◌∷◌, ◌++◌, length, length-append, append_assoc,
  append_nil, drop_nil, take_nil, take, drop, select, ltb, leb, ◌≡◌, refl, sym, ap, ◌∙◌, arith,
  Bool-cases, inl, inr,
}
use ida_rs_cli.Handlers.{ok, Database}
use ida_rs_cli.Handlers.Imports.{import_info, export_info, window, handle_imports, handle_exports}

-- The row of each element with its place in the list, counted from `count`.
abbrev pub numbered : {A B : Type 0} → (ℕ → A → B) → ℕ → List A → List B
numbered row count [] = []
numbered row count (a ∷ rest) = row count a ∷ numbered row (suc count) rest

module _ {A B : Type 0} (keep : A → Bool) (row : ℕ → A → B) (offset limit : ℕ) where
  -- What remains to be pushed of the elements `kept`, when the loop stands at `count` and `pushed`.
  abbrev shown : ℕ → List B → List A → List B
  shown count pushed kept =
      pushed ++ take (limit - length pushed) (drop (offset - count) (numbered row count kept))

  shown-skipped :
      (count : ℕ) (pushed : List B) (a : A) (kept : List A)
      → ltb count offset ≡ true
      → shown (suc count) pushed kept ≡ shown count pushed (a ∷ kept)
  shown-skipped count pushed a kept h =
      let e : offset - count ≡ suc (offset - suc count) = ground arith in rw (e) refl

  shown-full :
      (count : ℕ) (pushed : List B) (kept : List A)
      → leb limit (length pushed) ≡ true
      → pushed ≡ shown count pushed kept
  shown-full count pushed kept h =
      let e : limit - length pushed ≡ 0 = ground arith in rw (e) (sym (append_nil pushed))

  shown-pushed :
      (count : ℕ) (pushed : List B) (a : A) (kept : List A)
      → ltb count offset ≡ false
      → leb limit (length pushed) ≡ false
      → shown (suc count) (pushed ++ row count a ∷ []) kept ≡ shown count pushed (a ∷ kept)
  shown-pushed count pushed a kept g h =
      let d : offset - count ≡ 0 = ground arith in
      let d' : offset - suc count ≡ 0 = ground arith in
      let m : limit - length (pushed ++ row count a ∷ []) ≡ limit - suc (length pushed) =
        omega (arith, length-append pushed (row count a ∷ [])) in
      let e : limit - length pushed ≡ suc (limit - suc (length pushed)) = ground arith in
      rw (d, d', m, e)
        (append_assoc pushed (row count a ∷ [])
          (take (limit - suc (length pushed)) (numbered row (suc count) kept)))

  window-shown :
      (xs : List A) (count : ℕ) (pushed : List B)
      → window keep row offset limit count pushed xs ≡ shown count pushed (select keep xs)
  unfolding window
  window-shown [] count pushed = sym (
      rw (drop_nil {A = B} (offset - count), take_nil {A = B} (limit - length pushed))
        (append_nil pushed))
  window-shown (a ∷ xs) count pushed = elim (Bool-cases (keep a)) [
    | inr f ↦ rw (f, window) (window-shown xs count pushed)
    | inl t ↦ elim (Bool-cases (ltb count offset)) [
      | inl u ↦
          rw (t, window, u)
            (window-shown xs (suc count) pushed ∙ shown-skipped count pushed a (select keep xs) u)
      | inr g ↦ elim (Bool-cases (leb limit (length pushed))) [
        | inl u ↦ rw (t, window, g, u) (shown-full count pushed (a ∷ select keep xs) u)
        | inr h ↦
            rw (t, window, g, h)
              (window-shown xs (suc count) (pushed ++ row count a ∷ [])
                ∙ shown-pushed count pushed a (select keep xs) g h)
      ]
    ]
  ]

  window_lem :
      (xs : List A)
      → window keep row offset limit 0 [] xs
        ≡ take limit (drop offset (numbered row 0 (select keep xs)))
  window_lem xs =
      let d : offset - 0 ≡ offset = omega arith in
      let e : limit - 0 ≡ limit = omega arith in window-shown xs 0 [] ∙ rw (d, e) refl

-- The imports sent are, of the names in external segments, each with its place among them as its
-- ordinal, those from `offset` on, `limit` at most, in the order of the database. The exports are so
-- of all names, public or not.
pub imports-Windows :
    (db : Database) (offset limit : ℕ)
    → (handle_imports (some db) offset limit
        ≡ ok (
            take limit (
              drop offset
                (numbered import_info 0 (select (λ n. db.is_external n.address) db.names)))))
      × (handle_exports (some db) offset limit
          ≡ ok (take limit (drop offset (numbered export_info 0 (select (λ n. true) db.names)))))
unfolding handle_imports handle_exports
imports-Windows db offset limit = (
  ap (λ l. ok l) (window_lem (λ n. db.is_external n.address) import_info offset limit db.names),
  ap (λ l. ok l) (window_lem (λ n. true) export_info offset limit db.names),
)

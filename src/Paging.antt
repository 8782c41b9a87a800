-- ===== src/Paging.antt =====
-- The paging loop that the listing handlers of src/ida/handlers share, word for word: functions.rs,
-- strings.rs, globals.rs, types.rs and structs.rs.
pub mod Laws
pub mod Walks
pub mod Windows
use ida_rs_cli.Base.{
  ℕ, zero, suc, ◌+◌, ◌-◌, min, Bool, Option, none, some, List, [], ◌∷◌, ◌++◌, length, ltb, leb,
  if◌then◌else◌,
}
use ida_rs_cli.Base.Numbers.{word}

-- `usize::saturating_add`.
abbrev pub saturating_add : ℕ → ℕ → ℕ
saturating_add a b = min (a + b) (word - 1)

-- What the loop keeps: the rows pushed and the count of all that pass the filter.
pub record Page {ℓ} (B : Type ℓ) : Type ℓ where
  pub items : List B
  pub total : ℕ

module _ {ℓ κ} {A : Type ℓ} {B : Type κ} where
  -- An element that passes the filter, after `total += 1`.
  unfoldable pub admit : (A → B) → ℕ → ℕ → A → Page B → Page B
  admit row offset limit a p =
      let total = suc p.total in
      if leb total offset
      then record { items = p.items; total = total }
      else if leb limit (length p.items)
      then record { items = p.items; total = total }
      else record { items = p.items ++ row a ∷ []; total = total }

  unfoldable pub visit : (A → Bool) → (A → B) → ℕ → ℕ → A → Page B → Page B
  visit keep row offset limit a p = if keep a then admit row offset limit a p else p

  unfoldable pub page_from : (A → Bool) → (A → B) → ℕ → ℕ → List A → Page B → Page B
  page_from keep row offset limit [] p = p
  page_from keep row offset limit (a ∷ rest) p =
      page_from keep row offset limit rest (visit keep row offset limit a p)

  unfoldable pub page : (A → Bool) → (A → B) → ℕ → ℕ → List A → Page B
  page keep row offset limit xs =
      page_from keep row offset limit xs record { items = []; total = 0 }

unfoldable pub next_offset {ℓ} : {B : Type ℓ} → ℕ → Page B → Option ℕ
next_offset offset p =
    if ltb (saturating_add offset (length p.items)) p.total
    then some (saturating_add offset (length p.items))
    else none

-- What a client is sent: the rows and where the next page starts.
pub record Served {ℓ} (B : Type ℓ) : Type ℓ where
  pub rows : List B
  pub next : Option ℕ

abbrev pub and_then_rows {ℓ} : {B : Type ℓ} → List B → Option (List B) → Option (List B)
and_then_rows rows none = none
and_then_rows rows (some more) = some (rows ++ more)

abbrev pub follow {ℓ} : {B : Type ℓ} → List B → (ℕ → Option (List B)) → Option ℕ → Option (List B)
follow rows ask none = some rows
follow rows ask (some offset) = and_then_rows rows (ask offset)

-- A client that asks for page after page until none is announced. It gives up after `fuel` pages.
abbrev pub collect {ℓ} : {B : Type ℓ} → (ℕ → Served B) → ℕ → ℕ → Option (List B)
collect serve zero offset = none
collect serve (suc fuel) offset =
    follow (serve offset).rows (collect serve fuel) (serve offset).next

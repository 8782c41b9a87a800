-- ===== src/Handlers/Imports.antt =====
-- src/ida/handlers/imports.rs: the windows of imports and exports, and the entry points.
pub mod Laws
pub mod Entries
use ida_rs_cli.Base.{
  ℕ, zero, suc, Bool, true, false, Option, none, some, List, [], ◌∷◌, ◌++◌, String, length, ltb,
  leb, contains, nat_eq,
}
use mathlib.Core.Option as Option
use ida_rs_cli.Base.Numbers.{word}
use ida_rs_cli.Handlers.{Outcome, ok, err, no_database_open, Name, Database, with_database, hex}

pub record ImportInfo : Type 0 where
  pub address : String
  pub name : String
  pub ordinal : ℕ

pub record ExportInfo : Type 0 where
  pub address : String
  pub name : String
  pub is_public : Bool

abbrev pub import_info : ℕ → Name → ImportInfo
import_info count n = record { address = hex n.address; name = n.name; ordinal = count }

abbrev pub export_info : ℕ → Name → ExportInfo
export_info count n = record { address = hex n.address; name = n.name; is_public = n.is_public }

-- The loop of both: `count` is the number of those seen that pass the test, `pushed` the rows so far.
module _ {A B : Type 0} (keep : A → Bool) (row : ℕ → A → B) (offset limit : ℕ) where
  unfoldable pub window : ℕ → List B → List A → List B
  window count pushed [] = pushed
  window count pushed (a ∷ rest) = elim (keep a) [
    | false ↦ window count pushed rest
    | true ↦ elim (ltb count offset) [
      | true ↦ window (suc count) pushed rest
      | false ↦ elim (leb limit (length pushed)) [
        | true ↦ pushed
        | false ↦ window (suc count) (pushed ++ row count a ∷ []) rest
      ]
    ]
  ]

unfoldable pub handle_imports : Option Database → ℕ → ℕ → Outcome (List ImportInfo)
handle_imports idb offset limit =
    with_database idb
      (λ db. ok (window (λ n. db.is_external n.address) import_info offset limit 0 [] db.names))

unfoldable pub handle_exports : Option Database → ℕ → ℕ → Outcome (List ExportInfo)
handle_exports idb offset limit =
    with_database idb (λ db. ok (window (λ n. true) export_info offset limit 0 [] db.names))

-- The loop over the entry points: `calls` of the iterator made, the addresses `seen`, the texts
-- `pushed`. It gives up after `fuel` calls.
unfoldable pub entries_from : (ℕ → Option ℕ) → ℕ → ℕ → List ℕ → List String → Option (List String)
entries_from next zero calls seen pushed = none
entries_from next (suc fuel) calls seen pushed = elim (next calls) [
  | none ↦ some pushed
  | some addr ↦ elim (contains seen addr) [
    | true ↦ some pushed
    | false ↦ entries_from next fuel (suc calls) (seen ++ addr ∷ []) (pushed ++ hex addr ∷ [])
  ]
]

-- With as many calls of the iterator as there are addresses, and one.
unfoldable pub handle_entrypoints : Option Database → Option (Outcome (List String))
handle_entrypoints none = some (err no_database_open)
handle_entrypoints (some db) =
    Option.map (λ texts. ok texts) (entries_from db.next_entry (suc word) 0 [] [])

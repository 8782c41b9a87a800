-- ===== src/Handlers/Addresses.antt =====
-- src/ida/handlers/mod.rs: an address from a number or a name, moved by an offset.
pub mod Laws
use ida_rs_cli.Base.{
  ℕ, suc, ◌+◌, ◌-◌, Bool, false, ◌||◌, Option, none, some, List, [], ◌∷◌, String, ◌<>◌, ltb, leb,
  if◌then◌else◌, ◌==◌, string_eq,
}
use ida_rs_cli.Base.Numbers.{word, print}
use ida_rs_cli.Targets.{includes}
use ida_rs_cli.Handlers.{
  Outcome, ok, err, no_database_open, invalid_params, function_name_not_found, Function, Name,
  Database, hex,
}
use ida_rs_cli.Handlers.Xrefs.{ℤ, pos, negsuc}

-- The test of both loops.
abbrev pub is_called : String → String → Bool
is_called name item_name = item_name == name || includes item_name name

abbrev pub has_name : String → Function → Bool
has_name name f = elim f.name [ none ↦ false | some func_name ↦ is_called name func_name ]

abbrev pub find_name : String → List Name → Option ℕ
find_name name [] = none
find_name name (item ∷ rest) =
    let later = find_name name rest in if is_called name item.name then some item.address else later

abbrev pub find_function : String → List Function → Option ℕ
find_function name [] = none
find_function name (func ∷ rest) =
    let later = find_function name rest in
    if has_name name func then some func.start_address else later

unfoldable pub resolve_address_by_name : Option Database → String → Outcome ℕ
resolve_address_by_name none name = err no_database_open
resolve_address_by_name (some db) name = elim (find_function name db.functions) [
  | some addr ↦ ok addr
  | none ↦ elim (find_name name db.names) [
    | some addr ↦ ok addr
    | none ↦ err (function_name_not_found name)
  ]
]

-- `u64::checked_add_signed`.
abbrev pub checked_add_signed : ℕ → ℤ → Option ℕ
checked_add_signed base (pos n) = if ltb (base + n) word then some (base + n) else none
checked_add_signed base (negsuc n) = if leb (suc n) base then some (base - suc n) else none

abbrev show_offset : ℤ → String
show_offset (pos n) = print n
show_offset (negsuc n) = "-" <> print (suc n)

abbrev pub moved : ℤ → Outcome ℕ → Outcome ℕ
moved offset (err e) = err e
moved offset (ok base) = elim (checked_add_signed base offset) [
  | some addr ↦ ok addr
  | none ↦ err (
      invalid_params (
        "offset "
        <> (show_offset offset <> (" produces an out-of-range address from base " <> hex base))))
]

abbrev pub base_of : Option Database → Option ℕ → Option String → Outcome ℕ
base_of idb (some addr) name = ok addr
base_of idb none (some name) = resolve_address_by_name idb name
base_of idb none none = err (invalid_params "expected address or name")

unfoldable pub resolve_address : Option Database → Option ℕ → Option String → ℤ → Outcome ℕ
resolve_address idb addr name offset = moved offset (base_of idb addr name)

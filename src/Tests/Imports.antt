-- ===== src/Tests/Imports.antt =====
-- Imports, exports and entry points of a small database.
use ida_rs_cli.Base.{
  ℕ, ◌<◌, true, false, none, some, List, [], ◌∷◌, map, take, drop, select, String, nat_eq, ltb,
  if◌then◌else◌, ◌≡◌, refl, arith,
}
use ida_rs_cli.Base.Numbers.{word, digit}
use ida_rs_cli.Handlers.{Database, Name, ok, hex, hex_onto, hex_digit}
use ida_rs_cli.Handlers.Imports.{
  import_info, export_info, window, handle_imports, handle_exports, handle_entrypoints,
  entries_from,
}
use ida_rs_cli.Handlers.Imports.Laws.{numbered, imports-Windows}
use ida_rs_cli.Handlers.Imports.Entries.{AreEntries, handle_entrypoints-Ends}

abbrev name_at : ℕ → String → Name
name_at a name = record { address = a; name = name; is_public = true; is_weak = false }

-- Names from 4096 on are external. The iterator over the entry points repeats its second answer for ever.
abbrev db : Database
db = record {
  functions = [];
  strings = [];
  names = name_at 16 "main" ∷ name_at 4096 "read" ∷ name_at 32 "help" ∷ name_at 4104 "write" ∷ [];
  in_function = λ a. false;
  is_external = λ a. ltb 4095 a;
  udt_ordinal_limit = 1;
  local_type_info = λ n. none;
  udt_info = λ n. none;
  first_xref_to = λ a. none;
  first_xref_from = λ a. none;
  next_to = λ x. none;
  next_from = λ x. none;
  next_entry = λ n. if ltb n 1 then some 16 else some 32;
}

second_import :
    handle_imports (some db) 1 5
    ≡ ok (record { address = "0x1008"; name = "write"; ordinal = 1 } ∷ [])
unfolding handle_imports window hex hex_onto hex_digit digit
second_import = refl

entries : handle_entrypoints (some db) ≡ some (ok ("0x10" ∷ "0x20" ∷ []))
unfolding handle_entrypoints entries_from hex hex_onto hex_digit digit nat_eq
entries = refl

imports-Windows_example :
    (handle_imports (some db) 1 5
      ≡ ok (
          take 5
            (drop 1 (numbered import_info 0 (select (λ n. db.is_external n.address) db.names)))))
    × (handle_exports (some db) 1 5
        ≡ ok (take 5 (drop 1 (numbered export_info 0 (select (λ n. true) db.names)))))
imports-Windows_example = imports-Windows db 1 5

small_entries : (n a : ℕ) → db.next_entry n ≡ some a → a < word
small_entries n a e = ground arith

handle_entrypoints-Ends_example :
    (addrs : List ℕ) × (handle_entrypoints (some db) ≡ some (ok (map hex addrs)))
    × AreEntries db.next_entry addrs
handle_entrypoints-Ends_example = handle_entrypoints-Ends db small_entries

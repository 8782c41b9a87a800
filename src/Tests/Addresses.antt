-- ===== src/Tests/Addresses.antt =====
-- Addresses by name in a small database.
use ida_rs_cli.Base.{
  ℕ, false, none, some, [], ◌∷◌, String, nat_eq, string_eq, ◌≡◌, ◌↔◌, refl, arith,
}
use ida_rs_cli.Handlers.{Database, Function, ok}
use ida_rs_cli.Handlers.Xrefs.{negsuc}
use ida_rs_cli.Handlers.Addresses.{resolve_address, resolve_address_by_name}
use ida_rs_cli.Handlers.Addresses.Laws.{Means, resolve_address-Means}

abbrev function_at : ℕ → String → Function
function_at a name = record { start_address = a; name = some name; size = 4 }

abbrev db : Database
db = record {
  functions = function_at 16 "domain_of" ∷ function_at 32 "main" ∷ [];
  strings = [];
  names = [];
  in_function = λ a. false;
  is_external = λ a. false;
  udt_ordinal_limit = 1;
  local_type_info = λ n. none;
  udt_info = λ n. none;
  first_xref_to = λ a. none;
  first_xref_from = λ a. none;
  next_to = λ x. none;
  next_from = λ x. none;
  next_entry = λ n. none;
}

-- A function whose name only contains the text stands before the one that has it for its name.
shadowed : resolve_address_by_name (some db) "main" ≡ ok 16
unfolding resolve_address_by_name string_eq nat_eq
shadowed = refl

resolve_address-Means_example :
    (resolve_address (some db) none (some "main") (negsuc 1) ≡ ok 14)
    ↔ Means (some db) none (some "main") (negsuc 1) 14
unfolding string_eq nat_eq
resolve_address-Means_example =
    resolve_address-Means (some db) none (some "main") (negsuc 1) 14
      (omega arith, (omega arith, tt))

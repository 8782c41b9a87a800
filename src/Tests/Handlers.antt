-- ===== src/Tests/Handlers.antt =====
-- The listings and cross references of a small database.
use ida_rs_cli.Base.{
  ℕ, ◌+◌, ◌-◌, take, drop, length, true, false, Option, none, some, [], ◌∷◌, String, ◌≡◌, refl,
  arith, nat_eq, string_eq, ltb, if◌then◌else◌,
}
use ida_rs_cli.Paging.{page, page_from, visit, admit, next_offset}
use ida_rs_cli.Paging.Windows.{Chain, stop, link, take_window, links, take_window_lem}
use ida_rs_cli.Handlers.{Database, XRef}
use ida_rs_cli.Handlers.Listings.{handle_strings}
use ida_rs_cli.Handlers.Listings.Laws.{listings-Slices, listings-ReadsAll, Fits, Slices, AllRead}
use ida_rs_cli.Handlers.Xrefs.{
  XrefsRequest, pos, parse_xrefs_paging, handle_xrefs_to, handle_xrefs_from,
  parse_optional_unsigned, parsed,
}
use ida_rs_cli.Handlers.Xrefs.Laws.{xrefs-ReadsAll, ReadsAll}

abbrev same : String → String
same s = s

abbrev call : ℕ → XRef
call n = record {
  cursor = n;
  from_address = 4096 + n;
  to_address = 8192;
  kind = "Code(NearCall)";
  is_code = true;
}

-- Two references: the cursor counts down.
abbrev later : XRef → Option XRef
later x = if ltb 1 x.cursor then some (call (x.cursor - 1)) else none

abbrev db : Database
db = record {
  functions = record { start_address = 8192; name = none; size = 16 } ∷ [];
  strings = (12288, "hello") ∷ (12304, "help") ∷ (12320, "world") ∷ [];
  names = [];
  in_function = λ a. false;
  is_external = λ a. false;
  udt_ordinal_limit = 1;
  local_type_info = λ n. none;
  udt_info = λ n. none;
  first_xref_to = λ a. some (call 2);
  first_xref_from = λ a. none;
  next_to = later;
  next_from = λ x. none;
  next_entry = λ n. if ltb n 2 then some (8192 + n) else some 8193;
}

db-Fits : Fits db
db-Fits = record {
  functions = omega arith;
  strings = omega arith;
  names = omega arith;
  ordinals = omega arith;
}

abbrev request : XrefsRequest
request = record { limit = some (pos 0); offset = none; timeout_secs = none }

request-parsed : parse_xrefs_paging request ≡ parsed (0, (1, none))
unfolding parse_xrefs_paging parse_optional_unsigned
request-parsed = refl

two : Chain later (some (call 2)) (call 2 ∷ call 1 ∷ [])
two = link (link stop)

-- Two of the three strings pass the filter.
some_strings :
    handle_strings same (some db) 0 2 (some "hel") ≡ handle_strings same (some db) 0 9 (some "hel")
unfolding handle_strings page page_from visit admit next_offset nat_eq string_eq
some_strings = refl

listings-Slices_example : Slices same db (some "hel") "o" false false 2 9 1
listings-Slices_example = listings-Slices same db (some "hel") "o" false false 2 9 1

listings-ReadsAll_example : AllRead same db (some "hel") "o" false false 1 9
listings-ReadsAll_example =
    listings-ReadsAll same db (some "hel") "o" false false 1 9 (omega arith) db-Fits

xrefs-ReadsAll_example :
    ReadsAll (λ offset. handle_xrefs_to (some db) 8192 offset 1) (call 2 ∷ call 1 ∷ [])
    × ReadsAll (λ offset. handle_xrefs_from (some db) 8192 offset 1) []
xrefs-ReadsAll_example =
    xrefs-ReadsAll db 8192 1 0 none request (call 2 ∷ call 1 ∷ []) [] request-parsed two stop

-- A chain that goes round for ever.
take_window_lem_example :
    take_window (some (call 2)) 1 1 (λ x. some x)
    ≡ some (
      take 1 (drop 1 (links (λ x. some x) 3 (some (call 2)))),
      ltb 2 (length (links (λ x. some x) 3 (some (call 2)))),
    )
take_window_lem_example = take_window_lem (some (call 2)) 1 1 (λ x. some x)

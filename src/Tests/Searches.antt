-- ===== src/Tests/Searches.antt =====
-- Path search, byte search and paging requests at small inputs.
use ida_rs_cli.Base.{
  ℕ, ◌-◌, min, Every, none, some, List, [], ◌∷◌, take, ◌≡◌, refl, arith, nat_eq, string_eq, ◌==◌,
  ltb, if◌then◌else◌,
}
use ida_rs_cli.Handlers.{ok}
use ida_rs_cli.Handlers.Paths.{Block, Paths, search_paths, dfs, each_succ}
use ida_rs_cli.Handlers.Paths.Laws.{IsExact, search_paths-IsExact}
use ida_rs_cli.Handlers.Search.{Memory, parse_pattern, handle_find_bytes, matched}
use ida_rs_cli.Handlers.Search.Occurrences.{read, all_occurrences}
use ida_rs_cli.Handlers.Search.Laws.{IsLoaded, handle_find_bytes_lem}
use ida_rs_cli.Handlers.Xrefs.{XrefsRequest, pos, negsuc, parse_xrefs_paging}
use ida_rs_cli.Handlers.Xrefs.Refusals.{refusal, first_negative, parse_xrefs_paging-refusal}
use ida_rs_cli.Handlers.{hex, hex_onto, hex_digit}
use ida_rs_cli.Base.Numbers.{digit}

abbrev block : ℕ → List ℕ → Block
block start succs = record {
  start_address = start;
  contains_address = λ a. a == start;
  succs = succs;
}

-- A diamond with a loop at its top.
abbrev diamond : List Block
diamond = block 1 (1 ∷ 2 ∷ 3 ∷ []) ∷ block 2 (4 ∷ []) ∷ block 3 (4 ∷ 9 ∷ []) ∷ block 4 [] ∷ []

abbrev both : Paths
both = record {
  paths = ("0x1" ∷ "0x2" ∷ "0x4" ∷ []) ∷ ("0x1" ∷ "0x3" ∷ "0x4" ∷ []) ∷ [];
  count = 2;
}

diamond_paths : search_paths diamond 1 4 10 5 ≡ ok both
unfolding search_paths dfs each_succ hex hex_onto hex_digit digit nat_eq
diamond_paths = refl

search_paths-IsExact_example : IsExact diamond 1 4 10 5 both
search_paths-IsExact_example = search_paths-IsExact diamond 1 4 10 5 both diamond_paths

abbrev mem : ℕ → ℕ
mem a = if ltb a 4100 then 204 else 0

-- One segment; what lies behind it cannot be read.
abbrev memory : Memory
memory = record {
  segments = record { start_address = 4096; len = 6 } ∷ [];
  get_bytes = λ a n. read mem a (min n (4102 - a));
}

memory-IsLoaded : Every (IsLoaded mem memory.get_bytes) memory.segments
memory-IsLoaded = (λ a n from to. let e : min n (4102 - a) ≡ n = omega arith in rw e refl, tt)

pattern-parsed : parse_pattern "CC ?? 00" ≡ ok (some 204 ∷ none ∷ some 0 ∷ [])
unfolding parse_pattern nat_eq
pattern-parsed = refl

handle_find_bytes_lem_example :
    handle_find_bytes (some memory) "CC ?? 00" 10
    ≡ ok (
        matched "CC ?? 00"
          (take 10 (all_occurrences mem (some 204 ∷ none ∷ some 0 ∷ []) memory.segments)))
handle_find_bytes_lem_example =
    handle_find_bytes_lem memory mem "CC ?? 00" (some 204) (none ∷ some 0 ∷ []) 10 memory-IsLoaded
      pattern-parsed

abbrev backwards : XrefsRequest
backwards = record { limit = some (pos 5); offset = some (negsuc 0); timeout_secs = none }

parse_xrefs_paging-refusal_example :
    refusal (parse_xrefs_paging backwards) ≡ first_negative backwards
parse_xrefs_paging-refusal_example =
    parse_xrefs_paging-refusal backwards (omega arith) (omega arith) tt

-- ===== src/Handlers/Listings.antt =====
-- The paged listings of src/ida/handlers: functions.rs, strings.rs, globals.rs, types.rs, structs.rs.
-- `lowercase` is Rust's `str::to_lowercase`.
pub mod Laws
use ida_rs_cli.Base.{
  ℕ, zero, suc, ◌-◌, min, max, Bool, true, false, not, ◌&&◌, Option, none, some, List, [], ◌∷◌, map,
  String, length, if◌then◌else◌, ◌==◌, string_eq,
}
use mathlib.Core.Option as Option
use ida_rs_cli.Paging.{Page, page, next_offset}
use ida_rs_cli.Paging.Windows.{links}
use ida_rs_cli.Targets.{includes}
use ida_rs_cli.Handlers.{
  Outcome, ok, Function, Name, LocalType, Udt, XRef, Database, with_database, hex, function_name,
  byte_length,
}

-- `FunctionListResult` and its like: one page.
pub record Listing (B : Type 0) : Type 0 where
  pub items : List B
  pub total : ℕ
  pub next_offset : Option ℕ

pub record FunctionInfo : Type 0 where
  pub address : String
  pub name : String
  pub size : ℕ

pub record StringInfo : Type 0 where
  pub address : String
  pub content : String
  pub length : ℕ

pub record StringXrefInfo : Type 0 where
  pub address : String
  pub content : String
  pub length : ℕ
  pub xrefs : List String
  pub xref_count : ℕ

pub record GlobalInfo : Type 0 where
  pub address : String
  pub name : String
  pub is_public : Bool
  pub is_weak : Option Bool

abbrev pub listing : {B : Type 0} → ℕ → Page B → Listing B
listing offset p = record { items = p.items; total = p.total; next_offset = next_offset offset p }

abbrev pub function_info : Function → FunctionInfo
function_info f = record { address = hex f.start_address; name = function_name f; size = f.size }

abbrev pub string_info : ℕ × String → StringInfo
string_info (addr, content) = record {
  address = hex addr;
  content = content;
  length = byte_length content;
}

abbrev pub global_info : Name → GlobalInfo
global_info n = record {
  address = hex n.address;
  name = n.name;
  is_public = n.is_public;
  is_weak = some n.is_weak;
}

-- Push a link, stop when there are `cap` of them, go on to the next. `cap` is 1 or more.
abbrev pub xref_texts : Database → ℕ → ℕ → List String
xref_texts db cap addr =
    map (λ x. hex x.from_address) (links db.next_to cap (db.first_xref_to addr))

abbrev pub string_xref_info : Database → ℕ → ℕ × String → StringXrefInfo
string_xref_info db cap (addr, content) =
    let xrefs = xref_texts db cap addr in
    record {
      address = hex addr;
      content = content;
      length = byte_length content;
      xrefs = xrefs;
      xref_count = length xrefs;
    }

-- The numbers from `first` on, `count` of them.
abbrev pub ordinals : ℕ → ℕ → List ℕ
ordinals first zero = []
ordinals first (suc count) = first ∷ ordinals (suc first) count

-- What is known of the ordinals: the others are skipped before the filter.
abbrev pub known {ℓ} : {A : Type ℓ} → (ℕ → Option A) → List ℕ → List A
known info [] = []
known info (n ∷ ns) = elim (info n) [ none ↦ known info ns | some a ↦ a ∷ known info ns ]

module _ (lowercase : String → String) where
  -- The filter, lowered once, against a text.
  abbrev pub keeps : Option String → String → Bool
  keeps none text = true
  keeps (some filter) text = includes (lowercase text) filter

  unfoldable pub handle_list_functions :
      Option Database → ℕ → ℕ → Option String → Outcome (Listing FunctionInfo)
  handle_list_functions idb offset limit filter =
      let filter_lower = Option.map lowercase filter in
      with_database idb (λ db. ok (
        listing offset (
          page (λ f. keeps filter_lower (function_name f)) function_info offset limit
            db.functions)))

  unfoldable pub handle_strings :
      Option Database → ℕ → ℕ → Option String → Outcome (Listing StringInfo)
  handle_strings idb offset limit filter =
      let filter_lower = Option.map lowercase filter in
      with_database idb (λ db.
        ok
          (listing offset (page (λ s. keeps filter_lower s.1) string_info offset limit db.strings)))

  unfoldable pub handle_analyze_strings :
      Option Database → Option String → ℕ → ℕ → Outcome (Listing StringXrefInfo)
  handle_analyze_strings idb query offset limit =
      let filter_lower = Option.map lowercase query in
      with_database idb (λ db. ok (
        listing offset
          (page (λ s. keeps filter_lower s.1) (string_xref_info db 64) offset limit db.strings)))

  abbrev pub folded : Bool → String → String
  folded case_insensitive text = if case_insensitive then lowercase text else text

  abbrev pub matched : Bool → Bool → String → String → Bool
  matched exact case_insensitive query content =
      let query_norm = folded case_insensitive query in
      let hay = folded case_insensitive content in
      if exact then hay == query_norm else includes hay query_norm

  unfoldable pub handle_find_string :
      Option Database → String → Bool → Bool → ℕ → ℕ → Outcome (Listing StringInfo)
  handle_find_string idb query exact case_insensitive offset limit = with_database idb (λ db. ok (
      listing offset
        (page (λ s. matched exact case_insensitive query s.1) string_info offset limit db.strings)))

  unfoldable pub handle_xrefs_to_string :
      Option Database → String → Bool → Bool → ℕ → ℕ → ℕ → Outcome (Listing StringXrefInfo)
  handle_xrefs_to_string idb query exact case_insensitive offset limit max_xrefs =
      let cap = min (max max_xrefs 1) 1024 in
      with_database idb (λ db. ok (
        listing offset (
          page (λ s. matched exact case_insensitive query s.1) (string_xref_info db cap) offset
            limit db.strings)))

  unfoldable pub handle_list_globals :
      Option Database → Option String → ℕ → ℕ → Outcome (Listing GlobalInfo)
  handle_list_globals idb query offset limit =
      let filter_lower = Option.map lowercase query in
      with_database idb (λ db. ok (
        listing offset (
          page (λ n. keeps filter_lower n.name && not (db.in_function n.address)) global_info offset
            limit db.names)))

  unfoldable pub handle_local_types :
      Option Database → ℕ → ℕ → Option String → Outcome (Listing LocalType)
  handle_local_types idb offset limit filter =
      let filter_lower = Option.map lowercase filter in
      with_database idb (λ db. ok (
        listing offset (
          page (λ i. keeps filter_lower i.name) (λ i. i) offset limit
            (known db.local_type_info (ordinals 1 (db.udt_ordinal_limit - 1))))))

  unfoldable pub handle_structs : Option Database → ℕ → ℕ → Option String → Outcome (Listing Udt)
  handle_structs idb offset limit filter =
      let filter_lower = Option.map lowercase filter in
      with_database idb (λ db. ok (
        listing offset (
          page (λ i. keeps filter_lower i.name) (λ i. i) offset limit
            (known db.udt_info (ordinals 1 (db.udt_ordinal_limit - 1))))))

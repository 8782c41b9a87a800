-- ===== src/Handlers/Xrefs.antt =====
-- src/ida/handlers/xrefs.rs and the paging of cross references in src/server/mod.rs.
pub mod Laws
pub mod Refusals
use ida_rs_cli.Base.{
  ℕ, zero, suc, ◌+◌, min, max, Bool, true, false, Option, none, some, List, [], ◌∷◌, ◌++◌, map,
  String, length, ltb, leb, if◌then◌else◌,
}
use ida_rs_cli.Base.Numbers.{word}
use ida_rs_cli.Paging.Windows.{take_window}
use ida_rs_cli.Handlers.{Outcome, ok, err, no_database_open, XRef, Database, with_database, hex}

pub record XRefInfo : Type 0 where
  pub from : String
  pub to : String
  pub type : String
  pub is_code : Bool

pub record XRefListResult : Type 0 where
  pub xrefs : List XRefInfo
  pub truncated : Bool
  pub next_offset : Option ℕ

abbrev pub to_xref_info : XRef → XRefInfo
to_xref_info x = record {
  from = hex x.from_address;
  to = hex x.to_address;
  type = x.kind;
  is_code = x.is_code;
}

abbrev pub windowed : ℕ → List XRef × Bool → XRefListResult
windowed offset (window, truncated) =
    let xrefs = map to_xref_info window in
    record {
      xrefs = xrefs;
      truncated = truncated;
      next_offset = if truncated then some (offset + length xrefs) else none;
    }

-- `none` stands for a loop that does not end.
unfoldable pub collect_window : Option XRef → ℕ → ℕ → (XRef → Option XRef) → Option XRefListResult
collect_window first offset limit advance = elim (take_window first offset limit advance) [
  | none ↦ none
  | some w ↦ some (windowed offset w)
]

abbrev pub answered : Option XRefListResult → Option (Outcome XRefListResult)
answered none = none
answered (some r) = some (ok r)

abbrev pub with_open :
    Option Database → (Database → Option (Outcome XRefListResult)) → Option (Outcome XRefListResult)
with_open none body = some (err no_database_open)
with_open (some db) body = body db

unfoldable pub handle_xrefs_to : Option Database → ℕ → ℕ → ℕ → Option (Outcome XRefListResult)
handle_xrefs_to idb addr offset limit =
    with_open idb
      (λ db. answered (collect_window (db.first_xref_to addr) offset limit (λ x. db.next_to x)))

unfoldable pub handle_xrefs_from : Option Database → ℕ → ℕ → ℕ → Option (Outcome XRefListResult)
handle_xrefs_from idb addr offset limit =
    with_open idb
      (λ db. answered (collect_window (db.first_xref_from addr) offset limit (λ x. db.next_from x)))

-- An `i64` of a request: `negsuc n` is -(n + 1).
pub data ℤ : Type 0 where
  pos : ℕ → ℤ
  negsuc : ℕ → ℤ

pub data Parsed (A : Type 0) : Type 0 where
  parsed : A → Parsed A
  out_of_range : String → Parsed A

-- `bound` is the number of values of the unsigned type.
unfoldable pub parse_optional_unsigned : ℕ → Option ℤ → String → Parsed (Option ℕ)
parse_optional_unsigned bound none name = parsed none
parse_optional_unsigned bound (some (pos n)) name =
    if ltb n bound then parsed (some n) else out_of_range name
parse_optional_unsigned bound (some (negsuc n)) name = out_of_range name

pub record XrefsRequest : Type 0 where
  pub limit : Option ℤ
  pub offset : Option ℤ
  pub timeout_secs : Option ℤ

abbrev pub unwrap_or : Option ℕ → ℕ → ℕ
unwrap_or none d = d
unwrap_or (some n) d = n

abbrev pub default_xrefs_limit : ℕ
default_xrefs_limit = 1000

abbrev pub max_xrefs_limit : ℕ
max_xrefs_limit = 10000

abbrev pub and_then : {A B : Type 0} → Parsed A → (A → Parsed B) → Parsed B
and_then (parsed a) k = k a
and_then (out_of_range name) k = out_of_range name

unfoldable pub parse_xrefs_paging : XrefsRequest → Parsed (ℕ × (ℕ × Option ℕ))
parse_xrefs_paging req = and_then (parse_optional_unsigned word req.limit "limit") (λ limit.
    and_then (parse_optional_unsigned word req.offset "offset") (λ offset.
      and_then (parse_optional_unsigned word req.timeout_secs "timeout_secs") (λ timeout. parsed (
        unwrap_or offset 0,
        (min (max (unwrap_or limit default_xrefs_limit) 1) max_xrefs_limit, timeout),
      ))))

-- ===== src/Targets.antt =====
-- src/daemon/router.rs and src/daemon/target.rs: what the router and a worker share about targets:
-- ids, selectors, and the fallback for the active target. A path is its text.
pub mod Selection
use Prim.Native.Char.{code}
use ida_rs_cli.Base.{
  ℕ, ◌-◌, Bool, true, false, ◌&&◌, ◌||◌, String, ◌<>◌, Option, none, some, List, [], ◌∷◌,
  if◌then◌else◌, ◌==◌, ltb, nat_eq, string_eq, length,
}
use ida_rs_cli.Base.Numbers.{word, print, parse}

pub record TargetInfo : Type 0 where
  pub id : String
  pub path : String
  pub filename : String
  pub file_type : String
  pub processor : String
  pub bits : ℕ
  pub function_count : ℕ

-- `format!("t{}", n)`.
abbrev pub target_id : ℕ → String
target_id n = String.◌∷◌ "t" (print n)

-- `id.strip_prefix('t').and_then(|s| s.parse::<u64>().ok())`.
abbrev pub number_of : String → Option ℕ
number_of String.[] = none
number_of (String.◌∷◌ c s) = if code c == 116 then parse s else none

-- The key of `min_by_key` and of `sort_by_key`: `u64::MAX` for another id.
abbrev pub rank_in : Option ℕ → ℕ
rank_in none = word - 1
rank_in (some n) = n

abbrev pub rank : String → ℕ
rank id = rank_in (number_of id)

-- The ids are those of a `HashMap`, in some order. The first of the least wins.
unfoldable pub lowest_from : String → List String → String
lowest_from best [] = best
lowest_from best (id ∷ ids) = lowest_from (if ltb (rank id) (rank best) then id else best) ids

unfoldable pub lowest_target_id : List String → Option String
lowest_target_id [] = none
lowest_target_id (id ∷ ids) = some (lowest_from id ids)

abbrev pub starts_with : String → String → Bool
starts_with s String.[] = true
starts_with String.[] (String.◌∷◌ d p) = false
starts_with (String.◌∷◌ c s) (String.◌∷◌ d p) = code c == code d && starts_with s p

-- `str::contains`.
abbrev pub includes : String → String → Bool
includes String.[] p = starts_with String.[] p
includes (String.◌∷◌ c s) p = starts_with (String.◌∷◌ c s) p || includes s p

pub data ResolveError : Type 0 where
  no_targets : ResolveError
  no_active : ResolveError
  no_match : String → ResolveError
  ambiguous : String → ℕ → ResolveError
  not_found : String → ResolveError

pub data Resolved : Type 0 where
  ok : String → Resolved
  err : ResolveError → Resolved

-- An entry is an id, a filename and a path.
abbrev pub Entry : Type 0
Entry = String × (String × String)

abbrev pub has_id : String → List Entry → Bool
has_id sel [] = false
has_id sel ((id, names) ∷ es) = id == sel || has_id sel es

abbrev pub fits : String → Entry → Bool
fits sel (id, (filename, path)) = includes filename sel || includes path sel

abbrev pub matching : String → List Entry → List String
matching sel [] = []
matching sel (e ∷ es) = let rest = matching sel es in if fits sel e then e.0 ∷ rest else rest

abbrev pub of_matches : String → List String → Resolved
of_matches sel [] = Resolved.err (no_match sel)
of_matches sel (id ∷ []) = Resolved.ok id
of_matches sel (id ∷ j ∷ ids) = Resolved.err (ambiguous sel (length (id ∷ j ∷ ids)))

abbrev pub of_active : Option String → Resolved
of_active none = Resolved.err no_active
of_active (some id) = Resolved.ok id

unfoldable pub resolve_among : Option String → Option String → List Entry → Resolved
resolve_among none active es = of_active active
resolve_among (some sel) active es =
    if sel == "active" || sel == ""
    then of_active active
    else if has_id sel es
    then Resolved.ok sel
    else of_matches sel (matching sel es)

unfoldable pub resolve_selector : Option String → Option String → List Entry → Resolved
unfolding resolve_among
resolve_selector selector active [] = Resolved.err no_targets
resolve_selector selector active (e ∷ es) = resolve_among selector active (e ∷ es)

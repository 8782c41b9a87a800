-- ===== src/Manager.antt =====
-- src/daemon/target.rs: `TargetManager`, the table of open databases in a worker process. `D` is the
-- database that idalib hands out; opening it is outside, and what it tells is an argument.
pub mod Laws
use ida_rs_cli.Base.{
  ℕ, ◌+◌, ◌%◌, Bool, true, false, ◌||◌, String, is_some, Option, none, some, List, [], ◌∷◌,
  if◌then◌else◌, ◌==◌, string_eq, length,
}
use ida_rs_cli.Base.Dict
use ida_rs_cli.Base.Dict.{Dict}
use ida_rs_cli.Base.Numbers.{word}
use ida_rs_cli.Targets.{
  TargetInfo, Resolved, no_targets, no_active, no_match, ambiguous, not_found, target_id, number_of,
  includes,
}

pub record TargetRecord (D : Type 0) : Type 0 where
  pub idb : Option D
  pub info : TargetInfo

pub record TargetManager (D : Type 0) : Type 0 where
  pub targets : Dict String (TargetRecord D)
  pub active_id : Option String
  pub next_id : ℕ

abbrev or_active : Option String → String → Option String
or_active none id = some id
or_active (some a) id = some a

abbrev pub is_active : String → Option String → Bool
is_active id none = false
is_active id (some a) = a == id

abbrev pub one_of : String → List String → Resolved
one_of sel [] = Resolved.err (no_match sel)
one_of sel (id ∷ []) = Resolved.ok id
one_of sel (id ∷ j ∷ ids) = Resolved.err (ambiguous sel (length (id ∷ j ∷ ids)))

abbrev pub current : Option String → Resolved
current none = Resolved.err no_active
current (some id) = Resolved.ok id

module _ {D : Type 0} where
  unfoldable pub new : TargetManager D
  new = record { targets = []; active_id = none; next_id = 1 }

  -- `load`, with the database that was opened and what it tells.
  unfoldable pub load : D → TargetInfo → TargetManager D → TargetManager D × TargetInfo
  load db told m =
      let id = target_id m.next_id in
      let info = record told { id = id } in
      (
        record {
          targets = Dict.insert id (record { idb = some db; info = info }) m.targets;
          active_id = or_active m.active_id id;
          next_id = (m.next_id + 1) % word;
        },
        info,
      )

  unfoldable pub seed_next_id : String → TargetManager D → TargetManager D
  seed_next_id id m = elim (number_of id) [ none ↦ m | some n ↦ record m { next_id = n } ]

  -- `keys().next()`: some key, the first in the map's order.
  abbrev pub first_key : Dict String (TargetRecord D) → Option String
  first_key [] = none
  first_key ((id, t) ∷ d) = some id

  unfoldable pub close : String → TargetManager D → TargetManager D × Resolved
  close id m =
      let rest = Dict.remove id m.targets in
      if is_some (Dict.lookup id m.targets)
      then (
        record m {
          targets = rest;
          active_id = if is_active id m.active_id then first_key rest else m.active_id;
        },
        Resolved.ok id,
      )
      else (m, Resolved.err (not_found id))

  unfoldable pub set_active : String → TargetManager D → TargetManager D × Resolved
  set_active id m =
      if is_some (Dict.lookup id m.targets)
      then (record m { active_id = some id }, Resolved.ok id)
      else (m, Resolved.err (not_found id))

  unfoldable pub list : TargetManager D → List TargetInfo
  list m = infos m.targets
    where
      infos : Dict String (TargetRecord D) → List TargetInfo
      infos [] = []
      infos ((id, t) ∷ d) = t.info ∷ infos d

  -- The ids of the targets whose filename or path contains the selector.
  unfoldable pub filtered : String → Dict String (TargetRecord D) → List String
  filtered sel [] = []
  filtered sel ((id, t) ∷ d) =
      let rest = filtered sel d in
      if includes t.info.filename sel || includes t.info.path sel then id ∷ rest else rest

  abbrev pub is_empty : Dict String (TargetRecord D) → Bool
  is_empty [] = true
  is_empty (e ∷ d) = false

  unfoldable pub resolve : Option String → TargetManager D → Resolved
  unfolding filtered
  resolve selector m = if is_empty m.targets then Resolved.err no_targets else elim selector [
    | none ↦ current m.active_id
    | some sel ↦
        if sel == "active" || sel == ""
        then current m.active_id
        else if is_some (Dict.lookup sel m.targets)
        then Resolved.ok sel
        else one_of sel (filtered sel m.targets)
  ]

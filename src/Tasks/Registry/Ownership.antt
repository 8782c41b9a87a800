-- ===== src/Tasks/Registry/Ownership.antt =====
-- Who may see and cancel a task.
use ida_rs_cli.Base.{
  ℕ, false, String, Option, none, some, ◌≡◌, refl, string_eq, Option-cases, inl, inr,
}
use ida_rs_cli.Base.Dict
use ida_rs_cli.Base.Dict.{Dict}
use ida_rs_cli.Base.Dict.Laws.{NodupKeys}
use ida_rs_cli.Tasks.{Now, TaskOwner, TaskEntry, TaskRegistry, owner_eq}
use ida_rs_cli.Tasks.Retention.{prune_terminal_tasks}
use ida_rs_cli.Tasks.Registry
use ida_rs_cli.Tasks.Registry.{owned_by, cancel_found}
use ida_rs_cli.Tasks.Calls.Invariant.{prune-lookup}
use ida_rs_cli.Tasks.Calls.Evolution.{pruned_or_gone}

module _ {V : Type 0} where
  -- A task that another owner holds, or no task at all.
  abbrev pub IsForeign : TaskOwner → Option (TaskEntry V) → Type 0
  IsForeign owner none = Unit
  IsForeign owner (some e) = owner_eq e.owner owner ≡ false

  owned_by_foreign :
      (owner : TaskOwner) (o : Option (TaskEntry V)) → IsForeign owner o → owned_by owner o ≡ none
  unfolding owned_by
  owned_by_foreign owner none h = refl
  owned_by_foreign owner (some e) h = rw h

  prune-IsForeign :
      (owner : TaskOwner) (swept : ℕ) (id : String) (d : Dict String (TaskEntry V))
      → NodupKeys d
      → IsForeign owner (Dict.lookup id d)
      → IsForeign owner (Dict.lookup id (prune_terminal_tasks swept d))
  prune-IsForeign owner swept id d u h = elim (Option-cases (Dict.lookup id d)) [
    | inl absent ↦ rw (prune-lookup swept id d u, absent) tt
    | inr (e, found) ↦ elim (pruned_or_gone swept id e d u found) [
      | inl at ↦ rw at (rw found at h)
      | inr gone ↦ rw gone.0 tt
    ]
  ]

  -- An id of another owner's task is answered as an unknown id is: `get_for_owner` finds nothing,
  -- `cancel_for_owner` says no and leaves the registry as it is, and the answers and the registries
  -- are those for any other id that is unknown or another owner's.
  pub foreign_is_unknown :
      (swept : ℕ) (now : Now) (owner : TaskOwner) (id other : String) (r : TaskRegistry V)
      → NodupKeys r.entries
      → IsForeign owner (Dict.lookup id r.entries)
      → IsForeign owner (Dict.lookup other r.entries)
      → ((Registry.get_for_owner swept owner id r).1 ≡ none)
        × (Registry.get_for_owner swept owner id r ≡ Registry.get_for_owner swept owner other r)
        × (Registry.cancel_for_owner swept now owner id r ≡ (r, false))
  unfolding Registry.get_for_owner Registry.cancel_for_owner
  foreign_is_unknown swept now owner id other r u h k =
      let f = owned_by_foreign owner _ (prune-IsForeign owner swept id r.entries u h) in
      let g = owned_by_foreign owner _ (prune-IsForeign owner swept other r.entries u k) in
      (rw f, rw (f, g), rw (owned_by_foreign owner (Dict.lookup id r.entries) h))

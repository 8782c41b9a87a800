-- ===== src/Tasks/Calls/Touch.antt =====
-- The shape that a call on one task has: it writes at most the entry that it found, and may sweep.
use ida_rs_cli.Base.{
  ℕ, Bool, true, false, String, Option, none, some, if◌then◌else◌, ◌≡◌, refl, string_eq, Bool-cases,
  inl, inr,
}
use ida_rs_cli.Base.Dict
use ida_rs_cli.Base.Dict.{Dict}
use ida_rs_cli.Tasks.{Now, TaskEntry, TaskRegistry, TaskSettlement, is_unchanged}
use ida_rs_cli.Tasks.Retention.{prune_terminal_tasks}
use ida_rs_cli.Tasks.Entry.Laws.{Fires, Keeps}
use ida_rs_cli.Tasks.Registry.{settle_found}

pub same : (fired : ℕ → Bool) → Fires fired fired
same fired t h = h

module _ {V : Type 0} where
  abbrev pub swept_if : Bool → ℕ → Dict String (TaskEntry V) → Dict String (TaskEntry V)
  swept_if b swept d = if b then prune_terminal_tasks swept d else d

  pub data Touch (now swept : ℕ) (r r' : TaskRegistry V) : Type 0 where
    idle :
        (b : Bool)
        → Fires r.fired r'.fired
        → r'.entries ≡ swept_if b swept r.entries
        → Touch now swept r r'
    wrote :
        (b : Bool) (id : String) (e e' : TaskEntry V)
        → Fires r.fired r'.fired
        → Dict.lookup id r.entries ≡ some e
        → Keeps now r.fired r'.fired e e'
        → r'.entries ≡ swept_if b swept (Dict.insert id e' r.entries)
        → Touch now swept r r'

  pub settle_found-Touch :
      (swept : ℕ) (now : Now) (id : String) (method : TaskEntry V → TaskEntry V × TaskSettlement)
      (o : Option (TaskEntry V)) (r : TaskRegistry V)
      → ((e : TaskEntry V) → Keeps now.instant r.fired r.fired e (method e).0)
      → Dict.lookup id r.entries ≡ o
      → Touch now.instant swept r (settle_found swept id method o r).0
  unfolding settle_found
  settle_found-Touch swept now id method none r keeps found = idle false (same r.fired) refl
  settle_found-Touch swept now id method (some e) r keeps found =
      elim (Bool-cases (is_unchanged (method e).1)) [
        | inl u ↦ wrote false id e (method e).0 (same r.fired) found (keeps e) (rw u)
        | inr u ↦ wrote true id e (method e).0 (same r.fired) found (keeps e) (rw u)
      ]

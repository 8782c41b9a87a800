-- ===== src/Tasks/Admission.antt =====
-- src/server/task.rs: `create_keyed`. `now` is the clocks at the admission, `swept` the instant that
-- the first sweep reads, and `uuid` what `Uuid::new_v4` returns.
pub mod Laws
pub mod Outcome
use ida_rs_cli.Base.{
  ℕ, Bool, false, ◌&&◌, String, ◌<>◌, Option, none, some, [], ◌∷◌, if◌then◌else◌, leb, ◌==◌,
  string_eq, length,
}
use ida_rs_cli.Base.Dict
use ida_rs_cli.Base.Dict.{Dict}
use ida_rs_cli.Dates.Iso.{iso_of_secs}
use ida_rs_cli.Tasks.{
  Now, TaskOwner, owner_eq, is_session, TaskCreateError, Created, TaskState, TaskEntry, TaskStatus,
  TaskRegistry, is_running, max_task_registry_entries,
}
use ida_rs_cli.Tasks.Entry
use ida_rs_cli.Tasks.Retention.{prune_terminal_tasks, reclaim_capacity_for_admission}

-- A prefix and the random part, `uuid`, joined by a dash.
abbrev pub next_task_id : String → String → String
next_task_id prefix uuid = prefix <> "-" <> uuid

abbrev pub key_matches : String → Option String → Bool
key_matches key none = false
key_matches key (some k) = k == key

module _ {V : Type 0} where
  -- `entries.values().find(...)`: a running task with the key.
  unfoldable pub find_running_key : String → Dict String (TaskEntry V) → Option (TaskEntry V)
  find_running_key key [] = none
  find_running_key key ((id, e) ∷ d) =
      if is_running e.state.status && key_matches key e.state.key
      then some e
      else find_running_key key d

  -- The refusal of matching work: only a session is told the id of its own task.
  abbrev pub refusal : TaskOwner → TaskEntry V → TaskCreateError
  refusal owner existing =
      if is_session owner && owner_eq existing.owner owner
      then TaskCreateError.already_running existing.state.id
      else TaskCreateError.existing_task_id_is_private

  -- The `TaskState` of a task just admitted.
  abbrev pub initial_state : Now → String → String → String → TaskState V
  initial_state now id key message = record {
    id = id;
    status = TaskStatus.running;
    message = message;
    result = none;
    created_at = now.instant;
    updated_at = now.instant;
    created_at_iso = iso_of_secs now.unix_secs;
    updated_at_iso = iso_of_secs now.unix_secs;
    key = some key;
  }

  -- `create_keyed` behind its first sweep and its search for matching work.
  unfoldable pub admit :
      Now
      → TaskOwner
      → String
      → String
      → String
      → Dict String (TaskEntry V)
      → Dict String (TaskEntry V) × Created
  admit now owner id key message d =
      let reclaimed = reclaim_capacity_for_admission d in
      if leb max_task_registry_entries (length reclaimed)
      then (reclaimed, Created.err (TaskCreateError.capacity_exceeded max_task_registry_entries))
      else (
        Dict.insert id (Entry.new owner (initial_state now id key message)) reclaimed,
        Created.ok id,
      )

  unfoldable pub create_or_refuse :
      Now
      → TaskOwner
      → String
      → String
      → String
      → Option (TaskEntry V)
      → Dict String (TaskEntry V)
      → Dict String (TaskEntry V) × Created
  create_or_refuse now owner id key message (some existing) d =
      (d, Created.err (refusal owner existing))
  create_or_refuse now owner id key message none d = admit now owner id key message d

  unfoldable pub create_keyed :
      ℕ
      → Now
      → String
      → TaskOwner
      → String
      → String
      → String
      → TaskRegistry V
      → TaskRegistry V × Created
  create_keyed swept now uuid owner prefix key message r =
      let pruned = prune_terminal_tasks swept r.entries in
      let (d, created) =
        create_or_refuse now owner (next_task_id prefix uuid) key message
          (find_running_key key pruned) pruned in
      (record r { entries = d }, created)

-- ===== src/Tasks/Entry.antt =====
-- src/server/task.rs: `TaskEntry`'s methods. One that cancels a token takes and returns `fired`.
pub mod Laws
use ida_rs_cli.Base.{
  ℕ, Bool, true, false, not, ◌&&◌, ◌||◌, String, Option, none, some, if◌then◌else◌,
}
use ida_rs_cli.Base.Text.{◌<>◌, is_some}
use ida_rs_cli.Dates.Iso.{iso_of_secs}
use ida_rs_cli.Tasks.{
  Now, TaskOwner, TaskState, TaskEntry, TaskStatus, TaskSettlement, is_running, fire,
}

abbrev pub fire_token : Option ℕ → (ℕ → Bool) → ℕ → Bool
fire_token none fired = fired
fire_token (some t) fired = fire t fired

module _ {V : Type 0} where
  unfoldable pub new : TaskOwner → TaskState V → TaskEntry V
  new owner state = record {
    owner = owner;
    state = state;
    cancel_token = none;
    cancel_requested = none;
  }

  abbrev pub refresh_updated : Now → TaskState V → TaskState V
  refresh_updated now s = record s {
    updated_at = now.instant;
    updated_at_iso = iso_of_secs now.unix_secs;
  }

  -- The state after a transition with a message.
  abbrev pub settle : Now → TaskStatus → String → Option V → TaskState V → TaskState V
  settle now status message result s =
      refresh_updated now (record s { status = status; message = message; result = result })

  abbrev pub clear_runtime : TaskEntry V → TaskEntry V
  clear_runtime e = record e { cancel_token = none }

  unfoldable pub set_cancel_token : Option ℕ → TaskEntry V → (ℕ → Bool) → TaskEntry V × (ℕ → Bool)
  set_cancel_token token e fired = (
    record e { cancel_token = token },
    if is_some e.cancel_requested then fire_token token fired else fired,
  )

  unfoldable pub transition_cancelled : Now → String → TaskEntry V → TaskEntry V
  transition_cancelled now message e = record (clear_runtime e) {
    cancel_requested = none;
    state = settle now TaskStatus.cancelled message e.state.result e.state;
  }

  -- The end of `complete` and of `fail`: a pending cancellation wins.
  unfoldable pub settle_unless_requested :
      Now
      → Option String
      → TaskEntry V
      → TaskEntry V
      → TaskSettlement
      → TaskEntry V × TaskSettlement
  unfolding transition_cancelled
  settle_unless_requested now (some message) e settled settlement =
      (transition_cancelled now message e, TaskSettlement.cancelled)
  settle_unless_requested now none e settled settlement = (settled, settlement)

  unfoldable pub complete : Now → V → TaskEntry V → TaskEntry V × TaskSettlement
  unfolding settle_unless_requested
  complete now result e =
      if not (is_running e.state.status)
      then (e, TaskSettlement.unchanged)
      else settle_unless_requested now e.cancel_requested e
          (record (clear_runtime e) {
            state = settle now TaskStatus.completed "Completed" (some result) e.state;
          })
          TaskSettlement.completed

  unfoldable pub fail : Now → String → TaskEntry V → TaskEntry V × TaskSettlement
  unfolding settle_unless_requested
  fail now error e =
      if not (is_running e.state.status)
      then (e, TaskSettlement.unchanged)
      else settle_unless_requested now e.cancel_requested e
          (record (clear_runtime e) {
            state = settle now TaskStatus.failed error e.state.result e.state;
          })
          TaskSettlement.failed

  unfoldable pub fail_after_cleanup_error :
      Now → String → TaskEntry V → TaskEntry V × TaskSettlement
  fail_after_cleanup_error now error e =
      if not (is_running e.state.status) then (e, TaskSettlement.unchanged) else (
        record (clear_runtime e) {
          cancel_requested = none;
          state = settle now TaskStatus.failed error e.state.result e.state;
        },
        TaskSettlement.failed,
      )

  unfoldable pub request_cancel :
      Now
      → String
      → TaskEntry V
      → (ℕ → Bool)
      → record { entry : TaskEntry V; fired : ℕ → Bool; requested : Bool }
  request_cancel now message e fired =
      if not (is_running e.state.status) || is_some e.cancel_requested
      then record { entry = e; fired = fired; requested = false }
      else record {
        entry = record e {
          cancel_requested = some message;
          state =
              refresh_updated now
                (record (e.state) { message = message <> "; waiting for the operation to settle" });
        };
        fired = fire_token e.cancel_token fired;
        requested = true;
      }

  unfoldable pub finish_cancelled : Now → String → TaskEntry V → TaskEntry V × Bool
  unfolding transition_cancelled
  finish_cancelled now message e =
      if not (is_running e.state.status)
      then (e, false)
      else (transition_cancelled now message e, true)

  unfoldable pub update_message : Now → String → TaskEntry V → TaskEntry V
  update_message now message e =
      if is_running e.state.status && not (is_some e.cancel_requested)
      then record e { state = refresh_updated now (record (e.state) { message = message }) }
      else e

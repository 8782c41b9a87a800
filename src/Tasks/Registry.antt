-- ===== src/Tasks/Registry.antt =====
-- src/server/task.rs: the operations of `TaskRegistry` on a task that is there. `now` is the clocks at
-- a transition, `swept` the instant that a sweep reads.
pub mod Ownership
pub mod Settling
pub mod Cancellation
use mathlib.Core.Option
use ida_rs_cli.Base.{
  ℕ, ◌+◌, Bool, true, false, not, ◌||◌, String, is_some, Option, none, some, [], ◌∷◌, if◌then◌else◌,
  ltb, string_eq,
}
use ida_rs_cli.Base.Dict
use ida_rs_cli.Base.Dict.{Dict}
use ida_rs_cli.Tasks.{
  Now, TaskOwner, owner_eq, TaskState, TaskEntry, TaskSettlement, TaskCompletionDecision,
  TaskRegistry, is_running, is_unchanged,
}
use ida_rs_cli.Tasks.Entry
use ida_rs_cli.Tasks.Retention.{prune_terminal_tasks}

-- What `complete_or_defer_cancellation` makes of the settlement that `complete` reports.
abbrev pub decision_of : TaskSettlement → TaskCompletionDecision
decision_of TaskSettlement.completed = TaskCompletionDecision.completed
decision_of _ = TaskCompletionDecision.unchanged

abbrev pub completes : TaskCompletionDecision → Bool
completes TaskCompletionDecision.completed = true
completes _ = false

module _ {V : Type 0} where
  -- `entries.get_mut(id)` with a method that settles, and the sweep if it did.
  unfoldable pub settle_found :
      ℕ
      → String
      → (TaskEntry V → TaskEntry V × TaskSettlement)
      → Option (TaskEntry V)
      → TaskRegistry V
      → TaskRegistry V × TaskSettlement
  settle_found swept id method none r = (r, TaskSettlement.unchanged)
  settle_found swept id method (some e) r =
      let (e', settlement) = method e in
      let d = Dict.insert id e' r.entries in
      (
        record r { entries = if is_unchanged settlement then d else prune_terminal_tasks swept d },
        settlement,
      )

  abbrev pub settle_by :
      ℕ
      → String
      → (TaskEntry V → TaskEntry V × TaskSettlement)
      → TaskRegistry V
      → TaskRegistry V × TaskSettlement
  settle_by swept id method r = settle_found swept id method (Dict.lookup id r.entries) r

  unfoldable pub complete : ℕ → Now → String → V → TaskRegistry V → TaskRegistry V × TaskSettlement
  complete swept now id result = settle_by swept id (Entry.complete now result)

  unfoldable pub fail : ℕ → Now → String → String → TaskRegistry V → TaskRegistry V × TaskSettlement
  fail swept now id error = settle_by swept id (Entry.fail now error)

  unfoldable pub fail_after_cleanup_error :
      ℕ → Now → String → String → TaskRegistry V → TaskRegistry V × TaskSettlement
  fail_after_cleanup_error swept now id error =
      settle_by swept id (Entry.fail_after_cleanup_error now error)

  -- The arm of `complete_with_cancel_token` for a cancelled token.
  abbrev pub cancelled_settlement : TaskEntry V × Bool → TaskEntry V × TaskSettlement
  cancelled_settlement (e, done) =
      (e, if done then TaskSettlement.cancelled else TaskSettlement.unchanged)

  unfoldable pub complete_with_cancel_token :
      ℕ → Now → String → V → ℕ → String → TaskRegistry V → TaskRegistry V × TaskSettlement
  complete_with_cancel_token swept now id result token cancel_message r =
      settle_by swept id
        (λ e.
          if r.fired token
          then cancelled_settlement (Entry.finish_cancelled now cancel_message e)
          else Entry.complete now result e)
        r

  unfoldable pub complete_or_defer_found :
      ℕ
      → Now
      → String
      → V
      → ℕ
      → Option (TaskEntry V)
      → TaskRegistry V
      → TaskRegistry V × TaskCompletionDecision
  complete_or_defer_found swept now id result token none r = (r, TaskCompletionDecision.unchanged)
  complete_or_defer_found swept now id result token (some e) r =
      if not (is_running e.state.status)
      then (r, TaskCompletionDecision.unchanged)
      else if r.fired token || is_some e.cancel_requested
      then (r, TaskCompletionDecision.cancellation_pending)
      else let (e', settlement) = Entry.complete now result e in
        let d = Dict.insert id e' r.entries in
        let decision = decision_of settlement in
        (
          record r { entries = if completes decision then prune_terminal_tasks swept d else d },
          decision,
        )

  unfoldable pub complete_or_defer_cancellation :
      ℕ → Now → String → V → ℕ → TaskRegistry V → TaskRegistry V × TaskCompletionDecision
  unfolding complete_or_defer_found
  complete_or_defer_cancellation swept now id result token r =
      complete_or_defer_found swept now id result token (Dict.lookup id r.entries) r

  -- `set_cancel_token`.
  unfoldable pub set_token_found :
      String → ℕ → Option (TaskEntry V) → TaskRegistry V → TaskRegistry V
  set_token_found id token none r = r
  set_token_found id token (some e) r =
      let (e', fired) = Entry.set_cancel_token (some token) e r.fired in
      record { entries = Dict.insert id e' r.entries; fired = fired }

  unfoldable pub set_cancel_token : String → ℕ → TaskRegistry V → TaskRegistry V
  unfolding set_token_found
  set_cancel_token id token r = set_token_found id token (Dict.lookup id r.entries) r

  unfoldable pub update_found :
      Now → String → String → Option (TaskEntry V) → TaskRegistry V → TaskRegistry V
  update_found now id message none r = r
  update_found now id message (some e) r = record r {
    entries = Dict.insert id (Entry.update_message now message e) r.entries;
  }

  unfoldable pub update_message : Now → String → String → TaskRegistry V → TaskRegistry V
  unfolding update_found
  update_message now id message r = update_found now id message (Dict.lookup id r.entries) r

  -- `get` and `get_for_owner` sweep before they read.
  unfoldable pub get : ℕ → String → TaskRegistry V → TaskRegistry V × Option (TaskState V)
  get swept id r =
      let d = prune_terminal_tasks swept r.entries in
      (record r { entries = d }, Option.map (λ e. e.state) (Dict.lookup id d))

  -- `filter(|entry| &entry.owner == owner)`.
  unfoldable pub owned_by : TaskOwner → Option (TaskEntry V) → Option (TaskEntry V)
  owned_by owner none = none
  owned_by owner (some e) = if owner_eq e.owner owner then some e else none

  unfoldable pub get_for_owner :
      ℕ → TaskOwner → String → TaskRegistry V → TaskRegistry V × Option (TaskState V)
  unfolding owned_by
  get_for_owner swept owner id r =
      let d = prune_terminal_tasks swept r.entries in
      (record r { entries = d }, Option.map (λ e. e.state) (owned_by owner (Dict.lookup id d)))

  unfoldable pub cancel_found :
      ℕ → Now → String → Option (TaskEntry V) → TaskRegistry V → TaskRegistry V × Bool
  cancel_found swept now id none r = (r, false)
  cancel_found swept now id (some e) r =
      let c = Entry.request_cancel now "Cancelled by client" e r.fired in
      let d = Dict.insert id c.entry r.entries in
      (
        record {
          entries = if c.requested then prune_terminal_tasks swept d else d;
          fired = c.fired;
        },
        c.requested,
      )

  unfoldable pub cancel_for_owner :
      ℕ → Now → TaskOwner → String → TaskRegistry V → TaskRegistry V × Bool
  unfolding cancel_found owned_by
  cancel_for_owner swept now owner id r =
      cancel_found swept now id (owned_by owner (Dict.lookup id r.entries)) r

  unfoldable pub finish_cancelled_found :
      ℕ → Now → String → String → Option (TaskEntry V) → TaskRegistry V → TaskRegistry V × Bool
  finish_cancelled_found swept now id message none r = (r, false)
  finish_cancelled_found swept now id message (some e) r =
      let (e', done) = Entry.finish_cancelled now message e in
      let d = Dict.insert id e' r.entries in
      (record r { entries = if done then prune_terminal_tasks swept d else d }, done)

  unfoldable pub finish_cancelled :
      ℕ → Now → String → String → TaskRegistry V → TaskRegistry V × Bool
  unfolding finish_cancelled_found
  finish_cancelled swept now id message r =
      finish_cancelled_found swept now id message (Dict.lookup id r.entries) r

  -- The fold of `cancel_all_running`; `nows` gives the clocks at each entry, by its id.
  unfoldable pub cancel_each :
      (String → Now)
      → String
      → Dict String (TaskEntry V)
      → (ℕ → Bool)
      → record { entries : Dict String (TaskEntry V); fired : ℕ → Bool; count : ℕ }
  cancel_each nows message [] fired = record { entries = []; fired = fired; count = 0 }
  cancel_each nows message ((id, e) ∷ d) fired =
      let c = Entry.request_cancel (nows id) message e fired in
      let rest = cancel_each nows message d c.fired in
      record {
        entries = (id, c.entry) ∷ rest.entries;
        fired = rest.fired;
        count = (if c.requested then 1 else 0) + rest.count;
      }

  unfoldable pub cancel_all_running :
      ℕ → (String → Now) → String → TaskRegistry V → TaskRegistry V × ℕ
  unfolding cancel_each
  cancel_all_running swept nows message r =
      let c = cancel_each nows message r.entries r.fired in
      (
        record {
          entries = if ltb 0 c.count then prune_terminal_tasks swept c.entries else c.entries;
          fired = c.fired;
        },
        c.count,
      )

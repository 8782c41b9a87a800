-- ===== src/Tasks/Calls.antt =====
-- src/server/task.rs: a registry's life as a sequence of calls, in the order in which they took the
-- lock. `outside` stands for another holder of a cancellation token who cancels it.
pub mod Touch
pub mod Steps
pub mod Invariant
pub mod CancelAll
pub mod Evolution
pub mod Runs
pub mod Fates
use ida_rs_cli.Base.{ℕ, ◌+◌, ◌<◌, String, none, List, [], ◌∷◌, ◌≡◌, string_eq}
use ida_rs_cli.Base.Dict
use ida_rs_cli.Tasks.{Now, TaskOwner, TaskRegistry, fire, task_retention_ttl_ms}
use ida_rs_cli.Tasks.Admission.{create_keyed, next_task_id}
use ida_rs_cli.Tasks.Registry

pub data Call (V : Type 0) : Type 0 where
  create : ℕ → Now → String → TaskOwner → String → String → String → Call V
  complete : ℕ → Now → String → V → Call V
  complete_with_token : ℕ → Now → String → V → ℕ → String → Call V
  complete_or_defer : ℕ → Now → String → V → ℕ → Call V
  fail : ℕ → Now → String → String → Call V
  fail_after_cleanup : ℕ → Now → String → String → Call V
  finish_cancelled : ℕ → Now → String → String → Call V
  cancel_for_owner : ℕ → Now → TaskOwner → String → Call V
  cancel_all : ℕ → (String → Now) → String → Call V
  set_token : String → ℕ → Call V
  update : Now → String → String → Call V
  get : ℕ → String → Call V
  get_for_owner : ℕ → TaskOwner → String → Call V
  outside : ℕ → Call V

module _ {V : Type 0} where
  unfoldable pub step : Call V → TaskRegistry V → TaskRegistry V
  step (create swept now uuid owner prefix key message) r =
      (create_keyed swept now uuid owner prefix key message r).0
  step (complete swept now id v) r = (Registry.complete swept now id v r).0
  step (complete_with_token swept now id v t message) r =
      (Registry.complete_with_cancel_token swept now id v t message r).0
  step (complete_or_defer swept now id v t) r =
      (Registry.complete_or_defer_cancellation swept now id v t r).0
  step (fail swept now id error) r = (Registry.fail swept now id error r).0
  step (fail_after_cleanup swept now id error) r =
      (Registry.fail_after_cleanup_error swept now id error r).0
  step (finish_cancelled swept now id message) r =
      (Registry.finish_cancelled swept now id message r).0
  step (cancel_for_owner swept now owner id) r = (Registry.cancel_for_owner swept now owner id r).0
  step (cancel_all swept nows message) r = (Registry.cancel_all_running swept nows message r).0
  step (set_token id t) r = Registry.set_cancel_token id t r
  step (update now id message) r = Registry.update_message now id message r
  step (get swept id) r = (Registry.get swept id r).0
  step (get_for_owner swept owner id) r = (Registry.get_for_owner swept owner id r).0
  step (outside t) r = record r { fired = fire t r.fired }

  unfoldable pub run : List (Call V) → TaskRegistry V → TaskRegistry V
  run [] r = r
  run (c ∷ cs) r = run cs (step c r)

  -- A random id is new to the registry.
  abbrev pub IsFresh : Call V → TaskRegistry V → Type 0
  IsFresh (create swept now uuid owner prefix key message) r =
      Dict.lookup (next_task_id prefix uuid) r.entries ≡ none
  IsFresh _ r = Unit

  -- A sweep reads the clock less than the retention time after the transition before it.
  abbrev pub IsTimely : Call V → Type 0
  IsTimely (complete swept now id v) = swept < now.instant + task_retention_ttl_ms
  IsTimely (complete_with_token swept now id v t message) =
      swept < now.instant + task_retention_ttl_ms
  IsTimely (complete_or_defer swept now id v t) = swept < now.instant + task_retention_ttl_ms
  IsTimely (fail swept now id error) = swept < now.instant + task_retention_ttl_ms
  IsTimely (fail_after_cleanup swept now id error) = swept < now.instant + task_retention_ttl_ms
  IsTimely (finish_cancelled swept now id message) = swept < now.instant + task_retention_ttl_ms
  IsTimely _ = Unit

  -- The same along a run.
  abbrev pub AllFresh : List (Call V) → TaskRegistry V → Type 0
  AllFresh [] r = Unit
  AllFresh (c ∷ cs) r = IsFresh c r × AllFresh cs (step c r)

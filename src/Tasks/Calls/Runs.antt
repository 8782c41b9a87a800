-- ===== src/Tasks/Calls/Runs.antt =====
-- Every call keeps the invariant, and so every history of a registry does.
use ida_rs_cli.Base.{false, String, some, List, [], ◌∷◌, ◌≡◌, refl, arith, string_eq}
use ida_rs_cli.Base.Dict
use ida_rs_cli.Tasks.{TaskEntry, TaskRegistry}
use ida_rs_cli.Tasks.Entry.Laws.{fire-Fires}
use ida_rs_cli.Tasks.Admission.Laws.{create_keyed-IsValid}
use ida_rs_cli.Tasks.Calls.{
  Call, create, complete, complete_with_token, complete_or_defer, fail, fail_after_cleanup,
  finish_cancelled, cancel_for_owner, cancel_all, set_token, update, get, get_for_owner, outside,
  step, run,
}
use ida_rs_cli.Tasks.Calls.Touch.{idle}
use ida_rs_cli.Tasks.Calls.Steps
use ida_rs_cli.Tasks.Calls.Invariant.{IsValid, Touch-IsValid}
use ida_rs_cli.Tasks.Calls.CancelAll.{cancel_all_running-IsValid}

module _ {V : Type 0} where
  abbrev pub empty : TaskRegistry V
  empty = record { entries = []; fired = λ t. false }

  -- Every call keeps the registry valid: at most 256 tasks under distinct ids, no two running tasks
  -- with one deduplication key, a result exactly on completed tasks, no cancellation pending on a
  -- settled one, and every registered token of a task whose cancellation is pending cancelled.
  pub step-IsValid : (c : Call V) (r : TaskRegistry V) → IsValid r → IsValid (step c r)
  unfolding step
  step-IsValid (create swept now uuid owner prefix key message) r v =
      create_keyed-IsValid swept now uuid owner prefix key message r v
  step-IsValid (complete swept now id x) r v =
      Touch-IsValid now.instant swept r _ (Steps.complete-Touch swept now id r x) v
  step-IsValid (complete_with_token swept now id x t message) r v =
      Touch-IsValid now.instant swept r _
        (Steps.complete_with_cancel_token-Touch swept now id r x t message) v
  step-IsValid (complete_or_defer swept now id x t) r v =
      Touch-IsValid now.instant swept r _
        (Steps.complete_or_defer_cancellation-Touch swept now id r x t) v
  step-IsValid (fail swept now id error) r v =
      Touch-IsValid now.instant swept r _ (Steps.fail-Touch swept now id r error) v
  step-IsValid (fail_after_cleanup swept now id error) r v =
      Touch-IsValid now.instant swept r _
        (Steps.fail_after_cleanup_error-Touch swept now id r error) v
  step-IsValid (finish_cancelled swept now id message) r v =
      Touch-IsValid now.instant swept r _ (Steps.finish_cancelled-Touch swept now id r message) v
  step-IsValid (cancel_for_owner swept now owner id) r v =
      Touch-IsValid now.instant swept r _
        (Steps.cancel_for_owner-Touch swept now id r now.instant owner) v
  step-IsValid (cancel_all swept nows message) r v =
      cancel_all_running-IsValid nows message swept r v
  step-IsValid (set_token id t) r v =
      Touch-IsValid 0 0 r _
        (Steps.set_cancel_token-Touch 0 (record { instant = 0; unix_secs = 0 }) id r t) v
  step-IsValid (update now id message) r v =
      Touch-IsValid now.instant 0 r _ (Steps.update_message-Touch 0 now id r message) v
  step-IsValid (get swept id) r v = Touch-IsValid 0 swept r _ (Steps.get-Touch 0 swept id r) v
  step-IsValid (get_for_owner swept owner id) r v =
      Touch-IsValid 0 swept r _ (Steps.get_for_owner-Touch 0 swept owner id r) v
  step-IsValid (outside t) r v = Touch-IsValid 0 0 r _ (idle false (fire-Fires t r.fired) refl) v

  run-IsValid : (cs : List (Call V)) (r : TaskRegistry V) → IsValid r → IsValid (run cs r)
  unfolding run
  run-IsValid [] r v = v
  run-IsValid (c ∷ cs) r v = run-IsValid cs (step c r) (step-IsValid c r v)

  empty_lookup :
      (i : String) (e : TaskEntry V) {A : Type 0} → Dict.lookup i empty.entries ≡ some e → A
  unfolding Dict.lookup
  empty_lookup i e h = absurd (cc)

  -- Whatever calls came since the registry was created, it is valid.
  pub run-empty-IsValid : (cs : List (Call V)) → IsValid (run cs empty)
  run-empty-IsValid cs = run-IsValid cs empty (record {
    nodup = tt;
    bounded = omega arith;
    each = tt;
    unique = λ k i j e f found_e _ _ _ _ _. empty_lookup i e found_e;
  })

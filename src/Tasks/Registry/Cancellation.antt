-- ===== src/Tasks/Registry/Cancellation.antt =====
-- A cancellation that was accepted wins over the operation's own result.
use ida_rs_cli.Base.{
  ℕ, ◌+◌, ◌<◌, Bool, true, false, String, is_some, Option, none, some, ◌≡◌, refl, arith, string_eq,
  inl, inr, if_pos, if◌then◌else◌,
}
use ida_rs_cli.Base.Dict
use ida_rs_cli.Base.Dict.{Dict}
use ida_rs_cli.Base.Dict.Laws.{NodupKeys, lookup-insert, insert-NodupKeys, retain-NodupKeys}
use ida_rs_cli.Tasks.{
  Now, TaskOwner, TaskEntry, TaskRegistry, TaskStatus, TaskSettlement, TaskCompletionDecision,
  is_running, task_retention_ttl_ms,
}
use ida_rs_cli.Tasks.Retention.{prune_terminal_tasks}
use ida_rs_cli.Tasks.Entry
use ida_rs_cli.Tasks.Registry
use ida_rs_cli.Tasks.Registry.{
  settle_by, cancelled_settlement, owned_by, cancel_found, settle_found, complete_or_defer_found,
}
use ida_rs_cli.Tasks.Registry.Settling.{
  EndsAs, settle_by-EndsAs, complete-Makes, fail-Makes, with_token-Makes, cleanup-Makes,
}
use ida_rs_cli.Tasks.Calls.Evolution.{pruned_or_gone}

module _ {V : Type 0} where
  -- A running task whose cancellation is pending.
  pub record Pending (id : String) (r : TaskRegistry V) : Type 0 where
    pub entry : TaskEntry V
    pub at : Dict.lookup id r.entries ≡ some entry
    pub runs : is_running entry.state.status ≡ true
    pub asked : is_some entry.cancel_requested ≡ true

  request_cancel_runs :
      (now : Now) (message : String) (e : TaskEntry V) (fired : ℕ → Bool)
      → (Entry.request_cancel now message e fired).requested ≡ true
      → (is_running (Entry.request_cancel now message e fired).entry.state.status ≡ true)
        × (is_some (Entry.request_cancel now message e fired).entry.cancel_requested ≡ true)
  unfolding Entry.request_cancel
  request_cancel_runs now message e fired h = ground arith

  running_kept :
      (swept : ℕ) (id : String) (e : TaskEntry V) (d : Dict String (TaskEntry V))
      → NodupKeys d
      → is_running e.state.status ≡ true
      → Dict.lookup id d ≡ some e
      → Dict.lookup id (prune_terminal_tasks swept d) ≡ some e
  running_kept swept id e d u runs found = elim (pruned_or_gone swept id e d u found) [
    | inl at ↦ at
    | inr gone ↦ absurd (cc (gone.1))
  ]

  cancel_for_owner-Pending :
      (swept : ℕ) (now : Now) (owner : TaskOwner) (id : String) (r : TaskRegistry V)
      → NodupKeys r.entries
      → (Registry.cancel_for_owner swept now owner id r).1 ≡ true
      → Pending id (Registry.cancel_for_owner swept now owner id r).0
  unfolding Registry.cancel_for_owner
  cancel_for_owner-Pending swept now owner id r u h =
      go (owned_by owner (Dict.lookup id r.entries)) h
    where
      go :
          (o : Option (TaskEntry V))
          → (cancel_found swept now id o r).1 ≡ true
          → Pending id (cancel_found swept now id o r).0
      go none h = absurd (cc)
      go (some e) h =
          let c = Entry.request_cancel now "Cancelled by client" e r.fired in
          let (runs, asked) = request_cancel_runs now "Cancelled by client" e r.fired h in
          record {
            entry = c.entry;
            at = rw h (
                running_kept swept id c.entry (Dict.insert id c.entry r.entries)
                  (insert-NodupKeys id c.entry r.entries u) runs
                  (rw (lookup-insert id id c.entry r.entries, if_pos _ refl)));
            runs = runs;
            asked = asked;
          }

  -- Every way to settle leaves the task cancelled, or failed by a cleanup.
  abbrev pub Settles : ℕ → Now → String → V → String → ℕ → TaskRegistry V → Type 0
  Settles swept now id v error token r =
      EndsAs TaskStatus.cancelled TaskSettlement.cancelled id r (Registry.complete swept now id v r)
      × EndsAs TaskStatus.cancelled TaskSettlement.cancelled id r
          (Registry.fail swept now id error r)
      × EndsAs TaskStatus.cancelled TaskSettlement.cancelled id r
          (Registry.complete_with_cancel_token swept now id v token error r)
      × (Registry.complete_or_defer_cancellation swept now id v token r
          ≡ (r, TaskCompletionDecision.cancellation_pending))
      × EndsAs TaskStatus.failed TaskSettlement.failed id r
          (Registry.fail_after_cleanup_error swept now id error r)

  Pending-Settles :
      (swept : ℕ) (now : Now) (id : String) (v : V) (error : String) (token : ℕ)
      (r : TaskRegistry V)
      → NodupKeys r.entries
      → swept < now.instant + task_retention_ttl_ms
      → Pending id r
      → Settles swept now id v error token r
  unfolding Registry.complete Registry.fail Registry.complete_with_cancel_token
      Registry.complete_or_defer_cancellation Registry.fail_after_cleanup_error
  Pending-Settles swept now id v error token r u timely p =
      let e = p.entry in
      let at = p.at in
      (
        settle_by-EndsAs swept now id _ _ _ r e u timely at (complete-Makes now e p.runs p.asked v),
        settle_by-EndsAs swept now id _ _ _ r e u timely at (fail-Makes now e p.runs p.asked error),
        settle_by-EndsAs swept now id _ _ _ r e u timely at
            (with_token-Makes now e p.runs p.asked (r.fired token) error v),
        rw at (ground arith),
        settle_by-EndsAs swept now id _ _ _ r e u timely at
            (cleanup-Makes now e p.runs p.asked error),
      )

  cancel_for_owner-NodupKeys :
      (swept : ℕ) (now : Now) (owner : TaskOwner) (id : String) (r : TaskRegistry V)
      → NodupKeys r.entries
      → NodupKeys (Registry.cancel_for_owner swept now owner id r).0.entries
  unfolding Registry.cancel_for_owner prune_terminal_tasks
  cancel_for_owner-NodupKeys swept now owner id r u = go (owned_by owner (Dict.lookup id r.entries))
    where
      swept_or_not :
          (b : Bool) (d : Dict String (TaskEntry V))
          → NodupKeys d
          → NodupKeys (if b then prune_terminal_tasks swept d else d)
      swept_or_not true d n = retain-NodupKeys _ d n
      swept_or_not false d n = n

      go : (o : Option (TaskEntry V)) → NodupKeys (cancel_found swept now id o r).0.entries
      go none = u
      go (some e) = swept_or_not _ _ (insert-NodupKeys id _ r.entries u)

  -- Once `cancel_for_owner` has said yes, the task is left settled as cancelled, without a new result,
  -- whether its operation succeeds or fails. A deferring completion leaves it as it is and reports
  -- the cancellation, and only a failed cleanup leaves it failed. The sweep at the end runs within
  -- the retention time of the settlement.
  pub cancel_wins :
      (swept later : ℕ) (now then_now : Now) (owner : TaskOwner) (id : String) (v : V)
      (error : String) (token : ℕ) (r : TaskRegistry V)
      → NodupKeys r.entries
      → later < then_now.instant + task_retention_ttl_ms
      → (Registry.cancel_for_owner swept now owner id r).1 ≡ true
      → Settles later then_now id v error token (Registry.cancel_for_owner swept now owner id r).0
  cancel_wins swept later now then_now owner id v error token r u timely h =
      Pending-Settles later then_now id v error token _
        (cancel_for_owner-NodupKeys swept now owner id r u) timely
        (cancel_for_owner-Pending swept now owner id r u h)

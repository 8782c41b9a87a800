-- ===== src/Tasks/Registry/Settling.antt =====
-- How a running task whose cancellation is pending settles.
use ida_rs_cli.Base.{
  ℕ, ◌+◌, ◌<◌, Bool, true, false, String, is_some, none, some, ◌≡◌, refl, arith, string_eq, if_pos,
  if◌then◌else◌,
}
use ida_rs_cli.Base.Dict
use ida_rs_cli.Base.Dict.{Dict}
use ida_rs_cli.Base.Dict.Laws.{NodupKeys, lookup-insert, insert-NodupKeys}
use ida_rs_cli.Tasks.{
  Now, TaskEntry, TaskRegistry, TaskStatus, TaskSettlement, is_running, is_unchanged,
  task_retention_ttl_ms,
}
use ida_rs_cli.Tasks.Retention.{is_kept}
use ida_rs_cli.Tasks.Entry
use ida_rs_cli.Tasks.Registry.{settle_by, cancelled_settlement, settle_found}
use ida_rs_cli.Tasks.Calls.Invariant.{prune-lookup}

module _ {V : Type 0} where
  -- The answer reports `settlement`; the task is still there, settled as `status`, with the result
  -- that it had when its cancellation was pending, and holds no token and no request any more.
  pub record EndsAs (status : TaskStatus) (settlement : TaskSettlement) (id : String)
      (before : TaskRegistry V) (answer : TaskRegistry V × TaskSettlement) : Type 0 where
    pub was : TaskEntry V
    pub was_at : Dict.lookup id before.entries ≡ some was
    pub entry : TaskEntry V
    pub at : Dict.lookup id answer.0.entries ≡ some entry
    pub reported : answer.1 ≡ settlement
    pub settled : entry.state.status ≡ status
    pub result : entry.state.result ≡ was.state.result
    pub cleared : (entry.cancel_token ≡ none) × (entry.cancel_requested ≡ none)

  -- What a method makes of the entry `e`.
  pub record Makes (now : Now) (status : TaskStatus) (settlement : TaskSettlement) (e : TaskEntry V)
      (answer : TaskEntry V × TaskSettlement) : Type 0 where
    reported : answer.1 ≡ settlement
    changed : is_unchanged settlement ≡ false
    settled : answer.0.state.status ≡ status
    result : answer.0.state.result ≡ e.state.result
    updated : answer.0.state.updated_at ≡ now.instant
    cleared : (answer.0.cancel_token ≡ none) × (answer.0.cancel_requested ≡ none)

  -- A sweep spares what settled just now.
  pub settle_by-EndsAs :
      (swept : ℕ) (now : Now) (id : String) (status : TaskStatus) (settlement : TaskSettlement)
      (method : TaskEntry V → TaskEntry V × TaskSettlement) (r : TaskRegistry V) (e : TaskEntry V)
      → NodupKeys r.entries
      → swept < now.instant + task_retention_ttl_ms
      → Dict.lookup id r.entries ≡ some e
      → Makes now status settlement e (method e)
      → EndsAs status settlement id r (settle_by swept id method r)
  unfolding settle_found
  settle_by-EndsAs swept now id status settlement method r e u timely at m = record {
    was = e;
    was_at = at;
    entry = (method e).0;
    at =
        rw (at, m.reported, m.changed)
          (rw
            (
              prune-lookup swept id (Dict.insert id (method e).0 r.entries)
                  (insert-NodupKeys id (method e).0 r.entries u),
              lookup-insert id id (method e).0 r.entries,
              if_pos _ refl,
              stays,
            )
            refl);
    reported = rw at m.reported;
    settled = m.settled;
    result = m.result;
    cleared = m.cleared;
  }
    where
      stays : is_kept swept (method e).0 ≡ true
      stays = ground (arith, m.updated)

  -- The ways to settle a running entry whose cancellation is pending.
  module _ (now : Now) (e : TaskEntry V) (runs : is_running e.state.status ≡ true)
      (asked : is_some e.cancel_requested ≡ true) where
    pub complete-Makes :
        (v : V) → Makes now TaskStatus.cancelled TaskSettlement.cancelled e (Entry.complete now v e)
    unfolding Entry.complete
    complete-Makes v = record {
      reported = ground arith;
      changed = refl;
      settled = ground arith;
      result = ground arith;
      updated = ground arith;
      cleared = (ground arith, ground arith);
    }

    pub fail-Makes :
        (error : String)
        → Makes now TaskStatus.cancelled TaskSettlement.cancelled e (Entry.fail now error e)
    unfolding Entry.fail
    fail-Makes error = record {
      reported = ground arith;
      changed = refl;
      settled = ground arith;
      result = ground arith;
      updated = ground arith;
      cleared = (ground arith, ground arith);
    }

    finish-Makes :
        (message : String)
        → Makes now TaskStatus.cancelled TaskSettlement.cancelled e
            (cancelled_settlement (Entry.finish_cancelled now message e))
    unfolding Entry.finish_cancelled
    finish-Makes message = rw runs (record {
      reported = refl;
      changed = refl;
      settled = refl;
      result = refl;
      updated = refl;
      cleared = (refl, refl);
    })

    pub with_token-Makes :
        (cancelled : Bool) (message : String) (v : V)
        → Makes now TaskStatus.cancelled TaskSettlement.cancelled e (
            if cancelled
            then cancelled_settlement (Entry.finish_cancelled now message e)
            else Entry.complete now v e)
    with_token-Makes true message v = finish-Makes message
    with_token-Makes false message v = complete-Makes v

    pub cleanup-Makes :
        (error : String)
        → Makes now TaskStatus.failed TaskSettlement.failed e
            (Entry.fail_after_cleanup_error now error e)
    unfolding Entry.fail_after_cleanup_error
    cleanup-Makes error = rw runs (record {
      reported = refl;
      changed = refl;
      settled = refl;
      result = refl;
      updated = refl;
      cleared = (refl, refl);
    })

-- ===== src/Tasks/Calls/Fates.antt =====
-- The fate of a task through any call: the headline facts about settling, forgetting and ownership.
use ida_rs_cli.Base.{
  ℕ, true, String, Option, none, some, ◌≡◌, sym, ap, ◌∙◌, arith, string_eq, Bool-cases, inl, inr,
  if_neg, ◌≢◌, leb, ltb, length,
}
use ida_rs_cli.Base.Dict
use ida_rs_cli.Base.Dict.{Dict}
use ida_rs_cli.Base.Dict.Laws.{NodupKeys, lookup-insert, lookup-remove}
use ida_rs_cli.Tasks.{Now, TaskOwner, TaskEntry, TaskRegistry, max_task_registry_entries}
use ida_rs_cli.Tasks.Retention.{prune_terminal_tasks, reclaim_capacity_for_admission}
use ida_rs_cli.Tasks.Retention.Laws.{Reclaimed, room, full, oldest, reclaim-Reclaimed}
use ida_rs_cli.Tasks.Admission.{
  admit, create_or_refuse, create_keyed, find_running_key, next_task_id,
}
use ida_rs_cli.Tasks.Registry
use ida_rs_cli.Tasks.Calls.{
  Call, create, complete, complete_with_token, complete_or_defer, fail, fail_after_cleanup,
  finish_cancelled, cancel_for_owner, cancel_all, set_token, update, get, get_for_owner, outside,
  step, IsFresh, IsTimely,
}
use ida_rs_cli.Tasks.Calls.Steps
use ida_rs_cli.Tasks.Calls.Invariant.{IsValid, prune-IsValid}
use ida_rs_cli.Tasks.Calls.CancelAll.{after, after-NodupKeys, lookup-after}
use ida_rs_cli.Tasks.Calls.Evolution.{
  Evolves, Continues-refl, Touch-Evolves, swept-Evolves, pruned_or_gone,
}

module _ {V : Type 0} where
  cancel_all-Evolves :
      (swept : ℕ) (nows : String → Now) (message id : String) (e : TaskEntry V) (r : TaskRegistry V)
      → NodupKeys r.entries
      → Dict.lookup id r.entries ≡ some e
      → Evolves e (Dict.lookup id (Registry.cancel_all_running swept nows message r).0.entries)
  unfolding Registry.cancel_all_running
  cancel_all-Evolves swept nows message id e r u found =
      let (e', at, s, same) = lookup-after nows message swept id e r.entries r.fired found in
      swept-Evolves (ltb 0 (Registry.cancel_each nows message r.entries r.fired).count) swept swept
        id e e' (after nows message r.entries r.fired)
        (after-NodupKeys nows message r.entries r.fired u) (omega arith) at s

  Reclaimed-Evolves :
      (id : String) (e : TaskEntry V) (d d' : Dict String (TaskEntry V))
      → Reclaimed d d'
      → Dict.lookup id d ≡ some e
      → Evolves e (Dict.lookup id d')
  Reclaimed-Evolves id e d d' (room h q) found = rw q (inl (e, found, Continues-refl e))
  Reclaimed-Evolves id e d d' (full n h q) found = rw q (inl (e, found, Continues-refl e))
  Reclaimed-Evolves id e d d' (oldest t j n (x, at, settled, when) min q) found =
      rw q (elim (string_eq.dec j id) [
        | yes p ↦ inr (
          ground (arith, lookup-remove id j d),
          let here : x ≡ e = some_injective (sym at ∙ ap (λ k. Dict.lookup k d) p ∙ found) in
              rw (← here) settled,
        )
        | no p ↦ inl (e, ground (arith, lookup-remove id j d), Continues-refl e)
      ])
    where
      some_injective : some x ≡ some e → x ≡ e
      some_injective q = cc

  -- A new task under a fresh id leaves the fate of the others to the reclaiming.
  admit-Evolves :
      (now : Now) (owner : TaskOwner) (new_id key message id : String) (e : TaskEntry V)
      (d : Dict String (TaskEntry V))
      → Reclaimed d (reclaim_capacity_for_admission d)
      → new_id ≢ id
      → Dict.lookup id d ≡ some e
      → Evolves e (Dict.lookup id (admit now owner new_id key message d).0)
  unfolding admit
  admit-Evolves now owner new_id key message id e d made differ found =
      let d' = reclaim_capacity_for_admission d in
      let h = Reclaimed-Evolves id e d d' made found in
      elim (Bool-cases (leb max_task_registry_entries (length d'))) [
        | inl no_room ↦ rw no_room h
        | inr has_room ↦ rw has_room (rw (lookup-insert id new_id _ d', if_neg _ differ) h)
      ]

  create_or_refuse-Evolves :
      (now : Now) (owner : TaskOwner) (new_id key message id : String) (e : TaskEntry V)
      (o : Option (TaskEntry V)) (d : Dict String (TaskEntry V))
      → Reclaimed d (reclaim_capacity_for_admission d)
      → new_id ≢ id
      → Dict.lookup id d ≡ some e
      → Evolves e (Dict.lookup id (create_or_refuse now owner new_id key message o d).0)
  unfolding create_or_refuse
  create_or_refuse-Evolves now owner new_id key message id e (some x) d made differ found =
      inl (e, found, Continues-refl e)
  create_or_refuse-Evolves now owner new_id key message id e none d made differ found =
      admit-Evolves now owner new_id key message id e d made differ found

  Reclaimed-absent :
      (id : String) (d d' : Dict String (TaskEntry V))
      → Reclaimed d d'
      → Dict.lookup id d ≡ none
      → Dict.lookup id d' ≡ none
  Reclaimed-absent id d d' (room h q) absent = rw q absent
  Reclaimed-absent id d d' (full n h q) absent = rw q absent
  Reclaimed-absent id d d' (oldest t j n s min q) absent =
      rw q (ground (arith, lookup-remove id j d))

  create_or_refuse_absent :
      (now : Now) (owner : TaskOwner) (new_id key message id : String) (o : Option (TaskEntry V))
      (d : Dict String (TaskEntry V))
      → Reclaimed d (reclaim_capacity_for_admission d)
      → new_id ≢ id
      → Dict.lookup id d ≡ none
      → Dict.lookup id (create_or_refuse now owner new_id key message o d).0 ≡ none
  unfolding create_or_refuse admit
  create_or_refuse_absent now owner new_id key message id (some x) d made differ absent = absent
  create_or_refuse_absent now owner new_id key message id none d made differ absent =
      let d' = reclaim_capacity_for_admission d in
      let h = Reclaimed-absent id d d' made absent in
      elim (Bool-cases (leb max_task_registry_entries (length d'))) [
        | inl no_room ↦ rw no_room h
        | inr has_room ↦ rw has_room (rw (lookup-insert id new_id _ d', if_neg _ differ) h)
      ]

  create-Evolves :
      (swept : ℕ) (now : Now) (uuid : String) (owner : TaskOwner) (prefix key message id : String)
      (e : TaskEntry V) (r : TaskRegistry V)
      → IsValid r
      → Dict.lookup (next_task_id prefix uuid) r.entries ≡ none
      → Dict.lookup id r.entries ≡ some e
      → Evolves e
          (Dict.lookup id (create_keyed swept now uuid owner prefix key message r).0.entries)
  unfolding create_keyed
  create-Evolves swept now uuid owner prefix key message id e r v fresh found =
      elim (pruned_or_gone swept id e r.entries v.nodup found) [
        | inl at ↦
            create_or_refuse-Evolves now owner new_id key message id e (find_running_key key pruned)
              pruned made differ at
        | inr (gone, settled) ↦ inr (
          create_or_refuse_absent now owner new_id key message id (find_running_key key pruned)
              pruned made differ gone,
          settled,
        )
      ]
    where
      new_id : String
      new_id = next_task_id prefix uuid

      pruned : Dict String (TaskEntry V)
      pruned = prune_terminal_tasks swept r.entries

      made : Reclaimed pruned (reclaim_capacity_for_admission pruned)
      made =
          let w = prune-IsValid true swept r.entries r.fired v in
          reclaim-Reclaimed pruned w.nodup w.bounded

      differ : new_id ≢ id
      differ p = cc (ap (λ k. Dict.lookup k r.entries) p)

  -- A task that is in the registry keeps its owner, its key and its creation time through every
  -- call, keeps its whole state once it has settled, and is forgotten only if it had settled.
  -- Ids that `create_keyed` draws must be new, and sweeps timely.
  pub step-Evolves :
      (c : Call V) (r : TaskRegistry V) (id : String) (e : TaskEntry V)
      → IsValid r
      → IsFresh c r
      → IsTimely c
      → Dict.lookup id r.entries ≡ some e
      → Evolves e (Dict.lookup id (step c r).entries)
  unfolding step
  step-Evolves (create swept now uuid owner prefix key message) r id e v fresh h found =
      create-Evolves swept now uuid owner prefix key message id e r v fresh found
  step-Evolves (complete swept now i x) r id e v fresh h found =
      Touch-Evolves now.instant swept id e r _ (Steps.complete-Touch swept now i r x) v.nodup h
        found
  step-Evolves (complete_with_token swept now i x t message) r id e v fresh h found =
      Touch-Evolves now.instant swept id e r _
        (Steps.complete_with_cancel_token-Touch swept now i r x t message) v.nodup h found
  step-Evolves (complete_or_defer swept now i x t) r id e v fresh h found =
      Touch-Evolves now.instant swept id e r _
        (Steps.complete_or_defer_cancellation-Touch swept now i r x t) v.nodup h found
  step-Evolves (fail swept now i error) r id e v fresh h found =
      Touch-Evolves now.instant swept id e r _ (Steps.fail-Touch swept now i r error) v.nodup h
        found
  step-Evolves (fail_after_cleanup swept now i error) r id e v fresh h found =
      Touch-Evolves now.instant swept id e r _
        (Steps.fail_after_cleanup_error-Touch swept now i r error) v.nodup h found
  step-Evolves (finish_cancelled swept now i message) r id e v fresh h found =
      Touch-Evolves now.instant swept id e r _ (Steps.finish_cancelled-Touch swept now i r message)
        v.nodup h found
  step-Evolves (cancel_for_owner swept now owner i) r id e v fresh h found =
      Touch-Evolves swept swept id e r _ (Steps.cancel_for_owner-Touch swept now i r swept owner)
        v.nodup (omega arith) found
  step-Evolves (cancel_all swept nows message) r id e v fresh h found =
      cancel_all-Evolves swept nows message id e r v.nodup found
  step-Evolves (set_token i t) r id e v fresh h found =
      Touch-Evolves 0 0 id e r _
        (Steps.set_cancel_token-Touch 0 (record { instant = 0; unix_secs = 0 }) i r t) v.nodup
        (omega arith) found
  step-Evolves (update now i message) r id e v fresh h found =
      Touch-Evolves now.instant 0 id e r _ (Steps.update_message-Touch 0 now i r message) v.nodup
        (omega arith) found
  step-Evolves (get swept i) r id e v fresh h found =
      Touch-Evolves swept swept id e r _ (Steps.get-Touch swept swept i r) v.nodup (omega arith)
        found
  step-Evolves (get_for_owner swept owner i) r id e v fresh h found =
      Touch-Evolves swept swept id e r _ (Steps.get_for_owner-Touch swept swept owner i r) v.nodup
        (omega arith) found
  step-Evolves (outside t) r id e v fresh h found = inl (e, found, Continues-refl e)

-- ===== src/Tasks/Calls/CancelAll.antt =====
-- `cancel_all_running` asks every entry, and so each of them takes one step.
use ida_rs_cli.Base.{
  ℕ, suc, Bool, String, none, some, [], ◌∷◌, ltb, ◌≡◌, refl, sym, arith, string_eq, length,
  Option-cases, inl, inr, if_pos, if_neg, ap,
}
use ida_rs_cli.Base.Dict
use ida_rs_cli.Base.Dict.{Dict}
use ida_rs_cli.Base.Dict.Laws.{NodupKeys}
use ida_rs_cli.Tasks.{Now, TaskEntry, TaskRegistry, is_running}
use ida_rs_cli.Tasks.Entry
use ida_rs_cli.Tasks.Entry.Laws.{
  Fires, EntryStep, EntryIsValid, EntryIsValid-Fires, request_cancel-Keeps, request_cancel-Fires,
}
use ida_rs_cli.Tasks.Registry
use ida_rs_cli.Tasks.Registry.{cancel_each}
use ida_rs_cli.Tasks.Calls.Invariant.{
  IsValid, All-Fires, ComesFrom, ComesFrom-UniqueKeys, prune-IsValid,
}

same_status :
    {V : Type 0} (now : Now) (message : String) (e : TaskEntry V) (fired : ℕ → Bool)
    → is_running e.state.status
      ≡ is_running (Entry.request_cancel now message e fired).entry.state.status
unfolding Entry.request_cancel
same_status now message e fired = ground arith

module _ {V : Type 0} (nows : String → Now) (message : String) where
  abbrev pub after : Dict String (TaskEntry V) → (ℕ → Bool) → Dict String (TaskEntry V)
  after d fired = (cancel_each nows message d fired).entries

  abbrev fired_after : Dict String (TaskEntry V) → (ℕ → Bool) → ℕ → Bool
  fired_after d fired = (cancel_each nows message d fired).fired

  length-after :
      (d : Dict String (TaskEntry V)) (fired : ℕ → Bool) → length (after d fired) ≡ length d
  unfolding cancel_each
  length-after [] fired = refl
  length-after ((k, e) ∷ d) fired =
      ap suc (length-after d (Entry.request_cancel (nows k) message e fired).fired)

  lookup-after-none :
      (id : String) (d : Dict String (TaskEntry V)) (fired : ℕ → Bool)
      → Dict.lookup id d ≡ none
      → Dict.lookup id (after d fired) ≡ none
  unfolding cancel_each Dict.lookup
  lookup-after-none id [] fired h = refl
  lookup-after-none id ((k, e) ∷ d) fired h =
      ground (arith, lookup-after-none id d (Entry.request_cancel (nows k) message e fired).fired)

  -- Each entry steps.
  pub lookup-after :
      (at : ℕ) (id : String) (e : TaskEntry V) (d : Dict String (TaskEntry V)) (fired : ℕ → Bool)
      → Dict.lookup id d ≡ some e
      → (e' : TaskEntry V) × (Dict.lookup id (after d fired) ≡ some e')
        × EntryStep at e e'
        × (is_running e.state.status ≡ is_running e'.state.status)
  unfolding cancel_each Dict.lookup
  lookup-after at id e [] fired h = cc
  lookup-after at id e ((k, x) ∷ d) fired h = elim (string_eq.dec k id) [
    | yes p ↦
        let c = Entry.request_cancel (nows k) message x fired in
        let here : x ≡ e = some_injective (rw (if_pos _ p) at h) in
        (
          c.entry,
          rw (if_pos _ p),
          subst2 (sym here) (request_cancel-Keeps (nows k) fired x at message).0,
          rw (← here) (same_status (nows k) message x fired),
        )
    | no p ↦
        let (e', found, step, status) =
          lookup-after at id e d (Entry.request_cancel (nows k) message x fired).fired
            (rw (if_neg _ p) at h) in
        (e', rw (if_neg _ p) found, step, status)
  ]
    where
      some_injective : some x ≡ some e → x ≡ e
      some_injective q = cc

      subst2 : {e' : TaskEntry V} → e ≡ x → EntryStep at x e' → EntryStep at e e'
      subst2 p s = rw p s

  pub after-NodupKeys :
      (d : Dict String (TaskEntry V)) (fired : ℕ → Bool) → NodupKeys d → NodupKeys (after d fired)
  unfolding cancel_each
  after-NodupKeys [] fired u = tt
  after-NodupKeys ((k, e) ∷ d) fired u =
      let fired' = (Entry.request_cancel (nows k) message e fired).fired in
      (lookup-after-none k d fired' u.0, after-NodupKeys d fired' u.1)

  after-Fires :
      (d : Dict String (TaskEntry V)) (fired : ℕ → Bool) → Fires fired (fired_after d fired)
  unfolding cancel_each
  after-Fires [] fired t h = h
  after-Fires ((k, e) ∷ d) fired t h =
      after-Fires d (Entry.request_cancel (nows k) message e fired).fired t
        (request_cancel-Fires (nows k) fired e message t h)

  after-All :
      (d : Dict String (TaskEntry V)) (fired : ℕ → Bool)
      → Dict.All (EntryIsValid fired) d
      → Dict.All (EntryIsValid (fired_after d fired)) (after d fired)
  unfolding cancel_each
  after-All [] fired h = tt
  after-All ((k, e) ∷ d) fired h =
      let c = Entry.request_cancel (nows k) message e fired in
      (
        EntryIsValid-Fires c.fired _ k c.entry (after-Fires d c.fired)
            ((request_cancel-Keeps (nows k) fired e 0 message).1 k h.0),
        after-All d c.fired
            (All-Fires fired c.fired d (request_cancel-Fires (nows k) fired e message) h.1),
      )

  after-ComesFrom : (d : Dict String (TaskEntry V)) (fired : ℕ → Bool) → ComesFrom d (after d fired)
  after-ComesFrom d fired i e' found = elim (Option-cases (Dict.lookup i d)) [
    | inl h ↦ absurd (cc (lookup-after-none i d fired h))
    | inr (e, h) ↦
        let (x, found_x, step, status) = lookup-after 0 i e d fired h in
        let same : x ≡ e' = some_injective x (cc) in
        (e, h, rw (← same) step.same_key, λ runs. ground arith)
  ]
    where
      some_injective : (x : TaskEntry V) → some x ≡ some e' → x ≡ e'
      some_injective x q = cc

  pub cancel_all_running-IsValid :
      (swept : ℕ) (r : TaskRegistry V)
      → IsValid r
      → IsValid (Registry.cancel_all_running swept nows message r).0
  unfolding Registry.cancel_all_running
  cancel_all_running-IsValid swept r v =
      let c = cancel_each nows message r.entries r.fired in
      prune-IsValid (ltb 0 c.count) swept (after r.entries r.fired) (fired_after r.entries r.fired)
        (record {
          nodup = after-NodupKeys r.entries r.fired v.nodup;
          bounded = omega (arith, length-after r.entries r.fired, v.bounded);
          each = after-All r.entries r.fired v.each;
          unique =
              ComesFrom-UniqueKeys r.entries (after r.entries r.fired)
                (after-ComesFrom r.entries r.fired) v.unique;
        })

-- ===== src/Tasks/Calls/Evolution.antt =====
-- What becomes of one task in a call: it steps, or it had settled and is forgotten.
use ida_rs_cli.Base.{
  ℕ, ◌+◌, ◌<◌, Bool, true, false, String, Option, none, some, ◌≡◌, refl, sym, ap, ◌∙◌, arith,
  string_eq, Bool-cases, inl, inr, ◌⊎◌,
}
use ida_rs_cli.Base.Dict
use ida_rs_cli.Base.Dict.{Dict}
use ida_rs_cli.Base.Dict.Laws.{NodupKeys, lookup-insert, insert-NodupKeys}
use ida_rs_cli.Tasks.{TaskEntry, TaskRegistry, is_running, task_retention_ttl_ms}
use ida_rs_cli.Tasks.Entry.Laws.{EntryStep}
use ida_rs_cli.Tasks.Retention.{is_kept, prune_terminal_tasks}
use ida_rs_cli.Tasks.Calls.Touch.{Touch, idle, wrote, swept_if}
use ida_rs_cli.Tasks.Calls.Invariant.{prune-lookup}

module _ {V : Type 0} where
  -- Ownership, key and age stay, and a settled task keeps its whole state.
  pub record Continues (e e' : TaskEntry V) : Type 0 where
    pub same_owner : e'.owner ≡ e.owner
    pub same_key : e'.state.key ≡ e.state.key
    pub same_birth : e'.state.created_at ≡ e.state.created_at
    pub final : is_running e.state.status ≡ false → e'.state ≡ e.state

  abbrev pub Evolves : TaskEntry V → Option (TaskEntry V) → Type 0
  Evolves e o =
      ((e' : TaskEntry V) × (o ≡ some e') × Continues e e')
      ⊎ ((o ≡ none) × (is_running e.state.status ≡ false))

  pub Continues-refl : (e : TaskEntry V) → Continues e e
  Continues-refl e = ground arith

  pub EntryStep-Continues : (now : ℕ) (e e' : TaskEntry V) → EntryStep now e e' → Continues e e'
  EntryStep-Continues now e e' s = ground arith

  -- A sweep forgets a task that has just stepped only if it had settled before.
  pub swept-Evolves :
      (b : Bool) (now swept : ℕ) (id : String) (e e' : TaskEntry V) (d : Dict String (TaskEntry V))
      → NodupKeys d
      → swept < now + task_retention_ttl_ms
      → Dict.lookup id d ≡ some e'
      → EntryStep now e e'
      → Evolves e (Dict.lookup id (swept_if b swept d))
  swept-Evolves false now swept id e e' d u h found s =
      inl (e', found, EntryStep-Continues now e e' s)
  swept-Evolves true now swept id e e' d u h found s =
      rw (prune-lookup swept id d u, found)
        (elim (Bool-cases (is_kept swept e')) [
          | inl kept ↦ rw kept (inl (e', refl, EntryStep-Continues now e e' s))
          | inr dropped ↦ rw dropped (inr (refl, had_settled dropped))
        ])
    where
      had_settled : is_kept swept e' ≡ false → is_running e.state.status ≡ false
      had_settled dropped = ground (arith, s.stamped)

  -- A sweep with no step before it needs no bound on the clock.
  pub pruned_or_gone :
      (swept : ℕ) (id : String) (e : TaskEntry V) (d : Dict String (TaskEntry V))
      → NodupKeys d
      → Dict.lookup id d ≡ some e
      → (Dict.lookup id (prune_terminal_tasks swept d) ≡ some e)
        ⊎ ((Dict.lookup id (prune_terminal_tasks swept d) ≡ none)
            × (is_running e.state.status ≡ false))
  pruned_or_gone swept id e d u found =
      rw (prune-lookup swept id d u, found)
        (elim (Bool-cases (is_kept swept e)) [
          | inl kept ↦ rw kept (inl refl)
          | inr dropped ↦ rw dropped (inr (refl, settled dropped))
        ])
    where
      settled : is_kept swept e ≡ false → is_running e.state.status ≡ false
      settled dropped = ground arith

  pruned-Evolves :
      (b : Bool) (swept : ℕ) (id : String) (e : TaskEntry V) (d : Dict String (TaskEntry V))
      → NodupKeys d
      → Dict.lookup id d ≡ some e
      → Evolves e (Dict.lookup id (swept_if b swept d))
  pruned-Evolves false swept id e d u found = inl (e, found, Continues-refl e)
  pruned-Evolves true swept id e d u found = elim (pruned_or_gone swept id e d u found) [
    | inl at ↦ inl (e, at, Continues-refl e)
    | inr gone ↦ inr gone
  ]

  pub Touch-Evolves :
      (now swept : ℕ) (id : String) (e : TaskEntry V) (r r' : TaskRegistry V)
      → Touch now swept r r'
      → NodupKeys r.entries
      → swept < now + task_retention_ttl_ms
      → Dict.lookup id r.entries ≡ some e
      → Evolves e (Dict.lookup id r'.entries)
  Touch-Evolves now swept id e r r' (idle b m q) u h found =
      rw q (pruned-Evolves b swept id e r.entries u found)
  Touch-Evolves now swept id e r r' (wrote b j x x' m at keeps q) u h found =
      rw q (elim (string_eq.dec j id) [
        | yes p ↦
            swept-Evolves b now swept id e x' (Dict.insert j x' r.entries)
              (insert-NodupKeys j x' r.entries u) h
              (ground (arith, lookup-insert id j x' r.entries)) (same_entry p)
        | no p ↦
            pruned-Evolves b swept id e (Dict.insert j x' r.entries)
              (insert-NodupKeys j x' r.entries u) (ground (arith, lookup-insert id j x' r.entries))
      ])
    where
      same_entry : j ≡ id → EntryStep now e x'
      same_entry p =
          let here : x ≡ e =
            some_injective (sym at ∙ ap (λ k. Dict.lookup k r.entries) p ∙ found) in
          rw (← here) keeps.0
        where
          some_injective : some x ≡ some e → x ≡ e
          some_injective q = cc

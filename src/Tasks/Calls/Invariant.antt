-- ===== src/Tasks/Calls/Invariant.antt =====
-- The registry's invariant, and that a call on one task keeps it.
use ida_rs_cli.Base.{
  ℕ, ◌≤◌, Bool, true, false, String, Option, none, some, [], ◌∷◌, ◌≡◌, refl, arith, string_eq,
  length, sym, subst,
}
use ida_rs_cli.Base.Dict
use ida_rs_cli.Base.Dict.{Dict}
use ida_rs_cli.Base.Dict.Laws.{
  NodupKeys, keep_if, lookup-insert, lookup-retain, insert-NodupKeys, retain-NodupKeys, retain-All,
  All-insert, All-lookup, length-retain-le, length-insert_old,
}
use ida_rs_cli.Tasks.{TaskEntry, TaskRegistry, is_running, max_task_registry_entries}
use ida_rs_cli.Tasks.Retention.{prune_terminal_tasks, is_kept}
use ida_rs_cli.Tasks.Entry.Laws.{Fires, EntryIsValid, EntryIsValid-Fires, EntryStep}
use ida_rs_cli.Tasks.Calls.Touch.{Touch, idle, wrote, swept_if}

module _ {V : Type 0} where
  -- No two running tasks have one deduplication key.
  abbrev pub UniqueKeys : Dict String (TaskEntry V) → Type 0
  UniqueKeys d =
      (k i j : String) (e f : TaskEntry V)
      → Dict.lookup i d ≡ some e
      → Dict.lookup j d ≡ some f
      → is_running e.state.status ≡ true
      → is_running f.state.status ≡ true
      → e.state.key ≡ some k
      → f.state.key ≡ some k
      → i ≡ j

  pub record IsValid (r : TaskRegistry V) : Type 0 where
    pub nodup : NodupKeys r.entries
    pub bounded : length r.entries ≤ max_task_registry_entries
    pub each : Dict.All (EntryIsValid r.fired) r.entries
    pub unique : UniqueKeys r.entries

  -- Every entry of `d'` was in `d` under its id, with its key, and ran if it runs.
  abbrev pub ComesFrom : Dict String (TaskEntry V) → Dict String (TaskEntry V) → Type 0
  ComesFrom d d' =
      (i : String) (e' : TaskEntry V)
      → Dict.lookup i d' ≡ some e'
      → (e : TaskEntry V) × (Dict.lookup i d ≡ some e)
        × (e'.state.key ≡ e.state.key)
        × (is_running e'.state.status ≡ true → is_running e.state.status ≡ true)

  pub ComesFrom-UniqueKeys :
      (d d' : Dict String (TaskEntry V)) → ComesFrom d d' → UniqueKeys d → UniqueKeys d'
  ComesFrom-UniqueKeys d d' from u k i j e f found_e found_f runs_e runs_f key_e key_f =
      let (a, found_a, key_a, runs_a) = from i e found_e in
      let (b, found_b, key_b, runs_b) = from j f found_f in
      u k i j a b found_a found_b (runs_a runs_e) (runs_b runs_f) (cc) (cc)

  pub prune-lookup :
      (swept : ℕ) (id : String) (d : Dict String (TaskEntry V))
      → NodupKeys d
      → Dict.lookup id (prune_terminal_tasks swept d)
        ≡ keep_if (λ _ e. is_kept swept e) id (Dict.lookup id d)
  unfolding prune_terminal_tasks
  prune-lookup swept id d u = lookup-retain id _ d u

  keep_if-eq-some :
      (p : String → TaskEntry V → Bool) (id : String) (o : Option (TaskEntry V)) (e : TaskEntry V)
      → keep_if p id o ≡ some e
      → o ≡ some e
  keep_if-eq-some p id none e h = h
  keep_if-eq-some p id (some x) e h = ground arith

  pub prune-ComesFrom :
      (swept : ℕ) (d : Dict String (TaskEntry V))
      → NodupKeys d
      → ComesFrom d (prune_terminal_tasks swept d)
  prune-ComesFrom swept d u i e' found = (
    e',
    keep_if-eq-some (λ _ e. is_kept swept e) i (Dict.lookup i d) e'
        (rw (prune-lookup swept i d u) at found),
    refl,
    λ h. h,
  )

  insert-ComesFrom :
      (now : ℕ) (id : String) (e e' : TaskEntry V) (d : Dict String (TaskEntry V))
      → Dict.lookup id d ≡ some e
      → EntryStep now e e'
      → ComesFrom d (Dict.insert id e' d)
  insert-ComesFrom now id e e' d found s i f h = elim (string_eq.dec id i) [
    | yes same ↦ (
      e,
      rw (← same) found,
      ground (arith, lookup-insert i id e' d, s.same_key),
      λ runs. ground (arith, lookup-insert i id e' d, s.final),
    )
    | no differ ↦ (f, ground (arith, lookup-insert i id e' d), refl, λ runs. runs)
  ]

  pub All-Fires :
      (fired fired' : ℕ → Bool) (d : Dict String (TaskEntry V))
      → Fires fired fired'
      → Dict.All (EntryIsValid fired) d
      → Dict.All (EntryIsValid fired') d
  All-Fires fired fired' [] m h = tt
  All-Fires fired fired' ((k, e) ∷ d) m h =
      (EntryIsValid-Fires fired fired' k e m h.0, All-Fires fired fired' d m h.1)

  pub prune-IsValid :
      (b : Bool) (swept : ℕ) (d : Dict String (TaskEntry V)) (fired : ℕ → Bool)
      → IsValid (record { entries = d; fired = fired })
      → IsValid (record { entries = swept_if b swept d; fired = fired })
  unfolding prune_terminal_tasks
  prune-IsValid false swept d fired v = v
  prune-IsValid true swept d fired v = record {
    nodup = retain-NodupKeys _ d v.nodup;
    bounded = omega (arith, length-retain-le (λ _ e. is_kept swept e) d, v.bounded);
    each = retain-All (EntryIsValid fired) _ d v.each;
    unique =
        ComesFrom-UniqueKeys d (prune_terminal_tasks swept d) (prune-ComesFrom swept d v.nodup)
          v.unique;
  }

  insert-IsValid :
      (now : ℕ) (id : String) (e e' : TaskEntry V) (d : Dict String (TaskEntry V))
      (fired fired' : ℕ → Bool)
      → IsValid (record { entries = d; fired = fired })
      → Fires fired fired'
      → Dict.lookup id d ≡ some e
      → EntryStep now e e'
      → EntryIsValid fired' id e'
      → IsValid (record { entries = Dict.insert id e' d; fired = fired' })
  insert-IsValid now id e e' d fired fired' v m found s ok = record {
    nodup = insert-NodupKeys id e' d v.nodup;
    bounded = omega (arith, length-insert_old id e' e d found, v.bounded);
    each = All-insert (EntryIsValid fired') id e' d (All-Fires fired fired' d m v.each) ok;
    unique =
        ComesFrom-UniqueKeys d (Dict.insert id e' d) (insert-ComesFrom now id e e' d found s)
          v.unique;
  }

  pub Fires-IsValid :
      (d : Dict String (TaskEntry V)) (fired fired' : ℕ → Bool)
      → Fires fired fired'
      → IsValid (record { entries = d; fired = fired })
      → IsValid (record { entries = d; fired = fired' })
  Fires-IsValid d fired fired' m v = record {
    nodup = v.nodup;
    bounded = v.bounded;
    each = All-Fires fired fired' d m v.each;
    unique = v.unique;
  }

  pub Touch-IsValid :
      (now swept : ℕ) (r r' : TaskRegistry V) → Touch now swept r r' → IsValid r → IsValid r'
  Touch-IsValid now swept r r' (idle b m q) v =
      subst (λ d. IsValid (record { entries = d; fired = r'.fired })) (sym q)
        (prune-IsValid b swept r.entries r'.fired (Fires-IsValid r.entries r.fired r'.fired m v))
  Touch-IsValid now swept r r' (wrote b id e e' m found keeps q) v =
      subst (λ d. IsValid (record { entries = d; fired = r'.fired })) (sym q)
        (prune-IsValid b swept (Dict.insert id e' r.entries) r'.fired (
          insert-IsValid now id e e' r.entries r.fired r'.fired v m found keeps.0
            (keeps.1 id (All-lookup (EntryIsValid r.fired) id r.entries v.each found))))

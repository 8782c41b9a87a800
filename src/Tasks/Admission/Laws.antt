-- ===== src/Tasks/Admission/Laws.antt =====
-- Admission keeps the registry's invariant.
use ida_rs_cli.Base.{
  ℕ, Bool, true, String, Option, none, some, [], ◌∷◌, ◌≡◌, refl, sym, subst, arith, string_eq,
  length, Bool-cases, inl, inr, leb, if_pos, if_neg,
}
use ida_rs_cli.Base.Dict
use ida_rs_cli.Base.Dict.{Dict}
use ida_rs_cli.Base.Dict.Laws.{
  lookup-insert, lookup-remove, insert-NodupKeys, remove-NodupKeys, All-insert, All-remove,
  length-insert-le, length-remove-le,
}
use ida_rs_cli.Tasks.{
  Now, TaskOwner, TaskEntry, TaskRegistry, is_running, max_task_registry_entries,
}
use ida_rs_cli.Tasks.Entry
use ida_rs_cli.Tasks.Entry.Laws.{EntryIsValid}
use ida_rs_cli.Tasks.Retention.{prune_terminal_tasks, reclaim_capacity_for_admission}
use ida_rs_cli.Tasks.Retention.Laws.{Reclaimed, room, full, oldest, reclaim-Reclaimed}
use ida_rs_cli.Tasks.Admission.{
  find_running_key, key_matches, initial_state, admit, create_or_refuse, create_keyed, next_task_id,
}
use ida_rs_cli.Tasks.Calls.Invariant.{
  UniqueKeys, IsValid, ComesFrom, ComesFrom-UniqueKeys, prune-IsValid,
}

matches_self : (key : String) (o : Option String) → o ≡ some key → key_matches key o ≡ true
matches_self key none h = cc
matches_self key (some k) h = ground arith

module _ {V : Type 0} where
  -- No running task has the key.
  abbrev pub NoneRuns : String → Dict String (TaskEntry V) → Type 0
  NoneRuns key d =
      (id : String) (e : TaskEntry V)
      → Dict.lookup id d ≡ some e
      → is_running e.state.status ≡ true
      → e.state.key ≡ some key
      → ⊥

  pub find_running_key-none :
      (key : String) (d : Dict String (TaskEntry V))
      → find_running_key key d ≡ none
      → NoneRuns key d
  unfolding find_running_key Dict.lookup
  find_running_key-none key [] h id e found runs same = cc
  find_running_key-none key ((k, x) ∷ d) h id e found runs same = elim (string_eq.dec k id) [
    | yes p ↦
        let here : x ≡ e = some_injective (rw (if_pos _ p) at found) in
        absurd (ground (arith, matches_self key e.state.key same, here))
    | no p ↦ find_running_key-none key d (ground arith) id e (rw (if_neg _ p) at found) runs same
  ]
    where
      some_injective : some x ≡ some e → x ≡ e
      some_injective q = cc

  pub reclaim-ComesFrom : (d d' : Dict String (TaskEntry V)) → Reclaimed d d' → ComesFrom d d'
  reclaim-ComesFrom d d' (room h q) i e found = (e, rw q at found, refl, λ h. h)
  reclaim-ComesFrom d d' (full n h q) i e found = (e, rw q at found, refl, λ h. h)
  reclaim-ComesFrom d d' (oldest t id n s min q) i e found =
      (e, ground (arith, lookup-remove i id d), refl, λ h. h)

  reclaim-IsValid :
      (d d' : Dict String (TaskEntry V)) (fired : ℕ → Bool)
      → Reclaimed d d'
      → IsValid (record { entries = d; fired = fired })
      → IsValid (record { entries = d'; fired = fired })
  reclaim-IsValid d d' fired (room h q) v =
      subst (λ x. IsValid (record { entries = x; fired = fired })) (sym q) v
  reclaim-IsValid d d' fired (full n h q) v =
      subst (λ x. IsValid (record { entries = x; fired = fired })) (sym q) v
  reclaim-IsValid d d' fired (oldest t id n s min q) v =
      subst (λ x. IsValid (record { entries = x; fired = fired })) (sym q)
        (record {
          nodup = remove-NodupKeys id d v.nodup;
          bounded = omega (arith, length-remove-le id d, v.bounded);
          each = All-remove (EntryIsValid fired) id d v.each;
          unique =
              ComesFrom-UniqueKeys d (Dict.remove id d)
                (reclaim-ComesFrom d (Dict.remove id d) (oldest t id n s min refl)) v.unique;
        })

  ComesFrom-NoneRuns :
      (key : String) (d d' : Dict String (TaskEntry V))
      → ComesFrom d d'
      → NoneRuns key d
      → NoneRuns key d'
  ComesFrom-NoneRuns key d d' from h id e found runs same =
      let (a, found_a, key_a, runs_a) = from id e found in h id a found_a (runs_a runs) (cc)

  insert-UniqueKeys :
      (id key : String) (e : TaskEntry V) (d : Dict String (TaskEntry V))
      → e.state.key ≡ some key
      → NoneRuns key d
      → UniqueKeys d
      → UniqueKeys (Dict.insert id e d)
  insert-UniqueKeys id key x d same h u k i j e f found_e found_f runs_e runs_f key_e key_f =
      elim (string_eq.dec id i) [
        | yes p ↦ elim (string_eq.dec id j) [
          | yes q ↦ cc
          | no q ↦ absurd (
              h j f (ground (arith, lookup-insert j id x d)) runs_f
                (ground (arith, lookup-insert i id x d)))
        ]
        | no p ↦ elim (string_eq.dec id j) [
          | yes q ↦ absurd (
              h i e (ground (arith, lookup-insert i id x d)) runs_e
                (ground (arith, lookup-insert j id x d)))
          | no q ↦
              u k i j e f (ground (arith, lookup-insert i id x d))
                (ground (arith, lookup-insert j id x d)) runs_e runs_f key_e key_f
        ]
      ]

  admit-IsValid :
      (now : Now) (owner : TaskOwner) (id key message : String) (d : Dict String (TaskEntry V))
      (fired : ℕ → Bool)
      → IsValid (record { entries = d; fired = fired })
      → NoneRuns key d
      → IsValid (record { entries = (admit now owner id key message d).0; fired = fired })
  unfolding admit Entry.new
  admit-IsValid now owner id key message d fired v h =
      let made = reclaim-Reclaimed d v.nodup v.bounded in
      let d' = reclaim_capacity_for_admission d in
      let w = reclaim-IsValid d d' fired made v in
      let e = Entry.new owner (initial_state now id key message) in
      elim (Bool-cases (leb max_task_registry_entries (length d'))) [
        | inl no_room ↦ rw no_room w
        | inr has_room ↦ rw has_room (record {
          nodup = insert-NodupKeys id e d' w.nodup;
          bounded = ground (arith, length-insert-le id e d');
          each = All-insert (EntryIsValid fired) id e d' w.each (ground arith);
          unique =
              insert-UniqueKeys id key e d' refl
                (ComesFrom-NoneRuns key d d' (reclaim-ComesFrom d d' made) h) w.unique;
        })
      ]

  pub create_keyed-IsValid :
      (swept : ℕ) (now : Now) (uuid : String) (owner : TaskOwner) (prefix key message : String)
      (r : TaskRegistry V)
      → IsValid r
      → IsValid (create_keyed swept now uuid owner prefix key message r).0
  unfolding create_keyed create_or_refuse
  create_keyed-IsValid swept now uuid owner prefix key message r v =
      let pruned = prune_terminal_tasks swept r.entries in
      let w = prune-IsValid true swept r.entries r.fired v in
      go pruned w (find_running_key key pruned) refl
    where
      go :
          (d : Dict String (TaskEntry V))
          → IsValid (record { entries = d; fired = r.fired })
          → (o : Option (TaskEntry V)) → find_running_key key d ≡ o
          → IsValid (record {
            entries = (create_or_refuse now owner (next_task_id prefix uuid) key message o d).0;
            fired = r.fired;
          })
      go d w none found =
          admit-IsValid now owner (next_task_id prefix uuid) key message d r.fired w
            (find_running_key-none key d found)
      go d w (some e) found = w

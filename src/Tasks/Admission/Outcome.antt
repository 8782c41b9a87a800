-- ===== src/Tasks/Admission/Outcome.antt =====
-- Every outcome that `create_keyed` can have.
use ida_rs_cli.Base.{
  ℕ, ◌≤◌, ◌&&◌, true, String, Option, none, some, [], ◌∷◌, ◌≡◌, ◌∙◌, refl, sym, ap, arith,
  string_eq, length, Bool-cases, inl, inr, leb, if_pos, if_neg,
}
use ida_rs_cli.Base.Dict
use ida_rs_cli.Base.Dict.{Dict}
use ida_rs_cli.Base.Dict.Laws.{NodupKeys, All-lookup, lookup-insert, length-remove_old}
use ida_rs_cli.Tasks.{
  Now, TaskOwner, TaskCreateError, Created, TaskEntry, TaskRegistry, is_running, is_session,
  owner_eq, max_task_registry_entries,
}
use ida_rs_cli.Tasks.Entry
use ida_rs_cli.Tasks.Entry.Laws.{EntryIsValid}
use ida_rs_cli.Tasks.Retention.{prune_terminal_tasks, reclaim_capacity_for_admission}
use ida_rs_cli.Tasks.Retention.Laws.{Reclaimed, room, full, oldest, reclaim-Reclaimed, AllRunning}
use ida_rs_cli.Tasks.Admission.{
  find_running_key, key_matches, initial_state, admit, create_or_refuse, create_keyed, next_task_id,
  refusal,
}
use ida_rs_cli.Tasks.Admission.Laws.{NoneRuns, find_running_key-none}
use ida_rs_cli.Tasks.Calls.Invariant.{IsValid, prune-IsValid}

matches-eq : (key : String) (o : Option String) → key_matches key o ≡ true → o ≡ some key
matches-eq key none h = cc
matches-eq key (some k) h = ground arith

module _ {V : Type 0} where
  -- A running task under the key.
  pub record Matching (key : String) (d : Dict String (TaskEntry V)) (e : TaskEntry V)
      : Type 0 where
    pub id : String
    pub at : Dict.lookup id d ≡ some e
    pub runs : is_running e.state.status ≡ true
    pub keyed : e.state.key ≡ some key

  find_running_key-some :
      (key : String) (d : Dict String (TaskEntry V)) (e : TaskEntry V)
      → NodupKeys d
      → find_running_key key d ≡ some e
      → Matching key d e
  unfolding find_running_key Dict.lookup
  find_running_key-some key [] e u h = absurd (cc)
  find_running_key-some key ((k, x) ∷ d) e u h =
      elim (Bool-cases (is_running x.state.status && key_matches key x.state.key)) [
        | inl hit ↦
            let here : x ≡ e = some_injective (rw hit at h) in
            record {
              id = k;
              at = rw (if_pos _ refl) (ap some here);
              runs = ground arith;
              keyed = rw (← here) (matches-eq key x.state.key (ground arith));
            }
        | inr miss ↦
            let m = find_running_key-some key d e u.1 (rw miss at h) in
            record {
              id = m.id;
              at = elim (string_eq.dec k m.id) [
                | yes p ↦ absurd (none-some (rw (← p) at (m.at)))
                | no p ↦ rw (if_neg _ p) m.at
              ];
              runs = m.runs;
              keyed = m.keyed;
            }
      ]
    where
      some_injective : some x ≡ some e → x ≡ e
      some_injective q = cc

      none-some : Dict.lookup k d ≡ some e → ⊥
      none-some q = cc

  -- What `create_keyed` answers, given the swept entries `d` and the entries `d'` that it leaves.
  pub data Outcome (now : Now) (owner : TaskOwner) (id key message : String)
      (d d' : Dict String (TaskEntry V)) (answer : Created) : Type 0 where
    refused :
        (e : TaskEntry V)
        → Matching key d e
        → d' ≡ d
        → answer ≡ Created.err (refusal owner e)
        → Outcome now owner id key message d d' answer
    saturated :
        NoneRuns key d
        → AllRunning d
        → length d ≡ max_task_registry_entries
        → d' ≡ d
        → answer ≡ Created.err (TaskCreateError.capacity_exceeded max_task_registry_entries)
        → Outcome now owner id key message d d' answer
    admitted :
        NoneRuns key d
        → Dict.lookup id d' ≡ some (Entry.new owner (initial_state now id key message))
        → answer ≡ Created.ok id
        → Outcome now owner id key message d d' answer

  abbrev OutcomeOf :
      Now
      → TaskOwner
      → String
      → String
      → String
      → Dict String (TaskEntry V)
      → Dict String (TaskEntry V) × Created
      → Type 0
  OutcomeOf now owner id key message d (d', answer) = Outcome now owner id key message d d' answer

  admit-Outcome :
      (now : Now) (owner : TaskOwner) (id key message : String) (d : Dict String (TaskEntry V))
      → NodupKeys d
      → length d ≤ max_task_registry_entries
      → NoneRuns key d
      → OutcomeOf now owner id key message d (admit now owner id key message d)
  unfolding admit
  admit-Outcome now owner id key message d u h none_runs =
      let d' = reclaim_capacity_for_admission d in
      elim (Bool-cases (leb max_task_registry_entries (length d'))) [
        | inl no_room ↦ rw no_room (no_room_Outcome d' (reclaim-Reclaimed d u h) (ground arith))
        | inr has_room ↦
            rw has_room (admitted none_runs (rw (lookup-insert id id _ d', if_pos _ refl)) refl)
      ]
    where
      no_room_Outcome :
          (d' : Dict String (TaskEntry V))
          → Reclaimed d d'
          → max_task_registry_entries ≤ length d'
          → Outcome now owner id key message d d'
              (Created.err (TaskCreateError.capacity_exceeded max_task_registry_entries))
      no_room_Outcome d' (room lt q) le = absurd (omega (arith, ap length q))
      no_room_Outcome d' (full n all q) le =
          saturated none_runs all (omega (arith, ap length q)) q refl
      no_room_Outcome d' (oldest t j n (e, at, settled, when) min q) le =
          absurd (omega (arith, ap length q, length-remove_old j e d at))

  -- `create_keyed` refuses work that a running task has under way and changes nothing but the
  -- sweep; else it reports that capacity is exceeded, which it does only when all 256 entries run;
  -- else it registers a running task with the message, the key and the owner given.
  pub create_keyed-Outcome :
      (swept : ℕ) (now : Now) (uuid : String) (owner : TaskOwner) (prefix key message : String)
      (r : TaskRegistry V)
      → IsValid r
      → let (r', answer) = create_keyed swept now uuid owner prefix key message r in
        Outcome now owner
          (next_task_id prefix uuid)
          key
          message
          (prune_terminal_tasks swept r.entries)
          r'.entries
          answer
  unfolding create_keyed create_or_refuse
  create_keyed-Outcome swept now uuid owner prefix key message r v =
      let w = prune-IsValid true swept r.entries r.fired v in
      go (prune_terminal_tasks swept r.entries) w.nodup w.bounded
        (find_running_key key (prune_terminal_tasks swept r.entries)) refl
    where
      go :
          (d : Dict String (TaskEntry V))
          → NodupKeys d
          → length d ≤ max_task_registry_entries
          → (o : Option (TaskEntry V)) → find_running_key key d ≡ o
          → OutcomeOf now owner
              (next_task_id prefix uuid)
              key
              message
              d
              (create_or_refuse now owner (next_task_id prefix uuid) key message o d)
      go d u h none found =
          admit-Outcome now owner (next_task_id prefix uuid) key message d u h
            (find_running_key-none key d found)
      go d u h (some e) found = refused e (find_running_key-some key d e u found) refl refl

  -- An id is disclosed in a refusal only to the session that owns the running task with that id
  -- and the key asked for.
  pub create_keyed_private :
      (swept : ℕ) (now : Now) (uuid : String) (owner : TaskOwner) (prefix key message id : String)
      (r : TaskRegistry V)
      → IsValid r
      → (create_keyed swept now uuid owner prefix key message r).1
        ≡ Created.err (TaskCreateError.already_running id)
      → (e : TaskEntry V) × (Dict.lookup id (prune_terminal_tasks swept r.entries) ≡ some e)
        × (e.state.key ≡ some key)
        × (is_running e.state.status ≡ true)
        × (is_session owner ≡ true)
        × (owner_eq e.owner owner ≡ true)
  create_keyed_private swept now uuid owner prefix key message id r v h =
      go (create_keyed-Outcome swept now uuid owner prefix key message r v)
    where
      go :
          Outcome now owner
            (next_task_id prefix uuid)
            key
            message
            (prune_terminal_tasks swept r.entries)
            (create_keyed swept now uuid owner prefix key message r).0.entries
            (create_keyed swept now uuid owner prefix key message r).1
          → (e : TaskEntry V) × (Dict.lookup id (prune_terminal_tasks swept r.entries) ≡ some e)
            × (e.state.key ≡ some key)
            × (is_running e.state.status ≡ true)
            × (is_session owner ≡ true)
            × (owner_eq e.owner owner ≡ true)
      go (refused e m same answer) =
          let w = prune-IsValid true swept r.entries r.fired v in
          let named = (All-lookup (EntryIsValid r.fired) m.id _ w.each m.at).named in
          let told : e.state.id ≡ id = ground arith in
          (
            e,
            ap (λ k. Dict.lookup k (prune_terminal_tasks swept r.entries)) (sym told ∙ named)
                ∙ m.at,
            m.keyed,
            m.runs,
            ground arith,
            ground arith,
          )
      go (saturated none_runs all len same answer) = absurd (cc)
      go (admitted none_runs at answer) = absurd (cc)

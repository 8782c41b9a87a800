-- ===== src/Operations/Active.antt =====
-- The operation shown as active, and what is left of an operation that has finished.
use mathlib.Core.List.{reverse, reverse-cons}
use ida_rs_cli.Base.{
  ℕ, ◌≤◌, min, Bool, true, false, String, is_some, Option, none, some, List, [], ◌∷◌, nat_eq,
  string_eq, length, drop, length-append, length-drop, length-take, ◌≡◌, ◌≢◌, refl, sym, ap, arith,
  if_pos, if_neg,
}
use ida_rs_cli.Base.Dict
use ida_rs_cli.Base.Dict.{Dict}
use ida_rs_cli.Base.Dict.Laws.{lookup-insert, lookup-remove, All-insert, All-remove, All-lookup}
use ida_rs_cli.Operations.{
  Clocks, OperationStatus, OperationState, OperationEvent, OperationRegistry, push_event, new,
  started, start, progressed, record_progress, record_progress_found, finish, finish_found,
  recent_event_cap, cleared, snapshot, recent, clamped,
}
use ida_rs_cli.Operations.History.{Call, starts, progresses, finishes, step, run}

abbrev pub is_open : OperationStatus → Bool
is_open OperationStatus.queued = true
is_open OperationStatus.running = true
is_open _ = false

-- An operation that is listed is filed under its id and is queued or running.
pub record IsOpen (id : String) (s : OperationState) : Type 0 where
  pub named : s.op_id ≡ id
  pub opened : is_open s.status ≡ true

abbrev pub active_listed : Option String → Dict String OperationState → Bool
active_listed none d = true
active_listed (some id) d = is_some (Dict.lookup id d)

pub record IsValid (r : OperationRegistry) : Type 0 where
  pub listed : active_listed r.active_op_id r.current ≡ true
  pub each : Dict.All IsOpen r.current
  pub bounded : length r.events ≤ recent_event_cap

length-push_event-le :
    (e : OperationEvent) (events : List OperationEvent)
    → length events ≤ recent_event_cap
    → length (push_event e events) ≤ recent_event_cap
unfolding push_event
length-push_event-le e events h = ground (
  arith,
  length-append (drop 1 events) (e ∷ []),
  length-append events (e ∷ []),
  length-drop 1 events,
)

cleared-listed :
    (id : String) (o : Option String) (d : Dict String OperationState)
    → active_listed o d ≡ true
    → active_listed (cleared id o) (Dict.remove id d) ≡ true
cleared-listed id none d h = refl
cleared-listed id (some active) d h = elim (string_eq.dec active id) [
  | yes p ↦ rw (if_pos _ p) refl
  | no p ↦ rw (if_neg _ p) (rw (lookup-remove active id d, if_neg _ (λ q. p (sym q))) h)
]

found-IsOpen :
    (id : String) (s : OperationState) (r : OperationRegistry)
    → IsValid r
    → Dict.lookup id r.current ≡ some s
    → IsOpen id s
found-IsOpen id s r v found = All-lookup IsOpen id r.current v.each found

step-IsValid : (c : Call) (r : OperationRegistry) → IsValid r → IsValid (step c r)
unfolding step start record_progress finish
step-IsValid (starts clocks id tool target) r v = record {
  listed = rw (lookup-insert id id (started clocks id tool target) r.current, if_pos _ refl);
  each = All-insert IsOpen id _ r.current v.each (ground arith);
  bounded = length-push_event-le _ r.events v.bounded;
}
step-IsValid (progresses clocks id phase message) r v = go (Dict.lookup id r.current) refl
  where
    go :
        (o : Option OperationState)
        → Dict.lookup id r.current ≡ o
        → IsValid (record_progress_found clocks id phase message o r).0
    go none found = v
    go (some s) found = record {
      listed =
          rw (lookup-insert id id (progressed clocks phase message s) r.current, if_pos _ refl);
      each =
          let open_s = found-IsOpen id s r v found in
          All-insert IsOpen id _ r.current v.each (record { named = open_s.named; opened = refl });
      bounded = length-push_event-le _ r.events v.bounded;
    }
step-IsValid (finishes clocks id status message) r v = go (Dict.lookup id r.current)
  where
    go : (o : Option OperationState) → IsValid (finish_found clocks id status message o r).0
    go none = v
    go (some s) = record {
      listed = cleared-listed id r.active_op_id r.current v.listed;
      each = All-remove IsOpen id r.current v.each;
      bounded = length-push_event-le _ r.events v.bounded;
    }

run-IsValid : (cs : List Call) (r : OperationRegistry) → IsValid r → IsValid (run cs r)
unfolding run
run-IsValid [] r v = v
run-IsValid (c ∷ cs) r v = run-IsValid cs (step c r) (step-IsValid c r v)

-- After any calls the active operation is listed, what is listed is queued or running, and the
-- buffer holds at most 20 events.
pub run-new-IsValid : (cs : List Call) → IsValid (run cs new)
unfolding new
run-new-IsValid cs = run-IsValid cs new (record { listed = refl; each = tt; bounded = omega arith })

length-reverse {ℓ} : {A : Type ℓ} (xs : List A) → length (reverse xs) ≡ length xs
length-reverse [] = refl
length-reverse (x ∷ xs) =
    omega
      (arith, ap length (reverse-cons x xs), length-append (reverse xs) (x ∷ []), length-reverse xs)

-- `recent` shows an active operation exactly when one is set, and as many events as the limit,
-- brought between 1 and 50, lets through.
recent_lem :
    (now : ℕ) (limit : Option ℕ) (r : OperationRegistry)
    → IsValid r
    → (is_some (recent now limit r).active_operation ≡ is_some r.active_op_id)
      × (length (recent now limit r).recent_events ≡ min (clamped limit) (length r.events))
      × (length (recent now limit r).recent_events ≤ recent_event_cap)
unfolding recent
recent_lem now limit r v =
    let n = length-take (clamped limit) (reverse r.events) in
    let m = length-reverse r.events in
    (ground (arith, v.listed), omega (arith, n, m), omega (arith, n, m, v.bounded))

-- `finish` answers exactly for a known operation. Then the operation is unknown and not active: a
-- late report or a second `finish` is ignored, and changes nothing.
pub finish_final :
    (clocks later : Clocks) (id : String) (status again : OperationStatus)
    (message phase text : String) (r : OperationRegistry)
    → let (r', answer) = finish clocks id status message r in
      (is_some answer ≡ is_some (Dict.lookup id r.current))
      × (is_some answer ≡ true → r'.active_op_id ≢ some id)
      × (record_progress later id phase text r' ≡ (r', none))
      × (finish later id again text r' ≡ (r', none))
      × (snapshot later.snapshot_at id r' ≡ none)
unfolding finish record_progress snapshot
finish_final clocks later id status again message phase text r = go (Dict.lookup id r.current) refl
  where
    cleared-ne : (o : Option String) → cleared id o ≢ some id
    cleared-ne none h = cc
    cleared-ne (some a) h = ground arith

    go :
        (o : Option OperationState)
        → Dict.lookup id r.current ≡ o
        → let (r', answer) = finish_found clocks id status message o r in
          (is_some answer ≡ is_some o)
          × (is_some answer ≡ true → r'.active_op_id ≢ some id)
          × (record_progress later id phase text r' ≡ (r', none))
          × (finish later id again text r' ≡ (r', none))
          × (snapshot later.snapshot_at id r' ≡ none)
    go none found = (refl, λ h. cc, rw found, rw found, rw (found, snapshot))
    go (some s) found =
        let gone : Dict.lookup id (Dict.remove id r.current) ≡ none =
          rw (lookup-remove id id r.current, if_pos _ refl) in
        (refl, λ h. cleared-ne r.active_op_id, rw gone, rw gone, rw (gone, snapshot))

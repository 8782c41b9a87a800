-- ===== src/Operations.antt =====
-- src/server/operation.rs: the foreground operations and their recent events. The lock makes each
-- call one step. The clocks that a call reads are its argument.
pub mod History
pub mod Active
use mathlib.Core.List.{reverse}
use ida_rs_cli.Base.{
  ℕ, ◌-◌, ◌%◌, ◌^◌, min, max, Bool, true, false, String, Option, none, some, List, [], ◌∷◌, ◌++◌,
  if◌then◌else◌, ◌==◌, nat_eq, string_eq, length, take, drop,
}
use ida_rs_cli.Base.Dict
use ida_rs_cli.Base.Dict.{Dict}

abbrev pub recent_event_cap : ℕ
recent_event_cap = 20

abbrev pub max_recent_limit : ℕ
max_recent_limit = 50

pub data OperationStatus : Type 0 where
  queued running completed failed timed_out cancelled : OperationStatus

pub record OperationSnapshot : Type 0 where
  pub op_id : String
  pub tool : String
  pub target_summary : String
  pub phase : String
  pub status : OperationStatus
  pub message : String
  pub started_at_ms : ℕ
  pub last_update_ms : ℕ
  pub elapsed_ms : ℕ

pub record OperationEvent : Type 0 where
  pub op_id : String
  pub tool : String
  pub target_summary : String
  pub phase : String
  pub status : OperationStatus
  pub message : String
  pub timestamp_ms : ℕ
  pub elapsed_ms : ℕ

pub record RecentOperations : Type 0 where
  pub active_operation : Option OperationSnapshot
  pub recent_events : List OperationEvent

-- `started_at` is an `Instant`, in milliseconds.
pub record OperationState : Type 0 where
  pub op_id : String
  pub tool : String
  pub target_summary : String
  pub phase : String
  pub status : OperationStatus
  pub message : String
  pub started_at : ℕ
  pub started_at_ms : ℕ
  pub last_update_ms : ℕ

pub record OperationRegistry : Type 0 where
  pub active_op_id : Option String
  pub current : Dict String OperationState
  pub events : List OperationEvent

-- `now_ms` of the system clock, and the instants at which a call takes its snapshot and its event.
pub record Clocks : Type 0 where
  pub now_ms : ℕ
  pub snapshot_at : ℕ
  pub event_at : ℕ

-- `elapsed().as_millis() as u64`.
abbrev pub elapsed : ℕ → ℕ → ℕ
elapsed started_at now = (now - started_at) % 2 ^ 64

unfoldable pub snapshot_of : ℕ → OperationState → OperationSnapshot
snapshot_of now s = record {
  op_id = s.op_id;
  tool = s.tool;
  target_summary = s.target_summary;
  phase = s.phase;
  status = s.status;
  message = s.message;
  started_at_ms = s.started_at_ms;
  last_update_ms = s.last_update_ms;
  elapsed_ms = elapsed s.started_at now;
}

unfoldable pub event_of : ℕ → OperationState → OperationEvent
event_of now s = record {
  op_id = s.op_id;
  tool = s.tool;
  target_summary = s.target_summary;
  phase = s.phase;
  status = s.status;
  message = s.message;
  timestamp_ms = s.last_update_ms;
  elapsed_ms = elapsed s.started_at now;
}

unfoldable pub push_event : OperationEvent → List OperationEvent → List OperationEvent
push_event event events =
    (if length events == recent_event_cap then drop 1 events else events) ++ event ∷ []

unfoldable pub new : OperationRegistry
new = record { active_op_id = none; current = []; events = [] }

-- The state that `start` registers; its `Instant` is read where the event's is.
abbrev pub started : Clocks → String → String → String → OperationState
started clocks op_id tool target_summary = record {
  op_id = op_id;
  tool = tool;
  target_summary = target_summary;
  phase = "queued";
  status = OperationStatus.queued;
  message = "Queued for IDA worker execution";
  started_at = clocks.snapshot_at;
  started_at_ms = clocks.now_ms;
  last_update_ms = clocks.now_ms;
}

unfoldable pub start : Clocks → String → String → String → OperationRegistry → OperationRegistry
start clocks op_id tool target_summary r =
    let state = started clocks op_id tool target_summary in
    record {
      active_op_id = some op_id;
      current = Dict.insert op_id state r.current;
      events = push_event (event_of clocks.event_at state) r.events;
    }

abbrev pub progressed : Clocks → String → String → OperationState → OperationState
progressed clocks phase message s = record s {
  phase = phase;
  status = OperationStatus.running;
  message = message;
  last_update_ms = clocks.now_ms;
}

unfoldable pub record_progress_found :
    Clocks
    → String
    → String
    → String
    → Option OperationState
    → OperationRegistry
    → OperationRegistry × Option OperationSnapshot
record_progress_found clocks op_id phase message none r = (r, none)
record_progress_found clocks op_id phase message (some s) r =
    let state = progressed clocks phase message s in
    (
      record {
        active_op_id = some op_id;
        current = Dict.insert op_id state r.current;
        events = push_event (event_of clocks.event_at state) r.events;
      },
      some (snapshot_of clocks.snapshot_at state),
    )

unfoldable pub record_progress :
    Clocks
    → String
    → String
    → String
    → OperationRegistry
    → OperationRegistry × Option OperationSnapshot
unfolding record_progress_found
record_progress clocks op_id phase message r =
    record_progress_found clocks op_id phase message (Dict.lookup op_id r.current) r

unfoldable pub snapshot : ℕ → String → OperationRegistry → Option OperationSnapshot
snapshot now op_id r = elim (Dict.lookup op_id r.current) [
  | none ↦ none
  | some s ↦ some (snapshot_of now s)
]

-- The phase that `finish` gives to an operation that never left the queue.
abbrev pub phase_of : OperationStatus → String → String
phase_of OperationStatus.completed phase = "completed"
phase_of OperationStatus.failed phase = "failed"
phase_of OperationStatus.timed_out phase = "timed_out"
phase_of OperationStatus.cancelled phase = "cancelled"
phase_of _ phase = phase

abbrev pub finished : Clocks → OperationStatus → String → OperationState → OperationState
finished clocks status message s = record s {
  status = status;
  message = message;
  last_update_ms = clocks.now_ms;
  phase = if s.phase == "queued" then phase_of status s.phase else s.phase;
}

abbrev pub cleared : String → Option String → Option String
cleared op_id none = none
cleared op_id (some active) = if active == op_id then none else some active

unfoldable pub finish_found :
    Clocks
    → String
    → OperationStatus
    → String
    → Option OperationState
    → OperationRegistry
    → OperationRegistry × Option OperationSnapshot
finish_found clocks op_id status message none r = (r, none)
finish_found clocks op_id status message (some s) r =
    let state = finished clocks status message s in
    (
      record {
        active_op_id = cleared op_id r.active_op_id;
        current = Dict.remove op_id r.current;
        events = push_event (event_of clocks.event_at state) r.events;
      },
      some (snapshot_of clocks.snapshot_at state),
    )

-- `finish`, which `finish_completed`, `finish_failed`, `finish_timed_out` and `finish_cancelled`
-- call with their status.
unfoldable pub finish :
    Clocks
    → String
    → OperationStatus
    → String
    → OperationRegistry
    → OperationRegistry × Option OperationSnapshot
unfolding finish_found
finish clocks op_id status message r =
    finish_found clocks op_id status message (Dict.lookup op_id r.current) r

-- `limit.unwrap_or(RECENT_EVENT_CAP).clamp(1, MAX_RECENT_LIMIT)`.
abbrev pub clamped : Option ℕ → ℕ
clamped none = min (max recent_event_cap 1) max_recent_limit
clamped (some n) = min (max n 1) max_recent_limit

abbrev active_snapshot : ℕ → Option String → OperationRegistry → Option OperationSnapshot
active_snapshot now none r = none
active_snapshot now (some op_id) r = snapshot now op_id r

unfoldable pub recent : ℕ → Option ℕ → OperationRegistry → RecentOperations
unfolding snapshot
recent now limit r = record {
  active_operation = active_snapshot now r.active_op_id r;
  recent_events = take (clamped limit) (reverse r.events);
}

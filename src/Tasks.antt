-- ===== src/Tasks.antt =====
-- src/server/task.rs: the registry of background tasks. Its data; the children hold the methods.
--
-- `V` is serde_json's `Value`. An `Instant` is a number of milliseconds, and a `CancellationToken`
-- is a reference, `fired` telling which tokens have been cancelled. Each reading of the clocks is
-- an argument: `Now` at a transition, a bare instant where entries are swept.
pub mod Entry
pub mod Retention
pub mod Admission
pub mod Calls
pub mod Registry
use ida_rs_cli.Base.{
  ℕ, Bool, true, false, String, Option, List, ◌≡◌, ◌==◌, nat_eq, string_eq, if◌then◌else◌, ◌*◌,
}
use ida_rs_cli.Base.Dict.{Dict}

abbrev pub task_retention_ttl_ms : ℕ
task_retention_ttl_ms = 24 * 60 * 60 * 1000

abbrev pub max_task_registry_entries : ℕ
max_task_registry_entries = 256

pub data TaskOwner : Type 0 where
  session : String → TaskOwner
  runtime : TaskOwner

abbrev pub owner_eq : TaskOwner → TaskOwner → Bool
owner_eq (TaskOwner.session a) (TaskOwner.session b) = a == b
owner_eq TaskOwner.runtime TaskOwner.runtime = true
owner_eq _ _ = false

abbrev pub is_session : TaskOwner → Bool
is_session (TaskOwner.session a) = true
is_session TaskOwner.runtime = false

pub data TaskCreateError : Type 0 where
  already_running : String → TaskCreateError
  existing_task_id_is_private : TaskCreateError
  capacity_exceeded : ℕ → TaskCreateError

-- `Result<String, TaskCreateError>`.
pub data Created : Type 0 where
  ok : String → Created
  err : TaskCreateError → Created

pub data TaskStatus : Type 0 where
  running completed failed cancelled : TaskStatus

abbrev pub is_running : TaskStatus → Bool
is_running TaskStatus.running = true
is_running _ = false

pub data TaskSettlement : Type 0 where
  completed failed cancelled unchanged : TaskSettlement

abbrev pub is_unchanged : TaskSettlement → Bool
is_unchanged TaskSettlement.unchanged = true
is_unchanged _ = false

pub data TaskCompletionDecision : Type 0 where
  completed cancellation_pending unchanged : TaskCompletionDecision

-- `now_with_iso`: the monotonic clock, and the system clock in seconds since the epoch.
pub record Now : Type 0 where
  pub instant : ℕ
  pub unix_secs : ℕ

pub record TaskState (V : Type 0) : Type 0 where
  pub id : String
  pub status : TaskStatus
  pub message : String
  pub result : Option V
  pub created_at : ℕ
  pub updated_at : ℕ
  pub created_at_iso : List ℕ
  pub updated_at_iso : List ℕ
  pub key : Option String

pub record TaskEntry (V : Type 0) : Type 0 where
  pub owner : TaskOwner
  pub state : TaskState V
  pub cancel_token : Option ℕ
  pub cancel_requested : Option String

-- The registry, with the tokens that have been cancelled.
pub record TaskRegistry (V : Type 0) : Type 0 where
  pub entries : Dict String (TaskEntry V)
  pub fired : ℕ → Bool

-- `CancellationToken::cancel`.
unfoldable pub fire : ℕ → (ℕ → Bool) → ℕ → Bool
fire t fired u = if u == t then true else fired u

-- ===== src/Worker.antt =====
-- src/ida/loop_impl.rs: the loop that owns the database. One pass takes a request and what the outside
-- answers in it: whether its token is cancelled, how idalib starts, whether a path names the database
-- that is open, and how an open ends. Requests that neither open nor close are told apart by their
-- generation and their token only.
pub mod Generations
pub mod Tokens
use ida_rs_cli.Base.{
  ℕ, suc, ◌+◌, Bool, true, false, ◌&&◌, Option, none, some, String, ltb, leb, not, ◌||◌,
  if◌then◌else◌, ◌==◌, nat_eq, is_some,
}
use ida_rs_cli.Base.Numbers.{word}
use ida_rs_cli.Handlers.{
  ToolError, cancelled, ida_error, database_already_open, database_replaced, sdk_version_mismatch,
}

-- `idb` is the path of the database.
pub record WorkerState : Type 0 where
  pub idb : Option String
  pub database_generation : Option ℕ
  pub next_database_generation : ℕ
  pub library_initialized : Bool
  pub version_mismatch : Option String
  pub running : Bool

pub data Request : Type 0 where
  open_path : String → Request
  close : Request
  close_if_generation : ℕ → Request
  -- AnalysisStatus and DscLoadImage, with `expected_generation`.
  bound : Option ℕ → Request
  -- AnalyzeFuncs and RunScript, which carry a token.
  cancellable : Request
  -- The others.
  work : Request
  shutdown : Request

pub data Init : Type 0 where
  initialized : Option String → Init
  init_failed : String → Init

pub record Answers : Type 0 where
  pub token_cancelled : Bool
  pub init : Init
  pub paths_match : Bool
  -- What becomes of `handle_open` when no database is open: an error, or none.
  pub open_error : Option ToolError

pub data Response : Type 0 where
  opened : ℕ → Response
  closed : Response
  conditionally_closed : Bool → Response
  served : Response
  failed : ToolError → Response
  silent : Response

abbrev pub has_token : Request → Bool
has_token (open_path path) = true
has_token cancellable = true
has_token _ = false

abbrev pub reject_with_error : Request → ToolError → Response
reject_with_error shutdown e = silent
reject_with_error close e = closed
reject_with_error _ e = failed e

abbrev pub same_generation : ℕ → Option ℕ → Bool
same_generation g none = false
same_generation g (some h) = h == g

unfoldable pub require_generation : Option ℕ → Option ℕ → Option ToolError
require_generation none current = none
require_generation (some expected) current =
    if same_generation expected current then none else some database_replaced

abbrev pub closes : WorkerState → WorkerState
closes s = record s { idb = none; database_generation = none }

abbrev pub exhausted : WorkerState → WorkerState × Response
exhausted s = (record s { idb = none }, failed (ida_error "database generation counter exhausted"))

-- A new generation for the database at `path`, unless the counter is at its maximum.
unfoldable pub next_generation : String → WorkerState → WorkerState × Response
next_generation path s =
    let next = suc s.next_database_generation in
    if ltb next word
    then (
      record s {
        idb = some path;
        database_generation = some next;
        next_database_generation = next;
      },
      opened next,
    )
    else exhausted s

-- `handle_open` found the database open already, and it is the same.
abbrev pub reopened : String → Option ℕ → WorkerState → WorkerState × Response
reopened path (some generation) s = (s, opened generation)
reopened path none s = next_generation path s

abbrev pub newly_opened : String → Option ToolError → WorkerState → WorkerState × Response
newly_opened path none s = next_generation path s
newly_opened path (some e) s = (s, failed e)

unfoldable pub handle_open : Answers → String → Option String → WorkerState → WorkerState × Response
handle_open a path (some current) s =
    if a.paths_match
    then reopened current s.database_generation s
    else (s, failed (database_already_open current))
handle_open a path none s = newly_opened path a.open_error s

abbrev pub cancellation : ToolError
cancellation = cancelled "Operation cancelled by client"

abbrev pub answer_bound : Option ToolError → Response
answer_bound none = served
answer_bound (some e) = failed e

unfoldable pub dispatch : Answers → Request → WorkerState → WorkerState × Response
dispatch a (open_path path) s =
    if a.token_cancelled then (s, failed cancellation) else handle_open a path s.idb s
dispatch a close s = (closes s, closed)
dispatch a (close_if_generation g) s =
    if same_generation g s.database_generation
    then (closes s, conditionally_closed true)
    else (s, conditionally_closed false)
dispatch a (bound expected) s =
    (s, answer_bound (require_generation expected s.database_generation))
dispatch a cancellable s = (s, served)
dispatch a work s = (s, served)
dispatch a shutdown s = (record s { idb = none; running = false }, silent)

abbrev pub rejected : String → Request → WorkerState → WorkerState × Response
rejected message shutdown s = (record s { idb = none; running = false }, silent)
rejected message req s = (s, reject_with_error req (sdk_version_mismatch message))

unfoldable pub handle : Answers → Request → Option String → WorkerState → WorkerState × Response
handle a req (some message) s = rejected message req s
handle a req none s = dispatch a req s

unfoldable pub pass_initialized : Answers → Request → WorkerState → Init → WorkerState × Response
pass_initialized a req s (init_failed text) = (s, reject_with_error req (ida_error text))
pass_initialized a req s (initialized mismatch) =
    handle a req mismatch (record s { library_initialized = true; version_mismatch = mismatch })

-- One pass of the loop.
unfoldable pub pass : Answers → Request → WorkerState → WorkerState × Response
pass a req s =
    if s.library_initialized
    then handle a req s.version_mismatch s
    else if has_token req && a.token_cancelled
    then (s, reject_with_error req cancellation)
    else pass_initialized a req s a.init

-- `sdk_version >= (9, 4)`.
abbrev pub at_least_nine_four : ℕ → ℕ → Bool
at_least_nine_four major minor = ltb 9 major || (major == 9 && leb 4 minor)

abbrev pub should_check_license_expiry : ℕ → ℕ → Bool
should_check_license_expiry major minor = not (at_least_nine_four major minor)

-- Whether there is a message.
unfoldable pub check_version_mismatch : ℕ × ℕ → ℕ × ℕ → Bool
check_version_mismatch (sdk_major, sdk_minor) (runtime_major, runtime_minor) =
    let minor_differs = not (runtime_minor == sdk_minor) in
    not (runtime_major == sdk_major) || (at_least_nine_four sdk_major sdk_minor && minor_differs)

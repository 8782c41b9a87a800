-- ===== src/Router.antt =====
-- src/daemon/router.rs: the router's table of targets. Each function is what one request does under
-- the lock of the state. A `target.load` holds the load lock from its conflict check to its end, and
-- between its stretches other requests run. Its worker and the file system are outside: canonical
-- paths and what the worker answers are arguments.
pub mod Paths
pub mod Requests
pub mod Runs
use ida_rs_cli.Base.{
  ℕ, ◌+◌, ◌%◌, Bool, true, String, Option, none, some, List, [], ◌∷◌, if◌then◌else◌, ◌==◌,
  string_eq,
}
use ida_rs_cli.Base.Dict
use ida_rs_cli.Base.Dict.{Dict}
use ida_rs_cli.Base.Numbers.{word}
use ida_rs_cli.Targets.{
  TargetInfo, Entry, Resolved, not_found, target_id, lowest_target_id, resolve_selector,
}

pub record WorkerEntry : Type 0 where
  pub info : TargetInfo
  pub sock : String
  pub canon_path : String
  pub db_identity : String

abbrev pub Targets : Type 0
Targets = Dict String WorkerEntry

pub record RouterState : Type 0 where
  pub targets : Targets
  pub active : Option String
  pub next_id : ℕ

-- How far the load that holds the load lock has come.
pub data Loading : Type 0 where
  unlocked : Loading
  checked : String → String → Loading
  allocated : String → String → String → Loading

-- `drained` is set once a `shutdown` request has emptied the table. The router ends then, but other
-- connections are served until it has.
pub record Router : Type 0 where
  pub state : RouterState
  pub loading : Loading
  pub drained : Bool

unfoldable pub new : RouterState
new = record { targets = []; active = none; next_id = 1 }

unfoldable pub alloc_id : RouterState → RouterState × String
alloc_id st = (record st { next_id = (st.next_id + 1) % word }, target_id st.next_id)

-- What `resolve` hands to `resolve_selector`.
abbrev pub entries : Targets → List Entry
entries [] = []
entries ((id, e) ∷ d) = (id, (e.info.filename, e.info.path)) ∷ entries d

unfoldable pub resolve : Option String → RouterState → Resolved
resolve selector st = resolve_selector selector st.active (entries st.targets)

pub data Conflict : Type 0 where
  input_already_loaded : String → Conflict
  database_in_use : String → String → Conflict

unfoldable pub find_load_conflict : String → String → Targets → Option Conflict
find_load_conflict canon_path db_identity [] = none
find_load_conflict canon_path db_identity ((id, e) ∷ d) =
    let rest = find_load_conflict canon_path db_identity d in
    if e.canon_path == canon_path
    then some (input_already_loaded id)
    else if e.db_identity == db_identity
    then some (database_in_use db_identity id)
    else rest

-- `handle_target_load` takes the load lock and checks for a conflict; held elsewhere, it waits.
unfoldable pub check_load_held :
    String → String → Option Conflict → Router → Router × Option Conflict
check_load_held canon_path db_identity none r =
    (record r { loading = checked canon_path db_identity }, none)
check_load_held canon_path db_identity (some conflict) r = (r, some conflict)

unfoldable pub check_load : String → String → Router → Router × Option Conflict
unfolding check_load_held
check_load canon_path db_identity r = elim (r.loading) [
  | unlocked ↦
      check_load_held canon_path db_identity
        (find_load_conflict canon_path db_identity r.state.targets) r
  | checked c d ↦ (r, none)
  | allocated id c d ↦ (r, none)
]

-- Its allocation of an id.
unfoldable pub allocate_load : Router → Router
allocate_load r = elim (r.loading) [
  | unlocked ↦ r
  | checked canon_path db_identity ↦
      let (st, id) = alloc_id r.state in
      record { state = st; loading = allocated id canon_path db_identity; drained = r.drained }
  | allocated id c d ↦ r
]

abbrev pub or_active : Option String → String → Option String
or_active none id = some id
or_active (some a) id = some a

-- Its entry into the table: the first target becomes the active one.
unfoldable pub enter : String → TargetInfo → String → String → String → RouterState → RouterState
enter id info sock canon_path db_identity st = record st {
  active = or_active st.active id;
  targets =
      Dict.insert id
        (record {
          info = record info { id = id };
          sock = sock;
          canon_path = canon_path;
          db_identity = db_identity;
        })
        st.targets;
}

-- Its end, with what the worker answers, and its socket, if it was spawned and has loaded.
unfoldable pub finish_load : Option (TargetInfo × String) → Router → Router
unfolding enter
finish_load answer r = elim (r.loading) [
  | unlocked ↦ r
  | checked c d ↦ r
  | allocated id canon_path db_identity ↦ elim answer [
    | none ↦ record r { loading = unlocked }
    | some (info, sock) ↦ record {
      state = enter id info sock canon_path db_identity r.state;
      loading = unlocked;
      drained = r.drained;
    }
  ]
]

-- `target.switch`.
unfoldable pub switch_to : Resolved → RouterState → RouterState × Resolved
switch_to (Resolved.ok id) st = (record st { active = some id }, Resolved.ok id)
switch_to (Resolved.err e) st = (st, Resolved.err e)

unfoldable pub target_switch : String → RouterState → RouterState × Resolved
unfolding switch_to
target_switch sel st = switch_to (resolve (some sel) st) st

abbrev pub is_active : String → Option String → Bool
is_active id none = Bool.false
is_active id (some a) = a == id

-- `target.close`, up to stopping the worker.
unfoldable pub close_found : String → Option WorkerEntry → RouterState → RouterState × Resolved
close_found id none st = (st, Resolved.err (not_found id))
close_found id (some e) st =
    let rest = Dict.remove id st.targets in
    (
      record st {
        targets = rest;
        active = if is_active id st.active then lowest_target_id (Dict.keys rest) else st.active;
      },
      Resolved.ok id,
    )

unfoldable pub close_resolved : Resolved → RouterState → RouterState × Resolved
unfolding close_found
close_resolved (Resolved.ok id) st = close_found id (Dict.lookup id st.targets) st
close_resolved (Resolved.err e) st = (st, Resolved.err e)

unfoldable pub target_close : String → RouterState → RouterState × Resolved
unfolding close_resolved
target_close sel st = close_resolved (resolve (some sel) st) st

-- `shutdown`: the table is drained, and `active` stays. The workers are stopped outside the lock.
unfoldable pub shutdown_all_workers : Router → Router
shutdown_all_workers r = record {
  state = record (r.state) { targets = [] };
  loading = r.loading;
  drained = true;
}

-- The other requests: the worker that serves them.
unfoldable pub worker_of : String → Option WorkerEntry → Option WorkerEntry × Resolved
worker_of id none = (none, Resolved.err (not_found id))
worker_of id (some e) = (some e, Resolved.ok id)

unfoldable pub route_to : Resolved → RouterState → Option WorkerEntry × Resolved
unfolding worker_of
route_to (Resolved.ok id) st = worker_of id (Dict.lookup id st.targets)
route_to (Resolved.err e) st = (none, Resolved.err e)

unfoldable pub route : Option String → RouterState → Option WorkerEntry × Resolved
unfolding route_to
route target st = route_to (resolve target st) st

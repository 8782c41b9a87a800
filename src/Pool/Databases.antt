-- ===== src/Pool/Databases.antt =====
-- src/ida/pool.rs: `PooledSessionState`, the worker that a session holds and the generations of its
-- databases. The lock of the handle makes each function one step; what the pool and the worker
-- answer are arguments.
use ida_rs_cli.Base.{
  ℕ, ◌+◌, Bool, true, false, Option, none, some, List, [], ◌∷◌, if◌then◌else◌, ◌==◌, ltb, nat_eq,
}
use ida_rs_cli.Base.Numbers.{word}

pub record PooledDatabaseLease : Type 0 where
  pub worker_id : ℕ
  pub generation : ℕ

pub record PooledSessionState : Type 0 where
  pub handle : Option PooledDatabaseLease
  pub next_generation : ℕ

unfoldable pub new : PooledSessionState
new = record { handle = none; next_generation = 0 }

-- `next_database_generation`: the counter that was incremented, unless it would overflow.
unfoldable pub next_database_generation : PooledSessionState → PooledSessionState × Option ℕ
next_database_generation s =
    if ltb (s.next_generation + 1) word
    then (record s { next_generation = s.next_generation + 1 }, some (s.next_generation + 1))
    else (s, none)

pub data OpenAnswer : Type 0 where
  held : ℕ → ℕ → Bool → OpenAnswer
  exhausted : OpenAnswer
  pool_failed : OpenAnswer

-- The handle once there is a generation; the counter stays where it is if the pool has no worker.
abbrev pub leased_from : ℕ → Option ℕ → PooledSessionState → PooledSessionState × OpenAnswer
leased_from generation none s = (s, pool_failed)
leased_from generation (some worker) s = (
  record s { handle = some (record { worker_id = worker; generation = generation }) },
  held worker generation true,
)

abbrev pub open_fresh : Option ℕ → PooledSessionState × Option ℕ → PooledSessionState × OpenAnswer
open_fresh worker (s, none) = (s, exhausted)
open_fresh worker (s, some generation) = leased_from generation worker s

abbrev pub open_from :
    Option ℕ → Option PooledDatabaseLease → PooledSessionState → PooledSessionState × OpenAnswer
open_from worker (some lease) s = (s, held lease.worker_id lease.generation false)
open_from worker none s = open_fresh worker (next_database_generation s)

-- `lease_for_open`, with the worker that the pool leases, if it does.
unfoldable pub lease_for_open : Option ℕ → PooledSessionState → PooledSessionState × OpenAnswer
unfolding next_database_generation
lease_for_open worker s = open_from worker s.handle s

pub data HandleAnswer : Type 0 where
  handle : ℕ → HandleAnswer
  no_database_open : HandleAnswer
  database_replaced : HandleAnswer

-- `require_lease_generation`.
abbrev pub is_expected : ℕ → Option ℕ → Bool
is_expected current none = true
is_expected current (some expected) = current == expected

abbrev pub handle_in : Option ℕ → Option PooledDatabaseLease → HandleAnswer
handle_in expected none = no_database_open
handle_in expected (some lease) =
    if is_expected lease.generation expected then handle lease.worker_id else database_replaced

unfoldable pub required_handle_for_generation : Option ℕ → PooledSessionState → HandleAnswer
required_handle_for_generation expected s = handle_in expected s.handle

-- `take_handle`, which `close` and `release_current_handle` begin with.
unfoldable pub take_handle : PooledSessionState → PooledSessionState × Option PooledDatabaseLease
take_handle s = (record s { handle = none }, s.handle)

abbrev pub is_worker : ℕ → Option PooledDatabaseLease → Bool
is_worker worker none = false
is_worker worker (some lease) = lease.worker_id == worker

unfoldable pub clear_handle_if_worker : ℕ → PooledSessionState → PooledSessionState
clear_handle_if_worker worker s =
    if is_worker worker s.handle then record s { handle = none } else s

abbrev pub is_current : ℕ → Option PooledDatabaseLease → Bool
is_current generation none = false
is_current generation (some lease) = lease.generation == generation

-- `close_if_generation` up to the release, with the lease to release: none if it is not current.
unfoldable pub close_if_generation :
    ℕ → PooledSessionState → PooledSessionState × Option PooledDatabaseLease
close_if_generation generation s =
    if is_current generation s.handle then (record s { handle = none }, s.handle) else (s, none)

pub data Call : Type 0 where
  opens : Option ℕ → Call
  takes : Call
  clears : ℕ → Call
  closes_if : ℕ → Call

unfoldable pub step : Call → PooledSessionState → PooledSessionState
step (opens worker) s = (lease_for_open worker s).0
step takes s = (take_handle s).0
step (clears worker) s = clear_handle_if_worker worker s
step (closes_if generation) s = (close_if_generation generation s).0

unfoldable pub run : List Call → PooledSessionState → PooledSessionState
run [] s = s
run (c ∷ cs) s = run cs (step c s)

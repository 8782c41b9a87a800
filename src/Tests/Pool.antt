-- ===== src/Tests/Pool.antt =====
-- The worker pool on small inputs.
use ida_rs_cli.Base.{true, none, some, List, [], ◌∷◌, ◌≡◌, refl, min, nat_eq, arith}
use ida_rs_cli.Base.Dict
use ida_rs_cli.Pool.{
  WorkerPoolConfig, PooledChild, ChildState, new, state_of, lease, take_stale_idle_worker, warm_min,
  contains, lease_scanned, scan, reserve_spawn_slot, finish_spawn_reservation,
}
use ida_rs_cli.Pool.Actions.{Action, leases, installs, step, run, AllEnabled}
use ida_rs_cli.Pool.Soundness.{IsSound}
use ida_rs_cli.Pool.Soundness.Runs.{new-IsSound, run-IsSound}
use ida_rs_cli.Pool.Leases.{Leased, lease-Leased}
use ida_rs_cli.Pool.Moves.{Moves, step-Moves}
use ida_rs_cli.Pool.Reaping.{Reaped, take_stale_idle_worker-Reaped, Warmed, warm_min-Warmed}
use ida_rs_cli.Pool.Databases
use ida_rs_cli.Pool.Databases.{
  PooledDatabaseLease, PooledSessionState, clears, opens, handle, clear_handle_if_worker,
  lease_for_open, required_handle_for_generation,
}
use ida_rs_cli.Pool.Shutdown.{IsRetired, shutdown_all, shutdown_all-IsRetired}
use ida_rs_cli.Pool.Lifetimes.{generation_binds}

abbrev config : WorkerPoolConfig
config = record { max_workers = 1; min_workers = 0 }

abbrev worker : PooledChild
worker = record {
  service = true;
  pid = some 42;
  state = ChildState.idle;
  spawned_at = 0;
  last_used = 0;
  idb_path = none;
}

-- A session finds no worker, one is started, and the session leases it.
abbrev actions : List Action
actions = leases "a" 1 ∷ installs 0 worker ∷ leases "a" 2 ∷ []

actions_enabled : AllEnabled config actions new
unfolding new step lease lease_scanned scan reserve_spawn_slot finish_spawn_reservation Dict.insert
    Dict.lookup nat_eq
actions_enabled = (tt, ((refl, refl), (tt, tt)))

run-IsSound_example : IsSound config (run config actions new)
run-IsSound_example = run-IsSound config actions new actions_enabled (new-IsSound config)

lease-Leased_example :
    Leased config "b" (run config actions new) (lease config "b" 3 (run config actions new))
lease-Leased_example = lease-Leased config "b" 3 (run config actions new)

held : contains 0 (run config actions new).children ≡ true
unfolding new run step lease lease_scanned scan reserve_spawn_slot finish_spawn_reservation
    Dict.insert Dict.lookup nat_eq
held = refl

step-Moves_example :
    Moves 0
      (leases "b" 3)
      (state_of (run config actions new).slots 0)
      (state_of (step config (leases "b" 3) (run config actions new)).slots 0)
step-Moves_example =
    step-Moves config (leases "b" 3) (run config actions new) 0
      (run-IsSound config actions new actions_enabled (new-IsSound config)) tt held

abbrev starting : List Action
starting = leases "a" 1 ∷ installs 0 worker ∷ []

starting_enabled : AllEnabled config starting new
unfolding new step lease lease_scanned scan reserve_spawn_slot finish_spawn_reservation Dict.insert
    Dict.lookup nat_eq
starting_enabled = (tt, ((refl, refl), tt))

take_stale_idle_worker-Reaped_example :
    Reaped config 0 9
      (run config starting new)
      (take_stale_idle_worker config 0 9 (run config starting new))
take_stale_idle_worker-Reaped_example =
    take_stale_idle_worker-Reaped config 0 9 (run config starting new)
      (run-IsSound config starting new starting_enabled (new-IsSound config))

abbrev two : WorkerPoolConfig
two = record { max_workers = 2; min_workers = 3 }

warm_min-Warmed_example : Warmed two (min 3 2) (warm_min two (λ id. some worker) new)
warm_min-Warmed_example = warm_min-Warmed two (λ id. some worker)

abbrev lease_1 : PooledDatabaseLease
lease_1 = record { worker_id = 4; generation = 1 }

abbrev session : PooledSessionState
session = record { handle = some lease_1; next_generation = 1 }

-- An error clears another worker, which is not the session's.
still_held :
    required_handle_for_generation (some 1) (Databases.run (clears 5 ∷ opens (some 6) ∷ []) session)
    ≡ handle 4
unfolding Databases.run Databases.step clear_handle_if_worker lease_for_open
    required_handle_for_generation nat_eq
still_held = refl

generation_binds_example : 4 ≡ lease_1.worker_id
generation_binds_example =
    generation_binds lease_1 session (clears 5 ∷ opens (some 6) ∷ []) 4 refl (omega arith)
      still_held

shutdown_all-IsRetired_example : IsRetired 0 (shutdown_all (run config actions new))
shutdown_all-IsRetired_example = shutdown_all-IsRetired 0 (run config actions new) held

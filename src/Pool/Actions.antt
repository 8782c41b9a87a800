-- ===== src/Pool/Actions.antt =====
-- src/ida/pool.rs: the pool's life as a sequence of stretches, in any order that the locks allow.
use ida_rs_cli.Base.{ℕ, Bool, true, false, String, none, some, List, [], ◌∷◌, ◌≡◌, nat_eq}
use ida_rs_cli.Pool.{
  WorkerPoolConfig, WorkerPool, PooledChild, contains, is_dead, lease, finish_spawn_reservation,
  take_dead_worker, forget_slot, take_stale_idle_worker, ensure_min_round, begin_release,
  end_release,
}

pub data Action : Type 0 where
  leases : String → ℕ → Action
  installs : ℕ → PooledChild → Action
  abandons : ℕ → Action
  begins_release : ℕ → Action
  ends_release : ℕ → Bool → ℕ → Action
  kills : ℕ → Action
  forgets : ℕ → Action
  reaps : ℕ → ℕ → Action
  replenishes : Action

unfoldable pub step : WorkerPoolConfig → Action → WorkerPool → WorkerPool
step config (leases session now) p = (lease config session now p).0
step config (installs id child) p = finish_spawn_reservation id (some child) p
step config (abandons id) p = finish_spawn_reservation id none p
step config (begins_release id) p = (begin_release id p).0
step config (ends_release id retires now) p = end_release id retires now p
step config (kills id) p = take_dead_worker id p
step config (forgets id) p = forget_slot id p
step config (reaps id sleep_started) p = (take_stale_idle_worker config id sleep_started p).0
step config replenishes p = (ensure_min_round config p).0

-- A slot is installed for an id that is reserved, and starts live. The rest may happen any time.
abbrev pub IsEnabled : Action → WorkerPool → Type 0
IsEnabled (installs id child) p = (contains id p.spawning ≡ true) × (is_dead child.state ≡ false)
IsEnabled _ p = Unit

unfoldable pub run : WorkerPoolConfig → List Action → WorkerPool → WorkerPool
run config [] p = p
run config (a ∷ rest) p = run config rest (step config a p)

abbrev pub AllEnabled : WorkerPoolConfig → List Action → WorkerPool → Type 0
AllEnabled config [] p = Unit
AllEnabled config (a ∷ rest) p = IsEnabled a p × AllEnabled config rest (step config a p)

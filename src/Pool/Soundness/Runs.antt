-- ===== src/Pool/Soundness/Runs.antt =====
-- src/ida/pool.rs: every stretch of the pool's code keeps the pool sound, and so does every run.
use ida_rs_cli.Base.{
  ℕ, ◌+◌, min, Bool, true, false, not, ◌||◌, String, some, List, [], ◌∷◌, ◌==◌, ltb, leb, nat_eq,
  length, ◌≡◌, refl, subst, arith, Bool-cases, inl, inr,
}
use ida_rs_cli.Base.Dict
use ida_rs_cli.Pool.{
  WorkerPoolConfig, WorkerPool, PooledChild, ChildState, Scan, found, counted, is_dead, is_idle,
  state_in, state_of, contains, live, scan, take_lease, killed, new, lease, lease_scanned,
  forget_slot, take_stale_idle_worker, ensure_min_round, begin_release, end_release, last_used_in,
}
use ida_rs_cli.Pool.Actions.{
  Action, leases, installs, abandons, begins_release, ends_release, kills, forgets, reaps,
  replenishes, step, run, IsEnabled, AllEnabled,
}
use ida_rs_cli.Pool.Counting.{live-select-le, live-le-length, Scanned, hit, none_idle, scan-Scanned}
use ida_rs_cli.Pool.Soundness.{
  IsSound, select-IsSound, reserve-IsSound, abandon-IsSound, install-IsSound, modify-IsSound,
  kill-IsSound,
}

pub new-IsSound : (config : WorkerPoolConfig) → IsSound config new
unfolding new live
new-IsSound config = record {
  capacity = omega arith;
  children_differ = tt;
  spawning_differ = tt;
  apart = tt;
  children_below = tt;
  spawning_below = tt;
}

pub idle_not_dead : (c : ChildState) → is_idle c ≡ true → is_dead c ≡ false
idle_not_dead ChildState.idle h = refl
idle_not_dead (ChildState.leased s) h = refl
idle_not_dead ChildState.closing h = refl
idle_not_dead ChildState.dead h = cc

module _ (config : WorkerPoolConfig) (p : WorkerPool) (v : IsSound config p) where
  lease_scanned-IsSound :
      (session : String) (now : ℕ) (s : Scan)
      → Scanned p.slots p.children (length p.spawning) s
      → IsSound config (lease_scanned config session now s p).0
  unfolding lease_scanned
  lease_scanned-IsSound session now (found _) (hit id listed idle) =
      modify-IsSound config p v id (take_lease session now) (λ c at dead.
        cc (idle_not_dead c.state (subst (λ o. is_idle (state_in o) ≡ true) at idle), dead))
  lease_scanned-IsSound session now (counted _ _) (none_idle n ids count all) =
      let v' = select-IsSound config p v (λ x. not (contains x ids)) in
      elim (Bool-cases (leb config.max_workers n)) [
        | inl full ↦ rw full v'
        | inr room ↦ rw room (
            reserve-IsSound config _ v'
              (ground (arith, live-select-le p.slots (λ x. not (contains x ids)) p.children)))
      ]

  pub lease-IsSound : (session : String) (now : ℕ) → IsSound config (lease config session now p).0
  unfolding lease
  lease-IsSound session now =
      lease_scanned-IsSound session now (scan p.slots p.children (length p.spawning) [])
        (scan-Scanned p.slots p.children (length p.spawning) [])

  begin_release-IsSound : (id : ℕ) → IsSound config (begin_release id p).0
  unfolding begin_release
  begin_release-IsSound id = elim (Bool-cases (is_dead (state_of p.slots id))) [
    | inl dead ↦ rw dead v
    | inr lives ↦
        rw lives (modify-IsSound config p v id _ (λ c at h. cc (lives, the_state c id at, h)))
  ]
    where
      the_state :
          (c : PooledChild) (id : ℕ)
          → Dict.lookup id p.slots ≡ some c
          → is_dead (state_of p.slots id) ≡ is_dead c.state
      the_state c id at = rw at

  end_release-IsSound :
      (id : ℕ) (retires : Bool) (now : ℕ) → IsSound config (end_release id retires now p)
  unfolding end_release
  end_release-IsSound id true now = kill-IsSound config p v id
  end_release-IsSound id false now = elim (Bool-cases (is_dead (state_of p.slots id))) [
    | inl dead ↦ rw dead v
    | inr lives ↦
        rw lives (modify-IsSound config p v id _ (λ c at h. cc (lives, the_state c id at, h)))
  ]
    where
      the_state :
          (c : PooledChild) (id : ℕ)
          → Dict.lookup id p.slots ≡ some c
          → is_dead (state_of p.slots id) ≡ is_dead c.state
      the_state c id at = rw at

  reap-IsSound :
      (id sleep_started : ℕ) → IsSound config (take_stale_idle_worker config id sleep_started p).0
  unfolding take_stale_idle_worker
  reap-IsSound id sleep_started =
      elim (Bool-cases (leb (length p.spawning + live p.slots p.children) config.min_workers)) [
        | inl few ↦ rw few v
        | inr more ↦
            elim (Bool-cases (
              not (is_idle (state_of p.slots id))
              || ltb sleep_started (last_used_in (Dict.lookup id p.slots)))) [
                | inl keep ↦ rw (more, keep) v
                | inr take ↦ rw (more, take) (modify-IsSound config p v id killed (λ c at h. refl))
              ]
      ]

  replenish-IsSound : IsSound config (ensure_min_round config p).0
  unfolding ensure_min_round
  replenish-IsSound =
      elim (Bool-cases (
        min config.min_workers config.max_workers == 0
        || (leb (min config.min_workers config.max_workers) (length p.spawning + length p.children)
            || leb config.max_workers (length p.spawning + length p.children)))) [
              | inl enough ↦ rw enough v
              | inr short ↦
                  rw short
                    (reserve-IsSound config p v (ground (arith, live-le-length p.slots p.children)))
            ]

pub step-IsSound :
    (config : WorkerPoolConfig) (a : Action) (p : WorkerPool)
    → IsEnabled a p
    → IsSound config p
    → IsSound config (step config a p)
unfolding step forget_slot
step-IsSound config (leases session now) p e v = lease-IsSound config p v session now
step-IsSound config (installs id child) p e v = install-IsSound config p v id child e.0
step-IsSound config (abandons id) p e v = abandon-IsSound config p v id
step-IsSound config (begins_release id) p e v = begin_release-IsSound config p v id
step-IsSound config (ends_release id retires now) p e v =
    end_release-IsSound config p v id retires now
step-IsSound config (kills id) p e v = kill-IsSound config p v id
step-IsSound config (forgets id) p e v = select-IsSound config p v _
step-IsSound config (reaps id sleep_started) p e v = reap-IsSound config p v id sleep_started
step-IsSound config replenishes p e v = replenish-IsSound config p v

-- From a sound pool, whatever stretches of the code run in whatever order, the live workers and the
-- reserved ones together are at most the maximum, the ids of the held workers differ from one
-- another and from the reserved ones, and all are below the next id, which is so never given twice.
-- A worker is installed only for an id that is reserved.
pub run-IsSound :
    (config : WorkerPoolConfig) (actions : List Action) (p : WorkerPool)
    → AllEnabled config actions p
    → IsSound config p
    → IsSound config (run config actions p)
unfolding run
run-IsSound config [] p e v = v
run-IsSound config (a ∷ rest) p e v =
    run-IsSound config rest (step config a p) e.1 (step-IsSound config a p e.0 v)

-- ===== src/Pool/Reaping.antt =====
-- src/ida/pool.rs: the minimum of workers: what reaping leaves, and what `warm_min` starts.
use ida_rs_cli.Base.{
  ℕ, zero, suc, ◌+◌, ◌≤◌, ◌<◌, min, Bool, true, false, Option, none, some, List, [], ◌∷◌, ◌==◌, ltb,
  leb, nat_eq, length, ◌≡◌, refl, subst, arith, Bool-cases, Option-cases, inl, inr, length-append,
}
use ida_rs_cli.Base.Dict
use ida_rs_cli.Base.Dict.Laws.{lookup-insert}
use ida_rs_cli.Pool.{
  WorkerPoolConfig, WorkerPool, PooledChild, ChildState, Slots, is_idle, state_of, contains,
  without, live, modify, killed, new, reserve_spawn_slot, finish_spawn_reservation,
  take_stale_idle_worker, last_used_in, warm, warm_min,
}
use ida_rs_cli.Pool.Counting.{AllDiffer, live-insert_other, live-le-length}
use ida_rs_cli.Pool.Soundness.{IsSound, reserve-IsSound, abandon-IsSound, install-IsSound}
use ida_rs_cli.Pool.Soundness.Runs.{new-IsSound}
use ida_rs_cli.Pool.Leases.{state_of-modify_self, idle_slot}

-- One write lowers the count by one at most, as the children differ.
live-insert-ge :
    (id : ℕ) (c : PooledChild) (slots : Slots) (xs : List ℕ)
    → AllDiffer xs
    → live slots xs ≤ live (Dict.insert id c slots) xs + 1
unfolding live
live-insert-ge id c slots [] h = omega arith
live-insert-ge id c slots (x ∷ xs) h = elim (Bool-cases (id == x)) [
  | inl same ↦ ground (
    arith,
    live-insert_other id c slots xs (subst (λ i. contains i xs ≡ false) (ground arith) h.0),
  )
  | inr differ ↦ ground (arith, live-insert-ge id c slots xs h.1, lookup-insert x id c slots)
]

live-modify-ge :
    (id : ℕ) (f : PooledChild → PooledChild) (slots : Slots) (xs : List ℕ)
    → AllDiffer xs
    → live slots xs ≤ live (modify id f slots) xs + 1
live-modify-ge id f slots xs h = elim (Option-cases (Dict.lookup id slots)) [
  | inl absent ↦ rw absent (omega arith)
  | inr (c, at) ↦ rw at (live-insert-ge id (f c) slots xs h)
]

-- What the reaper does to the worker `id` and the pool.
pub data Reaped (config : WorkerPoolConfig) (id sleep_started : ℕ) (p : WorkerPool)
    : WorkerPool × Bool → Type 0 where
  spared : Reaped config id sleep_started p (p, false)
  stopped :
      (q : WorkerPool)
      → is_idle (state_of p.slots id) ≡ true
      → last_used_in (Dict.lookup id p.slots) ≤ sleep_started
      → state_of q.slots id ≡ ChildState.dead
      → config.min_workers ≤ length q.spawning + live q.slots q.children
      → Reaped config id sleep_started p (q, true)

-- The reaper leaves the pool as it is, or it stops a worker that is idle and was not used after the
-- reaper went to sleep; the live and reserved workers that are left reach the minimum then.
pub take_stale_idle_worker-Reaped :
    (config : WorkerPoolConfig) (id sleep_started : ℕ) (p : WorkerPool)
    → IsSound config p
    → Reaped config id sleep_started p (take_stale_idle_worker config id sleep_started p)
unfolding take_stale_idle_worker
take_stale_idle_worker-Reaped config id sleep_started p v =
    elim (Bool-cases (leb (length p.spawning + live p.slots p.children) config.min_workers)) [
      | inl few ↦ rw few spared
      | inr more ↦ elim (Bool-cases (is_idle (state_of p.slots id))) [
        | inr busy ↦ rw (more, busy) spared
        | inl idle ↦ elim (Bool-cases (ltb sleep_started (last_used_in (Dict.lookup id p.slots)))) [
          | inl used ↦ rw (more, idle, used) spared
          | inr stale ↦
              let (c, at) = idle_slot (Dict.lookup id p.slots) idle in
              rw (more, idle, stale)
                (stopped _ idle (ground arith) (state_of-modify_self id killed c p.slots at)
                  (ground (arith, live-modify-ge id killed p.slots p.children v.children_differ)))
        ]
      ]
    ]

-- What starting `rounds` workers leaves: all of them are held, if none failed.
abbrev pub Warmed : WorkerPoolConfig → ℕ → WorkerPool × Bool → Type 0
Warmed config held r =
    IsSound config r.0 × ((r.0.spawning ≡ []) × (r.1 ≡ true → length r.0.children ≡ held))

none_left : (n : ℕ) → without n (n ∷ []) ≡ []
none_left n = ground arith

reserve-finish_empty :
    (p : WorkerPool) (o : Option PooledChild)
    → p.spawning ≡ []
    → (finish_spawn_reservation p.next_id o (reserve_spawn_slot p).0).spawning ≡ []
unfolding finish_spawn_reservation reserve_spawn_slot
reserve-finish_empty p none e = rw e (none_left p.next_id)
reserve-finish_empty p (some c) e = rw e (none_left p.next_id)

head_reserved : (p : WorkerPool) → contains p.next_id (reserve_spawn_slot p).0.spawning ≡ true
unfolding reserve_spawn_slot
head_reserved p = ground arith

reserve-finish-IsSound :
    (config : WorkerPoolConfig) (p : WorkerPool) (o : Option PooledChild)
    → IsSound config p
    → p.spawning ≡ []
    → length p.children < config.max_workers
    → IsSound config (finish_spawn_reservation p.next_id o (reserve_spawn_slot p).0)
reserve-finish-IsSound config p o v e room =
    let v' = reserve-IsSound config p v (rw e (omega (arith, live-le-length p.slots p.children))) in
    go o v'
  where
    go :
        (o : Option PooledChild)
        → IsSound config (reserve_spawn_slot p).0
        → IsSound config (finish_spawn_reservation p.next_id o (reserve_spawn_slot p).0)
    go none v' = abandon-IsSound config (reserve_spawn_slot p).0 v' p.next_id
    go (some c) v' =
        install-IsSound config (reserve_spawn_slot p).0 v' p.next_id c (head_reserved p)

installed_length :
    (p : WorkerPool) (c : PooledChild)
    → length (finish_spawn_reservation p.next_id (some c) (reserve_spawn_slot p).0).children
      ≡ length p.children + 1
unfolding finish_spawn_reservation reserve_spawn_slot
installed_length p c = length-append p.children (p.next_id ∷ [])

warm-Warmed :
    (config : WorkerPoolConfig) (started : ℕ → Option PooledChild) (rounds : ℕ) (p : WorkerPool)
    → IsSound config p
    → p.spawning ≡ []
    → length p.children + rounds ≤ config.max_workers
    → Warmed config (length p.children + rounds) (warm rounds started p)
unfolding warm reserve_spawn_slot
warm-Warmed config started zero p v e room = (v, (e, λ h. omega arith))
warm-Warmed config started (suc rounds) p v e room = elim (Option-cases (started p.next_id)) [
  | inl at ↦
      rw (at, warm)
        (
          reserve-finish-IsSound config p none v e (omega arith),
          (reserve-finish_empty p none e, λ h. cc),
        )
  | inr (c, at) ↦
      let p' = finish_spawn_reservation p.next_id (some c) (reserve_spawn_slot p).0 in
      rw (at, warm)
        (subst (λ n. Warmed config n (warm rounds started p'))
          (rw (installed_length p c) (omega arith))
          (warm-Warmed config started rounds p'
            (reserve-finish-IsSound config p (some c) v e (omega arith))
            (reserve-finish_empty p (some c) e) (rw (installed_length p c) (omega arith))))
]

-- `warm_min` on the pool's start leaves a sound pool with nothing reserved; if every worker
-- starts, the pool holds the lesser of the minimum and the maximum of them.
pub warm_min-Warmed :
    (config : WorkerPoolConfig) (started : ℕ → Option PooledChild)
    → Warmed config (min config.min_workers config.max_workers) (warm_min config started new)
unfolding warm_min new
warm_min-Warmed config started =
    subst (λ n. Warmed config n (warm (min config.min_workers config.max_workers) started new))
      (omega arith)
      (warm-Warmed config started (min config.min_workers config.max_workers) new
        (new-IsSound config) refl (omega arith))

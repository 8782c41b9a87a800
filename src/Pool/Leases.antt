-- ===== src/Pool/Leases.antt =====
-- src/ida/pool.rs: what a lease gives, and who may touch a leased worker.
use ida_rs_cli.Base.{
  ℕ, ◌+◌, ◌≤◌, ◌<◌, true, false, String, Option, none, some, [], ◌∷◌, ◌==◌, leb, nat_eq, string_eq,
  length, ◌≡◌, refl, arith, Bool-cases, Option-cases, inl, inr, Every,
}
use ida_rs_cli.Base.Dict
use ida_rs_cli.Base.Dict.Laws.{lookup-insert}
use ida_rs_cli.Pool.{
  WorkerPoolConfig, WorkerPool, PooledChild, ChildState, Slots, Scan, found, counted, LeaseAnswer,
  is_idle, state_in, state_of, contains, live, scan, modify, take_lease, reserve_spawn_slot, lease,
  lease_scanned,
}
use ida_rs_cli.Pool.Counting.{Scanned, hit, none_idle, scan-Scanned}

pub state_of-modify_self :
    (id : ℕ) (f : PooledChild → PooledChild) (c : PooledChild) (slots : Slots)
    → Dict.lookup id slots ≡ some c
    → state_of (modify id f slots) id ≡ (f c).state
state_of-modify_self id f c slots at = rw at (ground (arith, lookup-insert id id (f c) slots))

pub state_of-modify_other :
    (id x : ℕ) (f : PooledChild → PooledChild) (slots : Slots)
    → (id == x) ≡ false
    → state_of (modify id f slots) x ≡ state_of slots x
state_of-modify_other id x f slots differ = elim (Option-cases (Dict.lookup id slots)) [
  | inl absent ↦ rw absent refl
  | inr (c, at) ↦ rw at (ground (arith, lookup-insert x id (f c) slots))
]

-- What `lease` answers, with the pool behind it.
pub data Leased (config : WorkerPoolConfig) (session : String) (p : WorkerPool)
    : WorkerPool × LeaseAnswer → Type 0 where
  gives :
      (id : ℕ) (q : WorkerPool)
      → contains id p.children ≡ true
      → state_of p.slots id ≡ ChildState.idle
      → state_of q.slots id ≡ ChildState.leased session
      → ((x : ℕ) → (id == x) ≡ false → state_of q.slots x ≡ state_of p.slots x)
      → (q.children ≡ p.children) × (q.spawning ≡ p.spawning)
      → Leased config session p (q, LeaseAnswer.leased id)
  is_full :
      (n : ℕ) (q : WorkerPool)
      → Every (λ x. is_idle (state_of p.slots x) ≡ false) p.children
      → n ≡ length p.spawning + live p.slots p.children
      → config.max_workers ≤ n
      → (q.slots ≡ p.slots) × (q.spawning ≡ p.spawning)
      → Leased config session p (q, LeaseAnswer.pool_exhausted n config.max_workers)
  starts :
      (q : WorkerPool)
      → Every (λ x. is_idle (state_of p.slots x) ≡ false) p.children
      → length p.spawning + live p.slots p.children < config.max_workers
      → (q.slots ≡ p.slots) × (q.spawning ≡ p.next_id ∷ p.spawning)
      → Leased config session p (q, LeaseAnswer.reserved p.next_id)

pub idle_state : (c : ChildState) → is_idle c ≡ true → c ≡ ChildState.idle
idle_state ChildState.idle h = refl
idle_state (ChildState.leased s) h = cc
idle_state ChildState.closing h = cc
idle_state ChildState.dead h = cc

pub idle_slot :
    (o : Option PooledChild) → is_idle (state_in o) ≡ true → (c : PooledChild) × (o ≡ some c)
idle_slot none h = cc
idle_slot (some c) h = (c, refl)

lease_scanned-Leased :
    (config : WorkerPoolConfig) (session : String) (now : ℕ) (p : WorkerPool) (s : Scan)
    → Scanned p.slots p.children (length p.spawning) s
    → Leased config session p (lease_scanned config session now s p)
unfolding lease_scanned reserve_spawn_slot
lease_scanned-Leased config session now p (found _) (hit id listed idle) =
    let (c, at) = idle_slot (Dict.lookup id p.slots) idle in
    gives id _ listed (idle_state _ idle)
      (state_of-modify_self id (take_lease session now) c p.slots at)
      (λ x. state_of-modify_other id x (take_lease session now) p.slots) (refl, refl)
lease_scanned-Leased config session now p (counted _ _) (none_idle n ids count all) =
    elim (Bool-cases (leb config.max_workers n)) [
      | inl full ↦ rw full (is_full n _ all count (ground arith) (refl, refl))
      | inr room ↦ rw room (starts _ all (ground arith) (refl, refl))
    ]

-- A lease gives a worker that the pool holds and that was idle, marks it as the session's, and
-- leaves every other slot; it says that the pool is exhausted only if no held worker is idle and the
-- live and reserved ones reach the maximum; and it reserves the next id only if no held worker is
-- idle and there is room for one more.
pub lease-Leased :
    (config : WorkerPoolConfig) (session : String) (now : ℕ) (p : WorkerPool)
    → Leased config session p (lease config session now p)
unfolding lease
lease-Leased config session now p =
    lease_scanned-Leased config session now p (scan p.slots p.children (length p.spawning) [])
      (scan-Scanned p.slots p.children (length p.spawning) [])

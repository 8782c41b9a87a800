-- ===== src/Pool.antt =====
-- src/ida/pool.rs: the pool of worker processes. A slot is an `Arc` that handles share with the pool,
-- so `slots` is a store by id and `children` lists the ids that the pool holds. Each function is
-- what one stretch of code does under the pool's lock, or under a slot's; between them other
-- tasks run. Starting and stopping processes is outside: their results are arguments.
pub mod Actions
pub mod Counting
pub mod Soundness
pub mod Leases
pub mod Moves
pub mod Reaping
pub mod Shutdown
pub mod Databases
pub mod Lifetimes
use ida_rs_cli.Base.{
  ℕ, suc, ◌+◌, ◌≤◌, min, max, Bool, true, false, not, ◌&&◌, ◌||◌, String, Option, none, some, List,
  [], ◌∷◌, ◌++◌, if◌then◌else◌, ◌==◌, ltb, leb, nat_eq, string_eq, length, select,
}
use ida_rs_cli.Base.Dict
use ida_rs_cli.Base.Dict.{Dict}

pub record WorkerPoolConfig : Type 0 where
  pub max_workers : ℕ
  pub min_workers : ℕ

pub data ChildState : Type 0 where
  idle : ChildState
  leased : String → ChildState
  closing : ChildState
  dead : ChildState

abbrev pub is_dead : ChildState → Bool
is_dead ChildState.dead = true
is_dead _ = false

abbrev pub is_idle : ChildState → Bool
is_idle ChildState.idle = true
is_idle _ = false

-- `service` tells whether the running service is still there. Times are instants.
pub record PooledChild : Type 0 where
  pub service : Bool
  pub pid : Option ℕ
  pub state : ChildState
  pub spawned_at : ℕ
  pub last_used : ℕ
  pub idb_path : Option String

pub record WorkerPool : Type 0 where
  pub children : List ℕ
  pub spawning : List ℕ
  pub next_id : ℕ
  pub slots : Dict ℕ PooledChild

abbrev pub Slots : Type 0
Slots = Dict ℕ PooledChild

-- Every listed child has a slot, so the first clause is not met.
abbrev pub state_in : Option PooledChild → ChildState
state_in none = ChildState.dead
state_in (some c) = c.state

abbrev pub state_of : Slots → ℕ → ChildState
state_of slots id = state_in (Dict.lookup id slots)

abbrev pub contains : ℕ → List ℕ → Bool
contains id [] = false
contains id (x ∷ xs) = x == id || contains id xs

abbrev pub without : ℕ → List ℕ → List ℕ
without id = select (λ x. not (x == id))

unfoldable pub new : WorkerPool
new = record { children = []; spawning = []; next_id = 0; slots = [] }

-- `reserve_spawn_slot_locked`: the pool and the reserved id.
unfoldable pub reserve_spawn_slot : WorkerPool → WorkerPool × ℕ
reserve_spawn_slot p =
    (record p { next_id = p.next_id + 1; spawning = p.next_id ∷ p.spawning }, p.next_id)

-- `finish_spawn_reservation`, with the slot that was started, if it was.
unfoldable pub finish_spawn_reservation : ℕ → Option PooledChild → WorkerPool → WorkerPool
finish_spawn_reservation id none p = record p { spawning = without id p.spawning }
finish_spawn_reservation id (some child) p = record p {
  spawning = without id p.spawning;
  children = p.children ++ id ∷ [];
  slots = Dict.insert id child p.slots;
}

-- The loop of `lease`: the first idle child, or the count of live ones and the ids of the dead.
pub data Scan : Type 0 where
  found : ℕ → Scan
  counted : ℕ → List ℕ → Scan

unfoldable pub scan : Slots → List ℕ → ℕ → List ℕ → Scan
scan slots [] active dead_ids = counted active dead_ids
scan slots (id ∷ ids) active dead_ids = elim (state_of slots id) [
  | ChildState.dead ↦ scan slots ids active (dead_ids ++ id ∷ [])
  | ChildState.idle ↦ found id
  | ChildState.leased session ↦ scan slots ids (active + 1) dead_ids
  | ChildState.closing ↦ scan slots ids (active + 1) dead_ids
]

pub data LeaseAnswer : Type 0 where
  leased : ℕ → LeaseAnswer
  pool_exhausted : ℕ → ℕ → LeaseAnswer
  reserved : ℕ → LeaseAnswer

-- A change of one slot's record, which is there.
abbrev pub write : ℕ → (PooledChild → PooledChild) → Option PooledChild → Slots → Slots
write id f none slots = slots
write id f (some c) slots = Dict.insert id (f c) slots

abbrev pub modify : ℕ → (PooledChild → PooledChild) → Slots → Slots
modify id f slots = write id f (Dict.lookup id slots) slots

abbrev pub take_lease : String → ℕ → PooledChild → PooledChild
take_lease session now c = record c { state = ChildState.leased session; last_used = now }

-- `inner.children.retain(|slot| !dead_ids.contains(&slot.id))`; with no dead ids it does nothing.
abbrev pub drop_dead : List ℕ → List ℕ → List ℕ
drop_dead dead_ids = select (λ x. not (contains x dead_ids))

unfoldable pub lease_scanned :
    WorkerPoolConfig → String → ℕ → Scan → WorkerPool → WorkerPool × LeaseAnswer
lease_scanned config session now (found id) p =
    (record p { slots = modify id (take_lease session now) p.slots }, LeaseAnswer.leased id)
lease_scanned config session now (counted active dead_ids) p =
    let p' = record p { children = drop_dead dead_ids p.children } in
    if leb config.max_workers active
    then (p', LeaseAnswer.pool_exhausted active config.max_workers)
    else let (p'', id) = reserve_spawn_slot p' in (p'', LeaseAnswer.reserved id)

-- The part of `lease` under the pool's lock.
unfoldable pub lease : WorkerPoolConfig → String → ℕ → WorkerPool → WorkerPool × LeaseAnswer
unfolding lease_scanned
lease config session now p =
    lease_scanned config session now (scan p.slots p.children (length p.spawning) []) p

-- `take_dead_worker_locked`.
abbrev pub killed : PooledChild → PooledChild
killed c = record c { service = false; state = ChildState.dead; idb_path = none }

unfoldable pub take_dead_worker : ℕ → WorkerPool → WorkerPool
take_dead_worker id p =
    if is_dead (state_of p.slots id) then p else record p { slots = modify id killed p.slots }

unfoldable pub forget_slot : ℕ → WorkerPool → WorkerPool
forget_slot id p = record p { children = without id p.children }

-- The live children, as the pool counts them.
unfoldable pub live : Slots → List ℕ → ℕ
live slots [] = 0
live slots (id ∷ ids) = (if is_dead (state_of slots id) then 0 else 1) + live slots ids

abbrev pub last_used_in : Option PooledChild → ℕ
last_used_in none = 0
last_used_in (some c) = c.last_used

-- `take_stale_idle_worker_if_above_min`, with whether the worker was taken.
unfoldable pub take_stale_idle_worker : WorkerPoolConfig → ℕ → ℕ → WorkerPool → WorkerPool × Bool
take_stale_idle_worker config id sleep_started p =
    if leb (length p.spawning + live p.slots p.children) config.min_workers
    then (p, false)
    else if not (is_idle (state_of p.slots id))
        || ltb sleep_started (last_used_in (Dict.lookup id p.slots))
    then (p, false)
    else (record p { slots = modify id killed p.slots }, true)

-- One round of `ensure_min_workers`: a reservation, unless there are enough workers.
unfoldable pub ensure_min_round : WorkerPoolConfig → WorkerPool → WorkerPool × Option ℕ
ensure_min_round config p =
    let min_workers = min config.min_workers config.max_workers in
    let live_or_reserved = length p.spawning + length p.children in
    if min_workers == 0
      || (leb min_workers live_or_reserved || leb config.max_workers live_or_reserved)
    then (p, none)
    else let (p', id) = reserve_spawn_slot p in (p', some id)

-- `release_inner` up to its call of `close_idb`; false if the worker is dead already.
unfoldable pub begin_release : ℕ → WorkerPool → WorkerPool × Bool
begin_release id p = if is_dead (state_of p.slots id) then (p, false) else (
  record p { slots = modify id (λ c. record c { state = ChildState.closing }) p.slots },
  true,
)

-- `release_inner` behind that call, which `retires` the worker if the transport failed.
unfoldable pub end_release : ℕ → Bool → ℕ → WorkerPool → WorkerPool
unfolding take_dead_worker
end_release id retires now p =
    if retires
    then take_dead_worker id p
    else if is_dead (state_of p.slots id)
    then p
    else record p {
      slots =
          modify id (λ c. record c { state = ChildState.idle; last_used = now; idb_path = none })
            p.slots;
    }

-- The loop of `warm_min`, with what starting each worker gives. It ends at the first failure.
unfoldable pub warm : ℕ → (ℕ → Option PooledChild) → WorkerPool → WorkerPool × Bool
warm ℕ.zero started p = (p, true)
warm (suc rounds) started p =
    let (p', id) = reserve_spawn_slot p in
    elim (started id) [
      | some child ↦ warm rounds started (finish_spawn_reservation id (some child) p')
      | none ↦ (finish_spawn_reservation id none p', false)
    ]

unfoldable pub warm_min :
    WorkerPoolConfig → (ℕ → Option PooledChild) → WorkerPool → WorkerPool × Bool
unfolding warm
warm_min config started p = warm (min config.min_workers config.max_workers) started p

-- ===== src/Pool/Soundness.antt =====
-- The invariant of the pool, and each write to it.
pub mod Runs
use ida_rs_cli.Base.{
  ℕ, zero, suc, ◌+◌, ◌≤◌, ◌<◌, min, Bool, true, false, not, ◌&&◌, ◌||◌, String, Option, none, some,
  List, [], ◌∷◌, ◌++◌, if◌then◌else◌, ◌==◌, ltb, leb, nat_eq, length, select, ◌≡◌, refl, sym, arith,
  Bool-cases, Option-cases, inl, inr, Every, Every-append, length-append, length-select-le, if_pos,
  if_neg,
}
use ida_rs_cli.Base.Dict
use ida_rs_cli.Pool.{
  WorkerPoolConfig, WorkerPool, PooledChild, ChildState, Slots, Scan, found, counted, is_dead,
  is_idle, state_in, state_of, contains, without, live, scan, drop_dead, modify, write, take_lease,
  killed, new, reserve_spawn_slot, finish_spawn_reservation, lease, lease_scanned, take_dead_worker,
  forget_slot, take_stale_idle_worker, ensure_min_round, begin_release, end_release, warm, warm_min,
}
use ida_rs_cli.Pool.Actions.{
  Action, leases, installs, abandons, begins_release, ends_release, kills, forgets, reaps,
  replenishes, step, run, IsEnabled, AllEnabled,
}
use ida_rs_cli.Pool.Counting.{
  AllDiffer, contains-select, select-AllDiffer, contains-append, contains-without_self,
  append-AllDiffer, length-without_lt, below-contains, select-Every, Every-contains, Every-suc,
  live-select-le, live-insert-le, live-insert_other, live-append, live-le-length, Scanned, hit,
  none_idle, scan-Scanned,
}

-- Live and reserved workers fit the maximum; ids are distinct, apart, and below the next one.
pub record IsSound (config : WorkerPoolConfig) (p : WorkerPool) : Type 0 where
  pub capacity : length p.spawning + live p.slots p.children ≤ config.max_workers
  pub children_differ : AllDiffer p.children
  pub spawning_differ : AllDiffer p.spawning
  pub apart : Every (λ x. contains x p.spawning ≡ false) p.children
  pub children_below : Every (λ x. x < p.next_id) p.children
  pub spawning_below : Every (λ x. x < p.next_id) p.spawning

new_apart :
    (n : ℕ) (xs ys : List ℕ)
    → Every (λ x. x < n) xs
    → Every (λ x. contains x ys ≡ false) xs
    → Every (λ x. contains x (n ∷ ys) ≡ false) xs
new_apart n [] ys h k = tt
new_apart n (x ∷ xs) ys h k = (ground arith, new_apart n xs ys h.1 k.1)

without_apart :
    (id : ℕ) (xs ys : List ℕ)
    → Every (λ x. contains x ys ≡ false) xs
    → Every (λ x. contains x (without id ys) ≡ false) xs
without_apart id [] ys h = tt
without_apart id (x ∷ xs) ys h = (contains-select x _ ys h.0, without_apart id xs ys h.1)

pub apart-contains :
    (id : ℕ) (xs ys : List ℕ)
    → Every (λ x. contains x ys ≡ false) xs
    → contains id ys ≡ true
    → contains id xs ≡ false
apart-contains id [] ys h k = refl
apart-contains id (x ∷ xs) ys h k = ground (arith, apart-contains id xs ys h.1)

module _ (config : WorkerPoolConfig) (p : WorkerPool) (v : IsSound config p) where
  -- A write to a slot that revives nothing.
  pub write-IsSound :
      (slots : Slots)
      → live slots p.children ≤ live p.slots p.children
      → IsSound config (record p { slots = slots })
  write-IsSound slots le = record {
    capacity = omega (arith, v.capacity);
    children_differ = v.children_differ;
    spawning_differ = v.spawning_differ;
    apart = v.apart;
    children_below = v.children_below;
    spawning_below = v.spawning_below;
  }

  pub select-IsSound : (f : ℕ → Bool) → IsSound config (record p { children = select f p.children })
  select-IsSound f = record {
    capacity = omega (arith, v.capacity, live-select-le p.slots f p.children);
    children_differ = select-AllDiffer f p.children v.children_differ;
    spawning_differ = v.spawning_differ;
    apart = select-Every _ f p.children v.apart;
    children_below = select-Every _ f p.children v.children_below;
    spawning_below = v.spawning_below;
  }

  pub reserve-IsSound :
      length p.spawning + live p.slots p.children < config.max_workers
      → IsSound config (reserve_spawn_slot p).0
  unfolding reserve_spawn_slot
  reserve-IsSound room = record {
    capacity = omega arith;
    children_differ = v.children_differ;
    spawning_differ = (
      below-contains p.next_id p.next_id p.spawning v.spawning_below (omega arith),
      v.spawning_differ,
    );
    apart = new_apart p.next_id p.children p.spawning v.children_below v.apart;
    children_below = Every-suc p.next_id p.children v.children_below;
    spawning_below = (omega arith, Every-suc p.next_id p.spawning v.spawning_below);
  }

  pub abandon-IsSound : (id : ℕ) → IsSound config (finish_spawn_reservation id none p)
  unfolding finish_spawn_reservation
  abandon-IsSound id = record {
    capacity = omega (arith, v.capacity, length-select-le (λ x. not (x == id)) p.spawning);
    children_differ = v.children_differ;
    spawning_differ = select-AllDiffer _ p.spawning v.spawning_differ;
    apart = without_apart id p.children p.spawning v.apart;
    children_below = v.children_below;
    spawning_below = select-Every _ _ p.spawning v.spawning_below;
  }

  pub install-IsSound :
      (id : ℕ) (c : PooledChild)
      → contains id p.spawning ≡ true
      → IsSound config (finish_spawn_reservation id (some c) p)
  unfolding finish_spawn_reservation
  install-IsSound id c listed =
      let fresh = apart-contains id p.children p.spawning v.apart listed in
      record {
        capacity = omega (
          arith,
          v.capacity,
          length-without_lt id p.spawning listed,
          live-append (Dict.insert id c p.slots) p.children id,
          live-insert_other id c p.slots p.children fresh,
        );
        children_differ = append-AllDiffer p.children id v.children_differ fresh;
        spawning_differ = select-AllDiffer _ p.spawning v.spawning_differ;
        apart =
            Every-append _ p.children (id ∷ []) (without_apart id p.children p.spawning v.apart)
              (contains-without_self id p.spawning, tt);
        children_below =
            Every-append _ p.children (id ∷ []) v.children_below
              (Every-contains p.next_id id p.spawning v.spawning_below listed, tt);
        spawning_below = select-Every _ _ p.spawning v.spawning_below;
      }

  pub modify-IsSound :
      (id : ℕ) (f : PooledChild → PooledChild)
      → ((c : PooledChild)
          → Dict.lookup id p.slots ≡ some c
          → is_dead c.state ≡ true
          → is_dead (f c).state ≡ true)
      → IsSound config (record p { slots = modify id f p.slots })
  modify-IsSound id f keeps = go (Dict.lookup id p.slots) refl
    where
      go :
          (o : Option PooledChild)
          → Dict.lookup id p.slots ≡ o
          → IsSound config (record p { slots = write id f o p.slots })
      go none absent = v
      go (some c) at =
          write-IsSound (Dict.insert id (f c) p.slots)
            (live-insert-le id (f c) p.slots p.children (λ h. keeps c at (rw at at h)))

  pub kill-IsSound : (id : ℕ) → IsSound config (take_dead_worker id p)
  unfolding take_dead_worker
  kill-IsSound id = elim (Bool-cases (is_dead (state_of p.slots id))) [
    | inl dead ↦ rw dead v
    | inr lives ↦ rw lives (modify-IsSound id killed (λ c at h. refl))
  ]

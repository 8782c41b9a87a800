-- ===== src/Pool/Shutdown.antt =====
-- src/ida/pool.rs: retiring one worker, and all of them at the end.
use ida_rs_cli.Base.{
  ℕ, true, false, List, [], ◌∷◌, ◌==◌, nat_eq, ◌≡◌, refl, subst, arith, Bool-cases, Option-cases,
  inl, inr, ◌⊎◌,
}
use ida_rs_cli.Base.Dict
use ida_rs_cli.Pool.{
  WorkerPool, is_dead, state_in, state_of, contains, killed, take_dead_worker, forget_slot,
}
use ida_rs_cli.Pool.Counting.{contains-select, contains-without_self}
use ida_rs_cli.Pool.Leases.{state_of-modify_self, state_of-modify_other}

-- `mark_dead_inner` without the call of `ensure_min_workers`.
unfoldable pub mark_dead : ℕ → WorkerPool → WorkerPool
mark_dead id p = forget_slot id (take_dead_worker id p)

unfoldable pub mark_each : List ℕ → WorkerPool → WorkerPool
unfolding mark_dead
mark_each [] p = p
mark_each (id ∷ ids) p = mark_each ids (mark_dead id p)

-- The workers are retired at once; here one after the other.
unfoldable pub shutdown_all : WorkerPool → WorkerPool
unfolding mark_each
shutdown_all p = mark_each p.children p

take_dead_worker-children :
    (id : ℕ) (p : WorkerPool) → (take_dead_worker id p).children ≡ p.children
unfolding take_dead_worker
take_dead_worker-children id p = elim (Bool-cases (is_dead (state_of p.slots id))) [
  | inl dead ↦ rw dead refl
  | inr lives ↦ rw lives refl
]

take_dead_worker-dead :
    (id : ℕ) (p : WorkerPool) → is_dead (state_of (take_dead_worker id p).slots id) ≡ true
unfolding take_dead_worker
take_dead_worker-dead id p = elim (Bool-cases (is_dead (state_of p.slots id))) [
  | inl dead ↦ rw dead dead
  | inr lives ↦ elim (Option-cases (Dict.lookup id p.slots)) [
    | inl absent ↦ absurd (cc (subst (λ o. is_dead (state_in o) ≡ false) absent lives))
    | inr (c, at) ↦ rw lives (rw (state_of-modify_self id killed c p.slots at) refl)
  ]
]

take_dead_worker-stays :
    (id x : ℕ) (p : WorkerPool)
    → is_dead (state_of p.slots x) ≡ true
    → is_dead (state_of (take_dead_worker id p).slots x) ≡ true
unfolding take_dead_worker
take_dead_worker-stays id x p h = elim (Bool-cases (is_dead (state_of p.slots id))) [
  | inl dead ↦ rw dead h
  | inr lives ↦ elim (Bool-cases (id == x)) [
    | inl same ↦
        let q : x ≡ id = ground arith in
        absurd (cc (lives, subst (λ i. is_dead (state_of p.slots i) ≡ true) q h))
    | inr differ ↦ rw lives (rw (state_of-modify_other id x killed p.slots differ) h)
  ]
]

-- The worker `x` is no longer held, and it is stopped.
pub record IsRetired (x : ℕ) (p : WorkerPool) : Type 0 where
  pub released : contains x p.children ≡ false
  pub stopped : is_dead (state_of p.slots x) ≡ true

mark_dead_self : (id : ℕ) (p : WorkerPool) → IsRetired id (mark_dead id p)
unfolding mark_dead forget_slot
mark_dead_self id p = record {
  released = contains-without_self id (take_dead_worker id p).children;
  stopped = take_dead_worker-dead id p;
}

mark_dead_other : (id x : ℕ) (p : WorkerPool) → IsRetired x p → IsRetired x (mark_dead id p)
unfolding mark_dead forget_slot
mark_dead_other id x p r = record {
  released =
      contains-select x _ (take_dead_worker id p).children
        (rw (take_dead_worker-children id p) r.released);
  stopped = take_dead_worker-stays id x p r.stopped;
}

mark_each-IsRetired :
    (ids : List ℕ) (x : ℕ) (p : WorkerPool)
    → IsRetired x p ⊎ (contains x ids ≡ true)
    → IsRetired x (mark_each ids p)
unfolding mark_each
mark_each-IsRetired [] x p (inl r) = r
mark_each-IsRetired [] x p (inr h) = cc
mark_each-IsRetired (id ∷ ids) x p (inl r) =
    mark_each-IsRetired ids x (mark_dead id p) (inl (mark_dead_other id x p r))
mark_each-IsRetired (id ∷ ids) x p (inr h) = elim (Bool-cases (id == x)) [
  | inl same ↦
      mark_each-IsRetired ids x (mark_dead id p)
        (inl (subst (λ i. IsRetired i (mark_dead id p)) (ground arith) (mark_dead_self id p)))
  | inr differ ↦ mark_each-IsRetired ids x (mark_dead id p) (inr (ground arith))
]

-- After `shutdown_all` every worker that the pool held is stopped and no longer held.
pub shutdown_all-IsRetired :
    (x : ℕ) (p : WorkerPool) → contains x p.children ≡ true → IsRetired x (shutdown_all p)
unfolding shutdown_all
shutdown_all-IsRetired x p held = mark_each-IsRetired p.children x p (inr held)

-- ===== src/Pool/Lifetimes.antt =====
-- src/ida/pool.rs: a generation names one lifetime of one database on one worker.
use ida_rs_cli.Base.{
  ℕ, ◌+◌, ◌≤◌, Option, none, some, List, [], ◌∷◌, ◌==◌, ltb, nat_eq, ◌≡◌, refl, sym, ◌∙◌, subst,
  arith, Bool-cases, inl, inr,
}
use ida_rs_cli.Base.Numbers.{word}
use ida_rs_cli.Pool.Databases.{
  PooledDatabaseLease, PooledSessionState, handle, next_database_generation, lease_for_open,
  leased_from, required_handle_for_generation, handle_in, take_handle, is_worker,
  clear_handle_if_worker, is_current, close_if_generation, Call, opens, takes, clears, closes_if,
  step, run,
}

-- The generation of what is held was drawn from the counter, and belongs to the worker if it is `g`.
abbrev pub Binds : ℕ → ℕ → Option PooledDatabaseLease → Type 0
Binds g worker none = Unit
Binds g worker (some lease) = lease.generation ≡ g → lease.worker_id ≡ worker

pub record Bound (g worker : ℕ) (s : PooledSessionState) : Type 0 where
  pub drawn : g ≤ s.next_generation
  pub same : Binds g worker s.handle

open-Bound :
    (g worker : ℕ) (o : Option ℕ) (h : Option PooledDatabaseLease) (n : ℕ)
    → g ≤ n
    → Binds g worker h
    → Bound g worker (lease_for_open o (record { handle = h; next_generation = n })).0
unfolding lease_for_open next_database_generation
open-Bound g worker o (some lease) n le b = record { drawn = le; same = b }
open-Bound g worker o none n le b = elim (Bool-cases (ltb (n + 1) word)) [
  | inr over ↦ rw over (record { drawn = le; same = tt })
  | inl fits ↦ rw fits (drew o)
]
  where
    drew :
        (o : Option ℕ)
        → Bound g worker
            (leased_from (n + 1) o (record { handle = none; next_generation = n + 1 })).0
    drew none = record { drawn = omega arith; same = tt }
    drew (some w) = record { drawn = omega arith; same = λ q. absurd (omega (arith, q, le)) }

step-Bound :
    (g worker : ℕ) (c : Call) (s : PooledSessionState)
    → Bound g worker s
    → Bound g worker (step c s)
unfolding step take_handle clear_handle_if_worker close_if_generation
step-Bound g worker (opens o) s b = open-Bound g worker o s.handle s.next_generation b.drawn b.same
step-Bound g worker takes s b = record { drawn = b.drawn; same = tt }
step-Bound g worker (clears w) s b = elim (Bool-cases (is_worker w s.handle)) [
  | inl yes_worker ↦ rw (yes_worker, step) (record { drawn = b.drawn; same = tt })
  | inr other ↦ rw (other, step) b
]
step-Bound g worker (closes_if k) s b = elim (Bool-cases (is_current k s.handle)) [
  | inl current ↦ rw (current, step) (record { drawn = b.drawn; same = tt })
  | inr other ↦ rw (other, step) b
]

run-Bound :
    (g worker : ℕ) (cs : List Call) (s : PooledSessionState)
    → Bound g worker s
    → Bound g worker (run cs s)
unfolding run
run-Bound g worker [] s b = b
run-Bound g worker (c ∷ cs) s b = run-Bound g worker cs (step c s) (step-Bound g worker c s b)

bound_handle :
    (g worker w : ℕ) (h : Option PooledDatabaseLease)
    → Binds g worker h
    → handle_in (some g) h ≡ handle w
    → w ≡ worker
bound_handle g worker w none b q = cc
bound_handle g worker w (some lease) b q = elim (Bool-cases (lease.generation == g)) [
  | inl same ↦ let p : lease.worker_id ≡ w = let k = rw same at q in cc in sym p ∙ b (ground arith)
  | inr other ↦ absurd (let k = rw other at q in cc)
]

-- An operation that was bound to the generation of the database that its session had open is never
-- sent to another worker: whatever opens, closes and lost workers came since, it gets the same
-- worker or is refused. The generation was drawn from the session's counter.
pub generation_binds :
    (lease : PooledDatabaseLease) (s : PooledSessionState) (cs : List Call) (w : ℕ)
    → s.handle ≡ some lease
    → lease.generation ≤ s.next_generation
    → required_handle_for_generation (some lease.generation) (run cs s) ≡ handle w
    → w ≡ lease.worker_id
unfolding required_handle_for_generation
generation_binds lease s cs w at drawn q =
    bound_handle lease.generation lease.worker_id w (run cs s).handle
      (run-Bound lease.generation lease.worker_id cs s (record {
        drawn = drawn;
        same = subst (Binds lease.generation lease.worker_id) (sym at) (λ e. refl);
      })).same
      q

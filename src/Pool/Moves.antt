-- ===== src/Pool/Moves.antt =====
-- src/ida/pool.rs: how the state of a held worker moves, and which stretch of the code may move it.
use ida_rs_cli.Base.{
  ℕ, ◌+◌, min, Bool, true, false, ◌||◌, String, none, some, List, ◌==◌, ltb, leb, nat_eq, string_eq,
  length, ◌≡◌, sym, ap, subst, arith, Bool-cases, Option-cases, inl, inr, Every,
}
use ida_rs_cli.Base.Dict
use ida_rs_cli.Base.Dict.Laws.{lookup-insert}
use ida_rs_cli.Pool.{
  WorkerPoolConfig, WorkerPool, PooledChild, ChildState, Slots, LeaseAnswer, is_dead, is_idle,
  state_in, state_of, contains, live, modify, killed, reserve_spawn_slot, finish_spawn_reservation,
  lease, take_dead_worker, take_stale_idle_worker, ensure_min_round, begin_release, end_release,
  last_used_in, forget_slot,
}
use ida_rs_cli.Pool.Actions.{
  Action, leases, installs, abandons, begins_release, ends_release, kills, forgets, reaps,
  replenishes, step, IsEnabled,
}
use ida_rs_cli.Pool.Leases.{
  Leased, gives, is_full, starts, lease-Leased, idle_state, state_of-modify_self,
  state_of-modify_other,
}
use ida_rs_cli.Pool.Soundness.{IsSound, apart-contains}

-- The moves of the worker `id`, each with what makes it.
pub data Moves (id : ℕ) : Action → ChildState → ChildState → Type 0 where
  stays : (a : Action) (c : ChildState) → Moves id a c c
  taken :
      (session : String) (now : ℕ)
      → Moves id (leases session now) ChildState.idle (ChildState.leased session)
  closes : (c : ChildState) → is_dead c ≡ false → Moves id (begins_release id) c ChildState.closing
  returns :
      (c : ChildState) (now : ℕ)
      → is_dead c ≡ false
      → Moves id (ends_release id false now) c ChildState.idle
  retires :
      (c : ChildState) (now : ℕ)
      → is_dead c ≡ false
      → Moves id (ends_release id true now) c ChildState.dead
  stops : (c : ChildState) → is_dead c ≡ false → Moves id (kills id) c ChildState.dead
  expires : (sleep_started : ℕ) → Moves id (reaps id sleep_started) ChildState.idle ChildState.dead

stays_at : (id : ℕ) (a : Action) {c d : ChildState} → d ≡ c → Moves id a c d
stays_at id a {c} e = subst (Moves id a c) (sym e) (stays a c)

-- A change of the slot `j`, as the worker `id` sees it.
modify-Moves :
    (a : ℕ → Action) (j id : ℕ) (f : PooledChild → PooledChild) (slots : Slots)
    → (j ≡ id → (c : PooledChild) → Moves id (a id) (state_of slots id) (f c).state)
    → Moves id (a j) (state_of slots id) (state_of (modify j f slots) id)
modify-Moves a j id f slots moved = elim (Bool-cases (j == id)) [
  | inr differ ↦ stays_at id (a j) (state_of-modify_other j id f slots differ)
  | inl same ↦
      subst (λ i. Moves id (a i) (state_of slots id) (state_of (modify i f slots) id))
        (sym (ground arith))
        (elim (Option-cases (Dict.lookup id slots)) [
          | inl absent ↦ stays_at id (a id) (rw absent (ap state_in absent))
          | inr (c, at) ↦
              subst (Moves id (a id) (state_of slots id))
                (sym (state_of-modify_self id f c slots at)) (moved (ground arith) c)
        ])
]

lease-Moves :
    (config : WorkerPoolConfig) (session : String) (now id : ℕ) (p : WorkerPool)
    (r : WorkerPool × LeaseAnswer)
    → Leased config session p r
    → Moves id (leases session now) (state_of p.slots id) (state_of r.0.slots id)
lease-Moves config session now id p _ (gives at q listed idle held others kept) =
    elim (Bool-cases (at == id)) [
      | inr differ ↦ stays_at id (leases session now) (others id differ)
      | inl same ↦
          let e : at ≡ id = ground arith in
          subst (λ c. Moves id (leases session now) c (state_of q.slots id))
            (sym (subst (λ i. state_of p.slots i ≡ ChildState.idle) e idle))
            (subst (Moves id (leases session now) ChildState.idle)
              (sym (subst (λ i. state_of q.slots i ≡ ChildState.leased session) e held))
              (taken session now))
    ]
lease-Moves config session now id p _ (is_full n q none_idle count full kept) =
    stays_at id (leases session now) (ap (λ slots. state_of slots id) kept.0)
lease-Moves config session now id p _ (starts q none_idle room kept) =
    stays_at id (leases session now) (ap (λ slots. state_of slots id) kept.0)

module _ (config : WorkerPoolConfig) (id : ℕ) (p : WorkerPool) where
  here :
      (j : ℕ)
      → j ≡ id
      → is_dead (state_of p.slots j) ≡ false
      → is_dead (state_of p.slots id) ≡ false
  here j = subst (λ i. is_dead (state_of p.slots i) ≡ false)

  begin_release-Moves :
      (j : ℕ)
      → Moves id (begins_release j) (state_of p.slots id) (state_of (begin_release j p).0.slots id)
  unfolding begin_release
  begin_release-Moves j = elim (Bool-cases (is_dead (state_of p.slots j))) [
    | inl dead ↦ rw dead (stays (begins_release j) _)
    | inr lives ↦ rw lives (
        modify-Moves begins_release j id _ p.slots
          (λ e c. closes (state_of p.slots id) (here j e lives)))
  ]

  kill-Moves :
      (j : ℕ) → Moves id (kills j) (state_of p.slots id) (state_of (take_dead_worker j p).slots id)
  unfolding take_dead_worker
  kill-Moves j = elim (Bool-cases (is_dead (state_of p.slots j))) [
    | inl dead ↦ rw dead (stays (kills j) _)
    | inr lives ↦ rw lives (
        modify-Moves kills j id killed p.slots
          (λ e c. stops (state_of p.slots id) (here j e lives)))
  ]

  end_release-Moves :
      (j : ℕ) (retiring : Bool) (now : ℕ)
      → Moves id
          (ends_release j retiring now)
          (state_of p.slots id)
          (state_of (end_release j retiring now p).slots id)
  unfolding end_release take_dead_worker
  end_release-Moves j true now = elim (Bool-cases (is_dead (state_of p.slots j))) [
    | inl dead ↦ rw dead (stays (ends_release j true now) _)
    | inr lives ↦ rw lives (
        modify-Moves (λ i. ends_release i true now) j id killed p.slots
          (λ e c. retires (state_of p.slots id) now (here j e lives)))
  ]
  end_release-Moves j false now = elim (Bool-cases (is_dead (state_of p.slots j))) [
    | inl dead ↦ rw dead (stays (ends_release j false now) _)
    | inr lives ↦ rw lives (
        modify-Moves (λ i. ends_release i false now) j id _ p.slots
          (λ e c. returns (state_of p.slots id) now (here j e lives)))
  ]

  reap-Moves :
      (j sleep_started : ℕ)
      → Moves id
          (reaps j sleep_started)
          (state_of p.slots id)
          (state_of (take_stale_idle_worker config j sleep_started p).0.slots id)
  unfolding take_stale_idle_worker
  reap-Moves j sleep_started =
      elim (Bool-cases (leb (length p.spawning + live p.slots p.children) config.min_workers)) [
        | inl few ↦ rw few (stays (reaps j sleep_started) _)
        | inr more ↦ elim (Bool-cases (is_idle (state_of p.slots j))) [
          | inr busy ↦ rw (more, busy) (stays (reaps j sleep_started) _)
          | inl idle ↦
              elim (Bool-cases (ltb sleep_started (last_used_in (Dict.lookup j p.slots)))) [
                | inl used ↦ rw (more, idle, used) (stays (reaps j sleep_started) _)
                | inr stale ↦
                    rw (more, idle, stale)
                      (modify-Moves (λ i. reaps i sleep_started) j id killed p.slots
                        (λ at c.
                          expired sleep_started
                            (subst (λ i. is_idle (state_of p.slots i) ≡ true) at idle)))
              ]
        ]
      ]
    where
      expired :
          (sleep_started : ℕ)
          → is_idle (state_of p.slots id) ≡ true
          → Moves id (reaps id sleep_started) (state_of p.slots id) ChildState.dead
      expired sleep_started e =
          subst (λ d. Moves id (reaps id sleep_started) d ChildState.dead) (sym (idle_state _ e))
            (expires sleep_started)

  replenish-Moves :
      Moves id replenishes (state_of p.slots id) (state_of (ensure_min_round config p).0.slots id)
  unfolding ensure_min_round reserve_spawn_slot
  replenish-Moves =
      elim (Bool-cases (
        min config.min_workers config.max_workers == 0
        || (leb (min config.min_workers config.max_workers) (length p.spawning + length p.children)
            || leb config.max_workers (length p.spawning + length p.children)))) [
              | inl enough ↦ rw enough (stays replenishes _)
              | inr short ↦ rw short (stays replenishes _)
            ]

  abandon-Moves :
      (j : ℕ)
      → Moves id
          (abandons j)
          (state_of p.slots id)
          (state_of (finish_spawn_reservation j none p).slots id)
  unfolding finish_spawn_reservation
  abandon-Moves j = stays (abandons j) _

  install-Moves :
      (j : ℕ) (child : PooledChild)
      → (j == id) ≡ false
      → Moves id
          (installs j child)
          (state_of p.slots id)
          (state_of (finish_spawn_reservation j (some child) p).slots id)
  unfolding finish_spawn_reservation
  install-Moves j child differ =
      stays_at id (installs j child) (ground (arith, lookup-insert id j child p.slots))

differ-contains :
    (xs ys : List ℕ) (j id : ℕ)
    → Every (λ x. contains x ys ≡ false) xs
    → contains id xs ≡ true
    → contains j ys ≡ true
    → (j == id) ≡ false
differ-contains xs ys j id apart held reserved = elim (Bool-cases (j == id)) [
  | inr differ ↦ differ
  | inl same ↦ cc (
    held,
    apart-contains id xs ys apart (subst (λ i. contains i ys ≡ true) (ground arith) reserved),
  )
]

-- While the pool is sound, the state of a worker that it holds moves only as `Moves` lists. A leased
-- worker so stays leased to its session until that worker is released or killed: no other lease,
-- no reaping and no start of a worker touches it. A dead worker stays dead.
pub step-Moves :
    (config : WorkerPoolConfig) (a : Action) (p : WorkerPool) (id : ℕ)
    → IsSound config p
    → IsEnabled a p
    → contains id p.children ≡ true
    → Moves id a (state_of p.slots id) (state_of (step config a p).slots id)
unfolding step forget_slot
step-Moves config (leases session now) p id v e held =
    lease-Moves config session now id p (lease config session now p)
      (lease-Leased config session now p)
step-Moves config (installs j child) p id v e held =
    install-Moves config id p j child (differ-contains p.children p.spawning j id v.apart held e.0)
step-Moves config (abandons j) p id v e held = abandon-Moves config id p j
step-Moves config (begins_release j) p id v e held = begin_release-Moves config id p j
step-Moves config (ends_release j retiring now) p id v e held =
    end_release-Moves config id p j retiring now
step-Moves config (kills j) p id v e held = kill-Moves config id p j
step-Moves config (forgets j) p id v e held = stays (forgets j) _
step-Moves config (reaps j sleep_started) p id v e held = reap-Moves config id p j sleep_started
step-Moves config replenishes p id v e held = replenish-Moves config id p

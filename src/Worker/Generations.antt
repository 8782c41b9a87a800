-- ===== src/Worker/Generations.antt =====
-- Generations name database lifetimes: none comes back, and a request bound to one touches no other.
use ida_rs_cli.Base.{
  ℕ, suc, ◌≤◌, ◌<◌, Bool, true, false, ◌&&◌, Option, none, some, List, [], ◌∷◌, String, ltb,
  if◌then◌else◌, nat_eq, ◌≡◌, refl, subst, Bool-cases, inl, inr, arith,
}
use ida_rs_cli.Base.Numbers.{word}
use ida_rs_cli.Handlers.{ToolError, database_replaced}
use ida_rs_cli.Worker.{
  WorkerState, Request, open_path, close, close_if_generation, bound, cancellable, work, shutdown,
  Answers, Init, initialized, init_failed, Response, failed, conditionally_closed, closes,
  next_generation, reopened, newly_opened, handle_open, dispatch, handle, pass_initialized, pass,
  require_generation, same_generation, rejected, has_token,
}

-- The generation is one that was given out, and its counter is a `u64`.
abbrev IsGiven : Option ℕ → ℕ → Type 0
IsGiven none n = Unit
IsGiven (some g) n = g ≤ n

abbrev SameLife : Option String → Option ℕ → Type 0
SameLife none none = Unit
SameLife none (some g) = ⊥
SameLife (some path) none = ⊥
SameLife (some path) (some g) = Unit

-- While the loop runs, there is a generation exactly when a database is open.
pub record IsValid (s : WorkerState) : Type 0 where
  pub given : IsGiven s.database_generation s.next_database_generation
  pub counter : s.next_database_generation < word
  pub same_life : s.running ≡ true → SameLife s.idb s.database_generation

-- A generation that was given out and is not the current one.
pub record IsRetired (g : ℕ) (s : WorkerState) : Type 0 where
  pub past : g ≤ s.next_database_generation
  pub other : same_generation g s.database_generation ≡ false

abbrev pub Kept : ℕ → WorkerState → Type 0
Kept g s = IsValid s × IsRetired g s

next_generation-Kept :
    (g : ℕ) (path : String) (s : WorkerState)
    → s.database_generation ≡ none
    → Kept g s
    → Kept g (next_generation path s).0
unfolding next_generation
next_generation-Kept g path s empty (v, r) =
    elim (Bool-cases (ltb (suc s.next_database_generation) word)) [
      | inl t ↦ rw t (
        record { given = omega arith; counter = ground arith; same_life = λ e. tt },
        record { past = omega (arith, r.past); other = let p = r.past in ground arith },
      )
      | inr f ↦ rw f (
        record { given = v.given; counter = v.counter; same_life = λ e. rw empty tt },
        record { past = r.past; other = r.other },
      )
    ]

if-Kept :
    (g : ℕ) (b : Bool) (x y : WorkerState × Response)
    → Kept g x.0
    → Kept g y.0
    → Kept g (if b then x else y).0
if-Kept g true x y k l = k
if-Kept g false x y k l = l

reopened-Kept :
    (g : ℕ) (path : String) (o : Option ℕ) (s : WorkerState)
    → s.database_generation ≡ o
    → Kept g s
    → Kept g (reopened path o s).0
reopened-Kept g path none s e k = next_generation-Kept g path s e k
reopened-Kept g path (some h) s e k = k

life_none : (gen : Option ℕ) → SameLife none gen → gen ≡ none
life_none none l = refl
life_none (some g) l = absurd l

fresh-Kept :
    (g : ℕ) (path : String) (e : Option ToolError) (s : WorkerState)
    → s.database_generation ≡ none
    → Kept g s
    → Kept g (newly_opened path e s).0
fresh-Kept g path none s n k = next_generation-Kept g path s n k
fresh-Kept g path (some x) s n k = k

handle_open-Kept :
    (g : ℕ) (a : Answers) (path : String) (i : Option String) (s : WorkerState)
    → s.idb ≡ i
    → s.running ≡ true
    → Kept g s
    → Kept g (handle_open a path i s).0
unfolding handle_open
handle_open-Kept g a path none s n r k =
    fresh-Kept g path a.open_error s
      (life_none s.database_generation
        (subst (λ i. SameLife i s.database_generation) n (k.0.same_life r)))
      k
handle_open-Kept g a path (some current) s n r k =
    if-Kept g a.paths_match _ _ (reopened-Kept g current s.database_generation s refl k) k

closed-Kept : (g : ℕ) (s : WorkerState) → Kept g s → Kept g (closes s)
closed-Kept g s (v, r) = (
  record { given = tt; counter = v.counter; same_life = λ e. tt },
  record { past = r.past; other = refl },
)

stopped-Kept :
    (g : ℕ) (s : WorkerState) → Kept g s → Kept g (record s { idb = none; running = false })
stopped-Kept g s (v, r) = (
  record { given = v.given; counter = v.counter; same_life = λ e. absurd (cc) },
  record { past = r.past; other = r.other },
)

dispatch-Kept :
    (g : ℕ) (a : Answers) (req : Request) (s : WorkerState)
    → s.running ≡ true
    → Kept g s
    → Kept g (dispatch a req s).0
unfolding dispatch
dispatch-Kept g a (open_path path) s r k =
    if-Kept g a.token_cancelled _ _ k (handle_open-Kept g a path s.idb s refl r k)
dispatch-Kept g a close s r k = closed-Kept g s k
dispatch-Kept g a (close_if_generation h) s r k =
    if-Kept g (same_generation h s.database_generation) _ _ (closed-Kept g s k) k
dispatch-Kept g a (bound e) s r k = k
dispatch-Kept g a cancellable s r k = k
dispatch-Kept g a work s r k = k
dispatch-Kept g a shutdown s r k = stopped-Kept g s k

rejected-Kept :
    (g : ℕ) (m : String) (req : Request) (s : WorkerState) → Kept g s → Kept g (rejected m req s).0
rejected-Kept g m (open_path path) s k = k
rejected-Kept g m close s k = k
rejected-Kept g m (close_if_generation h) s k = k
rejected-Kept g m (bound e) s k = k
rejected-Kept g m cancellable s k = k
rejected-Kept g m work s k = k
rejected-Kept g m shutdown s k = stopped-Kept g s k

handle-Kept :
    (g : ℕ) (a : Answers) (req : Request) (mismatch : Option String) (s : WorkerState)
    → s.running ≡ true
    → Kept g s
    → Kept g (handle a req mismatch s).0
unfolding handle
handle-Kept g a req none s r k = dispatch-Kept g a req s r k
handle-Kept g a req (some m) s r k = rejected-Kept g m req s k

init-Kept :
    (g : ℕ) (a : Answers) (req : Request) (s : WorkerState) (init : Init)
    → s.running ≡ true
    → Kept g s
    → Kept g (pass_initialized a req s init).0
unfolding pass_initialized
init-Kept g a req s (init_failed text) r k = k
init-Kept g a req s (initialized m) r (v, w) = handle-Kept g a req m _ r (
  record { given = v.given; counter = v.counter; same_life = v.same_life },
  record { past = w.past; other = w.other },
)

pass-Kept :
    (g : ℕ) (a : Answers) (req : Request) (s : WorkerState)
    → s.running ≡ true
    → Kept g s
    → Kept g (pass a req s).0
unfolding pass
pass-Kept g a req s r k =
    if-Kept g s.library_initialized _ _ (handle-Kept g a req s.version_mismatch s r k)
      (if-Kept g (has_token req && a.token_cancelled) _ _ k (init-Kept g a req s a.init r k))

-- The loop on a sequence of requests: it ends with the first that stops it.
abbrev pub runs : List (Answers × Request) → WorkerState → WorkerState
runs [] s = s
runs ((a, req) ∷ es) s = let next = runs es (pass a req s).0 in if s.running then next else s

runs-Kept :
    (g : ℕ) (es : List (Answers × Request)) (s : WorkerState) → Kept g s → Kept g (runs es s)
runs-Kept g [] s k = k
runs-Kept g ((a, req) ∷ es) s k = elim (Bool-cases s.running) [
  | inl t ↦ simp (t) (runs-Kept g es (pass a req s).0 (pass-Kept g a req s t k))
  | inr f ↦ simp (f) k
]

closes-Kept :
    (g : ℕ) (s : WorkerState) → IsValid s → s.database_generation ≡ some g → Kept g (closes s)
closes-Kept g s v e = (
  record { given = tt; counter = v.counter; same_life = λ r. tt },
  record { past = subst (λ o. IsGiven o s.next_database_generation) e v.given; other = refl },
)

-- Once the database of a generation is closed, then whatever requests the loop has served since, with new
-- databases opened among them, a request bound to that generation is refused as replaced, and a close that
-- is conditional on it closes nothing: generations do not come back.
pub closed_for_ever :
    (g : ℕ) (s : WorkerState) (es : List (Answers × Request)) (a : Answers)
    → IsValid s
    → s.database_generation ≡ some g
    → (dispatch a (bound (some g)) (runs es (closes s))
        ≡ (runs es (closes s), failed database_replaced))
      × (dispatch a (close_if_generation g) (runs es (closes s))
          ≡ (runs es (closes s), conditionally_closed false))
unfolding dispatch require_generation
closed_for_ever g s es a v e =
    let u = runs es (closes s) in
    let other : same_generation g u.database_generation ≡ false =
      (runs-Kept g es (closes s) (closes-Kept g s v e)).1.other in
    (rw other refl, rw other refl)

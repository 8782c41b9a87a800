-- ===== src/Tasks/Entry/Laws.antt =====
-- What every method of a task entry keeps: who owns it, its key, its age, its outcome once settled.
use ida_rs_cli.Base.{
  ℕ, Bool, true, false, String, is_some, Option, none, some, nat_eq, ◌≡◌, refl, arith,
}
use ida_rs_cli.Tasks.{Now, TaskEntry, TaskStatus, is_running, fire}
use ida_rs_cli.Tasks.Entry
use ida_rs_cli.Tasks.Entry.{fire_token}

abbrev pub is_completed : TaskStatus → Bool
is_completed TaskStatus.completed = true
is_completed _ = false

abbrev pub token_fired : Option ℕ → (ℕ → Bool) → Bool
token_fired none fired = true
token_fired (some t) fired = fired t

-- Cancelling a token leaves no other token less cancelled.
abbrev pub Fires : (ℕ → Bool) → (ℕ → Bool) → Type 0
Fires fired fired' = (t : ℕ) → fired t ≡ true → fired' t ≡ true

pub fire-Fires : (u : ℕ) (fired : ℕ → Bool) → Fires fired (fire u fired)
unfolding fire
fire-Fires u fired t h = ground arith

pub fire_self : (t : ℕ) (fired : ℕ → Bool) → fire t fired t ≡ true
unfolding fire
fire_self t fired = ground arith

pub fire_token-Fires : (o : Option ℕ) (fired : ℕ → Bool) → Fires fired (fire_token o fired)
fire_token-Fires none fired t h = h
fire_token-Fires (some u) fired t h = fire-Fires u fired t h

pub fire_token_self : (o : Option ℕ) (fired : ℕ → Bool) → token_fired o (fire_token o fired) ≡ true
fire_token_self none fired = refl
fire_token_self (some u) fired = fire_self u fired

token_fired_mono :
    (o : Option ℕ) (fired fired' : ℕ → Bool)
    → Fires fired fired'
    → token_fired o fired ≡ true
    → token_fired o fired' ≡ true
token_fired_mono none fired fired' m h = h
token_fired_mono (some t) fired fired' m h = m t h

module _ {V : Type 0} where
  -- What holds of each entry: a settled task has no cancellation pending, a pending cancellation
  -- has reached the token that was registered, and there is a result exactly on completion.
  pub record EntryIsValid (fired : ℕ → Bool) (id : String) (e : TaskEntry V) : Type 0 where
    pub named : e.state.id ≡ id
    pub quiet : is_running e.state.status ≡ false → e.cancel_requested ≡ none
    pub armed : is_some e.cancel_requested ≡ true → token_fired e.cancel_token fired ≡ true
    pub resulted : is_some e.state.result ≡ is_completed e.state.status

  -- A step of one entry at time `now`.
  pub record EntryStep (now : ℕ) (e e' : TaskEntry V) : Type 0 where
    pub same_owner : e'.owner ≡ e.owner
    pub same_key : e'.state.key ≡ e.state.key
    pub same_birth : e'.state.created_at ≡ e.state.created_at
    pub final : is_running e.state.status ≡ false → e'.state ≡ e.state
    pub stamped :
        is_running e.state.status ≡ true
        → is_running e'.state.status ≡ false
        → e'.state.updated_at ≡ now

  pub EntryStep-refl : (now : ℕ) (e : TaskEntry V) → EntryStep now e e
  EntryStep-refl now e = ground arith

  pub EntryIsValid-Fires :
      (fired fired' : ℕ → Bool) (id : String) (e : TaskEntry V)
      → Fires fired fired'
      → EntryIsValid fired id e
      → EntryIsValid fired' id e
  EntryIsValid-Fires fired fired' id e m v = record {
    named = v.named;
    quiet = v.quiet;
    armed = λ h. token_fired_mono e.cancel_token fired fired' m (v.armed h);
    resulted = v.resulted;
  }

  -- A method that keeps entries valid, and moves them only as `EntryStep` allows.
  abbrev pub Keeps : (now : ℕ) (fired fired' : ℕ → Bool) → TaskEntry V → TaskEntry V → Type 0
  Keeps now fired fired' e e' =
      EntryStep now e e' × ((id : String) → EntryIsValid fired id e → EntryIsValid fired' id e')

module _ {V : Type 0} (now : Now) (fired : ℕ → Bool) (e : TaskEntry V) where
  pub complete-Keeps :
      (result : V) → Keeps now.instant fired fired e (Entry.complete now result e).0
  unfolding Entry.complete
  complete-Keeps result = (ground arith, λ id v. ground arith)

  pub fail-Keeps : (error : String) → Keeps now.instant fired fired e (Entry.fail now error e).0
  unfolding Entry.fail
  fail-Keeps error = (ground arith, λ id v. ground arith)

  pub fail_after_cleanup_error-Keeps :
      (error : String)
      → Keeps now.instant fired fired e (Entry.fail_after_cleanup_error now error e).0
  unfolding Entry.fail_after_cleanup_error
  fail_after_cleanup_error-Keeps error = (ground arith, λ id v. ground arith)

  pub finish_cancelled-Keeps :
      (message : String) → Keeps now.instant fired fired e (Entry.finish_cancelled now message e).0
  unfolding Entry.finish_cancelled
  finish_cancelled-Keeps message = (ground arith, λ id v. ground arith)

  pub update_message-Keeps :
      (message : String) → Keeps now.instant fired fired e (Entry.update_message now message e)
  unfolding Entry.update_message
  update_message-Keeps message = (ground arith, λ id v. ground arith)

  -- A request settles nothing, so it is a step at any time.
  pub request_cancel-Keeps :
      (at : ℕ) (message : String)
      → let c = Entry.request_cancel now message e fired in Keeps at fired c.fired e c.entry
  unfolding Entry.request_cancel
  request_cancel-Keeps at message =
      (ground arith, λ id v. ground (arith, fire_token_self e.cancel_token fired))

  pub request_cancel-Fires :
      (message : String) → Fires fired (Entry.request_cancel now message e fired).fired
  unfolding Entry.request_cancel
  request_cancel-Fires message t h = ground (arith, fire_token-Fires e.cancel_token fired t h)

module _ {V : Type 0} (now : ℕ) (fired : ℕ → Bool) (e : TaskEntry V) (token : ℕ) where
  pub set_cancel_token-Keeps :
      let (e', fired') = Entry.set_cancel_token (some token) e fired in Keeps now fired fired' e e'
  unfolding Entry.set_cancel_token
  set_cancel_token-Keeps = (ground arith, λ id v. ground (arith, fire_self token fired))

  pub set_cancel_token-Fires : Fires fired (Entry.set_cancel_token (some token) e fired).1
  unfolding Entry.set_cancel_token
  set_cancel_token-Fires t h = ground (arith, fire-Fires token fired t h)

-- ===== src/Tasks/Calls/Steps.antt =====
-- Each call on one task has the shape `Touch`.
use ida_rs_cli.Base.{
  ℕ, true, false, String, is_some, Option, none, some, ◌≡◌, refl, arith, Bool-cases, inl, inr, ◌||◌,
  string_eq,
}
use ida_rs_cli.Base.Dict
use ida_rs_cli.Tasks.{Now, TaskOwner, TaskEntry, TaskRegistry, is_running}
use ida_rs_cli.Tasks.Entry
use ida_rs_cli.Tasks.Entry.Laws.{
  complete-Keeps, fail-Keeps, fail_after_cleanup_error-Keeps, finish_cancelled-Keeps,
  update_message-Keeps, request_cancel-Keeps, request_cancel-Fires, set_cancel_token-Keeps,
  set_cancel_token-Fires,
}
use ida_rs_cli.Tasks.Registry
use ida_rs_cli.Tasks.Registry.{
  settle_found, owned_by, complete_or_defer_found, set_token_found, update_found, cancel_found,
  finish_cancelled_found, decision_of, completes,
}
use ida_rs_cli.Tasks.Calls.Touch.{Touch, idle, wrote, same, settle_found-Touch}

module _ {V : Type 0} (swept : ℕ) (now : Now) (id : String) (r : TaskRegistry V) where
  pub complete-Touch : (v : V) → Touch now.instant swept r (Registry.complete swept now id v r).0
  unfolding Registry.complete
  complete-Touch v =
      settle_found-Touch swept now id (Entry.complete now v) (Dict.lookup id r.entries) r
        (λ e. complete-Keeps now r.fired e v) refl

  pub fail-Touch :
      (error : String) → Touch now.instant swept r (Registry.fail swept now id error r).0
  unfolding Registry.fail
  fail-Touch error =
      settle_found-Touch swept now id (Entry.fail now error) (Dict.lookup id r.entries) r
        (λ e. fail-Keeps now r.fired e error) refl

  pub fail_after_cleanup_error-Touch :
      (error : String)
      → Touch now.instant swept r (Registry.fail_after_cleanup_error swept now id error r).0
  unfolding Registry.fail_after_cleanup_error
  fail_after_cleanup_error-Touch error =
      settle_found-Touch swept now id (Entry.fail_after_cleanup_error now error)
        (Dict.lookup id r.entries) r (λ e. fail_after_cleanup_error-Keeps now r.fired e error) refl

  pub complete_with_cancel_token-Touch :
      (v : V) (token : ℕ) (message : String)
      → Touch now.instant swept r
          (Registry.complete_with_cancel_token swept now id v token message r).0
  unfolding Registry.complete_with_cancel_token
  complete_with_cancel_token-Touch v token message =
      settle_found-Touch swept now id _ (Dict.lookup id r.entries) r
        (λ e. elim (Bool-cases (r.fired token)) [
          | inl f ↦ rw f (finish_cancelled-Keeps now r.fired e message)
          | inr f ↦ rw f (complete-Keeps now r.fired e v)
        ])
        refl

  defer-Touch :
      (v : V) (token : ℕ) (o : Option (TaskEntry V))
      → Dict.lookup id r.entries ≡ o
      → Touch now.instant swept r (complete_or_defer_found swept now id v token o r).0
  unfolding complete_or_defer_found
  defer-Touch v token none found = idle false (same r.fired) refl
  defer-Touch v token (some e) found = elim (Bool-cases (is_running e.state.status)) [
    | inr stopped ↦ rw stopped (idle false (same r.fired) refl)
    | inl runs ↦ rw runs (elim (Bool-cases (r.fired token || is_some e.cancel_requested)) [
      | inl pending ↦ rw pending (idle false (same r.fired) refl)
      | inr free ↦ rw free (
          wrote (completes (decision_of (Entry.complete now v e).1)) id e (Entry.complete now v e).0
            (same r.fired) found (complete-Keeps now r.fired e v) refl)
    ])
  ]

  pub complete_or_defer_cancellation-Touch :
      (v : V) (token : ℕ)
      → Touch now.instant swept r (Registry.complete_or_defer_cancellation swept now id v token r).0
  unfolding Registry.complete_or_defer_cancellation
  complete_or_defer_cancellation-Touch v token = defer-Touch v token (Dict.lookup id r.entries) refl

  pub set_cancel_token-Touch :
      (token : ℕ) → Touch now.instant swept r (Registry.set_cancel_token id token r)
  unfolding Registry.set_cancel_token
  set_cancel_token-Touch token = go (Dict.lookup id r.entries) refl
    where
      go :
          (o : Option (TaskEntry V))
          → Dict.lookup id r.entries ≡ o
          → Touch now.instant swept r (set_token_found id token o r)
      go none found = idle false (same r.fired) refl
      go (some e) found =
          wrote false id e (Entry.set_cancel_token (some token) e r.fired).0
            (set_cancel_token-Fires now.instant r.fired e token) found
            (set_cancel_token-Keeps now.instant r.fired e token) refl

  pub update_message-Touch :
      (message : String) → Touch now.instant swept r (Registry.update_message now id message r)
  unfolding Registry.update_message
  update_message-Touch message = go (Dict.lookup id r.entries) refl
    where
      go :
          (o : Option (TaskEntry V))
          → Dict.lookup id r.entries ≡ o
          → Touch now.instant swept r (update_found now id message o r)
      go none found = idle false (same r.fired) refl
      go (some e) found =
          wrote false id e (Entry.update_message now message e) (same r.fired) found
            (update_message-Keeps now r.fired e message) refl

  pub finish_cancelled-Touch :
      (message : String)
      → Touch now.instant swept r (Registry.finish_cancelled swept now id message r).0
  unfolding Registry.finish_cancelled
  finish_cancelled-Touch message = go (Dict.lookup id r.entries) refl
    where
      go :
          (o : Option (TaskEntry V))
          → Dict.lookup id r.entries ≡ o
          → Touch now.instant swept r (finish_cancelled_found swept now id message o r).0
      go none found = idle false (same r.fired) refl
      go (some e) found =
          wrote (Entry.finish_cancelled now message e).1 id e
            (Entry.finish_cancelled now message e).0 (same r.fired) found
            (finish_cancelled-Keeps now r.fired e message) refl

  owned_by-eq-some :
      (owner : TaskOwner) (o : Option (TaskEntry V)) (e : TaskEntry V)
      → owned_by owner o ≡ some e
      → o ≡ some e
  unfolding owned_by
  owned_by-eq-some owner none e h = h
  owned_by-eq-some owner (some x) e h = ground arith

  pub cancel_for_owner-Touch :
      (at : ℕ) (owner : TaskOwner)
      → Touch at swept r (Registry.cancel_for_owner swept now owner id r).0
  unfolding Registry.cancel_for_owner
  cancel_for_owner-Touch at owner = go (owned_by owner (Dict.lookup id r.entries)) refl
    where
      go :
          (o : Option (TaskEntry V))
          → owned_by owner (Dict.lookup id r.entries) ≡ o
          → Touch at swept r (cancel_found swept now id o r).0
      go none found = idle false (same r.fired) refl
      go (some e) found =
          wrote (Entry.request_cancel now "Cancelled by client" e r.fired).requested id e
            (Entry.request_cancel now "Cancelled by client" e r.fired).entry
            (request_cancel-Fires now r.fired e "Cancelled by client")
            (owned_by-eq-some owner (Dict.lookup id r.entries) e found)
            (request_cancel-Keeps now r.fired e at "Cancelled by client") refl

module _ {V : Type 0} (at swept : ℕ) where
  pub get-Touch : (id : String) (r : TaskRegistry V) → Touch at swept r (Registry.get swept id r).0
  unfolding Registry.get
  get-Touch id r = idle true (same r.fired) refl

  pub get_for_owner-Touch :
      (owner : TaskOwner) (id : String) (r : TaskRegistry V)
      → Touch at swept r (Registry.get_for_owner swept owner id r).0
  unfolding Registry.get_for_owner
  get_for_owner-Touch owner id r = idle true (same r.fired) refl

-- ===== src/Worker/Tokens/Laws.antt =====
-- Who holds the token holds it until it is cleared.
use ida_rs_cli.Base.{
  Bool, true, false, ◌||◌, Option, none, some, List, [], ◌∷◌, String, if◌then◌else◌, ◌==◌,
  string_eq, ◌≡◌, refl, ap, ◌∙◌, Bool-cases, inl, inr, if_pos,
}
use ida_rs_cli.Worker.Tokens.{
  CloseTokenLease, granted, granted_by_override, denied, owned_by, CloseTokenState,
  issue_for_session, is_token, authorize_close,
}

-- Attempts of sessions to have a token, each with the token that would be generated for it.
abbrev pub issues : List (String × String) → CloseTokenState → CloseTokenState
issues [] s = s
issues ((session_id, generated) ∷ rest) s = issues rest (issue_for_session session_id generated s).0

or_false : (b : Bool) → (b || false) ≡ b
or_false true = refl
or_false false = refl

or_true : (b : Bool) → (b || true) ≡ true
or_true true = refl
or_true false = refl

issue-held :
    (session_id generated : String) (lease : CloseTokenLease)
    → (issue_for_session session_id generated (some lease)).0 ≡ some lease
unfolding issue_for_session
issue-held session_id generated lease = elim (Bool-cases (lease.owner_session_id == session_id)) [
  | inl t ↦ simp (t) refl
  | inr f ↦ simp (f) refl
]

issues-held :
    (attempts : List (String × String)) (lease : CloseTokenLease)
    → issues attempts (some lease) ≡ some lease
issues-held [] lease = refl
issues-held ((session_id, generated) ∷ rest) lease =
    ap (λ s. issues rest s) (issue-held session_id generated lease) ∙ issues-held rest lease

-- After a session has been given the token, and whatever sessions ask for one since, the owner of the
-- token stays: another session that asks is told who owns it; a close is granted to the owner and to
-- whoever shows the token, else only by override, and without it is denied.
pub issued_stays :
    (owner token : String) (attempts : List (String × String)) (session_id : String)
    (shown : Option String) (generated : String) (force : Bool)
    → (owner == session_id) ≡ false
    → ((issue_for_session session_id generated
          (issues attempts (issue_for_session owner token none).0)).1
        ≡ owned_by owner)
      × (authorize_close session_id shown force
            (issues attempts (issue_for_session owner token none).0)
          ≡ (if is_token shown token
              then granted
              else if force
              then granted_by_override owner
              else denied owner))
      × (authorize_close owner shown force (issues attempts (issue_for_session owner token none).0)
          ≡ granted)
unfolding issue_for_session authorize_close
issued_stays owner token attempts session_id shown generated force other =
    rw
      (
        issues-held attempts (record { token = token; owner_session_id = owner }),
        other,
        or_false (is_token shown token),
        if_pos (string_eq.dec owner owner) refl true false,
        or_true (is_token shown token),
      )
      (refl, refl, refl)

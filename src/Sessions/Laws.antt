-- ===== src/Sessions/Laws.antt =====
-- What each operation leaves under each session id.
use ida_rs_cli.Base.{
  ℕ, Bool, String, Option, none, some, ◌≡◌, refl, arith, string_eq, ite, if_pos, if_neg,
}
use ida_rs_cli.Base.Dict
use ida_rs_cli.Base.Dict.Laws.{lookup-insert, lookup-remove}
use ida_rs_cli.Sessions.{
  States, SessionDisconnectState, stream_opened, session_closed, stream_closed, stream_closed_found,
  after_open, after_close, or_default,
}

pub lookup-stream_opened :
    (id j : String) (states : States)
    → Dict.lookup id (stream_opened j states).0
      ≡ ite
          (string_eq.dec j id)
          (some (after_open (or_default (Dict.lookup j states))))
          (Dict.lookup id states)
unfolding stream_opened
lookup-stream_opened id j states = lookup-insert id j _ states

pub lookup-session_closed :
    (id j : String) (states : States)
    → Dict.lookup id (session_closed j states)
      ≡ ite (string_eq.dec j id) none (Dict.lookup id states)
unfolding session_closed
lookup-session_closed id j states = lookup-remove id j states

abbrev pub closed_state : ℕ → Bool → Option SessionDisconnectState → Option SessionDisconnectState
closed_state g b none = none
closed_state g b (some s) = some (after_close g b s)

pub lookup-stream_closed :
    (id j : String) (g : ℕ) (b : Bool) (states : States)
    → Dict.lookup id (stream_closed j g b states).0
      ≡ ite (string_eq.dec j id) (closed_state g b (Dict.lookup id states)) (Dict.lookup id states)
unfolding stream_closed
lookup-stream_closed id j g b states = go (Dict.lookup j states) refl
  where
    go :
        (o : Option SessionDisconnectState)
        → Dict.lookup j states ≡ o
        → Dict.lookup id (stream_closed_found j g b o states).0
          ≡ ite
              (string_eq.dec j id)
              (closed_state g b (Dict.lookup id states))
              (Dict.lookup id states)
    go none absent = elim (string_eq.dec j id) [
      | yes p ↦ let gone : Dict.lookup id states ≡ none = rw (← p) absent in rw (if_pos _ p, gone)
      | no p ↦ rw (if_neg _ p)
    ]
    go (some s) found = ground (arith, lookup-insert id j (after_close g b s) states, found)

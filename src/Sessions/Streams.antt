-- ===== src/Sessions/Streams.antt =====
-- src/server/http_config.rs: the registry among its clients: streams, delayed closes, and the sessions
-- that are gone. An event is one stretch of code without an await.
pub mod Counting
use ida_rs_cli.Base.{
  ℕ, suc, ◌+◌, ◌-◌, ◌≤◌, ◌<◌, min, Bool, true, false, ◌&&◌, String, Option, none, some, List, [],
  ◌∷◌, ◌++◌, if◌then◌else◌, ◌==◌, nat_eq, string_eq, length, length-append, ◌≡◌, refl, ap, sym,
  Every, subst, arith, ite, if_pos, if_neg, Bool-cases, inl, inr, ◌∙◌, ◌≢◌,
}
use ida_rs_cli.Base.Dict
use ida_rs_cli.Sessions.Laws.{
  lookup-stream_opened, lookup-stream_closed, lookup-session_closed, closed_state,
}
use ida_rs_cli.Sessions.{
  States, SessionDisconnectState, word, stream_opened, session_closed, stream_closed, should_close,
  should_close_state, or_default, after_open, after_close,
}

-- A stream that the session manager has granted, before `stream_opened` registers it.
pub record Arrival : Type 0 where
  pub session_id : String
  pub close_on_drop : Bool

-- `SessionStreamGuard` with the stream's `close_on_drop`.
pub record Guard : Type 0 where
  pub session_id : String
  pub generation : ℕ
  pub close_on_drop : Bool

-- A delayed close that was spawned.
pub record Delayed : Type 0 where
  pub session_id : String
  pub generation : ℕ

-- `delayed` are the closes that have not checked yet, `approved` those that have found that they should
-- close and have not closed yet. `gone` are the sessions that the session manager has closed,
-- `closing` those of them that the registry is still to forget.
pub record World : Type 0 where
  pub states : States
  pub arriving : List Arrival
  pub open_streams : List Guard
  pub delayed : List Delayed
  pub approved : List Delayed
  pub closing : List String
  pub gone : List String

abbrev pub is_gone : String → List String → Bool
is_gone id [] = false
is_gone id (x ∷ xs) = ite (string_eq.dec x id) true (is_gone id xs)

abbrev pub spawn : String → Option ℕ → List Delayed → List Delayed
spawn id none ds = ds
spawn id (some g) ds = record { session_id = id; generation = g } ∷ ds

-- `stream_opened` of one that has arrived.
abbrev pub registered : World → List Arrival → Arrival → List Arrival → World
registered w before a behind = record w {
  states = (stream_opened a.session_id w.states).0;
  arriving = before ++ behind;
  open_streams =
      record {
        session_id = a.session_id;
        generation = (stream_opened a.session_id w.states).1;
        close_on_drop = a.close_on_drop;
      }
      ∷ w.open_streams;
}

-- One event. Between the stretches of a method that awaits, any other event can happen. The session
-- manager, which is not part of this program, grants no stream of a session that it has closed, does
-- not bring such a session back, and has removed a session whatever its `close_session` answers.
-- Fewer than 2 ^ 64 - 1 streams are open at once.
pub data Step (w : World) : World → Type 0 where
  -- `create_stream`, `create_standalone_stream` or `resume` of the session manager returns.
  arrives :
      (id : String) (close_on_drop : Bool)
      → is_gone id w.gone ≡ false
      → Step w (record w {
        arriving = record { session_id = id; close_on_drop = close_on_drop } ∷ w.arriving;
      })
  -- `stream_opened` behind it.
  opens :
      (before : List Arrival) (a : Arrival) (behind : List Arrival)
      → w.arriving ≡ before ++ a ∷ behind
      → suc (length w.open_streams) < word
      → Step w (registered w before a behind)
  -- `finish(false)` at the stream's end, `finish(close_on_drop)` when it is dropped.
  ends :
      (before : List Guard) (guard : Guard) (behind : List Guard) (abandoned : Bool)
      → w.open_streams ≡ before ++ guard ∷ behind
      → Step w (record w {
        states = (stream_closed guard.session_id guard.generation abandoned w.states).0;
        open_streams = before ++ behind;
        delayed =
            spawn guard.session_id
              (stream_closed guard.session_id guard.generation abandoned w.states).1
              w.delayed;
      })
  -- `close_session` of the session manager, at the client's request.
  closes : (id : String) → Step w (record w { closing = id ∷ w.closing; gone = id ∷ w.gone })
  -- A delayed close finds that it should close the session.
  passes :
      (before : List Delayed) (d : Delayed) (behind : List Delayed)
      → w.delayed ≡ before ++ d ∷ behind
      → should_close d.session_id d.generation w.states ≡ true
      → Step w (record w { delayed = before ++ behind; approved = d ∷ w.approved })
  -- It finds that it should not, and ends.
  lapses :
      (before : List Delayed) (d : Delayed) (behind : List Delayed)
      → w.delayed ≡ before ++ d ∷ behind
      → should_close d.session_id d.generation w.states ≡ false
      → Step w (record w { delayed = before ++ behind })
  -- Its `close_session` of the session manager.
  shuts :
      (before : List Delayed) (d : Delayed) (behind : List Delayed)
      → w.approved ≡ before ++ d ∷ behind
      → Step w (record w {
        approved = before ++ behind;
        closing = d.session_id ∷ w.closing;
        gone = d.session_id ∷ w.gone;
      })
  -- `session_closed` behind a `close_session`, a client's or a delayed one.
  forgets :
      (before : List String) (id : String) (behind : List String)
      → w.closing ≡ before ++ id ∷ behind
      → Step w (record w { states = session_closed id w.states; closing = before ++ behind })

abbrev pub empty : World
empty = record {
  states = [];
  arriving = [];
  open_streams = [];
  delayed = [];
  approved = [];
  closing = [];
  gone = [];
}

pub data Reach : World → Type 0 where
  begin : Reach empty
  next : {w u : World} → Reach w → Step w u → Reach u

-- The streams of a session that are open.
abbrev pub open_on : String → List Guard → ℕ
open_on id [] = 0
open_on id (g ∷ gs) = ite (string_eq.dec g.session_id id) 1 0 + open_on id gs

abbrev pub counted : Option SessionDisconnectState → ℕ
counted none = 0
counted (some s) = s.active_streams

abbrev pub abandoned : Option SessionDisconnectState → Option ℕ
abandoned none = none
abandoned (some s) = s.abandoned_generation

-- The registry counts the open streams of every session that is not gone; it is to forget only
-- sessions that are.
pub record IsCounted (w : World) : Type 0 where
  pub exact :
      (id : String)
      → is_gone id w.gone ≡ false
      → counted (Dict.lookup id w.states) ≡ open_on id w.open_streams
  pub left : Every (λ id. is_gone id w.gone ≡ true) w.closing

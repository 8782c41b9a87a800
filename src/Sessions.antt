-- ===== src/Sessions.antt =====
-- src/server/http_config.rs: when a pooled HTTP session is closed after its client went away. The
-- lock of the registry makes each operation one step; a poisoned lock (a panic under it) is left out.
pub mod Laws
pub mod Streams
pub mod Reconnect
use ida_rs_cli.Base.{
  ℕ, ◌+◌, ◌-◌, ◌%◌, ◌^◌, min, Bool, true, false, ◌&&◌, String, Option, none, some, if◌then◌else◌,
  ◌==◌, nat_eq, string_eq,
}
use ida_rs_cli.Base.Dict
use ida_rs_cli.Base.Dict.{Dict}

-- `u64` counts generations, and so does `usize` streams.
abbrev pub word : ℕ
word = 2 ^ 64

pub record SessionDisconnectState : Type 0 where
  pub generation : ℕ
  pub active_streams : ℕ
  pub abandoned_generation : Option ℕ

abbrev pub States : Type 0
States = Dict String SessionDisconnectState

abbrev pub fresh : SessionDisconnectState
fresh = record { generation = 0; active_streams = 0; abandoned_generation = none }

-- `entry(..).or_default()`.
abbrev pub or_default : Option SessionDisconnectState → SessionDisconnectState
or_default none = fresh
or_default (some s) = s

abbrev pub after_open : SessionDisconnectState → SessionDisconnectState
after_open s = record {
  generation = (s.generation + 1) % word;
  active_streams = min (s.active_streams + 1) (word - 1);
  abandoned_generation = none;
}

-- The states and the generation of the guard.
unfoldable pub stream_opened : String → States → States × ℕ
stream_opened id states =
    let s = after_open (or_default (Dict.lookup id states)) in
    (Dict.insert id s states, s.generation)

unfoldable pub session_closed : String → States → States
session_closed id states = Dict.remove id states

abbrev pub after_close : ℕ → Bool → SessionDisconnectState → SessionDisconnectState
after_close generation abandoned s = record s {
  active_streams = s.active_streams - 1;
  abandoned_generation = if abandoned then some generation else s.abandoned_generation;
}

unfoldable pub stream_closed_found :
    String → ℕ → Bool → Option SessionDisconnectState → States → States × Option ℕ
stream_closed_found id generation abandoned none states = (states, none)
stream_closed_found id generation abandoned (some s) states =
    let s' = after_close generation abandoned s in
    (Dict.insert id s' states, if s'.active_streams == 0 then s'.abandoned_generation else none)

-- With the states, the generation for which a delayed close is spawned, if one is.
unfoldable pub stream_closed : String → ℕ → Bool → States → States × Option ℕ
unfolding stream_closed_found
stream_closed id generation abandoned states =
    stream_closed_found id generation abandoned (Dict.lookup id states) states

abbrev pub is_generation : ℕ → Option ℕ → Bool
is_generation g none = false
is_generation g (some h) = h == g

abbrev pub should_close_state : ℕ → Option SessionDisconnectState → Bool
should_close_state generation none = false
should_close_state generation (some s) =
    is_generation generation s.abandoned_generation && s.active_streams == 0

-- What a delayed close tests once its grace period is over.
unfoldable pub should_close : String → ℕ → States → Bool
should_close id generation states = should_close_state generation (Dict.lookup id states)

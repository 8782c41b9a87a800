-- ===== src/Tests/Sessions.antt =====
-- The session registry on small inputs.
use ida_rs_cli.Base.{ℕ, true, false, some, [], ◌∷◌, ◌≡◌, ◌≤◌, ◌↔◌, refl, arith, string_eq, nat_eq}
use ida_rs_cli.Base.Dict
use ida_rs_cli.Sessions.{stream_opened, stream_closed, stream_closed_found, should_close}
use ida_rs_cli.Sessions.Streams.{
  World, Arrival, Guard, Delayed, Reach, begin, next, arrives, opens, ends, passes, shuts,
  registered, empty, is_gone, open_on, spawn, abandoned,
}
use ida_rs_cli.Sessions.Streams.Counting.{passes_idle}
use ida_rs_cli.Sessions.Reconnect.{here, then, approved_on, reopened_stays}

abbrev arrival : Arrival
arrival = record { session_id = "s"; close_on_drop = true }

abbrev guard : Guard
guard = record { session_id = "s"; generation = 1; close_on_drop = true }

-- One stream was opened and dropped.
abbrev left : World
left = record empty {
  states = (stream_closed "s" 1 true (stream_opened "s" []).0).0;
  delayed = spawn "s" (stream_closed "s" 1 true (stream_opened "s" []).0).1 [];
}

left-Reach : Reach left
unfolding stream_opened Dict.lookup
left-Reach =
    next (next (next begin (arrives "s" true refl)) (opens [] arrival [] refl (omega arith)))
      (ends [] guard [] true refl)

left_wanted : should_close "s" 1 left.states ≡ true
unfolding stream_opened stream_closed stream_closed_found should_close Dict.lookup Dict.insert
    string_eq nat_eq
left_wanted = refl

passes_idle_example :
    (should_close "s" 1 left.states ≡ true)
    ↔ ((open_on "s" left.open_streams ≡ 0) × (abandoned (Dict.lookup "s" left.states) ≡ some 1))
passes_idle_example = passes_idle "s" 1 left-Reach refl

abbrev pending : Delayed
pending = record { session_id = "s"; generation = 1 }

-- Its delayed close is approved, and the client comes back before the session manager closes.
abbrev approved : World
approved = record left { delayed = []; approved = pending ∷ [] }

abbrev back : World
back = record approved { arriving = arrival ∷ [] }

abbrev reopened : World
reopened = registered back [] arrival []

approved-Reach : Reach approved
unfolding stream_opened stream_closed stream_closed_found Dict.lookup Dict.insert string_eq nat_eq
approved-Reach = next left-Reach (passes [] pending [] refl left_wanted)

-- The session is closed under the stream that is open.
raced : (u : World) × Reach u × (is_gone "s" u.gone ≡ true) × (open_on "s" u.open_streams ≡ 1)
unfolding string_eq
raced = (
  _,
  next (next (next approved-Reach (arrives "s" true refl)) (opens [] arrival [] refl (omega arith)))
      (shuts [] pending [] refl),
  refl,
  refl,
)

reopened_stays_example :
    ((g : ℕ) → should_close "s" g reopened.states ≡ false)
    × (approved_on "s" reopened.approved ≤ approved_on "s" back.approved)
reopened_stays_example =
    reopened_stays back (record reopened { arriving = arrival ∷ [] }) [] arrival []
      (then here (arrives "s" true refl) tt)

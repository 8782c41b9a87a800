-- ===== src/Sessions/Reconnect.antt =====
-- A client that comes back: no delayed close of its session is approved from then on.
use ida_rs_cli.Base.{
  ℕ, ◌+◌, ◌≤◌, true, false, String, none, List, [], ◌∷◌, ◌++◌, ite, ◌≡◌, refl, ap, arith, string_eq,
  if_pos, if_neg,
}
use ida_rs_cli.Base.Dict
use ida_rs_cli.Sessions.Laws.{lookup-stream_opened, lookup-stream_closed, lookup-session_closed}
use ida_rs_cli.Sessions.{States, stream_opened, session_closed, stream_closed, should_close}
use ida_rs_cli.Sessions.Streams.{
  Arrival, Delayed, World, Step, arrives, opens, ends, closes, passes, lapses, shuts, forgets,
  abandoned, registered,
}

-- Every event but that a stream of the session is dropped.
abbrev pub IsQuiet : (id : String) → {w u : World} → Step w u → Type 0
IsQuiet id (ends before guard behind true q) = guard.session_id ≡ id → ⊥
IsQuiet id _ = Unit

-- Events from one world to another, in which no stream of the session is dropped.
pub data Onward (id : String) (w : World) : World → Type 0 where
  here : Onward id w w
  then : {u v : World} → Onward id w u → (s : Step u v) → IsQuiet id s → Onward id w v

-- The delayed closes of a session that are approved.
abbrev pub approved_on : String → List Delayed → ℕ
approved_on id [] = 0
approved_on id (d ∷ ds) = ite (string_eq.dec d.session_id id) 1 0 + approved_on id ds

should_close-none :
    (id : String) (g : ℕ) (states : States)
    → abandoned (Dict.lookup id states) ≡ none
    → should_close id g states ≡ false
unfolding should_close
should_close-none id g states h = ground arith

opened-abandoned :
    (id j : String) (states : States)
    → abandoned (Dict.lookup id states) ≡ none
    → abandoned (Dict.lookup id (stream_opened j states).0) ≡ none
opened-abandoned id j states h = ground (arith, lookup-stream_opened id j states)

drained-abandoned :
    (id j : String) (g : ℕ) (states : States)
    → abandoned (Dict.lookup id states) ≡ none
    → abandoned (Dict.lookup id (stream_closed j g false states).0) ≡ none
drained-abandoned id j g states h = ground (arith, lookup-stream_closed id j g false states)

dropped-abandoned :
    (id j : String) (g : ℕ) (states : States)
    → (j ≡ id → ⊥)
    → abandoned (Dict.lookup id states) ≡ none
    → abandoned (Dict.lookup id (stream_closed j g true states).0) ≡ none
dropped-abandoned id j g states differ h =
    rw (lookup-stream_closed id j g true states, if_neg _ differ) h

closed-abandoned :
    (id j : String) (states : States)
    → abandoned (Dict.lookup id states) ≡ none
    → abandoned (Dict.lookup id (session_closed j states)) ≡ none
closed-abandoned id j states h = ground (arith, lookup-session_closed id j states)

approved_on-append :
    (id : String) (ds es : List Delayed)
    → approved_on id (ds ++ es) ≡ approved_on id ds + approved_on id es
approved_on-append id [] es = omega arith
approved_on-append id (d ∷ ds) es = ground (arith, approved_on-append id ds es)

approved_on-rest :
    (id : String) (before : List Delayed) (d : Delayed) (behind : List Delayed)
    → approved_on id (before ++ behind) ≤ approved_on id (before ++ d ∷ behind)
approved_on-rest id before d behind =
    omega (arith, approved_on-append id before behind, approved_on-append id before (d ∷ behind))

-- Nothing wants the session closed, and no more closes of it are approved than `n`.
record IsWanted (id : String) (n : ℕ) (w : World) : Type 0 where
  kept : abandoned (Dict.lookup id w.states) ≡ none
  few : approved_on id w.approved ≤ n

passes-few :
    (id : String) (n : ℕ) (w : World) (d : Delayed)
    → IsWanted id n w
    → should_close d.session_id d.generation w.states ≡ true
    → approved_on id (d ∷ w.approved) ≤ n
passes-few id n w d v h = elim (string_eq.dec d.session_id id) [
  | yes p ↦ absurd (
      cc (
        h,
        p,
        ap (λ k. should_close k d.generation w.states) p,
        should_close-none id d.generation w.states v.kept,
      ))
  | no p ↦ rw (if_neg _ p) (omega (arith, v.few))
]

Step-IsWanted :
    (id : String) (n : ℕ) {w u : World} (s : Step w u)
    → IsQuiet id s
    → IsWanted id n w
    → IsWanted id n u
Step-IsWanted id n {w} (arrives j b h) q v = record { kept = v.kept; few = v.few }
Step-IsWanted id n {w} (opens before a behind e small) q v = record {
  kept = opened-abandoned id a.session_id w.states v.kept;
  few = v.few;
}
Step-IsWanted id n {w} (ends before guard behind true e) q v = record {
  kept = dropped-abandoned id guard.session_id guard.generation w.states q v.kept;
  few = v.few;
}
Step-IsWanted id n {w} (ends before guard behind false e) q v = record {
  kept = drained-abandoned id guard.session_id guard.generation w.states v.kept;
  few = v.few;
}
Step-IsWanted id n {w} (closes j) q v = record { kept = v.kept; few = v.few }
Step-IsWanted id n {w} (passes before d behind e h) q v = record {
  kept = v.kept;
  few = passes-few id n w d v h;
}
Step-IsWanted id n {w} (lapses before d behind e h) q v = record { kept = v.kept; few = v.few }
Step-IsWanted id n {w} (shuts before d behind e) q v = record {
  kept = v.kept;
  few = omega (arith, approved_on-rest id before d behind, ap (approved_on id) e, v.few);
}
Step-IsWanted id n {w} (forgets before j behind e) q v = record {
  kept = closed-abandoned id j w.states v.kept;
  few = v.few;
}

Onward-IsWanted :
    (id : String) (n : ℕ) {w u : World} → Onward id w u → IsWanted id n w → IsWanted id n u
Onward-IsWanted id n here v = v
Onward-IsWanted id n (then o s q) v = Step-IsWanted id n s q (Onward-IsWanted id n o v)

-- Once a stream of a session is registered, no delayed close of that session is approved until a
-- stream of it is dropped again, whatever else happens: its check finds no reason to close, whatever
-- the generation, and the approved closes of the session do not become more. Those that were
-- approved before the stream was registered are not called off.
pub reopened_stays :
    (w v : World) (before : List Arrival) (a : Arrival) (behind : List Arrival)
    → Onward a.session_id (registered w before a behind) v
    → ((g : ℕ) → should_close a.session_id g v.states ≡ false)
      × (approved_on a.session_id v.approved ≤ approved_on a.session_id w.approved)
reopened_stays w v before a behind o =
    let end = Onward-IsWanted a.session_id (approved_on a.session_id w.approved) o (record {
      kept = rw (lookup-stream_opened a.session_id a.session_id w.states, if_pos _ refl);
      few = omega arith;
    }) in
    (λ g. should_close-none a.session_id g v.states end.kept, end.few)

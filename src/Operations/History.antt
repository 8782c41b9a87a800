-- ===== src/Operations/History.antt =====
-- The event buffer against the full history: it holds the last events, and nothing else.
use mathlib.Core.List.{append_assoc, append-nil}
use ida_rs_cli.Base.{
  ℕ, zero, suc, ◌-◌, ◌≤◌, ◌<◌, String, Option, none, some, List, [], ◌∷◌, ◌++◌, ◌==◌, nat_eq,
  string_eq, length, drop, length-append, length-drop, ◌≡◌, false, refl, sym, ap, ◌∙◌, arith,
  dec_le, if_pos,
}
use ida_rs_cli.Base.Dict
use ida_rs_cli.Operations.{
  Clocks, OperationStatus, OperationState, OperationEvent, OperationRegistry, event_of, push_event,
  new, started, start, progressed, record_progress, record_progress_found, finished, finish,
  finish_found, recent_event_cap,
}

pub data Call : Type 0 where
  starts : Clocks → String → String → String → Call
  progresses : Clocks → String → String → String → Call
  finishes : Clocks → String → OperationStatus → String → Call

unfoldable pub step : Call → OperationRegistry → OperationRegistry
step (starts clocks id tool target) r = start clocks id tool target r
step (progresses clocks id phase message) r = (record_progress clocks id phase message r).0
step (finishes clocks id status message) r = (finish clocks id status message r).0

unfoldable pub run : List Call → OperationRegistry → OperationRegistry
run [] r = r
run (c ∷ cs) r = run cs (step c r)

-- The event of a call on the operation found, if there is one.
abbrev event_if : (OperationState → OperationEvent) → Option OperationState → List OperationEvent
event_if f none = []
event_if f (some s) = f s ∷ []

-- What a call reports: `start` always, the others about a known operation only.
unfoldable pub reported : Call → OperationRegistry → List OperationEvent
reported (starts clocks id tool target) r =
    event_of clocks.event_at (started clocks id tool target) ∷ []
reported (progresses clocks id phase message) r =
    event_if (λ s. event_of clocks.event_at (progressed clocks phase message s))
      (Dict.lookup id r.current)
reported (finishes clocks id status message) r =
    event_if (λ s. event_of clocks.event_at (finished clocks status message s))
      (Dict.lookup id r.current)

unfoldable pub history : List Call → OperationRegistry → List OperationEvent
history [] r = []
history (c ∷ cs) r = reported c r ++ history cs (step c r)

module _ {ℓ} {A : Type ℓ} where
  abbrev pub last : ℕ → List A → List A
  last n xs = drop (length xs - n) xs

  drop-drop_one : (n : ℕ) (xs : List A) → drop 1 (drop n xs) ≡ drop (suc n) xs
  drop-drop_one zero xs = refl
  drop-drop_one (suc n) [] = refl
  drop-drop_one (suc n) (x ∷ xs) = drop-drop_one n xs

  drop-append : (n : ℕ) (xs ys : List A) → n ≤ length xs → drop n (xs ++ ys) ≡ drop n xs ++ ys
  drop-append zero xs ys h = refl
  drop-append (suc n) [] ys h = elim h [ ]
  drop-append (suc n) (x ∷ xs) ys h = drop-append n xs ys (omega arith)

not_full : (n : ℕ) → n < 20 → (n == 20) ≡ false
not_full n h = ground arith

push_event-last :
    (e : OperationEvent) (h : List OperationEvent)
    → push_event e (last recent_event_cap h) ≡ last recent_event_cap (h ++ e ∷ [])
unfolding push_event
push_event-last e h = elim (dec_le 20 (length h)) [
  | yes long ↦
      let full : length (last 20 h) ≡ 20 = omega (arith, length-drop (length h - 20) h) in
      let grown : length (h ++ e ∷ []) - 20 ≡ suc (length h - 20) =
        omega (arith, length-append h (e ∷ [])) in
      rw (if_pos _ full, grown)
        (ap (λ x. x ++ e ∷ []) (drop-drop_one (length h - 20) h)
          ∙ sym (drop-append (suc (length h - 20)) h (e ∷ []) (omega arith)))
  | no short ↦
      let all : length h - 20 ≡ 0 = omega arith in
      let grown : length (h ++ e ∷ []) - 20 ≡ 0 = omega (arith, length-append h (e ∷ [])) in
      rw (all, grown) (rw (not_full (length h) (omega arith)))
]

step-events :
    (c : Call) (r : OperationRegistry) (h : List OperationEvent)
    → r.events ≡ last recent_event_cap h
    → (step c r).events ≡ last recent_event_cap (h ++ reported c r)
unfolding step reported start record_progress finish
step-events (starts clocks id tool target) r h q = rw q (push_event-last _ h)
step-events (progresses clocks id phase message) r h q = go (Dict.lookup id r.current)
  where
    go :
        (o : Option OperationState)
        → (record_progress_found clocks id phase message o r).0.events
          ≡ last recent_event_cap
              (h ++ event_if (λ s. event_of clocks.event_at (progressed clocks phase message s)) o)
    go none = rw append-nil q
    go (some s) = rw q (push_event-last _ h)
step-events (finishes clocks id status message) r h q = go (Dict.lookup id r.current)
  where
    go :
        (o : Option OperationState)
        → (finish_found clocks id status message o r).0.events
          ≡ last recent_event_cap
              (h ++ event_if (λ s. event_of clocks.event_at (finished clocks status message s)) o)
    go none = rw append-nil q
    go (some s) = rw q (push_event-last _ h)

run-events :
    (cs : List Call) (r : OperationRegistry) (h : List OperationEvent)
    → r.events ≡ last recent_event_cap h
    → (run cs r).events ≡ last recent_event_cap (h ++ history cs r)
unfolding run history
run-events [] r h q = rw append-nil q
run-events (c ∷ cs) r h q =
    run-events cs (step c r) (h ++ reported c r) (step-events c r h q)
    ∙ ap (last recent_event_cap) (append_assoc h (reported c r) (history cs (step c r)))

-- After any calls the buffer holds the last 20 events that they reported, oldest first.
pub run-new-events : (cs : List Call) → (run cs new).events ≡ last recent_event_cap (history cs new)
unfolding new
run-new-events cs = run-events cs new [] refl

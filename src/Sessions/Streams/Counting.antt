-- ===== src/Sessions/Streams/Counting.antt =====
-- src/server/http_config.rs: the registry's counts against the streams that are open.
use ida_rs_cli.Base.{
  ℕ, suc, ◌+◌, ◌-◌, ◌≤◌, ◌<◌, Bool, true, false, String, Option, none, some, List, [], ◌∷◌, ◌++◌,
  nat_eq, string_eq, length, ◌≡◌, refl, ap, sym, subst, Every, Every-map, ◌↔◌, arith, if_pos,
  if_neg, Bool-cases, inl, inr, ◌&&◌, ◌==◌, ◌∙◌,
}
use ida_rs_cli.Base.Dict
use ida_rs_cli.Sessions.Laws.{
  lookup-stream_opened, lookup-stream_closed, lookup-session_closed, closed_state,
}
use ida_rs_cli.Sessions.{
  States, SessionDisconnectState, word, stream_opened, session_closed, stream_closed, should_close,
  or_default, should_close_state, is_generation,
}
use ida_rs_cli.Sessions.Streams.{
  Guard, Delayed, World, is_gone, Step, arrives, opens, ends, closes, passes, lapses, shuts,
  forgets, Reach, begin, next, open_on, counted, abandoned, IsCounted,
}

open_on-le-length : (id : String) (gs : List Guard) → open_on id gs ≤ length gs
open_on-le-length id [] = omega arith
open_on-le-length id (g ∷ gs) = ground (arith, open_on-le-length id gs)

open_on-append :
    (id : String) (gs hs : List Guard) → open_on id (gs ++ hs) ≡ open_on id gs + open_on id hs
open_on-append id [] hs = omega arith
open_on-append id (g ∷ gs) hs = ground (arith, open_on-append id gs hs)

counted-or_default : (o : Option SessionDisconnectState) → (or_default o).active_streams ≡ counted o
counted-or_default none = refl
counted-or_default (some s) = refl

counted-closed_state :
    (g : ℕ) (b : Bool) (o : Option SessionDisconnectState)
    → counted (closed_state g b o) ≡ counted o - 1
counted-closed_state g b none = omega arith
counted-closed_state g b (some s) = refl

opens-exact :
    (w : World) (id : String) (b : Bool)
    → suc (length w.open_streams) < word
    → IsCounted w
    → (j : String) → is_gone j w.gone ≡ false
    → counted (Dict.lookup j (stream_opened id w.states).0)
      ≡ open_on j (
          record { session_id = id; generation = (stream_opened id w.states).1; close_on_drop = b }
          ∷ w.open_streams)
opens-exact w id b small v j stays = elim (string_eq.dec id j) [
  | yes p ↦
      let at : counted (Dict.lookup id w.states) ≡ open_on j w.open_streams =
        subst (λ k. counted (Dict.lookup k w.states) ≡ open_on j w.open_streams) (sym p)
          (v.exact j stays) in
      rw (lookup-stream_opened j id w.states, if_pos _ p, if_pos _ p)
        (omega (
          arith,
          at,
          counted-or_default (Dict.lookup id w.states),
          open_on-le-length j w.open_streams,
        ))
  | no p ↦
      rw (lookup-stream_opened j id w.states, if_neg _ p, if_neg _ p)
        (omega (arith, v.exact j stays))
]

ends-exact :
    (w : World) (before : List Guard) (guard : Guard) (behind : List Guard) (b : Bool)
    → w.open_streams ≡ before ++ guard ∷ behind
    → IsCounted w
    → (j : String) → is_gone j w.gone ≡ false
    → counted (Dict.lookup j (stream_closed guard.session_id guard.generation b w.states).0)
      ≡ open_on j (before ++ behind)
ends-exact w before guard behind b q v j stays =
    let split = open_on-append j before (guard ∷ behind) in
    let left = open_on-append j before behind in
    let at = v.exact j stays in
    let all = ap (open_on j) q in
    elim (string_eq.dec guard.session_id j) [
      | yes p ↦
          rw (lookup-stream_closed j guard.session_id guard.generation b w.states, if_pos _ p)
            (omega (
              arith,
              counted-closed_state guard.generation b (Dict.lookup j w.states),
              split,
              left,
              at,
              all,
              one_of p,
            ))
      | no p ↦
          rw (lookup-stream_closed j guard.session_id guard.generation b w.states, if_neg _ p)
            (omega (arith, split, left, at, all, none_of p))
    ]
  where
    one_of : guard.session_id ≡ j → open_on j (guard ∷ behind) ≡ suc (open_on j behind)
    one_of p = rw (if_pos _ p) (omega arith)

    none_of : ¬ (guard.session_id ≡ j) → open_on j (guard ∷ behind) ≡ open_on j behind
    none_of p = rw (if_neg _ p) (omega arith)

gone_still :
    (id x : String) (gone : List String) → is_gone id gone ≡ true → is_gone id (x ∷ gone) ≡ true
gone_still id x gone h = elim (string_eq.dec x id) [
  | yes p ↦ rw (if_pos _ p) refl
  | no p ↦ rw (if_neg _ p) h
]

gone_now : (id : String) (gone : List String) → is_gone id (id ∷ gone) ≡ true
gone_now id gone = rw (if_pos _ refl) refl

stayed :
    (id x : String) (gone : List String) → is_gone id (x ∷ gone) ≡ false → is_gone id gone ≡ false
stayed id x gone h = elim (Bool-cases (is_gone id gone)) [
  | inl t ↦ absurd (cc (h, gone_still id x gone t))
  | inr f ↦ f
]

-- The session manager closes a session.
gone-IsCounted :
    (w : World) (id : String) (ds : List Delayed)
    → IsCounted w
    → IsCounted (record w { approved = ds; closing = id ∷ w.closing; gone = id ∷ w.gone })
gone-IsCounted w id ds v = record {
  exact = λ j stays. v.exact j (stayed j id w.gone stays);
  left = (gone_now id w.gone, Every-map _ _ (λ j. gone_still j id w.gone) w.closing v.left);
}

Every-parts :
    (P : String → Type 0) (before : List String) (x : String) (behind : List String)
    → Every P (before ++ x ∷ behind)
    → P x × Every P (before ++ behind)
Every-parts P [] x behind h = h
Every-parts P (y ∷ before) x behind h =
    let (here, rest) = Every-parts P before x behind h.1 in (here, (h.0, rest))

forgets-IsCounted :
    (w : World) (before : List String) (id : String) (behind : List String)
    → w.closing ≡ before ++ id ∷ behind
    → IsCounted w
    → IsCounted (record w { states = session_closed id w.states; closing = before ++ behind })
forgets-IsCounted w before id behind q v =
    let (away, rest) = Every-parts _ before id behind (rw q at v.left) in
    record {
      exact = λ j stays. elim (string_eq.dec id j) [
        | yes p ↦ absurd (cc (stays, away, ap (λ k. is_gone k w.gone) p))
        | no p ↦ rw (lookup-session_closed j id w.states, if_neg _ p) (v.exact j stays)
      ];
      left = rest;
    }

pub Step-IsCounted : {w u : World} → Step w u → IsCounted w → IsCounted u
Step-IsCounted {w} (arrives id b here) v = record { exact = v.exact; left = v.left }
Step-IsCounted {w} (opens before a behind q small) v = record {
  exact = opens-exact w a.session_id a.close_on_drop small v;
  left = v.left;
}
Step-IsCounted {w} (ends before guard behind b q) v = record {
  exact = ends-exact w before guard behind b q v;
  left = v.left;
}
Step-IsCounted {w} (closes id) v = gone-IsCounted w id w.approved v
Step-IsCounted {w} (passes before d behind q h) v = record { exact = v.exact; left = v.left }
Step-IsCounted {w} (lapses before d behind q h) v = record { exact = v.exact; left = v.left }
Step-IsCounted {w} (shuts before d behind q) v = gone-IsCounted w d.session_id (before ++ behind) v
Step-IsCounted {w} (forgets before id behind q) v = forgets-IsCounted w before id behind q v

Reach-IsCounted : {w : World} → Reach w → IsCounted w
unfolding Dict.lookup
Reach-IsCounted begin = record { exact = λ id h. refl; left = tt }
Reach-IsCounted (next r s) = Step-IsCounted s (Reach-IsCounted r)

generation_iff :
    (g : ℕ) (a : Option ℕ) (n : ℕ)
    → ((is_generation g a && n == 0) ≡ true) ↔ ((n ≡ 0) × (a ≡ some g))
generation_iff g none n = (λ h. absurd (cc), λ h. absurd (cc (h.1)))
generation_iff g (some k) n = (
  λ h. (ground arith, let e : k ≡ g = ground arith in ap some e),
  λ h. let e : k ≡ g = cc in ground arith,
)

state_iff :
    (g : ℕ) (o : Option SessionDisconnectState)
    → (should_close_state g o ≡ true) ↔ ((counted o ≡ 0) × (abandoned o ≡ some g))
state_iff g none = (λ h. absurd (cc), λ h. absurd (cc (h.1)))
state_iff g (some s) = generation_iff g s.abandoned_generation s.active_streams

should_close_iff :
    (id : String) (g : ℕ) (states : States)
    → (should_close id g states ≡ true)
      ↔ ((counted (Dict.lookup id states) ≡ 0) × (abandoned (Dict.lookup id states) ≡ some g))
unfolding should_close
should_close_iff id g states = state_iff g (Dict.lookup id states)

-- In every reachable world, a delayed close of a session that the session manager has not closed finds
-- that it should close exactly if no registered stream of the session is open, and the generation
-- that the session was last abandoned at is the one of the delayed close. What happens between this
-- check and the closing is not covered: a stream can open there.
pub passes_idle :
    {w : World} (id : String) (g : ℕ)
    → Reach w
    → is_gone id w.gone ≡ false
    → (should_close id g w.states ≡ true)
      ↔ ((open_on id w.open_streams ≡ 0) × (abandoned (Dict.lookup id w.states) ≡ some g))
passes_idle {w} id g r stays =
    let e = (Reach-IsCounted r).exact id stays in
    let (forth, back) = should_close_iff id g w.states in
    (λ h. let (idle, at) = forth h in (sym e ∙ idle, at), λ h. back (e ∙ h.0, h.1))

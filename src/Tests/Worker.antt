-- ===== src/Tests/Worker.antt =====
-- The worker's loop, its tokens, and the line reader.
use ida_rs_cli.Base.{
  ℕ, true, false, none, some, List, [], ◌∷◌, String, ◌==◌, ◌≡◌, refl, arith, nat_eq, string_eq,
}
use ida_rs_cli.Worker.{
  WorkerState, Answers, Request, open_path, bound, close_if_generation, initialized, failed,
  conditionally_closed, closes, dispatch, shutdown, init_failed, pass, pass_initialized,
}
use ida_rs_cli.Handlers.{database_replaced}
use ida_rs_cli.Worker.Generations.{IsValid, runs, closed_for_ever}
use ida_rs_cli.Worker.Tokens.{issue_for_session, authorize_close, owned_by, granted, denied}
use ida_rs_cli.Worker.Tokens.Laws.{issues, issued_stays}
use ida_rs_cli.Protocol.{read_line_capped, read_from, line}
use ida_rs_cli.Protocol.Lines.{Reads, flat, read_line_capped-Reads}

abbrev state : WorkerState
state = record {
  idb = some "a.i64";
  database_generation = some 1;
  next_database_generation = 1;
  library_initialized = true;
  version_mismatch = none;
  running = true;
}

state-IsValid : IsValid state
state-IsValid = record { given = omega arith; counter = omega arith; same_life = λ e. tt }

abbrev plain : Answers
plain = record {
  token_cancelled = false;
  init = initialized none;
  paths_match = false;
  open_error = none;
}

abbrev events : List (Answers × Request)
events = (plain, open_path "b.i64") ∷ []

closed_for_ever_example :
    (dispatch plain (bound (some 1)) (runs events (closes state))
      ≡ (runs events (closes state), failed database_replaced))
    × (dispatch plain (close_if_generation 1) (runs events (closes state))
        ≡ (runs events (closes state), conditionally_closed false))
closed_for_ever_example = closed_for_ever 1 state events plain state-IsValid refl

-- A request to shut down is lost when idalib fails to start in the same pass.
abbrev fresh : WorkerState
fresh = record state { idb = none; database_generation = none; library_initialized = false }

lost_shutdown :
    (pass (record plain { init = init_failed "no license" }) shutdown fresh).0.running ≡ true
unfolding pass pass_initialized
lost_shutdown = refl

abbrev first : String
first = "a"

abbrev second : String
second = "b"

differ : (first == second) ≡ false
unfolding string_eq
differ = refl

issued_stays_example :
    ((issue_for_session "b" "u" (issues (("c", "v") ∷ []) (issue_for_session "a" "t" none).0)).1
      ≡ owned_by "a")
    × (authorize_close "b" none false (issues (("c", "v") ∷ []) (issue_for_session "a" "t" none).0)
        ≡ denied "a")
    × (authorize_close "a" none false (issues (("c", "v") ∷ []) (issue_for_session "a" "t" none).0)
        ≡ granted)
issued_stays_example = issued_stays "a" "t" (("c", "v") ∷ []) "b" none "u" false differ

-- "ab\ncd" in two chunks.
abbrev chunks : List (List ℕ)
chunks = (97 ∷ []) ∷ (98 ∷ 10 ∷ 99 ∷ []) ∷ (100 ∷ []) ∷ []

read_line_capped-Reads_example : Reads 8 (flat chunks) [] (read_line_capped 8 chunks)
read_line_capped-Reads_example = read_line_capped-Reads 8 chunks (tt, (tt, (tt, tt)))

-- A blank line reads as the end of the stream does.
blank_line : read_line_capped 8 ((10 ∷ 97 ∷ []) ∷ []) ≡ line [] ((97 ∷ []) ∷ [])
unfolding read_line_capped read_from nat_eq
blank_line = refl

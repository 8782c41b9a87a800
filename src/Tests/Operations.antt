-- ===== src/Tests/Operations.antt =====
-- The operation registry on small inputs.
use ida_rs_cli.Base.{true, is_some, none, some, List, [], ◌∷◌, ◌≡◌, ◌≢◌, string_eq}
use ida_rs_cli.Base.Dict
use ida_rs_cli.Operations.{
  Clocks, OperationStatus, new, finish, record_progress, snapshot, recent_event_cap,
}
use ida_rs_cli.Operations.History.{Call, starts, progresses, run, history, last, run-new-events}
use ida_rs_cli.Operations.Active.{IsValid, run-new-IsValid, finish_final}

abbrev clocks : Clocks
clocks = record { now_ms = 1000; snapshot_at = 5; event_at = 6 }

abbrev decompiling : List Call
decompiling =
    starts clocks "op-1" "decompile" "main" ∷ progresses clocks "op-1" "running" "Started" ∷ []

run-new-events_example :
    (run decompiling new).events ≡ last recent_event_cap (history decompiling new)
run-new-events_example = run-new-events decompiling

run-new-IsValid_example : IsValid (run decompiling new)
run-new-IsValid_example = run-new-IsValid decompiling

finish_final_example :
    let (r, answer) = finish clocks "op-1" OperationStatus.completed "Done" (run decompiling new) in
    (is_some answer ≡ is_some (Dict.lookup "op-1" (run decompiling new).current))
    × (is_some answer ≡ true → r.active_op_id ≢ some "op-1")
    × (record_progress clocks "op-1" "running" "Late" r ≡ (r, none))
    × (finish clocks "op-1" OperationStatus.cancelled "Late" r ≡ (r, none))
    × (snapshot clocks.snapshot_at "op-1" r ≡ none)
finish_final_example =
    finish_final clocks clocks "op-1" OperationStatus.completed OperationStatus.cancelled "Done"
      "running" "Late" (run decompiling new)

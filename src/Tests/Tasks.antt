-- ===== src/Tests/Tasks.antt =====
-- The task registry on small inputs.
use ida_rs_cli.Base.{ℕ, true, false, none, some, List, [], ◌∷◌, ◌≡◌, refl, arith, string_eq}
use ida_rs_cli.Base.Dict
use ida_rs_cli.Tasks.{
  Now, TaskOwner, TaskCreateError, Created, TaskEntry, TaskRegistry, is_running, is_session,
  owner_eq,
}
use ida_rs_cli.Tasks.Entry
use ida_rs_cli.Tasks.Retention.{prune_terminal_tasks, reclaim_capacity_for_admission}
use ida_rs_cli.Tasks.Retention.Laws.{Reclaimed, reclaim-Reclaimed}
use ida_rs_cli.Tasks.Admission.{
  create_keyed, create_or_refuse, admit, find_running_key, initial_state,
}
use ida_rs_cli.Tasks.Admission.Outcome.{Outcome, create_keyed-Outcome, create_keyed_private}
use ida_rs_cli.Tasks.Registry
use ida_rs_cli.Tasks.Registry.Ownership.{foreign_is_unknown}
use ida_rs_cli.Tasks.Registry.Cancellation.{Settles, cancel_wins}
use ida_rs_cli.Tasks.Calls.{Call, create, complete, step, run}
use ida_rs_cli.Tasks.Calls.Invariant.{IsValid}
use ida_rs_cli.Tasks.Calls.Evolution.{Evolves}
use ida_rs_cli.Tasks.Calls.Runs.{empty, step-IsValid, run-empty-IsValid}
use ida_rs_cli.Tasks.Calls.Fates.{step-Evolves}

abbrev early : Now
early = record { instant = 10; unix_secs = 1000 }

abbrev late : Now
late = record { instant = 50; unix_secs = 1001 }

abbrev alice : TaskOwner
alice = TaskOwner.session "alice"

abbrev bob : TaskOwner
bob = TaskOwner.session "bob"

-- One session has loaded an image.
abbrev loading : List (Call ℕ)
loading = create 5 early "1" alice "dsc" "/cache" "Loading" ∷ []

abbrev task : TaskEntry ℕ
task = record {
  owner = alice;
  state = initial_state early "dsc-1" "/cache" "Loading";
  cancel_token = none;
  cancel_requested = none;
}

abbrev busy : TaskRegistry ℕ
busy = run loading empty

busy_entries : busy.entries ≡ ("dsc-1", task) ∷ []
unfolding run step create_keyed create_or_refuse admit find_running_key prune_terminal_tasks
    reclaim_capacity_for_admission Dict.insert Dict.retain Entry.new
busy_entries = refl

step-IsValid_example : IsValid (step (complete 60 late "dsc-1" 7) busy)
step-IsValid_example = step-IsValid (complete 60 late "dsc-1" 7) busy (run-empty-IsValid loading)

busy_lookup : Dict.lookup "dsc-1" busy.entries ≡ some task
unfolding Dict.lookup string_eq
busy_lookup = rw busy_entries refl

step-Evolves_example :
    Evolves task (Dict.lookup "dsc-1" (step (complete 60 late "dsc-1" 7) busy).entries)
step-Evolves_example =
    step-Evolves (complete 60 late "dsc-1" 7) busy "dsc-1" task (run-empty-IsValid loading) tt
      (omega arith) busy_lookup

create_keyed-Outcome_example :
    Outcome late bob "dsc-2" "/cache" "Loading"
      (prune_terminal_tasks 40 busy.entries)
      (create_keyed 40 late "2" bob "dsc" "/cache" "Loading" busy).0.entries
      (create_keyed 40 late "2" bob "dsc" "/cache" "Loading" busy).1
create_keyed-Outcome_example =
    create_keyed-Outcome 40 late "2" bob "dsc" "/cache" "Loading" busy (run-empty-IsValid loading)

told :
    (create_keyed 40 late "2" alice "dsc" "/cache" "Loading" busy).1
    ≡ Created.err (TaskCreateError.already_running "dsc-1")
unfolding run step create_keyed create_or_refuse admit find_running_key prune_terminal_tasks
    reclaim_capacity_for_admission Dict.insert Dict.retain Entry.new string_eq
told = refl

create_keyed_private_example :
    (e : TaskEntry ℕ) × (Dict.lookup "dsc-1" (prune_terminal_tasks 40 busy.entries) ≡ some e)
    × (e.state.key ≡ some "/cache")
    × (is_running e.state.status ≡ true)
    × (is_session alice ≡ true)
    × (owner_eq e.owner alice ≡ true)
create_keyed_private_example =
    create_keyed_private 40 late "2" alice "dsc" "/cache" "Loading" "dsc-1" busy
      (run-empty-IsValid loading) told

cancelled : (Registry.cancel_for_owner 60 late alice "dsc-1" busy).1 ≡ true
unfolding run step create_keyed create_or_refuse admit find_running_key prune_terminal_tasks
    reclaim_capacity_for_admission Dict.insert Dict.retain Dict.lookup Entry.new
    Entry.request_cancel Registry.cancel_for_owner string_eq
cancelled = refl

cancel_wins_example :
    Settles 70 late "dsc-1" 7 "no such file" 3
      (Registry.cancel_for_owner 60 late alice "dsc-1" busy).0
cancel_wins_example =
    cancel_wins 60 70 late late alice "dsc-1" 7 "no such file" 3 busy
      (run-empty-IsValid loading).nodup (omega arith) cancelled

foreign_is_unknown_example :
    ((Registry.get_for_owner 60 bob "dsc-1" busy).1 ≡ none)
    × (Registry.get_for_owner 60 bob "dsc-1" busy ≡ Registry.get_for_owner 60 bob "dsc-9" busy)
    × (Registry.cancel_for_owner 60 late bob "dsc-1" busy ≡ (busy, false))
unfolding Dict.lookup string_eq
foreign_is_unknown_example =
    foreign_is_unknown 60 late bob "dsc-1" "dsc-9" busy (run-empty-IsValid loading).nodup
      (rw busy_entries refl) (rw busy_entries tt)

reclaim-Reclaimed_example :
    Reclaimed (("dsc-1", task) ∷ []) (reclaim_capacity_for_admission (("dsc-1", task) ∷ []))
unfolding Dict.lookup
reclaim-Reclaimed_example = reclaim-Reclaimed (("dsc-1", task) ∷ []) (refl, tt) (omega arith)

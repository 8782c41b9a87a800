-- ===== src/Tests/Router.antt =====
-- The router and a worker's table on small inputs.
use ida_rs_cli.Base.{ℕ, some, List, [], ◌∷◌, ◌≡◌, refl, arith, string_eq, nat_eq}
use ida_rs_cli.Base.Dict
use ida_rs_cli.Base.Numbers.{print, parse, digits_onto, parse_onto, digit}
use ida_rs_cli.Targets.{
  TargetInfo, Entry, Resolved, resolve_selector, resolve_among, lowest_target_id, lowest_from,
}
use ida_rs_cli.Targets.Selection.{swaps, resolve_selector-Shuffled}
use ida_rs_cli.Router.{
  Router, new, alloc_id, resolve, allocate_load, check_load, check_load_held, find_load_conflict,
  finish_load, enter,
}
use ida_rs_cli.Router.Requests.{
  Request, checks, allocates, finishes, switches, closes, shuts_down, IsValid, step, run,
  AllEnabled,
}
use ida_rs_cli.Router.Runs.{start, start-IsValid, requests-IsValid}
use ida_rs_cli.Manager
use ida_rs_cli.Manager.{TargetRecord, TargetManager}
use ida_rs_cli.Manager.Laws.{entries, resolve-resolve_selector}

abbrev told : TargetInfo
told = record {
  id = "t1";
  path = "/bin/ls";
  filename = "ls";
  file_type = "ELF";
  processor = "x86";
  bits = 64;
  function_count = 9;
}

-- A target is loaded, looked up by its name, and closed; then the router shuts down.
abbrev requests : List Request
requests =
    checks "/bin/ls" "/bin/ls.i64"
    ∷ allocates
    ∷ finishes (some (told, "/run/t1.sock"))
    ∷ switches "ls"
    ∷ closes "t1"
    ∷ shuts_down
    ∷ []

requests-enabled : AllEnabled requests start
unfolding new step check_load check_load_held find_load_conflict
requests-enabled = (tt, (omega arith, (tt, (tt, (tt, (tt, tt))))))

requests-IsValid_example : IsValid (run requests start)
requests-IsValid_example = requests-IsValid requests start requests-enabled start-IsValid

-- The same up to the load's end.
abbrev loads : List Request
loads = checks "/bin/ls" "/bin/ls.i64" ∷ allocates ∷ finishes (some (told, "/run/t1.sock")) ∷ []

loads-enabled : AllEnabled loads start
unfolding new step check_load check_load_held find_load_conflict
loads-enabled = (tt, (omega arith, (tt, tt)))

abbrev loaded : Router
loaded = run loads start

by_name : resolve (some "ls") loaded.state ≡ Resolved.ok "t1"
unfolding run step new check_load check_load_held find_load_conflict allocate_load alloc_id
    finish_load enter resolve resolve_selector resolve_among Dict.insert string_eq nat_eq print
    digits_onto digit
by_name = refl

abbrev ls : Entry
ls = ("t1", ("ls", "/bin/ls"))

abbrev cat : Entry
cat = ("t2", ("cat", "/bin/cat"))

resolve_selector-Shuffled_example :
    resolve_selector (some "bin") (some "t1") (ls ∷ cat ∷ [])
    ≡ resolve_selector (some "bin") (some "t1") (cat ∷ ls ∷ [])
resolve_selector-Shuffled_example =
    resolve_selector-Shuffled (some "bin") (some "t1") (swaps ls cat [])

least : lowest_target_id ("t10" ∷ "t9" ∷ []) ≡ some "t9"
unfolding lowest_target_id lowest_from nat_eq parse parse_onto
least = refl

abbrev manager : TargetManager ℕ
manager = record {
  targets = ("t1", record { idb = some 7; info = told }) ∷ [];
  active_id = some "t1";
  next_id = 2;
}

resolve-resolve_selector_example :
    Manager.resolve (some "ls") manager
    ≡ resolve_selector (some "ls") (some "t1") (entries (manager.targets))
resolve-resolve_selector_example = resolve-resolve_selector (some "ls") manager

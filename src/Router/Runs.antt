-- ===== src/Router/Runs.antt =====
-- src/daemon/router.rs: the validity of the router in every history of requests.
use ida_rs_cli.Base.{
  ◌+◌, ◌<◌, Bool, true, false, String, is_some, Option, none, some, List, [], ◌∷◌, string_eq, ◌≡◌,
  refl, subst, arith, inl, inr, Option-cases,
}
use ida_rs_cli.Base.Dict
use ida_rs_cli.Base.Dict.{Dict}
use ida_rs_cli.Base.Dict.Laws.{All-lookup}
use ida_rs_cli.Base.Numbers.{word}
use ida_rs_cli.Targets.{TargetInfo, Resolved}
use ida_rs_cli.Router.{
  WorkerEntry, RouterState, Router, Loading, unlocked, checked, allocated, Conflict, new, alloc_id,
  resolve, find_load_conflict, check_load, check_load_held, allocate_load, finish_load, switch_to,
  target_switch, close_found, close_resolved, target_close, shutdown_all_workers, route, route_to,
  worker_of,
}
use ida_rs_cli.Router.Paths.{IsFree, find_load_conflict-none, remove-IsFree, IsNumbered}
use ida_rs_cli.Router.Requests.{
  Request, checks, allocates, finishes, switches, closes, shuts_down, step, run, IsEnabled,
  AllEnabled, StateIsValid, LoadingIsValid, IsValid, resolve-is_some, switch-StateIsValid,
  close-StateIsValid, enter-StateIsValid, alloc-StateIsValid, loading_kept,
}

check-IsValid :
    (c i : String) (b : Bool) (l : Loading) (st : RouterState)
    → StateIsValid b st
    → LoadingIsValid l st
    → IsValid (check_load c i (record { state = st; loading = l; drained = b })).0
unfolding check_load check_load_held
check-IsValid c i b unlocked st v w = go (find_load_conflict c i st.targets) refl
  where
    go :
        (o : Option Conflict)
        → find_load_conflict c i st.targets ≡ o
        → IsValid (check_load_held c i o (record { state = st; loading = unlocked; drained = b })).0
    go none free = record { state = v; loading = find_load_conflict-none c i st.targets free }
    go (some conflict) found = record { state = v; loading = tt }
check-IsValid c i b (checked c' i') st v w = record { state = v; loading = w }
check-IsValid c i b (allocated id c' i') st v w = record { state = v; loading = w }

allocate-IsValid :
    (b : Bool) (l : Loading) (st : RouterState)
    → st.next_id + 1 < word
    → StateIsValid b st
    → LoadingIsValid l st
    → IsValid (allocate_load (record { state = st; loading = l; drained = b }))
unfolding allocate_load alloc_id
allocate-IsValid b unlocked st h v w = record { state = v; loading = tt }
allocate-IsValid b (checked c i) st h v w = record {
  state = alloc-StateIsValid b st h v;
  loading = (w, st.next_id, omega (arith, h), refl);
}
allocate-IsValid b (allocated id c i) st h v w = record { state = v; loading = w }

finish-IsValid :
    (answer : Option (TargetInfo × String)) (b : Bool) (l : Loading) (st : RouterState)
    → StateIsValid b st
    → LoadingIsValid l st
    → IsValid (finish_load answer (record { state = st; loading = l; drained = b }))
unfolding finish_load
finish-IsValid answer b unlocked st v w = record { state = v; loading = tt }
finish-IsValid answer b (checked c i) st v w = record { state = v; loading = w }
finish-IsValid none b (allocated id c i) st v w = record { state = v; loading = tt }
finish-IsValid (some (info, sock)) b (allocated id c i) st v (free, n, below, spelled) = record {
  state = enter-StateIsValid b id n info sock c i st v free below spelled;
  loading = tt;
}

switch-IsValid :
    (sel : String) (l : Loading) (st : RouterState)
    → LoadingIsValid l st
    → LoadingIsValid l (target_switch sel st).0
unfolding target_switch switch_to
switch-IsValid sel l st w = go (resolve (some sel) st)
  where
    go : (o : Resolved) → LoadingIsValid l (switch_to o st).0
    go (Resolved.ok id) = loading_kept l st _ (λ c i f. f) refl w
    go (Resolved.err e) = w

close-IsValid :
    (sel : String) (b : Bool) (l : Loading) (st : RouterState)
    → StateIsValid b st
    → LoadingIsValid l st
    → IsValid (record { state = (target_close sel st).0; loading = l; drained = b })
unfolding target_close close_resolved close_found
close-IsValid sel b l st v w = of_answer (resolve (some sel) st)
  where
    of_entry :
        (id : String) (o : Option WorkerEntry)
        → Dict.lookup id st.targets ≡ o
        → IsValid (record { state = (close_found id o st).0; loading = l; drained = b })
    of_entry id none at = record { state = v; loading = w }
    of_entry id (some e) at = record {
      state = close-StateIsValid b id (some e) st at v;
      loading = loading_kept l st _ (λ c i. remove-IsFree c i id st.targets) refl w;
    }

    of_answer :
        (o : Resolved)
        → IsValid (record { state = (close_resolved o st).0; loading = l; drained = b })
    of_answer (Resolved.ok id) = of_entry id (Dict.lookup id st.targets) refl
    of_answer (Resolved.err e) = record { state = v; loading = w }

IsFree-nil : (c i : String) → IsFree c i []
unfolding Dict.lookup
IsFree-nil c i id e at = absurd (cc)

shutdown-IsValid : (r : Router) → IsValid r → IsValid (shutdown_all_workers r)
unfolding shutdown_all_workers Dict.lookup
shutdown-IsValid r v = record {
  state = record {
    nodup = tt;
    numbered = tt;
    small = v.state.small;
    apart = λ i j e f at. absurd (cc);
    activated = λ live. absurd (cc);
  };
  loading = loading_kept r.loading r.state _ (λ c i _. IsFree-nil c i) refl v.loading;
}

request-IsValid : (q : Request) (r : Router) → IsEnabled q r → IsValid r → IsValid (step q r)
unfolding step
request-IsValid (checks c i) r enabled v =
    check-IsValid c i r.drained r.loading r.state v.state v.loading
request-IsValid allocates r enabled v =
    allocate-IsValid r.drained r.loading r.state enabled v.state v.loading
request-IsValid (finishes answer) r enabled v =
    finish-IsValid answer r.drained r.loading r.state v.state v.loading
request-IsValid (switches sel) r enabled v = record {
  state = switch-StateIsValid r.drained sel r.state v.state;
  loading = switch-IsValid sel r.loading r.state v.loading;
}
request-IsValid (closes sel) r enabled v =
    close-IsValid sel r.drained r.loading r.state v.state v.loading
request-IsValid shuts_down r enabled v = shutdown-IsValid r v

-- Whatever requests come in whatever order, with a load's three stretches apart from one another, the
-- router stays valid while its counter of ids does not wrap: no two targets share an input path or
-- a database, and ids are distinct and of the form t<n> below the next one. Until a `shutdown` has
-- emptied the table, the active target is in it, and there is one unless it is empty.
pub requests-IsValid :
    (qs : List Request) (r : Router) → AllEnabled qs r → IsValid r → IsValid (run qs r)
unfolding run
requests-IsValid [] r enabled v = v
requests-IsValid (q ∷ qs) r enabled v =
    requests-IsValid qs (step q r) enabled.1 (request-IsValid q r enabled.0 v)

abbrev pub start : Router
start = record { state = new; loading = unlocked; drained = false }

pub start-IsValid : IsValid start
unfolding new Dict.lookup
start-IsValid = record {
  state = record {
    nodup = tt;
    numbered = tt;
    small = omega arith;
    apart = λ i j e f at. absurd (cc);
    activated = λ live. refl;
  };
  loading = tt;
}

-- In a valid state, a selector that resolves leads a request to the worker of the target with that id.
pub route-found :
    (target : Option String) (st : RouterState) (id : String)
    → StateIsValid false st
    → resolve target st ≡ Resolved.ok id
    → (e : WorkerEntry) × (Dict.lookup id st.targets ≡ some e)
      × (route target st ≡ (some e, Resolved.ok id))
      × (e.info.id ≡ id)
unfolding route route_to worker_of
route-found target st id v h =
    let known = resolve-is_some target st id v h in
    elim (Option-cases (Dict.lookup id st.targets)) [
      | inr (e, at) ↦ (
        e,
        at,
        rw (h, at),
        (All-lookup (IsNumbered st.next_id) id st.targets v.numbered at).named,
      )
      | inl absent ↦ absurd (cc (subst (λ o. is_some o ≡ true) absent known))
    ]

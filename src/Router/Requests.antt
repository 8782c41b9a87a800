-- ===== src/Router/Requests.antt =====
-- src/daemon/router.rs: requests in the order in which they take the lock, and what they keep.
use ida_rs_cli.Base.{
  ℕ, ◌+◌, ◌%◌, ◌≤◌, ◌<◌, Bool, true, false, String, is_some, Option, none, some, List, [], ◌∷◌,
  if◌then◌else◌, ◌==◌, string_eq, ◌≡◌, refl, ap, subst, arith, inl, inr, if_pos, if_neg, Bool-cases,
}
use ida_rs_cli.Base.Dict
use ida_rs_cli.Base.Dict.{Dict}
use ida_rs_cli.Base.Dict.Laws.{
  NodupKeys, lookup-insert, lookup-remove, insert-NodupKeys, remove-NodupKeys, All-insert,
  All-remove,
}
use ida_rs_cli.Base.Numbers.{word}
use ida_rs_cli.Targets.{TargetInfo, Resolved, has_id, target_id, lowest_target_id}
use ida_rs_cli.Targets.Selection.{among, lowest_target_id-IsLeast, resolve_selector-has_id}
use ida_rs_cli.Router.{
  WorkerEntry, Targets, RouterState, Router, Loading, unlocked, checked, allocated, alloc_id,
  entries, resolve, check_load, allocate_load, or_active, enter, finish_load, switch_to,
  target_switch, is_active, close_found, target_close, shutdown_all_workers,
}
use ida_rs_cli.Router.Paths.{IsFree, AllApart, remove-AllApart, insert-AllApart, IsNumbered}

pub data Request : Type 0 where
  checks : String → String → Request
  allocates : Request
  finishes : Option (TargetInfo × String) → Request
  switches : String → Request
  closes : String → Request
  shuts_down : Request

unfoldable pub step : Request → Router → Router
step (checks canon_path db_identity) r = (check_load canon_path db_identity r).0
step allocates r = allocate_load r
step (finishes answer) r = finish_load answer r
step (switches sel) r = record r { state = (target_switch sel r.state).0 }
step (closes sel) r = record r { state = (target_close sel r.state).0 }
step shuts_down r = shutdown_all_workers r

-- The counter of ids does not wrap.
abbrev pub IsEnabled : Request → Router → Type 0
IsEnabled allocates r = r.state.next_id + 1 < word
IsEnabled _ r = Unit

unfoldable pub run : List Request → Router → Router
run [] r = r
run (q ∷ qs) r = run qs (step q r)

abbrev pub AllEnabled : List Request → Router → Type 0
AllEnabled [] r = Unit
AllEnabled (q ∷ qs) r = IsEnabled q r × AllEnabled qs (step q r)

abbrev pub ActiveOk : Option String → Targets → Type 0
ActiveOk none d = d ≡ []
ActiveOk (some id) d = is_some (Dict.lookup id d) ≡ true

-- Until the table is drained, the active target is in it, and there is one unless it is empty.
pub record StateIsValid (drained : Bool) (st : RouterState) : Type 0 where
  pub nodup : NodupKeys st.targets
  pub numbered : Dict.All (IsNumbered st.next_id) st.targets
  pub small : st.next_id < word
  pub apart : AllApart st.targets
  pub activated : drained ≡ false → ActiveOk st.active st.targets

-- A load that was checked still has its path and its database for itself, and its id.
abbrev pub LoadingIsValid : Loading → RouterState → Type 0
LoadingIsValid unlocked st = Unit
LoadingIsValid (checked c i) st = IsFree c i st.targets
LoadingIsValid (allocated id c i) st =
    IsFree c i st.targets × (n : ℕ) × (n < st.next_id) × (id ≡ target_id n)

pub record IsValid (r : Router) : Type 0 where
  pub state : StateIsValid r.drained r.state
  pub loading : LoadingIsValid r.loading r.state

has_id-lookup :
    (id : String) (d : Targets) → has_id id (entries d) ≡ true → is_some (Dict.lookup id d) ≡ true
unfolding Dict.lookup
has_id-lookup id [] h = cc
has_id-lookup id ((k, e) ∷ d) h = ground (arith, has_id-lookup id d)

lookup-has_id :
    (id : String) (d : Targets) → is_some (Dict.lookup id d) ≡ true → has_id id (entries d) ≡ true
unfolding Dict.lookup
lookup-has_id id [] h = cc
lookup-has_id id ((k, e) ∷ d) h = ground (arith, lookup-has_id id d)

among-lookup :
    (id : String) (d : Targets) → among id (Dict.keys d) ≡ true → is_some (Dict.lookup id d) ≡ true
unfolding Dict.lookup
among-lookup id [] h = cc
among-lookup id ((k, e) ∷ d) h = ground (arith, among-lookup id d)

-- A selector that resolves, resolves to a target in the table.
pub resolve-is_some :
    (selector : Option String) (st : RouterState) (id : String)
    → StateIsValid false st
    → resolve selector st ≡ Resolved.ok id
    → is_some (Dict.lookup id st.targets) ≡ true
unfolding resolve
resolve-is_some selector st id v h = has_id-lookup id st.targets (
    resolve_selector-has_id selector st.active (entries st.targets) id
      (λ a q. lookup-has_id a st.targets (subst (λ o. ActiveOk o st.targets) q (v.activated refl)))
      h)

lowest-ActiveOk : (d : Targets) → ActiveOk (lowest_target_id (Dict.keys d)) d
unfolding lowest_target_id
lowest-ActiveOk d = go (lowest_target_id (Dict.keys d)) refl
  where
    empty_keys : (d : Targets) → lowest_target_id (Dict.keys d) ≡ none → d ≡ []
    empty_keys [] h = refl
    empty_keys (e ∷ d) h = cc

    go : (o : Option String) → lowest_target_id (Dict.keys d) ≡ o → ActiveOk o d
    go none h = empty_keys d h
    go (some id) h = among-lookup id d (lowest_target_id-IsLeast id (Dict.keys d) h).0

pub switch-StateIsValid :
    (drained : Bool) (sel : String) (st : RouterState)
    → StateIsValid drained st
    → StateIsValid drained (target_switch sel st).0
unfolding target_switch switch_to
switch-StateIsValid drained sel st v = go (resolve (some sel) st) refl
  where
    go : (o : Resolved) → resolve (some sel) st ≡ o → StateIsValid drained (switch_to o st).0
    go (Resolved.ok id) h = record {
      nodup = v.nodup;
      numbered = v.numbered;
      small = v.small;
      apart = v.apart;
      activated =
          λ live. resolve-is_some (some sel) st id (subst (λ b. StateIsValid b st) live v) h;
    }
    go (Resolved.err e) h = v

-- The fallback once the target `id` is gone.
closed-ActiveOk :
    (id : String) (a : Option String) (d : Targets)
    → is_some (Dict.lookup id d) ≡ true
    → ActiveOk a d
    → ActiveOk
        (if is_active id a then lowest_target_id (Dict.keys (Dict.remove id d)) else a)
        (Dict.remove id d)
unfolding Dict.remove
closed-ActiveOk id none d at h = ap (Dict.remove id) h
closed-ActiveOk id (some a) d at h = elim (Bool-cases (a == id)) [
  | inl same ↦ rw same (lowest-ActiveOk (Dict.remove id d))
  | inr other ↦ rw other (ground (arith, lookup-remove a id d))
]

pub close-StateIsValid :
    (drained : Bool) (id : String) (o : Option WorkerEntry) (st : RouterState)
    → Dict.lookup id st.targets ≡ o
    → StateIsValid drained st
    → StateIsValid drained (close_found id o st).0
unfolding close_found
close-StateIsValid drained id none st at v = v
close-StateIsValid drained id (some e) st at v = record {
  nodup = remove-NodupKeys id st.targets v.nodup;
  numbered = All-remove (IsNumbered st.next_id) id st.targets v.numbered;
  small = v.small;
  apart = remove-AllApart id st.targets v.apart;
  activated = λ live. closed-ActiveOk id st.active st.targets (rw at) (v.activated live);
}

All-IsNumbered :
    (m n : ℕ) (d : Targets) → m ≤ n → Dict.All (IsNumbered m) d → Dict.All (IsNumbered n) d
All-IsNumbered m n [] h all = tt
All-IsNumbered m n ((k, e) ∷ d) h (x, all) = (
  record {
    number = x.number;
    below = omega (arith, x.below);
    spelled = x.spelled;
    named = x.named;
  },
  All-IsNumbered m n d h all,
)

entered-ActiveOk :
    (id : String) (e : WorkerEntry) (a : Option String) (d : Targets)
    → ActiveOk a d
    → ActiveOk (or_active a id) (Dict.insert id e d)
entered-ActiveOk id e none d h = rw (lookup-insert id id e d, if_pos _ refl)
entered-ActiveOk id e (some a) d h = elim (string_eq.dec id a) [
  | yes p ↦ rw (lookup-insert a id e d, if_pos _ p)
  | no p ↦ rw (lookup-insert a id e d, if_neg _ p) h
]

pub enter-StateIsValid :
    (drained : Bool) (id : String) (n : ℕ) (info : TargetInfo) (sock c i : String)
    (st : RouterState)
    → StateIsValid drained st
    → IsFree c i st.targets
    → n < st.next_id
    → id ≡ target_id n
    → StateIsValid drained (enter id info sock c i st)
unfolding enter
enter-StateIsValid drained id n info sock c i st v free below spelled = record {
  nodup = insert-NodupKeys id _ st.targets v.nodup;
  numbered =
      All-insert (IsNumbered st.next_id) id _ st.targets v.numbered
        (record { number = n; below = below; spelled = spelled; named = refl });
  small = v.small;
  apart = insert-AllApart id _ st.targets free v.apart;
  activated = λ live. entered-ActiveOk id _ st.active st.targets (v.activated live);
}

pub alloc-StateIsValid :
    (drained : Bool) (st : RouterState)
    → st.next_id + 1 < word
    → StateIsValid drained st
    → StateIsValid drained (alloc_id st).0
unfolding alloc_id
alloc-StateIsValid drained st h v =
    let q : (st.next_id + 1) % word ≡ st.next_id + 1 = omega (arith, h) in
    record {
      nodup = v.nodup;
      numbered = All-IsNumbered st.next_id _ st.targets (omega (arith, h)) v.numbered;
      small = omega (arith, h);
      apart = v.apart;
      activated = v.activated;
    }

-- A state in which targets have only gone.
pub loading_kept :
    (l : Loading) (st st' : RouterState)
    → ((c i : String) → IsFree c i st.targets → IsFree c i st'.targets)
    → st'.next_id ≡ st.next_id
    → LoadingIsValid l st
    → LoadingIsValid l st'
loading_kept unlocked st st' f q v = tt
loading_kept (checked c i) st st' f q v = f c i v
loading_kept (allocated id c i) st st' f q (free, n, below, spelled) =
    (f c i free, n, omega (arith, q, below), spelled)

-- ===== src/Manager/Laws.antt =====
-- src/daemon/target.rs: the worker's table against the router's.
use ida_rs_cli.Base.{
  ℕ, ◌+◌, ◌%◌, ◌<◌, String, is_some, Option, none, some, List, [], ◌∷◌, string_eq, ◌≡◌, refl, sym,
  ap, arith, if_pos,
}
use ida_rs_cli.Base.Dict
use ida_rs_cli.Base.Dict.{Dict}
use ida_rs_cli.Base.Dict.Laws.{lookup-insert}
use ida_rs_cli.Base.Numbers.{word}
use ida_rs_cli.Targets.{
  TargetInfo, Entry, target_id, has_id, matching, of_matches, of_active, resolve_selector,
}
use ida_rs_cli.Router.Paths.{number_of-target_id}
use ida_rs_cli.Manager.{
  TargetRecord, TargetManager, load, seed_next_id, filtered, one_of, current, resolve,
}

of_matches-one_of : (sel : String) (ids : List String) → of_matches sel ids ≡ one_of sel ids
of_matches-one_of sel [] = refl
of_matches-one_of sel (id ∷ []) = refl
of_matches-one_of sel (id ∷ j ∷ ids) = refl

of_active-current : (o : Option String) → of_active o ≡ current o
of_active-current none = refl
of_active-current (some id) = refl

module _ {D : Type 0} where
  abbrev pub entries : Dict String (TargetRecord D) → List Entry
  entries [] = []
  entries ((id, t) ∷ d) = (id, (t.info.filename, t.info.path)) ∷ entries d

  has_id-entries :
      (sel : String) (d : Dict String (TargetRecord D))
      → has_id sel (entries d) ≡ is_some (Dict.lookup sel d)
  unfolding Dict.lookup
  has_id-entries sel [] = refl
  has_id-entries sel ((id, t) ∷ d) = ground (arith, has_id-entries sel d)

  matching-entries :
      (sel : String) (d : Dict String (TargetRecord D)) → matching sel (entries d) ≡ filtered sel d
  unfolding filtered
  matching-entries sel [] = refl
  matching-entries sel ((id, t) ∷ d) = rw (matching-entries sel d)

  -- The worker resolves a selector as the router does, though it looks the id up in its map and
  -- filters the map, where the router walks a list of names.
  pub resolve-resolve_selector :
      (selector : Option String) (m : TargetManager D)
      → resolve selector m ≡ resolve_selector selector m.active_id (entries m.targets)
  unfolding resolve resolve_selector
  resolve-resolve_selector selector m = go m.targets m.active_id m.next_id selector
    where
      go :
          (d : Dict String (TargetRecord D)) (a : Option String) (n : ℕ) (selector : Option String)
          → resolve selector (record { targets = d; active_id = a; next_id = n })
            ≡ resolve_selector selector a (entries d)
      go [] a n selector = refl
      go (e ∷ d) a n none = sym (of_active-current a)
      go (e ∷ d) a n (some sel) = rw (
        has_id-entries sel (e ∷ d),
        matching-entries sel (e ∷ d),
        of_active-current a,
        of_matches-one_of sel (filtered sel (e ∷ d)),
      )

  seed_next_id-target_id :
      (n : ℕ) (m : TargetManager D)
      → n < word
      → seed_next_id (target_id n) m ≡ record m { next_id = n }
  unfolding seed_next_id
  seed_next_id-target_id n m h =
      ap (λ o. elim o as (λ _. TargetManager D) [ none ↦ m | some k ↦ record m { next_id = k } ])
        (number_of-target_id n h)

  -- A worker whose counter is seeded with an id gives that id to the target it loads next, makes it
  -- the active one if none is, and counts on from there.
  pub seed_next_id-load :
      (n : ℕ) (db : D) (told : TargetInfo) (m : TargetManager D)
      → n + 1 < word
      → let (m', info) = load db told (seed_next_id (target_id n) m) in
        (info.id ≡ target_id n)
        × (Dict.lookup (target_id n) m'.targets ≡ some (record { idb = some db; info = info }))
        × (m'.next_id ≡ n + 1)
  unfolding load
  seed_next_id-load n db told m h =
      let q : (n + 1) % word ≡ n + 1 = omega (arith, h) in
      rw (seed_next_id-target_id n m (omega (arith, h)))
        (refl, rw (lookup-insert (target_id n) (target_id n) _ m.targets, if_pos _ refl), q)

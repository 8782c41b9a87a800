-- ===== src/Handlers/Paths/Sound.antt =====
-- Every path that the search returns is one.
use ida_rs_cli.Base.{
  ℕ, zero, suc, ◌≤◌, true, false, some, List, [], ◌∷◌, ◌++◌, map, String, length, length-push,
  contains-here, contains-there, Every, Every-append, contains, ltb, leb, ◌==◌, nat_eq, ◌≡◌, ap,
  Bool-cases, Option-cases, inl, inr, arith, subst,
}
use ida_rs_cli.Handlers.{hex}
use ida_rs_cli.Handlers.Paths.{Graph, each_succ, dfs, Results}

pub nat_eq_true : (m n : ℕ) → (m == n) ≡ true → m ≡ n
nat_eq_true m n h = ground arith

module _ (g : Graph) (start end max_depth max_paths : ℕ) where
  -- One of the successors of `a` is the block `b`.
  abbrev pub Edge : ℕ → ℕ → Type 0
  Edge a b = (s : ℕ) × (contains (g.succs a) s ≡ true) × (g.index s ≡ some b)

  -- The blocks of a simple path from `start`, before its last one.
  pub data Trail : List ℕ → ℕ → Type 0 where
    begins : Trail [] start
    goes :
        {path : List ℕ} {a b : ℕ}
        → Trail path a
        → Edge a b
        → contains (path ++ a ∷ []) b ≡ false
        → Trail (path ++ a ∷ []) b

  -- A path that may be returned: simple, from `start` to `end`, of `max_depth + 1` blocks at most.
  abbrev pub IsFound : List String → Type 0
  IsFound addresses =
      (path : List ℕ) × Trail path end
      × (length path ≤ max_depth)
      × (addresses ≡ map (λ i. hex (g.address i)) (path ++ end ∷ []))

  abbrev pub AreFound : Results → Type 0
  AreFound results = Every IsFound results × (length results ≤ max_paths)

  each_succ-AreFound :
      (go : ℕ → Results → Results) (path ss : List ℕ) (results : Results)
      → ((next : ℕ) (r : Results)
          → contains path next ≡ false
          → ((s : ℕ) × (contains ss s ≡ true) × (g.index s ≡ some next))
          → AreFound r
          → AreFound (go next r))
      → AreFound results
      → AreFound (each_succ g end max_depth max_paths go path ss results)
  unfolding each_succ
  each_succ-AreFound go path [] results step h = h
  each_succ-AreFound go path (s ∷ ss) results step h =
      let later : (next : ℕ) (r : Results)
          → contains path next ≡ false
          → ((x : ℕ) × (contains ss x ≡ true) × (g.index x ≡ some next))
          → AreFound r
          → AreFound (go next r) =
        λ next r c edge. step next r c (edge.0, contains-there s edge.0 ss edge.1, edge.2) in
      elim (Option-cases (g.index s)) [
        | inl n ↦ rw (n, each_succ) (each_succ-AreFound go path ss results later h)
        | inr (i, e) ↦ elim (Bool-cases (contains path i)) [
          | inl t ↦ rw (e, each_succ, t) (each_succ-AreFound go path ss results later h)
          | inr f ↦
              let h' = step i results f (s, contains-here s ss, e) h in
              elim (Bool-cases (leb max_paths (length (go i results)))) [
                | inl t ↦ rw (e, each_succ, f, t) h'
                | inr u ↦
                    rw (e, each_succ, f, u) (each_succ-AreFound go path ss (go i results) later h')
              ]
        ]
      ]

  pub dfs-AreFound :
      (fuel cur : ℕ) (path : List ℕ) (results : Results)
      → Trail path cur
      → AreFound results
      → AreFound (dfs g end max_depth max_paths fuel cur path results)
  unfolding dfs
  dfs-AreFound zero cur path results t h = h
  dfs-AreFound (suc fuel) cur path results t h =
      elim (Bool-cases (leb max_paths (length results))) [
        | inl full ↦ rw (full, dfs) h
        | inr room ↦ elim (Bool-cases (ltb max_depth (length path))) [
          | inl deep ↦ rw (room, dfs, deep) h
          | inr fits ↦ elim (Bool-cases (cur == end)) [
            | inl same ↦
                let q = nat_eq_true cur end same in
                rw (room, dfs, fits, same)
                  (
                    Every-append IsFound results _ h.0 (
                      (
                        path,
                        subst (λ x. Trail path x) q t,
                        ground arith,
                        ap (λ x. map (λ i. hex (g.address i)) (path ++ x ∷ [])) q,
                      ),
                      tt,
                    ),
                    length-push max_paths results _ room,
                  )
            | inr other ↦
                rw (room, dfs, fits, other)
                  (each_succ-AreFound
                    (λ next r. dfs g end max_depth max_paths fuel next (path ++ cur ∷ []) r)
                    (path ++ cur ∷ []) (g.succs cur) results
                    (λ next r c edge hr.
                      dfs-AreFound fuel next (path ++ cur ∷ []) r (goes t edge c) hr)
                    h)
          ]
        ]
      ]

-- ===== src/Handlers/Paths/Complete.antt =====
-- Every path there is is returned, unless the search stops at its maximum of paths.
use ida_rs_cli.Base.{
  ℕ, zero, suc, ◌+◌, ◌≤◌, ◌<◌, true, false, some, List, [], ◌∷◌, ◌++◌, map, String, length,
  length-append, append_assoc, contains, ltb, leb, ◌==◌, nat_eq, ◌≡◌, refl, sym, Bool-cases,
  Option-cases, inl, inr, ◌⊎◌, arith, subst,
}
use ida_rs_cli.Handlers.{hex}
use ida_rs_cli.Handlers.Paths.{Graph, each_succ, dfs, Results}
use ida_rs_cli.Handlers.Paths.Sound.{nat_eq_true}

abbrev pub In : List String → Results → Type 0
In r [] = ⊥
In r (x ∷ xs) = (x ≡ r) ⊎ In r xs

In-append : (r : List String) (xs ys : Results) → In r xs → In r (xs ++ ys)
In-append r [] ys m = absurd m
In-append r (x ∷ xs) ys (inl e) = inl e
In-append r (x ∷ xs) ys (inr m) = inr (In-append r xs ys m)

In-last : (r : List String) (xs : Results) → In r (xs ++ r ∷ [])
In-last r [] = inl refl
In-last r (x ∷ xs) = inr (In-last r xs)

-- What was found stays.
abbrev Keeps : (Results → Results) → Type 0
Keeps f =
    (results : Results)
    → ((r : List String) → In r results → In r (f results)) × (length results ≤ length (f results))

module _ (g : Graph) (end : ℕ) where
  -- A simple way from a block to `end`, after the blocks of `path`.
  pub data Way : List ℕ → ℕ → List ℕ → Type 0 where
    ends : {path : List ℕ} → Way path end (end ∷ [])
    via :
        {path : List ℕ} {a b : ℕ} {p : List ℕ}
        → (a == end) ≡ false
        → (s : ℕ) → contains (g.succs a) s ≡ true
        → g.index s ≡ some b
        → contains (path ++ a ∷ []) b ≡ false
        → Way (path ++ a ∷ []) b p
        → Way path a (a ∷ p)

module _ (g : Graph) (end max_depth max_paths : ℕ) where
  each_succ-Keeps :
      (go : ℕ → Results → Results) (path ss : List ℕ)
      → ((next : ℕ) → Keeps (go next))
      → Keeps (each_succ g end max_depth max_paths go path ss)
  unfolding each_succ
  each_succ-Keeps go path [] k results = (λ r m. m, omega arith)
  each_succ-Keeps go path (s ∷ ss) k results = elim (Option-cases (g.index s)) [
    | inl n ↦ rw (n, each_succ) (each_succ-Keeps go path ss k results)
    | inr (i, e) ↦ elim (Bool-cases (contains path i)) [
      | inl t ↦ rw (e, each_succ, t) (each_succ-Keeps go path ss k results)
      | inr f ↦
          let first = k i results in
          let rest = each_succ-Keeps go path ss k (go i results) in
          elim (Bool-cases (leb max_paths (length (go i results)))) [
            | inl t ↦ rw (e, each_succ, f, t) first
            | inr u ↦
                rw (e, each_succ, f, u)
                  (λ r m. rest.0 r (first.0 r m), omega (arith, first.1, rest.1))
          ]
    ]
  ]

  dfs-Keeps : (fuel cur : ℕ) (path : List ℕ) → Keeps (dfs g end max_depth max_paths fuel cur path)
  unfolding dfs
  dfs-Keeps zero cur path results = (λ r m. m, omega arith)
  dfs-Keeps (suc fuel) cur path results = elim (Bool-cases (leb max_paths (length results))) [
    | inl full ↦ rw (full, dfs) (λ r m. m, omega arith)
    | inr room ↦ elim (Bool-cases (ltb max_depth (length path))) [
      | inl deep ↦ rw (room, dfs, deep) (λ r m. m, omega arith)
      | inr fits ↦ elim (Bool-cases (cur == end)) [
        | inl same ↦
            rw (room, dfs, fits, same)
              (
                λ r m. In-append r results _ m,
                omega (
                  arith,
                  length-append results (map (λ i. hex (g.address i)) (path ++ cur ∷ []) ∷ []),
                ),
              )
        | inr other ↦
            rw (room, dfs, fits, other)
              (each_succ-Keeps
                (λ next r. dfs g end max_depth max_paths fuel next (path ++ cur ∷ []) r)
                (path ++ cur ∷ []) (g.succs cur) (λ next. dfs-Keeps fuel next (path ++ cur ∷ []))
                results)
      ]
    ]
  ]

  each_succ-In :
      (go : ℕ → Results → Results) (path ss : List ℕ) (s b : ℕ) (t : List String)
      → ((next : ℕ) → Keeps (go next))
      → ((r : Results) → length (go b r) < max_paths → In t (go b r))
      → g.index s ≡ some b
      → contains path b ≡ false
      → contains ss s ≡ true
      → (results : Results)
      → length (each_succ g end max_depth max_paths go path ss results) < max_paths
      → In t (each_succ g end max_depth max_paths go path ss results)
  unfolding each_succ
  each_succ-In go path [] s b t k find e c m results h = absurd (cc)
  each_succ-In go path (x ∷ ss) s b t k find e c m results h = elim (Bool-cases (x == s)) [
    | inl same ↦
        let e' : g.index x ≡ some b =
          subst (λ y. g.index y ≡ some b) (sym (nat_eq_true x s same)) e in
        elim (Bool-cases (leb max_paths (length (go b results)))) [
          | inl u ↦ rw (e', each_succ, c, u) (find results (rw (e', each_succ, c, u) at h))
          | inr u ↦
              rw (e', each_succ, c, u)
                ((each_succ-Keeps go path ss k (go b results)).0 t (find results (ground arith)))
        ]
    | inr other ↦
        let m' : contains ss s ≡ true = rw other at m in
        elim (Option-cases (g.index x)) [
          | inl n ↦
              rw (n, each_succ)
                (each_succ-In go path ss s b t k find e c m' results (rw (n, each_succ) at h))
          | inr (i, q) ↦ elim (Bool-cases (contains path i)) [
            | inl u ↦
                rw (q, each_succ, u)
                  (each_succ-In go path ss s b t k find e c m' results (rw (q, each_succ, u) at h))
            | inr f ↦ elim (Bool-cases (leb max_paths (length (go i results)))) [
              | inl u ↦
                  let l : length (go i results) < max_paths = rw (q, each_succ, f, u) at h in
                  absurd (ground arith)
              | inr u ↦
                  rw (q, each_succ, f, u)
                    (each_succ-In go path ss s b t k find e c m' (go i results)
                      (rw (q, each_succ, f, u) at h))
            ]
          ]
        ]
  ]

  Way-length : {path : List ℕ} {a : ℕ} {p : List ℕ} → Way g end path a p → 1 ≤ length p
  Way-length ends = omega arith
  Way-length (via o s m e c w) = omega arith

  -- A call that has room for a result and for its block goes on to the block.
  pub dfs-In :
      (fuel : ℕ) {cur : ℕ} {path p : List ℕ} (results : Results)
      → Way g end path cur p
      → length path + length p ≤ max_depth + 1
      → fuel + length path ≡ max_depth + 1
      → length (dfs g end max_depth max_paths fuel cur path results) < max_paths
      → In
          (map (λ i. hex (g.address i)) (path ++ p))
          (dfs g end max_depth max_paths fuel cur path results)
  unfolding dfs
  dfs-In zero {path = path} {p} results w h k l = absurd (omega (arith, h, k, Way-length w))
  dfs-In (suc fuel) {path = path} results ends h k l =
      let fits : ltb max_depth (length path) ≡ false = ground arith in
      let same : (end == end) ≡ true = ground arith in
      elim (Bool-cases (leb max_paths (length results))) [
        | inl full ↦
            let small : length results < max_paths = rw (full, dfs) at l in absurd (ground arith)
        | inr room ↦
            rw (room, dfs, fits, same)
              (In-last (map (λ i. hex (g.address i)) (path ++ end ∷ [])) results)
      ]
  dfs-In (suc fuel) {path = path} results (via {a} {b} {p} other s m e c w) h k l =
      let fits : ltb max_depth (length path) ≡ false = ground arith in
      elim (Bool-cases (leb max_paths (length results))) [
        | inl full ↦
            let small : length results < max_paths = rw (full, dfs) at l in absurd (ground arith)
        | inr room ↦
            rw (room, dfs, fits, other, ← append_assoc path (a ∷ []) p)
              (each_succ-In (λ next r. dfs g end max_depth max_paths fuel next (path ++ a ∷ []) r)
                (path ++ a ∷ []) (g.succs a) s b
                (map (λ i. hex (g.address i)) ((path ++ a ∷ []) ++ p))
                (λ next. dfs-Keeps fuel next (path ++ a ∷ []))
                (λ r q.
                  dfs-In fuel r w (omega (arith, h, length-append path (a ∷ [])))
                    (omega (arith, k, length-append path (a ∷ []))) q)
                e c m results (rw (room, dfs, fits, other) at l))
      ]

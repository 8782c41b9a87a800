-- ===== src/Handlers/Paths/Laws.antt =====
-- The answer of the search: sound, bounded, and complete when it stops before its maximum.
use ida_rs_cli.Base.{
  ℕ, ◌+◌, ◌≤◌, ◌<◌, max, some, List, [], map, length, ◌≡◌, refl, subst, Option-cases, inl, inr,
  arith,
}
use ida_rs_cli.Handlers.{ok, err, ToolError, hex, address_out_of_range}
use ida_rs_cli.Handlers.Paths.{
  Block, Paths, Results, graph_of, address_of, position_from, counted, dfs, search_paths,
}
use ida_rs_cli.Handlers.Paths.Sound.{begins, AreFound, dfs-AreFound}
use ida_rs_cli.Handlers.Paths.Complete.{In, Way, dfs-In}

-- Every simple path of `depth + 1` blocks at most is among the results.
abbrev pub HasAll : List Block → ℕ → ℕ → ℕ → Results → Type 0
HasAll bs s e depth results =
    (p : List ℕ)
    → Way (graph_of bs) e [] s p
    → length p ≤ depth + 1
    → In (map (λ i. hex (address_of bs i)) p) results

pub record IsExact (bs : List Block) (start end max_paths max_depth : ℕ) (r : Paths) : Type 0 where
  pub first : ℕ
  pub last : ℕ
  pub starts : position_from 0 start bs ≡ some first
  pub stops : position_from 0 end bs ≡ some last
  pub sound : AreFound (graph_of bs) first last (max max_depth 1) (max max_paths 1) r.paths
  pub complete : length r.paths < max max_paths 1 → HasAll bs first last (max max_depth 1) r.paths
  pub counts : r.count ≡ length r.paths

err_not_ok : (e : ToolError) (r : Paths) → err e ≡ ok r → ⊥
err_not_ok e r q = absurd (cc)

ok_eq : {r t : Paths} → ok r ≡ ok t → r ≡ t
ok_eq q = cc

dfs-IsExact :
    (bs : List Block) (start end max_paths max_depth s e : ℕ)
    → position_from 0 start bs ≡ some s
    → position_from 0 end bs ≡ some e
    → IsExact bs start end max_paths max_depth (
        counted
          (dfs (graph_of bs) e (max max_depth 1) (max max_paths 1) (max max_depth 1 + 1) s [] []))
dfs-IsExact bs start end max_paths max_depth s e p q = record {
  first = s;
  last = e;
  starts = p;
  stops = q;
  sound =
      dfs-AreFound (graph_of bs) s e (max max_depth 1) (max max_paths 1) (max max_depth 1 + 1) s []
        [] begins (tt, omega arith);
  complete = λ l w way k.
      dfs-In (graph_of bs) e (max max_depth 1) (max max_paths 1) (max max_depth 1 + 1) [] way
        (omega (arith, k)) (omega arith) l;
  counts = refl;
}

-- Whatever the graph, each path that is returned leads from the block of the first address to that of the
-- second along edges, without a block twice and with `max_depth + 1` blocks at most, and there are
-- `max_paths` at most (both at least 1). When fewer are returned, no such path is missing.
pub search_paths-IsExact :
    (bs : List Block) (start end max_paths max_depth : ℕ) (r : Paths)
    → search_paths bs start end max_paths max_depth ≡ ok r
    → IsExact bs start end max_paths max_depth r
unfolding search_paths
search_paths-IsExact bs start end max_paths max_depth r h =
    elim (Option-cases (position_from 0 start bs)) [
      | inl n ↦ absurd (err_not_ok (address_out_of_range start) r (rw (n, search_paths) at h))
      | inr (s, p) ↦ elim (Option-cases (position_from 0 end bs)) [
        | inl n ↦ absurd (err_not_ok (address_out_of_range end) r (rw (p, search_paths, n) at h))
        | inr (e, q) ↦
            subst (λ x. IsExact bs start end max_paths max_depth x)
              (ok_eq (rw (p, search_paths, q) at h))
              (dfs-IsExact bs start end max_paths max_depth s e p q)
      ]
    ]

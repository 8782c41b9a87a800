-- ===== src/Handlers/Paths.antt =====
-- src/ida/handlers/controlflow.rs: the search for paths between two addresses of a function.
pub mod Sound
pub mod Complete
pub mod Laws
use ida_rs_cli.Base.{
  ℕ, zero, suc, ◌+◌, max, Bool, true, false, not, Option, none, some, List, [], ◌∷◌, ◌++◌, map,
  String, length, contains, ltb, leb, if◌then◌else◌, ◌==◌, nat_eq,
}
use ida_rs_cli.Handlers.{
  Outcome, ok, err, ToolError, no_database_open, function_not_found, not_supported, ida_error,
  address_out_of_range, hex,
}

-- idalib's basic block: its successors by their start addresses.
pub record Block : Type 0 where
  pub start_address : ℕ
  pub contains_address : ℕ → Bool
  pub succs : List ℕ

pub data Cfg : Type 0 where
  blocks : List Block → Cfg
  failed : String → Cfg

pub record Function : Type 0 where
  pub contains_address : ℕ → Bool
  pub cfg : Cfg

pub record Functions : Type 0 where
  pub function_at : ℕ → Option Function

-- `blocks[idx].succs_with(cfg)` and `blocks[idx].start_address()`. An index is always one of a block.
abbrev pub succs_of : List Block → ℕ → List ℕ
succs_of [] i = []
succs_of (b ∷ bs) zero = b.succs
succs_of (b ∷ bs) (suc i) = succs_of bs i

abbrev pub address_of : List Block → ℕ → ℕ
address_of [] i = 0
address_of (b ∷ bs) zero = b.start_address
address_of (b ∷ bs) (suc i) = address_of bs i

abbrev later_or : Option ℕ → Option ℕ → Option ℕ
later_or none o = o
later_or (some i) o = some i

-- `index_by_start`: of blocks with one start address, the last one stands in the map.
abbrev pub index_from : ℕ → ℕ → List Block → Option ℕ
index_from i addr [] = none
index_from i addr (b ∷ bs) =
    later_or (index_from (suc i) addr bs) (if b.start_address == addr then some i else none)

-- `position(|b| b.contains_address(addr))`.
abbrev pub position_from : ℕ → ℕ → List Block → Option ℕ
position_from i addr [] = none
position_from i addr (b ∷ bs) =
    let rest = position_from (suc i) addr bs in if b.contains_address addr then some i else rest

-- What the search sees of the graph.
pub record Graph : Type 0 where
  pub succs : ℕ → List ℕ
  pub index : ℕ → Option ℕ
  pub address : ℕ → ℕ

abbrev pub Results : Type 0
Results = List (List String)

module _ (g : Graph) (end max_depth max_paths : ℕ) where
  -- The loop over the successors, given the call for the next block.
  unfoldable pub each_succ : (ℕ → Results → Results) → List ℕ → List ℕ → Results → Results
  each_succ go path [] results = results
  each_succ go path (s ∷ ss) results = elim (g.index s) [
    | none ↦ each_succ go path ss results
    | some next ↦ elim (contains path next) [
      | true ↦ each_succ go path ss results
      | false ↦ elim (leb max_paths (length (go next results))) [
        | true ↦ go next results
        | false ↦ each_succ go path ss (go next results)
      ]
    ]
  ]

  -- `dfs`. The path grows with each call, so that `max_depth + 1` calls deep the guard on its length
  -- ends the search: that is the fuel. The path is popped on every way out.
  unfoldable pub dfs : ℕ → ℕ → List ℕ → Results → Results
  dfs zero cur path results = results
  dfs (suc fuel) cur path results = elim (leb max_paths (length results)) [
    | true ↦ results
    | false ↦ elim (ltb max_depth (length path)) [
      | true ↦ results
      | false ↦ elim (cur == end) [
        | true ↦ results ++ map (λ i. hex (g.address i)) (path ++ cur ∷ []) ∷ []
        | false ↦
            each_succ (λ next r. dfs fuel next (path ++ cur ∷ []) r) (path ++ cur ∷ [])
              (g.succs cur) results
      ]
    ]
  ]

abbrev pub graph_of : List Block → Graph
graph_of bs = record {
  succs = succs_of bs;
  index = λ addr. index_from 0 addr bs;
  address = address_of bs;
}

pub record Paths : Type 0 where
  pub paths : List (List String)
  pub count : ℕ

abbrev pub counted : List (List String) → Paths
counted results = record { paths = results; count = length results }

unfoldable pub search_paths : List Block → ℕ → ℕ → ℕ → ℕ → Outcome Paths
search_paths bs start end max_paths max_depth = elim (position_from 0 start bs) [
  | none ↦ err (address_out_of_range start)
  | some start_idx ↦ elim (position_from 0 end bs) [
    | none ↦ err (address_out_of_range end)
    | some end_idx ↦ ok (
        counted (
          dfs (graph_of bs) end_idx (max max_depth 1) (max max_paths 1) (max max_depth 1 + 1)
            start_idx [] []))
  ]
]

abbrev pub search_cfg : Cfg → ℕ → ℕ → ℕ → ℕ → Outcome Paths
search_cfg (failed text) start end max_paths max_depth = err (ida_error text)
search_cfg (blocks bs) start end max_paths max_depth = search_paths bs start end max_paths max_depth

unfoldable pub handle_find_paths : Option Functions → ℕ → ℕ → ℕ → ℕ → Outcome Paths
handle_find_paths none start end max_paths max_depth = err no_database_open
handle_find_paths (some db) start end max_paths max_depth = elim (db.function_at start) [
  | none ↦ err (function_not_found start)
  | some func ↦
      if func.contains_address end
      then search_cfg func.cfg start end max_paths max_depth
      else err (not_supported "find_paths only supports addresses within the same function")
]

-- ===== src/Tools/Filter.antt =====
-- src/server/tool_filter.rs: which tools the server offers. A HashSet is a list without repetitions.
pub mod Sets
pub mod Stages
pub mod Laws
use ida_rs_cli.Base.{
  ℕ, Bool, true, false, not, ◌&&◌, ◌||◌, Option, none, some, List, [], ◌∷◌, ◌++◌, map, String,
  contains, length, if◌then◌else◌, ◌==◌, nat_eq, string_eq,
}
use ida_rs_cli.Base.Trim.{trim}
use ida_rs_cli.Tools.{ToolInfo, ToolCategory, from_str, get_tool, tools_by_category}
use Prim.Native.Char.{Char, code}

abbrev pub read_only_deny_list : List String
read_only_deny_list =
    "run_script" ∷ "patch" ∷ "patch_asm" ∷ "rename" ∷ "set_comments" ∷ "lumina_apply"
    ∷ "declare_type" ∷ "apply_types" ∷ "infer_types" ∷ "declare_stack" ∷ "delete_stack"
    ∷ "dsc_add_dylib" ∷ "dsc_add_region" ∷ "analyze_funcs" ∷ []

pub data ToolFilterError : Type 0 where
  unknown_toolset : String → ToolFilterError
  unknown_tool : String → ToolFilterError
  empty_final_set : ToolFilterError

pub data Built (A : Type 0) : Type 0 where
  ok : A → Built A
  err : ToolFilterError → Built A

pub record ToolFilter : Type 0 where
  pub enabled : List String
  pub is_active : Bool

-- `HashSet::insert` and `HashSet::remove`.
unfoldable pub insert : String → List String → List String
insert name set = if contains set name then set else name ∷ set

unfoldable pub remove : String → List String → List String
remove name [] = []
remove name (s ∷ set) = let rest = remove name set in if s == name then rest else s ∷ rest

abbrev pub insert_all : List String → List String → List String
insert_all [] set = set
insert_all (name ∷ names) set = insert_all names (insert name set)

abbrev pub remove_all : List String → List String → List String
remove_all [] set = set
remove_all (name ∷ names) set = remove_all names (remove name set)

-- `s.split(',')`.
abbrev onto_first : Char → List String → List String
onto_first c [] = String.◌∷◌ c String.[] ∷ []
onto_first c (s ∷ ss) = String.◌∷◌ c s ∷ ss

abbrev pub split_commas : String → List String
split_commas String.[] = String.[] ∷ []
split_commas (String.◌∷◌ c s) =
    let rest = split_commas s in if code c == 44 then String.[] ∷ rest else onto_first c rest

abbrev pub trimmed : List String → List String
trimmed [] = []
trimmed (s ∷ ss) = let rest = trimmed ss in if trim s == "" then rest else trim s ∷ rest

abbrev pub pieces : List String → List String
pieces [] = []
pieces (s ∷ ss) = split_commas s ++ pieces ss

abbrev pub clean : List String → List String
clean input = trimmed (pieces input)

abbrev pub is_empty : List String → Bool
is_empty [] = true
is_empty (s ∷ ss) = false

abbrev pub names : List ToolInfo → List String
names tools = map (λ t. t.name) tools

abbrev pub and_then : {A B : Type 0} → Built A → (A → Built B) → Built B
and_then (ok a) k = k a
and_then (err e) k = err e

module _ (lowercase : String → String) (registry : List ToolInfo) where
  unfoldable pub add_toolsets : List String → List String → Built (List String)
  add_toolsets [] enabled = ok enabled
  add_toolsets (raw ∷ toolsets) enabled = elim (from_str lowercase raw) [
    | none ↦ err (unknown_toolset raw)
    | some cat ↦ add_toolsets toolsets (insert_all (names (tools_by_category registry cat)) enabled)
  ]

  unfoldable pub add_tools : List String → List String → Built (List String)
  add_tools [] enabled = ok enabled
  add_tools (raw ∷ tools) enabled = elim (get_tool registry raw) [
    | none ↦ err (unknown_tool raw)
    | some tool ↦ add_tools tools (insert tool.name enabled)
  ]

  unfoldable pub exclude : List String → List String → Built (List String)
  exclude [] enabled = ok enabled
  exclude (raw ∷ excludes) enabled = elim (get_tool registry raw) [
    | none ↦ err (unknown_tool raw)
    | some tool ↦ exclude excludes (remove tool.name enabled)
  ]

  abbrev pub deny : Bool → List String → List String
  deny read_only enabled = if read_only then remove_all read_only_deny_list enabled else enabled

  abbrev pub base : List String → List String → List String
  base toolsets tools =
      if is_empty toolsets && is_empty tools then insert_all (names registry) [] else []

  abbrev pub settled : Bool → List String → Built ToolFilter
  settled any_input [] = err empty_final_set
  settled any_input (s ∷ enabled) = ok record { enabled = s ∷ enabled; is_active = any_input }

  -- `from_inputs` after the lists are cleaned.
  unfoldable pub build : List String → List String → List String → Bool → Built ToolFilter
  build toolsets tools excludes read_only =
      let any_input =
        not (is_empty toolsets) || not (is_empty tools) || not (is_empty excludes) || read_only in
      and_then (add_toolsets toolsets (base toolsets tools)) (λ categories.
        and_then (add_tools tools categories) (λ included.
          and_then (exclude excludes included) (λ left. settled any_input (deny read_only left))))

  unfoldable pub from_inputs : List String → List String → List String → Bool → Built ToolFilter
  from_inputs toolsets tools exclude_tools read_only =
      build (clean toolsets) (clean tools) (clean exclude_tools) read_only

  unfoldable pub unrestricted : ToolFilter
  unrestricted = record { enabled = insert_all (names registry) []; is_active = false }

abbrev pub is_enabled : ToolFilter → String → Bool
is_enabled f name = contains f.enabled name

abbrev pub enabled_count : ToolFilter → ℕ
enabled_count f = length f.enabled

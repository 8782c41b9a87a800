-- ===== src/Tools.antt =====
-- src/tool_registry.rs: categories of tools, the search among them, and what looks tools up. The
-- table is an argument here; Registry has it. The longer texts that only the help shows are left out.
-- `lowercase` is Rust's `str::to_lowercase`.
pub mod Registry
pub mod Filter
use ida_rs_cli.Base.{
  ℕ, zero, suc, ◌+◌, Bool, true, false, ◌||◌, ◌&&◌, Option, none, some, List, [], ◌∷◌, ◌++◌, map,
  String, select, length, take, contains, ltb, if◌then◌else◌, ◌==◌, nat_eq, string_eq,
}
use ida_rs_cli.Base.Trim.{trim, is_space}
use ida_rs_cli.Targets.{includes}
use Prim.Native.Char.{Char, code}

pub data ToolCategory : Type 0 where
  core : ToolCategory
  functions : ToolCategory
  disassembly : ToolCategory
  decompile : ToolCategory
  xrefs : ToolCategory
  control_flow : ToolCategory
  memory : ToolCategory
  search : ToolCategory
  metadata : ToolCategory
  types : ToolCategory
  editing : ToolCategory
  debug : ToolCategory
  ui : ToolCategory
  scripting : ToolCategory

abbrev pub as_str : ToolCategory → String
as_str core = "core"
as_str functions = "functions"
as_str disassembly = "disassembly"
as_str decompile = "decompile"
as_str xrefs = "xrefs"
as_str control_flow = "control_flow"
as_str memory = "memory"
as_str search = "search"
as_str metadata = "metadata"
as_str types = "types"
as_str editing = "editing"
as_str debug = "debug"
as_str ui = "ui"
as_str scripting = "scripting"

abbrev pub all : List ToolCategory
all =
    core ∷ functions ∷ disassembly ∷ decompile ∷ xrefs ∷ control_flow ∷ memory ∷ search ∷ metadata
    ∷ types ∷ editing ∷ debug ∷ ui ∷ scripting ∷ []

-- The names that `from_str` knows, with what they stand for.
abbrev pub spellings : List (String × ToolCategory)
spellings =
    ("core", core)
    ∷ ("functions", functions)
    ∷ ("function", functions)
    ∷ ("disassembly", disassembly)
    ∷ ("disasm", disassembly)
    ∷ ("decompile", decompile)
    ∷ ("decompiler", decompile)
    ∷ ("xrefs", xrefs)
    ∷ ("xref", xrefs)
    ∷ ("references", xrefs)
    ∷ ("control_flow", control_flow)
    ∷ ("controlflow", control_flow)
    ∷ ("cfg", control_flow)
    ∷ ("memory", memory)
    ∷ ("data", memory)
    ∷ ("search", search)
    ∷ ("metadata", metadata)
    ∷ ("meta", metadata)
    ∷ ("info", metadata)
    ∷ ("types", types)
    ∷ ("type", types)
    ∷ ("structs", types)
    ∷ ("editing", editing)
    ∷ ("edit", editing)
    ∷ ("debug", debug)
    ∷ ("debugger", debug)
    ∷ ("ui", ui)
    ∷ ("scripting", scripting)
    ∷ ("script", scripting)
    ∷ ("eval", scripting)
    ∷ []

abbrev pub spelled : String → List (String × ToolCategory) → Option ToolCategory
spelled s [] = none
spelled s ((name, cat) ∷ rest) = let later = spelled s rest in if name == s then some cat else later

-- `replace(['-', ' '], "_")`.
abbrev underscored : String → String
underscored String.[] = String.[]
underscored (String.◌∷◌ c s) =
    String.◌∷◌ (if code c == 45 || code c == 32 then "_" else c) (underscored s)

unfoldable pub from_str : (String → String) → String → Option ToolCategory
from_str lowercase input = spelled (underscored (lowercase (trim input))) spellings

pub record ToolInfo : Type 0 where
  pub name : String
  pub category : ToolCategory
  pub short_desc : String
  pub default : Bool
  pub keywords : List String

abbrev pub tool : String → ToolCategory → String → Bool → List String → ToolInfo
tool name category short_desc default keywords = record {
  name = name;
  category = category;
  short_desc = short_desc;
  default = default;
  keywords = keywords;
}

abbrev pub default_tools : List ToolInfo → List ToolInfo
default_tools registry = select (λ t. t.default) registry

unfoldable pub get_tool : List ToolInfo → String → Option ToolInfo
get_tool [] name = none
get_tool (t ∷ ts) name = let rest = get_tool ts name in if t.name == name then some t else rest

abbrev pub same_category : ToolCategory → ToolCategory → Bool
same_category a b = as_str a == as_str b

abbrev pub tools_by_category : List ToolInfo → ToolCategory → List ToolInfo
tools_by_category registry category = select (λ t. same_category t.category category) registry

-- ===== src/Tools/Registry/Names.antt =====
-- The names of categories, and the read-only deny list against the table.
use ida_rs_cli.Base.{String, some, ◌≡◌, refl, nat_eq, string_eq, Every, is_some, true}
use ida_rs_cli.Tools.{
  ToolCategory, core, functions, disassembly, decompile, xrefs, control_flow, memory, search,
  metadata, types, editing, debug, ui, scripting, as_str, from_str, get_tool,
}
use ida_rs_cli.Tools.Registry.{tool_registry}
use ida_rs_cli.Tools.Filter.{read_only_deny_list}

-- The name of a category, in lower case as it is, parses back to the category.
from_str-as_str :
    (lowercase : String → String) (category : ToolCategory)
    → lowercase (as_str category) ≡ as_str category
    → from_str lowercase (as_str category) ≡ some category
unfolding from_str nat_eq string_eq
from_str-as_str lowercase core h = rw h refl
from_str-as_str lowercase functions h = rw h refl
from_str-as_str lowercase disassembly h = rw h refl
from_str-as_str lowercase decompile h = rw h refl
from_str-as_str lowercase xrefs h = rw h refl
from_str-as_str lowercase control_flow h = rw h refl
from_str-as_str lowercase memory h = rw h refl
from_str-as_str lowercase search h = rw h refl
from_str-as_str lowercase metadata h = rw h refl
from_str-as_str lowercase types h = rw h refl
from_str-as_str lowercase editing h = rw h refl
from_str-as_str lowercase debug h = rw h refl
from_str-as_str lowercase ui h = rw h refl
from_str-as_str lowercase scripting h = rw h refl

-- Every tool that the read-only mode takes away is a tool of the table.
pub denied_known : Every (λ name. is_some (get_tool tool_registry name) ≡ true) read_only_deny_list
unfolding get_tool string_eq
denied_known = (
  refl,
  (
    refl,
    (
      refl,
      (refl, (refl, (refl, (refl, (refl, (refl, (refl, (refl, (refl, (refl, (refl, tt))))))))))),
    ),
  ),
)

-- ===== src/Tests/Tools.antt =====
-- The filter over the table of tools.
use ida_rs_cli.Base.{true, [], ◌∷◌, String, ◌≡◌, refl, nat_eq, string_eq}
use ida_rs_cli.Tools.{from_str, get_tool}
use ida_rs_cli.Tools.Registry.{tool_registry}
use ida_rs_cli.Tools.Filter.{
  clean, from_inputs, build, add_toolsets, add_tools, exclude, insert, remove, ok,
}
use ida_rs_cli.Tools.Filter.Laws.{from_inputs-Outcome, Outcome}

abbrev same : String → String
same s = s

decompiles :
    from_inputs same tool_registry ("decompile" ∷ []) ("open_idb, patch" ∷ []) [] true
    ≡ ok record { enabled = "open_idb" ∷ "pseudocode_at" ∷ "decompile" ∷ []; is_active = true }
unfolding from_inputs build add_toolsets add_tools exclude insert remove from_str get_tool nat_eq
    string_eq
decompiles = refl

from_inputs-Outcome_example :
    Outcome same tool_registry
      (clean ("decompile" ∷ []))
      (clean ("open_idb" ∷ []))
      (clean [])
      true
      (from_inputs same tool_registry ("decompile" ∷ []) ("open_idb" ∷ []) [] true)
from_inputs-Outcome_example =
    from_inputs-Outcome same tool_registry ("decompile" ∷ []) ("open_idb" ∷ []) [] true

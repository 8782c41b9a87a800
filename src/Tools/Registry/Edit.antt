-- ===== src/Tools/Registry/Edit.antt =====
-- src/tool_registry.rs: the sections Types, Editing and Scripting of its table.
use ida_rs_cli.Base.{false, List, [], ◌∷◌}
use ida_rs_cli.Tools.{ToolInfo, tool, editing, scripting, types, xrefs}

abbrev pub types_tools : List ToolInfo
types_tools =
    tool "local_types" types "List local types" false ("types" ∷ "local" ∷ "typedef" ∷ [])
    ∷ tool "xrefs_to_field" xrefs "Xrefs to a struct field" false
        ("xrefs" ∷ "struct" ∷ "field" ∷ "member" ∷ [])
    ∷ tool "declare_type" types "Declare a type in the local type library" false
        ("type" ∷ "declare" ∷ "typedef" ∷ [])
    ∷ tool "apply_types" types "Apply a type to an address or stack variable" false
        ("types" ∷ "apply" ∷ "annotations" ∷ [])
    ∷ tool "infer_types" types "Infer/guess type at an address" false
        ("types" ∷ "infer" ∷ "analysis" ∷ [])
    ∷ tool "stack_frame" types "Get stack frame info" false ("stack" ∷ "frame" ∷ "locals" ∷ [])
    ∷ tool "declare_stack" types "Declare a stack variable" false
        ("stack" ∷ "declare" ∷ "variable" ∷ [])
    ∷ tool "delete_stack" types "Delete a stack variable" false
        ("stack" ∷ "delete" ∷ "variable" ∷ [])
    ∷ tool "structs" types "List structs with pagination" false ("structs" ∷ "types" ∷ "list" ∷ [])
    ∷ tool "struct_info" types "Get struct info by name or ordinal" false
        ("struct" ∷ "info" ∷ "types" ∷ [])
    ∷ tool "read_struct" types "Read a struct instance at an address" false
        ("struct" ∷ "read" ∷ "values" ∷ [])
    ∷ tool "search_structs" types "Search structs by name" false
        ("struct" ∷ "search" ∷ "types" ∷ [])
    ∷ []

abbrev pub editing_tools : List ToolInfo
editing_tools =
    tool "set_comments" editing "Set comments at an address" false
      ("comments" ∷ "set" ∷ "annotate" ∷ [])
    ∷ tool "patch_asm" editing "Patch instructions with assembly text" false
        ("patch" ∷ "asm" ∷ "edit" ∷ "modify" ∷ [])
    ∷ tool "patch" editing "Patch bytes at an address" false
        ("patch" ∷ "bytes" ∷ "edit" ∷ "modify" ∷ [])
    ∷ tool "rename" editing "Rename symbols" false ("rename" ∷ "symbol" ∷ "edit" ∷ [])
    ∷ []

abbrev pub scripting_tools : List ToolInfo
scripting_tools =
    tool "run_script" scripting "Execute Python code via IDAPython" false
      ("script" ∷ "python" ∷ "execute" ∷ "eval" ∷ "idapython" ∷ "run" ∷ "code" ∷ "file" ∷ [])
    ∷ []

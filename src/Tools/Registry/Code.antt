-- ===== src/Tools/Registry/Code.antt =====
-- src/tool_registry.rs: the sections Disassembly, Decompile, Xrefs and Control flow of its table.
use ida_rs_cli.Base.{false, List, [], ◌∷◌}
use ida_rs_cli.Tools.{ToolInfo, tool, control_flow, decompile, disassembly, xrefs}

abbrev pub disassembly_tools : List ToolInfo
disassembly_tools =
    tool "disasm" disassembly "Disassemble instructions at an address" false
      ("disassemble" ∷ "disasm" ∷ "assembly" ∷ "instructions" ∷ "code" ∷ [])
    ∷ tool "disasm_by_name" disassembly "Disassemble a function by name" false
        ("disassemble" ∷ "function" ∷ "name" ∷ "assembly" ∷ [])
    ∷ tool "disasm_function_at" disassembly "Disassemble the function containing an address" false
        ("disassemble" ∷ "function" ∷ "address" ∷ "pc" ∷ "lr" ∷ [])
    ∷ []

abbrev pub decompile_tools : List ToolInfo
decompile_tools =
    tool "decompile" decompile "Decompile function to C pseudocode" false
      ("decompile" ∷ "pseudocode" ∷ "c" ∷ "source" ∷ "hex-rays" ∷ [])
    ∷ tool "pseudocode_at" decompile "Get pseudocode for specific address/range" false
        ("pseudocode" ∷ "decompile" ∷ "block" ∷ "range" ∷ "statement" ∷ [])
    ∷ []

abbrev pub xrefs_tools : List ToolInfo
xrefs_tools =
    tool "xrefs_to" xrefs "Find all references TO an address" false
      ("xrefs" ∷ "references" ∷ "to" ∷ "callers" ∷ "usage" ∷ [])
    ∷ tool "xrefs_from" xrefs "Find all references FROM an address" false
        ("xrefs" ∷ "references" ∷ "from" ∷ "callees" ∷ "targets" ∷ [])
    ∷ tool "xrefs_to_string" xrefs "Find xrefs to strings matching a query" false
        ("xrefs" ∷ "strings" ∷ "cstring" ∷ "references" ∷ "usage" ∷ [])
    ∷ tool "xref_matrix" xrefs "Build xref matrix between addresses" false
        ("xrefs" ∷ "matrix" ∷ "relationships" ∷ "graph" ∷ [])
    ∷ []

abbrev pub control_flow_tools : List ToolInfo
control_flow_tools =
    tool "basic_blocks" control_flow "Get basic blocks of a function" false
      ("basic" ∷ "blocks" ∷ "cfg" ∷ "control" ∷ "flow" ∷ "graph" ∷ [])
    ∷ tool "callers" control_flow "Find all callers of a function" false
        ("callers" ∷ "called" ∷ "by" ∷ "references" ∷ "xrefs" ∷ [])
    ∷ tool "callees" control_flow "Find all functions called by a function" false
        ("callees" ∷ "calls" ∷ "targets" ∷ "functions" ∷ [])
    ∷ tool "callgraph" control_flow "Build call graph from a function" false
        ("callgraph" ∷ "call" ∷ "graph" ∷ "depth" ∷ "tree" ∷ [])
    ∷ tool "find_paths" control_flow "Find control-flow paths between two addresses" false
        ("paths" ∷ "route" ∷ "flow" ∷ "between" ∷ "reach" ∷ [])
    ∷ []

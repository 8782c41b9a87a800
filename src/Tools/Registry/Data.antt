-- ===== src/Tools/Registry/Data.antt =====
-- src/tool_registry.rs: the sections Memory, Search and Metadata of its table.
use ida_rs_cli.Base.{false, List, [], ◌∷◌}
use ida_rs_cli.Tools.{ToolInfo, tool, editing, memory, metadata, search}

abbrev pub memory_tools : List ToolInfo
memory_tools =
    tool "get_bytes" memory "Read raw bytes from an address" false
      ("bytes" ∷ "read" ∷ "memory" ∷ "data" ∷ "raw" ∷ "hex" ∷ [])
    ∷ tool "get_string" memory "Read string at an address" false
        ("string" ∷ "read" ∷ "text" ∷ "ascii" ∷ "data" ∷ [])
    ∷ tool "get_u8" memory "Read 8-bit value" false ("byte" ∷ "u8" ∷ "read" ∷ "value" ∷ [])
    ∷ tool "get_u16" memory "Read 16-bit value" false ("word" ∷ "u16" ∷ "read" ∷ "value" ∷ [])
    ∷ tool "get_u32" memory "Read 32-bit value" false ("dword" ∷ "u32" ∷ "read" ∷ "value" ∷ [])
    ∷ tool "get_u64" memory "Read 64-bit value" false ("qword" ∷ "u64" ∷ "read" ∷ "value" ∷ [])
    ∷ tool "get_global_value" memory "Read global value by name or address" false
        ("global" ∷ "value" ∷ "read" ∷ "symbol" ∷ "data" ∷ [])
    ∷ tool "int_convert" memory "Convert integers between bases" false
        ("int" ∷ "convert" ∷ "hex" ∷ "decimal" ∷ "ascii" ∷ [])
    ∷ []

abbrev pub searching_tools : List ToolInfo
searching_tools =
    tool "find_bytes" search "Search for byte pattern" false
      ("find" ∷ "search" ∷ "bytes" ∷ "pattern" ∷ "hex" ∷ [])
    ∷ tool "search" search "Search for text or immediate values" false
        ("search" ∷ "find" ∷ "text" ∷ "string" ∷ "immediate" ∷ [])
    ∷ tool "strings" search "List all strings in the database" false
        ("strings" ∷ "list" ∷ "text" ∷ "data" ∷ [])
    ∷ tool "find_string" search "Find strings matching a query" false
        ("strings" ∷ "find" ∷ "search" ∷ "text" ∷ [])
    ∷ tool "analyze_strings" search "Analyze strings with filtering" false
        ("strings" ∷ "analyze" ∷ "filter" ∷ "pattern" ∷ [])
    ∷ tool "find_insns" search "Find instruction sequences by mnemonic" false
        ("find" ∷ "instructions" ∷ "sequence" ∷ "pattern" ∷ [])
    ∷ tool "find_insn_operands" search "Find instructions by operand substring" false
        ("find" ∷ "operands" ∷ "instructions" ∷ "pattern" ∷ [])
    ∷ []

abbrev pub metadata_tools : List ToolInfo
metadata_tools =
    tool "segments" metadata "List all segments" false
      ("segments" ∷ "sections" ∷ "memory" ∷ "layout" ∷ [])
    ∷ tool "addr_info" metadata "Resolve address to segment/function/symbol" false
        ("address" ∷ "segment" ∷ "function" ∷ "symbol" ∷ "context" ∷ [])
    ∷ tool "imports" metadata "List imported functions" false
        ("imports" ∷ "external" ∷ "libraries" ∷ "api" ∷ [])
    ∷ tool "exports" metadata "List exported functions" false
        ("exports" ∷ "symbols" ∷ "public" ∷ "api" ∷ [])
    ∷ tool "export_funcs" metadata "Export functions (JSON)" false
        ("export" ∷ "functions" ∷ "json" ∷ "dump" ∷ [])
    ∷ tool "entrypoints" metadata "List entry points" false
        ("entry" ∷ "start" ∷ "main" ∷ "entrypoint" ∷ [])
    ∷ tool "lumina_lookup" metadata "Look up Lumina metadata for a function" false
        ("lumina" ∷ "signature" ∷ "metadata" ∷ "lookup" ∷ "match" ∷ [])
    ∷ tool "lumina_apply" editing "Apply Lumina metadata to a function" false
        ("lumina" ∷ "signature" ∷ "metadata" ∷ "apply" ∷ "rename" ∷ "type" ∷ [])
    ∷ tool "list_globals" metadata "List global variables" false
        ("globals" ∷ "variables" ∷ "data" ∷ "symbols" ∷ [])
    ∷ []

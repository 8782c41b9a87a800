-- ===== src/Tools/Registry/Core.antt =====
-- src/tool_registry.rs: the sections Core and Functions of its table.
use ida_rs_cli.Base.{true, false, List, [], ◌∷◌}
use ida_rs_cli.Tools.{ToolInfo, tool, core, functions}

abbrev pub core_database_tools : List ToolInfo
core_database_tools =
    tool "open_idb" core "Open an IDA database or raw binary" true
      ("open" ∷ "load" ∷ "database" ∷ "binary" ∷ "idb" ∷ "i64" ∷ "macho" ∷ "elf" ∷ "pe" ∷ [])
    ∷ tool "open_dsc" core
        "Open a dyld_shared_cache and load one module; use dsc_add_dylib/dsc_add_region for more"
        false
        ("open" ∷ "dsc" ∷ "dyld" ∷ "shared" ∷ "cache" ∷ "dylib" ∷ "module" ∷ "region" ∷ "apple"
          ∷ "macos" ∷ "ios" ∷ [])
    ∷ tool "dsc_add_dylib" core "Load an additional dylib into an open DSC database" false
        ("dsc" ∷ "dyld" ∷ "dylib" ∷ "module" ∷ "load" ∷ "add" ∷ "framework" ∷ "cache" ∷ [])
    ∷ tool "dsc_add_region" core "Load a DSC memory region by address (data/GOT/stubs)" false
        ("dsc" ∷ "dyld" ∷ "region" ∷ "memory" ∷ "address" ∷ "got" ∷ "stubs" ∷ "data" ∷ "load" ∷ [])
    ∷ tool "load_debug_info" core "Load external debug info (e.g., dSYM/DWARF)" false
        ("debug" ∷ "dwarf" ∷ "dsym" ∷ "symbols" ∷ "load" ∷ [])
    ∷ tool "analysis_status" core "Report auto-analysis status" true
        ("analysis" ∷ "autoanalysis" ∷ "status" ∷ "xrefs" ∷ "decompile" ∷ [])
    ∷ tool "close_idb" core "Close the current database (release locks)" true
        ("close" ∷ "unload" ∷ "database" ∷ [])
    ∷ tool "tool_catalog" core "Discover available tools by query or category" true
        ("discover" ∷ "find" ∷ "search" ∷ "tools" ∷ "help" ∷ "catalog" ∷ [])
    ∷ []

abbrev pub core_status_tools : List ToolInfo
core_status_tools =
    tool "tool_help" core "Get full documentation for a tool" true
      ("help" ∷ "docs" ∷ "documentation" ∷ "schema" ∷ "usage" ∷ [])
    ∷ tool "recent_operations" core "Inspect recent foreground operation history" false (
        "recent" ∷ "operations" ∷ "history" ∷ "progress" ∷ "timeout" ∷ "cancel" ∷ "observability"
        ∷ [])
    ∷ tool "task_status" core "Check status of a background task (e.g. DSC loading)" true
        ("task" ∷ "status" ∷ "poll" ∷ "background" ∷ "dsc" ∷ "progress" ∷ [])
    ∷ tool "idb_meta" core "Get database metadata and summary" true
        ("info" ∷ "metadata" ∷ "summary" ∷ "database" ∷ "binary" ∷ [])
    ∷ []

abbrev pub functions_tools : List ToolInfo
functions_tools =
    tool "list_functions" functions "List functions with pagination and filtering" false
      ("functions" ∷ "list" ∷ "enumerate" ∷ "find" ∷ "filter" ∷ "subroutines" ∷ [])
    ∷ tool "list_funcs" functions "Alias of list_functions" false
        ("functions" ∷ "list" ∷ "alias" ∷ [])
    ∷ tool "resolve_function" functions "Find function address by name" false
        ("resolve" ∷ "find" ∷ "lookup" ∷ "function" ∷ "name" ∷ "address" ∷ [])
    ∷ tool "function_at" functions "Find the function containing an address" false
        ("function" ∷ "address" ∷ "pc" ∷ "lr" ∷ "containing" ∷ [])
    ∷ tool "lookup_funcs" functions "Batch lookup multiple functions by name" false
        ("lookup" ∷ "batch" ∷ "multiple" ∷ "functions" ∷ "names" ∷ [])
    ∷ tool "analyze_funcs" functions "Run auto-analysis (foreground or background task)" false
        ("analyze" ∷ "functions" ∷ "analysis" ∷ "auto" ∷ "background" ∷ "task" ∷ [])
    ∷ []

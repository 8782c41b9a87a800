-- ===== src/Tools/Registry.antt =====
-- src/tool_registry.rs: the table of all tools.
pub mod Names
mod Core
mod Code
mod Data
mod Edit
use ida_rs_cli.Base.{List, ◌++◌}
use ida_rs_cli.Tools.{ToolInfo}
use ida_rs_cli.Tools.Registry.Core.{core_database_tools, core_status_tools, functions_tools}
use ida_rs_cli.Tools.Registry.Code.{
  disassembly_tools, decompile_tools, xrefs_tools, control_flow_tools,
}
use ida_rs_cli.Tools.Registry.Data.{memory_tools, searching_tools, metadata_tools}
use ida_rs_cli.Tools.Registry.Edit.{types_tools, editing_tools, scripting_tools}

abbrev pub tool_registry : List ToolInfo
tool_registry =
    core_database_tools ++ core_status_tools ++ functions_tools ++ disassembly_tools
    ++ decompile_tools ++ xrefs_tools ++ control_flow_tools ++ memory_tools ++ searching_tools
    ++ metadata_tools ++ types_tools ++ editing_tools ++ scripting_tools

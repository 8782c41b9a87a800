-- ===== src/Handlers.antt =====
-- src/ida/handlers: what the handlers read of an open database, their results and errors. The
-- database is idalib's: a record of what it answers.
pub mod Listings
pub mod Xrefs
pub mod Paths
pub mod Search
pub mod Imports
pub mod Addresses
use ida_rs_cli.Base.{
  ℕ, zero, suc, ◌+◌, ◌-◌, ◌/◌, ◌%◌, Bool, true, false, Option, none, some, List, [], ◌∷◌, String,
  ltb, if◌then◌else◌,
}
use ida_rs_cli.Base.Numbers.{digit}
use Prim.Native.Char.{Char, code}

-- Also those that other parts of the program make.
pub data ToolError : Type 0 where
  no_database_open : ToolError
  database_already_open : String → ToolError
  open_failed : String → ToolError
  database_locked : String → ToolError
  invalid_address : String → ToolError
  invalid_path : String → ToolError
  invalid_params : String → ToolError
  invalid_tool_category : String → ToolError
  invalid_tool_name : String → ToolError
  address_out_of_range : ℕ → ToolError
  function_not_found : ℕ → ToolError
  function_name_not_found : String → ToolError
  decompiler_unavailable : ToolError
  timeout : ℕ → ToolError
  timeout_detailed : String → ToolError
  cancelled : String → ToolError
  busy : ToolError
  database_replaced : ToolError
  background_task_handle_private : ToolError
  background_task_registry_full : ℕ → ToolError
  pool_exhausted : ℕ → ℕ → ToolError
  worker_crashed : ℕ → String → ToolError
  remote_protocol : String → ToolError
  ida_error : String → ToolError
  not_supported : String → ToolError
  worker_closed : ToolError
  sdk_version_mismatch : String → ToolError

pub data Outcome {ℓ} (A : Type ℓ) : Type ℓ where
  ok : A → Outcome A
  err : ToolError → Outcome A

-- idalib's values.
pub record Function : Type 0 where
  pub start_address : ℕ
  pub name : Option String
  pub size : ℕ

pub record Name : Type 0 where
  pub address : ℕ
  pub name : String
  pub is_public : Bool
  pub is_weak : Bool

pub record LocalType : Type 0 where
  pub ordinal : ℕ
  pub name : String
  pub decl : String
  pub kind : String

pub record Udt : Type 0 where
  pub ordinal : ℕ
  pub name : String
  pub size : ℕ
  pub is_union : Bool
  pub member_count : ℕ

-- A cross reference, with the cursor by which idalib finds the next one.
pub record XRef : Type 0 where
  pub cursor : ℕ
  pub from_address : ℕ
  pub to_address : ℕ
  pub kind : String
  pub is_code : Bool

pub record Database : Type 0 where
  pub functions : List Function
  pub strings : List (ℕ × String)
  pub names : List Name
  pub in_function : ℕ → Bool
  -- The segment at an address is one of externs or imports.
  pub is_external : ℕ → Bool
  pub udt_ordinal_limit : ℕ
  pub local_type_info : ℕ → Option LocalType
  pub udt_info : ℕ → Option Udt
  pub first_xref_to : ℕ → Option XRef
  pub first_xref_from : ℕ → Option XRef
  pub next_to : XRef → Option XRef
  pub next_from : XRef → Option XRef
  -- What the iterator over the entry points answers when it is asked again and again.
  pub next_entry : ℕ → Option ℕ

-- `idb.as_ref().ok_or(ToolError::NoDatabaseOpen)?` before the rest of a handler.
abbrev pub with_database {ℓ} : {A : Type ℓ} → Option Database → (Database → Outcome A) → Outcome A
with_database none body = err no_database_open
with_database (some db) body = body db

abbrev letter : ℕ → Char
letter zero = "a"
letter (suc zero) = "b"
letter (suc (suc zero)) = "c"
letter (suc (suc (suc zero))) = "d"
letter (suc (suc (suc (suc zero)))) = "e"
letter _ = "f"

unfoldable pub hex_digit : ℕ → Char
hex_digit n = if ltb n 10 then digit n else letter (n - 10)

-- The lower-case hexadecimal digits before `rest`. A `u64` has 16 at most.
unfoldable pub hex_onto : ℕ → ℕ → String → String
hex_onto zero n rest = rest
hex_onto (suc fuel) n rest =
    let front = hex_onto fuel (n / 16) (String.◌∷◌ (hex_digit (n % 16)) rest) in
    if ltb n 16 then String.◌∷◌ (hex_digit n) rest else front

-- `format!("{:#x}", n)`.
unfoldable pub hex : ℕ → String
hex n = String.◌∷◌ "0" (String.◌∷◌ "x" (hex_onto 16 n String.[]))

-- `format!("sub_{:x}", addr)` for a function without a name.
unfoldable pub function_name : Function → String
function_name f = elim f.name [
  | none ↦
      String.◌∷◌ "s"
        (String.◌∷◌ "u" (String.◌∷◌ "b" (String.◌∷◌ "_" (hex_onto 16 f.start_address String.[]))))
  | some name ↦ name
]

-- `content.len()`: the bytes of a text in UTF-8.
abbrev char_bytes : ℕ → ℕ
char_bytes c = if ltb c 128 then 1 else if ltb c 2048 then 2 else if ltb c 65536 then 3 else 4

abbrev pub byte_length : String → ℕ
byte_length String.[] = 0
byte_length (String.◌∷◌ c s) = char_bytes (code c) + byte_length s

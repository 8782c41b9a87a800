-- ===== src/Worker/Tokens.antt =====
-- src/ida/worker.rs: the token that says who may close the shared database. New tokens are arguments.
pub mod Laws
use ida_rs_cli.Base.{
  Bool, true, false, ◌||◌, Option, none, some, String, if◌then◌else◌, ◌==◌, string_eq,
}

pub record CloseTokenLease : Type 0 where
  pub token : String
  pub owner_session_id : String

pub record CloseTokenGrant : Type 0 where
  pub token : String
  pub reused : Bool
  pub owner_session_id : String

pub data CloseAuthorization : Type 0 where
  granted : CloseAuthorization
  granted_by_override : String → CloseAuthorization
  denied : String → CloseAuthorization

-- A grant, or the session that owns the token.
pub data Issued : Type 0 where
  grant : CloseTokenGrant → Issued
  owned_by : String → Issued

abbrev pub CloseTokenState : Type 0
CloseTokenState = Option CloseTokenLease

unfoldable pub issue_for_session : String → String → CloseTokenState → CloseTokenState × Issued
issue_for_session session_id generated none = (
  some record { token = generated; owner_session_id = session_id },
  grant record { token = generated; reused = false; owner_session_id = session_id },
)
issue_for_session session_id generated (some lease) =
    if lease.owner_session_id == session_id
    then (
      some lease,
      grant
          record { token = lease.token; reused = true; owner_session_id = lease.owner_session_id },
    )
    else (some lease, owned_by lease.owner_session_id)

abbrev pub is_token : Option String → String → Bool
is_token none token = false
is_token (some t) token = t == token

unfoldable pub authorize_close :
    String → Option String → Bool → CloseTokenState → CloseAuthorization
authorize_close session_id token force none = granted
authorize_close session_id token force (some lease) =
    if is_token token lease.token || lease.owner_session_id == session_id
    then granted
    else if force
    then granted_by_override lease.owner_session_id
    else denied lease.owner_session_id

abbrev pub clear : CloseTokenState → CloseTokenState
clear s = none

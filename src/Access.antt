-- ===== src/Access.antt =====
-- src/server/http_access.rs: which requests pass the Origin and Host checks. The parser of an
-- authority is the `http` crate's; that of an IP literal is Rust's. Both are parameters.
pub mod Laws
use ida_rs_cli.Base.{
  ℕ, ◌/◌, Bool, true, false, ◌&&◌, ◌||◌, Option, none, some, List, [], ◌∷◌, ◌++◌, String, contains,
  if◌then◌else◌, ◌==◌, nat_eq, string_eq,
}
use ida_rs_cli.Base.Trim.{trim, trim_by, to_ascii_lowercase}

-- An address by its bits.
pub data IpAddr : Type 0 where
  v4 : ℕ → IpAddr
  v6 : ℕ → IpAddr

abbrev pub is_loopback : IpAddr → Bool
is_loopback (v4 n) = n / 16777216 == 127
is_loopback (v6 n) = n == 1

abbrev pub is_unspecified : IpAddr → Bool
is_unspecified (v4 n) = n == 0
is_unspecified (v6 n) = n == 0

abbrev pub same_ip : IpAddr → IpAddr → Bool
same_ip (v4 m) (v4 n) = m == n
same_ip (v4 m) (v6 n) = false
same_ip (v6 m) (v4 n) = false
same_ip (v6 m) (v6 n) = m == n

pub record SocketAddr : Type 0 where
  pub ip : IpAddr
  pub port : ℕ

pub record NormalizedAuthority : Type 0 where
  pub host : String
  pub port : Option ℕ

pub data HostAllowList : Type 0 where
  any : HostAllowList
  restricted : List NormalizedAuthority → HostAllowList

pub record HttpAccessPolicy : Type 0 where
  pub bind_addr : SocketAddr
  pub allowed_origins : List String
  pub allowed_hosts : HostAllowList

-- A header that is there, but not as visible ASCII text, is `some none`.
pub record HeaderMap : Type 0 where
  pub origin : Option (Option String)
  pub host : Option (Option String)

-- The statuses and texts of the refusals: 400, and 403 for the two that are forbidden.
pub data AccessError : Type 0 where
  invalid_origin : AccessError
  origin_forbidden : AccessError
  missing_host : AccessError
  invalid_host : AccessError
  host_forbidden : NormalizedAuthority → AccessError

pub data Checked (A : Type 0) : Type 0 where
  passed : A → Checked A
  refused : AccessError → Checked A

abbrev pub clean_allowlist : List String → List String
clean_allowlist [] = []
clean_allowlist (s ∷ ss) =
    let rest = clean_allowlist ss in if trim s == "" then rest else trim s ∷ rest

abbrev pub normalize_host : String → String
normalize_host host = to_ascii_lowercase (trim_by (λ c. c == 93) (trim_by (λ c. c == 91) host))

abbrev pub normalize_authority : String → Option ℕ → NormalizedAuthority
normalize_authority host port = record { host = normalize_host host; port = port }

abbrev pub port_matches : Option ℕ → ℕ → Bool
port_matches none bind_port = true
port_matches (some port) bind_port = port == bind_port

abbrev same_port : Option ℕ → ℕ → Bool
same_port none port = false
same_port (some p) port = p == port

abbrev listed_port : Option ℕ → Option ℕ → Bool
listed_port none host_port = true
listed_port (some port) host_port = same_port host_port port

abbrev pub lists : List NormalizedAuthority → NormalizedAuthority → Bool
lists [] host = false
lists (a ∷ rest) host = (a.host == host.host && listed_port a.port host.port) || lists rest host

abbrev pub allows : HostAllowList → NormalizedAuthority → Bool
allows any host = true
allows (restricted hosts) host = lists hosts host

abbrev pub host_check_disabled : HttpAccessPolicy → Bool
host_check_disabled p = elim p.allowed_hosts [ any ↦ true | restricted hosts ↦ false ]

abbrev pub validate_origin : HttpAccessPolicy → HeaderMap → Checked Unit
validate_origin p h = elim h.origin [
  | none ↦ passed tt
  | some header ↦ elim header [
    | none ↦ refused invalid_origin
    | some origin ↦
        if contains p.allowed_origins origin then passed tt else refused origin_forbidden
  ]
]

abbrev pub push : Option NormalizedAuthority → List NormalizedAuthority → List NormalizedAuthority
push none hosts = hosts
push (some a) hosts = hosts ++ a ∷ []

unfoldable pub ip_allowed : IpAddr → Option IpAddr → Bool
ip_allowed bind_ip none = false
ip_allowed bind_ip (some host_ip) =
    if is_unspecified bind_ip
    then true
    else if is_loopback bind_ip
    then is_loopback host_ip
    else same_ip host_ip bind_ip

module _ (parse_authority : String → Option (String × Option ℕ)) where
  abbrev pub parse_allowed_authority : String → Option NormalizedAuthority
  parse_allowed_authority allowed =
      if trim allowed == "" then none else elim (parse_authority (trim allowed)) [
        | none ↦ some (normalize_authority (trim allowed) none)
        | some authority ↦ some (normalize_authority authority.0 authority.1)
      ]

  -- The loop over the values, each trimmed; `hosts` are those pushed.
  unfoldable pub allow_from : List String → List NormalizedAuthority → HostAllowList
  allow_from [] [] = any
  allow_from [] (h ∷ hosts) = restricted (h ∷ hosts)
  allow_from (v ∷ vs) hosts =
      let value = trim v in
      let next = if value == "" then hosts else push (parse_allowed_authority value) hosts in
      let rest = allow_from vs next in if value == "*" then any else rest

  unfoldable pub allow_list : Option (List String) → HostAllowList
  allow_list none = restricted []
  allow_list (some values) = allow_from values []

  unfoldable pub from_cli : SocketAddr → List String → Option (List String) → HttpAccessPolicy
  from_cli bind_addr allow_origin allow_host = record {
    bind_addr = bind_addr;
    allowed_origins = clean_allowlist allow_origin;
    allowed_hosts = allow_list allow_host;
  }

  abbrev pub parse_host_header : HeaderMap → Checked NormalizedAuthority
  parse_host_header h = elim h.host [
    | none ↦ refused missing_host
    | some header ↦ elim header [
      | none ↦ refused invalid_host
      | some host ↦ elim (parse_authority host) [
        | none ↦ refused invalid_host
        | some authority ↦ passed (normalize_authority authority.0 authority.1)
      ]
    ]
  ]

module _ (parse_ip : String → Option IpAddr) where
  unfoldable pub host_allowed_by_bind : HttpAccessPolicy → NormalizedAuthority → Bool
  host_allowed_by_bind p host =
      let bind_ip = p.bind_addr.ip in
      if port_matches host.port p.bind_addr.port
      then if host.host == "localhost"
        then is_loopback bind_ip || is_unspecified bind_ip
        else ip_allowed bind_ip (parse_ip host.host)
      else false

  abbrev pub check_host : HttpAccessPolicy → NormalizedAuthority → Checked Unit
  check_host p host =
      if host_check_disabled p
      then passed tt
      else if host_allowed_by_bind p host || allows p.allowed_hosts host
      then passed tt
      else refused (host_forbidden host)

module _ (parse_authority : String → Option (String × Option ℕ))
    (parse_ip : String → Option IpAddr) where
  unfoldable pub validate_host : HttpAccessPolicy → HeaderMap → Checked Unit
  validate_host p h = elim (parse_host_header parse_authority h) [
    | refused e ↦ refused e
    | passed host ↦ check_host parse_ip p host
  ]

  unfoldable pub validate : HttpAccessPolicy → HeaderMap → Checked Unit
  validate p h = elim (validate_origin p h) [ refused e ↦ refused e | passed u ↦ validate_host p h ]

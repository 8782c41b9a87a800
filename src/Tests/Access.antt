-- ===== src/Tests/Access.antt =====
-- A server bound to 127.0.0.1:8765, with a parser of authorities that knows no port.
use ida_rs_cli.Base.{
  ℕ, Option, none, some, List, [], ◌∷◌, String, ◌≡◌, ◌↔◌, refl, nat_eq, string_eq, ◌==◌,
  if◌then◌else◌,
}
use ida_rs_cli.Access.{
  IpAddr, v4, SocketAddr, NormalizedAuthority, any, passed, HttpAccessPolicy, HeaderMap, from_cli,
  allow_list, validate, validate_host, host_allowed_by_bind, ip_allowed, parse_host_header,
}
use ida_rs_cli.Access.Laws.{allow_list-any, validate-passes, Lifts, OriginPasses, HostPasses}

abbrev authority : String → Option (String × Option ℕ)
authority s = some (s, none)

abbrev loopback : IpAddr
loopback = v4 2130706433

abbrev ip : String → Option IpAddr
ip s = if s == "127.0.0.1" then some loopback else none

abbrev bound : SocketAddr
bound = record { ip = loopback; port = 8765 }

abbrev policy : HttpAccessPolicy
policy = from_cli authority bound ("http://localhost" ∷ []) none

abbrev headers : HeaderMap
headers = record { origin = none; host = some (some "127.0.0.1") }

admitted : validate authority ip policy headers ≡ passed tt
unfolding validate validate_host host_allowed_by_bind ip_allowed from_cli allow_list nat_eq
    string_eq
admitted = refl

validate-passes_example :
    OriginPasses policy.allowed_origins none
    × ((host : NormalizedAuthority) × (parse_host_header authority headers ≡ passed host)
        × HostPasses ip policy.bind_addr policy.allowed_hosts host)
validate-passes_example = validate-passes authority ip policy headers admitted

allow_list-any_example :
    (allow_list authority (some (" * " ∷ "ida.local" ∷ [])) ≡ any)
    ↔ ((vs : List String) × (some (" * " ∷ "ida.local" ∷ []) ≡ some vs) × Lifts vs)
allow_list-any_example = allow_list-any authority (some (" * " ∷ "ida.local" ∷ []))

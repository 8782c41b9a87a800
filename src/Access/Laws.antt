-- ===== src/Access/Laws.antt =====
-- Which hosts and origins pass, and when the Host check is off.
use ida_rs_cli.Base.{
  ℕ, Bool, true, false, ◌||◌, Option, none, some, List, [], ◌∷◌, ◌++◌, map, String, Every, contains,
  ◌==◌, nat_eq, string_eq, ◌≡◌, ◌↔◌, ◌⊎◌, inl, inr, refl, sym, ◌∙◌, subst, Bool-cases, Option-cases,
}
use ida_rs_cli.Base.Trim.{trim, is_space, blank-trim-trim, blank-eq}
use ida_rs_cli.Access.{
  IpAddr, SocketAddr, NormalizedAuthority, HostAllowList, any, restricted, HttpAccessPolicy,
  HeaderMap, AccessError, invalid_origin, origin_forbidden, host_forbidden, Checked, passed,
  refused, port_matches, lists, allows, validate_origin, parse_allowed_authority, allow_from,
  allow_list, parse_host_header, ip_allowed, host_allowed_by_bind, check_host, validate_host,
  validate, is_loopback, is_unspecified, same_ip,
}

-- The values, trimmed.
abbrev pub trimmed : List String → List String
trimmed values = map (λ v. trim v) values

any_not_restricted : (r : List NormalizedAuthority) → any ≡ restricted r → ⊥
any_not_restricted r h = absurd (cc)

or_false : (a b : Bool) → (a || b) ≡ false → (a ≡ false) × (b ≡ false)
or_false true b h = absurd (cc)
or_false false b h = (refl, h)

-- One of the values is an asterisk, or all of them are blank.
abbrev pub Lifts : List String → Type 0
Lifts vs = (contains (trimmed vs) "*" ≡ true) ⊎ Every (λ v. (trim v == "") ≡ true) vs

module _ (parse_authority : String → Option (String × Option ℕ)) where
  parse_allowed-some :
      (v : String)
      → (trim v == "") ≡ false
      → (a : NormalizedAuthority) × (parse_allowed_authority parse_authority (trim v) ≡ some a)
  parse_allowed-some v f =
      let g : (trim (trim v) == "") ≡ false =
        blank-eq (trim (trim v)) ∙ blank-trim-trim is_space v ∙ sym (blank-eq (trim v)) ∙ f in
      rw g (elim (Option-cases (parse_authority (trim (trim v)))) [
        | inl n ↦ rw n (_, refl)
        | inr (a, e) ↦ rw e (_, refl)
      ])

  -- Once a host has been pushed, only an asterisk lifts the restriction.
  pushed-restricted :
      (vs : List String) (h : NormalizedAuthority) (hosts : List NormalizedAuthority)
      → contains (trimmed vs) "*" ≡ false
      → (r : List NormalizedAuthority) × (allow_from parse_authority vs (h ∷ hosts) ≡ restricted r)
  unfolding allow_from
  pushed-restricted [] h hosts none_star = (_, refl)
  pushed-restricted (v ∷ vs) h hosts none_star =
      let star = or_false (trim v == "*") (contains (trimmed vs) "*") none_star in
      rw star.0 (elim (Bool-cases (trim v == "")) [
        | inl t ↦ rw t (pushed-restricted vs h hosts star.1)
        | inr f ↦
            let p = parse_allowed-some v f in
            rw (f, p.1) (pushed-restricted vs h (hosts ++ p.0 ∷ []) star.1)
      ])

  star-any :
      (vs : List String) (hosts : List NormalizedAuthority)
      → contains (trimmed vs) "*" ≡ true
      → allow_from parse_authority vs hosts ≡ any
  unfolding allow_from
  star-any [] hosts h = absurd (cc)
  star-any (v ∷ vs) hosts h = elim (Bool-cases (trim v == "*")) [
    | inl t ↦ rw t refl
    | inr f ↦ rw f (star-any vs _ (rw f at h))
  ]

  blank-any :
      (vs : List String)
      → Every (λ v. (trim v == "") ≡ true) vs
      → allow_from parse_authority vs [] ≡ any
  unfolding allow_from
  blank-any [] h = refl
  blank-any (v ∷ vs) h = elim (Bool-cases (trim v == "*")) [
    | inl t ↦ rw t refl
    | inr f ↦ rw (f, h.0) (blank-any vs h.1)
  ]

  any-blank :
      (vs : List String)
      → contains (trimmed vs) "*" ≡ false
      → allow_from parse_authority vs [] ≡ any
      → Every (λ v. (trim v == "") ≡ true) vs
  unfolding allow_from
  any-blank [] none_star e = tt
  any-blank (v ∷ vs) none_star e =
      let star = or_false (trim v == "*") (contains (trimmed vs) "*") none_star in
      elim (Bool-cases (trim v == "")) [
        | inl t ↦ (t, any-blank vs star.1 (rw (star.0, t) at e))
        | inr f ↦
            let p = parse_allowed-some v f in
            let r = pushed-restricted vs p.0 [] star.1 in
            let q : allow_from parse_authority vs (p.0 ∷ []) ≡ any = rw (star.0, f, p.1) at e in
            absurd (any_not_restricted r.0 (sym q ∙ r.1))
      ]

  -- The Host check is off exactly when `--allow-host` is given and one of its values is an asterisk or
  -- all of them are blank, white space around a value aside. A value that the parser of authorities
  -- refuses never turns it off.
  pub allow_list-any :
      (values : Option (List String))
      → (allow_list parse_authority values ≡ any)
        ↔ ((vs : List String) × (values ≡ some vs) × Lifts vs)
  unfolding allow_list
  allow_list-any none =
      (λ e. absurd (any_not_restricted [] (sym e)), λ h. absurd (none_not_some h.1))
    where
      none_not_some : {vs : List String} → none ≡ some vs → ⊥
      none_not_some q = absurd (cc)
  allow_list-any (some values) = (forth, back)
    where
      forth :
          allow_from parse_authority values [] ≡ any
          → (vs : List String) × (some values ≡ some vs) × Lifts vs
      forth e = elim (Bool-cases (contains (trimmed values) "*")) [
        | inl t ↦ (values, refl, inl t)
        | inr f ↦ (values, refl, inr (any-blank values f e))
      ]

      lifted : (vs : List String) → Lifts vs → allow_from parse_authority vs [] ≡ any
      lifted vs (inl t) = star-any vs [] t
      lifted vs (inr h) = blank-any vs h

      some_eq : {vs : List String} → some values ≡ some vs → vs ≡ values
      some_eq q = cc

      back :
          ((vs : List String) × (some values ≡ some vs) × Lifts vs)
          → allow_from parse_authority values [] ≡ any
      back (vs, q, h) = subst (λ l. allow_from parse_authority l [] ≡ any) (some_eq q) (lifted vs h)

-- How a host may be reached through the address that the server is bound to.
pub data Reaches (bind : IpAddr) : IpAddr → Type 0 where
  everywhere : {ip : IpAddr} → is_unspecified bind ≡ true → Reaches bind ip
  looped : {ip : IpAddr} → is_loopback bind ≡ true → is_loopback ip ≡ true → Reaches bind ip
  same : {ip : IpAddr} → same_ip ip bind ≡ true → Reaches bind ip

no_ip : (bind : IpAddr) → ip_allowed bind none ≡ true → ⊥
unfolding ip_allowed
no_ip bind h = absurd (cc)

ip_allowed-Reaches : (bind ip : IpAddr) → ip_allowed bind (some ip) ≡ true → Reaches bind ip
unfolding ip_allowed
ip_allowed-Reaches bind ip h = elim (Bool-cases (is_unspecified bind)) [
  | inl t ↦ everywhere t
  | inr f ↦ elim (Bool-cases (is_loopback bind)) [
    | inl t ↦ looped t (rw (f, t) at h)
    | inr g ↦ same (rw (f, g) at h)
  ]
]

Checked-cases :
    {A : Type 0}
    → (c : Checked A) → ((a : A) × (c ≡ passed a)) ⊎ ((e : AccessError) × (c ≡ refused e))
Checked-cases (passed a) = inl (a, refl)
Checked-cases (refused e) = inr (e, refl)

Hosts-cases :
    (l : HostAllowList) → (l ≡ any) ⊎ ((r : List NormalizedAuthority) × (l ≡ restricted r))
Hosts-cases any = inl refl
Hosts-cases (restricted r) = inr (r, refl)

not_passed : (e : AccessError) → refused e ≡ passed tt → ⊥
not_passed e q = absurd (cc)

module _ (parse_ip : String → Option IpAddr) where
  -- The ways in which a host passes the check.
  pub data HostPasses (bind : SocketAddr) (extra : HostAllowList)
      : NormalizedAuthority → Type 0 where
    local :
        {host : NormalizedAuthority}
        → port_matches host.port bind.port ≡ true
        → (host.host == "localhost") ≡ true
        → (is_loopback bind.ip || is_unspecified bind.ip) ≡ true
        → HostPasses bind extra host
    literal :
        {host : NormalizedAuthority} (ip : IpAddr)
        → port_matches host.port bind.port ≡ true
        → parse_ip host.host ≡ some ip
        → Reaches bind.ip ip
        → HostPasses bind extra host
    listed :
        {host : NormalizedAuthority} (allowed : List NormalizedAuthority)
        → extra ≡ restricted allowed
        → lists allowed host ≡ true
        → HostPasses bind extra host
    unchecked : {host : NormalizedAuthority} → extra ≡ any → HostPasses bind extra host

  bind-HostPasses :
      (p : HttpAccessPolicy) (host : NormalizedAuthority)
      → host_allowed_by_bind parse_ip p host ≡ true
      → HostPasses p.bind_addr p.allowed_hosts host
  unfolding host_allowed_by_bind
  bind-HostPasses p host h = elim (Bool-cases (port_matches host.port p.bind_addr.port)) [
    | inl t ↦ elim (Bool-cases (host.host == "localhost")) [
      | inl l ↦ local t l (rw (t, l) at h)
      | inr f ↦ elim (Option-cases (parse_ip host.host)) [
        | inl n ↦
            let q : ip_allowed p.bind_addr.ip none ≡ true = rw (t, f, n) at h in
            absurd (no_ip p.bind_addr.ip q)
        | inr (ip, e) ↦ literal ip t e (ip_allowed-Reaches p.bind_addr.ip ip (rw (t, f, e) at h))
      ]
    ]
    | inr f ↦ let q : false ≡ true = rw f at h in absurd (cc)
  ]

  check-HostPasses :
      (p : HttpAccessPolicy) (host : NormalizedAuthority)
      → check_host parse_ip p host ≡ passed tt
      → HostPasses p.bind_addr p.allowed_hosts host
  unfolding host_allowed_by_bind
  check-HostPasses p host h = elim (Hosts-cases p.allowed_hosts) [
    | inl e ↦ unchecked e
    | inr (r, e) ↦ elim (Bool-cases (host_allowed_by_bind parse_ip p host)) [
      | inl t ↦ bind-HostPasses p host t
      | inr f ↦ elim (Bool-cases (allows p.allowed_hosts host)) [
        | inl t ↦ listed r e (rw e at t)
        | inr g ↦
            let g' : lists r host ≡ false = rw e at g in
            absurd (not_passed (host_forbidden host) (rw (e, f, g') at h))
      ]
    ]
  ]

abbrev pub OriginPasses : List String → Option (Option String) → Type 0
OriginPasses allowed none = Unit
OriginPasses allowed (some none) = ⊥
OriginPasses allowed (some (some origin)) = contains allowed origin ≡ true

origin-OriginPasses :
    (p : HttpAccessPolicy) (h : HeaderMap)
    → validate_origin p h ≡ passed tt
    → OriginPasses p.allowed_origins h.origin
origin-OriginPasses p h e = elim (Option-cases h.origin) [
  | inl n ↦ rw n tt
  | inr (header, q) ↦ elim (Option-cases header) [
    | inl n ↦ absurd (not_passed invalid_origin (rw (q, n) at e))
    | inr (origin, r) ↦ elim (Bool-cases (contains p.allowed_origins origin)) [
      | inl t ↦ rw (q, r) t
      | inr f ↦ absurd (not_passed origin_forbidden (rw (q, r, f) at e))
    ]
  ]
]

host-HostPasses :
    (parse_authority : String → Option (String × Option ℕ)) (parse_ip : String → Option IpAddr)
    (p : HttpAccessPolicy) (h : HeaderMap)
    → validate_host parse_authority parse_ip p h ≡ passed tt
    → (host : NormalizedAuthority) × (parse_host_header parse_authority h ≡ passed host)
      × HostPasses parse_ip p.bind_addr p.allowed_hosts host
unfolding validate_host
host-HostPasses parse_authority parse_ip p h e =
    elim (Checked-cases (parse_host_header parse_authority h)) [
      | inr (o, r) ↦ absurd (not_passed o (rw (r, validate_host) at e))
      | inl (host, r) ↦ (host, r, check-HostPasses parse_ip p host (rw (r, validate_host) at e))
    ]

-- A request passes only if it has no Origin or a listed one, and a Host that the parser of authorities
-- accepts. The check of that host is off, or else it is localhost on a server bound to a loopback or
-- unspecified address, an IP literal that the bound address reaches, or a listed host; the first two
-- with no port or the bound one.
pub validate-passes :
    (parse_authority : String → Option (String × Option ℕ)) (parse_ip : String → Option IpAddr)
    (p : HttpAccessPolicy) (h : HeaderMap)
    → validate parse_authority parse_ip p h ≡ passed tt
    → OriginPasses p.allowed_origins h.origin
      × ((host : NormalizedAuthority) × (parse_host_header parse_authority h ≡ passed host)
          × HostPasses parse_ip p.bind_addr p.allowed_hosts host)
unfolding validate
validate-passes parse_authority parse_ip p h e = elim (Checked-cases (validate_origin p h)) [
  | inr (o, q) ↦ absurd (not_passed o (rw (q, validate) at e))
  | inl (u, q) ↦ (
    origin-OriginPasses p h q,
    host-HostPasses parse_authority parse_ip p h (rw (q, validate) at e),
  )
]

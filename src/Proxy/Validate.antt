-- ===== src/Proxy/Validate.antt =====
-- proxy.go: validateHostnamePort, Validate and the Boolean forms.
use proxykit_go.Base.{
  ℕ, Bool, true, false, not, ◌&&◌, ◌≡◌, refl, arith, [], Option, none, some, if◌then◌else◌, ltb,
  ◌==◌, get_or, Option-cases, inl, inr, ◌↔◌,
}
use proxykit_go.Base.Bytes.{Bytes, bytes_eq, bytes_eq_iff, index_byte, last_index_byte}
use proxykit_go.Proxy.Scheme.{
  is_valid_scheme, IsScheme, is_valid_scheme-IsScheme, IsScheme-is_valid_scheme,
}
use proxykit_go.Proxy.Port.{is_valid_port, IsPort, is_valid_port_iff}
use proxykit_go.Proxy.Split.{
  Endpoint, split_hostname_port, join_hostname_port, IsSplit, split_hostname_port_iff,
}
use proxykit_go.Proxy.Host.Defs.{is_valid_host, is_valid_ip_literal}
use proxykit_go.Proxy.Credentials.{
  is_valid_credentials_for, AreCredentials, is_valid_credentials_for_iff,
}
use proxykit_go.Proxy.Record.{Proxy}

-- The package's sentinel errors. A nil error is `none`.
pub data ProxyError : Type 0 where
  nil_proxy nil_url invalid_proxy_url invalid_scheme invalid_host invalid_port : ProxyError
  invalid_credentials : ProxyError

-- The position of the byte lies behind `last`, in `strings.IndexByte(hnp, ']') > lastColon`.
abbrev pub behind : ℕ → Option ℕ → Bool
behind last none = false
behind last (some i) = ltb last i

-- The classification of a text that does not split.
unfoldable pub unsplit_error : Bytes → ProxyError
unsplit_error hnp = elim (last_index_byte hnp b':') [
  | none ↦ invalid_port
  | some last_colon ↦
      if get_or hnp 0 0 == b'[' && behind last_colon (index_byte hnp b']')
      then invalid_port
      else invalid_host
]

-- The checks of the parts.
unfoldable pub check_endpoint : Endpoint → Option ProxyError
check_endpoint e =
    if not (is_valid_port e.port)
    then some invalid_port
    else if bytes_eq e.host []
    then some invalid_host
    else if e.bracketed
    then (if not (is_valid_ip_literal e.host) then some invalid_host else none)
    else if not (is_valid_host e.host)
    then some invalid_host
    else none

-- `validateHostnamePort`
unfoldable pub validate_hostname_port : Bytes → Option ProxyError
validate_hostname_port hnp =
    if bytes_eq hnp [] then some invalid_host else elim (split_hostname_port hnp) [
      | none ↦ some (unsplit_error hnp)
      | some e ↦ check_endpoint e
    ]

abbrev pub is_none {ℓ} : {A : Type ℓ} → Option A → Bool
is_none none = true
is_none (some _) = false

-- `IsValidHostnamePort`
unfoldable pub is_valid_hostname_port : Bytes → Bool
is_valid_hostname_port hnp = is_none (validate_hostname_port hnp)

-- `Validate`
unfoldable pub validate : Option Proxy → Option ProxyError
validate none = some nil_proxy
validate (some p) =
    if not (is_valid_scheme p.scheme)
    then some invalid_scheme
    else elim (validate_hostname_port p.host) [
      | some e ↦ some e
      | none ↦
          if not (is_valid_credentials_for p.scheme p.username p.password)
          then some invalid_credentials
          else none
    ]

-- `Proxy.IsValid`
unfoldable pub is_valid : Option Proxy → Bool
is_valid p = is_none (validate p)

-- `Proxy.IsValidScheme`
unfoldable pub proxy_is_valid_scheme : Option Proxy → Bool
proxy_is_valid_scheme none = false
proxy_is_valid_scheme (some p) = is_valid_scheme p.scheme

-- `Proxy.IsValidHostnamePort`
unfoldable pub proxy_is_valid_hostname_port : Option Proxy → Bool
proxy_is_valid_hostname_port none = false
proxy_is_valid_hostname_port (some p) = is_valid_hostname_port p.host

-- `Proxy.IsValidCredentials`
unfoldable pub proxy_is_valid_credentials : Option Proxy → Bool
proxy_is_valid_credentials none = false
proxy_is_valid_credentials (some p) = is_valid_credentials_for p.scheme p.username p.password

-- A host and a port: `host:port`, or `[literal]:port`.
pub record IsHostnamePort (hnp : Bytes) : Type 0 where
  pub parts : Endpoint
  pub spelled : hnp ≡ join_hostname_port parts
  pub one_way : IsSplit parts
  pub port : IsPort parts.port
  pub host :
      (if parts.bracketed then is_valid_ip_literal parts.host else is_valid_host parts.host) ≡ true

-- The fields of a usable endpoint.
pub record IsProxy (p : Proxy) : Type 0 where
  pub scheme : IsScheme p.scheme
  pub endpoint : IsHostnamePort p.host
  pub credentials : AreCredentials p.scheme p.username p.password

empty_host_refused : (is_valid_host [] ≡ false) × (is_valid_ip_literal [] ≡ false)
unfolding is_valid_host is_valid_ip_literal index_byte
empty_host_refused = (refl, refl)

check_endpoint_iff :
    (e : Endpoint)
    → (check_endpoint e ≡ none) ↔ (
        IsPort e.port
        × ((if e.bracketed then is_valid_ip_literal e.host else is_valid_host e.host) ≡ true))
unfolding check_endpoint
check_endpoint_iff e =
    let p = is_valid_port_iff e.port in
    let n = bytes_eq_iff e.host [] in
    (
      (λ h. (p.0 (ground arith), ground arith)),
      (λ c. let v = p.1 c.0 in ground (arith, v, n, c.1, empty_host_refused)),
    )

nil_unsplit : split_hostname_port [] ≡ none
unfolding split_hostname_port
nil_unsplit = refl

-- The host field is accepted exactly when it is a host, or an IP literal in brackets, and a port.
pub validate_hostname_port_iff :
    (hnp : Bytes) → (validate_hostname_port hnp ≡ none) ↔ IsHostnamePort hnp
unfolding validate_hostname_port
validate_hostname_port_iff hnp = elim (Option-cases (split_hostname_port hnp)) [
  | inl unsplit ↦ (
    λ h. absurd (ground (arith, unsplit)),
    λ c.
        let split = (split_hostname_port_iff hnp c.parts).1 (c.spelled, c.one_way) in
        cc (split, unsplit),
  )
  | inr (e, split) ↦ (
    λ h.
        let shape = (split_hostname_port_iff hnp e).0 split in
        let checked = (check_endpoint_iff e).0 (ground (arith, split)) in
        record {
          parts = e;
          spelled = shape.0;
          one_way = shape.1;
          port = checked.0;
          host = checked.1;
        },
    λ c.
        let again = (split_hostname_port_iff hnp c.parts).1 (c.spelled, c.one_way) in
        let checked = (check_endpoint_iff c.parts).1 (c.port, c.host) in
        ground (arith, again, checked, bytes_eq_iff hnp [], nil_unsplit),
  )
]

-- A proxy is valid exactly when its fields describe a usable endpoint.
pub validate_iff : (p : Proxy) → (validate (some p) ≡ none) ↔ IsProxy p
unfolding validate
validate_iff p =
    let endpoint = validate_hostname_port_iff p.host in
    let credentials = is_valid_credentials_for_iff p.scheme p.username p.password in
    (
      λ h. record {
        scheme = is_valid_scheme-IsScheme p.scheme (ground arith);
        endpoint = endpoint.0 (ground arith);
        credentials = credentials.0 (ground arith);
      },
      λ v.
          let s = IsScheme-is_valid_scheme v.scheme in
          let e = endpoint.1 v.endpoint in
          let c = credentials.1 v.credentials in ground (arith, s, e, c),
    )

-- ===== src/Proxy/Url.antt =====
-- proxy.go: FromURL, ExportURL and LogValue, over the part of net/url that they use.
pub mod RoundTrip
use proxykit_go.Base.{
  ℕ, zero, suc, ◌+◌, ◌-◌, ◌/◌, ◌%◌, ◌<◌, Bool, true, false, not, ◌&&◌, ◌||◌, ◌≡◌, refl, arith, [],
  ◌∷◌, ◌++◌, Option, none, some, if◌then◌else◌, ltb, ◌==◌, length, take, get_or, Bool-cases,
  Option-cases, inl, inr, ◌⊎◌, ◌↔◌,
}
use proxykit_go.Base.Bytes.{Bytes, codes, bytes_eq, bytes_eq_iff}
use proxykit_go.Proxy.Scheme.{ProxyScheme, http, is_valid_scheme, default_port, parse_scheme}
use proxykit_go.Proxy.Port.{is_valid_port}
use proxykit_go.Proxy.Split.{Endpoint, split_hostname_port}
use proxykit_go.Proxy.Record.{Proxy}
use proxykit_go.Proxy.Validate.{
  ProxyError, nil_url, invalid_proxy_url, invalid_scheme, invalid_host, validate,
  validate_hostname_port, check_endpoint, validate_iff,
}

-- `url.Userinfo`: a password is set or not.
pub record Userinfo : Type 0 where
  pub username : Bytes
  pub password : Option Bytes

-- The fields of `url.URL` that are read or written.
pub record Url : Type 0 where
  pub scheme : Bytes
  pub opaque : Bytes
  pub user : Option Userinfo
  pub host : Bytes
  pub path : Bytes
  pub force_query : Bool
  pub raw_query : Bytes
  pub fragment : Bytes

-- A value, or the zero value with an error.
pub data Result {ℓ} (A : Type ℓ) : Type ℓ where
  ok : A → Result A
  err : ProxyError → Result A

-- `new(url.URL)`
abbrev pub zero_url : Url
zero_url = record {
  scheme = [];
  opaque = [];
  user = none;
  host = [];
  path = [];
  force_query = false;
  raw_query = [];
  fragment = [];
}

unfoldable pub export_user : Bytes → Bytes → Option Userinfo
export_user username password =
    if not (bytes_eq username [])
    then (if not (bytes_eq password [])
        then some (record { username = username; password = some password })
        else some (record { username = username; password = none }))
    else none

-- `ExportURL`
unfoldable pub export_url : Option Proxy → Option Url
export_url none = none
export_url (some p) =
    some (record zero_url {
      scheme = p.scheme;
      host = p.host;
      user = export_user p.username p.password;
    })

-- `LogValue`: the URL whose text is the value.
unfoldable pub log_value : Proxy → Option Url
log_value p =
    if not (bytes_eq p.password [])
    then export_url (some (record p { password = codes "xxxxx" }))
    else export_url (some p)

-- `strconv.Itoa` on a number of at most five digits.
unfoldable pub itoa : ℕ → ℕ → Bytes
itoa zero n = []
itoa (suc f) n =
    let front = itoa f (n / 10) in
    if ltb n 10 then (b'0' + n) ∷ [] else front ++ (b'0' + n % 10) ∷ []

-- `strings.TrimSuffix(host, ":")`
unfoldable pub trim_colon : Bytes → Bytes
trim_colon s =
    if not (length s == 0) && get_or s (length s - 1) 0 == b':' then take (length s - 1) s else s

-- The host with a port: the default one where it has none.
unfoldable pub with_port : ProxyScheme → Bytes → Bytes
with_port scheme host =
    let filled = trim_colon host ++ (b':' ∷ itoa 5 (default_port scheme)) in
    elim (split_hostname_port host) [
      | none ↦ filled
      | some e ↦ if bytes_eq e.port [] then filled else host
    ]

-- The credentials of a URL.
unfoldable pub credentials : Option Userinfo → Bytes × Bytes
credentials none = ([], [])
credentials (some u) = (u.username, elim u.password [ none ↦ [] | some p ↦ p ])

-- `FromURL` behind the check of the URL's shape, for a scheme that is known.
unfoldable pub from_endpoint : ProxyScheme → Url → Result Proxy
from_endpoint scheme u =
    let c = credentials u.user in
    let p : Proxy = record {
      scheme = scheme;
      host = with_port scheme u.host;
      username = c.0;
      password = c.1;
    } in
    if bytes_eq u.host []
    then err invalid_host
    else elim (validate (some p)) [ some e ↦ err e | none ↦ ok p ]

-- `FromURL`
unfoldable pub from_url : Option Url → Result Proxy
from_url none = err nil_url
from_url (some u) =
    if not (bytes_eq u.opaque [])
      || not (bytes_eq u.raw_query [])
      || u.force_query
      || not (bytes_eq u.fragment [])
      || not (bytes_eq u.path []) && not (bytes_eq u.path (codes "/"))
    then err invalid_proxy_url
    else if not (bytes_eq u.scheme [])
    then elim (parse_scheme u.scheme) [
      | none ↦ err invalid_scheme
      | some scheme ↦ from_endpoint scheme u
    ]
    else from_endpoint http u

-- ===== src/Proxy/Url/RoundTrip.antt =====
-- proxy.go: FromURL undoes ExportURL, and returns valid proxies only; LogValue hides the password.
use proxykit_go.Base.{
  false, ◌≡◌, ◌≢◌, refl, arith, [], ◌∷◌, Option, none, some, Bool-cases, Option-cases, inl, inr, ap,
  ◌∙◌,
}
use proxykit_go.Base.Bytes.{Bytes, bytes_eq, bytes_eq_iff}
use proxykit_go.Proxy.Scheme.{
  ProxyScheme, http, parse_scheme, IsScheme, IsScheme-is_valid_scheme, http_scheme, https_scheme,
  socks4_scheme, socks4a_scheme, socks5_scheme, socks5h_scheme,
}
use proxykit_go.Proxy.Port.{IsPort}
use proxykit_go.Proxy.Split.{split_hostname_port_iff}
use proxykit_go.Proxy.Record.{Proxy}
use proxykit_go.Proxy.Validate.{
  validate, IsProxy, validate_iff, IsHostnamePort, validate_hostname_port,
  validate_hostname_port_iff,
}
use proxykit_go.Proxy.Url.{
  Url, zero_url, ok, export_user, export_url, log_value, with_port, credentials, from_endpoint,
  from_url,
}

port_nonempty : (port : Bytes) → IsPort port → bytes_eq port [] ≡ false
unfolding bytes_eq
port_nonempty [] p = absurd (omega arith)
port_nonempty (c ∷ cs) p = refl

host_nonempty : (host : Bytes) → IsHostnamePort host → bytes_eq host [] ≡ false
unfolding validate_hostname_port
host_nonempty host h = ground (arith, (validate_hostname_port_iff host).1 h)

-- A host with a port is left as it is.
with_port_kept :
    (scheme : ProxyScheme) (host : Bytes) → IsHostnamePort host → with_port scheme host ≡ host
unfolding with_port
with_port_kept scheme host h =
    let split = (split_hostname_port_iff host h.parts).1 (h.spelled, h.one_way) in
    ground (arith, split, port_nonempty h.parts.port h.port)

credentials-export_user :
    (username password : Bytes)
    → (username ≡ [] → password ≡ [])
    → credentials (export_user username password) ≡ (username, password)
unfolding credentials export_user
credentials-export_user username password h =
    ground (arith, bytes_eq_iff username [], bytes_eq_iff password [])

scheme_nonempty : {s : ProxyScheme} → IsScheme s → bytes_eq s [] ≡ false
unfolding bytes_eq
scheme_nonempty http_scheme = refl
scheme_nonempty https_scheme = refl
scheme_nonempty socks4_scheme = refl
scheme_nonempty socks4a_scheme = refl
scheme_nonempty socks5_scheme = refl
scheme_nonempty socks5h_scheme = refl

scheme_kept : {s : ProxyScheme} → IsScheme s → parse_scheme s ≡ some s
unfolding parse_scheme
scheme_kept {s} h = rw (IsScheme-is_valid_scheme h)

from_endpoint_kept :
    (p : Proxy) (u : Url)
    → IsProxy p
    → u.host ≡ p.host
    → u.user ≡ export_user p.username p.password
    → from_endpoint p.scheme u ≡ ok p
unfolding from_endpoint
from_endpoint_kept p u v eh eu =
    let hosts : with_port p.scheme u.host ≡ p.host =
      ap (with_port p.scheme) eh ∙ with_port_kept p.scheme p.host v.endpoint in
    let users : credentials u.user ≡ (p.username, p.password) =
      ap credentials eu ∙ credentials-export_user p.username p.password v.credentials.owned in
    let filled : bytes_eq u.host [] ≡ false =
      ap (λ s. bytes_eq s []) eh ∙ host_nonempty p.host v.endpoint in
    let built : record {
      scheme = p.scheme;
      host = with_port p.scheme u.host;
      username = (credentials u.user).0;
      password = (credentials u.user).1;
    }
        ≡ p =
      λ i. record {
        scheme = p.scheme;
        host = hosts i;
        username = (users i).0;
        password = (users i).1;
      } in
    let valid = ap (λ q. validate (some q)) built ∙ (validate_iff p).1 v in
    rw (filled, valid) (ap ok built)

-- `FromURL` gives back every valid proxy from its exported URL.
pub from_url-export_url :
    (p : Proxy) → validate (some p) ≡ none → from_url (export_url (some p)) ≡ ok p
unfolding from_url export_url
from_url-export_url p h =
    let v = (validate_iff p).0 h in
    let u : Url = record zero_url {
      scheme = p.scheme;
      host = p.host;
      user = export_user p.username p.password;
    } in
    ground (
      arith,
      scheme_nonempty v.scheme,
      scheme_kept v.scheme,
      (bytes_eq_iff [] []).1 refl,
      from_endpoint_kept p u v refl refl,
    )

from_endpoint-valid :
    (s : ProxyScheme) (u : Url) {p : Proxy} → from_endpoint s u ≡ ok p → validate (some p) ≡ none
unfolding from_endpoint
from_endpoint-valid s u h = ground arith

-- Whatever `FromURL` returns without an error is a valid proxy.
pub from_url-IsProxy : (u : Option Url) {p : Proxy} → from_url u ≡ ok p → IsProxy p
unfolding from_url
from_url-IsProxy none h = cc
from_url-IsProxy (some u) {p} h =
    let valid : validate (some p) ≡ none = elim (Option-cases (parse_scheme u.scheme)) [
      | inl n ↦ elim (Bool-cases (bytes_eq u.scheme [])) [
        | inl e ↦ from_endpoint-valid http u (ground arith)
        | inr e ↦ absurd (ground arith)
      ]
      | inr (s, e) ↦ elim (Bool-cases (bytes_eq u.scheme [])) [
        | inl e ↦ from_endpoint-valid http u (ground arith)
        | inr n ↦ from_endpoint-valid s u (ground arith)
      ]
    ] in
    (validate_iff p).0 valid

-- The value that is logged does not depend on the password, as long as there is one.
pub log_value_hides :
    (p : Proxy) (a b : Bytes)
    → a ≢ []
    → b ≢ []
    → log_value (record p { password = a }) ≡ log_value (record p { password = b })
unfolding log_value
log_value_hides p a b ha hb = ground (arith, bytes_eq_iff a [], bytes_eq_iff b [])

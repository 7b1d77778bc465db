-- ===== src/Parser/Errors.antt =====
-- proxyparser.go: the errors, schemeOf, assignField and invalidProxyFormat.
use proxykit_go.Base.{ℕ, not, Option, none, some, [], ◌∷◌, ◌++◌, ◌==◌, if◌then◌else◌}
use proxykit_go.Base.Bytes.{Bytes, bytes_eq}
use proxykit_go.Proxy.Scheme.{ProxyScheme, is_valid_scheme, parse_scheme}
use proxykit_go.Proxy.Record.{Proxy}
use proxykit_go.Proxy.Validate.{
  ProxyError, invalid_scheme, invalid_host, invalid_port, invalid_credentials,
}

-- `invalid_proxy_format e` wraps the sentinel `e` of the proxy package, or nothing.
pub data ParseError : Type 0 where
  invalid_proxy_format : Option ProxyError → ParseError
  invalid_format_end_str format_too_long host_not_parsed scheme_not_parsed : ParseError
  nil_destination : ParseError
  unexpected_trail subseq_delim_not_found : Bytes → ParseError
  invalid_format_verb : ℕ → ParseError
  mismatch_delim : Bytes → ℕ → ParseError

-- The destination behind a call, and the error; a nil error is `none`.
pub record Outcome : Type 0 where
  pub proxy : Proxy
  pub error : Option ParseError

-- `schemeOf`, its first result.
unfoldable pub scheme_of : Bytes → ProxyScheme
scheme_of s = elim (parse_scheme s) [ some scheme ↦ scheme | none ↦ s ]

-- The scheme that a captured text stands for: `schemeOf` is asked where it is not canonical.
unfoldable pub captured_scheme : Bytes → ProxyScheme
captured_scheme s = if not (is_valid_scheme s) then scheme_of s else s

-- `proxy.Host` with a part added behind a colon, as `assignField` joins host and port.
unfoldable pub join_host : Bytes → Bytes → Bytes
join_host host val =
    if bytes_eq host [] then val else if not (bytes_eq val []) then host ++ (b':' ∷ val) else host

-- `assignField`
unfoldable pub assign_field : ℕ → Bytes → Proxy → Proxy
assign_field field val p =
    if field == b't'
    then record p { scheme = captured_scheme val }
    else if field == b'h'
    then record p { host = join_host p.host val }
    else if field == b'd'
    then record p { host = join_host p.host val }
    else if field == b'u'
    then record p { username = val }
    else if field == b'p'
    then record p { password = val }
    else p

-- `invalidProxyFormat`
unfoldable pub wrap_error : ProxyError → ParseError
wrap_error invalid_scheme = invalid_proxy_format (some invalid_scheme)
wrap_error invalid_host = invalid_proxy_format (some invalid_host)
wrap_error invalid_port = invalid_proxy_format (some invalid_port)
wrap_error invalid_credentials = invalid_proxy_format (some invalid_credentials)
wrap_error _ = invalid_proxy_format none

-- ===== src/Tests/Proxies.antt =====
-- proxy.go on concrete inputs.
use proxykit_go.Base.{true, false, ◌≡◌, refl, arith, none, some}
use proxykit_go.Base.Bytes.{codes, bytes_eq, index_byte, last_index_byte}
use proxykit_go.Base.Split.{split_onto}
use proxykit_go.Proxy.Scheme.{
  is_valid_scheme, canonical_scheme, parse_scheme, parse_scheme_iff, socks4a, socks4a_scheme,
  socks5h, http, default_port,
}
use proxykit_go.Proxy.Port.{is_valid_port, is_valid_port_iff}
use proxykit_go.Proxy.Credentials.{
  is_printable_ascii, is_valid_credentials, is_valid_credentials_for, is_valid_credentials_for_iff,
  AreCredentials,
}
use proxykit_go.Proxy.Netip.{parse_addr_is6}
use proxykit_go.Proxy.Host.Defs.{
  digits_only, is_digit_label, ipv4_loop, is_ipv4_literal, is_valid_host_label, is_valid_ip_literal,
  scan_labels, check_name, is_valid_host,
}
use proxykit_go.Proxy.Host.Octets.{is_quad, is_ipv4_literal_lem}
use proxykit_go.Proxy.Host.Valid.{is_valid_host_iff}
use proxykit_go.Proxy.Split.{split_hostname_port, split_hostname_port_iff}
use proxykit_go.Proxy.Record.{Proxy}
use proxykit_go.Proxy.Validate.{
  validate, validate_hostname_port, check_endpoint, unsplit_error, invalid_port, invalid_host,
  IsProxy, validate_iff, validate_hostname_port_iff,
}
use proxykit_go.Proxy.Url.{ok, export_url, log_value, itoa, trim_colon, with_port, from_url}
use proxykit_go.Proxy.Url.RoundTrip.{from_url-export_url, from_url-IsProxy, log_value_hides}

parse_scheme_mixed : parse_scheme (codes "SOCKS5h") ≡ some socks5h
unfolding parse_scheme is_valid_scheme canonical_scheme bytes_eq
parse_scheme_mixed = refl

parse_scheme_iff_example : parse_scheme (codes "SOCKS4A") ≡ some socks4a
parse_scheme_iff_example = (parse_scheme_iff (codes "SOCKS4A") socks4a).1 (socks4a_scheme, refl)

ports :
    (is_valid_port (codes "000080") ≡ true)
    × (is_valid_port (codes "0") ≡ false)
    × (is_valid_port (codes "65536") ≡ false)
    × (is_valid_port (codes "") ≡ false)
    × (is_valid_port (codes "8a") ≡ false)
unfolding is_valid_port
ports = (refl, refl, refl, refl, refl)

is_valid_port_iff_example : is_valid_port (codes "00080") ≡ true
is_valid_port_iff_example =
    (is_valid_port_iff (codes "00080")).1
      (record { digits = refl; positive = omega arith; bounded = omega arith })

credentials_example : AreCredentials http (codes "user") (codes "pass:word")
unfolding is_valid_credentials_for is_valid_credentials is_printable_ascii bytes_eq index_byte
credentials_example = (is_valid_credentials_for_iff http (codes "user") (codes "pass:word")).0 refl

hosts :
    (is_valid_host (codes "proxy-1.example.com.") ≡ true)
    × (is_valid_host (codes "1.2.3.4") ≡ true)
    × (is_valid_host (codes "1.2.3.4.") ≡ false)
    × (is_valid_host (codes "1.2.3") ≡ false)
    × (is_valid_host (codes "fe80::1%eth0") ≡ true)
    × (is_valid_host (codes "-a.com") ≡ false)
    × (is_valid_host (codes "a..b") ≡ false)
    × (is_valid_host (codes "a_b") ≡ false)
unfolding is_valid_host check_name scan_labels is_digit_label digits_only is_ipv4_literal ipv4_loop
    is_valid_host_label is_valid_ip_literal parse_addr_is6 index_byte
hosts = (refl, refl, refl, refl, refl, refl, refl, refl)

is_ipv4_literal_lem_example : is_ipv4_literal (codes "10.0.0.255") ≡ is_quad (codes "10.0.0.255")
is_ipv4_literal_lem_example = is_ipv4_literal_lem (codes "10.0.0.255")

is_valid_host_iff_example : is_valid_host (codes "a-b.example.") ≡ true
unfolding index_byte split_onto is_valid_host_label
is_valid_host_iff_example = (is_valid_host_iff (codes "a-b.example.") refl).1 (record {
  name = codes "a-b.example";
  rooted = true;
  spelled = refl;
  named = refl;
  short = omega arith;
  not_numeric = λ _. refl;
})

split_hostname_port_iff_example :
    split_hostname_port (codes "[::1]:80")
    ≡ some (record { host = codes "::1"; port = codes "80"; bracketed = true })
split_hostname_port_iff_example =
    (split_hostname_port_iff (codes "[::1]:80")
        (record { host = codes "::1"; port = codes "80"; bracketed = true })).1
      (refl, refl)

abbrev sample : Proxy
sample = record {
  scheme = http;
  host = codes "proxy.example.com:8080";
  username = codes "user";
  password = codes "pass";
}

sample_valid : validate (some sample) ≡ none
unfolding validate validate_hostname_port check_endpoint split_hostname_port is_valid_scheme
    is_valid_port is_valid_host check_name scan_labels is_digit_label digits_only
    is_valid_host_label is_valid_credentials_for is_valid_credentials is_printable_ascii bytes_eq
    index_byte
sample_valid = refl

validate_errors :
    (validate_hostname_port (codes "host") ≡ some invalid_port)
    × (validate_hostname_port (codes "[::1]") ≡ some invalid_port)
    × (validate_hostname_port (codes ":80") ≡ some invalid_host)
    × (validate_hostname_port (codes "::1:80") ≡ some invalid_host)
    × (validate_hostname_port (codes "h:99999") ≡ some invalid_port)
unfolding validate_hostname_port check_endpoint unsplit_error split_hostname_port is_valid_port
    is_valid_host bytes_eq index_byte last_index_byte
validate_errors = (refl, refl, refl, refl, refl)

validate_iff_example : IsProxy sample
validate_iff_example = (validate_iff sample).0 sample_valid

validate_hostname_port_iff_example : validate_hostname_port sample.host ≡ none
validate_hostname_port_iff_example =
    (validate_hostname_port_iff sample.host).1 validate_iff_example.endpoint

from_url-export_url_example : from_url (export_url (some sample)) ≡ ok sample
from_url-export_url_example = from_url-export_url sample sample_valid

from_url-IsProxy_example : IsProxy sample
from_url-IsProxy_example =
    from_url-IsProxy (export_url (some sample)) (from_url-export_url sample sample_valid)

log_value_hides_example :
    log_value (record sample { password = codes "a" })
    ≡ log_value (record sample { password = codes "longer" })
log_value_hides_example = log_value_hides sample (codes "a") (codes "longer") (λ e. cc) (λ e. cc)

default_port_filled : with_port http (codes "host:") ≡ codes "host:80"
unfolding with_port default_port split_hostname_port trim_colon itoa bytes_eq index_byte
default_port_filled = refl

-- ===== src/Tests/Parsers.antt =====
-- proxyparser.go on concrete inputs.
use proxykit_go.Base.{false, ◌≡◌, refl, none, some, []}
use proxykit_go.Base.Bytes.{codes, bytes_eq, index_byte, index, has_prefix}
use proxykit_go.Proxy.Scheme.{is_valid_scheme, canonical_scheme, parse_scheme, http, socks5}
use proxykit_go.Proxy.Port.{is_valid_port}
use proxykit_go.Proxy.Credentials.{
  is_printable_ascii, is_valid_credentials, is_valid_credentials_for,
}
use proxykit_go.Proxy.Host.Defs.{
  digits_only, is_digit_label, is_valid_host_label, scan_labels, check_name, is_valid_host,
}
use proxykit_go.Proxy.Split.{split_hostname_port}
use proxykit_go.Proxy.Validate.{
  validate, validate_hostname_port, check_endpoint, IsProxy, validate_iff,
}
use proxykit_go.Parser.Errors.{scheme_of, Outcome, captured_scheme, assign_field, join_host}
use proxykit_go.Parser.Format.{
  Parse, refused, generic, new, new_generic, compiled, detect_parser_kind, count_format_ops,
  scan_format, literal_length, resolve, resolve_op, look_ahead, special_parse,
}
use proxykit_go.Parser.Field.{
  delimiter_matches, step_delimiter, find_delimiter, is_bare_username, capture, step_captured,
  step_found, step_credential, step_op,
}
use proxykit_go.Parser.Generic.{run_plan, begin, lenient_error, conclude, finish, parse_generic}
use proxykit_go.Base.{◌≢◌, ◌⊎◌, true, suc, length}
use proxykit_go.Parser.Strict.{parse_strict_full_credentials, parse_strict_scheme_host_port}
use proxykit_go.Parser.Field.{Cursor}
use proxykit_go.Parser.Generic.{Shortcut, out_of_rounds}
use proxykit_go.Parser.Total.{new-parse_generic}
use proxykit_go.Parser.RoundTrip.{
  Values, write_format, described, full_format, short_format,
  parse_strict_full_credentials-write_format, parse_strict_scheme_host_port-write_format,
}

abbrev values : Values
values = record {
  scheme = socks5;
  host = codes "proxy.example";
  port = codes "1080";
  username = codes "user";
  password = codes "a:b";
}

full_valid : IsProxy (described values)
unfolding validate is_valid_scheme bytes_eq validate_hostname_port split_hostname_port index_byte
    check_endpoint is_valid_port is_valid_host check_name scan_labels is_valid_host_label
    is_digit_label digits_only is_valid_credentials_for is_valid_credentials is_printable_ascii
full_valid = (validate_iff (described values)).0 refl

short_valid : IsProxy (record (described values) { username = []; password = [] })
unfolding validate is_valid_scheme bytes_eq validate_hostname_port split_hostname_port index_byte
    check_endpoint is_valid_port is_valid_host check_name scan_labels is_valid_host_label
    is_digit_label digits_only is_valid_credentials_for is_valid_credentials is_printable_ascii
short_valid = (validate_iff (record (described values) { username = []; password = [] })).0 refl

full_format_example :
    parse_strict_full_credentials (write_format full_format values)
    ≡ record { proxy = described values; error = none }
full_format_example = parse_strict_full_credentials-write_format values full_valid refl refl

short_format_example :
    parse_strict_scheme_host_port (write_format short_format values)
    ≡ record { proxy = record (described values) { username = []; password = [] }; error = none }
short_format_example = parse_strict_scheme_host_port-write_format values short_valid

-- A lenient format whose credentials may be left out.
abbrev lenient : Parse
unfolding new_generic count_format_ops scan_format literal_length resolve resolve_op look_ahead
lenient = elim (new_generic full_format false) [
  | compiled pp ↦ pp
  | refused e ↦ special_parse generic
]

lenient_compiled : new full_format false ≡ compiled lenient
unfolding new detect_parser_kind lenient
lenient_compiled = refl

-- isValidFast does not answer.
abbrev silent : Shortcut
silent input p = false

new-parse_generic_example :
    ((c : Cursor)
      → run_plan (suc (length lenient.plan)) lenient (codes "HTTP://proxy.example:80") 0 c
        ≢ out_of_rounds)
    × ((o : Outcome) × (parse_generic silent lenient (codes "HTTP://proxy.example:80") ≡ some o)
        × (o.error ≡ none
            → (silent (codes "HTTP://proxy.example:80") o.proxy ≡ true) ⊎ IsProxy o.proxy))
new-parse_generic_example =
    new-parse_generic silent full_format false (codes "HTTP://proxy.example:80") lenient_compiled

lenient_without_credentials :
    parse_generic silent lenient (codes "HTTP://proxy.example:80")
    ≡ some (record {
      proxy = record {
        scheme = http;
        host = codes "proxy.example:80";
        username = [];
        password = [];
      };
      error = none;
    })
unfolding parse_generic begin run_plan step_op step_delimiter step_credential step_found
    find_delimiter is_bare_username capture step_captured delimiter_matches conclude lenient_error
    finish index has_prefix assign_field captured_scheme parse_scheme canonical_scheme join_host
    validate is_valid_scheme bytes_eq validate_hostname_port split_hostname_port index_byte
    check_endpoint is_valid_port is_valid_host check_name scan_labels is_valid_host_label
    is_digit_label digits_only is_valid_credentials_for is_valid_credentials is_printable_ascii
    lenient scheme_of
lenient_without_credentials = refl

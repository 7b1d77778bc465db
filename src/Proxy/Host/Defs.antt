-- ===== src/Proxy/Host/Defs.antt =====
-- proxy.go: isDigitLabel, isIPv4Literal, isValidHostLabel, isValidZone, isValidIPLiteral and
-- IsValidHost. Where the source passes `host, start, end`, the model passes the slice host[start:end].
use proxykit_go.Base.{
  ℕ, ◌+◌, ◌-◌, ◌*◌, Bool, true, false, not, ◌&&◌, ◌||◌, Option, none, some, [], ◌∷◌, ◌++◌, ltb, leb,
  ◌==◌, if◌then◌else◌, length, get_or, take, drop,
}
use proxykit_go.Base.Bytes.{Bytes, within, index_byte}
use proxykit_go.Proxy.Netip.{parse_addr_is6}

abbrev pub max_dns_label_length : ℕ
max_dns_label_length = 63

abbrev pub max_dns_name_length : ℕ
max_dns_name_length = 253

abbrev pub max_absolute_dns_name_length : ℕ
max_absolute_dns_name_length = 254

abbrev pub is_ldh : ℕ → Bool
is_ldh c = within b'a' b'z' c || within b'A' b'Z' c || within b'0' b'9' c || c == b'-'

-- The loop of `isDigitLabel`.
unfoldable pub digits_only : Bytes → Bool
digits_only [] = true
digits_only (c ∷ cs) = if ltb c b'0' || ltb b'9' c then false else digits_only cs

-- `isDigitLabel`
unfoldable pub is_digit_label : Bytes → Bool
is_digit_label label = if length label == 0 then false else digits_only label

-- The loop of `isIPv4Literal`.
unfoldable pub ipv4_loop : ℕ → ℕ → ℕ → Bytes → Bool
ipv4_loop octets digits value [] = octets == 3 && ltb 0 digits
ipv4_loop octets digits value (c ∷ cs) =
    let next = ipv4_loop (octets + 1) 0 0 cs in
    let more = ipv4_loop octets (digits + 1) (value * 10 + (c - b'0')) cs in
    if c == b'.'
    then (if digits == 0 then false else next)
    else if ltb c b'0' || ltb b'9' c
    then false
    else if digits == 1 && value == 0
    then false
    else if ltb 3 (digits + 1) || ltb 255 (value * 10 + (c - b'0'))
    then false
    else more

-- `isIPv4Literal`
unfoldable pub is_ipv4_literal : Bytes → Bool
is_ipv4_literal host = ipv4_loop 0 0 0 host

-- `isValidHostLabel`
unfoldable pub is_valid_host_label : Bytes → Bool
is_valid_host_label label =
    ltb 0 (length label)
    && leb (length label) max_dns_label_length
    && not (get_or label 0 0 == b'-')
    && not (get_or label (length label - 1) 0 == b'-')

-- `isValidZone`
unfoldable pub is_valid_zone : Bytes → Bool
is_valid_zone [] = true
is_valid_zone (c ∷ cs) =
    if not (
      within b'a' b'z' c
      || within b'A' b'Z' c
      || within b'0' b'9' c
      || c == b'-'
      || c == b'.'
      || c == b'_'
      || c == b'~')
    then false
    else is_valid_zone cs

-- `isValidIPLiteral`
unfoldable pub is_valid_ip_literal : Bytes → Bool
unfolding is_valid_zone
is_valid_ip_literal host = elim (index_byte host b':') [
  | none ↦ false
  | some _ ↦ elim (index_byte host b'%') [
    | none ↦ parse_addr_is6 host
    | some zone ↦
        if zone == length host - 1 || not (is_valid_zone (drop (zone + 1) host))
        then false
        else parse_addr_is6 (take zone host)
  ]
]

-- The loop of `IsValidHost`: `label` is host[labelStart:i]. `none` is its early return, and `some`
-- the last label, host[labelStart:length].
unfoldable pub scan_labels : Bytes → Bytes → Option Bytes
scan_labels label [] = some label
scan_labels label (c ∷ cs) =
    let next = scan_labels [] cs in
    let more = scan_labels (label ++ c ∷ []) cs in
    if c == b'.'
    then (if not (is_valid_host_label label) then none else next)
    else if not (is_ldh c)
    then none
    else more

-- `IsValidHost` from its loop on.
unfoldable pub check_name : Bool → Bytes → Bool
check_name root_dot host = elim (scan_labels [] host) [
  | none ↦ false
  | some label ↦
      if is_digit_label label
      then not root_dot && is_ipv4_literal host
      else is_valid_host_label label
]

-- `IsValidHost`
unfoldable pub is_valid_host : Bytes → Bool
is_valid_host host = if length host == 0 then false else elim (index_byte host b':') [
  | some _ ↦ is_valid_ip_literal host
  | none ↦
      if get_or host (length host - 1) 0 == b'.'
      then (if length host == 1 || ltb max_absolute_dns_name_length (length host)
          then false
          else check_name true (take (length host - 1) host))
      else if ltb max_dns_name_length (length host)
      then false
      else check_name false host
]

-- ===== src/Proxy/Netip.antt =====
-- net/netip, as far as proxy.go uses it: whether ParseAddr accepts a text without a zone as an
-- IPv6 address.
use proxykit_go.Base.{
  ℕ, zero, suc, ◌+◌, ◌-◌, ◌*◌, Bool, true, false, not, ◌&&◌, ◌||◌, ◌≡◌, refl, [], ◌∷◌, ltb, leb,
  ◌==◌, if◌then◌else◌, length, get_or, drop,
}
use proxykit_go.Base.Bytes.{Bytes, codes, within, is_digit}

abbrev is_hex : ℕ → Bool
is_hex c = is_digit c || within b'a' b'f' c || within b'A' b'F' c

-- The number of leading hexadecimal digits.
hex_run : Bytes → ℕ
hex_run [] = 0
hex_run (c ∷ cs) = if is_hex c then suc (hex_run cs) else 0

-- `parseIPv4Fields`: four decimal fields with no leading zeros, each up to 255.
ipv4_fields : ℕ → ℕ → ℕ → Bytes → Bool
ipv4_fields field digits value [] = field == 3 && ltb 0 digits
ipv4_fields field digits value (c ∷ cs) =
    let next = ipv4_fields (field + 1) 0 0 cs in
    let more = ipv4_fields field (digits + 1) (value * 10 + (c - b'0')) cs in
    if is_digit c
    then (if digits == 1 && value == 0 || ltb 255 (value * 10 + (c - b'0')) then false else more)
    else if c == b'.' && ltb 0 digits && ltb field 3
    then next
    else false

-- The groups of `parseIPv6`: `i` is the number of address bytes filled, `ellipsis` whether `::` has
-- been read. Each round takes a group of at most four digits, and the colon behind it.
ipv6_groups : ℕ → ℕ → Bool → Bytes → Bool
ipv6_groups zero i ellipsis s = length s == 0 && not ellipsis
ipv6_groups (suc rounds) i ellipsis s =
    let off = hex_run s in
    let rest = drop off s in
    let again = ipv6_groups rounds (i + 2) true (drop 2 rest) in
    let more = ipv6_groups rounds (i + 2) ellipsis (drop 1 rest) in
    let ended = λ (n : ℕ) (seen : Bool). (if ltb n 16 then seen else not seen) in
    if off == 0 || ltb 4 off
    then false
    else if get_or rest 0 0 == b'.'
    then (ellipsis || i == 12) && leb (i + 4) 16 && ipv4_fields 0 0 0 s && ended (i + 4) ellipsis
    else if length rest == 0
    then ended (i + 2) ellipsis
    else if not (get_or rest 0 0 == b':') || length rest == 1
    then false
    else if get_or rest 1 0 == b':'
    then not ellipsis && (if length rest == 2 then ltb (i + 2) 16 else again)
    else more

parse_ipv6 : Bytes → Bool
unfolding ipv6_groups hex_run ipv4_fields
parse_ipv6 s =
    if get_or s 0 0 == b':' && get_or s 1 0 == b':'
    then (length s == 2 || ipv6_groups 8 0 true (drop 2 s))
    else ipv6_groups 8 0 false s

-- The first of `.` and `:` decides which parser `ParseAddr` calls.
dispatch : Bytes → Bytes → Bool
unfolding parse_ipv6
dispatch all_of [] = false
dispatch all_of (c ∷ cs) =
    if c == b'.' then false else if c == b':' then parse_ipv6 all_of else dispatch all_of cs

-- `addr, err := netip.ParseAddr(s); err == nil && addr.Is6()`, on a text with no `%`.
unfoldable pub parse_addr_is6 : Bytes → Bool
unfolding dispatch
parse_addr_is6 s = dispatch s s

accepts_loopback : parse_addr_is6 (codes "::1") ≡ true
unfolding parse_addr_is6
accepts_loopback = refl

accepts_full : parse_addr_is6 (codes "2001:db8:0:0:1:0:0:1") ≡ true
unfolding parse_addr_is6
accepts_full = refl

accepts_mapped : parse_addr_is6 (codes "::ffff:1.2.3.4") ≡ true
unfolding parse_addr_is6
accepts_mapped = refl

rejects_two_ellipses : parse_addr_is6 (codes "1::2::3") ≡ false
unfolding parse_addr_is6
rejects_two_ellipses = refl

rejects_short : parse_addr_is6 (codes "1:2:3") ≡ false
unfolding parse_addr_is6
rejects_short = refl

accepts_trailing : parse_addr_is6 (codes "fe80::") ≡ true
unfolding parse_addr_is6
accepts_trailing = refl

rejects_nine : parse_addr_is6 (codes "1:2:3:4:5:6:7:8:9") ≡ false
unfolding parse_addr_is6
rejects_nine = refl

rejects_full_ellipsis : parse_addr_is6 (codes "1:2:3:4::5:6:7:8") ≡ false
unfolding parse_addr_is6
rejects_full_ellipsis = refl

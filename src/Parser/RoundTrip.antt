-- ===== src/Parser/RoundTrip.antt =====
-- proxyparser.go: what the two special parsers make of a text that is written by their format.
use proxykit_go.Base.{
  ℕ, ◌+◌, ◌==◌, true, none, some, [], ◌∷◌, ◌++◌, if◌then◌else◌, length, drop, ◌≡◌, refl, ◌∙◌, arith,
  take-length-append, drop-append_one,
}
use native.Mathlib.Numerals.{towards_suc}
use mathlib.Core.List
use proxykit_go.Base.Bytes.{Bytes, codes, free_of, has_prefix, index, index_byte-append}
use proxykit_go.Proxy.Scheme.{
  ProxyScheme, IsScheme, http_scheme, https_scheme, socks4_scheme, socks4a_scheme, socks5_scheme,
  socks5h_scheme, IsScheme-is_valid_scheme,
}
use proxykit_go.Proxy.Record.{Proxy}
use proxykit_go.Proxy.Validate.{validate_iff, IsProxy}
use proxykit_go.Parser.Errors.{captured_scheme}
use proxykit_go.Parser.Strict.{
  checked, parse_credentials, parse_strict_scheme_host_port, parse_strict_full_credentials,
}

-- The values that the verbs of a format stand for.
pub record Values : Type 0 where
  pub scheme : Bytes
  pub host : Bytes
  pub port : Bytes
  pub username : Bytes
  pub password : Bytes

abbrev pub value : Values → ℕ → Bytes
value v verb =
    if verb == b't'
    then v.scheme
    else if verb == b'h'
    then v.host
    else if verb == b'd'
    then v.port
    else if verb == b'u'
    then v.username
    else if verb == b'p'
    then v.password
    else verb ∷ []

-- The text that a format stands for: each verb is replaced by its value.
abbrev pub write_format : Bytes → Values → Bytes
write_format [] v = []
write_format (c ∷ []) v = c ∷ []
write_format (c ∷ verb ∷ rest) v =
    let behind_verb = write_format rest v in
    let behind_byte = write_format (verb ∷ rest) v in
    if c == b'%' then value v verb ++ behind_verb else c ∷ behind_byte

-- The proxy that the values describe.
abbrev pub described : Values → Proxy
described v = record {
  scheme = v.scheme;
  host = v.host ++ (b':' ∷ v.port);
  username = v.username;
  password = v.password;
}

IsScheme-free_of : {s : ProxyScheme} → IsScheme s → free_of b':' s ≡ true
IsScheme-free_of http_scheme = refl
IsScheme-free_of https_scheme = refl
IsScheme-free_of socks4_scheme = refl
IsScheme-free_of socks4a_scheme = refl
IsScheme-free_of socks5_scheme = refl
IsScheme-free_of socks5h_scheme = refl

index-append :
    (xs ys : Bytes)
    → free_of b':' xs ≡ true
    → index (xs ++ (b':' ∷ b'/' ∷ b'/' ∷ ys)) (codes "://") ≡ some (length xs)
unfolding index has_prefix
index-append [] ys h = refl
index-append (x ∷ xs) ys h = ground (arith, index-append xs ys)

drop-append_three :
    (xs : Bytes) (a b c : ℕ) (ys : Bytes) → drop (length xs + 3) (xs ++ (a ∷ b ∷ c ∷ ys)) ≡ ys
drop-append_three [] a b c ys = refl
drop-append_three (x ∷ xs) a b c ys =
    simp towards_suc (simp towards_suc at (drop-append_three xs a b c ys))

captured_scheme-IsScheme : {s : ProxyScheme} → IsScheme s → captured_scheme s ≡ s
unfolding captured_scheme
captured_scheme-IsScheme v = ground (arith, IsScheme-is_valid_scheme v)

checked-IsProxy : {p : Proxy} → IsProxy p → checked p ≡ record { proxy = p; error = none }
unfolding checked
checked-IsProxy {p} v = let e = (validate_iff p).1 v in ground (arith, e)

parse_strict_scheme_host_port-write :
    {scheme : ProxyScheme} (rest : Bytes)
    → IsScheme scheme
    → parse_strict_scheme_host_port (scheme ++ (b':' ∷ b'/' ∷ b'/' ∷ rest))
      ≡ checked (record { scheme = scheme; host = rest; username = []; password = [] })
unfolding parse_strict_scheme_host_port
parse_strict_scheme_host_port-write {scheme} rest s =
    rw
      (
        index-append scheme rest (IsScheme-free_of s),
        parse_strict_scheme_host_port,
        take-length-append scheme (b':' ∷ b'/' ∷ b'/' ∷ rest),
        drop-append_three scheme b':' b'/' b'/' rest,
        captured_scheme-IsScheme s,
      )
      refl

parse_credentials-write :
    {scheme : ProxyScheme} (username password host : Bytes)
    → IsScheme scheme
    → free_of b':' username ≡ true
    → free_of b'@' password ≡ true
    → parse_credentials scheme (username ++ (b':' ∷ (password ++ (b'@' ∷ host))))
      ≡ checked (record { scheme = scheme; host = host; username = username; password = password })
unfolding parse_credentials
parse_credentials-write {scheme} username password host s u p =
    let behind = password ++ (b'@' ∷ host) in
    rw
      (
        index_byte-append username b':' behind u,
        parse_credentials,
        drop-append_one username b':' behind,
        index_byte-append password b'@' host p,
        drop-append_one username b':' behind,
        take-length-append username (b':' ∷ behind),
        drop-append_one password b'@' host,
        take-length-append password (b'@' ∷ host),
        captured_scheme-IsScheme s,
      )
      refl

parse_strict_full_credentials-write :
    {scheme : ProxyScheme} (rest : Bytes)
    → IsScheme scheme
    → parse_strict_full_credentials (scheme ++ (b':' ∷ b'/' ∷ b'/' ∷ rest))
      ≡ parse_credentials scheme rest
unfolding parse_strict_full_credentials
parse_strict_full_credentials-write {scheme} rest s =
    rw
      (
        index-append scheme rest (IsScheme-free_of s),
        parse_strict_full_credentials,
        take-length-append scheme (b':' ∷ b'/' ∷ b'/' ∷ rest),
        drop-append_three scheme b':' b'/' b'/' rest,
      )
      refl

abbrev pub full_format : Bytes
full_format = codes "%t://%u:%p@%h:%d"

abbrev pub short_format : Bytes
short_format = codes "%t://%h:%d"

-- A text that is written by the format `%t://%u:%p@%h:%d` is read back by parseStrictFullCredentials,
-- which parseInto calls for this format where parseStrictFast has not answered, if the values describe
-- a usable endpoint, the username has no colon and the password has no `@`.
pub parse_strict_full_credentials-write_format :
    (v : Values)
    → IsProxy (described v)
    → free_of b':' v.username ≡ true
    → free_of b'@' v.password ≡ true
    → parse_strict_full_credentials (write_format full_format v)
      ≡ record { proxy = described v; error = none }
parse_strict_full_credentials-write_format v valid u p =
    let rest = v.username ++ (b':' ∷ (v.password ++ (b'@' ∷ (described v).host))) in
    let parsed =
      parse_strict_full_credentials-write rest valid.scheme
      ∙ parse_credentials-write v.username v.password (described v).host valid.scheme u p
      ∙ checked-IsProxy valid in
    rw (List.append-nil v.port) parsed

-- A text that is written by the format `%t://%h:%d` is read back by parseStrictSchemeHostPort, which
-- parseInto calls for this format where parseStrictFast has not answered, if the values describe a
-- usable endpoint without credentials.
pub parse_strict_scheme_host_port-write_format :
    (v : Values)
    → IsProxy (record (described v) { username = []; password = [] })
    → parse_strict_scheme_host_port (write_format short_format v)
      ≡ record { proxy = record (described v) { username = []; password = [] }; error = none }
parse_strict_scheme_host_port-write_format v valid =
    let parsed =
      parse_strict_scheme_host_port-write (described v).host valid.scheme ∙ checked-IsProxy valid in
    rw (List.append-nil v.port) parsed

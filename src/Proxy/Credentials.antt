-- ===== src/Proxy/Credentials.antt =====
-- proxy.go: IsValidCredentials, IsValidCredentialsFor and isPrintableASCII.
use proxykit_go.Base.{
  ℕ, ◌≤◌, Bool, true, false, not, ◌&&◌, ◌||◌, none, some, ◌≡◌, refl, arith, [], ◌∷◌, ltb,
  if◌then◌else◌, length, all, ◌⊎◌, ◌↔◌,
}
use proxykit_go.Base.Bytes.{
  Bytes, within, bytes_eq, bytes_eq_iff, index_byte, free_of, index_byte-none_iff,
}
use proxykit_go.Proxy.Scheme.{ProxyScheme, http, https, socks4, socks4a}

abbrev pub max_credential_length : ℕ
max_credential_length = 255

abbrev is_printable_byte : ℕ → Bool
is_printable_byte c = within 0x20 0x7e c

-- `isPrintableASCII`
unfoldable pub is_printable_ascii : Bytes → Bool
is_printable_ascii [] = true
is_printable_ascii (c ∷ cs) = if ltb c 0x20 || ltb 0x7e c then false else is_printable_ascii cs

-- `IsValidCredentials`
unfoldable pub is_valid_credentials : Bytes → Bytes → Bool
is_valid_credentials username password =
    if bytes_eq username [] && not (bytes_eq password [])
    then false
    else if ltb max_credential_length (length username)
        || ltb max_credential_length (length password)
    then false
    else is_printable_ascii username && is_printable_ascii password

-- `strings.IndexByte(username, ':') < 0`
abbrev no_colon : Bytes → Bool
no_colon username = elim (index_byte username b':') [ none ↦ true | some _ ↦ false ]

-- `IsValidCredentialsFor`
unfoldable pub is_valid_credentials_for : ProxyScheme → Bytes → Bytes → Bool
is_valid_credentials_for scheme username password =
    if not (is_valid_credentials username password)
    then false
    else if bytes_eq scheme http || bytes_eq scheme https
    then no_colon username
    else if bytes_eq scheme socks4 || bytes_eq scheme socks4a
    then bytes_eq password []
    else true

-- One credential value: up to 255 bytes of printable ASCII.
pub record IsText (s : Bytes) : Type 0 where
  pub short : length s ≤ 255
  pub printable : all (within b' ' b'~') s ≡ true

-- What a scheme asks of its credentials.
pub record AreCredentials (scheme : ProxyScheme) (username password : Bytes) : Type 0 where
  pub user : IsText username
  pub pass : IsText password
  pub owned : username ≡ [] → password ≡ []
  pub basic : (scheme ≡ http) ⊎ (scheme ≡ https) → free_of b':' username ≡ true
  pub user_id_only : (scheme ≡ socks4) ⊎ (scheme ≡ socks4a) → password ≡ []

is_printable_ascii_lem : (s : Bytes) → is_printable_ascii s ≡ all (within b' ' b'~') s
unfolding is_printable_ascii
is_printable_ascii_lem [] = refl
is_printable_ascii_lem (c ∷ cs) = ground (arith, is_printable_ascii_lem cs)

-- The rules that no scheme changes.
is_valid_credentials_iff :
    (username password : Bytes)
    → (is_valid_credentials username password ≡ true)
      ↔ (IsText username × IsText password × (username ≡ [] → password ≡ []))
unfolding is_valid_credentials
is_valid_credentials_iff username password =
    let u = is_printable_ascii_lem username in
    let p = is_printable_ascii_lem password in
    let eu = bytes_eq_iff username [] in
    let ep = bytes_eq_iff password [] in
    (
      (λ h. (
        record { short = ground (arith, u, p); printable = ground (arith, u, p) },
        record { short = ground (arith, u, p); printable = ground (arith, u, p) },
        (λ e. ground (arith, eu, ep)),
      )),
      (λ c. ground (arith, c, u, p, eu, ep)),
    )

-- The code accepts exactly the credentials that the scheme can carry.
pub is_valid_credentials_for_iff :
    (scheme : ProxyScheme) (username password : Bytes)
    → (is_valid_credentials_for scheme username password ≡ true)
      ↔ AreCredentials scheme username password
unfolding is_valid_credentials_for
is_valid_credentials_for_iff scheme username password =
    let general = is_valid_credentials_iff username password in
    let colon = index_byte-none_iff username b':' in
    let e1 = bytes_eq_iff scheme http in
    let e2 = bytes_eq_iff scheme https in
    let e3 = bytes_eq_iff scheme socks4 in
    let e4 = bytes_eq_iff scheme socks4a in
    let ep = bytes_eq_iff password [] in
    (
      (λ h.
          let valid : is_valid_credentials username password ≡ true = ground arith in
          let parts = general.0 valid in
          record {
            user = parts.0;
            pass = parts.1;
            owned = parts.2;
            basic = λ e. ground (arith, e, e1, e2, colon);
            user_id_only = λ e. ground (arith, e, e1, e2, e3, e4, ep);
          }),
      (λ c.
          let valid = general.1 (c.user, c.pass, c.owned) in
          ground (arith, valid, e1, e2, e3, e4, ep, colon, c.basic, c.user_id_only)),
    )

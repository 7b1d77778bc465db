-- ===== src/Proxy/Scheme.antt =====
-- proxy.go: ProxyScheme, its constants, IsValid, DefaultPort and ParseScheme. A scheme is its
-- string, as in the source.
use proxykit_go.Base.{
  ℕ, ◌+◌, ◌-◌, ◌≤◌, Bool, true, false, not, ◌&&◌, ◌↔◌, all, ap, ◌∙◌, [], ◌∷◌, ◌||◌, Option, none,
  some, ◌≡◌, refl, arith, map, ltb, ◌==◌, if◌then◌else◌, length, length-map, Bool-cases, inl, inr,
  sym,
}
use mathlib.Core.Path.{subst}
use proxykit_go.Base.Bytes.{Bytes, codes, within, bytes_eq, bytes_eq_iff}

abbrev pub ProxyScheme : Type 0
ProxyScheme = Bytes

abbrev pub http : ProxyScheme
http = codes "http"

abbrev pub https : ProxyScheme
https = codes "https"

abbrev pub socks4 : ProxyScheme
socks4 = codes "socks4"

abbrev pub socks4a : ProxyScheme
socks4a = codes "socks4a"

abbrev pub socks5 : ProxyScheme
socks5 = codes "socks5"

abbrev pub socks5h : ProxyScheme
socks5h = codes "socks5h"

-- `func (s ProxyScheme) IsValid`
unfoldable pub is_valid_scheme : ProxyScheme → Bool
is_valid_scheme s =
    bytes_eq s http
    || bytes_eq s https
    || bytes_eq s socks4
    || bytes_eq s socks4a
    || bytes_eq s socks5
    || bytes_eq s socks5h

-- `func (s ProxyScheme) DefaultPort`
unfoldable pub default_port : ProxyScheme → ℕ
default_port s =
    if bytes_eq s http
    then 80
    else if bytes_eq s https
    then 443
    else if bytes_eq s socks4 || bytes_eq s socks4a || bytes_eq s socks5 || bytes_eq s socks5h
    then 1080
    else 0

-- The folding of one byte into the buffer.
abbrev pub fold_byte : ℕ → ℕ
fold_byte c = if within b'A' b'Z' c then c + (b'a' - b'A') else c

-- The switch over the folded bytes.
unfoldable pub canonical_scheme : Bytes → Option ProxyScheme
canonical_scheme s =
    if bytes_eq s (codes "http")
    then some http
    else if bytes_eq s (codes "https")
    then some https
    else if bytes_eq s (codes "socks4")
    then some socks4
    else if bytes_eq s (codes "socks4a")
    then some socks4a
    else if bytes_eq s (codes "socks5")
    then some socks5
    else if bytes_eq s (codes "socks5h")
    then some socks5h
    else none

-- `ParseScheme`; `none` is ("", false).
unfoldable pub parse_scheme : Bytes → Option ProxyScheme
parse_scheme s =
    if is_valid_scheme s
    then some s
    else if length s == 0 || ltb (length socks5h) (length s)
    then none
    else canonical_scheme (map fold_byte s)

-- The six schemes.
pub data IsScheme : ProxyScheme → Type 0 where
  http_scheme : IsScheme http
  https_scheme : IsScheme https
  socks4_scheme : IsScheme socks4
  socks4a_scheme : IsScheme socks4a
  socks5_scheme : IsScheme socks5
  socks5h_scheme : IsScheme socks5h

pub is_valid_scheme-IsScheme : (s : ProxyScheme) → is_valid_scheme s ≡ true → IsScheme s
unfolding is_valid_scheme
is_valid_scheme-IsScheme s h = elim (Bool-cases (bytes_eq s http)) [
  | inl e ↦ subst IsScheme (sym ((bytes_eq_iff _ _).0 e)) http_scheme
  | inr n1 ↦ elim (Bool-cases (bytes_eq s https)) [
    | inl e ↦ subst IsScheme (sym ((bytes_eq_iff _ _).0 e)) https_scheme
    | inr n2 ↦ elim (Bool-cases (bytes_eq s socks4)) [
      | inl e ↦ subst IsScheme (sym ((bytes_eq_iff _ _).0 e)) socks4_scheme
      | inr n3 ↦ elim (Bool-cases (bytes_eq s socks4a)) [
        | inl e ↦ subst IsScheme (sym ((bytes_eq_iff _ _).0 e)) socks4a_scheme
        | inr n4 ↦ elim (Bool-cases (bytes_eq s socks5)) [
          | inl e ↦ subst IsScheme (sym ((bytes_eq_iff _ _).0 e)) socks5_scheme
          | inr n5 ↦ elim (Bool-cases (bytes_eq s socks5h)) [
            | inl e ↦ subst IsScheme (sym ((bytes_eq_iff _ _).0 e)) socks5h_scheme
            | inr n6 ↦ absurd (ground arith)
          ]
        ]
      ]
    ]
  ]
]

pub IsScheme-is_valid_scheme : {s : ProxyScheme} → IsScheme s → is_valid_scheme s ≡ true
unfolding is_valid_scheme bytes_eq
IsScheme-is_valid_scheme http_scheme = refl
IsScheme-is_valid_scheme https_scheme = refl
IsScheme-is_valid_scheme socks4_scheme = refl
IsScheme-is_valid_scheme socks4a_scheme = refl
IsScheme-is_valid_scheme socks5_scheme = refl
IsScheme-is_valid_scheme socks5h_scheme = refl

-- A scheme is its own folding, and has 4 to 7 bytes.
pub IsScheme-shape :
    {s : ProxyScheme} → IsScheme s → (map fold_byte s ≡ s) × (4 ≤ length s) × (length s ≤ 7)
IsScheme-shape http_scheme = (refl, omega arith, omega arith)
IsScheme-shape https_scheme = (refl, omega arith, omega arith)
IsScheme-shape socks4_scheme = (refl, omega arith, omega arith)
IsScheme-shape socks4a_scheme = (refl, omega arith, omega arith)
IsScheme-shape socks5_scheme = (refl, omega arith, omega arith)
IsScheme-shape socks5h_scheme = (refl, omega arith, omega arith)

canonical_scheme_lem :
    (t : Bytes) → canonical_scheme t ≡ (if is_valid_scheme t then some t else none)
unfolding canonical_scheme is_valid_scheme
canonical_scheme_lem t = ground (
  arith,
  bytes_eq_iff t http,
  bytes_eq_iff t https,
  bytes_eq_iff t socks4,
  bytes_eq_iff t socks4a,
  bytes_eq_iff t socks5,
  bytes_eq_iff t socks5h,
)

-- The result is the folded input, exactly when that is one of the supported schemes: the test for
-- an already canonical input and the bound on the length change nothing.
parse_scheme-folded :
    (s : Bytes)
    → parse_scheme s ≡ (if is_valid_scheme (map fold_byte s) then some (map fold_byte s) else none)
unfolding parse_scheme
parse_scheme-folded s = elim (Bool-cases (is_valid_scheme s)) [
  | inl v ↦ let shape = IsScheme-shape (is_valid_scheme-IsScheme s v) in rw (shape.0, v)
  | inr n ↦ elim (Bool-cases (is_valid_scheme (map fold_byte s))) [
    | inl v ↦
        let shape = IsScheme-shape (is_valid_scheme-IsScheme (map fold_byte s) v) in
        ground (arith, shape, length-map fold_byte s, canonical_scheme_lem (map fold_byte s))
    | inr m ↦ ground (arith, canonical_scheme_lem (map fold_byte s))
  ]
]

-- A byte that is this one, or the capital of this lowercase letter.
abbrev is_case_of : ℕ → ℕ → Bool
is_case_of d c = c == d || within 97 122 d && c + 32 == d

-- A text that is this one but for the case of its letters.
abbrev pub is_cased : Bytes → Bytes → Bool
is_cased [] [] = true
is_cased [] (c ∷ s) = false
is_cased (d ∷ t) [] = false
is_cased (d ∷ t) (c ∷ s) = is_case_of d c && is_cased t s

-- No capital letter.
abbrev no_capital : ℕ → Bool
no_capital d = not (within 65 90 d)

map-is_cased :
    (t s : Bytes) → all no_capital t ≡ true → (map fold_byte s ≡ t) ↔ (is_cased t s ≡ true)
map-is_cased [] [] low = ((λ _. refl), (λ _. refl))
map-is_cased [] (c ∷ s) low = ((λ h. cc), (λ h. cc))
map-is_cased (d ∷ t) [] low = ((λ h. cc), (λ h. cc))
map-is_cased (d ∷ t) (c ∷ s) low =
    let rest = map-is_cased t s (ground (arith, low)) in
    ((λ h. ground (arith, h, low, rest)), (λ h. ground (arith, h, low, rest)))

IsScheme-low : {t : ProxyScheme} → IsScheme t → all no_capital t ≡ true
IsScheme-low http_scheme = refl
IsScheme-low https_scheme = refl
IsScheme-low socks4_scheme = refl
IsScheme-low socks4a_scheme = refl
IsScheme-low socks5_scheme = refl
IsScheme-low socks5h_scheme = refl

-- ParseScheme answers with a scheme exactly when that is one of the six and the input is its name,
-- where each letter may be a capital.
pub parse_scheme_iff :
    (s t : Bytes) → (parse_scheme s ≡ some t) ↔ (IsScheme t × (is_cased t s ≡ true))
parse_scheme_iff s t =
    let folded = parse_scheme-folded s in
    (
      (λ h. elim (Bool-cases (is_valid_scheme (map fold_byte s))) [
        | inl v ↦
            let same : map fold_byte s ≡ t = ground (arith, h, folded, v) in
            let scheme = subst IsScheme same (is_valid_scheme-IsScheme (map fold_byte s) v) in
            (scheme, (map-is_cased t s (IsScheme-low scheme)).0 same)
        | inr n ↦ absurd (ground (arith, h, folded, n))
      ]),
      (λ (scheme, cased).
          let same = (map-is_cased t s (IsScheme-low scheme)).1 cased in
          let valid : is_valid_scheme (map fold_byte s) ≡ true =
            ap is_valid_scheme same ∙ IsScheme-is_valid_scheme scheme in
          folded ∙ rw valid (ap some same)),
    )

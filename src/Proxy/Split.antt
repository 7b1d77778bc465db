-- ===== src/Proxy/Split.antt =====
-- proxy.go: SplitHostnamePort.
use proxykit_go.Base.{
  ℕ, zero, suc, ◌+◌, ◌≤◌, ◌<◌, Bool, true, false, not, ◌||◌, ◌≡◌, refl, arith, [], ◌∷◌, ◌++◌, ltb,
  leb, ◌==◌, if◌then◌else◌, length, Bool-cases, Option-cases, inl, inr, ◌∙◌, sym, ap, get_or,
  Option, none, some, take, drop, length-append, ◌↔◌, take-length-append, get_or-append_next,
  drop-append_one, drop-append_two, drop-get_or, ==_iff,
}
use mathlib.Core.Path.{subst}
use native.Mathlib.Numerals.{towards_suc}
use proxykit_go.Base.Bytes.{
  Bytes, free_of, index_byte, index_byte-none_iff, index_byte-some, index_byte-append,
}

-- The results of a split that succeeds.
pub record Endpoint : Type 0 where
  pub host : Bytes
  pub port : Bytes
  pub bracketed : Bool

-- The case of an IP literal in brackets.
split_bracketed : Bytes → Option Endpoint
split_bracketed hnp = elim (index_byte hnp b']') [
  | none ↦ none
  | some end_ ↦
      if leb (length hnp) (end_ + 1) || not (get_or hnp (end_ + 1) 0 == b':')
      then none
      else some
          (record { host = drop 1 (take end_ hnp); port = drop (end_ + 2) hnp; bracketed = true })
]

-- The case of a name or an IPv4 address.
split_plain : Bytes → Option Endpoint
split_plain hnp = elim (index_byte hnp b':') [
  | none ↦ none
  | some colon ↦ elim (index_byte (drop (colon + 1) hnp) b':') [
    | some _ ↦ none
    | none ↦ some (record { host = take colon hnp; port = drop (colon + 1) hnp; bracketed = false })
  ]
]

-- `SplitHostnamePort`; `none` is a result with `ok == false`.
unfoldable pub split_hostname_port : Bytes → Option Endpoint
unfolding split_bracketed split_plain
split_hostname_port hnp =
    if ltb (length hnp) 2
    then none
    else if get_or hnp 0 0 == b'['
    then split_bracketed hnp
    else split_plain hnp

-- The text of an endpoint.
abbrev pub join_hostname_port : Endpoint → Bytes
join_hostname_port e =
    if e.bracketed then b'[' ∷ (e.host ++ (b']' ∷ b':' ∷ e.port)) else e.host ++ (b':' ∷ e.port)

-- The endpoints that have one text: brackets hold no bracket, and elsewhere there is one colon.
abbrev pub IsSplit : Endpoint → Type 0
IsSplit e =
    if e.bracketed
    then free_of b']' e.host ≡ true
    else (free_of b':' e.host ≡ true)
      × (free_of b':' e.port ≡ true)
      × ((get_or e.host 0 0 == b'[') ≡ false)
      × (1 ≤ length e.host + length e.port)

split_bracketed-join :
    (host port : Bytes)
    → free_of b']' host ≡ true
    → split_bracketed (b'[' ∷ (host ++ (b']' ∷ b':' ∷ port)))
      ≡ some (record { host = host; port = port; bracketed = true })
unfolding split_bracketed
split_bracketed-join host port h =
    let open_ = b'[' ∷ host in
    let found : index_byte (open_ ++ (b']' ∷ b':' ∷ port)) b']' ≡ some (length open_) =
      index_byte-append open_ b']' (b':' ∷ port) h in
    let inside : take (length open_) (open_ ++ (b']' ∷ b':' ∷ port)) ≡ open_ =
      take-length-append open_ (b']' ∷ b':' ∷ port) in
    let next = get_or-append_next open_ b']' b':' 0 port in
    let behind = drop-append_two open_ b']' b':' port in
    let long : leb (length (open_ ++ (b']' ∷ b':' ∷ port))) (length open_ + 1) ≡ false =
      ground (arith, length-append open_ (b']' ∷ b':' ∷ port)) in
    ground (arith, found, inside, next, behind, long)

split_plain-join :
    (host port : Bytes)
    → free_of b':' host ≡ true
    → free_of b':' port ≡ true
    → split_plain (host ++ (b':' ∷ port))
      ≡ some (record { host = host; port = port; bracketed = false })
unfolding split_plain
split_plain-join host port h p = ground (
  arith,
  index_byte-append host b':' port h,
  take-length-append host (b':' ∷ port),
  drop-append_one host b':' port,
  index_byte-none_iff port b':',
)

split-join-parts :
    (host port : Bytes) (bracketed : Bool)
    → IsSplit (record { host = host; port = port; bracketed = bracketed })
    → split_hostname_port
        (join_hostname_port (record { host = host; port = port; bracketed = bracketed }))
      ≡ some (record { host = host; port = port; bracketed = bracketed })
unfolding split_hostname_port
split-join-parts host port true h =
    ground (arith, split_bracketed-join host port h, length-append host (b']' ∷ b':' ∷ port))
split-join-parts [] port false h = ground (arith, split_plain-join [] port h.0 h.1, h)
split-join-parts (c ∷ cs) port false h =
    ground (arith, split_plain-join (c ∷ cs) port h.0 h.1, h, length-append cs (b':' ∷ port))

-- Splitting gives back the parts of every endpoint.
split-join : (e : Endpoint) → IsSplit e → split_hostname_port (join_hostname_port e) ≡ some e
split-join e h = split-join-parts e.host e.port e.bracketed h

split_bracketed-some :
    (s : Bytes) (e : Endpoint)
    → (get_or s 0 0 == b'[') ≡ true
    → split_bracketed s ≡ some e
    → (s ≡ join_hostname_port e) × IsSplit e
unfolding split_bracketed index_byte
split_bracketed-some [] e o h = cc
split_bracketed-some (c ∷ cs) e o h = elim (Option-cases (index_byte cs b']')) [
  | inl missing ↦ absurd (ground (arith, missing))
  | inr (j, found) ↦
      let next : get_or (c ∷ cs) (suc j + 1) 0 ≡ get_or cs (suc j) 0 = simp towards_suc in
      let behind : drop (suc j + 2) (c ∷ cs) ≡ drop (suc (suc j)) cs = simp towards_suc in
      let parts : e ≡ record { host = take j cs; port = drop (suc (suc j)) cs; bracketed = true } =
        ground (arith, found, next, behind) in
      let colon : get_or cs (suc j) 0 ≡ b':' = ground (arith, found, next) in
      let inside : suc j < length cs = ground (arith, found) in
      let cut = index_byte-some cs b']' j found in
      subst (λ x. (c ∷ cs ≡ join_hostname_port x) × IsSplit x) (sym parts)
        (cc ((==_iff c b'[').0 o, cut.0, drop-get_or cs (suc j) 0 inside, colon), cut.1)
]

take_first :
    (s : Bytes) (i : ℕ) → (get_or s 0 0 == b'[') ≡ false → (get_or (take i s) 0 0 == b'[') ≡ false
take_first s zero h = refl
take_first [] (suc i) h = refl
take_first (c ∷ cs) (suc i) h = h

split_plain-some :
    (s : Bytes) (e : Endpoint)
    → (get_or s 0 0 == b'[') ≡ false
    → 2 ≤ length s
    → split_plain s ≡ some e
    → (s ≡ join_hostname_port e) × IsSplit e
unfolding split_plain
split_plain-some s e o l h = elim (Option-cases (index_byte s b':')) [
  | inl missing ↦ absurd (ground (arith, missing))
  | inr (i, found) ↦
      let behind : drop (i + 1) s ≡ drop (suc i) s = simp towards_suc in
      let parts : e ≡ record { host = take i s; port = drop (suc i) s; bracketed = false } =
        ground (arith, found, behind) in
      let cut = index_byte-some s b':' i found in
      let single : index_byte (drop (suc i) s) b':' ≡ none = ground (arith, found, behind) in
      subst (λ x. (s ≡ join_hostname_port x) × IsSplit x) (sym parts)
        (
          cut.0,
          (
            cut.1,
            (index_byte-none_iff (drop (suc i) s) b':').0 single,
            take_first s i o,
            omega (arith, ap length cut.0, length-append (take i s) (b':' ∷ drop (suc i) s)),
          ),
        )
]

-- A split succeeds exactly on the texts of endpoints, and then gives the parts back.
pub split_hostname_port_iff :
    (s : Bytes) (e : Endpoint)
    → (split_hostname_port s ≡ some e) ↔ ((s ≡ join_hostname_port e) × IsSplit e)
unfolding split_hostname_port
split_hostname_port_iff s e = (
  λ h. elim (Bool-cases (ltb (length s) 2)) [
    | inl short ↦ absurd (ground arith)
    | inr long ↦ elim (Bool-cases (get_or s 0 0 == b'[')) [
      | inl o ↦ split_bracketed-some s e o (ground arith)
      | inr o ↦ split_plain-some s e o (ground arith) (ground arith)
    ]
  ],
  λ h. ap split_hostname_port h.0 ∙ split-join e h.1,
)

-- ===== src/Proxy/Host/Valid.antt =====
-- proxy.go: IsValidHost on host names, against a description of the names and their lengths.
use mathlib.Core.Path.{subst}
use proxykit_go.Base.{
  ℕ, ◌+◌, ◌-◌, ◌≤◌, Bool, true, false, ◌||◌, ◌≡◌, refl, arith, ==_iff, length-concat,
  get_or-concat_last, take-concat_last, concat-cases, [], ◌∷◌, ◌++◌, ltb, ◌==◌, if◌then◌else◌,
  length, all, Bool-cases, inl, inr, ◌∙◌, sym, ap, get_or, none, take, ◌↔◌,
}
use proxykit_go.Base.Bytes.{Bytes, index_byte}
use proxykit_go.Base.Split.{split_on, split_onto, split_onto-cons}
use proxykit_go.Proxy.Host.Defs.{is_valid_host, check_name, is_valid_host_label}
use proxykit_go.Proxy.Host.Names.{is_label, is_numeric, last_piece, is_name, check_name_lem}

-- A host name is a name of up to 253 bytes; behind one that is no IPv4 address a root dot may stand.
pub record IsHostName (host : Bytes) : Type 0 where
  pub name : Bytes
  pub rooted : Bool
  pub spelled : host ≡ (if rooted then name ++ b'.' ∷ [] else name)
  pub named : is_name name ≡ true
  pub short : length name ≤ 253
  pub not_numeric : rooted ≡ true → is_numeric (last_piece (split_on b'.' name)) ≡ false

-- Behind a dot stands an empty piece, which is no label.
split_trailing_dot :
    (t w : Bytes)
    → (last_piece (split_onto b'.' w (t ++ b'.' ∷ [])) ≡ [])
      × (all is_label (split_onto b'.' w (t ++ b'.' ∷ [])) ≡ false)
unfolding split_onto is_valid_host_label
split_trailing_dot [] w = (refl, ground arith)
split_trailing_dot (c ∷ t) w =
    let (l, ls, e) = split_onto-cons b'.' (t ++ b'.' ∷ []) [] in
    let ih = split_trailing_dot t [] in
    let ih2 = split_trailing_dot t (w ++ c ∷ []) in
    (ground (arith, e, ih, ih2), ground (arith, e, ih, ih2))

name_trailing_dot : (t : Bytes) → is_name (t ++ b'.' ∷ []) ≡ false
name_trailing_dot t = ground (arith, split_trailing_dot t [])

name_nonempty : (s : Bytes) → is_name s ≡ true → (length s == 0) ≡ false
unfolding split_onto is_valid_host_label
name_nonempty [] h = cc
name_nonempty (c ∷ s) h = ground arith

-- What the code computes on a text that ends with the byte `b`.
is_valid_host-concat :
    (t : Bytes) (b : ℕ)
    → index_byte (t ++ b ∷ []) b':' ≡ none
    → is_valid_host (t ++ b ∷ []) ≡ (
        if b == b'.'
        then (if length t == 0 || ltb 253 (length t) then false else check_name true t)
        else if ltb 253 (length t + 1)
        then false
        else check_name false (t ++ b ∷ []))
unfolding is_valid_host
is_valid_host-concat t b plain =
    rw (plain, get_or-concat_last t b 0, take-concat_last t b, length-concat t b) (ground arith)

concat_inj : (s t : Bytes) (a b : ℕ) → s ++ a ∷ [] ≡ t ++ b ∷ [] → (s ≡ t) × (a ≡ b)
concat_inj s t a b e = (
  sym (take-concat_last s a) ∙ ap (λ u. take (length u - 1) u) e ∙ take-concat_last t b,
  sym (get_or-concat_last s a 0) ∙ ap (λ u. get_or u (length u - 1) 0) e ∙ get_or-concat_last t b 0,
)

module _ (t : Bytes) (b : ℕ) (plain : index_byte (t ++ b ∷ []) b':' ≡ none) where
  accepted-IsHostName : is_valid_host (t ++ b ∷ []) ≡ true → IsHostName (t ++ b ∷ [])
  accepted-IsHostName h = elim (Bool-cases (b == b'.')) [
    | inl dot ↦
        let e = is_valid_host-concat t b plain in
        let c = check_name_lem true t in
        record {
          name = t;
          rooted = true;
          spelled = ap (λ (x : ℕ). t ++ x ∷ []) ((==_iff b b'.').0 dot);
          named = ground (arith, dot, e, c, h);
          short = ground (arith, dot, e, h);
          not_numeric = λ _. ground (arith, dot, e, c, h);
        }
    | inr other ↦
        let e = is_valid_host-concat t b plain in
        let c = check_name_lem false (t ++ b ∷ []) in
        record {
          name = t ++ b ∷ [];
          rooted = false;
          spelled = refl;
          named = ground (arith, other, e, c, h);
          short = ground (arith, other, e, h, length-concat t b);
          not_numeric = λ r. cc r;
        }
  ]

  rooted-accepted :
      (name : Bytes)
      → t ++ b ∷ [] ≡ name ++ b'.' ∷ []
      → is_name name ≡ true
      → length name ≤ 253
      → is_numeric (last_piece (split_on b'.' name)) ≡ false
      → is_valid_host (t ++ b ∷ []) ≡ true
  rooted-accepted name e named short numeric =
      let (same, dot) = concat_inj t name b b'.' e in
      let nonempty : (length name == 0) ≡ false = name_nonempty name named in
      rw (is_valid_host-concat t b plain, same, dot)
        (ground (arith, check_name_lem true name, nonempty, named, numeric, short))

  plain-accepted :
      is_name (t ++ b ∷ []) ≡ true → length (t ++ b ∷ []) ≤ 253 → is_valid_host (t ++ b ∷ []) ≡ true
  plain-accepted named short = elim (Bool-cases (b == b'.')) [
    | inl dot ↦
        let same : is_name (t ++ b ∷ []) ≡ is_name (t ++ b'.' ∷ []) =
          ap (λ (x : ℕ). is_name (t ++ x ∷ [])) ((==_iff b b'.').0 dot) in
        absurd (ground (arith, same, name_trailing_dot t, named))
    | inr other ↦ ground (
      arith,
      is_valid_host-concat t b plain,
      check_name_lem false (t ++ b ∷ []),
      named,
      short,
      length-concat t b,
      other,
    )
  ]

  is_valid_host-concat_iff : (is_valid_host (t ++ b ∷ []) ≡ true) ↔ IsHostName (t ++ b ∷ [])
  is_valid_host-concat_iff = (
    accepted-IsHostName,
    λ n. elim (Bool-cases n.rooted) [
      | inl r ↦ rooted-accepted n.name (n.spelled ∙ rw r) n.named n.short (n.not_numeric r)
      | inr p ↦
          let same : t ++ b ∷ [] ≡ n.name = n.spelled ∙ rw p in
          plain-accepted (ap is_name same ∙ n.named) (omega (arith, ap length same, n.short))
    ],
  )

-- The empty text is no name.
not-IsHostName-nil : ¬ IsHostName []
not-IsHostName-nil n = elim (Bool-cases n.rooted) [
  | inl r ↦
      let spelled : [] ≡ n.name ++ b'.' ∷ [] = n.spelled ∙ rw r in
      omega (arith, ap length spelled, length-concat n.name b'.')
  | inr p ↦
      let spelled : [] ≡ n.name = n.spelled ∙ rw p in
      ground (arith, name_nonempty n.name n.named, spelled)
]

empty_refused : ¬ (is_valid_host [] ≡ true)
unfolding is_valid_host
empty_refused h = cc

-- A text with no colon is accepted exactly when it is a host name: labels between dots, or a dotted
-- quad where the last piece is all digits, up to 253 bytes, with a root dot allowed behind labels.
pub is_valid_host_iff :
    (host : Bytes) → index_byte host b':' ≡ none → (is_valid_host host ≡ true) ↔ IsHostName host
is_valid_host_iff host plain = elim (concat-cases host) [
  | inl e ↦
      subst (λ h. (is_valid_host h ≡ true) ↔ IsHostName h) (sym e)
        ((λ h. absurd (empty_refused h)), (λ n. absurd (not-IsHostName-nil n)))
  | inr (t, b, e) ↦
      subst (λ h. (is_valid_host h ≡ true) ↔ IsHostName h) (sym e)
        (is_valid_host-concat_iff t b (ap (λ h. index_byte h b':') (sym e) ∙ plain))
]

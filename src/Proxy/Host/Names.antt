-- ===== src/Proxy/Host/Names.antt =====
-- proxy.go: the label loop of IsValidHost against a description by the labels.
use mathlib.Core.Path.{ap₂}
use proxykit_go.Base.{
  ℕ, zero, suc, ◌+◌, ◌-◌, ◌*◌, ◌≤◌, ◌<◌, Bool, true, false, not, ◌&&◌, ◌||◌, ◌==◌, ◌≡◌, refl, arith,
  List, [], ◌∷◌, ◌++◌, ltb, if◌then◌else◌, length, all, Bool-cases, inl, inr, ◌⊎◌, ◌∙◌, ap,
  Option-cases, get_or, Option, none, some,
}
use proxykit_go.Base.Bytes.{Bytes, within, is_digit}
use proxykit_go.Base.Split.{split_on, split_onto, split_onto-cons}
use proxykit_go.Proxy.Host.Defs.{
  is_ldh, digits_only, is_digit_label, is_valid_host_label, scan_labels, check_name,
}
use proxykit_go.Proxy.Host.Octets.{
  is_octet, is_quad, is_ipv4_literal_lem, all-concat, decimal_onto-ge,
}

-- What the code accepts as a label.
abbrev accepts_label : Bytes → Bool
accepts_label l = all is_ldh l && is_valid_host_label l

abbrev is_alphanumeric : ℕ → Bool
is_alphanumeric c = within 97 122 c || within 65 90 c || within 48 57 c

-- Letters, digits and hyphens, of which the last is no hyphen.
abbrev ends_label : Bytes → Bool
ends_label [] = false
ends_label (c ∷ []) = is_alphanumeric c
ends_label (c ∷ d ∷ cs) = (is_alphanumeric c || c == 45) && ends_label (d ∷ cs)

-- A label of RFC 1123: 1 to 63 letters, digits and hyphens, with no hyphen at either end.
abbrev pub is_label : Bytes → Bool
is_label [] = false
is_label (c ∷ cs) = is_alphanumeric c && ends_label (c ∷ cs) && ltb (length cs) 63

ends_label_lem :
    (c : ℕ) (cs : Bytes)
    → ends_label (c ∷ cs) ≡ (all is_ldh (c ∷ cs) && not (get_or (c ∷ cs) (length cs) 0 == b'-'))
ends_label_lem c [] = ground arith
ends_label_lem c (d ∷ cs) = ground (arith, ends_label_lem d cs)

-- The tests of the code are those of a label.
accepts_label_lem : (l : Bytes) → accepts_label l ≡ is_label l
unfolding is_valid_host_label
accepts_label_lem [] = refl
accepts_label_lem (c ∷ cs) =
    let last : length (c ∷ cs) - 1 ≡ length cs = omega arith in
    rw last (ground (arith, ends_label_lem c cs))

abbrev pub is_numeric : Bytes → Bool
is_numeric l = ltb 0 (length l) && all is_digit l

abbrev pub last_piece : List Bytes → Bytes
last_piece [] = []
last_piece (l ∷ []) = l
last_piece (l ∷ m ∷ ls) = last_piece (m ∷ ls)

-- A name: a dotted quad where the last piece is all digits, and labels between dots elsewhere.
abbrev pub is_name : Bytes → Bool
is_name s =
    if is_numeric (last_piece (split_on b'.' s)) then is_quad s else all is_label (split_on b'.' s)

all-accepts_label : (ls : List Bytes) → all accepts_label ls ≡ all is_label ls
all-accepts_label [] = refl
all-accepts_label (l ∷ ls) = ap₂ ◌&&◌ (accepts_label_lem l) (all-accepts_label ls)

-- The last piece, if all before it are labels and it holds no other byte.
accept : List Bytes → Option Bytes
accept [] = none
accept (l ∷ []) = if all is_ldh l then some l else none
accept (l ∷ m ∷ ls) = if accepts_label l then accept (m ∷ ls) else none

accept-cons-split :
    (l cs : Bytes)
    → accept (l ∷ split_onto b'.' [] cs)
      ≡ (if accepts_label l then accept (split_onto b'.' [] cs) else none)
unfolding accept
accept-cons-split l cs = let (m, ls, e) = split_onto-cons b'.' cs [] in rw e

refused_label : (cs w : Bytes) → all is_ldh w ≡ false → accept (split_onto b'.' w cs) ≡ none
unfolding accept split_onto
refused_label [] w h = ground arith
refused_label (c ∷ cs) w h =
    ground (arith, accept-cons-split w cs, refused_label cs (w ++ c ∷ []), all-concat is_ldh w c)

scan_labels_lem :
    (cs w : Bytes) → all is_ldh w ≡ true → scan_labels w cs ≡ accept (split_onto b'.' w cs)
unfolding scan_labels split_onto
scan_labels_lem [] w h = unfold accept in rw h
scan_labels_lem (c ∷ cs) w h = ground (
  arith,
  scan_labels_lem cs [] refl,
  scan_labels_lem cs (w ++ c ∷ []),
  refused_label cs (w ++ c ∷ []),
  accept-cons-split w cs,
  all-concat is_ldh w c,
)

digits_only_lem : (s : Bytes) → digits_only s ≡ all is_digit s
unfolding digits_only
digits_only_lem [] = refl
digits_only_lem (c ∷ cs) = ground (arith, digits_only_lem cs)

pub is_digit_label_lem : (s : Bytes) → is_digit_label s ≡ is_numeric s
unfolding is_digit_label
is_digit_label_lem s = ground (arith, digits_only_lem s)

-- What the caller does with the last piece.
finish : Bool → Bytes → Option Bytes → Bool
finish root s none = false
finish root s (some l) = if is_numeric l then not root && is_quad s else is_valid_host_label l

accept-last :
    (root : Bool) (s l : Bytes) (ls : List Bytes)
    → is_numeric (last_piece (l ∷ ls)) ≡ false
    → finish root s (accept (l ∷ ls)) ≡ all accepts_label (l ∷ ls)
unfolding accept finish
accept-last root s l [] h = ground arith
accept-last root s l (m ∷ ls) h = ground (arith, accept-last root s m ls h)

all-get_or :
    (p : ℕ → Bool) (s : Bytes) (i : ℕ) → all p s ≡ true → i < length s → p (get_or s i 0) ≡ true
all-get_or p [] i h l = absurd (omega arith)
all-get_or p (c ∷ cs) zero h l = ground arith
all-get_or p (c ∷ cs) (suc i) h l = ground (arith, all-get_or p cs i)

-- A byte that is a digit is no hyphen, and may stand in a label.
digits-ldh : (s : Bytes) → all is_digit s ≡ true → all is_ldh s ≡ true
digits-ldh [] h = refl
digits-ldh (c ∷ cs) h = ground (arith, digits-ldh cs)

octet-length : (s : Bytes) → is_octet s ≡ true → length s ≤ 3
octet-length [] h = omega arith
octet-length (a ∷ []) h = omega arith
octet-length (a ∷ b ∷ []) h = omega arith
octet-length (a ∷ b ∷ c ∷ []) h = omega arith
octet-length (a ∷ b ∷ c ∷ d ∷ s) h = absurd (
    ground (
      arith,
      decimal_onto-ge s
          ((((0 * 10 + (a - b'0')) * 10 + (b - b'0')) * 10 + (c - b'0')) * 10 + (d - b'0')),
    ))

octet-label : (s : Bytes) → is_octet s ≡ true → accepts_label s ≡ true
unfolding is_valid_host_label
octet-label s h =
    let d : all is_digit s ≡ true = ground arith in
    let n : 0 < length s = ground arith in
    ground (
      arith,
      octet-length s h,
      digits-ldh s d,
      all-get_or is_digit s 0 d n,
      all-get_or is_digit s (length s - 1) d (omega arith),
    )

accept_octets :
    (l : Bytes) (ls : List Bytes)
    → all is_octet (l ∷ ls) ≡ true
    → accept (l ∷ ls) ≡ some (last_piece (l ∷ ls))
unfolding accept
accept_octets l [] h = ground (arith, octet-label l)
accept_octets l (m ∷ ls) h = ground (arith, octet-label l, accept_octets m ls)

accept_cases :
    (l : Bytes) (ls : List Bytes)
    → (accept (l ∷ ls) ≡ none) ⊎ (accept (l ∷ ls) ≡ some (last_piece (l ∷ ls)))
unfolding accept
accept_cases l [] = ground arith
accept_cases l (m ∷ ls) = ground (arith, accept_cases m ls)

finish-check_name :
    (root : Bool) (s : Bytes) → check_name root s ≡ finish root s (accept (split_on b'.' s))
unfolding check_name finish
finish-check_name root s = elim (Option-cases (scan_labels [] s)) [
  | inl e ↦ ground (arith, e, scan_labels_lem s [] refl)
  | inr (l, e) ↦
      ground (arith, e, scan_labels_lem s [] refl, is_digit_label_lem l, is_ipv4_literal_lem s)
]

-- The pieces of a text, when they are known.
finish_pieces :
    (root : Bool) (s l : Bytes) (ls : List Bytes)
    → split_on b'.' s ≡ l ∷ ls
    → finish root s (accept (l ∷ ls))
      ≡ (is_name s && not (root && is_numeric (last_piece (split_on b'.' s))))
unfolding finish
finish_pieces root s l ls e = elim (Bool-cases (is_numeric (last_piece (l ∷ ls)))) [
  | inl n ↦ elim (accept_cases l ls) [
    | inl none_ ↦ ground (arith, n, none_, accept_octets l ls, e)
    | inr some_ ↦ ground (arith, n, some_, e)
  ]
  | inr n ↦
      let labels = accept-last root s l ls n ∙ all-accepts_label (l ∷ ls) in
      ground (arith, e, n, labels)
]

-- The test from the loop on, as a statement about the pieces between dots.
pub check_name_lem :
    (root : Bool) (s : Bytes)
    → check_name root s ≡ (is_name s && not (root && is_numeric (last_piece (split_on b'.' s))))
check_name_lem root s =
    let (l, ls, e) = split_onto-cons b'.' s [] in
    finish-check_name root s ∙ ap (λ p. finish root s (accept p)) e ∙ finish_pieces root s l ls e

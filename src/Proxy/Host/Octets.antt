-- ===== src/Proxy/Host/Octets.antt =====
-- proxy.go: isIPv4Literal against a description by its four pieces.
use proxykit_go.Base.{
  ℕ, ◌+◌, ◌-◌, ◌*◌, ◌≤◌, Bool, true, false, not, ◌&&◌, ◌||◌, ◌≡◌, refl, arith, [], ◌∷◌, ◌++◌, ltb,
  leb, ◌==◌, if◌then◌else◌, length, length-concat, all, Bool-cases, inl, inr, ◌∙◌,
}
use mathlib.Core.Path.{subst₂}
use proxykit_go.Base.Bytes.{Bytes, is_digit}
use proxykit_go.Base.Split.{split_on, split_onto}
use proxykit_go.Proxy.Port.{decimal, decimal_onto}
use proxykit_go.Proxy.Host.Defs.{ipv4_loop, is_ipv4_literal}

abbrev pub leading_zero : Bytes → Bool
leading_zero [] = false
leading_zero (c ∷ []) = false
leading_zero (c ∷ d ∷ cs) = c == b'0'

-- The bytes of an octet read so far.
abbrev pub is_partial_octet : Bytes → Bool
is_partial_octet w = all is_digit w && not (leading_zero w) && leb (decimal w) 255

-- An octet: decimal digits without a leading zero, of value up to 255.
abbrev pub is_octet : Bytes → Bool
is_octet w = is_partial_octet w && ltb 0 (length w)

-- A dotted quad.
abbrev pub is_quad : Bytes → Bool
is_quad s = length (split_on b'.' s) == 4 && all is_octet (split_on b'.' s)

pub all-concat : (p : ℕ → Bool) (w : Bytes) (c : ℕ) → all p (w ++ c ∷ []) ≡ all p w && p c
all-concat p [] c = ground arith
all-concat p (x ∷ w) c = ground (arith, all-concat p w c)

decimal_onto-concat :
    (w : Bytes) (v c : ℕ) → decimal_onto v (w ++ c ∷ []) ≡ decimal_onto v w * 10 + (c - b'0')
decimal_onto-concat [] v c = refl
decimal_onto-concat (x ∷ w) v c = decimal_onto-concat w (v * 10 + (x - b'0')) c

pub decimal_onto-ge : (cs : Bytes) (v : ℕ) → v ≤ decimal_onto v cs
decimal_onto-ge [] v = omega arith
decimal_onto-ge (c ∷ cs) v = omega (arith, decimal_onto-ge cs (v * 10 + (c - b'0')))

-- The test that the loop makes before it reads the next digit.
leading_zero-concat :
    (w : Bytes) (c : ℕ)
    → all is_digit w ≡ true
    → leading_zero (w ++ c ∷ []) ≡ (leading_zero w || length w == 1 && decimal w == 0)
leading_zero-concat [] c h = refl
leading_zero-concat (x ∷ []) c h = ground arith
leading_zero-concat (x ∷ y ∷ w) c h = ground arith

-- Three digits that do not begin with a zero leave no room for a fourth.
three_digits :
    (w : Bytes) → all is_digit w ≡ true → leading_zero w ≡ false → 3 ≤ length w → 100 ≤ decimal w
three_digits [] h z l = absurd (omega arith)
three_digits (x ∷ []) h z l = absurd (omega arith)
three_digits (x ∷ y ∷ []) h z l = absurd (omega arith)
three_digits (x ∷ y ∷ t ∷ w) h z l =
    ground (arith, decimal_onto-ge w (((0 * 10 + (x - b'0')) * 10 + (y - b'0')) * 10 + (t - b'0')))

-- An extension of a refused piece is refused.
is_partial_octet-concat :
    (w : Bytes) (c : ℕ) → is_partial_octet w ≡ false → is_partial_octet (w ++ c ∷ []) ≡ false
is_partial_octet-concat w c h = elim (Bool-cases (all is_digit w)) [
  | inl d ↦
      ground (arith, all-concat is_digit w c, decimal_onto-concat w 0 c, leading_zero-concat w c d)
  | inr d ↦ ground (arith, all-concat is_digit w c)
]

refused_piece :
    (cs w : Bytes) → is_partial_octet w ≡ false → all is_octet (split_onto b'.' w cs) ≡ false
unfolding split_onto
refused_piece [] w h = ground arith
refused_piece (c ∷ cs) w h =
    ground (arith, refused_piece cs (w ++ c ∷ []) (is_partial_octet-concat w c h))

-- The tests of the loop on the next byte decide whether the longer piece is accepted.
is_partial_octet-tests :
    (w : Bytes) (c : ℕ)
    → is_partial_octet w ≡ true
    → is_partial_octet (w ++ c ∷ []) ≡ (
        if ltb c b'0' || ltb b'9' c
        then false
        else if length w == 1 && decimal w == 0
        then false
        else if ltb 3 (length w + 1) || ltb 255 (decimal w * 10 + (c - b'0'))
        then false
        else true)
is_partial_octet-tests w c h =
    let d : all is_digit w ≡ true = ground arith in
    let z : leading_zero w ≡ false = ground arith in
    ground (
      arith,
      all-concat is_digit w c,
      decimal_onto-concat w 0 c,
      leading_zero-concat w c d,
      three_digits w d z,
    )

-- The loop, standing behind the piece `w`.
ipv4_loop_lem :
    (cs w : Bytes) (octets : ℕ)
    → is_partial_octet w ≡ true
    → ipv4_loop octets (length w) (decimal w) cs
      ≡ (octets + length (split_onto b'.' w cs) == 4 && all is_octet (split_onto b'.' w cs))
unfolding ipv4_loop split_onto
ipv4_loop_lem [] w octets h = ground arith
ipv4_loop_lem (c ∷ cs) w octets h = elim (Bool-cases (is_partial_octet (w ++ c ∷ []))) [
  | inl q ↦
      let more =
        subst₂
          (λ n v. ipv4_loop octets n v cs ≡ (
            octets + length (split_onto b'.' (w ++ c ∷ []) cs) == 4
            && all is_octet (split_onto b'.' (w ++ c ∷ []) cs)))
          (length-concat w c) (decimal_onto-concat w 0 c)
          (ipv4_loop_lem cs (w ++ c ∷ []) octets q) in
      ground (arith, is_partial_octet-tests w c h, ipv4_loop_lem cs [] (octets + 1) refl, more)
  | inr q ↦ ground (
    arith,
    is_partial_octet-tests w c h,
    ipv4_loop_lem cs [] (octets + 1) refl,
    refused_piece cs (w ++ c ∷ []) q,
  )
]

-- The loop with its counters accepts exactly the dotted quads: four pieces between dots, each of
-- decimal digits, with no leading zero and of value up to 255.
pub is_ipv4_literal_lem : (host : Bytes) → is_ipv4_literal host ≡ is_quad host
unfolding is_ipv4_literal
is_ipv4_literal_lem host = ipv4_loop_lem host [] 0 refl ∙ ground arith

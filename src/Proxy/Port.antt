-- ===== src/Proxy/Port.antt =====
-- proxy.go: isValidPort.
use proxykit_go.Base.{
  ℕ, ◌+◌, ◌-◌, ◌*◌, ◌≤◌, ◌<◌, Bool, true, false, not, ◌&&◌, ◌||◌, Option, none, some, ◌≡◌, refl,
  arith, [], ◌∷◌, ltb, leb, ◌==◌, if◌then◌else◌, length, all, Bool-cases, inl, inr, ◌↔◌, ◌≢◌, sym,
  ◌∙◌,
}
use proxykit_go.Base.Bytes.{Bytes, is_digit}

-- The loop that drops leading zeros while more than one byte is left.
trim_zeros : Bytes → Bytes
trim_zeros [] = []
trim_zeros (c ∷ []) = c ∷ []
trim_zeros (c ∷ d ∷ cs) = if c == b'0' then trim_zeros (d ∷ cs) else c ∷ d ∷ cs

-- The loop that accumulates the value; `none` is the early return at a byte that is no digit.
port_value : ℕ → Bytes → Option ℕ
port_value value [] = some value
port_value value (c ∷ cs) =
    let rest = port_value (value * 10 + (c - b'0')) cs in
    if ltb c b'0' || ltb b'9' c then none else rest

-- `isValidPort` behind its first loop.
in_port_range : Bytes → Bool
in_port_range port =
    if length port == 0 || ltb 5 (length port) then false else elim (port_value 0 port) [
      | none ↦ false
      | some value ↦ not (value == 0) && leb value 65535
    ]

-- `isValidPort`
unfoldable pub is_valid_port : Bytes → Bool
unfolding trim_zeros port_value in_port_range
is_valid_port port = in_port_range (trim_zeros port)

-- The number that a digit string stands for, with no bound.
abbrev pub decimal_onto : ℕ → Bytes → ℕ
decimal_onto value [] = value
decimal_onto value (c ∷ cs) = decimal_onto (value * 10 + (c - b'0')) cs

abbrev pub decimal : Bytes → ℕ
decimal = decimal_onto 0

-- Port syntax as RFC 3986 gives it, with the range of TCP ports.
pub record IsPort (port : Bytes) : Type 0 where
  pub digits : all is_digit port ≡ true
  pub positive : 1 ≤ decimal port
  pub bounded : decimal port ≤ 65535

port_value-decimal :
    (cs : Bytes) (v : ℕ)
    → port_value v cs ≡ (if all is_digit cs then some (decimal_onto v cs) else none)
unfolding port_value
port_value-decimal [] v = refl
port_value-decimal (c ∷ cs) v = ground (arith, port_value-decimal cs (v * 10 + (c - b'0')))

decimal_onto-ge : (cs : Bytes) (v : ℕ) → v ≤ decimal_onto v cs
decimal_onto-ge [] v = omega arith
decimal_onto-ge (c ∷ cs) v = omega (arith, decimal_onto-ge cs (v * 10 + (c - b'0')))

-- Six digits with a leading nonzero one stand for a number of at least 100000.
decimal_onto_long : (cs : Bytes) (v : ℕ) → 1 ≤ v → 5 ≤ length cs → 100000 ≤ decimal_onto v cs
decimal_onto_long (a ∷ b ∷ c ∷ d ∷ e ∷ cs) v h l = omega (
  arith,
  decimal_onto-ge cs (
      ((((v * 10 + (a - b'0')) * 10 + (b - b'0')) * 10 + (c - b'0')) * 10 + (d - b'0')) * 10
      + (e - b'0')),
)
decimal_onto_long (a ∷ b ∷ c ∷ d ∷ []) v h l = absurd (omega arith)
decimal_onto_long (a ∷ b ∷ c ∷ []) v h l = absurd (omega arith)
decimal_onto_long (a ∷ b ∷ []) v h l = absurd (omega arith)
decimal_onto_long (a ∷ []) v h l = absurd (omega arith)
decimal_onto_long [] v h l = absurd (omega arith)

trim_zeros-decimal :
    (s : Bytes)
    → (decimal (trim_zeros s) ≡ decimal s) × (all is_digit (trim_zeros s) ≡ all is_digit s)
unfolding trim_zeros
trim_zeros-decimal [] = (refl, refl)
trim_zeros-decimal (c ∷ []) = (refl, refl)
trim_zeros-decimal (c ∷ d ∷ cs) =
    let ih = trim_zeros-decimal (d ∷ cs) in (ground (arith, ih), ground (arith, ih))

-- More than one byte is left only behind a nonzero first one.
trim_zeros-leading : (s : Bytes) (c d : ℕ) (cs : Bytes) → trim_zeros s ≡ c ∷ d ∷ cs → c ≢ b'0'
unfolding trim_zeros
trim_zeros-leading [] c d cs h = λ e. cc
trim_zeros-leading (x ∷ []) c d cs h = λ e. cc
trim_zeros-leading (x ∷ y ∷ ys) c d cs h = ground (arith, trim_zeros-leading (y ∷ ys) c d cs)

-- A trimmed port of more than five digits is out of range.
long_port :
    (c d : ℕ) (cs : Bytes)
    → all is_digit (c ∷ d ∷ cs) ≡ true
    → c ≢ b'0'
    → 4 ≤ length cs
    → 65535 < decimal (c ∷ d ∷ cs)
long_port c d cs g n l =
    let nonzero : 1 ≤ 0 * 10 + (c - b'0') = ground arith in
    omega (arith, decimal_onto_long (d ∷ cs) (0 * 10 + (c - b'0')) nonzero (omega arith))

in_port_range_iff :
    (t : Bytes)
    → ((c d : ℕ) (cs : Bytes) → t ≡ c ∷ d ∷ cs → c ≢ b'0')
    → (in_port_range t ≡ true) ↔ IsPort t
unfolding in_port_range
in_port_range_iff [] leading = ((λ h. cc), (λ p. absurd (omega arith)))
in_port_range_iff (c ∷ []) leading = (
  λ h. record {
    digits = ground (arith, port_value-decimal (c ∷ []) 0);
    positive = ground (arith, port_value-decimal (c ∷ []) 0);
    bounded = ground (arith, port_value-decimal (c ∷ []) 0);
  },
  λ p. ground (arith, port_value-decimal (c ∷ []) 0),
)
in_port_range_iff (c ∷ d ∷ cs) leading = (
  λ h. record {
    digits = ground (arith, port_value-decimal (c ∷ d ∷ cs) 0);
    positive = ground (arith, port_value-decimal (c ∷ d ∷ cs) 0);
    bounded = ground (arith, port_value-decimal (c ∷ d ∷ cs) 0);
  },
  λ p. elim (Bool-cases (ltb 3 (length cs))) [
    | inl l ↦
        absurd
          (omega (arith, long_port c d cs p.digits (leading c d cs refl) (ground arith), p.bounded))
    | inr l ↦ ground (arith, port_value-decimal (c ∷ d ∷ cs) 0)
  ],
)

-- `isValidPort` accepts exactly the digit strings, of any length, whose value lies in 1 to 65535.
pub is_valid_port_iff : (port : Bytes) → (is_valid_port port ≡ true) ↔ IsPort port
unfolding is_valid_port
is_valid_port_iff port =
    let same = trim_zeros-decimal port in
    let core = in_port_range_iff (trim_zeros port) (trim_zeros-leading port) in
    (
      (λ h.
          let q = core.0 h in
          record {
            digits = sym same.1 ∙ q.digits;
            positive = omega (arith, same.0, q.positive);
            bounded = omega (arith, same.0, q.bounded);
          }),
      (λ p. core.1 (record {
        digits = same.1 ∙ p.digits;
        positive = omega (arith, same.0, p.positive);
        bounded = omega (arith, same.0, p.bounded);
      })),
    )

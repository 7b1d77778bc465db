-- ===== src/Pool/Modular/Laws.antt =====
-- The words that addModulo and multiplyModulo compute are the sum and the product modulo the
-- modulus, with no overflow on the way; greatestCommonDivisor is a greatest common divisor.
use native.Mathlib.Nat
use Prim.Native.Nat.{◌∣◌}
use mathlib.Core.Path.{subst, ap₂}
use proxykit_go.Base.{
  ℕ, zero, suc, ◌+◌, ◌-◌, ◌*◌, ◌/◌, ◌%◌, ◌^◌, ◌≤◌, ◌<◌, ltb, leb, ◌==◌, not, if◌then◌else◌, ◌≡◌,
  arith, sym, ap, ◌∙◌, Bool-cases, inl, inr,
}
use proxykit_go.Base.Word.{u64}
use proxykit_go.Pool.Modular.{
  add_modulo, multiply_loop, multiply_modulo, gcd_loop, greatest_common_divisor,
}

-- The sum of two residues needs one subtraction at most.
pub residue_sum :
    (a b m : ℕ) → a < m → b < m → (a + b) % m ≡ (if ltb (a + b) m then a + b else a + b - m)
residue_sum a b m ha hb = elim (Bool-cases (ltb (a + b) m)) [
  | inl low ↦ rw low (Nat.mod-eq_of_lt (ground arith))
  | inr high ↦
      let over : m ≤ a + b = ground arith in
      rw high (Nat.mod-eq-sub-mod over ∙ Nat.mod-eq_of_lt (omega arith))
]

-- On residues `addModulo` adds modulo the modulus, whatever word that is.
pub add_modulo_lem :
    (left right modulus : ℕ)
    → left < modulus
    → right < modulus
    → modulus < u64
    → add_modulo left right modulus ≡ (left + right) % modulus
unfolding add_modulo
add_modulo_lem left right modulus hl hr hm = ground (arith, residue_sum left right modulus hl hr)

pub mul-mod_left : (a q m : ℕ) → a % m * q % m ≡ a * q % m
mul-mod_left a q m = sym (
    ap (λ (t : ℕ). t * q % m) (sym (Nat.mod-add-div a m))
    ∙ ap (λ (t : ℕ). t % m) (spread ∙ ap (λ (t : ℕ). a % m * q + t) (Nat.mul_assoc m (a / m) q))
    ∙ Nat.add-mul-mod_self_left (a % m * q) m (a / m * q))
  where
    spread : (a % m + m * (a / m)) * q ≡ a % m * q + m * (a / m) * q
    spread = Nat.add-mul (a % m) (m * (a / m)) q

add-mod_congr : (p q x y m : ℕ) → p % m ≡ x % m → q % m ≡ y % m → (p + q) % m ≡ (x + y) % m
add-mod_congr p q x y m e f =
    Nat.add-mod p q m ∙ ap₂ (λ (s t : ℕ). (s + t) % m) e f ∙ sym (Nat.add-mod x y m)

-- A number by its lowest bit.
by_bits :
    (product left q b right : ℕ)
    → right ≡ q + q + b
    → product + left * b + (left + left) * q ≡ product + left * right
by_bits product left q b right e = rw e (omega arith)

module _ (product left right m : ℕ) (hp : product < m) (hl : left < m) (hm : m < u64) where
  round_product :
      ((if right % 2 == 1 then add_modulo product left m else product) < m)
      × ((if right % 2 == 1 then add_modulo product left m else product) % m
          ≡ (product + left * (right % 2)) % m)
  round_product = elim (Bool-cases (right % 2 == 1)) [
    | inl odd ↦
        let e : right % 2 ≡ 1 = ground arith in
        rw odd (
          rw (add_modulo_lem product left m hp hl hm) (Nat.mod-lt (product + left) (omega arith)),
          rw (add_modulo_lem product left m hp hl hm, e, Nat.mod-mod, Nat.mul-one),
        )
    | inr even ↦
        let e : right % 2 ≡ 0 = ground arith in rw even (hp, rw (e, Nat.mul-zero, Nat.add-zero))
  ]

  round_left :
      ((if not (right / 2 == 0) then add_modulo left left m else left) < m)
      × ((if not (right / 2 == 0) then add_modulo left left m else left) * (right / 2) % m
          ≡ (left + left) * (right / 2) % m)
  round_left = elim (Bool-cases (right / 2 == 0)) [
    | inl last ↦
        let e : right / 2 ≡ 0 = ground arith in rw last (hl, rw (e, Nat.mul-zero, Nat.mul-zero))
    | inr more ↦ rw more (
      rw (add_modulo_lem left left m hl hl hm) (Nat.mod-lt (left + left) (omega arith)),
      rw (add_modulo_lem left left m hl hl hm) (mul-mod_left (left + left) (right / 2) m),
    )
  ]

multiply_loop_lem :
    (fuel product left right m : ℕ)
    → product < m
    → left < m
    → right < 2 ^ fuel
    → m < u64
    → multiply_loop fuel product left right m ≡ (product + left * right) % m
unfolding multiply_loop
multiply_loop_lem zero product left right m hp hl hr hm =
    let none_left : right ≡ 0 = omega arith in
    rw (none_left, Nat.mul-zero, Nat.add-zero) (sym (Nat.mod-eq_of_lt hp))
multiply_loop_lem (suc fuel) product left right m hp hl hr hm = elim (Bool-cases (right == 0)) [
  | inl z ↦
      let none_left : right ≡ 0 = ground arith in
      rw (none_left, Nat.mul-zero, Nat.add-zero) (sym (Nat.mod-eq_of_lt hp))
  | inr nz ↦
      let (p_lt, p_eq) = round_product product left right m hp hl hm in
      let (l_lt, l_eq) = round_left product left right m hp hl hm in
      let half : right / 2 < 2 ^ fuel = omega (arith, Nat.pow-suc 2 fuel) in
      rw nz (
        multiply_loop_lem fuel _ _ (right / 2) m p_lt l_lt half hm
        ∙ add-mod_congr _ _ _ _ m p_eq l_eq
        ∙ ap (λ (t : ℕ). t % m) (by_bits product left (right / 2) (right % 2) right (omega arith)))
]

-- On words `multiplyModulo` multiplies modulo the modulus: 64 rounds are enough, and no sum on the
-- way leaves the range of a word.
pub multiply_modulo_lem :
    (left right modulus : ℕ)
    → right < u64
    → 0 < modulus
    → modulus < u64
    → multiply_modulo left right modulus ≡ left * right % modulus
unfolding multiply_modulo
multiply_modulo_lem left right modulus hr hm0 hm = elim (Bool-cases (leb modulus 1)) [
  | inl one ↦ let e : modulus ≡ 1 = ground arith in rw one (rw e (sym (Nat.mod-one (left * right))))
  | inr more ↦ rw more (
      multiply_loop_lem 64 0 (left % modulus) right modulus hm0 (Nat.mod-lt left hm0) hr hm
      ∙ ap (λ (t : ℕ). t % modulus) (Nat.zero-add (left % modulus * right))
      ∙ mul-mod_left left right modulus)
]

-- The loop ends within its fuel, and its result divides both numbers.
gcd_loop-dvd : (fuel a b : ℕ) → b < fuel → (gcd_loop fuel a b ∣ a) × (gcd_loop fuel a b ∣ b)
unfolding gcd_loop
gcd_loop-dvd zero a b h = absurd (omega arith)
gcd_loop-dvd (suc fuel) a b h = elim (Bool-cases (b == 0)) [
  | inl z ↦ let e : b ≡ 0 = ground arith in rw z (Nat.dvd_refl a, rw e (Nat.dvd-zero a))
  | inr nz ↦
      let below : a % b < fuel = lt_of_mod a b fuel (ground arith) h in
      let (to_b, to_mod) = gcd_loop-dvd fuel b (a % b) below in
      rw nz ((Nat.dvd-mod_iff _ to_b).0 to_mod, to_b)
]
  where
    lt_of_mod : (a b f : ℕ) → 0 < b → b < suc f → a % b < f
    lt_of_mod a b f p q = omega (arith, Nat.mod-lt a p)

-- A common divisor of two multiples divides the multiple of the result.
gcd_loop-dvd_mul : (fuel k c a b : ℕ) → b < fuel → k ∣ a * c → k ∣ b * c → k ∣ gcd_loop fuel a b * c
unfolding gcd_loop
gcd_loop-dvd_mul zero k c a b h p q = absurd (omega arith)
gcd_loop-dvd_mul (suc fuel) k c a b h p q = elim (Bool-cases (b == 0)) [
  | inl z ↦ rw z p
  | inr nz ↦
      let pos : 0 < b = ground arith in
      let below : a % b < fuel = omega (arith, Nat.mod-lt a pos) in
      let spread : a * c ≡ b * (a / b) * c + a % b * c =
        ap (λ (t : ℕ). t * c) (sym (Nat.div-add-mod a b)) ∙ Nat.add-mul (b * (a / b)) (a % b) c in
      let multiple : k ∣ b * (a / b) * c =
        rw (Nat.mul_right_comm b (a / b) c) (Nat.dvd-mul_right_of_dvd k q (a / b)) in
      let rest : k ∣ a % b * c = (Nat.dvd-add_iff_right k multiple).1 (subst (◌∣◌ k) spread p) in
      rw nz (gcd_loop-dvd_mul fuel k c b (a % b) below q rest)
]

-- The result divides both numbers.
pub greatest_common_divisor-dvd :
    (a b : ℕ) → (greatest_common_divisor a b ∣ a) × (greatest_common_divisor a b ∣ b)
unfolding greatest_common_divisor
greatest_common_divisor-dvd a b = gcd_loop-dvd (suc b) a b (omega arith)

pub dvd-greatest_common_divisor_mul :
    (k c a b : ℕ) → k ∣ a * c → k ∣ b * c → k ∣ greatest_common_divisor a b * c
unfolding greatest_common_divisor
dvd-greatest_common_divisor_mul k c a b = gcd_loop-dvd_mul (suc b) k c a b (omega arith)

-- ===== src/Pool/Modular.antt =====
-- proxypool.go: addModulo, multiplyModulo and greatestCommonDivisor, on unsigned 64-bit words.
pub mod Laws
use proxykit_go.Base.{
  ℕ, zero, suc, ◌+◌, ◌-◌, ◌*◌, ◌/◌, ◌%◌, ◌^◌, ◌≤◌, ◌<◌, Bool, true, false, ltb, leb, ◌==◌, not,
  if◌then◌else◌, ◌≡◌, arith,
}
use proxykit_go.Base.Word.{u64, add64, sub64}

-- `addModulo`
unfoldable pub add_modulo : ℕ → ℕ → ℕ → ℕ
add_modulo left right modulus =
    if leb modulus 1
    then 0
    else if leb (sub64 modulus right) left
    then sub64 left (sub64 modulus right)
    else add64 left right

-- The loop of `multiplyModulo`, on fuel: a round halves `right`.
unfoldable pub multiply_loop : ℕ → ℕ → ℕ → ℕ → ℕ → ℕ
multiply_loop zero product left right modulus = product
multiply_loop (suc fuel) product left right modulus =
    let product' = (if right % 2 == 1 then add_modulo product left modulus else product) in
    let right' = right / 2 in
    let left' = (if not (right' == 0) then add_modulo left left modulus else left) in
    let rest = multiply_loop fuel product' left' right' modulus in
    if right == 0 then product else rest

-- `multiplyModulo`; 64 rounds serve every word.
unfoldable pub multiply_modulo : ℕ → ℕ → ℕ → ℕ
multiply_modulo left right modulus =
    if leb modulus 1 then 0 else multiply_loop 64 0 (left % modulus) right modulus

-- The loop of `greatestCommonDivisor`, on fuel: `right` falls in each round.
unfoldable pub gcd_loop : ℕ → ℕ → ℕ → ℕ
gcd_loop zero left right = left
gcd_loop (suc fuel) left right =
    let rest = gcd_loop fuel right (left % right) in if right == 0 then left else rest

-- `greatestCommonDivisor`
unfoldable pub greatest_common_divisor : ℕ → ℕ → ℕ
unfolding gcd_loop
greatest_common_divisor left right = gcd_loop (suc right) left right

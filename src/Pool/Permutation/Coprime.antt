-- ===== src/Pool/Permutation/Coprime.antt =====
-- permutationParams returns a step that has no common divisor with the count.
use native.Mathlib.Nat
use proxykit_go.Base.{
  ℕ, zero, suc, ◌+◌, ◌-◌, ◌%◌, ◌≤◌, ◌<◌, leb, ◌==◌, ==_iff, ◌≡◌, refl, arith, Bool-cases, inl, inr,
}
use proxykit_go.Pool.Modular.{greatest_common_divisor}
use proxykit_go.Pool.Modular.Laws.{greatest_common_divisor-dvd}
use proxykit_go.Base.Word.{xor64}
use proxykit_go.Pool.Permutation.{mix64, mix_increment, coprime_step, Params, permutation_params}

-- A step and a first index that are fit for `count` lines.
pub record AreParams (count : ℕ) (p : Params) : Type 0 where
  pub coprime : greatest_common_divisor p.step count ≡ 1
  pub step_le : p.step ≤ count
  pub start_lt : p.start < count

pub gcd-one : (n : ℕ) → greatest_common_divisor 1 n ≡ 1
gcd-one n = Nat.eq-one_of_dvd-one (greatest_common_divisor-dvd 1 n).0

gcd_zero-one : greatest_common_divisor 0 1 ≡ 1
unfolding greatest_common_divisor
gcd_zero-one = refl

-- The search ends within its fuel, at the latest behind the wrap to 1.
coprime_step_lem :
    (fuel step count : ℕ)
    → 1 ≤ step
    → step < count
    → count ≤ fuel + step
    → (greatest_common_divisor (coprime_step fuel step count) count ≡ 1)
      × (1 ≤ coprime_step fuel step count)
      × (coprime_step fuel step count < count)
unfolding coprime_step
coprime_step_lem zero step count h1 hc hf = absurd (omega arith)
coprime_step_lem (suc fuel) step count h1 hc hf =
    elim (Bool-cases (greatest_common_divisor step count == 1)) [
      | inl found ↦ rw found ((==_iff _ 1).0 found, h1, hc)
      | inr on ↦ elim (Bool-cases (step + 1 == count)) [
        | inl wrap ↦ rw (on, wrap) (from_one fuel count (ground arith))
        | inr next ↦
            rw (on, next)
              (coprime_step_lem fuel (step + 1) count (omega arith) (ground arith) (omega arith))
      ]
    ]
  where
    from_one :
        (fuel count : ℕ)
        → 2 ≤ count
        → (greatest_common_divisor (coprime_step fuel 1 count) count ≡ 1)
          × (1 ≤ coprime_step fuel 1 count)
          × (coprime_step fuel 1 count < count)
    from_one zero count h = (gcd-one count, omega arith, h)
    from_one (suc fuel) count h = (
      ground (arith, gcd-one count),
      ground (arith, gcd-one count),
      ground (arith, gcd-one count),
    )

-- The parameters for `count` lines, whatever the seed.
pub permutation_params-AreParams :
    (count seed : ℕ) → 1 ≤ count → AreParams count (permutation_params count seed)
unfolding permutation_params
permutation_params-AreParams count seed h = elim (Bool-cases (leb count 1)) [
  | inl one ↦
      let e : count ≡ 1 = ground arith in
      rw one (record { coprime = rw e gcd_zero-one; step_le = omega arith; start_lt = omega arith })
  | inr more ↦
      let low : 0 < count - 1 = ground arith in
      let found =
        coprime_step_lem count (mix64 seed % (count - 1) + 1) count (omega arith)
          (omega (arith, Nat.mod-lt (mix64 seed) low)) (omega arith) in
      rw more (record {
        coprime = found.0;
        step_le = omega (arith, found.2);
        start_lt = Nat.mod-lt (mix64 (xor64 seed mix_increment)) (omega arith);
      })
]

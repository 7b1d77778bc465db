-- ===== src/Pool/Permutation.antt =====
-- proxypool.go: mix64, permutationParams, and the step from one line to the next, which nextLineLocked
-- and Batch.Next share.
pub mod Coprime
pub mod Visits
use Prim.Native.Nat.{bit_xor}
use proxykit_go.Base.{
  ℕ, zero, suc, ◌+◌, ◌-◌, ◌*◌, ◌/◌, ◌%◌, ◌^◌, ◌≤◌, ◌<◌, Bool, true, false, ltb, leb, ◌==◌,
  if◌then◌else◌, ◌≡◌, refl, arith,
}
use proxykit_go.Base.Word.{u64, mul64, shr64, xor64}
use proxykit_go.Pool.Modular.{greatest_common_divisor}

abbrev pub mix_increment : ℕ
mix_increment = 0x9e3779b97f4a7c15

-- `mix64`
unfoldable pub mix64 : ℕ → ℕ
mix64 value =
    let a = xor64 value (shr64 value 30) in
    let b = mul64 a 0xbf58476d1ce4e5b9 in
    let c = xor64 b (shr64 b 27) in let d = mul64 c 0x94d049bb133111eb in xor64 d (shr64 d 31)

-- The loop of `permutationParams`, on fuel: from `step` on, round past `count`, to a number that has
-- no common divisor with `count`.
unfoldable pub coprime_step : ℕ → ℕ → ℕ → ℕ
coprime_step zero step count = step
coprime_step (suc fuel) step count =
    let rest = coprime_step fuel (if step + 1 == count then 1 else step + 1) count in
    if greatest_common_divisor step count == 1 then step else rest

-- The step and the first index.
pub record Params : Type 0 where
  pub step : ℕ
  pub start : ℕ

-- `permutationParams`; `count` rounds are enough.
unfoldable pub permutation_params : ℕ → ℕ → Params
permutation_params count seed = if leb count 1 then record { step = 0; start = 0 } else record {
  step = coprime_step count (mix64 seed % (count - 1) + 1) count;
  start = mix64 (xor64 seed mix_increment) % count;
}

-- The next index: `index -= lines - step`, and `lines` is added back where that is negative, which
-- is what `lines & (index >> 63)` adds.
unfoldable pub advance : ℕ → ℕ → ℕ → ℕ
advance lines step index =
    if ltb index (lines - step) then index + lines - (lines - step) else index - (lines - step)

-- The index behind `k` advances.
unfoldable pub visit : ℕ → Params → ℕ → ℕ
visit lines p zero = p.start
visit lines p (suc k) = advance lines p.step (visit lines p k)

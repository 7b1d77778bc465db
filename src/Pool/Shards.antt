-- ===== src/Pool/Shards.antt =====
-- proxypool.go: shardItemCount counts the regions of a shard, and ceilingQuotient the blocks of a
-- file.
use native.Mathlib.Nat
use proxykit_go.Base.{
  ℕ, ◌+◌, ◌-◌, ◌*◌, ◌/◌, ◌≤◌, ◌<◌, ltb, ◌≡◌, ◌↔◌, arith, Bool-cases, inl, inr, sym, ap, ◌∙◌,
}
use proxykit_go.Pool.Sizes.{shard_item_count, ceiling_quotient}

-- `k` steps of a shard stay below the number of items exactly for the `k` that shardItemCount
-- counts.
pub shard_item_count_iff :
    (total shards shard k : ℕ)
    → 0 < shards
    → (k < shard_item_count total shards shard) ↔ (shard + k * shards < total)
unfolding shard_item_count
shard_item_count_iff total shards shard k h =
    let quotient = Nat.le-div_iff_mul-le {x = k} {y = total - 1 - shard} h in
    let up = quotient.0 in
    let down = quotient.1 in
    (
      λ (b : k < shard_item_count total shards shard). ground (arith, up, b),
      λ (b : shard + k * shards < total). ground (arith, down, b),
    )

-- The blocks that ceilingQuotient counts are those that begin before the end.
pub ceiling_quotient_iff :
    (value divisor k : ℕ)
    → 0 < divisor
    → (k < ceiling_quotient value divisor) ↔ (k * divisor < value)
unfolding ceiling_quotient
ceiling_quotient_iff value divisor k h =
    let quotient = Nat.le-div_iff_mul-le {x = k} {y = value - 1} h in
    let up = quotient.0 in
    let down = quotient.1 in
    (
      λ (b : k < ceiling_quotient value divisor). ground (arith, up, b),
      λ (b : k * divisor < value). ground (arith, down, b),
    )

-- A number is given by its quotient and its remainder.
pub digits_unique :
    (s i k i' k' : ℕ) → i < s → i' < s → i + k * s ≡ i' + k' * s → (i ≡ i') × (k ≡ k')
digits_unique s i k i' k' h h' e =
    let quotient = λ (i k : ℕ) (h : i < s).
      Nat.div-eq_of_lt-le {k = k} s {m = i + k * s} (omega arith)
        (omega (arith, Nat.add-mul k 1 s, Nat.one-mul s)) in
    let same : k ≡ k' = sym (quotient i k h) ∙ ap (λ m. m / s) e ∙ quotient i' k' h' in
    let scaled : k * s ≡ k' * s = ap (λ m. m * s) same in (omega arith, same)

pub ceiling_quotient-le : (value divisor : ℕ) → 0 < divisor → ceiling_quotient value divisor ≤ value
ceiling_quotient-le value divisor h =
    let over = (ceiling_quotient_iff value divisor value h).0 in
    let grows = Nat.le-mul_of_pos_right {m = divisor} value h in
    elim (Bool-cases (ltb value (ceiling_quotient value divisor))) [
      | inl lt ↦ omega (arith, over (ground arith), grows)
      | inr ge ↦ ground arith
    ]

-- The blocks that are counted hold the whole.
pub ceiling_quotient-covers :
    (value divisor : ℕ) → 0 < divisor → value ≤ ceiling_quotient value divisor * divisor
ceiling_quotient-covers value divisor h =
    let counted = (ceiling_quotient_iff value divisor (ceiling_quotient value divisor) h).1 in
    elim (Bool-cases (ltb (ceiling_quotient value divisor * divisor) value)) [
      | inl over ↦ absurd (omega (arith, counted (ground (arith, over))))
      | inr le ↦ ground (arith, le)
    ]

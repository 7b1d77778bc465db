-- ===== src/Base/Finite.antt =====
-- A function on the numbers below n that repeats no value takes every value.
use proxykit_go.Base.Tests.{◌==◌, if◌then◌else◌, Bool-cases, ==_iff}
use Prim.Native.Nat.{ℕ, zero, suc, ◌<◌}
use mathlib.Core.Path.{◌≡◌}
use mathlib.Core.Logic.{inl, inr}
use native.Mathlib.Omega.{arith}

abbrev pub IsBounded : ℕ → (ℕ → ℕ) → Type 0
IsBounded n f = (k : ℕ) → k < n → f k < n

abbrev pub IsInjective : ℕ → (ℕ → ℕ) → Type 0
IsInjective n f = (j k : ℕ) → j < n → k < n → f j ≡ f k → j ≡ k

-- The values below `m` alone: where `f` takes `m`, the value that it takes at `m`.
patched : (ℕ → ℕ) → ℕ → ℕ → ℕ
patched f m k = if f k == m then f m else f k

module _ (f : ℕ → ℕ) (m : ℕ) (b : IsBounded (suc m) f) (inj : IsInjective (suc m) f) where
  patched-IsBounded : IsBounded m (patched f m)
  unfolding patched
  patched-IsBounded k h =
      ground (arith, b k (omega arith), b m (omega arith), inj k m (omega arith) (omega arith))

  patched-IsInjective : IsInjective m (patched f m)
  unfolding patched
  patched-IsInjective j k hj hk e = ground (
    arith,
    inj j k (omega arith) (omega arith),
    inj j m (omega arith) (omega arith),
    inj k m (omega arith) (omega arith),
  )

pub IsInjective-onto :
    (n : ℕ) (f : ℕ → ℕ)
    → IsBounded n f
    → IsInjective n f
    → (i : ℕ) → i < n
    → (k : ℕ) × (k < n) × (f k ≡ i)
unfolding patched
IsInjective-onto zero f b inj i h = absurd (omega arith)
IsInjective-onto (suc m) f b inj i h = elim (Bool-cases (f m == i)) [
  | inl e ↦ (m, omega arith, (==_iff _ _).0 e)
  | inr e ↦ elim (Bool-cases (i == m)) [
    | inl top ↦
        let (k, l, q) =
          IsInjective-onto m (patched f m) (patched-IsBounded f m b inj)
            (patched-IsInjective f m b inj) (f m) (ground (arith, b m (omega arith))) in
        (k, omega arith, ground (arith, q, inj k m (omega arith) (omega arith)))
    | inr low ↦
        let (k, l, q) =
          IsInjective-onto m (patched f m) (patched-IsBounded f m b inj)
            (patched-IsInjective f m b inj) i (ground arith) in
        (k, omega arith, ground (arith, q))
  ]
]

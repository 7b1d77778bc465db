-- ===== src/Base/Concat.antt =====
-- Lists of numbers one behind the other, and when they hold each number below a bound once.
use mathlib.Core.HLevel.{⊥_prop}
use mathlib.Core.List.{
  List, [], ◌++◌, Mem, Nodup, Nodup-append, Nodup-nil, mem-append, mem-append_right,
  mem-append_left, not-mem-nil,
}
use mathlib.Core.Logic.Or
use mathlib.Core.Logic.{inl, inr}
use Prim.Native.Nat.{ℕ, zero, suc, ◌+◌, ◌≤◌, ◌<◌}
use mathlib.Core.Path.{◌≡◌, subst}
use native.Mathlib.Omega.{arith}
use proxykit_go.Base.Tests.{Bool-cases, leb}

-- The lists of the indices from `i` on.
abbrev pub concat_from {ℓ} : {A : Type ℓ} → (ℕ → List A) → ℕ → ℕ → List A
concat_from lists i zero = []
concat_from lists i (suc n) = lists i ++ concat_from lists (i + 1) n

pub mem-concat_from :
    (lists : ℕ → List ℕ) (a i n k : ℕ)
    → i ≤ k
    → k < i + n
    → Mem a (lists k)
    → Mem a (concat_from lists i n)
mem-concat_from lists a i zero k le lt m = absurd (omega (arith, le, lt))
mem-concat_from lists a i (suc n) k le lt m = elim (Bool-cases (leb k i)) [
  | inl here ↦
      let e : k ≡ i = ground (arith, here, le) in
      mem-append_left (concat_from lists (i + 1) n) (subst (λ j. Mem a (lists j)) e m)
  | inr later ↦
      mem-append_right (lists i)
        (mem-concat_from lists a (i + 1) n k (ground (arith, later)) (omega (arith, lt)) m)
]

pub concat_from-elim :
    (P : Type 0)
    → IsProp P
    → (lists : ℕ → List ℕ) (a i n : ℕ) → Mem a (concat_from lists i n)
    → ((k : ℕ) → i ≤ k → k < i + n → Mem a (lists k) → P)
    → P
concat_from-elim P prop lists a i zero m f = absurd (not-mem-nil m)
concat_from-elim P prop lists a i (suc n) m f =
    Or.elim prop (mem-append.0 m) (λ here. f i (omega arith) (omega arith) here)
      (λ later.
        concat_from-elim P prop lists a (i + 1) n later
          (λ k le lt. f k (omega (arith, le)) (omega (arith, lt))))

pub concat_from-Nodup :
    (lists : ℕ → List ℕ) (i n : ℕ)
    → ((k : ℕ) → i ≤ k → k < i + n → Nodup (lists k))
    → ((j k a : ℕ) → i ≤ j → j < k → k < i + n → Mem a (lists j) → Mem a (lists k) → ⊥)
    → Nodup (concat_from lists i n)
concat_from-Nodup lists i zero each apart = Nodup-nil
concat_from-Nodup lists i (suc n) each apart = Nodup-append.1 (
  each i (omega arith) (omega arith),
  concat_from-Nodup lists (i + 1) n (λ k le lt. each k (omega (arith, le)) (omega (arith, lt)))
      (λ j k a le lt lt'. apart j k a (omega (arith, le)) lt (omega (arith, lt'))),
  λ a here later.
      concat_from-elim ⊥ ⊥_prop lists a (i + 1) n later
        (λ k le lt m. apart i k a (omega arith) (omega (arith, le)) (omega (arith, lt)) here m),
)

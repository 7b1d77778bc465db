-- ===== src/Base/Indices.antt =====
-- The numbers of a stretch, and their order by a function that meets each once.
use mathlib.Core.HLevel.{⊥_prop}
use mathlib.Core.List.{
  List, [], ◌∷◌, map, Mem, Nodup, Pairwise, mem-cons_self, mem-cons_of_mem, eq-or-mem_of_mem-cons,
  not-mem-nil, mem-map_of_mem, exists_of_mem-map, Perm, perm_ext_iff_of_Nodup, Mem-prop, map-id,
}
use mathlib.Core.Logic.Or
use mathlib.Core.Logic.{∥∥₁_elim, inl, inr}
use Prim.Native.Nat.{ℕ, zero, suc, ◌+◌, ◌≤◌, ◌<◌}
use mathlib.Core.Path.{◌≡◌, sym, ◌∙◌, subst}
use native.Mathlib.Omega.{arith}
use proxykit_go.Base.Tests.{Bool-cases, leb, ltb}
use proxykit_go.Base.Finite.{IsInjective, IsBounded, IsInjective-onto}

-- The numbers from `i` on.
abbrev pub indices : ℕ → ℕ → List ℕ
indices i zero = []
indices i (suc n) = i ∷ indices (i + 1) n

pub not-mem-indices_below : (a i n : ℕ) → a < i → ¬ Mem a (indices i n)
not-mem-indices_below a i zero lt m = not-mem-nil m
not-mem-indices_below a i (suc n) lt m =
    Or.elim ⊥_prop (eq-or-mem_of_mem-cons m) (λ here. omega (arith, here, lt))
      (not-mem-indices_below a (i + 1) n (omega (arith, lt)))

not-mem-indices_above : (a i n : ℕ) → i + n ≤ a → ¬ Mem a (indices i n)
not-mem-indices_above a i zero le m = not-mem-nil m
not-mem-indices_above a i (suc n) le m =
    Or.elim ⊥_prop (eq-or-mem_of_mem-cons m) (λ here. omega (arith, here, le))
      (not-mem-indices_above a (i + 1) n (omega (arith, le)))

pub mem-indices_lt : (a n : ℕ) → Mem a (indices 0 n) → a < n
mem-indices_lt a n m = elim (Bool-cases (ltb a n)) [
  | inl lt ↦ ground (arith, lt)
  | inr ge ↦ absurd (not-mem-indices_above a 0 n (ground (arith, ge)) m)
]

pub mem-indices : (a i n : ℕ) → i ≤ a → a < i + n → Mem a (indices i n)
mem-indices a i zero le lt = absurd (omega (arith, le, lt))
mem-indices a i (suc n) le lt = elim (Bool-cases (leb a i)) [
  | inl here ↦
      let e : i ≡ a = ground (arith, here, le) in
      subst (λ b. Mem a (b ∷ indices (i + 1) n)) (sym e) mem-cons_self
  | inr later ↦
      mem-cons_of_mem i (mem-indices a (i + 1) n (ground (arith, later)) (omega (arith, lt)))
]

pub indices-Nodup :
    (f : ℕ → ℕ) (i n m : ℕ) → i + n ≤ m → IsInjective m f → Nodup (map f (indices i n))
indices-Nodup f i zero m le inj = Pairwise.nil
indices-Nodup f i (suc n) m le inj =
    Pairwise.cons
      (λ b later e. ∥∥₁_elim (exists_of_mem-map later) ⊥_prop λ (j, listed, named).
        elim (Bool-cases (ltb j m)) [
          | inl lt ↦
              let same : i ≡ j = inj i j (omega (arith, le)) (ground (arith, lt)) (e ∙ sym named) in
              not-mem-indices_below j (i + 1) n (omega (arith, same)) listed
          | inr ge ↦ not-mem-indices_above j (i + 1) n (ground (arith, ge, le)) listed
        ])
      (indices-Nodup f (i + 1) n m (omega (arith, le)) inj)

pub indices_once : (n : ℕ) → Nodup (indices 0 n)
indices_once n =
    subst (λ l. Nodup l) (map-id (indices 0 n))
      (indices-Nodup (λ k. k) 0 n n (omega arith) (λ j k _ _ e. e))

-- A function on the numbers below `n` that repeats no value gives them in another order.
pub indices-perm :
    (n : ℕ) (f : ℕ → ℕ) → IsBounded n f → IsInjective n f → Perm (map f (indices 0 n)) (indices 0 n)
indices-perm n f bound inj =
    (perm_ext_iff_of_Nodup (indices-Nodup f 0 n n (omega arith) inj) (indices_once n)).1
      (λ a. (into a, onto a))
  where
    placed : (a j : ℕ) → f j ≡ a → j < n → Mem a (indices 0 n)
    placed a j named lt =
        subst (λ b. Mem b (indices 0 n)) named
          (mem-indices (f j) 0 n (omega arith) (omega (arith, bound j lt)))

    into : (a : ℕ) → Mem a (map f (indices 0 n)) → Mem a (indices 0 n)
    into a m =
        ∥∥₁_elim (exists_of_mem-map m) Mem-prop
          λ (j, listed, named). placed a j named (mem-indices_lt j n listed)

    onto : (a : ℕ) → Mem a (indices 0 n) → Mem a (map f (indices 0 n))
    onto a m =
        let (k, lt, e) = IsInjective-onto n f bound inj a (mem-indices_lt a n m) in
        subst (λ b. Mem b (map f (indices 0 n))) e
          (mem-map_of_mem f (mem-indices k 0 n (omega arith) (omega (arith, lt))))

-- ===== src/Pool/Permutation/Visits.antt =====
-- The walk by a step that has no common divisor with the number of lines comes to each line once.
use native.Mathlib.Nat
use Prim.Native.Nat.{◌∣◌}
use mathlib.Core.Path.{subst}
use proxykit_go.Base.{
  ℕ, zero, suc, ◌+◌, ◌-◌, ◌*◌, ◌/◌, ◌%◌, ◌≤◌, ◌<◌, ltb, leb, ◌≡◌, arith, Bool-cases, inl, inr, sym,
  ◌∙◌, ap,
}
use proxykit_go.Base.Finite.{IsInjective, IsInjective-onto}
use proxykit_go.Pool.Modular.{greatest_common_divisor}
use proxykit_go.Pool.Modular.Laws.{dvd-greatest_common_divisor_mul}
use proxykit_go.Pool.Permutation.{Params, permutation_params, advance, visit}
use proxykit_go.Pool.Permutation.Coprime.{AreParams, permutation_params-AreParams}

pub advance_lem :
    (lines step index : ℕ)
    → step ≤ lines
    → index < lines
    → advance lines step index ≡ (index + step) % lines
unfolding advance
advance_lem lines step index hs hi = elim (Bool-cases (ltb index (lines - step))) [
  | inl low ↦ rw low ((omega arith) ∙ sym (Nat.mod-eq_of_lt (ground arith)))
  | inr high ↦
      let over : lines ≤ index + step = ground arith in
      rw high ((omega arith) ∙ sym (Nat.mod-eq-sub-mod over ∙ Nat.mod-eq_of_lt (omega arith)))
]

-- Two numbers with one residue differ by a multiple.
dvd-sub_of_mod-eq : (a b n : ℕ) → a % n ≡ b % n → n ∣ b - a
dvd-sub_of_mod-eq a b n e = subst (◌∣◌ n) split (Nat.dvd-mul_right n (b / n - a / n))
  where
    split : n * (b / n - a / n) ≡ b - a
    split =
        Nat.mul-sub n (b / n) (a / n) ∙ omega (arith, e, Nat.div-add-mod a n, Nat.div-add-mod b n)

module _ (lines : ℕ) (p : Params) (fit : AreParams lines p) where
  pub visit-lt : (k : ℕ) → visit lines p k < lines
  unfolding visit
  visit-lt zero = fit.start_lt
  visit-lt (suc k) =
      rw (advance_lem lines p.step (visit lines p k) fit.step_le (visit-lt k))
        (Nat.mod-lt (visit lines p k + p.step) (omega (arith, fit.start_lt)))

  pub visit_lem : (k : ℕ) → visit lines p k ≡ (p.start + k * p.step) % lines
  unfolding visit
  visit_lem zero = rw (Nat.zero-mul, Nat.add-zero) (sym (Nat.mod-eq_of_lt fit.start_lt))
  visit_lem (suc k) =
      advance_lem lines p.step (visit lines p k) fit.step_le (visit-lt k)
      ∙ ap (λ (t : ℕ). (t + p.step) % lines) (visit_lem k)
      ∙ Nat.mod-add-mod (p.start + k * p.step) lines p.step
      ∙ ap (λ (t : ℕ). t % lines) (omega (arith, Nat.suc-mul k p.step))

  -- No line is met twice within one round.
  visit_ordered : (j k : ℕ) → j ≤ k → k < lines → visit lines p j ≡ visit lines p k → j ≡ k
  visit_ordered j k h hk e =
      let residues = sym (visit_lem j) ∙ e ∙ visit_lem k in
      let multiple : lines ∣ p.step * (k - j) =
        subst (◌∣◌ lines) (distance j k p.start p.step h) (dvd-sub_of_mod-eq _ _ lines residues) in
      let whole : lines ∣ greatest_common_divisor p.step lines * (k - j) =
        dvd-greatest_common_divisor_mul lines (k - j) p.step lines multiple
          (Nat.dvd-mul_right lines (k - j)) in
      let plain : lines ∣ k - j =
        subst (◌∣◌ lines) (ap (λ (t : ℕ). t * (k - j)) fit.coprime ∙ Nat.one-mul (k - j)) whole in
      elim (Nat.eq-zero-or-pos (k - j)) [
        | inl z ↦ omega arith
        | inr pos ↦ absurd (omega (arith, Nat.le_of_dvd pos plain))
      ]
    where
      distance : (j k s t : ℕ) → j ≤ k → s + k * t - (s + j * t) ≡ t * (k - j)
      distance j k s t h = omega (arith, Nat.mul-sub t k j)

  pub visit-IsInjective : IsInjective lines (visit lines p)
  visit-IsInjective j k hj hk e = elim (Bool-cases (leb j k)) [
    | inl le ↦ visit_ordered j k (ground arith) hk e
    | inr gt ↦ sym (visit_ordered k j (ground arith) hj (sym e))
  ]

-- A walk by fit parameters comes to each index once.
pub visit-once :
    (count : ℕ) (p : Params)
    → AreParams count p
    → (i : ℕ) → i < count
    → (k : ℕ) × (k < count)
      × (visit count p k ≡ i)
      × ((j : ℕ) → j < count → visit count p j ≡ i → j ≡ k)
visit-once count p fit i h =
    let inj = visit-IsInjective count p fit in
    let (k, below, hit) =
      IsInjective-onto count (visit count p) (λ k _. visit-lt count p fit k) inj i h in
    (k, below, hit, λ j hj e. inj j k hj below (e ∙ sym hit))

-- The first `count` indices of the walk that `permutationParams` gives are all indices below
-- `count`, each exactly once, for every seed.
pub visit-permutation_params :
    (count seed i : ℕ)
    → i < count
    → (k : ℕ) × (k < count)
      × (visit count (permutation_params count seed) k ≡ i)
      × ((j : ℕ) → j < count → visit count (permutation_params count seed) j ≡ i → j ≡ k)
visit-permutation_params count seed i h =
    visit-once count (permutation_params count seed)
      (permutation_params-AreParams count seed (omega arith)) i h

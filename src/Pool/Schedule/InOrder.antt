-- ===== src/Pool/Schedule/InOrder.antt =====
-- proxypool.go: a sequential pool comes to the blocks in the order of the file.
use native.Mathlib.Nat
use proxykit_go.Base.{ℕ, zero, suc, ◌+◌, ◌*◌, ◌%◌, ◌<◌, true, ◌==◌, ◌≡◌, refl, arith, ap, ◌∙◌}
use proxykit_go.Base.Word.{u64}
use proxykit_go.Pool.Sizes.{mode_sequential}
use proxykit_go.Pool.Open.{Geometry}
use proxykit_go.Pool.State.{Pool, start_cycle, start_regions, opened_pool, rotation}
use proxykit_go.Pool.Modular.Laws.{add_modulo_lem}
use proxykit_go.Pool.Walk.{enter_region, region_length}
use proxykit_go.Pool.Schedule.{
  IsGeometry, cycle_of, scheduled, scheduled_steps, enter_regions, enter_regions-next,
  enter_regions_kept, regions-bound,
}

start-in_order :
    (g : Geometry) (c : ℕ)
    → (g.mode == mode_sequential) ≡ true
    → 0 < g.region_count
    → ((cycle_of g c).next_region ≡ 0)
      × ((cycle_of g c).region_advance ≡ 1)
      × ((cycle_of g c).geometry ≡ g)
unfolding start_cycle start_regions opened_pool
start-in_order g c m h = (ground arith, ground arith, ground arith)

region-in_order :
    (g : Geometry) (c k : ℕ)
    → IsGeometry g
    → (g.mode == mode_sequential) ≡ true
    → k < g.region_count
    → (enter_regions k (cycle_of g c)).next_region ≡ k
region-in_order g c zero fit m h = (start-in_order g c m h).0
region-in_order g c (suc k) fit m h =
    let (first, step, same) = start-in_order g c m (omega (arith, h)) in
    let first_lt : (cycle_of g c).next_region < g.region_count = omega (arith, first, h) in
    let step_lt : (cycle_of g c).region_advance < g.region_count = omega (arith, step, h) in
    let sum : 0 + suc k * 1 ≡ suc k = omega arith in
    enter_regions-next (suc k) (cycle_of g c) (rw same first_lt) (rw same step_lt)
      (rw same (regions-bound g fit))
    ∙ rw (same, first, step, sum) (Nat.mod-eq_of_lt h)

-- The `k`-th region entered is region `k`.
pub scheduled_steps-in_order :
    (g : Geometry) (c k : ℕ)
    → IsGeometry g
    → (g.mode == mode_sequential) ≡ true
    → k < g.region_count
    → scheduled_steps g c k ≡ region_length g k
unfolding enter_region
scheduled_steps-in_order g c k fit m h =
    let (kept, _, _) = enter_regions_kept k (cycle_of g c) in
    let (_, _, opened) = start-in_order g c m (omega (arith, h)) in
    let geometry = kept ∙ opened in
    let region = region-in_order g c k fit m h in rw (geometry, region) refl

-- Step `n` of the `k`-th region is block `k * blocks_per_region + n`.
pub scheduled-in_order :
    (g : Geometry) (c k n : ℕ)
    → IsGeometry g
    → (g.mode == mode_sequential) ≡ true
    → k < g.region_count
    → n < scheduled_steps g c k
    → scheduled g c k n ≡ k * g.blocks_per_region + n
unfolding enter_region
scheduled-in_order g c k n fit m h inside =
    let (kept, _, _) = enter_regions_kept k (cycle_of g c) in
    let (_, _, opened) = start-in_order g c m (omega (arith, h)) in
    let q = enter_regions k (cycle_of g c) in
    let geometry = kept ∙ opened in
    let region = region-in_order g c k fit m h in
    let still =
      rotation_in_order q q.next_region (region_length q.geometry q.next_region) (rw geometry m) in
    let steps : scheduled_steps g c k ≡ region_length g k = rw (geometry, region) refl in
    let below : n < region_length g k = rw (← steps) inside in
    let bound : region_length g k < u64 = omega (arith, fit.blocks_bound) in
    let turned = add_modulo_lem 0 n (region_length g k) (omega (arith, below)) below bound in
    let plain : 0 + n ≡ n = omega arith in
    rw (still, geometry, region)
      (ap (λ t. k * g.blocks_per_region + t)
        (turned ∙ ap (λ t. t % region_length g k) plain ∙ Nat.mod-eq_of_lt below))
  where
    rotation_in_order :
        (pool : Pool) (r n : ℕ)
        → (pool.geometry.mode == mode_sequential) ≡ true
        → rotation pool r n ≡ 0
    rotation_in_order pool r n m = unfold rotation in ground (arith, m)

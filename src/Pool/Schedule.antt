-- ===== src/Pool/Schedule.antt =====
-- proxypool.go: the regions and the blocks that loadNextBlockLocked comes to in a cycle of a
-- shuffled pool.
pub mod Once
pub mod InOrder
use native.Mathlib.Nat
use mathlib.Core.Path.{subst, ap₂}
use proxykit_go.Base.{
  ℕ, zero, suc, ◌+◌, ◌-◌, ◌*◌, ◌/◌, ◌%◌, ◌^◌, ◌≤◌, ◌<◌, min, Bool, true, false, not, ltb, leb, ◌==◌,
  ◌≡◌, refl, arith, if◌then◌else◌, Bool-cases, inl, inr, sym, ap, ◌∙◌,
}
use proxykit_go.Base.Word.{u64, add64, mul64, xor64}
use proxykit_go.Pool.Sizes.{mode_sequential, shard_item_count, ceiling_quotient}
use proxykit_go.Pool.Shards.{
  shard_item_count_iff, ceiling_quotient_iff, ceiling_quotient-le, digits_unique,
}
use proxykit_go.Pool.Open.{Geometry}
use proxykit_go.Pool.State.{Pool, start_cycle, start_regions, opened_pool, rotation}
use proxykit_go.Pool.Modular.{add_modulo, multiply_modulo}
use proxykit_go.Pool.Modular.Laws.{mul-mod_left, add_modulo_lem, multiply_modulo_lem}
use proxykit_go.Pool.Permutation.{Params, permutation_params, visit, mix64, mix_increment}
use proxykit_go.Pool.Permutation.Coprime.{AreParams, permutation_params-AreParams}
use proxykit_go.Pool.Permutation.Visits.{visit_lem, visit-permutation_params}
use proxykit_go.Pool.Walk.{enter_region, block_at, region_base, region_length}

-- The sizes of a pool fit together, as Open makes them.
pub record IsGeometry (g : Geometry) : Type 0 where
  pub block_positive : 0 < g.block_bytes
  pub blocks_positive : 0 < g.blocks_per_region
  pub blocks_bound : g.block_count < u64
  pub blocks_count : g.block_count ≡ ceiling_quotient g.file_size g.block_bytes
  pub regions_count : g.region_count ≡ ceiling_quotient g.block_count g.blocks_per_region
  pub shards_positive : 0 < g.shard_count
  pub shards_bound : g.shard_count < u64
  pub shard_lt : g.shard_index < g.shard_count
  pub regions_shard :
      g.regions_for_shard ≡ shard_item_count g.region_count g.shard_count g.shard_index

-- The same pool as another shard.
abbrev pub of_shard : Geometry → ℕ → Geometry
of_shard g i = record g {
  shard_index = i;
  regions_for_shard = shard_item_count g.region_count g.shard_count i;
}

-- The pool of a cycle when `k` regions have been entered.
abbrev pub enter_regions : ℕ → Pool → Pool
enter_regions zero pool = pool
enter_regions (suc k) pool = enter_region (enter_regions k pool)

abbrev pub cycle_of : Geometry → ℕ → Pool
cycle_of g c = start_cycle c (opened_pool g)

-- The block at step `n` of the `k`-th region of a cycle.
abbrev pub scheduled : Geometry → ℕ → ℕ → ℕ → ℕ
scheduled g c k n =
    let p = enter_regions (suc k) (cycle_of g c) in
    block_at p.region_block_base p.region_rotation n p.region_blocks

-- How many steps the `k`-th region has.
abbrev pub scheduled_steps : Geometry → ℕ → ℕ → ℕ
scheduled_steps g c k = (enter_regions (suc k) (cycle_of g c)).region_blocks

-- What stays when regions are entered.
pub enter_regions_kept :
    (k : ℕ) (pool : Pool)
    → ((enter_regions k pool).geometry ≡ pool.geometry)
      × ((enter_regions k pool).region_advance ≡ pool.region_advance)
      × ((enter_regions k pool).cycle_seed ≡ pool.cycle_seed)
unfolding enter_region
enter_regions_kept zero pool = (refl, refl, refl)
enter_regions_kept (suc k) pool = enter_regions_kept k pool

pub enter_regions-next :
    (k : ℕ) (pool : Pool)
    → pool.next_region < pool.geometry.region_count
    → pool.region_advance < pool.geometry.region_count
    → pool.geometry.region_count < u64
    → (enter_regions k pool).next_region
      ≡ (pool.next_region + k * pool.region_advance) % pool.geometry.region_count
unfolding enter_region
enter_regions-next zero pool hn ha hc =
    let e : pool.next_region ≡ pool.next_region + 0 * pool.region_advance = omega arith in
    sym (ap (λ m. m % pool.geometry.region_count) (sym e) ∙ Nat.mod-eq_of_lt hn)
enter_regions-next (suc k) pool hn ha hc =
    let count = pool.geometry.region_count in
    let advance = pool.region_advance in
    let q = enter_regions k pool in
    let (same, step, _) = enter_regions_kept k pool in
    let before = enter_regions-next k pool hn ha hc in
    let below : q.next_region < count =
      rw before (Nat.mod-lt (pool.next_region + k * advance) (omega arith)) in
    let added = add_modulo_lem q.next_region advance count below ha hc in
    let sum : pool.next_region + k * advance + advance ≡ pool.next_region + suc k * advance =
      omega (arith, Nat.suc-mul k advance) in
    rw (same, step)
      (added
        ∙ ap (λ m. (m + advance) % count) before
        ∙ Nat.mod-add-mod (pool.next_region + k * advance) count advance
        ∙ ap (λ m. m % count) sum)

-- The seed of a cycle.
abbrev pub cycle_seed_of : Geometry → ℕ → ℕ
cycle_seed_of g c = mix64 (add64 g.seed (mul64 c mix_increment))

-- The walk over the regions of all shards.
abbrev pub params_of : Geometry → ℕ → Params
params_of g c = permutation_params g.region_count (cycle_seed_of g c)

start-next :
    (g : Geometry) (c : ℕ)
    → (g.mode == mode_sequential) ≡ false
    → 0 < g.region_count
    → ((cycle_of g c).next_region
        ≡ add_modulo
            (params_of g c).start
            (multiply_modulo (params_of g c).step g.shard_index g.region_count)
            g.region_count)
      × ((cycle_of g c).region_advance
          ≡ multiply_modulo (params_of g c).step g.shard_count g.region_count)
      × ((cycle_of g c).geometry ≡ g)
      × ((cycle_of g c).cycle_seed ≡ cycle_seed_of g c)
unfolding start_cycle start_regions opened_pool
start-next g c m h = (ground arith, ground arith, ground arith, ground arith)

pub regions-bound : (g : Geometry) → IsGeometry g → g.region_count < u64
regions-bound g fit =
    let le = ceiling_quotient-le g.block_count g.blocks_per_region fit.blocks_positive in
    omega (arith, le, fit.blocks_bound, fit.regions_count)

walk_sum :
    (s step index shards k m : ℕ)
    → ((s + step * index % m) % m + k * (step * shards % m)) % m
      ≡ (s + (index + k * shards) * step) % m
walk_sum s step index shards k m =
    let x = step * index in
    let z = step * shards in
    let reorder : s + x % m + k * (z % m) ≡ s + k * (z % m) + x % m = omega arith in
    let turn : s + k * (z % m) + x ≡ s + x + z % m * k = omega (arith, Nat.mul_comm k (z % m)) in
    let product : z * k ≡ k * shards * step =
      Nat.mul_assoc step shards k
      ∙ Nat.mul_comm step (shards * k)
      ∙ ap (λ t. t * step) (Nat.mul_comm shards k) in
    let total : s + x + z * k ≡ s + (index + k * shards) * step =
      omega (arith, product, Nat.add-mul index (k * shards) step, Nat.mul_comm step index) in
    Nat.mod-add-mod (s + x % m) m (k * (z % m))
    ∙ ap (λ t. t % m) reorder
    ∙ Nat.add-mod-mod (s + k * (z % m)) x m
    ∙ ap (λ t. t % m) turn
    ∙ sym (Nat.add-mod-mod (s + x) (z % m * k) m)
    ∙ ap (λ t. (s + x + t) % m) (mul-mod_left z k m)
    ∙ Nat.add-mod-mod (s + x) (z * k) m
    ∙ ap (λ t. t % m) total

-- The `k`-th region of a shard is the one at place `shard_index + k * shard_count` of the walk.
pub region-visit :
    (g : Geometry) (c k : ℕ)
    → IsGeometry g
    → (g.mode == mode_sequential) ≡ false
    → 0 < g.region_count
    → (enter_regions k (cycle_of g c)).next_region
      ≡ visit g.region_count (params_of g c) (g.shard_index + k * g.shard_count)
region-visit g c k fit m h =
    let count = g.region_count in
    let p = params_of g c in
    let bound = regions-bound g fit in
    let ready = permutation_params-AreParams count (cycle_seed_of g c) h in
    let (first, step, same, _) = start-next g c m h in
    let offset =
      multiply_modulo_lem p.step g.shard_index count (omega (arith, fit.shard_lt, fit.shards_bound))
        h bound in
    let jump = multiply_modulo_lem p.step g.shard_count count fit.shards_bound h bound in
    let offset_lt : multiply_modulo p.step g.shard_index count < count =
      rw offset (Nat.mod-lt (p.step * g.shard_index) h) in
    let jump_lt : multiply_modulo p.step g.shard_count count < count =
      rw jump (Nat.mod-lt (p.step * g.shard_count) h) in
    let begun =
      first
      ∙ add_modulo_lem p.start (multiply_modulo p.step g.shard_index count) count ready.start_lt
          offset_lt bound in
    let start_lt : (cycle_of g c).next_region < count =
      rw begun (Nat.mod-lt (p.start + multiply_modulo p.step g.shard_index count) h) in
    let advance_lt : (cycle_of g c).region_advance < count = rw step jump_lt in
    enter_regions-next k (cycle_of g c) (rw same start_lt) (rw same advance_lt) (rw same bound)
    ∙ rw (same, begun, step, offset, jump)
        (walk_sum p.start p.step g.shard_index g.shard_count k count
          ∙ sym (visit_lem count p ready (g.shard_index + k * g.shard_count)))

-- The block at step `n` of region `r` of a cycle.
abbrev pub place : Geometry → ℕ → ℕ → ℕ → ℕ
place g c r n =
    block_at (region_base g r) (mix64 (xor64 (cycle_seed_of g c) r) % region_length g r) n
      (region_length g r)

-- The shard's `k`-th region, in the walk over all regions.
abbrev pub region_of : Geometry → ℕ → ℕ → ℕ
region_of g c k = visit g.region_count (params_of g c) (g.shard_index + k * g.shard_count)

pub scheduled_lem :
    (g : Geometry) (c k n : ℕ)
    → IsGeometry g
    → (g.mode == mode_sequential) ≡ false
    → 0 < g.region_count
    → (scheduled g c k n ≡ place g c (region_of g c k) n)
      × (scheduled_steps g c k ≡ region_length g (region_of g c k))
unfolding enter_region
scheduled_lem g c k n fit m h =
    let (same, _, seed) = enter_regions_kept k (cycle_of g c) in
    let (_, _, opened, seeded) = start-next g c m h in
    let geometry = same ∙ opened in
    let region = region-visit g c k fit m h in
    let q = enter_regions k (cycle_of g c) in
    let shuffled : (q.geometry.mode == mode_sequential) ≡ false = rw geometry m in
    let turned =
      rotation_shuffled q q.next_region (region_length q.geometry q.next_region) shuffled in
    (rw (turned, seed ∙ seeded, geometry, region) refl, rw (geometry, region) refl)
  where
    rotation_shuffled :
        (pool : Pool) (r n : ℕ)
        → (pool.geometry.mode == mode_sequential) ≡ false
        → rotation pool r n ≡ mix64 (xor64 pool.cycle_seed r) % n
    rotation_shuffled pool r n m = unfold rotation in ground (arith, m)

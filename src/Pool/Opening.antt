-- ===== src/Pool/Opening.antt =====
-- proxypool.go: the geometry that Open accepts fits together, and its sizes stay in their machine
-- words.
use native.Mathlib.Nat
use proxykit_go.Base.{ℕ, zero, suc, ◌+◌, ◌*◌, ◌/◌, ◌^◌, ◌≤◌, ◌<◌, true, ◌≡◌, refl, arith}
use mathlib.Core.Path.{subst}
use proxykit_go.Pool.Sizes.{
  ℤ, pos, negsuc, positive_or_default, at_least_one, max_int, default_max_line_bytes,
}
use proxykit_go.Pool.Shards.{ceiling_quotient-le}
use proxykit_go.Pool.Open.{
  Options, Geometry, opened, Info, block_size, region_size, geometry, check_sizes, open_pool,
}
use proxykit_go.Pool.Schedule.{IsGeometry}

-- The sizes that a pool computes with stay in range: a buffer's positions are words of 32 bits, and
-- positions in a region signed words of 64.
pub record IsInRange (g : Geometry) : Type 0 where
  pub line_positive : 0 < g.max_line_bytes
  pub offsets_bound : g.block_bytes + g.max_line_bytes + 3 < 2 ^ 32
  pub region_bound : g.region_bytes < 2 ^ 63
  pub region_blocks : g.region_bytes ≡ g.blocks_per_region * g.block_bytes
  pub region_ge : g.block_bytes ≤ g.region_bytes
  pub one_shard : (g.reuse ≡ true) → g.shard_count ≡ 1

positive_or_default-pos : (z : ℤ) (d : ℕ) → 0 < d → 0 < positive_or_default z d
unfolding positive_or_default
positive_or_default-pos (pos zero) d h = h
positive_or_default-pos (pos (suc n)) d h = omega arith
positive_or_default-pos (negsuc n) d h = h

block_size-pos : (options : Options) → 0 < block_size options
block_size-pos options = ground (
  arith,
  positive_or_default-pos options.sequential_buffer_bytes (2 ^ 20) (omega arith),
  positive_or_default-pos options.block_bytes (4 * 2 ^ 20) (omega arith),
)

-- What the checks of the sizes leave.
pub record HasSizes (options : Options) : Type 0 where
  pub offsets_bound :
      block_size options + positive_or_default options.max_line_bytes default_max_line_bytes + 3
      < 2 ^ 32
  pub region_ge : block_size options ≤ region_size options
  pub region_bound : region_size options / block_size options ≤ max_int / block_size options

check_sizes-opened :
    (options : Options) (info : Info) (random index : ℕ) (g : Geometry)
    → check_sizes options info random index ≡ opened g
    → (geometry options info random index ≡ g) × HasSizes options
unfolding check_sizes
check_sizes-opened options info random index g h = (
  ground (arith, h),
  record {
    offsets_bound = ground (arith, h);
    region_ge = ground (arith, h);
    region_bound = ground (arith, h);
  },
)

at_least_one-pos : (z : ℤ) → 0 < at_least_one z
at_least_one-pos (pos n) = omega arith
at_least_one-pos (negsuc n) = omega arith

-- What the checks before those leave.
open_pool-checks :
    (options : Options) (info : Info) (random : ℕ) (g : Geometry)
    → open_pool options info random ≡ opened g
    → (index : ℕ) × (index < at_least_one options.shard_count)
      × ((options.reuse ≡ true) → at_least_one options.shard_count ≡ 1)
      × (check_sizes options info random index ≡ opened g)
unfolding open_pool
open_pool-checks options info random g h = by_index options.shard_index refl
  where
    by_index :
        (z : ℤ)
        → options.shard_index ≡ z
        → (index : ℕ) × (index < at_least_one options.shard_count)
          × ((options.reuse ≡ true) → at_least_one options.shard_count ≡ 1)
          × (check_sizes options info random index ≡ opened g)
    by_index (negsuc n) e = ground (arith, e, h)
    by_index (pos index) e =
        let one = at_least_one-pos options.shard_count in
        (index, ground (arith, e, h), λ r. ground (arith, e, h, r, one), ground (arith, e, h))

geometry-IsGeometry :
    (options : Options) (info : Info) (random index : ℕ)
    → HasSizes options
    → index < at_least_one options.shard_count
    → at_least_one options.shard_count < 2 ^ 63
    → info.size < 2 ^ 63
    → IsGeometry (geometry options info random index)
unfolding geometry
geometry-IsGeometry options info random index sizes hi hs hn =
    let block = block_size-pos options in
    let whole = Nat.le-div_iff_mul-le {x = 1} {y = region_size options} block in
    let blocks = ceiling_quotient-le info.size (block_size options) block in
    record {
      block_positive = block;
      blocks_positive = whole.1 (omega (arith, sizes.region_ge));
      blocks_bound = omega (arith, blocks, hn);
      blocks_count = refl;
      regions_count = refl;
      shards_positive = at_least_one-pos options.shard_count;
      shards_bound = omega (arith, hs);
      shard_lt = hi;
      regions_shard = refl;
    }

geometry-IsInRange :
    (options : Options) (info : Info) (random index : ℕ)
    → HasSizes options
    → ((options.reuse ≡ true) → at_least_one options.shard_count ≡ 1)
    → IsInRange (geometry options info random index)
unfolding geometry
geometry-IsInRange options info random index sizes one =
    let block = block_size-pos options in
    let blocks = region_size options / block_size options in
    let fits = (Nat.le-div_iff_mul-le {x = blocks} {y = max_int} block).0 sizes.region_bound in
    let whole =
      (Nat.le-div_iff_mul-le {x = 1} {y = region_size options} block).1
        (omega (arith, sizes.region_ge)) in
    record {
      line_positive =
          positive_or_default-pos options.max_line_bytes default_max_line_bytes (omega arith);
      offsets_bound = sizes.offsets_bound;
      region_bound = omega (arith, fits);
      region_blocks = refl;
      region_ge = omega (arith, Nat.mul-le-mul_right (block_size options) whole);
      one_shard = one;
    }

-- A pool that Open accepts, of a file and with a number of shards below 2^63, has sizes that fit
-- together and stay in the range of their words, and only one shard if it is reused.
pub open_pool-IsGeometry :
    (options : Options) (info : Info) (random : ℕ) {g : Geometry}
    → info.size < 2 ^ 63
    → at_least_one options.shard_count < 2 ^ 63
    → open_pool options info random ≡ opened g
    → IsGeometry g × IsInRange g
open_pool-IsGeometry options info random {g} hn hs h =
    let (index, inside, one, passed) = open_pool-checks options info random g h in
    let (same, sizes) = check_sizes-opened options info random index g passed in
    (
      subst IsGeometry same (geometry-IsGeometry options info random index sizes inside hs hn),
      subst IsInRange same (geometry-IsInRange options info random index sizes one),
    )

-- ===== src/Pool/Rounds.antt =====
-- proxypool.go: the rounds of loadNextBlockLocked on a block and at the end of a cycle.
use native.Mathlib.Nat
use mathlib.Core.Path.{subst}
use proxykit_go.Base.{
  ℕ, ◌+◌, ◌-◌, ◌*◌, ◌≤◌, ◌<◌, true, false, not, ◌||◌, none, some, ltb, ◌==◌, ◌≡◌, refl, arith,
  if◌then◌else◌, length, Bool-cases, Option-cases, inl, inr, sym, ap,
}
use proxykit_go.Base.Word.{u64, xor64}
use proxykit_go.Pool.Sizes.{ceiling_quotient}
use proxykit_go.Pool.Shards.{ceiling_quotient_iff}
use proxykit_go.Pool.Modular.Laws.{add_modulo_lem}
use proxykit_go.Pool.Permutation.{mix64}
use proxykit_go.Pool.State.{Pool, File, start_cycle, start_regions, rotation, validate_source}
use proxykit_go.Pool.Block.{Loaded, load_block}
use proxykit_go.Pool.Walk.{
  Round, again, leave, stuck, block_at, is_continuation, region_length, enter_region, visit_block,
  end_cycle,
}
use proxykit_go.Pool.Extends.{Core, core, ReadsAtMost}
use proxykit_go.Pool.Loads.{Loads, load_block-Loads}

-- What the walk over regions and blocks needs of the state.
pub record IsWalk (c : Core) : Type 0 where
  pub active : c.active ≡ true
  pub block_positive : 0 < c.geometry.block_bytes
  pub blocks_count :
      c.geometry.block_count ≡ ceiling_quotient c.geometry.file_size c.geometry.block_bytes
  pub blocks_bound : c.geometry.block_count < u64
  pub cursor_le : c.region_cursor ≤ c.geometry.regions_for_shard
  pub blocks_le : c.region_blocks ≤ c.geometry.blocks_per_region
  pub inside : c.region_blocks ≤ c.geometry.block_count - c.region_block_base
  pub rotated : 0 < c.region_blocks → c.region_rotation < c.region_blocks

-- A bound on the rounds that are left.
abbrev pub rounds_left : Core → ℕ
rounds_left c =
    (c.geometry.regions_for_shard - c.region_cursor) * (c.geometry.blocks_per_region + 2)
    + (c.region_blocks - c.region_block_next)
    + (if c.cursor == c.cycle_start_cursor
        then 0
        else (c.geometry.regions_for_shard + 1) * (c.geometry.blocks_per_region + 2))

-- A round ends, and keeps the state; the loop goes on with fewer rounds left, and ends without an
-- error only with a line.
abbrev pub Turns : Core → Round → Type 0
Turns c (again p) = IsWalk (core p) × (rounds_left (core p) < rounds_left c)
Turns c (leave p e) = IsWalk (core p) × (e ≡ none → 1 < length p.offsets)
Turns c stuck = true ≡ false

-- The block of a step in a region is a block of the file.
pub block_at-inside :
    (c : Core) (fit : IsWalk c)
    → c.region_block_next < c.region_blocks
    → block_at c.region_block_base c.region_rotation c.region_block_next c.region_blocks
        * c.geometry.block_bytes
      < c.geometry.file_size
block_at-inside c fit h =
    let blocks : 0 < c.region_blocks = omega (arith, h) in
    let bound : c.region_blocks < u64 = omega (arith, fit.inside, fit.blocks_bound) in
    let sum =
      add_modulo_lem c.region_rotation c.region_block_next c.region_blocks (fit.rotated blocks) h
        bound in
    let low = Nat.mod-lt (c.region_rotation + c.region_block_next) blocks in
    let block =
      block_at c.region_block_base c.region_rotation c.region_block_next c.region_blocks in
    let counted : block < c.geometry.block_count = omega (arith, sum, low, fit.inside) in
    (ceiling_quotient_iff c.geometry.file_size c.geometry.block_bytes block fit.block_positive).0
      (subst (◌<◌ block) fit.blocks_count counted)

-- The pool behind a step in its region, and the block of that step.
abbrev pub passed : Pool → Pool
passed pool = record pool { region_block_next = pool.region_block_next + 1 }

abbrev pub block_of : Pool → ℕ
block_of pool =
    block_at pool.region_block_base pool.region_rotation pool.region_block_next pool.region_blocks

passed-IsWalk :
    (pool : Pool)
    → IsWalk (core pool)
    → pool.region_block_next < pool.region_blocks
    → IsWalk (core (passed pool)) × (rounds_left (core (passed pool)) < rounds_left (core pool))
passed-IsWalk pool fit h = (
  record {
    active = fit.active;
    block_positive = fit.block_positive;
    blocks_count = fit.blocks_count;
    blocks_bound = fit.blocks_bound;
    cursor_le = fit.cursor_le;
    blocks_le = fit.blocks_le;
    inside = fit.inside;
    rotated = fit.rotated;
  },
  ground (arith, h),
)

-- A round on a block that has been loaded.
loaded-Turns :
    (file : File) (pool : Pool) (l : Loaded)
    → IsWalk (core (passed pool)) × (rounds_left (core (passed pool)) < rounds_left (core pool))
    → is_continuation (passed pool) (block_of pool) ≡ false
    → load_block file (block_of pool) (passed pool) ≡ l
    → Loads (core (passed pool)) l
    → Turns (core pool) (visit_block file pool)
unfolding visit_block
loaded-Turns file pool none walk new e k = ground (arith, k)
loaded-Turns file pool (some (p, some err)) walk new e k =
    rw (new, e, visit_block) (subst IsWalk (sym k) walk.0, λ n. cc)
loaded-Turns file pool (some (p, none)) walk new e k =
    elim (Bool-cases (ltb 1 (length p.offsets))) [
      | inl lines ↦
          rw (new, e, visit_block, lines) (subst IsWalk (sym k) walk.0, λ n. ground (arith, lines))
      | inr empty ↦
          rw (new, e, visit_block, empty)
            (
              subst IsWalk (sym k) walk.0,
              subst (λ c. rounds_left c < rounds_left (core pool)) (sym k) walk.1,
            )
    ]

pub visit_block-Turns :
    (file : File) (pool : Pool)
    → ReadsAtMost file
    → IsWalk (core pool)
    → pool.region_block_next < pool.region_blocks
    → Turns (core pool) (visit_block file pool)
unfolding visit_block
visit_block-Turns file pool reads fit h =
    let walk = passed-IsWalk pool fit h in
    let loads =
      load_block-Loads file (block_of pool) (passed pool) reads fit.block_positive
        (block_at-inside (core pool) fit h) in
    elim (Bool-cases (is_continuation (passed pool) (block_of pool))) [
      | inl old ↦ rw (old, visit_block) walk
      | inr new ↦ loaded-Turns file pool _ walk new refl loads
    ]

start_cycle-core :
    (cycle : ℕ) (pool : Pool)
    → core (start_cycle cycle pool) ≡ record (core pool) {
      region_cursor = 0;
      region_block_next = 0;
      region_blocks = 0;
      cycle_start_cursor = pool.cursor;
      next_region = (start_cycle cycle pool).next_region;
      region_advance = (start_cycle cycle pool).region_advance;
      cycle_seed = (start_cycle cycle pool).cycle_seed;
    }
unfolding start_cycle start_regions
start_cycle-core cycle pool = ground arith

pub start_cycle-IsWalk :
    (cycle : ℕ) (pool : Pool) → IsWalk (core pool) → IsWalk (core (start_cycle cycle pool))
start_cycle-IsWalk cycle pool fit = rw (start_cycle-core cycle pool) (record {
  active = fit.active;
  block_positive = fit.block_positive;
  blocks_count = fit.blocks_count;
  blocks_bound = fit.blocks_bound;
  cursor_le = omega arith;
  blocks_le = omega arith;
  inside = omega arith;
  rotated = λ h. omega (arith, h);
})

-- The next cycle has fewer rounds left, where this one has returned a line.
restart_left :
    (c : Core)
    → c.cursor == c.cycle_start_cursor ≡ false
    → rounds_left (record c {
      region_cursor = 0;
      region_block_next = 0;
      region_blocks = 0;
      cycle_start_cursor = c.cursor;
    })
      < rounds_left c
restart_left c h =
    let regions = c.geometry.regions_for_shard in
    let width = c.geometry.blocks_per_region + 2 in
    let whole : (regions + 1) * width ≡ regions * width + width =
      omega (arith, Nat.add-mul regions 1 width, Nat.one-mul width) in
    let all : (regions - 0) * width ≡ regions * width = ap (λ n. n * width) (omega arith) in
    ground (arith, h, whole, all)

pub end_cycle-Turns :
    (file : File) (pool : Pool) → IsWalk (core pool) → Turns (core pool) (end_cycle file pool)
unfolding end_cycle
end_cycle-Turns file pool fit =
    let fresh = start_cycle-core (pool.cycle + 1) pool in
    let walk = start_cycle-IsWalk (pool.cycle + 1) pool fit in
    elim (Option-cases (validate_source file pool.geometry)) [
      | inr (e, changed) ↦ rw (changed, end_cycle) (fit, λ n. cc)
      | inl same ↦
          elim (Bool-cases (
            not pool.geometry.reuse
            || pool.geometry.file_size == 0
            || pool.cursor == pool.cycle_start_cursor)) [
              | inl last ↦ rw (same, end_cycle, last) (fit, λ n. cc)
              | inr more ↦
                  rw (same, end_cycle, more)
                    (
                      walk,
                      subst (λ c. rounds_left c < rounds_left (core pool)) (sym fresh)
                          (restart_left (core pool) (ground (arith, more))),
                    )
            ]
    ]

-- A region has fewer blocks than rounds were left for it.
region_left :
    (regions cursor blocks most : ℕ)
    → cursor < regions
    → blocks ≤ most
    → (regions - (cursor + 1)) * (most + 2) + blocks < (regions - cursor) * (most + 2)
region_left regions cursor blocks most h le =
    let d = regions - (cursor + 1) in
    let one : regions - cursor ≡ d + 1 = omega (arith, h) in
    rw one (omega (arith, le, Nat.add-mul d 1 (most + 2), Nat.one-mul (most + 2)))

pub rotation-lt : (pool : Pool) (r n : ℕ) → 0 < n → rotation pool r n < n
unfolding rotation
rotation-lt pool r n h = ground (arith, h, Nat.mod-lt (mix64 (xor64 pool.cycle_seed r)) h)

pub enter_region-IsWalk :
    (pool : Pool)
    → IsWalk (core pool)
    → pool.region_cursor < pool.geometry.regions_for_shard
    → IsWalk (core (enter_region pool))
unfolding enter_region
enter_region-IsWalk pool fit h = record {
  active = fit.active;
  block_positive = fit.block_positive;
  blocks_count = fit.blocks_count;
  blocks_bound = fit.blocks_bound;
  cursor_le = omega (arith, h);
  blocks_le = omega arith;
  inside = omega arith;
  rotated = rotation-lt pool pool.next_region (region_length pool.geometry pool.next_region);
}

pub enter_region-left :
    (pool : Pool)
    → pool.region_cursor < pool.geometry.regions_for_shard
    → rounds_left (core (enter_region pool)) < rounds_left (core pool)
unfolding enter_region
enter_region-left pool h =
    let blocks = region_length pool.geometry pool.next_region in
    let fewer =
      region_left pool.geometry.regions_for_shard pool.region_cursor blocks
        pool.geometry.blocks_per_region h (omega arith) in
    ground (arith, fewer)

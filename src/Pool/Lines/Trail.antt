-- ===== src/Pool/Lines/Trail.antt =====
-- proxypool.go: the blocks that a run over a whole cycle comes to.
use mathlib.Core.Path.{subst}
use proxykit_go.Base.{
  ℕ, ◌==◌, ◌-◌, ◌≤◌, true, false, none, List, [], ◌∷◌, ◌++◌, ltb, ◌≡◌, arith, length, sym, ◌∙◌,
  Bool-cases, inl, inr,
}
use proxykit_go.Base.Bytes.{Bytes}
use proxykit_go.Base.Indices.{indices}
use proxykit_go.Pool.Block.{Loaded, load_block}
use proxykit_go.Pool.Loads.{Loads, load_block-Loads}
use proxykit_go.Base.{Option-cases, ◌&&◌, some, ◌⊎◌}
use proxykit_go.Pool.Rounds.{block_at-inside}
use proxykit_go.Pool.State.{validate_source}
use proxykit_go.Pool.Open.{Geometry}
use proxykit_go.Pool.State.{Pool, File}
use proxykit_go.Pool.Walk.{again, leave, load_round}
use proxykit_go.Pool.Extends.{Core, core, ReadsAtMost}
use proxykit_go.Pool.Rounds.{IsWalk, block_of, passed}
use proxykit_go.Pool.Lines.Steps.{behind}
use proxykit_go.Base.{zero, suc, ◌+◌, ◌<◌, map, refl, ap, if◌then◌else◌, ◌%◌}
use proxykit_go.Base.Word.{xor64}
use proxykit_go.Pool.Sizes.{mode_sequential}
use proxykit_go.Pool.Block.{Loaded, load_block}
use proxykit_go.Pool.Loads.{Loads, load_block-Loads}
use proxykit_go.Base.{Option-cases, ◌&&◌, some, ◌⊎◌}
use proxykit_go.Pool.Rounds.{block_at-inside}
use proxykit_go.Pool.State.{validate_source}
use proxykit_go.Pool.Open.{Geometry}
use proxykit_go.Pool.State.{rotation}
use proxykit_go.Pool.Modular.{add_modulo}
use proxykit_go.Pool.Permutation.{mix64}
use proxykit_go.Pool.Walk.{
  is_continuation, visit_block, take_line, block_at, region_base, region_length, enter_region,
  visit_region,
}
use proxykit_go.Pool.Lines.Runs.{
  Runs, stops, enters, passes, takes, round-again_IsWalk, round-leave_IsWalk,
}

-- The steps of a region from `next` on.
abbrev steps_from : ℕ → ℕ → ℕ → ℕ → List ℕ
steps_from base rotated count next =
    map (λ n. block_at base rotated n count) (indices next (count - next))

abbrev rotation_of : Geometry → ℕ → ℕ → ℕ
rotation_of g seed region =
    if g.mode == mode_sequential then 0 else mix64 (xor64 seed region) % region_length g region

-- The blocks of a region.
abbrev pub region_trail : Geometry → ℕ → ℕ → List ℕ
region_trail g seed region =
    steps_from (region_base g region) (rotation_of g seed region) (region_length g region) 0

-- The blocks of `r` regions, from a region on.
abbrev pub regions_trail : Geometry → ℕ → ℕ → ℕ → ℕ → List ℕ
regions_trail g seed advance zero region = []
regions_trail g seed advance (suc r) region =
    region_trail g seed region
    ++ regions_trail g seed advance r (add_modulo region advance g.region_count)

-- The blocks that are left in a cycle.
abbrev pub trail : Pool → List ℕ
trail pool =
    steps_from pool.region_block_base pool.region_rotation pool.region_blocks pool.region_block_next
    ++ regions_trail pool.geometry pool.cycle_seed pool.region_advance
        (pool.geometry.regions_for_shard - pool.region_cursor) pool.next_region

-- The rounds of a cycle are over.
abbrev pub IsOver : Pool → Type 0
IsOver pool =
    (pool.region_blocks ≤ pool.region_block_next)
    × (pool.region_cursor ≡ pool.geometry.regions_for_shard)

over-trail : (pool : Pool) → IsOver pool → trail pool ≡ []
over-trail pool (used, last) =
    let z : pool.region_blocks - pool.region_block_next ≡ 0 = omega (arith, used) in
    let z' : pool.geometry.regions_for_shard - pool.region_cursor ≡ 0 = omega (arith, last) in
    rw (z, z') refl

-- Entering the next region leaves the same blocks.
pub enter_region-trail :
    (pool : Pool)
    → pool.region_blocks ≤ pool.region_block_next
    → pool.region_cursor < pool.geometry.regions_for_shard
    → trail pool ≡ trail (enter_region pool)
unfolding enter_region rotation
enter_region-trail pool used more =
    let z : pool.region_blocks - pool.region_block_next ≡ 0 = omega (arith, used) in
    let n : pool.geometry.regions_for_shard - pool.region_cursor
        ≡ suc (pool.geometry.regions_for_shard - (pool.region_cursor + 1)) =
      omega (arith, more) in
    rw (z, n) refl

-- A step in the region.
pub step-trail :
    (pool : Pool)
    → pool.region_block_next < pool.region_blocks
    → trail pool ≡ block_of pool ∷ trail (passed pool)
step-trail pool more =
    let n : pool.region_blocks - pool.region_block_next
        ≡ suc (pool.region_blocks - (pool.region_block_next + 1)) =
      omega (arith, more) in
    rw n refl

-- The blocks left depend on the fields that loads keep.
pub core-trail : (pool q : Pool) → core q ≡ core pool → trail q ≡ trail pool
core-trail pool q e =
    ap
      (λ (c : Core).
        steps_from c.region_block_base c.region_rotation c.region_blocks c.region_block_next
        ++ regions_trail c.geometry c.cycle_seed c.region_advance
            (c.geometry.regions_for_shard - c.region_cursor) c.next_region)
      e

pub behind-trail : (n : ℕ) (pool : Pool) → trail (behind n pool) ≡ trail pool
unfolding take_line
behind-trail zero pool = refl
behind-trail (suc n) pool = behind-trail n (take_line pool).1

-- A round on a block keeps the fields of the walk.
pub passes-core :
    (file : File) (pool q : Pool)
    → ReadsAtMost file
    → IsWalk (core pool)
    → ltb pool.region_block_next pool.region_blocks ≡ true
    → (load_round file pool ≡ again q) ⊎ (load_round file pool ≡ leave q none)
    → core q ≡ core (passed pool)
unfolding load_round visit_block
passes-core file pool q reads walk more h =
    elim (Bool-cases (is_continuation (passed pool) (block_of pool))) [
      | inl old ↦
          let result : passed pool ≡ q = ground (arith, h, more, old) in ap core (sym result)
      | inr new ↦ by_load (load_block file (block_of pool) (passed pool)) refl new (
          load_block-Loads file (block_of pool) (passed pool) reads walk.block_positive
            (block_at-inside (core pool) walk (ground (arith, more))))
    ]
  where
    by_load :
        (l : Loaded)
        → load_block file (block_of pool) (passed pool) ≡ l
        → is_continuation (passed pool) (block_of pool) ≡ false
        → Loads (core (passed pool)) (load_block file (block_of pool) (passed pool))
        → core q ≡ core (passed pool)
    by_load none e new k = absurd (ground (arith, h, more, new, e))
    by_load (some (p, some err)) e new k = absurd (ground (arith, h, more, new, e))
    by_load (some (p, none)) e new k =
        let kept = subst (λ l. Loads (core (passed pool)) l) e k in
        elim (Bool-cases (ltb 1 (length p.offsets))) [
          | inl some_lines ↦
              let result : p ≡ q = ground (arith, h, more, new, e, some_lines) in
              ap core (sym result) ∙ kept
          | inr empty ↦
              let result : p ≡ q = ground (arith, h, more, new, e, empty) in
              ap core (sym result) ∙ kept
        ]

enters-region :
    (file : File) (pool q : Pool)
    → ltb pool.region_block_next pool.region_blocks ≡ false
    → (pool.region_cursor == pool.geometry.regions_for_shard) ≡ false
    → load_round file pool ≡ again q
    → enter_region pool ≡ q
unfolding load_round visit_region
enters-region file pool q used more h =
    elim (Bool-cases
      (ltb 0 pool.region_cursor && pool.region_cursor % pool.geometry.regions_per_check == 0)) [
        | inl checks ↦ elim (Option-cases (validate_source file pool.geometry)) [
          | inr (e, changed) ↦ absurd (ground (arith, h, used, more, checks, changed))
          | inl same ↦ ground (arith, h, used, more, checks, same)
        ]
        | inr plain ↦ ground (arith, h, used, more, plain)
      ]

behind-IsWalk : (n : ℕ) (pool : Pool) → IsWalk (core pool) → IsWalk (core (behind n pool))
unfolding take_line
behind-IsWalk zero pool walk = walk
behind-IsWalk (suc n) pool walk = behind-IsWalk n (take_line pool).1 (record {
  active = walk.active;
  block_positive = walk.block_positive;
  blocks_count = walk.blocks_count;
  blocks_bound = walk.blocks_bound;
  cursor_le = walk.cursor_le;
  blocks_le = walk.blocks_le;
  inside = walk.inside;
  rotated = walk.rotated;
})

-- A run to the end of a cycle comes to the blocks that were left.
pub Runs-trail :
    {file : File} {pool last : Pool} {blocks : List ℕ} {lines : List Bytes}
    → ReadsAtMost file
    → IsWalk (core pool)
    → IsOver last
    → Runs file pool blocks lines last
    → blocks ≡ trail pool
Runs-trail {pool = pool} reads walk over stops = sym (over-trail pool over)
Runs-trail {file} {pool} reads walk over (enters {q = q} used more h rest) =
    let entered = enters-region file pool q used more h in
    Runs-trail reads (round-again_IsWalk file pool q reads walk h) over rest
    ∙ ap trail (sym entered)
    ∙ sym (enter_region-trail pool (ground (arith, used)) (ground (arith, more, walk.cursor_le)))
Runs-trail {file} {pool} reads walk over (passes {q = q} more h rest) =
    ap (◌∷◌ (block_of pool)) (
      Runs-trail reads (round-again_IsWalk file pool q reads walk h) over rest
      ∙ core-trail (passed pool) q (passes-core file pool q reads walk more (inl h)))
    ∙ sym (step-trail pool (ground (arith, more)))
Runs-trail {file} {pool} reads walk over (takes {q = q} more h rest) =
    ap (◌∷◌ (block_of pool)) (
      Runs-trail reads
        (behind-IsWalk (length q.offsets - 1) q (round-leave_IsWalk file pool q reads walk h)) over
        rest
      ∙ behind-trail (length q.offsets - 1) q
      ∙ core-trail (passed pool) q (passes-core file pool q reads walk more (inr h)))
    ∙ sym (step-trail pool (ground (arith, more)))

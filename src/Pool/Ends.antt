-- ===== src/Pool/Ends.antt =====
-- proxypool.go: loadNextBlockLocked ends, and the state that its walk needs is kept.
use native.Mathlib.Nat
use proxykit_go.Base.{
  ℕ, zero, suc, ◌+◌, ◌-◌, ◌*◌, ◌%◌, ◌≤◌, ◌<◌, true, false, ◌&&◌, Option, none, some, ltb, ◌==◌, ◌≡◌,
  refl, arith, length, Bool-cases, Option-cases, inl, inr,
}
use proxykit_go.Pool.Open.{Geometry}
use proxykit_go.Pool.State.{Pool, File, PoolError, opened_pool, validate_source}
use proxykit_go.Pool.Block.{Loaded}
use proxykit_go.Pool.Walk.{
  Round, again, leave, stuck, enter_region, visit_region, load_round, load_next_block,
  enough_rounds,
}
use proxykit_go.Pool.Extends.{core, ReadsAtMost}
use proxykit_go.Pool.Schedule.{IsGeometry}
use proxykit_go.Pool.Rounds.{
  IsWalk, rounds_left, Turns, visit_block-Turns, start_cycle-IsWalk, end_cycle-Turns,
  enter_region-IsWalk, enter_region-left,
}

visit_region-Turns :
    (file : File) (pool : Pool)
    → IsWalk (core pool)
    → pool.region_cursor < pool.geometry.regions_for_shard
    → Turns (core pool) (visit_region file pool)
unfolding visit_region
visit_region-Turns file pool fit h =
    let entered : Turns (core pool) (again (enter_region pool)) =
      (enter_region-IsWalk pool fit h, enter_region-left pool h) in
    elim (Bool-cases
      (ltb 0 pool.region_cursor && pool.region_cursor % pool.geometry.regions_per_check == 0)) [
        | inr later ↦ rw (later, visit_region) entered
        | inl now ↦ elim (Option-cases (validate_source file pool.geometry)) [
          | inr (e, changed) ↦ rw (now, visit_region, changed) (fit, λ n. cc)
          | inl same ↦ rw (now, visit_region, same) entered
        ]
      ]

pub load_round-Turns :
    (file : File) (pool : Pool)
    → ReadsAtMost file
    → IsWalk (core pool)
    → Turns (core pool) (load_round file pool)
unfolding load_round
load_round-Turns file pool reads fit =
    elim (Bool-cases (ltb pool.region_block_next pool.region_blocks)) [
      | inl inside ↦
          rw (inside, load_round) (visit_block-Turns file pool reads fit (ground (arith, inside)))
      | inr used ↦ elim (Bool-cases (pool.region_cursor == pool.geometry.regions_for_shard)) [
        | inl last ↦ rw (used, load_round, last) (end_cycle-Turns file pool fit)
        | inr more ↦
            rw (used, load_round, more)
              (visit_region-Turns file pool fit (ground (arith, more, fit.cursor_le)))
      ]
    ]

-- What a load leaves: the state, and a line where there is no error.
abbrev pub Leaves : Loaded → Type 0
Leaves none = true ≡ false
Leaves (some (p, e)) = IsWalk (core p) × (e ≡ none → 1 < length p.offsets)

load_next_block-Leaves :
    (rounds : ℕ) (file : File) (pool : Pool)
    → ReadsAtMost file
    → IsWalk (core pool)
    → rounds_left (core pool) < rounds
    → Leaves (load_next_block rounds file pool)
unfolding load_next_block
load_next_block-Leaves zero file pool reads fit h = ground (arith, h)
load_next_block-Leaves (suc rounds) file pool reads fit h =
    by_round (λ p. load_next_block-Leaves rounds file p reads) (load_round file pool) refl
      (load_round-Turns file pool reads fit)
  where
    by_round :
        ((p : Pool)
          → IsWalk (core p)
          → rounds_left (core p) < rounds
          → Leaves (load_next_block rounds file p))
        → (r : Round) → load_round file pool ≡ r
        → Turns (core pool) r
        → Leaves (load_next_block (suc rounds) file pool)
    by_round rest (again p) e t = rw (e, load_next_block) (rest p t.0 (omega (arith, t.1, h)))
    by_round rest (leave p err) e t = rw (e, load_next_block) t
    by_round rest stuck e t = ground (arith, t)

enough_rounds_lem :
    (pool : Pool) → IsWalk (core pool) → rounds_left (core pool) < enough_rounds pool
enough_rounds_lem pool fit =
    let regions = pool.geometry.regions_for_shard in
    let width = pool.geometry.blocks_per_region + 2 in
    let fewer : regions - pool.region_cursor ≤ regions = omega arith in
    let some_regions = Nat.mul-le-mul_right width fewer in
    let whole : (regions + 1) * width ≡ regions * width + width =
      omega (arith, Nat.add-mul regions 1 width, Nat.one-mul width) in
    let twice = Nat.mul_assoc 2 (regions + 1) width in
    ground (arith, some_regions, whole, twice, fit.blocks_le)

-- loadNextBlockLocked ends: the rounds that the model grants are enough for every file whose reads
-- return no more than was asked for, and in every state that is kept. It returns an error or a block
-- with a line, and keeps the state.
pub load_next_block-total :
    (file : File) (pool : Pool)
    → ReadsAtMost file
    → IsWalk (core pool)
    → (p : Pool) × (e : Option PoolError) × (load_next_block (enough_rounds pool) file pool
        ≡ some (p, e))
      × IsWalk (core p)
      × (e ≡ none → 1 < length p.offsets)
load_next_block-total file pool reads fit =
    by_result (load_next_block (enough_rounds pool) file pool) refl
      (load_next_block-Leaves (enough_rounds pool) file pool reads fit (enough_rounds_lem pool fit))
  where
    by_result :
        (l : Loaded)
        → load_next_block (enough_rounds pool) file pool ≡ l
        → Leaves l
        → (p : Pool) × (e : Option PoolError) × (load_next_block (enough_rounds pool) file pool
            ≡ some (p, e))
          × IsWalk (core p)
          × (e ≡ none → 1 < length p.offsets)
    by_result none h k = ground (arith, k)
    by_result (some (p, e)) h k = (p, e, h, k.0, k.1)

-- The state of a pool that has been opened is one that is kept.
pub opened_pool-IsWalk : (g : Geometry) → IsGeometry g → IsWalk (core (opened_pool g))
unfolding opened_pool
opened_pool-IsWalk g fit = start_cycle-IsWalk 0 _ (record {
  active = refl;
  block_positive = fit.block_positive;
  blocks_count = fit.blocks_count;
  blocks_bound = fit.blocks_bound;
  cursor_le = omega arith;
  blocks_le = omega arith;
  inside = omega arith;
  rotated = λ h. omega (arith, h);
})

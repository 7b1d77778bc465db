-- ===== src/Pool/Walk.antt =====
-- proxypool.go: loadNextBlockLocked, nextLineLocked, nextLocked, upcomingBlocksLocked and Next, over
-- regions, blocks and lines.
use proxykit_go.Base.{
  ℕ, zero, suc, ◌+◌, ◌-◌, ◌*◌, ◌%◌, min, Bool, not, ◌||◌, ◌&&◌, Option, none, some, List, [], ◌∷◌,
  ltb, leb, ◌==◌, if◌then◌else◌, length, get_or, take,
}
use proxykit_go.Base.Bytes.{Bytes}
use proxykit_go.Pool.Sizes.{carriage_return}
use proxykit_go.Pool.Open.{Geometry}
use proxykit_go.Pool.State.{
  Pool, File, PoolError, end_of_file, closed_pool, validate_source, start_cycle, rotation,
}
use proxykit_go.Pool.Modular.{add_modulo}
use proxykit_go.Pool.Permutation.{advance}
use proxykit_go.Pool.Extend.{piece}
use proxykit_go.Pool.Block.{Loaded, load_block}

-- The block at step `next` of a region.
abbrev pub block_at : ℕ → ℕ → ℕ → ℕ → ℕ
block_at base rotated next count = base + add_modulo rotated next count

-- Whether the block is filled by a line that has been read already.
abbrev pub is_continuation : Pool → ℕ → Bool
is_continuation pool block = leb pool.continuation_start block && ltb block pool.continuation_end

abbrev pub region_base : Geometry → ℕ → ℕ
region_base g region = region * g.blocks_per_region

abbrev pub region_length : Geometry → ℕ → ℕ
region_length g region = min g.blocks_per_region (g.block_count - region_base g region)

-- The next region is entered.
unfoldable pub enter_region : Pool → Pool
enter_region pool =
    let g = pool.geometry in
    let region = pool.next_region in
    record pool {
      region_cursor = pool.region_cursor + 1;
      next_region = add_modulo region pool.region_advance g.region_count;
      region_block_base = region_base g region;
      region_blocks = region_length g region;
      region_block_next = 0;
      region_rotation = rotation pool region (region_length g region);
    }

-- A round of loadNextBlockLocked: the loop goes on, it ends, or a load has run out of rounds.
pub data Round : Type 0 where
  again : Pool → Round
  leave : Pool → Option PoolError → Round
  stuck : Round

-- A block of the region is loaded, unless a line has filled it.
unfoldable pub visit_block : File → Pool → Round
visit_block file pool =
    let block =
      block_at pool.region_block_base pool.region_rotation pool.region_block_next
        pool.region_blocks in
    let passed = record pool { region_block_next = pool.region_block_next + 1 } in
    if is_continuation passed block then again passed else elim (load_block file block passed) [
      | none ↦ stuck
      | some (p, e) ↦ elim e [
        | some err ↦ leave p (some err)
        | none ↦ if ltb 1 (length p.offsets) then leave p none else again p
      ]
    ]

-- All regions have been visited: the end, or another cycle.
unfoldable pub end_cycle : File → Pool → Round
end_cycle file pool = elim (validate_source file pool.geometry) [
  | some e ↦ leave pool (some e)
  | none ↦
      if not pool.geometry.reuse
        || pool.geometry.file_size == 0
        || pool.cursor == pool.cycle_start_cursor
      then leave pool (some end_of_file)
      else again (start_cycle (pool.cycle + 1) pool)
]

-- The next region, behind a look at the source's metadata after so many regions.
unfoldable pub visit_region : File → Pool → Round
visit_region file pool =
    if ltb 0 pool.region_cursor && pool.region_cursor % pool.geometry.regions_per_check == 0
    then elim (validate_source file pool.geometry) [
      | some e ↦ leave pool (some e)
      | none ↦ again (enter_region pool)
    ]
    else again (enter_region pool)

-- The body of the loop.
unfoldable pub load_round : File → Pool → Round
load_round file pool =
    if ltb pool.region_block_next pool.region_blocks
    then visit_block file pool
    else if pool.region_cursor == pool.geometry.regions_for_shard
    then end_cycle file pool
    else visit_region file pool

-- `loadNextBlockLocked`, on fuel; `none` would mean that the rounds ran out.
unfoldable pub load_next_block : ℕ → File → Pool → Loaded
load_next_block zero file pool = none
load_next_block (suc rounds) file pool = elim (load_round file pool) [
  | stuck ↦ none
  | leave p e ↦ some (p, e)
  | again p ↦ load_next_block rounds file p
]

-- The rounds that are enough: each region of two cycles, with its blocks, and their ends.
abbrev pub enough_rounds : Pool → ℕ
enough_rounds pool =
    2 * (pool.geometry.regions_for_shard + 1) * (pool.geometry.blocks_per_region + 2)

-- A line without the carriage return that ends it.
unfoldable pub trim_return : Bool → Bytes → Bytes
trim_return cr line =
    if cr && not (length line == 0) && get_or line (length line - 1) 0 == carriage_return
    then take (length line - 1) line
    else line

-- The line of an index, between its offsets.
unfoldable pub line_at : Pool → ℕ → Bytes
line_at pool index =
    trim_return pool.cr
      (piece pool.buffer (get_or pool.offsets index 0) (get_or pool.offsets (index + 1) 0 - 1))

-- The part of `nextLineLocked` behind its loop: the line, and the cursors moved on.
unfoldable pub take_line : Pool → Bytes × Pool
take_line pool = (
  line_at pool pool.next_line,
  record pool {
    next_line = advance (length pool.offsets - 1) pool.line_step pool.next_line;
    line_cursor = pool.line_cursor + 1;
    cursor = pool.cursor + 1;
  },
)

-- A line or an error.
pub data Taken : Type 0 where
  line : Bytes → Taken
  problem : PoolError → Taken

-- `nextLineLocked`. A load without an error leaves a line to take, so that the loop loads once.
unfoldable pub next_line_locked : File → Pool → Option (Pool × Taken)
next_line_locked file pool =
    if ltb pool.line_cursor (length pool.offsets - 1)
    then (let (l, p) = take_line pool in some (p, line l))
    else elim (load_next_block (enough_rounds pool) file pool) [
      | none ↦ none
      | some (p, e) ↦ elim e [
        | some err ↦ some (p, problem err)
        | none ↦ let (l, p') = take_line p in some (p', line l)
      ]
    ]

-- `nextLocked`, which Next and NextBytes return from: an error stays.
unfoldable pub next : File → Pool → Option (Pool × Taken)
next file pool = if not pool.active then some (pool, problem closed_pool) else elim pool.terminal [
  | some e ↦ some (pool, problem e)
  | none ↦ elim (next_line_locked file pool) [
    | none ↦ none
    | some (p, t) ↦ elim t [
      | line l ↦ some (p, line l)
      | problem e ↦ some (record p { terminal = some e }, problem e)
    ]
  ]
]

-- The variables of upcomingBlocksLocked.
pub record Upcoming : Type 0 where
  pub block_next : ℕ
  pub count : ℕ
  pub base : ℕ
  pub rotated : ℕ
  pub region_cursor : ℕ
  pub region : ℕ

unfoldable pub upcoming_start : Pool → Upcoming
upcoming_start pool = record {
  block_next = pool.region_block_next;
  count = pool.region_blocks;
  base = pool.region_block_base;
  rotated = pool.region_rotation;
  region_cursor = pool.region_cursor;
  region = pool.next_region;
}

-- Into the next region, where the present one is used up.
unfoldable pub upcoming_region : Pool → Upcoming → Upcoming
upcoming_region pool u =
    if u.block_next == u.count
    then record {
      block_next = 0;
      count = region_length pool.geometry u.region;
      base = region_base pool.geometry u.region;
      rotated = rotation pool u.region (region_length pool.geometry u.region);
      region_cursor = u.region_cursor + 1;
      region = add_modulo u.region pool.region_advance pool.geometry.region_count;
    }
    else u

-- The loop of `upcomingBlocksLocked`, on fuel: at most `wanted` blocks.
unfoldable pub upcoming_loop : ℕ → ℕ → Pool → Upcoming → List ℕ
upcoming_loop zero wanted pool u = []
upcoming_loop (suc rounds) zero pool u = []
upcoming_loop (suc rounds) (suc wanted) pool u =
    let v = upcoming_region pool u in
    let block = block_at v.base v.rotated v.block_next v.count in
    let passed = record v { block_next = v.block_next + 1 } in
    let skipped = upcoming_loop rounds (suc wanted) pool passed in
    let taken = upcoming_loop rounds wanted pool passed in
    if u.block_next == u.count && u.region_cursor == pool.geometry.regions_for_shard
    then []
    else if is_continuation pool block
    then skipped
    else block ∷ taken

-- `upcomingBlocksLocked`; a round passes a block of the shard.
unfoldable pub upcoming_blocks : ℕ → Pool → List ℕ
upcoming_blocks wanted pool = upcoming_loop (enough_rounds pool) wanted pool (upcoming_start pool)

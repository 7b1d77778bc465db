-- ===== src/Pool/State.antt =====
-- proxypool.go: the state of a pool, startCycleLocked, validateSourceLocked, rotationLocked,
-- lookaheadBytes, blockReadRange, Reset and Close.
use proxykit_go.Base.{
  ℕ, ◌+◌, ◌-◌, ◌*◌, ◌/◌, ◌%◌, min, Bool, true, false, not, ◌||◌, Option, none, some, List, [], ◌==◌,
  if◌then◌else◌,
}
use proxykit_go.Base.Bytes.{Bytes}
use proxykit_go.Base.Word.{add64, mul64, xor64}
use proxykit_go.Pool.Sizes.{mode_sequential, tail_read_bytes}
use proxykit_go.Pool.Open.{Info, Geometry}
use proxykit_go.Pool.Modular.{add_modulo, multiply_modulo}
use proxykit_go.Pool.Permutation.{mix64, mix_increment, permutation_params}

-- The errors of the operations. A read error carries the position that its message names.
pub data PoolError : Type 0 where
  end_of_file closed_pool source_changed stat_failed nil_batch : PoolError
  line_too_long read_failed unexpected_end extend_failed extend_short : ℕ → PoolError

-- The error of a read beside its bytes; `at_end` is `io.EOF`.
pub data ReadError : Type 0 where
  no_error at_end fault : ReadError

-- What the operating system answers about the open file: `file.Stat`, where `none` is an error,
-- and `file.ReadAt` for an offset and a length.
pub record File : Type 0 where
  pub stat : Option Info
  pub read_at : ℕ → ℕ → Bytes × ReadError

-- The state that changes. `active` says that the pool has its file and is not closed. The fields
-- for reads ahead are left out: the pool is one without Options.Prefetch.
pub record Pool : Type 0 where
  pub geometry : Geometry
  pub active : Bool
  pub terminal : Option PoolError
  pub buffer : Bytes
  pub offsets : List ℕ
  pub region_cursor : ℕ
  pub next_region : ℕ
  pub region_step : ℕ
  pub region_advance : ℕ
  pub region_block_base : ℕ
  pub region_blocks : ℕ
  pub region_block_next : ℕ
  pub region_rotation : ℕ
  pub carried_block : ℕ
  pub carried : ℕ
  pub continuation_start : ℕ
  pub continuation_end : ℕ
  pub line_cursor : ℕ
  pub next_line : ℕ
  pub line_step : ℕ
  pub cursor : ℕ
  pub cycle_start_cursor : ℕ
  pub cycle : ℕ
  pub cycle_seed : ℕ
  pub cr : Bool

-- The first region of a cycle, and the step between two of the shard's regions.
unfoldable pub start_regions : Geometry → ℕ → Pool → Pool
start_regions g cycle_seed pool =
    let p = permutation_params g.region_count cycle_seed in
    if g.region_count == 0
    then record pool { next_region = 0; region_step = 0; region_advance = 0 }
    else if g.mode == mode_sequential
    then record pool { next_region = 0; region_step = 1; region_advance = 1 }
    else record pool {
      region_step = p.step;
      next_region =
          add_modulo p.start (multiply_modulo p.step g.shard_index g.region_count) g.region_count;
      region_advance = multiply_modulo p.step g.shard_count g.region_count;
    }

-- `startCycleLocked`
unfoldable pub start_cycle : ℕ → Pool → Pool
start_cycle cycle pool =
    let seed = mix64 (add64 pool.geometry.seed (mul64 cycle mix_increment)) in
    start_regions pool.geometry seed (record pool {
      cycle = cycle;
      cycle_start_cursor = pool.cursor;
      cycle_seed = seed;
      region_cursor = 0;
      region_block_next = 0;
      region_blocks = 0;
      continuation_start = 0;
      continuation_end = 0;
      line_cursor = 0;
      next_line = 0;
      offsets = [];
      cr = false;
    })

-- The pool that `Open` makes of its geometry.
unfoldable pub opened_pool : Geometry → Pool
opened_pool g = start_cycle 0 (record {
  geometry = g;
  active = true;
  terminal = none;
  buffer = [];
  offsets = [];
  region_cursor = 0;
  next_region = 0;
  region_step = 0;
  region_advance = 0;
  region_block_base = 0;
  region_blocks = 0;
  region_block_next = 0;
  region_rotation = 0;
  carried_block = 0;
  carried = 0;
  continuation_start = 0;
  continuation_end = 0;
  line_cursor = 0;
  next_line = 0;
  line_step = 0;
  cursor = 0;
  cycle_start_cursor = 0;
  cycle = 0;
  cycle_seed = 0;
  cr = false;
})

-- `validateSourceLocked` of a pool that has its file.
unfoldable pub validate_source : File → Geometry → Option PoolError
validate_source file g = elim file.stat [
  | none ↦ some stat_failed
  | some info ↦
      if not (info.size == g.file_size) || not (info.mod_time == g.modified)
      then some source_changed
      else none
]

-- `rotationLocked`
unfoldable pub rotation : Pool → ℕ → ℕ → ℕ
rotation pool region blocks =
    if pool.geometry.mode == mode_sequential
    then 0
    else mix64 (xor64 pool.cycle_seed region) % blocks

-- `lookaheadBytes`
unfoldable pub lookahead_bytes : Geometry → ℕ
lookahead_bytes g = min (min tail_read_bytes (g.max_line_bytes + 2)) (g.block_bytes / 8)

-- The results of `blockReadRange`. `block_start` is `readOffset + 1`.
pub record ReadRange : Type 0 where
  pub block_start : ℕ
  pub skip : ℕ
  pub ownership_end : ℕ
  pub read_bytes : ℕ

-- `blockReadRange`
unfoldable pub block_read_range : Geometry → ℕ → ℕ → ReadRange
block_read_range g block carried =
    let start = block * g.block_bytes in
    let base = min g.block_bytes (g.file_size - start) in
    record {
      block_start = start;
      skip = if block == 0 || block == carried then 1 else 0;
      ownership_end = 1 + base;
      read_bytes = 1 + base + min (lookahead_bytes g) (g.file_size - start - base);
    }

-- `Reset`, with its error.
unfoldable pub reset_pool : File → Pool → Pool × Option PoolError
reset_pool file pool =
    if not pool.active
    then (pool, some closed_pool)
    else elim (validate_source file pool.geometry) [
      | some e ↦ (record pool { terminal = some e }, some e)
      | none ↦ (start_cycle 0 (record pool { cursor = 0; terminal = none }), none)
    ]

-- `Close`; whatever error the file's own Close returns is passed on and not modelled.
unfoldable pub close_pool : Pool → Pool
close_pool pool =
    if not pool.active
    then pool
    else record pool { active = false; terminal = none; buffer = []; offsets = [] }

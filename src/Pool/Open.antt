-- ===== src/Pool/Open.antt =====
-- proxypool.go: Options, and what Open computes from them and from the file's metadata, up to the
-- first cycle.
use proxykit_go.Base.{
  ℕ, ◌+◌, ◌-◌, ◌*◌, ◌/◌, ◌^◌, max, Bool, not, ◌||◌, ◌&&◌, ltb, leb, ◌==◌, if◌then◌else◌,
}
use proxykit_go.Pool.Sizes.{
  ℤ, pos, negsuc, Mode, mode_sequential, is_valid_mode, positive_or_default, at_least_one,
  shard_item_count, ceiling_quotient, buffer_bytes, max_int, default_sequential_buffer_bytes,
  default_block_bytes, default_region_bytes, default_max_line_bytes,
}
use proxykit_go.Pool.Permutation.{mix_increment}

pub record Options : Type 0 where
  pub sequential_buffer_bytes : ℤ
  pub block_bytes : ℤ
  pub region_bytes : ℤ
  pub max_line_bytes : ℤ
  pub seed : ℕ
  pub shard_count : ℤ
  pub shard_index : ℤ
  pub mode : Mode
  pub reuse : Bool

-- The errors of `Open`, but those of the file system.
pub data OpenError : Type 0 where
  invalid_mode not_regular shard_index_outside sequential_sharding reuse_sharding : OpenError
  max_line_overflow sizes_overflow sizes_exceed_offsets buffer_overflow : OpenError
  region_too_small region_overflow : OpenError

-- The fields of a pool that Open sets and nothing changes later.
pub record Geometry : Type 0 where
  pub file_size : ℕ
  pub modified : ℕ
  pub region_bytes : ℕ
  pub regions_per_check : ℕ
  pub seed : ℕ
  pub block_bytes : ℕ
  pub max_line_bytes : ℕ
  pub shard_count : ℕ
  pub shard_index : ℕ
  pub mode : Mode
  pub reuse : Bool
  pub block_count : ℕ
  pub blocks_per_region : ℕ
  pub region_count : ℕ
  pub regions_for_shard : ℕ

pub data Opened : Type 0 where
  opened : Geometry → Opened
  rejected : OpenError → Opened

-- `file.Stat`: the size, the modification time and whether the file is a regular one.
pub record Info : Type 0 where
  pub size : ℕ
  pub mod_time : ℕ
  pub regular : Bool

-- The block size and the region size that the options ask for.
abbrev pub block_size : Options → ℕ
block_size options =
    if options.mode == mode_sequential
    then positive_or_default options.sequential_buffer_bytes default_sequential_buffer_bytes
    else positive_or_default options.block_bytes default_block_bytes

abbrev pub region_size : Options → ℕ
region_size options =
    if options.mode == mode_sequential
    then max default_region_bytes (block_size options)
    else positive_or_default options.region_bytes default_region_bytes

-- The seed; `random` is what `rand.Uint64` returns.
abbrev pub chosen_seed : Options → ℕ → ℕ
chosen_seed options random =
    if options.mode == mode_sequential
    then 0
    else if not (options.seed == 0)
    then options.seed
    else if random == 0
    then mix_increment
    else random

-- The geometry of a pool whose options have passed the checks.
unfoldable pub geometry : Options → Info → ℕ → ℕ → Geometry
geometry options info random shard_index =
    let block = block_size options in
    let blocks_per_region = region_size options / block in
    let region_bytes = blocks_per_region * block in
    let block_count = ceiling_quotient info.size block in
    let region_count = ceiling_quotient block_count blocks_per_region in
    record {
      file_size = info.size;
      modified = info.mod_time;
      region_bytes = region_bytes;
      regions_per_check = max 1 (default_region_bytes / region_bytes);
      seed = chosen_seed options random;
      block_bytes = block;
      max_line_bytes = positive_or_default options.max_line_bytes default_max_line_bytes;
      shard_count = at_least_one options.shard_count;
      shard_index = shard_index;
      mode = options.mode;
      reuse = options.reuse;
      block_count = block_count;
      blocks_per_region = blocks_per_region;
      region_count = region_count;
      regions_for_shard =
          shard_item_count region_count (at_least_one options.shard_count) shard_index;
    }

-- The checks of `Open` on the sizes.
unfoldable pub check_sizes : Options → Info → ℕ → ℕ → Opened
check_sizes options info random shard_index =
    let line = positive_or_default options.max_line_bytes default_max_line_bytes in
    let block = block_size options in
    let region = region_size options in
    if ltb (max_int - 2) line
    then rejected max_line_overflow
    else if ltb (max_int - line - 3) block
    then rejected sizes_overflow
    else if ltb (2 ^ 32 - 1) (block + line + 3)
    then rejected sizes_exceed_offsets
    else if ltb max_int (buffer_bytes (block + line + 3))
    then rejected buffer_overflow
    else if ltb region block
    then rejected region_too_small
    else if ltb (max_int / block) (region / block)
    then rejected region_overflow
    else opened (geometry options info random shard_index)

-- `Open`, behind the opening of the file.
unfoldable pub open_pool : Options → Info → ℕ → Opened
open_pool options info random =
    let shards = at_least_one options.shard_count in
    if not (is_valid_mode options.mode)
    then rejected invalid_mode
    else if not info.regular
    then rejected not_regular
    else elim options.shard_index [
      | negsuc n ↦ rejected shard_index_outside
      | pos index ↦
          if leb shards index
          then rejected shard_index_outside
          else if options.mode == mode_sequential && (not (shards == 1) || not (index == 0))
          then rejected sequential_sharding
          else if options.reuse && ltb 1 shards
          then rejected reuse_sharding
          else check_sizes options info random index
    ]

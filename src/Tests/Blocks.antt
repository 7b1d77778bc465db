-- ===== src/Tests/Blocks.antt =====
-- proxypool.go: the blocks and lines of a concrete file.
use mathlib.Core.List.{Perm}
use mathlib.Core.List.Perm
use proxykit_go.Base.{
  ◌-◌, ◌*◌, true, false, ◌≡◌, refl, arith, [], ◌∷◌, some, none, take, drop, length, length-take,
  min,
}
use proxykit_go.Base.Bytes.{Bytes, codes, index_byte}
use proxykit_go.Pool.Sizes.{
  newline, mode_sequential, ceiling_quotient, shard_item_count, exceeds_line_limit,
}
use proxykit_go.Pool.Open.{Geometry}
use proxykit_go.Pool.State.{
  Pool, File, no_error, opened_pool, start_cycle, start_regions, block_read_range, lookahead_bytes,
  rotation, validate_source,
}
use proxykit_go.Pool.Schedule.{IsGeometry}
use proxykit_go.Pool.Extends.{ReadsAtMost}
use proxykit_go.Pool.Ends.{opened_pool-IsWalk}
use proxykit_go.Pool.Walk.{
  load_round, visit_block, visit_region, enter_region, take_line, line_at, trim_return,
}
use proxykit_go.Pool.Block.{
  load_block, block_error, fill_block, first_line, index_lines, continue_line, close_line,
  order_lines,
}
use proxykit_go.Pool.Extend.{
  line_ends, has_crlf, check_line_limit, first_too_long, max_gap, terminate, extend_line,
  extend_loop, extend_bytes, extend_error, finish_line, accept_line,
}
use proxykit_go.Pool.Modular.{add_modulo}
use proxykit_go.Pool.Permutation.{advance, permutation_params}
use proxykit_go.Pool.Lines.Keeps.{IsReader}
use proxykit_go.Pool.Lines.Runs.{Runs, stops, enters, passes, takes, Runs-split_lines}
use proxykit_go.Pool.Lines.Reference.{split_lines, block_lines}
use proxykit_go.Pool.Lines.Reads.{IsCarried}
use proxykit_go.Pool.Lines.Loading.{loaded_lines, load_block-block_lines}
use proxykit_go.Pool.Lines.Takes.{load_block-HasLines}
use proxykit_go.Pool.HandOver.{HasLines}
use proxykit_go.Pool.Lines.Readers.{HasRead}
use proxykit_go.Pool.Lines.Ordered.{HasRead-in_order}

-- A file of 14 bytes in blocks of 4; its third line fills a block.
abbrev pub text : Bytes
text = b'a' ∷ 10 ∷ b'b' ∷ 13 ∷ 10 ∷ b'c' ∷ b'c' ∷ b'c' ∷ b'c' ∷ b'c' ∷ b'c' ∷ b'c' ∷ 10 ∷ b'd' ∷ []

abbrev pub in_blocks : Geometry
in_blocks = record {
  file_size = 14;
  modified = 1;
  region_bytes = 16;
  regions_per_check = 1000;
  seed = 7;
  block_bytes = 4;
  max_line_bytes = 80;
  shard_count = 1;
  shard_index = 0;
  mode = mode_sequential;
  reuse = false;
  block_count = 4;
  blocks_per_region = 4;
  region_count = 1;
  regions_for_shard = 1;
}

abbrev pub text_file : File
text_file = record {
  stat = some (record { size = 14; mod_time = 1; regular = true });
  read_at = λ offset n. (take n (drop offset text), no_error);
}

pub text_file_reads : ReadsAtMost text_file
text_file_reads offset n = omega (arith, length-take n (drop offset text))

pub in_blocks-IsGeometry : IsGeometry in_blocks
unfolding ceiling_quotient shard_item_count
in_blocks-IsGeometry = record {
  block_positive = omega arith;
  blocks_positive = omega arith;
  blocks_bound = omega arith;
  blocks_count = refl;
  regions_count = refl;
  shards_positive = omega arith;
  shards_bound = omega arith;
  shard_lt = omega arith;
  regions_shard = refl;
}

text-IsReader : IsReader text_file text (opened_pool in_blocks)
unfolding opened_pool start_cycle start_regions
text-IsReader = record {
  walk = opened_pool-IsWalk in_blocks in_blocks-IsGeometry;
  holds = record { size = refl; reads = λ offset n h. refl };
  carried = λ pos inside. absurd (omega (arith, pos));
  skips = λ b lo hi. absurd (omega (arith, hi));
}

-- The pool behind the two lines of the first block.
abbrev first_taken : Pool
first_taken = record (opened_pool in_blocks) {
  buffer = newline ∷ b'a' ∷ 10 ∷ b'b' ∷ 13 ∷ 10 ∷ [];
  offsets = 1 ∷ 3 ∷ 6 ∷ [];
  region_cursor = 1;
  region_blocks = 4;
  region_block_next = 1;
  carried_block = 1;
  carried = 13;
  continuation_start = 1;
  continuation_end = 1;
  line_cursor = 2;
  line_step = 1;
  cursor = 2;
  cr = true;
}

-- The pool behind the line of the second block, which fills the third.
abbrev second_taken : Pool
second_taken = record first_taken {
  buffer = 13 ∷ 10 ∷ b'c' ∷ b'c' ∷ b'c' ∷ b'c' ∷ b'c' ∷ b'c' ∷ b'c' ∷ 10 ∷ [];
  offsets = 2 ∷ 10 ∷ [];
  region_block_next = 2;
  carried_block = 2;
  carried = b'c';
  continuation_start = 2;
  continuation_end = 3;
  line_cursor = 1;
  cursor = 3;
  cr = false;
}

-- The pool behind the last line.
abbrev third_taken : Pool
third_taken = record second_taken {
  buffer = b'c' ∷ 10 ∷ b'd' ∷ 10 ∷ [];
  offsets = 2 ∷ 4 ∷ [];
  region_block_next = 4;
  carried_block = 4;
  carried = b'd';
  line_cursor = 1;
  cursor = 4;
}

last_run : Runs text_file second_taken (2 ∷ 3 ∷ []) (codes "d" ∷ []) third_taken
unfolding load_round visit_block visit_region enter_region take_line line_at trim_return load_block
    block_error fill_block first_line index_lines continue_line close_line order_lines
    first_too_long exceeds_line_limit permutation_params line_ends has_crlf check_line_limit max_gap
    terminate extend_line extend_loop extend_bytes extend_error finish_line accept_line add_modulo
    advance opened_pool start_cycle start_regions block_read_range lookahead_bytes rotation
    validate_source index_byte
last_run = passes refl refl (takes refl refl stops)

second_run :
    Runs text_file first_taken (1 ∷ 2 ∷ 3 ∷ []) (codes "ccccccc" ∷ codes "d" ∷ []) third_taken
unfolding load_round visit_block visit_region enter_region take_line line_at trim_return load_block
    block_error fill_block first_line index_lines continue_line close_line order_lines
    first_too_long exceeds_line_limit permutation_params line_ends has_crlf check_line_limit max_gap
    terminate extend_line extend_loop extend_bytes extend_error finish_line accept_line add_modulo
    advance opened_pool start_cycle start_regions block_read_range lookahead_bytes rotation
    validate_source index_byte
second_run = takes refl refl last_run

text_run :
    Runs text_file
      (opened_pool in_blocks)
      (0 ∷ 1 ∷ 2 ∷ 3 ∷ [])
      (codes "a" ∷ codes "b" ∷ codes "ccccccc" ∷ codes "d" ∷ [])
      third_taken
unfolding load_round visit_block visit_region enter_region take_line line_at trim_return load_block
    block_error fill_block first_line index_lines continue_line close_line order_lines
    first_too_long exceeds_line_limit permutation_params line_ends has_crlf check_line_limit max_gap
    terminate extend_line extend_loop extend_bytes extend_error finish_line accept_line add_modulo
    advance opened_pool start_cycle start_regions block_read_range lookahead_bytes rotation
    validate_source index_byte
text_run = enters refl refl refl (takes refl refl second_run)

text_lines : split_lines [] text ≡ codes "a" ∷ codes "b" ∷ codes "ccccccc" ∷ codes "d" ∷ []
text_lines = refl

Runs-split_lines_example :
    Perm (codes "a" ∷ codes "b" ∷ codes "ccccccc" ∷ codes "d" ∷ []) (split_lines [] text)
unfolding opened_pool start_cycle start_regions
Runs-split_lines_example =
    Runs-split_lines text_file text (opened_pool in_blocks) third_taken (0 ∷ 1 ∷ 2 ∷ 3 ∷ [])
      (codes "a" ∷ codes "b" ∷ codes "ccccccc" ∷ codes "d" ∷ []) text_file_reads text-IsReader
      text_run (Perm.refl (0 ∷ 1 ∷ 2 ∷ 3 ∷ []))

-- The pool behind the load of the second block.
abbrev second : Pool
second = record (opened_pool in_blocks) {
  buffer = 13 ∷ 10 ∷ b'c' ∷ b'c' ∷ b'c' ∷ b'c' ∷ b'c' ∷ b'c' ∷ b'c' ∷ 10 ∷ [];
  offsets = 2 ∷ 10 ∷ [];
  carried_block = 2;
  carried = b'c';
  continuation_start = 2;
  continuation_end = 3;
  line_step = 1;
}

second_loaded : load_block text_file 1 (opened_pool in_blocks) ≡ some (second, none)
unfolding trim_return load_block block_error fill_block first_line index_lines continue_line
    close_line order_lines first_too_long exceeds_line_limit permutation_params line_ends has_crlf
    check_line_limit max_gap terminate extend_line extend_loop extend_bytes extend_error finish_line
    accept_line opened_pool start_cycle start_regions block_read_range lookahead_bytes index_byte
second_loaded = refl

load_block-block_lines_example :
    (loaded_lines second ≡ block_lines text (1 * 4) (min 4 (length text - 1 * 4)))
    × IsCarried text second
unfolding opened_pool start_cycle start_regions
load_block-block_lines_example =
    load_block-block_lines text_file text 1 (opened_pool in_blocks) second text-IsReader.holds
      text-IsReader.carried (omega arith) (omega arith) second_loaded

load_block-HasLines_example : HasLines second
unfolding opened_pool start_cycle start_regions
load_block-HasLines_example =
    load_block-HasLines text_file text 1 (opened_pool in_blocks) second text-IsReader.holds
      text-IsReader.carried (omega arith) (omega arith) second_loaded (omega arith)

text_read : HasRead text_file in_blocks (codes "a" ∷ codes "b" ∷ codes "ccccccc" ∷ codes "d" ∷ [])
unfolding opened_pool start_cycle start_regions
text_read = (0 ∷ 1 ∷ 2 ∷ 3 ∷ [], third_taken, text_run, (omega arith, refl))

HasRead-in_order_example :
    codes "a" ∷ codes "b" ∷ codes "ccccccc" ∷ codes "d" ∷ [] ≡ split_lines [] text
HasRead-in_order_example =
    HasRead-in_order text_file text in_blocks
      (codes "a" ∷ codes "b" ∷ codes "ccccccc" ∷ codes "d" ∷ []) text_file_reads
      (record { size = refl; reads = λ offset n h. refl }) in_blocks-IsGeometry refl refl text_read

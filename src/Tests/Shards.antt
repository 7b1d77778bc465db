-- ===== src/Tests/Shards.antt =====
-- proxypool.go: two pools that share a concrete file.
use mathlib.Core.List.{Perm}
use proxykit_go.Base.{true, refl, arith, [], ◌∷◌}
use proxykit_go.Base.Bytes.{Bytes, codes, index_byte}
use proxykit_go.Pool.Sizes.{ceiling_quotient, shard_item_count, exceeds_line_limit}
use proxykit_go.Pool.Open.{Geometry}
use proxykit_go.Pool.State.{
  Pool, opened_pool, start_cycle, start_regions, block_read_range, lookahead_bytes, rotation,
  validate_source,
}
use proxykit_go.Pool.Schedule.{IsGeometry}
use proxykit_go.Pool.Walk.{
  load_round, visit_block, visit_region, enter_region, take_line, line_at, trim_return,
}
use proxykit_go.Pool.Block.{
  load_block, block_error, fill_block, first_line, index_lines, continue_line, close_line,
  order_lines,
}
use proxykit_go.Pool.Extend.{
  line_ends, has_crlf, check_line_limit, first_too_long, max_gap, terminate, extend_line,
  extend_loop, extend_bytes, extend_error, finish_line, accept_line,
}
use proxykit_go.Base.{ℕ, zero, suc, List, ◌<◌}
use proxykit_go.Pool.Permutation.{coprime_step}
use proxykit_go.Pool.Modular.{add_modulo, multiply_modulo, multiply_loop, greatest_common_divisor}
use proxykit_go.Pool.Permutation.{advance, permutation_params}
use proxykit_go.Pool.Lines.Runs.{Runs, stops, enters, passes, takes}
use proxykit_go.Pool.Lines.Reference.{split_lines}
use proxykit_go.Pool.Sizes.{mode_shuffled}
use proxykit_go.Pool.Permutation.{mix64}
use proxykit_go.Pool.Schedule.{of_shard}
use proxykit_go.Pool.Lines.Readers.{HasRead, HasRead-split_lines}
use proxykit_go.Tests.Blocks.{text, text_file, text_file_reads, in_blocks}

abbrev pub shared : Geometry
shared = record in_blocks {
  mode = mode_shuffled;
  shard_count = 2;
  blocks_per_region = 2;
  region_count = 2;
  region_bytes = 8;
}

pub shared-IsGeometry : IsGeometry shared
unfolding ceiling_quotient shard_item_count
shared-IsGeometry = record {
  block_positive = omega arith;
  blocks_positive = omega arith;
  blocks_bound = omega arith;
  blocks_count = refl;
  regions_count = refl;
  shards_positive = omega arith;
  shards_bound = omega arith;
  shard_lt = omega arith;
  regions_shard = refl;
}

-- The first pool, behind its region's entry and its two blocks: the last line, and a block that has
-- none.
abbrev first_entered : Pool
first_entered = record (opened_pool (of_shard shared 0)) {
  region_cursor = 1;
  next_region = 1;
  region_block_base = 2;
  region_blocks = 2;
  region_block_next = 0;
  region_rotation = 1;
}

abbrev first_taken : Pool
first_taken = record first_entered {
  buffer = b'c' ∷ 10 ∷ b'd' ∷ 10 ∷ [];
  offsets = 2 ∷ 4 ∷ [];
  region_block_next = 1;
  carried_block = 4;
  carried = b'd';
  line_cursor = 1;
  cursor = 1;
}

abbrev first_over : Pool
first_over = record first_taken {
  buffer = b'c' ∷ b'c' ∷ b'c' ∷ b'c' ∷ b'c' ∷ [];
  offsets = [];
  region_block_next = 2;
  carried_block = 3;
  carried = b'c';
  line_cursor = 0;
}

first_steps : Runs text_file first_entered (3 ∷ 2 ∷ []) (codes "d" ∷ []) first_over
unfolding load_round visit_block visit_region enter_region take_line line_at trim_return load_block
    block_error fill_block first_line index_lines continue_line close_line order_lines
    first_too_long exceeds_line_limit permutation_params line_ends has_crlf check_line_limit max_gap
    terminate extend_line extend_loop extend_bytes extend_error finish_line accept_line add_modulo
    advance opened_pool start_cycle start_regions block_read_range lookahead_bytes rotation
    validate_source index_byte mix64 coprime_step greatest_common_divisor multiply_modulo
    multiply_loop shard_item_count
first_steps = takes refl refl (passes refl refl stops)

first_run :
    Runs text_file (opened_pool (of_shard shared 0)) (3 ∷ 2 ∷ []) (codes "d" ∷ []) first_over
unfolding load_round visit_block visit_region enter_region take_line line_at trim_return load_block
    block_error fill_block first_line index_lines continue_line close_line order_lines
    first_too_long exceeds_line_limit permutation_params line_ends has_crlf check_line_limit max_gap
    terminate extend_line extend_loop extend_bytes extend_error finish_line accept_line add_modulo
    advance opened_pool start_cycle start_regions block_read_range lookahead_bytes rotation
    validate_source index_byte mix64 coprime_step greatest_common_divisor multiply_modulo
    multiply_loop shard_item_count
first_run = enters refl refl refl first_steps

-- The second pool: the line that fills a block, then the first two lines, in the other order.
abbrev second_entered : Pool
second_entered = record (opened_pool (of_shard shared 1)) {
  region_cursor = 1;
  next_region = 0;
  region_block_base = 0;
  region_blocks = 2;
  region_block_next = 0;
  region_rotation = 1;
}

abbrev second_taken : Pool
second_taken = record second_entered {
  buffer = 13 ∷ 10 ∷ b'c' ∷ b'c' ∷ b'c' ∷ b'c' ∷ b'c' ∷ b'c' ∷ b'c' ∷ 10 ∷ [];
  offsets = 2 ∷ 10 ∷ [];
  region_block_next = 1;
  carried_block = 2;
  carried = b'c';
  continuation_start = 2;
  continuation_end = 3;
  line_cursor = 1;
  cursor = 1;
}

abbrev second_over : Pool
second_over = record second_taken {
  buffer = 10 ∷ b'a' ∷ 10 ∷ b'b' ∷ 13 ∷ 10 ∷ [];
  offsets = 1 ∷ 3 ∷ 6 ∷ [];
  region_block_next = 2;
  carried_block = 1;
  carried = 13;
  continuation_start = 1;
  continuation_end = 1;
  line_cursor = 2;
  next_line = 1;
  line_step = 1;
  cursor = 3;
  cr = true;
}

second_last : Runs text_file second_taken (0 ∷ []) (codes "b" ∷ codes "a" ∷ []) second_over
unfolding load_round visit_block visit_region enter_region take_line line_at trim_return load_block
    block_error fill_block first_line index_lines continue_line close_line order_lines
    first_too_long exceeds_line_limit permutation_params line_ends has_crlf check_line_limit max_gap
    terminate extend_line extend_loop extend_bytes extend_error finish_line accept_line add_modulo
    advance opened_pool start_cycle start_regions block_read_range lookahead_bytes rotation
    validate_source index_byte mix64 coprime_step greatest_common_divisor multiply_modulo
    multiply_loop shard_item_count
second_last = takes refl refl stops

second_steps :
    Runs text_file second_entered
      (1 ∷ 0 ∷ [])
      (codes "ccccccc" ∷ codes "b" ∷ codes "a" ∷ [])
      second_over
unfolding load_round visit_block visit_region enter_region take_line line_at trim_return load_block
    block_error fill_block first_line index_lines continue_line close_line order_lines
    first_too_long exceeds_line_limit permutation_params line_ends has_crlf check_line_limit max_gap
    terminate extend_line extend_loop extend_bytes extend_error finish_line accept_line add_modulo
    advance opened_pool start_cycle start_regions block_read_range lookahead_bytes rotation
    validate_source index_byte mix64 coprime_step greatest_common_divisor multiply_modulo
    multiply_loop shard_item_count
second_steps = takes refl refl second_last

second_run :
    Runs text_file
      (opened_pool (of_shard shared 1))
      (1 ∷ 0 ∷ [])
      (codes "ccccccc" ∷ codes "b" ∷ codes "a" ∷ [])
      second_over
unfolding load_round visit_block visit_region enter_region take_line line_at trim_return load_block
    block_error fill_block first_line index_lines continue_line close_line order_lines
    first_too_long exceeds_line_limit permutation_params line_ends has_crlf check_line_limit max_gap
    terminate extend_line extend_loop extend_bytes extend_error finish_line accept_line add_modulo
    advance opened_pool start_cycle start_regions block_read_range lookahead_bytes rotation
    validate_source index_byte mix64 coprime_step greatest_common_divisor multiply_modulo
    multiply_loop shard_item_count
second_run = enters refl refl refl second_steps

abbrev returned : ℕ → List Bytes
returned zero = codes "d" ∷ []
returned (suc i) = codes "ccccccc" ∷ codes "b" ∷ codes "a" ∷ []

returned_runs : (i : ℕ) → i < 2 → HasRead text_file (of_shard shared i) (returned i)
unfolding opened_pool start_cycle start_regions shard_item_count
returned_runs zero h = (3 ∷ 2 ∷ [], first_over, first_run, (omega arith, refl))
returned_runs (suc zero) h = (1 ∷ 0 ∷ [], second_over, second_run, (omega arith, refl))
returned_runs (suc (suc i)) h = absurd (omega (arith, h))

HasRead-split_lines_example :
    Perm (codes "d" ∷ codes "ccccccc" ∷ codes "b" ∷ codes "a" ∷ []) (split_lines [] text)
HasRead-split_lines_example =
    HasRead-split_lines text_file text shared returned text_file_reads
      (record { size = refl; reads = λ offset n h. refl }) shared-IsGeometry refl returned_runs

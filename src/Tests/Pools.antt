-- ===== src/Tests/Pools.antt =====
-- proxypool.go and batch.go on concrete inputs.
use proxykit_go.Base.{◌↔◌, ℕ, ◌+◌, ◌*◌, ◌<◌, true, false, ◌≡◌, refl, arith, [], ◌∷◌, ltb}
use proxykit_go.Base.{zero, suc, some, none, take, drop, length, length-take, Option}
use proxykit_go.Pool.State.{Pool, File, PoolError, no_error, opened_pool}
use proxykit_go.Pool.Walk.{Taken, problem, next, load_next_block, enough_rounds}
use proxykit_go.Pool.Extends.{core, ReadsAtMost}
use proxykit_go.Pool.Rounds.{IsWalk}
use proxykit_go.Pool.Ends.{opened_pool-IsWalk, load_next_block-total}
use proxykit_go.Pool.Calls.{next-total}
use proxykit_go.Base.Bytes.{Bytes, codes}
use proxykit_go.Pool.Sizes.{
  pos, mode_shuffled, mode_sequential, positive_or_default, shard_item_count, ceiling_quotient,
  exceeds_line_limit, buffer_bytes,
}
use proxykit_go.Pool.Shards.{shard_item_count_iff, ceiling_quotient_iff}
use proxykit_go.Pool.Limits.{stripped_length, exceeds_line_limit_lem, check_line_limit_lem}
use proxykit_go.Pool.Open.{Options, Info, Geometry, opened, geometry, check_sizes, open_pool}
use proxykit_go.Pool.Opening.{IsInRange, open_pool-IsGeometry}
use proxykit_go.Pool.Schedule.{IsGeometry, of_shard, scheduled, scheduled_steps}
use proxykit_go.Pool.Schedule.Once.{scheduled-once}
use proxykit_go.Pool.Extend.{first_too_long, check_line_limit, line_ends}
use proxykit_go.Pool.Batch.{
  hand_over, drain, Batch, lines_until, pair_line, ordered_line, yield_in_order, yield_in_pairs,
  step_back, twice_back,
}
use proxykit_go.Pool.HandOver.{take_lines, took, drain-hand_over}
use proxykit_go.Base.Indices.{indices}
use proxykit_go.Pool.Lines.Cycles.{shard_blocks}
use proxykit_go.Pool.Lines.Ordered.{shard_blocks-in_order}
use proxykit_go.Pool.Capacity.{
  buffer_limit, resized_capacity, resized_capacity-bounds, offsets_limit, grown_offsets,
  grown_offsets-bounds,
}
use proxykit_go.Base.{◌≤◌}
use proxykit_go.Pool.BatchStops.{lines_until-drain}
use proxykit_go.Base.{◌++◌, ◌-◌, min}

abbrev options : Options
options = record {
  sequential_buffer_bytes = pos 0;
  block_bytes = pos 10;
  region_bytes = pos 30;
  max_line_bytes = pos 80;
  seed = 7;
  shard_count = pos 2;
  shard_index = pos 1;
  mode = mode_shuffled;
  reuse = false;
}

abbrev info : Info
info = record { size = 95; mod_time = 1; regular = true }

abbrev small : Geometry
small = record {
  file_size = 95;
  modified = 1;
  region_bytes = 30;
  regions_per_check = 35791394;
  seed = 7;
  block_bytes = 10;
  max_line_bytes = 80;
  shard_count = 2;
  shard_index = 1;
  mode = mode_shuffled;
  reuse = false;
  block_count = 10;
  blocks_per_region = 3;
  region_count = 4;
  regions_for_shard = 2;
}

small_opened : open_pool options info 0 ≡ opened small
unfolding open_pool check_sizes geometry positive_or_default ceiling_quotient shard_item_count
    buffer_bytes
small_opened = refl

open_pool-IsGeometry_example : IsGeometry small × IsInRange small
open_pool-IsGeometry_example =
    open_pool-IsGeometry options info 0 (omega arith) (omega arith) small_opened

scheduled-once_example :
    (i k n : ℕ) × (i < 2)
    × (k < (of_shard small i).regions_for_shard)
    × (n < scheduled_steps (of_shard small i) 0 k)
    × (scheduled (of_shard small i) 0 k n ≡ 9)
    × ((i' k' n' : ℕ)
        → i' < 2
        → k' < (of_shard small i').regions_for_shard
        → n' < scheduled_steps (of_shard small i') 0 k'
        → scheduled (of_shard small i') 0 k' n' ≡ 9
        → (i' ≡ i) × (k' ≡ k) × (n' ≡ n))
scheduled-once_example = scheduled-once small 0 9 open_pool-IsGeometry_example.0 refl (omega arith)

shard_item_count_iff_example : (1 < shard_item_count 4 2 1) ↔ (1 + 1 * 2 < 4)
shard_item_count_iff_example = shard_item_count_iff 4 2 1 1 (omega arith)

ceiling_quotient_iff_example : (9 < ceiling_quotient 95 10) ↔ (9 * 10 < 95)
ceiling_quotient_iff_example = ceiling_quotient_iff 95 10 9 (omega arith)

abbrev crlf_line : Bytes
crlf_line = b'a' ∷ b'b' ∷ 13 ∷ 10 ∷ []

exceeds_line_limit_lem_example : exceeds_line_limit crlf_line 2 ≡ ltb 2 (stripped_length crlf_line)
exceeds_line_limit_lem_example = exceeds_line_limit_lem crlf_line 2 (omega arith)

abbrev two_lines : Bytes
two_lines = 10 ∷ b'a' ∷ 10 ∷ b'b' ∷ b'c' ∷ 13 ∷ 10 ∷ []

two_lines_ends : line_ends 1 (b'a' ∷ 10 ∷ b'b' ∷ b'c' ∷ 13 ∷ 10 ∷ []) ≡ 3 ∷ 7 ∷ []
unfolding line_ends
two_lines_ends = refl

check_line_limit_lem_example :
    check_line_limit two_lines 1 (1 ∷ 3 ∷ 7 ∷ []) ≡ first_too_long two_lines 1 (1 ∷ 3 ∷ 7 ∷ [])
check_line_limit_lem_example = check_line_limit_lem two_lines 1 (1 ∷ 3 ∷ 7 ∷ []) refl

abbrev batch : Batch
batch = record {
  offsets = 1 ∷ 3 ∷ 7 ∷ [];
  buffer = two_lines;
  remaining = 2;
  next = 1;
  back = 1;
  lines = 2;
  calls = 1;
  cr = true;
}

batch_stopped : (lines_until 0 batch).0 ≡ codes "bc" ∷ []
unfolding lines_until yield_in_pairs yield_in_order pair_line ordered_line step_back twice_back
batch_stopped = refl

lines_until-drain_example :
    let (lines, after) = lines_until 0 batch in
    (lines ++ drain after.remaining after ≡ drain 2 batch)
    × (length lines ≡ min 1 2)
    × (after.remaining ≡ 2 - 1)
lines_until-drain_example =
    lines_until-drain batch 0
      (record { next_lt = omega arith; back_le = omega arith; remaining_le = omega arith })

-- A file of 95 bytes, in lines of two.
abbrev content : ℕ → Bytes
content zero = b'z' ∷ []
content (suc n) = b'a' ∷ 10 ∷ content n

abbrev source : File
source = record {
  stat = some info;
  read_at = λ offset n. (take n (drop offset (content 47)), no_error);
}

source_reads : ReadsAtMost source
source_reads offset n = omega (arith, length-take n (drop offset (content 47)))

small-IsWalk : IsWalk (core (opened_pool small))
small-IsWalk = opened_pool-IsWalk small open_pool-IsGeometry_example.0

next-total_example :
    (p : Pool) × (t : Taken) × (next source (opened_pool small) ≡ some (p, t))
    × IsWalk (core p)
    × ((e : PoolError) → t ≡ problem e → (later : File) → next later p ≡ some (p, problem e))
next-total_example = next-total source (opened_pool small) source_reads small-IsWalk

load_next_block-total_example :
    (p : Pool) × (e : Option PoolError) × (load_next_block
        (enough_rounds (opened_pool small))
        source
        (opened_pool small)
      ≡ some (p, e))
    × IsWalk (core p)
    × (e ≡ none → 1 < length p.offsets)
load_next_block-total_example =
    load_next_block-total source (opened_pool small) source_reads small-IsWalk

abbrev loaded : Pool
loaded = record (opened_pool small) {
  buffer = two_lines;
  offsets = 1 ∷ 3 ∷ 7 ∷ [];
  next_line = 0;
  line_step = 1;
  line_cursor = 1;
  cr = true;
}

drain-hand_over_example :
    let (after, handed) = hand_over loaded batch in
    (handed.remaining ≡ 1)
    × (drain handed.remaining handed ≡ take_lines 1 loaded)
    × (length after.offsets - 1 ≡ after.line_cursor)
    × (after.cursor ≡ (took 1 loaded).cursor)
drain-hand_over_example = drain-hand_over loaded batch (record {
  next_lt = omega arith;
  step_le = omega arith;
  lines = refl;
  first_pos = omega arith;
  first = refl;
})

abbrev pub in_order : Geometry
in_order = record small {
  mode = mode_sequential;
  shard_count = 1;
  shard_index = 0;
  regions_for_shard = 4;
}

in_order-IsGeometry : IsGeometry in_order
unfolding ceiling_quotient shard_item_count
in_order-IsGeometry = record {
  block_positive = omega arith;
  blocks_positive = omega arith;
  blocks_bound = omega arith;
  blocks_count = refl;
  regions_count = refl;
  shards_positive = omega arith;
  shards_bound = omega arith;
  shard_lt = omega arith;
  regions_shard = refl;
}

shard_blocks-in_order_example : shard_blocks in_order 1 ≡ indices 0 in_order.block_count
shard_blocks-in_order_example = shard_blocks-in_order in_order 1 in_order-IsGeometry refl refl

resized_capacity-bounds_example :
    (50 ≤ resized_capacity small 13 50)
    × (13 ≤ resized_capacity small 13 50)
    × (resized_capacity small 13 50 ≤ buffer_limit small)
unfolding buffer_limit
resized_capacity-bounds_example = resized_capacity-bounds small 13 50 (omega arith) (omega arith)

grown_offsets-bounds_example :
    (0 < grown_offsets small 0) × (grown_offsets small 0 ≤ offsets_limit small)
unfolding offsets_limit
grown_offsets-bounds_example = grown_offsets-bounds small 0 (omega arith)

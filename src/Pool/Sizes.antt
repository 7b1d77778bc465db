-- ===== src/Pool/Sizes.antt =====
-- proxypool.go: the constants, the modes, and the functions on sizes. A Go `int` that a caller gives
-- may be negative: it is an integer `ℤ`. An int of 64 bits is assumed.
use proxykit_go.Base.{
  ℕ, zero, suc, ◌+◌, ◌-◌, ◌*◌, ◌/◌, ◌^◌, max, Bool, true, false, not, ◌||◌, ltb, leb, ◌==◌,
  if◌then◌else◌, length, get_or,
}
use proxykit_go.Base.Bytes.{Bytes}

pub data ℤ : Type 0 where
  pos negsuc : ℕ → ℤ

abbrev pub default_sequential_buffer_bytes : ℕ
default_sequential_buffer_bytes = 2 ^ 20

abbrev pub default_block_bytes : ℕ
default_block_bytes = 4 * 2 ^ 20

abbrev pub default_region_bytes : ℕ
default_region_bytes = 2 ^ 30

abbrev pub default_max_line_bytes : ℕ
default_max_line_bytes = 64 * 2 ^ 10

abbrev pub tail_read_bytes : ℕ
tail_read_bytes = 4 * 2 ^ 10

abbrev pub line_read_bytes : ℕ
line_read_bytes = 64 * 2 ^ 10

-- The largest `int`.
abbrev pub max_int : ℕ
max_int = 2 ^ 63 - 1

abbrev pub newline : ℕ
newline = 10

abbrev pub carriage_return : ℕ
carriage_return = 13

-- A mode is a byte, as in the source.
abbrev pub Mode : Type 0
Mode = ℕ

abbrev pub mode_sequential : Mode
mode_sequential = 0

abbrev pub mode_shuffled : Mode
mode_shuffled = 1

-- `Mode.IsValid`
abbrev pub is_valid_mode : Mode → Bool
is_valid_mode mode = ltb mode 2

-- `positiveOrDefault`
unfoldable pub positive_or_default : ℤ → ℕ → ℕ
positive_or_default (pos zero) fallback = fallback
positive_or_default (pos (suc n)) fallback = suc n
positive_or_default (negsuc n) fallback = fallback

-- `max(options.ShardCount, 1)`
abbrev pub at_least_one : ℤ → ℕ
at_least_one (pos n) = max n 1
at_least_one (negsuc n) = 1

-- `shardItemCount`
unfoldable pub shard_item_count : ℕ → ℕ → ℕ → ℕ
shard_item_count total shards shard =
    if leb total shard then 0 else (total - 1 - shard) / shards + 1

-- `ceilingQuotient`
unfoldable pub ceiling_quotient : ℕ → ℕ → ℕ
ceiling_quotient value divisor = if value == 0 then 0 else (value - 1) / divisor + 1

-- `exceedsLineLimit`
unfoldable pub exceeds_line_limit : Bytes → ℕ → Bool
exceeds_line_limit line limit =
    let len = length line in
    let short = len - 1 in
    if leb len limit
    then false
    else if not (get_or line (len - 1) 0 == newline)
    then true
    else if leb short limit
    then false
    else ltb limit (short - 1) || not (get_or line (short - 1) 0 == carriage_return)

-- `blockread.BufferBytes`
unfoldable pub buffer_bytes : ℕ → ℕ
buffer_bytes capacity = if ltb capacity (64 * 2 ^ 10) then capacity else capacity + 4 * 2 ^ 10 - 1

-- ===== src/Pool/Capacity.antt =====
-- proxypool.go: bufferLimit and the capacities that resized and growOffsets choose.
use proxykit_go.Base.{
  ℕ, ◌+◌, ◌-◌, ◌*◌, ◌/◌, ◌≤◌, ◌<◌, min, max, ◌||◌, ◌&&◌, ltb, leb, ◌==◌, arith, if◌then◌else◌,
}
use proxykit_go.Pool.Sizes.{tail_read_bytes}
use proxykit_go.Pool.Open.{Geometry}
use proxykit_go.Pool.State.{lookahead_bytes}

-- `bufferLimit`
unfoldable pub buffer_limit : Geometry → ℕ
buffer_limit g = min (g.block_bytes + g.max_line_bytes) g.file_size + 3

-- The part of a buffer behind its block, doubled within bounds.
unfoldable pub next_tail : ℕ → ℕ → ℕ
next_tail tail most =
    let doubled = (if ltb (tail * 2) tail_read_bytes then tail_read_bytes else tail * 2) in
    if ltb doubled tail || ltb most doubled then most else doubled

-- The capacity that `resized` aims at, before it is cut to the limit.
unfoldable pub wanted_capacity : Geometry → ℕ → ℕ → ℕ
wanted_capacity g old len =
    let maximum = buffer_limit g in
    let base = min (g.block_bytes + 2) maximum in
    if old == 0 && ltb g.block_bytes g.file_size
    then max (len + 2) (min maximum (g.block_bytes + 2 + lookahead_bytes g))
    else if ltb 0 old
    then max (len + 2) (base + next_tail (old - base) (maximum - base))
    else len + 2

-- `resized`: the capacity behind it, for a buffer of capacity `old` that is to hold `len` bytes.
unfoldable pub resized_capacity : Geometry → ℕ → ℕ → ℕ
resized_capacity g old len =
    let maximum = buffer_limit g in
    let wanted = wanted_capacity g old len in
    if leb len old then old else if ltb maximum wanted || ltb wanted old then maximum else wanted

-- The number of offsets that a block can have.
unfoldable pub offsets_limit : Geometry → ℕ
offsets_limit g = min g.block_bytes g.file_size + 1

-- `growOffsets`: the capacity behind it.
unfoldable pub grown_offsets : Geometry → ℕ → ℕ
grown_offsets g old =
    let maximum = offsets_limit g in
    let grown = max (old * 2) 1024 in
    if leb maximum old
    then old
    else if old * 2 == 0
    then min maximum (max 1024 (maximum / 32))
    else if ltb (old * 2) old
    then maximum
    else if leb (maximum - 1) grown
    then maximum
    else grown

wanted_capacity-ge : (g : Geometry) (old len : ℕ) → len + 2 ≤ wanted_capacity g old len
unfolding wanted_capacity
wanted_capacity-ge g old len = ground arith

-- A buffer that is resized to a length within the limit holds that length, and what it held before,
-- and stays within the limit.
pub resized_capacity-bounds :
    (g : Geometry) (old len : ℕ)
    → len ≤ buffer_limit g
    → old ≤ buffer_limit g
    → (len ≤ resized_capacity g old len)
      × (old ≤ resized_capacity g old len)
      × (resized_capacity g old len ≤ buffer_limit g)
unfolding resized_capacity
resized_capacity-bounds g old len hl ho =
    let enough = wanted_capacity-ge g old len in
    (ground (arith, enough), ground (arith, enough), ground (arith, enough))

-- The room for offsets grows where a block can have more, and stays within what a block can have.
pub grown_offsets-bounds :
    (g : Geometry) (old : ℕ)
    → old < offsets_limit g
    → (old < grown_offsets g old) × (grown_offsets g old ≤ offsets_limit g)
unfolding grown_offsets
grown_offsets-bounds g old h = (ground arith, ground arith)

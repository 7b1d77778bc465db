-- ===== src/Pool/Block.antt =====
-- proxypool.go: loadBlockLocked, once its lines are found, and the reads of a block. Position `i` of
-- the buffer stands for position `block_start + i - 1` of the file.
use proxykit_go.Base.{
  ℕ, ◌+◌, ◌-◌, ◌/◌, false, not, Option, none, some, List, [], ◌∷◌, ◌++◌, ltb, leb, ◌==◌,
  if◌then◌else◌, length, get_or, take,
}
use proxykit_go.Base.Bytes.{Bytes, index_byte}
use proxykit_go.Base.Word.{xor64}
use proxykit_go.Pool.Sizes.{mode_sequential, newline, exceeds_line_limit}
use proxykit_go.Pool.Open.{Geometry}
use proxykit_go.Pool.State.{
  Pool, File, PoolError, line_too_long, read_failed, unexpected_end, ReadError, no_error, at_end,
  fault, validate_source, ReadRange, block_read_range,
}
use proxykit_go.Pool.Permutation.{mix64, permutation_params}
use proxykit_go.Pool.Extend.{
  line_ends, has_crlf, piece, check_line_limit, terminate, terminated, extend_line, extended,
  not_extended, out_of_rounds,
}

-- The end of the last line.
abbrev pub last_offset : List ℕ → ℕ → ℕ
last_offset [] d = d
last_offset (a ∷ offsets) d = last_offset offsets a

-- The order of the block's lines, with which loadBlockLocked ends.
unfoldable pub order_lines : ℕ → Pool → Pool
order_lines block pool =
    let p = permutation_params (length pool.offsets - 1) (mix64 (xor64 pool.cycle_seed block)) in
    if pool.geometry.mode == mode_sequential
    then record pool { line_step = 1; next_line = 0 }
    else record pool { line_step = p.step; next_line = p.start }

-- The result of a load: the pool, and an error or none; `none` would be a loop out of rounds.
abbrev pub Loaded : Type 0
Loaded = Option (Pool × Option PoolError)

-- A line that goes on behind the block is read to its end, over the blocks it fills.
unfoldable pub continue_line : File → ℕ → ReadRange → ℕ → Pool → Loaded
continue_line file block r last_end pool =
    elim (extend_line file r.block_start last_end r.ownership_end pool) [
      | out_of_rounds ↦ none
      | not_extended e p ↦ some (p, some e)
      | extended p ↦
          let line_end = length p.buffer in
          let next_start = r.block_start + line_end - 1 in
          some (
            order_lines block (record p {
              continuation_start = block + 1;
              continuation_end =
                  if leb p.geometry.file_size next_start
                  then p.geometry.block_count
                  else next_start / p.geometry.block_bytes;
              offsets = p.offsets ++ line_end ∷ [];
            }),
            none,
          )
    ]

-- The last line of the file has no line feed.
unfoldable pub close_line : ℕ → ReadRange → ℕ → Pool → Loaded
close_line block r last_end pool =
    let cut = record pool { buffer = take r.ownership_end pool.buffer } in
    if exceeds_line_limit (piece cut.buffer last_end r.ownership_end) pool.geometry.max_line_bytes
    then some (cut, some (line_too_long (r.block_start + last_end - 1)))
    else some (
      order_lines block (record (terminated cut) {
        offsets = pool.offsets ++ length (terminate cut.buffer) ∷ [];
      }),
      none,
    )

-- The lines of the block from `line_start` on are indexed.
unfoldable pub index_lines : File → ℕ → ReadRange → ℕ → Pool → Loaded
index_lines file block r line_start pool =
    let owned = piece pool.buffer line_start r.ownership_end in
    let found = line_start ∷ line_ends line_start owned in
    let last_end = last_offset found line_start in
    let indexed = record pool {
      offsets = found;
      cr = has_crlf (get_or pool.buffer (line_start - 1) 0) owned;
    } in
    elim (check_line_limit pool.buffer pool.geometry.max_line_bytes found) [
      | some start ↦ some (indexed, some (line_too_long (r.block_start + start - 1)))
      | none ↦
          if leb r.ownership_end last_end
          then some (order_lines block indexed, none)
          else if ltb (r.block_start + (r.ownership_end - 1)) pool.geometry.file_size
          then continue_line file block r last_end indexed
          else close_line block r last_end indexed
    ]

-- Where the first line that starts in the block begins; `none` if no line does.
unfoldable pub first_line : Bytes → ℕ → Option ℕ
first_line buffer ownership_end =
    let start : Option ℕ =
      if not (get_or buffer 0 0 == newline)
      then elim (index_byte (piece buffer 1 ownership_end) newline) [
        | none ↦ none
        | some i ↦ some (2 + i)
      ]
      else some 1 in
    elim start [ none ↦ none | some s ↦ if leb ownership_end s then none else some s ]

-- The block has been read into the buffer.
unfoldable pub fill_block : File → ℕ → ReadRange → Bytes → Pool → Loaded
fill_block file block r got pool =
    let first = if block == 0 then newline else pool.carried in
    let buffer = if r.skip == 1 then first ∷ got else got in
    let filled = record pool {
      buffer = buffer;
      carried_block = block + 1;
      carried = get_or buffer (r.ownership_end - 1) 0;
      offsets = [];
      cr = false;
      line_cursor = 0;
      next_line = 0;
    } in
    elim (first_line buffer r.ownership_end) [
      | none ↦ some (filled, none)
      | some line_start ↦ index_lines file block r line_start filled
    ]

-- The error of a read of `read` bytes where `wanted` were asked for.
unfoldable pub block_error : File → Geometry → ℕ → ℕ → ℕ → ReadError → Option PoolError
block_error file g block_start wanted read error =
    if not (read == wanted)
    then elim (validate_source file g) [
      | some changed ↦ some changed
      | none ↦ elim error [
        | fault ↦ some (read_failed block_start)
        | no_error ↦ some (unexpected_end block_start)
        | at_end ↦ some (unexpected_end block_start)
      ]
    ]
    else elim error [ fault ↦ some (read_failed block_start) | no_error ↦ none | at_end ↦ none ]

-- `loadBlockLocked`
unfoldable pub load_block : File → ℕ → Pool → Loaded
load_block file block pool =
    let r = block_read_range pool.geometry block pool.carried_block in
    let wanted = r.read_bytes - r.skip in
    let (got, error) = file.read_at (r.block_start + r.skip - 1) wanted in
    elim (block_error file pool.geometry r.block_start wanted (length got) error) [
      | some e ↦ some (pool, some e)
      | none ↦ fill_block file block r got pool
    ]

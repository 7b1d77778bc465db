-- ===== src/Pool/Extend.antt =====
-- proxypool.go: the lines of a buffer, with checkLineLimitLocked, terminateLocked and extendLineLocked.
-- Position `i` of the buffer stands for position `block_start + i - 1` of the file; the capacities of
-- the buffers are left out.
use proxykit_go.Base.{
  ℕ, zero, suc, ◌+◌, ◌-◌, max, min, Bool, false, not, ◌||◌, ◌&&◌, Option, none, some, List, [], ◌∷◌,
  ◌++◌, leb, ◌==◌, if◌then◌else◌, length, get_or, take, drop,
}
use proxykit_go.Base.Bytes.{Bytes, index_byte}
use proxykit_go.Pool.Sizes.{
  newline, carriage_return, tail_read_bytes, line_read_bytes, exceeds_line_limit,
}
use proxykit_go.Pool.Open.{Geometry}
use proxykit_go.Pool.State.{
  Pool, File, PoolError, line_too_long, extend_failed, extend_short, ReadError, no_error, at_end,
  fault, validate_source,
}

-- What indexBlockLocked gathers from `lineindex.Ends`: the position behind each line feed of a text
-- that begins at `position`.
unfoldable pub line_ends : ℕ → Bytes → List ℕ
line_ends position [] = []
line_ends position (c ∷ cs) =
    let rest = line_ends (position + 1) cs in if c == newline then (position + 1) ∷ rest else rest

-- Whether a line feed follows a carriage return, where `previous` is the byte before the text. The
-- flag of the source is set there too, and may be set elsewhere: it only spares the test of a line's
-- own last byte.
unfoldable pub has_crlf : ℕ → Bytes → Bool
has_crlf previous [] = false
has_crlf previous (c ∷ cs) = c == newline && previous == carriage_return || has_crlf c cs

-- `lineindex.MaxGap`
unfoldable pub max_gap : List ℕ → ℕ
max_gap [] = 0
max_gap (a ∷ []) = 0
max_gap (a ∷ b ∷ offsets) = max (b - a) (max_gap (b ∷ offsets))

-- `pool.buffer[start:end]`
abbrev pub piece : Bytes → ℕ → ℕ → Bytes
piece buffer start stop = take (stop - start) (drop start buffer)

-- The start of the first line that exceeds the limit, in the loop of checkLineLimitLocked.
unfoldable pub first_too_long : Bytes → ℕ → List ℕ → Option ℕ
first_too_long buffer limit [] = none
first_too_long buffer limit (a ∷ []) = none
first_too_long buffer limit (a ∷ b ∷ offsets) =
    let rest = first_too_long buffer limit (b ∷ offsets) in
    if exceeds_line_limit (piece buffer a b) limit then some a else rest

-- `checkLineLimitLocked`: the start of a line that is too long.
unfoldable pub check_line_limit : Bytes → ℕ → List ℕ → Option ℕ
check_line_limit buffer limit offsets =
    if leb (max_gap offsets) (limit + 1) then none else first_too_long buffer limit offsets

-- `terminateLocked`, for a buffer that ends at `end`: the terminated buffer.
unfoldable pub terminate : Bytes → Bytes
terminate buffer =
    if not (get_or buffer (length buffer - 1) 0 == carriage_return)
    then buffer ++ newline ∷ []
    else buffer ++ carriage_return ∷ newline ∷ []

-- The pool behind terminateLocked; the end of the last line is the length of its buffer.
abbrev pub terminated : Pool → Pool
terminated pool = record pool {
  buffer = terminate pool.buffer;
  cr = pool.cr || get_or pool.buffer (length pool.buffer - 1) 0 == carriage_return;
}

-- The result of extendLineLocked: the line ends where the buffer of the pool ends.
pub data Extended : Type 0 where
  extended : Pool → Extended
  not_extended : PoolError → Pool → Extended
  out_of_rounds : Extended

-- A line that ends with the buffer, from `line_start` on, is accepted or too long.
unfoldable pub accept_line : ℕ → ℕ → Pool → Pool → Extended
accept_line block_start line_start pool accepted =
    if exceeds_line_limit (drop line_start pool.buffer) pool.geometry.max_line_bytes
    then not_extended (line_too_long (block_start + line_start - 1)) pool
    else extended accepted

-- The line feed that ends the line stands in the buffer, behind `before` bytes.
unfoldable pub finish_line : ℕ → ℕ → ℕ → Pool → Extended
finish_line block_start line_start before pool =
    let cut = record pool { buffer = take (before + 1) pool.buffer } in
    accept_line block_start line_start cut
      (record cut { cr = cut.cr || get_or cut.buffer (before - 1) 0 == carriage_return })

-- How many bytes a round of the loop reads.
unfoldable pub extend_bytes : Geometry → ℕ → ℕ → ℕ → ℕ
extend_bytes g len limit absolute_end =
    min (min line_read_bytes (min (max tail_read_bytes g.block_bytes) (limit - len)))
      (g.file_size - absolute_end)

-- A round's read that has brought no line feed: the error, if the loop does not go on.
unfoldable pub extend_error : File → ℕ → ℕ → ℕ → ℕ → ReadError → Pool → Option PoolError
extend_error file block_start line_start wanted read error pool =
    let short =
      if read == wanted || block_start + length pool.buffer - 1 == pool.geometry.file_size
      then none
      else elim (validate_source file pool.geometry) [
        | some changed ↦ some changed
        | none ↦ some (extend_short (block_start + line_start - 1))
      ] in
    elim error [
      | fault ↦ some (extend_failed (block_start + line_start - 1))
      | no_error ↦ short
      | at_end ↦ short
    ]

-- The loop of extendLineLocked, on fuel.
unfoldable pub extend_loop : ℕ → File → ℕ → ℕ → Pool → Extended
extend_loop zero file block_start line_start pool = out_of_rounds
extend_loop (suc rounds) file block_start line_start pool =
    let len = length pool.buffer in
    let absolute_end = block_start + len - 1 in
    let limit = line_start + pool.geometry.max_line_bytes + 2 in
    let wanted = extend_bytes pool.geometry len limit absolute_end in
    let (got, error) = file.read_at absolute_end wanted in
    let grown = record pool { buffer = pool.buffer ++ got } in
    let again = extend_loop rounds file block_start line_start grown in
    if leb limit len
    then not_extended (line_too_long (block_start + line_start - 1)) pool
    else if absolute_end == pool.geometry.file_size
    then accept_line block_start line_start pool (terminated pool)
    else elim (index_byte got newline) [
      | some i ↦ finish_line block_start line_start (len + i) grown
      | none ↦ elim (extend_error file block_start line_start wanted (length got) error grown) [
        | some e ↦ not_extended e grown
        | none ↦ again
      ]
    ]

-- `extendLineLocked`: each round but the last two adds a byte or more, up to the limit.
unfoldable pub extend_line : File → ℕ → ℕ → ℕ → Pool → Extended
extend_line file block_start line_start search_start pool =
    elim (index_byte (drop search_start pool.buffer) newline) [
      | some i ↦ finish_line block_start line_start (search_start + i) pool
      | none ↦
          extend_loop (pool.geometry.max_line_bytes + line_start + 4) file block_start line_start
            pool
    ]

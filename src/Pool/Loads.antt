-- ===== src/Pool/Loads.antt =====
-- proxypool.go: loading a block ends, whatever the file holds, and keeps the fields that the walk over
-- regions and blocks reads.
use proxykit_go.Base.{
  ℕ, ◌+◌, ◌-◌, ◌*◌, ◌≤◌, ◌<◌, true, false, none, some, [], ◌∷◌, ltb, leb, ◌==◌, ◌≡◌, refl, arith,
  if◌then◌else◌, length, Bool-cases, Option-cases, inl, inr, ◌∙◌, get_or,
}
use proxykit_go.Base.Bytes.{Bytes}
use proxykit_go.Pool.Sizes.{newline}
use proxykit_go.Pool.Open.{Geometry}
use proxykit_go.Pool.State.{Pool, File, ReadError, ReadRange, block_read_range}
use proxykit_go.Pool.Extend.{
  Extended, extended, not_extended, out_of_rounds, extend_line, piece, line_ends, has_crlf,
  check_line_limit,
}
use proxykit_go.Pool.Block.{
  order_lines, Loaded, continue_line, close_line, last_offset, index_lines, fill_block, block_error,
  load_block, first_line,
}
use proxykit_go.Pool.Extends.{Core, core, ReadsAtMost, Extends, extend_line-Extends}

-- A load ends and keeps the core.
abbrev pub Loads : Core → Loaded → Type 0
Loads c none = true ≡ false
Loads c (some (p, e)) = core p ≡ c

order_lines-core : (block : ℕ) (pool : Pool) → core (order_lines block pool) ≡ core pool
unfolding order_lines
order_lines-core block pool = ground arith

continue_line-Loads :
    (file : File) (block : ℕ) (r : ReadRange) (last_end : ℕ) (pool : Pool)
    → ReadsAtMost file
    → 0 < length pool.buffer
    → r.block_start + length pool.buffer - 1 ≤ pool.geometry.file_size
    → Loads (core pool) (continue_line file block r last_end pool)
unfolding continue_line
continue_line-Loads file block r last_end pool reads some_bytes inside =
    by_extension (extend_line file r.block_start last_end r.ownership_end pool) refl
      (extend_line-Extends file r.block_start last_end r.ownership_end pool reads some_bytes inside)
  where
    by_extension :
        (x : Extended)
        → extend_line file r.block_start last_end r.ownership_end pool ≡ x
        → Extends pool x
        → Loads (core pool) (continue_line file block r last_end pool)
    by_extension (extended p) e k = rw (e, continue_line) (order_lines-core block _ ∙ k)
    by_extension (not_extended err p) e k = rw (e, continue_line) k
    by_extension out_of_rounds e k = ground (arith, k)

close_line-Loads :
    (block : ℕ) (r : ReadRange) (last_end : ℕ) (pool : Pool)
    → Loads (core pool) (close_line block r last_end pool)
unfolding close_line order_lines
close_line-Loads block r last_end pool = ground arith

index_lines-Loads :
    (file : File) (block : ℕ) (r : ReadRange) (line_start : ℕ) (pool : Pool)
    → ReadsAtMost file
    → 0 < length pool.buffer
    → r.block_start + length pool.buffer - 1 ≤ pool.geometry.file_size
    → Loads (core pool) (index_lines file block r line_start pool)
unfolding index_lines
index_lines-Loads file block r line_start pool reads some_bytes inside =
    let owned = piece pool.buffer line_start r.ownership_end in
    let found = line_start ∷ line_ends line_start owned in
    let last_end = last_offset found line_start in
    let indexed = record pool {
      offsets = found;
      cr = has_crlf (get_or pool.buffer (line_start - 1) 0) owned;
    } in
    let ordered = order_lines-core block indexed in
    let continued = continue_line-Loads file block r last_end indexed reads some_bytes inside in
    let closed = close_line-Loads block r last_end indexed in
    elim (Option-cases (check_line_limit pool.buffer pool.geometry.max_line_bytes found)) [
      | inr (start, long) ↦ rw (long, index_lines) refl
      | inl short ↦ elim (Bool-cases (leb r.ownership_end last_end)) [
        | inl whole ↦ rw (short, index_lines, whole) ordered
        | inr open_end ↦
            elim (Bool-cases
              (ltb (r.block_start + (r.ownership_end - 1)) pool.geometry.file_size)) [
                | inl more ↦ rw (short, index_lines, open_end, more) continued
                | inr last ↦ rw (short, index_lines, open_end, last) closed
              ]
      ]
    ]

-- The buffer that a full read fills ends inside the file.
abbrev IsFilled : ReadRange → Geometry → Bytes → Type 0
IsFilled r g buffer = (0 < length buffer) × (r.block_start + length buffer - 1 ≤ g.file_size)

fill_block-Loads :
    (file : File) (block : ℕ) (r : ReadRange) (got : Bytes) (pool : Pool)
    → ReadsAtMost file
    → IsFilled r pool.geometry
        (if r.skip == 1 then (if block == 0 then newline else pool.carried) ∷ got else got)
    → Loads (core pool) (fill_block file block r got pool)
unfolding fill_block
fill_block-Loads file block r got pool reads filled =
    let buffer =
      if r.skip == 1 then (if block == 0 then newline else pool.carried) ∷ got else got in
    let ready = record pool {
      buffer = buffer;
      carried_block = block + 1;
      carried = get_or buffer (r.ownership_end - 1) 0;
      offsets = [];
      cr = false;
      line_cursor = 0;
      next_line = 0;
    } in
    elim (Option-cases (first_line buffer r.ownership_end)) [
      | inl nothing ↦ rw (nothing, fill_block) refl
      | inr (start, first) ↦
          rw (first, fill_block)
            (index_lines-Loads file block r start ready reads filled.0 filled.1)
    ]

block_error-none :
    (file : File) (g : Geometry) (block_start wanted read : ℕ) (error : ReadError)
    → block_error file g block_start wanted read error ≡ none
    → read ≡ wanted
unfolding block_error
block_error-none file g block_start wanted read error h = ground (arith, h)

block_read_range-fits :
    (g : Geometry) (block carried : ℕ)
    → 0 < g.block_bytes
    → block * g.block_bytes < g.file_size
    → let r = block_read_range g block carried in
      (r.skip ≤ 1) × (1 ≤ r.read_bytes - r.skip) × (r.block_start + r.read_bytes - 1 ≤ g.file_size)
unfolding block_read_range
block_read_range-fits g block carried pos h =
    (ground arith, ground (arith, pos, h), ground (arith, h))

-- Loading a block of the file ends and keeps the core.
pub load_block-Loads :
    (file : File) (block : ℕ) (pool : Pool)
    → ReadsAtMost file
    → 0 < pool.geometry.block_bytes
    → block * pool.geometry.block_bytes < pool.geometry.file_size
    → Loads (core pool) (load_block file block pool)
unfolding load_block
load_block-Loads file block pool reads pos inside =
    let r = block_read_range pool.geometry block pool.carried_block in
    let wanted = r.read_bytes - r.skip in
    let got = (file.read_at (r.block_start + r.skip - 1) wanted).0 in
    let error = (file.read_at (r.block_start + r.skip - 1) wanted).1 in
    let (skips, some_bytes, fits) =
      block_read_range-fits pool.geometry block pool.carried_block pos inside in
    elim (Option-cases (block_error file pool.geometry r.block_start wanted (length got) error)) [
      | inr (e, failed) ↦ rw (failed, load_block) refl
      | inl fine ↦
          let full =
            block_error-none file pool.geometry r.block_start wanted (length got) error fine in
          rw (fine, load_block)
            (fill_block-Loads file block r got pool reads (
              ground (arith, full, skips, some_bytes, fits),
              ground (arith, full, skips, some_bytes, fits),
            ))
    ]

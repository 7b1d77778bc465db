-- ===== src/Pool/Lines/Errors.antt =====
-- proxypool.go: loadBlockLocked on a file that keeps its content fails only at a line that is too long.
use mathlib.Core.Path.{subst}
use proxykit_go.Base.{
  ℕ, ◌+◌, ◌-◌, ◌*◌, ◌≤◌, ◌<◌, false, none, some, Option, List, [], ◌∷◌, ltb, leb, ◌==◌, ◌≡◌, ◌≢◌,
  refl, arith, if◌then◌else◌, length, get_or, take, drop, ap, ◌∙◌, Bool-cases, Option-cases, inl,
  inr, length-take, length-drop,
}
use proxykit_go.Base.Bytes.{Bytes}
use proxykit_go.Pool.Sizes.{newline, exceeds_line_limit}
use proxykit_go.Pool.Open.{Geometry}
use proxykit_go.Pool.State.{
  Pool, File, PoolError, ReadError, no_error, at_end, fault, ReadRange, block_read_range,
}
use proxykit_go.Pool.Extend.{
  Extended, extended, not_extended, out_of_rounds, piece, line_ends, has_crlf, check_line_limit,
  extend_line,
}
use proxykit_go.Pool.Block.{
  Loaded, last_offset, first_line, continue_line, close_line, index_lines, fill_block, block_error,
  load_block,
}
use proxykit_go.Pool.Limits.{length-piece}
use proxykit_go.Pool.Extends.{core, ReadsAtMost}
use proxykit_go.Pool.Loads.{Loads, load_block-Loads}
use proxykit_go.Pool.Lines.Framed.{unsealed, IsWindow}
use proxykit_go.Pool.Lines.Spans.{Spans}
use proxykit_go.Pool.Lines.Found.{IsPlain, line_ends-piece, first_line-some}
use proxykit_go.Pool.Lines.Ended.{Holds}
use proxykit_go.Pool.Lines.Reads.{IsCarried, read-IsWindow, block_read_range-bounds, carried_byte}
use proxykit_go.Pool.Lines.Limited.{
  Answers, IsLimit, exceeds_line_limit-long, stretch-IsTooLong, first_too_long-IsTooLong,
}
use proxykit_go.Pool.Lines.Failed.{Begins, extend_line-IsLimit}

-- The last offset begins a line.
last-Begins :
    (buffer : Bytes) (a : ℕ) (ends : List ℕ)
    → Spans buffer (a ∷ ends)
    → Begins buffer (last_offset ends a)
last-Begins buffer a [] spans = spans
last-Begins buffer a (b ∷ ends) (_, spans) = last-Begins buffer b ends spans

continue_line-IsLimit :
    (file : File) (content : Bytes) (block a : ℕ) (r : ReadRange) (pool p : Pool) (e : PoolError)
    → Holds file content pool.geometry
    → Answers file content pool.geometry
    → IsWindow (unsealed content) r.block_start pool.buffer
    → Begins pool.buffer a
    → a < r.ownership_end
    → r.ownership_end ≤ length pool.buffer
    → IsPlain pool.buffer a r.ownership_end
    → continue_line file block r a pool ≡ some (p, some e)
    → IsLimit content pool.geometry.max_line_bytes e
unfolding continue_line
continue_line-IsLimit file content block a r pool p e holds answers window begins lt le quiet h =
    by_extension (extend_line file r.block_start a r.ownership_end pool) refl
  where
    by_extension :
        (y : Extended)
        → extend_line file r.block_start a r.ownership_end pool ≡ y
        → IsLimit content pool.geometry.max_line_bytes e
    by_extension out_of_rounds was = absurd (ground (arith, h, was))
    by_extension (extended y) was = absurd (ground (arith, h, was))
    by_extension (not_extended e' y) was =
        let same : e' ≡ e = ground (arith, h, was) in
        subst (λ e. IsLimit content pool.geometry.max_line_bytes e) same
          (extend_line-IsLimit file content r.block_start a r.ownership_end pool y e' holds answers
            window begins lt le quiet was)

close_line-IsLimit :
    (content : Bytes) (block a : ℕ) (r : ReadRange) (pool p : Pool) (e : PoolError)
    → IsWindow (unsealed content) r.block_start pool.buffer
    → Begins pool.buffer a
    → a < r.ownership_end
    → r.ownership_end ≤ length pool.buffer
    → IsPlain pool.buffer a r.ownership_end
    → close_line block r a pool ≡ some (p, some e)
    → IsLimit content pool.geometry.max_line_bytes e
unfolding close_line
close_line-IsLimit content block a r pool p e window begins lt le quiet h =
    let cut = take r.ownership_end pool.buffer in
    let line = piece cut a r.ownership_end in
    let whole : length cut ≡ r.ownership_end =
      omega (arith, le, length-take r.ownership_end pool.buffer) in
    let len : length line ≡ r.ownership_end - a =
      length-piece cut a r.ownership_end lt (omega (arith, whole)) in
    elim (Bool-cases (exceeds_line_limit line pool.geometry.max_line_bytes)) [
      | inr short ↦ absurd (ground (arith, h, short))
      | inl long ↦
          let more = exceeds_line_limit-long line pool.geometry.max_line_bytes long in
          (
            r.block_start + a - 1,
            ground (arith, h, long),
            stretch-IsTooLong content r.block_start a r.ownership_end pool.geometry.max_line_bytes
                pool.buffer window begins.0 begins.1 le (omega (arith, more, len)) quiet,
          )
    ]

index_lines-IsLimit :
    (file : File) (content : Bytes) (block a : ℕ) (r : ReadRange) (pool p : Pool) (e : PoolError)
    → Holds file content pool.geometry
    → Answers file content pool.geometry
    → IsWindow (unsealed content) r.block_start pool.buffer
    → Begins pool.buffer a
    → a < r.ownership_end
    → r.ownership_end ≤ length pool.buffer
    → index_lines file block r a pool ≡ some (p, some e)
    → IsLimit content pool.geometry.max_line_bytes e
unfolding index_lines check_line_limit
index_lines-IsLimit file content block a r pool p e holds answers window begins lt le h =
    let own = r.ownership_end in
    let limit = pool.geometry.max_line_bytes in
    let owned = piece pool.buffer a own in
    let ends = line_ends a owned in
    let last = last_offset ends a in
    let indexed = record pool {
      offsets = a ∷ ends;
      cr = has_crlf (get_or pool.buffer (a - 1) 0) owned;
    } in
    let found = line_ends-piece pool.buffer a own begins.0 (omega (arith, lt)) le begins.1 in
    let opened = last-Begins pool.buffer a ends found.spans in
    elim (Option-cases (check_line_limit pool.buffer limit (a ∷ ends))) [
      | inr (s, long) ↦ (
        r.block_start + s - 1,
        ground (arith, h, long),
        first_too_long-IsTooLong content r.block_start limit s pool.buffer (a ∷ ends) window
            found.spans (ground (arith, long)),
      )
      | inl short ↦ elim (Bool-cases (leb own last)) [
        | inl whole ↦ absurd (ground (arith, h, short, whole))
        | inr open_end ↦
            let below : last < own = ground (arith, open_end) in
            elim (Bool-cases (ltb (r.block_start + (own - 1)) pool.geometry.file_size)) [
              | inl more ↦
                  continue_line-IsLimit file content block last r indexed p e holds answers window
                    opened below le found.rest (ground (arith, h, short, open_end, more))
              | inr last_block ↦
                  close_line-IsLimit content block last r indexed p e window opened below le
                    found.rest (ground (arith, h, short, open_end, last_block))
            ]
      ]
    ]

fill_block-IsLimit :
    (file : File) (content : Bytes) (block : ℕ) (r : ReadRange) (got : Bytes) (pool p : Pool)
    (e : PoolError)
    → Holds file content pool.geometry
    → Answers file content pool.geometry
    → 0 < r.ownership_end
    → let buffer =
        if r.skip == 1 then (if block == 0 then newline else pool.carried) ∷ got else got in
      IsWindow (unsealed content) r.block_start buffer
      → r.ownership_end ≤ length buffer
      → fill_block file block r got pool ≡ some (p, some e)
      → IsLimit content pool.geometry.max_line_bytes e
unfolding fill_block
fill_block-IsLimit file content block r got pool p e holds answers pos window fits h =
    let own = r.ownership_end in
    let buffer =
      if r.skip == 1 then (if block == 0 then newline else pool.carried) ∷ got else got in
    let filled = record pool {
      buffer = buffer;
      carried_block = block + 1;
      carried = get_or buffer (own - 1) 0;
      offsets = [];
      cr = false;
      line_cursor = 0;
      next_line = 0;
    } in
    elim (Option-cases (first_line buffer own)) [
      | inl nothing ↦ absurd (ground (arith, h, nothing))
      | inr (a, first) ↦
          let (a_pos, lt, opened, _) = first_line-some buffer own a pos fits first in
          index_lines-IsLimit file content block a r filled p e holds answers window (a_pos, opened)
            lt fits (ground (arith, h, first))
    ]

-- A read that succeeds and brings all its bytes is no error.
block_error-full :
    (file : File) (g : Geometry) (start wanted read : ℕ) (error : ReadError)
    → read ≡ wanted
    → error ≢ fault
    → block_error file g start wanted read error ≡ none
unfolding block_error
block_error-full file g start wanted read no_error full quiet = ground (arith, full)
block_error-full file g start wanted read at_end full quiet = ground (arith, full)
block_error-full file g start wanted read fault full quiet = absurd (quiet refl)

load_block-fills :
    (file : File) (content : Bytes) (block : ℕ) (pool p : Pool) (e : PoolError)
    → Holds file content pool.geometry
    → Answers file content pool.geometry
    → IsCarried content pool
    → 0 < pool.geometry.block_bytes
    → block * pool.geometry.block_bytes < pool.geometry.file_size
    → load_block file block pool ≡ some (p, some e)
    → IsLimit content pool.geometry.max_line_bytes e
unfolding load_block
load_block-fills file content block pool p e holds answers carried pos inside h =
    let r = block_read_range pool.geometry block pool.carried_block in
    let wanted = r.read_bytes - r.skip in
    let offset = r.block_start + r.skip - 1 in
    let got = (file.read_at offset wanted).0 in
    let error = (file.read_at offset wanted).1 in
    let (at, own, le, more, fits, skips) =
      block_read_range-bounds pool.geometry block pool.carried_block pos inside in
    let kind = carried_byte content block pool r carried pos inside at skips in
    let (window, len) =
      read-IsWindow file content pool.geometry r.block_start r.skip r.read_bytes
        (if block == 0 then newline else pool.carried) holds (omega (arith, fits, holds.size))
        (omega (arith, le, more)) kind in
    let read : offset + wanted ≤ length content = elim kind [
      | inl (one, _) ↦ omega (arith, holds.size, fits, le, more, one)
      | inr (whole, begins) ↦ omega (arith, holds.size, fits, le, more, whole, begins)
    ] in
    let full : length got ≡ wanted = omega (
      arith,
      read,
      ap length (holds.reads offset wanted read),
      length-take wanted (drop offset content),
      length-drop offset content,
    ) in
    let fine =
      block_error-full file pool.geometry r.block_start wanted (length got) error full
        (answers.succeeds offset wanted read) in
    fill_block-IsLimit file content block r got pool p e holds answers (omega (arith, more)) window
      (omega (arith, le, len)) (ground (arith, h, fine))

-- For a file that keeps its content and its metadata and whose reads succeed: a load of a block of the
-- file ends, and the only error that loadBlockLocked gives is that a line is too long, with the position
-- where such a line starts: behind a line feed or where the file begins, with more bytes than the limit
-- before the next line feed.
pub load_block-IsLimit :
    (file : File) (content : Bytes) (block : ℕ) (pool : Pool)
    → ReadsAtMost file
    → Holds file content pool.geometry
    → Answers file content pool.geometry
    → IsCarried content pool
    → 0 < pool.geometry.block_bytes
    → block * pool.geometry.block_bytes < pool.geometry.file_size
    → (p : Pool) × (error : Option PoolError) × (load_block file block pool ≡ some (p, error))
      × ((e : PoolError) → error ≡ some e → IsLimit content pool.geometry.max_line_bytes e)
load_block-IsLimit file content block pool reads holds answers carried pos inside =
    by_result (load_block file block pool) refl (load_block-Loads file block pool reads pos inside)
  where
    by_result :
        (loaded : Loaded)
        → load_block file block pool ≡ loaded
        → Loads (core pool) loaded
        → (p : Pool) × (error : Option PoolError) × (load_block file block pool ≡ some (p, error))
          × ((e : PoolError) → error ≡ some e → IsLimit content pool.geometry.max_line_bytes e)
    by_result none was never = ground (arith, never)
    by_result (some (p, error)) was _ = (
      p,
      error,
      was,
      λ e named.
          load_block-fills file content block pool p e holds answers carried pos inside
            (was ∙ ap (λ x. some (p, x)) named),
    )

-- ===== src/Pool/Lines/Load.antt =====
-- proxypool.go: what loadBlockLocked finds in the file.
use mathlib.Core.Path.{subst}
use proxykit_go.Base.{
  ℕ, ◌+◌, ◌-◌, ◌*◌, ◌≤◌, ◌<◌, min, false, none, some, [], ◌∷◌, ltb, leb, ◌==◌, ◌≡◌, refl, arith,
  if◌then◌else◌, length, get_or, Bool-cases, Option-cases, inl, inr,
}
use proxykit_go.Base.Bytes.{Bytes}
use proxykit_go.Pool.Sizes.{newline}
use proxykit_go.Pool.State.{Pool, File, ReadRange, block_read_range}
use proxykit_go.Pool.Extend.{line_ends, piece, has_crlf, check_line_limit}
use proxykit_go.Pool.Block.{last_offset, first_line, order_lines, index_lines}
use proxykit_go.Pool.Lines.Framed.{unsealed, IsWindow, IsWindow-framed}
use proxykit_go.Pool.Lines.Found.{IsPlain, line_ends-piece, first_line-some, first_line-none}
use proxykit_go.Pool.Lines.Ended.{Holds}
use proxykit_go.Pool.Lines.Block.{IsSearched, whole-IsIndexed}
use proxykit_go.Pool.Lines.Marks.{line_ends-piece-Unreturned}
use proxykit_go.Pool.Block.{fill_block, block_error, load_block}
use proxykit_go.Pool.Lines.Loaded.{
  IsRange, Succeeds, IsReady, order_lines-Succeeds, close_line-Succeeds, continue_line-Succeeds,
}
use proxykit_go.Pool.Lines.Reads.{IsCarried, read-IsWindow, block_read_range-bounds, carried_byte}

index_lines-Succeeds :
    (file : File) (content : Bytes) (block a : ℕ) (r : ReadRange) (pool p : Pool)
    → Holds file content pool.geometry
    → IsRange pool block r
    → IsWindow (unsealed content) r.block_start pool.buffer
    → r.ownership_end ≤ length pool.buffer
    → 0 < a
    → a < r.ownership_end
    → get_or pool.buffer (a - 1) 0 ≡ newline
    → IsPlain pool.buffer 0 (a - 1)
    → pool.carried_block ≡ block + 1
    → pool.carried ≡ get_or (unsealed content) (r.block_start + (r.ownership_end - 1)) 0
    → index_lines file block r a pool ≡ some (p, none)
    → Succeeds content r.block_start r.ownership_end block pool p
unfolding index_lines
index_lines-Succeeds file content block a r pool p holds range window fits pos lt opened before c c'
      h =
    let own = r.ownership_end in
    let owned = piece pool.buffer a own in
    let ends = line_ends a owned in
    let last = last_offset ends a in
    let indexed = record pool {
      offsets = a ∷ ends;
      cr = has_crlf (get_or pool.buffer (a - 1) 0) owned;
    } in
    let searched : IsSearched content r.block_start own pool.buffer a ends
        (has_crlf (get_or pool.buffer (a - 1) 0) owned) =
      record {
        window = window;
        fits = fits;
        found = line_ends-piece pool.buffer a own pos (omega (arith, lt)) fits opened;
        before = (lt, before);
        flag = line_ends-piece-Unreturned pool.buffer a own pos fits;
      } in
    let ready : IsReady content r.block_start own block indexed a ends = record {
      offsets = refl;
      searched = searched;
      carried_block = c;
      carried = c';
    } in
    elim (Option-cases (check_line_limit pool.buffer pool.geometry.max_line_bytes (a ∷ ends))) [
      | inr (long_start, long) ↦ absurd (ground (arith, h, long))
      | inl short ↦ elim (Bool-cases (leb own last)) [
        | inl whole ↦
            let result : order_lines block indexed ≡ p = ground (arith, h, short, whole) in
            subst (λ p. Succeeds content r.block_start own block pool p) result
              (order_lines-Succeeds content r.block_start own block pool indexed a ends refl
                (whole-IsIndexed content r.block_start own pool.buffer a ends _ searched
                  (ground (arith, whole)))
                c c' refl (λ k. k))
        | inr open_end ↦
            let below : last < own = ground (arith, open_end) in
            elim (Bool-cases (ltb (r.block_start + (own - 1)) pool.geometry.file_size)) [
              | inl more ↦
                  continue_line-Succeeds file content block a r ends indexed p holds range ready
                    below (ground (arith, h, short, open_end, more))
              | inr at_end ↦
                  close_line-Succeeds content block a r ends indexed p ready
                    (ground (arith, at_end, holds.size, window.inside, fits, lt)) below
                    (ground (arith, h, short, open_end, at_end))
            ]
      ]
    ]

fill_block-Succeeds :
    (file : File) (content : Bytes) (block : ℕ) (r : ReadRange) (got : Bytes) (pool p : Pool)
    → Holds file content pool.geometry
    → IsRange pool block r
    → 0 < r.ownership_end
    → let buffer =
        if r.skip == 1 then (if block == 0 then newline else pool.carried) ∷ got else got in
      IsWindow (unsealed content) r.block_start buffer
      → r.ownership_end ≤ length buffer
      → fill_block file block r got pool ≡ some (p, none)
      → Succeeds content r.block_start r.ownership_end block pool p
unfolding fill_block
fill_block-Succeeds file content block r got pool p holds range pos window fits h =
    let own = r.ownership_end in
    let buffer =
      if r.skip == 1 then (if block == 0 then newline else pool.carried) ∷ got else got in
    let filled = record pool {
      buffer = buffer;
      carried_block = block + 1;
      carried = get_or buffer (own - 1) 0;
      offsets = [];
      cr = false;
      line_cursor = 0;
      next_line = 0;
    } in
    let carried = window.same (own - 1) (omega (arith, pos, fits)) in
    elim (Option-cases (first_line buffer own)) [
      | inl nothing ↦
          let result : filled ≡ p = ground (arith, h, nothing) in
          subst (λ p. Succeeds content r.block_start own block pool p) result
            (
              (
                IsWindow-framed content r.block_start buffer window,
                fits,
                first_line-none buffer own pos fits nothing,
              ),
              λ some_offsets. absurd (omega (arith, some_offsets)),
              refl,
              refl,
              carried,
              λ k. k,
            )
      | inr (a, first) ↦
          let (a_pos, lt, opened, before) = first_line-some buffer own a pos fits first in
          index_lines-Succeeds file content block a r filled p holds range window fits a_pos lt
            opened before refl carried (ground (arith, h, first))
    ]

-- A block that is loaded without an error has the lines of the file that start in it.
pub load_block-Succeeds :
    (file : File) (content : Bytes) (block : ℕ) (pool p : Pool)
    → Holds file content pool.geometry
    → IsCarried content pool
    → 0 < pool.geometry.block_bytes
    → block * pool.geometry.block_bytes < pool.geometry.file_size
    → load_block file block pool ≡ some (p, none)
    → Succeeds content
        (block * pool.geometry.block_bytes)
        (1
          + min pool.geometry.block_bytes
              (pool.geometry.file_size - block * pool.geometry.block_bytes))
        block
        pool
        p
unfolding load_block block_read_range
load_block-Succeeds file content block pool p holds carried pos inside h =
    let r = block_read_range pool.geometry block pool.carried_block in
    let wanted = r.read_bytes - r.skip in
    let got = (file.read_at (r.block_start + r.skip - 1) wanted).0 in
    let error = (file.read_at (r.block_start + r.skip - 1) wanted).1 in
    let (at, own, le, more, fits, skips) =
      block_read_range-bounds pool.geometry block pool.carried_block pos inside in
    let (window, len) =
      read-IsWindow file content pool.geometry r.block_start r.skip r.read_bytes
        (if block == 0 then newline else pool.carried) holds (omega (arith, fits, holds.size))
        (omega (arith, le, more)) (carried_byte content block pool r carried pos inside at skips) in
    elim (Option-cases (block_error file pool.geometry r.block_start wanted (length got) error)) [
      | inr (e, failed) ↦ absurd (ground (arith, h, failed))
      | inl fine ↦
          rw (← at, ← own)
            (fill_block-Succeeds file content block r got pool p holds (at, omega (arith, own), pos)
              (omega (arith, more)) window (omega (arith, le, len)) (ground (arith, h, fine)))
    ]

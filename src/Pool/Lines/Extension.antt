-- ===== src/Pool/Lines/Extension.antt =====
-- proxypool.go: what extendLineLocked leaves in the buffer.
use mathlib.Core.Path.{subst}
use proxykit_go.Base.{
  ℕ, zero, suc, ◌+◌, ◌-◌, ◌≤◌, ◌<◌, ◌++◌, leb, ◌==◌, ◌≡◌, arith, length, get_or, take, drop, sym,
  ap, ◌∙◌, Bool-cases, Option-cases, inl, inr, length-drop,
}
use proxykit_go.Base.Bytes.{Bytes, index_byte}
use proxykit_go.Pool.Sizes.{newline}
use proxykit_go.Pool.Open.{Geometry}
use proxykit_go.Pool.State.{Pool, File}
use proxykit_go.Pool.Extend.{extended, extend_bytes, extend_error, extend_loop, extend_line}
use proxykit_go.Pool.Limits.{get_or-drop}
use proxykit_go.Pool.Lines.Framed.{unsealed, IsWindow, IsWindow-piece}
use proxykit_go.Pool.Lines.Ended.{
  Holds, IsExtended, IsOpen, finish_line-IsExtended, accept_line-terminated, IsExtended-same,
  IsOpen-grown, finish_line-grown,
}
use proxykit_go.Pool.Lines.Found.{IsPlain, IsPlain-append, index_byte-first, index_byte-IsPlain}

-- What a round reads, if the file has the content.
pub round-IsWindow :
    (file : File) (content : Bytes) (g : Geometry) (start len limit : ℕ)
    → Holds file content g
    → 0 < len
    → start + len ≤ length (unsealed content)
    → IsWindow
        (unsealed content)
        (start + len)
        (file.read_at (start + len - 1) (extend_bytes g len limit (start + len - 1))).0
unfolding extend_bytes
round-IsWindow file content g start len limit holds some_bytes inside =
    let n = extend_bytes g len limit (start + len - 1) in
    let fits : start + len - 1 + n ≤ length content =
      omega (arith, holds.size, inside, some_bytes) in
    let next : start + len ≡ suc (start + len - 1) = omega (arith, some_bytes) in
    rw (holds.reads (start + len - 1) n fits) (
      subst (λ k. IsWindow (unsealed content) k (take n (drop (start + len - 1) content)))
        (sym next)
        (IsWindow-piece (unsealed content) (suc (start + len - 1)) n (omega (arith, fits))))

extend_loop-IsExtended :
    (rounds : ℕ) (file : File) (content : Bytes) (start line_start search : ℕ) (pool p : Pool)
    → Holds file content pool.geometry
    → IsOpen content start search pool
    → extend_loop rounds file start line_start pool ≡ extended p
    → IsExtended content start search pool p
unfolding extend_loop
extend_loop-IsExtended zero file content start line_start search pool p holds open_line h = cc
extend_loop-IsExtended (suc rounds) file content start line_start search pool p holds open_line h =
    let len = length pool.buffer in
    let stop = start + len - 1 in
    let limit = line_start + pool.geometry.max_line_bytes + 2 in
    let wanted = extend_bytes pool.geometry len limit stop in
    let got = (file.read_at stop wanted).0 in
    let error = (file.read_at stop wanted).1 in
    let grown = record pool { buffer = pool.buffer ++ got } in
    let read =
      round-IsWindow file content pool.geometry start len limit holds open_line.some_bytes
        open_line.window.inside in
    elim (Bool-cases (leb limit len)) [
      | inl over ↦ absurd (ground (arith, h, over))
      | inr within ↦ elim (Bool-cases (stop == pool.geometry.file_size)) [
        | inl ends ↦
            accept_line-terminated content start line_start search pool p open_line
              (ground (arith, ends, holds.size, open_line.some_bytes))
              (ground (arith, h, within, ends))
        | inr before ↦ elim (Option-cases (index_byte got newline)) [
          | inr (i, found) ↦
              finish_line-grown content start line_start search i pool p got open_line read found
                (ground (arith, h, within, before, found))
          | inl missing ↦
              elim (Option-cases
                (extend_error file start line_start wanted (length got) error grown)) [
                  | inr (e, failed) ↦ absurd (ground (arith, h, within, before, missing, failed))
                  | inl fine ↦
                      let quiet = index_byte-IsPlain got missing in
                      let x =
                        extend_loop-IsExtended rounds file content start line_start search grown p
                          holds (IsOpen-grown content start search pool got open_line read quiet)
                          (ground (arith, h, within, before, missing, fine)) in
                      IsExtended-same content start search pool p (pool.buffer ++ got) x
                ]
        ]
      ]
    ]

-- A stretch without line feeds, and where it stands in the buffer.
pub drop-IsPlain :
    (buffer : Bytes) (found n : ℕ)
    → IsPlain (drop found buffer) 0 n
    → IsPlain buffer found (found + n)
drop-IsPlain buffer found n plain q lo hi e =
    let at : found + (q - found) ≡ q = omega (arith, lo) in
    plain (q - found) (omega arith) (omega (arith, lo, hi))
      (get_or-drop found (q - found) buffer ∙ ap (λ k. get_or buffer k 0) at ∙ e)

-- The line that is open at `search` is extended to its end, from a buffer with the line's first bytes.
pub extend_line-IsExtended :
    (file : File) (content : Bytes) (start search found : ℕ) (pool p : Pool)
    → Holds file content pool.geometry
    → IsWindow (unsealed content) start pool.buffer
    → search < found
    → found ≤ length pool.buffer
    → IsPlain pool.buffer search found
    → extend_line file start search found pool ≡ extended p
    → IsExtended content start search pool p
unfolding extend_line
extend_line-IsExtended file content start search found pool p holds window lt le quiet h =
    elim (Option-cases (index_byte (drop found pool.buffer) newline)) [
      | inr (i, at) ↦
          let (inside, feed, plain) = index_byte-first (drop found pool.buffer) i at in
          finish_line-IsExtended content start search search (found + i) pool p window
            (omega (arith, lt)) (omega (arith, inside, length-drop found pool.buffer))
            (sym (get_or-drop found i pool.buffer) ∙ feed)
            (IsPlain-append pool.buffer search found (found + i) quiet
              (drop-IsPlain pool.buffer found i plain))
            (ground (arith, h, at))
      | inl missing ↦
          let plain = index_byte-IsPlain (drop found pool.buffer) missing in
          let total : found + length (drop found pool.buffer) ≡ length pool.buffer =
            omega (arith, le, length-drop found pool.buffer) in
          extend_loop-IsExtended (pool.geometry.max_line_bytes + search + 4) file content start
            search search pool p holds
            (record {
              window = window;
              within = omega (arith, lt, le);
              some_bytes = omega (arith, lt, le);
              plain = IsPlain-append pool.buffer search found (length pool.buffer) quiet (
                  subst (λ n. IsPlain pool.buffer found n) total
                    (drop-IsPlain pool.buffer found (length (drop found pool.buffer)) plain));
            })
            (ground (arith, h, missing))
    ]

-- ===== src/Pool/Lines/Failed.antt =====
-- proxypool.go: an extension of a line in a file that keeps its content fails only if it is too long.
use mathlib.Core.Path.{subst}
use proxykit_go.Base.{
  ℕ, zero, suc, ◌+◌, ◌-◌, ◌≤◌, ◌<◌, true, none, ◌++◌, leb, ◌==◌, ◌≡◌, ◌≢◌, refl, arith, length,
  get_or, take, drop, sym, ap, ◌∙◌, Bool-cases, Option-cases, inl, inr, length-take, length-drop,
  length-append,
}
use proxykit_go.Base.Bytes.{Bytes, index_byte}
use proxykit_go.Pool.Sizes.{newline, exceeds_line_limit}
use proxykit_go.Pool.Open.{Geometry}
use proxykit_go.Pool.State.{
  Pool, File, PoolError, line_too_long, ReadError, no_error, at_end, fault,
}
use proxykit_go.Pool.Extend.{
  not_extended, terminated, accept_line, finish_line, extend_bytes, extend_error, extend_loop,
  extend_line,
}
use proxykit_go.Pool.Limits.{get_or-drop, get_or-take}
use proxykit_go.Pool.Lines.Framed.{
  unsealed, IsWindow, IsWindow-append, get_or-append_left, get_or-append_right,
}
use proxykit_go.Pool.Lines.Found.{IsPlain, IsPlain-append, index_byte-first, index_byte-IsPlain}
use proxykit_go.Pool.Lines.Ended.{Holds, IsOpen, IsOpen-grown, IsPlain-joined}
use proxykit_go.Pool.Lines.Extension.{round-IsWindow, drop-IsPlain}
use proxykit_go.Pool.Lines.Limited.{
  Answers, IsLimit, exceeds_line_limit-long, exceeds_line_limit-closed, stretch-IsTooLong,
}

-- Where a line begins in the buffer.
abbrev pub Begins : Bytes → ℕ → Type 0
Begins buffer a = (0 < a) × (get_or buffer (a - 1) 0 ≡ newline)

accept_line-error :
    (start line_start : ℕ) (pool accepted p : Pool) (e : PoolError)
    → accept_line start line_start pool accepted ≡ not_extended e p
    → (e ≡ line_too_long (start + line_start - 1))
      × (exceeds_line_limit (drop line_start pool.buffer) pool.geometry.max_line_bytes ≡ true)
unfolding accept_line
accept_line-error start line_start pool accepted p e h = (ground (arith, h), ground (arith, h))

-- The line that ends with a line feed of the buffer.
finish_line-IsLimit :
    (content : Bytes) (start a before : ℕ) (pool p : Pool) (e : PoolError)
    → IsWindow (unsealed content) start pool.buffer
    → Begins pool.buffer a
    → a ≤ before
    → before < length pool.buffer
    → get_or pool.buffer before 0 ≡ newline
    → IsPlain pool.buffer a before
    → finish_line start a before pool ≡ not_extended e p
    → IsLimit content pool.geometry.max_line_bytes e
unfolding finish_line
finish_line-IsLimit content start a before pool p e window (pos, opened) le lt feed plain h =
    let cut = record pool { buffer = take (before + 1) pool.buffer } in
    let (named, long) = accept_line-error start a cut _ p e h in
    let line = drop a cut.buffer in
    let len : length line ≡ before + 1 - a =
      omega (arith, length-drop a cut.buffer, length-take (before + 1) pool.buffer, lt) in
    let at : a + (length line - 1) ≡ before = omega (arith, len, le) in
    let last : get_or line (length line - 1) 0 ≡ newline =
      get_or-drop a (length line - 1) cut.buffer
      ∙ ap (λ k. get_or cut.buffer k 0) at
      ∙ get_or-take (before + 1) before pool.buffer (omega arith)
      ∙ feed in
    let more = exceeds_line_limit-closed line pool.geometry.max_line_bytes long last in
    (
      start + a - 1,
      named,
      stretch-IsTooLong content start a before pool.geometry.max_line_bytes pool.buffer window pos
          opened (omega (arith, lt)) (omega (arith, len, more)) plain,
    )

-- The line that ends with the file.
accept_line-IsLimit :
    (content : Bytes) (start a : ℕ) (pool accepted p : Pool) (e : PoolError)
    → IsOpen content start a pool
    → Begins pool.buffer a
    → accept_line start a pool accepted ≡ not_extended e p
    → IsLimit content pool.geometry.max_line_bytes e
accept_line-IsLimit content start a pool accepted p e open_line (pos, opened) h =
    let (named, long) = accept_line-error start a pool accepted p e h in
    let more = exceeds_line_limit-long (drop a pool.buffer) pool.geometry.max_line_bytes long in
    (
      start + a - 1,
      named,
      stretch-IsTooLong content start a (length pool.buffer) pool.geometry.max_line_bytes
          pool.buffer open_line.window pos opened (omega arith)
          (omega (arith, more, length-drop a pool.buffer)) open_line.plain,
    )

-- A read that succeeds and brings all its bytes is no error.
extend_error-none :
    (file : File) (start a wanted read : ℕ) (error : ReadError) (pool : Pool)
    → read ≡ wanted
    → error ≢ fault
    → extend_error file start a wanted read error pool ≡ none
unfolding extend_error
extend_error-none file start a wanted read no_error pool full quiet = ground (arith, full)
extend_error-none file start a wanted read at_end pool full quiet = ground (arith, full)
extend_error-none file start a wanted read fault pool full quiet = absurd (quiet refl)

-- What a round asks for is in the file.
round-fits :
    (content : Bytes) (g : Geometry) (len limit absolute_end : ℕ)
    → g.file_size ≡ length content
    → absolute_end ≤ length content
    → absolute_end + extend_bytes g len limit absolute_end ≤ length content
unfolding extend_bytes
round-fits content g len limit absolute_end size inside = omega (arith, size, inside)

extend_loop-IsLimit :
    (rounds : ℕ) (file : File) (content : Bytes) (start a : ℕ) (pool p : Pool) (e : PoolError)
    → Holds file content pool.geometry
    → Answers file content pool.geometry
    → IsOpen content start a pool
    → Begins pool.buffer a
    → extend_loop rounds file start a pool ≡ not_extended e p
    → IsLimit content pool.geometry.max_line_bytes e
unfolding extend_loop
extend_loop-IsLimit zero file content start a pool p e holds answers open_line begins h = cc
extend_loop-IsLimit (suc rounds) file content start a pool p e holds answers open_line begins h =
    let len = length pool.buffer in
    let stop = start + len - 1 in
    let limit = a + pool.geometry.max_line_bytes + 2 in
    let wanted = extend_bytes pool.geometry len limit stop in
    let got = (file.read_at stop wanted).0 in
    let error = (file.read_at stop wanted).1 in
    let grown = record pool { buffer = pool.buffer ++ got } in
    let read =
      round-IsWindow file content pool.geometry start len limit holds open_line.some_bytes
        open_line.window.inside in
    let fits =
      round-fits content pool.geometry len limit stop holds.size
        (omega (arith, open_line.window.inside, open_line.some_bytes)) in
    let begins' : Begins grown.buffer a = (
      begins.0,
      get_or-append_left pool.buffer got (a - 1) (omega (arith, begins.0, open_line.within))
          ∙ begins.1,
    ) in
    elim (Bool-cases (leb limit len)) [
      | inl over ↦ (
        start + a - 1,
        ground (arith, h, over),
        stretch-IsTooLong content start a len pool.geometry.max_line_bytes pool.buffer
            open_line.window begins.0 begins.1 (omega arith) (ground (arith, over)) open_line.plain,
      )
      | inr within ↦ elim (Bool-cases (stop == pool.geometry.file_size)) [
        | inl ends ↦
            accept_line-IsLimit content start a pool (terminated pool) p e open_line begins
              (ground (arith, h, within, ends))
        | inr before ↦ elim (Option-cases (index_byte got newline)) [
          | inr (i, found) ↦
              let (lt, feed, quiet) = index_byte-first got i found in
              finish_line-IsLimit content start a (len + i) grown p e
                (IsWindow-append (unsealed content) start pool.buffer got open_line.window read)
                begins' (omega (arith, open_line.within))
                (omega (arith, lt, length-append pool.buffer got))
                (get_or-append_right pool.buffer got i ∙ feed)
                (IsPlain-joined pool.buffer got a i open_line.plain quiet)
                (ground (arith, h, within, before, found))
          | inl missing ↦
              let quiet = index_byte-IsPlain got missing in
              let full : length got ≡ wanted = omega (
                arith,
                fits,
                ap length (holds.reads stop wanted fits),
                length-take wanted (drop stop content),
                length-drop stop content,
              ) in
              let fine =
                extend_error-none file start a wanted (length got) error grown full
                  (answers.succeeds stop wanted fits) in
              extend_loop-IsLimit rounds file content start a grown p e holds answers
                (IsOpen-grown content start a pool got open_line read quiet) begins'
                (ground (arith, h, within, before, missing, fine))
        ]
      ]
    ]

-- A line that is not extended is too long.
pub extend_line-IsLimit :
    (file : File) (content : Bytes) (start a found : ℕ) (pool p : Pool) (e : PoolError)
    → Holds file content pool.geometry
    → Answers file content pool.geometry
    → IsWindow (unsealed content) start pool.buffer
    → Begins pool.buffer a
    → a < found
    → found ≤ length pool.buffer
    → IsPlain pool.buffer a found
    → extend_line file start a found pool ≡ not_extended e p
    → IsLimit content pool.geometry.max_line_bytes e
unfolding extend_line
extend_line-IsLimit file content start a found pool p e holds answers window begins lt le quiet h =
    elim (Option-cases (index_byte (drop found pool.buffer) newline)) [
      | inr (i, at) ↦
          let (inside, feed, plain) = index_byte-first (drop found pool.buffer) i at in
          finish_line-IsLimit content start a (found + i) pool p e window begins (omega (arith, lt))
            (omega (arith, inside, length-drop found pool.buffer))
            (sym (get_or-drop found i pool.buffer) ∙ feed)
            (IsPlain-append pool.buffer a found (found + i) quiet
              (drop-IsPlain pool.buffer found i plain))
            (ground (arith, h, at))
      | inl missing ↦
          let plain = index_byte-IsPlain (drop found pool.buffer) missing in
          let total : found + length (drop found pool.buffer) ≡ length pool.buffer =
            omega (arith, le, length-drop found pool.buffer) in
          extend_loop-IsLimit (pool.geometry.max_line_bytes + a + 4) file content start a pool p e
            holds answers
            (record {
              window = window;
              within = omega (arith, lt, le);
              some_bytes = omega (arith, lt, le);
              plain = IsPlain-append pool.buffer a found (length pool.buffer) quiet (
                  subst (λ n. IsPlain pool.buffer found n) total
                    (drop-IsPlain pool.buffer found (length (drop found pool.buffer)) plain));
            })
            begins (ground (arith, h, missing))
    ]

-- ===== src/Pool/Lines/Found.antt =====
-- proxypool.go: what indexBlockLocked finds, and where the first line of a block begins.
use mathlib.Core.Path.{subst}
use proxykit_go.Base.{
  ℕ, zero, suc, ◌+◌, ◌-◌, ◌≤◌, ◌<◌, false, none, some, List, [], ◌∷◌, ltb, ◌==◌, ◌≡◌, ◌≢◌, arith,
  length, get_or, drop, sym, ap, ◌∙◌, Bool-cases, Option-cases, inl, inr, length-take, length-drop,
}
use proxykit_go.Base.Bytes.{Bytes, index_byte}
use proxykit_go.Pool.Sizes.{newline}
use proxykit_go.Pool.Extend.{line_ends, piece}
use proxykit_go.Pool.Block.{last_offset, first_line}
use proxykit_go.Pool.Limits.{get_or-drop, get_or-take}
use proxykit_go.Pool.Lines.Spans.{Spans}

-- No line feed stands in a stretch of the buffer.
abbrev pub IsPlain : Bytes → ℕ → ℕ → Type 0
IsPlain buffer lo hi = (q : ℕ) → lo ≤ q → q < hi → get_or buffer q 0 ≢ newline

pub IsPlain-snoc :
    (buffer : Bytes) (lo hi : ℕ)
    → IsPlain buffer lo hi
    → get_or buffer hi 0 ≢ newline
    → IsPlain buffer lo (hi + 1)
IsPlain-snoc buffer lo hi h last q ge lt e = elim (Bool-cases (ltb q hi)) [
  | inl inner ↦ h q ge (ground (arith, inner)) e
  | inr outer ↦
      let at : q ≡ hi = ground (arith, outer, lt) in last (ap (λ k. get_or buffer k 0) (sym at) ∙ e)
]

pub IsPlain-append :
    (buffer : Bytes) (lo mid hi : ℕ)
    → IsPlain buffer lo mid
    → IsPlain buffer mid hi
    → IsPlain buffer lo hi
IsPlain-append buffer lo mid hi h h' q ge lt = elim (Bool-cases (ltb q mid)) [
  | inl low ↦ h q ge (ground (arith, low))
  | inr high ↦ h' q (ground (arith, high)) lt
]

-- What stands behind the offsets that line_ends finds in a text at `position`.
pub record IsFound (buffer : Bytes) (a stop : ℕ) (offsets : List ℕ) : Type 0 where
  pub spans : Spans buffer (a ∷ offsets)
  pub last_ge : a ≤ last_offset offsets a
  pub last_le : last_offset offsets a ≤ stop
  pub rest : IsPlain buffer (last_offset offsets a) stop

line_ends-IsFound :
    (buffer : Bytes) (a position : ℕ) (s : Bytes)
    → 0 < a
    → a ≤ position
    → get_or buffer (a - 1) 0 ≡ newline
    → IsPlain buffer a position
    → position + length s ≤ length buffer
    → ((i : ℕ) → i < length s → get_or s i 0 ≡ get_or buffer (position + i) 0)
    → IsFound buffer a (position + length s) (line_ends position s)
unfolding line_ends
line_ends-IsFound buffer a position [] pos le opened plain inside same = record {
  spans = (pos, opened);
  last_ge = omega arith;
  last_le = omega arith;
  rest = λ q lo hi. plain q lo (omega (arith, hi));
}
line_ends-IsFound buffer a position (c ∷ cs) pos le opened plain inside same =
    let at_zero : position + 0 ≡ position = omega arith in
    let first : c ≡ get_or buffer position 0 =
      same 0 (omega arith) ∙ ap (λ k. get_or buffer k 0) at_zero in
    let total : position + 1 + length cs ≡ position + suc (length cs) = omega arith in
    let shift = λ (i : ℕ) (h : i < length cs).
      same (suc i) (omega (arith, h)) ∙ ap (λ k. get_or buffer k 0) (shifted position i) in
    elim (Bool-cases (c == newline)) [
      | inl feed ↦
          let back : position + 1 - 1 ≡ position = omega arith in
          let closed : get_or buffer (position + 1 - 1) 0 ≡ newline =
            rw back (ground (arith, first, feed)) in
          let found =
            line_ends-IsFound buffer (position + 1) (position + 1) cs (omega arith) (omega arith)
              closed (λ q lo hi. absurd (omega (arith, lo, hi))) (omega (arith, inside)) shift in
          rw (feed, ← total)
            (record {
              spans = (
                record {
                  positive = pos;
                  rises = omega (arith, le);
                  inside = omega (arith, inside);
                  opened = opened;
                  closed = closed;
                  plain = λ q lo hi. plain q lo (omega (arith, hi));
                },
                found.spans,
              );
              last_ge = omega (arith, found.last_ge, le);
              last_le = found.last_le;
              rest = found.rest;
            })
      | inr other ↦
          let quiet = IsPlain-snoc buffer a position plain (ground (arith, first, other)) in
          let found =
            line_ends-IsFound buffer a (position + 1) cs pos (omega (arith, le)) opened quiet
              (omega (arith, inside)) shift in
          rw (other, ← total) found
    ]
  where
    shifted : (p i : ℕ) → p + suc i ≡ p + 1 + i
    shifted p i = omega arith

-- The offsets of a block, from the start of its first line on.
pub line_ends-piece :
    (buffer : Bytes) (a stop : ℕ)
    → 0 < a
    → a ≤ stop
    → stop ≤ length buffer
    → get_or buffer (a - 1) 0 ≡ newline
    → IsFound buffer a stop (line_ends a (piece buffer a stop))
line_ends-piece buffer a stop pos le inside opened =
    let len : length (piece buffer a stop) ≡ stop - a =
      omega (arith, length-take (stop - a) (drop a buffer), length-drop a buffer) in
    let total : a + length (piece buffer a stop) ≡ stop = omega (arith, len, le) in
    subst (λ n. IsFound buffer a n (line_ends a (piece buffer a stop))) total
      (line_ends-IsFound buffer a a (piece buffer a stop) pos (omega arith) opened
        (λ q lo hi. absurd (omega (arith, lo, hi))) (omega (arith, total, inside))
        (λ i h.
          get_or-take (stop - a) i (drop a buffer) (omega (arith, h, len))
          ∙ get_or-drop a i buffer))

-- IndexByte finds the first line feed.
pub index_byte-first :
    (s : Bytes) (i : ℕ)
    → index_byte s newline ≡ some i
    → (i < length s) × (get_or s i 0 ≡ newline) × IsPlain s 0 i
unfolding index_byte
index_byte-first [] i h = cc
index_byte-first (c ∷ cs) zero h =
    (omega arith, ground (arith, h), λ q lo hi. absurd (omega (arith, hi)))
index_byte-first (c ∷ cs) (suc i) h =
    let inner : index_byte cs newline ≡ some i = ground (arith, h) in
    let other : (c == newline) ≡ false = ground (arith, h) in
    let (lt, feed, plain) = index_byte-first cs i inner in
    (omega (arith, lt), feed, before plain other)
  where
    before : IsPlain cs 0 i → (c == newline) ≡ false → IsPlain (c ∷ cs) 0 (suc i)
    before plain other zero lo hi e = ground (arith, other, e)
    before plain other (suc q) lo hi e = plain q (omega arith) (omega (arith, hi)) e

pub index_byte-IsPlain : (s : Bytes) → index_byte s newline ≡ none → IsPlain s 0 (length s)
unfolding index_byte
index_byte-IsPlain [] h q lo hi = absurd (omega (arith, hi))
index_byte-IsPlain (c ∷ cs) h zero lo hi = ground (arith, h)
index_byte-IsPlain (c ∷ cs) h (suc q) lo hi =
    index_byte-IsPlain cs (ground (arith, h)) q (omega arith) (omega (arith, hi))

-- A search in a piece, in the positions of the buffer.
pub index_byte-piece :
    (buffer : Bytes) (lo hi i : ℕ)
    → lo ≤ hi
    → hi ≤ length buffer
    → index_byte (piece buffer lo hi) newline ≡ some i
    → (lo + i < hi) × (get_or buffer (lo + i) 0 ≡ newline) × IsPlain buffer lo (lo + i)
index_byte-piece buffer lo hi i le inside h =
    let (lt, feed, plain) = index_byte-first (piece buffer lo hi) i h in
    let len : length (piece buffer lo hi) ≡ hi - lo =
      omega (arith, length-take (hi - lo) (drop lo buffer), length-drop lo buffer) in
    let same = λ (q : ℕ) (h : q < hi - lo).
      get_or-take (hi - lo) q (drop lo buffer) h ∙ get_or-drop lo q buffer in
    (
      omega (arith, lt, len),
      sym (same i (omega (arith, lt, len))) ∙ feed,
      λ q ge below e. plain (q - lo) (omega arith) (omega (arith, ge, below)) (
          same (q - lo) (omega (arith, ge, below, lt, len))
          ∙ ap (λ k. get_or buffer k 0) (inside_at lo q ge)
          ∙ e),
    )
  where
    inside_at : (lo q : ℕ) → lo ≤ q → lo + (q - lo) ≡ q
    inside_at lo q h = omega (arith, h)

pub index_byte-piece-IsPlain :
    (buffer : Bytes) (lo hi : ℕ)
    → hi ≤ length buffer
    → index_byte (piece buffer lo hi) newline ≡ none
    → IsPlain buffer lo hi
index_byte-piece-IsPlain buffer lo hi inside h q ge below e =
    let len : length (piece buffer lo hi) ≡ hi - lo =
      omega (arith, length-take (hi - lo) (drop lo buffer), length-drop lo buffer, ge, below) in
    let at : lo + (q - lo) ≡ q = omega (arith, ge) in
    index_byte-IsPlain (piece buffer lo hi) h (q - lo) (omega arith) (omega (arith, len, ge, below))
      (get_or-take (hi - lo) (q - lo) (drop lo buffer) (omega (arith, ge, below))
        ∙ get_or-drop lo (q - lo) buffer
        ∙ ap (λ k. get_or buffer k 0) at
        ∙ e)

-- The first line of a block: no line starts before it, or in the block at all.
pub first_line-some :
    (buffer : Bytes) (own s : ℕ)
    → 0 < own
    → own ≤ length buffer
    → first_line buffer own ≡ some s
    → (0 < s) × (s < own) × (get_or buffer (s - 1) 0 ≡ newline) × IsPlain buffer 0 (s - 1)
unfolding first_line
first_line-some buffer own s pos inside h = elim (Bool-cases (get_or buffer 0 0 == newline)) [
  | inl feed ↦
      let one : s ≡ 1 = ground (arith, h, feed) in
      let less : s < own = ground (arith, h, feed) in
      (
        omega (arith, one),
        less,
        rw one (ground (arith, feed)),
        λ q lo hi. absurd (omega (arith, hi, one)),
      )
  | inr other ↦ elim (Option-cases (index_byte (piece buffer 1 own) newline)) [
    | inl missing ↦ absurd (ground (arith, h, other, missing))
    | inr (i, found) ↦
        let at : s ≡ 2 + i = ground (arith, h, other, found) in
        let less : s < own = ground (arith, h, other, found) in
        let (lt, feed, plain) = index_byte-piece buffer 1 own i (omega (arith, pos)) inside found in
        let back : s - 1 ≡ 1 + i = omega (arith, at) in
        let zeroth =
          IsPlain-snoc buffer 0 0 (λ q lo hi. absurd (omega (arith, hi))) (ground (arith, other)) in
        (
          omega (arith, at),
          less,
          rw back feed,
          rw back (IsPlain-append buffer 0 (0 + 1) (1 + i) zeroth plain),
        )
  ]
]

pub first_line-none :
    (buffer : Bytes) (own : ℕ)
    → 0 < own
    → own ≤ length buffer
    → first_line buffer own ≡ none
    → IsPlain buffer 0 (own - 1)
unfolding first_line
first_line-none buffer own pos inside h = elim (Bool-cases (get_or buffer 0 0 == newline)) [
  | inl feed ↦
      let none_own : own ≤ 1 = ground (arith, h, feed) in
      λ q lo hi. absurd (omega (arith, hi, none_own))
  | inr other ↦
      let zeroth =
        IsPlain-snoc buffer 0 0 (λ q lo hi. absurd (omega (arith, hi))) (ground (arith, other)) in
      elim (Option-cases (index_byte (piece buffer 1 own) newline)) [
        | inl missing ↦
            let rest = index_byte-piece-IsPlain buffer 1 own inside missing in
            λ q lo hi. IsPlain-append buffer 0 (0 + 1) own zeroth rest q lo (omega (arith, hi))
        | inr (i, found) ↦
            let over : own ≤ 2 + i = ground (arith, h, other, found) in
            let (lt, feed, plain) =
              index_byte-piece buffer 1 own i (omega (arith, pos)) inside found in
            λ q lo hi.
              IsPlain-append buffer 0 (0 + 1) (1 + i) zeroth plain q lo
                (omega (arith, hi, over, lt))
      ]
]

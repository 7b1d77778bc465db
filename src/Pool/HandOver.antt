-- ===== src/Pool/HandOver.antt =====
-- batch.go: the lines that NextBatch hands over are those that Next would have returned.
use proxykit_go.Base.{
  ℕ, zero, suc, ◌+◌, ◌-◌, ◌≤◌, ◌<◌, Bool, true, false, List, [], ◌∷◌, ltb, ◌==◌, ◌≡◌, refl, arith,
  length, get_or, take, drop, Bool-cases, inl, inr, sym, ap, ◌∙◌,
}
use mathlib.Core.Path.{ap₂, subst}
use proxykit_go.Base.Bytes.{Bytes}
use proxykit_go.Pool.Sizes.{newline, carriage_return}
use proxykit_go.Pool.State.{Pool}
use proxykit_go.Pool.Permutation.{advance}
use proxykit_go.Pool.Extend.{piece}
use proxykit_go.Pool.Walk.{trim_return, line_at, take_line}
use proxykit_go.Pool.Limits.{are_lines, length-piece, last-piece}
use proxykit_go.Pool.Batch.{Batch, trimmed_end, batch_line, step_back, drain, hand_over}
use proxykit_go.Pool.BatchOrder.{walk, drain-walk}

-- The lines that `n` calls of Next take from the block that is loaded.
abbrev pub take_lines : ℕ → Pool → List Bytes
take_lines zero pool = []
take_lines (suc n) pool = let (l, p) = take_line pool in l ∷ take_lines n p

-- The pool behind `n` calls of Next.
abbrev pub took : ℕ → Pool → Pool
took zero pool = pool
took (suc n) pool = took n (take_line pool).1

took-cursor : (n : ℕ) (pool : Pool) → (took n pool).cursor ≡ pool.cursor + n
unfolding take_line
took-cursor zero pool = omega arith
took-cursor (suc n) pool = let rest = took-cursor n (take_line pool).1 in omega (arith, rest)

-- The offsets of a pool stand for lines of its buffer, the first behind a line feed, and the order
-- is one over these lines.
pub record HasLines (pool : Pool) : Type 0 where
  pub next_lt : pool.next_line < length pool.offsets - 1
  pub step_le : pool.line_step ≤ length pool.offsets - 1
  pub lines : are_lines pool.buffer pool.offsets ≡ true
  pub first_pos : 0 < get_or pool.offsets 0 0
  pub first : get_or pool.buffer (get_or pool.offsets 0 0 - 1) 0 ≡ newline

take-take : (m n : ℕ) (xs : Bytes) → m ≤ n → take m (take n xs) ≡ take m xs
take-take zero n xs h = refl
take-take (suc m) zero xs h = elim h [ ]
take-take (suc m) (suc n) [] h = refl
take-take (suc m) (suc n) (x ∷ xs) h = ap (◌∷◌ x) (take-take m n xs (omega arith))

-- A pool and a batch trim a line alike: a batch may look at the byte before an empty line, which is
-- a line feed.
trim_return-piece :
    (cr : Bool) (buffer : Bytes) (a stop : ℕ)
    → 0 < a
    → a ≤ stop
    → stop ≤ length buffer
    → get_or buffer (a - 1) 0 ≡ newline
    → piece buffer a (trimmed_end cr buffer stop) ≡ trim_return cr (piece buffer a stop)
unfolding trim_return
trim_return-piece false buffer a stop pos le inside closed = refl
trim_return-piece true buffer a stop pos le inside closed = elim (Bool-cases (ltb a stop)) [
  | inr empty ↦
      let same : stop ≡ a = ground (arith, empty, le) in
      let none_left : stop - a ≡ 0 = omega (arith, same) in
      let quiet : get_or buffer (stop - 1) 0 ≡ newline = rw same closed in
      rw (quiet, none_left) refl
  | inl more ↦
      let below : a < stop = ground (arith, more) in
      let len = length-piece buffer a stop below inside in
      let last = last-piece buffer a stop below inside in
      let cut = take-take (stop - a - 1) (stop - a) (drop a buffer) (omega arith) in
      let order : stop - 1 - a ≡ stop - a - 1 = omega arith in
      let some_left : (stop - a == 0) ≡ false = ground (arith, below) in
      elim (Bool-cases (get_or buffer (stop - 1) 0 == carriage_return)) [
        | inl ends ↦ rw (last, ends, len, some_left, order) (sym cut)
        | inr plain ↦ rw (last, plain, len, some_left) refl
      ]
]

-- The offsets of a line.
are_lines-at :
    (buffer : Bytes) (offsets : List ℕ) (i : ℕ)
    → are_lines buffer offsets ≡ true
    → i + 1 < length offsets
    → (get_or offsets i 0 < get_or offsets (i + 1) 0)
      × (get_or offsets (i + 1) 0 ≤ length buffer)
      × (get_or buffer (get_or offsets (i + 1) 0 - 1) 0 ≡ newline)
are_lines-at buffer [] i h lt = omega arith
are_lines-at buffer (a ∷ []) i h lt = omega arith
are_lines-at buffer (a ∷ b ∷ offsets) zero h lt =
    (ground (arith, h), ground (arith, h), ground (arith, h))
are_lines-at buffer (a ∷ b ∷ offsets) (suc i) h lt =
    let e : suc i + 1 ≡ suc (i + 1) = omega arith in
    rw e (are_lines-at buffer (b ∷ offsets) i (ground (arith, h)) (omega arith))

-- A line of the batch is the pool's line.
batch_line-hand_over :
    (pool : Pool) (batch : Batch) (i : ℕ)
    → HasLines pool
    → i < length pool.offsets - 1
    → batch_line (hand_over pool batch).1 i ≡ line_at pool i
unfolding batch_line hand_over line_at
batch_line-hand_over pool batch zero fit h =
    let (below, inside, _) = are_lines-at pool.buffer pool.offsets 0 fit.lines (omega (arith, h)) in
    trim_return-piece pool.cr pool.buffer (get_or pool.offsets 0 0)
      (get_or pool.offsets (0 + 1) 0 - 1) fit.first_pos (omega (arith, below))
      (omega (arith, inside)) fit.first
batch_line-hand_over pool batch (suc i) fit h =
    let e : i + 1 ≡ suc i = omega arith in
    let (_, _, closed) = are_lines-at pool.buffer pool.offsets i fit.lines (omega (arith, h)) in
    let (below, inside, _) =
      are_lines-at pool.buffer pool.offsets (suc i) fit.lines (omega (arith, h)) in
    let (rises, _, _) = are_lines-at pool.buffer pool.offsets i fit.lines (omega (arith, h)) in
    trim_return-piece pool.cr pool.buffer (get_or pool.offsets (suc i) 0)
      (get_or pool.offsets (suc i + 1) 0 - 1)
      (omega (arith, subst (λ k. get_or pool.offsets i 0 < get_or pool.offsets k 0) e rises))
      (omega (arith, below)) (omega (arith, inside))
      (subst (λ k. get_or pool.buffer (get_or pool.offsets k 0 - 1) 0 ≡ newline) e closed)

-- The lines of the pool in its order, from an index on.
unfoldable pub pool_walk : ℕ → Pool → ℕ → List Bytes
pool_walk zero pool index = []
pool_walk (suc n) pool index =
    line_at pool index ∷ pool_walk n pool (advance (length pool.offsets - 1) pool.line_step index)

pool_walk-moved :
    (n : ℕ) (pool : Pool) (m c d i : ℕ)
    → pool_walk n (record pool { next_line = m; line_cursor = c; cursor = d }) i
      ≡ pool_walk n pool i
unfolding pool_walk line_at
pool_walk-moved zero pool m c d i = refl
pool_walk-moved (suc n) pool m c d i = ap (◌∷◌ (line_at pool i)) (pool_walk-moved n pool m c d _)

pub take_lines-pool_walk :
    (n : ℕ) (pool : Pool) → take_lines n pool ≡ pool_walk n pool pool.next_line
unfolding take_line pool_walk
take_lines-pool_walk zero pool = refl
take_lines-pool_walk (suc n) pool =
    let moved = advance (length pool.offsets - 1) pool.line_step pool.next_line in
    ap (◌∷◌ (line_at pool pool.next_line)) (
      take_lines-pool_walk n (take_line pool).1
      ∙ pool_walk-moved n pool moved (pool.line_cursor + 1) (pool.cursor + 1) moved)

advance-lt : (lines step i : ℕ) → step ≤ lines → i < lines → advance lines step i < lines
unfolding advance
advance-lt lines step i hs hi = ground arith

walk-pool_walk :
    (n : ℕ) (pool : Pool) (batch : Batch) (i : ℕ)
    → HasLines pool
    → i < length pool.offsets - 1
    → walk n (hand_over pool batch).1 i ≡ pool_walk n pool i
unfolding walk pool_walk hand_over advance step_back
walk-pool_walk zero pool batch i fit h = refl
walk-pool_walk (suc n) pool batch i fit h = ap₂ ◌∷◌ (batch_line-hand_over pool batch i fit h) (
    walk-pool_walk n pool batch _ fit
      (advance-lt (length pool.offsets - 1) pool.line_step i fit.step_le h))

-- If the offsets of the pool stand for lines of its buffer: a batch that is handed over keeps just the
-- lines that Next has not taken from the pool's block, and returns, one by one until it has none, those
-- that as many calls of Next would have taken; the pool keeps no line of the block, and counts them as
-- these calls would have.
pub drain-hand_over :
    (pool : Pool) (batch : Batch)
    → HasLines pool
    → let (after, handed) = hand_over pool batch in
      let left = length pool.offsets - 1 - pool.line_cursor in
      (handed.remaining ≡ left)
      × (drain handed.remaining handed ≡ take_lines left pool)
      × (length after.offsets - 1 ≡ after.line_cursor)
      × (after.cursor ≡ (took left pool).cursor)
unfolding hand_over
drain-hand_over pool batch fit =
    let left = length pool.offsets - 1 - pool.line_cursor in
    (
      refl,
      drain-walk left (hand_over pool batch).1 (omega arith)
          ∙ walk-pool_walk left pool batch pool.next_line fit fit.next_lt
          ∙ sym (take_lines-pool_walk left pool),
      refl,
      sym (took-cursor left pool),
    )

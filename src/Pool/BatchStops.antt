-- ===== src/Pool/BatchStops.antt =====
-- batch.go: a body of Batch.Lines that stops early leaves the other lines to Batch.Next.
use proxykit_go.Base.{get_or}
use proxykit_go.Base.{
  ℕ, zero, suc, ◌+◌, ◌-◌, ◌≤◌, ◌<◌, min, List, ◌∷◌, ◌++◌, leb, not, ◌&&◌, ◌==◌, ◌≡◌, refl, arith,
  length, ap, sym, ◌∙◌, Bool-cases, inl, inr,
}
use proxykit_go.Base.Bytes.{Bytes}
use proxykit_go.Pool.Batch.{
  Batch, Yielded, batch_line, ordered_line, pair_line, step_back, drain, twice_back, yield_in_order,
  yield_in_pairs, lines_until,
}
use proxykit_go.Pool.BatchOrder.{
  walk, walk-moved, IsBatch, drain-walk, step_back-twice, step_back-lt,
}

-- What is yielded and what is left are the lines of the order.
unfoldable Continues : ℕ → ℕ → Batch → ℕ → Yielded → Type 0
Continues more n batch i (lines, next, remaining) =
    (lines ++ walk remaining batch next ≡ walk n batch i)
    × (length lines ≡ min (suc more) n)
    × (remaining ≡ n - suc more)

-- The loops read the line that Next returns.
ordered_line-batch_line :
    (batch : Batch) (start i : ℕ)
    → start ≡ get_or batch.offsets i 0
    → ordered_line batch start (get_or batch.offsets (i + 1) 0) ≡ batch_line batch i
unfolding ordered_line batch_line
ordered_line-batch_line batch start i same = elim (Bool-cases batch.cr) [
  | inl trims ↦ rw (trims, same) refl
  | inr plain ↦ rw (plain, same) refl
]

pair_line-batch_line : (batch : Batch) (i : ℕ) → pair_line batch i ≡ batch_line batch i
unfolding pair_line batch_line
pair_line-batch_line batch i = elim (Bool-cases batch.cr) [
  | inl trims ↦ rw trims refl
  | inr plain ↦ rw plain refl
]

in_order-Continues :
    (more n : ℕ) (batch : Batch) (start i : ℕ)
    → start ≡ get_or batch.offsets i 0
    → batch.lines - batch.back ≡ 1
    → n ≤ batch.lines - i
    → Continues more n batch i (yield_in_order more n batch start i)
unfolding Continues yield_in_order walk
in_order-Continues more zero batch start i same one le = (refl, omega arith, omega arith)
in_order-Continues zero (suc zero) batch start i same one le =
    rw (ordered_line-batch_line batch start i same) (refl, omega arith, omega arith)
in_order-Continues zero (suc (suc n)) batch start i same one le =
    let e : step_back batch.lines batch.back i ≡ i + 1 = unfold step_back in ground arith in
    rw (ordered_line-batch_line batch start i same, e) (refl, omega arith, omega arith)
in_order-Continues (suc more) (suc zero) batch start i same one le =
    rw (ordered_line-batch_line batch start i same) (refl, omega arith, omega arith)
in_order-Continues (suc more) (suc (suc n)) batch start i same one le =
    let e : step_back batch.lines batch.back i ≡ i + 1 = unfold step_back in ground arith in
    let (others, count, rest) =
      in_order-Continues more (suc n) batch (get_or batch.offsets (i + 1) 0) (i + 1) refl one
        (omega (arith, le)) in
    rw (ordered_line-batch_line batch start i same) (
      ap (◌∷◌ (batch_line batch i)) others
          ∙ ap (λ j. batch_line batch i ∷ walk (suc n) batch j) (sym e),
      omega (arith, count),
      omega (arith, rest),
    )

in_pairs-Continues :
    (more n : ℕ) (batch : Batch) (i : ℕ)
    → batch.back ≤ batch.lines
    → i < batch.lines
    → Continues more n batch i
        (yield_in_pairs more n batch (twice_back batch) i (step_back batch.lines batch.back i))
unfolding Continues yield_in_pairs walk twice_back
in_pairs-Continues more zero batch i hb hi = (refl, omega arith, omega arith)
in_pairs-Continues more (suc zero) batch i hb hi =
    rw (pair_line-batch_line batch i) (refl, omega arith, omega arith)
in_pairs-Continues zero (suc (suc n)) batch i hb hi =
    rw (pair_line-batch_line batch i) (refl, omega arith, omega arith)
in_pairs-Continues (suc zero) (suc (suc n)) batch i hb hi =
    let j = step_back batch.lines batch.back i in
    let two = step_back-twice batch.lines batch.back i hb hi in
    rw (pair_line-batch_line batch i, pair_line-batch_line batch j)
      (
        ap (λ k. batch_line batch i ∷ batch_line batch j ∷ walk n batch k) two,
        omega arith,
        omega arith,
      )
in_pairs-Continues (suc (suc more)) (suc (suc n)) batch i hb hi =
    let j = step_back batch.lines batch.back i in
    let hj = step_back-lt batch.lines batch.back i hb hi in
    let k = step_back batch.lines batch.back j in
    let hk = step_back-lt batch.lines batch.back j hb hj in
    let two = step_back-twice batch.lines batch.back in
    let (same, count, rest) = in_pairs-Continues more n batch k hb hk in
    rw (two i hb hi, two j hb hj, pair_line-batch_line batch i, pair_line-batch_line batch j)
      (
        ap (λ l. batch_line batch i ∷ batch_line batch j ∷ l) same,
        omega (arith, count),
        omega (arith, rest),
      )

-- The lines yielded and the batch behind them, against the lines that Next returns one by one.
abbrev Hands : ℕ → Batch → List Bytes × Batch → Type 0
Hands more batch (lines, after) =
    (lines ++ drain after.remaining after ≡ drain batch.remaining batch)
    × (length lines ≡ min (more + 1) batch.remaining)
    × (after.remaining ≡ batch.remaining - (more + 1))

Continues-Hands :
    (more : ℕ) (batch : Batch) (y : Yielded)
    → Continues more batch.remaining batch batch.next y
    → Hands more batch (y.0, record batch { next = y.1; remaining = y.2 })
unfolding Continues
Continues-Hands more batch (lines, next, remaining) (same, count, rest) =
    let after = record batch { next = next; remaining = remaining } in
    let others =
      drain-walk remaining after (omega arith) ∙ walk-moved remaining batch remaining next next in
    (
      ap (λ l. lines ++ l) others ∙ same ∙ sym (drain-walk batch.remaining batch (omega arith)),
      omega (arith, count),
      omega (arith, rest),
    )

-- For a batch whose indices are those of its lines and a body of Batch.Lines that answers true `more`
-- times and then false: it is given one line more, or all lines if they are fewer, and the batch keeps
-- the others; the lines that it is given, and those that Batch.Next returns behind it, are in their order
-- the lines that Batch.Next alone returns.
pub lines_until-drain :
    (batch : Batch) (more : ℕ)
    → IsBatch batch
    → let (lines, after) = lines_until more batch in
      (lines ++ drain after.remaining after ≡ drain batch.remaining batch)
      × (length lines ≡ min (more + 1) batch.remaining)
      × (after.remaining ≡ batch.remaining - (more + 1))
unfolding lines_until
lines_until-drain batch more fit =
    let ordered =
      batch.lines - batch.back == 1
      && not (batch.remaining == 0)
      && leb batch.remaining (batch.lines - batch.next) in
    elim (Bool-cases ordered) [
      | inl sorted ↦
          rw (sorted, lines_until)
            (Continues-Hands more batch
              (yield_in_order more batch.remaining batch (get_or batch.offsets batch.next 0)
                batch.next)
              (in_order-Continues more batch.remaining batch (get_or batch.offsets batch.next 0)
                batch.next refl (ground (arith, sorted)) (ground (arith, sorted))))
      | inr other ↦
          rw (other, lines_until)
            (Continues-Hands more batch
              (yield_in_pairs more batch.remaining batch (twice_back batch) batch.next
                (step_back batch.lines batch.back batch.next))
              (in_pairs-Continues more batch.remaining batch batch.next fit.back_le fit.next_lt))
    ]

-- ===== src/Pool/BatchOrder.antt =====
-- batch.go: the order in which Batch.Next returns the lines of a batch.
use proxykit_go.Base.{
  ℕ, zero, suc, ◌+◌, ◌-◌, ◌≤◌, ◌<◌, some, List, [], ◌∷◌, ltb, ◌≡◌, refl, arith, if◌then◌else◌, ap,
  ◌∙◌,
}
use proxykit_go.Base.Bytes.{Bytes}
use proxykit_go.Pool.Batch.{Batch, batch_line, step_back, next_of_batch, drain}

-- The lines of an order given by the step, from an index on.
unfoldable pub walk : ℕ → Batch → ℕ → List Bytes
walk zero batch index = []
walk (suc n) batch index =
    batch_line batch index ∷ walk n batch (step_back batch.lines batch.back index)

-- A batch whose indices are those of its lines.
pub record IsBatch (batch : Batch) : Type 0 where
  pub next_lt : batch.next < batch.lines
  pub back_le : batch.back ≤ batch.lines
  pub remaining_le : batch.remaining ≤ batch.lines

pub walk-moved :
    (n : ℕ) (batch : Batch) (r m i : ℕ)
    → walk n (record batch { remaining = r; next = m }) i ≡ walk n batch i
unfolding walk batch_line
walk-moved zero batch r m i = refl
walk-moved (suc n) batch r m i =
    ap (◌∷◌ (batch_line batch i)) (walk-moved n batch r m (step_back batch.lines batch.back i))

-- The batch behind a call of Next that returns a line.
abbrev moved_on : Batch → Batch
moved_on batch = record batch {
  remaining = batch.remaining - 1;
  next = step_back batch.lines batch.back batch.next;
}

next_of_batch-some :
    (batch : Batch)
    → 0 < batch.remaining
    → next_of_batch batch ≡ (some (batch_line batch batch.next), moved_on batch)
unfolding next_of_batch
next_of_batch-some batch h = ground arith

pub drain-walk :
    (n : ℕ) (batch : Batch) → n ≤ batch.remaining → drain n batch ≡ walk n batch batch.next
unfolding drain walk
drain-walk zero batch h = refl
drain-walk (suc n) batch h =
    let moved = step_back batch.lines batch.back batch.next in
    let rest =
      drain-walk n (moved_on batch) (omega arith)
      ∙ walk-moved n batch (batch.remaining - 1) moved moved in
    let step = next_of_batch-some batch (omega arith) in
    rw (step, drain, step) (ap (◌∷◌ (batch_line batch batch.next)) rest)

pub step_back-twice :
    (lines back i : ℕ)
    → back ≤ lines
    → i < lines
    → step_back lines
        (lines
          - (if ltb (lines - back + (lines - back)) lines
              then lines - back + (lines - back)
              else lines - back + (lines - back) - lines))
        i
      ≡ step_back lines back (step_back lines back i)
unfolding step_back
step_back-twice lines back i hb hi = ground arith

pub step_back-lt : (lines back i : ℕ) → back ≤ lines → i < lines → step_back lines back i < lines
unfolding step_back
step_back-lt lines back i hb hi = ground arith

-- ===== src/Pool/Batch.antt =====
-- batch.go: Batch.Next, Batch.Lines and Pool.NextBatch. The storage that a batch and its pool
-- exchange is left out but for its contents.
use proxykit_go.Base.{
  ℕ, zero, suc, ◌+◌, ◌-◌, Bool, false, not, ◌&&◌, Option, none, some, List, [], ◌∷◌, ltb, leb, ◌==◌,
  if◌then◌else◌, length, get_or,
}
use proxykit_go.Base.Bytes.{Bytes}
use proxykit_go.Pool.Sizes.{carriage_return}
use proxykit_go.Pool.State.{Pool, File, PoolError, closed_pool, nil_batch}
use proxykit_go.Pool.Extend.{piece}
use proxykit_go.Pool.Walk.{load_next_block, enough_rounds}

pub record Batch : Type 0 where
  pub offsets : List ℕ
  pub buffer : Bytes
  pub remaining : ℕ
  pub next : ℕ
  pub back : ℕ
  pub lines : ℕ
  pub calls : ℕ
  pub cr : Bool

-- The end of a line before a carriage return; a batch looks at the byte before the line's end, which
-- may be the line feed of the line before.
abbrev pub trimmed_end : Bool → Bytes → ℕ → ℕ
trimmed_end cr buffer stop =
    if cr && get_or buffer (stop - 1) 0 == carriage_return then stop - 1 else stop

-- The line of an index.
unfoldable pub batch_line : Batch → ℕ → Bytes
batch_line batch index =
    piece batch.buffer (get_or batch.offsets index 0)
      (trimmed_end batch.cr batch.buffer (get_or batch.offsets (index + 1) 0 - 1))

-- An index moved by `back`, as Next and Lines move it.
unfoldable pub step_back : ℕ → ℕ → ℕ → ℕ
step_back lines back index = if ltb index back then index + lines - back else index - back

-- `Batch.Next`
unfoldable pub next_of_batch : Batch → Option Bytes × Batch
next_of_batch batch = if batch.remaining == 0 then (none, batch) else (
  some (batch_line batch batch.next),
  record batch {
    remaining = batch.remaining - 1;
    next = step_back batch.lines batch.back batch.next;
  },
)

-- The lines that Next returns one by one.
unfoldable pub drain : ℕ → Batch → List Bytes
drain zero batch = []
drain (suc n) batch =
    let (l, b) = next_of_batch batch in
    let rest = drain n b in elim l [ none ↦ [] | some bytes ↦ bytes ∷ rest ]

-- The step over two lines, back.
unfoldable pub twice_back : Batch → ℕ
twice_back batch =
    let step = batch.lines - batch.back in
    batch.lines - (if ltb (step + step) batch.lines then step + step else step + step - batch.lines)

-- The hand-over of nextBatchLocked, with lines to take.
unfoldable pub hand_over : Pool → Batch → Pool × Batch
hand_over pool batch =
    let lines = length pool.offsets - 1 in
    (
      record pool {
        buffer = [];
        offsets = [];
        cursor = pool.cursor + (lines - pool.line_cursor);
        line_cursor = 0;
        next_line = 0;
        cr = false;
      },
      record batch {
        buffer = pool.buffer;
        offsets = pool.offsets;
        next = pool.next_line;
        back = lines - pool.line_step;
        lines = lines;
        remaining = lines - pool.line_cursor;
        cr = pool.cr;
      },
    )

-- The results of NextBatch.
pub record Handed : Type 0 where
  pub pool : Pool
  pub batch : Batch
  pub error : Option PoolError

-- `nextBatchLocked`
unfoldable pub next_batch_locked : File → Pool → Batch → Option Handed
next_batch_locked file pool batch =
    if not pool.active
    then some (record { pool = pool; batch = batch; error = some closed_pool })
    else elim pool.terminal [
      | some e ↦ some (record { pool = pool; batch = batch; error = some e })
      | none ↦
          if ltb pool.line_cursor (length pool.offsets - 1)
          then (let (p, b) = hand_over pool batch in
              some (record { pool = p; batch = b; error = none }))
          else elim (load_next_block (enough_rounds pool) file pool) [
            | none ↦ none
            | some (loaded, e) ↦ elim e [
              | some err ↦ some (record {
                pool = record loaded { terminal = some err };
                batch = record batch { buffer = [] };
                error = some err;
              })
              | none ↦
                  let (p, b) = hand_over loaded batch in
                  some (record { pool = p; batch = b; error = none })
            ]
          ]
    ]

-- `Pool.NextBatch` of a pool that is not nil.
unfoldable pub next_batch :
    File → Pool → Option Batch → Option (Pool × Option Batch × Option PoolError)
next_batch file pool none = some (pool, none, some nil_batch)
next_batch file pool (some batch) =
    elim (next_batch_locked file pool (record batch { remaining = 0; calls = batch.calls + 1 })) [
      | none ↦ none
      | some h ↦ some (h.pool, some h.batch, h.error)
    ]

-- What `Batch.Lines` has yielded, and the next index and the number of lines that it leaves. The body
-- answers true `more` times and then false.
abbrev pub Yielded : Type 0
Yielded = List Bytes × ℕ × ℕ

abbrev also_yielded : Bytes → Yielded → Yielded
also_yielded line (lines, next, remaining) = (line ∷ lines, next, remaining)

-- `trimReturn`
abbrev pub trimmed_return : Bytes → ℕ → ℕ
trimmed_return buffer stop =
    if get_or buffer (stop - 1) 0 == carriage_return then stop - 1 else stop

-- A line of the loops over lines in the order of the file, from `start` to the offset `stop`.
unfoldable pub ordered_line : Batch → ℕ → ℕ → Bytes
ordered_line batch start stop =
    if not batch.cr
    then piece batch.buffer start (stop - 1)
    else piece batch.buffer start (trimmed_return batch.buffer (stop - 1))

-- The two loops of `Batch.Lines` over lines in the order of the file, which differ in the end of the
-- line: a line starts at the offset where the one before it ends.
unfoldable pub yield_in_order : ℕ → ℕ → Batch → ℕ → ℕ → Yielded
yield_in_order more zero batch start index = ([], index, 0)
yield_in_order zero (suc remaining) batch start index =
    (ordered_line batch start (get_or batch.offsets (index + 1) 0) ∷ [], index + 1, remaining)
yield_in_order (suc more) (suc remaining) batch start index =
    let stop = get_or batch.offsets (index + 1) 0 in
    also_yielded (ordered_line batch start stop)
      (yield_in_order more remaining batch stop (index + 1))

-- A line of the loop over pairs of lines.
unfoldable pub pair_line : Batch → ℕ → Bytes
pair_line batch index =
    let stop = get_or batch.offsets (index + 1) 0 - 1 in
    let last = if batch.cr then trimmed_return batch.buffer stop else stop in
    piece batch.buffer (get_or batch.offsets index 0) last

-- The loop of `Batch.Lines` over pairs of lines.
unfoldable pub yield_in_pairs : ℕ → ℕ → Batch → ℕ → ℕ → ℕ → Yielded
yield_in_pairs more zero batch back_twice first second = ([], first, 0)
yield_in_pairs more (suc zero) batch back_twice first second =
    (pair_line batch first ∷ [], second, 0)
yield_in_pairs zero (suc (suc remaining)) batch back_twice first second =
    (pair_line batch first ∷ [], second, suc remaining)
yield_in_pairs (suc zero) (suc (suc remaining)) batch back_twice first second = (
  pair_line batch first ∷ pair_line batch second ∷ [],
  step_back batch.lines back_twice first,
  remaining,
)
yield_in_pairs (suc (suc more)) (suc (suc remaining)) batch back_twice first second =
    also_yielded (pair_line batch first) (
      also_yielded (pair_line batch second) (
        yield_in_pairs more remaining batch back_twice (step_back batch.lines back_twice first)
          (step_back batch.lines back_twice second)))

-- `Batch.Lines`: the lines it yields and the batch behind it, for a body that stops early.
unfoldable pub lines_until : ℕ → Batch → List Bytes × Batch
lines_until more batch =
    let (lines, next, remaining) =
      if batch.lines - batch.back == 1
        && not (batch.remaining == 0)
        && leb batch.remaining (batch.lines - batch.next)
      then yield_in_order more batch.remaining batch (get_or batch.offsets batch.next 0) batch.next
      else yield_in_pairs more batch.remaining batch (twice_back batch) batch.next
          (step_back batch.lines batch.back batch.next) in
    (lines, record batch { next = next; remaining = remaining })

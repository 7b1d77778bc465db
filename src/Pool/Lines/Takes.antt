-- ===== src/Pool/Lines/Takes.antt =====
-- proxypool.go and batch.go: the lines that Next and NextBatch return from a loaded block.
use mathlib.Core.List.{Perm}
use mathlib.Core.List.Perm
use mathlib.Core.Path.{subst}
use proxykit_go.Base.{
  ℕ, zero, suc, ◌+◌, ◌-◌, ◌*◌, ◌<◌, min, true, none, some, List, [], ◌∷◌, map, ◌==◌, ◌≡◌, refl,
  arith, length, get_or, sym, ap, ◌∙◌, Bool-cases, inl, inr,
}
use proxykit_go.Base.Bytes.{Bytes}
use proxykit_go.Base.Indices.{indices, indices-perm}
use proxykit_go.Pool.Sizes.{newline}
use proxykit_go.Pool.State.{Pool, File}
use proxykit_go.Pool.Permutation.{Params, visit}
use native.Mathlib.Nat
use proxykit_go.Base.{◌%◌, ◌*◌, ◌+◌, ◌≤◌, true}
use mathlib.Core.Path.{ap₂}
use proxykit_go.Pool.Sizes.{mode_sequential}
use proxykit_go.Pool.Permutation.Coprime.{AreParams}
use proxykit_go.Pool.Permutation.Visits.{visit_lem, visit-lt, visit-IsInjective}
use proxykit_go.Pool.Block.{load_block}
use proxykit_go.Pool.Walk.{line_at}
use proxykit_go.Pool.Limits.{are_lines}
use proxykit_go.Pool.HandOver.{take_lines, pool_walk, take_lines-pool_walk, HasLines}
use proxykit_go.Pool.Lines.Spans.{Spans}
use proxykit_go.Pool.Lines.Ended.{Holds}
use proxykit_go.Pool.Lines.Block.{IsIndexed}
use proxykit_go.Pool.Lines.Loaded.{HasOffsets, HasOrder}
use proxykit_go.Pool.Lines.Reads.{IsCarried}
use proxykit_go.Pool.Lines.Load.{load_block-Succeeds}
use proxykit_go.Pool.Lines.Loading.{loaded_lines}

-- The order of the pool from `start` on.
abbrev order_from : Pool → ℕ → Params
order_from pool start = record { step = pool.line_step; start = start }

pool_walk-visit :
    (pool : Pool) (start n k : ℕ)
    → pool_walk n pool (visit (length pool.offsets - 1) (order_from pool start) k)
      ≡ map
          (line_at pool)
          (map (visit (length pool.offsets - 1) (order_from pool start)) (indices k n))
unfolding pool_walk visit
pool_walk-visit pool start zero k = refl
pool_walk-visit pool start (suc n) k =
    let next : k + 1 ≡ suc k = omega arith in
    rw next (
      ap (◌∷◌ (line_at pool (visit (length pool.offsets - 1) (order_from pool start) k)))
        (pool_walk-visit pool start n (suc k)))

-- From a loaded block, as many calls of Next as it has lines return each of them.
pub take_lines-loaded_lines :
    (pool : Pool)
    → HasOrder pool
    → Perm (take_lines (length pool.offsets - 1) pool) (loaded_lines pool)
unfolding visit
take_lines-loaded_lines pool order = elim (Bool-cases (length pool.offsets == 0)) [
  | inl empty ↦
      let z : length pool.offsets - 1 ≡ 0 = ground (arith, empty) in
      let none_taken : take_lines (length pool.offsets - 1) pool ≡ [] =
        ap (λ n. take_lines n pool) z in
      let none_loaded : loaded_lines pool ≡ [] = ap (λ n. map (line_at pool) (indices 0 n)) z in
      subst (λ l. Perm l (loaded_lines pool)) (none_loaded ∙ sym none_taken)
        (Perm.refl (loaded_lines pool))
  | inr more ↦
      let count = length pool.offsets - 1 in
      let params = order_from pool pool.next_line in
      let fit = (order (ground (arith, more))).0 in
      let walked = take_lines-pool_walk count pool ∙ pool_walk-visit pool pool.next_line count 0 in
      subst (λ l. Perm l (loaded_lines pool)) (sym walked)
        (Perm.map (line_at pool) (
          indices-perm count (visit count params) (λ k _. visit-lt count params fit k)
            (visit-IsInjective count params fit)))
]

Spans-are_lines :
    (buffer : Bytes) (offsets : List ℕ) → Spans buffer offsets → are_lines buffer offsets ≡ true
Spans-are_lines buffer [] h = refl
Spans-are_lines buffer (a ∷ []) h = refl
Spans-are_lines buffer (a ∷ b ∷ offsets) h =
    ground (arith, h.0.rises, h.0.inside, h.0.closed, Spans-are_lines buffer (b ∷ offsets) h.1)

-- A block that is loaded with a line is one that NextBatch can hand over.
IsIndexed-HasLines :
    (content : Bytes) (start own : ℕ) (pool : Pool) (a : ℕ) (ends : List ℕ)
    → pool.offsets ≡ a ∷ ends
    → IsIndexed content start own pool.buffer a ends pool.cr
    → HasOrder pool
    → HasLines pool
IsIndexed-HasLines content start own pool a ends e h order =
    let fit = (order (omega (arith, ap length e))).0 in
    let head : get_or pool.offsets 0 0 ≡ a = ap (λ o. get_or o 0 0) e in
    let (pos, opened) = first a ends h.spans in
    record {
      next_lt = fit.start_lt;
      step_le = fit.step_le;
      lines = ap (are_lines pool.buffer) e ∙ Spans-are_lines pool.buffer (a ∷ ends) h.spans;
      first_pos = omega (arith, head, pos);
      first = ap (λ k. get_or pool.buffer (k - 1) 0) head ∙ opened;
    }
  where
    first :
        (a : ℕ) (ends : List ℕ)
        → Spans pool.buffer (a ∷ ends)
        → (0 < a) × (get_or pool.buffer (a - 1) 0 ≡ newline)
    first a [] h = h
    first a (b ∷ ends) h = (h.0.positive, h.0.opened)

-- For a file that keeps its content and a pool whose carried byte, if it has one, is the one before
-- its block: a block that is loaded without an error, with an offset, has offsets that stand for lines of
-- the buffer, the first behind a line feed, and an order over these lines.
pub load_block-HasLines :
    (file : File) (content : Bytes) (block : ℕ) (pool p : Pool)
    → Holds file content pool.geometry
    → IsCarried content pool
    → 0 < pool.geometry.block_bytes
    → block * pool.geometry.block_bytes < length content
    → load_block file block pool ≡ some (p, none)
    → 0 < length p.offsets
    → HasLines p
load_block-HasLines file content block pool p holds carried pos inside h some_lines =
    let (has, order, _, _, _, _) =
      load_block-Succeeds file content block pool p holds carried pos
        (omega (arith, inside, holds.size)) h in
    by_offsets p.offsets refl has order
  where
    by_offsets :
        (offsets : List ℕ)
        → p.offsets ≡ offsets
        → HasOffsets content
            (block * pool.geometry.block_bytes)
            (1
              + min pool.geometry.block_bytes
                  (pool.geometry.file_size - block * pool.geometry.block_bytes))
            p.buffer
            p.cr
            p.offsets
        → HasOrder p
        → HasLines p
    by_offsets [] e has order = absurd (omega (arith, some_lines, ap length e))
    by_offsets (a ∷ ends) e has order =
        IsIndexed-HasLines content (block * pool.geometry.block_bytes)
          (1
            + min pool.geometry.block_bytes
                (pool.geometry.file_size - block * pool.geometry.block_bytes))
          p a ends e
          (subst
            (λ o.
              HasOffsets content (block * pool.geometry.block_bytes)
                (1
                  + min pool.geometry.block_bytes
                      (pool.geometry.file_size - block * pool.geometry.block_bytes))
                p.buffer p.cr o)
            e has)
          order

-- In the order of the file, the k-th line that Next takes is the k-th of the block.
pub take_lines-in_order :
    (pool : Pool)
    → HasOrder pool
    → (pool.geometry.mode == mode_sequential) ≡ true
    → take_lines (length pool.offsets - 1) pool ≡ loaded_lines pool
unfolding visit line_at
take_lines-in_order pool order sequential = elim (Bool-cases (length pool.offsets == 0)) [
  | inl empty ↦
      let z : length pool.offsets - 1 ≡ 0 = ground (arith, empty) in
      ap (λ n. take_lines n pool) z ∙ sym (ap (λ n. map (line_at pool) (indices 0 n)) z)
  | inr more ↦
      let count = length pool.offsets - 1 in
      let (fit, in_order) = order (ground (arith, more)) in
      let (first, step) = in_order sequential in
      take_lines-pool_walk count pool
      ∙ pool_walk-visit pool pool.next_line count 0
      ∙ ap (map (line_at pool)) (visits count fit first step 0 count (omega arith))
]
  where
    visits :
        (count : ℕ)
        → AreParams count (order_from pool pool.next_line)
        → pool.next_line ≡ 0
        → pool.line_step ≡ 1
        → (k n : ℕ) → k + n ≤ count
        → map (visit count (order_from pool pool.next_line)) (indices k n) ≡ indices k n
    visits count fit first step k zero le = refl
    visits count fit first step k (suc n) le =
        let one : pool.next_line + k * pool.line_step ≡ k =
          (let m : k * pool.line_step ≡ k * 1 = ap (λ s. k * s) step in omega (arith, first, m)) in
        let low : k < count = omega (arith, le) in
        ap₂ ◌∷◌
          (visit_lem count (order_from pool pool.next_line) fit k
            ∙ ap (λ m. m % count) one
            ∙ Nat.mod-eq_of_lt low)
          (visits count fit first step (k + 1) n (omega (arith, le)))

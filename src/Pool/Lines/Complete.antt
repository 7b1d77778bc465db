-- ===== src/Pool/Lines/Complete.antt =====
-- proxypool.go: over a whole cycle, the pools of a file return all its lines.
use mathlib.Core.List.{Perm}
use mathlib.Core.Path.{subst}
use proxykit_go.Base.{
  ℕ, suc, ◌<◌, true, false, List, [], ltb, ◌==◌, ◌≡◌, arith, sym, Bool-cases, inl, inr,
}
use proxykit_go.Base.Bytes.{Bytes}
use proxykit_go.Pool.Sizes.{mode_sequential}
use proxykit_go.Pool.Open.{Geometry}
use proxykit_go.Pool.State.{File, opened_pool, validate_source}
use proxykit_go.Pool.Extends.{ReadsAtMost}
use proxykit_go.Pool.Schedule.{IsGeometry, of_shard}
use proxykit_go.Pool.Schedule.Once.{shard-IsGeometry}
use proxykit_go.Base.Concat.{concat_from}
use proxykit_go.Pool.Lines.Ended.{Holds}
use proxykit_go.Pool.Lines.Limited.{Answers}
use proxykit_go.Pool.Lines.Reference.{split_lines}
use proxykit_go.Pool.Lines.Readers.{
  HasRead, HasRead-split_lines, opened_pool-starts, opened_pool-IsReader,
}
use proxykit_go.Pool.Lines.Ordered.{HasRead-in_order}
use proxykit_go.Pool.Lines.Finishes.{KeepsLimit, left, finishes}

-- A pool over such a file comes, from Open on, to the end of its cycle.
pub HasRead-exists :
    (file : File) (content : Bytes) (g : Geometry)
    → ReadsAtMost file
    → Holds file content g
    → Answers file content g
    → IsGeometry g
    → KeepsLimit content g.max_line_bytes
    → (lines : List Bytes) × HasRead file g lines
HasRead-exists file content g reads holds answers fit limited =
    let same = (opened_pool-starts g).0 in
    let (blocks, lines, last, run, over) =
      finishes reads (suc (left (opened_pool g))) (opened_pool g) (omega arith)
        (opened_pool-IsReader file content g fit holds)
        (subst (λ g. Answers file content g) (sym same) answers)
        (subst (λ (g : Geometry). KeepsLimit content g.max_line_bytes) (sym same) limited) in
    (lines, (blocks, last, run, over))

-- For a file that keeps its content and its metadata, whose reads succeed and of which no line has more
-- bytes than the limit, and a sequential geometry of one shard whose sizes fit together: the rounds of
-- loadNextBlockLocked, from Open on, come to the end of a cycle without an error, and Next, called behind
-- each round that leaves with a block for all its lines, returns the lines of the file in their order.
pub HasRead-all :
    (file : File) (content : Bytes) (g : Geometry)
    → ReadsAtMost file
    → Holds file content g
    → Answers file content g
    → IsGeometry g
    → (g.mode == mode_sequential) ≡ true
    → g.shard_count ≡ 1
    → KeepsLimit content g.max_line_bytes
    → HasRead file g (split_lines [] content)
HasRead-all file content g reads holds answers fit sequential one limited =
    let (lines, read) = HasRead-exists file content g reads holds answers fit limited in
    subst (λ l. HasRead file g l)
      (HasRead-in_order file content g lines reads holds fit sequential one read) read

-- For a file that keeps its content and its metadata, whose reads succeed and of which no line has more
-- bytes than the limit, and a shuffled geometry whose sizes fit together: the pool of each shard comes,
-- from Open on, to the end of a cycle without an error, and what Next returns, called behind each round
-- that leaves with a block for all its lines, are, over all shards, the lines of the file, each once.
pub HasRead-shards :
    (file : File) (content : Bytes) (g : Geometry)
    → ReadsAtMost file
    → Holds file content g
    → Answers file content g
    → IsGeometry g
    → (g.mode == mode_sequential) ≡ false
    → KeepsLimit content g.max_line_bytes
    → (lines : ℕ → List Bytes) × ((i : ℕ)
        → i < g.shard_count
        → HasRead file (of_shard g i) (lines i))
      × Perm (concat_from lines 0 g.shard_count) (split_lines [] content)
unfolding validate_source
HasRead-shards file content g reads holds answers fit shuffled limited =
    let runs = λ (i : ℕ) (lt : i < g.shard_count). (of_each i).1 lt in
    (
      λ i. (of_each i).0,
      runs,
      HasRead-split_lines file content g (λ i. (of_each i).0) reads holds fit shuffled runs,
    )
  where
    of_each :
        (i : ℕ) → (lines : List Bytes) × (i < g.shard_count → HasRead file (of_shard g i) lines)
    of_each i = elim (Bool-cases (ltb i g.shard_count)) [
      | inl inside ↦
          let (lines, read) =
            HasRead-exists file content (of_shard g i) reads
              (record { size = holds.size; reads = holds.reads })
              (record { unchanged = answers.unchanged; succeeds = answers.succeeds })
              (shard-IsGeometry g i fit (ground (arith, inside))) limited in
          (lines, λ _. read)
      | inr outside ↦ ([], λ lt. absurd (ground (arith, outside, lt)))
    ]

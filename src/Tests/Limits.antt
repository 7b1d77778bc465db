-- ===== src/Tests/Limits.antt =====
-- proxypool.go: a concrete file whose lines keep to the limit, and a load that meets a long line.
use mathlib.Core.List.{Perm}
use proxykit_go.Base.{ℕ, ◌<◌, ◌≡◌, [], refl, arith, some, Option, List}
use proxykit_go.Base.Bytes.{Bytes}
use proxykit_go.Base.Concat.{concat_from}
use proxykit_go.Pool.State.{
  Pool, PoolError, opened_pool, start_cycle, start_regions, validate_source,
}
use proxykit_go.Pool.Block.{load_block}
use proxykit_go.Pool.Open.{Geometry}
use proxykit_go.Pool.Schedule.{of_shard}
use proxykit_go.Pool.Lines.Reference.{split_lines}
use proxykit_go.Pool.Lines.Readers.{HasRead}
use proxykit_go.Pool.Lines.Limited.{Answers, IsLimit}
use proxykit_go.Pool.Lines.Errors.{load_block-IsLimit}
use proxykit_go.Pool.Lines.Finishes.{KeepsLimit}
use proxykit_go.Pool.Lines.Complete.{HasRead-all, HasRead-shards}
use proxykit_go.Tests.Blocks.{text, text_file, text_file_reads, in_blocks, in_blocks-IsGeometry}
use proxykit_go.Tests.Shards.{shared, shared-IsGeometry}

text-Answers : Answers text_file text in_blocks
unfolding validate_source
text-Answers = record { unchanged = refl; succeeds = λ offset n h e. cc }

shared-Answers : Answers text_file text shared
unfolding validate_source
shared-Answers = record { unchanged = refl; succeeds = λ offset n h e. cc }

text_limit : KeepsLimit text 80
text_limit s long = omega (arith, long.inside)

HasRead-all_example : HasRead text_file in_blocks (split_lines [] text)
HasRead-all_example =
    HasRead-all text_file text in_blocks text_file_reads
      (record { size = refl; reads = λ offset n h. refl }) text-Answers in_blocks-IsGeometry refl
      refl text_limit

HasRead-shards_example :
    (lines : ℕ → List Bytes) × ((i : ℕ) → i < 2 → HasRead text_file (of_shard shared i) (lines i))
    × Perm (concat_from lines 0 2) (split_lines [] text)
HasRead-shards_example =
    HasRead-shards text_file text shared text_file_reads
      (record { size = refl; reads = λ offset n h. refl }) shared-Answers shared-IsGeometry refl
      text_limit

-- A limit of three bytes, and the line that starts at position 5.
abbrev narrow : Geometry
narrow = record in_blocks { max_line_bytes = 3 }

narrow-Answers : Answers text_file text narrow
unfolding validate_source
narrow-Answers = record { unchanged = refl; succeeds = λ offset n h e. cc }

load_block-IsLimit_example :
    (p : Pool) × (error : Option PoolError) × (load_block text_file 1 (opened_pool narrow)
      ≡ some (p, error))
    × ((e : PoolError) → error ≡ some e → IsLimit text 3 e)
unfolding opened_pool start_cycle start_regions
load_block-IsLimit_example =
    load_block-IsLimit text_file text 1 (opened_pool narrow) text_file_reads
      (record { size = refl; reads = λ offset n h. refl }) narrow-Answers
      (λ pos inside. absurd (omega (arith, pos))) (omega arith) (omega arith)

-- ===== src/Pool/Lines/Ordered.antt =====
-- proxypool.go: a pool in the order of the file returns the lines of the file in their order.
use native.Mathlib.Nat
use mathlib.Core.Path.{ap₂, subst}
use proxykit_go.Base.{
  ℕ, zero, suc, ◌+◌, ◌-◌, ◌*◌, ◌≤◌, ◌<◌, true, List, [], ◌∷◌, ◌++◌, map, min, leb, ◌==◌, ◌≡◌, refl,
  arith, sym, ap, ◌∙◌, Bool-cases, inl, inr,
}
use proxykit_go.Base.Bytes.{Bytes}
use proxykit_go.Base.Indices.{indices}
use proxykit_go.Base.Concat.{concat_from}
use proxykit_go.Pool.Sizes.{mode_sequential, shard_item_count}
use proxykit_go.Pool.Shards.{ceiling_quotient-covers}
use proxykit_go.Pool.Open.{Geometry}
use proxykit_go.Pool.State.{File}
use proxykit_go.Pool.Extends.{ReadsAtMost}
use proxykit_go.Pool.Schedule.{IsGeometry, scheduled, scheduled_steps}
use proxykit_go.Pool.Schedule.InOrder.{scheduled-in_order, scheduled_steps-in_order}
use proxykit_go.Pool.Lines.Ended.{Holds}
use proxykit_go.Pool.Lines.Reference.{split_lines, blocks_lines-split_lines}
use proxykit_go.Pool.Lines.Shares.{shares, shares-indices}
use proxykit_go.Pool.Lines.Runs.{Runs-in_order, enough_blocks}
use proxykit_go.Pool.Lines.Trail.{Runs-trail}
use proxykit_go.Pool.Lines.Cycles.{region_blocks_of, shard_blocks}
use proxykit_go.Pool.Lines.Readers.{
  HasRead, opened_pool-starts, opened_pool-IsReader, opened_pool-trail,
}

-- Two stretches, one behind the other.
append-indices : (i m n : ℕ) → indices i m ++ indices (i + m) n ≡ indices i (m + n)
append-indices i zero n =
    let here : i + zero ≡ i = omega arith in
    let all : zero + n ≡ n = omega arith in rw (here, all) refl
append-indices i (suc m) n =
    let next : i + suc m ≡ i + 1 + m = omega arith in
    let total : suc m + n ≡ suc (m + n) = omega arith in
    rw (next, total) (ap (λ l. i ∷ l) (append-indices (i + 1) m n))

map-indices :
    (f : ℕ → ℕ) (base i n : ℕ)
    → ((k : ℕ) → k < i + n → f k ≡ base + k)
    → map f (indices i n) ≡ indices (base + i) n
map-indices f base i zero each = refl
map-indices f base i (suc n) each =
    let next : base + i + 1 ≡ base + (i + 1) = omega arith in
    ap₂ (λ a (l : List ℕ). a ∷ l) (each i (omega arith))
      (map-indices f base (i + 1) n (λ k lt. each k (omega (arith, lt)))
        ∙ ap (λ j. indices j n) (sym next))

concat_from-map :
    (f h : ℕ → List ℕ) (i n : ℕ)
    → ((k : ℕ) → k < i + n → f k ≡ h k)
    → concat_from f i n ≡ concat_from h i n
concat_from-map f h i zero each = refl
concat_from-map f h i (suc n) each =
    ap₂ ◌++◌ (each i (omega arith))
      (concat_from-map f h (i + 1) n (λ k lt. each k (omega (arith, lt))))

-- The blocks of regions one behind the other.
regions-indices :
    (per count i n : ℕ)
    → concat_from (λ k. indices (k * per) (min per (count - k * per))) i n
      ≡ indices (i * per) (min (n * per) (count - i * per))
regions-indices per count i zero =
    let none_left : min (0 * per) (count - i * per) ≡ 0 = omega arith in rw none_left refl
regions-indices per count i (suc n) =
    let next : (i + 1) * per ≡ i * per + per = omega arith in
    let more : suc n * per ≡ n * per + per = omega arith in
    let here = min per (count - i * per) in
    let later = min (n * per) (count - (i + 1) * per) in
    ap (λ l. indices (i * per) here ++ l) (regions-indices per count (i + 1) n)
    ∙ elim (Bool-cases (leb per (count - i * per))) [
      | inl full ↦
          let start : (i + 1) * per ≡ i * per + here = ground (arith, full, next) in
          let total : here + later ≡ min (suc n * per) (count - i * per) =
            ground (arith, full, next, more) in
          ap (λ j. indices (i * per) here ++ indices j later) start
          ∙ append-indices (i * per) here later
          ∙ ap (indices (i * per)) total
      | inr last ↦
          let none_left : later ≡ 0 = ground (arith, last, next) in
          let total : here + 0 ≡ min (suc n * per) (count - i * per) = ground (arith, last, more) in
          ap (λ j. indices (i * per) here ++ indices ((i + 1) * per) j) none_left
          ∙ append-indices (i * per) here 0
          ∙ ap (indices (i * per)) total
    ]

-- The only shard has all regions.
only_shard :
    (g : Geometry) → IsGeometry g → g.shard_count ≡ 1 → g.regions_for_shard ≡ g.region_count
unfolding shard_item_count
only_shard g fit one =
    let first : g.shard_index ≡ 0 = omega (arith, fit.shard_lt, one) in
    let quotient = Nat.div-one (g.region_count - 1) in
    fit.regions_shard ∙ rw (one, first) (ground (arith, quotient))

-- The blocks of a region, and those of a cycle.
region_blocks_of-in_order :
    (g : Geometry) (c k : ℕ)
    → IsGeometry g
    → (g.mode == mode_sequential) ≡ true
    → k < g.region_count
    → region_blocks_of g c k
      ≡ indices
          (k * g.blocks_per_region)
          (min g.blocks_per_region (g.block_count - k * g.blocks_per_region))
region_blocks_of-in_order g c k fit sequential lt =
    let base : k * g.blocks_per_region + 0 ≡ k * g.blocks_per_region = omega arith in
    map-indices (scheduled g c k) (k * g.blocks_per_region) 0 (scheduled_steps g c k)
      (λ n inside. scheduled-in_order g c k n fit sequential lt (omega (arith, inside)))
    ∙ ap₂ indices base (scheduled_steps-in_order g c k fit sequential lt)

-- For a sequential geometry of one shard whose sizes fit together: in each cycle, the regions that the
-- pool enters, with all steps in each, come to the blocks of the file from the first to the last, in
-- their order, each once.
pub shard_blocks-in_order :
    (g : Geometry) (c : ℕ)
    → IsGeometry g
    → (g.mode == mode_sequential) ≡ true
    → g.shard_count ≡ 1
    → shard_blocks g c ≡ indices 0 g.block_count
shard_blocks-in_order g c fit sequential one =
    let per = g.blocks_per_region in
    let covered = ceiling_quotient-covers g.block_count per fit.blocks_positive in
    let all : g.block_count ≤ g.region_count * per =
      subst (λ n. g.block_count ≤ n * per) (sym fit.regions_count) covered in
    let start : 0 * per ≡ 0 = omega arith in
    let total : min (g.region_count * per) (g.block_count - 0 * per) ≡ g.block_count =
      omega (arith, all) in
    ap (concat_from (region_blocks_of g c) 0) (only_shard g fit one)
    ∙ concat_from-map (region_blocks_of g c)
        (λ k. indices (k * per) (min per (g.block_count - k * per))) 0 g.region_count
        (λ k lt. region_blocks_of-in_order g c k fit sequential (omega (arith, lt)))
    ∙ regions-indices per g.block_count 0 g.region_count
    ∙ ap₂ indices start total

-- For a file that keeps its content, a sequential geometry of one shard whose sizes fit together and a
-- pool of it: if the pool, from Open on, comes to the end of a cycle without an error, with all lines of
-- a block taken by Next before the next round, then it has returned the lines of the file in their
-- order: a line ends with its LF and the CR before it, and the last one may have no LF.
pub HasRead-in_order :
    (file : File) (content : Bytes) (g : Geometry) (lines : List Bytes)
    → ReadsAtMost file
    → Holds file content g
    → IsGeometry g
    → (g.mode == mode_sequential) ≡ true
    → g.shard_count ≡ 1
    → HasRead file g lines
    → lines ≡ split_lines [] content
HasRead-in_order file content g lines reads holds fit sequential one (blocks, last, run, over) =
    let reader = opened_pool-IsReader file content g fit holds in
    let same = (opened_pool-starts g).0 in
    let left =
      Runs-trail reads reader.walk over run
      ∙ opened_pool-trail g
      ∙ shard_blocks-in_order g 0 fit sequential one in
    Runs-in_order content reads reader
      (ap (λ (g : Geometry). g.mode == mode_sequential) same ∙ sequential) run
    ∙ ap₂ (shares content) (ap (λ (g : Geometry). g.block_bytes) same) left
    ∙ shares-indices content g.block_bytes 0 g.block_count
    ∙ blocks_lines-split_lines content g.block_bytes g.block_count
        (enough_blocks content g fit.blocks_count fit.block_positive holds.size)

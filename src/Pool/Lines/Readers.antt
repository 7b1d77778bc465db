-- ===== src/Pool/Lines/Readers.antt =====
-- proxypool.go: the pools of all shards together return the lines of the file.
use mathlib.Core.List.{Perm, append_assoc}
use mathlib.Core.List.Perm
use mathlib.Core.Path.{ap₂, subst}
use proxykit_go.Base.{
  ℕ, zero, suc, ◌+◌, ◌-◌, ◌<◌, false, List, [], ◌∷◌, ◌++◌, map, ◌==◌, ◌≡◌, refl, arith, sym, ap,
  ◌∙◌,
}
use proxykit_go.Base.Bytes.{Bytes}
use proxykit_go.Base.Indices.{indices}
use proxykit_go.Base.Concat.{concat_from}
use proxykit_go.Pool.Sizes.{mode_sequential}
use proxykit_go.Pool.Open.{Geometry}
use proxykit_go.Pool.State.{Pool, File, start_cycle, start_regions, opened_pool}
use proxykit_go.Pool.Walk.{block_at}
use proxykit_go.Pool.Extends.{core, ReadsAtMost}
use proxykit_go.Pool.Ends.{opened_pool-IsWalk}
use proxykit_go.Pool.Schedule.{IsGeometry, of_shard, cycle_of}
use proxykit_go.Pool.Schedule.Once.{shard-IsGeometry}
use proxykit_go.Pool.Lines.Ended.{Holds}
use proxykit_go.Pool.Lines.Keeps.{IsReader}
use proxykit_go.Pool.Lines.Reference.{split_lines}
use proxykit_go.Pool.Lines.Shares.{share, shares, shares-split_lines}
use proxykit_go.Pool.Lines.Runs.{Runs, Runs-shares, enough_blocks}
use proxykit_go.Pool.Lines.Trail.{IsOver, trail, core-trail, Runs-trail, regions_trail}
use proxykit_go.Pool.Lines.Cycles.{
  shard_blocks, all_blocks, all_blocks-perm, regions_trail-concat_from, cycle_of-starts,
}

-- A pool that has just been opened reads the content.
pub opened_pool-starts :
    (g : Geometry)
    → ((opened_pool g).geometry ≡ g)
      × ((opened_pool g).carried_block ≡ 0)
      × ((opened_pool g).continuation_end ≡ 0)
      × (core (opened_pool g) ≡ core (cycle_of g 0))
unfolding opened_pool start_cycle start_regions
opened_pool-starts g = (ground arith, ground arith, ground arith, ground arith)

pub opened_pool-IsReader :
    (file : File) (content : Bytes) (g : Geometry)
    → IsGeometry g
    → Holds file content g
    → IsReader file content (opened_pool g)
opened_pool-IsReader file content g fit holds =
    let (same, carried, continued, _) = opened_pool-starts g in
    record {
      walk = opened_pool-IsWalk g fit;
      holds = subst (λ g. Holds file content g) (sym same) holds;
      carried = λ pos inside. absurd (omega (arith, pos, carried));
      skips = λ b lo hi. absurd (omega (arith, hi, continued));
    }

-- A new pool has the blocks of its shard before it.
pub opened_pool-trail : (g : Geometry) → trail (opened_pool g) ≡ shard_blocks g 0
opened_pool-trail g =
    let p = cycle_of g 0 in
    let (same, blocks, cursor) = cycle_of-starts g 0 in
    let none_left : p.region_blocks - p.region_block_next ≡ 0 = omega (arith, blocks) in
    let all_left : p.geometry.regions_for_shard - p.region_cursor ≡ g.regions_for_shard =
      omega (arith, cursor, ap (λ (g : Geometry). g.regions_for_shard) same) in
    core-trail p (opened_pool g) (opened_pool-starts g).3
    ∙ ap₂ ◌++◌
        (ap
          (λ n.
            map (λ k. block_at p.region_block_base p.region_rotation k p.region_blocks)
              (indices p.region_block_next n))
          none_left)
        (ap (λ r. regions_trail p.geometry p.cycle_seed p.region_advance r p.next_region) all_left
          ∙ regions_trail-concat_from g 0 g.regions_for_shard 0)

shares-append :
    (content : Bytes) (bytes : ℕ) (bs cs : List ℕ)
    → shares content bytes (bs ++ cs) ≡ shares content bytes bs ++ shares content bytes cs
shares-append content bytes [] cs = refl
shares-append content bytes (b ∷ bs) cs =
    ap (λ t. share content bytes b ++ t) (shares-append content bytes bs cs)
    ∙ sym (append_assoc (share content bytes b) (shares content bytes bs) (shares content bytes cs))

-- The lines of several readers.
shares-concat_from :
    (content : Bytes) (bytes : ℕ) (blocks : ℕ → List ℕ) (lines : ℕ → List Bytes) (i n : ℕ)
    → ((k : ℕ) → k < i + n → Perm (lines k) (shares content bytes (blocks k)))
    → Perm (concat_from lines i n) (shares content bytes (concat_from blocks i n))
shares-concat_from content bytes blocks lines i zero each = Perm.refl []
shares-concat_from content bytes blocks lines i (suc n) each =
    subst (λ l. Perm (lines i ++ concat_from lines (i + 1) n) l)
      (sym (shares-append content bytes (blocks i) (concat_from blocks (i + 1) n)))
      (Perm.append (each i (omega arith)) (
        shares-concat_from content bytes blocks lines (i + 1) n
          (λ k lt. each k (omega (arith, lt)))))

-- The pool of a shard has returned these lines in its first cycle.
abbrev pub HasRead : File → Geometry → List Bytes → Type 0
HasRead file g lines =
    (blocks : List ℕ) × (last : Pool) × Runs file (opened_pool g) blocks lines last × IsOver last

-- For a file that keeps its content, a shuffled geometry whose sizes fit together and pools of all its
-- shards: if each pool, from Open on, comes to the end of a cycle without an error, with all lines of a
-- block taken by Next before the next round, then the pools together have returned the lines of the
-- file, each once: a line ends with its LF and the CR before it, and the last one may have no LF.
pub HasRead-split_lines :
    (file : File) (content : Bytes) (g : Geometry) (lines : ℕ → List Bytes)
    → ReadsAtMost file
    → Holds file content g
    → IsGeometry g
    → (g.mode == mode_sequential) ≡ false
    → ((i : ℕ) → i < g.shard_count → HasRead file (of_shard g i) (lines i))
    → Perm (concat_from lines 0 g.shard_count) (split_lines [] content)
HasRead-split_lines file content g lines reads holds fit shuffled runs =
    Perm.trans
      (shares-concat_from content g.block_bytes (λ i. shard_blocks (of_shard g i) 0) lines 0
        g.shard_count (λ i lt. by_shard i (omega (arith, lt)) (runs i (omega (arith, lt)))))
      (shares-split_lines content g.block_bytes g.block_count (all_blocks g 0)
        (enough_blocks content g fit.blocks_count fit.block_positive holds.size)
        (all_blocks-perm g 0 fit shuffled))
  where
    by_shard :
        (i : ℕ)
        → i < g.shard_count
        → HasRead file (of_shard g i) (lines i)
        → Perm (lines i) (shares content g.block_bytes (shard_blocks (of_shard g i) 0))
    by_shard i lt (blocks, last, run, over) =
        let shard = of_shard g i in
        let fit' = shard-IsGeometry g i fit lt in
        let reader =
          opened_pool-IsReader file content shard fit'
            (record { size = holds.size; reads = holds.reads }) in
        let left = Runs-trail reads reader.walk over run ∙ opened_pool-trail shard in
        let bytes = ap (λ (g : Geometry). g.block_bytes) (opened_pool-starts shard).0 in
        subst (λ b. Perm (lines i) (shares content g.block_bytes b)) left
          (subst (λ n. Perm (lines i) (shares content n blocks)) bytes
            (Runs-shares content reads reader run))

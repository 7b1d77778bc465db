-- ===== src/Pool/Lines/Cycles.antt =====
-- proxypool.go: the blocks that the pools of all shards come to in a cycle are those of the file.
use native.Mathlib.Nat
use mathlib.Core.HLevel.{⊥_prop}
use mathlib.Core.List.{
  Perm, Mem, Mem-prop, Nodup, perm_ext_iff_of_Nodup, exists_of_mem-map, mem-map_of_mem,
}
use mathlib.Core.Logic.{∥∥₁_elim}
use mathlib.Core.Path.{ap₂, subst}
use proxykit_go.Base.{
  ℕ, zero, suc, ◌+◌, ◌-◌, ◌<◌, false, List, ◌++◌, map, ◌==◌, ◌≡◌, refl, arith, sym, ap, ◌∙◌,
}
use proxykit_go.Base.Indices.{indices_once, indices, mem-indices, mem-indices_lt, indices-Nodup}
use proxykit_go.Base.Concat.{concat_from, mem-concat_from, concat_from-elim, concat_from-Nodup}
use proxykit_go.Pool.Sizes.{mode_sequential}
use proxykit_go.Pool.Open.{Geometry}
use proxykit_go.Pool.State.{start_cycle, start_regions, opened_pool, rotation}
use proxykit_go.Pool.Walk.{enter_region}
use proxykit_go.Pool.Rounds.{rotation-lt}
use proxykit_go.Pool.Modular.Laws.{add_modulo_lem}
use proxykit_go.Pool.Schedule.{
  enter_regions_kept, IsGeometry, of_shard, enter_regions, cycle_of, scheduled, scheduled_steps,
}
use proxykit_go.Pool.Schedule.Once.{scheduled-once, shard-IsGeometry}
use proxykit_go.Pool.Lines.Trail.{regions_trail, region_trail}

-- The blocks of the `k`-th region of a cycle.
abbrev pub region_blocks_of : Geometry → ℕ → ℕ → List ℕ
region_blocks_of g c k = map (scheduled g c k) (indices 0 (scheduled_steps g c k))

-- The blocks of a shard in a cycle, and of all shards.
abbrev pub shard_blocks : Geometry → ℕ → List ℕ
shard_blocks g c = concat_from (region_blocks_of g c) 0 g.regions_for_shard

abbrev pub all_blocks : Geometry → ℕ → List ℕ
all_blocks g c = concat_from (λ i. shard_blocks (of_shard g i) c) 0 g.shard_count

entered_trail :
    (g : Geometry) (c k : ℕ)
    → let p = enter_regions k (cycle_of g c) in
      region_trail p.geometry p.cycle_seed p.next_region ≡ region_blocks_of g c k
unfolding enter_region rotation
entered_trail g c k =
    let z : scheduled_steps g c k - 0 ≡ scheduled_steps g c k = omega arith in
    ap (λ n. map (scheduled g c k) (indices 0 n)) z

pub regions_trail-concat_from :
    (g : Geometry) (c r k : ℕ)
    → let p = enter_regions k (cycle_of g c) in
      regions_trail p.geometry p.cycle_seed p.region_advance r p.next_region
      ≡ concat_from (region_blocks_of g c) k r
unfolding enter_region
regions_trail-concat_from g c zero k = refl
regions_trail-concat_from g c (suc r) k =
    let next : k + 1 ≡ suc k = omega arith in
    ap₂ ◌++◌ (entered_trail g c k) (
      regions_trail-concat_from g c r (suc k)
      ∙ ap (λ j. concat_from (region_blocks_of g c) j r) (sym next))

-- The pool of a cycle has entered no region.
pub cycle_of-starts :
    (g : Geometry) (c : ℕ)
    → ((cycle_of g c).geometry ≡ g)
      × ((cycle_of g c).region_blocks ≡ 0)
      × ((cycle_of g c).region_cursor ≡ 0)
unfolding start_cycle start_regions opened_pool
cycle_of-starts g c = (ground arith, ground arith, ground arith)

-- A block of the schedule is one of the file.
scheduled-lt :
    (g : Geometry) (c k n : ℕ)
    → IsGeometry g
    → n < scheduled_steps g c k
    → scheduled g c k n < g.block_count
unfolding enter_region
scheduled-lt g c k n fit lt =
    let q = enter_regions k (cycle_of g c) in
    let same : q.geometry ≡ g = (enter_regions_kept k (cycle_of g c)).0 ∙ (cycle_of-starts g c).0 in
    let size = ap (λ (g : Geometry). g.block_count) same in
    let blocks = scheduled_steps g c k in
    let turned : rotation q q.next_region blocks < blocks =
      rotation-lt q q.next_region blocks (omega (arith, lt)) in
    let sum =
      add_modulo_lem (rotation q q.next_region blocks) n blocks turned lt
        (omega (arith, size, fit.blocks_bound)) in
    let pos : 0 < blocks = omega (arith, lt) in
    let low = Nat.mod-lt (rotation q q.next_region blocks + n) pos in
    omega (arith, sum, low, lt, size)

-- A step of a shard in a cycle.
abbrev IsStep : Geometry → ℕ → ℕ → ℕ → ℕ → Type 0
IsStep g c i k n =
    (i < g.shard_count)
    × (k < (of_shard g i).regions_for_shard)
    × (n < scheduled_steps (of_shard g i) c k)

module _ (g : Geometry) (c : ℕ) (fit : IsGeometry g)
    (shuffled : (g.mode == mode_sequential) ≡ false) where
  -- Two steps come to different blocks.
  scheduled-IsInjective :
      (i k n i' k' n' : ℕ)
      → IsStep g c i k n
      → IsStep g c i' k' n'
      → scheduled (of_shard g i) c k n ≡ scheduled (of_shard g i') c k' n'
      → (i ≡ i') × (k ≡ k') × (n ≡ n')
  scheduled-IsInjective i k n i' k' n' step step' e =
      let b = scheduled (of_shard g i') c k' n' in
      let below =
        scheduled-lt (of_shard g i') c k' n' (shard-IsGeometry g i' fit step'.0) step'.2 in
      let (_, _, _, _, _, _, _, once) = scheduled-once g c b fit shuffled below in
      let (a, a', a'') = once i k n step.0 step.1 step.2 e in
      let (b, b', b'') = once i' k' n' step'.0 step'.1 step'.2 refl in
      (a ∙ sym b, a' ∙ sym b', a'' ∙ sym b'')

  region-elim :
      (P : Type 0)
      → IsProp P
      → (i k a : ℕ) → Mem a (region_blocks_of (of_shard g i) c k)
      → ((n : ℕ) → n < scheduled_steps (of_shard g i) c k → scheduled (of_shard g i) c k n ≡ a → P)
      → P
  region-elim P prop i k a m f =
      ∥∥₁_elim (exists_of_mem-map m) prop
        λ (n, listed, named). f n (mem-indices_lt n _ listed) named

  shard-elim :
      (P : Type 0)
      → IsProp P
      → (i a : ℕ) → i < g.shard_count
      → Mem a (shard_blocks (of_shard g i) c)
      → ((k n : ℕ) → IsStep g c i k n → scheduled (of_shard g i) c k n ≡ a → P)
      → P
  shard-elim P prop i a lt m f =
      concat_from-elim P prop (region_blocks_of (of_shard g i) c) a 0
        (of_shard g i).regions_for_shard m
        (λ k _ below here.
          region-elim P prop i k a here (λ n inside e. f k n (lt, omega (arith, below), inside) e))

  shard-Nodup : (i : ℕ) → i < g.shard_count → Nodup (shard_blocks (of_shard g i) c)
  shard-Nodup i lt =
      concat_from-Nodup (region_blocks_of (of_shard g i) c) 0 (of_shard g i).regions_for_shard
        (λ k _ below.
          indices-Nodup (scheduled (of_shard g i) c k) 0 (scheduled_steps (of_shard g i) c k)
            (scheduled_steps (of_shard g i) c k) (omega arith)
            (λ n n' h h' e.
              (scheduled-IsInjective i k n i k n' (lt, omega (arith, below), h)
                (lt, omega (arith, below), h') e).2))
        (λ j k a _ less below m m'. region-elim ⊥ ⊥_prop i j a m (λ n inside e.
          region-elim ⊥ ⊥_prop i k a m' (λ n' inside' e'. omega (
            arith,
            less,
            (scheduled-IsInjective i j n i k n' (lt, omega (arith, less, below), inside)
                (lt, omega (arith, below), inside') (e ∙ sym e')).1,
          ))))

  all-Nodup : Nodup (all_blocks g c)
  all-Nodup =
      concat_from-Nodup (λ i. shard_blocks (of_shard g i) c) 0 g.shard_count
        (λ i _ below. shard-Nodup i (omega (arith, below)))
        (λ i i' a _ less below m m'.
          shard-elim ⊥ ⊥_prop i a (omega (arith, less, below)) m (λ k n step e.
            shard-elim ⊥ ⊥_prop i' a (omega (arith, below)) m' (λ k' n' step' e'.
              omega
                (arith, less, (scheduled-IsInjective i k n i' k' n' step step' (e ∙ sym e')).0))))

  -- In a cycle the pools of all shards come to each block of the file once.
  pub all_blocks-perm : Perm (all_blocks g c) (indices 0 g.block_count)
  all_blocks-perm =
      (perm_ext_iff_of_Nodup all-Nodup (indices_once g.block_count)).1 (λ a. (into a, onto a))
    where
      into : (a : ℕ) → Mem a (all_blocks g c) → Mem a (indices 0 g.block_count)
      into a m =
          concat_from-elim (Mem a (indices 0 g.block_count)) Mem-prop
            (λ i. shard_blocks (of_shard g i) c) a 0 g.shard_count m
            (λ i _ below here.
              shard-elim (Mem a (indices 0 g.block_count)) Mem-prop i a (omega (arith, below)) here
                (λ k n step e.
                  let inside =
                    scheduled-lt (of_shard g i) c k n (shard-IsGeometry g i fit step.0) step.2 in
                  mem-indices a 0 g.block_count (omega arith) (omega (arith, inside, e))))

      onto : (a : ℕ) → Mem a (indices 0 g.block_count) → Mem a (all_blocks g c)
      onto a m =
          let (i, k, n, shard, region, step, e, _) =
            scheduled-once g c a fit shuffled (mem-indices_lt a g.block_count m) in
          let in_region : Mem a (region_blocks_of (of_shard g i) c k) =
            subst (λ b. Mem b (region_blocks_of (of_shard g i) c k)) e
              (mem-map_of_mem (scheduled (of_shard g i) c k) (
                mem-indices n 0 (scheduled_steps (of_shard g i) c k) (omega arith)
                  (omega (arith, step)))) in
          mem-concat_from (λ i. shard_blocks (of_shard g i) c) a 0 g.shard_count i (omega arith)
            (omega (arith, shard))
            (mem-concat_from (region_blocks_of (of_shard g i) c) a 0
              (of_shard g i).regions_for_shard k (omega arith) (omega (arith, region)) in_region)

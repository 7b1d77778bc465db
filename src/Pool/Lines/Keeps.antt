-- ===== src/Pool/Lines/Keeps.antt =====
-- proxypool.go: what the rounds of loadNextBlockLocked keep between two blocks.
use mathlib.Core.Path.{ap₂, subst}
use proxykit_go.Base.{
  ℕ, ◌+◌, ◌*◌, ◌%◌, ◌≤◌, ◌<◌, false, not, ◌||◌, ◌&&◌, [], ltb, ◌==◌, ◌≡◌, ◌⊎◌, refl, arith, get_or,
  sym, ap, ◌∙◌, Bool-cases, Option-cases, inl, inr,
}
use proxykit_go.Base.Bytes.{Bytes}
use proxykit_go.Pool.Sizes.{mode_sequential}
use proxykit_go.Pool.Lines.Framed.{unsealed}
use proxykit_go.Pool.Open.{Geometry}
use proxykit_go.Pool.State.{Pool, File, validate_source, start_cycle, start_regions}
use proxykit_go.Pool.Walk.{again, load_round, end_cycle, visit_region, enter_region}
use proxykit_go.Pool.Extends.{core}
use proxykit_go.Pool.Rounds.{IsWalk}
use proxykit_go.Pool.Lines.Ended.{Holds}
use proxykit_go.Pool.Lines.Loaded.{HasPassed}
use proxykit_go.Pool.Lines.Reads.{IsCarried}
use proxykit_go.Pool.Lines.Shares.{share}

-- The pool is one that reads the content.
pub record IsReader (file : File) (content : Bytes) (pool : Pool) : Type 0 where
  pub walk : IsWalk (core pool)
  pub holds : Holds file content pool.geometry
  pub carried : IsCarried content pool
  pub skips : HasPassed content pool

-- The geometry, the byte carried over and the blocks to pass over are kept.
unfoldable pub Keeps : Pool → Pool → Type 0
Keeps pool q =
    (q.geometry ≡ pool.geometry)
    × (q.carried_block ≡ pool.carried_block)
    × (q.carried ≡ pool.carried)
    × (((q.continuation_start ≡ pool.continuation_start)
          × (q.continuation_end ≡ pool.continuation_end))
        ⊎ (q.continuation_end ≡ 0))

pub Keeps-geometry : (pool q : Pool) → Keeps pool q → q.geometry ≡ pool.geometry
unfolding Keeps
Keeps-geometry pool q h = h.0

start_cycle-Keeps : (cycle : ℕ) (pool : Pool) → Keeps pool (start_cycle cycle pool)
unfolding Keeps start_cycle start_regions
start_cycle-Keeps cycle pool = elim (Bool-cases (pool.geometry.region_count == 0)) [
  | inl none_left ↦ rw (none_left, start_cycle, start_regions) (refl, refl, refl, inr refl)
  | inr more ↦ elim (Bool-cases (pool.geometry.mode == mode_sequential)) [
    | inl sequential ↦
        rw (more, sequential, start_cycle, start_regions) (refl, refl, refl, inr refl)
    | inr random ↦ rw (more, random, start_cycle, start_regions) (refl, refl, refl, inr refl)
  ]
]

enter_region-Keeps : (pool : Pool) → Keeps pool (enter_region pool)
unfolding Keeps enter_region
enter_region-Keeps pool = (refl, refl, refl, inl (refl, refl))

end_cycle-Keeps : (file : File) (pool q : Pool) → end_cycle file pool ≡ again q → Keeps pool q
unfolding end_cycle
end_cycle-Keeps file pool q h = elim (Option-cases (validate_source file pool.geometry)) [
  | inr (e, changed) ↦ absurd (ground (arith, h, changed))
  | inl same ↦
      elim (Bool-cases (
        not pool.geometry.reuse
        || pool.geometry.file_size == 0
        || pool.cursor == pool.cycle_start_cursor)) [
          | inl last ↦ absurd (ground (arith, h, same, last))
          | inr more ↦
              let result : start_cycle (pool.cycle + 1) pool ≡ q = ground (arith, h, same, more) in
              subst (λ q. Keeps pool q) result (start_cycle-Keeps (pool.cycle + 1) pool)
        ]
]

visit_region-Keeps : (file : File) (pool q : Pool) → visit_region file pool ≡ again q → Keeps pool q
unfolding visit_region
visit_region-Keeps file pool q h =
    elim (Bool-cases
      (ltb 0 pool.region_cursor && pool.region_cursor % pool.geometry.regions_per_check == 0)) [
        | inl checks ↦ elim (Option-cases (validate_source file pool.geometry)) [
          | inr (e, changed) ↦ absurd (ground (arith, h, checks, changed))
          | inl same ↦
              let result : enter_region pool ≡ q = ground (arith, h, checks, same) in
              subst (λ q. Keeps pool q) result (enter_region-Keeps pool)
        ]
        | inr plain ↦
            let result : enter_region pool ≡ q = ground (arith, h, plain) in
            subst (λ q. Keeps pool q) result (enter_region-Keeps pool)
      ]

pub round-Keeps :
    (file : File) (pool q : Pool)
    → ltb pool.region_block_next pool.region_blocks ≡ false
    → load_round file pool ≡ again q
    → Keeps pool q
unfolding load_round
round-Keeps file pool q used h =
    elim (Bool-cases (pool.region_cursor == pool.geometry.regions_for_shard)) [
      | inl last ↦ end_cycle-Keeps file pool q (ground (arith, h, used, last))
      | inr more ↦ visit_region-Keeps file pool q (ground (arith, h, used, more))
    ]

-- A reader goes on as one where the fields are kept.
pub Keeps-IsReader :
    (file : File) (content : Bytes) (pool q : Pool)
    → Keeps pool q
    → IsWalk (core q)
    → IsReader file content pool
    → IsReader file content q
unfolding Keeps
Keeps-IsReader file content pool q (same, block, byte, continued) walk reader = record {
  walk = walk;
  holds = subst (λ g. Holds file content g) (sym same) reader.holds;
  carried = λ pos inside.
      carried (ap (λ (g : Geometry). g.block_bytes) same) (ap (λ (g : Geometry). g.file_size) same)
        pos inside;
  skips = λ b lo hi. skips continued b lo hi;
}
  where
    carried :
        q.geometry.block_bytes ≡ pool.geometry.block_bytes
        → q.geometry.file_size ≡ pool.geometry.file_size
        → 0 < q.carried_block
        → q.carried_block * q.geometry.block_bytes < q.geometry.file_size
        → q.carried ≡ get_or (unsealed content) (q.carried_block * q.geometry.block_bytes) 0
    carried bytes size pos inside =
        let at : q.carried_block * q.geometry.block_bytes
            ≡ pool.carried_block * pool.geometry.block_bytes =
          ap₂ ◌*◌ block bytes in
        byte
        ∙ reader.carried (omega (arith, pos, block)) (omega (arith, inside, at, size))
        ∙ ap (λ k. get_or (unsealed content) k 0) (sym at)

    skips :
        ((q.continuation_start ≡ pool.continuation_start)
            × (q.continuation_end ≡ pool.continuation_end))
          ⊎ (q.continuation_end ≡ 0)
        → (b : ℕ) → q.continuation_start ≤ b
        → b < q.continuation_end
        → share content q.geometry.block_bytes b ≡ []
    skips (inl (from, upto)) b lo hi =
        subst (λ (g : Geometry). share content g.block_bytes b ≡ []) (sym same)
          (reader.skips b (omega (arith, lo, from)) (omega (arith, hi, upto)))
    skips (inr z) b lo hi = absurd (omega (arith, hi, z))

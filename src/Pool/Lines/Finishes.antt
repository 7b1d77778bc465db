-- ===== src/Pool/Lines/Finishes.antt =====
-- proxypool.go: a pool over a file whose lines keep to the limit comes to the end of its cycle.
use mathlib.Core.Path.{subst}
use proxykit_go.Base.{
  ℕ, zero, suc, ◌+◌, ◌-◌, ◌%◌, ◌≤◌, ◌<◌, true, false, Option, none, some, List, [], ◌∷◌, ◌++◌, ltb,
  ◌==◌, ◌&&◌, ◌≡◌, refl, arith, ◌⊎◌, length, sym, ap, ◌∙◌, Bool-cases, inl, inr,
}
use proxykit_go.Base.Bytes.{Bytes}
use proxykit_go.Pool.Open.{Geometry}
use proxykit_go.Pool.State.{Pool, File, PoolError}
use proxykit_go.Pool.Block.{load_block}
use proxykit_go.Pool.Walk.{
  again, leave, load_round, visit_block, visit_region, enter_region, is_continuation, take_line,
}
use proxykit_go.Pool.Extends.{core, ReadsAtMost}
use proxykit_go.Pool.Rounds.{block_of, passed, block_at-inside}
use proxykit_go.Pool.HandOver.{take_lines}
use proxykit_go.Pool.Lines.Keeps.{IsReader, Keeps-IsReader, Keeps-geometry, round-Keeps}
use proxykit_go.Pool.Lines.Steps.{
  behind, behind-IsReader, behind-geometry, passes-StepsOver, leaves-IsRead,
}
use proxykit_go.Pool.Lines.Runs.{
  Runs, stops, enters, passes, takes, round-again_IsWalk, round-leave_IsWalk, StepsOver-parts,
}
use proxykit_go.Pool.Lines.Trail.{
  IsOver, trail, step-trail, core-trail, passes-core, enter_region-trail,
}
use proxykit_go.Pool.Lines.Limited.{Answers, IsTooLong, IsLimit}
use proxykit_go.Pool.Lines.Errors.{load_block-IsLimit}

-- No line of the content is too long.
abbrev pub KeepsLimit : Bytes → ℕ → Type 0
KeepsLimit content limit = (s : ℕ) → ¬ IsTooLong content limit s

-- What is left of a cycle: its blocks and its regions.
abbrev pub left : Pool → ℕ
left pool = length (trail pool) + (pool.geometry.regions_for_shard - pool.region_cursor)

left-passed :
    (pool q : Pool)
    → pool.region_block_next < pool.region_blocks
    → core q ≡ core (passed pool)
    → left q < left pool
left-passed pool q more same =
    let blocks : length (trail pool) ≡ suc (length (trail q)) =
      ap length (step-trail pool more)
      ∙ ap (λ l. suc (length l)) (sym (core-trail (passed pool) q same)) in
    let regions : q.geometry.regions_for_shard - q.region_cursor
        ≡ pool.geometry.regions_for_shard - pool.region_cursor =
      ap (λ c. c.geometry.regions_for_shard - c.region_cursor) same in
    omega (arith, blocks, regions)

left-behind : (n : ℕ) (pool : Pool) → left (behind n pool) ≡ left pool
unfolding take_line
left-behind zero pool = refl
left-behind (suc n) pool = left-behind n (take_line pool).1

left-enter_region :
    (pool : Pool)
    → pool.region_blocks ≤ pool.region_block_next
    → pool.region_cursor < pool.geometry.regions_for_shard
    → left (enter_region pool) < left pool
unfolding enter_region
left-enter_region pool used more =
    let same = ap length (enter_region-trail pool used more) in omega (arith, same, more)

-- The rest of a cycle, from this pool on.
abbrev pub Finishes : File → Pool → Type 0
Finishes file pool =
    (blocks : List ℕ) × (lines : List Bytes) × (last : Pool) × Runs file pool blocks lines last
    × IsOver last

module _ {file : File} {content : Bytes} (reads : ReadsAtMost file) where
  -- A round on a block ends without an error.
  block_round :
      (pool : Pool)
      → IsReader file content pool
      → Answers file content pool.geometry
      → KeepsLimit content pool.geometry.max_line_bytes
      → ltb pool.region_block_next pool.region_blocks ≡ true
      → (q : Pool) × ((load_round file pool ≡ again q) ⊎ (load_round file pool ≡ leave q none))
  unfolding load_round visit_block
  block_round pool reader answers limited more =
      elim (Bool-cases (is_continuation (passed pool) (block_of pool))) [
        | inl old ↦ (passed pool, inl (ground (arith, more, old)))
        | inr new ↦
            let inside = block_at-inside (core pool) reader.walk (ground (arith, more)) in
            let (p, error, was, failed) =
              load_block-IsLimit file content (block_of pool) (passed pool) reads reader.holds
                answers reader.carried reader.walk.block_positive inside in
            by_error new p error was failed
      ]
    where
      by_error :
          is_continuation (passed pool) (block_of pool) ≡ false
          → (p : Pool) (error : Option PoolError)
          → load_block file (block_of pool) (passed pool) ≡ some (p, error)
          → ((e : PoolError) → error ≡ some e → IsLimit content pool.geometry.max_line_bytes e)
          → (q : Pool) × ((load_round file pool ≡ again q) ⊎ (load_round file pool ≡ leave q none))
      by_error new p (some e) was failed =
          let (s, _, long) = failed e refl in absurd (limited s long)
      by_error new p none was failed = elim (Bool-cases (ltb 1 (length p.offsets))) [
        | inl some_lines ↦ (p, inr (ground (arith, more, new, was, some_lines)))
        | inr empty ↦ (p, inl (ground (arith, more, new, was, empty)))
      ]

  -- A round on a region enters it.
  region_round :
      (pool : Pool)
      → Answers file content pool.geometry
      → ltb pool.region_block_next pool.region_blocks ≡ false
      → (pool.region_cursor == pool.geometry.regions_for_shard) ≡ false
      → load_round file pool ≡ again (enter_region pool)
  unfolding load_round visit_region
  region_round pool answers used more =
      elim (Bool-cases
        (ltb 0 pool.region_cursor && pool.region_cursor % pool.geometry.regions_per_check == 0)) [
          | inl checks ↦ ground (arith, used, more, checks, answers.unchanged)
          | inr plain ↦ ground (arith, used, more, plain)
        ]

  pub finishes :
      (n : ℕ) (pool : Pool)
      → left pool < n
      → IsReader file content pool
      → Answers file content pool.geometry
      → KeepsLimit content pool.geometry.max_line_bytes
      → Finishes file pool
  finishes zero pool lt reader answers limited = absurd (omega (arith, lt))
  finishes (suc n) pool lt reader answers limited =
      elim (Bool-cases (ltb pool.region_block_next pool.region_blocks)) [
        | inl more ↦
            let (q, round) = block_round pool reader answers limited more in
            let same = passes-core file pool q reads reader.walk more round in
            let less = left-passed pool q (ground (arith, more)) same in
            elim round [
              | inl h ↦
                  let walk = round-again_IsWalk file pool q reads reader.walk h in
                  let (reader', kept, _) =
                    StepsOver-parts file content pool q
                      (passes-StepsOver file content pool q reader more walk h) in
                  let (blocks, lines, last, run, over) =
                    finishes n q (omega (arith, less, lt)) reader'
                      (subst (λ g. Answers file content g) (sym kept) answers)
                      (subst (λ (g : Geometry). KeepsLimit content g.max_line_bytes) (sym kept)
                        limited) in
                  (block_of pool ∷ blocks, lines, last, passes more h run, over)
              | inr h ↦
                  let walk = round-leave_IsWalk file pool q reads reader.walk h in
                  let count = length q.offsets - 1 in
                  let read = leaves-IsRead file content pool q reader more walk h in
                  let kept = behind-geometry count q ∙ read.geometry in
                  let (blocks, lines, last, run, over) =
                    finishes n (behind count q) (omega (arith, less, lt, left-behind count q))
                      (behind-IsReader count file content q read.reader)
                      (subst (λ g. Answers file content g) (sym kept) answers)
                      (subst (λ (g : Geometry). KeepsLimit content g.max_line_bytes) (sym kept)
                        limited) in
                  (
                    block_of pool ∷ blocks,
                    take_lines count q ++ lines,
                    last,
                    takes more h run,
                    over,
                  )
            ]
        | inr used ↦ elim (Bool-cases (pool.region_cursor == pool.geometry.regions_for_shard)) [
          | inl all ↦ ([], [], pool, stops, (ground (arith, used), ground (arith, all)))
          | inr more ↦
              let h = region_round pool answers used more in
              let q = enter_region pool in
              let less =
                left-enter_region pool (ground (arith, used))
                  (ground (arith, more, reader.walk.cursor_le)) in
              let kept = round-Keeps file pool q used h in
              let same = Keeps-geometry pool q kept in
              let reader' =
                Keeps-IsReader file content pool q kept
                  (round-again_IsWalk file pool q reads reader.walk h) reader in
              let (blocks, lines, last, run, over) =
                finishes n q (omega (arith, less, lt)) reader'
                  (subst (λ g. Answers file content g) (sym same) answers)
                  (subst (λ (g : Geometry). KeepsLimit content g.max_line_bytes) (sym same)
                    limited) in
              (blocks, lines, last, enters used more h run, over)
        ]
      ]

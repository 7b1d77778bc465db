-- ===== src/Pool/Lines/Steps.antt =====
-- proxypool.go: what a round of loadNextBlockLocked on a block leaves.
use mathlib.Core.Path.{subst}
use proxykit_go.Base.{
  ℕ, zero, suc, ◌-◌, ◌*◌, ◌<◌, true, false, none, some, [], map, ltb, ◌≡◌, refl, arith, length, sym,
  ap, ◌∙◌, Bool-cases, inl, inr,
}
use proxykit_go.Base.Bytes.{Bytes}
use proxykit_go.Base.Indices.{indices}
use proxykit_go.Pool.State.{Pool, File}
use proxykit_go.Pool.Block.{Loaded, load_block}
use proxykit_go.Pool.Walk.{
  again, leave, visit_block, load_round, is_continuation, take_line, line_at,
}
use proxykit_go.Pool.Extends.{core}
use proxykit_go.Pool.Rounds.{IsWalk, passed, block_of, block_at-inside}
use proxykit_go.Pool.Lines.Keeps.{IsReader, Keeps, Keeps-IsReader}
use proxykit_go.Pool.Lines.Ended.{Holds}
use proxykit_go.Pool.Lines.Loaded.{HasOrder}
use proxykit_go.Pool.Lines.Load.{load_block-Succeeds}
use proxykit_go.Pool.Lines.Loading.{loaded_lines, load_block-block_lines}
use proxykit_go.Pool.Lines.Shares.{share}

-- The pool behind `n` lines of its block.
abbrev pub behind : ℕ → Pool → Pool
behind zero pool = pool
behind (suc n) pool = behind n (take_line pool).1

take_line-IsReader :
    (file : File) (content : Bytes) (pool : Pool)
    → IsReader file content pool
    → IsReader file content (take_line pool).1
unfolding take_line Keeps
take_line-IsReader file content pool reader =
    Keeps-IsReader file content pool (take_line pool).1 (refl, refl, refl, inl (refl, refl))
      (record {
        active = reader.walk.active;
        block_positive = reader.walk.block_positive;
        blocks_count = reader.walk.blocks_count;
        blocks_bound = reader.walk.blocks_bound;
        cursor_le = reader.walk.cursor_le;
        blocks_le = reader.walk.blocks_le;
        inside = reader.walk.inside;
        rotated = reader.walk.rotated;
      })
      reader

pub behind-IsReader :
    (n : ℕ) (file : File) (content : Bytes) (pool : Pool)
    → IsReader file content pool
    → IsReader file content (behind n pool)
behind-IsReader zero file content pool reader = reader
behind-IsReader (suc n) file content pool reader =
    behind-IsReader n file content (take_line pool).1 (take_line-IsReader file content pool reader)

pub behind-geometry : (n : ℕ) (pool : Pool) → (behind n pool).geometry ≡ pool.geometry
unfolding take_line
behind-geometry zero pool = refl
behind-geometry (suc n) pool = behind-geometry n (take_line pool).1

-- A block that has been read, by a round: its lines are those that start in it.
pub record IsRead (file : File) (content : Bytes) (block : ℕ) (pool p : Pool) : Type 0 where
  pub reader : IsReader file content p
  pub lines : loaded_lines p ≡ share content pool.geometry.block_bytes block
  pub order : HasOrder p
  pub geometry : p.geometry ≡ pool.geometry

load_block-IsRead :
    (file : File) (content : Bytes) (pool p : Pool)
    → IsReader file content pool
    → ltb pool.region_block_next pool.region_blocks ≡ true
    → IsWalk (core p)
    → load_block file (block_of pool) (passed pool) ≡ some (p, none)
    → IsRead file content (block_of pool) pool p
load_block-IsRead file content pool p reader more walk h =
    let holds = reader.holds in
    let inside = block_at-inside (core pool) reader.walk (ground (arith, more)) in
    let in_content : block_of pool * pool.geometry.block_bytes < length content =
      omega (arith, inside, holds.size) in
    let (lines, carried) =
      load_block-block_lines file content (block_of pool) (passed pool) p holds reader.carried
        reader.walk.block_positive in_content h in
    let (_, order, same, _, _, skips) =
      load_block-Succeeds file content (block_of pool) (passed pool) p holds reader.carried
        reader.walk.block_positive inside h in
    record {
      reader = record {
        walk = walk;
        holds = subst (λ g. Holds file content g) (sym same) holds;
        carried = carried;
        skips = skips reader.skips;
      };
      lines = lines;
      order = order;
      geometry = same;
    }

-- What a round on a block leaves to the reader.
unfoldable pub StepsOver : File → Bytes → Pool → Pool → Type 0
StepsOver file content pool q =
    IsReader file content q
    × (q.geometry ≡ pool.geometry)
    × (share content pool.geometry.block_bytes (block_of pool) ≡ [])

-- A block that is passed over has no line.
continues-StepsOver :
    (file : File) (content : Bytes) (pool : Pool)
    → IsReader file content pool
    → is_continuation (passed pool) (block_of pool) ≡ true
    → IsWalk (core (passed pool))
    → StepsOver file content pool (passed pool)
unfolding Keeps StepsOver
continues-StepsOver file content pool reader old walk = (
  Keeps-IsReader file content pool (passed pool) (refl, refl, refl, inl (refl, refl)) walk reader,
  refl,
  reader.skips (block_of pool) (ground (arith, old)) (ground (arith, old)),
)

-- A block that the loop goes on behind has no line.
pub passes-StepsOver :
    (file : File) (content : Bytes) (pool q : Pool)
    → IsReader file content pool
    → ltb pool.region_block_next pool.region_blocks ≡ true
    → IsWalk (core q)
    → load_round file pool ≡ again q
    → StepsOver file content pool q
unfolding load_round visit_block StepsOver
passes-StepsOver file content pool q reader more walk h =
    elim (Bool-cases (is_continuation (passed pool) (block_of pool))) [
      | inl old ↦
          let result : passed pool ≡ q = ground (arith, h, more, old) in
          subst (λ q. StepsOver file content pool q) result
            (continues-StepsOver file content pool reader old
              (subst (λ q. IsWalk (core q)) (sym result) walk))
      | inr new ↦ by_load (load_block file (block_of pool) (passed pool)) refl new
    ]
  where
    by_load :
        (l : Loaded)
        → load_block file (block_of pool) (passed pool) ≡ l
        → is_continuation (passed pool) (block_of pool) ≡ false
        → StepsOver file content pool q
    by_load none e new = absurd (ground (arith, h, more, new, e))
    by_load (some (p, some err)) e new = absurd (ground (arith, h, more, new, e))
    by_load (some (p, none)) e new = elim (Bool-cases (ltb 1 (length p.offsets))) [
      | inl some_lines ↦ absurd (ground (arith, h, more, new, e, some_lines))
      | inr empty ↦
          let result : p ≡ q = ground (arith, h, more, new, e, empty) in
          let read =
            load_block-IsRead file content pool p reader more
              (subst (λ q. IsWalk (core q)) (sym result) walk) e in
          let none_left : length p.offsets - 1 ≡ 0 = ground (arith, empty) in
          subst (λ q. StepsOver file content pool q) result
            (
              read.reader,
              read.geometry,
              sym read.lines ∙ ap (λ n. map (line_at p) (indices 0 n)) none_left,
            )
    ]

-- A round that leaves with a block has loaded it.
pub leaves-IsRead :
    (file : File) (content : Bytes) (pool q : Pool)
    → IsReader file content pool
    → ltb pool.region_block_next pool.region_blocks ≡ true
    → IsWalk (core q)
    → load_round file pool ≡ leave q none
    → IsRead file content (block_of pool) pool q
unfolding load_round visit_block
leaves-IsRead file content pool q reader more walk h =
    elim (Bool-cases (is_continuation (passed pool) (block_of pool))) [
      | inl old ↦ absurd (ground (arith, h, more, old))
      | inr new ↦ by_load (load_block file (block_of pool) (passed pool)) refl new
    ]
  where
    by_load :
        (l : Loaded)
        → load_block file (block_of pool) (passed pool) ≡ l
        → is_continuation (passed pool) (block_of pool) ≡ false
        → IsRead file content (block_of pool) pool q
    by_load none e new = absurd (ground (arith, h, more, new, e))
    by_load (some (p, some err)) e new = absurd (ground (arith, h, more, new, e))
    by_load (some (p, none)) e new = elim (Bool-cases (ltb 1 (length p.offsets))) [
      | inr empty ↦ absurd (ground (arith, h, more, new, e, empty))
      | inl some_lines ↦
          let result : p ≡ q = ground (arith, h, more, new, e, some_lines) in
          load_block-IsRead file content pool q reader more walk
            (e ∙ ap (λ p. some (p, none)) result)
    ]

-- ===== src/Pool/Lines/Runs.antt =====
-- proxypool.go: the rounds of loadNextBlockLocked, with the lines that Next takes between them.
use mathlib.Core.List.{Perm}
use mathlib.Core.List.Perm
use mathlib.Core.Path.{ap₂, subst}
use proxykit_go.Base.{
  ℕ, ◌==◌, ◌<◌, ◌-◌, ◌*◌, ◌≤◌, true, false, none, List, [], ◌∷◌, ◌++◌, ltb, ◌≡◌, arith, length, sym,
  ◌∙◌,
}
use proxykit_go.Base.Bytes.{Bytes}
use proxykit_go.Base.Indices.{indices}
use proxykit_go.Pool.Open.{Geometry}
use proxykit_go.Pool.State.{Pool, File}
use proxykit_go.Pool.Walk.{again, leave, load_round}
use proxykit_go.Pool.Extends.{core, ReadsAtMost}
use proxykit_go.Base.{refl, ap}
use proxykit_go.Pool.Lines.Loaded.{HasOrder}
use proxykit_go.Pool.Lines.Loading.{loaded_lines}
use proxykit_go.Pool.Sizes.{mode_sequential, ceiling_quotient}
use proxykit_go.Pool.Shards.{ceiling_quotient-covers}
use proxykit_go.Pool.Rounds.{IsWalk, Turns, block_of}
use proxykit_go.Pool.Ends.{load_round-Turns}
use proxykit_go.Pool.HandOver.{take_lines}
use proxykit_go.Pool.Lines.Steps.{
  behind, behind-IsReader, behind-geometry, StepsOver, passes-StepsOver, leaves-IsRead,
}
use proxykit_go.Pool.Lines.Keeps.{IsReader, Keeps-IsReader, Keeps-geometry, round-Keeps}
use proxykit_go.Pool.Lines.Takes.{take_lines-loaded_lines, take_lines-in_order}
use proxykit_go.Pool.Lines.Shares.{share, shares, shares-split_lines}
use proxykit_go.Pool.Lines.Reference.{split_lines}

-- A run within a cycle: the rounds of the walk without an error, from one pool to another, the blocks
-- that they come to, and the lines that Next takes, all of a block's lines behind each round that
-- leaves with one.
pub data Runs (file : File) : Pool → List ℕ → List Bytes → Pool → Type 0 where
  stops : {pool : Pool} → Runs file pool [] [] pool
  enters :
      {pool q last : Pool} {blocks : List ℕ} {lines : List Bytes}
      → ltb pool.region_block_next pool.region_blocks ≡ false
      → (pool.region_cursor == pool.geometry.regions_for_shard) ≡ false
      → load_round file pool ≡ again q
      → Runs file q blocks lines last
      → Runs file pool blocks lines last
  passes :
      {pool q last : Pool} {blocks : List ℕ} {lines : List Bytes}
      → ltb pool.region_block_next pool.region_blocks ≡ true
      → load_round file pool ≡ again q
      → Runs file q blocks lines last
      → Runs file pool (block_of pool ∷ blocks) lines last
  takes :
      {pool q last : Pool} {blocks : List ℕ} {lines : List Bytes}
      → ltb pool.region_block_next pool.region_blocks ≡ true
      → load_round file pool ≡ leave q none
      → Runs file (behind (length q.offsets - 1) q) blocks lines last
      → Runs file pool (block_of pool ∷ blocks) (take_lines (length q.offsets - 1) q ++ lines) last

-- The walk of a round that goes on, or leaves with a block.
pub round-again_IsWalk :
    (file : File) (pool q : Pool)
    → ReadsAtMost file
    → IsWalk (core pool)
    → load_round file pool ≡ again q
    → IsWalk (core q)
round-again_IsWalk file pool q reads walk h =
    (subst (λ r. Turns (core pool) r) h (load_round-Turns file pool reads walk)).0

pub round-leave_IsWalk :
    (file : File) (pool q : Pool)
    → ReadsAtMost file
    → IsWalk (core pool)
    → load_round file pool ≡ leave q none
    → IsWalk (core q)
round-leave_IsWalk file pool q reads walk h =
    (subst (λ r. Turns (core pool) r) h (load_round-Turns file pool reads walk)).0

pub StepsOver-parts :
    (file : File) (content : Bytes) (pool q : Pool)
    → StepsOver file content pool q
    → IsReader file content q
      × (q.geometry ≡ pool.geometry)
      × (share content pool.geometry.block_bytes (block_of pool) ≡ [])
unfolding StepsOver
StepsOver-parts file content pool q h = h

-- A way to compare lists of lines that goes over to lists one behind the other.
record IsCongruence (Like : List Bytes → List Bytes → Type 0) : Type 0 where
  empty : Like [] []
  append : {a b c d : List Bytes} → Like a b → Like c d → Like (a ++ c) (b ++ d)

-- The lines that Next takes from a block compare with the block's lines.
abbrev Compares : (List Bytes → List Bytes → Type 0) → Geometry → Type 0
Compares Like g =
    (q : Pool)
    → q.geometry ≡ g
    → HasOrder q
    → Like (take_lines (length q.offsets - 1) q) (loaded_lines q)

-- The lines of a run compare with those that start in its blocks, if the lines of each block do.
module _ {file : File} (content : Bytes) (reads : ReadsAtMost file)
    (Like : List Bytes → List Bytes → Type 0) (like : IsCongruence Like) where
  compared :
      {pool last : Pool} {blocks : List ℕ} {lines : List Bytes}
      → IsReader file content pool
      → Compares Like pool.geometry
      → Runs file pool blocks lines last
      → Like lines (shares content pool.geometry.block_bytes blocks)
  compared reader each stops = like.empty
  compared {pool} {blocks = blocks} {lines} reader each (enters {q = q} used more h rest) =
      let kept = round-Keeps file pool q used h in
      let same = Keeps-geometry pool q kept in
      let reader' =
        Keeps-IsReader file content pool q kept (round-again_IsWalk file pool q reads reader.walk h)
          reader in
      subst (λ (g : Geometry). Like lines (shares content g.block_bytes blocks)) same
        (compared reader' (subst (λ g. Compares Like g) (sym same) each) rest)
  compared {pool} {lines = lines} reader each (passes {q = q} {blocks} more h rest) =
      let walk = round-again_IsWalk file pool q reads reader.walk h in
      let (reader', same, empty) =
        StepsOver-parts file content pool q
          (passes-StepsOver file content pool q reader more walk h) in
      let others =
        subst (λ (g : Geometry). Like lines (shares content g.block_bytes blocks)) same
          (compared reader' (subst (λ g. Compares Like g) (sym same) each) rest) in
      subst (λ l. Like lines (l ++ shares content pool.geometry.block_bytes blocks)) (sym empty)
        others
  compared {pool} reader each (takes {q = q} {blocks} {lines} more h rest) =
      let walk = round-leave_IsWalk file pool q reads reader.walk h in
      let read = leaves-IsRead file content pool q reader more walk h in
      let count = length q.offsets - 1 in
      let same = behind-geometry count q ∙ read.geometry in
      let others =
        subst (λ (g : Geometry). Like lines (shares content g.block_bytes blocks)) same
          (compared (behind-IsReader count file content q read.reader)
            (subst (λ g. Compares Like g) (sym same) each) rest) in
      like.append
        (subst (λ l. Like (take_lines count q) l) read.lines (each q read.geometry read.order))
        others

-- In a run from a pool that reads the content, Next returns the lines that start in the blocks that
-- the run comes to, each of them once.
pub Runs-shares :
    {file : File} {pool last : Pool} {blocks : List ℕ} {lines : List Bytes}
    → (content : Bytes) → ReadsAtMost file
    → IsReader file content pool
    → Runs file pool blocks lines last
    → Perm lines (shares content pool.geometry.block_bytes blocks)
Runs-shares content reads reader run =
    compared content reads Perm (record { empty = Perm.refl []; append = λ h h'. Perm.append h h' })
      reader (λ q _ order. take_lines-loaded_lines q order) run

-- In the order of the file, Next returns these lines in their order.
pub Runs-in_order :
    {file : File} {pool last : Pool} {blocks : List ℕ} {lines : List Bytes}
    → (content : Bytes) → ReadsAtMost file
    → IsReader file content pool
    → (pool.geometry.mode == mode_sequential) ≡ true
    → Runs file pool blocks lines last
    → lines ≡ shares content pool.geometry.block_bytes blocks
Runs-in_order content reads reader sequential run =
    compared content reads (λ a b. a ≡ b) (record { empty = refl; append = λ h h'. ap₂ ◌++◌ h h' })
      reader
      (λ q same order.
        take_lines-in_order q order
          (ap (λ (g : Geometry). g.mode == mode_sequential) same ∙ sequential))
      run

pub enough_blocks :
    (content : Bytes) (g : Geometry)
    → g.block_count ≡ ceiling_quotient g.file_size g.block_bytes
    → 0 < g.block_bytes
    → g.file_size ≡ length content
    → length content ≤ g.block_count * g.block_bytes
enough_blocks content g count pos size =
    let covered = ceiling_quotient-covers g.file_size g.block_bytes pos in
    subst (λ n. length content ≤ n * g.block_bytes) (sym count) (omega (arith, covered, size))

-- For a file that keeps its content: if the rounds of loadNextBlockLocked within a cycle, without an error, come to
-- each block once, in whatever order, and Next takes all lines of a block behind each round that leaves
-- with one, then Next returns the lines of the file, each once: a line ends with its LF and the CR before
-- it, and the last one may have no LF.
pub Runs-split_lines :
    (file : File) (content : Bytes) (pool last : Pool) (blocks : List ℕ) (lines : List Bytes)
    → ReadsAtMost file
    → IsReader file content pool
    → Runs file pool blocks lines last
    → Perm blocks (indices 0 pool.geometry.block_count)
    → Perm lines (split_lines [] content)
Runs-split_lines file content pool last blocks lines reads reader run order =
    Perm.trans (Runs-shares content reads reader run) (
      shares-split_lines content pool.geometry.block_bytes pool.geometry.block_count blocks
        (enough_blocks content pool.geometry reader.walk.blocks_count reader.walk.block_positive
          reader.holds.size)
        order)

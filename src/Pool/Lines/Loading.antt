-- ===== src/Pool/Lines/Loading.antt =====
-- proxypool.go: loadBlockLocked takes from the file the lines that start in the block.
use mathlib.Core.Path.{ap₂}
use proxykit_go.Base.{
  ℕ, zero, suc, ◌+◌, ◌-◌, ◌*◌, ◌≤◌, ◌<◌, min, Bool, none, some, List, [], ◌∷◌, ◌++◌, map, ◌≡◌, refl,
  arith, length, get_or, drop, sym, ap, ◌∙◌, length-drop,
}
use proxykit_go.Base.Indices.{indices}
use proxykit_go.Base.Bytes.{Bytes}
use proxykit_go.Pool.Open.{Geometry}
use proxykit_go.Pool.State.{Pool, File}
use proxykit_go.Pool.Block.{load_block}
use proxykit_go.Pool.Walk.{line_at}
use proxykit_go.Pool.Lines.Framed.{unsealed}
use proxykit_go.Pool.Lines.Ended.{Holds}
use proxykit_go.Pool.Lines.Loaded.{HasOffsets}
use proxykit_go.Pool.Lines.Reads.{IsCarried}
use proxykit_go.Pool.Lines.Load.{load_block-Succeeds}
use proxykit_go.Pool.Lines.Reference.{block_lines, block_lines-append}
use proxykit_go.Pool.Lines.Spans.{Spans}
use proxykit_go.Pool.Lines.Marks.{Spans-positive, Owned}
use proxykit_go.Pool.Lines.Whole.{offset_lines, offset_lines-block_lines}
use proxykit_go.Pool.Lines.Starts.{IsPlain-block_lines}

-- The lines of the block that is loaded, in the file's order.
abbrev pub loaded_lines : Pool → List Bytes
loaded_lines pool = map (line_at pool) (indices 0 (length pool.offsets - 1))

drop-get_or : (i : ℕ) (xs : List ℕ) → i < length xs → drop i xs ≡ get_or xs i 0 ∷ drop (i + 1) xs
drop-get_or zero [] h = elim h [ ]
drop-get_or zero (x ∷ xs) h = refl
drop-get_or (suc i) [] h = elim h [ ]
drop-get_or (suc i) (x ∷ xs) h =
    let e : suc i + 1 ≡ suc (i + 1) = omega arith in rw e (drop-get_or i xs (omega (arith, h)))

offset_lines-line_at :
    (pool : Pool) (n i : ℕ)
    → i + n + 1 ≡ length pool.offsets
    → offset_lines pool.buffer pool.cr (drop i pool.offsets) ≡ map (line_at pool) (indices i n)
unfolding offset_lines line_at
offset_lines-line_at pool zero i h =
    let e = drop-get_or i pool.offsets (omega (arith, h)) in
    let rest : drop (i + 1) pool.offsets ≡ [] =
      no_more (drop (i + 1) pool.offsets) (omega (arith, h, length-drop (i + 1) pool.offsets)) in
    rw (e, rest) refl
  where
    no_more : (xs : List ℕ) → length xs ≡ 0 → xs ≡ []
    no_more [] h = refl
    no_more (x ∷ xs) h = absurd (omega (arith, h))
offset_lines-line_at pool (suc n) i h =
    let e = drop-get_or i pool.offsets (omega (arith, h)) in
    let e' = drop-get_or (i + 1) pool.offsets (omega (arith, h)) in
    let rest = offset_lines-line_at pool n (i + 1) (omega (arith, h)) in
    let rest' = ap (offset_lines pool.buffer pool.cr) (sym e') ∙ rest in
    rw (e, e') (ap (◌∷◌ (line_at pool i)) rest')

offset_lines-loaded_lines :
    (pool : Pool) (offsets : List ℕ)
    → pool.offsets ≡ offsets
    → offset_lines pool.buffer pool.cr pool.offsets ≡ loaded_lines pool
unfolding offset_lines
offset_lines-loaded_lines pool [] e =
    let none_left : length pool.offsets - 1 ≡ 0 = omega (arith, ap length e) in
    ap (offset_lines pool.buffer pool.cr) e
    ∙ sym (ap (λ n. map (line_at pool) (indices 0 n)) none_left)
offset_lines-loaded_lines pool (a ∷ ends) e =
    offset_lines-line_at pool (length pool.offsets - 1) 0 (omega (arith, ap length e))

-- The lines between offsets that stand for a block's lines.
HasOffsets-block_lines :
    (content : Bytes) (start own : ℕ) (buffer : Bytes) (cr : Bool) (offsets : List ℕ)
    → start + own ≤ length content + 1
    → HasOffsets content start own buffer cr offsets
    → offset_lines buffer cr offsets ≡ block_lines content start (own - 1)
unfolding offset_lines
HasOffsets-block_lines content start own buffer cr [] fits (window, inside, plain) =
    let z : start + 0 ≡ start = omega arith in
    let z' : own - 1 - 0 ≡ own - 1 = omega arith in
    let quiet =
      IsPlain-block_lines content start buffer 0 (own - 1) window plain (omega (arith, inside))
        (omega (arith, fits)) in
    sym quiet ∙ ap₂ (block_lines content) z z'
HasOffsets-block_lines content start own buffer cr (a ∷ ends) fits x =
    let pos = Spans-positive buffer a ends x.spans in
    let lines =
      offset_lines-block_lines content start own buffer cr a ends x.window fits x.spans x.owned
        x.flag in
    let quiet =
      IsPlain-block_lines content start buffer 0 (a - 1) x.window x.before.1
        (omega (arith, inside a ends x.before.0 x.spans x.owned))
        (omega (arith, fits, x.before.0)) in
    let apart = block_lines-append content (start + 0) (a - 1 - 0) (own - a) in
    let e : start + 0 + (a - 1 - 0) ≡ start + a - 1 = omega (arith, pos) in
    let z : start + 0 ≡ start = omega arith in
    let total : a - 1 - 0 + (own - a) ≡ own - 1 = omega (arith, pos, x.before.0) in
    lines
    ∙ ap (λ k. block_lines content k (own - a)) (sym e)
    ∙ ap (λ t. t ++ block_lines content (start + 0 + (a - 1 - 0)) (own - a)) (sym quiet)
    ∙ sym apart
    ∙ ap₂ (block_lines content) z total
  where
    inside :
        (a : ℕ) (ends : List ℕ)
        → a < own
        → Spans buffer (a ∷ ends)
        → Owned own (a ∷ ends)
        → a - 1 ≤ length buffer
    inside a [] lt spans owned = absurd (omega (arith, lt, owned))
    inside a (b ∷ ends) lt spans owned = omega (arith, spans.0.rises, spans.0.inside)

-- For a file that keeps its content and a pool whose carried byte, if it has one, is the one before
-- its block: a block that loadBlockLocked loads without an error has exactly the lines of the file that
-- start in it, in their order and with their texts, and the pool keeps the byte before the next block.
pub load_block-block_lines :
    (file : File) (content : Bytes) (block : ℕ) (pool p : Pool)
    → Holds file content pool.geometry
    → IsCarried content pool
    → 0 < pool.geometry.block_bytes
    → block * pool.geometry.block_bytes < length content
    → load_block file block pool ≡ some (p, none)
    → (loaded_lines p
        ≡ block_lines content
            (block * pool.geometry.block_bytes)
            (min pool.geometry.block_bytes (length content - block * pool.geometry.block_bytes)))
      × IsCarried content p
load_block-block_lines file content block pool p holds carried pos inside h =
    let g = pool.geometry in
    let start = block * g.block_bytes in
    let base = min g.block_bytes (g.file_size - start) in
    let (has, _, same, next, byte, _) =
      load_block-Succeeds file content block pool p holds carried pos
        (omega (arith, inside, holds.size)) h in
    let lines =
      HasOffsets-block_lines content start (1 + base) p.buffer p.cr p.offsets
        (omega (arith, holds.size, inside)) has in
    let cut : 1 + base - 1 ≡ min g.block_bytes (length content - start) =
      omega (arith, holds.size) in
    (
      sym (offset_lines-loaded_lines p p.offsets refl) ∙ lines ∙ ap (block_lines content start) cut,
      λ _ more. next_byte p same next byte more,
    )
  where
    next_byte :
        (p : Pool)
        → p.geometry ≡ pool.geometry
        → p.carried_block ≡ block + 1
        → p.carried
          ≡ get_or
              (unsealed content)
              (block * pool.geometry.block_bytes
                + (1
                    + min pool.geometry.block_bytes
                        (pool.geometry.file_size - block * pool.geometry.block_bytes)
                    - 1))
              0
        → p.carried_block * p.geometry.block_bytes < p.geometry.file_size
        → p.carried ≡ get_or (unsealed content) (p.carried_block * p.geometry.block_bytes) 0
    next_byte p same next byte more =
        let bytes = ap (λ (g : Geometry). g.block_bytes) same in
        let size = ap (λ (g : Geometry). g.file_size) same in
        let after : (block + 1) * pool.geometry.block_bytes
            ≡ block * pool.geometry.block_bytes + pool.geometry.block_bytes =
          omega arith in
        let at : p.carried_block * p.geometry.block_bytes
            ≡ block * pool.geometry.block_bytes + pool.geometry.block_bytes =
          ap₂ ◌*◌ next bytes ∙ after in
        let here : block * pool.geometry.block_bytes
              + (1
                  + min pool.geometry.block_bytes
                      (pool.geometry.file_size - block * pool.geometry.block_bytes)
                  - 1)
            ≡ p.carried_block * p.geometry.block_bytes =
          omega (arith, at, more, size) in
        byte ∙ ap (λ k. get_or (unsealed content) k 0) here

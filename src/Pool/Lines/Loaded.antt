-- ===== src/Pool/Lines/Loaded.antt =====
-- proxypool.go: a block that loadBlockLocked loads without an error has the lines that start in it.
use native.Mathlib.Nat
use mathlib.Core.Path.{subst}
use proxykit_go.Base.{true}
use proxykit_go.Base.{
  ℕ, ◌+◌, ◌-◌, ◌*◌, ◌/◌, ◌≤◌, ◌<◌, min, Bool, none, some, List, [], ◌∷◌, ◌++◌, leb, ◌==◌, ◌≡◌, refl,
  arith, if◌then◌else◌, length, get_or, take, sym, ap, ◌∙◌, Bool-cases, inl, inr, length-take,
}
use proxykit_go.Base.Bytes.{Bytes}
use proxykit_go.Pool.Sizes.{mode_sequential}
use proxykit_go.Pool.Open.{Geometry}
use proxykit_go.Pool.State.{Pool, File, ReadRange}
use proxykit_go.Base.Word.{xor64}
use proxykit_go.Pool.Permutation.{mix64}
use proxykit_go.Pool.Permutation.Coprime.{AreParams, gcd-one, permutation_params-AreParams}
use proxykit_go.Pool.Extend.{
  Extended, extended, not_extended, out_of_rounds, terminate, terminated, extend_line,
}
use proxykit_go.Pool.Block.{last_offset, order_lines, continue_line, close_line}
use proxykit_go.Pool.Limits.{get_or-take}
use proxykit_go.Pool.Lines.Framed.{unsealed, framed, IsWindow, IsWindow-take}
use proxykit_go.Pool.Lines.Found.{IsPlain}
use proxykit_go.Pool.Lines.Ended.{Holds, IsExtended, IsOpen, terminated-IsExtended}
use proxykit_go.Pool.Lines.Extension.{extend_line-IsExtended}
use proxykit_go.Pool.Lines.Reference.{block_lines}
use proxykit_go.Pool.Lines.Starts.{IsPlain-block_lines}
use proxykit_go.Pool.Lines.Block.{IsIndexed, IsSearched, extended-IsIndexed}

-- The offsets of a pool whose block has no line, or those of its lines.
abbrev pub HasOffsets : Bytes → ℕ → ℕ → Bytes → Bool → List ℕ → Type 0
HasOffsets content start own buffer cr [] =
    IsWindow (framed content) start buffer × (own ≤ length buffer) × IsPlain buffer 0 (own - 1)
HasOffsets content start own buffer cr (a ∷ ends) = IsIndexed content start own buffer a ends cr

abbrev pub HasBlock : Bytes → ℕ → ℕ → Pool → Type 0
HasBlock content start own p = HasOffsets content start own p.buffer p.cr p.offsets

-- The order in which the pool takes the lines of its block comes to each of them.
abbrev pub HasOrder : Pool → Type 0
HasOrder p =
    0 < length p.offsets
    → AreParams (length p.offsets - 1) (record { step = p.line_step; start = p.next_line })
      × ((p.geometry.mode == mode_sequential) ≡ true → (p.next_line ≡ 0) × (p.line_step ≡ 1))

-- No line starts in the blocks that the pool passes over.
abbrev pub HasPassed : Bytes → Pool → Type 0
HasPassed content p =
    (b : ℕ)
    → p.continuation_start ≤ b
    → b < p.continuation_end
    → block_lines content (b * p.geometry.block_bytes)
        (min p.geometry.block_bytes (length content - b * p.geometry.block_bytes))
      ≡ []

-- A load that succeeds, from one pool to another.
abbrev pub Succeeds : Bytes → ℕ → ℕ → ℕ → Pool → Pool → Type 0
Succeeds content start own block pool p =
    HasBlock content start own p
    × HasOrder p
    × (p.geometry ≡ pool.geometry)
    × (p.carried_block ≡ block + 1)
    × (p.carried ≡ get_or (unsealed content) (start + (own - 1)) 0)
    × (HasPassed content pool → HasPassed content p)

-- The range of a block.
abbrev pub IsRange : Pool → ℕ → ReadRange → Type 0
IsRange pool block r =
    (r.block_start ≡ block * pool.geometry.block_bytes)
    × (r.ownership_end ≤ 1 + pool.geometry.block_bytes)
    × (0 < pool.geometry.block_bytes)

-- The pool with the offsets of a block that has been searched.
pub record IsReady (content : Bytes) (start own block : ℕ) (pool : Pool) (a : ℕ) (ends : List ℕ)
    : Type 0 where
  pub offsets : pool.offsets ≡ a ∷ ends
  pub searched : IsSearched content start own pool.buffer a ends pool.cr
  pub carried_block : pool.carried_block ≡ block + 1
  pub carried : pool.carried ≡ get_or (unsealed content) (start + (own - 1)) 0

IsIndexed-length :
    {content : Bytes} {start own : ℕ} {buffer : Bytes} {cr : Bool}
    → (a : ℕ) (ends : List ℕ) → IsIndexed content start own buffer a ends cr
    → 0 < length ends
IsIndexed-length a [] h = absurd (omega (arith, h.owned, h.before.0))
IsIndexed-length a (b ∷ ends) h = omega arith

pub order_lines-Succeeds :
    (content : Bytes) (start own block : ℕ) (pool p : Pool) (a : ℕ) (ends : List ℕ)
    → p.offsets ≡ a ∷ ends
    → IsIndexed content start own p.buffer a ends p.cr
    → p.carried_block ≡ block + 1
    → p.carried ≡ get_or (unsealed content) (start + (own - 1)) 0
    → p.geometry ≡ pool.geometry
    → (HasPassed content pool → HasPassed content p)
    → Succeeds content start own block pool (order_lines block p)
unfolding order_lines
order_lines-Succeeds content start own block pool p a ends e h c c' g kept =
    let count = length p.offsets - 1 in
    let some_lines : 0 < count = omega (arith, ap length e, IsIndexed-length a ends h) in
    let in_order : AreParams count (record { step = 1; start = 0 }) = record {
      coprime = gcd-one count;
      step_le = omega (arith, some_lines);
      start_lt = some_lines;
    } in
    let shuffled =
      permutation_params-AreParams count (mix64 (xor64 p.cycle_seed block))
        (omega (arith, some_lines)) in
    let has = subst (λ o. HasOffsets content start own p.buffer p.cr o) (sym e) h in
    elim (Bool-cases (p.geometry.mode == mode_sequential)) [
      | inl sequential ↦
          rw (sequential, order_lines) (has, λ _. (in_order, λ _. (refl, refl)), g, c, c', kept)
      | inr random ↦
          rw (random, order_lines)
            (has, λ _. (shuffled, λ yes. absurd (ground (arith, random, yes))), g, c, c', kept)
    ]

close_line-order_lines :
    (block : ℕ) (r : ReadRange) (last : ℕ) (pool p : Pool)
    → close_line block r last pool ≡ some (p, none)
    → let cut = record pool { buffer = take r.ownership_end pool.buffer } in
      order_lines block
        (record (terminated cut) { offsets = pool.offsets ++ length (terminate cut.buffer) ∷ [] })
      ≡ p
unfolding close_line
close_line-order_lines block r last pool p h = ground (arith, h)

pub close_line-Succeeds :
    (content : Bytes) (block a : ℕ) (r : ReadRange) (ends : List ℕ) (pool p : Pool)
    → IsReady content r.block_start r.ownership_end block pool a ends
    → r.block_start + r.ownership_end ≡ length (unsealed content)
    → last_offset ends a < r.ownership_end
    → close_line block r (last_offset ends a) pool ≡ some (p, none)
    → Succeeds content r.block_start r.ownership_end block pool p
close_line-Succeeds content block a r ends pool p ready whole lt h =
    let own = r.ownership_end in
    let last = last_offset ends a in
    let s = ready.searched in
    let cut = record pool { buffer = take own pool.buffer } in
    let len : length (take own pool.buffer) ≡ own =
      omega (arith, length-take own pool.buffer, s.fits) in
    let opened : IsOpen content r.block_start last cut = record {
      window = IsWindow-take (unsealed content) r.block_start own pool.buffer s.window;
      within = omega (arith, len, lt);
      some_bytes = omega (arith, len, lt);
      plain = λ q lo hi e.
          s.found.rest q lo (omega (arith, hi, len))
            (sym (get_or-take own q pool.buffer (omega (arith, hi, len))) ∙ e);
    } in
    let x =
      terminated-IsExtended content r.block_start last cut opened (omega (arith, len, whole)) in
    let stop = length (terminate cut.buffer) in
    subst (λ p. Succeeds content r.block_start own block pool p)
      (close_line-order_lines block r last pool p h)
      (order_lines-Succeeds content r.block_start own block pool
        (record (terminated cut) { offsets = pool.offsets ++ stop ∷ [] }) a (ends ++ stop ∷ [])
        (ap (λ o. o ++ stop ∷ []) ready.offsets)
        (extended-IsIndexed content r.block_start own a ends pool cut (terminated cut) s x refl lt)
        ready.carried_block ready.carried refl (λ k. k))

-- A block that a line fills has no start of a line.
filled-block_lines :
    {file : File}
    → (content : Bytes) (block : ℕ) (r : ReadRange) (last b : ℕ) (pool y : Pool)
    → Holds file content pool.geometry
    → IsRange pool block r
    → IsExtended content r.block_start last pool y
    → last < r.ownership_end
    → block + 1 ≤ b
    → b < (
        if leb pool.geometry.file_size (r.block_start + length y.buffer - 1)
        then pool.geometry.block_count
        else (r.block_start + length y.buffer - 1) / pool.geometry.block_bytes)
    → block_lines content
        (b * pool.geometry.block_bytes)
        (min pool.geometry.block_bytes (length content - b * pool.geometry.block_bytes))
      ≡ []
filled-block_lines content block r last b pool y holds range x lt lo hi =
    let bytes = pool.geometry.block_bytes in
    let start = r.block_start in
    let stop = length y.buffer in
    let from = b * bytes - start in
    let n = min bytes (length content - b * bytes) in
    let after : block * bytes + bytes ≤ b * bytes = omega (arith, Nat.mul-le-mul_right bytes lo) in
    let at : start + from ≡ b * bytes = omega (arith, range, after) in
    let count : from + n - from ≡ n = omega arith in
    elim (Bool-cases (n == 0)) [
      | inl empty ↦ let z : n ≡ 0 = ground (arith, empty) in ap (block_lines content (b * bytes)) z
      | inr more ↦
          let inside : b * bytes + n ≤ length content = ground (arith, more) in
          let before : start + from + n ≤ start + stop - 1 = omega (arith, at, ends inside) in
          let quiet =
            IsPlain-block_lines content start y.buffer from (from + n) x.window
              (λ q ge below.
                x.plain q (omega (arith, ge, at, after, lt, range)) (omega (arith, below, before)))
              (omega (arith, before)) (omega (arith, at, inside)) in
          subst (λ k. block_lines content k n ≡ []) at
            (subst (λ m. block_lines content (start + from) m ≡ []) count quiet)
    ]
  where
    ends :
        b * pool.geometry.block_bytes
            + min pool.geometry.block_bytes (length content - b * pool.geometry.block_bytes)
          ≤ length content
        → b * pool.geometry.block_bytes
            + min pool.geometry.block_bytes (length content - b * pool.geometry.block_bytes)
          ≤ r.block_start + length y.buffer - 1
    ends inside =
        elim (Bool-cases (leb pool.geometry.file_size (r.block_start + length y.buffer - 1))) [
          | inl all_read ↦ ground (arith, all_read, holds.size, inside)
          | inr more ↦
              let below : b + 1
                  ≤ (r.block_start + length y.buffer - 1) / pool.geometry.block_bytes =
                ground (arith, hi, more) in
              let whole = (Nat.le-div_iff_mul-le range.2).0 below in omega (arith, whole)
        ]

pub continue_line-Succeeds :
    (file : File) (content : Bytes) (block a : ℕ) (r : ReadRange) (ends : List ℕ) (pool p : Pool)
    → Holds file content pool.geometry
    → IsRange pool block r
    → IsReady content r.block_start r.ownership_end block pool a ends
    → last_offset ends a < r.ownership_end
    → continue_line file block r (last_offset ends a) pool ≡ some (p, none)
    → Succeeds content r.block_start r.ownership_end block pool p
unfolding continue_line
continue_line-Succeeds file content block a r ends pool p holds range ready lt h =
    by_extension (extend_line file r.block_start (last_offset ends a) r.ownership_end pool) refl
  where
    by_extension :
        (y : Extended)
        → extend_line file r.block_start (last_offset ends a) r.ownership_end pool ≡ y
        → Succeeds content r.block_start r.ownership_end block pool p
    by_extension out_of_rounds e = absurd (ground (arith, h, e))
    by_extension (not_extended err x) e = absurd (ground (arith, h, e))
    by_extension (extended y) e =
        let s = ready.searched in
        let x =
          extend_line-IsExtended file content r.block_start (last_offset ends a) r.ownership_end
            pool y holds s.window lt s.fits s.found.rest e in
        let stop = length y.buffer in
        let moved = record y {
          continuation_start = block + 1;
          continuation_end =
              if leb y.geometry.file_size (r.block_start + stop - 1)
              then y.geometry.block_count
              else (r.block_start + stop - 1) / y.geometry.block_bytes;
          offsets = y.offsets ++ stop ∷ [];
        } in
        let result : order_lines block moved ≡ p = ground (arith, h, e) in
        subst (λ p. Succeeds content r.block_start r.ownership_end block pool p) result
          (order_lines-Succeeds content r.block_start r.ownership_end block pool moved a
            (ends ++ stop ∷ []) (ap (λ o. o ++ stop ∷ []) (x.same ∙ ready.offsets))
            (extended-IsIndexed content r.block_start r.ownership_end a ends pool pool y s x refl
              lt)
            (x.carried.1 ∙ ready.carried_block) (x.carried.0 ∙ ready.carried) x.geometry
            (λ _ b lo hi.
              subst
                (λ (g : Geometry).
                  block_lines content (b * g.block_bytes)
                    (min g.block_bytes (length content - b * g.block_bytes))
                  ≡ [])
                (sym x.geometry)
                (filled-block_lines content block r (last_offset ends a) b pool y holds range x lt
                  lo
                  (subst
                    (λ (g : Geometry). b < (
                      if leb g.file_size (r.block_start + stop - 1)
                      then g.block_count
                      else (r.block_start + stop - 1) / g.block_bytes))
                    x.geometry hi))))

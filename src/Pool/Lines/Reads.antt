-- ===== src/Pool/Lines/Reads.antt =====
-- proxypool.go: what loadBlockLocked reads from the file.
use mathlib.Core.Path.{subst}
use native.Mathlib.Nat as Nat
use proxykit_go.Base.{
  ℕ, zero, suc, ◌+◌, ◌-◌, ◌*◌, ◌≤◌, ◌<◌, min, [], ◌∷◌, ◌==◌, ◌≡◌, refl, ◌⊎◌, arith, if◌then◌else◌,
  length, get_or, take, drop, Bool-cases, inl, inr, length-take, length-drop,
}
use proxykit_go.Base.Bytes.{Bytes}
use proxykit_go.Pool.Sizes.{newline}
use proxykit_go.Pool.Open.{Geometry}
use proxykit_go.Pool.State.{Pool, File, ReadRange, block_read_range}
use proxykit_go.Pool.Lines.Framed.{unsealed, IsWindow}
use proxykit_go.Pool.Lines.Ended.{Holds}
use proxykit_go.Pool.Lines.Framed.{IsWindow-append, IsWindow-piece}

-- The byte before a block, if the pool has it.
abbrev pub IsCarried : Bytes → Pool → Type 0
IsCarried content pool =
    0 < pool.carried_block
    → pool.carried_block * pool.geometry.block_bytes < pool.geometry.file_size
    → pool.carried ≡ get_or (unsealed content) (pool.carried_block * pool.geometry.block_bytes) 0

-- A read is a window, with the byte before it if it does not bring that itself.
pub read-IsWindow :
    (file : File) (content : Bytes) (g : Geometry) (start skip bytes first : ℕ)
    → Holds file content g
    → start + bytes - 1 ≤ length content
    → 1 < bytes
    → ((skip ≡ 1) × (first ≡ get_or (unsealed content) start 0)) ⊎ ((skip ≡ 0) × (0 < start))
    → let got = (file.read_at (start + skip - 1) (bytes - skip)).0 in
      let buffer = if skip == 1 then first ∷ got else got in
      IsWindow (unsealed content) start buffer × (length buffer ≡ bytes)
read-IsWindow file content g start skip bytes first holds inside more (inl (one, same)) =
    let at : start + 1 - 1 ≡ start = omega arith in
    let got_lem : (file.read_at (start + 1 - 1) (bytes - 1)).0
        ≡ take (bytes - 1) (drop start content) =
      rw at (holds.reads start (bytes - 1) (omega (arith, inside, more))) in
    let next : start + 1 ≡ suc start = omega arith in
    let head : IsWindow (unsealed content) start (first ∷ []) = record {
      inside = omega (arith, inside, more);
      same = λ i h. only i h;
    } in
    rw (one, got_lem)
      (
        IsWindow-append (unsealed content) start (first ∷ [])
            (take (bytes - 1) (drop start content)) head
            (rw next (
              IsWindow-piece (unsealed content) (suc start) (bytes - 1)
                (omega (arith, inside, more)))),
        omega (
          arith,
          inside,
          more,
          length-take (bytes - 1) (drop start content),
          length-drop start content,
        ),
      )
  where
    only : (i : ℕ) → i < 1 → get_or (first ∷ []) i 0 ≡ get_or (unsealed content) (start + i) 0
    only zero h = let e : start + 0 ≡ start = omega arith in rw e same
    only (suc i) h = absurd (omega (arith, h))
read-IsWindow file content g start skip bytes first holds inside more (inr (zeroth, pos)) =
    let at : start + 0 - 1 ≡ start - 1 = omega arith in
    let all : bytes - 0 ≡ bytes = omega arith in
    let got_lem : (file.read_at (start + 0 - 1) (bytes - 0)).0
        ≡ take bytes (drop (start - 1) content) =
      rw (at, all) (holds.reads (start - 1) bytes (omega (arith, inside, pos))) in
    let next : suc (start - 1) ≡ start = omega (arith, pos) in
    rw (zeroth, got_lem)
      (
        subst (λ k. IsWindow (unsealed content) k (take bytes (drop (start - 1) content))) next
            (IsWindow-piece (unsealed content) (suc (start - 1)) bytes
              (omega (arith, inside, pos))),
        omega (
          arith,
          inside,
          pos,
          length-take bytes (drop (start - 1) content),
          length-drop (start - 1) content,
        ),
      )

-- The range of a block of the file.
pub block_read_range-bounds :
    (g : Geometry) (block carried : ℕ)
    → 0 < g.block_bytes
    → block * g.block_bytes < g.file_size
    → let r = block_read_range g block carried in
      (r.block_start ≡ block * g.block_bytes)
      × (r.ownership_end ≡ 1 + min g.block_bytes (g.file_size - block * g.block_bytes))
      × (r.ownership_end ≤ r.read_bytes)
      × (1 < r.ownership_end)
      × (r.block_start + r.read_bytes - 1 ≤ g.file_size)
      × (((r.skip ≡ 1) × ((block ≡ 0) ⊎ (block ≡ carried))) ⊎ ((r.skip ≡ 0) × (0 < block)))
unfolding block_read_range
block_read_range-bounds g block carried pos h = (
  refl,
  refl,
  omega arith,
  omega (arith, pos, h),
  omega (arith, h),
  elim (Bool-cases (block == 0)) [
    | inl first ↦ inl (ground (arith, first), inl (ground (arith, first)))
    | inr later ↦ elim (Bool-cases (block == carried)) [
      | inl next ↦ inl (ground (arith, next), inr (ground (arith, next)))
      | inr jump ↦ inr (ground (arith, later, jump), ground (arith, later))
    ]
  ],
)

-- The byte before the block, where the read does not bring it.
pub carried_byte :
    (content : Bytes) (block : ℕ) (pool : Pool) (r : ReadRange)
    → IsCarried content pool
    → 0 < pool.geometry.block_bytes
    → block * pool.geometry.block_bytes < pool.geometry.file_size
    → r.block_start ≡ block * pool.geometry.block_bytes
    → ((r.skip ≡ 1) × ((block ≡ 0) ⊎ (block ≡ pool.carried_block))) ⊎ ((r.skip ≡ 0) × (0 < block))
    → ((r.skip ≡ 1)
        × ((if block == 0 then newline else pool.carried)
            ≡ get_or (unsealed content) r.block_start 0))
      ⊎ ((r.skip ≡ 0) × (0 < r.block_start))
carried_byte content block pool r carried pos inside at (inr (whole, later)) =
    inr (whole, omega (arith, Nat.mul-pos later pos, at))
carried_byte content block pool r carried pos inside at (inl (one, inl first)) =
    let origin : 0 * pool.geometry.block_bytes ≡ 0 = omega arith in
    inl (one, rw (at, first, origin) refl)
carried_byte content block pool r carried pos inside at (inl (one, inr next)) =
    elim (Bool-cases (block == 0)) [
      | inl first ↦ inl (
        one,
        let z : block ≡ 0 = ground (arith, first) in
            let origin : 0 * pool.geometry.block_bytes ≡ 0 = omega arith in rw (at, z, origin) refl,
      )
      | inr later ↦ inl (
        one,
        rw (later, at, next)
            (carried (ground (arith, later, next))
              (subst (λ b. b * pool.geometry.block_bytes < pool.geometry.file_size) next inside)),
      )
    ]

-- ===== src/Pool/Indexing.antt =====
-- proxypool.go: indexBlockLocked gathers the line ends of a block, whatever kernel finds them.
use mathlib.Core.List.{append_assoc, append-nil}
use mathlib.Core.Path.{subst}
use proxykit_go.Base.{
  ℕ, zero, suc, ◌+◌, ◌-◌, ◌≤◌, ◌<◌, min, max, Bool, true, false, ◌||◌, ◌&&◌, Option, none, some,
  List, [], ◌∷◌, ◌++◌, ltb, leb, ◌==◌, ◌≡◌, refl, arith, if◌then◌else◌, length, get_or, take, drop,
  sym, ap, ◌∙◌, Bool-cases, inl, inr, ◌⊎◌, length-take, length-drop, length-append,
}
use proxykit_go.Base.Bytes.{Bytes}
use proxykit_go.Pool.Sizes.{newline, carriage_return}
use proxykit_go.Pool.Open.{Geometry}
use proxykit_go.Pool.Extend.{line_ends, has_crlf, piece}
use proxykit_go.Pool.Capacity.{offsets_limit, grown_offsets}
use proxykit_go.Pool.Limits.{get_or-take, get_or-drop}
pub mod Stretches
pub mod Total

-- What `lineindex.Ends` answers: the ends it has stored, the bytes it has examined and its hint.
pub record Ends : Type 0 where
  pub stored : List ℕ
  pub consumed : ℕ
  pub cr : Bool

-- `lineindex.Ends` by one of its kernels, for the room in the destination, a source and a base.
abbrev pub Kernel : Type 0
Kernel = ℕ → Bytes → ℕ → Ends

-- What a kernel is documented to do: it stores the line ends of the bytes that it examines, examines
-- some if the room is 64 elements or an element for each byte, and hints at a line feed that follows a
-- carriage return.
pub record IsKernel (kernel : Kernel) : Type 0 where
  pub consumed_le : (room : ℕ) (s : Bytes) (base : ℕ) → (kernel room s base).consumed ≤ length s
  pub stores :
      (room : ℕ) (s : Bytes) (base : ℕ)
      → (kernel room s base).stored ≡ line_ends base (take (kernel room s base).consumed s)
  pub fits : (room : ℕ) (s : Bytes) (base : ℕ) → length (kernel room s base).stored ≤ room
  pub progress :
      (room : ℕ) (s : Bytes) (base : ℕ)
      → (64 ≤ room) ⊎ (length s ≤ room)
      → 0 < length s
      → 0 < (kernel room s base).consumed
  pub hints :
      (room : ℕ) (s : Bytes) (base : ℕ)
      → has_crlf 0 (take (kernel room s base).consumed s) ≡ true
      → (kernel room s base).cr ≡ true

-- The offsets of a pool, with their capacity, and its flag.
pub record Indexed : Type 0 where
  pub offsets : List ℕ
  pub capacity : ℕ
  pub cr : Bool

-- The loop of `indexBlockLocked`, on fuel; `none` would mean that it runs out.
unfoldable pub index_block : ℕ → Kernel → Geometry → Bytes → ℕ → ℕ → Indexed → Option Indexed
index_block zero kernel g buffer position stop s = none
index_block (suc rounds) kernel g buffer position stop s =
    let capacity =
      if ltb (s.capacity - length s.offsets) 64 then grown_offsets g s.capacity else s.capacity in
    let found = kernel (capacity - length s.offsets) (piece buffer position stop) position in
    let rest = index_block rounds kernel g buffer (position + found.consumed) stop (record {
      offsets = s.offsets ++ found.stored;
      capacity = capacity;
      cr = s.cr || found.cr || get_or buffer (position - 1) 0 == carriage_return;
    }) in
    if ltb position stop then rest else some s

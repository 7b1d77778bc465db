-- ===== src/Pool/Extends.antt =====
-- proxypool.go: extendLineLocked ends, whatever the file holds.
use proxykit_go.Base.{
  ℕ, zero, suc, ◌+◌, ◌-◌, ◌≤◌, ◌<◌, Bool, true, false, ◌||◌, none, ◌++◌, leb, ◌==◌, ◌≡◌, ◌⊎◌, refl,
  arith, length, length-append, Bool-cases, Option-cases, inl, inr, drop, take, get_or,
}
use proxykit_go.Base.Bytes.{index_byte}
use proxykit_go.Pool.Sizes.{newline, carriage_return}
use proxykit_go.Pool.Open.{Geometry}
use proxykit_go.Pool.State.{Pool, File, ReadError, no_error, at_end, fault}
use proxykit_go.Pool.Extend.{
  Extended, extended, not_extended, out_of_rounds, accept_line, finish_line, extend_bytes,
  extend_error, extend_loop, extend_line, terminated,
}

-- The fields that the walk reads.
pub record Core : Type 0 where
  pub geometry : Geometry
  pub active : Bool
  pub region_block_base : ℕ
  pub region_blocks : ℕ
  pub region_block_next : ℕ
  pub region_rotation : ℕ
  pub region_cursor : ℕ
  pub cursor : ℕ
  pub cycle_start_cursor : ℕ
  pub next_region : ℕ
  pub region_advance : ℕ
  pub cycle_seed : ℕ

abbrev pub core : Pool → Core
core pool = record {
  geometry = pool.geometry;
  active = pool.active;
  region_block_base = pool.region_block_base;
  region_blocks = pool.region_blocks;
  region_block_next = pool.region_block_next;
  region_rotation = pool.region_rotation;
  region_cursor = pool.region_cursor;
  cursor = pool.cursor;
  cycle_start_cursor = pool.cycle_start_cursor;
  next_region = pool.next_region;
  region_advance = pool.region_advance;
  cycle_seed = pool.cycle_seed;
}

-- A read returns no more bytes than it was asked for.
abbrev pub ReadsAtMost : File → Type 0
ReadsAtMost file = (offset n : ℕ) → length (file.read_at offset n).0 ≤ n

-- An extension ends and keeps the core.
abbrev pub Extends : Pool → Extended → Type 0
Extends pool (extended p) = core p ≡ core pool
Extends pool (not_extended e p) = core p ≡ core pool
Extends pool out_of_rounds = true ≡ false

accept_line-Extends :
    (block_start line_start : ℕ) (pool accepted : Pool)
    → core accepted ≡ core pool
    → Extends pool (accept_line block_start line_start pool accepted)
unfolding accept_line
accept_line-Extends block_start line_start pool accepted h = ground (arith, h)

finish_line-Extends :
    (block_start line_start before : ℕ) (pool : Pool)
    → Extends pool (finish_line block_start line_start before pool)
unfolding finish_line
finish_line-Extends block_start line_start before pool =
    let cut = record pool { buffer = take (before + 1) pool.buffer } in
    accept_line-Extends block_start line_start cut
      (record cut { cr = cut.cr || get_or cut.buffer (before - 1) 0 == carriage_return }) refl

-- The limit on a line's end.
abbrev limit_of : Pool → ℕ → ℕ
limit_of pool line_start = line_start + pool.geometry.max_line_bytes + 2

extend_error-none :
    (file : File) (block_start line_start wanted read : ℕ) (error : ReadError) (pool : Pool)
    → extend_error file block_start line_start wanted read error pool ≡ none
    → (read ≡ wanted) ⊎ (block_start + length pool.buffer - 1 ≡ pool.geometry.file_size)
unfolding extend_error
extend_error-none file block_start line_start wanted read fault pool h = cc
extend_error-none file block_start line_start wanted read no_error pool h = ground (arith, h)
extend_error-none file block_start line_start wanted read at_end pool h = ground (arith, h)

extend_bytes-bounds :
    (g : Geometry) (len limit stop : ℕ)
    → (extend_bytes g len limit stop ≤ g.file_size - stop)
      × (len < limit → stop < g.file_size → 0 < extend_bytes g len limit stop)
unfolding extend_bytes
extend_bytes-bounds g len limit stop = (omega arith, λ h h'. omega arith)

extend_loop-Extends :
    (rounds : ℕ) (file : File) (block_start line_start : ℕ) (pool : Pool)
    → ReadsAtMost file
    → 0 < length pool.buffer
    → block_start + length pool.buffer - 1 ≤ pool.geometry.file_size
    → 0 < rounds
    → (block_start + length pool.buffer - 1 ≡ pool.geometry.file_size)
      ⊎ (limit_of pool line_start + 2 ≤ rounds + length pool.buffer)
    → Extends pool (extend_loop rounds file block_start line_start pool)
unfolding extend_loop
extend_loop-Extends zero file block_start line_start pool reads some_bytes inside pos enough =
    ground (arith, pos)
extend_loop-Extends (suc rounds) file block_start line_start pool reads some_bytes inside pos
      enough =
    let len = length pool.buffer in
    let stop = block_start + len - 1 in
    let wanted = extend_bytes pool.geometry len (limit_of pool line_start) stop in
    let got = (file.read_at stop wanted).0 in
    let error = (file.read_at stop wanted).1 in
    let grown = record pool { buffer = pool.buffer ++ got } in
    elim (Bool-cases (leb (limit_of pool line_start) len)) [
      | inl over ↦ rw over refl
      | inr within ↦ elim (Bool-cases (stop == pool.geometry.file_size)) [
        | inl end ↦
            rw (within, end)
              (accept_line-Extends block_start line_start pool (terminated pool) refl)
        | inr before ↦ elim (Option-cases (index_byte got newline)) [
          | inr (i, found) ↦
              rw (within, before, found)
                (finish_line-Extends block_start line_start (len + i) grown)
          | inl missing ↦
              elim (Option-cases
                (extend_error file block_start line_start wanted (length got) error grown)) [
                  | inr (e, failed) ↦ rw (within, before, missing, failed) refl
                  | inl fine ↦
                      rw (within, before, missing, fine)
                        (let longer = length-append pool.buffer got in
                          let few = reads stop wanted in
                          let (most, least) =
                            extend_bytes-bounds pool.geometry len (limit_of pool line_start) stop in
                          let more =
                            least (ground (arith, within)) (ground (arith, before, inside)) in
                          let whole =
                            extend_error-none file block_start line_start wanted (length got) error
                              grown fine in
                          extend_loop-Extends rounds file block_start line_start grown reads
                            (omega (arith, longer, some_bytes))
                            (omega (arith, longer, few, most, inside))
                            (ground (arith, enough, within, before))
                            (ground (arith, enough, within, before, longer, more, whole)))
                ]
        ]
      ]
    ]

pub extend_line-Extends :
    (file : File) (block_start line_start search_start : ℕ) (pool : Pool)
    → ReadsAtMost file
    → 0 < length pool.buffer
    → block_start + length pool.buffer - 1 ≤ pool.geometry.file_size
    → Extends pool (extend_line file block_start line_start search_start pool)
unfolding extend_line
extend_line-Extends file block_start line_start search_start pool reads some_bytes inside =
    elim (Option-cases (index_byte (drop search_start pool.buffer) newline)) [
      | inr (i, found) ↦
          rw (found, extend_line)
            (finish_line-Extends block_start line_start (search_start + i) pool)
      | inl missing ↦
          rw (missing, extend_line)
            (extend_loop-Extends (pool.geometry.max_line_bytes + line_start + 4) file block_start
              line_start pool reads some_bytes inside (omega arith) (inr (omega arith)))
    ]

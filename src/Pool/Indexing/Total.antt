-- ===== src/Pool/Indexing/Total.antt =====
-- proxypool.go: the loop of indexBlockLocked ends, and loses no line end between two calls.
use mathlib.Core.List.{append_assoc, append-nil}
use proxykit_go.Base.{
  ℕ, zero, suc, ◌+◌, ◌-◌, ◌≤◌, ◌<◌, true, false, ◌||◌, some, [], ◌∷◌, ◌++◌, ltb, leb, ◌==◌, ◌≡◌,
  refl, arith, if◌then◌else◌, length, get_or, take, drop, sym, ap, ◌∙◌, Bool-cases, inl, inr, ◌⊎◌,
  length-take, length-drop, length-append,
}
use proxykit_go.Base.Bytes.{Bytes}
use proxykit_go.Pool.Sizes.{carriage_return}
use proxykit_go.Pool.Open.{Geometry}
use proxykit_go.Pool.Extend.{line_ends, has_crlf, piece}
use proxykit_go.Pool.Capacity.{offsets_limit, grown_offsets}
use proxykit_go.Pool.Indexing.{Kernel, IsKernel, Indexed, index_block}
use proxykit_go.Pool.Indexing.Stretches.{
  line_ends-append, has_crlf-front, length-line_ends_le, piece-split, has_crlf-append, last-take,
}

-- The room for offsets before a call: 64, or all that a block can need.
grown_room :
    (g : Geometry) (old len : ℕ)
    → len ≤ old
    → old ≤ offsets_limit g
    → let capacity = if ltb (old - len) 64 then grown_offsets g old else old in
      (len ≤ capacity)
      × (capacity ≤ offsets_limit g)
      × ((leb 64 (capacity - len) || capacity == offsets_limit g) ≡ true)
unfolding grown_offsets
grown_room g old len le within =
    (ground (arith, le, within), ground (arith, le, within), ground (arith, le, within))

-- What the loop leaves: the line ends of the stretch behind the offsets that were there, within the
-- capacity, and a flag that misses no line feed behind a carriage return.
record IsIndexedBy (g : Geometry) (buffer : Bytes) (position stop : ℕ) (s t : Indexed)
    : Type 0 where
  offsets : t.offsets ≡ s.offsets ++ line_ends position (piece buffer position stop)
  within : (length t.offsets ≤ t.capacity) × (t.capacity ≤ offsets_limit g)
  flag :
      (s.cr || has_crlf (get_or buffer (position - 1) 0) (piece buffer position stop)) ≡ true
      → t.cr ≡ true

-- The offsets and the flag behind a call of the kernel.
abbrev after_call : Kernel → Bytes → ℕ → ℕ → ℕ → Indexed → Indexed
after_call kernel buffer position stop capacity s =
    let found = kernel (capacity - length s.offsets) (piece buffer position stop) position in
    record {
      offsets = s.offsets ++ found.stored;
      capacity = capacity;
      cr = s.cr || found.cr || get_or buffer (position - 1) 0 == carriage_return;
    }

-- A call and the loop behind it.
call-IsIndexedBy :
    (kernel : Kernel) (g : Geometry) (buffer : Bytes) (position stop capacity : ℕ) (s t : Indexed)
    → IsKernel kernel
    → 0 < position
    → position < stop
    → stop ≤ length buffer
    → let n =
        (kernel (capacity - length s.offsets) (piece buffer position stop) position).consumed in
      0 < n
      → IsIndexedBy g buffer
          (position + n)
          stop
          (after_call kernel buffer position stop capacity s)
          t
      → IsIndexedBy g buffer position stop s t
call-IsIndexedBy kernel g buffer position stop capacity s t keeps pos more fits some_bytes rest =
    let room = capacity - length s.offsets in
    let source = piece buffer position stop in
    let found = kernel room source position in
    let n = found.consumed in
    let le = keeps.consumed_le room source position in
    let len : length source ≡ stop - position = omega (
      arith,
      length-take (stop - position) (drop position buffer),
      length-drop position buffer,
      fits,
    ) in
    let examined : length (take n source) ≡ n = omega (arith, length-take n source, le) in
    let others = line_ends (position + n) (piece buffer (position + n) stop) in
    let ends : line_ends position source ≡ line_ends position (take n source) ++ others =
      ap (line_ends position) (piece-split buffer position stop n)
      ∙ line_ends-append position (take n source) (piece buffer (position + n) stop)
      ∙ ap
          (λ k.
            line_ends position (take n source)
            ++ line_ends (position + k) (piece buffer (position + n) stop))
          examined in
    let previous = get_or buffer (position - 1) 0 in
    let last = get_or buffer (position + n - 1) 0 in
    let flags : has_crlf previous source
        ≡ (has_crlf previous (take n source) || has_crlf last (piece buffer (position + n) stop)) =
      ap (has_crlf previous) (piece-split buffer position stop n)
      ∙ has_crlf-append previous last (take n source) (piece buffer (position + n) stop)
          (last-take buffer position stop n pos some_bytes (omega (arith, le, len)) le) in
    record {
      offsets =
          rest.offsets
          ∙ append_assoc s.offsets found.stored others
          ∙ ap (λ l. s.offsets ++ (l ++ others)) (keeps.stores room source position)
          ∙ ap (λ l. s.offsets ++ l) (sym ends);
      within = rest.within;
      flag = λ set. rest.flag (
          ground (
            arith,
            set,
            flags,
            has_crlf-front previous (take n source),
            keeps.hints room source position,
          ));
    }

room_cases :
    (capacity limit len n : ℕ)
    → (leb 64 (capacity - len) || capacity == limit) ≡ true
    → len + n ≤ limit
    → (64 ≤ capacity - len) ⊎ (n ≤ capacity - len)
room_cases capacity limit len n h enough = elim (Bool-cases (leb 64 (capacity - len))) [
  | inl wide ↦ inl (ground (arith, wide))
  | inr narrow ↦ inr (ground (arith, narrow, h, enough))
]

index_block-total :
    (rounds : ℕ) (kernel : Kernel) (g : Geometry) (buffer : Bytes) (position stop : ℕ) (s : Indexed)
    → IsKernel kernel
    → 0 < position
    → stop ≤ length buffer
    → length s.offsets ≤ s.capacity
    → s.capacity ≤ offsets_limit g
    → length s.offsets + (stop - position) ≤ offsets_limit g
    → stop - position < rounds
    → (t : Indexed) × (index_block rounds kernel g buffer position stop s ≡ some t)
      × IsIndexedBy g buffer position stop s t
unfolding index_block line_ends has_crlf
index_block-total zero kernel g buffer position stop s keeps pos fits held within enough fuel =
    absurd (omega (arith, fuel))
index_block-total (suc rounds) kernel g buffer position stop s keeps pos fits held within enough
      fuel =
    elim (Bool-cases (ltb position stop)) [
      | inr done ↦
          let none_left : stop - position ≡ 0 = ground (arith, done) in
          let nothing : piece buffer position stop ≡ [] =
            ap (λ k. take k (drop position buffer)) none_left in
          (
            s,
            rw done refl,
            record {
              offsets =
                  sym (append-nil s.offsets)
                  ∙ ap (λ l. s.offsets ++ line_ends position l) (sym nothing);
              within = (held, within);
              flag = λ set.
                  ground (arith, set, ap (has_crlf (get_or buffer (position - 1) 0)) nothing);
            },
          )
      | inl more ↦
          let (le, bound, enough_room) = grown_room g s.capacity (length s.offsets) held within in
          let capacity =
            if ltb (s.capacity - length s.offsets) 64
            then grown_offsets g s.capacity
            else s.capacity in
          let room = capacity - length s.offsets in
          let source = piece buffer position stop in
          let found = kernel room source position in
          let below : position < stop = ground (arith, more) in
          let len : length source ≡ stop - position = omega (
            arith,
            length-take (stop - position) (drop position buffer),
            length-drop position buffer,
            fits,
          ) in
          let some_bytes : 0 < found.consumed =
            keeps.progress room source position
              (room_cases capacity (offsets_limit g) (length s.offsets) (length source) enough_room
                (omega (arith, len, enough)))
              (omega (arith, len, below)) in
          let examined = keeps.consumed_le room source position in
          let stored : length found.stored ≤ found.consumed = omega (
            arith,
            ap length (keeps.stores room source position),
            length-line_ends_le position (take found.consumed source),
            length-take found.consumed source,
          ) in
          let counted = length-append s.offsets found.stored in
          let (t, e, rest) =
            index_block-total rounds kernel g buffer (position + found.consumed) stop
              (after_call kernel buffer position stop capacity s) keeps (omega (arith, pos)) fits
              (omega (arith, counted, keeps.fits room source position, le)) bound
              (omega (arith, counted, stored, enough, examined, len))
              (omega (arith, some_bytes, fuel, below)) in
          (
            t,
            rw more e,
            call-IsIndexedBy kernel g buffer position stop capacity s t keeps pos below fits
                some_bytes rest,
          )
    ]

-- For a kernel that keeps the documented contract of lineindex.Ends and a stretch of the buffer, from
-- the start of a line on, that is no longer than a block: the loop of indexBlockLocked ends within one
-- round more than the stretch has bytes, and leaves behind the start of the line the line ends of the
-- stretch, one for each line feed and none lost between two calls; the offsets stay within what a block
-- can have, and the flag is set if a line feed follows a carriage return.
pub index_block-line_ends :
    (kernel : Kernel) (g : Geometry) (buffer : Bytes) (start stop capacity : ℕ)
    → IsKernel kernel
    → 0 < start
    → stop ≤ length buffer
    → stop ≤ offsets_limit g
    → 0 < capacity
    → capacity ≤ offsets_limit g
    → (t : Indexed) × (index_block
          (suc (stop - start))
          kernel
          g
          buffer
          start
          stop
          (record { offsets = start ∷ []; capacity = capacity; cr = false })
        ≡ some t)
      × (t.offsets ≡ start ∷ line_ends start (piece buffer start stop))
      × (length t.offsets ≤ t.capacity)
      × (t.capacity ≤ offsets_limit g)
      × (has_crlf (get_or buffer (start - 1) 0) (piece buffer start stop) ≡ true → t.cr ≡ true)
unfolding offsets_limit
index_block-line_ends kernel g buffer start stop capacity keeps pos fits short some_room within =
    let (t, e, indexed) =
      index_block-total (suc (stop - start)) kernel g buffer start stop
        (record { offsets = start ∷ []; capacity = capacity; cr = false }) keeps pos fits
        (omega (arith, some_room)) within (omega (arith, pos, short)) (omega arith) in
    (t, e, indexed.offsets, indexed.within.0, indexed.within.1, indexed.flag)

-- ===== src/Pool/Limits.antt =====
-- proxypool.go: exceedsLineLimit tells the lines whose text, without the line ending, is longer
-- than the limit; the shortcut of checkLineLimitLocked finds the same lines.
use proxykit_go.Base.{
  ℕ, zero, suc, ◌+◌, ◌-◌, ◌≤◌, ◌<◌, Bool, true, false, ◌&&◌, none, List, [], ◌∷◌, ltb, leb, ◌==◌,
  ◌≡◌, refl, arith, if◌then◌else◌, length, get_or, take, drop, Bool-cases, inl, inr, sym, ap, ◌∙◌,
  length-take, length-drop,
}
use proxykit_go.Base.Bytes.{Bytes}
use proxykit_go.Pool.Sizes.{newline, carriage_return, exceeds_line_limit}
use proxykit_go.Pool.Extend.{piece, max_gap, first_too_long, check_line_limit}

-- The text of a line without one LF at its end, and without the CR before that.
abbrev pub stripped_length : Bytes → ℕ
stripped_length line =
    let len = length line in
    if ltb 0 len && get_or line (len - 1) 0 == newline
    then (if ltb 1 len && get_or line (len - 2) 0 == carriage_return then len - 2 else len - 1)
    else len

-- For a positive limit, the test answers true exactly for the lines whose length, less one LF at the
-- end and the CR before it, is above the limit.
pub exceeds_line_limit_lem :
    (line : Bytes) (limit : ℕ)
    → 0 < limit
    → exceeds_line_limit line limit ≡ ltb limit (stripped_length line)
unfolding exceeds_line_limit
exceeds_line_limit_lem line limit h = ground arith

-- A line that is at most one byte over the limit, with its line feed, does not exceed it.
short_line :
    (line : Bytes) (limit : ℕ)
    → length line ≤ limit + 1
    → get_or line (length line - 1) 0 ≡ newline
    → exceeds_line_limit line limit ≡ false
unfolding exceeds_line_limit
short_line line limit h e = ground arith

-- Offsets that stand for lines: each but the first is behind a line feed of the buffer.
abbrev pub are_lines : Bytes → List ℕ → Bool
are_lines buffer [] = true
are_lines buffer (a ∷ []) = true
are_lines buffer (a ∷ b ∷ offsets) =
    ltb a b
    && leb b (length buffer)
    && get_or buffer (b - 1) 0 == newline
    && are_lines buffer (b ∷ offsets)

pub get_or-drop : (n i : ℕ) (xs : Bytes) → get_or (drop n xs) i 0 ≡ get_or xs (n + i) 0
get_or-drop zero i xs = let e : i ≡ 0 + i = omega arith in ap (λ k. get_or xs k 0) e
get_or-drop (suc n) i [] = refl
get_or-drop (suc n) i (x ∷ xs) =
    let e : suc (n + i) ≡ suc n + i = omega arith in
    get_or-drop n i xs ∙ ap (λ k. get_or (x ∷ xs) k 0) e

pub get_or-take : (n i : ℕ) (xs : Bytes) → i < n → get_or (take n xs) i 0 ≡ get_or xs i 0
get_or-take zero i xs h = omega arith
get_or-take (suc n) i [] h = refl
get_or-take (suc n) zero (x ∷ xs) h = refl
get_or-take (suc n) (suc i) (x ∷ xs) h = get_or-take n i xs (omega arith)

pub length-piece :
    (buffer : Bytes) (a b : ℕ) → a < b → b ≤ length buffer → length (piece buffer a b) ≡ b - a
length-piece buffer a b h l =
    omega (arith, length-take (b - a) (drop a buffer), length-drop a buffer)

pub last-piece :
    (buffer : Bytes) (a b : ℕ)
    → a < b
    → b ≤ length buffer
    → get_or (piece buffer a b) (length (piece buffer a b) - 1) 0 ≡ get_or buffer (b - 1) 0
last-piece buffer a b h l =
    let at_end : a + (b - a - 1) ≡ b - 1 = omega arith in
    rw (length-piece buffer a b h l) (
      rw
        (
          get_or-take (b - a) (b - a - 1) (drop a buffer) (omega arith),
          get_or-drop a (b - a - 1) buffer,
          at_end,
        )
        refl)

-- The shortcut of checkLineLimitLocked over the gaps of the offsets passes over no line that is
-- too long: the check finds the line that the search alone finds.
pub check_line_limit_lem :
    (buffer : Bytes) (limit : ℕ) (offsets : List ℕ)
    → are_lines buffer offsets ≡ true
    → check_line_limit buffer limit offsets ≡ first_too_long buffer limit offsets
unfolding check_line_limit max_gap first_too_long
check_line_limit_lem buffer limit offsets h =
    elim (Bool-cases (leb (max_gap offsets) (limit + 1))) [
      | inl le ↦ rw le (sym (none_too_long offsets h (ground arith)))
      | inr gt ↦ rw gt refl
    ]
  where
    none_too_long :
        (offsets : List ℕ)
        → are_lines buffer offsets ≡ true
        → max_gap offsets ≤ limit + 1
        → first_too_long buffer limit offsets ≡ none
    none_too_long [] h m = refl
    none_too_long (a ∷ []) h m = refl
    none_too_long (a ∷ b ∷ offsets) h m =
        let below : a < b = ground arith in
        let inside : b ≤ length buffer = ground arith in
        let closed : get_or buffer (b - 1) 0 ≡ newline = ground arith in
        let short =
          short_line (piece buffer a b) limit
            (omega (arith, m, length-piece buffer a b below inside))
            (last-piece buffer a b below inside ∙ closed) in
        let rest = none_too_long (b ∷ offsets) (ground arith) (omega (arith, m)) in
        rw (short, rest) refl

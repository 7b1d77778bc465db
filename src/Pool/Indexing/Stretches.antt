-- ===== src/Pool/Indexing/Stretches.antt =====
-- proxypool.go: the line ends and the flag of a stretch of the buffer that is examined in two parts.
use proxykit_go.Base.{
  ℕ, zero, suc, ◌+◌, ◌-◌, ◌≤◌, ◌<◌, true, ◌||◌, [], ◌∷◌, ◌++◌, ◌==◌, ◌≡◌, refl, arith, length,
  get_or, take, drop, sym, ap, ◌∙◌, Bool-cases, inl, inr, length-take,
}
use proxykit_go.Base.Bytes.{Bytes}
use proxykit_go.Pool.Sizes.{newline, carriage_return}
use proxykit_go.Pool.Extend.{line_ends, has_crlf, piece}
use proxykit_go.Pool.Limits.{get_or-take, get_or-drop}

pub line_ends-append :
    (position : ℕ) (xs ys : Bytes)
    → line_ends position (xs ++ ys) ≡ line_ends position xs ++ line_ends (position + length xs) ys
unfolding line_ends
line_ends-append position [] ys = let e : position + 0 ≡ position = omega arith in rw e refl
line_ends-append position (x ∷ xs) ys =
    let e : position + suc (length xs) ≡ position + 1 + length xs = omega arith in
    let rest = line_ends-append (position + 1) xs ys in
    elim (Bool-cases (x == newline)) [
      | inl feed ↦ rw (feed, e) (ap (λ l. (position + 1) ∷ l) rest)
      | inr other ↦ rw (other, e) rest
    ]

-- A line feed behind a carriage return stands at the front or in the text.
pub has_crlf-front :
    (previous : ℕ) (s : Bytes)
    → has_crlf previous s ≡ true
    → (previous == carriage_return || has_crlf 0 s) ≡ true
unfolding has_crlf
has_crlf-front previous [] h = cc
has_crlf-front previous (c ∷ s) h = ground (arith, h)

pub length-line_ends_le : (position : ℕ) (s : Bytes) → length (line_ends position s) ≤ length s
unfolding line_ends
length-line_ends_le position [] = omega arith
length-line_ends_le position (c ∷ s) = ground (arith, length-line_ends_le (position + 1) s)

take-append-drop : (n : ℕ) (s : Bytes) → take n s ++ drop n s ≡ s
take-append-drop zero s = refl
take-append-drop (suc n) [] = refl
take-append-drop (suc n) (c ∷ s) = ap (λ l. c ∷ l) (take-append-drop n s)

abbrev no_bytes : Bytes
no_bytes = []

drop-nil : (n : ℕ) → drop n no_bytes ≡ no_bytes
drop-nil zero = refl
drop-nil (suc n) = refl

take-nil : (n : ℕ) → take n no_bytes ≡ no_bytes
take-nil zero = refl
take-nil (suc n) = refl

drop-drop : (m n : ℕ) (s : Bytes) → drop m (drop n s) ≡ drop (n + m) s
drop-drop m zero s = let e : 0 + m ≡ m = omega arith in rw e refl
drop-drop m (suc n) [] = drop-nil m ∙ sym (drop-nil (suc n + m))
drop-drop m (suc n) (c ∷ s) =
    let e : suc n + m ≡ suc (n + m) = omega arith in rw e (drop-drop m n s)

drop-take : (m n : ℕ) (s : Bytes) → drop m (take n s) ≡ take (n - m) (drop m s)
drop-take zero n s = let e : n - 0 ≡ n = omega arith in rw e refl
drop-take (suc m) zero s = let e : 0 - suc m ≡ 0 = omega arith in rw e refl
drop-take (suc m) (suc n) [] = sym (take-nil (suc n - suc m))
drop-take (suc m) (suc n) (c ∷ s) =
    let e : suc n - suc m ≡ n - m = omega arith in rw e (drop-take m n s)

-- A stretch is what a call examines, and what is left behind it.
pub piece-split :
    (buffer : Bytes) (position stop n : ℕ)
    → piece buffer position stop
      ≡ take n (piece buffer position stop) ++ piece buffer (position + n) stop
piece-split buffer position stop n =
    let left : stop - position - n ≡ stop - (position + n) = omega arith in
    let behind =
      drop-take n (stop - position) (drop position buffer)
      ∙ ap (take (stop - position - n)) (drop-drop n position buffer)
      ∙ ap (λ k. take k (drop (position + n) buffer)) left in
    sym (take-append-drop n (piece buffer position stop))
    ∙ ap (λ l. take n (piece buffer position stop) ++ l) behind

-- The flag over two stretches, where the first ends with the byte `last`.
pub has_crlf-append :
    (previous last : ℕ) (xs ys : Bytes)
    → get_or (previous ∷ xs) (length xs) 0 ≡ last
    → has_crlf previous (xs ++ ys) ≡ (has_crlf previous xs || has_crlf last ys)
unfolding has_crlf
has_crlf-append previous last [] ys same = rw same refl
has_crlf-append previous last (x ∷ xs) ys same = ground (arith, has_crlf-append x last xs ys same)

-- The byte before the next stretch.
pub last-take :
    (buffer : Bytes) (position stop n : ℕ)
    → 0 < position
    → 0 < n
    → n ≤ stop - position
    → n ≤ length (piece buffer position stop)
    → get_or
        (get_or buffer (position - 1) 0 ∷ take n (piece buffer position stop))
        (length (take n (piece buffer position stop)))
        0
      ≡ get_or buffer (position + n - 1) 0
last-take buffer position stop zero pos some_bytes within fits = omega (arith, some_bytes)
last-take buffer position stop (suc n) pos some_bytes within fits =
    let len : length (take (suc n) (piece buffer position stop)) ≡ suc n =
      omega (arith, fits, length-take (suc n) (piece buffer position stop)) in
    let at : position + n ≡ position + suc n - 1 = omega arith in
    rw len (
      get_or-take (suc n) n (piece buffer position stop) (omega arith)
      ∙ get_or-take (stop - position) n (drop position buffer) (omega (arith, within))
      ∙ get_or-drop position n buffer
      ∙ ap (λ k. get_or buffer k 0) at)

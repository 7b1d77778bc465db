-- ===== src/Pool/Lines/Reference.antt =====
-- proxypool.go: the lines of a file, which its blocks share out.
use mathlib.Core.List
use proxykit_go.Base.{
  ℕ, zero, suc, ◌+◌, ◌-◌, ◌*◌, ◌≤◌, ◌<◌, min, Bool, true, false, ◌||◌, List, [], ◌∷◌, ◌++◌, leb,
  ◌==◌, ◌≡◌, ◌≢◌, refl, arith, if◌then◌else◌, length, get_or, take, drop, sym, ap, ◌∙◌, Bool-cases,
  inl, inr, length-append,
}
use proxykit_go.Base.Bytes.{Bytes}
use proxykit_go.Pool.Sizes.{newline}
use proxykit_go.Pool.Limits.{get_or-drop}
use proxykit_go.Pool.Lines.Framed.{get_or-append_left, get_or-append_right}
use proxykit_go.Pool.Lines.Ended.{IsPlain-joined}
use proxykit_go.Pool.Lines.Found.{IsPlain}
use proxykit_go.Pool.Lines.Texts.{unreturned, line_text, line_text-at, line_text-plain}

-- The lines of a file, one after the other: each ends with a line feed, with the carriage return
-- before it, and a last one need not. `seen` are the bytes of the line so far.
abbrev pub split_lines : Bytes → Bytes → List Bytes
split_lines seen [] = if length seen == 0 then [] else seen ∷ []
split_lines seen (c ∷ cs) =
    if c == newline then unreturned seen ∷ split_lines [] cs else split_lines (seen ++ c ∷ []) cs

-- A line starts at the first byte of a file, and behind each line feed.
abbrev pub starts_line : Bytes → ℕ → Bool
starts_line content x = x == 0 || get_or content (x - 1) 0 == newline

-- The lines that start in the `n` bytes from position `x` on.
abbrev pub block_lines : Bytes → ℕ → ℕ → List Bytes
block_lines content x zero = []
block_lines content x (suc n) =
    let rest = block_lines content (x + 1) n in
    if starts_line content x then line_text (drop x content) ∷ rest else rest

pub block_lines-append :
    (content : Bytes) (x m n : ℕ)
    → block_lines content x (m + n) ≡ block_lines content x m ++ block_lines content (x + m) n
block_lines-append content x zero n =
    let e : x + 0 ≡ x = omega arith in let e' : 0 + n ≡ n = omega arith in rw (e, e') refl
block_lines-append content x (suc m) n =
    let e : suc m + n ≡ suc (m + n) = omega arith in
    let e' : x + 1 + m ≡ x + suc m = omega arith in
    let rest = block_lines-append content (x + 1) m n in
    elim (Bool-cases (starts_line content x)) [
      | inl starts ↦ rw (e, starts, rest, e') refl
      | inr inner ↦ rw (e, inner, rest, e') refl
    ]

-- No line starts in a stretch.
pub block_lines-none :
    (content : Bytes) (x n : ℕ)
    → ((q : ℕ) → x ≤ q → q < x + n → starts_line content q ≡ false)
    → block_lines content x n ≡ []
block_lines-none content x zero h = refl
block_lines-none content x (suc n) h =
    rw (h x (omega arith) (omega arith))
      (block_lines-none content (x + 1) n (λ q lo hi. h q (omega (arith, lo)) (omega (arith, hi))))

-- The lines of the blocks from a block on, `n` blocks of `size` bytes, of which the last may be shorter.
abbrev pub blocks_lines : Bytes → ℕ → ℕ → ℕ → List Bytes
blocks_lines content size block zero = []
blocks_lines content size block (suc n) =
    block_lines content (block * size) (min size (length content - block * size))
    ++ blocks_lines content size (block + 1) n

blocks_lines-block_lines :
    (content : Bytes) (size block n : ℕ)
    → blocks_lines content size block n
      ≡ block_lines content (block * size) (min (n * size) (length content - block * size))
blocks_lines-block_lines content size block zero =
    let z : min (0 * size) (length content - block * size) ≡ 0 = omega arith in rw z refl
blocks_lines-block_lines content size block (suc n) =
    let x = block * size in
    let left = length content - x in
    let rest = blocks_lines-block_lines content size (block + 1) n in
    let next : (block + 1) * size ≡ x + size = omega arith in
    let more : suc n * size ≡ size + n * size = omega arith in
    let whole =
      block_lines-append content x (min size left) (min (n * size) (length content - (x + size))) in
    let total : min size left + min (n * size) (length content - (x + size))
        ≡ min (size + n * size) left =
      omega arith in
    rw (rest, next, more, ← total, whole)
      (elim (Bool-cases (leb size left)) [
        | inl full ↦ let m : min size left ≡ size = ground (arith, full) in rw m refl
        | inr short ↦
            let z : min (n * size) (length content - (x + size)) ≡ 0 = ground (arith, short) in
            rw z refl
      ])

-- The bytes of a stretch that a text begins with.
byte_of :
    (content seen cs : Bytes) (x i : ℕ)
    → drop x content ≡ seen ++ cs
    → i < length seen
    → get_or content (x + i) 0 ≡ get_or seen i 0
byte_of content seen cs x i h lt =
    sym (get_or-drop x i content) ∙ ap (λ t. get_or t i 0) h ∙ get_or-append_left seen cs i lt

-- No line starts behind the first byte of a stretch without line feeds.
block_lines-seen :
    (content seen cs : Bytes) (x n : ℕ)
    → drop x content ≡ seen ++ cs
    → IsPlain seen 0 (length seen)
    → n ≤ length seen
    → block_lines content (x + 1) n ≡ []
block_lines-seen content seen cs x n h plain le =
    block_lines-none content (x + 1) n (λ q lo hi. inner q lo hi)
  where
    inner : (q : ℕ) → x + 1 ≤ q → q < x + 1 + n → starts_line content q ≡ false
    inner q lo hi =
        let i = q - 1 - x in
        let at : x + i ≡ q - 1 = omega (arith, lo) in
        let quiet : get_or content (q - 1) 0 ≢ newline = λ e.
          plain i (omega arith) (omega (arith, lo, hi, le)) (
            sym (byte_of content seen cs x i h (omega (arith, lo, hi, le)))
            ∙ ap (λ k. get_or content k 0) at
            ∙ e) in
        ground (arith, quiet, lo)

drop-nil : (n : ℕ) → drop {A = ℕ} n [] ≡ []
drop-nil zero = refl
drop-nil (suc n) = refl

drop-drop : (m n : ℕ) (s : Bytes) → drop n (drop m s) ≡ drop (m + n) s
drop-drop zero n s = let e : 0 + n ≡ n = omega arith in rw e refl
drop-drop (suc m) n [] = let e : suc m + n ≡ suc (m + n) = omega arith in rw e (drop-nil n)
drop-drop (suc m) n (c ∷ cs) =
    let e : suc m + n ≡ suc (m + n) = omega arith in rw e (drop-drop m n cs)

drop-length_append : (s : Bytes) (b : ℕ) (t : Bytes) → drop (suc (length s)) (s ++ b ∷ t) ≡ t
drop-length_append [] b t = refl
drop-length_append (c ∷ cs) b t = drop-length_append cs b t

take-length_append : (s t : Bytes) → take (length s) (s ++ t) ≡ s
take-length_append [] t = refl
take-length_append (c ∷ cs) t = ap (◌∷◌ c) (take-length_append cs t)

-- The lines from the start of a line on, of which some bytes have been seen.
split_lines-seen :
    (content seen cs : Bytes) (x : ℕ)
    → drop x content ≡ seen ++ cs
    → starts_line content x ≡ true
    → IsPlain seen 0 (length seen)
    → split_lines seen cs ≡ block_lines content x (length seen + length cs)
split_lines-seen content [] [] x h starts plain = refl
split_lines-seen content (b ∷ seen) [] x h starts plain =
    let len : suc (length seen) + 0 ≡ suc (length seen) = omega arith in
    let all : drop x content ≡ b ∷ seen = h ∙ List.append-nil (b ∷ seen) in
    let first = line_text-plain (b ∷ seen) plain in
    let rest = block_lines-seen content (b ∷ seen) [] x (length seen) h plain (omega arith) in
    let some_bytes : (suc (length seen) == 0) ≡ false = ground arith in
    rw (len, some_bytes, starts, rest) (ap (λ l. l ∷ []) (sym (ap line_text all ∙ first)))
split_lines-seen content seen (c ∷ cs) x h starts plain = elim (Bool-cases (c == newline)) [
  | inl feed ↦
      let is_feed : c ≡ newline = ground (arith, feed) in
      let here : get_or (seen ++ c ∷ cs) (length seen) 0 ≡ newline =
        (let z : length seen + 0 ≡ length seen = omega arith in
          ap (λ k. get_or (seen ++ c ∷ cs) k 0) (sym z)
          ∙ get_or-append_right seen (c ∷ cs) 0
          ∙ is_feed) in
      let text : line_text (drop x content) ≡ unreturned seen =
        ap line_text h
        ∙ line_text-at (seen ++ c ∷ cs) (length seen) (omega (arith, length-append seen (c ∷ cs)))
            here (λ q lo hi e. plain q lo hi (sym (get_or-append_left seen (c ∷ cs) q hi) ∙ e))
        ∙ ap unreturned (take-length_append seen (c ∷ cs)) in
      let next : drop (x + 1 + length seen) content ≡ cs =
        (let e : x + suc (length seen) ≡ x + 1 + length seen = omega arith in
          ap (λ k. drop k content) (sym e)
          ∙ sym (drop-drop x (suc (length seen)) content)
          ∙ ap (drop (suc (length seen))) h
          ∙ drop-length_append seen c cs) in
      let at_feed : get_or content (x + 1 + length seen - 1) 0 ≡ newline =
        (let e : x + length seen ≡ x + 1 + length seen - 1 = omega arith in
          ap (λ k. get_or content k 0) (sym e)
          ∙ sym (get_or-drop x (length seen) content)
          ∙ ap (λ t. get_or t (length seen) 0) h
          ∙ here) in
      let starts' : starts_line content (x + 1 + length seen) ≡ true = ground (arith, at_feed) in
      let rest =
        split_lines-seen content [] cs (x + 1 + length seen) next starts'
          (λ q lo hi. absurd (omega (arith, hi))) in
      let total : length seen + suc (length cs) ≡ suc (length seen + length cs) = omega arith in
      let none_left : 0 + length cs ≡ length cs = omega arith in
      let apart = block_lines-append content (x + 1) (length seen) (length cs) in
      let inner = block_lines-seen content seen (c ∷ cs) x (length seen) h plain (omega arith) in
      rw (feed, total, starts, text, apart, inner)
        (ap (◌∷◌ (unreturned seen))
          (rest ∙ ap (block_lines content (x + 1 + length seen)) none_left))
  | inr other ↦
      let grown : drop x content ≡ (seen ++ c ∷ []) ++ cs =
        h ∙ sym (List.append_assoc seen (c ∷ []) cs) in
      let len : length (seen ++ c ∷ []) + length cs ≡ length seen + suc (length cs) =
        omega (arith, length-append seen (c ∷ [])) in
      let len' : length (seen ++ c ∷ []) ≡ length seen + 1 = length-append seen (c ∷ []) in
      let quiet : IsPlain (seen ++ c ∷ []) 0 (length (seen ++ c ∷ [])) =
        rw len'
          (IsPlain-joined seen (c ∷ []) 0 1 plain (λ q lo hi. only q hi (ground (arith, other)))) in
      let rest = split_lines-seen content (seen ++ c ∷ []) cs x grown starts quiet in
      rw (other, ← len) rest
]
  where
    only : (q : ℕ) → q < 1 → c ≢ newline → get_or (c ∷ []) q 0 ≢ newline
    only zero h n = n
    only (suc q) h n = absurd (omega (arith, h))

-- The lines of a file are those of its blocks, in their order.
pub blocks_lines-split_lines :
    (content : Bytes) (size n : ℕ)
    → length content ≤ n * size
    → blocks_lines content size 0 n ≡ split_lines [] content
blocks_lines-split_lines content size n le =
    let z : 0 * size ≡ 0 = omega arith in
    let all : min (n * size) (length content - 0) ≡ 0 + length content = omega (arith, le) in
    blocks_lines-block_lines content size 0 n
    ∙ rw (z, all)
        (sym
          (split_lines-seen content [] content 0 refl refl (λ q lo hi. absurd (omega (arith, hi)))))

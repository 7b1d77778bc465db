-- ===== src/Pool/Lines/Texts.antt =====
-- proxypool.go: the text of a line, as the file has it and as a pool takes it from its buffer.
use mathlib.Core.List
use mathlib.Core.Path.{ap₂, subst}
use proxykit_go.Base.{
  ℕ, zero, suc, ◌+◌, ◌-◌, ◌≤◌, ◌<◌, true, false, not, ◌||◌, ◌&&◌, [], ◌∷◌, ◌++◌, ltb, ◌==◌, ◌≡◌,
  ◌≢◌, refl, arith, if◌then◌else◌, length, get_or, take, drop, sym, ap, ◌∙◌, Bool-cases, inl, inr,
  length-take, length-drop, length-append,
}
use proxykit_go.Base.Bytes.{Bytes}
use proxykit_go.Pool.Sizes.{newline, carriage_return}
use proxykit_go.Pool.Extend.{piece}
use proxykit_go.Pool.Limits.{get_or-drop, get_or-take}
use proxykit_go.Pool.Lines.Framed.{
  sealed, framed, IsWindow, IsSpan, ending, terminate_lem, get_or-append_left, get_or-append_right,
}
use proxykit_go.Pool.Lines.Found.{IsPlain}

-- The bytes before the first line feed.
abbrev pub until_feed : Bytes → Bytes
until_feed [] = []
until_feed (c ∷ cs) = if c == newline then [] else c ∷ until_feed cs

-- A text without the carriage return at its end.
abbrev pub unreturned : Bytes → Bytes
unreturned s =
    if not (length s == 0) && get_or s (length s - 1) 0 == carriage_return
    then take (length s - 1) s
    else s

-- The line with which a text begins: its bytes before the line feed, and before the carriage return
-- in front of that; the last line of a file keeps its carriage return if it has no line feed.
abbrev pub line_text : Bytes → Bytes
line_text s = if length (until_feed s) == length s then s else unreturned (until_feed s)

pub until_feed-plain : (s : Bytes) → IsPlain s 0 (length s) → until_feed s ≡ s
until_feed-plain [] h = refl
until_feed-plain (c ∷ cs) h =
    let other : (c == newline) ≡ false = ground (arith, h 0 (omega arith) (omega arith)) in
    rw other
      (ap (◌∷◌ c) (until_feed-plain cs (λ q lo hi. h (suc q) (omega arith) (omega (arith, hi)))))

until_feed-at :
    (s : Bytes) (k : ℕ)
    → k < length s
    → get_or s k 0 ≡ newline
    → IsPlain s 0 k
    → until_feed s ≡ take k s
until_feed-at [] k lt feed h = elim lt [ ]
until_feed-at (c ∷ cs) zero lt feed h = ground (arith, feed)
until_feed-at (c ∷ cs) (suc k) lt feed h =
    let other : (c == newline) ≡ false = ground (arith, h 0 (omega arith) (omega arith)) in
    rw other (
      ap (◌∷◌ c) (
        until_feed-at cs k (omega (arith, lt)) feed
          (λ q lo hi. h (suc q) (omega arith) (omega (arith, hi)))))

pub line_text-at :
    (s : Bytes) (k : ℕ)
    → k < length s
    → get_or s k 0 ≡ newline
    → IsPlain s 0 k
    → line_text s ≡ unreturned (take k s)
line_text-at s k lt feed h =
    let cut = until_feed-at s k lt feed h in
    let short : (length (take k s) == length s) ≡ false = ground (arith, length-take k s, lt) in
    rw (cut, short) refl

pub line_text-plain : (s : Bytes) → IsPlain s 0 (length s) → line_text s ≡ s
line_text-plain s h =
    let whole = until_feed-plain s h in
    let same : (length s == length s) ≡ true = ground arith in rw (whole, same) refl

take-append : (s more : Bytes) (k : ℕ) → k ≤ length s → take k (s ++ more) ≡ take k s
take-append [] more zero h = refl
take-append [] more (suc k) h = elim h [ ]
take-append (c ∷ cs) more zero h = refl
take-append (c ∷ cs) more (suc k) h = ap (◌∷◌ c) (take-append cs more k (omega (arith, h)))

take-all_append : (s more : Bytes) (k : ℕ) → take (length s + k) (s ++ more) ≡ s ++ take k more
take-all_append [] more k = let e : 0 + k ≡ k = omega arith in rw e refl
take-all_append (c ∷ cs) more k =
    let e : suc (length cs) + k ≡ suc (length cs + k) = omega arith in
    rw e (ap (◌∷◌ c) (take-all_append cs more k))

pub unreturned-plain :
    (s : Bytes) → (get_or s (length s - 1) 0 == carriage_return) ≡ false → unreturned s ≡ s
unreturned-plain s plain = elim (Bool-cases (length s == 0)) [
  | inl empty ↦ rw empty refl
  | inr more ↦ rw (more, plain) refl
]

unreturned-snoc : (s : Bytes) → unreturned (s ++ carriage_return ∷ []) ≡ s
unreturned-snoc s =
    let len : length (s ++ carriage_return ∷ []) ≡ length s + 1 =
      length-append s (carriage_return ∷ []) in
    let some_bytes : (length s + 1 == 0) ≡ false = ground arith in
    let back : length s + 1 - 1 ≡ length s + 0 = omega arith in
    let last : get_or (s ++ carriage_return ∷ []) (length s + 0) 0 ≡ carriage_return =
      get_or-append_right s (carriage_return ∷ []) 0 in
    rw (len, some_bytes, back, last)
      (take-all_append s (carriage_return ∷ []) 0 ∙ List.append-nil s)

-- The last line of a file, ended: its text is all of it.
unreturned-ending : (s : Bytes) → unreturned (take (length (s ++ ending s) - 1) (s ++ ending s)) ≡ s
unreturned-ending s = elim (Bool-cases (get_or s (length s - 1) 0 == carriage_return)) [
  | inl returns ↦
      let two : ending s ≡ carriage_return ∷ newline ∷ [] = rw returns refl in
      let len : length (s ++ carriage_return ∷ newline ∷ []) - 1 ≡ length s + 1 =
        omega (arith, length-append s (carriage_return ∷ newline ∷ [])) in
      rw (two, len, take-all_append s (carriage_return ∷ newline ∷ []) 1) (unreturned-snoc s)
  | inr plain ↦
      let one : ending s ≡ newline ∷ [] = rw plain refl in
      let len : length (s ++ newline ∷ []) - 1 ≡ length s + 0 =
        omega (arith, length-append s (newline ∷ [])) in
      rw (one, len, take-all_append s (newline ∷ []) 0, List.append-nil s)
        (unreturned-plain s plain)
]

-- The line feed of a text that has been ended.
ending-feed :
    (s : Bytes) (k : ℕ)
    → length s ≤ k
    → k < length (s ++ ending s)
    → get_or (s ++ ending s) k 0 ≡ newline
    → k ≡ length (s ++ ending s) - 1
ending-feed s k le lt feed =
    let at : length s + (k - length s) ≡ k = omega (arith, le) in
    let here : get_or (ending s) (k - length s) 0 ≡ newline =
      sym (get_or-append_right s (ending s) (k - length s))
      ∙ ap (λ j. get_or (s ++ ending s) j 0) at
      ∙ feed in
    let len = length-append s (ending s) in
    elim (Bool-cases (get_or s (length s - 1) 0 == carriage_return)) [
      | inl returns ↦
          let two : ending s ≡ carriage_return ∷ newline ∷ [] = rw returns refl in
          let second = λ (z : k - length s ≡ 0). differ (
            sym (ap (λ j. get_or (carriage_return ∷ newline ∷ []) j 0) z)
            ∙ ap (λ t. get_or t (k - length s) 0) (sym two)
            ∙ here) in
          let two_len : length (ending s) ≡ 2 = rw two refl in
          elim (Bool-cases (k - length s == 0)) [
            | inl z ↦ absurd (second (ground (arith, z)))
            | inr nz ↦ ground (arith, nz, len, two_len, lt)
          ]
      | inr plain ↦
          let one : length (ending s) ≡ 1 = rw plain refl in omega (arith, len, one, le, lt)
    ]
  where
    differ : carriage_return ≢ newline
    differ h = ground (arith, h)

-- The line of a text that has been ended, up to its line feed.
ended_text :
    (s : Bytes) (k : ℕ)
    → k < length (s ++ ending s)
    → get_or (s ++ ending s) k 0 ≡ newline
    → IsPlain (s ++ ending s) 0 k
    → unreturned (take k (s ++ ending s)) ≡ line_text s
ended_text s k lt feed plain = elim (Bool-cases (ltb k (length s))) [
  | inl inner ↦
      let below : k < length s = ground (arith, inner) in
      let cut = take-append s (ending s) k (omega (arith, below)) in
      rw cut (
        sym (
          line_text-at s k below (sym (get_or-append_left s (ending s) k below) ∙ feed)
            (λ q lo hi e.
              plain q lo hi (get_or-append_left s (ending s) q (omega (arith, hi, below)) ∙ e))))
  | inr outer ↦
      let le : length s ≤ k = ground (arith, outer) in
      let last = ending-feed s k le lt feed in
      let whole = line_text-plain s (λ q lo hi e.
        plain q lo (omega (arith, hi, le)) (get_or-append_left s (ending s) q hi ∙ e)) in
      rw (last, whole) (unreturned-ending s)
]

drop-append : (s more : Bytes) (n : ℕ) → n ≤ length s → drop n (s ++ more) ≡ drop n s ++ more
drop-append s more zero h = refl
drop-append [] more (suc n) h = elim h [ ]
drop-append (c ∷ cs) more (suc n) h = drop-append cs more n (omega (arith, h))

ending-drop : (s : Bytes) (n : ℕ) → n < length s → ending (drop n s) ≡ ending s
ending-drop s n lt =
    let at : n + (length (drop n s) - 1) ≡ length s - 1 = omega (arith, lt, length-drop n s) in
    let same : get_or (drop n s) (length (drop n s) - 1) 0 ≡ get_or s (length s - 1) 0 =
      get_or-drop n (length (drop n s) - 1) s ∙ ap (λ k. get_or s k 0) at in
    rw same refl

-- Where the line at `s` ends, and after how many bytes.
abbrev ClosesAfter : Bytes → ℕ → Type 0
ClosesAfter s k = (k < length s) × (get_or s k 0 ≡ newline) × IsPlain s 0 k

sealed_text :
    (content : Bytes) (s k : ℕ)
    → s < length content
    → ClosesAfter (drop s (sealed content)) k
    → unreturned (take k (drop s (sealed content))) ≡ line_text (drop s content)
sealed_text content s k lt closes =
    elim (Bool-cases (length content == 0 || get_or content (length content - 1) 0 == newline)) [
      | inl done ↦
          let same : sealed content ≡ content = rw done refl in
          let (inside, feed, plain) = subst (λ t. ClosesAfter (drop s t) k) same closes in
          subst (λ t. unreturned (take k (drop s t)) ≡ line_text (drop s content)) (sym same)
            (sym (line_text-at (drop s content) k inside feed plain))
      | inr open_end ↦
          let same : sealed content ≡ content ++ ending content =
            rw open_end (terminate_lem content) in
          let apart : drop s (sealed content) ≡ drop s content ++ ending (drop s content) =
            ap (drop s) same
            ∙ drop-append content (ending content) s (omega (arith, lt))
            ∙ ap (λ t. drop s content ++ t) (sym (ending-drop content s lt)) in
          let (inside, feed, plain) = subst (λ t. ClosesAfter t k) apart closes in
          subst (λ t. unreturned (take k t) ≡ line_text (drop s content)) (sym apart)
            (ended_text (drop s content) k inside feed plain)
    ]

-- A line of the framed content has the text of the file's line.
pub IsSpan-text :
    (content : Bytes) (s e : ℕ)
    → IsSpan (framed content) s e
    → s ≤ length content
    → unreturned (piece (framed content) s (e - 1)) ≡ line_text (drop (s - 1) content)
IsSpan-text content zero e span le = absurd (omega (arith, span.positive))
IsSpan-text content (suc s) e span le =
    let k = e - 1 - suc s in
    let back : suc s - 1 ≡ s = omega arith in
    let at : suc (s + k) ≡ e - 1 = omega (arith, span.rises) in
    let text = sealed content in
    let feed : get_or (drop s text) k 0 ≡ newline =
      get_or-drop s k text ∙ ap (λ j. get_or (framed content) j 0) at ∙ span.closed in
    let plain : IsPlain (drop s text) 0 k = λ q lo hi h.
      span.plain (suc (s + q)) (omega arith) (omega (arith, hi, at, span.rises))
        (sym (get_or-drop s q text) ∙ h) in
    let lt : k < length (drop s text) =
      omega (arith, length-drop s text, span.inside, span.rises) in
    rw back (sealed_text content s k (omega (arith, le)) (lt, feed, plain))

-- Two windows' pieces.
pub piece-window :
    (text : Bytes) (start : ℕ) (buffer : Bytes) (a b : ℕ)
    → IsWindow text start buffer
    → a ≤ b
    → b ≤ length buffer
    → piece buffer a b ≡ piece text (start + a) (start + b)
piece-window text start buffer a b window le inside =
    let n = b - a in
    let n_lem : start + b - (start + a) ≡ b - a = omega arith in
    rw n_lem (
      bytes_equal (take n (drop a buffer)) (take n (drop (start + a) text))
        (omega (
          arith,
          length-take n (drop a buffer),
          length-drop a buffer,
          length-take n (drop (start + a) text),
          length-drop (start + a) text,
          window.inside,
          inside,
        ))
        (λ i lt. at i (omega (arith, lt, length-take n (drop a buffer)))))
  where
    at :
        (i : ℕ)
        → i < b - a
        → get_or (take (b - a) (drop a buffer)) i 0
          ≡ get_or (take (b - a) (drop (start + a) text)) i 0
    at i lt =
        let e : start + (a + i) ≡ start + a + i = omega arith in
        get_or-take (b - a) i (drop a buffer) lt
        ∙ get_or-drop a i buffer
        ∙ window.same (a + i) (omega (arith, lt, inside))
        ∙ ap (λ k. get_or text k 0) e
        ∙ sym (get_or-drop (start + a) i text)
        ∙ sym (get_or-take (b - a) i (drop (start + a) text) lt)

    bytes_equal :
        (xs ys : Bytes)
        → length xs ≡ length ys
        → ((i : ℕ) → i < length xs → get_or xs i 0 ≡ get_or ys i 0)
        → xs ≡ ys
    bytes_equal [] [] e h = refl
    bytes_equal [] (y ∷ ys) e h = absurd (omega (arith, e))
    bytes_equal (x ∷ xs) [] e h = absurd (omega (arith, e))
    bytes_equal (x ∷ xs) (y ∷ ys) e h =
        ap₂ ◌∷◌ (h 0 (omega arith))
          (bytes_equal xs ys (omega (arith, e)) (λ i lt. h (suc i) (omega (arith, lt))))

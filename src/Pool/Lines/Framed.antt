-- ===== src/Pool/Lines/Framed.antt =====
-- proxypool.go: a file's content between line feeds, which a pool's buffer is a window of.
use proxykit_go.Base.{
  ℕ, zero, suc, ◌+◌, ◌-◌, ◌≤◌, ◌<◌, false, ◌||◌, not, ltb, [], ◌∷◌, ◌++◌, ◌==◌, ◌≡◌, ◌≢◌, refl,
  arith, if◌then◌else◌, length, get_or, take, drop, sym, ap, ◌∙◌, length-append, length-take,
  length-drop, Bool-cases, inl, inr,
}
use mathlib.Core.List
use proxykit_go.Base.Bytes.{Bytes}
use proxykit_go.Pool.Sizes.{newline, carriage_return}
use proxykit_go.Pool.Extend.{terminate}
use proxykit_go.Pool.Limits.{get_or-drop, get_or-take}

-- The content with its last line ended, where that has no line feed.
abbrev pub sealed : Bytes → Bytes
sealed content =
    if length content == 0 || get_or content (length content - 1) 0 == newline
    then content
    else terminate content

-- A line feed, and the content behind it: position `i + 1` is position `i` of the file.
abbrev pub unsealed : Bytes → Bytes
unsealed content = newline ∷ content

abbrev pub framed : Bytes → Bytes
framed content = newline ∷ sealed content

-- The buffer is what stands in the text from `start` on.
pub record IsWindow (text : Bytes) (start : ℕ) (buffer : Bytes) : Type 0 where
  pub inside : start + length buffer ≤ length text
  pub same : (i : ℕ) → i < length buffer → get_or buffer i 0 ≡ get_or text (start + i) 0

-- A line of a text, from its start to behind its line feed.
pub record IsSpan (text : Bytes) (s e : ℕ) : Type 0 where
  pub positive : 0 < s
  pub rises : s < e
  pub inside : e ≤ length text
  pub opened : get_or text (s - 1) 0 ≡ newline
  pub closed : get_or text (e - 1) 0 ≡ newline
  pub plain : (q : ℕ) → s ≤ q → q + 1 < e → get_or text q 0 ≢ newline

pub get_or-append_left :
    (xs ys : Bytes) (i : ℕ) → i < length xs → get_or (xs ++ ys) i 0 ≡ get_or xs i 0
get_or-append_left [] ys i h = elim h [ ]
get_or-append_left (x ∷ xs) ys zero h = refl
get_or-append_left (x ∷ xs) ys (suc i) h = get_or-append_left xs ys i (omega arith)

pub get_or-append_right :
    (xs ys : Bytes) (i : ℕ) → get_or (xs ++ ys) (length xs + i) 0 ≡ get_or ys i 0
get_or-append_right [] ys i = let e : 0 + i ≡ i = omega arith in ap (λ k. get_or ys k 0) e
get_or-append_right (x ∷ xs) ys i =
    let e : suc (length xs) + i ≡ suc (length xs + i) = omega arith in
    rw e (get_or-append_right xs ys i)

pub IsWindow-take :
    (text : Bytes) (start n : ℕ) (buffer : Bytes)
    → IsWindow text start buffer
    → IsWindow text start (take n buffer)
IsWindow-take text start n buffer w = record {
  inside = omega (arith, w.inside, length-take n buffer);
  same = λ i h.
      get_or-take n i buffer (omega (arith, h, length-take n buffer))
      ∙ w.same i (omega (arith, h, length-take n buffer));
}

-- A piece of the text, as a read returns it.
pub IsWindow-piece :
    (text : Bytes) (start n : ℕ)
    → start + n ≤ length text
    → IsWindow text start (take n (drop start text))
IsWindow-piece text start n h =
    let len : length (take n (drop start text)) ≡ n =
      omega (arith, length-take n (drop start text), length-drop start text) in
    record {
      inside = omega (arith, len);
      same = λ i lt.
          get_or-take n i (drop start text) (omega (arith, lt, len)) ∙ get_or-drop start i text;
    }

-- Two windows, one behind the other.
pub IsWindow-append :
    (text : Bytes) (start : ℕ) (buffer more : Bytes)
    → IsWindow text start buffer
    → IsWindow text (start + length buffer) more
    → IsWindow text start (buffer ++ more)
IsWindow-append text start buffer more w w' = record {
  inside = omega (arith, length-append buffer more, w'.inside);
  same = λ i h. at i h;
}
  where
    behind :
        (i : ℕ)
        → length buffer ≤ i
        → i < length (buffer ++ more)
        → get_or (buffer ++ more) i 0 ≡ get_or text (start + i) 0
    behind i le h =
        let j = i - length buffer in
        let e : length buffer + j ≡ i = omega (arith, le) in
        let e' : start + length buffer + j ≡ start + i = omega (arith, le) in
        ap (λ k. get_or (buffer ++ more) k 0) (sym e)
        ∙ get_or-append_right buffer more j
        ∙ w'.same j (omega (arith, h, length-append buffer more))
        ∙ ap (λ k. get_or text k 0) e'

    at :
        (i : ℕ)
        → i < length (buffer ++ more)
        → get_or (buffer ++ more) i 0 ≡ get_or text (start + i) 0
    at i h = elim (Bool-cases (ltb i (length buffer))) [
      | inl lt ↦
          get_or-append_left buffer more i (ground (arith, lt)) ∙ w.same i (ground (arith, lt))
      | inr ge ↦ behind i (ground (arith, ge)) h
    ]

-- What ends a line that has no line feed.
abbrev pub ending : Bytes → Bytes
ending buffer =
    if not (get_or buffer (length buffer - 1) 0 == carriage_return)
    then newline ∷ []
    else carriage_return ∷ newline ∷ []

pub terminate_lem : (buffer : Bytes) → terminate buffer ≡ buffer ++ ending buffer
unfolding terminate
terminate_lem buffer = ground arith

-- The framed content goes on behind the content, if its last byte is no line feed.
pub framed_lem :
    (content : Bytes)
    → get_or (unsealed content) (length content) 0 ≢ newline
    → framed content ≡ unsealed content ++ ending (unsealed content)
framed_lem [] open_end = elim (open_end refl) [ ]
framed_lem (c ∷ cs) open_end =
    let last : suc (length cs) - 1 ≡ length cs = omega arith in
    let last' : suc (suc (length cs)) - 1 ≡ suc (length cs) = omega arith in
    let plain : (get_or (c ∷ cs) (length cs) 0 == newline) ≡ false = ground (arith, open_end) in
    let some_bytes : (suc (length cs) == 0) ≡ false = ground arith in
    let same : ending (unsealed (c ∷ cs)) ≡ ending (c ∷ cs) = rw (last, last') refl in
    let sealed_open : sealed (c ∷ cs) ≡ terminate (c ∷ cs) = rw (some_bytes, last, plain) refl in
    ap (◌∷◌ newline) (sealed_open ∙ terminate_lem (c ∷ cs) ∙ ap (◌++◌ (c ∷ cs)) (sym same))

-- The framed content begins with the content.
pub framed_prefix : (content : Bytes) → (rest : Bytes) × (framed content ≡ unsealed content ++ rest)
framed_prefix content =
    elim (Bool-cases (length content == 0 || get_or content (length content - 1) 0 == newline)) [
      | inl done ↦ ([], rw (done, List.append-nil content) refl)
      | inr open_end ↦ (ending content, rw open_end (ap (◌∷◌ newline) (terminate_lem content)))
    ]

pub IsWindow-framed :
    (content : Bytes) (start : ℕ) (buffer : Bytes)
    → IsWindow (unsealed content) start buffer
    → IsWindow (framed content) start buffer
IsWindow-framed content start buffer w =
    let (rest, e) = framed_prefix content in
    rw e (record {
      inside = omega (arith, w.inside, length-append (unsealed content) rest);
      same = λ i h.
          w.same i h
          ∙ sym
              (get_or-append_left (unsealed content) rest (start + i) (omega (arith, h, w.inside)));
    })

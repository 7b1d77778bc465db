-- ===== src/Pool/Lines/Spans.antt =====
-- proxypool.go: offsets that stand for all lines of a stretch of a buffer.
use proxykit_go.Base.{
  ℕ, zero, suc, ◌+◌, ◌-◌, ◌≤◌, ◌<◌, List, [], ◌∷◌, ◌++◌, ltb, ◌==◌, ◌≡◌, ◌≢◌, arith, length, get_or,
  sym, ap, ◌∙◌, Bool-cases, inl, inr,
}
use proxykit_go.Base.Bytes.{Bytes}
use proxykit_go.Pool.Sizes.{newline}
use proxykit_go.Pool.Block.{last_offset}
use proxykit_go.Pool.Lines.Framed.{IsWindow, IsSpan}

-- Each offset but the first ends the line that begins at the one before it.
abbrev pub Spans : Bytes → List ℕ → Type 0
Spans buffer [] = Unit
Spans buffer (a ∷ []) = (0 < a) × (get_or buffer (a - 1) 0 ≡ newline)
Spans buffer (a ∷ b ∷ offsets) = IsSpan buffer a b × Spans buffer (b ∷ offsets)

-- A window's lines are lines of the text.
pub IsSpan-window :
    {text buffer : Bytes} {start s e : ℕ}
    → IsWindow text start buffer
    → IsSpan buffer s e
    → IsSpan text (start + s) (start + e)
IsSpan-window {text} {buffer} {start} {s} {e} w span = record {
  positive = omega (arith, span.positive);
  rises = omega (arith, span.rises);
  inside = omega (arith, span.inside, w.inside);
  opened = opens;
  closed = closes;
  plain = λ q lo hi. inner q lo hi;
}
  where
    opens : get_or text (start + s - 1) 0 ≡ newline
    opens =
        let e' : start + (s - 1) ≡ start + s - 1 = omega (arith, span.positive) in
        ap (λ k. get_or text k 0) (sym e')
        ∙ sym (w.same (s - 1) (omega (arith, span.rises, span.inside)))
        ∙ span.opened

    closes : get_or text (start + e - 1) 0 ≡ newline
    closes =
        let e' : start + (e - 1) ≡ start + e - 1 = omega (arith, span.rises) in
        ap (λ k. get_or text k 0) (sym e')
        ∙ sym (w.same (e - 1) (omega (arith, span.rises, span.inside)))
        ∙ span.closed

    inner : (q : ℕ) → start + s ≤ q → q + 1 < start + e → get_or text q 0 ≢ newline
    inner q lo hi h =
        let i = q - start in
        let at : start + i ≡ q = omega (arith, lo) in
        span.plain i (omega (arith, lo)) (omega (arith, hi, lo))
          (w.same i (omega (arith, hi, lo, span.inside)) ∙ ap (λ k. get_or text k 0) at ∙ h)

-- The end of a line is given by its start.
pub IsSpan-end : {text : Bytes} {s e e' : ℕ} → IsSpan text s e → IsSpan text s e' → e ≡ e'
IsSpan-end {text} {s} {e} {e'} h h' = elim (Bool-cases (ltb e e')) [
  | inl lt ↦
      absurd (h'.plain (e - 1) (omega (arith, h.rises)) (ground (arith, lt, h.rises)) h.closed)
  | inr ge ↦ elim (Bool-cases (ltb e' e)) [
    | inl gt ↦
        absurd (h.plain (e' - 1) (omega (arith, h'.rises)) (ground (arith, gt, h'.rises)) h'.closed)
    | inr le ↦ ground (arith, ge, le)
  ]
]

-- The first and the last offset, with their lines.
pub Spans-at :
    (buffer : Bytes) (offsets : List ℕ) (i : ℕ)
    → Spans buffer offsets
    → i + 1 < length offsets
    → IsSpan buffer (get_or offsets i 0) (get_or offsets (i + 1) 0)
Spans-at buffer [] i h lt = absurd (omega (arith, lt))
Spans-at buffer (a ∷ []) i h lt = absurd (omega (arith, lt))
Spans-at buffer (a ∷ b ∷ offsets) zero h lt = h.0
Spans-at buffer (a ∷ b ∷ offsets) (suc i) h lt =
    let e : suc i + 1 ≡ suc (i + 1) = omega arith in
    rw e (Spans-at buffer (b ∷ offsets) i h.1 (omega arith))

-- A line that starts between the first offset and the last one is a line of the offsets.
pub Spans-complete :
    (buffer : Bytes) (a : ℕ) (offsets : List ℕ) (s : ℕ)
    → Spans buffer (a ∷ offsets)
    → a ≤ s
    → s < last_offset offsets a
    → get_or buffer (s - 1) 0 ≡ newline
    → (i : ℕ) × (i + 1 < length (a ∷ offsets)) × (get_or (a ∷ offsets) i 0 ≡ s)
Spans-complete buffer a [] s h lo hi feed = absurd (omega (arith, lo, hi))
Spans-complete buffer a (b ∷ offsets) s h lo hi feed = elim (Bool-cases (a == s)) [
  | inl here ↦ (0, omega arith, ground (arith, here))
  | inr other ↦ elim (Bool-cases (ltb s b)) [
    | inl between ↦
        absurd
          (h.0.plain (s - 1) (ground (arith, other, lo)) (ground (arith, other, lo, between)) feed)
    | inr later ↦
        let (i, lt, e) = Spans-complete buffer b offsets s h.1 (ground (arith, later)) hi feed in
        (suc i, omega (arith, lt), e)
  ]
]

pub Spans-append :
    (buffer : Bytes) (a : ℕ) (offsets : List ℕ) (e : ℕ)
    → Spans buffer (a ∷ offsets)
    → IsSpan buffer (last_offset offsets a) e
    → Spans buffer (a ∷ (offsets ++ e ∷ []))
Spans-append buffer a [] e h span = (span, (omega (arith, span.rises), span.closed))
Spans-append buffer a (b ∷ offsets) e h span = (h.0, Spans-append buffer b offsets e h.1 span)

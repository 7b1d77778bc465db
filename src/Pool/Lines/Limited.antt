-- ===== src/Pool/Lines/Limited.antt =====
-- proxypool.go: a load from a file that keeps its content fails only at a line that is too long.
use mathlib.Core.Path.{subst}
use proxykit_go.Base.{
  ℕ, suc, ◌+◌, ◌-◌, ◌≤◌, ◌<◌, true, none, some, List, [], ◌∷◌, ◌≡◌, ◌≢◌, arith, length, get_or, sym,
  ap, ◌∙◌, Bool-cases, inl, inr,
}
use proxykit_go.Base.Bytes.{Bytes}
use proxykit_go.Pool.Sizes.{newline, exceeds_line_limit}
use proxykit_go.Pool.Open.{Geometry}
use proxykit_go.Pool.State.{File, PoolError, line_too_long, fault, validate_source}
use proxykit_go.Pool.Extend.{piece, first_too_long}
use proxykit_go.Pool.Limits.{length-piece, last-piece}
use proxykit_go.Pool.Lines.Framed.{unsealed, IsWindow}
use proxykit_go.Pool.Lines.Spans.{Spans}
use proxykit_go.Pool.Lines.Found.{IsPlain}

-- The file is as it was when it was opened, and its reads succeed.
pub record Answers (file : File) (content : Bytes) (g : Geometry) : Type 0 where
  pub unchanged : validate_source file g ≡ none
  pub succeeds : (offset n : ℕ) → offset + n ≤ length content → (file.read_at offset n).1 ≢ fault

-- At this position a line starts that has more bytes than the limit, its line feed aside.
pub record IsTooLong (content : Bytes) (limit s : ℕ) : Type 0 where
  pub opened : get_or (unsealed content) s 0 ≡ newline
  pub inside : s + limit < length content
  pub plain : IsPlain content s (s + limit + 1)

-- The error of such a line.
abbrev pub IsLimit : Bytes → ℕ → PoolError → Type 0
IsLimit content limit e = (s : ℕ) × (e ≡ line_too_long s) × IsTooLong content limit s

pub exceeds_line_limit-long :
    (line : Bytes) (limit : ℕ) → exceeds_line_limit line limit ≡ true → limit < length line
unfolding exceeds_line_limit
exceeds_line_limit-long line limit h = ground (arith, h)

pub exceeds_line_limit-closed :
    (line : Bytes) (limit : ℕ)
    → exceeds_line_limit line limit ≡ true
    → get_or line (length line - 1) 0 ≡ newline
    → limit < length line - 1
unfolding exceeds_line_limit
exceeds_line_limit-closed line limit h e = ground (arith, h, e)

-- A stretch of the buffer without line feeds, behind one.
pub stretch-IsTooLong :
    (content : Bytes) (start a b limit : ℕ) (buffer : Bytes)
    → IsWindow (unsealed content) start buffer
    → 0 < a
    → get_or buffer (a - 1) 0 ≡ newline
    → b ≤ length buffer
    → a + limit < b
    → IsPlain buffer a b
    → IsTooLong content limit (start + a - 1)
stretch-IsTooLong content start a b limit buffer window pos opened fits long plain =
    let before : start + (a - 1) ≡ start + a - 1 = omega (arith, pos) in
    record {
      opened =
          ap (λ k. get_or (unsealed content) k 0) (sym before)
          ∙ sym (window.same (a - 1) (omega (arith, pos, fits, long)))
          ∙ opened;
      inside = omega (arith, window.inside, fits, long, pos);
      plain = λ q lo hi e.
          let at : start + (q + 1 - start) ≡ suc q = omega (arith, lo, pos) in
          plain (q + 1 - start) (omega (arith, lo, pos)) (omega (arith, hi, long, pos)) (
            window.same (q + 1 - start) (omega (arith, hi, long, pos, fits))
            ∙ ap (λ k. get_or (unsealed content) k 0) at
            ∙ e);
    }

-- The line that the search finds.
pub first_too_long-IsTooLong :
    (content : Bytes) (start limit s : ℕ) (buffer : Bytes) (offsets : List ℕ)
    → IsWindow (unsealed content) start buffer
    → Spans buffer offsets
    → first_too_long buffer limit offsets ≡ some s
    → IsTooLong content limit (start + s - 1)
unfolding first_too_long
first_too_long-IsTooLong content start limit s buffer [] window spans h = cc
first_too_long-IsTooLong content start limit s buffer (a ∷ []) window spans h = cc
first_too_long-IsTooLong content start limit s buffer (a ∷ b ∷ offsets) window (span, spans) h =
    elim (Bool-cases (exceeds_line_limit (piece buffer a b) limit)) [
      | inl long ↦
          let here : a ≡ s = ground (arith, h, long) in
          let len = length-piece buffer a b span.rises span.inside in
          let more =
            exceeds_line_limit-closed (piece buffer a b) limit long
              (last-piece buffer a b span.rises span.inside ∙ span.closed) in
          subst (λ s. IsTooLong content limit (start + s - 1)) here
            (stretch-IsTooLong content start a (b - 1) limit buffer window span.positive span.opened
              (omega (arith, span.inside)) (omega (arith, len, more))
              (λ q lo hi. span.plain q lo (omega (arith, hi))))
      | inr short ↦
          first_too_long-IsTooLong content start limit s buffer (b ∷ offsets) window spans
            (ground (arith, h, short))
    ]

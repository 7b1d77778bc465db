-- ===== src/Pool/Lines/Whole.antt =====
-- proxypool.go: the lines that a pool takes from a loaded block are the file's lines that start in it.
use mathlib.Core.Path.{ap₂}
use proxykit_go.Base.{
  ℕ, suc, ◌+◌, ◌-◌, ◌≤◌, ◌<◌, Bool, true, false, List, [], ◌∷◌, ltb, ◌≡◌, ◌≢◌, ◌⊎◌, refl, arith,
  length, get_or, sym, ap, ◌∙◌, Bool-cases, inl, inr,
}
use proxykit_go.Base.Bytes.{Bytes}
use proxykit_go.Pool.Sizes.{carriage_return}
use proxykit_go.Pool.Extend.{piece}
use proxykit_go.Pool.Walk.{trim_return}
use proxykit_go.Pool.Limits.{last-piece}
use proxykit_go.Pool.Lines.Framed.{framed, IsWindow, IsSpan}
use proxykit_go.Pool.Lines.Spans.{Spans, IsSpan-window}
use proxykit_go.Pool.Lines.Marks.{Owned, Unreturned}
use proxykit_go.Pool.Lines.Texts.{unreturned, unreturned-plain, IsSpan-text, piece-window}
use proxykit_go.Pool.Lines.Starts.{starts_line-framed, IsPlain-block_lines}
use proxykit_go.Pool.Lines.Reference.{starts_line, block_lines, block_lines-append}

-- The lines between the offsets.
unfoldable pub offset_lines : Bytes → Bool → List ℕ → List Bytes
offset_lines buffer cr [] = []
offset_lines buffer cr (a ∷ []) = []
offset_lines buffer cr (a ∷ b ∷ offsets) =
    trim_return cr (piece buffer a (b - 1)) ∷ offset_lines buffer cr (b ∷ offsets)

-- A pool's test of the flag spares no carriage return.
trim_return-unreturned :
    (cr : Bool) (buffer : Bytes) (a b : ℕ)
    → a < b
    → b ≤ length buffer
    → (cr ≡ false → get_or buffer (b - 2) 0 ≢ carriage_return)
    → trim_return cr (piece buffer a (b - 1)) ≡ unreturned (piece buffer a (b - 1))
unfolding trim_return
trim_return-unreturned true buffer a b lt inside flag = refl
trim_return-unreturned false buffer a b lt inside flag = elim (Bool-cases (ltb a (b - 1))) [
  | inl more ↦
      let below : a < b - 1 = ground (arith, more) in
      let back : b - 1 - 1 ≡ b - 2 = omega arith in
      let last = last-piece buffer a (b - 1) below (omega (arith, inside)) in
      sym (unreturned-plain (piece buffer a (b - 1)) (rw (last, back) (ground (arith, flag refl))))
  | inr empty ↦ let z : b - 1 - a ≡ 0 = ground (arith, empty, lt) in rw z refl
]

-- The lines between the offsets, from one line's start on, are the file's.
pub offset_lines-block_lines :
    (content : Bytes) (start own : ℕ) (buffer : Bytes) (cr : Bool) (a : ℕ) (ends : List ℕ)
    → IsWindow (framed content) start buffer
    → start + own ≤ length content + 1
    → Spans buffer (a ∷ ends)
    → Owned own (a ∷ ends)
    → (cr ≡ false → Unreturned buffer ends)
    → offset_lines buffer cr (a ∷ ends) ≡ block_lines content (start + a - 1) (own - a)
unfolding offset_lines
offset_lines-block_lines content start own buffer cr a [] window fits spans owned flag =
    let z : own - a ≡ 0 = omega (arith, owned) in rw z refl
offset_lines-block_lines content start own buffer cr a (b ∷ ends) window fits spans owned flag =
    let span = spans.0 in
    let x = start + a - 1 in
    let n : own - a ≡ suc (own - a - 1) = omega (arith, owned.0) in
    let next : start + a - 1 + 1 ≡ start + a = omega (arith, span.positive) in
    let in_text = IsSpan-window window span in
    let back : start + b - 1 ≡ start + (b - 1) = omega (arith, span.rises) in
    let text =
      trim_return-unreturned cr buffer a b span.rises span.inside (λ f. (flag f).0)
      ∙ ap unreturned (
          piece-window (framed content) start buffer a (b - 1) window (omega (arith, span.rises))
            (omega (arith, span.inside)))
      ∙ ap (λ k. unreturned (piece (framed content) (start + a) k)) (sym back)
      ∙ IsSpan-text content (start + a) (start + b) in_text (omega (arith, owned.0, fits)) in
    let starts : starts_line content (start + a - 1) ≡ true =
      starts_line-framed content (start + a - 1) (omega (arith, owned.0, fits))
      ∙ ground (arith, in_text.opened) in
    let rest =
      offset_lines-block_lines content start own buffer cr b ends window fits spans.1 owned.1
        (λ f. (flag f).1) in
    rw (n, starts, next) (ap₂ ◌∷◌ text (rest ∙ passed span (Bool-cases (ltb b own))))
  where
    passed :
        IsSpan buffer a b
        → (ltb b own ≡ true) ⊎ (ltb b own ≡ false)
        → block_lines content (start + b - 1) (own - b)
          ≡ block_lines content (start + a) (own - a - 1)
    passed span (inl below) =
        let m : b - 1 - a + (own - b) ≡ own - a - 1 = ground (arith, below, span.rises) in
        let at : start + a + (b - 1 - a) ≡ start + b - 1 = omega (arith, span.rises) in
        let quiet =
          IsPlain-block_lines content start buffer a (b - 1) window
            (λ q lo hi. span.plain q lo (omega (arith, hi))) (omega (arith, span.inside))
            (ground (arith, below, fits)) in
        let apart = block_lines-append content (start + a) (b - 1 - a) (own - b) in
        rw (← m, apart, quiet, at) refl
    passed span (inr above) =
        let le : own ≤ b = ground (arith, above) in
        let z : own - b ≡ 0 = omega (arith, le) in
        let quiet =
          IsPlain-block_lines content start buffer a (own - 1) window
            (λ q lo hi. span.plain q lo (omega (arith, hi, le))) (omega (arith, le, span.inside))
            (omega (arith, fits)) in
        let m : own - 1 - a ≡ own - a - 1 = omega arith in rw (z, ← m, quiet) refl

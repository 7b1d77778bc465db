-- ===== src/Pool/Lines/Starts.antt =====
-- proxypool.go: no line starts in a stretch of the buffer without line feeds, nor in a block that a line
-- fills.
use proxykit_go.Base.{
  ℕ, zero, suc, ◌+◌, ◌-◌, ◌≤◌, ◌<◌, false, [], ◌==◌, ◌≡◌, ◌≢◌, refl, arith, length, get_or, ap, ◌∙◌,
}
use proxykit_go.Base.Bytes.{Bytes}
use proxykit_go.Pool.Sizes.{newline}
use proxykit_go.Pool.Lines.Framed.{unsealed, framed, framed_prefix, get_or-append_left, IsWindow}
use proxykit_go.Pool.Lines.Found.{IsPlain}
use proxykit_go.Pool.Lines.Reference.{starts_line, block_lines, block_lines-none}

-- Where a line of the file starts, in the framed content.
pub starts_line-framed :
    (content : Bytes) (x : ℕ)
    → x ≤ length content
    → starts_line content x ≡ (get_or (framed content) x 0 == newline)
starts_line-framed content x le =
    let (rest, e) = framed_prefix content in
    let same : get_or (framed content) x 0 ≡ get_or (unsealed content) x 0 =
      ap (λ t. get_or t x 0) e ∙ get_or-append_left (unsealed content) rest x (omega (arith, le)) in
    rw same (by_start x)
  where
    by_start : (x : ℕ) → starts_line content x ≡ (get_or (unsealed content) x 0 == newline)
    by_start zero = refl
    by_start (suc x) = let back : suc x - 1 ≡ x = omega arith in rw back (ground arith)

-- No line starts in a stretch of the buffer without line feeds.
pub IsPlain-block_lines :
    (content : Bytes) (start : ℕ) (buffer : Bytes) (lo hi : ℕ)
    → IsWindow (framed content) start buffer
    → IsPlain buffer lo hi
    → hi ≤ length buffer
    → start + hi ≤ length content + 1
    → block_lines content (start + lo) (hi - lo) ≡ []
IsPlain-block_lines content start buffer lo hi window plain inside fits =
    block_lines-none content (start + lo) (hi - lo) (λ q ge lt. inner q ge lt)
  where
    inner : (q : ℕ) → start + lo ≤ q → q < start + lo + (hi - lo) → starts_line content q ≡ false
    inner q ge lt =
        let i = q - start in
        let at : start + i ≡ q = omega (arith, ge) in
        let quiet : get_or (framed content) q 0 ≢ newline = λ e.
          plain i (omega (arith, ge)) (omega (arith, ge, lt)) (
            window.same i (omega (arith, ge, lt, inside))
            ∙ ap (λ k. get_or (framed content) k 0) at
            ∙ e) in
        starts_line-framed content q (omega (arith, ge, lt, fits)) ∙ ground (arith, quiet)

-- ===== src/Pool/Lines/Block.antt =====
-- proxypool.go: what loadBlockLocked leaves in the buffer and the offsets, if it does not fail.
use proxykit_go.Base.{
  ℕ, ◌-◌, ◌≤◌, ◌<◌, Bool, false, List, [], ◌∷◌, ◌++◌, leb, ◌≡◌, arith, length, sym, ◌∙◌, Bool-cases,
  inl, inr,
}
use proxykit_go.Base.Bytes.{Bytes}
use proxykit_go.Pool.State.{Pool}
use proxykit_go.Pool.Block.{last_offset}
use proxykit_go.Pool.Lines.Framed.{unsealed, framed, IsWindow, IsWindow-framed}
use proxykit_go.Pool.Lines.Spans.{Spans, Spans-append}
use proxykit_go.Pool.Lines.Found.{IsPlain, IsFound}
use proxykit_go.Pool.Lines.Ended.{IsExtended}
use proxykit_go.Pool.Lines.Marks.{
  Agree, Spans-le, Spans-positive, Spans-closed, Spans-Agree, Owned, Owned-whole, Owned-append,
  Unreturned, Unreturned-append, Unreturned-Agree,
}

-- What the offsets of a block are: lines of the text, which start in the first `own` bytes of the
-- buffer, and with no line before the first.
pub record IsIndexed (content : Bytes) (start own : ℕ) (buffer : Bytes) (a : ℕ) (ends : List ℕ)
    (cr : Bool) : Type 0 where
  pub window : IsWindow (framed content) start buffer
  pub spans : Spans buffer (a ∷ ends)
  pub owned : Owned own (a ∷ ends)
  pub before : (a < own) × IsPlain buffer 0 (a - 1)
  pub flag : cr ≡ false → Unreturned buffer ends

-- A block that has been searched, up to the end of its part of the buffer.
pub record IsSearched (content : Bytes) (start own : ℕ) (buffer : Bytes) (a : ℕ) (ends : List ℕ)
    (cr : Bool) : Type 0 where
  pub window : IsWindow (unsealed content) start buffer
  pub fits : own ≤ length buffer
  pub found : IsFound buffer a own ends
  pub before : (a < own) × IsPlain buffer 0 (a - 1)
  pub flag : cr ≡ false → Unreturned buffer ends

-- Both buffers are windows of the text.
windows-Agree :
    (text : Bytes) (start : ℕ) (buffer buffer' : Bytes) (n : ℕ)
    → IsWindow text start buffer
    → IsWindow text start buffer'
    → n ≤ length buffer
    → n ≤ length buffer'
    → Agree buffer buffer' n
windows-Agree text start buffer buffer' n w w' le le' q lt =
    w.same q (omega (arith, lt, le)) ∙ sym (w'.same q (omega (arith, lt, le')))

-- The last line ends with the block.
pub whole-IsIndexed :
    (content : Bytes) (start own : ℕ) (buffer : Bytes) (a : ℕ) (ends : List ℕ) (cr : Bool)
    → IsSearched content start own buffer a ends cr
    → own ≤ last_offset ends a
    → IsIndexed content start own buffer a ends cr
whole-IsIndexed content start own buffer a ends cr s ge = record {
  window = IsWindow-framed content start buffer s.window;
  spans = s.found.spans;
  owned = Owned-whole buffer own a ends s.found.spans (omega (arith, ge, s.found.last_le));
  before = s.before;
  flag = s.flag;
}

-- The last line has been extended, or ended.
pub extended-IsIndexed :
    (content : Bytes) (start own a : ℕ) (ends : List ℕ) (pool from p : Pool)
    → IsSearched content start own pool.buffer a ends pool.cr
    → IsExtended content start (last_offset ends a) from p
    → from.cr ≡ pool.cr
    → last_offset ends a < own
    → IsIndexed content start own p.buffer a (ends ++ length p.buffer ∷ []) p.cr
extended-IsIndexed content start own a ends pool from p s x same_flag lt =
    let last = last_offset ends a in
    let stop = length p.buffer in
    let w = IsWindow-framed content start pool.buffer s.window in
    let le : last ≤ length pool.buffer = omega (arith, s.found.last_le, s.fits) in
    let le' : last ≤ stop = omega (arith, x.longer) in
    let same = windows-Agree (framed content) start pool.buffer p.buffer last w x.window le le' in
    let spans = Spans-Agree pool.buffer p.buffer last a ends same (omega arith) le' s.found.spans in
    let rising = Spans-le pool.buffer a ends s.found.spans in
    record {
      window = x.window;
      spans = Spans-append p.buffer a ends stop spans (record {
        positive = omega (arith, rising, Spans-positive pool.buffer a ends s.found.spans);
        rises = x.longer;
        inside = omega arith;
        opened = Spans-closed p.buffer a ends spans;
        closed = x.closed;
        plain = λ q lo hi. x.plain q lo (omega (arith, hi));
      });
      owned = Owned-append pool.buffer own a ends stop s.found.spans lt (beyond w);
      before =
          (s.before.0, λ q lo hi e. s.before.1 q lo hi (same q (omega (arith, hi, rising)) ∙ e));
      flag = λ f.
          Unreturned-append p.buffer ends stop
            (Unreturned-Agree pool.buffer p.buffer last a ends same (omega arith) s.found.spans
              (s.flag (sym same_flag ∙ (x.flag f).0)))
            (x.flag f).1;
    }
  where
    beyond : IsWindow (framed content) start pool.buffer → own ≤ length p.buffer
    beyond w = elim (Bool-cases (leb own (length p.buffer))) [
      | inl le ↦ ground (arith, le)
      | inr gt ↦
          let short : length p.buffer < own = ground (arith, gt) in
          absurd (
            s.found.rest (length p.buffer - 1) (omega (arith, x.longer))
              (omega (arith, short, x.longer))
              (w.same (length p.buffer - 1) (omega (arith, short, s.fits, x.longer))
                ∙ sym (x.window.same (length p.buffer - 1) (omega (arith, x.longer)))
                ∙ x.closed))
    ]

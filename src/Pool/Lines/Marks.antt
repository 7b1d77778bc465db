-- ===== src/Pool/Lines/Marks.antt =====
-- proxypool.go: what else holds of the offsets of a block: which lines it owns, and where a carriage
-- return ends one.
use proxykit_go.Base.{
  ℕ, suc, ◌+◌, ◌-◌, ◌≤◌, ◌<◌, false, List, [], ◌∷◌, ◌++◌, ◌==◌, ◌≡◌, ◌≢◌, arith, length, get_or,
  drop, sym, ap, ◌∙◌, Bool-cases, inl, inr, length-take,
}
use proxykit_go.Base.Bytes.{Bytes}
use proxykit_go.Pool.Sizes.{newline, carriage_return}
use proxykit_go.Pool.Extend.{line_ends, piece, has_crlf}
use proxykit_go.Pool.Block.{last_offset}
use proxykit_go.Pool.Limits.{get_or-drop, get_or-take}
use proxykit_go.Pool.Lines.Framed.{IsSpan}
use proxykit_go.Pool.Lines.Spans.{Spans}

-- Two buffers are alike before a position.
abbrev pub Agree : Bytes → Bytes → ℕ → Type 0
Agree buffer buffer' n = (q : ℕ) → q < n → get_or buffer q 0 ≡ get_or buffer' q 0

pub Spans-le :
    (buffer : Bytes) (a : ℕ) (ends : List ℕ) → Spans buffer (a ∷ ends) → a ≤ last_offset ends a
Spans-le buffer a [] h = omega arith
Spans-le buffer a (b ∷ ends) h = omega (arith, h.0.rises, Spans-le buffer b ends h.1)

pub Spans-positive : (buffer : Bytes) (a : ℕ) (ends : List ℕ) → Spans buffer (a ∷ ends) → 0 < a
Spans-positive buffer a [] h = h.0
Spans-positive buffer a (b ∷ ends) h = h.0.positive

pub Spans-closed :
    (buffer : Bytes) (a : ℕ) (ends : List ℕ)
    → Spans buffer (a ∷ ends)
    → get_or buffer (last_offset ends a - 1) 0 ≡ newline
Spans-closed buffer a [] h = h.1
Spans-closed buffer a (b ∷ ends) h = Spans-closed buffer b ends h.1

IsSpan-Agree :
    (buffer buffer' : Bytes) (n s e : ℕ)
    → Agree buffer buffer' n
    → e ≤ n
    → n ≤ length buffer'
    → IsSpan buffer s e
    → IsSpan buffer' s e
IsSpan-Agree buffer buffer' n s e same le inside span = record {
  positive = span.positive;
  rises = span.rises;
  inside = omega (arith, le, inside);
  opened = sym (same (s - 1) (omega (arith, span.rises, le))) ∙ span.opened;
  closed = sym (same (e - 1) (omega (arith, span.rises, le))) ∙ span.closed;
  plain = λ q lo hi h. span.plain q lo hi (same q (omega (arith, hi, le)) ∙ h);
}

pub Spans-Agree :
    (buffer buffer' : Bytes) (n a : ℕ) (ends : List ℕ)
    → Agree buffer buffer' n
    → last_offset ends a ≤ n
    → n ≤ length buffer'
    → Spans buffer (a ∷ ends)
    → Spans buffer' (a ∷ ends)
Spans-Agree buffer buffer' n a [] same le inside h =
    (h.0, sym (same (a - 1) (omega (arith, le, h.0))) ∙ h.1)
Spans-Agree buffer buffer' n a (b ∷ ends) same le inside h = (
  IsSpan-Agree buffer buffer' n a b same (omega (arith, le, Spans-le buffer b ends h.1)) inside h.0,
  Spans-Agree buffer buffer' n b ends same le inside h.1,
)

-- Every line starts in the block, and the last one reaches its end.
abbrev pub Owned : ℕ → List ℕ → Type 0
Owned own [] = Unit
Owned own (a ∷ []) = own ≤ a
Owned own (a ∷ b ∷ offsets) = (a < own) × Owned own (b ∷ offsets)

pub Owned-whole :
    (buffer : Bytes) (own a : ℕ) (ends : List ℕ)
    → Spans buffer (a ∷ ends)
    → last_offset ends a ≡ own
    → Owned own (a ∷ ends)
Owned-whole buffer own a [] h e = omega (arith, e)
Owned-whole buffer own a (b ∷ ends) h e =
    (omega (arith, h.0.rises, Spans-le buffer b ends h.1, e), Owned-whole buffer own b ends h.1 e)

pub Owned-append :
    (buffer : Bytes) (own a : ℕ) (ends : List ℕ) (stop : ℕ)
    → Spans buffer (a ∷ ends)
    → last_offset ends a < own
    → own ≤ stop
    → Owned own (a ∷ (ends ++ stop ∷ []))
Owned-append buffer own a [] stop h below le = (below, le)
Owned-append buffer own a (b ∷ ends) stop h below le = (
  omega (arith, h.0.rises, Spans-le buffer b ends h.1, below),
  Owned-append buffer own b ends stop h.1 below le,
)

-- No line ends with a carriage return before its line feed.
abbrev pub Unreturned : Bytes → List ℕ → Type 0
Unreturned buffer [] = Unit
Unreturned buffer (b ∷ ends) = (get_or buffer (b - 2) 0 ≢ carriage_return) × Unreturned buffer ends

pub Unreturned-append :
    (buffer : Bytes) (ends : List ℕ) (stop : ℕ)
    → Unreturned buffer ends
    → get_or buffer (stop - 2) 0 ≢ carriage_return
    → Unreturned buffer (ends ++ stop ∷ [])
Unreturned-append buffer [] stop h last = (last, _)
Unreturned-append buffer (b ∷ ends) stop h last = (h.0, Unreturned-append buffer ends stop h.1 last)

pub Unreturned-Agree :
    (buffer buffer' : Bytes) (n a : ℕ) (ends : List ℕ)
    → Agree buffer buffer' n
    → last_offset ends a ≤ n
    → Spans buffer (a ∷ ends)
    → Unreturned buffer ends
    → Unreturned buffer' ends
Unreturned-Agree buffer buffer' n a [] same le spans h = _
Unreturned-Agree buffer buffer' n a (b ∷ ends) same le spans h = (
  λ e. h.0 (same (b - 2) (omega (arith, le, spans.0.rises, Spans-le buffer b ends spans.1)) ∙ e),
  Unreturned-Agree buffer buffer' n b ends same le spans.1 h.1,
)

line_ends-Unreturned :
    (buffer : Bytes) (position : ℕ) (s : Bytes)
    → 0 < position
    → ((i : ℕ) → i < length s → get_or s i 0 ≡ get_or buffer (position + i) 0)
    → has_crlf (get_or buffer (position - 1) 0) s ≡ false
    → Unreturned buffer (line_ends position s)
unfolding line_ends has_crlf
line_ends-Unreturned buffer position [] pos same h = _
line_ends-Unreturned buffer position (c ∷ cs) pos same h =
    let at_zero : position + 0 ≡ position = omega arith in
    let back : position + 1 - 1 ≡ position = omega arith in
    let back_two : position + 1 - 2 ≡ position - 1 = omega (arith, pos) in
    let first : c ≡ get_or buffer position 0 =
      same 0 (omega arith) ∙ ap (λ k. get_or buffer k 0) at_zero in
    let shift = λ (i : ℕ) (h : i < length cs).
      same (suc i) (omega (arith, h)) ∙ ap (λ k. get_or buffer k 0) (shifted position i) in
    let later : has_crlf (get_or buffer (position + 1 - 1) 0) cs ≡ false =
      rw (back, ← first) (ground (arith, h)) in
    let rest = line_ends-Unreturned buffer (position + 1) cs (omega arith) shift later in
    elim (Bool-cases (c == newline)) [
      | inl feed ↦ rw feed (rw back_two (ground (arith, h, feed)), rest)
      | inr other ↦ rw other rest
    ]
  where
    shifted : (p i : ℕ) → p + suc i ≡ p + 1 + i
    shifted p i = omega arith

-- If the flag is not set, no line of the stretch ends with a carriage return.
pub line_ends-piece-Unreturned :
    (buffer : Bytes) (a stop : ℕ)
    → 0 < a
    → stop ≤ length buffer
    → has_crlf (get_or buffer (a - 1) 0) (piece buffer a stop) ≡ false
    → Unreturned buffer (line_ends a (piece buffer a stop))
line_ends-piece-Unreturned buffer a stop pos inside h =
    let len : length (piece buffer a stop) ≤ stop - a =
      omega (arith, length-take (stop - a) (drop a buffer)) in
    line_ends-Unreturned buffer a (piece buffer a stop) pos
      (λ i lt.
        get_or-take (stop - a) i (drop a buffer) (omega (arith, lt, len)) ∙ get_or-drop a i buffer)
      h

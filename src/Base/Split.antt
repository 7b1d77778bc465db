-- ===== src/Base/Split.antt =====
-- Strings cut at every occurrence of a byte.
use proxykit_go.Base.Tests.{◌==◌, if◌then◌else◌}
use Prim.Native.Nat.{ℕ}
use mathlib.Core.Path.{◌≡◌, refl}
use mathlib.Core.List.{List, [], ◌∷◌, ◌++◌}
use native.Mathlib.Omega.{arith}
use proxykit_go.Base.Bytes.{Bytes}

-- The pieces of `w ++ s`, where `w` has been read and holds no `b`.
unfoldable pub split_onto : ℕ → Bytes → Bytes → List Bytes
split_onto b w [] = w ∷ []
split_onto b w (c ∷ cs) = if c == b then w ∷ split_onto b [] cs else split_onto b (w ++ c ∷ []) cs

abbrev pub split_on : ℕ → Bytes → List Bytes
split_on b = split_onto b []

-- There is always a first piece.
pub split_onto-cons :
    (b : ℕ) (s w : Bytes) → (l : Bytes) × (ls : List Bytes) × (split_onto b w s ≡ l ∷ ls)
unfolding split_onto
split_onto-cons b [] w = (w, [], refl)
split_onto-cons b (c ∷ cs) w =
    let (l, ls, e) = split_onto-cons b cs (w ++ c ∷ []) in
    ((if c == b then w else l), (if c == b then split_onto b [] cs else ls), ground (arith, e))

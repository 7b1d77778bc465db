-- ===== src/Base/Bytes.antt =====
-- Go strings as lists of bytes, and the functions of package strings that the source calls.
use Prim.Native.Nat.{ℕ, zero, suc}
use Prim.Native.Char.{code}
use Prim.Native.String.{String}
use mathlib.Core.Path.{◌≡◌, refl}
use mathlib.Core.Logic.{◌↔◌}
use mathlib.Core.Bool.{Bool, true, false, ◌&&◌, not}
use mathlib.Core.List.{List, [], ◌∷◌, ◌++◌}
use mathlib.Core.Option.{Option, none, some}
use mathlib.Core.Option
use native.Mathlib.Omega.{arith}
use proxykit_go.Base.Tests.{leb, ◌==◌, if◌then◌else◌}
use proxykit_go.Base.Lists.{length, take, drop, all}

abbrev pub Bytes : Type 0
Bytes = List ℕ

-- The bytes of an ASCII literal.
abbrev pub codes : String → Bytes
codes String.[] = []
codes (String.◌∷◌ c s) = code c ∷ codes s

abbrev pub within : ℕ → ℕ → ℕ → Bool
within lo hi c = leb lo c && leb c hi

abbrev pub is_digit : ℕ → Bool
is_digit c = within b'0' b'9' c

-- `a == b` on strings.
unfoldable pub bytes_eq : Bytes → Bytes → Bool
bytes_eq [] [] = true
bytes_eq (x ∷ xs) (y ∷ ys) = x == y && bytes_eq xs ys
bytes_eq _ _ = false

pub bytes_eq_iff : (a b : Bytes) → (bytes_eq a b ≡ true) ↔ (a ≡ b)
unfolding bytes_eq
bytes_eq_iff (x ∷ a) (y ∷ b) = ground (arith, bytes_eq_iff a b)
bytes_eq_iff _ _ = ground arith

-- `strings.IndexByte`; `none` is the result -1.
unfoldable pub index_byte : Bytes → ℕ → Option ℕ
index_byte [] b = none
index_byte (c ∷ cs) b = if c == b then some 0 else Option.map suc (index_byte cs b)

-- `strings.LastIndexByte`
unfoldable pub last_index_byte : Bytes → ℕ → Option ℕ
last_index_byte [] b = none
last_index_byte (c ∷ cs) b = elim (last_index_byte cs b) [
  | some i ↦ some (suc i)
  | none ↦ if c == b then some 0 else none
]

-- `strings.HasPrefix`
unfoldable pub has_prefix : Bytes → Bytes → Bool
has_prefix s [] = true
has_prefix [] (p ∷ ps) = false
has_prefix (c ∷ cs) (p ∷ ps) = c == p && has_prefix cs ps

-- `strings.Index`
unfoldable pub index : Bytes → Bytes → Option ℕ
unfolding has_prefix
index [] pat = if has_prefix [] pat then some 0 else none
index (c ∷ cs) pat = if has_prefix (c ∷ cs) pat then some 0 else Option.map suc (index cs pat)

-- The byte does not occur.
abbrev pub free_of : ℕ → Bytes → Bool
free_of b = all (λ c. not (c == b))

pub index_byte-none_iff : (s : Bytes) (b : ℕ) → (index_byte s b ≡ none) ↔ (free_of b s ≡ true)
unfolding index_byte
index_byte-none_iff [] b = ((λ _. refl), (λ _. refl))
index_byte-none_iff (c ∷ cs) b = let ih = index_byte-none_iff cs b in ground (arith, ih)

-- The first occurrence splits the string.
pub index_byte-some :
    (s : Bytes) (b i : ℕ)
    → index_byte s b ≡ some i
    → (s ≡ take i s ++ b ∷ drop (suc i) s) × (free_of b (take i s) ≡ true)
unfolding index_byte
index_byte-some [] b i h = cc
index_byte-some (c ∷ cs) b zero h = ground (arith, index_byte-none_iff cs b)
index_byte-some (c ∷ cs) b (suc i) h = ground (arith, index_byte-some cs b i)

pub index_byte-append :
    (xs : Bytes) (b : ℕ) (ys : Bytes)
    → free_of b xs ≡ true
    → index_byte (xs ++ b ∷ ys) b ≡ some (length xs)
unfolding index_byte
index_byte-append [] b ys h = ground arith
index_byte-append (x ∷ xs) b ys h = ground (arith, index_byte-append xs b ys)

-- ===== src/Base/Lists.antt =====
-- Lists measured and indexed by native numbers, under the library's names.
use Prim.Native.Nat.{ℕ, zero, suc, ◌+◌, ◌-◌, ◌<◌, min}
use mathlib.Core.Path.{◌≡◌, refl, ap}
use mathlib.Core.Bool.{Bool, true, ◌&&◌}
use mathlib.Core.List.{List, [], ◌∷◌, ◌++◌, map}
use mathlib.Core.Option.{Option, none, some}
use mathlib.Core.Logic.{◌⊎◌, inl, inr}
use native.Mathlib.Omega.{arith}
use native.Mathlib.Numerals.{towards_suc}

module _ {ℓ} {A : Type ℓ} where
  abbrev pub length : List A → ℕ
  length [] = 0
  length (x ∷ xs) = suc (length xs)

  abbrev pub get_elem? : List A → ℕ → Option A
  get_elem? [] i = none
  get_elem? (x ∷ xs) zero = some x
  get_elem? (x ∷ xs) (suc i) = get_elem? xs i

  abbrev pub get_or : List A → ℕ → A → A
  get_or [] i d = d
  get_or (x ∷ xs) zero d = x
  get_or (x ∷ xs) (suc i) d = get_or xs i d

  abbrev pub take : ℕ → List A → List A
  take zero xs = []
  take (suc n) [] = []
  take (suc n) (x ∷ xs) = x ∷ take n xs

  abbrev pub drop : ℕ → List A → List A
  drop zero xs = xs
  drop (suc n) [] = []
  drop (suc n) (x ∷ xs) = drop n xs

  -- Every element passes the test.
  abbrev pub all : (A → Bool) → List A → Bool
  all p [] = true
  all p (x ∷ xs) = p x && all p xs

  abbrev pub All {κ} : (A → Type κ) → List A → Type κ
  All P [] = Unit
  All P (x ∷ xs) = P x × All P xs

module _ {ℓ} {A : Type ℓ} where
  pub length-append : (xs ys : List A) → length (xs ++ ys) ≡ length xs + length ys
  length-append [] ys = omega arith
  length-append (x ∷ xs) ys = omega (arith, length-append xs ys)

  pub take-append-drop : (n : ℕ) (xs : List A) → take n xs ++ drop n xs ≡ xs
  take-append-drop zero xs = refl
  take-append-drop (suc n) [] = refl
  take-append-drop (suc n) (x ∷ xs) = ap (◌∷◌ x) (take-append-drop n xs)

  pub length-take : (n : ℕ) (xs : List A) → length (take n xs) ≡ min n (length xs)
  length-take zero xs = omega arith
  length-take (suc n) [] = omega arith
  length-take (suc n) (x ∷ xs) = omega (arith, length-take n xs)

  pub length-drop : (n : ℕ) (xs : List A) → length (drop n xs) ≡ length xs - n
  length-drop zero xs = omega arith
  length-drop (suc n) [] = omega arith
  length-drop (suc n) (x ∷ xs) = omega (arith, length-drop n xs)

  pub length-map {κ} : {B : Type κ} (f : A → B) (xs : List A) → length (map f xs) ≡ length xs
  length-map f [] = refl
  length-map f (x ∷ xs) = ap suc (length-map f xs)

  pub take-length-append : (xs ys : List A) → take (length xs) (xs ++ ys) ≡ xs
  take-length-append [] ys = refl
  take-length-append (x ∷ xs) ys = ap (◌∷◌ x) (take-length-append xs ys)

  pub drop-length-append : (xs ys : List A) → drop (length xs) (xs ++ ys) ≡ ys
  drop-length-append [] ys = refl
  drop-length-append (x ∷ xs) ys = drop-length-append xs ys

-- Reads and cuts just behind a known prefix.
module _ {ℓ} {A : Type ℓ} where
  pub get_or-append_next :
      (xs : List A) (a b d : A) (ys : List A) → get_or (xs ++ (a ∷ b ∷ ys)) (length xs + 1) d ≡ b
  get_or-append_next [] a b d ys = refl
  get_or-append_next (x ∷ xs) a b d ys =
      simp towards_suc (simp towards_suc at (get_or-append_next xs a b d ys))

  pub drop-append_one :
      (xs : List A) (a : A) (ys : List A) → drop (length xs + 1) (xs ++ a ∷ ys) ≡ ys
  drop-append_one [] a ys = refl
  drop-append_one (x ∷ xs) a ys = simp towards_suc (simp towards_suc at (drop-append_one xs a ys))

  pub drop-append_two :
      (xs : List A) (a b : A) (ys : List A) → drop (length xs + 2) (xs ++ (a ∷ b ∷ ys)) ≡ ys
  drop-append_two [] a b ys = refl
  drop-append_two (x ∷ xs) a b ys =
      simp towards_suc (simp towards_suc at (drop-append_two xs a b ys))

  pub length-concat : (xs : List A) (a : A) → length (xs ++ a ∷ []) ≡ length xs + 1
  length-concat xs a = length-append xs (a ∷ [])

  -- A list is empty, or ends with an element.
  pub concat-cases : (xs : List A) → (xs ≡ []) ⊎ ((ys : List A) × (a : A) × (xs ≡ ys ++ a ∷ []))
  concat-cases [] = inl refl
  concat-cases (x ∷ xs) = elim (concat-cases xs) [
    | inl e ↦ inr ([], x, ap (◌∷◌ x) e)
    | inr (ys, a, e) ↦ inr (x ∷ ys, a, ap (◌∷◌ x) e)
  ]

  pub get_or-concat_last :
      (xs : List A) (a d : A) → get_or (xs ++ a ∷ []) (length (xs ++ a ∷ []) - 1) d ≡ a
  get_or-concat_last xs a d =
      let e : length (xs ++ a ∷ []) - 1 ≡ length xs = omega (arith, length-concat xs a) in
      rw e (at_length xs)
    where
      at_length : (ys : List A) → get_or (ys ++ a ∷ []) (length ys) d ≡ a
      at_length [] = refl
      at_length (y ∷ ys) = at_length ys

  pub take-concat_last :
      (xs : List A) (a : A) → take (length (xs ++ a ∷ []) - 1) (xs ++ a ∷ []) ≡ xs
  take-concat_last xs a =
      let e : length (xs ++ a ∷ []) - 1 ≡ length xs = omega (arith, length-concat xs a) in
      rw e (take-length-append xs (a ∷ []))

  pub drop-get_or :
      (xs : List A) (i : ℕ) (d : A) → i < length xs → drop i xs ≡ get_or xs i d ∷ drop (suc i) xs
  drop-get_or [] i d h = elim h [ ]
  drop-get_or (x ∷ xs) zero d h = refl
  drop-get_or (x ∷ xs) (suc i) d h = drop-get_or xs i d (omega arith)

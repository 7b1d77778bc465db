-- ===== src/Pool/Lines/Shares.antt =====
-- proxypool.go: the lines of a file, shared out to its blocks in any order.
use mathlib.Core.List.{Perm, Perm-prop, Permᴰ, append_assoc, perm_append_comm}
use mathlib.Core.List.Perm
use mathlib.Core.Logic.{∥∥₁_elim}
use mathlib.Core.Path.{subst}
use proxykit_go.Base.{
  ℕ, zero, suc, ◌+◌, ◌-◌, ◌*◌, ◌≤◌, min, List, [], ◌∷◌, ◌++◌, ◌≡◌, refl, ap, ◌∙◌, length,
}
use proxykit_go.Base.Bytes.{Bytes}
use proxykit_go.Base.Indices.{indices}
use proxykit_go.Pool.Lines.Reference.{
  block_lines, blocks_lines, blocks_lines-split_lines, split_lines,
}

-- The lines that start in a block.
abbrev pub share : Bytes → ℕ → ℕ → List Bytes
share content bytes block =
    block_lines content (block * bytes) (min bytes (length content - block * bytes))

-- The lines that start in the blocks of a list.
abbrev pub shares : Bytes → ℕ → List ℕ → List Bytes
shares content bytes [] = []
shares content bytes (b ∷ blocks) = share content bytes b ++ shares content bytes blocks

-- Two shares in the other order.
swapped : (xs ys zs : List Bytes) → Perm (xs ++ (ys ++ zs)) (ys ++ (xs ++ zs))
swapped xs ys zs =
    subst (λ l. Perm l (ys ++ (xs ++ zs))) (append_assoc xs ys zs)
      (subst (λ l. Perm ((xs ++ ys) ++ zs) l) (append_assoc ys xs zs)
        (Perm.append_right zs (perm_append_comm xs ys)))

shares-permᴰ :
    (content : Bytes) (bytes : ℕ) {bs cs : List ℕ}
    → Permᴰ bs cs
    → Perm (shares content bytes bs) (shares content bytes cs)
shares-permᴰ content bytes Permᴰ.nil = Perm.refl []
shares-permᴰ content bytes (Permᴰ.cons {a} {b} {l₁} {l₂} e h) =
    subst (λ b. Perm (shares content bytes (a ∷ l₁)) (shares content bytes (b ∷ l₂))) e
      (Perm.append_left (share content bytes a) (shares-permᴰ content bytes h))
shares-permᴰ content bytes (Permᴰ.swap {a} {b} {a'} {b'} {l} e e') =
    subst (λ c. Perm (shares content bytes (a ∷ b ∷ l)) (shares content bytes (c ∷ b' ∷ l))) e'
      (subst (λ c. Perm (shares content bytes (a ∷ b ∷ l)) (shares content bytes (b ∷ c ∷ l))) e
        (swapped (share content bytes a) (share content bytes b) (shares content bytes l)))
shares-permᴰ content bytes (Permᴰ.trans h h') =
    Perm.trans (shares-permᴰ content bytes h) (shares-permᴰ content bytes h')

-- The order of the blocks is an order of their lines.
shares-perm :
    (content : Bytes) (bytes : ℕ) {bs cs : List ℕ}
    → Perm bs cs
    → Perm (shares content bytes bs) (shares content bytes cs)
shares-perm content bytes h = ∥∥₁_elim h Perm-prop λ h. shares-permᴰ content bytes h

pub shares-indices :
    (content : Bytes) (bytes block n : ℕ)
    → shares content bytes (indices block n) ≡ blocks_lines content bytes block n
shares-indices content bytes block zero = refl
shares-indices content bytes block (suc n) =
    ap (λ t. share content bytes block ++ t) (shares-indices content bytes (block + 1) n)

-- The blocks of a file, in any order, have its lines.
pub shares-split_lines :
    (content : Bytes) (bytes n : ℕ) (blocks : List ℕ)
    → length content ≤ n * bytes
    → Perm blocks (indices 0 n)
    → Perm (shares content bytes blocks) (split_lines [] content)
shares-split_lines content bytes n blocks le order =
    subst (λ l. Perm (shares content bytes blocks) l)
      (shares-indices content bytes 0 n ∙ blocks_lines-split_lines content bytes n le)
      (shares-perm content bytes order)

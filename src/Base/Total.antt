-- ===== src/Base/Total.antt =====
-- The sum of a measure over the elements of a container, after an insertion, an erasure and a move.
use Prim.Native.Nat.{ℕ, ◌+◌}
use mathlib.Core.Path.{◌≡◌, ap}
use mathlib.Core.Bool.{Bool}
use mathlib.Core.List.{List, [], ◌∷◌, ◌++◌}
use mathlib.Core.Option.{some}
use native.Mathlib.Omega.{arith}
use vndn.Base.Keyed.{find, erase}
use vndn.Base.Sorted.{OrderedIndex, insert_at, position, reposition}

module _ {ℓ} {A : Type ℓ} (w : A → ℕ) where
  unfoldable pub total : List A → ℕ
  total [] = 0
  total (x ∷ xs) = w x + total xs

  pub total-append : (xs ys : List A) → total (xs ++ ys) ≡ total xs + total ys
  unfolding total
  total-append [] ys = omega arith
  total-append (x ∷ xs) ys = omega (arith, total-append xs ys)

  pub total-insert_at :
      {le : A → A → Bool} (o : OrderedIndex le) (i : ℕ) (x : A) (l : List A)
      → total (insert_at o i x l) ≡ w x + total l
  unfolding insert_at total
  total-insert_at o i x l = omega (
    arith,
    total-append (o.before i x l) (x ∷ o.after i x l),
    total-append (o.before i x l) (o.after i x l),
    ap total (o.before-append-after i x l),
  )

  module _ {κ} {K : Type κ} (dec : Discrete K) (key : A → K) where
    pub total-erase :
        (k : K) (l : List A) (x : A)
        → find dec key k l ≡ some x
        → w x + total (erase dec key k l) ≡ total l
    unfolding find erase total
    total-erase k [] x e = absurd cc
    total-erase k (y ∷ l) x e = ground (arith, total-erase k l x)

    pub total-reposition :
        {le : A → A → Bool} (o : OrderedIndex le) (k : K) (f : A → A) (l : List A) (x : A)
        → find dec key k l ≡ some x
        → w x + total (reposition o dec key k f l) ≡ w (f x) + total l
    unfolding reposition
    total-reposition o k f l x e =
        let moved = total-insert_at o (position dec key k l) (f x) (erase dec key k l) in
        rw (e, reposition) (omega (arith, moved, total-erase k l x e))

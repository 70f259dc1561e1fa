-- ===== src/Base/Ascending.antt =====
-- A container ordered by a unique number (Boost's `ordered_unique` index on a face's pointer): the
-- list of its elements, their keys ascending.
use Prim.Native.Nat.{ℕ, ◌<◌}
use mathlib.Core.Path.{◌≡◌, sym, subst}
use mathlib.Core.Logic.{◌≢◌, ite, inl, inr}
use mathlib.Core.List.{List, [], ◌∷◌}
use mathlib.Core.Option.{none, some}
use native.Mathlib.Decide.{ℕ_discrete}
use native.Mathlib.Nat.{le_trans, le_of_lt}
use native.Mathlib.Omega.{arith}
use vndn.Base.Tests.{ltb, ◌==◌, if◌then◌else◌, Bool-cases, ltb→lt}
use vndn.Base.Lists.{All, All-map_pred}
use vndn.Base.Keyed.{find, erase, modify, All-erase, All-modify, Distinct}

module _ {ℓ} {A : Type ℓ} (key : A → ℕ) where
  abbrev pub IsAscending : List A → Type 0
  IsAscending [] = Unit {0}
  IsAscending (x ∷ xs) = All (λ y. key x < key y) xs × IsAscending xs

  -- An element whose key is there already is not inserted.
  unfoldable pub insert : A → List A → List A
  insert x [] = x ∷ []
  insert x (y ∷ ys) =
      if ltb (key x) (key y) then x ∷ y ∷ ys else if key x == key y then y ∷ ys else y ∷ insert x ys

  All-insert {μ} : (P : A → Type μ) (x : A) (l : List A) → P x → All P l → All P (insert x l)
  unfolding insert
  All-insert P x [] p h = (p, tt)
  All-insert P x (y ∷ ys) p (q, h) = ground (arith, All-insert P x ys p h)

  pub insert-IsAscending : (x : A) (l : List A) → IsAscending l → IsAscending (insert x l)
  unfolding insert
  insert-IsAscending x [] s = (tt, tt)
  insert-IsAscending x (y ∷ ys) (p, s) = elim (Bool-cases (ltb (key x) (key y))) [
    | inl lt ↦ rw lt (
      (
        ground arith,
        All-map_pred (λ z. key y < key z) (λ z. key x < key z) ys
            (λ z h. le_trans (ltb→lt _ _ lt) (le_of_lt h)) p,
      ),
      (p, s),
    )
    | inr ge ↦ rw ge (elim (Bool-cases (key x == key y)) [
      | inl eq ↦ rw eq (p, s)
      | inr ne ↦
          rw ne (All-insert (λ z. key y < key z) x ys (ground arith) p, insert-IsAscending x ys s)
    ])
  ]

  pub find-insert_self :
      (x : A) (l : List A)
      → find ℕ_discrete key (key x) l ≡ none
      → find ℕ_discrete key (key x) (insert x l) ≡ some x
  unfolding find insert
  find-insert_self x [] h = ground arith
  find-insert_self x (y ∷ ys) h = ground (arith, find-insert_self x ys)

  pub find-insert_ne :
      (j : ℕ) (x : A) (l : List A)
      → j ≢ key x
      → find ℕ_discrete key j (insert x l) ≡ find ℕ_discrete key j l
  unfolding find insert
  find-insert_ne j x [] n = ground arith
  find-insert_ne j x (y ∷ ys) n = ground (arith, find-insert_ne j x ys n)

  pub erase-IsAscending :
      (k : ℕ) (l : List A) → IsAscending l → IsAscending (erase ℕ_discrete key k l)
  unfolding erase
  erase-IsAscending k [] s = tt
  erase-IsAscending k (x ∷ xs) (p, s) =
      elim (ℕ_discrete (key x) k) as (λ d. IsAscending (ite d xs (x ∷ erase ℕ_discrete key k xs))) [
        | yes q ↦ s
        | no q ↦ (All-erase ℕ_discrete key (λ y. key x < key y) k xs p, erase-IsAscending k xs s)
      ]

  pub IsAscending-Distinct : (l : List A) → IsAscending l → Distinct key l
  IsAscending-Distinct [] s = tt
  IsAscending-Distinct (x ∷ xs) (p, s) =
      (All-map_pred _ _ xs (λ y lt e. absurd (omega arith)) p, IsAscending-Distinct xs s)

  pub modify-IsAscending :
      (k : ℕ) (f : A → A) (same : (x : A) → key (f x) ≡ key x) (l : List A)
      → IsAscending l
      → IsAscending (modify ℕ_discrete key k f l)
  unfolding modify
  modify-IsAscending k f same [] s = tt
  modify-IsAscending k f same (x ∷ xs) (p, s) =
      elim (ℕ_discrete (key x) k)
        as (λ d. IsAscending (ite d (f x ∷ xs) (x ∷ modify ℕ_discrete key k f xs))) [
          | yes q ↦ (subst (λ j. All (λ y. j < key y) xs) (sym (same x)) p, s)
          | no q ↦ (
            All-modify ℕ_discrete key k f same (λ y. key x < key y) xs
                (λ y _ lt. subst (λ j. key x < j) (sym (same y)) lt) p,
            modify-IsAscending k f same xs s,
          )
        ]

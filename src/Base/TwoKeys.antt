-- ===== src/Base/TwoKeys.antt =====
-- A container with two unique keys: elements are found and erased by the first, and the second stays
-- unique.
use mathlib.Core.Path.{◌≡◌, refl, sym, subst}
use mathlib.Core.Logic.{◌≢◌, ◌⊎◌, ite, inl, inr}
use mathlib.Core.List.{List, [], ◌∷◌}
use mathlib.Core.Bool.{Bool}
use mathlib.Core.Option.{none, some}
use native.Mathlib.Omega.{arith}
use vndn.Base.Tests.{Option-cases}
use vndn.Base.Keyed.{find, erase, NoKey, Distinct, All-erase, All-find, find-NoKey}
use vndn.Base.Sorted.{OrderedIndex, reposition, Distinct-insert_at}

module _ {ℓ κ μ} {A : Type ℓ} {K : Type κ} {J : Type μ} (dec : Discrete K) (key : A → K)
    (other : A → J) where
  pub Distinct-erase_other :
      (k : K) (l : List A) → Distinct other l → Distinct other (erase dec key k l)
  unfolding erase
  Distinct-erase_other k [] d = tt
  Distinct-erase_other k (x ∷ xs) (p, d) =
      elim (dec (key x) k) as (λ b. Distinct other (ite b xs (x ∷ erase dec key k xs))) [
        | yes q ↦ d
        | no q ↦ (All-erase dec key (λ y. other y ≢ other x) k xs p, Distinct-erase_other k xs d)
      ]

  -- The element that was found leaves its other key free.
  pub NoKey-erase_other :
      (k : K) (l : List A) (x : A)
      → Distinct other l
      → find dec key k l ≡ some x
      → NoKey other (other x) (erase dec key k l)
  unfolding find erase
  NoKey-erase_other k [] x d e = absurd cc
  NoKey-erase_other k (y ∷ l) x (p, d) e =
      elim (dec (key y) k)
          as (λ b.
            ite b (some y) (find dec key k l) ≡ some x
            → NoKey other (other x) (ite b l (y ∷ erase dec key k l))) [
              | yes q ↦ λ f. let s : y ≡ x = cc in subst (λ z. NoKey other (other z) l) s p
              | no q ↦ λ f. (
                (λ r. All-find dec key (λ z. other z ≢ other y) k l x p f (sym r)),
                NoKey-erase_other k l x d f,
              )
            ]
        e

  pub Distinct-reposition_other :
      {le : A → A → Bool} (o : OrderedIndex le) (k : K) (f : A → A) (l : List A)
      (dec_other : Discrete J)
      → ((x : A) → other (f x) ≡ other x)
      → Distinct other l
      → Distinct other (reposition o dec key k f l)
  unfolding reposition
  Distinct-reposition_other o k f l dec_other same d = elim (Option-cases (find dec key k l)) [
    | inl e ↦ rw (e, reposition) d
    | inr (x, e) ↦
        rw (e, reposition)
          (Distinct-insert_at dec_other other o _ (f x) _
            (subst (λ j. NoKey other j (erase dec key k l)) (sym (same x))
              (NoKey-erase_other k l x d e))
            (Distinct-erase_other k l d))
  ]

  -- After an erasure by the first key, the second finds what it found, or nothing.
  pub find-erase_other :
      (dec_other : Discrete J) (k : K) (j : J) (l : List A)
      → Distinct other l
      → (find dec_other other j (erase dec key k l) ≡ none)
        ⊎ (find dec_other other j (erase dec key k l) ≡ find dec_other other j l)
  unfolding find erase
  find-erase_other dec_other k j [] d = inl refl
  find-erase_other dec_other k j (y ∷ l) (p, d) = elim (dec (key y) k) [
    | yes q ↦ elim (dec_other (other y) j) [
      | yes r ↦
          inl (ground (arith, find-NoKey dec_other other j l (subst (λ i. NoKey other i l) r p)))
      | no r ↦ inr (ground arith)
    ]
    | no q ↦ elim (dec_other (other y) j) [
      | yes r ↦ inr (ground arith)
      | no r ↦ elim (find-erase_other dec_other k j l d) [
        | inl e ↦ inl (ground arith)
        | inr e ↦ inr (ground arith)
      ]
    ]
  ]

-- ===== src/Base/Reposition.antt =====
-- What `reposition` keeps: order, keys, and every other element.
use mathlib.Core.Path.{◌≡◌, sym, ◌∙◌, subst}
use mathlib.Core.Bool.{Bool}
use mathlib.Core.Logic.{◌≢◌, inl, inr}
use mathlib.Core.List.{List}
use mathlib.Core.Option
use mathlib.Core.Option.{none, some}
use vndn.Base.Tests.{Option-cases}
use vndn.Base.Lists.{All}
use vndn.Base.Keyed.{
  find, erase, NoKey, Distinct, key-find, All-find, All-erase, NoKey-erase, Distinct-erase,
  find-erase_ne,
}
use vndn.Base.Sorted.{
  OrderedIndex, IsSorted, insert_at, position, reposition, insert_at-IsSorted, All-insert_at,
  IsSorted-erase, find-insert_at_self, find-insert_at_ne, Distinct-insert_at,
}

module _ {ℓ κ} {A : Type ℓ} {K : Type κ} {le : A → A → Bool} (o : OrderedIndex le)
    (dec : Discrete K) (key : A → K) (k : K) (f : A → A) (same : (x : A) → key (f x) ≡ key x) where
  pub reposition-IsSorted : (l : List A) → IsSorted le l → IsSorted le (reposition o dec key k f l)
  unfolding reposition
  reposition-IsSorted l s = elim (Option-cases (find dec key k l)) [
    | inl e ↦ rw (e, reposition) s
    | inr (x, e) ↦
        rw (e, reposition) (insert_at-IsSorted o _ (f x) _ (IsSorted-erase dec key le k l s))
  ]

  pub All-reposition {μ} :
      (P : A → Type μ) (l : List A)
      → ((x : A) → P x → P (f x))
      → All P l
      → All P (reposition o dec key k f l)
  unfolding reposition
  All-reposition P l g h = elim (Option-cases (find dec key k l)) [
    | inl e ↦ rw (e, reposition) h
    | inr (x, e) ↦
        rw (e, reposition)
          (All-insert_at o P _ (f x) _ (g x (All-find dec key P k l x h e))
            (All-erase dec key P k l h))
  ]

  pub All-reposition_found {μ} :
      (P : A → Type μ) (l : List A) (x : A)
      → find dec key k l ≡ some x
      → P (f x)
      → All P l
      → All P (reposition o dec key k f l)
  unfolding reposition
  All-reposition_found P l x e p h =
      rw (e, reposition) (All-insert_at o P _ (f x) _ p (All-erase dec key P k l h))

  moved_key : (l : List A) (x : A) → find dec key k l ≡ some x → key (f x) ≡ k
  moved_key l x e = same x ∙ key-find dec key k l x e

  pub Distinct-reposition :
      (l : List A) → Distinct key l → Distinct key (reposition o dec key k f l)
  unfolding reposition
  Distinct-reposition l d = elim (Option-cases (find dec key k l)) [
    | inl e ↦ rw (e, reposition) d
    | inr (x, e) ↦
        rw (e, reposition)
          (Distinct-insert_at dec key o _ (f x) _
            (subst (λ j. NoKey key j (erase dec key k l)) (sym (moved_key l x e))
              (NoKey-erase dec key k l d))
            (Distinct-erase dec key k l d))
  ]

  pub find-reposition_self :
      (l : List A)
      → Distinct key l
      → find dec key k (reposition o dec key k f l) ≡ Option.map f (find dec key k l)
  unfolding reposition
  find-reposition_self l d = elim (Option-cases (find dec key k l)) [
    | inl e ↦ rw (e, reposition, e)
    | inr (x, e) ↦
        let at_key =
          find-insert_at_self dec key o (position dec key k l) (f x) (erase dec key k l) (
            subst (λ j. NoKey key j (erase dec key k l)) (sym (moved_key l x e))
              (NoKey-erase dec key k l d)) in
        rw (e, reposition)
          (subst
            (λ j.
              find dec key j (insert_at o (position dec key k l) (f x) (erase dec key k l))
              ≡ some (f x))
            (moved_key l x e) at_key)
  ]

  pub find-reposition_ne :
      (j : K) (l : List A) → j ≢ k → find dec key j (reposition o dec key k f l) ≡ find dec key j l
  unfolding reposition
  find-reposition_ne j l n = elim (Option-cases (find dec key k l)) [
    | inl e ↦ rw (e, reposition)
    | inr (x, e) ↦
        rw (e, reposition)
          (find-insert_at_ne dec key o j _ (f x) (erase dec key k l) (λ q. n (q ∙ moved_key l x e))
            ∙ find-erase_ne dec key k j l n)
  ]

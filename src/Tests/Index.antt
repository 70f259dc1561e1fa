-- ===== src/Tests/Index.antt =====
-- An ordered index that puts an element after all equivalent ones, whatever its old place.
use vndn.Base.{
  ◌≡◌, refl, ap, Bool, true, false, List, [], ◌∷◌, ◌++◌, if◌then◌else◌, inl, inr, Bool-cases,
  All-map_pred,
}
use vndn.Base.Sorted.{OrderedIndex, IsSorted, Above, Below}

module _ {A : Type 0} (le : A → A → Bool) (total : (a b : A) → le a b ≡ false → le b a ≡ true)
    (trans : (a b c : A) → le a b ≡ true → le b c ≡ true → le a c ≡ true) where
  unfoldable pub lower : A → List A → List A
  lower x [] = []
  lower x (y ∷ ys) = if le y x then y ∷ lower x ys else []

  unfoldable pub upper : A → List A → List A
  upper x [] = []
  upper x (y ∷ ys) = if le y x then upper x ys else y ∷ ys

  pub joined : (x : A) (l : List A) → lower x l ++ upper x l ≡ l
  unfolding lower upper
  joined x [] = refl
  joined x (y ∷ ys) = elim (Bool-cases (le y x)) [
    | inl yes' ↦ rw (yes', lower, upper) (ap (◌∷◌ y) (joined x ys))
    | inr no' ↦ rw (no', lower, upper) refl
  ]

  pub lower-Below : (x : A) (l : List A) → Below le x (lower x l)
  unfolding lower
  lower-Below x [] = tt
  lower-Below x (y ∷ ys) = elim (Bool-cases (le y x)) [
    | inl yes' ↦ rw (yes', lower) (yes', lower-Below x ys)
    | inr no' ↦ rw (no', lower) tt
  ]

  pub upper-Above : (x : A) (l : List A) → IsSorted le l → Above le x (upper x l)
  unfolding upper
  upper-Above x [] s = tt
  upper-Above x (y ∷ ys) (p, s) = elim (Bool-cases (le y x)) [
    | inl yes' ↦ rw (yes', upper) (upper-Above x ys s)
    | inr no' ↦
        rw (no', upper)
          (
            total y x no',
            All-map_pred (λ z. le y z ≡ true) (λ z. le x z ≡ true) ys
                (λ z h. trans x y z (total y x no') h) p,
          )
  ]

  abbrev pub upper_bound : OrderedIndex le
  upper_bound = record {
    before = λ i x l. lower x l;
    after = λ i x l. upper x l;
    before-append-after = λ i x l. joined x l;
    before-Below = λ i x l s. lower-Below x l;
    after-Above = λ i x l s. upper-Above x l s;
  }

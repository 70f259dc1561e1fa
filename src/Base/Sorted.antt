-- ===== src/Base/Sorted.antt =====
-- An ordered container with equivalent keys (Boost's `ordered_non_unique` index): the list of its
-- elements in the index's order. Boost documents that the elements are in order, and leaves open
-- where an element goes among equivalent ones, so that choice is a parameter.
use Prim.Native.Nat.{ℕ, suc}
use mathlib.Core.Path.{◌≡◌, sym, ap, ◌∙◌, subst}
use mathlib.Core.Bool.{Bool, true}
use mathlib.Core.Option.{none, some}
use mathlib.Core.Logic.{◌≢◌, ite}
use mathlib.Core.List.{List, [], ◌∷◌, ◌++◌}
use native.Mathlib.Omega.{arith}
use vndn.Base.Lists.{All, All-map_pred, All-append, All-append_left, All-append_right}
use vndn.Base.Keyed.{find, erase, modify, All-erase, All-modify, NoKey, Distinct}

module _ {ℓ} {A : Type ℓ} (le : A → A → Bool) where
  abbrev pub Above : A → List A → Type 0
  Above x = All (λ y. le x y ≡ true)

  abbrev pub Below : A → List A → Type 0
  Below x = All (λ y. le y x ≡ true)

  abbrev pub IsSorted : List A → Type 0
  IsSorted [] = Unit {0}
  IsSorted (x ∷ xs) = Above x xs × IsSorted xs

  -- Where the index puts an element: what it leaves before it, and what after it. The number is
  -- the position that the element had, or the end for a new one.
  pub record OrderedIndex : Type ℓ where
    pub before : ℕ → A → List A → List A
    pub after : ℕ → A → List A → List A
    pub before-append-after : (i : ℕ) (x : A) (l : List A) → before i x l ++ after i x l ≡ l
    pub before-Below : (i : ℕ) (x : A) (l : List A) → IsSorted l → Below x (before i x l)
    pub after-Above : (i : ℕ) (x : A) (l : List A) → IsSorted l → Above x (after i x l)

-- Inserts an element into the index.
unfoldable pub insert_at {ℓ} :
    {A : Type ℓ} {le : A → A → Bool} → OrderedIndex le → ℕ → A → List A → List A
insert_at o i x l = o.before i x l ++ (x ∷ o.after i x l)

-- The number of elements before the one with a key.
unfoldable pub position {ℓ κ} : {A : Type ℓ} {K : Type κ} → Discrete K → (A → K) → K → List A → ℕ
position dec key k [] = 0
position dec key k (x ∷ xs) = ite (dec (key x) k) 0 (suc (position dec key k xs))

-- Takes the element with a key out, changes it, and puts it back in its place of the order.
unfoldable pub reposition {ℓ κ} :
    {A : Type ℓ} {K : Type κ} {le : A → A → Bool}
    → OrderedIndex le
    → Discrete K
    → (A → K)
    → K
    → (A → A)
    → List A
    → List A
reposition o dec key k f l = elim (find dec key k l) [
  | none ↦ l
  | some x ↦ insert_at o (position dec key k l) (f x) (erase dec key k l)
]

module _ {ℓ} {A : Type ℓ} {le : A → A → Bool} (o : OrderedIndex le) where
  IsSorted-join :
      (x : A) (xs ys : List A)
      → IsSorted le (xs ++ ys)
      → Below le x xs
      → Above le x ys
      → IsSorted le (xs ++ (x ∷ ys))
  IsSorted-join x [] ys s b a = (a, s)
  IsSorted-join x (y ∷ xs) ys (p, s) (q, b) a = (
    All-append (λ z. le y z ≡ true) xs (x ∷ ys) (All-append_left (λ z. le y z ≡ true) xs ys p)
        (q, All-append_right (λ z. le y z ≡ true) xs ys p),
    IsSorted-join x xs ys s b a,
  )

  pub insert_at-IsSorted :
      (i : ℕ) (x : A) (l : List A) → IsSorted le l → IsSorted le (insert_at o i x l)
  unfolding insert_at
  insert_at-IsSorted i x l s =
      IsSorted-join x (o.before i x l) (o.after i x l)
        (subst (IsSorted le) (sym (o.before-append-after i x l)) s) (o.before-Below i x l s)
        (o.after-Above i x l s)

  pub All-insert_at {μ} :
      (P : A → Type μ) (i : ℕ) (x : A) (l : List A) → P x → All P l → All P (insert_at o i x l)
  unfolding insert_at
  All-insert_at P i x l p h =
      let h' = subst (All P) (sym (o.before-append-after i x l)) h in
      All-append P (o.before i x l) (x ∷ o.after i x l)
        (All-append_left P (o.before i x l) (o.after i x l) h')
        (p, All-append_right P (o.before i x l) (o.after i x l) h')

module _ {ℓ κ} {A : Type ℓ} {K : Type κ} (dec : Discrete K) (key : A → K) where
  pub IsSorted-erase :
      (le : A → A → Bool) (k : K) (l : List A) → IsSorted le l → IsSorted le (erase dec key k l)
  unfolding erase
  IsSorted-erase le k [] s = tt
  IsSorted-erase le k (x ∷ xs) (p, s) =
      elim (dec (key x) k) as (λ d. IsSorted le (ite d xs (x ∷ erase dec key k xs))) [
        | yes q ↦ s
        | no q ↦ (All-erase dec key (λ y. le x y ≡ true) k xs p, IsSorted-erase le k xs s)
      ]

  pub IsSorted-modify :
      (le : A → A → Bool) (k : K) (f : A → A)
      → ((a b : A) → le (f a) b ≡ le a b)
      → ((a b : A) → le a (f b) ≡ le a b)
      → ((a : A) → key (f a) ≡ key a)
      → (l : List A) → IsSorted le l
      → IsSorted le (modify dec key k f l)
  unfolding modify
  IsSorted-modify le k f left right same [] s = tt
  IsSorted-modify le k f left right same (x ∷ xs) (p, s) =
      elim (dec (key x) k) as (λ d. IsSorted le (ite d (f x ∷ xs) (x ∷ modify dec key k f xs))) [
        | yes q ↦ (
          All-map_pred (λ y. le x y ≡ true) (λ y. le (f x) y ≡ true) xs (λ y h. left x y ∙ h) p,
          s,
        )
        | no q ↦ (
          All-modify dec key k f same (λ y. le x y ≡ true) xs (λ y _ h. right x y ∙ h) p,
          IsSorted-modify le k f left right same xs s,
        )
      ]

  find-join_self :
      (x : A) (xs ys : List A)
      → NoKey key (key x) (xs ++ ys)
      → find dec key (key x) (xs ++ (x ∷ ys)) ≡ some x
  unfolding find
  find-join_self x [] ys h = ground arith
  find-join_self x (y ∷ xs) ys (p, h) = ground (arith, find-join_self x xs ys h)

  find-join_ne :
      (j : K) (x : A) (xs ys : List A)
      → j ≢ key x
      → find dec key j (xs ++ (x ∷ ys)) ≡ find dec key j (xs ++ ys)
  unfolding find
  find-join_ne j x [] ys n = ground arith
  find-join_ne j x (y ∷ xs) ys n = ground (arith, find-join_ne j x xs ys n)

  NoKey-join :
      (j : K) (x : A) (xs ys : List A)
      → j ≢ key x
      → NoKey key j (xs ++ ys)
      → NoKey key j (xs ++ (x ∷ ys))
  NoKey-join j x xs ys n h =
      All-append (λ y. key y ≢ j) xs (x ∷ ys) (All-append_left (λ y. key y ≢ j) xs ys h)
        (λ e. n (sym e), All-append_right (λ y. key y ≢ j) xs ys h)

  Distinct-join :
      (x : A) (xs ys : List A)
      → NoKey key (key x) (xs ++ ys)
      → Distinct key (xs ++ ys)
      → Distinct key (xs ++ (x ∷ ys))
  Distinct-join x [] ys n d = (n, d)
  Distinct-join x (y ∷ xs) ys (m, n) (p, d) =
      (NoKey-join (key y) x xs ys m p, Distinct-join x xs ys n d)

  module _ {le : A → A → Bool} (o : OrderedIndex le) where
    pub find-insert_at_self :
        (i : ℕ) (x : A) (l : List A)
        → NoKey key (key x) l
        → find dec key (key x) (insert_at o i x l) ≡ some x
    unfolding insert_at
    find-insert_at_self i x l h =
        find-join_self x (o.before i x l) (o.after i x l)
          (subst (NoKey key (key x)) (sym (o.before-append-after i x l)) h)

    pub find-insert_at_ne :
        (j : K) (i : ℕ) (x : A) (l : List A)
        → j ≢ key x
        → find dec key j (insert_at o i x l) ≡ find dec key j l
    unfolding insert_at
    find-insert_at_ne j i x l n =
        find-join_ne j x (o.before i x l) (o.after i x l) n
        ∙ ap (find dec key j) (o.before-append-after i x l)

    pub Distinct-insert_at :
        (i : ℕ) (x : A) (l : List A)
        → NoKey key (key x) l
        → Distinct key l
        → Distinct key (insert_at o i x l)
    unfolding insert_at
    Distinct-insert_at i x l n d =
        Distinct-join x (o.before i x l) (o.after i x l)
          (subst (NoKey key (key x)) (sym (o.before-append-after i x l)) n)
          (subst (Distinct key) (sym (o.before-append-after i x l)) d)

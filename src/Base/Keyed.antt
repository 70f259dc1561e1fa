-- ===== src/Base/Keyed.antt =====
-- Containers with a unique key: a list of records, found, erased and modified by key.
use mathlib.Core.Path.{◌≡◌, refl, sym, ◌∙◌, subst}
use mathlib.Core.Logic.{◌≢◌, ite}
use mathlib.Core.List.{List, [], ◌∷◌, ◌++◌, map}
use mathlib.Core.Option
use mathlib.Core.Option.{Option, none, some}
use native.Mathlib.Omega.{arith}
use vndn.Base.Lists.{All, All-zip_with, All-append}

module _ {ℓ κ} {K : Type κ} {A : Type ℓ} (dec : Discrete K) (key : A → K) where
  unfoldable pub find : K → List A → Option A
  find k [] = none
  find k (x ∷ xs) = ite (dec (key x) k) (some x) (find k xs)

  unfoldable pub erase : K → List A → List A
  erase k [] = []
  erase k (x ∷ xs) = ite (dec (key x) k) xs (x ∷ erase k xs)

  unfoldable pub modify : K → (A → A) → List A → List A
  modify k f [] = []
  modify k f (x ∷ xs) = ite (dec (key x) k) (f x ∷ xs) (x ∷ modify k f xs)

module _ {ℓ κ} {K : Type κ} {A : Type ℓ} (key : A → K) where
  abbrev pub NoKey : K → List A → Type κ
  NoKey k = All (λ x. key x ≢ k)

  abbrev pub Distinct : List A → Type κ
  Distinct [] = Unit {κ}
  Distinct (x ∷ xs) = NoKey (key x) xs × Distinct xs

module _ {ℓ κ} {K : Type κ} {A : Type ℓ} (dec : Discrete K) (key : A → K) where
  pub key-find : (k : K) (xs : List A) (x : A) → find dec key k xs ≡ some x → key x ≡ k
  unfolding find
  key-find k [] x h = cc
  key-find k (y ∷ ys) x h = ground (arith, key-find k ys x)

  pub find-eq-none : (k : K) (xs : List A) → find dec key k xs ≡ none → NoKey key k xs
  unfolding find
  find-eq-none k [] h = tt
  find-eq-none k (x ∷ xs) h = (ground arith, find-eq-none k xs (ground arith))

  pub find-NoKey : (k : K) (xs : List A) → NoKey key k xs → find dec key k xs ≡ none
  unfolding find
  find-NoKey k [] h = refl
  find-NoKey k (x ∷ xs) (p, h) = ground (arith, find-NoKey k xs h)

  pub All-find {μ} :
      (P : A → Type μ) (k : K) (xs : List A) (x : A) → All P xs → find dec key k xs ≡ some x → P x
  unfolding find
  All-find P k [] x h e = cc
  All-find P k (y ∷ ys) x (p, h) e = elim (dec (key y) k) [
    | yes q ↦ let z : y ≡ x = ground arith in subst P z p
    | no q ↦ All-find P k ys x h (ground arith)
  ]

  pub All-erase {μ} : (P : A → Type μ) (k : K) (xs : List A) → All P xs → All P (erase dec key k xs)
  unfolding erase
  All-erase P k [] h = tt
  All-erase P k (x ∷ xs) (p, h) =
      elim (dec (key x) k) as (λ d. All P (ite d xs (x ∷ erase dec key k xs))) [
        | yes q ↦ h
        | no q ↦ (p, All-erase P k xs h)
      ]

  pub Distinct-erase : (k : K) (xs : List A) → Distinct key xs → Distinct key (erase dec key k xs)
  unfolding erase
  Distinct-erase k [] h = tt
  Distinct-erase k (x ∷ xs) (p, h) =
      elim (dec (key x) k) as (λ d. Distinct key (ite d xs (x ∷ erase dec key k xs))) [
        | yes q ↦ h
        | no q ↦ (All-erase (λ y. key y ≢ key x) k xs p, Distinct-erase k xs h)
      ]

  -- Where the keys are distinct, the erased key is gone.
  pub NoKey-erase : (k : K) (xs : List A) → Distinct key xs → NoKey key k (erase dec key k xs)
  unfolding erase
  NoKey-erase k [] h = tt
  NoKey-erase k (x ∷ xs) (p, h) =
      elim (dec (key x) k) as (λ d. NoKey key k (ite d xs (x ∷ erase dec key k xs))) [
        | yes q ↦ subst (λ j. NoKey key j xs) q p
        | no q ↦ (q, NoKey-erase k xs h)
      ]

  pub find-erase_self :
      (k : K) (xs : List A) → Distinct key xs → find dec key k (erase dec key k xs) ≡ none
  find-erase_self k xs h = find-NoKey k _ (NoKey-erase k xs h)

  pub find-erase_ne :
      (k j : K) (xs : List A) → j ≢ k → find dec key j (erase dec key k xs) ≡ find dec key j xs
  unfolding find erase
  find-erase_ne k j [] n = refl
  find-erase_ne k j (x ∷ xs) n = ground (arith, find-erase_ne k j xs n)

  module _ (k : K) (f : A → A) (same : (x : A) → key (f x) ≡ key x) where
    pub All-modify {μ} :
        (P : A → Type μ) (xs : List A)
        → ((x : A) → key x ≡ k → P x → P (f x))
        → All P xs
        → All P (modify dec key k f xs)
    unfolding modify
    All-modify P [] g h = tt
    All-modify P (x ∷ xs) g (p, h) =
        elim (dec (key x) k) as (λ d. All P (ite d (f x ∷ xs) (x ∷ modify dec key k f xs))) [
          | yes q ↦ (g x q p, h)
          | no q ↦ (p, All-modify P xs g h)
        ]

    pub Distinct-modify : (xs : List A) → Distinct key xs → Distinct key (modify dec key k f xs)
    unfolding modify
    Distinct-modify [] h = tt
    Distinct-modify (x ∷ xs) (p, h) =
        elim (dec (key x) k) as (λ d. Distinct key (ite d (f x ∷ xs) (x ∷ modify dec key k f xs))) [
          | yes q ↦ (subst (λ j. NoKey key j xs) (sym (same x)) p, h)
          | no q ↦ (
            All-modify (λ y. key y ≢ key x) xs (λ y _ n e. n (sym (same y) ∙ e)) p,
            Distinct-modify xs h,
          )
        ]

    pub find-modify_self :
        (xs : List A) → find dec key k (modify dec key k f xs) ≡ Option.map f (find dec key k xs)
    unfolding find modify
    find-modify_self [] = refl
    find-modify_self (x ∷ xs) = ground (arith, find-modify_self xs, same x)

    pub find-modify_ne :
        (j : K) (xs : List A) → j ≢ k → find dec key j (modify dec key k f xs) ≡ find dec key j xs
    unfolding find modify
    find-modify_ne j [] n = refl
    find-modify_ne j (x ∷ xs) n = ground (arith, find-modify_ne j xs n, same x)

    pub map-key-modify : (xs : List A) → map key (modify dec key k f xs) ≡ map key xs
    unfolding modify
    map-key-modify [] = refl
    map-key-modify (x ∷ xs) = ground (arith, map-key-modify xs, same x)

  -- Where the keys are distinct, each element is the one that its key finds.
  pub find-key : (xs : List A) → Distinct key xs → All (λ x. find dec key (key x) xs ≡ some x) xs
  unfolding find
  find-key [] d = tt
  find-key (x ∷ xs) (p, d) = (
    ground arith,
    All-zip_with (λ y. key y ≢ key x) (λ y. find dec key (key y) xs ≡ some y)
        (λ y. ite (dec (key x) (key y)) (some x) (find dec key (key y) xs) ≡ some y) xs
        (λ y n e. ground arith) p (find-key xs d),
  )

  pub find-append_one :
      (j : K) (xs : List A) (x : A)
      → find dec key j xs ≡ none
      → find dec key j (xs ++ (x ∷ [])) ≡ ite (dec (key x) j) (some x) none
  unfolding find
  find-append_one j [] x h = refl
  find-append_one j (y ∷ ys) x h = ground (arith, find-append_one j ys x)

  pub find-append_some :
      (j : K) (xs : List A) (x y : A)
      → find dec key j xs ≡ some y
      → find dec key j (xs ++ (x ∷ [])) ≡ some y
  unfolding find
  find-append_some j [] x y h = cc
  find-append_some j (z ∷ zs) x y h = ground (arith, find-append_some j zs x y)

  pub Distinct-append_one :
      (xs : List A) (x : A) → NoKey key (key x) xs → Distinct key xs → Distinct key (xs ++ (x ∷ []))
  Distinct-append_one [] x n d = (tt, tt)
  Distinct-append_one (y ∷ ys) x (n, ns) (p, d) = (
    All-append (λ z. key z ≢ key y) ys (x ∷ []) p ((λ e. n (sym e)), tt),
    Distinct-append_one ys x ns d,
  )

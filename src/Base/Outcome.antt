-- ===== src/Base/Outcome.antt =====
-- How a handler ends.
use mathlib.Core.Path.{◌≡◌, refl}
use mathlib.Core.Bool.{Bool, true, false}
use mathlib.Core.Option.{Option, none, some}
use vndn.Base.Tests.{if◌then◌else◌}

-- A handler ends in a state, or in an exception that nothing catches, or in undefined behaviour,
-- such as the use of a reference to an erased entry.
pub data Outcome {ℓ} (A : Type ℓ) : Type ℓ where
  done : A → Outcome A
  raised : Outcome A
  undefined : Outcome A

infixl 5 ◌>>=◌
abbrev pub ◌>>=◌ {ℓ κ} : {A : Type ℓ} {B : Type κ} → Outcome A → (A → Outcome B) → Outcome B
done a >>= f = f a
raised >>= f = raised
undefined >>= f = undefined

-- A pointer or a reference that is followed.
abbrev pub deref {ℓ} : {A : Type ℓ} → Option A → Outcome A
deref none = undefined
deref (some a) = done a

-- The handler ends, with no exception and no undefined behaviour, and what it ends in has the
-- property.
abbrev pub Ends : {A : Type 0} → (A → Type 0) → Outcome A → Type 0
Ends P (done a) = P a
Ends P raised = ⊥
Ends P undefined = ⊥

pub Ends-bind :
    {A B : Type 0} (P : A → Type 0) (Q : B → Type 0) (m : Outcome A) (f : A → Outcome B)
    → Ends P m
    → ((a : A) → P a → Ends Q (f a))
    → Ends Q (m >>= f)
Ends-bind P Q (done a) f h k = k a h
Ends-bind P Q raised f h k = absurd h
Ends-bind P Q undefined f h k = absurd h

pub Ends-done :
    {A : Type 0} (P : A → Type 0) (m : Outcome A) → Ends P m → (a : A) × (m ≡ done a) × P a
Ends-done P (done a) h = (a, refl, h)
Ends-done P raised h = absurd h
Ends-done P undefined h = absurd h

pub Ends-map :
    {A : Type 0} (P Q : A → Type 0) (m : Outcome A) → ((a : A) → P a → Q a) → Ends P m → Ends Q m
Ends-map P Q (done a) f h = f a h
Ends-map P Q raised f h = absurd h
Ends-map P Q undefined f h = absurd h

pub Ends-both :
    {A : Type 0} (P Q : A → Type 0) (m : Outcome A) → Ends P m → Ends Q m → Ends (λ a. P a × Q a) m
Ends-both P Q (done a) h k = (h, k)
Ends-both P Q raised h k = absurd h
Ends-both P Q undefined h k = absurd h

-- The two cases of a test and of a lookup.
pub Ends-if :
    {A : Type 0} (P : A → Type 0) (b : Bool) (m n : Outcome A)
    → Ends P m
    → Ends P n
    → Ends P (if b then m else n)
Ends-if P false m n h k = k
Ends-if P true m n h k = h

pub Ends-option :
    {A B : Type 0} (P : B → Type 0) (o : Option A) (m : Outcome B) (f : A → Outcome B)
    → Ends P m
    → ((a : A) → o ≡ some a → Ends P (f a))
    → Ends P (elim o [ none ↦ m | some a ↦ f a ])
Ends-option P none m f h k = h
Ends-option P (some a) m f h k = k a refl

-- If the handler ends in a state, what it ends in has the property.
abbrev pub IfEnds : {A : Type 0} → (A → Type 0) → Outcome A → Type 0
IfEnds P (done a) = P a
IfEnds P raised = Unit
IfEnds P undefined = Unit

pub IfEnds-any : {A : Type 0} (m : Outcome A) → IfEnds (λ (a : A). Unit {0}) m
IfEnds-any (done a) = tt
IfEnds-any raised = tt
IfEnds-any undefined = tt

pub IfEnds-bind :
    {A B : Type 0} (P : A → Type 0) (Q : B → Type 0) (m : Outcome A) (f : A → Outcome B)
    → IfEnds P m
    → ((a : A) → P a → IfEnds Q (f a))
    → IfEnds Q (m >>= f)
IfEnds-bind P Q (done a) f h k = k a h
IfEnds-bind P Q raised f h k = tt
IfEnds-bind P Q undefined f h k = tt

pub IfEnds-map :
    {A : Type 0} (P Q : A → Type 0) (m : Outcome A)
    → ((a : A) → P a → Q a)
    → IfEnds P m
    → IfEnds Q m
IfEnds-map P Q (done a) f h = f a h
IfEnds-map P Q raised f h = tt
IfEnds-map P Q undefined f h = tt

pub IfEnds-if :
    {A : Type 0} (P : A → Type 0) (b : Bool) (m n : Outcome A)
    → IfEnds P m
    → IfEnds P n
    → IfEnds P (if b then m else n)
IfEnds-if P false m n h k = k
IfEnds-if P true m n h k = h

pub IfEnds-option :
    {A B : Type 0} (P : B → Type 0) (o : Option A) (m : Outcome B) (f : A → Outcome B)
    → IfEnds P m
    → ((a : A) → IfEnds P (f a))
    → IfEnds P (elim o [ none ↦ m | some a ↦ f a ])
IfEnds-option P none m f h k = h
IfEnds-option P (some a) m f h k = k a

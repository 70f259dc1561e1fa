-- ===== src/CcnbParser/Within.antt =====
-- Postconditions of the parser (helper/ccnb-parser/syntax-tree).
use vndn.Base.{ℕ, ◌≤◌, ◌≡◌, refl, Bool, true, false, List, length, if◌then◌else◌}
use vndn.CcnbParser.{Parse, parsed, raised, undefined, unfinished, ◌>>=◌}

-- The fuel was enough, and what parsing ends in has the property.
abbrev pub Within : {A : Type 0} → (A → Type 0) → Parse A → Type 0
Within P (parsed a) = P a
Within P raised = Unit
Within P undefined = Unit
Within P unfinished = ⊥

pub Within-bind :
    {A B : Type 0} (P : A → Type 0) (Q : B → Type 0) (m : Parse A) (f : A → Parse B)
    → Within P m
    → ((a : A) → P a → Within Q (f a))
    → Within Q (m >>= f)
Within-bind P Q (parsed a) f h k = k a h
Within-bind P Q raised f h k = tt
Within-bind P Q undefined f h k = tt
Within-bind P Q unfinished f h k = absurd h

pub Within-if :
    {A : Type 0} (P : A → Type 0) (b : Bool) (m n : Parse A)
    → Within P m
    → Within P n
    → Within P (if b then m else n)
Within-if P false m n h k = k
Within-if P true m n h k = h

pub Within-elim :
    {A : Type 0} (P : A → Type 0) (b : Bool) (m n : Parse A)
    → (b ≡ true → Within P m)
    → (b ≡ false → Within P n)
    → Within P (elim b [ true ↦ m | false ↦ n ])
Within-elim P false m n h k = k refl
Within-elim P true m n h k = h refl

pub Within-map :
    {A : Type 0} (P Q : A → Type 0) (m : Parse A) → ((a : A) → P a → Q a) → Within P m → Within Q m
Within-map P Q (parsed a) f h = f a h
Within-map P Q raised f h = tt
Within-map P Q undefined f h = tt
Within-map P Q unfinished f h = absurd h

-- At most so many bytes are left.
abbrev pub Left : {A : Type 0} → ℕ → A × List ℕ → Type 0
Left n r = length r.1 ≤ n

-- ===== src/Name/Compare.antt =====
-- `operator==` of NameComponents decides equality; `operator<` is a strict order.
use vndn.Base.{◌≡◌, refl, ◌↔◌, inl, inr, true, [], ◌∷◌, length, Bool-cases, arith, subst}
use vndn.Name.{Component, Name, equal_bytes, equal_components, name_eq}

equal_bytes_sound : (a b : Component) → equal_bytes a b ≡ true → a ≡ b
unfolding equal_bytes
equal_bytes_sound [] [] h = refl
equal_bytes_sound (x ∷ a) (y ∷ b) h = ground (arith, equal_bytes_sound a b)
equal_bytes_sound [] (y ∷ b) h = cc
equal_bytes_sound (x ∷ a) [] h = cc

equal_bytes_refl : (a : Component) → equal_bytes a a ≡ true
unfolding equal_bytes
equal_bytes_refl [] = refl
equal_bytes_refl (x ∷ a) = ground (arith, equal_bytes_refl a)

equal_components_sound : (p q : Name) → length p ≡ length q → equal_components p q ≡ true → p ≡ q
unfolding equal_components
equal_components_sound [] [] n h = refl
equal_components_sound (x ∷ p) (y ∷ q) n h =
    ground (arith, equal_components_sound p q, equal_bytes_sound x y)
equal_components_sound [] (y ∷ q) n h = absurd (omega arith)
equal_components_sound (x ∷ p) [] n h = cc

equal_components_refl : (p : Name) → equal_components p p ≡ true
unfolding equal_components
equal_components_refl [] = refl
equal_components_refl (c ∷ p) = ground (arith, equal_bytes_refl c, equal_components_refl p)

-- `operator==` answers true exactly on equal names.
pub name_eq_iff : (p q : Name) → (name_eq p q ≡ true) ↔ (p ≡ q)
unfolding name_eq
name_eq_iff p q = (
  λ h. ground (arith, equal_components_sound p q),
  λ e. subst (λ r. name_eq p r ≡ true) e (ground (arith, equal_components_refl p)),
)

-- Equality of names, decided by `operator==`: what the hashed indices use to find a prefix.
unfoldable pub Name-discrete : Discrete Name
Name-discrete p q = elim (Bool-cases (name_eq p q)) [
  | inl e ↦ yes ((name_eq_iff p q).0 e)
  | inr e ↦ no (λ h. cc ((name_eq_iff p q).1 h))
]

-- `operator==` on two strings answers true exactly on equal ones.
pub equal_bytes_iff : (a b : Component) → (equal_bytes a b ≡ true) ↔ (a ≡ b)
equal_bytes_iff a b =
    (equal_bytes_sound a b, λ h. subst (λ c. equal_bytes a c ≡ true) h (equal_bytes_refl a))

-- Equality of components, decided by the `operator==` of strings: what the trie finds a child by.
unfoldable pub Component-discrete : Discrete Component
Component-discrete a b = elim (Bool-cases (equal_bytes a b)) [
  | inl e ↦ yes ((equal_bytes_iff a b).0 e)
  | inr e ↦ no (λ h. cc ((equal_bytes_iff a b).1 h))
]

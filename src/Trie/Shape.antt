-- ===== src/Trie/Shape.antt =====
-- The shape that insert and erase of utils/trie.h keep: no node has two children of one key, and
-- no child is bare, so that each branch ends in a payload.
use vndn.Base.{
  ◌≡◌, refl, sym, ◌∙◌, false, Option, none, some, arith, ite, subst, inl, inr, Option-cases, [],
  ◌∷◌,
}
use vndn.Name.{Component, Name}
use vndn.Name.Compare.{Component-discrete}
use vndn.Trie.{
  Trie, node, Children, no_child, child, new_node, child_at, put, remove, child_or_new, insert,
  is_bare, prune, empty_payload, erase,
}
use vndn.Trie.ChildMap.{
  child_at-put_self, child_at-put_ne, child_at-remove_ne, child_or_new-some, child_or_new-none,
}

unfoldable mutual
  pub IsShaped {ℓ} : {A : Type ℓ} → Trie A → Type ℓ
  IsShaped (node p cs) = AreShaped cs

  pub AreShaped {ℓ} : {A : Type ℓ} → Children A → Type ℓ
  AreShaped no_child = Unit
  AreShaped (child k t cs) =
      (child_at k cs ≡ none) × (is_bare t ≡ false) × IsShaped t × AreShaped cs

module _ {ℓ} {A : Type ℓ} where
  pub child_at-IsShaped :
      (k : Component) (cs : Children A) (t : Trie A)
      → AreShaped cs
      → child_at k cs ≡ some t
      → (is_bare t ≡ false) × IsShaped t
  unfolding child_at AreShaped
  child_at-IsShaped k no_child t h e = cc
  child_at-IsShaped k (child j u cs) t (n, b, s, h) e = elim (Component-discrete j k) [
    | yes q ↦
        let same : u ≡ t = ground arith in
        (subst (λ v. is_bare v ≡ false) same b, subst (λ v. IsShaped v) same s)
    | no q ↦ child_at-IsShaped k cs t h (ground arith)
  ]

  pub put-AreShaped :
      (k : Component) (t : Trie A) (cs : Children A)
      → is_bare t ≡ false
      → IsShaped t
      → AreShaped cs
      → AreShaped (put k t cs)
  unfolding put child_at AreShaped
  put-AreShaped k t no_child b s h = (refl, b, s, tt)
  put-AreShaped k t (child j u cs) b s (n, b', s', h) =
      elim (Component-discrete j k)
        as (λ d. AreShaped (ite d (child j t cs) (child j u (put k t cs)))) [
          | yes q ↦ (n, b, s, h)
          | no q ↦ (child_at-put_ne k j t cs q ∙ n, b', s', put-AreShaped k t cs b s h)
        ]

  pub remove-AreShaped : (k : Component) (cs : Children A) → AreShaped cs → AreShaped (remove k cs)
  unfolding remove AreShaped
  remove-AreShaped k no_child h = tt
  remove-AreShaped k (child j u cs) (n, b', s', h) =
      elim (Component-discrete j k) as (λ d. AreShaped (ite d cs (child j u (remove k cs)))) [
        | yes q ↦ h
        | no q ↦ (child_at-remove_ne k j cs q ∙ n, b', s', remove-AreShaped k cs h)
      ]

  pub Distinct-AreShaped : (cs : Children A) → AreShaped cs → vndn.Trie.ChildMap.Distinct cs
  unfolding AreShaped
  Distinct-AreShaped no_child h = tt
  Distinct-AreShaped (child k t cs) (n, b, s, h) = (n, Distinct-AreShaped cs h)

  child_or_new-IsShaped :
      (k : Component) (cs : Children A) → AreShaped cs → IsShaped (child_or_new k cs)
  unfolding IsShaped AreShaped
  child_or_new-IsShaped k cs h = elim (Option-cases (child_at k cs)) [
    | inl e ↦ subst IsShaped (sym (child_or_new-none k cs e)) tt
    | inr (t, e) ↦
        subst IsShaped (sym (child_or_new-some k cs t e)) (child_at-IsShaped k cs t h e).1
  ]

  is_bare-put :
      (p : Option A) (k : Component) (t : Trie A) (cs : Children A)
      → is_bare (node p (put k t cs)) ≡ false
  unfolding is_bare put
  is_bare-put (some x) k t cs = refl
  is_bare-put none k t no_child = refl
  is_bare-put none k t (child j u cs) =
      elim (Component-discrete j k)
        as (λ d. is_bare (node none (ite d (child j t cs) (child j u (put k t cs)))) ≡ false) [
          | yes q ↦ refl
          | no q ↦ refl
        ]

  -- `insert` keeps the shape, and the trie has a payload afterwards.
  pub insert-IsShaped :
      (key : Name) (x : A) (t : Trie A)
      → IsShaped t
      → (is_bare (insert key x t).0 ≡ false) × IsShaped (insert key x t).0
  unfolding insert IsShaped is_bare
  insert-IsShaped [] x (node none cs) h = (refl, h)
  insert-IsShaped [] x (node (some y) cs) h = (refl, h)
  insert-IsShaped (k ∷ ks) x (node p cs) h =
      let r = insert-IsShaped ks x (child_or_new k cs) (child_or_new-IsShaped k cs h) in
      (is_bare-put p k _ cs, put-AreShaped k _ cs r.0 r.1 h)

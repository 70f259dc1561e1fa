-- ===== src/Trie/Erase.antt =====
-- `erase` of utils/trie.h: it keeps the trie's shape, empties the payload of its path, and no other.
use vndn.Base.{
  ◌≡◌, ◌≢◌, refl, sym, ◌∙◌, ap, Bool, true, false, Option, none, some, subst, inl, inr,
  Option-cases, [], ◌∷◌, if◌then◌else◌,
}
use vndn.Name.{Component, Name}
use vndn.Name.Compare.{Component-discrete}
use vndn.Trie.{
  Trie, node, Children, no_child, child, child_at, put, remove, is_bare, prune, empty_payload,
  erase, payload,
}
use vndn.Trie.Map.{payload-put_self, payload-put_ne, payload-child_absent, payload-child_present}
use vndn.Trie.ChildMap.{
  child_at-put_self, child_at-remove_ne, child_at-remove_self, remove-put, put-put,
}
use vndn.Trie.Shape.{
  IsShaped, AreShaped, child_at-IsShaped, put-AreShaped, remove-AreShaped, Distinct-AreShaped,
}

module _ {ℓ} {A : Type ℓ} where
  -- One step of `erase`: the child is erased from, and taken out if it is bare then.
  erase-absent :
      (k : Component) (ks : Name) (p : Option A) (cs : Children A)
      → child_at k cs ≡ none
      → erase (k ∷ ks) (node p cs) ≡ node p cs
  unfolding erase empty_payload prune is_bare
  erase-absent k ks p cs e = rw (e, empty_payload) (rw (e, prune) refl)

  erase-present :
      (k : Component) (ks : Name) (p : Option A) (cs : Children A) (t : Trie A)
      → child_at k cs ≡ some t
      → erase (k ∷ ks) (node p cs)
        ≡ (if is_bare (erase ks t) then node p (remove k cs) else node p (put k (erase ks t) cs))
  unfolding erase empty_payload prune is_bare
  erase-present k ks p cs t e =
      rw (e, empty_payload)
        (rw (child_at-put_self k (empty_payload ks t) cs, prune)
          (rw
            (
              put-put k (prune ks (empty_payload ks t)) (empty_payload ks t) cs,
              remove-put k (empty_payload ks t) cs (λ n. cc),
            )
            refl))

  bare-AreShaped :
      (p : Option A) (cs : Children A) (h : AreShaped cs) (b : Bool) (k : Component) (t : Trie A)
      → is_bare t ≡ b
      → IsShaped t
      → IsShaped (if b then node p (remove k cs) else node p (put k t cs))
  unfolding IsShaped
  bare-AreShaped p cs h true k t e s = remove-AreShaped k cs h
  bare-AreShaped p cs h false k t e s = put-AreShaped k t cs e s h

  pub erase-IsShaped : (key : Name) (t : Trie A) → IsShaped t → IsShaped (erase key t)
  unfolding IsShaped
  erase-IsShaped [] (node p cs) h = unfold erase prune empty_payload in h
  erase-IsShaped (k ∷ ks) (node p cs) h = elim (Option-cases (child_at k cs)) [
    | inl e ↦ subst IsShaped (sym (erase-absent k ks p cs e)) h
    | inr (t, e) ↦ subst IsShaped (sym (erase-present k ks p cs t e)) (
        bare-AreShaped p cs h _ k (erase ks t) refl
          (erase-IsShaped ks t (child_at-IsShaped k cs t h e).1))
  ]

  pub payload-bare : (key : Name) (t : Trie A) → is_bare t ≡ true → payload key t ≡ none
  unfolding payload is_bare child_at
  payload-bare [] (node none no_child) b = refl
  payload-bare (k ∷ ks) (node none no_child) b = refl
  payload-bare key (node (some x) cs) b = cc
  payload-bare key (node none (child j u cs)) b = cc

  -- What a path through the child reads after that step, whether the child is taken out or not.
  payload-through :
      (k : Component) (js : Name) (p : Option A) (cs : Children A) (t : Trie A) (b : Bool)
      → is_bare t ≡ b
      → AreShaped cs
      → payload (k ∷ js) (if b then node p (remove k cs) else node p (put k t cs)) ≡ payload js t
  payload-through k js p cs t true e h =
      payload-child_absent k js p (remove k cs)
        (child_at-remove_self k cs (Distinct-AreShaped cs h))
      ∙ sym (payload-bare js t e)
  payload-through k js p cs t false e h = payload-put_self k js p t cs

  payload-beside :
      (k j : Component) (js : Name) (p : Option A) (cs : Children A) (t : Trie A) (b : Bool)
      → j ≢ k
      → payload (j ∷ js) (if b then node p (remove k cs) else node p (put k t cs))
        ≡ payload (j ∷ js) (node p cs)
  unfolding payload
  payload-beside k j js p cs t true n = rw (child_at-remove_ne k j cs n, payload) refl
  payload-beside k j js p cs t false n = payload-put_ne k j js p t cs n

  payload-above :
      (k : Component) (p : Option A) (cs : Children A) (t : Trie A) (b : Bool)
      → payload [] (if b then node p (remove k cs) else node p (put k t cs)) ≡ p
  unfolding payload
  payload-above k p cs t true = refl
  payload-above k p cs t false = refl

  pub payload-erase_self : (key : Name) (t : Trie A) → IsShaped t → payload key (erase key t) ≡ none
  payload-erase_self [] (node p cs) h = unfold erase prune empty_payload payload in refl
  payload-erase_self (k ∷ ks) (node p cs) h = elim (Option-cases (child_at k cs)) [
    | inl e ↦ ap (payload (k ∷ ks)) (erase-absent k ks p cs e) ∙ payload-child_absent k ks p cs e
    | inr (t, e) ↦
        ap (payload (k ∷ ks)) (erase-present k ks p cs t e)
        ∙ payload-through k ks p cs (erase ks t) _ refl (unfold IsShaped in h)
        ∙ payload-erase_self ks t (child_at-IsShaped k cs t (unfold IsShaped in h) e).1
  ]

  pub payload-erase_ne :
      (key other : Name) (t : Trie A)
      → IsShaped t
      → other ≢ key
      → payload other (erase key t) ≡ payload other t
  payload-erase_ne [] [] (node p cs) h n = absurd (n refl)
  payload-erase_ne [] (j ∷ js) (node p cs) h n = unfold erase prune empty_payload payload in refl
  payload-erase_ne (k ∷ ks) [] (node p cs) h n = elim (Option-cases (child_at k cs)) [
    | inl e ↦ ap (payload []) (erase-absent k ks p cs e)
    | inr (t, e) ↦
        ap (payload []) (erase-present k ks p cs t e)
        ∙ payload-above k p cs (erase ks t) _
        ∙ unfold payload in refl
  ]
  payload-erase_ne (k ∷ ks) (j ∷ js) (node p cs) h n = elim (Option-cases (child_at k cs)) [
    | inl e ↦ ap (payload (j ∷ js)) (erase-absent k ks p cs e)
    | inr (t, e) ↦
        ap (payload (j ∷ js)) (erase-present k ks p cs t e) ∙ elim (Component-discrete j k) [
          | yes q ↦
              subst
                (λ i.
                  payload (i ∷ js) (
                    if is_bare (erase ks t)
                    then node p (remove k cs)
                    else node p (put k (erase ks t) cs))
                  ≡ payload (i ∷ js) (node p cs))
                (sym q)
                (payload-through k js p cs (erase ks t) _ refl (unfold IsShaped in h)
                  ∙ payload-erase_ne ks js t (child_at-IsShaped k cs t (unfold IsShaped in h) e).1
                      (λ r. n (cc (q, r)))
                  ∙ sym (payload-child_present k js p cs t e))
          | no q ↦ payload-beside k j js p cs (erase ks t) _ q
        ]
  ]

-- ===== src/Trie/Map.antt =====
-- The trie of utils/trie.h as a finite map from names to payloads: what `insert` and `erase` do to
-- the payload at each path.
use vndn.Base.{
  ◌≡◌, ◌≢◌, refl, sym, ◌∙◌, ap, true, false, Option, none, some, subst, inl, inr, Option-cases, [],
  ◌∷◌,
}
use vndn.Name.{Component, Name}
use vndn.Name.Compare.{Component-discrete, Name-discrete}
use vndn.Trie.{Trie, node, Children, new_node, child_at, put, child_or_new, insert, payload}
use vndn.Trie.ChildMap.{child_at-put_self, child_at-put_ne, child_or_new-some, child_or_new-none}

module _ {ℓ} {A : Type ℓ} where
  pub payload-new_node : (ks : Name) → payload ks (new_node {A = A}) ≡ none
  unfolding payload child_at
  payload-new_node [] = refl
  payload-new_node (k ∷ ks) = refl

  payload-child_or_new :
      (k : Component) (ks : Name) (p : Option A) (cs : Children A)
      → payload ks (child_or_new k cs) ≡ payload (k ∷ ks) (node p cs)
  unfolding payload
  payload-child_or_new k ks p cs = elim (Option-cases (child_at k cs)) [
    | inl e ↦
        ap (payload ks) (child_or_new-none k cs e)
        ∙ payload-new_node ks
        ∙ sym (rw (e, payload) refl)
    | inr (t, e) ↦ ap (payload ks) (child_or_new-some k cs t e) ∙ sym (rw (e, payload) refl)
  ]

  pub payload-child_absent :
      (k : Component) (ks : Name) (p : Option A) (cs : Children A)
      → child_at k cs ≡ none
      → payload (k ∷ ks) (node p cs) ≡ none
  unfolding payload
  payload-child_absent k ks p cs e = rw (e, payload) refl

  pub payload-child_present :
      (k : Component) (ks : Name) (p : Option A) (cs : Children A) (t : Trie A)
      → child_at k cs ≡ some t
      → payload (k ∷ ks) (node p cs) ≡ payload ks t
  unfolding payload
  payload-child_present k ks p cs t e = rw (e, payload) refl

  pub payload-put_self :
      (k : Component) (ks : Name) (p : Option A) (t : Trie A) (cs : Children A)
      → payload (k ∷ ks) (node p (put k t cs)) ≡ payload ks t
  unfolding payload
  payload-put_self k ks p t cs = rw (child_at-put_self k t cs, payload) refl

  pub payload-put_ne :
      (k j : Component) (js : Name) (p : Option A) (t : Trie A) (cs : Children A)
      → j ≢ k
      → payload (j ∷ js) (node p (put k t cs)) ≡ payload (j ∷ js) (node p cs)
  unfolding payload
  payload-put_ne k j js p t cs n = rw (child_at-put_ne k j t cs n, payload) refl

  -- After `insert` the key has a payload: the one it had, and otherwise the new one; the Boolean
  -- says which.
  pub payload-insert_self :
      (key : Name) (x : A) (t : Trie A)
      → (payload key (insert key x t).0 ≡ elim (payload key t) [ none ↦ some x | some y ↦ some y ])
        × ((insert key x t).1 ≡ elim (payload key t) [ none ↦ true | some y ↦ false ])
  unfolding payload insert
  payload-insert_self [] x (node none cs) = (refl, refl)
  payload-insert_self [] x (node (some y) cs) = (refl, refl)
  payload-insert_self (k ∷ ks) x (node p cs) =
      let r = payload-insert_self ks x (child_or_new k cs) in
      let e = payload-child_or_new k ks p cs in
      (
        payload-put_self k ks p _ cs ∙ r.0 ∙ ap (λ o. elim o [ none ↦ some x | some y ↦ some y ]) e,
        r.1 ∙ ap (λ o. elim o [ none ↦ true | some y ↦ false ]) e,
      )

  pub payload-insert_ne :
      (key other : Name) (x : A) (t : Trie A)
      → other ≢ key
      → payload other (insert key x t).0 ≡ payload other t
  unfolding payload insert
  payload-insert_ne [] [] x (node p cs) n = absurd (n refl)
  payload-insert_ne [] (j ∷ js) x (node none cs) n = refl
  payload-insert_ne [] (j ∷ js) x (node (some y) cs) n = refl
  payload-insert_ne (k ∷ ks) [] x (node p cs) n = refl
  payload-insert_ne (k ∷ ks) (j ∷ js) x (node p cs) n = elim (Component-discrete j k) [
    | yes q ↦
        subst
          (λ i. payload (i ∷ js) (insert (k ∷ ks) x (node p cs)).0 ≡ payload (i ∷ js) (node p cs))
          (sym q)
          (payload-put_self k js p _ cs
            ∙ payload-insert_ne ks js x (child_or_new k cs) (λ e. n (cc (q, e)))
            ∙ payload-child_or_new k js p cs)
    | no q ↦ payload-put_ne k j js p _ cs q
  ]

  -- A payload that is there already stays, and `insert` changes nothing at any path.
  pub payload-insert_kept :
      (key other : Name) (x y : A) (t : Trie A)
      → payload key t ≡ some y
      → payload other (insert key x t).0 ≡ payload other t
  payload-insert_kept key other x y t e = elim (Name-discrete other key) [
    | yes q ↦
        subst (λ p. payload p (insert key x t).0 ≡ payload p t) (sym q)
          ((payload-insert_self key x t).0
            ∙ ap (λ o. elim o [ none ↦ some x | some z ↦ some z ]) e
            ∙ sym e)
    | no q ↦ payload-insert_ne key other x t q
  ]

-- ===== src/Trie/Reach.antt =====
-- How far `find` of utils/trie.h walks along a key, and the payloads below the node it ends at.
use vndn.Base.{
  ◌≡◌, refl, sym, ◌∙◌, ap, true, false, Option, none, some, arith, subst, inl, inr, ◌⊎◌,
  Option-cases, [], ◌∷◌, ◌++◌, append_assoc, append_empty,
}
use vndn.Name.{Component, Name}
use vndn.Name.Compare.{Component-discrete}
use vndn.Trie.{
  Trie, node, Children, no_child, child, child_at, payload, node_at, node_if, find_loop, Match,
  find_any, find_child, is_bare,
}
use vndn.Trie.Find.{find_loop-absent, find_loop-present}
use vndn.Trie.Map.{payload-child_absent, payload-child_present}
use vndn.Trie.Shape.{IsShaped, AreShaped, child_at-IsShaped}

module _ {ℓ} {A : Type ℓ} where
  -- Either the key ends at a node, which is the last one, or it leaves the trie.
  abbrev WalkedTo : Name → Name → Trie A → Match → Type ℓ
  WalkedTo path key t m =
      ((m.reach_last ≡ true)
        × (m.last_node ≡ path ++ key)
        × (u : Trie A) × (node_at key t ≡ some u))
      ⊎ ((m.reach_last ≡ false) × (node_at key t ≡ none))

  node_at-absent :
      (k : Component) (ks : Name) (p : Option A) (cs : Children A)
      → child_at k cs ≡ none
      → node_at (k ∷ ks) (node p cs) ≡ none
  unfolding node_at
  node_at-absent k ks p cs e = rw (e, node_at) refl

  node_at-present :
      (k : Component) (ks : Name) (p : Option A) (cs : Children A) (t : Trie A)
      → child_at k cs ≡ some t
      → node_at (k ∷ ks) (node p cs) ≡ node_at ks t
  unfolding node_at
  node_at-present k ks p cs t e = rw (e, node_at) refl

  walked_further :
      (k : Component) (ks path : Name) (p : Option A) (cs : Children A) (t : Trie A) (m : Match)
      → child_at k cs ≡ some t
      → WalkedTo (path ++ (k ∷ [])) ks t m
      → WalkedTo path (k ∷ ks) (node p cs) m
  walked_further k ks path p cs t m e (inl (r, l, u, n)) =
      inl (r, l ∙ append_assoc path (k ∷ []) ks, u, node_at-present k ks p cs t e ∙ n)
  walked_further k ks path p cs t m e (inr (r, n)) = inr (r, node_at-present k ks p cs t e ∙ n)

  pub find_loop-WalkedTo :
      (key path : Name) (found : Option Name) (t : Trie A)
      → WalkedTo path key t (find_loop t path found key)
  unfolding find_loop node_at
  find_loop-WalkedTo [] path found t = inl (refl, sym (append_empty path), t, refl)
  find_loop-WalkedTo (k ∷ ks) path found (node p cs) = elim (Option-cases (child_at k cs)) [
    | inl e ↦ inr (
      ap (λ m. m.reach_last) (find_loop-absent k ks path found p cs e),
      node_at-absent k ks p cs e,
    )
    | inr (t, e) ↦
        subst (WalkedTo path (k ∷ ks) (node p cs))
          (sym (find_loop-present k ks path found p cs t e))
          (walked_further k ks path p cs t
            (find_loop t (path ++ (k ∷ [])) (node_if (path ++ (k ∷ [])) t found) ks) e
            (find_loop-WalkedTo ks (path ++ (k ∷ [])) (node_if (path ++ (k ∷ [])) t found) t))
  ]

  pub payload-node_at :
      (key rest : Name) (t u : Trie A)
      → node_at key t ≡ some u
      → payload (key ++ rest) t ≡ payload rest u
  unfolding node_at
  payload-node_at [] rest t u e = ap (payload rest) cc
  payload-node_at (k ∷ ks) rest (node p cs) u e = elim (Option-cases (child_at k cs)) [
    | inl a ↦ absurd (cc (node_at-absent k ks p cs a))
    | inr (t, a) ↦
        payload-child_present k (ks ++ rest) p cs t a
        ∙ payload-node_at ks rest t u (sym (node_at-present k ks p cs t a) ∙ e)
  ]

  pub payload-outside :
      (key rest : Name) (t : Trie A) → node_at key t ≡ none → payload (key ++ rest) t ≡ none
  unfolding node_at
  payload-outside [] rest t e = cc
  payload-outside (k ∷ ks) rest (node p cs) e = elim (Option-cases (child_at k cs)) [
    | inl a ↦ payload-child_absent k (ks ++ rest) p cs a
    | inr (t, a) ↦
        payload-child_present k (ks ++ rest) p cs t a
        ∙ payload-outside ks rest t (sym (node_at-present k ks p cs t a) ∙ e)
  ]

  -- The node at a path has the shape, and is bare only if the trie is.
  pub node_at-IsShaped :
      (key : Name) (t u : Trie A)
      → IsShaped t
      → node_at key t ≡ some u
      → IsShaped u × (is_bare t ≡ false → is_bare u ≡ false)
  unfolding IsShaped node_at
  node_at-IsShaped [] t u h e =
      let same : t ≡ u = cc in (subst IsShaped same h, λ b. subst (λ v. is_bare v ≡ false) same b)
  node_at-IsShaped (k ∷ ks) (node p cs) u h e = elim (Option-cases (child_at k cs)) [
    | inl a ↦ absurd (cc (node_at-absent k ks p cs a))
    | inr (t, a) ↦
        let (b, s) = child_at-IsShaped k cs t h a in
        let r = node_at-IsShaped ks t u s (sym (node_at-present k ks p cs t a) ∙ e) in
        (r.0, λ _. r.1 b)
  ]

  -- A bare trie has no node but its root.
  pub node_at-bare :
      (k : Component) (ks : Name) (t : Trie A) → is_bare t ≡ true → node_at (k ∷ ks) t ≡ none
  unfolding is_bare node_at child_at
  node_at-bare k ks (node none no_child) b = refl
  node_at-bare k ks (node (some x) cs) b = cc
  node_at-bare k ks (node none (child j u cs)) b = cc

  payload-first :
      (k : Component) (path : Name) (p : Option A) (t : Trie A) (cs : Children A)
      → payload (k ∷ path) (node p (child k t cs)) ≡ payload path t
  payload-first k path p t cs = payload-child_present k path p (child k t cs) t here
    where
      here : child_at k (child k t cs) ≡ some t
      here = unfold child_at in ground arith

  payload-behind :
      (k : Component) (path : Name) (p : Option A) (t : Trie A) (cs : Children A) (x : A)
      → child_at k cs ≡ none
      → payload path (node p cs) ≡ some x
      → payload path (node p (child k t cs)) ≡ some x
  unfolding payload
  payload-behind k [] p t cs x n e = e
  payload-behind k (j ∷ js) p t cs x n e = elim (Component-discrete k j) [
    | yes q ↦ absurd (cc (payload-child_absent j js p cs (subst (λ i. child_at i cs ≡ none) q n)))
    | no q ↦
        let same : child_at j (child k t cs) ≡ child_at j cs = unfold child_at in ground arith in
        rw (same, payload) e
  ]

  find_child-next :
      (k : Component) (t : Trie A) (cs : Children A)
      → find_any t ≡ none
      → find_child cs ≡ find_child (child k t cs)
  unfolding find_any
  find_child-next k t cs e = rw (e, find_child) refl

  find_child-first :
      (k : Component) (t : Trie A) (cs : Children A) (q : Name)
      → find_any t ≡ some q
      → find_child (child k t cs) ≡ some (k ∷ q)
  unfolding find_any
  find_child-first k t cs q e = rw (e, find_child) refl

mutual
  unfolding find_any find_child IsShaped AreShaped payload

  -- What `find` of any payload answers is the path to one.
  pub find_any-payload {ℓ} :
      {A : Type ℓ} (t : Trie A) (path : Name)
      → IsShaped t
      → find_any t ≡ some path
      → (x : A) × (payload path t ≡ some x)
  find_any-payload (node (some x) cs) path h e =
      (x, let q : [] ≡ path = cc in subst (λ r. payload r (node (some x) cs) ≡ some x) q refl)
  find_any-payload (node none cs) path h e = find_child-payload none cs path h e

  find_child-payload {ℓ} :
      {A : Type ℓ} (p : Option A) (cs : Children A) (path : Name)
      → AreShaped cs
      → find_child cs ≡ some path
      → (x : A) × (payload path (node p cs) ≡ some x)
  find_child-payload p no_child path h e = absurd cc
  find_child-payload p (child k t cs) path h e = elim (Option-cases (find_any t)) [
    | inl a ↦
        let next : find_child cs ≡ some path = find_child-next k t cs a ∙ e in
        let (x, here) = find_child-payload p cs path h.3 next in
        (x, payload-behind k path p t cs x h.0 here)
    | inr (q, a) ↦
        let same : k ∷ q ≡ path = cc (find_child-first k t cs q a) in
        let (x, here) = find_any-payload t q h.2 a in
        (
          x,
          subst (λ r. payload r (node p (child k t cs)) ≡ some x) same
              (payload-first k q p t cs ∙ here),
        )
  ]

-- It finds one in each trie of that shape that is not bare.
mutual
  unfolding find_any find_child IsShaped AreShaped is_bare

  pub find_any-none {ℓ} :
      {A : Type ℓ} (t : Trie A) → IsShaped t → find_any t ≡ none → is_bare t ≡ true
  find_any-none (node (some x) cs) h e = cc
  find_any-none (node none cs) h e = find_child-none cs h e

  find_child-none {ℓ} :
      {A : Type ℓ} (cs : Children A)
      → AreShaped cs
      → find_child cs ≡ none
      → is_bare (node none cs) ≡ true
  find_child-none no_child h e = refl
  find_child-none (child k t cs) (n, b, s, h) e = elim (Option-cases (find_any t)) [
    | inl a ↦ absurd (cc (find_any-none t s a))
    | inr (q, a) ↦ absurd (cc (find_child-first k t cs q a))
  ]

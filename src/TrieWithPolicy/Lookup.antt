-- ===== src/TrieWithPolicy/Lookup.antt =====
-- What `deepest_prefix_match` of utils/trie-with-policy.h answers, on a trie and a policy that
-- agree.
use vndn.Base.{
  ◌≡◌, refl, sym, ◌∙◌, ap, subst, true, false, Option, none, some, [], ◌∷◌, ◌++◌, ◌⊎◌, inl, inr,
  Option-cases, Bool-cases,
}
use mathlib.Core.Option
use vndn.Base.Outcome.{Outcome, done, raised, undefined}
use vndn.Name.{Name}
use vndn.Name.Prefix
use vndn.Trie.{Trie, Match, payload, node_at, node_if, find, find_any, is_bare}
use vndn.Trie.Find.{occupied, find-longest_prefix_match}
use vndn.Trie.Shape.{IsShaped}
use vndn.Trie.Erase.{payload-bare}
use vndn.Trie.Reach.{
  find_loop-WalkedTo, node_at-IsShaped, node_at-bare, payload-node_at, payload-outside,
  find_any-payload, find_any-none,
}
use vndn.TrieWithPolicy.{
  TrieWithPolicy, relocate, policy_lookup, find_below, found_or_below, deepest_prefix_match,
}
use vndn.TrieWithPolicy.Invariant.{IsConsistent}

module _ {ℓ} {A : Type ℓ} where
  -- The longest prefix of the key that is stored, the key itself included.
  abbrev pub longest : Name → Trie A → Option Name
  longest key t = Prefix.longest_prefix_match (occupied t) key

  -- A name that the key begins is stored.
  abbrev pub IsBegun : Name → Trie A → Type 0
  IsBegun key t = (rest : Name) × (occupied t (key ++ rest) ≡ some (key ++ rest))

  -- A miss changes nothing, and comes only where no stored name begins with the key. A hit moves
  -- the node to the end of the policy's list; it is the longest stored prefix of the key, or, where
  -- there is none, a stored name that the key begins, and in both cases some stored name begins
  -- with the key. A null pointer is followed only for the root, with nothing stored.
  unfoldable pub Answers :
      Name → TrieWithPolicy A → Outcome (TrieWithPolicy A × Option Name) → Type ℓ
  Answers key c (done (c', none)) =
      (c' ≡ c) × ((rest : Name) → occupied c.trie (key ++ rest) ≡ none)
  Answers key c (done (c', some path)) =
      (c' ≡ record c { policy = relocate path c.policy })
      × (occupied c.trie path ≡ some path)
      × IsBegun key c.trie
      × ((longest key c.trie ≡ some path)
          ⊎ ((longest key c.trie ≡ none) × (rest : Name) × (path ≡ key ++ rest)))
  Answers key c raised = ⊥ × Unit {ℓ}
  Answers key c undefined = (key ≡ []) × ((path : Name) → payload path c.trie ≡ none)

  occupied-bare : (path : Name) (t : Trie A) → is_bare t ≡ true → occupied t path ≡ none
  unfolding occupied
  occupied-bare path t b = ap (Option.map (λ _. path)) (payload-bare path t b)

  -- Below a node there is a payload, unless the trie is empty.
  below-cases :
      (key : Name) (t u : Trie A)
      → IsShaped t
      → node_at key t ≡ some u
      → ((rest : Name) × (find_any u ≡ some rest) × (occupied t (key ++ rest) ≡ some (key ++ rest)))
        ⊎ ((find_any u ≡ none) × (is_bare t ≡ true))
  unfolding occupied
  below-cases key t u s e = elim (Option-cases (find_any u)) [
    | inl a ↦ inr (
      a,
      elim (Bool-cases (is_bare t)) [
        | inl b ↦ b
        | inr b ↦ absurd (cc (find_any-none u (shaped.0) a, shaped.1 b))
      ],
    )
    | inr (rest, a) ↦
        let (x, here) = find_any-payload u rest shaped.0 a in
        inl (rest, a, ap (Option.map (λ _. key ++ rest)) (payload-node_at key rest t u e ∙ here))
  ]
    where
      shaped : IsShaped u × (is_bare t ≡ false → is_bare u ≡ false)
      shaped = node_at-IsShaped key t u s e

  root-only : (key : Name) (t u : Trie A) → is_bare t ≡ true → node_at key t ≡ some u → key ≡ []
  root-only [] t u b e = refl
  root-only (k ∷ ks) t u b e = cc (node_at-bare k ks t b)

  occupied-path : (p path : Name) (t : Trie A) → occupied t p ≡ some path → p ≡ path
  unfolding occupied
  occupied-path p path t e = elim (Option-cases (payload p t)) [
    | inl a ↦ absurd (cc (ap (Option.map (λ _. p)) a))
    | inr (x, a) ↦ cc (ap (Option.map (λ _. p)) a)
  ]

  pub longest-occupied :
      (key path : Name) (t : Trie A) → longest key t ≡ some path → occupied t path ≡ some path
  longest-occupied key path t e =
      let (n, lt, here, above) = Prefix.longest_prefix_match-some (occupied t) key path e in
      subst (λ p. occupied t p ≡ some path) (occupied-path _ path t here) here

  found_or_below-found :
      (m : Match) (path : Name) (t : Trie A)
      → m.found_node ≡ some path
      → found_or_below m t ≡ some path
  unfolding found_or_below
  found_or_below-found m path t e = rw (e, found_or_below) refl

  find_below-node :
      (key : Name) (t u : Trie A)
      → node_at key t ≡ some u
      → find_below key t ≡ Option.map (λ rest. key ++ rest) (find_any u)
  unfolding find_below
  find_below-node key t u n = rw (n, find_below) refl

  found_or_below-below :
      (m : Match) (key : Name) (t : Trie A)
      → m.found_node ≡ none
      → m.last_node ≡ key
      → found_or_below m t ≡ find_below key t
  unfolding found_or_below
  found_or_below-below m key t e l = rw (e, found_or_below) (ap (λ path. find_below path t) l)

  -- the two ways through `deepest_prefix_match`
  match_outside :
      (key : Name) (c : TrieWithPolicy A)
      → (find key c.trie).reach_last ≡ false
      → deepest_prefix_match key c ≡ done (c, none)
  unfolding deepest_prefix_match
  match_outside key c e = rw (e, deepest_prefix_match) refl

  match_inside :
      (key path : Name) (c : TrieWithPolicy A)
      → (find key c.trie).reach_last ≡ true
      → found_or_below (find key c.trie) c.trie ≡ some path
      → deepest_prefix_match key c ≡ done (record c { policy = relocate path c.policy }, some path)
  unfolding deepest_prefix_match policy_lookup
  match_inside key path c e f = simp (e, f) refl

  match_null :
      (key : Name) (c : TrieWithPolicy A)
      → (find key c.trie).reach_last ≡ true
      → found_or_below (find key c.trie) c.trie ≡ none
      → deepest_prefix_match key c ≡ undefined
  unfolding deepest_prefix_match policy_lookup
  match_null key c e f = simp (e, f) refl

  inside-Answers :
      (key : Name) (c : TrieWithPolicy A) (u : Trie A)
      → IsConsistent c
      → (find key c.trie).reach_last ≡ true
      → (find key c.trie).last_node ≡ key
      → node_at key c.trie ≡ some u
      → Answers key c (deepest_prefix_match key c)
  unfolding Answers
  inside-Answers key c u h r l n = elim (below-cases key c.trie u h.shaped n) [
    | inl (rest, any, begun) ↦ elim (Option-cases (find key c.trie).found_node) [
      | inl e ↦
          subst (Answers key c)
            (sym (
              match_inside key (key ++ rest) c r (
                found_or_below-below _ key c.trie e l
                ∙ find_below-node key c.trie u n
                ∙ ap (Option.map (λ p. key ++ p)) any)))
            (refl, begun, (rest, begun), inr (sym (walked) ∙ e, rest, refl))
      | inr (path, e) ↦
          subst (Answers key c)
            (sym (match_inside key path c r (found_or_below-found _ path c.trie e)))
            (
              refl,
              longest-occupied key path c.trie (sym walked ∙ e),
              (rest, begun),
              inl (sym walked ∙ e),
            )
    ]
    | inr (any, bare) ↦
        subst (Answers key c)
          (sym (
            match_null key c r (
              found_or_below-below _ key c.trie (nothing bare) l
              ∙ find_below-node key c.trie u n
              ∙ ap (Option.map (λ p. key ++ p)) any)))
          (root-only key c.trie u bare n, λ path. payload-bare path c.trie bare)
  ]
    where
      walked : (find key c.trie).found_node ≡ longest key c.trie
      walked = find-longest_prefix_match key c.trie

      nothing : is_bare c.trie ≡ true → (find key c.trie).found_node ≡ none
      nothing b = elim (Option-cases (find key c.trie).found_node) [
        | inl e ↦ e
        | inr (path, e) ↦
            absurd
              (cc (longest-occupied key path c.trie (sym walked ∙ e), occupied-bare path c.trie b))
      ]

  -- `deepest_prefix_match` on a trie and a policy that agree, on every branch.
  pub deepest_prefix_match-Answers :
      (key : Name) (c : TrieWithPolicy A)
      → IsConsistent c
      → Answers key c (deepest_prefix_match key c)
  unfolding Answers find
  deepest_prefix_match-Answers key c h =
      elim (find_loop-WalkedTo key [] (node_if [] c.trie none) c.trie) [
        | inl (r, l, u, n) ↦ inside-Answers key c u h r l n
        | inr (r, n) ↦
            subst (Answers key c) (sym (match_outside key c r)) (refl, λ rest. outside rest n)
      ]
    where
      outside : (rest : Name) → node_at key c.trie ≡ none → occupied c.trie (key ++ rest) ≡ none
      outside rest n =
          unfold occupied in ap (Option.map (λ _. key ++ rest)) (payload-outside key rest c.trie n)

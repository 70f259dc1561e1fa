-- ===== src/Trie/Find.antt =====
-- `find` of utils/trie.h: on the way along the key it keeps the deepest node with a payload, which
-- is the longest prefix match that NDNFib and NDNPit compute the other way round.
use vndn.Base.{
  ◌⊎◌, ℕ, zero, suc, ◌+◌, ◌<◌, ◌≡◌, refl, sym, ◌∙◌, ap, false, Option, none, some, arith, inl, inr,
  Option-cases, [], ◌∷◌, ◌++◌, length, take, append_assoc, append_empty,
}
use mathlib.Core.Option
use vndn.Name.{Component, Name}
use vndn.Name.Prefix.{longest_prefix_match, longest_prefix_match-some, longest_prefix_match_unique}
use vndn.Trie.{Trie, node, Children, child_at, payload, node_if, find_loop, find}
use vndn.Trie.Map.{payload-child_absent, payload-child_present}

-- a match further down, put behind the path so far
below : Name → Option Name → Option Name → Option Name
below path found none = found
below path found (some rest) = some (path ++ rest)

-- the node at a path, named by the path, where it has a payload
unfoldable pub occupied {ℓ} : {A : Type ℓ} → Trie A → Name → Option Name
occupied t path = Option.map (λ _. path) (payload path t)

take-empty : (m : ℕ) → take {A = Component} m [] ≡ []
take-empty zero = refl
take-empty (suc m) = refl

module _ {ℓ} {A : Type ℓ} where
  pub occupied-none : (path : Name) (t : Trie A) → occupied t path ≡ none → payload path t ≡ none
  unfolding occupied
  occupied-none path t e = elim (Option-cases (payload path t)) [
    | inl a ↦ a
    | inr (x, a) ↦ absurd (cc (ap (Option.map (λ _. path)) a))
  ]

  pub occupied-some :
      (path q : Name) (t : Trie A) → occupied t path ≡ some q → (x : A) × (payload path t ≡ some x)
  unfolding occupied
  occupied-some path q t e = elim (Option-cases (payload path t)) [
    | inl a ↦ absurd (cc (ap (Option.map (λ _. path)) a))
    | inr found ↦ found
  ]

  own : Option A → Option Name
  own none = none
  own (some x) = some []

  pick : Component → Option A → Option Name → Option Name
  pick k p none = own p
  pick k p (some path) = some (k ∷ path)

  -- the deepest node with a payload along a key, as a path from here
  deepest : Name → Trie A → Option Name
  deepest [] (node p cs) = own p
  deepest (k ∷ ks) (node p cs) = elim (child_at k cs) [
    | none ↦ own p
    | some t ↦ pick k p (deepest ks t)
  ]

  node_if-own :
      (path : Name) (p : Option A) (cs : Children A) (found : Option Name)
      → node_if path (node p cs) found ≡ below path found (own p)
  unfolding node_if below own
  node_if-own path none cs found = refl
  node_if-own path (some x) cs found = ap some (sym (append_empty path))

  deepest-absent :
      (k : Component) (ks : Name) (p : Option A) (cs : Children A)
      → child_at k cs ≡ none
      → deepest (k ∷ ks) (node p cs) ≡ own p
  unfolding deepest
  deepest-absent k ks p cs e = rw (e, deepest) refl

  deepest-present :
      (k : Component) (ks : Name) (p : Option A) (cs : Children A) (t : Trie A)
      → child_at k cs ≡ some t
      → deepest (k ∷ ks) (node p cs) ≡ pick k p (deepest ks t)
  unfolding deepest
  deepest-present k ks p cs t e = rw (e, deepest) refl

  below-step :
      (path : Name) (k : Component) (p : Option A) (cs : Children A) (found o : Option Name)
      → below (path ++ (k ∷ [])) (node_if path (node p cs) found) o ≡ below path found (pick k p o)
  unfolding below pick
  below-step path k p cs found none = node_if-own path p cs found
  below-step path k p cs found (some rest) = ap some (append_assoc path (k ∷ []) rest)

  pub find_loop-absent :
      (k : Component) (ks path : Name) (found : Option Name) (p : Option A) (cs : Children A)
      → child_at k cs ≡ none
      → find_loop (node p cs) path found (k ∷ ks)
        ≡ record { found_node = found; reach_last = false; last_node = path }
  unfolding find_loop
  find_loop-absent k ks path found p cs e = rw (e, find_loop) refl

  pub find_loop-present :
      (k : Component) (ks path : Name) (found : Option Name) (p : Option A) (cs : Children A)
      (t : Trie A)
      → child_at k cs ≡ some t
      → find_loop (node p cs) path found (k ∷ ks)
        ≡ find_loop t (path ++ (k ∷ [])) (node_if (path ++ (k ∷ [])) t found) ks
  unfolding find_loop
  find_loop-present k ks path found p cs t e = rw (e, find_loop) refl

  find_loop-deepest :
      (key path : Name) (found : Option Name) (t : Trie A)
      → (find_loop t path (node_if path t found) key).found_node ≡ below path found (deepest key t)
  unfolding find_loop
  find_loop-deepest [] path found (node p cs) = node_if-own path p cs found ∙ unfold deepest in refl
  find_loop-deepest (k ∷ ks) path found (node p cs) = elim (Option-cases (child_at k cs)) [
    | inl e ↦
        ap (λ m. m.found_node) (find_loop-absent k ks path _ p cs e)
        ∙ node_if-own path p cs found
        ∙ ap (below path found) (sym (deepest-absent k ks p cs e))
    | inr (t, e) ↦
        ap (λ m. m.found_node) (find_loop-present k ks path _ p cs t e)
        ∙ find_loop-deepest ks (path ++ (k ∷ [])) (node_if path (node p cs) found) t
        ∙ below-step path k p cs found (deepest ks t)
        ∙ ap (below path found) (sym (deepest-present k ks p cs t e))
  ]

  -- What `deepest` means, by the lengths of the prefixes of the key.
  IsDeepest : Name → Trie A → ℕ → Type 0
  IsDeepest key t n =
      (n < length key + 1)
      × (occupied t (take n key) ≡ some (take n key))
      × ((m : ℕ) → n < m → m < length key + 1 → occupied t (take m key) ≡ none)

  occupied-child :
      (k : Component) (ks : Name) (p : Option A) (cs : Children A) (t : Trie A)
      → child_at k cs ≡ some t
      → occupied (node p cs) (k ∷ ks) ≡ Option.map (◌∷◌ k) (occupied t ks)
  unfolding occupied
  occupied-child k ks p cs t e =
      ap (Option.map (λ _. k ∷ ks)) (payload-child_present k ks p cs t e) ∙ map_map (payload ks t)
    where
      map_map :
          (o : Option A) → Option.map (λ _. k ∷ ks) o ≡ Option.map (◌∷◌ k) (Option.map (λ _. ks) o)
      map_map none = refl
      map_map (some x) = refl

  occupied-absent :
      (k : Component) (ks : Name) (p : Option A) (cs : Children A)
      → child_at k cs ≡ none
      → occupied (node p cs) (k ∷ ks) ≡ none
  unfolding occupied
  occupied-absent k ks p cs e = ap (Option.map (λ _. k ∷ ks)) (payload-child_absent k ks p cs e)

  occupied-own : (p : Option A) (cs : Children A) → occupied (node p cs) [] ≡ own p
  unfolding occupied own payload
  occupied-own none cs = refl
  occupied-own (some x) cs = refl

  own-empty : (p : Option A) (path : Name) → own p ≡ some path → path ≡ []
  unfolding own
  own-empty none path e = cc
  own-empty (some x) path e = cc

  pick-none :
      (k : Component) (p : Option A) (o : Option Name)
      → pick k p o ≡ none
      → (o ≡ none) × (own p ≡ none)
  unfolding pick
  pick-none k p none e = (refl, e)
  pick-none k p (some q) e = cc

  pick-some :
      (k : Component) (p : Option A) (o : Option Name) (path : Name)
      → pick k p o ≡ some path
      → ((o ≡ none) × (own p ≡ some path)) ⊎ ((q : Name) × (o ≡ some q) × (path ≡ k ∷ q))
  unfolding pick
  pick-some k p none path e = inl (refl, e)
  pick-some k p (some q) path e = inr (q, refl, cc)

  deepest-none :
      (key : Name) (t : Trie A) → deepest key t ≡ none → (m : ℕ) → occupied t (take m key) ≡ none
  deepest-none [] (node p cs) e m =
      ap (occupied (node p cs)) (take-empty m) ∙ occupied-own p cs ∙ unfold deepest in e
  deepest-none (k ∷ ks) (node p cs) e zero =
      occupied-own p cs ∙ elim (Option-cases (child_at k cs)) [
        | inl a ↦ sym (deepest-absent k ks p cs a) ∙ e
        | inr (t, a) ↦ (pick-none k p _ (sym (deepest-present k ks p cs t a) ∙ e)).1
      ]
  deepest-none (k ∷ ks) (node p cs) e (suc m) = elim (Option-cases (child_at k cs)) [
    | inl a ↦ occupied-absent k (take m ks) p cs a
    | inr (t, a) ↦
        occupied-child k (take m ks) p cs t a
        ∙ ap (Option.map (◌∷◌ k))
            (deepest-none ks t (pick-none k p _ (sym (deepest-present k ks p cs t a) ∙ e)).0 m)
  ]

  -- The node itself is the deepest, where nothing further down the key is occupied.
  IsDeepest-own :
      (key path : Name) (p : Option A) (cs : Children A)
      → own p ≡ some path
      → ((m : ℕ) → 0 < m → m < length key + 1 → occupied (node p cs) (take m key) ≡ none)
      → (n : ℕ) × (path ≡ take n key) × IsDeepest key (node p cs) n
  unfolding IsDeepest
  IsDeepest-own key path p cs e h =
      let empty = own-empty p path e in
      (0, empty, (omega arith, occupied-own p cs ∙ e ∙ ap some empty, h))

  IsDeepest-child :
      (k : Component) (ks : Name) (p : Option A) (cs : Children A) (t : Trie A) (n : ℕ)
      → child_at k cs ≡ some t
      → IsDeepest ks t n
      → IsDeepest (k ∷ ks) (node p cs) (suc n)
  unfolding IsDeepest
  IsDeepest-child k ks p cs t n a (lt, here, above) =
      (omega arith, occupied-child k (take n ks) p cs t a ∙ ap (Option.map (◌∷◌ k)) here, deeper)
    where
      deeper :
          (m : ℕ)
          → suc n < m
          → m < length (k ∷ ks) + 1
          → occupied (node p cs) (take m (k ∷ ks)) ≡ none
      deeper zero g l = absurd (omega arith)
      deeper (suc m) g l =
          occupied-child k (take m ks) p cs t a
          ∙ ap (Option.map (◌∷◌ k)) (above m (omega arith) (omega arith))

  deepest-some :
      (key path : Name) (t : Trie A)
      → deepest key t ≡ some path
      → (n : ℕ) × (path ≡ take n key) × IsDeepest key t n
  deepest-some [] path (node p cs) e =
      IsDeepest-own [] path p cs (unfold deepest in e) (λ m g l. absurd (omega arith))
  deepest-some (k ∷ ks) path (node p cs) e = elim (Option-cases (child_at k cs)) [
    | inl a ↦ IsDeepest-own (k ∷ ks) path p cs (sym (deepest-absent k ks p cs a) ∙ e) (missing a)
    | inr (t, a) ↦ elim (pick-some k p _ path (sym (deepest-present k ks p cs t a) ∙ e)) [
      | inl (missed, mine) ↦ IsDeepest-own (k ∷ ks) path p cs mine (nothing t a missed)
      | inr (q, found, same) ↦
          let (n, prefix, d) = deepest-some ks q t found in
          (suc n, same ∙ ap (◌∷◌ k) prefix, IsDeepest-child k ks p cs t n a d)
    ]
  ]
    where
      missing :
          child_at k cs ≡ none
          → (m : ℕ) → 0 < m
          → m < length (k ∷ ks) + 1
          → occupied (node p cs) (take m (k ∷ ks)) ≡ none
      missing a zero g l = absurd (omega arith)
      missing a (suc m) g l = occupied-absent k (take m ks) p cs a

      nothing :
          (t : Trie A)
          → child_at k cs ≡ some t
          → deepest ks t ≡ none
          → (m : ℕ) → 0 < m
          → m < length (k ∷ ks) + 1
          → occupied (node p cs) (take m (k ∷ ks)) ≡ none
      nothing t a missed zero g l = absurd (omega arith)
      nothing t a missed (suc m) g l =
          occupied-child k (take m ks) p cs t a
          ∙ ap (Option.map (◌∷◌ k)) (deepest-none ks t missed m)

  found-deepest : (key : Name) (t : Trie A) → (find key t).found_node ≡ deepest key t
  unfolding find below
  found-deepest key t = find_loop-deepest key [] none t ∙ whole (deepest key t)
    where
      whole : (o : Option Name) → below [] none o ≡ o
      whole none = refl
      whole (some q) = refl

  no_match :
      (key : Name) (t : Trie A)
      → deepest key t ≡ none
      → longest_prefix_match (occupied t) key ≡ none
  no_match key t e = elim (Option-cases (longest_prefix_match (occupied t) key)) [
    | inl missed ↦ missed
    | inr (path, found) ↦
        let (n, lt, here, above) = longest_prefix_match-some (occupied t) key path found in
        absurd (cc (deepest-none key t e n))
  ]

  -- The node that `find` answers on its way down is the one that the loop of `LongestPrefixMatch`
  -- of the other tables would find: that of the longest prefix of the key with a payload.
  pub find-longest_prefix_match :
      (key : Name) (t : Trie A) → (find key t).found_node ≡ longest_prefix_match (occupied t) key
  unfolding IsDeepest
  find-longest_prefix_match key t = found-deepest key t ∙ elim (Option-cases (deepest key t)) [
    | inl e ↦ e ∙ sym (no_match key t e)
    | inr (path, e) ↦
        let (n, prefix, d) = deepest-some key path t e in
        e
        ∙ sym (
            longest_prefix_match_unique (occupied t) key path
              (n, d.0, d.1 ∙ ap some (sym prefix), d.2))
  ]

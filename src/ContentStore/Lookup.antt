-- ===== src/ContentStore/Lookup.antt =====
-- What `Lookup` of daemon/cs/content-store-impl.h answers, and that calls keep the store valid.
use vndn.Base.{
  ◌≡◌, refl, sym, ◌∙◌, ap, subst, Option, none, some, [], ◌++◌, ◌⊎◌, inl, inr, Option-cases,
  append_empty,
}
use mathlib.Core.Option
use vndn.Base.Outcome.{Outcome, done, raised, undefined, ◌>>=◌, deref}
use vndn.Name.{Name}
use vndn.Name.Prefix
use vndn.Trie.{payload}
use vndn.Trie.Find.{occupied, occupied-none, occupied-some}
use vndn.Trie.Map.{payload-insert_self, payload-insert_kept}
use vndn.TrieWithPolicy.{relocate, deepest_prefix_match}
use vndn.TrieWithPolicy.Invariant.{insert_fresh, insert_present, insert-IsAwaiting}
use vndn.TrieWithPolicy.Lru.{payload-policy_insert}
use vndn.TrieWithPolicy.Lookup.{Answers, IsBegun, longest, deepest_prefix_match-Answers}
use vndn.ContentStore.{
  Entry, ContentStore, answer, lookup, add, Reachable, start, after_lookup, after_add,
}
use vndn.ContentStore.Invariant.{IsValid, empty-IsValid, relocate-IsValid, add-IsValid}

module _ {P : Type 0} where
  -- A miss changes nothing and comes where no stored name begins with the name that is asked for. A
  -- hit answers the entry of the longest stored prefix of that name, or, where there is none, an
  -- entry whose name begins with it; in both cases some stored name begins with it, and the entry is
  -- the one used last now. Only the root is asked for in vain, with nothing stored.
  unfoldable pub Serves :
      Name → ContentStore P → Outcome (ContentStore P × Option (Entry P)) → Type 0
  Serves name c (done (c', none)) =
      (c' ≡ c) × ((rest : Name) → payload (name ++ rest) c.trie ≡ none)
  Serves name c (done (c', some e)) =
      (c' ≡ record c { policy = relocate e.name c.policy })
      × (payload e.name c.trie ≡ some e)
      × IsBegun name c.trie
      × ((longest name c.trie ≡ some e.name)
          ⊎ ((longest name c.trie ≡ none) × (rest : Name) × (e.name ≡ name ++ rest)))
  Serves name c raised = ⊥
  Serves name c undefined = (name ≡ []) × ((path : Name) → payload path c.trie ≡ none)

  hit-Serves :
      (name path : Name) (c : ContentStore P) (e : Entry P)
      → e.name ≡ path
      → payload path c.trie ≡ some e
      → IsBegun name c.trie
      → ((longest name c.trie ≡ some path)
          ⊎ ((longest name c.trie ≡ none) × (rest : Name) × (path ≡ name ++ rest)))
      → Serves name c (done (record c { policy = relocate path c.policy }, some e))
  unfolding Serves
  hit-Serves name path c e q h b l =
      subst
        (λ p.
          (payload p c.trie ≡ some e)
          → ((longest name c.trie ≡ some p)
              ⊎ ((longest name c.trie ≡ none) × (rest : Name) × (p ≡ name ++ rest)))
          → Serves name c (done (record c { policy = relocate p c.policy }, some e)))
        q (λ h' l'. (refl, h', b, l')) h l

  answer-Serves :
      (name : Name) (c : ContentStore P) (o : Outcome (ContentStore P × Option Name))
      → IsValid c
      → Answers name c o
      → Serves name c (o >>= answer)
  unfolding Answers answer
  answer-Serves name c (done (c', none)) v a =
      unfold Serves in (a.0, λ rest. occupied-none (name ++ rest) c.trie (a.1 rest))
  answer-Serves name c (done (c', some path)) v (same, here, begun, l) =
      let (e, found) = occupied-some path path c.trie here in
      subst (λ d. Serves name c (answer (d, some path))) (sym same)
        (subst
          (λ o.
            Serves name c
              (do entry ← deref o; done (record c { policy = relocate path c.policy }, some entry)))
          (sym found) (hit-Serves name path c e (v.named path e found) found begun l))
  answer-Serves name c raised v a = absurd a.0
  answer-Serves name c undefined v a = unfold Serves in a

  -- `Lookup` on a valid store, on every branch.
  pub lookup-Serves : (name : Name) (c : ContentStore P) → IsValid c → Serves name c (lookup name c)
  unfolding lookup
  lookup-Serves name c v =
      answer-Serves name c (deepest_prefix_match name c) v
        (deepest_prefix_match-Answers name c v.consistent)

  pub Serves-IsValid :
      (name : Name) (c c' : ContentStore P) (o : Option (Entry P))
      → IsValid c
      → Serves name c (done (c', o))
      → IsValid c'
  unfolding Serves occupied
  Serves-IsValid name c c' none v s = subst IsValid (sym s.0) v
  Serves-IsValid name c c' (some e) v s =
      subst IsValid (sym s.0) (relocate-IsValid e.name c v (ap (Option.map (λ _. e.name)) s.1))

  exact-Serves :
      (name : Name) (e : Entry P) (c : ContentStore P)
      (o : Outcome (ContentStore P × Option (Entry P)))
      → payload name c.trie ≡ some e
      → Serves name c o
      → (c' : ContentStore P) × (o ≡ done (c', some e))
  unfolding Serves occupied
  exact-Serves name e c (done (c', none)) h s =
      absurd (cc (subst (λ p. payload p c.trie ≡ none) (append_empty name) (s.1 [])))
  exact-Serves name e c (done (c', some found)) h (same, held, begun, l) =
      let exact : longest name c.trie ≡ some name =
        Prefix.longest_prefix_match_exact (occupied c.trie) name name
          (ap (Option.map (λ _. name)) h) in
      let path : found.name ≡ name = elim l [ inl m ↦ cc | inr (m, r, q) ↦ absurd (cc m) ] in
      let same_entry : found ≡ e = cc (subst (λ p. payload p c.trie ≡ some found) path held) in
      (c', ap (λ x. done (c', some x)) same_entry)
  exact-Serves name e c raised h s = absurd s
  exact-Serves name e c undefined h s = absurd (cc (s.1 name))

  -- the entry that was there before, or else the new one
  abbrev pub kept : Entry P → Option (Entry P) → Entry P
  kept new none = new
  kept new (some old) = old

  kept-some :
      (new : Entry P) (o : Option (Entry P))
      → elim o [ none ↦ some new | some old ↦ some old ] ≡ some (kept new o)
  kept-some new none = refl
  kept-some new (some old) = refl

  -- What the store holds under a name after `Add`: the entry that was there, or else the new one.
  pub payload-add :
      (name : Name) (packet : P) (c : ContentStore P)
      → IsValid c
      → payload name (add name packet c).0.trie
        ≡ some (kept (record { name = name; packet = packet }) (payload name c.trie))
  unfolding add
  payload-add name packet c v = elim (Option-cases (payload name c.trie)) [
    | inl e ↦
        ap (λ r. payload name r.0.trie) (insert_fresh name _ c e)
        ∙ payload-policy_insert name _ (insert-IsAwaiting name _ c v.consistent e)
        ∙ (payload-insert_self name _ c.trie).0
        ∙ kept-some _ (payload name c.trie)
    | inr (old, e) ↦
        ap (λ r. payload name r.0.trie) (insert_present name _ old c e)
        ∙ payload-insert_kept name name _ old c.trie e
        ∙ e
        ∙ sym (ap (λ o. some (kept (record { name = name; packet = packet }) o)) e)
  ]

  -- An interest for content that was just added is answered, with the entry that was there before,
  -- if there was one, and else with the new one.
  pub add-lookup :
      (name : Name) (packet : P) (c : ContentStore P)
      → IsValid c
      → (c' : ContentStore P) × (lookup name (add name packet c).0
          ≡ done (c', some (kept (record { name = name; packet = packet }) (payload name c.trie))))
  add-lookup name packet c v =
      exact-Serves name _ (add name packet c).0 _ (payload-add name packet c v)
        (lookup-Serves name (add name packet c).0 (add-IsValid name packet c v))

  -- The store is valid in each state that calls lead to.
  pub Reachable-IsValid : (c : ContentStore P) → Reachable c → IsValid c
  Reachable-IsValid _ start = empty-IsValid
  Reachable-IsValid _ (after_lookup c c' name o r e) =
      let v = Reachable-IsValid c r in
      Serves-IsValid name c c' o v (subst (Serves name c) e (lookup-Serves name c v))
  Reachable-IsValid _ (after_add c name packet r) =
      add-IsValid name packet c (Reachable-IsValid c r)

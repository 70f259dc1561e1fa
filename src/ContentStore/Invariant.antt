-- ===== src/ContentStore/Invariant.antt =====
-- The invariant of the content store, daemon/cs/content-store-impl.h: its trie and its policy agree,
-- each entry stands at its own name, and there are at most 100 of them.
use vndn.Base.{
  ◌≤◌, ◌<◌, ◌-◌, ◌≡◌, refl, sym, ◌∙◌, ap, subst, Bool, true, false, not, ◌&&◌, ◌==◌, leb, none,
  some, List, [], ◌∷◌, ◌++◌, inl, inr, Option-cases, if◌then◌else◌, arith, length, length-append,
}
use vndn.Name.{Name}
use vndn.Name.Compare.{Name-discrete}
use vndn.Trie
use vndn.Trie.{Trie, payload, new_node}
use vndn.Trie.Find.{occupied}
use vndn.Trie.Map.{payload-insert_self, payload-insert_ne, payload-insert_kept, payload-new_node}
use vndn.Trie.Shape.{IsShaped}
use vndn.Trie.Erase.{payload-erase_self, payload-erase_ne}
use vndn.TrieWithPolicy.{relocate, erase_first, erase_node, is_full, policy_insert, list_erase}
use vndn.TrieWithPolicy.Policy.{length-relocate, list_erase-first}
use vndn.TrieWithPolicy.Invariant.{
  IsConsistent, new-IsConsistent, relocate-IsConsistent, insert-IsAwaiting, insert_fresh,
  insert_present, insert-kept, policy_insert-IsConsistent,
}
use vndn.ContentStore.{Entry, ContentStore, empty, add}

module _ {P : Type 0} where
  pub record IsValid (c : ContentStore P) : Type 0 where
    pub consistent : IsConsistent c
    pub named : (path : Name) (e : Entry P) → payload path c.trie ≡ some e → e.name ≡ path
    pub limit : c.max_size ≡ 100
    pub bounded : length c.policy ≤ 100

  pub empty-IsValid : IsValid empty
  empty-IsValid = record {
    consistent = new-IsConsistent 100;
    named = λ path e h. absurd (cc (payload-new_node {A = Entry P} path));
    limit = refl;
    bounded = omega arith;
  }

  pub relocate-IsValid :
      (path : Name) (c : ContentStore P)
      → IsValid c
      → occupied c.trie path ≡ some path
      → IsValid (record c { policy = relocate path c.policy })
  relocate-IsValid path c v e = record {
    consistent = relocate-IsConsistent path c v.consistent e;
    named = v.named;
    limit = v.limit;
    bounded = omega (arith, v.bounded, length-relocate path c.policy (v.consistent.agree path ∙ e));
  }

  -- Entries that were at their own names stay there.
  Named : Trie (Entry P) → Type 0
  Named t = (path : Name) (e : Entry P) → payload path t ≡ some e → e.name ≡ path

  Named-insert :
      (name : Name) (packet : P) (t : Trie (Entry P))
      → Named t
      → payload name t ≡ none
      → Named (Trie.insert name (record { name = name; packet = packet }) t).0
  unfolding Named
  Named-insert name packet t h a path e q = elim (Name-discrete path name) [
    | yes r ↦
        let e' : Entry P = record { name = name; packet = packet } in
        let there : payload name (Trie.insert name e' t).0 ≡ some e =
          subst (λ p. payload p (Trie.insert name e' t).0 ≡ some e) r q in
        let here =
          (payload-insert_self name e' t).0
          ∙ ap (λ o. elim o [ none ↦ some e' | some y ↦ some y ]) a in
        ap (λ o. elim o [ none ↦ [] | some y ↦ y.name ]) (sym there ∙ here) ∙ sym r
    | no r ↦ h path e (sym (payload-insert_ne name path _ t r) ∙ q)
  ]

  Named-erase :
      (name : Name) (t : Trie (Entry P)) → IsShaped t → Named t → Named (Trie.erase name t)
  unfolding Named
  Named-erase name t s h path e q = elim (Name-discrete path name) [
    | yes r ↦ absurd (cc (payload-erase_self name t s))
    | no r ↦ h path e (sym (payload-erase_ne name path t s r) ∙ q)
  ]

  Named-erase_first :
      (list : List Name) (c : ContentStore P)
      → IsShaped c.trie
      → Named c.trie
      → Named (erase_first list c).trie
  unfolding erase_first erase_node
  Named-erase_first [] c s h = h
  Named-erase_first (path ∷ list) c s h = Named-erase path c.trie s h

  length-erase_first :
      (list : List Name) (c : ContentStore P)
      → c.policy ≡ list
      → length (erase_first list c).policy ≡ length list - 1
  unfolding erase_first erase_node
  length-erase_first [] c e = ap length e
  length-erase_first (path ∷ list) c e =
      let same : list_erase path c.policy ≡ list =
        ap (list_erase path) e ∙ list_erase-first path list in
      omega (arith, ap length same)

  max_size-erase_first :
      (list : List Name) (c : ContentStore P) → (erase_first list c).max_size ≡ c.max_size
  unfolding erase_first erase_node
  max_size-erase_first [] c = refl
  max_size-erase_first (path ∷ list) c = refl

  -- the policy's `insert`, into a list of at most 100
  push-bounded :
      (name : Name) (c : ContentStore P)
      → c.max_size ≡ 100
      → length c.policy ≤ 100
      → ((policy_insert name c).0.max_size ≡ 100) × (length (policy_insert name c).0.policy ≤ 100)
  unfolding policy_insert is_full
  push-bounded name c m b = room (is_full c) refl
    where
      not_full : is_full c ≡ false → length c.policy < 100
      not_full e =
          let f : (not (100 == 0) && leb 100 (length c.policy)) ≡ false =
            subst (λ n. (not (n == 0) && leb n (length c.policy)) ≡ false) m e in
          ground arith

      room :
          (b : Bool)
          → is_full c ≡ b
          → ((if b then erase_first c.policy c else c).max_size ≡ 100)
            × (length ((if b then erase_first c.policy c else c).policy ++ (name ∷ [])) ≤ 100)
      room true e = (
        max_size-erase_first c.policy c ∙ m,
        omega (
          arith,
          length-append (erase_first c.policy c).policy (name ∷ []),
          length-erase_first c.policy c refl,
          b,
        ),
      )
      room false e = (m, omega (arith, length-append c.policy (name ∷ []), not_full e))

  Named-push :
      (name : Name) (c : ContentStore P)
      → IsShaped c.trie
      → Named c.trie
      → Named (policy_insert name c).0.trie
  unfolding policy_insert
  Named-push name c s h = room (is_full c)
    where
      room : (b : Bool) → Named (if b then erase_first c.policy c else c).trie
      room true = Named-erase_first c.policy c s h
      room false = h

  fresh-IsValid :
      (name : Name) (packet : P) (c : ContentStore P)
      → IsValid c
      → payload name c.trie ≡ none
      → IsValid
          (policy_insert name (record c {
            trie = (Trie.insert name (record { name = name; packet = packet }) c.trie).0;
          })).0
  unfolding Named
  fresh-IsValid name packet c v e =
      let w = insert-IsAwaiting name (record { name = name; packet = packet }) c v.consistent e in
      record {
        consistent = policy_insert-IsConsistent name _ w;
        named = Named-push name _ w.shaped (Named-insert name packet c.trie v.named e);
        limit = (push-bounded name _ v.limit v.bounded).0;
        bounded = (push-bounded name _ v.limit v.bounded).1;
      }

  kept-IsValid :
      (name : Name) (new old : Entry P) (c : ContentStore P)
      → IsValid c
      → payload name c.trie ≡ some old
      → IsValid (record c { trie = (Trie.insert name new c.trie).0 })
  kept-IsValid name new old c v e = record {
    consistent = insert-kept name new old c v.consistent e;
    named = λ path x q. v.named path x (sym (payload-insert_kept name path new old c.trie e) ∙ q);
    limit = v.limit;
    bounded = v.bounded;
  }

  pub add-IsValid :
      (name : Name) (packet : P) (c : ContentStore P) → IsValid c → IsValid (add name packet c).0
  unfolding add
  add-IsValid name packet c v = elim (Option-cases (payload name c.trie)) [
    | inl e ↦
        subst (λ r. IsValid r.0) (sym (insert_fresh name _ c e)) (fresh-IsValid name packet c v e)
    | inr (old, e) ↦
        subst (λ r. IsValid r.0) (sym (insert_present name _ old c e))
          (kept-IsValid name _ old c v e)
  ]

-- ===== src/TrieWithPolicy/Invariant.antt =====
-- The invariant of utils/trie-with-policy.h: the policy's list holds exactly the nodes with a
-- payload, each once, and the trie has its shape.
use vndn.Base.{
  ℕ, ◌≡◌, ◌≢◌, refl, sym, ◌∙◌, ap, subst, Bool, true, false, none, some, List, [], ◌∷◌, ◌++◌, inl,
  inr, Option-cases, if◌then◌else◌,
}
use mathlib.Core.Option
use vndn.Base.Keyed
use vndn.Name.{Name}
use vndn.Name.Compare.{Name-discrete}
use vndn.Trie
use vndn.Trie.{Trie, new_node, payload}
use vndn.Trie.Find.{occupied}
use vndn.Trie.Shape.{IsShaped, insert-IsShaped}
use vndn.Trie.Map.{payload-new_node, payload-insert_self, payload-insert_ne, payload-insert_kept}
use vndn.Trie.Erase.{erase-IsShaped, payload-erase_self, payload-erase_ne}
use vndn.TrieWithPolicy.{
  TrieWithPolicy, list_erase, relocate, erase_node, erase_first, is_full, policy_insert, insert_new,
  insert,
}
use vndn.TrieWithPolicy.Policy.{
  Listing, listed, listed-push_self, listed-push_ne, Listing-push, listed-erase_self,
  listed-erase_ne, Listing-erase, listed-relocate, Listing-relocate, listed-first,
}

pub record IsConsistent {ℓ} {A : Type ℓ} (c : TrieWithPolicy A) : Type ℓ where
  pub shaped : IsShaped c.trie
  pub listing : Listing c.policy
  pub agree : (path : Name) → listed c.policy path ≡ occupied c.trie path

-- In the middle of `insert`: the trie has the key's payload, and the policy is not told yet.
pub record IsAwaiting {ℓ} {A : Type ℓ} (key : Name) (c : TrieWithPolicy A) : Type ℓ where
  pub shaped : IsShaped c.trie
  pub listing : Listing c.policy
  pub unlisted : listed c.policy key ≡ none
  pub here : occupied c.trie key ≡ some key
  pub agree : (path : Name) → path ≢ key → listed c.policy path ≡ occupied c.trie path

module _ {ℓ} {A : Type ℓ} where
  occupied-erase_self :
      (path : Name) (t : Trie A) → IsShaped t → occupied (Trie.erase path t) path ≡ none
  unfolding occupied
  occupied-erase_self path t s = ap (Option.map (λ _. path)) (payload-erase_self path t s)

  occupied-erase_ne :
      (path other : Name) (t : Trie A)
      → IsShaped t
      → other ≢ path
      → occupied (Trie.erase path t) other ≡ occupied t other
  unfolding occupied
  occupied-erase_ne path other t s n =
      ap (Option.map (λ _. other)) (payload-erase_ne path other t s n)

  agree-erase :
      (path other : Name) (t : Trie A) (list : List Name)
      → IsShaped t
      → Listing list
      → listed list other ≡ occupied t other
      → listed (list_erase path list) other ≡ occupied (Trie.erase path t) other
  agree-erase path other t list s d e = elim (Name-discrete other path) [
    | yes q ↦
        subst (λ p. listed (list_erase path list) p ≡ occupied (Trie.erase path t) p) (sym q)
          (listed-erase_self path list d ∙ sym (occupied-erase_self path t s))
    | no q ↦ listed-erase_ne path other list q ∙ e ∙ sym (occupied-erase_ne path other t s q)
  ]

  pub erase_node-IsConsistent :
      (path : Name) (c : TrieWithPolicy A) → IsConsistent c → IsConsistent (erase_node path c)
  unfolding erase_node
  erase_node-IsConsistent path c h = record {
    shaped = erase-IsShaped path c.trie h.shaped;
    listing = Listing-erase path c.policy h.listing;
    agree = λ other. agree-erase path other c.trie c.policy h.shaped h.listing (h.agree other);
  }

  pub relocate-IsConsistent :
      (path : Name) (c : TrieWithPolicy A)
      → IsConsistent c
      → occupied c.trie path ≡ some path
      → IsConsistent (record c { policy = relocate path c.policy })
  relocate-IsConsistent path c h e = record {
    shaped = h.shaped;
    listing = Listing-relocate path c.policy h.listing;
    agree =
        λ other. listed-relocate path c.policy other h.listing (h.agree path ∙ e) ∙ h.agree other;
  }

  erase_node-IsAwaiting :
      (key path : Name) (c : TrieWithPolicy A)
      → path ≢ key
      → IsAwaiting key c
      → IsAwaiting key (erase_node path c)
  unfolding erase_node
  erase_node-IsAwaiting key path c n h = record {
    shaped = erase-IsShaped path c.trie h.shaped;
    listing = Listing-erase path c.policy h.listing;
    unlisted = listed-erase_ne path key c.policy (λ e. n (sym e)) ∙ h.unlisted;
    here = occupied-erase_ne path key c.trie h.shaped (λ e. n (sym e)) ∙ h.here;
    agree = λ other o. agree-erase path other c.trie c.policy h.shaped h.listing (h.agree other o);
  }

  erase_first-IsAwaiting :
      (key : Name) (list : List Name) (c : TrieWithPolicy A)
      → listed list key ≡ none
      → IsAwaiting key c
      → IsAwaiting key (erase_first list c)
  unfolding erase_first
  erase_first-IsAwaiting key [] c u h = h
  erase_first-IsAwaiting key (path ∷ list) c u h =
      erase_node-IsAwaiting key path c
        (λ e. differ (subst (λ k. listed (path ∷ list) k ≡ none) (sym e) u)) h
    where
      differ : listed (path ∷ list) path ≡ none → ⊥
      differ e = cc (listed-first path list)

  push-IsConsistent :
      (key : Name) (c : TrieWithPolicy A)
      → IsAwaiting key c
      → IsConsistent (record c { policy = c.policy ++ (key ∷ []) })
  push-IsConsistent key c h = record {
    shaped = h.shaped;
    listing = Listing-push key c.policy h.unlisted h.listing;
    agree = λ other. elim (Name-discrete other key) [
      | yes q ↦
          subst (λ p. listed (c.policy ++ (key ∷ [])) p ≡ occupied c.trie p) (sym q)
            (listed-push_self key c.policy h.unlisted ∙ sym h.here)
      | no q ↦ listed-push_ne key other c.policy q ∙ h.agree other q
    ];
  }

  pub policy_insert-IsConsistent :
      (key : Name) (c : TrieWithPolicy A) → IsAwaiting key c → IsConsistent (policy_insert key c).0
  unfolding policy_insert
  policy_insert-IsConsistent key c h = push-IsConsistent key _ (room (is_full c))
    where
      room : (b : Bool) → IsAwaiting key (if b then erase_first c.policy c else c)
      room true = erase_first-IsAwaiting key c.policy c h.unlisted h
      room false = h

  pub insert-IsAwaiting :
      (key : Name) (x : A) (c : TrieWithPolicy A)
      → IsConsistent c
      → payload key c.trie ≡ none
      → IsAwaiting key (record c { trie = (Trie.insert key x c.trie).0 })
  unfolding occupied
  insert-IsAwaiting key x c h e = record {
    shaped = (insert-IsShaped key x c.trie h.shaped).1;
    listing = h.listing;
    unlisted = h.agree key ∙ ap (Option.map (λ _. key)) e;
    here = ap (Option.map (λ _. key)) (
        (payload-insert_self key x c.trie).0
        ∙ ap (λ o. elim o [ none ↦ some x | some y ↦ some y ]) e);
    agree = λ other n.
        h.agree other ∙ ap (Option.map (λ _. other)) (sym (payload-insert_ne key other x c.trie n));
  }

  -- A payload that is there already stays, so that nothing the invariant reads changes.
  pub insert-kept :
      (key : Name) (x y : A) (c : TrieWithPolicy A)
      → IsConsistent c
      → payload key c.trie ≡ some y
      → IsConsistent (record c { trie = (Trie.insert key x c.trie).0 })
  unfolding occupied
  insert-kept key x y c h e = record {
    shaped = (insert-IsShaped key x c.trie h.shaped).1;
    listing = h.listing;
    agree = λ other.
        h.agree other
        ∙ ap (Option.map (λ _. other)) (sym (payload-insert_kept key other x y c.trie e));
  }

  -- the two ways through `insert`
  pub insert_fresh :
      (key : Name) (x : A) (c : TrieWithPolicy A)
      → payload key c.trie ≡ none
      → insert key x c
        ≡ ((policy_insert key (record c { trie = (Trie.insert key x c.trie).0 })).0, true)
  unfolding insert insert_new policy_insert
  insert_fresh key x c e =
      let fresh =
        (payload-insert_self key x c.trie).1
        ∙ ap (λ o. elim o [ none ↦ true | some y ↦ false ]) e in
      rw (fresh, insert) refl

  pub insert_present :
      (key : Name) (x y : A) (c : TrieWithPolicy A)
      → payload key c.trie ≡ some y
      → insert key x c ≡ (record c { trie = (Trie.insert key x c.trie).0 }, false)
  unfolding insert
  insert_present key x y c e =
      let stale =
        (payload-insert_self key x c.trie).1
        ∙ ap (λ o. elim o [ none ↦ true | some y ↦ false ]) e in
      rw (stale, insert) refl

  pub insert-IsConsistent :
      (key : Name) (x : A) (c : TrieWithPolicy A) → IsConsistent c → IsConsistent (insert key x c).0
  insert-IsConsistent key x c h = elim (Option-cases (payload key c.trie)) [
    | inl e ↦
        subst (λ r. IsConsistent r.0) (sym (insert_fresh key x c e))
          (policy_insert-IsConsistent key _ (insert-IsAwaiting key x c h e))
    | inr (y, e) ↦
        subst (λ r. IsConsistent r.0) (sym (insert_present key x y c e)) (insert-kept key x y c h e)
  ]

  pub new-IsConsistent :
      (n : ℕ) → IsConsistent (record { trie = new_node {A = A}; policy = []; max_size = n })
  unfolding IsShaped
  new-IsConsistent n = record { shaped = tt; listing = tt; agree = λ path. nothing path }
    where
      nothing : (path : Name) → listed [] path ≡ occupied (new_node {A = A}) path
      nothing path =
          unfold listed Keyed.find occupied in
          ap (Option.map (λ _. path)) (sym (payload-new_node path))

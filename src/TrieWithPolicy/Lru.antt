-- ===== src/TrieWithPolicy/Lru.antt =====
-- The trie with its policy as what utils/lru-policy.h means it to be: a list of names and
-- payloads, the least recently used first.
use vndn.Base.{
  ℕ, suc, ◌≡◌, refl, sym, ◌∙◌, ap, subst, Bool, true, false, not, ◌&&◌, ◌==◌, leb, Option, none,
  some, List, [], ◌∷◌, ◌++◌, length, inl, inr, Option-cases, if◌then◌else◌, arith, drop,
}
use mathlib.Core.Option
use vndn.Base.Keyed
use vndn.Name.{Name}
use vndn.Name.Compare.{Name-discrete}
use vndn.Trie
use vndn.Trie.{Trie, payload}
use vndn.Trie.Find.{occupied}
use vndn.Trie.Shape.{IsShaped}
use vndn.Trie.Map.{payload-insert_self, payload-insert_ne, payload-insert_kept}
use vndn.Trie.Erase.{payload-erase_ne}
use vndn.TrieWithPolicy.{
  TrieWithPolicy, list_erase, relocate, erase_node, erase_first, is_full, policy_insert, insert,
}
use vndn.TrieWithPolicy.Policy.{Listing, listed, unlisted-cons, unlisted-tail, list_erase-first}
use vndn.TrieWithPolicy.Invariant.{
  IsConsistent, IsAwaiting, insert-IsAwaiting, insert_fresh, insert_present,
}

-- the list of the payloads, in the policy's order
abbrev pub Lru {ℓ} : Type ℓ → Type ℓ
Lru A = List (Name × Option A)

module _ {ℓ} {A : Type ℓ} where
  abbrev pub entries_of : List Name → Trie A → Lru A
  entries_of [] t = []
  entries_of (path ∷ list) t = (path, payload path t) ∷ entries_of list t

  abbrev pub entries : TrieWithPolicy A → Lru A
  entries c = entries_of c.policy c.trie

  abbrev pub lru_find : Name → Lru A → Option (Name × Option A)
  lru_find = Keyed.find Name-discrete (λ e. e.0)

  abbrev pub lru_erase : Name → Lru A → Lru A
  lru_erase = Keyed.erase Name-discrete (λ e. e.0)

  -- A new entry goes to the end, and pushes the first one out where there are `max_size` of them; 0
  -- sets no limit.
  unfoldable pub lru_insert : ℕ → Name → A → Lru A → Lru A × Bool
  lru_insert max_size key x l = elim (lru_find key l) [
    | some e ↦ (l, false)
    | none ↦
        let full = not (max_size == 0) && leb max_size (length l) in
        ((if full then drop 1 l else l) ++ ((key, some x) ∷ []), true)
  ]

  -- An entry that is used goes to the end.
  unfoldable pub lru_touch : Name → Lru A → Lru A
  lru_touch key l = elim (lru_find key l) [ none ↦ l | some e ↦ lru_erase key l ++ (e ∷ []) ]

  length-entries_of : (list : List Name) (t : Trie A) → length (entries_of list t) ≡ length list
  length-entries_of [] t = refl
  length-entries_of (path ∷ list) t = ap suc (length-entries_of list t)

  entries_of-append :
      (list more : List Name) (t : Trie A)
      → entries_of (list ++ more) t ≡ entries_of list t ++ entries_of more t
  entries_of-append [] more t = refl
  entries_of-append (path ∷ list) more t =
      ap (◌∷◌ (path, payload path t)) (entries_of-append list more t)

  find-entries_of :
      (key : Name) (list : List Name) (t : Trie A)
      → lru_find key (entries_of list t) ≡ Option.map (λ p. (p, payload p t)) (listed list key)
  unfolding listed Keyed.find
  find-entries_of key [] t = refl
  find-entries_of key (path ∷ list) t = ground (arith, find-entries_of key list t)

  erase-entries_of :
      (key : Name) (list : List Name) (t : Trie A)
      → lru_erase key (entries_of list t) ≡ entries_of (list_erase key list) t
  unfolding list_erase Keyed.erase
  erase-entries_of key [] t = refl
  erase-entries_of key (path ∷ list) t = ground (arith, erase-entries_of key list t)

  entries_of-insert :
      (key : Name) (x : A) (list : List Name) (t : Trie A)
      → listed list key ≡ none
      → entries_of list (Trie.insert key x t).0 ≡ entries_of list t
  entries_of-insert key x [] t e = refl
  entries_of-insert key x (path ∷ list) t e =
      let (n, e') = unlisted-cons key path list e in
      cc (payload-insert_ne key path x t n, entries_of-insert key x list t e')

  entries_of-erase :
      (key : Name) (list : List Name) (t : Trie A)
      → IsShaped t
      → listed list key ≡ none
      → entries_of list (Trie.erase key t) ≡ entries_of list t
  entries_of-erase key [] t s e = refl
  entries_of-erase key (path ∷ list) t s e =
      let (n, e') = unlisted-cons key path list e in
      cc (payload-erase_ne key path t s n, entries_of-erase key list t s e')

  entries_of-own :
      (key : Name) (x : A) (t : Trie A)
      → payload key t ≡ some x
      → entries_of (key ∷ []) t ≡ (key, some x) ∷ []
  entries_of-own key x t e = ap (λ o. (key, o) ∷ []) e

  -- after `erase` of the first node, if any: the other entries are as they were
  entries-erase_first :
      (list : List Name) (c : TrieWithPolicy A)
      → IsShaped c.trie
      → Listing list
      → c.policy ≡ list
      → entries (erase_first list c) ≡ drop 1 (entries c)
  unfolding erase_first erase_node
  entries-erase_first [] c s d e = rw e refl
  entries-erase_first (path ∷ list) c s d e =
      subst
        (λ q.
          entries_of (list_erase path q) (Trie.erase path c.trie) ≡ drop 1 (entries_of q c.trie))
        (sym e)
        (ap (λ q. entries_of q (Trie.erase path c.trie)) (list_erase-first path list)
          ∙ entries_of-erase path list c.trie s (unlisted-tail path list d))

  pushed :
      (key : Name) (x : A) (c : TrieWithPolicy A)
      → payload key c.trie ≡ some x
      → entries (record c { policy = c.policy ++ (key ∷ []) }) ≡ entries c ++ ((key, some x) ∷ [])
  pushed key x c e =
      entries_of-append c.policy (key ∷ []) c.trie
      ∙ ap (λ l. entries c ++ l) (entries_of-own key x c.trie e)

  payload-erase_first :
      (key : Name) (list : List Name) (c : TrieWithPolicy A)
      → IsShaped c.trie
      → listed list key ≡ none
      → payload key (erase_first list c).trie ≡ payload key c.trie
  unfolding erase_first erase_node
  payload-erase_first key [] c s e = refl
  payload-erase_first key (path ∷ list) c s e =
      payload-erase_ne path key c.trie s (λ q. (unlisted-cons key path list e).0 (sym q))

  -- the policy's `insert` leaves the payload that it is told of
  pub payload-policy_insert :
      (key : Name) (c : TrieWithPolicy A)
      → IsAwaiting key c
      → payload key (policy_insert key c).0.trie ≡ payload key c.trie
  unfolding policy_insert
  payload-policy_insert key c w = room (is_full c)
    where
      room :
          (b : Bool)
          → payload key (if b then erase_first c.policy c else c).trie ≡ payload key c.trie
      room true = payload-erase_first key c.policy c w.shaped w.unlisted
      room false = refl

  -- the policy's `insert` of a node that holds a payload
  entries-policy_insert :
      (key : Name) (x : A) (c : TrieWithPolicy A)
      → IsShaped c.trie
      → Listing c.policy
      → listed c.policy key ≡ none
      → payload key c.trie ≡ some x
      → entries (policy_insert key c).0
        ≡ (if is_full c then drop 1 (entries c) else entries c) ++ ((key, some x) ∷ [])
  unfolding policy_insert
  entries-policy_insert key x c s d u e = room (is_full c)
    where
      room :
          (b : Bool)
          → entries (record (if b then erase_first c.policy c else c) {
            policy = (if b then erase_first c.policy c else c).policy ++ (key ∷ []);
          })
            ≡ (if b then drop 1 (entries c) else entries c) ++ ((key, some x) ∷ [])
      room true =
          pushed key x (erase_first c.policy c) (payload-erase_first key c.policy c s u ∙ e)
          ∙ ap (λ l. l ++ ((key, some x) ∷ [])) (entries-erase_first c.policy c s d refl)
      room false = pushed key x c e

  same_entries :
      (list : List Name) (t u : Trie A)
      → ((path : Name) → payload path t ≡ payload path u)
      → entries_of list t ≡ entries_of list u
  same_entries [] t u h = refl
  same_entries (path ∷ list) t u h = cc (h path, same_entries list t u h)

  listed-agree :
      (key : Name) (c : TrieWithPolicy A)
      → IsConsistent c
      → lru_find key (entries c)
        ≡ Option.map (λ p. (p, payload p c.trie)) (Option.map (λ _. key) (payload key c.trie))
  unfolding occupied
  listed-agree key c h =
      find-entries_of key c.policy c.trie
      ∙ ap (Option.map (λ p. (p, payload p c.trie))) (h.agree key)

  lru_insert-new :
      (max_size : ℕ) (key : Name) (x : A) (l : Lru A)
      → lru_find key l ≡ none
      → lru_insert max_size key x l ≡ (
        (if not (max_size == 0) && leb max_size (length l) then drop 1 l else l)
            ++ ((key, some x) ∷ []),
        true,
      )
  unfolding lru_insert
  lru_insert-new max_size key x l e = rw (e, lru_insert) refl

  lru_insert-known :
      (max_size : ℕ) (key : Name) (x : A) (l : Lru A) (e : Name × Option A)
      → lru_find key l ≡ some e
      → lru_insert max_size key x l ≡ (l, false)
  unfolding lru_insert
  lru_insert-known max_size key x l y e = rw (e, lru_insert) refl

  fresh-entries :
      (key : Name) (x : A) (c : TrieWithPolicy A)
      → IsConsistent c
      → payload key c.trie ≡ none
      → entries (policy_insert key (record c { trie = (Trie.insert key x c.trie).0 })).0
        ≡ (if not (c.max_size == 0) && leb c.max_size (length (entries c))
            then drop 1 (entries c)
            else entries c)
          ++ ((key, some x) ∷ [])
  unfolding is_full
  fresh-entries key x c h e =
      entries-policy_insert key x (record c { trie = (Trie.insert key x c.trie).0 }) w.shaped
        w.listing w.unlisted
        ((payload-insert_self key x c.trie).0
          ∙ ap (λ o. elim o [ none ↦ some x | some y ↦ some y ]) e)
      ∙ ap
          (λ l.
            (if not (c.max_size == 0) && leb c.max_size (length c.policy) then drop 1 l else l)
            ++ ((key, some x) ∷ []))
          (entries_of-insert key x c.policy c.trie w.unlisted)
      ∙ ap
          (λ n.
            (if not (c.max_size == 0) && leb c.max_size n then drop 1 (entries c) else entries c)
            ++ ((key, some x) ∷ []))
          (sym (length-entries_of c.policy c.trie))
    where
      w : IsAwaiting key (record c { trie = (Trie.insert key x c.trie).0 })
      w = insert-IsAwaiting key x c h e

  -- `insert` does to the entries what an insertion into a list of bounded length does, and answers
  -- the same Boolean.
  pub insert-lru_insert :
      (key : Name) (x : A) (c : TrieWithPolicy A)
      → IsConsistent c
      → (entries (insert key x c).0, (insert key x c).1) ≡ lru_insert c.max_size key x (entries c)
  insert-lru_insert key x c h = elim (Option-cases (payload key c.trie)) [
    | inl e ↦
        ap (λ r. (entries r.0, r.1)) (insert_fresh key x c e)
        ∙ ap (λ l. (l, true)) (fresh-entries key x c h e)
        ∙ sym (
            lru_insert-new c.max_size key x (entries c) (
              listed-agree key c h
              ∙ ap (λ o. Option.map (λ p. (p, payload p c.trie)) (Option.map (λ _. key) o)) e))
    | inr (y, e) ↦
        ap (λ r. (entries r.0, r.1)) (insert_present key x y c e)
        ∙ ap (λ l. (l, false))
            (same_entries c.policy _ c.trie λ path. payload-insert_kept key path x y c.trie e)
        ∙ sym (
            lru_insert-known c.max_size key x (entries c) _ (
              listed-agree key c h
              ∙ ap (λ o. Option.map (λ p. (p, payload p c.trie)) (Option.map (λ _. key) o)) e))
  ]

  lru_touch-known :
      (key : Name) (l : Lru A) (e : Name × Option A)
      → lru_find key l ≡ some e
      → lru_touch key l ≡ lru_erase key l ++ (e ∷ [])
  unfolding lru_touch
  lru_touch-known key l e f = rw (f, lru_touch) refl

  -- The policy's `lookup` of a node with a payload moves its entry to the end.
  pub relocate-lru_touch :
      (path : Name) (c : TrieWithPolicy A)
      → IsConsistent c
      → occupied c.trie path ≡ some path
      → entries (record c { policy = relocate path c.policy }) ≡ lru_touch path (entries c)
  unfolding relocate
  relocate-lru_touch path c h e =
      entries_of-append (list_erase path c.policy) (path ∷ []) c.trie
      ∙ ap (λ l. l ++ ((path, payload path c.trie) ∷ []))
          (sym (erase-entries_of path c.policy c.trie))
      ∙ sym (
          lru_touch-known path (entries c) (path, payload path c.trie)
            (find-entries_of path c.policy c.trie
              ∙ ap (Option.map (λ p. (p, payload p c.trie))) (h.agree path ∙ e)))

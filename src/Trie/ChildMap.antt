-- ===== src/Trie/ChildMap.antt =====
-- The set of children of utils/trie.h as a finite map from keys to tries.
use vndn.Base.{◌≡◌, ◌≢◌, refl, none, some, arith}
use vndn.Name.{Component}
use vndn.Trie.{Trie, Children, no_child, child, new_node, child_at, put, remove, child_or_new}

module _ {ℓ} {A : Type ℓ} where
  pub child_at-put_self :
      (k : Component) (t : Trie A) (cs : Children A) → child_at k (put k t cs) ≡ some t
  unfolding child_at put
  child_at-put_self k t no_child = ground arith
  child_at-put_self k t (child j u cs) = ground (arith, child_at-put_self k t cs)

  pub child_at-put_ne :
      (k j : Component) (t : Trie A) (cs : Children A)
      → j ≢ k
      → child_at j (put k t cs) ≡ child_at j cs
  unfolding child_at put
  child_at-put_ne k j t no_child n = ground arith
  child_at-put_ne k j t (child i u cs) n = ground (arith, child_at-put_ne k j t cs)

  pub child_at-remove_ne :
      (k j : Component) (cs : Children A) → j ≢ k → child_at j (remove k cs) ≡ child_at j cs
  unfolding child_at remove
  child_at-remove_ne k j no_child n = refl
  child_at-remove_ne k j (child i u cs) n = ground (arith, child_at-remove_ne k j cs)

  -- No key is there twice.
  abbrev pub Distinct : Children A → Type ℓ
  Distinct no_child = Unit
  Distinct (child k t cs) = (child_at k cs ≡ none) × Distinct cs

  pub child_at-remove_self :
      (k : Component) (cs : Children A) → Distinct cs → child_at k (remove k cs) ≡ none
  unfolding child_at remove
  child_at-remove_self k no_child d = refl
  child_at-remove_self k (child i u cs) (n, d) = ground (arith, child_at-remove_self k cs d)

  pub child_or_new-some :
      (k : Component) (cs : Children A) (t : Trie A)
      → child_at k cs ≡ some t
      → child_or_new k cs ≡ t
  unfolding child_or_new
  child_or_new-some k cs t e = rw (e, child_or_new) refl

  pub child_or_new-none :
      (k : Component) (cs : Children A) → child_at k cs ≡ none → child_or_new k cs ≡ new_node
  unfolding child_or_new
  child_or_new-none k cs e = rw (e, child_or_new) refl

  pub remove-put :
      (k : Component) (t : Trie A) (cs : Children A)
      → child_at k cs ≢ none
      → remove k (put k t cs) ≡ remove k cs
  unfolding child_at remove put
  remove-put k t no_child n = absurd (n refl)
  remove-put k t (child j u cs) n = ground (arith, remove-put k t cs)

  pub put-put : (k : Component) (t u : Trie A) (cs : Children A) → put k t (put k u cs) ≡ put k t cs
  unfolding put
  put-put k t u no_child = ground arith
  put-put k t u (child j v cs) = ground (arith, put-put k t u cs)

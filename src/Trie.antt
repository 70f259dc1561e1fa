-- ===== src/Trie.antt =====
-- The trie of utils/trie.h, with names as full keys and name components as keys. A node is named by
-- the path of keys to it; an empty payload (`PayloadTraits::empty_payload`) is `none`. The children
-- of a node are an `unordered_set`, whose order nothing documents: here a list in which a new
-- child stands last, while no lemma on a trie depends on the order. The buckets and their growth
-- are left out.
pub mod ChildMap
pub mod Shape
pub mod Map
pub mod Erase
pub mod Find
pub mod Reach
use vndn.Base.{Bool, true, false, Option, none, some, ◌++◌, [], ◌∷◌, if◌then◌else◌, ite}
use vndn.Name.{Component, Name}
use vndn.Name.Compare.{Component-discrete}

mutual
  pub data Trie {ℓ} (A : Type ℓ) : Type ℓ where
    node : Option A → Children A → Trie A

  pub data Children {ℓ} (A : Type ℓ) : Type ℓ where
    no_child : Children A
    child : Component → Trie A → Children A → Children A

-- a new node
abbrev pub new_node {ℓ} : {A : Type ℓ} → Trie A
new_node = node none no_child

-- The intrusive set of the children: `find`, `insert` of a new child or the change of the one that
-- has the key, `erase`.
unfoldable pub child_at {ℓ} : {A : Type ℓ} → Component → Children A → Option (Trie A)
child_at k no_child = none
child_at k (child j t cs) = ite (Component-discrete j k) (some t) (child_at k cs)

unfoldable pub put {ℓ} : {A : Type ℓ} → Component → Trie A → Children A → Children A
put k u no_child = child k u no_child
put k u (child j t cs) = ite (Component-discrete j k) (child j u cs) (child j t (put k u cs))

unfoldable pub remove {ℓ} : {A : Type ℓ} → Component → Children A → Children A
remove k no_child = no_child
remove k (child j t cs) = ite (Component-discrete j k) cs (child j t (remove k cs))

-- `payload` of the node at a path, if there is that node
unfoldable pub payload {ℓ} : {A : Type ℓ} → Name → Trie A → Option A
payload [] (node p cs) = p
payload (k ∷ ks) (node p cs) = elim (child_at k cs) [ none ↦ none | some t ↦ payload ks t ]

-- the node at a path
unfoldable pub node_at {ℓ} : {A : Type ℓ} → Name → Trie A → Option (Trie A)
node_at [] t = some t
node_at (k ∷ ks) (node p cs) = elim (child_at k cs) [ none ↦ none | some t ↦ node_at ks t ]

-- the child that the loop of `insert` goes on with: one is made where there is none
unfoldable pub child_or_new {ℓ} : {A : Type ℓ} → Component → Children A → Trie A
child_or_new k cs = elim (child_at k cs) [ none ↦ new_node | some t ↦ t ]

-- `insert`: a payload that is there already stays. The node is the one at the key's path, so only
-- the trie and the Boolean are answered.
unfoldable pub insert {ℓ} : {A : Type ℓ} → Name → A → Trie A → Trie A × Bool
insert [] x (node none cs) = (node (some x) cs, true)
insert [] x (node (some y) cs) = (node (some y) cs, false)
insert (k ∷ ks) x (node p cs) =
    let (t, fresh) = insert ks x (child_or_new k cs) in (node p (put k t cs), fresh)

-- the condition of `prune`: no payload and no children
unfoldable pub is_bare {ℓ} : {A : Type ℓ} → Trie A → Bool
is_bare (node none no_child) = true
is_bare (node (some x) cs) = false
is_bare (node none (child k t cs)) = false

-- `prune` of the node at a path: while the node is bare it is taken out of its parent, and the
-- parent is pruned; the root, which has no parent, stays.
unfoldable pub prune {ℓ} : {A : Type ℓ} → Name → Trie A → Trie A
prune [] t = t
prune (k ∷ ks) (node p cs) = elim (child_at k cs) [
  | none ↦ node p cs
  | some t ↦
      let pruned = prune ks t in
      if is_bare pruned then node p (remove k cs) else node p (put k pruned cs)
]

-- `set_payload` with the empty payload, of the node at a path
unfoldable pub empty_payload {ℓ} : {A : Type ℓ} → Name → Trie A → Trie A
empty_payload [] (node p cs) = node none cs
empty_payload (k ∷ ks) (node p cs) = elim (child_at k cs) [
  | none ↦ node p cs
  | some t ↦ node p (put k (empty_payload ks t) cs)
]

-- `erase` of the node at a path
unfoldable pub erase {ℓ} : {A : Type ℓ} → Name → Trie A → Trie A
erase path t = prune path (empty_payload path t)

-- `find` of a key: the deepest node with a payload on the way, whether the whole key was walked, and
-- the last node.
pub record Match : Type 0 where
  pub found_node : Option Name
  pub reach_last : Bool
  pub last_node : Name

unfoldable pub node_if {ℓ} : {A : Type ℓ} → Name → Trie A → Option Name → Option Name
node_if path (node none cs) found = found
node_if path (node (some x) cs) found = some path

unfoldable pub find_loop {ℓ} : {A : Type ℓ} → Trie A → Name → Option Name → Name → Match
find_loop t path found [] = record { found_node = found; reach_last = true; last_node = path }
find_loop (node p cs) path found (k ∷ ks) = elim (child_at k cs) [
  | none ↦ record { found_node = found; reach_last = false; last_node = path }
  | some t ↦ find_loop t (path ++ (k ∷ [])) (node_if (path ++ (k ∷ [])) t found) ks
]

unfoldable pub find {ℓ} : {A : Type ℓ} → Name → Trie A → Match
find key t = find_loop t [] (node_if [] t none) key

-- `find` of any payload, the node's own first: its path from the node
unfoldable mutual
  pub find_any {ℓ} : {A : Type ℓ} → Trie A → Option Name
  find_any (node (some x) cs) = some []
  find_any (node none cs) = find_child cs

  pub find_child {ℓ} : {A : Type ℓ} → Children A → Option Name
  find_child no_child = none
  find_child (child k t cs) = elim (find_any t) [
    | none ↦ find_child cs
    | some path ↦ some (k ∷ path)
  ]

-- `find_if`: the predicate is asked of the node's own payload; below, the children's `find` is
-- called, without the predicate.
unfoldable pub find_if {ℓ} : {A : Type ℓ} → (A → Bool) → Trie A → Option Name
find_if pred (node none cs) = find_child cs
find_if pred (node (some x) cs) = if pred x then some [] else find_child cs

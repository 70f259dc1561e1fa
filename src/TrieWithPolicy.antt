-- ===== src/TrieWithPolicy.antt =====
-- A trie with a replacement policy: utils/trie-with-policy.h, with the least recently used policy of
-- utils/lru-policy.h. The policy's intrusive list holds the nodes with a payload, here by their
-- paths, and the one used last stands at its end.
pub mod Policy
pub mod Invariant
pub mod Lookup
pub mod Lru
pub mod Operations
use vndn.Base.{
  ℕ, Bool, true, false, not, ◌&&◌, ◌==◌, leb, Option, none, some, List, [], ◌∷◌, ◌++◌, length,
  if◌then◌else◌,
}
use mathlib.Core.Option
use vndn.Base.Outcome.{Outcome, done, ◌>>=◌, deref}
use vndn.Base.Keyed
use vndn.Name.{Name}
use vndn.Name.Compare.{Name-discrete}
use vndn.Trie
use vndn.Trie.{Trie, Match, new_node, payload, node_at, find, find_any}

pub record TrieWithPolicy {ℓ} (A : Type ℓ) : Type ℓ where
  pub trie : Trie A
  pub policy : List Name
  pub max_size : ℕ

-- the constructors: an empty trie, and a list of at most 100 nodes
abbrev pub empty {ℓ} : {A : Type ℓ} → TrieWithPolicy A
empty = record { trie = new_node; policy = []; max_size = 100 }

-- `erase` of a node from the policy's list
unfoldable pub list_erase : Name → List Name → List Name
list_erase = Keyed.erase Name-discrete (λ path. path)

-- `lookup` and `update` of the policy: the node moves to the end of the list
unfoldable pub relocate : Name → List Name → List Name
relocate path list = list_erase path list ++ (path ∷ [])

-- `set_max_size`
unfoldable pub set_max_size {ℓ} : {A : Type ℓ} → ℕ → TrieWithPolicy A → TrieWithPolicy A
set_max_size max_size c = record c { max_size = max_size }

module _ {ℓ} {A : Type ℓ} where
  -- `erase` of a node: from the policy, then from the trie
  unfoldable pub erase_node : Name → TrieWithPolicy A → TrieWithPolicy A
  erase_node path c = record c { trie = Trie.erase path c.trie; policy = list_erase path c.policy }

  -- the node that `begin` of the policy's list points to is erased
  unfoldable pub erase_first : List Name → TrieWithPolicy A → TrieWithPolicy A
  erase_first [] c = c
  erase_first (path ∷ list) c = erase_node path c

  unfoldable pub is_full : TrieWithPolicy A → Bool
  is_full c = not (c.max_size == 0) && leb c.max_size (length c.policy)

  -- `insert` of the policy, which always succeeds
  unfoldable pub policy_insert : Name → TrieWithPolicy A → TrieWithPolicy A × Bool
  policy_insert path c =
      let room = if is_full c then erase_first c.policy c else c in
      (record room { policy = room.policy ++ (path ∷ []) }, true)

  -- `insert`: the node is the one at the key's path, unless the policy refuses it, so only the state
  -- and the Boolean are answered.
  unfoldable pub insert_new : Name → TrieWithPolicy A × Bool → TrieWithPolicy A × Bool
  insert_new key (c, true) = (c, true)
  insert_new key (c, false) = (record c { trie = Trie.erase key c.trie }, false)

  unfoldable pub insert : Name → A → TrieWithPolicy A → TrieWithPolicy A × Bool
  insert key x c =
      let (trie, fresh) = Trie.insert key x c.trie in
      let c' : TrieWithPolicy A = record c { trie = trie } in
      if fresh then insert_new key (policy_insert key c') else (c', false)

  -- `erase` of a key
  unfoldable pub erase : Name → TrieWithPolicy A → TrieWithPolicy A
  erase key c =
      let m = find key c.trie in
      if m.reach_last
      then elim (payload m.last_node c.trie) [ none ↦ c | some x ↦ erase_node m.last_node c ]
      else c

  -- `clear`: the root's own payload is not emptied
  unfoldable pub clear_children : Trie A → Trie A
  clear_children (Trie.node p cs) = Trie.node p Trie.no_child

  unfoldable pub clear : TrieWithPolicy A → TrieWithPolicy A
  clear c = record c { trie = clear_children c.trie; policy = [] }

  -- `lookup` of the policy, on a pointer that may be null
  unfoldable pub policy_lookup : Option Name → TrieWithPolicy A → Outcome (TrieWithPolicy A)
  policy_lookup item c = do path ← deref item; done (record c { policy = relocate path c.policy })

  -- `longest_prefix_match`: it looks the node up only if there is one
  unfoldable pub longest_prefix_match : Name → TrieWithPolicy A → TrieWithPolicy A × Option Name
  longest_prefix_match key c = elim ((find key c.trie).found_node) [
    | none ↦ (c, none)
    | some path ↦ (record c { policy = relocate path c.policy }, some path)
  ]

  -- a payload of the sub-trie at a path
  unfoldable pub find_below : Name → Trie A → Option Name
  find_below path t = elim (node_at path t) [
    | none ↦ none
    | some u ↦ Option.map (λ rest. path ++ rest) (find_any u)
  ]

  unfoldable pub find_below_if : (A → Bool) → Name → Trie A → Option Name
  find_below_if pred path t = elim (node_at path t) [
    | none ↦ none
    | some u ↦ Option.map (λ rest. path ++ rest) (Trie.find_if pred u)
  ]

  -- the deepest node on the way, or else a payload below the last node
  unfoldable pub found_or_below : Match → Trie A → Option Name
  found_or_below m t = elim (m.found_node) [
    | none ↦ find_below m.last_node t
    | some path ↦ some path
  ]

  -- `deepest_prefix_match`: the node found, after the policy has looked it up
  unfoldable pub deepest_prefix_match :
      Name → TrieWithPolicy A → Outcome (TrieWithPolicy A × Option Name)
  deepest_prefix_match key c =
      let m = find key c.trie in
      let found_item = found_or_below m c.trie in
      if m.reach_last
      then (do c' ← policy_lookup found_item c; done (c', found_item))
      else done (c, none)

  -- `deepest_prefix_match` with a predicate
  unfoldable pub deepest_prefix_match_if :
      (A → Bool) → Name → TrieWithPolicy A → TrieWithPolicy A × Option Name
  deepest_prefix_match_if pred key c =
      let m = find key c.trie in
      if m.reach_last
      then (elim (find_below_if pred m.last_node c.trie) [
        | none ↦ (c, none)
        | some path ↦ (record c { policy = relocate path c.policy }, some path)
      ])
      else (c, none)

-- ===== src/ContentStore.antt =====
-- The content store: daemon/cs/ndn-content-store.{h,cc} and daemon/cs/content-store-impl.h with the
-- least recently used policy, as ndn-l3-protocol.cc creates it.
pub mod Invariant
pub mod Lookup
use vndn.Base.{◌≡◌, Bool, Option, none, some, List, [], ◌∷◌}
use vndn.Base.Outcome.{Outcome, done, ◌>>=◌, deref}
use vndn.Name.{Name}
use vndn.Trie.{payload}
use vndn.TrieWithPolicy
use vndn.TrieWithPolicy.{TrieWithPolicy, deepest_prefix_match, insert}

-- `Entry`: the name of the content's header, and the packet
pub record Entry (P : Type 0) : Type 0 where
  pub name : Name
  pub packet : P

abbrev pub ContentStore : Type 0 → Type 0
ContentStore P = TrieWithPolicy (Entry P)

-- what the constructor makes
abbrev pub empty : {P : Type 0} → ContentStore P
empty = TrieWithPolicy.empty

module _ {P : Type 0} where
  -- the payload of the node that was found, if there is one
  unfoldable pub answer : ContentStore P × Option Name → Outcome (ContentStore P × Option (Entry P))
  answer (c, none) = done (c, none)
  answer (c, some path) = do entry ← deref (payload path c.trie); done (c, some entry)

  -- `Lookup`, by the name of the interest
  unfoldable pub lookup : Name → ContentStore P → Outcome (ContentStore P × Option (Entry P))
  lookup name c = deepest_prefix_match name c >>= answer

  -- `Add`
  unfoldable pub add : Name → P → ContentStore P → ContentStore P × Bool
  add name packet c = insert name (record { name = name; packet = packet }) c

  -- `Print`: the names of the entries, in the policy's order
  unfoldable pub names_of : List Name → ContentStore P → Outcome (List Name)
  names_of [] c = done []
  names_of (path ∷ list) c = do
    entry ← deref (payload path c.trie)
    rest ← names_of list c
    done (entry.name ∷ rest)

  unfoldable pub print : ContentStore P → Outcome (List Name)
  print c = names_of c.policy c

-- What the forwarder calls.
pub data Call (P : Type 0) : Type 0 where
  looks_up : Name → Call P
  adds : Name → P → Call P

-- The states that calls lead to, from the empty store on.
pub data Reachable {P : Type 0} : ContentStore P → Type 0 where
  start : Reachable (empty {P = P})
  after_lookup :
      (c c' : ContentStore P) (name : Name) (o : Option (Entry P))
      → Reachable c
      → lookup name c ≡ done (c', o)
      → Reachable c'
  after_add :
      (c : ContentStore P) (name : Name) (packet : P)
      → Reachable c
      → Reachable (add name packet c).0

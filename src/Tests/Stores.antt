-- ===== src/Tests/Stores.antt =====
-- The theorems of the trie, of the content store and of the forwarder with it, on a store that holds
-- /a and /a/b.
use vndn.Base.{◌≡◌, ◌↔◌, refl, true, false, Bool, Option, none, some, [], ◌∷◌}
use vndn.Base.Outcome.{done}
use vndn.Name.{Name}
use vndn.Name.Prefix as Prefix
use vndn.Pit.{OutgoingFace, find_outgoing}
use vndn.Trie.{Trie, payload, find, find_if, insert, new_node}
use vndn.Trie.Find.{occupied, find-longest_prefix_match}
use vndn.TrieWithPolicy
use vndn.TrieWithPolicy.{TrieWithPolicy, clear, deepest_prefix_match}
use vndn.TrieWithPolicy.Invariant.{IsConsistent, insert-IsConsistent, new-IsConsistent}
use vndn.TrieWithPolicy.Lru.{entries, lru_insert, insert-lru_insert}
use vndn.TrieWithPolicy.Operations.{clear_iff}
use vndn.ContentStore.{ContentStore, empty, lookup, add, Reachable, start, after_add}
use vndn.ContentStore.Invariant.{IsValid}
use vndn.ContentStore.Lookup.{Serves, kept, lookup-Serves, add-lookup, Reachable-IsValid}
use vndn.L3.{State, Packet}
use vndn.L3.Invariant.{Ends}
use vndn.L3.Caching.{with_content_store, AnswersNext, on_data-on_interest}
use vndn.L3.Protocol.{on_data}
use vndn.Tests.Data.{
  name_a, name_ab, name_c, bytes, one_packet, table, pit, pending, answering, table-IsValid,
  pit-IsValid, waiting-IsValid, find_entry-pit,
}

abbrev two_contents : ContentStore Packet
two_contents = (add name_ab bytes (add name_a bytes empty).0).0

two_contents-Reachable : Reachable two_contents
two_contents-Reachable = after_add _ name_ab bytes (after_add _ name_a bytes start)

lookup-Serves_example : Serves name_ab two_contents (lookup name_ab two_contents)
lookup-Serves_example =
    lookup-Serves name_ab two_contents (Reachable-IsValid two_contents two_contents-Reachable)

Reachable-IsValid_example : IsValid two_contents
Reachable-IsValid_example = Reachable-IsValid two_contents two_contents-Reachable

add-lookup_example :
    (c' : ContentStore Packet) × (lookup name_c (add name_c bytes two_contents).0
      ≡ done (
        c',
        some (kept (record { name = name_c; packet = bytes }) (payload name_c two_contents.trie)),
      ))
add-lookup_example =
    add-lookup name_c bytes two_contents (Reachable-IsValid two_contents two_contents-Reachable)

-- a store of numbers for at most one name, which holds /a
abbrev small : TrieWithPolicy Bool
small =
    (TrieWithPolicy.insert name_a true (record { trie = new_node; policy = []; max_size = 1 })).0

small-IsConsistent : IsConsistent small
small-IsConsistent = insert-IsConsistent name_a true _ (new-IsConsistent 1)

insert-lru_insert_example :
    (
      entries (TrieWithPolicy.insert name_c false small).0,
      (TrieWithPolicy.insert name_c false small).1,
    )
    ≡ lru_insert small.max_size name_c false (entries small)
insert-lru_insert_example = insert-lru_insert name_c false small small-IsConsistent

clear_iff_example : IsConsistent (clear small) ↔ (payload [] small.trie ≡ none)
clear_iff_example = clear_iff small

find-longest_prefix_match_example :
    (find name_ab small.trie).found_node ≡ Prefix.longest_prefix_match (occupied small.trie) name_ab
find-longest_prefix_match_example = find-longest_prefix_match name_ab small.trie

-- an interest for /a/b waits, and the content store is the one above
abbrev caching : State (with_content_store (one_packet none))
caching = record {
  faces = 1 ∷ 2 ∷ 3 ∷ [];
  store = two_contents;
  limits = 0;
  fib = table;
  pit = pit;
  cache_unsolicited_data = false;
  nacks_enabled = true;
  sent = [];
}

abbrev sent_to_2 : OutgoingFace
sent_to_2 = record { face = 2; send_time = 11; retx_count = 0; waiting_in_vain = false }

find_outgoing-pending : find_outgoing 2 pending ≡ some sent_to_2
unfolding vndn.Base.Keyed.find vndn.Base.ℕ_discrete
find_outgoing-pending = refl

on_data-on_interest_example :
    Ends
      (AnswersNext (one_packet none) name_ab bytes two_contents)
      (on_data (with_content_store (one_packet none)) 2 (answering name_ab) bytes caching)
on_data-on_interest_example =
    on_data-on_interest (one_packet none) 2 (answering name_ab) bytes caching name_ab pending
      sent_to_2 refl
      (record {
        fib = table-IsValid;
        pit = pit-IsValid;
        pointers = (waiting-IsValid none).pointers;
        store = Reachable-IsValid two_contents two_contents-Reachable;
      })
      find_entry-pit find_outgoing-pending

-- /a/b/c
abbrev name_abc : Name
name_abc = (97 ∷ []) ∷ (98 ∷ []) ∷ (99 ∷ []) ∷ []

-- The stores that hold /a, with true, and then /a/b/c, with false.
abbrev nested : TrieWithPolicy Bool
nested =
    (TrieWithPolicy.insert name_abc false
      (TrieWithPolicy.insert name_a true TrieWithPolicy.empty).0).0

-- An interest for /a/b is answered with the content of /a, although its name is shorter.
deepest_prefix_match-shorter :
    deepest_prefix_match name_ab nested
    ≡ done (record nested { policy = name_abc ∷ name_a ∷ [] }, some name_a)
unfolding deepest_prefix_match TrieWithPolicy.insert insert find vndn.Trie.find_loop
    vndn.Trie.child_or_new vndn.Trie.child_at TrieWithPolicy.insert_new TrieWithPolicy.policy_insert
    TrieWithPolicy.is_full vndn.Trie.put vndn.Name.Compare.Component-discrete vndn.Base.Bool-cases
    vndn.Name.equal_bytes TrieWithPolicy.policy_lookup TrieWithPolicy.found_or_below
    vndn.Trie.node_if TrieWithPolicy.relocate TrieWithPolicy.list_erase vndn.Base.Keyed.erase
    vndn.Name.Compare.Name-discrete vndn.Name.equal_components vndn.Name.name_eq
deepest_prefix_match-shorter = refl

-- The variant with a predicate asks it of no payload below the node: here it answers the false one.
find_if-unasked : find_if (λ b. b) (insert name_a false new_node).0 ≡ some name_a
unfolding find_if insert vndn.Trie.find_any vndn.Trie.put vndn.Trie.child_or_new vndn.Trie.child_at
find_if-unasked = refl

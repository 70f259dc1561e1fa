-- ===== src/TrieWithPolicy/Operations.antt =====
-- Each operation of utils/trie-with-policy.h keeps the trie and the policy in agreement.
use vndn.Base.{
  ◌↔◌, ℕ, ◌≡◌, refl, sym, ◌∙◌, ap, subst, Bool, true, false, Option, none, some, [], inl, inr,
  Option-cases, if◌then◌else◌,
}
use vndn.Base.Keyed
use mathlib.Core.Option
use vndn.Base.Outcome.{Outcome, done, raised, undefined}
use vndn.Name.{Name}
use vndn.Trie
use vndn.Trie.{Trie, payload, find, find_any, find_if, is_bare}
use vndn.Trie.Find.{occupied, find-longest_prefix_match}
use vndn.TrieWithPolicy.{
  TrieWithPolicy, relocate, erase, erase_node, clear, clear_children, longest_prefix_match,
}
use vndn.TrieWithPolicy.Policy.{listed}
use vndn.TrieWithPolicy.Invariant.{
  IsConsistent, erase_node-IsConsistent, relocate-IsConsistent, new-IsConsistent,
}
use vndn.TrieWithPolicy.Lookup.{Answers, longest-occupied}

module _ {ℓ} {A : Type ℓ} where
  pub erase-IsConsistent :
      (key : Name) (c : TrieWithPolicy A) → IsConsistent c → IsConsistent (erase key c)
  unfolding erase
  erase-IsConsistent key c h =
      guarded (find key c.trie).reach_last (payload (find key c.trie).last_node c.trie)
    where
      guarded :
          (b : Bool) (o : Option A)
          → IsConsistent (
              if b
              then (elim o [ none ↦ c | some x ↦ erase_node (find key c.trie).last_node c ])
              else c)
      guarded true none = h
      guarded true (some x) = erase_node-IsConsistent (find key c.trie).last_node c h
      guarded false o = h

  match_found :
      (key path : Name) (c : TrieWithPolicy A)
      → (find key c.trie).found_node ≡ some path
      → longest_prefix_match key c ≡ (record c { policy = relocate path c.policy }, some path)
  unfolding longest_prefix_match
  match_found key path c e = rw (e, longest_prefix_match) refl

  pub longest_prefix_match-IsConsistent :
      (key : Name) (c : TrieWithPolicy A)
      → IsConsistent c
      → IsConsistent (longest_prefix_match key c).0
  unfolding longest_prefix_match
  longest_prefix_match-IsConsistent key c h = elim (Option-cases (find key c.trie).found_node) [
    | inl e ↦ rw (e, longest_prefix_match) h
    | inr (path, e) ↦
        subst (λ r. IsConsistent r.0) (sym (match_found key path c e))
          (relocate-IsConsistent path c h
            (longest-occupied key path c.trie (sym (find-longest_prefix_match key c.trie) ∙ e)))
  ]

  -- Where an outcome leads to a trie and a policy that agree.
  abbrev pub KeepsConsistent : Outcome (TrieWithPolicy A × Option Name) → Type ℓ
  KeepsConsistent (done (c, o)) = IsConsistent c
  KeepsConsistent raised = Unit
  KeepsConsistent undefined = Unit

  pub Answers-KeepsConsistent :
      (key : Name) (c : TrieWithPolicy A) (o : Outcome (TrieWithPolicy A × Option Name))
      → IsConsistent c
      → Answers key c o
      → KeepsConsistent o
  unfolding Answers
  Answers-KeepsConsistent key c (done (c', none)) h a = subst IsConsistent (sym a.0) h
  Answers-KeepsConsistent key c (done (c', some path)) h a =
      subst IsConsistent (sym a.0) (relocate-IsConsistent path c h a.1)
  Answers-KeepsConsistent key c raised h a = tt
  Answers-KeepsConsistent key c undefined h a = tt

  cleared-IsConsistent :
      (t : Trie A) (n : ℕ)
      → payload [] t ≡ none
      → IsConsistent (record { trie = clear_children t; policy = []; max_size = n })
  unfolding payload clear_children
  cleared-IsConsistent (Trie.node p cs) n e =
      subst
        (λ q. IsConsistent (record { trie = Trie.node q Trie.no_child; policy = []; max_size = n }))
        (sym e) (new-IsConsistent n)

  payload-clear_children : (t : Trie A) → payload [] (clear_children t) ≡ payload [] t
  unfolding payload clear_children
  payload-clear_children (Trie.node p cs) = refl

  -- `clear` empties the policy's list and drops the children of the root, and keeps the root's own
  -- payload: trie and policy agree afterwards exactly if the root had none.
  pub clear_iff : (c : TrieWithPolicy A) → IsConsistent (clear c) ↔ (payload [] c.trie ≡ none)
  unfolding clear occupied listed Keyed.find
  clear_iff c = (λ h. unlisted (h.agree []), cleared-IsConsistent c.trie c.max_size)
    where
      unlisted :
          ◌≡◌ {A = Option Name} none
            (Option.map {B = Name} (λ _. []) (payload [] (clear_children c.trie)))
          → payload [] c.trie ≡ none
      unlisted e = elim (Option-cases (payload [] c.trie)) [
        | inl a ↦ a
        | inr (x, a) ↦
            absurd (cc (ap (Option.map {B = Name} (λ _. [])) (payload-clear_children c.trie ∙ a)))
      ]

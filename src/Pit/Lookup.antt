-- ===== src/Pit/Lookup.antt =====
-- `NDNPit::Lookup` of an interest: the invariant, the entry that it answers, duplicate nonces.
use vndn.Base.{
  ℕ, ◌≡◌, refl, ap, ◌∙◌, true, false, none, some, arith, Option-cases, inl, inr, subst, length,
  take, take-length, Bool-cases, sym, ◌≢◌,
}
use vndn.Base.Keyed.{key-find}
use vndn.Base.Sorted.{OrderedIndex}
use vndn.Name.{Name}
use vndn.Name.Compare.{Name-discrete}
use vndn.Name.Prefix
use vndn.Fib.{Fib}
use vndn.Pit.{
  Pit, PitEntry, prefix_of, expire_le, find_entry, modify_entry, longest_prefix_match,
  lookup_content, Found, create, lookup_interest, add_seen_nonce, is_nonce_seen,
}
use vndn.Pit.Entry.{is_nonce_seen-add}
use vndn.Pit.Table.{
  IsValidPit, KeepsKeys, modify_entry-IsValid, find_entry-modify_entry, add_seen_nonce-KeepsKeys,
  create-IsValid, find_entry-create, new_entry, prefix-new_entry,
}

module _ (name : Name) (pit : Pit) where
  -- The entry that the longest prefix match answers is in the table, under its own prefix.
  pub find_entry-of_match :
      (e : PitEntry) → longest_prefix_match name pit ≡ some e → find_entry e.prefix pit ≡ some e
  unfolding longest_prefix_match
  find_entry-of_match e h =
      let (n, lt, found, longest) =
        Prefix.longest_prefix_match-some (λ prefix. find_entry prefix pit) name e h in
      subst (λ q. find_entry q pit ≡ some e)
        (sym (key-find Name-discrete prefix_of (take n name) pit.entries e found)) found

  pub find_entry-of_no_match : longest_prefix_match name pit ≡ none → find_entry name pit ≡ none
  unfolding longest_prefix_match
  find_entry-of_no_match h = rw (take-length name) at (
      Prefix.longest_prefix_match-none (λ prefix. find_entry prefix pit) name h (length name)
        (omega arith))

  -- Changing the matched entry keeps it the match.
  pub longest_prefix_match-modify :
      (e : PitEntry) (f : PitEntry → PitEntry)
      → KeepsKeys f
      → longest_prefix_match name pit ≡ some e
      → longest_prefix_match name (modify_entry e.prefix f pit) ≡ some (f e)
  unfolding longest_prefix_match
  longest_prefix_match-modify e f k h =
      let (n, lt, found, longest) =
        Prefix.longest_prefix_match-some (λ prefix. find_entry prefix pit) name e h in
      let own = key-find Name-discrete prefix_of (take n name) pit.entries e found in
      Prefix.longest_prefix_match_unique (λ prefix. find_entry prefix (modify_entry e.prefix f pit))
        name (f e)
        (
          n,
          lt,
          ground (arith, find_entry-modify_entry e.prefix f k pit (take n name)),
          λ m above below. ground (
            arith,
            find_entry-modify_entry e.prefix f k pit (take m name),
            longest m above below,
            find_entry-of_match e h,
          ),
        )

pub lookup_interest_seen :
    (index : OrderedIndex expire_le) (now : ℕ) (name : Name) (nonce lifetime : ℕ) (fib : Fib)
    (pit : Pit) (e : PitEntry)
    → longest_prefix_match name pit ≡ some e
    → is_nonce_seen nonce e ≡ true
    → lookup_interest index now name nonce lifetime fib pit
      ≡ (pit, record { entry = e.prefix; is_new = false; is_duplicate = true; success = true })
unfolding lookup_interest
lookup_interest_seen index now name nonce lifetime fib pit e matched seen = ground arith

module _ (index : OrderedIndex expire_le) (now : ℕ) (name : Name) (nonce lifetime : ℕ) (fib : Fib)
    (pit : Pit) where
  -- `Lookup` keeps the invariant.
  pub lookup_interest-IsValid :
      IsValidPit pit → IsValidPit (lookup_interest index now name nonce lifetime fib pit).0
  unfolding lookup_interest
  lookup_interest-IsValid v = elim (Option-cases (longest_prefix_match name pit)) [
    | inl missing ↦
        rw (missing, lookup_interest)
          (modify_entry-IsValid name (add_seen_nonce nonce) (add_seen_nonce-KeepsKeys nonce) _ (
            create-IsValid index now name lifetime fib pit (find_entry-of_no_match name pit missing)
              v))
    | inr (e, found) ↦
        rw (found, lookup_interest)
          (elim (Bool-cases (is_nonce_seen nonce e)) [
            | inl seen ↦ rw seen v
            | inr fresh ↦ rw fresh (
                modify_entry-IsValid e.prefix (add_seen_nonce nonce)
                  (add_seen_nonce-KeepsKeys nonce) pit v)
          ])
  ]

  pub success-lookup_interest :
      (lookup_interest index now name nonce lifetime fib pit).1.success ≡ true
  unfolding lookup_interest
  success-lookup_interest = ground arith

  -- What the next lookup of the same name matches: the entry answered, which has seen the nonce.
  abbrev pub Rematched : Pit × Found → Type 0
  Rematched r =
      (e : PitEntry) × (longest_prefix_match name r.0 ≡ some e)
      × (e.prefix ≡ r.1.entry)
      × (is_nonce_seen nonce e ≡ true)

  nonce_added : (e : PitEntry) → is_nonce_seen nonce (add_seen_nonce nonce e) ≡ true
  nonce_added e = is_nonce_seen-add nonce nonce e ∙ ground arith

  rematched_new :
      (missing : longest_prefix_match name pit ≡ none)
      → longest_prefix_match name
          (modify_entry name (add_seen_nonce nonce) (create index now name lifetime fib pit))
        ≡ some (
            add_seen_nonce nonce
              (new_entry index now name lifetime fib pit (find_entry-of_no_match name pit missing)))
  unfolding longest_prefix_match
  rematched_new missing =
      let absent = find_entry-of_no_match name pit missing in
      Prefix.longest_prefix_match_exact _ name _ (
        ground (
          arith,
          find_entry-modify_entry name (add_seen_nonce nonce) (add_seen_nonce-KeepsKeys nonce)
              (create index now name lifetime fib pit) name,
          find_entry-create index now name lifetime fib pit absent name,
        ))

  pub rematched : Rematched (lookup_interest index now name nonce lifetime fib pit)
  unfolding lookup_interest
  rematched = elim (Option-cases (longest_prefix_match name pit)) [
    | inl missing ↦
        rw (missing, lookup_interest)
          (
            _,
            rematched_new missing,
            (add_seen_nonce-KeepsKeys nonce).prefix _
                ∙ prefix-new_entry index now name lifetime fib pit
                    (find_entry-of_no_match name pit missing),
            nonce_added _,
          )
    | inr (e, found) ↦
        rw (found, lookup_interest)
          (elim (Bool-cases (is_nonce_seen nonce e)) [
            | inl seen ↦ rw seen (e, found, refl, seen)
            | inr fresh ↦ rw fresh (
              add_seen_nonce nonce e,
              longest_prefix_match-modify name pit e (add_seen_nonce nonce)
                  (add_seen_nonce-KeepsKeys nonce) found,
              (add_seen_nonce-KeepsKeys nonce).prefix e,
              nonce_added e,
            )
          ])
  ]

  -- A second interest with the name and the nonce of one looked up before is told to be a duplicate
  -- of the same entry, whenever it comes and whatever its lifetime, and leaves the table as it is.
  pub lookup_interest_repeated :
      (later lifetime' : ℕ) (fib' : Fib)
      → lookup_interest index later name nonce lifetime' fib'
          (lookup_interest index now name nonce lifetime fib pit).0
        ≡ (
          (lookup_interest index now name nonce lifetime fib pit).0,
          record {
            entry = (lookup_interest index now name nonce lifetime fib pit).1.entry;
            is_new = false;
            is_duplicate = true;
            success = true;
          },
        )
  lookup_interest_repeated later lifetime' fib' =
      let (e, matched, own, seen) = rematched in
      lookup_interest_seen index later name nonce lifetime' fib' _ e matched seen
      ∙ ap
          (λ entry. (
            (lookup_interest index now name nonce lifetime fib pit).0,
            record { entry = entry; is_new = false; is_duplicate = true; success = true },
          ))
          own

  -- An interest that matches the entry of another name, a shorter prefix, leaves no entry under its
  -- own name: the content of that name then finds no pending interest.
  pub lookup_content-captured :
      (e : PitEntry)
      → longest_prefix_match name pit ≡ some e
      → e.prefix ≢ name
      → lookup_content name (lookup_interest index now name nonce lifetime fib pit).0 ≡ none
  unfolding lookup_interest lookup_content
  lookup_content-captured e matched other =
      rw (matched, lookup_interest)
        (elim (Bool-cases (is_nonce_seen nonce e)) [
          | inl seen ↦ rw seen absent
          | inr fresh ↦ rw fresh (
              find_entry-modify_entry e.prefix (add_seen_nonce nonce)
                (add_seen_nonce-KeepsKeys nonce) pit name
              ∙ ground (arith, absent))
        ])
    where
      absent : find_entry name pit ≡ none
      absent = elim (Option-cases (find_entry name pit)) [
        | inl missing ↦ missing
        | inr (own, found) ↦ absurd (
            other_match own found (
              unfold longest_prefix_match in
              Prefix.longest_prefix_match_exact (λ prefix. find_entry prefix pit) name own found))
      ]
        where
          other_match :
              (own : PitEntry)
              → find_entry name pit ≡ some own
              → longest_prefix_match name pit ≡ some own
              → ⊥
          other_match own found exact =
              other (ground (arith, key-find Name-discrete prefix_of name pit.entries own found))

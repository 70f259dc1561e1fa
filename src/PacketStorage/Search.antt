-- ===== src/PacketStorage/Search.antt =====
-- `searchByPrefixMatch` of network/mac/packet-storage.cc: the elements of all prefixes of a name.
use vndn.Base.{
  ◌⊎◌, ℕ, zero, suc, ◌+◌, ◌≤◌, ◌<◌, ◌≡◌, refl, sym, ◌∙◌, ap, subst, inl, inr, Option, none, some,
  List, [], ◌∷◌, length, take, Option-cases, arith, ℕ_discrete,
}
use vndn.Base.Keyed
use vndn.Base.Keyed.{Distinct}
use vndn.Base.TwoKeys.{find-erase_other}
use vndn.Name.Compare.{Component-discrete, Name-discrete}
use vndn.Name.{Name}
use vndn.Name.Prefix.{get_sub_components-take}
use vndn.PacketStorage.{
  Element, name_of, components_of, get_pkt_by_key, delete_pkt_by_key, find_components, search_loop,
  search_by_prefix_match,
}

module _ {Ack Geo : Type 0} where
  -- An element of a longer prefix, in front of what the shorter ones have.
  with_match : Option (Element Ack Geo) → List (Element Ack Geo) → List (Element Ack Geo)
  with_match none l = l
  with_match (some e) l = e ∷ l

  search_step :
      (c : ℕ) (name : Name) (storage : List (Element Ack Geo))
      → c ≤ length name
      → search_loop (suc c) name storage
        ≡ with_match (find_components storage (take c name)) (search_loop c name storage)
  unfolding search_loop with_match
  search_step c name storage h =
      rw (get_sub_components-take (find_components storage) c name h, search_loop)
        (by_match (find_components storage (take c name)))
    where
      by_match :
          (o : Option (Element Ack Geo))
          → elim o [ none ↦ search_loop c name storage | some e ↦ e ∷ search_loop c name storage ]
            ≡ with_match o (search_loop c name storage)
      by_match none = refl
      by_match (some e) = refl

  length-with_match :
      (o p : Option (Element Ack Geo)) (l m : List (Element Ack Geo))
      → (o ≡ none) ⊎ (o ≡ p)
      → length l ≤ length m
      → length (with_match o l) ≤ length (with_match p m)
  unfolding with_match
  length-with_match none none l m c h = h
  length-with_match none (some e) l m c h = omega arith
  length-with_match (some e) none l m (inl c) h = cc
  length-with_match (some e) none l m (inr c) h = cc
  length-with_match (some e) (some f) l m c h = omega arith

  length-search_loop :
      (c : ℕ) (name : Name) (storage less : List (Element Ack Geo))
      → c ≤ length name + 1
      → ((p : Name)
          → (find_components less p ≡ none) ⊎ (find_components less p ≡ find_components storage p))
      → length (search_loop c name less) ≤ length (search_loop c name storage)
  length-search_loop zero name storage less h f = unfold search_loop in omega arith
  length-search_loop (suc c) name storage less h f =
      rw (search_step c name storage (omega arith), search_step c name less (omega arith))
        (length-with_match (find_components less (take c name))
          (find_components storage (take c name)) _ _ (f (take c name))
          (length-search_loop c name storage less (omega arith) f))

  -- Deleting a packet makes no search find more.
  pub length-search_by_prefix_match :
      (key : List ℕ) (name : Name) (storage : List (Element Ack Geo))
      → Distinct components_of storage
      → length (search_by_prefix_match name (delete_pkt_by_key key storage).0)
        ≤ length (search_by_prefix_match name storage)
  unfolding search_by_prefix_match
  length-search_by_prefix_match key name storage d =
      length-search_loop (length name + 1) name storage (delete_pkt_by_key key storage).0
        (omega arith)
        λ p. elim (Option-cases (get_pkt_by_key key storage)) [
          | inl e ↦ inr (
              ap (λ l. find_components l p)
                (unfold delete_pkt_by_key in rw (e, delete_pkt_by_key) refl))
          | inr (x, e) ↦
              subst
                (λ l.
                  (find_components l p ≡ none) ⊎ (find_components l p ≡ find_components storage p))
                (sym (deleted x e))
                (unfold find_components in
                  find-erase_other Component-discrete name_of components_of Name-discrete key p
                    storage d)
        ]
    where
      deleted :
          (x : Element Ack Geo)
          → get_pkt_by_key key storage ≡ some x
          → (delete_pkt_by_key key storage).0 ≡ Keyed.erase Component-discrete name_of key storage
      deleted x e = unfold delete_pkt_by_key in rw (e, delete_pkt_by_key) refl

  search_found :
      (c : ℕ) (name : Name) (storage : List (Element Ack Geo)) (e : Element Ack Geo)
      → c ≤ length name
      → find_components storage (take c name) ≡ some e
      → search_loop (suc c) name storage ≡ e ∷ search_loop c name storage
  unfolding with_match
  search_found c name storage e h found =
      search_step c name storage h ∙ ap (λ o. with_match o (search_loop c name storage)) found

  search_missed :
      (c : ℕ) (name : Name) (storage : List (Element Ack Geo))
      → c ≤ length name
      → find_components storage (take c name) ≡ none
      → search_loop (suc c) name storage ≡ search_loop c name storage
  unfolding with_match
  search_missed c name storage h missed =
      search_step c name storage h ∙ ap (λ o. with_match o (search_loop c name storage)) missed

  -- A prefix that is found is not one that is missed.
  lower :
      (c m : ℕ) (name : Name) (storage : List (Element Ack Geo)) (f : Element Ack Geo)
      → find_components storage (take c name) ≡ none
      → find_components storage (take m name) ≡ some f
      → m < suc c
      → m < c
  lower c m name storage f missed found lt = elim (ℕ_discrete m c) [
    | yes q ↦ absurd (cc (ap (λ k. find_components storage (take k name)) q))
    | no q ↦ omega arith
  ]

  search-nonempty :
      (c m : ℕ) (name : Name) (storage : List (Element Ack Geo)) (f : Element Ack Geo)
      → c ≤ length name + 1
      → m < c
      → find_components storage (take m name) ≡ some f
      → (e : Element Ack Geo) × (l : List (Element Ack Geo)) × (search_loop c name storage ≡ e ∷ l)
  search-nonempty zero m name storage f h lt found = absurd (omega arith)
  search-nonempty (suc c) m name storage f h lt found =
      elim (Option-cases (find_components storage (take c name))) [
        | inr (e, here) ↦
            (e, search_loop c name storage, search_found c name storage e (omega arith) here)
        | inl missed ↦
            let (e, l, same) =
              search-nonempty c m name storage f (omega arith)
                (lower c m name storage f missed found lt) found in
            (e, l, search_missed c name storage (omega arith) missed ∙ same)
      ]

  search_loop-two :
      (c m n : ℕ) (name : Name) (storage : List (Element Ack Geo)) (e f : Element Ack Geo)
      → c ≤ length name + 1
      → m < n
      → n < c
      → find_components storage (take m name) ≡ some e
      → find_components storage (take n name) ≡ some f
      → (x : Element Ack Geo) × (y : Element Ack Geo) × (l : List (Element Ack Geo)) × (search_loop
            c name storage
          ≡ x ∷ y ∷ l)
  search_loop-two zero m n name storage e f h lt k found_e found_f = absurd (omega arith)
  search_loop-two (suc c) m n name storage e f h lt k found_e found_f =
      elim (Option-cases (find_components storage (take c name))) [
        | inr (x, here) ↦
            let (y, l, same) =
              search-nonempty c m name storage e (omega arith) (omega arith) found_e in
            (x, y, l, search_found c name storage x (omega arith) here ∙ ap (◌∷◌ x) same)
        | inl missed ↦
            let (x, y, l, same) =
              search_loop-two c m n name storage e f (omega arith) lt
                (lower c n name storage f missed found_f k) found_e found_f in
            (x, y, l, search_missed c name storage (omega arith) missed ∙ same)
      ]

  -- Where two prefixes of the name are stored, at least two elements are found.
  pub search_by_prefix_match-two :
      (m n : ℕ) (name : Name) (storage : List (Element Ack Geo)) (e f : Element Ack Geo)
      → m < n
      → n ≤ length name
      → find_components storage (take m name) ≡ some e
      → find_components storage (take n name) ≡ some f
      → (x : Element Ack Geo) × (y : Element Ack Geo) × (l : List (Element Ack Geo))
        × (search_by_prefix_match name storage ≡ x ∷ y ∷ l)
  unfolding search_by_prefix_match
  search_by_prefix_match-two m n name storage e f lt h =
      search_loop-two (length name + 1) m n name storage e f (omega arith) lt (omega arith)

  search_loop-empty :
      (c : ℕ) (name : Name)
      → c ≤ length name + 1
      → search_loop {Ack = Ack} {Geo = Geo} c name [] ≡ []
  unfolding search_loop find_components Keyed.find
  search_loop-empty zero name h = refl
  search_loop-empty (suc c) name h =
      search_missed c name [] (omega arith) refl ∙ search_loop-empty c name (omega arith)

  -- An empty storage has no match.
  pub search_by_prefix_match-empty :
      (name : Name) → search_by_prefix_match {Ack = Ack} {Geo = Geo} name [] ≡ []
  unfolding search_by_prefix_match
  search_by_prefix_match-empty name = search_loop-empty (length name + 1) name (omega arith)

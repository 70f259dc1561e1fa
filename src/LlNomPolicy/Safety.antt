-- ===== src/LlNomPolicy/Safety.antt =====
-- What the operations of network/mac/ll-nom-policy.cc keep: the storage in order with unique keys,
-- and each packet's count of transmissions between one and the limit.
use vndn.Base.{
  ℕ, ◌-◌, ◌^◌, ◌≤◌, ◌<◌, ◌≡◌, ◌≢◌, refl, sym, subst, Bool, true, false, leb, Option, none, some,
  List, [], ◌∷◌, All, inl, inr, Bool-cases, Option-cases, if◌then◌else◌, arith,
}
use vndn.Base.Outcome.{done, Ends, Ends-bind, Ends-option}
use vndn.Base.Keyed
use vndn.Base.Reposition.{All-reposition_found}
use vndn.Name.{Name}
use vndn.Name.Compare.{Component-discrete}
use vndn.Header.{InterestHeader, ContentObjectHeader}
use vndn.PacketStorage.{
  Element, name_of, get_first_deadline, get_pkt_by_key, delete_pkt_by_key, delete_first_pkt,
  insert_pkt, increase_and_set_timer, increase_retransmission_counter_and_set_new_timer,
  search_by_prefix_match,
}
use vndn.PacketStorage.Table.{
  IsValid, delete_pkt_by_key-IsValid, delete_first_pkt-IsValid, All-insert_pkt, insert_pkt-IsValid,
  replace-IsValid,
}
use vndn.LlNomPolicy.{
  NomEnv, NomState, Stored, Command, discard, PacketType, interest, content_object,
  calculate_next_timer, get_ndn_header_type, new_element, store_pkt, delete_all,
  add_outgoing_interest, add_outgoing_content, add_outgoing_pkt, get_pkt_for_retransmission,
}
use vndn.LlNomPolicy.Retransmission.{first-found, increased, delete_first_pkt-own}

holds-if : {A : Type 0} (P : A → Type 0) (b : Bool) (x y : A) → P x → P y → P (if b then x else y)
holds-if P true x y h k = h
holds-if P false x y h k = k

module _ {Ack Geo : Type 0} where
  -- between the first transmission and the last one
  pub record IsCounted (e : Element Ack Geo) : Type 0 where
    pub sent : 1 ≤ e.retransmission
    pub left : e.retransmission ≤ e.retransmission_limit
    pub limit : e.retransmission_limit ≡ 8

  pub record IsSound (storage : List (Element Ack Geo)) : Type 0 where
    pub valid : IsValid storage
    pub counted : All IsCounted storage

  pub delete_pkt_by_key-IsSound :
      (key : List ℕ) (storage : List (Element Ack Geo))
      → IsSound storage
      → IsSound (delete_pkt_by_key key storage).0
  delete_pkt_by_key-IsSound key storage s = record {
    valid = delete_pkt_by_key-IsValid key storage s.valid;
    counted = elim (Option-cases (get_pkt_by_key key storage)) [
      | inl e ↦ unfold delete_pkt_by_key in rw (e, delete_pkt_by_key) s.counted
      | inr (x, e) ↦
          unfold delete_pkt_by_key in
          rw (e, delete_pkt_by_key)
            (Keyed.All-erase Component-discrete name_of IsCounted key storage s.counted)
    ];
  }

  delete_first_pkt-IsSound :
      (e : Element Ack Geo) (storage : List (Element Ack Geo))
      → IsSound (e ∷ storage)
      → IsSound (delete_first_pkt e.name (e ∷ storage)).0
  delete_first_pkt-IsSound e storage s = record {
    valid = delete_first_pkt-IsValid e.name (e ∷ storage) s.valid;
    counted = subst (λ r. All IsCounted r.0) (sym (delete_first_pkt-own e storage)) s.counted.1;
  }

module _ (env : NomEnv) where
  pub satisfied-IsSound :
      (matching storage : List (Stored env))
      → IsSound storage
      → IsSound (delete_all env matching storage)
  unfolding delete_all
  satisfied-IsSound [] storage s = s
  satisfied-IsSound (e ∷ matching) storage s =
      satisfied-IsSound matching (delete_pkt_by_key e.name storage).0
        (delete_pkt_by_key-IsSound e.name storage s)

  insert_pkt-IsSound :
      (e : Stored env) (storage : List (Stored env))
      → IsCounted e
      → IsSound storage
      → IsSound (insert_pkt env.deadlines e storage).0
  insert_pkt-IsSound e storage c s = record {
    valid = insert_pkt-IsValid env.deadlines e storage s.valid;
    counted = All-insert_pkt env.deadlines IsCounted e storage c s.counted;
  }

  increase-IsCounted :
      (now : ℕ × ℕ) (e : Stored env)
      → leb e.retransmission_limit e.retransmission ≡ false
      → IsCounted e
      → IsCounted (increase_and_set_timer (calculate_next_timer now) e)
  unfolding increase_and_set_timer
  increase-IsCounted now e h c =
      let lt : e.retransmission < e.retransmission_limit = ground arith in
      record {
        sent = omega (arith, c.left, c.limit, lt);
        left = omega (arith, c.left, c.limit, lt);
        limit = c.limit;
      }

  increased-IsSound :
      (now : ℕ × ℕ) (e : Stored env) (storage : List (Stored env))
      → leb e.retransmission_limit e.retransmission ≡ false
      → IsSound (e ∷ storage)
      → IsSound
          (increase_retransmission_counter_and_set_new_timer env.deadlines e.name
            (calculate_next_timer now)
            (e ∷ storage)).0
  increased-IsSound now e storage h s = record {
    valid =
        unfold increase_retransmission_counter_and_set_new_timer increase_and_set_timer in
        replace-IsValid env.deadlines e.name (increase_and_set_timer (calculate_next_timer now))
          (e ∷ storage) (λ x. refl) (λ x. refl) s.valid;
    counted =
        subst (λ r. All IsCounted r.0) (sym (increased env now e storage))
          (All-reposition_found env.deadlines Component-discrete name_of e.name
            (increase_and_set_timer (calculate_next_timer now))
            (λ x. unfold increase_and_set_timer in refl) IsCounted (e ∷ storage) e
            (unfold get_pkt_by_key in first-found e storage)
            (increase-IsCounted now e h s.counted.0) s.counted);
  }

  pub get_pkt-IsSound :
      (now : ℕ × ℕ) (location : env.Location) (st : NomState env)
      → IsSound st.storage
      → IsSound (get_pkt_for_retransmission env now location st).0.storage
  get_pkt-IsSound now location st s = due st.storage st.upper s
    where
      due :
          (storage : List (Stored env)) (upper : env.Upper)
          → IsSound storage
          → IsSound
              (get_pkt_for_retransmission env now location
                (record { storage = storage; upper = upper })).0.storage
      due [] upper s = unfold get_pkt_for_retransmission get_first_deadline in s
      due (e ∷ storage) upper s =
          unfold get_pkt_for_retransmission get_first_deadline in
          elim (Bool-cases (leb e.retransmission_limit e.retransmission)) [
            | inl b ↦ rw (b, get_pkt_for_retransmission) (delete_first_pkt-IsSound e storage s)
            | inr b ↦
                rw (b, get_pkt_for_retransmission, increased env now e storage)
                  (subst (λ r. IsSound r.0) (increased env now e storage)
                    (increased-IsSound now e storage b s))
          ]

  pub new_element-IsCounted :
      (now : ℕ × ℕ) (rand : ℕ) (key : List ℕ) (components : Name) (nonce : ℕ) (pkt : List ℕ)
      (hop : Option env.Geo) (location : env.Location)
      → IsCounted (new_element env now rand key components nonce pkt hop location)
  unfolding new_element
  new_element-IsCounted now rand key components nonce pkt hop location = record {
    sent = omega arith;
    left = omega arith;
    limit = refl;
  }

  pub store_pkt-IsSound :
      (e : Stored env) (st : NomState env)
      → IsCounted e
      → IsSound st.storage
      → IsSound (store_pkt env e st).0.storage
  unfolding store_pkt
  store_pkt-IsSound e st c s = insert_pkt-IsSound e st.storage c s

  abbrev pub Sound : NomState env × Command → Type 0
  Sound r = IsSound r.0.storage

  -- What the parser gives is a header, for a content object one with a name, or the exception that is
  -- caught.
  abbrev pub HasName : Option ContentObjectHeader → Type 0
  HasName none = Unit {0}
  HasName (some h) = h.name ≢ none

  -- A packet whose type can be read, and whose header the parser reads or refuses with the exception
  -- that is caught; a content object has a name.
  pub record IsReadable (pkt : List ℕ) : Type 0 where
    pub kind : Option PacketType
    pub typed : get_ndn_header_type pkt ≡ done kind
    pub interest_parses :
        kind ≡ some interest
        → Ends (λ (o : Option InterestHeader). Unit {0}) (env.parse_interest pkt)
    pub content_parses : kind ≡ some content_object → Ends HasName (env.parse_content pkt)

  outgoing_interest-Ends :
      (now : ℕ × ℕ) (rand : ℕ) (pkt : List ℕ) (metadata : Option env.Geo) (location : env.Location)
      (st : NomState env)
      → Ends (λ (o : Option InterestHeader). Unit {0}) (env.parse_interest pkt)
      → IsSound st.storage
      → Ends Sound (add_outgoing_interest env now rand pkt metadata location st)
  unfolding add_outgoing_interest
  outgoing_interest-Ends now rand pkt metadata location st parses s =
      Ends-bind (λ o. Unit {0}) Sound (env.parse_interest pkt) _ parses
        λ parsed _. Ends-option Sound parsed _ _ s λ h _. Ends-option Sound h.name _ _ s λ name _.
          store_pkt-IsSound _ st (new_element-IsCounted now rand _ name h.nonce pkt _ location) s

  outgoing_content-Ends :
      (now : ℕ × ℕ) (rand : ℕ) (pkt : List ℕ) (metadata : Option env.Geo) (location : env.Location)
      (st : NomState env)
      → Ends HasName (env.parse_content pkt)
      → IsSound st.storage
      → Ends Sound (add_outgoing_content env now rand pkt metadata location st)
  unfolding add_outgoing_content
  outgoing_content-Ends now rand pkt metadata location st parses s =
      Ends-bind HasName Sound (env.parse_content pkt) _ parses λ parsed named.
        Ends-option Sound parsed _ _ s λ h e. elim (Option-cases h.name) [
          | inl nameless ↦ absurd (subst HasName e named nameless)
          | inr (name, q) ↦ rw q (
              store_pkt-IsSound _ _
                (new_element-IsCounted now rand _ name (2 ^ 32 - 1) pkt _ location)
                (satisfied-IsSound (search_by_prefix_match name st.storage) st.storage s))
        ]

  -- `addOutgoingPkt` on a readable packet ends, and keeps the storage sound. Readable is a packet of
  -- two bytes or more, which is of an unknown type, or whose header the parser reads, with a name for
  -- a content object, or refuses with the exception that is caught; not one on which the parser has
  -- undefined behaviour or throws anything else.
  pub add_outgoing_pkt-Ends :
      (now : ℕ × ℕ) (rand : ℕ) (pkt : List ℕ) (metadata : Option env.Geo) (location : env.Location)
      (st : NomState env)
      → IsReadable pkt
      → IsSound st.storage
      → Ends Sound (add_outgoing_pkt env now rand pkt metadata location st)
  unfolding add_outgoing_pkt
  add_outgoing_pkt-Ends now rand pkt metadata location st r s =
      rw (r.typed, add_outgoing_pkt) (by_kind r.kind refl)
    where
      by_kind :
          (kind : Option PacketType)
          → r.kind ≡ kind
          → Ends Sound (elim kind [
            | none ↦ done (st, discard)
            | some interest ↦ add_outgoing_interest env now rand pkt metadata location st
            | some content_object ↦ add_outgoing_content env now rand pkt metadata location st
          ])
      by_kind none e = s
      by_kind (some interest) e =
          outgoing_interest-Ends now rand pkt metadata location st (r.interest_parses e) s
      by_kind (some content_object) e =
          outgoing_content-Ends now rand pkt metadata location st (r.content_parses e) s

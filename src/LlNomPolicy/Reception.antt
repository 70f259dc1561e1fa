-- ===== src/LlNomPolicy/Reception.antt =====
-- `pktFromNetwork` of network/mac/ll-nom-policy.cc: when it ends, and what it keeps.
use vndn.Base.{
  ℕ, ◌+◌, ◌≤◌, ◌≡◌, ◌≢◌, ◌⊎◌, refl, sym, subst, Bool, true, false, ◌&&◌, leb, ◌==◌, Option, none,
  some, List, [], ◌∷◌, All, length, drop, inl, inr, Option-cases, if◌then◌else◌, arith,
}
use vndn.Base.Keyed
use vndn.Base.Outcome.{done, ◌>>=◌, Ends, Ends-bind, Ends-map, Ends-option, Ends-if}
use vndn.Header.{InterestHeader}
use vndn.Name.{Name}
use vndn.Name.Compare.{Component-discrete}
use vndn.PacketStorage.{name_of, get_pkt_by_key, delete_pkt_by_key, search_by_prefix_match}
use vndn.PacketStorage.Search.{length-search_by_prefix_match}
use vndn.LlNomPolicy.{
  NomEnv, NomState, Stored, LlHeader, Command, go_up_layer, discard, failed, PacketType, interest,
  content_object, received_retransmission, acknowledge, interest_from_network, content_acknowledged,
  satisfy_interests, content_from_network, process_interest, process_content, process, hand_up,
  pkt_from_network, read_header, append_components, data_key, interest_key,
}
use vndn.LlNomPolicy.Safety.{IsSound, IsReadable, HasName, delete_pkt_by_key-IsSound}

module _ (env : NomEnv) where
  -- Each stored packet has its acknowledgement data, and no stored name is a prefix of another one.
  pub record IsQuiet (storage : List (Stored env)) : Type 0 where
    pub acks : All (λ e. e.ack_info ≢ none) storage
    pub flat : (name : Name) → length (search_by_prefix_match name storage) ≤ 1

  abbrev pub SoundStorage : List (Stored env) × Command → Type 0
  SoundStorage r = IsSound r.0

  -- What acknowledging a packet leaves: the storage as it is, or without the packet.
  abbrev pub Kept : List ℕ → List (Stored env) → List (Stored env) × Command → Type 0
  Kept key storage r = (r.0 ≡ storage) ⊎ (r.0 ≡ (delete_pkt_by_key key storage).0)

  received-Ends :
      (header : LlHeader) (e : Stored env) (location : env.Location)
      → e.ack_info ≢ none
      → Ends (λ r. Unit {0}) (received_retransmission env header e location)
  unfolding received_retransmission
  received-Ends header e location n =
      Ends-option (λ r. Unit) (env.coordinate_of header) _ _ tt
        λ c _. elim (Option-cases e.ack_info) [ inl q ↦ absurd (n q) | inr (ack, q) ↦ rw q tt ]

  acknowledge-Kept :
      (header : LlHeader) (key : List ℕ) (e : Stored env) (location : env.Location)
      (storage : List (Stored env))
      → e.ack_info ≢ none
      → Ends (Kept key storage) (acknowledge env header key e location storage)
  unfolding acknowledge
  acknowledge-Kept header key e location storage n =
      Ends-bind (λ r. Unit) (Kept key storage) _ _ (received-Ends header e location n)
        λ response _. either (response.0 && response.1 == 0)
    where
      either :
          (b : Bool)
          → Kept key storage
              (if b then ((delete_pkt_by_key key storage).0, discard) else (storage, go_up_layer))
      either true = inr refl
      either false = inl refl

  stored-ack :
      (key : List ℕ) (storage : List (Stored env)) (e : Stored env)
      → All (λ x. x.ack_info ≢ none) storage
      → get_pkt_by_key key storage ≡ some e
      → e.ack_info ≢ none
  unfolding get_pkt_by_key
  stored-ack key storage e h f =
      Keyed.All-find Component-discrete name_of (λ x. x.ack_info ≢ none) key storage e h f

  pub Kept-IsSound :
      (key : List ℕ) (storage : List (Stored env)) (r : List (Stored env) × Command)
      → IsSound storage
      → Kept key storage r
      → IsSound r.0
  Kept-IsSound key storage r s (inl e) = subst IsSound (sym e) s
  Kept-IsSound key storage r s (inr e) =
      subst IsSound (sym e) (delete_pkt_by_key-IsSound key storage s)

  interest-Ends :
      (header : LlHeader) (key : List ℕ) (nonce : ℕ) (location : env.Location)
      (storage : List (Stored env))
      → IsSound storage
      → IsQuiet storage
      → Ends SoundStorage (interest_from_network env header key nonce location storage)
  unfolding interest_from_network
  interest-Ends header key nonce location storage s q =
      Ends-option SoundStorage (get_pkt_by_key key storage) _ _ s λ e found.
        Ends-if SoundStorage (e.nonce == nonce) _ _
          (Ends-map (Kept key storage) SoundStorage _ (λ r k. Kept-IsSound key storage r s k)
            (acknowledge-Kept header key e location storage
              (stored-ack key storage e q.acks found)))
          s

  content_acknowledged-Kept :
      (header : LlHeader) (key : List ℕ) (location : env.Location) (storage : List (Stored env))
      → IsQuiet storage
      → Ends (Kept key storage) (content_acknowledged env header key location storage)
  unfolding content_acknowledged
  content_acknowledged-Kept header key location storage q =
      Ends-option (Kept key storage) (get_pkt_by_key key storage) _ _ (inl refl) λ e found.
        acknowledge-Kept header key e location storage (stored-ack key storage e q.acks found)

  Kept-length :
      (key : List ℕ) (name : Name) (storage : List (Stored env)) (r : List (Stored env) × Command)
      → IsSound storage
      → Kept key storage r
      → length (search_by_prefix_match name r.0) ≤ length (search_by_prefix_match name storage)
  Kept-length key name storage r s (inl e) = rw e (omega arith)
  Kept-length key name storage r s (inr e) =
      rw e (length-search_by_prefix_match key name storage s.valid.names)

  satisfy-Ends :
      (matching storage : List (Stored env))
      → length matching ≤ 1
      → IsSound storage
      → Ends IsSound (satisfy_interests env matching storage)
  unfolding satisfy_interests
  satisfy-Ends [] storage h s = s
  satisfy-Ends (e ∷ []) storage h s = delete_pkt_by_key-IsSound e.name storage s
  satisfy-Ends (e ∷ f ∷ l) storage h s = absurd (omega arith)

  content-Ends :
      (header : LlHeader) (name : Name) (location : env.Location) (storage : List (Stored env))
      → IsSound storage
      → IsQuiet storage
      → Ends SoundStorage (content_from_network env header name location storage)
  unfolding content_from_network
  content-Ends header name location storage s q =
      Ends-bind (Kept (append_components data_key name) storage) SoundStorage _ _
        (content_acknowledged-Kept header (append_components data_key name) location storage q)
        λ r k.
          Ends-bind IsSound SoundStorage _ _
            (satisfy-Ends (search_by_prefix_match name r.0) r.0
              (omega (
                arith,
                Kept-length (append_components data_key name) name storage r s k,
                q.flat name,
              ))
              (Kept-IsSound (append_components data_key name) storage r s k))
            λ left t. t

  process_interest-Ends :
      (header : LlHeader) (payload : List ℕ) (location : env.Location) (storage : List (Stored env))
      → Ends (λ (o : Option InterestHeader). Unit {0}) (env.parse_interest payload)
      → IsSound storage
      → IsQuiet storage
      → Ends SoundStorage (process_interest env header payload location storage)
  unfolding process_interest
  process_interest-Ends header payload location storage parses s q =
      Ends-bind (λ o. Unit {0}) SoundStorage (env.parse_interest payload) _ parses
        λ parsed _. Ends-option SoundStorage parsed _ _ s λ h _.
          Ends-option SoundStorage h.name _ _ s λ name _.
            interest-Ends header (append_components interest_key name) h.nonce location storage s q

  process_content-Ends :
      (header : LlHeader) (payload : List ℕ) (location : env.Location) (storage : List (Stored env))
      → Ends (HasName env) (env.parse_content payload)
      → IsSound storage
      → IsQuiet storage
      → Ends SoundStorage (process_content env header payload location storage)
  unfolding process_content
  process_content-Ends header payload location storage parses s q =
      Ends-bind (HasName env) SoundStorage (env.parse_content payload) _ parses λ parsed named.
        Ends-option SoundStorage parsed _ _ s λ h e. elim (Option-cases h.name) [
          | inl nameless ↦ absurd (subst (HasName env) e named nameless)
          | inr (name, p) ↦ rw p (content-Ends header name location storage s q)
        ]

  process-Ends :
      (header : LlHeader) (payload : List ℕ) (location : env.Location) (storage : List (Stored env))
      → IsReadable env payload
      → IsSound storage
      → IsQuiet storage
      → Ends SoundStorage (process env header payload location storage)
  unfolding process
  process-Ends header payload location storage r s q = rw (r.typed, process) (by_kind r.kind refl)
    where
      by_kind :
          (kind : Option PacketType)
          → r.kind ≡ kind
          → Ends SoundStorage (elim kind [
            | none ↦ done (storage, discard)
            | some interest ↦ process_interest env header payload location storage
            | some content_object ↦ process_content env header payload location storage
          ])
      by_kind none e = s
      by_kind (some interest) e =
          process_interest-Ends header payload location storage (r.interest_parses e) s q
      by_kind (some content_object) e =
          process_content-Ends header payload location storage (r.content_parses e) s q

  pub hand_up-IsSound :
      (header : LlHeader) (payload : List ℕ) (command : Command) (st : NomState env)
      → IsSound st.storage
      → IsSound (hand_up env header payload command st).0.storage
  unfolding hand_up
  hand_up-IsSound header payload go_up_layer st s = s
  hand_up-IsSound header payload discard st s = s
  hand_up-IsSound header payload failed st s = s

  -- `pktFromNetwork` on a frame that is too short for a packet, or whose packet is readable, ends and
  -- keeps the storage sound, where each stored packet has its acknowledgement data and no stored name
  -- is a prefix of another one.
  pub pkt_from_network-Ends :
      (frame : List ℕ) (location : env.Location) (st : NomState env)
      → (length frame ≤ env.socket_metadata_size + 28)
        ⊎ IsReadable env (drop (env.socket_metadata_size + 28) frame)
      → IsSound st.storage
      → IsQuiet st.storage
      → Ends (λ r. IsSound r.0.storage) (pkt_from_network env frame location st)
  unfolding pkt_from_network
  pkt_from_network-Ends frame location st r s q =
      cut_short (leb (length frame) (env.socket_metadata_size + 28)) refl
    where
      header : LlHeader
      header = read_header (drop env.socket_metadata_size frame)

      payload : List ℕ
      payload = drop (env.socket_metadata_size + 28) frame

      long : leb (length frame) (env.socket_metadata_size + 28) ≡ false → IsReadable env payload
      long b = elim r [ inl h ↦ absurd (ground arith) | inr readable ↦ readable ]

      cut_short :
          (b : Bool)
          → leb (length frame) (env.socket_metadata_size + 28) ≡ b
          → Ends
              (λ x. IsSound x.0.storage)
              (if b then done (st, discard) else (do
                x ← process env header payload location st.storage
                done (hand_up env header payload x.1 (record st { storage = x.0 }))))
      cut_short true b = s
      cut_short false b =
          Ends-bind SoundStorage (λ x. IsSound x.0.storage) _ _
            (process-Ends header payload location st.storage (long b) s q)
            λ x k. hand_up-IsSound header payload x.1 (record st { storage = x.0 }) k

-- ===== src/LlNomPolicy/Preservation.antt =====
-- What the operations of network/mac/ll-nom-policy.cc keep whenever they end, on any packet and frame.
use vndn.Base.{
  ℕ, ◌+◌, ◌-◌, ◌^◌, Bool, true, false, ◌&&◌, ◌==◌, leb, Option, none, some, List, [], ◌∷◌, length,
  drop, inl, inr, refl, if◌then◌else◌,
}
use vndn.Base.Outcome.{done, IfEnds, IfEnds-any, IfEnds-bind, IfEnds-map, IfEnds-if, IfEnds-option}
use vndn.Name.{Name}
use vndn.PacketStorage.{get_pkt_by_key, delete_pkt_by_key, search_by_prefix_match}
use vndn.LlNomPolicy.{
  NomEnv, NomState, Stored, LlHeader, go_up_layer, discard, PacketType, interest, content_object,
  get_ndn_header_type, received_retransmission, acknowledge, interest_from_network,
  content_acknowledged, satisfy_interests, content_from_network, process_interest, process_content,
  process, pkt_from_network, read_header, append_components, data_key, interest_key,
  add_outgoing_interest, add_outgoing_content, add_outgoing_pkt,
}
use vndn.LlNomPolicy.Safety.{
  IsSound, Sound, store_pkt-IsSound, new_element-IsCounted, satisfied-IsSound,
  delete_pkt_by_key-IsSound,
}
use vndn.LlNomPolicy.Reception.{SoundStorage, Kept, Kept-IsSound, hand_up-IsSound}

module _ (env : NomEnv) where
  acknowledge-Kept :
      (header : LlHeader) (key : List ℕ) (e : Stored env) (location : env.Location)
      (storage : List (Stored env))
      → IfEnds (Kept env key storage) (acknowledge env header key e location storage)
  unfolding acknowledge
  acknowledge-Kept header key e location storage =
      IfEnds-bind (λ r. Unit {0}) (Kept env key storage) _ _
        (IfEnds-any (received_retransmission env header e location))
        λ response _. either (response.0 && response.1 == 0)
    where
      either :
          (b : Bool)
          → Kept env key storage
              (if b then ((delete_pkt_by_key key storage).0, discard) else (storage, go_up_layer))
      either true = inr refl
      either false = inl refl

  interest-IsSound :
      (header : LlHeader) (key : List ℕ) (nonce : ℕ) (location : env.Location)
      (storage : List (Stored env))
      → IsSound storage
      → IfEnds (SoundStorage env) (interest_from_network env header key nonce location storage)
  unfolding interest_from_network
  interest-IsSound header key nonce location storage s =
      IfEnds-option (SoundStorage env) (get_pkt_by_key key storage) _ _ s λ e.
        IfEnds-if (SoundStorage env) (e.nonce == nonce) _ _
          (IfEnds-map (Kept env key storage) (SoundStorage env) _
            (λ r k. Kept-IsSound env key storage r s k)
            (acknowledge-Kept header key e location storage))
          s

  content_acknowledged-Kept :
      (header : LlHeader) (key : List ℕ) (location : env.Location) (storage : List (Stored env))
      → IfEnds (Kept env key storage) (content_acknowledged env header key location storage)
  unfolding content_acknowledged
  content_acknowledged-Kept header key location storage =
      IfEnds-option (Kept env key storage) (get_pkt_by_key key storage) _ _ (inl refl)
        λ e. acknowledge-Kept header key e location storage

  satisfy-IsSound :
      (matching storage : List (Stored env))
      → IsSound storage
      → IfEnds IsSound (satisfy_interests env matching storage)
  unfolding satisfy_interests
  satisfy-IsSound [] storage s = s
  satisfy-IsSound (e ∷ []) storage s = delete_pkt_by_key-IsSound e.name storage s
  satisfy-IsSound (e ∷ f ∷ l) storage s = tt

  content-IsSound :
      (header : LlHeader) (name : Name) (location : env.Location) (storage : List (Stored env))
      → IsSound storage
      → IfEnds (SoundStorage env) (content_from_network env header name location storage)
  unfolding content_from_network
  content-IsSound header name location storage s =
      let key = append_components data_key name in
      IfEnds-bind (Kept env key storage) (SoundStorage env) _ _
        (content_acknowledged-Kept header key location storage)
        λ r k.
          IfEnds-bind IsSound (SoundStorage env) _ _
            (satisfy-IsSound (search_by_prefix_match name r.0) r.0
              (Kept-IsSound env key storage r s k))
            λ left t. t

  process-IsSound :
      (header : LlHeader) (payload : List ℕ) (location : env.Location) (storage : List (Stored env))
      → IsSound storage
      → IfEnds (SoundStorage env) (process env header payload location storage)
  unfolding process process_interest process_content
  process-IsSound header payload location storage s =
      IfEnds-bind (λ k. Unit {0}) (SoundStorage env) _ _ (IfEnds-any (get_ndn_header_type payload))
        λ kind _. by_kind kind
    where
      by_kind :
          (kind : Option PacketType)
          → IfEnds (SoundStorage env) (elim kind [
            | none ↦ done (storage, discard)
            | some interest ↦ process_interest env header payload location storage
            | some content_object ↦ process_content env header payload location storage
          ])
      by_kind none = s
      by_kind (some interest) =
          IfEnds-bind (λ h. Unit {0}) (SoundStorage env) _ _
            (IfEnds-any (env.parse_interest payload))
            λ parsed _. IfEnds-option (SoundStorage env) parsed _ _ s λ h.
              IfEnds-option (SoundStorage env) h.name _ _ s λ name.
                interest-IsSound header (append_components interest_key name) h.nonce location
                  storage s
      by_kind (some content_object) =
          IfEnds-bind (λ h. Unit {0}) (SoundStorage env) _ _
            (IfEnds-any (env.parse_content payload))
            λ parsed _. IfEnds-option (SoundStorage env) parsed _ _ s λ h.
              IfEnds-option (SoundStorage env) h.name _ _ tt
                λ name. content-IsSound header name location storage s

  pub pkt_from_network-IsSound :
      (frame : List ℕ) (location : env.Location) (st : NomState env)
      → IsSound st.storage
      → IfEnds (λ r. IsSound r.0.storage) (pkt_from_network env frame location st)
  unfolding pkt_from_network
  pkt_from_network-IsSound frame location st s =
      let header = read_header (drop env.socket_metadata_size frame) in
      let payload = drop (env.socket_metadata_size + 28) frame in
      IfEnds-if (λ x. IsSound x.0.storage) (leb (length frame) (env.socket_metadata_size + 28)) _ _
        s
        (IfEnds-bind (SoundStorage env) (λ x. IsSound x.0.storage) _ _
          (process-IsSound header payload location st.storage s)
          λ x k. hand_up-IsSound env header payload x.1 (record st { storage = x.0 }) k)

  pub add_outgoing_pkt-IsSound :
      (now : ℕ × ℕ) (rand : ℕ) (pkt : List ℕ) (metadata : Option env.Geo) (location : env.Location)
      (st : NomState env)
      → IsSound st.storage
      → IfEnds (Sound env) (add_outgoing_pkt env now rand pkt metadata location st)
  unfolding add_outgoing_pkt add_outgoing_interest add_outgoing_content
  add_outgoing_pkt-IsSound now rand pkt metadata location st s =
      IfEnds-bind (λ k. Unit {0}) (Sound env) _ _ (IfEnds-any (get_ndn_header_type pkt))
        λ kind _. by_kind kind
    where
      by_kind :
          (kind : Option PacketType)
          → IfEnds (Sound env) (elim kind [
            | none ↦ done (st, discard)
            | some interest ↦ add_outgoing_interest env now rand pkt metadata location st
            | some content_object ↦ add_outgoing_content env now rand pkt metadata location st
          ])
      by_kind none = s
      by_kind (some interest) =
          IfEnds-bind (λ h. Unit {0}) (Sound env) _ _ (IfEnds-any (env.parse_interest pkt))
            λ parsed _. IfEnds-option (Sound env) parsed _ _ s λ h.
              IfEnds-option (Sound env) h.name _ _ s λ name.
                store_pkt-IsSound env _ st
                  (new_element-IsCounted env now rand _ name h.nonce pkt _ location) s
      by_kind (some content_object) =
          IfEnds-bind (λ h. Unit {0}) (Sound env) _ _ (IfEnds-any (env.parse_content pkt))
            λ parsed _. IfEnds-option (Sound env) parsed _ _ s λ h.
              IfEnds-option (Sound env) h.name _ _ tt λ name.
                store_pkt-IsSound env _ _
                  (new_element-IsCounted env now rand _ name (2 ^ 32 - 1) pkt _ location)
                  (satisfied-IsSound env (search_by_prefix_match name st.storage) st.storage s)

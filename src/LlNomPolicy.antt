-- ===== src/LlNomPolicy.antt =====
-- The link layer policy for ad hoc networks: network/mac/ll-nom-policy.{h,cc}, with the
-- acknowledgements of network/mac/lal-ack-manager-by-distance.cc, the header of
-- network/mac/ll-header.h and the type of a packet of helper/ndn-header-helper.cc. Statistics and
-- logging are left out.
pub mod Safety
pub mod Retransmission
pub mod Reception
pub mod Preservation
pub mod Run
pub mod Pending
use vndn.Base.{
  ℕ, zero, suc, ◌+◌, ◌-◌, ◌*◌, ◌/◌, ◌%◌, ◌^◌, Bool, true, false, ◌&&◌, ◌==◌, leb, Option, none,
  some, List, [], ◌∷◌, ◌++◌, length, take, drop, if◌then◌else◌,
}
use vndn.Base.Outcome.{Outcome, done, raised, undefined, ◌>>=◌, deref}
use vndn.Base.Sorted.{OrderedIndex}
use vndn.Header.{InterestHeader, ContentObjectHeader}
use vndn.Name.{Name}
use vndn.PacketStorage.{
  Element, timer_le, get_first_deadline, get_pkt_by_key, delete_pkt_by_key, delete_first_pkt,
  insert_pkt, increase_retransmission_counter_and_set_new_timer, search_by_prefix_match,
}

-- `llHeader`, packed: 12 characters for each coordinate, and four bytes in network order
pub record LlHeader : Type 0 where
  pub lat : List ℕ
  pub longitude : List ℕ
  pub tos : ℕ

-- the bytes of a header with a small `tos`, and the header in the first 28 bytes
unfoldable pub header_bytes : LlHeader → List ℕ
header_bytes h = h.lat ++ (h.longitude ++ (0 ∷ 0 ∷ 0 ∷ h.tos ∷ []))

unfoldable pub from_network_order : ℕ → List ℕ → ℕ
from_network_order value [] = value
from_network_order value (b ∷ bs) = from_network_order (value * 256 + b) bs

unfoldable pub read_header : List ℕ → LlHeader
read_header frame = record {
  lat = take 12 frame;
  longitude = take 12 (drop 12 frame);
  tos = from_network_order 0 (take 4 (drop 24 frame));
}

-- What the policy uses of other parts: the parser of headers, which may end in a header, in the
-- exception that is caught (`none`), in another one (`raised`), or in undefined behaviour;
-- positions, which are floating-point numbers, with `none` for a `CoordinateException`; the
-- connection to the daemon; and the places in the timer's index.
pub record NomEnv : Type 1 where
  pub Ack : Type 0
  pub Geo : Type 0
  pub Location : Type 0
  pub Coordinate : Type 0
  pub Upper : Type 0
  pub parse_interest : List ℕ → Outcome (Option InterestHeader)
  pub parse_content : List ℕ → Outcome (Option ContentObjectHeader)
  pub lat_char : Location → List ℕ
  pub lon_char : Location → List ℕ
  pub here : Location → Geo
  pub is_default : Geo → Bool
  pub gap : Geo → Location → ℕ
  pub create_ack_info : Location → Option Geo → LlHeader → Option Ack
  pub geo_of : LlHeader → Geo
  pub coordinate_of : LlHeader → Option Coordinate
  pub is_farther : Coordinate → Ack → Location → Bool
  pub write_message_to_ndn : List ℕ → Geo → ℕ → Upper → Upper × Bool
  pub socket_metadata_size : ℕ
  pub deadlines : OrderedIndex (timer_le {Ack = Ack} {Geo = Geo})

pub record NomState (env : NomEnv) : Type 0 where
  pub storage : List (Element env.Ack env.Geo)
  pub upper : env.Upper

-- The commands that are answered: `DISCARD` and -1; `GOUPLAYER` is an intermediate one.
pub data Command : Type 0 where
  discard go_up_layer failed : Command

pub data PacketType : Type 0 where
  interest content_object : PacketType

-- `GetNDNHeaderType`: `none` is `NDNUnknownHeaderException`. `CopyData` answers the length it was
-- asked for, so that a shorter packet is read past its end.
unfoldable pub get_ndn_header_type : List ℕ → Outcome (Option PacketType)
get_ndn_header_type [] = undefined
get_ndn_header_type (a ∷ []) = undefined
get_ndn_header_type (a ∷ b ∷ _) = done (
    if a == 1 && b == 210
    then some interest
    else if a == 4 && b == 130
    then some content_object
    else none)

-- `interestKey` and `dataKey`, and the key of a packet
abbrev pub interest_key : List ℕ
interest_key = b'I' ∷ b'N' ∷ b'T' ∷ b'E' ∷ b'R' ∷ b'E' ∷ b'S' ∷ b'T' ∷ []

abbrev pub data_key : List ℕ
data_key = b'D' ∷ b'A' ∷ b'T' ∷ b'A' ∷ b'O' ∷ b'B' ∷ b'J' ∷ b'E' ∷ b'C' ∷ b'T' ∷ []

unfoldable pub append_components : List ℕ → Name → List ℕ
append_components name [] = name
append_components name (c ∷ r) = append_components (name ++ c ++ (b'/' ∷ [])) r

abbrev pub max_retransmission_number : ℕ
max_retransmission_number = 8

-- `calculateFirstTransmission`: `rand` is what `rand ()` gives, and `gap` is `Tgap`
unfoldable pub calculate_first_transmission : ℕ × ℕ → ℕ → ℕ → ℕ × ℕ
calculate_first_transmission (sec, usec) rand gap =
    let total = usec + rand % 2000 + gap in ((sec + total / 1000000) % 2 ^ 32, total % 1000000)

-- `calculateNextTimer`
unfoldable pub calculate_next_timer : ℕ × ℕ → ℕ × ℕ
calculate_next_timer (sec, usec) =
    let total = 500000 + usec in ((sec + total / 1000000) % 2 ^ 32, total % 1000000)

module _ (env : NomEnv) where
  abbrev pub Stored : Type 0
  Stored = Element env.Ack env.Geo

  -- `setLLHeader`: the header of this place in front of the packet
  unfoldable pub ll_header : env.Location → LlHeader
  ll_header location = record {
    lat = env.lat_char location;
    longitude = env.lon_char location;
    tos = 75;
  }

  unfoldable pub set_ll_header : List ℕ → env.Location → List ℕ
  set_ll_header pkt location = header_bytes (ll_header location) ++ pkt

  -- `updateLLHeaderCoordinates`
  unfoldable pub update_ll_header_coordinates : List ℕ → env.Location → List ℕ
  update_ll_header_coordinates bytes location =
      env.lat_char location ++ (env.lon_char location ++ drop 24 bytes)

  -- the position of the previous hop, if the metadata has a valid one
  unfoldable pub previous_hop : Option env.Geo → Option env.Geo
  previous_hop none = none
  previous_hop (some geo) = if env.is_default geo then none else some geo

  -- the element that `addOutgoingPkt` stores
  unfoldable pub new_element :
      ℕ × ℕ → ℕ → List ℕ → Name → ℕ → List ℕ → Option env.Geo → env.Location → Stored
  new_element now rand key components nonce pkt hop location = record {
    name = key;
    components = components;
    nonce = nonce;
    bytes = set_ll_header pkt location;
    retransmission = 1;
    retransmission_limit = max_retransmission_number;
    timer =
        calculate_first_transmission now rand
          (elim hop [ none ↦ 0 | some geo ↦ env.gap geo location ]);
    ack_info = env.create_ack_info location hop (ll_header location);
    geo_info = elim hop [ none ↦ env.here location | some geo ↦ geo ];
  }

  -- the end of `addOutgoingPkt`
  unfoldable pub store_pkt : Stored → NomState env → NomState env × Command
  store_pkt e st =
      let (storage, ok) = insert_pkt env.deadlines e st.storage in
      (record st { storage = storage }, if ok then discard else failed)

  -- the loop of `addOutgoingPkt` over the elements that the content satisfies
  unfoldable pub delete_all : List Stored → List Stored → List Stored
  delete_all [] storage = storage
  delete_all (e ∷ matching) storage = delete_all matching (delete_pkt_by_key e.name storage).0

  -- `addOutgoingPkt`, by the type of the packet
  unfoldable pub add_outgoing_interest :
      ℕ × ℕ
      → ℕ
      → List ℕ
      → Option env.Geo
      → env.Location
      → NomState env
      → Outcome (NomState env × Command)
  add_outgoing_interest now rand pkt metadata location st = do
    parsed ← env.parse_interest pkt
    elim parsed [
      | none ↦ done (st, discard)
      | some header ↦ elim (header.name) [
        | none ↦ done (st, discard)
        | some name ↦ done (
            store_pkt
              (new_element now rand (append_components interest_key name) name header.nonce pkt
                (previous_hop metadata) location)
              st)
      ]
    ]

  unfoldable pub add_outgoing_content :
      ℕ × ℕ
      → ℕ
      → List ℕ
      → Option env.Geo
      → env.Location
      → NomState env
      → Outcome (NomState env × Command)
  add_outgoing_content now rand pkt metadata location st = do
    parsed ← env.parse_content pkt
    elim parsed [
      | none ↦ done (st, discard)
      | some header ↦ elim (header.name) [
        | none ↦ raised
        | some name ↦ done (
            store_pkt
              (new_element now rand (append_components data_key name) name (2 ^ 32 - 1) pkt
                (previous_hop metadata) location)
              (record st {
                storage = delete_all (search_by_prefix_match name st.storage) st.storage;
              }))
      ]
    ]

  -- `addOutgoingPkt`
  unfoldable pub add_outgoing_pkt :
      ℕ × ℕ
      → ℕ
      → List ℕ
      → Option env.Geo
      → env.Location
      → NomState env
      → Outcome (NomState env × Command)
  add_outgoing_pkt now rand pkt metadata location st = do
    kind ← get_ndn_header_type pkt
    elim kind [
      | none ↦ done (st, discard)
      | some interest ↦ add_outgoing_interest now rand pkt metadata location st
      | some content_object ↦ add_outgoing_content now rand pkt metadata location st
    ]

  -- `receivedRetransmission` of the acknowledgements by distance
  unfoldable pub received_retransmission : LlHeader → Stored → env.Location → Outcome (Bool × ℕ)
  received_retransmission header e location = elim (env.coordinate_of header) [
    | none ↦ done (false, 1)
    | some coordinate ↦ do
      ack ← deref e.ack_info
      done (if env.is_farther coordinate ack location then (true, 0) else (false, 1))
  ]

  -- what `pktFromNetwork` does about the stored packet with the same key
  unfoldable pub acknowledge :
      LlHeader → List ℕ → Stored → env.Location → List Stored → Outcome (List Stored × Command)
  acknowledge header key e location storage = do
    response ← received_retransmission header e location
    done (
        if response.0 && response.1 == 0
        then ((delete_pkt_by_key key storage).0, discard)
        else (storage, go_up_layer))

  unfoldable pub interest_from_network :
      LlHeader → List ℕ → ℕ → env.Location → List Stored → Outcome (List Stored × Command)
  interest_from_network header key nonce location storage = elim (get_pkt_by_key key storage) [
    | none ↦ done (storage, go_up_layer)
    | some e ↦
        if e.nonce == nonce
        then acknowledge header key e location storage
        else done (storage, go_up_layer)
  ]

  unfoldable pub content_acknowledged :
      LlHeader → List ℕ → env.Location → List Stored → Outcome (List Stored × Command)
  content_acknowledged header key location storage = elim (get_pkt_by_key key storage) [
    | none ↦ done (storage, go_up_layer)
    | some e ↦ acknowledge header key e location storage
  ]

  -- the loop of `pktFromNetwork` over the elements that the content satisfies; its element is the
  -- first of them in each round, which the first round deletes
  unfoldable pub satisfy_interests : List Stored → List Stored → Outcome (List Stored)
  satisfy_interests [] storage = done storage
  satisfy_interests (e ∷ []) storage = done (delete_pkt_by_key e.name storage).0
  satisfy_interests (e ∷ f ∷ matching) storage = undefined

  unfoldable pub content_from_network :
      LlHeader → Name → env.Location → List Stored → Outcome (List Stored × Command)
  content_from_network header name location storage = do
    let key : List ℕ = append_components data_key name
    answered ← content_acknowledged header key location storage
    left ← satisfy_interests (search_by_prefix_match name answered.0) answered.0
    done (left, answered.1)

  -- the switch of `pktFromNetwork`
  unfoldable pub process_interest :
      LlHeader → List ℕ → env.Location → List Stored → Outcome (List Stored × Command)
  process_interest header payload location storage = do
    parsed ← env.parse_interest payload
    elim parsed [
      | none ↦ done (storage, discard)
      | some h ↦ elim (h.name) [
        | none ↦ done (storage, discard)
        | some name ↦
            interest_from_network header (append_components interest_key name) h.nonce location
              storage
      ]
    ]

  unfoldable pub process_content :
      LlHeader → List ℕ → env.Location → List Stored → Outcome (List Stored × Command)
  process_content header payload location storage = do
    parsed ← env.parse_content payload
    elim parsed [
      | none ↦ done (storage, discard)
      | some h ↦ elim (h.name) [
        | none ↦ raised
        | some name ↦ content_from_network header name location storage
      ]
    ]

  unfoldable pub process :
      LlHeader → List ℕ → env.Location → List Stored → Outcome (List Stored × Command)
  process header payload location storage = do
    kind ← get_ndn_header_type payload
    elim kind [
      | none ↦ done (storage, discard)
      | some interest ↦ process_interest header payload location storage
      | some content_object ↦ process_content header payload location storage
    ]

  -- the end of `pktFromNetwork`
  unfoldable pub hand_up : LlHeader → List ℕ → Command → NomState env → NomState env × Command
  hand_up header payload go_up_layer st =
      let (upper, ok) = env.write_message_to_ndn payload (env.geo_of header) header.tos st.upper in
      (record st { upper = upper }, if ok then discard else failed)
  hand_up header payload discard st = (st, discard)
  hand_up header payload failed st = (st, failed)

  -- `pktFromNetwork`
  unfoldable pub pkt_from_network :
      List ℕ → env.Location → NomState env → Outcome (NomState env × Command)
  pkt_from_network frame location st =
      let header = read_header (drop env.socket_metadata_size frame) in
      let payload = drop (env.socket_metadata_size + 28) frame in
      if leb (length frame) (env.socket_metadata_size + 28) then done (st, discard) else (do
        r ← process header payload location st.storage
        done (hand_up header payload r.1 (record st { storage = r.0 })))

  -- `getNextDeadline`: `none` is `NOTIMER`
  unfoldable pub get_next_deadline : NomState env → Option (ℕ × ℕ)
  get_next_deadline st = elim (get_first_deadline st.storage) [
    | none ↦ none
    | some e ↦ some e.timer
  ]

  -- `getPktForRetransmission`: the packet that is to be sent, or `none` for -1
  unfoldable pub get_pkt_for_retransmission :
      ℕ × ℕ → env.Location → NomState env → NomState env × Option (List ℕ)
  get_pkt_for_retransmission now location st = elim (get_first_deadline st.storage) [
    | none ↦ (st, none)
    | some e ↦
        let out = update_ll_header_coordinates e.bytes location in
        let deleted : NomState env = record st {
          storage = (delete_first_pkt e.name st.storage).0;
        } in
        let (storage, ok) =
          increase_retransmission_counter_and_set_new_timer env.deadlines e.name
            (calculate_next_timer now) st.storage in
        if leb e.retransmission_limit e.retransmission
        then (deleted, some out)
        else if ok
        then (record st { storage = storage }, some out)
        else (deleted, none)
  ]

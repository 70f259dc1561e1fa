-- ===== src/Tests/Mac.antt =====
-- The theorems of the ad hoc link layer, with numbers for positions.
use vndn.Base.{
  ℕ, ◌+◌, ◌*◌, ◌≤◌, ◌<◌, ◌≡◌, refl, ap, inr, true, false, Bool, Option, none, some, List, [], ◌∷◌,
  ◌++◌, length, take, All, arith,
}
use vndn.Base.Sorted.{OrderedIndex}
use vndn.Base.Outcome.{done, undefined, Ends}
use vndn.Name.{Name}
use vndn.PacketStorage.{Element, timer_le, time_le, get_pkt_by_key, find_components, insert_pkt}
use vndn.PacketStorage.Search.{search_by_prefix_match-empty}
use vndn.LlNomPolicy.{
  NomEnv, NomState, Stored, LlHeader, new_element, store_pkt, add_outgoing_interest, previous_hop,
  discard, add_outgoing_pkt, pkt_from_network, content_from_network, append_components,
  interest_key, data_key, get_ndn_header_type, content_object,
}
use vndn.LlNomPolicy.Safety.{IsSound, IsReadable, add_outgoing_pkt-Ends}
use vndn.LlNomPolicy.Reception.{IsQuiet, pkt_from_network-Ends}
use vndn.LlNomPolicy.Retransmission.{left, left_of, calls}
use vndn.LlNomPolicy.Pending.{content_from_network-undefined}
use vndn.LlNomPolicy.Run.{Reachable, start, outgoing, Reachable-IsSound, Reachable-drains}
use vndn.Tests.Index.{upper_bound, lower, upper}
use vndn.Tests.Data.{name_a, name_ab, asking, answering}

abbrev Packet : Type 0
Packet = Element ℕ ℕ

timer_le_total : (a b : Packet) → timer_le a b ≡ false → timer_le b a ≡ true
unfolding timer_le time_le
timer_le_total a b h = ground arith

timer_le_trans : (a b c : Packet) → timer_le a b ≡ true → timer_le b c ≡ true → timer_le a c ≡ true
unfolding timer_le time_le
timer_le_trans a b c h k = ground arith

-- An interest is for /a/b, a content object is /a/b.
abbrev mac : NomEnv
mac = record {
  Ack = ℕ;
  Geo = ℕ;
  Location = ℕ;
  Coordinate = ℕ;
  Upper = List (List ℕ);
  parse_interest = λ pkt. done (some (asking name_ab 5));
  parse_content = λ pkt. done (some (answering name_ab));
  lat_char = λ location. 43 ∷ location ∷ 0 ∷ 0 ∷ 0 ∷ 0 ∷ 0 ∷ 0 ∷ 0 ∷ 0 ∷ 0 ∷ 0 ∷ [];
  lon_char = λ location. 43 ∷ location ∷ 0 ∷ 0 ∷ 0 ∷ 0 ∷ 0 ∷ 0 ∷ 0 ∷ 0 ∷ 0 ∷ 0 ∷ [];
  here = λ location. location;
  is_default = λ geo. false;
  gap = λ geo location. 100;
  create_ack_info = λ location hop header. some location;
  geo_of = λ header. 0;
  coordinate_of = λ header. some 1;
  is_farther = λ coordinate ack location. true;
  write_message_to_ndn = λ pkt geo tos upper. (upper ++ (pkt ∷ []), true);
  socket_metadata_size = 1;
  deadlines = upper_bound timer_le timer_le_total timer_le_trans;
}

abbrev idle : NomState mac
idle = record { storage = []; upper = [] }

abbrev interest_pkt : List ℕ
interest_pkt = 1 ∷ 210 ∷ 7 ∷ []

abbrev content_pkt : List ℕ
content_pkt = 4 ∷ 130 ∷ 7 ∷ []

content_pkt-IsReadable : IsReadable mac content_pkt
unfolding get_ndn_header_type
content_pkt-IsReadable = record {
  kind = some content_object;
  typed = refl;
  interest_parses = λ e. tt;
  content_parses = λ e n. cc n;
}

idle-IsSound : IsSound idle.storage
idle-IsSound = Reachable-IsSound idle (start [])

add_outgoing_pkt-Ends_example :
    Ends (λ x. IsSound x.0.storage) (add_outgoing_pkt mac (5, 999990) 3 content_pkt none 9 idle)
add_outgoing_pkt-Ends_example =
    add_outgoing_pkt-Ends mac (5, 999990) 3 content_pkt none 9 idle content_pkt-IsReadable
      idle-IsSound

-- a frame: the socket's byte, 28 bytes of header, and the packet
abbrev frame : List ℕ
frame =
    0 ∷ 43 ∷ 1 ∷ 0 ∷ 0 ∷ 0 ∷ 0 ∷ 0 ∷ 0 ∷ 0 ∷ 0 ∷ 0 ∷ 0 ∷ 43 ∷ 1 ∷ 0 ∷ 0 ∷ 0 ∷ 0 ∷ 0 ∷ 0 ∷ 0 ∷ 0 ∷ 0
    ∷ 0 ∷ 0 ∷ 0 ∷ 0 ∷ 75 ∷ 4 ∷ 130 ∷ 7 ∷ []

idle-IsQuiet : IsQuiet mac idle.storage
idle-IsQuiet = record {
  acks = tt;
  flat = λ name. omega (arith, ap length (search_by_prefix_match-empty {Ack = ℕ} {Geo = ℕ} name));
}

pkt_from_network-Ends_example : Ends (λ x. IsSound x.0.storage) (pkt_from_network mac frame 9 idle)
pkt_from_network-Ends_example =
    pkt_from_network-Ends mac frame 9 idle (inr content_pkt-IsReadable) idle-IsSound idle-IsQuiet

-- the state after an interest for /a/b from the daemon
abbrev asked : Stored mac
asked =
    new_element mac (5, 999990) 3 (append_components interest_key name_ab) name_ab 5 interest_pkt
      none 9

abbrev busy : NomState mac
busy = (store_pkt mac asked idle).0

busy-Reachable : Reachable mac busy
unfolding add_outgoing_pkt get_ndn_header_type add_outgoing_interest previous_hop store_pkt
    insert_pkt get_pkt_by_key find_components vndn.Base.Keyed.find
busy-Reachable = outgoing idle busy (5, 999990) 3 interest_pkt none 9 discard (start []) refl

abbrev times : List ((ℕ × ℕ) × ℕ)
times =
    ((6, 0), 9)
    ∷ ((7, 0), 9)
    ∷ ((8, 0), 9)
    ∷ ((9, 0), 9)
    ∷ ((10, 0), 9)
    ∷ ((11, 0), 9)
    ∷ ((12, 0), 9)
    ∷ ((13, 0), 9)
    ∷ []

left-busy : length times ≡ left busy.storage
unfolding left left_of vndn.Base.Total.total store_pkt insert_pkt get_pkt_by_key find_components
    vndn.Base.Keyed.find vndn.Base.Sorted.insert_at lower upper new_element
left-busy = refl

Reachable-drains_example :
    (length times ≤ 8 * length busy.storage)
    × ((calls mac times busy).0.storage ≡ [])
    × ((calls mac times busy).1 ≡ length times)
Reachable-drains_example = Reachable-drains times busy busy-Reachable left-busy

-- interests for /a and for /a/b
abbrev asked_a : Stored mac
asked_a =
    new_element mac (6, 0) 3 (append_components interest_key name_a) name_a 6 interest_pkt none 9

abbrev nested : List (Stored mac)
nested = asked ∷ asked_a ∷ []

abbrev received : LlHeader
received = record { lat = []; longitude = []; tos = 75 }

nested-absent : get_pkt_by_key (append_components data_key name_ab) nested ≡ none
unfolding get_pkt_by_key vndn.Base.Keyed.find new_element append_components
    vndn.Name.Compare.Component-discrete vndn.Base.Bool-cases vndn.Name.equal_bytes
nested-absent = refl

nested-found :
    (find_components nested (take 1 name_ab) ≡ some asked_a)
    × (find_components nested (take 2 name_ab) ≡ some asked)
unfolding find_components vndn.Base.Keyed.find new_element vndn.Name.Compare.Name-discrete
    vndn.Base.Bool-cases vndn.Name.name_eq vndn.Name.equal_components vndn.Name.equal_bytes
nested-found = (refl, refl)

content_from_network-undefined_example :
    content_from_network mac received name_ab 9 nested ≡ undefined
content_from_network-undefined_example =
    content_from_network-undefined mac received name_ab 9 nested 1 2 asked_a asked nested-absent
      (omega arith) (omega arith) nested-found.0 nested-found.1

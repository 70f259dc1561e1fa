-- ===== src/PacketStorage.antt =====
-- The packets that the ad hoc link layer has sent and not seen acknowledged yet:
-- network/mac/packet-storage.{h,cc}. The multi-index container is the list of its elements in the
-- order of the next retransmission; the other two indices, by key and by the name's components, are
-- unique.
pub mod Table
pub mod Search
use vndn.Base.{
  ℕ, zero, suc, ◌+◌, ◌%◌, ◌^◌, Bool, true, false, Option, none, some, List, [], ◌∷◌, ltb, leb,
  length, if◌then◌else◌, ite,
}
use vndn.Base.Keyed
use vndn.Base.Sorted.{OrderedIndex, insert_at, reposition}
use vndn.Name.{Component, Name, get_sub_components}
use vndn.Name.Compare.{Component-discrete, Name-discrete}
use vndn.Name.Prefix

-- `linkLayerPktElement`: a key is a string; `Ack` is what `AckInfo` points to, null for `none`, and
-- `Geo` a `GeoStorage`. `localSource` is never written or read.
pub record Element (Ack Geo : Type 0) : Type 0 where
  pub name : List ℕ
  pub components : Name
  pub nonce : ℕ
  pub bytes : List ℕ
  pub retransmission : ℕ
  pub retransmission_limit : ℕ
  pub timer : ℕ × ℕ
  pub ack_info : Option Ack
  pub geo_info : Geo

-- `operator<` of pairs, the other way round: the order of the index by timer
unfoldable pub time_le : ℕ × ℕ → ℕ × ℕ → Bool
time_le (sec, usec) (sec', usec') =
    if ltb sec sec' then true else if ltb sec' sec then false else leb usec usec'

module _ {Ack Geo : Type 0} where
  unfoldable pub timer_le : Element Ack Geo → Element Ack Geo → Bool
  timer_le a b = time_le a.timer b.timer

  abbrev pub name_of : Element Ack Geo → List ℕ
  name_of e = e.name

  abbrev pub components_of : Element Ack Geo → Name
  components_of e = e.components

  -- `getFirstDeadline`
  unfoldable pub get_first_deadline : List (Element Ack Geo) → Option (Element Ack Geo)
  get_first_deadline [] = none
  get_first_deadline (e ∷ storage) = some e

  -- `getPktByKey`
  unfoldable pub get_pkt_by_key : List ℕ → List (Element Ack Geo) → Option (Element Ack Geo)
  get_pkt_by_key = Keyed.find Component-discrete name_of

  -- the element of the index by components
  unfoldable pub find_components : List (Element Ack Geo) → Name → Option (Element Ack Geo)
  find_components storage prefix = Keyed.find Name-discrete components_of prefix storage

  -- `deletePktByKey`: the Boolean is whether the code returns 1
  unfoldable pub delete_pkt_by_key : List ℕ → List (Element Ack Geo) → List (Element Ack Geo) × Bool
  delete_pkt_by_key key storage = elim (get_pkt_by_key key storage) [
    | none ↦ (storage, false)
    | some e ↦ (Keyed.erase Component-discrete name_of key storage, true)
  ]

  -- `deleteFirstPkt`: only if the first element has the key
  unfoldable pub delete_first_pkt : List ℕ → List (Element Ack Geo) → List (Element Ack Geo) × Bool
  delete_first_pkt key [] = ([], false)
  delete_first_pkt key (e ∷ storage) =
      ite (Component-discrete e.name key) (storage, true) (e ∷ storage, false)

  -- what `setNewTimer` and `increaseRetransmissionCounterAndSetNewTimer` do to an element
  unfoldable pub set_timer : ℕ × ℕ → Element Ack Geo → Element Ack Geo
  set_timer new_time e = record e { timer = new_time }

  unfoldable pub increase_and_set_timer : ℕ × ℕ → Element Ack Geo → Element Ack Geo
  increase_and_set_timer new_time e = record e {
    retransmission = (e.retransmission + 1) % 2 ^ 32;
    timer = new_time;
  }

  -- the body of the loop of `searchByPrefixMatch`, from the given number of components down
  unfoldable pub search_loop : ℕ → Name → List (Element Ack Geo) → List (Element Ack Geo)
  search_loop zero name storage = []
  search_loop (suc components_count) name storage =
      let shorter = search_loop components_count name storage in
      elim (get_sub_components components_count name) [
        | none ↦ []
        | some sub_prefix ↦ elim (find_components storage sub_prefix) [
          | none ↦ shorter
          | some e ↦ e ∷ shorter
        ]
      ]

  -- `searchByPrefixMatch`: the elements of all prefixes of the name, the longest first
  unfoldable pub search_by_prefix_match : Name → List (Element Ack Geo) → List (Element Ack Geo)
  search_by_prefix_match name storage = search_loop (length name + 1) name storage

  -- `searchAndDeleteByLongestPrefixMatch`
  unfoldable pub search_and_delete_by_longest_prefix_match :
      Name → List (Element Ack Geo) → List (Element Ack Geo) × Bool
  search_and_delete_by_longest_prefix_match name storage =
      elim (Prefix.longest_prefix_match (find_components storage) name) [
        | none ↦ (storage, false)
        | some e ↦ (Keyed.erase Name-discrete components_of e.components storage, true)
      ]

  module _ (deadlines : OrderedIndex timer_le) where
    -- `insertPkt`: both unique indices refuse an element whose key they have
    unfoldable pub insert_pkt :
        Element Ack Geo → List (Element Ack Geo) → List (Element Ack Geo) × Bool
    insert_pkt e storage = elim (get_pkt_by_key e.name storage) [
      | some _ ↦ (storage, false)
      | none ↦ elim (find_components storage e.components) [
        | some _ ↦ (storage, false)
        | none ↦ (insert_at deadlines (length storage) e storage, true)
      ]
    ]

    -- `replace` of the element with a key by one with the same unique keys, which succeeds
    unfoldable pub replace :
        List ℕ
        → (Element Ack Geo → Element Ack Geo)
        → List (Element Ack Geo)
        → List (Element Ack Geo) × Bool
    replace key f storage = elim (get_pkt_by_key key storage) [
      | none ↦ (storage, false)
      | some e ↦ (reposition deadlines Component-discrete name_of key f storage, true)
    ]

    -- `setNewTimer`
    unfoldable pub set_new_timer :
        List ℕ → ℕ × ℕ → List (Element Ack Geo) → List (Element Ack Geo) × Bool
    set_new_timer key new_time = replace key (set_timer new_time)

    -- `increaseRetransmissionCounterAndSetNewTimer`
    unfoldable pub increase_retransmission_counter_and_set_new_timer :
        List ℕ → ℕ × ℕ → List (Element Ack Geo) → List (Element Ack Geo) × Bool
    increase_retransmission_counter_and_set_new_timer key new_time =
        replace key (increase_and_set_timer new_time)

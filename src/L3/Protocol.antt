-- ===== src/L3/Protocol.antt =====
-- NDNL3Protocol: the handlers of interests, NACKs and data, faces that go, and the reaper. `now` is
-- the clock at the event.
pub mod Steps
pub mod Safety
pub mod Delivery
pub mod Arrival
pub mod Interests
pub mod Served
pub mod Unnamed
pub mod Fresh
pub mod Nacks
use vndn.Base.{
  ℕ, ◌+◌, Bool, true, false, not, ◌&&◌, Option, none, some, List, [], ◌∷◌, ◌++◌, map, ltb, leb,
  ◌==◌, if◌then◌else◌, length, ite,
}
use vndn.Header
use vndn.Header.{
  InterestHeader, ContentObjectHeader, set_nack, nack_loop, nack_giveup_pit, normal_interest,
}
use vndn.Fib
use vndn.Fib.{Fib, FibEntry, Status, green, yellow, update_entry_status, remove_from_all}
use vndn.Name.{Name}
use vndn.Pit.{
  Pit, PitEntry, Found, SourceInfo, IncomingFace, find_outgoing, find_incoming, find_entry,
  modify_entry, reschedule, remove, add_incoming, remove_incoming, clear_incoming, clear_outgoing,
  set_expire_time, update_lifetime, set_waiting_in_vain, are_all_outgoing_in_vain,
  remove_all_references_to_face, set_source_metadata, lookup_interest, lookup_content,
  clean_expired,
}
use vndn.L3.{
  Env, State, Frame, whole, released, built, Packet, Metadata, over_ip, other_layer, Outcome, done,
  raised, undefined, ◌>>=◌, deref, get_name, send,
}
use vndn.L3.Strategy.{follow, is_incoming, propagate_interest}

-- What `GetNDNHeaderType` and `GetHeader` find in a packet.
pub data Received : Type 0 where
  interest_packet : InterestHeader → Received
  content_packet : ContentObjectHeader → Received
  unknown_packet : Received

-- its test for a source that is there already
unfoldable pub holds : ℕ → ℕ → SourceInfo → Bool
holds ip port [] = false
holds ip port ((ip', port') ∷ list) =
    let rest = holds ip port list in if ip' == ip && port' == port then true else rest

-- `RequestSourceIPInfo::addIP`: a new source goes to the front.
unfoldable pub add_ip : ℕ → ℕ → SourceInfo → SourceInfo
add_ip ip port list = if holds ip port list then list else (ip, port) ∷ list

-- the loop that copies the sources of an entry
unfoldable pub copy_sources : SourceInfo → SourceInfo → SourceInfo
copy_sources [] new = new
copy_sources ((ip, port) ∷ old) new = copy_sources old (add_ip ip port new)

-- The sources that an interest over IP leaves in its entry.
unfoldable pub sources : Bool → ℕ → ℕ → Option SourceInfo → SourceInfo
sources duplicate ip port none = add_ip ip port []
sources duplicate ip port (some old) =
    if duplicate then copy_sources old [] else add_ip ip port (copy_sources old [])

-- The packet of an interest over IP: its metadata is freed if the entry had none yet.
unfoldable pub left_of : Option SourceInfo → Packet → Frame
left_of none packet = released packet
left_of (some old) packet = whole packet

module _ (env : Env) where
  abbrev with_pit : (Pit → Pit) → State env → State env
  with_pit f st = record st { pit = f st.pit }

  -- The loop that sends a frame to the incoming faces of an entry.
  unfoldable pub send_all : List IncomingFace → Frame → Option SourceInfo → State env → State env
  send_all [] frame metadata st = st
  send_all (i ∷ is) frame metadata st = send_all is frame metadata (send i.face frame metadata st)

  -- `SatisfyPendingInterests`
  unfoldable pub satisfy_pending_interests : PitEntry → Packet → State env → State env
  satisfy_pending_interests e content st =
      with_pit (remove e.prefix) (send_all e.incoming (whole content) e.source_metadata st)

  -- `GiveUpInterest`
  unfoldable pub give_up_interest : ℕ → Name → InterestHeader → State env → Outcome (State env)
  give_up_interest now prefix header st = do
    e ← deref (find_entry prefix st.pit)
    let st' =
        if st.nacks_enabled
        then send_all e.incoming (built (set_nack nack_giveup_pit header)) none st
        else st
    done (
        with_pit
          (λ pit.
            reschedule env.timers prefix (set_expire_time (now + pit.pruning_timeout))
              (modify_entry prefix clear_outgoing (modify_entry prefix clear_incoming pit)))
          st')

  -- the end of `OnInterest` and of `OnNack`
  unfoldable pub propagate_or_give_up :
      ℕ → Name → InterestHeader → Frame → State env → Outcome (State env)
  propagate_or_give_up now prefix header frame st = do
    (st', propagated) ← propagate_interest env now prefix frame st
    if propagated then done st' else give_up_interest now prefix header st'

  -- `handleDuplicateInterest`
  unfoldable pub handle_duplicate_interest : ℕ → InterestHeader → State env → State env
  handle_duplicate_interest face header st =
      if st.nacks_enabled then send face (built (set_nack nack_loop header)) none st else st

  -- `updatePITForInterest`
  unfoldable pub update_pit_for_interest :
      ℕ → Name → ℕ → InterestHeader → State env → Outcome (State env)
  update_pit_for_interest now prefix face header st = do
    e ← deref (find_entry prefix st.pit)
    done (
        with_pit
          (λ pit.
            reschedule env.timers prefix (update_lifetime now header.interest_lifetime)
              (if is_incoming face e then pit else modify_entry prefix (add_incoming now face) pit))
          st)

  -- the part of `OnInterest` about the packet's metadata, and the packet that is left
  unfoldable pub note_source :
      Option Metadata → Packet → Found → State env → Outcome (State env × Frame)
  note_source (some (over_ip ip port)) packet found st = do
    e ← deref (find_entry found.entry st.pit)
    done (
      with_pit
          (modify_entry found.entry
            (set_source_metadata (sources found.is_duplicate ip port e.source_metadata)))
          st,
      left_of e.source_metadata packet,
    )
  note_source (some other_layer) packet found st = done (st, whole packet)
  note_source none packet found st = done (st, whole packet)

  -- `checkContentStoreForInterest` after the lookup, and whether the store had content
  unfoldable pub serve : Name → State env → env.Store × Option Packet → Outcome (State env × Bool)
  serve prefix st (store, none) = done (record st { store = store }, false)
  serve prefix st (store, some content) = do
    e ← deref (find_entry prefix st.pit)
    done (satisfy_pending_interests e content (record st { store = store }), true)

  -- `checkContentStoreForInterest`
  unfoldable pub check_content_store : Name → Name → State env → Outcome (State env × Bool)
  check_content_store name prefix st = env.lookup_store name st.store >>= serve prefix st

  -- `OnInterest` from the check for a duplicate on
  unfoldable pub forward_interest :
      ℕ → ℕ → InterestHeader → Frame → Found → State env → Outcome (State env)
  forward_interest now face header frame found st =
      let duplicate = handle_duplicate_interest face header st in
      let forwarded = propagate_or_give_up now found.entry header frame st in
      if found.is_duplicate then done duplicate else if found.success then forwarded else done st

  -- `OnInterest`
  unfoldable pub on_interest : ℕ → ℕ → InterestHeader → Packet → State env → Outcome (State env)
  on_interest now face header packet st = do
    name ← get_name header.name
    let (pit, found) =
        lookup_interest env.timers now name header.nonce header.interest_lifetime st.fib st.pit
    (st', frame) ← note_source packet.metadata packet found (record st { pit = pit })
    st'' ←
        if found.success then update_pit_for_interest now found.entry face header st' else done st'
    (st''', hit) ← check_content_store name found.entry st''
    if hit then done st''' else forward_interest now face header frame found st'''

  -- `m_fib->m_fib.modify (m_fib->m_fib.iterator_to (*pitEntry.m_fibEntry), UpdateStatus)`
  unfoldable pub update_fib_status : PitEntry → ℕ → Status → State env → Outcome (State env)
  update_fib_status e face status st = do
    target ← follow st.fib e
    done (elim target [
      | none ↦ st
      | some entry ↦ record st {
        fib = update_entry_status env.metrics entry.prefix face status st.fib;
      }
    ])

  -- `HandleUnsolicitedData`
  unfoldable pub handle_unsolicited_data : Name → Packet → State env → State env × Bool
  handle_unsolicited_data name payload st =
      let (store, new_entry) = env.add_store name payload st.store in
      if st.cache_unsolicited_data then (record st { store = store }, new_entry) else (st, false)

  -- `OnData` on the pending entry
  unfoldable pub accept_data : ℕ → Name → Packet → PitEntry → State env → Outcome (State env)
  accept_data face name packet e st = elim (find_outgoing face e) [
    | none ↦ done st
    | some _ ↦ do
      st' ← update_fib_status e face green st
      done (
          satisfy_pending_interests e packet
            (record st' { store = (env.add_store name packet st'.store).0 }))
  ]

  -- `OnData`
  unfoldable pub on_data : ℕ → ContentObjectHeader → Packet → State env → Outcome (State env)
  on_data face header packet st = do
    name ← get_name header.name
    elim (lookup_content name st.pit) [
      | none ↦ done (handle_unsolicited_data name packet st).0
      | some e ↦ accept_data face name packet e st
    ]

  -- `OnNack` from the test of the incoming faces on
  unfoldable pub retry_interest : ℕ → Name → InterestHeader → State env → Outcome (State env)
  retry_interest now prefix header st = do
    e ← deref (find_entry prefix st.pit)
    let retry =
        propagate_or_give_up now prefix (set_nack normal_interest header)
          (built (set_nack normal_interest header)) st
    if length e.incoming == 0
        then done st
        else if are_all_outgoing_in_vain e
        then retry
        else done st

  -- `OnNack` on an entry that the interest was sent from
  unfoldable pub nack_on : ℕ → ℕ → Name → InterestHeader → State env → Outcome (State env)
  nack_on now face prefix header st = do
    let waiting : State env = with_pit (modify_entry prefix (set_waiting_in_vain face)) st
    let st' : State env =
        if header.nack_type == nack_giveup_pit
        then with_pit (modify_entry prefix (remove_incoming face)) waiting
        else waiting
    e ← deref (find_entry prefix st'.pit)
    st'' ← update_fib_status e face yellow st'
    retry_interest now prefix header st''

  -- `OnNack`
  unfoldable pub on_nack : ℕ → ℕ → InterestHeader → State env → Outcome (State env)
  on_nack now face header st = do
    name ← get_name header.name
    let (pit, found) =
        lookup_interest env.timers now name header.nonce header.interest_lifetime st.fib st.pit
    let st' : State env = record st { pit = pit }
    e ← deref (find_entry found.entry pit)
    let on_face : Outcome (State env) = elim (find_outgoing face e) [
      | none ↦ done st'
      | some _ ↦ nack_on now face found.entry header st'
    ]
    if found.is_new then done st' else if not found.is_duplicate then done st' else on_face

  -- `AddFace`
  unfoldable pub add_face : ℕ → State env → State env
  add_face face st = record st { faces = st.faces ++ (face ∷ []) }

  -- `Receive`; the exception NDNUnknownHeaderException is caught
  unfoldable pub receive : ℕ → ℕ → Received → Packet → State env → Outcome (State env)
  receive now face (interest_packet header) packet st =
      let nack = on_nack now face header st in
      let asked = on_interest now face header packet st in
      if ltb 0 header.nack_type then nack else asked
  receive now face (content_packet header) packet st = on_data face header packet st
  receive now face unknown_packet packet st = done st

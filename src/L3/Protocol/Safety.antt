-- ===== src/L3/Protocol/Safety.antt =====
-- The handlers of interests, data and NACKs (daemon/ndn-l3-protocol.cc) end and keep the invariant.
use vndn.Base.{
  ℕ, ◌≡◌, ◌≢◌, [], refl, sym, subst, Bool, true, false, Option, none, some, ◌==◌, not, length,
  if◌then◌else◌,
}
use vndn.Header.{
  InterestHeader, ContentObjectHeader, set_nack, nack_loop, normal_interest, nack_giveup_pit,
}
use vndn.Fib.{green, yellow}
use vndn.Name.{Name}
use vndn.Pit
use vndn.Pit.{
  PitEntry, Found, find_entry, find_outgoing, lookup_content, lookup_interest, modify_entry,
  set_waiting_in_vain, remove_incoming, are_all_outgoing_in_vain,
}
use vndn.Pit.Keeps.{set_waiting_in_vain-KeepsKeys, remove_incoming-KeepsKeys}
use vndn.Base.Keyed.{key-find}
use vndn.Name.Compare.{Name-discrete}
use vndn.L3.{
  Env, State, Frame, built, Packet, Outcome, LooksUp, done, raised, undefined, ◌>>=◌, send,
}
use vndn.L3.Protocol.{
  handle_duplicate_interest, check_content_store, serve, forward_interest, on_interest,
  handle_unsolicited_data, accept_data, on_data, retry_interest, nack_on, on_nack,
}
use vndn.L3.Invariant.{
  IsValid, Ready, Ends, Ends-bind, Ends-if, Ends-option, Ends-named, deref-Ends, modify-Ready,
}
use vndn.L3.Protocol.Steps.{
  IsValid-same, satisfy-IsValid, propagate_or_give_up-Ends, update_pit_for_interest-Ends,
  note_source-Ends, update_fib_status-Ends, lookup-Ready,
}

module _ {env : Env} where
  duplicate-IsValid :
      (face : ℕ) (header : InterestHeader) (st : State env)
      → IsValid st
      → IsValid (handle_duplicate_interest env face header st)
  unfolding handle_duplicate_interest send
  duplicate-IsValid face header st v = answered st.nacks_enabled
    where
      answered :
          (on : Bool)
          → IsValid (if on then send face (built (set_nack nack_loop header)) none st else st)
      answered true =
          IsValid-same st (send face (built (set_nack nack_loop header)) none st) (refl, refl, refl)
            v
      answered false = v

  forward_interest-Ends :
      (now face : ℕ) (header : InterestHeader) (frame : Frame) (found : Found) (st : State env)
      → Ready found.entry st
      → Ends IsValid (forward_interest env now face header frame found st)
  unfolding forward_interest
  forward_interest-Ends now face header frame found st r =
      Ends-if IsValid found.is_duplicate _ _ (duplicate-IsValid face header st r.valid) (
        Ends-if IsValid found.success _ _
          (propagate_or_give_up-Ends now found.entry header frame st r) (r.valid))

  -- What is left after the content store was asked.
  abbrev Asked : Name → State env × Bool → Type 0
  Asked prefix (st, true) = IsValid st
  Asked prefix (st, false) = Ready prefix st

  store-IsValid :
      (store : env.Store) (st : State env)
      → env.IsSound store
      → IsValid st
      → IsValid (record st { store = store })
  store-IsValid store st s v = record { fib = v.fib; pit = v.pit; pointers = v.pointers; store = s }

  serve-Ends :
      (prefix : Name) (st : State env) (r : env.Store × Option Packet)
      → Ready prefix st
      → env.IsSound r.0
      → Ends (Asked prefix) (serve env prefix st r)
  unfolding serve
  serve-Ends prefix st (store, none) r s = record {
    valid = store-IsValid store st s r.valid;
    entry = r.entry;
    found = r.found;
  }
  serve-Ends prefix st (store, some content) r s =
      Ends-bind (λ e. find_entry prefix st.pit ≡ some e) (Asked prefix) _ _ (deref-Ends r)
        λ e found.
          satisfy-IsValid e content (record st { store = store }) (store-IsValid store st s r.valid)

  check_content_store-Ends :
      (name prefix : Name) (st : State env)
      → name ≢ []
      → Ready prefix st
      → Ends (Asked prefix) (check_content_store env name prefix st)
  unfolding check_content_store
  check_content_store-Ends name prefix st below r =
      answered (env.lookup_store name st.store)
        (env.lookup_store-LooksUp name st.store r.valid.store)
    where
      answered :
          (o : Outcome (env.Store × Option Packet))
          → LooksUp env.IsSound name o
          → Ends (Asked prefix) (o >>= serve env prefix st)
      answered (done got) s = serve-Ends prefix st got r s
      answered raised s = absurd s
      answered undefined s = absurd (below s)

  -- `OnInterest` on an interest with a name that is not the root ends in a state that keeps the invariant.
  pub on_interest-Ends :
      (now face : ℕ) (header : InterestHeader) (packet : Packet) (st : State env) (name : Name)
      → header.name ≡ some name
      → name ≢ []
      → IsValid st
      → Ends IsValid (on_interest env now face header packet st)
  unfolding on_interest
  on_interest-Ends now face header packet st name named below v =
      let looked =
        lookup_interest env.timers now name header.nonce header.interest_lifetime st.fib st.pit in
      let found = looked.1 in
      let r = lookup-Ready now name header.nonce header.interest_lifetime st v in
      Ends-named IsValid name header.name _ named (
        Ends-bind (λ x. Ready found.entry x.0) IsValid _ _
          (note_source-Ends packet.metadata packet found _ r)
          λ (st1, frame) r1.
            Ends-bind (Ready found.entry) IsValid _ _
              (Ends-if (Ready found.entry) found.success _ _
                (update_pit_for_interest-Ends now found.entry face header st1 r1) r1)
              λ st2 r2.
                Ends-bind (Asked found.entry) IsValid _ _
                  (check_content_store-Ends name found.entry st2 below r2)
                  λ (st3, hit) a. finish found frame st3 hit a)
    where
      finish :
          (found : Found) (frame : Frame) (st3 : State env) (hit : Bool)
          → Asked found.entry (st3, hit)
          → Ends IsValid
              (if hit then done st3 else forward_interest env now face header frame found st3)
      finish found frame st3 true a = a
      finish found frame st3 false a = forward_interest-Ends now face header frame found st3 a

  accept_data-Ends :
      (face : ℕ) (name : Name) (packet : Packet) (e : PitEntry) (st : State env)
      → Ready e.prefix st
      → find_entry e.prefix st.pit ≡ some e
      → Ends IsValid (accept_data env face name packet e st)
  unfolding accept_data
  accept_data-Ends face name packet e st r found =
      Ends-option IsValid (find_outgoing face e) _ _ (r.valid) λ out at_out.
        Ends-bind (Ready e.prefix) IsValid _ _
          (update_fib_status-Ends e face green e.prefix st r found)
          λ st' r'.
            satisfy-IsValid e packet
              (record st' { store = (env.add_store name packet st'.store).0 })
              (store-IsValid _ st' (env.add_store-IsSound name packet st'.store r'.valid.store)
                r'.valid)

  unsolicited-IsValid :
      (name : Name) (packet : Packet) (st : State env)
      → IsValid st
      → IsValid (handle_unsolicited_data env name packet st).0
  unfolding handle_unsolicited_data
  unsolicited-IsValid name packet st v = go st.cache_unsolicited_data
    where
      added : env.Store × Bool
      added = env.add_store name packet st.store

      go :
          (on : Bool)
          → IsValid
              (if◌then◌else◌ {A = State env × Bool} on
                (record st { store = added.0 }, added.1)
                (st, false)).0
      go true = store-IsValid added.0 st (env.add_store-IsSound name packet st.store v.store) v
      go false = v

  -- `OnData` on a content object with a name ends in a state that keeps the invariant.
  pub on_data-Ends :
      (face : ℕ) (header : ContentObjectHeader) (packet : Packet) (st : State env) (name : Name)
      → header.name ≡ some name
      → IsValid st
      → Ends IsValid (on_data env face header packet st)
  unfolding on_data lookup_content
  on_data-Ends face header packet st name named v = Ends-named IsValid name header.name _ named (
      Ends-option IsValid (lookup_content name st.pit) _ _ (unsolicited-IsValid name packet st v)
        λ e matched.
          let found : find_entry e.prefix st.pit ≡ some e =
            subst (λ q. find_entry q st.pit ≡ some e)
              (sym (key-find Name-discrete Pit.prefix_of name st.pit.entries e matched)) matched in
          accept_data-Ends face name packet e st (record { valid = v; entry = e; found = found })
            found)

  retry_interest-Ends :
      (now : ℕ) (prefix : Name) (header : InterestHeader) (st : State env)
      → Ready prefix st
      → Ends IsValid (retry_interest env now prefix header st)
  unfolding retry_interest
  retry_interest-Ends now prefix header st r =
      let retry =
        propagate_or_give_up-Ends now prefix (set_nack normal_interest header)
          (built (set_nack normal_interest header)) st r in
      Ends-bind (λ e. find_entry prefix st.pit ≡ some e) IsValid _ _ (deref-Ends r)
        λ e found.
          Ends-if IsValid (length e.incoming == 0) _ _ (r.valid)
            (Ends-if IsValid (are_all_outgoing_in_vain e) _ _ retry (r.valid))

  waiting-Ready :
      (face : ℕ) (prefix : Name) (gave_up : Bool) (st : State env)
      → Ready prefix st
      → Ready prefix (
          if gave_up
          then record st {
            pit =
                modify_entry prefix
                  (remove_incoming face)
                  (modify_entry prefix (set_waiting_in_vain face) st.pit);
          }
          else record st { pit = modify_entry prefix (set_waiting_in_vain face) st.pit })
  waiting-Ready face prefix false st r =
      modify-Ready prefix (set_waiting_in_vain face) (set_waiting_in_vain-KeepsKeys face) prefix r
  waiting-Ready face prefix true st r =
      modify-Ready prefix (remove_incoming face) (remove_incoming-KeepsKeys face) prefix (
        modify-Ready prefix (set_waiting_in_vain face) (set_waiting_in_vain-KeepsKeys face) prefix
          r)

  nack_on-Ends :
      (now face : ℕ) (prefix : Name) (header : InterestHeader) (st : State env)
      → Ready prefix st
      → Ends IsValid (nack_on env now face prefix header st)
  unfolding nack_on
  nack_on-Ends now face prefix header st r =
      let waiting : State env = record st {
        pit = modify_entry prefix (set_waiting_in_vain face) st.pit;
      } in
      let st1 : State env =
        if header.nack_type == nack_giveup_pit
        then record waiting { pit = modify_entry prefix (remove_incoming face) waiting.pit }
        else waiting in
      let r1 = waiting-Ready face prefix (header.nack_type == nack_giveup_pit) st r in
      Ends-bind (λ e. find_entry prefix (st1.pit) ≡ some e) IsValid _ _ (deref-Ends r1)
        λ e found.
          Ends-bind (Ready prefix) IsValid _ _
            (update_fib_status-Ends e face yellow prefix st1 r1 found)
            λ st2 r2. retry_interest-Ends now prefix header st2 r2

  -- `OnNack` on an interest with a name ends in a state that keeps the invariant.
  pub on_nack-Ends :
      (now face : ℕ) (header : InterestHeader) (st : State env) (name : Name)
      → header.name ≡ some name
      → IsValid st
      → Ends IsValid (on_nack env now face header st)
  unfolding on_nack
  on_nack-Ends now face header st name named v =
      let looked =
        lookup_interest env.timers now name header.nonce header.interest_lifetime st.fib st.pit in
      let found = looked.1 in
      let r = lookup-Ready now name header.nonce header.interest_lifetime st v in
      Ends-named IsValid name header.name _ named (
        Ends-bind (λ e. find_entry found.entry looked.0 ≡ some e) IsValid _ _ (deref-Ends r)
          λ e at_e. Ends-if IsValid found.is_new _ _ (r.valid) (
            Ends-if IsValid (not found.is_duplicate) _ _ (r.valid) (
              Ends-option IsValid (find_outgoing face e) _ _ (r.valid)
                λ out at_out. nack_on-Ends now face found.entry header _ r)))

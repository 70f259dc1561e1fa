-- ===== src/L3/Protocol/Interests.antt =====
-- The first steps of `OnInterest` (daemon/ndn-l3-protocol.cc), and what it does with an interest
-- that it has seen before.
use vndn.Base.{
  append_empty, ℕ, ◌≡◌, ◌≢◌, refl, arith, sym, ◌∙◌, ap, subst, Bool, true, false, Option, none,
  some, List, [], ◌∷◌, ◌++◌, if◌then◌else◌,
}
use vndn.Header.{InterestHeader, set_nack, nack_loop}
use vndn.Name.{Name}
use vndn.Pit.{
  Pit, set_source_metadata, PitEntry, Found, find_entry, lookup_interest, longest_prefix_match,
  is_nonce_seen,
}
use vndn.Pit.Keeps.{set_source_metadata-KeepsKeys}
use vndn.Pit.Table.{find_entry-modify_entry}
use vndn.Pit.Lookup.{lookup_interest_seen, success-lookup_interest}
use vndn.L3.{
  Env, State, built, Frame, Packet, Sent, Metadata, over_ip, other_layer, done, ◌>>=◌, send,
}
use vndn.L3.Invariant.{IsValid, Ready, Ends, Ends-bind, Ends-both, Ends-named}
use vndn.L3.Protocol.{
  handle_duplicate_interest, update_pit_for_interest, note_source, check_content_store, serve,
  sources, forward_interest, on_interest,
}
use vndn.L3.Protocol.Steps.{lookup-Ready, note_source-Ends, update_pit_for_interest-Ends}
use vndn.L3.Protocol.Arrival.{
  noted, noted_frame, requested, find_entry-requested, find_entry-requested_other,
}

-- What handling a duplicate sends.
abbrev pub loop_nack : Bool → ℕ → InterestHeader → List Sent
loop_nack enabled face header =
    if enabled
    then record { face = face; frame = built (set_nack nack_loop header); metadata = none } ∷ []
    else []

-- What becomes of the entry of an interest: it has the interest's source and its face, and lives as
-- long as the interest.
abbrev pub arriving : Env → ℕ → ℕ → InterestHeader → Packet → Found → PitEntry → PitEntry
arriving env now face header packet found e =
    requested env.timers now found.entry face header.interest_lifetime
      (noted packet.metadata found.is_duplicate e)

module _ {env : Env} where
  -- A state that differs in the entry of one prefix alone.
  pub record Noted (prefix : Name) (st st' : State env) : Type 0 where
    pub sent : st'.sent ≡ st.sent
    pub store : st'.store ≡ st.store
    pub nacks : st'.nacks_enabled ≡ st.nacks_enabled
    pub faces : st'.faces ≡ st.faces
    pub fib : st'.fib ≡ st.fib
    pub limits : st'.limits ≡ st.limits
    pub others : (q : Name) → q ≢ prefix → find_entry q st'.pit ≡ find_entry q st.pit

  Noted-refl : (prefix : Name) (st : State env) → Noted prefix st st
  Noted-refl prefix st = record {
    sent = refl;
    store = refl;
    nacks = refl;
    faces = refl;
    fib = refl;
    limits = refl;
    others = λ q n. refl;
  }

  Noted-trans :
      (prefix : Name) (a b c : State env) → Noted prefix a b → Noted prefix b c → Noted prefix a c
  Noted-trans prefix a b c n m = record {
    sent = m.sent ∙ n.sent;
    store = m.store ∙ n.store;
    nacks = m.nacks ∙ n.nacks;
    faces = m.faces ∙ n.faces;
    fib = m.fib ∙ n.fib;
    limits = m.limits ∙ n.limits;
    others = λ q d. m.others q d ∙ n.others q d;
  }

  note_source-Noted :
      (m : Option Metadata) (packet : Packet) (found : Found) (st : State env) (e : PitEntry)
      → find_entry found.entry st.pit ≡ some e
      → Ends
          (λ r.
            Noted found.entry st r.0
            × (find_entry found.entry r.0.pit ≡ some (noted m found.is_duplicate e))
            × (r.1 ≡ noted_frame m e packet))
          (note_source env m packet found st)
  unfolding note_source
  note_source-Noted none packet found st e at_e = (Noted-refl found.entry st, at_e, refl)
  note_source-Noted (some other_layer) packet found st e at_e =
      (Noted-refl found.entry st, at_e, refl)
  note_source-Noted (some (over_ip ip port)) packet found st e at_e =
      let f = set_source_metadata (sources found.is_duplicate ip port e.source_metadata) in
      let k =
        set_source_metadata-KeepsKeys (sources found.is_duplicate ip port e.source_metadata) in
      rw at_e (
        record {
          sent = refl;
          store = refl;
          nacks = refl;
          faces = refl;
          fib = refl;
          limits = refl;
          others = λ q n. find_entry-modify_entry found.entry f k st.pit q ∙ ground (arith, n);
        },
        find_entry-modify_entry found.entry f k st.pit found.entry ∙ ground (arith, at_e),
        refl,
      )

  update_pit-Requested :
      (now : ℕ) (prefix : Name) (face : ℕ) (header : InterestHeader) (st : State env) (e : PitEntry)
      → find_entry prefix st.pit ≡ some e
      → Ready prefix st
      → Ends
          (λ st'.
            Ready prefix st'
            × (Noted prefix st st'
                × (find_entry prefix st'.pit
                    ≡ some (requested env.timers now prefix face header.interest_lifetime e))))
          (update_pit_for_interest env now prefix face header st)
  unfolding update_pit_for_interest
  update_pit-Requested now prefix face header st e found r =
      Ends-both (Ready prefix) _ (update_pit_for_interest env now prefix face header st)
        (update_pit_for_interest-Ends now prefix face header st r)
        (rw found (
          record {
            sent = refl;
            store = refl;
            nacks = refl;
            faces = refl;
            fib = refl;
            limits = refl;
            others = λ q n.
                find_entry-requested_other env.timers now prefix face header.interest_lifetime
                  st.pit e q r.valid.pit n;
          },
          find_entry-requested env.timers now prefix face header.interest_lifetime st.pit e
              r.valid.pit found,
        ))

  -- What an interest's lookup makes of the PIT, and the entry that it finds there.
  abbrev pub looked : ℕ → InterestHeader → Name → State env → Pit × Found
  looked now header name st =
      lookup_interest env.timers now name header.nonce header.interest_lifetime st.fib st.pit

  -- The state before the content store is asked, where the interest's entry was `e`.
  pub record Arrived (now face : ℕ) (header : InterestHeader) (packet : Packet) (name : Name)
      (st : State env) (e : PitEntry) (st' : State env) (frame : Frame) : Type 0 where
    pub ready : Ready (looked now header name st).1.entry st'
    pub noted :
        Noted
          (looked now header name st).1.entry
          (record st { pit = (looked now header name st).0 })
          st'
    pub entry :
        find_entry (looked now header name st).1.entry (looked now header name st).0 ≡ some e
    pub arrived :
        find_entry (looked now header name st).1.entry st'.pit
        ≡ some (arriving env now face header packet (looked now header name st).1 e)
    pub left : frame ≡ noted_frame packet.metadata e packet

  -- What `OnInterest` does, from any property of what it does with the state that its first steps leave.
  pub on_interest-bind :
      (Q : State env → Type 0) (now face : ℕ) (header : InterestHeader) (packet : Packet)
      (st : State env) (name : Name)
      → header.name ≡ some name
      → IsValid st
      → ((e : PitEntry) (st' : State env) (frame : Frame)
          → Arrived now face header packet name st e st' frame
          → Ends Q (do
            (st'', hit) ← check_content_store env name (looked now header name st).1.entry st'
            if hit
                then done st''
                else forward_interest env now face header frame (looked now header name st).1 st''))
      → Ends Q (on_interest env now face header packet st)
  unfolding on_interest
  on_interest-bind Q now face header packet st name named v rest =
      let found = (looked now header name st).1 in
      let st0 : State env = record st { pit = (looked now header name st).0 } in
      let r = lookup-Ready now name header.nonce header.interest_lifetime st v in
      let success =
        success-lookup_interest env.timers now name header.nonce header.interest_lifetime st.fib
          st.pit in
      Ends-named Q name header.name _ named (
        Ends-bind
          (λ x.
            Ready found.entry x.0
            × (Noted found.entry st0 x.0
                × (find_entry found.entry x.0.pit
                    ≡ some (noted packet.metadata found.is_duplicate r.entry))
                × (x.1 ≡ noted_frame packet.metadata r.entry packet)))
          Q _ _
          (Ends-both (λ x. Ready found.entry x.0) _
            (note_source env packet.metadata packet found st0)
            (note_source-Ends packet.metadata packet found st0 r)
            (note_source-Noted packet.metadata packet found st0 r.entry r.found))
          λ (st1, frame) (r1, (n1, at1, same)).
            Ends-bind
              (λ st'.
                Ready found.entry st'
                × (Noted found.entry st1 st'
                    × (find_entry found.entry st'.pit
                        ≡ some (arriving env now face header packet found r.entry))))
              Q _ _
              (subst
                (λ b.
                  Ends
                    (λ st'.
                      Ready found.entry st'
                      × (Noted found.entry st1 st'
                          × (find_entry found.entry st'.pit
                              ≡ some (arriving env now face header packet found r.entry))))
                    (if b
                      then update_pit_for_interest env now found.entry face header st1
                      else done st1))
                (sym success) (update_pit-Requested now found.entry face header st1 _ at1 r1))
              λ st2 (r2, (n2, at2)). rest r.entry st2 frame (record {
                ready = r2;
                noted = Noted-trans found.entry st0 st1 st2 n1 n2;
                entry = r.found;
                arrived = at2;
                left = same;
              }))

  pub miss :
      (name prefix : Name) (st : State env) (store : env.Store)
      → env.lookup_store name st.store ≡ done (store, none)
      → check_content_store env name prefix st ≡ done (record st { store = store }, false)
  unfolding check_content_store serve
  miss name prefix st store h = rw h refl

  sent-handle_duplicate :
      (face : ℕ) (header : InterestHeader) (st : State env)
      → (handle_duplicate_interest env face header st).sent
        ≡ st.sent ++ loop_nack st.nacks_enabled face header
  unfolding handle_duplicate_interest send
  sent-handle_duplicate face header st = go st.nacks_enabled
    where
      go :
          (b : Bool)
          → (if◌then◌else◌ {A = State env} b
              (send face (built (set_nack nack_loop header)) none st)
              st).sent
            ≡ st.sent ++ loop_nack b face header
      go true = refl
      go false = sym (append_empty st.sent)

  forward-duplicate :
      (now face : ℕ) (header : InterestHeader) (frame : Frame) (found : Found) (st : State env)
      → found.is_duplicate ≡ true
      → forward_interest env now face header frame found st
        ≡ done (handle_duplicate_interest env face header st)
  unfolding forward_interest
  forward-duplicate now face header frame found st h = simp h refl

  -- `OnInterest` on an interest whose nonce its entry has seen, and that the content store cannot
  -- answer, forwards nothing: all it sends is a NACK for a loop to the interest's face, if NACKs are
  -- enabled.
  pub on_interest-duplicate :
      (now face : ℕ) (header : InterestHeader) (packet : Packet) (st : State env) (name : Name)
      (e : PitEntry) (store : env.Store)
      → header.name ≡ some name
      → IsValid st
      → longest_prefix_match name st.pit ≡ some e
      → is_nonce_seen header.nonce e ≡ true
      → env.lookup_store name st.store ≡ done (store, none)
      → Ends
          (λ st'. st'.sent ≡ st.sent ++ loop_nack st.nacks_enabled face header)
          (on_interest env now face header packet st)
  on_interest-duplicate now face header packet st name e store named v matched seen absent =
      on_interest-bind Nacked now face header packet st name named v λ e' st' frame a.
        let found = (looked now header name st).1 in
        let st'' : State env = record st' { store = store } in
        subst
          (λ m. Ends Nacked (do
            (x, hit) ← m
            if hit then done x else forward_interest env now face header frame found x))
          (sym
            (miss name found.entry st' store (ap (env.lookup_store name) a.noted.store ∙ absent)))
          (subst (Ends Nacked) (sym (forward-duplicate now face header frame found st'' duplicate))
            (sent-handle_duplicate face header st''
              ∙ ap (λ l. l ++ loop_nack st'.nacks_enabled face header) a.noted.sent
              ∙ ap (λ b. st.sent ++ loop_nack b face header) a.noted.nacks))
    where
      Nacked : State env → Type 0
      Nacked st' = st'.sent ≡ st.sent ++ loop_nack st.nacks_enabled face header

      duplicate : (looked now header name st).1.is_duplicate ≡ true
      duplicate =
          ap (λ l. l.1.is_duplicate)
            (lookup_interest_seen env.timers now name header.nonce header.interest_lifetime st.fib
              st.pit e matched seen)

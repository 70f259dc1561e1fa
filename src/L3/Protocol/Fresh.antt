-- ===== src/L3/Protocol/Fresh.antt =====
-- What `OnInterest` (daemon/ndn-l3-protocol.cc) does with an interest that is new, and that the
-- content store cannot answer.
use vndn.Base.{
  ℕ, ◌≡◌, refl, sym, ◌∙◌, ap, subst, Bool, true, false, Option, none, some, List, [], ◌∷◌, ◌++◌,
  map, if◌then◌else◌, append_empty,
}
use vndn.Header.{InterestHeader, set_nack, nack_giveup_pit}
use vndn.Fib.{FibEntry}
use vndn.Name.{Name}
use vndn.Pit.{PitEntry, IncomingFace, Found, find_entry}
use vndn.Pit.Lookup.{success-lookup_interest}
use vndn.L3.{Env, State, Frame, built, Packet, Sent, done, ◌>>=◌}
use vndn.L3.Strategy.{follow, is_incoming}
use vndn.L3.Strategy.Choice.{recipients, sent_to, Sends, Propagated, propagate_interest-Propagated}
use vndn.L3.Invariant.{
  IsValid, Ends, Ends-bind, Ends-map, Ends-done, IsTarget, follow-Ends, pointer-of_entry,
}
use vndn.L3.Protocol.{
  send_all, give_up_interest, propagate_or_give_up, forward_interest, on_interest,
}
use vndn.L3.Protocol.Delivery.{sent-send_all}
use vndn.L3.Protocol.Arrival.{noted, noted_frame, requested-is_incoming}
use vndn.L3.Protocol.Interests.{Arrived, arriving, looked, on_interest-bind, miss}

-- The NACKs of an interest that is given up: one to each incoming face.
abbrev pub giveup_nacks : Bool → List IncomingFace → InterestHeader → List Sent
giveup_nacks enabled is header =
    if enabled
    then map
        (λ i. record {
          face = i.face;
          frame = built (set_nack nack_giveup_pit header);
          metadata = none;
        })
        is
    else []

-- What is sent for an interest that was forwarded to some faces, or given up where there were none.
abbrev pub reaction : Frame → InterestHeader → Bool → List IncomingFace → List ℕ → List Sent
reaction frame header enabled is [] = giveup_nacks enabled is header
reaction frame header enabled is (face ∷ faces) = map (sent_to frame) (face ∷ faces)

module _ {env : Env} where
  -- The frame was sent to those that the strategy chooses, or else NACKs to the incoming faces.
  abbrev pub Forwarded :
      Frame → InterestHeader → State env → PitEntry → Option FibEntry → State env → Type 0
  Forwarded frame header st e target st' =
      st'.sent
      ≡ st.sent
        ++ reaction frame header st.nacks_enabled e.incoming
            (recipients env st.faces e target st.limits)

  -- The state that it is about may differ in the tables.
  pub Forwarded-same :
      (frame : Frame) (header : InterestHeader) (st st' : State env) (e : PitEntry)
      (target : Option FibEntry) (x : State env)
      → st'.sent ≡ st.sent
      → st'.nacks_enabled ≡ st.nacks_enabled
      → st'.faces ≡ st.faces
      → st'.limits ≡ st.limits
      → Forwarded frame header st' e target x
      → Forwarded frame header st e target x
  Forwarded-same frame header st st' e target x s n f l h =
      h
      ∙ ap
          (λ m.
            m
            ++ reaction frame header st'.nacks_enabled e.incoming
                (recipients env st'.faces e target st'.limits))
          s
      ∙ ap
          (λ b.
            st.sent
            ++ reaction frame header b e.incoming (recipients env st'.faces e target st'.limits))
          n
      ∙ ap
          (λ all.
            st.sent
            ++ reaction frame header st.nacks_enabled e.incoming
                (recipients env all e target st'.limits))
          f
      ∙ ap
          (λ limits.
            st.sent
            ++ reaction frame header st.nacks_enabled e.incoming
                (recipients env st.faces e target limits))
          l

  sent-give_up :
      (now : ℕ) (prefix : Name) (header : InterestHeader) (st : State env) (e : PitEntry)
      → find_entry prefix st.pit ≡ some e
      → Ends
          (λ st'. st'.sent ≡ st.sent ++ giveup_nacks st.nacks_enabled e.incoming header)
          (give_up_interest env now prefix header st)
  unfolding give_up_interest
  sent-give_up now prefix header st e found = rw found (nacked st.nacks_enabled)
    where
      nacked :
          (b : Bool)
          → (if◌then◌else◌ {A = State env} b
              (send_all env e.incoming (built (set_nack nack_giveup_pit header)) none st)
              st).sent
            ≡ st.sent ++ giveup_nacks b e.incoming header
      nacked true = sent-send_all e.incoming (built (set_nack nack_giveup_pit header)) none st
      nacked false = sym (append_empty st.sent)

  pub propagate_or_give_up-Forwarded :
      (now : ℕ) (prefix : Name) (header : InterestHeader) (frame : Frame) (st : State env)
      (e : PitEntry) (target : Option FibEntry)
      → find_entry prefix st.pit ≡ some e
      → follow st.fib e ≡ done target
      → Ends
          (Forwarded frame header st e target)
          (propagate_or_give_up env now prefix header frame st)
  unfolding propagate_or_give_up
  propagate_or_give_up-Forwarded now prefix header frame st e target found points =
      Ends-bind (Propagated now prefix frame st e target) (Forwarded frame header st e target) _ _
        (propagate_interest-Propagated now prefix frame st e target found points)
        λ r p. ended (recipients env st.faces e target st.limits) r p
    where
      ended :
          (taken : List ℕ) (r : State env × Bool)
          → Sends now prefix frame st taken r
          → Ends
              (λ st'. st'.sent ≡ st.sent ++ reaction frame header st.nacks_enabled e.incoming taken)
              (if r.1 then done (r.0) else give_up_interest env now prefix header (r.0))
      ended (face ∷ faces) (st', ok) s = rw (s.success) (s.sent)
      ended [] (st', ok) s = rw (s.success) (
          Ends-map (λ x. x.sent ≡ st'.sent ++ giveup_nacks st'.nacks_enabled e.incoming header)
            (λ x. x.sent ≡ st.sent ++ giveup_nacks st.nacks_enabled e.incoming header)
            (give_up_interest env now prefix header st')
            (λ x h.
              h
              ∙ ap (λ l. l ++ giveup_nacks st'.nacks_enabled e.incoming header)
                  (s.sent ∙ append_empty st.sent)
              ∙ ap (λ b. st.sent ++ giveup_nacks b e.incoming header) s.nacks)
            (sent-give_up now prefix header st' e (ap (find_entry prefix) s.pit ∙ found)))

  forward-fresh :
      (now face : ℕ) (header : InterestHeader) (frame : Frame) (found : Found) (st : State env)
      → found.is_duplicate ≡ false
      → found.success ≡ true
      → forward_interest env now face header frame found st
        ≡ propagate_or_give_up env now found.entry header frame st
  unfolding forward_interest
  forward-fresh now face header frame found st h k = simp (h, k) refl

  -- With the entry that the interest's lookup found and its arrival changed, and the FIB entry that
  -- it points to: its face is an incoming one, and the packet to the strategy's choice, or else the
  -- NACKs, are all that was sent.
  pub record Fresh (now face : ℕ) (header : InterestHeader) (packet : Packet) (name : Name)
      (st st' : State env) : Type 0 where
    pub before : PitEntry
    pub target : Option FibEntry
    pub found :
        find_entry (looked now header name st).1.entry (looked now header name st).0 ≡ some before
    pub points :
        follow st.fib (arriving env now face header packet (looked now header name st).1 before)
        ≡ done target
    pub incoming :
        is_incoming face (arriving env now face header packet (looked now header name st).1 before)
        ≡ true
    pub forwarded :
        Forwarded
          (noted_frame packet.metadata before packet)
          header
          st
          (arriving env now face header packet (looked now header name st).1 before)
          target
          st'

  module _ (now face : ℕ) (header : InterestHeader) (packet : Packet) (name : Name)
      (store : env.Store) (st : State env) where
    Arrived-Fresh :
        (e : PitEntry) (st' : State env) (frame : Frame)
        → Arrived now face header packet name st e st' frame
        → (looked now header name st).1.is_duplicate ≡ false
        → (looked now header name st).1.success ≡ true
        → Ends (Fresh now face header packet name st) (
            forward_interest env now face header frame
              (looked now header name st).1
              (record st' { store = store }))
    Arrived-Fresh e st' frame a fresh success =
        let prefix = (looked now header name st).1.entry in
        let e' = arriving env now face header packet (looked now header name st).1 e in
        let st'' : State env = record st' { store = store } in
        let (target, points, _) =
          Ends-done (IsTarget st'.fib) (follow st'.fib e')
            (follow-Ends st'.fib e' (pointer-of_entry prefix a.ready.valid e' a.arrived)) in
        rw (forward-fresh now face header frame (looked now header name st).1 st'' fresh success) (
          Ends-map (Forwarded frame header st'' e' target) _ _
            (λ x f. record {
              before = e;
              target = target;
              found = a.entry;
              points = ap (λ fib. follow fib e') (sym a.noted.fib) ∙ points;
              incoming =
                  requested-is_incoming env.timers now prefix face header.interest_lifetime
                    (noted packet.metadata (looked now header name st).1.is_duplicate e);
              forwarded =
                  subst (λ fr. Forwarded fr header st e' target x) a.left
                    (Forwarded-same frame header st st'' e' target x a.noted.sent a.noted.nacks
                      a.noted.faces a.noted.limits f);
            })
            (propagate_or_give_up-Forwarded now prefix header frame st'' e' target a.arrived
              points))

  -- `OnInterest` on a named interest that is no duplicate, and that the content store cannot answer,
  -- in a valid state. The PIT entry that the lookup of the interest found or made has the
  -- interest's face as an incoming one. The packet, its metadata freed if it came over IP and the
  -- entry had no sources yet, goes to the strategy's choice for that entry and the FIB entry that it
  -- points to: the first usable green face, or else all faces that are not red (all faces, where no
  -- FIB entry matches) and are below their limits. Where that is nobody, NACKs that give the interest
  -- up go to the entry's incoming faces, if NACKs are enabled; nothing else is sent.
  pub on_interest-Fresh :
      (now face : ℕ) (header : InterestHeader) (packet : Packet) (st : State env) (name : Name)
      (store : env.Store)
      → header.name ≡ some name
      → IsValid st
      → (looked now header name st).1.is_duplicate ≡ false
      → env.lookup_store name st.store ≡ done (store, none)
      → Ends (Fresh now face header packet name st) (on_interest env now face header packet st)
  on_interest-Fresh now face header packet st name store named v fresh absent =
      on_interest-bind (Fresh now face header packet name st) now face header packet st name named v
        λ e st' frame a.
          let success =
            success-lookup_interest env.timers now name header.nonce header.interest_lifetime st.fib
              st.pit in
          subst
            (λ m. Ends (Fresh now face header packet name st) (do
              (x, hit) ← m
              if hit
                  then done x
                  else forward_interest env now face header frame (looked now header name st).1 x))
            (sym (
              miss name (looked now header name st).1.entry st' store
                (ap (env.lookup_store name) a.noted.store ∙ absent)))
            (Arrived-Fresh now face header packet name store st e st' frame a fresh success)

-- ===== src/L3/Protocol/Served.antt =====
-- What `OnInterest` (daemon/ndn-l3-protocol.cc) does with an interest that the content store
-- answers.
use vndn.Base.{ℕ, ◌≡◌, ◌≢◌, refl, ◌∙◌, ap, subst, Bool, true, none, some, ◌++◌, map}
use vndn.Base.Keyed.{key-find}
use vndn.Header.{InterestHeader}
use vndn.Name.{Name}
use vndn.Name.Compare.{Name-discrete}
use vndn.Pit
use vndn.Pit.{PitEntry, find_entry}
use vndn.L3.{Env, State, Frame, Packet, Outcome, done, ◌>>=◌}
use vndn.L3.Strategy.{is_incoming}
use vndn.L3.Invariant.{IsValid, Ends}
use vndn.L3.Protocol.{satisfy_pending_interests, serve, check_content_store, on_interest}
use vndn.L3.Protocol.Arrival.{noted, requested-is_incoming}
use vndn.L3.Protocol.Delivery.{delivery, satisfy-Delivered}
use vndn.L3.Protocol.Interests.{Arrived, arriving, looked, on_interest-bind}

module _ {env : Env} where
  -- With the entry that the interest's lookup found and its arrival changed: each of its incoming
  -- faces, the interest's own among them, got the content with the sources recorded there; the entry
  -- is gone, and the others are as the lookup left them.
  pub record Served (now face : ℕ) (header : InterestHeader) (packet : Packet) (name : Name)
      (content : Packet) (st st' : State env) : Type 0 where
    pub before : PitEntry
    pub found :
        find_entry (looked now header name st).1.entry (looked now header name st).0 ≡ some before
    pub incoming :
        is_incoming face (arriving env now face header packet (looked now header name st).1 before)
        ≡ true
    pub sent :
        st'.sent
        ≡ st.sent
          ++ map
              (delivery content
                (arriving env now face header packet (looked now header name st).1 before))
              (arriving env now face header packet (looked now header name st).1 before).incoming
    pub gone : find_entry (looked now header name st).1.entry st'.pit ≡ none
    pub others :
        (q : Name)
        → q ≢ (looked now header name st).1.entry
        → find_entry q st'.pit ≡ find_entry q (looked now header name st).0

  module _ (now face : ℕ) (header : InterestHeader) (packet : Packet) (name : Name)
      (content : Packet) (store : env.Store) (st : State env) where
    satisfied-Served :
        (e : PitEntry) (st' : State env) (frame : Frame)
        → Arrived now face header packet name st e st' frame
        → Served now face header packet name content st (
            satisfy_pending_interests env
              (arriving env now face header packet (looked now header name st).1 e)
              content
              (record st' { store = store }))
    satisfied-Served e st' frame a =
        let prefix = (looked now header name st).1.entry in
        let e' = arriving env now face header packet (looked now header name st).1 e in
        let d = satisfy-Delivered e' content (record st' { store = store }) a.ready.valid.pit in
        let own : e'.prefix ≡ prefix =
          key-find Name-discrete Pit.prefix_of prefix st'.pit.entries e' a.arrived in
        record {
          before = e;
          found = a.entry;
          incoming =
              requested-is_incoming env.timers now prefix face header.interest_lifetime
                (noted packet.metadata (looked now header name st).1.is_duplicate e);
          sent = d.sent ∙ ap (λ l. l ++ map (delivery content e') e'.incoming) a.noted.sent;
          gone =
              subst
                (λ q.
                  find_entry q
                    (satisfy_pending_interests env e' content (record st' { store = store })).pit
                  ≡ none)
                own d.gone;
          others = λ q n. d.others q (λ h. n (h ∙ own)) ∙ a.noted.others q n;
        }

    hit-Served :
        (e : PitEntry) (st' : State env) (frame : Frame)
        (continue : State env × Bool → Outcome (State env))
        → ((x : State env) → continue (x, true) ≡ done x)
        → env.lookup_store name st.store ≡ done (store, some content)
        → Arrived now face header packet name st e st' frame
        → Ends
            (Served now face header packet name content st)
            (check_content_store env name (looked now header name st).1.entry st' >>= continue)
    unfolding check_content_store serve
    hit-Served e st' frame continue stop hit a =
        rw (ap (env.lookup_store name) a.noted.store ∙ hit)
          (rw a.arrived (rw (stop _) (satisfied-Served e st' frame a)))

  pub on_interest-Served :
      (now face : ℕ) (header : InterestHeader) (packet : Packet) (st : State env) (name : Name)
      (content : Packet) (store : env.Store)
      → header.name ≡ some name
      → IsValid st
      → env.lookup_store name st.store ≡ done (store, some content)
      → Ends
          (Served now face header packet name content st)
          (on_interest env now face header packet st)
  on_interest-Served now face header packet st name content store named v hit =
      on_interest-bind (Served now face header packet name content st) now face header packet st
        name named v
        λ e st' frame a.
          hit-Served now face header packet name content store st e st' frame _ (λ x. refl) hit a

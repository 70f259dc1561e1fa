-- ===== src/L3/Protocol/Delivery.antt =====
-- What the handlers of interests and data (daemon/ndn-l3-protocol.cc) send, and what they leave in
-- the PIT.
use vndn.Base.{
  append_assoc, append_empty, ℕ, ◌≡◌, ◌≢◌, refl, sym, ◌∙◌, ap, subst, Option, none, some, List, [],
  ◌∷◌, ◌++◌, map,
}
use vndn.Base.Keyed.{find-erase_self, find-erase_ne, key-find}
use vndn.Header.{ContentObjectHeader}
use vndn.Fib.{FibEntry, Status, green, update_entry_status}
use vndn.Name.{Name}
use vndn.Name.Compare.{Name-discrete}
use vndn.Pit
use vndn.Pit.{
  Pit, PitEntry, IncomingFace, OutgoingFace, SourceInfo, Found, find_entry, find_incoming,
  find_outgoing, lookup_content, lookup_interest, longest_prefix_match, is_nonce_seen, modify_entry,
  add_incoming, update_lifetime, reschedule, remove, in_face, set_source_metadata,
}
use vndn.Pit.Table.{IsValidPit}
use vndn.L3.{Env, State, Frame, whole, Packet, Sent, done, ◌>>=◌, send}
use vndn.L3.Invariant.{
  PointsInto, IsValid, Ends, Ends-bind, Ends-named, IsTarget, follow-Ends, pointer-of_entry,
}
use vndn.L3.Protocol.{
  send_all, satisfy_pending_interests, update_fib_status, handle_unsolicited_data, accept_data,
  on_data,
}
use vndn.L3.Protocol.Steps.{send_all-SameTables}

-- A packet sent to an incoming face of an entry, with the sources that the entry recorded.
abbrev pub delivery : Packet → PitEntry → IncomingFace → Sent
delivery packet e i = record { face = i.face; frame = whole packet; metadata = e.source_metadata }

module _ {env : Env} where
  -- Each incoming face of the entry got the packet, in the order of the container and after all
  -- that was sent before; the entry is gone, and the others are as they were.
  pub record Delivered (st : State env) (name : Name) (packet : Packet) (e : PitEntry)
      (st' : State env) : Type 0 where
    pub sent : st'.sent ≡ st.sent ++ map (delivery packet e) e.incoming
    pub gone : find_entry name st'.pit ≡ none
    pub others : (q : Name) → q ≢ name → find_entry q st'.pit ≡ find_entry q st.pit

  pub sent-send_all :
      (is : List IncomingFace) (frame : Frame) (m : Option SourceInfo) (st : State env)
      → (send_all env is frame m st).sent
        ≡ st.sent ++ map (λ i. record { face = i.face; frame = frame; metadata = m }) is
  unfolding send_all send
  sent-send_all [] frame m st = sym (append_empty st.sent)
  sent-send_all (i ∷ is) frame m st =
      sent-send_all is frame m (send i.face frame m st) ∙ append_assoc st.sent (_ ∷ []) _

  pub satisfy-Delivered :
      (e : PitEntry) (packet : Packet) (st : State env)
      → IsValidPit st.pit
      → Delivered st e.prefix packet e (satisfy_pending_interests env e packet st)
  unfolding satisfy_pending_interests remove
  satisfy-Delivered e packet st v =
      let (same_fib, same_pit, same_store) =
        send_all-SameTables e.incoming (whole packet) e.source_metadata st in
      record {
        sent = sent-send_all e.incoming (whole packet) e.source_metadata st;
        gone =
            rw same_pit
              (find-erase_self Name-discrete Pit.prefix_of e.prefix st.pit.entries v.unique);
        others = λ q n.
            rw same_pit (find-erase_ne Name-discrete Pit.prefix_of e.prefix q st.pit.entries n);
      }

  store-send_all :
      (is : List IncomingFace) (frame : Frame) (m : Option SourceInfo) (st : State env)
      → (send_all env is frame m st).store ≡ st.store
  unfolding send_all send
  store-send_all [] frame m st = refl
  store-send_all (i ∷ is) frame m st = store-send_all is frame m (send i.face frame m st)

  pub store-satisfy :
      (e : PitEntry) (packet : Packet) (st : State env)
      → (satisfy_pending_interests env e packet st).store ≡ st.store
  unfolding satisfy_pending_interests
  store-satisfy e packet st = store-send_all e.incoming (whole packet) e.source_metadata st

  -- A state that differs in the FIB alone.
  pub record SameButFib (st st' : State env) : Type 0 where
    pub sent : st'.sent ≡ st.sent
    pub pit : st'.pit ≡ st.pit
    pub store : st'.store ≡ st.store
    pub faces : st'.faces ≡ st.faces
    pub nacks : st'.nacks_enabled ≡ st.nacks_enabled
    pub limits : st'.limits ≡ st.limits

  pub update_fib_status-SameButFib :
      (e : PitEntry) (face : ℕ) (status : Status) (st : State env)
      → PointsInto st.fib e.fib_entry
      → Ends (SameButFib st) (update_fib_status env e face status st)
  unfolding update_fib_status
  update_fib_status-SameButFib e face status st p =
      Ends-bind (IsTarget st.fib) (SameButFib st) _ _ (follow-Ends st.fib e p)
        λ target _. marked target
    where
      marked :
          (target : Option FibEntry)
          → SameButFib st (elim target [
            | none ↦ st
            | some entry ↦ record st {
              fib = update_entry_status env.metrics entry.prefix face status st.fib;
            }
          ])
      marked none = record {
        sent = refl;
        pit = refl;
        store = refl;
        faces = refl;
        nacks = refl;
        limits = refl;
      }
      marked (some entry) = record {
        sent = refl;
        pit = refl;
        store = refl;
        faces = refl;
        nacks = refl;
        limits = refl;
      }

  -- What data does to the entry that it is for: nothing, unless the interest was sent on its face.
  abbrev pub Answered :
      State env → Name → Packet → PitEntry → Option OutgoingFace → State env → Type 0
  Answered st name packet e none st' = st' ≡ st
  Answered st name packet e (some out) st' =
      Delivered st name packet e st' × (st'.store ≡ (env.add_store name packet st.store).0)

  accept_data-Answered :
      (face : ℕ) (packet : Packet) (e : PitEntry) (st : State env)
      → IsValid st
      → find_entry e.prefix st.pit ≡ some e
      → Ends
          (Answered st e.prefix packet e (find_outgoing face e))
          (accept_data env face e.prefix packet e st)
  unfolding accept_data
  accept_data-Answered face packet e st v found = go (find_outgoing face e)
    where
      after : (st' : State env) → State env
      after st' = record st' { store = (env.add_store e.prefix packet st'.store).0 }

      go :
          (o : Option OutgoingFace)
          → Ends (Answered st e.prefix packet e o) (elim o [
            | none ↦ done st
            | some _ ↦ do
              st' ← update_fib_status env e face green st
              done (
                  satisfy_pending_interests env e packet
                    (record st' { store = (env.add_store e.prefix packet st'.store).0 }))
          ])
      go none = refl
      go (some out) =
          Ends-bind (SameButFib st) (Answered st e.prefix packet e (some out)) _ _
            (update_fib_status-SameButFib e face green st (pointer-of_entry e.prefix v e found))
            λ st' same.
              let d =
                satisfy-Delivered e packet (after st') (subst IsValidPit (sym same.pit) v.pit) in
              (
                record {
                  sent = d.sent ∙ ap (λ l. l ++ map (delivery packet e) e.incoming) same.sent;
                  gone = d.gone;
                  others = λ q n. d.others q n ∙ ap (find_entry q) same.pit;
                },
                store-satisfy e packet (after st')
                    ∙ ap (λ s. (env.add_store e.prefix packet s).0) same.store,
              )

  -- `OnData` on a pending interest: if it was sent on the face that the data comes from, each
  -- incoming face of its entry gets the data with the sources recorded there, the entry is gone, the
  -- others stay, and the content store was given the data; otherwise nothing changes.
  pub on_data-Answered :
      (face : ℕ) (header : ContentObjectHeader) (packet : Packet) (st : State env) (name : Name)
      (e : PitEntry)
      → header.name ≡ some name
      → IsValid st
      → find_entry name st.pit ≡ some e
      → Ends (Answered st name packet e (find_outgoing face e)) (on_data env face header packet st)
  unfolding on_data lookup_content
  on_data-Answered face header packet st name e named v found =
      Ends-named (Answered st name packet e (find_outgoing face e)) name header.name _ named (
        subst
          (λ o. Ends (Answered st name packet e (find_outgoing face e)) (elim o [
            | none ↦ done (handle_unsolicited_data env name packet st).0
            | some x ↦ accept_data env face name packet x st
          ]))
          (sym found) (at_own name own found))
    where
      own : e.prefix ≡ name
      own = key-find Name-discrete Pit.prefix_of name st.pit.entries e found

      at_own :
          (q : Name)
          → e.prefix ≡ q
          → find_entry q st.pit ≡ some e
          → Ends
              (Answered st q packet e (find_outgoing face e))
              (accept_data env face q packet e st)
      at_own q same at_q =
          subst
            (λ p.
              Ends (Answered st p packet e (find_outgoing face e))
                (accept_data env face p packet e st))
            same
            (accept_data-Answered face packet e st v
              (subst (λ p. find_entry p st.pit ≡ some e) (sym same) at_q))

-- ===== src/L3/Protocol/Steps.antt =====
-- The steps that the handlers of the forwarder share end, keep the invariant, and keep the PIT entry
-- that they are about.
use vndn.Base.{
  ℕ, ◌+◌, ◌≡◌, refl, sym, ◌∙◌, subst, Bool, true, false, Option, none, some, List, [], ◌∷◌,
  if◌then◌else◌, inl, inr, Bool-cases, Option-cases, arith, ite,
}
use vndn.Base.Keyed.{All-modify}
use vndn.Base.Sorted.{OrderedIndex, All-insert_at}
use vndn.Header.{InterestHeader, set_nack, nack_giveup_pit}
use vndn.Fib
use vndn.Fib.{Fib, FibEntry, Status, find_prefix, update_entry_status, metric_le}
use vndn.Fib.Table.{IsValidFib, update_entry_status-IsValid, find_prefix-update_entry_status}
use vndn.Name.{Name}
use vndn.Name.Compare.{Name-discrete}
use vndn.Pit
use vndn.Pit.{
  Pit, PitEntry, Found, IncomingFace, SourceInfo, find_entry, find_outgoing, modify_entry, create,
  lookup_interest, longest_prefix_match, expire_le, add_seen_nonce, is_nonce_seen, pit_entry,
  lookup_content, update_lifetime, set_expire_time, clear_incoming, clear_outgoing, reschedule,
  add_incoming, set_source_metadata, set_waiting_in_vain, remove_incoming, are_all_outgoing_in_vain,
  remove,
}
use vndn.Pit.Entry.{update_lifetime-IsValid}
use vndn.Pit.Keeps.{
  add_incoming-KeepsKeys, clear_incoming-KeepsKeys, clear_outgoing-KeepsKeys,
  set_source_metadata-KeepsKeys, prefix-update_lifetime, prefix-set_expire_time,
  set_expire_time-IsValid,
}
use vndn.Pit.Table.{IsValidPit, add_seen_nonce-KeepsKeys}
use vndn.Pit.Lookup.{lookup_interest-IsValid, rematched, find_entry-of_match}
use vndn.L3.{Env, State, Frame, Packet, Metadata, over_ip, other_layer, send, whole, built}
use vndn.L3.Strategy.{is_incoming}
use vndn.L3.Strategy.Safety.{propagate_interest-Ends}
use vndn.L3.Protocol.{
  send_all, satisfy_pending_interests, give_up_interest, propagate_or_give_up,
  update_pit_for_interest, note_source, update_fib_status,
}
use vndn.L3.Invariant.{
  PointsInto, NoDangling, IsValid, Ready, Ends, Ends-bind, IsTarget, follow-Ends, deref-Ends,
  pointer-of_entry, modify-Ready, remove-IsValid, reschedule-Ready, fib-IsValid,
}
use mathlib.Core.Option

still_found :
    (metrics : OrderedIndex metric_le) (fib : Fib) (prefix : Name) (face : ℕ) (status : Status)
    (q : Name) (x : FibEntry)
    → find_prefix fib q ≡ some x
    → (y : FibEntry) × (find_prefix (update_entry_status metrics prefix face status fib) q ≡ some y)
still_found metrics fib prefix face status q x at_q = (
  ite (Name-discrete q prefix) (Fib.update_status metrics face status x) x,
  find_prefix-update_entry_status metrics prefix q face status fib ∙ ground (arith, at_q),
)

nonce-NoDangling :
    (prefix : Name) (nonce : ℕ) (fib : Fib) (pit : Pit)
    → NoDangling fib pit.entries
    → NoDangling fib (modify_entry prefix (add_seen_nonce nonce) pit).entries
unfolding modify_entry
nonce-NoDangling prefix nonce fib pit h =
    let k = add_seen_nonce-KeepsKeys nonce in
    All-modify Name-discrete Pit.prefix_of prefix (add_seen_nonce nonce) k.prefix
      (λ e. PointsInto fib e.fib_entry) pit.entries
      (λ e _ p. subst (PointsInto fib) (sym (k.pointer e)) p) h

create-NoDangling :
    (timers : OrderedIndex expire_le) (now : ℕ) (name : Name) (lifetime : ℕ) (fib : Fib) (pit : Pit)
    → NoDangling fib pit.entries
    → NoDangling fib (create timers now name lifetime fib pit).entries
unfolding create pit_entry
create-NoDangling timers now name lifetime fib pit h =
    All-insert_at timers (λ e. PointsInto fib e.fib_entry) _ _ pit.entries
      (pointed (Fib.longest_prefix_match fib name) refl) h
  where
    pointed :
        (found : Option FibEntry)
        → Fib.longest_prefix_match fib name ≡ found
        → PointsInto fib (Option.map Fib.prefix_of found)
    pointed none e = tt
    pointed (some entry) e = (entry, Fib.Table.find_prefix-of_match fib name entry e)

-- The entry that an interest's lookup creates points to the FIB's match.
lookup-NoDangling :
    (timers : OrderedIndex expire_le) (now : ℕ) (name : Name) (nonce lifetime : ℕ) (fib : Fib)
    (pit : Pit)
    → NoDangling fib pit.entries
    → NoDangling fib (lookup_interest timers now name nonce lifetime fib pit).0.entries
unfolding lookup_interest
lookup-NoDangling timers now name nonce lifetime fib pit h =
    elim (Option-cases (longest_prefix_match name pit)) [
      | inl missing ↦
          rw (missing, lookup_interest)
            (nonce-NoDangling name nonce fib _
              (create-NoDangling timers now name lifetime fib pit h))
      | inr (e, found) ↦
          rw (found, lookup_interest)
            (elim (Bool-cases (is_nonce_seen nonce e)) [
              | inl seen ↦ rw seen h
              | inr fresh ↦ rw fresh (nonce-NoDangling e.prefix nonce fib pit h)
            ])
    ]

module _ {env : Env} where
  -- A state with the same tables.
  abbrev SameTables : State env → State env → Type 0
  SameTables st st' = (st'.fib ≡ st.fib) × (st'.pit ≡ st.pit) × (st'.store ≡ st.store)

  pub IsValid-same : (st st' : State env) → SameTables st st' → IsValid st → IsValid st'
  IsValid-same st st' (f, p, s) v = record {
    fib = subst IsValidFib (sym f) v.fib;
    pit = subst IsValidPit (sym p) v.pit;
    pointers = rw (f, p) v.pointers;
    store = subst env.IsSound (sym s) v.store;
  }

  pub send_all-SameTables :
      (is : List IncomingFace) (frame : Frame) (m : Option SourceInfo) (st : State env)
      → SameTables st (send_all env is frame m st)
  unfolding send_all send
  send_all-SameTables [] frame m st = (refl, refl, refl)
  send_all-SameTables (i ∷ is) frame m st = send_all-SameTables is frame m (send i.face frame m st)

  nacked :
      (is : List IncomingFace) (frame : Frame) (st : State env) (b : Bool)
      → SameTables st (if b then send_all env is frame none st else st)
  nacked is frame st false = (refl, refl, refl)
  nacked is frame st true = send_all-SameTables is frame none st

  pub Ready-same :
      (prefix : Name) (st st' : State env) → SameTables st st' → Ready prefix st → Ready prefix st'
  Ready-same prefix st st' same r = record {
    valid = IsValid-same st st' same r.valid;
    entry = r.entry;
    found = rw (same.1) r.found;
  }

  pub satisfy-IsValid :
      (e : PitEntry) (content : Packet) (st : State env)
      → IsValid st
      → IsValid (satisfy_pending_interests env e content st)
  unfolding satisfy_pending_interests
  satisfy-IsValid e content st v =
      remove-IsValid e.prefix
        (IsValid-same st _ (send_all-SameTables e.incoming (whole content) e.source_metadata st) v)

  pub give_up_interest-Ends :
      (now : ℕ) (prefix : Name) (header : InterestHeader) (st : State env)
      → Ready prefix st
      → Ends IsValid (give_up_interest env now prefix header st)
  unfolding give_up_interest
  give_up_interest-Ends now prefix header st r =
      Ends-bind (λ e. find_entry prefix st.pit ≡ some e) IsValid _ _ (deref-Ends r)
        λ e found.
          let st' =
            if st.nacks_enabled
            then send_all env e.incoming (built (set_nack nack_giveup_pit header)) none st
            else st in
          let sent =
            Ready-same prefix st st'
              (nacked e.incoming (built (set_nack nack_giveup_pit header)) st st.nacks_enabled) r in
          let one = modify-Ready prefix clear_incoming clear_incoming-KeepsKeys prefix sent in
          let two = modify-Ready prefix clear_outgoing clear_outgoing-KeepsKeys prefix one in
          let three =
            reschedule-Ready prefix (set_expire_time (now + st'.pit.pruning_timeout))
              (λ x. (prefix-set_expire_time _ x).0) (λ x. (prefix-set_expire_time _ x).1)
              (set_expire_time-IsValid _) two in
          three.valid

  pub propagate_or_give_up-Ends :
      (now : ℕ) (prefix : Name) (header : InterestHeader) (frame : Frame) (st : State env)
      → Ready prefix st
      → Ends IsValid (propagate_or_give_up env now prefix header frame st)
  unfolding propagate_or_give_up
  propagate_or_give_up-Ends now prefix header frame st r =
      Ends-bind (λ x. Ready prefix x.0) IsValid _ _ (propagate_interest-Ends now prefix frame st r)
        λ (st', propagated) r'. elim (Bool-cases propagated) [
          | inl ok ↦ rw ok (r'.valid)
          | inr failed ↦ rw failed (give_up_interest-Ends now prefix header st' r')
        ]

  pub update_pit_for_interest-Ends :
      (now : ℕ) (prefix : Name) (face : ℕ) (header : InterestHeader) (st : State env)
      → Ready prefix st
      → Ends (Ready prefix) (update_pit_for_interest env now prefix face header st)
  unfolding update_pit_for_interest
  update_pit_for_interest-Ends now prefix face header st r =
      Ends-bind (λ e. find_entry prefix st.pit ≡ some e) (Ready prefix) _ _ (deref-Ends r)
        λ e found.
          reschedule-Ready prefix (update_lifetime now header.interest_lifetime)
            (λ x. (prefix-update_lifetime now header.interest_lifetime x).0)
            (λ x. (prefix-update_lifetime now header.interest_lifetime x).1)
            (λ x v. update_lifetime-IsValid x v now header.interest_lifetime) (arrived e)
    where
      arrived :
          (e : PitEntry)
          → Ready prefix (record st {
            pit =
                if is_incoming face e
                then st.pit
                else modify_entry prefix (add_incoming now face) st.pit;
          })
      arrived e = elim (Bool-cases (is_incoming face e)) [
        | inl old ↦ rw old r
        | inr fresh ↦
            rw fresh (
              modify-Ready prefix (add_incoming now face) (add_incoming-KeepsKeys now face) prefix
                r)
      ]

  pub note_source-Ends :
      (m : Option Metadata) (packet : Packet) (found : Found) (st : State env)
      → Ready found.entry st
      → Ends (λ r. Ready found.entry r.0) (note_source env m packet found st)
  unfolding note_source
  note_source-Ends none packet found st r = r
  note_source-Ends (some other_layer) packet found st r = r
  note_source-Ends (some (over_ip ip port)) packet found st r =
      Ends-bind (λ e. find_entry found.entry st.pit ≡ some e) (λ x. Ready found.entry x.0) _ _
        (deref-Ends r)
        λ e at_e. modify-Ready found.entry _ (set_source_metadata-KeepsKeys _) found.entry r

  pub update_fib_status-Ends :
      (e : PitEntry) (face : ℕ) (status : Status) (prefix : Name) (st : State env)
      → Ready prefix st
      → find_entry prefix st.pit ≡ some e
      → Ends (Ready prefix) (update_fib_status env e face status st)
  unfolding update_fib_status
  update_fib_status-Ends e face status prefix st r found =
      Ends-bind (IsTarget st.fib) (Ready prefix) _ _
        (follow-Ends st.fib e (pointer-of_entry prefix r.valid e found)) λ target _. marked target
    where
      marked :
          (target : Option FibEntry)
          → Ready prefix (elim target [
            | none ↦ st
            | some entry ↦ record st {
              fib = update_entry_status env.metrics entry.prefix face status st.fib;
            }
          ])
      marked none = r
      marked (some entry) = record {
        valid =
            fib-IsValid (update_entry_status env.metrics entry.prefix face status st.fib)
              (update_entry_status-IsValid env.metrics entry.prefix face status st.fib r.valid.fib)
              (λ q x at_q. still_found env.metrics st.fib entry.prefix face status q x at_q)
              r.valid;
        entry = r.entry;
        found = r.found;
      }

  -- After the lookup of an interest its entry is there.
  pub lookup-Ready :
      (now : ℕ) (name : Name) (nonce lifetime : ℕ) (st : State env)
      → IsValid st
      → Ready
          (lookup_interest env.timers now name nonce lifetime st.fib st.pit).1.entry
          (record st { pit = (lookup_interest env.timers now name nonce lifetime st.fib st.pit).0 })
  lookup-Ready now name nonce lifetime st v =
      let (e, matched, own, seen) = rematched env.timers now name nonce lifetime st.fib st.pit in
      record {
        valid = record {
          fib = v.fib;
          pit = lookup_interest-IsValid env.timers now name nonce lifetime st.fib st.pit v.pit;
          pointers = lookup-NoDangling env.timers now name nonce lifetime st.fib st.pit v.pointers;
          store = v.store;
        };
        entry = e;
        found = rw (sym own) (find_entry-of_match name _ e matched);
      }

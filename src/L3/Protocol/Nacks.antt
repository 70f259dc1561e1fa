-- ===== src/L3/Protocol/Nacks.antt =====
-- What `OnNack` (daemon/ndn-l3-protocol.cc) does with a NACK for a pending interest.
use vndn.Base.{
  ℕ, ◌≡◌, refl, Option-cases, sym, ◌∙◌, ap, subst, Bool, true, false, not, Option, none, some,
  if◌then◌else◌, length, ◌==◌, inl, inr, arith,
}
use vndn.Header.{InterestHeader, set_nack, normal_interest, nack_giveup_pit}
use vndn.Base.Sorted.{OrderedIndex}
use vndn.Base.Keyed.{key-find}
use vndn.Name.Compare.{Name-discrete}
use vndn.Fib
use vndn.Fib.{Fib, FibEntry, Status, yellow, metric_le, find_prefix, update_entry_status}
use vndn.Fib.Table.{find_prefix-update_entry_status}
use mathlib.Core.Option
use vndn.Name.{Name}
use vndn.Pit
use vndn.Pit.{
  PitEntry, OutgoingFace, Found, find_entry, find_outgoing, lookup_interest, longest_prefix_match,
  is_nonce_seen, modify_entry, set_waiting_in_vain, are_all_outgoing_in_vain,
}
use vndn.Pit.Keeps.{set_waiting_in_vain-KeepsKeys}
use vndn.Pit.Lookup.{lookup_interest_seen, find_entry-of_match}
use vndn.Pit.Table.{find_entry-modify_entry}
use vndn.L3.{Env, State, built, Outcome, done, raised, undefined, ◌>>=◌, deref}
use vndn.L3.Strategy.{follow}
use vndn.L3.Invariant.{
  IsValid, Ready, Ends, Ends-bind, Ends-both, Ends-map, Ends-named, Ends-done, IsTarget,
  follow-Ends, pointer-of_entry, modify-Ready,
}
use vndn.L3.Protocol.{propagate_or_give_up, update_fib_status, retry_interest, nack_on, on_nack}
use vndn.L3.Protocol.Delivery.{SameButFib, update_fib_status-SameButFib}
use vndn.L3.Protocol.Fresh.{Forwarded, Forwarded-same, propagate_or_give_up-Forwarded}

abbrev followed : Fib → Option Name → Outcome (Option FibEntry)
followed fib none = done none
followed fib (some prefix) = elim (find_prefix fib prefix) [
  | none ↦ undefined
  | some entry ↦ done (some entry)
]

follow-followed : (fib : Fib) (e : PitEntry) → follow fib e ≡ followed fib e.fib_entry
unfolding follow
follow-followed fib e = refl

target_of : Outcome (Option FibEntry) → Option FibEntry
target_of (done o) = o
target_of raised = none
target_of undefined = none

module _ (index : OrderedIndex metric_le) (fib : Fib) (face : ℕ) (status : Status)
    (entry : FibEntry) where
  followed-update :
      (ptr : Option Name)
      → followed fib ptr ≡ done (some entry)
      → followed (update_entry_status index entry.prefix face status fib) ptr
        ≡ done (some (Fib.update_status index face status entry))
  unfolding find_prefix
  followed-update none p = absurd (cc (ap target_of p))
  followed-update (some prefix) p = elim (Option-cases (find_prefix fib prefix)) [
    | inl missing ↦ absurd (cc (missing, p))
    | inr (x, at_x) ↦
        let same : x ≡ entry = cc (at_x, p) in
        let own : entry.prefix ≡ prefix =
          sym (ap Fib.prefix_of same) ∙ key-find Name-discrete Fib.prefix_of prefix fib x at_x in
        let found = find_prefix-update_entry_status index entry.prefix prefix face status fib in
        let at_own : find_prefix fib entry.prefix ≡ some entry =
          subst (λ q. find_prefix fib q ≡ some entry) (sym own) (at_x ∙ ap some same) in
        let final : find_prefix (update_entry_status index entry.prefix face status fib) prefix
            ≡ some (Fib.update_status index face status entry) =
          found ∙ ground (arith, own, sym own, at_own) in
        rw (final, followed) refl
  ]

  -- Following a pointer after `UpdateStatus` on what it points to.
  follow-update_entry_status :
      (e : PitEntry)
      → follow fib e ≡ done (some entry)
      → follow (update_entry_status index entry.prefix face status fib) e
        ≡ done (some (Fib.update_status index face status entry))
  follow-update_entry_status e points =
      follow-followed (update_entry_status index entry.prefix face status fib) e
      ∙ followed-update e.fib_entry (sym (follow-followed fib e) ∙ points)

module _ {env : Env} where
  -- What a NACK leads to, with the entry after its face was marked, and the FIB entry that it points
  -- to after its record of the face was marked: the interest is forwarded anew, with its NACK type
  -- reset, if there is an incoming face and all outgoing ones wait in vain; otherwise nothing is sent.
  abbrev pub Retried : ℕ → InterestHeader → State env → PitEntry → State env → Type 0
  Retried face header st e st' =
      if length e.incoming == 0
      then st'.sent ≡ st.sent
      else if are_all_outgoing_in_vain e
      then ((target : Option FibEntry) × (follow st.fib e ≡ done target)
          × Forwarded (built (set_nack normal_interest header)) (set_nack normal_interest header) st
              e (Option.map (Fib.update_status env.metrics face yellow) target) st')
      else (st'.sent ≡ st.sent)

  -- Nothing was sent, and what the strategy depends on besides the tables is the same.
  record Quiet (st st' : State env) : Type 0 where
    sent : st'.sent ≡ st.sent
    faces : st'.faces ≡ st.faces
    nacks : st'.nacks_enabled ≡ st.nacks_enabled
    limits : st'.limits ≡ st.limits

  follow-update_fib_status :
      (e : PitEntry) (face : ℕ) (status : Status) (st : State env) (target : Option FibEntry)
      → follow st.fib e ≡ done target
      → Ends
          (λ st'.
            follow st'.fib e ≡ done (Option.map (Fib.update_status env.metrics face status) target))
          (update_fib_status env e face status st)
  unfolding update_fib_status
  follow-update_fib_status e face status st target points = rw points (marked target points)
    where
      marked :
          (target : Option FibEntry)
          → follow st.fib e ≡ done target
          → follow
              (elim target as (λ _. State env) [
                | none ↦ st
                | some entry ↦ record st {
                  fib = update_entry_status env.metrics entry.prefix face status st.fib;
                }
              ]).fib
              e
            ≡ done (Option.map (Fib.update_status env.metrics face status) target)
      marked none p = p
      marked (some entry) p = follow-update_entry_status env.metrics st.fib face status entry e p

  module _ (face : ℕ) (st0 : State env) (start : Option FibEntry) where
    -- The FIB entry after its record of the face was marked.
    abbrev marked_target : Option FibEntry
    marked_target = Option.map (Fib.update_status env.metrics face yellow) start

    retry-Retried :
        (now : ℕ) (prefix : Name) (header : InterestHeader) (st : State env) (e : PitEntry)
        → Quiet st0 st
        → find_entry prefix st.pit ≡ some e
        → follow st0.fib e ≡ done start
        → follow st.fib e ≡ done marked_target
        → Ends (Retried face header st0 e) (retry_interest env now prefix header st)
    unfolding retry_interest
    retry-Retried now prefix header st e same found points0 points =
        rw found (by_cases (length e.incoming == 0) (are_all_outgoing_in_vain e))
      where
        again : InterestHeader
        again = set_nack normal_interest header

        retry : Outcome (State env)
        retry = propagate_or_give_up env now prefix again (built again) st

        by_cases :
            (nobody vain : Bool)
            → Ends
                (λ st'.
                  if nobody
                  then st'.sent ≡ st0.sent
                  else if vain
                  then ((target : Option FibEntry) × (follow st0.fib e ≡ done target)
                      × Forwarded
                          (built again)
                          again
                          st0
                          e
                          (Option.map (Fib.update_status env.metrics face yellow) target)
                          st')
                  else (st'.sent ≡ st0.sent))
                (if nobody then done st else if vain then retry else done st)
        by_cases true vain = same.sent
        by_cases false false = same.sent
        by_cases false true =
            Ends-map (Forwarded (built again) again st e marked_target) _ retry
              (λ x f. (
                start,
                points0,
                Forwarded-same (built again) again st0 st e marked_target x same.sent same.nacks
                    same.faces same.limits f,
              ))
              (propagate_or_give_up-Forwarded now prefix again (built again) st e marked_target
                found points)

  nack_on-Retried :
      (now face : ℕ) (prefix : Name) (header : InterestHeader) (st : State env) (e : PitEntry)
      → header.nack_type == nack_giveup_pit ≡ false
      → IsValid st
      → find_entry prefix st.pit ≡ some e
      → Ends
          (Retried face header st (set_waiting_in_vain face e))
          (nack_on env now face prefix header st)
  unfolding nack_on
  nack_on-Retried now face prefix header st e kind v found =
      let (target, points, _) =
        Ends-done (IsTarget st1.fib) (follow st1.fib e')
          (follow-Ends st1.fib e' (pointer-of_entry prefix r.valid e' at_e)) in
      subst
        (λ b. Ends Q (do
          x ← deref (find_entry prefix (marked b).pit)
          st'' ← update_fib_status env x face yellow (marked b)
          retry_interest env now prefix header st''))
        (sym kind)
        (subst
          (λ o. Ends Q (do
            x ← deref o
            st'' ← update_fib_status env x face yellow st1
            retry_interest env now prefix header st''))
          (sym at_e)
          (Ends-bind
            (λ st2. SameButFib st1 st2 × (follow st2.fib e' ≡ done (marked_target face st target)))
            Q _ _
            (Ends-both (SameButFib st1) _ (update_fib_status env e' face yellow st1)
              (update_fib_status-SameButFib e' face yellow st1
                (pointer-of_entry prefix r.valid e' at_e))
              (follow-update_fib_status e' face yellow st1 target points))
            λ st2 (same, marked').
              retry-Retried face st target now prefix header st2 e'
                (record {
                  sent = same.sent;
                  faces = same.faces;
                  nacks = same.nacks;
                  limits = same.limits;
                })
                (ap (find_entry prefix) same.pit ∙ at_e) points marked'))
    where
      Q : State env → Type 0
      Q = Retried face header st (set_waiting_in_vain face e)

      st1 : State env
      st1 = record st { pit = modify_entry prefix (set_waiting_in_vain face) st.pit }

      marked : Bool → State env
      marked b =
          if b
          then record st1 { pit = modify_entry prefix (Pit.remove_incoming face) st1.pit }
          else st1

      e' : PitEntry
      e' = set_waiting_in_vain face e

      r : Ready prefix st1
      r =
          modify-Ready prefix (set_waiting_in_vain face) (set_waiting_in_vain-KeepsKeys face) prefix
            (record { valid = v; entry = e; found = found })

      at_e : find_entry prefix st1.pit ≡ some e'
      at_e =
          find_entry-modify_entry prefix (set_waiting_in_vain face)
            (set_waiting_in_vain-KeepsKeys face) st.pit prefix
          ∙ ground (arith, found)

  -- `OnNack` on a named NACK that is not for giving up, whose nonce the PIT entry that it matches has
  -- seen, from a face that the entry was sent on, in a valid state: with the face marked as waiting in
  -- vain, if the entry has an incoming face and all its outgoing ones wait in vain, the interest, with
  -- its NACK type reset, is sent to the strategy's choice for that entry and the FIB entry that it
  -- points to, where the face is marked yellow; where that is nobody, NACKs that give it up go to the
  -- incoming faces, if NACKs are enabled. Otherwise nothing is sent.
  pub on_nack-Retried :
      (now face : ℕ) (header : InterestHeader) (st : State env) (name : Name) (e : PitEntry)
      (out : OutgoingFace)
      → header.name ≡ some name
      → header.nack_type == nack_giveup_pit ≡ false
      → IsValid st
      → longest_prefix_match name st.pit ≡ some e
      → is_nonce_seen header.nonce e ≡ true
      → find_outgoing face e ≡ some out
      → Ends (Retried face header st (set_waiting_in_vain face e)) (on_nack env now face header st)
  unfolding on_nack
  on_nack-Retried now face header st name e out named kind v matched seen sent_out =
      Ends-named Q name header.name _ named (
        subst
          (λ l. Ends Q (do
            x ← deref (find_entry l.1.entry l.0)
            (if l.1.is_new
                then done (record st { pit = l.0 })
                else if not l.1.is_duplicate
                then done (record st { pit = l.0 })
                else elim (find_outgoing face x) [
                  | none ↦ done (record st { pit = l.0 })
                  | some _ ↦ nack_on env now face l.1.entry header (record st { pit = l.0 })
                ])))
          (sym (
            lookup_interest_seen env.timers now name header.nonce header.interest_lifetime st.fib
              st.pit e matched seen))
          (subst
            (λ o. Ends Q (do
              x ← deref o
              elim (find_outgoing face x) [
                | none ↦ done st
                | some _ ↦ nack_on env now face e.prefix header st
              ]))
            (sym at_e)
            (subst
              (λ o.
                Ends Q
                  (elim o [ none ↦ done st | some _ ↦ nack_on env now face e.prefix header st ]))
              (sym sent_out) (nack_on-Retried now face e.prefix header st e kind v at_e))))
    where
      Q : State env → Type 0
      Q = Retried face header st (set_waiting_in_vain face e)

      at_e : find_entry e.prefix st.pit ≡ some e
      at_e = find_entry-of_match name st.pit e matched

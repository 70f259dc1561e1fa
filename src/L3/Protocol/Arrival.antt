-- ===== src/L3/Protocol/Arrival.antt =====
-- An interest's arrival at its PIT entry: `updatePITForInterest` of daemon/ndn-l3-protocol.cc.
use vndn.Base.{
  ℕ, ◌≡◌, ◌≢◌, ◌∙◌, Bool, Option, none, true, false, some, arith, if◌then◌else◌, inl, inr,
  Bool-cases,
}
use vndn.Base.Ascending.{find-insert_self}
use vndn.Base.Sorted.{OrderedIndex}
use vndn.Name.{Name}
use vndn.Pit.{
  Pit, PitEntry, expire_le, find_entry, modify_entry, add_incoming, update_lifetime, reschedule,
  in_face, set_source_metadata,
}
use vndn.Pit.Keeps.{add_incoming-KeepsKeys, prefix-update_lifetime}
use vndn.Pit.Table.{
  IsValidPit, find_entry-modify_entry, find_entry-reschedule, modify_entry-IsValid,
}
use vndn.L3.{Metadata, over_ip, other_layer, Frame, whole, Packet}
use vndn.L3.Strategy.{is_incoming}
use vndn.L3.Protocol.{sources, left_of}

-- What the metadata of an interest changes in its entry, and which packet is left.
abbrev pub noted : Option Metadata → Bool → PitEntry → PitEntry
noted none duplicate e = e
noted (some other_layer) duplicate e = e
noted (some (over_ip ip port)) duplicate e =
    set_source_metadata (sources duplicate ip port e.source_metadata) e

abbrev pub noted_frame : Option Metadata → PitEntry → Packet → Frame
noted_frame none e packet = whole packet
noted_frame (some other_layer) e packet = whole packet
noted_frame (some (over_ip ip port)) e packet = left_of e.source_metadata packet

is_incoming-update_lifetime :
    (now lifetime face : ℕ) (e : PitEntry)
    → is_incoming face (update_lifetime now lifetime e) ≡ is_incoming face e
unfolding is_incoming update_lifetime
is_incoming-update_lifetime now lifetime face e = ground arith

is_incoming-add :
    (now face : ℕ) (e : PitEntry)
    → is_incoming face e ≡ false
    → is_incoming face (add_incoming now face e) ≡ true
unfolding is_incoming add_incoming
is_incoming-add now face e h =
    ground (arith, find-insert_self in_face (record { face = face; arrival_time = now }) e.incoming)

module _ (index : OrderedIndex expire_le) (now : ℕ) (prefix : Name) (face : ℕ) (lifetime : ℕ) where
  -- What the entry becomes.
  abbrev pub requested : PitEntry → PitEntry
  requested e =
      update_lifetime now lifetime (if is_incoming face e then e else add_incoming now face e)

  pub requested-is_incoming : (e : PitEntry) → is_incoming face (requested e) ≡ true
  requested-is_incoming e =
      is_incoming-update_lifetime now lifetime face _ ∙ ground (arith, is_incoming-add now face e)

  pub find_entry-requested :
      (pit : Pit) (e : PitEntry)
      → IsValidPit pit
      → find_entry prefix pit ≡ some e
      → find_entry prefix (
          reschedule index prefix
            (update_lifetime now lifetime)
            (if is_incoming face e then pit else modify_entry prefix (add_incoming now face) pit))
        ≡ some (requested e)
  find_entry-requested pit e v found = elim (Bool-cases (is_incoming face e)) [
    | inl old ↦ rw old (find_at pit e v found)
    | inr fresh ↦ rw fresh (
        find_at (modify_entry prefix (add_incoming now face) pit) (add_incoming now face e)
          (modify_entry-IsValid prefix (add_incoming now face) (add_incoming-KeepsKeys now face) pit
            v)
          (find_entry-modify_entry prefix (add_incoming now face) (add_incoming-KeepsKeys now face)
              pit prefix
            ∙ ground (arith, found)))
  ]
    where
      find_at :
          (pit' : Pit) (e' : PitEntry)
          → IsValidPit pit'
          → find_entry prefix pit' ≡ some e'
          → find_entry prefix (reschedule index prefix (update_lifetime now lifetime) pit')
            ≡ some (update_lifetime now lifetime e')
      find_at pit' e' v' at_e =
          find_entry-reschedule index prefix prefix (update_lifetime now lifetime) pit'
            (λ x. (prefix-update_lifetime now lifetime x).0) v'
          ∙ ground (arith, at_e)

  pub find_entry-requested_other :
      (pit : Pit) (e : PitEntry) (q : Name)
      → IsValidPit pit
      → q ≢ prefix
      → find_entry q (
          reschedule index prefix
            (update_lifetime now lifetime)
            (if is_incoming face e then pit else modify_entry prefix (add_incoming now face) pit))
        ≡ find_entry q pit
  find_entry-requested_other pit e q v n = elim (Bool-cases (is_incoming face e)) [
    | inl old ↦ rw old (other pit v)
    | inr fresh ↦ rw fresh (
        other (modify_entry prefix (add_incoming now face) pit) (
          modify_entry-IsValid prefix (add_incoming now face) (add_incoming-KeepsKeys now face) pit
            v)
        ∙ find_entry-modify_entry prefix (add_incoming now face) (add_incoming-KeepsKeys now face)
            pit q
        ∙ ground (arith, n))
  ]
    where
      other :
          (pit' : Pit)
          → IsValidPit pit'
          → find_entry q (reschedule index prefix (update_lifetime now lifetime) pit')
            ≡ find_entry q pit'
      other pit' v' =
          find_entry-reschedule index prefix q (update_lifetime now lifetime) pit'
            (λ x. (prefix-update_lifetime now lifetime x).0) v'
          ∙ ground (arith, n)

-- ===== src/L3/Faces/Dangling.antt =====
-- A prefix that is unregistered (daemon/ndn-management.cc) while an interest under it is pending.
use vndn.Base.{ℕ, ◌≡◌, refl, ◌∙◌, Option, none, some, arith}
use vndn.Header.{ContentObjectHeader}
use vndn.Fib.{Fib, FibEntry, Status, find_prefix, green, remove_prefix}
use vndn.Fib.Table.{IsValidFib, IsLast, find_prefix-remove}
use vndn.Name.{Name}
use vndn.Pit.{PitEntry, OutgoingFace, find_entry, find_outgoing, lookup_content}
use vndn.L3.{Env, State, Packet, Outcome, undefined, ◌>>=◌, get_name}
use vndn.L3.Strategy.{follow}
use vndn.L3.Faces.{unregister}
use vndn.L3.Protocol.{on_data, accept_data, update_fib_status}

-- `RemovePrefix` of the last face of an entry erases it.
find_prefix-remove_prefix_last :
    (prefix : Name) (face : ℕ) (fib : Fib) (x : FibEntry)
    → IsValidFib fib
    → find_prefix fib prefix ≡ some x
    → IsLast face x
    → find_prefix (remove_prefix prefix face fib).0 prefix ≡ none
unfolding remove_prefix
find_prefix-remove_prefix_last prefix face fib x v found last =
    ground (arith, found, find_prefix-remove prefix prefix face fib v, last)

follow-dangling :
    (fib : Fib) (e : PitEntry) (prefix : Name)
    → e.fib_entry ≡ some prefix
    → find_prefix fib prefix ≡ none
    → follow fib e ≡ undefined
unfolding follow
follow-dangling fib e prefix points missing = ground arith

bind-named :
    {A : Type 0} (o : Option Name) (name : Name)
    → o ≡ some name
    → (f : Name → Outcome A) → (get_name o >>= f) ≡ f name
bind-named o name e f = rw e refl

module _ {env : Env} (st : State env) where
  update_fib_status-dangling :
      (e : PitEntry) (face : ℕ) (status : Status)
      → follow st.fib e ≡ undefined
      → update_fib_status env e face status st ≡ undefined
  unfolding update_fib_status
  update_fib_status-dangling e face status h = rw h refl

  accept_data-dangling :
      (face : ℕ) (name : Name) (packet : Packet) (e : PitEntry) (out : OutgoingFace)
      → find_outgoing face e ≡ some out
      → follow st.fib e ≡ undefined
      → accept_data env face name packet e st ≡ undefined
  unfolding accept_data
  accept_data-dangling face name packet e out sent h =
      rw (sent, accept_data) (rw (update_fib_status-dangling e face green h) refl)

  on_data-dangling :
      (face : ℕ) (header : ContentObjectHeader) (packet : Packet) (name : Name) (e : PitEntry)
      (out : OutgoingFace)
      → header.name ≡ some name
      → find_entry name st.pit ≡ some e
      → find_outgoing face e ≡ some out
      → follow st.fib e ≡ undefined
      → on_data env face header packet st ≡ undefined
  unfolding on_data lookup_content
  on_data-dangling face header packet name e out named at_e sent h =
      bind-named header.name name named _
      ∙ rw at_e (accept_data-dangling face name packet e out sent h)

-- After the prefix of a pending interest's FIB entry lost its last face, data for the interest, from
-- a face that it was sent on, makes `OnData` follow a pointer to an erased entry.
pub unregister-on_data :
    {env : Env} (prefix name : Name) (face other : ℕ) (st : State env) (x : FibEntry) (e : PitEntry)
    (out : OutgoingFace) (header : ContentObjectHeader) (packet : Packet)
    → IsValidFib st.fib
    → find_prefix st.fib prefix ≡ some x
    → IsLast face x
    → find_entry name st.pit ≡ some e
    → e.fib_entry ≡ some prefix
    → find_outgoing other e ≡ some out
    → header.name ≡ some name
    → on_data env other header packet (unregister env prefix face st) ≡ undefined
unfolding unregister
unregister-on_data {env} prefix name face other st x e out header packet v at_x last at_e points
      sent named =
    let gone = find_prefix-remove_prefix_last prefix face st.fib x v at_x last in
    on_data-dangling (unregister env prefix face st) other header packet name e out named at_e sent
      (follow-dangling (remove_prefix prefix face st.fib).0 e prefix points gone)

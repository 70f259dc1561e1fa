-- ===== src/L3/Caching.antt =====
-- The forwarder (daemon/ndn-l3-protocol.cc) with the content store of daemon/cs that its constructor
-- creates, in place of the abstract one.
use vndn.Base.{ℕ, ◌≡◌, sym, ap, subst, Option, some}
use mathlib.Core.Option
use vndn.Name.{Name}
use vndn.Header.{InterestHeader, ContentObjectHeader}
use vndn.Pit.{PitEntry, OutgoingFace, find_entry, find_outgoing}
use vndn.Trie.{payload}
use vndn.ContentStore
use vndn.ContentStore.{ContentStore, Entry, lookup, add}
use vndn.ContentStore.Lookup.{Serves, Serves-IsValid, kept, lookup-Serves, add-lookup}
use vndn.ContentStore.Invariant.{add-IsValid}
use vndn.L3.{Env, State, Packet, Outcome, LooksUp, done, raised, undefined}
use vndn.L3.Invariant.{IsValid, Ends, Ends-map, Ends-both}
use vndn.L3.Protocol.{on_interest, on_data}
use vndn.L3.Protocol.Delivery.{Answered, on_data-Answered}
use vndn.L3.Protocol.Safety.{on_data-Ends}
use vndn.L3.Protocol.Served.{Served, on_interest-Served}

-- What `Lookup` gives to `checkContentStoreForInterest`.
unfoldable pub found_packet :
    Outcome (ContentStore Packet × Option (Entry Packet))
    → Outcome (ContentStore Packet × Option Packet)
found_packet (done (c, entry)) = done (c, Option.map (λ e. e.packet) entry)
found_packet raised = raised
found_packet undefined = undefined

pub found_packet-LooksUp :
    (name : Name) (c : ContentStore Packet)
    (o : Outcome (ContentStore Packet × Option (Entry Packet)))
    → ContentStore.Invariant.IsValid c
    → Serves name c o
    → LooksUp ContentStore.Invariant.IsValid name (found_packet o)
unfolding found_packet
found_packet-LooksUp name c (done (c', entry)) v s = Serves-IsValid name c c' entry v s
found_packet-LooksUp name c raised v s = unfold Serves in s
found_packet-LooksUp name c undefined v s = unfold Serves in s.0

abbrev pub with_content_store : Env → Env
with_content_store env = record {
  Store = ContentStore Packet;
  lookup_store = λ name c. found_packet (lookup name c);
  add_store = add;
  IsSound = ContentStore.Invariant.IsValid;
  lookup_store-LooksUp =
      λ name c v. found_packet-LooksUp name c (lookup name c) v (lookup-Serves name c v);
  add_store-IsSound = λ name packet c v. add-IsValid name packet c v;
  Limits = env.Limits;
  is_below_limit = env.is_below_limit;
  metrics = env.metrics;
  timers = env.timers;
}

module _ (base : Env) where
  abbrev env : Env
  env = with_content_store base

  lookup_store-after_add :
      (name : Name) (packet : Packet) (c : ContentStore Packet)
      → ContentStore.Invariant.IsValid c
      → (c' : ContentStore Packet) × (env.lookup_store name (add name packet c).0
          ≡ done (
            c',
            some (kept (record { name = name; packet = packet }) (payload name c.trie)).packet,
          ))
  unfolding found_packet
  lookup_store-after_add name packet c v =
      let (c', e) = add-lookup name packet c v in (c', ap found_packet e)

  -- The interest is answered with what the store held under the name before, or else with the
  -- packet.
  abbrev pub AnswersNext : Name → Packet → ContentStore Packet → State env → Type 0
  AnswersNext name packet c st' =
      (now face : ℕ) (header : InterestHeader) (asking : Packet)
      → header.name ≡ some name
      → Ends
          (Served now face header asking name
            (kept (record { name = name; packet = packet }) (payload name c.trie)).packet st')
          (on_interest env now face header asking st')

  -- After data for a pending interest that was sent on the data's face, any interest for the same
  -- name is answered from the content store, with what it held under the name before, or else with
  -- the data: the answer goes to each incoming face of the interest's PIT entry.
  pub on_data-on_interest :
      (face : ℕ) (header : ContentObjectHeader) (packet : Packet) (st : State env) (name : Name)
      (e : PitEntry) (out : OutgoingFace)
      → header.name ≡ some name
      → IsValid st
      → find_entry name st.pit ≡ some e
      → find_outgoing face e ≡ some out
      → Ends (AnswersNext name packet st.store) (on_data env face header packet st)
  on_data-on_interest face header packet st name e out named v found sent =
      Ends-map _ (AnswersNext name packet st.store) (on_data env face header packet st)
        (λ st' (a, v'). next st' a v')
        (Ends-both _ _ _
          (subst (λ o. Ends (Answered st name packet e o) (on_data env face header packet st)) sent
            (on_data-Answered face header packet st name e named v found))
          (on_data-Ends face header packet st name named v))
    where
      next :
          (st' : State env)
          → Answered st name packet e (some out) st'
          → IsValid st'
          → AnswersNext name packet st.store st'
      next st' a v' now face' header' asking named' =
          let (c', hit) = lookup_store-after_add name packet st.store v.store in
          on_interest-Served now face' header' asking st' name _ c' named' v' (
            subst
              (λ c.
                env.lookup_store name c
                ≡ done (
                  c',
                  some
                      (kept (record { name = name; packet = packet })
                        (payload name st.store.trie)).packet,
                ))
              (sym a.1) hit)

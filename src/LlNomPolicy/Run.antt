-- ===== src/LlNomPolicy/Run.antt =====
-- The policy of network/mac/ll-nom-policy.cc over a sequence of events: packets from the daemon,
-- frames from the network and deadlines.
use vndn.Base.{ℕ, ◌*◌, ◌≤◌, ◌≡◌, subst, Option, List, [], ◌∷◌, All, All-map_pred, length, arith}
use vndn.Base.Outcome.{done, IfEnds}
use vndn.Base.Total.{total}
use vndn.PacketStorage.{Element}
use vndn.LlNomPolicy.{
  NomEnv, NomState, Command, add_outgoing_pkt, pkt_from_network, get_pkt_for_retransmission,
}
use vndn.LlNomPolicy.Retransmission.{Fits, left, left_of, calls, calls-empty}
use vndn.LlNomPolicy.Safety.{IsCounted, IsSound, get_pkt-IsSound}
use vndn.LlNomPolicy.Preservation.{add_outgoing_pkt-IsSound, pkt_from_network-IsSound}

-- The states that events lead to, from the empty storage on: each event ended.
pub data Reachable (env : NomEnv) : NomState env → Type 0 where
  start : (upper : env.Upper) → Reachable env (record { storage = []; upper = upper })
  outgoing :
      (st st' : NomState env) (now : ℕ × ℕ) (rand : ℕ) (pkt : List ℕ) (metadata : Option env.Geo)
      (location : env.Location) (command : Command)
      → Reachable env st
      → add_outgoing_pkt env now rand pkt metadata location st ≡ done (st', command)
      → Reachable env st'
  incoming :
      (st st' : NomState env) (frame : List ℕ) (location : env.Location) (command : Command)
      → Reachable env st
      → pkt_from_network env frame location st ≡ done (st', command)
      → Reachable env st'
  due :
      (st : NomState env) (now : ℕ × ℕ) (location : env.Location)
      → Reachable env st
      → Reachable env (get_pkt_for_retransmission env now location st).0

module _ {Ack Geo : Type 0} where
  empty-IsSound : IsSound {Ack = Ack} {Geo = Geo} []
  empty-IsSound = record { valid = record { sorted = tt; keys = tt; names = tt }; counted = tt }

  left-bounded :
      (storage : List (Element Ack Geo)) → All IsCounted storage → left storage ≤ 8 * length storage
  unfolding left total left_of
  left-bounded [] c = omega arith
  left-bounded (e ∷ storage) (c, h) = omega (arith, c.sent, c.left, c.limit, left-bounded storage h)

module _ {env : NomEnv} where
  pub Reachable-IsSound : (st : NomState env) → Reachable env st → IsSound st.storage
  Reachable-IsSound _ (start upper) = empty-IsSound
  Reachable-IsSound _ (outgoing st st' now rand pkt metadata location command r e) =
      subst (IfEnds (λ x. IsSound x.0.storage)) e
        (add_outgoing_pkt-IsSound env now rand pkt metadata location st (Reachable-IsSound st r))
  Reachable-IsSound _ (incoming st st' frame location command r e) =
      subst (IfEnds (λ x. IsSound x.0.storage)) e
        (pkt_from_network-IsSound env frame location st (Reachable-IsSound st r))
  Reachable-IsSound _ (due st now location r) =
      get_pkt-IsSound env now location st (Reachable-IsSound st r)

  -- In each state that packets from the daemon, frames from the network and deadlines lead to from
  -- the empty storage, each of them having ended, at most eight transmissions are left for each stored
  -- packet, and as many calls of `getPktForRetransmission`, whatever the times and places, send a
  -- packet each and leave the storage empty.
  pub Reachable-drains :
      (times : List ((ℕ × ℕ) × env.Location)) (st : NomState env)
      → Reachable env st
      → length times ≡ left st.storage
      → (length times ≤ 8 * length st.storage)
        × ((calls env times st).0.storage ≡ [])
        × ((calls env times st).1 ≡ length times)
  Reachable-drains times st r n =
      let s = Reachable-IsSound st r in
      let fits = All-map_pred IsCounted Fits st.storage (λ e c. omega (arith, c.limit)) s.counted in
      let (empty, sent) = calls-empty env times st fits n in
      (omega (arith, left-bounded st.storage s.counted), empty, sent)

-- ===== src/L3/Run.antt =====
-- The events of NDNL3Protocol (daemon/ndn-l3-protocol.cc) and the states that they lead to from the
-- initial one.
use vndn.Base.{ℕ, ◌≡◌, ◌≢◌, Bool, Option, none, some, [], All}
use vndn.Fib.Table.{IsLast}
use vndn.Name.{Name}
use vndn.L3.{Env, State, Packet, Metadata, over_ip, other_layer, Outcome, done}
use vndn.L3.Faces.{remove_face, reap, register}
use vndn.L3.Protocol.{Received, interest_packet, content_packet, unknown_packet, receive, add_face}

-- A packet that a face received, or a call of another operation.
pub data Event : Type 0 where
  packet : ℕ → ℕ → Received → Packet → Event
  timer : ℕ → Event
  new_face : ℕ → Event
  lost_face : ℕ → Event
  new_prefix : Name → ℕ → Event

-- The header, if there is one, has a name, which for an interest that is no NACK is not the root.
abbrev pub HasName : Received → Type 0
HasName (interest_packet header) =
    (header.name ≢ none) × (header.nack_type ≡ 0 → header.name ≢ some [])
HasName (content_packet header) = header.name ≢ none
HasName unknown_packet = Unit {0}

-- The packet has no metadata of an IP layer, which would be freed and still pointed at.
abbrev pub IsLocal : Option Metadata → Type 0
IsLocal none = Unit {0}
IsLocal (some other_layer) = Unit {0}
IsLocal (some (over_ip ip port)) = ⊥

module _ (env : Env) where
  abbrev pub handle : Event → State env → Outcome (State env)
  handle (packet now face received bytes) st = receive env now face received bytes st
  handle (timer now) st = done (reap env now st)
  handle (new_face face) st = done (add_face env face st)
  handle (lost_face face) st = remove_face env face st
  handle (new_prefix prefix face) st = done (register env prefix face st)

  -- The header has a name, and the packet no metadata of an IP layer; a face that goes leaves every
  -- FIB entry another face.
  abbrev pub IsSafe : Event → State env → Type 0
  IsSafe (packet now face received bytes) st = HasName received × IsLocal bytes.metadata
  IsSafe (timer now) st = Unit {0}
  IsSafe (new_face face) st = Unit {0}
  IsSafe (lost_face face) st = All (λ e. ¬ (IsLast face e)) st.fib
  IsSafe (new_prefix prefix face) st = Unit {0}

  -- The state that the constructor leaves: no faces, and empty tables.
  abbrev pub initial : env.Store → env.Limits → Bool → Bool → ℕ → ℕ → State env
  initial store limits cache nacks pruning lifetime = record {
    faces = [];
    store = store;
    limits = limits;
    fib = [];
    pit = record { entries = []; pruning_timeout = pruning; default_lifetime = lifetime };
    cache_unsolicited_data = cache;
    nacks_enabled = nacks;
    sent = [];
  }

  -- The states that safe events lead to.
  pub data Reachable (first : State env) : State env → Type 0 where
    start : Reachable first first
    step :
        (event : Event) (st st' : State env)
        → Reachable first st
        → IsSafe event st
        → handle event st ≡ done st'
        → Reachable first st'

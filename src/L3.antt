-- ===== src/L3.antt =====
-- The forwarder: daemon/ndn-l3-protocol.{h,cc}, daemon/ndn-forwarding-strategy.cc and
-- daemon/ndn-flooding-strategy.cc. An event is a function from the state to the next one.
pub mod Strategy
pub mod Protocol
pub mod Faces
pub mod Run
pub mod Invariant
pub mod Caching
use vndn.Base.{ℕ, ◌≡◌, Bool, Option, none, some, List, ◌++◌, [], ◌∷◌}
use vndn.Base.Sorted.{OrderedIndex}
use vndn.Name.{Name}
use vndn.Header.{InterestHeader}
use vndn.Fib.{Fib, metric_le}
use vndn.Pit.{Pit, SourceInfo, expire_le}
pub use vndn.Base.Outcome.{Outcome, done, raised, undefined, ◌>>=◌, deref}

-- `Packet::llmetadataptr`: the address and the port of a packet that came over IP, or what another
-- link layer knows
pub data Metadata : Type 0 where
  over_ip : ℕ → ℕ → Metadata
  other_layer : Metadata

-- A received packet: its bytes and its metadata.
pub record Packet : Type 0 where
  pub raw : List ℕ
  pub metadata : Option Metadata

-- What is sent: a packet that was received, one whose metadata was freed and is still pointed at, or
-- one built from an interest header.
pub data Frame : Type 0 where
  whole : Packet → Frame
  released : Packet → Frame
  built : InterestHeader → Frame

-- `Send` on a face
pub record Sent : Type 0 where
  pub face : ℕ
  pub frame : Frame
  pub metadata : Option SourceInfo

-- How a lookup in a content store ends: with no exception, and with undefined behaviour only for the
-- root.
abbrev pub LooksUp :
    {Store : Type 0} → (Store → Type 0) → Name → Outcome (Store × Option Packet) → Type 0
LooksUp P name (done r) = P r.0
LooksUp P name raised = ⊥
LooksUp P name undefined = name ≡ []

-- What the forwarder uses of other components: the content store behind its abstract class, with a
-- predicate that its operations keep (the daemon's store fills it in L3.Caching), the
-- faces' rate limits (`IsBelowLimit`, virtual, over floating-point numbers), and the places that
-- the ordered indices choose among equivalent elements.
pub record Env : Type 1 where
  pub Store : Type 0
  pub lookup_store : Name → Store → Outcome (Store × Option Packet)
  pub add_store : Name → Packet → Store → Store × Bool
  pub IsSound : Store → Type 0
  pub lookup_store-LooksUp :
      (name : Name) (store : Store) → IsSound store → LooksUp IsSound name (lookup_store name store)
  pub add_store-IsSound :
      (name : Name) (packet : Packet) (store : Store)
      → IsSound store
      → IsSound (add_store name packet store).0
  pub Limits : Type 0
  pub is_below_limit : ℕ → Limits → Bool × Limits
  pub metrics : OrderedIndex metric_le
  pub timers : OrderedIndex expire_le

-- `NDNL3Protocol`, and all that was sent so far.
pub record State (env : Env) : Type 0 where
  pub faces : List ℕ
  pub store : env.Store
  pub limits : env.Limits
  pub fib : Fib
  pub pit : Pit
  pub cache_unsolicited_data : Bool
  pub nacks_enabled : Bool
  pub sent : List Sent

-- A header's name; a null name raises.
abbrev pub get_name : Option Name → Outcome Name
get_name none = raised
get_name (some name) = done name

unfoldable pub send : {env : Env} → ℕ → Frame → Option SourceInfo → State env → State env
send face frame metadata st = record st {
  sent = st.sent ++ (record { face = face; frame = frame; metadata = metadata } ∷ []);
}

-- ===== src/Pit.antt =====
-- The pending interest table: daemon/pit/*. The multi-index containers are lists: the table in the
-- order of its index `i_timestamp`, `m_incoming` and `m_outgoing` in the order of the faces. A time
-- is a number of microseconds; `now` is what the clock says at the call.
pub mod Entry
pub mod Table
pub mod Expiry
pub mod Lookup
pub mod Keeps
use vndn.Base.{
  ℕ, ◌+◌, ◌%◌, ◌^◌, Bool, true, false, not, ◌&&◌, ◌||◌, Option, none, some, List, [], ◌∷◌, ◌==◌,
  ltb, leb, if◌then◌else◌, length, ℕ_discrete,
}
use vndn.Base.Keyed.{find, erase, modify}
use vndn.Base.Sorted.{OrderedIndex, insert_at, reposition}
use vndn.Base.Ascending.{insert}
use vndn.Name.{Name}
use vndn.Name.Compare.{Name-discrete}
use vndn.Name.Prefix
use vndn.Fib
use vndn.Fib.{Fib}
use mathlib.Core.Option

-- `NDNPitEntryIncomingFace`
pub record IncomingFace : Type 0 where
  pub face : ℕ
  pub arrival_time : ℕ

-- `NDNPitEntryOutgoingFace`
pub record OutgoingFace : Type 0 where
  pub face : ℕ
  pub send_time : ℕ
  pub retx_count : ℕ
  pub waiting_in_vain : Bool

abbrev pub outgoing_face : ℕ → ℕ → OutgoingFace
outgoing_face now face = record {
  face = face;
  send_time = now;
  retx_count = 0;
  waiting_in_vain = false;
}

unfoldable pub update_on_retransmit : ℕ → OutgoingFace → OutgoingFace
update_on_retransmit now out = record out {
  send_time = now;
  retx_count = (out.retx_count + 1) % 2 ^ 32;
  waiting_in_vain = false;
}

-- the addresses and ports of `RequestSourceIPInfo`
abbrev pub SourceInfo : Type 0
SourceInfo = List (ℕ × ℕ)

-- `NDNPitEntry`. The pointer to a FIB entry is the entry's prefix.
pub record PitEntry : Type 0 where
  pub prefix : Name
  pub fib_entry : Option Name
  pub seen_nonces : List ℕ
  pub incoming : List IncomingFace
  pub outgoing : List OutgoingFace
  pub expire_time : ℕ
  pub max_retx_count : ℕ
  pub source_metadata : Option SourceInfo

abbrev pub in_face : IncomingFace → ℕ
in_face i = i.face

abbrev pub out_face : OutgoingFace → ℕ
out_face o = o.face

abbrev pub prefix_of : PitEntry → Name
prefix_of e = e.prefix

-- the constructor
unfoldable pub pit_entry : ℕ → Name → ℕ → Option Name → PitEntry
pit_entry now prefix lifetime fib_entry = record {
  prefix = prefix;
  fib_entry = fib_entry;
  seen_nonces = [];
  incoming = [];
  outgoing = [];
  expire_time = now + lifetime;
  max_retx_count = 0;
  source_metadata = none;
}

abbrev pub find_incoming : ℕ → PitEntry → Option IncomingFace
find_incoming face e = find ℕ_discrete in_face face e.incoming

abbrev pub find_outgoing : ℕ → PitEntry → Option OutgoingFace
find_outgoing face e = find ℕ_discrete out_face face e.outgoing

unfoldable pub update_lifetime : ℕ → ℕ → PitEntry → PitEntry
update_lifetime now offset e =
    if ltb e.expire_time (now + offset) then record e { expire_time = now + offset } else e

unfoldable pub set_expire_time : ℕ → PitEntry → PitEntry
set_expire_time time e = record e { expire_time = time }

unfoldable pub contains : ℕ → List ℕ → Bool
contains k [] = false
contains k (x ∷ xs) = x == k || contains k xs

unfoldable pub is_nonce_seen : ℕ → PitEntry → Bool
is_nonce_seen nonce e = contains nonce e.seen_nonces

unfoldable pub add_seen_nonce : ℕ → PitEntry → PitEntry
add_seen_nonce nonce e = record e { seen_nonces = insert (λ n. n) nonce e.seen_nonces }

unfoldable pub add_incoming : ℕ → ℕ → PitEntry → PitEntry
add_incoming now face e = record e {
  incoming = insert in_face (record { face = face; arrival_time = now }) e.incoming;
}

unfoldable pub remove_incoming : ℕ → PitEntry → PitEntry
remove_incoming face e = record e { incoming = erase ℕ_discrete in_face face e.incoming }

unfoldable pub clear_incoming : PitEntry → PitEntry
clear_incoming e = record e { incoming = [] }

-- An outgoing face that is there already is updated as retransmitted.
unfoldable pub add_outgoing : ℕ → ℕ → PitEntry → PitEntry
add_outgoing now face e = elim (find_outgoing face e) [
  | none ↦ record e { outgoing = insert out_face (outgoing_face now face) e.outgoing }
  | some _ ↦ record e {
    outgoing = modify ℕ_discrete out_face face (update_on_retransmit now) e.outgoing;
  }
]

unfoldable pub clear_outgoing : PitEntry → PitEntry
clear_outgoing e = record e { outgoing = [] }

unfoldable pub remove_all_references_to_face : ℕ → PitEntry → PitEntry
remove_all_references_to_face face e = record e {
  incoming = erase ℕ_discrete in_face face e.incoming;
  outgoing = erase ℕ_discrete out_face face e.outgoing;
}

abbrev pub in_vain : OutgoingFace → OutgoingFace
in_vain out = record out { waiting_in_vain = true }

unfoldable pub set_waiting_in_vain : ℕ → PitEntry → PitEntry
set_waiting_in_vain face e = record e {
  outgoing = modify ℕ_discrete out_face face in_vain e.outgoing;
}

-- `for_each (..., var (inVain) &= ...)`, from `true`
unfoldable pub all_in_vain : List OutgoingFace → Bool
all_in_vain [] = true
all_in_vain (o ∷ os) = o.waiting_in_vain && all_in_vain os

unfoldable pub are_all_outgoing_in_vain : PitEntry → Bool
are_all_outgoing_in_vain e = all_in_vain e.outgoing

unfoldable pub others_in_vain : ℕ → List OutgoingFace → Bool
others_in_vain face [] = true
others_in_vain face (o ∷ os) = (o.face == face || o.waiting_in_vain) && others_in_vain face os

unfoldable pub are_there_promising_outgoing_faces_except : ℕ → PitEntry → Bool
are_there_promising_outgoing_faces_except face e = not (others_in_vain face e.outgoing)

unfoldable pub increase_allowed_retx_count : PitEntry → PitEntry
increase_allowed_retx_count e = record e { max_retx_count = (e.max_retx_count + 1) % 2 ^ 32 }

unfoldable pub set_source_metadata : SourceInfo → PitEntry → PitEntry
set_source_metadata info e = record e { source_metadata = some info }

-- The key of `i_timestamp`.
unfoldable pub expire_le : PitEntry → PitEntry → Bool
expire_le a b = leb a.expire_time b.expire_time

-- `NDNPit`; the table that `m_fib` points to is an argument of the operations that read it.
pub record Pit : Type 0 where
  pub entries : List PitEntry
  pub pruning_timeout : ℕ
  pub default_lifetime : ℕ

abbrev pub find_entry : Name → Pit → Option PitEntry
find_entry prefix pit = find Name-discrete prefix_of prefix pit.entries

-- `m_pit->modify` by a function that leaves the expiry time alone
unfoldable pub modify_entry : Name → (PitEntry → PitEntry) → Pit → Pit
modify_entry prefix f pit = record pit {
  entries = modify Name-discrete prefix_of prefix f pit.entries;
}

-- `Remove`
unfoldable pub remove : Name → Pit → Pit
remove prefix pit = record pit { entries = erase Name-discrete prefix_of prefix pit.entries }

-- the loop of `CleanExpired`, which takes the first entry while it is stale
unfoldable pub clean : ℕ → List PitEntry → List PitEntry
clean now [] = []
clean now (e ∷ es) = let rest = clean now es in if leb e.expire_time now then rest else e ∷ es

unfoldable pub clean_expired : ℕ → Pit → Pit
clean_expired now pit = record pit { entries = clean now pit.entries }

-- `LongestPrefixMatch`
unfoldable pub longest_prefix_match : Name → Pit → Option PitEntry
longest_prefix_match name pit = Prefix.longest_prefix_match (λ prefix. find_entry prefix pit) name

-- `Lookup (const ContentObjectHeader &)`; `none` is the exception NDNPitEntryNotFound
unfoldable pub lookup_content : Name → Pit → Option PitEntry
lookup_content name pit = find_entry name pit

-- What `Lookup (const InterestHeader &)` returns, the entry by its prefix.
pub record Found : Type 0 where
  pub entry : Name
  pub is_new : Bool
  pub is_duplicate : Bool
  pub success : Bool

module _ (index : OrderedIndex expire_le) where
  -- `m_pit->modify` by a function that may change the expiry time
  unfoldable pub reschedule : Name → (PitEntry → PitEntry) → Pit → Pit
  reschedule prefix f pit = record pit {
    entries = reposition index Name-discrete prefix_of prefix f pit.entries;
  }

  -- `insert (end (), NDNPitEntry (name, lifetime, fibEntry))`
  unfoldable pub create : ℕ → Name → ℕ → Fib → Pit → Pit
  create now name lifetime fib pit =
      let entry =
        pit_entry now name (if lifetime == 0 then pit.default_lifetime else lifetime)
          (Option.map Fib.prefix_of (Fib.longest_prefix_match fib name)) in
      record pit { entries = insert_at index (length pit.entries) entry pit.entries }

  -- `Lookup (const InterestHeader &)` of an interest's name, nonce and lifetime
  unfoldable pub lookup_interest : ℕ → Name → ℕ → ℕ → Fib → Pit → Pit × Found
  lookup_interest now name nonce lifetime fib pit = elim (longest_prefix_match name pit) [
    | none ↦ (
      modify_entry name (add_seen_nonce nonce) (create now name lifetime fib pit),
      record { entry = name; is_new = true; is_duplicate = false; success = true },
    )
    | some e ↦
        let duplicate = is_nonce_seen nonce e in
        (
          if duplicate then pit else modify_entry e.prefix (add_seen_nonce nonce) pit,
          record { entry = e.prefix; is_new = false; is_duplicate = duplicate; success = true },
        )
  ]

-- ===== src/Tests/Data.antt =====
-- Concrete names, tables and states of the forwarder.
use vndn.Base.{ℕ, ◌+◌, ◌≡◌, refl, true, false, Option, none, some, [], ◌∷◌, arith}
use vndn.Base.Int.{pos, negsuc}
use vndn.Base.Sorted.{OrderedIndex}
use vndn.Header.{InterestHeader, ContentObjectHeader}
use vndn.Fib.{Fib, FibEntry, FaceMetric, metric_le, face_metric, find_prefix, prefix_of}
use vndn.Fib.Entry.{metric_le_trans}
use vndn.Fib.Table.{IsValidFib}
use vndn.Name.{Name}
use vndn.Pit
use vndn.Pit.{Pit, PitEntry, expire_le, find_entry}
use vndn.Name.Compare.{Name-discrete}
use vndn.Base.Keyed.{find-key}
use vndn.Pit.Table.{IsValidPit}
use vndn.L3.{done, Env, State, Packet, over_ip}
use vndn.L3.Invariant.{IsValid}
use vndn.Tests.Index.{upper_bound}

pub metric_le_total : (a b : FaceMetric) → metric_le a b ≡ false → metric_le b a ≡ true
unfolding metric_le
metric_le_total a b h = ground arith

pub expire_le_total : (a b : PitEntry) → expire_le a b ≡ false → expire_le b a ≡ true
unfolding expire_le
expire_le_total a b h = ground arith

pub expire_le_trans :
    (a b c : PitEntry) → expire_le a b ≡ true → expire_le b c ≡ true → expire_le a c ≡ true
unfolding expire_le
expire_le_trans a b c h k = ground arith

abbrev pub metrics : OrderedIndex metric_le
metrics = upper_bound metric_le metric_le_total metric_le_trans

abbrev pub timers : OrderedIndex expire_le
timers = upper_bound expire_le expire_le_total expire_le_trans

-- /a, /a/b and /c
abbrev pub name_a : Name
name_a = (97 ∷ []) ∷ []

abbrev pub name_ab : Name
name_ab = (97 ∷ []) ∷ (98 ∷ []) ∷ []

abbrev pub name_c : Name
name_c = (99 ∷ []) ∷ []

abbrev pub bytes : Packet
bytes = record { raw = 1 ∷ 2 ∷ []; metadata = some (over_ip 7 8) }

-- A content store that holds one packet, for every name, and faces with no limit.
abbrev pub one_packet : Option Packet → Env
one_packet held = record {
  Store = ℕ;
  lookup_store = λ name store. done (store, held);
  add_store = λ name packet store. (store + 1, true);
  IsSound = λ store. Unit {0};
  lookup_store-LooksUp = λ name store h. tt;
  add_store-IsSound = λ name packet store h. tt;
  Limits = ℕ;
  is_below_limit = λ face limits. (true, limits + 1);
  metrics = metrics;
  timers = timers;
}

abbrev pub entry_a : FibEntry
entry_a = record {
  prefix = name_a;
  faces = face_metric 2 (pos 0) ∷ [];
  nth = 2 ∷ [];
  needs_probing = false;
}

abbrev pub entry_c : FibEntry
entry_c = record {
  prefix = name_c;
  faces = face_metric 2 (pos 0) ∷ face_metric 3 (pos 5) ∷ [];
  nth = 2 ∷ 3 ∷ [];
  needs_probing = false;
}

abbrev pub table : Fib
table = entry_a ∷ entry_c ∷ []

-- An interest for /a/b that came from face 1 and was sent to face 2.
abbrev pub pending : PitEntry
pending = record {
  prefix = name_ab;
  fib_entry = some name_a;
  seen_nonces = 5 ∷ [];
  incoming = record { face = 1; arrival_time = 10 } ∷ [];
  outgoing = record { face = 2; send_time = 11; retx_count = 0; waiting_in_vain = false } ∷ [];
  expire_time = 100;
  max_retx_count = 0;
  source_metadata = none;
}

abbrev pub pit : Pit
pit = record { entries = pending ∷ []; pruning_timeout = 0; default_lifetime = 0 }

abbrev pub waiting : (held : Option Packet) → State (one_packet held)
waiting held = record {
  faces = 1 ∷ 2 ∷ 3 ∷ [];
  store = 0;
  limits = 0;
  fib = table;
  pit = pit;
  cache_unsolicited_data = false;
  nacks_enabled = true;
  sent = [];
}

abbrev pub asking : Name → ℕ → InterestHeader
asking name nonce = record {
  name = some name;
  min_suffix_components = negsuc 0;
  max_suffix_components = negsuc 0;
  exclude = none;
  child_selector = false;
  answer_origin_kind = false;
  scope = negsuc 0;
  interest_lifetime = 50;
  nonce = nonce;
  nack_type = 0;
}

abbrev pub answering : Name → ContentObjectHeader
answering name = record { name = some name }

pub name_c-ne : ¬ (name_c ≡ name_a)
name_c-ne e = ground arith

pub table-IsValid : IsValidFib table
unfolding metric_le
table-IsValid = record {
  unique = ((name_c-ne, tt), (tt, tt));
  entries = (
    record { sorted = (tt, tt); distinct = (tt, tt); ranked = refl },
    (
      record {
        sorted = ((refl, tt), (tt, tt));
        distinct = (((λ e. ground arith), tt), (tt, tt));
        ranked = refl;
      },
      tt,
    ),
  );
}

pub pit-IsValid : IsValidPit pit
pit-IsValid = record {
  sorted = (tt, tt);
  unique = (tt, tt);
  entries = (record { nonces = (tt, tt); incoming = (tt, tt); outgoing = (tt, tt) }, tt);
}

pub find_prefix-table :
    (find_prefix table name_a ≡ some entry_a) × (find_prefix table name_c ≡ some entry_c)
unfolding find_prefix
find_prefix-table =
    let (a, (c, _)) = find-key Name-discrete prefix_of table table-IsValid.unique in (a, c)

pub waiting-IsValid : (held : Option Packet) → IsValid (waiting held)
waiting-IsValid held = record {
  fib = table-IsValid;
  pit = pit-IsValid;
  pointers = ((entry_a, find_prefix-table.0), tt);
  store = tt;
}

pub find_entry-pit : find_entry name_ab pit ≡ some pending
find_entry-pit = (find-key Name-discrete Pit.prefix_of pit.entries pit-IsValid.unique).0

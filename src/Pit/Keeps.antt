-- ===== src/Pit/Keeps.antt =====
-- The operations on a PIT entry that leave its prefix, its expiry and its pointer alone.
use vndn.Base.{ℕ, ◌≡◌, refl, arith}
use vndn.Pit.{
  PitEntry, SourceInfo, add_outgoing, add_incoming, remove_incoming, clear_incoming, clear_outgoing,
  set_waiting_in_vain, set_source_metadata, update_lifetime, set_expire_time,
}
use vndn.Pit.Entry.{
  IsValidEntry, add_outgoing-IsValid, add_incoming-IsValid, remove_incoming-IsValid,
  set_waiting_in_vain-IsValid,
}
use vndn.Pit.Table.{KeepsKeys}

pub add_incoming-KeepsKeys : (now face : ℕ) → KeepsKeys (add_incoming now face)
unfolding add_incoming
add_incoming-KeepsKeys now face = record {
  prefix = λ e. refl;
  expire = λ e. refl;
  pointer = λ e. refl;
  valid = λ e v. add_incoming-IsValid e v now face;
}

pub remove_incoming-KeepsKeys : (face : ℕ) → KeepsKeys (remove_incoming face)
unfolding remove_incoming
remove_incoming-KeepsKeys face = record {
  prefix = λ e. refl;
  expire = λ e. refl;
  pointer = λ e. refl;
  valid = λ e v. remove_incoming-IsValid e v face;
}

pub set_waiting_in_vain-KeepsKeys : (face : ℕ) → KeepsKeys (set_waiting_in_vain face)
unfolding set_waiting_in_vain
set_waiting_in_vain-KeepsKeys face = record {
  prefix = λ e. refl;
  expire = λ e. refl;
  pointer = λ e. refl;
  valid = λ e v. set_waiting_in_vain-IsValid e v face;
}

pub clear_incoming-KeepsKeys : KeepsKeys clear_incoming
unfolding clear_incoming
clear_incoming-KeepsKeys = record {
  prefix = λ e. refl;
  expire = λ e. refl;
  pointer = λ e. refl;
  valid = λ e v. record { nonces = v.nonces; incoming = tt; outgoing = v.outgoing };
}

pub clear_outgoing-KeepsKeys : KeepsKeys clear_outgoing
unfolding clear_outgoing
clear_outgoing-KeepsKeys = record {
  prefix = λ e. refl;
  expire = λ e. refl;
  pointer = λ e. refl;
  valid = λ e v. record { nonces = v.nonces; incoming = v.incoming; outgoing = tt };
}

pub set_source_metadata-KeepsKeys : (info : SourceInfo) → KeepsKeys (set_source_metadata info)
unfolding set_source_metadata
set_source_metadata-KeepsKeys info = record {
  prefix = λ e. refl;
  expire = λ e. refl;
  pointer = λ e. refl;
  valid = λ e v. record { nonces = v.nonces; incoming = v.incoming; outgoing = v.outgoing };
}

pub add_outgoing-KeepsKeys : (now face : ℕ) → KeepsKeys (add_outgoing now face)
unfolding add_outgoing
add_outgoing-KeepsKeys now face = record {
  prefix = λ e. ground arith;
  expire = λ e. ground arith;
  pointer = λ e. ground arith;
  valid = λ e v. add_outgoing-IsValid e v now face;
}

pub prefix-update_lifetime :
    (now offset : ℕ) (e : PitEntry)
    → ((update_lifetime now offset e).prefix ≡ e.prefix)
      × ((update_lifetime now offset e).fib_entry ≡ e.fib_entry)
unfolding update_lifetime
prefix-update_lifetime now offset e = (ground arith, ground arith)

pub prefix-set_expire_time :
    (time : ℕ) (e : PitEntry)
    → ((set_expire_time time e).prefix ≡ e.prefix)
      × ((set_expire_time time e).fib_entry ≡ e.fib_entry)
unfolding set_expire_time
prefix-set_expire_time time e = (refl, refl)

pub set_expire_time-IsValid :
    (time : ℕ) (e : PitEntry) → IsValidEntry e → IsValidEntry (set_expire_time time e)
unfolding set_expire_time
set_expire_time-IsValid time e v = record {
  nonces = v.nonces;
  incoming = v.incoming;
  outgoing = v.outgoing;
}

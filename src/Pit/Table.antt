-- ===== src/Pit/Table.antt =====
-- NDNPit: the table keeps its invariant; an interest's nonce is remembered, and a repeated one told.
use vndn.Base.{ℕ, ◌≡◌, refl, ap, none, some, ◌==◌, if◌then◌else◌, All, arith, length, ite, leb}
use vndn.Base.Keyed.{
  Distinct, find-modify_self, find-modify_ne, All-modify, Distinct-modify, find-eq-none,
  Distinct-erase, All-erase,
}
use vndn.Base.Sorted.{
  OrderedIndex, IsSorted, insert_at-IsSorted, All-insert_at, IsSorted-erase, IsSorted-modify,
  find-insert_at_self, find-insert_at_ne, Distinct-insert_at,
}
use vndn.Base.Reposition.{
  reposition-IsSorted, Distinct-reposition, All-reposition, find-reposition_self,
  find-reposition_ne,
}
use vndn.Name.{Name}
use vndn.Name.Compare.{Name-discrete}
use vndn.Fib
use vndn.Fib.{Fib}
use vndn.Pit.{
  Pit, PitEntry, prefix_of, expire_le, find_entry, modify_entry, remove, reschedule, create,
  add_seen_nonce, pit_entry,
}
use vndn.Pit.Entry.{IsValidEntry, pit_entry-IsValid, add_seen_nonce-IsValid}
use mathlib.Core.Option

-- Entries are in the order of expiry, a prefix stands once, and each entry is valid.
pub record IsValidPit (pit : Pit) : Type 0 where
  pub sorted : IsSorted expire_le pit.entries
  pub unique : Distinct prefix_of pit.entries
  pub entries : All IsValidEntry pit.entries

pub remove-IsValid : (prefix : Name) (pit : Pit) → IsValidPit pit → IsValidPit (remove prefix pit)
unfolding remove
remove-IsValid prefix pit v = record {
  sorted = IsSorted-erase Name-discrete prefix_of expire_le prefix pit.entries v.sorted;
  unique = Distinct-erase Name-discrete prefix_of prefix pit.entries v.unique;
  entries = All-erase Name-discrete prefix_of IsValidEntry prefix pit.entries v.entries;
}

-- A function on entries that leaves the keys of both indices and the pointer alone.
pub record KeepsKeys (f : PitEntry → PitEntry) : Type 0 where
  pub prefix : (e : PitEntry) → (f e).prefix ≡ e.prefix
  pub expire : (e : PitEntry) → (f e).expire_time ≡ e.expire_time
  pub pointer : (e : PitEntry) → (f e).fib_entry ≡ e.fib_entry
  pub valid : (e : PitEntry) → IsValidEntry e → IsValidEntry (f e)

module _ (prefix : Name) (f : PitEntry → PitEntry) (k : KeepsKeys f) (pit : Pit) where
  pub modify_entry-IsValid : IsValidPit pit → IsValidPit (modify_entry prefix f pit)
  unfolding modify_entry expire_le
  modify_entry-IsValid v = record {
    sorted =
        IsSorted-modify Name-discrete prefix_of expire_le prefix f
          (λ a b. ap (λ t. leb t b.expire_time) (k.expire a))
          (λ a b. ap (leb a.expire_time) (k.expire b)) k.prefix pit.entries v.sorted;
    unique = Distinct-modify Name-discrete prefix_of prefix f k.prefix pit.entries v.unique;
    entries =
        All-modify Name-discrete prefix_of prefix f k.prefix IsValidEntry pit.entries
          (λ e _. k.valid e) v.entries;
  }

  pub find_entry-modify_entry :
      (q : Name)
      → find_entry q (modify_entry prefix f pit)
        ≡ ite (Name-discrete q prefix) (Option.map f (find_entry prefix pit)) (find_entry q pit)
  unfolding modify_entry
  find_entry-modify_entry q = ground (
    arith,
    find-modify_self Name-discrete prefix_of prefix f k.prefix pit.entries,
    find-modify_ne Name-discrete prefix_of prefix f k.prefix q pit.entries,
  )

pub add_seen_nonce-KeepsKeys : (nonce : ℕ) → KeepsKeys (add_seen_nonce nonce)
unfolding add_seen_nonce
add_seen_nonce-KeepsKeys nonce = record {
  prefix = λ e. refl;
  expire = λ e. refl;
  pointer = λ e. refl;
  valid = λ e v. unfold add_seen_nonce in add_seen_nonce-IsValid e v nonce;
}

module _ (index : OrderedIndex expire_le) where
  pub reschedule-IsValid :
      (prefix : Name) (f : PitEntry → PitEntry) (pit : Pit)
      → ((e : PitEntry) → (f e).prefix ≡ e.prefix)
      → ((e : PitEntry) → IsValidEntry e → IsValidEntry (f e))
      → IsValidPit pit
      → IsValidPit (reschedule index prefix f pit)
  unfolding reschedule
  reschedule-IsValid prefix f pit same keep v = record {
    sorted = reposition-IsSorted index Name-discrete prefix_of prefix f same pit.entries v.sorted;
    unique = Distinct-reposition index Name-discrete prefix_of prefix f same pit.entries v.unique;
    entries =
        All-reposition index Name-discrete prefix_of prefix f same IsValidEntry pit.entries keep
          v.entries;
  }

  pub find_entry-reschedule :
      (prefix q : Name) (f : PitEntry → PitEntry) (pit : Pit)
      → ((e : PitEntry) → (f e).prefix ≡ e.prefix)
      → IsValidPit pit
      → find_entry q (reschedule index prefix f pit)
        ≡ ite (Name-discrete q prefix) (Option.map f (find_entry prefix pit)) (find_entry q pit)
  unfolding reschedule
  find_entry-reschedule prefix q f pit same v = ground (
    arith,
    find-reposition_self index Name-discrete prefix_of prefix f same pit.entries v.unique,
    find-reposition_ne index Name-discrete prefix_of prefix f same q pit.entries,
  )

  module _ (now : ℕ) (name : Name) (lifetime : ℕ) (fib : Fib) (pit : Pit)
      (missing : find_entry name pit ≡ none) where
    pub new_entry : PitEntry
    new_entry =
        pit_entry now name (if lifetime == 0 then pit.default_lifetime else lifetime)
          (Option.map Fib.prefix_of (Fib.longest_prefix_match fib name))

    pub prefix-new_entry : new_entry.prefix ≡ name
    unfolding new_entry pit_entry
    prefix-new_entry = refl

    pub create-IsValid : IsValidPit pit → IsValidPit (create index now name lifetime fib pit)
    unfolding create pit_entry
    create-IsValid v = record {
      sorted = insert_at-IsSorted index _ _ pit.entries v.sorted;
      unique =
          Distinct-insert_at Name-discrete prefix_of index _ _ pit.entries
            (find-eq-none Name-discrete prefix_of name pit.entries missing) v.unique;
      entries =
          All-insert_at index IsValidEntry _ _ pit.entries (pit_entry-IsValid now name _ _)
            v.entries;
    }

    pub find_entry-create :
        (q : Name)
        → find_entry q (create index now name lifetime fib pit)
          ≡ ite (Name-discrete q name) (some new_entry) (find_entry q pit)
    unfolding create pit_entry new_entry
    find_entry-create q = ground (
      arith,
      find-insert_at_self Name-discrete prefix_of index (length pit.entries) new_entry pit.entries
          (find-eq-none Name-discrete prefix_of name pit.entries missing),
      find-insert_at_ne Name-discrete prefix_of index q (length pit.entries) new_entry pit.entries,
    )

-- ===== src/L3/Invariant.antt =====
-- The invariant of the forwarder: valid tables, and no PIT entry that points to an erased FIB
-- entry. The tables' operations keep it.
use vndn.Base.{◌≡◌, refl, sym, ◌∙◌, Option, none, some, List, All, All-map_pred, arith, ite, subst}
use vndn.Base.Keyed.{All-erase, All-modify, All-find, key-find}
use vndn.Base.Reposition.{All-reposition}
pub use vndn.Base.Outcome.{Ends, Ends-bind, Ends-done, Ends-map, Ends-both, Ends-if, Ends-option}
use vndn.Fib
use vndn.Fib.{Fib, FibEntry, find_prefix}
use vndn.Fib.Table.{IsValidFib}
use vndn.Name.{Name}
use vndn.Name.Compare.{Name-discrete}
use vndn.Pit
use vndn.Pit.{Pit, PitEntry, find_entry, modify_entry, reschedule, remove}
use vndn.Pit.Entry.{IsValidEntry}
use vndn.Pit.Table as PitTable
use vndn.Pit.Table.{
  IsValidPit, KeepsKeys, modify_entry-IsValid, find_entry-modify_entry, find_entry-reschedule,
}
use vndn.L3.{Env, State, Outcome, ◌>>=◌, deref, get_name}
use vndn.L3.Strategy.{follow}

-- A pointer of a PIT entry is null or points to an entry of the FIB.
abbrev pub PointsInto : Fib → Option Name → Type 0
PointsInto fib none = Unit {0}
PointsInto fib (some prefix) = (entry : FibEntry) × (find_prefix fib prefix ≡ some entry)

abbrev pub NoDangling : Fib → List PitEntry → Type 0
NoDangling fib = All (λ e. PointsInto fib e.fib_entry)

module _ {env : Env} where
  pub record IsValid (st : State env) : Type 0 where
    pub fib : IsValidFib st.fib
    pub pit : IsValidPit st.pit
    pub pointers : NoDangling st.fib st.pit.entries
    pub store : env.IsSound st.store

  -- The invariant, and the PIT entry of the prefix is there.
  pub record Ready (prefix : Name) (st : State env) : Type 0 where
    pub valid : IsValid st
    pub entry : PitEntry
    pub found : find_entry prefix st.pit ≡ some entry

pub Ends-named :
    {A : Type 0} (P : A → Type 0) (name : Name) (o : Option Name) (f : Name → Outcome A)
    → o ≡ some name
    → Ends P (f name)
    → Ends P (get_name o >>= f)
Ends-named P name o f e h = subst (λ o'. Ends P (get_name o' >>= f)) (sym e) h

find_prefix-own :
    (fib : Fib) (prefix : Name) (entry : FibEntry)
    → find_prefix fib prefix ≡ some entry
    → find_prefix fib entry.prefix ≡ some entry
unfolding find_prefix
find_prefix-own fib prefix entry found =
    subst (λ q. find_prefix fib q ≡ some entry)
      (sym (key-find Name-discrete Fib.prefix_of prefix fib entry found)) found

-- Following a pointer of the invariant is defined, and finds an entry of the FIB.
abbrev pub IsTarget : Fib → Option FibEntry → Type 0
IsTarget fib none = Unit {0}
IsTarget fib (some entry) = find_prefix fib entry.prefix ≡ some entry

pub follow-Ends :
    (fib : Fib) (e : PitEntry) → PointsInto fib e.fib_entry → Ends (IsTarget fib) (follow fib e)
unfolding follow
follow-Ends fib e h = go e.fib_entry refl h
  where
    go :
        (ptr : Option Name)
        → e.fib_entry ≡ ptr
        → PointsInto fib ptr
        → Ends (IsTarget fib) (follow fib e)
    go none eq p = rw (eq, follow) tt
    go (some prefix) eq (entry, found) =
        rw (eq, follow) (rw (found, follow) (find_prefix-own fib prefix entry found))

module _ {env : Env} {st : State env} where
  pub deref-Ends :
      {prefix : Name} (r : Ready prefix st)
      → Ends (λ e. find_entry prefix st.pit ≡ some e) (deref (find_entry prefix st.pit))
  deref-Ends r = rw r.found refl

  pub pointer-of_entry :
      (prefix : Name) (v : IsValid st) (e : PitEntry)
      → find_entry prefix st.pit ≡ some e
      → PointsInto st.fib e.fib_entry
  pointer-of_entry prefix v e found =
      All-find Name-discrete Pit.prefix_of (λ x. PointsInto st.fib x.fib_entry) prefix
        st.pit.entries e v.pointers found

  module _ (prefix : Name) (f : PitEntry → PitEntry) (k : KeepsKeys f) where
    pub modify-IsValid : IsValid st → IsValid (record st { pit = modify_entry prefix f st.pit })
    unfolding modify_entry
    modify-IsValid v = record {
      fib = v.fib;
      pit = modify_entry-IsValid prefix f k st.pit v.pit;
      store = v.store;
      pointers =
          All-modify Name-discrete Pit.prefix_of prefix f k.prefix
            (λ e. PointsInto st.fib e.fib_entry) st.pit.entries
            (λ e _ h. subst (PointsInto st.fib) (sym (k.pointer e)) h) v.pointers;
    }

    pub modify-Ready :
        (q : Name) → Ready q st → Ready q (record st { pit = modify_entry prefix f st.pit })
    modify-Ready q r = record {
      valid = modify-IsValid r.valid;
      entry = ite (Name-discrete q prefix) (f r.entry) r.entry;
      found = find_entry-modify_entry prefix f k st.pit q ∙ ground (arith, r.found);
    }

  pub remove-IsValid :
      (prefix : Name) → IsValid st → IsValid (record st { pit = remove prefix st.pit })
  unfolding remove
  remove-IsValid prefix v = record {
    fib = v.fib;
    pit = PitTable.remove-IsValid prefix st.pit v.pit;
    store = v.store;
    pointers =
        All-erase Name-discrete Pit.prefix_of (λ e. PointsInto st.fib e.fib_entry) prefix
          st.pit.entries v.pointers;
  }

  module _ (prefix : Name) (f : PitEntry → PitEntry)
      (same : (e : PitEntry) → (f e).prefix ≡ e.prefix)
      (pointer : (e : PitEntry) → (f e).fib_entry ≡ e.fib_entry)
      (keep : (e : PitEntry) → IsValidEntry e → IsValidEntry (f e)) where
    pub reschedule-IsValid :
        IsValid st → IsValid (record st { pit = reschedule env.timers prefix f st.pit })
    unfolding reschedule
    reschedule-IsValid v = record {
      fib = v.fib;
      pit = PitTable.reschedule-IsValid env.timers prefix f st.pit same keep v.pit;
      store = v.store;
      pointers =
          All-reposition env.timers Name-discrete Pit.prefix_of prefix f same
            (λ e. PointsInto st.fib e.fib_entry) st.pit.entries
            (λ e h. subst (PointsInto st.fib) (sym (pointer e)) h) v.pointers;
    }

    pub reschedule-Ready :
        Ready prefix st → Ready prefix (record st { pit = reschedule env.timers prefix f st.pit })
    reschedule-Ready r = record {
      valid = reschedule-IsValid r.valid;
      entry = f r.entry;
      found =
          find_entry-reschedule env.timers prefix prefix f st.pit same r.valid.pit
          ∙ ground (arith, r.found);
    }

  -- A FIB that keeps every prefix keeps every pointer.
  pub fib-IsValid :
      (fib : Fib)
      → IsValidFib fib
      → ((prefix : Name) (e : FibEntry)
          → find_prefix st.fib prefix ≡ some e
          → (e' : FibEntry) × (find_prefix fib prefix ≡ some e'))
      → IsValid st
      → IsValid (record st { fib = fib })
  fib-IsValid fib w keep v = record {
    fib = w;
    pit = v.pit;
    store = v.store;
    pointers =
        All-map_pred (λ e. PointsInto st.fib e.fib_entry) (λ e. PointsInto fib e.fib_entry)
          st.pit.entries (λ e. kept e.fib_entry) v.pointers;
  }
    where
      kept : (ptr : Option Name) → PointsInto st.fib ptr → PointsInto fib ptr
      kept none h = tt
      kept (some prefix) (e, found) = keep prefix e found

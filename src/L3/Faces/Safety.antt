-- ===== src/L3/Faces/Safety.antt =====
-- Removing and adding faces, the reaper and the registration of prefixes keep the invariant.
use vndn.Base.{
  ℕ, ◌≡◌, ◌≢◌, ◌∙◌, ap, true, Option, none, some, List, [], ◌∷◌, map, All, All-map_pred, arith, ite,
}
use vndn.Base.Int.{pos}
use vndn.Base.Keyed.{erase, Distinct, All-erase, Distinct-erase}
use vndn.Base.Sorted.{IsSorted, IsSorted-erase}
use vndn.Fib
use vndn.Fib.{Fib, FibEntry, find_prefix, remove_from_all, remove_walk}
use vndn.Fib.Table.{IsLast, remove_from_all_kept, add-IsValid, find_prefix-add}
use vndn.Name.{Name}
use vndn.Name.Compare.{Name-discrete}
use vndn.Pit
use vndn.Pit.{Pit, PitEntry, expire_le, remove_all_references_to_face, clean_expired}
use vndn.Pit.Entry.{IsValidEntry, remove_all_references-IsValid}
use vndn.Pit.Expiry
use vndn.L3.{Env, State}
use vndn.L3.Faces.{entries_to_remove, remove_entries, trim, remove_face, reap, register}
use vndn.L3.Invariant.{
  PointsInto, NoDangling, IsValid, Ends, Ends-bind, IsTarget, follow-Ends, fib-IsValid,
}
use vndn.L3.Protocol.{add_face}
use mathlib.Core.Option

-- What the invariant says of the entries of the PIT.
record IsValidTable (fib : Fib) (es : List PitEntry) : Type 0 where
  sorted : IsSorted expire_le es
  unique : Distinct Pit.prefix_of es
  entries : All IsValidEntry es
  pointers : NoDangling fib es

erase-IsValidTable :
    (fib : Fib) (prefix : Name) (es : List PitEntry)
    → IsValidTable fib es
    → IsValidTable fib (erase Name-discrete Pit.prefix_of prefix es)
erase-IsValidTable fib prefix es v = record {
  sorted = IsSorted-erase Name-discrete Pit.prefix_of expire_le prefix es v.sorted;
  unique = Distinct-erase Name-discrete Pit.prefix_of prefix es v.unique;
  entries = All-erase Name-discrete Pit.prefix_of IsValidEntry prefix es v.entries;
  pointers =
      All-erase Name-discrete Pit.prefix_of (λ e. PointsInto fib e.fib_entry) prefix es v.pointers;
}

remove_entries-IsValidTable :
    (fib : Fib) (prefixes : List Name) (es : List PitEntry)
    → IsValidTable fib es
    → IsValidTable fib (remove_entries prefixes es)
unfolding remove_entries
remove_entries-IsValidTable fib [] es v = v
remove_entries-IsValidTable fib (p ∷ ps) es v =
    remove_entries-IsValidTable fib ps _ (erase-IsValidTable fib p es v)

module _ (face : ℕ) where
  abbrev forget : PitEntry → PitEntry
  forget = remove_all_references_to_face face

  All-forget :
      (P : PitEntry → Type 0) (es : List PitEntry)
      → ((e : PitEntry) → P e → P (forget e))
      → All P es
      → All P (map forget es)
  All-forget P [] f h = tt
  All-forget P (e ∷ es) f (p, h) = (f e p, All-forget P es f h)

  IsSorted-forget :
      (es : List PitEntry) → IsSorted expire_le es → IsSorted expire_le (map forget es)
  unfolding remove_all_references_to_face expire_le
  IsSorted-forget [] s = tt
  IsSorted-forget (e ∷ es) (p, s) =
      (All-forget (λ y. expire_le e y ≡ true) es (λ y h. h) p, IsSorted-forget es s)

  Distinct-forget :
      (es : List PitEntry) → Distinct Pit.prefix_of es → Distinct Pit.prefix_of (map forget es)
  unfolding remove_all_references_to_face
  Distinct-forget [] d = tt
  Distinct-forget (e ∷ es) (p, d) =
      (All-forget (λ y. y.prefix ≢ e.prefix) es (λ y h. h) p, Distinct-forget es d)

  forget-IsValidTable :
      (fib : Fib) (es : List PitEntry) → IsValidTable fib es → IsValidTable fib (map forget es)
  unfolding remove_all_references_to_face
  forget-IsValidTable fib es v = record {
    sorted = IsSorted-forget es v.sorted;
    unique = Distinct-forget es v.unique;
    entries = All-forget IsValidEntry es (λ e w. remove_all_references-IsValid e w face) v.entries;
    pointers = All-forget (λ e. PointsInto fib e.fib_entry) es (λ e h. h) v.pointers;
  }

  entries_to_remove-Ends :
      (fib : Fib) (es : List PitEntry)
      → NoDangling fib es
      → Ends (λ _. Unit {0}) (entries_to_remove face fib es)
  unfolding entries_to_remove
  entries_to_remove-Ends fib [] h = tt
  entries_to_remove-Ends fib (e ∷ es) (p, h) =
      let later = entries_to_remove-Ends fib es h in
      Ends-bind (IsTarget fib) (λ _. Unit {0}) _ _ (follow-Ends fib e p)
        λ target _. Ends-bind (λ _. Unit {0}) (λ _. Unit {0}) _ _ later λ rest _. tt

  -- `TrimPitEntriesAssociatedWithFace` ends and keeps the invariant of the entries.
  trim-Ends :
      (fib : Fib) (es : List PitEntry)
      → IsValidTable fib es
      → Ends (IsValidTable fib) (trim face fib es)
  unfolding trim
  trim-Ends fib es v =
      Ends-bind (λ _. Unit {0}) (IsValidTable fib) _ _ (entries_to_remove-Ends fib es v.pointers)
        λ ps _. remove_entries-IsValidTable fib ps _ (forget-IsValidTable fib es v)

  -- A walk that ends was on entries that keep a face.
  kept-of_walk :
      (rest : List FibEntry) (fib fib' : Fib)
      → remove_walk face rest fib ≡ some fib'
      → All (λ e. ¬ (IsLast face e)) rest
  unfolding remove_walk
  kept-of_walk [] fib fib' h = tt
  kept-of_walk (e ∷ rest) fib fib' h =
      (ground arith, kept-of_walk rest (Fib.remove e.prefix face fib) fib' (ground arith))

module _ {env : Env} (st : State env) (v : IsValid st) where
  -- `RemoveFace` ends and keeps the invariant where every FIB entry has another face.
  pub remove_face-Ends :
      (face : ℕ) → All (λ e. ¬ (IsLast face e)) st.fib → Ends IsValid (remove_face env face st)
  unfolding remove_face
  remove_face-Ends face n =
      let (fib', removed, w, finds) = remove_from_all_kept face st.fib v.fib n in
      Ends-bind (IsValidTable st.fib) IsValid _ _ (trim-Ends face st.fib st.pit.entries table)
        λ entries t. rw removed (record {
          fib = w;
          pit = record { sorted = t.sorted; unique = t.unique; entries = t.entries };
          store = v.store;
          pointers =
              All-map_pred (λ e. PointsInto st.fib e.fib_entry) (λ e. PointsInto fib' e.fib_entry)
                entries (λ e. kept fib' finds e.fib_entry) t.pointers;
        })
    where
      table : IsValidTable st.fib st.pit.entries
      table = record {
        sorted = v.pit.sorted;
        unique = v.pit.unique;
        entries = v.pit.entries;
        pointers = v.pointers;
      }

      kept :
          (fib' : Fib)
          → ((q : Name)
              → find_prefix fib' q ≡ Option.map (Fib.remove_face face) (find_prefix st.fib q))
          → (ptr : Option Name) → PointsInto st.fib ptr
          → PointsInto fib' ptr
      kept fib' finds none h = tt
      kept fib' finds (some q) (e, found) =
          (Fib.remove_face face e, finds q ∙ ap (Option.map (Fib.remove_face face)) found)

  -- `prefixRegistration` keeps the invariant.
  pub register-IsValid : (prefix : Name) (face : ℕ) → IsValid (register env prefix face st)
  unfolding register
  register-IsValid prefix face =
      fib-IsValid (Fib.add env.metrics prefix face (pos 0) st.fib)
        (add-IsValid env.metrics prefix face (pos 0) st.fib v.fib)
        (λ q e found. (
          ite (Name-discrete q prefix)
              (Fib.add_or_update_routing_metric env.metrics face (pos 0)
                (Option.get_or (find_prefix st.fib prefix) (Fib.fib_entry prefix)))
              e,
          find_prefix-add env.metrics prefix q face (pos 0) st.fib ∙ ground (arith, found),
        ))
        v

  -- The reaper keeps the invariant.
  pub reap-IsValid : (now : ℕ) → IsValid (reap env now st)
  unfolding reap clean_expired
  reap-IsValid now = record {
    fib = v.fib;
    pit = Expiry.clean_expired-IsValid now st.pit v.pit;
    store = v.store;
    pointers = Expiry.All-clean now (λ e. PointsInto st.fib e.fib_entry) st.pit.entries v.pointers;
  }

  pub add_face-IsValid : (face : ℕ) → IsValid (add_face env face st)
  unfolding add_face
  add_face-IsValid face = record {
    fib = v.fib;
    pit = v.pit;
    pointers = v.pointers;
    store = v.store;
  }

-- ===== src/L3/Faces.antt =====
-- NDNL3Protocol: a face that goes, the timer, and the management of prefixes
-- (daemon/ndn-management.cc).
pub mod Safety
pub mod Dangling
use vndn.Base.{
  ℕ, Bool, true, false, Option, none, some, List, [], ◌∷◌, map, ◌==◌, if◌then◌else◌, length, ◌++◌,
  ite, ℕ_discrete,
}
use vndn.Base.Int.{pos}
use vndn.Base.Keyed.{find, erase}
use vndn.Fib
use vndn.Fib.{Fib, FibEntry, FaceMetric, remove_from_all, remove_prefix}
use vndn.Name.{Name}
use vndn.Name.Compare.{Name-discrete}
use vndn.Pit
use vndn.Pit.{Pit, PitEntry, remove_all_references_to_face, clean_expired}
use vndn.L3.{Env, State, Outcome, done, raised, undefined, ◌>>=◌, deref}
use vndn.L3.Strategy.{follow}

-- The entry's only face is this one.
unfoldable pub is_only_face : ℕ → List FaceMetric → Bool
is_only_face face [] = false
is_only_face face (m ∷ []) = m.face == face
is_only_face face (m ∷ n ∷ ms) = false

abbrev pub only_face_of : ℕ → Option FibEntry → Bool
only_face_of face none = false
only_face_of face (some entry) = is_only_face face entry.faces

-- the first loop of `TrimPitEntriesAssociatedWithFace`: the entries to be removed
unfoldable pub entries_to_remove : ℕ → Fib → List PitEntry → Outcome (List Name)
entries_to_remove face fib [] = done []
entries_to_remove face fib (e ∷ es) = do
  target ← follow fib e
  rest ← entries_to_remove face fib es
  done (if only_face_of face target then e.prefix ∷ rest else rest)

-- its second loop
unfoldable pub remove_entries : List Name → List PitEntry → List PitEntry
remove_entries [] es = es
remove_entries (prefix ∷ prefixes) es =
    remove_entries prefixes (erase Name-discrete Pit.prefix_of prefix es)

-- `TrimPitEntriesAssociatedWithFace`
unfoldable pub trim : ℕ → Fib → List PitEntry → Outcome (List PitEntry)
trim face fib es = do
  prefixes ← entries_to_remove face fib es
  done (remove_entries prefixes (map (remove_all_references_to_face face) es))

module _ (env : Env) where
  -- `RemoveFace`
  unfoldable pub remove_face : ℕ → State env → Outcome (State env)
  remove_face face st = do
    entries ← trim face st.fib st.pit.entries
    fib ← deref (remove_from_all face st.fib)
    done (record st {
      pit = record (st.pit) { entries = entries };
      fib = fib;
      faces = erase ℕ_discrete (λ f. f) face st.faces;
    })

  -- `GetFace`: the first face with this descriptor
  unfoldable pub get_face : ℕ → State env → Option ℕ
  get_face fd st = find ℕ_discrete (λ f. f) fd st.faces

  -- `Reap`; the timer that it sets again is the next event
  unfoldable pub reap : ℕ → State env → State env
  reap now st = record st { pit = clean_expired now st.pit }

  -- what `prefixRegistration` does for a face that exists
  unfoldable pub register : Name → ℕ → State env → State env
  register prefix face st = record st { fib = Fib.add env.metrics prefix face (pos 0) st.fib }

  unfoldable pub unregister : Name → ℕ → State env → State env
  unregister prefix face st = record st { fib = (remove_prefix prefix face st.fib).0 }

-- ===== src/Pit/Expiry.antt =====
-- `NDNPit::CleanExpired`: it stops at the first entry that is not stale, and misses none.
use vndn.Base.{
  ℕ, ◌≡◌, refl, true, false, Option, none, some, List, [], ◌∷◌, leb, if◌then◌else◌, All, arith,
  Bool-cases, inl, inr,
}
use vndn.Base.Keyed.{find, Distinct, find-NoKey}
use vndn.Base.Sorted.{IsSorted, Above}
use vndn.Name.{Name}
use vndn.Name.Compare.{Name-discrete}
use vndn.Pit.{Pit, PitEntry, prefix_of, expire_le, find_entry, clean, clean_expired}
use vndn.Pit.Entry.{IsValidEntry}
use vndn.Pit.Table.{IsValidPit}

module _ (now : ℕ) where
  -- The entries that are not stale.
  live : List PitEntry → List PitEntry
  live [] = []
  live (e ∷ es) = if leb e.expire_time now then live es else e ∷ live es

  -- What is left of an entry.
  abbrev pub unless_stale : Option PitEntry → Option PitEntry
  unless_stale none = none
  unless_stale (some e) = if leb e.expire_time now then none else some e

  live-Above :
      (e : PitEntry) (es : List PitEntry)
      → leb e.expire_time now ≡ false
      → Above expire_le e es
      → live es ≡ es
  unfolding live expire_le
  live-Above e [] n h = refl
  live-Above e (x ∷ es) n (p, h) = ground (arith, live-Above e es n h)

  clean-live : (es : List PitEntry) → IsSorted expire_le es → clean now es ≡ live es
  unfolding clean live
  clean-live [] s = refl
  clean-live (e ∷ es) (p, s) =
      ground (arith, clean-live es s, λ (n : leb e.expire_time now ≡ false). live-Above e es n p)

  All-live : (P : PitEntry → Type 0) (es : List PitEntry) → All P es → All P (live es)
  unfolding live
  All-live P [] h = tt
  All-live P (e ∷ es) (p, h) = elim (Bool-cases (leb e.expire_time now)) [
    | inl stale ↦ rw stale (All-live P es h)
    | inr fresh ↦ rw fresh (p, All-live P es h)
  ]

  pub All-clean : (P : PitEntry → Type 0) (es : List PitEntry) → All P es → All P (clean now es)
  unfolding clean
  All-clean P [] h = tt
  All-clean P (e ∷ es) (p, h) = elim (Bool-cases (leb e.expire_time now)) [
    | inl stale ↦ rw stale (All-clean P es h)
    | inr fresh ↦ rw fresh (p, h)
  ]

  live-IsSorted : (es : List PitEntry) → IsSorted expire_le es → IsSorted expire_le (live es)
  unfolding live
  live-IsSorted [] s = tt
  live-IsSorted (e ∷ es) (p, s) = elim (Bool-cases (leb e.expire_time now)) [
    | inl stale ↦ rw stale (live-IsSorted es s)
    | inr fresh ↦ rw fresh (All-live (λ x. expire_le e x ≡ true) es p, live-IsSorted es s)
  ]

  live-Distinct : (es : List PitEntry) → Distinct prefix_of es → Distinct prefix_of (live es)
  unfolding live
  live-Distinct [] d = tt
  live-Distinct (e ∷ es) (p, d) = elim (Bool-cases (leb e.expire_time now)) [
    | inl stale ↦ rw stale (live-Distinct es d)
    | inr fresh ↦ rw fresh (All-live _ es p, live-Distinct es d)
  ]

  find-live :
      (q : Name) (es : List PitEntry)
      → Distinct prefix_of es
      → find Name-discrete prefix_of q (live es) ≡ unless_stale (find Name-discrete prefix_of q es)
  unfolding live find
  find-live q [] d = refl
  find-live q (e ∷ es) (p, d) =
      ground (arith, find-live q es d, find-NoKey Name-discrete prefix_of e.prefix es p)

  pub clean_expired-IsValid : (pit : Pit) → IsValidPit pit → IsValidPit (clean_expired now pit)
  unfolding clean_expired
  clean_expired-IsValid pit v =
      let same = clean-live pit.entries v.sorted in
      record {
        sorted = rw same (live-IsSorted pit.entries v.sorted);
        unique = rw same (live-Distinct pit.entries v.unique);
        entries = rw same (All-live IsValidEntry pit.entries v.entries);
      }

  -- After `CleanExpired` a prefix finds its entry if the entry has not expired by now, and nothing
  -- otherwise.
  pub find_entry-clean_expired :
      (q : Name) (pit : Pit)
      → IsValidPit pit
      → find_entry q (clean_expired now pit) ≡ unless_stale (find_entry q pit)
  unfolding clean_expired
  find_entry-clean_expired q pit v =
      rw (clean-live pit.entries v.sorted) (find-live q pit.entries v.unique)

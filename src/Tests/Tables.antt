-- ===== src/Tests/Tables.antt =====
-- The theorems on names, the FIB and the PIT, applied to concrete ones.
use vndn.Base.{
  ℕ, ◌+◌, ◌≡◌, ◌≢◌, ◌⊎◌, ◌↔◌, refl, sym, ◌∙◌, ap, Bool, true, false, ◌||◌, Option, none, some, List,
  [], ◌∷◌, ◌++◌, arith, length, get_elem?, if◌then◌else◌, ◌==◌, ite, ◌%◌, ◌<◌, All, take,
}
use vndn.Base.Int.{pos}
use vndn.Base.Keyed.{NoKey}
use vndn.Fib.{
  Fib, FaceMetric, find_best_candidate, find_prefix, add, remove, remove_from_all, remove_face,
}
use vndn.Fib.Entry.{find_best_candidate-eq}
use vndn.Fib.Table.{
  IsValidFib, IsLast, without, cost, cost-add, find_prefix-remove, remove_from_all_kept,
}
use vndn.Name.{Name, name_eq}
use vndn.Name.Compare.{Name-discrete, name_eq_iff}
use vndn.Name.Prefix
use vndn.Pit
use vndn.Pit.{
  Pit, PitEntry, find_entry, clean_expired, lookup_interest, lookup_content, find_incoming,
  find_outgoing, add_outgoing, update_on_retransmit, outgoing_face, remove_all_references_to_face,
  is_nonce_seen, are_all_outgoing_in_vain,
}
use vndn.Pit.Entry.{find-remove_all_references}
use vndn.Pit.Expiry.{unless_stale, find_entry-clean_expired}
use vndn.Pit.Lookup.{lookup_interest_repeated, lookup_content-captured}
use vndn.Tests.Data.{
  metrics, timers, name_a, name_ab, name_c, entry_a, entry_c, table, table-IsValid, pit,
  pit-IsValid, pending,
}
use mathlib.Core.Option

name_eq_iff_example : (name_eq name_a name_ab ≡ true) ↔ (name_a ≡ name_ab)
name_eq_iff_example = name_eq_iff name_a name_ab

longest_prefix_match_iff_example :
    (Prefix.longest_prefix_match (find_prefix table) name_ab ≡ some entry_a)
    ↔ Prefix.IsLongest (find_prefix table) (length name_ab + 1) name_ab entry_a
longest_prefix_match_iff_example =
    Prefix.longest_prefix_match_iff (find_prefix table) name_ab entry_a

find_best_candidate-eq_example :
    (m : FaceMetric) × (find_best_candidate entry_c 3 ≡ some m)
    × (get_elem? entry_c.faces (3 % length entry_c.faces) ≡ some m)
find_best_candidate-eq_example =
    find_best_candidate-eq entry_c 3 (table-IsValid.entries.1.0) (omega arith)

abbrev other_face : ℕ
other_face = 4

cost-add_example :
    IsValidFib (add metrics name_ab 3 (pos 0) table)
    × (cost (add metrics name_ab 3 (pos 0) table) name_ab 3 ≡ some (pos 0))
    × ((other_face ≢ 3) ⊎ (name_a ≢ name_ab)
        → cost (add metrics name_ab 3 (pos 0) table) name_a other_face
          ≡ cost table name_a other_face)
cost-add_example = cost-add metrics name_ab name_a 3 other_face (pos 0) table table-IsValid

find_prefix-remove_example :
    find_prefix (remove name_a 2 table) name_c
    ≡ ite
        (Name-discrete name_c name_a)
        (without 2 (find_prefix table name_a))
        (find_prefix table name_c)
find_prefix-remove_example = find_prefix-remove name_a name_c 2 table table-IsValid

kept : All (λ e. ¬ (IsLast 3 e)) table
unfolding remove_face vndn.Base.Keyed.erase vndn.Base.ℕ_discrete
kept = ((λ h. omega arith), ((λ h. omega arith), tt))

remove_from_all_kept_example :
    (fib' : Fib) × (remove_from_all 3 table ≡ some fib')
    × IsValidFib fib'
    × ((q : Name) → find_prefix fib' q ≡ Option.map (remove_face 3) (find_prefix table q))
remove_from_all_kept_example = remove_from_all_kept 3 table table-IsValid kept

find-remove_all_references_example :
    (find_incoming 1 (remove_all_references_to_face 1 pending)
      ≡ (if 1 == 1 then none else find_incoming 1 pending))
    × (find_outgoing 1 (remove_all_references_to_face 1 pending)
        ≡ (if 1 == 1 then none else find_outgoing 1 pending))
find-remove_all_references_example = find-remove_all_references pending (pit-IsValid.entries.0) 1 1

find_entry-clean_expired_example :
    find_entry name_ab (clean_expired 100 pit) ≡ unless_stale 100 (find_entry name_ab pit)
find_entry-clean_expired_example = find_entry-clean_expired 100 name_ab pit pit-IsValid

lookup_interest_repeated_example :
    lookup_interest timers 30 name_a 6 0 [] (lookup_interest timers 20 name_a 6 40 table pit).0 ≡ (
      (lookup_interest timers 20 name_a 6 40 table pit).0,
      record {
        entry = (lookup_interest timers 20 name_a 6 40 table pit).1.entry;
        is_new = false;
        is_duplicate = true;
        success = true;
      },
    )
lookup_interest_repeated_example = lookup_interest_repeated timers 20 name_a 6 40 table pit 30 0 []

-- /a/b/c, a longer name than the pending one
abbrev name_abc : Name
name_abc = (97 ∷ []) ∷ (98 ∷ []) ∷ (99 ∷ []) ∷ []

matched : Pit.longest_prefix_match name_abc pit ≡ some pending
unfolding Pit.longest_prefix_match Prefix.longest_prefix_match Prefix.match_loop
    vndn.Name.get_sub_components vndn.Base.Keyed.find Name-discrete vndn.Base.Bool-cases
    vndn.Name.name_eq vndn.Name.equal_components vndn.Name.equal_bytes
matched = refl

lookup_content-captured_example :
    lookup_content name_abc (lookup_interest timers 20 name_abc 6 40 table pit).0 ≡ none
lookup_content-captured_example =
    lookup_content-captured timers 20 name_abc 6 40 table pit pending matched (λ e. ground arith)

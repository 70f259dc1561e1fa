-- ===== src/Fib/Entry.antt =====
-- NDNFibEntry: the ranking of the faces, and what each operation does to it.
use vndn.Base.{
  ℕ, zero, suc, ◌%◌, ◌<◌, ◌≡◌, refl, ap, ◌∙◌, ◌≢◌, true, none, some, List, [], ◌∷◌, map, ◌==◌,
  if◌then◌else◌, length, get_elem?, ℕ_discrete, arith, Option-cases, inl, inr,
}
use vndn.Base.Int.{ℤ}
use vndn.Base.Keyed.{find, erase, Distinct, NoKey, find-eq-none, All-find, Distinct-erase}
use vndn.Base.Sorted.{
  OrderedIndex, IsSorted, insert_at-IsSorted, IsSorted-erase, Distinct-insert_at,
  find-insert_at_self, find-insert_at_ne,
}
use vndn.Base.Reposition.{
  reposition-IsSorted, Distinct-reposition, find-reposition_self, find-reposition_ne,
}
use vndn.Fib.{
  Status, FaceMetric, FibEntry, face_metric, metric_le, face_of, find_face, rearrange, set_status,
  set_cost, find_best_candidate, remove_face, update_status, add_or_update_routing_metric,
  fib_entry,
}
use mathlib.Core.Option
use native.Mathlib.Nat.{mod-lt}

-- The order of `i_metric` is total and transitive.
pub metric_le_refl : (a : FaceMetric) → metric_le a a ≡ true
unfolding metric_le
metric_le_refl a = ground arith

pub metric_le_trans :
    (a b c : FaceMetric) → metric_le a b ≡ true → metric_le b c ≡ true → metric_le a c ≡ true
unfolding metric_le
metric_le_trans a b c h k = ground arith

-- The three indices of `m_faces` agree: a face stands once, the faces are in the order of the
-- metric, and the random access index is in that order too.
pub record IsValidEntry (e : FibEntry) : Type 0 where
  pub sorted : IsSorted metric_le e.faces
  pub distinct : Distinct face_of e.faces
  pub ranked : e.nth ≡ map face_of e.faces

pub fib_entry-IsValid : (prefix : _) → IsValidEntry (fib_entry prefix)
unfolding fib_entry
fib_entry-IsValid prefix = record { sorted = tt; distinct = tt; ranked = refl }

map-face_of-erase :
    (face : ℕ) (l : List FaceMetric)
    → erase ℕ_discrete (λ i. i) face (map face_of l) ≡ map face_of (erase ℕ_discrete face_of face l)
unfolding erase
map-face_of-erase face [] = refl
map-face_of-erase face (m ∷ l) = ground (arith, map-face_of-erase face l)

pub remove_face-IsValid :
    (face : ℕ) (e : FibEntry) → IsValidEntry e → IsValidEntry (remove_face face e)
unfolding remove_face
remove_face-IsValid face e v = record {
  sorted = IsSorted-erase ℕ_discrete face_of metric_le face e.faces v.sorted;
  distinct = Distinct-erase ℕ_discrete face_of face e.faces v.distinct;
  ranked = ap (erase ℕ_discrete (λ i. i) face) v.ranked ∙ map-face_of-erase face e.faces;
}

module _ (index : OrderedIndex metric_le) where
  pub update_status-IsValid :
      (face : ℕ) (status : Status) (e : FibEntry)
      → IsValidEntry e
      → IsValidEntry (update_status index face status e)
  unfolding update_status rearrange
  update_status-IsValid face status e v = elim (Option-cases (find_face face e.faces)) [
    | inl missing ↦ rw (missing, update_status) v
    | inr (m, found) ↦
        rw (found, update_status)
          (record {
            sorted =
                reposition-IsSorted index ℕ_discrete face_of face (set_status status) (λ x. refl)
                  e.faces v.sorted;
            distinct =
                Distinct-reposition index ℕ_discrete face_of face (set_status status) (λ x. refl)
                  e.faces v.distinct;
            ranked = refl;
          })
  ]

  pub add_or_update_routing_metric-IsValid :
      (face : ℕ) (metric : ℤ) (e : FibEntry)
      → IsValidEntry e
      → IsValidEntry (add_or_update_routing_metric index face metric e)
  unfolding add_or_update_routing_metric rearrange
  add_or_update_routing_metric-IsValid face metric e v =
      elim (Option-cases (find_face face e.faces)) [
        | inl missing ↦
            rw (missing, add_or_update_routing_metric)
              (record {
                sorted = insert_at-IsSorted index _ (face_metric face metric) e.faces v.sorted;
                distinct =
                    Distinct-insert_at ℕ_discrete face_of index _ (face_metric face metric) e.faces
                      (find-eq-none ℕ_discrete face_of face e.faces missing) v.distinct;
                ranked = refl;
              })
        | inr (m, found) ↦
            rw (found, add_or_update_routing_metric)
              (record {
                sorted =
                    reposition-IsSorted index ℕ_discrete face_of face (set_cost metric) (λ x. refl)
                      e.faces v.sorted;
                distinct =
                    Distinct-reposition index ℕ_discrete face_of face (set_cost metric) (λ x. refl)
                      e.faces v.distinct;
                ranked = refl;
              })
      ]

  -- After `UpdateStatus` a face of a valid entry has the status given; the other faces, and the
  -- absence of a face, stay.
  pub find_face-update_status :
      (face other : ℕ) (status : Status) (e : FibEntry)
      → IsValidEntry e
      → find_face other (update_status index face status e).faces ≡ (
          if other == face
          then Option.map (set_status status) (find_face face e.faces)
          else find_face other e.faces)
  unfolding update_status rearrange
  find_face-update_status face other status e v = ground (
    arith,
    find-reposition_self index ℕ_discrete face_of face (set_status status) (λ x. refl) e.faces
        v.distinct,
    find-reposition_ne index ℕ_discrete face_of face (set_status status) (λ x. refl) other e.faces,
  )

  -- After `AddOrUpdateRoutingMetric` on a valid entry the face has the cost given, in its old record
  -- or in a new one with status yellow; the records of the other faces stay.
  pub find_face-add_or_update :
      (face other : ℕ) (metric : ℤ) (e : FibEntry)
      → IsValidEntry e
      → find_face other (add_or_update_routing_metric index face metric e).faces ≡ (
          if other == face
          then some (
              Option.get_or
                (Option.map (set_cost metric) (find_face face e.faces))
                (face_metric face metric))
          else find_face other e.faces)
  unfolding add_or_update_routing_metric rearrange
  find_face-add_or_update face other metric e v = ground (
    arith,
    find-reposition_self index ℕ_discrete face_of face (set_cost metric) (λ x. refl) e.faces
        v.distinct,
    find-reposition_ne index ℕ_discrete face_of face (set_cost metric) (λ x. refl) other e.faces,
    λ (missing : find_face face e.faces ≡ none).
        find-insert_at_self ℕ_discrete face_of index (length e.faces) (face_metric face metric)
          e.faces (find-eq-none ℕ_discrete face_of face e.faces missing),
    find-insert_at_ne ℕ_discrete face_of index other (length e.faces) (face_metric face metric)
        e.faces,
  )

All-find_face :
    (k : ℕ) (x : FaceMetric) (l : List FaceMetric)
    → NoKey face_of k l
    → find_face x.face l ≡ some x
    → x.face ≢ k
All-find_face k x l h e = All-find ℕ_discrete face_of (λ y. y.face ≢ k) x.face l x h e

get_elem?-map_found :
    (l : List FaceMetric) (n : ℕ)
    → Distinct face_of l
    → n < length l
    → (m : FaceMetric) × (get_elem? (map face_of l) n ≡ some m.face)
      × (get_elem? l n ≡ some m)
      × (find_face m.face l ≡ some m)
unfolding find
get_elem?-map_found [] n d h = absurd (omega arith)
get_elem?-map_found (m ∷ l) zero d h = (m, refl, refl, ground arith)
get_elem?-map_found (m ∷ l) (suc n) (away, d) h =
    let (x, i, j, found) = get_elem?-map_found l n d (omega arith) in
    (x, i, j, ground (arith, All-find_face m.face x l away found))

-- `FindBestCandidate` on a valid entry with faces answers the face at the place `skip`, modulo the
-- number of the faces, in the order of the metric.
pub find_best_candidate-eq :
    (e : FibEntry) (skip : ℕ)
    → IsValidEntry e
    → 0 < length e.faces
    → (m : FaceMetric) × (find_best_candidate e skip ≡ some m)
      × (get_elem? e.faces (skip % length e.faces) ≡ some m)
unfolding find_best_candidate
find_best_candidate-eq e skip v h =
    let (m, i, j, found) =
      get_elem?-map_found e.faces (skip % length e.faces) v.distinct (mod-lt skip h) in
    (m, ground (arith, v.ranked), j)

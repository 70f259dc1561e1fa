-- ===== src/Fib/Table.antt =====
-- NDNFib: the table keeps its invariant, and what a prefix finds after each operation.
use vndn.Base.{
  subst, ℕ, ◌+◌, ◌≤◌, ◌<◌, ◌≡◌, refl, ◌∙◌, ◌≢◌, ◌⊎◌, true, false, sym, ap, Option, none, some, List,
  [], ◌∷◌, ◌==◌, if◌then◌else◌, length, take, All, arith, Option-cases, inl, inr, Bool-cases, ite,
  All-append, All-zip_with,
}
use vndn.Base.Int.{ℤ}
use vndn.Base.Keyed.{
  find, modify, Distinct, NoKey, find-eq-none, find-NoKey, All-find, Distinct-erase,
  find-erase_self, find-erase_ne, find-key, find-append_one, find-append_some, Distinct-append_one,
  All-modify, Distinct-modify, find-modify_self, find-modify_ne, All-erase, key-find,
}
use vndn.Base.Sorted.{OrderedIndex}
use vndn.Name.{Name}
use vndn.Name.Compare.{Name-discrete}
use vndn.Name.Prefix
use vndn.Fib.{
  FibEntry, metric_le, prefix_of, rearrange, Fib, find_prefix, longest_prefix_match, remove,
  remove_walk, remove_from_all, add, ensure, update_entry_status, remove_face, update_status,
  add_or_update_routing_metric, fib_entry, find_face, FaceMetric, face_metric, set_cost,
}
use vndn.Fib.Entry.{
  IsValidEntry, fib_entry-IsValid, remove_face-IsValid, update_status-IsValid,
  add_or_update_routing_metric-IsValid, find_face-add_or_update,
}
use mathlib.Core.Option

-- A prefix stands once in the table, and each entry is valid.
pub record IsValidFib (fib : Fib) : Type 0 where
  pub unique : Distinct prefix_of fib
  pub entries : All IsValidEntry fib

-- The routing cost that a FIB has for a face under a prefix.
abbrev pub cost_in : ℕ → Option FibEntry → Option ℤ
cost_in other none = none
cost_in other (some e) = Option.map (λ m. m.routing_cost) (find_face other e.faces)

abbrev pub cost : Fib → Name → ℕ → Option ℤ
cost fib q other = cost_in other (find_prefix fib q)

entry-IsValid :
    (prefix : Name) (fib : Fib) (x : FibEntry)
    → IsValidFib fib
    → find_prefix fib prefix ≡ some x
    → IsValidEntry x
unfolding find_prefix
entry-IsValid prefix fib x v e =
    All-find Name-discrete prefix_of IsValidEntry prefix fib x v.entries e

prefix-remove_face : (face : ℕ) (e : FibEntry) → (remove_face face e).prefix ≡ e.prefix
unfolding remove_face
prefix-remove_face face e = refl

-- What `Remove` leaves of an entry: nothing, if the face was its last.
abbrev pub without : ℕ → Option FibEntry → Option FibEntry
without face none = none
without face (some e) =
    if length (remove_face face e).faces == 0 then none else some (remove_face face e)

-- After `Remove` the prefix finds what is left of its entry; other prefixes find what they found.
pub find_prefix-remove :
    (prefix q : Name) (face : ℕ) (fib : Fib)
    → IsValidFib fib
    → find_prefix (remove prefix face fib) q
      ≡ ite (Name-discrete q prefix) (without face (find_prefix fib prefix)) (find_prefix fib q)
unfolding remove find_prefix
find_prefix-remove prefix q face fib v = ground (
  arith,
  find-modify_self Name-discrete prefix_of prefix (remove_face face) (prefix-remove_face face) fib,
  find-modify_ne Name-discrete prefix_of prefix (remove_face face) (prefix-remove_face face) q fib,
  find-erase_self Name-discrete prefix_of prefix
      (modify Name-discrete prefix_of prefix (remove_face face) fib)
      (Distinct-modify Name-discrete prefix_of prefix (remove_face face) (prefix-remove_face face)
        fib v.unique),
  find-erase_ne Name-discrete prefix_of prefix q
      (modify Name-discrete prefix_of prefix (remove_face face) fib),
)

pub remove-IsValid :
    (prefix : Name) (face : ℕ) (fib : Fib) → IsValidFib fib → IsValidFib (remove prefix face fib)
unfolding remove find_prefix
remove-IsValid prefix face fib v = elim (Option-cases (find Name-discrete prefix_of prefix fib')) [
  | inl missing ↦ rw (missing, remove) w
  | inr (e, found) ↦
      rw (found, remove)
        (elim (Bool-cases (length e.faces == 0)) [
          | inl empty ↦ rw empty (record {
            unique = Distinct-erase Name-discrete prefix_of prefix fib' w.unique;
            entries = All-erase Name-discrete prefix_of IsValidEntry prefix fib' w.entries;
          })
          | inr more ↦ rw more w
        ])
]
  where
    fib' : Fib
    fib' = modify Name-discrete prefix_of prefix (remove_face face) fib

    w : IsValidFib fib'
    w = record {
      unique =
          Distinct-modify Name-discrete prefix_of prefix (remove_face face)
            (prefix-remove_face face) fib v.unique;
      entries =
          All-modify Name-discrete prefix_of prefix (remove_face face) (prefix-remove_face face)
            IsValidEntry fib (λ e _. remove_face-IsValid face e) v.entries;
    }

ensure-IsValid : (prefix : Name) (fib : Fib) → IsValidFib fib → IsValidFib (ensure prefix fib)
unfolding ensure find_prefix fib_entry
ensure-IsValid prefix fib v = elim (Option-cases (find_prefix fib prefix)) [
  | inl missing ↦
      rw (missing, ensure)
        (record {
          unique =
              Distinct-append_one Name-discrete prefix_of fib (fib_entry prefix)
                (find-eq-none Name-discrete prefix_of prefix fib missing) v.unique;
          entries = All-append IsValidEntry fib _ v.entries (fib_entry-IsValid prefix, tt);
        })
  | inr (e, found) ↦ rw (found, ensure) v
]

find-ensure :
    (prefix q : Name) (fib : Fib)
    → find Name-discrete prefix_of q (ensure prefix fib)
      ≡ ite
          (Name-discrete q prefix)
          (some (Option.get_or (find Name-discrete prefix_of prefix fib) (fib_entry prefix)))
          (find Name-discrete prefix_of q fib)
unfolding ensure find_prefix fib_entry
find-ensure prefix q fib = elim (Option-cases (find Name-discrete prefix_of q fib)) [
  | inl missing ↦
      ground (arith, find-append_one Name-discrete prefix_of q fib (fib_entry prefix) missing)
  | inr (e, found) ↦
      ground (arith, find-append_some Name-discrete prefix_of q fib (fib_entry prefix) e found)
]

module _ (index : OrderedIndex metric_le) where
  prefix-add_or_update :
      (face : ℕ) (metric : ℤ) (e : FibEntry)
      → (add_or_update_routing_metric index face metric e).prefix ≡ e.prefix
  unfolding add_or_update_routing_metric rearrange
  prefix-add_or_update face metric e = refl

  pub prefix-update_status :
      (face : ℕ) (status : _) (e : FibEntry) → (update_status index face status e).prefix ≡ e.prefix
  unfolding update_status rearrange
  prefix-update_status face status e = ground arith

  pub update_entry_status-IsValid :
      (prefix : Name) (face : ℕ) (status : _) (fib : Fib)
      → IsValidFib fib
      → IsValidFib (update_entry_status index prefix face status fib)
  unfolding update_entry_status
  update_entry_status-IsValid prefix face status fib v = record {
    unique =
        Distinct-modify Name-discrete prefix_of prefix (update_status index face status)
          (prefix-update_status face status) fib v.unique;
    entries =
        All-modify Name-discrete prefix_of prefix (update_status index face status)
          (prefix-update_status face status) IsValidEntry fib
          (λ e _. update_status-IsValid index face status e) v.entries;
  }

  pub find_prefix-update_entry_status :
      (prefix q : Name) (face : ℕ) (status : _) (fib : Fib)
      → find_prefix (update_entry_status index prefix face status fib) q
        ≡ ite
            (Name-discrete q prefix)
            (Option.map (update_status index face status) (find_prefix fib prefix))
            (find_prefix fib q)
  unfolding update_entry_status find_prefix
  find_prefix-update_entry_status prefix q face status fib = ground (
    arith,
    find-modify_self Name-discrete prefix_of prefix (update_status index face status)
        (prefix-update_status face status) fib,
    find-modify_ne Name-discrete prefix_of prefix (update_status index face status)
        (prefix-update_status face status) q fib,
  )

  -- `Add` keeps the invariant.
  pub add-IsValid :
      (prefix : Name) (face : ℕ) (metric : ℤ) (fib : Fib)
      → IsValidFib fib
      → IsValidFib (add index prefix face metric fib)
  unfolding add
  add-IsValid prefix face metric fib v =
      let w = ensure-IsValid prefix fib v in
      record {
        unique =
            Distinct-modify Name-discrete prefix_of prefix
              (add_or_update_routing_metric index face metric) (prefix-add_or_update face metric) _
              w.unique;
        entries =
            All-modify Name-discrete prefix_of prefix
              (add_or_update_routing_metric index face metric) (prefix-add_or_update face metric)
              IsValidEntry _ (λ e _. add_or_update_routing_metric-IsValid index face metric e)
              w.entries;
      }

  -- After `Add` the prefix finds its entry, or a new one, with the face's cost set in it; any other
  -- prefix finds what it found.
  pub find_prefix-add :
      (prefix q : Name) (face : ℕ) (metric : ℤ) (fib : Fib)
      → find_prefix (add index prefix face metric fib) q
        ≡ ite
            (Name-discrete q prefix)
            (some (
              add_or_update_routing_metric index face metric
                (Option.get_or (find_prefix fib prefix) (fib_entry prefix))))
            (find_prefix fib q)
  unfolding add find_prefix
  find_prefix-add prefix q face metric fib = ground (
    arith,
    find-ensure prefix q fib,
    find-ensure prefix prefix fib,
    find-modify_self Name-discrete prefix_of prefix (add_or_update_routing_metric index face metric)
        (prefix-add_or_update face metric) (ensure prefix fib),
    find-modify_ne Name-discrete prefix_of prefix (add_or_update_routing_metric index face metric)
        (prefix-add_or_update face metric) q (ensure prefix fib),
  )

  -- After `Add` on a valid FIB, which stays valid, with each prefix once, the face has the cost given
  -- under the prefix, and every other face, and every face under another prefix, has the cost that it
  -- had, or none if it had none.
  pub cost-add :
      (prefix q : Name) (face other : ℕ) (metric : ℤ) (fib : Fib)
      → IsValidFib fib
      → IsValidFib (add index prefix face metric fib)
        × (cost (add index prefix face metric fib) prefix face ≡ some metric)
        × ((other ≢ face) ⊎ (q ≢ prefix)
            → cost (add index prefix face metric fib) q other ≡ cost fib q other)
  unfolding fib_entry find
  cost-add prefix q face other metric fib v = (
    add-IsValid prefix face metric fib v,
    at_prefix (find_prefix fib prefix) face refl ∙ set_at (find_prefix fib prefix) refl,
    λ h. elim (Name-discrete q prefix) [
      | yes e ↦
          subst P (sym e)
            (kept (find_prefix fib prefix) refl (elim h [ inl n ↦ n | inr n ↦ absurd (n e) ]))
      | no n ↦
          let found : find_prefix (add index prefix face metric fib) q ≡ find_prefix fib q =
            find_prefix-add prefix q face metric fib ∙ ground (arith, n) in
          ap (cost_in other) found
    ],
  )
    where
      P : Name → Type 0
      P q' = cost (add index prefix face metric fib) q' other ≡ cost fib q' other

      at_prefix :
          (o : Option FibEntry) (f : ℕ)
          → find_prefix fib prefix ≡ o
          → cost (add index prefix face metric fib) prefix f
            ≡ Option.map
                (λ m. m.routing_cost)
                (find_face f
                  (add_or_update_routing_metric index face metric
                    (Option.get_or o (fib_entry prefix))).faces)
      at_prefix o f e =
          let found : find_prefix (add index prefix face metric fib) prefix
              ≡ some (
                  add_or_update_routing_metric index face metric
                    (Option.get_or o (fib_entry prefix))) =
            find_prefix-add prefix prefix face metric fib ∙ ground (arith, e) in
          ap (cost_in f) found

      valid_at :
          (o : Option FibEntry)
          → find_prefix fib prefix ≡ o
          → IsValidEntry (Option.get_or o (fib_entry prefix))
      valid_at none e = fib_entry-IsValid prefix
      valid_at (some x) e = entry-IsValid prefix fib x v e

      set_of :
          (m : Option FaceMetric)
          → Option.map
              (λ m. m.routing_cost)
              (some (Option.get_or (Option.map (set_cost metric) m) (face_metric face metric)))
            ≡ some metric
      set_of none = refl
      set_of (some m) = refl

      set_at :
          (o : Option FibEntry)
          → find_prefix fib prefix ≡ o
          → Option.map
              (λ m. m.routing_cost)
              (find_face face
                (add_or_update_routing_metric index face metric
                  (Option.get_or o (fib_entry prefix))).faces)
            ≡ some metric
      set_at o e =
          ap (Option.map (λ m. m.routing_cost)) (
            find_face-add_or_update index face face metric (Option.get_or o (fib_entry prefix))
              (valid_at o e))
          ∙ (let own : (face == face) ≡ true = ground arith in
              rw own (set_of (find_face face (Option.get_or o (fib_entry prefix)).faces)))

      same :
          (o : Option FibEntry)
          → Option.map
              (λ m. m.routing_cost)
              (find_face other (Option.get_or o (fib_entry prefix)).faces)
            ≡ cost_in other o
      same none = refl
      same (some x) = refl

      kept : (o : Option FibEntry) → find_prefix fib prefix ≡ o → other ≢ face → P prefix
      kept o e n =
          let differs : (other == face) ≡ false = ground (arith, n) in
          at_prefix o other e
          ∙ ap (Option.map (λ m. m.routing_cost)) (
              find_face-add_or_update index face other metric (Option.get_or o (fib_entry prefix))
                (valid_at o e))
          ∙ rw differs (same o)
          ∙ ap (cost_in other) (sym e)

-- The face is the last of an entry.
abbrev pub IsLast : ℕ → FibEntry → Type 0
IsLast face e = length (remove_face face e).faces ≡ 0

-- What a prefix finds after a walk over `rest`.
abbrev walked : ℕ → List FibEntry → Fib → Name → Option FibEntry
walked face rest fib q = elim (find_prefix rest q) [
  | none ↦ find_prefix fib q
  | some e ↦ some (remove_face face e)
]

find_prefix-remove_kept :
    (face : ℕ) (e : FibEntry) (fib : Fib) (q : Name)
    → IsValidFib fib
    → find_prefix fib e.prefix ≡ some e
    → ¬ (IsLast face e)
    → find_prefix (remove e.prefix face fib) q
      ≡ ite (Name-discrete q e.prefix) (some (remove_face face e)) (find_prefix fib q)
find_prefix-remove_kept face e fib q v at_e n =
    find_prefix-remove e.prefix q face fib v ∙ rw at_e (ground arith)

walked_step :
    (face : ℕ) (e : FibEntry) (rest : List FibEntry) (fib : Fib) (q : Name)
    → IsValidFib fib
    → NoKey prefix_of e.prefix rest
    → find_prefix fib e.prefix ≡ some e
    → ¬ (IsLast face e)
    → walked face rest (remove e.prefix face fib) q ≡ walked face (e ∷ rest) fib q
unfolding find_prefix find
walked_step face e rest fib q v p at_e n = ground (
  arith,
  find_prefix-remove_kept face e fib q v at_e n,
  find-NoKey Name-discrete prefix_of e.prefix rest p,
)

-- `RemoveFromAll` on a walk over `rest`, whose entries the table still holds.
remove_walk_lem :
    (face : ℕ) (rest : List FibEntry) (fib : Fib)
    → IsValidFib fib
    → Distinct prefix_of rest
    → All (λ e. find_prefix fib e.prefix ≡ some e) rest
    → All (λ e. ¬ (IsLast face e)) rest
    → (fib' : Fib) × (remove_walk face rest fib ≡ some fib')
      × IsValidFib fib'
      × ((q : Name) → find_prefix fib' q ≡ walked face rest fib q)
unfolding remove_walk
remove_walk_lem face [] fib v d h n = (fib, refl, v, λ q. unfold find find_prefix in refl)
remove_walk_lem face (e ∷ rest) fib v (p, d) (at_e, h) (n, ns) =
    let (fib', walk, w, finds) =
      remove_walk_lem face rest (remove e.prefix face fib) (remove-IsValid e.prefix face fib v) d
        (All-zip_with (λ y. y.prefix ≢ e.prefix) (λ y. find_prefix fib y.prefix ≡ some y)
          (λ y. find_prefix (remove e.prefix face fib) y.prefix ≡ some y) rest
          (λ y ne at_y.
            find_prefix-remove_kept face e fib y.prefix v at_e n ∙ rw at_y (ground arith))
          p h)
        ns in
    (fib', ground arith, w, λ q. finds q ∙ walked_step face e rest fib q v p at_e n)

-- Where the face is the last of no entry, `RemoveFromAll` takes the face out of every entry and
-- keeps all prefixes and the invariant.
pub remove_from_all_kept :
    (face : ℕ) (fib : Fib)
    → IsValidFib fib
    → All (λ e. ¬ (IsLast face e)) fib
    → (fib' : Fib) × (remove_from_all face fib ≡ some fib')
      × IsValidFib fib'
      × ((q : Name) → find_prefix fib' q ≡ Option.map (remove_face face) (find_prefix fib q))
unfolding remove_from_all
remove_from_all_kept face fib v n =
    let (fib', walk, w, finds) =
      remove_walk_lem face fib fib v v.unique
        (unfold find_prefix in find-key Name-discrete prefix_of fib v.unique) n in
    (fib', walk, w, λ q. finds q ∙ ground arith)

-- The longest prefix match finds the entry of a prefix of the name, that entry's own, and the table
-- has none for a longer prefix of the name.
pub longest_prefix_match-some :
    (fib : Fib) (name : Name) (e : FibEntry)
    → longest_prefix_match fib name ≡ some e
    → (n : ℕ) × (n < length name + 1)
      × (e.prefix ≡ take n name)
      × ((m : ℕ) → n < m → m < length name + 1 → NoKey prefix_of (take m name) fib)
unfolding longest_prefix_match find_prefix
longest_prefix_match-some fib name e h =
    let (n, lt, found, longest) = Prefix.longest_prefix_match-some (find_prefix fib) name e h in
    (
      n,
      lt,
      key-find Name-discrete prefix_of (take n name) fib e found,
      λ m above below.
          find-eq-none Name-discrete prefix_of (take m name) fib (longest m above below),
    )

pub find_prefix-of_match :
    (fib : Fib) (name : Name) (e : FibEntry)
    → longest_prefix_match fib name ≡ some e
    → find_prefix fib e.prefix ≡ some e
unfolding longest_prefix_match find_prefix
find_prefix-of_match fib name e h =
    let (n, lt, found, longest) = Prefix.longest_prefix_match-some (find_prefix fib) name e h in
    subst (λ q. find_prefix fib q ≡ some e)
      (sym (key-find Name-discrete prefix_of (take n name) fib e found)) found

-- It finds nothing only if no prefix of the name has an entry.
pub longest_prefix_match-none :
    (fib : Fib) (name : Name)
    → longest_prefix_match fib name ≡ none
    → (m : ℕ) → m ≤ length name
    → NoKey prefix_of (take m name) fib
unfolding longest_prefix_match find_prefix
longest_prefix_match-none fib name h m le =
    find-eq-none Name-discrete prefix_of (take m name) fib
      (Prefix.longest_prefix_match-none (find_prefix fib) name h m le)

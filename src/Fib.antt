-- ===== src/Fib.antt =====
-- The forwarding information base: daemon/ndn-fib.{h,cc}. A face is the number that stands for its
-- pointer. The multi-index containers are lists: `m_faces` in the order of its index `i_metric`,
-- with its index `i_nth` as the list of the faces in that order; `m_fib` in the order of `i_nth`.
pub mod Entry
pub mod Table
use vndn.Base.{
  ℕ, zero, suc, ◌+◌, ◌-◌, ◌%◌, Bool, true, false, Option, none, some, List, [], ◌∷◌, ◌++◌, map,
  ◌==◌, ltb, if◌then◌else◌, length, get_elem?, ℕ_discrete,
}
use vndn.Base.Int.{ℤ, pos, negsuc, leb_ℤ}
use vndn.Base.Keyed.{find, erase, modify}
use vndn.Base.Sorted.{OrderedIndex, insert_at, reposition}
use vndn.Name.{Name}
use vndn.Name.Compare.{Name-discrete}
use vndn.Name.Prefix

pub data Status : Type 0 where
  green yellow red : Status

-- The values of the enumeration.
abbrev pub rank : Status → ℕ
rank green = 1
rank yellow = 2
rank red = 3

-- `NDNFibFaceMetric`
pub record FaceMetric : Type 0 where
  pub face : ℕ
  pub status : Status
  pub routing_cost : ℤ
  pub s_rtt : ℕ
  pub rtt_var : ℕ

abbrev pub face_metric : ℕ → ℤ → FaceMetric
face_metric face cost = record {
  face = face;
  status = yellow;
  routing_cost = cost;
  s_rtt = 0;
  rtt_var = 0;
}

-- The composite key of `i_metric`: by status, then by cost.
unfoldable pub metric_le : FaceMetric → FaceMetric → Bool
metric_le a b =
    if ltb (rank a.status) (rank b.status)
    then true
    else if rank a.status == rank b.status
    then leb_ℤ a.routing_cost b.routing_cost
    else false

-- `NDNFibEntry`
pub record FibEntry : Type 0 where
  pub prefix : Name
  pub faces : List FaceMetric
  pub nth : List ℕ
  pub needs_probing : Bool

abbrev pub face_of : FaceMetric → ℕ
face_of m = m.face

abbrev pub prefix_of : FibEntry → Name
prefix_of e = e.prefix

-- the constructor
unfoldable pub fib_entry : Name → FibEntry
fib_entry prefix = record { prefix = prefix; faces = []; nth = []; needs_probing = false }

-- `m_faces.get<i_face> ().find (face)`
abbrev pub find_face : ℕ → List FaceMetric → Option FaceMetric
find_face = find ℕ_discrete face_of

-- `m_faces.get<i_nth> ().rearrange (m_faces.get<i_metric> ().begin ())`
unfoldable pub rearrange : FibEntry → FibEntry
rearrange e = record e { nth = map face_of e.faces }

abbrev pub set_status : Status → FaceMetric → FaceMetric
set_status status m = record m { status = status }

abbrev pub set_cost : ℤ → FaceMetric → FaceMetric
set_cost cost m = record m { routing_cost = cost }

-- `FindBestCandidate`; `none` is the exception NoFaces
unfoldable pub find_best_candidate : FibEntry → ℕ → Option FaceMetric
find_best_candidate e skip =
    if length e.faces == 0 then none else elim (get_elem? e.nth (skip % length e.faces)) [
      | none ↦ none
      | some face ↦ find_face face e.faces
    ]

-- `RemoveFace`: the element leaves every index
unfoldable pub remove_face : ℕ → FibEntry → FibEntry
remove_face face e = record e {
  faces = erase ℕ_discrete face_of face e.faces;
  nth = erase ℕ_discrete (λ i. i) face e.nth;
}

abbrev pub Fib : Type 0
Fib = List FibEntry

-- `m_fib.find (prefix)`
unfoldable pub find_prefix : Fib → Name → Option FibEntry
find_prefix fib prefix = find Name-discrete prefix_of prefix fib

-- `LongestPrefixMatch`
unfoldable pub longest_prefix_match : Fib → Name → Option FibEntry
longest_prefix_match fib = Prefix.longest_prefix_match (find_prefix fib)

-- `Remove` of an entry of the table, which `prefix` names
unfoldable pub remove : Name → ℕ → Fib → Fib
remove prefix face fib =
    let fib' = modify Name-discrete prefix_of prefix (remove_face face) fib in
    elim (find_prefix fib' prefix) [
      | none ↦ fib'
      | some entry ↦
          if length entry.faces == 0 then erase Name-discrete prefix_of prefix fib' else fib'
    ]

-- `RemovePrefix`
unfoldable pub remove_prefix : Name → ℕ → Fib → Fib × ℤ
remove_prefix prefix face fib = elim (find_prefix fib prefix) [
  | none ↦ (fib, negsuc 0)
  | some entry ↦ (remove prefix face fib, pos 0)
]

-- `RemoveFromAll`. `for_each` walks the table while `Remove` may erase the very entry that the walk
-- stands on, and then steps on from the freed node: that has no defined behaviour, and is `none`.
-- The first list is the part of the table that the walk has not reached.
unfoldable pub remove_walk : ℕ → List FibEntry → Fib → Option Fib
remove_walk face [] fib = some fib
remove_walk face (entry ∷ rest) fib =
    let next = remove_walk face rest (remove entry.prefix face fib) in
    if length (remove_face face entry).faces == 0 then none else next

unfoldable pub remove_from_all : ℕ → Fib → Option Fib
remove_from_all face fib = remove_walk face fib fib

-- `GetNDNFibEntryCount`, a `uint32_t`, and `GetNDNFibEntry`; `none` is the failed assertion
unfoldable pub entry_count : Fib → ℕ
entry_count fib = length fib % 4294967296

unfoldable pub get_entry : Fib → ℕ → Option FibEntry
get_entry = get_elem?

-- the first part of `Add`: a new prefix is appended
unfoldable pub ensure : Name → Fib → Fib
ensure prefix fib = elim (find_prefix fib prefix) [
  | none ↦ fib ++ (fib_entry prefix ∷ [])
  | some _ ↦ fib
]

module _ (index : OrderedIndex metric_le) where
  -- `UpdateStatus`: nothing for a face that the entry does not have
  unfoldable pub update_status : ℕ → Status → FibEntry → FibEntry
  update_status face status e = elim (find_face face e.faces) [
    | none ↦ e
    | some _ ↦
        rearrange (record e {
          faces = reposition index ℕ_discrete face_of face (set_status status) e.faces;
        })
  ]

  -- `AddOrUpdateRoutingMetric`
  unfoldable pub add_or_update_routing_metric : ℕ → ℤ → FibEntry → FibEntry
  add_or_update_routing_metric face metric e = rearrange (record e {
    faces = elim (find_face face e.faces) [
      | none ↦ insert_at index (length e.faces) (face_metric face metric) e.faces
      | some _ ↦ reposition index ℕ_discrete face_of face (set_cost metric) e.faces
    ];
  })

  -- `Add`
  unfoldable pub add : Name → ℕ → ℤ → Fib → Fib
  add prefix face metric fib =
      modify Name-discrete prefix_of prefix (add_or_update_routing_metric face metric)
        (ensure prefix fib)

  -- `m_fib.modify (entry, bind (&NDNFibEntry::UpdateStatus, _1, face, status))`
  unfoldable pub update_entry_status : Name → ℕ → Status → Fib → Fib
  update_entry_status prefix face status =
      modify Name-discrete prefix_of prefix (update_status face status)

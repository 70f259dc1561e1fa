-- ===== src/L3/Strategy.antt =====
-- NDNForwardingStrategy and NDNFloodingStrategy. A PIT entry is named by its prefix.
pub mod Safety
pub mod Choice
use vndn.Base.{
  ℕ, Bool, true, false, not, ◌&&◌, Option, none, some, List, [], ◌∷◌, map, ltb, leb, if◌then◌else◌,
}
use vndn.Fib
use vndn.Fib.{Fib, FaceMetric, FibEntry, Status, green, yellow, red, find_prefix}
use vndn.Name.{Name}
use vndn.Pit.{
  PitEntry, OutgoingFace, find_incoming, find_outgoing, find_entry, modify_entry, add_outgoing,
}
use vndn.L3.{Env, State, Frame, Outcome, done, raised, undefined, ◌>>=◌, deref, send}

-- Whether the interest came in by this face.
unfoldable pub is_incoming : ℕ → PitEntry → Bool
is_incoming face e = elim (find_incoming face e) [ none ↦ false | some _ ↦ true ]

-- Whether the face has had all the retransmissions that the entry allows.
unfoldable pub is_exhausted : ℕ → PitEntry → Bool
is_exhausted face e = elim (find_outgoing face e) [
  | none ↦ false
  | some out ↦ leb e.max_retx_count out.retx_count
]

-- `pitEntry.m_fibEntry`, followed if it is not null
unfoldable pub follow : Fib → PitEntry → Outcome (Option FibEntry)
follow fib e = elim e.fib_entry [
  | none ↦ done none
  | some prefix ↦ elim (find_prefix fib prefix) [
    | none ↦ undefined
    | some entry ↦ done (some entry)
  ]
]

module _ (env : Env) where
  -- the loop of `PropagateInterestViaGreen` over the faces in the order of the metric: the face
  -- that it chooses
  unfoldable pub green_loop : List FaceMetric → PitEntry → env.Limits → Option ℕ × env.Limits
  green_loop [] e limits = (none, limits)
  green_loop (m ∷ ms) e limits =
      let skip = green_loop ms e limits in
      let asked = env.is_below_limit m.face limits in
      let refused = green_loop ms e asked.1 in
      elim m.status [
        | green ↦
            if is_incoming m.face e
            then skip
            else if is_exhausted m.face e
            then skip
            else if asked.0
            then (some m.face, asked.1)
            else refused
        | yellow ↦ (none, limits)
        | red ↦ (none, limits)
      ]

  -- `m_pit->modify (..., AddOutgoing)` and `Send`
  unfoldable pub transmit : ℕ → Name → Frame → ℕ → State env → State env
  transmit now prefix frame face st =
      send face frame none (record st { pit = modify_entry prefix (add_outgoing now face) st.pit })

  -- the end of `PropagateInterestViaGreen`, with the face that its loop chose
  unfoldable pub commit : ℕ → Name → Frame → State env → Option ℕ × env.Limits → State env × Bool
  commit now prefix frame st (none, limits) = (record st { limits = limits }, false)
  commit now prefix frame st (some face, limits) =
      (transmit now prefix frame face (record st { limits = limits }), true)

  -- `PropagateInterestViaGreen`
  unfoldable pub propagate_via_green : ℕ → Name → Frame → State env → Outcome (State env × Bool)
  propagate_via_green now prefix frame st = do
    e ← deref (find_entry prefix st.pit)
    target ← follow st.fib e
    done (elim target [
      | none ↦ (st, false)
      | some entry ↦ commit now prefix frame st (green_loop entry.faces e st.limits)
    ])

  -- The faces that are not red, in the order of the metric.
  unfoldable pub not_red : List FaceMetric → List ℕ
  not_red [] = []
  not_red (m ∷ ms) = elim m.status [
    | red ↦ not_red ms
    | green ↦ m.face ∷ not_red ms
    | yellow ↦ m.face ∷ not_red ms
  ]

  -- the list `faces` of the flooding strategy
  unfoldable pub eligible : List ℕ → Option FibEntry → List ℕ
  eligible all none = all
  eligible all (some entry) = not_red entry.faces

  -- its loop over that list, and whether any face took the packet
  unfoldable pub flood : ℕ → Name → Frame → List ℕ → State env → State env × Bool
  flood now prefix frame [] st = (st, false)
  flood now prefix frame (face ∷ faces) st =
      let asked = env.is_below_limit face st.limits in
      let st' = record st { limits = asked.1 } in
      let taken = flood now prefix frame faces (transmit now prefix frame face st') in
      let refused = flood now prefix frame faces st' in if asked.0 then (taken.0, true) else refused

  -- `NDNFloodingStrategy::PropagateInterest`: the part after the green faces, and the whole
  unfoldable pub flood_interest : ℕ → Name → Frame → State env → Outcome (State env × Bool)
  flood_interest now prefix frame st = do
    e ← deref (find_entry prefix st.pit)
    target ← follow st.fib e
    done (flood now prefix frame (eligible st.faces target) st)

  unfoldable pub propagate_interest : ℕ → Name → Frame → State env → Outcome (State env × Bool)
  propagate_interest now prefix frame st = do
    (st', green_ok) ← propagate_via_green now prefix frame st
    if green_ok then done (st', true) else flood_interest now prefix frame st'

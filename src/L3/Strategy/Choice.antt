-- ===== src/L3/Strategy/Choice.antt =====
-- Which faces the strategies (daemon/ndn-forwarding-strategy.cc, daemon/ndn-flooding-strategy.cc)
-- send an interest to.
use vndn.Base.{
  append_assoc, append_empty, ℕ, ◌≡◌, refl, sym, ◌∙◌, ap, subst, Bool, true, false, not, ◌&&◌,
  Option, none, some, List, ◌⊎◌, [], ◌∷◌, ◌++◌, map, if◌then◌else◌, inl, inr, Bool-cases,
}
use vndn.Fib.{FaceMetric, FibEntry, Status, green, yellow, red}
use vndn.Name.{Name}
use vndn.Pit.{Pit, PitEntry, find_entry, modify_entry, add_outgoing}
use vndn.L3.{Env, State, Frame, Sent, Outcome, done, ◌>>=◌, send}
use vndn.L3.Invariant.{Ends}
use vndn.L3.Strategy.{
  is_incoming, is_exhausted, follow, green_loop, transmit, commit, propagate_via_green, eligible,
  not_red, flood, flood_interest, propagate_interest,
}

abbrev pub any : List ℕ → Bool
any [] = false
any (x ∷ xs) = true

-- The table after the faces taken were recorded as outgoing ones.
abbrev pub record_all : ℕ → Name → List ℕ → Pit → Pit
record_all now prefix [] pit = pit
record_all now prefix (face ∷ faces) pit =
    record_all now prefix faces (modify_entry prefix (add_outgoing now face) pit)

abbrev pub sent_to : Frame → ℕ → Sent
sent_to frame face = record { face = face; frame = frame; metadata = none }

abbrev pub is_green : FaceMetric → Bool
is_green m = elim m.status [ green ↦ true | yellow ↦ false | red ↦ false ]

abbrev pub is_red : FaceMetric → Bool
is_red m = elim m.status [ green ↦ false | yellow ↦ false | red ↦ true ]

-- The green metrics in front.
abbrev pub leading : List FaceMetric → List FaceMetric
leading [] = []
leading (m ∷ ms) = let rest = leading ms in if is_green m then m ∷ rest else []

-- The faces of metrics that pass a test.
abbrev pub faces_where : (FaceMetric → Bool) → List FaceMetric → List ℕ
faces_where p [] = []
faces_where p (m ∷ ms) = let rest = faces_where p ms in if p m then m.face ∷ rest else rest

-- The faces that a green choice is made of: those of the green metrics in front that the interest
-- did not come from and that have a retransmission left.
abbrev pub candidates : PitEntry → List FaceMetric → List ℕ
candidates e ms =
    faces_where (λ m. not (is_incoming m.face e) && not (is_exhausted m.face e)) (leading ms)

-- The faces to flood: those that are not red, or all, where no FIB entry matches.
abbrev pub floodable : List ℕ → Option FibEntry → List ℕ
floodable all none = all
floodable all (some entry) = faces_where (λ m. not (is_red m)) entry.faces

abbrev pub metrics_of : Option FibEntry → List FaceMetric
metrics_of none = []
metrics_of (some entry) = entry.faces

Status-cases : (s : Status) → (s ≡ green) ⊎ ((s ≡ yellow) ⊎ (s ≡ red))
Status-cases green = inl refl
Status-cases yellow = inr (inl refl)
Status-cases red = inr (inr refl)

module _ (env : Env) where
  -- The first face that is below its limit, asked in order.
  abbrev pub first_below : List ℕ → env.Limits → Option ℕ × env.Limits
  first_below [] limits = (none, limits)
  first_below (face ∷ faces) limits =
      let asked = env.is_below_limit face limits in
      let rest = first_below faces asked.1 in if asked.0 then (some face, asked.1) else rest

  -- All of them.
  abbrev pub all_below : List ℕ → env.Limits → List ℕ
  all_below [] limits = []
  all_below (face ∷ faces) limits =
      let asked = env.is_below_limit face limits in
      let rest = all_below faces asked.1 in if asked.0 then face ∷ rest else rest

  abbrev pub chosen : List ℕ → Option ℕ × env.Limits → List ℕ
  chosen others (some face, limits) = face ∷ []
  chosen others (none, limits) = all_below others limits

  -- Who gets an interest: the first candidate that is below its limit, or else, where there is none,
  -- all the faces to flood that are below theirs.
  abbrev pub recipients : List ℕ → PitEntry → Option FibEntry → env.Limits → List ℕ
  recipients all e target limits =
      chosen (floodable all target) (first_below (candidates e (metrics_of target)) limits)

  by_limit :
      (e : PitEntry) (face : ℕ) (limits : env.Limits) (loop : env.Limits → Option ℕ × env.Limits)
      (ms : List FaceMetric)
      → loop (env.is_below_limit face limits).1
        ≡ first_below (candidates e ms) (env.is_below_limit face limits).1
      → (if◌then◌else◌ {A = Option ℕ × env.Limits}
          (env.is_below_limit face limits).0
          (some face, (env.is_below_limit face limits).1)
          (loop (env.is_below_limit face limits).1))
        ≡ first_below (face ∷ candidates e ms) limits
  by_limit e face limits loop ms h = rw h refl

  green_loop-first_below :
      (ms : List FaceMetric) (e : PitEntry) (limits : env.Limits)
      → green_loop env ms e limits ≡ first_below (candidates e ms) limits
  unfolding green_loop
  green_loop-first_below [] e limits = refl
  green_loop-first_below (m ∷ ms) e limits =
      let skipped = green_loop-first_below ms e limits in
      let refused = green_loop-first_below ms e (env.is_below_limit m.face limits).1 in
      elim (Status-cases m.status) [
        | inl e1 ↦
            rw (e1, green_loop)
              (elim (Bool-cases (is_incoming m.face e)) [
                | inl i ↦ rw i skipped
                | inr i ↦ rw i (elim (Bool-cases (is_exhausted m.face e)) [
                  | inl x ↦ rw x skipped
                  | inr x ↦ rw x (by_limit e m.face limits (green_loop env ms e) ms refused)
                ])
              ])
        | inr stops ↦ elim stops [
          | inl e1 ↦ rw (e1, green_loop) refl
          | inr e1 ↦ rw (e1, green_loop) refl
        ]
      ]

  not_red-faces_where :
      (ms : List FaceMetric) → not_red env ms ≡ faces_where (λ m. not (is_red m)) ms
  unfolding not_red
  not_red-faces_where [] = refl
  not_red-faces_where (m ∷ ms) =
      let ih = not_red-faces_where ms in
      elim (Status-cases m.status) [
        | inl e ↦ rw (e, not_red) (ap (◌∷◌ m.face) ih)
        | inr stops ↦ elim stops [
          | inl e ↦ rw (e, not_red) (ap (◌∷◌ m.face) ih)
          | inr e ↦ rw (e, not_red) ih
        ]
      ]

  eligible-floodable :
      (all : List ℕ) (target : Option FibEntry) → eligible env all target ≡ floodable all target
  unfolding eligible
  eligible-floodable all none = refl
  eligible-floodable all (some entry) = not_red-faces_where entry.faces

module _ {env : Env} where
  -- The faces of a list got the frame, in order, were recorded as outgoing ones, and no other state
  -- changed but that of the limits.
  pub record Sends (now : ℕ) (prefix : Name) (frame : Frame) (st : State env) (taken : List ℕ)
      (r : State env × Bool) : Type 0 where
    pub sent : r.0.sent ≡ st.sent ++ map (sent_to frame) taken
    pub pit : r.0.pit ≡ record_all now prefix taken st.pit
    pub fib : r.0.fib ≡ st.fib
    pub store : r.0.store ≡ st.store
    pub nacks : r.0.nacks_enabled ≡ st.nacks_enabled
    pub success : r.1 ≡ any taken

  abbrev pub Propagated :
      ℕ → Name → Frame → State env → PitEntry → Option FibEntry → State env × Bool → Type 0
  Propagated now prefix frame st e target r =
      Sends now prefix frame st (recipients env st.faces e target st.limits) r

  module _ (now : ℕ) (prefix : Name) (frame : Frame) where
    flood-Sends :
        (faces : List ℕ) (st : State env)
        → Sends now prefix frame st
            (all_below env faces st.limits)
            (flood env now prefix frame faces st)
    unfolding flood transmit send
    flood-Sends [] st = record {
      sent = sym (append_empty st.sent);
      pit = refl;
      fib = refl;
      store = refl;
      nacks = refl;
      success = refl;
    }
    flood-Sends (face ∷ faces) st =
        by_limit' (asked.0) (flood-Sends faces st2) (flood-Sends faces st1)
      where
        asked : Bool × env.Limits
        asked = env.is_below_limit face st.limits

        st1 : State env
        st1 = record st { limits = asked.1 }

        st2 : State env
        st2 = transmit env now prefix frame face st1

        rest : List ℕ
        rest = all_below env faces asked.1

        by_limit' :
            (below : Bool)
            → Sends now prefix frame st2 rest (flood env now prefix frame faces st2)
            → Sends now prefix frame st1 rest (flood env now prefix frame faces st1)
            → Sends now prefix frame st (if below then face ∷ rest else rest) (
                if below
                then ((flood env now prefix frame faces st2).0, true)
                else flood env now prefix frame faces st1)
        by_limit' true r _ = record {
          sent = r.sent ∙ append_assoc st.sent (sent_to frame face ∷ []) (map (sent_to frame) rest);
          pit = r.pit;
          fib = r.fib;
          store = r.store;
          nacks = r.nacks;
          success = refl;
        }
        by_limit' false _ r = record {
          sent = r.sent;
          pit = r.pit;
          fib = r.fib;
          store = r.store;
          nacks = r.nacks;
          success = r.success;
        }

    flood_interest-flood :
        (st : State env) (e : PitEntry) (target : Option FibEntry)
        → find_entry prefix st.pit ≡ some e
        → follow st.fib e ≡ done target
        → flood_interest env now prefix frame st
          ≡ done (flood env now prefix frame (eligible env st.faces target) st)
    unfolding flood_interest
    flood_interest-flood st e target found points = simp (found, points) refl

    flooded-Sends :
        (st : State env) (limits : env.Limits) (e : PitEntry) (target : Option FibEntry)
        → find_entry prefix st.pit ≡ some e
        → follow st.fib e ≡ done target
        → Ends
            (Sends now prefix frame st (all_below env (floodable st.faces target) limits))
            (flood_interest env now prefix frame (record st { limits = limits }))
    flooded-Sends st limits e target found points =
        let st' : State env = record st { limits = limits } in
        let s =
          subst
            (λ l.
              Sends now prefix frame st' (all_below env l limits)
                (flood env now prefix frame (eligible env st.faces target) st'))
            (eligible-floodable env st.faces target)
            (flood-Sends (eligible env st.faces target) st') in
        subst (Ends (Sends now prefix frame st (all_below env (floodable st.faces target) limits)))
          (sym (flood_interest-flood st' e target found points))
          (record {
            sent = s.sent;
            pit = s.pit;
            fib = s.fib;
            store = s.store;
            nacks = s.nacks;
            success = s.success;
          })

    -- What the green faces lead to.
    abbrev green_result : State env → PitEntry → Option FibEntry → State env × Bool
    green_result st e none = (st, false)
    green_result st e (some entry) =
        commit env now prefix frame st (green_loop env entry.faces e st.limits)

    propagate_via_green-done :
        (st : State env) (e : PitEntry) (target : Option FibEntry)
        → find_entry prefix st.pit ≡ some e
        → follow st.fib e ≡ done target
        → propagate_via_green env now prefix frame st ≡ done (green_result st e target)
    unfolding propagate_via_green
    propagate_via_green-done st e none found points = simp (found, points) refl
    propagate_via_green-done st e (some entry) found points = simp (found, points) refl

    -- The rest of the flooding strategy.
    abbrev continue : State env × Bool → Outcome (State env × Bool)
    continue r = if r.1 then done (r.0, true) else flood_interest env now prefix frame r.0

    commit-Sends :
        (st : State env) (e : PitEntry) (target : Option FibEntry) (c : Option ℕ × env.Limits)
        → find_entry prefix st.pit ≡ some e
        → follow st.fib e ≡ done target
        → Ends
            (Sends now prefix frame st (chosen env (floodable st.faces target) c))
            (continue (commit env now prefix frame st c))
    unfolding commit transmit send
    commit-Sends st e target (none, limits) found points =
        flooded-Sends st limits e target found points
    commit-Sends st e target (some face, limits) found points = record {
      sent = refl;
      pit = refl;
      fib = refl;
      store = refl;
      nacks = refl;
      success = refl;
    }

    continue-Propagated :
        (st : State env) (e : PitEntry) (target : Option FibEntry)
        → find_entry prefix st.pit ≡ some e
        → follow st.fib e ≡ done target
        → Ends (Propagated now prefix frame st e target) (continue (green_result st e target))
    continue-Propagated st e none found points = flooded-Sends st st.limits e none found points
    continue-Propagated st e (some entry) found points =
        subst
          (λ c.
            Ends (Sends now prefix frame st (chosen env (floodable st.faces (some entry)) c))
              (continue (commit env now prefix frame st (green_loop env entry.faces e st.limits))))
          (green_loop-first_below env entry.faces e st.limits)
          (commit-Sends st e (some entry) (green_loop env entry.faces e st.limits) found points)

    -- The strategies on an entry whose pointer to the FIB can be followed. Of the green metrics in
    -- front of the FIB entry, the faces that the interest did not come from and that have a
    -- retransmission left are asked in order, and the first one below its limit alone gets the frame;
    -- where there is none, each of the faces that are not red, in the order of the metric (of all
    -- faces, where the entry has no FIB entry) gets it that is below its limit, asked in order after
    -- the others. Each is recorded in the entry; the answer is whether there was one. The
    -- FIB, the content store and the switch for NACKs stay.
    pub propagate_interest-Propagated :
        (st : State env) (e : PitEntry) (target : Option FibEntry)
        → find_entry prefix st.pit ≡ some e
        → follow st.fib e ≡ done target
        → Ends
            (Propagated now prefix frame st e target)
            (propagate_interest env now prefix frame st)
    unfolding propagate_interest
    propagate_interest-Propagated st e target found points =
        subst (λ m. Ends (Propagated now prefix frame st e target) (m >>= continue))
          (sym (propagate_via_green-done st e target found points))
          (continue-Propagated st e target found points)

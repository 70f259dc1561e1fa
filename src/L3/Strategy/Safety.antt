-- ===== src/L3/Strategy/Safety.antt =====
-- The strategies end, keep the invariant, and keep the PIT entry that they forward.
use vndn.Base.{ℕ, ◌≡◌, Bool, false, Option, none, some, List, [], ◌∷◌, inl, inr, Bool-cases}
use vndn.Fib.{FibEntry}
use vndn.Name.{Name}
use vndn.Pit.{PitEntry, find_entry, add_outgoing}
use vndn.Pit.Keeps.{add_outgoing-KeepsKeys}
use vndn.L3.{Env, State, Frame, send}
use vndn.L3.Strategy.{
  follow, green_loop, transmit, commit, propagate_via_green, eligible, flood, flood_interest,
  propagate_interest,
}
use vndn.L3.Invariant.{
  Ready, Ends, Ends-bind, IsTarget, follow-Ends, deref-Ends, pointer-of_entry, modify-Ready,
}

module _ {env : Env} (now : ℕ) (prefix : Name) (frame : Frame) where
  abbrev Still : State env × Bool → Type 0
  Still r = Ready prefix r.0

  limits-Ready :
      (st : State env) (l : env.Limits) → Ready prefix st → Ready prefix (record st { limits = l })
  limits-Ready st l r = record {
    valid = record {
      fib = r.valid.fib;
      pit = r.valid.pit;
      pointers = r.valid.pointers;
      store = r.valid.store;
    };
    entry = r.entry;
    found = r.found;
  }

  transmit-Ready :
      (face : ℕ) (st : State env)
      → Ready prefix st
      → Ready prefix (transmit env now prefix frame face st)
  unfolding transmit send
  transmit-Ready face st r =
      let r' =
        modify-Ready prefix (add_outgoing now face) (add_outgoing-KeepsKeys now face) prefix r in
      record {
        valid = record {
          fib = r'.valid.fib;
          pit = r'.valid.pit;
          pointers = r'.valid.pointers;
          store = r'.valid.store;
        };
        entry = r'.entry;
        found = r'.found;
      }

  pub flood-Ready :
      (faces : List ℕ) (st : State env)
      → Ready prefix st
      → Still (flood env now prefix frame faces st)
  unfolding flood
  flood-Ready [] st r = r
  flood-Ready (face ∷ faces) st r =
      let asked = env.is_below_limit face st.limits in
      let r' = limits-Ready st asked.1 r in
      let taken =
        flood-Ready faces (transmit env now prefix frame face (record st { limits = asked.1 }))
          (transmit-Ready face _ r') in
      let refused = flood-Ready faces (record st { limits = asked.1 }) r' in
      elim (Bool-cases asked.0) [ inl yes' ↦ rw yes' taken | inr no' ↦ rw no' refused ]

  commit-Ready :
      (st : State env) (c : Option ℕ × env.Limits)
      → Ready prefix st
      → Still (commit env now prefix frame st c)
  unfolding commit
  commit-Ready st (none, l) r = limits-Ready st l r
  commit-Ready st (some face, l) r = transmit-Ready face _ (limits-Ready st l r)

  pointer-Ends :
      (st : State env) (e : PitEntry)
      → Ready prefix st
      → find_entry prefix st.pit ≡ some e
      → Ends (IsTarget st.fib) (follow st.fib e)
  pointer-Ends st e r found = follow-Ends st.fib e (pointer-of_entry prefix r.valid e found)

  propagate_via_green-Ends :
      (st : State env) → Ready prefix st → Ends Still (propagate_via_green env now prefix frame st)
  unfolding propagate_via_green
  propagate_via_green-Ends st r =
      Ends-bind (λ e. find_entry prefix st.pit ≡ some e) Still _ _ (deref-Ends r)
        λ e found.
          Ends-bind (IsTarget st.fib) Still _ _ (pointer-Ends st e r found)
            λ target _. finish e target
    where
      finish :
          (e : PitEntry) (target : Option FibEntry)
          → Still (elim target [
            | none ↦ (st, false)
            | some entry ↦ commit env now prefix frame st (green_loop env entry.faces e st.limits)
          ])
      finish e none = r
      finish e (some entry) = commit-Ready st _ r

  flood_interest-Ends :
      (st : State env) → Ready prefix st → Ends Still (flood_interest env now prefix frame st)
  unfolding flood_interest
  flood_interest-Ends st r =
      Ends-bind (λ e. find_entry prefix st.pit ≡ some e) Still _ _ (deref-Ends r)
        λ e found.
          Ends-bind (IsTarget st.fib) Still _ _ (pointer-Ends st e r found)
            λ target _. flood-Ready (eligible env st.faces target) st r

  -- `PropagateInterest` ends, whatever the limits of the faces, and the entry is still there.
  pub propagate_interest-Ends :
      (st : State env) → Ready prefix st → Ends Still (propagate_interest env now prefix frame st)
  unfolding propagate_interest
  propagate_interest-Ends st r =
      Ends-bind Still Still _ _ (propagate_via_green-Ends st r) λ (st', green_ok) r'.
        elim (Bool-cases green_ok) [
          | inl ok ↦ rw ok r'
          | inr missed ↦ rw missed (flood_interest-Ends st' r')
        ]

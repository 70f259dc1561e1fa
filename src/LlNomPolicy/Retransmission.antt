-- ===== src/LlNomPolicy/Retransmission.antt =====
-- The retransmissions of network/mac/ll-nom-policy.cc come to an end: each call of
-- `getPktForRetransmission` sends one of the transmissions that are left, and when none is left the
-- storage is empty.
use vndn.Base.{
  ℕ, ◌+◌, ◌-◌, ◌^◌, ◌≤◌, ◌<◌, ◌≡◌, refl, sym, ◌∙◌, ap, subst, true, leb, leb→le, Option, none, some,
  List, [], ◌∷◌, All, length, inl, inr, Bool-cases, arith,
}
use vndn.Base.Keyed
use vndn.Base.Sorted.{reposition}
use vndn.Base.Reposition.{All-reposition}
use vndn.Base.Total.{total, total-reposition}
use vndn.Name.Compare.{Component-discrete}
use vndn.PacketStorage.{
  Element, name_of, get_first_deadline, get_pkt_by_key, delete_first_pkt, replace,
  increase_and_set_timer, increase_retransmission_counter_and_set_new_timer,
}
use vndn.LlNomPolicy.{
  NomEnv, NomState, Stored, calculate_next_timer, update_ll_header_coordinates,
  get_pkt_for_retransmission,
}

module _ {Ack Geo : Type 0} where
  -- the transmissions of an element that are left
  unfoldable pub left_of : Element Ack Geo → ℕ
  left_of e = e.retransmission_limit - e.retransmission + 1

  unfoldable pub left : List (Element Ack Geo) → ℕ
  left = total left_of

  -- The limit fits the counter.
  abbrev pub Fits : Element Ack Geo → Type 0
  Fits e = e.retransmission_limit < 2 ^ 32

  pub first-found :
      (e : Element Ack Geo) (storage : List (Element Ack Geo))
      → get_pkt_by_key e.name (e ∷ storage) ≡ some e
  unfolding get_pkt_by_key Keyed.find
  first-found e storage = ground arith

  left-increase :
      (e : Element Ack Geo) (t : ℕ × ℕ)
      → e.retransmission < e.retransmission_limit
      → Fits e
      → left_of (increase_and_set_timer t e) + 1 ≡ left_of e
  unfolding left_of increase_and_set_timer
  left-increase e t h k = omega arith

  pub delete_first_pkt-own :
      (e : Element Ack Geo) (storage : List (Element Ack Geo))
      → delete_first_pkt e.name (e ∷ storage) ≡ (storage, true)
  unfolding delete_first_pkt
  delete_first_pkt-own e storage = ground arith

  delete_last :
      (e : Element Ack Geo) (storage : List (Element Ack Geo))
      → e.retransmission_limit ≤ e.retransmission
      → left (delete_first_pkt e.name (e ∷ storage)).0 + 1 ≡ left (e ∷ storage)
  unfolding left left_of total
  delete_last e storage h = omega (arith, ap (λ r. left r.0) (delete_first_pkt-own e storage))

module _ (env : NomEnv) where
  -- The packet that is due is sent, with this place's coordinates, and one transmission less is left.
  abbrev pub SendsFirst :
      env.Location → Stored env → List (Stored env) → NomState env × Option (List ℕ) → Type 0
  SendsFirst location e storage r =
      (r.1 ≡ some (update_ll_header_coordinates env e.bytes location))
      × (left r.0.storage + 1 ≡ left (e ∷ storage))

  pub increased :
      (now : ℕ × ℕ) (e : Stored env) (storage : List (Stored env))
      → increase_retransmission_counter_and_set_new_timer env.deadlines e.name
          (calculate_next_timer now)
          (e ∷ storage)
        ≡ (
          reposition env.deadlines Component-discrete name_of e.name
              (increase_and_set_timer (calculate_next_timer now))
              (e ∷ storage),
          true,
        )
  unfolding increase_retransmission_counter_and_set_new_timer replace
  increased now e storage = rw (first-found e storage, replace) refl

  left-increased :
      (t : ℕ × ℕ) (e : Stored env) (storage : List (Stored env))
      → e.retransmission < e.retransmission_limit
      → Fits e
      → left (
            reposition env.deadlines Component-discrete name_of e.name
              (increase_and_set_timer t)
              (e ∷ storage))
          + 1
        ≡ left (e ∷ storage)
  unfolding left
  left-increased t e storage h k = omega (
    arith,
    total-reposition left_of Component-discrete name_of env.deadlines e.name
        (increase_and_set_timer t) (e ∷ storage) e (unfold get_pkt_by_key in first-found e storage),
    left-increase e t h k,
  )

  pub get_pkt-sends :
      (now : ℕ × ℕ) (location : env.Location) (upper : env.Upper) (e : Stored env)
      (storage : List (Stored env))
      → Fits e
      → SendsFirst location e storage (
          get_pkt_for_retransmission env now location
            (record { storage = e ∷ storage; upper = upper }))
  unfolding get_pkt_for_retransmission get_first_deadline
  get_pkt-sends now location upper e storage k =
      elim (Bool-cases (leb e.retransmission_limit e.retransmission)) [
        | inl h ↦ rw (h, get_pkt_for_retransmission) (refl, delete_last e storage (leb→le _ _ h))
        | inr h ↦
            rw (h, get_pkt_for_retransmission, increased now e storage)
              (refl, left-increased (calculate_next_timer now) e storage (ground arith) k)
      ]

  Fits-increased :
      (t : ℕ × ℕ) (l : List (Stored env)) (k : List ℕ)
      → All Fits l
      → All Fits
          (reposition env.deadlines Component-discrete name_of k (increase_and_set_timer t) l)
  Fits-increased t l k h =
      All-reposition env.deadlines Component-discrete name_of k (increase_and_set_timer t)
        (λ e. unfold increase_and_set_timer in refl) Fits l
        (λ e f. unfold increase_and_set_timer in f) h

  get_pkt-Fits :
      (now : ℕ × ℕ) (location : env.Location) (upper : env.Upper) (e : Stored env)
      (storage : List (Stored env))
      → All Fits (e ∷ storage)
      → All Fits
          (get_pkt_for_retransmission env now location
            (record { storage = e ∷ storage; upper = upper })).0.storage
  unfolding get_pkt_for_retransmission get_first_deadline
  get_pkt-Fits now location upper e storage h =
      elim (Bool-cases (leb e.retransmission_limit e.retransmission)) [
        | inl b ↦
            rw (b, get_pkt_for_retransmission)
              (subst (λ r. All Fits r.0) (sym (delete_first_pkt-own e storage)) h.1)
        | inr b ↦
            rw (b, get_pkt_for_retransmission, increased now e storage)
              (Fits-increased (calculate_next_timer now) (e ∷ storage) e.name h)
      ]

  -- The calls that the device adapter makes at the deadlines, with no other event between them: the
  -- state after them, and how many packets they sent.
  unfoldable pub calls : List ((ℕ × ℕ) × env.Location) → NomState env → NomState env × ℕ
  calls [] st = (st, 0)
  calls ((now, location) ∷ rest) st =
      let (st', out) = get_pkt_for_retransmission env now location st in
      let (end, sent) = calls rest st' in (end, elim out [ none ↦ sent | some _ ↦ sent + 1 ])

  left-cons : (e : Stored env) (storage : List (Stored env)) → 0 < left (e ∷ storage)
  unfolding left total left_of
  left-cons e storage = omega arith

  drained :
      (times : List ((ℕ × ℕ) × env.Location)) (storage : List (Stored env)) (upper : env.Upper)
      → All Fits storage
      → length times ≡ left storage
      → ((calls times (record { storage = storage; upper = upper })).0.storage ≡ [])
        × ((calls times (record { storage = storage; upper = upper })).1 ≡ length times)
  unfolding calls left total
  drained [] [] upper h n = (refl, refl)
  drained [] (e ∷ storage) upper h n = absurd (omega (arith, left-cons e storage))
  drained (t ∷ rest) [] upper h n = absurd (omega arith)
  drained ((now, location) ∷ rest) (e ∷ storage) upper h n =
      let st : NomState env = record { storage = e ∷ storage; upper = upper } in
      let r = get_pkt_for_retransmission env now location st in
      let (out, fewer) = get_pkt-sends now location upper e storage h.0 in
      let (empty, sent) =
        drained rest r.0.storage r.0.upper (get_pkt-Fits now location upper e storage h)
          (omega (arith, fewer)) in
      (
        empty,
        ap (λ o. elim o [ none ↦ (calls rest r.0).1 | some _ ↦ (calls rest r.0).1 + 1 ]) out
            ∙ omega (arith, sent),
      )

  -- Where all limits fit the counter, as many calls as transmissions are left send a packet each,
  -- whatever the times and places, and leave the storage empty.
  pub calls-empty :
      (times : List ((ℕ × ℕ) × env.Location)) (st : NomState env)
      → All Fits st.storage
      → length times ≡ left st.storage
      → ((calls times st).0.storage ≡ []) × ((calls times st).1 ≡ length times)
  calls-empty times st h n = drained times st.storage st.upper h n

-- ===== src/Pit/Entry.antt =====
-- NDNPitEntry: faces stand once and in order, and what each operation does to them.
use vndn.Base.{
  ℕ, ◌≡◌, refl, ◌↔◌, true, ◌||◌, none, some, List, [], ◌∷◌, ◌==◌, if◌then◌else◌, ℕ_discrete, All,
  arith, Option-cases, inl, inr,
}
use vndn.Base.Keyed.{find-modify_self, find-modify_ne, find-erase_self, find-erase_ne}
use vndn.Base.Ascending.{
  IsAscending, insert, insert-IsAscending, find-insert_self, find-insert_ne, erase-IsAscending,
  modify-IsAscending, IsAscending-Distinct,
}
use vndn.Pit.{
  PitEntry, OutgoingFace, in_face, out_face, outgoing_face, find_incoming, find_outgoing,
  update_on_retransmit, update_lifetime, set_expire_time, contains, is_nonce_seen, add_seen_nonce,
  add_incoming, remove_incoming, clear_incoming, add_outgoing, clear_outgoing,
  remove_all_references_to_face, in_vain, set_waiting_in_vain, all_in_vain, pit_entry,
}
use mathlib.Core.Option

-- The containers of an entry: in the order of the faces and of the nonces, each once.
pub record IsValidEntry (e : PitEntry) : Type 0 where
  pub nonces : IsAscending (λ n. n) e.seen_nonces
  pub incoming : IsAscending in_face e.incoming
  pub outgoing : IsAscending out_face e.outgoing

pub pit_entry-IsValid :
    (now : ℕ) (prefix : _) (lifetime : ℕ) (fib_entry : _)
    → IsValidEntry (pit_entry now prefix lifetime fib_entry)
unfolding pit_entry
pit_entry-IsValid now prefix lifetime fib_entry = record {
  nonces = tt;
  incoming = tt;
  outgoing = tt;
}

face-update_on_retransmit :
    (now : ℕ) (o : OutgoingFace) → (update_on_retransmit now o).face ≡ o.face
unfolding update_on_retransmit
face-update_on_retransmit now o = refl

module _ (e : PitEntry) (v : IsValidEntry e) where
  pub add_seen_nonce-IsValid : (nonce : ℕ) → IsValidEntry (add_seen_nonce nonce e)
  unfolding add_seen_nonce
  add_seen_nonce-IsValid nonce = record {
    nonces = insert-IsAscending (λ n. n) nonce e.seen_nonces v.nonces;
    incoming = v.incoming;
    outgoing = v.outgoing;
  }

  pub add_incoming-IsValid : (now face : ℕ) → IsValidEntry (add_incoming now face e)
  unfolding add_incoming
  add_incoming-IsValid now face = record {
    nonces = v.nonces;
    incoming = insert-IsAscending in_face _ e.incoming v.incoming;
    outgoing = v.outgoing;
  }

  pub remove_incoming-IsValid : (face : ℕ) → IsValidEntry (remove_incoming face e)
  unfolding remove_incoming
  remove_incoming-IsValid face = record {
    nonces = v.nonces;
    incoming = erase-IsAscending in_face face e.incoming v.incoming;
    outgoing = v.outgoing;
  }

  pub remove_all_references-IsValid :
      (face : ℕ) → IsValidEntry (remove_all_references_to_face face e)
  unfolding remove_all_references_to_face
  remove_all_references-IsValid face = record {
    nonces = v.nonces;
    incoming = erase-IsAscending in_face face e.incoming v.incoming;
    outgoing = erase-IsAscending out_face face e.outgoing v.outgoing;
  }

  pub set_waiting_in_vain-IsValid : (face : ℕ) → IsValidEntry (set_waiting_in_vain face e)
  unfolding set_waiting_in_vain
  set_waiting_in_vain-IsValid face = record {
    nonces = v.nonces;
    incoming = v.incoming;
    outgoing = modify-IsAscending out_face face in_vain (λ o. refl) e.outgoing v.outgoing;
  }

  pub add_outgoing-IsValid : (now face : ℕ) → IsValidEntry (add_outgoing now face e)
  unfolding add_outgoing
  add_outgoing-IsValid now face = elim (Option-cases (find_outgoing face e)) [
    | inl missing ↦
        rw (missing, add_outgoing)
          (record {
            nonces = v.nonces;
            incoming = v.incoming;
            outgoing = insert-IsAscending out_face _ e.outgoing v.outgoing;
          })
    | inr (o, found) ↦
        rw (found, add_outgoing)
          (record {
            nonces = v.nonces;
            incoming = v.incoming;
            outgoing =
                modify-IsAscending out_face face (update_on_retransmit now)
                  (face-update_on_retransmit now) e.outgoing v.outgoing;
          })
  ]

  pub clear-IsValid :
      (time : ℕ) → IsValidEntry (set_expire_time time (clear_outgoing (clear_incoming e)))
  unfolding set_expire_time clear_outgoing clear_incoming
  clear-IsValid time = record { nonces = v.nonces; incoming = tt; outgoing = tt }

  pub update_lifetime-IsValid : (now offset : ℕ) → IsValidEntry (update_lifetime now offset e)
  unfolding update_lifetime
  update_lifetime-IsValid now offset = ground arith

  -- An interest sent on a face is recorded there: as new, with no retransmission, or as one
  -- retransmission more; the records of other faces stay.
  pub find_outgoing-add_outgoing :
      (now face other : ℕ)
      → find_outgoing other (add_outgoing now face e) ≡ (
          if other == face
          then some (
              Option.get_or
                (Option.map (update_on_retransmit now) (find_outgoing face e))
                (outgoing_face now face))
          else find_outgoing other e)
  unfolding add_outgoing
  find_outgoing-add_outgoing now face other = ground (
    arith,
    find-insert_self out_face (outgoing_face now face) e.outgoing,
    find-insert_ne out_face other (outgoing_face now face) e.outgoing,
    find-modify_self ℕ_discrete out_face face (update_on_retransmit now)
        (face-update_on_retransmit now) e.outgoing,
    find-modify_ne ℕ_discrete out_face face (update_on_retransmit now)
        (face-update_on_retransmit now) other e.outgoing,
  )

  -- After its removal a face is in neither container; other faces stay.
  pub find-remove_all_references :
      (face other : ℕ)
      → (find_incoming other (remove_all_references_to_face face e)
          ≡ (if other == face then none else find_incoming other e))
        × (find_outgoing other (remove_all_references_to_face face e)
            ≡ (if other == face then none else find_outgoing other e))
  unfolding remove_all_references_to_face
  find-remove_all_references face other = (
    ground (
      arith,
      find-erase_self ℕ_discrete in_face face e.incoming
          (IsAscending-Distinct in_face e.incoming v.incoming),
      find-erase_ne ℕ_discrete in_face face other e.incoming,
    ),
    ground (
      arith,
      find-erase_self ℕ_discrete out_face face e.outgoing
          (IsAscending-Distinct out_face e.outgoing v.outgoing),
      find-erase_ne ℕ_discrete out_face face other e.outgoing,
    ),
  )

contains-insert :
    (n m : ℕ) (l : List ℕ) → contains m (insert (λ k. k) n l) ≡ (n == m || contains m l)
unfolding contains insert
contains-insert n m [] = refl
contains-insert n m (x ∷ l) = ground (arith, contains-insert n m l)

-- A nonce is seen once it is added, and no other nonce is.
pub is_nonce_seen-add :
    (nonce other : ℕ) (e : PitEntry)
    → is_nonce_seen other (add_seen_nonce nonce e) ≡ (nonce == other || is_nonce_seen other e)
unfolding is_nonce_seen add_seen_nonce
is_nonce_seen-add nonce other e = contains-insert nonce other e.seen_nonces

all_in_vain_iff :
    (l : List OutgoingFace) → (all_in_vain l ≡ true) ↔ All (λ o. o.waiting_in_vain ≡ true) l
unfolding all_in_vain
all_in_vain_iff [] = ((λ _. tt), (λ _. refl))
all_in_vain_iff (o ∷ l) =
    let (f, g) = all_in_vain_iff l in
    ((λ h. (ground arith, f (ground arith))), (λ (p, h). ground (arith, g h)))

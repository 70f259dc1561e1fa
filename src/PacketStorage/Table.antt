-- ===== src/PacketStorage/Table.antt =====
-- The table of network/mac/packet-storage.cc stays in the order of its timers, with unique keys and
-- unique names.
use vndn.Base.{
  ℕ, ◌≡◌, true, false, none, List, [], ◌∷◌, All, inl, inr, Option-cases, length, ite, Bool,
}
use vndn.Base.Keyed
use vndn.Base.Keyed.{Distinct, NoKey}
use vndn.Base.TwoKeys.{Distinct-erase_other, Distinct-reposition_other}
use vndn.Base.Sorted.{
  OrderedIndex, insert_at, reposition, IsSorted, insert_at-IsSorted, All-insert_at,
  Distinct-insert_at, IsSorted-erase,
}
use vndn.Base.Reposition.{reposition-IsSorted, Distinct-reposition}
use vndn.Name.Compare.{Component-discrete, Name-discrete}
use vndn.PacketStorage.{
  Element, timer_le, name_of, components_of, get_pkt_by_key, find_components, delete_pkt_by_key,
  delete_first_pkt, insert_pkt, replace,
}

module _ {Ack Geo : Type 0} where
  pub record IsValid (storage : List (Element Ack Geo)) : Type 0 where
    pub sorted : IsSorted timer_le storage
    pub keys : Distinct name_of storage
    pub names : Distinct components_of storage

  pub delete_pkt_by_key-IsValid :
      (key : List ℕ) (storage : List (Element Ack Geo))
      → IsValid storage
      → IsValid (delete_pkt_by_key key storage).0
  unfolding delete_pkt_by_key
  delete_pkt_by_key-IsValid key storage v = elim (Option-cases (get_pkt_by_key key storage)) [
    | inl e ↦ rw (e, delete_pkt_by_key) v
    | inr (x, e) ↦ rw (e, delete_pkt_by_key) erased
  ]
    where
      erased : IsValid (Keyed.erase Component-discrete name_of key storage)
      erased = record {
        sorted = IsSorted-erase Component-discrete name_of timer_le key storage v.sorted;
        keys = Keyed.Distinct-erase Component-discrete name_of key storage v.keys;
        names = Distinct-erase_other Component-discrete name_of components_of key storage v.names;
      }

  pub delete_first_pkt-IsValid :
      (key : List ℕ) (storage : List (Element Ack Geo))
      → IsValid storage
      → IsValid (delete_first_pkt key storage).0
  unfolding delete_first_pkt
  delete_first_pkt-IsValid key [] v = v
  delete_first_pkt-IsValid key (e ∷ storage) v =
      elim (Component-discrete e.name key)
        as (λ d.
          IsValid
            (ite {C = List (Element Ack Geo) × Bool} d (storage, true) (e ∷ storage, false)).0) [
              | yes q ↦ record { sorted = v.sorted.1; keys = v.keys.1; names = v.names.1 }
              | no q ↦ v
            ]

  module _ (deadlines : OrderedIndex (timer_le {Ack = Ack} {Geo = Geo})) where
    pub insert_pkt-IsValid :
        (e : Element Ack Geo) (storage : List (Element Ack Geo))
        → IsValid storage
        → IsValid (insert_pkt deadlines e storage).0
    unfolding insert_pkt
    insert_pkt-IsValid e storage v = elim (Option-cases (get_pkt_by_key e.name storage)) [
      | inr (x, f) ↦ rw (f, insert_pkt) v
      | inl f ↦ elim (Option-cases (find_components storage e.components)) [
        | inr (x, g) ↦ rw (f, insert_pkt) (rw (g, insert_pkt) v)
        | inl g ↦ rw (f, insert_pkt) (rw (g, insert_pkt) (inserted f g))
      ]
    ]
      where
        inserted :
            get_pkt_by_key e.name storage ≡ none
            → find_components storage e.components ≡ none
            → IsValid (insert_at deadlines (length storage) e storage)
        inserted f g = record {
          sorted = insert_at-IsSorted deadlines _ e storage v.sorted;
          keys =
              Distinct-insert_at Component-discrete name_of deadlines _ e storage
                (Keyed.find-eq-none Component-discrete name_of e.name storage
                  (unfold get_pkt_by_key in f))
                v.keys;
          names =
              Distinct-insert_at Name-discrete components_of deadlines _ e storage
                (Keyed.find-eq-none Name-discrete components_of e.components storage
                  (unfold find_components in g))
                v.names;
        }

    pub All-insert_pkt :
        (P : Element Ack Geo → Type 0) (e : Element Ack Geo) (storage : List (Element Ack Geo))
        → P e
        → All P storage
        → All P (insert_pkt deadlines e storage).0
    unfolding insert_pkt
    All-insert_pkt P e storage p h = elim (Option-cases (get_pkt_by_key e.name storage)) [
      | inr (x, f) ↦ rw (f, insert_pkt) h
      | inl f ↦ elim (Option-cases (find_components storage e.components)) [
        | inr (x, g) ↦ rw (f, insert_pkt) (rw (g, insert_pkt) h)
        | inl g ↦
            rw (f, insert_pkt) (rw (g, insert_pkt) (All-insert_at deadlines P _ e storage p h))
      ]
    ]

    pub replace-IsValid :
        (key : List ℕ) (f : Element Ack Geo → Element Ack Geo) (storage : List (Element Ack Geo))
        → ((e : Element Ack Geo) → (f e).name ≡ e.name)
        → ((e : Element Ack Geo) → (f e).components ≡ e.components)
        → IsValid storage
        → IsValid (replace deadlines key f storage).0
    unfolding replace
    replace-IsValid key f storage same_name same_components v =
        elim (Option-cases (get_pkt_by_key key storage)) [
          | inl e ↦ rw (e, replace) v
          | inr (x, e) ↦ rw (e, replace) replaced
        ]
      where
        replaced : IsValid (reposition deadlines Component-discrete name_of key f storage)
        replaced = record {
          sorted =
              reposition-IsSorted deadlines Component-discrete name_of key f same_name storage
                v.sorted;
          keys =
              Distinct-reposition deadlines Component-discrete name_of key f same_name storage
                v.keys;
          names =
              Distinct-reposition_other Component-discrete name_of components_of deadlines key f
                storage Name-discrete same_components v.names;
        }

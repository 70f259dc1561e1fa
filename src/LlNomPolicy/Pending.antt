-- ===== src/LlNomPolicy/Pending.antt =====
-- Content that satisfies pending interests, in network/mac/ll-nom-policy.cc.
use vndn.Base.{ℕ, ◌≤◌, ◌<◌, ◌≡◌, refl, none, some, List, ◌∷◌, length, take}
use vndn.Base.Outcome.{done, undefined}
use vndn.Name.{Name}
use vndn.PacketStorage.{get_pkt_by_key, find_components, search_by_prefix_match}
use vndn.PacketStorage.Search.{search_by_prefix_match-two}
use vndn.LlNomPolicy.{
  NomEnv, Stored, LlHeader, go_up_layer, content_from_network, content_acknowledged,
  satisfy_interests, append_components, data_key,
}

module _ (env : NomEnv) where
  many_matches :
      (x y : Stored env) (l matching storage : List (Stored env))
      → matching ≡ x ∷ y ∷ l
      → satisfy_interests env matching storage ≡ undefined
  unfolding satisfy_interests
  many_matches x y l matching storage e = rw e refl

  not_stored :
      (header : LlHeader) (key : List ℕ) (location : env.Location) (storage : List (Stored env))
      → get_pkt_by_key key storage ≡ none
      → content_acknowledged env header key location storage ≡ done (storage, go_up_layer)
  unfolding content_acknowledged
  not_stored header key location storage e = rw (e, content_acknowledged) refl

  -- Content from the network, which is not stored itself, for a name two prefixes of which are
  -- stored: after the first deletion the loop reads the deleted element.
  pub content_from_network-undefined :
      (header : LlHeader) (name : Name) (location : env.Location) (storage : List (Stored env))
      (m n : ℕ) (e f : Stored env)
      → get_pkt_by_key (append_components data_key name) storage ≡ none
      → m < n
      → n ≤ length name
      → find_components storage (take m name) ≡ some e
      → find_components storage (take n name) ≡ some f
      → content_from_network env header name location storage ≡ undefined
  unfolding content_from_network
  content_from_network-undefined header name location storage m n e f absent lt h found_e found_f =
      let (x, y, l, two) = search_by_prefix_match-two m n name storage e f lt h found_e found_f in
      rw (not_stored header (append_components data_key name) location storage absent)
        (rw (many_matches x y l (search_by_prefix_match name storage) storage two) refl)

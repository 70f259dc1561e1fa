-- ===== src/Tests/Forwarder.antt =====
-- The theorems on the forwarder, applied to concrete states.
use vndn.Base.{ℕ, ◌≡◌, ◌≢◌, ◌↔◌, refl, true, false, none, some, List, [], ◌∷◌, ◌++◌, All, arith}
use vndn.Fib
use vndn.Fib.Table.{IsLast}
use vndn.Pit.{
  set_waiting_in_vain, lookup_interest, find_outgoing, longest_prefix_match, is_nonce_seen,
  contains,
}
use vndn.Name.Prefix
use vndn.L3.Protocol.Fresh.{Fresh, on_interest-Fresh}
use vndn.Header.{InterestHeader}
use vndn.L3.Protocol.Served.{Served}
use vndn.L3.Protocol.Nacks.{Retried, on_nack-Retried}
use vndn.L3.Strategy.{follow, propagate_interest}
use vndn.L3.Strategy.Choice.{Propagated, propagate_interest-Propagated}
use vndn.L3.{Env, other_layer, whole, done, raised, undefined}
use vndn.L3.Faces.{remove_face, unregister}
use vndn.L3.Faces.Dangling.{unregister-on_data}
use vndn.L3.Faces.Safety.{remove_face-Ends}
use vndn.L3.Invariant.{IsValid, Ends}
use vndn.L3.Protocol.{on_interest, on_data, on_nack, interest_packet}
use vndn.L3.Protocol.Delivery.{Answered, on_data-Answered}
use vndn.L3.Protocol.Interests.{loop_nack, on_interest-duplicate}
use vndn.L3.Protocol.Unnamed.{handlers-raised}
use vndn.ContentStore
use vndn.Name.{Name}
use vndn.L3.Caching.{with_content_store}
use vndn.L3.Run.{Event, packet}
use vndn.Tests.Data.{
  timers, name_c, one_packet, waiting, waiting-IsValid, pending, entry_a, find_entry-pit,
  find_prefix-table, name_a, name_ab, bytes, asking, answering, table, pit, table-IsValid,
}

on_data-Answered_example :
    Ends
      (Answered (waiting none) name_ab bytes pending (find_outgoing 2 pending))
      (on_data (one_packet none) 2 (answering name_ab) bytes (waiting none))
on_data-Answered_example =
    on_data-Answered 2 (answering name_ab) bytes (waiting none) name_ab pending refl
      (waiting-IsValid none) find_entry-pit

matched : longest_prefix_match name_ab pit ≡ some pending
unfolding longest_prefix_match
matched = Prefix.longest_prefix_match_exact _ name_ab pending find_entry-pit

seen : is_nonce_seen 5 pending ≡ true
unfolding is_nonce_seen contains
seen = refl

on_interest-duplicate_example :
    Ends
      (λ st'. st'.sent ≡ [] ++ loop_nack true 3 (asking name_ab 5))
      (on_interest (one_packet none) 20 3 (asking name_ab 5) bytes (waiting none))
on_interest-duplicate_example =
    on_interest-duplicate 20 3 (asking name_ab 5) bytes (waiting none) name_ab pending 0 refl
      (waiting-IsValid none) matched seen refl

handlers-raised_example :
    ((some name_ab) ≢ some []
      → ((on_interest (one_packet none) 20 3 (asking name_ab 5) bytes (waiting none) ≡ raised)
          ↔ (some name_ab ≡ none)))
    × ((on_nack (one_packet none) 20 3 (asking name_ab 5) (waiting none) ≡ raised)
        ↔ (some name_ab ≡ none))
    × ((on_data (one_packet none) 3 (answering name_ab) bytes (waiting none) ≡ raised)
        ↔ (some name_ab ≡ none))
handlers-raised_example =
    handlers-raised (waiting none) (waiting-IsValid none) 20 3 (asking name_ab 5)
      (answering name_ab) bytes

-- the forwarder with the daemon's content store, and an interest from another link layer
abbrev with_store : Env
with_store = with_content_store (one_packet none)

abbrev arrival : Event
arrival =
    packet 20 3 (interest_packet (asking name_ab 5))
      (record { raw = 1 ∷ 2 ∷ []; metadata = some other_layer })

kept : All (λ e. ¬ (IsLast 3 e)) table
unfolding vndn.Fib.remove_face vndn.Base.Keyed.erase vndn.Base.ℕ_discrete
kept = ((λ h. omega arith), ((λ h. omega arith), tt))

remove_face-Ends_example : Ends IsValid (remove_face (one_packet none) 3 (waiting none))
remove_face-Ends_example = remove_face-Ends (waiting none) (waiting-IsValid none) 3 kept

last : IsLast 2 entry_a
unfolding vndn.Fib.remove_face vndn.Base.Keyed.erase vndn.Base.ℕ_discrete
last = refl

sent :
    find_outgoing 2 pending
    ≡ some (record { face = 2; send_time = 11; retx_count = 0; waiting_in_vain = false })
unfolding vndn.Base.Keyed.find vndn.Base.ℕ_discrete
sent = refl

unregister-on_data_example :
    on_data
      (one_packet none)
      2
      (answering name_ab)
      bytes
      (unregister (one_packet none) name_a 2 (waiting none))
    ≡ undefined
unregister-on_data_example =
    unregister-on_data name_a name_ab 2 2 (waiting none) entry_a pending
      (record { face = 2; send_time = 11; retx_count = 0; waiting_in_vain = false })
      (answering name_ab) bytes table-IsValid (find_prefix-table.0) last find_entry-pit refl sent
      refl

found : follow table pending ≡ done (some entry_a)
unfolding follow vndn.Fib.find_prefix vndn.Base.Keyed.find vndn.Name.Compare.Name-discrete
    vndn.Base.Bool-cases vndn.Name.name_eq vndn.Name.equal_components vndn.Name.equal_bytes
found = refl

propagate_interest-Propagated_example :
    Ends
      (Propagated 20 name_ab (whole bytes) (waiting none) pending (some entry_a))
      (propagate_interest (one_packet none) 20 name_ab (whole bytes) (waiting none))
propagate_interest-Propagated_example =
    propagate_interest-Propagated 20 name_ab (whole bytes) (waiting none) pending (some entry_a)
      find_entry-pit found

fresh : (lookup_interest timers 20 name_c 9 50 table pit).1.is_duplicate ≡ false
unfolding lookup_interest longest_prefix_match Prefix.longest_prefix_match Prefix.match_loop
    vndn.Name.get_sub_components vndn.Base.Keyed.find vndn.Name.Compare.Name-discrete
    vndn.Base.Bool-cases vndn.Name.name_eq vndn.Name.equal_components vndn.Name.equal_bytes
fresh = refl

on_interest-Fresh_example :
    Ends
      (Fresh 20 1 (asking name_c 9) bytes name_c (waiting none))
      (on_interest (one_packet none) 20 1 (asking name_c 9) bytes (waiting none))
on_interest-Fresh_example =
    on_interest-Fresh 20 1 (asking name_c 9) bytes (waiting none) name_c 0 refl
      (waiting-IsValid none) fresh refl

abbrev loop : InterestHeader
loop = record (asking name_ab 5) { nack_type = 10 }

on_nack-Retried_example :
    Ends
      (Retried 2 loop (waiting none) (set_waiting_in_vain 2 pending))
      (on_nack (one_packet none) 20 2 loop (waiting none))
on_nack-Retried_example =
    on_nack-Retried 20 2 loop (waiting none) name_ab pending
      (record { face = 2; send_time = 11; retx_count = 0; waiting_in_vain = false }) refl refl
      (waiting-IsValid none) matched seen sent

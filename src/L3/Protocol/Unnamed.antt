-- ===== src/L3/Protocol/Unnamed.antt =====
-- A packet without a name (daemon/ndn-l3-protocol.cc): the exception InterestHeaderException or
-- ContentObjectHeaderException leaves `Receive`, which catches only NDNUnknownHeaderException.
use vndn.Base.{ℕ, ◌≡◌, ◌≢◌, ◌↔◌, ◌∙◌, ap, [], refl, subst, Option, none, some}
use vndn.Header.{InterestHeader, ContentObjectHeader}
use vndn.Name.{Name}
use vndn.L3.{Env, State, Packet, Outcome, raised}
use vndn.L3.Invariant.{IsValid, Ends}
use vndn.L3.Protocol.{on_interest, on_data, on_nack}
use vndn.L3.Protocol.Safety.{on_interest-Ends, on_data-Ends, on_nack-Ends}

Ends-not_raised : {A : Type 0} (P : A → Type 0) (m : Outcome A) → Ends P m → m ≢ raised
Ends-not_raised P m h e = subst (Ends P) e h

module _ {env : Env} (st : State env) (v : IsValid st) where
  -- On a valid state the handlers raise an exception on a header without a name, and on no other.
  -- For `OnInterest` the name is not the root.
  pub handlers-raised :
      (now face : ℕ) (header : InterestHeader) (content : ContentObjectHeader) (packet : Packet)
      → (header.name ≢ some []
          → ((on_interest env now face header packet st ≡ raised) ↔ (header.name ≡ none)))
        × ((on_nack env now face header st ≡ raised) ↔ (header.name ≡ none))
        × ((on_data env face content packet st ≡ raised) ↔ (content.name ≡ none))
  unfolding on_interest on_nack on_data
  handlers-raised now face header content packet = (
    λ below. (
      λ r. unnamed header.name λ name e.
          Ends-not_raised IsValid _
            (on_interest-Ends now face header packet st name e (λ root. below (e ∙ ap some root)) v)
            r,
      λ e. simp e refl,
    ),
    (
      λ r.
          unnamed header.name
            λ name e. Ends-not_raised IsValid _ (on_nack-Ends now face header st name e v) r,
      λ e. simp e refl,
    ),
    (
      λ r.
          unnamed content.name
            λ name e. Ends-not_raised IsValid _ (on_data-Ends face content packet st name e v) r,
      λ e. simp e refl,
    ),
  )
    where
      unnamed : (o : Option Name) → ((name : Name) → ¬ (o ≡ some name)) → o ≡ none
      unnamed none n = refl
      unnamed (some name) n = absurd (n name refl)

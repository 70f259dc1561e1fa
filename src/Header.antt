-- ===== src/Header.antt =====
-- The packet headers: network/ndn-interest-header.{h,cc} and network/ndn-content-object-header.{h,cc}.
-- A null pointer is `none`. A duration is a number of microseconds.
use vndn.Base.{ℕ, Bool, false, Option, none, ◌%◌, ◌^◌}
use vndn.Base.Int.{ℤ, negsuc}
use vndn.Name.{Name}

-- `InterestHeader`
pub record InterestHeader : Type 0 where
  pub name : Option Name
  pub min_suffix_components : ℤ
  pub max_suffix_components : ℤ
  pub exclude : Option Name
  pub child_selector : Bool
  pub answer_origin_kind : Bool
  pub scope : ℤ
  pub interest_lifetime : ℕ
  pub nonce : ℕ
  pub nack_type : ℕ

-- the constructor
unfoldable pub interest_header : InterestHeader
interest_header = record {
  name = none;
  min_suffix_components = negsuc 0;
  max_suffix_components = negsuc 0;
  exclude = none;
  child_selector = false;
  answer_origin_kind = false;
  scope = negsuc 0;
  interest_lifetime = 0;
  nonce = 0;
  nack_type = 0;
}

abbrev pub normal_interest : ℕ
normal_interest = 0

abbrev pub nack_loop : ℕ
nack_loop = 10

abbrev pub nack_congestion : ℕ
nack_congestion = 11

abbrev pub nack_giveup_pit : ℕ
nack_giveup_pit = 12

-- `SetNack`
unfoldable pub set_nack : ℕ → InterestHeader → InterestHeader
set_nack nack_type header = record header { nack_type = nack_type % 2 ^ 32 }

-- `ContentObjectHeader`
pub record ContentObjectHeader : Type 0 where
  pub name : Option Name

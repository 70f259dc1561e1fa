-- ===== src/Encoding/Timestamp.antt =====
-- Lifetimes of a minute and more (helper/ndn-encoding-helper.cc): `AppendTimestampBlob` sizes the
-- blob by the seconds within the minute, and `EstimateTimestampBlob` by all of them.
use vndn.Base.{ℕ, zero, suc, ◌+◌, ◌/◌, ◌<◌, ◌≤◌, ◌≡◌, refl, ◌∙◌, ap, ◌++◌, arith}
use vndn.Encoding.{
  seconds, total_seconds, required_bytes, fraction, big_endian, append_block_header,
  append_timestamp_blob, estimate_timestamp_blob, estimate_block_header, estimate_loop, ccn_blob,
}
use vndn.Encoding.Size.{required_bytes-least, block_header-IsSized}

required_bytes-most :
    (rounds ts required : ℕ) → required_bytes rounds ts required ≤ required + rounds
unfolding required_bytes
required_bytes-most zero ts required = omega arith
required_bytes-most (suc rounds) ts required =
    ground (arith, required_bytes-most rounds (ts / 256) (required + 1))

required_bytes-more : (rounds ts : ℕ) → 0 < ts → 3 ≤ required_bytes (suc rounds) ts 2
unfolding required_bytes
required_bytes-more rounds ts h = ground (arith, required_bytes-least rounds (ts / 256) 3)

required_bytes-none : (rounds required : ℕ) → required_bytes rounds 0 required ≡ required
unfolding required_bytes
required_bytes-none zero required = refl
required_bytes-none (suc rounds) required = refl

estimate_small : (n : ℕ) → n < 16 → estimate_block_header n ≡ 1
unfolding estimate_block_header estimate_loop
estimate_small n h = let none' : n / 16 ≡ 0 = omega arith in rw none' refl

-- A lifetime of 16 seconds and more whose seconds within its last minute are below 16, such as one
-- of 120 seconds, is written in a blob of two bytes, which hold the low four bits of its seconds and
-- the fraction, although `EstimateTimestampBlob` counts more bytes.
pub append_timestamp_blob-truncated :
    (time : ℕ)
    → 16 ≤ total_seconds time
    → seconds time < 16
    → ((append_timestamp_blob time).0
        ≡ (append_block_header 2 ccn_blob).0 ++ big_endian 2 (fraction time))
      × ((append_timestamp_blob time).1 < estimate_timestamp_blob time)
unfolding append_timestamp_blob estimate_timestamp_blob big_endian
append_timestamp_blob-truncated time long early =
    let two : required_bytes 5 (seconds time / 16) 2 ≡ 2 =
      ap (λ n. required_bytes 5 n 2) (omega arith) ∙ required_bytes-none 5 2 in
    let (_, counted) = block_header-IsSized 2 ccn_blob in
    let least = required_bytes-more 4 (total_seconds time / 16) (omega arith) in
    let most = required_bytes-most 5 (total_seconds time / 16) 2 in
    let one = estimate_small 2 (omega arith) in
    let one' = estimate_small (required_bytes 5 (total_seconds time / 16) 2) (omega arith) in
    rw two (refl, omega (arith, counted, one, one'))

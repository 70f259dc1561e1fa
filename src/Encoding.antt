-- ===== src/Encoding.antt =====
-- The wire format: helper/ndn-encoding-helper.cc, with the tags of
-- helper/ccnb-parser/ccnb-parser-common.h, and the head of `Block::ParseBlock`
-- (helper/ccnb-parser/syntax-tree/ccnb-parser-block.cc). `written` counts the bytes as the code does.
pub mod Size
pub mod Block
pub mod Timestamp
use vndn.Base.{
  ℕ, zero, suc, ◌+◌, ◌-◌, ◌*◌, ◌/◌, ◌%◌, ◌^◌, Bool, true, false, ◌&&◌, Option, none, some, List, [],
  ◌∷◌, ◌++◌, length, ltb, ◌==◌, if◌then◌else◌, not,
}
use vndn.Base.Int.{ℤ, pos, negsuc}
use vndn.Header.{InterestHeader, ContentObjectHeader}
use vndn.Name.{Name, Component}

-- The bytes appended to the buffer, and the count of them.
abbrev pub Written : Type 0
Written = List ℕ × ℕ

abbrev pub nothing : Written
nothing = ([], 0)

infixl 5 ◌⊕◌
abbrev pub ◌⊕◌ : Written → Written → Written
a ⊕ b = (a.0 ++ b.0, a.1 + b.1)

-- The types of blocks, `ccn_tt`, and the tags of `ccn_dtag` that the encoder uses.
abbrev pub ccn_dtag : ℕ
ccn_dtag = 2

abbrev pub ccn_blob : ℕ
ccn_blob = 5

abbrev pub ccn_udata : ℕ
ccn_udata = 6

-- the loop of `AppendBlockHeader`, from the last byte to the first. 64 bits less the 4 in the last
-- byte are at most 9 groups of 7, so 10 rounds are enough.
unfoldable pub header_loop : ℕ → ℕ → Written → Written
header_loop zero val w = w
header_loop (suc rounds) val w =
    let next = header_loop rounds (val / 128) (val % 128 ∷ w.0, w.1 + 1) in
    if val == 0 then w else next

unfoldable pub append_block_header : ℕ → ℕ → Written
append_block_header val tt' = header_loop 10 (val / 16) ((128 + val % 16 * 8 + tt' % 8) ∷ [], 1)

unfoldable pub estimate_loop : ℕ → ℕ → ℕ → ℕ
estimate_loop zero value n = n
estimate_loop (suc rounds) value n =
    let next = estimate_loop rounds (value / 128) (n + 1) in if value == 0 then n else next

unfoldable pub estimate_block_header : ℕ → ℕ
estimate_block_header value = estimate_loop 10 (value / 16) 1

-- A `uint32_t` in decimal: at most 10 digits.
unfoldable pub digits : ℕ → ℕ → List ℕ → List ℕ
digits zero n text = text
digits (suc rounds) n text =
    let text' = (48 + n % 10) ∷ text in
    let more = digits rounds (n / 10) text' in if n / 10 == 0 then text' else more

unfoldable pub decimal : ℕ → List ℕ
decimal n = digits 10 n []

unfoldable pub append_number : ℕ → Written
append_number number =
    append_block_header (length (decimal number)) ccn_udata
    ⊕ (decimal number, length (decimal number))

unfoldable pub estimate_number : ℕ → ℕ
estimate_number number = estimate_block_header (length (decimal number)) + length (decimal number)

abbrev pub append_closer : Written
append_closer = (0 ∷ [], 1)

unfoldable pub append_tagged_blob : ℕ → List ℕ → Written
append_tagged_blob dtag bytes =
    let blob = append_block_header (length bytes) ccn_blob ⊕ (bytes, length bytes) in
    append_block_header dtag ccn_dtag
    ⊕ (if ltb 0 (length bytes) then blob else nothing)
    ⊕ append_closer

unfoldable pub estimate_tagged_blob : ℕ → ℕ → ℕ
estimate_tagged_blob dtag size =
    if ltb 0 size
    then estimate_block_header dtag + estimate_block_header size + size + 1
    else estimate_block_header dtag + 1

unfoldable pub append_name_components : Name → Written
append_name_components [] = nothing
append_name_components (component ∷ name) =
    append_tagged_blob 15 component ⊕ append_name_components name

unfoldable pub estimate_name_components : Name → ℕ
estimate_name_components [] = 0
estimate_name_components (component ∷ name) =
    estimate_tagged_blob 15 (length component) + estimate_name_components name

-- `time.seconds ()` and `time.total_seconds ()` of a number of microseconds
unfoldable pub seconds : ℕ → ℕ
seconds time = time / 1000000 % 60

unfoldable pub total_seconds : ℕ → ℕ
total_seconds time = time / 1000000

-- the loop that both functions have: from 2 bytes to at most 7
unfoldable pub required_bytes : ℕ → ℕ → ℕ → ℕ
required_bytes zero ts required = required
required_bytes (suc rounds) ts required =
    let more = required_bytes rounds (ts / 256) (required + 1) in if ts == 0 then required else more

-- the bytes of a number, the highest first
unfoldable pub big_endian : ℕ → ℕ → List ℕ
big_endian zero ts = []
big_endian (suc count) ts = ts / 256 ^ count % 256 ∷ big_endian count ts

-- the two bytes with the low bits of the seconds and the fraction
unfoldable pub fraction : ℕ → ℕ
fraction time = total_seconds time % 16 * 4096 + (time % 1000000 * 1000 / 5 * 8 + 195312) / 390625

unfoldable pub append_timestamp_blob : ℕ → Written
append_timestamp_blob time =
    let required = required_bytes 5 (seconds time / 16) 2 in
    let header = append_block_header required ccn_blob in
    (
      header.0
          ++ (big_endian (required - 2) (total_seconds time / 16) ++ big_endian 2 (fraction time)),
      header.1 + required,
    )

unfoldable pub estimate_timestamp_blob : ℕ → ℕ
estimate_timestamp_blob time =
    let required = required_bytes 5 (total_seconds time / 16) 2 in
    estimate_block_header required + required

-- What is between a tag and its closer.
unfoldable pub append_element : ℕ → Written → Written
append_element dtag body = append_block_header dtag ccn_dtag ⊕ body ⊕ append_closer

unfoldable pub estimate_element : ℕ → ℕ → ℕ
estimate_element dtag body = estimate_block_header dtag + body + 1

-- An `int32_t` or `int8_t` field that is left out if it is negative.
unfoldable pub append_count : ℕ → ℤ → Written
append_count dtag (pos n) = append_element dtag (append_number n)
append_count dtag (negsuc n) = nothing

unfoldable pub estimate_count : ℕ → ℤ → ℕ
estimate_count dtag (pos n) = estimate_element dtag (estimate_number n)
estimate_count dtag (negsuc n) = 0

-- A field that is there under a condition.
unfoldable pub append_if : Bool → Written → Written
append_if b field = if b then field else nothing

unfoldable pub estimate_if : Bool → ℕ → ℕ
estimate_if b size = if b then size else 0

unfoldable pub append_exclude : Option Name → Written
append_exclude none = nothing
append_exclude (some exclude) =
    append_if (ltb 0 (length exclude)) (append_element 43 (append_name_components exclude))

unfoldable pub estimate_exclude : Option Name → ℕ
estimate_exclude none = 0
estimate_exclude (some exclude) =
    estimate_if (ltb 0 (length exclude)) (estimate_element 43 (estimate_name_components exclude))

-- the bytes of a `uint32_t` in memory, on a little-endian machine
unfoldable pub nonce_bytes : ℕ → List ℕ
nonce_bytes nonce =
    nonce % 256 ∷ nonce / 256 % 256 ∷ nonce / 65536 % 256 ∷ nonce / 16777216 % 256 ∷ []

-- `Serialize (Buffer &, const InterestHeader &)` and `GetSize (const InterestHeader &)` on a header
-- with a name
unfoldable pub serialize_interest : Name → InterestHeader → Written
serialize_interest name header =
    append_block_header 26 ccn_dtag
    ⊕ append_element 14 (append_name_components name)
    ⊕ append_count 83 header.min_suffix_components
    ⊕ append_count 84 header.max_suffix_components
    ⊕ append_exclude header.exclude
    ⊕ append_if header.child_selector (append_element 85 (append_number 1))
    ⊕ append_if header.answer_origin_kind (append_element 47 (append_number 1))
    ⊕ append_count 42 header.scope
    ⊕ append_if (not (header.interest_lifetime == 0))
        (append_element 48 (append_timestamp_blob header.interest_lifetime))
    ⊕ append_if (ltb 0 header.nonce) (append_tagged_blob 41 (nonce_bytes header.nonce))
    ⊕ append_if (ltb 0 header.nack_type) (append_element 200 (append_number header.nack_type))
    ⊕ append_closer

unfoldable pub size_interest : Name → InterestHeader → ℕ
size_interest name header =
    estimate_block_header 26
    + estimate_element 14 (estimate_name_components name)
    + estimate_count 83 header.min_suffix_components
    + estimate_count 84 header.max_suffix_components
    + estimate_exclude header.exclude
    + estimate_if header.child_selector (estimate_element 85 (estimate_number 1))
    + estimate_if header.answer_origin_kind (estimate_element 47 (estimate_number 1))
    + estimate_count 42 header.scope
    + estimate_if (not (header.interest_lifetime == 0))
        (estimate_element 48 (estimate_timestamp_blob header.interest_lifetime))
    + estimate_if (ltb 0 header.nonce) (estimate_tagged_blob 41 4)
    + estimate_if (ltb 0 header.nack_type) (estimate_element 200 (estimate_number header.nack_type))
    + 1

-- the same of a content object's header
unfoldable pub serialize_content : Name → Written
serialize_content name =
    append_block_header 64 ccn_dtag
    ⊕ append_element 37 (append_tagged_blob 54 [])
    ⊕ append_element 14 (append_name_components name)
    ⊕ append_element 20 (append_tagged_blob 60 [])
    ⊕ append_block_header 19 ccn_dtag

unfoldable pub size_content : Name → ℕ
size_content name =
    estimate_block_header 64
    + estimate_element 37 (estimate_tagged_blob 54 0)
    + estimate_element 14 (estimate_name_components name)
    + estimate_element 20 (estimate_tagged_blob 60 0)
    + estimate_block_header 19

-- the loop of `ParseBlock`: the value so far, the last byte, and what is left. `value` is a
-- `uint32_t`.
unfoldable pub parse_loop : List ℕ → ℕ → ℕ → ℕ × ℕ × List ℕ
parse_loop [] value byte = (value, byte, [])
parse_loop (b ∷ bytes) value byte =
    let next = parse_loop bytes ((value * 128 + byte) % 2 ^ 32) b in
    if ltb byte 128 then next else (value, byte, b ∷ bytes)

-- the head of `ParseBlock`: the value, the type, and what is left. At the end of the buffer an
-- exception object is made but not thrown.
unfoldable pub parse_block_header : List ℕ → ℕ × ℕ × List ℕ
parse_block_header bytes =
    let (value, byte, rest) = parse_loop bytes 0 0 in
    ((value * 16 + byte % 128 / 8) % 2 ^ 32, byte % 8, rest)

-- ===== src/Tests/Wire.antt =====
-- The theorems on the text of names and on the wire format, applied to concrete names and headers.
use vndn.Base.{
  ℕ, List, ◌<◌, ◌≡◌, ◌≤◌, ◌-◌, ◌%◌, ◌^◌, refl, none, some, [], ◌∷◌, ◌++◌, length, All, arith,
}
use vndn.Header.{ContentObjectHeader}
use vndn.CcnbParser.{
  Block, parsed, raised, undefined, parse_block, parse_body, parse_dtag, parse_composite, stops,
  finish, after_content,
}
use vndn.CcnbParser.Visitors.{deserialize_content}
use vndn.CcnbParser.Termination.{parse_block-Within}
use vndn.CcnbParser.Within.{Within, Left}
use vndn.CcnbParser.Roundtrip.{IsShort, IsReadable}
use vndn.CcnbParser.Deserialize.{deserialize_content-serialize, deserialize_content-raised}
use vndn.Name.{parse, print}
use vndn.Name.Text.{IsWord, parse-print}
use vndn.Encoding.{
  serialize_interest, size_interest, serialize_content, size_content, append_block_header,
  parse_block_header, parse_loop, append_timestamp_blob, estimate_timestamp_blob, big_endian,
  fraction, seconds, total_seconds, ccn_blob,
}
use vndn.Encoding.Block.{parse_block_header-append}
use vndn.Encoding.Size.{serialize_interest-size, serialize_content-size}
use vndn.Encoding.Timestamp.{append_timestamp_blob-truncated}
use vndn.Tests.Data.{name_ab, asking}

words : All IsWord name_ab
unfolding vndn.Name.is_space
words = (((refl, refl), tt), (((refl, refl), tt), tt))

parse-print_example : parse (print name_ab) ≡ name_ab
parse-print_example = parse-print name_ab words

serialize_interest-size_example :
    (length (serialize_interest name_ab (asking name_ab 5)).0
      ≡ (serialize_interest name_ab (asking name_ab 5)).1)
    × ((serialize_interest name_ab (asking name_ab 5)).1 ≡ size_interest name_ab (asking name_ab 5))
serialize_interest-size_example = serialize_interest-size name_ab (asking name_ab 5) (omega arith)

serialize_content-size_example :
    (length (serialize_content name_ab).0 ≡ (serialize_content name_ab).1)
    × ((serialize_content name_ab).1 ≡ size_content name_ab)
serialize_content-size_example = serialize_content-size name_ab

parse_block_header-append_example :
    parse_block_header ((append_block_header 1000 2).0 ++ (7 ∷ [])) ≡ (1000, 2, 7 ∷ [])
parse_block_header-append_example =
    parse_block_header-append 1000 2 (7 ∷ []) (omega arith) (omega arith)

long : 16 ≤ total_seconds 120000000
unfolding total_seconds
long = omega arith

early : seconds 120000000 < 16
unfolding seconds
early = omega arith

append_timestamp_blob-truncated_example :
    ((append_timestamp_blob 120000000).0
      ≡ (append_block_header 2 ccn_blob).0 ++ big_endian 2 (fraction 120000000))
    × ((append_timestamp_blob 120000000).1 < estimate_timestamp_blob 120000000)
append_timestamp_blob-truncated_example = append_timestamp_blob-truncated 120000000 long early

abbrev content_header : ContentObjectHeader
content_header = record { name = none }

name_ab-IsReadable : All IsReadable name_ab
name_ab-IsReadable = omega arith

deserialize_content-serialize_example :
    deserialize_content ((serialize_content name_ab).0 ++ (1 ∷ 0 ∷ [])) content_header
    ≡ parsed (record content_header { name = some name_ab }, size_content name_ab % 2 ^ 8)
deserialize_content-serialize_example =
    deserialize_content-serialize name_ab (1 ∷ 0 ∷ []) content_header name_ab-IsReadable

abbrev four_bytes : List ℕ
four_bytes = 250 ∷ 157 ∷ 65 ∷ 0 ∷ []

parse_block-Within_example :
    Within (Left {A = Block} (length four_bytes - 1)) (parse_block 5 four_bytes)
parse_block-Within_example = parse_block-Within 5 four_bytes (omega arith)

-- An empty `<ContentObject>`: `m_nestedTags.back ()` on an empty list.
empty_object : parse_block 4 (4 ∷ 130 ∷ 0 ∷ []) ≡ undefined
unfolding parse_block parse_body parse_dtag parse_composite stops finish after_content
    parse_block_header parse_loop
empty_object = refl

with_empty-IsShort : All IsShort ((97 ∷ []) ∷ [] ∷ (98 ∷ []) ∷ [])
with_empty-IsShort = omega arith

deserialize_content-raised_example :
    deserialize_content
      ((serialize_content ((97 ∷ []) ∷ [] ∷ (98 ∷ []) ∷ [])).0 ++ (1 ∷ []))
      content_header
    ≡ raised
deserialize_content-raised_example =
    deserialize_content-raised ((97 ∷ []) ∷ []) ((98 ∷ []) ∷ []) (1 ∷ []) content_header
      with_empty-IsShort

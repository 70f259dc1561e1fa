-- ===== src/CcnbParser.antt =====
-- The parser of the wire format: the constructors of helper/ccnb-parser/syntax-tree.
-- The iterator is the list of the bytes that are left. `new char[length]` is taken to succeed.
pub mod Visitors
pub mod Within
pub mod Termination
pub mod Roundtrip
pub mod ContentObject
pub mod Deserialize
use vndn.Base.{
  ℕ, zero, suc, ◌+◌, ◌-◌, ◌%◌, ◌^◌, Bool, true, false, ◌&&◌, Option, none, some, List, [], ◌∷◌,
  ◌++◌, length, ◌==◌, if◌then◌else◌,
}
use vndn.Name.{Name}
use vndn.Header.{ContentObjectHeader}
use vndn.Encoding.{parse_block_header, ccn_dtag, ccn_blob, ccn_udata}

-- How parsing ends: with a value, with an exception, or in undefined behaviour. The
-- model runs out of fuel in `unfinished`.
pub data Parse (A : Type 0) : Type 0 where
  parsed : A → Parse A
  raised : Parse A
  undefined : Parse A
  unfinished : Parse A

infixl 5 ◌>>=◌
abbrev pub ◌>>=◌ : {A B : Type 0} → Parse A → (A → Parse B) → Parse B
parsed a >>= f = f a
raised >>= f = raised
undefined >>= f = undefined
unfinished >>= f = unfinished

-- The classes of the syntax tree, and a `std::list` of pointers to them.
mutual
  pub data Block : Type 0 where
    blob : List ℕ → Block
    udata : List ℕ → Block
    tag : List ℕ → Blocks → Blocks → Block
    attr : List ℕ → List ℕ → Block
    dtag : ℕ → Blocks → Blocks → Block
    dattr : ℕ → List ℕ → Block
    ext : ℕ → Block

  pub data Blocks : Type 0 where
    nil : Blocks
    cons : Block → Blocks → Blocks

-- the loops that read bytes, with the exception when there are too few
unfoldable pub read_bytes : ℕ → List ℕ → Parse (List ℕ × List ℕ)
read_bytes zero bytes = parsed ([], bytes)
read_bytes (suc n) [] = raised
read_bytes (suc n) (b ∷ bytes) = read_bytes n bytes >>= λ r. parsed (b ∷ r.0, r.1)

-- `start.IsEnd () || start.PeekU8 () == CCN_CLOSE`
unfoldable pub stops : List ℕ → Bool
stops [] = true
stops (b ∷ bytes) = b == 0

-- `start.ReadU8 ()` of the closer
unfoldable pub read_close : List ℕ → Parse (List ℕ)
read_close [] = raised
read_close (b ∷ bytes) = parsed bytes

-- `DynamicCast<BaseAttr> (block) != 0`
unfoldable pub is_base_attr : Block → Bool
is_base_attr (blob bytes) = false
is_base_attr (udata text) = false
is_base_attr (tag text attrs nested) = false
is_base_attr (attr text value) = true
is_base_attr (dtag d attrs nested) = false
is_base_attr (dattr d value) = true
is_base_attr (ext subtype) = false

-- a `<Content>` tag
unfoldable pub is_content : Block → Bool
is_content (blob bytes) = false
is_content (udata text) = false
is_content (tag text attrs nested) = false
is_content (attr text value) = false
is_content (dtag d attrs nested) = d == 19
is_content (dattr d value) = false
is_content (ext subtype) = false

-- hacks #2 and #3: in a content object, the test of `m_nestedTags.back ()`, which needs an element
unfoldable pub after_content : Bool → Option Block → Parse Bool
after_content false last = parsed false
after_content true none = undefined
after_content true (some block) = parsed (is_content block)

-- after the two loops
unfoldable pub finish : Bool → Option Block → List ℕ → Parse (List ℕ)
finish in_object last bytes =
    after_content in_object last >>= λ stop. if stop then parsed bytes else read_close bytes

-- the second loop, and what follows it: the nested blocks, and the bytes left
unfoldable pub parse_nested :
    (List ℕ → Parse (Block × List ℕ)) → ℕ → Bool → Option Block → List ℕ → Parse (Blocks × List ℕ)
parse_nested parse zero in_object last bytes = unfinished
parse_nested parse (suc fuel) in_object last bytes = elim (stops bytes) [
  | true ↦ finish in_object last bytes >>= λ rest. parsed (nil, rest)
  | false ↦ after_content in_object last >>= λ stop. elim stop [
    | true ↦ parsed (nil, bytes)
    | false ↦ parse bytes >>= λ r.
        parse_nested parse fuel in_object (some r.0) r.1 >>= λ s. parsed (cons r.0 s.0, s.1)
  ]
]

-- the first loop, and the second: the attributes, the nested blocks, and the bytes left
unfoldable pub parse_composite :
    (List ℕ → Parse (Block × List ℕ)) → ℕ → Bool → List ℕ → Parse (Blocks × Blocks × List ℕ)
parse_composite parse zero in_object bytes = unfinished
parse_composite parse (suc fuel) in_object bytes = elim (stops bytes) [
  | true ↦ finish in_object none bytes >>= λ rest. parsed (nil, nil, rest)
  | false ↦ parse bytes >>= λ r. elim (is_base_attr r.0) [
    | true ↦ parse_composite parse fuel in_object r.1 >>= λ s. parsed (cons r.0 s.0, s.1, s.2)
    | false ↦
        parse_nested parse fuel in_object (some r.0) r.1 >>= λ s. parsed (nil, cons r.0 s.0, s.1)
  ]
]

-- `DynamicCast<Udata> (Block::ParseBlock (start))` and the exception when that is null
unfoldable pub udata_of : Block × List ℕ → Parse (List ℕ × List ℕ)
udata_of (udata text, rest) = parsed (text, rest)
udata_of (blob bytes, rest) = raised
udata_of (tag text attrs nested, rest) = raised
udata_of (attr text value, rest) = raised
udata_of (dtag d attrs nested, rest) = raised
udata_of (dattr d value, rest) = raised
udata_of (ext subtype, rest) = raised

-- The constructors of the classes. The length of a name is one more, as a `uint32_t`.
unfoldable pub parse_blob : ℕ → List ℕ → Parse (Block × List ℕ)
parse_blob size bytes = read_bytes size bytes >>= λ r. parsed (blob r.0, r.1)

unfoldable pub parse_udata : ℕ → List ℕ → Parse (Block × List ℕ)
parse_udata size bytes = read_bytes size bytes >>= λ r. parsed (udata r.0, r.1)

unfoldable pub parse_tag :
    (List ℕ → Parse (Block × List ℕ)) → ℕ → ℕ → List ℕ → Parse (Block × List ℕ)
parse_tag parse fuel size bytes = read_bytes ((size + 1) % 2 ^ 32) bytes >>= λ r.
    parse_composite parse fuel false r.1 >>= λ s. parsed (tag r.0 s.0 s.1, s.2)

unfoldable pub parse_attr : (List ℕ → Parse (Block × List ℕ)) → ℕ → List ℕ → Parse (Block × List ℕ)
parse_attr parse size bytes = read_bytes ((size + 1) % 2 ^ 32) bytes >>= λ r.
    parse r.1 >>= λ s. udata_of s >>= λ u. parsed (attr r.0 u.0, u.1)

unfoldable pub parse_dattr : (List ℕ → Parse (Block × List ℕ)) → ℕ → List ℕ → Parse (Block × List ℕ)
parse_dattr parse d bytes = parse bytes >>= λ s. udata_of s >>= λ u. parsed (dattr d u.0, u.1)

-- hack #1: a `<Content>` tag has nothing in it
unfoldable pub parse_dtag :
    (List ℕ → Parse (Block × List ℕ)) → ℕ → ℕ → List ℕ → Parse (Block × List ℕ)
parse_dtag parse fuel d bytes =
    if d == 19
    then parsed (dtag d nil nil, bytes)
    else parse_composite parse fuel (d == 64) bytes >>= λ s. parsed (dtag d s.0 s.1, s.2)

-- the `switch` of `ParseBlock`
unfoldable pub parse_body :
    (List ℕ → Parse (Block × List ℕ)) → ℕ → ℕ × ℕ × List ℕ → Parse (Block × List ℕ)
parse_body parse fuel (value, type, bytes) =
    if type == ccn_blob
    then parse_blob value bytes
    else if type == ccn_udata
    then parse_udata value bytes
    else if type == 1
    then parse_tag parse fuel value bytes
    else if type == 3
    then parse_attr parse value bytes
    else if type == ccn_dtag
    then parse_dtag parse fuel value bytes
    else if type == 4
    then parse_dattr parse value bytes
    else if type == 0
    then parsed (ext value, bytes)
    else raised

-- `Block::ParseBlock`. The fuel bounds the depth of the tree and the rounds of each loop.
unfoldable pub parse_block : ℕ → List ℕ → Parse (Block × List ℕ)
parse_block zero bytes = unfinished
parse_block (suc fuel) bytes = parse_body (parse_block fuel) fuel (parse_block_header bytes)

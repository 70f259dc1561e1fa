-- ===== src/CcnbParser/Deserialize.antt =====
-- `Deserialize` (helper/ndn-decoding-helper.cc) of what `Serialize` (helper/ndn-encoding-helper.cc)
-- wrote for a content object.
use vndn.Base.{
  ℕ, suc, ◌+◌, ◌-◌, ◌%◌, ◌^◌, ◌≤◌, ◌≡◌, refl, ap, ◌∙◌, some, List, [], ◌∷◌, ◌++◌, length, arith,
  ltb, length-append, All, All-map_pred, inl, inr, Bool-cases,
}
use vndn.Name.{Name}
use vndn.Header.{ContentObjectHeader}
use vndn.Encoding.{
  serialize_content, size_content, estimate_block_header, estimate_loop, estimate_element,
  estimate_tagged_blob, estimate_name_components,
}
use vndn.Encoding.Size.{serialize_content-size}
use vndn.CcnbParser.{parsed, raised, parse_block}
use vndn.CcnbParser.Visitors.{deserialize_content}
use vndn.CcnbParser.Roundtrip.{IsReadable, IsShort}
use vndn.CcnbParser.ContentObject.{
  object_block, visit_content-object, visit_content-raised, parse_block-object,
}

estimate_name_components-length : (name : Name) → length name ≤ estimate_name_components name
unfolding estimate_name_components estimate_tagged_blob
estimate_name_components-length [] = omega arith
estimate_name_components-length (component ∷ name) =
    let ih = estimate_name_components-length name in
    elim (Bool-cases (ltb 0 (length component))) [
      | inl e ↦ rw e (omega arith)
      | inr e ↦ rw e (omega arith)
    ]

size_content-length : (name : Name) → length name + 12 ≤ size_content name
unfolding size_content estimate_element estimate_tagged_blob estimate_block_header estimate_loop
size_content-length name = omega (arith, estimate_name_components-length name)

length-serialize :
    (name : Name) (payload : List ℕ)
    → length ((serialize_content name).0 ++ payload) ≡ size_content name + length payload
length-serialize name payload =
    let sizes = serialize_content-size name in
    length-append (serialize_content name).0 payload
    ∙ ap (λ n. n + length payload) (sizes.0 ∙ sizes.1)

-- The parser on what `Serialize` wrote, with any payload after it.
parse_block-serialize :
    (name : Name) (payload : List ℕ)
    → All IsShort name
    → let bytes : List ℕ = (serialize_content name).0 ++ payload in
      parse_block (suc (length bytes)) bytes ≡ parsed (object_block name, payload)
parse_block-serialize name payload short =
    let bytes = (serialize_content name).0 ++ payload in
    let total = length-serialize name payload in
    let depth = length bytes - 5 in
    let enough = size_content-length name in
    let fuel : suc (length bytes) ≡ suc (suc (suc (suc (suc (suc depth))))) = omega arith in
    ap (λ n. parse_block n bytes) fuel ∙ parse_block-object depth name payload (omega arith) short

-- `Deserialize` of what `Serialize` wrote for a content object whose name has no empty component and
-- none of 2 ^ 32 bytes, with any payload after it, sets the name, and returns the number of bytes of
-- the header modulo 256.
pub deserialize_content-serialize :
    (name : Name) (payload : List ℕ) (header : ContentObjectHeader)
    → All IsReadable name
    → deserialize_content ((serialize_content name).0 ++ payload) header
      ≡ parsed (record header { name = some name }, size_content name % 2 ^ 8)
unfolding deserialize_content
deserialize_content-serialize name payload header readable =
    let bytes = (serialize_content name).0 ++ payload in
    let total = length-serialize name payload in
    let short = All-map_pred IsReadable IsShort name (λ c h. h.1) readable in
    let distance : (length bytes - length payload) % 2 ^ 8 ≡ size_content name % 2 ^ 8 =
      omega arith in
    rw (parse_block-serialize name payload short) (
      rw (visit_content-object name header readable)
        (ap (λ n. parsed (record header { name = some name }, n)) distance))

-- `Deserialize` of what `Serialize` wrote for a content object with an empty component in its name,
-- and with no component of 2 ^ 32 bytes, raises an exception.
pub deserialize_content-raised :
    (before after : Name) (payload : List ℕ) (header : ContentObjectHeader)
    → All IsShort (before ++ ([] ∷ after))
    → deserialize_content ((serialize_content (before ++ ([] ∷ after))).0 ++ payload) header
      ≡ raised
unfolding deserialize_content
deserialize_content-raised before after payload header short =
    rw (parse_block-serialize (before ++ ([] ∷ after)) payload short)
      (rw (visit_content-raised before after header) refl)

-- ===== src/CcnbParser/ContentObject.antt =====
-- A content object's header, from the encoder to the visitors.
use vndn.Base.{
  ℕ, suc, ◌+◌, ◌^◌, ◌<◌, ◌≡◌, refl, ◌∙◌, true, false, some, List, [], ◌∷◌, ◌++◌, length, arith,
  ◌==◌, append_assoc, All, inl, inr, Bool-cases,
}
use vndn.Name.{Name}
use vndn.Header.{ContentObjectHeader}
use vndn.Encoding.{
  append_block_header, append_tagged_blob, append_name_components, append_element,
  serialize_content, ccn_dtag, Written,
}
use vndn.Encoding.Block.{parse_block_header-append}
use vndn.CcnbParser.{
  Parse, parsed, raised, Block, Blocks, dtag, nil, cons, stops, read_close, is_base_attr,
  is_content, after_content, finish, parse_nested, parse_composite, parse_dtag, parse_body,
  parse_block,
}
use vndn.CcnbParser.Visitors.{read_name, visit_content, visit_contents}
use vndn.CcnbParser.Roundtrip.{
  IsReadable, IsShort, component_blocks, visit_components-name, visit_components-empty,
  parse_composite-name, parse_block-element, parse_block-empty, stops-header,
}

-- the tree of a content object's header
object_blocks : Name → Blocks
object_blocks name = cons (dtag 37 nil (cons (dtag 54 nil nil) nil)) (
    cons (dtag 14 nil (component_blocks name))
      (cons (dtag 20 nil (cons (dtag 60 nil nil) nil)) (cons (dtag 19 nil nil) nil)))

pub object_block : Name → Block
object_block name = dtag 64 nil (object_blocks name)

pub visit_content-object :
    (name : Name) (header : ContentObjectHeader)
    → All IsReadable name
    → visit_content (object_block name) header ≡ parsed (record header { name = some name })
unfolding object_blocks object_block visit_content visit_contents read_name
visit_content-object name header readable = rw (visit_components-name name [] readable) refl

pub visit_content-raised :
    (before after : Name) (header : ContentObjectHeader)
    → visit_content (object_block (before ++ ([] ∷ after))) header ≡ raised
unfolding object_blocks object_block visit_content visit_contents read_name
visit_content-raised before after header = rw (visit_components-empty before after []) refl

-- A tag with an empty tag in it.
parse_block-holder :
    (fuel d e : ℕ) (rest : List ℕ)
    → d < 2 ^ 32
    → (d == 19) ≡ false
    → (d == 64) ≡ false
    → e < 2 ^ 32
    → (e == 19) ≡ false
    → (e == 64) ≡ false
    → stops ((append_tagged_blob e []).0 ++ (0 ∷ rest)) ≡ false
    → parse_block
        (suc (suc (suc (suc fuel))))
        ((append_element d (append_tagged_blob e [])).0 ++ rest)
      ≡ parsed (dtag d nil (cons (dtag e nil nil) nil), rest)
unfolding parse_composite
parse_block-holder fuel d e rest below plain outside below' plain' outside' starts =
    parse_block-element (suc (suc (suc fuel))) d (append_tagged_blob e []) rest nil
      (cons (dtag e nil nil) nil) below plain outside
      (rw (starts, parse_composite)
        (rw (parse_block-empty (suc fuel) e (0 ∷ rest) below' plain' outside')
          (unfold is_base_attr parse_nested stops finish after_content read_close in refl)))

parse_block-content :
    (fuel : ℕ) (payload : List ℕ)
    → parse_block (suc fuel) ((append_block_header 19 ccn_dtag).0 ++ payload)
      ≡ parsed (dtag 19 nil nil, payload)
unfolding parse_block parse_body parse_dtag
parse_block-content fuel payload =
    rw (parse_block_header-append 19 ccn_dtag payload (omega arith) (omega arith)) refl

module _ (parse : List ℕ → Parse (Block × List ℕ)) where
  -- One round of the loop in a content object, and its end after the content.
  parse_nested-round :
      (fuel : ℕ) (last block : Block) (bytes rest rest' : List ℕ) (blocks : Blocks)
      → stops bytes ≡ false
      → is_content last ≡ false
      → parse bytes ≡ parsed (block, rest)
      → parse_nested parse fuel true (some block) rest ≡ parsed (blocks, rest')
      → parse_nested parse (suc fuel) true (some last) bytes ≡ parsed (cons block blocks, rest')
  unfolding parse_nested after_content
  parse_nested-round fuel last block bytes rest rest' blocks starts other read next =
      rw (starts, parse_nested) (rw other (rw read (rw next refl)))

  parse_nested-content :
      (fuel : ℕ) (payload : List ℕ)
      → parse_nested parse (suc fuel) true (some (dtag 19 nil nil)) payload ≡ parsed (nil, payload)
  unfolding parse_nested after_content finish is_content
  parse_nested-content fuel payload = elim (Bool-cases (stops payload)) [
    | inl e ↦ rw (e, parse_nested) refl
    | inr e ↦ rw (e, parse_nested) refl
  ]

  parse_composite-first :
      (fuel d : ℕ) (attrs nested blocks : Blocks) (bytes rest rest' : List ℕ)
      → stops bytes ≡ false
      → parse bytes ≡ parsed (dtag d attrs nested, rest)
      → parse_nested parse fuel true (some (dtag d attrs nested)) rest ≡ parsed (blocks, rest')
      → parse_composite parse (suc fuel) true bytes
        ≡ parsed (nil, cons (dtag d attrs nested) blocks, rest')
  unfolding parse_composite is_base_attr
  parse_composite-first fuel d attrs nested blocks bytes rest rest' starts read next =
      rw (starts, parse_composite) (rw read (rw next refl))

module _ {A : Type 0} where
  append_assoc_five :
      (a b c d e f : List A)
      → ((((a ++ b) ++ c) ++ d) ++ e) ++ f ≡ a ++ (b ++ (c ++ (d ++ (e ++ f))))
  append_assoc_five a b c d e f = simp append_assoc refl

stops-element :
    (d : ℕ) (body : Written) (rest : List ℕ)
    → d < 2 ^ 32
    → stops ((append_element d body).0 ++ rest) ≡ false
unfolding append_element
stops-element d body rest below =
    let h = (append_block_header d ccn_dtag).0 in
    rw (append_assoc (h ++ body.0) (0 ∷ []) rest ∙ append_assoc h body.0 (0 ∷ rest))
      (stops-header d ccn_dtag (body.0 ++ (0 ∷ rest)) below)

stops-empty :
    (d : ℕ) (rest : List ℕ) → d < 2 ^ 32 → stops ((append_tagged_blob d []).0 ++ rest) ≡ false
unfolding append_tagged_blob append_element
stops-empty d rest below = unfold append_element in stops-element d ([], 0) rest below

parse_block-composite :
    (fuel : ℕ) (bytes payload : List ℕ) (blocks : Blocks)
    → parse_composite (parse_block fuel) fuel true bytes ≡ parsed (nil, blocks, payload)
    → parse_block (suc fuel) ((append_block_header 64 ccn_dtag).0 ++ bytes)
      ≡ parsed (dtag 64 nil blocks, payload)
unfolding parse_block parse_body parse_dtag
parse_block-composite fuel bytes payload blocks inner =
    rw (parse_block_header-append 64 ccn_dtag bytes (omega arith) (omega arith)) (rw inner refl)

-- What is in the tag of a content object, with any bytes after it.
parse_composite-object :
    (depth : ℕ) (name : Name) (payload : List ℕ)
    → length name < depth + 4
    → All IsShort name
    → parse_composite
        (parse_block (suc (suc (suc (suc (suc depth))))))
        (suc (suc (suc (suc (suc depth)))))
        true
        ((append_element 37 (append_tagged_blob 54 [])).0
          ++ ((append_element 14 (append_name_components name)).0
              ++ ((append_element 20 (append_tagged_blob 60 [])).0
                  ++ ((append_block_header 19 ccn_dtag).0 ++ payload))))
      ≡ parsed (nil, object_blocks name, payload)
unfolding object_blocks is_content
parse_composite-object depth name payload enough short =
    let four = suc (suc (suc (suc depth))) in
    let parse = parse_block (suc four) in
    let names = component_blocks name in
    let written = append_name_components name in
    let key = cons (dtag 60 nil nil) nil in
    let bits = cons (dtag 54 nil nil) nil in
    let e19 = (append_block_header 19 ccn_dtag).0 ++ payload in
    let e20 = (append_element 20 (append_tagged_blob 60 [])).0 ++ e19 in
    let e14 = (append_element 14 written).0 ++ e20 in
    let e37 = (append_element 37 (append_tagged_blob 54 [])).0 ++ e14 in
    let inner = parse_composite-name (suc depth) four name e20 (omega arith) short in
    let at19 =
      parse_nested-round parse (suc depth) (dtag 20 nil key) (dtag 19 nil nil) e19 payload payload
        nil (stops-header 19 ccn_dtag payload (omega arith)) refl (parse_block-content four payload)
        (parse_nested-content parse depth payload) in
    let at20 =
      parse_nested-round parse (suc (suc depth)) (dtag 14 nil names) (dtag 20 nil key) e20 e19
        payload (cons (dtag 19 nil nil) nil)
        (stops-element 20 (append_tagged_blob 60 []) e19 (omega arith)) refl
        (parse_block-holder (suc depth) 20 60 e19 (omega arith) refl refl (omega arith) refl refl
          (stops-empty 60 (0 ∷ e19) (omega arith)))
        at19 in
    let at14 =
      parse_nested-round parse (suc (suc (suc depth))) (dtag 37 nil bits) (dtag 14 nil names) e14
        e20 payload _ (stops-element 14 written e20 (omega arith)) refl
        (parse_block-element four 14 written e20 nil names (omega arith) refl refl inner) at20 in
    parse_composite-first parse four 37 nil bits _ e37 e14 payload
      (stops-element 37 (append_tagged_blob 54 []) e14 (omega arith))
      (parse_block-holder (suc depth) 37 54 e14 (omega arith) refl refl (omega arith) refl refl
        (stops-empty 54 (0 ∷ e14) (omega arith)))
      at14

-- The whole header.
pub parse_block-object :
    (depth : ℕ) (name : Name) (payload : List ℕ)
    → length name < depth + 4
    → All IsShort name
    → parse_block (suc (suc (suc (suc (suc (suc depth)))))) ((serialize_content name).0 ++ payload)
      ≡ parsed (object_block name, payload)
unfolding serialize_content object_block
parse_block-object depth name payload enough short =
    let fuel = suc (suc (suc (suc (suc depth)))) in
    let written = append_name_components name in
    let e14 =
      (append_element 14 written).0
      ++ ((append_element 20 (append_tagged_blob 60 [])).0
          ++ ((append_block_header 19 ccn_dtag).0 ++ payload)) in
    let e37 = (append_element 37 (append_tagged_blob 54 [])).0 ++ e14 in
    let split =
      append_assoc_five (append_block_header 64 ccn_dtag).0
        (append_element 37 (append_tagged_blob 54 [])).0 (append_element 14 written).0
        (append_element 20 (append_tagged_blob 60 [])).0 (append_block_header 19 ccn_dtag).0
        payload in
    rw split (
      parse_block-composite fuel e37 payload (object_blocks name)
        (parse_composite-object depth name payload enough short))

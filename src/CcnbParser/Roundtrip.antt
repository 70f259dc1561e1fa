-- ===== src/CcnbParser/Roundtrip.antt =====
-- What the encoder writes, the parser and the visitors read.
use vndn.Base.{
  ℕ, zero, suc, ◌+◌, ◌^◌, ◌<◌, ◌≡◌, refl, sym, ap, ◌∙◌, true, false, Option, some, List, [], ◌∷◌,
  ◌++◌, length, arith, ◌==◌, ltb, append_assoc, append_empty, All,
}
use vndn.Name.{Name, Component}
use vndn.Encoding.{
  append_block_header, append_tagged_blob, append_name_components, append_element, ccn_dtag,
  ccn_blob, header_loop, Written,
}
use vndn.Encoding.Block.{parse_block_header-append, append_block_header-head}
use vndn.CcnbParser.{
  parsed, raised, Block, Blocks, blob, dtag, nil, cons, read_bytes, stops, read_close, is_base_attr,
  after_content, finish, parse_nested, parse_composite, parse_blob, parse_dtag, parse_body,
  parse_block,
}
use vndn.CcnbParser.Visitors.{visit_string, only, add_component, visit_component, visit_components}

pub stops-header :
    (val tt' : ℕ) (rest : List ℕ)
    → val < 2 ^ 32
    → stops ((append_block_header val tt').0 ++ rest) ≡ false
unfolding stops
stops-header val tt' rest below =
    let head = append_block_header-head val tt' below in
    rw head.2 (let more : 0 < head.0 = head.3 in ground arith)

read_bytes-append :
    (bytes rest : List ℕ) → read_bytes (length bytes) (bytes ++ rest) ≡ parsed (bytes, rest)
unfolding read_bytes
read_bytes-append [] rest = refl
read_bytes-append (b ∷ bytes) rest = rw (read_bytes-append bytes rest) refl

parse_block-blob :
    (fuel : ℕ) (bytes rest : List ℕ)
    → length bytes < 2 ^ 32
    → parse_block (suc fuel) ((append_block_header (length bytes) ccn_blob).0 ++ (bytes ++ rest))
      ≡ parsed (blob bytes, rest)
unfolding parse_block parse_body parse_blob
parse_block-blob fuel bytes rest below =
    rw (parse_block_header-append (length bytes) ccn_blob (bytes ++ rest) below (omega arith))
      (rw (read_bytes-append bytes rest) refl)

-- A tag of the dictionary that is neither that of content nor that of a content object.
pub parse_block-element :
    (fuel d : ℕ) (body : Written) (rest : List ℕ) (attrs nested : Blocks)
    → d < 2 ^ 32
    → (d == 19) ≡ false
    → (d == 64) ≡ false
    → parse_composite (parse_block fuel) fuel false (body.0 ++ (0 ∷ rest))
      ≡ parsed (attrs, nested, rest)
    → parse_block (suc fuel) ((append_element d body).0 ++ rest)
      ≡ parsed (dtag d attrs nested, rest)
unfolding parse_block parse_body parse_dtag append_element
parse_block-element fuel d body rest attrs nested below plain outside inner =
    let h = (append_block_header d ccn_dtag).0 in
    let split : ((h ++ body.0) ++ (0 ∷ [])) ++ rest ≡ h ++ (body.0 ++ (0 ∷ rest)) =
      append_assoc (h ++ body.0) (0 ∷ []) rest ∙ append_assoc h body.0 (0 ∷ rest) in
    rw split (
      rw (parse_block_header-append d ccn_dtag (body.0 ++ (0 ∷ rest)) below (omega arith))
        (rw plain (rw outside (rw inner refl))))

-- A tag with nothing in it, and one with a blob.
pub parse_block-empty :
    (fuel d : ℕ) (rest : List ℕ)
    → d < 2 ^ 32
    → (d == 19) ≡ false
    → (d == 64) ≡ false
    → parse_block (suc (suc fuel)) ((append_tagged_blob d []).0 ++ rest)
      ≡ parsed (dtag d nil nil, rest)
unfolding append_tagged_blob append_element
parse_block-empty fuel d rest below plain outside =
    parse_block-element (suc fuel) d ([], 0) rest nil nil below plain outside
      (unfold parse_composite stops finish after_content read_close in refl)

parse_block-tagged :
    (fuel d : ℕ) (bytes rest : List ℕ)
    → d < 2 ^ 32
    → (d == 19) ≡ false
    → (d == 64) ≡ false
    → 0 < length bytes
    → length bytes < 2 ^ 32
    → parse_block (suc (suc (suc fuel))) ((append_tagged_blob d bytes).0 ++ rest)
      ≡ parsed (dtag d nil (cons (blob bytes) nil), rest)
unfolding append_tagged_blob append_element parse_composite
parse_block-tagged fuel d bytes rest below plain outside more short =
    let h = append_block_header (length bytes) ccn_blob in
    let blob' : Written = (h.0 ++ bytes, h.1 + length bytes) in
    let found : ltb 0 (length bytes) ≡ true = ground arith in
    rw found (
      parse_block-element (suc (suc fuel)) d blob' rest nil (cons (blob bytes) nil) below plain
        outside
        (rw (append_assoc h.0 bytes (0 ∷ rest)) (
          rw (stops-header (length bytes) ccn_blob (bytes ++ (0 ∷ rest)) short, parse_composite)
            (rw (parse_block-blob (suc fuel) bytes (0 ∷ rest) short)
              (unfold is_base_attr parse_nested stops finish after_content read_close in refl)))))

-- What the encoder writes for a component whose length has 32 bits: no blob for an empty one.
abbrev pub IsShort : Component → Type 0
IsShort component = length component < 2 ^ 32

-- The components that can be read back.
abbrev pub IsReadable : Component → Type 0
IsReadable component = (0 < length component) × (length component < 2 ^ 32)

-- The tree of a name.
component_content : Component → Blocks
component_content [] = nil
component_content (b ∷ bytes) = cons (blob (b ∷ bytes)) nil

component_block : Component → Block
component_block component = dtag 15 nil (component_content component)

pub component_blocks : Name → Blocks
component_blocks [] = nil
component_blocks (component ∷ name) = cons (component_block component) (component_blocks name)

pub visit_components-name :
    (name name' : Name)
    → All IsReadable name
    → visit_components (component_blocks name) name' ≡ parsed (name' ++ name)
unfolding component_blocks component_block component_content visit_components visit_component
    add_component only visit_string
visit_components-name [] name' readable = ap parsed (sym (append_empty name'))
visit_components-name ([] ∷ name) name' readable =
    let none' : ⊥ = omega (arith, readable.0.0) in absurd none'
visit_components-name ((b ∷ bytes) ∷ name) name' readable =
    visit_components-name name (name' ++ ((b ∷ bytes) ∷ [])) readable.1
    ∙ ap parsed (append_assoc name' ((b ∷ bytes) ∷ []) name)

pub visit_components-empty :
    (before after name' : Name)
    → visit_components (component_blocks (before ++ ([] ∷ after))) name' ≡ raised
unfolding component_blocks component_block component_content visit_components visit_component
    add_component only visit_string
visit_components-empty [] after name' = refl
visit_components-empty ([] ∷ before) after name' = refl
visit_components-empty ((b ∷ bytes) ∷ before) after name' =
    visit_components-empty before after (name' ++ ((b ∷ bytes) ∷ []))

stops-component :
    (component : Component) (rest : List ℕ)
    → stops ((append_tagged_blob 15 component).0 ++ rest) ≡ false
unfolding stops append_tagged_blob append_block_header header_loop
stops-component component rest = refl

module _ (depth : ℕ) where
  parse_block-component :
      (component : Component) (rest : List ℕ)
      → IsShort component
      → parse_block (suc (suc (suc depth))) ((append_tagged_blob 15 component).0 ++ rest)
        ≡ parsed (component_block component, rest)
  unfolding component_block component_content
  parse_block-component [] rest short =
      parse_block-empty (suc depth) 15 rest (omega arith) refl refl
  parse_block-component (b ∷ bytes) rest short =
      parse_block-tagged depth 15 (b ∷ bytes) rest (omega arith) refl refl (omega arith) short

  parse_nested-name :
      (fuel : ℕ) (last : Option Block) (name : Name) (rest : List ℕ)
      → length name < fuel
      → All IsShort name
      → parse_nested
          (parse_block (suc (suc (suc depth))))
          fuel
          false
          last
          ((append_name_components name).0 ++ (0 ∷ rest))
        ≡ parsed (component_blocks name, rest)
  unfolding parse_nested append_name_components component_blocks after_content
  parse_nested-name zero last name rest enough short = let none' : ⊥ = omega arith in absurd none'
  parse_nested-name (suc fuel) last [] rest enough short = unfold stops finish read_close in refl
  parse_nested-name (suc fuel) last (component ∷ name) rest enough short =
      let more = (append_name_components name).0 ++ (0 ∷ rest) in
      rw
        (append_assoc (append_tagged_blob 15 component).0 (append_name_components name).0
          (0 ∷ rest))
        (rw (stops-component component more, parse_nested)
          (rw (parse_block-component component more short.0) (
            rw
              (parse_nested-name fuel (some (component_block component)) name rest (omega arith)
                short.1)
              refl)))

  pub parse_composite-name :
      (fuel : ℕ) (name : Name) (rest : List ℕ)
      → length name < fuel
      → All IsShort name
      → parse_composite
          (parse_block (suc (suc (suc depth))))
          fuel
          false
          ((append_name_components name).0 ++ (0 ∷ rest))
        ≡ parsed (nil, component_blocks name, rest)
  unfolding parse_composite append_name_components component_blocks component_block is_base_attr
  parse_composite-name zero name rest enough short = let none' : ⊥ = omega arith in absurd none'
  parse_composite-name (suc fuel) [] rest enough short =
      unfold stops finish after_content read_close in refl
  parse_composite-name (suc fuel) (component ∷ name) rest enough short =
      let more = (append_name_components name).0 ++ (0 ∷ rest) in
      let next =
        parse_nested-name fuel (some (component_block component)) name rest (omega arith) short.1 in
      rw
        (append_assoc (append_tagged_blob 15 component).0 (append_name_components name).0
          (0 ∷ rest))
        (rw (stops-component component more, parse_composite)
          (rw (parse_block-component component more short.0) (rw next refl)))

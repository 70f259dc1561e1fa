-- ===== src/CcnbParser/Visitors.antt =====
-- The visitors of names and content objects (helper/ccnb-parser/visitors), and
-- `Deserialize (const Buffer &, ContentObjectHeader &)` of helper/ndn-decoding-helper.cc.
use vndn.Base.{
  ℕ, suc, ◌-◌, ◌%◌, ◌^◌, true, false, some, List, [], ◌∷◌, ◌++◌, length, ◌==◌, if◌then◌else◌,
}
use vndn.Name.{Name}
use vndn.Header.{ContentObjectHeader}
use vndn.CcnbParser.{
  Parse, parsed, raised, ◌>>=◌, Block, Blocks, blob, udata, tag, attr, dtag, dattr, ext, nil, cons,
  parse_block,
}

-- `StringVisitor`: the text of a blob or of character data. The visits that it inherits give no
-- string, and `any_cast` throws then; the one of a tag looks at what is in it first, with no effect.
unfoldable pub visit_string : Block → Parse (List ℕ)
visit_string (blob bytes) = parsed bytes
visit_string (udata text) = parsed text
visit_string (tag text attrs nested) = raised
visit_string (attr text value) = raised
visit_string (dtag d attrs nested) = raised
visit_string (dattr d value) = raised
visit_string (ext subtype) = raised

-- the only nested block of a tag
unfoldable pub only : Blocks → Parse Block
only nil = raised
only (cons block nil) = parsed block
only (cons block (cons next blocks)) = raised

-- a `<Component>` tag: `components.Add` of the only block in it
unfoldable pub add_component : Blocks → Name → Parse Name
add_component nested name =
    only nested >>= λ block. visit_string block >>= λ text. parsed (name ++ (text ∷ []))

-- `NameComponentsVisitor`, on the components so far
unfoldable mutual
  pub visit_component : Block → Name → Parse Name
  visit_component (blob bytes) name = parsed name
  visit_component (udata text) name = parsed name
  visit_component (tag text attrs nested) name =
      visit_components attrs name >>= λ name'. visit_components nested name'
  visit_component (attr text value) name = parsed name
  visit_component (dtag d attrs nested) name =
      if d == 15 then add_component nested name else parsed name
  visit_component (dattr d value) name = parsed name
  visit_component (ext subtype) name = parsed name

  pub visit_components : Blocks → Name → Parse Name
  visit_components nil name = parsed name
  visit_components (cons block blocks) name =
      visit_component block name >>= λ name'. visit_components blocks name'

-- a `<Name>` tag: `SetName`
unfoldable pub read_name : Blocks → ContentObjectHeader → Parse ContentObjectHeader
read_name nested header =
    visit_components nested [] >>= λ name. parsed (record header { name = some name })

-- `ContentObjectVisitor`. `NS_ASSERT_MSG` on `<Content>` holds of every tree that the parser makes.
unfoldable mutual
  pub visit_content : Block → ContentObjectHeader → Parse ContentObjectHeader
  visit_content (blob bytes) header = parsed header
  visit_content (udata text) header = parsed header
  visit_content (tag text attrs nested) header =
      visit_contents attrs header >>= λ header'. visit_contents nested header'
  visit_content (attr text value) header = parsed header
  visit_content (dtag d attrs nested) header = elim (d == 64) [
    | true ↦ visit_contents nested header
    | false ↦ if d == 14 then read_name nested header else parsed header
  ]
  visit_content (dattr d value) header = parsed header
  visit_content (ext subtype) header = parsed header

  pub visit_contents : Blocks → ContentObjectHeader → Parse ContentObjectHeader
  visit_contents nil header = parsed header
  visit_contents (cons block blocks) header =
      visit_content block header >>= λ header'. visit_contents blocks header'

-- `NDNDecodingHelper::Deserialize`: the header, and the distance, which `GetDistance` gives as a
-- `uint8_t`.
unfoldable pub deserialize_content : List ℕ → ContentObjectHeader → Parse (ContentObjectHeader × ℕ)
deserialize_content bytes header = parse_block (suc (length bytes)) bytes >>= λ r.
    visit_content r.0 header >>= λ header'. parsed (header', (length bytes - length r.1) % 2 ^ 8)

-- ===== src/CcnbParser/Termination.antt =====
-- The fuel of `Block::ParseBlock`.
use vndn.Base.{
  ℕ, zero, suc, ◌+◌, ◌-◌, ◌*◌, ◌<◌, ◌≤◌, ◌≡◌, Bool, true, false, Option, none, some, List, [], ◌∷◌,
  length, arith, ◌==◌, if◌then◌else◌, inl, inr, Bool-cases, ltb, ◌%◌, ◌^◌,
}
use vndn.Encoding.{ccn_dtag, ccn_blob, ccn_udata, parse_loop, parse_block_header}
use vndn.CcnbParser.Within.{Within, Within-bind, Within-if, Within-elim, Within-map, Left}
use vndn.CcnbParser.{
  Parse, parsed, raised, ◌>>=◌, Block, nil, blob, udata, tag, attr, dtag, dattr, ext, read_bytes,
  stops, read_close, is_base_attr, after_content, finish, parse_nested, parse_composite, udata_of,
  parse_blob, parse_udata, parse_tag, parse_attr, parse_dattr, parse_dtag, parse_body, parse_block,
}

read_bytes-Left : (n : ℕ) (bytes : List ℕ) → Within (Left (length bytes)) (read_bytes n bytes)
unfolding read_bytes
read_bytes-Left zero bytes = omega arith
read_bytes-Left (suc n) [] = tt
read_bytes-Left (suc n) (b ∷ bytes) =
    Within-bind (Left (length bytes)) (Left (suc (length bytes))) (read_bytes n bytes) _
      (read_bytes-Left n bytes) (λ r h. omega arith)

parse_blob-Within :
    (size : ℕ) (bytes : List ℕ) → Within (Left (length bytes)) (parse_blob size bytes)
unfolding parse_blob
parse_blob-Within size bytes =
    Within-bind (Left (length bytes)) (Left (length bytes)) (read_bytes size bytes) _
      (read_bytes-Left size bytes) (λ r h. h)

parse_udata-Within :
    (size : ℕ) (bytes : List ℕ) → Within (Left (length bytes)) (parse_udata size bytes)
unfolding parse_udata
parse_udata-Within size bytes =
    Within-bind (Left (length bytes)) (Left (length bytes)) (read_bytes size bytes) _
      (read_bytes-Left size bytes) (λ r h. h)

parse_loop-length :
    (bytes : List ℕ) (value byte : ℕ) → length (parse_loop bytes value byte).2 ≤ length bytes
unfolding parse_loop
parse_loop-length [] value byte = omega arith
parse_loop-length (b ∷ bytes) value byte =
    let ih = parse_loop-length bytes ((value * 128 + byte) % 2 ^ 32) b in
    elim (Bool-cases (ltb byte 128)) [ inl e ↦ rw e (omega arith) | inr e ↦ rw e (omega arith) ]

parse_block_header-length :
    (bytes : List ℕ) → length (parse_block_header bytes).2 ≤ length bytes - 1
unfolding parse_block_header parse_loop
parse_block_header-length [] = omega arith
parse_block_header-length (b ∷ bytes) = omega (arith, parse_loop-length bytes 0 b)

after_content-Within :
    (in_object : Bool) (last : Option Block) → Within (λ b. Unit {0}) (after_content in_object last)
unfolding after_content
after_content-Within false last = tt
after_content-Within true none = tt
after_content-Within true (some block) = tt

read_close-Within :
    (bytes : List ℕ) → Within (λ rest. length rest ≤ length bytes) (read_close bytes)
unfolding read_close
read_close-Within [] = tt
read_close-Within (b ∷ bytes) = omega arith

finish-Within :
    (in_object : Bool) (last : Option Block) (bytes : List ℕ)
    → Within (λ rest. length rest ≤ length bytes) (finish in_object last bytes)
unfolding finish
finish-Within in_object last bytes =
    Within-bind (λ b. Unit {0}) _ (after_content in_object last) _
      (after_content-Within in_object last)
      (λ b h.
        Within-if (λ rest. length rest ≤ length bytes) b (parsed bytes) (read_close bytes)
          (omega arith) (read_close-Within bytes))

-- Parsing a block of up to so many bytes takes at least one of them, if there is one.
abbrev Consumes : ℕ → (List ℕ → Parse (Block × List ℕ)) → Type 0
Consumes n parse =
    (bytes : List ℕ) → length bytes ≤ n → Within (Left (length bytes - 1)) (parse bytes)

stops-false : (bytes : List ℕ) → stops bytes ≡ false → 0 < length bytes
unfolding stops
stops-false [] e = cc
stops-false (b ∷ bytes) e = omega arith

module _ (n : ℕ) (parse : List ℕ → Parse (Block × List ℕ)) (consumes : Consumes n parse) where
  parse_nested-Within :
      (fuel : ℕ) (in_object : Bool) (last : Option Block) (bytes : List ℕ)
      → length bytes < fuel
      → length bytes ≤ n
      → Within (Left (length bytes)) (parse_nested parse fuel in_object last bytes)
  unfolding parse_nested
  parse_nested-Within zero in_object last bytes enough small = omega arith
  parse_nested-Within (suc fuel) in_object last bytes enough small =
      Within-elim (Left (length bytes)) (stops bytes) _ _
        (λ e.
          Within-bind _ (Left (length bytes)) (finish in_object last bytes) _
            (finish-Within in_object last bytes) (λ rest h. h))
        (λ e.
          Within-bind (λ b. Unit {0}) (Left (length bytes)) (after_content in_object last) _
            (after_content-Within in_object last)
            (λ b h.
              Within-elim (Left (length bytes)) b _ _ (λ e'. omega arith)
                (λ e'.
                  Within-bind (Left (length bytes - 1)) (Left (length bytes)) (parse bytes) _
                    (consumes bytes small)
                    (λ r fewer.
                      let shorter : length r.1 < length bytes =
                        omega (arith, stops-false bytes e) in
                      Within-bind (Left (length r.1)) (Left (length bytes))
                        (parse_nested parse fuel in_object (some r.0) r.1) _
                        (parse_nested-Within fuel in_object (some r.0) r.1 (omega arith)
                          (omega arith))
                        (λ s h. omega arith)))))

  -- the same of the three parts
  parse_composite-Within :
      (fuel : ℕ) (in_object : Bool) (bytes : List ℕ)
      → length bytes < fuel
      → length bytes ≤ n
      → Within (λ s. length s.2 ≤ length bytes) (parse_composite parse fuel in_object bytes)
  unfolding parse_composite
  parse_composite-Within zero in_object bytes enough small = omega arith
  parse_composite-Within (suc fuel) in_object bytes enough small =
      Within-elim (λ s. length s.2 ≤ length bytes) (stops bytes) _ _
        (λ e.
          Within-bind _ (λ s. length s.2 ≤ length bytes) (finish in_object none bytes) _
            (finish-Within in_object none bytes) (λ rest h. h))
        (λ e.
          Within-bind (Left (length bytes - 1)) (λ s. length s.2 ≤ length bytes) (parse bytes) _
            (consumes bytes small)
            (λ r fewer.
              let shorter : length r.1 < length bytes = omega (arith, stops-false bytes e) in
              Within-elim (λ s. length s.2 ≤ length bytes) (is_base_attr r.0) _ _
                (λ e'.
                  Within-bind (λ s. length s.2 ≤ length r.1) (λ s. length s.2 ≤ length bytes)
                    (parse_composite parse fuel in_object r.1) _
                    (parse_composite-Within fuel in_object r.1 (omega arith) (omega arith))
                    (λ s h. omega arith))
                (λ e'.
                  Within-bind (Left (length r.1)) (λ s. length s.2 ≤ length bytes)
                    (parse_nested parse fuel in_object (some r.0) r.1) _
                    (parse_nested-Within fuel in_object (some r.0) r.1 (omega arith) (omega arith))
                    (λ s h. omega arith))))

  udata_of-Within : (s : Block × List ℕ) → Within (Left (length s.1)) (udata_of s)
  unfolding udata_of
  udata_of-Within (udata text, rest) = omega arith
  udata_of-Within (blob bytes, rest) = tt
  udata_of-Within (tag text attrs nested, rest) = tt
  udata_of-Within (attr text value, rest) = tt
  udata_of-Within (dtag d attrs nested, rest) = tt
  udata_of-Within (dattr d value, rest) = tt
  udata_of-Within (ext subtype, rest) = tt

  value_of-Within :
      {A : Type 0} (build : List ℕ → A) (bound : ℕ) (bytes : List ℕ)
      → length bytes ≤ n
      → length bytes ≤ bound
      → Within (Left bound) (parse bytes >>= λ s. udata_of s >>= λ u. parsed (build u.0, u.1))
  value_of-Within build bound bytes small below =
      Within-bind (Left (length bytes - 1)) (Left bound) (parse bytes) _ (consumes bytes small)
        (λ s fewer.
          Within-bind (Left (length s.1)) (Left bound) (udata_of s) _ (udata_of-Within s)
            (λ u h. omega arith))

  parse_tag-Within :
      (fuel size : ℕ) (bytes : List ℕ)
      → length bytes < fuel
      → length bytes ≤ n
      → Within (Left (length bytes)) (parse_tag parse fuel size bytes)
  unfolding parse_tag
  parse_tag-Within fuel size bytes enough small =
      Within-bind (Left (length bytes)) (Left (length bytes))
        (read_bytes ((size + 1) % 2 ^ 32) bytes) _ (read_bytes-Left _ bytes)
        (λ r h.
          Within-bind (λ s. length s.2 ≤ length r.1) (Left (length bytes))
            (parse_composite parse fuel false r.1) _
            (parse_composite-Within fuel false r.1 (omega arith) (omega arith))
            (λ s h'. omega arith))

  parse_attr-Within :
      (size : ℕ) (bytes : List ℕ)
      → length bytes ≤ n
      → Within (Left (length bytes)) (parse_attr parse size bytes)
  unfolding parse_attr
  parse_attr-Within size bytes small =
      Within-bind (Left (length bytes)) (Left (length bytes))
        (read_bytes ((size + 1) % 2 ^ 32) bytes) _ (read_bytes-Left _ bytes)
        (λ r h. value_of-Within (attr r.0) (length bytes) r.1 (omega arith) h)

  parse_dtag-Within :
      (fuel d : ℕ) (bytes : List ℕ)
      → length bytes < fuel
      → length bytes ≤ n
      → Within (Left (length bytes)) (parse_dtag parse fuel d bytes)
  unfolding parse_dtag
  parse_dtag-Within fuel d bytes enough small =
      Within-if (Left (length bytes)) (d == 19) (parsed (dtag d nil nil, bytes)) _ (omega arith) (
        Within-bind (λ s. length s.2 ≤ length bytes) (Left (length bytes))
          (parse_composite parse fuel (d == 64) bytes) _
          (parse_composite-Within fuel (d == 64) bytes enough small) (λ s h. h))

  -- every class of block
  parse_body-Within :
      (fuel value type : ℕ) (bytes : List ℕ)
      → length bytes < fuel
      → length bytes ≤ n
      → Within (Left (length bytes)) (parse_body parse fuel (value, type, bytes))
  unfolding parse_body parse_dattr
  parse_body-Within fuel value type bytes enough small =
      let if' = Within-if (Left {A = Block} (length bytes)) in
      let m0 : Parse (Block × List ℕ) = if type == 0 then parsed (ext value, bytes) else raised in
      let m4 = if type == 4 then parse_dattr parse value bytes else m0 in
      let m2 = if type == ccn_dtag then parse_dtag parse fuel value bytes else m4 in
      let m3 = if type == 3 then parse_attr parse value bytes else m2 in
      let m1 = if type == 1 then parse_tag parse fuel value bytes else m3 in
      let m6 = if type == ccn_udata then parse_udata value bytes else m1 in
      let h0 = if' (type == 0) (parsed (ext value, bytes)) raised (omega arith) tt in
      let dattr' = value_of-Within (dattr value) (length bytes) bytes small (omega arith) in
      let h4 = if' (type == 4) (parse_dattr parse value bytes) m0 dattr' h0 in
      let h2 =
        if' (type == ccn_dtag) (parse_dtag parse fuel value bytes) m4
          (parse_dtag-Within fuel value bytes enough small) h4 in
      let h3 =
        if' (type == 3) (parse_attr parse value bytes) m2 (parse_attr-Within value bytes small)
          h2 in
      let h1 =
        if' (type == 1) (parse_tag parse fuel value bytes) m3
          (parse_tag-Within fuel value bytes enough small) h3 in
      let h6 =
        if' (type == ccn_udata) (parse_udata value bytes) m1 (parse_udata-Within value bytes) h1 in
      if' (type == ccn_blob) (parse_blob value bytes) m6 (parse_blob-Within value bytes) h6

-- `ParseBlock` with more fuel than bytes ends, in a block, in an exception or in undefined behaviour,
-- and if there are bytes, a block has taken at least one of them.
pub parse_block-Within :
    (fuel : ℕ) (bytes : List ℕ)
    → length bytes < fuel
    → Within (Left (length bytes - 1)) (parse_block fuel bytes)
unfolding parse_block parse_body parse_block_header parse_loop
parse_block-Within zero bytes enough = omega arith
parse_block-Within (suc fuel) [] enough = omega arith
parse_block-Within (suc fuel) (b ∷ bytes) enough =
    let header = parse_block_header (b ∷ bytes) in
    let fewer = parse_block_header-length (b ∷ bytes) in
    let n = length bytes in
    Within-map (Left (length header.2)) (Left (suc n - 1)) _ (λ r h. omega arith)
      (parse_body-Within n (parse_block fuel)
        (λ bytes' small. parse_block-Within fuel bytes' (omega arith)) fuel header.0 header.1
        header.2 (omega arith) (omega arith))

-- ===== src/Encoding/Size.antt =====
-- The sizes that `GetSize` (helper/ndn-encoding-helper.cc) estimates, and what is written.
use vndn.Base.{
  ℕ, zero, suc, ◌+◌, ◌/◌, ◌%◌, ◌<◌, ◌≤◌, ◌≡◌, refl, subst, ◌-◌, ◌∙◌, Bool, true, false, Option,
  none, some, List, [], ◌∷◌, ◌++◌, length, length-append, arith, if◌then◌else◌, ltb, ◌==◌, not,
}
use vndn.Base.Int.{ℤ, pos, negsuc}
use vndn.Header.{InterestHeader}
use vndn.Name.{Name}
use vndn.Encoding.{
  Written, ◌⊕◌, nothing, header_loop, append_block_header, estimate_loop, estimate_block_header,
  append_number, estimate_number, decimal, append_closer, append_tagged_blob, estimate_tagged_blob,
  append_name_components, estimate_name_components, seconds, total_seconds, required_bytes,
  big_endian, fraction, append_timestamp_blob, estimate_timestamp_blob, append_element,
  estimate_element, append_count, estimate_count, append_if, estimate_if, append_exclude,
  estimate_exclude, nonce_bytes, serialize_interest, size_interest, serialize_content, size_content,
  ccn_dtag, ccn_blob, ccn_udata,
}

-- The count is the number of the bytes, and the size given.
abbrev pub IsSized : Written → ℕ → Type 0
IsSized w n = (length w.0 ≡ w.1) × (w.1 ≡ n)

join : (a b : Written) (m n : ℕ) → IsSized a m → IsSized b n → IsSized (a ⊕ b) (m + n)
join a b m n (p, q) (r, s) = (length-append a.0 b.0 ∙ omega arith, omega arith)

resized : (w : Written) {m n : ℕ} → m ≡ n → IsSized w m → IsSized w n
resized w e (p, q) = (p, q ∙ e)

header_loop-IsSized :
    (rounds val : ℕ) (w : Written) (n : ℕ)
    → IsSized w n
    → IsSized (header_loop rounds val w) (estimate_loop rounds val n)
unfolding header_loop estimate_loop
header_loop-IsSized zero val w n h = h
header_loop-IsSized (suc rounds) val w n (p, q) =
    let rest =
      header_loop-IsSized rounds (val / 128) (val % 128 ∷ w.0, w.1 + 1) (n + 1)
        (omega arith, omega arith) in
    done (val == 0) rest
  where
    done :
        (b : Bool)
        → IsSized
            (header_loop rounds (val / 128) (val % 128 ∷ w.0, w.1 + 1))
            (estimate_loop rounds (val / 128) (n + 1))
        → IsSized
            (if b then w else header_loop rounds (val / 128) (val % 128 ∷ w.0, w.1 + 1))
            (if b then n else estimate_loop rounds (val / 128) (n + 1))
    done true r = (p, q)
    done false r = r

pub block_header-IsSized :
    (val tt' : ℕ) → IsSized (append_block_header val tt') (estimate_block_header val)
unfolding append_block_header estimate_block_header
block_header-IsSized val tt' = header_loop-IsSized 10 (val / 16) _ 1 (refl, refl)

bytes-IsSized : (bytes : List ℕ) → IsSized (bytes, length bytes) (length bytes)
bytes-IsSized bytes = (refl, refl)

closer-IsSized : IsSized append_closer 1
closer-IsSized = (refl, refl)

number-IsSized : (n : ℕ) → IsSized (append_number n) (estimate_number n)
unfolding append_number estimate_number
number-IsSized n =
    join (append_block_header (length (decimal n)) ccn_udata) (decimal n, length (decimal n)) _ _
      (block_header-IsSized (length (decimal n)) ccn_udata) (bytes-IsSized (decimal n))

element-IsSized :
    (dtag : ℕ) (body : Written) (n : ℕ)
    → IsSized body n
    → IsSized (append_element dtag body) (estimate_element dtag n)
unfolding append_element estimate_element
element-IsSized dtag body n h =
    join (append_block_header dtag ccn_dtag ⊕ body) append_closer _ _
      (join (append_block_header dtag ccn_dtag) body _ _ (block_header-IsSized dtag ccn_dtag) h)
      closer-IsSized

if-IsSized :
    (b : Bool) (w : Written) (n : ℕ) → IsSized w n → IsSized (append_if b w) (estimate_if b n)
unfolding append_if estimate_if
if-IsSized true w n h = h
if-IsSized false w n h = (refl, refl)

tagged_blob-IsSized :
    (dtag : ℕ) (bytes : List ℕ)
    → IsSized (append_tagged_blob dtag bytes) (estimate_tagged_blob dtag (length bytes))
unfolding append_tagged_blob estimate_tagged_blob
tagged_blob-IsSized dtag bytes = sized (ltb 0 (length bytes))
  where
    blob : Written
    blob = append_block_header (length bytes) ccn_blob ⊕ (bytes, length bytes)

    sized :
        (b : Bool)
        → IsSized
            (append_block_header dtag ccn_dtag ⊕ (if b then blob else nothing) ⊕ append_closer)
            (if b
              then estimate_block_header dtag
                + estimate_block_header (length bytes)
                + length bytes
                + 1
              else estimate_block_header dtag + 1)
    sized true = resized _ (omega arith) (
        join _ append_closer _ _
          (join (append_block_header dtag ccn_dtag) blob _ _ (block_header-IsSized dtag ccn_dtag)
            (join _ _ _ _ (block_header-IsSized (length bytes) ccn_blob) (bytes-IsSized bytes)))
          closer-IsSized)
    sized false = resized _ (omega arith) (
        join _ append_closer _ _
          (join (append_block_header dtag ccn_dtag) nothing _ 0 (block_header-IsSized dtag ccn_dtag)
            (refl, refl))
          closer-IsSized)

name_components-IsSized :
    (name : Name) → IsSized (append_name_components name) (estimate_name_components name)
unfolding append_name_components estimate_name_components
name_components-IsSized [] = (refl, refl)
name_components-IsSized (component ∷ name) =
    join (append_tagged_blob 15 component) (append_name_components name) _ _
      (tagged_blob-IsSized 15 component) (name_components-IsSized name)

count-IsSized : (dtag : ℕ) (n : ℤ) → IsSized (append_count dtag n) (estimate_count dtag n)
unfolding append_count estimate_count
count-IsSized dtag (pos n) = element-IsSized dtag (append_number n) _ (number-IsSized n)
count-IsSized dtag (negsuc n) = (refl, refl)

exclude-IsSized : (e : Option Name) → IsSized (append_exclude e) (estimate_exclude e)
unfolding append_exclude estimate_exclude
exclude-IsSized none = (refl, refl)
exclude-IsSized (some e) =
    if-IsSized (ltb 0 (length e)) _ _ (element-IsSized 43 _ _ (name_components-IsSized e))

length-big_endian : (count ts : ℕ) → length (big_endian count ts) ≡ count
unfolding big_endian
length-big_endian zero ts = refl
length-big_endian (suc count) ts = omega (arith, length-big_endian count ts)

pub required_bytes-least : (rounds ts required : ℕ) → required ≤ required_bytes rounds ts required
unfolding required_bytes
required_bytes-least zero ts required = omega arith
required_bytes-least (suc rounds) ts required =
    ground (arith, required_bytes-least rounds (ts / 256) (required + 1))

-- The count of a timestamp is of the bytes that its seconds within the minute need.
timestamp-IsSized :
    (time : ℕ)
    → let required = required_bytes 5 (seconds time / 16) 2 in
      IsSized (append_timestamp_blob time) (estimate_block_header required + required)
unfolding append_timestamp_blob
timestamp-IsSized time =
    let required = required_bytes 5 (seconds time / 16) 2 in
    let least = required_bytes-least 5 (seconds time / 16) 2 in
    let (p, q) = block_header-IsSized required ccn_blob in
    (
      omega (
        arith,
        p,
        length-append (append_block_header required ccn_blob).0
            (big_endian (required - 2) (total_seconds time / 16) ++ big_endian 2 (fraction time)),
        length-append (big_endian (required - 2) (total_seconds time / 16))
            (big_endian 2 (fraction time)),
        length-big_endian (required - 2) (total_seconds time / 16),
        length-big_endian 2 (fraction time),
      ),
      omega (arith, q),
    )

timestamp-IsSized_minute :
    (time : ℕ)
    → time < 60000000
    → IsSized (append_timestamp_blob time) (estimate_timestamp_blob time)
unfolding estimate_timestamp_blob seconds total_seconds
timestamp-IsSized_minute time h =
    let same : seconds time ≡ total_seconds time = omega arith in
    subst
      (λ s.
        let required = required_bytes 5 (s / 16) 2 in
        IsSized (append_timestamp_blob time) (estimate_block_header required + required))
      same (timestamp-IsSized time)

-- `Serialize` of an interest with a lifetime below a minute writes as many bytes as it returns, and
-- as many as `GetSize` says.
pub serialize_interest-size :
    (name : Name) (header : InterestHeader)
    → header.interest_lifetime < 60000000
    → (length (serialize_interest name header).0 ≡ (serialize_interest name header).1)
      × ((serialize_interest name header).1 ≡ size_interest name header)
unfolding serialize_interest size_interest
serialize_interest-size name header h =
    join _ append_closer _ _
      (join _ _ _ _
        (join _ _ _ _
          (join _ _ _ _
            (join _ _ _ _
              (join _ _ _ _
                (join _ _ _ _
                  (join _ _ _ _
                    (join _ _ _ _
                      (join _ _ _ _
                        (join _ _ _ _ (block_header-IsSized 26 ccn_dtag)
                          (element-IsSized 14 _ _ (name_components-IsSized name)))
                        (count-IsSized 83 header.min_suffix_components))
                      (count-IsSized 84 header.max_suffix_components))
                    (exclude-IsSized header.exclude))
                  (if-IsSized header.child_selector _ _
                    (element-IsSized 85 _ _ (number-IsSized 1))))
                (if-IsSized header.answer_origin_kind _ _
                  (element-IsSized 47 _ _ (number-IsSized 1))))
              (count-IsSized 42 header.scope))
            (if-IsSized (not (header.interest_lifetime == 0)) _ _
              (element-IsSized 48 _ _ (timestamp-IsSized_minute header.interest_lifetime h))))
          (if-IsSized (ltb 0 header.nonce) _ _ (nonce-IsSized header.nonce)))
        (if-IsSized (ltb 0 header.nack_type) _ _
          (element-IsSized 200 _ _ (number-IsSized header.nack_type))))
      closer-IsSized
  where
    nonce-IsSized :
        (nonce : ℕ)
        → IsSized (append_tagged_blob 41 (nonce_bytes nonce)) (estimate_tagged_blob 41 4)
    nonce-IsSized nonce = unfold nonce_bytes in tagged_blob-IsSized 41 (nonce_bytes nonce)

-- `Serialize` of a content object's header writes as many bytes as it returns, and as many as
-- `GetSize` says.
pub serialize_content-size :
    (name : Name)
    → (length (serialize_content name).0 ≡ (serialize_content name).1)
      × ((serialize_content name).1 ≡ size_content name)
unfolding serialize_content size_content
serialize_content-size name =
    join _ _ _ _
      (join _ _ _ _
        (join _ _ _ _
          (join _ _ _ _ (block_header-IsSized 64 ccn_dtag)
            (element-IsSized 37 _ _ (tagged_blob-IsSized 54 [])))
          (element-IsSized 14 _ _ (name_components-IsSized name)))
        (element-IsSized 20 _ _ (tagged_blob-IsSized 60 [])))
      (block_header-IsSized 19 ccn_dtag)

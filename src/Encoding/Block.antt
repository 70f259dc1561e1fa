-- ===== src/Encoding/Block.antt =====
-- The head of a block: what `AppendBlockHeader` writes, `ParseBlock` reads.
use vndn.Base.{
  true, false, ℕ, zero, suc, ◌+◌, ◌*◌, ◌/◌, ◌%◌, ◌^◌, ◌<◌, ◌≡◌, refl, ◌∙◌, ap, List, [], ◌∷◌, ◌++◌,
  arith, ◌==◌, ltb, inl, inr, Bool-cases,
}
use vndn.Encoding.{header_loop, append_block_header, parse_loop, parse_block_header}

-- The values that a number of rounds is enough for.
bound : ℕ → ℕ
bound zero = 1
bound (suc rounds) = 128 * bound rounds

-- The parser's loop reads one more byte of a value.
parse_loop_step :
    (val byte : ℕ) (bytes : List ℕ)
    → val < 2 ^ 32
    → parse_loop (byte ∷ bytes) (val / 128) (val % 128) ≡ parse_loop bytes val byte
unfolding parse_loop
parse_loop_step val byte bytes below =
    let low : ltb (val % 128) 128 ≡ true = ground arith in
    let whole : (val / 128 * 128 + val % 128) % 2 ^ 32 ≡ val = omega arith in
    rw low (ap (λ v. parse_loop bytes v byte) whole)

parse_loop_first :
    (byte : ℕ) (bytes : List ℕ) → parse_loop (byte ∷ bytes) 0 0 ≡ parse_loop bytes 0 byte
unfolding parse_loop
parse_loop_first byte bytes = refl

-- Reading on after the bytes of a value is the same as starting with that value.
parse_loop-header_loop :
    (rounds val byte n : ℕ) (bytes rest : List ℕ)
    → val < bound rounds
    → val < 2 ^ 32
    → parse_loop ((header_loop rounds val (byte ∷ bytes, n)).0 ++ rest) 0 0
      ≡ parse_loop (bytes ++ rest) val byte
unfolding bound header_loop
parse_loop-header_loop zero val byte n bytes rest small below =
    parse_loop_first byte (bytes ++ rest)
    ∙ ap (λ v. parse_loop (bytes ++ rest) v byte) (omega arith)
parse_loop-header_loop (suc rounds) val byte n bytes rest small below =
    let next =
      parse_loop-header_loop rounds (val / 128) (val % 128) (n + 1) (byte ∷ bytes) rest
        (omega arith) (omega arith) in
    elim (Bool-cases (val == 0)) [
      | inl none' ↦
          rw (none', header_loop)
            (parse_loop_first byte (bytes ++ rest)
              ∙ ap (λ v. parse_loop (bytes ++ rest) v byte) (ground arith))
      | inr more ↦ rw (more, header_loop) (next ∙ parse_loop_step val byte (bytes ++ rest) below)
    ]

parse_loop_last :
    (bytes : List ℕ) (value byte : ℕ)
    → ltb byte 128 ≡ false
    → parse_loop bytes value byte ≡ (value, byte, bytes)
unfolding parse_loop
parse_loop_last [] value byte h = refl
parse_loop_last (b ∷ bytes) value byte h = rw h refl

-- `ParseBlock` on what `AppendBlockHeader` wrote for a value below 2 ^ 32 finds the value, the type,
-- and whatever follows.
pub parse_block_header-append :
    (val tt' : ℕ) (rest : List ℕ)
    → val < 2 ^ 32
    → tt' < 8
    → parse_block_header ((append_block_header val tt').0 ++ rest) ≡ (val, tt', rest)
unfolding parse_block_header append_block_header bound
parse_block_header-append val tt' rest below small =
    let last = 128 + val % 16 * 8 + tt' % 8 in
    let found = parse_loop-header_loop 10 (val / 16) last 1 [] rest (omega arith) (omega arith) in
    let stop = parse_loop_last rest (val / 16) last (ground arith) in
    let value : (val / 16 * 16 + last % 128 / 8) % 2 ^ 32 ≡ val = omega arith in
    let type : last % 8 ≡ tt' = omega arith in
    ap (λ r. ((r.0 * 16 + r.1 % 128 / 8) % 2 ^ 32, r.1 % 8, r.2)) (found ∙ stop)
    ∙ ap (λ v. (v, last % 8, rest)) value
    ∙ ap (λ t. (val, t, rest)) type

-- The first byte of a number of 7 bits to a byte is not 0.
header_loop-head :
    (rounds val byte n : ℕ) (bytes : List ℕ)
    → val < bound rounds
    → (val ≡ 0 → 0 < byte)
    → (b : ℕ) × (bs : List ℕ) × ((header_loop rounds val (byte ∷ bytes, n)).0 ≡ b ∷ bs) × (0 < b)
unfolding bound header_loop
header_loop-head zero val byte n bytes small h = (byte, bytes, refl, h (omega arith))
header_loop-head (suc rounds) val byte n bytes small h = elim (Bool-cases (val == 0)) [
  | inl none' ↦ (byte, bytes, rw (none', header_loop) refl, h (ground arith))
  | inr more ↦
      let next =
        header_loop-head rounds (val / 128) (val % 128) (n + 1) (byte ∷ bytes) (omega arith)
          (λ e. ground arith) in
      (next.0, next.1, rw (more, header_loop) next.2, next.3)
]

-- The first byte of a block's head is not the closer.
pub append_block_header-head :
    (val tt' : ℕ)
    → val < 2 ^ 32
    → (b : ℕ) × (bs : List ℕ) × ((append_block_header val tt').0 ≡ b ∷ bs) × (0 < b)
unfolding append_block_header bound
append_block_header-head val tt' below =
    header_loop-head 10 (val / 16) (128 + val % 16 * 8 + tt' % 8) 1 [] (omega arith)
      (λ e. omega arith)

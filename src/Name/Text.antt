-- ===== src/Name/Text.antt =====
-- Names as text: `operator<<` and the constructor from a string (network/ndn-name-components.cc).
use vndn.Base.{
  append_assoc, append_empty, ℕ, ◌≡◌, refl, sym, ◌∙◌, ap, false, List, [], ◌∷◌, ◌++◌, All,
  All-append, All-map_pred, ◌==◌, length, arith,
}
use vndn.Name.{
  Component, Name, add, slash, print_components, print, flush, read, is_space, skip_spaces, parse,
}

-- A character that is neither a slash nor white space.
abbrev pub IsPlain : ℕ → Type 0
IsPlain ch = (ch == slash ≡ false) × (is_space ch ≡ false)

-- A component that a text can hold: not empty, and of such characters.
abbrev pub IsWord : Component → Type 0
IsWord [] = ⊥
IsWord (ch ∷ c) = IsPlain ch × All IsPlain c

word-IsPlain : (c : Component) → IsWord c → All IsPlain c
word-IsPlain [] h = absurd h
word-IsPlain (ch ∷ c) h = h

skip_spaces_none : (l : List ℕ) → All (λ ch. is_space ch ≡ false) l → skip_spaces l ≡ l
unfolding skip_spaces
skip_spaces_none [] h = refl
skip_spaces_none (ch ∷ l) (p, h) = rw p (ap (◌∷◌ ch) (skip_spaces_none l h))

print_components_no_space :
    (name : Name) → All IsWord name → All (λ ch. is_space ch ≡ false) (print_components name)
unfolding print_components is_space
print_components_no_space [] h = tt
print_components_no_space (c ∷ name) (w, h) = (
  refl,
  All-append (λ ch. is_space ch ≡ false) c (print_components name)
      (All-map_pred IsPlain (λ ch. is_space ch ≡ false) c (λ ch p. p.1) (word-IsPlain c w))
      (print_components_no_space name h),
)

read_word :
    (c rest component : List ℕ) (name : Name)
    → All IsPlain c
    → read (c ++ rest) component name ≡ read rest (component ++ c) name
unfolding read
read_word [] rest component name h = ap (λ x. read rest x name) (sym (append_empty component))
read_word (ch ∷ c) rest component name (p, h) = rw (p.0) (
    read_word c rest (component ++ (ch ∷ [])) name h
    ∙ ap (λ x. read rest x name) (append_assoc component (ch ∷ []) c))

flush_word : (name : Name) (c : Component) → IsWord c → flush name c ≡ name ++ (c ∷ [])
unfolding flush add
flush_word name [] h = absurd h
flush_word name (ch ∷ c) h = refl

read-print_components :
    (r : Name) (component : Component) (name : Name)
    → All IsWord r
    → read (print_components r) component name ≡ flush name component ++ r
unfolding print_components read
read-print_components [] component name h = sym (append_empty (flush name component))
read-print_components (d ∷ r) component name (w, h) =
    read_word d (print_components r) [] (flush name component) (word-IsPlain d w)
    ∙ read-print_components r d (flush name component) h
    ∙ ap (λ x. x ++ r) (flush_word (flush name component) d w)
    ∙ append_assoc (flush name component) (d ∷ []) r

print_some : (c : Component) (name : Name) → print (c ∷ name) ≡ print_components (c ∷ name)
unfolding print
print_some c name = let more : (length (c ∷ name) == 0) ≡ false = ground arith in rw more refl

-- A name whose components are not empty and have no slash and no white space is read back from its
-- text; the root is too.
pub parse-print : (name : Name) → All IsWord name → parse (print name) ≡ name
unfolding parse print flush
parse-print [] h = unfold skip_spaces is_space read in refl
parse-print (c ∷ name) h =
    ap parse (print_some c name)
    ∙ ap (λ text. read text [] [])
        (skip_spaces_none (print_components (c ∷ name)) (print_components_no_space (c ∷ name) h))
    ∙ read-print_components (c ∷ name) [] [] h

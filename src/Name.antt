-- ===== src/Name.antt =====
-- NDN names: network/ndn-name-components.{h,cc} and daemon/hash-helper.h. A component is the list
-- of its bytes (`std::string`), a name is the list of its components (`m_prefix`).
pub mod Compare
pub mod Prefix
pub mod Text
use vndn.Base.{
  ℕ, zero, suc, ◌+◌, ◌-◌, ◌*◌, ◌/◌, ◌%◌, ◌^◌, Bool, true, false, ◌&&◌, Option, none, some, List, [],
  ◌∷◌, ◌++◌, ◌==◌, ltb, leb, if◌then◌else◌, length, take,
}
use Prim.Native.Nat.{bit_xor}

abbrev pub Component : Type 0
Component = List ℕ

abbrev pub Name : Type 0
Name = List Component

-- `Add`
unfoldable pub add : Name → Component → Name
add name value = name ++ (value ∷ [])

-- `GetLastComponent`: the empty string for the root
unfoldable pub get_last_component : Name → Component
get_last_component [] = []
get_last_component (c ∷ []) = c
get_last_component (c ∷ d ∷ r) = get_last_component (d ∷ r)

-- `GetSubComponents`: the first `num` components; `none` is the failed assertion
unfoldable pub get_sub_components : ℕ → Name → Option Name
get_sub_components num name = if leb num (length name) then some (take num name) else none

-- `cut`. `m_prefix.size () - minusComponents` is a `size_t`, which wraps around, and the loop would
-- then run past the end of the list: that is `none`.
unfoldable pub cut : ℕ → Name → Option Name
cut minus_components name =
    let rounds = (length name + 2 ^ 64 - minus_components) % 2 ^ 64 in
    if leb rounds (length name) then some (take rounds name) else none

-- `std::equal` on two strings, and on two lists of strings
unfoldable pub equal_bytes : Component → Component → Bool
equal_bytes [] [] = true
equal_bytes (a ∷ tl) (b ∷ bs) = a == b && equal_bytes tl bs
equal_bytes _ _ = false

unfoldable pub equal_components : Name → Name → Bool
equal_components [] q = true
equal_components (c ∷ p) [] = false
equal_components (c ∷ p) (d ∷ q) = equal_bytes c d && equal_components p q

-- `operator==`: sizes first, then the components
unfoldable pub name_eq : Name → Name → Bool
name_eq p q = if length p == length q then equal_components p q else false

-- `std::lexicographical_compare` of two strings and of two names: `operator<`
unfoldable pub bytes_lt : Component → Component → Bool
bytes_lt _ [] = false
bytes_lt [] (b ∷ bs) = true
bytes_lt (a ∷ tl) (b ∷ bs) = if ltb a b then true else if ltb b a then false else bytes_lt tl bs

unfoldable pub name_lt : Name → Name → Bool
name_lt _ [] = false
name_lt [] (d ∷ q) = true
name_lt (c ∷ p) (d ∷ q) = if bytes_lt c d then true else if bytes_lt d c then false else name_lt p q

abbrev slash : ℕ
slash = b'/'

-- `Print`: the text that `operator<<` writes
unfoldable pub print_components : Name → List ℕ
print_components [] = []
print_components (c ∷ r) = slash ∷ (c ++ print_components r)

unfoldable pub print : Name → List ℕ
print name = if length name == 0 then slash ∷ [] else print_components name

-- the body of `operator>>` at the end of a component, and its loop over the characters
unfoldable pub flush : Name → Component → Name
flush name [] = name
flush name (b ∷ bs) = add name (b ∷ bs)

unfoldable pub read : List ℕ → Component → Name → Name
read [] component name = flush name component
read (ch ∷ rest) component name =
    let rest_empty = read rest [] (flush name component) in
    let rest_more = read rest (component ++ (ch ∷ [])) name in
    if ch == slash then rest_empty else rest_more

-- the constructor from a string; `istream_iterator<char>` skips white space, as `operator>>` on a
-- character does
unfoldable pub is_space : ℕ → Bool
is_space ch = if ch == 32 then true else (leb 9 ch && leb ch 13)

unfoldable pub skip_spaces : List ℕ → List ℕ
skip_spaces [] = []
skip_spaces (ch ∷ rest) = if is_space ch then skip_spaces rest else ch ∷ skip_spaces rest

unfoldable pub parse : List ℕ → Name
parse prefix = read (skip_spaces prefix) [] []

-- `NDNPrefixHash`: the hash of a name, on a 64-bit `size_t`. A character is a signed `char`, and
-- adding a negative one wraps around.
unfoldable pub hash_step : ℕ → ℕ → ℕ
hash_step hash c =
    let mixed = bit_xor (hash * 2 ^ 6 % 2 ^ 64) (hash / 2 ^ 27) in
    (mixed + (if ltb c 128 then c else 2 ^ 64 - (256 - c))) % 2 ^ 64

unfoldable pub hash_bytes : ℕ → Component → ℕ
hash_bytes hash [] = hash
hash_bytes hash (c ∷ cs) = hash_bytes (hash_step hash c) cs

unfoldable pub hash_components : ℕ → Name → ℕ
hash_components hash [] = hash
hash_components hash (str ∷ r) =
    hash_components (hash_bytes (hash_step ((hash + length str) % 2 ^ 64) slash) str) r

unfoldable pub prefix_hash : Name → ℕ
prefix_hash = hash_components 23

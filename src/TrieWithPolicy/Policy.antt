-- ===== src/TrieWithPolicy/Policy.antt =====
-- The list of a replacement policy, utils/lru-policy.h, as the set of the paths in it.
use vndn.Base.{
  ◌≡◌, ◌≢◌, sym, ◌∙◌, subst, Option, none, some, List, [], ◌∷◌, ◌++◌, arith, suc, length,
  length-append,
}
use vndn.Base.Keyed
use vndn.Base.Keyed.{Distinct, NoKey}
use vndn.Name.{Name}
use vndn.Name.Compare.{Name-discrete}
use vndn.TrieWithPolicy.{list_erase, relocate}

abbrev pub Listing : List Name → Type 0
Listing = Distinct (λ path. path)

-- a path in the list
unfoldable pub listed : List Name → Name → Option Name
listed list path = Keyed.find Name-discrete (λ p. p) path list

pub listed-push_self :
    (path : Name) (list : List Name)
    → listed list path ≡ none
    → listed (list ++ (path ∷ [])) path ≡ some path
unfolding listed
listed-push_self path list e =
    Keyed.find-append_one Name-discrete (λ p. p) path list path e ∙ ground arith

pub listed-push_ne :
    (path other : Name) (list : List Name)
    → other ≢ path
    → listed (list ++ (path ∷ [])) other ≡ listed list other
unfolding listed Keyed.find
listed-push_ne path other [] n = ground arith
listed-push_ne path other (p ∷ list) n = ground (arith, listed-push_ne path other list n)

pub Listing-push :
    (path : Name) (list : List Name)
    → listed list path ≡ none
    → Listing list
    → Listing (list ++ (path ∷ []))
unfolding listed
Listing-push path list e d =
    Keyed.Distinct-append_one Name-discrete (λ p. p) list path
      (Keyed.find-eq-none Name-discrete (λ p. p) path list e) d

pub listed-erase_self :
    (path : Name) (list : List Name) → Listing list → listed (list_erase path list) path ≡ none
unfolding listed list_erase
listed-erase_self path list d = Keyed.find-erase_self Name-discrete (λ p. p) path list d

pub listed-erase_ne :
    (path other : Name) (list : List Name)
    → other ≢ path
    → listed (list_erase path list) other ≡ listed list other
unfolding listed list_erase
listed-erase_ne path other list n = Keyed.find-erase_ne Name-discrete (λ p. p) path other list n

pub Listing-erase : (path : Name) (list : List Name) → Listing list → Listing (list_erase path list)
unfolding list_erase
Listing-erase path list d = Keyed.Distinct-erase Name-discrete (λ p. p) path list d

pub listed-relocate :
    (path : Name) (list : List Name) (other : Name)
    → Listing list
    → listed list path ≡ some path
    → listed (relocate path list) other ≡ listed list other
unfolding relocate
listed-relocate path list other d e = elim (Name-discrete other path) [
  | yes q ↦
      subst (λ p. listed (list_erase path list ++ (path ∷ [])) p ≡ listed list p) (sym q)
        (listed-push_self path _ (listed-erase_self path list d) ∙ sym e)
  | no q ↦ listed-push_ne path other _ q ∙ listed-erase_ne path other list q
]

pub Listing-relocate :
    (path : Name) (list : List Name) → Listing list → Listing (relocate path list)
unfolding relocate
Listing-relocate path list d =
    Listing-push path _ (listed-erase_self path list d) (Listing-erase path list d)

pub listed-first : (path : Name) (list : List Name) → listed (path ∷ list) path ≡ some path
unfolding listed
listed-first path list = unfold Keyed.find in ground arith

pub length-list_erase :
    (path : Name) (list : List Name)
    → listed list path ≡ some path
    → suc (length (list_erase path list)) ≡ length list
unfolding listed list_erase Keyed.find Keyed.erase
length-list_erase path [] e = cc
length-list_erase path (p ∷ list) e = ground (arith, length-list_erase path list)

pub length-relocate :
    (path : Name) (list : List Name)
    → listed list path ≡ some path
    → length (relocate path list) ≡ length list
unfolding relocate
length-relocate path list e =
    omega (arith, length-append (list_erase path list) (path ∷ []), length-list_erase path list e)

pub unlisted-cons :
    (key path : Name) (list : List Name)
    → listed (path ∷ list) key ≡ none
    → (path ≢ key) × (listed list key ≡ none)
unfolding listed Keyed.find
unlisted-cons key path list e = ground arith

pub unlisted-tail :
    (path : Name) (list : List Name) → Listing (path ∷ list) → listed list path ≡ none
unfolding listed
unlisted-tail path list (n, d) = Keyed.find-NoKey Name-discrete (λ p. p) path list n

pub list_erase-first : (path : Name) (list : List Name) → list_erase path (path ∷ list) ≡ list
unfolding list_erase Keyed.erase
list_erase-first path list = ground arith

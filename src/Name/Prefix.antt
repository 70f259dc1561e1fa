-- ===== src/Name/Prefix.antt =====
-- The longest prefix match, which NDNFib, NDNPit and PacketStorage write as one and the same loop:
-- from all components of the name down to none, look the sub-prefix up.
use vndn.Base.{
  ◌↔◌, ℕ, zero, suc, ◌+◌, ◌≤◌, ◌<◌, ◌≡◌, inl, inr, Option, none, some, length, take, arith,
  Option-cases, take-length, ℕ_discrete, dec_lt, ap, sym, ◌∙◌,
}
use vndn.Name.{Name, get_sub_components}

module _ {ℓ} {A : Type ℓ} (lookup : Name → Option A) where
  -- `lookup` is the `find` of the container; the argument is `componentsCount`.
  unfoldable pub match_loop : ℕ → Name → Option A
  match_loop zero name = none
  match_loop (suc components_count) name =
      let shorter = match_loop components_count name in
      elim (get_sub_components components_count name) [
        | none ↦ none
        | some sub_prefix ↦ elim (lookup sub_prefix) [ some found ↦ some found | none ↦ shorter ]
      ]

  unfoldable pub longest_prefix_match : Name → Option A
  longest_prefix_match name = match_loop (length name + 1) name

  pub get_sub_components-take :
      (n : ℕ) (name : Name) → n ≤ length name → get_sub_components n name ≡ some (take n name)
  unfolding get_sub_components
  get_sub_components-take n name h = ground arith

  -- What a match at `count` components and below means.
  abbrev pub IsLongest : ℕ → Name → A → Type ℓ
  IsLongest count name a =
      (n : ℕ) × (n < count)
      × (lookup (take n name) ≡ some a)
      × ((m : ℕ) → n < m → m < count → lookup (take m name) ≡ none)

  step_found :
      (c : ℕ) (name : Name) (a : A)
      → c ≤ length name
      → lookup (take c name) ≡ some a
      → match_loop (suc c) name ≡ some a
  unfolding match_loop
  step_found c name a h e = rw (get_sub_components-take c name h, match_loop) (rw (e, match_loop))

  step_missed :
      (c : ℕ) (name : Name)
      → c ≤ length name
      → lookup (take c name) ≡ none
      → match_loop (suc c) name ≡ match_loop c name
  unfolding match_loop
  step_missed c name h e = rw (get_sub_components-take c name h, match_loop) (rw (e, match_loop))

  below_suc :
      (c m : ℕ) (name : Name)
      → lookup (take c name) ≡ none
      → (m < c → lookup (take m name) ≡ none)
      → m < suc c
      → lookup (take m name) ≡ none
  below_suc c m name e h lt = elim (ℕ_discrete m c) [ yes q ↦ rw q e | no q ↦ h (omega arith) ]

  match_loop-some :
      (c : ℕ) (name : Name) (a : A)
      → c ≤ length name + 1
      → match_loop c name ≡ some a
      → IsLongest c name a
  match_loop-some zero name a h e = unfold match_loop in cc
  match_loop-some (suc c) name a h e = elim (Option-cases (lookup (take c name))) [
    | inl missed ↦
        let (n, lt, found, longest) =
          match_loop-some c name a (omega arith)
            (sym (step_missed c name (omega arith) missed) ∙ e) in
        (n, omega arith, found, λ m above below. below_suc c m name missed (longest m above) below)
    | inr (b, found) ↦ (
      c,
      omega arith,
      found ∙ sym (step_found c name b (omega arith) found) ∙ e,
      λ m above below. absurd (omega arith),
    )
  ]

  match_loop-none :
      (c : ℕ) (name : Name)
      → c ≤ length name + 1
      → match_loop c name ≡ none
      → (m : ℕ) → m < c
      → lookup (take m name) ≡ none
  match_loop-none zero name h e m lt = absurd (omega arith)
  match_loop-none (suc c) name h e m lt = elim (Option-cases (lookup (take c name))) [
    | inl missed ↦
        below_suc c m name missed
          (match_loop-none c name (omega arith) (sym (step_missed c name (omega arith) missed) ∙ e)
            m)
          lt
    | inr (b, found) ↦ absurd (cc (step_found c name b (omega arith) found))
  ]

  -- A match is the entry of a prefix of the name, and no longer prefix of the name has an entry.
  pub longest_prefix_match-some :
      (name : Name) (a : A)
      → longest_prefix_match name ≡ some a
      → IsLongest (length name + 1) name a
  unfolding longest_prefix_match
  longest_prefix_match-some name a e = match_loop-some _ name a (omega arith) e

  -- Where there is no match, no prefix of the name has an entry.
  pub longest_prefix_match-none :
      (name : Name)
      → longest_prefix_match name ≡ none
      → (m : ℕ) → m ≤ length name
      → lookup (take m name) ≡ none
  unfolding longest_prefix_match
  longest_prefix_match-none name e m h = match_loop-none _ name (omega arith) e m (omega arith)

  -- An entry of the whole name is the match.
  pub longest_prefix_match_exact :
      (name : Name) (a : A) → lookup name ≡ some a → longest_prefix_match name ≡ some a
  unfolding longest_prefix_match
  longest_prefix_match_exact name a e =
      let one : length name + 1 ≡ suc (length name) = omega arith in
      rw one (step_found (length name) name a (omega arith) (rw (take-length name) e))

  same_length :
      (name : Name) (n : ℕ) (a b : A)
      → IsLongest (length name + 1) name a
      → n < length name + 1
      → lookup (take n name) ≡ some b
      → ((k : ℕ) → n < k → k < length name + 1 → lookup (take k name) ≡ none)
      → a ≡ b
  same_length name n a b (m', lt', at_m, above_m) lt at_n above_n = elim (dec_lt n m') [
    | yes q ↦ absurd (ground (arith, above_n m' q lt'))
    | no q ↦ elim (dec_lt m' n) [
      | yes r ↦ absurd (ground (arith, above_m n r lt))
      | no r ↦
          let same : m' ≡ n = omega arith in ground (arith, ap (λ k. lookup (take k name)) same)
    ]
  ]

  -- There is one longest prefix with an entry, and the match is that entry.
  pub longest_prefix_match_unique :
      (name : Name) (a : A)
      → IsLongest (length name + 1) name a
      → longest_prefix_match name ≡ some a
  longest_prefix_match_unique name a (n, lt, found, longest) =
      elim (Option-cases (longest_prefix_match name)) [
        | inl missed ↦
            absurd (none_found n found (longest_prefix_match-none name missed n (omega arith)))
        | inr (b, matched) ↦
            matched
            ∙ ap some
                (same_length name n b a (longest_prefix_match-some name b matched) lt found longest)
      ]
    where
      none_found : (n : ℕ) → lookup (take n name) ≡ some a → lookup (take n name) ≡ none → ⊥
      none_found n e h = cc

  -- `LongestPrefixMatch` answers an entry exactly if it is the one of a prefix of the name and no
  -- longer prefix of the name has an entry.
  pub longest_prefix_match_iff :
      (name : Name) (a : A)
      → (longest_prefix_match name ≡ some a) ↔ IsLongest (length name + 1) name a
  longest_prefix_match_iff name a =
      (longest_prefix_match-some name a, longest_prefix_match_unique name a)

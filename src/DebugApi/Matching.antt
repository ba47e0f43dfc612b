-- ===== src/DebugApi/Matching.antt =====
-- Matches of src/client/DebugApi.cpp.
use cybermp.Base.{
  ℕ, ◌≡◌, ◌↔◌, refl, ap, List, [], ◌∷◌, ◌++◌, true, false, Option, length, ◌==◌, Bool-cases, inl,
  inr, arith,
}
use cybermp.DebugApi.{lowered, starts_with, contains, matches, text_of}

starts_with→ :
    (filter text : List ℕ)
    → starts_with filter text ≡ true
    → (after : List ℕ) × (text ≡ filter ++ after)
unfolding starts_with
starts_with→ [] text h = (text, refl)
starts_with→ (p ∷ ps) [] h = cc
starts_with→ (p ∷ ps) (c ∷ cs) h =
    let same : p ≡ c = ground (arith, h) in
    let (after, e) = starts_with→ ps cs (ground (arith, h)) in (after, rw (same, e) refl)

→starts_with : (filter after : List ℕ) → starts_with filter (filter ++ after) ≡ true
unfolding starts_with
→starts_with [] after = refl
→starts_with (p ∷ ps) after = ground (arith, →starts_with ps after)

contains→ :
    (filter text : List ℕ)
    → contains filter text ≡ true
    → (before : List ℕ) × (after : List ℕ) × (text ≡ before ++ (filter ++ after))
unfolding contains
contains→ filter [] h = let (after, e) = starts_with→ filter [] h in ([], after, e)
contains→ filter (c ∷ cs) h = elim (Bool-cases (starts_with filter (c ∷ cs))) [
  | inl t ↦ let (after, e) = starts_with→ filter (c ∷ cs) t in ([], after, e)
  | inr t ↦
      let (before, after, e) = contains→ filter cs (ground (arith, t, h)) in
      (c ∷ before, after, ap (◌∷◌ c) e)
]

starts_with-contains :
    (filter text : List ℕ) → starts_with filter text ≡ true → contains filter text ≡ true
unfolding contains
starts_with-contains filter [] h = h
starts_with-contains filter (c ∷ cs) h = rw h refl

contains-cons :
    (filter : List ℕ) (c : ℕ) (cs : List ℕ)
    → contains filter cs ≡ true
    → contains filter (c ∷ cs) ≡ true
unfolding contains
contains-cons filter c cs h = ground (arith, h)

→contains : (filter before after : List ℕ) → contains filter (before ++ (filter ++ after)) ≡ true
→contains filter [] after =
    starts_with-contains filter (filter ++ after) (→starts_with filter after)
→contains filter (c ∷ before) after =
    contains-cons filter c (before ++ (filter ++ after)) (→contains filter before after)

-- The name has the filter in it.
abbrev pub HasPart : List ℕ → List ℕ → Type 0
HasPart filter text = (before : List ℕ) × (after : List ℕ) × (text ≡ before ++ (filter ++ after))

-- A name matches a filter exactly if, in lower case, it is some text followed by the filter and by
-- some text; a null name is like an empty one.
pub matches_lem :
    (name : Option (List ℕ)) (filter : List ℕ)
    → (matches name filter ≡ true) ↔ HasPart filter (lowered (text_of name))
unfolding matches
matches_lem name [] = (λ h. ([], lowered (text_of name), refl), λ p. refl)
matches_lem name (f ∷ fs) =
    let some_filter : (length (f ∷ fs) == 0) ≡ false = ground arith in
    (
      λ h. contains→ (f ∷ fs) (lowered (text_of name)) (rw some_filter at h),
      λ p. rw (some_filter, p.2) (→contains (f ∷ fs) p.0 p.1),
    )

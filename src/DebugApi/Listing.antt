-- ===== src/DebugApi/Listing.antt =====
-- FindClasses and DumpMethods of src/client/DebugApi.cpp.
use cybermp.Base.{
  ℕ, zero, suc, ◌+◌, ◌%◌, ◌^◌, ◌<◌, ◌≡◌, ◌≢◌, refl, sym, ◌∙◌, List, [], ◌∷◌, ◌++◌, map, true, false,
  Option, none, some, length, take, ltb, ◌==◌, if◌then◌else◌, codes, to_decimal, filter_by,
  Bool-cases, inl, inr, arith, list_laws, append_assoc, append-nil,
}
use cybermp.DebugApi.{
  Shown, show_types, listed, find_classes, matches, lowered, Class, Function, show_classes, heading,
  say, dumped, dump_methods, signature, show_functions, show_function, max_types, nothing_shown,
  show,
}

abbrev pub found_in : List ℕ → List (List ℕ) → List (List ℕ)
found_in filter names = filter_by (λ name. matches (some name) filter) names

abbrev pub type_line : List ℕ → List ℕ
type_line name = codes "  " ++ name

-- With room for so many lines more.
show_types_lem :
    (filter : List ℕ) (names : List (List ℕ)) (room : ℕ) (s : Shown)
    → s.count + room ≡ 200
    → let r = show_types filter names s in
      let more = take room (found_in filter names) in
      (r.lines ≡ s.lines ++ map type_line more) × (r.count ≡ s.count + length more)
unfolding show_types filter_by
show_types_lem filter [] zero s h = (sym (append-nil s.lines), omega arith)
show_types_lem filter [] (suc room) s h = (sym (append-nil s.lines), omega arith)
show_types_lem filter (name ∷ names) zero s h =
    let full : (ltb s.count max_types) ≡ false = ground (arith, h) in
    rw (full, show_types) (show_types_lem filter names zero s h)
show_types_lem filter (name ∷ names) (suc room) s h =
    let fits : (ltb s.count max_types) ≡ true = ground (arith, h) in
    elim (Bool-cases (matches (some name) filter)) [
      | inl t ↦
          let next = show (type_line name) s in
          let (lines, count) = show_types_lem filter names room next (omega arith) in
          rw (fits, t, show_types, filter_by)
            (lines ∙ append_assoc s.lines (type_line name ∷ []) _, omega (arith, count))
      | inr t ↦ rw (fits, t, show_types, filter_by) (show_types_lem filter names (suc room) s h)
    ]

-- FindClasses with a filter that is not empty, where there is a type system: it logs the names
-- that match the filter in lower case, in their order and up to 200 of them, and says how many it
-- has logged.
pub find_classes_lem :
    (filter : List ℕ) (names : List (List ℕ))
    → filter ≢ []
    → let shown = take 200 (found_in (lowered filter) names) in
      find_classes filter (some names)
      ≡ (to_decimal (length shown) ++ codes " type(s) logged", map type_line shown)
unfolding find_classes listed
find_classes_lem [] names h = absurd (h refl)
find_classes_lem (c ∷ cs) names h =
    let asked : (length (lowered (c ∷ cs)) == 0) ≡ false = ground arith in
    let (lines, count) = show_types_lem (lowered (c ∷ cs)) names 200 nothing_shown refl in
    let number : (show_types (lowered (c ∷ cs)) names nothing_shown).count
        ≡ length (take 200 (found_in (lowered (c ∷ cs)) names)) =
      omega (arith, count) in
    rw (asked, lines, number) refl

-- The functions of a list that match.
abbrev pub matching : List ℕ → List (Option Function) → List Function
matching filter [] = []
matching filter (none ∷ fs) = matching filter fs
matching filter (some f ∷ fs) =
    let rest = matching filter fs in if matches (some f.short_name) filter then f ∷ rest else rest

abbrev pub function_line : List ℕ → Function → List ℕ
function_line label f = label ++ signature f

show_functions_lem :
    (label filter : List ℕ) (fs : List (Option Function)) (s : Shown)
    → s.count < 2 ^ 32
    → let r = show_functions label filter fs s in
      let hits = matching filter fs in
      (r.lines ≡ s.lines ++ map (function_line label) hits)
      × (r.count ≡ (s.count + length hits) % 2 ^ 32)
unfolding show_functions
show_functions_lem label filter [] s h = (sym (append-nil s.lines), omega arith)
show_functions_lem label filter (none ∷ fs) s h =
    unfold show_function in show_functions_lem label filter fs s h
show_functions_lem label filter (some f ∷ fs) s h =
    elim (Bool-cases (matches (some f.short_name) filter)) [
      | inl t ↦
          let next = show (function_line label f) s in
          let (lines, count) = show_functions_lem label filter fs next (omega arith) in
          rw (t, show_functions, show_function)
            (lines ∙ append_assoc s.lines (function_line label f ∷ []) _, omega (arith, count))
      | inr t ↦ rw (t, show_functions, show_function) (show_functions_lem label filter fs s h)
    ]

-- What a class and its parents come to.
abbrev pub class_lines : List ℕ → List Class → List (List ℕ)
class_lines filter [] = []
class_lines filter (c ∷ parents) =
    (heading c ∷ [])
    ++ (map (function_line (codes "  ")) (matching filter c.funcs)
        ++ (map (function_line (codes "  static ")) (matching filter c.static_funcs)
            ++ class_lines filter parents))

abbrev pub hits : List ℕ → List Class → ℕ
hits filter [] = 0
hits filter (c ∷ parents) =
    length (matching filter c.funcs)
    + (length (matching filter c.static_funcs) + hits filter parents)

show_classes_lem :
    (filter : List ℕ) (classes : List Class) (s : Shown)
    → s.count < 2 ^ 32
    → let r = show_classes filter classes s in
      (r.lines ≡ s.lines ++ class_lines filter classes)
      × (r.count ≡ (s.count + hits filter classes) % 2 ^ 32)
unfolding show_classes
show_classes_lem filter [] s h = (sym (append-nil s.lines), omega arith)
show_classes_lem filter (c ∷ parents) s h =
    let named = say (heading c) s in
    let (lines, count) = show_functions_lem (codes "  ") filter c.funcs named h in
    let own = show_functions (codes "  ") filter c.funcs named in
    let (more, total) =
      show_functions_lem (codes "  static ") filter c.static_funcs own (omega (arith, count)) in
    let all = show_functions (codes "  static ") filter c.static_funcs own in
    let (rest, sum) = show_classes_lem filter parents all (omega (arith, total)) in
    (rest ∙ rw (more, lines) (simp list_laws), omega (arith, count, total, sum))

-- DumpMethods with a class name that is not empty, of a class that is there: for the class and
-- then each of its parents it logs a heading, the functions whose names match the filter in lower
-- case, and then the static ones; and it says how many functions these are, modulo 2^32.
pub dump_methods_lem :
    (class_name filter : List ℕ) (classes : List Class)
    → class_name ≢ []
    → dump_methods class_name filter (some classes) ≡ (
      to_decimal (hits (lowered filter) classes % 2 ^ 32) ++ codes " method(s) logged",
      class_lines (lowered filter) classes,
    )
unfolding dump_methods dumped
dump_methods_lem [] filter classes h = absurd (h refl)
dump_methods_lem (c ∷ cs) filter classes h =
    let asked : (length (c ∷ cs) == 0) ≡ false = ground arith in
    let (lines, count) = show_classes_lem (lowered filter) classes nothing_shown (omega arith) in
    let number : (show_classes (lowered filter) classes nothing_shown).count
        ≡ hits (lowered filter) classes % 2 ^ 32 =
      omega (arith, count) in
    rw (asked, lines, number) refl

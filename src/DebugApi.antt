-- ===== src/DebugApi.antt =====
-- src/client/DebugApi.cpp: what the console asks of the game's type information. A class is its name
-- and its functions, with those of its parents behind it in a list; a pointer that may be null is an
-- Option. A call returns its answer and the lines that it logs.
pub mod Matching
pub mod Listing
use cybermp.Base.{
  ℕ, ◌+◌, ◌%◌, ◌^◌, List, [], ◌∷◌, ◌++◌, map, Bool, true, false, ◌&&◌, ◌||◌, Option, none, some,
  length, ltb, leb, ◌==◌, if◌then◌else◌, codes, to_decimal,
}

-- std::tolower in the C locale.
abbrev pub lower : ℕ → ℕ
lower c = if leb 65 c && leb c 90 then c + 32 else c

abbrev pub lowered : List ℕ → List ℕ
lowered = map lower

unfoldable pub starts_with : List ℕ → List ℕ → Bool
starts_with [] text = true
starts_with (p ∷ ps) [] = false
starts_with (p ∷ ps) (c ∷ cs) = p == c && starts_with ps cs

-- `find(filter) != npos`.
unfoldable pub contains : List ℕ → List ℕ → Bool
contains filter [] = starts_with filter []
contains filter (c ∷ cs) = starts_with filter (c ∷ cs) || contains filter cs

abbrev pub text_of : Option (List ℕ) → List ℕ
text_of none = []
text_of (some t) = t

unfoldable pub matches : Option (List ℕ) → List ℕ → Bool
matches name filter = if length filter == 0 then true else contains filter (lowered (text_of name))

pub record Property : Type 0 where
  pub type_name : Option (List ℕ)
  pub name : Option (List ℕ)

pub record Function : Type 0 where
  pub short_name : List ℕ
  pub params : List (Option Property)
  pub return_type : Option Property

pub record Class : Type 0 where
  pub name : List ℕ
  pub funcs : List (Option Function)
  pub static_funcs : List (Option Function)

unfoldable pub type_text : Option (List ℕ) → List ℕ
type_text none = codes "?"
type_text (some t) = t

unfoldable pub type_name_of : Option Property → List ℕ
unfolding type_text
type_name_of none = codes "?"
type_name_of (some p) = type_text p.type_name

unfoldable pub name_text : Option (List ℕ) → List ℕ
name_text none = []
name_text (some t) = codes " " ++ t

unfoldable pub param_text : Option Property → List ℕ
unfolding name_text
param_text none = type_name_of none
param_text (some p) = type_name_of (some p) ++ name_text p.name

-- The parameters behind the first one.
unfoldable pub more_params : List (Option Property) → List ℕ
unfolding param_text
more_params [] = []
more_params (p ∷ ps) = codes ", " ++ (param_text p ++ more_params ps)

unfoldable pub params_text : List (Option Property) → List ℕ
unfolding param_text more_params
params_text [] = []
params_text (p ∷ ps) = param_text p ++ more_params ps

unfoldable pub return_text : Option Property → List ℕ
return_text none = codes "Void"
return_text (some p) = type_name_of (some p)

unfoldable pub signature : Function → List ℕ
unfolding params_text return_text
signature f =
    f.short_name
    ++ (codes "(" ++ (params_text f.params ++ (codes ") -> " ++ return_text f.return_type)))

-- What is logged, and the counter.
pub record Shown : Type 0 where
  pub lines : List (List ℕ)
  pub count : ℕ

abbrev pub say : List ℕ → Shown → Shown
say line s = record s { lines = s.lines ++ (line ∷ []) }

-- A line that counts; the counter is a uint32_t.
abbrev pub show : List ℕ → Shown → Shown
show line s = record { lines = s.lines ++ (line ∷ []); count = (s.count + 1) % 2 ^ 32 }

show_function : List ℕ → List ℕ → Option Function → Shown → Shown
show_function label filter none s = s
show_function label filter (some f) s =
    if matches (some f.short_name) filter then show (label ++ signature f) s else s

unfoldable pub show_functions : List ℕ → List ℕ → List (Option Function) → Shown → Shown
unfolding show_function
show_functions label filter [] s = s
show_functions label filter (f ∷ fs) s =
    show_functions label filter fs (show_function label filter f s)

abbrev pub heading : Class → List ℕ
heading c = codes "--- " ++ (c.name ++ codes " ---")

-- A class and then its parents.
unfoldable pub show_classes : List ℕ → List Class → Shown → Shown
show_classes filter [] s = s
show_classes filter (c ∷ parents) s = show_classes filter parents (
    show_functions (codes "  static ") filter c.static_funcs
      (show_functions (codes "  ") filter c.funcs (say (heading c) s)))

abbrev pub nothing_shown : Shown
nothing_shown = record { lines = []; count = 0 }

unfoldable pub dumped : List ℕ → List ℕ → Option (List Class) → List ℕ × List (List ℕ)
dumped class_name filter none = (codes "no class named '" ++ (class_name ++ codes "'"), [])
dumped class_name filter (some classes) =
    let s = show_classes (lowered filter) classes nothing_shown in
    (to_decimal s.count ++ codes " method(s) logged", s.lines)

-- `found` is what GetClass returns, with its parents.
unfoldable pub dump_methods : List ℕ → List ℕ → Option (List Class) → List ℕ × List (List ℕ)
dump_methods class_name filter found =
    if length class_name == 0
    then (codes "usage: DumpMethods('ClassName', 'filter or empty')", [])
    else dumped class_name filter found

abbrev pub max_types : ℕ
max_types = 200

unfoldable pub show_types : List ℕ → List (List ℕ) → Shown → Shown
show_types filter [] s = s
show_types filter (name ∷ names) s =
    show_types filter names (
      if ltb s.count max_types && matches (some name) filter
      then show (codes "  " ++ name) s
      else s)

unfoldable pub listed : List ℕ → Option (List (List ℕ)) → List ℕ × List (List ℕ)
listed filter none = (codes "no rtti system", [])
listed filter (some names) =
    let s = show_types (lowered filter) names nothing_shown in
    (to_decimal s.count ++ codes " type(s) logged", s.lines)

-- `types` is what the runtime type system holds, if there is one.
unfoldable pub find_classes : List ℕ → Option (List (List ℕ)) → List ℕ × List (List ℕ)
find_classes filter types =
    if length (lowered filter) == 0
    then (codes "usage: FindClasses('substring') -- an empty filter would log everything", [])
    else listed filter types

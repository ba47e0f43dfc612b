-- ===== src/Base/Sorting.antt =====
-- std::sort of texts in the order of their units, as a function: equal texts are the same text.
use Prim.Native.Nat.{ℕ}
use mathlib.Core.Path.{◌≡◌, refl, ap, ◌∙◌}
use mathlib.Core.Bool.{Bool, true, false, ◌&&◌, ◌||◌}
use mathlib.Core.List.{List, [], ◌∷◌, Permᴰ}
use native.Mathlib.Omega.{arith}
use cybermp.Base.Tests.{ltb, ◌==◌, if◌then◌else◌}

unfoldable pub text_leb : List ℕ → List ℕ → Bool
text_leb [] ys = true
text_leb (x ∷ xs) [] = false
text_leb (x ∷ xs) (y ∷ ys) = ltb x y || (x == y && text_leb xs ys)

text_leb_total : (xs ys : List ℕ) → text_leb xs ys ≡ false → text_leb ys xs ≡ true
unfolding text_leb
text_leb_total [] ys h = cc
text_leb_total (x ∷ xs) [] h = refl
text_leb_total (x ∷ xs) (y ∷ ys) h = ground (arith, text_leb_total xs ys)

text_leb_antisym : (xs ys : List ℕ) → text_leb xs ys ≡ true → text_leb ys xs ≡ true → xs ≡ ys
unfolding text_leb
text_leb_antisym [] [] h k = refl
text_leb_antisym [] (y ∷ ys) h k = cc
text_leb_antisym (x ∷ xs) [] h k = cc
text_leb_antisym (x ∷ xs) (y ∷ ys) h k = ground (arith, text_leb_antisym xs ys)

text_leb_trans :
    (xs ys zs : List ℕ) → text_leb xs ys ≡ true → text_leb ys zs ≡ true → text_leb xs zs ≡ true
unfolding text_leb
text_leb_trans [] ys zs h k = refl
text_leb_trans (x ∷ xs) [] zs h k = cc
text_leb_trans (x ∷ xs) (y ∷ ys) [] h k = cc
text_leb_trans (x ∷ xs) (y ∷ ys) (z ∷ zs) h k = ground (arith, text_leb_trans xs ys zs)

unfoldable pub insert_text : List ℕ → List (List ℕ) → List (List ℕ)
insert_text x [] = x ∷ []
insert_text x (y ∷ ys) =
    let more = y ∷ insert_text x ys in if text_leb x y then x ∷ y ∷ ys else more

unfoldable pub sort_texts : List (List ℕ) → List (List ℕ)
sort_texts [] = []
sort_texts (x ∷ xs) = insert_text x (sort_texts xs)

insert_twice :
    (a b : List ℕ) (l : List (List ℕ))
    → insert_text a (insert_text b l) ≡ insert_text b (insert_text a l)
unfolding insert_text
insert_twice a b [] = ground (arith, text_leb_total a b, text_leb_total b a, text_leb_antisym a b)
insert_twice a b (x ∷ xs) = ground (
  arith,
  insert_twice a b xs,
  text_leb_total a b,
  text_leb_antisym a b,
  text_leb_trans a b x,
  text_leb_trans b a x,
)

-- The order of what is sorted does not show.
pub sort_texts-Perm : (xs ys : List (List ℕ)) → Permᴰ xs ys → sort_texts xs ≡ sort_texts ys
unfolding sort_texts
sort_texts-Perm _ _ Permᴰ.nil = refl
sort_texts-Perm _ _ (Permᴰ.cons {b = b} {l₁ = xs} {l₂ = ys} e p) =
    rw e (ap (insert_text b) (sort_texts-Perm xs ys p))
sort_texts-Perm _ _ (Permᴰ.swap {a' = a} {b' = b} {l = l} e k) =
    rw (e, k) (insert_twice b a (sort_texts l))
sort_texts-Perm xs zs (Permᴰ.trans {l₂ = ys} p q) =
    sort_texts-Perm xs ys p ∙ sort_texts-Perm ys zs q

-- ===== src/Base/Find.antt =====
-- The algorithms of the standard library on a vector: find_if, any_of, a write through the iterator
-- that find_if returns, and its erasure.
use Prim.Native.Nat.{suc, ◌≤◌}
use mathlib.Core.Path.{◌≡◌, refl, subst}
use mathlib.Core.Logic.{inl, inr}
use mathlib.Core.Bool.{Bool, true, false, not, ◌||◌}
use mathlib.Core.List.{List, [], ◌∷◌, ◌++◌}
use mathlib.Core.Option
use mathlib.Core.Option.{Option, none, some}
use native.Mathlib.Omega.{arith}
use cybermp.Base.Tests.{if◌then◌else◌, Bool-cases}
use cybermp.Base.Lists.{All, length, filter_by}

module _ {ℓ} {A : Type ℓ} (p : A → Bool) where
  unfoldable pub find_if : List A → Option A
  find_if [] = none
  find_if (x ∷ xs) = if p x then some x else find_if xs

  unfoldable pub any_of : List A → Bool
  any_of [] = false
  any_of (x ∷ xs) = p x || any_of xs

  unfoldable pub update_if : (A → A) → List A → List A
  update_if f [] = []
  update_if f (x ∷ xs) = if p x then f x ∷ xs else x ∷ update_if f xs

  unfoldable pub erase_if : List A → List A
  erase_if [] = []
  erase_if (x ∷ xs) = if p x then xs else x ∷ erase_if xs

  pub find_if-some : (xs : List A) (x : A) → find_if xs ≡ some x → p x ≡ true
  unfolding find_if
  find_if-some [] x e = cc
  find_if-some (y ∷ ys) x e = elim (Bool-cases (p y)) [
    | inl h ↦ ground (arith, h)
    | inr h ↦ find_if-some ys x (ground (arith, h))
  ]

  pub find_if-none : (xs : List A) → find_if xs ≡ none → All (λ x. p x ≡ false) xs
  unfolding find_if
  find_if-none [] e = tt
  find_if-none (y ∷ ys) e = (ground arith, find_if-none ys (ground arith))

  pub none-find_if : (xs : List A) → All (λ x. p x ≡ false) xs → find_if xs ≡ none
  unfolding find_if
  none-find_if [] h = refl
  none-find_if (y ∷ ys) h = rw h.0 (none-find_if ys h.1)

  pub any_of-false : (xs : List A) → any_of xs ≡ false → All (λ x. p x ≡ false) xs
  unfolding any_of
  any_of-false [] e = tt
  any_of-false (y ∷ ys) e = (ground arith, any_of-false ys (ground arith))

  pub length-update_if : (f : A → A) (xs : List A) → length (update_if f xs) ≡ length xs
  unfolding update_if
  length-update_if f [] = refl
  length-update_if f (x ∷ xs) = ground (arith, length-update_if f xs)

  pub length-erase_if :
      (xs : List A) (x : A) → find_if xs ≡ some x → length xs ≡ suc (length (erase_if xs))
  unfolding erase_if find_if
  length-erase_if [] x e = cc
  length-erase_if (y ∷ ys) x e = ground (arith, length-erase_if ys x)

  pub length-erase_if-le : (xs : List A) → length (erase_if xs) ≤ length xs
  unfolding erase_if
  length-erase_if-le [] = omega arith
  length-erase_if-le (y ∷ ys) = ground (arith, length-erase_if-le ys)

module _ {ℓ κ} {A : Type ℓ} (P : A → Type κ) where
  pub All-find_if : (p : A → Bool) (xs : List A) (x : A) → All P xs → find_if p xs ≡ some x → P x
  unfolding find_if
  All-find_if p [] x h e = cc
  All-find_if p (y ∷ ys) x h e = elim (Bool-cases (p y)) [
    | inl t ↦ let same : y ≡ x = ground (arith, t) in subst P same h.0
    | inr t ↦ All-find_if p ys x h.1 (ground (arith, t))
  ]

  pub All-erase_if : (p : A → Bool) (xs : List A) → All P xs → All P (erase_if p xs)
  unfolding erase_if
  All-erase_if p [] h = tt
  All-erase_if p (y ∷ ys) h = elim (Bool-cases (p y)) [
    | inl t ↦ rw t h.1
    | inr t ↦ rw t (h.0, All-erase_if p ys h.1)
  ]

  pub All-update_if :
      (p : A → Bool) (f : A → A) (xs : List A)
      → ((x : A) → P x → P (f x))
      → All P xs
      → All P (update_if p f xs)
  unfolding update_if
  All-update_if p f [] k h = tt
  All-update_if p f (y ∷ ys) k h = elim (Bool-cases (p y)) [
    | inl t ↦ rw t (k y h.0, h.1)
    | inr t ↦ rw t (h.0, All-update_if p f ys k h.1)
  ]

  pub All-snoc : (xs : List A) (x : A) → All P xs → P x → All P (xs ++ (x ∷ []))
  All-snoc [] x h k = (k, tt)
  All-snoc (y ∷ ys) x h k = (h.0, All-snoc ys x h.1 k)

module _ {ℓ} {A : Type ℓ} where
  pub find_if-snoc :
      (p : A → Bool) (xs : List A) (y : A)
      → find_if p xs ≡ none
      → find_if p (xs ++ (y ∷ [])) ≡ (if p y then some y else none)
  unfolding find_if
  find_if-snoc p [] y h = refl
  find_if-snoc p (x ∷ xs) y h = ground (arith, find_if-snoc p xs y)

  pub find_if-snoc_some :
      (p : A → Bool) (xs : List A) (y x : A)
      → find_if p xs ≡ some x
      → find_if p (xs ++ (y ∷ [])) ≡ some x
  unfolding find_if
  find_if-snoc_some p [] y x h = cc
  find_if-snoc_some p (z ∷ zs) y x h = ground (arith, find_if-snoc_some p zs y x)

  -- The element that is found is the one that is written.
  pub find_if-update_if :
      (p : A → Bool) (f : A → A) (xs : List A)
      → ((x : A) → p (f x) ≡ p x)
      → find_if p (update_if p f xs) ≡ Option.map f (find_if p xs)
  unfolding find_if update_if
  find_if-update_if p f [] k = refl
  find_if-update_if p f (x ∷ xs) k = ground (arith, k x, find_if-update_if p f xs k)

  -- A write that another search passes over does not change what it finds.
  pub find_if-update_ne :
      (p q : A → Bool) (f : A → A) (xs : List A)
      → ((x : A) → p x ≡ true → (q x ≡ false) × (q (f x) ≡ false))
      → find_if q (update_if p f xs) ≡ find_if q xs
  unfolding find_if update_if
  find_if-update_ne p q f [] k = refl
  find_if-update_ne p q f (x ∷ xs) k = ground (arith, k x, find_if-update_ne p q f xs k)

-- Erasing the elements that pass, one at a time, meets them in order and leaves the others.
module _ {ℓ} {A : Type ℓ} (p : A → Bool) where
  abbrev pub keep : List A → List A
  keep = filter_by (λ x. not (p x))

  pub filter-find_if :
      (xs : List A) (x : A)
      → find_if p xs ≡ some x
      → (filter_by p xs ≡ x ∷ filter_by p (erase_if p xs)) × (keep (erase_if p xs) ≡ keep xs)
  unfolding find_if erase_if filter_by
  filter-find_if [] x e = cc
  filter-find_if (y ∷ ys) x e = ground (arith, filter-find_if ys x)

  pub filter-none : (xs : List A) → find_if p xs ≡ none → (filter_by p xs ≡ []) × (keep xs ≡ xs)
  unfolding find_if filter_by
  filter-none [] e = (refl, refl)
  filter-none (y ∷ ys) e = ground (arith, filter-none ys)

  pub All-keep : (xs : List A) → All (λ x. p x ≡ false) (keep xs)
  unfolding filter_by
  All-keep [] = tt
  All-keep (y ∷ ys) = elim (Bool-cases (p y)) [
    | inl t ↦ rw t (All-keep ys)
    | inr t ↦ rw t (t, All-keep ys)
  ]

-- ===== src/Wire/Parse.antt =====
-- The reader without its state: parsers of a list of bytes, which return the rest.
use native.Mathlib.Nat.{pow-suc}
use mathlib.Core.Path.{subst}
use cybermp.Base.{
  ℕ, zero, suc, ◌+◌, ◌*◌, ◌^◌, ◌<◌, ◌≡◌, refl, ap, List, [], ◌∷◌, Option, none, some, length, take,
  drop, All, ltb, if◌then◌else◌, arith, Option-cases, inl, inr,
}

abbrev pub IsByte : ℕ → Type 0
IsByte b = b < 256

abbrev pub Bytes : List ℕ → Type 0
Bytes xs = All IsByte xs

abbrev pub Parse : Type 0 → Type 0
Parse A = List ℕ → Option (A × List ℕ)

abbrev pub pure : {A : Type 0} → A → Parse A
pure a xs = some (a, xs)

abbrev pub and_then : {A B : Type 0} → Option (A × List ℕ) → (A → Parse B) → Option (B × List ℕ)
and_then none f = none
and_then (some (a, xs)) f = f a xs

infixl 5 ◌>>=◌
abbrev pub ◌>>=◌ : {A B : Type 0} → Parse A → (A → Parse B) → Parse B
◌>>=◌ p f xs = and_then (p xs) f

abbrev cons_low : ℕ → Option (ℕ × List ℕ) → Option (ℕ × List ℕ)
cons_low b none = none
cons_low b (some (v, xs)) = some (b + 256 * v, xs)

-- An unsigned number of `n` bytes, the lowest first.
unfoldable pub uint : ℕ → Parse ℕ
uint zero xs = some (0, xs)
uint (suc n) [] = none
uint (suc n) (b ∷ xs) = cons_low b (uint n xs)

-- The next `n` bytes, if there are as many.
unfoldable pub chars : ℕ → Parse (List ℕ)
chars n xs = if ltb (length xs) n then none else some (take n xs, drop n xs)

-- A string of at most `max_size` bytes behind its size.
unfoldable pub text : ℕ → Parse (List ℕ)
text max_size = do size ← uint 2; λ xs. if ltb max_size size then none else chars size xs

cons_low-eq_some :
    (b : ℕ) (o : Option (ℕ × List ℕ)) (v : ℕ) (ys : List ℕ)
    → cons_low b o ≡ some (v, ys)
    → (w : ℕ) × (o ≡ some (w, ys)) × (v ≡ b + 256 * w)
cons_low-eq_some b none v ys e = cc
cons_low-eq_some b (some (w, zs)) v ys e = (w, ground arith, ground arith)

-- A number that is read fits its width, and what is left are bytes.
pub uint-lt :
    (n : ℕ) (xs : List ℕ) (v : ℕ) (ys : List ℕ)
    → Bytes xs
    → uint n xs ≡ some (v, ys)
    → (v < 256 ^ n) × Bytes ys
unfolding uint
uint-lt zero xs v ys h e =
    let same : xs ≡ ys = ground arith in
    let zero_lem : v ≡ 0 = ground arith in (rw zero_lem (omega arith), subst Bytes same h)
uint-lt (suc n) [] v ys h e = cc
uint-lt (suc n) (b ∷ xs) v ys h e =
    let (w, read, value) = cons_low-eq_some b (uint n xs) v ys e in
    let (small, left) = uint-lt n xs w ys h.1 read in
    (omega (arith, value, small, h.0, pow-suc 256 n), left)

low_high : (b u v p q : ℕ) → q ≡ p * 256 → b + 256 * (u + v * p) ≡ b + 256 * u + v * q
low_high b u v p q e = rw e (grind arith)

module _ (m n b : ℕ) where
  -- The lowest byte joins the low part.
  cons_low_add :
      (o : Option (ℕ × List ℕ))
      → cons_low b (and_then o (λ low. uint n >>= λ high. pure (low + high * 256 ^ m)))
        ≡ and_then (cons_low b o) (λ low. uint n >>= λ high. pure (low + high * 256 ^ suc m))
  cons_low_add none = refl
  cons_low_add (some (u, ys)) = elim (Option-cases (uint n ys)) [
    | inl z ↦ rw z
    | inr ((v, zs), z) ↦
        rw z (ap (λ t. some (t, zs)) (low_high b u v (256 ^ m) (256 ^ suc m) (pow-suc 256 m)))
  ]

zero-uint : (n : ℕ) (o : Option (ℕ × List ℕ)) → o ≡ and_then o (λ high. pure (0 + high * 256 ^ 0))
zero-uint n none = refl
zero-uint n (some (v, ys)) = let e : v ≡ 0 + v * 256 ^ 0 = omega arith in ap (λ t. some (t, ys)) e

-- A wide number is a low part and a high part.
pub uint-add :
    (m n : ℕ) (xs : List ℕ)
    → uint (m + n) xs ≡ (do low ← uint m; high ← uint n; pure (low + high * 256 ^ m)) xs
unfolding uint
uint-add zero n xs = let e : zero + n ≡ n = omega arith in rw e (zero-uint n (uint n xs))
uint-add (suc m) n [] = let e : suc m + n ≡ suc (m + n) = omega arith in rw e
uint-add (suc m) n (b ∷ xs) =
    let e : suc m + n ≡ suc (m + n) = omega arith in
    rw (e, uint-add m n xs) (cons_low_add m n b (uint m xs))

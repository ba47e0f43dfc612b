-- ===== src/Proto/Yields.antt =====
-- Values that the Read methods of Protocol.hpp make of any bytes.
use mathlib.Core.Path.{subst}
use cybermp.Base.{
  ℕ, zero, suc, ◌^◌, ◌≤◌, ◌<◌, ◌≡◌, refl, List, [], ◌∷◌, Option, none, some, take, drop, ltb,
  if◌then◌else◌, arith, length-take,
}
use cybermp.Wire.Parse
use cybermp.Wire.Parse.{Parse, IsByte, Bytes, uint, uint-lt, chars, text}
use cybermp.Proto.Header.{max_string_size}
use cybermp.Proto.Spec.{Yields, IsName}

pub uint-Yields : (n : ℕ) → Yields (uint n) (λ v. v < 256 ^ n)
uint-Yields n = record { at = λ xs v ys b e. uint-lt n xs v ys b e }

pub Yields-pure : {A : Type 0} {P : A → Type 0} (a : A) → P a → Yields (Parse.pure a) P
Yields-pure {A} {P} a h = record {
  at = λ xs a' ys b e.
      let same : a ≡ a' = ground (arith, e) in
      let rest : xs ≡ ys = ground (arith, e) in (subst P same h, subst Bytes rest b);
}

module _ {A B : Type 0} where
  bound :
      (P : A → Type 0) (Q : B → Type 0) (o : Option (A × List ℕ)) (q : A → Parse B) (b : B)
      (ys : List ℕ)
      → ((a : A) (xs : List ℕ) → o ≡ some (a, xs) → P a × Bytes xs)
      → ((a : A) → P a → Yields (q a) Q)
      → Parse.and_then o q ≡ some (b, ys)
      → Q b × Bytes ys
  bound P Q none q b ys h k e = cc
  bound P Q (some (a, xs)) q b ys h k e =
      let (fits, bytes) = h a xs refl in (k a fits).at xs b ys bytes e

  pub Yields-bind :
      {p : Parse A} (P : A → Type 0) (q : A → Parse B) (Q : B → Type 0)
      → Yields p P
      → ((a : A) → P a → Yields (q a) Q)
      → Yields (λ xs. Parse.and_then (p xs) q) Q
  Yields-bind {p} P q Q hp hq = record {
    at = λ xs b ys bytes e. bound P Q (p xs) q b ys (λ a zs z. hp.at xs a zs bytes z) hq e;
  }

take-Bytes : (n : ℕ) (xs : List ℕ) → Bytes xs → Bytes (take n xs)
take-Bytes zero xs b = tt
take-Bytes (suc n) [] b = tt
take-Bytes (suc n) (x ∷ xs) b = (b.0, take-Bytes n xs b.1)

drop-Bytes : (n : ℕ) (xs : List ℕ) → Bytes xs → Bytes (drop n xs)
drop-Bytes zero xs b = b
drop-Bytes (suc n) [] b = tt
drop-Bytes (suc n) (x ∷ xs) b = drop-Bytes n xs b.1

read_chars :
    (size : ℕ) (xs s ys : List ℕ)
    → Bytes xs
    → (if ltb max_string_size size then none else chars size xs) ≡ some (s, ys)
    → IsName s × Bytes ys
unfolding chars
read_chars size xs s ys b e =
    let front : take size xs ≡ s = ground (arith, e) in
    let back : drop size xs ≡ ys = ground (arith, e) in
    let short : size ≤ max_string_size = ground (arith, e) in
    (
      subst IsName front (record {
        chars = take-Bytes size xs b;
        short = omega (arith, short, length-take size xs);
      }),
      subst Bytes back (drop-Bytes size xs b),
    )

pub text-Yields : Yields (text max_string_size) IsName
unfolding text
text-Yields =
    Yields-bind (λ v. v < 256 ^ 2) _ IsName (uint-Yields 2)
      λ size _. record { at = λ xs s ys b e. read_chars size xs s ys b e }

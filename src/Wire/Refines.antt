-- ===== src/Wire/Refines.antt =====
-- wire::Reader against the parsers of lists, from every state that it can be in.
use mathlib.Core.Path.{subst}
use mathlib.Core.Option
use Prim.Native.Nat.{bit_or}
use cybermp.Base.{
  ℕ, zero, suc, ◌+◌, ◌-◌, ◌*◌, ◌^◌, ◌<◌, ◌≤◌, ◌≡◌, refl, sym, ap, ◌∙◌, List, [], ◌∷◌, Bool, true,
  false, Option, none, some, length, drop, get_or, ltb, if◌then◌else◌, arith, Option-cases,
  Bool-cases, inl, inr, length-drop, drop-add, bit_or_disjoint,
}
use cybermp.Wire.Reader
use cybermp.Wire.Reader.{Reader, Read}
use cybermp.Wire.Parse
use cybermp.Wire.Parse.{◌>>=◌, Parse, Bytes, uint, text, chars, uint-add, uint-lt}

-- What is left to read, or nothing once a read has failed.
unfoldable pub view : Reader → Option (List ℕ)
view r = if r.failed then none else some (drop r.offset r.bytes)

unfoldable pub result : {A : Type 0} → Option A × Reader → Option (A × List ℕ)
result (none, r) = none
result (some a, r) = Option.map (λ xs. (a, xs)) (view r)

abbrev pub lift : {A : Type 0} → Parse A → Option (List ℕ) → Option (A × List ℕ)
lift p none = none
lift p (some xs) = p xs

pub record Refines {A : Type 0} (m : Read A) (p : Parse A) : Type 0 where
  pub at : (r : Reader) → Bytes r.bytes → result (m r) ≡ lift p (view r)
  pub keeps : (r : Reader) → (m r).1.bytes ≡ r.bytes

drop-Bytes : (n : ℕ) (xs : List ℕ) → Bytes xs → Bytes (drop n xs)
drop-Bytes zero xs h = h
drop-Bytes (suc n) [] h = tt
drop-Bytes (suc n) (x ∷ xs) h = drop-Bytes n xs h.1

pub Refines-pure : {A : Type 0} (a : A) → Refines (Reader.pure a) (Parse.pure a)
unfolding result view
Refines-pure a = record { at = λ r h. ground arith; keeps = λ r. refl }

module _ {A B : Type 0} where
  bind_result :
      (o : Option A × Reader) (f : A → Read B) (q : A → Parse B)
      → ((a : A) → result (f a o.1) ≡ lift (q a) (view o.1))
      → result (Reader.and_then o f) ≡ Parse.and_then (result o) q
  unfolding result
  bind_result (none, r) f q h = refl
  bind_result (some a, r) f q h = elim (Option-cases (view r)) [
    | inl z ↦ h a ∙ rw z
    | inr (xs, z) ↦ h a ∙ rw z
  ]

  bind_keeps :
      (o : Option A × Reader) (f : A → Read B)
      → ((a : A) → (f a o.1).1.bytes ≡ o.1.bytes)
      → (Reader.and_then o f).1.bytes ≡ o.1.bytes
  bind_keeps (none, r) f h = refl
  bind_keeps (some a, r) f h = h a

  lift_bind :
      (p : Parse A) (q : A → Parse B) (v : Option (List ℕ))
      → Parse.and_then (lift p v) q ≡ lift (λ xs. Parse.and_then (p xs) q) v
  lift_bind p q none = refl
  lift_bind p q (some xs) = refl

  pub Refines-bind :
      {m : Read A} {p : Parse A} (f : A → Read B) (q : A → Parse B)
      → Refines m p
      → ((a : A) → Refines (f a) (q a))
      → Refines (λ r. Reader.and_then (m r) f) (λ xs. Parse.and_then (p xs) q)
  Refines-bind {m} {p} f q hm hf = record {
    at = λ r h.
        bind_result (m r) f q (λ a. (hf a).at (m r).1 (subst Bytes (sym (hm.keeps r)) h))
        ∙ ap (λ o. Parse.and_then o q) (hm.at r h)
        ∙ lift_bind p q (view r);
    keeps = λ r. bind_keeps (m r) f (λ a. (hf a).keeps (m r).1) ∙ hm.keeps r;
  }

module _ {A : Type 0} {p q : Parse A} (same : (xs : List ℕ) → Bytes xs → p xs ≡ q xs) where
  swap_view : (r : Reader) → Bytes r.bytes → lift p (view r) ≡ lift q (view r)
  unfolding view
  swap_view r b = elim (Bool-cases r.failed) [
    | inl e ↦ rw e
    | inr e ↦ rw e (same _ (drop-Bytes r.offset r.bytes b))
  ]

  -- Parsers that agree on bytes are exchanged.
  pub Refines-swap : {m : Read A} → Refines m p → Refines m q
  Refines-swap h = record { at = λ r b. h.at r b ∙ swap_view r b; keeps = h.keeps }

get_or-drop : (i : ℕ) (xs : List ℕ) → i < length xs → drop i xs ≡ get_or xs i 0 ∷ drop (i + 1) xs
get_or-drop i [] h = absurd (omega arith)
get_or-drop zero (x ∷ xs) h = refl
get_or-drop (suc i) (x ∷ xs) h =
    let e : suc i + 1 ≡ suc (i + 1) = omega arith in rw e (get_or-drop i xs (omega arith))

drop_past : (i : ℕ) (xs : List ℕ) → length xs ≤ i → drop i xs ≡ []
drop_past zero [] h = refl
drop_past zero (x ∷ xs) h = absurd (omega arith)
drop_past (suc i) [] h = refl
drop_past (suc i) (x ∷ xs) h = drop_past i xs (omega arith)

abbrev reader_at : List ℕ → ℕ → Bool → Reader
reader_at bytes offset failed = record { bytes = bytes; offset = offset; failed = failed }

u8_at :
    (bytes : List ℕ) (i : ℕ) (failed : Bool)
    → result (Reader.u8 (reader_at bytes i failed))
      ≡ lift (uint 1) (view (reader_at bytes i failed))
unfolding result view Reader.u8 uint
u8_at bytes i true = refl
u8_at bytes i false = elim (Bool-cases (ltb (length bytes - i) 1)) [
  | inl e ↦ rw (e, drop_past i bytes (ground arith))
  | inr e ↦
      let value : get_or bytes i 0 ≡ get_or bytes i 0 + 256 * 0 = omega arith in
      rw (e, get_or-drop i bytes (ground arith)) (ap (λ t. some (t, drop (i + 1) bytes)) value)
]

u8_keeps : (r : Reader) → (Reader.u8 r).1.bytes ≡ r.bytes
unfolding Reader.u8
u8_keeps r = ground arith

pub u8-Refines : Refines Reader.u8 (uint 1)
u8-Refines = record { at = λ r _. u8_at r.bytes r.offset r.failed; keeps = u8_keeps }

abbrev halves : ℕ → ℕ → Parse ℕ
halves n k = do low ← uint n; high ← uint n; Parse.pure (bit_or low (high * 2 ^ k))

-- Two halves joined by `|` are one number of twice the width.
module _ (n k : ℕ) (width : 256 ^ n ≡ 2 ^ k) where
  joined : (u v : ℕ) → u < 256 ^ n → bit_or u (v * 2 ^ k) ≡ u + v * 256 ^ n
  joined u v h = bit_or_disjoint k u v (rw width at h) ∙ ap (λ t. u + v * t) (sym width)

  or_halves : (xs : List ℕ) → Bytes xs → halves n k xs ≡ uint (n + n) xs
  or_halves xs h = elim (Option-cases (uint n xs)) [
    | inl z ↦ rw (uint-add n n xs, z)
    | inr ((u, ys), z) ↦ elim (Option-cases (uint n ys)) [
      | inl w ↦ rw (uint-add n n xs, z, w)
      | inr ((v, zs), w) ↦
          rw (uint-add n n xs, z, w) (ap (λ t. some (t, zs)) (joined u v (uint-lt n xs u ys h z).0))
    ]
  ]

pub u16-Refines : Refines Reader.u16 (uint 2)
unfolding Reader.u16
u16-Refines =
    Refines-swap (or_halves 1 8 refl)
      (Refines-bind _ _ u8-Refines (λ low. Refines-bind _ _ u8-Refines (λ high. Refines-pure _)))

pub u32-Refines : Refines Reader.u32 (uint 4)
unfolding Reader.u32
u32-Refines =
    Refines-swap (or_halves 2 16 refl)
      (Refines-bind _ _ u16-Refines (λ low. Refines-bind _ _ u16-Refines (λ high. Refines-pure _)))

pub u64-Refines : Refines Reader.u64 (uint 8)
unfolding Reader.u64
u64-Refines =
    Refines-swap (or_halves 4 32 refl)
      (Refines-bind _ _ u32-Refines (λ low. Refines-bind _ _ u32-Refines (λ high. Refines-pure _)))

pub f32-Refines : Refines Reader.f32 (uint 4)
unfolding Reader.f32
f32-Refines = u32-Refines

abbrev bounded : ℕ → ℕ → Parse (List ℕ)
bounded max_size size xs = if ltb max_size size then none else chars size xs

chars_at :
    (max_size size : ℕ) (bytes : List ℕ) (i : ℕ) (failed : Bool)
    → result (Reader.chars max_size size (reader_at bytes i failed))
      ≡ lift (bounded max_size size) (view (reader_at bytes i failed))
unfolding Reader.chars result view chars
chars_at max_size size bytes i true = ground arith
chars_at max_size size bytes i false = ground (arith, length-drop i bytes, drop-add i size bytes)

chars_keeps : (max_size size : ℕ) (r : Reader) → (Reader.chars max_size size r).1.bytes ≡ r.bytes
unfolding Reader.chars
chars_keeps max_size size r = ground arith

pub str-Refines : (max_size : ℕ) → Refines (Reader.str max_size) (text max_size)
unfolding Reader.str text
str-Refines max_size = Refines-bind _ _ u16-Refines λ size. record {
  at = λ r _. chars_at max_size size r.bytes r.offset r.failed;
  keeps = chars_keeps max_size size;
}

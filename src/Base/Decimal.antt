-- ===== src/Base/Decimal.antt =====
-- std::to_string of an unsigned number of up to 64 bits, std::atoi, and the arguments of a program.
use Prim.Native.Nat.{ℕ, zero, suc, ◌+◌, ◌-◌, ◌*◌, ◌/◌, ◌%◌, ◌^◌, ◌<◌}
use mathlib.Core.Path.{◌≡◌, refl, sym, ap, ◌∙◌}
use mathlib.Core.Bool.{Bool, true, ◌&&◌, ◌||◌}
use mathlib.Core.List.{List, [], ◌∷◌}
use native.Mathlib.Omega.{arith}
use cybermp.Base.Tests.{leb, ◌==◌, if◌then◌else◌, Bool-cases, ==→eq}
use mathlib.Core.Logic.{inl, inr}
use mathlib.Core.Option.{Option, none, some}

-- An int.
pub data ℤ : Type 0 where
  pos : ℕ → ℤ
  negsuc : ℕ → ℤ

-- The last digit first; `fuel` is how many digits there can be.
digits : ℕ → ℕ → List ℕ → List ℕ
digits zero n out = out
digits (suc fuel) n out =
    let more = digits fuel (n / 10) ((48 + n % 10) ∷ out) in
    if n / 10 == 0 then (48 + n % 10) ∷ out else more

-- A number below 2^64 has at most 20 digits.
unfoldable pub to_decimal : ℕ → List ℕ
unfolding digits
to_decimal n = digits 20 n []

abbrev is_space : ℕ → Bool
is_space c = c == 32 || (leb 9 c && leb c 13)

abbrev is_digit : ℕ → Bool
is_digit c = leb 48 c && leb c 57

scan : List ℕ → ℕ → ℕ
scan [] n = n
scan (c ∷ cs) n = let more = scan cs (n * 10 + (c - 48)) in if is_digit c then more else n

abbrev negated : ℕ → ℤ
negated zero = pos 0
negated (suc n) = negsuc n

signed : List ℕ → ℤ
unfolding scan
signed [] = pos 0
signed (c ∷ cs) =
    if c == 45
    then negated (scan cs 0)
    else if c == 43
    then pos (scan cs 0)
    else pos (scan (c ∷ cs) 0)

-- Spaces, a sign, and the digits up to anything else. A number that no int holds is undefined there.
unfoldable pub atoi : List ℕ → ℤ
unfolding signed
atoi [] = pos 0
atoi (c ∷ cs) = let rest = atoi cs in if is_space c then rest else signed (c ∷ cs)

-- static_cast to an unsigned type of w bits.
abbrev pub to_unsigned : ℕ → ℤ → ℕ
to_unsigned w (pos n) = n % 2 ^ w
to_unsigned w (negsuc n) = 2 ^ w - 1 - n % 2 ^ w

-- argv[n], where argv[1] is the first.
abbrev pub argument : ℕ → List (List ℕ) → Option (List ℕ)
argument n [] = none
argument zero (a ∷ rest) = none
argument (suc zero) (a ∷ rest) = some a
argument (suc (suc n)) (a ∷ rest) = argument (suc n) rest

abbrev pub or_else {ℓ} : {A B : Type ℓ} → B → (A → B) → Option A → B
or_else d f none = d
or_else d f (some a) = f a

scan_digit : (n : ℕ) (out : List ℕ) → scan ((48 + n % 10) ∷ out) (n / 10) ≡ scan out n
unfolding scan
scan_digit n out = ground arith

tenth : (fuel n : ℕ) → n < 10 ^ suc fuel → n / 10 < 10 ^ fuel
tenth fuel n h = let h' : n < 10 * 10 ^ fuel = omega (arith, h) in omega (arith, h')

scan-digits : (fuel n : ℕ) (out : List ℕ) → n < 10 ^ fuel → scan (digits fuel n out) 0 ≡ scan out n
unfolding digits
scan-digits zero n out h = let e : n ≡ 0 = omega arith in rw e refl
scan-digits (suc fuel) n out h = elim (Bool-cases (n / 10 == 0)) [
  | inl e ↦
      let z : n / 10 ≡ 0 = ==→eq (n / 10) 0 e in
      rw e (ap (scan ((48 + n % 10) ∷ out)) (sym z) ∙ scan_digit n out)
  | inr e ↦
      rw e (scan-digits fuel (n / 10) ((48 + n % 10) ∷ out) (tenth fuel n h) ∙ scan_digit n out)
]

-- A text that starts with a digit is neither signed nor set off by spaces.
abbrev StartsDigit : List ℕ → Type 0
StartsDigit [] = ⊥
StartsDigit (c ∷ cs) = is_digit c ≡ true

digits-StartsDigit : (fuel n : ℕ) (out : List ℕ) → StartsDigit out → StartsDigit (digits fuel n out)
unfolding digits
digits-StartsDigit zero n out h = h
digits-StartsDigit (suc fuel) n out h = elim (Bool-cases (n / 10 == 0)) [
  | inl e ↦ rw e (ground arith)
  | inr e ↦ rw e (digits-StartsDigit fuel (n / 10) ((48 + n % 10) ∷ out) (ground arith))
]

to_decimal-StartsDigit : (n : ℕ) → StartsDigit (to_decimal n)
unfolding to_decimal digits
to_decimal-StartsDigit n = elim (Bool-cases (n / 10 == 0)) [
  | inl e ↦ rw e (ground arith)
  | inr e ↦ rw e (digits-StartsDigit 19 (n / 10) ((48 + n % 10) ∷ []) (ground arith))
]

atoi-StartsDigit : (cs : List ℕ) → StartsDigit cs → atoi cs ≡ pos (scan cs 0)
unfolding atoi signed
atoi-StartsDigit [] h = absurd h
atoi-StartsDigit (c ∷ cs) h = ground (arith, h)

-- What to_string prints, atoi reads.
pub atoi-to_decimal : (n : ℕ) → n < 2 ^ 64 → atoi (to_decimal n) ≡ pos n
unfolding to_decimal scan
atoi-to_decimal n h =
    atoi-StartsDigit (to_decimal n) (to_decimal-StartsDigit n)
    ∙ ap pos (scan-digits 20 n [] (omega arith))

-- ===== src/Wire/Layout.antt =====
-- The bytes that wire::Writer appends, and the parsers of them.
use native.Mathlib.Nat.{pow-suc}
use cybermp.Base.{
  ℕ, zero, suc, ◌+◌, ◌*◌, ◌/◌, ◌%◌, ◌^◌, ◌<◌, ◌≤◌, ◌≡◌, refl, ap, List, [], ◌∷◌, ◌++◌, some, length,
  ltb, arith, false, append_assoc, list_laws, length-append, take-length-append, drop-length-append,
  le→ltb,
}
use cybermp.Wire.Writer
use cybermp.Wire.Writer.{Buffer}
use cybermp.Wire.Parse.{Bytes, uint, chars, text}

-- The low `n` bytes of a number, the lowest first.
unfoldable pub le : ℕ → ℕ → List ℕ
le zero v = []
le (suc n) v = v % 256 ∷ le n (v / 256)

pub length-le : (n v : ℕ) → length (le n v) ≡ n
unfolding le
length-le zero v = refl
length-le (suc n) v = ap suc (length-le n (v / 256))

pub le-Bytes : (n v : ℕ) → Bytes (le n v)
unfolding le
le-Bytes zero v = tt
le-Bytes (suc n) v = (omega arith, le-Bytes n (v / 256))

-- A number that fits is read back, whatever follows it.
pub uint-le : (n v : ℕ) (rest : List ℕ) → v < 256 ^ n → uint n (le n v ++ rest) ≡ some (v, rest)
unfolding uint le
uint-le zero v rest h = ground arith
uint-le (suc n) v rest h =
    let value : v % 256 + 256 * (v / 256) ≡ v = omega arith in
    rw (uint-le n (v / 256) rest (omega (arith, h, pow-suc 256 n))) (ap (λ t. some (t, rest)) value)

module _ (buffer : Buffer) (v : ℕ) where
  pub u8-le : v < 256 → Writer.u8 v buffer ≡ buffer ++ le 1 v
  unfolding Writer.u8 le
  u8-le h = ground arith

  pub u16-le : Writer.u16 v buffer ≡ buffer ++ le 2 v
  unfolding Writer.u16 le
  u16-le = simp list_laws (ground arith)

  pub u32-le : Writer.u32 v buffer ≡ buffer ++ le 4 v
  unfolding Writer.u32 le
  u32-le = simp list_laws (ground arith)

  pub u64-le : Writer.u64 v buffer ≡ buffer ++ le 8 v
  unfolding Writer.u64 le
  u64-le = simp list_laws (ground arith)

-- A string is its size in two bytes and its characters; the size is what a cast leaves of it.
abbrev pub text_bytes : List ℕ → List ℕ
text_bytes s = le 2 (length s) ++ s

le-mod : (v : ℕ) → le 2 (v % 2 ^ 16) ≡ le 2 v
unfolding le
le-mod v = ground arith

pub str-text_bytes : (buffer : Buffer) (s : List ℕ) → Writer.str s buffer ≡ buffer ++ text_bytes s
unfolding Writer.str
str-text_bytes buffer s =
    rw (u16-le buffer (length s % 2 ^ 16), le-mod (length s)) (append_assoc buffer _ s)

chars-append : (s rest : List ℕ) → chars (length s) (s ++ rest) ≡ some (s, rest)
unfolding chars
chars-append s rest =
    let enough : ltb (length (s ++ rest)) (length s) ≡ false =
      rw (length-append s rest) (le→ltb _ _ (omega arith)) in
    rw (enough, take-length-append s rest, drop-length-append s rest)

-- A string within both bounds is read back.
pub text-text_bytes :
    (max_size : ℕ) (s rest : List ℕ)
    → length s ≤ max_size
    → max_size < 2 ^ 16
    → text max_size (text_bytes s ++ rest) ≡ some (s, rest)
unfolding text
text-text_bytes max_size s rest h small =
    rw
      (
        append_assoc (le 2 (length s)) s rest,
        uint-le 2 (length s) (s ++ rest) (omega arith),
        le→ltb max_size (length s) h,
      )
      (chars-append s rest)

-- ===== src/Proto/Spec.antt =====
-- The contract of a message type: its layout, its parser, and which values fit the wire.
use cybermp.Base.{
  ℕ, ◌+◌, ◌^◌, ◌≤◌, ◌<◌, ◌≡◌, List, [], ◌∷◌, ◌++◌, some, false, length, arith, append_assoc,
  length-append,
}
use cybermp.Wire.Writer.{Buffer}
use cybermp.Wire.Parse
use cybermp.Wire.Parse.{Parse, Bytes, uint, text}
use cybermp.Wire.Layout.{le, uint-le, text_bytes, text-text_bytes, le-Bytes, length-le}
use cybermp.Wire.Refines.{Refines}
use cybermp.Proto.Header.{max_string_size, same_kind, invalid}
use cybermp.Proto.Format.{Format}

-- `p` takes `bytes` back to `a`, whatever follows them.
pub record TakesBack {A : Type 0} (p : Parse A) (a : A) (bytes : List ℕ) : Type 0 where
  pub at : (rest : List ℕ) → p (bytes ++ rest) ≡ some (a, rest)

pub uint-TakesBack : (n v : ℕ) → v < 256 ^ n → TakesBack (uint n) v (le n v)
uint-TakesBack n v h = record { at = λ rest. uint-le n v rest h }

pub text-TakesBack :
    (s : List ℕ) → length s ≤ max_string_size → TakesBack (text max_string_size) s (text_bytes s)
text-TakesBack s h = record { at = λ rest. text-text_bytes max_string_size s rest h (omega arith) }

module _ {A B : Type 0} {p : Parse A} {a : A} {xs : List ℕ} where
  pub TakesBack-bind :
      (q : A → Parse B) {b : B} {ys : List ℕ}
      → TakesBack p a xs
      → TakesBack (q a) b ys
      → TakesBack (λ zs. Parse.and_then (p zs) q) b (xs ++ ys)
  TakesBack-bind q {b} {ys} hp hq = record {
    at = λ rest. rw (append_assoc xs ys rest, hp.at (ys ++ rest)) (hq.at rest);
  }

  -- The last read of a message.
  pub TakesBack-last :
      (f : A → B)
      → TakesBack p a xs
      → TakesBack (λ zs. Parse.and_then (p zs) (λ a'. Parse.pure (f a'))) (f a) xs
  TakesBack-last f hp = record { at = λ rest. rw (hp.at rest) }

-- A string that the wire can carry.
pub record IsName (s : List ℕ) : Type 0 where
  pub chars : Bytes s
  pub short : length s ≤ max_string_size

-- What `p` reads of bytes satisfies `P`.
pub record Yields {A : Type 0} (p : Parse A) (P : A → Type 0) : Type 0 where
  pub at : (xs : List ℕ) (a : A) (ys : List ℕ) → Bytes xs → p xs ≡ some (a, ys) → P a × Bytes ys

pub record Lawful {T : Type 0} (F : Format T) : Type 1 where
  pub flags_byte : F.flags < 256
  pub kind_named : same_kind F.kind invalid ≡ false
  pub layout : T → List ℕ
  pub parse : Parse T
  pub Fits : T → Type 0
  pub writes : (m : T) (buffer : Buffer) → F.write m buffer ≡ buffer ++ layout m
  pub reads : Refines F.read parse
  pub yields : Yields parse Fits
  pub takes_back : (m : T) → Fits m → TakesBack parse m (layout m)
  pub layout_bytes : (m : T) → Fits m → Bytes (layout m)
  pub layout_small : (m : T) → Fits m → length (layout m) ≤ 1196

pub Bytes-append : (xs ys : List ℕ) → Bytes xs → Bytes ys → Bytes (xs ++ ys)
Bytes-append [] ys h k = k
Bytes-append (x ∷ xs) ys h k = (h.0, Bytes-append xs ys h.1 k)

pub text_bytes-Bytes : (s : List ℕ) → IsName s → Bytes (text_bytes s)
text_bytes-Bytes s h = Bytes-append (le 2 (length s)) s (le-Bytes 2 (length s)) h.chars

pub length-text_bytes : (s : List ℕ) → length (text_bytes s) ≡ 2 + length s
length-text_bytes s = rw (length-append (le 2 (length s)) s, length-le 2 (length s))

-- ===== src/Wire/Safety.antt =====
-- wire::Reader: its offset, and its failure flag.
use cybermp.Base.{ℕ, ◌≤◌, ◌≡◌, refl, true, false, Option, none, some, length, arith}
use cybermp.Wire.Reader
use cybermp.Wire.Reader.{Reader, Read}

pub record InBounds (r : Reader) : Type 0 where
  pub within : r.offset ≤ length r.bytes

-- From a state inside the data a read ends inside; from a failed state it fails and stays failed.
pub record IsSafe {A : Type 0} (m : Read A) : Type 0 where
  pub stays : (r : Reader) → InBounds r → InBounds (m r).1
  pub sticky : (r : Reader) → r.failed ≡ true → ((m r).0 ≡ none) × ((m r).1.failed ≡ true)

u8-InBounds : (r : Reader) → InBounds r → InBounds (Reader.u8 r).1
unfolding Reader.u8
u8-InBounds r h = ground arith

u8-sticky :
    (r : Reader) → r.failed ≡ true → ((Reader.u8 r).0 ≡ none) × ((Reader.u8 r).1.failed ≡ true)
unfolding Reader.u8
u8-sticky r h = ground arith

pub u8-IsSafe : IsSafe Reader.u8
u8-IsSafe = record { stays = u8-InBounds; sticky = u8-sticky }

module _ {A B : Type 0} where
  bind_InBounds :
      (o : Option A × Reader) (f : A → Read B)
      → InBounds o.1
      → ((a : A) → InBounds o.1 → InBounds (f a o.1).1)
      → InBounds (Reader.and_then o f).1
  bind_InBounds (none, r) f h k = h
  bind_InBounds (some a, r) f h k = k a h

  bind_sticky :
      (o : Option A × Reader) (f : A → Read B)
      → (o.0 ≡ none) × (o.1.failed ≡ true)
      → ((Reader.and_then o f).0 ≡ none) × ((Reader.and_then o f).1.failed ≡ true)
  bind_sticky (none, r) f h = (refl, h.1)
  bind_sticky (some a, r) f h = cc (h.0)

  -- A chain of reads is safe if its first read is sticky and every read stays inside.
  pub IsSafe-bind :
      {m : Read A} (f : A → Read B)
      → IsSafe m
      → ((a : A) (r : Reader) → InBounds r → InBounds (f a r).1)
      → IsSafe (λ r. Reader.and_then (m r) f)
  IsSafe-bind {m} f hm hf = record {
    stays = λ r h. bind_InBounds (m r) f (hm.stays r h) (λ a. hf a (m r).1);
    sticky = λ r h. bind_sticky (m r) f (hm.sticky r h);
  }

pub u16-IsSafe : IsSafe Reader.u16
unfolding Reader.u16
u16-IsSafe = IsSafe-bind _ u8-IsSafe (λ low. (IsSafe-bind _ u8-IsSafe (λ high r h. h)).stays)

pub u32-IsSafe : IsSafe Reader.u32
unfolding Reader.u32
u32-IsSafe = IsSafe-bind _ u16-IsSafe (λ low. (IsSafe-bind _ u16-IsSafe (λ high r h. h)).stays)

pub u64-IsSafe : IsSafe Reader.u64
unfolding Reader.u64
u64-IsSafe = IsSafe-bind _ u32-IsSafe (λ low. (IsSafe-bind _ u32-IsSafe (λ high r h. h)).stays)

pub f32-IsSafe : IsSafe Reader.f32
unfolding Reader.f32
f32-IsSafe = u32-IsSafe

chars-InBounds :
    (max_size size : ℕ) (r : Reader) → InBounds r → InBounds (Reader.chars max_size size r).1
unfolding Reader.chars
chars-InBounds max_size size r h = ground arith

pub str-IsSafe : (max_size : ℕ) → IsSafe (Reader.str max_size)
unfolding Reader.str
str-IsSafe max_size = IsSafe-bind _ u16-IsSafe (chars-InBounds max_size)

-- A read that succeeds leaves no failure behind.
pub record IsHonest {A : Type 0} (m : Read A) : Type 0 where
  pub at : (r : Reader) (a : A) → r.failed ≡ false → (m r).0 ≡ some a → (m r).1.failed ≡ false

u8_honest :
    (r : Reader) (b : ℕ)
    → r.failed ≡ false
    → (Reader.u8 r).0 ≡ some b
    → (Reader.u8 r).1.failed ≡ false
unfolding Reader.u8
u8_honest r b h e = ground arith

pub u8-IsHonest : IsHonest Reader.u8
u8-IsHonest = record { at = u8_honest }

module _ {A B : Type 0} where
  bind_honest :
      (o : Option A × Reader) (f : A → Read B) (b : B)
      → ((a : A) → o.0 ≡ some a → o.1.failed ≡ false)
      → ((a : A) → IsHonest (f a))
      → (Reader.and_then o f).0 ≡ some b
      → (Reader.and_then o f).1.failed ≡ false
  bind_honest (none, r) f b h k e = cc
  bind_honest (some a, r) f b h k e = (k a).at r b (h a refl) e

  pub IsHonest-bind :
      {m : Read A} (f : A → Read B)
      → IsHonest m
      → ((a : A) → IsHonest (f a))
      → IsHonest (λ r. Reader.and_then (m r) f)
  IsHonest-bind {m} f hm hf = record {
    at = λ r b h e. bind_honest (m r) f b (λ a. hm.at r a h) hf e;
  }

pub IsHonest-pure : {A : Type 0} (a : A) → IsHonest (Reader.pure a)
IsHonest-pure a = record { at = λ r b h e. h }

pub u16-IsHonest : IsHonest Reader.u16
unfolding Reader.u16
u16-IsHonest = IsHonest-bind _ u8-IsHonest λ l. IsHonest-bind _ u8-IsHonest λ h. IsHonest-pure _

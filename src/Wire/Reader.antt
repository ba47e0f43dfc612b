-- ===== src/Wire/Reader.antt =====
-- wire::Reader. A read returns `none` where the source returns false, with the state it leaves.
use Prim.Native.Nat.{bit_or}
use cybermp.Base.{
  ℕ, ◌+◌, ◌-◌, ◌*◌, ◌^◌, List, [], Bool, true, false, ◌||◌, not, Option, none, some, length, get_or,
  take, drop, ltb, if◌then◌else◌,
}

pub record Reader : Type 0 where
  pub bytes : List ℕ
  pub offset : ℕ
  pub failed : Bool

abbrev pub Read : Type 0 → Type 0
Read A = Reader → Option A × Reader

abbrev pub pure : {A : Type 0} → A → Read A
pure a r = (some a, r)

-- A false result ends the chain: what stands behind `&&`, or a negated test and `||`, is not read.
abbrev pub and_then : {A B : Type 0} → Option A × Reader → (A → Read B) → Option B × Reader
and_then (none, r) f = (none, r)
and_then (some a, r) f = f a r

infixl 5 ◌>>=◌
abbrev pub ◌>>=◌ : {A B : Type 0} → Read A → (A → Read B) → Read B
◌>>=◌ m f r = and_then (m r) f

abbrev pub start : List ℕ → Reader
start bytes = record { bytes = bytes; offset = 0; failed = false }

fail : Reader → Reader
fail r = record r { failed = true }

-- `offset` never passes the size, so the subtraction of the source does not wrap.
pub available : ℕ → Reader → Bool × Reader
unfolding fail
available count r =
    if r.failed || ltb (length r.bytes - r.offset) count then (false, fail r) else (true, r)

take_byte : Bool × Reader → Option ℕ × Reader
take_byte (false, r) = (none, r)
take_byte (true, r) = (some (get_or r.bytes r.offset 0), record r { offset = r.offset + 1 })

unfoldable pub u8 : Read ℕ
unfolding available take_byte
u8 r = take_byte (available 1 r)

unfoldable pub u16 : Read ℕ
u16 = do low ← u8; high ← u8; pure (bit_or low (high * 2 ^ 8))

unfoldable pub u32 : Read ℕ
u32 = do low ← u16; high ← u16; pure (bit_or low (high * 2 ^ 16))

unfoldable pub u64 : Read ℕ
u64 = do low ← u32; high ← u32; pure (bit_or low (high * 2 ^ 32))

unfoldable pub f32 : Read ℕ
f32 = u32

take_chars : ℕ → Bool × Reader → Option (List ℕ) × Reader
unfolding fail
take_chars size (false, r) = (none, fail r)
take_chars size (true, r) =
    (some (take size (drop r.offset r.bytes)), record r { offset = r.offset + size })

-- The bound is tested before the bytes are asked for, and either refusal is sticky.
unfoldable pub chars : ℕ → ℕ → Read (List ℕ)
unfolding available take_chars fail
chars max_size size r =
    if ltb max_size size then (none, fail r) else take_chars size (available size r)

unfoldable pub str : ℕ → Read (List ℕ)
unfolding chars
str max_size = do size ← u16; chars max_size size

unfoldable pub rest : Reader → List ℕ
rest r = if r.failed then [] else drop r.offset r.bytes

unfoldable pub remaining : Reader → ℕ
remaining r = if r.failed then 0 else length r.bytes - r.offset

unfoldable pub ok : Reader → Bool
ok r = not r.failed

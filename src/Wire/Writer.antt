-- ===== src/Wire/Writer.antt =====
-- wire::Writer. The state is the buffer that it appends to. A value stays below its width; what a
-- static_cast cuts off is written out. A float is its 32-bit pattern, which memcpy copies.
use cybermp.Base.{ℕ, ◌/◌, ◌%◌, ◌^◌, List, [], ◌∷◌, ◌++◌, length}

abbrev pub Buffer : Type 0
Buffer = List ℕ

unfoldable pub u8 : ℕ → Buffer → Buffer
u8 v buffer = buffer ++ (v ∷ [])

unfoldable pub u16 : ℕ → Buffer → Buffer
unfolding u8
u16 v buffer = u8 (v / 2 ^ 8 % 2 ^ 8) (u8 (v % 2 ^ 8) buffer)

unfoldable pub u32 : ℕ → Buffer → Buffer
unfolding u16
u32 v buffer = u16 (v / 2 ^ 16 % 2 ^ 16) (u16 (v % 2 ^ 16) buffer)

unfoldable pub u64 : ℕ → Buffer → Buffer
unfolding u32
u64 v buffer = u32 (v / 2 ^ 32 % 2 ^ 32) (u32 (v % 2 ^ 32) buffer)

unfoldable pub f32 : ℕ → Buffer → Buffer
unfolding u32
f32 bits buffer = u32 bits buffer

-- The length prefix is the low 16 bits of the size, the characters follow whole.
unfoldable pub str : List ℕ → Buffer → Buffer
unfolding u16
str s buffer = u16 (length s % 2 ^ 16) buffer ++ s

-- No message uses these two.
unfoldable pub bytes : List ℕ → Buffer → Buffer
bytes v buffer = buffer ++ v

unfoldable pub size : Buffer → ℕ
size buffer = length buffer

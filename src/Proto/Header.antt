-- ===== src/Proto/Header.antt =====
-- proto::Type, proto::Flags, the limits and proto::Header.
use cybermp.Base.{ℕ, Bool, ◌==◌, ltb, if◌then◌else◌, none, some, Option}
use Prim.Native.Nat.{bit_and}
use cybermp.Base.{not, List}
use cybermp.Wire.Writer
use cybermp.Wire.Writer.{Buffer}
use cybermp.Wire.Reader
use cybermp.Wire.Reader.{Reader, Read, ◌>>=◌}

abbrev pub version : ℕ
version = 2

abbrev pub max_datagram : ℕ
max_datagram = 1200

abbrev pub max_string_size : ℕ
max_string_size = 256

pub data Kind : Type 0 where
  invalid hello hello_ack ping pong : Kind
  player_state notify_player_state notify_player_joined notify_player_left : Kind

-- The value of the enumerator, which is its byte on the wire.
abbrev pub kind_code : Kind → ℕ
kind_code invalid = 0
kind_code hello = 1
kind_code hello_ack = 2
kind_code ping = 3
kind_code pong = 4
kind_code player_state = 5
kind_code notify_player_state = 6
kind_code notify_player_joined = 7
kind_code notify_player_left = 8

-- static_cast<Type> of a byte that passed the bound.
unfoldable pub kind_of_code : ℕ → Kind
kind_of_code c =
    if c == 1
    then hello
    else if c == 2
    then hello_ack
    else if c == 3
    then ping
    else if c == 4
    then pong
    else if c == 5
    then player_state
    else if c == 6
    then notify_player_state
    else if c == 7
    then notify_player_joined
    else if c == 8
    then notify_player_left
    else invalid

abbrev pub same_kind : Kind → Kind → Bool
same_kind a b = kind_code a == kind_code b

-- Flags::None and Flags::Reliable.
abbrev pub unreliable : ℕ
unreliable = 0

abbrev pub reliable : ℕ
reliable = 1

pub record Header : Type 0 where
  pub kind : Kind
  pub flags : ℕ
  pub size : ℕ

-- Header::kSize.
abbrev pub header_size : ℕ
header_size = 4

pub is_reliable : Header → Bool
is_reliable h = not (bit_and h.flags reliable == 0)

unfoldable pub write_header : Header → Buffer → Buffer
write_header h buffer = Writer.u16 h.size (Writer.u8 h.flags (Writer.u8 (kind_code h.kind) buffer))

-- An unknown type is rejected, and so is `invalid`.
unfoldable pub accept_header : ℕ → ℕ → ℕ → Read Header
accept_header raw_type flags size r =
    if ltb (kind_code notify_player_left) raw_type
    then (none, r)
    else if same_kind (kind_of_code raw_type) invalid
    then (none, r)
    else (some (record { kind = kind_of_code raw_type; flags = flags; size = size }), r)

unfoldable pub read_header : Read Header
read_header = do
  raw_type ← Reader.u8
  flags ← Reader.u8
  size ← Reader.u16
  accept_header raw_type flags size

unfoldable pub peek_header : List ℕ → Option Header
peek_header bytes = (read_header (Reader.start bytes)).0

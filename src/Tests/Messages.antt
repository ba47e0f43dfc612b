-- ===== src/Tests/Messages.antt =====
-- Examples for src/common/Serialize.hpp and Protocol.hpp.
use mathlib.Core.Option
use cybermp.Base.{
  ℕ, ◌+◌, ◌*◌, ◌≤◌, ◌≡◌, refl, List, [], ◌∷◌, ◌&&◌, none, some, arith, length, ◌==◌, if◌then◌else◌,
}
use cybermp.Wire.Writer.{Buffer}
use cybermp.Wire.Parse.{Bytes}
use cybermp.Wire.Reader
use cybermp.Wire.Reader.{Reader, Read}
use cybermp.Proto.Header.{Header, Kind, kind_code, kind_of_code, peek_header}
use cybermp.Proto.Format.{encode, decode}
use cybermp.Proto.Messages.{
  Hello, PlayerState, HelloAck, Ping, NotifyPlayerLeft, hello_format, player_state_format,
  notify_player_state_format, ping_format, pong_format, notify_player_left_format,
}
use cybermp.Proto.Lawful.Names.{hello_lawful}
use cybermp.Proto.Lawful.Numbers.{ping_lawful, PingFits}
use cybermp.Proto.RoundTrip.{decode-encode}
use cybermp.Proto.Rejects.{decode-datagram}
use cybermp.Tests.{hello_message, hello_message-HelloFits}

abbrev ping_message : Ping
ping_message = record { sent_at = 258 }

ping_fits : PingFits ping_message
ping_fits = record { sent_at = omega arith }

abbrev ping_bytes : Buffer
ping_bytes = 3 ∷ 0 ∷ 8 ∷ 0 ∷ 2 ∷ 1 ∷ 0 ∷ 0 ∷ 0 ∷ 0 ∷ 0 ∷ 0 ∷ []

-- The encoder on one message, byte by byte.
ping_encoded : encode ping_format ping_message ≡ some ping_bytes
unfolding encode cybermp.Proto.Messages.write_ping cybermp.Wire.Writer.u64
    cybermp.Proto.Header.write_header
ping_encoded = refl

ping_bytes-Bytes : Bytes ping_bytes
ping_bytes-Bytes = (
  omega arith,
  (
    omega arith,
    (
      omega arith,
      (
        omega arith,
        (
          omega arith,
          (
            omega arith,
            (
              omega arith,
              (omega arith, (omega arith, (omega arith, (omega arith, (omega arith, tt))))),
            ),
          ),
        ),
      ),
    ),
  ),
)

ping_decoded : decode ping_format ping_bytes ≡ some ping_message
unfolding decode cybermp.Proto.Header.read_header Reader.u8 Reader.u16
    cybermp.Proto.Header.accept_header kind_of_code Reader.remaining
    cybermp.Proto.Messages.read_ping Reader.u64 Reader.u32 Reader.ok
ping_decoded = refl

decode-encode_example :
    (out : Buffer) × (encode hello_format hello_message ≡ some out)
    × (decode hello_format out ≡ some hello_message)
    × (length out ≤ 1200)
    × Bytes out
decode-encode_example = decode-encode hello_lawful hello_message hello_message-HelloFits

abbrev body : List ℕ
body = 2 ∷ 1 ∷ 0 ∷ 0 ∷ 0 ∷ 0 ∷ 0 ∷ 0 ∷ []

decode-datagram_example : decode ping_format (3 ∷ 0 ∷ 8 ∷ 0 ∷ body) ≡ (
    if (3 == kind_code ping_format.kind) && (8 + 256 * 0 == length body)
    then Option.map (λ p. p.0) (ping_lawful.parse body)
    else none)
decode-datagram_example = decode-datagram ping_lawful 3 0 8 0 body ping_bytes-Bytes

-- ===== src/Proto/Format.antt =====
-- What the templates Encode and Decode ask of a message type, and the two templates.
use cybermp.Base.{
  ℕ, ◌-◌, ◌/◌, ◌%◌, ◌^◌, List, [], not, ◌||◌, Option, none, some, length, set, ltb, ◌==◌,
  if◌then◌else◌,
}
use cybermp.Wire.Writer.{Buffer}
use cybermp.Wire.Reader
use cybermp.Wire.Reader.{Reader, Read}
use cybermp.Proto.Header.{
  Kind, Header, header_size, max_datagram, write_header, read_header, same_kind,
}

-- T::kType, T::kFlags, T::Write and T::Read.
pub record Format (T : Type 0) : Type 0 where
  pub kind : Kind
  pub flags : ℕ
  pub write : T → Buffer → Buffer
  pub read : Read T

abbrev header_of : {T : Type 0} → Format T → Header
header_of F = record { kind = F.kind; flags = F.flags; size = 0 }

-- The size field is patched in once the body is written; a message that is too large is refused.
fill_in : Buffer → Option Buffer
fill_in out =
    let body_size = length out - header_size in
    if ltb max_datagram (length out) || ltb (2 ^ 16 - 1) body_size
    then none
    else some (set (set out 2 (body_size % 2 ^ 8)) 3 (body_size / 2 ^ 8 % 2 ^ 8))

unfoldable pub encode : {T : Type 0} → Format T → T → Option Buffer
unfolding fill_in
encode F message = fill_in (F.write message (write_header (header_of F) []))

-- `aOut.Read(reader) && reader.Ok()`.
unfoldable pub finish : {T : Type 0} → Option T × Reader → Option T
finish (none, r) = none
finish (some message, r) = if Reader.ok r then some message else none

-- The type must match, and the declared size must be what is left.
unfoldable pub decode_body : {T : Type 0} → Format T → Option Header × Reader → Option T
unfolding finish
decode_body F (none, r) = none
decode_body F (some h, r) =
    if not (same_kind h.kind F.kind)
    then none
    else if not (h.size == Reader.remaining r)
    then none
    else finish (F.read r)

unfoldable pub decode : {T : Type 0} → Format T → List ℕ → Option T
unfolding decode_body
decode F bytes = decode_body F (read_header (Reader.start bytes))

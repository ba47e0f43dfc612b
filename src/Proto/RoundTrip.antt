-- ===== src/Proto/RoundTrip.antt =====
-- Encode and Decode of Protocol.hpp together.
use mathlib.Core.Option
use cybermp.Base.{
  ℕ, ◌+◌, ◌*◌, ◌/◌, ◌%◌, ◌≤◌, ◌≡◌, ◌∙◌, List, [], ◌∷◌, none, some, length, ltb, if◌then◌else◌,
  arith, append-nil,
}
use cybermp.Wire.Writer
use cybermp.Wire.Writer.{Buffer}
use cybermp.Wire.Parse.{Bytes}
use cybermp.Proto.Header.{Kind, Header, kind_code, kind_of_code, write_header}
use cybermp.Proto.Format.{Format, encode, decode}
use cybermp.Proto.Spec.{Lawful}
use cybermp.Proto.Decoding.{header_at, decode_at, decode-decode_at}

-- A datagram with one message: type, flags, size of the body, body.
abbrev pub framed : {T : Type 0} → Format T → List ℕ → List ℕ
framed F body = kind_code F.kind ∷ F.flags ∷ length body % 256 ∷ length body / 256 % 256 ∷ body

write_header_lem :
    (h : Header)
    → write_header h [] ≡ kind_code h.kind ∷ h.flags ∷ h.size % 256 ∷ h.size / 256 % 256 ∷ []
unfolding write_header Writer.u16
write_header_lem h = ground arith

pub kind_code-kind : (k : Kind) → kind_of_code (kind_code k) ≡ k
unfolding kind_of_code
kind_code-kind k = ground arith

pub kind_code-le : (k : Kind) → kind_code k ≤ 8
kind_code-le k = ground arith

module _ {T : Type 0} {F : Format T} (L : Lawful F) where
  -- For a message type that keeps the contract, Encode returns nothing if the body has more than
  -- 1196 bytes, and otherwise the type, the flags, the size of the body, lowest byte first, and
  -- the body.
  pub encode-limit :
      (m : T)
      → encode F m ≡ (if ltb 1196 (length (L.layout m)) then none else some (framed F (L.layout m)))
  unfolding encode
  encode-limit m =
      rw (write_header_lem (record { kind = F.kind; flags = F.flags; size = 0 }), L.writes m _)
        (ground arith)

  pub encode-framed : (m : T) → L.Fits m → encode F m ≡ some (framed F (L.layout m))
  encode-framed m h = ground (arith, encode-limit m, L.layout_small m h)

  pub framed-Bytes : (body : List ℕ) → Bytes body → Bytes (framed F body)
  framed-Bytes body b =
      (omega (arith, kind_code-le F.kind), (L.flags_byte, (omega arith, (omega arith, b))))

  header_at-framed :
      (body : List ℕ)
      → length body ≤ 1196
      → header_at (framed F body)
        ≡ some (record { kind = F.kind; flags = F.flags; size = length body }, body)
  unfolding header_at
  header_at-framed body h =
      let size : length body % 256 + 256 * (length body / 256 % 256) ≡ length body = omega arith in
      rw (size, kind_code-kind F.kind, L.kind_named) (ground (arith, kind_code-le F.kind))

  pub decode-framed :
      (body : List ℕ) (m : T)
      → Bytes body
      → length body ≤ 1196
      → Option.map (λ p. p.0) (L.parse body) ≡ some m
      → decode F (framed F body) ≡ some m
  unfolding decode_at
  decode-framed body m b h e =
      decode-decode_at F L.parse L.reads (framed F body) (framed-Bytes body b)
      ∙ rw (header_at-framed body h) (ground arith)

  whole : (m : T) → L.Fits m → Option.map (λ p. p.0) (L.parse (L.layout m)) ≡ some m
  whole m h =
      let read : L.parse (L.layout m) ≡ some (m, []) =
        rw (append-nil (L.layout m)) at ((L.takes_back m h).at []) in
      rw read

  pub decode-written : (m : T) → L.Fits m → decode F (framed F (L.layout m)) ≡ some m
  decode-written m h =
      decode-framed (L.layout m) m (L.layout_bytes m h) (L.layout_small m h) (whole m h)

  -- For a message type that keeps the contract (each of the eight does), a message whose fields
  -- fit their widths is encoded to at most 1200 bytes, and Decode returns it from them.
  pub decode-encode :
      (m : T)
      → L.Fits m
      → (out : Buffer) × (encode F m ≡ some out)
        × (decode F out ≡ some m)
        × (length out ≤ 1200)
        × Bytes out
  decode-encode m h = (
    framed F (L.layout m),
    encode-framed m h,
    decode-written m h,
    omega (arith, L.layout_small m h),
    framed-Bytes (L.layout m) (L.layout_bytes m h),
  )

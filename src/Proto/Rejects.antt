-- ===== src/Proto/Rejects.antt =====
-- Decode and PeekHeader of Protocol.hpp, on any bytes.
use mathlib.Core.Option
use mathlib.Core.Path.{subst}
use cybermp.Base.{
  ℕ, ◌+◌, ◌*◌, ◌≤◌, ◌<◌, ◌≡◌, ◌≢◌, refl, ◌∙◌, ap, List, [], ◌∷◌, ◌++◌, ◌&&◌, ◌||◌, Option, none,
  some, length, ltb, ◌==◌, if◌then◌else◌, arith, length-append,
}
use cybermp.Wire.Parse.{Bytes}
use cybermp.Proto.Header.{Header, kind_code, kind_of_code, peek_header}
use cybermp.Proto.Format.{Format, encode, decode}
use cybermp.Proto.Spec.{Lawful, Bytes-append}
use cybermp.Proto.Decoding.{header_at, decode_at, decode-decode_at, peek-header_at}
use cybermp.Proto.RoundTrip.{framed, encode-framed, framed-Bytes, kind_code-kind, kind_code-le}

kind_of_code-code : (t : ℕ) → t ≤ 8 → kind_code (kind_of_code t) ≡ t
unfolding kind_of_code
kind_of_code-code t h = ground arith

-- The bytes of a header and a body, with the size field as it stands.
abbrev datagram : ℕ → ℕ → ℕ → ℕ → List ℕ → List ℕ
datagram t f s s' body = t ∷ f ∷ s ∷ s' ∷ body

pub peek-datagram :
    (t f s s' : ℕ) (body : List ℕ)
    → Bytes (datagram t f s s' body)
    → peek_header (datagram t f s s' body) ≡ (
        if ltb 8 t || (t == 0)
        then none
        else some (record { kind = kind_of_code t; flags = f; size = s + 256 * s' }))
unfolding header_at kind_of_code
peek-datagram t f s s' body b = peek-header_at (datagram t f s s' body) b ∙ ground arith

module _ {T : Type 0} {F : Format T} (L : Lawful F) where
  abbrev parsed : List ℕ → Option T
  parsed body = Option.map (λ p. p.0) (L.parse body)

  -- For a message type that keeps the contract, Decode on bytes with a whole header is what the
  -- type's parser makes of the body if the first byte is the type's and the size field is the size
  -- of the body, and nothing otherwise.
  pub decode-datagram :
      (t f s s' : ℕ) (body : List ℕ)
      → Bytes (datagram t f s s' body)
      → decode F (datagram t f s s' body)
        ≡ (if (t == kind_code F.kind) && (s + 256 * s' == length body) then parsed body else none)
  unfolding header_at decode_at
  decode-datagram t f s s' body b =
      decode-decode_at F L.parse L.reads (datagram t f s s' body) b
      ∙ ground (arith, kind_of_code-code t, L.kind_named)

  parsed-Fits :
      (o : Option (T × List ℕ)) (m : T)
      → ((a : T) (ys : List ℕ) → o ≡ some (a, ys) → L.Fits a)
      → Option.map (λ p. p.0) o ≡ some m
      → L.Fits m
  parsed-Fits none m h e = cc
  parsed-Fits (some (a, ys)) m h e =
      let same : a ≡ m = ground (arith, e) in subst L.Fits same (h a ys refl)

  pub decode_short : (xs : List ℕ) → Bytes xs → length xs < 4 → decode F xs ≡ none
  unfolding header_at decode_at
  decode_short [] b h = decode-decode_at F L.parse L.reads [] b
  decode_short (t ∷ []) b h = decode-decode_at F L.parse L.reads (t ∷ []) b
  decode_short (t ∷ f ∷ []) b h = decode-decode_at F L.parse L.reads (t ∷ f ∷ []) b
  decode_short (t ∷ f ∷ s ∷ []) b h = decode-decode_at F L.parse L.reads (t ∷ f ∷ s ∷ []) b
  decode_short (t ∷ f ∷ s ∷ s' ∷ body) b h = absurd (omega arith)

  -- A whole header with another type, or another size than what follows it, is refused.
  decode_mismatch :
      (t f s s' : ℕ) (body : List ℕ)
      → Bytes (datagram t f s s' body)
      → s + 256 * s' ≢ length body
      → decode F (datagram t f s s' body) ≡ none
  decode_mismatch t f s s' body b h = decode-datagram t f s s' body b ∙ ground arith

  -- What Decode returns fits the wire again.
  pub decode-Fits : (xs : List ℕ) (m : T) → Bytes xs → decode F xs ≡ some m → L.Fits m
  decode-Fits [] m b e = cc (decode_short [] b (omega arith))
  decode-Fits (t ∷ []) m b e = cc (decode_short (t ∷ []) b (omega arith))
  decode-Fits (t ∷ f ∷ []) m b e = cc (decode_short (t ∷ f ∷ []) b (omega arith))
  decode-Fits (t ∷ f ∷ s ∷ []) m b e = cc (decode_short (t ∷ f ∷ s ∷ []) b (omega arith))
  decode-Fits (t ∷ f ∷ s ∷ s' ∷ body) m b e =
      let read : parsed body ≡ some m = ground (arith, e, decode-datagram t f s s' body b) in
      parsed-Fits (L.parse body) m (λ a ys z. (L.yields.at body a ys b.1.1.1.1 z).0) read

Bytes_front : (xs ys : List ℕ) → Bytes (xs ++ ys) → Bytes xs
Bytes_front [] ys h = tt
Bytes_front (x ∷ xs) ys h = (h.0, Bytes_front xs ys h.1)

Bytes_back : (xs ys : List ℕ) → Bytes (xs ++ ys) → Bytes ys
Bytes_back [] ys h = h
Bytes_back (x ∷ xs) ys h = Bytes_back xs ys h.1

module _ {T U : Type 0} {F : Format T} {G : Format U} (L : Lawful F) (M : Lawful G) where
  cut :
      (front body back : List ℕ) (x : ℕ)
      → length body ≤ 1196
      → framed F body ≡ front ++ (x ∷ back)
      → Bytes front
      → decode G front ≡ none
  cut [] body back x h e b = decode_short M [] b (omega arith)
  cut (t ∷ []) body back x h e b = decode_short M (t ∷ []) b (omega arith)
  cut (t ∷ f ∷ []) body back x h e b = decode_short M (t ∷ f ∷ []) b (omega arith)
  cut (t ∷ f ∷ s ∷ []) body back x h e b = decode_short M (t ∷ f ∷ s ∷ []) b (omega arith)
  cut (t ∷ f ∷ s ∷ s' ∷ rest) body back x h e b =
      decode_mismatch M t f s s' rest b (ground (arith, ap length e, length-append rest (x ∷ back)))

  -- For two message types that keep the contract, a proper front of the datagram of one, whose
  -- message fits, is refused by Decode for the other (or the same).
  pub decode_truncated :
      (m : T) (front back : List ℕ) (x : ℕ)
      → L.Fits m
      → encode F m ≡ some (front ++ (x ∷ back))
      → decode G front ≡ none
  decode_truncated m front back x h e =
      let whole : framed F (L.layout m) ≡ front ++ (x ∷ back) = cc (encode-framed L m h) in
      cut front (L.layout m) back x (L.layout_small m h) whole (
        Bytes_front front (x ∷ back)
          (subst Bytes whole (framed-Bytes L (L.layout m) (L.layout_bytes m h))))

  -- For two message types that keep the contract, the datagram of one, whose message fits, with
  -- one or more bytes behind it is refused by Decode for the other (or the same).
  pub decode_extended :
      (m : T) (out extra : List ℕ) (x : ℕ)
      → L.Fits m
      → Bytes (x ∷ extra)
      → encode F m ≡ some out
      → decode G (out ++ (x ∷ extra)) ≡ none
  decode_extended m out extra x h b e =
      let whole : out ≡ framed F (L.layout m) = cc (encode-framed L m h) in
      rw whole (
        decode_mismatch M (kind_code F.kind) F.flags _ _ (L.layout m ++ (x ∷ extra))
          (Bytes-append (framed F (L.layout m)) (x ∷ extra)
            (framed-Bytes L (L.layout m) (L.layout_bytes m h)) b)
          (omega (arith, L.layout_small m h, length-append (L.layout m) (x ∷ extra))))

  -- One datagram is a message of one type only.
  pub decode_one_kind :
      (xs : List ℕ) (m : T) (n : U)
      → Bytes xs
      → decode F xs ≡ some m
      → decode G xs ≡ some n
      → kind_code F.kind ≡ kind_code G.kind
  decode_one_kind [] m n b d e = cc (decode_short L [] b (omega arith))
  decode_one_kind (t ∷ []) m n b d e = cc (decode_short L (t ∷ []) b (omega arith))
  decode_one_kind (t ∷ f ∷ []) m n b d e = cc (decode_short L (t ∷ f ∷ []) b (omega arith))
  decode_one_kind (t ∷ f ∷ s ∷ []) m n b d e = cc (decode_short L (t ∷ f ∷ s ∷ []) b (omega arith))
  decode_one_kind (t ∷ f ∷ s ∷ s' ∷ body) m n b d e =
      ground (arith, decode-datagram L t f s s' body b, decode-datagram M t f s s' body b)

module _ {T : Type 0} {F : Format T} (L : Lawful F) where
  kind_peeked :
      (t f s s' : ℕ) (body : List ℕ) (m : T)
      → Bytes (datagram t f s s' body)
      → decode F (datagram t f s s' body) ≡ some m
      → (h : Header) × (peek_header (datagram t f s s' body) ≡ some h) × (h.kind ≡ F.kind)
  kind_peeked t f s s' body m b e =
      let same : t ≡ kind_code F.kind = ground (arith, e, decode-datagram L t f s s' body b) in
      let named = L.kind_named in
      (
        record { kind = kind_of_code t; flags = f; size = s + 256 * s' },
        ground (arith, peek-datagram t f s s' body b, same, named, kind_code-le F.kind),
        ap kind_of_code same ∙ kind_code-kind F.kind,
      )

  -- What Decode accepts, PeekHeader has accepted with the same type: the switch on the type that
  -- comes before Decode goes to the message's own case.
  pub decode-peek :
      (xs : List ℕ) (m : T)
      → Bytes xs
      → decode F xs ≡ some m
      → (h : Header) × (peek_header xs ≡ some h) × (h.kind ≡ F.kind)
  decode-peek [] m b e = cc (decode_short L [] b (omega arith))
  decode-peek (t ∷ []) m b e = cc (decode_short L (t ∷ []) b (omega arith))
  decode-peek (t ∷ f ∷ []) m b e = cc (decode_short L (t ∷ f ∷ []) b (omega arith))
  decode-peek (t ∷ f ∷ s ∷ []) m b e = cc (decode_short L (t ∷ f ∷ s ∷ []) b (omega arith))
  decode-peek (t ∷ f ∷ s ∷ s' ∷ body) m b e = kind_peeked t f s s' body m b e

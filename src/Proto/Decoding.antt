-- ===== src/Proto/Decoding.antt =====
-- Decode of Protocol.hpp on any datagram, as a test of the bytes themselves.
use mathlib.Core.Path.{subst}
use mathlib.Core.Option
use cybermp.Base.{
  ℕ, ◌+◌, ◌*◌, ◌≡◌, refl, ◌∙◌, sym, ap, List, [], ◌∷◌, false, ◌&&◌, Option, none, some, length, ltb,
  ◌==◌, if◌then◌else◌, arith, Option-cases, inl, inr, length-drop,
}
use cybermp.Wire.Reader
use cybermp.Wire.Reader.{Reader, Read}
use cybermp.Wire.Parse.{◌>>=◌, Parse, Bytes, uint}
use cybermp.Wire.Refines.{
  Refines, view, result, lift, Refines-bind, u8-Refines, u16-Refines, Refines-swap,
}
use cybermp.Wire.Safety.{IsHonest, IsHonest-bind, u8-IsHonest, u16-IsHonest}
use cybermp.Proto.Header.{
  Header, invalid, kind_of_code, same_kind, accept_header, read_header, peek_header,
}
use cybermp.Proto.Format.{Format, finish, decode_body, decode}

-- Four bytes, of which the first names a message and the last two a size.
unfoldable pub header_at : List ℕ → Option (Header × List ℕ)
header_at (t ∷ f ∷ s ∷ s' ∷ body) =
    if ltb 8 t
    then none
    else if same_kind (kind_of_code t) invalid
    then none
    else some (record { kind = kind_of_code t; flags = f; size = s + 256 * s' }, body)
header_at _ = none

accept_parse : ℕ → ℕ → ℕ → Parse Header
accept_parse t f s xs =
    if ltb 8 t
    then none
    else if same_kind (kind_of_code t) invalid
    then none
    else some (record { kind = kind_of_code t; flags = f; size = s }, xs)

accept-Refines : (t f s : ℕ) → Refines (accept_header t f s) (accept_parse t f s)
unfolding accept_header accept_parse result view
accept-Refines t f s = record { at = λ r _. ground arith; keeps = λ r. ground arith }

header_parse : Parse Header
header_parse = do t ← uint 1; f ← uint 1; s ← uint 2; accept_parse t f s

header_parse-header_at : (xs : List ℕ) → Bytes xs → header_parse xs ≡ header_at xs
unfolding header_parse header_at accept_parse uint
header_parse-header_at [] h = refl
header_parse-header_at (t ∷ []) h = refl
header_parse-header_at (t ∷ f ∷ []) h = refl
header_parse-header_at (t ∷ f ∷ s ∷ []) h = refl
header_parse-header_at (t ∷ f ∷ s ∷ s' ∷ body) h = ground arith

read_header-Refines : Refines read_header header_at
unfolding read_header
read_header-Refines = Refines-swap header_parse-header_at (
    unfold header_parse in
    Refines-bind _ _ u8-Refines
      λ t. Refines-bind _ _ u8-Refines λ f. Refines-bind _ _ u16-Refines λ s. accept-Refines t f s)

accept-IsHonest : (t f s : ℕ) → IsHonest (accept_header t f s)
unfolding accept_header
accept-IsHonest t f s = record { at = λ r h e k. ground arith }

read_header-IsHonest : IsHonest read_header
unfolding read_header
read_header-IsHonest =
    IsHonest-bind _ u8-IsHonest
      λ t. IsHonest-bind _ u8-IsHonest λ f. IsHonest-bind _ u16-IsHonest λ s. accept-IsHonest t f s

peeked :
    (o : Option Header × Reader)
    → ((h : Header) → o.0 ≡ some h → o.1.failed ≡ false)
    → o.0 ≡ Option.map (λ p. p.0) (result o)
unfolding result view
peeked (none, r) k = refl
peeked (some h, r) k = rw (k h refl)

-- PeekHeader, on any bytes.
pub peek-header_at :
    (xs : List ℕ) → Bytes xs → peek_header xs ≡ Option.map (λ p. p.0) (header_at xs)
unfolding peek_header view
peek-header_at xs b =
    peeked (read_header (Reader.start xs)) (λ h. read_header-IsHonest.at (Reader.start xs) h refl)
    ∙ ap (Option.map (λ p. p.0)) (read_header-Refines.at (Reader.start xs) b)

finish-result : {T : Type 0} (o : Option T × Reader) → finish o ≡ Option.map (λ p. p.0) (result o)
unfolding finish result view Reader.ok
finish-result (none, r) = refl
finish-result (some m, r) = ground arith

remaining-view : (r : Reader) (xs : List ℕ) → view r ≡ some xs → Reader.remaining r ≡ length xs
unfolding view Reader.remaining
remaining-view r xs e = ground (arith, length-drop r.offset r.bytes)

module _ {T : Type 0} (F : Format T) (parse : Parse T) where
  -- The body is parsed if the type is the expected one and the size is what follows the header.
  unfoldable pub decode_at : Option (Header × List ℕ) → Option T
  decode_at none = none
  decode_at (some (h, body)) =
      if same_kind h.kind F.kind && (h.size == length body)
      then Option.map (λ p. p.0) (parse body)
      else none

  module _ (reads : Refines F.read parse) where
    finish-view :
        (r : Reader) (v : Option (List ℕ))
        → Bytes r.bytes
        → view r ≡ v
        → finish (F.read r) ≡ Option.map (λ p. p.0) (lift parse v)
    finish-view r v b e =
        finish-result (F.read r) ∙ ap (Option.map (λ p. p.0)) (reads.at r b ∙ ap (lift parse) e)

    decode_body-decode_at :
        (o : Option Header × Reader) → Bytes o.1.bytes → decode_body F o ≡ decode_at (result o)
    unfolding decode_body decode_at result
    decode_body-decode_at (none, r) b = refl
    decode_body-decode_at (some h, r) b = elim (Option-cases (view r)) [
      | inl z ↦ rw (z, finish-view r none b z) (ground arith)
      | inr (xs, z) ↦ rw (z, finish-view r (some xs) b z, remaining-view r xs z) (ground arith)
    ]

    -- On any bytes.
    pub decode-decode_at : (xs : List ℕ) → Bytes xs → decode F xs ≡ decode_at (header_at xs)
    unfolding decode view
    decode-decode_at xs b =
        decode_body-decode_at (read_header (Reader.start xs))
          (subst Bytes (sym (read_header-Refines.keeps (Reader.start xs))) b)
        ∙ ap decode_at (read_header-Refines.at (Reader.start xs) b)

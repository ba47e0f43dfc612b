-- ===== src/Proto/Lawful/Names.antt =====
-- The messages that carry a string: Hello, HelloAck and NotifyPlayerJoined.
use cybermp.Base.{
  ℕ, ◌+◌, ◌^◌, ◌≤◌, ◌<◌, ◌≡◌, refl, List, ◌++◌, Bool, not, ◌==◌, if◌then◌else◌, length, arith,
  append_assoc, length-append,
}
use cybermp.Wire.Writer
use cybermp.Wire.Writer.{Buffer}
use cybermp.Wire.Parse
use cybermp.Wire.Parse.{◌>>=◌, Parse, Bytes, uint, text}
use cybermp.Wire.Layout.{le, u8-le, u32-le, str-text_bytes, text_bytes, le-Bytes, length-le}
use cybermp.Wire.Refines.{Refines, Refines-bind, Refines-pure, u8-Refines, u32-Refines, str-Refines}
use cybermp.Proto.Header.{max_string_size}
use cybermp.Proto.Messages.{
  Hello, HelloAck, NotifyPlayerJoined, hello_format, hello_ack_format, notify_player_joined_format,
  write_hello, read_hello, write_hello_ack, read_hello_ack, write_notify_player_joined,
  read_notify_player_joined,
}
use cybermp.Proto.Yields.{Yields-bind, Yields-pure, uint-Yields, text-Yields}
use cybermp.Proto.Spec.{
  Yields, Lawful, IsName, TakesBack, TakesBack-bind, TakesBack-last, uint-TakesBack, text-TakesBack,
  Bytes-append, text_bytes-Bytes, length-text_bytes,
}

-- A 32-bit number and a string.
abbrev pub named_layout : ℕ → List ℕ → List ℕ
named_layout v s = le 4 v ++ text_bytes s

module _ {T : Type 0} (build : ℕ → List ℕ → T) where
  abbrev pub named_parse : Parse T
  named_parse = do v ← uint 4; s ← text max_string_size; Parse.pure (build v s)

  pub named-TakesBack :
      (v : ℕ) (s : List ℕ)
      → v < 2 ^ 32
      → IsName s
      → TakesBack named_parse (build v s) (named_layout v s)
  named-TakesBack v s h n =
      TakesBack-bind _ (uint-TakesBack 4 v h) (TakesBack-last _ (text-TakesBack s n.short))

pub named-Yields :
    {T : Type 0} (build : ℕ → List ℕ → T) (P : T → Type 0)
    → ((v : ℕ) (s : List ℕ) → v < 2 ^ 32 → IsName s → P (build v s))
    → Yields (named_parse build) P
named-Yields build P fits =
    Yields-bind (λ v. v < 256 ^ 4) _ P (uint-Yields 4)
      λ v h. Yields-bind IsName _ P text-Yields λ s n. Yields-pure (build v s) (fits v s h n)

pub named_layout-Bytes : (v : ℕ) (s : List ℕ) → IsName s → Bytes (named_layout v s)
named_layout-Bytes v s n = Bytes-append (le 4 v) _ (le-Bytes 4 v) (text_bytes-Bytes s n)

pub length-named_layout : (v : ℕ) (s : List ℕ) → length (named_layout v s) ≡ 6 + length s
length-named_layout v s =
    rw (length-append (le 4 v) (text_bytes s), length-le 4 v, length-text_bytes s) (omega arith)

pub named_writes :
    (v : ℕ) (s : List ℕ) (buffer : Buffer)
    → Writer.str s (Writer.u32 v buffer) ≡ buffer ++ named_layout v s
named_writes v s buffer =
    rw (str-text_bytes (Writer.u32 v buffer) s, u32-le buffer v)
      (append_assoc buffer (le 4 v) (text_bytes s))

pub named_layout_small : (v : ℕ) (s : List ℕ) → IsName s → length (named_layout v s) ≤ 1196
named_layout_small v s n = rw (length-named_layout v s) (omega (arith, n.short))

pub record HelloFits (m : Hello) : Type 0 where
  pub version : m.version < 2 ^ 32
  pub username : IsName m.username

abbrev pub build_hello : ℕ → List ℕ → Hello
build_hello v s = record { version = v; username = s }

pub read_hello-Refines : Refines read_hello (named_parse build_hello)
unfolding read_hello
read_hello-Refines =
    Refines-bind _ _ u32-Refines
      λ v. Refines-bind _ _ (str-Refines max_string_size) λ s. Refines-pure _

pub write_hello_lem :
    (m : Hello) (buffer : Buffer)
    → write_hello m buffer ≡ buffer ++ named_layout m.version m.username
unfolding write_hello
write_hello_lem m buffer = named_writes m.version m.username buffer

abbrev pub hello_lawful : Lawful hello_format
hello_lawful = record {
  flags_byte = omega arith;
  kind_named = refl;
  layout = λ m. named_layout m.version m.username;
  parse = named_parse build_hello;
  Fits = HelloFits;
  writes = write_hello_lem;
  reads = read_hello-Refines;
  yields = named-Yields build_hello HelloFits (λ v s h n. record { version = h; username = n });
  takes_back = λ m h. named-TakesBack build_hello m.version m.username h.version h.username;
  layout_bytes = λ m h. named_layout-Bytes m.version m.username h.username;
  layout_small = λ m h. named_layout_small m.version m.username h.username;
}

pub record NotifyPlayerJoinedFits (m : NotifyPlayerJoined) : Type 0 where
  pub player_id : m.player_id < 2 ^ 32
  pub username : IsName m.username

abbrev pub build_joined : ℕ → List ℕ → NotifyPlayerJoined
build_joined v s = record { player_id = v; username = s }

pub read_joined-Refines : Refines read_notify_player_joined (named_parse build_joined)
unfolding read_notify_player_joined
read_joined-Refines =
    Refines-bind _ _ u32-Refines
      λ v. Refines-bind _ _ (str-Refines max_string_size) λ s. Refines-pure _

pub write_joined_lem :
    (m : NotifyPlayerJoined) (buffer : Buffer)
    → write_notify_player_joined m buffer ≡ buffer ++ named_layout m.player_id m.username
unfolding write_notify_player_joined
write_joined_lem m buffer = named_writes m.player_id m.username buffer

abbrev pub notify_player_joined_lawful : Lawful notify_player_joined_format
notify_player_joined_lawful = record {
  flags_byte = omega arith;
  kind_named = refl;
  layout = λ m. named_layout m.player_id m.username;
  parse = named_parse build_joined;
  Fits = NotifyPlayerJoinedFits;
  writes = write_joined_lem;
  reads = read_joined-Refines;
  yields =
      named-Yields build_joined NotifyPlayerJoinedFits
        (λ v s h n. record { player_id = h; username = n });
  takes_back = λ m h. named-TakesBack build_joined m.player_id m.username h.player_id h.username;
  layout_bytes = λ m h. named_layout-Bytes m.player_id m.username h.username;
  layout_small = λ m h. named_layout_small m.player_id m.username h.username;
}

pub record HelloAckFits (m : HelloAck) : Type 0 where
  pub version : m.version < 2 ^ 32
  pub reason : IsName m.reason

abbrev pub bit_of : Bool → ℕ
bit_of b = if b then 1 else 0

abbrev pub ack_layout : HelloAck → List ℕ
ack_layout m = le 1 (bit_of m.accepted) ++ named_layout m.version m.reason

abbrev pub build_ack : ℕ → ℕ → List ℕ → HelloAck
build_ack raw v s = record { accepted = not (raw == 0); version = v; reason = s }

abbrev pub ack_parse : Parse HelloAck
ack_parse = do raw ← uint 1; named_parse (build_ack raw)

pub read_ack-Refines : Refines read_hello_ack ack_parse
unfolding read_hello_ack
read_ack-Refines = Refines-bind _ _ u8-Refines λ raw.
    Refines-bind _ _ u32-Refines
      λ v. Refines-bind _ _ (str-Refines max_string_size) λ s. Refines-pure _

bit_of-lt : (b : Bool) → bit_of b < 256
bit_of-lt b = ground arith

pub write_ack_lem :
    (m : HelloAck) (buffer : Buffer) → write_hello_ack m buffer ≡ buffer ++ ack_layout m
unfolding write_hello_ack
write_ack_lem m buffer =
    rw
      (
        named_writes m.version m.reason (Writer.u8 (bit_of m.accepted) buffer),
        u8-le buffer (bit_of m.accepted) (bit_of-lt m.accepted),
      )
      (append_assoc buffer _ _)

pub ack-TakesBack : (m : HelloAck) → HelloAckFits m → TakesBack ack_parse m (ack_layout m)
ack-TakesBack m h =
    TakesBack-bind (λ raw. named_parse (build_ack raw))
      (uint-TakesBack 1 (bit_of m.accepted) (bit_of-lt m.accepted))
      (rw (ack_bit m) at
        (named-TakesBack (build_ack (bit_of m.accepted)) m.version m.reason h.version h.reason))
  where
    ack_bit : (k : HelloAck) → build_ack (bit_of k.accepted) k.version k.reason ≡ k
    ack_bit k = ground arith

pub ack_layout-Bytes : (m : HelloAck) → HelloAckFits m → Bytes (ack_layout m)
ack_layout-Bytes m h =
    Bytes-append (le 1 (bit_of m.accepted)) _ (le-Bytes 1 (bit_of m.accepted))
      (named_layout-Bytes m.version m.reason h.reason)

pub ack_layout_small : (m : HelloAck) → HelloAckFits m → length (ack_layout m) ≤ 1196
ack_layout_small m h =
    rw
      (
        length-append (le 1 (bit_of m.accepted)) (named_layout m.version m.reason),
        length-le 1 (bit_of m.accepted),
        length-named_layout m.version m.reason,
      )
      (omega (arith, h.reason.short))

pub ack-Yields : Yields ack_parse HelloAckFits
ack-Yields =
    Yields-bind (λ v. v < 256 ^ 1) _ HelloAckFits (uint-Yields 1)
      λ raw _.
        named-Yields (build_ack raw) HelloAckFits (λ v s h n. record { version = h; reason = n })

abbrev pub hello_ack_lawful : Lawful hello_ack_format
hello_ack_lawful = record {
  flags_byte = omega arith;
  kind_named = refl;
  layout = ack_layout;
  parse = ack_parse;
  Fits = HelloAckFits;
  writes = write_ack_lem;
  reads = read_ack-Refines;
  yields = ack-Yields;
  takes_back = ack-TakesBack;
  layout_bytes = ack_layout-Bytes;
  layout_small = ack_layout_small;
}

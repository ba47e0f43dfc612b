-- ===== src/Proto/Lawful/Numbers.antt =====
-- The messages of one number: Ping, Pong and NotifyPlayerLeft.
use cybermp.Base.{ℕ, ◌^◌, ◌≤◌, ◌<◌, ◌≡◌, refl, ◌++◌, length, arith}
use cybermp.Wire.Writer.{Buffer}
use cybermp.Wire.Parse
use cybermp.Wire.Parse.{◌>>=◌, Parse, Bytes, uint}
use cybermp.Wire.Layout.{le, u32-le, u64-le, le-Bytes, length-le}
use cybermp.Wire.Refines.{Refines, Refines-bind, Refines-pure, u32-Refines, u64-Refines}
use cybermp.Proto.Messages.{
  Ping, Pong, NotifyPlayerLeft, ping_format, pong_format, notify_player_left_format, write_ping,
  read_ping, write_pong, read_pong, write_notify_player_left, read_notify_player_left,
}
use cybermp.Proto.Yields.{Yields-bind, Yields-pure, uint-Yields}
use cybermp.Proto.Spec.{Lawful, Yields, TakesBack, TakesBack-last, uint-TakesBack}

module _ {T : Type 0} (n : ℕ) (build : ℕ → T) where
  abbrev pub number_parse : Parse T
  number_parse = do v ← uint n; Parse.pure (build v)

  pub number-TakesBack : (v : ℕ) → v < 256 ^ n → TakesBack number_parse (build v) (le n v)
  number-TakesBack v h = TakesBack-last build (uint-TakesBack n v h)

pub number-Yields :
    {T : Type 0} (n : ℕ) (build : ℕ → T) (P : T → Type 0)
    → ((v : ℕ) → v < 256 ^ n → P (build v))
    → Yields (number_parse n build) P
number-Yields n build P fits =
    Yields-bind (λ v. v < 256 ^ n) _ P (uint-Yields n) λ v h. Yields-pure (build v) (fits v h)

pub number_small : (n v : ℕ) → n ≤ 1196 → length (le n v) ≤ 1196
number_small n v h = omega (arith, length-le n v)

pub record PingFits (m : Ping) : Type 0 where
  pub sent_at : m.sent_at < 2 ^ 64

abbrev pub build_ping : ℕ → Ping
build_ping v = record { sent_at = v }

pub read_ping-Refines : Refines read_ping (number_parse 8 build_ping)
unfolding read_ping
read_ping-Refines = Refines-bind _ _ u64-Refines λ v. Refines-pure _

pub write_ping_lem : (m : Ping) (buffer : Buffer) → write_ping m buffer ≡ buffer ++ le 8 m.sent_at
unfolding write_ping
write_ping_lem m buffer = u64-le buffer m.sent_at

abbrev pub ping_lawful : Lawful ping_format
ping_lawful = record {
  flags_byte = omega arith;
  kind_named = refl;
  layout = λ m. le 8 m.sent_at;
  parse = number_parse 8 build_ping;
  Fits = PingFits;
  writes = write_ping_lem;
  reads = read_ping-Refines;
  yields = number-Yields 8 build_ping PingFits (λ v h. record { sent_at = h });
  takes_back = λ m h. number-TakesBack 8 build_ping m.sent_at h.sent_at;
  layout_bytes = λ m h. le-Bytes 8 m.sent_at;
  layout_small = λ m h. number_small 8 m.sent_at (omega arith);
}

pub record PongFits (m : Pong) : Type 0 where
  pub sent_at : m.sent_at < 2 ^ 64

abbrev pub build_pong : ℕ → Pong
build_pong v = record { sent_at = v }

pub read_pong-Refines : Refines read_pong (number_parse 8 build_pong)
unfolding read_pong
read_pong-Refines = Refines-bind _ _ u64-Refines λ v. Refines-pure _

pub write_pong_lem : (m : Pong) (buffer : Buffer) → write_pong m buffer ≡ buffer ++ le 8 m.sent_at
unfolding write_pong
write_pong_lem m buffer = u64-le buffer m.sent_at

abbrev pub pong_lawful : Lawful pong_format
pong_lawful = record {
  flags_byte = omega arith;
  kind_named = refl;
  layout = λ m. le 8 m.sent_at;
  parse = number_parse 8 build_pong;
  Fits = PongFits;
  writes = write_pong_lem;
  reads = read_pong-Refines;
  yields = number-Yields 8 build_pong PongFits (λ v h. record { sent_at = h });
  takes_back = λ m h. number-TakesBack 8 build_pong m.sent_at h.sent_at;
  layout_bytes = λ m h. le-Bytes 8 m.sent_at;
  layout_small = λ m h. number_small 8 m.sent_at (omega arith);
}

pub record NotifyPlayerLeftFits (m : NotifyPlayerLeft) : Type 0 where
  pub player_id : m.player_id < 2 ^ 32

abbrev pub build_left : ℕ → NotifyPlayerLeft
build_left v = record { player_id = v }

pub read_left-Refines : Refines read_notify_player_left (number_parse 4 build_left)
unfolding read_notify_player_left
read_left-Refines = Refines-bind _ _ u32-Refines λ v. Refines-pure _

pub write_left_lem :
    (m : NotifyPlayerLeft) (buffer : Buffer)
    → write_notify_player_left m buffer ≡ buffer ++ le 4 m.player_id
unfolding write_notify_player_left
write_left_lem m buffer = u32-le buffer m.player_id

abbrev pub notify_player_left_lawful : Lawful notify_player_left_format
notify_player_left_lawful = record {
  flags_byte = omega arith;
  kind_named = refl;
  layout = λ m. le 4 m.player_id;
  parse = number_parse 4 build_left;
  Fits = NotifyPlayerLeftFits;
  writes = write_left_lem;
  reads = read_left-Refines;
  yields = number-Yields 4 build_left NotifyPlayerLeftFits (λ v h. record { player_id = h });
  takes_back = λ m h. number-TakesBack 4 build_left m.player_id h.player_id;
  layout_bytes = λ m h. le-Bytes 4 m.player_id;
  layout_small = λ m h. number_small 4 m.player_id (omega arith);
}

-- ===== src/Proto/Messages.antt =====
-- The message structs, each with its Write and Read; a float is its 32-bit pattern.
use cybermp.Base.{ℕ, List, Bool, not, ◌==◌, if◌then◌else◌}
use cybermp.Wire.Writer
use cybermp.Wire.Writer.{Buffer}
use cybermp.Wire.Reader
use cybermp.Wire.Reader.{Read, ◌>>=◌, pure}
use cybermp.Proto.Header
use cybermp.Proto.Header.{max_string_size, reliable, unreliable}
use cybermp.Proto.Format.{Format}

pub record Vec3 : Type 0 where
  pub x : ℕ
  pub y : ℕ
  pub z : ℕ

unfoldable pub write_vec3 : Vec3 → Buffer → Buffer
write_vec3 v buffer = Writer.f32 v.z (Writer.f32 v.y (Writer.f32 v.x buffer))

unfoldable pub read_vec3 : Read Vec3
read_vec3 = do x ← Reader.f32; y ← Reader.f32; z ← Reader.f32; pure (record { x = x; y = y; z = z })

pub record Hello : Type 0 where
  pub version : ℕ
  pub username : List ℕ

unfoldable pub write_hello : Hello → Buffer → Buffer
write_hello m buffer = Writer.str m.username (Writer.u32 m.version buffer)

unfoldable pub read_hello : Read Hello
read_hello = do
  version ← Reader.u32
  username ← Reader.str max_string_size
  pure (record { version = version; username = username })

abbrev pub hello_format : Format Hello
hello_format = record {
  kind = Header.hello;
  flags = reliable;
  write = write_hello;
  read = read_hello;
}

pub record HelloAck : Type 0 where
  pub accepted : Bool
  pub version : ℕ
  pub reason : List ℕ

unfoldable pub write_hello_ack : HelloAck → Buffer → Buffer
write_hello_ack m buffer =
    Writer.str m.reason (Writer.u32 m.version (Writer.u8 (if m.accepted then 1 else 0) buffer))

unfoldable pub read_hello_ack : Read HelloAck
read_hello_ack = do
  raw ← Reader.u8
  version ← Reader.u32
  reason ← Reader.str max_string_size
  pure (record { accepted = not (raw == 0); version = version; reason = reason })

abbrev pub hello_ack_format : Format HelloAck
hello_ack_format = record {
  kind = Header.hello_ack;
  flags = reliable;
  write = write_hello_ack;
  read = read_hello_ack;
}

pub record Ping : Type 0 where
  pub sent_at : ℕ

unfoldable pub write_ping : Ping → Buffer → Buffer
write_ping m buffer = Writer.u64 m.sent_at buffer

unfoldable pub read_ping : Read Ping
read_ping = do sent_at ← Reader.u64; pure (record { sent_at = sent_at })

abbrev pub ping_format : Format Ping
ping_format = record {
  kind = Header.ping;
  flags = unreliable;
  write = write_ping;
  read = read_ping;
}

pub record Pong : Type 0 where
  pub sent_at : ℕ

unfoldable pub write_pong : Pong → Buffer → Buffer
write_pong m buffer = Writer.u64 m.sent_at buffer

unfoldable pub read_pong : Read Pong
read_pong = do sent_at ← Reader.u64; pure (record { sent_at = sent_at })

abbrev pub pong_format : Format Pong
pong_format = record {
  kind = Header.pong;
  flags = unreliable;
  write = write_pong;
  read = read_pong;
}

pub record PlayerState : Type 0 where
  pub tick : ℕ
  pub position : Vec3
  pub rotation : ℕ

unfoldable pub write_player_state : PlayerState → Buffer → Buffer
write_player_state m buffer =
    Writer.f32 m.rotation (write_vec3 m.position (Writer.u64 m.tick buffer))

unfoldable pub read_player_state : Read PlayerState
read_player_state = do
  tick ← Reader.u64
  position ← read_vec3
  rotation ← Reader.f32
  pure (record { tick = tick; position = position; rotation = rotation })

abbrev pub player_state_format : Format PlayerState
player_state_format = record {
  kind = Header.player_state;
  flags = unreliable;
  write = write_player_state;
  read = read_player_state;
}

pub record NotifyPlayerState : Type 0 where
  pub player_id : ℕ
  pub tick : ℕ
  pub position : Vec3
  pub rotation : ℕ

unfoldable pub write_notify_player_state : NotifyPlayerState → Buffer → Buffer
write_notify_player_state m buffer =
    Writer.f32 m.rotation
      (write_vec3 m.position (Writer.u64 m.tick (Writer.u32 m.player_id buffer)))

unfoldable pub read_notify_player_state : Read NotifyPlayerState
read_notify_player_state = do
  player_id ← Reader.u32
  tick ← Reader.u64
  position ← read_vec3
  rotation ← Reader.f32
  pure (record { player_id = player_id; tick = tick; position = position; rotation = rotation })

abbrev pub notify_player_state_format : Format NotifyPlayerState
notify_player_state_format = record {
  kind = Header.notify_player_state;
  flags = unreliable;
  write = write_notify_player_state;
  read = read_notify_player_state;
}

pub record NotifyPlayerJoined : Type 0 where
  pub player_id : ℕ
  pub username : List ℕ

unfoldable pub write_notify_player_joined : NotifyPlayerJoined → Buffer → Buffer
write_notify_player_joined m buffer = Writer.str m.username (Writer.u32 m.player_id buffer)

unfoldable pub read_notify_player_joined : Read NotifyPlayerJoined
read_notify_player_joined = do
  player_id ← Reader.u32
  username ← Reader.str max_string_size
  pure (record { player_id = player_id; username = username })

abbrev pub notify_player_joined_format : Format NotifyPlayerJoined
notify_player_joined_format = record {
  kind = Header.notify_player_joined;
  flags = reliable;
  write = write_notify_player_joined;
  read = read_notify_player_joined;
}

pub record NotifyPlayerLeft : Type 0 where
  pub player_id : ℕ

unfoldable pub write_notify_player_left : NotifyPlayerLeft → Buffer → Buffer
write_notify_player_left m buffer = Writer.u32 m.player_id buffer

unfoldable pub read_notify_player_left : Read NotifyPlayerLeft
read_notify_player_left = do player_id ← Reader.u32; pure (record { player_id = player_id })

abbrev pub notify_player_left_format : Format NotifyPlayerLeft
notify_player_left_format = record {
  kind = Header.notify_player_left;
  flags = reliable;
  write = write_notify_player_left;
  read = read_notify_player_left;
}

-- ===== src/NetClient.antt =====
-- src/client/NetClient.hpp and NetClient.cpp: the client's end of the connection. The clocks, what
-- the socket answers and what RecvFrom returns are arguments; what goes to SendTo is collected in
-- `outbox`, oldest first. The round trip time is kept in microseconds, where the source divides
-- them by 1000.0. Log lines are left out.
pub mod Handle
pub mod Game
pub mod Run
pub mod Hellos
pub mod Attempts
pub mod Silence
pub mod Snapshots
pub mod Events
use cybermp.Base.{
  ℕ, ◌+◌, ◌-◌, ◌*◌, ◌%◌, ◌^◌, List, [], ◌∷◌, ◌++◌, Bool, true, false, not, ◌&&◌, Option, none, some,
  length, ltb, leb, ◌==◌, if◌then◌else◌, codes, find_if, update_if, erase_if,
}
use cybermp.Wire.Writer.{Buffer}
use cybermp.Proto.Header.{Header, Kind, peek_header, version}
use cybermp.Proto.Header
use cybermp.Proto.Format.{encode, decode}
use cybermp.Proto.Messages.{
  Vec3, Hello, HelloAck, Ping, Pong, PlayerState, NotifyPlayerState, NotifyPlayerJoined,
  NotifyPlayerLeft, hello_format, hello_ack_format, ping_format, pong_format, player_state_format,
  notify_player_state_format, notify_player_joined_format, notify_player_left_format,
}
use cybermp.TaskQueue.{TaskQueue, push}
use cybermp.Session.{Endpoint, eq_endpoint}

abbrev pub hello_retry_ms : ℕ
hello_retry_ms = 500

abbrev pub max_hello_attempts : ℕ
max_hello_attempts = 10

abbrev pub ping_interval_ms : ℕ
ping_interval_ms = 1000

abbrev pub server_timeout_ms : ℕ
server_timeout_ms = 8000

pub data NetState : Type 0 where
  disconnected connecting connected refused : NetState

unfoldable pub to_string : NetState → List ℕ
to_string disconnected = codes "disconnected"
to_string connecting = codes "connecting"
to_string connected = codes "connected"
to_string refused = codes "refused"

pub record RemoteSnapshot : Type 0 where
  pub tick : ℕ
  pub position : Vec3
  pub rotation : ℕ

pub record RemoteEvent : Type 0 where
  pub joined : Bool
  pub player_id : ℕ
  pub username : List ℕ

-- What Run keeps between its turns.
pub record Timers : Type 0 where
  pub last_hello_at : ℕ
  pub last_ping_at : ℕ
  pub last_server_at : ℕ

-- What the client, and others, push to the task queue of the game thread.
pub data Task : Type 0 where
  apply_pong other_task : Task

-- `thread` is there while Run loops.
pub record NetClient : Type 0 where
  pub thread : Option Timers
  pub server : Endpoint
  pub username : List ℕ
  pub state : NetState
  pub sent : ℕ
  pub received : ℕ
  pub malformed : ℕ
  pub hello_attempts : ℕ
  pub last_rtt_micros : ℕ
  pub applied_on_game_thread : ℕ
  pub states_sent : ℕ
  pub states_received : ℕ
  pub states_out_of_order : ℕ
  pub state_tick : ℕ
  pub remote : List (ℕ × RemoteSnapshot)
  pub events : List RemoteEvent
  pub last_error : List ℕ
  pub tasks : TaskQueue Task
  pub outbox : List (Endpoint × Buffer)

-- fetch_add(1) on a uint64_t.
abbrev pub bump : ℕ → ℕ
bump n = (n + 1) % 2 ^ 64

-- `now - last` on two uint64_t.
abbrev pub elapsed : ℕ → ℕ → ℕ
elapsed now last = (now + (2 ^ 64 - last)) % 2 ^ 64

abbrev pub set_error : List ℕ → NetClient → NetClient
set_error message c = record c { last_error = message }

-- UdpSocket::Loopback, with what inet_pton makes of "127.0.0.1".
abbrev pub loopback : ℕ → ℕ → Endpoint
loopback address port = record { address = address; port = port }

unfoldable pub disconnect : NetClient → NetClient
disconnect c = record c { thread = none; state = disconnected }

-- `ready` is what the start of winsock came to, `opened` what Open returned, and `now` what the
-- new thread reads first.
unfoldable pub connect : Bool → Bool → ℕ → ℕ → List ℕ → ℕ → NetClient → Bool × NetClient
unfolding disconnect
connect ready opened address port username now c =
    let closed = disconnect c in
    if not ready
    then (false, set_error (codes "winsock init failed") closed)
    else if not opened
    then (false, set_error (codes "could not open socket") closed)
    else (
      true,
      record closed {
        thread = some (record { last_hello_at = 0; last_ping_at = 0; last_server_at = now });
        server = loopback address port;
        username = username;
        state = connecting;
        sent = 0;
        received = 0;
        malformed = 0;
        hello_attempts = 0;
        last_rtt_micros = 0;
        applied_on_game_thread = 0;
        states_sent = 0;
        states_received = 0;
        states_out_of_order = 0;
        state_tick = 0;
        remote = [];
        events = [];
        last_error = [];
      },
    )

abbrev pub post : Buffer → NetClient → NetClient
post out c = record c { sent = bump c.sent; outbox = c.outbox ++ ((c.server, out) ∷ []) }

abbrev pub hello_of : NetClient → Hello
hello_of c = record { version = version; username = c.username }

post_hello : Option Buffer → NetClient → NetClient
post_hello none c = set_error (codes "could not encode hello") c
post_hello (some out) c = post out (record c { hello_attempts = bump c.hello_attempts })

unfoldable pub send_hello : NetClient → NetClient
unfolding post_hello
send_hello c = post_hello (encode hello_format (hello_of c)) c

post_if : Option Buffer → NetClient → NetClient
post_if none c = c
post_if (some out) c = post out c

unfoldable pub send_ping : ℕ → NetClient → NetClient
unfolding post_if
send_ping micros c = post_if (encode ping_format (record { sent_at = micros })) c

-- ===== src/NetTest.antt =====
-- src/nettest/main.cpp: the console client. Winsock is a parameter, and so are the clock and the
-- process id; lines that are printed are left out. The buffer that RecvFrom fills is threaded
-- through with the state of the system.
pub mod Walk
pub mod Codes
pub mod Agrees
pub mod Served
use cybermp.Base.{
  ℕ, zero, suc, ◌+◌, List, [], ◌∷◌, ◌++◌, Bool, true, false, not, Option, none, some, ◌==◌,
  if◌then◌else◌, take, codes, ℤ, pos, negsuc, atoi, to_unsigned, to_decimal, argument, or_else,
}
use cybermp.Proto.Header.{version, max_datagram}
use cybermp.Proto.Format.{encode, decode}
use cybermp.Proto.Messages.{
  Hello, HelloAck, Ping, Pong, hello_format, hello_ack_format, ping_format, pong_format,
}
use cybermp.Session.{Endpoint}
use cybermp.NetClient.{loopback}
use cybermp.Socket.{
  Winsock, UdpSocket, Arrival, Received, closed_socket, startup, shutdown, open_socket, close,
  send_to, recv_from,
}

abbrev pub default_port : ℕ
default_port = 11780

abbrev pub exchange_timeout_ms : ℕ
exchange_timeout_ms = 1000

pub record Options : Type 0 where
  pub port : ℕ
  pub rounds : ℤ
  pub protocol : ℕ
  pub username : List ℕ

unfoldable pub parse_options : ℕ → List (List ℕ) → Options
parse_options pid args = record {
  port = or_else default_port (λ a. to_unsigned 16 (atoi a)) (argument 1 args);
  rounds = or_else (pos 3) atoi (argument 2 args);
  protocol = or_else version (λ a. to_unsigned 32 (atoi a)) (argument 3 args);
  username = or_else (codes "nettest-" ++ to_decimal pid) (λ a. a) (argument 4 args);
}

abbrev pub hello_for : Options → Hello
hello_for o = record { version = o.protocol; username = o.username }

-- The buffer and the state of the system.
pub record Io (S : Type 0) : Type 0 where
  pub buffer : List ℕ
  pub system : S

module _ {S : Type 0} (W : Winsock S) (server : Endpoint) (u : UdpSocket) where
  arrived : Arrival × S → Option ℕ × Io S
  arrived (a, s) =
      (or_else none (λ r. some r.size) a.result, record { buffer = a.buffer; system = s })

  received : Bool × S → Io S → Option ℕ × Io S
  unfolding arrived
  received (false, s) io = (none, record io { system = s })
  received (true, s) io = arrived (recv_from W io.buffer exchange_timeout_ms u s)

  -- Exchange: the size of the answer, if there is one.
  unfoldable pub exchange : List ℕ → Io S → Option ℕ × Io S
  unfolding received
  exchange request io = received (send_to W server request u io.system) io

  handshaken : Option ℕ × Io S → Bool × Io S
  handshaken (none, io) = (false, io)
  handshaken (some size, io) =
      (or_else false (λ ack. ack.accepted) (decode hello_ack_format (take size io.buffer)), io)

  say_hello : Option (List ℕ) → Io S → Bool × Io S
  unfolding handshaken
  say_hello none io = (false, io)
  say_hello (some request) io = handshaken (exchange request io)

  -- Handshake, of the walk.
  unfoldable pub do_handshake : List ℕ → ℕ → Io S → Bool × Io S
  unfolding say_hello
  do_handshake username protocol io =
      say_hello (encode hello_format (record { version = protocol; username = username })) io

-- What the answer to a hello means: go on, or leave with a code.
pub data Verdict : Type 0 where
  go_on : Verdict
  leave : ℕ → Verdict

unfoldable pub judge_ack : Option HelloAck → Verdict
judge_ack none = leave 1
judge_ack (some ack) = if ack.accepted then go_on else leave 2

-- `pong.sentAt != ping.sentAt`, and an answer that is no pong.
unfoldable pub judge_pong : ℕ → Option Pong → Bool
judge_pong sent_at none = false
judge_pong sent_at (some pong) = pong.sent_at == sent_at

module _ {S : Type 0} (W : Winsock S) (now_micros : S → ℕ × S) (server : Endpoint)
    (u : UdpSocket) where
  -- The clock is read again for the time of the round, after a pong that counts.
  count_answer : ℕ → Option ℕ × Io S → Bool × Io S
  count_answer sent_at (none, io) = (false, io)
  count_answer sent_at (some size, io) =
      let good = judge_pong sent_at (decode pong_format (take size io.buffer)) in
      (good, if good then record io { system = (now_micros io.system).1 } else io)

  pinged : ℕ → Option (List ℕ) → Io S → Bool × Io S
  unfolding count_answer
  pinged sent_at none io = (false, io)
  pinged sent_at (some request) io = count_answer sent_at (exchange W server u request io)

  -- One round: whether it was answered.
  unfoldable pub ping_round : Io S → Bool × Io S
  unfolding pinged
  ping_round io =
      let (sent_at, s) = now_micros io.system in
      pinged sent_at (encode ping_format (record { sent_at = sent_at })) (record io { system = s })

  unfoldable pub ping_rounds : ℕ → ℕ → Io S → ℕ × Io S
  ping_rounds zero answered io = (answered, io)
  ping_rounds (suc n) answered io =
      let (good, io') = ping_round io in ping_rounds n (if good then answered + 1 else answered) io'

  -- `answered == rounds`; with no or less than no rounds the loop's body never runs.
  unfoldable pub ping_all : ℤ → Io S → ℕ × Io S
  ping_all (pos n) io =
      let (answered, io') = ping_rounds n 0 io in (if answered == n then 0 else 1, io')
  ping_all (negsuc n) io = (1, io)

  after_ack : Verdict → ℤ → Io S → ℕ × Io S
  after_ack (leave code) rounds io = (code, io)
  after_ack go_on rounds io = ping_all rounds io

  answered_hello : ℤ → Option ℕ × Io S → ℕ × Io S
  unfolding after_ack
  answered_hello rounds (none, io) = (1, io)
  answered_hello rounds (some size, io) =
      after_ack (judge_ack (decode hello_ack_format (take size io.buffer))) rounds io

  greeted : ℤ → Option (List ℕ) → Io S → ℕ × Io S
  unfolding answered_hello
  greeted rounds none io = (1, io)
  greeted rounds (some request) io = answered_hello rounds (exchange W server u request io)

  unfoldable pub talk : Options → Io S → ℕ × Io S
  unfolding greeted
  talk o io = greeted o.rounds (encode hello_format (hello_for o)) io

abbrev pub zeros : ℕ → List ℕ
zeros zero = []
zeros (suc n) = 0 ∷ zeros n

module _ {S : Type 0} (W : Winsock S) (now_micros : S → ℕ × S) (loopback_address : ℕ) where
  -- The socket is destroyed before the start of winsock is undone.
  leaving : ℕ → UdpSocket → S → ℕ × S
  leaving code u s = (code, shutdown W true (close W u s).1)

  with_socket : Options → Bool × UdpSocket × S → ℕ × S
  unfolding leaving
  with_socket o (false, u, s) = leaving 1 u s
  with_socket o (true, u, s) =
      let (code, io) =
        talk W now_micros (loopback loopback_address o.port) u o
          (record { buffer = zeros max_datagram; system = s }) in
      leaving code u io.system

  with_winsock : Options → Bool × S → ℕ × S
  unfolding with_socket
  with_winsock o (false, s) = (1, shutdown W false s)
  with_winsock o (true, s) = with_socket o (open_socket W closed_socket s)

  -- main without `--walk`: its exit code.
  unfoldable pub run : Options → S → ℕ × S
  unfolding with_winsock
  run o s = with_winsock o (startup W s)

-- ===== src/Tests/Sockets.antt =====
-- Examples for src/common/Net.cpp and src/nettest/main.cpp, with a winsock on one machine.
use cybermp.Base.{
  ℕ, ◌+◌, ◌*◌, ◌/◌, ◌%◌, ◌^◌, ◌≤◌, ◌<◌, ◌≡◌, ◌↔◌, ◌==◌, refl, sym, ap, List, [], ◌∷◌, ◌++◌, Bool,
  true, false, Option, none, some, length, take, erase_if, arith, codes, if◌then◌else◌, ℤ, pos, map,
  All, length-take,
}
use cybermp.Wire.Writer.{Buffer}
use cybermp.Proto.Format.{encode, decode}
use cybermp.Proto.Messages.{hello_format, hello_ack_format, ping_format, pong_format}
use cybermp.Session.{Endpoint, find_endpoint}
use cybermp.Socket.{
  Winsock, SockAddr, UdpSocket, Received, closed_socket, recv_from, send_to, all_sent, close,
}
use cybermp.Socket.Handles.{Use, opens, binds, sends, receives, closes, use_all, Holding, no_leaks}
use cybermp.Socket.Replies.{Documented, answer_returns}
use cybermp.Server.{handle_hello, handle_ping, is_welcome}
use cybermp.Server.Broadcasts.{sending}
use cybermp.Server.Hellos.{ack_bytes}
use cybermp.NetTest.{
  Options, Io, talk, do_handshake, hello_for, judge_ack, judge_pong, go_on, leave, zeros,
}
use cybermp.NetTest.Codes.{Acked, AllAnswered, exit_codes}
use cybermp.NetTest.Walk.{drain_all, new_walk}
use cybermp.NetTest.Agrees.{Agree, NoLeave, handle_all, drain_agrees}
use cybermp.NetTest.Served.{hello_sent, ping_sent, outcome, hello_served, ping_served}
use cybermp.Tests.{
  alice, carol, alice_session, carol-IsName, quiet_backend, server, client, two_players,
}

pub record Machine : Type 0 where
  pub handles : List ℕ
  pub next : ℕ
  pub inbox : List (List ℕ × SockAddr)

abbrev pub swap_bytes : ℕ → ℕ
swap_bytes port = port % 256 * 256 + port / 256 % 256

abbrev pub waiting : List (List ℕ × SockAddr) → ℕ
waiting [] = 0
waiting (d ∷ ds) = 1

-- What does not fit is cut off.
abbrev pub pop : ℕ → Machine → List (List ℕ × SockAddr) → Option (List ℕ × SockAddr) × Machine
pop size m [] = (none, m)
pop size m ((bytes, a) ∷ ds) =
    (some (take size bytes, record a { sin_port = a.sin_port % 2 ^ 16 }), record m { inbox = ds })

abbrev pub machine_calls : Winsock Machine
machine_calls = record {
  wsa_startup = λ m. (0, m);
  wsa_cleanup = λ m. m;
  socket = λ m. (some m.next, record m { handles = m.next ∷ m.handles; next = m.next + 1 });
  bind_socket = λ h a m. (true, m);
  getsockname = λ h m. (some (record { s_addr = 0; sin_port = 258 }), m);
  closesocket = λ h m. record m { handles = erase_if (λ x. x == h) m.handles };
  sendto = λ h bytes a m. (some (length bytes), m);
  select = λ h sec usec m. (some (waiting m.inbox), m);
  recvfrom = λ h size m. pop size m m.inbox;
  htons = swap_bytes;
  ntohs = swap_bytes;
}

popped-handles :
    (size : ℕ) (m : Machine) (ds : List (List ℕ × SockAddr)) → (pop size m ds).1.handles ≡ m.handles
popped-handles size m [] = refl
popped-handles size m ((bytes, a) ∷ ds) = refl

pub machine-Holding : Holding machine_calls (λ m. m.handles)
machine-Holding = record {
  made = λ m h e. ground (arith, e);
  not_made = λ m e. ground (arith, e);
  released = λ h m. refl;
  bound = λ h a m. refl;
  named = λ h m. refl;
  sent = λ h bytes a m. refl;
  waited = λ h sec usec m. refl;
  begun = λ m. refl;
  ended = λ m. refl;
  read = λ h size m. popped-handles size m m.inbox;
}

popped-fits :
    (size : ℕ) (m : Machine) (ds : List (List ℕ × SockAddr)) (bytes : List ℕ) (a : SockAddr)
    → (pop size m ds).0 ≡ some (bytes, a)
    → (a.sin_port < 2 ^ 16) × (length bytes ≤ size)
popped-fits size m [] bytes a e = cc
popped-fits size m ((all, b) ∷ ds) bytes a e =
    let port : b.sin_port % 2 ^ 16 ≡ a.sin_port = ground (arith, e) in
    let same : take size all ≡ bytes = ground (arith, e) in
    (omega (arith, port), omega (arith, ap length same, length-take size all))

machine-Documented : Documented machine_calls
machine-Documented = record {
  swaps = λ port small. omega arith;
  reads = λ h size m bytes a e. popped-fits size m m.inbox bytes a e;
}

abbrev pub machine : Machine
machine = record {
  handles = 4 ∷ [];
  next = 9;
  inbox = (1 ∷ 2 ∷ 3 ∷ [], record { s_addr = 16777343; sin_port = 1 }) ∷ [];
}

-- An answer that accepts, and a pong.
abbrev answering : Machine
answering = record machine {
  inbox =
      (2 ∷ 1 ∷ 7 ∷ 0 ∷ 1 ∷ 2 ∷ 0 ∷ 0 ∷ 0 ∷ 0 ∷ 0 ∷ [], record { s_addr = 16777343; sin_port = 1 })
      ∷ (
        4 ∷ 0 ∷ 8 ∷ 0 ∷ 2 ∷ 1 ∷ 0 ∷ 0 ∷ 0 ∷ 0 ∷ 0 ∷ 0 ∷ [],
        record { s_addr = 16777343; sin_port = 1 },
      )
      ∷ [];
}

abbrev uses : List Use
uses = opens ∷ binds 11780 ∷ closes ∷ receives (0 ∷ 0 ∷ []) 66 ∷ binds 0 ∷ sends alice (7 ∷ []) ∷ []

no_leaks_example :
    let r = use_all machine_calls uses (closed_socket, machine) in
    (r.1.handles ≡ (if r.0.is_open then r.0.handle ∷ 4 ∷ [] else 4 ∷ []))
    × ((close machine_calls r.0 r.1).1.handles ≡ 4 ∷ [])
no_leaks_example = no_leaks machine_calls (λ m. m.handles) machine-Holding uses machine

abbrev open_at_4 : UdpSocket
open_at_4 = record { handle = 4; is_open = true }

-- Two bytes of the three fit.
abbrev two_bytes : Received
two_bytes = record { size = 2; from = record { address = 16777343; port = 256 } }

two_came : (recv_from machine_calls (0 ∷ 0 ∷ []) 1500 open_at_4 machine).0.result ≡ some two_bytes
unfolding recv_from
two_came = refl

answer_returns_example :
    let a = (recv_from machine_calls (0 ∷ 0 ∷ []) 1500 open_at_4 machine).0 in
    (bytes : List ℕ) × (from : SockAddr) × (before : Machine) × ((machine_calls.recvfrom 4 2
        before).0
      ≡ some (bytes, from))
    × (take 2 a.buffer ≡ bytes)
    × (0 < 2)
    × (2 ≤ 2)
    × (let sent = machine_calls.sendto 4 (5 ∷ []) from machine in
        send_to machine_calls two_bytes.from (5 ∷ []) open_at_4 machine
        ≡ (all_sent 1 sent.0, sent.1))
answer_returns_example =
    answer_returns machine_calls (0 ∷ 0 ∷ []) (5 ∷ []) 1500 open_at_4 machine machine two_bytes
      machine-Documented two_came

abbrev options : Options
options = record { port = 11780; rounds = pos 2; protocol = 2; username = codes "carol" }

-- A clock that stands still.
abbrev noon : Machine → ℕ × Machine
noon m = (258, m)

abbrev io : Io Machine
io = record { buffer = zeros 16; system = answering }

exit_codes_example :
    let code = (talk machine_calls noon alice open_at_4 options io).0 in
    (code ≡ 2 ↔ Acked machine_calls noon alice open_at_4 options io false)
    × (code ≡ 0 ↔ (
        (k : Acked machine_calls noon alice open_at_4 options io true) × (n : ℕ) × (pos 2 ≡ pos n)
        × AllAnswered machine_calls noon alice open_at_4 n k.after))
    × (code ≤ 2)
    × ((do_handshake machine_calls alice open_at_4 (codes "carol") 2 io).0 ≡ true
        ↔ Acked machine_calls noon alice open_at_4 options io true)
exit_codes_example = exit_codes machine_calls noon alice open_at_4 options io

-- A snapshot of player 3 at tick 7.
abbrev snapshot : List ℕ
snapshot =
    6 ∷ 0 ∷ 28 ∷ 0 ∷ 3 ∷ 0 ∷ 0 ∷ 0 ∷ 7 ∷ 0 ∷ 0 ∷ 0 ∷ 0 ∷ 0 ∷ 0 ∷ 0 ∷ 0 ∷ 0 ∷ 0 ∷ 0 ∷ 0 ∷ 0 ∷ 0 ∷ 0
    ∷ 0 ∷ 0 ∷ 0 ∷ 0 ∷ 0 ∷ 0 ∷ 0 ∷ 0 ∷ []

no_leave : NoLeave snapshot
unfolding decode cybermp.Proto.Header.read_header cybermp.Wire.Reader.u8 cybermp.Wire.Reader.u16
    cybermp.Proto.Header.accept_header cybermp.Proto.Header.kind_of_code
no_leave = refl

drain_agrees_example :
    Agree
      (drain_all (snapshot ∷ snapshot ∷ []) new_walk)
      (handle_all (snapshot ∷ snapshot ∷ []) 0 client)
drain_agrees_example =
    drain_agrees (snapshot ∷ snapshot ∷ []) 0 new_walk client (no_leave, (no_leave, tt))
      (refl, refl, refl)

hello_served_example :
    (encode hello_format (hello_for options) ≡ some (hello_sent options))
    × ((rest : List (Endpoint × Buffer)) × ((handle_hello quiet_backend carol
            (hello_sent options)
            5
            server).sent
          ≡ [] ++ ((carol, ack_bytes (outcome quiet_backend carol 5 server options).0) ∷ rest)))
    × (judge_ack
          (decode hello_ack_format (ack_bytes (outcome quiet_backend carol 5 server options).0))
        ≡ (if is_welcome (outcome quiet_backend carol 5 server options).0 then go_on else leave 2))
hello_served_example = hello_served quiet_backend carol 5 server options (omega arith) carol-IsName

alice_known : find_endpoint alice two_players ≡ some alice_session
unfolding find_endpoint cybermp.Base.find_if cybermp.Session.eq_endpoint
alice_known = refl

ping_served_example :
    (encode ping_format (record { sent_at = 258 }) ≡ some (ping_sent 258))
    × ((out : Buffer) × (handle_ping alice (ping_sent 258) server
          ≡ sending ((alice, out) ∷ []) server)
        × ((other : ℕ) → judge_pong other (decode pong_format out) ≡ (258 == other)))
ping_served_example = ping_served alice server 258 alice_session (omega arith) alice_known

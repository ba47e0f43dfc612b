-- ===== src/Socket.antt =====
-- src/common/Net.hpp and Net.cpp: the start of winsock and UdpSocket. Winsock is a parameter: a
-- record of the calls that the code makes, over the state of the system. Addresses and ports stand
-- in a SockAddr in network byte order; the family is always AF_INET. A datagram's size fits an int.
pub mod Handles
pub mod Replies
use cybermp.Base.{
  ℕ, ◌*◌, ◌/◌, ◌%◌, List, [], ◌∷◌, ◌++◌, Bool, true, false, not, Option, none, some, length, drop,
  ◌==◌, if◌then◌else◌,
}
use cybermp.Session.{Endpoint}

pub record SockAddr : Type 0 where
  pub s_addr : ℕ
  pub sin_port : ℕ

-- WSAStartup, WSACleanup, socket, bind, getsockname, closesocket, sendto, select on one socket that
-- is to be readable, recvfrom, htons and ntohs. Where a call has failed (INVALID_SOCKET or
-- SOCKET_ERROR), its result is `none` or false.
pub record Winsock (S : Type 0) : Type 0 where
  pub wsa_startup : S → ℕ × S
  pub wsa_cleanup : S → S
  pub socket : S → Option ℕ × S
  pub bind_socket : ℕ → SockAddr → S → Bool × S
  pub getsockname : ℕ → S → Option SockAddr × S
  pub closesocket : ℕ → S → S
  pub sendto : ℕ → List ℕ → SockAddr → S → Option ℕ × S
  pub select : ℕ → ℕ → ℕ → S → Option ℕ × S
  pub recvfrom : ℕ → ℕ → S → Option (List ℕ × SockAddr) × S
  pub htons : ℕ → ℕ
  pub ntohs : ℕ → ℕ

pub record UdpSocket : Type 0 where
  pub handle : ℕ
  pub is_open : Bool

abbrev pub closed_socket : UdpSocket
closed_socket = record { handle = 0; is_open = false }

pub record Received : Type 0 where
  pub size : ℕ
  pub from : Endpoint

-- What RecvFrom leaves in the caller's buffer, beside its result.
pub record Arrival : Type 0 where
  pub result : Option Received
  pub buffer : List ℕ

-- The two parts of a timeval.
abbrev pub seconds : ℕ → ℕ
seconds timeout_ms = timeout_ms / 1000

abbrev pub microseconds : ℕ → ℕ
microseconds timeout_ms = timeout_ms % 1000 * 1000

-- `sent == size`, of what sendto returned.
unfoldable pub all_sent : ℕ → Option ℕ → Bool
all_sent size none = false
all_sent size (some sent) = sent == size

module _ {S : Type 0} (W : Winsock S) where
  -- Startup, and m_ok.
  unfoldable pub startup : S → Bool × S
  startup s = let (code, s') = W.wsa_startup s in (code == 0, s')

  unfoldable pub shutdown : Bool → S → S
  shutdown true s = W.wsa_cleanup s
  shutdown false s = s

  opened : Option ℕ × S → UdpSocket → Bool × UdpSocket × S
  opened (none, s) u = (false, u, s)
  opened (some handle, s) u = (true, record { handle = handle; is_open = true }, s)

  unfoldable pub open_socket : UdpSocket → S → Bool × UdpSocket × S
  unfolding opened
  open_socket u s = if u.is_open then (true, u, s) else opened (W.socket s) u

  unfoldable pub any_address : ℕ → SockAddr
  any_address port = record { s_addr = 0; sin_port = W.htons port }

  bind_opened : ℕ → Bool × UdpSocket × S → Bool × UdpSocket × S
  unfolding any_address
  bind_opened port (false, u, s) = (false, u, s)
  bind_opened port (true, u, s) =
      let (bound, s') = W.bind_socket u.handle (any_address port) s in (bound, u, s')

  -- `!m_open && !Open()`.
  unfoldable pub bind : ℕ → UdpSocket → S → Bool × UdpSocket × S
  unfolding bind_opened open_socket
  bind port u s = bind_opened port (if u.is_open then (true, u, s) else open_socket u s)

  port_named : Option SockAddr × S → ℕ × S
  port_named (none, s) = (0, s)
  port_named (some address, s) = (W.ntohs address.sin_port, s)

  unfoldable pub local_port : UdpSocket → S → ℕ × S
  unfolding port_named
  local_port u s = if u.is_open then port_named (W.getsockname u.handle s) else (0, s)

  unfoldable pub close : UdpSocket → S → UdpSocket × S
  close u s = if u.is_open then (closed_socket, W.closesocket u.handle s) else (u, s)

  abbrev pub address_of : Endpoint → SockAddr
  address_of to = record { s_addr = to.address; sin_port = W.htons to.port }

  unfoldable pub send_to : Endpoint → List ℕ → UdpSocket → S → Bool × S
  send_to to bytes u s =
      if u.is_open
      then (let (sent, s') = W.sendto u.handle bytes (address_of to) s in
          (all_sent (length bytes) sent, s'))
      else (false, s)

  abbrev pub endpoint_of : SockAddr → Endpoint
  endpoint_of address = record { address = address.s_addr; port = W.ntohs address.sin_port }

  -- `read <= 0` is a failure, or an empty datagram. The bytes that are read lie at the buffer's start.
  taken : List ℕ → Option (List ℕ × SockAddr) × S → Arrival × S
  taken buffer (none, s) = (record { result = none; buffer = buffer }, s)
  taken buffer (some ([], address), s) = (record { result = none; buffer = buffer }, s)
  taken buffer (some (b ∷ bs, address), s) = (
    record {
      result = some (record { size = length (b ∷ bs); from = endpoint_of address });
      buffer = (b ∷ bs) ++ drop (length (b ∷ bs)) buffer;
    },
    s,
  )

  -- select's result is positive when the socket is readable.
  if_readable : ℕ → List ℕ → Option ℕ × S → Arrival × S
  unfolding taken
  if_readable handle buffer (none, s) = (record { result = none; buffer = buffer }, s)
  if_readable handle buffer (some ready, s) =
      if ready == 0
      then (record { result = none; buffer = buffer }, s)
      else taken buffer (W.recvfrom handle (length buffer) s)

  unfoldable pub recv_from : List ℕ → ℕ → UdpSocket → S → Arrival × S
  unfolding if_readable
  recv_from buffer timeout_ms u s =
      if u.is_open
      then if_readable u.handle buffer
          (W.select u.handle (seconds timeout_ms) (microseconds timeout_ms) s)
      else (record { result = none; buffer = buffer }, s)

-- ===== src/Socket/Replies.antt =====
-- UdpSocket::RecvFrom, and SendTo to where a datagram came from.
use cybermp.Base.{
  ℕ, ◌^◌, ◌<◌, ◌≤◌, ◌≡◌, refl, sym, ap, List, [], ◌∷◌, ◌++◌, take, drop, length, Bool, true, false,
  Option, none, some, ◌==◌, arith, Bool-cases, inl, inr, take-length-append,
}
use cybermp.Session.{Endpoint}
use cybermp.Socket.{
  Winsock, SockAddr, UdpSocket, Received, send_to, recv_from, address_of, endpoint_of, all_sent,
  seconds, microseconds, if_readable, taken,
}

module _ {S : Type 0} (W : Winsock S) where
  -- What winsock says of recvfrom: a port has 16 bits and comes back from ntohs and htons, and no
  -- more is read than the buffer holds.
  pub record Documented : Type 0 where
    pub swaps : (port : ℕ) → port < 2 ^ 16 → W.htons (W.ntohs port) ≡ port
    pub reads :
        (h size : ℕ) (s : S) (bytes : List ℕ) (a : SockAddr)
        → (W.recvfrom h size s).0 ≡ some (bytes, a)
        → (a.sin_port < 2 ^ 16) × (length bytes ≤ size)

  -- A datagram that RecvFrom has reported: what recvfrom has read, and from where.
  pub record Came (buffer : List ℕ) (u : UdpSocket) (r : Received) (after : List ℕ) : Type 0 where
    pub bytes : List ℕ
    pub from : SockAddr
    pub before : S
    pub read : (W.recvfrom u.handle (length buffer) before).0 ≡ some (bytes, from)
    pub opened : u.is_open ≡ true
    pub full : 0 < r.size
    pub sized : length bytes ≡ r.size
    pub placed : after ≡ bytes ++ drop r.size buffer
    pub endpoint : r.from ≡ endpoint_of W from

  taken-some :
      (buffer : List ℕ) (x : Option (List ℕ × SockAddr) × S) (r : Received)
      → let a = (taken W buffer x).0 in
        a.result ≡ some r
        → (bytes : List ℕ) × (from : SockAddr) × (x.0 ≡ some (bytes, from))
          × (0 < r.size)
          × (length bytes ≡ r.size)
          × (a.buffer ≡ bytes ++ drop r.size buffer)
          × (r.from ≡ endpoint_of W from)
  unfolding taken
  taken-some buffer (none, s) r e = cc
  taken-some buffer (some ([], from), s) r e = cc
  taken-some buffer (some (b ∷ bs, from), s) r e =
      let size : length (b ∷ bs) ≡ r.size = ground (arith, e) in
      let peer : r.from ≡ endpoint_of W from = ground (arith, e) in
      (b ∷ bs, from, refl, omega arith, size, ap (λ n. (b ∷ bs) ++ drop n buffer) size, peer)

  if_readable-Came :
      (buffer : List ℕ) (u : UdpSocket) (x : Option ℕ × S) (r : Received)
      → u.is_open ≡ true
      → let a = (if_readable W u.handle buffer x).0 in a.result ≡ some r → Came buffer u r a.buffer
  unfolding if_readable
  if_readable-Came buffer u (none, s) r o e = cc
  if_readable-Came buffer u (some ready, s) r o e = elim (Bool-cases (ready == 0)) [
    | inl z ↦ absurd (ground (arith, z, e))
    | inr z ↦
        let x = W.recvfrom u.handle (length buffer) s in
        let (bytes, from, read, full, sized, placed, peer) = taken-some buffer x r (rw z at e) in
        rw z (record {
          bytes = bytes;
          from = from;
          before = s;
          read = read;
          opened = o;
          full = full;
          sized = sized;
          placed = placed;
          endpoint = peer;
        })
  ]

  recv_from-Came_on :
      (buffer : List ℕ) (timeout_ms handle : ℕ) (b : Bool) (s : S) (r : Received)
      → let u : UdpSocket = record { handle = handle; is_open = b } in
        let a = (recv_from W buffer timeout_ms u s).0 in
        a.result ≡ some r → Came buffer u r a.buffer
  unfolding recv_from
  recv_from-Came_on buffer timeout_ms handle true s r e =
      if_readable-Came buffer (record { handle = handle; is_open = true })
        (W.select handle (seconds timeout_ms) (microseconds timeout_ms) s) r refl e
  recv_from-Came_on buffer timeout_ms handle false s r e = cc

  pub recv_from-Came :
      (buffer : List ℕ) (timeout_ms : ℕ) (u : UdpSocket) (s : S) (r : Received)
      → let a = (recv_from W buffer timeout_ms u s).0 in
        a.result ≡ some r → Came buffer u r a.buffer
  recv_from-Came buffer timeout_ms u s r e =
      recv_from-Came_on buffer timeout_ms u.handle u.is_open s r e

  sends_at :
      (to : Endpoint) (out : List ℕ) (u : UdpSocket) (s : S) (a : SockAddr)
      → u.is_open ≡ true
      → address_of W to ≡ a
      → let sent = W.sendto u.handle out a s in
        send_to W to out u s ≡ (all_sent (length out) sent.0, sent.1)
  unfolding send_to
  sends_at to out u s a o e = rw (o, send_to, e) refl

  -- With winsock as documented, a datagram that RecvFrom reports has from one byte to as many as
  -- the buffer holds, is what recvfrom read, and is the start of the buffer; and an answer that is
  -- sent to the reported endpoint goes to the very address that recvfrom gave, and is reported as
  -- sent exactly if sendto took all its bytes.
  pub answer_returns :
      (buffer out : List ℕ) (timeout_ms : ℕ) (u : UdpSocket) (s later : S) (r : Received)
      → Documented
      → let a = (recv_from W buffer timeout_ms u s).0 in
        a.result ≡ some r
        → (bytes : List ℕ) × (from : SockAddr) × (before : S) × ((W.recvfrom u.handle
              (length buffer)
              before).0
            ≡ some (bytes, from))
          × (take r.size a.buffer ≡ bytes)
          × (0 < r.size)
          × (r.size ≤ length buffer)
          × (let sent = W.sendto u.handle out from later in
              send_to W r.from out u later ≡ (all_sent (length out) sent.0, sent.1))
  answer_returns buffer out timeout_ms u s later r d e =
      let c = recv_from-Came buffer timeout_ms u s r e in
      let (port, size) = d.reads u.handle (length buffer) c.before c.bytes c.from c.read in
      (
        c.bytes,
        c.from,
        c.before,
        c.read,
        rw (c.placed, sym c.sized) (take-length-append c.bytes (drop (length c.bytes) buffer)),
        c.full,
        omega (arith, c.sized),
        sends_at r.from out u later c.from c.opened
            (rw (c.endpoint, d.swaps c.from.sin_port port) refl),
      )

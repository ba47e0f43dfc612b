-- ===== src/Socket/Handles.antt =====
-- The handle of a UdpSocket, from its constructor to its destructor.
use cybermp.Base.{
  ℕ, ◌≡◌, refl, ap, ◌∙◌, List, [], ◌∷◌, length, Bool, true, false, Option, none, some, ◌==◌,
  if◌then◌else◌, erase_if, arith, Bool-cases, inl, inr,
}
use cybermp.Session.{Endpoint}
use cybermp.Socket.{
  Winsock, SockAddr, UdpSocket, closed_socket, seconds, microseconds, open_socket, bind, local_port,
  close, send_to, recv_from, opened, bind_opened, port_named, if_readable, taken,
}

-- A call of a method, and one after the other.
pub data Use : Type 0 where
  opens : Use
  binds : ℕ → Use
  asks_port : Use
  closes : Use
  sends : Endpoint → List ℕ → Use
  receives : List ℕ → ℕ → Use

module _ {S : Type 0} (W : Winsock S) where
  unfoldable pub use_socket : Use → UdpSocket × S → UdpSocket × S
  use_socket opens (u, s) = let r = open_socket W u s in (r.1, r.2)
  use_socket (binds port) (u, s) = let r = bind W port u s in (r.1, r.2)
  use_socket asks_port (u, s) = (u, (local_port W u s).1)
  use_socket closes (u, s) = close W u s
  use_socket (sends to bytes) (u, s) = (u, (send_to W to bytes u s).1)
  use_socket (receives buffer timeout_ms) (u, s) = (u, (recv_from W buffer timeout_ms u s).1)

  unfoldable pub use_all : List Use → UdpSocket × S → UdpSocket × S
  use_all [] r = r
  use_all (o ∷ os) r = use_all os (use_socket o r)

  -- What winsock says of the handles that a process holds: socket gives one more, closesocket takes
  -- one back, and the others change nothing in that.
  pub record Holding (held : S → List ℕ) : Type 0 where
    pub made : (s : S) (h : ℕ) → (W.socket s).0 ≡ some h → held (W.socket s).1 ≡ h ∷ held s
    pub not_made : (s : S) → (W.socket s).0 ≡ none → held (W.socket s).1 ≡ held s
    pub released : (h : ℕ) (s : S) → held (W.closesocket h s) ≡ erase_if (λ x. x == h) (held s)
    pub bound : (h : ℕ) (a : SockAddr) (s : S) → held (W.bind_socket h a s).1 ≡ held s
    pub named : (h : ℕ) (s : S) → held (W.getsockname h s).1 ≡ held s
    pub sent : (h : ℕ) (bs : List ℕ) (a : SockAddr) (s : S) → held (W.sendto h bs a s).1 ≡ held s
    pub waited : (h sec usec : ℕ) (s : S) → held (W.select h sec usec s).1 ≡ held s
    pub begun : (s : S) → held (W.wsa_startup s).1 ≡ held s
    pub ended : (s : S) → held (W.wsa_cleanup s) ≡ held s
    pub read : (h size : ℕ) (s : S) → held (W.recvfrom h size s).1 ≡ held s

module _ {S : Type 0} (W : Winsock S) (held : S → List ℕ) (k : Holding W held) where
  -- The process holds the socket's handle, if it is open, and what it held before.
  abbrev pub Holds : List ℕ → UdpSocket → S → Type 0
  Holds before u s = held s ≡ (if u.is_open then u.handle ∷ before else before)

  abbrev pub socket_at : ℕ → Bool → UdpSocket
  socket_at handle is_open = record { handle = handle; is_open = is_open }

  opened-Holds :
      (before : List ℕ) (handle : ℕ) (s : S) (r : Option ℕ × S)
      → held s ≡ before
      → ((h : ℕ) → r.0 ≡ some h → held r.1 ≡ h ∷ held s)
      → (r.0 ≡ none → held r.1 ≡ held s)
      → let o = opened W r (socket_at handle false) in Holds before o.1 o.2
  unfolding opened
  opened-Holds before handle s (none, s') h made not_made = not_made refl ∙ h
  opened-Holds before handle s (some new, s') h made not_made = made new refl ∙ ap (◌∷◌ new) h

  bind_opened-Holds :
      (before : List ℕ) (port : ℕ) (r : Bool × UdpSocket × S)
      → Holds before r.1 r.2
      → let o = bind_opened W port r in Holds before o.1 o.2
  unfolding bind_opened
  bind_opened-Holds before port (false, u, s) h = h
  bind_opened-Holds before port (true, u, s) h = k.bound u.handle _ s ∙ h

  held-taken :
      (buffer : List ℕ) (r : Option (List ℕ × SockAddr) × S) → held (taken W buffer r).1 ≡ held r.1
  unfolding taken
  held-taken buffer (none, s) = refl
  held-taken buffer (some ([], a), s) = refl
  held-taken buffer (some (b ∷ bs, a), s) = refl

  held-if_readable :
      (handle : ℕ) (buffer : List ℕ) (r : Option ℕ × S)
      → held (if_readable W handle buffer r).1 ≡ held r.1
  unfolding if_readable
  held-if_readable handle buffer (none, s) = refl
  held-if_readable handle buffer (some ready, s) = elim (Bool-cases (ready == 0)) [
    | inl e ↦ rw e refl
    | inr e ↦
        rw e (
          held-taken buffer (W.recvfrom handle (length buffer) s) ∙ k.read handle (length buffer) s)
  ]

  module _ (before : List ℕ) where
    pub open-Holds :
        (handle : ℕ) (b : Bool) (s : S)
        → Holds before (socket_at handle b) s
        → let r = open_socket W (socket_at handle b) s in Holds before r.1 r.2
    unfolding open_socket
    open-Holds handle true s h = h
    open-Holds handle false s h =
        opened-Holds before handle s (W.socket s) h (k.made s) (k.not_made s)

    pub bind-Holds :
        (port handle : ℕ) (b : Bool) (s : S)
        → Holds before (socket_at handle b) s
        → let r = bind W port (socket_at handle b) s in Holds before r.1 r.2
    unfolding bind
    bind-Holds port handle true s h =
        bind_opened-Holds before port (true, socket_at handle true, s) h
    bind-Holds port handle false s h =
        bind_opened-Holds before port (open_socket W (socket_at handle false) s)
          (open-Holds handle false s h)

    pub close-Holds :
        (handle : ℕ) (b : Bool) (s : S)
        → Holds before (socket_at handle b) s
        → let r = close W (socket_at handle b) s in (r.0.is_open ≡ false) × (held r.1 ≡ before)
    unfolding close erase_if
    close-Holds handle true s h = (refl, k.released handle s ∙ rw h (ground arith))
    close-Holds handle false s h = (refl, h)

    local_port-Holds :
        (handle : ℕ) (b : Bool) (s : S)
        → Holds before (socket_at handle b) s
        → Holds before (socket_at handle b) (local_port W (socket_at handle b) s).1
    unfolding local_port port_named
    local_port-Holds handle true s h = ground (arith, h, k.named handle s)
    local_port-Holds handle false s h = h

    send_to-Holds :
        (to : Endpoint) (bytes : List ℕ) (handle : ℕ) (b : Bool) (s : S)
        → Holds before (socket_at handle b) s
        → Holds before (socket_at handle b) (send_to W to bytes (socket_at handle b) s).1
    unfolding send_to
    send_to-Holds to bytes handle true s h = k.sent handle bytes _ s ∙ h
    send_to-Holds to bytes handle false s h = h

    recv_from-Holds :
        (buffer : List ℕ) (timeout_ms handle : ℕ) (b : Bool) (s : S)
        → Holds before (socket_at handle b) s
        → Holds before (socket_at handle b) (recv_from W buffer timeout_ms (socket_at handle b) s).1
    unfolding recv_from
    recv_from-Holds buffer timeout_ms handle true s h =
        let sec = seconds timeout_ms in
        let usec = microseconds timeout_ms in
        held-if_readable handle buffer (W.select handle sec usec s) ∙ k.waited handle sec usec s ∙ h
    recv_from-Holds buffer timeout_ms handle false s h = h

    use_socket-Holds :
        (o : Use) (u : UdpSocket) (s : S)
        → Holds before u s
        → let r = use_socket W o (u, s) in Holds before r.0 r.1
    unfolding use_socket
    use_socket-Holds opens u s h = open-Holds u.handle u.is_open s h
    use_socket-Holds (binds port) u s h = bind-Holds port u.handle u.is_open s h
    use_socket-Holds asks_port u s h = local_port-Holds u.handle u.is_open s h
    use_socket-Holds closes u s h =
        let (shut, back) = close-Holds u.handle u.is_open s h in rw shut back
    use_socket-Holds (sends to bytes) u s h = send_to-Holds to bytes u.handle u.is_open s h
    use_socket-Holds (receives buffer timeout_ms) u s h =
        recv_from-Holds buffer timeout_ms u.handle u.is_open s h

    use_all-Holds :
        (os : List Use) (u : UdpSocket) (s : S)
        → Holds before u s
        → let r = use_all W os (u, s) in Holds before r.0 r.1
    unfolding use_all
    use_all-Holds [] u s h = h
    use_all-Holds (o ∷ os) u s h =
        let r = use_socket W o (u, s) in use_all-Holds os r.0 r.1 (use_socket-Holds o u s h)

  -- If winsock keeps account of the handles of the process as Holding says: whatever methods of a
  -- new UdpSocket are called, the process holds, beside the handles that it held before, the one
  -- in the socket when it is open and none when it is closed; and once Close, the destructor's
  -- body, has run, it holds those that it held before.
  pub no_leaks :
      (os : List Use) (s : S)
      → let r = use_all W os (closed_socket, s) in
        (held r.1 ≡ (if r.0.is_open then r.0.handle ∷ held s else held s))
        × (held (close W r.0 r.1).1 ≡ held s)
  no_leaks os s =
      let r = use_all W os (closed_socket, s) in
      let h = use_all-Holds (held s) os closed_socket s refl in
      (h, (close-Holds (held s) r.0.handle r.0.is_open r.1 h).1)

-- What is bound is open.
module _ {S : Type 0} (W : Winsock S) where
  opened_is_open :
      (u : UdpSocket) (r : Option ℕ × S) → (opened W r u).0 ≡ true → (opened W r u).1.is_open ≡ true
  unfolding opened
  opened_is_open u (none, s) e = cc
  opened_is_open u (some h, s) e = refl

  bind_opened_is_open :
      (port : ℕ) (r : Bool × UdpSocket × S)
      → (r.0 ≡ true → r.1.is_open ≡ true)
      → (bind_opened W port r).0 ≡ true
      → (bind_opened W port r).1.is_open ≡ true
  unfolding bind_opened
  bind_opened_is_open port (false, u, s) h e = cc
  bind_opened_is_open port (true, u, s) h e = h refl

  pub bound_is_open :
      (port handle : ℕ) (b : Bool) (s : S)
      → let u : UdpSocket = record { handle = handle; is_open = b } in
        (bind W port u s).0 ≡ true → (bind W port u s).1.is_open ≡ true
  unfolding bind open_socket
  bound_is_open port handle true s e =
      bind_opened_is_open port (true, record { handle = handle; is_open = true }, s) (λ x. refl) e
  bound_is_open port handle false s e =
      bind_opened_is_open port (opened W (W.socket s) (record { handle = handle; is_open = false }))
        (opened_is_open (record { handle = handle; is_open = false }) (W.socket s)) e

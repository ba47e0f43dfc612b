-- ===== src/NetClient/Hellos.antt =====
-- NetClient::Run: its turns, with the datagrams of other endpoints.
use cybermp.Base.{
  ℕ, ◌<◌, ◌≡◌, refl, List, false, Option, none, some, leb, Bool-cases, inl, inr, arith,
}
use cybermp.Wire.Writer.{Buffer}
use cybermp.Session.{Endpoint, eq_endpoint}
use cybermp.NetClient.{
  NetClient, NetState, disconnected, connecting, connected, refused, Timers, hello_retry_ms,
  max_hello_attempts, elapsed, send_hello, post_hello, send_ping, post_if,
}
use cybermp.NetClient.Run.{
  Turn, stop, go, Input, before_receive, try_hello, keep_alive, ping_due, after_receive, finish,
  turn_with, turn,
}

server-post_hello : (o : Option Buffer) (c : NetClient) → (post_hello o c).server ≡ c.server
unfolding post_hello
server-post_hello none c = refl
server-post_hello (some out) c = refl

server-send_hello : (c : NetClient) → (send_hello c).server ≡ c.server
unfolding send_hello
server-send_hello c = server-post_hello _ c

server-post_if : (o : Option Buffer) (c : NetClient) → (post_if o c).server ≡ c.server
unfolding post_if
server-post_if none c = refl
server-post_if (some out) c = refl

server-send_ping : (micros : ℕ) (c : NetClient) → (send_ping micros c).server ≡ c.server
unfolding send_ping
server-send_ping micros c = server-post_if _ c

-- The client of a turn that goes on.
abbrev pub Holds : (NetClient → Type 0) → Turn → Type 0
Holds P (stop c) = P c
Holds P (go t c) = P c

try_hello-Holds :
    (P : NetClient → Type 0) (now : ℕ) (t : Timers) (c : NetClient)
    → P c
    → ((message : List ℕ) → P (record c { last_error = message; state = disconnected }))
    → (c.hello_attempts < 10 → P (send_hello c))
    → Holds P (try_hello now t c)
unfolding try_hello
try_hello-Holds P now t c p stopped said =
    elim (Bool-cases (leb hello_retry_ms (elapsed now t.last_hello_at))) [
      | inr e ↦ rw e p
      | inl e ↦ elim (Bool-cases (leb max_hello_attempts c.hello_attempts)) [
        | inl f ↦ rw (e, f) (stopped _)
        | inr f ↦ rw (e, f) (said (ground arith))
      ]
    ]

keep_alive-Holds :
    (P : NetClient → Type 0) (now micros : ℕ) (t : Timers) (c : NetClient)
    → P c
    → P (send_ping micros c)
    → ((d : NetClient) (message : List ℕ)
        → P d
        → P (record d { last_error = message; state = disconnected }))
    → Holds P (keep_alive now (ping_due now micros t c))
unfolding keep_alive ping_due
keep_alive-Holds P now micros t c p said stopped =
    elim (Bool-cases (leb 1000 (elapsed now t.last_ping_at))) [
      | inl e ↦ elim (Bool-cases (leb 8000 (elapsed now t.last_server_at))) [
        | inl f ↦ rw (e, f) (stopped (send_ping micros c) _ said)
        | inr f ↦ rw (e, f) said
      ]
      | inr e ↦ elim (Bool-cases (leb 8000 (elapsed now t.last_server_at))) [
        | inl f ↦ rw (e, f) (stopped c _ p)
        | inr f ↦ rw (e, f) p
      ]
    ]

-- A property that giving up and the two messages keep is one that holds before RecvFrom.
pub before_receive-Holds :
    (P : NetClient → Type 0) (s : NetState) (now micros : ℕ) (t : Timers) (c : NetClient)
    → P c
    → (c.hello_attempts < 10 → P (send_hello c))
    → P (send_ping micros c)
    → ((d : NetClient) (message : List ℕ)
        → P d
        → P (record d { last_error = message; state = disconnected }))
    → Holds P (before_receive s now micros t c)
unfolding before_receive
before_receive-Holds P connecting now micros t c p hello ping stopped =
    try_hello-Holds P now t c p (λ message. stopped c message p) hello
before_receive-Holds P connected now micros t c p hello ping stopped =
    keep_alive-Holds P now micros t c p ping stopped
before_receive-Holds P disconnected now micros t c p hello ping stopped = p
before_receive-Holds P refused now micros t c p hello ping stopped = p

module _ (i : Input) (from : Endpoint) (bytes : List ℕ) where
  -- The same turn with a datagram, and with none.
  abbrev with_datagram : Input
  with_datagram = record i { datagram = some (from, bytes) }

  abbrev without : Input
  without = record i { datagram = none }

  finish_spoofed :
      (server : Endpoint) (t : Turn)
      → eq_endpoint from server ≡ false
      → Holds (λ c. c.server ≡ server) t
      → finish with_datagram t ≡ finish without t
  unfolding finish after_receive
  finish_spoofed server (stop c) e h = refl
  finish_spoofed server (go t c) e h = ground (arith, h, e)

  spoofed_with :
      (o : Option Timers) (c : NetClient)
      → eq_endpoint from c.server ≡ false
      → turn_with with_datagram o c ≡ turn_with without o c
  unfolding turn_with
  spoofed_with none c e = refl
  spoofed_with (some t) c e =
      finish_spoofed c.server (before_receive c.state i.now i.micros t c) e (
        before_receive-Holds (λ d. d.server ≡ c.server) c.state i.now i.micros t c refl
          (λ n. server-send_hello c) (server-send_ping i.micros c) (λ d message h. h))

  -- A turn that receives a datagram of another endpoint than the server's is the turn that
  -- receives nothing.
  pub turn_spoofed :
      (c : NetClient) → eq_endpoint from c.server ≡ false → turn with_datagram c ≡ turn without c
  unfolding turn
  turn_spoofed c e = spoofed_with c.thread c e

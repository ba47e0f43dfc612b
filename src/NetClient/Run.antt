-- ===== src/NetClient/Run.antt =====
-- NetClient::Run: one turn of its loop.
use cybermp.Base.{ℕ, List, [], ◌∷◌, not, Option, none, some, leb, if◌then◌else◌, codes}
use cybermp.Session.{Endpoint, eq_endpoint}
use cybermp.NetClient.{
  NetClient, NetState, disconnected, connecting, connected, refused, Timers, hello_retry_ms,
  max_hello_attempts, ping_interval_ms, server_timeout_ms, elapsed, bump, set_error, send_hello,
  send_ping,
}
use cybermp.NetClient.Handle.{handle_datagram}

-- What a turn does: Run returns, or it goes on with these timers.
pub data Turn : Type 0 where
  stop : NetClient → Turn
  go : Timers → NetClient → Turn

abbrev pub give_up : List ℕ → NetClient → Turn
give_up message c = stop (record (set_error message c) { state = disconnected })

unfoldable pub try_hello : ℕ → Timers → NetClient → Turn
try_hello now t c =
    if leb hello_retry_ms (elapsed now t.last_hello_at)
    then if leb max_hello_attempts c.hello_attempts
      then give_up (codes "no answer from server") c
      else go (record t { last_hello_at = now }) (send_hello c)
    else go t c

-- `micros` is the clock that SendPing reads.
unfoldable pub ping_due : ℕ → ℕ → Timers → NetClient → Timers × NetClient
ping_due now micros t c =
    if leb ping_interval_ms (elapsed now t.last_ping_at)
    then (record t { last_ping_at = now }, send_ping micros c)
    else (t, c)

unfoldable pub keep_alive : ℕ → Timers × NetClient → Turn
keep_alive now (t, c) =
    if leb server_timeout_ms (elapsed now t.last_server_at)
    then give_up (codes "server stopped answering") c
    else go t c

unfoldable pub before_receive : NetState → ℕ → ℕ → Timers → NetClient → Turn
unfolding try_hello ping_due keep_alive
before_receive connecting now micros t c = try_hello now t c
before_receive connected now micros t c = keep_alive now (ping_due now micros t c)
before_receive disconnected now micros t c = stop c
before_receive refused now micros t c = stop c

-- `later` is the clock that a pong reads.
unfoldable pub after_receive : ℕ → ℕ → Option (Endpoint × List ℕ) → Timers → NetClient → NetClient
after_receive now later none t c = record c { thread = some t }
after_receive now later (some (from, bytes)) t c =
    if not (eq_endpoint from c.server)
    then record c { thread = some t }
    else handle_datagram bytes later
        (record c { thread = some (record t { last_server_at = now }); received = bump c.received })

pub record Input : Type 0 where
  pub now : ℕ
  pub micros : ℕ
  pub later : ℕ
  pub datagram : Option (Endpoint × List ℕ)

unfoldable pub finish : Input → Turn → NetClient
unfolding after_receive
finish i (stop c) = record c { thread = none }
finish i (go t c) = after_receive i.now i.later i.datagram t c

unfoldable pub turn_with : Input → Option Timers → NetClient → NetClient
unfolding finish before_receive
turn_with i none c = c
turn_with i (some t) c = finish i (before_receive c.state i.now i.micros t c)

unfoldable pub turn : Input → NetClient → NetClient
unfolding turn_with
turn i c = turn_with i c.thread c

unfoldable pub turns : List Input → NetClient → NetClient
turns [] c = c
turns (i ∷ is) c = turns is (turn i c)

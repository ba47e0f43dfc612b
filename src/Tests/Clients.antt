-- ===== src/Tests/Clients.antt =====
-- Examples for src/client/NetClient.cpp, and for client and server together.
use cybermp.Base.{
  ℕ, ◌+◌, ◌^◌, ◌≤◌, ◌<◌, ◌≡◌, ◌≢◌, refl, List, [], ◌∷◌, ◌++◌, map, Bool, true, false, Option, none,
  some, arith, codes, length, All, inl, inr,
}
use cybermp.Wire.Writer.{Buffer}
use cybermp.Wire.Parse.{Bytes}
use cybermp.Proto.Format.{encode, decode}
use cybermp.Proto.Messages.{NotifyPlayerState, hello_format, notify_player_state_format}
use cybermp.Proto.Lawful.Names.{hello_lawful}
use cybermp.Proto.Lawful.States.{notify_player_state_lawful, NotifyPlayerStateFits}
use cybermp.Proto.RoundTrip.{framed, encode-framed, decode-written, framed-Bytes, encode-limit}
use cybermp.Session.{Endpoint, eq_endpoint, apply_state, find_endpoint}
use cybermp.Server.{handle_hello, handle_player_state}
use cybermp.Server.Broadcasts.{sending, endpoints, others}
use cybermp.Server.Hellos.{ack_bytes}
use cybermp.NetClient.{NetClient, connecting, connected, Timers, hello_of, bump}
use cybermp.NetClient.Handle.{handle_datagram, lookup}
use cybermp.NetClient.Game.{send_state}
use cybermp.NetClient.Run.{Input, turns}
use cybermp.NetClient.Silence.{Silent, Waiting, GivenUp, repeated, no_answer, never_gives_up}
use cybermp.NetClient.Snapshots.{IsBehind}
use cybermp.NetClient.Events.{Action, handle, take, interleave, all_announced, events_in_order}
use cybermp.Link.{handshake, hello_sent, outcome, Answered, state_arrives, state_bytes}
use cybermp.Tests.{
  alice, carol, place, alice_session, two_players, quiet_backend, server, hello_message,
  hello_bytes, hello_message-HelloFits, carol-IsName, place-Vec3Fits, client,
}

abbrev timers : Timers
timers = record { last_hello_at = 0; last_ping_at = 0; last_server_at = 0 }

abbrev waiting : NetClient
waiting = record client { thread = some timers; state = connecting }

abbrev at : ℕ → Input
at now = record { now = now; micros = 0; later = 0; datagram = none }

abbrev eleven : List Input
eleven =
    at 1000
    ∷ at 1500
    ∷ at 2000
    ∷ at 2500
    ∷ at 3000
    ∷ at 3500
    ∷ at 4000
    ∷ at 4500
    ∷ at 5000
    ∷ at 5500
    ∷ at 6000
    ∷ []

eleven-Silent : Silent 0 eleven
eleven-Silent = (
  omega arith,
  omega arith,
  refl,
  (
    omega arith,
    omega arith,
    refl,
    (
      omega arith,
      omega arith,
      refl,
      (
        omega arith,
        omega arith,
        refl,
        (
          omega arith,
          omega arith,
          refl,
          (
            omega arith,
            omega arith,
            refl,
            (
              omega arith,
              omega arith,
              refl,
              (
                omega arith,
                omega arith,
                refl,
                (
                  omega arith,
                  omega arith,
                  refl,
                  (omega arith, omega arith, refl, (omega arith, omega arith, refl, tt)),
                ),
              ),
            ),
          ),
        ),
      ),
    ),
  ),
)

waiting-Waiting : Waiting timers waiting
waiting-Waiting = record { looping = refl; state = refl }

hello_encoded : encode hello_format (hello_of waiting) ≡ some hello_bytes
hello_encoded = encode-framed hello_lawful hello_message hello_message-HelloFits

no_answer_example : GivenUp (repeated 10 (carol, hello_bytes)) waiting (turns eleven waiting)
no_answer_example =
    no_answer hello_bytes eleven timers waiting waiting-Waiting hello_encoded refl refl
      eleven-Silent

-- A name of 1200 letters.
abbrev many : ℕ → List ℕ
many cybermp.Base.zero = []
many (cybermp.Base.suc n) = 97 ∷ many n

abbrev long_name : NetClient
long_name = record waiting { username = many 1200 }

too_large : encode hello_format (hello_of long_name) ≡ none
unfolding cybermp.Wire.Layout.le
too_large = encode-limit hello_lawful (hello_of long_name)

never_gives_up_example :
    ((turns eleven long_name).state ≡ connecting)
    × ((turns eleven long_name).outbox ≡ [])
    × ((t' : Timers) × ((turns eleven long_name).thread ≡ some t'))
never_gives_up_example =
    never_gives_up eleven timers long_name (record { looping = refl; state = refl }) too_large
      (omega arith) eleven-Silent

alice_is_not_server : eq_endpoint alice waiting.server ≡ false
unfolding eq_endpoint
alice_is_not_server = refl

-- The server's news of player 1, and of its leave.
abbrev news : NotifyPlayerState
news = record { player_id = 1; tick = 4; position = place; rotation = 0 }

news_fits : NotifyPlayerStateFits news
news_fits = record {
  player_id = omega arith;
  tick = omega arith;
  position = place-Vec3Fits;
  rotation = omega arith;
}

abbrev news_bytes : Buffer
news_bytes = framed notify_player_state_format (notify_player_state_lawful.layout news)

news_read : decode notify_player_state_format news_bytes ≡ some news
news_read = decode-written notify_player_state_lawful news news_fits

news-Bytes : Bytes news_bytes
news-Bytes =
    framed-Bytes notify_player_state_lawful (notify_player_state_lawful.layout news)
      (notify_player_state_lawful.layout_bytes news news_fits)

-- A client that has seen player 1 at tick 2, or at tick 9.
abbrev seen : ℕ → NetClient
seen tick = record waiting {
  state = connected;
  remote = (1, record { tick = tick; position = place; rotation = 5 }) ∷ [];
}

seen_at :
    (tick : ℕ)
    → lookup 1 (seen tick) ≡ some (1, record { tick = tick; position = place; rotation = 5 })
unfolding lookup cybermp.Base.find_if
seen_at tick = refl

behind : IsBehind 1 news (seen 2)
behind s e = ground (arith, seen_at 2, e)

abbrev left_bytes : Buffer
left_bytes = 8 ∷ 1 ∷ 4 ∷ 0 ∷ 1 ∷ 0 ∷ 0 ∷ 0 ∷ []

abbrev actions : List Action
actions = handle left_bytes 0 ∷ take ∷ handle news_bytes 0 ∷ take ∷ []

events_in_order_example :
    (interleave actions (seen 2)).0 ++ (interleave actions (seen 2)).1.events
    ≡ [] ++ all_announced actions
events_in_order_example = events_in_order actions (seen 2) (
  (
    omega arith,
    (
      omega arith,
      (omega arith, (omega arith, (omega arith, (omega arith, (omega arith, (omega arith, tt)))))),
    ),
  ),
  (tt, (news-Bytes, (tt, tt))),
)

handshake_example :
    let r = outcome quiet_backend carol 5 9 server client in
    (encode hello_format (hello_of client) ≡ some (hello_sent client))
    × ((rest : List (Endpoint × Buffer)) × ((handle_hello quiet_backend carol
            (hello_sent client)
            5
            server).sent
          ≡ [] ++ ((carol, ack_bytes r.0) ∷ rest)))
    × Answered r.0 client (handle_datagram (ack_bytes r.0) 9 client)
handshake_example = handshake quiet_backend carol 5 9 server client carol-IsName

-- Alice's client has sent three states.
abbrev alice_client : NetClient
alice_client = record client { state = connected; state_tick = 3 }

alice_applied : (apply_state alice 4 place 0 two_players).0 ≡ true
unfolding apply_state find_endpoint cybermp.Base.find_if eq_endpoint
alice_applied = refl

alice_known : find_endpoint alice two_players ≡ some alice_session
unfolding find_endpoint cybermp.Base.find_if eq_endpoint
alice_known = refl

state_arrives_example :
    let r = apply_state alice 4 place 0 two_players in
    let bytes = state_bytes alice_client place 0 in
    (out : Buffer) × ((send_state true place 0 alice_client).1.outbox ≡ [] ++ ((carol, bytes) ∷ []))
    × (handle_player_state alice bytes server
        ≡ sending
            (map (λ to. (to, out)) (endpoints (others 1 r.1.sessions)))
            (record server { sessions = r.1 }))
    × (lookup 1 (handle_datagram out 9 (seen 2))
        ≡ some (1, record { tick = bump 3; position = place; rotation = 0 }))
state_arrives_example =
    state_arrives alice_client (seen 2) place 0 9 true alice server alice_session refl
      place-Vec3Fits (omega arith) alice_known (omega arith) alice_applied behind

-- ===== src/Tests/Servers.antt =====
-- Examples for src/server/main.cpp and ScriptHost.cpp.
use cybermp.Base.{
  ℕ, ◌+◌, ◌%◌, ◌==◌, ◌^◌, ◌≤◌, ◌<◌, ◌≡◌, ◌≢◌, refl, List, [], ◌∷◌, ◌++◌, map, Bool, true, false,
  Option, none, some, arith, codes, length, All, if◌then◌else◌,
}
use cybermp.Wire.Writer.{Buffer}
use cybermp.Wire.Parse.{Bytes}
use cybermp.Proto.Header.{Header, version, peek_header}
use cybermp.Proto.Header
use cybermp.Proto.Format.{decode}
use cybermp.Proto.Messages.{
  Ping, hello_format, hello_ack_format, ping_format, player_state_format,
  notify_player_state_format,
}
use cybermp.Proto.Lawful.Names.{hello_lawful}
use cybermp.Proto.Lawful.Numbers.{ping_lawful}
use cybermp.Proto.Lawful.States.{player_state_lawful}
use cybermp.Proto.RoundTrip.{decode-written, framed-Bytes}
use cybermp.Session.{
  Endpoint, Session, SessionManager, JoinResult, accepted, name_taken, join, join_text,
  find_endpoint, find_player, take_next_timed_out, apply_state, new_manager,
}
use cybermp.Session.Invariant.{IsValid}
use cybermp.Session.Timeouts.{unexpired}
use cybermp.Script.{ScriptHost, PendingKick, Request, kick, each, on_player_join, Backend}
use cybermp.Script.Kicks.{each_kicks, Grows}
use cybermp.Server.{
  Server, handle_hello, handle_player_state, is_welcome, notify_of, drop_expired, drain_kicks,
  receive,
}
use cybermp.Server.Broadcasts.{sending, endpoints, others}
use cybermp.Server.Hellos.{ack_bytes, welcome_datagrams, hello_answered}
use cybermp.Server.Welcomes.{read_joined, told_newcomer, told_other, joined_of, hello_welcomed}
use cybermp.Server.Relays.{state_relayed}
use cybermp.Server.Rounds.{rounds, rounds-IsValid, drop_expired_lem}
use cybermp.Server.Kicked.{drain_kicks_lem}
use cybermp.Server.Strangers.{Quiet, stranger_ignored}
use cybermp.Tests.{
  alice, carol, place, alice_session, bob_session, two_players, two_players-IsValid, quiet_backend,
  scripts, server, hello_message, hello_bytes, hello_message-HelloFits, moved, moved_bytes,
  moved-PlayerStateFits,
}

hello_decoded : decode hello_format hello_bytes ≡ some hello_message
hello_decoded = decode-written hello_lawful hello_message hello_message-HelloFits

carol_in : (join carol (codes "carol") 2 5 two_players).0 ≡ accepted
unfolding join find_endpoint cybermp.Base.find_if cybermp.Session.eq_endpoint cybermp.Base.any_of
    cybermp.Base.eq_bytes
carol_in = refl

hello_bytes-Bytes : Bytes hello_bytes
hello_bytes-Bytes =
    framed-Bytes hello_lawful (hello_lawful.layout hello_message)
      (hello_lawful.layout_bytes hello_message hello_message-HelloFits)

hello_welcomed_example :
    let r = join carol (codes "carol") 2 5 two_players in
    let news = welcome_datagrams quiet_backend carol hello_bytes 5 server hello_message in
    (handle_hello quiet_backend carol hello_bytes 5 server ≡ record server {
      sessions = r.2;
      sent = [] ++ ((carol, ack_bytes accepted) ∷ news);
      scripts = on_player_join quiet_backend r.2 r.1 scripts;
    })
    × (decode hello_ack_format (ack_bytes accepted)
        ≡ some (record { accepted = true; version = version; reason = [] }))
    × (map read_joined news
        ≡ map (told_newcomer carol) (alice_session ∷ bob_session ∷ [])
          ++ map (told_other (joined_of r.1 (codes "carol"))) (alice_session ∷ bob_session ∷ []))
hello_welcomed_example =
    hello_welcomed quiet_backend carol hello_bytes 5 server hello_message hello_bytes-Bytes
      hello_decoded carol_in two_players-IsValid (omega arith) (omega arith, (omega arith, tt))

-- A server that is full.
abbrev crowded : Server ℕ
crowded = record server { sessions = record two_players { max_players = 2 } }

carol_out : (join carol (codes "carol") 2 5 crowded.sessions).0 ≡ cybermp.Session.full
unfolding join find_endpoint cybermp.Base.find_if cybermp.Session.eq_endpoint cybermp.Base.any_of
    cybermp.Base.eq_bytes
carol_out = refl

full_is_out : cybermp.Session.full ≢ accepted
full_is_out e = ground (arith, e)

hello_answered_example :
    let r = join carol (codes "carol") 2 5 crowded.sessions in
    (handle_hello quiet_backend carol hello_bytes 5 crowded
      ≡ sending ((carol, ack_bytes r.0) ∷ []) (record crowded { sessions = r.2 }))
    × (decode hello_ack_format (ack_bytes r.0)
        ≡ some (record {
          accepted = is_welcome r.0;
          version = version;
          reason = if is_welcome r.0 then [] else join_text r.0;
        }))
hello_answered_example =
    hello_answered quiet_backend carol hello_bytes 5 crowded hello_message hello_decoded
      (rw carol_out full_is_out)

alice_known : find_endpoint alice two_players ≡ some alice_session
unfolding find_endpoint cybermp.Base.find_if cybermp.Session.eq_endpoint
alice_known = refl

carol_unknown : find_endpoint carol two_players ≡ none
unfolding find_endpoint cybermp.Base.find_if cybermp.Session.eq_endpoint
carol_unknown = refl

abbrev ping_message : Ping
ping_message = record { sent_at = 258 }

abbrev ping_bytes : Buffer
ping_bytes = 3 ∷ 0 ∷ 8 ∷ 0 ∷ 2 ∷ 1 ∷ 0 ∷ 0 ∷ 0 ∷ 0 ∷ 0 ∷ 0 ∷ []

ping_read : decode ping_format ping_bytes ≡ some ping_message
unfolding cybermp.Wire.Layout.le
ping_read = decode-written ping_lawful ping_message (record { sent_at = omega arith })

ping_read-Bytes : Bytes ping_bytes
unfolding cybermp.Wire.Layout.le
ping_read-Bytes =
    framed-Bytes ping_lawful (ping_lawful.layout ping_message)
      (ping_lawful.layout_bytes ping_message (record { sent_at = omega arith }))

moved_decoded : decode player_state_format moved_bytes ≡ some moved
moved_decoded = decode-written player_state_lawful moved moved-PlayerStateFits

moved_bytes-Bytes : Bytes moved_bytes
moved_bytes-Bytes =
    framed-Bytes player_state_lawful (player_state_lawful.layout moved)
      (player_state_lawful.layout_bytes moved moved-PlayerStateFits)

moved_applied : (apply_state alice 4 place 0 two_players).0 ≡ true
unfolding apply_state find_endpoint cybermp.Base.find_if cybermp.Session.eq_endpoint
moved_applied = refl

state_relayed_example :
    let r = apply_state alice 4 place 0 two_players in
    (out : Buffer) × (decode notify_player_state_format out ≡ some (notify_of 1 moved))
    × (handle_player_state alice moved_bytes server
        ≡ sending
            (map (λ to. (to, out)) (endpoints (others 1 r.1.sessions)))
            (record server { sessions = r.1 }))
    × Bytes out
state_relayed_example =
    state_relayed alice moved_bytes server alice_session moved moved_bytes-Bytes (omega arith)
      alice_known moved_decoded moved_applied

abbrev inputs : List (ℕ × Option (Endpoint × List ℕ))
inputs = (5, some (carol, hello_bytes)) ∷ (9000, none) ∷ (9100, some (alice, ping_bytes)) ∷ []

rounds-IsValid_example :
    IsValid
      (rounds quiet_backend inputs (record {
        sessions = new_manager 4 5000;
        scripts = scripts;
        sent = [];
        rejected = 0;
      })).sessions
rounds-IsValid_example = rounds-IsValid quiet_backend 4 5000 scripts inputs (omega arith)

drop_expired_example :
    let kept = (drop_expired quiet_backend 2 7000 server).sessions in
    (kept ≡ unexpired 7000 two_players) × (take_next_timed_out 7000 kept ≡ (none, kept))
drop_expired_example = drop_expired_lem quiet_backend 7000 server

-- Alice is to be kicked, twice.
abbrev twice : List PendingKick
twice = record { player_id = 1; reason = [] } ∷ record { player_id = 1; reason = [] } ∷ []

abbrev kicking : Server ℕ
kicking = record server { scripts = record scripts { kicks = twice } }

drain_kicks_example :
    All (λ k. find_player k.player_id (drain_kicks quiet_backend kicking).sessions ≡ none) twice
    × ((id : ℕ)
        → All (λ k. k.player_id ≢ id) twice
        → find_player id (drain_kicks quiet_backend kicking).sessions ≡ find_player id two_players)
drain_kicks_example = drain_kicks_lem quiet_backend kicking two_players-IsValid

ping_peeked : peek_header ping_bytes ≡ some (record { kind = Header.ping; flags = 0; size = 8 })
unfolding peek_header Header.read_header cybermp.Wire.Reader.u8 cybermp.Wire.Reader.u16
    Header.accept_header Header.kind_of_code
ping_peeked = refl

ping_kind : (h : Header) → peek_header ping_bytes ≡ some h → h.kind ≢ Header.hello
ping_kind h e k = ground (arith, ping_peeked, e, k)

stranger_ignored_example :
    Quiet quiet_backend carol ping_bytes 5 server
      (receive quiet_backend 5 (some (carol, ping_bytes)) server)
stranger_ignored_example =
    stranger_ignored quiet_backend carol ping_bytes 5 server carol_unknown ping_kind

-- A script that kicks player 2 on every tick, and one that does not exist.
abbrev kicker : ℕ → ℕ × List Request
kicker b = (b + 1, kick 2 (codes "afk") ∷ kick 9 [] ∷ [])

each_kicks_example :
    Grows two_players scripts (each two_players kicker scripts)
    × (length (each two_players kicker scripts).backends ≡ length scripts.backends)
each_kicks_example = each_kicks two_players kicker scripts

-- Only the even backends start.
abbrev fussy : Backend ℕ
fussy = record quiet_backend { start = λ m b. (b % 2 == 0, b, []) }

abbrev three : ScriptHost ℕ
three = record scripts { backends = 2 ∷ 3 ∷ 4 ∷ [] }

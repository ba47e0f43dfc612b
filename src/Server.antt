-- ===== src/Server.antt =====
-- src/server/main.cpp: the handlers, and one round of the loop. What goes to SendTo is collected in
-- `sent`, oldest first, and its result is not looked at; printing is left out. The clock and what
-- RecvFrom returns are arguments of a round.
pub mod Broadcasts
pub mod Hellos
pub mod Welcomes
pub mod Pings
pub mod Relays
pub mod Steps
pub mod Rounds
pub mod Kicked
pub mod Strangers
pub mod Logged
pub mod Startup
use cybermp.Base.{
  ℕ, zero, suc, ◌+◌, List, [], ◌∷◌, ◌++◌, map, Bool, true, false, not, ◌||◌, Option, none, some,
  length, ◌==◌, if◌then◌else◌, filter_by,
}
use cybermp.Wire.Writer.{Buffer}
use cybermp.Proto.Header.{Header, Kind, peek_header, version}
use cybermp.Proto.Header
use cybermp.Proto.Format.{Format, encode, decode}
use cybermp.Proto.Messages.{
  Hello, HelloAck, Ping, Pong, PlayerState, NotifyPlayerState, NotifyPlayerJoined, NotifyPlayerLeft,
  hello_format, hello_ack_format, ping_format, pong_format, player_state_format,
  notify_player_state_format, notify_player_joined_format, notify_player_left_format,
}
use cybermp.Session.{
  Endpoint, Session, SessionManager, JoinResult, accepted, already_joined, version_mismatch,
  name_taken, full, join_text, join, find_endpoint, find_player, touch, take_next_timed_out,
  apply_state, remove,
}
use cybermp.Script.{
  Backend, ScriptHost, PendingKick, take_kicks, on_player_join, on_player_leave, on_tick,
}

pub record Server (B : Type 0) : Type 0 where
  pub sessions : SessionManager
  pub scripts : ScriptHost B
  pub sent : List (Endpoint × Buffer)
  pub rejected : ℕ

module _ {B : Type 0} where
  unfoldable pub send : Endpoint → Buffer → Server B → Server B
  send to out srv = record srv { sent = srv.sent ++ ((to, out) ∷ []) }

  send_if : Option Buffer → Endpoint → Server B → Server B
  unfolding send
  send_if none to srv = srv
  send_if (some out) to srv = send to out srv

  -- `if (proto::Encode(message, out)) Send(socket, to, out)`.
  unfoldable pub send_message : {T : Type 0} → Format T → T → Endpoint → Server B → Server B
  unfolding send_if
  send_message F message to srv = send_if (encode F message) to srv

  send_each : ℕ → Buffer → List Session → Server B → Server B
  unfolding send
  send_each except out [] srv = srv
  send_each except out (s ∷ ss) srv =
      send_each except out ss (if not (s.id == except) then send s.endpoint out srv else srv)

  send_each_if : Option Buffer → ℕ → Server B → Server B
  unfolding send_each
  send_each_if none except srv = srv
  send_each_if (some out) except srv = send_each except out srv.sessions.sessions srv

  -- To everyone except one peer.
  unfoldable pub broadcast : {T : Type 0} → Format T → T → ℕ → Server B → Server B
  unfolding send_each_if
  broadcast F message except srv = send_each_if (encode F message) except srv

  -- The newcomer learns who is already here.
  unfoldable pub send_roster : Endpoint → ℕ → List Session → Server B → Server B
  unfolding send_message
  send_roster from player_id [] srv = srv
  send_roster from player_id (s ∷ ss) srv = send_roster from player_id ss (
      if s.id == player_id
      then srv
      else send_message notify_player_joined_format
          (record { player_id = s.id; username = s.username }) from srv)

abbrev pub is_accepted : JoinResult → Bool
is_accepted accepted = true
is_accepted already_joined = false
is_accepted version_mismatch = false
is_accepted name_taken = false
is_accepted full = false

abbrev pub is_welcome : JoinResult → Bool
is_welcome accepted = true
is_welcome already_joined = true
is_welcome version_mismatch = false
is_welcome name_taken = false
is_welcome full = false

abbrev pub ack_for : JoinResult → HelloAck
ack_for r = record {
  accepted = is_welcome r;
  version = version;
  reason = if is_welcome r then [] else join_text r;
}

module _ {B : Type 0} (api : Backend B) where
  -- HandleHello behind Join.
  unfoldable pub answer_hello :
      Hello → Endpoint → JoinResult × ℕ × SessionManager → Server B → Server B
  answer_hello hello from (result, player_id, sessions) srv =
      let acked =
        send_message hello_ack_format (ack_for result) from (record srv { sessions = sessions }) in
      if not (is_accepted result)
      then acked
      else let told = send_roster from player_id sessions.sessions acked in
        let announced =
          broadcast notify_player_joined_format
            (record { player_id = player_id; username = hello.username }) player_id told in
        record announced { scripts = on_player_join api sessions player_id announced.scripts }

  unfoldable pub handle_hello : Endpoint → List ℕ → ℕ → Server B → Server B
  unfolding answer_hello
  handle_hello from bytes now srv = elim (decode hello_format bytes) [
    | none ↦ srv
    | some hello ↦
        answer_hello hello from (join from hello.username hello.version now srv.sessions) srv
  ]

abbrev pub notify_of : ℕ → PlayerState → NotifyPlayerState
notify_of id state = record {
  player_id = id;
  tick = state.tick;
  position = state.position;
  rotation = state.rotation;
}

module _ {B : Type 0} where
  -- HandlePlayerState behind ApplyState.
  unfoldable pub relay : ℕ → PlayerState → Bool × SessionManager → Server B → Server B
  relay id state (false, sessions) srv = record srv { sessions = sessions }
  relay id state (true, sessions) srv =
      broadcast notify_player_state_format (notify_of id state) id
        (record srv { sessions = sessions })

  unfoldable pub apply_and_relay : Endpoint → ℕ → PlayerState → Server B → Server B
  unfolding relay
  apply_and_relay from id state srv =
      relay id state (apply_state from state.tick state.position state.rotation srv.sessions) srv

  unfoldable pub handle_player_state : Endpoint → List ℕ → Server B → Server B
  unfolding apply_and_relay
  handle_player_state from bytes srv = elim (find_endpoint from srv.sessions) [
    | none ↦ srv
    | some session ↦ elim (decode player_state_format bytes) [
      | none ↦ srv
      | some state ↦ apply_and_relay from session.id state srv
    ]
  ]

  -- Only known peers are answered.
  unfoldable pub handle_ping : Endpoint → List ℕ → Server B → Server B
  handle_ping from bytes srv = elim (find_endpoint from srv.sessions) [
    | none ↦ srv
    | some session ↦ elim (decode ping_format bytes) [
      | none ↦ srv
      | some ping ↦ send_message pong_format (record { sent_at = ping.sent_at }) from srv
    ]
  ]

module _ {B : Type 0} (api : Backend B) where
  -- A player that is gone from the sessions: the others are told, then the scripts.
  unfoldable pub announce_leave : ℕ → Server B → Server B
  announce_leave id srv =
      let told = broadcast notify_player_left_format (record { player_id = id }) id srv in
      record told { scripts = on_player_leave api told.sessions id told.scripts }

  unfoldable pub drop_next :
      (Server B → Server B) → Option Session × SessionManager → Server B → Server B
  unfolding announce_leave
  drop_next again (none, sessions) srv = record srv { sessions = sessions }
  drop_next again (some s, sessions) srv =
      again (announce_leave s.id (record srv { sessions = sessions }))

  -- The loop over TakeNextTimedOut; a round removes a session, so their number bounds the rounds.
  unfoldable pub drop_expired : ℕ → ℕ → Server B → Server B
  unfolding drop_next
  drop_expired zero now srv = srv
  drop_expired (suc fuel) now srv =
      drop_next (drop_expired fuel now) (take_next_timed_out now srv.sessions) srv

  unfoldable pub do_kick : ℕ → Option Session → Server B → Server B
  unfolding announce_leave
  do_kick id none srv = srv
  do_kick id (some s) srv = announce_leave id (record srv { sessions = (remove id srv.sessions).1 })

  unfoldable pub do_kicks : List PendingKick → Server B → Server B
  unfolding do_kick
  do_kicks [] srv = srv
  do_kicks (k ∷ ks) srv =
      do_kicks ks (do_kick k.player_id (find_player k.player_id srv.sessions) srv)

  unfoldable pub drain_kicks : Server B → Server B
  unfolding do_kicks
  drain_kicks srv =
      let (kicks, scripts) = take_kicks srv.scripts in
      do_kicks kicks (record srv { scripts = scripts })

  abbrev pub reject : Server B → Server B
  reject srv = record srv { rejected = srv.rejected + 1 }

  unfoldable pub handle_kind : Kind → Endpoint → List ℕ → ℕ → Server B → Server B
  handle_kind Header.hello from bytes now srv = handle_hello api from bytes now srv
  handle_kind Header.ping from bytes now srv = handle_ping from bytes srv
  handle_kind Header.player_state from bytes now srv = handle_player_state from bytes srv
  handle_kind _ from bytes now srv = reject srv

  unfoldable pub receive : ℕ → Option (Endpoint × List ℕ) → Server B → Server B
  unfolding handle_kind
  receive now none srv = srv
  receive now (some (from, bytes)) srv = elim (peek_header bytes) [
    | none ↦ reject srv
    | some h ↦
        handle_kind h.kind from bytes now
          (record srv { sessions = (touch from now srv.sessions).1 })
  ]

  -- The part of a round before RecvFrom.
  unfoldable pub housekeeping : ℕ → Server B → Server B
  unfolding drop_expired drain_kicks
  housekeeping now srv =
      let kept = drop_expired (length srv.sessions.sessions) now srv in
      drain_kicks (record kept { scripts = on_tick api kept.sessions now kept.scripts })

  unfoldable pub round : ℕ → Option (Endpoint × List ℕ) → Server B → Server B
  unfolding housekeeping receive
  round now received srv = receive now received (housekeeping now srv)

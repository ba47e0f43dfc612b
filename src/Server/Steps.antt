-- ===== src/Server/Steps.antt =====
-- What the handlers of main.cpp may do to the sessions.
use cybermp.Base.{
  ℕ, ◌+◌, ◌^◌, ◌≤◌, ◌<◌, ◌≡◌, refl, ap, ◌∙◌, List, Bool, true, false, Option, none, some,
  Bool-cases, Option-cases, inl, inr, arith,
}
use cybermp.Proto.Header.{Header, Kind, peek_header}
use cybermp.Proto.Header
use cybermp.Proto.Format.{Format, decode}
use cybermp.Proto.Messages.{
  Vec3, Hello, PlayerState, hello_format, player_state_format, ping_format,
}
use cybermp.Session.{
  Endpoint, Session, SessionManager, JoinResult, join, touch, take_next_timed_out, apply_state,
  remove, find_endpoint,
}
use cybermp.Session.Invariant.{IsValid}
use cybermp.Session.Histories.{
  join-IsValid, touch-IsValid, take_next_timed_out-IsValid, apply_state-IsValid, remove-IsValid,
  joins, call, next_id-call,
}
use cybermp.Script.{Backend}
use cybermp.Server.{
  Server, send_message, broadcast, send_roster, answer_hello, handle_hello, relay, apply_and_relay,
  handle_player_state, handle_ping, announce_leave, handle_kind, receive, is_accepted,
}
use cybermp.Server.Broadcasts.{send_message_lem, broadcast_lem, send_roster_lem}

-- What one part of a round may do to the sessions: they stay valid while player ids last, and at
-- most `n` ids are given out.
pub record Steps (n : ℕ) (a b : SessionManager) : Type 0 where
  pub valid : IsValid a → a.next_id + n < 2 ^ 32 → IsValid b
  pub given : b.next_id ≤ a.next_id + n

pub Steps-same : {a b : SessionManager} → b ≡ a → Steps 0 a b
Steps-same e = rw e (record { valid = λ v h. v; given = omega arith })

pub Steps-then : {m n : ℕ} {a b c : SessionManager} → Steps m a b → Steps n b c → Steps (m + n) a c
Steps-then s t = record {
  valid = λ v h. t.valid (s.valid v (omega arith)) (omega (arith, s.given));
  given = omega (arith, s.given, t.given);
}

next_id-join :
    (from : Endpoint) (username : List ℕ) (version now : ℕ) (m : SessionManager)
    → (join from username version now m).2.next_id ≤ m.next_id + 1
unfolding call
next_id-join from username version now m = next_id-call (joins from username version now) m

next_id-apply_state :
    (from : Endpoint) (tick : ℕ) (position : Vec3) (rotation : ℕ) (m : SessionManager)
    → (apply_state from tick position rotation m).1.next_id ≤ m.next_id + 0
unfolding apply_state
next_id-apply_state from tick position rotation m = ground arith

touch-Steps : (from : Endpoint) (now : ℕ) (m : SessionManager) → Steps 0 m (touch from now m).1
unfolding touch
touch-Steps from now m = record { valid = λ v h. touch-IsValid m v from now; given = ground arith }

pub take_next-Steps : (now : ℕ) (m : SessionManager) → Steps 0 m (take_next_timed_out now m).1
unfolding take_next_timed_out
take_next-Steps now m = record {
  valid = λ v h. take_next_timed_out-IsValid m v now;
  given = ground arith;
}

pub remove-Steps : (id : ℕ) (m : SessionManager) → Steps 0 m (remove id m).1
unfolding remove
remove-Steps id m = record { valid = λ v h. remove-IsValid m v id; given = ground arith }

Steps-more : {a b : SessionManager} → Steps 0 a b → Steps 1 a b
Steps-more s = record { valid = λ v h. s.valid v (omega arith); given = omega (arith, s.given) }

module _ {B : Type 0} where
  pub sessions-send_message :
      {T : Type 0} (F : Format T) (message : T) (to : Endpoint) (srv : Server B)
      → (send_message F message to srv).sessions ≡ srv.sessions
  sessions-send_message F message to srv = ap (λ s. s.sessions) (send_message_lem F message to srv)

  pub sessions-broadcast :
      {T : Type 0} (F : Format T) (message : T) (except : ℕ) (srv : Server B)
      → (broadcast F message except srv).sessions ≡ srv.sessions
  sessions-broadcast F message except srv =
      ap (λ s. s.sessions) (broadcast_lem F message except srv)

  pub sessions-send_roster :
      (from : Endpoint) (id : ℕ) (ss : List Session) (srv : Server B)
      → (send_roster from id ss srv).sessions ≡ srv.sessions
  sessions-send_roster from id ss srv = ap (λ s. s.sessions) (send_roster_lem from id ss srv)

  Steps-relay :
      (id : ℕ) (state : PlayerState) (o : Bool × SessionManager) (srv : Server B)
      → (relay id state o srv).sessions ≡ o.1
  unfolding relay
  Steps-relay id state (false, m) srv = refl
  Steps-relay id state (true, m) srv = sessions-broadcast _ _ id (record srv { sessions = m })

  apply_and_relay-Steps :
      (from : Endpoint) (id : ℕ) (state : PlayerState) (srv : Server B)
      → Steps 0 srv.sessions (apply_and_relay from id state srv).sessions
  unfolding apply_and_relay
  apply_and_relay-Steps from id state srv =
      rw
        (Steps-relay id state
          (apply_state from state.tick state.position state.rotation srv.sessions) srv)
        (record {
          valid = λ v h.
              apply_state-IsValid srv.sessions v from state.tick state.position state.rotation;
          given = next_id-apply_state from state.tick state.position state.rotation srv.sessions;
        })

  handle_player_state-Steps :
      (from : Endpoint) (bytes : List ℕ) (srv : Server B)
      → Steps 0 srv.sessions (handle_player_state from bytes srv).sessions
  unfolding handle_player_state
  handle_player_state-Steps from bytes srv = elim (Option-cases (find_endpoint from srv.sessions)) [
    | inl e ↦ rw (e, handle_player_state) (Steps-same refl)
    | inr (s, e) ↦ elim (Option-cases (decode player_state_format bytes)) [
      | inl d ↦ rw (e, d, handle_player_state) (Steps-same refl)
      | inr (state, d) ↦ rw (e, d, handle_player_state) (apply_and_relay-Steps from s.id state srv)
    ]
  ]

  handle_ping-Steps :
      (from : Endpoint) (bytes : List ℕ) (srv : Server B)
      → Steps 0 srv.sessions (handle_ping from bytes srv).sessions
  unfolding handle_ping
  handle_ping-Steps from bytes srv = elim (Option-cases (find_endpoint from srv.sessions)) [
    | inl e ↦ rw (e, handle_ping) (Steps-same refl)
    | inr (s, e) ↦ elim (Option-cases (decode ping_format bytes)) [
      | inl d ↦ rw (e, d, handle_ping) (Steps-same refl)
      | inr (ping, d) ↦ rw (e, d, handle_ping) (Steps-same (sessions-send_message _ _ from srv))
    ]
  ]

module _ {B : Type 0} (api : Backend B) where
  sessions-answer_hello :
      (hello : Hello) (from : Endpoint) (o : JoinResult × ℕ × SessionManager) (srv : Server B)
      → (answer_hello api hello from o srv).sessions ≡ o.2
  unfolding answer_hello
  sessions-answer_hello hello from (r, id, m) srv = elim (Bool-cases (is_accepted r)) [
    | inl e ↦ rw e (
        sessions-broadcast _ _ id _
        ∙ sessions-send_roster from id m.sessions _
        ∙ sessions-send_message _ _ from (record srv { sessions = m }))
    | inr e ↦ rw e (sessions-send_message _ _ from (record srv { sessions = m }))
  ]

  handle_hello-Steps :
      (from : Endpoint) (bytes : List ℕ) (now : ℕ) (srv : Server B)
      → Steps 1 srv.sessions (handle_hello api from bytes now srv).sessions
  unfolding handle_hello
  handle_hello-Steps from bytes now srv = elim (Option-cases (decode hello_format bytes)) [
    | inl d ↦ rw (d, handle_hello) (record { valid = λ v h. v; given = omega arith })
    | inr (hello, d) ↦
        rw
          (
            d,
            handle_hello,
            sessions-answer_hello hello from
                (join from hello.username hello.version now srv.sessions) srv,
          )
          (record {
            valid = λ v h. join-IsValid srv.sessions v from hello.username hello.version now h;
            given = next_id-join from hello.username hello.version now srv.sessions;
          })
  ]

  handle_kind-Steps :
      (kind : Kind) (from : Endpoint) (bytes : List ℕ) (now : ℕ) (srv : Server B)
      → Steps 1 srv.sessions (handle_kind api kind from bytes now srv).sessions
  unfolding handle_kind
  handle_kind-Steps Header.hello from bytes now srv = handle_hello-Steps from bytes now srv
  handle_kind-Steps Header.ping from bytes now srv = Steps-more (handle_ping-Steps from bytes srv)
  handle_kind-Steps Header.player_state from bytes now srv =
      Steps-more (handle_player_state-Steps from bytes srv)
  handle_kind-Steps _ from bytes now srv = Steps-more (Steps-same refl)

  pub receive-Steps :
      (now : ℕ) (received : Option (Endpoint × List ℕ)) (srv : Server B)
      → Steps 1 srv.sessions (receive api now received srv).sessions
  unfolding receive
  receive-Steps now none srv = Steps-more (Steps-same refl)
  receive-Steps now (some (from, bytes)) srv = elim (Option-cases (peek_header bytes)) [
    | inl e ↦ rw (e, receive) (Steps-more (Steps-same refl))
    | inr (h, e) ↦
        rw (e, receive)
          (Steps-then (touch-Steps from now srv.sessions) (
            handle_kind-Steps h.kind from bytes now
              (record srv { sessions = (touch from now srv.sessions).1 })))
  ]

  pub sessions-announce_leave :
      (id : ℕ) (srv : Server B) → (announce_leave api id srv).sessions ≡ srv.sessions
  unfolding announce_leave
  sessions-announce_leave id srv = sessions-broadcast _ _ id srv

-- ===== src/Server/Relays.antt =====
-- HandlePlayerState of main.cpp.
use cybermp.Base.{ℕ, ◌^◌, ◌<◌, ◌≡◌, refl, ap, ◌∙◌, List, map, Bool, true, false, none, some}
use cybermp.Wire.Writer.{Buffer}
use cybermp.Wire.Parse.{Bytes}
use cybermp.Proto.Format.{decode}
use cybermp.Proto.Messages.{PlayerState, player_state_format, notify_player_state_format}
use cybermp.Proto.Lawful.States.{
  player_state_lawful, notify_player_state_lawful, NotifyPlayerStateFits, notify_layout,
}
use cybermp.Proto.RoundTrip.{framed, encode-framed, decode-written, framed-Bytes}
use cybermp.Proto.Rejects.{decode-Fits}
use cybermp.Session.{Endpoint, Session, SessionManager, find_endpoint, apply_state}
use cybermp.Server.{Server, handle_player_state, apply_and_relay, relay, broadcast, notify_of}
use cybermp.Server.Broadcasts.{sending, copies_of, broadcast_lem, others, endpoints}

module _ {B : Type 0} (from : Endpoint) (bytes : List ℕ) (srv : Server B) where
  -- A peer that has not joined is not relayed.
  pub state_unknown :
      find_endpoint from srv.sessions ≡ none → handle_player_state from bytes srv ≡ srv
  unfolding handle_player_state
  state_unknown e = rw (e, handle_player_state)

  reached :
      (s : Session) (state : PlayerState)
      → find_endpoint from srv.sessions ≡ some s
      → decode player_state_format bytes ≡ some state
      → handle_player_state from bytes srv ≡ apply_and_relay from s.id state srv
  unfolding handle_player_state
  reached s state e d = rw (e, d, handle_player_state)

  module _ (s : Session) (state : PlayerState) where
    abbrev kept : Bool × SessionManager
    kept = apply_state from state.tick state.position state.rotation srv.sessions

    relayed :
        (o : Bool × SessionManager)
        → o.0 ≡ true
        → relay s.id state o srv
          ≡ broadcast notify_player_state_format
              (notify_of s.id state)
              s.id
              (record srv { sessions = o.1 })
    unfolding relay
    relayed (true, m) e = refl
    relayed (false, m) e = cc

    dropped :
        (o : Bool × SessionManager)
        → o.0 ≡ false
        → relay s.id state o srv ≡ record srv { sessions = o.1 }
    unfolding relay
    dropped (true, m) e = cc
    dropped (false, m) e = refl

    -- A state of bytes that decodes, of a session with a 32-bit id, that ApplyState keeps: there
    -- is one datagram, of bytes, that decodes to the player's id with the state itself; it is sent
    -- to every session with another id, in their order, and besides only the sessions change, to
    -- ApplyState's.
    pub state_relayed :
        Bytes bytes
        → s.id < 2 ^ 32
        → find_endpoint from srv.sessions ≡ some s
        → decode player_state_format bytes ≡ some state
        → kept.0 ≡ true
        → (out : Buffer) × (decode notify_player_state_format out ≡ some (notify_of s.id state))
          × (handle_player_state from bytes srv
              ≡ sending
                  (map (λ to. (to, out)) (endpoints (others s.id kept.1.sessions)))
                  (record srv { sessions = kept.1 }))
          × Bytes out
    unfolding apply_and_relay
    state_relayed b small e d k =
        let message = notify_of s.id state in
        let read = decode-Fits player_state_lawful bytes state b d in
        let fits : NotifyPlayerStateFits message = record {
          player_id = small;
          tick = read.tick;
          position = read.position;
          rotation = read.rotation;
        } in
        (
          framed notify_player_state_format (notify_layout message),
          decode-written notify_player_state_lawful message fits,
          reached s state e d
              ∙ relayed kept k
              ∙ broadcast_lem notify_player_state_format message s.id
                  (record srv { sessions = kept.1 })
              ∙ ap
                  (λ o.
                    sending (copies_of o (endpoints (others s.id kept.1.sessions)))
                      (record srv { sessions = kept.1 }))
                  (encode-framed notify_player_state_lawful message fits),
          framed-Bytes notify_player_state_lawful (notify_layout message)
              (notify_player_state_lawful.layout_bytes message fits),
        )

    -- One that is stale is not sent to anybody.
    pub state_stale :
        find_endpoint from srv.sessions ≡ some s
        → decode player_state_format bytes ≡ some state
        → kept.0 ≡ false
        → handle_player_state from bytes srv ≡ record srv { sessions = kept.1 }
    unfolding apply_and_relay
    state_stale e d k = reached s state e d ∙ dropped kept k

-- ===== src/Server/Hellos.antt =====
-- HandleHello of main.cpp.
use cybermp.Base.{
  ℕ, ◌≡◌, ◌≢◌, refl, ap, ◌∙◌, List, [], ◌∷◌, ◌++◌, false, none, some, arith, if◌then◌else◌,
}
use cybermp.Wire.Writer.{Buffer}
use cybermp.Proto.Header.{version}
use cybermp.Proto.Format.{decode}
use cybermp.Proto.Messages.{
  Hello, NotifyPlayerJoined, hello_format, hello_ack_format, notify_player_joined_format,
}
use cybermp.Proto.Lawful.Names.{hello_ack_lawful, HelloAckFits, ack_layout}
use cybermp.Proto.RoundTrip.{framed, encode-framed, decode-written}
use cybermp.Session.{
  Endpoint, SessionManager, JoinResult, accepted, already_joined, version_mismatch, name_taken,
  full, join, join_text,
}
use cybermp.Script.{Backend, on_player_join}
use cybermp.Server.{
  Server, handle_hello, answer_hello, ack_for, is_accepted, is_welcome, send_message, send_roster,
  broadcast,
}
use cybermp.Server.Broadcasts.{
  sending, sending_twice, copies, copies_of, send_message_lem, send_roster_lem, broadcast_lem,
  others, endpoints, roster,
}

pub ack_for-Fits : (r : JoinResult) → HelloAckFits (ack_for r)
unfolding join_text
ack_for-Fits accepted = record {
  version = omega arith;
  reason = record { chars = tt; short = omega arith };
}
ack_for-Fits already_joined = record {
  version = omega arith;
  reason = record { chars = tt; short = omega arith };
}
ack_for-Fits version_mismatch = record {
  version = omega arith;
  reason = record { chars = omega arith; short = omega arith };
}
ack_for-Fits name_taken = record {
  version = omega arith;
  reason = record { chars = omega arith; short = omega arith };
}
ack_for-Fits full = record {
  version = omega arith;
  reason = record { chars = omega arith; short = omega arith };
}

-- The datagram that answers a hello.
abbrev pub ack_bytes : JoinResult → Buffer
ack_bytes r = framed hello_ack_format (ack_layout (ack_for r))

module _ {B : Type 0} (api : Backend B) (from : Endpoint) (bytes : List ℕ) (now : ℕ)
    (srv : Server B) where
  pub hello_malformed : decode hello_format bytes ≡ none → handle_hello api from bytes now srv ≡ srv
  unfolding handle_hello
  hello_malformed e = rw (e, handle_hello)

  module _ (hello : Hello) where
    abbrev joining : JoinResult × ℕ × SessionManager
    joining = join from hello.username hello.version now srv.sessions

    abbrev acked : Server B
    acked = sending ((from, ack_bytes joining.0) ∷ []) (record srv { sessions = joining.2 })

    ack_sent :
        (r : JoinResult) (m : SessionManager)
        → send_message hello_ack_format (ack_for r) from (record srv { sessions = m })
          ≡ sending ((from, ack_bytes r) ∷ []) (record srv { sessions = m })
    ack_sent r m =
        send_message_lem hello_ack_format (ack_for r) from (record srv { sessions = m })
        ∙ ap (λ o. sending (copies_of o (from ∷ [])) (record srv { sessions = m }))
            (encode-framed hello_ack_lawful (ack_for r) (ack_for-Fits r))

    answered :
        decode hello_format bytes ≡ some hello
        → handle_hello api from bytes now srv ≡ answer_hello api hello from joining srv
    unfolding handle_hello
    answered d = rw (d, handle_hello)

    not_accepted :
        (o : JoinResult × ℕ × SessionManager)
        → is_accepted o.0 ≡ false
        → answer_hello api hello from o srv
          ≡ sending ((from, ack_bytes o.0) ∷ []) (record srv { sessions = o.2 })
    unfolding answer_hello
    not_accepted (r, id, m) e = rw e (ack_sent r m)

    -- A hello that decodes and that Join does not accept as a new player: one datagram goes to its
    -- sender, the sessions are Join's, and nothing else changes; the datagram decodes to an answer
    -- that says whether the player is in, with no reason if it is and with Join's reason if not.
    pub hello_answered :
        decode hello_format bytes ≡ some hello
        → joining.0 ≢ accepted
        → (handle_hello api from bytes now srv ≡ acked)
          × (decode hello_ack_format (ack_bytes joining.0)
              ≡ some (record {
                accepted = is_welcome joining.0;
                version = version;
                reason = if is_welcome joining.0 then [] else join_text joining.0;
              }))
    hello_answered d n = (
      answered d ∙ not_accepted joining (ground (arith, n)),
      decode-written hello_ack_lawful (ack_for joining.0) (ack_for-Fits joining.0),
    )

    accepted_answer :
        (o : JoinResult × ℕ × SessionManager)
        → o.0 ≡ accepted
        → let told = sending ((from, ack_bytes accepted) ∷ []) (record srv { sessions = o.2 }) in
          let greeted = send_roster from o.1 o.2.sessions told in
          let announced =
            broadcast notify_player_joined_format
              (record { player_id = o.1; username = hello.username })
              o.1
              greeted in
          answer_hello api hello from o srv
          ≡ record announced { scripts = on_player_join api o.2 o.1 announced.scripts }
    unfolding answer_hello
    accepted_answer (accepted, id, m) e = rw (ack_sent accepted m) refl
    accepted_answer (already_joined, id, m) e = cc
    accepted_answer (version_mismatch, id, m) e = cc
    accepted_answer (name_taken, id, m) e = cc
    accepted_answer (full, id, m) e = cc

    -- What an accepted hello sends after the answer: the roster, then the news for the others.
    abbrev pub welcome_datagrams : List (Endpoint × Buffer)
    welcome_datagrams =
        let rest = others joining.1 joining.2.sessions in
        roster from rest
        ++ copies notify_player_joined_format
            (record { player_id = joining.1; username = hello.username }) (endpoints rest)

    collected :
        (a b c : List (Endpoint × Buffer)) (s : Server B)
        → sending c (sending b (sending a s)) ≡ sending (a ++ (b ++ c)) s
    collected a b c s = sending_twice b c (sending a s) ∙ sending_twice a (b ++ c) s

    -- A hello that decodes and that Join accepts: the answer is sent first, and then the datagrams
    -- of the roster and the news; the sessions are Join's, and the scripts are told of the join.
    pub hello_accepted :
        decode hello_format bytes ≡ some hello
        → joining.0 ≡ accepted
        → handle_hello api from bytes now srv ≡ record srv {
          sessions = joining.2;
          sent = srv.sent ++ ((from, ack_bytes accepted) ∷ welcome_datagrams);
          scripts = on_player_join api joining.2 joining.1 srv.scripts;
        }
    hello_accepted d e =
        let there : Server B = record srv { sessions = joining.2 } in
        let hello_sent = sending ((from, ack_bytes accepted) ∷ []) there in
        let greeted = send_roster_lem from joining.1 joining.2.sessions hello_sent in
        let news : NotifyPlayerJoined = record {
          player_id = joining.1;
          username = hello.username;
        } in
        let announced =
          ap (broadcast notify_player_joined_format news joining.1) greeted
          ∙ broadcast_lem notify_player_joined_format news joining.1 _
          ∙ collected _ _ _ there in
        answered d
        ∙ accepted_answer joining e
        ∙ ap {A = Server B}
            (λ s. record s { scripts = on_player_join api joining.2 joining.1 s.scripts }) announced

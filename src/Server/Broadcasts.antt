-- ===== src/Server/Broadcasts.antt =====
-- Send and Broadcast of main.cpp, as lists of datagrams.
use cybermp.Base.{
  ℕ, ◌≡◌, refl, sym, ap, ◌∙◌, List, [], ◌∷◌, ◌++◌, map, not, Option, none, some, ◌==◌, filter_by,
  append_assoc, append-nil, Bool-cases, inl, inr,
}
use cybermp.Wire.Writer.{Buffer}
use cybermp.Proto.Format.{Format, encode}
use cybermp.Proto.Messages.{notify_player_joined_format}
use cybermp.Session.{Endpoint, Session}
use cybermp.Server.{Server, send_message, send_if, send_each, send_each_if, broadcast, send_roster}

abbrev pub copies_of : Option Buffer → List Endpoint → List (Endpoint × Buffer)
copies_of none tos = []
copies_of (some out) tos = map (λ to. (to, out)) tos

-- The datagrams of one message: none if it cannot be encoded.
abbrev pub copies : {T : Type 0} → Format T → T → List Endpoint → List (Endpoint × Buffer)
copies F message tos = copies_of (encode F message) tos

abbrev pub others : ℕ → List Session → List Session
others id = filter_by (λ s. not (s.id == id))

abbrev pub endpoints : List Session → List Endpoint
endpoints = map (λ s. s.endpoint)

-- What the newcomer is told about one player.
abbrev pub greeting : Endpoint → Session → List (Endpoint × Buffer)
greeting from s =
    copies notify_player_joined_format (record { player_id = s.id; username = s.username })
      (from ∷ [])

abbrev pub roster : Endpoint → List Session → List (Endpoint × Buffer)
roster from [] = []
roster from (s ∷ ss) = greeting from s ++ roster from ss

module _ {B : Type 0} where
  abbrev pub sending : List (Endpoint × Buffer) → Server B → Server B
  sending ds srv = record srv { sent = srv.sent ++ ds }

  pub sending_nothing : (srv : Server B) → srv ≡ sending [] srv
  sending_nothing srv = ap (λ ds. record srv { sent = ds }) (sym (append-nil srv.sent))

  pub sending_twice :
      (ds es : List (Endpoint × Buffer)) (srv : Server B)
      → sending es (sending ds srv) ≡ sending (ds ++ es) srv
  sending_twice ds es srv = ap (λ xs. record srv { sent = xs }) (append_assoc srv.sent ds es)

  send_if_lem :
      (o : Option Buffer) (to : Endpoint) (srv : Server B)
      → send_if o to srv ≡ sending (copies_of o (to ∷ [])) srv
  unfolding send_if
  send_if_lem none to srv = sending_nothing srv
  send_if_lem (some out) to srv = refl

  pub send_message_lem :
      {T : Type 0} (F : Format T) (message : T) (to : Endpoint) (srv : Server B)
      → send_message F message to srv ≡ sending (copies F message (to ∷ [])) srv
  unfolding send_message
  send_message_lem F message to srv = send_if_lem (encode F message) to srv

  send_each_lem :
      (except : ℕ) (out : Buffer) (ss : List Session) (srv : Server B)
      → send_each except out ss srv
        ≡ sending (map (λ to. (to, out)) (endpoints (others except ss))) srv
  unfolding send_each filter_by
  send_each_lem except out [] srv = sending_nothing srv
  send_each_lem except out (s ∷ ss) srv = elim (Bool-cases (s.id == except)) [
    | inl e ↦ rw e (send_each_lem except out ss srv)
    | inr e ↦ rw e (
        send_each_lem except out ss (sending ((s.endpoint, out) ∷ []) srv)
        ∙ sending_twice ((s.endpoint, out) ∷ []) _ srv)
  ]

  send_each_if_lem :
      (o : Option Buffer) (except : ℕ) (srv : Server B)
      → send_each_if o except srv
        ≡ sending (copies_of o (endpoints (others except srv.sessions.sessions))) srv
  unfolding send_each_if
  send_each_if_lem none except srv = sending_nothing srv
  send_each_if_lem (some out) except srv = send_each_lem except out srv.sessions.sessions srv

  -- A broadcast reaches every session but one, once each, and changes nothing else.
  pub broadcast_lem :
      {T : Type 0} (F : Format T) (message : T) (except : ℕ) (srv : Server B)
      → broadcast F message except srv
        ≡ sending (copies F message (endpoints (others except srv.sessions.sessions))) srv
  unfolding broadcast
  broadcast_lem F message except srv = send_each_if_lem (encode F message) except srv

  pub send_roster_lem :
      (from : Endpoint) (id : ℕ) (ss : List Session) (srv : Server B)
      → send_roster from id ss srv ≡ sending (roster from (others id ss)) srv
  unfolding send_roster filter_by
  send_roster_lem from id [] srv = sending_nothing srv
  send_roster_lem from id (s ∷ ss) srv = elim (Bool-cases (s.id == id)) [
    | inl e ↦ rw e (send_roster_lem from id ss srv)
    | inr e ↦ rw e (
        send_roster_lem from id ss _
        ∙ ap (sending (roster from (others id ss))) (send_message_lem _ _ from srv)
        ∙ sending_twice (greeting from s) (roster from (others id ss)) srv)
  ]

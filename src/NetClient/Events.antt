-- ===== src/NetClient/Events.antt =====
-- m_events in NetClient.cpp, between the network thread and the game thread.
use cybermp.Base.{
  ℕ, ◌≡◌, refl, sym, ap, ◌∙◌, List, [], ◌∷◌, ◌++◌, true, false, Option, none, some, Option-cases,
  inl, inr, arith, append_assoc, append-nil, All,
}
use cybermp.Wire.Parse.{Bytes}
use cybermp.Proto.Header.{Kind, peek_header}
use cybermp.Proto.Header
use cybermp.Proto.Format.{decode}
use cybermp.Proto.Messages.{
  NotifyPlayerState, NotifyPlayerJoined, NotifyPlayerLeft, hello_ack_format, pong_format,
  notify_player_state_format, notify_player_joined_format, notify_player_left_format,
}
use cybermp.Proto.Lawful.Names.{notify_player_joined_lawful}
use cybermp.Proto.Lawful.Numbers.{notify_player_left_lawful}
use cybermp.Proto.Rejects.{decode-peek}
use cybermp.NetClient.{NetClient, RemoteEvent, RemoteSnapshot, bump}
use cybermp.NetClient.Handle.{
  handle_kind, handle_datagram, take_ack, take_joined, take_left, take_pong, take_state,
  write_snapshot, lookup,
}
use cybermp.NetClient.Attempts.{taken-keeps}
use cybermp.NetClient.Game.{take_events}

-- The events that a datagram announces, whatever the client's state.
abbrev left_event : Option NotifyPlayerLeft → List RemoteEvent
left_event none = []
left_event (some m) = record { joined = false; player_id = m.player_id; username = [] } ∷ []

abbrev event_of : Option NotifyPlayerJoined → Option NotifyPlayerLeft → List RemoteEvent
event_of (some m) o = record { joined = true; player_id = m.player_id; username = m.username } ∷ []
event_of none o = left_event o

abbrev pub announced : List ℕ → List RemoteEvent
announced bytes =
    event_of (decode notify_player_joined_format bytes) (decode notify_player_left_format bytes)

abbrev SameEvents : NetClient → NetClient → Type 0
SameEvents c d = d.events ≡ c.events

write_snapshot-events :
    (n : NotifyPlayerState) (o : Option (ℕ × RemoteSnapshot)) (c : NetClient)
    → SameEvents c (write_snapshot n o c)
unfolding write_snapshot
write_snapshot-events n none c = refl
write_snapshot-events n (some (id, s)) c = ground arith

module _ (bytes : List ℕ) (later : ℕ) (c : NetClient) where
  quiet_kind :
      (k : Kind)
      → decode notify_player_joined_format bytes ≡ none
      → decode notify_player_left_format bytes ≡ none
      → SameEvents c (handle_kind k bytes later c)
  unfolding handle_kind take_ack take_pong take_state
  quiet_kind Header.hello_ack j l =
      taken-keeps (SameEvents c) (decode hello_ack_format bytes) take_ack c refl
        (λ m e. ground arith)
  quiet_kind Header.notify_player_joined j l = rw j refl
  quiet_kind Header.notify_player_left j l = rw l refl
  quiet_kind Header.notify_player_state j l =
      taken-keeps (SameEvents c) (decode notify_player_state_format bytes) take_state c refl (λ m e.
        write_snapshot-events m (lookup m.player_id c)
          (record c { states_received = bump c.states_received }))
  quiet_kind Header.pong j l =
      taken-keeps (SameEvents c) (decode pong_format bytes) (take_pong later) c refl (λ m e. refl)
  quiet_kind _ j l = refl

  quiet_datagram :
      decode notify_player_joined_format bytes ≡ none
      → decode notify_player_left_format bytes ≡ none
      → SameEvents c (handle_datagram bytes later c)
  unfolding handle_datagram
  quiet_datagram j l = elim (Option-cases (peek_header bytes)) [
    | inl e ↦ rw (e, handle_datagram) refl
    | inr (h, e) ↦ rw (e, handle_datagram) (quiet_kind h.kind j l)
  ]

  events_joined :
      (m : NotifyPlayerJoined)
      → Bytes bytes
      → decode notify_player_joined_format bytes ≡ some m
      → handle_datagram bytes later c ≡ take_joined m c
  unfolding handle_datagram handle_kind
  events_joined m b d =
      let (h, peeked, kind) = decode-peek notify_player_joined_lawful bytes m b d in
      rw (peeked, handle_datagram, kind, d) refl

  events_left :
      (m : NotifyPlayerLeft)
      → Bytes bytes
      → decode notify_player_left_format bytes ≡ some m
      → handle_datagram bytes later c ≡ take_left m c
  unfolding handle_datagram handle_kind
  events_left m b d =
      let (h, peeked, kind) = decode-peek notify_player_left_lawful bytes m b d in
      rw (peeked, handle_datagram, kind, d) refl

  events-handle_datagram :
      Bytes bytes → (handle_datagram bytes later c).events ≡ c.events ++ announced bytes
  unfolding take_joined take_left
  events-handle_datagram b = elim (Option-cases (decode notify_player_joined_format bytes)) [
    | inr (m, d) ↦ rw (events_joined m b d, d) refl
    | inl j ↦ elim (Option-cases (decode notify_player_left_format bytes)) [
      | inr (m, d) ↦ rw (events_left m b d, j, d) refl
      | inl l ↦ rw (j, l) (quiet_datagram j l ∙ sym (append-nil c.events))
    ]
  ]

-- The network thread handles a datagram, or the game thread takes the events.
pub data Action : Type 0 where
  handle : List ℕ → ℕ → Action
  take : Action

-- What the takes return, one after the other, and the client at the end.
pub interleave : List Action → NetClient → List RemoteEvent × NetClient
interleave [] c = ([], c)
interleave (handle bytes later ∷ steps) c = interleave steps (handle_datagram bytes later c)
interleave (take ∷ steps) c =
    let (first, d) = take_events c in let (rest, e) = interleave steps d in (first ++ rest, e)

abbrev pub all_announced : List Action → List RemoteEvent
all_announced [] = []
all_announced (handle bytes later ∷ steps) = announced bytes ++ all_announced steps
all_announced (take ∷ steps) = all_announced steps

abbrev pub OnBytes : Action → Type 0
OnBytes (handle bytes later) = Bytes bytes
OnBytes take = Unit

-- Whatever datagrams of bytes one thread handles and whenever the other takes the events: those
-- taken, followed by those still queued, are those queued at first followed by the joins and
-- leaves that the datagrams announce, in the order of arrival.
pub events_in_order :
    (steps : List Action) (c : NetClient)
    → All OnBytes steps
    → (interleave steps c).0 ++ (interleave steps c).1.events ≡ c.events ++ all_announced steps
unfolding interleave take_events
events_in_order [] c b = sym (append-nil c.events)
events_in_order (handle bytes later ∷ steps) c b =
    events_in_order steps (handle_datagram bytes later c) b.1
    ∙ ap (λ es. es ++ all_announced steps) (events-handle_datagram bytes later c b.0)
    ∙ append_assoc c.events (announced bytes) (all_announced steps)
events_in_order (take ∷ steps) c b =
    let d : NetClient = record c { events = [] } in
    append_assoc c.events (interleave steps d).0 (interleave steps d).1.events
    ∙ ap (◌++◌ c.events) (events_in_order steps d b.1)

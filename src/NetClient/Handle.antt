-- ===== src/NetClient/Handle.antt =====
-- NetClient::HandleDatagram: what each message of the server does to the client.
use cybermp.Base.{
  ℕ, List, [], ◌∷◌, ◌++◌, Bool, true, false, not, ◌&&◌, Option, none, some, length, leb, ◌==◌,
  if◌then◌else◌, codes, find_if, update_if, erase_if,
}
use cybermp.Proto.Header.{Header, Kind, peek_header, version}
use cybermp.Proto.Header
use cybermp.Proto.Format.{decode}
use cybermp.Proto.Messages.{
  HelloAck, Pong, NotifyPlayerState, NotifyPlayerJoined, NotifyPlayerLeft, hello_ack_format,
  pong_format, notify_player_state_format, notify_player_joined_format, notify_player_left_format,
}
use cybermp.TaskQueue.{push}
use cybermp.NetClient.{
  RemoteSnapshot, RemoteEvent, NetClient, bump, elapsed, set_error, connected, refused, apply_pong,
}

abbrev pub count_malformed : NetClient → NetClient
count_malformed c = record c { malformed = bump c.malformed }

unfoldable pub take_ack : HelloAck → NetClient → NetClient
take_ack ack c =
    if ack.accepted
    then record c { state = connected }
    else record (set_error (if length ack.reason == 0 then codes "refused" else ack.reason) c) {
      state = refused;
    }

abbrev pub is_player : ℕ → ℕ × RemoteSnapshot → Bool
is_player id entry = entry.0 == id

unfoldable pub lookup : ℕ → NetClient → Option (ℕ × RemoteSnapshot)
lookup id c = find_if (is_player id) c.remote

abbrev pub push_event : RemoteEvent → NetClient → NetClient
push_event e c = record c { events = c.events ++ (e ∷ []) }

unfoldable pub take_joined : NotifyPlayerJoined → NetClient → NetClient
take_joined joined c =
    push_event (record { joined = true; player_id = joined.player_id; username = joined.username })
      c

unfoldable pub take_left : NotifyPlayerLeft → NetClient → NetClient
take_left left c =
    push_event (record { joined = false; player_id = left.player_id; username = [] })
      (record c { remote = erase_if (is_player left.player_id) c.remote })

abbrev pub snapshot_of : NotifyPlayerState → RemoteSnapshot
snapshot_of n = record { tick = n.tick; position = n.position; rotation = n.rotation }

-- `m_remote[id]` makes an entry where there is none.
unfoldable pub write_snapshot :
    NotifyPlayerState → Option (ℕ × RemoteSnapshot) → NetClient → NetClient
write_snapshot n none c = record c { remote = c.remote ++ ((n.player_id, snapshot_of n) ∷ []) }
write_snapshot n (some (id, snapshot)) c =
    if not (snapshot.tick == 0) && leb n.tick snapshot.tick
    then record c { states_out_of_order = bump c.states_out_of_order }
    else record c {
      remote = update_if (is_player n.player_id) (λ e. (e.0, snapshot_of n)) c.remote;
    }

unfoldable pub take_state : NotifyPlayerState → NetClient → NetClient
unfolding write_snapshot
take_state n c =
    write_snapshot n (lookup n.player_id c) (record c { states_received = bump c.states_received })

unfoldable pub take_pong : ℕ → Pong → NetClient → NetClient
take_pong micros pong c = record c {
  last_rtt_micros = elapsed micros pong.sent_at;
  tasks = push (λ t. true) apply_pong c.tasks;
}

-- A message that Decode refuses is counted.
abbrev pub taken : {T : Type 0} → Option T → (T → NetClient → NetClient) → NetClient → NetClient
taken none f c = count_malformed c
taken (some m) f c = f m c

unfoldable pub handle_kind : Kind → List ℕ → ℕ → NetClient → NetClient
unfolding take_ack take_joined take_left take_state take_pong
handle_kind Header.hello_ack bytes micros c = taken (decode hello_ack_format bytes) take_ack c
handle_kind Header.notify_player_joined bytes micros c =
    taken (decode notify_player_joined_format bytes) take_joined c
handle_kind Header.notify_player_left bytes micros c =
    taken (decode notify_player_left_format bytes) take_left c
handle_kind Header.notify_player_state bytes micros c =
    taken (decode notify_player_state_format bytes) take_state c
handle_kind Header.pong bytes micros c = taken (decode pong_format bytes) (take_pong micros) c
handle_kind _ bytes micros c = count_malformed c

unfoldable pub handle_datagram : List ℕ → ℕ → NetClient → NetClient
unfolding handle_kind
handle_datagram bytes micros c = elim (peek_header bytes) [
  | none ↦ count_malformed c
  | some h ↦ handle_kind h.kind bytes micros c
]

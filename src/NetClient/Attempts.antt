-- ===== src/NetClient/Attempts.antt =====
-- NetClient::Run: the count of its hellos.
use cybermp.Base.{
  ℕ, ◌≤◌, ◌<◌, ◌≡◌, refl, List, [], ◌∷◌, true, Option, none, some, Bool-cases, Option-cases, inl,
  inr, arith,
}
use cybermp.Wire.Writer.{Buffer}
use cybermp.Proto.Header.{Kind, peek_header}
use cybermp.Proto.Header
use cybermp.Proto.Format.{encode, decode}
use cybermp.Proto.Messages.{
  NotifyPlayerState, hello_format, hello_ack_format, ping_format, pong_format,
  notify_player_state_format, notify_player_joined_format, notify_player_left_format,
}
use cybermp.Session.{Endpoint, eq_endpoint}
use cybermp.NetClient.{
  NetClient, Timers, RemoteSnapshot, bump, send_hello, post_hello, send_ping, post_if, hello_of,
  connect,
}
use cybermp.NetClient.Handle.{
  handle_kind, handle_datagram, take_ack, take_joined, take_left, take_pong, take_state,
  write_snapshot, lookup, taken, count_malformed,
}
use cybermp.NetClient.Run.{
  Turn, stop, go, Input, before_receive, after_receive, finish, turn_with, turn, turns,
}
use cybermp.NetClient.Hellos.{Holds, before_receive-Holds}

-- What every branch of a message's handler keeps.
pub taken-keeps :
    {T : Type 0} (P : NetClient → Type 0) (o : Option T) (f : T → NetClient → NetClient)
    (c : NetClient)
    → P (count_malformed c)
    → ((m : T) → o ≡ some m → P (f m c))
    → P (taken o f c)
taken-keeps P none f c h k = h
taken-keeps P (some m) f c h k = k m refl

abbrev AtMostTen : NetClient → Type 0
AtMostTen c = c.hello_attempts ≤ 10

write_snapshot-AtMostTen :
    (n : NotifyPlayerState) (o : Option (ℕ × RemoteSnapshot)) (c : NetClient)
    → AtMostTen c
    → AtMostTen (write_snapshot n o c)
unfolding write_snapshot
write_snapshot-AtMostTen n none c h = h
write_snapshot-AtMostTen n (some (id, s)) c h = ground arith

handle_kind-AtMostTen :
    (k : Kind) (bytes : List ℕ) (later : ℕ) (c : NetClient)
    → AtMostTen c
    → AtMostTen (handle_kind k bytes later c)
unfolding handle_kind take_ack take_joined take_left take_pong take_state
handle_kind-AtMostTen Header.hello_ack bytes later c h =
    taken-keeps AtMostTen (decode hello_ack_format bytes) take_ack c h (λ m e. ground arith)
handle_kind-AtMostTen Header.notify_player_joined bytes later c h =
    taken-keeps AtMostTen (decode notify_player_joined_format bytes) take_joined c h (λ m e. h)
handle_kind-AtMostTen Header.notify_player_left bytes later c h =
    taken-keeps AtMostTen (decode notify_player_left_format bytes) take_left c h (λ m e. h)
handle_kind-AtMostTen Header.notify_player_state bytes later c h =
    taken-keeps AtMostTen (decode notify_player_state_format bytes) take_state c h (λ m e.
      write_snapshot-AtMostTen m (lookup m.player_id c)
        (record c { states_received = bump c.states_received }) h)
handle_kind-AtMostTen Header.pong bytes later c h =
    taken-keeps AtMostTen (decode pong_format bytes) (take_pong later) c h (λ m e. h)
handle_kind-AtMostTen _ bytes later c h = h

handle_datagram-AtMostTen :
    (bytes : List ℕ) (later : ℕ) (c : NetClient)
    → AtMostTen c
    → AtMostTen (handle_datagram bytes later c)
unfolding handle_datagram
handle_datagram-AtMostTen bytes later c h = elim (Option-cases (peek_header bytes)) [
  | inl e ↦ rw (e, handle_datagram) h
  | inr (x, e) ↦ rw (e, handle_datagram) (handle_kind-AtMostTen x.kind bytes later c h)
]

after_receive-AtMostTen :
    (now later : ℕ) (o : Option (Endpoint × List ℕ)) (t : Timers) (c : NetClient)
    → AtMostTen c
    → AtMostTen (after_receive now later o t c)
unfolding after_receive
after_receive-AtMostTen now later none t c h = h
after_receive-AtMostTen now later (some (from, bytes)) t c h =
    elim (Bool-cases (eq_endpoint from c.server)) [
      | inl e ↦ rw e (handle_datagram-AtMostTen bytes later _ h)
      | inr e ↦ rw e h
    ]

send_hello-AtMostTen : (c : NetClient) → c.hello_attempts < 10 → AtMostTen (send_hello c)
unfolding send_hello
send_hello-AtMostTen c h = by_code (encode hello_format (hello_of c))
  where
    by_code : (o : Option Buffer) → AtMostTen (post_hello o c)
    by_code none = unfold post_hello in omega arith
    by_code (some out) = unfold post_hello in omega arith

send_ping-AtMostTen : (micros : ℕ) (c : NetClient) → AtMostTen c → AtMostTen (send_ping micros c)
unfolding send_ping
send_ping-AtMostTen micros c h = by_code (encode ping_format (record { sent_at = micros }))
  where
    by_code : (o : Option Buffer) → AtMostTen (post_if o c)
    by_code none = unfold post_if in h
    by_code (some out) = unfold post_if in h

finish-AtMostTen : (i : Input) (t : Turn) → Holds AtMostTen t → AtMostTen (finish i t)
unfolding finish
finish-AtMostTen i (stop c) h = h
finish-AtMostTen i (go t c) h = after_receive-AtMostTen i.now i.later i.datagram t c h

turn_with-AtMostTen :
    (i : Input) (o : Option Timers) (c : NetClient) → AtMostTen c → AtMostTen (turn_with i o c)
unfolding turn_with
turn_with-AtMostTen i none c h = h
turn_with-AtMostTen i (some t) c h =
    finish-AtMostTen i (before_receive c.state i.now i.micros t c) (
      before_receive-Holds AtMostTen c.state i.now i.micros t c h (send_hello-AtMostTen c)
        (send_ping-AtMostTen i.micros c h) (λ d message k. k))

turns-AtMostTen : (is : List Input) (c : NetClient) → AtMostTen c → AtMostTen (turns is c)
unfolding turns turn
turns-AtMostTen [] c h = h
turns-AtMostTen (i ∷ is) c h =
    turns-AtMostTen is (turn_with i c.thread c) (turn_with-AtMostTen i c.thread c h)

-- After Connect has opened its socket, through any turns with any datagrams, the counted attempts
-- to say hello are ten at most.
pub hellos_bounded :
    (address port now : ℕ) (username : List ℕ) (is : List Input) (c : NetClient)
    → (turns is (connect true true address port username now c).1).hello_attempts ≤ 10
unfolding connect
hellos_bounded address port now username is c = turns-AtMostTen is _ (omega arith)

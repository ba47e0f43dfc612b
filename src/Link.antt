-- ===== src/Link.antt =====
-- Client and server together: src/client/NetClient.cpp on both ends of src/server/main.cpp.
use cybermp.Base.{
  ℕ, ◌^◌, ◌<◌, ◌≡◌, ◌≢◌, refl, sym, ap, ◌∙◌, List, [], ◌∷◌, ◌++◌, map, Bool, true, some,
  if◌then◌else◌, ◌⊎◌, inl, inr, arith,
}
use cybermp.Wire.Writer.{Buffer}
use cybermp.Proto.Header.{version}
use cybermp.Proto.Format.{encode}
use cybermp.Proto.Messages.{Vec3, hello_format, player_state_format}
use cybermp.Proto.Spec.{IsName}
use cybermp.Proto.Lawful.Names.{hello_lawful, HelloFits, hello_ack_lawful, ack_layout, named_layout}
use cybermp.Proto.Lawful.States.{player_state_lawful, PlayerStateFits, Vec3Fits}
use cybermp.Proto.RoundTrip.{framed, encode-framed, decode-written, framed-Bytes}
use cybermp.Proto.Rejects.{decode-peek}
use cybermp.Session.{
  Endpoint, Session, SessionManager, JoinResult, accepted, already_joined, version_mismatch,
  name_taken, full, join, join_text, apply_state, find_endpoint,
}
use cybermp.Script.{Backend}
use cybermp.Server.{Server, handle_hello, handle_player_state, ack_for, is_welcome, notify_of}
use cybermp.Server.Broadcasts.{sending, endpoints, others}
use cybermp.Server.Hellos.{
  hello_answered, hello_accepted, ack_bytes, ack_for-Fits, welcome_datagrams,
}
use cybermp.Server.Relays.{state_relayed}
use cybermp.NetClient.{NetClient, connected, refused, hello_of, bump}
use cybermp.NetClient.Handle.{handle_datagram, handle_kind, take_ack, lookup}
use cybermp.NetClient.Game.{send_state, next_state}
use cybermp.NetClient.Snapshots.{snapshot_kept, IsBehind}

-- What the answer to a hello makes of the client's state, and of its last error.
abbrev pub Answered : JoinResult → NetClient → NetClient → Type 0
Answered r c d =
    (d.state ≡ (if is_welcome r then connected else refused))
    × (d.last_error ≡ (if is_welcome r then c.last_error else join_text r))

ack_answers : (r : JoinResult) (c : NetClient) → Answered r c (take_ack (ack_for r) c)
unfolding take_ack join_text
ack_answers accepted c = (refl, refl)
ack_answers already_joined c = (refl, refl)
ack_answers version_mismatch c = (refl, refl)
ack_answers name_taken c = (refl, refl)
ack_answers full c = (refl, refl)

ack_taken :
    (r : JoinResult) (later : ℕ) (c : NetClient)
    → Answered r c (handle_datagram (ack_bytes r) later c)
unfolding handle_datagram handle_kind
ack_taken r later c =
    let fits = ack_for-Fits r in
    let read = decode-written hello_ack_lawful (ack_for r) fits in
    let bytes =
      framed-Bytes hello_ack_lawful (ack_layout (ack_for r))
        (hello_ack_lawful.layout_bytes (ack_for r) fits) in
    let (h, peeked, kind) = decode-peek hello_ack_lawful (ack_bytes r) (ack_for r) bytes read in
    rw (peeked, handle_datagram, kind, read) (ack_answers r c)

hello_fits : (c : NetClient) → IsName c.username → HelloFits (hello_of c)
hello_fits c h = record { version = omega arith; username = h }

-- The hello of a client.
abbrev pub hello_sent : NetClient → Buffer
hello_sent c = framed hello_format (named_layout version c.username)

pub result_cases : (r : JoinResult) → (r ≡ accepted) ⊎ (r ≢ accepted)
result_cases r = ground arith

module _ {B : Type 0} (api : Backend B) (from : Endpoint) (now later : ℕ) (srv : Server B)
    (c : NetClient) where
  -- What Join comes to.
  abbrev pub outcome : JoinResult × ℕ × SessionManager
  outcome = join from c.username version now srv.sessions

  first_answer :
      IsName c.username
      → (rest : List (Endpoint × Buffer)) × ((handle_hello api from (hello_sent c) now srv).sent
          ≡ srv.sent ++ ((from, ack_bytes outcome.0) ∷ rest))
  first_answer h =
      let read = decode-written hello_lawful (hello_of c) (hello_fits c h) in
      elim (result_cases outcome.0) [
        | inl e ↦
            let whole = hello_accepted api from (hello_sent c) now srv (hello_of c) read e in
            let rest = welcome_datagrams api from (hello_sent c) now srv (hello_of c) in
            (
              rest,
              ap (λ s. s.sent) whole ∙ ap (λ r. srv.sent ++ ((from, ack_bytes r) ∷ rest)) (sym e),
            )
        | inr n ↦ (
          [],
          ap (λ s. s.sent) (hello_answered api from (hello_sent c) now srv (hello_of c) read n).0,
        )
      ]

  -- A client whose name has at most 256 bytes encodes its hello; the server's handling of those
  -- bytes sends, before anything else, the answer for what Join comes to; and the client that
  -- handles this answer is connected with its last error unchanged if the player is in, and
  -- otherwise refused with the reason as its last error.
  pub handshake :
      IsName c.username
      → (encode hello_format (hello_of c) ≡ some (hello_sent c))
        × ((rest : List (Endpoint × Buffer)) × ((handle_hello api from (hello_sent c) now srv).sent
              ≡ srv.sent ++ ((from, ack_bytes outcome.0) ∷ rest)))
        × Answered outcome.0 c (handle_datagram (ack_bytes outcome.0) later c)
  handshake h = (
    encode-framed hello_lawful (hello_of c) (hello_fits c h),
    first_answer h,
    ack_taken outcome.0 later c,
  )

-- The next state of a client, on the wire.
abbrev pub state_bytes : NetClient → Vec3 → ℕ → Buffer
state_bytes a position rotation =
    framed player_state_format (player_state_lawful.layout (next_state position rotation a))

-- What SendState does to the server's end, and to the end of another client.
module _ (a b : NetClient) (position : Vec3) (rotation later : ℕ) (delivered : Bool) where
  state_fits :
      Vec3Fits position → rotation < 2 ^ 32 → PlayerStateFits (next_state position rotation a)
  state_fits p r = record { tick = omega arith; position = p; rotation = r }

  posted :
      a.state ≡ connected
      → Vec3Fits position
      → rotation < 2 ^ 32
      → (send_state delivered position rotation a).1.outbox
        ≡ a.outbox ++ ((a.server, (state_bytes a position rotation)) ∷ [])
  unfolding send_state
  posted e p r =
      rw
        (
          e,
          encode-framed player_state_lawful (next_state position rotation a) (state_fits p r),
          send_state,
        )
        refl

  module _ {B : Type 0} (from : Endpoint) (srv : Server B) (s : Session) where
    abbrev applied : Bool × SessionManager
    applied =
        let sent = next_state position rotation a in
        apply_state from sent.tick sent.position sent.rotation srv.sessions

    -- If a connected client sends a position whose floats are 32-bit patterns, the server has a
    -- session with a 32-bit id for the sender and ApplyState keeps the state, and another client
    -- holds no snapshot of that player, one with tick 0 or an older one: SendState posts one
    -- datagram to the server; handling it, the server sends one datagram to each other session,
    -- with only the sessions changed besides; and the other client, handling that datagram, holds
    -- exactly this position, rotation and tick for the sender.
    pub state_arrives :
        a.state ≡ connected
        → Vec3Fits position
        → rotation < 2 ^ 32
        → find_endpoint from srv.sessions ≡ some s
        → s.id < 2 ^ 32
        → applied.0 ≡ true
        → IsBehind s.id (notify_of s.id (next_state position rotation a)) b
        → (out : Buffer) × ((send_state delivered position rotation a).1.outbox
            ≡ a.outbox ++ ((a.server, (state_bytes a position rotation)) ∷ []))
          × (handle_player_state from (state_bytes a position rotation) srv
              ≡ sending
                  (map (λ to. (to, out)) (endpoints (others s.id applied.1.sessions)))
                  (record srv { sessions = applied.1 }))
          × (lookup s.id (handle_datagram out later b)
              ≡ some (
                s.id,
                record { tick = bump a.state_tick; position = position; rotation = rotation },
              ))
    state_arrives c p r known small fresh behind =
        let sent = next_state position rotation a in
        let fits = state_fits p r in
        let bytes =
          framed-Bytes player_state_lawful (player_state_lawful.layout sent)
            (player_state_lawful.layout_bytes sent fits) in
        let read = decode-written player_state_lawful sent fits in
        let (out, decoded, told, plain) =
          state_relayed from (state_bytes a position rotation) srv s sent bytes small known read
            fresh in
        (
          out,
          posted c p r,
          told,
          (snapshot_kept out later b (notify_of s.id sent) plain decoded behind).0,
        )

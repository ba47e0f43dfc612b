-- ===== src/NetTest/Served.antt =====
-- nettest and the server together: src/nettest/main.cpp on one end of src/server/main.cpp.
use cybermp.Base.{
  ◌==◌, ℕ, ◌^◌, ◌<◌, ◌≡◌, refl, sym, ap, ◌∙◌, List, [], ◌∷◌, ◌++◌, some, if◌then◌else◌, inl, inr,
}
use cybermp.Wire.Writer.{Buffer}
use cybermp.Proto.Format.{encode, decode}
use cybermp.Proto.Messages.{Ping, hello_format, hello_ack_format, ping_format, pong_format}
use cybermp.Proto.Spec.{IsName}
use cybermp.Proto.Lawful.Names.{hello_lawful, HelloFits, hello_ack_lawful}
use cybermp.Proto.Lawful.Numbers.{ping_lawful, PingFits}
use cybermp.Proto.RoundTrip.{framed, encode-framed, decode-written, framed-Bytes}
use cybermp.Session.{Endpoint, Session, SessionManager, JoinResult, join, find_endpoint}
use cybermp.Script.{Backend}
use cybermp.Server.{Server, handle_hello, handle_ping, ack_for, is_welcome}
use cybermp.Server.Broadcasts.{sending}
use cybermp.Server.Hellos.{
  hello_answered, hello_accepted, ack_bytes, ack_for-Fits, welcome_datagrams,
}
use cybermp.Server.Pings.{ping_answered}
use cybermp.Link.{result_cases}
use cybermp.NetTest.{Options, hello_for, go_on, leave, judge_ack, judge_pong}

-- The datagrams of a run.
abbrev pub hello_sent : Options → Buffer
hello_sent o = framed hello_format (hello_lawful.layout (hello_for o))

abbrev pub ping_sent : ℕ → Buffer
ping_sent sent_at = framed ping_format (ping_lawful.layout (record { sent_at = sent_at }))

judged :
    (r : JoinResult)
    → judge_ack (decode hello_ack_format (ack_bytes r)) ≡ (if is_welcome r then go_on else leave 2)
unfolding judge_ack
judged r = rw (decode-written hello_ack_lawful (ack_for r) (ack_for-Fits r)) refl

module _ {B : Type 0} (api : Backend B) (from : Endpoint) (now : ℕ) (srv : Server B) where
  abbrev pub outcome : Options → JoinResult × ℕ × SessionManager
  outcome o = join from o.username o.protocol now srv.sessions

  first_answer :
      (o : Options)
      → decode hello_format (hello_sent o) ≡ some (hello_for o)
      → (rest : List (Endpoint × Buffer)) × ((handle_hello api from (hello_sent o) now srv).sent
          ≡ srv.sent ++ ((from, ack_bytes (outcome o).0) ∷ rest))
  first_answer o read = elim (result_cases (outcome o).0) [
    | inl e ↦
        let whole = hello_accepted api from (hello_sent o) now srv (hello_for o) read e in
        let rest = welcome_datagrams api from (hello_sent o) now srv (hello_for o) in
        (rest, ap (λ s. s.sent) whole ∙ ap (λ r. srv.sent ++ ((from, ack_bytes r) ∷ rest)) (sym e))
    | inr n ↦ (
      [],
      ap (λ s. s.sent) (hello_answered api from (hello_sent o) now srv (hello_for o) read n).0,
    )
  ]

  -- nettest with a username of at most 256 bytes and a protocol of 32 bits encodes its hello; the
  -- first datagram that the server sends for it goes back to nettest, which goes on to the rounds
  -- if Join lets the player in and leaves with 2 if not.
  pub hello_served :
      (o : Options)
      → o.protocol < 2 ^ 32
      → IsName o.username
      → (encode hello_format (hello_for o) ≡ some (hello_sent o))
        × ((rest : List (Endpoint × Buffer)) × ((handle_hello api from (hello_sent o) now srv).sent
              ≡ srv.sent ++ ((from, ack_bytes (outcome o).0) ∷ rest)))
        × (judge_ack (decode hello_ack_format (ack_bytes (outcome o).0))
            ≡ (if is_welcome (outcome o).0 then go_on else leave 2))
  hello_served o v n =
      let fits : HelloFits (hello_for o) = record { version = v; username = n } in
      (
        encode-framed hello_lawful (hello_for o) fits,
        first_answer o (decode-written hello_lawful (hello_for o) fits),
        judged (outcome o).0,
      )

module _ {B : Type 0} (from : Endpoint) (srv : Server B) where
  -- A ping of nettest with a clock of 64 bits is encoded; if the server has a session for nettest,
  -- it answers with one datagram to nettest and changes nothing else; and that answer counts in
  -- the round of the ping with this clock, and in no other.
  pub ping_served :
      (sent_at : ℕ) (s : Session)
      → sent_at < 2 ^ 64
      → find_endpoint from srv.sessions ≡ some s
      → (encode ping_format (record { sent_at = sent_at }) ≡ some (ping_sent sent_at))
        × ((out : Buffer) × (handle_ping from (ping_sent sent_at) srv
              ≡ sending ((from, out) ∷ []) srv)
            × ((other : ℕ) → judge_pong other (decode pong_format out) ≡ (sent_at == other)))
  unfolding judge_pong
  ping_served sent_at s v known =
      let ping : Ping = record { sent_at = sent_at } in
      let fits : PingFits ping = record { sent_at = v } in
      let (out, told, read, size) =
        ping_answered from (ping_sent sent_at) srv s ping
          (framed-Bytes ping_lawful (ping_lawful.layout ping) (ping_lawful.layout_bytes ping fits))
          known (decode-written ping_lawful ping fits) in
      (encode-framed ping_lawful ping fits, (out, told, λ other. rw read refl))

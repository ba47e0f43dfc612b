-- ===== src/Server/Pings.antt =====
-- HandlePing of main.cpp.
use cybermp.Base.{ℕ, ◌≡◌, ap, ◌∙◌, List, [], ◌∷◌, none, some, length, arith}
use cybermp.Wire.Writer.{Buffer}
use cybermp.Wire.Parse.{Bytes}
use cybermp.Wire.Layout.{le, length-le}
use cybermp.Proto.Format.{decode}
use cybermp.Proto.Messages.{Ping, Pong, ping_format, pong_format}
use cybermp.Proto.Lawful.Numbers.{ping_lawful, pong_lawful, PongFits}
use cybermp.Proto.RoundTrip.{framed, encode-framed, decode-written}
use cybermp.Proto.Rejects.{decode-Fits}
use cybermp.Session.{Endpoint, Session, find_endpoint}
use cybermp.Server.{Server, handle_ping, send_message}
use cybermp.Server.Broadcasts.{sending, copies_of, send_message_lem}

module _ {B : Type 0} (from : Endpoint) (bytes : List ℕ) (srv : Server B) where
  -- An unknown sender gets no answer, whatever it sends.
  pub ping_unknown : find_endpoint from srv.sessions ≡ none → handle_ping from bytes srv ≡ srv
  unfolding handle_ping
  ping_unknown e = rw (e, handle_ping)

  pub ping_malformed : decode ping_format bytes ≡ none → handle_ping from bytes srv ≡ srv
  unfolding handle_ping
  ping_malformed e = ground (arith, e)

  answered :
      (s : Session) (p : Ping)
      → find_endpoint from srv.sessions ≡ some s
      → decode ping_format bytes ≡ some p
      → handle_ping from bytes srv
        ≡ send_message pong_format (record { sent_at = p.sent_at }) from srv
  unfolding handle_ping
  answered s p e d = rw (e, d, handle_ping)

  -- A ping of bytes that decodes, from an endpoint with a session: one datagram of 12 bytes goes
  -- to that endpoint, decodes to a pong with the ping's timestamp, and nothing else changes.
  pub ping_answered :
      (s : Session) (p : Ping)
      → Bytes bytes
      → find_endpoint from srv.sessions ≡ some s
      → decode ping_format bytes ≡ some p
      → (out : Buffer) × (handle_ping from bytes srv ≡ sending ((from, out) ∷ []) srv)
        × (decode pong_format out ≡ some (record { sent_at = p.sent_at }))
        × (length out ≡ 12)
  ping_answered s p b e d =
      let pong : Pong = record { sent_at = p.sent_at } in
      let fits : PongFits pong = record {
        sent_at = (decode-Fits ping_lawful bytes p b d).sent_at;
      } in
      (
        framed pong_format (le 8 p.sent_at),
        answered s p e d
            ∙ send_message_lem pong_format pong from srv
            ∙ ap (λ o. sending (copies_of o (from ∷ [])) srv) (encode-framed pong_lawful pong fits),
        decode-written pong_lawful pong fits,
        omega (arith, length-le 8 p.sent_at),
      )

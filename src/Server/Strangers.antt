-- ===== src/Server/Strangers.antt =====
-- What main.cpp does with a datagram of a peer that has no session.
use cybermp.Base.{ℕ, ◌≡◌, ◌≢◌, refl, List, none, some, Option-cases, inl, inr}
use cybermp.Proto.Header.{Header, Kind, peek_header}
use cybermp.Proto.Header
use cybermp.Session.{Endpoint, SessionManager, find_endpoint, touch}
use cybermp.Script.{Backend}
use cybermp.Server.{Server, handle_kind, receive}
use cybermp.Server.Pings.{ping_unknown}
use cybermp.Server.Relays.{state_unknown}

touch_unknown :
    (from : Endpoint) (now : ℕ) (m : SessionManager)
    → find_endpoint from m ≡ none
    → (touch from now m).1 ≡ m
unfolding touch
touch_unknown from now m e = rw (e, touch) refl

module _ {B : Type 0} (api : Backend B) (from : Endpoint) (bytes : List ℕ) (now : ℕ)
    (srv : Server B) where
  -- The sessions, the scripts and what was sent are as before.
  abbrev pub Quiet : Server B → Type 0
  Quiet t = (t.sessions ≡ srv.sessions) × (t.scripts ≡ srv.scripts) × (t.sent ≡ srv.sent)

  kind-Quiet :
      (kind : Kind)
      → find_endpoint from srv.sessions ≡ none
      → kind ≢ Header.hello
      → Quiet (handle_kind api kind from bytes now srv)
  unfolding handle_kind
  kind-Quiet Header.hello e n = absurd (n refl)
  kind-Quiet Header.ping e n = rw (ping_unknown from bytes srv e) (refl, refl, refl)
  kind-Quiet Header.player_state e n = rw (state_unknown from bytes srv e) (refl, refl, refl)
  kind-Quiet _ e n = (refl, refl, refl)

  -- A datagram from an endpoint without a session, whose header does not say hello (or that has no
  -- header), changes neither sessions nor scripts, and nothing is sent.
  pub stranger_ignored :
      find_endpoint from srv.sessions ≡ none
      → ((h : Header) → peek_header bytes ≡ some h → h.kind ≢ Header.hello)
      → Quiet (receive api now (some (from, bytes)) srv)
  unfolding receive
  stranger_ignored e n = elim (Option-cases (peek_header bytes)) [
    | inl p ↦ rw (p, receive) (refl, refl, refl)
    | inr (h, p) ↦
        rw (p, receive, touch_unknown from now srv.sessions e) (kind-Quiet h.kind e (n h p))
  ]

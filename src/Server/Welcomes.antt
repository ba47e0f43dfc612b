-- ===== src/Server/Welcomes.antt =====
-- HandleHello of main.cpp: what a newcomer and the others receive, read by Decode.
use cybermp.Base.{
  ℕ, ◌^◌, ◌<◌, ◌≡◌, refl, ap, ◌∙◌, List, [], ◌∷◌, ◌++◌, map, true, some, arith, Option, filter_by,
  All,
}
use cybermp.Wire.Writer.{Buffer}
use cybermp.Wire.Parse.{Bytes}
use cybermp.Proto.Header.{version}
use cybermp.Proto.Format.{decode}
use cybermp.Proto.Messages.{
  Hello, NotifyPlayerJoined, hello_format, hello_ack_format, notify_player_joined_format,
}
use cybermp.Proto.Lawful.Names.{
  hello_lawful, hello_ack_lawful, notify_player_joined_lawful, NotifyPlayerJoinedFits,
}
use cybermp.Proto.RoundTrip.{encode-framed, decode-written}
use cybermp.Proto.Rejects.{decode-Fits}
use cybermp.Session.{Endpoint, Session, SessionManager, JoinResult, accepted, join, new_session}
use cybermp.Session.Invariant.{IsValid, IsNumbered, IsNamed}
use cybermp.Session.Joining.{accepted_grown}
use cybermp.Script.{Backend, on_player_join}
use cybermp.Server.{Server, handle_hello, ack_for}
use cybermp.Server.Broadcasts.{copies, copies_of, others, endpoints, greeting, roster}
use cybermp.Server.Hellos.{ack_bytes, ack_for-Fits, welcome_datagrams, hello_accepted}

-- A datagram as its receiver decodes it.
abbrev pub read_joined : Endpoint × Buffer → Endpoint × Option NotifyPlayerJoined
read_joined d = (d.0, decode notify_player_joined_format d.1)

abbrev pub joined_of : ℕ → List ℕ → NotifyPlayerJoined
joined_of id username = record { player_id = id; username = username }

-- The news of a session for the newcomer, and of the newcomer for a session.
abbrev pub told_newcomer : Endpoint → Session → Endpoint × Option NotifyPlayerJoined
told_newcomer from s = (from, some (joined_of s.id s.username))

abbrev pub told_other : NotifyPlayerJoined → Session → Endpoint × Option NotifyPlayerJoined
told_other news s = (s.endpoint, some news)

-- A session whose news fit the wire.
abbrev FitsWire : Session → Type 0
FitsWire s = NotifyPlayerJoinedFits (joined_of s.id s.username)

map-append {ℓ κ} :
    {A : Type ℓ} {B : Type κ} (f : A → B) (xs ys : List A) → map f (xs ++ ys) ≡ map f xs ++ map f ys
map-append f [] ys = refl
map-append f (x ∷ xs) ys = ap (◌∷◌ (f x)) (map-append f xs ys)

greeting_read :
    (from : Endpoint) (s : Session)
    → FitsWire s
    → map read_joined (greeting from s) ≡ told_newcomer from s ∷ []
greeting_read from s h =
    let news = joined_of s.id s.username in
    ap (λ o. map read_joined (copies_of o (from ∷ [])))
      (encode-framed notify_player_joined_lawful news h)
    ∙ ap (λ r. (from, r) ∷ []) (decode-written notify_player_joined_lawful news h)

roster_read :
    (from : Endpoint) (ss : List Session)
    → All FitsWire ss
    → map read_joined (roster from ss) ≡ map (told_newcomer from) ss
roster_read from [] h = refl
roster_read from (s ∷ ss) h =
    map-append read_joined (greeting from s) (roster from ss)
    ∙ rw (greeting_read from s h.0, roster_read from ss h.1) refl

sent_read :
    (out : Buffer) (news : NotifyPlayerJoined) (ss : List Session)
    → decode notify_player_joined_format out ≡ some news
    → map read_joined (map (λ to. (to, out)) (endpoints ss)) ≡ map (told_other news) ss
sent_read out news [] e = refl
sent_read out news (s ∷ ss) e = rw (e, sent_read out news ss e) refl

copies_read :
    (news : NotifyPlayerJoined) (ss : List Session)
    → NotifyPlayerJoinedFits news
    → map read_joined (copies notify_player_joined_format news (endpoints ss))
      ≡ map (told_other news) ss
copies_read news ss h =
    ap (λ o. map read_joined (copies_of o (endpoints ss)))
      (encode-framed notify_player_joined_lawful news h)
    ∙ sent_read _ news ss (decode-written notify_player_joined_lawful news h)

-- Without the newcomer, whose number comes next, the sessions are those that were there.
others_grown :
    (next_id : ℕ) (xs : List Session) (s : Session)
    → All (IsNumbered next_id) xs
    → s.id ≡ next_id
    → others next_id (xs ++ (s ∷ [])) ≡ xs
unfolding filter_by
others_grown next_id [] s h e = ground (arith, e)
others_grown next_id (x ∷ xs) s h e = ground (arith, h.0, others_grown next_id xs s h.1 e)

-- Names of bytes.
abbrev pub HasBytes : Session → Type 0
HasBytes s = Bytes s.username

All-FitsWire :
    (next_id : ℕ) (xs : List Session)
    → next_id < 2 ^ 32
    → All (IsNumbered next_id) xs
    → All IsNamed xs
    → All HasBytes xs
    → All FitsWire xs
All-FitsWire next_id [] small n k b = tt
All-FitsWire next_id (x ∷ xs) small n k b = (
  record {
    player_id = omega (arith, n.0);
    username = record { chars = b.0; short = ground (arith, k.0) };
  },
  All-FitsWire next_id xs small n.1 k.1 b.1,
)

module _ {B : Type 0} (api : Backend B) (from : Endpoint) (bytes : List ℕ) (now : ℕ)
    (srv : Server B) (hello : Hello) where
  abbrev joining : JoinResult × ℕ × SessionManager
  joining = join from hello.username hello.version now srv.sessions

  rest_old :
      IsValid srv.sessions
      → joining.0 ≡ accepted
      → others joining.1 joining.2.sessions ≡ srv.sessions.sessions
  rest_old v e =
      let m = srv.sessions in
      let shape = (accepted_grown m from hello.username hello.version now e).1 in
      let added = new_session m.next_id hello.username from now in
      ap (λ o. others o.1 o.2.sessions) shape
      ∙ others_grown m.next_id m.sessions added v.numbered refl

  welcome_read :
      NotifyPlayerJoinedFits (joined_of joining.1 hello.username)
      → All FitsWire srv.sessions.sessions
      → others joining.1 joining.2.sessions ≡ srv.sessions.sessions
      → map read_joined (welcome_datagrams api from bytes now srv hello)
        ≡ map (told_newcomer from) srv.sessions.sessions
          ++ map (told_other (joined_of joining.1 hello.username)) srv.sessions.sessions
  welcome_read fits h old =
      let ss = srv.sessions.sessions in
      let news = joined_of joining.1 hello.username in
      ap
        (λ rest.
          map read_joined
            (roster from rest ++ copies notify_player_joined_format news (endpoints rest)))
        old
      ∙ map-append read_joined (roster from ss)
          (copies notify_player_joined_format news (endpoints ss))
      ∙ rw (roster_read from ss h, copies_read news ss fits) refl

  newcomer_fits :
      Bytes bytes
      → decode hello_format bytes ≡ some hello
      → joining.0 ≡ accepted
      → srv.sessions.next_id < 2 ^ 32
      → NotifyPlayerJoinedFits (joined_of joining.1 hello.username)
  newcomer_fits b d e small =
      let shape = (accepted_grown srv.sessions from hello.username hello.version now e).1 in
      record {
        player_id = rw shape small;
        username = (decode-Fits hello_lawful bytes hello b d).username;
      }

  -- A hello of bytes that decodes and that Join accepts, on valid sessions whose names are bytes
  -- and whose next id has 32 bits: first an answer goes to the newcomer that decodes to accepted,
  -- with no reason; then, as Decode reads them, the number and name of every session that was
  -- there before go to the newcomer, and the newcomer's number and name to every one of these, in
  -- their order; nothing else is sent; the sessions are Join's, and the scripts are told of the
  -- join.
  pub hello_welcomed :
      Bytes bytes
      → decode hello_format bytes ≡ some hello
      → joining.0 ≡ accepted
      → IsValid srv.sessions
      → srv.sessions.next_id < 2 ^ 32
      → All HasBytes srv.sessions.sessions
      → let news = welcome_datagrams api from bytes now srv hello in
        (handle_hello api from bytes now srv ≡ record srv {
          sessions = joining.2;
          sent = srv.sent ++ ((from, ack_bytes accepted) ∷ news);
          scripts = on_player_join api joining.2 joining.1 srv.scripts;
        })
        × (decode hello_ack_format (ack_bytes accepted)
            ≡ some (record { accepted = true; version = version; reason = [] }))
        × (map read_joined news
            ≡ map (told_newcomer from) srv.sessions.sessions
              ++ map (told_other (joined_of joining.1 hello.username)) srv.sessions.sessions)
  hello_welcomed b d e v small names = (
    hello_accepted api from bytes now srv hello d e,
    decode-written hello_ack_lawful (ack_for accepted) (ack_for-Fits accepted),
    welcome_read (newcomer_fits b d e small)
        (All-FitsWire srv.sessions.next_id srv.sessions.sessions small v.numbered v.named names)
        (rest_old v e),
  )

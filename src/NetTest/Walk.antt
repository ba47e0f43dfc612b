-- ===== src/NetTest/Walk.antt =====
-- RunWalk of src/nettest/main.cpp: snapshots along a circle, and a count of those that come back. A
-- float is its 32-bit pattern; arithmetic on floats and strtof are parameters. The datagrams that
-- RecvFrom gives before its first empty result are an argument of a turn; what goes to SendTo is
-- collected in `outbox`, oldest first.
use cybermp.Base.{
  ℕ, List, [], ◌∷◌, ◌++◌, Bool, true, false, not, ◌&&◌, Option, none, some, leb, ◌==◌,
  if◌then◌else◌, find_if, update_if, codes, argument, or_else, atoi, to_unsigned, to_decimal,
}
use cybermp.Wire.Writer.{Buffer}
use cybermp.Proto.Header.{Header, Kind, peek_header, version, max_datagram}
use cybermp.Proto.Header
use cybermp.Proto.Format.{encode, decode}
use cybermp.Proto.Messages.{
  Vec3, PlayerState, NotifyPlayerState, player_state_format, notify_player_state_format,
}
use cybermp.NetClient.{bump, loopback}
use cybermp.Socket.{Winsock, UdpSocket, closed_socket, startup, shutdown, open_socket, close}
use cybermp.NetTest.{default_port, Io, do_handshake, zeros}

pub record Trig : Type 0 where
  pub plus : ℕ → ℕ → ℕ
  pub times : ℕ → ℕ → ℕ
  pub over : ℕ → ℕ → ℕ
  pub of_count : ℕ → ℕ
  pub cos : ℕ → ℕ
  pub sin : ℕ → ℕ
  pub strtof : List ℕ → ℕ

-- 6.283185307f, 120.0f, 57.29577951f and 4.0f.
abbrev full_turn : ℕ
full_turn = 1086918619

abbrev turn_ticks : ℕ
turn_ticks = 1123024896

abbrev degrees : ℕ
degrees = 1113927393

abbrev four : ℕ
four = 1082130432

pub record WalkOptions : Type 0 where
  pub port : ℕ
  pub centre : Vec3
  pub radius : ℕ
  pub username : List ℕ

pub record Walk : Type 0 where
  pub tick : ℕ
  pub states_in : ℕ
  pub out_of_order : ℕ
  pub last_ticks : List (ℕ × ℕ)
  pub outbox : List Buffer

abbrev pub new_walk : Walk
new_walk = record { tick = 0; states_in = 0; out_of_order = 0; last_ticks = []; outbox = [] }

abbrev pub is_entry : ℕ → ℕ × ℕ → Bool
is_entry id entry = entry.0 == id

-- `lastTickPerPlayer[id]` makes an entry of 0 where there is none.
abbrev pub last_tick : Option (ℕ × ℕ) → ℕ
last_tick none = 0
last_tick (some (id, tick)) = tick

abbrev pub put_tick : ℕ → ℕ → Option (ℕ × ℕ) → List (ℕ × ℕ) → List (ℕ × ℕ)
put_tick id tick none ticks = ticks ++ ((id, tick) ∷ [])
put_tick id tick (some e) ticks = update_if (is_entry id) (λ x. (x.0, tick)) ticks

unfoldable pub count_state : NotifyPlayerState → Walk → Walk
count_state n w =
    let entry = find_if (is_entry n.player_id) w.last_ticks in
    let counted = record w { states_in = bump w.states_in } in
    if not (last_tick entry == 0) && leb n.tick (last_tick entry)
    then record counted { out_of_order = bump w.out_of_order }
    else record counted { last_ticks = put_tick n.player_id n.tick entry w.last_ticks }

-- A join or a leave is printed only.
unfoldable pub walk_kind : Kind → List ℕ → Walk → Walk
unfolding count_state
walk_kind Header.notify_player_state bytes w = elim (decode notify_player_state_format bytes) [
  | none ↦ w
  | some n ↦ count_state n w
]
walk_kind _ bytes w = w

unfoldable pub walk_datagram : List ℕ → Walk → Walk
unfolding walk_kind
walk_datagram bytes w = elim (peek_header bytes) [ none ↦ w | some h ↦ walk_kind h.kind bytes w ]

unfoldable pub drain_all : List (List ℕ) → Walk → Walk
drain_all [] w = w
drain_all (d ∷ ds) w = drain_all ds (walk_datagram d w)

module _ (F : Trig) where
  unfoldable pub parse_walk : ℕ → List (List ℕ) → WalkOptions
  parse_walk pid args = record {
    port = or_else default_port (λ a. to_unsigned 16 (atoi a)) (argument 2 args);
    centre = record {
      x = or_else 0 F.strtof (argument 3 args);
      y = or_else 0 F.strtof (argument 4 args);
      z = or_else 0 F.strtof (argument 5 args);
    };
    radius = or_else four F.strtof (argument 6 args);
    username = or_else (codes "walker-" ++ to_decimal pid) (λ a. a) (argument 7 args);
  }

  abbrev pub angle : ℕ → ℕ
  angle tick = F.times (F.of_count tick) (F.over full_turn turn_ticks)

  unfoldable pub walk_state : WalkOptions → ℕ → PlayerState
  walk_state o tick = record {
    tick = tick;
    position = record {
      x = F.plus o.centre.x (F.times o.radius (F.cos (angle tick)));
      y = F.plus o.centre.y (F.times o.radius (F.sin (angle tick)));
      z = o.centre.z;
    };
    rotation = F.times (angle tick) degrees;
  }

  -- `none` where RunWalk returns.
  walked : Bool → Option Buffer → List (List ℕ) → Walk → Option Walk
  unfolding drain_all
  walked delivered none datagrams w = some (drain_all datagrams w)
  walked true (some out) datagrams w =
      some (drain_all datagrams (record w { outbox = w.outbox ++ (out ∷ []) }))
  walked false (some out) datagrams w = none

  unfoldable pub walk_turn : WalkOptions → Bool → List (List ℕ) → Walk → Option Walk
  unfolding walked
  walk_turn o delivered datagrams w =
      let tick = bump w.tick in
      walked delivered (encode player_state_format (walk_state o tick)) datagrams
        (record w { tick = tick })

-- RunWalk before its loop: it returns 1, or the walk begins.
pub data Begun (S : Type 0) : Type 0 where
  exits : ℕ → S → Begun S
  walks : UdpSocket → Walk → Io S → Begun S

module _ {S : Type 0} (W : Winsock S) (loopback_address : ℕ) (o : WalkOptions) where
  shaken : UdpSocket → Bool × Io S → Begun S
  shaken u (false, io) = exits 1 (shutdown W true (close W u io.system).1)
  shaken u (true, io) = walks u new_walk io

  with_socket : Bool × UdpSocket × S → Begun S
  unfolding shaken
  with_socket (false, u, s) = exits 1 (shutdown W true (close W u s).1)
  with_socket (true, u, s) = shaken u (
      do_handshake W (loopback loopback_address o.port) u o.username version
        (record { buffer = zeros max_datagram; system = s }))

  with_winsock : Bool × S → Begun S
  unfolding with_socket
  with_winsock (false, s) = exits 1 (shutdown W false s)
  with_winsock (true, s) = with_socket (open_socket W closed_socket s)

  unfoldable pub begin_walk : S → Begun S
  unfolding with_winsock
  begin_walk s = with_winsock (startup W s)

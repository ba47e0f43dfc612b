-- ===== src/NetClient/Game.antt =====
-- NetClient.cpp, the calls of the game thread: SendState, TakeEvents, CopyRemoteSnapshots, GetStats.
use cybermp.Base.{ℕ, List, [], Bool, true, false, not, Option, none, some, length, if◌then◌else◌}
use cybermp.Wire.Writer.{Buffer}
use cybermp.Proto.Format.{encode}
use cybermp.Proto.Messages.{Vec3, PlayerState, player_state_format}
use cybermp.NetClient.{
  NetClient, NetState, connected, RemoteEvent, RemoteSnapshot, Task, apply_pong, other_task, bump,
  post,
}

abbrev pub is_connected : NetState → Bool
is_connected connected = true
is_connected _ = false

abbrev pub next_state : Vec3 → ℕ → NetClient → PlayerState
next_state position rotation c = record {
  tick = bump c.state_tick;
  position = position;
  rotation = rotation;
}

unfoldable pub post_state : Bool → Option Buffer → NetClient → Bool × NetClient
post_state delivered none c = (false, c)
post_state delivered (some out) c =
    (delivered, post out (record c { states_sent = bump c.states_sent }))

-- `delivered` is what SendTo returns. The tick is used up even if nothing is sent.
unfoldable pub send_state : Bool → Vec3 → ℕ → NetClient → Bool × NetClient
unfolding post_state
send_state delivered position rotation c =
    if not (is_connected c.state)
    then (false, c)
    else post_state delivered (encode player_state_format (next_state position rotation c))
        (record c { state_tick = bump c.state_tick })

unfoldable pub take_events : NetClient → List RemoteEvent × NetClient
take_events c = (c.events, record c { events = [] })

unfoldable pub copy_remote_snapshots : NetClient → List (ℕ × RemoteSnapshot)
copy_remote_snapshots c = c.remote

-- The task that a pong pushes, when the game thread runs it.
unfoldable pub run_task : Task → NetClient → NetClient × List Task
run_task apply_pong c = (record c { applied_on_game_thread = bump c.applied_on_game_thread }, [])
run_task other_task c = (c, [])

pub record NetStats : Type 0 where
  pub state : NetState
  pub sent : ℕ
  pub received : ℕ
  pub malformed : ℕ
  pub hello_attempts : ℕ
  pub last_rtt_micros : ℕ
  pub applied_on_game_thread : ℕ
  pub states_sent : ℕ
  pub states_received : ℕ
  pub states_out_of_order : ℕ
  pub remote_count : ℕ
  pub last_error : List ℕ

unfoldable pub get_stats : NetClient → NetStats
get_stats c = record {
  state = c.state;
  sent = c.sent;
  received = c.received;
  malformed = c.malformed;
  hello_attempts = c.hello_attempts;
  last_rtt_micros = c.last_rtt_micros;
  applied_on_game_thread = c.applied_on_game_thread;
  states_sent = c.states_sent;
  states_received = c.states_received;
  states_out_of_order = c.states_out_of_order;
  remote_count = length c.remote;
  last_error = c.last_error;
}

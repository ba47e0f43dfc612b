-- ===== src/Tests.antt =====
-- The data of the examples: two peers, sessions, messages, a script that does nothing.
pub mod Messages
pub mod Queue
pub mod Sessions
pub mod Servers
pub mod Clients
pub mod Worlds
pub mod Console
pub mod Sockets
pub mod Scripts
use cybermp.Base.{
  ℕ, ◌^◌, ◌≤◌, ◌<◌, ◌≡◌, refl, List, [], ◌∷◌, Bool, true, false, Option, none, some, length, arith,
  codes,
}
use cybermp.Wire.Writer.{Buffer}
use cybermp.Wire.Parse.{Bytes}
use cybermp.Proto.Messages.{
  Vec3, Hello, PlayerState, Ping, hello_format, player_state_format, ping_format,
}
use cybermp.Proto.Spec.{IsName}
use cybermp.Proto.Lawful.Names.{HelloFits, hello_lawful}
use cybermp.Proto.Lawful.States.{PlayerStateFits, Vec3Fits, player_state_lawful}
use cybermp.Proto.RoundTrip.{framed}
use cybermp.Session.{Endpoint, Session, SessionManager}
use cybermp.Session.Invariant.{IsValid, Apart}
use cybermp.Script.{Backend, ScriptHost, PendingKick, new_host}
use cybermp.Server.{Server}
use cybermp.NetClient.{NetClient, NetState, disconnected}
use cybermp.TaskQueue.{empty}

abbrev pub alice : Endpoint
alice = record { address = 16777343; port = 5001 }

abbrev pub bob : Endpoint
bob = record { address = 16777343; port = 5002 }

abbrev pub carol : Endpoint
carol = record { address = 16777343; port = 5003 }

-- 1.0f, 2.0f and 3.0f.
abbrev pub place : Vec3
place = record { x = 1065353216; y = 1073741824; z = 1077936128 }

abbrev pub alice_session : Session
alice_session = record {
  id = 1;
  username = codes "alice";
  endpoint = alice;
  last_seen_ms = 1000;
  has_state = true;
  state_tick = 3;
  position = place;
  rotation = 0;
}

abbrev pub bob_session : Session
bob_session = record {
  id = 2;
  username = codes "bob";
  endpoint = bob;
  last_seen_ms = 9000;
  has_state = false;
  state_tick = 0;
  position = record { x = 0; y = 0; z = 0 };
  rotation = 0;
}

abbrev pub two_players : SessionManager
two_players = record {
  max_players = 4;
  timeout_ms = 5000;
  next_id = 3;
  sessions = alice_session ∷ bob_session ∷ [];
}

pub two_players-IsValid : IsValid two_players
two_players-IsValid = record {
  started = omega arith;
  bounded = omega arith;
  numbered = ((omega arith, omega arith), ((omega arith, omega arith), tt));
  named = (refl, (refl, tt));
  distinct = (
    (
      record {
        ids = λ e. omega (arith, e);
        endpoints = unfold cybermp.Session.eq_endpoint in refl;
        usernames = unfold cybermp.Base.eq_bytes in refl;
      },
      tt,
    ),
    (tt, tt),
  );
}

-- The next number is the last uint32_t.
abbrev pub nearly_wrapped : SessionManager
nearly_wrapped = record { max_players = 4; timeout_ms = 5000; next_id = 4294967295; sessions = [] }

abbrev pub quiet_backend : Backend ℕ
quiet_backend = record {
  start = λ m b. (true, b, []);
  stop = λ b. (b, []);
  on_player_join = λ m id b. (b, []);
  on_player_leave = λ m id b. (b, []);
  on_tick = λ m now b. (b, []);
}

abbrev pub scripts : ScriptHost ℕ
scripts = record { backends = 7 ∷ []; kicks = []; log_lines = [] }

abbrev pub server : Server ℕ
server = record { sessions = two_players; scripts = scripts; sent = []; rejected = 0 }

abbrev pub hello_message : Hello
hello_message = record { version = 2; username = codes "carol" }

pub carol-IsName : IsName (codes "carol")
carol-IsName = record {
  chars = (omega arith, (omega arith, (omega arith, (omega arith, (omega arith, tt)))));
  short = omega arith;
}

abbrev pub hello_bytes : Buffer
hello_bytes = framed hello_format (hello_lawful.layout hello_message)

pub hello_message-HelloFits : HelloFits hello_message
hello_message-HelloFits = record { version = omega arith; username = carol-IsName }

abbrev pub moved : PlayerState
moved = record { tick = 4; position = place; rotation = 0 }

pub place-Vec3Fits : Vec3Fits place
place-Vec3Fits = record { x = omega arith; y = omega arith; z = omega arith }

pub moved-PlayerStateFits : PlayerStateFits moved
moved-PlayerStateFits = record {
  tick = omega arith;
  position = place-Vec3Fits;
  rotation = omega arith;
}

abbrev pub moved_bytes : Buffer
moved_bytes = framed player_state_format (player_state_lawful.layout moved)

abbrev pub client : NetClient
client = record {
  thread = none;
  server = carol;
  username = codes "carol";
  state = disconnected;
  sent = 0;
  received = 0;
  malformed = 0;
  hello_attempts = 0;
  last_rtt_micros = 0;
  applied_on_game_thread = 0;
  states_sent = 0;
  states_received = 0;
  states_out_of_order = 0;
  state_tick = 0;
  remote = [];
  events = [];
  last_error = [];
  tasks = empty;
  outbox = [];
}

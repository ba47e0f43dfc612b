-- ===== src/Session.antt =====
-- src/server/Session.hpp and Session.cpp: who is connected. Time is an argument of each call; a
-- method returns the new manager with its result.
pub mod Invariant
pub mod Histories
pub mod Joining
pub mod Timeouts
pub mod Snapshots
pub mod Players
pub mod Moves
pub mod Refines
pub mod Contract
use cybermp.Base.{
  ℕ, ◌+◌, ◌-◌, ◌%◌, ◌^◌, List, [], ◌∷◌, ◌++◌, Bool, true, false, not, ◌&&◌, ◌||◌, Option, none,
  some, length, ltb, leb, ◌==◌, if◌then◌else◌, codes, to_decimal, eq_bytes, find_if, any_of,
  update_if, erase_if,
}
use cybermp.Proto.Header.{version, max_string_size}
use cybermp.Proto.Messages.{Vec3}

-- net::Endpoint, of src/common/Net.hpp.
pub record Endpoint : Type 0 where
  pub address : ℕ
  pub port : ℕ

unfoldable pub eq_endpoint : Endpoint → Endpoint → Bool
eq_endpoint a b = a.address == b.address && a.port == b.port

-- Endpoint::ToString, with what inet_ntop prints for an address.
unfoldable pub endpoint_text : (ℕ → List ℕ) → Endpoint → List ℕ
endpoint_text ntop e = ntop e.address ++ (codes ":" ++ to_decimal e.port)

abbrev pub invalid_player : ℕ
invalid_player = 0

pub record Session : Type 0 where
  pub id : ℕ
  pub username : List ℕ
  pub endpoint : Endpoint
  pub last_seen_ms : ℕ
  pub has_state : Bool
  pub state_tick : ℕ
  pub position : Vec3
  pub rotation : ℕ

pub data JoinResult : Type 0 where
  accepted already_joined version_mismatch name_taken full : JoinResult

unfoldable pub join_text : JoinResult → List ℕ
join_text accepted = codes "accepted"
join_text already_joined = codes "already joined"
join_text version_mismatch = codes "protocol version mismatch"
join_text name_taken = codes "name already taken"
join_text full = codes "server full"

pub record SessionManager : Type 0 where
  pub max_players : ℕ
  pub timeout_ms : ℕ
  pub next_id : ℕ
  pub sessions : List Session

unfoldable pub new_manager : ℕ → ℕ → SessionManager
new_manager max_players timeout_ms = record {
  max_players = max_players;
  timeout_ms = timeout_ms;
  next_id = 1;
  sessions = [];
}

abbrev pub is_from : Endpoint → Session → Bool
is_from from s = eq_endpoint s.endpoint from

unfoldable pub find_endpoint : Endpoint → SessionManager → Option Session
find_endpoint from m = find_if (is_from from) m.sessions

unfoldable pub find_player : ℕ → SessionManager → Option Session
find_player id m = if id == invalid_player then none else find_if (λ s. s.id == id) m.sessions

abbrev pub seen_at : ℕ → Session → Session
seen_at now s = record s { last_seen_ms = now }

abbrev pub new_session : ℕ → List ℕ → Endpoint → ℕ → Session
new_session id username from now = record {
  id = id;
  username = username;
  endpoint = from;
  last_seen_ms = now;
  has_state = false;
  state_tick = 0;
  position = record { x = 0; y = 0; z = 0 };
  rotation = 0;
}

-- `username.empty() || username.size() > kMaxStringSize`.
abbrev pub bad_name : List ℕ → Bool
bad_name username = (length username == 0) || ltb max_string_size (length username)

abbrev pub name_in_use : List ℕ → SessionManager → Bool
name_in_use username m = any_of (λ s. eq_bytes s.username username) m.sessions

-- Join on a peer that has no session. The id is a uint32_t, and its increment wraps.
admit : Endpoint → List ℕ → ℕ → SessionManager → JoinResult × ℕ × SessionManager
admit from username now m =
    if bad_name username
    then (name_taken, invalid_player, m)
    else if name_in_use username m
    then (name_taken, invalid_player, m)
    else if leb m.max_players (length m.sessions)
    then (full, invalid_player, m)
    else (
      accepted,
      m.next_id,
      record m {
        next_id = (m.next_id + 1) % 2 ^ 32;
        sessions = m.sessions ++ (new_session m.next_id username from now ∷ []);
      },
    )

-- A peer that is known gets the id that it has.
welcome : Option Session → Endpoint → List ℕ → ℕ → SessionManager → JoinResult × ℕ × SessionManager
unfolding admit
welcome none from username now m = admit from username now m
welcome (some s) from username now m = (
  already_joined,
  s.id,
  record m { sessions = update_if (is_from from) (seen_at now) m.sessions },
)

unfoldable pub join : Endpoint → List ℕ → ℕ → ℕ → SessionManager → JoinResult × ℕ × SessionManager
unfolding welcome
join from username client_version now m =
    if not (client_version == version)
    then (version_mismatch, invalid_player, m)
    else welcome (find_endpoint from m) from username now m

-- Touch. A pointer that Find returned is written through at the first session of that endpoint.
unfoldable pub touch : Endpoint → ℕ → SessionManager → Bool × SessionManager
touch from now m = elim (find_endpoint from m) [
  | none ↦ (false, m)
  | some s ↦ (true, record m { sessions = update_if (is_from from) (seen_at now) m.sessions })
]

-- A clock that went backwards expires nobody.
abbrev pub expired : ℕ → ℕ → Session → Bool
expired timeout_ms now s = ltb s.last_seen_ms now && leb timeout_ms (now - s.last_seen_ms)

unfoldable pub take_next_timed_out : ℕ → SessionManager → Option Session × SessionManager
take_next_timed_out now m = elim (find_if (expired m.timeout_ms now) m.sessions) [
  | none ↦ (none, m)
  | some s ↦ (some s, record m { sessions = erase_if (expired m.timeout_ms now) m.sessions })
]

abbrev pub with_state : ℕ → Vec3 → ℕ → Session → Session
with_state tick position rotation s = record s {
  has_state = true;
  state_tick = tick;
  position = position;
  rotation = rotation;
}

-- `session->hasState && aTick <= session->stateTick`.
abbrev pub is_stale : ℕ → Session → Bool
is_stale tick s = s.has_state && leb tick s.state_tick

unfoldable pub apply_state : Endpoint → ℕ → Vec3 → ℕ → SessionManager → Bool × SessionManager
apply_state from tick position rotation m = elim (find_endpoint from m) [
  | none ↦ (false, m)
  | some s ↦ if is_stale tick s then (false, m) else (
    true,
    record m { sessions = update_if (is_from from) (with_state tick position rotation) m.sessions },
  )
]

unfoldable pub remove : ℕ → SessionManager → Bool × SessionManager
remove id m = elim (find_if (λ s. s.id == id) m.sessions) [
  | none ↦ (false, m)
  | some s ↦ (true, record m { sessions = erase_if (λ s. s.id == id) m.sessions })
]

unfoldable pub count : SessionManager → ℕ
count m = length m.sessions

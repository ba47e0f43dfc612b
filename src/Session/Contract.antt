-- ===== src/Session/Contract.antt =====
-- The contract of a SessionManager in terms of its players alone: who has a number, and how many
-- there are. The order of the sessions and the counter of the numbers are not part of it.
use cybermp.Base.{
  ℕ, ◌+◌, ◌≤◌, ◌<◌, ◌≡◌, ◌≢◌, ◌⊎◌, List, [], ◌∷◌, Bool, true, false, Option, none, some, ◌==◌,
  if◌then◌else◌, eq_bytes,
}
use cybermp.Proto.Header.{version}
use cybermp.Proto.Messages.{Vec3}
use cybermp.Session.{
  Endpoint, Session, SessionManager, JoinResult, accepted, already_joined, version_mismatch,
  name_taken, full, is_from, seen_at, new_session, with_state, is_stale, expired, bad_name,
  invalid_player, join, touch, take_next_timed_out, apply_state, remove, find_player, count,
}
use cybermp.Session.Histories.{Call, joins, touches, expires, applies, removes}

pub record View : Type 0 where
  pub players : ℕ → Option Session
  pub online : ℕ

unfoldable pub view : SessionManager → View
view m = record { players = λ id. find_player id m; online = count m }

-- What a call returns.
pub data Answer : Type 0 where
  joined : JoinResult → ℕ → Answer
  did : Bool → Answer
  took : Option Session → Answer

unfoldable pub answer : Call → SessionManager → Answer
answer (joins from username v now) m = let r = join from username v now m in joined r.0 r.1
answer (touches from now) m = did (touch from now m).0
answer (expires now) m = took (take_next_timed_out now m).0
answer (applies from tick position rotation) m = did (apply_state from tick position rotation m).0
answer (removes id) m = did (remove id m).0

abbrev pub has_name : List ℕ → Session → Bool
has_name username s = eq_bytes s.username username

abbrev pub Nobody : (Session → Bool) → View → Type 0
Nobody p v = (id : ℕ) (s : Session) → v.players id ≡ some s → p s ≡ false

abbrev pub Player : (Session → Bool) → View → Session → Type 0
Player p v s = (v.players s.id ≡ some s) × (p s ≡ true)

abbrev pub Same : View → View → Type 0
Same v w = ((id : ℕ) → w.players id ≡ v.players id) × (w.online ≡ v.online)

-- One number has another player, or none, and the others have what they had.
abbrev pub Sets : ℕ → Option Session → View → View → Type 0
Sets at o v w = (id : ℕ) → w.players id ≡ (if at == id then o else v.players id)

abbrev pub Rewrites : Session → Session → View → View → Type 0
Rewrites s t v w = Sets s.id (some t) v w × (w.online ≡ v.online)

abbrev pub Drops : Session → View → View → Type 0
Drops s v w = Sets s.id none v w × (v.online ≡ w.online + 1)

-- A call on the players v that leaves the players w. Which number a new player gets, and which of
-- several players that are timed out is taken, is left open.
pub data Step (max_players timeout_ms : ℕ) (v w : View) : Call → Answer → Type 0 where
  refuses_version :
      (from : Endpoint) (username : List ℕ) (client_version now : ℕ)
      → client_version ≢ version
      → Same v w
      → Step max_players timeout_ms v w
          (joins from username client_version now)
          (joined version_mismatch invalid_player)
  greets :
      (from : Endpoint) (username : List ℕ) (client_version now : ℕ) (s : Session)
      → client_version ≡ version
      → Player (is_from from) v s
      → Rewrites s (seen_at now s) v w
      → Step max_players timeout_ms v w
          (joins from username client_version now)
          (joined already_joined s.id)
  refuses_name :
      (from : Endpoint) (username : List ℕ) (client_version now : ℕ)
      → client_version ≡ version
      → Nobody (is_from from) v
      → (bad_name username ≡ true) ⊎ ((s : Session) × Player (has_name username) v s)
      → Same v w
      → Step max_players timeout_ms v w
          (joins from username client_version now)
          (joined name_taken invalid_player)
  refuses_more :
      (from : Endpoint) (username : List ℕ) (client_version now : ℕ)
      → client_version ≡ version
      → Nobody (is_from from) v
      → bad_name username ≡ false
      → Nobody (has_name username) v
      → max_players ≤ v.online
      → Same v w
      → Step max_players timeout_ms v w
          (joins from username client_version now)
          (joined full invalid_player)
  admits :
      (from : Endpoint) (username : List ℕ) (client_version now id : ℕ)
      → client_version ≡ version
      → Nobody (is_from from) v
      → bad_name username ≡ false
      → Nobody (has_name username) v
      → v.online < max_players
      → id ≢ invalid_player
      → v.players id ≡ none
      → Sets id (some (new_session id username from now)) v w
      → w.online ≡ v.online + 1
      → Step max_players timeout_ms v w
          (joins from username client_version now)
          (joined accepted id)
  touches_nobody :
      (from : Endpoint) (now : ℕ)
      → Nobody (is_from from) v
      → Same v w
      → Step max_players timeout_ms v w (touches from now) (did false)
  touches_player :
      (from : Endpoint) (now : ℕ) (s : Session)
      → Player (is_from from) v s
      → Rewrites s (seen_at now s) v w
      → Step max_players timeout_ms v w (touches from now) (did true)
  expires_nobody :
      (now : ℕ)
      → Nobody (expired timeout_ms now) v
      → Same v w
      → Step max_players timeout_ms v w (expires now) (took none)
  expires_player :
      (now : ℕ) (s : Session)
      → Player (expired timeout_ms now) v s
      → Drops s v w
      → Step max_players timeout_ms v w (expires now) (took (some s))
  applies_nobody :
      (from : Endpoint) (tick : ℕ) (position : Vec3) (rotation : ℕ)
      → Nobody (is_from from) v
      → Same v w
      → Step max_players timeout_ms v w (applies from tick position rotation) (did false)
  applies_stale :
      (from : Endpoint) (tick : ℕ) (position : Vec3) (rotation : ℕ) (s : Session)
      → Player (is_from from) v s
      → is_stale tick s ≡ true
      → Same v w
      → Step max_players timeout_ms v w (applies from tick position rotation) (did false)
  applies_fresh :
      (from : Endpoint) (tick : ℕ) (position : Vec3) (rotation : ℕ) (s : Session)
      → Player (is_from from) v s
      → is_stale tick s ≡ false
      → Rewrites s (with_state tick position rotation s) v w
      → Step max_players timeout_ms v w (applies from tick position rotation) (did true)
  removes_nobody :
      (id : ℕ)
      → v.players id ≡ none
      → Same v w
      → Step max_players timeout_ms v w (removes id) (did false)
  removes_player :
      (id : ℕ) (s : Session)
      → Player (λ x. x.id == id) v s
      → Drops s v w
      → Step max_players timeout_ms v w (removes id) (did true)

pub data Steps (max_players timeout_ms : ℕ) : View → List Call → List Answer → View → Type 0 where
  halt : (v : View) → Steps max_players timeout_ms v [] [] v
  then_call :
      (u v w : View) (c : Call) (cs : List Call) (a : Answer) (rs : List Answer)
      → Step max_players timeout_ms u v c a
      → Steps max_players timeout_ms v cs rs w
      → Steps max_players timeout_ms u (c ∷ cs) (a ∷ rs) w

-- ===== src/Script.antt =====
-- src/server/Script.hpp, ScriptHost.hpp and ScriptHost.cpp: events for the scripting backends, and
-- what these may ask of the server. A backend is an interface: `Backend B` has a function for each
-- virtual method, over the state `B` of one backend. What a method asks of its host is listed in
-- order; the players that it can see are the sessions of the moment.
pub mod Kicks
pub mod Backends
pub mod Log
pub mod Lines
use cybermp.Base.{ℕ, List, [], ◌∷◌, ◌++◌, Bool, true, false, Option, none, some, length, codes, map}
use cybermp.Session.{Session, SessionManager, find_player, count}

-- ILogger::Info, Warn and Error, and IPlayer::Kick on the player that IPlayers::Find returns.
pub data Request : Type 0 where
  info warn error : List ℕ → Request
  kick : ℕ → List ℕ → Request

pub record Backend (B : Type 0) : Type 0 where
  pub start : SessionManager → B → Bool × B × List Request
  pub stop : B → B × List Request
  pub on_player_join : SessionManager → ℕ → B → B × List Request
  pub on_player_leave : SessionManager → ℕ → B → B × List Request
  pub on_tick : SessionManager → ℕ → B → B × List Request

pub record PendingKick : Type 0 where
  pub player_id : ℕ
  pub reason : List ℕ

pub record ScriptHost (B : Type 0) : Type 0 where
  pub backends : List B
  pub kicks : List PendingKick
  pub log_lines : List (List ℕ)

abbrev pub new_host : {B : Type 0} → ScriptHost B
new_host = record { backends = []; kicks = []; log_lines = [] }

-- Players::Ids.
pub player_ids : SessionManager → List ℕ
player_ids m = map (λ s. s.id) m.sessions

module _ {B : Type 0} where
  -- Logger_::Emit.
  emit : List ℕ → List ℕ → ScriptHost B → ScriptHost B
  emit level message h = record h {
    log_lines = h.log_lines ++ ((codes "[script:" ++ (level ++ (codes "] " ++ message))) ∷ []);
  }

  -- PlayerView::Kick queues the id of the session behind the view; a player that is not found
  -- has no view.
  queue_kick : Option Session → List ℕ → ScriptHost B → ScriptHost B
  queue_kick none reason h = h
  queue_kick (some s) reason h = record h {
    kicks = h.kicks ++ (record { player_id = s.id; reason = reason } ∷ []);
  }

  unfoldable pub perform : SessionManager → Request → ScriptHost B → ScriptHost B
  unfolding emit queue_kick
  perform m (info message) h = emit (codes "info") message h
  perform m (warn message) h = emit (codes "warn") message h
  perform m (error message) h = emit (codes "error") message h
  perform m (kick id reason) h = queue_kick (find_player id m) reason h

  unfoldable pub perform_all : SessionManager → List Request → ScriptHost B → ScriptHost B
  unfolding perform
  perform_all m [] h = h
  perform_all m (r ∷ rs) h = perform_all m rs (perform m r h)

  unfoldable pub keep_backend : B → ScriptHost B → ScriptHost B
  keep_backend b h = record h { backends = h.backends ++ (b ∷ []) }

  -- A call of one method on every backend in turn.
  unfoldable pub visit :
      SessionManager → (B → B × List Request) → List B → ScriptHost B → ScriptHost B
  unfolding perform_all keep_backend
  visit m method [] h = h
  visit m method (b ∷ bs) h =
      let (b', requests) = method b in
      visit m method bs (keep_backend b' (perform_all m requests h))

  unfoldable pub each : SessionManager → (B → B × List Request) → ScriptHost B → ScriptHost B
  unfolding visit
  each m method h = visit m method h.backends (record h { backends = [] })

  unfoldable pub add : Option B → ScriptHost B → ScriptHost B
  unfolding keep_backend
  add none h = h
  add (some b) h = keep_backend b h

  unfoldable pub take_kicks : ScriptHost B → List PendingKick × ScriptHost B
  take_kicks h = (h.kicks, record h { kicks = [] })

module _ {B : Type 0} (api : Backend B) where
  started : SessionManager → Bool × B × List Request → ScriptHost B → ScriptHost B
  unfolding perform_all keep_backend
  started m (true, b, requests) h = keep_backend b (perform_all m requests h)
  started m (false, b, requests) h = perform_all m requests h

  -- A backend that fails to start is erased.
  start_each : SessionManager → List B → ScriptHost B → ScriptHost B
  unfolding started
  start_each m [] h = h
  start_each m (b ∷ bs) h = start_each m bs (started m (api.start m b) h)

  unfoldable pub start_all : SessionManager → ScriptHost B → ℕ × ScriptHost B
  unfolding start_each
  start_all m h =
      let h' = start_each m h.backends (record h { backends = [] }) in (length h'.backends, h')

  unfoldable pub stop_all : SessionManager → ScriptHost B → ScriptHost B
  unfolding each
  stop_all m h = record (each m api.stop h) { backends = [] }

  unfoldable pub on_player_join : SessionManager → ℕ → ScriptHost B → ScriptHost B
  unfolding each
  on_player_join m id h = each m (api.on_player_join m id) h

  unfoldable pub on_player_leave : SessionManager → ℕ → ScriptHost B → ScriptHost B
  unfolding each
  on_player_leave m id h = each m (api.on_player_leave m id) h

  unfoldable pub on_tick : SessionManager → ℕ → ScriptHost B → ScriptHost B
  unfolding each
  on_tick m now h = each m (api.on_tick m now) h

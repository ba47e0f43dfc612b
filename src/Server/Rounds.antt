-- ===== src/Server/Rounds.antt =====
-- Rounds of the loop in main.cpp.
use cybermp.Base.{
  ℕ, zero, suc, ◌+◌, ◌^◌, ◌<◌, ◌≡◌, refl, ap, ◌∙◌, List, [], ◌∷◌, Option, none, some, arith, length,
}
use cybermp.Session.{
  Endpoint, Session, SessionManager, take_next_timed_out, remove, find_player, new_manager,
}
use cybermp.Session.Invariant.{IsValid, new_manager-IsValid}
use cybermp.Session.Timeouts.{take_all, take_all_lem, unexpired, after_take}
use cybermp.Script.{Backend, ScriptHost, PendingKick, take_kicks, on_tick}
use cybermp.Server.{
  Server, announce_leave, drop_next, drop_expired, do_kick, do_kicks, drain_kicks, housekeeping,
  round,
}
use cybermp.Server.Steps.{
  Steps, Steps-same, Steps-then, take_next-Steps, remove-Steps, receive-Steps,
  sessions-announce_leave,
}

module _ {B : Type 0} (api : Backend B) where
  sessions-drop_next :
      (again : Server B → Server B) (o : Option Session × SessionManager) (srv : Server B)
      → ((t : Server B) → Steps 0 t.sessions (again t).sessions)
      → Steps 0 o.1 (drop_next api again o srv).sessions
  unfolding drop_next
  sessions-drop_next again (none, m) srv h = Steps-same refl
  sessions-drop_next again (some s, m) srv h =
      Steps-then (Steps-same (sessions-announce_leave api s.id (record srv { sessions = m }))) (h _)

  drop_expired-Steps :
      (fuel now : ℕ) (srv : Server B)
      → Steps 0 srv.sessions (drop_expired api fuel now srv).sessions
  unfolding drop_expired
  drop_expired-Steps zero now srv = Steps-same refl
  drop_expired-Steps (suc fuel) now srv = Steps-then (take_next-Steps now srv.sessions) (
      sessions-drop_next (drop_expired api fuel now) (take_next_timed_out now srv.sessions) srv
        (drop_expired-Steps fuel now))

  pub do_kick-Steps :
      (id : ℕ) (o : Option Session) (srv : Server B)
      → Steps 0 srv.sessions (do_kick api id o srv).sessions
  unfolding do_kick
  do_kick-Steps id none srv = Steps-same refl
  do_kick-Steps id (some s) srv = Steps-then (remove-Steps id srv.sessions) (
      Steps-same
        (sessions-announce_leave api id (record srv { sessions = (remove id srv.sessions).1 })))

  do_kicks-Steps :
      (ks : List PendingKick) (srv : Server B) → Steps 0 srv.sessions (do_kicks api ks srv).sessions
  unfolding do_kicks
  do_kicks-Steps [] srv = Steps-same refl
  do_kicks-Steps (k ∷ ks) srv =
      Steps-then (do_kick-Steps k.player_id (find_player k.player_id srv.sessions) srv)
        (do_kicks-Steps ks _)

  drain_kicks-Steps : (srv : Server B) → Steps 0 srv.sessions (drain_kicks api srv).sessions
  unfolding drain_kicks
  drain_kicks-Steps srv =
      let (kicks, scripts) = take_kicks srv.scripts in
      do_kicks-Steps kicks (record srv { scripts = scripts })

  housekeeping-Steps :
      (now : ℕ) (srv : Server B) → Steps 0 srv.sessions (housekeeping api now srv).sessions
  unfolding housekeeping
  housekeeping-Steps now srv =
      let kept = drop_expired api (length srv.sessions.sessions) now srv in
      Steps-then (drop_expired-Steps (length srv.sessions.sessions) now srv)
        (drain_kicks-Steps (record kept { scripts = on_tick api kept.sessions now kept.scripts }))

  round-Steps :
      (now : ℕ) (received : Option (Endpoint × List ℕ)) (srv : Server B)
      → Steps 1 srv.sessions (round api now received srv).sessions
  unfolding round
  round-Steps now received srv =
      Steps-then (housekeeping-Steps now srv)
        (receive-Steps api now received (housekeeping api now srv))

  -- The loop, one round for each time and what RecvFrom returned.
  unfoldable pub rounds : List (ℕ × Option (Endpoint × List ℕ)) → Server B → Server B
  rounds [] srv = srv
  rounds ((now, received) ∷ rest) srv = rounds rest (round api now received srv)

  rounds_from-IsValid :
      (inputs : List (ℕ × Option (Endpoint × List ℕ))) (srv : Server B)
      → IsValid srv.sessions
      → srv.sessions.next_id + length inputs < 2 ^ 32
      → IsValid (rounds inputs srv).sessions
  unfolding rounds
  rounds_from-IsValid [] srv v h = v
  rounds_from-IsValid ((now, received) ∷ rest) srv v h =
      let step = round-Steps now received srv in
      rounds_from-IsValid rest (round api now received srv) (step.valid v (omega arith))
        (omega (arith, step.given))

  -- From no sessions, with any scripts, through any rounds (any clock, any datagrams) whose number
  -- plus one is below 2^32: the sessions are within the limit, with usable names, ids from 1 below
  -- the next one, and no two with the same id, endpoint or name.
  pub rounds-IsValid :
      (max_players timeout_ms : ℕ) (scripts : ScriptHost B)
      (inputs : List (ℕ × Option (Endpoint × List ℕ)))
      → 1 + length inputs < 2 ^ 32
      → IsValid
          (rounds inputs (record {
            sessions = new_manager max_players timeout_ms;
            scripts = scripts;
            sent = [];
            rejected = 0;
          })).sessions
  unfolding new_manager
  rounds-IsValid max_players timeout_ms scripts inputs h =
      rounds_from-IsValid inputs _ (new_manager-IsValid max_players timeout_ms) h

  same_next :
      (again : Server B → Server B) (fuel now : ℕ) (o : Option Session × SessionManager)
      (srv : Server B)
      → ((t : Server B) → (again t).sessions ≡ (take_all now fuel t.sessions).1)
      → (drop_next api again o srv).sessions ≡ (after_take now (take_all now fuel) o).1
  unfolding drop_next after_take
  same_next again fuel now (none, m) srv h = refl
  same_next again fuel now (some s, m) srv h =
      let there : Server B = record srv { sessions = m } in
      h (announce_leave api s.id there)
      ∙ ap (λ n. (take_all now fuel n).1) (sessions-announce_leave api s.id there)

  sessions-drop_expired :
      (fuel now : ℕ) (srv : Server B)
      → (drop_expired api fuel now srv).sessions ≡ (take_all now fuel srv.sessions).1
  unfolding drop_expired take_all
  sessions-drop_expired zero now srv = refl
  sessions-drop_expired (suc fuel) now srv =
      same_next (drop_expired api fuel now) fuel now (take_next_timed_out now srv.sessions) srv
        (sessions-drop_expired fuel now)

  -- The loop over timed out peers, with as many rounds as there are sessions, leaves exactly the
  -- sessions that are not overdue, and TakeNextTimedOut then finds nobody.
  pub drop_expired_lem :
      (now : ℕ) (srv : Server B)
      → let kept = (drop_expired api (length srv.sessions.sessions) now srv).sessions in
        (kept ≡ unexpired now srv.sessions) × (take_next_timed_out now kept ≡ (none, kept))
  drop_expired_lem now srv =
      let n = length srv.sessions.sessions in
      let (all, done) = take_all_lem now n srv.sessions (omega arith) in
      let left = sessions-drop_expired n now srv ∙ ap (λ o. o.1) all in (left, rw left done)

-- ===== src/Session/Snapshots.antt =====
-- SessionManager::ApplyState and Touch.
use mathlib.Core.Path.{subst}
use mathlib.Core.Option
use cybermp.Base.{
  ℕ, ◌≤◌, ◌<◌, ◌≡◌, refl, ap, ◌∙◌, Bool, true, false, some, arith, find_if-update_if,
  find_if-update_ne, update_if, Bool-cases, Option-cases, inl, inr, ◌⊎◌,
}
use cybermp.Proto.Messages.{Vec3}
use cybermp.Session.{
  Endpoint, Session, SessionManager, find_endpoint, is_from, eq_endpoint, apply_state, with_state,
  is_stale,
}

eq_endpoint_ne :
    (e a b : Endpoint) → eq_endpoint a b ≡ false → eq_endpoint e a ≡ true → eq_endpoint e b ≡ false
unfolding eq_endpoint
eq_endpoint_ne e a b h k = ground arith

module _ (m : SessionManager) (from : Endpoint) (f : Session → Session) where
  abbrev written : SessionManager
  written = record m { sessions = update_if (is_from from) f m.sessions }

  pub find_written :
      ((s : Session) → (f s).endpoint ≡ s.endpoint)
      → find_endpoint from written ≡ Option.map f (find_endpoint from m)
  unfolding find_endpoint
  find_written k =
      find_if-update_if (is_from from) f m.sessions (λ s. ap (λ e. eq_endpoint e from) (k s))

  pub find_unwritten :
      (other : Endpoint)
      → eq_endpoint from other ≡ false
      → ((s : Session) → (f s).endpoint ≡ s.endpoint)
      → find_endpoint other written ≡ find_endpoint other m
  unfolding find_endpoint
  find_unwritten other apart k =
      find_if-update_ne (is_from from) (is_from other) f m.sessions λ s hit.
        let miss = eq_endpoint_ne s.endpoint from other apart hit in
        (miss, ap (λ e. eq_endpoint e other) (k s) ∙ miss)

stale_facts :
    (tick : ℕ) (s s' : Session)
    → s ≡ s'
    → is_stale tick s ≡ true
    → (s'.has_state ≡ true) × (tick ≤ s'.state_tick)
stale_facts tick s s' e h =
    subst (λ x. (x.has_state ≡ true) × (tick ≤ x.state_tick)) e (ground arith)

fresh_facts :
    (tick : ℕ) (s : Session)
    → is_stale tick s ≡ false
    → (s.has_state ≡ false) ⊎ (s.state_tick < tick)
fresh_facts tick s h = ground arith

module _ (m : SessionManager) (from : Endpoint) (tick : ℕ) (position : Vec3) (rotation : ℕ) where
  abbrev applied : Bool × SessionManager
  applied = apply_state from tick position rotation m

  -- Either the sender has a session, without a state or with an older one, ApplyState returns true
  -- and the sender's session holds the new state; or it returns false, nothing changes, and if the
  -- sender has a session, this has a state that is no older.
  pub apply_state_lem :
      ((s : Session) × (find_endpoint from m ≡ some s)
        × ((s.has_state ≡ false) ⊎ (s.state_tick < tick))
        × (applied.0 ≡ true)
        × (find_endpoint from applied.1 ≡ some (with_state tick position rotation s)))
      ⊎ ((applied.0 ≡ false)
          × (applied.1 ≡ m)
          × ((s : Session)
              → find_endpoint from m ≡ some s
              → (s.has_state ≡ true) × (tick ≤ s.state_tick)))
  unfolding apply_state
  apply_state_lem = elim (Option-cases (find_endpoint from m)) [
    | inl e ↦ inr (rw (e, apply_state), rw (e, apply_state), λ s k. cc)
    | inr (s, e) ↦ elim (Bool-cases (is_stale tick s)) [
      | inl old ↦ inr (
        rw (e, old, apply_state),
        rw (e, old, apply_state),
        λ s' k. stale_facts tick s s' (cc) old,
      )
      | inr fresh ↦ inl (
        s,
        e,
        fresh_facts tick s fresh,
        rw (e, fresh, apply_state),
        rw (e, fresh, apply_state)
            (find_written m from (with_state tick position rotation) (λ x. refl) ∙ rw e),
      )
    ]
  ]

  -- Nobody else's session changes.
  pub apply_state_other :
      (other : Endpoint)
      → eq_endpoint from other ≡ false
      → find_endpoint other applied.1 ≡ find_endpoint other m
  unfolding apply_state
  apply_state_other other h =
      ground (arith, find_unwritten m from (with_state tick position rotation) other h (λ x. refl))

eq_endpoint→eq : (a b : Endpoint) → eq_endpoint a b ≡ true → a ≡ b
unfolding eq_endpoint
eq_endpoint→eq a b h = ground arith

-- The session after, of one that was there before: the same player, and no older a snapshot.
pub record Later (m' : SessionManager) (from : Endpoint) (s s' : Session) : Type 0 where
  pub found : find_endpoint from m' ≡ some s'
  pub same : s'.id ≡ s.id
  pub kept : s.has_state ≡ true → (s'.has_state ≡ true) × (s.state_tick ≤ s'.state_tick)

own_snapshot :
    (m : SessionManager) (from : Endpoint) (tick : ℕ) (position : Vec3) (rotation : ℕ) (s : Session)
    → find_endpoint from m ≡ some s
    → (s' : Session) × Later (apply_state from tick position rotation m).1 from s s'
own_snapshot m from tick position rotation s e =
    elim (apply_state_lem m from tick position rotation) [
      | inl (s0, e0, fresh, done, found) ↦
          let same : s0 ≡ s = cc in
          (
            with_state tick position rotation s,
            record { found = rw same at found; same = refl; kept = λ h. newer s0 same fresh h },
          )
      | inr (refused, unchanged, _) ↦
          (s, record { found = rw unchanged e; same = refl; kept = λ h. (h, omega arith) })
    ]
  where
    newer :
        (s0 : Session)
        → s0 ≡ s
        → (s0.has_state ≡ false) ⊎ (s0.state_tick < tick)
        → s.has_state ≡ true
        → (◌≡◌ {A = Bool} true true) × (s.state_tick ≤ tick)
    newer s0 same fresh h = (refl, ground (arith, same, fresh, h))

-- Of a peer with a session, ApplyState on whatever sender and state leaves a session with the same
-- number, and if it had a state, it has one that is no older.
pub apply_state_monotone :
    (m : SessionManager) (from other : Endpoint) (tick : ℕ) (position : Vec3) (rotation : ℕ)
    (s : Session)
    → find_endpoint other m ≡ some s
    → (s' : Session) × Later (apply_state from tick position rotation m).1 other s s'
apply_state_monotone m from other tick position rotation s e =
    elim (Bool-cases (eq_endpoint from other)) [
      | inl h ↦
          let same : from ≡ other = eq_endpoint→eq from other h in
          rw same (own_snapshot m other tick position rotation s e)
      | inr h ↦ (
        s,
        record {
          found = apply_state_other m from tick position rotation other h ∙ e;
          same = refl;
          kept = λ k. (k, omega arith);
        },
      )
    ]

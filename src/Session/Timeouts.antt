-- ===== src/Session/Timeouts.antt =====
-- SessionManager::TakeNextTimedOut, called until it comes back empty.
use cybermp.Base.{
  ℕ, zero, suc, ◌≤◌, ◌≡◌, List, [], ◌∷◌, Option, none, some, length, arith, find_if, erase_if,
  filter_by, keep, filter-find_if, filter-none, none-find_if, All-keep, length-erase_if,
  Option-cases, inl, inr,
}
use cybermp.Session.{Session, SessionManager, take_next_timed_out, expired}

module _ (now : ℕ) where
  pub take_next_some :
      (m : SessionManager) (s : Session)
      → find_if (expired m.timeout_ms now) m.sessions ≡ some s
      → take_next_timed_out now m
        ≡ (some s, record m { sessions = erase_if (expired m.timeout_ms now) m.sessions })
  unfolding take_next_timed_out
  take_next_some m s e = rw (e, take_next_timed_out)

  pub take_next_none :
      (m : SessionManager)
      → find_if (expired m.timeout_ms now) m.sessions ≡ none
      → take_next_timed_out now m ≡ (none, m)
  unfolding take_next_timed_out
  take_next_none m e = rw (e, take_next_timed_out)

  -- `while (dropped = TakeNextTimedOut(now))`, with a bound on its rounds.
  unfoldable pub after_take :
      (SessionManager → List Session × SessionManager)
      → Option Session × SessionManager
      → List Session × SessionManager
  after_take again (none, m) = ([], m)
  after_take again (some s, m) = let (ss, m') = again m in (s ∷ ss, m')

  unfoldable pub take_all : ℕ → SessionManager → List Session × SessionManager
  unfolding after_take
  take_all zero m = ([], m)
  take_all (suc fuel) m = after_take (take_all fuel) (take_next_timed_out now m)

  abbrev pub overdue : SessionManager → List Session
  overdue m = filter_by (expired m.timeout_ms now) m.sessions

  -- The manager without its expired sessions.
  abbrev pub unexpired : SessionManager → SessionManager
  unexpired m = record m { sessions = keep (expired m.timeout_ms now) m.sessions }

  no_overdue :
      (m : SessionManager)
      → find_if (expired m.timeout_ms now) m.sessions ≡ none
      → ◌≡◌ {A = List Session × SessionManager} ([], m) (overdue m, unexpired m)
  no_overdue m e =
      let (gone, left) = filter-none (expired m.timeout_ms now) m.sessions e in
      ground (arith, gone, left)

  one_round :
      (fuel : ℕ) (m : SessionManager) (s : Session)
      → find_if (expired m.timeout_ms now) m.sessions ≡ some s
      → let n = record m { sessions = erase_if (expired m.timeout_ms now) m.sessions } in
        take_all fuel n ≡ (overdue n, unexpired n)
        → take_all (suc fuel) m ≡ (overdue m, unexpired m)
  unfolding take_all
  one_round fuel m s e ih =
      let (gone, left) = filter-find_if (expired m.timeout_ms now) m.sessions s e in
      rw (take_next_some m s e, ih, gone, left)

  rounds :
      (fuel : ℕ) (m : SessionManager)
      → length m.sessions ≤ fuel
      → take_all fuel m ≡ (overdue m, unexpired m)
  unfolding take_all
  rounds zero m h = elim (Option-cases (find_if (expired m.timeout_ms now) m.sessions)) [
    | inl e ↦ no_overdue m e
    | inr (s, e) ↦ absurd (omega (arith, length-erase_if _ m.sessions s e))
  ]
  rounds (suc fuel) m h = elim (Option-cases (find_if (expired m.timeout_ms now) m.sessions)) [
    | inl e ↦ rw (take_next_none m e) (no_overdue m e)
    | inr (s, e) ↦
        one_round fuel m s e (rounds fuel _ (omega (arith, length-erase_if _ m.sessions s e)))
  ]

  -- TakeNextTimedOut, called until it returns nothing or as often as there are sessions (or more),
  -- returns exactly the overdue sessions in their order and leaves the others in theirs; then it
  -- returns nothing.
  pub take_all_lem :
      (fuel : ℕ) (m : SessionManager)
      → length m.sessions ≤ fuel
      → (take_all fuel m ≡ (overdue m, unexpired m))
        × (take_next_timed_out now (unexpired m) ≡ (none, unexpired m))
  take_all_lem fuel m h =
      (rounds fuel m h, take_next_none (unexpired m) (none-find_if _ _ (All-keep _ m.sessions)))

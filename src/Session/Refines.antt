-- ===== src/Session/Refines.antt =====
-- The methods of SessionManager against its contract.
use cybermp.Base.{
  ==→eq, ◌∙◌, ℕ, ◌+◌, ◌^◌, ◌<◌, ◌≡◌, List, [], ◌∷◌, none, some, ◌==◌, arith, length, find_if,
  update_if, find_if-none, any_of-false, leb, Bool-cases, Option-cases, inl, inr, refl,
}
use mathlib.Core.Path.{subst}
use cybermp.Proto.Header.{version}
use cybermp.Proto.Messages.{Vec3}
use cybermp.Session.{
  Endpoint, Session, SessionManager, find_player, count, new_manager, is_from, seen_at, with_state,
  is_stale, expired, find_endpoint, join, admit, touch, take_next_timed_out, apply_state, remove,
  bad_name, name_in_use, welcome,
}
use cybermp.Session.Invariant.{IsValid, new_manager-IsValid}
use cybermp.Session.Histories.{
  Call, joins, touches, expires, applies, removes, call, calls, next_id-call, call-IsValid,
}
use cybermp.Session.Contract.{
  view, Answer, answer, Nobody, Player, Rewrites, Step, Steps, has_name, joined, did, took,
  refuses_version, greets, refuses_name, refuses_more, admits, touches_nobody, touches_player,
  expires_nobody, expires_player, applies_nobody, applies_stale, applies_fresh, removes_nobody,
  removes_player, halt, then_call,
}
use cybermp.Session.Players.{with_id, find_if-any_of}
use cybermp.Session.Moves.{
  find_if-Player, find_if-Nobody, update_if-Rewrites, erase_if-Drops, Same-refl, grown_view,
}

module _ (m : SessionManager) (v : IsValid m) where
  admit-Step :
      (from : Endpoint) (username : List ℕ) (client_version now : ℕ)
      → client_version ≡ version
      → find_endpoint from m ≡ none
      → let r = admit from username now m in
        Step m.max_players m.timeout_ms
          (view m)
          (view r.2)
          (joins from username client_version now)
          (joined r.0 r.1)
  unfolding admit find_endpoint
  admit-Step from username client_version now same unknown =
      let nobody =
        find_if-Nobody m v (is_from from) (find_if-none (is_from from) m.sessions unknown) in
      elim (Bool-cases (bad_name username)) [
        | inl bad ↦
            rw bad
              (refuses_name from username client_version now same nobody (inl bad) (Same-refl m v))
        | inr good ↦ elim (Bool-cases (name_in_use username m)) [
          | inl used ↦
              let (s, found) = find_if-any_of (has_name username) m.sessions used in
              rw (good, used)
                (refuses_name from username client_version now same nobody
                  (inr (s, find_if-Player m v (has_name username) s found)) (Same-refl m v))
          | inr unused ↦
              let nameless =
                find_if-Nobody m v (has_name username)
                  (any_of-false (has_name username) m.sessions unused) in
              elim (Bool-cases (leb m.max_players (length m.sessions))) [
                | inl crowded ↦
                    rw (good, unused, crowded)
                      (refuses_more from username client_version now same nobody good nameless
                        (unfold view count in ground arith) (Same-refl m v))
                | inr room ↦
                    let (free, set, more) = grown_view m v from username now in
                    rw (good, unused, room)
                      (admits from username client_version now m.next_id same nobody good nameless
                        (unfold view count in ground arith) (omega (arith, v.started)) free set
                        more)
              ]
        ]
      ]

  -- A method that looks a peer up by its endpoint, and finds none or one.
  unknown_peer : (from : Endpoint) → find_endpoint from m ≡ none → Nobody (is_from from) (view m)
  unfolding find_endpoint
  unknown_peer from e = find_if-Nobody m v (is_from from) (find_if-none (is_from from) m.sessions e)

  known_peer :
      (from : Endpoint) (s : Session)
      → find_endpoint from m ≡ some s
      → Player (is_from from) (view m) s
  unfolding find_endpoint
  known_peer from s e = find_if-Player m v (is_from from) s e

  known-Rewrites :
      (from : Endpoint) (f : Session → Session) (s : Session)
      → ((x : Session) → (f x).id ≡ x.id)
      → find_endpoint from m ≡ some s
      → Rewrites s
          (f s)
          (view m)
          (view (record m { sessions = update_if (is_from from) f m.sessions }))
  unfolding find_endpoint
  known-Rewrites from f s k e = update_if-Rewrites m v (is_from from) f s k e

  abbrev Refined : Call → Answer → SessionManager → Type 0
  Refined c a w = Step m.max_players m.timeout_ms (view m) (view w) c a

  join-Refined :
      (from : Endpoint) (username : List ℕ) (client_version now : ℕ)
      → let r = join from username client_version now m in
        Refined (joins from username client_version now) (joined r.0 r.1) r.2
  unfolding join welcome
  join-Refined from username client_version now = elim (Bool-cases (client_version == version)) [
    | inr other ↦
        rw other (refuses_version from username client_version now (ground arith) (Same-refl m v))
    | inl same ↦
        let same_version = ==→eq client_version version same in
        elim (Option-cases (find_endpoint from m)) [
          | inl e ↦ rw (same, e) (admit-Step from username client_version now same_version e)
          | inr (s, e) ↦
              rw (same, e)
                (greets from username client_version now s same_version (known_peer from s e)
                  (known-Rewrites from (seen_at now) s (λ x. refl) e))
        ]
  ]

  touch-Refined :
      (from : Endpoint) (now : ℕ)
      → let r = touch from now m in Refined (touches from now) (did r.0) r.1
  unfolding touch
  touch-Refined from now = elim (Option-cases (find_endpoint from m)) [
    | inl e ↦ rw (e, touch) (touches_nobody from now (unknown_peer from e) (Same-refl m v))
    | inr (s, e) ↦
        rw (e, touch)
          (touches_player from now s (known_peer from s e)
            (known-Rewrites from (seen_at now) s (λ x. refl) e))
  ]

  expire-Refined :
      (now : ℕ) → let r = take_next_timed_out now m in Refined (expires now) (took r.0) r.1
  unfolding take_next_timed_out
  expire-Refined now =
      let p = expired m.timeout_ms now in
      elim (Option-cases (find_if p m.sessions)) [
        | inl e ↦
            rw (e, take_next_timed_out)
              (expires_nobody now (find_if-Nobody m v p (find_if-none p m.sessions e))
                (Same-refl m v))
        | inr (s, e) ↦
            rw (e, take_next_timed_out)
              (expires_player now s (find_if-Player m v p s e) (erase_if-Drops m v p s e))
      ]

  apply-Refined :
      (from : Endpoint) (tick : ℕ) (position : Vec3) (rotation : ℕ)
      → let r = apply_state from tick position rotation m in
        Refined (applies from tick position rotation) (did r.0) r.1
  unfolding apply_state
  apply-Refined from tick position rotation = elim (Option-cases (find_endpoint from m)) [
    | inl e ↦
        rw (e, apply_state)
          (applies_nobody from tick position rotation (unknown_peer from e) (Same-refl m v))
    | inr (s, e) ↦ elim (Bool-cases (is_stale tick s)) [
      | inl old ↦
          rw (e, old, apply_state)
            (applies_stale from tick position rotation s (known_peer from s e) old (Same-refl m v))
      | inr fresh ↦
          rw (e, fresh, apply_state)
            (applies_fresh from tick position rotation s (known_peer from s e) fresh
              (known-Rewrites from (with_state tick position rotation) s (λ x. refl) e))
    ]
  ]

  remove-Refined : (id : ℕ) → let r = remove id m in Refined (removes id) (did r.0) r.1
  unfolding remove
  remove-Refined id = elim (Option-cases (find_if (with_id id) m.sessions)) [
    | inl e ↦
        rw (e, remove)
          (removes_nobody id (unfold view find_player in ground (arith, e)) (Same-refl m v))
    | inr (s, e) ↦
        rw (e, remove)
          (removes_player id s (find_if-Player m v (with_id id) s e)
            (erase_if-Drops m v (with_id id) s e))
  ]

  call-Refined : (c : Call) → Refined c (answer c m) (call c m)
  unfolding call answer
  call-Refined (joins from username client_version now) =
      join-Refined from username client_version now
  call-Refined (touches from now) = touch-Refined from now
  call-Refined (expires now) = expire-Refined now
  call-Refined (applies from tick position rotation) = apply-Refined from tick position rotation
  call-Refined (removes id) = remove-Refined id

limits-call :
    (c : Call) (m : SessionManager)
    → ((call c m).max_players ≡ m.max_players) × ((call c m).timeout_ms ≡ m.timeout_ms)
unfolding call join touch take_next_timed_out apply_state remove
limits-call (joins from username v now) m = ground arith
limits-call (touches from now) m = ground arith
limits-call (expires now) m = ground arith
limits-call (applies from tick position rotation) m = ground arith
limits-call (removes id) m = ground arith

unfoldable pub answers : List Call → SessionManager → List Answer
answers [] m = []
answers (c ∷ cs) m = answer c m ∷ answers cs (call c m)

calls_refine :
    (max_players timeout_ms : ℕ) (cs : List Call) (m : SessionManager)
    → m.max_players ≡ max_players
    → m.timeout_ms ≡ timeout_ms
    → IsValid m
    → m.next_id + length cs < 2 ^ 32
    → Steps max_players timeout_ms (view m) cs (answers cs m) (view (calls cs m))
unfolding calls answers
calls_refine max_players timeout_ms [] m p t v fits = halt (view m)
calls_refine max_players timeout_ms (c ∷ cs) m p t v fits =
    let (kept_players, kept_timeout) = limits-call c m in
    let first : Step max_players timeout_ms (view m) (view (call c m)) c (answer c m) =
      subst (λ n. Step n timeout_ms (view m) (view (call c m)) c (answer c m)) p
        (subst (λ n. Step m.max_players n (view m) (view (call c m)) c (answer c m)) t
          (call-Refined m v c)) in
    then_call (view m) (view (call c m)) (view (calls cs (call c m))) c cs (answer c m)
      (answers cs (call c m)) first
      (calls_refine max_players timeout_ms cs (call c m) (kept_players ∙ p) (kept_timeout ∙ t)
        (call-IsValid c m v (omega arith)) (omega (arith, next_id-call c m)))

-- From a new manager, any calls of Join, Touch, TakeNextTimedOut, ApplyState and Remove whose
-- number plus one is below 2^32, with what they return, are a run of the contract: each call is
-- one of its steps on the players that FindPlayer finds and on their count, with the manager's
-- limit and timeout, starting at the new manager's view and ending at the last one's.
pub history_refines :
    (max_players timeout_ms : ℕ) (cs : List Call)
    → 1 + length cs < 2 ^ 32
    → let m = new_manager max_players timeout_ms in
      Steps max_players timeout_ms (view m) cs (answers cs m) (view (calls cs m))
history_refines max_players timeout_ms cs fits =
    let m = new_manager max_players timeout_ms in
    calls_refine max_players timeout_ms cs m (unfold new_manager in refl)
      (unfold new_manager in refl) (new_manager-IsValid max_players timeout_ms)
      (unfold new_manager in fits)

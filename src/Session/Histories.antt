-- ===== src/Session/Histories.antt =====
-- Calls of the methods of SessionManager, one after the other.
use cybermp.Base.{
  ℕ, ◌+◌, ◌^◌, ◌≤◌, ◌<◌, ◌≡◌, refl, List, [], ◌∷◌, none, length, leb, ◌==◌, arith, find_if,
  Bool-cases, Option-cases, inl, inr,
}
use cybermp.Proto.Header.{version}
use cybermp.Proto.Messages.{Vec3}
use cybermp.Session.{
  Endpoint, SessionManager, new_manager, join, admit, touch, take_next_timed_out, apply_state,
  remove, find_endpoint, is_from, seen_at, with_state, bad_name, name_in_use, expired, is_stale,
}
use cybermp.Session.Invariant.{
  IsValid, KeepsKeys, update-IsValid, erase-IsValid, append-IsValid, new_manager-IsValid,
}

seen_at-KeepsKeys : (now : ℕ) → KeepsKeys (seen_at now)
seen_at-KeepsKeys now = record { ids = λ s. refl; endpoints = λ s. refl; usernames = λ s. refl }

with_state-KeepsKeys :
    (tick : ℕ) (position : Vec3) (rotation : ℕ) → KeepsKeys (with_state tick position rotation)
with_state-KeepsKeys tick position rotation = record {
  ids = λ s. refl;
  endpoints = λ s. refl;
  usernames = λ s. refl;
}

module _ (m : SessionManager) (v : IsValid m) where
  admit-IsValid :
      (from : Endpoint) (username : List ℕ) (now : ℕ)
      → m.next_id + 1 < 2 ^ 32
      → find_endpoint from m ≡ none
      → IsValid (admit from username now m).2
  unfolding admit
  admit-IsValid from username now fits unknown = elim (Bool-cases (bad_name username)) [
    | inl bad ↦ rw bad v
    | inr good ↦ elim (Bool-cases (name_in_use username m)) [
      | inl used ↦ rw (good, used) v
      | inr unused ↦ elim (Bool-cases (leb m.max_players (length m.sessions))) [
        | inl crowded ↦ rw (good, unused, crowded) v
        | inr room ↦
            rw (good, unused, room)
              (append-IsValid from username now m v fits unknown good unused room)
      ]
    ]
  ]

  pub join-IsValid :
      (from : Endpoint) (username : List ℕ) (client_version now : ℕ)
      → m.next_id + 1 < 2 ^ 32
      → IsValid (join from username client_version now m).2
  unfolding join
  join-IsValid from username client_version now fits =
      elim (Bool-cases (client_version == version)) [
        | inr other ↦ rw other v
        | inl same ↦ elim (Option-cases (find_endpoint from m)) [
          | inl unknown ↦ rw (same, unknown) (admit-IsValid from username now fits unknown)
          | inr (s, known) ↦
              rw (same, known)
                (update-IsValid (seen_at now) (seen_at-KeepsKeys now) (is_from from) m v)
        ]
      ]

  pub touch-IsValid : (from : Endpoint) (now : ℕ) → IsValid (touch from now m).1
  unfolding touch
  touch-IsValid from now = elim (Option-cases (find_endpoint from m)) [
    | inl e ↦ rw (e, touch) v
    | inr (s, e) ↦
        rw (e, touch) (update-IsValid (seen_at now) (seen_at-KeepsKeys now) (is_from from) m v)
  ]

  pub take_next_timed_out-IsValid : (now : ℕ) → IsValid (take_next_timed_out now m).1
  unfolding take_next_timed_out
  take_next_timed_out-IsValid now =
      elim (Option-cases (find_if (expired m.timeout_ms now) m.sessions)) [
        | inl e ↦ rw (e, take_next_timed_out) v
        | inr (s, e) ↦ rw (e, take_next_timed_out) (erase-IsValid (expired m.timeout_ms now) m v)
      ]

  pub apply_state-IsValid :
      (from : Endpoint) (tick : ℕ) (position : Vec3) (rotation : ℕ)
      → IsValid (apply_state from tick position rotation m).1
  unfolding apply_state
  apply_state-IsValid from tick position rotation = elim (Option-cases (find_endpoint from m)) [
    | inl e ↦ rw (e, apply_state) v
    | inr (s, e) ↦ elim (Bool-cases (is_stale tick s)) [
      | inl old ↦ rw (e, old, apply_state) v
      | inr fresh ↦
          rw (e, fresh, apply_state)
            (update-IsValid (with_state tick position rotation)
              (with_state-KeepsKeys tick position rotation) (is_from from) m v)
    ]
  ]

  pub remove-IsValid : (id : ℕ) → IsValid (remove id m).1
  unfolding remove
  remove-IsValid id = elim (Option-cases (find_if (λ s. s.id == id) m.sessions)) [
    | inl e ↦ rw (e, remove) v
    | inr (s, e) ↦ rw (e, remove) (erase-IsValid (λ s. s.id == id) m v)
  ]

pub data Call : Type 0 where
  joins : Endpoint → List ℕ → ℕ → ℕ → Call
  touches : Endpoint → ℕ → Call
  expires : ℕ → Call
  applies : Endpoint → ℕ → Vec3 → ℕ → Call
  removes : ℕ → Call

unfoldable pub call : Call → SessionManager → SessionManager
call (joins from username v now) m = (join from username v now m).2
call (touches from now) m = (touch from now m).1
call (expires now) m = (take_next_timed_out now m).1
call (applies from tick position rotation) m = (apply_state from tick position rotation m).1
call (removes id) m = (remove id m).1

unfoldable pub calls : List Call → SessionManager → SessionManager
calls [] m = m
calls (c ∷ cs) m = calls cs (call c m)

pub call-IsValid :
    (c : Call) (m : SessionManager) → IsValid m → m.next_id + 1 < 2 ^ 32 → IsValid (call c m)
unfolding call
call-IsValid (joins from username v now) m h fits = join-IsValid m h from username v now fits
call-IsValid (touches from now) m h fits = touch-IsValid m h from now
call-IsValid (expires now) m h fits = take_next_timed_out-IsValid m h now
call-IsValid (applies from tick position rotation) m h fits =
    apply_state-IsValid m h from tick position rotation
call-IsValid (removes id) m h fits = remove-IsValid m h id

pub next_id-call : (c : Call) (m : SessionManager) → (call c m).next_id ≤ m.next_id + 1
unfolding call join touch take_next_timed_out apply_state remove
next_id-call (joins from username v now) m = ground arith
next_id-call (touches from now) m = ground arith
next_id-call (expires now) m = ground arith
next_id-call (applies from tick position rotation) m = ground arith
next_id-call (removes id) m = ground arith

calls-IsValid :
    (cs : List Call) (m : SessionManager)
    → IsValid m
    → m.next_id + length cs < 2 ^ 32
    → IsValid (calls cs m)
unfolding calls
calls-IsValid [] m v fits = v
calls-IsValid (c ∷ cs) m v fits =
    calls-IsValid cs (call c m) (call-IsValid c m v (omega arith)) (omega (arith, next_id-call c m))

-- From a new manager, through any calls of Join, Touch, TakeNextTimedOut, ApplyState and Remove
-- whose number plus one is below 2^32: the sessions are within the limit, with usable names, ids
-- from 1 below the next one, and no two with the same id, endpoint or name.
pub history-IsValid :
    (max_players timeout_ms : ℕ) (cs : List Call)
    → 1 + length cs < 2 ^ 32
    → IsValid (calls cs (new_manager max_players timeout_ms))
history-IsValid max_players timeout_ms cs fits =
    calls-IsValid cs (new_manager max_players timeout_ms)
      (new_manager-IsValid max_players timeout_ms) (unfold new_manager in fits)

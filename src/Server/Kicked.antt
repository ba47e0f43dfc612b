-- ===== src/Server/Kicked.antt =====
-- The kicks that scripts queued, in the loop of main.cpp.
use cybermp.Base.{
  ℕ, ◌≡◌, ◌≢◌, refl, ap, ◌∙◌, List, [], ◌∷◌, false, Option, none, some, Bool-cases, Option-cases,
  inl, inr, arith, All, find_if, find_if-none, none-find_if, All-erase_if, erase_if, ◌==◌,
}
use cybermp.Session.{Session, SessionManager, remove, find_player}
use cybermp.Session.Invariant.{IsValid, Distinct, Apart}
use cybermp.Session.Histories.{remove-IsValid}
use cybermp.Script.{Backend, PendingKick, take_kicks}
use cybermp.Server.{Server, do_kick, do_kicks, drain_kicks}
use cybermp.Server.Steps.{sessions-announce_leave}

-- Erasing one of the sessions of a number leaves none of it, since they are distinct.
absent_after_erase :
    (id : ℕ) (xs : List Session)
    → Distinct xs
    → find_if (λ s. s.id == id) (erase_if (λ s. s.id == id) xs) ≡ none
unfolding erase_if find_if
absent_after_erase id [] d = refl
absent_after_erase id (x ∷ xs) d = elim (Bool-cases (x.id == id)) [
  | inl e ↦ rw e (none-find_if _ xs (others_differ xs d.0 (ground arith)))
  | inr e ↦ rw (e, e) (absent_after_erase id xs d.1)
]
  where
    others_differ :
        (ys : List Session) → All (Apart x) ys → x.id ≡ id → All (λ s. (s.id == id) ≡ false) ys
    others_differ [] h e = tt
    others_differ (y ∷ ys) h e = (let n = h.0.ids in ground (arith, n), others_differ ys h.1 e)

-- A player that Find does not return.
abbrev Absent : ℕ → SessionManager → Type 0
Absent id m = find_player id m ≡ none

module _ (m : SessionManager) where
  removed-Absent : (id : ℕ) → IsValid m → Absent id (remove id m).1
  unfolding find_player remove
  removed-Absent id v = elim (Option-cases (find_if (λ s. s.id == id) m.sessions)) [
    | inl e ↦ ground (arith, e)
    | inr (s, e) ↦ ground (arith, e, absent_after_erase id m.sessions v.distinct)
  ]

  -- A removal brings nobody back.
  erase_keeps_missing :
      (id other : ℕ)
      → find_if (λ s. s.id == id) m.sessions ≡ none
      → find_if (λ s. s.id == id) (erase_if (λ s. s.id == other) m.sessions) ≡ none
  erase_keeps_missing id other e = none-find_if _ _ (
      All-erase_if (λ s. (s.id == id) ≡ false) (λ s. s.id == other) m.sessions
        (find_if-none _ m.sessions e))

  stays-Absent : (id other : ℕ) → Absent id m → Absent id (remove other m).1
  unfolding find_player remove
  stays-Absent id other e = ground (arith, e, erase_keeps_missing id other)

  -- A removal takes nobody else.
  found_still_in :
      (id other : ℕ) (xs : List Session)
      → other ≢ id
      → find_if (λ s. s.id == id) (erase_if (λ s. s.id == other) xs) ≡ find_if (λ s. s.id == id) xs
  unfolding find_if erase_if
  found_still_in id other [] n = refl
  found_still_in id other (x ∷ xs) n = ground (arith, found_still_in id other xs)

  found_still : (id other : ℕ) → other ≢ id → find_player id (remove other m).1 ≡ find_player id m
  unfolding find_player remove
  found_still id other n = ground (arith, found_still_in id other m.sessions)

module _ {B : Type 0} (api : Backend B) where
  sessions-do_kick :
      (id : ℕ) (s : Session) (srv : Server B)
      → (do_kick api id (some s) srv).sessions ≡ (remove id srv.sessions).1
  unfolding do_kick
  sessions-do_kick id s srv =
      sessions-announce_leave api id (record srv { sessions = (remove id srv.sessions).1 })

  do_kick_stays :
      (id other : ℕ) (o : Option Session) (srv : Server B)
      → Absent id srv.sessions
      → Absent id (do_kick api other o srv).sessions
  do_kick_stays id other none srv h = unfold do_kick in h
  do_kick_stays id other (some s) srv h =
      rw (sessions-do_kick other s srv) (stays-Absent srv.sessions id other h)

  do_kick-Absent :
      (id : ℕ) (srv : Server B)
      → IsValid srv.sessions
      → Absent id (do_kick api id (find_player id srv.sessions) srv).sessions
  do_kick-Absent id srv v = elim (Option-cases (find_player id srv.sessions)) [
    | inl e ↦ rw e (unfold do_kick in e)
    | inr (s, e) ↦ rw (e, sessions-do_kick id s srv) (removed-Absent srv.sessions id v)
  ]

  do_kick-IsValid :
      (id : ℕ) (o : Option Session) (srv : Server B)
      → IsValid srv.sessions
      → IsValid (do_kick api id o srv).sessions
  do_kick-IsValid id none srv v = unfold do_kick in v
  do_kick-IsValid id (some s) srv v =
      rw (sessions-do_kick id s srv) (remove-IsValid srv.sessions v id)

  do_kick_spares :
      (id other : ℕ) (o : Option Session) (srv : Server B)
      → other ≢ id
      → find_player id (do_kick api other o srv).sessions ≡ find_player id srv.sessions
  unfolding do_kick
  do_kick_spares id other none srv n = refl
  do_kick_spares id other (some s) srv n =
      ap (find_player id) (sessions-do_kick other s srv) ∙ found_still srv.sessions id other n

  do_kicks_stay :
      (id : ℕ) (ks : List PendingKick) (srv : Server B)
      → Absent id srv.sessions
      → Absent id (do_kicks api ks srv).sessions
  unfolding do_kicks
  do_kicks_stay id [] srv h = h
  do_kicks_stay id (k ∷ ks) srv h = do_kicks_stay id ks _ (do_kick_stays id k.player_id _ srv h)

  do_kicks-Absent :
      (ks : List PendingKick) (srv : Server B)
      → IsValid srv.sessions
      → All (λ k. Absent k.player_id (do_kicks api ks srv).sessions) ks
  unfolding do_kicks
  do_kicks-Absent [] srv v = tt
  do_kicks-Absent (k ∷ ks) srv v = (
    do_kicks_stay k.player_id ks _ (do_kick-Absent k.player_id srv v),
    do_kicks-Absent ks _ (do_kick-IsValid k.player_id _ srv v),
  )

  do_kicks_spare :
      (id : ℕ) (ks : List PendingKick) (srv : Server B)
      → All (λ k. k.player_id ≢ id) ks
      → find_player id (do_kicks api ks srv).sessions ≡ find_player id srv.sessions
  unfolding do_kicks
  do_kicks_spare id [] srv n = refl
  do_kicks_spare id (k ∷ ks) srv n =
      do_kicks_spare id ks _ n.1 ∙ do_kick_spares id k.player_id _ srv n.0

  -- With valid sessions, after the kick queue is drained, nobody who was in it is found by number,
  -- and a player whose number was not in it is found as before.
  pub drain_kicks_lem :
      (srv : Server B)
      → IsValid srv.sessions
      → All (λ k. find_player k.player_id (drain_kicks api srv).sessions ≡ none) srv.scripts.kicks
        × ((id : ℕ)
            → All (λ k. k.player_id ≢ id) srv.scripts.kicks
            → find_player id (drain_kicks api srv).sessions ≡ find_player id srv.sessions)
  unfolding drain_kicks take_kicks
  drain_kicks_lem srv v =
      let taken : Server B = record srv { scripts = (take_kicks srv.scripts).1 } in
      (
        do_kicks-Absent srv.scripts.kicks taken v,
        λ id n. do_kicks_spare id srv.scripts.kicks taken n,
      )

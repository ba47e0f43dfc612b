-- ===== src/Session/Moves.antt =====
-- What writes to the sessions and erasures do to the players that FindPlayer finds.
use cybermp.Base.{
  ℕ, ◌+◌, ◌^◌, ◌≡◌, List, [], ◌∷◌, Bool, false, none, some, arith, All, find_if, find_if-snoc,
  find_if-snoc_some, length-append, ◌++◌, ◌%◌, update_if, erase_if, find_if-some, Option-cases, inl,
  inr, length-erase_if, length-update_if, All-find_if, refl,
}
use cybermp.Session.{Endpoint, Session, SessionManager, find_player, count, new_session}
use cybermp.Session.Invariant.{IsValid, IsNumbered}
use cybermp.Session.Joining.{fresh_number}
use cybermp.Session.Contract.{view, Nobody, Player, Same, Sets, Rewrites, Drops}
use cybermp.Session.Players.{with_id, found_by_id, find_id-update_if, find_id-erase_if}

module _ (m : SessionManager) (v : IsValid m) where
  pub find_if-Player :
      (p : Session → Bool) (s : Session) → find_if p m.sessions ≡ some s → Player p (view m) s
  unfolding view find_player
  find_if-Player p s e =
      let number = All-find_if (IsNumbered m.next_id) p m.sessions s v.numbered e in
      (
        ground (arith, number, found_by_id p m.sessions s v.distinct e),
        find_if-some p m.sessions s e,
      )

  pub find_if-Nobody : (p : Session → Bool) → All (λ s. p s ≡ false) m.sessions → Nobody p (view m)
  unfolding view find_player
  find_if-Nobody p h id s e =
      All-find_if (λ x. p x ≡ false) (with_id id) m.sessions s h (ground arith)

  pub update_if-Rewrites :
      (p : Session → Bool) (f : Session → Session) (s : Session)
      → ((x : Session) → (f x).id ≡ x.id)
      → find_if p m.sessions ≡ some s
      → Rewrites s (f s) (view m) (view (record m { sessions = update_if p f m.sessions }))
  unfolding view find_player count
  update_if-Rewrites p f s k e =
      let number = All-find_if (IsNumbered m.next_id) p m.sessions s v.numbered e in
      (
        λ id. ground (arith, number, find_id-update_if p f id m.sessions s k v.distinct e),
        length-update_if p f m.sessions,
      )

  pub erase_if-Drops :
      (p : Session → Bool) (s : Session)
      → find_if p m.sessions ≡ some s
      → Drops s (view m) (view (record m { sessions = erase_if p m.sessions }))
  unfolding view find_player count
  erase_if-Drops p s e = (
    λ id. ground (arith, find_id-erase_if p id m.sessions s v.distinct e),
    omega (arith, length-erase_if p m.sessions s e),
  )

  pub Same-refl : Same (view m) (view m)
  Same-refl = (λ id. refl, refl)

  pub grown_view :
      (from : Endpoint) (username : List ℕ) (now : ℕ)
      → let s = new_session m.next_id username from now in
        let w = record m {
          next_id = (m.next_id + 1) % 2 ^ 32;
          sessions = m.sessions ++ (s ∷ []);
        } in
        ((view m).players m.next_id ≡ none)
        × Sets m.next_id (some s) (view m) (view w)
        × ((view w).online ≡ (view m).online + 1)
  unfolding view find_player count
  grown_view from username now =
      let s = new_session m.next_id username from now in
      let fresh = fresh_number m.next_id m.sessions v.numbered in
      (
        ground (arith, fresh),
        λ id. elim (Option-cases (find_if (with_id id) m.sessions)) [
          | inl e ↦ ground (arith, v.started, find_if-snoc (with_id id) m.sessions s e)
          | inr (t, e) ↦
              let number =
                All-find_if (IsNumbered m.next_id) (with_id id) m.sessions t v.numbered e in
              let at = find_if-some (with_id id) m.sessions t e in
              ground (arith, number, at, find_if-snoc_some (with_id id) m.sessions s t e)
        ],
        omega (arith, length-append m.sessions (s ∷ [])),
      )

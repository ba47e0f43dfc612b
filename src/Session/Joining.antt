-- ===== src/Session/Joining.antt =====
-- SessionManager::Join.
use cybermp.Base.{
  ℕ, ◌+◌, ◌-◌, ◌%◌, ◌^◌, ◌≡◌, ◌≢◌, refl, ◌∙◌, List, [], ◌∷◌, ◌++◌, true, false, none, some, ◌==◌,
  arith, All, find_if, find_if-snoc, find_if-update_if, length-update_if, length-append,
  none-find_if,
}
use cybermp.Proto.Header.{version}
use cybermp.Session.{
  Endpoint, Session, SessionManager, JoinResult, accepted, already_joined, version_mismatch, join,
  find_endpoint, find_player, is_from, eq_endpoint, new_session, seen_at, count, invalid_player,
}
use cybermp.Session.Invariant.{IsValid, IsNumbered}

eq_endpoint_refl : (e : Endpoint) → eq_endpoint e e ≡ true
unfolding eq_endpoint
eq_endpoint_refl e = ground arith

-- No session has the number that comes next.
pub fresh_number :
    (next_id : ℕ) (xs : List Session)
    → All (IsNumbered next_id) xs
    → find_if (λ s. s.id == next_id) xs ≡ none
fresh_number next_id xs h = none-find_if _ xs (unnumbered xs h)
  where
    unnumbered :
        (ys : List Session) → All (IsNumbered next_id) ys → All (λ s. (s.id == next_id) ≡ false) ys
    unnumbered [] k = tt
    unnumbered (y ∷ ys) k = (ground arith, unnumbered ys k.1)

-- The manager with one more session.
abbrev grown : Endpoint → List ℕ → ℕ → SessionManager → SessionManager
grown from username now m = record m {
  next_id = (m.next_id + 1) % 2 ^ 32;
  sessions = m.sessions ++ (new_session m.next_id username from now ∷ []);
}

module _ (m : SessionManager) (from : Endpoint) (username : List ℕ) (client_version now : ℕ) where
  abbrev joined : JoinResult × ℕ × SessionManager
  joined = join from username client_version now m

  pub accepted_grown :
      joined.0 ≡ accepted
      → (find_endpoint from m ≡ none) × (joined ≡ (accepted, m.next_id, grown from username now m))
  unfolding join
  accepted_grown e = ground arith

  found_grown :
      find_endpoint from m ≡ none
      → find_endpoint from (grown from username now m)
        ≡ some (new_session m.next_id username from now)
  unfolding find_endpoint
  found_grown e = ground (
    arith,
    find_if-snoc (is_from from) m.sessions (new_session m.next_id username from now) e,
    eq_endpoint_refl from,
  )

  numbered_grown :
      IsValid m
      → (find_player m.next_id m ≡ none)
        × (find_player m.next_id (grown from username now m)
            ≡ some (new_session m.next_id username from now))
  unfolding find_player
  numbered_grown v =
      let fresh = fresh_number m.next_id m.sessions v.numbered in
      ground (
        arith,
        v.started,
        fresh,
        find_if-snoc (λ s. s.id == m.next_id) m.sessions (new_session m.next_id username from now)
            fresh,
      )

  count-grown : count (grown from username now m) ≡ count m + 1
  unfolding count
  count-grown =
      omega (arith, length-append m.sessions (new_session m.next_id username from now ∷ []))

  -- In a valid manager, a peer that Join accepts had no session; its number was nobody's; its new
  -- session is found by endpoint and by number; and there is one session more.
  pub join_accepted :
      IsValid m
      → joined.0 ≡ accepted
      → (find_endpoint from m ≡ none)
        × (find_player joined.1 m ≡ none)
        × (find_endpoint from joined.2 ≡ some (new_session joined.1 username from now))
        × (find_player joined.1 joined.2 ≡ some (new_session joined.1 username from now))
        × (count joined.2 ≡ count m + 1)
  join_accepted v e =
      let (unknown, shape) = accepted_grown e in
      rw shape
        (unknown, (numbered_grown v).0, found_grown unknown, (numbered_grown v).1, count-grown)

  -- A Join whose result is neither accepted nor already joined changes nothing and gives the
  -- invalid number.
  pub join_refused :
      joined.0 ≢ accepted → joined.0 ≢ already_joined → (joined.2 ≡ m) × (joined.1 ≡ invalid_player)
  unfolding join
  join_refused a b = ground arith

  -- A client of another version is told so before anything else is looked at.
  pub join_mismatch : client_version ≢ version → joined ≡ (version_mismatch, invalid_player, m)
  unfolding join
  join_mismatch h = ground arith

  -- A peer that is known gets its own number, and counts once.
  pub join_again :
      (s : Session)
      → client_version ≡ version
      → find_endpoint from m ≡ some s
      → (joined.0 ≡ already_joined)
        × (joined.1 ≡ s.id)
        × (find_endpoint from joined.2 ≡ some (seen_at now s))
        × (count joined.2 ≡ count m)
  unfolding join find_endpoint count
  join_again s same known = ground (
    arith,
    find_if-update_if (is_from from) (seen_at now) m.sessions (λ x. refl),
    length-update_if (is_from from) (seen_at now) m.sessions,
  )

-- In a valid manager, after a hello that is accepted, a hello from the same endpoint, whatever its
-- name, is answered with already joined and the same number, and there is one session more than at
-- first.
pub join_twice :
    (m : SessionManager) (from : Endpoint) (username again : List ℕ) (now later : ℕ)
    → IsValid m
    → (join from username version now m).0 ≡ accepted
    → let first = join from username version now m in
      let second = join from again version later first.2 in
      (second.0 ≡ already_joined) × (second.1 ≡ first.1) × (count second.2 ≡ count m + 1)
join_twice m from username again now later v e =
    let (unknown, unused, found, numbered, counted) =
      join_accepted m from username version now v e in
    let (result, id, seen, same) =
      join_again (join from username version now m).2 from again version later _ refl found in
    (result, id, same ∙ counted)

zero_number :
    (m : SessionManager) (from : Endpoint) (username : List ℕ) (now : ℕ)
    → m.next_id ≡ 0
    → (join from username version now m).0 ≡ accepted
    → let r = join from username version now m in
      (r.1 ≡ invalid_player) × (find_player r.1 r.2 ≡ none)
unfolding find_player
zero_number m from username now e h =
    let shape = (accepted_grown m from username version now h).1 in rw shape (e, rw e)

-- If the next number is the last of 32 bits and two joins in a row are accepted, the second
-- player's number is the one that means no player, and nobody is found by it.
pub join_wraps :
    (m : SessionManager) (a b : Endpoint) (first second : List ℕ) (now later : ℕ)
    → m.next_id ≡ 2 ^ 32 - 1
    → (join a first version now m).0 ≡ accepted
    → let m' = (join a first version now m).2 in
      let r = join b second version later m' in
      r.0 ≡ accepted → (r.1 ≡ invalid_player) × (find_player r.1 r.2 ≡ none)
join_wraps m a b first second now later e h k =
    zero_number (join a first version now m).2 b second later
      (rw (accepted_grown m a first version now h).1 (rw e)) k

-- ===== src/World/Bodies.antt =====
-- The events of PumpRemotePlayers, and m_bodies.
use cybermp.Base.{
  ℕ, suc, ◌+◌, ◌≤◌, ◌≡◌, ◌≢◌, refl, ap, ◌∙◌, List, [], ◌∷◌, ◌++◌, Option, none, some, ◌==◌,
  if◌then◌else◌, Bool-cases, inl, inr, arith, find_if, erase_if,
}
use cybermp.NetClient.{RemoteEvent}
use cybermp.World.{
  World, RemoteBody, Engine, is_body, find_body, join_body, leave_body, apply_event, apply_events,
  new_body,
}

-- How many bodies a player has.
abbrev pub body_count : ℕ → List (ℕ × RemoteBody) → ℕ
body_count id [] = 0
body_count id (e ∷ es) = let rest = body_count id es in if is_body id e then suc rest else rest

-- How many it is to have, after these events.
abbrev pub expected : ℕ → List RemoteEvent → ℕ → ℕ
expected id [] n = n
expected id (e ∷ es) n =
    expected id es (if e.player_id == id then (if e.joined then 1 else 0) else n)

count-snoc :
    (id : ℕ) (es : List (ℕ × RemoteBody)) (e : ℕ × RemoteBody)
    → body_count id (es ++ (e ∷ [])) ≡ body_count id es + (if is_body id e then 1 else 0)
count-snoc id [] e = ground arith
count-snoc id (x ∷ xs) e = ground (arith, count-snoc id xs e)

count_missing :
    (id : ℕ) (es : List (ℕ × RemoteBody)) → find_if (is_body id) es ≡ none → body_count id es ≡ 0
unfolding find_if
count_missing id [] h = refl
count_missing id (x ∷ xs) h = ground (arith, count_missing id xs)

count_found :
    (id : ℕ) (es : List (ℕ × RemoteBody)) (b : ℕ × RemoteBody)
    → find_if (is_body id) es ≡ some b
    → body_count id es ≡ body_count id (erase_if (is_body id) es) + 1
unfolding find_if erase_if
count_found id [] b h = cc
count_found id (x ∷ xs) b h = ground (arith, count_found id xs b)

count_spared :
    (id other : ℕ) (es : List (ℕ × RemoteBody))
    → other ≢ id
    → body_count id (erase_if (is_body other) es) ≡ body_count id es
unfolding erase_if
count_spared id other [] n = refl
count_spared id other (x ∷ xs) n = ground (arith, count_spared id other xs)

module _ {G : Type 0} (E : Engine G) where
  joined_count :
      (id other : ℕ) (o : Option (ℕ × RemoteBody)) (w : World)
      → find_body other w ≡ o
      → body_count id w.bodies ≤ 1
      → body_count id (join_body E other o w).bodies
        ≡ (if other == id then 1 else body_count id w.bodies)
  unfolding find_body
  joined_count id other none w e h =
      ground (arith, count_missing other w.bodies e, count-snoc id w.bodies (other, new_body))
  joined_count id other (some b) w e h = ground (arith, count_found other w.bodies b e)

  left_count :
      (id other : ℕ) (o : Option (ℕ × RemoteBody)) (w : World) (g : G)
      → find_body other w ≡ o
      → body_count id w.bodies ≤ 1
      → body_count id (leave_body E other o (w, g)).0.bodies
        ≡ (if other == id then 0 else body_count id w.bodies)
  unfolding find_body
  left_count id other none w g e h = ground (arith, count_missing other w.bodies e)
  left_count id other (some (i, b)) w g e h =
      ground (arith, count_found other w.bodies (i, b) e, count_spared id other w.bodies)

  event_count :
      (id : ℕ) (e : RemoteEvent) (w : World) (g : G)
      → body_count id w.bodies ≤ 1
      → body_count id (apply_event E e (w, g)).0.bodies
        ≡ expected id (e ∷ []) (body_count id w.bodies)
  unfolding apply_event
  event_count id e w g h = elim (Bool-cases e.joined) [
    | inl j ↦ rw j (joined_count id e.player_id (find_body e.player_id w) w refl h)
    | inr j ↦ rw j (left_count id e.player_id (find_body e.player_id w) w g refl h)
  ]

  -- Of a player with one body at most, whatever events the tick takes: there is one body
  -- afterwards if the last event of that player is a join, none if it is a leave, as many as
  -- before if there is no event of that player; so one at most.
  pub bodies_follow :
      (id : ℕ) (es : List RemoteEvent) (w : World) (g : G)
      → body_count id w.bodies ≤ 1
      → (body_count id (apply_events E es (w, g)).0.bodies
          ≡ expected id es (body_count id w.bodies))
        × (body_count id (apply_events E es (w, g)).0.bodies ≤ 1)
  unfolding apply_events
  bodies_follow id [] w g h = (refl, h)
  bodies_follow id (e ∷ es) w g h =
      let one = event_count id e w g h in
      let (w', g') = apply_event E e (w, g) in
      let (all, small) = bodies_follow id es w' g' (ground (arith, one)) in
      (all ∙ ap (expected id es) one, small)

-- ===== src/World/Reload.antt =====
-- The bodies of WorldSystem.cpp in the world that follows the one they were spawned in.
use cybermp.Base.{
  ℕ, ◌≡◌, refl, ◌∙◌, List, [], ◌∷◌, Bool, true, false, some, ◌==◌, length, Bool-cases, inl, inr,
  find_if-update_if,
}
use cybermp.NetClient.{NetClient, RemoteEvent, RemoteSnapshot}
use cybermp.NetClient.Game.{take_events, copy_remote_snapshots}
use cybermp.World.{
  RemoteBody, SpecSource, Engine, World, is_body, find_body, apply_event, apply_events,
  on_world_attached, on_world_detached,
}
use cybermp.World.Aim.{Floats}
use cybermp.World.Drive.{
  source_of, spec_at, put_body, create, created, spawn, drive, drive_all, drive_bodies, drive_found,
  move_if, move, pump_remote_players,
}

-- The player of every snapshot.
abbrev pub OnlyOf : ℕ → List (ℕ × RemoteSnapshot) → Type 0
OnlyOf id [] = Unit
OnlyOf id (e ∷ es) = (e.0 ≡ id) × OnlyOf id es

-- Every event says that the player has joined.
abbrev pub OnlyJoins : ℕ → List RemoteEvent → Type 0
OnlyJoins id [] = Unit
OnlyJoins id (e ∷ es) = (e.joined ≡ true) × (e.player_id ≡ id) × OnlyJoins id es

-- The world system behind the load of another world.
abbrev pub reloaded : World → World
reloaded w = on_world_attached (on_world_detached w)

-- The body with the entity that it was given.
abbrev pub embodied : ℕ → RemoteBody → RemoteBody
embodied entity body = record body { entity = some entity; spawn_requested = true }

module _ {G : Type 0} (F : Floats) (E : Engine G) (id entity : ℕ) where
  found_put :
      (f : RemoteBody → RemoteBody) (w : World) (body : RemoteBody)
      → find_body id w ≡ some (id, body)
      → find_body id (put_body E id f w) ≡ some (id, f body)
  unfolding find_body
  found_put f w body found =
      find_if-update_if (is_body id) (λ e. (e.0, f e.1)) w.bodies (λ x. refl) ∙ rw found refl

  spawned_found :
      (now : ℕ) (snapshot : RemoteSnapshot) (body : RemoteBody) (source : SpecSource) (w : World)
      (g : G)
      → find_body id w ≡ some (id, body)
      → body.spawn_requested ≡ false
      → E.makes_spec g ≡ true
      → E.has_layout g ≡ true
      → source_of E w g ≡ some source
      → (E.create_entity (spec_at E snapshot.position source) g).0 ≡ some entity
      → find_body id (drive F E true now (id, snapshot) (w, g)).0 ≡ some (id, embodied entity body)
  unfolding drive drive_found spawn create created
  spawned_found now snapshot body source w g found fresh spec layout from made =
      let asked : RemoteBody → RemoteBody = λ b. record b { spawn_requested = true } in
      rw (found, fresh, spec, layout, from, made)
        (found_put (λ b. record b { entity = some entity }) (put_body E id asked w) (asked body)
          (found_put asked w body found))

  apply_events-idle :
      (es : List RemoteEvent) (w : World) (g : G) (b : ℕ × RemoteBody)
      → OnlyJoins id es
      → find_body id w ≡ some b
      → apply_events E es (w, g) ≡ (w, g)
  unfolding apply_events apply_event
  apply_events-idle [] w g b of found = refl
  apply_events-idle (e ∷ es) w g b of found =
      rw (of.0, of.1, found) (apply_events-idle es w g b of.2 found)

  module _ (body : RemoteBody) where
    abbrev IsStale : World → G → Type 0
    IsStale w g =
        (find_body id w ≡ some (id, embodied entity body)) × (E.get_entity entity g ≡ false)

    drive-idle :
        (have_system : Bool) (now : ℕ) (snapshot : RemoteSnapshot) (w : World) (g : G)
        → IsStale w g
        → drive F E have_system now (id, snapshot) (w, g) ≡ (w, g)
    unfolding drive drive_found move_if move
    drive-idle true now snapshot w g (found, gone) = rw (found, gone) refl
    drive-idle false now snapshot w g stale = refl

    drive_all-idle :
        (have_system : Bool) (now : ℕ) (es : List (ℕ × RemoteSnapshot)) (w : World) (g : G)
        → OnlyOf id es
        → IsStale w g
        → drive_all F E have_system now es (w, g) ≡ (w, g)
    unfolding drive_all
    drive_all-idle have_system now [] w g of stale = refl
    drive_all-idle have_system now ((player, snapshot) ∷ es) w g of stale =
        rw (of.0, drive-idle have_system now snapshot w g stale)
          (drive_all-idle have_system now es w g of.1 stale)

    pump-idle :
        (now : ℕ) (net : NetClient) (w : World) (g : G)
        → OnlyJoins id net.events
        → OnlyOf id net.remote
        → IsStale w g
        → pump_remote_players F E now (net, w, g) ≡ (record net { events = [] }, w, g)
    unfolding pump_remote_players drive_bodies take_events copy_remote_snapshots
    pump-idle now net w g joins of stale =
        let moved = drive_all-idle (E.has_system g) now net.remote w g of stale in
        elim (Bool-cases (length w.bodies == 0)) [
          | inl t ↦ rw (apply_events-idle net.events w g _ joins stale.0, t) refl
          | inr t ↦ rw (apply_events-idle net.events w g _ joins stale.0, t, moved) refl
        ]

-- A body is spawned for a player's first snapshot, and the world system is then detached from its
-- world and attached to the next one, where the engine does not find the entity: the body still
-- holds the entity of the world before; and a tick that takes joins of that player and snapshots
-- of it only, whatever their number, leaves the world system and the game as they are, so the body
-- is not spawned again.
pub body_stays_gone :
    {G : Type 0} (F : Floats) (E : Engine G) (id entity now later : ℕ) (snapshot : RemoteSnapshot)
    (body : RemoteBody) (source : SpecSource) (net : NetClient) (w : World) (g next : G)
    → find_body id w ≡ some (id, body)
    → body.spawn_requested ≡ false
    → E.makes_spec g ≡ true
    → E.has_layout g ≡ true
    → source_of E w g ≡ some source
    → (E.create_entity (spec_at E snapshot.position source) g).0 ≡ some entity
    → E.get_entity entity next ≡ false
    → OnlyJoins id net.events
    → OnlyOf id net.remote
    → let left = reloaded (drive F E true now (id, snapshot) (w, g)).0 in
      (find_body id left ≡ some (id, embodied entity body))
      × (pump_remote_players F E later (net, left, next) ≡ (record net { events = [] }, left, next))
unfolding find_body on_world_attached on_world_detached
body_stays_gone F E id entity now later snapshot body source net w g next found fresh spec layout
      from made gone joins of =
    let there =
      spawned_found F E id entity now snapshot body source w g found fresh spec layout from made in
    let left = reloaded (drive F E true now (id, snapshot) (w, g)).0 in
    (there, pump-idle F E id entity body later net left next joins of (there, gone))

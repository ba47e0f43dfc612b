-- ===== src/World.antt =====
-- src/client/WorldSystem.hpp and WorldSystem.cpp: the bodies of remote players, their samples, and
-- the console's switches. The engine is a parameter: a record of the calls that the code makes, over
-- the state of the game. An entity id that is not defined is `none`.
pub mod Aim
pub mod Drive
pub mod Ticks
pub mod Samples
pub mod Bodies
pub mod Rates
pub mod Console
pub mod Spawns
pub mod Reload
pub mod Threads
use cybermp.Base.{
  ℕ, ◌+◌, ◌%◌, ◌^◌, List, [], ◌∷◌, ◌++◌, Bool, true, false, Option, none, some, length, ltb, ◌==◌,
  if◌then◌else◌, find_if, erase_if, codes,
}
use cybermp.Proto.Messages.{Vec3}
use cybermp.NetClient.{RemoteEvent, bump}

pub record Sample : Type 0 where
  pub local_ms : ℕ
  pub position : Vec3
  pub rotation : ℕ

pub record RemoteBody : Type 0 where
  pub entity : Option ℕ
  pub spawn_requested : Bool
  pub last_tick : ℕ
  pub samples : List Sample

abbrev pub new_body : RemoteBody
new_body = record { entity = none; spawn_requested = false; last_tick = 0; samples = [] }

-- What a spawn asks for. Both flags are off: the server owns what is spawned, not the save file.
pub data SpecSource : Type 0 where
  template character : List ℕ → SpecSource

pub record Spec : Type 0 where
  pub source : SpecSource
  pub position : Vec3
  pub persist_state : Bool
  pub persist_spawn : Bool

pub record Target : Type 0 where
  pub position : Vec3
  pub rotation : ℕ

-- The calls into the game and Codeware, and whether they succeed: GetDynamicEntitySystem, the
-- making of a spec and its properties, CreateEntity, DeleteEntity, GetEntity, and the three ways to
-- move an entity.
pub record Engine (G : Type 0) : Type 0 where
  pub has_system : G → Bool
  pub makes_spec : G → Bool
  pub has_layout : G → Bool
  pub has_template : G → Bool
  pub has_record : G → Bool
  pub create_entity : Spec → G → Option ℕ × G
  pub delete_entity : ℕ → G → Bool × G
  pub get_entity : ℕ → G → Bool
  pub write_transform : ℕ → Target → G → Bool × G
  pub write_mover : ℕ → Target → Vec3 → G → Bool × G
  pub write_teleport : ℕ → Target → G → Bool × G

pub record World : Type 0 where
  pub bodies : List (ℕ × RemoteBody)
  pub last_state_sent_ms : ℕ
  pub move_mode : ℕ
  pub body_kind : ℕ
  pub body_template : List ℕ
  pub mover_writes : ℕ
  pub transform_writes : ℕ
  pub mover_missing : ℕ
  pub interpolate : Bool
  pub starved_frames : ℕ
  pub frame_begin_ticks : ℕ
  pub multiplayer_ticks : ℕ
  pub last_delta_time : ℕ
  pub tasks_run : ℕ
  pub max_tick_micros : ℕ
  pub tick_thread_id : ℕ
  pub drain_thread_id : ℕ
  pub tick_thread_changes : ℕ
  pub world_attached : Bool
  pub spawned : List ℕ

abbrev pub is_body : ℕ → ℕ × RemoteBody → Bool
is_body id entry = entry.0 == id

unfoldable pub find_body : ℕ → World → Option (ℕ × RemoteBody)
find_body id w = find_if (is_body id) w.bodies

unfoldable pub on_world_attached : World → World
on_world_attached w = record w { world_attached = true }

unfoldable pub on_world_detached : World → World
on_world_detached w = record w { world_attached = false; spawned = [] }

unfoldable pub track_spawned : ℕ → World → World
track_spawned entity w = record w { spawned = w.spawned ++ (entity ∷ []) }

abbrev pub set_move_mode : ℕ → World → World
set_move_mode mode w =
    if ltb 3 mode
    then w
    else record w { move_mode = mode; mover_writes = 0; transform_writes = 0; mover_missing = 0 }

abbrev pub set_interpolation : Bool → World → World
set_interpolation enabled w = record w { interpolate = enabled; starved_frames = 0 }

module _ {G : Type 0} (E : Engine G) where
  abbrev pub destroy_in : Bool → ℕ → G → Bool × G
  destroy_in true entity g = E.delete_entity entity g
  destroy_in false entity g = (false, g)

  -- DestroyBodyEntity.
  abbrev pub destroy_body_entity : Option ℕ → G → Bool × G
  destroy_body_entity none g = (false, g)
  destroy_body_entity (some entity) g = destroy_in (E.has_system g) entity g

  abbrev pub leave_body : ℕ → Option (ℕ × RemoteBody) → World × G → World × G
  leave_body id none s = s
  leave_body id (some (i, body)) (w, g) =
      (record w { bodies = erase_if (is_body id) w.bodies }, (destroy_body_entity body.entity g).1)

  -- try_emplace leaves a body that is there alone.
  abbrev pub join_body : ℕ → Option (ℕ × RemoteBody) → World → World
  join_body id none w = record w { bodies = w.bodies ++ ((id, new_body) ∷ []) }
  join_body id (some b) w = w

  unfoldable pub apply_event : RemoteEvent → World × G → World × G
  apply_event e (w, g) =
      if e.joined
      then (join_body e.player_id (find_body e.player_id w) w, g)
      else leave_body e.player_id (find_body e.player_id w) (w, g)

  unfoldable pub apply_events : List RemoteEvent → World × G → World × G
  apply_events [] s = s
  apply_events (e ∷ es) s = apply_events es (apply_event e s)

  -- The loop of SetBodyKind: every body is deleted and will be spawned again.
  unfoldable pub reset_bodies : List (ℕ × RemoteBody) → G → List (ℕ × RemoteBody) × G
  reset_bodies [] g = ([], g)
  reset_bodies ((id, body) ∷ bodies) g =
      let (rest, g') = reset_bodies bodies (destroy_body_entity body.entity g).1 in
      ((id, new_body) ∷ rest, g')

  unfoldable pub set_body_kind : ℕ → World × G → World × G
  set_body_kind kind (w, g) =
      if ltb 1 kind
      then (w, g)
      else let (bodies, g') = reset_bodies w.bodies g in
        (record w { body_kind = kind; bodies = bodies }, g')

  -- An empty path only asks for the current template.
  unfoldable pub set_body_template : List ℕ → World × G → World × G
  unfolding set_body_kind
  set_body_template path (w, g) =
      if length path == 0 then (w, g) else set_body_kind 1 (record w { body_template = path }, g)

  -- The loop of DespawnAll, with the number that was removed.
  unfoldable pub despawn_each : List ℕ → G → ℕ × G
  despawn_each [] g = (0, g)
  despawn_each (entity ∷ entities) g =
      let (deleted, g') = E.delete_entity entity g in
      let (removed, g'') = despawn_each entities g' in
      ((if deleted then (removed + 1) % 2 ^ 32 else removed), g'')

  unfoldable pub despawn_all : World × G → ℕ × World × G
  despawn_all (w, g) =
      let cleared : World = record w { spawned = [] } in
      if E.has_system g
      then (let (removed, g') = despawn_each w.spawned g in (removed, cleared, g'))
      else (0, cleared, g)

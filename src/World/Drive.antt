-- ===== src/World/Drive.antt =====
-- WorldSystem::PumpRemotePlayers: events, spawning, and the write of what is shown.
use cybermp.Base.{
  ℕ, List, [], ◌∷◌, Bool, true, false, not, ◌||◌, Option, none, some, length, ◌==◌, if◌then◌else◌,
  update_if, codes,
}
use cybermp.Proto.Messages.{Vec3}
use cybermp.NetClient.{NetClient, RemoteSnapshot, bump}
use cybermp.NetClient.Game.{take_events, copy_remote_snapshots}
use cybermp.World.{
  Sample, RemoteBody, Spec, SpecSource, template, character, Target, Engine, World, is_body,
  find_body, apply_events,
}
use cybermp.World.Aim.{Floats, add_sample, choose}

module _ {G : Type 0} (E : Engine G) where
  count_transform : Bool × G → World → World × G
  count_transform (true, g) w = (record w { transform_writes = bump w.transform_writes }, g)
  count_transform (false, g) w = (w, g)

  count_mover : Bool × G → World → World × G
  count_mover (true, g) w = (record w { mover_writes = bump w.mover_writes }, g)
  count_mover (false, g) w = (record w { mover_missing = bump w.mover_missing }, g)

  count_teleport : Bool × G → World → World × G
  count_teleport (true, g) w = (record w { transform_writes = bump w.transform_writes }, g)
  count_teleport (false, g) w = (record w { mover_missing = bump w.mover_missing }, g)

  transform_step : ℕ → ℕ → Target → World × G → World × G
  unfolding count_transform
  transform_step mode entity target (w, g) =
      if (mode == 0) || (mode == 2)
      then count_transform (E.write_transform entity target g) w
      else (w, g)

  mover_step : ℕ → ℕ → Target → Vec3 → World × G → World × G
  unfolding count_mover
  mover_step mode entity target velocity (w, g) =
      if (mode == 1) || (mode == 2)
      then count_mover (E.write_mover entity target velocity g) w
      else (w, g)

  teleport_step : ℕ → ℕ → Target → World × G → World × G
  unfolding count_teleport
  teleport_step mode entity target (w, g) =
      if mode == 3 then count_teleport (E.write_teleport entity target g) w else (w, g)

  unfoldable pub write_entity : ℕ → Target × Vec3 × World → G → World × G
  unfolding transform_step mover_step teleport_step
  write_entity entity (target, velocity, w) g = teleport_step w.move_mode entity target (
      mover_step w.move_mode entity target velocity
        (transform_step w.move_mode entity target (w, g)))

  -- `it->second`: a write to the body that the search has found.
  abbrev pub put_body : ℕ → (RemoteBody → RemoteBody) → World → World
  put_body id f w = record w { bodies = update_if (is_body id) (λ e. (e.0, f e.1)) w.bodies }

  abbrev pub npc_record : List ℕ
  npc_record = codes "Character.spr_animals_bouncer1_ranged1_omaha_mb"

  abbrev pub source_of : World → G → Option SpecSource
  source_of w g =
      if w.body_kind == 1
      then (if E.has_template g then some (template w.body_template) else none)
      else (if E.has_record g then some (character npc_record) else none)

  abbrev pub spec_at : Vec3 → SpecSource → Spec
  spec_at position source = record {
    source = source;
    position = position;
    persist_state = false;
    persist_spawn = false;
  }

  unfoldable pub created : ℕ → Option ℕ × G → World → World × G
  created id (none, g) w = (w, g)
  created id (some entity, g) w = (put_body id (λ b. record b { entity = some entity }) w, g)

  unfoldable pub create : ℕ → Vec3 → Option SpecSource → World × G → World × G
  unfolding created
  create id position none (w, g) = (w, g)
  create id position (some source) (w, g) =
      created id (E.create_entity (spec_at position source) g) w

  -- The first snapshot of a player tells where its body is to be; it is asked for once.
  unfoldable pub spawn : ℕ → RemoteSnapshot → World × G → World × G
  unfolding create
  spawn id snapshot (w, g) =
      let asked = put_body id (λ b. record b { spawn_requested = true }) w in
      if not (E.makes_spec g)
      then (asked, g)
      else if not (E.has_layout g)
      then (asked, g)
      else create id snapshot.position (source_of asked g) (asked, g)

module _ {G : Type 0} (F : Floats) (E : Engine G) where
  move_with : ℕ → ℕ → RemoteSnapshot → List Sample → World × G → World × G
  move_with now entity snapshot [] s = s
  move_with now entity snapshot (x ∷ xs) (w, g) =
      write_entity E entity (choose F now snapshot x xs w) g

  unfoldable pub move : ℕ → ℕ → ℕ → RemoteSnapshot → RemoteBody → World × G → World × G
  unfolding move_with
  move now id entity snapshot body (w, g) =
      if not (E.get_entity entity g)
      then (w, g)
      else let sampled = put_body E id (add_sample now snapshot) w in
        move_with now entity snapshot (add_sample now snapshot body).samples (sampled, g)

  unfoldable pub move_if : ℕ → ℕ → Option ℕ → RemoteSnapshot → RemoteBody → World × G → World × G
  unfolding move
  move_if now id none snapshot body s = s
  move_if now id (some entity) snapshot body s = move now id entity snapshot body s

  unfoldable pub drive_found :
      ℕ → ℕ → RemoteSnapshot → Option (ℕ × RemoteBody) → World × G → World × G
  unfolding move_if
  drive_found now id snapshot none s = s
  drive_found now id snapshot (some (i, body)) s =
      if not body.spawn_requested
      then spawn E id snapshot s
      else move_if now id body.entity snapshot body s

  unfoldable pub drive : Bool → ℕ → ℕ × RemoteSnapshot → World × G → World × G
  unfolding drive_found
  drive have_system now (id, snapshot) (w, g) =
      if not have_system then (w, g) else drive_found now id snapshot (find_body id w) (w, g)

  unfoldable pub drive_all : Bool → ℕ → List (ℕ × RemoteSnapshot) → World × G → World × G
  unfolding drive
  drive_all have_system now [] s = s
  drive_all have_system now (e ∷ es) s = drive_all have_system now es (drive have_system now e s)

  unfoldable pub drive_bodies : ℕ → NetClient → World × G → World × G
  unfolding drive_all
  drive_bodies now net (w, g) =
      if length w.bodies == 0
      then (w, g)
      else drive_all (E.has_system g) now (copy_remote_snapshots net) (w, g)

  -- Events first, then the snapshots.
  unfoldable pub pump_remote_players : ℕ → NetClient × World × G → NetClient × World × G
  unfolding drive_bodies
  pump_remote_players now (net, w, g) =
      let (events, left) = take_events net in
      let (w', g') = drive_bodies now left (apply_events E events (w, g)) in (left, w', g')

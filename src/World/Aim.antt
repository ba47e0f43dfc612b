-- ===== src/World/Aim.antt =====
-- WorldSystem::PumpRemotePlayers: the sample history, and where a body is shown. The arithmetic on
-- floats is a parameter; a float is its 32-bit pattern.
use cybermp.Base.{
  ℕ, ◌-◌, List, [], ◌∷◌, ◌++◌, Option, none, some, length, drop, ltb, leb, if◌then◌else◌,
}
use cybermp.Proto.Messages.{Vec3}
use cybermp.NetClient.{RemoteSnapshot, bump}
use cybermp.World.{Sample, RemoteBody, Target, World}

-- +, -, * and / on floats, std::fmod, the conversion of a count, and the constants of the code.
pub record Floats : Type 0 where
  pub plus : ℕ → ℕ → ℕ
  pub minus : ℕ → ℕ → ℕ
  pub times : ℕ → ℕ → ℕ
  pub over : ℕ → ℕ → ℕ
  pub remainder : ℕ → ℕ → ℕ
  pub of_count : ℕ → ℕ
  pub turn_180 : ℕ
  pub turn_360 : ℕ
  pub turn_540 : ℕ
  pub thousand : ℕ

abbrev pub interpolation_delay_ms : ℕ
interpolation_delay_ms = 100

abbrev pub max_samples : ℕ
max_samples = 8

abbrev pub no_velocity : Vec3
no_velocity = record { x = 0; y = 0; z = 0 }

abbrev pub sample_of : ℕ → RemoteSnapshot → Sample
sample_of now snapshot = record {
  local_ms = now;
  position = snapshot.position;
  rotation = snapshot.rotation;
}

-- The oldest sample makes room.
abbrev pub keep_newest : List Sample → List Sample
keep_newest ss = if ltb max_samples (length ss) then drop 1 ss else ss

-- A new snapshot joins the history.
unfoldable pub add_sample : ℕ → RemoteSnapshot → RemoteBody → RemoteBody
add_sample now snapshot body =
    if ltb body.last_tick snapshot.tick
    then record body {
      last_tick = snapshot.tick;
      samples = keep_newest (body.samples ++ (sample_of now snapshot ∷ []));
    }
    else body

-- The loop that looks for the samples on both sides of the time that is shown.
unfoldable pub around : ℕ → Option Sample → List Sample → Option Sample × Option Sample
around render before [] = (before, none)
around render before (s ∷ ss) =
    if leb s.local_ms render then around render (some s) ss else (before, some s)

abbrev pub render_ms : ℕ → ℕ
render_ms now = if ltb interpolation_delay_ms now then now - interpolation_delay_ms else 0

abbrev pub newest : Sample → List Sample → Sample
newest s [] = s
newest s (t ∷ ts) = newest t ts

module _ (F : Floats) where
  lerp : ℕ → ℕ → ℕ → ℕ
  lerp a b t = F.plus a (F.times (F.minus b a) t)

  -- The shortest way round.
  lerp_angle_degrees : ℕ → ℕ → ℕ → ℕ
  lerp_angle_degrees a b t =
      let delta = F.minus (F.remainder (F.plus (F.minus b a) F.turn_540) F.turn_360) F.turn_180 in
      F.plus a (F.times delta t)

  between : ℕ → Sample → Sample → Target × Vec3
  unfolding lerp lerp_angle_degrees
  between render b a =
      let span = F.of_count (a.local_ms - b.local_ms) in
      let t = F.over (F.of_count (render - b.local_ms)) span in
      let seconds = F.over span F.thousand in
      (
        record {
          position = record {
            x = lerp b.position.x a.position.x t;
            y = lerp b.position.y a.position.y t;
            z = lerp b.position.z a.position.z t;
          };
          rotation = lerp_angle_degrees b.rotation a.rotation t;
        },
        record {
          x = F.over (F.minus a.position.x b.position.x) seconds;
          y = F.over (F.minus a.position.y b.position.y) seconds;
          z = F.over (F.minus a.position.z b.position.z) seconds;
        },
      )

  hold : Sample → World → Target × Vec3 × World
  hold s w = (
    record { position = s.position; rotation = s.rotation },
    no_velocity,
    record w { starved_frames = bump w.starved_frames },
  )

  -- Between two samples, or the newest where there is no later one to aim at.
  unfoldable pub aim : ℕ → Sample → Option Sample × Option Sample → World → Target × Vec3 × World
  unfolding between hold
  aim render last (some b, some a) w =
      if ltb b.local_ms a.local_ms
      then (let (target, velocity) = between render b a in (target, velocity, w))
      else hold last w
  aim render last (some b, none) w = hold last w
  aim render last (none, after) w = hold last w

  unfoldable pub choose : ℕ → RemoteSnapshot → Sample → List Sample → World → Target × Vec3 × World
  unfolding aim
  choose now snapshot s ss w =
      if w.interpolate
      then aim (render_ms now) (newest s ss) (around (render_ms now) none (s ∷ ss)) w
      else (record { position = snapshot.position; rotation = snapshot.rotation }, no_velocity, w)

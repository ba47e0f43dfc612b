-- ===== src/Tests/Worlds.antt =====
-- Examples for src/client/WorldSystem.cpp. The game's state is the next entity id, and the floats are
-- whole numbers.
use cybermp.Base.{
  ℕ, ◌+◌, ◌-◌, ◌*◌, ◌/◌, ◌%◌, ◌≤◌, ◌<◌, ◌≡◌, refl, List, [], ◌∷◌, true, false, none, some, ◌==◌,
  arith, length, codes,
}
use cybermp.NetClient.{NetClient, RemoteEvent, RemoteSnapshot, connected, apply_pong}
use cybermp.World.{Sample, RemoteBody, Engine, World, apply_events}
use cybermp.World.Aim.{Floats, add_sample, around, aim}
use cybermp.World.Samples.{IsHistory, add_sample-IsHistory, aim_between}
use cybermp.World.Bodies.{body_count, expected, bodies_follow}
use cybermp.World.Threads.{Shared, thread_check, other_job, idle, post_job, advance}
use cybermp.World.Threads.Serial.{Serial, here, posted, ticked, flag_stays_off}
use cybermp.World.Threads.Overlaps.{overlap_flagged}
use cybermp.World.Rates.{Frame, frames, state_rate}
use cybermp.Tests.{place, client}

abbrev pub floats : Floats
floats = record {
  plus = λ a b. a + b;
  minus = λ a b. a - b;
  times = λ a b. a * b;
  over = λ a b. a / b;
  remainder = λ a b. a % b;
  of_count = λ a. a;
  turn_180 = 180;
  turn_360 = 360;
  turn_540 = 540;
  thousand = 1000;
}

abbrev engine : Engine ℕ
engine = record {
  has_system = λ g. true;
  makes_spec = λ g. true;
  has_layout = λ g. true;
  has_template = λ g. true;
  has_record = λ g. true;
  create_entity = λ spec g. (some g, g + 1);
  delete_entity = λ entity g. (true, g);
  get_entity = λ entity g. true;
  write_transform = λ entity target g. (true, g);
  write_mover = λ entity target velocity g. (true, g);
  write_teleport = λ entity target g. (true, g);
}

abbrev early : Sample
early = record { local_ms = 1000; position = place; rotation = 350 }

abbrev late : Sample
late = record { local_ms = 1066; position = place; rotation = 10 }

abbrev pub body : RemoteBody
body = record { entity = some 5; spawn_requested = true; last_tick = 2; samples = early ∷ [] }

abbrev pub world : World
world = record {
  bodies = (1, body) ∷ [];
  last_state_sent_ms = 0;
  move_mode = 1;
  body_kind = 0;
  body_template = codes "man_base.ent";
  mover_writes = 0;
  transform_writes = 0;
  mover_missing = 0;
  interpolate = true;
  starved_frames = 0;
  frame_begin_ticks = 0;
  multiplayer_ticks = 0;
  last_delta_time = 0;
  tasks_run = 0;
  max_tick_micros = 0;
  tick_thread_id = 0;
  drain_thread_id = 0;
  tick_thread_changes = 0;
  world_attached = true;
  spawned = [];
}

body-IsHistory : IsHistory 1000 body
body-IsHistory = record {
  short = omega arith;
  ordered = (omega arith, tt);
  past = (omega arith, tt);
}

abbrev pub next_snapshot : RemoteSnapshot
next_snapshot = record { tick = 3; position = place; rotation = 10 }

add_sample_example :
    IsHistory 1066 (add_sample 1066 next_snapshot body)
    × (2 ≤ (add_sample 1066 next_snapshot body).last_tick)
    × (3 ≤ (add_sample 1066 next_snapshot body).last_tick)
add_sample_example = add_sample-IsHistory 1000 1066 next_snapshot body (omega arith) body-IsHistory

two_sides : around 1040 none (early ∷ late ∷ []) ≡ (some early, some late)
unfolding around
two_sides = refl

aim_between_example :
    (1000 ≤ 1040)
    × (1040 < 1066)
    × ((aim floats 1040 late (around 1040 none (early ∷ late ∷ [])) world).2 ≡ world)
aim_between_example = aim_between floats world 1040 late (early ∷ late ∷ []) early late two_sides

abbrev happenings : List RemoteEvent
happenings =
    record { joined = true; player_id = 2; username = codes "bob" }
    ∷ record { joined = true; player_id = 2; username = codes "bob" }
    ∷ record { joined = false; player_id = 1; username = [] }
    ∷ []

bodies_follow_example :
    (body_count 2 (apply_events engine happenings (world, 7)).0.bodies ≡ expected 2 happenings 0)
    × (body_count 2 (apply_events engine happenings (world, 7)).0.bodies ≤ 1)
bodies_follow_example = bodies_follow engine 2 happenings world 7 (omega arith)

abbrev sending_client : NetClient
sending_client = record client { state = connected }

abbrev three_frames : List Frame
three_frames =
    record { now = 1000; position = place; delivered = true }
    ∷ record { now = 1016; position = place; delivered = true }
    ∷ record { now = 1070; position = place; delivered = true }
    ∷ []

state_rate_example :
    length (frames (λ x. x == 0) three_frames (sending_client, world)).0.outbox * 66 + 0
    ≤ 0 * 66 + (frames (λ x. x == 0) three_frames (sending_client, world)).1.last_state_sent_ms
state_rate_example =
    state_rate (λ x. x == 0) three_frames sending_client world
      (omega arith, omega arith, (omega arith, omega arith, (omega arith, omega arith, tt)))

abbrev busy : NetClient
busy = record client { tasks = record { waiting = apply_pong ∷ apply_pong ∷ [] } }

abbrev quiet : Shared
quiet = record {
  queue = record { waiting = thread_check ∷ [] };
  drain_thread_id = 0;
  task_ran_off_drain_thread = false;
  tasks_run = 0;
  phase = λ u. idle;
}

overlap_flagged_example :
    (advance 1 (advance 2 (advance 1 (advance 1 quiet)))).task_ran_off_drain_thread ≡ true
overlap_flagged_example = overlap_flagged 1 2 quiet [] (omega arith) refl refl refl

abbrev checked_once : Shared
checked_once = advance 1 (advance 1 (advance 1 (post_job other_job quiet)))

-- A tick up to the task that checks its thread.
one_tick : Serial quiet checked_once
unfolding post_job advance cybermp.World.Threads.step_from cybermp.TaskQueue.take_slice
one_tick =
    ticked 1 (λ u e. ground (arith, e))
      (ticked 1 (λ u e. ground (arith, e)) (ticked 1 (λ u e. refl) (posted other_job here)))

flag_stays_off_example : checked_once.task_ran_off_drain_thread ≡ false
flag_stays_off_example = flag_stays_off (λ u. refl) refl one_tick

-- ===== src/World/Ticks.antt =====
-- WorldSystem::RunTick, SendLocalState and OnMultiplayerUpdate.
use cybermp.Base.{ℕ, ◌+◌, ◌%◌, ◌^◌, Bool, true, ◌&&◌, ltb, ◌==◌, if◌then◌else◌}
use cybermp.Proto.Messages.{Vec3}
use cybermp.TaskQueue.{drain}
use cybermp.NetClient.{NetClient, bump, elapsed}
use cybermp.NetClient.Game.{send_state, run_task}
use cybermp.World.{Engine, World}
use cybermp.World.Aim.{Floats}
use cybermp.World.Drive.{pump_remote_players}

abbrev pub state_send_interval_ms : ℕ
state_send_interval_ms = 66

abbrev pub tick_budget : ℕ
tick_budget = 64

-- `is_zero` is the comparison of a float with 0.0f.
abbrev pub no_player : (ℕ → Bool) → Vec3 → Bool
no_player is_zero p = is_zero p.x && (is_zero p.y && is_zero p.z)

-- `position` is GetPlayerPosition, and `delivered` what SendTo returns.
unfoldable pub send_local_state :
    (ℕ → Bool) → ℕ → Vec3 → Bool → NetClient × World → NetClient × World
send_local_state is_zero now position delivered (net, w) =
    if ltb (elapsed now w.last_state_sent_ms) state_send_interval_ms
    then (net, w)
    else if no_player is_zero position
    then (net, w)
    else ((send_state delivered position 0 net).1, record w { last_state_sent_ms = now })

-- The drain of the task queue by a tick: the queue is taken from the client that holds it.
unfoldable pub drain_tasks : NetClient → ℕ × NetClient
drain_tasks net =
    let (ran, net', left) = drain (λ t. true) run_task tick_budget net net.tasks in
    (ran, record net' { tasks = left })

-- The tick group whose counter moves.
pub data TickGroup : Type 0 where
  frame_begin multiplayer : TickGroup

count_tick : TickGroup → World → World
count_tick frame_begin w = record w { frame_begin_ticks = bump w.frame_begin_ticks }
count_tick multiplayer w = record w { multiplayer_ticks = bump w.multiplayer_ticks }

-- `micros` is how long the tick took. The exchange loop on the maximum leaves the larger one.
after_drain : ℕ → ℕ → ℕ → World → World
after_drain thread micros ran w = record w {
  tick_thread_id = thread;
  tick_thread_changes =
      if w.tick_thread_id == thread then w.tick_thread_changes else bump w.tick_thread_changes;
  drain_thread_id = thread;
  tasks_run = if ran == 0 then w.tasks_run else (w.tasks_run + ran) % 2 ^ 64;
  max_tick_micros = if ltb w.max_tick_micros micros then micros else w.max_tick_micros;
}

unfoldable pub run_tick : TickGroup → ℕ → ℕ → ℕ → NetClient × World → NetClient × World
unfolding count_tick after_drain
run_tick group delta_time thread micros (net, w) =
    let (ran, net') = drain_tasks net in
    (
      net',
      after_drain thread micros ran (record (count_tick group w) { last_delta_time = delta_time }),
    )

-- OnMultiplayerUpdate: the tick, then the remote bodies, then our own state.
unfoldable pub on_multiplayer_update :
    {G : Type 0}
    → Floats
    → Engine G
    → (ℕ → Bool)
    → (delta_time thread micros now : ℕ) → Vec3
    → Bool
    → NetClient × World × G
    → NetClient × World × G
unfolding run_tick send_local_state
on_multiplayer_update F E is_zero delta_time thread micros now position delivered (net, w, g) =
    let (ticked, w1) = run_tick multiplayer delta_time thread micros (net, w) in
    let (pumped, w2, g') = pump_remote_players F E now (ticked, w1, g) in
    let (posted, w3) = send_local_state is_zero now position delivered (pumped, w2) in
    (posted, w3, g')

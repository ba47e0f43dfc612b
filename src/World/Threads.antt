-- ===== src/World/Threads.antt =====
-- The threads of WorldSystem.cpp around the task queue: the engine calls RunTick on its workers, two
-- of them at once perhaps, and PostTasksFromThread pushes from its own. A step is what a thread does
-- with one atomic or under one lock; a thread is its CurrentThreadId.
pub mod Serial
pub mod Overlaps
use cybermp.Base.{ℕ, ◌+◌, ◌%◌, ◌^◌, List, [], ◌∷◌, Bool, true, ◌==◌, if◌then◌else◌, length}
use cybermp.TaskQueue.{TaskQueue, push, take_slice}
use cybermp.World.Ticks.{tick_budget}

-- A task of PostTasksFromThread, which looks at the thread that it runs on, or another.
pub data Job : Type 0 where
  thread_check other_job : Job

-- Where a worker is in RunTick: outside it, before Drain, or in Drain with the size of its slice and
-- what is left of it.
pub data Phase : Type 0 where
  idle stored : Phase
  running : ℕ → List Job → Phase

pub record Shared : Type 0 where
  pub queue : TaskQueue Job
  pub drain_thread_id : ℕ
  pub task_ran_off_drain_thread : Bool
  pub tasks_run : ℕ
  pub phase : ℕ → Phase

abbrev pub put_phase : ℕ → Phase → Shared → Shared
put_phase thread p s = record s { phase = λ u. if u == thread then p else s.phase u }

-- One push of the producer.
unfoldable pub post_job : Job → Shared → Shared
post_job job s = record s { queue = push (λ j. true) job s.queue }

unfoldable pub run_job : ℕ → Job → Shared → Shared
run_job thread other_job s = s
run_job thread thread_check s =
    if thread == s.drain_thread_id then s else record s { task_ran_off_drain_thread = true }

-- RunTick adds what Drain returns.
abbrev pub finish_drain : ℕ → Shared → Shared
finish_drain ran s = record s {
  tasks_run = if ran == 0 then s.tasks_run else (s.tasks_run + ran) % 2 ^ 64;
}

-- The next step of a worker in this phase.
unfoldable pub step_from : ℕ → Phase → Shared → Shared
unfolding run_job
step_from thread idle s = put_phase thread stored (record s { drain_thread_id = thread })
step_from thread stored s =
    let (jobs, left) = take_slice tick_budget s.queue in
    put_phase thread (running (length jobs) jobs) (record s { queue = left })
step_from thread (running ran []) s = put_phase thread idle (finish_drain ran s)
step_from thread (running ran (job ∷ jobs)) s =
    put_phase thread (running ran jobs) (run_job thread job s)

unfoldable pub advance : ℕ → Shared → Shared
unfolding step_from
advance thread s = step_from thread (s.phase thread) s

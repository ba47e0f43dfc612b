-- ===== src/World/Threads/Overlaps.antt =====
-- Two ticks of WorldSystem.cpp at once.
use cybermp.Base.{
  ℕ, ◌≡◌, ◌≢◌, ◌<◌, ◌++◌, ◌∙◌, refl, sym, List, [], ◌∷◌, true, false, ◌==◌, arith, length, ==-refl,
}
use cybermp.TaskQueue.{take_slice}
use cybermp.TaskQueue.Fifo.{take_slice_lem}
use cybermp.World.Ticks.{tick_budget}
use cybermp.World.Threads.{
  Job, thread_check, Phase, idle, stored, running, Shared, put_phase, run_job, step_from, advance,
}

own_phase : (thread : ℕ) (p : Phase) (s : Shared) → (put_phase thread p s).phase thread ≡ p
own_phase thread p s = rw (==-refl thread) refl

other_phase :
    (thread u : ℕ) (p : Phase) (s : Shared)
    → u ≢ thread
    → (put_phase thread p s).phase u ≡ s.phase u
other_phase thread u p s apart =
    let other : (u == thread) ≡ false = ground (arith, apart) in rw other refl

entered :
    (thread : ℕ) (s : Shared)
    → s.phase thread ≡ idle
    → advance thread s ≡ put_phase thread stored (record s { drain_thread_id = thread })
unfolding advance step_from
entered thread s outside = rw outside refl

-- In Drain, with a check as the next task.
abbrev IsChecking : ℕ → Shared → Type 0
IsChecking thread s =
    (ran : ℕ) × (jobs : List Job) × (s.phase thread ≡ running ran (thread_check ∷ jobs))

-- A part of a list that is not empty starts as the list does.
first_of :
    (xs ys : List Job) (z : Job) (zs : List Job)
    → xs ++ ys ≡ z ∷ zs
    → 0 < length xs
    → (more : List Job) × (xs ≡ z ∷ more)
first_of [] ys z zs e h = absurd (omega (arith, h))
first_of (x ∷ xs) ys z zs e h = let same : x ≡ z = cc in (xs, rw same refl)

drained :
    (thread : ℕ) (s : Shared) (jobs : List Job)
    → s.phase thread ≡ stored
    → s.queue.waiting ≡ thread_check ∷ jobs
    → IsChecking thread (advance thread s)
unfolding advance step_from
drained thread s jobs before waits =
    let (whole, size) = take_slice_lem tick_budget s.queue in
    let some_jobs : 0 < length (take_slice tick_budget s.queue).0 = ground (arith, size, waits) in
    let (more, e) =
      first_of (take_slice tick_budget s.queue).0 (take_slice tick_budget s.queue).1.waiting
        thread_check jobs (whole ∙ waits) some_jobs in
    (length (take_slice tick_budget s.queue).0, more, rw (before, ==-refl thread, e) refl)

drained-others :
    (thread u : ℕ) (s : Shared)
    → s.phase thread ≡ stored
    → u ≢ thread
    → (advance thread s).phase u ≡ s.phase u
unfolding advance step_from
drained-others thread u s before apart =
    let (jobs, left) = take_slice tick_budget s.queue in
    rw before (other_phase thread u (running (length jobs) jobs) (record s { queue = left }) apart)

checked :
    (thread : ℕ) (s : Shared)
    → IsChecking thread s
    → thread ≢ s.drain_thread_id
    → (advance thread s).task_ran_off_drain_thread ≡ true
unfolding advance step_from run_job
checked thread s (ran, jobs, at) apart =
    let other : (thread == s.drain_thread_id) ≡ false = ground (arith, apart) in rw (at, other) refl

-- A worker that is in Drain when another enters RunTick.
overtaken :
    (first second : ℕ) (s : Shared)
    → first ≢ second
    → IsChecking first s
    → s.phase second ≡ idle
    → (advance first (advance second s)).task_ran_off_drain_thread ≡ true
overtaken first second s apart (ran, jobs, at) outside = rw (entered second s outside) (
    checked first (put_phase second stored (record s { drain_thread_id = second }))
      (ran, jobs, other_phase second first stored s apart ∙ at) apart)

-- If two different workers are outside RunTick and the first task that waits checks its thread:
-- when the first worker has taken its slice, the second enters RunTick, and then the first runs
-- that task, the flag that a task ran off the draining thread is set.
pub overlap_flagged :
    (first second : ℕ) (s : Shared) (jobs : List Job)
    → first ≢ second
    → s.phase first ≡ idle
    → s.phase second ≡ idle
    → s.queue.waiting ≡ thread_check ∷ jobs
    → (advance first (advance second (advance first (advance first s)))).task_ran_off_drain_thread
      ≡ true
overlap_flagged first second s jobs apart out outside waits =
    let inside = put_phase first stored (record s { drain_thread_id = first }) in
    rw (entered first s out) (
      overtaken first second (advance first inside) apart
        (drained first inside jobs (own_phase first stored s) waits)
        (drained-others first second inside (own_phase first stored s) (λ e. apart (sym e))
          ∙ (other_phase first second stored s (λ e. apart (sym e)) ∙ outside)))

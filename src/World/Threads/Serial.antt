-- ===== src/World/Threads/Serial.antt =====
-- Ticks of WorldSystem.cpp that do not overlap.
use cybermp.Base.{
  ℕ, ◌≡◌, ◌≢◌, refl, [], ◌∷◌, true, false, ◌==◌, if◌then◌else◌, arith, Bool-cases, inl, inr, ==→eq,
}
use cybermp.World.Threads.{
  Job, thread_check, other_job, Phase, idle, stored, running, Shared, post_job, run_job, step_from,
  advance,
}

-- No other worker is in RunTick.
abbrev pub Alone : ℕ → Shared → Type 0
Alone thread s = (u : ℕ) → u ≢ thread → s.phase u ≡ idle

-- Posts at any time, and ticks of which each ends before the next begins.
pub data Serial (s : Shared) : Shared → Type 0 where
  here : Serial s s
  posted : {t : Shared} → (job : Job) → Serial s t → Serial s (post_job job t)
  ticked : {t : Shared} → (thread : ℕ) → Alone thread t → Serial s t → Serial s (advance thread t)

abbrev IsGuarded : Shared → Type 0
IsGuarded s =
    ((u : ℕ) → s.phase u ≢ idle → s.drain_thread_id ≡ u) × (s.task_ran_off_drain_thread ≡ false)

-- A worker that is in RunTick after a step of this one is this one.
only_here :
    (thread u : ℕ) (p : Phase) (s : Shared)
    → Alone thread s
    → (if u == thread then p else s.phase u) ≢ idle
    → u ≡ thread
only_here thread u p s alone busy = elim (Bool-cases (u == thread)) [
  | inl same ↦ ==→eq u thread same
  | inr other ↦ absurd (busy (rw other (alone u (λ e. ground (arith, e, other)))))
]

-- A step that keeps the stamp and the flag.
kept-IsGuarded :
    (thread : ℕ) (p : Phase) (s : Shared)
    → Alone thread s
    → s.phase thread ≢ idle
    → IsGuarded s
    → (u : ℕ) → (if u == thread then p else s.phase u) ≢ idle
    → s.drain_thread_id ≡ u
kept-IsGuarded thread p s alone inside (stamp, flag) u busy =
    let here : u ≡ thread = only_here thread u p s alone busy in
    let mine : s.drain_thread_id ≡ thread = stamp thread inside in cc

step_from-IsGuarded :
    (thread : ℕ) (p : Phase) (s : Shared)
    → Alone thread s
    → s.phase thread ≡ p
    → IsGuarded s
    → IsGuarded (step_from thread p s)
unfolding step_from run_job
step_from-IsGuarded thread idle s alone at g =
    (λ u busy. let here : u ≡ thread = only_here thread u stored s alone busy in cc, g.1)
step_from-IsGuarded thread stored s alone at g =
    (λ u busy. kept-IsGuarded thread _ s alone (λ e. cc) g u busy, g.1)
step_from-IsGuarded thread (running ran []) s alone at g =
    (kept-IsGuarded thread idle s alone (λ e. cc) g, g.1)
step_from-IsGuarded thread (running ran (other_job ∷ jobs)) s alone at g =
    (kept-IsGuarded thread (running ran jobs) s alone (λ e. cc) g, g.1)
step_from-IsGuarded thread (running ran (thread_check ∷ jobs)) s alone at g =
    let mine : s.drain_thread_id ≡ thread = g.0 thread (λ e. cc) in
    let same : (thread == s.drain_thread_id) ≡ true = ground (arith, mine) in
    rw same (kept-IsGuarded thread (running ran jobs) s alone (λ e. cc) g, g.1)

Serial-IsGuarded : {s t : Shared} → IsGuarded s → Serial s t → IsGuarded t
unfolding post_job advance
Serial-IsGuarded g here = g
Serial-IsGuarded g (posted job r) = Serial-IsGuarded g r
Serial-IsGuarded g (ticked {t = t} thread alone r) =
    step_from-IsGuarded thread (t.phase thread) t alone refl (Serial-IsGuarded g r)

-- From a state where no worker is in RunTick and the flag is off, through any posts and any ticks
-- of which each ends before the next begins, on whatever threads: the flag that a task ran off the
-- draining thread stays off.
pub flag_stays_off :
    {s t : Shared}
    → ((u : ℕ) → s.phase u ≡ idle)
    → s.task_ran_off_drain_thread ≡ false
    → Serial s t
    → t.task_ran_off_drain_thread ≡ false
flag_stays_off quiet flag r = (Serial-IsGuarded (λ u busy. absurd (busy (quiet u)), flag) r).1

-- ===== src/Tests/Queue.antt =====
-- Examples for src/common/TaskQueue.hpp. A task that is 0 cannot be called; 9 pushes two more.
use cybermp.Base.{
  ℕ, ◌+◌, ◌≡◌, refl, List, [], ◌∷◌, ◌++◌, Bool, not, length, ◌==◌, if◌then◌else◌, filter_by,
}
use cybermp.TaskQueue.{TaskQueue, drain, take_slice, pending, push}
use cybermp.TaskQueue.Fifo.{drain_lem, effects}
use cybermp.TaskQueue.Schedule.{
  Event, pushes, takes, clears, History, schedule, pushed, record_of, record_of-schedule,
}

abbrev callable : ℕ → Bool
callable t = not (t == 0)

abbrev run : ℕ → ℕ → ℕ × List ℕ
run t w = (w + t, if t == 9 then 0 ∷ 4 ∷ [] else [])

abbrev backlog : TaskQueue ℕ
backlog = record { waiting = 1 ∷ 9 ∷ 5 ∷ [] }

drained_two : drain callable run 2 0 backlog ≡ (2, 10, record { waiting = 5 ∷ 4 ∷ [] })
unfolding drain take_slice cybermp.TaskQueue.run_all cybermp.TaskQueue.push_all
drained_two = refl

drain_example :
    let s = take_slice 2 backlog in
    let d = drain callable run 2 0 backlog in
    (d.0 ≡ length s.0)
    × (d.1 ≡ (effects callable run s.0 0).0)
    × (d.2.waiting ≡ s.1.waiting ++ (effects callable run s.0 0).1)
drain_example = drain_lem callable run 2 0 backlog

abbrev events : List (Event ℕ)
events = pushes 3 ∷ takes 1 ∷ pushes 0 ∷ clears ∷ pushes 7 ∷ []

abbrev start : History ℕ
start = record { queue = backlog; gone = [] }

record_of-schedule_example :
    record_of callable (schedule callable events start)
    ≡ record_of callable start ++ filter_by callable (pushed callable events)
record_of-schedule_example = record_of-schedule callable events start

-- ===== src/TaskQueue.antt =====
-- src/common/TaskQueue.hpp: core::TaskQueue. A task is a value of any type; `callable` is the test
-- of a std::function, and `call` runs a task on the rest of the program and lists what it pushes.
-- The part of a method that holds the mutex is one function.
pub mod Fifo
pub mod Schedule
use cybermp.Base.{
  ℕ, List, [], ◌∷◌, ◌++◌, Bool, true, false, ◌||◌, length, take, drop, leb, ◌==◌, if◌then◌else◌,
}

pub record TaskQueue (Task : Type 0) : Type 0 where
  pub waiting : List Task

module _ {Task : Type 0} where
  abbrev pub empty : TaskQueue Task
  empty = record { waiting = [] }

  unfoldable pub push : (Task → Bool) → Task → TaskQueue Task → TaskQueue Task
  push callable task q = if callable task then record { waiting = q.waiting ++ (task ∷ []) } else q

  -- The locked part of Drain: the slice that this call runs, and the queue that it leaves.
  slice : ℕ → List Task → List Task × TaskQueue Task
  slice budget [] = ([], empty)
  slice budget (task ∷ tasks) =
      if (budget == 0) || leb (length (task ∷ tasks)) budget
      then (task ∷ tasks, empty)
      else (take budget (task ∷ tasks), record { waiting = drop budget (task ∷ tasks) })

  unfoldable pub take_slice : ℕ → TaskQueue Task → List Task × TaskQueue Task
  unfolding slice
  take_slice budget q = slice budget q.waiting

  unfoldable pub pending : TaskQueue Task → ℕ
  pending q = length q.waiting

  unfoldable pub clear : TaskQueue Task → TaskQueue Task
  clear q = empty

module _ {Task : Type 0} (callable : Task → Bool) where
  unfoldable pub push_all : List Task → TaskQueue Task → TaskQueue Task
  unfolding push
  push_all [] q = q
  push_all (task ∷ tasks) q = push_all tasks (push callable task q)

module _ {Task World : Type 0} (callable : Task → Bool)
    (call : Task → World → World × List Task) where
  -- The tasks of the slice run in order, outside the lock; what they push joins the queue.
  unfoldable pub run_all : List Task → World → TaskQueue Task → World × TaskQueue Task
  run_all [] w q = (w, q)
  run_all (task ∷ tasks) w q =
      let (w', pushed) = call task w in run_all tasks w' (push_all callable pushed q)

  -- The count, the world and the queue after the call.
  unfoldable pub drain : ℕ → World → TaskQueue Task → ℕ × World × TaskQueue Task
  drain budget w q =
      let (running, left) = take_slice budget q in
      let (w', q') = run_all running w left in (length running, w', q')

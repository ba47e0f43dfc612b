-- ===== src/TaskQueue/Fifo.antt =====
-- TaskQueue::Drain: its slice, and what the tasks push.
use Prim.Native.Nat.{min}
use cybermp.Base.{
  ℕ, zero, suc, ◌≤◌, ◌<◌, ◌≡◌, refl, ◌∙◌, ap, sym, List, [], ◌∷◌, ◌++◌, Bool, length, drop, ◌==◌,
  if◌then◌else◌, arith, append_assoc, append-nil, take-append-drop, length-take, drop-nil,
  filter_by,
}
use cybermp.TaskQueue.{TaskQueue, take_slice, push_all, run_all, drain}

module _ {Task : Type 0} where
  -- The slice and what is left are the queue; the slice is everything under budget 0, and otherwise
  -- the first `budget` tasks, or all of a shorter queue.
  slice_split :
      (budget : ℕ) (tasks : List Task)
      → let s = take_slice budget (record { waiting = tasks }) in
        (s.0 ++ s.1.waiting ≡ tasks)
        × (length s.0 ≡ (if budget == 0 then length tasks else min budget (length tasks)))
  unfolding take_slice
  slice_split budget [] = (refl, ground arith)
  slice_split budget (t ∷ ts) = (
    ground (arith, append-nil (t ∷ ts), take-append-drop budget (t ∷ ts)),
    ground (arith, length-take budget (t ∷ ts)),
  )

  pub take_slice_lem :
      (budget : ℕ) (q : TaskQueue Task)
      → ((take_slice budget q).0 ++ (take_slice budget q).1.waiting ≡ q.waiting)
        × (length (take_slice budget q).0
            ≡ (if budget == 0 then length q.waiting else min budget (length q.waiting)))
  take_slice_lem budget q = slice_split budget q.waiting

  pub drop_all : (n : ℕ) (xs : List Task) → length xs ≤ n → drop n xs ≡ []
  drop_all n [] k = drop-nil n
  drop_all zero (x ∷ xs) k = absurd (omega arith)
  drop_all (suc n) (x ∷ xs) k = drop_all n xs (omega arith)

  pub slice_left :
      (budget : ℕ) (tasks : List Task)
      → 0 < budget
      → (take_slice budget (record { waiting = tasks })).1.waiting ≡ drop budget tasks
  unfolding take_slice
  slice_left budget [] h = rw (drop-nil budget)
  slice_left budget (t ∷ ts) h = ground (arith, drop_all budget (t ∷ ts))

module _ {Task World : Type 0} (callable : Task → Bool)
    (call : Task → World → World × List Task) where
  -- What the tasks do to the world, and what they push, with no queue in sight.
  pub effects : List Task → World → World × List Task
  effects [] w = (w, [])
  effects (t ∷ ts) w =
      let (w', pushed) = call t w in
      let (w'', more) = effects ts w' in (w'', filter_by callable pushed ++ more)

  push_all_lem :
      (ts : List Task) (q : TaskQueue Task)
      → (push_all callable ts q).waiting ≡ q.waiting ++ filter_by callable ts
  unfolding push_all filter_by
  push_all_lem [] q = sym (append-nil q.waiting)
  push_all_lem (t ∷ ts) q = ground (
    arith,
    push_all_lem ts q,
    push_all_lem ts (record { waiting = q.waiting ++ (t ∷ []) }),
    append_assoc q.waiting (t ∷ []) (filter_by callable ts),
  )

  run_all_lem :
      (ts : List Task) (w : World) (q : TaskQueue Task)
      → ((run_all callable call ts w q).0 ≡ (effects ts w).0)
        × ((run_all callable call ts w q).1.waiting ≡ q.waiting ++ (effects ts w).1)
  unfolding run_all effects
  run_all_lem [] w q = (refl, sym (append-nil q.waiting))
  run_all_lem (t ∷ ts) w q =
      let (w', pushed) = call t w in
      let ih = run_all_lem ts (call t w).0 (push_all callable (call t w).1 q) in
      (
        ih.0,
        ih.1
            ∙ ap (λ xs. xs ++ (effects ts (call t w).0).1) (push_all_lem (call t w).1 q)
            ∙ append_assoc q.waiting _ _,
      )

  -- Drain returns the size of its slice, runs the slice's tasks in order on the world, and leaves
  -- the rest of the queue followed by the callable tasks that those pushed, in order.
  pub drain_lem :
      (budget : ℕ) (w : World) (q : TaskQueue Task)
      → let s = take_slice budget q in
        let d = drain callable call budget w q in
        (d.0 ≡ length s.0)
        × (d.1 ≡ (effects s.0 w).0)
        × (d.2.waiting ≡ s.1.waiting ++ (effects s.0 w).1)
  unfolding drain
  drain_lem budget w q =
      let ran = run_all_lem (take_slice budget q).0 w (take_slice budget q).1 in
      (refl, ran.0, ran.1)

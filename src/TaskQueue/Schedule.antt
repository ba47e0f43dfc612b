-- ===== src/TaskQueue/Schedule.antt =====
-- TaskQueue, when threads push, drain and clear; the lock makes each of these one event.
use cybermp.Base.{
  ℕ, zero, suc, ◌+◌, ◌*◌, ◌≤◌, ◌<◌, ◌≡◌, refl, ◌∙◌, ap, sym, List, [], ◌∷◌, ◌++◌, map, Bool, drop,
  arith, append_assoc, list_laws, append-nil, filter_by, Bool-cases, inl, inr, drop-add,
}
use mathlib.Core.List.{map-append}
use cybermp.TaskQueue.{TaskQueue, push, take_slice, clear, pending}
use cybermp.TaskQueue.Fifo.{take_slice_lem, slice_left, drop_all}

pub data Event (Task : Type 0) : Type 0 where
  pushes : Task → Event Task
  takes : ℕ → Event Task
  clears : Event Task

-- How a task left the queue.
pub data Departure (Task : Type 0) : Type 0 where
  taken : Task → Departure Task
  cleared : Task → Departure Task

abbrev pub departed : {Task : Type 0} → Departure Task → Task
departed (taken t) = t
departed (cleared t) = t

pub record History (Task : Type 0) : Type 0 where
  pub queue : TaskQueue Task
  pub gone : List (Departure Task)

module _ {Task : Type 0} (callable : Task → Bool) where
  unfoldable pub happens : Event Task → History Task → History Task
  happens (pushes t) h = record h { queue = push callable t h.queue }
  happens (takes budget) h = record {
    queue = (take_slice budget h.queue).1;
    gone = h.gone ++ map taken (take_slice budget h.queue).0;
  }
  happens clears h = record { queue = clear h.queue; gone = h.gone ++ map cleared h.queue.waiting }

  unfoldable pub schedule : List (Event Task) → History Task → History Task
  schedule [] h = h
  schedule (e ∷ es) h = schedule es (happens e h)

  abbrev pub pushed : List (Event Task) → List Task
  pushed [] = []
  pushed (pushes t ∷ es) = t ∷ pushed es
  pushed (takes budget ∷ es) = pushed es
  pushed (clears ∷ es) = pushed es

  -- All that was ever in the queue, in the order of its pushes.
  abbrev pub record_of : History Task → List Task
  record_of h = map departed h.gone ++ h.queue.waiting

  departed-map :
      (make : Task → Departure Task) (ts : List Task)
      → ((t : Task) → departed (make t) ≡ t)
      → map departed (map make ts) ≡ ts
  departed-map make [] e = refl
  departed-map make (t ∷ ts) e = rw (e t, departed-map make ts e)

  moved :
      (gone : List (Departure Task)) (make : Task → Departure Task) (ts left all : List Task)
      → ((t : Task) → departed (make t) ≡ t)
      → ts ++ left ≡ all
      → map departed (gone ++ map make ts) ++ left ≡ map departed gone ++ all
  moved gone make ts left all e split = rw (
    map-append departed gone (map make ts),
    departed-map make ts e,
    append_assoc (map departed gone) ts left,
    split,
  )

  happens-record_of :
      (e : Event Task) (es : List (Event Task)) (h : History Task)
      → record_of (happens e h) ++ filter_by callable (pushed es)
        ≡ record_of h ++ filter_by callable (pushed (e ∷ es))
  unfolding happens push clear filter_by
  happens-record_of (pushes t) es h = elim (Bool-cases (callable t)) [
    | inl e ↦ rw e (simp list_laws)
    | inr e ↦ rw e
  ]
  happens-record_of (takes budget) es h =
      ap (λ xs. xs ++ filter_by callable (pushed es))
        (moved h.gone taken _ _ h.queue.waiting (λ t. refl) (take_slice_lem budget h.queue).0)
  happens-record_of clears es h =
      ap (λ xs. xs ++ filter_by callable (pushed es))
        (moved h.gone cleared _ _ h.queue.waiting (λ t. refl) (append-nil h.queue.waiting))

  -- Through any pushes, takes and clears: the tasks that left the queue, in order, followed by
  -- those that wait, are those at first followed by the callable ones that were pushed, in the
  -- order of the pushes.
  pub record_of-schedule :
      (es : List (Event Task)) (h : History Task)
      → record_of (schedule es h) ≡ record_of h ++ filter_by callable (pushed es)
  unfolding schedule
  record_of-schedule [] h = unfold filter_by in sym (append-nil (record_of h))
  record_of-schedule (e ∷ es) h = record_of-schedule es (happens e h) ∙ happens-record_of e es h

module _ {Task : Type 0} where
  -- The queue after `n` drains with no push between them.
  pub drains : ℕ → ℕ → TaskQueue Task → TaskQueue Task
  drains zero budget q = q
  drains (suc n) budget q = drains n budget (take_slice budget q).1

  drains-drop :
      (n budget : ℕ) (q : TaskQueue Task)
      → 0 < budget
      → (drains n budget q).waiting ≡ drop (n * budget) q.waiting
  unfolding drains
  drains-drop zero budget q h = let e : zero * budget ≡ 0 = omega arith in rw e
  drains-drop (suc n) budget q h =
      let e : suc n * budget ≡ budget + n * budget = grind arith in
      drains-drop n budget (take_slice budget q).1 h
      ∙ ap (drop (n * budget)) (slice_left budget q.waiting h)
      ∙ rw (e, drop-add budget (n * budget) q.waiting)

  -- With a budget that is not 0, as many takes as the budget needs for what waits, with no push
  -- between them, leave nothing.
  pub drains_empty :
      (n budget : ℕ) (q : TaskQueue Task)
      → 0 < budget
      → pending q ≤ n * budget
      → pending (drains n budget q) ≡ 0
  unfolding pending
  drains_empty n budget q h enough =
      rw (drains-drop n budget q h, drop_all (n * budget) q.waiting enough)

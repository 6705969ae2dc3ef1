-- ===== src/Runq/Workers.antt =====
-- A worker of a run queue, among other threads that submit tasks, run tasks and ask the queue to quit.
-- Each step is a part of a function under the lock, or a call on the worker's event.
use libdlb.Base.{
  ℕ, suc, ◌≡◌, refl, Bool, true, false, List, [], ◌∷◌, ◌++◌, if◌then◌else◌, ◌||◌, ltb, ap, arith,
}
use libdlb.Runq.{Task, Runq, Next, quit, idle, runs, is_empty, append_task, take_one}

-- where the worker's thread is: in `thr_event_wait`, in front of `thr_event_clear`, in the inner loop,
-- or returned
pub data Stage : Type 0 where
  waiting woken draining returned : Stage

-- `raises` is how many calls of `runq_task_exec` have found the queue empty and have yet to raise the
-- worker's event.
pub record System (F : Type 0) : Type 0 where
  pub queue : Runq F
  pub stage : Stage
  pub event : Bool
  pub raises : ℕ

abbrev pub awake : Stage → Bool
awake woken = true
awake draining = true
awake waiting = false
awake returned = false

module _ {F : Type 0} where
  -- the stage after `run_one`
  abbrev pub after_run : Next F → Stage
  after_run quit = returned
  after_run idle = waiting
  after_run (runs t) = draining

  pub data Step (s : System F) : System F → Type 0 where
    -- `thr_event_wait` and `thr_event_clear`
    wakes : s.stage ≡ waiting → s.event ≡ true → Step s (record s { stage = woken })
    clears : s.stage ≡ woken → Step s (record s { stage = draining; event = false })
    -- `run_one` by the worker, and by another thread
    drains :
        s.stage ≡ draining
        → Step s (record s { stage = after_run (take_one s.queue).0; queue = (take_one s.queue).1 })
    others_run : Step s (record s { queue = (take_one s.queue).1 })
    -- the locked part of `runq_task_exec`, and the call of `thr_event_raise` for the worker
    submits :
        (t : Task F)
        → Step s (record s {
          queue = append_task t s.queue;
          raises = if is_empty s.queue.job_list then suc s.raises else s.raises;
        })
    raises_event : (n : ℕ) → s.raises ≡ suc n → Step s (record s { event = true; raises = n })
    -- `request_quit`, and the raise of `join_worker`
    asks_quit : Step s (record s { queue = record (s.queue) { quit_request = true } })
    joins : Step s (record s { event = true })

  pub data Reach : System F → Type 0 where
    start :
        (r : Runq F)
        → r.job_list ≡ []
        → r.quit_request ≡ false
        → Reach (record { queue = r; stage = waiting; event = false; raises = 0 })
    after : {s s2 : System F} → Reach s → Step s s2 → Reach s2

  -- Unless the queue is to quit, a task that is left has the worker awake, or to be woken by its event
  -- or by a raise that is on its way; and the worker has returned only if the queue is to quit.
  abbrev Kept : Stage → Bool → ℕ → Bool → List (Task F) → Type 0
  Kept stage event raises asked jobs =
      (asked ≡ false → is_empty jobs ≡ false → (awake stage || (event || ltb 0 raises)) ≡ true)
      × (stage ≡ returned → asked ≡ true)

  abbrev pub NoneLost : System F → Type 0
  NoneLost s = Kept s.stage s.event s.raises s.queue.quit_request s.queue.job_list

  is_empty-append : (jobs : List (Task F)) (t : Task F) → is_empty (jobs ++ (t ∷ [])) ≡ false
  is_empty-append [] t = refl
  is_empty-append (x ∷ jobs) t = refl

  drained :
      (r : Runq F) (stage : Stage) (event : Bool) (raises : ℕ)
      → stage ≡ draining
      → Kept stage event raises r.quit_request r.job_list
      → Kept
          (after_run (take_one r).0)
          event
          raises
          (take_one r).1.quit_request
          (take_one r).1.job_list
  drained r stage event raises at kept = go r.quit_request r.job_list refl refl
    where
      go :
          (asked : Bool) (jobs : List (Task F))
          → r.quit_request ≡ asked
          → r.job_list ≡ jobs
          → let next =
              (if asked then (quit, r) else elim jobs as (λ _. Next F × Runq F) [
                | [] ↦ (idle, r)
                | t ∷ ts ↦ (runs t, record r { job_list = ts })
              ]) in
            Kept (after_run next.0) event raises next.1.quit_request next.1.job_list
      go true jobs asked queued = (λ e f. absurd (ground (arith, asked, e)), λ e. asked)
      go false [] asked queued =
          (λ e f. absurd (ground (arith, ap is_empty queued, f)), λ e. absurd (ground (arith, e)))
      go false (t ∷ ts) asked queued = (λ e f. refl, λ e. absurd (ground (arith, e)))

  others_drained :
      (r : Runq F) (stage : Stage) (event : Bool) (raises : ℕ)
      → Kept stage event raises r.quit_request r.job_list
      → Kept stage event raises (take_one r).1.quit_request (take_one r).1.job_list
  others_drained r stage event raises kept = go r.quit_request r.job_list refl refl
    where
      go :
          (asked : Bool) (jobs : List (Task F))
          → r.quit_request ≡ asked
          → r.job_list ≡ jobs
          → let next =
              (if asked then (quit, r) else elim jobs as (λ _. Next F × Runq F) [
                | [] ↦ (idle, r)
                | t ∷ ts ↦ (runs t, record r { job_list = ts })
              ]) in
            Kept stage event raises next.1.quit_request next.1.job_list
      go true jobs asked queued = kept
      go false [] asked queued = kept
      go false (t ∷ ts) asked queued = (λ e f. kept.0 e (ap is_empty queued), kept.1)

  submitted :
      (jobs : List (Task F)) (t : Task F) (stage : Stage) (event : Bool) (raises : ℕ) (asked : Bool)
      → Kept stage event raises asked jobs
      → Kept stage event (if is_empty jobs then suc raises else raises) asked (jobs ++ (t ∷ []))
  submitted [] t stage event raises asked kept = (λ e f. ground arith, kept.1)
  submitted (x ∷ jobs) t stage event raises asked kept = (λ e f. kept.0 e refl, kept.1)

  Step-NoneLost : {s s2 : System F} → Step s s2 → NoneLost s → NoneLost s2
  Step-NoneLost (wakes at event) kept = (λ e f. refl, λ e. absurd (ground (arith, e)))
  Step-NoneLost (clears at) kept = (λ e f. refl, λ e. absurd (ground (arith, e)))
  Step-NoneLost {s} (drains at) kept = drained s.queue s.stage s.event s.raises at kept
  Step-NoneLost {s} others_run kept = others_drained s.queue s.stage s.event s.raises kept
  Step-NoneLost {s} (submits t) kept =
      submitted s.queue.job_list t s.stage s.event s.raises s.queue.quit_request kept
  Step-NoneLost {s} (raises_event n e) kept = (λ e f. ground arith, kept.1)
  Step-NoneLost asks_quit kept = (λ e f. absurd (ground (arith, e)), λ e. refl)
  Step-NoneLost joins kept = (λ e f. ground arith, kept.1)

  -- However a worker's steps interleave with other threads: as long as the queue is not asked to quit, a
  -- task that is queued has the worker awake, or its event raised, or a raise of it on its way; and the
  -- worker returns only if the queue is asked to quit.
  pub no_task_lost : (s : System F) → Reach s → NoneLost s
  no_task_lost s (start r empty asked) =
      (λ e f. absurd (ground (arith, ap is_empty empty, f)), λ e. absurd (ground (arith, e)))
  no_task_lost s (after r step) = Step-NoneLost step (no_task_lost _ r)

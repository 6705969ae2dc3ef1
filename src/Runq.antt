-- ===== src/Runq.antt =====
-- The queue of tasks of io/runq.c and io/runq.h. A task is known by its address; an element of `F` is a
-- task's function.
pub mod Fifo
pub mod Workers
pub mod Jobs
pub mod Start
mod Tests
use libdlb.Base.{
  ℕ, zero, suc, ◌+◌, Bool, true, false, ◌||◌, Option, none, some, List, [], ◌∷◌, ◌++◌, map, ltb,
  ◌==◌, if◌then◌else◌, Outcome, done, out_of_fuel, ◌>>=◌,
}
use libdlb.Base.Words.{u32}

pub record Task (F : Type 0) : Type 0 where
  pub address : ℕ
  pub func : F

-- `wakeup` is whether the hook is set, and `wakeups` how often it was called; `events` are the events
-- of the workers.
pub record Runq (F : Type 0) : Type 0 where
  pub wakeup : Bool
  pub wakeups : ℕ
  pub events : List Bool
  pub job_list : List (Task F)
  pub quit_request : Bool

-- what `run_one` does: return -1, return 0, or call the task
pub data Next (F : Type 0) : Type 0 where
  quit idle : Next F
  runs : Task F → Next F

module _ {F : Type 0} where
  abbrev pub is_empty : List (Task F) → Bool
  is_empty [] = true
  is_empty (t ∷ ts) = false

  -- `runq_task_exec`: the locked part, and then the wakeups
  abbrev pub append_task : Task F → Runq F → Runq F
  append_task t r = record r { job_list = r.job_list ++ (t ∷ []) }

  abbrev pub wake : Runq F → Runq F
  wake r = record r {
    events = map (λ e. true) r.events;
    wakeups = if r.wakeup then suc r.wakeups else r.wakeups;
  }

  abbrev pub task_exec : Task F → Runq F → Runq F
  task_exec t r = if is_empty r.job_list then wake (append_task t r) else append_task t r

  -- `run_one` up to the call of the task
  abbrev pub take_one : Runq F → Next F × Runq F
  take_one r = if r.quit_request then (quit, r) else elim r.job_list as (λ _. Next F × Runq F) [
    | [] ↦ (idle, r)
    | t ∷ ts ↦ (runs t, record r { job_list = ts })
  ]

-- `call` is what a task does when it runs: a new state of the client's, and the tasks that it submits.
module _ {F W : Type 0} (call : Task F → W → W × List (Task F)) where
  abbrev pub submit : List (Task F) → Runq F → Runq F
  submit [] r = r
  submit (t ∷ ts) r = submit ts (task_exec t r)

  -- `runq_dispatch`, where `count` is an int that is compared as an unsigned one
  pub dispatch : ℕ → ℕ → ℕ → W → Runq F → Outcome (ℕ × W × Runq F)
  dispatch zero limit count w r = out_of_fuel
  dispatch (suc rounds) limit count w r = elim (limit == 0 || ltb count limit) [
    | false ↦ done (count, w, r)
    | true ↦ elim (take_one r).0 [
      | quit ↦ done (count, w, r)
      | idle ↦ done (count, w, r)
      | runs t ↦
          let (w2, ts) = call t w in
          dispatch rounds limit (u32 (count + 1)) w2 (submit ts (take_one r).1)
    ]
  ]

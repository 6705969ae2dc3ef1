-- ===== src/Runq/Tests.antt =====
-- A run queue at small inputs, and the theorems there. A function is a number, and the client counts
-- the tasks that run.
use libdlb.Base.{
  Bool, ℕ, suc, ◌≡◌, refl, true, false, List, [], ◌∷◌, ◌==◌, if◌then◌else◌, arith, ltb,
}
use libdlb.Runq.{Task, Runq, task_exec, append_task, take_one}
use libdlb.Slist.{Slist, init, append, pop}
use libdlb.Runq.Jobs.{Holds, Agrees, append_task-append, take_one-pop}
use libdlb.Runq.Start
use libdlb.Runq.Workers.{waiting, System, start, after, submits, NoneLost, no_task_lost}

abbrev first : Task ℕ
first = record { address = 100; func = 1 }

abbrev second : Task ℕ
second = record { address = 200; func = 2 }

abbrev no_tasks : Runq ℕ
no_tasks = record {
  wakeup = true;
  wakeups = 0;
  events = false ∷ [];
  job_list = [];
  quit_request = false;
}

abbrev two_tasks : Runq ℕ
two_tasks = task_exec second (task_exec first no_tasks)

-- The first of the tasks wakes the workers, and the second does not.
one_wakeup :
    (two_tasks.wakeups ≡ 1)
    × (two_tasks.events ≡ true ∷ [])
    × (two_tasks.job_list ≡ first ∷ second ∷ [])
one_wakeup = (refl, refl, refl)

-- The first task submits the second again.
abbrev call : Task ℕ → ℕ → ℕ × List (Task ℕ)
call t n = if t.func == 1 then (suc n, second ∷ []) else (suc n, [])

abbrev one_queued : System ℕ
one_queued = record {
  queue = record no_tasks { job_list = first ∷ [] };
  stage = waiting;
  event = false;
  raises = 1;
}

no_task_lost_example : NoneLost one_queued
no_task_lost_example = no_task_lost one_queued (after (start no_tasks refl refl) (submits first))

abbrev blank : ℕ → ℕ
blank a = 0

-- the first task's link and the list, in memory
abbrev memory : (ℕ → ℕ) × Slist
memory = append 100 blank init

abbrev one_task : Runq ℕ
one_task = append_task first no_tasks

one_task-Holds : Holds memory.0 memory.1 one_task
one_task-Holds = append_task-append blank init no_tasks first (refl, refl, tt) (omega arith) tt

append_task-append_example :
    Holds
      (append 200 memory.0 memory.1).0
      (append 200 memory.0 memory.1).1
      (append_task second one_task)
append_task-append_example =
    append_task-append memory.0 memory.1 one_task second one_task-Holds (omega arith) (ground arith)

take_one-pop_example :
    Agrees (take_one one_task).0 (pop memory.0 memory.1).0
    × Holds memory.0 (pop memory.0 memory.1).1 (take_one one_task).1
take_one-pop_example = take_one-pop memory.0 memory.1 one_task one_task-Holds refl

-- Of three workers, of 40 bytes each, the event of the last can be made and its thread not started.
abbrev starting : ℕ → Bool
starting i = ltb i 2

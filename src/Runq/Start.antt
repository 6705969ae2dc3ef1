-- ===== src/Runq/Start.antt =====
-- The start and the end of the workers of a run queue: the calls that `runq_init` and `runq_destroy`
-- make for them, in order, without those that fail. Whether `malloc`, each `thr_event_init` and each
-- `thr_start` succeed are parameters, and so is the size of a `struct runq_worker`.
pub mod Machine
pub mod Calls
pub mod Life
use libdlb.Base.{
  ℕ, zero, suc, ◌*◌, ◌-◌, ◌^◌, Bool, true, false, List, [], ◌∷◌, ◌++◌, ◌==◌, if◌then◌else◌,
}
use libdlb.Base.Words.{u64}

-- A worker is known by its index, and a block by its size. `overflows` is an `int` that is counted past
-- its end.
pub data Call : Type 0 where
  allocates : ℕ → Call
  event_init starts raises joins event_destroy : ℕ → Call
  mutex_init mutex_destroy requests_quit frees overflows : Call

abbrev pub join_worker : ℕ → List Call
join_worker i = raises i ∷ joins i ∷ event_destroy i ∷ []

-- `i++` of the `int i`. Below that the comparison of `i` with the unsigned count is that of numbers.
pub count_on : ℕ → List Call
count_on i = if i == 2 ^ 31 - 1 then overflows ∷ [] else []

-- `while (i > 0) { i--; join_worker(&r->workers[i]); }`
abbrev pub join_down : ℕ → List Call
join_down zero = []
join_down (suc i) = join_worker i ++ join_down i

-- the loop of `runq_destroy`, with `left` workers to join
abbrev pub join_up : ℕ → ℕ → List Call
join_up zero i = []
join_up (suc left) i = join_worker i ++ (count_on i ++ join_up left (suc i))

pub destroy : ℕ → List Call
destroy num_workers =
    if num_workers == 0
    then mutex_destroy ∷ []
    else requests_quit ∷ (join_up num_workers 0 ++ (frees ∷ mutex_destroy ∷ []))

-- what `runq_init` does where the worker `i` cannot be started
abbrev pub give_up : ℕ → List Call
give_up i = requests_quit ∷ (join_down i ++ (frees ∷ mutex_destroy ∷ []))

module _ (events threads : ℕ → Bool) where
  -- Each function returns whether it returned 0, and its calls.
  abbrev pub init_worker : ℕ → Bool × List Call
  init_worker i =
      if events i
      then (if threads i
          then (true, event_init i ∷ starts i ∷ [])
          else (false, event_init i ∷ event_destroy i ∷ []))
      else (false, [])

  -- the loop of `runq_init` from the worker `i` on, with `left` workers to start
  abbrev pub start_from : ℕ → ℕ → Bool × List Call
  start_from zero i = (true, [])
  start_from (suc left) i =
      let rest = start_from left (suc i) in
      if (init_worker i).0
      then (rest.0, (init_worker i).1 ++ (count_on i ++ rest.1))
      else (false, (init_worker i).1 ++ give_up i)

  pub init : ℕ → Bool → ℕ → Bool × List Call
  init worker_size memory bg_workers =
      let r = start_from bg_workers 0 in
      if bg_workers == 0
      then (true, mutex_init ∷ [])
      else if memory
      then (r.0, mutex_init ∷ allocates (u64 (worker_size * bg_workers)) ∷ r.1)
      else (false, mutex_init ∷ mutex_destroy ∷ [])

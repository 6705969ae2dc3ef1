-- ===== src/Runq/Start/Life.antt =====
-- `runq_init` starts every worker or none, and `runq_destroy` ends them.
use libdlb.Base.{ℕ, zero, suc, ◌≡◌, Bool, true, false, ◌&&◌, none, some, List, [], if◌then◌else◌}
use libdlb.Runq.Start.{Call, destroy}
use libdlb.Runq.Start.Machine.{World, nothing, IsGone}
use libdlb.Runq.Start.Calls
use libdlb.Runq.Start.Calls.{all_run, gone}

module _ (worker_size : ℕ) (events threads : ℕ → Bool) where
  -- what is left of a start of `n` workers
  abbrev left_by : ℕ → Bool → World
  left_by n ok = if ok then all_run n else gone

  -- What a start of `n` workers leaves: all of them run if it succeeds, and otherwise nothing.
  abbrev pub LeftBy : ℕ → Bool → World → Type 0
  LeftBy zero true s = s ≡ record { lock = true; quitting = false; block = none }
  LeftBy (suc n) true s = s ≡ all_run (suc n)
  LeftBy n false s = IsGone s

  -- What a start with this result and these calls comes to, and an end behind it if it succeeded.
  abbrev pub LivesOut : ℕ → Bool × List Call → Type 0
  LivesOut n r =
      (s : World) × (t : World) × (Calls.runs worker_size r.1 nothing ≡ some s)
      × LeftBy n r.0 s
      × (Calls.runs worker_size (if r.0 then destroy n else []) s ≡ some t)
      × IsGone t

  -- whether the events and the threads of the workers from `i` on can be made
  abbrev pub all_start : ℕ → ℕ → Bool
  all_start zero i = true
  all_start (suc left) i = events i && (threads i && all_start left (suc i))

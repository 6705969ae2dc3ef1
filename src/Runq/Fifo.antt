-- ===== src/Runq/Fifo.antt =====
-- `runq_dispatch` runs the tasks in the order in which they were submitted.
use libdlb.Base.{ℕ, ◌+◌, ◌≡◌, ◌⊎◌, true, List, [], ◌∷◌, ◌++◌, length}
use libdlb.Runq.{Task, Runq}

module _ {F W : Type 0} (call : Task F → W → W × List (Task F)) where
  -- The tasks of a list run one after the other: the client's state behind them, and all that they
  -- submitted.
  abbrev pub trace : List (Task F) → W → W × List (Task F)
  trace [] w = (w, [])
  trace (t ∷ ts) w = ((trace ts (call t w).0).0, (call t w).1 ++ (trace ts (call t w).0).1)

  -- What a dispatch after `count` tasks comes to: the tasks `xs` have run, `w2` is the client's state
  -- behind them, and what was queued with all that they submitted is `xs` and what is left; the limit
  -- is reached, or the queue is to quit, or no task is left.
  abbrev pub Dispatched : ℕ → ℕ → W → Runq F → ℕ × W × Runq F → Type 0
  Dispatched limit count w r (count2, w2, r2) =
      (xs : List (Task F)) × (r.job_list ++ (trace xs w).1 ≡ xs ++ r2.job_list)
      × (w2 ≡ (trace xs w).0)
      × (count2 ≡ count + length xs)
      × ((count2 ≡ limit) ⊎ ((r2.quit_request ≡ true) ⊎ (r2.job_list ≡ [])))

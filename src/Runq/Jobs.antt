-- ===== src/Runq/Jobs.antt =====
-- The job list of a run queue in memory: a list of src/slist.c, linked through the tasks.
use libdlb.Base.{
  ℕ, ◌≡◌, ◌≢◌, refl, ap, sym, subst, Bool, true, false, Option, none, some, List, [], ◌∷◌, ◌++◌,
  map, if◌then◌else◌, arith,
}
use libdlb.Base.Perm.{All}
use libdlb.Runq.{Task, Runq, Next, quit, idle, runs, append_task, take_one}
use libdlb.Slist.{Slist, append, pop}
use libdlb.Slist.Nodes.{IsList, append-IsList, Popped, nothing, first, pop-Popped}

module _ {F : Type 0} where
  abbrev pub addresses : List (Task F) → List ℕ
  addresses ts = map (λ t. t.address) ts

  -- The memory has the queue's tasks in their order.
  abbrev pub Holds : (ℕ → ℕ) → Slist → Runq F → Type 0
  Holds next s r = IsList next s (addresses r.job_list)

  addresses-append :
      (ts : List (Task F)) (t : Task F)
      → addresses (ts ++ (t ∷ [])) ≡ addresses ts ++ (t.address ∷ [])
  addresses-append [] t = refl
  addresses-append (x ∷ ts) t = ap (λ l. x.address ∷ l) (addresses-append ts t)

  -- `slist_append` of a task, not NULL, that is not queued does in memory what `runq_task_exec` does to
  -- the queue's tasks.
  pub append_task-append :
      (next : ℕ → ℕ) (s : Slist) (r : Runq F) (t : Task F)
      → Holds next s r
      → t.address ≢ 0
      → All (λ a. t.address ≢ a) (addresses r.job_list)
      → Holds (append t.address next s).0 (append t.address next s).1 (append_task t r)
  append_task-append next s r t held some_task fresh =
      subst (IsList (append t.address next s).0 (append t.address next s).1)
        (sym (addresses-append r.job_list t))
        (append-IsList next s t.address (addresses r.job_list) held some_task fresh)

  -- what `slist_pop` returns, for what `run_one` is to do
  abbrev pub Agrees : Next F → Option ℕ → Type 0
  Agrees quit o = Unit
  Agrees idle o = o ≡ none
  Agrees (runs t) o = o ≡ some t.address

  -- Unless the queue is to quit, `slist_pop` in memory gives `run_one` the task that it runs, or NULL for
  -- none, and leaves the others.
  pub take_one-pop :
      (next : ℕ → ℕ) (s : Slist) (r : Runq F)
      → Holds next s r
      → r.quit_request ≡ false
      → Agrees (take_one r).0 (pop next s).0 × Holds next (pop next s).1 (take_one r).1
  take_one-pop next s r held stays =
      go r.quit_request r.job_list (pop next s) stays refl
        (pop-Popped next s (addresses r.job_list) held)
    where
      go :
          (asked : Bool) (jobs : List (Task F)) (p : Option ℕ × Slist)
          → asked ≡ false
          → r.job_list ≡ jobs
          → Popped next s (addresses jobs) p
          → let o =
              (if asked then (quit, r) else elim jobs as (λ _. Next F × Runq F) [
                | [] ↦ (idle, r)
                | t ∷ ts ↦ (runs t, record r { job_list = ts })
              ]) in
            Agrees o.0 p.0 × Holds next p.1 o.1
      go true jobs p e queued popped = absurd (ground (arith, e))
      go false [] p e queued nothing = (refl, held)
      go false (t ∷ ts) p e queued (first x xs s2 rest) = (refl, rest)

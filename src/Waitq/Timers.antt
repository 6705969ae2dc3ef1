-- ===== src/Waitq/Timers.antt =====
-- Waiting, cancelling and rescheduling.
use libdlb.Base.{
  ℕ, ◌+◌, ◌≡◌, ◌≢◌, refl, ap, ap₂, ◌∙◌, Bool, false, none, some, ◌∷◌, ◌==◌, if◌then◌else◌, done,
  ◌>>=◌, arith,
}
use libdlb.Base.Perm.{All, All-of_append}
use libdlb.Rbt.{Tree, leaf, node}
use libdlb.Rbt.Shape.{to_list}
use libdlb.Base.Words.{u64}
use libdlb.Rbt.Order.{lookup, insert as insert_list}
use libdlb.Runq.{task_exec}
use libdlb.Waitq.{
  Timer, Waitq, cmp_by_deadline, task, wset_add, write_fields, timer_wait, timer_cancel,
  timer_reschedule,
}
use libdlb.Waitq.Order.{erase, timers, IsValid}
use libdlb.Waitq.Set.{Added, wset_add-Added, Removed, absent, removed, wset_remove-Removed}

module _ {F : Type 0} where
  -- the timer with the deadline of an interval from now
  abbrev pub due : ℕ → ℕ → Timer F → Timer F
  due now interval t = record t { deadline = u64 (now + interval) }

  -- the timer does not wait
  abbrev pub IsIdle : Timer F → Waitq F → Type 0
  IsIdle t q = All (λ x. x.address ≢ t.address) (timers q)

  write_fields_idle :
      (t : Timer F) (s : Tree (Timer F))
      → All (λ x. x.address ≢ t.address) (to_list s)
      → write_fields t s ≡ s
  unfolding write_fields
  write_fields_idle t leaf h = refl
  write_fields_idle t (node l x r) h =
      let (low, (here, high)) =
        All-of_append (λ y. y.address ≢ t.address) (to_list l) (x.item ∷ to_list r) h in
      let other : (x.item.address == t.address) ≡ false = ground (arith, here) in
      rw other (ap₂ (λ a b. node a x b) (write_fields_idle t l low) (write_fields_idle t r high))

  -- `waitq_timer_wait` of a timer that does not wait already, on a valid queue, returns: the invariant
  -- holds, the timer stands at its place in the order of expiry, no task has been submitted, and the
  -- hook has been called, if it is set, just when the timer is the first to expire.
  pub timer_wait-Added :
      (now interval : ℕ) (func : F) (t : Timer F) (q : Waitq F)
      → IsValid q
      → IsIdle t q
      → let t2 = due now interval (record t { func = func }) in
        (q2 : Waitq F) × (timer_wait now interval func t q ≡ done (t2, q2)) × Added t2 q q2
  unfolding timer_wait
  timer_wait-Added now interval func t q v idle =
      let t2 = due now interval (record t { func = func }) in
      let (q2, e, added) = wset_add-Added t2 q v in
      (
        q2,
        ap (λ s. wset_add t2 (record q { waiting_set = s }) >>= λ q3. done (t2, q3))
              (write_fields_idle t2 q.waiting_set idle)
            ∙ ap (λ o. o >>= λ q3. done (t2, q3)) e,
        added,
      )

  -- What a cancellation comes to: the timer does not wait and nothing changes, or it is taken out, its
  -- task is submitted, and it has no deadline.
  pub data Cancelled (t : Timer F) (q : Waitq F) : Timer F × Waitq F → Type 0 where
    too_late : lookup (cmp_by_deadline t) (timers q) ≡ none → Cancelled t q (t, q)
    cancelled :
        (q2 : Waitq F) (x : Timer F)
        → lookup (cmp_by_deadline t) (timers q) ≡ some x
        → IsValid q2
        → timers q2 ≡ erase (cmp_by_deadline t) (timers q)
        → q2.run ≡ task_exec (task t) q.run
        → Cancelled t q (record t { deadline = 0 }, q2)

  -- `waitq_timer_cancel` on a valid queue returns: a timer that does not wait is left alone, with the
  -- queue, and one that waits is taken out, with the invariant kept, gets the deadline 0, and its task
  -- goes to the run queue, once.
  pub timer_cancel-Cancelled :
      (t : Timer F) (q : Waitq F)
      → IsValid q
      → (r : Timer F × Waitq F) × (timer_cancel t q ≡ done r) × Cancelled t q r
  unfolding timer_cancel
  timer_cancel-Cancelled t q v =
      let (r, runs, what) = wset_remove-Removed t q v in
      let (r2, e, sum) = go r what in
      (
        r2,
        ap
              (λ o. o >>= λ (found, wq2).
                if found
                then done
                    (record t { deadline = 0 }, record wq2 { run = task_exec (task t) wq2.run })
                else done (t, wq2))
              runs
            ∙ e,
        sum,
      )
    where
      go :
          (r : Bool × Waitq F)
          → Removed t q r
          → (r2 : Timer F × Waitq F) × ((if r.0
                then done
                    (record t { deadline = 0 }, record (r.1) { run = task_exec (task t) (r.1).run })
                else done (t, r.1))
              ≡ done r2)
            × Cancelled t q r2
      go r (absent e) = ((t, q), refl, too_late e)
      go r (removed q2 x found v2 order run hook) = (
        _,
        refl,
        cancelled (record q2 { run = task_exec (task t) q2.run }) x found v2 order
            (ap (task_exec (task t)) run),
      )

  -- What a new deadline comes to: the timer does not wait and nothing changes, or it goes to its new
  -- place.
  pub data Rescheduled (now interval : ℕ) (t : Timer F) (q : Waitq F)
      : Timer F × Waitq F → Type 0 where
    expired : lookup (cmp_by_deadline t) (timers q) ≡ none → Rescheduled now interval t q (t, q)
    rescheduled :
        (q2 : Waitq F) (x : Timer F)
        → lookup (cmp_by_deadline t) (timers q) ≡ some x
        → IsValid q2
        → timers q2
          ≡ insert_list
              (cmp_by_deadline (due now interval t))
              (due now interval t)
              (erase (cmp_by_deadline t) (timers q))
        → q2.run ≡ q.run
        → Rescheduled now interval t q (due now interval t, q2)

  -- `waitq_timer_reschedule` on a valid queue returns: a timer that does not wait is left alone, with
  -- the queue, and one that waits goes to the place of its new deadline, with the invariant kept and
  -- no task submitted.
  pub timer_reschedule-Rescheduled :
      (now interval : ℕ) (t : Timer F) (q : Waitq F)
      → IsValid q
      → (r : Timer F × Waitq F) × (timer_reschedule now interval t q ≡ done r)
        × Rescheduled now interval t q r
  unfolding timer_reschedule
  timer_reschedule-Rescheduled now interval t q v =
      let (r, runs, what) = wset_remove-Removed t q v in
      let (r2, e, sum) = go r what in
      (
        r2,
        ap
              (λ o. o >>= λ (found, wq2).
                if found
                then (wset_add (due now interval t) wq2 >>= λ wq3. done (due now interval t, wq3))
                else done (t, wq2))
              runs
            ∙ e,
        sum,
      )
    where
      go :
          (r : Bool × Waitq F)
          → Removed t q r
          → (r2 : Timer F × Waitq F) × ((if r.0
                then (wset_add (due now interval t) r.1 >>= λ wq3. done (due now interval t, wq3))
                else done (t, r.1))
              ≡ done r2)
            × Rescheduled now interval t q r2
      go r (absent e) = ((t, q), refl, expired e)
      go r (removed q2 x found v2 order run hook) =
          let (q3, e, (v3, place, same, _)) = wset_add-Added (due now interval t) q2 v2 in
          (
            (due now interval t, q3),
            ap (λ o. o >>= λ wq3. done (due now interval t, wq3)) e,
            rescheduled q3 x found v3
                (place
                  ∙ ap (insert_list (cmp_by_deadline (due now interval t)) (due now interval t))
                      order)
                (same ∙ run),
          )

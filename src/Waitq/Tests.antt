-- ===== src/Waitq/Tests.antt =====
-- Timers at small inputs, and the theorems there. A function is a number.
use libdlb.Base.{ℕ, ◌≡◌, refl, true, false, [], done, arith, Bool, none, some}
use libdlb.Rbt.{Node, leaf, node}
use libdlb.Runq.{Runq}
use libdlb.Waitq.{
  Timer, Waitq, init, dispatch, timer_wait, timer_cancel, timer_reschedule, find_node,
  nothing_before, cmp_by_deadline,
}
use libdlb.Waitq.Order.{IsValid}
use libdlb.Waitq.Set.{Added}
use libdlb.Waitq.Timers.{
  timer_wait-Added, Cancelled, timer_cancel-Cancelled, Rescheduled, timer_reschedule-Rescheduled,
}
use libdlb.Waitq.Expiry.{Dispatched, dispatch-Dispatched}

abbrev early : Timer ℕ
early = record { address = 100; deadline = 50; func = 1 }

abbrev late : Timer ℕ
late = record { address = 200; deadline = 90; func = 2 }

-- a timer that does not wait
abbrev idle : Timer ℕ
idle = record { address = 300; deadline = 0; func = 4 }

abbrev tasks : Runq ℕ
tasks = record { wakeup = false; wakeups = 0; events = []; job_list = []; quit_request = false }

abbrev black : Timer ℕ → Node (Timer ℕ)
black t = record { red = false; modified = true; item = t }

abbrev red : Timer ℕ → Node (Timer ℕ)
red t = record { red = true; modified = true; item = t }

abbrev two : Waitq ℕ
two = record (init true tasks) { waiting_set = node (node leaf (red early) leaf) (black late) leaf }

two-IsValid : IsValid two
two-IsValid = (ground arith, ((refl, tt), (tt, tt)))

timer_wait-Added_example :
    (q : Waitq ℕ) × (timer_wait 10 30 3 idle two
      ≡ done (record { address = 300; deadline = 40; func = 3 }, q))
    × Added (record { address = 300; deadline = 40; func = 3 }) two q
timer_wait-Added_example = timer_wait-Added 10 30 3 idle two two-IsValid (omega arith)

timer_cancel-Cancelled_example :
    (r : Timer ℕ × Waitq ℕ) × (timer_cancel early two ≡ done r) × Cancelled early two r
timer_cancel-Cancelled_example = timer_cancel-Cancelled early two two-IsValid

timer_reschedule-Rescheduled_example :
    (r : Timer ℕ × Waitq ℕ) × (timer_reschedule 60 60 early two ≡ done r)
    × Rescheduled 60 60 early two r
timer_reschedule-Rescheduled_example = timer_reschedule-Rescheduled 60 60 early two two-IsValid

dispatch-Dispatched_example :
    (r : ℕ × Waitq ℕ) × (dispatch 3 60 0 two ≡ done r) × Dispatched 60 0 0 two r
dispatch-Dispatched_example = dispatch-Dispatched 3 60 0 two two-IsValid (omega arith) (omega arith)

-- The first timer to expire has a parent in the tree, so that taking it out does not call the hook.
no_hook :
    elim (find_node (cmp_by_deadline early) two.waiting_set []) as (λ _. Bool) [
      | none ↦ true
      | some n ↦ nothing_before n
    ]
    ≡ false
unfolding find_node
no_hook = refl

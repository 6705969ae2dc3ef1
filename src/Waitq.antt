-- ===== src/Waitq.antt =====
-- The queue of timers of io/waitq.c and io/waitq.h, on the red-black tree. A timer is known by its
-- address, and the tree has the timers that wait. The clock's time is an argument of the functions
-- that call `clock_now`, and an interval is its `int` sign-extended to 64 bits.
pub mod Order
pub mod Set
pub mod Timers
pub mod Expiry
pub mod Deadline
mod Tests
use libdlb.Base.{
  ℕ, zero, suc, ◌+◌, ◌-◌, ◌^◌, Bool, true, false, not, ◌&&◌, ◌||◌, Option, none, some, [], ◌∷◌, ltb,
  ◌==◌, if◌then◌else◌, Outcome, done, fault, out_of_fuel, ◌>>=◌,
}
use libdlb.Base.Words.{u32, u64}
use libdlb.Rbt.{Sign, neg, zer, pos, Tree, leaf, node, Ancestors, went_left, went_right}
use libdlb.Rbt.Insert.{insert}
use libdlb.Rbt.Iter.{Place, place, iter_first, iter_prev}
use libdlb.Rbt.Remove.{remove}
use libdlb.Runq.{Task, Runq, task_exec}

pub record Timer (F : Type 0) : Type 0 where
  pub address : ℕ
  pub deadline : ℕ
  pub func : F

-- `wakeup` is whether the hook is set, and `wakeups` how often it was called.
pub record Waitq (F : Type 0) : Type 0 where
  pub wakeup : Bool
  pub wakeups : ℕ
  pub run : Runq F
  pub waiting_set : Tree (Timer F)

module _ {A : Type 0} where
  abbrev pub is_none : Option A → Bool
  is_none none = true
  is_none (some x) = false

module _ {F : Type 0} where
  abbrev pub cmp_by_deadline : Timer F → Timer F → Sign
  cmp_by_deadline kt nt =
      if ltb kt.deadline nt.deadline
      then neg
      else if ltb nt.deadline kt.deadline
      then pos
      else if ltb kt.address nt.address
      then neg
      else if ltb nt.address kt.address
      then pos
      else zer

  abbrev pub task : Timer F → Task F
  task t = record { address = t.address; func = t.func }

  abbrev pub init : Bool → Runq F → Waitq F
  init wakeup r = record { wakeup = wakeup; wakeups = 0; run = r; waiting_set = leaf }

  -- `rbt_find` with the node that it returns
  pub find_node : (Timer F → Sign) → Tree (Timer F) → Ancestors (Timer F) → Option (Place (Timer F))
  find_node compare leaf p = none
  find_node compare (node l x r) p = elim (compare x.item) [
    | zer ↦ some (place l x r p)
    | neg ↦ find_node compare l (went_left x r ∷ p)
    | pos ↦ find_node compare r (went_right l x ∷ p)
  ]

  abbrev pub remove_node : Place (Timer F) → Outcome (Tree (Timer F))
  remove_node n = remove n.lower n.at n.upper n.up

  pub expire_one : ℕ → Tree (Timer F) → Outcome (Option (Timer F) × Tree (Timer F))
  expire_one now t = elim (iter_first t) [
    | none ↦ done (none, t)
    | some n ↦ elim (ltb now n.at.item.deadline) [
      | true ↦ done (none, t)
      | false ↦ remove_node n >>= λ t2. done (some n.at.item, t2)
    ]
  ]

  -- the `int` that `waitq_next_deadline` returns, of 32 bits
  pub next_deadline : ℕ → Waitq F → ℕ
  next_deadline now wq = elim (iter_first wq.waiting_set) [
    | none ↦ 2 ^ 32 - 1
    | some n ↦ if ltb n.at.item.deadline now then 0 else u32 (n.at.item.deadline - now)
  ]

  -- the loop of `waitq_dispatch`, on the timers and the run queue
  pub dispatch_loop : ℕ → ℕ → ℕ → ℕ → Waitq F → Outcome (ℕ × Waitq F)
  dispatch_loop zero now limit count wq = out_of_fuel
  dispatch_loop (suc rounds) now limit count wq = elim (limit == 0 || ltb count limit) [
    | false ↦ done (count, wq)
    | true ↦ expire_one now wq.waiting_set >>= λ (expired, t). elim expired [
      | none ↦ done (count, record wq { waiting_set = t })
      | some x ↦
          dispatch_loop rounds now limit (u32 (count + 1))
            (record wq { waiting_set = t; run = task_exec (task x) wq.run })
    ]
  ]

  pub dispatch : ℕ → ℕ → ℕ → Waitq F → Outcome (ℕ × Waitq F)
  dispatch rounds now limit wq = dispatch_loop rounds now limit 0 wq

  abbrev pub call_hook : Bool → Waitq F → Waitq F
  call_hook need wq = if need && wq.wakeup then record wq { wakeups = suc wq.wakeups } else wq

  pub wset_add : Timer F → Waitq F → Outcome (Waitq F)
  wset_add t wq = insert (cmp_by_deadline t) t wq.waiting_set >>= λ (t2, old).
      elim (find_node (cmp_by_deadline t) t2 []) [
        | none ↦ fault
        | some n ↦ done (call_hook (is_none (iter_prev n)) (record wq { waiting_set = t2 }))
      ]

  -- `!rbt_iter_prev(n)` after `n` was taken out of the tree. The links of `n` are as `rbt_remove` left
  -- them: with two children it went to the place of its successor, which has a parent and nothing to
  -- its left. Its parent does not have it as a child any more, so that the climb ends there.
  abbrev pub nothing_before : Place (Timer F) → Bool
  nothing_before n = elim n.lower as (λ _. Bool) [
    | leaf ↦ elim n.up as (λ _. Bool) [ [] ↦ true | f ∷ p ↦ false ]
    | node l x r ↦ false
  ]

  pub wset_remove : Timer F → Waitq F → Outcome (Bool × Waitq F)
  wset_remove t wq = elim (find_node (cmp_by_deadline t) wq.waiting_set []) [
    | none ↦ done (false, wq)
    | some n ↦ remove_node n >>= λ t2.
        done (true, call_hook (nothing_before n) (record wq { waiting_set = t2 }))
  ]

  -- The writes to the fields of a timer: a node of the tree that is the timer changes with it.
  pub write_fields : Timer F → Tree (Timer F) → Tree (Timer F)
  write_fields t leaf = leaf
  write_fields t (node l x r) =
      let x2 = if x.item.address == t.address then record x { item = t } else x in
      node (write_fields t l) x2 (write_fields t r)

  pub timer_wait : ℕ → ℕ → F → Timer F → Waitq F → Outcome (Timer F × Waitq F)
  timer_wait now interval func t wq =
      let t2 = record t { func = func; deadline = u64 (now + interval) } in
      wset_add t2 (record wq { waiting_set = write_fields t2 wq.waiting_set }) >>= λ wq2.
      done (t2, wq2)

  abbrev pub timer_cancelled : Timer F → Bool
  timer_cancelled t = t.deadline == 0

  pub timer_cancel : Timer F → Waitq F → Outcome (Timer F × Waitq F)
  timer_cancel t wq = wset_remove t wq >>= λ (found, wq2).
      if found
      then done (record t { deadline = 0 }, record wq2 { run = task_exec (task t) wq2.run })
      else done (t, wq2)

  pub timer_reschedule : ℕ → ℕ → Timer F → Waitq F → Outcome (Timer F × Waitq F)
  timer_reschedule now interval t wq = wset_remove t wq >>= λ (found, wq2).
      let t2 = record t { deadline = u64 (now + interval) } in
      if found then (wset_add t2 wq2 >>= λ wq3. done (t2, wq3)) else done (t, wq2)

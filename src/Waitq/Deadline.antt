-- ===== src/Waitq/Deadline.antt =====
-- `waitq_next_deadline` is the time to the timer that expires first.
use libdlb.Base.{
  ℕ, ◌-◌, ◌^◌, ◌≡◌, refl, subst, ◌⊎◌, inl, inr, Bool-cases, Option, none, some, List, [], ◌∷◌, ltb,
  if◌then◌else◌, arith,
}
use libdlb.Base.Words.{u32}
use libdlb.Rbt.Keys.{IsSorted}
use libdlb.Rbt.Iter.{Place, iter_first}
use libdlb.Rbt.Iter.Steps.{IsNext, iter_first-IsNext, later}
use libdlb.Waitq.{Timer, Waitq, cmp_by_deadline, next_deadline}
use libdlb.Waitq.Order.{own, timers, IsValid}
use libdlb.Waitq.Expiry.{NotBefore, NotBefore-of_sorted}

module _ {F : Type 0} where
  -- What `waitq_next_deadline` returns, an `int` of 32 bits: -1 without timers, or the time from now to
  -- a timer that waits and before which none expires, 0 if it has expired.
  pub next_deadline_lem :
      (now : ℕ) (q : Waitq F)
      → IsValid q
      → ((timers q ≡ []) × (next_deadline now q ≡ 2 ^ 32 - 1))
        ⊎ ((x : Timer F) × (xs : List (Timer F)) × (timers q ≡ x ∷ xs)
            × NotBefore x.deadline xs
            × (next_deadline now q ≡ u32 (x.deadline - now)))
  unfolding next_deadline
  next_deadline_lem now q v = go (iter_first q.waiting_set) (iter_first-IsNext q.waiting_set)
    where
      go :
          (o : Option (Place (Timer F)))
          → IsNext q.waiting_set [] (timers q) o
          → let result = (elim o as (λ _. ℕ) [
            | none ↦ 2 ^ 32 - 1
            | some n ↦ if ltb n.at.item.deadline now then 0 else u32 (n.at.item.deadline - now)
          ]) in
            ((timers q ≡ []) × (result ≡ 2 ^ 32 - 1))
            ⊎ ((x : Timer F) × (xs : List (Timer F)) × (timers q ≡ x ∷ xs)
                × NotBefore x.deadline xs
                × (result ≡ u32 (x.deadline - now)))
      go none e = inl (e, refl)
      go (some n) (same, first, list) =
          let order = subst (IsSorted cmp_by_deadline own) list v.1 in
          inr (
            n.at.item,
            later n,
            list,
            NotBefore-of_sorted n.at.item n.at.item.deadline (later n) (omega arith) order.0,
            elim (Bool-cases (ltb n.at.item.deadline now)) [
              | inl over ↦
                  let gone : n.at.item.deadline - now ≡ 0 = ground (arith, over) in
                  rw (over, gone) refl
              | inr waits ↦ rw waits refl
            ],
          )

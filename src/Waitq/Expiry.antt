-- ===== src/Waitq/Expiry.antt =====
-- `waitq_dispatch` submits the timers that have expired.
use libdlb.Base.{
  ℕ, zero, suc, ◌+◌, ◌^◌, ◌≤◌, ◌<◌, ◌≡◌, ◌≢◌, refl, ap, ◌∙◌, sym, subst, ◌⊎◌, inl, inr, true, false,
  Bool-cases, ◌||◌, Option, none, some, List, [], ◌∷◌, ◌++◌, append-nil, append_assoc, length, map,
  ltb, ◌==◌, done, ◌>>=◌, arith,
}
use libdlb.Base.Words.{u32}
use libdlb.Rbt.{neg, Tree}
use libdlb.Rbt.Shape.{to_list, IsRedBlack}
use libdlb.Rbt.Order.{AllAre}
use libdlb.Rbt.Keys.{IsSorted}
use libdlb.Rbt.Remove.Laws.{remove_refines}
use libdlb.Rbt.Iter.{Place, iter_first}
use libdlb.Rbt.Iter.Steps.{IsNext, iter_first-IsNext, later}
use libdlb.Runq.{Task, Runq, task_exec, is_empty}
use libdlb.Waitq.{
  Timer, Waitq, cmp_by_deadline, task, remove_node, expire_one, dispatch_loop, dispatch,
}
use libdlb.Waitq.Order.{own, timers, IsValid}

module _ {F : Type 0} where
  -- no timer of the list has a deadline before `d`
  abbrev pub NotBefore : ℕ → List (Timer F) → Type 0
  NotBefore d [] = Unit
  NotBefore d (x ∷ xs) = (d ≤ x.deadline) × NotBefore d xs

  -- every timer of the list has expired
  abbrev pub Expired : ℕ → List (Timer F) → Type 0
  Expired now [] = Unit
  Expired now (x ∷ xs) = (x.deadline ≤ now) × Expired now xs

  pub NotBefore-of_sorted :
      (x : Timer F) (d : ℕ) (xs : List (Timer F))
      → d ≤ x.deadline
      → AllAre (cmp_by_deadline x) neg xs
      → NotBefore d xs
  NotBefore-of_sorted x d [] h p = tt
  NotBefore-of_sorted x d (y ∷ ys) h p = (ground (arith, h, p.0), NotBefore-of_sorted x d ys h p.1)

  -- What `expire_one` returns: nothing, if no timer has expired, or the first of the timers.
  abbrev TookOne : ℕ → Tree (Timer F) → Option (Timer F) × Tree (Timer F) → Type 0
  TookOne now t (none, t2) = (t2 ≡ t) × NotBefore (suc now) (to_list t)
  TookOne now t (some x, t2) = IsRedBlack t2 × (to_list t ≡ x ∷ to_list t2) × (x.deadline ≤ now)

  expire_one-TookOne :
      (now : ℕ) (t : Tree (Timer F))
      → IsRedBlack t
      → IsSorted cmp_by_deadline own (to_list t)
      → (r : Option (Timer F) × Tree (Timer F)) × (expire_one now t ≡ done r) × TookOne now t r
  unfolding expire_one
  expire_one-TookOne now t rb sorted = go (iter_first t) (iter_first-IsNext t)
    where
      go :
          (o : Option (Place (Timer F)))
          → IsNext t [] (to_list t) o
          → (r : Option (Timer F) × Tree (Timer F)) × ((elim o [
            | none ↦ done (none, t)
            | some n ↦ elim (ltb now n.at.item.deadline) [
              | true ↦ done (none, t)
              | false ↦ remove_node n >>= λ t2. done (some n.at.item, t2)
            ]
          ])
              ≡ done r)
            × TookOne now t r
      go none e = ((none, t), refl, (refl, subst (NotBefore (suc now)) (sym e) tt))
      go (some n) (same, first, list) = elim (Bool-cases (ltb now n.at.item.deadline)) [
        | inl waits ↦
            let late : suc now ≤ n.at.item.deadline = ground (arith, waits) in
            let order = subst (IsSorted cmp_by_deadline own) list sorted in
            (
              (none, t),
              rw waits refl,
              (
                refl,
                subst (NotBefore (suc now)) (sym list)
                    (late, NotBefore-of_sorted n.at.item (suc now) (later n) late order.0),
              ),
            )
        | inr over ↦
            let (t2, runs, rb2, _, order) =
              remove_refines n.lower n.at n.upper n.up (subst IsRedBlack (sym same) rb) in
            (
              (some n.at.item, t2),
              rw over (ap (λ o. o >>= λ t2. done (some n.at.item, t2)) runs),
              (
                rb2,
                list ∙ ap (λ l. n.at.item ∷ l) (ap (λ l. l ++ later n) (sym first) ∙ sym order),
                ground (arith, over),
              ),
            )
      ]

  job_list-task_exec : (t : Task F) (r : Runq F) → (task_exec t r).job_list ≡ r.job_list ++ (t ∷ [])
  job_list-task_exec t r = elim (Bool-cases (is_empty r.job_list)) [
    | inl e ↦ rw e refl
    | inr e ↦ rw e refl
  ]

  -- What a dispatch with `count` timers submitted before comes to: some of the timers, the first to
  -- expire, have expired and are in the run queue in that order, and a limit that is not 0 is reached
  -- or no timer that is left has expired.
  abbrev pub Dispatched : ℕ → ℕ → ℕ → Waitq F → ℕ × Waitq F → Type 0
  Dispatched now limit count q (count2, q2) =
      (xs : List (Timer F)) × (timers q ≡ xs ++ timers q2)
      × Expired now xs
      × (q2.run.job_list ≡ q.run.job_list ++ map task xs)
      × (count2 ≡ count + length xs)
      × IsValid q2
      × (((limit ≢ 0) × (count2 ≡ limit)) ⊎ NotBefore (suc now) (timers q2))

  dispatch_loop-Dispatched :
      (rounds now limit count : ℕ) (q : Waitq F)
      → IsValid q
      → length (timers q) < rounds
      → count + length (timers q) < 2 ^ 32
      → (limit ≡ 0) ⊎ (count ≤ limit)
      → (r : ℕ × Waitq F) × (dispatch_loop rounds now limit count q ≡ done r)
        × Dispatched now limit count q r
  unfolding dispatch_loop
  dispatch_loop-Dispatched zero now limit count q v fuel small below = absurd (omega (arith, fuel))
  dispatch_loop-Dispatched (suc rounds) now limit count q v fuel small below =
      elim (Bool-cases (limit == 0 || ltb count limit)) [
        | inr full ↦ (
          (count, q),
          rw (dispatch_loop, full) refl,
          (
            [],
            refl,
            tt,
            sym (append-nil q.run.job_list),
            omega arith,
            v,
            inl (λ e. ground (arith, full, e), ground (arith, full, below)),
          ),
        )
        | inl more ↦
            let (r, runs, took) = expire_one-TookOne now q.waiting_set v.0 v.1 in
            let (r2, e, sum) =
              go (λ c q2. dispatch_loop-Dispatched rounds now limit c q2) (ground (arith, more)) r
                took in
            (
              r2,
              rw (dispatch_loop, more)
                  (ap
                      (λ o. o >>= λ (expired, t). elim expired [
                        | none ↦ done (count, record q { waiting_set = t })
                        | some x ↦
                            dispatch_loop rounds now limit (u32 (count + 1))
                              (record q { waiting_set = t; run = task_exec (task x) q.run })
                      ])
                      runs
                    ∙ e),
              sum,
            )
      ]
    where
      go :
          ((c : ℕ) (q1 : Waitq F)
            → IsValid q1
            → length (timers q1) < rounds
            → c + length (timers q1) < 2 ^ 32
            → (limit ≡ 0) ⊎ (c ≤ limit)
            → (r : ℕ × Waitq F) × (dispatch_loop rounds now limit c q1 ≡ done r)
              × Dispatched now limit c q1 r)
          → (limit ≡ 0) ⊎ (suc count ≤ limit)
          → (r : Option (Timer F) × Tree (Timer F)) → TookOne now q.waiting_set r
          → (r2 : ℕ × Waitq F) × ((elim r.0 [
            | none ↦ done (count, record q { waiting_set = r.1 })
            | some x ↦
                dispatch_loop rounds now limit
                  (u32 (count + 1))
                  (record q { waiting_set = r.1; run = task_exec (task x) q.run })
          ])
              ≡ done r2)
            × Dispatched now limit count q r2
      go ih room (none, t2) (same, late) = (
        (count, record q { waiting_set = t2 }),
        refl,
        (
          [],
          ap to_list (sym same),
          tt,
          sym (append-nil q.run.job_list),
          omega arith,
          subst (λ w. IsRedBlack w × IsSorted cmp_by_deadline own (to_list w)) (sym same) v,
          inr (subst (λ w. NotBefore (suc now) (to_list w)) (sym same) late),
        ),
      )
      go ih room (some x, t2) (rb, list, over) =
          let q1 = record q { waiting_set = t2; run = task_exec (task x) q.run } in
          let size : length (timers q) ≡ suc (length (to_list t2)) = ap length list in
          let wrap : u32 (count + 1) ≡ suc count = omega (arith, small, size) in
          let sorted = subst (IsSorted cmp_by_deadline own) list v.1 in
          let (r, runs, (xs, split, expired, jobs, counted, valid, stop)) =
            ih (suc count) q1 (rb, sorted.1) (omega (arith, fuel, size))
              (omega (arith, small, size)) room in
          (
            r,
            ap (λ c. dispatch_loop rounds now limit c q1) wrap ∙ runs,
            (
              x ∷ xs,
              list ∙ ap (λ l. x ∷ l) split,
              (over, expired),
              jobs
                  ∙ ap (λ l. l ++ map task xs) (job_list-task_exec (task x) q.run)
                  ∙ append_assoc q.run.job_list (task x ∷ []) (map task xs),
              omega (arith, counted),
              valid,
              stop,
            ),
          )

  -- `waitq_dispatch` on a valid queue of fewer than 2 ^ 32 timers returns, in a round for each of the
  -- timers and one more: it submits timers that have expired to the run queue, in the order in which
  -- they expire, and returns how many; the others wait, with the invariant kept; and it stops at the
  -- limit, unless that is 0, which is no limit, or when no timer that is left has expired.
  pub dispatch-Dispatched :
      (rounds now limit : ℕ) (q : Waitq F)
      → IsValid q
      → length (timers q) < rounds
      → length (timers q) < 2 ^ 32
      → (r : ℕ × Waitq F) × (dispatch rounds now limit q ≡ done r) × Dispatched now limit 0 q r
  unfolding dispatch
  dispatch-Dispatched rounds now limit q v fuel small =
      dispatch_loop-Dispatched rounds now limit 0 q v fuel (omega (arith, small))
        (inr (omega arith))

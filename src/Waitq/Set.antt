-- ===== src/Waitq/Set.antt =====
-- `wset_add` and `wset_remove` are insertion and removal in the order of expiry.
use libdlb.Base.{
  suc, ◌≡◌, refl, ap, ◌∙◌, sym, subst, inl, inr, Bool, true, false, Bool-cases, ◌&&◌, Option, none,
  some, List, [], ◌∷◌, ◌++◌, append_assoc, if◌then◌else◌, done, fault, ◌>>=◌, arith,
}
use libdlb.Rbt.{Sign, neg, zer, pos, Tree, node, plug, find}
use libdlb.Rbt.Shape.{to_list, to_list-plug, IsRedBlack}
use libdlb.Rbt.Order.{AllAre, AllAre-pos, Seeks, lookup, insert as insert_list}
use libdlb.Rbt.Keys.{IsSorted, Seeks-of_IsSorted, insert_list-IsSorted, lookup-insert_list}
use libdlb.Rbt.Insert.Laws.{find-lookup, insert_refines}
use libdlb.Rbt.Remove.Laws.{remove_refines}
use libdlb.Rbt.Iter.{Place, iter_prev}
use libdlb.Rbt.Iter.Steps.{tree_of, earlier, later, IsPrev, iter_prev-IsPrev}
use libdlb.Waitq.{
  Timer, Waitq, cmp_by_deadline, find_node, remove_node, is_none, call_hook, nothing_before,
  wset_add, wset_remove,
}
use libdlb.Waitq.Order.{
  own, by_deadline, cmp_self, erase, erase_found, erase-IsSorted, timers, IsValid, Located,
  find_node-Located,
}

module _ {F : Type 0} where
  seeks : (t : Timer F) (q : Waitq F) → IsValid q → Seeks (cmp_by_deadline t) (timers q)
  seeks t q v = Seeks-of_IsSorted cmp_by_deadline own by_deadline t (timers q) v.1

  -- The call of the hook leaves the queue as it is.
  call_hook_lem :
      (need : Bool) (q : Waitq F)
      → ((call_hook need q).waiting_set ≡ q.waiting_set)
        × ((call_hook need q).run ≡ q.run)
        × ((call_hook need q).wakeup ≡ q.wakeup)
        × ((call_hook need q).wakeups ≡ (if need && q.wakeup then suc q.wakeups else q.wakeups))
  call_hook_lem need q = elim (Bool-cases (need && q.wakeup)) [
    | inl e ↦ (rw e refl, rw e refl, rw e refl, rw e refl)
    | inr e ↦ (rw e refl, rw e refl, rw e refl, rw e refl)
  ]

  IsValid-of_set :
      (q : Waitq F) (w : Tree (Timer F))
      → q.waiting_set ≡ w
      → IsRedBlack w
      → IsSorted cmp_by_deadline own (to_list w)
      → IsValid q
  IsValid-of_set q w e rb sorted =
      subst (λ w. IsRedBlack w × IsSorted cmp_by_deadline own (to_list w)) (sym e) (rb, sorted)

  -- What `wset_remove` comes to: the timer does not wait and nothing changes, or it is taken out and
  -- the others keep their order.
  pub data Removed (t : Timer F) (q : Waitq F) : Bool × Waitq F → Type 0 where
    absent : lookup (cmp_by_deadline t) (timers q) ≡ none → Removed t q (false, q)
    removed :
        (q2 : Waitq F) (x : Timer F)
        → lookup (cmp_by_deadline t) (timers q) ≡ some x
        → IsValid q2
        → timers q2 ≡ erase (cmp_by_deadline t) (timers q)
        → q2.run ≡ q.run
        → q2.wakeup ≡ q.wakeup
        → Removed t q (true, q2)

  pub wset_remove-Removed :
      (t : Timer F) (q : Waitq F)
      → IsValid q
      → (r : Bool × Waitq F) × (wset_remove t q ≡ done r) × Removed t q r
  unfolding wset_remove plug
  wset_remove-Removed t q v =
      go (find_node s q.waiting_set []) (find_node-Located s q.waiting_set [])
    where
      s : Timer F → Sign
      s = cmp_by_deadline t

      looked : find s q.waiting_set ≡ lookup s (timers q)
      looked = find-lookup s q.waiting_set (seeks t q v)

      go :
          (o : Option (Place (Timer F)))
          → Located s (find s q.waiting_set) q.waiting_set o
          → (r : Bool × Waitq F) × ((elim o [
            | none ↦ done (false, q)
            | some n ↦ remove_node n >>= λ t2.
                done (true, call_hook (nothing_before n) (record q { waiting_set = t2 }))
          ])
              ≡ done r)
            × Removed t q r
      go none e = ((false, q), refl, absent (sym looked ∙ e))
      go (some n) (same, found, z) =
          let (t2, runs, rb, whole, order) =
            remove_refines n.lower n.at n.upper n.up (subst IsRedBlack (sym same) v.0) in
          let list : timers q ≡ earlier n ++ (n.at.item ∷ later n) =
            ap to_list (sym same) ∙ whole in
          let ahead : AllAre s pos (earlier n) =
            AllAre-pos s (earlier n) n.at.item (later n) (subst (Seeks s) list (seeks t q v))
              (λ e. ground (arith, z, e)) in
          let erased : to_list t2 ≡ erase s (timers q) =
            order
            ∙ sym (erase_found s (earlier n) n.at.item (later n) ahead z)
            ∙ ap (erase s) (sym list) in
          let (set, run, hook, _) =
            call_hook_lem (nothing_before n) (record q { waiting_set = t2 }) in
          let q2 = call_hook (nothing_before n) (record q { waiting_set = t2 }) in
          let sorted =
            subst (IsSorted cmp_by_deadline own) (sym erased)
              (erase-IsSorted s cmp_by_deadline own (timers q) v.1) in
          (
            (true, q2),
            ap
                (λ o. o >>= λ t2.
                  done (true, call_hook (nothing_before n) (record q { waiting_set = t2 })))
                runs,
            removed q2 n.at.item (sym looked ∙ found) (IsValid-of_set q2 t2 set rb sorted)
                (ap to_list set ∙ erased) run hook,
          )

  -- whether the first of the timers is `t`
  abbrev pub is_earliest : Timer F → List (Timer F) → Bool
  is_earliest t [] = false
  is_earliest t (x ∷ xs) = elim (cmp_by_deadline t x) as (λ _. Bool) [
    | zer ↦ true
    | neg ↦ false
    | pos ↦ false
  ]

  not_earliest :
      (t : Timer F) (xs : List (Timer F)) (x : Timer F) (ys : List (Timer F))
      → AllAre (cmp_by_deadline t) pos (xs ++ (x ∷ []))
      → is_earliest t ((xs ++ (x ∷ [])) ++ ys) ≡ false
  not_earliest t [] x ys h = rw (is_earliest, h.0) refl
  not_earliest t (y ∷ xs) x ys h = rw (is_earliest, h.0) refl

  is_none-iter_prev :
      (t : Timer F) (n : Place (Timer F))
      → AllAre (cmp_by_deadline t) pos (earlier n)
      → cmp_by_deadline t n.at.item ≡ zer
      → is_none (iter_prev n) ≡ is_earliest t (earlier n ++ (n.at.item ∷ later n))
  is_none-iter_prev t n ahead z = go (iter_prev n) (iter_prev-IsPrev n)
    where
      go :
          (o : Option (Place (Timer F)))
          → IsPrev (tree_of n) (earlier n) (n.at.item ∷ later n) o
          → is_none o ≡ is_earliest t (earlier n ++ (n.at.item ∷ later n))
      go none e =
          sym (ap (λ l. is_earliest t (l ++ (n.at.item ∷ later n))) e ∙ rw (is_earliest, z) refl)
      go (some m) (_, e, _) = sym (
          ap (λ l. is_earliest t (l ++ (n.at.item ∷ later n))) e
          ∙ not_earliest t (earlier m) m.at.item (n.at.item ∷ later n)
              (subst (AllAre (cmp_by_deadline t) pos) e ahead))

  -- What `wset_add` comes to: the timer at its place in the order of expiry, and a call of the hook,
  -- if there is one, when the timer is the first to expire.
  abbrev pub Added : Timer F → Waitq F → Waitq F → Type 0
  Added t q q2 =
      IsValid q2
      × (timers q2 ≡ insert_list (cmp_by_deadline t) t (timers q))
      × (q2.run ≡ q.run)
      × (q2.wakeups ≡ (if is_earliest t (timers q2) && q.wakeup then suc q.wakeups else q.wakeups))

  pub wset_add-Added :
      (t : Timer F) (q : Waitq F)
      → IsValid q
      → (q2 : Waitq F) × (wset_add t q ≡ done q2) × Added t q q2
  unfolding wset_add plug
  wset_add-Added t q v =
      let (t2, runs, rb, list) = insert_refines s t q.waiting_set v.0 (seeks t q v) in
      let sorted : IsSorted cmp_by_deadline own (to_list t2) =
        subst (IsSorted cmp_by_deadline own) (sym list)
          (insert_list-IsSorted cmp_by_deadline own by_deadline t (timers q) v.1) in
      let (q2, e, added) = go t2 rb sorted list (find_node s t2 []) (find_node-Located s t2 []) in
      (
        q2,
        ap
              (λ o. o >>= λ (t2, old). elim (find_node s t2 []) [
                | none ↦ fault
                | some n ↦ done (call_hook (is_none (iter_prev n)) (record q { waiting_set = t2 }))
              ])
              runs
            ∙ e,
        added,
      )
    where
      s : Timer F → Sign
      s = cmp_by_deadline t

      present :
          (t2 : Tree (Timer F))
          → IsSorted cmp_by_deadline own (to_list t2)
          → to_list t2 ≡ insert_list s t (timers q)
          → find s t2 ≡ some t
      present t2 sorted list =
          find-lookup s t2 (Seeks-of_IsSorted cmp_by_deadline own by_deadline t (to_list t2) sorted)
          ∙ ap (lookup s) list
          ∙ lookup-insert_list cmp_by_deadline own by_deadline t t (timers q) v.1
          ∙ rw (cmp_self t) refl

      go :
          (t2 : Tree (Timer F))
          → IsRedBlack t2
          → IsSorted cmp_by_deadline own (to_list t2)
          → to_list t2 ≡ insert_list s t (timers q)
          → (o : Option (Place (Timer F))) → Located s (find s t2) t2 o
          → (q2 : Waitq F) × ((elim o [
            | none ↦ fault
            | some n ↦ done (call_hook (is_none (iter_prev n)) (record q { waiting_set = t2 }))
          ])
              ≡ done q2)
            × Added t q q2
      go t2 rb sorted list none e = absurd (ground (arith, present t2 sorted list, e))
      go t2 rb sorted list (some n) (same, found, z) =
          let (set, run, hook, calls) =
            call_hook_lem (is_none (iter_prev n)) (record q { waiting_set = t2 }) in
          let whole : to_list t2 ≡ earlier n ++ (n.at.item ∷ later n) =
            ap to_list (sym same)
            ∙ to_list-plug (node n.lower n.at n.upper) n.up
            ∙ (simp append_assoc) in
          let ahead : AllAre s pos (earlier n) =
            AllAre-pos s (earlier n) n.at.item (later n)
              (subst (Seeks s) whole
                (Seeks-of_IsSorted cmp_by_deadline own by_deadline t (to_list t2) sorted))
              (λ e. ground (arith, z, e)) in
          (
            call_hook (is_none (iter_prev n)) (record q { waiting_set = t2 }),
            refl,
            (
              IsValid-of_set (call_hook (is_none (iter_prev n)) (record q { waiting_set = t2 })) t2
                  set rb sorted,
              ap to_list set ∙ list,
              run,
              calls
                  ∙ ap (λ b. if b && q.wakeup then suc q.wakeups else q.wakeups)
                      (is_none-iter_prev t n ahead z
                        ∙ ap (is_earliest t) (sym whole ∙ ap to_list (sym set))),
            ),
          )

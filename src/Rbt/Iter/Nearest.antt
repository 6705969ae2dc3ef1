-- ===== src/Rbt/Iter/Nearest.antt =====
-- `rbt_iter_le`, `rbt_iter_ge`, `rbt_iter_lt` and `rbt_iter_gt` find the items next to a key.
use libdlb.Base.{◌≡◌, ◌≢◌, refl, Option, none, some, List, [], ◌∷◌, ◌++◌, arith}
use libdlb.Rbt.{Sign, neg, zer, pos, Tree, leaf, node}
use libdlb.Rbt.Shape.{to_list}
use libdlb.Rbt.Order.{AllAre, Seeks, Seeks-before, Seeks-from, AllAre-pos}
use libdlb.Rbt.Iter.{le_from, iter_le, ge_from, iter_ge, lt_from, iter_lt, gt_from, iter_gt}

module _ {A : Type 0} (s : A → Sign) where
  -- Along the list: the last item that is not behind the key, or `m`.
  abbrev pub last_le : Option A → List A → Option A
  last_le m [] = m
  last_le m (x ∷ xs) = elim (s x) [ neg ↦ m | zer ↦ some x | pos ↦ last_le (some x) xs ]

  -- the last item before the key, or `m`
  abbrev pub last_lt : Option A → List A → Option A
  last_lt m [] = m
  last_lt m (x ∷ xs) = elim (s x) [ pos ↦ last_lt (some x) xs | _ ↦ m ]

  -- the first item that is not before the key, or `m`
  abbrev pub first_ge : Option A → List A → Option A
  first_ge m [] = m
  first_ge m (x ∷ xs) = elim (s x) [ pos ↦ first_ge m xs | _ ↦ some x ]

  -- the first item behind the key, or `m`
  abbrev pub first_gt : Option A → List A → Option A
  first_gt m [] = m
  first_gt m (x ∷ xs) = elim (s x) [ neg ↦ some x | _ ↦ first_gt m xs ]

module _ {A : Type 0} (s : A → Sign) where
  -- how each search along a list passes an item in the middle
  last_le-front :
      (m : Option A) (xs : List A) (x : A) (ys : List A)
      → s x ≡ neg
      → last_le s m (xs ++ (x ∷ ys)) ≡ last_le s m xs
  last_le-front m [] x ys e = rw (e, last_le)
  last_le-front m (y ∷ xs) x ys e = ground (arith, last_le-front (some y) xs x ys e)

  last_le-back :
      (m : Option A) (xs : List A) (x : A) (ys : List A)
      → AllAre s pos xs
      → s x ≢ neg
      → last_le s m (xs ++ (x ∷ ys)) ≡ last_le s m (x ∷ ys)
  last_le-back m [] x ys a ne = refl
  last_le-back m (y ∷ xs) x ys a ne = ground (arith, last_le-back (some y) xs x ys a.1 ne)

  last_lt-front :
      (m : Option A) (xs : List A) (x : A) (ys : List A)
      → s x ≢ pos
      → last_lt s m (xs ++ (x ∷ ys)) ≡ last_lt s m xs
  last_lt-front m [] x ys e = ground arith
  last_lt-front m (y ∷ xs) x ys e = ground (arith, last_lt-front (some y) xs x ys e)

  last_lt-back :
      (m : Option A) (xs : List A) (x : A) (ys : List A)
      → AllAre s pos xs
      → s x ≡ pos
      → last_lt s m (xs ++ (x ∷ ys)) ≡ last_lt s (some x) ys
  last_lt-back m [] x ys a e = rw (e, last_lt)
  last_lt-back m (y ∷ xs) x ys a e = ground (arith, last_lt-back (some y) xs x ys a.1 e)

  first_ge-front :
      (m : Option A) (xs : List A) (x : A) (ys : List A)
      → s x ≢ pos
      → first_ge s m (xs ++ (x ∷ ys)) ≡ first_ge s (some x) xs
  first_ge-front m [] x ys e = ground arith
  first_ge-front m (y ∷ xs) x ys e = ground (arith, first_ge-front m xs x ys e)

  first_ge-back :
      (m : Option A) (xs ys : List A) → AllAre s pos xs → first_ge s m (xs ++ ys) ≡ first_ge s m ys
  first_ge-back m [] ys a = refl
  first_ge-back m (y ∷ xs) ys a = ground (arith, first_ge-back m xs ys a.1)

  first_gt-front :
      (m : Option A) (xs : List A) (x : A) (ys : List A)
      → s x ≡ neg
      → first_gt s m (xs ++ (x ∷ ys)) ≡ first_gt s (some x) xs
  first_gt-front m [] x ys e = rw (e, first_gt)
  first_gt-front m (y ∷ xs) x ys e = ground (arith, first_gt-front m xs x ys e)

  first_gt-back :
      (m : Option A) (xs ys : List A) → AllAre s pos xs → first_gt s m (xs ++ ys) ≡ first_gt s m ys
  first_gt-back m [] ys a = refl
  first_gt-back m (y ∷ xs) ys a = ground (arith, first_gt-back m xs ys a.1)

  le_from-last_le :
      (t : Tree A) (m : Option A) → Seeks s (to_list t) → le_from s t m ≡ last_le s m (to_list t)
  unfolding le_from
  le_from-last_le leaf m h = refl
  le_from-last_le (node l x r) m h =
      let low = AllAre-pos s (to_list l) x.item (to_list r) h in
      ground (
        arith,
        low,
        last_le-front m (to_list l) x.item (to_list r),
        last_le-back m (to_list l) x.item (to_list r),
        le_from-last_le l m (Seeks-before s (to_list l) x.item (to_list r) h),
        le_from-last_le r (some x.item) (Seeks-from s (to_list l) (x.item ∷ to_list r) h).1,
      )

  lt_from-last_lt :
      (t : Tree A) (m : Option A) → Seeks s (to_list t) → lt_from s t m ≡ last_lt s m (to_list t)
  unfolding lt_from
  lt_from-last_lt leaf m h = refl
  lt_from-last_lt (node l x r) m h =
      let low = AllAre-pos s (to_list l) x.item (to_list r) h in
      ground (
        arith,
        low,
        last_lt-front m (to_list l) x.item (to_list r),
        last_lt-back m (to_list l) x.item (to_list r),
        lt_from-last_lt l m (Seeks-before s (to_list l) x.item (to_list r) h),
        lt_from-last_lt r (some x.item) (Seeks-from s (to_list l) (x.item ∷ to_list r) h).1,
      )

  ge_from-first_ge :
      (t : Tree A) (m : Option A) → Seeks s (to_list t) → ge_from s t m ≡ first_ge s m (to_list t)
  unfolding ge_from
  ge_from-first_ge leaf m h = refl
  ge_from-first_ge (node l x r) m h =
      let low = AllAre-pos s (to_list l) x.item (to_list r) h in
      ground (
        arith,
        low,
        first_ge-front m (to_list l) x.item (to_list r),
        first_ge-back m (to_list l) (x.item ∷ to_list r),
        ge_from-first_ge l (some x.item) (Seeks-before s (to_list l) x.item (to_list r) h),
        ge_from-first_ge r m (Seeks-from s (to_list l) (x.item ∷ to_list r) h).1,
      )

  gt_from-first_gt :
      (t : Tree A) (m : Option A) → Seeks s (to_list t) → gt_from s t m ≡ first_gt s m (to_list t)
  unfolding gt_from
  gt_from-first_gt leaf m h = refl
  gt_from-first_gt (node l x r) m h =
      let low = AllAre-pos s (to_list l) x.item (to_list r) h in
      ground (
        arith,
        low,
        first_gt-front m (to_list l) x.item (to_list r),
        first_gt-back m (to_list l) (x.item ∷ to_list r),
        gt_from-first_gt l (some x.item) (Seeks-before s (to_list l) x.item (to_list r) h),
        gt_from-first_gt r m (Seeks-from s (to_list l) (x.item ∷ to_list r) h).1,
      )

  -- If the tree is in the order of the comparison, the four searches return the last item at or
  -- before the key, the first at or behind it, the last before it and the first behind it.
  pub iter-nearest :
      (t : Tree A)
      → Seeks s (to_list t)
      → (iter_le s t ≡ last_le s none (to_list t))
        × (iter_ge s t ≡ first_ge s none (to_list t))
        × (iter_lt s t ≡ last_lt s none (to_list t))
        × (iter_gt s t ≡ first_gt s none (to_list t))
  unfolding iter_le iter_ge iter_lt iter_gt
  iter-nearest t h = (
    le_from-last_le t none h,
    ge_from-first_ge t none h,
    lt_from-last_lt t none h,
    gt_from-first_gt t none h,
  )

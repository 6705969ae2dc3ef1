-- ===== src/Rbt/Range/Laws.antt =====
-- What a range query covers.
use libdlb.Base.{◌≡◌, ◌≢◌, refl, ap, ◌∙◌, sym, List, [], ◌∷◌, ◌++◌, append-nil, append_assoc, arith}
use libdlb.Rbt.{Sign, neg, zer, pos, Tree, leaf, node}
use libdlb.Rbt.Shape.{to_list}
use libdlb.Rbt.Order.{AllAre, AllAre-of_append}
use libdlb.Rbt.Range.{
  Call, add_node, add_tree, add_subtree, query_low, query_high, query_over, range_query,
}

module _ {A : Type 0} where
  -- what the callback is given: the item of the node, or those of its subtree
  abbrev pub covered : List (Call A) → List A
  covered [] = []
  covered (add_node x ∷ cs) = x.item ∷ covered cs
  covered (add_tree t ∷ cs) = to_list t ++ covered cs

  covered-append : (cs ds : List (Call A)) → covered (cs ++ ds) ≡ covered cs ++ covered ds
  covered-append [] ds = refl
  covered-append (add_node x ∷ cs) ds = ap (λ t. x.item ∷ t) (covered-append cs ds)
  covered-append (add_tree t ∷ cs) ds =
      ap (λ u. to_list t ++ u) (covered-append cs ds)
      ∙ sym (append_assoc (to_list t) (covered cs) (covered ds))

  covered-add_subtree : (t : Tree A) → covered (add_subtree t) ≡ to_list t
  covered-add_subtree leaf = refl
  covered-add_subtree (node l x r) = append-nil (to_list (node l x r))

module _ {A : Type 0} (compare : A → Sign) where
  abbrev pub Never : Sign → List A → Type 0
  Never v [] = Unit
  Never v (x ∷ xs) = (compare x ≢ v) × Never v xs

  -- The range is contiguous: behind an item that is not before the range, no item is before it, and
  -- behind an item that is behind the range, all items are behind it.
  abbrev pub Ranges : List A → Type 0
  Ranges [] = Unit
  Ranges (x ∷ xs) =
      (compare x ≢ neg → Never neg xs) × (compare x ≡ pos → AllAre compare pos xs) × Ranges xs

  -- the items in the range
  abbrev pub inside : List A → List A
  inside [] = []
  inside (x ∷ xs) = elim (compare x) [ zer ↦ x ∷ inside xs | _ ↦ inside xs ]

module _ {A : Type 0} (compare : A → Sign) where
  inside-append :
      (xs ys : List A) → inside compare (xs ++ ys) ≡ inside compare xs ++ inside compare ys
  inside-append [] ys = refl
  inside-append (x ∷ xs) ys = ground (arith, inside-append xs ys)

  inside-neg : (xs : List A) → AllAre compare neg xs → inside compare xs ≡ []
  inside-neg [] h = refl
  inside-neg (x ∷ xs) h = rw (h.0, inside) (inside-neg xs h.1)

  inside-pos : (xs : List A) → AllAre compare pos xs → inside compare xs ≡ []
  inside-pos [] h = refl
  inside-pos (x ∷ xs) h = rw (h.0, inside) (inside-pos xs h.1)

  inside-all : (xs : List A) → Never compare neg xs → Never compare pos xs → inside compare xs ≡ xs
  inside-all [] h k = refl
  inside-all (x ∷ xs) h k = ground (arith, inside-all xs h.1 k.1)

  Never-of_append :
      (v : Sign) (xs ys : List A)
      → Never compare v (xs ++ ys)
      → Never compare v xs × Never compare v ys
  Never-of_append v [] ys h = (tt, h)
  Never-of_append v (x ∷ xs) ys h = let (a, b) = Never-of_append v xs ys h.1 in ((h.0, a), b)

  Ranges-of_append :
      (xs ys : List A) → Ranges compare (xs ++ ys) → Ranges compare xs × Ranges compare ys
  Ranges-of_append [] ys h = (tt, h)
  Ranges-of_append (x ∷ xs) ys h =
      let (a, b) = Ranges-of_append xs ys h.2 in
      (
        (
          λ ne. (Never-of_append neg xs ys (h.0 ne)).0,
          λ e. (AllAre-of_append compare pos xs ys (h.1 e)).0,
          a,
        ),
        b,
      )

  -- An item in the middle says where the items on either side of it are.
  neg-before :
      (xs : List A) (x : A) (ys : List A)
      → Ranges compare (xs ++ (x ∷ ys))
      → compare x ≡ neg
      → AllAre compare neg xs
  neg-before [] x ys h e = tt
  neg-before (y ∷ xs) x ys h e = (first, neg-before xs x ys h.2 e)
    where
      clash : compare y ≢ neg → ⊥
      clash ne = (Never-of_append neg xs (x ∷ ys) (h.0 ne)).1.0 e

      first : compare y ≡ neg
      first = ground (arith, clash)

  zer-before :
      (xs : List A) (x : A) (ys : List A)
      → Ranges compare (xs ++ (x ∷ ys))
      → compare x ≡ zer
      → Never compare pos xs
  zer-before [] x ys h e = tt
  zer-before (y ∷ xs) x ys h e = (first, zer-before xs x ys h.2 e)
    where
      first : compare y ≢ pos
      first p =
          let k = (AllAre-of_append compare pos xs (x ∷ ys) (h.1 p)).1.0 in ground (arith, k, e)

  query_low-covered :
      (t : Tree A)
      → Ranges compare (to_list t)
      → Never compare pos (to_list t)
      → covered (query_low compare t) ≡ inside compare (to_list t)
  unfolding query_low
  query_low-covered leaf h np = refl
  query_low-covered (node l x r) h np =
      let (lr, (nx, px, rr)) = Ranges-of_append (to_list l) (x.item ∷ to_list r) h in
      let (nl, (nn, nr)) = Never-of_append pos (to_list l) (x.item ∷ to_list r) np in
      rw inside-append (
        ground (
          arith,
          neg-before (to_list l) x.item (to_list r) h,
          inside-neg (to_list l),
          inside-all (to_list r),
          covered-append (query_low compare l) (add_node x ∷ add_subtree r),
          covered-add_subtree r,
          query_low-covered l lr nl,
          query_low-covered r rr nr,
        ))

  query_high-covered :
      (t : Tree A)
      → Ranges compare (to_list t)
      → Never compare neg (to_list t)
      → covered (query_high compare t) ≡ inside compare (to_list t)
  unfolding query_high
  query_high-covered leaf h nn = refl
  query_high-covered (node l x r) h nn =
      let (lr, (nx, px, rr)) = Ranges-of_append (to_list l) (x.item ∷ to_list r) h in
      let (nl, (nv, nr)) = Never-of_append neg (to_list l) (x.item ∷ to_list r) nn in
      rw inside-append (
        ground (
          arith,
          px,
          zer-before (to_list l) x.item (to_list r) h,
          inside-pos (to_list r),
          inside-all (to_list l),
          append-nil (inside compare (to_list l)),
          covered-append (add_subtree l) (add_node x ∷ query_high compare r),
          covered-add_subtree l,
          query_high-covered l lr nl,
          query_high-covered r rr nr,
        ))

  query_over-covered :
      (t : Tree A)
      → Ranges compare (to_list t)
      → covered (query_over compare t) ≡ inside compare (to_list t)
  unfolding query_over
  query_over-covered leaf h = refl
  query_over-covered (node l x r) h =
      let (lr, (nx, px, rr)) = Ranges-of_append (to_list l) (x.item ∷ to_list r) h in
      rw inside-append (
        ground (
          arith,
          nx,
          px,
          neg-before (to_list l) x.item (to_list r) h,
          zer-before (to_list l) x.item (to_list r) h,
          inside-neg (to_list l),
          inside-pos (to_list r),
          append-nil (inside compare (to_list l)),
          covered-append (query_low compare l) (add_node x ∷ query_high compare r),
          query_low-covered l lr,
          query_high-covered r rr,
          query_over-covered l lr,
          query_over-covered r rr,
        ))

  -- The calls of `rbt_range_query` cover the items in the range, each once and in order.
  pub range_query-inside :
      (t : Tree A)
      → Ranges compare (to_list t)
      → covered (range_query compare t) ≡ inside compare (to_list t)
  unfolding range_query
  range_query-inside t h = query_over-covered t h

-- ===== src/Rbt/Remove/Laws.antt =====
-- `rbt_remove` takes one item out of the sorted list and keeps the tree red-black.
use libdlb.Base.{◌≡◌, refl, ap, ap₂, ◌∙◌, List, [], ◌∷◌, ◌++◌, append-nil, append_assoc, done}
use libdlb.Rbt.{Node, Tree, leaf, node, went_left, went_right, Ancestors, is_red, plug}
use libdlb.Rbt.Shape.{
  to_list, before, after, to_list-plug, IsRedBlack, Fits-node, red_first, red_second,
}
use libdlb.Rbt.Remove.{leftmost, swap_with_successor, mark_ancestors, remove}
use libdlb.Rbt.Remove.Detach.{
  IsPlace, plug-IsPlace, before-mark, after-mark, mark-IsPlace, Removed, detach_left,
  detach_no_left,
}

module _ {A : Type 0} where
  -- the two steps down from a place
  IsPlace-left :
      (l : Tree A) (x : Node A) (r : Tree A) (p : Ancestors A)
      → IsPlace (node l x r) p
      → IsPlace l (went_left x r ∷ p)
  IsPlace-left l x r p (b, c, fit) =
      (b.2, red_first x.red (is_red l) (is_red r) b.1, (Fits-node l x r p b c fit).0)

  IsPlace-right :
      (l : Tree A) (x : Node A) (r : Tree A) (p : Ancestors A)
      → IsPlace (node l x r) p
      → IsPlace r (went_right l x ∷ p)
  IsPlace-right l x r p (b, c, fit) =
      (b.3, red_second x.red (is_red l) (is_red r) b.1, (Fits-node l x r p b c fit).1)

  -- Down the left links, nothing comes to stand before the place, and the items behind stay.
  leftmost-IsPlace :
      (c : Tree A) (y : Node A) (d : Tree A) (q p : Ancestors A)
      → IsPlace (node c y d) (q ++ p)
      → let (m, r, q') = leftmost c y d q in
        IsPlace (node leaf m r) (q' ++ p)
        × (before (q' ++ p) ≡ before (q ++ p))
        × (m.item ∷ (to_list r ++ after (q' ++ p)) ≡ to_list (node c y d) ++ after (q ++ p))
  unfolding leftmost
  leftmost-IsPlace leaf y d q p h = (h, refl, refl)
  leftmost-IsPlace (node c z e) y d q p h =
      let (place, front, back) =
        leftmost-IsPlace c z e (went_left y d ∷ q) p (IsPlace-left (node c z e) y d (q ++ p) h) in
      (place, front, back ∙ (simp append_assoc))

  swap_order :
      (b l bq aq : List A) (m : A) (s : List A) {r : List A}
      → bq ≡ b ++ (l ++ (m ∷ []))
      → m ∷ (s ++ aq) ≡ r
      → bq ++ (s ++ aq) ≡ (b ++ l) ++ r
  swap_order b l bq aq m s e f = ap (λ t. t ++ (s ++ aq)) e ∙ (regroup ∙ ap (λ t. (b ++ l) ++ t) f)
    where
      regroup : (b ++ (l ++ (m ∷ []))) ++ (s ++ aq) ≡ (b ++ l) ++ (m ∷ (s ++ aq))
      regroup = simp append_assoc

  remove-two :
      (a : Tree A) (y : Node A) (b : Tree A) (x : Node A) (c : Tree A) (z : Node A) (d : Tree A)
      (p : Ancestors A)
      → let l : Tree A = node a y b in
        let r : Tree A = node c z d in
        IsPlace (node l x r) p
        → Removed ((before p ++ to_list l) ++ (to_list r ++ after p)) (remove l x r p)
  unfolding remove swap_with_successor
  remove-two a y b x c z d p h =
      let l : Tree A = node a y b in
      let (m, s, q) = leftmost c z d [] in
      let up : Ancestors A = went_right l (record x { item = m.item }) ∷ p in
      let (place, front, back) =
        leftmost-IsPlace c z d [] up (IsPlace-right l x (node c z d) p h) in
      let n : Node A = record m { item = x.item } in
      let (t, runs, sound, order) =
        detach_no_left n s (mark_ancestors (q ++ up))
          (mark-IsPlace (node leaf n s) (q ++ up) place) in
      (
        t,
        runs,
        sound,
        order
            ∙ swap_order (before p) (to_list l) (before (mark_ancestors (q ++ up)))
                (after (mark_ancestors (q ++ up))) m.item (to_list s)
                (before-mark (q ++ up) ∙ front)
                (ap (λ t. m.item ∷ (to_list s ++ t)) (after-mark (q ++ up)) ∙ back),
      )

  mark_order :
      (xs : List A) (p : Ancestors A) {ys : List A}
      → ys ≡ before (mark_ancestors p) ++ (xs ++ after (mark_ancestors p))
      → ys ≡ before p ++ (xs ++ after p)
  mark_order xs p e = e ∙ ap₂ (λ b a. b ++ (xs ++ a)) (before-mark p) (after-mark p)

  remove-Removed :
      (l : Tree A) (x : Node A) (r : Tree A) (p : Ancestors A)
      → IsPlace (node l x r) p
      → Removed ((before p ++ to_list l) ++ (to_list r ++ after p)) (remove l x r p)
  remove-Removed (node a y b) x (node c z d) p h = remove-two a y b x c z d p h
  remove-Removed leaf x r p h =
      let (t, runs, sound, order) =
        detach_no_left x r (mark_ancestors p) (mark-IsPlace (node leaf x r) p h) in
      (t, unfold remove in runs, sound, mark_order (to_list r) p order ∙ (simp append-nil))
  remove-Removed (node a y b) x leaf p h =
      let (t, runs, sound, order) =
        detach_left a y b x (mark_ancestors p) (mark-IsPlace (node (node a y b) x leaf) p h) in
      (
        t,
        unfold remove in runs,
        sound,
        mark_order (to_list (node a y b)) p order ∙ (simp append_assoc),
      )

  -- `rbt_remove` of the node `x` of a red-black tree, with subtrees `l` and `r` at the place `p`, does
  -- not fault. It leaves a red-black tree of the items that were before and behind `x`, in order.
  pub remove_refines :
      (l : Tree A) (x : Node A) (r : Tree A) (p : Ancestors A)
      → IsRedBlack (plug (node l x r) p)
      → let b = before p ++ to_list l in
        let a = to_list r ++ after p in
        (t : Tree A) × (remove l x r p ≡ done t)
        × IsRedBlack t
        × (to_list (plug (node l x r) p) ≡ b ++ (x.item ∷ a))
        × (to_list t ≡ b ++ a)
  remove_refines l x r p h =
      let (t, runs, sound, order) = remove-Removed l x r p (plug-IsPlace (node l x r) p h) in
      (t, runs, sound, to_list-plug (node l x r) p ∙ (simp append_assoc), order)

-- ===== src/Rbt/Remove.antt =====
-- `rbt_remove`, `swap_with_successor` and `repair_after_remove`.
pub mod Detach
pub mod Laws
pub mod Repair
pub mod Settle
use libdlb.Base.{
  Bool, true, false, not, ◌&&◌, List, [], ◌∷◌, ◌++◌, map, Outcome, done, fault, ◌>>=◌,
  if◌then◌else◌,
}
use libdlb.Rbt.{
  Node, Tree, leaf, node, Frame, went_left, went_right, Ancestors, is_red, make_black, make_red,
  mark_modified, blacken, parent, sibling, plug_one, with_parent, plug, rotate_left, rotate_right,
}

module _ {A : Type 0} where
  -- `while (s->left) s = s->left;`: the node, its right subtree and the steps down to it
  pub leftmost : Tree A → Node A → Tree A → Ancestors A → Node A × Tree A × Ancestors A
  leftmost leaf s b p = (s, b, p)
  leftmost (node c y d) s b p = leftmost c y d (went_left s b ∷ p)

  -- The nodes change places and the flags stay: the successor's item goes to the place of `n`. Then
  -- `n` has no left child; its right subtree and the way up from it are returned.
  pub swap_with_successor :
      Tree A → Node A → Tree A → Ancestors A → Outcome (Node A × Tree A × Ancestors A)
  unfolding leftmost
  swap_with_successor l n leaf p = fault
  swap_with_successor l n (node a s b) p =
      let (m, r, q) = leftmost a s b [] in
      done (record m { item = n.item }, r, q ++ (went_right l (record n { item = m.item }) ∷ p))

  -- `rbt_mark_modified` of the parent of a node
  pub mark_ancestors : Ancestors A → Ancestors A
  mark_ancestors [] = []
  mark_ancestors (f ∷ p) = with_parent (mark_modified (parent f)) f ∷ mark_ancestors p

  -- `RBT_IS_BLACK(s->left) && RBT_IS_BLACK(s->right)`, a fault if `s` is NULL
  abbrev pub black_children : Tree A → Outcome Bool
  black_children leaf = fault
  black_children (node c s d) = done (not (is_red c) && not (is_red d))

  abbrev pub redden : Tree A → Tree A
  redden leaf = leaf
  redden (node c s d) = node c (make_red s) d

  abbrev pub with_sibling : Tree A → Frame A → Frame A
  with_sibling s (went_left p _) = went_left p s
  with_sibling s (went_right _ p) = went_right s p

  -- `MAKE_BLACK` and `MARK_MODIFIED` of a child
  abbrev pub blacken_marked : Tree A → Outcome (Tree A)
  blacken_marked leaf = fault
  blacken_marked (node a y b) = done (node a (mark_modified (make_black y)) b)

  -- The sibling's subtree after its red child has been brought to the side far from `n`.
  pub redden_far : Frame A → Outcome (Tree A)
  redden_far (went_left p (node c s d)) =
      if is_red d
      then done (node c s d)
      else (do c' ← blacken_marked c; rotate_right (node c' (mark_modified (make_red s)) d))
  redden_far (went_right (node c s d) p) =
      if is_red c
      then done (node c s d)
      else (do d' ← blacken_marked d; rotate_left (node c (mark_modified (make_red s)) d'))
  redden_far (went_left p leaf) = fault
  redden_far (went_right leaf p) = fault

  -- `s->flags = p->flags | RBT_FLAG_MODIFIED`
  abbrev pub take_flags : Node A → Node A → Node A
  take_flags p s = record s { red = p.red; modified = true }

  -- The last rotation, towards `n`: `s` is the sibling's subtree.
  pub rotate_towards : Tree A → Frame A → Tree A → Outcome (Tree A)
  unfolding rotate_left rotate_right
  rotate_towards n f leaf = fault
  rotate_towards n (went_left p _) (node c s d) = do
    d' ← blacken d
    rotate_left (node n (make_black p) (node c (take_flags p s) d'))
  rotate_towards n (went_right _ p) (node c s d) = do
    c' ← blacken c
    rotate_right (node (node c' (take_flags p s) d) (make_black p) n)

  -- What follows the loop, where the sibling is black: the subtree in the place of the parent.
  pub settle : Tree A → Frame A → Outcome (Tree A)
  unfolding redden_far rotate_towards
  settle n f = do
    black ← black_children (sibling f)
    if (parent f).red && black
        then done
            (plug_one n (with_parent (make_black (parent f)) (with_sibling (redden (sibling f)) f)))
        else (do s ← redden_far f; rotate_towards n f s)

  -- A red sibling: after the rotation of the parent towards `n`, the new frame of `n` and the frame
  -- of the old sibling above it.
  abbrev pub rotate_sibling : Frame A → Outcome (Frame A × Frame A)
  rotate_sibling (went_left p (node c s d)) =
      done (went_left (make_red p) c, went_left (mark_modified (make_black s)) d)
  rotate_sibling (went_right (node c s d) p) =
      done (went_right d (make_red p), went_right c (mark_modified (make_black s)))
  rotate_sibling (went_left p leaf) = fault
  rotate_sibling (went_right leaf p) = fault

  -- whether the loop goes on: the parent, the sibling and the sibling's children are black
  pub goes_on : Frame A → Outcome Bool
  goes_on f = do black ← black_children (sibling f); done (not (parent f).red && black)

  -- `n` is the subtree in the open place, NULL at first. Behind a red sibling the parent is red, and
  -- the loop ends. A NULL sibling is dereferenced whatever the colour of the parent.
  pub repair_after_remove : Tree A → Ancestors A → Outcome (Tree A)
  unfolding settle plug goes_on
  repair_after_remove n [] = done n
  repair_after_remove n (f ∷ up) = elim (is_red (sibling f)) [
    | true ↦ (do (g, h) ← rotate_sibling f; t ← settle n g; done (plug t (h ∷ up)))
    | false ↦ (do
      again ← goes_on f
      elim again [
        | true ↦ repair_after_remove (plug_one n (with_sibling (redden (sibling f)) f)) up
        | false ↦ (do t ← settle n f; done (plug t up))
      ])
  ]

  -- `rbt_remove` from where the node has one child at most: its subtrees, itself, the way up
  pub detach : Tree A → Node A → Tree A → Ancestors A → Outcome (Tree A)
  unfolding repair_after_remove
  detach (node a y b) x r p = done (plug (node a (make_black y) b) p)
  detach leaf x (node a y b) p = done (plug (node a (make_black y) b) p)
  detach leaf x leaf p = if x.red then done (plug leaf p) else repair_after_remove leaf p

  -- `rbt_remove` of the node `x` with subtrees `l` and `r`
  unfoldable pub remove : Tree A → Node A → Tree A → Ancestors A → Outcome (Tree A)
  unfolding swap_with_successor mark_ancestors detach plug
  remove leaf x r p = detach leaf x r (mark_ancestors p)
  remove (node a y b) x leaf p = detach (node a y b) x leaf (mark_ancestors p)
  remove (node a y b) x (node c z d) p = do
    (m, r, q) ← swap_with_successor (node a y b) x (node c z d) p
    detach leaf m r (mark_ancestors q)

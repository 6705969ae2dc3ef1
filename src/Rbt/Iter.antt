-- ===== src/Rbt/Iter.antt =====
-- src/rbt_iter.c: a `struct rbt_node *` is the place of a node in its tree.
pub mod Steps
pub mod Nearest
use libdlb.Base.{Option, none, some, List, [], ◌∷◌}
use libdlb.Rbt.{
  Sign, neg, zer, pos, Node, Tree, leaf, node, Frame, went_left, went_right, Ancestors,
}

-- A node that is not NULL: its subtrees and the way up to the root.
pub record Place (A : Type 0) : Type 0 where
  pub lower : Tree A
  pub at : Node A
  pub upper : Tree A
  pub up : Ancestors A

module _ {A : Type 0} where
  abbrev pub place : Tree A → Node A → Tree A → Ancestors A → Place A
  place l x r p = record { lower = l; at = x; upper = r; up = p }

  -- `while (n->left) n = n->left;`
  pub go_left : Tree A → Node A → Tree A → Ancestors A → Place A
  go_left leaf x r p = place leaf x r p
  go_left (node a y b) x r p = go_left a y b (went_left x r ∷ p)

  -- `while (n->right) n = n->right;`
  pub go_right : Tree A → Node A → Tree A → Ancestors A → Place A
  go_right l x leaf p = place l x leaf p
  go_right l x (node a y b) p = go_right a y b (went_right l x ∷ p)

  -- `while (n->parent && n->parent->right == n) n = n->parent;`, then `n->parent`: `t` is the subtree
  -- at `n`
  pub climb_right : Tree A → Ancestors A → Option (Place A)
  climb_right t [] = none
  climb_right t (went_left x r ∷ p) = some (place t x r p)
  climb_right t (went_right l x ∷ p) = climb_right (node l x t) p

  pub climb_left : Tree A → Ancestors A → Option (Place A)
  climb_left t [] = none
  climb_left t (went_left x r ∷ p) = climb_left (node t x r) p
  climb_left t (went_right l x ∷ p) = some (place l x t p)

  pub iter_next : Place A → Option (Place A)
  unfolding go_left climb_right
  iter_next n = elim n.upper [
    | leaf ↦ climb_right (node n.lower n.at n.upper) n.up
    | node a y b ↦ some (go_left a y b (went_right n.lower n.at ∷ n.up))
  ]

  pub iter_prev : Place A → Option (Place A)
  unfolding go_right climb_left
  iter_prev n = elim n.lower [
    | leaf ↦ climb_left (node n.lower n.at n.upper) n.up
    | node a y b ↦ some (go_right a y b (went_left n.at n.upper ∷ n.up))
  ]

  pub iter_first : Tree A → Option (Place A)
  unfolding go_left
  iter_first leaf = none
  iter_first (node l x r) = some (go_left l x r [])

  pub iter_last : Tree A → Option (Place A)
  unfolding go_right
  iter_last leaf = none
  iter_last (node l x r) = some (go_right l x r [])

  -- The four searches return the node found, here its item; `m` is the best so far.
  pub le_from : (A → Sign) → Tree A → Option A → Option A
  le_from compare leaf m = m
  le_from compare (node l x r) m = elim (compare x.item) [
    | zer ↦ some x.item
    | neg ↦ le_from compare l m
    | pos ↦ le_from compare r (some x.item)
  ]

  pub iter_le : (A → Sign) → Tree A → Option A
  unfolding le_from
  iter_le compare t = le_from compare t none

  pub ge_from : (A → Sign) → Tree A → Option A → Option A
  ge_from compare leaf m = m
  ge_from compare (node l x r) m = elim (compare x.item) [
    | zer ↦ some x.item
    | neg ↦ ge_from compare l (some x.item)
    | pos ↦ ge_from compare r m
  ]

  pub iter_ge : (A → Sign) → Tree A → Option A
  unfolding ge_from
  iter_ge compare t = ge_from compare t none

  pub lt_from : (A → Sign) → Tree A → Option A → Option A
  lt_from compare leaf m = m
  lt_from compare (node l x r) m = elim (compare x.item) [
    | pos ↦ lt_from compare r (some x.item)
    | _ ↦ lt_from compare l m
  ]

  pub iter_lt : (A → Sign) → Tree A → Option A
  unfolding lt_from
  iter_lt compare t = lt_from compare t none

  pub gt_from : (A → Sign) → Tree A → Option A → Option A
  gt_from compare leaf m = m
  gt_from compare (node l x r) m = elim (compare x.item) [
    | neg ↦ gt_from compare l (some x.item)
    | _ ↦ gt_from compare r m
  ]

  pub iter_gt : (A → Sign) → Tree A → Option A
  unfolding gt_from
  iter_gt compare t = gt_from compare t none

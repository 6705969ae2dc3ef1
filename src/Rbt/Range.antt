-- ===== src/Rbt/Range.antt =====
-- src/rbt_range.c: the calls of the callback, in order. `compare` is the range's comparison, whose
-- sign says that the node is before the range, in it or behind it.
pub mod Laws
pub mod Count
use libdlb.Base.{List, [], ◌∷◌, ◌++◌}
use libdlb.Rbt.{Sign, neg, zer, pos, Node, Tree, leaf, node}

-- `cb(query_data, n, type)`
pub data Call (A : Type 0) : Type 0 where
  add_node : Node A → Call A
  add_tree : Tree A → Call A

module _ {A : Type 0} where
  -- `if (n) cb(query_data, n, RBT_RANGE_ADD_TREE);`
  abbrev pub add_subtree : Tree A → List (Call A)
  add_subtree leaf = []
  add_subtree (node l x r) = add_tree (node l x r) ∷ []

  pub query_low : (A → Sign) → Tree A → List (Call A)
  query_low compare leaf = []
  query_low compare (node l x r) =
      let lower = query_low compare l in
      let upper = query_low compare r in
      elim (compare x.item) [ neg ↦ upper | _ ↦ lower ++ (add_node x ∷ add_subtree r) ]

  pub query_high : (A → Sign) → Tree A → List (Call A)
  query_high compare leaf = []
  query_high compare (node l x r) =
      let lower = query_high compare l in
      let upper = query_high compare r in
      elim (compare x.item) [ pos ↦ lower | _ ↦ add_subtree l ++ (add_node x ∷ upper) ]

  pub query_over : (A → Sign) → Tree A → List (Call A)
  unfolding query_low query_high
  query_over compare leaf = []
  query_over compare (node l x r) =
      let lower = query_over compare l in
      let upper = query_over compare r in
      elim (compare x.item) [
        | neg ↦ upper
        | pos ↦ lower
        | zer ↦ query_low compare l ++ (add_node x ∷ query_high compare r)
      ]

  unfoldable pub range_query : (A → Sign) → Tree A → List (Call A)
  unfolding query_over
  range_query compare t = query_over compare t

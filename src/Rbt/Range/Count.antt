-- ===== src/Rbt/Range/Count.antt =====
-- How often a range query calls its callback.
use libdlb.Base.{◌+◌, ◌*◌, ◌^◌, ◌≤◌, length, length-append, ◌∷◌, arith}
use libdlb.Rbt.{Sign, Tree, leaf, node}
use libdlb.Rbt.Shape.{to_list, black_height, IsRedBlack}
use libdlb.Rbt.Height.{height, height-bound}
use libdlb.Rbt.Range.{add_node, add_subtree, query_low, query_high, query_over, range_query}

module _ {A : Type 0} (compare : A → Sign) where
  length-add_subtree : (t : Tree A) → length (add_subtree t) ≤ 1
  length-add_subtree leaf = omega arith
  length-add_subtree (node l x r) = omega arith

  length-query_low : (t : Tree A) → length (query_low compare t) ≤ 2 * height t
  unfolding query_low
  length-query_low leaf = omega arith
  length-query_low (node l x r) = ground (
    arith,
    length-append (query_low compare l) (add_node x ∷ add_subtree r),
    length-add_subtree r,
    length-query_low l,
    length-query_low r,
  )

  length-query_high : (t : Tree A) → length (query_high compare t) ≤ 2 * height t
  unfolding query_high
  length-query_high leaf = omega arith
  length-query_high (node l x r) = ground (
    arith,
    length-append (add_subtree l) (add_node x ∷ query_high compare r),
    length-add_subtree l,
    length-query_high l,
    length-query_high r,
  )

  length-query_over : (t : Tree A) → length (query_over compare t) ≤ 4 * height t
  unfolding query_over
  length-query_over leaf = omega arith
  length-query_over (node l x r) = ground (
    arith,
    length-append (query_low compare l) (add_node x ∷ query_high compare r),
    length-query_low l,
    length-query_high r,
    length-query_over l,
    length-query_over r,
  )

  -- On a red-black tree, the number of calls is at most eight times the black height, which is
  -- logarithmic in the number of nodes.
  pub length-range_query :
      (t : Tree A)
      → IsRedBlack t
      → (length (range_query compare t) ≤ 8 * black_height t)
        × (2 ^ black_height t ≤ length (to_list t) + 1)
  unfolding range_query
  length-range_query t rb =
      let (low, many) = height-bound t rb in (omega (arith, length-query_over t, low), many)

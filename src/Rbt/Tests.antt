-- ===== src/Rbt/Tests.antt =====
-- Red-black trees of numbered keys at small inputs, and the theorems there.
use Prim.Native.Nat.{compare, Ordering}
use libdlb.Base.{
  length, ℕ, ◌≡◌, ◌≤◌, ◌*◌, ◌^◌, ◌+◌, refl, true, false, none, some, [], ◌∷◌, Outcome, done, ◌>>=◌,
  arith,
}
use libdlb.Rbt.{Sign, neg, zer, pos, Node, Tree, leaf, node, went_left, plug, find}
use libdlb.Rbt.Shape.{to_list, IsRedBlack, black_height}
use libdlb.Rbt.Order.{Seeks}
use libdlb.Rbt.Keys.{IsComparison, IsSorted, or_else, Seeks-of_IsSorted, find-insert}
use libdlb.Rbt.Insert.{insert}
use libdlb.Rbt.Insert.Laws.{insert_refines}
use libdlb.Rbt.Iter.{iter_first, iter_le, iter_ge, iter_lt, iter_gt}
use libdlb.Rbt.Iter.Steps.{walk, walk-to_list}
use libdlb.Rbt.Iter.Nearest.{iter-nearest}
use libdlb.Rbt.Range.{range_query, add_node}
use libdlb.Rbt.Range.Laws.{covered, Ranges, range_query-inside}
use libdlb.Rbt.Range.Count.{length-range_query}
use libdlb.Rbt.Remove.{remove}
use libdlb.Rbt.Remove.Laws.{remove_refines}

-- An item is a key with a value.
abbrev Item : Type 0
Item = ℕ × ℕ

abbrev by_key : ℕ → Item → Sign
by_key k (j, v) = elim (compare k j) [ Ordering.lt ↦ neg | Ordering.eq ↦ zer | Ordering.gt ↦ pos ]

abbrev key : Item → ℕ
key (k, v) = k

by_key-IsComparison : IsComparison by_key key
by_key-IsComparison = record {
  flip = λ a b h. ground arith;
  seek_neg = λ k a b h g. ground arith;
  seek_zer = λ k a b h g. ground arith;
  same = λ k a b h. ground arith;
}

abbrev red_node : ℕ → Node Item
red_node k = record { red = true; modified = true; item = (k, k) }

abbrev black_node : ℕ → Node Item
black_node k = record { red = false; modified = true; item = (k, k) }

-- 1 to 4 inserted in order
abbrev four : Tree Item
four =
    node (node leaf (black_node 1) leaf) (black_node 2)
      (node leaf (black_node 3) (node leaf (red_node 4) leaf))

abbrev add : ℕ → Tree Item → Outcome (Tree Item)
add k t = insert (by_key k) (k, k) t >>= λ (t', old). done t'

four_inserted : (add 1 leaf >>= add 2 >>= add 3 >>= add 4) ≡ done four
unfolding insert plug
four_inserted = refl

four-IsRedBlack : IsRedBlack four
four-IsRedBlack = ground arith

four-IsSorted : IsSorted by_key key (to_list four)
four-IsSorted = ((refl, (refl, (refl, tt))), ((refl, (refl, tt)), ((refl, tt), (tt, tt))))

four-Seeks : (k : ℕ) → Seeks (by_key k) (to_list four)
four-Seeks k = Seeks-of_IsSorted by_key key by_key-IsComparison k (to_list four) four-IsSorted

insert_refines_example :
    (t : Tree Item) × (insert (by_key 3) (3, 7) four ≡ done (t, some (3, 3)))
    × IsRedBlack t
    × (to_list t ≡ (1, 1) ∷ (2, 2) ∷ (3, 7) ∷ (4, 4) ∷ [])
insert_refines_example = insert_refines (by_key 3) (3, 7) four four-IsRedBlack (four-Seeks 3)

find-insert_example :
    (t : Tree Item) × (insert (by_key 5) (5, 0) four ≡ done (t, find (by_key 5) four))
    × IsRedBlack t
    × IsSorted by_key key (to_list t)
    × ((k : ℕ) → find (by_key k) t ≡ or_else (by_key k (5, 0)) (5, 0) (find (by_key k) four))
find-insert_example =
    find-insert by_key key by_key-IsComparison (5, 0) four four-IsRedBlack four-IsSorted

-- the root has two children, and its successor takes its place
remove_refines_example :
    (t : Tree Item) × (remove
        (node leaf (black_node 1) leaf)
        (black_node 2)
        (node leaf (black_node 3) (node leaf (red_node 4) leaf))
        []
      ≡ done t)
    × IsRedBlack t
    × (to_list four ≡ (1, 1) ∷ (2, 2) ∷ (3, 3) ∷ (4, 4) ∷ [])
    × (to_list t ≡ (1, 1) ∷ (3, 3) ∷ (4, 4) ∷ [])
unfolding plug
remove_refines_example =
    remove_refines (node leaf (black_node 1) leaf) (black_node 2)
      (node leaf (black_node 3) (node leaf (red_node 4) leaf)) [] four-IsRedBlack

-- a black leaf goes, and the sibling's red child makes up for it
remove_leaf :
    remove leaf
      (black_node 1)
      leaf
      (went_left (black_node 2) (node leaf (black_node 3) (node leaf (red_node 4) leaf)) ∷ [])
    ≡ done (node (node leaf (black_node 2) leaf) (black_node 3) (node leaf (black_node 4) leaf))
unfolding remove
remove_leaf = refl

walk-to_list_example : walk 4 (iter_first four) ≡ (1, 1) ∷ (2, 2) ∷ (3, 3) ∷ (4, 4) ∷ []
walk-to_list_example = walk-to_list four 4 (omega arith)

iter-nearest_example :
    (iter_le (by_key 9) four ≡ some (4, 4))
    × (iter_ge (by_key 9) four ≡ none)
    × (iter_lt (by_key 9) four ≡ some (4, 4))
    × (iter_gt (by_key 9) four ≡ none)
iter-nearest_example = iter-nearest (by_key 9) four (four-Seeks 9)

-- the keys 3 and up
abbrev from_three : Item → Sign
from_three (k, v) = elim (compare k 3) [ Ordering.lt ↦ neg | _ ↦ zer ]

range_query_calls :
    range_query from_three four ≡ add_node (black_node 3) ∷ add_node (red_node 4) ∷ []
unfolding range_query
range_query_calls = refl

from_three-Ranges : Ranges from_three (to_list four)
from_three-Ranges = ground arith

range_query-inside_example : covered (range_query from_three four) ≡ (3, 3) ∷ (4, 4) ∷ []
range_query-inside_example = range_query-inside from_three four from_three-Ranges

length-range_query_example :
    (length (range_query from_three four) ≤ 8 * black_height four) × (2 ^ black_height four ≤ 4 + 1)
length-range_query_example = length-range_query from_three four four-IsRedBlack

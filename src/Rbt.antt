-- ===== src/Rbt.antt =====
-- The red-black tree of src/rbt.c and src/rbt.h.
-- A `struct rbt_node` is embedded in a structure of the client's, here an item of type `A`; its flags
-- are two Booleans. The links `left` and `right` are subtrees, and a node that the code reaches with
-- its `parent` links is a subtree with the way from it up to the root. `fix_downptr` and the updates
-- of `parent` are then what `plug` does: they put a subtree in its place.
pub mod Shape
pub mod Order
pub mod Height
pub mod Insert
pub mod Iter
pub mod Keys
pub mod Range
mod Tests
pub mod Remove
use libdlb.Base.{
  Bool, true, false, Option, none, some, List, [], ◌∷◌, Outcome, done, fault, if◌then◌else◌,
}

-- The sign of the `int` that a comparison returns: the code tests only `!r`, `r < 0` and `r > 0`.
pub data Sign : Type 0 where
  neg zer pos : Sign

pub record Node (A : Type 0) : Type 0 where
  pub red : Bool
  pub modified : Bool
  pub item : A

pub data Tree (A : Type 0) : Type 0 where
  leaf : Tree A
  node : Tree A → Node A → Tree A → Tree A

-- A step down: the parent that it left, and the subtree on the parent's other side.
pub data Frame (A : Type 0) : Type 0 where
  went_left : Node A → Tree A → Frame A
  went_right : Tree A → Node A → Frame A

-- nearest parent first
abbrev pub Ancestors : Type 0 → Type 0
Ancestors A = List (Frame A)

module _ {A : Type 0} where
  -- `RBT_IS_RED`; `RBT_IS_BLACK` is its negation. NULL is black.
  abbrev pub is_red : Tree A → Bool
  is_red leaf = false
  is_red (node l x r) = x.red

  abbrev pub make_black : Node A → Node A
  make_black x = record x { red = false }

  abbrev pub make_red : Node A → Node A
  make_red x = record x { red = true }

  abbrev pub mark_modified : Node A → Node A
  mark_modified x = record x { modified = true }

  -- `MAKE_BLACK` through a pointer, a fault at NULL
  abbrev pub blacken : Tree A → Outcome (Tree A)
  blacken leaf = fault
  blacken (node l x r) = done (node l (make_black x) r)

  abbrev pub parent : Frame A → Node A
  parent (went_left x r) = x
  parent (went_right l x) = x

  abbrev pub sibling : Frame A → Tree A
  sibling (went_left x r) = r
  sibling (went_right l x) = l

  -- the parent's subtree, with `t` where the step went
  abbrev pub plug_one : Tree A → Frame A → Tree A
  plug_one t (went_left x r) = node t x r
  plug_one t (went_right l x) = node l x t

  -- the frame with another parent in its parent's place
  abbrev pub with_parent : Node A → Frame A → Frame A
  with_parent y (went_left x r) = went_left y r
  with_parent y (went_right l x) = went_right l y

  unfoldable pub plug : Tree A → Ancestors A → Tree A
  plug t [] = t
  plug t (f ∷ p) = plug (plug_one t f) p

  -- A rotation of the subtree at `n`; a fault if the child that is to rise is NULL.
  pub rotate_left : Tree A → Outcome (Tree A)
  rotate_left (node a n (node b r c)) = done (node (node a n b) r c)
  rotate_left _ = fault

  pub rotate_right : Tree A → Outcome (Tree A)
  rotate_right (node (node a l b) n c) = done (node a l (node b n c))
  rotate_right _ = fault

  -- `rbt_find`, where `compare` is `t->compare` at the key that is sought
  unfoldable pub find : (A → Sign) → Tree A → Option A
  find compare leaf = none
  find compare (node l x r) = elim (compare x.item) [
    | zer ↦ some x.item
    | neg ↦ find compare l
    | pos ↦ find compare r
  ]

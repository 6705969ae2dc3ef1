-- ===== src/Rbt/Insert.antt =====
-- `rbt_insert` and `repair_after_insert`.
pub mod Laws
pub mod Repair
use libdlb.Base.{
  Bool, true, false, Option, none, some, List, [], ◌∷◌, Outcome, done, fault, ◌>>=◌, if◌then◌else◌,
}
use libdlb.Rbt.{
  Sign, neg, zer, pos, Node, Tree, leaf, node, Frame, went_left, went_right, Ancestors, is_red,
  make_black, make_red, mark_modified, blacken, parent, sibling, plug_one, with_parent, plug,
  rotate_left, rotate_right,
}

-- Where the descent ends: at NULL, or at a node with the key.
pub data Place (A : Type 0) : Type 0 where
  vacant : Ancestors A → Place A
  occupied : Tree A → Node A → Tree A → Ancestors A → Place A

module _ {A : Type 0} where
  -- the uncle, and the grandparent with `MAKE_BLACK(u)`, `MAKE_BLACK(n->parent)`, `MAKE_RED`
  abbrev pub recolour_frame : Frame A → Outcome (Frame A)
  recolour_frame (went_left x r) = do r' ← blacken r; done (went_left (make_red x) r')
  recolour_frame (went_right l x) = do l' ← blacken l; done (went_right l' (make_red x))

  -- The rotation of the parent, if the node and its parent descend in different directions: the
  -- parent's subtree, and the side of it on which the lower of the two red nodes then is.
  pub straighten : Tree A → Frame A → Frame A → Outcome (Tree A × Bool)
  straighten n (went_left x r) (went_left y u) = done (node n x r, true)
  straighten n (went_left x r) (went_right u y) = do t ← rotate_right (node n x r); done (t, false)
  straighten n (went_right l x) (went_left y u) = do t ← rotate_left (node l x n); done (t, true)
  straighten n (went_right l x) (went_right u y) = done (node l x n, false)

  -- The last part of the repair: `g` is the frame of the grandparent, `up` what is above it.
  pub rotate_up : Tree A → Frame A → Frame A → Ancestors A → Outcome (Tree A)
  unfolding straighten rotate_left rotate_right
  rotate_up n f g up = do
    (p, on_left) ← straighten n f g
    p' ← blacken p
    let top = plug_one p' (with_parent (make_red (parent g)) g)
    top' ← if on_left then rotate_right top else rotate_left top
    done (plug top' up)

  -- `n` is the subtree at the node. A red parent with no parent of its own is a dereference of NULL.
  pub repair_after_insert : Tree A → Ancestors A → Outcome (Tree A)
  unfolding rotate_up plug
  repair_after_insert n [] = blacken n
  repair_after_insert n (f ∷ []) = if (parent f).red then fault else done (plug n (f ∷ []))
  repair_after_insert n (f ∷ g ∷ up) =
      if (parent f).red
      then elim (is_red (sibling g)) [
        | true ↦ (do
          g' ← recolour_frame g
          repair_after_insert (plug_one (plug_one n (with_parent (make_black (parent f)) f)) g') up)
        | false ↦ rotate_up n f g up
      ]
      else done (plug n (f ∷ g ∷ up))

  -- Each node on the way is marked, the last too.
  pub descend : (A → Sign) → Tree A → Ancestors A → Place A
  descend compare leaf p = vacant p
  descend compare (node l x r) p = elim (compare x.item) [
    | zer ↦ occupied l (mark_modified x) r p
    | neg ↦ descend compare l (went_left (mark_modified x) r ∷ p)
    | pos ↦ descend compare r (went_right l (mark_modified x) ∷ p)
  ]

  -- The node for `item` takes the old node's place and flags, or goes in as a leaf. The old node is
  -- returned.
  abbrev pub insert_at : A → Place A → Outcome (Tree A × Option A)
  insert_at item (occupied l x r p) =
      done (plug (node l (record x { item = item }) r) p, some x.item)
  insert_at item (vacant p) = do
    t ← repair_after_insert (node leaf (record { red = true; modified = true; item = item }) leaf) p
    done (t, none)

  unfoldable pub insert : (A → Sign) → A → Tree A → Outcome (Tree A × Option A)
  unfolding descend repair_after_insert
  insert compare item t = insert_at item (descend compare t [])

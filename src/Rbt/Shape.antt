-- ===== src/Rbt/Shape.antt =====
-- The items of a tree in order, and the two rules of red-black trees.
use libdlb.Base.{
  ℕ, ◌+◌, ◌≡◌, subst, sym, Bool, true, false, ◌&&◌, ◌||◌, List, [], ◌∷◌, ◌++◌, append-nil,
  append_assoc, arith, if◌then◌else◌,
}
use libdlb.Rbt.{
  parent, sibling, Node, Tree, leaf, node, went_left, went_right, Ancestors, is_red, plug,
}

red_rule : (x l r p : Bool) → (x && (l || r)) ≡ false → (x && p) ≡ false → (x && (r || p)) ≡ false
red_rule x l r p h k = ground arith

-- a red parent has black children
pub red_first : (x l r : Bool) → (x && (l || r)) ≡ false → (l && x) ≡ false
red_first x l r h = ground arith

pub red_second : (x l r : Bool) → (x && (l || r)) ≡ false → (r && x) ≡ false
red_second x l r h = ground arith

module _ {A : Type 0} where
  abbrev pub to_list : Tree A → List A
  to_list leaf = []
  to_list (node l x r) = to_list l ++ (x.item ∷ to_list r)

  -- what stands before and after the open place, in order
  abbrev pub before : Ancestors A → List A
  before [] = []
  before (went_left x r ∷ p) = before p
  before (went_right l x ∷ p) = before p ++ (to_list l ++ (x.item ∷ []))

  abbrev pub after : Ancestors A → List A
  after [] = []
  after (went_left x r ∷ p) = x.item ∷ (to_list r ++ after p)
  after (went_right l x ∷ p) = after p

  pub to_list-plug :
      (t : Tree A) (p : Ancestors A) → to_list (plug t p) ≡ before p ++ (to_list t ++ after p)
  unfolding plug
  to_list-plug t [] = sym (append-nil (to_list t))
  to_list-plug t (went_left x r ∷ p) = rw (to_list-plug (node t x r) p) (simp append_assoc)
  to_list-plug t (went_right l x ∷ p) = rw (to_list-plug (node l x t) p) (simp append_assoc)

  -- the black nodes on the way from a subtree's root down to NULL
  abbrev pub weight : Node A → ℕ
  weight x = if x.red then 0 else 1

  abbrev pub black_height : Tree A → ℕ
  black_height leaf = 0
  black_height (node l x r) = weight x + black_height l

  -- The count of black nodes is the same on every way down, and a red node has black children.
  abbrev pub IsBalanced : Tree A → Type 0
  IsBalanced leaf = Unit
  IsBalanced (node l x r) =
      (black_height l ≡ black_height r)
      × ((x.red && (is_red l || is_red r)) ≡ false)
      × IsBalanced l
      × IsBalanced r

  -- the colour of the nearest parent; the root's place counts as red, since the root is black
  abbrev pub red_above : Ancestors A → Bool
  red_above [] = true
  red_above (f ∷ p) = (parent f).red

  -- With a balanced subtree of black height `h` in the open place, all is balanced: but that subtree
  -- may have to be black.
  abbrev pub Fits : ℕ → Ancestors A → Type 0
  Fits h [] = Unit
  Fits h (f ∷ p) =
      (black_height (sibling f) ≡ h)
      × IsBalanced (sibling f)
      × (((parent f).red && (is_red (sibling f) || red_above p)) ≡ false)
      × Fits (weight (parent f) + h) p

  -- what the code keeps of every tree: balanced, with a black root
  abbrev pub IsRedBlack : Tree A → Type 0
  IsRedBlack t = IsBalanced t × (is_red t ≡ false)

  pub plug-IsRedBlack :
      (t : Tree A) (p : Ancestors A)
      → IsBalanced t
      → (is_red t && red_above p) ≡ false
      → Fits (black_height t) p
      → IsRedBlack (plug t p)
  unfolding plug
  plug-IsRedBlack t [] b c f = ground arith
  plug-IsRedBlack t (went_left x r ∷ p) b c f =
      plug-IsRedBlack (node t x r) p (ground arith) (ground arith) (ground arith)
  plug-IsRedBlack t (went_right l x ∷ p) b c f =
      plug-IsRedBlack (node l x t) p (ground arith) (ground arith) (ground arith)

  -- The way down into a red-black tree.
  pub Fits-node :
      (l : Tree A) (x : Node A) (r : Tree A) (p : Ancestors A)
      → IsBalanced (node l x r)
      → (x.red && red_above p) ≡ false
      → Fits (black_height (node l x r)) p
      → Fits (black_height l) (went_left x r ∷ p) × Fits (black_height r) (went_right l x ∷ p)
  Fits-node l x r p b c f = (
    (sym b.0, b.3, red_rule (x.red) (is_red l) (is_red r) (red_above p) b.1 c, f),
    (
      b.0,
      b.2,
      red_rule (x.red) (is_red r) (is_red l) (red_above p) (ground arith) c,
      subst (λ h. Fits (weight x + h) p) b.0 f,
    ),
  )

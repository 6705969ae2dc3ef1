-- ===== src/Rbt/Remove/Detach.antt =====
-- `rbt_remove` where the node has one child at most: the rest of the tree stays red-black.
use libdlb.Base.{
  if◌then◌else◌, ◌+◌, ◌≡◌, refl, ap, ◌∙◌, subst, true, false, ◌&&◌, ◌||◌, Bool-cases, inl, inr,
  List, [], ◌∷◌, ◌++◌, arith, ℕ, done, Outcome,
}
use libdlb.Rbt.{Node, Tree, leaf, node, went_left, went_right, Ancestors, is_red, make_black, plug}
use libdlb.Rbt.Shape.{
  to_list, before, after, to_list-plug, weight, black_height, IsBalanced, red_above, Fits,
  IsRedBlack, plug-IsRedBlack, Fits-node, red_first, red_second,
}
use libdlb.Rbt.Remove.{repair_after_remove, mark_ancestors, detach}
use libdlb.Rbt.Remove.Repair.{repair-Repaired}

module _ {A : Type 0} where
  -- A place in a red-black tree: what holds of the subtree there and of the way up.
  abbrev pub IsPlace : Tree A → Ancestors A → Type 0
  IsPlace t p = IsBalanced t × ((is_red t && red_above p) ≡ false) × Fits (black_height t) p

  pub plug-IsPlace : (t : Tree A) (p : Ancestors A) → IsRedBlack (plug t p) → IsPlace t p
  unfolding plug
  plug-IsPlace t [] h = (h.0, ap (λ b. b && true) h.1, tt)
  plug-IsPlace t (went_left x r ∷ p) h =
      let (b, c, fit) = plug-IsPlace (node t x r) p h in
      (b.2, red_first x.red (is_red t) (is_red r) b.1, (Fits-node t x r p b c fit).0)
  plug-IsPlace t (went_right l x ∷ p) h =
      let (b, c, fit) = plug-IsPlace (node l x t) p h in
      (b.3, red_second x.red (is_red l) (is_red t) b.1, (Fits-node l x t p b c fit).1)

  -- marking changes neither the items nor the colours
  pub before-mark : (p : Ancestors A) → before (mark_ancestors p) ≡ before p
  unfolding mark_ancestors
  before-mark [] = refl
  before-mark (went_left x r ∷ p) = before-mark p
  before-mark (went_right l x ∷ p) = ap (λ t. t ++ (to_list l ++ (x.item ∷ []))) (before-mark p)

  pub after-mark : (p : Ancestors A) → after (mark_ancestors p) ≡ after p
  unfolding mark_ancestors
  after-mark [] = refl
  after-mark (went_left x r ∷ p) = ap (λ t. x.item ∷ (to_list r ++ t)) (after-mark p)
  after-mark (went_right l x ∷ p) = after-mark p

  red_above-mark : (p : Ancestors A) → red_above (mark_ancestors p) ≡ red_above p
  unfolding mark_ancestors
  red_above-mark [] = refl
  red_above-mark (went_left x r ∷ p) = refl
  red_above-mark (went_right l x ∷ p) = refl

  Fits-mark : (h : ℕ) (p : Ancestors A) → Fits h p → Fits h (mark_ancestors p)
  unfolding mark_ancestors
  Fits-mark h [] fit = tt
  Fits-mark h (went_left x r ∷ p) fit =
      (fit.0, fit.1, rw (red_above-mark p) fit.2, Fits-mark (weight x + h) p fit.3)
  Fits-mark h (went_right l x ∷ p) fit =
      (fit.0, fit.1, rw (red_above-mark p) fit.2, Fits-mark (weight x + h) p fit.3)

  pub mark-IsPlace : (t : Tree A) (p : Ancestors A) → IsPlace t p → IsPlace t (mark_ancestors p)
  mark-IsPlace t p (b, c, fit) = (b, rw (red_above-mark p) c, Fits-mark (black_height t) p fit)

  -- What is left of a tree that had the items `xs` and those of the removed node's subtrees.
  abbrev pub Removed : List A → Outcome (Tree A) → Type 0
  Removed xs out = (t : Tree A) × (out ≡ done t) × IsRedBlack t × (to_list t ≡ xs)

  -- a child in the place of its parent: it is red, and becomes black
  child-Removed :
      (a : Tree A) (y : Node A) (b : Tree A) (p : Ancestors A)
      → IsBalanced (node a y b)
      → y.red ≡ true
      → Fits (1 + black_height (node a y b)) p
      → Removed
          (before p ++ (to_list (node a y b) ++ after p))
          (done (plug (node a (make_black y) b) p))
  child-Removed a y b p bal r fit =
      let t : Tree A = node a (make_black y) b in
      (
        plug t p,
        refl,
        plug-IsRedBlack t p (bal.0, refl, bal.2, bal.3) refl
            (subst (λ h. Fits h p) (ground arith) fit),
        to_list-plug t p,
      )

  -- a node with one child: the child is red, and the node black
  only_child :
      (x y : Node A) (h k : ℕ)
      → weight y + h ≡ 0
      → (x.red && (y.red || false)) ≡ false
      → k ≡ 0
      → (y.red ≡ true) × (weight x + k ≡ 1 + (weight y + h))
  only_child x y h k e c z = ground arith

  only_child_right :
      (x y : Node A) (h k : ℕ)
      → k ≡ weight y + h
      → (x.red && (false || y.red)) ≡ false
      → k ≡ 0
      → (y.red ≡ true) × (weight x + k ≡ 1 + (weight y + h))
  only_child_right x y h k e c z = ground arith

  pub detach_left :
      (a : Tree A) (y : Node A) (b : Tree A) (x : Node A) (p : Ancestors A)
      → IsPlace (node (node a y b) x leaf) p
      → Removed (before p ++ (to_list (node a y b) ++ after p)) (detach (node a y b) x leaf p)
  unfolding detach
  detach_left a y b x p (bal, c, fit) =
      let (red, h) =
        only_child x y (black_height a) (weight y + black_height a) bal.0 bal.1 bal.0 in
      child-Removed a y b p bal.2 red (subst (λ k. Fits k p) h fit)

  detach_right :
      (x : Node A) (a : Tree A) (y : Node A) (b : Tree A) (p : Ancestors A)
      → IsPlace (node leaf x (node a y b)) p
      → Removed (before p ++ (to_list (node a y b) ++ after p)) (detach leaf x (node a y b) p)
  unfolding detach
  detach_right x a y b p (bal, c, fit) =
      let (red, h) = only_child_right x y (black_height a) 0 bal.0 bal.1 refl in
      child-Removed a y b p bal.3 red (subst (λ k. Fits k p) h fit)

  detach_leaf :
      (x : Node A) (p : Ancestors A)
      → IsPlace (node leaf x leaf) p
      → Removed (before p ++ after p) (detach leaf x leaf p)
  unfolding detach
  detach_leaf x p (bal, c, fit) = elim (Bool-cases x.red) [
    | inl r ↦ (
      plug leaf p,
      ap (λ b. if b then done (plug leaf p) else repair_after_remove leaf p) r,
      plug-IsRedBlack leaf p tt refl (subst (λ k. Fits k p) (ground arith) fit),
      to_list-plug leaf p,
    )
    | inr r ↦
        let (t, runs, sound, order) =
          repair-Repaired leaf p refl tt (subst (λ k. Fits k p) (ground arith) fit) in
        (
          t,
          ap (λ b. if b then done (plug leaf p) else repair_after_remove leaf p) r ∙ runs,
          sound,
          order ∙ to_list-plug leaf p,
        )
  ]

  -- the node without a left child, wherever it is
  pub detach_no_left :
      (x : Node A) (r : Tree A) (p : Ancestors A)
      → IsPlace (node leaf x r) p
      → Removed (before p ++ (to_list r ++ after p)) (detach leaf x r p)
  detach_no_left x leaf p h = detach_leaf x p h
  detach_no_left x (node a y b) p h = detach_right x a y b p h

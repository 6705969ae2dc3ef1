-- ===== src/Rbt/Remove/Settle.antt =====
-- What follows the loop of `repair_after_remove`, `settle`, restores the count of black nodes.
use libdlb.Base.{
  Outcome, suc, not, Bool-cases, inl, inr, refl, ◌+◌, ◌≡◌, true, false, ◌&&◌, ◌∷◌, append_assoc,
  arith, done,
}
use libdlb.Rbt.{
  mark_modified, make_black, make_red, sibling, plug_one, Node, Tree, leaf, node, Frame, went_left,
  went_right, Ancestors, is_red, parent,
}
use libdlb.Rbt.Shape.{weight, to_list, black_height, IsBalanced, red_above, Fits}
use libdlb.Rbt.Remove.{take_flags, settle}

module _ {A : Type 0} where
  -- What `settle` leaves in the place of the parent: the count of black nodes is restored, and the
  -- items keep their order.
  pub record Settled (n : Tree A) (f : Frame A) (up : Ancestors A) (out : Outcome (Tree A))
      : Type 0 where
    pub tree : Tree A
    pub runs : out ≡ done tree
    pub balanced : IsBalanced tree
    pub colour : (is_red tree && red_above up) ≡ false
    pub height : black_height tree ≡ weight (parent f) + suc (black_height n)
    pub order : to_list tree ≡ to_list (plug_one n f)

  -- a red child of the sibling on the far side
  settle-left_far :
      (n : Tree A) (p : Node A) (c : Tree A) (s : Node A) (a : Tree A) (y : Node A) (b : Tree A)
      (up : Ancestors A)
      → is_red n ≡ false
      → IsBalanced n
      → s.red ≡ false
      → y.red ≡ true
      → Fits (suc (black_height n)) (went_left p (node c s (node a y b)) ∷ up)
      → Settled n
          (went_left p (node c s (node a y b)))
          up
          (settle n (went_left p (node c s (node a y b))))
  unfolding settle
  settle-left_far n p c s a y b up k bal e r fit = record {
    tree = node (node n (make_black p) c) (take_flags p s) (node a (make_black y) b);
    runs = ground arith;
    balanced = ground arith;
    colour = ground arith;
    height = ground arith;
    order = simp append_assoc;
  }

  -- the same on the other side
  settle-right_far :
      (n : Tree A) (p : Node A) (d : Tree A) (s : Node A) (a : Tree A) (y : Node A) (b : Tree A)
      (up : Ancestors A)
      → is_red n ≡ false
      → IsBalanced n
      → s.red ≡ false
      → y.red ≡ true
      → Fits (suc (black_height n)) (went_right (node (node a y b) s d) p ∷ up)
      → Settled n
          (went_right (node (node a y b) s d) p)
          up
          (settle n (went_right (node (node a y b) s d) p))
  unfolding settle
  settle-right_far n p d s a y b up k bal e r fit = record {
    tree = node (node a (make_black y) b) (take_flags p s) (node d (make_black p) n);
    runs = ground arith;
    balanced = ground arith;
    colour = ground arith;
    height = ground arith;
    order = simp append_assoc;
  }

  -- a red child of the sibling on the near side only
  settle-left_near :
      (n : Tree A) (p : Node A) (d : Tree A) (s : Node A) (a : Tree A) (y : Node A) (b : Tree A)
      (up : Ancestors A)
      → is_red n ≡ false
      → IsBalanced n
      → s.red ≡ false
      → (y.red ≡ true) × (is_red d ≡ false)
      → Fits (suc (black_height n)) (went_left p (node (node a y b) s d) ∷ up)
      → Settled n
          (went_left p (node (node a y b) s d))
          up
          (settle n (went_left p (node (node a y b) s d)))
  unfolding settle
  settle-left_near n p d s a y b up k bal e r fit = record {
    tree =
        node (node n (make_black p) a) (take_flags p y) (node b (mark_modified (make_black s)) d);
    runs = ground arith;
    balanced = ground arith;
    colour = ground arith;
    height = ground arith;
    order = simp append_assoc;
  }

  -- the same on the other side
  settle-right_near :
      (n : Tree A) (p : Node A) (c : Tree A) (s : Node A) (a : Tree A) (y : Node A) (b : Tree A)
      (up : Ancestors A)
      → is_red n ≡ false
      → IsBalanced n
      → s.red ≡ false
      → (y.red ≡ true) × (is_red c ≡ false)
      → Fits (suc (black_height n)) (went_right (node c s (node a y b)) p ∷ up)
      → Settled n
          (went_right (node c s (node a y b)) p)
          up
          (settle n (went_right (node c s (node a y b)) p))
  unfolding settle
  settle-right_near n p c s a y b up k bal e r fit = record {
    tree =
        node (node c (mark_modified (make_black s)) a) (take_flags p y) (node b (make_black p) n);
    runs = ground arith;
    balanced = ground arith;
    colour = ground arith;
    height = ground arith;
    order = simp append_assoc;
  }

  -- black children of the sibling below a red parent
  settle-left_none :
      (n : Tree A) (p : Node A) (c : Tree A) (s : Node A) (d : Tree A) (up : Ancestors A)
      → is_red n ≡ false
      → IsBalanced n
      → s.red ≡ false
      → (p.red ≡ true) × (is_red c ≡ false) × (is_red d ≡ false)
      → Fits (suc (black_height n)) (went_left p (node c s d) ∷ up)
      → Settled n (went_left p (node c s d)) up (settle n (went_left p (node c s d)))
  unfolding settle
  settle-left_none n p c s d up k bal e r fit = record {
    tree = node n (make_black p) (node c (make_red s) d);
    runs = ground arith;
    balanced = ground arith;
    colour = ground arith;
    height = ground arith;
    order = refl;
  }

  -- the same on the other side
  settle-right_none :
      (n : Tree A) (p : Node A) (c : Tree A) (s : Node A) (d : Tree A) (up : Ancestors A)
      → is_red n ≡ false
      → IsBalanced n
      → s.red ≡ false
      → (p.red ≡ true) × (is_red c ≡ false) × (is_red d ≡ false)
      → Fits (suc (black_height n)) (went_right (node c s d) p ∷ up)
      → Settled n (went_right (node c s d) p) up (settle n (went_right (node c s d) p))
  unfolding settle
  settle-right_none n p c s d up k bal e r fit = record {
    tree = node (node c (make_red s) d) (make_black p) n;
    runs = ground arith;
    balanced = ground arith;
    colour = ground arith;
    height = ground arith;
    order = simp append_assoc;
  }

  -- Behind the loop: the parent is red or a child of the sibling is.
  abbrev pub Ends : Frame A → Type 0
  Ends (went_left p leaf) = ⊥
  Ends (went_right leaf p) = ⊥
  Ends (went_left p (node c s d)) = (not p.red && (not (is_red c) && not (is_red d))) ≡ false
  Ends (went_right (node c s d) p) = (not p.red && (not (is_red c) && not (is_red d))) ≡ false

  settle-left :
      (n : Tree A) (p : Node A) (c : Tree A) (s : Node A) (d : Tree A) (up : Ancestors A)
      → is_red n ≡ false
      → IsBalanced n
      → s.red ≡ false
      → Ends (went_left p (node c s d))
      → Fits (suc (black_height n)) (went_left p (node c s d) ∷ up)
      → is_red d ≡ false
      → Settled n (went_left p (node c s d)) up (settle n (went_left p (node c s d)))
  settle-left n p leaf s d up k b e h fit q =
      settle-left_none n p leaf s d up k b e (ground arith, refl, q) fit
  settle-left n p (node a y c) s d up k b e h fit q = elim (Bool-cases y.red) [
    | inl r ↦ settle-left_near n p d s a y c up k b e (r, q) fit
    | inr r ↦ settle-left_none n p (node a y c) s d up k b e (ground arith, r, q) fit
  ]

  settle-right :
      (n : Tree A) (p : Node A) (c : Tree A) (s : Node A) (d : Tree A) (up : Ancestors A)
      → is_red n ≡ false
      → IsBalanced n
      → s.red ≡ false
      → Ends (went_right (node c s d) p)
      → Fits (suc (black_height n)) (went_right (node c s d) p ∷ up)
      → is_red c ≡ false
      → Settled n (went_right (node c s d) p) up (settle n (went_right (node c s d) p))
  settle-right n p c s leaf up k b e h fit q =
      settle-right_none n p c s leaf up k b e (ground arith, q, refl) fit
  settle-right n p c s (node a y d) up k b e h fit q = elim (Bool-cases y.red) [
    | inl r ↦ settle-right_near n p c s a y d up k b e (r, q) fit
    | inr r ↦ settle-right_none n p c s (node a y d) up k b e (ground arith, q, r) fit
  ]

  pub settle-Settled :
      (n : Tree A) (f : Frame A) (up : Ancestors A)
      → is_red n ≡ false
      → IsBalanced n
      → is_red (sibling f) ≡ false
      → Ends f
      → Fits (suc (black_height n)) (f ∷ up)
      → Settled n f up (settle n f)
  settle-Settled n (went_left p leaf) up k b e h fit = absurd h
  settle-Settled n (went_right leaf p) up k b e h fit = absurd h
  settle-Settled n (went_left p (node c s leaf)) up k b e h fit =
      settle-left n p c s leaf up k b e h fit refl
  settle-Settled n (went_right (node leaf s d) p) up k b e h fit =
      settle-right n p leaf s d up k b e h fit refl
  settle-Settled n (went_left p (node c s (node a y d))) up k b e h fit = elim (Bool-cases y.red) [
    | inl r ↦ settle-left_far n p c s a y d up k b e r fit
    | inr r ↦ settle-left n p c s (node a y d) up k b e h fit r
  ]
  settle-Settled n (went_right (node (node a y c) s d) p) up k b e h fit = elim (Bool-cases y.red) [
    | inl r ↦ settle-right_far n p d s a y c up k b e r fit
    | inr r ↦ settle-right n p (node a y c) s d up k b e h fit r
  ]

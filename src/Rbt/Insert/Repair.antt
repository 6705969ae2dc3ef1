-- ===== src/Rbt/Insert/Repair.antt =====
-- `repair_after_insert` restores the rules of red-black trees and keeps the order of the items.
use libdlb.Base.{
  Bool-cases, inl, inr, refl, sym, ap, ◌∙◌, subst, ◌+◌, ◌≡◌, Bool, true, false, ◌&&◌, ◌||◌, [], ◌∷◌,
  ◌++◌, append_assoc, arith, done,
}
use libdlb.Rbt.{
  make_black, make_red, with_parent, sibling, plug_one, Node, Tree, leaf, node, Frame, went_left,
  went_right, Ancestors, is_red, plug, parent,
}
use libdlb.Rbt.Shape.{
  weight, to_list, before, after, to_list-plug, black_height, IsBalanced, red_above, Fits,
  IsRedBlack, plug-IsRedBlack,
}
use libdlb.Rbt.Insert.{rotate_up, repair_after_insert}

and_false : (b : Bool) {c : Bool} → c ≡ false → (b && c) ≡ false
and_false true e = e
and_false false e = refl

red_top : (x s : Bool) → (x && (s || true)) ≡ false → x ≡ false
red_top x s h = ground arith

module _ {A : Type 0} where
  -- the subtree that the rotations leave in the grandparent's place
  rotated : Tree A → Node A → Tree A → Frame A → Frame A → Tree A
  rotated a x b (went_left y s) (went_left z u) =
      node (node a x b) (make_black y) (node s (make_red z) u)
  rotated a x b (went_left y s) (went_right u z) =
      node (node u (make_red z) a) (make_black x) (node b y s)
  rotated a x b (went_right s y) (went_left z u) =
      node (node s y a) (make_black x) (node b (make_red z) u)
  rotated a x b (went_right s y) (went_right u z) =
      node (node u (make_red z) s) (make_black y) (node a x b)

  rotate_up-rotated :
      (a : Tree A) (x : Node A) (b : Tree A) (f g : Frame A) (up : Ancestors A)
      → rotate_up (node a x b) f g up ≡ done (plug (rotated a x b f g) up)
  unfolding rotate_up rotated
  rotate_up-rotated a x b (went_left y s) (went_left z u) up = refl
  rotate_up-rotated a x b (went_left y s) (went_right u z) up = refl
  rotate_up-rotated a x b (went_right s y) (went_left z u) up = refl
  rotate_up-rotated a x b (went_right s y) (went_right u z) up = refl

  to_list-rotated :
      (a : Tree A) (x : Node A) (b : Tree A) (f g : Frame A)
      → to_list (rotated a x b f g) ≡ to_list (plug_one (plug_one (node a x b) f) g)
  unfolding rotated
  to_list-rotated a x b (went_left y s) (went_left z u) = simp append_assoc
  to_list-rotated a x b (went_left y s) (went_right u z) = simp append_assoc
  to_list-rotated a x b (went_right s y) (went_left z u) = simp append_assoc
  to_list-rotated a x b (went_right s y) (went_right u z) = simp append_assoc

  rotated-IsBalanced :
      (a : Tree A) (x : Node A) (b : Tree A) (f g : Frame A) (up : Ancestors A)
      → IsBalanced (node a x b)
      → x.red ≡ true
      → (parent f).red ≡ true
      → is_red (sibling g) ≡ false
      → Fits (black_height (node a x b)) (f ∷ g ∷ up)
      → let t = rotated a x b f g in
        IsRedBlack t × (black_height t ≡ weight (parent g) + black_height (node a x b))
  unfolding rotated
  rotated-IsBalanced a x b (went_left y s) (went_left z u) up h p q k fit = ground arith
  rotated-IsBalanced a x b (went_left y s) (went_right u z) up h p q k fit = ground arith
  rotated-IsBalanced a x b (went_right s y) (went_left z u) up h p q k fit = ground arith
  rotated-IsBalanced a x b (went_right s y) (went_right u z) up h p q k fit = ground arith

  -- `MAKE_BLACK` at a subtree that is not NULL
  blackened : Tree A → Tree A
  blackened leaf = leaf
  blackened (node l x r) = node l (make_black x) r

  -- the grandparent's subtree after recolouring
  recoloured : Tree A → Frame A → Frame A → Tree A
  unfolding blackened
  recoloured n f (went_left z u) =
      node (plug_one n (with_parent (make_black (parent f)) f)) (make_red z) (blackened u)
  recoloured n f (went_right u z) =
      node (blackened u) (make_red z) (plug_one n (with_parent (make_black (parent f)) f))

  repair-recoloured :
      (n : Tree A) (f g : Frame A) (up : Ancestors A)
      → (parent f).red ≡ true
      → is_red (sibling g) ≡ true
      → repair_after_insert n (f ∷ g ∷ up) ≡ repair_after_insert (recoloured n f g) up
  unfolding repair_after_insert recoloured
  repair-recoloured n f (went_left z leaf) up p q = cc
  repair-recoloured n f (went_right leaf z) up p q = cc
  repair-recoloured n f (went_left z (node a x b)) up p q = rw (p, q)
  repair-recoloured n f (went_right (node a x b) z) up p q = rw (p, q)

  to_list-recoloured :
      (n : Tree A) (f g : Frame A)
      → to_list (recoloured n f g) ≡ to_list (plug_one (plug_one n f) g)
  unfolding recoloured
  to_list-recoloured n (went_left y s) (went_left z leaf) = refl
  to_list-recoloured n (went_left y s) (went_left z (node a x b)) = refl
  to_list-recoloured n (went_left y s) (went_right leaf z) = refl
  to_list-recoloured n (went_left y s) (went_right (node a x b) z) = refl
  to_list-recoloured n (went_right s y) (went_left z leaf) = refl
  to_list-recoloured n (went_right s y) (went_left z (node a x b)) = refl
  to_list-recoloured n (went_right s y) (went_right leaf z) = refl
  to_list-recoloured n (went_right s y) (went_right (node a x b) z) = refl

  recoloured-IsBalanced :
      (n : Tree A) (f g : Frame A) (up : Ancestors A)
      → IsBalanced n
      → (parent f).red ≡ true
      → is_red (sibling g) ≡ true
      → Fits (black_height n) (f ∷ g ∷ up)
      → IsBalanced (recoloured n f g)
        × (is_red (recoloured n f g) ≡ true)
        × (black_height (recoloured n f g)
            ≡ weight (parent g) + (weight (parent f) + black_height n))
  unfolding recoloured
  recoloured-IsBalanced n f (went_left z leaf) up h p q fit = cc
  recoloured-IsBalanced n f (went_right leaf z) up h p q fit = cc
  recoloured-IsBalanced n (went_left y s) (went_left z (node a x b)) up h p q fit = ground arith
  recoloured-IsBalanced n (went_right s y) (went_left z (node a x b)) up h p q fit = ground arith
  recoloured-IsBalanced n (went_left y s) (went_right (node a x b) z) up h p q fit = ground arith
  recoloured-IsBalanced n (went_right s y) (went_right (node a x b) z) up h p q fit = ground arith

  -- The result is red-black, and its items are those of the tree with `n` in the open place.
  abbrev pub Repaired : Tree A → Ancestors A → Type 0
  Repaired n p =
      (t : Tree A) × (repair_after_insert n p ≡ done t)
      × IsRedBlack t
      × (to_list t ≡ to_list (plug n p))

  -- where nothing more is to be done
  plug-Repaired :
      (n : Tree A) (p : Ancestors A)
      → repair_after_insert n p ≡ done (plug n p)
      → IsBalanced n
      → red_above p ≡ false
      → Fits (black_height n) p
      → Repaired n p
  plug-Repaired n p e b c fit =
      (plug n p, e, plug-IsRedBlack n p b (and_false (is_red n) c) fit, refl)

  -- after the rotations, the grandparent's place holds a black node, and nothing above changes
  rotated-Repaired :
      (a : Tree A) (x : Node A) (b : Tree A) (f g : Frame A) (up : Ancestors A)
      → IsBalanced (node a x b)
      → x.red ≡ true
      → (parent f).red ≡ true
      → is_red (sibling g) ≡ false
      → Fits (black_height (node a x b)) (f ∷ g ∷ up)
      → Repaired (node a x b) (f ∷ g ∷ up)
  unfolding repair_after_insert plug
  rotated-Repaired a x b f g up h p q k fit =
      let t = rotated a x b f g in
      let (sound, height) = rotated-IsBalanced a x b f g up h p q k fit in
      (
        plug t up,
        rw (q, k) (rotate_up-rotated a x b f g up),
        plug-IsRedBlack t up sound.0 (ap (λ b. b && red_above up) sound.1)
            (subst (λ h. Fits h up) (ground arith) fit.3.3),
        to_list-plug t up
            ∙ (ap (λ xs. before up ++ (xs ++ after up)) (to_list-rotated a x b f g)
                ∙ sym (to_list-plug (plug_one (plug_one (node a x b) f) g) up)),
      )

  rotate_case :
      (n : Tree A) (f g : Frame A) (up : Ancestors A)
      → is_red n ≡ true
      → IsBalanced n
      → (parent f).red ≡ true
      → is_red (sibling g) ≡ false
      → Fits (black_height n) (f ∷ g ∷ up)
      → Repaired n (f ∷ g ∷ up)
  rotate_case leaf f g up r b q k fit = cc
  rotate_case (node a x c) f g up r b q k fit = rotated-Repaired a x c f g up b r q k fit

  order-Repaired :
      (n : Tree A) (f g : Frame A) (up : Ancestors A)
      → (parent f).red ≡ true
      → is_red (sibling g) ≡ true
      → Repaired (recoloured n f g) up
      → Repaired n (f ∷ g ∷ up)
  unfolding plug
  order-Repaired n f g up q k (t, runs, sound, order) = (
    t,
    repair-recoloured n f g up q k ∙ runs,
    sound,
    order
        ∙ (to_list-plug (recoloured n f g) up
            ∙ (ap (λ xs. before up ++ (xs ++ after up)) (to_list-recoloured n f g)
                ∙ sym (to_list-plug (plug_one (plug_one n f) g) up))),
  )

  repair-black :
      (n : Tree A) (f : Frame A) (p : Ancestors A)
      → (parent f).red ≡ false
      → repair_after_insert n (f ∷ p) ≡ done (plug n (f ∷ p))
  unfolding repair_after_insert
  repair-black n f [] e = rw e
  repair-black n f (g ∷ up) e = rw e

  -- Started at a red node in a tree that is red-black but for that, `repair_after_insert` does not
  -- fault, and leaves a red-black tree with the same items in the same order.
  pub repair-Repaired :
      (n : Tree A) (p : Ancestors A)
      → is_red n ≡ true
      → IsBalanced n
      → Fits (black_height n) p
      → Repaired n p
  repair-Repaired leaf p r b fit = cc
  repair-Repaired (node a x c) [] r b fit = (
    node a (make_black x) c,
    unfold repair_after_insert in refl,
    ground arith,
    unfold plug in refl,
  )
  repair-Repaired n (f ∷ []) r b fit =
      let e : (parent f).red ≡ false = red_top (parent f).red (is_red (sibling f)) fit.2 in
      plug-Repaired n (f ∷ []) (repair-black n f [] e) b e fit
  repair-Repaired n (f ∷ g ∷ up) r b fit = elim (Bool-cases (parent f).red) [
    | inr e ↦ plug-Repaired n (f ∷ g ∷ up) (repair-black n f (g ∷ up) e) b e fit
    | inl q ↦ elim (Bool-cases (is_red (sibling g))) [
      | inr k ↦ rotate_case n f g up r b q k fit
      | inl k ↦
          let (ok, red, height) = recoloured-IsBalanced n f g up b q k fit in
          order-Repaired n f g up q k (
            repair-Repaired (recoloured n f g) up red ok
              (subst (λ h. Fits h up) (sym height) fit.3.3))
    ]
  ]

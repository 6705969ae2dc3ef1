-- ===== src/Rbt/Remove/Repair.antt =====
-- `repair_after_remove` restores the rules of red-black trees and keeps the order of the items.
use libdlb.Base.{
  ap₂, ◌⊎◌, ◌>>=◌, ℕ, suc, not, Bool-cases, inl, inr, refl, sym, ap, ◌∙◌, subst, ◌+◌, ◌≡◌, Bool,
  true, false, ◌&&◌, ◌||◌, [], ◌∷◌, ◌++◌, append_assoc, arith, done,
}
use libdlb.Rbt.{
  mark_modified, make_black, make_red, sibling, plug_one, Node, Tree, leaf, node, Frame, went_left,
  went_right, Ancestors, is_red, plug, parent,
}
use libdlb.Rbt.Shape.{
  weight, to_list, before, after, to_list-plug, black_height, IsBalanced, red_above, Fits,
  IsRedBlack, plug-IsRedBlack,
}
use libdlb.Rbt.Remove.{goes_on, settle, rotate_sibling, with_sibling, redden, repair_after_remove}
use libdlb.Rbt.Remove.Settle.{Ends, settle-Settled}

all_black :
    (p c d : Bool) → (not p && (not c && not d)) ≡ true → (p ≡ false) × (c ≡ false) × (d ≡ false)
all_black p c d h = ground arith

weight_black : {A : Type 0} (x : Node A) → x.red ≡ false → weight x ≡ 1
weight_black x e = ground arith

module _ {A : Type 0} where
  -- The result is red-black, and its items are those of the tree with `n` in the open place.
  abbrev pub Repaired : Tree A → Ancestors A → Type 0
  Repaired n p =
      (t : Tree A) × (repair_after_remove n p ≡ done t)
      × IsRedBlack t
      × (to_list t ≡ to_list (plug n p))

  plug-order :
      (t n : Tree A) (p : Ancestors A)
      → to_list t ≡ to_list n
      → to_list (plug t p) ≡ to_list (plug n p)
  plug-order t n p e =
      to_list-plug t p ∙ (ap (λ xs. before p ++ (xs ++ after p)) e ∙ sym (to_list-plug n p))

  -- after the loop, the rest of the tree stays
  settle-plug :
      (n t : Tree A) (f : Frame A) (up : Ancestors A)
      → IsBalanced t
      → (is_red t && red_above up) ≡ false
      → black_height t ≡ weight (parent f) + suc (black_height n)
      → to_list t ≡ to_list (plug_one n f)
      → Fits (suc (black_height n)) (f ∷ up)
      → IsRedBlack (plug t up) × (to_list (plug t up) ≡ to_list (plug n (f ∷ up)))
  unfolding plug
  settle-plug n t f up b c h o fit = (
    plug-IsRedBlack t up b c (subst (λ k. Fits k up) (sym h) fit.3),
    plug-order t (plug_one n f) up o,
  )

  -- a red sibling: the two frames that the rotation leaves
  rotate_sibling-Fits :
      (f : Frame A) (up : Ancestors A) (k : ℕ)
      → is_red (sibling f) ≡ true
      → Fits (suc k) (f ∷ up)
      → (g : Frame A) × (h : Frame A) × (rotate_sibling f ≡ done (g, h))
        × Fits (suc k) (g ∷ h ∷ up)
        × ((parent g).red ≡ true)
        × (is_red (sibling g) ≡ false)
        × ((n : Tree A) → to_list (plug_one (plug_one n g) h) ≡ to_list (plug_one n f))
  rotate_sibling-Fits (went_left p leaf) up k r fit = cc
  rotate_sibling-Fits (went_right leaf p) up k r fit = cc
  rotate_sibling-Fits (went_left p (node c s d)) up k r fit = (
    went_left (make_red p) c,
    went_left (mark_modified (make_black s)) d,
    refl,
    (
      ground arith,
      fit.1.2,
      ground arith,
      (ground arith, fit.1.3, refl, subst (λ h. Fits h up) (ground arith) fit.3),
    ),
    refl,
    ground arith,
    λ n. simp append_assoc,
  )
  rotate_sibling-Fits (went_right (node c s d) p) up k r fit = (
    went_right d (make_red p),
    went_right c (mark_modified (make_black s)),
    refl,
    (
      ground arith,
      fit.1.3,
      ground arith,
      (ground arith, fit.1.2, refl, subst (λ h. Fits h up) (ground arith) fit.3),
    ),
    refl,
    ground arith,
    λ n. simp append_assoc,
  )

  Ends-of_red :
      (f : Frame A) (up : Ancestors A) (k : ℕ)
      → (parent f).red ≡ true
      → Fits (suc k) (f ∷ up)
      → Ends f
  Ends-of_red (went_left p leaf) up k r fit = absurd (omega (arith, fit.0))
  Ends-of_red (went_right leaf p) up k r fit = absurd (omega (arith, fit.0))
  Ends-of_red (went_left p (node c s d)) up k r fit = ground arith
  Ends-of_red (went_right (node c s d) p) up k r fit = ground arith

  loop-rotate :
      (n t : Tree A) (f g h : Frame A) (up : Ancestors A)
      → is_red (sibling f) ≡ true
      → rotate_sibling f ≡ done (g, h)
      → settle n g ≡ done t
      → repair_after_remove n (f ∷ up) ≡ done (plug t (h ∷ up))
  unfolding repair_after_remove
  loop-rotate n t f g h up r e st = rw (r, e, st, repair_after_remove)

  -- the two ways in which the loop ends
  rotate_case :
      (n : Tree A) (f : Frame A) (up : Ancestors A)
      → is_red n ≡ false
      → IsBalanced n
      → is_red (sibling f) ≡ true
      → Fits (suc (black_height n)) (f ∷ up)
      → Repaired n (f ∷ up)
  unfolding plug
  rotate_case n f up k b r fit =
      let (g, h, runs, fit', red, black, order) = rotate_sibling-Fits f up (black_height n) r fit in
      let st =
        settle-Settled n g (h ∷ up) k b black (Ends-of_red g (h ∷ up) (black_height n) red fit')
          fit' in
      let (sound, items) =
        settle-plug n st.tree g (h ∷ up) st.balanced st.colour st.height st.order fit' in
      (
        plug st.tree (h ∷ up),
        loop-rotate n st.tree f g h up r runs st.runs,
        sound,
        items ∙ plug-order (plug_one (plug_one n g) h) (plug_one n f) up (order n),
      )

  settle_case :
      (n : Tree A) (f : Frame A) (up : Ancestors A)
      → is_red n ≡ false
      → IsBalanced n
      → is_red (sibling f) ≡ false
      → Ends f
      → Fits (suc (black_height n)) (f ∷ up)
      → repair_after_remove n (f ∷ up) ≡ (settle n f >>= λ t. done (plug t up))
      → Repaired n (f ∷ up)
  settle_case n f up k b r e fit runs =
      let st = settle-Settled n f up k b r e fit in
      let (sound, items) =
        settle-plug n st.tree f up st.balanced st.colour st.height st.order fit in
      (plug st.tree up, runs ∙ (rw st.runs), sound, items)

  -- one round of the loop: a black sibling with black children becomes red under a black parent
  abbrev all_black_here : Frame A → Bool
  all_black_here (went_left p (node c s d)) = not p.red && (not (is_red c) && not (is_red d))
  all_black_here (went_right (node c s d) p) = not p.red && (not (is_red c) && not (is_red d))
  all_black_here (went_left p leaf) = false
  all_black_here (went_right leaf p) = false

  repainted : Tree A → Frame A → Tree A
  repainted n f = plug_one n (with_sibling (redden (sibling f)) f)

  goes_on-Ends : (f : Frame A) → Ends f → goes_on f ≡ done false
  unfolding goes_on
  goes_on-Ends (went_left p leaf) e = absurd e
  goes_on-Ends (went_right leaf p) e = absurd e
  goes_on-Ends (went_left p (node c s d)) e = ap done e
  goes_on-Ends (went_right (node c s d) p) e = ap done e

  goes_on-all_black : (f : Frame A) → all_black_here f ≡ true → goes_on f ≡ done true
  unfolding goes_on
  goes_on-all_black (went_left p leaf) e = cc
  goes_on-all_black (went_right leaf p) e = cc
  goes_on-all_black (went_left p (node c s d)) e = ap done e
  goes_on-all_black (went_right (node c s d) p) e = ap done e

  loop-settle :
      (n : Tree A) (f : Frame A) (up : Ancestors A)
      → is_red (sibling f) ≡ false
      → goes_on f ≡ done false
      → repair_after_remove n (f ∷ up) ≡ (settle n f >>= λ t. done (plug t up))
  unfolding repair_after_remove
  loop-settle n f up r e = rw (r, e, repair_after_remove)

  loop-again :
      (n : Tree A) (f : Frame A) (up : Ancestors A)
      → is_red (sibling f) ≡ false
      → goes_on f ≡ done true
      → repair_after_remove n (f ∷ up) ≡ repair_after_remove (repainted n f) up
  unfolding repair_after_remove repainted
  loop-again n f up r e = rw (r, e, repair_after_remove)

  repainted-IsBalanced :
      (n : Tree A) (f : Frame A) (up : Ancestors A)
      → is_red n ≡ false
      → IsBalanced n
      → is_red (sibling f) ≡ false
      → all_black_here f ≡ true
      → Fits (suc (black_height n)) (f ∷ up)
      → (is_red (repainted n f) ≡ false)
        × IsBalanced (repainted n f)
        × (weight (parent f) + suc (black_height n) ≡ suc (black_height (repainted n f)))
        × (to_list (repainted n f) ≡ to_list (plug_one n f))
  unfolding repainted
  repainted-IsBalanced n (went_left p leaf) up k b r e fit = cc
  repainted-IsBalanced n (went_right leaf p) up k b r e fit = cc
  repainted-IsBalanced n (went_left p (node c s d)) up k b r e fit =
      let (ep, ec, ed) = all_black p.red (is_red c) (is_red d) e in
      let hc : black_height n ≡ black_height c = omega (arith, fit.0, weight_black s r) in
      (
        ep,
        (
          omega (arith, hc),
          ap (λ z. z && (is_red n || true)) ep,
          b,
          (fit.1.0, ap₂ ◌||◌ ec ed, fit.1.2, fit.1.3),
        ),
        omega arith,
        refl,
      )
  repainted-IsBalanced n (went_right (node c s d) p) up k b r e fit =
      let (ep, ec, ed) = all_black p.red (is_red c) (is_red d) e in
      let hc : black_height n ≡ black_height c = omega (arith, fit.0, weight_black s r) in
      (
        ep,
        (omega (arith, hc), ap (λ z. z && true) ep, (fit.1.0, ap₂ ◌||◌ ec ed, fit.1.2, fit.1.3), b),
        omega (arith, hc),
        refl,
      )

  Ends-cases :
      (f : Frame A) (up : Ancestors A) (k : ℕ)
      → Fits (suc k) (f ∷ up)
      → (all_black_here f ≡ true) ⊎ Ends f
  Ends-cases (went_left p leaf) up k fit = absurd (omega (arith, fit.0))
  Ends-cases (went_right leaf p) up k fit = absurd (omega (arith, fit.0))
  Ends-cases (went_left p (node c s d)) up k fit =
      Bool-cases (all_black_here (went_left p (node c s d)))
  Ends-cases (went_right (node c s d) p) up k fit =
      Bool-cases (all_black_here (went_right (node c s d) p))

  -- Started at a place that lacks one black node, in a tree that is red-black but for that,
  -- `repair_after_remove` does not fault, and leaves a red-black tree with the same items in order.
  pub repair-Repaired :
      (n : Tree A) (p : Ancestors A)
      → is_red n ≡ false
      → IsBalanced n
      → Fits (suc (black_height n)) p
      → Repaired n p
  unfolding plug
  repair-Repaired n [] k b fit = (n, unfold repair_after_remove in refl, (b, k), refl)
  repair-Repaired n (f ∷ up) k b fit = elim (Bool-cases (is_red (sibling f))) [
    | inl r ↦ rotate_case n f up k b r fit
    | inr r ↦ elim (Ends-cases f up (black_height n) fit) [
      | inr e ↦ settle_case n f up k b r e fit (loop-settle n f up r (goes_on-Ends f e))
      | inl e ↦
          let (black, ok, height, items) = repainted-IsBalanced n f up k b r e fit in
          let (t, runs, sound, order) =
            repair-Repaired (repainted n f) up black ok (subst (λ h. Fits h up) height fit.3) in
          (
            t,
            loop-again n f up r (goes_on-all_black f e) ∙ runs,
            sound,
            order ∙ plug-order (repainted n f) (plug_one n f) up items,
          )
    ]
  ]

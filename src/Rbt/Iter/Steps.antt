-- ===== src/Rbt/Iter/Steps.antt =====
-- `rbt_iter_first`, `rbt_iter_last`, `rbt_iter_next` and `rbt_iter_prev` walk the items in order.
use libdlb.Base.{
  ◌≤◌, ℕ, zero, suc, ◌≡◌, refl, ap, ◌∙◌, sym, subst, Option, none, some, List, [], ◌∷◌, ◌++◌,
  append-nil, append_assoc, length, arith,
}
use libdlb.Rbt.{Node, Tree, leaf, node, went_left, went_right, Ancestors, plug}
use libdlb.Rbt.Shape.{to_list, before, after}
use libdlb.Rbt.Iter.{
  Place, place, go_left, go_right, climb_right, climb_left, iter_next, iter_prev, iter_first,
  iter_last,
}

module _ {A : Type 0} where
  -- the items before and behind a place, and the tree that it is a place of
  abbrev pub earlier : Place A → List A
  earlier n = before n.up ++ to_list n.lower

  abbrev pub later : Place A → List A
  later n = to_list n.upper ++ after n.up

  abbrev pub tree_of : Place A → Tree A
  tree_of n = plug (node n.lower n.at n.upper) n.up

  -- `m` is the first place of the tree `t` behind the items `xs`, of which `ys` are left; there is
  -- none if none are left.
  abbrev pub IsNext : Tree A → List A → List A → Option (Place A) → Type 0
  IsNext t xs ys none = ys ≡ []
  IsNext t xs ys (some m) = (tree_of m ≡ t) × (earlier m ≡ xs) × (ys ≡ m.at.item ∷ later m)

  -- the same from the other end: `xs` are left, and `ys` come behind
  abbrev pub IsPrev : Tree A → List A → List A → Option (Place A) → Type 0
  IsPrev t xs ys none = xs ≡ []
  IsPrev t xs ys (some m) = (tree_of m ≡ t) × (xs ≡ earlier m ++ (m.at.item ∷ [])) × (later m ≡ ys)

  go_left-IsNext :
      (l : Tree A) (x : Node A) (r : Tree A) (p : Ancestors A)
      → IsNext
          (plug (node l x r) p)
          (before p)
          (to_list (node l x r) ++ after p)
          (some (go_left l x r p))
  unfolding go_left plug
  go_left-IsNext leaf x r p = (refl, append-nil (before p), refl)
  go_left-IsNext (node a y b) x r p =
      let (same, front, back) = go_left-IsNext a y b (went_left x r ∷ p) in
      (same, front, (simp append_assoc) ∙ back)

  go_right-IsPrev :
      (l : Tree A) (x : Node A) (r : Tree A) (p : Ancestors A)
      → IsPrev
          (plug (node l x r) p)
          (before p ++ to_list (node l x r))
          (after p)
          (some (go_right l x r p))
  unfolding go_right plug
  go_right-IsPrev l x leaf p = (refl, simp append_assoc, refl)
  go_right-IsPrev l x (node a y b) p =
      let (same, front, back) = go_right-IsPrev a y b (went_right l x ∷ p) in
      (same, (simp append_assoc) ∙ front, back)

  climb_right-IsNext :
      (t : Tree A) (p : Ancestors A)
      → IsNext (plug t p) (before p ++ to_list t) (after p) (climb_right t p)
  unfolding climb_right plug
  climb_right-IsNext t [] = refl
  climb_right-IsNext t (went_left x r ∷ p) = (refl, refl, refl)
  climb_right-IsNext t (went_right l x ∷ p) =
      subst (λ xs. IsNext (plug (node l x t) p) xs (after p) (climb_right (node l x t) p))
        (simp append_assoc) (climb_right-IsNext (node l x t) p)

  climb_left-IsPrev :
      (t : Tree A) (p : Ancestors A)
      → IsPrev (plug t p) (before p) (to_list t ++ after p) (climb_left t p)
  unfolding climb_left plug
  climb_left-IsPrev t [] = refl
  climb_left-IsPrev t (went_left x r ∷ p) =
      subst (λ xs. IsPrev (plug (node t x r) p) (before p) xs (climb_left (node t x r) p))
        (simp append_assoc) (climb_left-IsPrev (node t x r) p)
  climb_left-IsPrev t (went_right l x ∷ p) = (refl, simp append_assoc, refl)

  -- `rbt_iter_first` is the place of the first item, or NULL if there is none.
  pub iter_first-IsNext : (t : Tree A) → IsNext t [] (to_list t) (iter_first t)
  unfolding iter_first plug
  iter_first-IsNext leaf = refl
  iter_first-IsNext (node l x r) =
      let (same, front, back) = go_left-IsNext l x r [] in
      (same, front, sym (append-nil (to_list (node l x r))) ∙ back)

  pub iter_last-IsPrev : (t : Tree A) → IsPrev t (to_list t) [] (iter_last t)
  unfolding iter_last plug
  iter_last-IsPrev leaf = refl
  iter_last-IsPrev (node l x r) = go_right-IsPrev l x r []

  -- `rbt_iter_next` is the place of the next item in the same tree, or NULL at the last item.
  pub iter_next-IsNext :
      (n : Place A) → IsNext (tree_of n) (earlier n ++ (n.at.item ∷ [])) (later n) (iter_next n)
  unfolding iter_next plug
  iter_next-IsNext n = go n.lower n.at n.upper n.up
    where
      regroup : (b l : List A) (x : A) → b ++ (l ++ (x ∷ [])) ≡ (b ++ l) ++ (x ∷ [])
      regroup b l x = simp append_assoc

      go :
          (l : Tree A) (x : Node A) (r : Tree A) (p : Ancestors A)
          → IsNext
              (plug (node l x r) p)
              ((before p ++ to_list l) ++ (x.item ∷ []))
              (to_list r ++ after p)
              (iter_next (place l x r p))
      go l x leaf p =
          subst (λ xs. IsNext (plug (node l x leaf) p) xs (after p) (climb_right (node l x leaf) p))
            (regroup (before p) (to_list l) x.item) (climb_right-IsNext (node l x leaf) p)
      go l x (node a y b) p =
          subst
            (λ xs.
              IsNext (plug (node l x (node a y b)) p) xs (to_list (node a y b) ++ after p)
                (some (go_left a y b (went_right l x ∷ p))))
            (regroup (before p) (to_list l) x.item) (go_left-IsNext a y b (went_right l x ∷ p))

  -- `rbt_iter_prev` is the place of the item before in the same tree, or NULL at the first item.
  pub iter_prev-IsPrev :
      (n : Place A) → IsPrev (tree_of n) (earlier n) (n.at.item ∷ later n) (iter_prev n)
  unfolding iter_prev plug
  iter_prev-IsPrev n = go n.lower n.at n.upper n.up
    where
      go :
          (l : Tree A) (x : Node A) (r : Tree A) (p : Ancestors A)
          → IsPrev
              (plug (node l x r) p)
              (before p ++ to_list l)
              (x.item ∷ (to_list r ++ after p))
              (iter_prev (place l x r p))
      go leaf x r p =
          subst
            (λ xs.
              IsPrev (plug (node leaf x r) p) xs (x.item ∷ (to_list r ++ after p))
                (climb_left (node leaf x r) p))
            (sym (append-nil (before p))) (climb_left-IsPrev (node leaf x r) p)
      go (node a y b) x r p = go_right-IsPrev a y b (went_left x r ∷ p)

  -- the loop of a client: the items from a place on, in at most `k` rounds
  pub walk : ℕ → Option (Place A) → List A
  walk zero o = []
  walk (suc k) none = []
  walk (suc k) (some n) = n.at.item ∷ walk k (iter_next n)

  walk-later :
      (k : ℕ) (t : Tree A) (xs ys : List A) (o : Option (Place A))
      → IsNext t xs ys o
      → length ys ≤ k
      → walk k o ≡ ys
  unfolding walk
  walk-later zero t xs [] o h le = refl
  walk-later zero t xs (y ∷ ys) o h le = absurd (omega arith)
  walk-later (suc k) t xs ys none h le = sym h
  walk-later (suc k) t xs ys (some n) (same, front, back) le =
      ap (λ zs. n.at.item ∷ zs)
        (walk-later k (tree_of n) (earlier n ++ (n.at.item ∷ [])) (later n) (iter_next n)
          (iter_next-IsNext n) (omega (arith, ap length back)))
      ∙ sym back

  -- Stepping from `rbt_iter_first` by `rbt_iter_next` meets each item once, in order, and ends.
  pub walk-to_list :
      (t : Tree A) (k : ℕ) → length (to_list t) ≤ k → walk k (iter_first t) ≡ to_list t
  walk-to_list t k le = walk-later k t [] (to_list t) (iter_first t) (iter_first-IsNext t) le

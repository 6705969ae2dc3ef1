-- ===== src/Rbt/Insert/Laws.antt =====
-- `rbt_find` and `rbt_insert` are search and insertion in the sorted list of the tree's items, and
-- `rbt_insert` keeps the tree red-black.
use libdlb.Base.{
  inr, true, append-nil, subst, ◌≡◌, refl, ap, ◌∙◌, sym, false, ◌&&◌, inl, Option, List, [], ◌∷◌,
  ◌++◌, append_assoc, done, Outcome,
}
use libdlb.Rbt.{
  Sign, neg, zer, pos, Node, Tree, leaf, node, went_left, went_right, Ancestors, mark_modified,
  plug, find, is_red,
}
use libdlb.Rbt.Shape.{
  to_list, before, after, to_list-plug, black_height, IsBalanced, red_above, Fits, IsRedBlack,
  plug-IsRedBlack, Fits-node, red_first, red_second,
}
use libdlb.Rbt.Order.{
  Sign-cases, AllAre, Seeks, lookup, insert as insert_list, AllAre-append, Seeks-before, Seeks-from,
  AllAre-pos, lookup-pos, lookup-neg, insert-vacant, insert-occupied,
}
use libdlb.Rbt.Insert.{Place, vacant, occupied, descend, insert_at, insert}
use libdlb.Rbt.Insert.Repair.{repair-Repaired}

module _ {A : Type 0} (s : A → Sign) where
  -- `rbt_find` returns the item of the tree that has the key, if there is one.
  pub find-lookup : (t : Tree A) → Seeks s (to_list t) → find s t ≡ lookup s (to_list t)
  unfolding find
  find-lookup leaf h = refl
  find-lookup (node l x r) h =
      let above = Seeks-from s (to_list l) (x.item ∷ to_list r) h in
      elim (Sign-cases (s x.item)) [
        | inl e ↦
            rw (e, find)
              (find-lookup l (Seeks-before s (to_list l) x.item (to_list r) h)
                ∙ sym (lookup-neg s (to_list l) (x.item ∷ to_list r) (e, above.0 (λ p. cc))))
        | inr (inl e) ↦
            rw
              (
                e,
                find,
                lookup-pos s (to_list l) (x.item ∷ to_list r)
                    (AllAre-pos s (to_list l) x.item (to_list r) h (λ p. cc)),
              )
              (rw (e, lookup))
        | inr (inr e) ↦
            rw
              (
                e,
                find,
                lookup-pos s (to_list l) (x.item ∷ to_list r)
                    (AllAre-pos s (to_list l) x.item (to_list r) h (λ p. cc)),
              )
              (rw (e, lookup) (find-lookup r above.1))
      ]

  -- What holds where the descent ends: the items before the place come before the key, those behind
  -- it follow, and the way down is that of a red-black tree with the items `xs`.
  abbrev Placed : List A → Place A → Type 0
  Placed xs (vacant p) =
      (xs ≡ before p ++ after p) × AllAre s pos (before p) × AllAre s neg (after p) × Fits 0 p
  Placed xs (occupied l x r p) =
      (xs ≡ before p ++ (to_list (node l x r) ++ after p))
      × AllAre s pos (before p ++ to_list l)
      × (s x.item ≡ zer)
      × IsBalanced (node l x r)
      × ((x.red && red_above p) ≡ false)
      × Fits (black_height (node l x r)) p

  descend-Placed :
      (t : Tree A) (p : Ancestors A)
      → Seeks s (to_list t)
      → AllAre s pos (before p)
      → AllAre s neg (after p)
      → IsBalanced t
      → (is_red t && red_above p) ≡ false
      → Fits (black_height t) p
      → Placed (before p ++ (to_list t ++ after p)) (descend s t p)
  unfolding descend
  descend-Placed leaf p h b a bal c fit = (refl, b, a, fit)
  descend-Placed (node l x r) p h b a bal c fit =
      let above = Seeks-from s (to_list l) (x.item ∷ to_list r) h in
      let below = Seeks-before s (to_list l) x.item (to_list r) h in
      let (fit_l, fit_r) = Fits-node l x r p bal c fit in
      elim (Sign-cases (s x.item)) [
        | inl e ↦
            rw (e, descend)
              (subst (λ xs. Placed xs (descend s l (went_left (mark_modified x) r ∷ p)))
                (simp append_assoc)
                (descend-Placed l (went_left (mark_modified x) r ∷ p) below b
                  (e, AllAre-append s neg (to_list r) (after p) (above.0 (λ q. cc)) a) bal.2
                  (red_first x.red (is_red l) (is_red r) bal.1) fit_l))
        | inr (inl e) ↦
            rw (e, descend)
              (
                refl,
                AllAre-append s pos (before p) (to_list l) b
                    (AllAre-pos s (to_list l) x.item (to_list r) h (λ q. cc)),
                e,
                bal,
                c,
                fit,
              )
        | inr (inr e) ↦
            rw (e, descend)
              (subst (λ xs. Placed xs (descend s r (went_right l (mark_modified x) ∷ p)))
                (simp append_assoc)
                (descend-Placed r (went_right l (mark_modified x) ∷ p) above.1
                  (AllAre-append s pos (before p) (to_list l ++ (x.item ∷ [])) b (
                    AllAre-append s pos (to_list l) (x.item ∷ [])
                      (AllAre-pos s (to_list l) x.item (to_list r) h (λ q. cc)) (e, tt)))
                  a bal.3 (red_second x.red (is_red l) (is_red r) bal.1) fit_r))
      ]

  -- What `rbt_insert` leaves: a red-black tree of the items with `item` at its place.
  abbrev Inserted : A → List A → Outcome (Tree A × Option A) → Type 0
  Inserted item xs out =
      (t : Tree A) × (out ≡ done (t, lookup s xs))
      × IsRedBlack t
      × (to_list t ≡ insert_list s item xs)

  vacant-Inserted :
      (item : A) (xs : List A) (p : Ancestors A)
      → Placed xs (vacant p)
      → Inserted item xs (insert_at item (vacant p))
  vacant-Inserted item xs p (e, b, a, fit) =
      let new : Tree A = node leaf (record { red = true; modified = true; item = item }) leaf in
      let (t, runs, sound, order) = repair-Repaired new p refl (refl, refl, tt, tt) fit in
      (
        t,
        rw (runs, e, lookup-pos s (before p) (after p) b, lookup-neg s [] (after p) a),
        sound,
        order ∙ (to_list-plug new p ∙ rw e (sym (insert-vacant s item (before p) (after p) b a))),
      )

  occupied-Inserted :
      (item : A) (xs : List A) (l : Tree A) (x : Node A) (r : Tree A) (p : Ancestors A)
      → Placed xs (occupied l x r p)
      → Inserted item xs (insert_at item (occupied l x r p))
  occupied-Inserted item xs l x r p (e, b, z, bal, c, fit) =
      let new : Tree A = node l (record x { item = item }) r in
      let split : xs ≡ (before p ++ to_list l) ++ (x.item ∷ (to_list r ++ after p)) =
        e ∙ (simp append_assoc) in
      let shape : to_list (plug new p)
          ≡ (before p ++ to_list l) ++ (item ∷ (to_list r ++ after p)) =
        to_list-plug new p ∙ (simp append_assoc) in
      (
        plug new p,
        ap (λ o. done (plug new p, o))
            (sym (
              rw split (
                lookup-pos s (before p ++ to_list l) (x.item ∷ (to_list r ++ after p)) b
                ∙ rw (z, lookup)))),
        plug-IsRedBlack new p bal c fit,
        shape
            ∙ rw split (
                sym (
                  insert-occupied s item (before p ++ to_list l) x.item (to_list r ++ after p) b
                    z)),
      )

  insert_at-Inserted :
      (item : A) (xs : List A) (place : Place A)
      → Placed xs place
      → Inserted item xs (insert_at item place)
  insert_at-Inserted item xs (vacant p) h = vacant-Inserted item xs p h
  insert_at-Inserted item xs (occupied l x r p) h = occupied-Inserted item xs l x r p h

  -- `rbt_insert` on a red-black tree whose items are in the order of its keys does not fault. It
  -- leaves a red-black tree of the items in order, with the new one at its place, and returns the
  -- item that had the key before, if there was one.
  pub insert_refines :
      (item : A) (t : Tree A)
      → IsRedBlack t
      → Seeks s (to_list t)
      → (t' : Tree A) × (insert s item t ≡ done (t', lookup s (to_list t)))
        × IsRedBlack t'
        × (to_list t' ≡ insert_list s item (to_list t))
  unfolding insert
  insert_refines item t (b, c) h = insert_at-Inserted item (to_list t) (descend s t []) (
      subst (λ xs. Placed xs (descend s t [])) (append-nil (to_list t))
        (descend-Placed t [] h tt tt b (ap (λ r. r && true) c) tt))

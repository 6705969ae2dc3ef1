-- ===== src/Waitq/Order.antt =====
-- The timers of a queue in the order in which they expire.
use libdlb.Base.{◌≡◌, refl, ap, inl, inr, Option, none, some, List, [], ◌∷◌, ◌++◌, arith}
use libdlb.Rbt.{Sign, neg, zer, pos, Tree, leaf, node, Ancestors, went_left, went_right, plug, find}
use libdlb.Rbt.Shape.{to_list, IsRedBlack}
use libdlb.Rbt.Order.{Sign-cases, AllAre}
use libdlb.Rbt.Keys.{IsComparison, IsSorted}
use libdlb.Rbt.Iter.{Place}
use libdlb.Rbt.Iter.Steps.{tree_of}
use libdlb.Waitq.{Timer, Waitq, cmp_by_deadline, find_node}

module _ {A : Type 0} (s : A → Sign) where
  -- the list without the item that has the key
  abbrev pub erase : List A → List A
  erase [] = []
  erase (x ∷ xs) = elim (s x) [ zer ↦ xs | neg ↦ x ∷ xs | pos ↦ x ∷ erase xs ]

  pub erase_found :
      (xs : List A) (x : A) (ys : List A)
      → AllAre s pos xs
      → s x ≡ zer
      → erase (xs ++ (x ∷ ys)) ≡ xs ++ ys
  erase_found [] x ys h e = rw e
  erase_found (y ∷ xs) x ys h e = rw h.0 (ap (λ t. y ∷ t) (erase_found xs x ys h.1 e))

  AllAre-erase : (c : A → Sign) (v : Sign) (xs : List A) → AllAre c v xs → AllAre c v (erase xs)
  AllAre-erase c v [] h = tt
  AllAre-erase c v (x ∷ xs) h = elim (Sign-cases (s x)) [
    | inl e ↦ rw (e, erase) h
    | inr (inl e) ↦ rw (e, erase) h.1
    | inr (inr e) ↦ rw (e, erase) (h.0, AllAre-erase c v xs h.1)
  ]

  pub erase-IsSorted :
      {K : Type 0} (compare : K → A → Sign) (key : A → K) (xs : List A)
      → IsSorted compare key xs
      → IsSorted compare key (erase xs)
  erase-IsSorted compare key [] h = tt
  erase-IsSorted compare key (x ∷ xs) h = elim (Sign-cases (s x)) [
    | inl e ↦ rw (e, erase) h
    | inr (inl e) ↦ rw (e, erase) h.1
    | inr (inr e) ↦
        rw (e, erase) (AllAre-erase (compare (key x)) neg xs h.0, erase-IsSorted compare key xs h.1)
  ]

module _ {F : Type 0} where
  abbrev pub own : Timer F → Timer F
  own t = t

  pub by_deadline : IsComparison cmp_by_deadline own
  by_deadline = record {
    flip = λ a b h. ground arith;
    seek_neg = λ k a b h g. ground arith;
    seek_zer = λ k a b h g. ground arith;
    same = λ k a b h. equal k a b h;
  }
    where
      equal :
          (k a b : Timer F) → cmp_by_deadline a b ≡ zer → cmp_by_deadline k a ≡ cmp_by_deadline k b
      equal k a b h =
          let d : a.deadline ≡ b.deadline = ground (arith, h) in
          let e : a.address ≡ b.address = ground (arith, h) in rw (d, e) refl

  pub cmp_self : (t : Timer F) → cmp_by_deadline t t ≡ zer
  cmp_self t = ground arith

  -- the timers of a queue, the first to expire first
  abbrev pub timers : Waitq F → List (Timer F)
  timers q = to_list q.waiting_set

  -- what every operation keeps
  abbrev pub IsValid : Waitq F → Type 0
  IsValid q = IsRedBlack q.waiting_set × IsSorted cmp_by_deadline own (timers q)

  -- What `rbt_find` returns from a tree in which it finds `found`: NULL, or the node of that item.
  abbrev pub Located :
      (Timer F → Sign) → Option (Timer F) → Tree (Timer F) → Option (Place (Timer F)) → Type 0
  Located s found t none = found ≡ none
  Located s found t (some n) = (tree_of n ≡ t) × (found ≡ some n.at.item) × (s n.at.item ≡ zer)

  pub find_node-Located :
      (s : Timer F → Sign) (t : Tree (Timer F)) (p : Ancestors (Timer F))
      → Located s (find s t) (plug t p) (find_node s t p)
  unfolding find_node find plug
  find_node-Located s leaf p = refl
  find_node-Located s (node l x r) p = elim (Sign-cases (s x.item)) [
    | inl e ↦ rw (e, find_node, find) (find_node-Located s l (went_left x r ∷ p))
    | inr (inl e) ↦ rw (e, find_node, find) (refl, refl, e)
    | inr (inr e) ↦ rw (e, find_node, find) (find_node-Located s r (went_right l x ∷ p))
  ]

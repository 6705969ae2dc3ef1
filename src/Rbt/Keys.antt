-- ===== src/Rbt/Keys.antt =====
-- What a client relies on: with a lawful comparison, a tree built by `rbt_insert` stays sorted, and
-- `rbt_find` sees each insertion at its own key and no other.
use libdlb.Base.{
  ◌≡◌, ◌≢◌, refl, ap, ◌∙◌, sym, subst, Option, none, some, List, [], ◌∷◌, arith, done, inl, inr,
}
use libdlb.Rbt.{Sign, neg, zer, pos, Tree, find}
use libdlb.Rbt.Shape.{to_list, IsRedBlack}
use libdlb.Rbt.Order.{AllAre, Seeks, Sign-cases, lookup, insert as insert_list}
use libdlb.Rbt.Insert.{insert}
use libdlb.Rbt.Insert.Laws.{find-lookup, insert_refines}

-- `item` at a key that compares equal to it, and what `o` says at others
abbrev pub or_else {ℓ} : {A : Type ℓ} → Sign → A → Option A → Option A
or_else zer item o = some item
or_else _ item o = o

-- What `rbt_compare_t` has to be: `compare k b` is the comparison of the key `k` with the item `b`.
pub record IsComparison {K A : Type 0} (compare : K → A → Sign) (key : A → K) : Type 0 where
  pub flip : (a b : A) → compare (key a) b ≡ pos → compare (key b) a ≡ neg
  pub seek_neg : (k : K) (a b : A) → compare (key a) b ≡ neg → compare k a ≡ neg → compare k b ≡ neg
  pub seek_zer : (k : K) (a b : A) → compare (key a) b ≡ neg → compare k a ≡ zer → compare k b ≡ neg
  pub same : (k : K) (a b : A) → compare (key a) b ≡ zer → compare k a ≡ compare k b

module _ {K A : Type 0} (compare : K → A → Sign) (key : A → K) where
  -- Each item stands before all those that follow.
  abbrev pub IsSorted : List A → Type 0
  IsSorted [] = Unit
  IsSorted (x ∷ xs) = AllAre (compare (key x)) neg xs × IsSorted xs

module _ {K A : Type 0} (compare : K → A → Sign) (key : A → K)
    (law : IsComparison compare key) where
  AllAre-of_le :
      (k : K) (x : A) (xs : List A)
      → compare k x ≢ pos
      → AllAre (compare (key x)) neg xs
      → AllAre (compare k) neg xs
  AllAre-of_le k x [] ne h = tt
  AllAre-of_le k x (y ∷ xs) ne h = (first, AllAre-of_le k x xs ne h.1)
    where
      first : compare k y ≡ neg
      first = elim (Sign-cases (compare k x)) [
        | inl e ↦ law.seek_neg k x y h.0 e
        | inr (inl e) ↦ law.seek_zer k x y h.0 e
        | inr (inr e) ↦ absurd (ne e)
      ]

  pub Seeks-of_IsSorted : (k : K) (xs : List A) → IsSorted compare key xs → Seeks (compare k) xs
  Seeks-of_IsSorted k [] h = tt
  Seeks-of_IsSorted k (x ∷ xs) h = (λ ne. AllAre-of_le k x xs ne h.0, Seeks-of_IsSorted k xs h.1)

  AllAre-insert_list :
      (y item : A) (xs : List A)
      → compare (key y) item ≡ neg
      → AllAre (compare (key y)) neg xs
      → AllAre (compare (key y)) neg (insert_list (compare (key item)) item xs)
  AllAre-insert_list y item [] e h = (e, tt)
  AllAre-insert_list y item (x ∷ xs) e h = elim (Sign-cases (compare (key item) x)) [
    | inl f ↦ rw (f, insert_list) (e, h)
    | inr (inl f) ↦ rw (f, insert_list) (e, h.1)
    | inr (inr f) ↦ rw (f, insert_list) (h.0, AllAre-insert_list y item xs e h.1)
  ]

  pub insert_list-IsSorted :
      (item : A) (xs : List A)
      → IsSorted compare key xs
      → IsSorted compare key (insert_list (compare (key item)) item xs)
  insert_list-IsSorted item [] h = (tt, tt)
  insert_list-IsSorted item (x ∷ xs) h = elim (Sign-cases (compare (key item) x)) [
    | inl f ↦ rw (f, insert_list) ((f, AllAre-of_le (key item) x xs (λ p. cc) h.0), h)
    | inr (inl f) ↦ rw (f, insert_list) (AllAre-of_le (key item) x xs (λ p. cc) h.0, h.1)
    | inr (inr f) ↦
        rw (f, insert_list)
          (AllAre-insert_list x item xs (law.flip item x f) h.0, insert_list-IsSorted item xs h.1)
  ]

  lookup_of_neg : (k : K) (xs : List A) → AllAre (compare k) neg xs → lookup (compare k) xs ≡ none
  lookup_of_neg k [] h = refl
  lookup_of_neg k (x ∷ xs) h = rw (h.0, lookup)

  -- search after insertion, in lists
  pub lookup-insert_list :
      (k : K) (item : A) (xs : List A)
      → IsSorted compare key xs
      → lookup (compare k) (insert_list (compare (key item)) item xs)
        ≡ or_else (compare k item) item (lookup (compare k) xs)
  lookup-insert_list k item [] h = ground arith
  lookup-insert_list k item (x ∷ xs) h = elim (Sign-cases (compare (key item) x)) [
    | inl f ↦ ground (arith, law.seek_neg k item x f)
    | inr (inl f) ↦ ground (arith, law.same k item x f)
    | inr (inr f) ↦ ground (
      arith,
      law.flip item x f,
      law.seek_neg k x item,
      law.seek_zer k x item,
      lookup-insert_list k item xs h.1,
    )
  ]

  -- `rbt_insert` keeps a sorted red-black tree so, and `rbt_find` then finds the new item at each key
  -- that compares equal to it, and at every other key what it found before.
  pub find-insert :
      (item : A) (t : Tree A)
      → IsRedBlack t
      → IsSorted compare key (to_list t)
      → (t' : Tree A) × (insert (compare (key item)) item t
          ≡ done (t', find (compare (key item)) t))
        × IsRedBlack t'
        × IsSorted compare key (to_list t')
        × ((k : K) → find (compare k) t' ≡ or_else (compare k item) item (find (compare k) t))
  find-insert item t rb h =
      let (t', runs, rb', order) =
        insert_refines (compare (key item)) item t rb
          (Seeks-of_IsSorted (key item) (to_list t) h) in
      let sorted : IsSorted compare key (to_list t') =
        subst (IsSorted compare key) (sym order) (insert_list-IsSorted item (to_list t) h) in
      let at = λ (k : K). find-lookup (compare k) t (Seeks-of_IsSorted k (to_list t) h) in
      (
        t',
        runs ∙ ap (λ o. done (t', o)) (sym (at (key item))),
        rb',
        sorted,
        λ k.
            find-lookup (compare k) t' (Seeks-of_IsSorted k (to_list t') sorted)
            ∙ (ap (lookup (compare k)) order
                ∙ (lookup-insert_list k item (to_list t) h
                    ∙ ap (or_else (compare k item) item) (sym (at k)))),
      )

-- ===== src/Rbt/Order.antt =====
-- Search in a sorted list: what the tree's operations mean for the items in order.
-- `s` says of each item how the key that is sought compares to it: `pos` before the key's place,
-- `neg` behind it.
use libdlb.Base.{◌≡◌, ◌≢◌, ◌⊎◌, inl, inr, refl, ap, Option, none, some, List, [], ◌∷◌, ◌++◌, arith}
use libdlb.Rbt.{Sign, neg, zer, pos}

pub Sign-cases : (v : Sign) → (v ≡ neg) ⊎ ((v ≡ zer) ⊎ (v ≡ pos))
Sign-cases neg = inl refl
Sign-cases zer = inr (inl refl)
Sign-cases pos = inr (inr refl)

module _ {A : Type 0} (s : A → Sign) where
  abbrev pub AllAre : Sign → List A → Type 0
  AllAre v [] = Unit
  AllAre v (x ∷ xs) = (s x ≡ v) × AllAre v xs

  -- The items before the key's place come first, at most one has the key, and the others follow.
  abbrev pub Seeks : List A → Type 0
  Seeks [] = Unit
  Seeks (x ∷ xs) = (s x ≢ pos → AllAre neg xs) × Seeks xs

  -- the item with the key
  abbrev pub lookup : List A → Option A
  lookup [] = none
  lookup (x ∷ xs) = elim (s x) [ zer ↦ some x | neg ↦ none | pos ↦ lookup xs ]

  -- the list with `item` at the key's place, instead of an item with the key
  abbrev pub insert : A → List A → List A
  insert item [] = item ∷ []
  insert item (x ∷ xs) = elim (s x) [
    | zer ↦ item ∷ xs
    | neg ↦ item ∷ (x ∷ xs)
    | pos ↦ x ∷ insert item xs
  ]

module _ {A : Type 0} (s : A → Sign) where
  pub AllAre-append :
      (v : Sign) (xs ys : List A) → AllAre s v xs → AllAre s v ys → AllAre s v (xs ++ ys)
  AllAre-append v [] ys h k = k
  AllAre-append v (x ∷ xs) ys h k = (h.0, AllAre-append v xs ys h.1 k)

  pub AllAre-of_append :
      (v : Sign) (xs ys : List A) → AllAre s v (xs ++ ys) → AllAre s v xs × AllAre s v ys
  AllAre-of_append v [] ys h = (tt, h)
  AllAre-of_append v (x ∷ xs) ys h = let (a, b) = AllAre-of_append v xs ys h.1 in ((h.0, a), b)

  -- What an item in the middle of the list says of the items before it and behind it.
  pub Seeks-before : (xs : List A) (x : A) (ys : List A) → Seeks s (xs ++ (x ∷ ys)) → Seeks s xs
  Seeks-before [] x ys h = tt
  Seeks-before (y ∷ xs) x ys h =
      (λ ne. (AllAre-of_append neg xs (x ∷ ys) (h.0 ne)).0, Seeks-before xs x ys h.1)

  pub Seeks-from : (xs ys : List A) → Seeks s (xs ++ ys) → Seeks s ys
  Seeks-from [] ys h = h
  Seeks-from (y ∷ xs) ys h = Seeks-from xs ys h.1

  pub AllAre-pos :
      (xs : List A) (x : A) (ys : List A) → Seeks s (xs ++ (x ∷ ys)) → s x ≢ neg → AllAre s pos xs
  AllAre-pos [] x ys h ne = tt
  AllAre-pos (y ∷ xs) x ys h ne = (first, AllAre-pos xs x ys h.1 ne)
    where
      clash : s y ≢ pos → ⊥
      clash np = ne ((AllAre-of_append neg xs (x ∷ ys) (h.0 np)).1.0)

      first : s y ≡ pos
      first = ground (arith, clash)

  pub lookup-pos : (xs ys : List A) → AllAre s pos xs → lookup s (xs ++ ys) ≡ lookup s ys
  lookup-pos [] ys h = refl
  lookup-pos (x ∷ xs) ys h = rw h.0 (lookup-pos xs ys h.1)

  pub lookup-neg : (xs ys : List A) → AllAre s neg ys → lookup s (xs ++ ys) ≡ lookup s xs
  lookup-neg [] [] h = refl
  lookup-neg [] (y ∷ ys) h = rw h.0
  lookup-neg (x ∷ xs) ys h = ground (arith, lookup-neg xs ys h)

  pub insert-vacant :
      (item : A) (xs ys : List A)
      → AllAre s pos xs
      → AllAre s neg ys
      → insert s item (xs ++ ys) ≡ xs ++ (item ∷ ys)
  insert-vacant item [] [] h k = refl
  insert-vacant item [] (y ∷ ys) h k = rw k.0
  insert-vacant item (x ∷ xs) ys h k = rw h.0 (ap (λ t. x ∷ t) (insert-vacant item xs ys h.1 k))

  pub insert-occupied :
      (item : A) (xs : List A) (x : A) (ys : List A)
      → AllAre s pos xs
      → s x ≡ zer
      → insert s item (xs ++ (x ∷ ys)) ≡ xs ++ (item ∷ ys)
  insert-occupied item [] x ys h e = rw e
  insert-occupied item (y ∷ xs) x ys h e =
      rw h.0 (ap (λ t. y ∷ t) (insert-occupied item xs x ys h.1 e))

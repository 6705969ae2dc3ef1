-- ===== src/Hash/Matches.antt =====
-- The nodes of a list that match a key, and the others.
use mathlib.Core.List.{Permᴰ}
use mathlib.Core.List.Permᴰ
use libdlb.Base.{
  ℕ, ◌+◌, ◌≤◌, ◌≡◌, refl, ap, ap₂, ◌∙◌, subst, inl, inr, Bool, true, false, Bool-cases, Option,
  none, some, List, [], ◌∷◌, ◌++◌, if◌then◌else◌, arith,
}
use libdlb.Hash.{Node, find_chain}

module _ {K A : Type 0} (matches : K → A → Bool) where
  abbrev pub count : K → List (Node A) → ℕ
  count k [] = 0
  count k (n ∷ ns) = (if matches k n.item then 1 else 0) + count k ns

  -- the nodes that do not match
  abbrev pub others : K → List (Node A) → List (Node A)
  others k [] = []
  others k (n ∷ ns) = if matches k n.item then others k ns else n ∷ others k ns

  pub count-append : (k : K) (xs ys : List (Node A)) → count k (xs ++ ys) ≡ count k xs + count k ys
  count-append k [] ys = omega arith
  count-append k (x ∷ xs) ys = omega (arith, count-append k xs ys)

  pub count-perm : (k : K) {xs ys : List (Node A)} → Permᴰ xs ys → count k xs ≡ count k ys
  count-perm k Permᴰ.nil = refl
  count-perm k (Permᴰ.cons e d) =
      ap₂ (λ (n : Node A) (m : ℕ). (if matches k n.item then 1 else 0) + m) e (count-perm k d)
  count-perm k (Permᴰ.swap {a} {b} {a'} {b'} {l} e₁ e₂) =
      ap₂
        (λ (n m : Node A).
          (if matches k n.item then 1 else 0) + ((if matches k m.item then 1 else 0) + count k l))
        e₁ e₂
      ∙ omega arith
  count-perm k (Permᴰ.trans d₁ d₂) = count-perm k d₁ ∙ count-perm k d₂

  pub find-none : (k : K) (xs : List (Node A)) → count k xs ≡ 0 → find_chain matches k xs ≡ none
  unfolding find_chain
  find-none k [] h = refl
  find-none k (n ∷ ns) h = elim (Bool-cases (matches k n.item)) [
    | inl hit ↦ absurd (ground (arith, h, hit))
    | inr miss ↦ rw miss (find-none k ns (ground (arith, h, miss)))
  ]

  pub find-append_left :
      (k : K) (xs ys : List (Node A))
      → count k ys ≡ 0
      → find_chain matches k (xs ++ ys) ≡ find_chain matches k xs
  unfolding find_chain
  find-append_left k [] ys h = find-none k ys h
  find-append_left k (x ∷ xs) ys h =
      ap (λ o. if matches k x.item then some x else o) (find-append_left k xs ys h)

  pub find-append_right :
      (k : K) (xs ys : List (Node A))
      → count k xs ≡ 0
      → find_chain matches k (xs ++ ys) ≡ find_chain matches k ys
  unfolding find_chain
  find-append_right k [] ys h = refl
  find-append_right k (x ∷ xs) ys h = elim (Bool-cases (matches k x.item)) [
    | inl hit ↦ absurd (ground (arith, h, hit))
    | inr miss ↦ rw miss (find-append_right k xs ys (ground (arith, h, miss)))
  ]

  pub others_self : (k : K) (xs : List (Node A)) → count k xs ≡ 0 → others k xs ≡ xs
  others_self k [] h = refl
  others_self k (n ∷ ns) h = elim (Bool-cases (matches k n.item)) [
    | inl hit ↦ absurd (ground (arith, h, hit))
    | inr miss ↦ rw miss (ap (λ t. n ∷ t) (others_self k ns (ground (arith, h, miss))))
  ]

  pub others-append :
      (k : K) (xs ys : List (Node A)) → others k (xs ++ ys) ≡ others k xs ++ others k ys
  others-append k [] ys = refl
  others-append k (x ∷ xs) ys = elim (Bool-cases (matches k x.item)) [
    | inl hit ↦ rw hit (others-append k xs ys)
    | inr miss ↦ rw miss (ap (λ t. x ∷ t) (others-append k xs ys))
  ]

  others-cons_perm :
      (k : K) (n : Node A) (xs ys : List (Node A))
      → Permᴰ (others k xs) (others k ys)
      → Permᴰ (others k (n ∷ xs)) (others k (n ∷ ys))
  others-cons_perm k n xs ys p = elim (Bool-cases (matches k n.item)) [
    | inl hit ↦ rw hit p
    | inr miss ↦ rw miss (Permᴰ.cons refl p)
  ]

  others_swap :
      (k : K) (a b : Node A) (l : List (Node A))
      → Permᴰ (others k (a ∷ b ∷ l)) (others k (b ∷ a ∷ l))
  others_swap k a b l = go (matches k a.item) (matches k b.item)
    where
      go :
          (x y : Bool)
          → Permᴰ
              (if x
                then (if y then others k l else b ∷ others k l)
                else a ∷ (if y then others k l else b ∷ others k l))
              (if y
                then (if x then others k l else a ∷ others k l)
                else b ∷ (if x then others k l else a ∷ others k l))
      go true true = Permᴰ.refl _
      go true false = Permᴰ.refl _
      go false true = Permᴰ.refl _
      go false false = Permᴰ.swap refl refl

  pub others-perm :
      (k : K) {xs ys : List (Node A)} → Permᴰ xs ys → Permᴰ (others k xs) (others k ys)
  others-perm k Permᴰ.nil = Permᴰ.nil
  others-perm k (Permᴰ.cons {a} {b} {l₁} {l₂} e d) =
      subst (λ n. Permᴰ (others k (a ∷ l₁)) (others k (n ∷ l₂))) e
        (others-cons_perm k a l₁ l₂ (others-perm k d))
  others-perm k (Permᴰ.swap {a} {b} {a'} {b'} {l} e₁ e₂) =
      subst (λ n. Permᴰ (others k (a ∷ b ∷ l)) (others k (a' ∷ n ∷ l))) e₁
        (subst (λ n. Permᴰ (others k (a ∷ b ∷ l)) (others k (n ∷ a ∷ l))) e₂ (others_swap k a b l))
  others-perm k (Permᴰ.trans d₁ d₂) = Permᴰ.trans (others-perm k d₁) (others-perm k d₂)

  pub count-others-le : (k l : K) (xs : List (Node A)) → count l (others k xs) ≤ count l xs
  count-others-le k l [] = omega arith
  count-others-le k l (x ∷ xs) = ground (arith, count-others-le k l xs)

  -- A key that matches what `k` does matches none of the others.
  pub count-others_same :
      (k l : K) (xs : List (Node A))
      → ((a : A) → matches l a ≡ matches k a)
      → count l (others k xs) ≡ 0
  count-others_same k l [] h = refl
  count-others_same k l (x ∷ xs) h = elim (Bool-cases (matches k x.item)) [
    | inl hit ↦ rw hit (count-others_same k l xs h)
    | inr miss ↦ rw (miss, h x.item, miss) (omega (arith, count-others_same k l xs h))
  ]

  -- A key that matches nothing that `k` matches finds the same among the others.
  pub find-others :
      (k l : K) (xs : List (Node A))
      → ((a : A) → matches l a ≡ true → matches k a ≡ false)
      → find_chain matches l (others k xs) ≡ find_chain matches l xs
  unfolding find_chain
  find-others k l [] h = refl
  find-others k l (x ∷ xs) h = elim (Bool-cases (matches k x.item)) [
    | inl hit ↦
        let miss : matches l x.item ≡ false = ground (arith, h x.item, hit) in
        rw (hit, miss) (find-others k l xs h)
    | inr miss ↦ rw miss (ap (λ o. if matches l x.item then some x else o) (find-others k l xs h))
  ]

  -- With one match at most, a search does not depend on the order.
  pub find-perm :
      (k : K) {xs ys : List (Node A)}
      → Permᴰ xs ys
      → count k xs ≤ 1
      → find_chain matches k xs ≡ find_chain matches k ys
  unfolding find_chain
  find-perm k Permᴰ.nil h = refl
  find-perm k (Permᴰ.cons {a} {l₁} e d) h =
      ap₂ (λ (n : Node A) (o : Option (Node A)). if matches k n.item then some n else o) e
        (find-perm k d (rest (matches k a.item) (count k l₁) h))
    where
      rest : (x : Bool) (m : ℕ) → (if x then 1 else 0) + m ≤ 1 → m ≤ 1
      rest true m h = omega (arith, h)
      rest false m h = omega (arith, h)
  find-perm k (Permᴰ.swap {a} {b} {l} e₁ e₂) h =
      exchange (matches k a.item) (matches k b.item) (find_chain matches k l) (count k l) h
      ∙ ap₂
          (λ (n m : Node A).
            if matches k m.item
            then some m
            else if matches k n.item
            then some n
            else find_chain matches k l)
          e₁ e₂
    where
      exchange :
          (x y : Bool) (o : Option (Node A)) (m : ℕ)
          → (if x then 1 else 0) + ((if y then 1 else 0) + m) ≤ 1
          → (if x then some a else if y then some b else o)
            ≡ (if y then some b else if x then some a else o)
      exchange true true o m h = absurd (omega (arith, h))
      exchange true false o m h = refl
      exchange false true o m h = refl
      exchange false false o m h = refl
  find-perm k (Permᴰ.trans d₁ d₂) h =
      find-perm k d₁ h ∙ find-perm k d₂ (omega (arith, h, count-perm k d₁))

-- ===== src/Hash/Entries.antt =====
-- The nodes of a table, in whatever order.
use mathlib.Core.List.{flatten, Permᴰ}
use mathlib.Core.List.Permᴰ
use libdlb.Base.{
  ℕ, zero, suc, ◌%◌, ◌<◌, ◌≡◌, refl, ap, sym, subst, List, [], ◌∷◌, ◌++◌, append_assoc, length,
  get_or, set, replicate, arith,
}
pub use libdlb.Base.Perm.{All, All-append, All-of_append, All-perm, length-perm}
use libdlb.Hash.{Node, Chain, Hash}

module _ {A : Type 0} where
  -- one list taken out of its place in front of another
  pub perm_exchange : (xs ys zs : List A) → Permᴰ (xs ++ (ys ++ zs)) (ys ++ (xs ++ zs))
  perm_exchange xs ys zs =
      subst (λ l. Permᴰ l (ys ++ (xs ++ zs))) (append_assoc xs ys zs)
        (subst (λ l. Permᴰ ((xs ++ ys) ++ zs) l) (append_assoc ys xs zs)
          (Permᴰ.append_right zs (Permᴰ.append_comm xs ys)))

module _ {A : Type 0} where
  abbrev pub entries : Hash A → List (Node A)
  entries h = flatten h.table

  abbrev pub InBucket : ℕ → ℕ → Node A → Type 0
  InBucket size i n = n.code % size ≡ i

  -- each node stands in the bucket of its code
  abbrev pub IsPlaced : ℕ → List (Chain A) → Type 0
  IsPlaced size t = (i : ℕ) → All (InBucket size i) (get_or t i [])

  pub length-set : (t : List (Chain A)) (i : ℕ) (c : Chain A) → length (set t i c) ≡ length t
  length-set [] i c = refl
  length-set (x ∷ t) zero c = refl
  length-set (x ∷ t) (suc i) c = ap suc (length-set t i c)

  pub IsPlaced-set :
      (size : ℕ) (t : List (Chain A)) (i : ℕ) (c : Chain A)
      → IsPlaced size t
      → All (InBucket size i) c
      → IsPlaced size (set t i c)
  IsPlaced-set size t i c p q j = placed (λ k. k) t i j p q
    where
      -- the bucket `name k` of the whole table is the bucket `k` here
      placed :
          (name : ℕ → ℕ) (t : List (Chain A)) (i j : ℕ)
          → ((k : ℕ) → All (InBucket size (name k)) (get_or t k []))
          → All (InBucket size (name i)) c
          → All (InBucket size (name j)) (get_or (set t i c) j [])
      placed name [] i j p q = p j
      placed name (x ∷ t) zero zero p q = q
      placed name (x ∷ t) zero (suc j) p q = p (suc j)
      placed name (x ∷ t) (suc i) zero p q = p 0
      placed name (x ∷ t) (suc i) (suc j) p q = placed (λ k. name (suc k)) t i j (λ k. p (suc k)) q

  -- A table is a bucket and the rest, and a write to the bucket leaves the rest.
  pub bucket_split :
      (t : List (Chain A)) (i : ℕ)
      → i < length t
      → (rest : Chain A) × Permᴰ (flatten t) (get_or t i [] ++ rest)
        × ((c : Chain A) → Permᴰ (flatten (set t i c)) (c ++ rest))
  unfolding flatten
  bucket_split [] i h = absurd (omega (arith, h))
  bucket_split (x ∷ t) zero h = (flatten t, Permᴰ.refl _, λ c. Permᴰ.refl _)
  bucket_split (x ∷ t) (suc i) h =
      let (rest, whole, written) = bucket_split t i (omega (arith, h)) in
      (
        x ++ rest,
        Permᴰ.trans (Permᴰ.append_left x whole) (perm_exchange x (get_or t i []) rest),
        λ c. Permᴰ.trans (Permᴰ.append_left x (written c)) (perm_exchange x c rest),
      )

module _ (A : Type 0) where
  pub flatten-replicate : (n : ℕ) → flatten (replicate {A = Chain A} n []) ≡ []
  unfolding flatten
  flatten-replicate zero = refl
  flatten-replicate (suc n) = flatten-replicate n

  get_or-replicate : (n i : ℕ) → get_or (replicate {A = Chain A} n []) i [] ≡ []
  get_or-replicate zero i = refl
  get_or-replicate (suc n) zero = refl
  get_or-replicate (suc n) (suc i) = get_or-replicate n i

  pub IsPlaced-replicate : (size n : ℕ) → IsPlaced size (replicate {A = Chain A} n [])
  IsPlaced-replicate size n i = subst (All (InBucket size i)) (sym (get_or-replicate n i)) tt

  pub length-replicate : (n : ℕ) → length (replicate {A = Chain A} n []) ≡ n
  length-replicate zero = refl
  length-replicate (suc n) = ap suc (length-replicate n)

-- ===== src/Hash/Loop.antt =====
-- The loop of `hash_insert` on a bucket.
use mathlib.Core.List.{Permᴰ}
use mathlib.Core.List.Permᴰ
use libdlb.Base.{
  ◌+◌, ◌≤◌, ◌<◌, ◌≡◌, refl, inl, inr, Bool, Bool-cases, Option, none, some, List, [], ◌∷◌, ◌++◌,
  length, arith,
}
use libdlb.Hash.{Node, Chain, find_chain, insert_loop}
use libdlb.Hash.Entries.{All}
use libdlb.Hash.Spec.{count, others}

module _ {K A : Type 0} (matches : K → A → Bool) where
  pub insert_loop_perm :
      (key : K) (ins ns : Chain A) (old : Option (Node A))
      → Permᴰ (insert_loop matches key ins ns old).0 (ins ++ others matches key ns)
  unfolding insert_loop
  insert_loop_perm key ins [] old = Permᴰ.symm (Permᴰ.append-nil ins)
  insert_loop_perm key ins (n ∷ ns) old = elim (Bool-cases (matches key n.item)) [
    | inl hit ↦ rw hit (insert_loop_perm key ins ns (some n))
    | inr miss ↦ rw miss (
        Permᴰ.trans (insert_loop_perm key (n ∷ ins) ns old)
          (Permᴰ.symm (Permᴰ.middle n ins (others matches key ns))))
  ]

  insert_loop_missed :
      (key : K) (ins ns : Chain A) (old : Option (Node A))
      → count matches key ns ≡ 0
      → (insert_loop matches key ins ns old).1 ≡ old
  unfolding insert_loop
  insert_loop_missed key ins [] old h = refl
  insert_loop_missed key ins (n ∷ ns) old h = elim (Bool-cases (matches key n.item)) [
    | inl hit ↦ absurd (ground (arith, h, hit))
    | inr miss ↦ rw miss (insert_loop_missed key (n ∷ ins) ns old (ground (arith, h, miss)))
  ]

  -- the old node is the one that a search finds
  pub insert_loop_old :
      (key : K) (ins ns : Chain A)
      → count matches key ns ≤ 1
      → (insert_loop matches key ins ns none).1 ≡ find_chain matches key ns
  unfolding insert_loop find_chain
  insert_loop_old key ins [] h = refl
  insert_loop_old key ins (n ∷ ns) h = elim (Bool-cases (matches key n.item)) [
    | inl hit ↦ rw hit (insert_loop_missed key ins ns (some n) (ground (arith, h, hit)))
    | inr miss ↦ rw miss (insert_loop_old key (n ∷ ins) ns (ground (arith, h, miss)))
  ]

  pub length-others :
      (k : K) (xs : List (Node A)) → length (others matches k xs) + count matches k xs ≡ length xs
  length-others k [] = refl
  length-others k (x ∷ xs) = elim (Bool-cases (matches k x.item)) [
    | inl hit ↦ rw hit (omega (arith, length-others k xs))
    | inr miss ↦ rw miss (omega (arith, length-others k xs))
  ]

  pub All-others :
      (P : Node A → Type 0) (k : K) (xs : List (Node A)) → All P xs → All P (others matches k xs)
  All-others P k [] p = tt
  All-others P k (x ∷ xs) p = elim (Bool-cases (matches k x.item)) [
    | inl hit ↦ rw hit (All-others P k xs p.1)
    | inr miss ↦ rw miss (p.0, All-others P k xs p.1)
  ]

  pub find-some :
      (k : K) (xs : List (Node A))
      → 0 < count matches k xs
      → (n : Node A) × (find_chain matches k xs ≡ some n)
  unfolding find_chain
  find-some k [] h = absurd (omega (arith, h))
  find-some k (x ∷ xs) h = elim (Bool-cases (matches k x.item)) [
    | inl hit ↦ (x, rw hit refl)
    | inr miss ↦ let (n, e) = find-some k xs (ground (arith, h, miss)) in (n, rw miss e)
  ]

-- ===== src/Hash/Spec.antt =====
-- What the operations promise: a set of nodes of which at most one matches each key.
use mathlib.Core.List.{flatten}
use libdlb.Base.{
  ℕ, zero, suc, ◌%◌, ◌≤◌, ◌≡◌, ◌≢◌, refl, ap, ◌∙◌, sym, inl, inr, Bool, true, Bool-cases, none,
  List, [], ◌∷◌, length, get_or, ◌==◌, arith,
}
use libdlb.Hash.{Node, Chain, Hash, find_chain, find}
use libdlb.Hash.Entries.{All, All-of_append, entries, InBucket, IsPlaced}
pub use libdlb.Hash.Matches.{
  count, others, count-append, count-perm, find-none, find-append_left, find-append_right,
  others_self, others-append, others-perm, count-others-le, count-others_same, find-others,
  find-perm,
}

module _ {K A : Type 0} (func : K → ℕ) (matches : K → A → Bool) where
  -- What the client's functions have to do: two keys that match one item have the same hash code and
  -- match the same items.
  abbrev pub IsLawful : Type 0
  IsLawful =
      (k l : K) (a : A)
      → matches k a ≡ true
      → matches l a ≡ true
      → (func k ≡ func l) × ((b : A) → matches k b ≡ matches l b)

  -- The code of a node is that of each key that matches it.
  abbrev pub IsCoded : Node A → Type 0
  IsCoded n = (k : K) → matches k n.item ≡ true → func k ≡ n.code

  -- no node of another bucket matches
  elsewhere :
      (k : K) (size i : ℕ) (c : Chain A)
      → All (InBucket size i) c
      → All IsCoded c
      → func k % size ≢ i
      → count matches k c ≡ 0
  elsewhere k size i [] p q h = refl
  elsewhere k size i (n ∷ ns) p q h = elim (Bool-cases (matches k n.item)) [
    | inl hit ↦ absurd (h (ap (λ t. t % size) (q.0 k hit) ∙ p.0))
    | inr miss ↦ rw miss (omega (arith, elsewhere k size i ns p.1 q.1 h))
  ]

  no_bucket :
      (k : K) (t : List (Chain A))
      → ((j : ℕ) → count matches k (get_or t j []) ≡ 0)
      → count matches k (flatten t) ≡ 0
  unfolding flatten
  no_bucket k [] h = refl
  no_bucket k (c ∷ t) h =
      count-append matches k c (flatten t) ∙ omega (arith, h 0, no_bucket k t (λ j. h (suc j)))

  -- If only the bucket `i` has matches, the bucket is as good as the table.
  one_bucket :
      (k : K) (t : List (Chain A)) (i : ℕ)
      → ((j : ℕ) → j ≢ i → count matches k (get_or t j []) ≡ 0)
      → (count matches k (flatten t) ≡ count matches k (get_or t i []))
        × (find_chain matches k (flatten t) ≡ find_chain matches k (get_or t i []))
  unfolding flatten
  one_bucket k [] i h = (refl, refl)
  one_bucket k (c ∷ t) zero h =
      let empty = no_bucket k t (λ j. h (suc j) (omega arith)) in
      (
        count-append matches k c (flatten t) ∙ omega (arith, empty),
        find-append_left matches k c (flatten t) empty,
      )
  one_bucket k (c ∷ t) (suc i) h =
      let empty = h 0 (omega arith) in
      let (counted, found) = one_bucket k t i (λ j ne. h (suc j) (omega (arith, ne))) in
      (
        count-append matches k c (flatten t) ∙ omega (arith, empty, counted),
        find-append_right matches k c (flatten t) empty ∙ found,
      )

  pub All-bucket :
      (P : Node A → Type 0) (t : List (Chain A)) (i : ℕ) → All P (flatten t) → All P (get_or t i [])
  unfolding flatten
  All-bucket P [] i p = tt
  All-bucket P (c ∷ t) zero p = (All-of_append P c (flatten t) p).0
  All-bucket P (c ∷ t) (suc i) p = All-bucket P t i (All-of_append P c (flatten t) p).1

  -- The bucket of a key has all that matches the key.
  pub home_bucket :
      (k : K) (size : ℕ) (t : List (Chain A))
      → IsPlaced size t
      → All IsCoded (flatten t)
      → let home = get_or t (func k % size) [] in
        (count matches k (flatten t) ≡ count matches k home)
        × (find_chain matches k (flatten t) ≡ find_chain matches k home)
  home_bucket k size t p q = one_bucket k t (func k % size) (λ j ne.
      elsewhere k size j (get_or t j []) (p j) (All-bucket IsCoded t j q) (λ e. ne (sym e)))

  -- What every operation keeps: each node stands in the bucket of its code, which is that of the
  -- keys that match it, no two nodes match one key, and the nodes are counted.
  pub record IsValid (h : Hash A) : Type 0 where
    pub width : length h.table ≡ h.size
    pub counted : h.count ≡ length (entries h)
    pub placed : IsPlaced h.size h.table
    pub coded : All IsCoded (entries h)
    pub single : (k : K) → count matches k (entries h) ≤ 1

  -- `hash_find` finds the node that matches, wherever it stands.
  pub find_lem :
      (h : Hash A) (k : K) → IsValid h → find func matches h k ≡ find_chain matches k (entries h)
  unfolding find find_chain flatten
  find_lem h k v = elim (Bool-cases (h.size == 0)) [
    | inl empty ↦ rw empty (no_table h.table (v.width ∙ zero_size empty))
    | inr some_bucket ↦ rw some_bucket (sym (home_bucket k h.size h.table v.placed v.coded).1)
  ]
    where
      zero_size : (h.size == 0) ≡ true → h.size ≡ 0
      zero_size e = ground (arith, e)

      no_table : (t : List (Chain A)) → length t ≡ 0 → none ≡ find_chain matches k (flatten t)
      no_table [] e = refl
      no_table (c ∷ t) e = absurd (omega (arith, e))

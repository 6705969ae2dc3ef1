-- ===== src/Hash/Remove.antt =====
-- `hash_remove` takes the node out, and no other.
use mathlib.Core.List.{flatten, Permᴰ}
use mathlib.Core.List.Permᴰ
use native.Mathlib.Nat.{mod-lt}
use libdlb.Base.{
  ℕ, suc, ◌+◌, ◌-◌, ◌*◌, ◌%◌, ◌^◌, ◌≤◌, ◌<◌, ◌≡◌, ◌≢◌, refl, ap, ◌∙◌, sym, subst, ◌⊎◌, inl, inr,
  Bool, Bool-cases, some, List, [], ◌∷◌, length, get_or, set, ltb, ◌==◌, if◌then◌else◌, done, ◌>>=◌,
  arith,
}
use libdlb.Base.Words.{u32}
use libdlb.Hash.{Node, Chain, Hash, bucket, set_bucket, unlink, remove, capacity_hint}
use libdlb.Base.Perm.{All-map}
use libdlb.Hash.Entries.{
  All, All-append, All-perm, length-perm, entries, InBucket, IsPlaced-set, length-set, bucket_split,
}
use libdlb.Hash.Spec.{IsCoded, IsValid, count-perm, All-bucket}
use libdlb.Hash.Resize.{Hinted, too_few, no_memory, has_room, capacity_hint-Hinted}

module _ {A : Type 0} where
  All-flatten :
      (P : Node A → Type 0) (t : List (Chain A))
      → ((j : ℕ) → All P (get_or t j []))
      → All P (flatten t)
  unfolding flatten
  All-flatten P [] p = tt
  All-flatten P (c ∷ t) p = All-append P c (flatten t) (p 0) (All-flatten P t (λ j. p (suc j)))

  -- the only node with the address of `n` is `n`
  abbrev pub Alone : Node A → Node A → Type 0
  Alone n m = m.address ≡ n.address → m ≡ n

  unlink_lem :
      (n : Node A) (c : Chain A)
      → All (Alone n) c
      → ((c2 : Chain A) × (unlink n.address c ≡ some c2) × Permᴰ c (n ∷ c2)) ⊎ All (λ m. m ≢ n) c
  unfolding unlink
  unlink_lem n [] p = inr tt
  unlink_lem n (s ∷ next) p = elim (Bool-cases (s.address == n.address)) [
    | inl here ↦
        inl
          (next, rw (unlink, here) refl, Permᴰ.cons (p.0 (ground (arith, here))) (Permᴰ.refl next))
    | inr there ↦
        let apart : s ≢ n = λ e. absurd (ground (arith, there, ap (λ m. m.address) e)) in
        elim (unlink_lem n next p.1) [
          | inl (c2, e, perm) ↦ inl (
            s ∷ c2,
            rw (unlink, there, e) refl,
            Permᴰ.trans (Permᴰ.cons refl perm) (Permᴰ.swap refl refl),
          )
          | inr missing ↦ inr (apart, missing)
        ]
  ]

module _ {K A : Type 0} (func : K → ℕ) (matches : K → A → Bool) where
  -- a node of the table stands in its bucket
  unlink-bucket :
      (h : Hash A) (n : Node A) (ns : List (Node A))
      → IsValid func matches h
      → Permᴰ (entries h) (n ∷ ns)
      → All (Alone n) (entries h)
      → (c2 : Chain A) × (unlink n.address (bucket h n.code) ≡ some c2)
        × Permᴰ (bucket h n.code) (n ∷ c2)
  unlink-bucket h n ns v perm alone =
      elim (unlink_lem n (bucket h n.code)
        (All-bucket func matches (Alone n) h.table (n.code % h.size) alone)) [
          | inl found ↦ found
          | inr missing ↦ absurd (
              (All-perm (λ m. m ≢ n) perm (All-flatten (λ m. m ≢ n) h.table (nowhere missing))).0
                refl)
        ]
    where
      nowhere :
          All (λ m. m ≢ n) (bucket h n.code) → (j : ℕ) → All (λ m. m ≢ n) (get_or h.table j [])
      nowhere missing j = elim (Bool-cases (j == n.code % h.size)) [
        | inl here ↦
            let e : j ≡ n.code % h.size = ground (arith, here) in
            subst (λ i. All (λ m. m ≢ n) (get_or h.table i [])) (sym e) missing
        | inr there ↦
            let ne : j ≢ n.code % h.size = ground (arith, there) in
            All-map (InBucket h.size j) (λ m. m ≢ n)
              (λ m p e. ne (sym p ∙ ap (λ t. t.code % h.size) e)) (get_or h.table j []) (v.placed j)
      ]

  -- a table with a node has a bucket
  occupied :
      (t : List (Chain A)) {n : Node A} {ns : List (Node A)}
      → Permᴰ (flatten t) (n ∷ ns)
      → 0 < length t
  unfolding flatten
  occupied [] perm = absurd (omega (arith, length-perm perm))
  occupied (c ∷ t) perm = omega arith

  -- the table without the node
  unlinked :
      (h : Hash A) (n : Node A) (c : Chain A)
      → IsValid func matches h
      → 0 < h.size
      → Permᴰ (bucket h n.code) (n ∷ c)
      → let h2 = record h { count = h.count - 1; table = set_bucket h n.code c } in
        IsValid func matches h2 × Permᴰ (entries h) (n ∷ entries h2)
  unlinked h n c v p perm =
      let i = n.code % h.size in
      let (rest, whole, written) =
        bucket_split h.table i (omega (arith, v.width, mod-lt n.code p)) in
      let all : Permᴰ (entries h) (n ∷ flatten (set h.table i c)) =
        Permᴰ.trans whole
          (Permᴰ.trans (Permᴰ.append_right rest perm) (Permᴰ.cons refl (Permᴰ.symm (written c)))) in
      (
        record {
          width = length-set h.table i c ∙ v.width;
          counted = omega (arith, v.counted, length-perm all);
          placed =
              IsPlaced-set h.size h.table i c v.placed
                (All-perm (InBucket h.size i) perm (v.placed i)).1;
          coded = (All-perm (IsCoded func matches) all v.coded).1;
          single = λ k. fewer k _ (v.single k) (count-perm matches k all);
        },
        all,
      )
    where
      fewer : (k : K) {a b : ℕ} (x : ℕ) → a ≤ 1 → a ≡ x + b → b ≤ 1
      fewer k x le e = omega (arith, le, e)

  -- `hash_remove` of a node of a valid table of at most 2 ^ 24 nodes, no other node of which has its
  -- address, returns, with or without memory: the invariant holds, and the nodes of the table were
  -- the node and those that are left.
  pub remove_lem :
      (memory : Bool) (h : Hash A) (n : Node A) (ns : List (Node A))
      → IsValid func matches h
      → h.count ≤ 2 ^ 24
      → Permᴰ (entries h) (n ∷ ns)
      → All (Alone n) (entries h)
      → (h2 : Hash A) × (remove memory h n ≡ done h2)
        × IsValid func matches h2
        × Permᴰ (entries h) (n ∷ entries h2)
  unfolding remove
  remove_lem memory h n ns v small perm alone =
      let (c, found, taken) = unlink-bucket h n ns v perm alone in
      let (valid, all) = unlinked h n c v (omega (arith, v.width, occupied h.table perm)) taken in
      let h2 = record h { count = h.count - 1; table = set_bucket h n.code c } in
      let (h3, runs, valid3, all3) = shrink h2 valid all (omega (arith, small)) in
      (h3, rw found runs, valid3, all3)
    where
      shrunk :
          (h2 : Hash A)
          → IsValid func matches h2
          → Permᴰ (entries h) (n ∷ entries h2)
          → (r : Bool × Hash A) → Hinted func matches memory h2 h2.count r
          → IsValid func matches r.1 × Permᴰ (entries h) (n ∷ entries r.1)
      shrunk h2 valid all r (too_few few) = (valid, all)
      shrunk h2 valid all r (no_memory none_left) = (valid, all)
      shrunk h2 valid all r (has_room h3 valid3 same _ _ _) =
          (valid3, Permᴰ.trans all (Permᴰ.cons refl (Permᴰ.symm same)))

      shrink :
          (h2 : Hash A)
          → IsValid func matches h2
          → Permᴰ (entries h) (n ∷ entries h2)
          → h2.count ≤ 2 ^ 24
          → (h3 : Hash A) × ((if ltb (u32 (h2.count * 4)) h2.size
                then (capacity_hint memory h2 h2.count >>= λ r. done r.1)
                else done h2)
              ≡ done h3)
            × IsValid func matches h3
            × Permᴰ (entries h) (n ∷ entries h3)
      shrink h2 valid all small = elim (Bool-cases (ltb (u32 (h2.count * 4)) h2.size)) [
        | inr full ↦ (h2, rw full refl, valid, all)
        | inl sparse ↦
            let (r, runs, hinted) =
              capacity_hint-Hinted func matches memory h2 h2.count valid small in
            let (valid3, all3) = shrunk h2 valid all r hinted in
            (r.1, rw sparse (ap (λ o. o >>= λ r. done r.1) runs), valid3, all3)
      ]

-- ===== src/Hash/Resize.antt =====
-- `hash_capacity_hint` keeps the nodes and ends.
use mathlib.Core.List.{flatten, Permᴰ}
use mathlib.Core.List.Permᴰ
use native.Mathlib.Nat.{mod-lt}
use libdlb.Base.{
  ℕ, ◌%◌, ◌^◌, ◌≤◌, ◌<◌, ◌≡◌, refl, ◌∙◌, sym, subst, ◌⊎◌, inl, inr, Bool, true, false, Bool-cases,
  List, [], ◌∷◌, ◌++◌, append-nil, append_assoc, length, get_or, set, replicate, ltb, ◌==◌,
  if◌then◌else◌, done, arith,
}
use libdlb.Hash.{Node, Chain, Hash, rehash_chain, rehash, capacity_hint}
use libdlb.Hash.Prime.{new_size_for_lem}
use libdlb.Hash.Entries.{
  All-perm, length-perm, entries, IsPlaced, IsPlaced-set, length-set, bucket_split, perm_exchange,
  flatten-replicate, IsPlaced-replicate, length-replicate,
}
use libdlb.Hash.Spec.{IsValid, IsCoded, count-perm}

module _ {A : Type 0} where
  -- a table of `size` buckets with just these nodes, in place
  abbrev Rehashed : ℕ → List (Node A) → List (Chain A) → Type 0
  Rehashed size ns t = (length t ≡ size) × IsPlaced size t × Permᴰ (flatten t) ns

  rehash_chain-Rehashed :
      (size : ℕ) (c : Chain A) (ns : List (Node A)) (t : List (Chain A))
      → 0 < size
      → Rehashed size ns t
      → Rehashed size (c ++ ns) (rehash_chain size c t)
  unfolding rehash_chain
  rehash_chain-Rehashed size [] ns t h r = r
  rehash_chain-Rehashed size (n ∷ c) ns t h (len, placed, perm) =
      let i = n.code % size in
      let (rest, whole, written) = bucket_split t i (omega (arith, len, mod-lt n.code h)) in
      let t2 = set t i (n ∷ get_or t i []) in
      let more : Permᴰ (flatten t2) (n ∷ ns) =
        Permᴰ.trans (written (n ∷ get_or t i []))
          (Permᴰ.cons refl (Permᴰ.trans (Permᴰ.symm whole) perm)) in
      let (len2, placed2, perm2) = rehash_chain-Rehashed size c (n ∷ ns) t2 h (
        length-set t i (n ∷ get_or t i []) ∙ len,
        IsPlaced-set size t i (n ∷ get_or t i []) placed (refl, placed i),
        more,
      ) in
      (len2, placed2, Permᴰ.trans perm2 (Permᴰ.middle n c ns))

  rehash-Rehashed :
      (size : ℕ) (cs : List (Chain A)) (ns : List (Node A)) (t : List (Chain A))
      → 0 < size
      → Rehashed size ns t
      → Rehashed size (flatten cs ++ ns) (rehash size cs t)
  unfolding rehash flatten
  rehash-Rehashed size [] ns t h r = r
  rehash-Rehashed size (c ∷ cs) ns t h r =
      let (len, placed, perm) =
        rehash-Rehashed size cs (c ++ ns) (rehash_chain size c t) h
          (rehash_chain-Rehashed size c ns t h r) in
      (
        len,
        placed,
        subst (Permᴰ (flatten (rehash size cs (rehash_chain size c t))))
            (sym (append_assoc c (flatten cs) ns))
            (Permᴰ.trans perm (perm_exchange (flatten cs) c ns)),
      )

  rehash_lem :
      (size : ℕ) (cs : List (Chain A))
      → 0 < size
      → Rehashed size (flatten cs) (rehash size cs (replicate size []))
  rehash_lem size cs h =
      let (len, placed, perm) = rehash-Rehashed size cs [] (replicate size []) h (
        length-replicate A size,
        IsPlaced-replicate A size size,
        subst (λ l. Permᴰ l []) (sym (flatten-replicate A size)) Permᴰ.nil,
      ) in
      (
        len,
        placed,
        subst (Permᴰ (flatten (rehash size cs (replicate size [])))) (append-nil (flatten cs)) perm,
      )

module _ {K A : Type 0} (func : K → ℕ) (matches : K → A → Bool) where
  -- What `hash_capacity_hint` comes to: nothing to do for fewer nodes than there are, no memory and
  -- the same table, or the same nodes in a table with room for `hint`.
  pub data Hinted (memory : Bool) (h : Hash A) (hint : ℕ) : Bool × Hash A → Type 0 where
    too_few : hint < h.count → Hinted memory h hint (true, h)
    no_memory : memory ≡ false → Hinted memory h hint (false, h)
    has_room :
        (h2 : Hash A)
        → IsValid func matches h2
        → Permᴰ (entries h2) (entries h)
        → h2.count ≡ h.count
        → hint ≤ h2.size
        → 0 < h2.size
        → Hinted memory h hint (true, h2)

  resized :
      (h : Hash A) (size : ℕ)
      → 0 < size
      → IsValid func matches h
      → IsValid func matches
          (record h { size = size; table = rehash size h.table (replicate size []) })
        × Permᴰ (flatten (rehash size h.table (replicate size []))) (entries h)
  resized h size p v =
      let (len, placed, perm) = rehash_lem size h.table p in
      (
        record {
          width = len;
          counted = v.counted ∙ sym (length-perm perm);
          placed = placed;
          coded = All-perm (IsCoded func matches) (Permᴰ.symm perm) v.coded;
          single = λ k. omega (arith, v.single k, count-perm matches k perm);
        },
        perm,
      )

  -- `hash_capacity_hint` for at most 2 ^ 24 nodes returns: it has nothing to do for fewer nodes than
  -- there are, finds no memory and leaves the table as it was, or keeps the invariant and the nodes in
  -- a table with a bucket for each of the nodes.
  pub capacity_hint-Hinted :
      (memory : Bool) (h : Hash A) (hint : ℕ)
      → IsValid func matches h
      → hint ≤ 2 ^ 24
      → (r : Bool × Hash A) × (capacity_hint memory h hint ≡ done r) × Hinted memory h hint r
  unfolding capacity_hint
  capacity_hint-Hinted memory h hint v small = elim (Bool-cases (ltb hint h.count)) [
    | inl few ↦ ((true, h), rw few refl, too_few (ground (arith, few)))
    | inr enough ↦
        let (p, positive, fits, _, runs) = new_size_for_lem hint small in
        let (r, e, hinted) = go p positive fits (Bool-cases (h.size == p)) (Bool-cases memory) in
        (r, rw (enough, runs) e, hinted)
  ]
    where
      go :
          (p : ℕ)
          → 0 < p
          → hint ≤ p
          → ((h.size == p) ≡ true) ⊎ ((h.size == p) ≡ false)
          → (memory ≡ true) ⊎ (memory ≡ false)
          → (r : Bool × Hash A) × ((if h.size == p
                then done (true, h)
                else if memory
                then done (true, record h { size = p; table = rehash p h.table (replicate p []) })
                else done (false, h))
              ≡ done r)
            × Hinted memory h hint r
      go p positive fits (inl same) m =
          let e : h.size ≡ p = ground (arith, same) in
          (
            (true, h),
            rw same refl,
            has_room h v (Permᴰ.refl _) refl (omega (arith, e, fits)) (omega (arith, e, positive)),
          )
      go p positive fits (inr new) (inr none_left) =
          ((false, h), rw (new, none_left) refl, no_memory none_left)
      go p positive fits (inr new) (inl found) =
          let (valid, perm) = resized h p positive v in
          (
            (true, record h { size = p; table = rehash p h.table (replicate p []) }),
            rw (new, found) refl,
            has_room _ valid perm refl fits positive,
          )

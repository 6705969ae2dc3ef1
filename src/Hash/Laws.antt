-- ===== src/Hash/Laws.antt =====
-- What `hash_insert` returns, and what `hash_find` finds behind it.
use mathlib.Core.List.{Permᴰ}
use mathlib.Core.List.Permᴰ
use libdlb.Base.{
  ℕ, ◌+◌, ◌^◌, ◌<◌, ◌≡◌, refl, ◌∙◌, sym, ◌⊎◌, inl, inr, Bool, true, false, Bool-cases, Option, none,
  some, ◌∷◌, leb, if◌then◌else◌, done, arith,
}
use libdlb.Base.Words.{u32}
use libdlb.Hash.{Node, Hash, find_chain, find, insert_in, insert, capacity_hint}
use libdlb.Hash.Entries.{entries}
use libdlb.Hash.Spec.{IsLawful, IsValid, count, others, find-others, find-perm, find_lem}
use libdlb.Hash.Resize.{Hinted, too_few, no_memory, has_room, capacity_hint-Hinted}
use libdlb.Hash.Insert.{Inserted, IsOutside, not_inserted, inserted, resized-Inserted, coded_node}

module _ {K A : Type 0} (func : K → ℕ) (matches : K → A → Bool)
    (lawful : IsLawful func matches) where
  -- `hash_insert` into a valid table of fewer than 2 ^ 24 nodes, of a node that is not in it, by
  -- a key that matches the node, with a
  -- precomputed code only if it is the key's and with `HASH_INSERT_UNIQUE` only if no node matches,
  -- returns: it finds no memory and leaves the table as it was, or keeps the invariant and puts the
  -- node in for the one that matched its key, which it returns.
  pub insert-Inserted :
      (memory : Bool) (h : Hash A) (key : K) (ins : Node A) (prehashed unique : Bool)
      → IsValid func matches h
      → IsOutside func matches lawful ins h
      → h.count < 2 ^ 24
      → matches key ins.item ≡ true
      → (prehashed ≡ true → ins.code ≡ func key)
      → (unique ≡ true → count matches key (entries h) ≡ 0)
      → (r : Bool × Hash A × Option (Node A)) × (insert func matches memory h key ins prehashed
            unique
          ≡ done r)
        × Inserted func matches lawful memory h key (coded_node func matches lawful key ins) r
  unfolding insert
  insert-Inserted memory h key ins prehashed unique v outside small hit coded fresh =
      elim (Bool-cases (leb h.size h.count)) [
        | inr roomy ↦ (
          _,
          rw roomy refl,
          resized-Inserted func matches lawful memory h h key ins prehashed unique v v
              (Permᴰ.refl (entries h)) outside (ground (arith, roomy)) hit coded fresh,
        )
        | inl full ↦
            let (o, runs, hinted) =
              capacity_hint-Hinted func matches memory h (h.count + 1) v (omega (arith, small)) in
            let (r, e, result) = go o hinted in
            (r, wrapped o full (omega (arith, small)) runs ∙ e, result)
      ]
    where
      wrapped :
          (o : Bool × Hash A)
          → leb h.size h.count ≡ true
          → u32 (h.count + 1) ≡ h.count + 1
          → capacity_hint memory h (h.count + 1) ≡ done o
          → insert func matches memory h key ins prehashed unique ≡ (
              if o.0
              then (let (h2, old) = insert_in func matches o.1 key ins prehashed unique in
                  done (true, h2, old))
              else done (false, o.1, none))
      wrapped o full wrap runs = rw (full, wrap, runs) refl

      go :
          (o : Bool × Hash A)
          → Hinted func matches memory h (h.count + 1) o
          → (r : Bool × Hash A × Option (Node A)) × ((if o.0
                then (let (h2, old) = insert_in func matches o.1 key ins prehashed unique in
                    done (true, h2, old))
                else done (false, o.1, none))
              ≡ done r)
            × Inserted func matches lawful memory h key (coded_node func matches lawful key ins) r
      go o (too_few few) = absurd (omega (arith, few))
      go o (no_memory none_left) = ((false, h, none), refl, not_inserted none_left)
      go o (has_room h1 v1 same _ _ p) = (
        _,
        refl,
        resized-Inserted func matches lawful memory h h1 key ins prehashed unique v v1 same outside
            p hit coded fresh,
      )

  -- what a search finds among a node and the others
  find-replaced :
      (h h2 : Hash A) (key : K) (n : Node A)
      → IsValid func matches h
      → IsValid func matches h2
      → matches key n.item ≡ true
      → Permᴰ (entries h2) (n ∷ others matches key (entries h))
      → (k : K)
      → find func matches h2 k ≡ (if matches k n.item then some n else find func matches h k)
  unfolding find_chain
  find-replaced h h2 key n v v2 hit perm k =
      find_lem func matches h2 k v2
      ∙ find-perm matches k perm (v2.single k)
      ∙ rest (Bool-cases (matches k n.item))
    where
      apart : matches k n.item ≡ false → (a : A) → matches k a ≡ true → matches key a ≡ false
      apart miss a both = elim (Bool-cases (matches key a)) [
        | inr no_match ↦ no_match
        | inl match ↦ absurd (ground (arith, (lawful k key a both match).1 n.item, miss, hit))
      ]

      rest :
          (matches k n.item ≡ true) ⊎ (matches k n.item ≡ false)
          → find_chain matches k (n ∷ others matches key (entries h))
            ≡ (if matches k n.item then some n else find func matches h k)
      rest (inl same) = rw same refl
      rest (inr miss) =
          rw miss
            (find-others matches key k (entries h) (apart miss) ∙ sym (find_lem func matches h k v))

  -- With memory, `hash_insert` into a valid table of fewer than 2 ^ 24 nodes, of a node that is not in it,
  -- by a key that matches the node, with a precomputed code only if it is the key's and with `HASH_INSERT_UNIQUE` only if no node
  -- matches, succeeds, and `hash_find` finds the node by every key that matches it and by every other
  -- key what it found before.
  pub find-of_insert :
      (h : Hash A) (key : K) (ins : Node A) (prehashed unique : Bool)
      → IsValid func matches h
      → IsOutside func matches lawful ins h
      → h.count < 2 ^ 24
      → matches key ins.item ≡ true
      → (prehashed ≡ true → ins.code ≡ func key)
      → (unique ≡ true → count matches key (entries h) ≡ 0)
      → (h2 : Hash A) × (insert func matches true h key ins prehashed unique
          ≡ done (true, h2, find func matches h key))
        × ((k : K)
            → find func matches h2 k ≡ (
                if matches k ins.item
                then some (coded_node func matches lawful key ins)
                else find func matches h k))
  find-of_insert h key ins prehashed unique v outside small hit coded fresh =
      let (r, e, result) =
        insert-Inserted true h key ins prehashed unique v outside small hit coded fresh in
      go r result e
    where
      n : Node A
      n = coded_node func matches lawful key ins

      go :
          (r : Bool × Hash A × Option (Node A))
          → Inserted func matches lawful true h key n r
          → insert func matches true h key ins prehashed unique ≡ done r
          → (h2 : Hash A) × (insert func matches true h key ins prehashed unique
              ≡ done (true, h2, find func matches h key))
            × ((k : K)
                → find func matches h2 k
                  ≡ (if matches k ins.item then some n else find func matches h k))
      go r (not_inserted e) runs = absurd (ground (arith, e))
      go r (inserted h2 v2 perm) runs = (h2, runs, find-replaced h h2 key n v v2 hit perm)

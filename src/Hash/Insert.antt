-- ===== src/Hash/Insert.antt =====
-- `hash_insert` puts the node in for the one that matched its key.
use mathlib.Core.List.{flatten, Permᴰ}
use mathlib.Core.List.Permᴰ
use native.Mathlib.Nat.{mod-lt}
use libdlb.Base.{
  ℕ, zero, suc, ◌+◌, ◌%◌, ◌≤◌, ◌<◌, ◌≡◌, ◌≢◌, refl, ap, ap₂, ◌∙◌, sym, subst, ◌⊎◌, inl, inr, Bool,
  true, false, Bool-cases, Option, none, some, List, [], ◌∷◌, map, ◌==◌, ◌++◌, length, get_or, set,
  arith,
}
use libdlb.Hash.{
  Node, Chain, Hash, bucket, set_bucket, find_chain, find, insert_loop, cut_behind, insert_into,
  insert_in,
}
use libdlb.Hash.Entries.{
  All, All-of_append, All-perm, length-perm, entries, InBucket, IsPlaced-set, length-set,
  bucket_split,
}
use libdlb.Hash.Spec.{
  IsLawful, IsCoded, IsValid, count, others, count-append, count-perm, count-others-le,
  count-others_same, others-append, others-perm, others_self, find-none, find-perm, find_lem,
  home_bucket,
}
use libdlb.Hash.Loop.{insert_loop_perm, insert_loop_old, length-others, All-others, find-some}

module _ {K A : Type 0} (func : K → ℕ) (matches : K → A → Bool)
    (lawful : IsLawful func matches) where
  home_count :
      (h : Hash A) (key : K) (n : Node A)
      → IsValid func matches h
      → n.code ≡ func key
      → count matches key (entries h) ≡ count matches key (bucket h n.code)
  home_count h key n v code =
      (home_bucket func matches key h.size h.table v.placed v.coded).0
      ∙ ap (λ t. count matches key (get_or h.table (t % h.size) [])) (sym code)

  home_find :
      (h : Hash A) (key : K) (n : Node A)
      → IsValid func matches h
      → n.code ≡ func key
      → find_chain matches key (entries h) ≡ find_chain matches key (bucket h n.code)
  home_find h key n v code =
      (home_bucket func matches key h.size h.table v.placed v.coded).1
      ∙ ap (λ t. find_chain matches key (get_or h.table (t % h.size) [])) (sym code)

  -- A bucket that is written with the new node and the others of its nodes.
  bucket_written :
      (h : Hash A) (key : K) (n : Node A) (c : Chain A) (counted : ℕ)
      → IsValid func matches h
      → 0 < h.size
      → matches key n.item ≡ true
      → n.code ≡ func key
      → Permᴰ c (n ∷ others matches key (bucket h n.code))
      → counted ≡ suc (length (others matches key (entries h)))
      → let h2 = record h { count = counted; table = set_bucket h n.code c } in
        IsValid func matches h2 × Permᴰ (entries h2) (n ∷ others matches key (entries h))
  bucket_written h key n c counted v p hit code perm e =
      let i = n.code % h.size in
      let home = get_or h.table i [] in
      let (rest, whole, written) =
        bucket_split h.table i (omega (arith, v.width, mod-lt n.code p)) in
      let here : count matches key (entries h) ≡ count matches key home =
        home_count h key n v code in
      let elsewhere : count matches key rest ≡ 0 =
        omega (arith, here, count-perm matches key whole, count-append matches key home rest) in
      let kept : Permᴰ (others matches key home ++ rest) (others matches key (entries h)) =
        Permᴰ.trans
          (subst (λ l. Permᴰ (others matches key home ++ l) (others matches key (home ++ rest)))
            (others_self matches key rest elsewhere)
            (subst (λ l. Permᴰ l (others matches key (home ++ rest)))
              (others-append matches key home rest) (Permᴰ.refl _)))
          (Permᴰ.symm (others-perm matches key whole)) in
      let all : Permᴰ (flatten (set h.table i c)) (n ∷ others matches key (entries h)) =
        Permᴰ.trans (written c)
          (Permᴰ.trans (Permᴰ.append_right rest perm) (Permᴰ.cons refl kept)) in
      (
        record {
          width = length-set h.table i c ∙ v.width;
          counted = e ∙ sym (length-perm all);
          placed = IsPlaced-set h.size h.table i c v.placed (
              All-perm (InBucket h.size i) (Permᴰ.symm perm)
                (refl, All-others matches (InBucket h.size i) key home (v.placed i)));
          coded = All-perm (IsCoded func matches) (Permᴰ.symm all) (
            λ k both. (lawful k key n.item both hit).0 ∙ sym code,
            All-others matches (IsCoded func matches) key (entries h) v.coded,
          );
          single =
              λ k. omega (arith, count-perm matches k all, one k (Bool-cases (matches k n.item)));
        },
        all,
      )
    where
      one :
          (k : K)
          → (matches k n.item ≡ true) ⊎ (matches k n.item ≡ false)
          → count matches k (n ∷ others matches key (entries h)) ≤ 1
      one k (inl both) = rw both (
          omega
            (arith, count-others_same matches key k (entries h) (lawful k key n.item both hit).1))
      one k (inr not_both) =
          rw not_both (omega (arith, v.single k, count-others-le matches key k (entries h)))

  -- What an insertion into a table with buckets comes to: the invariant, the new node in the place of
  -- the one that matched the key, and that one.
  abbrev pub Replaced : Hash A → K → Node A → Hash A × Option (Node A) → Type 0
  Replaced h key n (h2, old) =
      IsValid func matches h2
      × Permᴰ (entries h2) (n ∷ others matches key (entries h))
      × (old ≡ find func matches h key)

  insert_into_coded :
      (h : Hash A) (key : K) (n : Node A) (unique : Bool)
      → IsValid func matches h
      → 0 < h.size
      → matches key n.item ≡ true
      → n.code ≡ func key
      → (unique ≡ true → count matches key (entries h) ≡ 0)
      → Replaced h key n (insert_into func matches h key n true unique)
  unfolding insert_into
  insert_into_coded h key n true v p hit code fresh =
      let zero_found = fresh refl in
      let same =
        others_self matches key (bucket h n.code) (sym (home_count h key n v code) ∙ zero_found) in
      let (valid, perm) =
        bucket_written h key n (n ∷ bucket h n.code) (h.count + 1) v p hit code
          (Permᴰ.cons refl
            (subst (λ l. Permᴰ (bucket h n.code) l) (sym same) (Permᴰ.refl (bucket h n.code))))
          (omega (arith, v.counted, length-others matches key (entries h), zero_found)) in
      (
        valid,
        perm,
        sym (find_lem func matches h key v ∙ find-none matches key (entries h) zero_found),
      )
  insert_into_coded h key n false v p hit code fresh =
      let loop = insert_loop matches key (n ∷ []) (bucket h n.code) none in
      let here = home_count h key n v code in
      let old : loop.1 ≡ find_chain matches key (bucket h n.code) =
        insert_loop_old matches key (n ∷ []) (bucket h n.code)
          (omega (arith, here, v.single key)) in
      let (valid, perm) =
        bucket_written h key n loop.0 (more loop.1) v p hit code
          (insert_loop_perm matches key (n ∷ []) (bucket h n.code) none)
          (counting (count matches key (entries h)) (v.single key) refl old here) in
      (valid, perm, old ∙ sym (find_lem func matches h key v ∙ home_find h key n v code))
    where
      more : Option (Node A) → ℕ
      more o = elim o as (λ _. ℕ) [ none ↦ h.count + 1 | some m ↦ h.count ]

      counting :
          (c : ℕ)
          → c ≤ 1
          → c ≡ count matches key (entries h)
          → {o : Option (Node A)} → o ≡ find_chain matches key (bucket h n.code)
          → count matches key (entries h) ≡ count matches key (bucket h n.code)
          → more o ≡ suc (length (others matches key (entries h)))
      counting zero le e old here =
          ap more (old ∙ find-none matches key (bucket h n.code) (omega (arith, here, e)))
          ∙ omega (arith, v.counted, length-others matches key (entries h), e)
      counting (suc c) le e old here =
          let (m, found) = find-some matches key (bucket h n.code) (omega (arith, here, e)) in
          ap more (old ∙ found)
          ∙ omega (arith, v.counted, length-others matches key (entries h), e, le)

  -- the node as the code leaves it
  abbrev pub coded_node : K → Node A → Node A
  coded_node key ins = record ins { code = func key }

  insert_into-Replaced :
      (h : Hash A) (key : K) (ins : Node A) (prehashed unique : Bool)
      → IsValid func matches h
      → 0 < h.size
      → matches key ins.item ≡ true
      → (prehashed ≡ true → ins.code ≡ func key)
      → (unique ≡ true → count matches key (entries h) ≡ 0)
      → Replaced h key (coded_node key ins) (insert_into func matches h key ins prehashed unique)
  unfolding insert_into
  insert_into-Replaced h key ins true unique v p hit coded fresh =
      subst
        (λ (c : ℕ).
          Replaced h key (coded_node key ins)
            (insert_into func matches h key (record ins { code = c }) true unique))
        (sym (coded refl)) (insert_into_coded h key (coded_node key ins) unique v p hit refl fresh)
  insert_into-Replaced h key ins false unique v p hit coded fresh =
      insert_into_coded h key (coded_node key ins) unique v p hit refl fresh

  -- the node is not in the table
  abbrev pub IsOutside : Node A → Hash A → Type 0
  IsOutside ins h = All (λ n. n.address ≢ ins.address) (entries h)

  cut_behind_outside : (a : ℕ) (c : Chain A) → All (λ n. n.address ≢ a) c → cut_behind a c ≡ c
  unfolding cut_behind
  cut_behind_outside a [] h = refl
  cut_behind_outside a (n ∷ c) h =
      let other : (n.address == a) ≡ false = ground (arith, h.0) in
      rw other (ap (λ t. n ∷ t) (cut_behind_outside a c h.1))

  cut_table_outside :
      (a : ℕ) (t : List (Chain A)) → All (λ n. n.address ≢ a) (flatten t) → map (cut_behind a) t ≡ t
  unfolding flatten
  cut_table_outside a [] h = refl
  cut_table_outside a (c ∷ t) h =
      let (here, behind) = All-of_append (λ n. n.address ≢ a) c (flatten t) h in
      ap₂ ◌∷◌ (cut_behind_outside a c here) (cut_table_outside a t behind)

  pub insert_in-Replaced :
      (h : Hash A) (key : K) (ins : Node A) (prehashed unique : Bool)
      → IsValid func matches h
      → IsOutside ins h
      → 0 < h.size
      → matches key ins.item ≡ true
      → (prehashed ≡ true → ins.code ≡ func key)
      → (unique ≡ true → count matches key (entries h) ≡ 0)
      → Replaced h key (coded_node key ins) (insert_in func matches h key ins prehashed unique)
  unfolding insert_in
  insert_in-Replaced h key ins prehashed unique v outside p hit coded fresh =
      subst
        (λ (t : List (Chain A)).
          Replaced h key (coded_node key ins)
            (insert_into func matches (record h { table = t }) key ins prehashed unique))
        (sym (cut_table_outside ins.address h.table outside))
        (insert_into-Replaced h key ins prehashed unique v p hit coded fresh)

  -- What `hash_insert` comes to: no memory and the same table, or a valid table in which the new node
  -- stands for the one that matched its key, and that one.
  pub data Inserted (memory : Bool) (h : Hash A) (key : K) (n : Node A)
      : Bool × Hash A × Option (Node A) → Type 0 where
    not_inserted : memory ≡ false → Inserted memory h key n (false, h, none)
    inserted :
        (h2 : Hash A)
        → IsValid func matches h2
        → Permᴰ (entries h2) (n ∷ others matches key (entries h))
        → Inserted memory h key n (true, h2, find func matches h key)

  -- an insertion into a table that has the same nodes as `h`
  pub resized-Inserted :
      (memory : Bool) (h h1 : Hash A) (key : K) (ins : Node A) (prehashed unique : Bool)
      → IsValid func matches h
      → IsValid func matches h1
      → Permᴰ (entries h1) (entries h)
      → IsOutside ins h
      → 0 < h1.size
      → matches key ins.item ≡ true
      → (prehashed ≡ true → ins.code ≡ func key)
      → (unique ≡ true → count matches key (entries h) ≡ 0)
      → Inserted memory h key
          (coded_node key ins)
          (let (h2, old) = insert_in func matches h1 key ins prehashed unique in (true, h2, old))
  resized-Inserted memory h h1 key ins prehashed unique v v1 same outside p hit coded fresh =
      let (valid, perm, old) =
        insert_in-Replaced h1 key ins prehashed unique v1
          (All-perm (λ n. n.address ≢ ins.address) (Permᴰ.symm same) outside) p hit coded
          (λ u. count-perm matches key same ∙ fresh u) in
      let r = insert_in func matches h1 key ins prehashed unique in
      let found : find func matches h1 key ≡ find func matches h key =
        find_lem func matches h1 key v1
        ∙ find-perm matches key same (v1.single key)
        ∙ sym (find_lem func matches h key v) in
      subst (λ o. Inserted memory h key (coded_node key ins) (true, r.0, o)) (sym (old ∙ found))
        (inserted r.0 valid (Permᴰ.trans perm (Permᴰ.cons refl (others-perm matches key same))))

-- ===== src/Hash/Tests.antt =====
-- A hash table at small inputs, and the theorems there. A key and an item are numbers, and the code of
-- a key is the key.
use mathlib.Core.List.{flatten, Permᴰ}
use mathlib.Core.List.Permᴰ
use libdlb.Base.{
  ℕ, zero, suc, ◌≡◌, refl, ap, Bool, true, false, Option, none, some, [], ◌∷◌, get_or, ◌==◌,
  if◌then◌else◌, Outcome, done, arith,
}
use libdlb.Hash.{
  Node, Hash, double, no_divisor, next_prime, new_size_for, rehash, init, capacity_hint, find_chain,
  find, insert_loop, cut_behind, insert_into, insert_in, insert, remove,
}
use libdlb.Hash.Entries.{All, entries, InBucket}
use libdlb.Hash.Spec.{IsLawful, IsValid}
use libdlb.Hash.Insert.{Inserted}
use libdlb.Hash.Laws.{insert-Inserted, find-of_insert}
use libdlb.Hash.Remove.{remove_lem}

abbrev func : ℕ → ℕ
func k = k

abbrev matches : ℕ → ℕ → Bool
matches k a = k == a

lawful : IsLawful func matches
lawful k l a e f = let same : k ≡ l = ground (arith, e, f) in (same, λ b. ap (λ t. t == b) same)

abbrev five : Node ℕ
five = record { address = 100; code = 5; item = 5 }

-- another node with the same key
abbrev other_five : Node ℕ
other_five = record { address = 200; code = 5; item = 5 }

abbrev bare : Hash ℕ
bare = init

bare-IsValid : IsValid func matches bare
unfolding flatten
bare-IsValid = record {
  width = refl;
  counted = refl;
  placed = λ i. tt;
  coded = tt;
  single = λ k. omega arith;
}

-- a table of one bucket and one node
abbrev one : Hash ℕ
one = record { size = 1; count = 1; table = (five ∷ []) ∷ [] }

one_placed : (i : ℕ) → All (InBucket 1 i) (get_or one.table i [])
one_placed zero = (refl, tt)
one_placed (suc i) = tt

one-IsValid : IsValid func matches one
unfolding flatten
one-IsValid = record {
  width = refl;
  counted = refl;
  placed = one_placed;
  coded = (λ k e. ground (arith, e), tt);
  single = λ k. ground arith;
}

size_for_100 : new_size_for 100 ≡ done 131
unfolding new_size_for double next_prime no_divisor
size_for_100 = refl

found : find func matches one 5 ≡ some five
unfolding find find_chain
found = refl

not_found : find func matches one 6 ≡ none
unfolding find find_chain
not_found = refl

-- The first insertion makes a table of 37 buckets.
sizes : Outcome (Bool × Hash ℕ × Option (Node ℕ)) → ℕ × ℕ
sizes (done (r, h, old)) = (h.size, h.count)
sizes o = (0, 0)

first_insert : sizes (insert func matches true bare 5 five false false) ≡ (37, 1)
unfolding insert sizes capacity_hint new_size_for double next_prime no_divisor insert_in insert_into
    insert_loop cut_behind rehash
first_insert = refl

insert-Inserted_example :
    (r : Bool × Hash ℕ × Option (Node ℕ)) × (insert func matches true one 5 other_five false false
      ≡ done r)
    × Inserted func matches lawful true one 5 other_five r
unfolding flatten
insert-Inserted_example =
    insert-Inserted func matches lawful true one 5 other_five false false one-IsValid (omega arith)
      (omega arith) refl (λ e. refl) (λ e. absurd (ground (arith, e)))

find-of_insert_example :
    (h2 : Hash ℕ) × (insert func matches true bare 5 five false true
      ≡ done (true, h2, find func matches bare 5))
    × ((k : ℕ) → find func matches h2 k ≡ (if k == 5 then some five else find func matches bare k))
unfolding flatten
find-of_insert_example =
    find-of_insert func matches lawful bare 5 five false true bare-IsValid tt (omega arith) refl
      (λ e. refl) (λ e. refl)

remove_lem_example :
    (h2 : Hash ℕ) × (remove true one five ≡ done h2)
    × IsValid func matches h2
    × Permᴰ (five ∷ []) (five ∷ entries h2)
unfolding flatten
remove_lem_example =
    remove_lem func matches true one five [] one-IsValid (omega arith) (Permᴰ.refl (entries one))
      (λ e. refl, tt)

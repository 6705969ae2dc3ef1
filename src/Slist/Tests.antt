-- ===== src/Slist/Tests.antt =====
-- Lists at small inputs, and the theorems there.
use libdlb.Base.{ℕ, refl, [], ◌∷◌, arith}
use libdlb.Slist.{Slist, init, push, pop, append}
use libdlb.Slist.Nodes.{IsList, Popped, push-IsList, append-IsList, pop-Popped}

abbrev blank : ℕ → ℕ
blank a = 0

abbrev one : (ℕ → ℕ) × Slist
one = append 3 blank init

abbrev two : (ℕ → ℕ) × Slist
two = push 2 one.0 one.1

one-IsList : IsList one.0 one.1 (3 ∷ [])
one-IsList = append-IsList blank init 3 [] (refl, refl, tt) (omega arith) tt

two-IsList : IsList two.0 two.1 (2 ∷ 3 ∷ [])
two-IsList = push-IsList one.0 one.1 2 (3 ∷ []) one-IsList (omega arith) (ground arith)

three-IsList : IsList (append 9 two.0 two.1).0 (append 9 two.0 two.1).1 (2 ∷ 3 ∷ 9 ∷ [])
three-IsList = append-IsList two.0 two.1 9 (2 ∷ 3 ∷ []) two-IsList (omega arith) (ground arith)

popped : Popped two.0 two.1 (2 ∷ 3 ∷ []) (pop two.0 two.1)
popped = pop-Popped two.0 two.1 (2 ∷ 3 ∷ []) two-IsList

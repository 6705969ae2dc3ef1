-- ===== src/Links/Tests.antt =====
-- Lists at small inputs, and the theorems there. The head stands at 1.
use libdlb.Base.{◌≡◌, refl, [], ◌∷◌, arith}
use libdlb.Links.{Links, init, insert, remove}
use libdlb.Links.Ring.{IsRing}
use libdlb.Links.Lists.{insert_lem, remove_node_lem}
use libdlb.Links.Move.{init-IsRing}

abbrev blank : Links
blank = record { next = λ a. 0; prev = λ a. 0 }

-- 2 and 3 behind the head
abbrev two : Links
two = insert 3 1 (insert 2 1 (init 1 blank))

two_linked : (two.next 1 ≡ 2) × (two.next 2 ≡ 3) × (two.next 3 ≡ 1) × (two.prev 1 ≡ 3)
two_linked = (refl, refl, refl, refl)

two-IsRing : IsRing two 1 (2 ∷ 3 ∷ [])
two-IsRing =
    insert_lem (insert 2 1 (init 1 blank)) 1 3 (2 ∷ []) []
      (insert_lem (init 1 blank) 1 2 [] [] (init-IsRing blank 1) (ground arith)) (ground arith)

insert_lem_example : IsRing (insert 4 3 two) 1 (2 ∷ 4 ∷ 3 ∷ [])
insert_lem_example = insert_lem two 1 4 (2 ∷ []) (3 ∷ []) two-IsRing (ground arith)

remove_node_lem_example :
    IsRing (remove 2 two) 1 (3 ∷ []) × ((remove 2 two).next 2 ≡ 0) × ((remove 2 two).prev 2 ≡ 0)
remove_node_lem_example = remove_node_lem two 1 2 [] (3 ∷ []) two-IsRing

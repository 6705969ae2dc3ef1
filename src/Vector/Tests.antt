-- ===== src/Vector/Tests.antt =====
-- Vectors of two-byte elements at small inputs, and the theorems there.
use libdlb.Base.{ℕ, ◌-◌, ◌*◌, ◌<◌, ◌≡◌, refl, Bool, [], ◌∷◌, get_or, done, arith}
use libdlb.Base.Bits.{bit_and}
use libdlb.Base.Plenty.{plenty, plenty-IsRealloc}
use libdlb.Vector.{Vector, init, round_down, capacity_for, push, pop}
use libdlb.Vector.Contents.{IsValid, pop_lem}
use libdlb.Vector.Push.{Pushed, push-Pushed}

abbrev none_yet : Vector
none_yet = init 2

abbrev three : Vector
three = record { ptr = 1 ∷ 0 ∷ 2 ∷ 0 ∷ 3 ∷ 0 ∷ 0 ∷ 0 ∷ []; elemsize = 2; capacity = 4; size = 3 }

capacity_for_12 : capacity_for 12 ≡ done 16
unfolding capacity_for round_down bit_and
capacity_for_12 = refl

push-Pushed_example :
    (r : Bool × Vector) × (push plenty none_yet (7 ∷ 0 ∷ 9 ∷ 0 ∷ []) 2 ≡ done r)
    × Pushed plenty none_yet (7 ∷ 0 ∷ 9 ∷ 0 ∷ []) 2 r
push-Pushed_example =
    push-Pushed plenty none_yet (7 ∷ 0 ∷ 9 ∷ 0 ∷ []) 2 plenty-IsRealloc (omega arith, refl)
      (omega arith, omega arith) (omega arith)

pop_lem_example :
    (v : Vector) × (pop plenty three 5 ≡ done v)
    × IsValid v
    × (v.size ≡ 3 - 5)
    × ((i : ℕ) → i < v.size * 2 → get_or v.ptr i 0 ≡ get_or three.ptr i 0)
pop_lem_example =
    pop_lem plenty three 5 plenty-IsRealloc (omega arith, refl) (omega arith, omega arith)

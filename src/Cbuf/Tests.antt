-- ===== src/Cbuf/Tests.antt =====
-- The circular buffer at small inputs, and its theorems there.
use libdlb.Base.{ℕ, ◌≡◌, refl, List, [], ◌∷◌, ◌++◌, done, arith, length, take, drop}
use libdlb.Cbuf.{Cbuf, move_in, move_out, move, tail_advance, tail, tail_size, head_size}
use libdlb.Cbuf.Inv.{IsValid}
use libdlb.Cbuf.Contents.{contents}
use libdlb.Cbuf.MoveIn.{move_in-Adds}
use libdlb.Cbuf.MoveOut.{move_out-Drops}
use libdlb.Cbuf.Between.{move_lem}

-- 8 and 9, round the end of the area
abbrev wrapped : Cbuf
wrapped = record { mem = 9 ∷ 6 ∷ 7 ∷ 8 ∷ []; capacity = 4; head = 3; size = 2 }

abbrev fresh : Cbuf
fresh = record { mem = 0 ∷ 0 ∷ 0 ∷ []; capacity = 3; head = 2; size = 0 }

wrapped-IsValid : IsValid wrapped
wrapped-IsValid = omega arith

fresh-IsValid : IsValid fresh
fresh-IsValid = omega arith

contents-wrapped : contents wrapped ≡ 8 ∷ 9 ∷ []
contents-wrapped = refl

regions : (tail wrapped ≡ 1) × (tail_size wrapped ≡ 2) × (head_size wrapped ≡ 1)
unfolding tail tail_size head_size
regions = (refl, refl, refl)

-- two rounds, the second at the start of the area
move_in-fresh :
    move_in fresh (1 ∷ 2 ∷ 3 ∷ 4 ∷ []) 4
    ≡ done (3, record { mem = 2 ∷ 3 ∷ 1 ∷ []; capacity = 3; head = 2; size = 3 })
unfolding move_in tail tail_size tail_advance
move_in-fresh = refl

move_in-Adds_example :
    (c' : Cbuf) × (move_in wrapped (1 ∷ 2 ∷ 3 ∷ []) 3 ≡ done (2, c'))
    × IsValid c'
    × (contents c' ≡ 8 ∷ 9 ∷ 1 ∷ 2 ∷ [])
move_in-Adds_example = move_in-Adds (1 ∷ 2 ∷ 3 ∷ []) 3 wrapped-IsValid (omega arith) (omega arith)

move_out-Drops_example :
    (c' : Cbuf) × (out : List ℕ) × (move_out wrapped (0 ∷ 5 ∷ []) 1 ≡ done (1, c', out))
    × IsValid c'
    × (8 ∷ 9 ∷ [] ≡ take 1 out ++ contents c')
    × (drop 1 out ≡ 5 ∷ [])
move_out-Drops_example = move_out-Drops (0 ∷ 5 ∷ []) 1 wrapped-IsValid (omega arith) (omega arith)

move_lem_example :
    (dst' : Cbuf) × (src' : Cbuf) × (moved : List ℕ) × (move fresh wrapped 0 ≡ done (2, dst', src'))
    × IsValid dst'
    × IsValid src'
    × (length moved ≡ 2)
    × (8 ∷ 9 ∷ [] ≡ moved ++ contents src')
    × (contents dst' ≡ moved)
move_lem_example = move_lem 0 fresh-IsValid wrapped-IsValid (omega arith)

-- ===== src/Strlcpy/Tests.antt =====
-- A copy that is cut.
use libdlb.Base.{ℕ, ◌≡◌, refl, ◌<◌, ◌+◌, List, [], ◌∷◌, length, get_or, done, arith}
use libdlb.Strlcpy.{strlcat}
use libdlb.Strlcpy.Laws.{strlcat_lem}

abbrev area : List ℕ
area = 9 ∷ 9 ∷ 9 ∷ 9 ∷ []

-- `5` with `6 7` behind it, in three bytes
strlcat_lem_example :
    (out : List ℕ) × (strlcat (5 ∷ 0 ∷ 9 ∷ 9 ∷ []) (6 ∷ 7 ∷ 0 ∷ []) 3 ≡ done (3, out))
    × (length out ≡ 4)
    × ((i : ℕ) → i < 1 → get_or out i 0 ≡ get_or (5 ∷ 0 ∷ 9 ∷ 9 ∷ []) i 0)
    × ((i : ℕ) → i < 1 → get_or out (1 + i) 0 ≡ get_or (6 ∷ 7 ∷ 0 ∷ []) i 0)
    × (get_or out 2 0 ≡ 0)
strlcat_lem_example =
    strlcat_lem (5 ∷ []) (9 ∷ 9 ∷ []) (6 ∷ 7 ∷ []) [] 3 (refl, tt) (refl, (refl, tt)) (omega arith)
      (omega arith) (omega arith) (omega arith)

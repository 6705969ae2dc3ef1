-- ===== src/Bytes/Tests.antt =====
-- Byte order at small inputs, and the theorems there.
use libdlb.Base.{ℕ, ◌≡◌, List, [], ◌∷◌, done, ◌>>=◌, arith}
use libdlb.Bytes.{r64le, r64net, w64le, w64net}
use libdlb.Bytes.Words64.{round_trip_64}

abbrev nine : List ℕ
nine = 1 ∷ 2 ∷ 3 ∷ 4 ∷ 5 ∷ 6 ∷ 7 ∷ 8 ∷ 9 ∷ []

round_trip_64_example :
    ((w64le nine 0x1122 >>= r64le) ≡ done 0x1122) × ((w64net nine 0x1122 >>= r64net) ≡ done 0x1122)
round_trip_64_example = round_trip_64 nine 0x1122 (omega arith) (omega arith)

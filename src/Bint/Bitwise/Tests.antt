-- ===== src/Bint/Bitwise/Tests.antt =====
-- Bits at small inputs, and the theorems there.
use libdlb.Base.{ℕ, ◌≡◌, refl, true, false, not, ◌&&◌, ◌||◌, [], ◌∷◌, replicate, ◌==◌, arith}
use libdlb.Bint.{Bint}
use libdlb.Bint.Value.{IsDigits}
use libdlb.Bint.Bitwise.{bit_get, bit_set, bit_clear, bit_differs, or, xor}
use libdlb.Bint.Bitwise.Access.{ReadsSet, bit_get-bit_set}
use libdlb.Bint.Bitwise.Laws.{Combined, or_xor-Combined}

abbrev short : Bint
short = record { negative = true; digits = (12 ∷ replicate 3 0) ∷ [] }

abbrev long : Bint
long = record { negative = false; digits = (10 ∷ replicate 3 0) ∷ (1 ∷ replicate 3 0) ∷ [] }

short-IsDigits : IsDigits short.digits
short-IsDigits = (((refl, (omega arith, (omega arith, (omega arith, (omega arith, tt))))), tt), tt)

long-IsDigits : IsDigits long.digits
long-IsDigits = (
  (
    (refl, (omega arith, (omega arith, (omega arith, (omega arith, tt))))),
    ((refl, (omega arith, (omega arith, (omega arith, (omega arith, tt))))), tt),
  ),
  omega arith,
)

bit_get-bit_set_example :
    ReadsSet (true ∷ []) short.digits 130 (bit_set (true ∷ []) short.digits 130)
    × ((i : ℕ)
        → bit_get (bit_clear short.digits 130) i ≡ (bit_get short.digits i && not (i == 130)))
bit_get-bit_set_example = bit_get-bit_set (true ∷ []) short.digits 130 short-IsDigits

or_xor-Combined_example :
    Combined (◌||◌) (true ∷ []) short long (or (true ∷ []) short long)
    × Combined bit_differs (true ∷ []) short long (xor (true ∷ []) short long)
or_xor-Combined_example = or_xor-Combined (true ∷ []) short long short-IsDigits long-IsDigits

-- ===== src/Bint/Tests.antt =====
-- Big integers at small inputs, and the theorems there.
use Prim.Native.Nat.{compare as order}
use libdlb.Base.{
  ℕ, ◌+◌, ◌-◌, ◌*◌, ◌^◌, ◌<◌, ◌≡◌, refl, Bool, true, false, [], ◌∷◌, replicate, done, arith,
}
use libdlb.Bint.{Chunk, Bint}
use libdlb.Bint.Value.{AreWords}
use libdlb.Bint.Signed.{compare, add, sub}
use libdlb.Bint.Signed.Compare.{compare_lem}
use libdlb.Bint.Signed.Difference.{IsBint, Gives}
use libdlb.Bint.Signed.Sum.{add-Gives, sub-Gives}
use libdlb.Bint.Multiply.{mul}
use libdlb.Bint.Multiply.Product.{Multiplied, mul_short-Multiplied}

abbrev pub full : ℕ
full = 2 ^ 32 - 1

abbrev pub full_chunk : Chunk
full_chunk = replicate 4 full

-- 2 ^ 128 + 7, with the sign
abbrev large : Bool → Bint
large x = record { negative = x; digits = (7 ∷ 0 ∷ 0 ∷ 0 ∷ []) ∷ (1 ∷ 0 ∷ 0 ∷ 0 ∷ []) ∷ [] }

-- 2 ^ 128 - 1
abbrev ones : Bool → Bint
ones x = record { negative = x; digits = full_chunk ∷ [] }

pub words :
    (a b c d : ℕ)
    → a < 2 ^ 32
    → b < 2 ^ 32
    → c < 2 ^ 32
    → d < 2 ^ 32
    → AreWords (a ∷ b ∷ c ∷ d ∷ [])
words a b c d h i j k = (h, (i, (j, (k, tt))))

large-IsBint : (x : Bool) → IsBint (large x)
large-IsBint x = (
  (
    (
      (refl, words 7 0 0 0 (omega arith) (omega arith) (omega arith) (omega arith)),
      ((refl, words 1 0 0 0 (omega arith) (omega arith) (omega arith) (omega arith)), tt),
    ),
    omega arith,
  ),
  omega arith,
)

ones-IsBint : (x : Bool) → IsBint (ones x)
ones-IsBint x = (
  (
    ((refl, words full full full full (omega arith) (omega arith) (omega arith) (omega arith)), tt),
    tt,
  ),
  omega arith,
)

add-Gives_example :
    Gives (true ∷ []) (ones false) (2 * (2 ^ 128 - 1)) 0 (add (true ∷ []) (ones false) (ones false))
add-Gives_example =
    add-Gives (true ∷ []) (ones false) (ones false) (ones-IsBint false) (ones-IsBint false)
      (λ e. tt)

sub-Gives_example :
    Gives [] (ones false) (2 ^ 128 - 1) (2 ^ 128 + 7) (sub [] (ones false) (large false))
sub-Gives_example =
    sub-Gives [] (ones false) (large false) (ones-IsBint false) (large-IsBint false) (λ e. tt)

mul_short-Multiplied_example :
    (o : Bool × Bint) × (mul (true ∷ []) (ones false) (ones true) (large false) ≡ done o)
    × Multiplied (true ∷ []) (ones false) 0 ((2 ^ 128 - 1) * (2 ^ 128 + 7)) o
mul_short-Multiplied_example =
    mul_short-Multiplied (true ∷ []) (ones false) (ones true) (large false) (ones-IsBint false).0
      (ones-IsBint true) (large-IsBint false) refl

compare_lem_example : compare (ones true) (large true) ≡ order (2 ^ 128 + 7) (2 ^ 128 - 1)
compare_lem_example =
    compare_lem (ones true) (large true) (ones-IsBint true).0 (large-IsBint true).0
      (λ e. omega arith) (λ e. omega arith)

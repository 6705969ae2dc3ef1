-- ===== src/Bint/Digit/Tests.antt =====
-- Digits at small inputs.
use libdlb.Base.{ℕ, ◌≡◌, refl, true, false, [], ◌∷◌, replicate, arith}
use libdlb.Bint.{
  Bint, extend_length, bit_length, top_bits, bits, trim_chunks, drop_zero, chunk_is_zero,
}
use libdlb.Bint.Signed.Difference.{IsBint}
use libdlb.Bint.Digit.{
  digit_push, digit_pop, multiply_components, multiply_chunks, add_to_components, add_digit,
}
use libdlb.Bint.Digit.RoundTrip.{digit_pop-push}

abbrev small : ℕ → Bint
small n = record { negative = false; digits = (n ∷ replicate 3 0) ∷ [] }

five-IsBint : IsBint (small 5)
five-IsBint = (
  (((refl, (omega arith, (omega arith, (omega arith, (omega arith, tt))))), tt), tt),
  omega arith,
)

pushed_three : digit_push [] (small 5) 10 3 ≡ (true, small 53)
unfolding digit_push multiply_components multiply_chunks add_to_components add_digit extend_length
    bit_length top_bits bits trim_chunks drop_zero chunk_is_zero
pushed_three = refl

digit_pop-push_example : digit_pop (small 53) 10 ≡ (small 5, 3)
digit_pop-push_example =
    digit_pop-push [] (small 5) (small 53) 10 3 five-IsBint (omega arith) (omega arith) pushed_three

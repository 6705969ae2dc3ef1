-- ===== src/Bint/Digit.antt =====
-- `bint_digit_push` and `bint_digit_pop` of src/bint.c, which multiply and divide by a small base.
mod Tests
pub mod Push
pub mod Pop
pub mod RoundTrip
use libdlb.Base.{
  ℕ, ◌+◌, ◌*◌, ◌/◌, ◌%◌, ◌^◌, Bool, true, false, List, [], ◌∷◌, reverse, ltb, ◌==◌, if◌then◌else◌,
}
use libdlb.Base.Words.{u32, u64}
use libdlb.Bint.{Chunk, Bint, bits, bit_length, extend_length, trim_chunks}

-- the short multiplication of a chunk, and the carry that it leaves
pub multiply_components : ℕ → List ℕ → ℕ → List ℕ × ℕ
multiply_components base [] carry = ([], carry)
multiply_components base (c ∷ cs) carry =
    let d = u64 (u64 (c * base) + carry) in
    let (rest, k) = multiply_components base cs (u32 (d / 2 ^ 32)) in (u32 d ∷ rest, k)

pub multiply_chunks : ℕ → List Chunk → ℕ → List Chunk
multiply_chunks base [] carry = []
multiply_chunks base (c ∷ cs) carry =
    let (r, k) = multiply_components base c carry in r ∷ multiply_chunks base cs k

-- the loop over the components of a chunk that adds the digit
pub add_to_components : List ℕ → ℕ → List ℕ × ℕ
add_to_components [] carry = ([], carry)
add_to_components (c ∷ cs) carry =
    let d = u64 (c + carry) in
    let (rest, k) = add_to_components cs (u32 (d / 2 ^ 32)) in (u32 d ∷ rest, k)

-- `for (c = &b->digits; c && carry; c = c->next)`
pub add_digit : List Chunk → ℕ → List Chunk
add_digit [] carry = []
add_digit (c ∷ cs) carry =
    let (r, k) = add_to_components c carry in
    let rest = add_digit cs k in if carry == 0 then c ∷ cs else r ∷ rest

-- Whether `bint_digit_push` returns 0, and `b`.
pub digit_push : List Bool → Bint → ℕ → ℕ → Bool × Bint
digit_push answers b base digit =
    let (ok, wide) =
      extend_length answers b.digits (u32 (u32 (bit_length b.digits + bits 32 base) + 1)) in
    if ltb digit base
    then (if ok
        then (
          true,
          record b { digits = trim_chunks (add_digit (multiply_chunks base wide 0) digit) },
        )
        else (false, record b { digits = wide }))
    else (false, b)

-- the short division of components that come highest first, and the remainder
pub divide_components : ℕ → List ℕ → ℕ → List ℕ × ℕ
divide_components base [] remainder = ([], remainder)
divide_components base (c ∷ cs) remainder =
    let d = u64 (c + u64 (remainder * 2 ^ 32)) in
    let (rest, k) = divide_components base cs (d % base) in (u32 (d / base) ∷ rest, k)

-- the loop over the chain that `reverse_chain` turned round
pub divide_chunks : ℕ → List Chunk → ℕ → List Chunk × ℕ
divide_chunks base [] remainder = ([], remainder)
divide_chunks base (c ∷ cs) remainder =
    let (r, k) = divide_components base (reverse c) remainder in
    let (rest, k2) = divide_chunks base cs k in (reverse r ∷ rest, k2)

-- `b`, and what `bint_digit_pop` returns.
pub digit_pop : Bint → ℕ → Bint × ℕ
digit_pop b base =
    let (qs, remainder) = divide_chunks base (reverse b.digits) 0 in
    if base == 0 then (b, 0) else (record b { digits = trim_chunks (reverse qs) }, u32 remainder)

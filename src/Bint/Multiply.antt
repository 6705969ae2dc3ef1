-- ===== src/Bint/Multiply.antt =====
-- `chunk_mac` and `bint_mul` of src/bint.c, for a result that is neither of the factors.
mod Tests
pub mod Chunks
pub mod Rows
pub mod Product
use Prim.Native.Nat.{Ordering}
use libdlb.Base.{
  ℕ, ◌+◌, ◌*◌, ◌/◌, ◌%◌, ◌^◌, Bool, true, false, Option, none, some, List, [], ◌∷◌, ◌++◌, map,
  replicate, ◌==◌, if◌then◌else◌, Outcome, done, fault, ◌>>=◌,
}
use libdlb.Base.Words.{u32, u64}
use libdlb.Bint.{Chunk, Bint, zero_chunk, bit_length, extend_length}
use libdlb.Bint.Signed.{get_sign, set_sign}

-- the chunk and the carry that came in, without the carry out of the last component
pub add_carry : List ℕ → List ℕ → ℕ → List ℕ
add_carry (r ∷ rs) (c ∷ cs) carry =
    let rd = u64 (u64 (r + c) + carry) in u32 rd ∷ add_carry rs cs (u32 (rd / 2 ^ 32))
add_carry _ _ carry = []

-- `while (carry && (i + j) < BINT_CHUNK_SIZE * 2)`
pub carry_up : List ℕ → ℕ → List ℕ
carry_up [] carry = []
carry_up (m ∷ ms) carry =
    let r = u64 (m + carry) in
    let rest = carry_up ms (u32 (r / 2 ^ 32)) in if carry == 0 then m ∷ ms else u32 r ∷ rest

-- What one component `ad` of the first factor does to `mm` from its own place up.
pub multiply_component : ℕ → List ℕ → List ℕ → ℕ → List ℕ
multiply_component ad (bd ∷ bs) (m ∷ ms) carry =
    let r = u64 (u64 (u64 (ad * bd) + m) + carry) in
    u32 r ∷ multiply_component ad bs ms (u32 (r / 2 ^ 32))
multiply_component ad [] ms carry = carry_up ms carry
multiply_component ad (bd ∷ bs) [] carry = []

-- the part of the list that is in its final state, one component for each one of `a`, comes first
pub above_first : (List ℕ → List ℕ) → List ℕ → List ℕ
above_first f [] = []
above_first f (m ∷ ms) = m ∷ f ms

-- `for (i = 0; i < BINT_CHUNK_SIZE; i++)`
pub multiply_components : List ℕ → List ℕ → List ℕ → List ℕ
multiply_components [] b mm = mm
multiply_components (ad ∷ a) b mm =
    above_first (multiply_components a b) (multiply_component ad b mm 0)

-- the first components as many as BINT_CHUNK_SIZE, and the others
pub split_chunk : List ℕ → Chunk × Chunk
split_chunk (a ∷ b ∷ c ∷ d ∷ ms) = (a ∷ b ∷ c ∷ d ∷ [], ms)
split_chunk ms = (ms, [])

-- `r` and `carry_inout`; NULL for a factor is none.
pub chunk_mac : Option Chunk → Option Chunk → Chunk → Chunk → Chunk × Chunk
chunk_mac (some a) (some b) r carry =
    split_chunk (multiply_components a b (add_carry r carry 0 ++ zero_chunk))
chunk_mac _ _ r carry = split_chunk (add_carry r carry 0 ++ zero_chunk)

-- `while (rcs)`
pub carry_chunks : List Chunk → Chunk → List Chunk
carry_chunks [] carry = []
carry_chunks (rc ∷ rcs) carry = let (r, k) = chunk_mac none none rc carry in r ∷ carry_chunks rcs k

-- The loop over `b` and what follows, which writes through `rcs`: a fault if that is NULL.
pub multiply_chunk : Chunk → List Chunk → List Chunk → Chunk → Outcome (List Chunk)
multiply_chunk ac (bc ∷ b) (rc ∷ rcs) carry =
    let (r, k) = chunk_mac (some ac) (some bc) rc carry in
    multiply_chunk ac b rcs k >>= λ rest. done (r ∷ rest)
multiply_chunk ac [] rcs carry = done (carry_chunks rcs carry)
multiply_chunk ac (bc ∷ b) [] carry = fault

-- `rc = rc->next`, a fault if `rc` is NULL
pub above_first_chunk : (List Chunk → Outcome (List Chunk)) → List Chunk → Outcome (List Chunk)
above_first_chunk f [] = fault
above_first_chunk f (r ∷ rs) = f rs >>= λ rest. done (r ∷ rest)

-- the loop over `a`
pub multiply_chunks : List Chunk → List Chunk → List Chunk → Outcome (List Chunk)
multiply_chunks [] b rs = done rs
multiply_chunks (ac ∷ a) b rs =
    multiply_chunk ac b rs zero_chunk >>= above_first_chunk (multiply_chunks a b)

-- whether the product of two signs is negative
abbrev pub opposite : Ordering → Ordering → Bool
opposite Ordering.lt Ordering.gt = true
opposite Ordering.gt Ordering.lt = true
opposite _ _ = false

-- Whether `bint_mul` returns 0, and `result`.
pub mul : List Bool → Bint → Bint → Bint → Outcome (Bool × Bint)
mul answers result a b =
    let (ok, wide) =
      extend_length answers result.digits (u32 (bit_length a.digits + bit_length b.digits)) in
    let cleared = map (λ c. zero_chunk) wide in
    let sign = opposite (get_sign a) (get_sign b) in
    if ok
    then (multiply_chunks a.digits b.digits cleared >>= λ digits.
        done (true, set_sign (record result { digits = digits }) sign))
    else done (false, record result { digits = wide })

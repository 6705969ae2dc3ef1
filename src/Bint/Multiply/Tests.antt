-- ===== src/Bint/Multiply/Tests.antt =====
-- What `bint_mul` does with a carry out of a chunk.
use libdlb.Base.{ℕ, List, Outcome, done, ◌+◌, ◌-◌, ◌*◌, ◌^◌, ◌≡◌, refl, [], ◌∷◌, replicate}
use libdlb.Bint.{Chunk, zero_chunk}
use libdlb.Bint.Value.{magnitude}
use libdlb.Bint.Multiply.{
  add_carry, carry_up, multiply_component, above_first, multiply_components, split_chunk, chunk_mac,
  carry_chunks, multiply_chunk, above_first_chunk, multiply_chunks,
}

abbrev full_chunk : Chunk
full_chunk = replicate 4 (2 ^ 32 - 1)

abbrev product_of : Outcome (List Chunk) → ℕ
product_of (done rs) = magnitude rs
product_of o = 0

-- The carry out of the sum of a chunk and the carry into it is lost: the square of 2 ^ 256 - 1 is 2 ^ 384 short.
lost_product :
    product_of (
        multiply_chunks
          (full_chunk ∷ full_chunk ∷ [])
          (full_chunk ∷ full_chunk ∷ [])
          (replicate 4 zero_chunk))
      + 2 ^ 384
    ≡ (2 ^ 256 - 1) * (2 ^ 256 - 1)
unfolding add_carry carry_up multiply_component above_first multiply_components split_chunk
    chunk_mac carry_chunks multiply_chunk above_first_chunk multiply_chunks
lost_product = refl

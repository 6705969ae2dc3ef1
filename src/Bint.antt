-- ===== src/Bint.antt =====
-- The big integers of src/bint.c and src/bint.h. A chunk is the list of its `BINT_CHUNK_SIZE`
-- components of 32 bits, lowest first. `digits` is the chain: the chunk inside the structure, which
-- is always there, and then those that `next` links. What `bint_chunk_alloc` returns is a parameter:
-- the answers to the calls that an operation makes, in order, and NULL when they are used up.
pub mod Value
mod Tests
pub mod Chain
pub mod Length
pub mod Magnitude
pub mod Signed
pub mod Digit
pub mod Multiply
pub mod Bitwise
use Prim.Native.Nat.{compare, Ordering}
use libdlb.Base.{
  ℕ, zero, suc, ◌+◌, ◌-◌, ◌*◌, ◌/◌, ◌%◌, ◌^◌, Bool, true, false, ◌&&◌, Option, none, some, List, [],
  ◌∷◌, ◌++◌, reverse, length, get_or, replicate, ltb, ◌==◌, if◌then◌else◌,
}

abbrev pub chunk_size : ℕ
chunk_size = 4

abbrev pub chunk_bits : ℕ
chunk_bits = 128

abbrev pub Chunk : Type 0
Chunk = List ℕ

abbrev pub zero_chunk : Chunk
zero_chunk = replicate chunk_size 0

pub record Bint : Type 0 where
  pub negative : Bool
  pub digits : List Chunk

-- NULL is none; a chain of no chunks is `some []`.
pub alloc_chain : List Bool → ℕ → Option (List Chunk)
alloc_chain answers zero = some []
alloc_chain [] (suc n) = none
alloc_chain (false ∷ answers) (suc n) = none
alloc_chain (true ∷ answers) (suc n) = elim (alloc_chain answers n) [
  | none ↦ none
  | some cs ↦ some (zero_chunk ∷ cs)
]

pub chunk_is_zero : Chunk → Bool
chunk_is_zero [] = true
chunk_is_zero (d ∷ ds) = d == 0 && chunk_is_zero ds

-- `is_zero`, of the chain
pub is_zero : List Chunk → Bool
unfolding chunk_is_zero
is_zero (c ∷ []) = chunk_is_zero c
is_zero _ = false

-- `while (stack && chunk_is_zero(stack))`
pub drop_zero : List Chunk → List Chunk
unfolding chunk_is_zero
drop_zero [] = []
drop_zero (c ∷ cs) = let rest = drop_zero cs in if chunk_is_zero c then rest else c ∷ cs

pub trim_chunks : List Chunk → List Chunk
unfolding drop_zero
trim_chunks [] = []
trim_chunks (c ∷ next) = c ∷ reverse (drop_zero (reverse next))

-- Whether `extend_length` returns 0, and the chain.
pub extend_length : List Bool → List Chunk → ℕ → Bool × List Chunk
unfolding alloc_chain
extend_length answers [] count = (true, [])
extend_length answers (c ∷ []) count =
    if ltb count chunk_bits
    then (true, c ∷ [])
    else elim (alloc_chain answers (count / chunk_bits)) [
      | none ↦ (false, c ∷ [])
      | some new ↦ (true, c ∷ new)
    ]
extend_length answers (c ∷ d ∷ cs) count =
    let (ok, rest) = extend_length answers (d ∷ cs) (count - chunk_bits) in
    if ltb count chunk_bits then (true, c ∷ d ∷ cs) else (ok, c ∷ rest)

-- `while (d) { d >>= 1; length++; }`. A component is 0 after at most 32 rounds.
pub bits : ℕ → ℕ → ℕ
bits zero d = 0
bits (suc rounds) d = let rest = bits rounds (d / 2) in if d == 0 then 0 else suc rest

-- The index of the highest component that is not 0, in bits, and what is above it; 0 if all are 0.
-- The components come highest first.
pub top_bits : List ℕ → ℕ
top_bits [] = 0
top_bits (d ∷ ds) = let rest = top_bits ds in if d == 0 then rest else length ds * 32 + bits 32 d

-- whether the last chunk of a chain has no component that is not 0
pub ends_in_zero : Chunk → List Chunk → Bool
unfolding chunk_is_zero
ends_in_zero c [] = chunk_is_zero c
ends_in_zero c (d ∷ cs) = ends_in_zero d cs

-- `bint_bit_length`, where an `unsigned int` wraps: 0 if the last chunk is all zero, however many there
-- are
pub bit_length : List Chunk → ℕ
unfolding top_bits ends_in_zero
bit_length [] = 0
bit_length (c ∷ []) = top_bits (reverse c)
bit_length (c ∷ d ∷ cs) =
    let rest = (chunk_bits + bit_length (d ∷ cs)) % 2 ^ 32 in if ends_in_zero d cs then 0 else rest

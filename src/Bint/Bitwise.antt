-- ===== src/Bint/Bitwise.antt =====
-- The bits of src/bint.c: `bint_bit_get`, `bint_bit_set`, `bint_bit_clear`, `bint_or`, `bint_and`,
-- `bint_bic` and `bint_xor`, for two numbers that share no memory.
pub mod Words
pub mod Get
pub mod Zip
pub mod Laws
pub mod Change
pub mod OneBit
pub mod Access
mod Tests
use libdlb.Base.{
  ℕ, zero, suc, ◌+◌, ◌-◌, ◌*◌, ◌/◌, ◌%◌, ◌^◌, Bool, true, false, not, ◌&&◌, ◌||◌, Option, none,
  some, List, [], ◌∷◌, length, get_or, set, ltb, ◌==◌, if◌then◌else◌,
}
use libdlb.Bint.{Chunk, Bint, chunk_bits, chunk_is_zero, alloc_chain, trim_chunks}

abbrev pub odd : ℕ → Bool
odd d = d % 2 == 1

-- An operator on the bits of two `w`-bit words, lowest first.
pub bitwise : (Bool → Bool → Bool) → ℕ → ℕ → ℕ → ℕ
bitwise f zero a b = 0
bitwise f (suc w) a b = (if f (odd a) (odd b) then 1 else 0) + 2 * bitwise f w (a / 2) (b / 2)

-- `a & ~b`
abbrev pub bit_without : Bool → Bool → Bool
bit_without a b = a && not b

abbrev pub bit_differs : Bool → Bool → Bool
bit_differs a b = if a then not b else b

-- `c->data[pos / COMPONENT_BITS] & (1 << (pos % COMPONENT_BITS))`
pub test_bit : Chunk → ℕ → Bool
test_bit c pos = not (bitwise (◌&&◌) 32 (get_or c (pos / 32) 0) (2 ^ (pos % 32)) == 0)

-- whether it returns 1
pub bit_get : List Chunk → ℕ → Bool
bit_get [] pos = false
bit_get (c ∷ cs) pos =
    let rest = bit_get cs (pos - chunk_bits) in if ltb pos chunk_bits then test_bit c pos else rest

-- the component with the bit, changed by `|=` or `&= ~`
pub change_bit : (Bool → Bool → Bool) → Chunk → ℕ → Chunk
change_bit f c pos = set c (pos / 32) (bitwise f 32 (get_or c (pos / 32) 0) (2 ^ (pos % 32)))

-- `while (c->next) c = c->next;`, and the bit there
pub set_last : List Chunk → ℕ → List Chunk
set_last [] pos = []
set_last (c ∷ []) pos = change_bit (◌||◌) c pos ∷ []
set_last (c ∷ d ∷ cs) pos = c ∷ set_last (d ∷ cs) pos

-- Whether `bint_bit_set` returns 0, and the chain.
pub bit_set : List Bool → List Chunk → ℕ → Bool × List Chunk
bit_set answers [] pos = (true, [])
bit_set answers (c ∷ []) pos =
    if ltb pos chunk_bits
    then (true, change_bit (◌||◌) c pos ∷ [])
    else elim (alloc_chain answers (pos / chunk_bits)) [
      | none ↦ (false, c ∷ [])
      | some new ↦ (true, c ∷ set_last new (pos % chunk_bits))
    ]
bit_set answers (c ∷ d ∷ cs) pos =
    let (ok, rest) = bit_set answers (d ∷ cs) (pos - chunk_bits) in
    if ltb pos chunk_bits then (true, change_bit (◌||◌) c pos ∷ d ∷ cs) else (ok, c ∷ rest)

-- Whether the chunk with the bit is the last one, and the chain.
pub clear_loop : List Chunk → ℕ → Bool × List Chunk
clear_loop [] pos = (false, [])
clear_loop (c ∷ cs) pos =
    let (last, rest) = clear_loop cs (pos - chunk_bits) in
    if ltb pos chunk_bits
    then (length cs == 0, change_bit bit_without c pos ∷ cs)
    else (last, c ∷ rest)

pub bit_clear : List Chunk → ℕ → List Chunk
bit_clear cs pos = let (last, rest) = clear_loop cs pos in if last then trim_chunks rest else rest

-- Whether `bint_or` and `bint_xor` find the memory for a chain as long as that of `src`, and the
-- chain of `dst`.
pub extend_like : List Bool → List Chunk → List Chunk → Bool × List Chunk
extend_like answers (d ∷ e ∷ dc) (s ∷ t ∷ sc) =
    let (ok, rest) = extend_like answers (e ∷ dc) (t ∷ sc) in (ok, d ∷ rest)
extend_like answers (d ∷ []) (s ∷ t ∷ sc) = elim (alloc_chain answers (length (t ∷ sc))) [
  | none ↦ (false, d ∷ [])
  | some new ↦ (true, d ∷ new)
]
extend_like answers dc sc = (true, dc)

pub zip_words : (Bool → Bool → Bool) → List ℕ → List ℕ → List ℕ
zip_words f (d ∷ ds) (s ∷ ss) = bitwise f 32 d s ∷ zip_words f ds ss
zip_words f _ _ = []

-- The loop over both chains: `need_trim`, which is whether the last chunk that it came to is all
-- zero, and the chain of `dst`.
pub zip_chunks : (Bool → Bool → Bool) → List Chunk → List Chunk → Bool → Bool × List Chunk
zip_chunks f (d ∷ dc) (s ∷ sc) need_trim =
    let r = zip_words f d s in
    let (last, rest) = zip_chunks f dc sc (chunk_is_zero r) in (last, r ∷ rest)
zip_chunks f dc _ need_trim = (need_trim, dc)

-- The loop of `bint_and`, which ends the chain of `dst` where that of `src` ends.
pub and_chunks : List Chunk → List Chunk → Bool → Bool × List Chunk
and_chunks (d ∷ dc) (s ∷ []) need_trim = let r = zip_words (◌&&◌) d s in (chunk_is_zero r, r ∷ [])
and_chunks (d ∷ dc) (s ∷ t ∷ sc) need_trim =
    let r = zip_words (◌&&◌) d s in
    let (last, rest) = and_chunks dc (t ∷ sc) (chunk_is_zero r) in (last, r ∷ rest)
and_chunks dc _ need_trim = (need_trim, dc)

-- `if (need_trim) trim_chunks(dst);`
pub trim_if : Bool × List Chunk → List Chunk
trim_if (need_trim, cs) = if need_trim then trim_chunks cs else cs

-- Whether each of the following returns 0, and `dst`.
pub or : List Bool → Bint → Bint → Bool × Bint
or answers dst src =
    let (ok, wide) = extend_like answers dst.digits src.digits in
    if ok
    then (true, record dst { digits = (zip_chunks (◌||◌) wide src.digits false).1 })
    else (false, record dst { digits = wide })

pub xor : List Bool → Bint → Bint → Bool × Bint
xor answers dst src =
    let (ok, wide) = extend_like answers dst.digits src.digits in
    if ok
    then (true, record dst { digits = trim_if (zip_chunks bit_differs wide src.digits false) })
    else (false, record dst { digits = wide })

-- `dst`
pub and : Bint → Bint → Bint
and dst src = record dst { digits = trim_if (and_chunks dst.digits src.digits false) }

pub bic : Bint → Bint → Bint
bic dst src = record dst { digits = trim_if (zip_chunks bit_without dst.digits src.digits false) }

-- ===== src/Bint/Magnitude.antt =====
-- `mag_cmp`, `mag_add`, `mag_sub` and `do_subtract` of src/bint.c, on chains. The result of a
-- comparison, -1, 0 or 1, is `lt`, `eq` or `gt`.
mod Tests
pub mod Compare
pub mod Add
pub mod Subtract
use Prim.Native.Nat.{compare, Ordering}
use libdlb.Base.{
  ℕ, zero, suc, ◌+◌, ◌-◌, ◌*◌, ◌/◌, ◌%◌, ◌^◌, Bool, true, false, not, List, [], ◌∷◌, reverse, ltb,
  ◌==◌, if◌then◌else◌,
}
use libdlb.Base.Words.{u32, u64}
use libdlb.Bint.{Chunk, Bint, extend_length, trim_chunks, bit_length}

-- `compare_chunk`, of components that come highest first
pub compare_top : List ℕ → List ℕ → Ordering
compare_top (a ∷ as_rest) (b ∷ bs) =
    let rest = compare_top as_rest bs in
    if ltb a b then Ordering.lt else if ltb b a then Ordering.gt else rest
compare_top _ _ = Ordering.eq

pub compare_chunk : Chunk → Chunk → Ordering
compare_chunk a b = compare_top (reverse a) (reverse b)

-- `if (diff) last_diff = diff;`
abbrev pub latest : Ordering → Ordering → Ordering
latest Ordering.eq last_diff = last_diff
latest diff last_diff = diff

pub mag_cmp_loop : List Chunk → List Chunk → Ordering → Ordering
mag_cmp_loop (a ∷ ca) (b ∷ cb) last_diff = mag_cmp_loop ca cb (latest (compare_chunk a b) last_diff)
mag_cmp_loop (a ∷ ca) [] last_diff = Ordering.gt
mag_cmp_loop [] (b ∷ cb) last_diff = Ordering.lt
mag_cmp_loop [] [] last_diff = last_diff

pub mag_cmp : List Chunk → List Chunk → Ordering
mag_cmp a b = mag_cmp_loop a b Ordering.eq

-- `if (carry) r++;`
abbrev pub with_carry : ℕ → ℕ → ℕ
with_carry carry r = if carry == 0 then r else u64 (r + 1)

-- `if (borrow) r--;`
abbrev pub with_borrow : ℕ → ℕ → ℕ
with_borrow borrow r = if borrow == 0 then r else u64 (r + 2 ^ 64 - 1)

-- The loop over the components of two chunks, and the carry that it leaves.
pub add_components : List ℕ → List ℕ → ℕ → List ℕ × ℕ
add_components (d ∷ ds) (c ∷ cs) carry =
    let r = with_carry carry (u64 (d + c)) in
    let (rest, k) = add_components ds cs (r / 2 ^ 32) in (u32 r ∷ rest, k)
add_components _ _ carry = ([], carry)

-- The loop over the components that the carry goes through. `r & (1LL << COMPONENT_BITS)` is bit 32
-- in its place, and its conversion to an `int` keeps the 32 bits below.
pub carry_components : List ℕ → ℕ → List ℕ × ℕ
carry_components (d ∷ ds) carry =
    let r = with_carry carry d in
    let (rest, k) = carry_components ds (u32 (r / 2 ^ 32 % 2 * 2 ^ 32)) in (u32 r ∷ rest, k)
carry_components [] carry = ([], carry)

-- `while (carry && dc)`
pub carry_through : List Chunk → ℕ → List Chunk
carry_through [] carry = []
carry_through (d ∷ dc) carry =
    let (r, k) = carry_components d carry in
    let rest = carry_through dc k in if carry == 0 then d ∷ dc else r ∷ rest

-- `while (dc && sc)`, and what follows
pub add_chains : List Chunk → List Chunk → ℕ → List Chunk
add_chains [] sc carry = []
add_chains (d ∷ dc) [] carry = carry_through (d ∷ dc) carry
add_chains (d ∷ dc) (s ∷ sc) carry = let (r, k) = add_components d s carry in r ∷ add_chains dc sc k

abbrev pub greater : ℕ → ℕ → ℕ
greater a b = if ltb b a then a else b

-- Whether `mag_add` returns 0, and the chain of `dst`.
pub mag_add : List Bool → List Chunk → List Chunk → Bool × List Chunk
mag_add answers dst src =
    let result_len = u32 (greater (bit_length dst) (bit_length src) + 1) in
    let (ok, wide) = extend_length answers dst result_len in
    if ok then (true, trim_chunks (add_chains wide src 0)) else (false, wide)

pub sub_components : List ℕ → List ℕ → ℕ → List ℕ × ℕ
sub_components (d ∷ ds) (c ∷ cs) borrow =
    let r = with_borrow borrow (u64 (d + 2 ^ 64 - c)) in
    let (rest, k) = sub_components ds cs (r / 2 ^ 32) in (u32 r ∷ rest, k)
sub_components _ _ borrow = ([], borrow)

pub borrow_components : List ℕ → ℕ → List ℕ × ℕ
borrow_components (d ∷ ds) borrow =
    let r = with_borrow borrow d in
    let (rest, k) = borrow_components ds (r / 2 ^ 32) in (u32 r ∷ rest, k)
borrow_components [] borrow = ([], borrow)

-- `while (borrow && bc)`: the chunks of `dst` that the loop does not come to stay.
pub borrow_through : List Chunk → List Chunk → ℕ → List Chunk
borrow_through (d ∷ dc) (b ∷ bc) borrow =
    let (r, k) = borrow_components b borrow in
    let rest = borrow_through dc bc k in if borrow == 0 then d ∷ dc else r ∷ rest
borrow_through dc _ borrow = dc

-- The chain of `dst`, of which the callers give as many chunks as `big` has.
pub sub_chains : List Chunk → List Chunk → List Chunk → ℕ → List Chunk
sub_chains (d ∷ dc) (b ∷ bc) (s ∷ sc) borrow =
    let (r, k) = sub_components b s borrow in r ∷ sub_chains dc bc sc k
sub_chains dc bc [] borrow = borrow_through dc bc borrow
sub_chains dc [] (s ∷ sc) borrow = dc
sub_chains [] (b ∷ bc) (s ∷ sc) borrow = []

pub mag_sub : List Chunk → List Chunk → List Chunk → List Chunk
mag_sub dst big small = trim_chunks (sub_chains dst big small 0)

-- Whether `do_subtract` returns 0, and `dst`.
unfoldable pub do_subtract : List Bool → Bint → Bint → Bool × Bint
do_subtract answers dst src = elim (mag_cmp dst.digits src.digits) [
  | Ordering.lt ↦
      let (ok, wide) = extend_length answers dst.digits (bit_length src.digits) in
      if ok
      then (true, record { negative = not dst.negative; digits = mag_sub wide src.digits wide })
      else (false, record dst { digits = wide })
  | _ ↦ (true, record dst { digits = mag_sub dst.digits dst.digits src.digits })
]

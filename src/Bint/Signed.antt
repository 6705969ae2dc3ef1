-- ===== src/Bint/Signed.antt =====
-- The signed operations of src/bint.c: set, get, copy, sign, compare, add and subtract. An
-- `int32_t` is an integer of ℤ.
pub mod Compare
pub mod Difference
pub mod Sum
pub mod Convert
use Prim.Native.Nat.{Ordering}
use libdlb.Base.{
  ℕ, zero, suc, ◌+◌, ◌-◌, ◌^◌, Bool, true, false, not, ◌&&◌, ◌||◌, List, [], ◌∷◌, get_or, replicate,
  ltb, if◌then◌else◌,
}
use libdlb.Bint.{Chunk, Bint, is_zero, extend_length, bit_length}
use libdlb.Bint.Magnitude.{mag_cmp, mag_add, do_subtract}

pub data ℤ : Type 0 where
  pos : ℕ → ℤ
  negsuc : ℕ → ℤ

-- `bint_set`; `abs` of the least `int32_t` is undefined
pub set : ℤ → Bint
set (pos n) = record { negative = false; digits = (n ∷ replicate 3 0) ∷ [] }
set (negsuc n) = record { negative = true; digits = (suc n ∷ replicate 3 0) ∷ [] }

-- the conversion of a `uint32_t` to an `int32_t`
abbrev pub to_int32 : ℕ → ℤ
to_int32 n = if ltb n (2 ^ 31) then pos n else negsuc (2 ^ 32 - 1 - n)

-- `-v`
abbrev pub neg : ℤ → ℤ
neg (pos zero) = pos 0
neg (pos (suc n)) = negsuc n
neg (negsuc n) = pos (suc n)

-- `b->digits.data[0]`
abbrev pub first_component : List Chunk → ℕ
first_component [] = 0
first_component (c ∷ cs) = get_or c 0 0

pub get : Bint → ℤ
get b = let v = to_int32 (first_component b.digits) in if b.negative then neg v else v

pub get_sign : Bint → Ordering
get_sign b =
    if is_zero b.digits then Ordering.eq else if b.negative then Ordering.lt else Ordering.gt

-- `sign < 0`
unfoldable pub set_sign : Bint → Bool → Bint
set_sign b negative = record b { negative = negative }

abbrev pub flip : Ordering → Ordering
flip Ordering.lt = Ordering.gt
flip Ordering.eq = Ordering.eq
flip Ordering.gt = Ordering.lt

pub compare : Bint → Bint → Ordering
compare a b =
    if a.negative && not b.negative
    then Ordering.lt
    else if b.negative && not a.negative
    then Ordering.gt
    else if a.negative
    then flip (mag_cmp a.digits b.digits)
    else mag_cmp a.digits b.digits

-- The loop of `bint_copy`: the data of each chunk of `src`, and `next` is NULL at the last.
pub copy_chains : List Chunk → List Chunk → List Chunk
copy_chains (d ∷ dc) (s ∷ t ∷ sc) = s ∷ copy_chains dc (t ∷ sc)
copy_chains (d ∷ dc) (s ∷ []) = s ∷ []
copy_chains (d ∷ dc) [] = d ∷ dc
copy_chains [] sc = []

-- Whether each of the following returns 0, and `dst`.
pub copy : List Bool → Bint → Bint → Bool × Bint
copy answers dst src =
    let (ok, wide) = extend_length answers dst.digits (bit_length src.digits) in
    if ok
    then (true, record { negative = src.negative; digits = copy_chains wide src.digits })
    else (false, record dst { digits = wide })

-- `mag_add`, which leaves the sign
abbrev pub add_to : List Bool → Bint → Bint → Bool × Bint
add_to answers dst src =
    let (ok, digits) = mag_add answers dst.digits src.digits in (ok, record dst { digits = digits })

pub add : List Bool → Bint → Bint → Bool × Bint
add answers dst src =
    if (dst.negative && src.negative) || not (dst.negative || src.negative)
    then add_to answers dst src
    else do_subtract answers dst src

pub sub : List Bool → Bint → Bint → Bool × Bint
sub answers dst src =
    if (dst.negative && not src.negative) || (not dst.negative && src.negative)
    then add_to answers dst src
    else do_subtract answers dst src

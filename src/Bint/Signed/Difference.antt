-- ===== src/Bint/Signed/Difference.antt =====
-- What a signed number is, and `do_subtract` as a difference.
use Prim.Native.Nat.{compare, Ordering}
use libdlb.Base.{
  ℕ, ◌+◌, ◌*◌, ◌^◌, ◌≤◌, ◌<◌, ◌≡◌, ◌∙◌, inl, inr, Bool, true, false, not, none, List, [], ◌∷◌, ◌++◌,
  length, replicate, if◌then◌else◌, arith,
}
use libdlb.Bint.{Chunk, Bint, zero_chunk, alloc_chain, bit_length, extend_length}
use libdlb.Bint.Value.{magnitude, IsDigits}
use libdlb.Bint.Chain.{
  Extended, refused, extended, extend_length_lem, magnitude-zeros_behind, AreChunks-zeros_behind,
}
use libdlb.Bint.Length.{length-le-bit_length}
use libdlb.Bint.Magnitude.{mag_cmp, mag_sub, do_subtract}
use libdlb.Bint.Magnitude.Compare.{mag_cmp_lem, compare_cases, compare_lt, compare_gt, longer-gt}
use libdlb.Bint.Magnitude.Subtract.{mag_sub-big, mag_sub-small}

-- A signed number is the difference of these two, of which one is 0.
abbrev pub plus : Bint → ℕ
plus b = if b.negative then 0 else magnitude b.digits

abbrev pub minus : Bint → ℕ
minus b = if not b.negative then 0 else magnitude b.digits

-- what the code keeps of every number, and the size for which an `unsigned int` counts its bits
abbrev pub IsBint : Bint → Type 0
IsBint b = IsDigits b.digits × (128 * length b.digits < 2 ^ 31)

-- What a signed operation comes to: no memory and the same number, or one that keeps the invariant
-- and is `p - n`.
pub data Gives (answers : List Bool) (b : Bint) (p n : ℕ) : Bool × Bint → Type 0 where
  stays : (k : ℕ) → alloc_chain answers k ≡ none → Gives answers b p n (false, b)
  gives : (r : Bint) → IsDigits r.digits → plus r + n ≡ minus r + p → Gives answers b p n (true, r)

abbrev pub number : Bool → List Chunk → Bint
number negative digits = record { negative = negative; digits = digits }

-- from which the sign is left: the numbers with the sign `x`
abbrev pub part : Bool → ℕ → ℕ
part x m = if x then 0 else m

pub compare_eq : (a b : ℕ) → a ≡ b → compare a b ≡ Ordering.eq
compare_eq a b h = ground arith

no_longer :
    (ds es : List Chunk)
    → IsDigits ds
    → IsDigits es
    → magnitude es ≤ magnitude ds
    → length es ≤ length ds
no_longer ds es h k le = elim (compare_cases (length ds) (length es)) [
  | inl shorter ↦ absurd (omega (arith, le, longer-gt es ds k h shorter))
  | inr (inl longer) ↦ omega (arith, longer)
  | inr (inr same) ↦ omega (arith, same)
]

-- what `dst` minus `src` is, as numbers with the sign of `dst`
abbrev Difference : List Bool → Bool → List Chunk → List Chunk → Bool × Bint → Type 0
Difference answers x ds es =
    Gives answers (number x ds) (part x (magnitude ds) + part (not x) (magnitude es))
      (part (not x) (magnitude ds) + part x (magnitude es))

subtract_smaller :
    (answers : List Bool) (x : Bool) (ds es : List Chunk)
    → IsDigits ds
    → IsDigits es
    → 0 < length ds
    → magnitude es ≤ magnitude ds
    → length es ≤ length ds
    → Difference answers x ds es (true, number x (mag_sub ds ds es))
subtract_smaller answers x ds es h k some_chunk le n =
    let (digits, e) = mag_sub-big ds es some_chunk n h.0 k.0 le in
    gives (number x (mag_sub ds ds es)) digits (signed x (magnitude ds) (magnitude es) _ e)
  where
    signed :
        (x : Bool) (m n r : ℕ)
        → r + n ≡ m
        → (if x then 0 else r) + (part (not x) m + part x n)
          ≡ (if not x then 0 else r) + (part x m + part (not x) n)
    signed true m n r e = omega arith
    signed false m n r e = omega arith

subtract_larger :
    (answers : List Bool) (x : Bool) (c e : Chunk) (ds es : List Chunk) (r : Bool × List Chunk)
    → IsDigits (c ∷ ds)
    → IsDigits (e ∷ es)
    → 128 * length (e ∷ es) < 2 ^ 32
    → magnitude (c ∷ ds) < magnitude (e ∷ es)
    → Extended answers (c ∷ ds) (bit_length (e ∷ es)) r
    → Difference answers x
        (c ∷ ds)
        (e ∷ es)
        (if r.0 then (true, number (not x) (mag_sub r.1 (e ∷ es) r.1)) else (false, number x r.1))
subtract_larger answers x c e ds es (false, rs) h k small lt (refused n none_left) =
    stays n none_left
subtract_larger answers x c e ds es (true, rs) h k small lt (extended n wide) =
    let w = (c ∷ ds) ++ replicate n zero_chunk in
    let same = magnitude-zeros_behind (c ∷ ds) n in
    let (digits, sum) =
      mag_sub-small (e ∷ es) w (omega arith)
        (omega (arith, length-le-bit_length e es k.0 k.1 small, wide)) k.0
        (AreChunks-zeros_behind (c ∷ ds) n h.0) (omega (arith, same, lt)) in
    gives (number (not x) (mag_sub w (e ∷ es) w)) digits
      (signed x (magnitude (c ∷ ds)) (magnitude (e ∷ es)) _ (omega (arith, sum, same)))
  where
    signed :
        (x : Bool) (m n r : ℕ)
        → r + m ≡ n
        → (if not x then 0 else r) + (part (not x) m + part x n)
          ≡ (if not (not x) then 0 else r) + (part x m + part (not x) n)
    signed true m n r e = omega arith
    signed false m n r e = omega arith

pub do_subtract-Difference :
    (answers : List Bool) (x y : Bool) (ds es : List Chunk)
    → IsDigits ds
    → IsDigits es
    → 128 * length es < 2 ^ 32
    → Difference answers x ds es (do_subtract answers (number x ds) (number y es))
unfolding do_subtract
do_subtract-Difference answers x y [] es h k small = absurd h.1
do_subtract-Difference answers x y (c ∷ ds) [] h k small = absurd k.1
do_subtract-Difference answers x y (c ∷ ds) (e ∷ es) h k small =
    elim (compare_cases (magnitude (c ∷ ds)) (magnitude (e ∷ es))) [
      | inl lt ↦
          rw (cmp ∙ compare_lt (magnitude (c ∷ ds)) (magnitude (e ∷ es)) lt, do_subtract)
            (subtract_larger answers x c e ds es
              (extend_length answers (c ∷ ds) (bit_length (e ∷ es))) h k small lt
              (extend_length_lem answers c ds (bit_length (e ∷ es))))
      | inr (inl gt) ↦
          rw (cmp ∙ compare_gt (magnitude (c ∷ ds)) (magnitude (e ∷ es)) gt, do_subtract)
            (smaller (omega (arith, gt)))
      | inr (inr eq) ↦
          rw (cmp ∙ compare_eq (magnitude (c ∷ ds)) (magnitude (e ∷ es)) eq, do_subtract)
            (smaller (omega (arith, eq)))
    ]
  where
    cmp : mag_cmp (c ∷ ds) (e ∷ es) ≡ compare (magnitude (c ∷ ds)) (magnitude (e ∷ es))
    cmp = mag_cmp_lem (c ∷ ds) (e ∷ es) h k

    smaller :
        magnitude (e ∷ es) ≤ magnitude (c ∷ ds)
        → Difference answers x
            (c ∷ ds)
            (e ∷ es)
            (true, number x (mag_sub (c ∷ ds) (c ∷ ds) (e ∷ es)))
    smaller le =
        subtract_smaller answers x (c ∷ ds) (e ∷ es) h k (omega arith) le
          (no_longer (c ∷ ds) (e ∷ es) h k le)

-- ===== src/Bint/Signed/Convert.antt =====
-- `bint_set` and `bint_get` are inverse, and `bint_copy` copies.
use libdlb.Base.{
  ℕ, suc, ◌-◌, ◌^◌, ◌≤◌, ◌<◌, ◌≡◌, refl, ap, Bool, true, false, none, List, [], ◌∷◌, ◌++◌, length,
  replicate, ltb, if◌then◌else◌, arith,
}
use libdlb.Bint.{Chunk, Bint, zero_chunk, alloc_chain, bit_length, extend_length}
use libdlb.Bint.Value.{IsDigits}
use libdlb.Bint.Chain.{Extended, refused, extended, extend_length_lem}
use libdlb.Bint.Length.{length-le-bit_length}
use libdlb.Bint.Signed.{ℤ, pos, negsuc, neg, set, get, copy_chains, copy}
use libdlb.Bint.Signed.Difference.{IsBint}

-- what `abs` takes: every `int32_t` but the least
abbrev pub HasAbs : ℤ → Type 0
HasAbs (pos n) = n < 2 ^ 31
HasAbs (negsuc n) = suc n < 2 ^ 31

small : (n : ℕ) → n < 2 ^ 31 → ltb n (2 ^ 31) ≡ true
small n h = ground arith

-- `bint_get` gives back what `bint_set` stored, which has an absolute value in an `int32_t`.
pub get-set : (v : ℤ) → HasAbs v → get (set v) ≡ v
unfolding get set
get-set (pos n) h = ap (λ b. if b then pos n else negsuc (2 ^ 32 - 1 - n)) (small n h)
get-set (negsuc n) h =
    ap (λ b. neg (if b then pos (suc n) else negsuc (2 ^ 32 - 1 - suc n))) (small (suc n) h)

-- What `bint_copy` comes to: no memory and the same number, or `src`.
pub data Copied (answers : List Bool) (dst src : Bint) : Bool × Bint → Type 0 where
  kept : (k : ℕ) → alloc_chain answers k ≡ none → Copied answers dst src (false, dst)
  copied : Copied answers dst src (true, src)

copy_chains_lem :
    (s : Chunk) (ds ss : List Chunk)
    → length (s ∷ ss) ≤ length ds
    → copy_chains ds (s ∷ ss) ≡ s ∷ ss
unfolding copy_chains
copy_chains_lem s [] ss le = absurd (omega (arith, le))
copy_chains_lem s (d ∷ ds) [] le = refl
copy_chains_lem s (d ∷ ds) (t ∷ ss) le = ap (s ∷◌) (copy_chains_lem t ds ss (omega (arith, le)))

-- Of a number that keeps the invariant, in a chain of fewer than 2 ^ 31 bits, to another that
-- keeps it, `bint_copy` either finds no memory and leaves `dst` as it was, or makes `dst` the same
-- number as `src`.
pub copy-Copied :
    (answers : List Bool) (dst src : Bint)
    → IsDigits dst.digits
    → IsBint src
    → Copied answers dst src (copy answers dst src)
unfolding copy
copy-Copied answers dst src h k = go dst.digits src.digits h k
  where
    go :
        (ds es : List Chunk)
        → IsDigits ds
        → IsBint (record { negative = src.negative; digits = es })
        → Copied answers
            (record { negative = dst.negative; digits = ds })
            (record { negative = src.negative; digits = es })
            (copy answers
              (record { negative = dst.negative; digits = ds })
              (record { negative = src.negative; digits = es }))
    go [] es h k = absurd h.1
    go ds [] h k = absurd k.0.1
    go (d ∷ ds) (e ∷ es) h k =
        wide (extend_length answers (d ∷ ds) (bit_length (e ∷ es)))
          (extend_length_lem answers d ds (bit_length (e ∷ es)))
      where
        wide :
            (r : Bool × List Chunk)
            → Extended answers (d ∷ ds) (bit_length (e ∷ es)) r
            → Copied answers
                (record { negative = dst.negative; digits = d ∷ ds })
                (record { negative = src.negative; digits = e ∷ es })
                (if r.0
                  then (true, record { negative = src.negative; digits = copy_chains r.1 (e ∷ es) })
                  else (false, record { negative = dst.negative; digits = r.1 }))
        wide r (refused n none_left) = kept n none_left
        wide r (extended n more) =
            rw
              (copy_chains_lem e ((d ∷ ds) ++ replicate n zero_chunk) es
                (omega (arith, length-le-bit_length e es k.0.0 k.0.1 (omega (arith, k.1)), more)))
              copied

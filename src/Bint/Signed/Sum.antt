-- ===== src/Bint/Signed/Sum.antt =====
-- `bint_add` and `bint_sub` compute the signed sum and difference.
use libdlb.Base.{
  ℕ, ◌+◌, ◌≡◌, ◌≢◌, refl, Bool, true, false, not, List, [], ◌∷◌, if◌then◌else◌, arith,
}
use libdlb.Bint.{Chunk, Bint}
use libdlb.Bint.Value.{magnitude}
use libdlb.Bint.Chain.{Reaches, no_memory, reached}
use libdlb.Bint.Magnitude.{mag_add}
use libdlb.Bint.Magnitude.Add.{Absorbs, mag_add_lem}
use libdlb.Bint.Signed.{add_to, add, sub}
use libdlb.Bint.Signed.Difference.{
  plus, minus, IsBint, Gives, stays, gives, number, part, do_subtract-Difference,
}

-- `mag_add`, of numbers with the same sign
add_to-number :
    (answers : List Bool) (x : Bool) (c e : Chunk) (ds es : List Chunk)
    → IsBint (number x (c ∷ ds))
    → IsBint (number x (e ∷ es))
    → Absorbs ds es
    → Gives answers
        (number x (c ∷ ds))
        (part x (magnitude (c ∷ ds)) + part x (magnitude (e ∷ es)))
        (part (not x) (magnitude (c ∷ ds)) + part (not x) (magnitude (e ∷ es)))
        (add_to answers (number x (c ∷ ds)) (number x (e ∷ es)))
add_to-number answers x c e ds es h k a =
    go (mag_add answers (c ∷ ds) (e ∷ es)) (mag_add_lem answers c e ds es h.0 k.0 h.1 k.1 a)
  where
    signed :
        (x : Bool) (m n r : ℕ)
        → r ≡ m + n
        → (if x then 0 else r) + (part (not x) m + part (not x) n)
          ≡ (if not x then 0 else r) + (part x m + part x n)
    signed true m n r e = omega arith
    signed false m n r e = omega arith

    go :
        (r : Bool × List Chunk)
        → Reaches answers (c ∷ ds) (magnitude (c ∷ ds) + magnitude (e ∷ es)) r
        → Gives answers
            (number x (c ∷ ds))
            (part x (magnitude (c ∷ ds)) + part x (magnitude (e ∷ es)))
            (part (not x) (magnitude (c ∷ ds)) + part (not x) (magnitude (e ∷ es)))
            (r.0, number x r.1)
    go r (no_memory n none_left) = stays n none_left
    go r (reached rs digits sum) =
        gives (number x rs) digits
          (signed x (magnitude (c ∷ ds)) (magnitude (e ∷ es)) (magnitude rs) sum)

add-number :
    (answers : List Bool) (x y : Bool) (ds es : List Chunk)
    → IsBint (number x ds)
    → IsBint (number y es)
    → (x ≡ y → Absorbs ds es)
    → Gives answers
        (number x ds)
        (part x (magnitude ds) + part y (magnitude es))
        (part (not x) (magnitude ds) + part (not y) (magnitude es))
        (add answers (number x ds) (number y es))
unfolding add
add-number answers x y [] es h k a = absurd h.0.1
add-number answers x y (c ∷ ds) [] h k a = absurd k.0.1
add-number answers true true (c ∷ ds) (e ∷ es) h k a =
    add_to-number answers true c e ds es h k (a refl)
add-number answers true false (c ∷ ds) (e ∷ es) h k a =
    do_subtract-Difference answers true false (c ∷ ds) (e ∷ es) h.0 k.0 (omega (arith, k.1))
add-number answers false true (c ∷ ds) (e ∷ es) h k a =
    do_subtract-Difference answers false true (c ∷ ds) (e ∷ es) h.0 k.0 (omega (arith, k.1))
add-number answers false false (c ∷ ds) (e ∷ es) h k a =
    add_to-number answers false c e ds es h k (a refl)

-- Of two numbers that keep the invariant, in chains of fewer than 2 ^ 31 bits, `bint_add` either
-- finds no memory and leaves `dst` as it was, or leaves the signed sum with the invariant kept,
-- if, where it adds magnitudes, the component of `dst` just above the chunks of `src` is not full.
pub add-Gives :
    (answers : List Bool) (dst src : Bint)
    → IsBint dst
    → IsBint src
    → (dst.negative ≡ src.negative → Absorbs dst.digits src.digits)
    → Gives answers dst (plus dst + plus src) (minus dst + minus src) (add answers dst src)
add-Gives answers dst src h k a =
    add-number answers dst.negative src.negative dst.digits src.digits h k a

sub-number :
    (answers : List Bool) (x y : Bool) (ds es : List Chunk)
    → IsBint (number x ds)
    → IsBint (number y es)
    → (x ≢ y → Absorbs ds es)
    → Gives answers
        (number x ds)
        (part x (magnitude ds) + part (not y) (magnitude es))
        (part (not x) (magnitude ds) + part y (magnitude es))
        (sub answers (number x ds) (number y es))
unfolding sub
sub-number answers x y [] es h k a = absurd h.0.1
sub-number answers x y (c ∷ ds) [] h k a = absurd k.0.1
sub-number answers true true (c ∷ ds) (e ∷ es) h k a =
    do_subtract-Difference answers true true (c ∷ ds) (e ∷ es) h.0 k.0 (omega (arith, k.1))
sub-number answers true false (c ∷ ds) (e ∷ es) h k a =
    add_to-number answers true c e ds es h k (a (ground arith))
sub-number answers false true (c ∷ ds) (e ∷ es) h k a =
    add_to-number answers false c e ds es h k (a (ground arith))
sub-number answers false false (c ∷ ds) (e ∷ es) h k a =
    do_subtract-Difference answers false false (c ∷ ds) (e ∷ es) h.0 k.0 (omega (arith, k.1))

-- Of two numbers that keep the invariant, in chains of fewer than 2 ^ 31 bits, `bint_sub` either
-- finds no memory and leaves `dst` as it was, or leaves the signed difference with the invariant
-- kept, if, where it adds magnitudes, the component of `dst` just above the chunks of `src` is not
-- full.
pub sub-Gives :
    (answers : List Bool) (dst src : Bint)
    → IsBint dst
    → IsBint src
    → (dst.negative ≢ src.negative → Absorbs dst.digits src.digits)
    → Gives answers dst (plus dst + minus src) (minus dst + plus src) (sub answers dst src)
sub-Gives answers dst src h k a =
    sub-number answers dst.negative src.negative dst.digits src.digits h k a

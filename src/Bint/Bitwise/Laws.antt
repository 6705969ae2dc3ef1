-- ===== src/Bint/Bitwise/Laws.antt =====
-- What `bint_or`, `bint_and`, `bint_bic` and `bint_xor` do to each bit.
use libdlb.Base.{
  ℕ, ◌≤◌, ◌≡◌, refl, ap, ◌∙◌, subst, append-nil, Bool, true, false, ◌&&◌, ◌||◌, Option, none, some,
  List, [], ◌∷◌, ◌++◌, length, replicate, if◌then◌else◌, arith,
}
use libdlb.Bint.{Chunk, Bint, zero_chunk, alloc_chain}
use libdlb.Bint.Value.{magnitude, AreChunks, IsDigits, some_chunk}
use libdlb.Bint.Chain.{
  alloc_chain_lem, length-zeros, magnitude-zeros_behind, AreChunks-zeros_behind,
}
use libdlb.Bint.Bitwise.{
  extend_like, zip_chunks, and_chunks, trim_if, bit_without, bit_differs, or, xor, and, bic,
}
use libdlb.Bint.Bitwise.Words.{bit, or_false, differs_false, without_false}
use libdlb.Bint.Bitwise.Zip.{
  Op, Zipped, zip_chunks_lem, and_chunks_lem, trim_if-Zipped, length-zip_chunks, length-and_chunks,
}

-- What `extend_like` comes to: no memory and the same chain, or zero chunks behind it, so that it is
-- as long as that of `src`.
data Lengthened (answers : List Bool) (dc sc : List Chunk) : Bool × List Chunk → Type 0 where
  not_longer : (k : ℕ) → alloc_chain answers k ≡ none → Lengthened answers dc sc (false, dc)
  longer :
      (n : ℕ)
      → length sc ≤ length (dc ++ replicate n zero_chunk)
      → Lengthened answers dc sc (true, dc ++ replicate n zero_chunk)

behind :
    (answers : List Bool) (d s : Chunk) (dc sc : List Chunk) (r : Bool × List Chunk)
    → Lengthened answers dc sc r
    → Lengthened answers (d ∷ dc) (s ∷ sc) (r.0, d ∷ r.1)
behind answers d s dc sc r (not_longer k e) = not_longer k e
behind answers d s dc sc r (longer n h) = longer n (omega (arith, h))

unchanged :
    (answers : List Bool) (dc sc : List Chunk)
    → length sc ≤ length dc
    → Lengthened answers dc sc (true, dc)
unchanged answers dc sc h =
    subst (λ ds. Lengthened answers dc sc (true, ds)) (append-nil dc)
      (longer 0 (omega (arith, h, ap length (append-nil dc))))

extend_like_lem :
    (answers : List Bool) (d : Chunk) (dc sc : List Chunk)
    → Lengthened answers (d ∷ dc) sc (extend_like answers (d ∷ dc) sc)
unfolding extend_like
extend_like_lem answers d [] [] = longer 0 (omega arith)
extend_like_lem answers d [] (s ∷ []) = longer 0 (omega arith)
extend_like_lem answers d (e ∷ dc) [] = unchanged answers (d ∷ e ∷ dc) [] (omega arith)
extend_like_lem answers d (e ∷ dc) (s ∷ []) = unchanged answers (d ∷ e ∷ dc) (s ∷ []) (omega arith)
extend_like_lem answers d [] (s ∷ t ∷ sc) = go (alloc_chain answers (length (t ∷ sc))) refl
  where
    go :
        (o : Option (List Chunk))
        → alloc_chain answers (length (t ∷ sc)) ≡ o
        → Lengthened answers (d ∷ []) (s ∷ t ∷ sc) (elim o as (λ _. Bool × List Chunk) [
          | none ↦ (false, d ∷ [])
          | some new ↦ (true, d ∷ new)
        ])
    go none e = not_longer (length (t ∷ sc)) e
    go (some new) e =
        rw (alloc_chain_lem answers (length (t ∷ sc)) new e)
          (longer (length (t ∷ sc)) (omega (arith, length-zeros (length (t ∷ sc)))))
extend_like_lem answers d (e ∷ dc) (s ∷ t ∷ sc) =
    behind answers d s (e ∷ dc) (t ∷ sc) (extend_like answers (e ∷ dc) (t ∷ sc))
      (extend_like_lem answers e dc (t ∷ sc))

-- What `bint_or` and `bint_xor` come to: no memory and the same number, or a number with the same
-- sign of which each bit is `f` of the bits of the two numbers.
pub data Combined (f : Op) (answers : List Bool) (dst src : Bint) : Bool × Bint → Type 0 where
  uncombined : (k : ℕ) → alloc_chain answers k ≡ none → Combined f answers dst src (false, dst)
  combined :
      (rs : List Chunk)
      → Zipped f dst.digits src.digits rs
      → Combined f answers dst src (true, record dst { digits = rs })

-- the loop over a chain that was made longer
wide_zip :
    (f : Op) (dc sc : List Chunk) (n : ℕ)
    → ((x : Bool) → f x false ≡ x)
    → AreChunks dc
    → AreChunks sc
    → length sc ≤ length (dc ++ replicate n zero_chunk)
    → Zipped f dc sc (zip_chunks f (dc ++ replicate n zero_chunk) sc false).1
wide_zip f dc sc n k w x wide =
    let (chunks, same) =
      zip_chunks_lem f (dc ++ replicate n zero_chunk) sc false k
        (λ h. absurd (omega (arith, h, wide))) (AreChunks-zeros_behind dc n w) x in
    (
      chunks,
      λ i. same i ∙ ap (λ v. f (bit v i) (bit (magnitude sc) i)) (magnitude-zeros_behind dc n),
    )

-- The loop, and what follows it, after the chain was made longer or not.
after_extend :
    (f : Op) (answers : List Bool) (x : Bool) (ds : List Chunk) (src : Bint)
    → (finish : Bool × List Chunk → List Chunk)
    → ((n : ℕ)
        → length src.digits ≤ length (ds ++ replicate n zero_chunk)
        → Zipped f ds src.digits
            (finish (zip_chunks f (ds ++ replicate n zero_chunk) src.digits false)))
    → (o : Bool × List Chunk) → Lengthened answers ds src.digits o
    → Combined f answers
        (record { negative = x; digits = ds })
        src
        (if o.0
          then (true, record { negative = x; digits = finish (zip_chunks f o.1 src.digits false) })
          else (false, record { negative = x; digits = o.1 }))
after_extend f answers x ds src finish done_right o (not_longer n none_left) =
    uncombined n none_left
after_extend f answers x ds src finish done_right o (longer n wide) = combined _ (done_right n wide)

or-Combined :
    (answers : List Bool) (x : Bool) (ds : List Chunk) (src : Bint)
    → IsDigits ds
    → AreChunks src.digits
    → Combined
        (◌||◌)
        answers
        (record { negative = x; digits = ds })
        src
        (or answers (record { negative = x; digits = ds }) src)
unfolding or
or-Combined answers x [] src h k = absurd h.1
or-Combined answers x (d ∷ ds) src h k =
    after_extend (◌||◌) answers x (d ∷ ds) src (λ z. z.1)
      (λ n wide. wide_zip (◌||◌) (d ∷ ds) src.digits n or_false h.0 k wide)
      (extend_like answers (d ∷ ds) src.digits) (extend_like_lem answers d ds src.digits)

xor-Combined :
    (answers : List Bool) (x : Bool) (ds : List Chunk) (src : Bint)
    → IsDigits ds
    → AreChunks src.digits
    → Combined bit_differs answers
        (record { negative = x; digits = ds })
        src
        (xor answers (record { negative = x; digits = ds }) src)
unfolding xor
xor-Combined answers x [] src h k = absurd h.1
xor-Combined answers x (d ∷ ds) src h k =
    after_extend bit_differs answers x (d ∷ ds) src trim_if trimmed
      (extend_like answers (d ∷ ds) src.digits) (extend_like_lem answers d ds src.digits)
  where
    trimmed :
        (n : ℕ)
        → length src.digits ≤ length ((d ∷ ds) ++ replicate n zero_chunk)
        → Zipped bit_differs
            (d ∷ ds)
            src.digits
            (trim_if (zip_chunks bit_differs ((d ∷ ds) ++ replicate n zero_chunk) src.digits false))
    trimmed n wide =
        let w = (d ∷ ds) ++ replicate n zero_chunk in
        let z = zip_chunks bit_differs w src.digits false in
        trim_if-Zipped bit_differs (d ∷ ds) src.digits z.0 z.1
          (omega (arith, length-zip_chunks bit_differs w src.digits false))
          (wide_zip bit_differs (d ∷ ds) src.digits n differs_false h.0 k wide)

-- Of two numbers that keep the invariant, `bint_or` and `bint_xor` each either find no memory and
-- leave `dst` as it was, or leave its sign and make each of its bits the or, the exclusive or, of
-- the two numbers' bits.
pub or_xor-Combined :
    (answers : List Bool) (dst src : Bint)
    → IsDigits dst.digits
    → IsDigits src.digits
    → Combined (◌||◌) answers dst src (or answers dst src)
      × Combined bit_differs answers dst src (xor answers dst src)
or_xor-Combined answers dst src h k = (
  or-Combined answers dst.negative dst.digits src h k.0,
  xor-Combined answers dst.negative dst.digits src h k.0,
)

-- Of two numbers that keep the invariant, `bint_and` and `bint_bic` leave the sign of `dst` and
-- make each of its bits the and of the two numbers' bits, the bit of `src` inverted for
-- `bint_bic`.
pub and_bic-Zipped :
    (dst src : Bint)
    → IsDigits dst.digits
    → IsDigits src.digits
    → Zipped (◌&&◌) dst.digits src.digits (and dst src).digits
      × ((and dst src).negative ≡ dst.negative)
      × Zipped bit_without dst.digits src.digits (bic dst src).digits
      × ((bic dst src).negative ≡ dst.negative)
unfolding and bic
and_bic-Zipped dst src h k =
    let z = and_chunks dst.digits src.digits false in
    let b = zip_chunks bit_without dst.digits src.digits false in
    (
      trim_if-Zipped (◌&&◌) dst.digits src.digits z.0 z.1
          (length-and_chunks dst.digits src.digits false (some_chunk dst.digits h.1))
          (and_chunks_lem dst.digits src.digits false (some_chunk src.digits k.1) h.0 k.0),
      refl,
      trim_if-Zipped bit_without dst.digits src.digits b.0 b.1
          (omega (
            arith,
            length-zip_chunks bit_without dst.digits src.digits false,
            some_chunk dst.digits h.1,
          ))
          (zip_chunks_lem bit_without dst.digits src.digits false without_false (λ n x. refl) h.0
            k.0),
      refl,
    )

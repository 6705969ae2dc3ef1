-- ===== src/Bint/Digit/Pop.antt =====
-- `bint_digit_pop` divides by the base.
use native.Mathlib.Nat.{mod-eq_of_lt, mod-lt, div-lt_iff_lt-mul, div-add-mod}
use mathlib.Core.List.{reverse-cons, reverse-reverse}
use libdlb.Base.{
  ℕ, suc, ◌+◌, ◌*◌, ◌/◌, ◌%◌, ◌^◌, ◌<◌, ◌≡◌, refl, ap, ◌∙◌, sym, subst, false, List, [], ◌∷◌, ◌++◌,
  length, length-reverse, reverse, ◌==◌, arith,
}
use libdlb.Base.Words.{u32, u64}
use libdlb.Bint.{Chunk, Bint}
use libdlb.Bint.Value.{
  value, span, magnitude, room, AreWords, AreChunks, some_chunk, IsDigits, span-chunk,
  AreChunks-append,
}
use libdlb.Bint.Chain.{trim_chunks-IsDigits}
use libdlb.Bint.Length.{high_value, high_value-reverse, AreWords-reverse}
use libdlb.Bint.Digit.{divide_components, divide_chunks, digit_pop}

divide_step :
    (base c r : ℕ)
    → c < 2 ^ 32
    → base < 2 ^ 32
    → r < base
    → let d = u64 (c + u64 (r * 2 ^ 32)) in
      (base * u32 (d / base) + d % base ≡ c + r * 2 ^ 32) × (d % base < base)
divide_step base c r h g k =
    let d = u64 (c + u64 (r * 2 ^ 32)) in
    let same : d ≡ c + r * 2 ^ 32 = omega arith in
    let e = div-add-mod d base in
    let small : u32 (d / base) ≡ d / base = mod-eq_of_lt {n = d / base} {m = 2 ^ 32} (
      (div-lt_iff_lt-mul {k = base} {x = d} {y = 2 ^ 32} (omega (arith, k))).1
        (omega (arith, same, h, k))) in
    (rw small (e ∙ same), mod-lt d (omega (arith, k)))

divide_components_lem :
    (base : ℕ) (ds : List ℕ) (r : ℕ)
    → base < 2 ^ 32
    → r < base
    → AreWords ds
    → let (qs, r') = divide_components base ds r in
      (base * high_value qs + r' ≡ high_value ds + span ds * r)
      × (span qs ≡ span ds)
      × AreWords qs
      × (length qs ≡ length ds)
      × (r' < base)
unfolding divide_components
divide_components_lem base [] r h k w = (omega arith, refl, tt, refl, k)
divide_components_lem base (c ∷ ds) r h k w =
    let d = u64 (c + u64 (r * 2 ^ 32)) in
    let (e, less) = divide_step base c r w.0 h k in
    let (sum, spans, words, len, last) = divide_components_lem base ds (d % base) h less w.1 in
    (
      omega (arith, sum, ap (λ t. t * (base * u32 (d / base))) spans, ap (λ t. span ds * t) e),
      ap (λ t. 2 ^ 32 * t) spans,
      (omega arith, words),
      ap suc len,
      last,
    )

-- the number of a chain that comes highest first
abbrev high_magnitude : List Chunk → ℕ
high_magnitude [] = 0
high_magnitude (c ∷ cs) = high_magnitude cs + room cs * value c

room-last : (cs : List Chunk) (c : Chunk) → room (cs ++ (c ∷ [])) ≡ 2 ^ 128 * room cs
room-last [] c = refl
room-last (e ∷ cs) c = omega (arith, room-last cs c)

high_magnitude-last :
    (cs : List Chunk) (c : Chunk)
    → high_magnitude (cs ++ (c ∷ [])) ≡ value c + 2 ^ 128 * high_magnitude cs
high_magnitude-last [] c = omega arith
high_magnitude-last (e ∷ cs) c = rw room-last (omega (arith, high_magnitude-last cs c))

high_magnitude-reverse : (cs : List Chunk) → high_magnitude (reverse cs) ≡ magnitude cs
high_magnitude-reverse [] = refl
high_magnitude-reverse (c ∷ cs) =
    ap high_magnitude (reverse-cons c cs)
    ∙ (high_magnitude-last (reverse cs) c ∙ omega (arith, high_magnitude-reverse cs))

AreChunks-reverse : (cs : List Chunk) → AreChunks cs → AreChunks (reverse cs)
AreChunks-reverse [] w = tt
AreChunks-reverse (c ∷ cs) w =
    subst AreChunks (sym (reverse-cons c cs))
      (AreChunks-append (reverse cs) (c ∷ []) (AreChunks-reverse cs w.1) (w.0, tt))

divide_chunks_lem :
    (base : ℕ) (cs : List Chunk) (r : ℕ)
    → base < 2 ^ 32
    → r < base
    → AreChunks cs
    → let (qs, r') = divide_chunks base cs r in
      (base * high_magnitude qs + r' ≡ high_magnitude cs + room cs * r)
      × (room qs ≡ room cs)
      × AreChunks qs
      × (length qs ≡ length cs)
      × (r' < base)
unfolding divide_chunks
divide_chunks_lem base [] r h k w = (omega arith, refl, tt, refl, k)
divide_chunks_lem base (c ∷ cs) r h k w =
    let (q, r') = divide_components base (reverse c) r in
    let (sum, spans, words, len, less) =
      divide_components_lem base (reverse c) r h k (AreWords-reverse c w.0.1) in
    let (sum2, rooms, chunks, len2, last) = divide_chunks_lem base cs r' h less w.1 in
    let size : length (reverse c) ≡ 4 = length-reverse c ∙ w.0.0 in
    let chunk_sum : base * value (reverse q) + r' ≡ value c + 2 ^ 128 * r = omega (
      arith,
      sum,
      ap (λ t. base * t) (sym (high_value-reverse (reverse q)) ∙ ap high_value (reverse-reverse q)),
      high_value-reverse c,
      ap (λ t. t * r) (span-chunk (reverse c) size),
    ) in
    (
      omega (
        arith,
        sum2,
        ap (λ t. t * (base * value (reverse q))) rooms,
        ap (λ t. room cs * t) chunk_sum,
      ),
      ap (λ t. 2 ^ 128 * t) rooms,
      ((length-reverse q ∙ len ∙ size, AreWords-reverse q words), chunks),
      ap suc len2,
      last,
    )

-- On a number that keeps the invariant, `bint_digit_pop` by a base of 32 bits that is not 0 leaves
-- the quotient, with the sign and the invariant kept, and returns the remainder.
pub digit_pop_lem :
    (b : Bint) (base : ℕ)
    → IsDigits b.digits
    → 0 < base
    → base < 2 ^ 32
    → let (q, r) = digit_pop b base in
      IsDigits q.digits
      × (q.negative ≡ b.negative)
      × (magnitude b.digits ≡ magnitude q.digits * base + r)
      × (r < base)
unfolding digit_pop
digit_pop_lem b base h p k =
    let (qs, r) = divide_chunks base (reverse b.digits) 0 in
    let (sum, _, chunks, len, less) =
      divide_chunks_lem base (reverse b.digits) 0 k p (AreChunks-reverse b.digits h.0) in
    let nz : (base == 0) ≡ false = ground (arith, p) in
    let small : u32 r ≡ r = mod-eq_of_lt {n = r} {m = 2 ^ 32} (omega (arith, less, k)) in
    let (digits, same) =
      trim_chunks-IsDigits (reverse qs)
        (omega (arith, length-reverse qs, len, length-reverse b.digits, some_chunk b.digits h.1))
        (AreChunks-reverse qs chunks) in
    let low = sym (high_magnitude-reverse (reverse qs)) ∙ ap high_magnitude (reverse-reverse qs) in
    rw (nz, small)
      (
        digits,
        refl,
        omega (arith, sum, high_magnitude-reverse b.digits, ap (λ t. base * t) (same ∙ low)),
        less,
      )

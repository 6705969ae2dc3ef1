-- ===== src/Bint/Digit/Push.antt =====
-- `bint_digit_push` multiplies by the base and adds the digit.
use native.Mathlib.Nat.{pow-le-pow_right, mul-le-mul_right, mul-le-mul_left}
use libdlb.Base.{
  ℕ, zero, suc, ◌+◌, ◌-◌, ◌*◌, ◌/◌, ◌^◌, ◌≤◌, ◌<◌, ◌≡◌, refl, ap, ◌∙◌, sym, Bool, true, false, none,
  List, [], ◌∷◌, ◌++◌, length, replicate, ltb, ◌==◌, if◌then◌else◌, arith,
}
use libdlb.Base.Words.{u32, u64}
use libdlb.Bint.{Chunk, Bint, zero_chunk, alloc_chain, bits, bit_length, extend_length, trim_chunks}
use libdlb.Bint.Value.{value, span, magnitude, room, AreWords, AreChunks, IsDigits, span-chunk}
use libdlb.Bint.Chain.{
  Extended, refused, extended, extend_length_lem, trim_chunks-IsDigits, magnitude-zeros_behind,
  AreChunks-zeros_behind, pow-le-room, pow_add, room-length,
}
use libdlb.Bint.Length.{bits_lem, bit_length_lem}
use libdlb.Bint.Signed.Difference.{IsBint}
use libdlb.Bint.Digit.{
  multiply_components, multiply_chunks, add_to_components, add_digit, digit_push,
}

-- a product of two components and a third are two components
product_lem : (d b k : ℕ) → d < 2 ^ 32 → b < 2 ^ 32 → k < 2 ^ 32 → d * b + k < 2 ^ 64
product_lem d b k h g c =
    omega (arith, mul-le-mul_right {m = d} {n = 2 ^ 32 - 1} b (omega (arith, h)))

multiply_step :
    (d b k : ℕ)
    → d < 2 ^ 32
    → b < 2 ^ 32
    → k < 2 ^ 32
    → let r = u64 (u64 (d * b) + k) in (u32 r + 2 ^ 32 * u32 (r / 2 ^ 32) ≡ d * b + k)
multiply_step d b k h g c = omega (arith, product_lem d b k h g c)

multiply_components_lem :
    (base : ℕ) (ds : List ℕ) (k : ℕ)
    → base < 2 ^ 32
    → AreWords ds
    → k < 2 ^ 32
    → let (rs, k') = multiply_components base ds k in
      (value rs + span ds * k' ≡ value ds * base + k)
      × AreWords rs
      × (length rs ≡ length ds)
      × (k' < 2 ^ 32)
unfolding multiply_components
multiply_components_lem base [] k h w c = (omega arith, tt, refl, c)
multiply_components_lem base (d ∷ ds) k h w c =
    let r = u64 (u64 (d * base) + k) in
    let e = multiply_step d base k w.0 h c in
    let (sum, words, len, last) =
      multiply_components_lem base ds (u32 (r / 2 ^ 32)) h w.1 (omega arith) in
    (omega (arith, e, sum), (omega arith, words), ap suc len, last)

multiply_chunks_lem :
    (base : ℕ) (cs : List Chunk) (k : ℕ)
    → base < 2 ^ 32
    → AreChunks cs
    → k < 2 ^ 32
    → magnitude cs * base + k < room cs
    → let rs = multiply_chunks base cs k in
      (magnitude rs ≡ magnitude cs * base + k) × AreChunks rs × (length rs ≡ length cs)
unfolding multiply_chunks
multiply_chunks_lem base [] k h w c fits = (omega arith, tt, refl)
multiply_chunks_lem base (d ∷ cs) k h w c fits =
    let (r, k') = multiply_components base d k in
    let (sum, words, len, last) = multiply_components_lem base d k h w.0.1 c in
    let chunk_sum : value r + 2 ^ 128 * k' ≡ value d * base + k =
      omega (arith, sum, ap (λ t. t * k') (span-chunk d w.0.0)) in
    let (m, chunks, l) =
      multiply_chunks_lem base cs k' h w.1 last (omega (arith, fits, chunk_sum)) in
    (omega (arith, m, chunk_sum), ((len ∙ w.0.0, words), chunks), ap suc l)

add_step :
    (d k : ℕ)
    → d < 2 ^ 32
    → k < 2 ^ 32
    → let r = u64 (d + k) in (u32 r + 2 ^ 32 * u32 (r / 2 ^ 32) ≡ d + k)
add_step d k h c = omega arith

add_to_components_lem :
    (ds : List ℕ) (k : ℕ)
    → AreWords ds
    → k < 2 ^ 32
    → let (rs, k') = add_to_components ds k in
      (value rs + span ds * k' ≡ value ds + k)
      × AreWords rs
      × (length rs ≡ length ds)
      × (k' < 2 ^ 32)
unfolding add_to_components
add_to_components_lem [] k w c = (omega arith, tt, refl, c)
add_to_components_lem (d ∷ ds) k w c =
    let r = u64 (d + k) in
    let e = add_step d k w.0 c in
    let (sum, words, len, last) = add_to_components_lem ds (u32 (r / 2 ^ 32)) w.1 (omega arith) in
    (omega (arith, e, sum), (omega arith, words), ap suc len, last)

add_digit_lem :
    (cs : List Chunk) (k : ℕ)
    → AreChunks cs
    → k < 2 ^ 32
    → magnitude cs + k < room cs
    → let rs = add_digit cs k in
      (magnitude rs ≡ magnitude cs + k) × AreChunks rs × (length rs ≡ length cs)
unfolding add_digit
add_digit_lem [] k w c fits = (omega arith, tt, refl)
add_digit_lem (d ∷ cs) zero w c fits = (omega arith, w, refl)
add_digit_lem (d ∷ cs) (suc n) w c fits =
    let (r, k') = add_to_components d (suc n) in
    let (sum, words, len, last) = add_to_components_lem d (suc n) w.0.1 c in
    let chunk_sum : value r + 2 ^ 128 * k' ≡ value d + suc n =
      omega (arith, sum, ap (λ t. t * k') (span-chunk d w.0.0)) in
    let (m, chunks, l) = add_digit_lem cs k' w.1 last (omega (arith, fits, chunk_sum)) in
    let more : (suc n == 0) ≡ false = ground arith in
    rw more (omega (arith, m, chunk_sum), ((len ∙ w.0.0, words), chunks), ap suc l)

-- a product with a digit is below the power that counts the bits of both numbers
product_fit :
    (m base digit a b r : ℕ)
    → m < 2 ^ a
    → base < 2 ^ b
    → digit < base
    → 2 * 2 ^ (a + b + 1) ≤ r
    → m * base + digit < r
product_fit m base digit a b r h k p fits =
    let e1 = mul-le-mul_right {m = suc m} {n = 2 ^ a} base h in
    let e2 = mul-le-mul_left {m = base} {n = 2 ^ b} (2 ^ a) (omega (arith, k)) in
    let e3 = pow-le-pow_right {n = 2} (omega arith) {i = a + b} {j = a + b + 1} (omega arith) in
    omega (arith, e1, e2, e3, pow_add a b)

-- What `bint_digit_push` comes to: no memory and the same number, or the magnitude `n` with the
-- same sign.
pub data Pushed (answers : List Bool) (b : Bint) (n : ℕ) : Bool × Bint → Type 0 where
  unpushed : (k : ℕ) → alloc_chain answers k ≡ none → Pushed answers b n (false, b)
  pushed :
      (ds : List Chunk)
      → IsDigits ds
      → magnitude ds ≡ n
      → Pushed answers b n (true, record b { digits = ds })

wide_push :
    (c : Chunk) (cs : List Chunk) (base digit n : ℕ)
    → IsDigits (c ∷ cs)
    → 128 * length (c ∷ cs) < 2 ^ 31
    → base < 2 ^ 32
    → digit < base
    → bit_length (c ∷ cs) + bits 32 base + 1 < 128 * length ((c ∷ cs) ++ replicate n zero_chunk)
    → let rs = add_digit (multiply_chunks base ((c ∷ cs) ++ replicate n zero_chunk) 0) digit in
      IsDigits (trim_chunks rs) × (magnitude (trim_chunks rs) ≡ magnitude (c ∷ cs) * base + digit)
wide_push c cs base digit n h small k p wide =
    let w = (c ∷ cs) ++ replicate n zero_chunk in
    let same = magnitude-zeros_behind (c ∷ cs) n in
    let ((low, _), _) = bit_length_lem c cs h.0 h.1 (omega (arith, small)) in
    let ((short, _), _) = bits_lem 32 base k in
    let fit =
      product_fit (magnitude (c ∷ cs)) base digit (bit_length (c ∷ cs)) (bits 32 base) (room w) low
        short p (pow-le-room w (bit_length (c ∷ cs) + bits 32 base + 1) wide) in
    let scaled = ap (λ t. t * base) same in
    let (m, chunks, len) =
      multiply_chunks_lem base w 0 k (AreChunks-zeros_behind (c ∷ cs) n h.0) (omega arith)
        (omega (arith, fit, scaled)) in
    let rs = multiply_chunks base w 0 in
    let (sum, added, len2) =
      add_digit_lem rs digit chunks (omega (arith, k, p))
        (omega (arith, m, fit, scaled, room_length rs w len)) in
    let (digits, kept) =
      trim_chunks-IsDigits (add_digit rs digit) (omega (arith, len, len2)) added in
    (digits, kept ∙ omega (arith, sum, m, scaled))
  where
    room_length : (xs ys : List Chunk) → length xs ≡ length ys → room xs ≡ room ys
    room_length xs ys e = room-length xs ∙ ap (λ t. 2 ^ (128 * t)) e ∙ sym (room-length ys)

-- On a number that keeps the invariant, in a chain of fewer than 2 ^ 31 bits, `bint_digit_push` of
-- a digit below a base of 32 bits either finds no memory and leaves the number as it was, or
-- multiplies it by the base, adds the digit and keeps the sign and the invariant.
pub digit_push-Pushed :
    (answers : List Bool) (b : Bint) (base digit : ℕ)
    → IsBint b
    → base < 2 ^ 32
    → digit < base
    → Pushed answers b (magnitude b.digits * base + digit) (digit_push answers b base digit)
unfolding digit_push
digit_push-Pushed answers b base digit h k p = number b.negative b.digits h
  where
    number :
        (x : Bool) (ds : List Chunk)
        → IsBint (record { negative = x; digits = ds })
        → Pushed answers
            (record { negative = x; digits = ds })
            (magnitude ds * base + digit)
            (digit_push answers (record { negative = x; digits = ds }) base digit)
    number x [] h = absurd h.0.1
    number x (c ∷ cs) h =
        let len = bit_length (c ∷ cs) + bits 32 base in
        let below : ltb digit base ≡ true = ground (arith, p) in
        let (_, few) = bits_lem 32 base k in
        let (_, bounded) = bit_length_lem c cs h.0.0 h.0.1 (omega (arith, h.1)) in
        let wrap : u32 (u32 len + 1) ≡ len + 1 = omega (arith, few, bounded, h.1) in
        rw (below, wrap)
          (go (extend_length answers (c ∷ cs) (len + 1)) (extend_length_lem answers c cs (len + 1)))
      where
        go :
            (r : Bool × List Chunk)
            → Extended answers (c ∷ cs) (bit_length (c ∷ cs) + bits 32 base + 1) r
            → Pushed answers
                (record { negative = x; digits = c ∷ cs })
                (magnitude (c ∷ cs) * base + digit)
                (if r.0
                  then (
                    true,
                    record {
                      negative = x;
                      digits = trim_chunks (add_digit (multiply_chunks base r.1 0) digit);
                    },
                  )
                  else (false, record { negative = x; digits = r.1 }))
        go r (refused n none_left) = unpushed n none_left
        go r (extended n wide) =
            let (digits, sum) = wide_push c cs base digit n h.0 h.1 k p wide in
            pushed
              (trim_chunks
                (add_digit (multiply_chunks base ((c ∷ cs) ++ replicate n zero_chunk) 0) digit))
              digits sum

-- `bint_digit_push` of a digit that is not below the base fails and leaves the number as it was.
pub digit_push-large :
    (answers : List Bool) (b : Bint) (base digit : ℕ)
    → base ≤ digit
    → digit_push answers b base digit ≡ (false, b)
unfolding digit_push
digit_push-large answers b base digit h =
    let not_below : ltb digit base ≡ false = ground (arith, h) in rw not_below refl

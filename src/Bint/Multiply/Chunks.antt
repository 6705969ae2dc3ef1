-- ===== src/Bint/Multiply/Chunks.antt =====
-- `chunk_mac` multiplies and adds, unless the chunk and the carry overflow a chunk.
use native.Mathlib.Nat.{mul-le-mul_right}
use libdlb.Base.{
  ℕ, zero, suc, ◌+◌, ◌-◌, ◌*◌, ◌/◌, ◌^◌, ◌≤◌, ◌<◌, ◌≡◌, refl, ap, ◌∙◌, sym, false, none, some, List,
  [], ◌∷◌, ◌++◌, length, ◌==◌, arith,
}
use libdlb.Base.Words.{u32, u64}
use libdlb.Bint.{Chunk, zero_chunk}
use libdlb.Bint.Value.{value, span, AreWords, IsChunk, span-chunk, chunk-lt, zeros-AreChunks}
use libdlb.Bint.Magnitude.Compare.{same_span}
use libdlb.Bint.Multiply.{
  add_carry, carry_up, multiply_component, above_first, multiply_components, split_chunk, chunk_mac,
}

-- Two numbers of as many components, and a carry, are those components if they fit in them.
add_carry_lem :
    (rs cs : List ℕ) (k : ℕ)
    → length rs ≡ length cs
    → AreWords rs
    → AreWords cs
    → k < 2 ^ 32
    → value rs + value cs + k < span rs
    → let ms = add_carry rs cs k in
      (value ms ≡ value rs + value cs + k) × AreWords ms × (length ms ≡ length rs)
unfolding add_carry
add_carry_lem [] [] k n w x h fits = (omega (arith, fits), tt, refl)
add_carry_lem [] (c ∷ cs) k n w x h fits = absurd (omega (arith, n))
add_carry_lem (r ∷ rs) [] k n w x h fits = absurd (omega (arith, n))
add_carry_lem (r ∷ rs) (c ∷ cs) k n w x h fits =
    let t = u64 (u64 (r + c) + k) in
    let e : u32 t + 2 ^ 32 * u32 (t / 2 ^ 32) ≡ r + c + k = omega (arith, w.0, x.0) in
    let (sum, words, len) =
      add_carry_lem rs cs (u32 (t / 2 ^ 32)) (omega (arith, n)) w.1 x.1 (omega arith)
        (omega (arith, fits, e)) in
    (omega (arith, sum, e), (omega arith, words), ap suc len)

carry_up_lem :
    (ms : List ℕ) (k : ℕ)
    → AreWords ms
    → k < 2 ^ 32
    → value ms + k < span ms
    → let rs = carry_up ms k in (value rs ≡ value ms + k) × AreWords rs × (length rs ≡ length ms)
unfolding carry_up
carry_up_lem [] k w h fits = (omega (arith, fits), tt, refl)
carry_up_lem (m ∷ ms) zero w h fits = (omega arith, w, refl)
carry_up_lem (m ∷ ms) (suc n) w h fits =
    let t = u64 (m + suc n) in
    let e : u32 t + 2 ^ 32 * u32 (t / 2 ^ 32) ≡ m + suc n = omega (arith, w.0) in
    let (sum, words, len) =
      carry_up_lem ms (u32 (t / 2 ^ 32)) w.1 (omega arith) (omega (arith, fits, e)) in
    let more : (suc n == 0) ≡ false = ground arith in
    rw more (omega (arith, sum, e), (omega arith, words), ap suc len)

product_step :
    (a b m k : ℕ)
    → a < 2 ^ 32
    → b < 2 ^ 32
    → m < 2 ^ 32
    → k < 2 ^ 32
    → let r = u64 (u64 (u64 (a * b) + m) + k) in u32 r + 2 ^ 32 * u32 (r / 2 ^ 32) ≡ a * b + m + k
product_step a b m k h g c d =
    omega (arith, mul-le-mul_right {m = a} {n = 2 ^ 32 - 1} b (omega (arith, h)))

multiply_component_lem :
    (a : ℕ) (bs ms : List ℕ) (k : ℕ)
    → length bs ≤ length ms
    → a < 2 ^ 32
    → AreWords bs
    → AreWords ms
    → k < 2 ^ 32
    → value ms + a * value bs + k < span ms
    → let rs = multiply_component a bs ms k in
      (value rs ≡ value ms + a * value bs + k) × AreWords rs × (length rs ≡ length ms)
unfolding multiply_component
multiply_component_lem a [] ms k n h w x c fits =
    let (sum, words, len) = carry_up_lem ms k x c (omega (arith, fits)) in
    (omega (arith, sum), words, len)
multiply_component_lem a (b ∷ bs) [] k n h w x c fits = absurd (omega (arith, n))
multiply_component_lem a (b ∷ bs) (m ∷ ms) k n h w x c fits =
    let r = u64 (u64 (u64 (a * b) + m) + k) in
    let e = product_step a b m k h w.0 x.0 c in
    let (sum, words, len) =
      multiply_component_lem a bs ms (u32 (r / 2 ^ 32)) (omega (arith, n)) h w.1 x.1 (omega arith)
        (omega (arith, fits, e)) in
    (omega (arith, sum, e), (omega arith, words), ap suc len)

multiply_components_lem :
    (xs bs ms : List ℕ)
    → length xs + length bs ≤ length ms
    → AreWords xs
    → AreWords bs
    → AreWords ms
    → value ms + value xs * value bs < span ms
    → let rs = multiply_components xs bs ms in
      (value rs ≡ value ms + value xs * value bs) × AreWords rs × (length rs ≡ length ms)
unfolding multiply_components above_first
multiply_components_lem [] bs ms n w x y fits = (omega arith, y, refl)
multiply_components_lem (a ∷ xs) bs ms n w x y fits =
    let (sum, words, len) =
      multiply_component_lem a bs ms 0 (omega (arith, n)) w.0 x y (omega arith)
        (omega (arith, fits)) in
    above (multiply_component a bs ms 0) sum words len (multiply_components_lem xs bs)
  where
    above :
        (rs : List ℕ)
        → value rs ≡ value ms + a * value bs + 0
        → AreWords rs
        → length rs ≡ length ms
        → ((ts : List ℕ)
            → length xs + length bs ≤ length ts
            → AreWords xs
            → AreWords bs
            → AreWords ts
            → value ts + value xs * value bs < span ts
            → let rs = multiply_components xs bs ts in
              (value rs ≡ value ts + value xs * value bs) × AreWords rs × (length rs ≡ length ts))
        → let qs = above_first (multiply_components xs bs) rs in
          (value qs ≡ value ms + value (a ∷ xs) * value bs) × AreWords qs × (length qs ≡ length ms)
    above [] e v len rest = absurd (omega (arith, len, n))
    above (r ∷ rs) e v len rest =
        let (sum, words, same) =
          rest rs (omega (arith, len, n)) w.1 x v.1
            (omega (arith, fits, e, same_span (r ∷ rs) ms len)) in
        (omega (arith, sum, e), (v.0, words), ap suc same ∙ len)

split_chunk_lem :
    (ms : List ℕ)
    → length ms ≡ 8
    → AreWords ms
    → let (r, k) = split_chunk ms in
      (value r + 2 ^ 128 * value k ≡ value ms) × IsChunk r × IsChunk k
unfolding split_chunk
split_chunk_lem (a ∷ b ∷ c ∷ d ∷ ms) n w =
    (omega arith, (refl, (w.0, (w.1.0, (w.1.1.0, (w.1.1.1.0, tt))))), (omega (arith, n), w.1.1.1.1))
split_chunk_lem (a ∷ b ∷ c ∷ []) n w = absurd (omega (arith, n))
split_chunk_lem (a ∷ b ∷ []) n w = absurd (omega (arith, n))
split_chunk_lem (a ∷ []) n w = absurd (omega (arith, n))
split_chunk_lem [] n w = absurd (omega (arith, n))

-- the chunk and the carry in the lower half
doubled :
    (r carry : Chunk)
    → IsChunk r
    → IsChunk carry
    → value r + value carry < 2 ^ 128
    → let ms = add_carry r carry 0 ++ zero_chunk in
      (value ms ≡ value r + value carry) × AreWords ms × (length ms ≡ 8) × (span ms ≡ 2 ^ 256)
doubled r carry h k fits =
    let (sum, words, len) =
      add_carry_lem r carry 0 (h.0 ∙ sym k.0) h.1 k.1 (omega arith)
        (omega (arith, fits, span-chunk r h.0)) in
    four (add_carry r carry 0) sum words (len ∙ h.0)
  where
    four :
        (ms : List ℕ)
        → value ms ≡ value r + value carry + 0
        → AreWords ms
        → length ms ≡ 4
        → (value (ms ++ zero_chunk) ≡ value r + value carry)
          × AreWords (ms ++ zero_chunk)
          × (length (ms ++ zero_chunk) ≡ 8)
          × (span (ms ++ zero_chunk) ≡ 2 ^ 256)
    four (a ∷ b ∷ c ∷ d ∷ []) e w n = (
      omega (arith, e),
      (w.0, (w.1.0, (w.1.1.0, (w.1.1.1.0, (zeros-AreChunks 1).0.1)))),
      refl,
      refl,
    )
    four (a ∷ b ∷ c ∷ d ∷ f ∷ ms) e w n = absurd (omega (arith, n))
    four (a ∷ b ∷ c ∷ []) e w n = absurd (omega (arith, n))
    four (a ∷ b ∷ []) e w n = absurd (omega (arith, n))
    four (a ∷ []) e w n = absurd (omega (arith, n))
    four [] e w n = absurd (omega (arith, n))

-- the carry into the next chunk
pub chunk_mac-none :
    (r carry : Chunk)
    → IsChunk r
    → IsChunk carry
    → value r + value carry < 2 ^ 128
    → let (q, k) = chunk_mac none none r carry in
      (value q + 2 ^ 128 * value k ≡ value r + value carry) × IsChunk q × IsChunk k
unfolding chunk_mac
chunk_mac-none r carry h k fits =
    let (sum, words, len, _) = doubled r carry h k fits in
    let (e, q, c) = split_chunk_lem (add_carry r carry 0 ++ zero_chunk) len words in (e ∙ sum, q, c)

square : (a b s : ℕ) → a < 2 ^ 128 → b < 2 ^ 128 → s < 2 ^ 128 → s + a * b < 2 ^ 256
square a b s h k n = omega (arith, mul-le-mul_right {m = a} {n = 2 ^ 128 - 1} b (omega (arith, h)))

-- `chunk_mac` adds the product of two chunks to the chunk and the carry, if these do not overflow a
-- chunk.
pub chunk_mac-product :
    (a b r carry : Chunk)
    → IsChunk a
    → IsChunk b
    → IsChunk r
    → IsChunk carry
    → value r + value carry < 2 ^ 128
    → let (q, k) = chunk_mac (some a) (some b) r carry in
      (value q + 2 ^ 128 * value k ≡ value r + value carry + value a * value b)
      × IsChunk q
      × IsChunk k
unfolding chunk_mac
chunk_mac-product a b r carry u v h k fits =
    let ms = add_carry r carry 0 ++ zero_chunk in
    let (sum, words, len, wide) = doubled r carry h k fits in
    let room =
      square (value a) (value b) (value r + value carry) (chunk-lt a u) (chunk-lt b v) fits in
    let (product, words2, len2) =
      multiply_components_lem a b ms (omega (arith, u.0, v.0, len)) u.1 v.1 words
        (omega (arith, room, sum, wide)) in
    let (e, q, c) = split_chunk_lem (multiply_components a b ms) (len2 ∙ len) words2 in
    (omega (arith, e, product, sum), q, c)

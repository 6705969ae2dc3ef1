-- ===== src/Bint/Multiply/Product.antt =====
-- `bint_mul` is the signed product, as long as no chunk overflows with the carry into it; it never
-- does if the first factor is one chunk.
use Prim.Native.Nat.{compare}
use native.Mathlib.Nat.{mod-eq_of_lt, mul-le-mul_left, mul-le-mul_right}
use libdlb.Base.{
  ℕ, suc, ◌+◌, ◌*◌, ◌^◌, ◌≤◌, ◌<◌, ◌≡◌, refl, ap, Bool, true, false, not, none, some, List, [], ◌∷◌,
  ◌++◌, map, length, replicate, if◌then◌else◌, Outcome, done, ◌>>=◌, arith,
}
use libdlb.Base.Words.{u32}
use libdlb.Bint.{Chunk, Bint, zero_chunk, alloc_chain, bit_length, extend_length}
use libdlb.Bint.Value.{
  value, magnitude, room, IsChunk, AreChunks, IsDigits, zeros-AreChunks, chunk-lt,
}
use libdlb.Bint.Chain.{Extended, refused, extended, extend_length_lem, pow-le-room, pow_add}
use libdlb.Bint.Length.{bit_length_lem, length-le-bit_length}
use libdlb.Bint.Signed.{set_sign}
use libdlb.Bint.Signed.Difference.{plus, minus, part, number, IsBint}
use libdlb.Bint.Signed.Compare.{get_sign_lem}
use libdlb.Bint.Multiply.{chunk_mac, multiply_chunks, opposite, mul}
use libdlb.Bint.Multiply.Chunks.{chunk_mac-none, chunk_mac-product}
use libdlb.Bint.Multiply.Rows.{RowFits, RowsFit, rows, multiply_chunks-rows, multiply_chunks_lem}

abbrev pub clear : List Chunk → List Chunk
clear cs = map (λ (c : Chunk). zero_chunk) cs

clear_lem :
    (cs : List Chunk)
    → AreChunks (clear cs) × (magnitude (clear cs) ≡ 0) × (length (clear cs) ≡ length cs)
clear_lem [] = (tt, refl, refl)
clear_lem (c ∷ cs) =
    let (w, m, n) = clear_lem cs in (((zeros-AreChunks 1).0, w), omega (arith, m), ap suc n)

-- what the two signs say of the product
signed :
    (x y : Bool) (m n p : ℕ)
    → p ≡ m * n
    → let z =
        opposite (compare (part x m) (part (not x) m)) (compare (part y n) (part (not y) n)) in
      (part z p ≡ part x m * part y n + part (not x) m * part (not y) n)
      × (part (not z) p ≡ part x m * part (not y) n + part (not x) m * part y n)
signed true true m n p e = ground (arith, e)
signed true false m n p e = ground (arith, e)
signed false true m n p e = ground (arith, e)
signed false false m n p e = ground (arith, e)

-- What `bint_mul` comes to: no memory and the same result, or a number that is `p - n`, of which
-- one is 0. The chain may end in chunks that are 0.
pub data Multiplied (answers : List Bool) (result : Bint) (p n : ℕ) : Bool × Bint → Type 0 where
  unmultiplied :
      (k : ℕ) → alloc_chain answers k ≡ none → Multiplied answers result p n (false, result)
  multiplied :
      (r : Bint)
      → AreChunks r.digits
      → plus r ≡ p
      → minus r ≡ n
      → Multiplied answers result p n (true, r)

wide_product :
    (a b : Chunk) (xs ys ws : List Chunk)
    → IsDigits (a ∷ xs)
    → IsDigits (b ∷ ys)
    → 128 * length (a ∷ xs) < 2 ^ 31
    → 128 * length (b ∷ ys) < 2 ^ 31
    → bit_length (a ∷ xs) + bit_length (b ∷ ys) < 128 * length ws
    → RowsFit (a ∷ xs) (b ∷ ys) (clear ws)
    → let qs = rows (a ∷ xs) (b ∷ ys) (clear ws) in
      (multiply_chunks (a ∷ xs) (b ∷ ys) (clear ws) ≡ done qs)
      × (magnitude qs ≡ magnitude (a ∷ xs) * magnitude (b ∷ ys))
      × AreChunks qs
wide_product a b xs ys ws h k small1 small2 wide f =
    let count = bit_length (a ∷ xs) + bit_length (b ∷ ys) in
    let (zeros, none_left, len) = clear_lem ws in
    let ((lt1, _), _) = bit_length_lem a xs h.0 h.1 (omega (arith, small1)) in
    let ((lt2, _), _) = bit_length_lem b ys k.0 k.1 (omega (arith, small2)) in
    let few1 = length-le-bit_length a xs h.0 h.1 (omega (arith, small1)) in
    let few2 = length-le-bit_length b ys k.0 k.1 (omega (arith, small2)) in
    let holds = pow-le-room (clear ws) count (omega (arith, wide, len)) in
    let below =
      product_lt (magnitude (a ∷ xs)) (magnitude (b ∷ ys)) (bit_length (a ∷ xs))
        (bit_length (b ∷ ys)) (room (clear ws)) lt1 lt2 holds in
    let enough : length (a ∷ xs) + length (b ∷ ys) ≤ suc (length (clear ws)) =
      omega (arith, few1, few2, wide, len) in
    let (sum, chunks, _) =
      multiply_chunks_lem (a ∷ xs) (b ∷ ys) (clear ws) (omega arith) enough h.0 k.0 zeros f
        (omega (arith, none_left, below)) in
    (
      multiply_chunks-rows (a ∷ xs) (b ∷ ys) (clear ws) (omega arith) enough,
      omega (arith, sum, none_left),
      chunks,
    )
  where
    product_lt : (m n i j r : ℕ) → m < 2 ^ i → n < 2 ^ j → 2 * 2 ^ (i + j) ≤ r → m * n < r
    product_lt m n i j r h k fits = omega (
      arith,
      mul-le-mul_right {m = m} {n = 2 ^ i} n (omega (arith, h)),
      mul-le-mul_left {m = suc n} {n = 2 ^ j} (2 ^ i) k,
      pow_add i j,
    )

-- that no chunk of the result overflows, however many chunks it has
abbrev pub Fit : Bint → Bint → Type 0
Fit a b = (ws : List Chunk) → RowsFit a.digits b.digits (clear ws)

mul-number :
    (answers : List Bool) (z x y : Bool) (rs ds es : List Chunk)
    → IsDigits rs
    → IsBint (number x ds)
    → IsBint (number y es)
    → Fit (number x ds) (number y es)
    → (o : Bool × Bint) × (mul answers (number z rs) (number x ds) (number y es) ≡ done o)
      × Multiplied answers
          (number z rs)
          (part x (magnitude ds) * part y (magnitude es)
            + part (not x) (magnitude ds) * part (not y) (magnitude es))
          (part x (magnitude ds) * part (not y) (magnitude es)
            + part (not x) (magnitude ds) * part y (magnitude es))
          o
unfolding mul set_sign
mul-number answers z x y rs [] es w h k f = absurd h.0.1
mul-number answers z x y rs (d ∷ ds) [] w h k f = absurd k.0.1
mul-number answers z x y [] (d ∷ ds) (e ∷ es) w h k f = absurd w.1
mul-number answers z x y (r ∷ rs) (d ∷ ds) (e ∷ es) w h k f =
    let count = bit_length (d ∷ ds) + bit_length (e ∷ es) in
    let (_, few1) = bit_length_lem d ds h.0.0 h.0.1 (omega (arith, h.1)) in
    let (_, few2) = bit_length_lem e es k.0.0 k.0.1 (omega (arith, k.1)) in
    let wrap : u32 count ≡ count =
      mod-eq_of_lt {n = count} {m = 2 ^ 32} (omega (arith, few1, few2, h.1, k.1)) in
    rw (wrap, get_sign_lem (number x (d ∷ ds)) h.0, get_sign_lem (number y (e ∷ es)) k.0)
      (go (extend_length answers (r ∷ rs) count) (extend_length_lem answers r rs count))
  where
    signs : List Chunk → Outcome (Bool × Bint)
    signs digits = done (
      true,
      set_sign (number z digits) (
          opposite (compare (plus (number x (d ∷ ds))) (minus (number x (d ∷ ds))))
            (compare (plus (number y (e ∷ es))) (minus (number y (e ∷ es))))),
    )

    go :
        (o : Bool × List Chunk)
        → Extended answers (r ∷ rs) (bit_length (d ∷ ds) + bit_length (e ∷ es)) o
        → (q : Bool × Bint) × ((if o.0
              then (multiply_chunks (d ∷ ds) (e ∷ es) (clear o.1) >>= λ digits. signs digits)
              else done (false, number z o.1))
            ≡ done q)
          × Multiplied answers
              (number z (r ∷ rs))
              (part x (magnitude (d ∷ ds)) * part y (magnitude (e ∷ es))
                + part (not x) (magnitude (d ∷ ds)) * part (not y) (magnitude (e ∷ es)))
              (part x (magnitude (d ∷ ds)) * part (not y) (magnitude (e ∷ es))
                + part (not x) (magnitude (d ∷ ds)) * part y (magnitude (e ∷ es)))
              q
    go o (refused n none_left) = (_, refl, unmultiplied n none_left)
    go o (extended n wide) =
        let (runs, product, chunks) =
          wide_product d e ds es ((r ∷ rs) ++ replicate n zero_chunk) h.0 k.0 h.1 k.1 wide
            (f ((r ∷ rs) ++ replicate n zero_chunk)) in
        let (positive, negative_part) =
          signed x y (magnitude (d ∷ ds)) (magnitude (e ∷ es)) _ product in
        (_, ap (λ o. o >>= λ digits. signs digits) runs, multiplied _ chunks positive negative_part)

-- Of factors that keep the invariant, in chains of fewer than 2 ^ 31 bits, `bint_mul` dereferences no
-- NULL and either finds no memory and leaves the result as it was, or makes it the signed product, if
-- no chunk of the result overflows with the carry into it.
pub mul-Multiplied :
    (answers : List Bool) (result a b : Bint)
    → IsDigits result.digits
    → IsBint a
    → IsBint b
    → Fit a b
    → (o : Bool × Bint) × (mul answers result a b ≡ done o)
      × Multiplied answers result
          (plus a * plus b + minus a * minus b)
          (plus a * minus b + minus a * plus b)
          o
mul-Multiplied answers result a b w h k f =
    mul-number answers result.negative a.negative b.negative result.digits a.digits b.digits w h k f

cleared_row :
    (ac : Chunk) (b ws : List Chunk) (carry : Chunk)
    → IsChunk ac
    → AreChunks b
    → IsChunk carry
    → RowFits ac b (clear ws) carry
cleared_row ac [] [] carry u v k = tt
cleared_row ac (b ∷ bs) [] carry u v k = tt
cleared_row ac [] (w ∷ ws) carry u v k =
    let fits : value zero_chunk + value carry < 2 ^ 128 = omega (arith, chunk-lt carry k) in
    let (_, _, c) = chunk_mac-none zero_chunk carry (zeros-AreChunks 1).0 k fits in
    (fits, cleared_row ac [] ws (chunk_mac none none zero_chunk carry).1 u v c)
cleared_row ac (b ∷ bs) (w ∷ ws) carry u v k =
    let fits : value zero_chunk + value carry < 2 ^ 128 = omega (arith, chunk-lt carry k) in
    let (_, _, c) = chunk_mac-product ac b zero_chunk carry u v.0 (zeros-AreChunks 1).0 k fits in
    (fits, cleared_row ac bs ws (chunk_mac (some ac) (some b) zero_chunk carry).1 u v.1 c)

-- Of factors that keep the invariant, in chains of fewer than 2 ^ 31 bits of which the first is
-- one chunk, `bint_mul` dereferences no NULL and either finds no memory and leaves the result as it
-- was, or makes it the signed product. The result keeps the invariant before the call.
pub mul_short-Multiplied :
    (answers : List Bool) (result a b : Bint)
    → IsDigits result.digits
    → IsBint a
    → IsBint b
    → length a.digits ≡ 1
    → (o : Bool × Bint) × (mul answers result a b ≡ done o)
      × Multiplied answers result
          (plus a * plus b + minus a * minus b)
          (plus a * minus b + minus a * plus b)
          o
mul_short-Multiplied answers result a b w h k one =
    mul-Multiplied answers result a b w h k (fit a.digits h.0.0 one)
  where
    fit :
        (ds : List Chunk)
        → AreChunks ds
        → length ds ≡ 1
        → (ws : List Chunk) → RowsFit ds b.digits (clear ws)
    fit [] u n ws = absurd (omega (arith, n))
    fit (c ∷ []) u n ws = (cleared_row c b.digits ws zero_chunk u.0 k.0.0 (zeros-AreChunks 1).0, tt)
    fit (c ∷ d ∷ ds) u n ws = absurd (omega (arith, n))

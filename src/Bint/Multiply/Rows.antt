-- ===== src/Bint/Multiply/Rows.antt =====
-- The loops of `bint_mul` multiply, as long as no chunk overflows with the carry into it.
use libdlb.Base.{
  suc, ◌+◌, ◌*◌, ◌^◌, ◌≤◌, ◌<◌, ◌≡◌, refl, ap, ◌∙◌, sym, none, some, List, [], ◌∷◌, length, drop,
  done, ◌>>=◌, arith,
}
use libdlb.Bint.{Chunk, zero_chunk}
use libdlb.Bint.Value.{value, magnitude, room, IsChunk, AreChunks, zeros-AreChunks}
use libdlb.Bint.Chain.{room-length}
use libdlb.Bint.Multiply.{
  chunk_mac, carry_chunks, multiply_chunk, above_first_chunk, multiply_chunks,
}
use libdlb.Bint.Multiply.Chunks.{chunk_mac-none, chunk_mac-product}

-- What the loop over `b` leaves, the loop over `a` above the first chunk, and that loop, where the
-- result has chunks enough.
pub row : Chunk → List Chunk → List Chunk → Chunk → List Chunk
row ac (bc ∷ b) (rc ∷ rcs) carry =
    let (r, k) = chunk_mac (some ac) (some bc) rc carry in r ∷ row ac b rcs k
row ac [] rcs carry = carry_chunks rcs carry
row ac (bc ∷ b) [] carry = []

above_row : (List Chunk → List Chunk) → List Chunk → List Chunk
above_row f [] = []
above_row f (r ∷ rs) = r ∷ f rs

pub rows : List Chunk → List Chunk → List Chunk → List Chunk
unfolding above_row
rows [] b rs = rs
rows (ac ∷ a) b rs = above_row (rows a b) (row ac b rs zero_chunk)

length-carry_chunks : (rs : List Chunk) (carry : Chunk) → length (carry_chunks rs carry) ≡ length rs
unfolding carry_chunks
length-carry_chunks [] carry = refl
length-carry_chunks (r ∷ rs) carry = ap suc (length-carry_chunks rs (chunk_mac none none r carry).1)

multiply_chunk-row :
    (ac : Chunk) (b rs : List Chunk) (carry : Chunk)
    → length b ≤ length rs
    → (multiply_chunk ac b rs carry ≡ done (row ac b rs carry))
      × (length (row ac b rs carry) ≡ length rs)
unfolding multiply_chunk row
multiply_chunk-row ac [] rs carry n = (refl, length-carry_chunks rs carry)
multiply_chunk-row ac (b ∷ bs) [] carry n = absurd (omega (arith, n))
multiply_chunk-row ac (b ∷ bs) (r ∷ rs) carry n =
    let (q, k) = chunk_mac (some ac) (some b) r carry in
    let (runs, len) = multiply_chunk-row ac bs rs k (omega (arith, n)) in
    (ap (λ o. o >>= λ rest. done (q ∷ rest)) runs, ap suc len)

-- The loops do not come to NULL where the result has chunks enough.
pub multiply_chunks-rows :
    (xs b rs : List Chunk)
    → 0 < length b
    → length xs + length b ≤ suc (length rs)
    → multiply_chunks xs b rs ≡ done (rows xs b rs)
unfolding multiply_chunks above_first_chunk rows
multiply_chunks-rows [] b rs p n = refl
multiply_chunks-rows (x ∷ xs) b rs p n =
    let (runs, len) = multiply_chunk-row x b rs zero_chunk (omega (arith, n)) in
    ap (λ o. o >>= above_first_chunk (multiply_chunks xs b)) runs
    ∙ above (row x b rs zero_chunk) len (λ ts. multiply_chunks-rows xs b ts p)
  where
    above :
        (qs : List Chunk)
        → length qs ≡ length rs
        → ((ts : List Chunk)
            → length xs + length b ≤ suc (length ts)
            → multiply_chunks xs b ts ≡ done (rows xs b ts))
        → above_first_chunk (multiply_chunks xs b) qs ≡ done (above_row (rows xs b) qs)
    above [] len rest = absurd (omega (arith, len, n, p))
    above (q ∷ qs) len rest = ap (λ o. o >>= λ ts. done (q ∷ ts)) (rest qs (omega (arith, len, n)))

-- At each chunk of the result that the loop over `b` comes to, and behind it, the chunk and the
-- carry do not overflow a chunk.
abbrev pub RowFits : Chunk → List Chunk → List Chunk → Chunk → Type 0
RowFits ac (bc ∷ b) (rc ∷ rcs) carry =
    (value rc + value carry < 2 ^ 128) × RowFits ac b rcs (chunk_mac (some ac) (some bc) rc carry).1
RowFits ac [] (rc ∷ rcs) carry =
    (value rc + value carry < 2 ^ 128) × RowFits ac [] rcs (chunk_mac none none rc carry).1
RowFits ac b [] carry = Unit

-- the same of the loop over `a`
abbrev pub RowsFit : List Chunk → List Chunk → List Chunk → Type 0
RowsFit [] b rs = Unit
RowsFit (ac ∷ a) b rs = RowFits ac b rs zero_chunk × RowsFit a b (drop 1 (row ac b rs zero_chunk))

carry_chunks_lem :
    (ac : Chunk) (rs : List Chunk) (carry : Chunk)
    → AreChunks rs
    → IsChunk carry
    → RowFits ac [] rs carry
    → magnitude rs + value carry < room rs
    → let qs = carry_chunks rs carry in
      (magnitude qs ≡ magnitude rs + value carry) × AreChunks qs × (length qs ≡ length rs)
unfolding carry_chunks
carry_chunks_lem ac [] carry w k f fits = (omega (arith, fits), tt, refl)
carry_chunks_lem ac (r ∷ rs) carry w k f fits =
    let (e, q, c) = chunk_mac-none r carry w.0 k f.0 in
    let (sum, chunks, len) =
      carry_chunks_lem ac rs (chunk_mac none none r carry).1 w.1 c f.1 (omega (arith, fits, e)) in
    (omega (arith, sum, e), (q, chunks), ap suc len)

multiply_chunk_lem :
    (ac : Chunk) (b rs : List Chunk) (carry : Chunk)
    → length b ≤ length rs
    → IsChunk ac
    → AreChunks b
    → AreChunks rs
    → IsChunk carry
    → RowFits ac b rs carry
    → magnitude rs + value ac * magnitude b + value carry < room rs
    → let qs = row ac b rs carry in
      (magnitude qs ≡ magnitude rs + value ac * magnitude b + value carry)
      × AreChunks qs
      × (length qs ≡ length rs)
unfolding row
multiply_chunk_lem ac [] rs carry n u v w k f fits =
    let (sum, chunks, len) = carry_chunks_lem ac rs carry w k f (omega (arith, fits)) in
    (omega (arith, sum), chunks, len)
multiply_chunk_lem ac (b ∷ bs) [] carry n u v w k f fits = absurd (omega (arith, n))
multiply_chunk_lem ac (b ∷ bs) (r ∷ rs) carry n u v w k f fits =
    let (e, q, c) = chunk_mac-product ac b r carry u v.0 w.0 k f.0 in
    let (sum, chunks, len) =
      multiply_chunk_lem ac bs rs (chunk_mac (some ac) (some b) r carry).1 (omega (arith, n)) u v.1
        w.1 c f.1 (omega (arith, fits, e)) in
    (omega (arith, sum, e), (q, chunks), ap suc len)

-- The loop over `a` adds the product of the numbers.
pub multiply_chunks_lem :
    (xs b rs : List Chunk)
    → 0 < length b
    → length xs + length b ≤ suc (length rs)
    → AreChunks xs
    → AreChunks b
    → AreChunks rs
    → RowsFit xs b rs
    → magnitude rs + magnitude xs * magnitude b < room rs
    → let qs = rows xs b rs in
      (magnitude qs ≡ magnitude rs + magnitude xs * magnitude b)
      × AreChunks qs
      × (length qs ≡ length rs)
unfolding rows above_row
multiply_chunks_lem [] b rs p n u v w f fits = (omega arith, w, refl)
multiply_chunks_lem (x ∷ xs) b rs p n u v w f fits =
    let (sum, chunks, len) =
      multiply_chunk_lem x b rs zero_chunk (omega (arith, n)) u.0 v w (zeros-AreChunks 1).0 f.0
        (omega (arith, fits)) in
    above (row x b rs zero_chunk) sum chunks len f.1 (λ ts. multiply_chunks_lem xs b ts p)
  where
    above :
        (qs : List Chunk)
        → magnitude qs ≡ magnitude rs + value x * magnitude b + value zero_chunk
        → AreChunks qs
        → length qs ≡ length rs
        → RowsFit xs b (drop 1 qs)
        → ((ts : List Chunk)
            → length xs + length b ≤ suc (length ts)
            → AreChunks xs
            → AreChunks b
            → AreChunks ts
            → RowsFit xs b ts
            → magnitude ts + magnitude xs * magnitude b < room ts
            → let qs = rows xs b ts in
              (magnitude qs ≡ magnitude ts + magnitude xs * magnitude b)
              × AreChunks qs
              × (length qs ≡ length ts))
        → let ps = above_row (rows xs b) qs in
          (magnitude ps ≡ magnitude rs + magnitude (x ∷ xs) * magnitude b)
          × AreChunks ps
          × (length ps ≡ length rs)
    above [] e c len g rest = absurd (omega (arith, len, n, p))
    above (q ∷ qs) e c len g rest =
        let same : room (q ∷ qs) ≡ room rs =
          room-length (q ∷ qs) ∙ ap (λ t. 2 ^ (128 * t)) len ∙ sym (room-length rs) in
        let (sum, chunks, last) =
          rest qs (omega (arith, len, n)) u.1 v c.1 g (omega (arith, fits, e, same)) in
        (omega (arith, sum, e), (c.0, chunks), ap suc last ∙ len)

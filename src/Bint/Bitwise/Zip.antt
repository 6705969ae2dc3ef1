-- ===== src/Bint/Bitwise/Zip.antt =====
-- The loops of `bint_or`, `bint_and`, `bint_bic` and `bint_xor`, bit by bit.
use libdlb.Base.{
  ℕ, suc, ◌+◌, ◌-◌, ◌*◌, ◌^◌, ◌<◌, ◌≡◌, refl, ap, ap₂, ◌∙◌, sym, Bool, true, false, ◌&&◌, List, [],
  ◌∷◌, length, ltb, if◌then◌else◌, arith,
}
use libdlb.Bint.{Chunk, chunk_is_zero}
use libdlb.Bint.Value.{value, magnitude, AreWords, IsChunk, AreChunks, chunk-lt}
use libdlb.Bint.Chain.{trim_chunks-IsDigits}
use libdlb.Bint.Bitwise.{bitwise, zip_words, zip_chunks, and_chunks, trim_if}
use libdlb.Bint.Bitwise.Words.{bit, bit-zero, bit-fields, bitwise-lt, bit-bitwise}

abbrev pub Op : Type 0
Op = Bool → Bool → Bool

spread :
    (f : Op) (x a b c d : Bool)
    → (if x then f a b else f c d) ≡ f (if x then a else c) (if x then b else d)
spread f true a b c d = refl
spread f false a b c d = refl

-- the bits of lower and upper fields
pub zip_fields :
    (f : Op) (k u v w u2 v2 w2 i : ℕ)
    → u < 2 ^ k
    → v < 2 ^ k
    → w < 2 ^ k
    → ((j : ℕ) → bit w j ≡ f (bit u j) (bit v j))
    → ((j : ℕ) → bit w2 j ≡ f (bit u2 j) (bit v2 j))
    → bit (w + 2 ^ k * w2) i ≡ f (bit (u + 2 ^ k * u2) i) (bit (v + 2 ^ k * v2) i)
zip_fields f k u v w u2 v2 w2 i h g l low high =
    bit-fields k w w2 i l
    ∙ ap₂ (λ a b. if ltb i k then a else b) (low i) (high (i - k))
    ∙ spread f (ltb i k) (bit u i) (bit v i) (bit u2 (i - k)) (bit v2 (i - k))
    ∙ sym (ap₂ f (bit-fields k u u2 i h) (bit-fields k v v2 i g))

zip_words_lem :
    (f : Op) (ds ss : List ℕ)
    → f false false ≡ false
    → length ds ≡ length ss
    → AreWords ds
    → AreWords ss
    → AreWords (zip_words f ds ss)
      × (length (zip_words f ds ss) ≡ length ds)
      × ((i : ℕ) → bit (value (zip_words f ds ss)) i ≡ f (bit (value ds) i) (bit (value ss) i))
unfolding zip_words
zip_words_lem f [] [] z n w x =
    (tt, refl, λ i. bit-zero i ∙ sym (ap₂ f (bit-zero i) (bit-zero i) ∙ z))
zip_words_lem f [] (s ∷ ss) z n w x = absurd (omega (arith, n))
zip_words_lem f (d ∷ ds) [] z n w x = absurd (omega (arith, n))
zip_words_lem f (d ∷ ds) (s ∷ ss) z n w x =
    let (words, len, same) = zip_words_lem f ds ss z (omega (arith, n)) w.1 x.1 in
    (
      (bitwise-lt f 32 d s, words),
      ap suc len,
      λ i.
          zip_fields f 32 d s (bitwise f 32 d s) (value ds) (value ss) _ i w.0 x.0
            (bitwise-lt f 32 d s) (λ j. bit-bitwise f 32 d s j z w.0 x.0) same,
    )

zip_chunk :
    (f : Op) (d s : Chunk)
    → f false false ≡ false
    → IsChunk d
    → IsChunk s
    → IsChunk (zip_words f d s)
      × ((i : ℕ) → bit (value (zip_words f d s)) i ≡ f (bit (value d) i) (bit (value s) i))
zip_chunk f d s z h k =
    let (words, len, same) = zip_words_lem f d s z (h.0 ∙ sym k.0) h.1 k.1 in
    ((len ∙ h.0, words), same)

-- what a loop of the operator `f` has to do
abbrev pub Zipped : Op → List Chunk → List Chunk → List Chunk → Type 0
Zipped f dc sc rs =
    AreChunks rs
    × ((i : ℕ) → bit (magnitude rs) i ≡ f (bit (magnitude dc) i) (bit (magnitude sc) i))

zip_more :
    (f : Op) (d s : Chunk) (dc sc rs : List Chunk)
    → f false false ≡ false
    → IsChunk d
    → IsChunk s
    → Zipped f dc sc rs
    → Zipped f (d ∷ dc) (s ∷ sc) (zip_words f d s ∷ rs)
zip_more f d s dc sc rs z h k (chunks, same) =
    let (chunk, low) = zip_chunk f d s z h k in
    (
      (chunk, chunks),
      λ i.
          zip_fields f 128 (value d) (value s) (value (zip_words f d s)) (magnitude dc)
            (magnitude sc) (magnitude rs) i (chunk-lt d h) (chunk-lt s k)
            (chunk-lt (zip_words f d s) chunk) low same,
    )

-- The operator keeps a bit beside 0, and a chain that is longer than that of `dst` counts for
-- nothing.
pub zip_chunks_lem :
    (f : Op) (dc sc : List Chunk) (flag : Bool)
    → ((x : Bool) → f x false ≡ x)
    → (length dc < length sc → (x : Bool) → f false x ≡ false)
    → AreChunks dc
    → AreChunks sc
    → Zipped f dc sc (zip_chunks f dc sc flag).1
unfolding zip_chunks
zip_chunks_lem f [] [] flag k z w x =
    (tt, λ i. bit-zero i ∙ sym (ap₂ f (bit-zero i) (bit-zero i) ∙ k false))
zip_chunks_lem f [] (s ∷ sc) flag k z w x = (
  tt,
  λ i.
      bit-zero i
      ∙ sym (ap (λ b. f b (bit (magnitude (s ∷ sc)) i)) (bit-zero i) ∙ z (omega arith) _),
)
zip_chunks_lem f (d ∷ dc) [] flag k z w x =
    (w, λ i. sym (ap (λ b. f (bit (magnitude (d ∷ dc)) i) b) (bit-zero i) ∙ k _))
zip_chunks_lem f (d ∷ dc) (s ∷ sc) flag k z w x =
    zip_more f d s dc sc (zip_chunks f dc sc (chunk_is_zero (zip_words f d s))).1 (k false) w.0 x.0
      (zip_chunks_lem f dc sc (chunk_is_zero (zip_words f d s)) k (λ h. z (omega (arith, h))) w.1
        x.1)

nothing_and : (i : ℕ) (y : Bool) → bit 0 i ≡ bit 0 i && y
nothing_and i y = bit-zero i ∙ sym (ap (λ b. b && y) (bit-zero i))

and_nothing : (i : ℕ) (x : Bool) → bit 0 i ≡ x && bit 0 i
and_nothing i true = refl
and_nothing i false = bit-zero i

pub and_chunks_lem :
    (dc sc : List Chunk) (flag : Bool)
    → 0 < length sc
    → AreChunks dc
    → AreChunks sc
    → Zipped (◌&&◌) dc sc (and_chunks dc sc flag).1
unfolding and_chunks
and_chunks_lem dc [] flag n w x = absurd (omega (arith, n))
and_chunks_lem [] (s ∷ []) flag n w x = (tt, λ i. nothing_and i (bit (magnitude (s ∷ [])) i))
and_chunks_lem [] (s ∷ t ∷ sc) flag n w x =
    (tt, λ i. nothing_and i (bit (magnitude (s ∷ t ∷ sc)) i))
and_chunks_lem (d ∷ dc) (s ∷ []) flag n w x =
    zip_more (◌&&◌) d s dc [] [] refl w.0 x.0 (tt, λ i. and_nothing i (bit (magnitude dc) i))
and_chunks_lem (d ∷ dc) (s ∷ t ∷ sc) flag n w x =
    zip_more (◌&&◌) d s dc (t ∷ sc)
      (and_chunks dc (t ∷ sc) (chunk_is_zero (zip_words (◌&&◌) d s))).1 refl w.0 x.0
      (and_chunks_lem dc (t ∷ sc) (chunk_is_zero (zip_words (◌&&◌) d s)) (omega arith) w.1 x.1)

-- Trimming leaves the bits.
pub trim_if-Zipped :
    (f : Op) (dc sc : List Chunk) (last : Bool) (rs : List Chunk)
    → 0 < length rs
    → Zipped f dc sc rs
    → Zipped f dc sc (trim_if (last, rs))
unfolding trim_if
trim_if-Zipped f dc sc false rs n z = z
trim_if-Zipped f dc sc true rs n (chunks, same) =
    let (digits, kept) = trim_chunks-IsDigits rs n chunks in
    (digits.0, λ i. ap (λ v. bit v i) kept ∙ same i)

pub length-zip_chunks :
    (f : Op) (dc sc : List Chunk) (flag : Bool) → length (zip_chunks f dc sc flag).1 ≡ length dc
unfolding zip_chunks
length-zip_chunks f [] [] flag = refl
length-zip_chunks f [] (s ∷ sc) flag = refl
length-zip_chunks f (d ∷ dc) [] flag = refl
length-zip_chunks f (d ∷ dc) (s ∷ sc) flag =
    ap suc (length-zip_chunks f dc sc (chunk_is_zero (zip_words f d s)))

pub length-and_chunks :
    (dc sc : List Chunk) (flag : Bool) → 0 < length dc → 0 < length (and_chunks dc sc flag).1
unfolding and_chunks
length-and_chunks [] sc flag h = absurd (omega (arith, h))
length-and_chunks (d ∷ dc) [] flag h = omega arith
length-and_chunks (d ∷ dc) (s ∷ []) flag h = omega arith
length-and_chunks (d ∷ dc) (s ∷ t ∷ sc) flag h = omega arith

-- ===== src/Bint/Bitwise/Change.antt =====
-- A component with one bit changed, in its chunk and its chain.
use native.Mathlib.Nat.{pow-suc, pow-le-pow_right}
use libdlb.Base.{
  ℕ, suc, ◌+◌, ◌-◌, ◌*◌, ◌/◌, ◌%◌, ◌^◌, ◌≤◌, ◌<◌, ◌≡◌, refl, ap, ◌∙◌, sym, inl, inr, Bool, false,
  Bool-cases, List, [], ◌∷◌, length, get_or, set, ltb, arith,
}
use libdlb.Bint.{Chunk}
use libdlb.Bint.Value.{value, magnitude, AreWords, IsChunk, AreChunks, chunk-lt}
use libdlb.Bint.Chain.{pow_add}
use libdlb.Bint.Bitwise.{bitwise, change_bit}
use libdlb.Bint.Bitwise.Words.{bit, bit-zero, bitwise-lt, bit-bitwise}
use libdlb.Bint.Bitwise.Zip.{Op, zip_fields}

power_positive : (k : ℕ) → 0 < 2 ^ k
power_positive k = pow-le-pow_right {n = 2} (omega arith) {i = 0} {j = k} (omega arith)

pow-lt : (p k : ℕ) → p < k → 2 ^ p < 2 ^ k
pow-lt p k h = omega (
  arith,
  pow-le-pow_right {n = 2} (omega arith) {i = suc p} {j = k} (omega (arith, h)),
  pow-suc 2 p,
  power_positive p,
)

power_parts : (k p : ℕ) → k ≤ p → 0 + 2 ^ k * 2 ^ (p - k) ≡ 2 ^ p
power_parts k p h =
    let parts : k + (p - k) ≡ p = omega (arith, h) in
    omega (arith, pow_add k (p - k), ap (λ t. 2 ^ t) parts)

-- the power of two that has the bit
low_power :
    (k p v w w2 i : ℕ) (f : Op)
    → p < k
    → v < 2 ^ k
    → w < 2 ^ k
    → ((x : Bool) → f x false ≡ x)
    → ((j : ℕ) → bit w j ≡ f (bit v j) (bit (2 ^ p) j))
    → bit (w + 2 ^ k * w2) i ≡ f (bit (v + 2 ^ k * w2) i) (bit (2 ^ p) i)
low_power k p v w w2 i f h g l z same =
    zip_fields f k v (2 ^ p) w w2 0 w2 i g (pow-lt p k h) l same
      (λ j. sym (ap (λ b. f (bit w2 j) b) (bit-zero j) ∙ z (bit w2 j)))
    ∙ ap (λ n. f (bit (v + 2 ^ k * w2) i) (bit n i)) {x = 2 ^ p + 2 ^ k * 0} {y = 2 ^ p}
        (omega arith)

high_power :
    (k p v w2 u2 i : ℕ) (f : Op)
    → k ≤ p
    → v < 2 ^ k
    → ((x : Bool) → f x false ≡ x)
    → ((j : ℕ) → bit w2 j ≡ f (bit u2 j) (bit (2 ^ (p - k)) j))
    → bit (v + 2 ^ k * w2) i ≡ f (bit (v + 2 ^ k * u2) i) (bit (2 ^ p) i)
high_power k p v w2 u2 i f h g z same =
    zip_fields f k v 0 v u2 (2 ^ (p - k)) w2 i g (power_positive k) g
      (λ j. sym (ap (λ b. f (bit v j) b) (bit-zero j) ∙ z (bit v j))) same
    ∙ ap (λ n. f (bit (v + 2 ^ k * u2) i) (bit n i)) {x = 0 + 2 ^ k * 2 ^ (p - k)} {y = 2 ^ p}
        (power_parts k p h)

change_words_lem :
    (f : Op) (ds : List ℕ) (pos : ℕ)
    → ((x : Bool) → f x false ≡ x)
    → AreWords ds
    → pos < 32 * length ds
    → let rs = set ds (pos / 32) (bitwise f 32 (get_or ds (pos / 32) 0) (2 ^ (pos % 32))) in
      AreWords rs
      × (length rs ≡ length ds)
      × ((i : ℕ) → bit (value rs) i ≡ f (bit (value ds) i) (bit (2 ^ pos) i))
change_words_lem f [] pos z w h = absurd (omega (arith, h))
change_words_lem f (d ∷ ds) pos z w h = elim (Bool-cases (ltb pos 32)) [
  | inl small ↦
      let first : pos / 32 ≡ 0 = ground (arith, small) in
      let same : pos % 32 ≡ pos = ground (arith, small) in
      rw (first, same)
        (
          (bitwise-lt f 32 d (2 ^ pos), w.1),
          refl,
          λ i.
              low_power 32 pos d (bitwise f 32 d (2 ^ pos)) (value ds) i f (ground (arith, small))
                w.0 (bitwise-lt f 32 d (2 ^ pos)) z
                (λ j.
                  bit-bitwise f 32 d (2 ^ pos) j (z false) w.0
                    (pow-lt pos 32 (ground (arith, small)))),
        )
  | inr large ↦
      let next : pos / 32 ≡ suc ((pos - 32) / 32) = ground (arith, large) in
      let same : pos % 32 ≡ (pos - 32) % 32 = ground (arith, large) in
      let (words, len, bits) = change_words_lem f ds (pos - 32) z w.1 (ground (arith, large, h)) in
      rw (next, same)
        (
          (w.0, words),
          ap suc len,
          λ i. high_power 32 pos d _ (value ds) i f (ground (arith, large)) w.0 z bits,
        )
]

-- what a change of the bit `pos` has to do
abbrev pub Changed : Op → List Chunk → ℕ → List Chunk → Type 0
Changed f cs pos rs =
    AreChunks rs × ((i : ℕ) → bit (magnitude rs) i ≡ f (bit (magnitude cs) i) (bit (2 ^ pos) i))

pub change_first :
    (f : Op) (c : Chunk) (cs : List Chunk) (pos : ℕ)
    → ((x : Bool) → f x false ≡ x)
    → AreChunks (c ∷ cs)
    → pos < 128
    → Changed f (c ∷ cs) pos (change_bit f c pos ∷ cs)
unfolding change_bit
change_first f c cs pos z w h =
    let (words, len, bits) = change_words_lem f c pos z w.0.1 (omega (arith, h, w.0.0)) in
    let chunk : IsChunk (change_bit f c pos) = (len ∙ w.0.0, words) in
    (
      (chunk, w.1),
      λ i.
          low_power 128 pos (value c) _ (magnitude cs) i f h (chunk-lt c w.0) (chunk-lt _ chunk) z
            bits,
    )

pub change_next :
    (f : Op) (c : Chunk) (cs rs : List Chunk) (pos : ℕ)
    → ((x : Bool) → f x false ≡ x)
    → IsChunk c
    → 128 ≤ pos
    → Changed f cs (pos - 128) rs
    → Changed f (c ∷ cs) pos (c ∷ rs)
change_next f c cs rs pos z w h (chunks, bits) = (
  (w, chunks),
  λ i. high_power 128 pos (value c) (magnitude rs) (magnitude cs) i f h (chunk-lt c w) z bits,
)

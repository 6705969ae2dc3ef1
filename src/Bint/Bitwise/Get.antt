-- ===== src/Bint/Bitwise/Get.antt =====
-- `bint_bit_get` is a bit of the number.
use libdlb.Base.{
  ℕ, zero, suc, ◌+◌, ◌-◌, ◌*◌, ◌/◌, ◌%◌, ◌^◌, ◌<◌, ◌≡◌, refl, ◌∙◌, sym, ◌⊎◌, inl, inr, Bool, true,
  false, not, ◌&&◌, Bool-cases, List, [], ◌∷◌, get_or, ltb, ◌==◌, if◌then◌else◌, arith,
}
use libdlb.Bint.{Chunk}
use libdlb.Bint.Value.{value, magnitude, AreWords, AreChunks, chunk-lt}
use libdlb.Bint.Bitwise.{odd, bitwise, test_bit, bit_get}
use libdlb.Bint.Bitwise.Words.{bit, bit-zero, bit-fields, odd_power, half_power}

-- A component in its place.
bit-value :
    (ds : List ℕ) (i : ℕ) → AreWords ds → bit (value ds) i ≡ bit (get_or ds (i / 32) 0) (i % 32)
bit-value [] i w = bit-zero i ∙ sym (bit-zero (i % 32))
bit-value (d ∷ ds) i w =
    bit-fields 32 d (value ds) i w.0 ∙ place (Bool-cases (ltb i 32)) (λ j. bit-value ds j w.1)
  where
    place :
        (ltb i 32 ≡ true) ⊎ (ltb i 32 ≡ false)
        → ((j : ℕ) → bit (value ds) j ≡ bit (get_or ds (j / 32) 0) (j % 32))
        → (if ltb i 32 then bit d i else bit (value ds) (i - 32))
          ≡ bit (get_or (d ∷ ds) (i / 32) 0) (i % 32)
    place (inl small) rest =
        let first : i / 32 ≡ 0 = ground (arith, small) in
        let same : i % 32 ≡ i = ground (arith, small) in rw (small, first, same) refl
    place (inr large) rest =
        let next : i / 32 ≡ suc ((i - 32) / 32) = ground (arith, large) in
        let same : i % 32 ≡ (i - 32) % 32 = ground (arith, large) in
        rw (large, next, same) (rest (i - 32))

and_zero : (w a : ℕ) → bitwise (◌&&◌) w a 0 ≡ 0
unfolding bitwise
and_zero zero a = refl
and_zero (suc w) a = rw (and_zero w (a / 2)) (none_set (odd a))
  where
    none_set : (x : Bool) → (if x && false then 1 else 0) + 2 * 0 ≡ 0
    none_set true = refl
    none_set false = refl

-- A word and 2 ^ p is not 0 just if bit p is set.
test_word : (w d p : ℕ) → p < w → not (bitwise (◌&&◌) w d (2 ^ p) == 0) ≡ bit d p
unfolding bitwise
test_word zero d p h = absurd (omega (arith, h))
test_word (suc w) d zero h = rw (and_zero w (d / 2)) (lowest (odd d))
  where
    lowest : (x : Bool) → not ((if x && true then 1 else 0) + 2 * 0 == 0) ≡ x
    lowest true = refl
    lowest false = refl
test_word (suc w) d (suc p) h =
    rw (odd_power p, half_power p)
      (higher (odd d) (bitwise (◌&&◌) w (d / 2) (2 ^ p)) ∙ test_word w (d / 2) p (omega (arith, h)))
  where
    higher : (x : Bool) (n : ℕ) → not ((if x && false then 1 else 0) + 2 * n == 0) ≡ not (n == 0)
    higher true n = ground arith
    higher false n = ground arith

test_bit_lem : (c : Chunk) (pos : ℕ) → AreWords c → test_bit c pos ≡ bit (value c) pos
unfolding test_bit
test_bit_lem c pos w =
    test_word 32 (get_or c (pos / 32) 0) (pos % 32) (omega arith) ∙ sym (bit-value c pos w)

-- `bint_bit_get` is the bit of the magnitude.
pub bit_get_lem :
    (cs : List Chunk) (pos : ℕ) → AreChunks cs → bit_get cs pos ≡ bit (magnitude cs) pos
unfolding bit_get
bit_get_lem [] pos w = sym (bit-zero pos)
bit_get_lem (c ∷ cs) pos w =
    rw (test_bit_lem c pos w.0.1, bit_get_lem cs (pos - 128) w.1)
      (sym (bit-fields 128 (value c) (magnitude cs) pos (chunk-lt c w.0)))

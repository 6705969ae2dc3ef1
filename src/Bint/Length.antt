-- ===== src/Bint/Length.antt =====
-- `bint_bit_length` is the number of bits.
use native.Mathlib.Nat.{pow-suc, mul-le-mul_left, mod-eq_of_lt}
use mathlib.Core.List.{reverse-cons}
use libdlb.Base.{
  ℕ, zero, suc, ◌+◌, ◌*◌, ◌/◌, ◌%◌, ◌^◌, ◌≤◌, ◌<◌, ◌≡◌, refl, ap, ◌∙◌, sym, subst, Bool-cases, inl,
  inr, false, List, [], ◌∷◌, ◌++◌, length, length-reverse, reverse, ◌==◌, arith,
}
use libdlb.Bint.{Chunk, chunk_is_zero, ends_in_zero, bits, top_bits, bit_length}
use libdlb.Bint.Value.{
  value, zero-value, span, magnitude, AreWords, AreChunks, IsTopped, topped-room, room_positive,
  chunk-lt,
}
use libdlb.Bint.Chain.{pow_add}

-- `n` is the number of bits of `v`.
abbrev pub HasBits : ℕ → ℕ → Type 0
HasBits v n = (v < 2 ^ n) × (0 < n → 2 ^ n ≤ 2 * v)

half : (b d : ℕ) → 0 < d → (0 < b → 2 ^ b ≤ 2 * (d / 2)) → 2 ^ suc b ≤ 2 * d
half zero d p h = omega arith
half (suc b) d p h = omega (arith, pow-suc 2 (suc b), h (omega arith))

pub bits_lem : (r d : ℕ) → d < 2 ^ r → HasBits d (bits r d) × (bits r d ≤ r)
unfolding bits
bits_lem zero d h = ((omega (arith, h), λ p. absurd (omega (arith, p))), omega arith)
bits_lem (suc r) d h = elim (Bool-cases (d == 0)) [
  | inl z ↦ rw z ((ground (arith, z), λ p. absurd (omega (arith, p))), omega arith)
  | inr nz ↦
      let ((a, b), c) = bits_lem r (d / 2) (omega (arith, pow-suc 2 r)) in
      let p : 0 < d = ground (arith, nz) in
      rw nz (
        (omega (arith, a, pow-suc 2 (bits r (d / 2))), λ q. half (bits r (d / 2)) d p b),
        omega (arith, c),
      )
]

full : (b d : ℕ) → 0 < d → HasBits d b → 2 ^ b ≤ 2 * d
full zero d p h = omega arith
full (suc b) d p h = h.1 (omega arith)

-- a component `d` with `b` bits above components that make up `v`
above : (v s d b k : ℕ) → v < s → s ≡ 2 ^ k → 0 < d → HasBits d b → HasBits (v + s * d) (k + b)
above v s d b k small e p (low, high) =
    let m = mul-le-mul_left {m = suc d} {n = 2 ^ b} s low in
    let n = mul-le-mul_left {m = 2 ^ b} {n = 2 * d} s (full b d p (low, high)) in
    let e2 : s * 2 ^ b ≡ 2 ^ (k + b) = ap (λ t. t * 2 ^ b) e ∙ sym (pow_add k b) in
    (omega (arith, m, e2), λ q. omega (arith, n, e2))

-- components, highest first
abbrev pub high_value : List ℕ → ℕ
high_value [] = 0
high_value (d ∷ ds) = high_value ds + span ds * d

pub high_value-lt : (ds : List ℕ) → AreWords ds → high_value ds < span ds
high_value-lt [] w = omega arith
high_value-lt (d ∷ ds) w =
    omega (arith, high_value-lt ds w.1, mul-le-mul_left {m = suc d} {n = 2 ^ 32} (span ds) w.0)

span-last : (ds : List ℕ) (d : ℕ) → span (ds ++ (d ∷ [])) ≡ 2 ^ 32 * span ds
span-last [] d = refl
span-last (e ∷ ds) d = omega (arith, span-last ds d)

high_value-last : (ds : List ℕ) (d : ℕ) → high_value (ds ++ (d ∷ [])) ≡ d + 2 ^ 32 * high_value ds
high_value-last [] d = omega arith
high_value-last (e ∷ ds) d = rw span-last (omega (arith, high_value-last ds d))

pub high_value-reverse : (ds : List ℕ) → high_value (reverse ds) ≡ value ds
high_value-reverse [] = refl
high_value-reverse (d ∷ ds) =
    ap high_value (reverse-cons d ds)
    ∙ (high_value-last (reverse ds) d ∙ omega (arith, high_value-reverse ds))

AreWords-last : (ds : List ℕ) (d : ℕ) → AreWords ds → d < 2 ^ 32 → AreWords (ds ++ (d ∷ []))
AreWords-last [] d w h = (h, tt)
AreWords-last (e ∷ ds) d w h = (w.0, AreWords-last ds d w.1 h)

pub AreWords-reverse : (ds : List ℕ) → AreWords ds → AreWords (reverse ds)
AreWords-reverse [] w = tt
AreWords-reverse (d ∷ ds) w =
    subst AreWords (sym (reverse-cons d ds))
      (AreWords-last (reverse ds) d (AreWords-reverse ds w.1) w.0)

span-pow : (ds : List ℕ) → span ds ≡ 2 ^ (length ds * 32)
span-pow [] = refl
span-pow (d ∷ ds) =
    let e : suc (length ds) * 32 ≡ length ds * 32 + 32 = omega arith in
    rw e (omega (arith, span-pow ds, pow_add (length ds * 32) 32))

top_bits_lem :
    (ds : List ℕ)
    → AreWords ds
    → HasBits (high_value ds) (top_bits ds) × (top_bits ds ≤ length ds * 32)
unfolding top_bits
top_bits_lem [] w = ((omega arith, λ p. absurd (omega (arith, p))), omega arith)
top_bits_lem (d ∷ ds) w = elim (Bool-cases (d == 0)) [
  | inl z ↦
      let e : d ≡ 0 = ground (arith, z) in
      let ((a, b), c) = top_bits_lem ds w.1 in
      let same : high_value ds + span ds * d ≡ high_value ds = rw e (omega arith) in
      rw (z, same) ((a, b), omega (arith, c))
  | inr nz ↦
      let (h, few) = bits_lem 32 d w.0 in
      rw nz (
        above (high_value ds) (span ds) d (bits 32 d) (length ds * 32) (high_value-lt ds w.1)
            (span-pow ds) (ground (arith, nz)) h,
        omega (arith, few),
      )
]

-- the highest chunk
chunk_bits_lem :
    (c : Chunk)
    → length c ≡ 4
    → AreWords c
    → HasBits (value c) (top_bits (reverse c)) × (top_bits (reverse c) ≤ 128)
chunk_bits_lem c n w =
    let (h, k) = top_bits_lem (reverse c) (AreWords-reverse c w) in
    (
      subst (λ v. HasBits v (top_bits (reverse c))) (high_value-reverse c) h,
      omega (arith, k, length-reverse c, n),
    )

below : (d : Chunk) (cs : List Chunk) → IsTopped (d ∷ cs) → IsTopped cs
below d [] t = tt
below d (e ∷ cs) t = t

ends_topped : (c : Chunk) (cs : List Chunk) → IsTopped (c ∷ cs) → ends_in_zero c cs ≡ false
unfolding ends_in_zero
ends_topped c [] t = elim (Bool-cases (chunk_is_zero c)) [
  | inl z ↦ absurd (omega (arith, t, zero-value c z))
  | inr nz ↦ nz
]
ends_topped c (d ∷ cs) t = ends_topped d cs t

-- `bint_bit_length` is the number of bits of a number that keeps the invariant, and at most those
-- of its chain, if these are fewer than 2 ^ 32.
pub bit_length_lem :
    (c : Chunk) (next : List Chunk)
    → AreChunks (c ∷ next)
    → IsTopped next
    → 128 * length (c ∷ next) < 2 ^ 32
    → HasBits (magnitude (c ∷ next)) (bit_length (c ∷ next))
      × (bit_length (c ∷ next) ≤ 128 * length (c ∷ next))
unfolding bit_length
bit_length_lem c [] w t small =
    let (h, k) = chunk_bits_lem c w.0.0 w.0.1 in
    (subst (λ v. HasBits v (top_bits (reverse c))) (omega arith) h, omega (arith, k))
bit_length_lem c (d ∷ cs) w t small =
    let (h, k) = bit_length_lem d cs w.1 (below d cs t) (omega (arith, small)) in
    let wrap : (128 + bit_length (d ∷ cs)) % 2 ^ 32 ≡ 128 + bit_length (d ∷ cs) =
      mod-eq_of_lt {n = 128 + bit_length (d ∷ cs)} {m = 2 ^ 32} (omega (arith, k, small)) in
    let positive : 0 < magnitude (d ∷ cs) = omega (arith, topped-room d cs t, room_positive cs) in
    rw (ends_topped d cs t, wrap)
      (
        above (value c) (2 ^ 128) (magnitude (d ∷ cs)) (bit_length (d ∷ cs)) 128 (chunk-lt c w.0)
            refl positive h,
        omega (arith, k),
      )

-- A chain that keeps the invariant has no more chunks than its bits fill.
pub length-le-bit_length :
    (c : Chunk) (next : List Chunk)
    → AreChunks (c ∷ next)
    → IsTopped next
    → 128 * length (c ∷ next) < 2 ^ 32
    → 128 * length next ≤ bit_length (c ∷ next)
unfolding bit_length
length-le-bit_length c [] w t small = omega arith
length-le-bit_length c (d ∷ cs) w t small =
    let h = length-le-bit_length d cs w.1 (below d cs t) (omega (arith, small)) in
    let (b, k) = bit_length_lem d cs w.1 (below d cs t) (omega (arith, small)) in
    rw (ends_topped d cs t) (omega (arith, h, k, small))

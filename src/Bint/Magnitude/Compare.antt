-- ===== src/Bint/Magnitude/Compare.antt =====
-- `mag_cmp` compares the numbers.
use Prim.Native.Nat.{compare, Ordering}
use native.Mathlib.Nat.{mul-le-mul_left}
use libdlb.Base.{
  ℕ, suc, ◌+◌, ◌*◌, ◌^◌, ◌≤◌, ◌<◌, ◌≡◌, refl, ap, ap₂, ◌∙◌, ◌⊎◌, inl, inr, sym, List, [], ◌∷◌,
  length, length-reverse, reverse, ltb, if◌then◌else◌, arith,
}
use libdlb.Bint.{Chunk}
use libdlb.Bint.Value.{
  value, span, magnitude, room, AreWords, IsChunk, AreChunks, IsDigits, magnitude-lt, topped-room,
  room_positive, chunk-lt,
}
use libdlb.Bint.Length.{high_value, high_value-lt, high_value-reverse, AreWords-reverse}
use libdlb.Bint.Magnitude.{compare_top, compare_chunk, latest, mag_cmp_loop, mag_cmp}

pub compare_cases : (a b : ℕ) → (a < b) ⊎ ((b < a) ⊎ (a ≡ b))
compare_cases a b = omega arith

latest-eq : (o : Ordering) → latest o Ordering.eq ≡ o
latest-eq Ordering.lt = refl
latest-eq Ordering.eq = refl
latest-eq Ordering.gt = refl

pub compare_lt : (a b : ℕ) → a < b → compare a b ≡ Ordering.lt
compare_lt a b h = ground arith

pub compare_gt : (a b : ℕ) → b < a → compare a b ≡ Ordering.gt
compare_gt a b h = ground arith

pub same_span : (xs ys : List ℕ) → length xs ≡ length ys → span xs ≡ span ys
same_span [] [] h = refl
same_span [] (y ∷ ys) h = absurd (omega (arith, h))
same_span (x ∷ xs) [] h = absurd (omega (arith, h))
same_span (x ∷ xs) (y ∷ ys) h = ap (λ s. 2 ^ 32 * s) (same_span xs ys (omega (arith, h)))

-- the higher digit decides
digit_lt : (v w s a b : ℕ) → v < s → a < b → v + s * a < w + s * b
digit_lt v w s a b h k = omega (arith, mul-le-mul_left {m = suc a} {n = b} s k)

compare_step :
    (v w s a b : ℕ)
    → v < s
    → w < s
    → (if ltb a b then Ordering.lt else if ltb b a then Ordering.gt else compare v w)
      ≡ compare (v + s * a) (w + s * b)
compare_step v w s a b h k = ground (arith, digit_lt v w s a b h, digit_lt w v s b a k)

compare_top_lem :
    (ds es : List ℕ)
    → length ds ≡ length es
    → AreWords ds
    → AreWords es
    → compare_top ds es ≡ compare (high_value ds) (high_value es)
unfolding compare_top
compare_top_lem [] [] n w x = refl
compare_top_lem [] (e ∷ es) n w x = absurd (omega (arith, n))
compare_top_lem (d ∷ ds) [] n w x = absurd (omega (arith, n))
compare_top_lem (d ∷ ds) (e ∷ es) n w x =
    let tail : length ds ≡ length es = omega (arith, n) in
    let same = same_span ds es tail in
    rw (compare_top_lem ds es tail w.1 x.1, ← same)
      (compare_step (high_value ds) (high_value es) (span ds) d e (high_value-lt ds w.1)
        (omega (arith, same, high_value-lt es x.1)))

pub compare_chunk_lem :
    (a b : Chunk) → IsChunk a → IsChunk b → compare_chunk a b ≡ compare (value a) (value b)
unfolding compare_chunk
compare_chunk_lem a b (n, w) (m, x) =
    compare_top_lem (reverse a) (reverse b)
      (omega (arith, length-reverse a, length-reverse b, n, m)) (AreWords-reverse a w)
      (AreWords-reverse b x)
    ∙ ap₂ compare (high_value-reverse a) (high_value-reverse b)

chain_step :
    (v w m n : ℕ) (last : Ordering)
    → v < 2 ^ 128
    → w < 2 ^ 128
    → latest (compare m n) (latest (compare v w) last)
      ≡ latest (compare (v + 2 ^ 128 * m) (w + 2 ^ 128 * n)) last
chain_step v w m n last h k = ground arith

-- the loop between chains of the same length, and of different lengths
loop-same :
    (ca cb : List Chunk) (last : Ordering)
    → length ca ≡ length cb
    → AreChunks ca
    → AreChunks cb
    → mag_cmp_loop ca cb last ≡ latest (compare (magnitude ca) (magnitude cb)) last
unfolding mag_cmp_loop
loop-same [] [] last n w x = refl
loop-same [] (b ∷ cb) last n w x = absurd (omega (arith, n))
loop-same (a ∷ ca) [] last n w x = absurd (omega (arith, n))
loop-same (a ∷ ca) (b ∷ cb) last n w x =
    loop-same ca cb (latest (compare_chunk a b) last) (omega (arith, n)) w.1 x.1
    ∙ (ap (λ o. latest (compare (magnitude ca) (magnitude cb)) (latest o last))
          (compare_chunk_lem a b w.0 x.0)
        ∙ chain_step (value a) (value b) (magnitude ca) (magnitude cb) last (chunk-lt a w.0)
            (chunk-lt b x.0))

loop-longer :
    (ca cb : List Chunk) (last : Ordering)
    → length cb < length ca
    → mag_cmp_loop ca cb last ≡ Ordering.gt
unfolding mag_cmp_loop
loop-longer [] cb last h = absurd (omega (arith, h))
loop-longer (a ∷ ca) [] last h = refl
loop-longer (a ∷ ca) (b ∷ cb) last h =
    loop-longer ca cb (latest (compare_chunk a b) last) (omega (arith, h))

loop-shorter :
    (ca cb : List Chunk) (last : Ordering)
    → length ca < length cb
    → mag_cmp_loop ca cb last ≡ Ordering.lt
unfolding mag_cmp_loop
loop-shorter ca [] last h = absurd (omega (arith, h))
loop-shorter [] (b ∷ cb) last h = refl
loop-shorter (a ∷ ca) (b ∷ cb) last h =
    loop-shorter ca cb (latest (compare_chunk a b) last) (omega (arith, h))

room-le : (xs ys : List Chunk) → length xs ≤ length ys → room xs ≤ room ys
room-le [] ys h = room_positive ys
room-le (x ∷ xs) [] h = absurd (omega (arith, h))
room-le (x ∷ xs) (y ∷ ys) h = omega (arith, room-le xs ys (omega (arith, h)))

-- the longer of two chains that keep the invariant is the larger number
pub longer-gt :
    (ca cb : List Chunk)
    → IsDigits ca
    → IsDigits cb
    → length cb < length ca
    → magnitude cb < magnitude ca
longer-gt [] cb h k n = absurd (omega (arith, n))
longer-gt (a ∷ []) [] h k n = absurd k.1
longer-gt (a ∷ []) (b ∷ cb) h k n = absurd (omega (arith, n))
longer-gt (a ∷ c ∷ ca) cb h k n =
    omega (arith, magnitude-lt cb k.0, room-le cb (c ∷ ca) (omega (arith, n)), topped-room c ca h.1)

-- `mag_cmp` is the comparison of the two numbers.
pub mag_cmp_lem :
    (a b : List Chunk) → IsDigits a → IsDigits b → mag_cmp a b ≡ compare (magnitude a) (magnitude b)
unfolding mag_cmp
mag_cmp_lem a b h k = elim (compare_cases (length a) (length b)) [
  | inl l ↦
      loop-shorter a b Ordering.eq l
      ∙ sym (compare_lt (magnitude a) (magnitude b) (longer-gt b a k h l))
  | inr (inl g) ↦
      loop-longer a b Ordering.eq g
      ∙ sym (compare_gt (magnitude a) (magnitude b) (longer-gt a b h k g))
  | inr (inr e) ↦
      loop-same a b Ordering.eq e h.0 k.0 ∙ latest-eq (compare (magnitude a) (magnitude b))
]

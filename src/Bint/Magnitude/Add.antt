-- ===== src/Bint/Magnitude/Add.antt =====
-- `mag_add` adds, unless its carry has to go through a full component above the shorter number.
use native.Mathlib.Nat.{mod-eq_of_lt, pow-le-pow_right}
use libdlb.Base.{
  ℕ, zero, suc, ◌+◌, ◌*◌, ◌/◌, ◌%◌, ◌^◌, ◌≤◌, ◌<◌, ◌≡◌, ◌≢◌, refl, ap, ◌⊎◌, ◌∙◌, sym, Bool, true,
  false, List, [], ◌∷◌, ◌++◌, length, replicate, ◌-◌, ◌==◌, if◌then◌else◌, arith,
}
use libdlb.Base.Words.{u32, u64}
use libdlb.Bint.{Chunk, zero_chunk, bit_length, extend_length, trim_chunks}
use libdlb.Bint.Value.{value, span, magnitude, room, AreWords, AreChunks, IsDigits, span-chunk}
use libdlb.Bint.Chain.{
  Reaches, no_memory, reached, Extended, refused, extended, extend_length_lem, trim_chunks-IsDigits,
  magnitude-zeros_behind, AreChunks-zeros_behind, pow-le-room,
}
use libdlb.Bint.Length.{bit_length_lem, length-le-bit_length}
use libdlb.Bint.Magnitude.{
  with_carry, add_components, carry_components, carry_through, add_chains, mag_add, greater,
}

-- a carry or borrow that is not 0 counts as 1
abbrev pub unit : ℕ → ℕ
unit k = if k == 0 then 0 else 1

component_lem :
    (d c k : ℕ)
    → d < 2 ^ 32
    → c < 2 ^ 32
    → let r = with_carry k (u64 (d + c)) in
      (u32 r + 2 ^ 32 * (r / 2 ^ 32) ≡ d + c + unit k) × (u32 r < 2 ^ 32) × (r / 2 ^ 32 ≤ 1)
component_lem d c k h g = ground arith

-- Two chunks and the carry that came in are the result and the carry that goes out.
pub add_components_lem :
    (ds cs : List ℕ) (k : ℕ)
    → length ds ≡ length cs
    → AreWords ds
    → AreWords cs
    → k ≤ 1
    → let (rs, k') = add_components ds cs k in
      (value rs + span ds * k' ≡ value ds + value cs + k)
      × AreWords rs
      × (length rs ≡ length ds)
      × (k' ≤ 1)
unfolding add_components
add_components_lem [] [] k n w x h = (omega arith, tt, refl, h)
add_components_lem [] (c ∷ cs) k n w x h = absurd (omega (arith, n))
add_components_lem (d ∷ ds) [] k n w x h = absurd (omega (arith, n))
add_components_lem (d ∷ ds) (c ∷ cs) k n w x h =
    let r = with_carry k (u64 (d + c)) in
    let (e, small, one) = component_lem d c k w.0 x.0 in
    let (sum, words, len, last) =
      add_components_lem ds cs (r / 2 ^ 32) (omega (arith, n)) w.1 x.1 one in
    let flag : unit k ≡ k = ground arith in
    (omega (arith, e, sum, flag), (small, words), omega (arith, len), last)

-- Above the chunks of `src`, the next component of `dst` can take a carry.
abbrev pub Absorbs : List Chunk → List Chunk → Type 0
Absorbs (d ∷ dc) (s ∷ sc) = Absorbs dc sc
Absorbs ((x ∷ xs) ∷ dc) [] = x ≢ 2 ^ 32 - 1
Absorbs _ _ = Unit

no_carry : (ds : List ℕ) → AreWords ds → carry_components ds 0 ≡ (ds, 0)
unfolding carry_components
no_carry [] w = refl
no_carry (d ∷ ds) w =
    let e : u32 d ≡ d = mod-eq_of_lt {n = d} {m = 2 ^ 32} w.0 in
    let none_out : u32 (d / 2 ^ 32 % 2 * 2 ^ 32) ≡ 0 = omega (arith, w.0) in
    rw (none_out, no_carry ds w.1, e) refl

carry_in :
    (d : ℕ) (ds : List ℕ)
    → d < 2 ^ 32
    → d ≢ 2 ^ 32 - 1
    → AreWords ds
    → carry_components (d ∷ ds) 1 ≡ ((d + 1) ∷ ds, 0)
unfolding carry_components
carry_in d ds h ne w =
    let r : u64 (d + 1) ≡ d + 1 = omega arith in
    let none_out : u32 ((d + 1) / 2 ^ 32 % 2 * 2 ^ 32) ≡ 0 = omega arith in
    let e : u32 (d + 1) ≡ d + 1 = omega arith in rw (r, none_out, no_carry ds w, e) refl

stop_carry : (dc : List Chunk) → carry_through dc 0 ≡ dc
unfolding carry_through
stop_carry [] = refl
stop_carry (d ∷ dc) = refl

-- the carry, 0 or 1, in the chunks above
carry_through_lem :
    (d : ℕ) (ds : List ℕ) (dc : List Chunk) (k : ℕ)
    → AreChunks ((d ∷ ds) ∷ dc)
    → d ≢ 2 ^ 32 - 1
    → k ≤ 1
    → let rs = carry_through ((d ∷ ds) ∷ dc) k in
      (magnitude rs ≡ magnitude ((d ∷ ds) ∷ dc) + k)
      × AreChunks rs
      × (length rs ≡ length ((d ∷ ds) ∷ dc))
unfolding carry_through
carry_through_lem d ds dc zero w ne h = (omega arith, w, refl)
carry_through_lem d ds dc (suc zero) w ne h =
    rw (carry_in d ds w.0.1.0 ne w.0.1.1, stop_carry dc)
      (omega arith, ((w.0.0, (omega (arith, w.0.1.0), w.0.1.1)), w.1), refl)
carry_through_lem d ds dc (suc (suc k)) w ne h = absurd (omega (arith, h))

add_chains_lem :
    (dc sc : List Chunk) (k : ℕ)
    → length sc ≤ length dc
    → AreChunks dc
    → AreChunks sc
    → Absorbs dc sc
    → k ≤ 1
    → magnitude dc + magnitude sc + k < room dc
    → let rs = add_chains dc sc k in
      (magnitude rs ≡ magnitude dc + magnitude sc + k) × AreChunks rs × (length rs ≡ length dc)
unfolding add_chains
add_chains_lem [] [] k n w x a h fits = (omega arith, tt, refl)
add_chains_lem [] (s ∷ sc) k n w x a h fits = absurd (omega (arith, n))
add_chains_lem ([] ∷ dc) [] k n w x a h fits = absurd (omega (arith, w.0.0))
add_chains_lem ((d ∷ ds) ∷ dc) [] k n w x a h fits =
    let (m, c, l) = carry_through_lem d ds dc k w a h in (omega (arith, m), c, l)
add_chains_lem (d ∷ dc) (s ∷ sc) k n w x a h fits =
    let (r, k') = add_components d s k in
    let (sum, words, len, one) = add_components_lem d s k (w.0.0 ∙ sym x.0.0) w.0.1 x.0.1 h in
    let wide = span-chunk d w.0.0 in
    let chunk_sum : value r + 2 ^ 128 * k' ≡ value d + value s + k =
      omega (arith, sum, ap (λ t. t * k') wide) in
    let (m, c, l) =
      add_chains_lem dc sc k' (omega (arith, n)) w.1 x.1 a one (omega (arith, fits, chunk_sum)) in
    (omega (arith, m, chunk_sum), ((len ∙ w.0.0, words), c), ap suc l)

Absorbs-zeros : (sc : List Chunk) (n : ℕ) → Absorbs (replicate n zero_chunk) sc
Absorbs-zeros [] zero = tt
Absorbs-zeros (s ∷ sc) zero = tt
Absorbs-zeros [] (suc n) = omega arith
Absorbs-zeros (s ∷ sc) (suc n) = Absorbs-zeros sc n

Absorbs-zeros_behind :
    (dc sc : List Chunk) (n : ℕ) → Absorbs dc sc → Absorbs (dc ++ replicate n zero_chunk) sc
Absorbs-zeros_behind [] sc n h = Absorbs-zeros sc n
Absorbs-zeros_behind ([] ∷ dc) [] n h = tt
Absorbs-zeros_behind ((x ∷ xs) ∷ dc) [] n h = h
Absorbs-zeros_behind (d ∷ dc) (s ∷ sc) n h = Absorbs-zeros_behind dc sc n h

greater_lem :
    (a b : ℕ) → (a ≤ greater a b) × (b ≤ greater a b) × ((greater a b ≡ a) ⊎ (greater a b ≡ b))
greater_lem a b = ground arith

-- two numbers of at most `g` bits
two_fit :
    (m n g a b r : ℕ) → m < 2 ^ a → n < 2 ^ b → a ≤ g → b ≤ g → 2 * 2 ^ (g + 1) ≤ r → m + n + 0 < r
two_fit m n g a b r h k p q fits = omega (
  arith,
  pow-le-pow_right {n = 2} (omega arith) {i = a} {j = g} p,
  pow-le-pow_right {n = 2} (omega arith) {i = b} {j = g} q,
  pow-le-pow_right {n = 2} (omega arith) {i = g} {j = g + 1} (omega arith),
)

wide_sum :
    (answers : List Bool) (c e : Chunk) (dst src : List Chunk) (g n : ℕ)
    → IsDigits (c ∷ dst)
    → IsDigits (e ∷ src)
    → 128 * length (c ∷ dst) < 2 ^ 32
    → 128 * length (e ∷ src) < 2 ^ 32
    → Absorbs dst src
    → bit_length (c ∷ dst) ≤ g
    → bit_length (e ∷ src) ≤ g
    → g + 1 < 128 * length ((c ∷ dst) ++ replicate n zero_chunk)
    → let rs = add_chains ((c ∷ dst) ++ replicate n zero_chunk) (e ∷ src) 0 in
      IsDigits (trim_chunks rs)
      × (magnitude (trim_chunks rs) ≡ magnitude (c ∷ dst) + magnitude (e ∷ src))
wide_sum answers c e dst src g n h k small1 small2 a p q wide =
    let w = (c ∷ dst) ++ replicate n zero_chunk in
    let same = magnitude-zeros_behind (c ∷ dst) n in
    let ((lt1, _), _) = bit_length_lem c dst h.0 h.1 small1 in
    let ((lt2, _), _) = bit_length_lem e src k.0 k.1 small2 in
    let fit =
      two_fit (magnitude (c ∷ dst)) (magnitude (e ∷ src)) g (bit_length (c ∷ dst))
        (bit_length (e ∷ src)) (room w) lt1 lt2 p q (pow-le-room w (g + 1) wide) in
    let (sum, chunks, len) =
      add_chains_lem w (e ∷ src) 0
        (omega (arith, length-le-bit_length e src k.0 k.1 small2, q, wide))
        (AreChunks-zeros_behind (c ∷ dst) n h.0) k.0 (Absorbs-zeros_behind dst src n a)
        (omega arith) (omega (arith, fit, same)) in
    let (digits, kept) =
      trim_chunks-IsDigits (add_chains w (e ∷ src) 0) (omega (arith, len)) chunks in
    (digits, kept ∙ omega (arith, sum, same))

-- `mag_add` either finds no memory and leaves `dst` as it was, or leaves the sum of the numbers,
-- trimmed, if the component of `dst` just above the chunks of `src` is not full.
pub mag_add_lem :
    (answers : List Bool) (c e : Chunk) (dst src : List Chunk)
    → IsDigits (c ∷ dst)
    → IsDigits (e ∷ src)
    → 128 * length (c ∷ dst) < 2 ^ 31
    → 128 * length (e ∷ src) < 2 ^ 31
    → Absorbs dst src
    → Reaches answers
        (c ∷ dst)
        (magnitude (c ∷ dst) + magnitude (e ∷ src))
        (mag_add answers (c ∷ dst) (e ∷ src))
unfolding mag_add
mag_add_lem answers c e dst src h k small1 small2 a =
    let g = greater (bit_length (c ∷ dst)) (bit_length (e ∷ src)) in
    let (p, q, either) = greater_lem (bit_length (c ∷ dst)) (bit_length (e ∷ src)) in
    let (_, k1) = bit_length_lem c dst h.0 h.1 (omega (arith, small1)) in
    let (_, k2) = bit_length_lem e src k.0 k.1 (omega (arith, small2)) in
    let wrap : u32 (g + 1) ≡ g + 1 =
      mod-eq_of_lt {n = g + 1} {m = 2 ^ 32} (omega (arith, k1, k2, small1, small2, either)) in
    rw wrap
      (go g p q (extend_length answers (c ∷ dst) (g + 1)) (extend_length_lem answers c dst (g + 1)))
  where
    go :
        (g : ℕ)
        → bit_length (c ∷ dst) ≤ g
        → bit_length (e ∷ src) ≤ g
        → (r : Bool × List Chunk) → Extended answers (c ∷ dst) (g + 1) r
        → Reaches answers
            (c ∷ dst)
            (magnitude (c ∷ dst) + magnitude (e ∷ src))
            (if r.0 then (true, trim_chunks (add_chains r.1 (e ∷ src) 0)) else (false, r.1))
    go g p q (false, rs) (refused n none_left) = no_memory n none_left
    go g p q (true, rs) (extended n wide) =
        let (digits, sum) =
          wide_sum answers c e dst src g n h k (omega (arith, small1)) (omega (arith, small2)) a p q
            wide in
        reached (trim_chunks (add_chains ((c ∷ dst) ++ replicate n zero_chunk) (e ∷ src) 0)) digits
          sum

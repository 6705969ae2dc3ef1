-- ===== src/Bint/Bitwise/Words.antt =====
-- The bits of a number, and what an operator does to them.
use native.Mathlib.Nat.{pow-suc}
use libdlb.Base.{
  ℕ, zero, suc, ◌+◌, ◌-◌, ◌*◌, ◌/◌, ◌%◌, ◌^◌, ◌<◌, ◌≡◌, refl, ap, ◌∙◌, sym, Bool, true, false, ◌||◌,
  ltb, ◌==◌, if◌then◌else◌, arith,
}
use libdlb.Bint.Bitwise.{odd, bitwise, bit_without, bit_differs}

-- bit `i` of a number
abbrev pub bit : ℕ → ℕ → Bool
bit v zero = odd v
bit v (suc i) = bit (v / 2) i

pub bit-zero : (i : ℕ) → bit 0 i ≡ false
bit-zero zero = refl
bit-zero (suc i) = bit-zero i

-- The bits of two fields, of which the lower one has `k` bits.
pub bit-fields :
    (k v w i : ℕ) → v < 2 ^ k → bit (v + 2 ^ k * w) i ≡ (if ltb i k then bit v i else bit w (i - k))
bit-fields zero v w i h =
    let none_below : ltb i 0 ≡ false = ground arith in
    rw none_below
      (ap (λ n. bit n i) (omega arith) ∙ ap (λ j. bit w j) {x = i} {y = i - 0} (omega arith))
bit-fields (suc k) v w zero h =
    let below : ltb 0 (suc k) ≡ true = ground arith in
    rw below (ap (λ n. n == 1) (omega (arith, ap (λ (t : ℕ). t * w) (pow-suc 2 k))))
bit-fields (suc k) v w (suc i) h =
    let half : (v + 2 ^ suc k * w) / 2 ≡ v / 2 + 2 ^ k * w =
      omega (arith, ap (λ (t : ℕ). t * w) (pow-suc 2 k)) in
    let same : ltb (suc i) (suc k) ≡ ltb i k = ground arith in
    let back : suc i - suc k ≡ i - k = omega arith in
    rw (half, same, back) (bit-fields k (v / 2) w i (omega (arith, h, pow-suc 2 k)))

pub bitwise-lt : (f : Bool → Bool → Bool) (w a b : ℕ) → bitwise f w a b < 2 ^ w
unfolding bitwise
bitwise-lt f zero a b = omega arith
bitwise-lt f (suc w) a b =
    one (f (odd a) (odd b)) (bitwise f w (a / 2) (b / 2)) (bitwise-lt f w (a / 2) (b / 2))
  where
    one : (x : Bool) (n : ℕ) → n < 2 ^ w → (if x then 1 else 0) + 2 * n < 2 ^ suc w
    one true n h = omega (arith, pow-suc 2 w)
    one false n h = omega (arith, pow-suc 2 w)

-- Each bit is the operator's, if it keeps two zero bits zero.
pub bit-bitwise :
    (f : Bool → Bool → Bool) (w a b i : ℕ)
    → f false false ≡ false
    → a < 2 ^ w
    → b < 2 ^ w
    → bit (bitwise f w a b) i ≡ f (bit a i) (bit b i)
unfolding bitwise
bit-bitwise f zero a b i z h k =
    let a0 : a ≡ 0 = omega arith in let b0 : b ≡ 0 = omega arith in rw (a0, b0, bit-zero i) (sym z)
bit-bitwise f (suc w) a b zero z h k = low (f (odd a) (odd b)) (bitwise f w (a / 2) (b / 2))
  where
    low : (x : Bool) (n : ℕ) → odd ((if x then 1 else 0) + 2 * n) ≡ x
    low true n = ground arith
    low false n = ground arith
bit-bitwise f (suc w) a b (suc i) z h k =
    let e = half (f (odd a) (odd b)) (bitwise f w (a / 2) (b / 2)) in
    rw e (
      bit-bitwise f w (a / 2) (b / 2) i z (omega (arith, pow-suc 2 w)) (omega (arith, pow-suc 2 w)))
  where
    half : (x : Bool) (n : ℕ) → ((if x then 1 else 0) + 2 * n) / 2 ≡ n
    half true n = omega arith
    half false n = omega arith

pub odd_power : (p : ℕ) → odd (2 ^ suc p) ≡ false
odd_power p = let even : 2 ^ suc p % 2 ≡ 0 = omega (arith, pow-suc 2 p) in rw even refl

pub half_power : (p : ℕ) → 2 ^ suc p / 2 ≡ 2 ^ p
half_power p = omega (arith, pow-suc 2 p)

pub bit-power : (p i : ℕ) → bit (2 ^ p) i ≡ (i == p)
bit-power zero zero = refl
bit-power zero (suc i) = bit-zero i ∙ ground arith
bit-power (suc p) zero = odd_power p ∙ ground arith
bit-power (suc p) (suc i) =
    let same : (i == p) ≡ (suc i == suc p) = ground arith in
    rw (half_power p) (bit-power p i ∙ same)

-- what the operators do beside a bit that is clear
pub or_false : (x : Bool) → x || false ≡ x
or_false true = refl
or_false false = refl

pub differs_false : (x : Bool) → bit_differs x false ≡ x
differs_false true = refl
differs_false false = refl

pub without_false : (x : Bool) → bit_without x false ≡ x
without_false true = refl
without_false false = refl

-- ===== src/Base/Bits.antt =====
-- Shifts and the bitwise or and and of `w`-bit integers.
use native.Mathlib.Nat.{pow-suc, mul-one, zero-add, add-zero, mod-eq_of_lt}
use Prim.Native.Nat.{ℕ, zero, suc, ◌+◌, ◌-◌, ◌*◌, ◌/◌, ◌%◌, ◌^◌, ◌≤◌, ◌<◌}
use mathlib.Core.Path.{◌≡◌, refl, ap}
use mathlib.Core.Logic.{◌⊎◌, inl, inr}
use native.Mathlib.Omega.{arith}

-- `a | b`, bit by bit from the lowest
pub bit_or : ℕ → ℕ → ℕ → ℕ
bit_or zero a b = 0
bit_or (suc w) a b = Prim.Native.Nat.max (a % 2) (b % 2) + 2 * bit_or w (a / 2) (b / 2)

-- `a & b`
unfoldable pub bit_and : ℕ → ℕ → ℕ → ℕ
bit_and zero a b = 0
bit_and (suc w) a b = Prim.Native.Nat.min (a % 2) (b % 2) + 2 * bit_and w (a / 2) (b / 2)

bit_and_self : (w a : ℕ) → a < 2 ^ w → bit_and w a a ≡ a
unfolding bit_and
bit_and_self zero a h = omega arith
bit_and_self (suc w) a h =
    omega (arith, bit_and_self w (a / 2) (omega (arith, h, pow-suc 2 w)), pow-suc 2 w)

-- `n & (n - 1)` has the bits of `n` but the lowest: what it is for a number, by its half.
lowest_even :
    (w n : ℕ) → n % 2 ≡ 0 → 0 < n → bit_and (suc w) n (n - 1) ≡ 2 * bit_and w (n / 2) (n / 2 - 1)
unfolding bit_and
lowest_even w n even h =
    let half : (n - 1) / 2 ≡ n / 2 - 1 = omega (arith, even, h) in
    omega (arith, even, ap (λ m. bit_and w (n / 2) m) half)

lowest_odd : (w n : ℕ) → n % 2 ≡ 1 → n < 2 ^ suc w → bit_and (suc w) n (n - 1) ≡ 2 * (n / 2)
unfolding bit_and
lowest_odd w n odd h =
    let half : (n - 1) / 2 ≡ n / 2 = omega (arith, odd) in
    omega (
      arith,
      odd,
      ap (λ m. bit_and w (n / 2) m) half,
      bit_and_self w (n / 2) (omega (arith, h, pow-suc 2 w)),
    )

-- `n & (n - 1)` is below `n`, has the highest bit of `n` unless it is 0, and is 0 just for a power of
-- two.
pub clear_lowest_lem :
    (w n : ℕ)
    → 0 < n
    → n < 2 ^ w
    → let c = bit_and w n (n - 1) in
      (c < n) × (c ≡ 0 → (j : ℕ) × (n ≡ 2 ^ j)) × ((k : ℕ) → 2 ^ k ≤ n → 0 < c → 2 ^ k ≤ c)
clear_lowest_lem zero n p h = absurd (omega (arith, p, h))
clear_lowest_lem (suc w) n p h = elim (parity (n % 2) (omega arith)) [
  | inl even ↦
      let e = lowest_even w n even p in
      let (below, power, high) =
        clear_lowest_lem w (n / 2) (omega (arith, even, p)) (omega (arith, h, pow-suc 2 w)) in
      (
        omega (arith, e, below, even),
        λ z.
            let (j, f) = power (omega (arith, e, z)) in
            (suc j, omega (arith, f, even, pow-suc 2 j)),
        λ k le q. highest k n (bit_and w (n / 2) (n / 2 - 1)) le e q high,
      )
  | inr odd ↦
      let e = lowest_odd w n odd h in
      (
        omega (arith, e, odd),
        λ z. (0, omega (arith, e, z, odd)),
        λ k le q. highest_odd k le e odd q,
      )
]
  where
    parity : (r : ℕ) → r < 2 → (r ≡ 0) ⊎ (r ≡ 1)
    parity zero h = inl refl
    parity (suc zero) h = inr refl
    parity (suc (suc r)) h = absurd (omega (arith, h))

    highest :
        (k m c : ℕ)
        → 2 ^ k ≤ m
        → bit_and (suc w) n (n - 1) ≡ 2 * c
        → 0 < bit_and (suc w) n (n - 1)
        → ((k : ℕ) → 2 ^ k ≤ m / 2 → 0 < c → 2 ^ k ≤ c)
        → 2 ^ k ≤ bit_and (suc w) n (n - 1)
    highest zero m c le e q high = omega (arith, q)
    highest (suc k) m c le e q high =
        omega (arith, e, high k (omega (arith, le, pow-suc 2 k)) (omega (arith, e, q)), pow-suc 2 k)

    highest_odd :
        (k : ℕ)
        → 2 ^ k ≤ n
        → bit_and (suc w) n (n - 1) ≡ 2 * (n / 2)
        → n % 2 ≡ 1
        → 0 < bit_and (suc w) n (n - 1)
        → 2 ^ k ≤ bit_and (suc w) n (n - 1)
    highest_odd zero le e odd q = omega (arith, q)
    highest_odd (suc k) le e odd q = omega (arith, e, le, odd, pow-suc 2 k)

-- `a << k`
abbrev pub shift_left : ℕ → ℕ → ℕ → ℕ
shift_left w a k = a * 2 ^ k % 2 ^ w

-- `a >> k`
abbrev pub shift_right : ℕ → ℕ → ℕ
shift_right a k = a / 2 ^ k

bit_or-low : (w b : ℕ) → b < 2 ^ w → bit_or w 0 b ≡ b
unfolding bit_or
bit_or-low zero b h = omega arith
bit_or-low (suc w) b h =
    omega (arith, pow-suc 2 w, bit_or-low w (b / 2) (omega (arith, pow-suc 2 w)))

-- A field above the bits of `a` adds up.
bit_or_fields : (k w a b : ℕ) → a < 2 ^ k → b < 2 ^ w → bit_or (w + k) a (b * 2 ^ k) ≡ a + b * 2 ^ k
unfolding bit_or
bit_or_fields zero w a b h g =
    let e : a ≡ 0 = omega arith in rw (e, mul-one, add-zero, zero-add) (bit_or-low w b g)
bit_or_fields (suc k) w a b h g =
    let e : b * 2 ^ suc k ≡ 2 * (b * 2 ^ k) = omega (arith, ap (λ (t : ℕ). b * t) (pow-suc 2 k)) in
    let half : b * 2 ^ suc k / 2 ≡ b * 2 ^ k = omega (arith, e) in
    let s : w + suc k ≡ suc (w + k) = omega arith in
    rw (s, half) (omega (arith, e, bit_or_fields k w (a / 2) b (omega (arith, h, pow-suc 2 k)) g))

pub bit_or_shifted :
    (k w a b : ℕ)
    → a < 2 ^ k
    → b < 2 ^ w
    → b * 2 ^ k < 2 ^ (w + k)
    → bit_or (w + k) a (shift_left (w + k) b k) ≡ a + b * 2 ^ k
bit_or_shifted k w a b h g small =
    rw (mod-eq_of_lt {n = b * 2 ^ k} {m = 2 ^ (w + k)} small) (bit_or_fields k w a b h g)

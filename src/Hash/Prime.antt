-- ===== src/Hash/Prime.antt =====
-- The search for the new size ends at a size that is large enough.
use native.Mathlib.Nat.{pow-suc, pow-le-pow_right}
use libdlb.Base.{
  ℕ, zero, suc, ◌+◌, ◌*◌, ◌^◌, ◌≤◌, ◌<◌, ◌≡◌, refl, ap, ◌∙◌, inl, inr, Bool, true, false, ◌&&◌,
  ◌||◌, Bool-cases, ltb, leb, ◌==◌, Outcome, done, fault, out_of_fuel, ◌>>=◌, arith,
}
use libdlb.Base.Words.{u32}
use libdlb.Hash.{double, no_divisor, next_prime, new_size_for}

-- from 2 ^ k up, with `j` powers to go to 2 ^ 24
double_lem :
    (j k rounds hint : ℕ)
    → k + j ≡ 24
    → j < rounds
    → hint ≤ 2 ^ 24
    → (m : ℕ) × (k ≤ m) × (m ≤ 24) × (hint ≤ 2 ^ m) × (double rounds (2 ^ k) hint ≡ done (2 ^ m))
unfolding double
double_lem j k zero hint e r h = absurd (omega (arith, r))
double_lem zero k (suc rounds) hint e r h =
    let last : k ≡ 24 = omega (arith, e) in
    let top : 2 ^ k ≡ 2 ^ 24 = ap (λ t. 2 ^ t) last in
    let stop : ltb (2 ^ k) hint ≡ false = ground (arith, top, h) in
    (k, omega arith, omega (arith, e), omega (arith, top, h), rw (stop, double) refl)
double_lem (suc j) k (suc rounds) hint e r h = elim (Bool-cases (ltb (2 ^ k) hint)) [
  | inr stop ↦ (k, omega arith, omega (arith, e), ground (arith, stop), rw (stop, double) refl)
  | inl more ↦
      let small = pow-le-pow_right {n = 2} (omega arith) {i = suc k} {j = 24} (omega (arith, e)) in
      let next : u32 (2 ^ k * 2) ≡ 2 ^ suc k = omega (arith, pow-suc 2 k, small) in
      let (m, above, below, fits, runs) =
        double_lem j (suc k) rounds hint (omega (arith, e)) (omega (arith, r)) h in
      (m, omega (arith, above), below, fits, rw (more, next, double) runs)
]

-- what the search comes to from `n`
abbrev ends : ℕ → Bool
ends n = elim (next_prime 64 65536 n) [ done p ↦ leb n p && ltb p (2 * 2 ^ 24) | _ ↦ false ]

abbrev all_below : ℕ → (ℕ → Bool) → Bool
all_below zero f = true
all_below (suc n) f = f n && all_below n f

all_below_lem : (n : ℕ) (f : ℕ → Bool) (i : ℕ) → all_below n f ≡ true → i < n → f i ≡ true
all_below_lem zero f i h p = absurd (omega (arith, p))
all_below_lem (suc n) f i h p = elim (Bool-cases (i == n)) [
  | inl here ↦ let e : i ≡ n = ground (arith, here) in rw e (both (f n) (all_below n f) h).0
  | inr not_here ↦
      all_below_lem n f i (both (f n) (all_below n f) h).1 (ground (arith, p, not_here))
]
  where
    both : (x y : Bool) → (x && y) ≡ true → (x ≡ true) × (y ≡ true)
    both x y e = ground (arith, e)

powers_end : all_below 25 (λ m. ltb m 5 || ends (2 ^ m)) ≡ true
unfolding next_prime no_divisor
powers_end = refl

-- what `ends` says, of the outcome of the search
ends_at :
    (n : ℕ) (o : Outcome ℕ)
    → elim o as (λ _. Bool) [ done p ↦ leb n p && ltb p (2 * 2 ^ 24) | _ ↦ false ] ≡ true
    → (p : ℕ) × (n ≤ p) × (p < 2 * 2 ^ 24) × (o ≡ done p)
ends_at n (done p) h = (p, ground (arith, h), ground (arith, h), refl)
ends_at n fault h = absurd (ground (arith, h))
ends_at n out_of_fuel h = absurd (ground (arith, h))

-- For at most 2 ^ 24 nodes, the two loops end, at a size that has room for them and is not 0.
pub new_size_for_lem :
    (hint : ℕ)
    → hint ≤ 2 ^ 24
    → (p : ℕ) × (0 < p) × (hint ≤ p) × (p < 2 * 2 ^ 24) × (new_size_for hint ≡ done p)
unfolding new_size_for
new_size_for_lem hint h =
    let (m, low, high, fits, runs) = double_lem 19 5 27 hint refl (omega arith) h in
    let found =
      all_below_lem 25 (λ m. ltb m 5 || ends (2 ^ m)) m powers_end (omega (arith, high)) in
    let (p, le, small, search) =
      ends_at (2 ^ m) (next_prime 64 65536 (2 ^ m))
        (right (ltb m 5) _ (ground (arith, low)) found) in
    let positive = pow-le-pow_right {n = 2} (omega arith) {i = 0} {j = m} (omega arith) in
    (
      p,
      omega (arith, le, positive),
      omega (arith, le, fits),
      small,
      ap (λ o. o >>= next_prime 64 65536) runs ∙ search,
    )
  where
    right : (x y : Bool) → x ≡ false → (x || y) ≡ true → y ≡ true
    right x y e h = ground (arith, e, h)

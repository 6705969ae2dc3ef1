-- ===== src/Vector/Capacity.antt =====
-- The capacity that `size_for` chooses is a power of 2 with room, and not more than twice too large.
use native.Mathlib.Nat.{pow-suc}
use libdlb.Base.{
  ℕ, zero, suc, ◌+◌, ◌-◌, ◌*◌, ◌^◌, ◌≤◌, ◌<◌, ◌≡◌, refl, ap, ◌∙◌, inl, inr, false, Bool-cases, ltb,
  leb, ◌==◌, done, ◌>>=◌, arith,
}
use libdlb.Base.Words.{u32}
use libdlb.Base.Bits.{bit_and, clear_lowest_lem}
use libdlb.Vector.{round_down, raised, at_least_8, capacity_for}

-- the highest bit of a number
highest_bit : (w n : ℕ) → 0 < n → n < 2 ^ w → (k : ℕ) × (2 ^ k ≤ n) × (n < 2 * 2 ^ k)
highest_bit zero n p h = absurd (omega (arith, p, h))
highest_bit (suc w) n p h = elim (Bool-cases (ltb n (2 ^ w))) [
  | inl small ↦ highest_bit w n p (ground (arith, small))
  | inr large ↦ (w, ground (arith, large), omega (arith, h, pow-suc 2 w))
]

round_down_lem :
    (rounds n whole k : ℕ)
    → n < rounds
    → n ≤ whole
    → whole < 2 ^ 32
    → 2 ^ k ≤ n
    → whole < 2 * 2 ^ k
    → 0 < n
    → (p : ℕ) × (round_down rounds n ≡ done p) × (p ≤ whole) × (whole < 2 * p)
unfolding round_down
round_down_lem zero n whole k fuel le small low high p = absurd (omega (arith, fuel))
round_down_lem (suc rounds) n whole k fuel le small low high p =
    let less : u32 (n + 2 ^ 32 - 1) ≡ n - 1 = omega (arith, le, small, p) in
    let (below, power, kept) = clear_lowest_lem 32 n p (omega (arith, le, small)) in
    elim (Bool-cases (bit_and 32 n (n - 1) == 0)) [
      | inl zero_left ↦ (n, rw (round_down, less, zero_left) refl, le, omega (arith, low, high))
      | inr more ↦
          let positive : 0 < bit_and 32 n (n - 1) = ground (arith, more) in
          let (q, e, under, over) =
            round_down_lem rounds (bit_and 32 n (n - 1)) whole k (omega (arith, below, fuel))
              (omega (arith, below, le)) small (kept k low positive) high positive in
          let next : round_down (suc rounds) n ≡ round_down rounds (bit_and 32 n (n - 1)) =
            rw (round_down, less, more) (ap (λ m. round_down rounds (bit_and 32 n m)) less) in
          (q, next ∙ e, under, over)
    ]

at_least_8_lem :
    (cap : ℕ)
    → cap < 2 ^ 31
    → (cap ≤ at_least_8 cap) × (8 ≤ at_least_8 cap) × (at_least_8 cap ≤ cap + 8)
at_least_8_lem cap small =
    let sign : leb (2 ^ 31) cap ≡ false = ground (arith, small) in
    elim (Bool-cases (ltb cap 8)) [
      | inl less ↦ rw less (ground (arith, less), omega arith, omega arith)
      | inr more ↦ rw (more, sign) (omega arith, ground (arith, more), omega arith)
    ]

raised_lem :
    (needed cap : ℕ)
    → cap ≤ needed
    → needed < 2 * cap
    → needed ≤ 2 ^ 29
    → (needed ≤ raised needed cap) × (8 ≤ raised needed cap) × (raised needed cap ≤ 2 * needed + 8)
raised_lem needed cap le tight small = elim (Bool-cases (ltb cap needed)) [
  | inl less ↦
      let twice : u32 (cap * 2) ≡ cap * 2 = omega (arith, le, small) in
      let (room, min8, top) = at_least_8_lem (cap * 2) (omega (arith, le, small)) in
      rw (less, twice) (omega (arith, room, tight), min8, omega (arith, top, le))
  | inr same ↦
      let enough : needed ≤ cap = ground (arith, same) in
      let (room, min8, top) = at_least_8_lem cap (omega (arith, le, small)) in
      rw same (omega (arith, room, enough), min8, omega (arith, top, le))
]

-- The capacity for `needed` elements has room for them, and for not more than twice as many or 8.
pub capacity_for_lem :
    (needed : ℕ)
    → needed ≤ 2 ^ 29
    → (cap : ℕ) × (capacity_for needed ≡ done cap)
      × (needed ≤ cap)
      × (8 ≤ cap)
      × (cap ≤ 2 * needed + 8)
unfolding capacity_for round_down bit_and
capacity_for_lem zero small = (8, refl, omega arith, omega arith, omega arith)
capacity_for_lem (suc n) small =
    let (k, low, high) = highest_bit 32 (suc n) (omega arith) (omega (arith, small)) in
    let (p, e, le, tight) =
      round_down_lem (suc (suc n)) (suc n) (suc n) k (omega arith) (omega arith)
        (omega (arith, small)) low high (omega arith) in
    let (room, min8, top) = raised_lem (suc n) p le tight small in
    (raised (suc n) p, ap (λ o. o >>= λ cap. done (raised (suc n) cap)) e, room, min8, top)

-- ===== src/Cbuf/Inv.antt =====
-- The representation invariant of `struct cbuf`, and the regions that the accessors describe.
use libdlb.Base.{ℕ, ◌+◌, ◌-◌, ◌%◌, ◌^◌, ◌≤◌, ◌<◌, ◌≡◌, arith, length, ltb, if◌then◌else◌}
use native.Mathlib.Nat.{mod-eq_of_lt, mod-eq-sub-mod}
use native.Mathlib.Decide.{dec_lt}
use libdlb.Cbuf.{Cbuf, avail, tail, head_size, tail_size}

-- `small`: no object of C takes more than half of the address space.
pub record IsValid (c : Cbuf) : Type 0 where
  pub positive : 0 < c.capacity
  pub small : c.capacity ≤ 2 ^ 63
  pub storage : c.capacity ≤ length c.mem
  pub head_in : c.head < c.capacity
  pub size_in : c.size ≤ c.capacity

-- An index at most one capacity past another goes round once.
pub mod_round :
    (cap h k : ℕ)
    → h < cap
    → k ≤ cap
    → (h + k) % cap ≡ (if ltb (h + k) cap then h + k else h + k - cap)
mod_round cap h k p q = elim (dec_lt (h + k) cap) [
  | yes l ↦ ground (arith, mod-eq_of_lt l)
  | no l ↦ ground (
    arith,
    mod-eq-sub-mod {n = h + k} {m = cap} (omega arith),
    mod-eq_of_lt {n = h + k - cap} {m = cap} (omega arith),
  )
]

module _ {c : Cbuf} (v : IsValid c) where
  pub tail_lem :
      tail c
      ≡ (if ltb (c.head + c.size) c.capacity then c.head + c.size else c.head + c.size - c.capacity)
  unfolding tail
  tail_lem = ground (
    arith,
    mod_round c.capacity c.head c.size v.head_in v.size_in,
    mod-eq_of_lt {n = c.head + c.size} {m = 2 ^ 64} (omega arith),
  )

  pub avail_lem : avail c ≡ c.capacity - c.size
  unfolding avail
  avail_lem = omega arith

  -- the producer's area: free, inside the storage, and empty only if the buffer is full
  pub tail_region :
      (tail c + tail_size c ≤ c.capacity)
      × (tail_size c + c.size ≤ c.capacity)
      × (tail_size c ≡ 0 → c.size ≡ c.capacity)
  unfolding tail_size
  tail_region = ground (arith, tail_lem)

  -- the consumer's area: in use, inside the storage, and empty only if the buffer is empty
  pub head_region :
      (c.head + head_size c ≤ c.capacity) × (head_size c ≤ c.size) × (head_size c ≡ 0 → c.size ≡ 0)
  unfolding head_size
  head_region = ground arith

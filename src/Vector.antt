-- ===== src/Vector.antt =====
-- The vector of src/vector.c and src/vector.h. `ptr` is the block that `ptr` points to, empty for NULL.
-- An `unsigned int` is a number below 2 ^ 32, and so is an `int`, in two's complement.
pub mod Capacity
pub mod Contents
pub mod Push
mod Tests
use libdlb.Base.{
  ℕ, zero, suc, ◌+◌, ◌-◌, ◌*◌, ◌^◌, Bool, true, false, ◌&&◌, ◌||◌, Option, none, some, List, [],
  ltb, leb, ◌==◌, if◌then◌else◌, Outcome, done, out_of_fuel, ◌>>=◌,
}
use libdlb.Base.Words.{u32}
use libdlb.Base.Bits.{bit_and}
use libdlb.Base.Memory.{memcpy, Alloc}

pub record Vector : Type 0 where
  pub ptr : List ℕ
  pub elemsize : ℕ
  pub capacity : ℕ
  pub size : ℕ

abbrev pub init : ℕ → Vector
init elemsize = record { ptr = []; elemsize = elemsize; capacity = 0; size = 0 }

abbrev pub clear : Vector → Vector
clear v = record v { ptr = []; capacity = 0; size = 0 }

abbrev pub destroy : Vector → Vector
destroy v = init 0

-- `while (cap & (cap - 1)) cap &= (cap - 1);`
pub round_down : ℕ → ℕ → Outcome ℕ
round_down zero cap = out_of_fuel
round_down (suc rounds) cap = elim (bit_and 32 cap (u32 (cap + 2 ^ 32 - 1)) == 0) [
  | true ↦ done cap
  | false ↦ round_down rounds (bit_and 32 cap (u32 (cap + 2 ^ 32 - 1)))
]

-- the power of 2 that is not below `needed`, and not fewer than 8; an `int` from 2 ^ 31 is negative
abbrev pub at_least_8 : ℕ → ℕ
at_least_8 cap = if ltb cap 8 || leb (2 ^ 31) cap then 8 else cap

abbrev pub raised : ℕ → ℕ → ℕ
raised needed cap = at_least_8 (if ltb cap needed then u32 (cap * 2) else cap)

-- each round takes a bit away, so that `needed` rounds are enough
pub capacity_for : ℕ → Outcome ℕ
capacity_for needed = round_down (suc needed) needed >>= λ cap. done (raised needed cap)

-- what `size_for` does with its `cap`; it returns whether it returned 0, and the vector
abbrev pub reallocate : Alloc → Vector → ℕ → ℕ → Bool × Vector
reallocate alloc v needed cap =
    if leb cap v.capacity && leb v.capacity (u32 (cap * 2))
    then (true, v)
    else elim (alloc (u32 (cap * v.elemsize)) v.ptr) as (λ _. Bool × Vector) [
      | none ↦ (leb needed v.capacity, v)
      | some p ↦ (true, record v { ptr = p; capacity = cap })
    ]

pub size_for : Alloc → Vector → ℕ → Outcome (Bool × Vector)
size_for alloc v needed = capacity_for needed >>= λ cap. done (reallocate alloc v needed cap)

pub resize : Alloc → Vector → ℕ → Outcome (Bool × Vector)
resize alloc v new_size = size_for alloc v new_size >>= λ (ok, v2).
    if ok then done (true, record v2 { size = new_size }) else done (false, v2)

pub push : Alloc → Vector → List ℕ → ℕ → Outcome (Bool × Vector)
push alloc v bytes count = size_for alloc v (u32 (v.size + count)) >>= λ (ok, v2).
    if ok
    then (memcpy v2.ptr (u32 (v2.size * v2.elemsize)) bytes 0 (u32 (count * v2.elemsize)) >>= λ p.
        done (true, record v2 { ptr = p; size = u32 (v2.size + count) }))
    else done (false, v2)

pub pop : Alloc → Vector → ℕ → Outcome Vector
pop alloc v count =
    resize alloc v (v.size - (if ltb v.size count then v.size else count)) >>= λ r. done r.1

-- ===== src/Cbuf.antt =====
-- The circular buffer of src/cbuf.c and src/cbuf.h. A `struct cbuf` is a record with the area that
-- `data` points to; a pointer into that area is the offset from `data`, and a function that updates
-- `*c` returns the new record. `%` by a capacity of 0 is undefined in C, and is not looked at.
pub mod Contents
pub mod Inv
pub mod MoveIn
mod Tests
pub mod MoveOut
pub mod Between
use libdlb.Base.{
  ℕ, zero, suc, ◌+◌, ◌-◌, ◌%◌, ◌^◌, List, true, false, ltb, ◌==◌, if◌then◌else◌, Outcome, done,
  out_of_fuel, ◌>>=◌,
}
use libdlb.Base.Words.{add_size, sub_size}
use libdlb.Base.Memory.{memcpy}

-- `a < b ? a : b`
abbrev pub lesser : ℕ → ℕ → ℕ
lesser a b = if ltb a b then a else b

pub record Cbuf : Type 0 where
  pub mem : List ℕ
  pub capacity : ℕ
  pub head : ℕ
  pub size : ℕ

pub init : List ℕ → ℕ → Cbuf
init area capacity = record { mem = area; capacity = capacity; head = 0; size = 0 }

pub clear : Cbuf → Cbuf
clear c = record c { head = 0; size = 0 }

abbrev pub used : Cbuf → ℕ
used c = c.size

pub avail : Cbuf → ℕ
avail c = sub_size c.capacity c.size

pub tail : Cbuf → ℕ
tail c = add_size c.head c.size % c.capacity

-- `cbuf_head_data` and `cbuf_tail_data`, as offsets into the area
abbrev pub head_data : Cbuf → ℕ
head_data c = c.head

abbrev pub tail_data : Cbuf → ℕ
tail_data c = tail c

pub head_size : Cbuf → ℕ
head_size c = lesser (sub_size c.capacity c.head) c.size

pub tail_size : Cbuf → ℕ
tail_size c = let t = tail c in sub_size c.capacity (if ltb c.size t then t else c.size)

pub head_advance : Cbuf → ℕ → Cbuf
head_advance c count =
    let n = if ltb c.size count then c.size else count in
    record c { size = sub_size c.size n; head = add_size c.head n % c.capacity }

pub tail_advance : Cbuf → ℕ → Cbuf
unfolding avail
tail_advance c count =
    let a = avail c in
    let n = if ltb a count then a else count in record c { size = add_size c.size n }

-- The loops move at least one byte in every round but the last, so `max_size + 1` rounds do.
move_in_loop : ℕ → Cbuf → List ℕ → ℕ → ℕ → Outcome (ℕ × Cbuf)
move_in_loop zero c src max_size count = out_of_fuel
move_in_loop (suc fuel) c src max_size count =
    let src_size = sub_size max_size count in
    let x = lesser (tail_size c) src_size in
    elim (x == 0) [
      | true ↦ done (count, c)
      | false ↦ memcpy c.mem (tail_data c) src count x >>= λ area.
          move_in_loop fuel (tail_advance (record c { mem = area }) x) src max_size
            (add_size count x)
    ]

-- `src` is the area that `data` points to.
pub move_in : Cbuf → List ℕ → ℕ → Outcome (ℕ × Cbuf)
unfolding move_in_loop
move_in c src max_size = move_in_loop (max_size + 1) c src max_size 0

move_out_loop : ℕ → Cbuf → List ℕ → ℕ → ℕ → Outcome (ℕ × Cbuf × List ℕ)
move_out_loop zero c dst max_size count = out_of_fuel
move_out_loop (suc fuel) c dst max_size count =
    let dst_size = sub_size max_size count in
    let x = lesser (head_size c) dst_size in
    elim (x == 0) [
      | true ↦ done (count, c, dst)
      | false ↦ memcpy dst count c.mem (head_data c) x >>= λ area.
          move_out_loop fuel (head_advance c x) area max_size (add_size count x)
    ]

-- The area that `data` points to is returned as it is after the call.
pub move_out : Cbuf → List ℕ → ℕ → Outcome (ℕ × Cbuf × List ℕ)
unfolding move_out_loop
move_out c dst max_size = move_out_loop (max_size + 1) c dst max_size 0

move_loop : ℕ → Cbuf → Cbuf → ℕ → ℕ → Outcome (ℕ × Cbuf × Cbuf)
move_loop zero dst src max_size count = out_of_fuel
move_loop (suc fuel) dst src max_size count =
    let limit = sub_size max_size count in
    let x = lesser (head_size src) (tail_size dst) in
    let y = lesser x limit in
    elim (y == 0) [
      | true ↦ done (count, dst, src)
      | false ↦ memcpy dst.mem (tail_data dst) src.mem (head_data src) y >>= λ area.
          move_loop fuel (tail_advance (record dst { mem = area }) y) (head_advance src y) max_size
            (add_size count y)
    ]

-- `cbuf_move` between two buffers that share no memory
pub move : Cbuf → Cbuf → ℕ → Outcome (ℕ × Cbuf × Cbuf)
unfolding move_loop
move dst src max_size =
    let limit = if max_size == 0 then src.size else max_size in
    move_loop (limit + 1) dst src limit 0

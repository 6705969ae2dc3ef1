-- ===== src/Strbuf.antt =====
-- The string buffer of src/strbuf.c and src/strbuf.h. `text` is the block that `text` points to, and
-- `blank` says that it is `strbuf_blank`, which may not be written. `malloc` and `realloc` are a
-- parameter, `alloc`: the block of the new size with the old bytes in front, or none.
pub mod Capacity
pub mod Add
pub mod Resize
mod Tests
use libdlb.Base.{
  ℕ, zero, suc, ◌+◌, ◌-◌, ◌*◌, ◌%◌, ◌^◌, Bool, true, false, Option, none, some, List, [], ◌∷◌, ltb,
  ◌==◌, if◌then◌else◌, Outcome, done, fault, out_of_fuel, ◌>>=◌,
}
use libdlb.Base.Words.{add_size}
use libdlb.Base.Memory.{memcpy, strlen, Alloc}

pub record Strbuf : Type 0 where
  pub text : List ℕ
  pub blank : Bool
  pub length : ℕ
  pub capacity : ℕ
  pub failed : Bool

-- `strbuf_init`, and what `strbuf_clear` leaves
abbrev pub empty : Strbuf
empty = record { text = 0 ∷ []; blank = true; length = 0; capacity = 0; failed = false }

-- `while (new_cap < length + 1) new_cap <<= 1;`, where `needed` is `length + 1`
pub grow : ℕ → ℕ → ℕ → Outcome ℕ
grow zero new_cap needed = out_of_fuel
grow (suc fuel) new_cap needed =
    let rest = grow fuel (new_cap * 2 % 2 ^ 64) needed in
    if ltb new_cap needed then rest else done new_cap

-- Each function returns whether it returned 0 (or a count), and the buffer.
-- What `strbuf_capacity_hint` does once it knows the new capacity
abbrev pub reallocate : Alloc → ℕ → Strbuf → Bool × Strbuf
reallocate alloc new_cap b =
    if new_cap == b.capacity
    then (true, b)
    else elim (alloc new_cap (if b.blank then [] else b.text)) [
      | none ↦ (false, b)
      | some t ↦ (true, record b { text = t; blank = false; capacity = new_cap })
    ]

-- The sizes from 32 to 2 ^ 63 are 59.
pub capacity_hint : Alloc → ℕ → Strbuf → Outcome (Bool × Strbuf)
unfolding grow
capacity_hint alloc length b =
    if ltb length b.length
    then done (true, b)
    else (grow 59 32 (add_size length 1) >>= λ new_cap. done (reallocate alloc new_cap b))

-- `buf->text[buf->length] = 0`
abbrev pub terminate : Strbuf → Outcome Strbuf
terminate b =
    if b.blank
    then fault
    else (memcpy b.text b.length (0 ∷ []) 0 1 >>= λ t. done (record b { text = t }))

pub resize : Alloc → ℕ → Strbuf → Outcome (Bool × Strbuf)
unfolding capacity_hint
resize alloc new_length b =
    (if ltb b.capacity (add_size new_length 1)
      then capacity_hint alloc new_length b
      else done (true, b))
    >>= λ (ok, b). elim ok [
      | false ↦ done (false, record b { failed = true })
      | true ↦ terminate (record b { length = new_length }) >>= λ b.
          if ltb (add_size new_length 1 * 4 % 2 ^ 64) b.capacity
          then (capacity_hint alloc (add_size new_length 1) b >>= λ (shrunk, b). done (true, b))
          else done (true, b)
    ]

-- An `int` that is given a `size_t`, as the `size_t` that it is converted to again
abbrev pub through_int : ℕ → ℕ
through_int n = if ltb (n % 2 ^ 32) (2 ^ 31) then n % 2 ^ 32 else n % 2 ^ 32 + (2 ^ 64 - 2 ^ 32)

-- The argument `length` is none where it is negative.
abbrev pub given_length : List ℕ → Option ℕ → Outcome ℕ
given_length text none = strlen text >>= λ n. done (through_int n)
given_length text (some n) = done n

pub add_string : Alloc → Strbuf → List ℕ → Option ℕ → Outcome (Option ℕ × Strbuf)
unfolding capacity_hint
add_string alloc b text length = given_length text length >>= λ n.
    capacity_hint alloc (add_size b.length n) b >>= λ (ok, b). elim ok [
      | false ↦ done (none, b)
      | true ↦ memcpy b.text b.length text 0 n >>= λ t.
          terminate (record b { text = t; length = add_size b.length n }) >>= λ b. done (some n, b)
    ]

pub add_char : Alloc → Strbuf → ℕ → Outcome (Option ℕ × Strbuf)
unfolding add_string
add_char alloc b c = add_string alloc b (c % 256 ∷ []) (some 1)

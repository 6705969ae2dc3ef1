-- ===== src/Slist.antt =====
-- The singly linked lists of src/slist.c and src/slist.h. The memory is the `next` of each address, and
-- 0 is NULL.
pub mod Nodes
mod Tests
use libdlb.Base.{ℕ, Bool, Option, none, some, ◌==◌, if◌then◌else◌}

pub record Slist : Type 0 where
  pub start : ℕ
  pub end : ℕ

-- an assignment to `node->next`
abbrev pub link : (ℕ → ℕ) → ℕ → ℕ → ℕ → ℕ
link next node target x = if x == node then target else next x

abbrev pub is_empty : Slist → Bool
is_empty s = s.start == 0

abbrev pub init : Slist
init = record { start = 0; end = 0 }

-- Each function returns the memory and the list.
abbrev pub push : ℕ → (ℕ → ℕ) → Slist → (ℕ → ℕ) × Slist
push n next s = (link next n s.start, record { start = n; end = if s.end == 0 then n else s.end })

-- `slist_pop` leaves the memory alone; none is NULL.
abbrev pub pop : (ℕ → ℕ) → Slist → Option ℕ × Slist
pop next s = if s.start == 0 then (none, s) else (
  some s.start,
  record { start = next s.start; end = if next s.start == 0 then 0 else s.end },
)

abbrev pub append : ℕ → (ℕ → ℕ) → Slist → (ℕ → ℕ) × Slist
append n next s =
    if s.end == 0
    then (link next n 0, record { start = n; end = n })
    else (link (link next n 0) s.end n, record { start = s.start; end = n })

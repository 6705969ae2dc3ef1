-- ===== src/Mailbox.antt =====
-- The mailbox of io/mailbox.c and io/mailbox.h. A `mailbox_flags_t` is the list of its 32 bits, lowest
-- first. Each function is its locked part; the `Bool` says whether `runq_task_exec` is called after
-- the unlock.
pub mod Waiting
pub mod EmptySet
mod Tests
use libdlb.Base.{Bool, true, false, not, ◌&&◌, ◌||◌, List, [], ◌∷◌, replicate, if◌then◌else◌}

abbrev pub Flags : Type 0
Flags = List Bool

abbrev pub no_flags : Flags
no_flags = replicate 32 false

-- `a & b`
abbrev pub band : Flags → Flags → Flags
band (a ∷ xs) (b ∷ ys) = (a && b) ∷ band xs ys
band _ _ = []

-- `a | b`
abbrev pub bor : Flags → Flags → Flags
bor (a ∷ xs) (b ∷ ys) = (a || b) ∷ bor xs ys
bor _ _ = []

-- `~a`
abbrev pub bnot : Flags → Flags
bnot [] = []
bnot (a ∷ xs) = not a ∷ bnot xs

-- `a` as a condition
abbrev pub any : Flags → Bool
any [] = false
any (a ∷ xs) = a || any xs

-- `a == b`
abbrev pub same_flags : Flags → Flags → Bool
same_flags (a ∷ xs) (b ∷ ys) = (if a then b else not b) && same_flags xs ys
same_flags _ _ = true

pub data Mode : Type 0 where
  wait_none wait_any wait_all : Mode

-- `func` is `task.func`; an element of `F` is a callback.
pub record Mailbox (F : Type 0) : Type 0 where
  pub func : F
  pub state : Flags
  pub expected : Flags
  pub mode : Mode

-- `fire`, after the state has been set
abbrev pub fires : Mode → Flags → Flags → Bool
fires wait_none expected state = false
fires wait_any expected state = any (band expected state)
fires wait_all expected state = same_flags (band expected state) expected

module _ {F : Type 0} where
  -- `task.func` stays as it was.
  abbrev pub init : F → Mailbox F
  init f = record { func = f; state = no_flags; expected = no_flags; mode = wait_none }

  pub take : Flags → Mailbox F → Mailbox F × Flags
  take clear_mask m = (record m { state = band m.state (bnot clear_mask) }, m.state)

  pub raise : Flags → Mailbox F → Mailbox F × Bool
  raise set_mask m =
      let state = bor m.state set_mask in
      let fire = fires m.mode m.expected state in
      (record m { state = state; mode = if fire then wait_none else m.mode }, fire)

  pub wait : Flags → F → Mailbox F → Mailbox F × Bool
  wait set cb m =
      let fire = any (band m.state set) in
      (record m { func = cb; expected = set; mode = if fire then m.mode else wait_any }, fire)

  -- `mailbox_wait_all`
  pub wait_for_all : Flags → F → Mailbox F → Mailbox F × Bool
  wait_for_all set cb m =
      let fire = same_flags (band m.state set) set in
      (record m { func = cb; expected = set; mode = if fire then m.mode else wait_all }, fire)

-- ===== src/Runq/Start/Machine.antt =====
-- What the system makes of the calls of `runq_init` and `runq_destroy`: which of them it allows, and
-- what holds after them.
use libdlb.Base.{
  ℕ, zero, suc, ◌/◌, ◌≡◌, Bool, true, false, Option, none, some, List, [], ◌∷◌, replicate,
  if◌then◌else◌,
}
use libdlb.Runq.Start.{
  Call, allocates, event_init, starts, raises, joins, event_destroy, mutex_init, mutex_destroy,
  requests_quit, frees, overflows,
}

-- A worker's place in the block: nothing there, its event, its thread too, the event raised for it, or
-- the event after the thread was joined.
pub data Slot : Type 0 where
  blank ready running raised ended : Slot

-- the lock, whether the queue is asked to quit, and the block of the workers, if there is one
pub record World : Type 0 where
  pub lock : Bool
  pub quitting : Bool
  pub block : Option (List Slot)

abbrev pub initialised : Slot → Option Slot
initialised blank = some ready
initialised _ = none

abbrev pub started : Slot → Option Slot
started ready = some running
started _ = none

abbrev pub woken : Slot → Option Slot
woken running = some raised
woken _ = none

-- a thread ends if the queue is asked to quit and the thread is woken
abbrev pub joined : Bool → Slot → Option Slot
joined true raised = some ended
joined _ _ = none

abbrev pub destroyed : Slot → Option Slot
destroyed ready = some blank
destroyed ended = some blank
destroyed _ = none

-- a place of the block, none if it is outside
abbrev pub change : ℕ → (Slot → Option Slot) → List Slot → Option (List Slot)
change i f [] = none
change zero f (x ∷ xs) = elim (f x) as (λ _. Option (List Slot)) [
  | none ↦ none
  | some y ↦ some (y ∷ xs)
]
change (suc i) f (x ∷ xs) = elim (change i f xs) as (λ _. Option (List Slot)) [
  | none ↦ none
  | some ys ↦ some (x ∷ ys)
]

abbrev pub on_worker : ℕ → (Slot → Option Slot) → World → Option World
on_worker i f s = elim s.block as (λ _. Option World) [
  | none ↦ none
  | some ws ↦ elim (change i f ws) as (λ _. Option World) [
    | none ↦ none
    | some ws2 ↦ some (record s { block = some ws2 })
  ]
]

abbrev pub all_blank : List Slot → Bool
all_blank [] = true
all_blank (blank ∷ ws) = all_blank ws
all_blank (ready ∷ ws) = false
all_blank (running ∷ ws) = false
all_blank (raised ∷ ws) = false
all_blank (ended ∷ ws) = false

module _ (worker_size : ℕ) where
  -- None is a call that is not allowed: at a place outside the block or not in the right state, of a
  -- lock that does not exist or is in use, of memory that is not held or in use, or an overflow.
  abbrev pub after_call : Call → World → Option World
  after_call (allocates size) s = elim s.block as (λ _. Option World) [
    | none ↦ some (record s { block = some (replicate (size / worker_size) blank) })
    | some ws ↦ none
  ]
  after_call (event_init i) s = on_worker i initialised s
  after_call (starts i) s = if s.lock then on_worker i started s else none
  after_call (raises i) s = on_worker i woken s
  after_call (joins i) s = on_worker i (joined s.quitting) s
  after_call (event_destroy i) s = on_worker i destroyed s
  after_call mutex_init s = if s.lock then none else some (record s { lock = true })
  after_call mutex_destroy s = elim s.block as (λ _. Option World) [
    | none ↦ if s.lock then some (record s { lock = false }) else none
    | some ws ↦ none
  ]
  after_call requests_quit s = if s.lock then some (record s { quitting = true }) else none
  after_call frees s = elim s.block as (λ _. Option World) [
    | none ↦ none
    | some ws ↦ if all_blank ws then some (record s { block = none }) else none
  ]
  after_call overflows s = none

  abbrev pub after_calls : List Call → World → Option World
  after_calls [] s = some s
  after_calls (c ∷ cs) s = elim (after_call c s) as (λ _. Option World) [
    | none ↦ none
    | some s2 ↦ after_calls cs s2
  ]

abbrev pub nothing : World
nothing = record { lock = false; quitting = false; block = none }

-- no lock and no memory
abbrev pub IsGone : World → Type 0
IsGone s = (s.lock ≡ false) × (s.block ≡ none)

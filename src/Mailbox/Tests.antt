-- ===== src/Mailbox/Tests.antt =====
-- A mailbox at small inputs, and the theorems there. A callback is a number.
use libdlb.Base.{ℕ, ◌+◌, ◌≤◌, ◌≡◌, refl, true, false, [], ◌∷◌, ◌++◌, replicate}
use libdlb.Mailbox.{Flags, no_flags, band, any, same_flags, wait_any, wait_all, init, wait, raise}
use libdlb.Mailbox.Waiting.{
  World, Reach, start, waits, raises, released, waiting, callbacks_run_once, no_lost_wakeup,
}
use libdlb.Mailbox.EmptySet.{wait-no_flags, any_fires}

abbrev first_flag : Flags
first_flag = true ∷ replicate 31 false

abbrev second_flag : Flags
second_flag = false ∷ true ∷ replicate 30 false

abbrev fresh : World ℕ
fresh = record { box = init 0; firing = 0; queued = 0 }

-- a wait for the second flag, and a raise of the first
abbrev waited : World ℕ
waited = released fresh (wait second_flag 7 fresh.box)

abbrev not_yet : World ℕ
not_yet = released waited (raise first_flag waited.box)

not_yet-Reach : Reach 0 not_yet (7 ∷ []) []
not_yet-Reach = raises first_flag (waits second_flag 7 start refl)

callbacks_run_once_example :
    (7 ∷ []
      ≡ []
        ++ replicate
            (waiting not_yet.box.mode + (not_yet.firing + not_yet.queued))
            not_yet.box.func)
    × (waiting not_yet.box.mode + (not_yet.firing + not_yet.queued) ≤ 1)
callbacks_run_once_example = callbacks_run_once 0 not_yet-Reach

no_lost_wakeup_example :
    (not_yet.box.mode ≡ wait_any → any (band not_yet.box.expected not_yet.box.state) ≡ false)
    × (not_yet.box.mode ≡ wait_all
        → same_flags (band not_yet.box.expected not_yet.box.state) not_yet.box.expected ≡ false)
no_lost_wakeup_example = no_lost_wakeup 0 not_yet-Reach

abbrev seven : ℕ
seven = 7

wait-no_flags_example :
    ((wait no_flags seven (init 0)).1 ≡ false)
    × (any_fires (first_flag ∷ second_flag ∷ []) (wait no_flags seven (init 0)).0 ≡ false)
wait-no_flags_example = wait-no_flags seven (init 0) (first_flag ∷ second_flag ∷ [])

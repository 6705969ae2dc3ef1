-- ===== src/Mailbox/EmptySet.antt =====
-- What `mailbox_wait` does with the empty set of flags.
use libdlb.Base.{
  ℕ, zero, suc, ◌≡◌, refl, ap, ◌∙◌, Bool, false, ◌||◌, List, [], ◌∷◌, replicate, if◌then◌else◌,
  arith,
}
use libdlb.Mailbox.{Flags, no_flags, band, bor, any, fires, wait_any, Mailbox, raise, wait}
use libdlb.Mailbox.Waiting.{band_comm}

any-band-false : (n : ℕ) (xs : Flags) → any (band (replicate n false) xs) ≡ false
any-band-false zero xs = refl
any-band-false (suc n) [] = refl
any-band-false (suc n) (x ∷ xs) = any-band-false n xs

module _ {F : Type 0} where
  -- whether any of the raises of these sets, one after the other, calls `runq_task_exec`
  abbrev pub any_fires : List Flags → Mailbox F → Bool
  any_fires [] m = false
  any_fires (mask ∷ masks) m = (raise mask m).1 || any_fires masks (raise mask m).0

  any_fires-no_flags :
      (masks : List Flags) (m : Mailbox F)
      → m.mode ≡ wait_any
      → m.expected ≡ no_flags
      → any_fires masks m ≡ false
  unfolding raise
  any_fires-no_flags [] m e h = refl
  any_fires-no_flags (mask ∷ masks) m e h =
      let no : (raise mask m).1 ≡ false = rw (e, h, fires) (any-band-false 32 (bor m.state mask)) in
      let mode : (raise mask m).0.mode ≡ wait_any = ground (arith, no) in
      let rest = any_fires-no_flags masks (raise mask m).0 mode h in ground (arith, no, rest)

  -- A wait for any flag of the empty set does not complete, neither at once nor at any raise.
  pub wait-no_flags :
      (cb : F) (m : Mailbox F) (masks : List Flags)
      → ((wait no_flags cb m).1 ≡ false) × (any_fires masks (wait no_flags cb m).0 ≡ false)
  unfolding wait
  wait-no_flags cb m masks =
      let no : any (band m.state no_flags) ≡ false =
        ap any (band_comm m.state no_flags) ∙ any-band-false 32 m.state in
      (
        no,
        any_fires-no_flags masks (wait no_flags cb m).0
            (ap (λ fire. if fire then m.mode else wait_any) no) refl,
      )

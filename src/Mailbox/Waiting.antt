-- ===== src/Mailbox/Waiting.antt =====
-- A mailbox, the threads that raise its flags and the run queue, as interleaved steps.
use libdlb.Base.{
  ℕ, suc, ◌+◌, ◌≤◌, ◌≡◌, refl, ap, ap₂, sym, subst, ◌∙◌, Bool, false, ◌&&◌, List, [], ◌∷◌, ◌++◌,
  append-nil, replicate, if◌then◌else◌, arith,
}
use libdlb.Mailbox.{
  Flags, band, any, same_flags, fires, Mode, wait_none, wait_any, wait_all, Mailbox, init, take,
  raise, wait, wait_for_all,
}

-- `firing` counts the calls that have released the lock and are about to call `runq_task_exec`, and
-- `queued` how often the mailbox's task is in the run queue.
pub record World (F : Type 0) : Type 0 where
  pub box : Mailbox F
  pub firing : ℕ
  pub queued : ℕ

abbrev pub waiting : Mode → ℕ
waiting wait_none = 0
waiting _ = 1

pub band_comm : (a b : Flags) → band a b ≡ band b a
band_comm [] [] = refl
band_comm [] (b ∷ ys) = refl
band_comm (a ∷ xs) [] = refl
band_comm (a ∷ xs) (b ∷ ys) =
    let e : (a && b) ≡ (b && a) = ground arith in rw (e, band_comm xs ys) refl

module _ {F : Type 0} where
  -- the waits that are not complete
  abbrev pub pending : World F → ℕ
  pending w = waiting w.box.mode + (w.firing + w.queued)

  -- after the locked part of a call
  abbrev pub released : World F → Mailbox F × Bool → World F
  released w (m, fire) = record w { box = m; firing = if fire then suc w.firing else w.firing }

  -- What can have happened: `begun` are the callbacks of the waits so far, `ran` those that the run
  -- queue has called. The consumer uses the mailbox only while no wait is pending, as the header
  -- demands; any thread raises flags at any time.
  pub data Reach (f : F) : World F → List F → List F → Type 0 where
    start : Reach f (record { box = init f; firing = 0; queued = 0 }) [] []
    takes :
        {w : World F} {begun ran : List F} (mask : Flags)
        → Reach f w begun ran
        → pending w ≡ 0
        → Reach f (record w { box = (take mask w.box).0 }) begun ran
    waits :
        {w : World F} {begun ran : List F} (set : Flags) (cb : F)
        → Reach f w begun ran
        → pending w ≡ 0
        → Reach f (released w (wait set cb w.box)) (begun ++ (cb ∷ [])) ran
    waits_for_all :
        {w : World F} {begun ran : List F} (set : Flags) (cb : F)
        → Reach f w begun ran
        → pending w ≡ 0
        → Reach f (released w (wait_for_all set cb w.box)) (begun ++ (cb ∷ [])) ran
    raises :
        {w : World F} {begun ran : List F} (mask : Flags)
        → Reach f w begun ran
        → Reach f (released w (raise mask w.box)) begun ran
    submits :
        {w : World F} {begun ran : List F} {n : ℕ}
        → Reach f w begun ran
        → w.firing ≡ suc n
        → Reach f (record w { firing = n; queued = suc w.queued }) begun ran
    runs :
        {w : World F} {begun ran : List F} {n : ℕ}
        → Reach f w begun ran
        → w.queued ≡ suc n
        → Reach f (record w { queued = n }) begun (ran ++ (w.box.func ∷ []))

  -- whether what the mailbox waits for is there
  abbrev pub met : Mailbox F → Bool
  met m = fires m.mode m.expected m.state

  abbrev Inv : World F → List F → List F → Type 0
  Inv w begun ran =
      (pending w ≤ 1) × (begun ≡ ran ++ replicate (pending w) w.box.func) × (met w.box ≡ false)

  -- a raise leaves as many waits pending as before, and does not leave one that is met
  raise_lem :
      (mask : Flags) (m : Mailbox F) (k : ℕ)
      → let (m', fire) = raise mask m in
        (waiting m'.mode + ((if fire then suc k else k)) ≡ waiting m.mode + k)
        × (m'.func ≡ m.func)
        × (met m' ≡ false)
  unfolding raise
  raise_lem mask m k = ground arith

  wait_lem :
      (set : Flags) (cb : F) (m : Mailbox F) (k : ℕ)
      → m.mode ≡ wait_none
      → let (m', fire) = wait set cb m in
        (waiting m'.mode + ((if fire then suc k else k)) ≡ suc k)
        × (m'.func ≡ cb)
        × (met m' ≡ false)
  unfolding wait
  wait_lem set cb m k e = ground (arith, band_comm set m.state)

  wait_for_all_lem :
      (set : Flags) (cb : F) (m : Mailbox F) (k : ℕ)
      → m.mode ≡ wait_none
      → let (m', fire) = wait_for_all set cb m in
        (waiting m'.mode + ((if fire then suc k else k)) ≡ suc k)
        × (m'.func ≡ cb)
        × (met m' ≡ false)
  unfolding wait_for_all
  wait_for_all_lem set cb m k e = ground (arith, band_comm set m.state)

  -- a call that begins a wait when none is pending
  begin_lem :
      (w : World F) (begun ran : List F) (cb : F) (m : Mailbox F) (fire : Bool)
      → Inv w begun ran
      → pending w ≡ 0
      → waiting m.mode + (if fire then suc w.firing else w.firing) ≡ suc w.firing
      → m.func ≡ cb
      → met m ≡ false
      → Inv (released w (m, fire)) (begun ++ (cb ∷ [])) ran
  begin_lem w begun ran cb m fire (a, b, c) idle count e unmet =
      let one : pending (released w (m, fire)) ≡ 1 = omega (arith, idle, count) in
      let all : begun ≡ ran =
        subst (λ k. begun ≡ ran ++ replicate k w.box.func) idle b ∙ append-nil ran in
      (
        omega (arith, one),
        ap (λ xs. xs ++ (cb ∷ [])) all ∙ sym (ap₂ (λ k g. ran ++ replicate k g) one e),
        unmet,
      )

  -- a change that leaves the callback and the pending waits as they are
  keep_lem :
      (w w' : World F) (begun ran : List F)
      → Inv w begun ran
      → pending w' ≡ pending w
      → w'.box.func ≡ w.box.func
      → met w'.box ≡ false
      → Inv w' begun ran
  keep_lem w w' begun ran (a, b, c) count e unmet =
      (omega (arith, count), b ∙ sym (ap₂ (λ k g. ran ++ replicate k g) count e), unmet)

  idle-mode : (w : World F) → pending w ≡ 0 → w.box.mode ≡ wait_none
  idle-mode w h = ground arith

  Reach-Inv : (f : F) {w : World F} {begun ran : List F} → Reach f w begun ran → Inv w begun ran
  unfolding take
  Reach-Inv f start = (omega arith, refl, refl)
  Reach-Inv f (takes {w} {begun} {ran} mask r idle) =
      keep_lem w (record w { box = (take mask w.box).0 }) begun ran (Reach-Inv f r) refl refl
        (ap (λ m. fires m w.box.expected (take mask w.box).0.state) (idle-mode w idle))
  Reach-Inv f (waits {w} {begun} {ran} set cb r idle) =
      let (count, e, unmet) = wait_lem set cb w.box w.firing (idle-mode w idle) in
      begin_lem w begun ran cb (wait set cb w.box).0 (wait set cb w.box).1 (Reach-Inv f r) idle
        count e unmet
  Reach-Inv f (waits_for_all {w} {begun} {ran} set cb r idle) =
      let (count, e, unmet) = wait_for_all_lem set cb w.box w.firing (idle-mode w idle) in
      begin_lem w begun ran cb (wait_for_all set cb w.box).0 (wait_for_all set cb w.box).1
        (Reach-Inv f r) idle count e unmet
  Reach-Inv f (raises {w} {begun} {ran} mask r) =
      let (count, e, unmet) = raise_lem mask w.box w.firing in
      keep_lem w (released w (raise mask w.box)) begun ran (Reach-Inv f r) (omega (arith, count)) e
        unmet
  Reach-Inv f (submits {w} {begun} {ran} {n} r h) =
      keep_lem w (record w { firing = n; queued = suc w.queued }) begun ran (Reach-Inv f r)
        (omega (arith, h)) refl (Reach-Inv f r).2
  Reach-Inv f (runs {w} {begun} {ran} {n} r h) =
      let (a, b, c) = Reach-Inv f r in
      let one : pending w ≡ 1 = omega (arith, a, h) in
      let none_left : pending (record w { queued = n }) ≡ 0 = omega (arith, a, h) in
      (
        omega (arith, none_left),
        subst (λ k. begun ≡ ran ++ replicate k w.box.func) one b
            ∙ (sym (append-nil (ran ++ (w.box.func ∷ [])))
                ∙ sym (ap (λ k. (ran ++ (w.box.func ∷ [])) ++ replicate k w.box.func) none_left)),
        c,
      )

  -- However the calls interleave, the callbacks run in the order of their waits, each once: those
  -- that have not run are those of the pending waits. At most one wait is pending, so the task is
  -- never put in the run queue while it is there.
  pub callbacks_run_once :
      (f : F) {w : World F} {begun ran : List F}
      → Reach f w begun ran
      → (begun ≡ ran ++ replicate (pending w) w.box.func)
        × (waiting w.box.mode + (w.firing + w.queued) ≤ 1)
  callbacks_run_once f r = ((Reach-Inv f r).1, (Reach-Inv f r).0)

  -- No wake-up is lost: between calls, a mailbox that waits for any of a set has none of its flags
  -- raised, and one that waits for all has not all of them.
  pub no_lost_wakeup :
      (f : F) {w : World F} {begun ran : List F}
      → Reach f w begun ran
      → (w.box.mode ≡ wait_any → any (band w.box.expected w.box.state) ≡ false)
        × (w.box.mode ≡ wait_all
            → same_flags (band w.box.expected w.box.state) w.box.expected ≡ false)
  no_lost_wakeup f r = let h = (Reach-Inv f r).2 in ground (arith, h)

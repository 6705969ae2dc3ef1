-- ===== src/Runq/Start/Calls.antt =====
-- The calls for one worker, and the loops that join the workers.
use libdlb.Base.{
  ℕ, zero, suc, ◌+◌, ◌-◌, ◌^◌, ◌<◌, ◌≡◌, refl, ap, ◌∙◌, sym, Bool, true, false, Option, none, some,
  List, [], ◌∷◌, ◌++◌, append-nil, replicate, ◌==◌, arith,
}
use libdlb.Runq.Start.{
  Call, event_init, starts, raises, joins, event_destroy, mutex_destroy, frees, join_worker,
  count_on, join_down, join_up, give_up,
}
use libdlb.Runq.Start.Machine.{
  Slot, blank, ready, running, raised, ended, World, initialised, started, woken, joined, destroyed,
  change, on_worker, all_blank, after_call, after_calls,
}

-- one worker after `i` others in the same stage
abbrev pub row : ℕ → Slot → Slot → List Slot → List Slot
row i c a ys = replicate i c ++ (a ∷ ys)

-- a world with a lock and a block
abbrev pub world : Bool → List Slot → World
world q ws = record { lock = true; quitting = q; block = some ws }

abbrev pub all_run : ℕ → World
all_run n = world false (replicate n running)

pub replicate_shift : (i : ℕ) (c : Slot) (ys : List Slot) → row i c c ys ≡ replicate (suc i) c ++ ys
replicate_shift zero c ys = refl
replicate_shift (suc i) c ys = ap (λ t. c ∷ t) (replicate_shift i c ys)

pub all_blank-replicate : (n : ℕ) → all_blank (replicate n blank) ≡ true
all_blank-replicate zero = refl
all_blank-replicate (suc n) = all_blank-replicate n

change_at :
    (i : ℕ) (c a b : Slot) (ys : List Slot) (f : Slot → Option Slot)
    → f a ≡ some b
    → change i f (row i c a ys) ≡ some (row i c b ys)
change_at zero c a b ys f e = rw e refl
change_at (suc i) c a b ys f e = rw (change_at i c a b ys f e) refl

on_worker_at :
    (q : Bool) (i : ℕ) (c a b : Slot) (ys : List Slot) (f : Slot → Option Slot)
    → f a ≡ some b
    → on_worker i f (world q (row i c a ys)) ≡ some (world q (row i c b ys))
on_worker_at q i c a b ys f e = rw (on_worker, change_at i c a b ys f e) refl

pub count_on_small : (i : ℕ) → i < 2 ^ 31 - 1 → count_on i ≡ []
unfolding count_on
count_on_small i h = let other : (i == 2 ^ 31 - 1) ≡ false = ground arith in rw other refl

-- the memory and the lock given back when no worker is left
abbrev pub gone : World
gone = record { lock = false; quitting = true; block = none }

module _ (worker_size : ℕ) where
  abbrev pub runs : List Call → World → Option World
  runs = after_calls worker_size

  next :
      (c : Call) (cs : List Call) (s t : World)
      → after_call worker_size c s ≡ some t
      → runs (c ∷ cs) s ≡ runs cs t
  next c cs s t e = rw (after_calls, e) refl

  joins_worker :
      (i : ℕ) (c : Slot) (ys : List Slot) (cs : List Call)
      → runs (join_worker i ++ cs) (world true (row i c running ys))
        ≡ runs cs (world true (row i c blank ys))
  joins_worker i c ys cs =
      next (raises i) (joins i ∷ event_destroy i ∷ cs) (world true (row i c running ys))
        (world true (row i c raised ys)) (on_worker_at true i c running raised ys woken refl)
      ∙ (next (joins i) (event_destroy i ∷ cs) (world true (row i c raised ys))
            (world true (row i c ended ys))
            (on_worker_at true i c raised ended ys (joined true) refl)
          ∙ next (event_destroy i) cs (world true (row i c ended ys))
              (world true (row i c blank ys)) (on_worker_at true i c ended blank ys destroyed refl))

  join_down_lem :
      (i k : ℕ) (cs : List Call)
      → runs (join_down i ++ cs) (world true (replicate i running ++ replicate k blank))
        ≡ runs cs (world true (replicate (i + k) blank))
  join_down_lem zero k cs = ap (λ n. runs cs (world true (replicate n blank))) (omega arith)
  join_down_lem (suc i) k cs =
      ap (λ w. runs (join_worker i ++ (join_down i ++ cs)) (world true w))
        (sym (replicate_shift i running (replicate k blank)))
      ∙ (joins_worker i running (replicate k blank) (join_down i ++ cs)
          ∙ (join_down_lem i (suc k) cs
              ∙ ap (λ n. runs cs (world true (replicate n blank))) (omega arith)))

  pub join_up_lem :
      (left i : ℕ) (cs : List Call)
      → i + left < 2 ^ 31
      → runs (join_up left i ++ cs) (world true (replicate i blank ++ replicate left running))
        ≡ runs cs (world true (replicate (i + left) blank))
  join_up_lem zero i cs small =
      ap (λ w. runs cs (world true w)) (append-nil (replicate i blank))
      ∙ ap (λ n. runs cs (world true (replicate n blank))) (omega arith)
  join_up_lem (suc left) i cs small =
      joins_worker i blank (replicate left running) ((count_on i ++ join_up left (suc i)) ++ cs)
      ∙ (ap
            (λ l.
              runs ((l ++ join_up left (suc i)) ++ cs)
                (world true (row i blank blank (replicate left running))))
            (count_on_small i (omega arith))
          ∙ (ap (λ w. runs (join_up left (suc i) ++ cs) (world true w))
                (replicate_shift i blank (replicate left running))
              ∙ (join_up_lem left (suc i) cs (omega arith)
                  ∙ ap (λ n. runs cs (world true (replicate n blank))) (omega arith))))

  pub frees_all :
      (n : ℕ) → runs (frees ∷ mutex_destroy ∷ []) (world true (replicate n blank)) ≡ some gone
  frees_all n = rw (after_calls, all_blank-replicate n) refl

  pub gives_up :
      (i k : ℕ)
      → runs (give_up i) (world false (replicate i running ++ replicate k blank)) ≡ some gone
  gives_up i k = join_down_lem i k (frees ∷ mutex_destroy ∷ []) ∙ frees_all (i + k)

  pub starts_worker :
      (i : ℕ) (c : Slot) (ys : List Slot) (cs : List Call)
      → runs (event_init i ∷ starts i ∷ cs) (world false (row i c blank ys))
        ≡ runs cs (world false (row i c running ys))
  starts_worker i c ys cs =
      next (event_init i) (starts i ∷ cs) (world false (row i c blank ys))
        (world false (row i c ready ys)) (on_worker_at false i c blank ready ys initialised refl)
      ∙ next (starts i) cs (world false (row i c ready ys)) (world false (row i c running ys))
          (on_worker_at false i c ready running ys started refl)

  pub gives_event_back :
      (i : ℕ) (c : Slot) (ys : List Slot) (cs : List Call)
      → runs (event_init i ∷ event_destroy i ∷ cs) (world false (row i c blank ys))
        ≡ runs cs (world false (row i c blank ys))
  gives_event_back i c ys cs =
      next (event_init i) (event_destroy i ∷ cs) (world false (row i c blank ys))
        (world false (row i c ready ys)) (on_worker_at false i c blank ready ys initialised refl)
      ∙ next (event_destroy i) cs (world false (row i c ready ys)) (world false (row i c blank ys))
          (on_worker_at false i c ready blank ys destroyed refl)

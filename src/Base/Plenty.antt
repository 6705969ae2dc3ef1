-- ===== src/Base/Plenty.antt =====
-- Memory that never ends, filled with 0: a `realloc` that never fails, for tests.
use libdlb.Base.{
  ℕ, ap, ◌∙◌, sym, Option, none, some, List, [], length, length-tabulate, get_or, get_or-tabulate,
  tabulate,
}
use libdlb.Base.Memory.{Alloc, IsRealloc}

abbrev pub plenty : Alloc
plenty n xs = some (tabulate n (λ i. get_or xs i 0))

abbrev pub block : Option (List ℕ) → List ℕ
block none = []
block (some xs) = xs

pub plenty-IsRealloc : IsRealloc plenty
plenty-IsRealloc = record {
  sized = λ n xs ys e. ap (λ o. length (block o)) (sym e) ∙ length-tabulate n (λ i. get_or xs i 0);
  kept = λ n xs ys e i p q.
      ap (λ o. get_or (block o) i 0) (sym e) ∙ get_or-tabulate n (λ j. get_or xs j 0) 0 i p;
}

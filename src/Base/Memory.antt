-- ===== src/Base/Memory.antt =====
-- Areas of memory as lists of bytes, `memcpy` between them, and what C promises of `realloc`.
use Prim.Native.Nat.{ℕ, zero, suc, ◌+◌, ◌-◌, ◌≤◌, ◌<◌}
use mathlib.Core.Path.{◌≡◌, refl, ap}
use mathlib.Core.Bool.{◌&&◌, false}
use mathlib.Core.Option.{Option, some}
use mathlib.Core.List.{List, [], ◌∷◌, ◌++◌}
use native.Mathlib.Omega.{arith}
use libdlb.Base.Tests.{Outcome, done, fault, ◌>>=◌, ◌==◌, ltb, leb, if◌then◌else◌}
use libdlb.Base.Lists.{length, get_or, take, drop, length-take, length-drop}

-- the area `dst` with `src` written from `at` on
abbrev pub copy_in : List ℕ → ℕ → List ℕ → List ℕ
copy_in [] at src = []
copy_in (x ∷ dst) (suc at) src = x ∷ copy_in dst at src
copy_in (x ∷ dst) zero [] = x ∷ dst
copy_in (x ∷ dst) zero (y ∷ src) = y ∷ copy_in dst zero src

-- `memcpy(dst + at, src + from, n)`, a fault where one of the areas is too short.
abbrev pub memcpy : List ℕ → ℕ → List ℕ → ℕ → ℕ → Outcome (List ℕ)
memcpy dst at src from n =
    if leb (at + n) (length dst) && leb (from + n) (length src)
    then done (copy_in dst at (take n (drop from src)))
    else fault

pub length-copy_in :
    (dst : List ℕ) (at : ℕ) (src : List ℕ) → length (copy_in dst at src) ≡ length dst
length-copy_in [] at src = refl
length-copy_in (x ∷ dst) (suc at) src = ap suc (length-copy_in dst at src)
length-copy_in (x ∷ dst) zero [] = refl
length-copy_in (x ∷ dst) zero (y ∷ src) = ap suc (length-copy_in dst zero src)

get_or-copy_in :
    (dst : List ℕ) (at : ℕ) (src : List ℕ) (j : ℕ)
    → at + length src ≤ length dst
    → get_or (copy_in dst at src) j 0
      ≡ (if leb at j && ltb j (at + length src) then get_or src (j - at) 0 else get_or dst j 0)
get_or-copy_in [] at src j h = ground arith
get_or-copy_in (x ∷ dst) (suc at) src zero h = ground arith
get_or-copy_in (x ∷ dst) (suc at) src (suc j) h = ground (arith, get_or-copy_in dst at src j)
get_or-copy_in (x ∷ dst) zero [] j h = ground arith
get_or-copy_in (x ∷ dst) zero (y ∷ src) zero h = ground arith
get_or-copy_in (x ∷ dst) zero (y ∷ src) (suc j) h = ground (arith, get_or-copy_in dst zero src j)

pub get_or-drop : (n : ℕ) (xs : List ℕ) (i : ℕ) → get_or (drop n xs) i 0 ≡ get_or xs (n + i) 0
get_or-drop zero xs i = ap (λ k. get_or xs k 0) (omega arith)
get_or-drop (suc n) [] i = refl
get_or-drop (suc n) (x ∷ xs) i = ground (arith, get_or-drop n xs i)

pub get_or-take :
    (n : ℕ) (xs : List ℕ) (i : ℕ) → get_or (take n xs) i 0 ≡ (if ltb i n then get_or xs i 0 else 0)
get_or-take zero xs i = ground arith
get_or-take (suc n) [] i = ground arith
get_or-take (suc n) (x ∷ xs) zero = ground arith
get_or-take (suc n) (x ∷ xs) (suc i) = ground (arith, get_or-take n xs i)

-- what a `memcpy` inside both areas leaves at each index
pub memcpy-done :
    (dst : List ℕ) (at : ℕ) (src : List ℕ) (from n : ℕ)
    → at + n ≤ length dst
    → from + n ≤ length src
    → (out : List ℕ) × (memcpy dst at src from n ≡ done out)
      × (length out ≡ length dst)
      × ((j : ℕ)
          → get_or out j 0 ≡ (
              if leb at j && ltb j (at + n)
              then get_or src (from + (j - at)) 0
              else get_or dst j 0))
memcpy-done dst at src from n p q = (
  copy_in dst at piece,
  ground arith,
  length-copy_in dst at piece,
  λ j. ground (
    arith,
    size,
    get_or-copy_in dst at piece j,
    get_or-take n (drop from src) (j - at),
    get_or-drop from src (j - at),
  ),
)
  where
    piece : List ℕ
    piece = take n (drop from src)

    size : length piece ≡ n
    size = omega (arith, length-take n (drop from src), length-drop from src)

-- `strlen`, a fault if no byte is 0
pub strlen : List ℕ → Outcome ℕ
strlen [] = fault
strlen (x ∷ xs) = if x == 0 then done 0 else (strlen xs >>= λ n. done (suc n))

-- `malloc` and `realloc`: the block of a size with the old bytes in front, or none
abbrev pub Alloc : Type 0
Alloc = ℕ → List ℕ → Option (List ℕ)

-- what C promises of them
pub record IsRealloc (alloc : Alloc) : Type 0 where
  pub sized : (n : ℕ) (xs ys : List ℕ) → alloc n xs ≡ some ys → length ys ≡ n
  pub kept :
      (n : ℕ) (xs ys : List ℕ)
      → alloc n xs ≡ some ys
      → (i : ℕ) → i < n
      → i < length xs
      → get_or ys i 0 ≡ get_or xs i 0

-- no byte is 0
abbrev pub HasNone : List ℕ → Type 0
HasNone [] = Unit
HasNone (x ∷ xs) = ((x == 0) ≡ false) × HasNone xs

pub strlen_lem : (xs ys : List ℕ) → HasNone xs → strlen (xs ++ (0 ∷ ys)) ≡ done (length xs)
unfolding strlen
strlen_lem [] ys h = refl
strlen_lem (x ∷ xs) ys h = rw (h.0, strlen_lem xs ys h.1) refl

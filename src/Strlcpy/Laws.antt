-- ===== src/Strlcpy/Laws.antt =====
-- The copies end with a NUL inside the area, and are cut only where there is no room.
use libdlb.Base.{
  ℕ, ◌+◌, ◌-◌, ◌^◌, ◌≤◌, ◌<◌, ◌≡◌, ap, ◌∙◌, sym, min, List, [], ◌∷◌, ◌++◌, length, get_or,
  length-append, ◌||◌, false, ltb, ◌==◌, if◌then◌else◌, done, ◌>>=◌, bind_assoc, arith,
}
use libdlb.Base.Words.{add_size, sub_size}
use libdlb.Base.Memory.{memcpy, memcpy-done, strlen, HasNone, strlen_lem}
use libdlb.Strlcpy.{strlcpy, strlcat}

-- `n` bytes of `src` and a NUL, from `at` on
put_lem :
    (dst : List ℕ) (at : ℕ) (src : List ℕ) (n : ℕ)
    → at + n < length dst
    → n ≤ length src
    → (out : List ℕ) × ((memcpy dst at src 0 n >>= λ d. memcpy d (at + n) (0 ∷ []) 0 1) ≡ done out)
      × (length out ≡ length dst)
      × ((i : ℕ) → i < at → get_or out i 0 ≡ get_or dst i 0)
      × ((i : ℕ) → i < n → get_or out (at + i) 0 ≡ get_or src i 0)
      × (get_or out (at + n) 0 ≡ 0)
put_lem dst at src n room read =
    let (d, copied, same, bytes) = memcpy-done dst at src 0 n (omega arith) (omega arith) in
    let (out, ended, same2, bytes2) =
      memcpy-done d (at + n) (0 ∷ []) 0 1 (omega (arith, same)) (omega arith) in
    (
      out,
      ap (λ o. o >>= λ d. memcpy d (at + n) (0 ∷ []) 0 1) copied ∙ ended,
      same2 ∙ same,
      λ i p. ground (arith, bytes i, bytes2 i),
      λ i p.
          let index : 0 + (at + i - at) ≡ i = omega arith in
          ground (arith, bytes (at + i), bytes2 (at + i), ap (λ k. get_or src k 0) index),
      ground (arith, bytes2 (at + n)),
    )

zero_add : (i : ℕ) → 0 + i ≡ i
zero_add i = omega arith

strlcpy-runs :
    (dst src : List ℕ) (size k n : ℕ) (out : List ℕ)
    → strlen src ≡ done n
    → (size == 0) ≡ false
    → (if ltb (sub_size size 1) n then sub_size size 1 else n) ≡ k
    → (memcpy dst 0 src 0 k >>= λ d. memcpy d k (0 ∷ []) 0 1) ≡ done out
    → strlcpy dst src size ≡ done (n, out)
unfolding strlcpy
strlcpy-runs dst src size k n out count some_room len runs =
    rw (count, some_room, len)
      (sym (bind_assoc (memcpy dst 0 src 0 k) (λ d. memcpy d k (0 ∷ []) 0 1) (λ e. done (n, e)))
        ∙ ap (λ o. o >>= λ e. done (n, e)) runs)

-- `strlcpy` of the C string `xs` into an area of at least `size` bytes, `size` not 0, returns its
-- length. It leaves the first `size - 1` bytes of `xs`, or all if they fit, with a NUL behind them.
pub strlcpy_lem :
    (dst xs ys : List ℕ) (size : ℕ)
    → HasNone xs
    → 0 < size
    → size ≤ length dst
    → size < 2 ^ 64
    → let k = min (length xs) (size - 1) in
      (out : List ℕ) × (strlcpy dst (xs ++ (0 ∷ ys)) size ≡ done (length xs, out))
      × (length out ≡ length dst)
      × ((i : ℕ) → i < k → get_or out i 0 ≡ get_or (xs ++ (0 ∷ ys)) i 0)
      × (get_or out k 0 ≡ 0)
strlcpy_lem dst xs ys size h pos room small =
    let k = min (length xs) (size - 1) in
    let (out, runs, same, kept, bytes, nul) =
      put_lem dst 0 (xs ++ (0 ∷ ys)) k (omega arith) (omega (arith, length-append xs (0 ∷ ys))) in
    (
      out,
      strlcpy-runs dst (xs ++ (0 ∷ ys)) size k (length xs) out (strlen_lem xs ys h) (ground arith)
          (ground arith)
          (ap (λ a. memcpy dst 0 (xs ++ (0 ∷ ys)) 0 k >>= λ d. memcpy d a (0 ∷ []) 0 1)
              (sym (zero_add k))
            ∙ runs),
      same,
      λ i p. ap (λ j. get_or out j 0) (sym (zero_add i)) ∙ bytes i p,
      ap (λ j. get_or out j 0) (sym (zero_add k)) ∙ nul,
    )

strlcat-runs :
    (dst src : List ℕ) (size k m n : ℕ) (out : List ℕ)
    → strlen dst ≡ done m
    → strlen src ≡ done n
    → ((size == 0) || ltb (sub_size size 1) m) ≡ false
    → (if ltb (sub_size (sub_size size m) 1) n then sub_size (sub_size size m) 1 else n) ≡ k
    → add_size m n ≡ m + n
    → add_size m k ≡ m + k
    → (memcpy dst m src 0 k >>= λ d. memcpy d (m + k) (0 ∷ []) 0 1) ≡ done out
    → strlcat dst src size ≡ done (m + n, out)
unfolding strlcat
strlcat-runs dst src size k m n out held count some_room len total end runs =
    rw (held, count, some_room, len, total, end)
      (sym (
          bind_assoc (memcpy dst m src 0 k) (λ d. memcpy d (m + k) (0 ∷ []) 0 1)
            (λ e. done (m + n, e)))
        ∙ ap (λ o. o >>= λ e. done (m + n, e)) runs)

-- `strlcat` of the C string `xs` to the string `zs` in an area of at least `size` bytes, of which `zs`
-- leaves one free, returns the sum of the lengths. It leaves `zs`, then as much of `xs` as fits into
-- `size` bytes with the NUL that follows it.
pub strlcat_lem :
    (zs rest xs ys : List ℕ) (size : ℕ)
    → HasNone zs
    → HasNone xs
    → length zs < size
    → size ≤ length (zs ++ (0 ∷ rest))
    → size < 2 ^ 64
    → length zs + length xs < 2 ^ 64
    → let k = min (length xs) (size - 1 - length zs) in
      let dst = zs ++ (0 ∷ rest) in
      (out : List ℕ) × (strlcat dst (xs ++ (0 ∷ ys)) size ≡ done (length zs + length xs, out))
      × (length out ≡ length dst)
      × ((i : ℕ) → i < length zs → get_or out i 0 ≡ get_or dst i 0)
      × ((i : ℕ) → i < k → get_or out (length zs + i) 0 ≡ get_or (xs ++ (0 ∷ ys)) i 0)
      × (get_or out (length zs + k) 0 ≡ 0)
strlcat_lem zs rest xs ys size h g pos room small sum =
    let k = min (length xs) (size - 1 - length zs) in
    let dst = zs ++ (0 ∷ rest) in
    let (out, runs, same, kept, bytes, nul) =
      put_lem dst (length zs) (xs ++ (0 ∷ ys)) k (omega (arith, room, pos))
        (omega (arith, length-append xs (0 ∷ ys))) in
    (
      out,
      strlcat-runs dst (xs ++ (0 ∷ ys)) size k (length zs) (length xs) out (strlen_lem zs rest h)
          (strlen_lem xs ys g) (ground arith) (ground arith) (omega arith) (omega arith) runs,
      same,
      kept,
      bytes,
      nul,
    )

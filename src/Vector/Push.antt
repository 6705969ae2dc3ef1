-- ===== src/Vector/Push.antt =====
-- `vector_push` puts the new elements behind the old.
use native.Mathlib.Nat.{mul-le-mul_right, add-mul}
use libdlb.Base.{
  ℕ, ◌+◌, ◌-◌, ◌*◌, ◌≤◌, ◌<◌, ◌≡◌, refl, ap, ap₂, ◌∙◌, Bool, true, false, none, List, length,
  get_or, ltb, leb, ◌&&◌, if◌then◌else◌, Outcome, done, ◌>>=◌, arith,
}
use libdlb.Base.Words.{u32}
use libdlb.Base.Memory.{memcpy, memcpy-done, Alloc, IsRealloc}
use libdlb.Vector.{Vector, size_for, push}
use libdlb.Vector.Contents.{IsValid, Fits, Sized, refused, sized, size_for-Sized}

-- what a copy leaves in front of its place, and at its place
front : (a b i y z : ℕ) {x : ℕ} → x ≡ (if leb a i && ltb i b then y else z) → i < a → x ≡ z
front a b i y z e less = ground (arith, e, less)

back :
    (bytes : List ℕ) (i a b z : ℕ) {x base n : ℕ}
    → x ≡ (
        if leb a (base + i) && ltb (base + i) (a + b)
        then get_or bytes (0 + (base + i - a)) 0
        else z)
    → a ≡ base
    → b ≡ n
    → i < n
    → x ≡ get_or bytes i 0
back bytes i a b z {x} {base} {n} e at len less =
    let index : 0 + (base + i - a) ≡ i = omega (arith, at) in
    ground (arith, e, at, len, less, ap (λ j. get_or bytes j 0) index)

-- What a push comes to: no memory and the same vector, or the new elements behind the old.
pub data Pushed (alloc : Alloc) (v : Vector) (bytes : List ℕ) (count : ℕ)
    : Bool × Vector → Type 0 where
  not_pushed :
      (k : ℕ) (xs : List ℕ)
      → alloc k xs ≡ none
      → v.capacity < v.size + count
      → Pushed alloc v bytes count (false, v)
  pushed :
      (v2 : Vector)
      → IsValid v2
      → v2.size ≡ v.size + count
      → v2.elemsize ≡ v.elemsize
      → ((i : ℕ) → i < v.size * v.elemsize → get_or v2.ptr i 0 ≡ get_or v.ptr i 0)
      → ((i : ℕ)
          → i < count * v.elemsize
          → get_or v2.ptr (v.size * v.elemsize + i) 0 ≡ get_or bytes i 0)
      → Pushed alloc v bytes count (true, v2)

-- `vector_push` of `count` elements onto a valid vector, to a size that fits, returns: it finds no memory
-- and leaves the vector as it was, or keeps the invariant and the old elements and puts the new ones
-- behind them; no access leaves the vector's block or the elements given.
pub push-Pushed :
    (alloc : Alloc) (v : Vector) (bytes : List ℕ) (count : ℕ)
    → IsRealloc alloc
    → IsValid v
    → Fits v (v.size + count)
    → count * v.elemsize ≤ length bytes
    → (r : Bool × Vector) × (push alloc v bytes count ≡ done r) × Pushed alloc v bytes count r
unfolding push
push-Pushed alloc v bytes count law (le, block) (small, fits) given =
    let wrap : u32 (v.size + count) ≡ v.size + count = omega (arith, small) in
    let (r, runs, sum) = size_for-Sized alloc v (v.size + count) law block (small, fits) in
    let (r2, e, sum2) = go r sum in
    (
      r2,
      ap (λ n. size_for alloc v n >>= λ (ok, v2). after ok v2) wrap
          ∙ ap (λ o. o >>= λ (ok, v2). after ok v2) runs
          ∙ e,
      sum2,
    )
  where
    after : Bool → Vector → Outcome (Bool × Vector)
    after ok v2 =
        if ok
        then (memcpy v2.ptr (u32 (v2.size * v2.elemsize)) bytes 0 (u32 (count * v2.elemsize))
            >>= λ p. done (true, record v2 { ptr = p; size = u32 (v2.size + count) }))
        else done (false, v2)

    go :
        (r : Bool × Vector)
        → Sized alloc v (v.size + count) r
        → (r2 : Bool × Vector) × (after r.0 r.1 ≡ done r2) × Pushed alloc v bytes count r2
    go r (refused k xs e short) = ((false, v), refl, not_pushed k xs e short)
    go r (sized v2 size elem room block2 kept) =
        let old : v.size * v.elemsize ≤ (2 * (v.size + count) + 8) * v.elemsize =
          mul-le-mul_right v.elemsize (omega arith) in
        let new : count * v.elemsize ≤ (2 * (v.size + count) + 8) * v.elemsize =
          mul-le-mul_right v.elemsize (omega arith) in
        let at : u32 (v2.size * v2.elemsize) ≡ v.size * v.elemsize =
          ap₂ (λ s e. u32 (s * e)) size elem ∙ omega (arith, old, fits) in
        let n : u32 (count * v2.elemsize) ≡ count * v.elemsize =
          ap (λ e. u32 (count * e)) elem ∙ omega (arith, new, fits) in
        let both : (v.size + count) * v.elemsize ≤ v2.capacity * v.elemsize =
          mul-le-mul_right v.elemsize room in
        let area : length v2.ptr ≡ v2.capacity * v.elemsize =
          block2 ∙ ap (λ e. v2.capacity * e) elem in
        let split = add-mul v.size count v.elemsize in
        let held : v.size * v.elemsize ≤ v.capacity * v.elemsize = mul-le-mul_right v.elemsize le in
        let (p, copies, len, bytes_at) =
          memcpy-done v2.ptr (u32 (v2.size * v2.elemsize)) bytes 0 (u32 (count * v2.elemsize))
            (omega (arith, at, n, both, split, area)) (omega (arith, n, given)) in
        let total : u32 (v2.size + count) ≡ v.size + count = omega (arith, size, small) in
        (
          (true, record v2 { ptr = p; size = u32 (v2.size + count) }),
          ap (λ o. o >>= λ p. done (true, record v2 { ptr = p; size = u32 (v2.size + count) }))
              copies,
          pushed (record v2 { ptr = p; size = u32 (v2.size + count) })
              (omega (arith, total, room), len ∙ block2) total elem
              (λ i q.
                front _ _ i _ _ (bytes_at i) (omega (arith, at, q))
                ∙ kept i (omega (arith, q, split)) (omega (arith, q, held)))
              (λ i q. back bytes i _ _ _ (bytes_at (v.size * v.elemsize + i)) at n q),
        )

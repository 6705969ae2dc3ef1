-- ===== src/Vector/Contents.antt =====
-- The elements of a vector through `size_for`, `vector_resize` and `vector_pop`.
use native.Mathlib.Nat.{mul-le-mul_right}
use libdlb.Base.{
  ℕ, ◌+◌, ◌-◌, ◌*◌, ◌^◌, ◌≤◌, ◌<◌, ◌≡◌, refl, ap, ◌∙◌, inl, inr, Bool, true, false, Bool-cases,
  Option, none, some, List, length, get_or, ltb, leb, ◌&&◌, if◌then◌else◌, done, ◌>>=◌, arith,
}
use libdlb.Base.Words.{u32}
use libdlb.Base.Memory.{Alloc, IsRealloc}
use libdlb.Vector.{Vector, reallocate, size_for, resize, pop}
use libdlb.Vector.Capacity.{capacity_for_lem}

-- The block has the bytes of `capacity` elements.
abbrev pub IsBlock : Vector → Type 0
IsBlock v = length v.ptr ≡ v.capacity * v.elemsize

abbrev pub IsValid : Vector → Type 0
IsValid v = (v.size ≤ v.capacity) × IsBlock v

-- what a vector is asked to hold: the capacity for it stays within 32 bits
abbrev pub Fits : Vector → ℕ → Type 0
Fits v needed = (needed ≤ 2 ^ 29) × ((2 * needed + 8) * v.elemsize < 2 ^ 32)

-- What `size_for` comes to: no memory, and too little room; or the same size and the same bytes, as far
-- as the room that is asked for, in a block that has it.
pub data Sized (alloc : Alloc) (v : Vector) (needed : ℕ) : Bool × Vector → Type 0 where
  refused :
      (k : ℕ) (xs : List ℕ)
      → alloc k xs ≡ none
      → v.capacity < needed
      → Sized alloc v needed (false, v)
  sized :
      (v2 : Vector)
      → v2.size ≡ v.size
      → v2.elemsize ≡ v.elemsize
      → needed ≤ v2.capacity
      → IsBlock v2
      → ((i : ℕ)
          → i < needed * v.elemsize
          → i < v.capacity * v.elemsize
          → get_or v2.ptr i 0 ≡ get_or v.ptr i 0)
      → Sized alloc v needed (true, v2)

reallocate-Sized :
    (alloc : Alloc) (v : Vector) (needed cap : ℕ)
    → IsRealloc alloc
    → IsBlock v
    → needed ≤ cap
    → cap * v.elemsize < 2 ^ 32
    → Sized alloc v needed (reallocate alloc v needed cap)
reallocate-Sized alloc v needed cap law block room small =
    elim (Bool-cases (leb cap v.capacity && leb v.capacity (u32 (cap * 2)))) [
      | inl fine ↦
          let enough : needed ≤ v.capacity = ground (arith, fine, room) in
          rw fine (sized v refl refl enough block (λ i p q. refl))
      | inr other ↦ rw other (go (alloc (u32 (cap * v.elemsize)) v.ptr) refl)
    ]
  where
    go :
        (o : Option (List ℕ))
        → alloc (u32 (cap * v.elemsize)) v.ptr ≡ o
        → Sized alloc v needed (elim o as (λ _. Bool × Vector) [
          | none ↦ (leb needed v.capacity, v)
          | some p ↦ (true, record v { ptr = p; capacity = cap })
        ])
    go none e = elim (Bool-cases (leb needed v.capacity)) [
      | inl enough ↦ rw enough (sized v refl refl (ground (arith, enough)) block (λ i p q. refl))
      | inr short ↦ rw short (refused (u32 (cap * v.elemsize)) v.ptr e (ground (arith, short)))
    ]
    go (some p) e =
        let wrap : u32 (cap * v.elemsize) ≡ cap * v.elemsize = omega (arith, small) in
        let bytes : needed * v.elemsize ≤ cap * v.elemsize = mul-le-mul_right v.elemsize room in
        sized (record v { ptr = p; capacity = cap }) refl refl room
          (law.sized (u32 (cap * v.elemsize)) v.ptr p e ∙ wrap)
          (λ i q r.
            law.kept (u32 (cap * v.elemsize)) v.ptr p e i (omega (arith, q, bytes, wrap))
              (omega (arith, r, block)))

-- `size_for` of a capacity that fits returns: it finds no memory and leaves a vector without the room
-- as it was, or leaves the size and the bytes in a block with the room.
pub size_for-Sized :
    (alloc : Alloc) (v : Vector) (needed : ℕ)
    → IsRealloc alloc
    → IsBlock v
    → Fits v needed
    → (r : Bool × Vector) × (size_for alloc v needed ≡ done r) × Sized alloc v needed r
unfolding size_for
size_for-Sized alloc v needed law block (small, bytes) =
    let (cap, runs, room, _, top) = capacity_for_lem needed small in
    let fits : cap * v.elemsize ≤ (2 * needed + 8) * v.elemsize = mul-le-mul_right v.elemsize top in
    (
      reallocate alloc v needed cap,
      ap (λ o. o >>= λ c. done (reallocate alloc v needed c)) runs,
      reallocate-Sized alloc v needed cap law block room (omega (arith, fits, bytes)),
    )

-- What a change of the size to `n` comes to: no memory and the same vector, or a vector of that size
-- with the old bytes as far as both sizes reach.
pub data Resized (alloc : Alloc) (v : Vector) (n : ℕ) : Bool × Vector → Type 0 where
  not_resized :
      (k : ℕ) (xs : List ℕ) → alloc k xs ≡ none → v.capacity < n → Resized alloc v n (false, v)
  resized :
      (v2 : Vector)
      → IsValid v2
      → v2.size ≡ n
      → v2.elemsize ≡ v.elemsize
      → ((i : ℕ)
          → i < n * v.elemsize
          → i < v.size * v.elemsize
          → get_or v2.ptr i 0 ≡ get_or v.ptr i 0)
      → Resized alloc v n (true, v2)

-- `vector_resize` of a valid vector to a size that fits returns: it finds no memory and leaves the
-- vector as it was, or gives it the size, keeps the invariant, and keeps the bytes as far as both sizes
-- reach.
pub resize-Resized_vector :
    (alloc : Alloc) (v : Vector) (n : ℕ)
    → IsRealloc alloc
    → IsValid v
    → Fits v n
    → (r : Bool × Vector) × (resize alloc v n ≡ done r) × Resized alloc v n r
unfolding resize
resize-Resized_vector alloc v n law (le, block) fits =
    let (r, runs, sum) = size_for-Sized alloc v n law block fits in
    let (r2, e, sum2) = go r sum in
    (
      r2,
      ap
            (λ o. o >>= λ (ok, v2).
              if ok then done (true, record v2 { size = n }) else done (false, v2))
            runs
          ∙ e,
      sum2,
    )
  where
    go :
        (r : Bool × Vector)
        → Sized alloc v n r
        → (r2 : Bool × Vector) × ((if r.0
              then done (true, record (r.1) { size = n })
              else done (false, r.1))
            ≡ done r2)
          × Resized alloc v n r2
    go r (refused k xs e short) = ((false, v), refl, not_resized k xs e short)
    go r (sized v2 size elem room block2 kept) =
        let all : v.size * v.elemsize ≤ v.capacity * v.elemsize = mul-le-mul_right v.elemsize le in
        (
          (true, record v2 { size = n }),
          refl,
          resized (record v2 { size = n }) (room, block2) refl elem
              (λ i p q. kept i p (omega (arith, q, all))),
        )

Fits-of_le : (v : Vector) (m n : ℕ) → m ≤ n → Fits v n → Fits v m
Fits-of_le v m n le (small, bytes) =
    let fewer : (2 * m + 8) * v.elemsize ≤ (2 * n + 8) * v.elemsize =
      mul-le-mul_right v.elemsize (omega (arith, le)) in
    (omega (arith, le, small), omega (arith, fewer, bytes))

-- `vector_pop` of any number of elements of a valid vector returns, with or without memory: the vector
-- has so many fewer, none if there were not so many, the invariant holds, and the others are kept.
pub pop_lem :
    (alloc : Alloc) (v : Vector) (count : ℕ)
    → IsRealloc alloc
    → IsValid v
    → Fits v v.size
    → (v2 : Vector) × (pop alloc v count ≡ done v2)
      × IsValid v2
      × (v2.size ≡ v.size - count)
      × ((i : ℕ) → i < v2.size * v.elemsize → get_or v2.ptr i 0 ≡ get_or v.ptr i 0)
unfolding pop
pop_lem alloc v count law (le, block) fits =
    let left = v.size - (if ltb v.size count then v.size else count) in
    let same : left ≡ v.size - count = ground arith in
    let fewer : left ≤ v.size = omega (arith, same) in
    let (r, runs, sum) =
      resize-Resized_vector alloc v left law (le, block) (Fits-of_le v left v.size fewer fits) in
    let (valid, size, kept) = go left fewer r sum in
    (r.1, ap (λ o. o >>= λ r. done r.1) runs, valid, size ∙ same, kept)
  where
    go :
        (left : ℕ)
        → left ≤ v.size
        → (r : Bool × Vector) → Resized alloc v left r
        → IsValid r.1
          × (r.1.size ≡ left)
          × ((i : ℕ) → i < r.1.size * v.elemsize → get_or r.1.ptr i 0 ≡ get_or v.ptr i 0)
    go left fewer r (not_resized k xs e short) = absurd (omega (arith, short, fewer, le))
    go left fewer r (resized v2 valid size elem kept) =
        let bytes : left * v.elemsize ≤ v.size * v.elemsize = mul-le-mul_right v.elemsize fewer in
        let within : v2.size * v.elemsize ≡ left * v.elemsize = ap (λ n. n * v.elemsize) size in
        (valid, size, λ i p. kept i (omega (arith, p, within)) (omega (arith, p, within, bytes)))

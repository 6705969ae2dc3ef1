-- ===== src/Bint/Chain.antt =====
-- `alloc_chain`, `extend_length` and `trim_chunks` leave the number as it is.
use native.Mathlib.Nat.{pow-le-pow_right, pow-suc, add-zero, mul-one}
use mathlib.Core.List.{reverse-cons, reverse-append, reverse-reverse}
use libdlb.Base.{
  ℕ, zero, suc, ◌+◌, ◌-◌, ◌*◌, ◌/◌, ◌^◌, ◌≤◌, ◌<◌, ◌≡◌, refl, ap, ◌∙◌, sym, subst, Bool, true,
  false, Bool-cases, inl, inr, Option, none, some, List, [], ◌∷◌, ◌++◌, length, reverse, replicate,
  append-nil, ltb, arith,
}
use libdlb.Bint.{
  Chunk, chunk_bits, zero_chunk, chunk_is_zero, alloc_chain, drop_zero, trim_chunks, extend_length,
}
use libdlb.Bint.Value.{
  value, magnitude, room, AreChunks, IsTopped, IsDigits, zero-value, nonzero-value,
  magnitude-append, magnitude-zeros, zeros-AreChunks, AreChunks-append, AreChunks-of_append,
}

abbrev AreZero : List Chunk → Type 0
AreZero [] = Unit
AreZero (c ∷ cs) = (value c ≡ 0) × AreZero cs

AreZero-append : (xs ys : List Chunk) → AreZero xs → AreZero ys → AreZero (xs ++ ys)
AreZero-append [] ys h k = k
AreZero-append (x ∷ xs) ys h k = (h.0, AreZero-append xs ys h.1 k)

AreZero-reverse : (xs : List Chunk) → AreZero xs → AreZero (reverse xs)
AreZero-reverse [] h = tt
AreZero-reverse (x ∷ xs) h =
    subst AreZero (sym (reverse-cons x xs))
      (AreZero-append (reverse xs) (x ∷ []) (AreZero-reverse xs h.1) (h.0, tt))

magnitude-AreZero : (cs : List Chunk) → AreZero cs → magnitude cs ≡ 0
magnitude-AreZero [] h = refl
magnitude-AreZero (c ∷ cs) h = omega (arith, magnitude-AreZero cs h.1, h.0)

magnitude-append_zero : (xs zs : List Chunk) → AreZero zs → magnitude (xs ++ zs) ≡ magnitude xs
magnitude-append_zero xs zs h = rw (magnitude-append, magnitude-AreZero zs h) (omega arith)

IsTopped-last : (xs : List Chunk) (c : Chunk) → 0 < value c → IsTopped (xs ++ (c ∷ []))
IsTopped-last [] c h = h
IsTopped-last (x ∷ []) c h = h
IsTopped-last (x ∷ y ∷ xs) c h = IsTopped-last (y ∷ xs) c h

-- the chunks from the top: zero chunks, and then what `drop_zero` leaves
dropped :
    (cs : List Chunk)
    → (zs : List Chunk) × AreZero zs × (cs ≡ zs ++ drop_zero cs) × IsTopped (reverse (drop_zero cs))
unfolding drop_zero
dropped [] = ([], tt, refl, tt)
dropped (c ∷ cs) =
    let (zs, blank, same, top) = dropped cs in
    elim (Bool-cases (chunk_is_zero c)) [
      | inl z ↦ (
        c ∷ zs,
        (zero-value c z, blank),
        rw (drop_zero, z) (ap (λ t. c ∷ t) same),
        rw (drop_zero, z) top,
      )
      | inr nz ↦ (
        [],
        tt,
        rw (drop_zero, nz) refl,
        rw (drop_zero, nz)
            (subst IsTopped (sym (reverse-cons c cs))
              (IsTopped-last (reverse cs) c (nonzero-value c nz))),
      )
    ]

trim_next :
    (next : List Chunk)
    → let kept = reverse (drop_zero (reverse next)) in
      IsTopped kept × (zs : List Chunk) × AreZero zs × (next ≡ kept ++ zs)
trim_next next =
    let (zs, blank, same, top) = dropped (reverse next) in
    (
      top,
      reverse zs,
      AreZero-reverse zs blank,
      sym (reverse-reverse next) ∙ (ap reverse same ∙ reverse-append zs (drop_zero (reverse next))),
    )

-- `trim_chunks` leaves the number, and a chain that keeps the invariant.
pub trim_chunks_lem :
    (c : Chunk) (next : List Chunk)
    → AreChunks (c ∷ next)
    → IsDigits (trim_chunks (c ∷ next))
      × (magnitude (trim_chunks (c ∷ next)) ≡ magnitude (c ∷ next))
unfolding trim_chunks
trim_chunks_lem c next h =
    let kept = reverse (drop_zero (reverse next)) in
    let (top, zs, blank, same) = trim_next next in
    let m : magnitude next ≡ magnitude kept =
      ap magnitude same ∙ magnitude-append_zero kept zs blank in
    let w : AreChunks kept = (AreChunks-of_append kept zs (subst AreChunks same h.1)).0 in
    (((h.0, w), top), omega (arith, m))

pub trim_chunks-IsDigits :
    (cs : List Chunk)
    → 0 < length cs
    → AreChunks cs
    → IsDigits (trim_chunks cs) × (magnitude (trim_chunks cs) ≡ magnitude cs)
trim_chunks-IsDigits [] h w = absurd (omega (arith, h))
trim_chunks-IsDigits (c ∷ cs) h w = trim_chunks_lem c cs w

-- What an operation that may need memory comes to: none and the same chain, or a chain that keeps
-- the invariant, of the number `n`.
pub data Reaches (answers : List Bool) (cs : List Chunk) (n : ℕ) : Bool × List Chunk → Type 0 where
  no_memory : (k : ℕ) → alloc_chain answers k ≡ none → Reaches answers cs n (false, cs)
  reached : (rs : List Chunk) → IsDigits rs → magnitude rs ≡ n → Reaches answers cs n (true, rs)

-- What `extend_length` comes to: no memory and the same chain, or zero chunks behind it, so that
-- there are more than `count` bits.
pub data Extended (answers : List Bool) (cs : List Chunk) (count : ℕ)
    : Bool × List Chunk → Type 0 where
  refused : (k : ℕ) → alloc_chain answers k ≡ none → Extended answers cs count (false, cs)
  extended :
      (n : ℕ)
      → count < 128 * length (cs ++ replicate n zero_chunk)
      → Extended answers cs count (true, cs ++ replicate n zero_chunk)

pub alloc_chain_lem :
    (answers : List Bool) (n : ℕ) (cs : List Chunk)
    → alloc_chain answers n ≡ some cs
    → cs ≡ replicate n zero_chunk
unfolding alloc_chain
alloc_chain_lem answers zero cs h = ground arith
alloc_chain_lem [] (suc n) cs h = cc
alloc_chain_lem (false ∷ answers) (suc n) cs h = cc
alloc_chain_lem (true ∷ answers) (suc n) cs h =
    go (alloc_chain answers n) (λ ds e. alloc_chain_lem answers n ds e) h
  where
    go :
        (o : Option (List Chunk))
        → ((ds : List Chunk) → o ≡ some ds → ds ≡ replicate n zero_chunk)
        → elim o as (λ _. Option (List Chunk)) [ none ↦ none | some ds ↦ some (zero_chunk ∷ ds) ]
          ≡ some cs
        → cs ≡ replicate (suc n) zero_chunk
    go none all h = cc
    go (some ds) all h =
        let tail = all ds refl in
        sym (ap (λ o. elim o as (λ _. List Chunk) [ none ↦ [] | some xs ↦ xs ]) h)
        ∙ ap (λ t. zero_chunk ∷ t) tail

pub length-zeros : (n : ℕ) → length (replicate n zero_chunk) ≡ n
length-zeros zero = refl
length-zeros (suc n) = ap suc (length-zeros n)

as_it_is :
    (answers : List Bool) (cs : List Chunk) (count : ℕ)
    → count < 128 * length cs
    → Extended answers cs count (true, cs)
as_it_is answers cs count h =
    subst (λ ds. Extended answers cs count (true, ds)) (append-nil cs)
      (extended 0 (omega (arith, ap length (append-nil cs))))

step_back :
    (answers : List Bool) (c : Chunk) (cs : List Chunk) (count : ℕ) (r : Bool × List Chunk)
    → Extended answers cs (count - 128) r
    → Extended answers (c ∷ cs) count (r.0, c ∷ r.1)
step_back answers c cs count (false, ds) (refused k e) = refused k e
step_back answers c cs count (true, ds) (extended n h) = extended n (omega arith)

pub extend_length_lem :
    (answers : List Bool) (c : Chunk) (cs : List Chunk) (count : ℕ)
    → Extended answers (c ∷ cs) count (extend_length answers (c ∷ cs) count)
unfolding extend_length
extend_length_lem answers c [] count = elim (Bool-cases (ltb count chunk_bits)) [
  | inl small ↦ rw small (as_it_is answers (c ∷ []) count (ground (arith, small)))
  | inr large ↦ rw large (go (alloc_chain answers (count / chunk_bits)) refl)
]
  where
    go :
        (o : Option (List Chunk))
        → alloc_chain answers (count / chunk_bits) ≡ o
        → Extended answers (c ∷ []) count (elim o as (λ _. Bool × List Chunk) [
          | none ↦ (false, c ∷ [])
          | some new ↦ (true, c ∷ new)
        ])
    go none e = refused (count / chunk_bits) e
    go (some new) e =
        rw (alloc_chain_lem answers (count / chunk_bits) new e)
          (extended (count / chunk_bits) (omega (arith, length-zeros (count / chunk_bits))))
extend_length_lem answers c (d ∷ cs) count = elim (Bool-cases (ltb count chunk_bits)) [
  | inl small ↦ rw small (as_it_is answers (c ∷ d ∷ cs) count (ground (arith, small)))
  | inr large ↦ rw large (
      step_back answers c (d ∷ cs) count (extend_length answers (d ∷ cs) (count - chunk_bits))
        (extend_length_lem answers d cs (count - chunk_bits)))
]

pub pow_add : (a b : ℕ) → 2 ^ (a + b) ≡ 2 ^ a * 2 ^ b
pow_add a zero = rw (add-zero, mul-one) refl
pow_add a (suc b) =
    let e : a + suc b ≡ suc (a + b) = omega arith in
    rw e (omega (arith, pow-suc 2 (a + b), ap (λ (t : ℕ). 2 ^ a * t) (pow-suc 2 b), pow_add a b))

pub room-length : (cs : List Chunk) → room cs ≡ 2 ^ (128 * length cs)
room-length [] = refl
room-length (c ∷ cs) =
    let e : 128 * suc (length cs) ≡ 128 * length cs + 128 = omega arith in
    rw e (omega (arith, room-length cs, pow_add (128 * length cs) 128))

-- A chain with more than `count` bits holds every number of `count` bits, and twice that.
pub pow-le-room : (cs : List Chunk) (count : ℕ) → count < 128 * length cs → 2 * 2 ^ count ≤ room cs
pow-le-room cs count h = omega (
  arith,
  room-length cs,
  pow-suc 2 count,
  pow-le-pow_right {n = 2} (omega arith) {i = suc count} {j = 128 * length cs} (omega arith),
)

-- The zero chunks change nothing.
pub magnitude-zeros_behind :
    (cs : List Chunk) (n : ℕ) → magnitude (cs ++ replicate n zero_chunk) ≡ magnitude cs
magnitude-zeros_behind cs n = rw (magnitude-append, magnitude-zeros n) (omega arith)

pub AreChunks-zeros_behind :
    (cs : List Chunk) (n : ℕ) → AreChunks cs → AreChunks (cs ++ replicate n zero_chunk)
AreChunks-zeros_behind cs n h = AreChunks-append cs (replicate n zero_chunk) h (zeros-AreChunks n)

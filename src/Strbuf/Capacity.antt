-- ===== src/Strbuf/Capacity.antt =====
-- `strbuf_capacity_hint` makes room, or leaves the buffer as it was.
use native.Mathlib.Nat.{pow-suc}
use libdlb.Base.{
  ℕ, zero, suc, ◌*◌, ◌^◌, ◌≤◌, ◌<◌, ◌≡◌, refl, ap, ◌∙◌, sym, subst, ◌⊎◌, inl, inr, Bool, true,
  false, Bool-cases, ltb, ◌==◌, ◌%◌, Option, none, some, List, [], length, get_or, tabulate,
  tabulate_congr, done, arith, if◌then◌else◌,
}
use libdlb.Base.Words.{add_size}
use libdlb.Base.Memory.{Alloc, IsRealloc}
use libdlb.Strbuf.{Strbuf, grow, reallocate, capacity_hint}

-- the block is the buffer's own, and has room for the string and its NUL
abbrev pub IsOwned : Strbuf → Type 0
IsOwned b = (b.blank ≡ false) × (b.length < b.capacity) × (length b.text ≡ b.capacity)

abbrev pub IsValid : Strbuf → Type 0
IsValid b = ((b.blank ≡ true) × (b.length ≡ 0) × (b.capacity ≡ 0)) ⊎ IsOwned b

abbrev pub contents : Strbuf → List ℕ
contents b = tabulate b.length (λ i. get_or b.text i 0)

mul-pow-suc : (a k : ℕ) → a * 2 ^ suc k ≡ a * 2 * 2 ^ k
mul-pow-suc a k = omega (arith, ap (λ (t : ℕ). a * t) (pow-suc 2 k))

le-mul_pow : (a k : ℕ) → a ≤ a * 2 ^ k
le-mul_pow a zero = omega arith
le-mul_pow a (suc k) = omega (arith, le-mul_pow a k, ap (λ (t : ℕ). a * t) (pow-suc 2 k))

grow-next :
    (k size needed c : ℕ)
    → ltb size needed ≡ true
    → size * 2 % 2 ^ 64 ≡ size * 2
    → grow (suc k) (size * 2) needed ≡ done c
    → grow (suc (suc k)) size needed ≡ done c
unfolding grow
grow-next k size needed c less wrap runs = rw (grow, less, wrap) runs

-- The loop ends with enough room, and not with more than twice what is needed if it began below it.
grow_lem :
    (k size needed : ℕ)
    → needed ≤ size * 2 ^ k
    → size * 2 ^ k ≤ 2 ^ 63
    → (c : ℕ) × (grow (suc k) size needed ≡ done c)
      × (needed ≤ c)
      × (size ≤ c)
      × ((c ≡ size) ⊎ (c < 2 * needed))
unfolding grow
grow_lem zero size needed h g = (size, ground arith, omega arith, omega arith, inl refl)
grow_lem (suc k) size needed h g =
    let e = mul-pow-suc size k in
    let fits : size * 2 ≤ 2 ^ 63 = omega (arith, le-mul_pow (size * 2) k, e) in
    let wrap : size * 2 % 2 ^ 64 ≡ size * 2 = omega arith in
    let (c, runs, enough, above, tight) =
      grow_lem k (size * 2) needed (omega (arith, e)) (omega (arith, e)) in
    elim (Bool-cases (ltb size needed)) [
      | inl less ↦ (
        c,
        grow-next k size needed c less wrap runs,
        enough,
        omega (arith, above),
        inr (elim tight [ inl same ↦ ground (arith, less, same) | inr t ↦ t ]),
      )
      | inr more ↦ (size, rw (grow, more) refl, ground (arith, more), omega arith, inl refl)
    ]

-- What a hint of at least the string's length comes to: no memory and the same buffer, or a buffer
-- with the same string and the room.
pub data Hinted (alloc : Alloc) (b : Strbuf) (n : ℕ) : Bool × Strbuf → Type 0 where
  refused : (k : ℕ) (xs : List ℕ) → alloc k xs ≡ none → Hinted alloc b n (false, b)
  ready :
      (b' : Strbuf)
      → IsOwned b'
      → n < b'.capacity
      → b'.length ≡ b.length
      → b'.failed ≡ b.failed
      → contents b' ≡ contents b
      → (b.blank ≡ false → get_or b'.text b.length 0 ≡ get_or b.text b.length 0)
      → Hinted alloc b n (true, b')

old_block : Strbuf → List ℕ
old_block b = if b.blank then [] else b.text

old_block_owned : (b : Strbuf) → b.blank ≡ false → old_block b ≡ b.text
unfolding old_block
old_block_owned b e = rw e refl

kept_owned :
    (alloc : Alloc) (b : Strbuf) (c : ℕ) (t : List ℕ)
    → IsRealloc alloc
    → IsOwned b
    → b.length < c
    → alloc c (old_block b) ≡ some t
    → (i : ℕ) → i ≤ b.length
    → get_or t i 0 ≡ get_or b.text i 0
kept_owned alloc b c t law (own, inside, sized) room e i le =
    let same = old_block_owned b own in
    law.kept c (old_block b) t e i (omega arith) (omega (arith, ap length same, sized, inside))
    ∙ ap (λ xs. get_or xs i 0) same

contents_kept :
    (alloc : Alloc) (b : Strbuf) (c : ℕ) (t : List ℕ)
    → IsRealloc alloc
    → IsValid b
    → b.length < c
    → alloc c (old_block b) ≡ some t
    → (tabulate b.length (λ i. get_or t i 0) ≡ contents b)
      × (b.blank ≡ false → get_or t b.length 0 ≡ get_or b.text b.length 0)
contents_kept alloc b c t law (inl (own, none_held, no_room)) room e = (
  subst (λ n. tabulate n (λ i. get_or t i 0) ≡ tabulate n (λ i. get_or b.text i 0)) (sym none_held)
      refl,
  λ f. cc,
)
contents_kept alloc b c t law (inr owned) room e =
    let kept = kept_owned alloc b c t law owned room e in
    (
      tabulate_congr b.length (λ i. get_or t i 0) (λ i. get_or b.text i 0)
          (λ i p. kept i (omega arith)),
      λ f. kept b.length (omega arith),
    )

reallocate-Hinted :
    (alloc : Alloc) (b : Strbuf) (n c : ℕ)
    → IsRealloc alloc
    → IsValid b
    → b.length ≤ n
    → n < c
    → 32 ≤ c
    → Hinted alloc b n (reallocate alloc c b)
unfolding old_block
reallocate-Hinted alloc b n c law v le room big =
    go (Bool-cases (c == b.capacity)) (alloc c (old_block b)) refl
  where
    go :
        ((c == b.capacity) ≡ true) ⊎ ((c == b.capacity) ≡ false)
        → (o : Option (List ℕ)) → alloc c (old_block b) ≡ o
        → Hinted alloc b n (reallocate alloc c b)
    go (inl same) o e =
        let owned : IsOwned b = ground (arith, v, same, big) in
        rw same (ready b owned (ground (arith, same)) refl refl refl (λ h. refl))
    go (inr other) none e = rw (other, e) (refused c (old_block b) e)
    go (inr other) (some t) e =
        let (held, nul) = contents_kept alloc b c t law v (omega arith) e in
        let sized : length t ≡ c = law.sized c (old_block b) t e in
        rw (other, e)
          (ready (record b { text = t; blank = false; capacity = c }) (refl, omega arith, sized)
            room refl refl held nul)

pub capacity_hint-Hinted :
    (alloc : Alloc) (b : Strbuf) (n : ℕ)
    → IsRealloc alloc
    → IsValid b
    → b.length ≤ n
    → n < 2 ^ 63
    → (r : Bool × Strbuf) × (capacity_hint alloc n b ≡ done r) × Hinted alloc b n r
unfolding capacity_hint
capacity_hint-Hinted alloc b n law v le small =
    let (c, runs, enough, big, tight) = grow_lem 58 32 (add_size n 1) (omega arith) (omega arith) in
    let skip : ltb n b.length ≡ false = ground arith in
    (
      reallocate alloc c b,
      rw (skip, runs) refl,
      reallocate-Hinted alloc b n c law v le (omega arith) big,
    )

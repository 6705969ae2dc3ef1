-- ===== src/Strbuf/Resize.antt =====
-- `strbuf_resize` keeps the front of the string.
use libdlb.Base.{
  ℕ, ◌+◌, ◌*◌, ◌%◌, ◌^◌, ◌<◌, ◌≡◌, refl, ap, ◌∙◌, sym, inl, inr, Bool, true, false, Bool-cases,
  none, List, length, get_or, get_or-tabulate, ltb, ◌-◌, if◌then◌else◌, Outcome, done, fault, ◌>>=◌,
  arith,
}
use libdlb.Base.Words.{add_size}
use libdlb.Base.Memory.{Alloc, IsRealloc}
use libdlb.Strbuf.{Strbuf, capacity_hint, terminate, resize}
use libdlb.Strbuf.Capacity.{
  IsOwned, IsValid, contents, Hinted, refused, ready, capacity_hint-Hinted,
}
use libdlb.Strbuf.Add.{IsTerminated, terminate_lem}

same_byte :
    (b b' : Strbuf)
    → b'.length ≡ b.length
    → contents b' ≡ contents b
    → (i : ℕ) → i < b.length
    → get_or b'.text i 0 ≡ get_or b.text i 0
same_byte b b' len held i h =
    sym (get_or-tabulate b'.length (λ j. get_or b'.text j 0) 0 i (omega (arith, len)))
    ∙ (ap (λ xs. get_or xs i 0) held ∙ get_or-tabulate b.length (λ j. get_or b.text j 0) 0 i h)

-- What a change of the length to `n` comes to: no memory, and only the flag is set, or a string of
-- that length with a NUL at its end, with the old bytes in front.
pub data Resized (alloc : Alloc) (b : Strbuf) (n : ℕ) : Bool × Strbuf → Type 0 where
  out_of_memory :
      (k : ℕ) (ys : List ℕ)
      → alloc k ys ≡ none
      → Resized alloc b n (false, record b { failed = true })
  resized :
      (b' : Strbuf)
      → IsOwned b'
      → IsTerminated b'
      → b'.length ≡ n
      → b'.failed ≡ b.failed
      → ((i : ℕ) → i < n → i < b.length → get_or b'.text i 0 ≡ get_or b.text i 0)
      → Resized alloc b n (true, b')

-- the room first
abbrev room_for : Alloc → ℕ → Strbuf → Outcome (Bool × Strbuf)
room_for alloc n b =
    if ltb b.capacity (add_size n 1) then capacity_hint alloc n b else done (true, b)

room_for-Hinted :
    (alloc : Alloc) (b : Strbuf) (n : ℕ)
    → IsRealloc alloc
    → IsValid b
    → n + 1 < 2 ^ 63
    → (r : Bool × Strbuf) × (room_for alloc n b ≡ done r) × Hinted alloc b n r
room_for-Hinted alloc b n law v small = elim (Bool-cases (ltb b.capacity (add_size n 1))) [
  | inl less ↦
      (let (r, runs, h) =
          capacity_hint-Hinted alloc b n law v (ground (arith, v, less)) (omega arith) in
        (r, rw less runs, h))
  | inr more ↦
      (let owned : IsOwned b = ground (arith, v, more) in
        ((true, b), rw more refl, ready b owned (ground (arith, more)) refl refl refl (λ h. refl)))
]

-- the block that is too large last
abbrev trim : Alloc → ℕ → Strbuf → Outcome (Bool × Strbuf)
trim alloc n b =
    if ltb (add_size n 1 * 4 % 2 ^ 64) b.capacity
    then (capacity_hint alloc (add_size n 1) b >>= λ (shrunk, b1). done (true, b1))
    else done (true, b)

trimmed :
    (alloc : Alloc) (b b1 : Strbuf) (n : ℕ) (r : Bool × Strbuf)
    → b1.length ≡ n
    → b1.failed ≡ b.failed
    → IsOwned b1
    → IsTerminated b1
    → ((i : ℕ) → i < n → i < b.length → get_or b1.text i 0 ≡ get_or b.text i 0)
    → Hinted alloc b1 (add_size n 1) r
    → Resized alloc b n (true, r.1)
trimmed alloc b b1 n (false, b2) len flag owned nul at (refused k xs e) =
    resized b1 owned nul len flag at
trimmed alloc b b1 n (true, b2) len flag owned nul at (ready c own room same flags held kept) =
    resized c own (ap (λ k. get_or c.text k 0) same ∙ (kept owned.0 ∙ nul)) (same ∙ len)
      (flags ∙ flag) (λ i p q. same_byte b1 c same held i (omega (arith, len)) ∙ at i p q)

trim-Resized :
    (alloc : Alloc) (b b1 : Strbuf) (n : ℕ)
    → IsRealloc alloc
    → n + 1 < 2 ^ 63
    → b1.length ≡ n
    → b1.failed ≡ b.failed
    → IsOwned b1
    → IsTerminated b1
    → ((i : ℕ) → i < n → i < b.length → get_or b1.text i 0 ≡ get_or b.text i 0)
    → (r : Bool × Strbuf) × (trim alloc n b1 ≡ done r) × Resized alloc b n r
trim-Resized alloc b b1 n law small len flag owned nul at =
    elim (Bool-cases (ltb (add_size n 1 * 4 % 2 ^ 64) b1.capacity)) [
      | inl large ↦
          (let (r, runs, h) =
              capacity_hint-Hinted alloc b1 (add_size n 1) law (inr owned) (omega (arith, len))
                (omega arith) in
            ((true, r.1), rw (large, runs) refl, trimmed alloc b b1 n r len flag owned nul at h))
      | inr tight ↦ ((true, b1), rw tight refl, resized b1 owned nul len flag at)
    ]

with_room :
    (alloc : Alloc) (b : Strbuf) (n : ℕ) (r : Bool × Strbuf)
    → IsRealloc alloc
    → n + 1 < 2 ^ 63
    → Hinted alloc b n r
    → (q : Bool × Strbuf) × ((elim r.0 [
      | false ↦ done (false, record (r.1) { failed = true })
      | true ↦ terminate (record (r.1) { length = n }) >>= trim alloc n
    ])
        ≡ done q)
      × Resized alloc b n q
with_room alloc b n (false, b1) law small (refused k xs e) =
    ((false, record b { failed = true }), refl, out_of_memory k xs e)
with_room alloc b n (true, b1) law small (ready c owned room same flag held kept) =
    let (b2, runs, owned2, nul, held2, flag2, len2) =
      terminate_lem (record c { length = n }) (owned.0, room, owned.2) in
    let (q, trims, sum) =
      trim-Resized alloc b b2 n law small len2 (flag2 ∙ flag) owned2 nul (λ i p q.
        same_byte (record c { length = n }) b2 len2 held2 i p ∙ same_byte b c same held i q) in
    (q, ap (λ o. o >>= trim alloc n) runs ∙ trims, sum)

-- For the greatest `size_t` the sum with 1 is 0, so that no room is made and the NUL goes outside the
-- block.
resize_wraps :
    (alloc : Alloc) (b : Strbuf) → length b.text < 2 ^ 64 → resize alloc (2 ^ 64 - 1) b ≡ fault
unfolding resize
resize_wraps alloc b h =
    let no_room : ltb b.capacity 0 ≡ false = ground arith in
    rw no_room (elim (Bool-cases b.blank) [ inl e ↦ rw e refl | inr e ↦ rw e (ground arith) ])

-- `strbuf_resize` to `n`, where `n + 1` is below 2 ^ 63, on a valid buffer either finds no memory and sets the flag, or gives the string the length `n`
-- with a NUL behind it, and keeps the bytes that it had up to there. No access leaves the buffer's
-- block, and shrinking the block may fail without harm.
pub resize-Resized :
    (alloc : Alloc) (b : Strbuf) (n : ℕ)
    → IsRealloc alloc
    → IsValid b
    → n + 1 < 2 ^ 63
    → (r : Bool × Strbuf) × (resize alloc n b ≡ done r) × Resized alloc b n r
unfolding resize
resize-Resized alloc b n law v small =
    let (r, hinted, h) = room_for-Hinted alloc b n law v small in
    let (q, runs, sum) = with_room alloc b n r law small h in
    (
      q,
      ap
            (λ o. o >>= λ (ok, b1). elim ok [
              | false ↦ done (false, record b1 { failed = true })
              | true ↦ terminate (record b1 { length = n }) >>= trim alloc n
            ])
            hinted
          ∙ runs,
      sum,
    )

-- ===== src/Strbuf/Add.antt =====
-- `strbuf_add_string` appends, or leaves the buffer as it was.
use libdlb.Base.{
  ℕ, ◌+◌, ◌-◌, ◌%◌, ◌^◌, ◌≤◌, ◌<◌, ◌≡◌, refl, ap, ap₂, ◌∙◌, sym, subst, Bool, true, false, Option,
  none, some, List, [], ◌∷◌, ◌++◌, length, length-append, get_or, take, take-eq-tabulate, tabulate,
  tabulate_congr, tabulate_add, ltb, Outcome, done, ◌>>=◌, bind_assoc, arith,
}
use libdlb.Base.Words.{add_size}
use libdlb.Base.Memory.{Alloc, IsRealloc, memcpy, memcpy-done, HasNone, strlen_lem}
use libdlb.Strbuf.{Strbuf, through_int, capacity_hint, terminate, add_string}
use libdlb.Strbuf.Capacity.{
  IsOwned, IsValid, contents, Hinted, refused, ready, capacity_hint-Hinted,
}

abbrev pub IsTerminated : Strbuf → Type 0
IsTerminated b = get_or b.text b.length 0 ≡ 0

-- With room for it, the NUL goes behind the string, which stays.
pub terminate_lem :
    (b : Strbuf)
    → IsOwned b
    → (b' : Strbuf) × (terminate b ≡ done b')
      × IsOwned b'
      × IsTerminated b'
      × (contents b' ≡ contents b)
      × (b'.failed ≡ b.failed)
      × (b'.length ≡ b.length)
terminate_lem b (own, inside, sized) =
    let (t, copied, same, at) =
      memcpy-done b.text b.length (0 ∷ []) 0 1 (omega (arith, sized, inside)) (omega arith) in
    let b' = record b { text = t } in
    (
      b',
      rw (own, copied) refl,
      (own, inside, same ∙ sized),
      ground (arith, at b.length),
      tabulate_congr b.length (λ i. get_or t i 0) (λ i. get_or b.text i 0)
          (λ i p. ground (arith, at i)),
      refl,
      refl,
    )

-- `n` bytes of `text` put behind the string, with the NUL
append_lem :
    (b : Strbuf) (text : List ℕ) (n : ℕ)
    → IsOwned b
    → b.length + n < b.capacity
    → b.length + n < 2 ^ 63
    → n ≤ length text
    → (b' : Strbuf) × ((memcpy b.text b.length text 0 n >>= λ t.
          terminate (record b { text = t; length = add_size b.length n }))
        ≡ done b')
      × IsOwned b'
      × IsTerminated b'
      × (contents b' ≡ contents b ++ take n text)
      × (b'.failed ≡ b.failed)
append_lem b text n (own, inside, sized) room small read =
    let (t, copied, same, at) =
      memcpy-done b.text b.length text 0 n (omega (arith, sized)) (omega arith) in
    let long : add_size b.length n ≡ b.length + n = omega arith in
    let b1 = record b { text = t; length = add_size b.length n } in
    let (b2, runs, owned, nul, held, flag, len) =
      terminate_lem b1 (own, omega (arith, long), same ∙ sized) in
    (
      b2,
      ap (λ o. o >>= λ t. terminate (record b { text = t; length = add_size b.length n })) copied
          ∙ runs,
      owned,
      nul,
      held
          ∙ (ap (λ k. tabulate k (λ i. get_or t i 0)) long
              ∙ (tabulate_add b.length n (λ i. get_or t i 0)
                  ∙ ap₂ ◌++◌
                      (tabulate_congr b.length (λ i. get_or t i 0) (λ i. get_or b.text i 0)
                        (λ i p. ground (arith, at i)))
                      (tabulate_congr n (λ i. get_or t (b.length + i) 0) (λ i. get_or text i 0)
                          (λ i p.
                            let index : 0 + (b.length + i - b.length) ≡ i = omega arith in
                            ground (arith, at (b.length + i), ap (λ k. get_or text k 0) index))
                        ∙ sym (take-eq-tabulate n text 0 read)))),
      flag,
    )

-- What an addition of `n` bytes, `xs`, comes to: no memory and the same buffer, or the string with
-- `xs` behind it and a NUL at its end.
pub data Added (alloc : Alloc) (b : Strbuf) (n : ℕ) (xs : List ℕ) : Option ℕ × Strbuf → Type 0 where
  out_of_memory : (k : ℕ) (ys : List ℕ) → alloc k ys ≡ none → Added alloc b n xs (none, b)
  added :
      (b' : Strbuf)
      → IsOwned b'
      → IsTerminated b'
      → contents b' ≡ contents b ++ xs
      → b'.failed ≡ b.failed
      → Added alloc b n xs (some n, b')

-- what `strbuf_add_string` does with the result of the hint
abbrev add_hinted : Strbuf → List ℕ → ℕ → Bool × Strbuf → Outcome (Option ℕ × Strbuf)
add_hinted b text n (ok, b1) = elim ok [
  | false ↦ done (none, b1)
  | true ↦ memcpy b1.text b1.length text 0 n >>= λ t.
      terminate (record b1 { text = t; length = add_size b1.length n }) >>= λ b2. done (some n, b2)
]

add_hinted-Added :
    (alloc : Alloc) (b : Strbuf) (text : List ℕ) (n : ℕ) (r : Bool × Strbuf)
    → n ≤ length text
    → b.length + n < 2 ^ 63
    → Hinted alloc b (b.length + n) r
    → (q : Option ℕ × Strbuf) × (add_hinted b text n r ≡ done q) × Added alloc b n (take n text) q
add_hinted-Added alloc b text n (false, b1) read small (refused k xs e) =
    ((none, b1), refl, out_of_memory k xs e)
add_hinted-Added alloc b text n (true, b1) read small (ready c owned room same flag held nul) =
    let (b', runs, own, ended, longer, kept) =
      append_lem b1 text n owned (omega (arith, room, same)) (omega (arith, same)) read in
    (
      (some n, b'),
      sym (
            bind_assoc (memcpy c.text c.length text 0 n)
              (λ t. terminate (record c { text = t; length = add_size c.length n }))
              (λ b2. done (some n, b2)))
          ∙ ap (λ o. o >>= λ b2. done (some n, b2)) runs,
      added b' own ended (longer ∙ ap (λ xs. xs ++ take n text) held) (kept ∙ flag),
    )

-- `strbuf_add_string` of `n` bytes, to the string of a valid buffer, which stays below 2 ^ 63 bytes,
-- either finds no memory and leaves the buffer as it was, or appends them, ends the string with a NUL and
-- returns `n`. No access leaves the buffer's block.
pub add_string-Added :
    (alloc : Alloc) (b : Strbuf) (text : List ℕ) (n : ℕ)
    → IsRealloc alloc
    → IsValid b
    → n ≤ length text
    → b.length + n < 2 ^ 63
    → (r : Option ℕ × Strbuf) × (add_string alloc b text (some n) ≡ done r)
      × Added alloc b n (take n text) r
unfolding add_string
add_string-Added alloc b text n law v read small =
    let long : add_size b.length n ≡ b.length + n = omega arith in
    let (r, hinted, outcome) =
      capacity_hint-Hinted alloc b (b.length + n) law v (omega arith) small in
    let (q, runs, sum) = add_hinted-Added alloc b text n r read small outcome in
    (
      q,
      ap (λ o. o >>= add_hinted b text n) (ap (λ k. capacity_hint alloc k b) long ∙ hinted) ∙ runs,
      sum,
    )

take_front : (xs ys : List ℕ) → take (length xs) (xs ++ ys) ≡ xs
take_front [] ys = refl
take_front (x ∷ xs) ys = ap (λ t. x ∷ t) (take_front xs ys)

through_int_small : (n : ℕ) → n < 2 ^ 31 → through_int n ≡ n
through_int_small n h =
    let same : n % 2 ^ 32 ≡ n = omega arith in
    let small : ltb (n % 2 ^ 32) (2 ^ 31) ≡ true = ground (arith, same) in rw small same

-- With a negative length, `strbuf_add_string` appends the C string up to its first NUL, if its length
-- is an `int`.
pub add_c_string-Added :
    (alloc : Alloc) (b : Strbuf) (xs ys : List ℕ)
    → IsRealloc alloc
    → IsValid b
    → HasNone xs
    → length xs < 2 ^ 31
    → b.length + length xs < 2 ^ 63
    → (r : Option ℕ × Strbuf) × (add_string alloc b (xs ++ (0 ∷ ys)) none ≡ done r)
      × Added alloc b (length xs) xs r
unfolding add_string
add_c_string-Added alloc b xs ys law v h short small =
    let (r, runs, sum) =
      add_string-Added alloc b (xs ++ (0 ∷ ys)) (length xs) law v
        (omega (arith, length-append xs (0 ∷ ys))) small in
    (
      r,
      ap
            (λ o. o >>= λ n.
              capacity_hint alloc (add_size b.length n) b >>= add_hinted b (xs ++ (0 ∷ ys)) n)
            (ap (λ o. o >>= λ n. done (through_int n)) (strlen_lem xs ys h)
              ∙ ap done (through_int_small (length xs) short))
          ∙ runs,
      subst (λ zs. Added alloc b (length xs) zs r) (take_front xs (0 ∷ ys)) sum,
    )

-- ===== src/Bint/Bitwise/OneBit.antt =====
-- `bint_bit_set` and `bint_bit_clear` change one bit.
use libdlb.Base.{
  ℕ, zero, suc, ◌+◌, ◌-◌, ◌*◌, ◌/◌, ◌%◌, ◌^◌, ◌≤◌, ◌<◌, ◌≡◌, refl, ap, ◌∙◌, sym, inl, inr, Bool,
  true, false, ◌||◌, Bool-cases, Option, none, some, List, [], ◌∷◌, length, replicate, ltb,
  if◌then◌else◌, arith,
}
use libdlb.Bint.{Chunk, zero_chunk, alloc_chain, trim_chunks}
use libdlb.Bint.Value.{IsChunk, AreChunks, IsDigits, zeros-AreChunks, magnitude-zeros, some_chunk}
use libdlb.Bint.Chain.{alloc_chain_lem, trim_chunks-IsDigits}
use libdlb.Bint.Bitwise.{set_last, bit_set, clear_loop, bit_clear, bit_without}
use libdlb.Bint.Bitwise.Words.{bit, bit-zero, or_false, without_false}
use libdlb.Bint.Bitwise.Change.{Changed, change_first, change_next}

set_last_lem :
    (n p : ℕ)
    → p < 128
    → Changed
        (◌||◌)
        (replicate (suc n) zero_chunk)
        (128 * n + p)
        (set_last (replicate (suc n) zero_chunk) p)
unfolding set_last
set_last_lem zero p h =
    let same : 128 * 0 + p ≡ p = omega arith in
    rw same (change_first (◌||◌) zero_chunk [] p or_false (zeros-AreChunks 1) h)
set_last_lem (suc n) p h =
    let back : 128 * suc n + p - 128 ≡ 128 * n + p = omega arith in
    change_next (◌||◌) zero_chunk (replicate (suc n) zero_chunk)
      (set_last (replicate (suc n) zero_chunk) p) (128 * suc n + p) or_false (zeros-AreChunks 1).0
      (omega arith) (rw back (set_last_lem n p h))

-- What `bint_bit_set` comes to: no memory and the same chain, or a chain with the bit set and the
-- others as they were.
pub data WasSet (answers : List Bool) (cs : List Chunk) (pos : ℕ) : Bool × List Chunk → Type 0 where
  not_set : (k : ℕ) → alloc_chain answers k ≡ none → WasSet answers cs pos (false, cs)
  was_set : (rs : List Chunk) → Changed (◌||◌) cs pos rs → WasSet answers cs pos (true, rs)

set_behind :
    (answers : List Bool) (c : Chunk) (cs : List Chunk) (pos : ℕ) (r : Bool × List Chunk)
    → IsChunk c
    → 128 ≤ pos
    → WasSet answers cs (pos - 128) r
    → WasSet answers (c ∷ cs) pos (r.0, c ∷ r.1)
set_behind answers c cs pos r w h (not_set k e) = not_set k e
set_behind answers c cs pos r w h (was_set rs e) =
    was_set (c ∷ rs) (change_next (◌||◌) c cs rs pos or_false w h e)

-- `bint_bit_set` either finds no memory and leaves the chain as it was, or sets the bit and leaves
-- the others.
pub bit_set-WasSet :
    (answers : List Bool) (c : Chunk) (cs : List Chunk) (pos : ℕ)
    → AreChunks (c ∷ cs)
    → WasSet answers (c ∷ cs) pos (bit_set answers (c ∷ cs) pos)
unfolding bit_set
bit_set-WasSet answers c [] pos w = elim (Bool-cases (ltb pos 128)) [
  | inl here ↦ rw here (was_set _ (change_first (◌||◌) c [] pos or_false w (ground (arith, here))))
  | inr above ↦ rw above (go (alloc_chain answers (pos / 128)) refl (ground (arith, above)))
]
  where
    new_bit :
        (n : ℕ)
        → n ≡ pos / 128
        → 128 ≤ pos
        → Changed (◌||◌) [] (pos - 128) (set_last (replicate n zero_chunk) (pos % 128))
    new_bit zero e h = absurd (omega (arith, e, h))
    new_bit (suc n) e h =
        let place : 128 * n + pos % 128 ≡ pos - 128 = omega (arith, e, h) in
        let (chunks, bits) = set_last_lem n (pos % 128) (omega arith) in
        (
          chunks,
          λ i.
              bits i
              ∙ ap (λ v. bit v i || bit (2 ^ (128 * n + pos % 128)) i) (magnitude-zeros (suc n))
              ∙ ap (λ p. bit 0 i || bit (2 ^ p) i) place,
        )

    go :
        (o : Option (List Chunk))
        → alloc_chain answers (pos / 128) ≡ o
        → 128 ≤ pos
        → WasSet answers (c ∷ []) pos (elim o as (λ _. Bool × List Chunk) [
          | none ↦ (false, c ∷ [])
          | some new ↦ (true, c ∷ set_last new (pos % 128))
        ])
    go none e h = not_set (pos / 128) e
    go (some new) e h = rw (alloc_chain_lem answers (pos / 128) new e) (
        was_set _ (
          change_next (◌||◌) c [] (set_last (replicate (pos / 128) zero_chunk) (pos % 128)) pos
            or_false w.0 h (new_bit (pos / 128) refl h)))
bit_set-WasSet answers c (d ∷ cs) pos w = elim (Bool-cases (ltb pos 128)) [
  | inl here ↦
      rw here (was_set _ (change_first (◌||◌) c (d ∷ cs) pos or_false w (ground (arith, here))))
  | inr above ↦ rw above (
      set_behind answers c (d ∷ cs) pos (bit_set answers (d ∷ cs) (pos - 128)) w.0
        (ground (arith, above)) (bit_set-WasSet answers d cs (pos - 128) w.1))
]

clear_loop_lem :
    (cs : List Chunk) (pos : ℕ)
    → AreChunks cs
    → Changed bit_without cs pos (clear_loop cs pos).1 × (length (clear_loop cs pos).1 ≡ length cs)
unfolding clear_loop
clear_loop_lem [] pos w =
    ((tt, λ i. bit-zero i ∙ sym (ap (λ b. bit_without b (bit (2 ^ pos) i)) (bit-zero i))), refl)
clear_loop_lem (c ∷ cs) pos w = elim (Bool-cases (ltb pos 128)) [
  | inl here ↦
      rw here (change_first bit_without c cs pos without_false w (ground (arith, here)), refl)
  | inr above ↦
      let (rest, len) = clear_loop_lem cs (pos - 128) w.1 in
      rw above (
        change_next bit_without c cs (clear_loop cs (pos - 128)).1 pos without_false w.0
            (ground (arith, above)) rest,
        ap suc len,
      )
]

-- `bint_bit_clear` clears the bit and leaves the others.
pub bit_clear-Changed :
    (cs : List Chunk) (pos : ℕ) → IsDigits cs → Changed bit_without cs pos (bit_clear cs pos)
unfolding bit_clear
bit_clear-Changed cs pos w =
    let (changed, len) = clear_loop_lem cs pos w.0 in
    trim (clear_loop cs pos) changed (omega (arith, len, some_chunk cs w.1))
  where
    trim :
        (r : Bool × List Chunk)
        → Changed bit_without cs pos r.1
        → 0 < length r.1
        → Changed bit_without cs pos (if r.0 then trim_chunks r.1 else r.1)
    trim (false, rs) c n = c
    trim (true, rs) (chunks, same) n =
        let (digits, kept) = trim_chunks-IsDigits rs n chunks in
        (digits.0, λ i. ap (λ v. bit v i) kept ∙ same i)

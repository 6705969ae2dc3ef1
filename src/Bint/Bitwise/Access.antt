-- ===== src/Bint/Bitwise/Access.antt =====
-- What `bint_bit_get` reads after `bint_bit_set` and `bint_bit_clear`.
use libdlb.Base.{
  ℕ, ◌≡◌, ap₂, ◌∙◌, sym, Bool, true, false, not, ◌&&◌, ◌||◌, none, List, [], ◌∷◌, ◌==◌,
}
use libdlb.Bint.{Chunk, alloc_chain}
use libdlb.Bint.Value.{AreChunks, IsDigits}
use libdlb.Bint.Bitwise.{bit_get, bit_set, bit_clear, bit_without}
use libdlb.Bint.Bitwise.Words.{bit-power}
use libdlb.Bint.Bitwise.Get.{bit_get_lem}
use libdlb.Bint.Bitwise.Zip.{Op}
use libdlb.Bint.Bitwise.Change.{Changed}
use libdlb.Bint.Bitwise.OneBit.{WasSet, not_set, was_set, bit_set-WasSet, bit_clear-Changed}

-- What `bint_bit_set` comes to: no memory and the same chain, or a chain of which
-- `bint_bit_get` reads the bit as set and the others as before.
pub data ReadsSet (answers : List Bool) (cs : List Chunk) (pos : ℕ)
    : Bool × List Chunk → Type 0 where
  reads_same : (k : ℕ) → alloc_chain answers k ≡ none → ReadsSet answers cs pos (false, cs)
  reads_set :
      (rs : List Chunk)
      → ((i : ℕ) → bit_get rs i ≡ (bit_get cs i || (i == pos)))
      → ReadsSet answers cs pos (true, rs)

reads :
    (f : Op) (cs rs : List Chunk) (pos i : ℕ)
    → AreChunks cs
    → Changed f cs pos rs
    → bit_get rs i ≡ f (bit_get cs i) (i == pos)
reads f cs rs pos i w (chunks, bits) =
    bit_get_lem rs i chunks ∙ bits i ∙ ap₂ f (sym (bit_get_lem cs i w)) (bit-power pos i)

-- On a number that keeps the invariant, `bint_bit_set` either finds no memory and leaves the
-- number as it was, or `bint_bit_get` then reads the bit as set and each other bit as before;
-- after `bint_bit_clear` it reads the bit as clear and each other bit as before.
pub bit_get-bit_set :
    (answers : List Bool) (cs : List Chunk) (pos : ℕ)
    → IsDigits cs
    → ReadsSet answers cs pos (bit_set answers cs pos)
      × ((i : ℕ) → bit_get (bit_clear cs pos) i ≡ (bit_get cs i && not (i == pos)))
bit_get-bit_set answers [] pos h = absurd h.1
bit_get-bit_set answers (c ∷ cs) pos h = (
  go (bit_set answers (c ∷ cs) pos) (bit_set-WasSet answers c cs pos h.0),
  λ i.
      reads bit_without (c ∷ cs) (bit_clear (c ∷ cs) pos) pos i h.0
        (bit_clear-Changed (c ∷ cs) pos h),
)
  where
    go : (r : Bool × List Chunk) → WasSet answers (c ∷ cs) pos r → ReadsSet answers (c ∷ cs) pos r
    go r (not_set k e) = reads_same k e
    go r (was_set rs e) = reads_set rs (λ i. reads (◌||◌) (c ∷ cs) rs pos i h.0 e)

-- ===== src/Bytes.antt =====
-- The readers and writers of src/bytes.h: `le` is the byte order of x86, `net` that of networks. The
-- list has the bytes from `data` on; an access behind its end is a fault.
pub mod Digits
pub mod Words32
pub mod Words64
mod Tests
use libdlb.Base.{ℕ, zero, suc, ◌%◌, List, [], ◌∷◌, Outcome, done, fault, ◌>>=◌}
use libdlb.Base.Bits.{bit_or, shift_left, shift_right}

-- `data[i]`
abbrev pub load : List ℕ → ℕ → Outcome ℕ
load [] i = fault
load (x ∷ xs) zero = done x
load (x ∷ xs) (suc i) = load xs i

-- `data[i] = v`, for a `v` wider than a byte
abbrev pub store : ℕ → ℕ → List ℕ → Outcome (List ℕ)
store i v [] = fault
store zero v (x ∷ xs) = done (v % 256 ∷ xs)
store (suc i) v (x ∷ xs) = store i v xs >>= λ ys. done (x ∷ ys)

pub r16le : List ℕ → Outcome ℕ
r16le bytes = do a ← load bytes 0; b ← load bytes 1; done (bit_or 16 a (shift_left 16 b 8))

pub r16net : List ℕ → Outcome ℕ
r16net bytes = do a ← load bytes 1; b ← load bytes 0; done (bit_or 16 a (shift_left 16 b 8))

pub w16le : List ℕ → ℕ → Outcome (List ℕ)
w16le bytes v = do bytes ← store 0 v bytes; store 1 (shift_right v 8) bytes

pub w16net : List ℕ → ℕ → Outcome (List ℕ)
w16net bytes v = do bytes ← store 1 v bytes; store 0 (shift_right v 8) bytes

pub r32le : List ℕ → Outcome ℕ
r32le bytes = do
  a ← load bytes 0
  b ← load bytes 1
  c ← load bytes 2
  d ← load bytes 3
  done (
      bit_or 32 (bit_or 32 (bit_or 32 a (shift_left 32 b 8)) (shift_left 32 c 16))
        (shift_left 32 d 24))

pub r32net : List ℕ → Outcome ℕ
r32net bytes = do
  a ← load bytes 3
  b ← load bytes 2
  c ← load bytes 1
  d ← load bytes 0
  done (
      bit_or 32 (bit_or 32 (bit_or 32 a (shift_left 32 b 8)) (shift_left 32 c 16))
        (shift_left 32 d 24))

pub w32le : List ℕ → ℕ → Outcome (List ℕ)
w32le bytes v = do
  bytes ← store 0 v bytes
  bytes ← store 1 (shift_right v 8) bytes
  bytes ← store 2 (shift_right v 16) bytes
  store 3 (shift_right v 24) bytes

pub w32net : List ℕ → ℕ → Outcome (List ℕ)
w32net bytes v = do
  bytes ← store 3 v bytes
  bytes ← store 2 (shift_right v 8) bytes
  bytes ← store 1 (shift_right v 16) bytes
  store 0 (shift_right v 24) bytes

-- the `|` of the eight shifted bytes of a word, lowest first
abbrev pub word : ℕ → ℕ → ℕ → ℕ → ℕ → ℕ → ℕ → ℕ → ℕ
word a b c d e f g h =
    let x = bit_or 64 a (shift_left 64 b 8) in
    let x = bit_or 64 x (shift_left 64 c 16) in
    let x = bit_or 64 x (shift_left 64 d 24) in
    let x = bit_or 64 x (shift_left 64 e 32) in
    let x = bit_or 64 x (shift_left 64 f 40) in
    let x = bit_or 64 x (shift_left 64 g 48) in bit_or 64 x (shift_left 64 h 56)

pub r64le : List ℕ → Outcome ℕ
r64le bytes = do
  a ← load bytes 0
  b ← load bytes 1
  c ← load bytes 2
  d ← load bytes 3
  e ← load bytes 4
  f ← load bytes 5
  g ← load bytes 6
  h ← load bytes 7
  done (word a b c d e f g h)

pub r64net : List ℕ → Outcome ℕ
r64net bytes = do
  a ← load bytes 7
  b ← load bytes 6
  c ← load bytes 5
  d ← load bytes 4
  e ← load bytes 3
  f ← load bytes 2
  g ← load bytes 1
  h ← load bytes 0
  done (word a b c d e f g h)

pub w64le : List ℕ → ℕ → Outcome (List ℕ)
w64le bytes v = do
  bytes ← store 0 v bytes
  bytes ← store 1 (shift_right v 8) bytes
  bytes ← store 2 (shift_right v 16) bytes
  bytes ← store 3 (shift_right v 24) bytes
  bytes ← store 4 (shift_right v 32) bytes
  bytes ← store 5 (shift_right v 40) bytes
  bytes ← store 6 (shift_right v 48) bytes
  store 7 (shift_right v 56) bytes

pub w64net : List ℕ → ℕ → Outcome (List ℕ)
w64net bytes v = do
  bytes ← store 7 v bytes
  bytes ← store 6 (shift_right v 8) bytes
  bytes ← store 5 (shift_right v 16) bytes
  bytes ← store 4 (shift_right v 24) bytes
  bytes ← store 3 (shift_right v 32) bytes
  bytes ← store 2 (shift_right v 40) bytes
  bytes ← store 1 (shift_right v 48) bytes
  store 0 (shift_right v 56) bytes

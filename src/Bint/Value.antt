-- ===== src/Bint/Value.antt =====
-- The number that a chain of chunks stands for, and what chains the code keeps.
use libdlb.Base.{
  ℕ, zero, suc, ◌+◌, ◌*◌, ◌^◌, ◌≤◌, ◌<◌, ◌≡◌, ◌≢◌, refl, true, false, List, [], ◌∷◌, ◌++◌, length,
  replicate, arith,
}
use libdlb.Bint.{Chunk, chunk_size, zero_chunk, chunk_is_zero}

-- components, lowest first
abbrev pub value : List ℕ → ℕ
value [] = 0
value (d ∷ ds) = d + 2 ^ 32 * value ds

-- what as many components cannot hold
abbrev pub span : List ℕ → ℕ
span [] = 1
span (d ∷ ds) = 2 ^ 32 * span ds

abbrev pub magnitude : List Chunk → ℕ
magnitude [] = 0
magnitude (c ∷ cs) = value c + 2 ^ 128 * magnitude cs

-- what a chain of that many chunks cannot hold
abbrev pub room : List Chunk → ℕ
room [] = 1
room (c ∷ cs) = 2 ^ 128 * room cs

abbrev pub AreWords : List ℕ → Type 0
AreWords [] = Unit
AreWords (d ∷ ds) = (d < 2 ^ 32) × AreWords ds

abbrev pub IsChunk : Chunk → Type 0
IsChunk c = (length c ≡ chunk_size) × AreWords c

abbrev pub AreChunks : List Chunk → Type 0
AreChunks [] = Unit
AreChunks (c ∷ cs) = IsChunk c × AreChunks cs

-- The invariant that src/bint.c states: the last chunk that `next` links is not all zero.
abbrev pub IsTopped : List Chunk → Type 0
IsTopped [] = Unit
IsTopped (c ∷ []) = 0 < value c
IsTopped (c ∷ d ∷ cs) = IsTopped (d ∷ cs)

abbrev pub IsTrimmed : List Chunk → Type 0
IsTrimmed [] = ⊥
IsTrimmed (c ∷ next) = IsTopped next

-- what the code keeps of every number
abbrev pub IsDigits : List Chunk → Type 0
IsDigits cs = AreChunks cs × IsTrimmed cs

pub value-append : (xs ys : List ℕ) → value (xs ++ ys) ≡ value xs + span xs * value ys
value-append [] ys = omega arith
value-append (x ∷ xs) ys = omega (arith, value-append xs ys)

pub value-lt : (ds : List ℕ) → AreWords ds → value ds < span ds
value-lt [] w = omega arith
value-lt (d ∷ ds) w = omega (arith, value-lt ds w.1)

pub span-chunk : (c : Chunk) → length c ≡ chunk_size → span c ≡ 2 ^ 128
span-chunk (a ∷ b ∷ c ∷ d ∷ []) h = refl
span-chunk (a ∷ b ∷ c ∷ d ∷ e ∷ ds) h = absurd (omega (arith, h))
span-chunk (a ∷ b ∷ c ∷ []) h = absurd (omega (arith, h))
span-chunk (a ∷ b ∷ []) h = absurd (omega (arith, h))
span-chunk (a ∷ []) h = absurd (omega (arith, h))
span-chunk [] h = absurd (omega (arith, h))

pub chunk-lt : (c : Chunk) → IsChunk c → value c < 2 ^ 128
chunk-lt c h = omega (arith, span-chunk c h.0, value-lt c h.1)

pub magnitude-lt : (cs : List Chunk) → AreChunks cs → magnitude cs < room cs
magnitude-lt [] h = omega arith
magnitude-lt (c ∷ cs) h = omega (arith, magnitude-lt cs h.1, chunk-lt c h.0)

pub magnitude-append :
    (xs ys : List Chunk) → magnitude (xs ++ ys) ≡ magnitude xs + room xs * magnitude ys
magnitude-append [] ys = omega arith
magnitude-append (x ∷ xs) ys = omega (arith, magnitude-append xs ys)

pub room-append : (xs ys : List Chunk) → room (xs ++ ys) ≡ room xs * room ys
room-append [] ys = omega arith
room-append (x ∷ xs) ys = omega (arith, room-append xs ys)

pub room_positive : (cs : List Chunk) → 0 < room cs
room_positive [] = omega arith
room_positive (c ∷ cs) = omega (arith, room_positive cs)

pub zero-value : (c : Chunk) → chunk_is_zero c ≡ true → value c ≡ 0
unfolding chunk_is_zero
zero-value [] h = refl
zero-value (d ∷ ds) h = ground (arith, zero-value ds)

pub nonzero-value : (c : Chunk) → chunk_is_zero c ≡ false → 0 < value c
unfolding chunk_is_zero
nonzero-value [] h = ground arith
nonzero-value (d ∷ ds) h = ground (arith, nonzero-value ds)

-- A topped chain of chunks is a number as large as the chain's length says.
pub topped-room : (c : Chunk) (cs : List Chunk) → IsTopped (c ∷ cs) → room cs ≤ magnitude (c ∷ cs)
topped-room c [] h = omega (arith, h)
topped-room c (d ∷ cs) h = omega (arith, topped-room d cs h)

pub trimmed-room :
    (c : Chunk) (cs : List Chunk) → IsTopped cs → cs ≢ [] → room cs ≤ magnitude (c ∷ cs)
trimmed-room c [] h ne = absurd (ne refl)
trimmed-room c (d ∷ cs) h ne = omega (arith, topped-room d cs h)

zero_words : AreWords zero_chunk
zero_words = omega arith

pub zeros-AreChunks : (n : ℕ) → AreChunks (replicate n zero_chunk)
zeros-AreChunks zero = tt
zeros-AreChunks (suc n) = ((refl, zero_words), zeros-AreChunks n)

pub magnitude-zeros : (n : ℕ) → magnitude (replicate n zero_chunk) ≡ 0
magnitude-zeros zero = refl
magnitude-zeros (suc n) = omega (arith, magnitude-zeros n)

pub AreChunks-append : (xs ys : List Chunk) → AreChunks xs → AreChunks ys → AreChunks (xs ++ ys)
AreChunks-append [] ys h k = k
AreChunks-append (x ∷ xs) ys h k = (h.0, AreChunks-append xs ys h.1 k)

pub AreChunks-of_append : (xs ys : List Chunk) → AreChunks (xs ++ ys) → AreChunks xs × AreChunks ys
AreChunks-of_append [] ys h = (tt, h)
AreChunks-of_append (x ∷ xs) ys h = let (a, b) = AreChunks-of_append xs ys h.1 in ((h.0, a), b)

pub some_chunk : (cs : List Chunk) → IsTrimmed cs → 0 < length cs
some_chunk [] h = absurd h
some_chunk (c ∷ cs) h = omega arith

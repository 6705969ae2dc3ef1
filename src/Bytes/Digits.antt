-- ===== src/Bytes/Digits.antt =====
-- Bytes as a number, and a number as bytes.
use native.Mathlib.Nat.{pow-suc}
use libdlb.Base.{ℕ, zero, suc, ◌+◌, ◌*◌, ◌/◌, ◌%◌, ◌^◌, ◌<◌, ◌≡◌, List, [], ◌∷◌, arith}

-- the number that bytes spell, lowest first
abbrev pub number : List ℕ → ℕ
number [] = 0
number (x ∷ xs) = x + 256 * number xs

-- the lowest `n` bytes of a number, lowest first
abbrev pub digits : ℕ → ℕ → List ℕ
digits zero v = []
digits (suc n) v = v % 256 ∷ digits n (v / 256)

abbrev pub AreBytes : List ℕ → Type 0
AreBytes [] = Unit
AreBytes (x ∷ xs) = (x < 256) × AreBytes xs

pub number-digits : (n v : ℕ) → v < 256 ^ n → number (digits n v) ≡ v
number-digits zero v h = omega arith
number-digits (suc n) v h = omega (arith, number-digits n (v / 256) (omega (arith, pow-suc 256 n)))

byte_small : (v : ℕ) → v % 256 < 256
byte_small v = omega arith

pub AreBytes-digits : (n v : ℕ) → AreBytes (digits n v)
AreBytes-digits zero v = tt
AreBytes-digits (suc n) v = (byte_small v, AreBytes-digits n (v / 256))

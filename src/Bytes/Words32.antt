-- ===== src/Bytes/Words32.antt =====
-- The readers and writers of 16 and 32 bits: what they mean, and that each reader undoes its writer.
use libdlb.Base.{
  ℕ, ◌+◌, ◌*◌, ◌/◌, ◌^◌, ◌≤◌, ◌<◌, ◌≡◌, refl, ap, ◌∙◌, List, [], ◌∷◌, ◌++◌, length, take, drop,
  reverse, done, ◌>>=◌, arith,
}
use libdlb.Base.Bits.{bit_or, bit_or_shifted, shift_left}
use libdlb.Bytes.Digits.{number, digits, AreBytes, number-digits, AreBytes-digits}
use libdlb.Bytes.{r16le, r16net, w16le, w16net, r32le, r32net, w32le, w32net}

half_word-number :
    (a b c d : ℕ)
    → AreBytes (a ∷ b ∷ c ∷ d ∷ [])
    → bit_or 32
        (bit_or 32 (bit_or 32 a (shift_left 32 b 8)) (shift_left 32 c 16))
        (shift_left 32 d 24)
      ≡ number (a ∷ b ∷ c ∷ d ∷ [])
half_word-number a b c d (pa, (pb, (pc, (pd, pn)))) =
    let x2 = a + b * 2 ^ 8 in
    let x3 = x2 + c * 2 ^ 16 in
    rw
      (
        bit_or_shifted 8 24 a b (omega arith) (omega arith) (omega arith),
        bit_or_shifted 16 16 x2 c (omega arith) (omega arith) (omega arith),
        bit_or_shifted 24 8 x3 d (omega arith) (omega arith) (omega arith),
      )
      (omega arith)

data Four : List ℕ → Type 0 where
  four : (a b c d : ℕ) (ys : List ℕ) → Four (a ∷ b ∷ c ∷ d ∷ ys)

Four_lem : (xs : List ℕ) → 4 ≤ length xs → Four xs
Four_lem (a ∷ b ∷ c ∷ d ∷ ys) le = four a b c d ys
Four_lem [] le = absurd (omega (arith, le))
Four_lem (a ∷ []) le = absurd (omega (arith, le))
Four_lem (a ∷ b ∷ []) le = absurd (omega (arith, le))
Four_lem (a ∷ b ∷ c ∷ []) le = absurd (omega (arith, le))

read_32_block :
    (xs : List ℕ)
    → Four xs
    → AreBytes (take 4 xs)
    → (r32le xs ≡ done (number (take 4 xs))) × (r32net xs ≡ done (number (reverse (take 4 xs))))
unfolding r32le r32net
read_32_block xs (four a b c d ys) (pa, (pb, (pc, (pd, pn)))) = (
  ap done (half_word-number a b c d (pa, (pb, (pc, (pd, tt))))),
  ap done (half_word-number d c b a (pd, (pc, (pb, (pa, tt))))),
)

write_32_block :
    (xs : List ℕ) (v : ℕ)
    → Four xs
    → (w32le xs v ≡ done (digits 4 v ++ drop 4 xs))
      × (w32net xs v ≡ done (reverse (digits 4 v) ++ drop 4 xs))
unfolding w32le w32net
write_32_block xs v (four a b c d ys) =
    let e2 : v / 2 ^ 16 ≡ v / 256 / 256 = omega arith in
    let e3 : v / 2 ^ 24 ≡ v / 256 / 256 / 256 = omega arith in rw (e2, e3) (refl, refl)

-- Each 32-bit writer puts the four bytes of the number at the start, lowest first or highest first,
-- and leaves the bytes behind them; its reader then reads the number back.
pub round_trip_32 :
    (bytes : List ℕ) (v : ℕ)
    → 4 ≤ length bytes
    → v < 2 ^ 32
    → (w32le bytes v ≡ done (digits 4 v ++ drop 4 bytes))
      × (w32net bytes v ≡ done (reverse (digits 4 v) ++ drop 4 bytes))
      × ((w32le bytes v >>= r32le) ≡ done v)
      × ((w32net bytes v >>= r32net) ≡ done v)
unfolding r32le r32net
round_trip_32 bytes v le small =
    let (p, q) = write_32_block bytes v (Four_lem bytes le) in
    let d = AreBytes-digits 4 v in
    let (pa, (pb, (pc, (pd, pn)))) = d in
    let back = ap done (number-digits 4 v small) in
    let rest = drop 4 bytes in
    (
      p,
      q,
      ap (λ o. o >>= r32le) p
          ∙ ((read_32_block (digits 4 v ++ rest) (four _ _ _ _ rest) d).0 ∙ back),
      ap (λ o. o >>= r32net) q
          ∙ ((read_32_block (reverse (digits 4 v) ++ rest) (four _ _ _ _ rest)
                (pd, (pc, (pb, (pa, tt))))).1
              ∙ back),
    )

data Two : List ℕ → Type 0 where
  two : (a b : ℕ) (ys : List ℕ) → Two (a ∷ b ∷ ys)

Two_lem : (xs : List ℕ) → 2 ≤ length xs → Two xs
Two_lem (a ∷ b ∷ ys) le = two a b ys
Two_lem [] le = absurd (omega (arith, le))
Two_lem (a ∷ []) le = absurd (omega (arith, le))

read_16_block :
    (xs : List ℕ)
    → Two xs
    → AreBytes (take 2 xs)
    → (r16le xs ≡ done (number (take 2 xs))) × (r16net xs ≡ done (number (reverse (take 2 xs))))
unfolding r16le r16net
read_16_block xs (two a b ys) (pa, (pb, pn)) =
    let e = bit_or_shifted 8 8 a b (omega arith) (omega arith) (omega arith) in
    let f = bit_or_shifted 8 8 b a (omega arith) (omega arith) (omega arith) in
    (ap done (e ∙ omega arith), ap done (f ∙ omega arith))

write_16_block :
    (xs : List ℕ) (v : ℕ)
    → Two xs
    → (w16le xs v ≡ done (digits 2 v ++ drop 2 xs))
      × (w16net xs v ≡ done (reverse (digits 2 v) ++ drop 2 xs))
unfolding w16le w16net
write_16_block xs v (two a b ys) = (refl, refl)

-- Each 16-bit writer puts the two bytes of the number at the start, lowest first or highest first,
-- and leaves the bytes behind them; its reader then reads the number back.
pub round_trip_16 :
    (bytes : List ℕ) (v : ℕ)
    → 2 ≤ length bytes
    → v < 2 ^ 16
    → (w16le bytes v ≡ done (digits 2 v ++ drop 2 bytes))
      × (w16net bytes v ≡ done (reverse (digits 2 v) ++ drop 2 bytes))
      × ((w16le bytes v >>= r16le) ≡ done v)
      × ((w16net bytes v >>= r16net) ≡ done v)
unfolding r16le r16net
round_trip_16 bytes v le small =
    let (p, q) = write_16_block bytes v (Two_lem bytes le) in
    let d = AreBytes-digits 2 v in
    let (pa, (pb, pn)) = d in
    let back = ap done (number-digits 2 v small) in
    let rest = drop 2 bytes in
    (
      p,
      q,
      ap (λ o. o >>= r16le) p ∙ ((read_16_block (digits 2 v ++ rest) (two _ _ rest) d).0 ∙ back),
      ap (λ o. o >>= r16net) q
          ∙ ((read_16_block (reverse (digits 2 v) ++ rest) (two _ _ rest) (pb, (pa, tt))).1 ∙ back),
    )

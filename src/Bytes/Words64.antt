-- ===== src/Bytes/Words64.antt =====
-- `bytes_r64le`, `bytes_r64net` and their writers: what they mean, and that each reader undoes its
-- writer.
use libdlb.Base.{
  ℕ, ◌+◌, ◌*◌, ◌/◌, ◌^◌, ◌≤◌, ◌<◌, ◌≡◌, refl, ap, ◌∙◌, List, [], ◌∷◌, ◌++◌, length, take, drop,
  reverse, done, ◌>>=◌, arith,
}
use libdlb.Base.Bits.{bit_or_shifted}
use libdlb.Bytes.Digits.{number, digits, AreBytes, number-digits, AreBytes-digits}
use libdlb.Bytes.{word, r64le, r64net, w64le, w64net}

word-number :
    (a b c d e f g h : ℕ)
    → AreBytes (a ∷ b ∷ c ∷ d ∷ e ∷ f ∷ g ∷ h ∷ [])
    → word a b c d e f g h ≡ number (a ∷ b ∷ c ∷ d ∷ e ∷ f ∷ g ∷ h ∷ [])
word-number a b c d e f g h (pa, (pb, (pc, (pd, (pe, (pf, (pg, (ph, pn)))))))) =
    let x2 = a + b * 2 ^ 8 in
    let x3 = x2 + c * 2 ^ 16 in
    let x4 = x3 + d * 2 ^ 24 in
    let x5 = x4 + e * 2 ^ 32 in
    let x6 = x5 + f * 2 ^ 40 in
    let x7 = x6 + g * 2 ^ 48 in
    rw
      (
        bit_or_shifted 8 56 a b (omega arith) (omega arith) (omega arith),
        bit_or_shifted 16 48 x2 c (omega arith) (omega arith) (omega arith),
        bit_or_shifted 24 40 x3 d (omega arith) (omega arith) (omega arith),
        bit_or_shifted 32 32 x4 e (omega arith) (omega arith) (omega arith),
        bit_or_shifted 40 24 x5 f (omega arith) (omega arith) (omega arith),
        bit_or_shifted 48 16 x6 g (omega arith) (omega arith) (omega arith),
        bit_or_shifted 56 8 x7 h (omega arith) (omega arith) (omega arith),
      )
      (omega arith)

-- an area of at least so many bytes
data Eight : List ℕ → Type 0 where
  eight : (a b c d e f g h : ℕ) (ys : List ℕ) → Eight (a ∷ b ∷ c ∷ d ∷ e ∷ f ∷ g ∷ h ∷ ys)

Eight_lem : (xs : List ℕ) → 8 ≤ length xs → Eight xs
Eight_lem (a ∷ b ∷ c ∷ d ∷ e ∷ f ∷ g ∷ h ∷ ys) le = eight a b c d e f g h ys
Eight_lem [] le = absurd (omega (arith, le))
Eight_lem (a ∷ []) le = absurd (omega (arith, le))
Eight_lem (a ∷ b ∷ []) le = absurd (omega (arith, le))
Eight_lem (a ∷ b ∷ c ∷ []) le = absurd (omega (arith, le))
Eight_lem (a ∷ b ∷ c ∷ d ∷ []) le = absurd (omega (arith, le))
Eight_lem (a ∷ b ∷ c ∷ d ∷ e ∷ []) le = absurd (omega (arith, le))
Eight_lem (a ∷ b ∷ c ∷ d ∷ e ∷ f ∷ []) le = absurd (omega (arith, le))
Eight_lem (a ∷ b ∷ c ∷ d ∷ e ∷ f ∷ g ∷ []) le = absurd (omega (arith, le))

read_64_block :
    (xs : List ℕ)
    → Eight xs
    → AreBytes (take 8 xs)
    → (r64le xs ≡ done (number (take 8 xs))) × (r64net xs ≡ done (number (reverse (take 8 xs))))
unfolding r64le r64net
read_64_block xs (eight a b c d e f g h ys) (pa, (pb, (pc, (pd, (pe, (pf, (pg, (ph, pn)))))))) = (
  ap done (word-number a b c d e f g h (pa, (pb, (pc, (pd, (pe, (pf, (pg, (ph, tt))))))))),
  ap done (word-number h g f e d c b a (ph, (pg, (pf, (pe, (pd, (pc, (pb, (pa, tt))))))))),
)

-- `bytes_r64le` is the number that the first eight bytes spell, lowest first, and `bytes_r64net` the
-- one that they spell, highest first.
pub read_64 :
    (bytes : List ℕ)
    → 8 ≤ length bytes
    → AreBytes (take 8 bytes)
    → (r64le bytes ≡ done (number (take 8 bytes)))
      × (r64net bytes ≡ done (number (reverse (take 8 bytes))))
read_64 bytes le b = read_64_block bytes (Eight_lem bytes le) b

shifts :
    (v : ℕ)
    → (v / 2 ^ 16 ≡ v / 256 / 256)
      × (v / 2 ^ 24 ≡ v / 256 / 256 / 256)
      × (v / 2 ^ 32 ≡ v / 256 / 256 / 256 / 256)
      × (v / 2 ^ 40 ≡ v / 256 / 256 / 256 / 256 / 256)
      × (v / 2 ^ 48 ≡ v / 256 / 256 / 256 / 256 / 256 / 256)
      × (v / 2 ^ 56 ≡ v / 256 / 256 / 256 / 256 / 256 / 256 / 256)
shifts v = (omega arith, omega arith, omega arith, omega arith, omega arith, omega arith)

write_64_block :
    (xs : List ℕ) (v : ℕ)
    → Eight xs
    → (w64le xs v ≡ done (digits 8 v ++ drop 8 xs))
      × (w64net xs v ≡ done (reverse (digits 8 v) ++ drop 8 xs))
unfolding w64le w64net
write_64_block xs v (eight a b c d e f g h ys) =
    let (e2, e3, e4, e5, e6, e7) = shifts v in rw (e2, e3, e4, e5, e6, e7) (refl, refl)

-- `bytes_w64le` puts the eight bytes of the number at the start, lowest first, and `bytes_w64net`
-- highest first; the bytes behind them stay.
pub write_64 :
    (bytes : List ℕ) (v : ℕ)
    → 8 ≤ length bytes
    → (w64le bytes v ≡ done (digits 8 v ++ drop 8 bytes))
      × (w64net bytes v ≡ done (reverse (digits 8 v) ++ drop 8 bytes))
write_64 bytes v le = write_64_block bytes v (Eight_lem bytes le)

-- What `bytes_w64le` writes, `bytes_r64le` reads back, and so in network order.
pub round_trip_64 :
    (bytes : List ℕ) (v : ℕ)
    → 8 ≤ length bytes
    → v < 2 ^ 64
    → ((w64le bytes v >>= r64le) ≡ done v) × ((w64net bytes v >>= r64net) ≡ done v)
round_trip_64 bytes v le small =
    let (p, q) = write_64 bytes v le in
    let d = AreBytes-digits 8 v in
    let (pa, (pb, (pc, (pd, (pe, (pf, (pg, (ph, pn)))))))) = d in
    let back = ap done (number-digits 8 v small) in
    let rest = drop 8 bytes in
    (
      ap (λ o. o >>= r64le) p
          ∙ ((read_64_block (digits 8 v ++ rest) (eight _ _ _ _ _ _ _ _ rest) d).0 ∙ back),
      ap (λ o. o >>= r64net) q
          ∙ ((read_64_block (reverse (digits 8 v) ++ rest) (eight _ _ _ _ _ _ _ _ rest)
                (ph, (pg, (pf, (pe, (pd, (pc, (pb, (pa, tt))))))))).1
              ∙ back),
    )

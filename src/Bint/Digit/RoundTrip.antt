-- ===== src/Bint/Digit/RoundTrip.antt =====
-- A number has one chain that keeps the invariant, so that `bint_digit_pop` undoes
-- `bint_digit_push`.
use native.Mathlib.Nat.{mul-le-mul_right}
use libdlb.Base.{
  ℕ, suc, ◌+◌, ◌*◌, ◌^◌, ◌<◌, ◌≡◌, refl, ap, ap₂, ◌∙◌, sym, subst, inl, inr, Bool, true, List, [],
  ◌∷◌, length, arith,
}
use libdlb.Bint.{Chunk, Bint}
use libdlb.Bint.Value.{value, magnitude, AreWords, AreChunks, IsDigits, chunk-lt}
use libdlb.Bint.Magnitude.Compare.{compare_cases, longer-gt}
use libdlb.Bint.Signed.Difference.{IsBint}
use libdlb.Bint.Digit.{digit_push, digit_pop}
use libdlb.Bint.Digit.Push.{Pushed, unpushed, pushed, digit_push-Pushed}
use libdlb.Bint.Digit.Pop.{digit_pop_lem}

-- the quotient and the remainder are unique
divided_once : (k m n a b : ℕ) → a < k → b < k → m * k + a ≡ n * k + b → (m ≡ n) × (a ≡ b)
divided_once k m n a b h g e = elim (compare_cases m n) [
  | inl lt ↦ absurd (omega (arith, mul-le-mul_right {m = suc m} {n = n} k lt))
  | inr (inl gt) ↦ absurd (omega (arith, mul-le-mul_right {m = suc n} {n = m} k gt))
  | inr (inr eq) ↦ (eq, omega (arith, ap (λ t. t * k) eq))
]

value-injective :
    (ds es : List ℕ)
    → length ds ≡ length es
    → AreWords ds
    → AreWords es
    → value ds ≡ value es
    → ds ≡ es
value-injective [] [] n w x e = refl
value-injective [] (y ∷ es) n w x e = absurd (omega (arith, n))
value-injective (d ∷ ds) [] n w x e = absurd (omega (arith, n))
value-injective (d ∷ ds) (y ∷ es) n w x e =
    let (high, low) = divided_once (2 ^ 32) (value ds) (value es) d y w.0 x.0 (omega (arith, e)) in
    ap₂ (λ c cs. c ∷ cs) low (value-injective ds es (omega (arith, n)) w.1 x.1 high)

chunks-injective :
    (cs ds : List Chunk)
    → length cs ≡ length ds
    → AreChunks cs
    → AreChunks ds
    → magnitude cs ≡ magnitude ds
    → cs ≡ ds
chunks-injective [] [] n w x e = refl
chunks-injective [] (y ∷ ds) n w x e = absurd (omega (arith, n))
chunks-injective (c ∷ cs) [] n w x e = absurd (omega (arith, n))
chunks-injective (c ∷ cs) (d ∷ ds) n w x e =
    let (high, low) =
      divided_once (2 ^ 128) (magnitude cs) (magnitude ds) (value c) (value d) (chunk-lt c w.0)
        (chunk-lt d x.0) (omega (arith, e)) in
    ap₂ (λ a as_rest. a ∷ as_rest) (value-injective c d (w.0.0 ∙ sym x.0.0) w.0.1 x.0.1 low)
      (chunks-injective cs ds (omega (arith, n)) w.1 x.1 high)

-- A number has only one chain that keeps the invariant.
pub magnitude-injective :
    (cs ds : List Chunk) → IsDigits cs → IsDigits ds → magnitude cs ≡ magnitude ds → cs ≡ ds
magnitude-injective cs ds h k e = elim (compare_cases (length cs) (length ds)) [
  | inl lt ↦ absurd (omega (arith, e, longer-gt ds cs k h lt))
  | inr (inl gt) ↦ absurd (omega (arith, e, longer-gt cs ds h k gt))
  | inr (inr eq) ↦ chunks-injective cs ds eq h.0 k.0 e
]

-- After a `bint_digit_push` that returns 0, of a digit below a base of 32 bits onto a number that
-- keeps the invariant, in a chain of fewer than 2 ^ 31 bits, `bint_digit_pop` gives back the digit
-- and the very same number.
pub digit_pop-push :
    (answers : List Bool) (b r : Bint) (base digit : ℕ)
    → IsBint b
    → base < 2 ^ 32
    → digit < base
    → digit_push answers b base digit ≡ (true, r)
    → digit_pop r base ≡ (b, digit)
digit_pop-push answers b r base digit h k p e =
    go (digit_push answers b base digit) (digit_push-Pushed answers b base digit h k p) e
  where
    go :
        (o : Bool × Bint)
        → Pushed answers b (magnitude b.digits * base + digit) o
        → o ≡ (true, r)
        → digit_pop r base ≡ (b, digit)
    go o (unpushed n none_left) same = absurd (ground (arith, ap (λ t. t.0) same))
    go o (pushed ds digits sum) same =
        let x = record b { digits = ds } in
        let (kept, sign, parts, less) = digit_pop_lem x base digits (omega (arith, p)) k in
        let (high, low) =
          divided_once base (magnitude (digit_pop x base).0.digits) (magnitude b.digits)
            (digit_pop x base).1 digit less p (sym parts ∙ sum) in
        subst (λ t. digit_pop t base ≡ (b, digit)) (ap (λ t. t.1) same)
          (ap₂ (λ t u. (t, u))
            (ap₂ (λ t u. record { negative = t; digits = u }) sign
              (magnitude-injective (digit_pop x base).0.digits b.digits kept h.0 high))
            low)

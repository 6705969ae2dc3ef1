-- ===== src/Bint/Signed/Compare.antt =====
-- `bint_compare` is the order of the signed numbers.
use Prim.Native.Nat.{compare as compare_nat, Ordering}
use mathlib.Core.List.{cons-ne-nil}
use libdlb.Base.{
  ℕ, ◌+◌, ◌<◌, ◌≡◌, refl, ◌∙◌, sym, ap, ap₂, inl, inr, Bool, true, false, not, Bool-cases, List, [],
  ◌∷◌, if◌then◌else◌, arith,
}
use libdlb.Bint.{Chunk, Bint, is_zero}
use libdlb.Bint.Value.{magnitude, IsDigits, zero-value, nonzero-value, trimmed-room, room_positive}
use libdlb.Bint.Magnitude.{mag_cmp}
use libdlb.Bint.Magnitude.Compare.{mag_cmp_lem, compare_cases, compare_lt, compare_gt}
use libdlb.Bint.Signed.{flip, compare, get_sign}
use libdlb.Bint.Signed.Difference.{plus, minus, compare_eq}

-- a sign that is set has a number that is not 0
abbrev pub IsSigned : Bint → Type 0
IsSigned b = b.negative ≡ true → 0 < magnitude b.digits

flip_lem : (m n : ℕ) → flip (compare_nat m n) ≡ compare_nat n m
flip_lem m n = elim (compare_cases m n) [
  | inl lt ↦ ap flip (compare_lt m n lt) ∙ sym (compare_gt n m lt)
  | inr (inl gt) ↦ ap flip (compare_gt m n gt) ∙ sym (compare_lt n m gt)
  | inr (inr eq) ↦ ap flip (compare_eq m n eq) ∙ sym (compare_eq n m (sym eq))
]

-- `bint_compare` is the order of two signed numbers, each the difference of `plus` and `minus`, if
-- both keep the invariant and neither is a negative 0.
pub compare_lem :
    (a b : Bint)
    → IsDigits a.digits
    → IsDigits b.digits
    → IsSigned a
    → IsSigned b
    → compare a b ≡ compare_nat (plus a + minus b) (plus b + minus a)
unfolding compare
compare_lem a b h k s t = go a.negative b.negative (mag_cmp_lem a.digits b.digits h k) s t
  where
    go :
        (x y : Bool)
        → mag_cmp a.digits b.digits ≡ compare_nat (magnitude a.digits) (magnitude b.digits)
        → (x ≡ true → 0 < magnitude a.digits)
        → (y ≡ true → 0 < magnitude b.digits)
        → compare
            (record { negative = x; digits = a.digits })
            (record { negative = y; digits = b.digits })
          ≡ compare_nat
              ((if x then 0 else magnitude a.digits) + (if not y then 0 else magnitude b.digits))
              ((if y then 0 else magnitude b.digits) + (if not x then 0 else magnitude a.digits))
    go true true e s t =
        ap flip e
        ∙ flip_lem (magnitude a.digits) (magnitude b.digits)
        ∙ ap₂ compare_nat {x = magnitude b.digits} (omega arith) (omega arith)
    go true false e s t =
        sym (compare_lt 0 (magnitude b.digits + magnitude a.digits) (omega (arith, s refl)))
    go false true e s t =
        sym (compare_gt (magnitude a.digits + magnitude b.digits) 0 (omega (arith, t refl)))
    go false false e s t = e ∙ ap₂ compare_nat (omega arith) (omega arith)

is_zero_lem :
    (cs : List Chunk)
    → IsDigits cs
    → (is_zero cs ≡ true → magnitude cs ≡ 0) × (is_zero cs ≡ false → 0 < magnitude cs)
unfolding is_zero
is_zero_lem [] h = absurd h.1
is_zero_lem (c ∷ []) h =
    (λ z. omega (arith, zero-value c z), λ nz. omega (arith, nonzero-value c nz))
is_zero_lem (c ∷ d ∷ cs) h = (
  λ z. ground (arith, z),
  λ nz.
      omega (arith, trimmed-room c (d ∷ cs) h.1 (λ e. cons-ne-nil d cs e), room_positive (d ∷ cs)),
)

-- `bint_get_sign` is the order of the number and 0.
pub get_sign_lem : (b : Bint) → IsDigits b.digits → get_sign b ≡ compare_nat (plus b) (minus b)
unfolding get_sign
get_sign_lem b h = elim (Bool-cases (is_zero b.digits)) [
  | inl z ↦ rw z (nothing b.negative ((is_zero_lem b.digits h).0 z))
  | inr nz ↦ rw nz (something b.negative ((is_zero_lem b.digits h).1 nz))
]
  where
    nothing :
        (x : Bool)
        → magnitude b.digits ≡ 0
        → Ordering.eq
          ≡ compare_nat
              (if x then 0 else magnitude b.digits)
              (if not x then 0 else magnitude b.digits)
    nothing x e = sym (compare_eq _ _ (none_left x))
      where
        none_left :
            (x : Bool)
            → (if x then 0 else magnitude b.digits) ≡ (if not x then 0 else magnitude b.digits)
        none_left true = sym e
        none_left false = e

    something :
        (x : Bool)
        → 0 < magnitude b.digits
        → (if x then Ordering.lt else Ordering.gt)
          ≡ compare_nat
              (if x then 0 else magnitude b.digits)
              (if not x then 0 else magnitude b.digits)
    something true e = sym (compare_lt 0 (magnitude b.digits) e)
    something false e = sym (compare_gt (magnitude b.digits) 0 e)

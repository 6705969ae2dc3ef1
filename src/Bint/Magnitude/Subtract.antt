-- ===== src/Bint/Magnitude/Subtract.antt =====
-- `mag_sub` subtracts the smaller number from the larger one.
use libdlb.Base.{
  ℕ, suc, ◌+◌, ◌-◌, ◌*◌, ◌/◌, ◌^◌, ◌≤◌, ◌<◌, ◌≡◌, refl, ap, ◌∙◌, sym, List, [], ◌∷◌, length,
  Bool-cases, inl, inr, false, ◌==◌, arith,
}
use libdlb.Base.Words.{u32, u64}
use libdlb.Bint.{Chunk}
use libdlb.Bint.Value.{
  value, span, magnitude, AreWords, IsChunk, AreChunks, IsDigits, span-chunk, chunk-lt,
}
use libdlb.Bint.Chain.{trim_chunks-IsDigits}
use libdlb.Bint.Magnitude.{
  with_borrow, sub_components, borrow_components, borrow_through, sub_chains, mag_sub,
}
use libdlb.Bint.Magnitude.Add.{unit}

component_lem :
    (d c k : ℕ)
    → d < 2 ^ 32
    → c < 2 ^ 32
    → let r = with_borrow k (u64 (d + 2 ^ 64 - c)) in
      (u32 r + c + unit k ≡ d + 2 ^ 32 * unit (r / 2 ^ 32)) × (u32 r < 2 ^ 32)
component_lem d c k h g = ground arith

borrow_lem :
    (d k : ℕ)
    → d < 2 ^ 32
    → let r = with_borrow k d in
      (u32 r + unit k ≡ d + 2 ^ 32 * unit (r / 2 ^ 32)) × (u32 r < 2 ^ 32)
borrow_lem d k h = ground arith

sub_components_lem :
    (ds cs : List ℕ) (k : ℕ)
    → length ds ≡ length cs
    → AreWords ds
    → AreWords cs
    → let (rs, k') = sub_components ds cs k in
      (value rs + value cs + unit k ≡ value ds + span ds * unit k')
      × AreWords rs
      × (length rs ≡ length ds)
unfolding sub_components
sub_components_lem [] [] k n w x = (omega arith, tt, refl)
sub_components_lem [] (c ∷ cs) k n w x = absurd (omega (arith, n))
sub_components_lem (d ∷ ds) [] k n w x = absurd (omega (arith, n))
sub_components_lem (d ∷ ds) (c ∷ cs) k n w x =
    let r = with_borrow k (u64 (d + 2 ^ 64 - c)) in
    let (e, small) = component_lem d c k w.0 x.0 in
    let (sum, words, len) = sub_components_lem ds cs (r / 2 ^ 32) (omega (arith, n)) w.1 x.1 in
    (omega (arith, e, sum), (small, words), omega (arith, len))

borrow_components_lem :
    (ds : List ℕ) (k : ℕ)
    → AreWords ds
    → let (rs, k') = borrow_components ds k in
      (value rs + unit k ≡ value ds + span ds * unit k') × AreWords rs × (length rs ≡ length ds)
unfolding borrow_components
borrow_components_lem [] k w = (omega arith, tt, refl)
borrow_components_lem (d ∷ ds) k w =
    let r = with_borrow k d in
    let (e, small) = borrow_lem d k w.0 in
    let (sum, words, len) = borrow_components_lem ds (r / 2 ^ 32) w.1 in
    (omega (arith, e, sum), (small, words), omega (arith, len))

unit-one : (k : ℕ) → (k == 0) ≡ false → unit k ≡ 1
unit-one k h = ground arith

borrow_through_lem :
    (bc : List Chunk) (k : ℕ)
    → AreChunks bc
    → unit k ≤ magnitude bc
    → let rs = borrow_through bc bc k in
      (magnitude rs + unit k ≡ magnitude bc) × AreChunks rs × (length rs ≡ length bc)
unfolding borrow_through
borrow_through_lem [] k w h = (omega (arith, h), tt, refl)
borrow_through_lem (b ∷ bc) k w h =
    let (r, k') = borrow_components b k in
    let (e, words, len) = borrow_components_lem b k w.0.1 in
    let wide = span-chunk b w.0.0 in
    let chunk : value r + unit k ≡ value b + 2 ^ 128 * unit k' =
      omega (arith, e, ap (λ t. t * unit k') wide) in
    let below = chunk-lt r (len ∙ w.0.0, words) in
    let (m, c, l) = borrow_through_lem bc k' w.1 (omega (arith, chunk, below, h)) in
    elim (Bool-cases (k == 0)) [
      | inl z ↦ rw z (omega arith, w, refl)
      | inr nz ↦
          rw nz ((omega (arith, m, chunk, unit-one k nz)), ((len ∙ w.0.0, words), c), ap suc l)
    ]

-- the chunks of a pair with the borrow
chunk_lem :
    (b s : Chunk) (k : ℕ)
    → IsChunk b
    → IsChunk s
    → let (r, k') = sub_components b s k in
      (value r + value s + unit k ≡ value b + 2 ^ 128 * unit k') × IsChunk r
chunk_lem b s k w x =
    let (r, k') = sub_components b s k in
    let (e, words, len) = sub_components_lem b s k (w.0 ∙ sym x.0) w.1 x.1 in
    (omega (arith, e, ap (λ t. t * unit k') (span-chunk b w.0)), (len ∙ w.0, words))

-- `dst` is `big`
sub_chains-big :
    (bc sc : List Chunk) (k : ℕ)
    → length sc ≤ length bc
    → AreChunks bc
    → AreChunks sc
    → magnitude sc + unit k ≤ magnitude bc
    → let rs = sub_chains bc bc sc k in
      (magnitude rs + magnitude sc + unit k ≡ magnitude bc) × AreChunks rs × (length rs ≡ length bc)
unfolding sub_chains borrow_through
sub_chains-big [] [] k n w x h = (omega (arith, h), tt, refl)
sub_chains-big [] (s ∷ sc) k n w x h = absurd (omega (arith, n))
sub_chains-big (b ∷ bc) [] k n w x h =
    let (m, c, l) = borrow_through_lem (b ∷ bc) k w (omega (arith, h)) in (omega (arith, m), c, l)
sub_chains-big (b ∷ bc) (s ∷ sc) k n w x h =
    let (r, k') = sub_components b s k in
    let (e, chunk) = chunk_lem b s k w.0 x.0 in
    let (m, c, l) =
      sub_chains-big bc sc k' (omega (arith, n)) w.1 x.1 (omega (arith, e, h, chunk-lt r chunk)) in
    (omega (arith, m, e), (chunk, c), ap suc l)

-- `dst` is `small`, and may have zero chunks above those of `big`
sub_chains-small :
    (bc sc : List Chunk) (k : ℕ)
    → length bc ≤ length sc
    → AreChunks bc
    → AreChunks sc
    → magnitude sc + unit k ≤ magnitude bc
    → let rs = sub_chains sc bc sc k in
      (magnitude rs + magnitude sc + unit k ≡ magnitude bc) × AreChunks rs × (length rs ≡ length sc)
unfolding sub_chains borrow_through
sub_chains-small [] [] k n w x h = (omega (arith, h), tt, refl)
sub_chains-small (b ∷ bc) [] k n w x h = absurd (omega (arith, n))
sub_chains-small [] (s ∷ sc) k n w x h = (omega (arith, h), x, refl)
sub_chains-small (b ∷ bc) (s ∷ sc) k n w x h =
    let (r, k') = sub_components b s k in
    let (e, chunk) = chunk_lem b s k w.0 x.0 in
    let (m, c, l) =
      sub_chains-small bc sc k' (omega (arith, n)) w.1 x.1
        (omega (arith, e, h, chunk-lt r chunk)) in
    (omega (arith, m, e), (chunk, c), ap suc l)

-- `mag_sub` of a number that is no larger, in place
pub mag_sub-big :
    (bc sc : List Chunk)
    → 0 < length bc
    → length sc ≤ length bc
    → AreChunks bc
    → AreChunks sc
    → magnitude sc ≤ magnitude bc
    → let rs = mag_sub bc bc sc in IsDigits rs × (magnitude rs + magnitude sc ≡ magnitude bc)
unfolding mag_sub
mag_sub-big bc sc some_chunk n w x h =
    let (m, c, l) = sub_chains-big bc sc 0 n w x (omega (arith, h)) in
    let (digits, same) =
      trim_chunks-IsDigits (sub_chains bc bc sc 0) (omega (arith, l, some_chunk)) c in
    (digits, omega (arith, same, m))

-- `mag_sub` into the smaller number, which has been extended
pub mag_sub-small :
    (bc sc : List Chunk)
    → 0 < length sc
    → length bc ≤ length sc
    → AreChunks bc
    → AreChunks sc
    → magnitude sc ≤ magnitude bc
    → let rs = mag_sub sc bc sc in IsDigits rs × (magnitude rs + magnitude sc ≡ magnitude bc)
unfolding mag_sub
mag_sub-small bc sc some_chunk n w x h =
    let (m, c, l) = sub_chains-small bc sc 0 n w x (omega (arith, h)) in
    let (digits, same) =
      trim_chunks-IsDigits (sub_chains sc bc sc 0) (omega (arith, l, some_chunk)) c in
    (digits, omega (arith, same, m))

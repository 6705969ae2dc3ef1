-- ===== src/Rbt/Height.antt =====
-- Red-black trees are shallow: `MAX_H` of src/rbt.c, 128, is no less than the height of any tree of
-- fewer than 2 ^ 64 nodes.
use native.Mathlib.Nat.{pow-suc, one-le-pow, zero-add}
use libdlb.Base.{
  Bool, true, false, ◌&&◌, ◌||◌, ℕ, zero, suc, ◌+◌, ◌*◌, ◌^◌, ◌≤◌, ◌<◌, ◌≡◌, max, arith, length,
  length-append, if◌then◌else◌,
}
use libdlb.Rbt.{Tree, leaf, node, is_red}
use libdlb.Rbt.Shape.{to_list, black_height, IsBalanced, IsRedBlack}

abbrev pub max_h : ℕ
max_h = 128

pow_le_cancel : (a b : ℕ) → 2 ^ a ≤ 2 ^ b → a ≤ b
pow_le_cancel zero b h = omega arith
pow_le_cancel (suc a) zero h = absurd (omega (arith, pow-suc 2 a, one-le-pow a 2))
pow_le_cancel (suc a) (suc b) h =
    let ih = pow_le_cancel a b (omega (arith, pow-suc 2 a, pow-suc 2 b)) in omega arith

-- a red root may stand above one more red level
abbrev slack : Bool → ℕ
slack b = if b then 1 else 0

height_step :
    (x l r : Bool) (bl br hl hr : ℕ)
    → bl ≡ br
    → (x && (l || r)) ≡ false
    → hl ≤ 2 * bl + slack l
    → hr ≤ 2 * br + slack r
    → suc (max hl hr) ≤ 2 * ((if x then 0 else 1) + bl) + slack x
height_step true true r bl br hl hr e c p q = cc
height_step true false true bl br hl hr e c p q = cc
height_step true false false bl br hl hr e c p q = omega arith
height_step false true true bl br hl hr e c p q = omega arith
height_step false true false bl br hl hr e c p q = omega arith
height_step false false true bl br hl hr e c p q = omega arith
height_step false false false bl br hl hr e c p q = omega arith

pow_step :
    (x : Bool) (b m n : ℕ)
    → 2 ^ b ≤ m + 1
    → 2 ^ b ≤ n + 1
    → 2 ^ ((if x then 0 else 1) + b) ≤ m + suc n + 1
pow_step true b m n p q = rw zero-add (omega arith)
pow_step false b m n p q = let e : 1 + b ≡ suc b = omega arith in rw e (omega (arith, pow-suc 2 b))

module _ {A : Type 0} where
  -- the longest way from the root down to NULL
  abbrev pub height : Tree A → ℕ
  height leaf = 0
  height (node l x r) = suc (max (height l) (height r))

  height-le :
      (t : Tree A) → IsBalanced t → height t ≤ 2 * black_height t + (if is_red t then 1 else 0)
  height-le leaf b = omega arith
  height-le (node l x r) b =
      height_step x.red (is_red l) (is_red r) (black_height l) (black_height r) (height l)
        (height r) b.0 b.1 (height-le l b.2) (height-le r b.3)

  pow_black_height-le : (t : Tree A) → IsBalanced t → 2 ^ black_height t ≤ length (to_list t) + 1
  pow_black_height-le leaf b = omega arith
  pow_black_height-le (node l x r) b = rw length-append (
      pow_step x.red (black_height l) (length (to_list l)) (length (to_list r))
        (pow_black_height-le l b.2) (let e = b.0 in rw e (pow_black_height-le r b.3)))

  -- The height of a red-black tree is at most twice its black height, and that is logarithmic in the
  -- number of its nodes.
  pub height-bound :
      (t : Tree A)
      → IsRedBlack t
      → (height t ≤ 2 * black_height t) × (2 ^ black_height t ≤ length (to_list t) + 1)
  height-bound t (b, c) = (ground (arith, height-le t b), pow_black_height-le t b)

  pub height-le-max_h : (t : Tree A) → IsRedBlack t → length (to_list t) < 2 ^ 64 → height t ≤ max_h
  height-le-max_h t rb h =
      let (a, b) = height-bound t rb in
      omega (arith, pow_le_cancel (black_height t) 64 (omega arith))

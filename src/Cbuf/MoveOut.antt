-- ===== src/Cbuf/MoveOut.antt =====
-- `cbuf_move_out`: how many bytes it hands out, and which.
use libdlb.Base.{
  ℕ, false, zero, suc, ◌+◌, ◌-◌, ◌^◌, ◌≤◌, ◌<◌, ◌≡◌, ◌==◌, refl, ap, ◌∙◌, subst, sym, inl, inr,
  true, List, ◌++◌, done, arith, length, min, get_or, take, drop, tabulate_congr, take-eq-tabulate,
  Bool-cases, leb, ◌&&◌, drop, length-drop, list_ext, ltb, if◌then◌else◌,
}
use libdlb.Base.Words.{add_size, sub_size}
use libdlb.Base.Memory.{memcpy, memcpy-done, get_or-drop}
use libdlb.Cbuf.{Cbuf, lesser, head_size, head_data, head_advance, move_out, move_out_loop}
use libdlb.Cbuf.Inv.{IsValid, head_region}
use libdlb.Cbuf.Contents.{
  byte, contents, Drops, Drops-none, Drops-trans, Drops-contents, byte-head, head_advance-Drops,
}

-- The loop of `cbuf_move_out` from `count` on returns, having handed out as much as is there and fits.
record MovedOut (c : Cbuf) (dst : List ℕ) (count n : ℕ) (c' : Cbuf) (out : List ℕ) : Type 0 where
  rest : Drops c n c'
  same_length : length out ≡ length dst
  written :
      (j : ℕ)
      → get_or out j 0
        ≡ (if leb count j && ltb j (count + n) then byte c (j - count) else get_or dst j 0)

abbrev MovesOut : ℕ → Cbuf → List ℕ → ℕ → ℕ → Type 0
MovesOut fuel c dst max_size count =
    let n = min (max_size - count) c.size in
    (c' : Cbuf) × (out : List ℕ) × (move_out_loop fuel c dst max_size count
      ≡ done (count + n, c', out))
    × MovedOut c dst count n c' out

MovedOut-none : {c : Cbuf} (dst : List ℕ) (count : ℕ) → IsValid c → MovedOut c dst count 0 c dst
MovedOut-none dst count v = record {
  rest = Drops-none v;
  same_length = refl;
  written = λ j. ground arith;
}

MovedOut-trans :
    {c c' c'' : Cbuf} {dst area out : List ℕ} (count m n : ℕ)
    → MovedOut c dst count m c' area
    → MovedOut c' area (count + m) n c'' out
    → MovedOut c dst count (m + n) c'' out
MovedOut-trans {c} {dst} count m n a b = record {
  rest = Drops-trans m n a.rest b.rest;
  same_length = b.same_length ∙ a.same_length;
  written = λ j. ground (arith, a.written j, b.written j, a.rest.bytes (j - (count + m)));
}

module _ (max_size : ℕ) (small : max_size < 2 ^ 64) where
  MovesOut-stop :
      (fuel count : ℕ) (dst : List ℕ) {c : Cbuf}
      → IsValid c
      → count ≤ max_size
      → (lesser (head_size c) (sub_size max_size count) == 0) ≡ true
      → MovesOut (suc fuel) c dst max_size count
  unfolding move_out_loop
  MovesOut-stop fuel count dst {c} v le stop =
      let e : min (max_size - count) c.size ≡ 0 = ground (arith, head_region v) in
      (
        c,
        dst,
        rw (stop, move_out_loop) (ap (λ k. done (k, c, dst)) (omega arith)),
        rw e (MovedOut-none dst count v),
      )

  -- one round that moves some bytes, before the rounds that the last premise describes
  MovesOut-next :
      (fuel count : ℕ) {c c₁ : Cbuf} (dst area : List ℕ)
      → let x = lesser (head_size c) (sub_size max_size count) in
        IsValid c
        → count ≤ max_size
        → (x == 0) ≡ false
        → memcpy dst count c.mem (head_data c) x ≡ done area
        → c₁ ≡ head_advance c x
        → MovedOut c dst count x c₁ area
        → MovesOut fuel c₁ area max_size (add_size count x)
        → MovesOut (suc fuel) c dst max_size count
  unfolding move_out_loop
  MovesOut-next fuel count {c} {c₁} dst area v le more copied ec step (c', out, runs, rest) =
      let x = lesser (head_size c) (sub_size max_size count) in
      let m = min (max_size - add_size count x) c₁.size in
      let now : add_size count x ≡ count + x = ground arith in
      let n : min (max_size - count) c.size ≡ x + m =
        ground (arith, now, step.rest.size, head_region v) in
      (
        c',
        out,
        rw (more, copied, ← ec, runs, move_out_loop)
            (ap (λ k. done (k, c', out)) (omega (arith, now, n))),
        rw n (MovedOut-trans count x m step (subst (λ k. MovedOut c₁ area k m c' out) now rest)),
      )

  -- one copy out of the consumer's area
  copy-MovedOut :
      (dst : List ℕ) (count x : ℕ) {c : Cbuf}
      → IsValid c
      → x ≤ head_size c
      → count + x ≤ length dst
      → (area : List ℕ) × (memcpy dst count c.mem (head_data c) x ≡ done area)
        × MovedOut c dst count x (head_advance c x) area
  copy-MovedOut dst count x {c} v fits room =
      let (area, copied, same, at) =
        memcpy-done dst count c.mem c.head x room (omega (arith, head_region v, v.storage)) in
      (
        area,
        copied,
        record {
          rest = head_advance-Drops x v (omega (arith, head_region v));
          same_length = same;
          written = λ j. ground (arith, at j, byte-head (j - count) v);
        },
      )

  move_out_loop-MovesOut :
      (fuel count : ℕ) (dst : List ℕ) {c : Cbuf}
      → IsValid c
      → max_size ≤ length dst
      → count ≤ max_size
      → max_size - count < fuel
      → MovesOut fuel c dst max_size count
  move_out_loop-MovesOut zero count dst v room le enough = absurd (omega arith)
  move_out_loop-MovesOut (suc fuel) count dst {c} v room le enough =
      let x = lesser (head_size c) (sub_size max_size count) in
      elim (Bool-cases (x == 0)) [
        | inl stop ↦ MovesOut-stop fuel count dst v le stop
        | inr more ↦
            let (area, copied, step) = copy-MovedOut dst count x v (ground arith) (ground arith) in
            MovesOut-next fuel count dst area v le more copied refl step (
              move_out_loop-MovesOut fuel (add_size count x) area step.rest.valid
                (omega (arith, step.same_length)) (ground arith) (ground arith))
      ]

-- `cbuf_move_out` of `n` bytes returns the lesser of `n` and the bytes held, `k`; the first `k` bytes
-- of the destination, followed by what the buffer then holds, are what it held. The other bytes of
-- the destination are unchanged, no copy leaves its area, and the invariant is kept.
pub move_out-Drops :
    {c : Cbuf} (dst : List ℕ) (n : ℕ)
    → IsValid c
    → n ≤ length dst
    → n < 2 ^ 64
    → let k = min n c.size in
      (c' : Cbuf) × (out : List ℕ) × (move_out c dst n ≡ done (k, c', out))
      × IsValid c'
      × (contents c ≡ take k out ++ contents c')
      × (drop k out ≡ drop k dst)
unfolding move_out
move_out-Drops {c} dst n v room small =
    let (c', out, runs, moved) =
      move_out_loop-MovesOut n small (n + 1) 0 dst v room (omega arith) (omega arith) in
    let k = min n c.size in
    let e : min (n - 0) c.size ≡ k = omega arith in
    let got : MovedOut c dst 0 k c' out = subst (λ t. MovedOut c dst 0 t c' out) e moved in
    (
      c',
      out,
      runs ∙ ap (λ k. done (k, c', out)) (omega arith),
      got.rest.valid,
      Drops-contents k got.rest
          ∙ ap (λ t. t ++ contents c')
              (sym (
                take-eq-tabulate k out 0 (omega (arith, got.same_length))
                ∙ tabulate_congr k (λ i. get_or out i 0) (byte c)
                    (λ i p. ground (arith, got.written i)))),
      list_ext 0 (drop k out) (drop k dst)
          (omega (arith, length-drop k out, length-drop k dst, got.same_length))
          (λ i. ground (arith, get_or-drop k out i, get_or-drop k dst i, got.written (k + i))),
    )

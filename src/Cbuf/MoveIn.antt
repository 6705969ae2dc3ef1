-- ===== src/Cbuf/MoveIn.antt =====
-- `cbuf_move_in`: how many bytes it takes, and which.
use libdlb.Base.{
  ℕ, false, zero, suc, ◌+◌, ◌-◌, ◌^◌, ◌≤◌, ◌<◌, ◌≡◌, ◌==◌, refl, ap, ◌∙◌, sym, inl, inr, true, List,
  ◌++◌, done, arith, length, min, get_or, take, tabulate, tabulate_congr, take-eq-tabulate,
  length-tabulate, Bool-cases,
}
use libdlb.Base.Words.{add_size, sub_size}
use libdlb.Base.Memory.{memcpy}
use libdlb.Cbuf.{Cbuf, lesser, tail_size, tail_data, tail_advance, move_in, move_in_loop}
use libdlb.Cbuf.Inv.{IsValid, tail_region}
use libdlb.Cbuf.Contents.{contents, Adds, Adds-nil, Adds-size, Adds-trans, fill-Adds}

-- The loop of `cbuf_move_in` from `count` on returns, having moved as much as source and space allow.
abbrev MovesIn : ℕ → Cbuf → List ℕ → ℕ → ℕ → Type 0
MovesIn fuel c src max_size count =
    let n = min (max_size - count) (c.capacity - c.size) in
    (c' : Cbuf) × (move_in_loop fuel c src max_size count ≡ done (count + n, c'))
    × Adds c (tabulate n (λ i. get_or src (count + i) 0)) c'

module _ (src : List ℕ) (max_size : ℕ) (small : max_size < 2 ^ 64) where
  MovesIn-stop :
      (fuel count : ℕ) {c : Cbuf}
      → IsValid c
      → count ≤ max_size
      → (lesser (tail_size c) (sub_size max_size count) == 0) ≡ true
      → MovesIn (suc fuel) c src max_size count
  unfolding move_in_loop
  MovesIn-stop fuel count {c} v le stop =
      let e : min (max_size - count) (c.capacity - c.size) ≡ 0 = ground (arith, tail_region v) in
      (
        c,
        rw (stop, move_in_loop) (ap (λ k. done (k, c)) (omega arith)),
        rw e (Adds-nil (λ i. get_or src (count + i) 0) v),
      )

  -- one round that moves `x` bytes, before the rounds that `rest` describes
  MovesIn-next :
      (fuel count : ℕ) {c c₁ : Cbuf} (area : List ℕ)
      → let x = lesser (tail_size c) (sub_size max_size count) in
        IsValid c
        → count ≤ max_size
        → (x == 0) ≡ false
        → memcpy c.mem (tail_data c) src count x ≡ done area
        → c₁ ≡ tail_advance (record c { mem = area }) x
        → Adds c (tabulate x (λ i. get_or src (count + i) 0)) c₁
        → MovesIn fuel c₁ src max_size (add_size count x)
        → MovesIn (suc fuel) c src max_size count
  unfolding move_in_loop
  MovesIn-next fuel count {c} {c₁} area v le more copied ec adds (c', runs, rest) =
      let x = lesser (tail_size c) (sub_size max_size count) in
      let f : ℕ → ℕ = λ i. get_or src (count + i) 0 in
      let m = min (max_size - add_size count x) (c₁.capacity - c₁.size) in
      let now : add_size count x ≡ count + x = ground arith in
      let n : min (max_size - count) (c.capacity - c.size) ≡ x + m =
        ground (arith, now, Adds-size adds, length-tabulate x f, tail_region v) in
      (
        c',
        rw (more, copied, ← ec, runs, move_in_loop)
            (ap (λ k. done (k, c')) (omega (arith, now, n))),
        rw n (
            Adds-trans x m f (λ i. get_or src (add_size count x + i) 0)
              (λ i. ap (λ k. get_or src k 0) (omega (arith, now))) adds rest),
      )

  move_in_loop-MovesIn :
      (fuel count : ℕ) {c : Cbuf}
      → IsValid c
      → max_size ≤ length src
      → count ≤ max_size
      → max_size - count < fuel
      → MovesIn fuel c src max_size count
  move_in_loop-MovesIn zero count v read le enough = absurd (omega arith)
  move_in_loop-MovesIn (suc fuel) count {c} v read le enough =
      let x = lesser (tail_size c) (sub_size max_size count) in
      elim (Bool-cases (x == 0)) [
        | inl stop ↦ MovesIn-stop fuel count v le stop
        | inr more ↦
            let (area, copied, adds) = fill-Adds src count x v (ground arith) (ground arith) in
            MovesIn-next fuel count area v le more copied refl adds (
              move_in_loop-MovesIn fuel (add_size count x) adds.valid read (ground arith)
                (ground arith))
      ]

-- `cbuf_move_in` of `n` bytes returns the lesser of `n` and the free space, and puts just that many
-- bytes of the source behind the newest. No copy leaves its area, and the invariant is kept.
pub move_in-Adds :
    {c : Cbuf} (src : List ℕ) (n : ℕ)
    → IsValid c
    → n ≤ length src
    → n < 2 ^ 64
    → (c' : Cbuf) × (move_in c src n ≡ done (min n (c.capacity - c.size), c'))
      × IsValid c'
      × (contents c' ≡ contents c ++ take (min n (c.capacity - c.size)) src)
unfolding move_in
move_in-Adds {c} src n v read small =
    let (c', runs, adds) =
      move_in_loop-MovesIn src n small (n + 1) 0 v read (omega arith) (omega arith) in
    let k = min n (c.capacity - c.size) in
    (
      c',
      runs ∙ ap (λ k. done (k, c')) (omega arith),
      adds.valid,
      adds.bytes
          ∙ ap (λ t. contents c ++ t)
              (ap (λ k. tabulate k (λ i. get_or src (0 + i) 0)) (omega arith)
                ∙ (tabulate_congr k (λ i. get_or src (0 + i) 0) (λ i. get_or src i 0)
                      (λ i p. ap (λ k. get_or src k 0) (omega arith))
                    ∙ sym (take-eq-tabulate k src 0 (omega arith)))),
    )

-- ===== src/Cbuf/Between.antt =====
-- `cbuf_move` between two buffers: how many bytes it moves, and which.
use libdlb.Base.{
  ℕ, false, zero, suc, ◌+◌, ◌-◌, ◌^◌, ◌≤◌, ◌<◌, ◌≡◌, ◌==◌, refl, ap, ◌∙◌, subst, sym, inl, inr,
  true, List, ◌++◌, done, arith, length, min, get_or, tabulate, tabulate_congr, length-tabulate,
  Bool-cases, if◌then◌else◌,
}
use libdlb.Base.Words.{add_size, sub_size}
use libdlb.Base.Memory.{memcpy}
use libdlb.Cbuf.{
  Cbuf, lesser, tail_size, head_size, tail_data, head_data, head_advance, tail_advance, move,
  move_loop,
}
use libdlb.Cbuf.Inv.{IsValid, tail_region, head_region}
use libdlb.Cbuf.Contents.{
  byte, contents, Adds, Adds-nil, Adds-size, Adds-trans, Drops, Drops-none, Drops-trans,
  Drops-contents, byte-head, fill-Adds, head_advance-Drops,
}

-- The loop of `cbuf_move` from `count` on returns, having moved as much as is there and fits.
abbrev Moves : ℕ → Cbuf → Cbuf → ℕ → ℕ → Type 0
Moves fuel dst src max_size count =
    let n = min (max_size - count) (min src.size (dst.capacity - dst.size)) in
    (dst' : Cbuf) × (src' : Cbuf) × (move_loop fuel dst src max_size count
      ≡ done (count + n, dst', src'))
    × Adds dst (tabulate n (byte src)) dst'
    × Drops src n src'

module _ (max_size : ℕ) (small : max_size < 2 ^ 64) where
  Moves-stop :
      (fuel count : ℕ) {dst src : Cbuf}
      → IsValid dst
      → IsValid src
      → count ≤ max_size
      → (lesser (lesser (head_size src) (tail_size dst)) (sub_size max_size count) == 0) ≡ true
      → Moves (suc fuel) dst src max_size count
  unfolding move_loop
  Moves-stop fuel count {dst} {src} v w le stop =
      let e : min (max_size - count) (min src.size (dst.capacity - dst.size)) ≡ 0 =
        ground (arith, tail_region v, head_region w) in
      (
        dst,
        src,
        rw (stop, move_loop) (ap (λ k. done (k, dst, src)) (omega arith)),
        rw e (Adds-nil (byte src) v),
        rw e (Drops-none w),
      )

  -- one round that moves some bytes, before the rounds that the last premise describes
  Moves-next :
      (fuel count : ℕ) {dst dst₁ src src₁ : Cbuf} (area : List ℕ)
      → let y = lesser (lesser (head_size src) (tail_size dst)) (sub_size max_size count) in
        IsValid dst
        → IsValid src
        → count ≤ max_size
        → (y == 0) ≡ false
        → memcpy dst.mem (tail_data dst) src.mem (head_data src) y ≡ done area
        → dst₁ ≡ tail_advance (record dst { mem = area }) y
        → src₁ ≡ head_advance src y
        → Adds dst (tabulate y (byte src)) dst₁
        → Drops src y src₁
        → Moves fuel dst₁ src₁ max_size (add_size count y)
        → Moves (suc fuel) dst src max_size count
  unfolding move_loop
  Moves-next fuel count {dst} {dst₁} {src} {src₁} area v w le more copied ed es adds drops
        (dst', src', runs, adds', drops') =
      let y = lesser (lesser (head_size src) (tail_size dst)) (sub_size max_size count) in
      let m = min (max_size - add_size count y) (min src₁.size (dst₁.capacity - dst₁.size)) in
      let now : add_size count y ≡ count + y = ground arith in
      let n : min (max_size - count) (min src.size (dst.capacity - dst.size)) ≡ y + m = ground (
        arith,
        now,
        drops.size,
        Adds-size adds,
        length-tabulate y (byte src),
        tail_region v,
        head_region w,
      ) in
      (
        dst',
        src',
        rw (more, copied, ← ed, ← es, runs, move_loop)
            (ap (λ k. done (k, dst', src')) (omega (arith, now, n))),
        rw n (Adds-trans y m (byte src) (byte src₁) drops.bytes adds adds'),
        rw n (Drops-trans y m drops drops'),
      )

  -- one copy from the consumer's area of one buffer to the producer's area of the other
  copy-Adds :
      (y : ℕ) {dst src : Cbuf}
      → IsValid dst
      → IsValid src
      → y ≤ tail_size dst
      → y ≤ head_size src
      → (area : List ℕ) × (memcpy dst.mem (tail_data dst) src.mem (head_data src) y ≡ done area)
        × Adds dst (tabulate y (byte src)) (tail_advance (record dst { mem = area }) y)
  copy-Adds y {dst} {src} v w room fits =
      let (area, copied, adds) =
        fill-Adds src.mem src.head y v room (omega (arith, head_region w, w.storage)) in
      (
        area,
        copied,
        subst (λ t. Adds dst t (tail_advance (record dst { mem = area }) y))
            (tabulate_congr y (λ i. get_or src.mem (src.head + i) 0) (byte src)
              (λ i p. sym (byte-head i w (omega arith))))
            adds,
      )

  move_loop-Moves :
      (fuel count : ℕ) {dst src : Cbuf}
      → IsValid dst
      → IsValid src
      → count ≤ max_size
      → max_size - count < fuel
      → Moves fuel dst src max_size count
  move_loop-Moves zero count v w le enough = absurd (omega arith)
  move_loop-Moves (suc fuel) count {dst} {src} v w le enough =
      let y = lesser (lesser (head_size src) (tail_size dst)) (sub_size max_size count) in
      elim (Bool-cases (y == 0)) [
        | inl stop ↦ Moves-stop fuel count v w le stop
        | inr more ↦
            let (area, copied, adds) = copy-Adds y v w (ground arith) (ground arith) in
            let drops = head_advance-Drops y w (ground (arith, head_region w)) in
            Moves-next fuel count area v w le more copied refl refl adds drops (
              move_loop-Moves fuel (add_size count y) adds.valid drops.valid (ground arith)
                (ground arith))
      ]

-- `cbuf_move` between two buffers returns the least of the limit (all that the source holds, if
-- `max_size` is 0), the bytes in the source and the space in the destination. It moves just that
-- many of the oldest bytes of the source behind the newest of the destination, no copy leaves its
-- area, and the invariant of both is kept.
pub move_lem :
    {dst src : Cbuf} (max_size : ℕ)
    → IsValid dst
    → IsValid src
    → max_size < 2 ^ 64
    → let limit = if max_size == 0 then src.size else max_size in
      let n = min limit (min src.size (dst.capacity - dst.size)) in
      (dst' : Cbuf) × (src' : Cbuf) × (moved : List ℕ) × (move dst src max_size
        ≡ done (n, dst', src'))
      × IsValid dst'
      × IsValid src'
      × (length moved ≡ n)
      × (contents src ≡ moved ++ contents src')
      × (contents dst' ≡ contents dst ++ moved)
unfolding move
move_lem {dst} {src} max_size v w small =
    let limit = if max_size == 0 then src.size else max_size in
    let n = min limit (min src.size (dst.capacity - dst.size)) in
    let (dst', src', runs, adds, drops) =
      move_loop-Moves limit (ground arith) (limit + 1) 0 v w (omega arith) (omega arith) in
    let e : min (limit - 0) (min src.size (dst.capacity - dst.size)) ≡ n = omega arith in
    (
      dst',
      src',
      tabulate n (byte src),
      runs ∙ ap (λ k. done (k, dst', src')) (omega arith),
      adds.valid,
      drops.valid,
      length-tabulate n (byte src),
      Drops-contents n (subst (λ k. Drops src k src') e drops),
      adds.bytes ∙ ap (λ k. contents dst ++ tabulate k (byte src)) e,
    )

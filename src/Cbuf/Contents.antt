-- ===== src/Cbuf/Contents.antt =====
-- The bytes that a circular buffer holds, oldest first, and what advancing the head and filling the
-- tail do to them.
use native.Mathlib.Nat.{mod-add-mod, mod-eq_of_lt}
use libdlb.Base.{
  min, subst, ℕ, ◌+◌, ◌-◌, ◌%◌, ◌^◌, ◌≤◌, ◌<◌, ◌≡◌, refl, ap, ap₂, ◌∙◌, sym, List, ◌++◌, append-nil,
  append_assoc, done, arith, length, get_or, tabulate, tabulate_congr, tabulate_add, length-append,
  length-tabulate, ltb, leb, if◌then◌else◌, ◌&&◌,
}
use libdlb.Base.Memory.{memcpy, memcpy-done}
use libdlb.Cbuf.{Cbuf, tail, tail_size, head_size, head_advance, tail_advance}
use libdlb.Cbuf.Inv.{IsValid, mod_round, tail_lem, tail_region, avail_lem, head_region}

-- the `i`-th oldest byte
abbrev pub byte : Cbuf → ℕ → ℕ
byte c i = get_or c.mem ((c.head + i) % c.capacity) 0

abbrev pub contents : Cbuf → List ℕ
contents c = tabulate c.size (byte c)

-- `c'` is `c` less its `n` oldest bytes.
pub record Drops (c : Cbuf) (n : ℕ) (c' : Cbuf) : Type 0 where
  pub valid : IsValid c'
  pub area : c'.mem ≡ c.mem
  pub capacity : c'.capacity ≡ c.capacity
  pub size : c'.size + n ≡ c.size
  pub bytes : (i : ℕ) → byte c' i ≡ byte c (n + i)

-- `c'` is `c` with the bytes `xs` behind the newest.
pub record Adds (c : Cbuf) (xs : List ℕ) (c' : Cbuf) : Type 0 where
  pub valid : IsValid c'
  pub area : length c'.mem ≡ length c.mem
  pub capacity : c'.capacity ≡ c.capacity
  pub bytes : contents c' ≡ contents c ++ xs

pub Adds-nil : {c : Cbuf} (f : ℕ → ℕ) → IsValid c → Adds c (tabulate 0 f) c
Adds-nil {c} f v = record {
  valid = v;
  area = refl;
  capacity = refl;
  bytes = sym (append-nil (contents c));
}

pub Adds-size : {c c' : Cbuf} {xs : List ℕ} → Adds c xs c' → c'.size ≡ c.size + length xs
Adds-size {c} {c'} {xs} a = omega (
  arith,
  ap length a.bytes,
  length-append (contents c) xs,
  length-tabulate c.size (byte c),
  length-tabulate c'.size (byte c'),
)

-- two transfers in a row, of `m` and `n` items of one sequence
pub Adds-trans :
    {c c' c'' : Cbuf} (m n : ℕ) (f g : ℕ → ℕ)
    → ((i : ℕ) → g i ≡ f (m + i))
    → Adds c (tabulate m f) c'
    → Adds c' (tabulate n g) c''
    → Adds c (tabulate (m + n) f) c''
Adds-trans {c} {c'} {c''} m n f g e a b = record {
  valid = b.valid;
  area = b.area ∙ a.area;
  capacity = b.capacity ∙ a.capacity;
  bytes =
      b.bytes
      ∙ (ap (λ t. t ++ tabulate n g) a.bytes
          ∙ (append_assoc (contents c) (tabulate m f) (tabulate n g)
              ∙ ap (λ t. contents c ++ t)
                  (ap (λ t. tabulate m f ++ t) (tabulate_congr n g (λ i. f (m + i)) (λ i p. e i))
                    ∙ sym (tabulate_add m n f))));
}

pub Drops-none : {c : Cbuf} → IsValid c → Drops c 0 c
Drops-none {c} v = record {
  valid = v;
  area = refl;
  capacity = refl;
  size = omega arith;
  bytes = λ i. ap (byte c) (omega arith);
}

pub Drops-trans : {c c' c'' : Cbuf} (m n : ℕ) → Drops c m c' → Drops c' n c'' → Drops c (m + n) c''
Drops-trans {c} {c'} {c''} m n a b = record {
  valid = b.valid;
  area = b.area ∙ a.area;
  capacity = b.capacity ∙ a.capacity;
  size = omega (arith, a.size, b.size);
  bytes = λ i. b.bytes i ∙ (a.bytes (n + i) ∙ ap (byte c) (omega arith));
}

pub Drops-contents :
    {c c' : Cbuf} (n : ℕ) → Drops c n c' → contents c ≡ tabulate n (byte c) ++ contents c'
Drops-contents {c} {c'} n d =
    ap (λ k. tabulate k (byte c)) (omega (arith, d.size))
    ∙ (tabulate_add n c'.size (byte c)
        ∙ ap (λ t. tabulate n (byte c) ++ t)
            (tabulate_congr c'.size (λ i. byte c (n + i)) (byte c') (λ i p. sym (d.bytes i))))

-- The consumer's area holds the oldest bytes.
pub byte-head :
    {c : Cbuf} (i : ℕ) → IsValid c → i < head_size c → byte c i ≡ get_or c.mem (c.head + i) 0
byte-head {c} i v p = ap (λ k. get_or c.mem k 0) (mod-eq_of_lt (omega (arith, head_region v)))

-- In the range that it is used in, `cbuf_head_advance` takes no cut and does not wrap.
pub head_advance-Drops : {c : Cbuf} (n : ℕ) → IsValid c → n ≤ c.size → Drops c n (head_advance c n)
unfolding head_advance
head_advance-Drops {c} n v h = record {
  valid = ground (arith, shape);
  area = refl;
  capacity = refl;
  size = ground arith;
  bytes = λ i.
      ap (λ k. get_or c.mem k 0)
        (ap (λ (d : Cbuf). (d.head + i) % c.capacity) shape
          ∙ (mod-add-mod (c.head + n) c.capacity i ∙ ap (λ k. k % c.capacity) (omega arith)));
}
  where
    shape : head_advance c n ≡ record c { size = c.size - n; head = (c.head + n) % c.capacity }
    shape = ground (arith, mod-eq_of_lt {n = c.head + n} {m = 2 ^ 64} (omega arith))

pub tail_advance_lem :
    {c : Cbuf} (n : ℕ)
    → IsValid c
    → c.size + n ≤ c.capacity
    → tail_advance c n ≡ record c { size = c.size + n }
unfolding tail_advance
tail_advance_lem {c} n v h = ground (arith, avail_lem v)

-- Filling the producer's area: the copy stays inside both areas, and the bytes go behind the newest.
pub fill-Adds :
    {c : Cbuf} (src : List ℕ) (from x : ℕ)
    → IsValid c
    → x ≤ tail_size c
    → from + x ≤ length src
    → (area : List ℕ) × (memcpy c.mem (tail c) src from x ≡ done area)
      × Adds c
          (tabulate x (λ i. get_or src (from + i) 0))
          (tail_advance (record c { mem = area }) x)
fill-Adds {c} src from x v fits read =
    let (area, copied, same, at) =
      memcpy-done c.mem (tail c) src from x (omega (arith, tail_region v, v.storage)) read in
    (area, copied, adds area same at)
  where
    adds :
        (area : List ℕ)
        → length area ≡ length c.mem
        → ((j : ℕ)
            → get_or area j 0 ≡ (
                if leb (tail c) j && ltb j (tail c + x)
                then get_or src (from + (j - tail c)) 0
                else get_or c.mem j 0))
        → Adds c
            (tabulate x (λ i. get_or src (from + i) 0))
            (tail_advance (record c { mem = area }) x)
    adds area same at =
        let c' : Cbuf = record c { mem = area } in
        let v' : IsValid c' = ground arith in
        rw (tail_advance_lem x v' (omega (arith, tail_region v))) (record {
          valid = ground (arith, tail_region v);
          area = same;
          capacity = refl;
          bytes =
              tabulate_add c.size x (byte c')
              ∙ ap₂ ◌++◌
                  (tabulate_congr c.size (byte c') (byte c) (λ i p. ground (
                    arith,
                    at ((c.head + i) % c.capacity),
                    tail_lem v,
                    tail_region v,
                    mod_round c.capacity c.head i,
                  )))
                  (tabulate_congr x (λ i. byte c' (c.size + i)) (λ i. get_or src (from + i) 0)
                    (λ i p. ground (
                      arith,
                      at ((c.head + (c.size + i)) % c.capacity),
                      tail_lem v,
                      tail_region v,
                      mod_round c.capacity c.head (c.size + i),
                    )));
        })

-- `cbuf_head_advance` drops as many of the oldest bytes as it is told and the buffer holds, and keeps
-- the invariant, the area and the capacity.
pub head_advance_lem :
    {c : Cbuf} (n : ℕ)
    → IsValid c
    → let k = min n c.size in
      let c' = head_advance c n in
      IsValid c'
      × (c'.mem ≡ c.mem)
      × (c'.capacity ≡ c.capacity)
      × (contents c ≡ tabulate k (byte c) ++ contents c')
head_advance_lem {c} n v =
    let k = min n c.size in
    let e : head_advance c n ≡ head_advance c k = unfold head_advance in ground arith in
    let d = head_advance-Drops k v (omega arith) in
    (
      subst IsValid (sym e) d.valid,
      ap (λ (b : Cbuf). b.mem) e ∙ d.area,
      ap (λ (b : Cbuf). b.capacity) e ∙ d.capacity,
      Drops-contents k d ∙ ap (λ b. tabulate k (byte c) ++ contents b) (sym e),
    )

-- ===== src/Slist/Nodes.antt =====
-- The nodes of a list in their order, through each operation.
use mathlib.Core.List.Permᴰ
use libdlb.Base.{
  ℕ, ◌≡◌, ◌≢◌, refl, ◌∙◌, sym, subst, Option, none, some, List, [], ◌∷◌, ◌++◌, ◌==◌, if◌then◌else◌,
  false, arith,
}
use libdlb.Base.Perm.{All, Distinct, Distinct-perm}
use libdlb.Slist.{Slist, link, push, pop, append}

-- The nodes `xs` are linked from `s` on, the last to NULL.
abbrev pub Linked : (ℕ → ℕ) → ℕ → List ℕ → Type 0
Linked next s [] = s ≡ 0
Linked next s (x ∷ xs) = (s ≡ x) × (x ≢ 0) × Linked next (next x) xs

abbrev pub last : List ℕ → ℕ
last [] = 0
last (x ∷ []) = x
last (x ∷ y ∷ xs) = last (y ∷ xs)

-- The list has the nodes `xs`, all different.
abbrev pub IsList : (ℕ → ℕ) → Slist → List ℕ → Type 0
IsList next s xs = Linked next s.start xs × (s.end ≡ last xs) × Distinct xs

link_same : (next : ℕ → ℕ) (n t : ℕ) → link next n t n ≡ t
link_same next n t = ground arith

link_other : (next : ℕ → ℕ) (n t x : ℕ) → x ≢ n → link next n t x ≡ next x
link_other next n t x ne = ground (arith, ne)

-- A write to another node leaves the list.
Linked-link :
    (next : ℕ → ℕ) (n t s : ℕ) (xs : List ℕ)
    → All (λ y. n ≢ y) xs
    → Linked next s xs
    → Linked (link next n t) s xs
Linked-link next n t s [] away p = p
Linked-link next n t s (x ∷ xs) away (e, ne, p) = (
  e,
  ne,
  subst (λ u. Linked (link next n t) u xs) (sym (link_other next n t x (λ f. away.0 (sym f))))
      (Linked-link next n t (next x) xs away.1 p),
)

last_some : (next : ℕ → ℕ) (s x : ℕ) (xs : List ℕ) → Linked next s (x ∷ xs) → last (x ∷ xs) ≢ 0
last_some next s x [] (e, ne, p) = ne
last_some next s x (y ∷ ys) (e, ne, p) = last_some next (next x) y ys p

All-last : (P : ℕ → Type 0) (x : ℕ) (xs : List ℕ) → All P (x ∷ xs) → P (last (x ∷ xs))
All-last P x [] p = p.0
All-last P x (y ∷ ys) p = All-last P y ys p.1

-- A write of the last link lengthens the list.
Linked-append :
    (next : ℕ → ℕ) (n s x : ℕ) (xs : List ℕ)
    → n ≢ 0
    → next n ≡ 0
    → Linked next s (x ∷ xs)
    → Distinct (x ∷ xs)
    → All (λ y. n ≢ y) (x ∷ xs)
    → Linked (link next (last (x ∷ xs)) n) s ((x ∷ xs) ++ (n ∷ []))
Linked-append next n s x [] some_n null (e, ne, p) d away =
    (e, ne, (link_same next x n, some_n, link_other next x n n away.0 ∙ null))
Linked-append next n s x (y ∷ ys) some_n null (e, ne, p) d away =
    let end = last (y ∷ ys) in
    let other : x ≢ end = All-last (λ z. x ≢ z) y ys d.0 in
    (
      e,
      ne,
      subst (λ u. Linked (link next end n) u ((y ∷ ys) ++ (n ∷ [])))
          (sym (link_other next end n x other))
          (Linked-append next n (next x) y ys some_n null p d.1 away.1),
    )

last-append : (xs : List ℕ) (n : ℕ) → last (xs ++ (n ∷ [])) ≡ n
last-append [] n = refl
last-append (x ∷ []) n = refl
last-append (x ∷ y ∷ ys) n = last-append (y ∷ ys) n

-- `slist_push` of a node that is not NULL and not of the list puts it in front.
pub push-IsList :
    (next : ℕ → ℕ) (s : Slist) (n : ℕ) (xs : List ℕ)
    → IsList next s xs
    → n ≢ 0
    → All (λ y. n ≢ y) xs
    → IsList (push n next s).0 (push n next s).1 (n ∷ xs)
push-IsList next s n [] (p, end, d) some_n away =
    ((refl, some_n, link_same next n s.start ∙ p), rw end refl, (tt, tt))
push-IsList next s n (x ∷ xs) (p, end, d) some_n away =
    let full : (s.end == 0) ≡ false = ground (arith, end, last_some next s.start x xs p) in
    (
      (
        refl,
        some_n,
        subst (λ u. Linked (link next n s.start) u (x ∷ xs)) (sym (link_same next n s.start))
            (Linked-link next n s.start s.start (x ∷ xs) away p),
      ),
      rw full end,
      (away, d),
    )

-- `slist_append` of a node that is not NULL and not of the list puts it at the end.
pub append-IsList :
    (next : ℕ → ℕ) (s : Slist) (n : ℕ) (xs : List ℕ)
    → IsList next s xs
    → n ≢ 0
    → All (λ y. n ≢ y) xs
    → IsList (append n next s).0 (append n next s).1 (xs ++ (n ∷ []))
append-IsList next s n [] (p, end, d) some_n away =
    rw end ((refl, some_n, link_same next n 0), refl, (tt, tt))
append-IsList next s n (x ∷ xs) (p, end, d) some_n away =
    let full : (s.end == 0) ≡ false = ground (arith, end, last_some next s.start x xs p) in
    let runs : append n next s
        ≡ (link (link next n 0) s.end n, record { start = s.start; end = n }) =
      rw full refl in
    subst (λ r. IsList r.0 r.1 ((x ∷ xs) ++ (n ∷ []))) (sym runs)
      (
        subst (λ e. Linked (link (link next n 0) e n) s.start ((x ∷ xs) ++ (n ∷ []))) (sym end)
            (Linked-append (link next n 0) n s.start x xs some_n (link_same next n 0)
              (Linked-link next n 0 s.start (x ∷ xs) away p) d away),
        sym (last-append (x ∷ xs) n),
        Distinct-perm (Permᴰ.append_comm (n ∷ []) (x ∷ xs)) (away, d),
      )

-- What `slist_pop` comes to: NULL and the same list, if it is empty, or its first node and the rest.
pub data Popped (next : ℕ → ℕ) (s : Slist) : List ℕ → Option ℕ × Slist → Type 0 where
  nothing : Popped next s [] (none, s)
  first :
      (x : ℕ) (xs : List ℕ) (s2 : Slist) → IsList next s2 xs → Popped next s (x ∷ xs) (some x, s2)

-- `slist_pop` takes the first node out of the list and returns it, or returns NULL if there is none.
pub pop-Popped :
    (next : ℕ → ℕ) (s : Slist) (xs : List ℕ) → IsList next s xs → Popped next s xs (pop next s)
pop-Popped next s [] (p, end, d) = rw p nothing
pop-Popped next s (x ∷ xs) ((e, ne, p), end, d) =
    let full : (s.start == 0) ≡ false = ground (arith, e, ne) in
    rw (full, e) (first x xs _ (p, rest xs p end, d.1))
  where
    rest :
        (xs : List ℕ)
        → Linked next (next x) xs
        → s.end ≡ last (x ∷ xs)
        → (if next x == 0 then 0 else s.end) ≡ last xs
    rest [] p end = rw p refl
    rest (y ∷ ys) (e, ne, p) end =
        let more : (next x == 0) ≡ false = ground (arith, e, ne) in rw more end

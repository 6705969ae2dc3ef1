-- ===== src/Links/Ring.antt =====
-- A ring of nodes, and what an insertion and a removal make of it.
use mathlib.Core.List.Permᴰ
use libdlb.Base.{ℕ, ◌≡◌, ◌≢◌, refl, ap, ◌∙◌, sym, List, [], ◌∷◌, ◌++◌, arith}
use libdlb.Base.Perm.{All, Distinct, Distinct-perm}
use libdlb.Links.{Links, update, set_prev, insert}

-- The nodes `xs` stand between `a` and `b`, each linked to the next and back.
abbrev pub Between : Links → ℕ → List ℕ → ℕ → Type 0
Between l a [] b = (l.next a ≡ b) × (l.prev b ≡ a)
Between l a (x ∷ xs) b = (l.next a ≡ x) × (l.prev x ≡ a) × Between l x xs b

-- The ring of `a` and the nodes `xs` behind it, all different.
abbrev pub IsRing : Links → ℕ → List ℕ → Type 0
IsRing l a xs = Between l a xs a × Distinct (a ∷ xs)

pub Between-append :
    (l : Links) (a : ℕ) (xs : List ℕ) (b : ℕ) (ys : List ℕ) (c : ℕ)
    → Between l a xs b
    → Between l b ys c
    → Between l a (xs ++ (b ∷ ys)) c
Between-append l a [] b ys c p q = (p.0, p.1, q)
Between-append l a (x ∷ xs) b ys c (next, prev, p) q =
    (next, prev, Between-append l x xs b ys c p q)

pub Between-of_append :
    (l : Links) (a : ℕ) (xs : List ℕ) (b : ℕ) (ys : List ℕ) (c : ℕ)
    → Between l a (xs ++ (b ∷ ys)) c
    → Between l a xs b × Between l b ys c
Between-of_append l a [] b ys c (next, prev, q) = ((next, prev), q)
Between-of_append l a (x ∷ xs) b ys c (next, prev, p) =
    let (first, second) = Between-of_append l x xs b ys c p in ((next, prev, first), second)

-- A ring is as good from any of its nodes.
pub IsRing-rotate :
    (l : Links) (a : ℕ) (xs : List ℕ) (b : ℕ) (ys : List ℕ)
    → IsRing l a (xs ++ (b ∷ ys))
    → IsRing l b (ys ++ (a ∷ xs))
IsRing-rotate l a xs b ys (p, d) =
    let (first, second) = Between-of_append l a xs b ys a p in
    (
      Between-append l b ys a xs b second first,
      Distinct-perm (Permᴰ.append_comm (a ∷ xs) (b ∷ ys)) d,
    )

-- the node at the end of `a` and `xs`
abbrev pub last : ℕ → List ℕ → ℕ
last a [] = a
last a (x ∷ xs) = last x xs

pub All-last : (P : ℕ → Type 0) (a : ℕ) (xs : List ℕ) → P a → All P xs → P (last a xs)
All-last P a [] p q = p
All-last P a (x ∷ xs) p q = All-last P x xs q.0 q.1

pub Between-last :
    (l : Links) (a : ℕ) (xs : List ℕ) (b : ℕ)
    → Between l a xs b
    → (l.next (last a xs) ≡ b) × (l.prev b ≡ last a xs)
Between-last l a [] b p = p
Between-last l a (x ∷ xs) b (next, prev, p) = Between-last l x xs b p

last-append : (a : ℕ) (xs : List ℕ) (b : ℕ) → last a (xs ++ (b ∷ [])) ≡ b
last-append a [] b = refl
last-append a (x ∷ xs) b = last-append x xs b

-- The links agree but for the `next` of two nodes and the `prev` of two.
abbrev pub Agree : Links → Links → ℕ → ℕ → ℕ → Type 0
Agree l m item before after =
    ((x : ℕ) → x ≢ item → x ≢ before → m.next x ≡ l.next x)
    × ((x : ℕ) → x ≢ item → x ≢ after → m.prev x ≡ l.prev x)

pub apart : {a b : ℕ} → a ≢ b → b ≢ a
apart ne e = ne (sym e)

-- The way to the last node keeps its links where the links agree.
Between-front :
    (l m : Links) (item after a x : ℕ) (xs : List ℕ) (b c : ℕ) (ys : List ℕ)
    → Agree l m item (last x xs) after
    → Distinct (a ∷ x ∷ xs)
    → All (λ y. item ≢ y) (a ∷ x ∷ xs)
    → All (λ y. after ≢ y) (x ∷ xs)
    → l.next a ≡ x
    → l.prev x ≡ a
    → (m.next a ≡ x) × (m.prev x ≡ a)
Between-front l m item after a x xs b c ys (nexts, prevs) (fresh, _) away off next prev = (
  nexts a (apart away.0) (All-last (λ y. a ≢ y) x xs fresh.0 fresh.1) ∙ next,
  prevs x (apart away.1.0) (apart off.0) ∙ prev,
)

-- The links around a new node at the end of `a` and `xs`.
Between-insert :
    (l m : Links) (item a : ℕ) (xs : List ℕ) (b : ℕ)
    → Between l a xs b
    → Agree l m item (last a xs) b
    → (m.next (last a xs) ≡ item) × (m.prev item ≡ last a xs)
    → (m.next item ≡ b) × (m.prev b ≡ item)
    → Distinct (a ∷ xs)
    → All (λ y. item ≢ y) (a ∷ xs)
    → All (λ y. b ≢ y) xs
    → Between m a (xs ++ (item ∷ [])) b
Between-insert l m item a [] b p agree (n1, p1) new d away off = (n1, p1, new)
Between-insert l m item a (x ∷ xs) b (next, prev, p) agree old new d away off =
    let (n, q) = Between-front l m item b a x xs b b [] agree d away off next prev in
    (n, q, Between-insert l m item x xs b p agree old new d.1 away.1 off.1)

-- The links without the node at the end of `a` and `xs`.
pub Between-remove :
    (l m : Links) (item a : ℕ) (xs : List ℕ) (b : ℕ)
    → Between l a (xs ++ (item ∷ [])) b
    → Agree l m item (last a xs) b
    → (m.next (last a xs) ≡ b) × (m.prev b ≡ last a xs)
    → Distinct (a ∷ xs)
    → All (λ y. item ≢ y) (a ∷ xs)
    → All (λ y. b ≢ y) xs
    → Between m a xs b
Between-remove l m item a [] b p agree new d away off = new
Between-remove l m item a (x ∷ xs) b (next, prev, p) agree new d away off =
    let (n, q) = Between-front l m item b a x xs b b [] agree d away off next prev in
    (n, q, Between-remove l m item x xs b p agree new d.1 away.1 off.1)

pub update_same : (f : ℕ → ℕ) (a v : ℕ) → update f a v a ≡ v
update_same f a v = ground arith

pub update_other : (f : ℕ → ℕ) (a v x : ℕ) → x ≢ a → update f a v x ≡ f x
update_other f a v x ne = ground (arith, ne)

-- `list_insert` of a node that is not of the ring of `after`: the node stands just before `after`, and
-- the rest of the ring is as it was.
pub insert-IsRing :
    (l : Links) (item after : ℕ) (xs : List ℕ)
    → IsRing l after xs
    → All (λ y. item ≢ y) (after ∷ xs)
    → IsRing (insert item after l) after (xs ++ (item ∷ []))
insert-IsRing l item after xs (p, d) away =
    let before = last after xs in
    let (_, back) = Between-last l after xs after p in
    let m = insert item after l in
    let kept : (set_prev item (l.prev after) l).prev after ≡ before =
      update_other l.prev item (l.prev after) after (apart away.0) ∙ back in
    let other : item ≢ before = All-last (λ y. item ≢ y) after xs away.0 away.1 in
    (
      Between-insert l m item after xs after p
          (
            λ x ne nb.
                update_other (update l.next item after) (update l.prev item (l.prev after) after)
                  item x (λ e. nb (e ∙ kept))
                ∙ update_other l.next item after x ne,
            λ x ne na.
                update_other (update l.prev item (l.prev after)) after item x na
                ∙ update_other l.prev item (l.prev after) x ne,
          )
          (
            ap (λ b. update (update l.next item after) b item before) kept
                ∙ update_same (update l.next item after) before item,
            update_other (update l.prev item (l.prev after)) after item item away.0
                ∙ (update_same l.prev item (l.prev after) ∙ back),
          )
          (
            update_other (update l.next item after) (update l.prev item (l.prev after) after) item
                  item (λ e. other (e ∙ kept))
                ∙ update_same l.next item after,
            update_same (update l.prev item (l.prev after)) after item,
          )
          d away d.0,
      Distinct-perm (Permᴰ.append_comm (item ∷ []) (after ∷ xs)) (away, d),
    )

-- ===== src/Links/Lists.antt =====
-- Insertion into a list and removal from it, at any place.
use libdlb.Base.{
  ℕ, ◌≡◌, ◌≢◌, ap, ◌∙◌, sym, subst, List, [], ◌∷◌, ◌++◌, append-nil, append_assoc, arith,
}
use mathlib.Core.List.Permᴰ
use libdlb.Base.Perm.{All, All-perm, Distinct-perm}
use libdlb.Links.{Links, update, insert, remove}
use libdlb.Links.Ring.{
  IsRing, IsRing-rotate, last, All-last, Between-last, Between-of_append, apart, Between-remove,
  update_same, update_other, insert-IsRing,
}

-- `list_remove` of the last node of a ring: the rest of the ring is as it was.
remove-IsRing :
    (l : Links) (item b : ℕ) (xs : List ℕ)
    → IsRing l b (xs ++ (item ∷ []))
    → IsRing (remove item l) b xs
remove-IsRing l item b xs (p, d) =
    let before = last b xs in
    let m = remove item l in
    let (first, (n, q)) = Between-of_append l b xs item [] b p in
    let (_, back) = Between-last l b xs item first in
    let (away, rest) = Distinct-perm (Permᴰ.append_comm (b ∷ xs) (item ∷ [])) d in
    let other : item ≢ before = All-last (λ y. item ≢ y) b xs away.0 away.1 in
    let kept : update l.prev (l.next item) (l.prev item) item ≡ before =
      update_other l.prev (l.next item) (l.prev item) item (λ e. away.0 (e ∙ n)) ∙ back in
    let inner = update l.prev (l.next item) (l.prev item) in
    (
      Between-remove l m item b xs b p
          (
            λ x ne nb.
                update_other (update l.next (inner item) (l.next item)) item 0 x ne
                ∙ update_other l.next (inner item) (l.next item) x (λ e. nb (e ∙ kept)),
            λ x ne na.
                update_other inner item 0 x ne
                ∙ update_other l.prev (l.next item) (l.prev item) x (λ e. na (e ∙ n)),
          )
          (
            update_other (update l.next (inner item) (l.next item)) item 0 before (apart other)
                ∙ (ap (λ a. update l.next a (l.next item) before) kept
                    ∙ (update_same l.next before (l.next item) ∙ n)),
            update_other inner item 0 b (apart away.0)
                ∙ (ap (λ a. update l.prev a (l.prev item) b) n
                    ∙ (update_same l.prev b (l.prev item) ∙ back)),
          )
          rest away rest.0,
      rest,
    )

-- the node where a list goes on, which is the head at its end
abbrev pub first_of : List ℕ → ℕ → ℕ
first_of [] head = head
first_of (x ∷ xs) head = x

-- `list_insert` of a node that is not of the list, before a node of the list or before its head: the
-- node stands just there, at the end for the head, and the list is as it was otherwise.
pub insert_lem :
    (l : Links) (head item : ℕ) (xs ys : List ℕ)
    → IsRing l head (xs ++ ys)
    → All (λ y. item ≢ y) (head ∷ (xs ++ ys))
    → IsRing (insert item (first_of ys head) l) head (xs ++ (item ∷ ys))
insert_lem l head item xs [] ring away =
    insert-IsRing l item head xs (subst (IsRing l head) (append-nil xs) ring)
      (subst (λ ns. All (λ y. item ≢ y) (head ∷ ns)) (append-nil xs) away)
insert_lem l head item xs (after ∷ ys) ring away =
    let turned = IsRing-rotate l head xs after ys ring in
    let fresh : All (λ y. item ≢ y) (after ∷ (ys ++ (head ∷ xs))) =
      All-perm (λ y. item ≢ y) (Permᴰ.append_comm (head ∷ xs) (after ∷ ys)) away in
    let put = insert-IsRing l item after (ys ++ (head ∷ xs)) turned fresh in
    let m = insert item after l in
    subst (IsRing m head) (append_assoc xs (item ∷ []) (after ∷ ys)) (
      IsRing-rotate m after ys head (xs ++ (item ∷ []))
        (subst (IsRing m after) (append_assoc ys (head ∷ xs) (item ∷ [])) put))

-- `list_remove` of a node of a list: the list is as it was without it, and its links are NULL.
pub remove_node_lem :
    (l : Links) (head item : ℕ) (xs ys : List ℕ)
    → IsRing l head (xs ++ (item ∷ ys))
    → IsRing (remove item l) head (xs ++ ys)
      × ((remove item l).next item ≡ 0)
      × ((remove item l).prev item ≡ 0)
remove_node_lem l head item xs ys ring = (go ys ring, ground arith, ground arith)
  where
    go : (ys : List ℕ) → IsRing l head (xs ++ (item ∷ ys)) → IsRing (remove item l) head (xs ++ ys)
    go [] ring =
        subst (IsRing (remove item l) head) (sym (append-nil xs))
          (remove-IsRing l item head xs ring)
    go (z ∷ zs) ring =
        let turned =
          IsRing-rotate l head (xs ++ (item ∷ [])) z zs
            (subst (IsRing l head) (sym (append_assoc xs (item ∷ []) (z ∷ zs))) ring) in
        IsRing-rotate (remove item l) z zs head xs (
          remove-IsRing l item z (zs ++ (head ∷ xs))
            (subst (IsRing l z) (sym (append_assoc zs (head ∷ xs) (item ∷ []))) turned))

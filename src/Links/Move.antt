-- ===== src/Links/Move.antt =====
-- `list_move` gives a list another head.
use libdlb.Base.{ℕ, ◌≡◌, ◌≢◌, refl, ap, ◌∙◌, sym, true, false, List, [], ◌∷◌, arith}
use libdlb.Base.Perm.{All, All-map, All-both, Distinct}
use libdlb.Links.{Links, update, is_empty, init, move}
use libdlb.Links.Ring.{
  Between, IsRing, last, All-last, Between-last, apart, update_same, update_other,
}

-- The way from `a` and `xs` on to another node than before, where only the end of it has changed.
Between-redirect :
    (l m : Links) (a : ℕ) (xs : List ℕ) (b c : ℕ)
    → Between l a xs b
    → Distinct (a ∷ xs)
    → All (λ y. y ≢ last a xs → m.next y ≡ l.next y) (a ∷ xs)
    → All (λ y. m.prev y ≡ l.prev y) xs
    → (m.next (last a xs) ≡ c) × (m.prev c ≡ last a xs)
    → Between m a xs c
Between-redirect l m a [] b c p d nexts prevs new = new
Between-redirect l m a (x ∷ xs) b c (next, prev, p) d nexts prevs new = (
  nexts.0 (All-last (λ y. a ≢ y) x xs d.0.0 d.0.1) ∙ next,
  prevs.0 ∙ prev,
  Between-redirect l m x xs b c p d.1 nexts.1 prevs.1 new,
)

-- the links of a list of one node or more under its new head
moved :
    (l : Links) (dst src x : ℕ) (xs : List ℕ)
    → IsRing l src (x ∷ xs)
    → All (λ y. dst ≢ y) (src ∷ x ∷ xs)
    → IsRing (move dst src l) dst (x ∷ xs) × IsRing (move dst src l) src []
moved l dst src x xs ((next, prev, p), d) away =
    let m = move dst src l in
    let end = last x xs in
    let (_, back) = Between-last l x xs src p in
    let full : is_empty src l ≡ false = ground (arith, next, d.0.0) in
    let n1 = update l.next dst (l.next src) in
    let p2 = update l.prev dst (l.prev src) in
    let p3 = update p2 (n1 dst) dst in
    let n4 = update n1 (p3 dst) dst in
    let nexts : m.next ≡ update n4 src src = rw full refl in
    let prevs : m.prev ≡ update p3 src src = rw full refl in
    let first : n1 dst ≡ x = update_same l.next dst (l.next src) ∙ next in
    let not_end : dst ≢ end = All-last (λ y. dst ≢ y) x xs away.1.0 away.1.1 in
    let src_end : src ≢ end = All-last (λ y. src ≢ y) x xs d.0.0 d.0.1 in
    let final : p3 dst ≡ end =
      update_other p2 (n1 dst) dst dst (λ e. away.1.0 (e ∙ first))
      ∙ (update_same l.prev dst (l.prev src) ∙ back) in
    let next_at : (y : ℕ) → (m.next y ≡ update n4 src src y) = λ y. ap (λ f. f y) nexts in
    let prev_at : (y : ℕ) → (m.prev y ≡ update p3 src src y) = λ y. ap (λ f. f y) prevs in
    (
      (
        (
          next_at dst
              ∙ (update_other n4 src src dst away.0
                  ∙ (update_other n1 (p3 dst) dst dst (λ e. not_end (e ∙ final)) ∙ first)),
          prev_at x
              ∙ (update_other p3 src src x (apart d.0.0)
                  ∙ (ap (λ a. update p2 a dst x) first ∙ update_same p2 x dst)),
          Between-redirect l m x xs src dst p d.1
              (All-map (λ y. (dst ≢ y) × (src ≢ y)) (λ y. y ≢ end → m.next y ≡ l.next y)
                (λ y ne not_last.
                  next_at y
                  ∙ (update_other n4 src src y (apart ne.1)
                      ∙ (update_other n1 (p3 dst) dst y (λ e. not_last (e ∙ final))
                          ∙ update_other l.next dst (l.next src) y (apart ne.0))))
                (x ∷ xs) (All-both (λ y. dst ≢ y) (λ y. src ≢ y) (x ∷ xs) away.1 d.0))
              (All-map (λ y. (x ≢ y) × ((dst ≢ y) × (src ≢ y))) (λ y. m.prev y ≡ l.prev y)
                (λ y ne.
                  prev_at y
                  ∙ (update_other p3 src src y (apart ne.1.1)
                      ∙ (update_other p2 (n1 dst) dst y (λ e. ne.0 (sym (e ∙ first)))
                          ∙ update_other l.prev dst (l.prev src) y (apart ne.1.0))))
                xs
                (All-both (λ y. x ≢ y) (λ y. (dst ≢ y) × (src ≢ y)) xs d.1.0
                  (All-both (λ y. dst ≢ y) (λ y. src ≢ y) xs away.1.1 d.0.1)))
              (
                next_at end
                    ∙ (update_other n4 src src end (apart src_end)
                        ∙ (ap (λ a. update n1 a dst end) final ∙ update_same n1 end dst)),
                prev_at dst ∙ (update_other p3 src src dst away.0 ∙ final),
              ),
        ),
        (away.1, d.1),
      ),
      ((next_at src ∙ update_same n4 src src, prev_at src ∙ update_same p3 src src), (tt, tt)),
    )

-- `list_move` to a head that is not of the list: the new head has the list, in order, and the old head
-- has an empty one.
pub move-IsRing :
    (l : Links) (dst src : ℕ) (xs : List ℕ)
    → IsRing l src xs
    → All (λ y. dst ≢ y) (src ∷ xs)
    → IsRing (move dst src l) dst xs × IsRing (move dst src l) src []
move-IsRing l dst src [] ((next, prev), d) away =
    let bare : is_empty src l ≡ true = ground (arith, next) in
    rw bare (
      ((update_same l.next dst dst, update_same l.prev dst dst), (tt, tt)),
      (
        (
          update_other l.next dst dst src (apart away.0) ∙ next,
          update_other l.prev dst dst src (apart away.0) ∙ prev,
        ),
        (tt, tt),
      ),
    )
move-IsRing l dst src (x ∷ xs) ring away = moved l dst src x xs ring away

-- `list_init` makes an empty list.
pub init-IsRing : (l : Links) (head : ℕ) → IsRing (init head l) head []
init-IsRing l head = ((update_same l.next head head, update_same l.prev head head), (tt, tt))

-- ===== src/Links.antt =====
-- The doubly linked lists of src/list.c and src/list.h: a list is a ring of nodes through its head. The
-- memory is the `next` and the `prev` of each address, and 0 is NULL.
pub mod Ring
pub mod Lists
pub mod Move
mod Tests
use libdlb.Base.{ℕ, Bool, true, false, ◌==◌, if◌then◌else◌}

pub record Links : Type 0 where
  pub next : ℕ → ℕ
  pub prev : ℕ → ℕ

abbrev pub update : (ℕ → ℕ) → ℕ → ℕ → ℕ → ℕ
update f a v x = if x == a then v else f x

abbrev pub set_next : ℕ → ℕ → Links → Links
set_next a v l = record l { next = update l.next a v }

abbrev pub set_prev : ℕ → ℕ → Links → Links
set_prev a v l = record l { prev = update l.prev a v }

abbrev pub init : ℕ → Links → Links
init head l = set_prev head head (set_next head head l)

abbrev pub is_empty : ℕ → Links → Bool
is_empty lst l = l.next lst == lst

-- the assignments of `list_insert` in their order
abbrev pub insert : ℕ → ℕ → Links → Links
insert item after l =
    let l1 = set_next item after l in
    let l2 = set_prev item (l1.prev after) l1 in
    let l3 = set_next (l2.prev after) item l2 in set_prev after item l3

abbrev pub remove : ℕ → Links → Links
remove item l =
    let l1 = set_prev (l.next item) (l.prev item) l in
    let l2 = set_next (l1.prev item) (l1.next item) l1 in set_next item 0 (set_prev item 0 l2)

abbrev pub move : ℕ → ℕ → Links → Links
move dst src l =
    if is_empty src l
    then set_next dst dst (set_prev dst dst l)
    else (let l1 = set_next dst (l.next src) l in
        let l2 = set_prev dst (l1.prev src) l1 in
        let l3 = set_prev (l2.next dst) dst l2 in
        let l4 = set_next (l3.prev dst) dst l3 in set_next src src (set_prev src src l4))

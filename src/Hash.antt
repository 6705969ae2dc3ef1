-- ===== src/Hash.antt =====
-- The hash table of src/hash.c and src/hash.h. A `struct hash_node` is embedded in a structure of the
-- client's, here an item of type `A`; its address tells it from the others. `func` and `compare`, which
-- `hash_init` stores, are parameters: `func` gives an `unsigned int`, and `matches` is whether
-- `compare` returns 0. Whether `malloc` finds memory is a parameter too.
pub mod Prime
pub mod Entries
pub mod Matches
pub mod Spec
pub mod Resize
pub mod Loop
pub mod Insert
pub mod Laws
pub mod Remove
mod Tests
use libdlb.Base.{
  ℕ, zero, suc, ◌+◌, ◌-◌, ◌*◌, ◌%◌, ◌^◌, Bool, true, false, not, ◌&&◌, Option, none, some, List, [],
  ◌∷◌, map, get_or, set, replicate, ltb, leb, ◌==◌, if◌then◌else◌, Outcome, done, fault,
  out_of_fuel, ◌>>=◌,
}
use libdlb.Base.Words.{u32}

-- the node and its structure
pub record Node (A : Type 0) : Type 0 where
  pub address : ℕ
  pub code : ℕ
  pub item : A

abbrev pub Chain : Type 0 → Type 0
Chain A = List (Node A)

pub record Hash (A : Type 0) : Type 0 where
  pub size : ℕ
  pub count : ℕ
  pub table : List (Chain A)

-- `while (new_size < hint) new_size <<= 1;`
pub double : ℕ → ℕ → ℕ → Outcome ℕ
double zero new_size hint = out_of_fuel
double (suc rounds) new_size hint = elim (ltb new_size hint) [
  | true ↦ double rounds (u32 (new_size * 2)) hint
  | false ↦ done new_size
]

-- The loop over `d`: whether it comes to its end.
pub no_divisor : ℕ → ℕ → ℕ → Outcome Bool
no_divisor zero new_size d = out_of_fuel
no_divisor (suc rounds) new_size d = elim (leb (d * d) new_size) [
  | false ↦ done true
  | true ↦ elim (new_size % d == 0) [
    | true ↦ done false
    | false ↦ no_divisor rounds new_size (suc d)
  ]
]

-- `for (;;)`, with `not_prime` at the end of each round
pub next_prime : ℕ → ℕ → ℕ → Outcome ℕ
next_prime zero tests new_size = out_of_fuel
next_prime (suc rounds) tests new_size = no_divisor tests new_size 2 >>= λ prime. elim prime [
  | true ↦ done new_size
  | false ↦ next_prime rounds tests (u32 (new_size + 1))
]

-- The size for `hint` nodes: at most 26 doublings of 32 are below 2 ^ 31, and a prime is near.
pub new_size_for : ℕ → Outcome ℕ
new_size_for hint = double 27 32 hint >>= next_prime 64 65536

module _ {A : Type 0} where
  -- the loop over a chain of the old table
  pub rehash_chain : ℕ → Chain A → List (Chain A) → List (Chain A)
  rehash_chain new_size [] new_table = new_table
  rehash_chain new_size (n ∷ next) new_table =
      let i = n.code % new_size in
      rehash_chain new_size next (set new_table i (n ∷ get_or new_table i []))

  -- the loop over the old table
  pub rehash : ℕ → List (Chain A) → List (Chain A) → List (Chain A)
  rehash new_size [] new_table = new_table
  rehash new_size (c ∷ cs) new_table = rehash new_size cs (rehash_chain new_size c new_table)

  -- Whether `hash_capacity_hint` returns 0, and `h`.
  pub capacity_hint : Bool → Hash A → ℕ → Outcome (Bool × Hash A)
  capacity_hint memory h hint =
      if ltb hint h.count
      then done (true, h)
      else new_size_for hint >>= λ new_size.
          if h.size == new_size
          then done (true, h)
          else if memory
          then done (
            true,
            record h { size = new_size; table = rehash new_size h.table (replicate new_size []) },
          )
          else done (false, h)

  abbrev pub init : Hash A
  init = record { size = 0; count = 0; table = [] }

  -- the bucket of the nodes with a code
  abbrev pub bucket : Hash A → ℕ → Chain A
  bucket h code = get_or h.table (code % h.size) []

  abbrev pub set_bucket : Hash A → ℕ → Chain A → List (Chain A)
  set_bucket h code c = set h.table (code % h.size) c

  -- `ins->next = NULL`, in a chain: where the node at the address stands in it, the nodes behind it are
  -- lost.
  pub cut_behind : ℕ → Chain A → Chain A
  cut_behind n [] = []
  cut_behind n (s ∷ next) =
      let rest = cut_behind n next in if s.address == n then s ∷ [] else s ∷ rest

  -- `while (s && s->next != n) s = s->next;` and the unlinking behind `s`; none if `n` is not found
  pub unlink : ℕ → Chain A → Option (Chain A)
  unlink n [] = none
  unlink n (s ∷ next) = elim (s.address == n) [
    | true ↦ some next
    | false ↦ elim (unlink n next) [ none ↦ none | some rest ↦ some (s ∷ rest) ]
  ]

  -- `hash_remove`; what `hash_capacity_hint` returns is not looked at.
  pub remove : Bool → Hash A → Node A → Outcome (Hash A)
  remove memory h n =
      let h2 = elim (unlink n.address (bucket h n.code)) as (λ _. Hash A) [
        | none ↦ h
        | some c ↦ record h { count = h.count - 1; table = set_bucket h n.code c }
      ] in
      if ltb (u32 (h2.count * 4)) h2.size
      then (capacity_hint memory h2 h2.count >>= λ r. done r.1)
      else done h2

module _ {K A : Type 0} (matches : K → A → Bool) where
  -- the loop of `hash_find`
  pub find_chain : K → Chain A → Option (Node A)
  find_chain key [] = none
  find_chain key (n ∷ next) = if matches key n.item then some n else find_chain key next

  -- The loop of `hash_insert`: the nodes up to `ins` are the chain in front of it, and the last node
  -- that matched is `old`.
  pub insert_loop : K → Chain A → Chain A → Option (Node A) → Chain A × Option (Node A)
  insert_loop key ins [] old = (ins, old)
  insert_loop key ins (n ∷ next) old =
      if matches key n.item
      then insert_loop key ins next (some n)
      else insert_loop key (n ∷ ins) next old

module _ {K A : Type 0} (func : K → ℕ) (matches : K → A → Bool) where
  pub find : Hash A → K → Option (Node A)
  find h key = if h.size == 0 then none else find_chain matches key (bucket h (func key))

  -- from the hash code on
  pub insert_into : Hash A → K → Node A → Bool → Bool → Hash A × Option (Node A)
  insert_into h key ins prehashed unique =
      let n = if prehashed then ins else record ins { code = func key } in
      let (c, old) = insert_loop matches key (n ∷ []) (bucket h n.code) none in
      let more = elim old as (λ _. ℕ) [ none ↦ h.count + 1 | some o ↦ h.count ] in
      if unique
      then (
        record h { count = h.count + 1; table = set_bucket h n.code (n ∷ bucket h n.code) },
        none,
      )
      else (record h { count = more; table = set_bucket h n.code c }, old)

  -- after the table is large enough
  pub insert_in : Hash A → K → Node A → Bool → Bool → Hash A × Option (Node A)
  insert_in h key ins prehashed unique =
      insert_into (record h { table = map (cut_behind ins.address) h.table }) key ins prehashed
        unique

  -- Whether `hash_insert` returns 0, `h`, and `*old_ret`, which a failure and `unique` leave alone.
  pub insert : Bool → Hash A → K → Node A → Bool → Bool → Outcome (Bool × Hash A × Option (Node A))
  insert memory h key ins prehashed unique =
      (if leb h.size h.count then capacity_hint memory h (u32 (h.count + 1)) else done (true, h))
      >>= λ r.
          if r.0
          then (let (h2, old) = insert_in r.1 key ins prehashed unique in done (true, h2, old))
          else done (false, r.1, none)

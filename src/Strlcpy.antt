-- ===== src/Strlcpy.antt =====
-- `strlcpy` and `strlcat` of src/strlcpy.c. Each returns its count and the area at `dst`.
pub mod Laws
mod Tests
use libdlb.Base.{ℕ, Bool, List, [], ◌∷◌, ltb, ◌==◌, ◌||◌, if◌then◌else◌, Outcome, done, ◌>>=◌}
use libdlb.Base.Words.{add_size, sub_size}
use libdlb.Base.Memory.{memcpy, strlen}

pub strlcpy : List ℕ → List ℕ → ℕ → Outcome (ℕ × List ℕ)
strlcpy dst src size = strlen src >>= λ src_len.
    let max_len = sub_size size 1 in
    let len = if ltb max_len src_len then max_len else src_len in
    if size == 0
    then done (0, dst)
    else (memcpy dst 0 src 0 len >>= λ d. memcpy d len (0 ∷ []) 0 1 >>= λ e. done (src_len, e))

pub strlcat : List ℕ → List ℕ → ℕ → Outcome (ℕ × List ℕ)
strlcat dst src size = strlen dst >>= λ dst_len. strlen src >>= λ src_len.
    let res_len = add_size dst_len src_len in
    let max_len = sub_size (sub_size size dst_len) 1 in
    let copy = if ltb max_len src_len then max_len else src_len in
    if (size == 0) || ltb (sub_size size 1) dst_len
    then done (0, dst)
    else (memcpy dst dst_len src 0 copy >>= λ d.
        memcpy d (add_size dst_len copy) (0 ∷ []) 0 1 >>= λ e. done (res_len, e))

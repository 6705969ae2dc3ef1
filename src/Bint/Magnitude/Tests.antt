-- ===== src/Bint/Magnitude/Tests.antt =====
-- What `mag_add` does with a carry that goes through a full component.
use libdlb.Base.{ℕ, ◌-◌, ◌^◌, ◌≡◌, refl, [], ◌∷◌, replicate}
use libdlb.Bint.Value.{magnitude}
use libdlb.Bint.Magnitude.{add_chains, add_components, carry_through, carry_components}

abbrev full : ℕ
full = 2 ^ 32 - 1

-- A carry that leaves a second component above the shorter number is lost.
lost_carry :
    magnitude
      (add_chains ((replicate 4 full) ∷ (full ∷ 0 ∷ 0 ∷ 0 ∷ []) ∷ []) ((1 ∷ 0 ∷ 0 ∷ 0 ∷ []) ∷ []) 0)
    ≡ 0
unfolding add_chains add_components carry_through carry_components
lost_carry = refl

-- ===== src/Strbuf/Tests.antt =====
-- A string buffer at small inputs, and the theorems there.
use libdlb.Base.{ℕ, ◌≡◌, refl, Bool, Option, some, List, [], ◌∷◌, done, inl, arith}
use libdlb.Base.Plenty.{plenty, plenty-IsRealloc}
use libdlb.Strbuf.{Strbuf, empty, add_string, resize}
use libdlb.Strbuf.Capacity.{IsValid}
use libdlb.Strbuf.Add.{Added, add_string-Added}
use libdlb.Strbuf.Resize.{Resized, resize-Resized}

empty-IsValid : IsValid empty
empty-IsValid = inl (refl, refl, refl)

abbrev word : List ℕ
word = 104 ∷ 105 ∷ 0 ∷ 33 ∷ []

add_string-Added_example :
    (r : Option ℕ × Strbuf) × (add_string plenty empty word (some 2) ≡ done r)
    × Added plenty empty 2 (104 ∷ 105 ∷ []) r
add_string-Added_example =
    add_string-Added plenty empty word 2 plenty-IsRealloc empty-IsValid (omega arith) (omega arith)

resize-Resized_example :
    (r : Bool × Strbuf) × (resize plenty 40 empty ≡ done r) × Resized plenty empty 40 r
resize-Resized_example = resize-Resized plenty empty 40 plenty-IsRealloc empty-IsValid (omega arith)

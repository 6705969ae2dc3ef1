-- ===== src/Base/Perm.antt =====
-- Lists in any order: what holds of all items, and distinct items.
use mathlib.Core.List.{Permᴰ}
use mathlib.Core.Path.{◌≡◌, refl, sym, ap, ◌∙◌, subst}
use mathlib.Core.Logic.{◌≢◌}
use mathlib.Core.List.{List, [], ◌∷◌, ◌++◌}
use Prim.Native.Nat.{suc}
use libdlb.Base.Lists.{length}

module _ {A : Type 0} where
  abbrev pub All : (A → Type 0) → List A → Type 0
  All P [] = Unit
  All P (x ∷ xs) = P x × All P xs

  pub All-append : (P : A → Type 0) (xs ys : List A) → All P xs → All P ys → All P (xs ++ ys)
  All-append P [] ys p q = q
  All-append P (x ∷ xs) ys p q = (p.0, All-append P xs ys p.1 q)

  pub All-of_append : (P : A → Type 0) (xs ys : List A) → All P (xs ++ ys) → All P xs × All P ys
  All-of_append P [] ys p = (tt, p)
  All-of_append P (x ∷ xs) ys p = let (a, b) = All-of_append P xs ys p.1 in ((p.0, a), b)

  pub All-perm : (P : A → Type 0) {xs ys : List A} → Permᴰ xs ys → All P xs → All P ys
  All-perm P Permᴰ.nil p = tt
  All-perm P (Permᴰ.cons e d) p = (subst P e p.0, All-perm P d p.1)
  All-perm P (Permᴰ.swap e₁ e₂) p = (subst P e₂ p.1.0, (subst P e₁ p.0, p.1.1))
  All-perm P (Permᴰ.trans d₁ d₂) p = All-perm P d₂ (All-perm P d₁ p)

  pub All-map : (P Q : A → Type 0) → ((x : A) → P x → Q x) → (xs : List A) → All P xs → All Q xs
  All-map P Q f [] p = tt
  All-map P Q f (x ∷ xs) p = (f x p.0, All-map P Q f xs p.1)

  pub All-both : (P Q : A → Type 0) (xs : List A) → All P xs → All Q xs → All (λ x. P x × Q x) xs
  All-both P Q [] p q = tt
  All-both P Q (x ∷ xs) p q = ((p.0, q.0), All-both P Q xs p.1 q.1)

  pub length-perm : {xs ys : List A} → Permᴰ xs ys → length xs ≡ length ys
  length-perm Permᴰ.nil = refl
  length-perm (Permᴰ.cons e d) = ap suc (length-perm d)
  length-perm (Permᴰ.swap e₁ e₂) = refl
  length-perm (Permᴰ.trans d₁ d₂) = length-perm d₁ ∙ length-perm d₂

  -- no item twice
  abbrev pub Distinct : List A → Type 0
  Distinct [] = Unit
  Distinct (x ∷ xs) = All (λ y. x ≢ y) xs × Distinct xs

  pub Distinct-perm : {xs ys : List A} → Permᴰ xs ys → Distinct xs → Distinct ys
  Distinct-perm Permᴰ.nil p = tt
  Distinct-perm (Permᴰ.cons {a} {b} {l₁} {l₂} e d) p =
      (subst (λ x. All (λ y. x ≢ y) l₂) e (All-perm (λ y. a ≢ y) d p.0), Distinct-perm d p.1)
  Distinct-perm (Permᴰ.swap {a} {b} {a'} {b'} {l} e₁ e₂) (p, q) = (
    (λ e. p.0 (e₁ ∙ (sym e ∙ sym e₂)), subst (λ x. All (λ y. x ≢ y) l) e₂ q.0),
    (subst (λ x. All (λ y. x ≢ y) l) e₁ p.1, q.1),
  )
  Distinct-perm (Permᴰ.trans d₁ d₂) p = Distinct-perm d₂ (Distinct-perm d₁ p)

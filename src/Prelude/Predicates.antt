-- ===== src/Prelude/Predicates.antt =====
-- Predicates over lists by recursion.
use mathlib.Core.Path.{◌≡◌, refl, sym, ap}
use mathlib.Core.Logic.{◌⊎◌, inl, inr}
use mathlib.Core.List.{List, [], ◌∷◌, ◌++◌, map}

abbrev pub All {ℓ κ} : {A : Type ℓ} → (A → Type κ) → List A → Type κ
All P [] = Unit
All P (x ∷ xs) = P x × All P xs

-- The value occurs in the list.
abbrev pub In : {A : Type 0} → A → List A → Type 0
In a [] = ⊥
In a (x ∷ xs) = (x ≡ a) ⊎ In a xs

-- No two positions of the list hold one value.
abbrev pub Distinct : {A : Type 0} → List A → Type 0
Distinct [] = Unit
Distinct (x ∷ xs) = (¬ In x xs) × Distinct xs

module _ {ℓ κ} {A : Type ℓ} (P : A → Type κ) where
  pub All-append : (xs ys : List A) → All P xs → All P ys → All P (xs ++ ys)
  All-append [] ys hx hy = hy
  All-append (x ∷ xs) ys hx hy = (hx.0, All-append xs ys hx.1 hy)

module _ {A : Type 0} where
  pub In-append_left : (xs ys : List A) (a : A) → In a xs → In a (xs ++ ys)
  In-append_left [] ys a i = absurd i
  In-append_left (x ∷ xs) ys a (inl e) = inl e
  In-append_left (x ∷ xs) ys a (inr i) = inr (In-append_left xs ys a i)

  pub In-append_right : (xs ys : List A) (a : A) → In a ys → In a (xs ++ ys)
  In-append_right [] ys a i = i
  In-append_right (x ∷ xs) ys a i = inr (In-append_right xs ys a i)

  pub In-append-cases : (xs ys : List A) (a : A) → In a (xs ++ ys) → In a xs ⊎ In a ys
  In-append-cases [] ys a i = inr i
  In-append-cases (x ∷ xs) ys a (inl e) = inl (inl e)
  In-append-cases (x ∷ xs) ys a (inr i) = elim (In-append-cases xs ys a i) [
    | inl j ↦ inl (inr j)
    | inr j ↦ inr j
  ]

  -- A new value behind distinct ones.
  pub Distinct-snoc : (xs : List A) (a : A) → Distinct xs → ¬ In a xs → Distinct (xs ++ a ∷ [])
  Distinct-snoc [] a d h = (λ i. i, tt)
  Distinct-snoc (x ∷ xs) a d h = (
    λ i. elim (In-append-cases xs (a ∷ []) x i) [
      | inl j ↦ d.0 j
      | inr (inl e) ↦ h (inl (sym e))
      | inr (inr e) ↦ e
    ],
    Distinct-snoc xs a (d.1) (λ i. h (inr i)),
  )

module _ {A B : Type 0} (f : A → B) where
  pub map-snoc : (xs : List A) (a : A) → map f (xs ++ a ∷ []) ≡ map f xs ++ f a ∷ []
  map-snoc [] a = refl
  map-snoc (x ∷ xs) a = ap (λ ys. f x ∷ ys) (map-snoc xs a)

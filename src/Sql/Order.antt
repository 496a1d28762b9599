-- ===== src/Sql/Order.antt =====
-- ORDER BY a number, and LIMIT.
use go_web_search.Prelude.{
  ℕ, zero, suc, ◌≤◌, ◌≡◌, ◌⊎◌, inl, inr, Bool, true, false, List, [], ◌∷◌, arith, All, In, take,
  ltb, Bool-cases, map, ap, subst, sym,
}
use go_web_search.Sql.{select, insert_by, order_by}
use go_web_search.Sql.Rows.{All-lookup, All-weaken, All-insert_by, All-take}

module _ {A : Type 0} (key : A → ℕ) where
  -- Each row's key is at most the keys behind it.
  abbrev pub Ordered : List A → Type 0
  Ordered [] = Unit
  Ordered (x ∷ xs) = All (λ y. key x ≤ key y) xs × Ordered xs

  abbrev pub by_key : A → A → Bool
  by_key a b = ltb (key a) (key b)

  -- An order that agrees with the key; between equal keys it may decide as it likes.
  module _ (before : A → A → Bool) (lt : (a b : A) → before a b ≡ true → key a ≤ key b)
      (ge : (a b : A) → before a b ≡ false → key b ≤ key a) where
    insert_by-Ordered : (x : A) (xs : List A) → Ordered xs → Ordered (insert_by before x xs)
    unfolding insert_by
    insert_by-Ordered x [] h = (tt, tt)
    insert_by-Ordered x (y ∷ xs) h = elim (Bool-cases (before y x)) [
      | inl first ↦ rw first (
        All-insert_by (λ z. key y ≤ key z) before x xs (lt y x first) h.0,
        insert_by-Ordered x xs h.1,
      )
      | inr behind ↦
          let le : key x ≤ key y = ge y x behind in
          rw behind (
            (le, All-weaken (λ z. key y ≤ key z) (λ z. key x ≤ key z) xs (λ z k. omega arith) h.0),
            h,
          )
    ]

    pub order_by-before-Ordered : (xs : List A) → Ordered (order_by before xs)
    unfolding order_by
    order_by-before-Ordered [] = tt
    order_by-before-Ordered (x ∷ xs) = insert_by-Ordered x _ (order_by-before-Ordered xs)

  pub order_by-Ordered : (xs : List A) → Ordered (order_by by_key xs)
  order_by-Ordered =
      order_by-before-Ordered by_key (λ a b h. ground (arith, h)) (λ a b h. ground (arith, h))

  pub take-Ordered : (n : ℕ) (xs : List A) → Ordered xs → Ordered (take n xs)
  take-Ordered zero xs h = tt
  take-Ordered (suc n) [] h = tt
  take-Ordered (suc n) (x ∷ xs) h = (All-take (λ y. key x ≤ key y) n xs h.0, take-Ordered n xs h.1)

  -- A row that the limit leaves out is no smaller than any that it keeps.
  pub take-least :
      (n : ℕ) (xs : List A) (x : A)
      → Ordered xs
      → In x xs
      → In x (take n xs) ⊎ All (λ y. key y ≤ key x) (take n xs)
  take-least zero xs x h i = inr tt
  take-least (suc n) [] x h i = absurd i
  take-least (suc n) (y ∷ xs) x h (inl e) = inl (inl e)
  take-least (suc n) (y ∷ xs) x h (inr i) = elim (take-least n xs x h.1 i) [
    | inl kept ↦ inl (inr kept)
    | inr least ↦ inr (All-lookup (λ z. key y ≤ key z) xs x h.0 i, least)
  ]

module _ {A : Type 0} (before : A → A → Bool) where
  behind :
      (x z : A) (ys xs : List A) (y : A)
      → (In y (x ∷ xs) → In y ys)
      → In y (x ∷ z ∷ xs)
      → In y (z ∷ ys)
  behind x z ys xs y f (inl e) = inr (f (inl e))
  behind x z ys xs y f (inr (inl e)) = inl e
  behind x z ys xs y f (inr (inr j)) = inr (f (inr j))

  In-insert_by : (x : A) (xs : List A) (y : A) → In y (x ∷ xs) → In y (insert_by before x xs)
  unfolding insert_by
  In-insert_by x [] y i = i
  In-insert_by x (z ∷ xs) y i = elim (Bool-cases (before z x)) [
    | inl e ↦ rw e (behind x z _ xs y (In-insert_by x xs y) i)
    | inr e ↦ rw e i
  ]

  -- Ordering keeps every row.
  pub In-order_by : (xs : List A) (y : A) → In y xs → In y (order_by before xs)
  unfolding order_by
  In-order_by [] y i = absurd i
  In-order_by (x ∷ xs) y (inl e) = In-insert_by x _ y (inl e)
  In-order_by (x ∷ xs) y (inr i) = In-insert_by x _ y (inr (In-order_by xs y i))

module _ {A : Type 0} where
  pub In-select : (p : A → Bool) (xs : List A) (y : A) → In y xs → p y ≡ true → In y (select p xs)
  unfolding select
  In-select p [] y i e = absurd i
  In-select p (x ∷ xs) y (inl same) e = rw (subst (λ z. p z ≡ true) (sym same) e) (inl same)
  In-select p (x ∷ xs) y (inr i) e = elim (Bool-cases (p x)) [
    | inl t ↦ rw t (inr (In-select p xs y i e))
    | inr f ↦ rw f (In-select p xs y i e)
  ]

  pub In-map : {B : Type 0} (f : A → B) (xs : List A) (y : A) → In y xs → In (f y) (map f xs)
  In-map f [] y i = absurd i
  In-map f (x ∷ xs) y (inl e) = inl (ap f e)
  In-map f (x ∷ xs) y (inr i) = inr (In-map f xs y i)

-- ===== src/Sql/First.antt =====
-- The first row of a condition, after an UPDATE or an INSERT that keeps to it.
use go_web_search.Prelude.{
  ◌<◌, ◌≡◌, refl, Bool, true, false, List, [], ◌∷◌, ◌++◌, none, some, arith, Bool-cases, inl, inr,
  ap, subst, In,
}
use go_web_search.Sql.{update, count, first}

module _ {A : Type 0} (p : A → Bool) where
  pub first_of_count : (rows : List A) → 0 < count p rows → (r : A) × (first p rows ≡ some r)
  unfolding count first
  first_of_count [] h = absurd (omega arith)
  first_of_count (x ∷ rows) h = elim (Bool-cases (p x)) [
    | inl e ↦ (x, rw e refl)
    | inr e ↦ let (r, found) = first_of_count rows (ground (arith, e, h)) in (r, rw e found)
  ]

  -- The UPDATE of the rows that the condition picks, where it goes on to pick them.
  pub first-update :
      (f : A → A) (rows : List A) (r : A)
      → ((x : A) → p x ≡ true → p (f x) ≡ true)
      → first p rows ≡ some r
      → first p (update p f rows) ≡ some (f r)
  unfolding first update
  first-update f [] r keep e = ground arith
  first-update f (x ∷ rows) r keep e = elim (Bool-cases (p x)) [
    | inl t ↦ ground (arith, t, keep x t, e)
    | inr t ↦ ground (arith, t, e, first-update f rows r keep)
  ]

  -- The INSERT of a row that it picks, where it picks none yet.
  pub first-append :
      (rows : List A) (x : A) → count p rows ≡ 0 → p x ≡ true → first p (rows ++ x ∷ []) ≡ some x
  unfolding first count
  first-append [] x h e = rw e refl
  first-append (y ∷ rows) x h e = elim (Bool-cases (p y)) [
    | inl t ↦ absurd (ground (arith, t, h))
    | inr t ↦ rw t (first-append rows x (ground (arith, t, h)) e)
  ]

  pub update_nothing : (f : A → A) (rows : List A) → count p rows ≡ 0 → update p f rows ≡ rows
  unfolding update count
  update_nothing f [] h = refl
  update_nothing f (x ∷ rows) h = elim (Bool-cases (p x)) [
    | inl t ↦ absurd (ground (arith, t, h))
    | inr t ↦ rw t (ap (λ ys. x ∷ ys) (update_nothing f rows (ground (arith, t, h))))
  ]

  pub first-In : (rows : List A) (r : A) → first p rows ≡ some r → In r rows × (p r ≡ true)
  unfolding first
  first-In [] r e = absurd (no_row r e)
    where
      no_row : (r : A) → none ≡ some r → ⊥
      no_row r e = cc
  first-In (x ∷ rows) r e = elim (Bool-cases (p x)) [
    | inl t ↦
        let same : x ≡ r = some-injective (rw t at e) in (inl same, subst (λ y. p y ≡ true) same t)
    | inr f ↦ let (i, t) = first-In rows r (rw f at e) in (inr i, t)
  ]
    where
      some-injective : {a b : A} → some a ≡ some b → a ≡ b
      some-injective e = cc

  pub first-none : (rows : List A) → first p rows ≡ none → (r : A) → In r rows → p r ≡ false
  unfolding first
  first-none [] e r i = absurd i
  first-none (x ∷ rows) e r i = elim (Bool-cases (p x)) [
    | inl t ↦ absurd (no_row (rw t at e))
    | inr f ↦ none_behind f i (first-none rows (rw f at e) r)
  ]
    where
      no_row : {a : A} → some a ≡ none → ⊥
      no_row e = cc

      none_behind : p x ≡ false → In r (x ∷ rows) → (In r rows → p r ≡ false) → p r ≡ false
      none_behind f (inl same) k = subst (λ y. p y ≡ false) same f
      none_behind f (inr j) k = k j

-- ===== src/Sql/Rows.antt =====
-- What holds of every row, or of some row, through the statements.
use mathlib.Core.Path.{subst}
use go_web_search.Prelude.{
  ℕ, zero, suc, ◌≡◌, ◌<◌, refl, sym, inl, inr, Bool, true, false, List, [], ◌∷◌, if◌then◌else◌,
  arith, All, In, take, ap, map,
}
use go_web_search.Sql.{select, update, count, insert_by, order_by}

module _ {A : Type 0} (P : A → Type 0) where
  -- A fact about all rows holds of those that a statement picks, with the condition added.
  pub All-select :
      (p : A → Bool) (rs : List A) → All P rs → All (λ r. P r × (p r ≡ true)) (select p rs)
  unfolding select
  All-select p [] h = tt
  All-select p (r ∷ rs) h =
      (elim (p r)
          as (λ b.
            p r ≡ b → All (λ r. P r × (p r ≡ true)) (if b then r ∷ select p rs else select p rs)) [
              | true ↦ λ e. ((h.0, e), All-select p rs h.1)
              | false ↦ λ e. All-select p rs h.1
            ])
        refl

  pub All-insert_by :
      (before : A → A → Bool) (x : A) (rs : List A) → P x → All P rs → All P (insert_by before x rs)
  unfolding insert_by
  All-insert_by before x [] hx h = (hx, tt)
  All-insert_by before x (r ∷ rs) hx h =
      elim (before r x) as (λ b. All P (if b then r ∷ insert_by before x rs else x ∷ r ∷ rs)) [
        | true ↦ (h.0, All-insert_by before x rs hx h.1)
        | false ↦ (hx, h)
      ]

  pub All-order_by : (before : A → A → Bool) (rs : List A) → All P rs → All P (order_by before rs)
  unfolding order_by
  All-order_by before [] h = tt
  All-order_by before (r ∷ rs) h =
      All-insert_by before r (order_by before rs) h.0 (All-order_by before rs h.1)

  pub All-take : (n : ℕ) (rs : List A) → All P rs → All P (take n rs)
  All-take zero rs h = tt
  All-take (suc n) [] h = tt
  All-take (suc n) (r ∷ rs) h = (h.0, All-take n rs h.1)

  pub All-lookup : (rs : List A) (r : A) → All P rs → In r rs → P r
  All-lookup [] r h i = absurd i
  All-lookup (x ∷ rs) r h (inl e) = subst P e h.0
  All-lookup (x ∷ rs) r h (inr i) = All-lookup rs r h.1 i

module _ {A : Type 0} where
  pub All-weaken : (P Q : A → Type 0) (rs : List A) → ((r : A) → P r → Q r) → All P rs → All Q rs
  All-weaken P Q [] f h = tt
  All-weaken P Q (r ∷ rs) f h = (f r h.0, All-weaken P Q rs f h.1)

  -- Every row of a table occurs in it.
  pub All-In : (rs : List A) → All (λ r. In r rs) rs
  All-In [] = tt
  All-In (r ∷ rs) =
      (inl refl, All-weaken (λ y. In y rs) (λ y. In y (r ∷ rs)) rs (λ x i. inr i) (All-In rs))

  -- A row that the condition picks is changed by f, and one that it does not pick stays.
  pub In-update :
      (p : A → Bool) (f : A → A) (r : A) (rs : List A)
      → In r rs
      → In (if p r then f r else r) (update p f rs)
  unfolding update
  In-update p f r [] i = absurd i
  In-update p f r (x ∷ rs) (inl e) = inl (ap (λ y. if p y then f y else y) e)
  In-update p f r (x ∷ rs) (inr i) = inr (In-update p f r rs i)

  pub In_of_count : (p : A → Bool) (rs : List A) → count p rs ≡ 1 → (r : A) × In r rs × (p r ≡ true)
  unfolding count
  In_of_count p [] h = absurd (omega arith)
  In_of_count p (x ∷ rs) h =
      (elim (p x)
          as (λ b.
            p x ≡ b
            → (if b then suc (count p rs) else count p rs) ≡ 1
            → (r : A) × In r (x ∷ rs) × (p r ≡ true)) [
              | true ↦ λ e k. (x, inl refl, e)
              | false ↦ λ e k. let (r, i, q) = In_of_count p rs k in (r, inr i, q)
            ])
        refl h

  pub count_pos : (p : A → Bool) (rs : List A) (r : A) → In r rs → p r ≡ true → 0 < count p rs
  unfolding count
  count_pos p [] r i e = absurd i
  count_pos p (x ∷ rs) r (inl same) e = rw (subst (λ y. p y ≡ true) (sym same) e) (omega arith)
  count_pos p (x ∷ rs) r (inr i) e = ground (arith, count_pos p rs r i e)

  pub All-map :
      {B : Type 0} (Q : B → Type 0) (f : A → B) (rs : List A)
      → All (λ r. Q (f r)) rs
      → All Q (map f rs)
  All-map Q f [] h = tt
  All-map Q f (r ∷ rs) h = (h.0, All-map Q f rs h.1)

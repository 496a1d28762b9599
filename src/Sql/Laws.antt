-- ===== src/Sql/Laws.antt =====
-- What the statements keep and change.
use go_web_search.Prelude.{
  suc, map, ap, ◌∙◌, ◌≤◌, ◌≡◌, refl, Bool, false, List, [], ◌∷◌, length, arith, All,
}
use go_web_search.Sql.{update, count, select, insert_by, order_by}

module _ {A : Type 0} where
  pub length-update : (p : A → Bool) (f : A → A) (rs : List A) → length (update p f rs) ≡ length rs
  unfolding update
  length-update p f [] = refl
  length-update p f (r ∷ rs) = ground (arith, length-update p f rs)

  pub count-le-length : (p : A → Bool) (rs : List A) → count p rs ≤ length rs
  unfolding count
  count-le-length p [] = omega arith
  count-le-length p (r ∷ rs) = ground (arith, count-le-length p rs)

  -- A statement whose condition holds of no row changes nothing.
  pub update_none :
      (p : A → Bool) (f : A → A) (rs : List A) → All (λ r. p r ≡ false) rs → update p f rs ≡ rs
  unfolding update
  update_none p f [] h = refl
  update_none p f (r ∷ rs) h = ground (arith, update_none p f rs h.1)

  pub count_none : (p : A → Bool) (rs : List A) → All (λ r. p r ≡ false) rs → count p rs ≡ 0
  unfolding count
  count_none p [] h = refl
  count_none p (r ∷ rs) h = ground (arith, count_none p rs h.1)

  pub length-select : (p : A → Bool) (rs : List A) → length (select p rs) ≡ count p rs
  unfolding select count
  length-select p [] = refl
  length-select p (r ∷ rs) = ground (arith, length-select p rs)

  length-insert_by :
      (before : A → A → Bool) (x : A) (ys : List A)
      → length (insert_by before x ys) ≡ suc (length ys)
  unfolding insert_by
  length-insert_by before x [] = refl
  length-insert_by before x (y ∷ ys) = ground (arith, length-insert_by before x ys)

  pub length-order_by :
      (before : A → A → Bool) (xs : List A) → length (order_by before xs) ≡ length xs
  unfolding order_by
  length-order_by before [] = refl
  length-order_by before (x ∷ xs) =
      length-insert_by before x (order_by before xs) ∙ ap suc (length-order_by before xs)

pub length-map : {A B : Type 0} (f : A → B) (xs : List A) → length (map f xs) ≡ length xs
length-map f [] = refl
length-map f (x ∷ xs) = ap suc (length-map f xs)

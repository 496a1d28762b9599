-- ===== src/Vectors/Laws.antt =====
-- The statements on one generation table, where the table exists.
use go_web_search.Prelude.{
  ◌≡◌, refl, Bool, true, false, List, [], ◌∷◌, ◌++◌, Option, some, none, arith, ap, Bool-cases, inl,
  inr,
}
use go_web_search.Strings.{Text, text_eq}
use go_web_search.Rows.{VectorRow, VectorTable}
use go_web_search.Sql.{select, delete}
use go_web_search.Store.{Result, err, World, M, no_such_table}
use go_web_search.Vectors.{find_table, map_table, when_table}

pub when_table_found :
    {A : Type 0} (name : Text) (m : M A) (w : World) (t : VectorTable)
    → find_table name w.tables.vectors ≡ some t
    → when_table name m w ≡ m w
when_table_found {A = A} name m w t found =
    ap (λ o. elim o as (λ _. Result A × World) [ none ↦ (err no_such_table, w) | some t ↦ m w ])
      found

abbrev pub on_rows : (List VectorRow → List VectorRow) → Option VectorTable → Option VectorTable
on_rows f none = none
on_rows f (some t) = some (record t { rows = f t.rows })

-- Only the named table's rows change.
pub find_table-map_table_self :
    (name : Text) (f : List VectorRow → List VectorRow) (ts : List VectorTable)
    → find_table name (map_table name f ts) ≡ on_rows f (find_table name ts)
unfolding find_table map_table
find_table-map_table_self name f [] = refl
find_table-map_table_self name f (t ∷ ts) = elim (Bool-cases (text_eq t.name name)) [
  | inl e ↦ ground (arith, e)
  | inr e ↦ ground (arith, e, find_table-map_table_self name f ts)
]

module _ {A : Type 0} (p : A → Bool) where
  pub select-delete_self : (rows : List A) → select p (delete p rows) ≡ []
  unfolding select delete
  select-delete_self [] = refl
  select-delete_self (r ∷ rows) = elim (Bool-cases (p r)) [
    | inl e ↦ rw e (select-delete_self rows)
    | inr e ↦ rw e (rw e (select-delete_self rows))
  ]

  pub select-append : (xs ys : List A) → select p (xs ++ ys) ≡ select p xs ++ select p ys
  unfolding select
  select-append [] ys = refl
  select-append (x ∷ xs) ys = elim (Bool-cases (p x)) [
    | inl e ↦ rw e (ap (λ rest. x ∷ rest) (select-append xs ys))
    | inr e ↦ rw e (select-append xs ys)
  ]

  -- A row that one condition picks and the other deletes is not there.
  pub select-delete_other :
      (q : A → Bool) (rows : List A)
      → ((r : A) → q r ≡ true → p r ≡ false)
      → select q (delete p rows) ≡ select q rows
  unfolding select delete
  select-delete_other q [] h = refl
  select-delete_other q (r ∷ rows) h = elim (Bool-cases (q r)) [
    | inl e ↦ rw (h r e) (rw e (ap (λ rest. r ∷ rest) (select-delete_other q rows h)))
    | inr e ↦ elim (Bool-cases (p r)) [
      | inl e' ↦ rw e' (rw e (select-delete_other q rows h))
      | inr e' ↦ rw e' (rw e (select-delete_other q rows h))
    ]
  ]

  pub select_one : (r : A) → p r ≡ true → select p (r ∷ []) ≡ r ∷ []
  unfolding select
  select_one r e = rw e refl

  pub select_not_one : (r : A) → p r ≡ false → select p (r ∷ []) ≡ []
  unfolding select
  select_not_one r e = rw e refl

pub append-nil : {A : Type 0} (xs : List A) → xs ++ [] ≡ xs
append-nil [] = refl
append-nil (x ∷ xs) = ap (λ ys. x ∷ ys) (append-nil xs)

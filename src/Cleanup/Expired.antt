-- ===== src/Cleanup/Expired.antt =====
-- cleanup.go, `deleteExpired`: the rows that it leaves.
use go_web_search.Prelude.{
  ℕ, ◌≡◌, refl, inl, inr, Bool, true, false, not, ◌&&◌, ◌||◌, List, [], ◌∷◌, map, Option, String,
  str_eq, if◌then◌else◌, All, In, Distinct, arith, ap, ◌∙◌, sym, subst, Bool-cases, eq_iff,
}
use go_web_search.Clock.{Stamp}
use go_web_search.Rows.{Tables}
use go_web_search.Sql.{select, delete, count}
use go_web_search.Sql.Rows.{All-In, All-weaken, All-lookup, All-select}
use go_web_search.Sql.Order.{In-select, In-map}
use go_web_search.Store.{ok, World, pure, exec, query}
use go_web_search.Store.Laws.{bind_ok, exec_calm, query_calm}
use go_web_search.Cleanup.{past, expired_ids, row_id, delete_row, delete_ids, delete_expired, id_in}

module _ {A : Type 0} where
  select_cong :
      (p q : A → Bool) (rows : List A) → All (λ r. p r ≡ q r) rows → select p rows ≡ select q rows
  unfolding select
  select_cong p q [] h = refl
  select_cong p q (r ∷ rows) h =
      ap (λ b. if b then r ∷ select p rows else select p rows) h.0
      ∙ ap (λ rest. if q r then r ∷ rest else rest) (select_cong p q rows h.1)

  select_all : (rows : List A) → select (λ _. true) rows ≡ rows
  unfolding select
  select_all [] = refl
  select_all (r ∷ rows) = ap (λ rest. r ∷ rest) (select_all rows)

  select-select :
      (p q : A → Bool) (rows : List A) → select q (select p rows) ≡ select (λ r. p r && q r) rows
  unfolding select
  select-select p q [] = refl
  select-select p q (r ∷ rows) = elim (Bool-cases (p r)) [
    | inl e ↦ rw e (ap (λ rest. if q r then r ∷ rest else rest) (select-select p q rows))
    | inr e ↦ rw e (select-select p q rows)
  ]

str_eq_comm : (a b : String) → str_eq a b ≡ str_eq b a
str_eq_comm a b = elim (Bool-cases (str_eq a b)) [
  | inl e ↦ e ∙ sym ((eq_iff b a).1 (sym ((eq_iff a b).0 e)))
  | inr e ↦ elim (Bool-cases (str_eq b a)) [
    | inl e' ↦ absurd (clash e ((eq_iff a b).1 (sym ((eq_iff b a).0 e'))))
    | inr e' ↦ e ∙ sym e'
  ]
]
  where
    clash : str_eq a b ≡ false → str_eq a b ≡ true → ⊥
    clash e e' = cc

gone_cons : (x id : String) (b : Bool) → (not (str_eq x id) && not b) ≡ not (str_eq id x || b)
gone_cons x id b = ground (arith, str_eq_comm x id)

id_in-In : (id : String) (ids : List String) → id_in id ids ≡ true → In id ids
unfolding id_in
id_in-In id [] e = ground arith
id_in-In id (x ∷ ids) e = elim (Bool-cases (str_eq x id)) [
  | inl e' ↦ inl ((eq_iff x id).0 e')
  | inr e' ↦ inr (id_in-In id ids (ground (arith, e, e')))
]

In-id_in : (id : String) (ids : List String) → In id ids → id_in id ids ≡ true
unfolding id_in
In-id_in id [] i = absurd i
In-id_in id (x ∷ ids) (inl e) = ground (arith, (eq_iff x id).1 e)
In-id_in id (x ∷ ids) (inr i) = ground (arith, In-id_in id ids i)

module _ {A : Type 0} where
  In-map_inv :
      {B : Type 0} (f : A → B) (xs : List A) (y : B)
      → In y (map f xs)
      → (x : A) × In x xs × (f x ≡ y)
  In-map_inv f [] y i = absurd i
  In-map_inv f (x ∷ xs) y (inl e) = (x, inl refl, e)
  In-map_inv f (x ∷ xs) y (inr i) = let (z, j, e) = In-map_inv f xs y i in (z, inr j, e)

  In-select_inv : (p : A → Bool) (xs : List A) (y : A) → In y (select p xs) → In y xs × (p y ≡ true)
  In-select_inv p xs y i =
      All-lookup (λ r. In r xs × (p r ≡ true)) (select p xs) y
        (All-select (λ r. In r xs) p xs (All-In xs)) i

  Distinct-same :
      {B : Type 0} (f : A → B) (xs : List A) (a b : A)
      → Distinct (map f xs)
      → In a xs
      → In b xs
      → f a ≡ f b
      → a ≡ b
  Distinct-same f [] a b d i j e = absurd i
  Distinct-same f (x ∷ xs) a b d (inl e1) (inl e2) e = sym e1 ∙ e2
  Distinct-same f (x ∷ xs) a b d (inl e1) (inr j) e =
      absurd (d.0 (subst (λ y. In y (map f xs)) (sym e ∙ ap f (sym e1)) (In-map f xs b j)))
  Distinct-same f (x ∷ xs) a b d (inr i) (inl e2) e =
      absurd (d.0 (subst (λ y. In y (map f xs)) (e ∙ ap f (sym e2)) (In-map f xs a i)))
  Distinct-same f (x ∷ xs) a b d (inr i) (inr j) e = Distinct-same f xs a b (d.1) i j e

module _ {A : Type 0} (id_of : A → String) (expiry : A → Option Stamp) where
  abbrev gone : List String → A → Bool
  gone ids r = not (id_in (id_of r) ids)

  -- Deleting by one id after another leaves the rows whose id is in none of them.
  abbrev drop_ids : List String → List A → List A
  drop_ids [] rows = rows
  drop_ids (id ∷ ids) rows = drop_ids ids (delete (row_id id_of expiry id) rows)

  drop_ids-select : (ids : List String) (rows : List A) → drop_ids ids rows ≡ select (gone ids) rows
  unfolding delete id_in
  drop_ids-select [] rows = sym (select_all rows)
  drop_ids-select (id ∷ ids) rows =
      drop_ids-select ids (delete (row_id id_of expiry id) rows)
      ∙ select-select (λ r. not (row_id id_of expiry id r)) (gone ids) rows
      ∙ select_cong _ _ rows (
          All-weaken (λ r. In r rows) _ rows (λ r i. gone_cons (id_of r) id (id_in (id_of r) ids))
            (All-In rows))

  module _ (at : Stamp) (rows : List A) (distinct : Distinct (map id_of rows)) where
    abbrev is_past : A → Bool
    is_past r = past at (expiry r)

    expired_iff :
        (r : A) → In r rows → id_in (id_of r) (expired_ids id_of expiry at rows) ≡ is_past r
    unfolding expired_ids
    expired_iff r i = elim (Bool-cases (is_past r)) [
      | inl e ↦
          In-id_in (id_of r) (map id_of (select is_past rows))
            (In-map id_of _ r (In-select is_past rows r i e))
          ∙ sym e
      | inr e ↦ elim (Bool-cases (id_in (id_of r) (map id_of (select is_past rows)))) [
        | inl e' ↦
            let (x, j, same) =
              In-map_inv id_of (select is_past rows) (id_of r) (id_in-In (id_of r) _ e') in
            let (k, p) = In-select_inv is_past rows x j in
            absurd (
              clash (is_past r) e
                (subst (λ y. is_past y ≡ true) (Distinct-same id_of rows x r distinct k i same) p))
        | inr e' ↦ e' ∙ sym e
      ]
    ]
      where
        clash : (b : Bool) → b ≡ false → b ≡ true → ⊥
        clash b e e' = cc

    drop_expired :
        drop_ids (expired_ids id_of expiry at rows) rows
        ≡ select (λ r. not (past at (expiry r))) rows
    drop_expired =
        drop_ids-select (expired_ids id_of expiry at rows) rows
        ∙ select_cong _ _ rows
            (All-weaken (λ r. In r rows) _ rows (λ r i. ap not (expired_iff r i)) (All-In rows))

  module _ (rows_of : Tables → List A) (on : (List A → List A) → Tables → Tables)
      (law : (f : List A → List A) (t : Tables) → rows_of (on f t) ≡ f (rows_of t)) where
    delete_ids_calm :
        (ids : List String) (w : World)
        → w.faults ≡ []
        → (w' : World) × (delete_ids id_of expiry rows_of on ids w ≡ (ok tt, w'))
          × (w'.faults ≡ [])
          × (rows_of w'.tables ≡ drop_ids ids (rows_of w.tables))
    unfolding delete_ids delete_row
    delete_ids_calm [] w calm = (w, refl, calm, refl)
    delete_ids_calm (id ∷ ids) w calm =
        let f : List A → List A = delete (row_id id_of expiry id) in
        let step : Tables → Tables × ℕ =
          λ t. (on f t, count (row_id id_of expiry id) (rows_of t)) in
        let w1 : World = record w { tables = on f w.tables } in
        let (w', run, calm', rows) = delete_ids_calm ids w1 calm in
        (
          w',
          bind_ok (exec step) (λ _. delete_ids id_of expiry rows_of on ids) w _ w1
                (exec_calm step w calm)
              ∙ run,
          calm',
          rows ∙ ap (drop_ids ids) (law f w.tables),
        )

    -- Without a fault of the driver, over a store whose ids are distinct: exactly the rows whose expiry
    -- lies before `at` (as texts) are deleted, a row without an expiry never is, and the ids of the
    -- deleted rows are returned for the cascade.
    pub delete_expired_lem :
        (at : Stamp) (w : World)
        → w.faults ≡ []
        → Distinct (map id_of (rows_of w.tables))
        → (w' : World) × (delete_expired id_of expiry rows_of on at w
            ≡ (ok (expired_ids id_of expiry at (rows_of w.tables)), w'))
          × (rows_of w'.tables ≡ select (λ r. not (past at (expiry r))) (rows_of w.tables))
    unfolding delete_expired
    delete_expired_lem at w calm distinct =
        let ids : List String = expired_ids id_of expiry at (rows_of w.tables) in
        let (w', run, calm', rows) = delete_ids_calm ids w calm in
        (
          w',
          bind_ok (query (λ t. expired_ids id_of expiry at (rows_of t))) _ w ids w
                (query_calm (λ t. expired_ids id_of expiry at (rows_of t)) w calm)
              ∙ bind_ok (delete_ids id_of expiry rows_of on ids) (λ _. pure ids) w tt w' run,
          rows ∙ drop_expired at (rows_of w.tables) distinct,
        )

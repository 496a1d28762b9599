-- ===== src/Vectors/Upsert.antt =====
-- UpsertVector: what a table holds after the delete and the insert of its transaction.
use go_web_search.Prelude.{
  ℕ, ◌≡◌, refl, Bool, true, false, List, [], ◌∷◌, ◌++◌, some, String, ℤ, arith, ap, ◌∙◌, Bool-cases,
  inl, inr, sym, eq_refl, eq_iff, ◌&&◌, str_eq,
}
use go_web_search.Clock.{format}
use go_web_search.Strings.{Text}
use go_web_search.Rows.{OwnerKind, memory, search, unknown, Vec, VectorRow, VectorTable, Tables}
use go_web_search.Sql.{select, delete}
use go_web_search.Store.{ok, World, exec, now, now_rfc3339}
use go_web_search.Store.Laws.{exec_calm, now_tables, bind_ok, transaction_calm}
use go_web_search.Vectors.{
  owner_kind_eq, owned_by, find_table, map_table, on_vectors, delete_vector, insert_vector,
  upsert_vector,
}
use go_web_search.Vectors.Laws.{
  when_table_found, on_rows, find_table-map_table_self, select-delete_self, select-append,
  select-delete_other, select_one, select_not_one, append-nil,
}

owner_kind_eq_refl : (k : OwnerKind) → owner_kind_eq k k ≡ true
owner_kind_eq_refl memory = refl
owner_kind_eq_refl search = refl
owner_kind_eq_refl (unknown a) = (eq_refl a)

owner_kind_eq→eq : (a b : OwnerKind) → owner_kind_eq a b ≡ true → a ≡ b
owner_kind_eq→eq memory memory e = refl
owner_kind_eq→eq search search e = refl
owner_kind_eq→eq (unknown a) (unknown b) e = ap unknown ((eq_iff _ _).0 e)
owner_kind_eq→eq memory search e = ground arith
owner_kind_eq→eq memory (unknown b) e = ground arith
owner_kind_eq→eq search memory e = ground arith
owner_kind_eq→eq search (unknown b) e = ground arith
owner_kind_eq→eq (unknown a) memory e = ground arith
owner_kind_eq→eq (unknown a) search e = ground arith

and_true : (a b : Bool) → (a && b) ≡ true → (a ≡ true) × (b ≡ true)
and_true true true e = (refl, refl)
and_true true false e = ground arith
and_true false b e = ground arith

owned_by→eq :
    (k : OwnerKind) (id : String) (r : VectorRow)
    → owned_by k id r ≡ true
    → (r.owner_kind ≡ k) × (r.id ≡ id)
owned_by→eq k id r e =
    let both = and_true (owner_kind_eq r.owner_kind k) (str_eq r.id id) e in
    (owner_kind_eq→eq r.owner_kind k both.0, (eq_iff _ _).0 both.1)

-- Two owners are one, or no row has both.
owned_by_other :
    (k k' : OwnerKind) (id id' : String) (r : VectorRow)
    → ((k ≡ k') × (id ≡ id') → ⊥)
    → owned_by k' id' r ≡ true
    → owned_by k id r ≡ false
owned_by_other k k' id id' r ne e = elim (Bool-cases (owned_by k id r)) [
  | inl e' ↦
      let a = owned_by→eq k id r e' in
      let b = owned_by→eq k' id' r e in absurd (ne (sym a.0 ∙ b.0, sym a.1 ∙ b.1))
  | inr e' ↦ e'
]

-- A world whose vector tables are changed.
abbrev revectored : World → (List VectorTable → List VectorTable) → World
revectored w f = record w { tables = on_vectors f w.tables }

module _ (table : Text) (t : VectorTable) (w : World) (calm : w.faults ≡ [])
    (found : find_table table w.tables.vectors ≡ some t) where
  delete_vector_calm :
      (kind : OwnerKind) (id : String)
      → delete_vector table kind id w
        ≡ (ok 0, revectored w (map_table table (delete (owned_by kind id))))
  unfolding delete_vector
  delete_vector_calm kind id =
      let f : Tables → Tables × ℕ =
        λ t. (on_vectors (map_table table (delete (owned_by kind id))) t, 0) in
      when_table_found table (exec f) w t found ∙ exec_calm f w calm

  insert_vector_calm :
      (r : VectorRow)
      → insert_vector table r w ≡ (ok 1, revectored w (map_table table (λ rows. rows ++ r ∷ [])))
  unfolding insert_vector
  insert_vector_calm r =
      let f : Tables → Tables × ℕ =
        λ t. (on_vectors (map_table table (λ rows. rows ++ r ∷ [])) t, 1) in
      when_table_found table (exec f) w t found ∙ exec_calm f w calm

-- The row that the transaction inserts in the world after its delete.
abbrev pub vector_row : OwnerKind → String → Vec → Text → ℤ → World → VectorRow
vector_row kind id v model dim w = record {
  id = id;
  owner_kind = kind;
  embedding = v;
  model = model;
  dim = dim;
  created_at = format (now w).1.clock;
}

module _ (table : Text) (kind : OwnerKind) (id : String) (v : Vec) (model : Text) (dim : ℤ)
    (t : VectorTable) (w : World) (calm : w.faults ≡ [])
    (found : find_table table w.tables.vectors ≡ some t) where
  abbrev mine : VectorRow → Bool
  mine = owned_by kind id

  abbrev pub deleted : World
  deleted = revectored w (map_table table (delete mine))

  abbrev row : VectorRow
  row = vector_row kind id v model dim deleted

  abbrev stamped : World
  stamped = (now deleted).1

  abbrev pub inserted : World
  inserted = revectored stamped (map_table table (λ rows. rows ++ row ∷ []))

  deleted_table :
      find_table table deleted.tables.vectors ≡ some (record t { rows = delete mine t.rows })
  deleted_table =
      find_table-map_table_self table (delete mine) w.tables.vectors
      ∙ ap (on_rows (delete mine)) found

  stamped_table :
      find_table table stamped.tables.vectors ≡ some (record t { rows = delete mine t.rows })
  stamped_table = ap (λ t. find_table table t.vectors) ((now_tables deleted).0) ∙ deleted_table

  pub upsert_vector_calm : upsert_vector table kind id v model dim w ≡ (ok 1, inserted)
  unfolding upsert_vector now_rfc3339
  upsert_vector_calm = transaction_calm _ w 1 inserted calm ((now_tables deleted).1 ∙ calm) (
      bind_ok (delete_vector table kind id) _ w 0 deleted
        (delete_vector_calm table t w calm found kind id)
      ∙ insert_vector_calm table _ stamped ((now_tables deleted).1 ∙ calm) stamped_table row)

  mine_row : mine row ≡ true
  mine_row = ground (arith, owner_kind_eq_refl kind, eq_refl id)

  -- Without a fault of the driver, over a table that exists: afterwards the table holds exactly one
  -- vector of the owner, the new one, and every other owner's vectors are as they were.
  pub upsert_vector_replaces :
      (w' : World) × (t' : VectorTable) × (r : VectorRow) × (upsert_vector table kind id v model dim
          w
        ≡ (ok 1, w'))
      × (find_table table w'.tables.vectors ≡ some t')
      × (select (owned_by kind id) t'.rows ≡ r ∷ [])
      × (r.embedding ≡ v)
      × (r.model ≡ model)
      × (r.dim ≡ dim)
      × ((k : OwnerKind) (i : String)
          → ((kind ≡ k) × (id ≡ i) → ⊥)
          → select (owned_by k i) t'.rows ≡ select (owned_by k i) t.rows)
  upsert_vector_replaces = (
    inserted,
    record t { rows = delete mine t.rows ++ row ∷ [] },
    row,
    upsert_vector_calm,
    find_table-map_table_self table (λ rows. rows ++ row ∷ []) stamped.tables.vectors
        ∙ ap (on_rows (λ rows. rows ++ row ∷ [])) stamped_table,
    select-append mine (delete mine t.rows) (row ∷ [])
        ∙ ap (λ rows. rows ++ select mine (row ∷ [])) (select-delete_self mine t.rows)
        ∙ select_one mine row mine_row,
    refl,
    refl,
    refl,
    λ k i ne.
        select-append (owned_by k i) (delete mine t.rows) (row ∷ [])
        ∙ ap (λ rows. select (owned_by k i) (delete mine t.rows) ++ rows)
            (select_not_one (owned_by k i) row
              (owned_by_other k kind i id row (λ e. ne (sym e.0, sym e.1)) mine_row))
        ∙ append-nil (select (owned_by k i) (delete mine t.rows))
        ∙ select-delete_other mine (owned_by k i) t.rows (λ x e. owned_by_other kind k id i x ne e),
  )

-- ===== src/Meta/Laws.antt =====
-- What the key/value rows say after a write.
use go_web_search.Prelude.{
  suc, ◌≡◌, ◌<◌, refl, true, false, List, [], ◌∷◌, ◌++◌, Option, some, if◌then◌else◌, ltb, arith,
  Bool-cases, inl, inr, ap, ◌∙◌, subst, sym,
}
use go_web_search.Clock.{Stamp, format}
use go_web_search.Strings.{Text}
use go_web_search.Rows.{
  MetaKey, embed_model, embed_dim, vector_migration, vector_table, vector_gen, MetaRow,
}
use go_web_search.Sql.{count, first, update}
use go_web_search.Store.{ok, World, now, now_rfc3339}
use go_web_search.Store.Laws.{exec_calm, query_calm, now_tables}
use go_web_search.Meta.{
  meta_key_eq, has_key, value_of, meta_value, meta_get, upsert_meta, on_meta, meta_set,
}

meta_key_eq_trans : (a b c : MetaKey) → meta_key_eq a b ≡ true → meta_key_eq a c ≡ meta_key_eq b c
meta_key_eq_trans embed_model embed_model c e = refl
meta_key_eq_trans embed_dim embed_dim c e = refl
meta_key_eq_trans vector_migration vector_migration c e = refl
meta_key_eq_trans vector_table vector_table c e = refl
meta_key_eq_trans vector_gen vector_gen c e = refl
meta_key_eq_trans a b c e = ground arith

meta_key_eq_comm : (a b : MetaKey) → meta_key_eq a b ≡ meta_key_eq b a
meta_key_eq_comm a b = ground arith

abbrev set_value : Text → Stamp → MetaRow → MetaRow
set_value v at r = record r { value = v; updated_at = at }

module _ (k k' : MetaKey) (v : Text) (at : Stamp) where
  abbrev changed : List MetaRow → List MetaRow
  changed = update (has_key k) (set_value v at)

  abbrev added : MetaRow
  added = record { key = k; value = v; updated_at = at }

  abbrev found : List MetaRow → Option Text
  found rows = value_of (first (has_key k') rows)

  update_other :
      meta_key_eq k k' ≡ false → (rows : List MetaRow) → found (changed rows) ≡ found rows
  unfolding first update
  update_other ne [] = refl
  update_other ne (r ∷ rows) = elim (Bool-cases (meta_key_eq r.key k)) [
    | inl e ↦
        let off : meta_key_eq r.key k' ≡ false = meta_key_eq_trans r.key k k' e ∙ ne in
        rw (e, off) (update_other ne rows)
    | inr e ↦ elim (Bool-cases (meta_key_eq r.key k')) [
      | inl e' ↦ rw (e, e') refl
      | inr e' ↦ rw (e, e') (update_other ne rows)
    ]
  ]

  update_same :
      meta_key_eq k k' ≡ true
      → (rows : List MetaRow) → 0 < count (has_key k) rows
      → found (changed rows) ≡ some v
  unfolding first update count
  update_same same [] h = absurd (omega arith)
  update_same same (r ∷ rows) h = elim (Bool-cases (meta_key_eq r.key k)) [
    | inl e ↦
        let on : meta_key_eq r.key k' ≡ true = meta_key_eq_trans r.key k k' e ∙ same in
        rw (e, on) refl
    | inr e ↦
        let off : meta_key_eq r.key k' ≡ false =
          meta_key_eq_comm r.key k'
          ∙ sym (meta_key_eq_trans k k' r.key same)
          ∙ meta_key_eq_comm k r.key
          ∙ e in
        rw (e, off)
          (update_same same rows (
            subst (λ b. 0 < (if b then suc (count (has_key k) rows) else count (has_key k) rows)) e
              h))
  ]

  add_other :
      meta_key_eq k k' ≡ false → (rows : List MetaRow) → found (rows ++ added ∷ []) ≡ found rows
  unfolding first
  add_other ne [] = rw ne refl
  add_other ne (r ∷ rows) = elim (Bool-cases (meta_key_eq r.key k')) [
    | inl e ↦ rw e refl
    | inr e ↦ rw e (add_other ne rows)
  ]

  add_same :
      meta_key_eq k k' ≡ true
      → (rows : List MetaRow) → count (has_key k) rows ≡ 0
      → found (rows ++ added ∷ []) ≡ some v
  unfolding first count
  add_same same [] h = rw same refl
  add_same same (r ∷ rows) h = elim (Bool-cases (meta_key_eq r.key k)) [
    | inl e ↦ absurd (ground (arith, e, h))
    | inr e ↦
        let off : meta_key_eq r.key k' ≡ false =
          meta_key_eq_comm r.key k'
          ∙ sym (meta_key_eq_trans k k' r.key same)
          ∙ meta_key_eq_comm k r.key
          ∙ e in
        rw off (add_same same rows (ground (arith, e, h)))
  ]

  -- Reading a key after a write gives the new value for the written key, and the old one for others.
  pub meta_value-upsert_meta :
      (rows : List MetaRow)
      → meta_value k' (upsert_meta k v at rows)
        ≡ (if meta_key_eq k k' then some v else meta_value k' rows)
  unfolding meta_value upsert_meta
  meta_value-upsert_meta rows = elim (Bool-cases (ltb 0 (count (has_key k) rows))) [
    | inl some_row ↦ elim (Bool-cases (meta_key_eq k k')) [
      | inl e ↦ rw (some_row, e) (update_same e rows (ground (arith, some_row)))
      | inr e ↦ rw (some_row, e) (update_other e rows)
    ]
    | inr none_row ↦ elim (Bool-cases (meta_key_eq k k')) [
      | inl e ↦ rw (none_row, e) (add_same e rows (ground (arith, none_row)))
      | inr e ↦ rw (none_row, e) (add_other e rows)
    ]
  ]

-- What `meta_set` leaves.
pub record Wrote (k : MetaKey) (v : Text) (w w' : World) : Type 0 where
  pub runs : meta_set k v w ≡ (ok 1, w')
  pub calm : w'.faults ≡ []
  pub value :
      (k' : MetaKey)
      → meta_value k' w'.tables.system_meta
        ≡ (if meta_key_eq k k' then some v else meta_value k' w.tables.system_meta)
  pub vectors : w'.tables.vectors ≡ w.tables.vectors

abbrev pub written : MetaKey → Text → World → World
written k v w = record (now w).1 {
  tables = on_meta (upsert_meta k v (format (now w).1.clock)) (now w).1.tables;
}

module _ (k : MetaKey) (v : Text) (w : World) (calm : w.faults ≡ []) where
  pub meta_set_calm : Wrote k v w (written k v w)
  unfolding meta_set now_rfc3339
  meta_set_calm = record {
    runs =
        exec_calm (λ t. (on_meta (upsert_meta k v (format (now w).1.clock)) t, 1)) (now w).1
          ((now_tables w).1 ∙ calm);
    calm = (now_tables w).1 ∙ calm;
    value = λ k'.
        meta_value-upsert_meta k k' v (format (now w).1.clock) (now w).1.tables.system_meta
        ∙ ap (λ t. if meta_key_eq k k' then some v else meta_value k' t.system_meta)
            ((now_tables w).0);
    vectors = ap (λ t. t.vectors) ((now_tables w).0);
  }

pub meta_get_calm :
    (k : MetaKey) (w : World)
    → w.faults ≡ []
    → meta_get k w ≡ (ok (meta_value k w.tables.system_meta), w)
unfolding meta_get
meta_get_calm k w calm = query_calm (λ t. meta_value k t.system_meta) w calm

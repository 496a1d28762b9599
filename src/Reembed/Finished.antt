-- ===== src/Reembed/Finished.antt =====
-- reembed.go, `reembedHandler`: what its success means for the reads.
use go_web_search.Prelude.{◌≡◌, refl, Bool, true, false, [], some, ℤ, ap, ◌∙◌, if◌then◌else◌}
use go_web_search.Decimal.{itoa}
use go_web_search.Strings.{Text}
use go_web_search.Rows.{
  MetaKey, embed_model, embed_dim, vector_migration, vector_table, vector_gen, Tables,
  ReembedPayload, reembed, memory, search,
}
use go_web_search.Store.{ok, World, exec, now_rfc3339}
use go_web_search.Store.Keeps.{Keeps, Keeps-exec, Keeps-bind, Keeps-now_rfc3339, Keeps-pure}
use go_web_search.Store.Ensures.{Ensures, Ensures-kept, Ensures-then, Ensures-exec}
use go_web_search.Meta.{meta_key_eq, meta_value, meta_set, upsert_meta, on_meta}
use go_web_search.Meta.Laws.{meta_value-upsert_meta}
use go_web_search.Vectors.{ensure_vector_table, on_vectors}
use go_web_search.Llm.{LlmClient}
use go_web_search.Reembed.{
  set_vector_meta, drop_table, drop_old, reembed_handler, reembed_owner, fact_items, search_items,
  without_table,
}

abbrev pub Reads : MetaKey → Text → Tables → Type 0
Reads k v t = meta_value k t.system_meta ≡ some v

meta_key_eq_refl : (k : MetaKey) → meta_key_eq k k ≡ true
meta_key_eq_refl embed_model = refl
meta_key_eq_refl embed_dim = refl
meta_key_eq_refl vector_migration = refl
meta_key_eq_refl vector_table = refl
meta_key_eq_refl vector_gen = refl

meta_set-Ensures : (k : MetaKey) (v : Text) → Ensures (Reads k v) (meta_set k v)
unfolding meta_set
meta_set-Ensures k v = Ensures-then (Reads k v) now_rfc3339 _ λ at.
    Ensures-exec (Reads k v) (λ t. (on_meta (upsert_meta k v at) t, 1))
      λ t.
        meta_value-upsert_meta k k v at t.system_meta
        ∙ ap (λ b. if b then some v else meta_value k t.system_meta) (meta_key_eq_refl k)

meta_set-Reads :
    (k k' : MetaKey) (v v' : Text) → meta_key_eq k k' ≡ false → Keeps (Reads k' v') (meta_set k v)
unfolding meta_set
meta_set-Reads k k' v v' other =
    Keeps-bind (Reads k' v') now_rfc3339 _ (Keeps-now_rfc3339 (Reads k' v')) λ at.
      Keeps-exec (Reads k' v') (λ t. (on_meta (upsert_meta k v at) t, 1))
        λ t h.
          meta_value-upsert_meta k k' v at t.system_meta
          ∙ ap (λ b. if b then some v else meta_value k' t.system_meta) other
          ∙ h

module _ (table model : Text) (dim : ℤ) where
  set_vector_meta-table : Ensures (Reads vector_table table) (set_vector_meta table model dim)
  unfolding set_vector_meta
  set_vector_meta-table =
      Ensures-kept (Reads vector_table table) (meta_set vector_table table) _
        (meta_set-Ensures vector_table table)
        λ _.
          Keeps-bind (Reads vector_table table) (meta_set embed_model model) _
            (meta_set-Reads embed_model vector_table model table refl)
            λ _.
              Keeps-bind (Reads vector_table table) (meta_set embed_dim (itoa dim)) _
                (meta_set-Reads embed_dim vector_table (itoa dim) table refl)
                λ _.
                  Keeps-bind (Reads vector_table table) (meta_set vector_migration []) _
                    (meta_set-Reads vector_migration vector_table [] table refl)
                    λ _. Keeps-pure (Reads vector_table table) tt

  set_vector_meta-migration : Ensures (Reads vector_migration []) (set_vector_meta table model dim)
  unfolding set_vector_meta
  set_vector_meta-migration =
      Ensures-then (Reads vector_migration []) (meta_set vector_table table) _ λ _.
        Ensures-then (Reads vector_migration []) (meta_set embed_model model) _ λ _.
          Ensures-then (Reads vector_migration []) (meta_set embed_dim (itoa dim)) _ λ _.
            Ensures-kept (Reads vector_migration []) (meta_set vector_migration []) _
              (meta_set-Ensures vector_migration []) λ _. Keeps-pure (Reads vector_migration []) tt

module _ (llm : LlmClient) (k : MetaKey) (v : Text) where
  drop_old-Reads : (b : Bool) (t : Text) → Keeps (Reads k v) (drop_old llm b t)
  unfolding drop_table
  drop_old-Reads true t =
      Keeps-bind (Reads k v) (exec (λ x. (on_vectors (without_table t) x, 0))) _
        (Keeps-exec (Reads k v) (λ x. (on_vectors (without_table t) x, 0)) λ x h. h)
        λ _. Keeps-pure (Reads k v) tt
  drop_old-Reads false t = Keeps-pure (Reads k v) tt

  reembed_handler-Reads :
      (p : ReembedPayload)
      → Ensures (Reads k v) (set_vector_meta p.new_table p.model p.dim)
      → Ensures (Reads k v) (reembed_handler llm (reembed p))
  unfolding reembed_handler
  reembed_handler-Reads p h =
      Ensures-then (Reads k v) (ensure_vector_table p.new_table p.dim) _ λ _.
        Ensures-then (Reads k v) (reembed_owner llm p.new_table memory (fact_items llm)) _ λ _.
          Ensures-then (Reads k v) (reembed_owner llm p.new_table search (search_items llm)) _ λ _.
            Ensures-kept (Reads k v) (set_vector_meta p.new_table p.model p.dim) _ h
              λ _. drop_old-Reads _ p.old_table

-- Wherever the driver or the model fails: when the migration job reports success, the new table is
-- the active one and no migration is marked, so that the reads go on, on the new table.
pub reembed_handler_finished :
    (llm : LlmClient) (p : ReembedPayload) (w : World)
    → (reembed_handler llm (reembed p) w).0 ≡ ok tt
    → (meta_value vector_table (reembed_handler llm (reembed p) w).1.tables.system_meta
        ≡ some p.new_table)
      × (meta_value vector_migration (reembed_handler llm (reembed p) w).1.tables.system_meta
          ≡ some [])
reembed_handler_finished llm p w e = (
  (reembed_handler-Reads llm vector_table p.new_table p
        (set_vector_meta-table p.new_table p.model p.dim)).at
      w tt e,
  (reembed_handler-Reads llm vector_migration [] p
        (set_vector_meta-migration p.new_table p.model p.dim)).at
      w tt e,
)

-- ===== src/Reembed/Switch.antt =====
-- vectors.go, `activeVectorTable`, and reembed.go, `setVectorMeta`: which table the semantic reads use before, during and after a migration.
use go_web_search.Prelude.{
  ◌≡◌, ◌≢◌, refl, Bool, true, false, [], ◌∷◌, Option, none, some, ℤ, ap, ◌∙◌,
}
use go_web_search.Decimal.{itoa}
use go_web_search.Strings.{Text}
use go_web_search.Rows.{embed_model, embed_dim, vector_migration, vector_table, vector_gen}
use go_web_search.Store.{ok, World}
use go_web_search.Store.Laws.{bind_ok}
use go_web_search.Meta.{meta_get, meta_set, meta_value}
use go_web_search.Meta.Laws.{Wrote, written, meta_set_calm, meta_get_calm}
use go_web_search.Vectors.{active_vector_table, active_from, ready_unless, no_table}
use go_web_search.Reembed.{set_vector_meta}

-- The active table by the two keys that decide it.
unfoldable pub active_of : Option Text → Option Text → Text × Bool
active_of none migrating = (no_table, false)
active_of (some []) migrating = (no_table, false)
active_of (some (c ∷ s)) migrating = ready_unless (c ∷ s) migrating

active_from_calm :
    (found : Option Text) (w : World)
    → w.faults ≡ []
    → active_from found w
      ≡ (ok (active_of found (meta_value vector_migration w.tables.system_meta)), w)
unfolding active_of
active_from_calm none w calm = refl
active_from_calm (some []) w calm = refl
active_from_calm (some (c ∷ s)) w calm =
    bind_ok (meta_get vector_migration) _ w _ w (meta_get_calm vector_migration w calm)

pub active_vector_table_calm :
    (w : World)
    → w.faults ≡ []
    → active_vector_table w ≡ (
      ok (
          active_of
            (meta_value vector_table w.tables.system_meta)
            (meta_value vector_migration w.tables.system_meta)),
      w,
    )
unfolding active_vector_table
active_vector_table_calm w calm =
    bind_ok (meta_get vector_table) active_from w _ w (meta_get_calm vector_table w calm)
    ∙ active_from_calm (meta_value vector_table w.tables.system_meta) w calm

active_of_named : (table : Text) → table ≢ [] → active_of (some table) (some []) ≡ (table, true)
unfolding active_of
active_of_named [] h = absurd (h refl)
active_of_named (c ∷ s) h = refl

module _ (table model : Text) (dim : ℤ) (w : World) (calm : w.faults ≡ []) where
  abbrev w1 : World
  w1 = written vector_table table w

  abbrev w2 : World
  w2 = written embed_model model w1

  abbrev w3 : World
  w3 = written embed_dim (itoa dim) w2

  abbrev w4 : World
  w4 = written vector_migration [] w3

  r1 : Wrote vector_table table w w1
  r1 = meta_set_calm vector_table table w calm

  r2 : Wrote embed_model model w1 w2
  r2 = meta_set_calm embed_model model w1 (r1.calm)

  r3 : Wrote embed_dim (itoa dim) w2 w3
  r3 = meta_set_calm embed_dim (itoa dim) w2 (r2.calm)

  r4 : Wrote vector_migration [] w3 w4
  r4 = meta_set_calm vector_migration [] w3 (r3.calm)

  set_vector_meta_runs : set_vector_meta table model dim w ≡ (ok tt, w4)
  unfolding set_vector_meta
  set_vector_meta_runs =
      bind_ok (meta_set vector_table table) _ w 1 w1 (r1.runs)
      ∙ bind_ok (meta_set embed_model model) _ w1 1 w2 (r2.runs)
      ∙ bind_ok (meta_set embed_dim (itoa dim)) _ w2 1 w3 (r3.runs)
      ∙ bind_ok (meta_set vector_migration []) _ w3 1 w4 (r4.runs)

  names_table : meta_value vector_table w4.tables.system_meta ≡ some table
  names_table =
      r4.value vector_table ∙ r3.value vector_table ∙ r2.value vector_table ∙ r1.value vector_table

  -- Without a fault of the driver, once setVectorMeta has run, the metadata hold its table, model and
  -- dimension and an empty migration key, so that semantic reads use the table, ready, where its name
  -- is not empty; the generation and the vectors are untouched.
  pub set_vector_meta_switches :
      (w' : World) × (set_vector_meta table model dim w ≡ (ok tt, w'))
      × (w'.faults ≡ [])
      × (meta_value vector_table w'.tables.system_meta ≡ some table)
      × (meta_value vector_migration w'.tables.system_meta ≡ some [])
      × (table ≢ [] → active_vector_table w' ≡ (ok (table, true), w'))
      × (meta_value embed_model w'.tables.system_meta ≡ some model)
      × (meta_value embed_dim w'.tables.system_meta ≡ some (itoa dim))
      × (meta_value vector_gen w'.tables.system_meta ≡ meta_value vector_gen w.tables.system_meta)
      × (w'.tables.vectors ≡ w.tables.vectors)
  set_vector_meta_switches = (
    w4,
    set_vector_meta_runs,
    r4.calm,
    names_table,
    r4.value vector_migration,
    λ h.
        active_vector_table_calm w4 (r4.calm)
        ∙ ap (λ x. (ok (active_of x (meta_value vector_migration w4.tables.system_meta)), w4))
            names_table
        ∙ ap (λ x. (ok (active_of (some table) x), w4)) (r4.value vector_migration)
        ∙ ap (λ x. (ok x, w4)) (active_of_named table h),
    r4.value embed_model ∙ r3.value embed_model ∙ r2.value embed_model,
    r4.value embed_dim ∙ r3.value embed_dim,
    r4.value vector_gen ∙ r3.value vector_gen ∙ r2.value vector_gen ∙ r1.value vector_gen,
    r4.vectors ∙ r3.vectors ∙ r2.vectors ∙ r1.vectors,
  )

-- ===== src/Reembed/Migrate.antt =====
-- reembed.go, `bootVectors` with a changed embedding model, and the reads in gate.go and
-- searchcache.go while the migration runs.
use go_web_search.Prelude.{ℕ, suc, ◌≡◌, refl, false, [], ◌∷◌, ◌++◌, none, some, ℤ, ap, ◌∙◌}
use go_web_search.Clock.{Duration, format}
use go_web_search.Decimal.{itoa_nat, atoi_or_zero}
use go_web_search.Strings.{Text}
use go_web_search.Rows.{
  vector_migration, vector_table, vector_gen, Tables, reembed_job, Payload, reembed, pending,
  JobRow, Vec,
}
use go_web_search.Store.{ok, World, ignore, or_default, exec, now}
use go_web_search.Store.Laws.{bind_ok, exec_calm, now_tables}
use go_web_search.Tier.{TierConfig}
use go_web_search.Llm.{LlmClient}
use go_web_search.Meta.{meta_get, meta_set, meta_value}
use go_web_search.Meta.Laws.{Wrote, written, meta_set_calm, meta_get_calm}
use go_web_search.Vectors.{active_vector_table, ensure_vector_table, create_table, on_vectors}
use go_web_search.Jobs.Enqueue.{enqueued, enqueue_job_calm}
use go_web_search.Jobs.{enqueue_job, fresh_job}
use go_web_search.Memory.{MemoryConfig}
use go_web_search.Gate.{memory_answer, answer_with}
use go_web_search.SearchCache.{lookup_semantic, semantic_in}
use go_web_search.Reembed.{boot_migrate, generation_name, text_or_empty}
use go_web_search.Reembed.Switch.{active_of, active_vector_table_calm}

abbrev ensured : Text → World → World
ensured name w = record w { tables = on_vectors (create_table name) w.tables }

ensure_vector_table_calm :
    (name : Text) (dim : ℤ) (w : World)
    → w.faults ≡ []
    → ensure_vector_table name dim w ≡ (ok 0, ensured name w)
unfolding ensure_vector_table
ensure_vector_table_calm name dim w calm =
    let step : Tables → Tables × ℕ = λ t. (on_vectors (create_table name) t, 0) in
    let index : Tables → Tables × ℕ = λ t. (t, 0) in
    bind_ok (exec step) (λ _. exec index) w 0 (ensured name w) (exec_calm step w calm)
    ∙ exec_calm index (ensured name w) calm

-- The number of the generation that a migration creates.
pub next_gen : World → ℕ
next_gen w = suc (atoi_or_zero (text_or_empty (meta_value vector_gen w.tables.system_meta)))

module _ (cur model : Text) (dim : ℤ) (w : World) (calm : w.faults ≡ []) where
  abbrev name : Text
  name = generation_name (next_gen w)

  abbrev payload : Payload
  payload = reembed (record { old_table = cur; new_table = name; model = model; dim = dim })

  abbrev v1 : World
  v1 = ensured name w

  abbrev v2 : World
  v2 = written vector_gen (itoa_nat (next_gen w)) v1

  abbrev v3 : World
  v3 = written vector_migration name v2

  abbrev v4 : World
  v4 = enqueued reembed_job payload v3

  s2 : Wrote vector_gen (itoa_nat (next_gen w)) v1 v2
  s2 = meta_set_calm vector_gen (itoa_nat (next_gen w)) v1 calm

  s3 : Wrote vector_migration name v2 v3
  s3 = meta_set_calm vector_migration name v2 (s2.calm)

  boot_migrate_runs : boot_migrate cur model dim w ≡ (ok tt, v4)
  unfolding boot_migrate next_gen
  boot_migrate_runs =
      bind_ok (ignore none (meta_get vector_gen)) _ w _ w
        (ap (or_default none) (meta_get_calm vector_gen w calm))
      ∙ bind_ok (ensure_vector_table name dim) _ w 0 v1 (ensure_vector_table_calm name dim w calm)
      ∙ bind_ok (meta_set vector_gen (itoa_nat (next_gen w))) _ v1 1 v2 (s2.runs)
      ∙ bind_ok (meta_set vector_migration name) _ v2 1 v3 (s3.runs)
      ∙ bind_ok (enqueue_job reembed_job payload) _ v3 _ v4
          (enqueue_job_calm reembed_job payload v3 (s3.calm))

  v4_calm : v4.faults ≡ []
  v4_calm = (now_tables (record v3 { issued = suc v3.issued })).1 ∙ s3.calm

  v4_meta : v4.tables.system_meta ≡ v3.tables.system_meta
  v4_meta = ap (λ t. t.system_meta) ((now_tables (record v3 { issued = suc v3.issued })).0)

  v4_active :
      meta_value vector_table w.tables.system_meta ≡ some cur
      → active_vector_table v4 ≡ (ok (active_of (some cur) (some name)), v4)
  v4_active e =
      active_vector_table_calm v4 v4_calm
      ∙ ap (λ m. (ok (active_of (meta_value vector_table m) (meta_value vector_migration m)), v4))
          v4_meta
      ∙ ap (λ x. (ok (active_of x (meta_value vector_migration v3.tables.system_meta)), v4))
          (s3.value vector_table ∙ s2.value vector_table ∙ e)
      ∙ ap (λ x. (ok (active_of (some cur) x), v4)) (s3.value vector_migration)

  v4_jobs :
      v4.tables.jobs
      ≡ w.tables.jobs
        ++ fresh_job
            (v3.uuid v3.issued)
            reembed_job
            payload
            (format (now (record v3 { issued = suc v3.issued })).1.clock)
          ∷ []
  v4_jobs =
      ap
        (λ rows.
          rows
          ++ fresh_job (v3.uuid v3.issued) reembed_job payload
              (format (now (record v3 { issued = suc v3.issued })).1.clock)
            ∷ [])
        (ap (λ t. t.jobs) ((now_tables (record v3 { issued = suc v3.issued })).0)
          ∙ ap (λ t. t.jobs) ((now_tables v2).0)
          ∙ ap (λ t. t.jobs) ((now_tables v1).0))

  v4_gen : meta_value vector_gen v4.tables.system_meta ≡ some (itoa_nat (next_gen w))
  v4_gen = ap (meta_value vector_gen) v4_meta ∙ s3.value vector_gen ∙ s2.value vector_gen

-- With the active table inactive for reads, the gates and the semantic lookup find nothing.
module _ (table : Text) (w : World) (active : active_vector_table w ≡ (ok (table, false), w)) where
  memory_answer_waits :
      (llm : LlmClient) (cfg : TierConfig) (mem : MemoryConfig) (q : Text)
      → memory_answer llm cfg mem q w ≡ (ok none, w)
  unfolding memory_answer
  memory_answer_waits llm cfg mem q =
      bind_ok active_vector_table (answer_with llm cfg mem q) w (table, false) w active

  lookup_semantic_waits :
      (cfg : TierConfig) (mem : MemoryConfig) (v : Vec) (age : Duration)
      → lookup_semantic cfg mem v age w ≡ (ok none, w)
  unfolding lookup_semantic
  lookup_semantic_waits cfg mem v age =
      bind_ok active_vector_table (semantic_in cfg mem v age) w (table, false) w active

module _ (c : ℕ) (s model : Text) (dim : ℤ) (w : World) (calm : w.faults ≡ []) where
  inactive :
      meta_value vector_table w.tables.system_meta ≡ some (c ∷ s)
      → active_vector_table (v4 (c ∷ s) model dim w calm)
        ≡ (ok (c ∷ s, false), v4 (c ∷ s) model dim w calm)
  unfolding active_of generation_name
  inactive e = v4_active (c ∷ s) model dim w calm e

  -- Without a fault of the driver, where a table is active: once the boot check has started a
  -- migration, the old table stays the active one but is not ready, so that memory answers nothing
  -- and the semantic lookup finds nothing, whatever is asked and without a call of the model; the
  -- generation is counted up, and one pending job that names both tables is queued.
  pub boot_migrate_gates :
      meta_value vector_table w.tables.system_meta ≡ some (c ∷ s)
      → (w' : World) × (r : JobRow) × (boot_migrate (c ∷ s) model dim w ≡ (ok tt, w'))
        × (active_vector_table w' ≡ (ok (c ∷ s, false), w'))
        × ((llm : LlmClient) (cfg : TierConfig) (mem : MemoryConfig) (q : Text)
            → memory_answer llm cfg mem q w' ≡ (ok none, w'))
        × ((cfg : TierConfig) (mem : MemoryConfig) (v : Vec) (age : Duration)
            → lookup_semantic cfg mem v age w' ≡ (ok none, w'))
        × (meta_value vector_gen w'.tables.system_meta ≡ some (itoa_nat (next_gen w)))
        × (w'.tables.jobs ≡ w.tables.jobs ++ r ∷ [])
        × (r.status ≡ pending)
        × (r.payload
            ≡ reembed (record {
              old_table = c ∷ s;
              new_table = generation_name (next_gen w);
              model = model;
              dim = dim;
            }))
  unfolding fresh_job
  boot_migrate_gates e = (
    v4 (c ∷ s) model dim w calm,
    _,
    boot_migrate_runs (c ∷ s) model dim w calm,
    inactive e,
    memory_answer_waits (c ∷ s) (v4 (c ∷ s) model dim w calm) (inactive e),
    lookup_semantic_waits (c ∷ s) (v4 (c ∷ s) model dim w calm) (inactive e),
    v4_gen (c ∷ s) model dim w calm,
    v4_jobs (c ∷ s) model dim w calm,
    refl,
    refl,
  )

-- ===== src/Examples/Reads.antt =====
-- The theorems on the vectors, the migration and the answers from memory, in a small store.
use go_web_search.Prelude.{
  ◌≡◌, ◌≢◌, refl, true, false, List, [], ◌∷◌, ◌++◌, none, some, String, pos, All,
}
use go_web_search.Clock.{Duration}
use go_web_search.Decimal.{itoa, itoa_nat}
use go_web_search.Strings.{Text, runes, text_eq, has_prefix, to_upper, trim_space}
use go_web_search.Rows.{
  OwnerKind, memory, Vec, VectorRow, VectorTable, JobRow, vector_gen, embed_model, embed_dim,
  pending, reembed,
}
use go_web_search.Sql.{select, first, order_by}
use go_web_search.Store.{World, ok, query, lift}
use go_web_search.Tier.{TierConfig, next_expiry}
use go_web_search.Freshness.{fresh_enough, fresh_at, volatility_max_age}
use go_web_search.Llm.{LlmClient}
use go_web_search.Meta.{meta_value}
use go_web_search.Vectors.{
  find_table, owned_by, upsert_vector, vector_search, active_vector_table, nearest,
}
use go_web_search.Vectors.Upsert.{upsert_vector_replaces}
use go_web_search.Memory.{
  MemoryConfig, MemoryFact, retrieve_facts, read_fact, scan_fact, touch_memory_fact,
}
use go_web_search.Gate.{
  memory_answer, is_insufficient, join_facts, fresh_facts, adjudicate, record_memory_hits,
}
use go_web_search.Gate.Sound.{Passed}
use go_web_search.Gate.Answer.{memory_answer_sound}
use go_web_search.SearchCache.{lookup_semantic}
use go_web_search.Reembed.{boot_migrate, set_vector_meta, generation_name}
use go_web_search.Reembed.{reembed_handler, reembed_owner, drop_table}
use go_web_search.Reembed.Finished.{reembed_handler_finished}
use go_web_search.Rows.{ReembedPayload, vector_migration, vector_table}
use go_web_search.Store.{transaction, exec, now_rfc3339}
use go_web_search.Vectors.{
  ensure_vector_table, create_table, delete_vector, insert_vector, map_table,
}
use go_web_search.Meta.{meta_set}
use go_web_search.Reembed.Switch.{set_vector_meta_switches}
use go_web_search.Reembed.Migrate.{boot_migrate_gates, next_gen}
use go_web_search.Examples.Data.{world, service, tiers, memory_settings, generation, fact_row}

upsert_vector_replaces_example :
    (w' : World) × (t' : VectorTable) × (r : VectorRow) × (upsert_vector
        (runes "vectors_g1")
        memory
        "f"
        (7 ∷ [])
        (runes "m2")
        (pos 1)
        world
      ≡ (ok 1, w'))
    × (find_table (runes "vectors_g1") w'.tables.vectors ≡ some t')
    × (select (owned_by memory "f") t'.rows ≡ r ∷ [])
    × (r.embedding ≡ 7 ∷ [])
    × (r.model ≡ runes "m2")
    × (r.dim ≡ pos 1)
    × ((k : OwnerKind) (i : String)
        → ((memory ≡ k) × ("f" ≡ i) → ⊥)
        → select (owned_by k i) t'.rows ≡ select (owned_by k i) generation.rows)
unfolding find_table text_eq
upsert_vector_replaces_example =
    upsert_vector_replaces (runes "vectors_g1") memory "f" (7 ∷ []) (runes "m2") (pos 1) generation
      world refl refl

set_vector_meta_switches_example :
    (w' : World) × (set_vector_meta (runes "vectors_g2") (runes "m2") (pos 3) world ≡ (ok tt, w'))
    × (w'.faults ≡ [])
    × (meta_value vector_table w'.tables.system_meta ≡ some (runes "vectors_g2"))
    × (meta_value vector_migration w'.tables.system_meta ≡ some [])
    × (runes "vectors_g2" ≢ [] → active_vector_table w' ≡ (ok (runes "vectors_g2", true), w'))
    × (meta_value embed_model w'.tables.system_meta ≡ some (runes "m2"))
    × (meta_value embed_dim w'.tables.system_meta ≡ some (itoa (pos 3)))
    × (meta_value vector_gen w'.tables.system_meta ≡ meta_value vector_gen world.tables.system_meta)
    × (w'.tables.vectors ≡ world.tables.vectors)
set_vector_meta_switches_example =
    set_vector_meta_switches (runes "vectors_g2") (runes "m2") (pos 3) world refl

boot_migrate_gates_example :
    (w' : World) × (r : JobRow) × (boot_migrate (runes "vectors_g1") (runes "m2") (pos 3) world
      ≡ (ok tt, w'))
    × (active_vector_table w' ≡ (ok (runes "vectors_g1", false), w'))
    × ((llm : LlmClient) (cfg : TierConfig) (mem : MemoryConfig) (q : Text)
        → memory_answer llm cfg mem q w' ≡ (ok none, w'))
    × ((cfg : TierConfig) (mem : MemoryConfig) (v : Vec) (age : Duration)
        → lookup_semantic cfg mem v age w' ≡ (ok none, w'))
    × (meta_value vector_gen w'.tables.system_meta ≡ some (itoa_nat (next_gen world)))
    × (w'.tables.jobs ≡ world.tables.jobs ++ r ∷ [])
    × (r.status ≡ pending)
    × (r.payload
        ≡ reembed (record {
          old_table = runes "vectors_g1";
          new_table = generation_name (next_gen world);
          model = runes "m2";
          dim = pos 3;
        }))
unfolding meta_value first
boot_migrate_gates_example =
    boot_migrate_gates b'v' (runes "ectors_g1") (runes "m2") (pos 3) world refl refl

abbrev pub question : Text
question = runes "When was Go 1.22 released?"

abbrev pub used : List MemoryFact
used = record (read_fact fact_row) { hit_count = 1; similarity = pos 900000 } ∷ []

pub answered :
    (memory_answer service tiers memory_settings question world).0
    ≡ ok (some (runes "February 2024", used))
unfolding memory_answer active_vector_table meta_value first vector_search find_table text_eq
    nearest order_by select retrieve_facts scan_fact fresh_facts fresh_enough volatility_max_age
    adjudicate has_prefix to_upper trim_space record_memory_hits touch_memory_fact next_expiry
    read_fact query lift fresh_at
answered = refl

memory_answer_sound_example :
    (used ≢ [])
    × All (Passed memory_settings world.clock) used
    × (true ≡ true → is_insufficient (runes "February 2024") ≡ false)
    × (true ≡ false → runes "February 2024" ≡ join_facts used)
memory_answer_sound_example =
    memory_answer_sound memory_settings service tiers (runes "When was Go 1.22 released?") world
      (runes "February 2024") used answered

abbrev migration : ReembedPayload
migration = record {
  old_table = runes "vectors_g1";
  new_table = runes "vectors_g2";
  model = runes "m2";
  dim = pos 1;
}

migrated : (reembed_handler service (reembed migration) world).0 ≡ ok tt
unfolding reembed_handler ensure_vector_table create_table find_table text_eq reembed_owner
    upsert_vector transaction delete_vector insert_vector map_table set_vector_meta meta_set
    drop_table query exec lift now_rfc3339 trim_space
migrated = refl

reembed_handler_finished_example :
    (meta_value vector_table
        (reembed_handler service (reembed migration) world).1.tables.system_meta
      ≡ some (runes "vectors_g2"))
    × (meta_value vector_migration
          (reembed_handler service (reembed migration) world).1.tables.system_meta
        ≡ some [])
reembed_handler_finished_example = reembed_handler_finished service migration world migrated

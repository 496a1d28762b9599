-- ===== src/Memory/Orphan.antt =====
-- memory.go, `StoreFact`, where the nearest vector's fact is gone.
use go_web_search.Prelude.{
  ◌≡◌, refl, List, [], ◌∷◌, none, some, String, ap, ◌∙◌, sym, subst, Bool, arith,
}
use go_web_search.Clock.{Time, format}
use go_web_search.Strings.{Text}
use go_web_search.Rows.{Tier, FactRow, VectorRow, VectorTable, Vec, memory}
use go_web_search.Sql.{first, update, count, select}
use go_web_search.Sql.First.{update_nothing}
use go_web_search.Store.{ok, World, ignore, or_default}
use go_web_search.Store.Laws.{bind_ok, exec_calm, query_calm, now_tables}
use go_web_search.Tier.{TierConfig, next_expiry}
use go_web_search.Llm.{LlmClient}
use go_web_search.Vectors.{find_table, upsert_vector, owned_by}
use go_web_search.Vectors.Upsert.{upsert_vector_calm, upsert_vector_replaces, inserted, deleted}
use go_web_search.Memory.{
  MemoryConfig, on_facts, fact_id, scan_fact, read_fact, map_option, refresh, update_facts,
  refresh_fact,
}

count_of_first : (p : FactRow → Bool) (rows : List FactRow) → first p rows ≡ none → count p rows ≡ 0
unfolding first count
count_of_first p [] h = refl
count_of_first p (r ∷ rows) h = ground (arith, h, count_of_first p rows)

module _ (cfg : TierConfig) (mem : MemoryConfig) (llm : LlmClient) (table : Text) (vec : Vec)
    (t : Time) (text source_url volatility : Text) (tier : Tier) (id : String) (w : World)
    (vectors : VectorTable) (calm : w.faults ≡ [])
    (found : find_table table w.tables.vectors ≡ some vectors)
    (gone : first (fact_id id) w.tables.memory_facts ≡ none) where
  abbrev change : FactRow → FactRow
  change = refresh text source_url volatility (next_expiry t tier 0 cfg) (format t)

  abbrev changed : World
  changed = record w { tables = on_facts (update (fact_id id) change) w.tables }

  scan_gone : ignore none (scan_fact id) w ≡ (ok none, w)
  unfolding scan_fact
  scan_gone = ap (or_default none) (
      query_calm (λ t. map_option read_fact (first (fact_id id) t.memory_facts)) w calm
      ∙ ap (λ o. (ok (map_option read_fact o), w)) gone)

  update_gone :
      update_facts (fact_id id) change w ≡ (ok (count (fact_id id) w.tables.memory_facts), changed)
  unfolding update_facts
  update_gone =
      exec_calm (λ t. (on_facts (update (fact_id id) change) t, count (fact_id id) t.memory_facts))
        w calm

  abbrev final : World
  final = inserted table memory id vec llm.embed_model_name llm.embed_dim vectors changed calm found

  refresh_runs :
      refresh_fact cfg mem llm table vec t text source_url volatility tier id w ≡ (ok id, final)
  unfolding refresh_fact
  refresh_runs =
      bind_ok (ignore none (scan_fact id)) _ w none w scan_gone
      ∙ bind_ok (update_facts (fact_id id) change) _ w _ changed update_gone
      ∙ bind_ok (upsert_vector table memory id vec llm.embed_model_name llm.embed_dim) _ changed 1
          final
          (upsert_vector_calm table memory id vec llm.embed_model_name llm.embed_dim vectors changed
            calm found)

  final_facts : final.tables.memory_facts ≡ w.tables.memory_facts
  final_facts =
      ap (λ t. t.memory_facts)
        ((now_tables (
          deleted table memory id vec llm.embed_model_name llm.embed_dim vectors changed calm
            found)).0)
      ∙ update_nothing (fact_id id) change w.tables.memory_facts
          (count_of_first (fact_id id) w.tables.memory_facts gone)

  -- Without a fault of the driver, where no fact has the id that StoreFact refreshes (that of the
  -- nearest vector): the refresh reports success under the id, but no fact row is written, so the new
  -- text is lost, while its vector is stored as the only one of an id that no fact has.
  pub refresh_fact_loses :
      (w' : World) × (refresh_fact cfg mem llm table vec t text source_url volatility tier id w
        ≡ (ok id, w'))
      × (w'.tables.memory_facts ≡ w.tables.memory_facts)
      × (first (fact_id id) w'.tables.memory_facts ≡ none)
      × (t' : VectorTable) × (r : VectorRow) × (find_table table w'.tables.vectors ≡ some t')
      × (select (owned_by memory id) t'.rows ≡ r ∷ [])
      × (r.embedding ≡ vec)
  refresh_fact_loses =
      let (w', t', r, run, there, mine, same, model, dim, others) =
        upsert_vector_replaces table memory id vec llm.embed_model_name llm.embed_dim vectors
          changed calm found in
      (
        final,
        refresh_runs,
        final_facts,
        ap (first (fact_id id)) final_facts ∙ gone,
        t',
        r,
        subst (λ v. find_table table v.tables.vectors ≡ some t')
            (ap (λ o. o.1)
              (sym run
                ∙ upsert_vector_calm table memory id vec llm.embed_model_name llm.embed_dim vectors
                    changed calm found))
            there,
        mine,
        same,
      )

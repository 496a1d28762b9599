-- ===== src/Wiring/Tame.antt =====
-- meta.go, vectors.go and memory.go: the store methods that the handlers call, and the rows of the
-- queue.
use go_web_search.Prelude.{Bool, true, false, List, [], ◌∷◌, Option, none, some, String, ℤ}
use go_web_search.Clock.{Time}
use go_web_search.Strings.{Text}
use go_web_search.Rows.{
  Tables, JobRow, OwnerKind, VectorRow, VectorTable, Vec, MetaKey, FactRow, Tier,
}
use go_web_search.Store.{World, M, Result, err, Error, query}
use go_web_search.Store.Keeps.{Keeps, keeps_rules, Keeps-query}
use go_web_search.Tier.{TierConfig}
use go_web_search.Llm.{LlmClient}
use go_web_search.Memory.{
  MemoryConfig, scan_fact, update_facts, insert_fact, refresh_fact, index_fact, add_fact, find_near,
  upsert_fact, store_fact,
}
use go_web_search.Meta.{meta_get, meta_set}
use go_web_search.Vectors.{
  active_vector_table, active_from, upsert_vector, delete_vector, insert_vector, vector_search,
  when_table, ensure_vector_table, find_table, nearest, search_limit, rows_of,
}

module _ (Q : List JobRow → Type 0) where
  abbrev pub Queue : Tables → Type 0
  Queue t = Q t.jobs

  pub meta_get-Queue : (k : MetaKey) → Keeps Queue (meta_get k)
  unfolding meta_get
  meta_get-Queue k = Keeps-query Queue _

  pub meta_set-Queue : (k : MetaKey) (v : Text) → Keeps Queue (meta_set k v)
  unfolding meta_set
  meta_set-Queue k v = search keeps_rules

  pub active_from-Queue : (o : Option Text) → Keeps Queue (active_from o)
  active_from-Queue none = search keeps_rules
  active_from-Queue (some []) = search keeps_rules
  active_from-Queue (some (c ∷ s)) = search (keeps_rules, meta_get-Queue)

  pub active_vector_table-Queue : Keeps Queue active_vector_table
  unfolding active_vector_table
  active_vector_table-Queue = search (keeps_rules, active_from-Queue)

  pub when_table-Queue :
      {A : Type 0} (name : Text) (m : M A) → Keeps Queue m → Keeps Queue (when_table name m)
  when_table-Queue {A} name m h = record { at = λ w p. go (find_table name w.tables.vectors) w p }
    where
      go :
          (o : Option VectorTable) (w : World)
          → Q w.tables.jobs
          → Queue (
              (elim o as (λ _. Result A × World) [
                | none ↦ (err Error.no_such_table, w)
                | some t ↦ m w
              ]).1.tables)
      go none w p = p
      go (some t) w p = h.at w p

  pub delete_vector-Queue :
      (t : Text) (k : OwnerKind) (id : String) → Keeps Queue (delete_vector t k id)
  unfolding delete_vector
  delete_vector-Queue t k id = when_table-Queue t _ (search keeps_rules)

  pub insert_vector-Queue : (t : Text) (r : VectorRow) → Keeps Queue (insert_vector t r)
  unfolding insert_vector
  insert_vector-Queue t r = when_table-Queue t _ (search keeps_rules)

  pub upsert_vector-Queue :
      (t : Text) (k : OwnerKind) (id : String) (v : Vec) (model : Text) (dim : ℤ)
      → Keeps Queue (upsert_vector t k id v model dim)
  unfolding upsert_vector
  upsert_vector-Queue t k id v model dim =
      search (keeps_rules, delete_vector-Queue, insert_vector-Queue)

  pub vector_search-Queue :
      (t : Text) (k : OwnerKind) (v : Vec) (n : ℤ) → Keeps Queue (vector_search t k v n)
  unfolding vector_search
  vector_search-Queue t k v n = record {
    at = λ w.
        (when_table-Queue t
            (query λ tables.
              nearest w.cosine k v (search_limit n) (rows_of (find_table t tables.vectors)))
            (Keeps-query Queue _)).at
          w;
  }

  pub ensure_vector_table-Queue : (t : Text) (dim : ℤ) → Keeps Queue (ensure_vector_table t dim)
  unfolding ensure_vector_table
  ensure_vector_table-Queue t dim = search keeps_rules

  pub scan_fact-Queue : (id : String) → Keeps Queue (scan_fact id)
  unfolding scan_fact
  scan_fact-Queue id = Keeps-query Queue _

  pub update_facts-Queue :
      (p : FactRow → Bool) (f : FactRow → FactRow) → Keeps Queue (update_facts p f)
  unfolding update_facts
  update_facts-Queue p f = search keeps_rules

  pub insert_fact-Queue : (r : FactRow) → Keeps Queue (insert_fact r)
  unfolding insert_fact
  insert_fact-Queue r = search keeps_rules

  module _ (cfg : TierConfig) (mem : MemoryConfig) (llm : LlmClient) where
    pub refresh_fact-Queue :
        (table : Text) (vec : Vec) (t : Time) (text url vol : Text) (tier : Tier) (id : String)
        → Keeps Queue (refresh_fact cfg mem llm table vec t text url vol tier id)
    unfolding refresh_fact
    refresh_fact-Queue table vec t text url vol tier id =
        search (keeps_rules, update_facts-Queue, upsert_vector-Queue)

    pub index_fact-Queue :
        (table : Text) (vec : Vec) (id : String) → Keeps Queue (index_fact cfg mem llm table vec id)
    unfolding index_fact
    index_fact-Queue [] vec id = search keeps_rules
    index_fact-Queue (c ∷ s) vec id = upsert_vector-Queue _ _ _ _ _ _

    pub add_fact-Queue :
        (table : Text) (vec : Vec) (t : Time) (text url vol : Text) (tier : Tier)
        → Keeps Queue (add_fact cfg mem llm table vec t text url vol tier)
    unfolding add_fact
    add_fact-Queue table vec t text url vol tier =
        search (keeps_rules, insert_fact-Queue, index_fact-Queue)

    pub find_near-Queue : (a : Text × Bool) (vec : Vec) → Keeps Queue (find_near cfg mem llm a vec)
    unfolding find_near
    find_near-Queue (table, false) vec = search keeps_rules
    find_near-Queue ([], true) vec = search keeps_rules
    find_near-Queue (c ∷ s, true) vec = search (keeps_rules, vector_search-Queue)

    pub upsert_fact-Queue :
        (table : Text) (vec : Vec) (t : Time) (text url vol : Text) (tier : Tier)
        (o : Option String)
        → Keeps Queue (upsert_fact cfg mem llm table vec t text url vol tier o)
    upsert_fact-Queue table vec t text url vol tier none =
        add_fact-Queue table vec t text url vol tier
    upsert_fact-Queue table vec t text url vol tier (some id) =
        refresh_fact-Queue table vec t text url vol tier id

    pub store_fact-Queue :
        (text url vol : Text) (tier : Tier) → Keeps Queue (store_fact cfg mem llm text url vol tier)
    unfolding store_fact
    store_fact-Queue text url vol tier =
        search (keeps_rules, active_vector_table-Queue, find_near-Queue, upsert_fact-Queue)

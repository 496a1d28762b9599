-- ===== src/Memory.antt =====
-- memory.go: storing distilled facts by semantic upsert, and retrieving them by similarity.
-- Similarities and thresholds are integers of millionths.
pub mod Orphan
use go_web_search.Prelude.{
  ℕ, suc, Bool, true, false, List, [], ◌∷◌, ◌++◌, map, Option, none, some, String, str_eq,
  if◌then◌else◌, ℤ, pos, sub_ℕ, leb_ℤ, ltb_ℤ, drop, take,
}
use go_web_search.Clock.{Time, Stamp, TimeText, stamp, format, text_lt}
use go_web_search.Strings.{Text, text_len, like}
use go_web_search.Rows.{Tier, FactRow, Tables, memory, Vec}
use go_web_search.Sql.{first, update, count, select, order_by}
use go_web_search.Store.{
  Result, World, M, ◌>>=◌, ◌>>◌, pure, lift, ignore, attempt, now, new_id, exec, query, clamp_page,
}
use go_web_search.Tier.{TierConfig, next_expiry, exp_arg}
use go_web_search.Freshness.{time_text}
use go_web_search.Vectors.{VectorHit, active_vector_table, upsert_vector, vector_search}
use go_web_search.Llm.{LlmClient}

pub record MemoryConfig : Type 0 where
  pub similarity_threshold : ℤ
  pub upsert_threshold : ℤ
  pub top_k : ℤ
  pub gate3_enabled : Bool
  pub remember_default : Tier

pub record MemoryFact : Type 0 where
  pub id : String
  pub text : Text
  pub source_url : Text
  pub volatility : Text
  pub tier : Tier
  pub hit_count : ℕ
  pub fetched_at : TimeText
  pub expires_at : TimeText
  pub similarity : ℤ

abbrev pub one : ℕ
one = 1000000

-- 1 - Distance
abbrev pub similarity_of : ℕ → ℤ
similarity_of distance = sub_ℕ one distance

abbrev pub on_facts : (List FactRow → List FactRow) → Tables → Tables
on_facts f t = record t { memory_facts = f t.memory_facts }

abbrev pub fact_id : String → FactRow → Bool
fact_id id r = str_eq r.id id

unfoldable pub read_fact : FactRow → MemoryFact
read_fact r = record {
  id = r.id;
  text = r.text;
  source_url = r.source_url;
  volatility = r.volatility;
  tier = r.tier;
  hit_count = r.hit_count;
  fetched_at = stamp r.fetched_at;
  expires_at = time_text r.expires_at;
  similarity = pos 0;
}

abbrev pub map_option : {A B : Type 0} → (A → B) → Option A → Option B
map_option f none = none
map_option f (some a) = some (f a)

unfoldable pub scan_fact : String → M (Option MemoryFact)
unfolding read_fact
scan_fact id = query (λ t. map_option read_fact (first (fact_id id) t.memory_facts))

-- The UPDATE of the semantic upsert.
unfoldable pub refresh : Text → Text → Text → Tier × Option Time → Stamp → FactRow → FactRow
refresh text source_url volatility (tier, exp) at r = record r {
  text = text;
  source_url = source_url;
  volatility = volatility;
  tier = tier;
  expires_at = exp_arg exp;
  fetched_at = at;
  updated_at = at;
}

unfoldable pub fresh_fact : String → Text → Text → Text → Tier × Option Time → Stamp → FactRow
fresh_fact id text source_url volatility (tier, exp) at = record {
  id = id;
  text = text;
  source_url = source_url;
  volatility = volatility;
  tier = tier;
  hit_count = 0;
  expires_at = exp_arg exp;
  fetched_at = at;
  created_at = at;
  updated_at = at;
}

unfoldable pub update_facts : (FactRow → Bool) → (FactRow → FactRow) → M ℕ
update_facts p f = exec (λ t. (on_facts (update p f) t, count p t.memory_facts))

unfoldable pub insert_fact : FactRow → M ℕ
insert_fact r = exec (λ t. (on_facts (λ rows. rows ++ r ∷ []) t, 1))

-- The tier and hits that a refreshed row keeps: its own, or the caller's if its row is gone.
abbrev pub kept : Tier → Option MemoryFact → Tier × ℕ
kept tier none = (tier, 0)
kept tier (some f) = (f.tier, f.hit_count)

-- The nearest fact's id, if it is close enough to be refreshed in place.
unfoldable pub close_enough : MemoryConfig → List VectorHit → Option String
close_enough mem [] = none
close_enough mem (h ∷ hs) =
    if leb_ℤ mem.upsert_threshold (similarity_of h.distance) then some h.id else none

-- A scanned fact in front of the later ones; a vector whose fact is gone is passed over.
abbrev pub with_similarity : ℤ → Option MemoryFact → List MemoryFact → List MemoryFact
with_similarity sim none facts = facts
with_similarity sim (some f) facts = record f { similarity = sim } ∷ facts

module _ (cfg : TierConfig) (mem : MemoryConfig) (llm : LlmClient) where
  unfoldable pub refresh_fact : Text → Vec → Time → Text → Text → Text → Tier → String → M String
  unfolding scan_fact update_facts refresh
  refresh_fact table vec t text source_url volatility tier id = do
    existing ← ignore none (scan_fact id)
    let (keep_tier, keep_hits) = kept tier existing
    update_facts (fact_id id)
        (refresh text source_url volatility (next_expiry t keep_tier keep_hits cfg) (format t))
    upsert_vector table memory id vec llm.embed_model_name llm.embed_dim
    pure id

  unfoldable pub index_fact : Text → Vec → String → M ℕ
  index_fact [] vec id = pure 0
  index_fact (c ∷ s) vec id = upsert_vector (c ∷ s) memory id vec llm.embed_model_name llm.embed_dim

  unfoldable pub add_fact : Text → Vec → Time → Text → Text → Text → Tier → M String
  unfolding insert_fact fresh_fact index_fact
  add_fact table vec t text source_url volatility tier = do
    id ← new_id
    insert_fact (fresh_fact id text source_url volatility (next_expiry t tier 0 cfg) (format t))
    index_fact table vec id
    pure id

  -- The search for a near-identical fact: skipped while the vectors are not ready, and an error of
  -- the search counts as no hit.
  unfoldable pub find_near : Text × Bool → Vec → M (Option String)
  unfolding close_enough
  find_near (table, false) vec = pure none
  find_near ([], true) vec = pure none
  find_near (c ∷ s, true) vec = do
    hits ← ignore [] (vector_search (c ∷ s) memory vec (pos 1))
    pure (close_enough mem hits)

  abbrev pub upsert_fact : Text → Vec → Time → Text → Text → Text → Tier → Option String → M String
  upsert_fact table vec t text source_url volatility tier (some id) =
      refresh_fact table vec t text source_url volatility tier id
  upsert_fact table vec t text source_url volatility tier none =
      add_fact table vec t text source_url volatility tier

  -- StoreFact
  unfoldable pub store_fact : Text → Text → Text → Tier → M String
  unfolding find_near
  store_fact text source_url volatility tier = do
    active ← active_vector_table
    vec ← lift (llm.embed false text)
    t ← now
    near ← find_near active vec
    upsert_fact active.0 vec t text source_url volatility tier near

  -- The loop of RetrieveFacts: it stops at the first hit below the threshold.
  unfoldable pub retrieve_loop : List VectorHit → M (List MemoryFact)
  retrieve_loop [] = pure []
  retrieve_loop (h ∷ hs) =
      let rest = retrieve_loop hs in
      if ltb_ℤ (similarity_of h.distance) mem.similarity_threshold then pure [] else (do
        found ← scan_fact h.id
        facts ← rest
        pure (with_similarity (similarity_of h.distance) found facts))

  unfoldable pub retrieve_facts : Text → Vec → M (List MemoryFact)
  unfolding retrieve_loop
  retrieve_facts table query_vec = do
    hits ← vector_search table memory query_vec mem.top_k
    retrieve_loop hits

-- FactSummary, with the length of the text in bytes.
pub record FactSummary : Type 0 where
  pub row : FactRow
  pub text_chars : ℕ

unfoldable pub summarize_fact : FactRow → FactSummary
summarize_fact r = record { row = r; text_chars = text_len r.text }

-- ListFacts: `%q%` matches the texts that contain q (`LIKE` folds the case of ASCII letters).
unfoldable pub list_facts : Text → ℤ → ℤ → World → Result (List FactSummary) × World
unfolding clamp_page summarize_fact
list_facts q limit offset =
    let (n, skip) = clamp_page limit offset in
    query λ t. map summarize_fact (
      take n (
        drop skip (
          order_by (λ a b. text_lt b.created_at a.created_at)
            (select (λ r. like q r.text) t.memory_facts))))

-- touchMemoryFact: the caller's fact with its changed fields, which are set whether or not the
-- UPDATE succeeds, and the outcome of the UPDATE.
unfoldable pub touch_memory_fact : TierConfig → MemoryFact → M (MemoryFact × Result ℕ)
unfolding now update_facts
touch_memory_fact cfg f = do
  t ← now
  let hits = suc f.hit_count
  let (tier, exp) = next_expiry t f.tier hits cfg
  outcome ← attempt (
      update_facts (fact_id f.id) (λ r. record r {
        hit_count = hits;
        tier = tier;
        expires_at = exp_arg exp;
        updated_at = format t;
      }))
  pure (record f { hit_count = hits; tier = tier }, outcome)

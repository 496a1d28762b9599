-- ===== src/Examples/Data.antt =====
-- Rows, worlds and services to run the definitions on.
use go_web_search.Prelude.{ℕ, ◌+◌, ◌*◌, true, List, [], ◌∷◌, none, some, pos}
use go_web_search.Clock.{Time, second, format}
use go_web_search.Strings.{runes}
use go_web_search.Rows.{
  JobRow, embed_job, plain, pending, running, Tables, FactRow, short, long, VectorRow, VectorTable,
  memory, MetaRow, vector_table, vector_gen,
}
use go_web_search.Store.{World, ok}
use go_web_search.Tier.{TierConfig}
use go_web_search.Llm.{LlmClient}
use go_web_search.Memory.{MemoryConfig}
use go_web_search.Cleanup.{RetentionConfig}

-- A moment in the year 2026, in seconds since the year 0.
abbrev pub noon : ℕ
noon = 63950000000

abbrev pub at_noon : Time
at_noon = noon * second

abbrev pub pending_row : JobRow
pending_row = record {
  id = "a";
  job_type = embed_job;
  payload = plain [];
  status = pending;
  attempts = 1;
  run_after = format at_noon;
  locked_at = none;
  created_at = format at_noon;
  updated_at = format at_noon;
}

abbrev pub locked_row : JobRow
locked_row = record pending_row { id = "b"; status = running; locked_at = some (format at_noon) }

abbrev pub fact_row : FactRow
fact_row = record {
  id = "f";
  text = runes "Go 1.22 was released in February 2024.";
  source_url = runes "https://go.dev";
  volatility = runes "stable";
  tier = long;
  hit_count = 0;
  expires_at = none;
  fetched_at = format at_noon;
  created_at = format at_noon;
  updated_at = format at_noon;
}

abbrev pub fact_vector : VectorRow
fact_vector = record {
  id = "f";
  owner_kind = memory;
  embedding = 1 ∷ [];
  model = runes "m";
  dim = pos 1;
  created_at = format at_noon;
}

abbrev pub generation : VectorTable
generation = record { name = runes "vectors_g1"; rows = fact_vector ∷ [] }

abbrev pub meta_rows : List MetaRow
meta_rows =
    record { key = vector_table; value = runes "vectors_g1"; updated_at = format at_noon }
    ∷ record { key = vector_gen; value = runes "1"; updated_at = format at_noon }
    ∷ []

abbrev pub tables : Tables
tables = record {
  jobs = pending_row ∷ locked_row ∷ [];
  search_cache = [];
  memory_facts = fact_row ∷ [];
  scrape_cache = [];
  runs = [];
  searches = [];
  search_raw = [];
  urls = [];
  search_urls = [];
  logs = [];
  system_meta = meta_rows;
  vectors = generation ∷ [];
}

-- An hour after noon; the driver performs every statement.
abbrev pub world : World
world = record {
  tables = tables;
  faults = [];
  clock = (noon + 3600) * second;
  ticks = [];
  uuid = λ n. "new";
  issued = 0;
  cosine = λ a b. 100000;
}

-- The model answers every prompt alike.
abbrev pub service : LlmClient
service = record {
  embed = λ as_query text. ok (1 ∷ []);
  chat = λ system user. ok (runes "February 2024");
  embed_model_name = runes "m";
  embed_dim = pos 1;
}

abbrev pub tiers : TierConfig
tiers = record {
  short_ttl = pos (24 * 3600 * second);
  long_ttl = pos (30 * 24 * 3600 * second);
  promote_after_hits = pos 3;
}

abbrev pub memory_settings : MemoryConfig
memory_settings = record {
  similarity_threshold = pos 800000;
  upsert_threshold = pos 950000;
  top_k = pos 8;
  gate3_enabled = true;
  remember_default = short;
}

abbrev pub retention : RetentionConfig
retention = record {
  trim_raw = true;
  raw_max_age = pos (7 * 24 * 3600 * second);
  raw_keep_last = pos 10;
}

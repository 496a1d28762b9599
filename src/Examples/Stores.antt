-- ===== src/Examples/Stores.antt =====
-- The theorems on the caches, the sweep and the resolver, in a small store.
use go_web_search.Prelude.{
  ◌≡◌, Bool, refl, true, false, not, List, [], ◌∷◌, none, some, String, pos,
}
use go_web_search.Clock.{format, stamp, parse}
use go_web_search.Strings.{Text, runes, text_eq, fields, push_word, is_space, lower, to_lower, join}
use go_web_search.Rows.{short, CachedUrl, FactRow, VectorTable, VectorRow, memory}
use go_web_search.Sql.{select, first, count}
use go_web_search.Store.{Result, World, M, ok, now, pure, exec, query, new_id, now_rfc3339}
use go_web_search.Vectors.{owned_by, find_table}
use go_web_search.Memory.{refresh_fact, fact_id, on_facts}
use go_web_search.Memory.Orphan.{refresh_fact_loses}
use go_web_search.Freshness.{fresh_at, time_text}
use go_web_search.SearchCache.{
  SearchCacheEntry, lookup_exact, store_search_cache, normalize_query, enqueue_embed,
}
use go_web_search.Tier.{next_expiry, exp_arg, normalize_tier}
use go_web_search.Jobs.{enqueue_job, insert_job}
use go_web_search.SearchCache.RoundTrip.{lookup_exact-store_search_cache}
use go_web_search.Cleanup.{past, expired_ids, delete_expired}
use go_web_search.Cleanup.Expired.{delete_expired_lem}
use go_web_search.ScrapeCache.{ScrapeRecord}
use go_web_search.Resolver.{ResolveOpts, from_cache, engines_found, live_step, resolver_search}
use go_web_search.Runs.{start_run, finish_run}
use go_web_search.Runs.Listing.{run_urls}
use go_web_search.Sql.{order_by, select}
use go_web_search.Store.{◌>>=◌}
use go_web_search.Examples.Runs.{search_row_a, url_row_a, link_row_a}
use go_web_search.Resolver.Chain.{live_step_cached}
use go_web_search.Examples.Data.{
  at_noon, world, tables, generation, service, tiers, memory_settings,
}

abbrev results : List CachedUrl
results = record { url = runes "https://go.dev/doc"; domain = runes "go.dev"; rank = 1 } ∷ []

alike : normalize_query (runes "go release") ≡ normalize_query (runes "Go  Release")
unfolding normalize_query fields push_word is_space lower to_lower join
alike = refl

fresh_now :
    fresh_at
      (now (store_search_cache tiers (runes "Go  Release") results short world).1).1.clock
      (time_text (exp_arg (next_expiry (now world).1.clock short 0 tiers).1))
      (stamp (format (now world).1.clock))
      (pos 0)
    ≡ true
unfolding store_search_cache now next_expiry exp_arg fresh_at exec query new_id enqueue_embed
    enqueue_job count parse format now_rfc3339 insert_job
fresh_now = refl

lookup_exact-store_search_cache_example :
    (e : SearchCacheEntry) × ((lookup_exact tiers
        (runes "go release")
        (pos 0)
        (store_search_cache tiers (runes "Go  Release") results short world).1).0
      ≡ ok (some e))
    × (e.results ≡ results)
    × (e.query ≡ runes "Go  Release")
    × (e.hit_count ≡ 1)
lookup_exact-store_search_cache_example =
    lookup_exact-store_search_cache tiers (runes "Go  Release") (runes "go release") results short
      (pos 0) world refl alike fresh_now

-- The engines record one search of the run, with one URL.
abbrev engines : String → List Text → M Bool
engines run_id terms =
    exec (λ t. (
      record t {
        searches = record search_row_a { run_id = run_id } ∷ [];
        urls = url_row_a ∷ [];
        search_urls = link_row_a ∷ [];
      },
      1,
    ))
    >>= λ n. pure true

abbrev begun : World
begun = (start_run (runes "resolve-search") [] world).1

abbrev searched : Result (List CachedUrl) × World
searched = engines_found service tiers memory_settings engines (runes "Go  Release") "new" begun

abbrev found : List CachedUrl
found = record { url = runes "https://go.dev"; domain = runes "go.dev"; rank = 1 } ∷ []

abbrev first_opts : ResolveOpts
first_opts = record { use_memory = true; use_cache = true; max_age = pos 0; remember = short }

abbrev second_opts : ResolveOpts
second_opts = record { use_memory = false; use_cache = true; max_age = pos 0; remember = short }

fresh_after :
    fresh_at
      (now
        (live_step service tiers memory_settings engines
          (runes "Go  Release")
          first_opts
          world).1).1.clock
      (time_text (exp_arg (next_expiry (now world).1.clock (normalize_tier short short) 0 tiers).1))
      (stamp (format (now world).1.clock))
      (pos 0)
    ≡ true
unfolding live_step store_search_cache now next_expiry exp_arg fresh_at exec query new_id
    enqueue_embed enqueue_job count normalize_tier parse format now_rfc3339 insert_job start_run
    finish_run run_urls
fresh_after = refl

live_step_cached_example :
    (resolver_search service tiers memory_settings engines
      (runes "go release")
      second_opts
      (live_step service tiers memory_settings engines (runes "Go  Release") first_opts world).1).0
    ≡ ok (from_cache found)
unfolding start_run new_id now_rfc3339 exec engines_found run_urls query order_by select count
live_step_cached_example =
    live_step_cached service tiers memory_settings engines (runes "Go  Release")
      (runes "go release") first_opts second_opts world begun searched.1 "new" found refl refl refl
      refl refl refl alike fresh_after

abbrev forgotten : World
forgotten = record world { tables = record tables { memory_facts = [] } }

there : find_table (runes "vectors_g1") forgotten.tables.vectors ≡ some generation
unfolding find_table text_eq
there = refl

no_fact : first (fact_id "f") forgotten.tables.memory_facts ≡ none
unfolding first
no_fact = refl

refresh_fact_loses_example :
    (w' : World) × (refresh_fact tiers memory_settings service
        (runes "vectors_g1")
        (1 ∷ [])
        at_noon
        (runes "new")
        []
        []
        short
        "f"
        forgotten
      ≡ (ok "f", w'))
    × (w'.tables.memory_facts ≡ [])
    × (first (fact_id "f") w'.tables.memory_facts ≡ none)
    × (t' : VectorTable) × (r : VectorRow) × (find_table (runes "vectors_g1") w'.tables.vectors
        ≡ some t')
    × (select (owned_by memory "f") t'.rows ≡ r ∷ [])
    × (r.embedding ≡ 1 ∷ [])
refresh_fact_loses_example =
    refresh_fact_loses tiers memory_settings service (runes "vectors_g1") (1 ∷ []) at_noon
      (runes "new") [] [] short "f" forgotten generation refl there no_fact

delete_expired_lem_example :
    (w' : World) × (delete_expired
        (λ (r : FactRow). r.id)
        (λ r. r.expires_at)
        (λ t. t.memory_facts)
        on_facts
        (format at_noon)
        world
      ≡ (
        ok (
            expired_ids
              (λ (r : FactRow). r.id)
              (λ r. r.expires_at)
              (format at_noon)
              world.tables.memory_facts),
        w',
      ))
    × (w'.tables.memory_facts
        ≡ select (λ r. not (past (format at_noon) r.expires_at)) world.tables.memory_facts)
delete_expired_lem_example =
    delete_expired_lem (λ (r : FactRow). r.id) (λ r. r.expires_at) (λ t. t.memory_facts) on_facts
      (λ f t. refl) (format at_noon) world refl (λ i. i, tt)

abbrev page : ScrapeRecord
page = record {
  url = runes "https://go.dev";
  run_id = "run";
  http_status = 200;
  content_type = runes "text/html";
  fetched_with = "http";
  robots_allowed = true;
  title = runes "Go";
  raw_html = runes "<html>";
  clean_html = runes "<p>";
  text = runes "Go";
  err_text = [];
  duration_ms = 12;
  images = [];
  etag = [];
  last_modified = [];
}

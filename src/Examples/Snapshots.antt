-- ===== src/Examples/Snapshots.antt =====
-- The theorems on the counts of a cache's rows, with two rows of different tiers, and of the queue.
use go_web_search.Prelude.{ℕ, ◌+◌, length, ◌≡◌, refl, List, [], ◌∷◌, Option, none, some}
use go_web_search.Clock.{Stamp, format}
use go_web_search.Strings.{runes}
use go_web_search.Rows.{
  SearchCacheRow, Tier, short, permanent, Tables, Status, pending, running, done, failed,
}
use go_web_search.Sql.{count}
use go_web_search.Jobs.{Counts, status_eq, job_status_counts}
use go_web_search.Jobs.Counts.{job_status_counts_lem}
use go_web_search.Store.{World, ok}
use go_web_search.Stats.{CacheStats, cache_stats}
use go_web_search.Stats.Tally.{IsTally, cache_stats_lem}
use go_web_search.Examples.Data.{at_noon, world, tables}

abbrev row : Tier → ℕ → Option Stamp → SearchCacheRow
row tier hits expires_at = record {
  id = "c";
  query_norm = runes "go";
  query = runes "Go";
  results = some [];
  tier = tier;
  hit_count = hits;
  expires_at = expires_at;
  fetched_at = format at_noon;
  created_at = format at_noon;
  updated_at = format at_noon;
}

abbrev two_rows : World
two_rows = record world {
  tables = record tables {
    search_cache = row short 0 (some (format at_noon)) ∷ row permanent 3 none ∷ [];
  };
}

abbrev tier_column : SearchCacheRow → Tier
tier_column r = r.tier

abbrev hits_column : SearchCacheRow → ℕ
hits_column r = r.hit_count

abbrev expiry_column : SearchCacheRow → Option Stamp
expiry_column r = r.expires_at

abbrev search_rows : Tables → List SearchCacheRow
search_rows t = t.search_cache

cache_stats_lem_example :
    (v : CacheStats) × ((cache_stats tier_column hits_column expiry_column search_rows two_rows).0
      ≡ ok v)
    × IsTally tier_column hits_column expiry_column two_rows.tables.search_cache v
cache_stats_lem_example =
    cache_stats_lem tier_column hits_column expiry_column search_rows two_rows refl

job_status_counts_lem_example :
    (counts : Counts) × ((job_status_counts world).0 ≡ ok counts)
    × ((s : Status) → counts s ≡ count (λ r. status_eq r.status s) world.tables.jobs)
    × (counts pending + counts running + counts done + counts failed ≡ length world.tables.jobs)
job_status_counts_lem_example = job_status_counts_lem world refl

-- ===== src/Examples/Requests.antt =====
-- The theorems on the requests of the server, in a small store and without a network.
use go_web_search.Prelude.{refl, true, false, List, [], ◌∷◌, none, some, pos}
use go_web_search.Strings.{runes, text_eq}
use go_web_search.Rows.{SearchCacheRow, Tier, short}
use go_web_search.Clock.{format}
use go_web_search.Store.{World}
use go_web_search.ScrapeCache.{ScrapeOutcome}
use go_web_search.Resolver.{resolver_search}
use go_web_search.SearchCache.{lookup_exact, normalize_query, touch_search_cache}
use go_web_search.Freshness.{fresh_enough}
use go_web_search.Clock.{parse}
use go_web_search.Sql.{order_by}
use go_web_search.Strings.{text_len}
use go_web_search.Api.{seconds}
use go_web_search.Store.{query, exec, new_id, now_rfc3339}
use go_web_search.Runs.{start_run}
use go_web_search.ScrapeCache.{lookup_scrape_cache, save_scrape}
use go_web_search.Sql.{first, count}
use go_web_search.Tier.{next_expiry}
use go_web_search.Scraper.Groups.{scrape}
use go_web_search.Scraper.One.{scrape_one}
use go_web_search.Robots.{RobotsCache, new_robots_cache}
use go_web_search.Api.{SearchRequest, SearchResponse}
use go_web_search.Api.Operations.{run_search}
use go_web_search.Api.Unique.{IsOnce, run_search-IsOnce}
use go_web_search.Examples.Data.{world, tables, at_noon, service, tiers, memory_settings}
use go_web_search.Examples.Harvests.{search_settings, web}
use go_web_search.Examples.Pages.{scrape_settings, offline}

-- A page that was scraped, and one that robots.txt disallows.
abbrev outcomes : List ScrapeOutcome
outcomes =
    record {
      scrape_id = "p";
      url = runes "https://go.dev";
      status = 200;
      fetched_with = "http";
      title = [];
      text_chars = 2;
      images = 0;
      skipped = [];
      error = [];
    }
    ∷ record {
      scrape_id = "q";
      url = runes "https://go.dev/x";
      status = 0;
      fetched_with = "";
      title = [];
      text_chars = 0;
      images = 0;
      skipped = runes "disallowed by robots.txt";
      error = [];
    }
    ∷ []

-- A cached search, whose results have one URL twice, under two ranks.
abbrev cached_row : SearchCacheRow
cached_row = record {
  id = "c";
  query_norm = runes "go";
  query = runes "go";
  results = some (
      record { url = runes "https://go.dev"; domain = runes "go.dev"; rank = 1 }
      ∷ record { url = runes "https://go.dev"; domain = runes "go.dev"; rank = 2 }
      ∷ []);
  tier = short;
  hit_count = 0;
  expires_at = none;
  fetched_at = format at_noon;
  created_at = format at_noon;
  updated_at = format at_noon;
}

abbrev cached_world : World
cached_world = record world { tables = record tables { search_cache = cached_row ∷ [] } }

abbrev request : SearchRequest
request = record {
  terms = runes "go" ∷ [];
  scrape = true;
  use_cache = none;
  use_memory = some false;
  max_age = pos 7200;
  remember = "off";
}

-- The page is listed once, and the attempt to fetch it is stored.
abbrev answer : SearchResponse × RobotsCache
answer = (
  record {
    run_id = "";
    terms = 1;
    source = runes "cache";
    answers = [];
    urls = record { url = runes "https://go.dev"; domain = runes "go.dev"; rank = 1 } ∷ [];
    scrapes =
        record {
          scrape_id = "new";
          url = runes "https://go.dev";
          status = 0;
          fetched_with = "http";
          title = [];
          text_chars = 0;
          images = 0;
          skipped = [];
          error = runes "offline";
        }
        ∷ [];
    complete = true;
    note = [];
  },
  record { entries = (runes "https://go.dev", none) ∷ []; requests = runes "https://go.dev" ∷ [] },
)

run_search-IsOnce_example : IsOnce answer
unfolding run_search seconds resolver_search lookup_exact query first text_eq normalize_query
    fresh_enough parse format touch_search_cache exec next_expiry start_run new_id now_rfc3339
    scrape scrape_one lookup_scrape_cache save_scrape count order_by text_len
run_search-IsOnce_example =
    run_search-IsOnce scrape_settings tiers memory_settings service offline search_settings web
      request new_robots_cache cached_world answer refl

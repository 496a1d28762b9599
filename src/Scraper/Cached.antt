-- ===== src/Scraper/Cached.antt =====
-- scraper.go, `one`: a page that the cache holds and that is fresh.
use go_web_search.Prelude.{
  length, Bool, suc, ◌≡◌, ap, ◌∙◌, true, false, [], Option, none, some, String, str_eq,
}
use go_web_search.Clock.{Time, Duration, stamp, format}
use go_web_search.Strings.{Text, text_len}
use go_web_search.Rows.{ScrapeRow, Tables}
use go_web_search.Sql.{first, update}
use go_web_search.Store.{ok, World, M, ◌>>=◌, pure, now, or_default}
use go_web_search.Store.Laws.{now_tables, query_calm, bind_ok, exec_calm}
use go_web_search.Tier.{TierConfig, next_expiry, exp_arg}
use go_web_search.Freshness.{fresh_at, fresh_enough, time_text}
use go_web_search.Cleanup.{on_scrapes}
use go_web_search.ScrapeCache.{
  ScrapeCacheRow, has_url, read_page, page_or_none, lookup_scrape_cache, touch_scrape_cache,
  cache_outcome, update_pages, ScrapeOutcome,
}
use go_web_search.Robots.{Target, RobotsCache}
use go_web_search.Scraper.{ScrapeConfig, Net}
use go_web_search.Scraper.One.{
  lookup_if, is_fresh, serve, from_cache_or_network, with_target, scrape_one,
}

-- The row's hit as the tables keep it.
abbrev pub hit_recorded : TierConfig → ScrapeCacheRow → Time → Tables → Tables
hit_recorded tier r t = on_scrapes (
    update (λ x. str_eq x.id r.id)
      (λ x. record x {
        hit_count = suc r.hit_count;
        tier = (next_expiry t r.tier (suc r.hit_count) tier).0;
        expires_at = exp_arg (next_expiry t r.tier (suc r.hit_count) tier).1;
        updated_at = format t;
      }))

-- The outcome as the stored page has it.
abbrev pub shown_page : ScrapeRow → ScrapeOutcome
shown_page r = record {
  scrape_id = r.id;
  url = r.url;
  status = r.http_status;
  fetched_with = "cache";
  title = r.title;
  text_chars = text_len r.text_content;
  images = length r.images;
  skipped = [];
  error = [];
}

-- Serving a fresh row, where the driver performs the statement.
serve_hit :
    (cfg : ScrapeConfig) (tier : TierConfig) (net : Net) (r : ScrapeCacheRow) (w : World)
    → w.faults ≡ []
    → serve cfg tier net r false "cache" w ≡ (
      ok (cache_outcome r "cache"),
      record (now w).1 { tables = hit_recorded tier r (now w).1.clock (now w).1.tables },
    )
unfolding serve touch_scrape_cache now cache_outcome update_pages
serve_hit cfg tier net r w calm =
    ap (λ o. (ok (cache_outcome r "cache"), o.1)) (exec_calm _ (now w).1 ((now_tables w).1 ∙ calm))

module _ (cfg : ScrapeConfig) (tier : TierConfig) (net : Net) (run_id : String) (raw : Text)
    (max_age : Duration) (c : RobotsCache) where
  from_looked_up :
      (started : Time) (target : Target) (r : ScrapeCacheRow) (w : World)
      → w.faults ≡ []
      → lookup_if true raw w ≡ (ok (some r), w)
      → fresh_at (now w).1.clock r.expires_at r.fetched_at max_age ≡ true
      → with_target cfg tier net run_id raw true max_age started c (some target) w ≡ (
        ok (cache_outcome r "cache", c),
        record (now (now w).1).1 {
          tables = hit_recorded tier r (now (now w).1).1.clock (now (now w).1).1.tables;
        },
      )
  unfolding from_cache_or_network fresh_enough now
  from_looked_up started target r w calm looked fresh =
      bind_ok (lookup_if true raw) (λ cached. is_fresh max_age cached >>= λ f. rest cached f) w
        (some r) w looked
      ∙ bind_ok (is_fresh max_age (some r)) (rest (some r)) w true (now w).1 is_true
      ∙ bind_ok (serve cfg tier net r false "cache") (λ o. pure (o, c)) (now w).1 _ _
          (serve_hit cfg tier net r (now w).1 ((now_tables w).1 ∙ calm))
    where
      rest : Option ScrapeCacheRow → Bool → M (ScrapeOutcome × RobotsCache)
      rest cached f = from_cache_or_network cfg tier net run_id raw started target c cached f

      is_true : is_fresh max_age (some r) w ≡ (ok true, (now w).1)
      is_true = ap (λ b. (ok b, (now w).1)) fresh

  -- Without a fault of the driver, where the cache is used and holds a fresh row for a URL that parses:
  -- the outcome is that of the row, whatever the network would answer, robots.txt is not asked, and of
  -- the tables only the row's hits, one more, its tier and expiry, as they follow from the hits, and its
  -- time of change are written.
  pub scrape_one_cached :
      (w : World) (target : Target) (page : ScrapeRow)
      → w.faults ≡ []
      → net.parse_url raw ≡ some target
      → first (has_url raw) w.tables.scrape_cache ≡ some page
      → fresh_at (now (now w).1).1.clock (time_text page.expires_at) (stamp page.fetched_at) max_age
        ≡ true
      → ((scrape_one cfg tier net run_id raw true max_age c w).0 ≡ ok (shown_page page, c))
        × ((scrape_one cfg tier net run_id raw true max_age c w).1.tables
            ≡ hit_recorded tier (read_page page) (now (now (now w).1).1).1.clock w.tables)
  unfolding scrape_one lookup_scrape_cache cache_outcome read_page
  scrape_one_cached w target page calm parses held fresh = (
    ap (λ o. o.0) run,
    ap (λ o. o.1.tables) run
        ∙ ap (hit_recorded tier (read_page page) _)
            ((now_tables (now (now w).1).1).0 ∙ (now_tables (now w).1).0 ∙ (now_tables w).0),
  )
    where
      calm1 : (now w).1.faults ≡ []
      calm1 = (now_tables w).1 ∙ calm

      looked : lookup_if true raw (now w).1 ≡ (ok (some (read_page page)), (now w).1)
      looked =
          ap (or_default none) (query_calm _ (now w).1 calm1)
          ∙ ap (λ t. (ok (page_or_none (first (has_url raw) t.scrape_cache)), (now w).1))
              (now_tables w).0
          ∙ ap (λ p. (ok (page_or_none p), (now w).1)) held

      run : scrape_one cfg tier net run_id raw true max_age c w ≡ (
        ok (cache_outcome (read_page page) "cache", c),
        record (now (now (now w).1).1).1 {
          tables =
              hit_recorded tier
                (read_page page)
                (now (now (now w).1).1).1.clock
                (now (now (now w).1).1).1.tables;
        },
      )
      run =
          ap (λ t. with_target cfg tier net run_id raw true max_age (now w).1.clock c t (now w).1)
            parses
          ∙ from_looked_up (now w).1.clock target (read_page page) (now w).1 calm1 looked fresh

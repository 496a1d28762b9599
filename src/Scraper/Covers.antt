-- ===== src/Scraper/Covers.antt =====
-- scraper.go, `Scrape`: one outcome for each URL, whatever fails.
use go_web_search.Prelude.{
  ◌≡◌, refl, Bool, true, false, not, ◌&&◌, Option, none, some, String, ℤ, pos, ltb_ℤ,
}
use go_web_search.Clock.{Time, Duration}
use go_web_search.Strings.{Text, text_eq_iff}
use go_web_search.Rows.{ScrapeRow, Tables}
use go_web_search.Sql.{first}
use go_web_search.Sql.First.{first-In}
use go_web_search.Store.{◌>>=◌, pure, now}
use go_web_search.Store.Always.{Always, Always-pure, Always-if, Always-ignore_query, Always-bind}
use go_web_search.Tier.{TierConfig}
use go_web_search.Freshness.{fresh_enough}
use go_web_search.ScrapeCache.{
  ScrapeCacheRow, ScrapeOutcome, has_url, read_page, page_or_none, lookup_scrape_cache,
  touch_scrape_cache, cache_outcome, save_scrape,
}
use go_web_search.Clean.Document.{clean_html}
use go_web_search.Robots.{Target, RobotsCache, allowed}
use go_web_search.Scraper.{ScrapeConfig, Net, Fetched, fetch_http, is_html, should_retry_in_browser}
use go_web_search.Scraper.One.{
  lookup_if, is_fresh, validators, confirmed, serve, skip_disallowed, store_page, revalidated_or,
  fetch_page, ask_network, from_cache_or_network, with_target, scrape_one,
}

-- The outcome is for the URL.
abbrev pub IsFor : Text → ScrapeOutcome → Type 0
IsFor raw o = o.url ≡ raw

abbrev RowFor : Text → Option ScrapeCacheRow → Type 0
RowFor raw none = Unit
RowFor raw (some r) = r.url ≡ raw

row_for : (raw : Text) (t : Tables) → RowFor raw (page_or_none (first (has_url raw) t.scrape_cache))
unfolding read_page
row_for raw t = found (first (has_url raw) t.scrape_cache) refl
  where
    found :
        (row : Option ScrapeRow)
        → first (has_url raw) t.scrape_cache ≡ row
        → RowFor raw (page_or_none row)
    found none e = tt
    found (some r) e = (text_eq_iff r.url raw).0 ((first-In (has_url raw) t.scrape_cache r e).1)

lookup_if-RowFor : (use_cache : Bool) (raw : Text) → Always (lookup_if use_cache raw) (RowFor raw)
unfolding lookup_scrape_cache
lookup_if-RowFor true raw = Always-ignore_query (RowFor raw) none _ tt (row_for raw)
lookup_if-RowFor false raw = Always-pure (RowFor raw) none tt

is_fresh-Always :
    (max_age : Duration) (row : Option ScrapeCacheRow)
    → Always (is_fresh max_age row) (λ b. Unit {0})
unfolding fresh_enough now
is_fresh-Always max_age none = record { at = λ w. (false, refl, tt) }
is_fresh-Always max_age (some r) = record { at = λ w. (_, refl, tt) }

confirmed-RowFor :
    (raw : Text) (error : Option Text) (not_modified : Bool) (cached : Option ScrapeCacheRow)
    → RowFor raw cached
    → RowFor raw (confirmed error not_modified cached)
confirmed-RowFor raw none true cached row = row
confirmed-RowFor raw none false cached row = tt
confirmed-RowFor raw (some e) not_modified cached row = tt

module _ (cfg : ScrapeConfig) (tier : TierConfig) (net : Net) (raw : Text) where
  serve-IsFor :
      (r : ScrapeCacheRow) (refresh : Bool) (provenance : String)
      → r.url ≡ raw
      → Always (serve cfg tier net r refresh provenance) (IsFor raw)
  unfolding serve touch_scrape_cache cache_outcome now
  serve-IsFor r refresh provenance e = record { at = λ w. (_, refl, e) }

  skip_disallowed-IsFor :
      (run_id : String) (started : Time)
      → Always (skip_disallowed cfg tier net run_id raw started) (IsFor raw)
  unfolding skip_disallowed now save_scrape
  skip_disallowed-IsFor run_id started = record { at = λ w. (_, refl, refl) }

  store_page-IsFor :
      (run_id : String) (started : Time) (target : Target) (f : Fetched)
      → Always (store_page cfg tier net run_id raw started target f) (IsFor raw)
  unfolding store_page now save_scrape is_html clean_html should_retry_in_browser
  store_page-IsFor run_id started target f = record { at = λ w. (_, refl, refl) }

  fetch_page-IsFor :
      (run_id : String) (started : Time) (target : Target) (cached : Option ScrapeCacheRow)
      → RowFor raw cached
      → Always (fetch_page cfg tier net run_id raw started target cached) (IsFor raw)
  unfolding fetch_page
  fetch_page-IsFor run_id started target cached row =
      let (etag, last_modified) = validators cached in
      let f = fetch_http cfg net raw etag last_modified in
      served f (confirmed f.error f.not_modified cached)
        (confirmed-RowFor raw f.error f.not_modified cached row)
    where
      served :
          (f : Fetched) (r : Option ScrapeCacheRow)
          → RowFor raw r
          → Always (revalidated_or cfg tier net run_id raw started target f r) (IsFor raw)
      served f (some r) e = serve-IsFor r true "cache-revalidated" e
      served f none e = store_page-IsFor run_id started target f

  ask_network-IsFor :
      (run_id : String) (started : Time) (target : Target) (cached : Option ScrapeCacheRow)
      (verdict : Bool × ℤ)
      → RowFor raw cached
      → Always (ask_network cfg tier net run_id raw started target cached verdict) (IsFor raw)
  unfolding ask_network
  ask_network-IsFor run_id started target cached (permitted, delay) row =
      Always-if (IsFor raw) (not permitted) _ _ (skip_disallowed-IsFor run_id started) (
        Always-if (IsFor raw)
          (cfg.respect_crawl_delay && ltb_ℤ (pos 0) delay && not (net.waits delay)) _ _
          (Always-pure (IsFor raw) _ refl) (fetch_page-IsFor run_id started target cached row))

  abbrev pub OutcomeFor : ScrapeOutcome × RobotsCache → Type 0
  OutcomeFor x = IsFor raw x.0

  from_network-IsFor :
      (run_id : String) (started : Time) (target : Target) (c : RobotsCache)
      (cached : Option ScrapeCacheRow) (fresh : Bool)
      → RowFor raw cached
      → Always
          (from_cache_or_network cfg tier net run_id raw started target c cached fresh)
          OutcomeFor
  unfolding from_cache_or_network
  from_network-IsFor run_id started target c (some r) true row =
      Always-bind (IsFor raw) OutcomeFor (serve cfg tier net r false "cache") (λ o. pure (o, c))
        (serve-IsFor r false "cache" row) (λ o q. Always-pure OutcomeFor (o, c) q)
  from_network-IsFor run_id started target c (some r) false row =
      let (verdict, c') = allowed net.robots_get net.find_group target c in
      Always-bind (IsFor raw) OutcomeFor
        (ask_network cfg tier net run_id raw started target (some r) verdict) (λ o. pure (o, c'))
        (ask_network-IsFor run_id started target (some r) verdict row)
        (λ o q. Always-pure OutcomeFor (o, c') q)
  from_network-IsFor run_id started target c none fresh row =
      let (verdict, c') = allowed net.robots_get net.find_group target c in
      Always-bind (IsFor raw) OutcomeFor
        (ask_network cfg tier net run_id raw started target none verdict) (λ o. pure (o, c'))
        (ask_network-IsFor run_id started target none verdict row)
        (λ o q. Always-pure OutcomeFor (o, c') q)

  pub scrape_one-IsFor :
      (run_id : String) (use_cache : Bool) (max_age : Duration) (c : RobotsCache)
      → Always (scrape_one cfg tier net run_id raw use_cache max_age c) OutcomeFor
  unfolding scrape_one now
  scrape_one-IsFor run_id use_cache max_age c = record {
    at = λ w. (targeted (now w).1.clock (net.parse_url raw)).at (now w).1;
  }
    where
      targeted :
          (started : Time) (target : Option Target)
          → Always
              (with_target cfg tier net run_id raw use_cache max_age started c target)
              OutcomeFor
      targeted started none = Always-pure OutcomeFor _ refl
      targeted started (some target) =
          Always-bind (RowFor raw) OutcomeFor (lookup_if use_cache raw)
            (λ cached. is_fresh max_age cached >>= λ fresh.
              from_cache_or_network cfg tier net run_id raw started target c cached fresh)
            (lookup_if-RowFor use_cache raw)
            λ cached row.
              Always-bind (λ b. Unit {0}) OutcomeFor (is_fresh max_age cached)
                (λ fresh.
                  from_cache_or_network cfg tier net run_id raw started target c cached fresh)
                (is_fresh-Always max_age cached)
                λ fresh u. from_network-IsFor run_id started target c cached fresh row

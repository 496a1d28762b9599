-- ===== src/Scraper/One.antt =====
-- scraper.go, `one`: the outcome for one URL.
use go_web_search.Prelude.{
  ℕ, ◌-◌, ◌/◌, Bool, true, false, not, ◌&&◌, List, [], ◌∷◌, ◌++◌, Option, none, some, String,
  if◌then◌else◌, ℤ, pos, ltb_ℤ, length,
}
use go_web_search.Clock.{Time, Duration}
use go_web_search.Strings.{Text, runes, text_len}
use go_web_search.Rows.{ImageRef}
use go_web_search.Store.{Result, ok, err, M, ◌>>=◌, pure, ignore, attempt, now}
use go_web_search.Tier.{TierConfig}
use go_web_search.Freshness.{fresh_enough}
use go_web_search.ScrapeCache.{
  ScrapeRecord, ScrapeCacheRow, ScrapeOutcome, lookup_scrape_cache, touch_scrape_cache,
  cache_outcome, save_scrape,
}
use go_web_search.Robots.{Target, RobotsCache, allowed}
use go_web_search.Clean.Document.{CleanedDoc}
use go_web_search.Scraper.{
  ScrapeConfig, Net, Fetched, fetch_http, is_html, clean_with, should_retry_in_browser,
}

abbrev pub blank_outcome : Text → ScrapeOutcome
blank_outcome raw = record {
  scrape_id = "";
  url = raw;
  status = 0;
  fetched_with = "";
  title = [];
  text_chars = 0;
  images = 0;
  skipped = [];
  error = [];
}

-- The cached row, where the cache is used; an error of the lookup counts as no row.
abbrev pub lookup_if : Bool → Text → M (Option ScrapeCacheRow)
lookup_if true raw = ignore none (lookup_scrape_cache raw)
lookup_if false raw = pure none

abbrev pub is_fresh : Duration → Option ScrapeCacheRow → M Bool
is_fresh max_age none = pure false
is_fresh max_age (some r) = fresh_enough r.expires_at r.fetched_at max_age

abbrev pub validators : Option ScrapeCacheRow → Text × Text
validators none = ([], [])
validators (some r) = (r.etag, r.last_modified)

-- The row to slide, where the server has confirmed the cached copy.
abbrev pub confirmed : Option Text → Bool → Option ScrapeCacheRow → Option ScrapeCacheRow
confirmed none true cached = cached
confirmed none false cached = none
confirmed (some e) not_modified cached = none

abbrev pub rendered_by : Option (Text → Option Text) → Text → Option Text
rendered_by none raw = none
rendered_by (some browse) raw = browse raw

-- The browser's page, or the one that HTTP brought if the browser fails.
abbrev pub or_http : Text → Option Text → Text × String
or_http body none = (body, "http")
or_http body (some page) = (page, "browser")

-- What is made of a body.
pub record Parts : Type 0 where
  pub title : Text
  pub clean_html : Text
  pub text : Text
  pub images : List ImageRef
  pub error : Text
  pub skipped : Text

abbrev pub no_parts : Parts
no_parts = record { title = []; clean_html = []; text = []; images = []; error = []; skipped = [] }

abbrev pub save_error : Net → Result String → Text → Text
save_error net (err e) [] = net.error_text e
save_error net (err e) (c ∷ s) = c ∷ s
save_error net (ok id) error = error

abbrev pub id_or_empty : Result String → String
id_or_empty (ok id) = id
id_or_empty (err e) = ""

module _ (cfg : ScrapeConfig) (tier : TierConfig) (net : Net) where
  abbrev pub save : ScrapeRecord → M String
  unfolding save_scrape
  save rec = save_scrape net.sha256_hex tier rec

  -- Milliseconds since `started`.
  abbrev pub since : Time → M ℕ
  unfolding now
  since started = do t ← now; pure ((t - started) / 1000000)

  unfoldable pub serve : ScrapeCacheRow → Bool → String → M ScrapeOutcome
  unfolding touch_scrape_cache cache_outcome
  serve r refresh provenance = do
    touched ← touch_scrape_cache tier r refresh
    pure (cache_outcome touched.0 provenance)

  unfoldable pub skip_disallowed : String → Text → Time → M ScrapeOutcome
  unfolding save since
  skip_disallowed run_id raw started = do
    ms ← since started
    saved ← attempt (
        save (record {
          url = raw;
          run_id = run_id;
          http_status = 0;
          content_type = [];
          fetched_with = "";
          robots_allowed = false;
          title = [];
          raw_html = [];
          clean_html = [];
          text = [];
          err_text = [];
          duration_ms = ms;
          images = [];
          etag = [];
          last_modified = [];
        }))
    pure (record (blank_outcome raw) {
      scrape_id = id_or_empty saved;
      skipped = runes "disallowed by robots.txt";
      error = save_error net saved [];
    })

  abbrev pub parts_of_doc : Option CleanedDoc → Parts
  parts_of_doc none = record no_parts { error = runes "clean: " ++ net.html_error }
  parts_of_doc (some doc) = record no_parts {
    title = doc.title;
    clean_html = doc.clean_html;
    text = doc.text;
    images = doc.images;
  }

  abbrev pub parts_of : Target → Text → Text → Option Text → Parts
  unfolding is_html clean_with
  parts_of target content_type body (some e) = record no_parts { error = e }
  parts_of target content_type body none =
      if is_html content_type
      then parts_of_doc (clean_with net body (net.resolve target))
      else record no_parts { skipped = runes "not html (" ++ (content_type ++ runes ")") }

  abbrev pub via_browser : Text → Fetched → Text × String
  unfolding should_retry_in_browser
  via_browser raw f = elim f.error [
    | none ↦
        if should_retry_in_browser cfg net f.body f.content_type
        then or_http f.body (rendered_by net.browser raw)
        else (f.body, "http")
    | some e ↦ (f.body, "http")
  ]

  unfoldable pub store_page : String → Text → Time → Target → Fetched → M ScrapeOutcome
  unfolding save since parts_of via_browser
  store_page run_id raw started target f = do
    let (body, fetched_with) = via_browser raw f
    ms ← since started
    let parts = parts_of target f.content_type body f.error
    saved ← attempt (
        save (record {
          url = raw;
          run_id = run_id;
          http_status = f.status;
          content_type = f.content_type;
          fetched_with = fetched_with;
          robots_allowed = true;
          title = parts.title;
          raw_html = body;
          clean_html = parts.clean_html;
          text = parts.text;
          err_text = parts.error;
          duration_ms = ms;
          images = parts.images;
          etag = f.etag;
          last_modified = f.last_modified;
        }))
    pure (record {
      scrape_id = id_or_empty saved;
      url = raw;
      status = f.status;
      fetched_with = fetched_with;
      title = parts.title;
      text_chars = text_len parts.text;
      images = length parts.images;
      skipped = parts.skipped;
      error = save_error net saved parts.error;
    })

  abbrev pub revalidated_or :
      String → Text → Time → Target → Fetched → Option ScrapeCacheRow → M ScrapeOutcome
  unfolding serve store_page
  revalidated_or run_id raw started target f (some r) = serve r true "cache-revalidated"
  revalidated_or run_id raw started target f none = store_page run_id raw started target f

  unfoldable pub fetch_page :
      String → Text → Time → Target → Option ScrapeCacheRow → M ScrapeOutcome
  unfolding fetch_http revalidated_or
  fetch_page run_id raw started target cached =
      let (etag, last_modified) = validators cached in
      let f = fetch_http cfg net raw etag last_modified in
      revalidated_or run_id raw started target f (confirmed f.error f.not_modified cached)

  -- The page is not fetched where robots.txt disallows it, or where the wait is cut short.
  unfoldable pub ask_network :
      String → Text → Time → Target → Option ScrapeCacheRow → Bool × ℤ → M ScrapeOutcome
  unfolding skip_disallowed fetch_page
  ask_network run_id raw started target cached (permitted, delay) =
      if not permitted
      then skip_disallowed run_id raw started
      else if cfg.respect_crawl_delay && ltb_ℤ (pos 0) delay && not (net.waits delay)
      then pure
          (record (blank_outcome raw) { error = runes "cancelled while honouring crawl-delay" })
      else fetch_page run_id raw started target cached

  unfoldable pub from_cache_or_network :
      String
      → Text
      → Time
      → Target
      → RobotsCache
      → Option ScrapeCacheRow
      → Bool
      → M (ScrapeOutcome × RobotsCache)
  unfolding serve ask_network allowed
  from_cache_or_network run_id raw started target c (some r) true = do
    outcome ← serve r false "cache"
    pure (outcome, c)
  from_cache_or_network run_id raw started target c cached _ = do
    let (verdict, c') = allowed net.robots_get net.find_group target c
    outcome ← ask_network run_id raw started target cached verdict
    pure (outcome, c')

  abbrev pub with_target :
      String
      → Text
      → Bool
      → Duration
      → Time
      → RobotsCache
      → Option Target
      → M (ScrapeOutcome × RobotsCache)
  unfolding from_cache_or_network
  with_target run_id raw use_cache max_age started c none =
      pure (record (blank_outcome raw) { error = runes "unparseable url" }, c)
  with_target run_id raw use_cache max_age started c (some target) = do
    cached ← lookup_if use_cache raw
    fresh ← is_fresh max_age cached
    from_cache_or_network run_id raw started target c cached fresh

  -- one
  unfoldable pub scrape_one :
      String → Text → Bool → Duration → RobotsCache → M (ScrapeOutcome × RobotsCache)
  unfolding now with_target
  scrape_one run_id raw use_cache max_age c = do
    started ← now
    with_target run_id raw use_cache max_age started c (net.parse_url raw)

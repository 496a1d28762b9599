-- ===== src/Examples/Pages.antt =====
-- The theorems on pages, robots.txt and the scraper, at one page and two URLs.
use go_web_search.Prelude.{
  ℕ, ◌≤◌, ◌≤ℤ◌, ◌≡◌, refl, true, false, List, [], ◌∷◌, map, none, some, Option, Distinct, pos,
}
use go_web_search.Clock.{Time, format}
use go_web_search.Strings.{Text, runes, text_eq}
use go_web_search.Rows.{ScrapeRow, short}
use go_web_search.Sql.{select, first}
use go_web_search.Store.{ok, World, now}
use go_web_search.Clean.{Node, text, comment, element, document, nil, cons, prune, extract_text}
use go_web_search.Clean.Document.{clean_html, CleanedDoc}
use go_web_search.Clean.Prune.{IsPruned, prune_lem}
use go_web_search.Clean.Images.{AreKept, clean_html-AreKept}
use go_web_search.Robots.{Target, RobotsCache, new_robots_cache, Group}
use go_web_search.Robots.Once.{allowed_all, allowed_all-Distinct}
use go_web_search.ScrapeCache.{ScrapeOutcome, read_page}
use go_web_search.Scraper.{ScrapeConfig, Net, no_reply}
use go_web_search.Scraper.One.{scrape_one}
use go_web_search.Scraper.Groups.{group_urls, scrape, cap_urls}
use go_web_search.Scraper.Grouped.{urls_under, at_host, group_urls_lem}
use go_web_search.Scraper.Outcomes.{scrape_lem}
use go_web_search.Scraper.Times.{times, urls_of, has_host}
use go_web_search.Scraper.Cached.{hit_recorded, shown_page, scrape_one_cached}
use go_web_search.Freshness.{fresh_at}
use go_web_search.Examples.Data.{world, tables, tiers, at_noon}

-- A paragraph, a script, a comment, and an image that the page has twice.
abbrev image : Node
image = element (runes "img") (record { key = runes "src"; val = runes "a.png" } ∷ []) nil

abbrev page : Node
page = document (
    cons
      (element (runes "body") [] (
        cons (element (runes "p") [] (cons (text (runes "Go")) nil)) (
          cons (element (runes "script") [] (cons (text (runes "x()")) nil))
            (cons (comment (runes "c")) (cons image (cons image nil))))))
      nil)

prune_lem_example :
    IsPruned (prune page)
    × (extract_text (prune page) ≡ extract_text page)
    × (prune (prune page) ≡ prune page)
prune_lem_example = prune_lem page

abbrev parse_page : Text → Option Node
parse_page raw = some page

abbrev render_page : Node → Option Text
render_page n = some (runes "<body></body>")

abbrev cleaned : Option CleanedDoc → CleanedDoc
cleaned none = record { title = []; clean_html = []; text = []; images = [] }
cleaned (some doc) = doc

abbrev doc : CleanedDoc
doc = cleaned (clean_html parse_page render_page [] (λ src. src))

clean_html-AreKept_example : AreKept doc.images
unfolding clean_html
clean_html-AreKept_example = clean_html-AreKept parse_page render_page (λ src. src) [] doc refl

abbrev target : Target
target = record {
  scheme = runes "https";
  host = runes "go.dev";
  escaped_path = runes "/";
  raw_query = [];
}

-- The robots.txt of every origin fails to load.
abbrev no_robots : Text → Option (ℕ × Text)
no_robots url = none

abbrev no_group : ℕ → Text → Option Group
no_group status body = none

allowed_all-Distinct_example :
    Distinct (allowed_all no_robots no_group (target ∷ target ∷ []) new_robots_cache).requests
allowed_all-Distinct_example = allowed_all-Distinct no_robots no_group (target ∷ target ∷ [])

abbrev hostname : Text → Option Text
hostname url = some (runes "go.dev")

abbrev urls : List Text
urls = runes "https://go.dev" ∷ runes "https://go.dev/doc" ∷ runes "https://go.dev" ∷ []

group_urls_lem_example :
    Distinct (map (λ (g : Text × List Text). g.0) (group_urls hostname urls []))
    × ((host : Text)
        → urls_under host (group_urls hostname urls []) ≡ select (at_host hostname host) urls)
group_urls_lem_example = group_urls_lem hostname urls

abbrev pub scrape_settings : ScrapeConfig
scrape_settings = record {
  respect_crawl_delay = true;
  max_body_bytes = pos 0;
  browser_fallback = false;
  min_text_chars = pos 200;
  max_urls = pos 50;
  enabled = true;
  snippet_chars = pos 0;
  total_timeout = pos 0;
}

-- A network on which every request fails.
abbrev pub offline : Net
offline = record {
  parse_url = λ url. some target;
  hostname = hostname;
  resolve = λ base src. src;
  http = λ url etag since. no_reply (runes "offline");
  robots_get = no_robots;
  find_group = no_group;
  browser = none;
  parse_html = parse_page;
  render = render_page;
  html_error = [];
  waits = λ delay. true;
  done = λ t. false;
  sha256_hex = λ body. body;
  error_text = λ e. runes "error";
}

scrape_lem_example :
    (x : List ScrapeOutcome × RobotsCache) × ((scrape scrape_settings tiers offline "r" true
        (pos 0)
        urls
        new_robots_cache
        world).0
      ≡ ok x)
    × ((url : Text)
        → times url (urls_of x.0) ≤ times url (select (has_host hostname) (cap_urls (pos 50) urls)))
    × (pos 0 ≤ℤ pos 0
        → ((t : Time) → false ≡ false)
        → (url : Text)
        → times url (urls_of x.0) ≡ times url (select (has_host hostname) (cap_urls (pos 50) urls)))
scrape_lem_example =
    scrape_lem scrape_settings tiers offline "r" true (pos 0) urls new_robots_cache world

abbrev stored_page : ScrapeRow
stored_page = record {
  id = "p";
  url = runes "https://go.dev";
  run_id = "r";
  http_status = 200;
  content_type = runes "text/html";
  fetched_with = "http";
  robots_allowed = true;
  title = runes "Go";
  raw_html = none;
  clean_html = none;
  text_content = runes "Go";
  images = [];
  content_hash = [];
  etag = [];
  last_modified = [];
  error = [];
  tier = short;
  hit_count = 0;
  expires_at = none;
  fetched_at = format at_noon;
  duration_ms = 5;
  created_at = format at_noon;
  updated_at = format at_noon;
}

abbrev with_page : World
with_page = record world { tables = record tables { scrape_cache = stored_page ∷ [] } }

scrape_one_cached_example :
    ((scrape_one scrape_settings tiers offline "r"
        (runes "https://go.dev")
        true
        (pos 0)
        new_robots_cache
        with_page).0
      ≡ ok (shown_page stored_page, new_robots_cache))
    × ((scrape_one scrape_settings tiers offline "r"
          (runes "https://go.dev")
          true
          (pos 0)
          new_robots_cache
          with_page).1.tables
        ≡ hit_recorded tiers
            (read_page stored_page)
            (now (now (now with_page).1).1).1.clock
            with_page.tables)
unfolding fresh_at first text_eq
scrape_one_cached_example =
    scrape_one_cached scrape_settings tiers offline "r" (runes "https://go.dev") (pos 0)
      new_robots_cache with_page target stored_page refl refl refl refl

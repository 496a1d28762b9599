-- ===== src/Scraper.antt =====
-- scraper.go: one page from the cache, over HTTP or by the browser, and a list of pages by host.
--
-- The network is a record of parameters, and so is whether the caller's context is done; the deadline
-- of total_timeout is the code's own. A request or a statement that a done context fails is one that
-- the network or the driver fails.
pub mod One
pub mod Cached
pub mod Groups
pub mod Grouped
pub mod Covers
pub mod Times
pub mod Outcomes
use go_web_search.Prelude.{
  ℕ, zero, suc, ◌+◌, ◌-◌, ◌*◌, ◌/◌, Bool, true, false, not, ◌&&◌, ◌||◌, List, [], ◌∷◌, ◌++◌, map,
  Option, none, some, String, if◌then◌else◌, ltb, ◌==◌, ℤ, pos, negsuc, ltb_ℤ, length, take,
}
use go_web_search.Clock.{Time, Duration, bytes_lt}
use go_web_search.Strings.{Text, runes, text_eq, text_len, to_lower, contains}
use go_web_search.Decimal.{itoa_nat}
use go_web_search.Sql.{order_by}
use go_web_search.Store.{Error, Result, ok, err, World, M, ◌>>=◌, ◌>>◌, pure, ignore, attempt, now}
use go_web_search.Tier.{TierConfig}
use go_web_search.Freshness.{fresh_enough}
use go_web_search.Distill.{byte_prefix}
use go_web_search.ScrapeCache.{
  ScrapeRecord, ScrapeCacheRow, ScrapeOutcome, lookup_scrape_cache, touch_scrape_cache,
  cache_outcome, save_scrape,
}
use go_web_search.Robots.{Target, RobotsCache, Group, allowed}
use go_web_search.Clean.{Node}
use go_web_search.Clean.Document.{CleanedDoc, clean_html}

-- The fields of config.go's ScrapeConfig that the scraper and the server read. Its numbers may be
-- negative.
pub record ScrapeConfig : Type 0 where
  pub respect_crawl_delay : Bool
  pub max_body_bytes : ℤ
  pub browser_fallback : Bool
  pub min_text_chars : ℤ
  pub max_urls : ℤ
  pub enabled : Bool
  pub snippet_chars : ℤ
  pub total_timeout : Duration

-- The body of an answer, or the error of reading it.
pub data Body : Type 0 where
  read : Text → Body
  broken : Text → Body

pub record Response : Type 0 where
  pub status : ℕ
  pub content_type : Text
  pub etag : Text
  pub last_modified : Text
  pub body : Body

-- The answer to a request, or the error of making or sending it.
pub data Reply : Type 0 where
  no_reply : Text → Reply
  reply : Response → Reply

-- What the code does not implement: url.Parse (none where it fails, with the host name of the URL),
-- resolving a reference, the HTTP client with the two validators that a request sends, the robots
-- package, the browser session (none without one), the html package, the outcome of waiting, whether the
-- caller's context is done at an instant, SHA-256,
-- and the texts of errors.
pub record Net : Type 0 where
  pub parse_url : Text → Option Target
  pub hostname : Text → Option Text
  pub resolve : Target → Text → Text
  pub http : Text → Text → Text → Reply
  pub robots_get : Text → Option (ℕ × Text)
  pub find_group : ℕ → Text → Option Group
  pub browser : Option (Text → Option Text)
  pub parse_html : Text → Option Node
  pub render : Node → Option Text
  pub html_error : Text
  pub waits : ℤ → Bool
  pub done : Time → Bool
  pub sha256_hex : Text → Text
  pub error_text : Error → Text

-- isHTML
unfoldable pub is_html : Text → Bool
unfolding to_lower contains
is_html content_type =
    let ct = to_lower content_type in
    text_eq ct [] || contains (runes "text/html") ct || contains (runes "xhtml") ct

-- What fetchHTTP returns.
pub record Fetched : Type 0 where
  pub body : Text
  pub status : ℕ
  pub content_type : Text
  pub etag : Text
  pub last_modified : Text
  pub not_modified : Bool
  pub error : Option Text

-- `limit <= 0` gives 5 MiB.
abbrev pub body_limit : ℤ → ℕ
body_limit (pos zero) = 5 * 1024 * 1024
body_limit (pos (suc n)) = suc n
body_limit (negsuc n) = 5 * 1024 * 1024

-- The body is cut at the limit (a rune that the cut would split is left out).
abbrev pub fetched_body : ScrapeConfig → Response → Body → Fetched
unfolding byte_prefix
fetched_body cfg r (read body) = record {
  body = byte_prefix (body_limit cfg.max_body_bytes) body;
  status = r.status;
  content_type = r.content_type;
  etag = r.etag;
  last_modified = r.last_modified;
  not_modified = false;
  error = none;
}
fetched_body cfg r (broken e) = record {
  body = [];
  status = r.status;
  content_type = r.content_type;
  etag = r.etag;
  last_modified = r.last_modified;
  not_modified = false;
  error = some e;
}

abbrev pub fetched : ScrapeConfig → Reply → Fetched
unfolding fetched_body
fetched cfg (no_reply e) = record {
  body = [];
  status = 0;
  content_type = [];
  etag = [];
  last_modified = [];
  not_modified = false;
  error = some e;
}
fetched cfg (reply r) =
    if r.status == 304
    then record {
      body = [];
      status = r.status;
      content_type = r.content_type;
      etag = r.etag;
      last_modified = r.last_modified;
      not_modified = true;
      error = none;
    }
    else fetched_body cfg r r.body

-- fetchHTTP
unfoldable pub fetch_http : ScrapeConfig → Net → Text → Text → Text → Fetched
unfolding fetched
fetch_http cfg net raw if_none_match if_modified_since =
    fetched cfg (net.http raw if_none_match if_modified_since)

abbrev pub clean_with : Net → Text → (Text → Text) → Option CleanedDoc
unfolding clean_html
clean_with net body resolve = clean_html net.parse_html net.render body resolve

unfoldable pub has_mount_point : Text → Bool
unfolding contains
has_mount_point body =
    contains (runes "id=\"root\"></div>") body
    || contains (runes "id=\"__next\"></div>") body
    || contains (runes "id=\"app\"></div>") body

abbrev pub is_thin : ScrapeConfig → Text → Option CleanedDoc → Bool
unfolding has_mount_point
is_thin cfg body none = true
is_thin cfg body (some doc) =
    ltb_ℤ (pos (text_len doc.text)) cfg.min_text_chars || has_mount_point body

abbrev pub has_session : Option (Text → Option Text) → Bool
has_session none = false
has_session (some s) = true

-- shouldRetryInBrowser
unfoldable pub should_retry_in_browser : ScrapeConfig → Net → Text → Text → Bool
unfolding is_html clean_with is_thin
should_retry_in_browser cfg net body content_type =
    cfg.browser_fallback
    && has_session net.browser
    && is_html content_type
    && is_thin cfg body (clean_with net body (λ ref. []))

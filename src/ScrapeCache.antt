-- ===== src/ScrapeCache.antt =====
-- scrapecache.go: the stored pages, one row for each URL, and their use as a shield before a fetch.
pub mod Unique
pub mod Written
use go_web_search.Prelude.{
  ℕ, zero, suc, Bool, true, false, ◌&&◌, List, [], ◌∷◌, ◌++◌, map, Option, none, some, String,
  str_eq, if◌then◌else◌, ℤ, pos, drop, take, length, ◌/◌,
}
use go_web_search.Clock.{Time, Stamp, TimeText, stamp, format, text_lt}
use go_web_search.Strings.{Text, text_eq, text_len, like}
use go_web_search.Rows.{Tier, short, ScrapeRow, ImageRef, Tables}
use go_web_search.Sql.{first, update, count, select, order_by}
use go_web_search.Store.{
  Error, Result, ok, err, World, M, ◌>>=◌, ◌>>◌, pure, fail, attempt, now, new_id, exec, query,
  clamp_page,
}
use go_web_search.Tier.{TierConfig, next_expiry, exp_arg}
use go_web_search.Freshness.{time_text}
use go_web_search.Cleanup.{on_scrapes}
use go_web_search.SearchCache.{tier_matches}

-- ScrapeRecord of store.go: one fetched page. The duration is in milliseconds.
pub record ScrapeRecord : Type 0 where
  pub url : Text
  pub run_id : String
  pub http_status : ℕ
  pub content_type : Text
  pub fetched_with : String
  pub robots_allowed : Bool
  pub title : Text
  pub raw_html : Text
  pub clean_html : Text
  pub text : Text
  pub err_text : Text
  pub duration_ms : ℕ
  pub images : List ImageRef
  pub etag : Text
  pub last_modified : Text

-- scrapeCacheRow
pub record ScrapeCacheRow : Type 0 where
  pub id : String
  pub url : Text
  pub status : ℕ
  pub content_type : Text
  pub fetched_with : String
  pub title : Text
  pub text_chars : ℕ
  pub image_count : ℕ
  pub content_hash : Text
  pub etag : Text
  pub last_modified : Text
  pub tier : Tier
  pub hit_count : ℕ
  pub expires_at : TimeText
  pub fetched_at : TimeText

abbrev pub has_url : Text → ScrapeRow → Bool
has_url url r = text_eq r.url url

unfoldable pub update_pages : (ScrapeRow → Bool) → (ScrapeRow → ScrapeRow) → M ℕ
update_pages p f = exec (λ t. (on_scrapes (update p f) t, count p t.scrape_cache))

unfoldable pub insert_page : ScrapeRow → M ℕ
insert_page r = exec (λ t. (on_scrapes (λ rows. rows ++ r ∷ []) t, 1))

abbrev pub page_id : Option ScrapeRow → M String
page_id none = fail Error.no_rows
page_id (some r) = pure r.id

-- The hexadecimal SHA-256 of a text is a parameter; the empty text has the empty hash.
module _ (sha256_hex : Text → Text) where
  abbrev hash_of : Text → Text
  hash_of [] = []
  hash_of (c ∷ s) = sha256_hex (c ∷ s)

  unfoldable pub content_hash : Text → Text → Text
  content_hash [] clean_html = hash_of clean_html
  content_hash (c ∷ s) clean_html = sha256_hex (c ∷ s)

  -- The UPDATE of a page that is fetched again; `raw_html` and `clean_html` are there again.
  unfoldable pub refetch : ScrapeRecord → Tier × Option Time → Stamp → ScrapeRow → ScrapeRow
  unfolding content_hash
  refetch rec (tier, exp) at r = record r {
    run_id = rec.run_id;
    http_status = rec.http_status;
    content_type = rec.content_type;
    fetched_with = rec.fetched_with;
    robots_allowed = rec.robots_allowed;
    title = rec.title;
    raw_html = some rec.raw_html;
    clean_html = some rec.clean_html;
    text_content = rec.text;
    images = rec.images;
    content_hash = content_hash rec.text rec.clean_html;
    etag = rec.etag;
    last_modified = rec.last_modified;
    error = rec.err_text;
    tier = tier;
    hit_count = 0;
    expires_at = exp_arg exp;
    fetched_at = at;
    duration_ms = rec.duration_ms;
    updated_at = at;
  }

  unfoldable pub fresh_page : String → ScrapeRecord → Tier × Option Time → Stamp → ScrapeRow
  unfolding content_hash
  fresh_page id rec (tier, exp) at = record {
    id = id;
    url = rec.url;
    run_id = rec.run_id;
    http_status = rec.http_status;
    content_type = rec.content_type;
    fetched_with = rec.fetched_with;
    robots_allowed = rec.robots_allowed;
    title = rec.title;
    raw_html = some rec.raw_html;
    clean_html = some rec.clean_html;
    text_content = rec.text;
    images = rec.images;
    content_hash = content_hash rec.text rec.clean_html;
    etag = rec.etag;
    last_modified = rec.last_modified;
    error = rec.err_text;
    tier = tier;
    hit_count = 0;
    expires_at = exp_arg exp;
    fetched_at = at;
    duration_ms = rec.duration_ms;
    created_at = at;
    updated_at = at;
  }

  -- SaveScrape, after the UPDATE affected n rows.
  unfoldable pub save_page : ScrapeRecord → Tier × Option Time → Stamp → ℕ → M String
  unfolding insert_page fresh_page
  save_page rec window at zero = do id ← new_id; insert_page (fresh_page id rec window at); pure id
  save_page rec window at (suc n) = do
    row ← query (λ t. first (has_url rec.url) t.scrape_cache)
    page_id row

  unfoldable pub save_scrape : TierConfig → ScrapeRecord → M String
  unfolding now update_pages refetch save_page
  save_scrape cfg rec = do
    t ← now
    let window = next_expiry t short 0 cfg
    n ← update_pages (has_url rec.url) (refetch rec window (format t))
    save_page rec window (format t) n

unfoldable pub read_page : ScrapeRow → ScrapeCacheRow
read_page r = record {
  id = r.id;
  url = r.url;
  status = r.http_status;
  content_type = r.content_type;
  fetched_with = r.fetched_with;
  title = r.title;
  text_chars = text_len r.text_content;
  image_count = length r.images;
  content_hash = r.content_hash;
  etag = r.etag;
  last_modified = r.last_modified;
  tier = r.tier;
  hit_count = r.hit_count;
  expires_at = time_text r.expires_at;
  fetched_at = stamp r.fetched_at;
}

abbrev pub page_or_none : Option ScrapeRow → Option ScrapeCacheRow
unfolding read_page
page_or_none none = none
page_or_none (some r) = some (read_page r)

-- LookupScrapeCache
unfoldable pub lookup_scrape_cache : Text → World → Result (Option ScrapeCacheRow) × World
unfolding page_or_none
lookup_scrape_cache url = query (λ t. page_or_none (first (has_url url) t.scrape_cache))

-- The two UPDATEs of touchScrapeCache.
abbrev pub touched_page : Bool → ℕ → Tier × Option Time → Stamp → ScrapeRow → ScrapeRow
touched_page true hits (tier, exp) at r = record r {
  hit_count = hits;
  tier = tier;
  expires_at = exp_arg exp;
  fetched_at = at;
  updated_at = at;
}
touched_page false hits (tier, exp) at r = record r {
  hit_count = hits;
  tier = tier;
  expires_at = exp_arg exp;
  updated_at = at;
}

-- touchScrapeCache: the caller's row as it is left, and the outcome of the UPDATE.
unfoldable pub touch_scrape_cache :
    TierConfig → ScrapeCacheRow → Bool → M (ScrapeCacheRow × Result ℕ)
unfolding now update_pages
touch_scrape_cache cfg r refresh_fetched = do
  t ← now
  let hits = suc r.hit_count
  let window = next_expiry t r.tier hits cfg
  outcome ←
      attempt
        (update_pages (λ x. str_eq x.id r.id) (touched_page refresh_fetched hits window (format t)))
  pure (record r { hit_count = hits; tier = window.0 }, outcome)

-- ListScrapeCache; the bodies are shown by their lengths only.
unfoldable pub list_scrape_cache :
    Option Tier → Text → ℤ → ℤ → World → Result (List ScrapeRow) × World
unfolding clamp_page tier_matches
list_scrape_cache tier q limit offset =
    let (n, skip) = clamp_page limit offset in
    query λ t. take n (
      drop skip (
        order_by (λ a b. text_lt b.fetched_at a.fetched_at)
          (select (λ r. tier_matches tier r.tier && like q r.url) t.scrape_cache)))

-- RunScrapeIDs
unfoldable pub run_scrape_ids : String → World → Result (List String) × World
run_scrape_ids run_id = query λ t.
    map (λ r. r.id)
      (order_by (λ a b. text_lt a.created_at b.created_at)
        (select (λ (r : ScrapeRow). str_eq r.run_id run_id) t.scrape_cache))

-- ScrapeOutcome of scraper.go, and the one of a page that the cache holds.
pub record ScrapeOutcome : Type 0 where
  pub scrape_id : String
  pub url : Text
  pub status : ℕ
  pub fetched_with : String
  pub title : Text
  pub text_chars : ℕ
  pub images : ℕ
  pub skipped : Text
  pub error : Text

unfoldable pub cache_outcome : ScrapeCacheRow → String → ScrapeOutcome
cache_outcome r provenance = record {
  scrape_id = r.id;
  url = r.url;
  status = r.status;
  fetched_with = provenance;
  title = r.title;
  text_chars = r.text_chars;
  images = r.image_count;
  skipped = [];
  error = [];
}

-- GetScrape: the row without its raw HTML unless that is asked for.
abbrev pub hide_raw : Bool → ScrapeRow → ScrapeRow
hide_raw true r = r
hide_raw false r = record r { raw_html = none }

abbrev pub detail_of : Bool → Option ScrapeRow → M ScrapeRow
detail_of include_raw none = fail Error.no_rows
detail_of include_raw (some r) = pure (hide_raw include_raw r)

unfoldable pub get_scrape : String → Bool → M ScrapeRow
get_scrape id include_raw = do
  row ← query (λ t. first (λ (r : ScrapeRow). str_eq r.id id) t.scrape_cache)
  detail_of include_raw row

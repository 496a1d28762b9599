-- ===== src/ScrapeCache/Written.antt =====
-- scrapecache.go, `SaveScrape`: the page that a success leaves.
use go_web_search.Prelude.{ℕ, zero, suc, ◌≡◌, Option, some, String}
use go_web_search.Clock.{Time, Stamp}
use go_web_search.Strings.{Text}
use go_web_search.Rows.{Tier, ScrapeRow, Tables}
use go_web_search.Sql.{count, first}
use go_web_search.Store.Triple.{Triple}
use go_web_search.ScrapeCache.{ScrapeRecord, has_url, refetch}

-- The row has what the scrape brought.
pub record IsSaved (rec : ScrapeRecord) (r : ScrapeRow) : Type 0 where
  pub url : r.url ≡ rec.url
  pub run_id : r.run_id ≡ rec.run_id
  pub status : r.http_status ≡ rec.http_status
  pub title : r.title ≡ rec.title
  pub raw : r.raw_html ≡ some rec.raw_html
  pub clean : r.clean_html ≡ some rec.clean_html
  pub text : r.text_content ≡ rec.text
  pub images : r.images ≡ rec.images
  pub etag : r.etag ≡ rec.etag
  pub last_modified : r.last_modified ≡ rec.last_modified
  pub error : r.error ≡ rec.err_text

module _ (rec : ScrapeRecord) where
  abbrev Present : Tables → Type 0
  Present t = (r : ScrapeRow) × (first (has_url rec.url) t.scrape_cache ≡ some r) × IsSaved rec r

  -- After the UPDATE, by the number of rows that it affected.
  abbrev Updated : ℕ → Tables → Type 0
  Updated zero t = count (has_url rec.url) t.scrape_cache ≡ 0
  Updated (suc n) t = Present t

  abbrev Stored : String → Tables → Type 0
  Stored id t =
      (r : ScrapeRow) × (first (has_url rec.url) t.scrape_cache ≡ some r)
      × (r.id ≡ id)
      × IsSaved rec r

module _ (sha256_hex : Text → Text) (rec : ScrapeRecord) (window : Tier × Option Time)
    (at : Stamp) where
  abbrev change : ScrapeRow → ScrapeRow
  change = refetch sha256_hex rec window at

-- ===== src/Runs/Listing.antt =====
-- store.go, the read side of runs and searches: GetRun, ListRuns, ListSearches, SearchRawHTML,
-- RunURLs and DistinctURLs. A join on a primary key is a test whether the row is there.
use go_web_search.Prelude.{
  ℕ, zero, suc, Bool, false, ◌&&◌, ◌||◌, List, [], ◌∷◌, map, Option, none, some, String, str_eq,
  if◌then◌else◌, ltb, ◌==◌, length, take, ℤ, pos, negsuc,
}
use go_web_search.Clock.{Stamp, TimeText, bytes_lt, text_lt}
use go_web_search.Freshness.{time_text}
use go_web_search.Strings.{Text, text_eq}
use go_web_search.Rows.{RunRow, SearchRow, RawRow, UrlRow, SearchUrlRow, ScrapeRow, Tables}
use go_web_search.Sql.{first, count, select, order_by}
use go_web_search.Store.{Error, Result, World, M, ◌>>=◌, pure, fail, ignore, query}
use go_web_search.Runs.{run_is}

module _ {A : Type 0} (eq : A → A → Bool) where
  unfoldable pub member : A → List A → Bool
  member x [] = false
  member x (y ∷ ys) = eq x y || member x ys

  -- DISTINCT: of equal values the last one is kept.
  unfoldable pub distinct : List A → List A
  unfolding member
  distinct [] = []
  distinct (x ∷ xs) = if member x xs then distinct xs else x ∷ distinct xs

abbrev pub of_run : String → SearchRow → Bool
of_run run_id s = str_eq s.run_id run_id

abbrev pub finds : String → SearchUrlRow → SearchRow → Bool
finds run_id l s = str_eq s.id l.search_id && of_run run_id s

-- search_urls JOIN searches, of one run.
unfoldable pub run_links : String → Tables → List SearchUrlRow
run_links run_id t = select (λ l. ltb 0 (count (finds run_id l) t.searches)) t.search_urls

pub record RunSummary : Type 0 where
  pub id : String
  pub mode : Text
  pub artifact_dir : Text
  pub started_at : Stamp
  pub finished_at : TimeText
  pub searches : ℕ
  pub urls : ℕ
  pub scrapes : ℕ

unfoldable pub count_searches : String → Tables → ℕ
count_searches run_id t = count (of_run run_id) t.searches

unfoldable pub count_urls : String → Tables → ℕ
unfolding distinct run_links
count_urls run_id t = length (distinct str_eq (map (λ l. l.url_id) (run_links run_id t)))

unfoldable pub count_scrapes : String → Tables → ℕ
count_scrapes run_id t = count (λ (r : ScrapeRow). str_eq r.run_id run_id) t.scrape_cache

unfoldable pub summary : Text → ℕ → ℕ → ℕ → RunRow → RunSummary
summary artifact_dir searches urls scrapes r = record {
  id = r.id;
  mode = r.mode;
  artifact_dir = artifact_dir;
  started_at = r.started_at;
  finished_at = time_text r.finished_at;
  searches = searches;
  urls = urls;
  scrapes = scrapes;
}

-- The counts of GetRun; one that fails is left at 0.
unfoldable pub with_counts : String → Option RunRow → M RunSummary
unfolding summary count_searches count_urls count_scrapes
with_counts run_id none = fail Error.no_rows
with_counts run_id (some r) = do
  searches ← ignore 0 (query (count_searches run_id))
  urls ← ignore 0 (query (count_urls run_id))
  scrapes ← ignore 0 (query (count_scrapes run_id))
  pure (summary r.artifact_dir searches urls scrapes r)

-- GetRun
unfoldable pub get_run : String → M RunSummary
unfolding with_counts
get_run run_id = do row ← query (λ t. first (run_is run_id) t.runs); with_counts run_id row

-- `limit <= 0` gives 50.
abbrev pub run_limit : ℤ → ℕ
run_limit (pos zero) = 50
run_limit (pos (suc n)) = suc n
run_limit (negsuc n) = 50

-- ListRuns; the artifact directory is not read.
unfoldable pub list_runs : ℤ → World → Result (List RunSummary) × World
unfolding summary count_searches count_urls count_scrapes
list_runs limit = query λ t.
    map (λ r. summary [] (count_searches r.id t) (count_urls r.id t) (count_scrapes r.id t) r)
      (take (run_limit limit) (order_by (λ a b. text_lt b.started_at a.started_at) t.runs))

pub record SearchSummary : Type 0 where
  pub id : String
  pub run_id : String
  pub term : Text
  pub engine : Text
  pub search_mode : Text
  pub landed_url : Text
  pub http_status : ℕ
  pub blocked : Bool
  pub anchor_count : ℕ
  pub error : Text
  pub duration_ms : ℕ
  pub created_at : Stamp

unfoldable pub summarize_search : SearchRow → SearchSummary
summarize_search r = record {
  id = r.id;
  run_id = r.run_id;
  term = r.term;
  engine = r.engine;
  search_mode = r.search_mode;
  landed_url = r.landed_url;
  http_status = r.http_status;
  blocked = r.blocked;
  anchor_count = r.anchor_count;
  error = r.error;
  duration_ms = r.duration_ms;
  created_at = r.created_at;
}

-- ListSearches
unfoldable pub list_searches : String → World → Result (List SearchSummary) × World
unfolding summarize_search
list_searches run_id = query λ t.
    map summarize_search
      (order_by (λ a b. text_lt a.created_at b.created_at) (select (of_run run_id) t.searches))

abbrev pub html_of : Option RawRow → M Text
html_of none = fail Error.no_rows
html_of (some r) = pure r.html

-- SearchRawHTML
unfoldable pub search_raw_html : String → M Text
search_raw_html search_id = do
  row ← query (λ t. first (λ (r : RawRow). str_eq r.search_id search_id) t.search_raw)
  html_of row

-- URLRow, as RunURLs fills it.
pub record RankedUrl : Type 0 where
  pub id : String
  pub url : Text
  pub domain : Text
  pub rank : ℕ

abbrev pub lesser : ℕ → Option ℕ → ℕ
lesser n none = n
lesser n (some m) = if ltb m n then m else n

-- MIN(rank) of the links to one URL; none where it has no link.
unfoldable pub best_rank : String → List SearchUrlRow → Option ℕ
best_rank url_id [] = none
best_rank url_id (l ∷ ls) =
    let best = best_rank url_id ls in
    if str_eq l.url_id url_id then some (lesser l.rank best) else best

abbrev pub with_rank : UrlRow → Option ℕ → List RankedUrl → List RankedUrl
with_rank u none rest = rest
with_rank u (some n) rest = record { id = u.id; url = u.url; domain = u.domain; rank = n } ∷ rest

-- GROUP BY: one row for each URL that has a link.
unfoldable pub rank_urls : List SearchUrlRow → List UrlRow → List RankedUrl
unfolding best_rank
rank_urls links [] = []
rank_urls links (u ∷ us) = with_rank u (best_rank u.id links) (rank_urls links us)

abbrev pub better : RankedUrl → RankedUrl → Bool
better a b = ltb a.rank b.rank || (a.rank == b.rank && bytes_lt a.url b.url)

-- RunURLs
unfoldable pub run_urls : String → World → Result (List RankedUrl) × World
unfolding rank_urls run_links
run_urls run_id = query λ t. order_by better (rank_urls (run_links run_id t) t.urls)

-- DistinctURLs
unfoldable pub distinct_urls : String → World → Result (List Text) × World
unfolding distinct run_links
distinct_urls run_id = query λ t.
    let links = run_links run_id t in
    order_by bytes_lt (
      distinct text_eq (
        map (λ (u : UrlRow). u.url)
          (select (λ u. ltb 0 (count (λ (l : SearchUrlRow). str_eq l.url_id u.id) links)) t.urls)))

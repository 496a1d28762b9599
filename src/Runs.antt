-- ===== src/Runs.antt =====
-- store.go, the write side of runs and searches: StartRun, FinishRun, SaveSearch and upsertURL.
pub mod Listing
pub mod Member
pub mod Links
pub mod Saved
pub mod Ranked
use go_web_search.Prelude.{
  ℕ, zero, suc, ◌+◌, Bool, ◌&&◌, List, [], ◌∷◌, ◌++◌, Option, none, some, String, str_eq,
  if◌then◌else◌,
}
use go_web_search.Clock.{Stamp}
use go_web_search.Strings.{Text, text_eq, to_lower}
use go_web_search.Rows.{RunRow, SearchRow, RawRow, UrlRow, SearchUrlRow, Tables}
use go_web_search.Sql.{first, update, count}
use go_web_search.Store.{World, M, ◌>>=◌, ◌>>◌, pure, now_rfc3339, new_id, exec, query, transaction}

-- Everything known about one engine query. The duration is in milliseconds.
pub record SearchRecord : Type 0 where
  pub run_id : String
  pub term : Text
  pub engine : Text
  pub search_mode : Text
  pub requested_url : Text
  pub landed_url : Text
  pub http_status : ℕ
  pub blocked : Bool
  pub anchor_count : ℕ
  pub err_text : Text
  pub duration_ms : ℕ
  pub raw_html : Text
  pub urls : List Text

-- StartRun
unfoldable pub insert_run : RunRow → M ℕ
insert_run r = exec (λ t. (record t { runs = t.runs ++ r ∷ [] }, 1))

unfoldable pub start_run : Text → Text → M String
unfolding insert_run
start_run mode artifact_dir = do
  id ← new_id
  at ← now_rfc3339
  insert_run (record {
    id = id;
    mode = mode;
    artifact_dir = artifact_dir;
    started_at = at;
    finished_at = none;
    created_at = at;
  })
  pure id

abbrev pub run_is : String → RunRow → Bool
run_is id r = str_eq r.id id

-- FinishRun
unfoldable pub finish_run : String → M ℕ
finish_run run_id = do
  at ← now_rfc3339
  exec λ t. (
    record t { runs = update (run_is run_id) (λ r. record r { finished_at = some at }) t.runs },
    count (run_is run_id) t.runs,
  )

-- The INSERT statements of SaveSearch.
unfoldable pub search_row : String → SearchRecord → Stamp → SearchRow
search_row id rec at = record {
  id = id;
  run_id = rec.run_id;
  term = rec.term;
  engine = rec.engine;
  search_mode = rec.search_mode;
  requested_url = rec.requested_url;
  landed_url = rec.landed_url;
  http_status = rec.http_status;
  blocked = rec.blocked;
  anchor_count = rec.anchor_count;
  error = rec.err_text;
  duration_ms = rec.duration_ms;
  created_at = at;
}

abbrev pub add_search : SearchRow → Tables → Tables × ℕ
add_search r t = (record t { searches = t.searches ++ r ∷ [] }, 1)

abbrev pub add_raw : RawRow → Tables → Tables × ℕ
add_raw r t = (record t { search_raw = t.search_raw ++ r ∷ [] }, 1)

abbrev pub add_url : UrlRow → Tables → Tables × ℕ
add_url r t = (record t { urls = t.urls ++ r ∷ [] }, 1)

abbrev pub same_link : SearchUrlRow → SearchUrlRow → Bool
same_link r x = str_eq x.search_id r.search_id && str_eq x.url_id r.url_id

-- INSERT OR IGNORE under the unique index on (search_id, url_id).
abbrev pub unless_linked : ℕ → SearchUrlRow → Tables → Tables × ℕ
unless_linked zero r t = (record t { search_urls = t.search_urls ++ r ∷ [] }, 1)
unless_linked (suc n) r t = (t, 0)

unfoldable pub add_link : SearchUrlRow → Tables → Tables × ℕ
add_link r t = unless_linked (count (same_link r) t.search_urls) r t

-- The raw page is stored only where there is one.
unfoldable pub save_raw : Text → String → Stamp → M ℕ
save_raw [] search_id at = pure 0
save_raw (c ∷ s) search_id at = do
  id ← new_id
  exec (add_raw (record { id = id; search_id = search_id; html = c ∷ s; created_at = at }))

abbrev pub url_is : Text → UrlRow → Bool
url_is url r = text_eq r.url url

-- `hostname` is url.Parse with Hostname: none where the text does not parse.
module _ (hostname : Text → Option Text) where
  abbrev lower_host : Option Text → Text
  unfolding to_lower
  lower_host none = []
  lower_host (some host) = to_lower host

  -- domainOf
  unfoldable pub domain_of : Text → Text
  unfolding lower_host
  domain_of raw = lower_host (hostname raw)

  unfoldable pub found_or_new : Text → Stamp → Option UrlRow → M String
  unfolding domain_of
  found_or_new url at (some r) = pure r.id
  found_or_new url at none = do
    id ← new_id
    exec (
        add_url (record {
          id = id;
          url = url;
          domain = domain_of url;
          first_seen_at = at;
          created_at = at;
        }))
    pure id

  -- upsertURL
  unfoldable pub upsert_url : Text → Stamp → M String
  unfolding found_or_new
  upsert_url url at = do row ← query (λ t. first (url_is url) t.urls); found_or_new url at row

  -- The loop of SaveSearch; `rank` counts from 0.
  unfoldable pub save_urls : String → Stamp → ℕ → List Text → M (Unit {0})
  unfolding upsert_url
  save_urls search_id at rank [] = pure tt
  save_urls search_id at rank (url ∷ urls) = do
    url_id ← upsert_url url at
    id ← new_id
    exec (
        add_link (record {
          id = id;
          search_id = search_id;
          url_id = url_id;
          rank = rank + 1;
          created_at = at;
        }))
    save_urls search_id at (rank + 1) urls

  unfoldable pub search_statements : SearchRecord → M String
  unfolding search_row save_raw save_urls
  search_statements rec = do
    at ← now_rfc3339
    search_id ← new_id
    exec (add_search (search_row search_id rec at))
    save_raw rec.raw_html search_id at
    save_urls search_id at 0 rec.urls
    pure search_id

  -- SaveSearch
  unfoldable pub save_search : SearchRecord → M String
  unfolding search_statements
  save_search rec = transaction (search_statements rec)

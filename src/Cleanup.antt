-- ===== src/Cleanup.antt =====
-- cleanup.go and retention.go: the expiry sweep over the three stores, and the trimming of raw
-- content.
pub mod Expired
use go_web_search.Prelude.{
  ℕ, Bool, true, false, not, ◌&&◌, ◌||◌, List, [], ◌∷◌, map, Option, none, some, String, str_eq, ℤ,
  pos, negsuc, take,
}
use go_web_search.Clock.{Duration, Stamp, add_neg, format, text_lt}
use go_web_search.Strings.{Text}
use go_web_search.Rows.{
  SearchCacheRow, FactRow, ScrapeRow, RawRow, Tables, Payload, OwnerKind, memory, search,
}
use go_web_search.Sql.{select, delete, update, count, order_by}
use go_web_search.Store.{M, ◌>>=◌, ◌>>◌, pure, ignore, now, now_rfc3339, exec, query}
use go_web_search.Vectors.{active_vector_table, delete_vector, no_table}
use go_web_search.Memory.{on_facts}
use go_web_search.SearchCache.{on_cache}

-- `expires_at IS NOT NULL AND expires_at < ?`
abbrev pub past : Stamp → Option Stamp → Bool
past at none = false
past at (some e) = text_lt e at

-- deleteExpired over one store: the expired ids are read first, and then deleted one by one.
module _ {A : Type 0} (id_of : A → String) (expiry : A → Option Stamp) where
  unfoldable pub expired_ids : Stamp → List A → List String
  expired_ids at rows = map id_of (select (λ r. past at (expiry r)) rows)

  abbrev pub row_id : String → A → Bool
  row_id id r = str_eq (id_of r) id

  module _ (rows_of : Tables → List A) (on : (List A → List A) → Tables → Tables) where
    -- DELETE FROM table WHERE id = ?
    unfoldable pub delete_row : String → M ℕ
    delete_row id = exec (λ t. (on (delete (row_id id)) t, count (row_id id) (rows_of t)))

    unfoldable pub delete_ids : List String → M (Unit {0})
    unfolding delete_row
    delete_ids [] = pure tt
    delete_ids (id ∷ ids) = do delete_row id; delete_ids ids

    unfoldable pub delete_expired : Stamp → M (List String)
    unfolding expired_ids delete_ids
    delete_expired at = do ids ← query (λ t. expired_ids at (rows_of t)); delete_ids ids; pure ids

abbrev pub on_scrapes : (List ScrapeRow → List ScrapeRow) → Tables → Tables
on_scrapes f t = record t { scrape_cache = f t.scrape_cache }

unfoldable pub expired_searches : Stamp → M (List String)
unfolding delete_expired
expired_searches =
    delete_expired (λ (r : SearchCacheRow). r.id) (λ r. r.expires_at) (λ t. t.search_cache) on_cache

unfoldable pub expired_facts : Stamp → M (List String)
unfolding delete_expired
expired_facts =
    delete_expired (λ (r : FactRow). r.id) (λ r. r.expires_at) (λ t. t.memory_facts) on_facts

unfoldable pub expired_scrapes : Stamp → M (List String)
unfolding delete_expired
expired_scrapes =
    delete_expired (λ (r : ScrapeRow). r.id) (λ r. r.expires_at) (λ t. t.scrape_cache) on_scrapes

-- The cascade; errors are dropped.
unfoldable pub delete_vectors : Text → OwnerKind → List String → M (Unit {0})
delete_vectors table kind [] = pure tt
delete_vectors table kind (id ∷ ids) = do
  ignore 0 (delete_vector table kind id)
  delete_vectors table kind ids

unfoldable pub cascade : Text → List String → List String → M (Unit {0})
unfolding delete_vectors
cascade [] search_ids mem_ids = pure tt
cascade (c ∷ s) search_ids mem_ids = do
  delete_vectors (c ∷ s) search search_ids
  delete_vectors (c ∷ s) memory mem_ids

-- CleanupExpired
unfoldable pub cleanup_expired : M (Unit {0})
unfolding now_rfc3339 cascade
cleanup_expired = do
  at ← now_rfc3339
  active ← ignore (no_table, false) active_vector_table
  search_ids ← expired_searches at
  mem_ids ← expired_facts at
  expired_scrapes at
  cascade active.0 search_ids mem_ids

-- The newest `keep` ids by creation.
unfoldable pub newest_scrapes : ℕ → List ScrapeRow → List String
newest_scrapes keep rows =
    map (λ r. r.id) (take keep (order_by (λ a b. text_lt b.created_at a.created_at) rows))

unfoldable pub newest_raws : ℕ → List RawRow → List String
newest_raws keep rows =
    map (λ r. r.id) (take keep (order_by (λ a b. text_lt b.created_at a.created_at) rows))

unfoldable pub id_in : String → List String → Bool
id_in id [] = false
id_in id (x ∷ xs) = str_eq x id || id_in id xs

abbrev pub is_some : {A : Type 0} → Option A → Bool
is_some none = false
is_some (some a) = true

unfoldable pub trims_scrape : Stamp → List String → ScrapeRow → Bool
unfolding id_in
trims_scrape cutoff kept r =
    text_lt r.created_at cutoff
    && not (id_in r.id kept)
    && (is_some r.raw_html || is_some r.clean_html)

unfoldable pub trims_raw : Stamp → List String → RawRow → Bool
unfolding id_in
trims_raw cutoff kept r = text_lt r.created_at cutoff && not (id_in r.id kept)

abbrev pub trim_scrape : ScrapeRow → ScrapeRow
trim_scrape r = record r { raw_html = none; clean_html = none }

abbrev pub keep_count : ℤ → ℕ
keep_count (pos n) = n
keep_count (negsuc n) = 0

unfoldable pub trim_scrapes : Stamp → ℕ → M ℕ
unfolding newest_scrapes trims_scrape
trim_scrapes cutoff keep = exec λ t.
    let p = trims_scrape cutoff (newest_scrapes keep t.scrape_cache) in
    (on_scrapes (update p trim_scrape) t, count p t.scrape_cache)

abbrev pub on_raws : (List RawRow → List RawRow) → Tables → Tables
on_raws f t = record t { search_raw = f t.search_raw }

unfoldable pub delete_raws : Stamp → ℕ → M ℕ
unfolding newest_raws trims_raw
delete_raws cutoff keep = exec λ t.
    let p = trims_raw cutoff (newest_raws keep t.search_raw) in
    (on_raws (delete p) t, count p t.search_raw)

-- TrimRawContent
unfoldable pub trim_raw_content : Duration → ℤ → M ℕ
unfolding now trim_scrapes delete_raws
trim_raw_content max_age keep_last = do
  t ← now
  let cutoff = format (add_neg t max_age)
  let keep = keep_count keep_last
  trim_scrapes cutoff keep
  delete_raws cutoff keep

pub record RetentionConfig : Type 0 where
  pub trim_raw : Bool
  pub raw_max_age : Duration
  pub raw_keep_last : ℤ

abbrev pub trim_if : Bool → RetentionConfig → M (Unit {0})
trim_if false ret = pure tt
trim_if true ret = do trim_raw_content ret.raw_max_age ret.raw_keep_last; pure tt

-- cleanupHandler
unfoldable pub cleanup_handler : RetentionConfig → Payload → M (Unit {0})
unfolding cleanup_expired trim_raw_content
cleanup_handler ret payload = do cleanup_expired; trim_if ret.trim_raw ret

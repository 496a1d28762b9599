-- ===== src/Wiring/Sweep.antt =====
-- cleanup.go and retention.go: the cleanup handler and the rows of the queue.
use go_web_search.Prelude.{ℕ, ◌≡◌, refl, Bool, true, false, List, [], ◌∷◌, Option, String, ℤ}
use go_web_search.Clock.{Stamp, Duration}
use go_web_search.Strings.{Text}
use go_web_search.Rows.{Tables, JobRow, OwnerKind, Payload, FactRow, SearchCacheRow, ScrapeRow}
use go_web_search.Sql.{update, delete, count}
use go_web_search.Store.Keeps.{Keeps, keeps_rules, Keeps-exec, Keeps-bind, Keeps-ignore}
use go_web_search.Vectors.{delete_vector}
use go_web_search.Memory.{on_facts}
use go_web_search.SearchCache.{on_cache}
use go_web_search.Cleanup.{
  RetentionConfig, cleanup_handler, cleanup_expired, trim_raw_content, trim_if, delete_expired,
  delete_ids, delete_row, row_id, expired_searches, expired_facts, expired_scrapes, cascade,
  delete_vectors, trim_scrapes, delete_raws, on_scrapes, on_raws, trims_scrape, trims_raw,
  trim_scrape, newest_scrapes, newest_raws,
}
use go_web_search.Wiring.Tame.{Queue, active_vector_table-Queue, delete_vector-Queue}

module _ (Q : List JobRow → Type 0) where
  module _ {A : Type 0} (id_of : A → String) (expiry : A → Option Stamp) (rows_of : Tables → List A)
      (on : (List A → List A) → Tables → Tables)
      (same : (f : List A → List A) (t : Tables) → (on f t).jobs ≡ t.jobs) where
    delete_row-Queue : (id : String) → Keeps (Queue Q) (delete_row id_of expiry rows_of on id)
    unfolding delete_row
    delete_row-Queue id =
        Keeps-exec (Queue Q)
          (λ t.
            (on (delete (row_id id_of expiry id)) t, count (row_id id_of expiry id) (rows_of t)))
          λ t h. rw (same (delete (row_id id_of expiry id)) t) h

    delete_ids-Queue :
        (ids : List String) → Keeps (Queue Q) (delete_ids id_of expiry rows_of on ids)
    unfolding delete_ids
    delete_ids-Queue [] = search keeps_rules
    delete_ids-Queue (id ∷ ids) =
        Keeps-bind (Queue Q) (delete_row id_of expiry rows_of on id) _ (delete_row-Queue id)
          λ _. delete_ids-Queue ids

    delete_expired-Queue :
        (at : Stamp) → Keeps (Queue Q) (delete_expired id_of expiry rows_of on at)
    unfolding delete_expired
    delete_expired-Queue at = search (keeps_rules, delete_ids-Queue)

  expired_searches-Queue : (at : Stamp) → Keeps (Queue Q) (expired_searches at)
  unfolding expired_searches
  expired_searches-Queue at =
      delete_expired-Queue (λ (r : SearchCacheRow). r.id) (λ r. r.expires_at) (λ t. t.search_cache)
        on_cache (λ f t. refl) at

  expired_facts-Queue : (at : Stamp) → Keeps (Queue Q) (expired_facts at)
  unfolding expired_facts
  expired_facts-Queue at =
      delete_expired-Queue (λ (r : FactRow). r.id) (λ r. r.expires_at) (λ t. t.memory_facts)
        on_facts (λ f t. refl) at

  expired_scrapes-Queue : (at : Stamp) → Keeps (Queue Q) (expired_scrapes at)
  unfolding expired_scrapes
  expired_scrapes-Queue at =
      delete_expired-Queue (λ (r : ScrapeRow). r.id) (λ r. r.expires_at) (λ t. t.scrape_cache)
        on_scrapes (λ f t. refl) at

  delete_vectors-Queue :
      (t : Text) (k : OwnerKind) (ids : List String) → Keeps (Queue Q) (delete_vectors t k ids)
  unfolding delete_vectors
  delete_vectors-Queue t k [] = search keeps_rules
  delete_vectors-Queue t k (id ∷ ids) =
      Keeps-bind (Queue Q) _ _
        (Keeps-ignore (Queue Q) 0 (delete_vector t k id) (delete_vector-Queue Q t k id))
        λ _. delete_vectors-Queue t k ids

  cascade-Queue : (t : Text) (s m : List String) → Keeps (Queue Q) (cascade t s m)
  unfolding cascade
  cascade-Queue [] s m = search keeps_rules
  cascade-Queue (c ∷ t) s m = search (keeps_rules, delete_vectors-Queue)

  cleanup_expired-Queue : Keeps (Queue Q) cleanup_expired
  unfolding cleanup_expired
  cleanup_expired-Queue =
      search
        (
          keeps_rules, active_vector_table-Queue, expired_searches-Queue, expired_facts-Queue,
          expired_scrapes-Queue, cascade-Queue,
        )
        depth 9

  trim_scrapes-Queue : (at : Stamp) (keep : ℕ) → Keeps (Queue Q) (trim_scrapes at keep)
  unfolding trim_scrapes
  trim_scrapes-Queue at keep =
      Keeps-exec (Queue Q)
        (λ t. (
          on_scrapes (update (trims_scrape at (newest_scrapes keep t.scrape_cache)) trim_scrape) t,
          count (trims_scrape at (newest_scrapes keep t.scrape_cache)) t.scrape_cache,
        ))
        λ t h. h

  delete_raws-Queue : (at : Stamp) (keep : ℕ) → Keeps (Queue Q) (delete_raws at keep)
  unfolding delete_raws
  delete_raws-Queue at keep =
      Keeps-exec (Queue Q)
        (λ t. (
          on_raws (delete (trims_raw at (newest_raws keep t.search_raw))) t,
          count (trims_raw at (newest_raws keep t.search_raw)) t.search_raw,
        ))
        λ t h. h

  trim_raw_content-Queue : (age : Duration) (keep : ℤ) → Keeps (Queue Q) (trim_raw_content age keep)
  unfolding trim_raw_content
  trim_raw_content-Queue age keep = search (keeps_rules, trim_scrapes-Queue, delete_raws-Queue)

  trim_if-Queue : (b : Bool) (ret : RetentionConfig) → Keeps (Queue Q) (trim_if b ret)
  trim_if-Queue false ret = search keeps_rules
  trim_if-Queue true ret = search (keeps_rules, trim_raw_content-Queue)

  pub cleanup_handler-Queue :
      (ret : RetentionConfig) (p : Payload) → Keeps (Queue Q) (cleanup_handler ret p)
  unfolding cleanup_handler
  cleanup_handler-Queue ret p = search (keeps_rules, cleanup_expired-Queue, trim_if-Queue)

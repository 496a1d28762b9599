-- ===== src/SearchCache/Stored.antt =====
-- StoreSearchCache: the row that a query has afterwards.
use go_web_search.Prelude.{
  ℕ, zero, suc, ◌<◌, ◌≡◌, refl, Bool, true, List, [], ◌∷◌, ◌++◌, Option, some, String, arith, ap,
  ◌∙◌,
}
use go_web_search.Clock.{Time, format}
use go_web_search.Strings.{Text, text_eq_refl}
use go_web_search.Rows.{Tier, SearchCacheRow, CachedUrl, Tables, search, embed_job, Payload}
use go_web_search.Sql.{first, update, count}
use go_web_search.Sql.First.{first_of_count, first-update, first-append, update_nothing}
use go_web_search.Store.{ok, World, ◌>>◌, pure, exec, query, now, new_id}
use go_web_search.Store.Laws.{bind_ok, exec_calm, query_calm, now_tables}
use go_web_search.Tier.{TierConfig, next_expiry, exp_arg}
use go_web_search.Jobs.Enqueue.{enqueued, enqueue_job_calm}
use go_web_search.SearchCache.{
  normalize_query, enqueue_embed, on_cache, update_cache, insert_cache, has_norm, renew,
  fresh_entry, id_or_error, store_new, store_search_cache,
}

-- The row is the stored one: its results, its window from the clock `t` on, and no hits.
pub record IsStored (q : Text) (results : List CachedUrl) (window : Tier × Option Time) (t : Time)
    (r : SearchCacheRow) : Type 0 where
  pub query_kept : r.query ≡ q
  pub results_kept : r.results ≡ some results
  pub tier_kept : r.tier ≡ window.0
  pub no_hits : r.hit_count ≡ 0
  pub expiry : r.expires_at ≡ exp_arg (window.1)
  pub fetched : r.fetched_at ≡ format t

module _ (q : Text) (results : List CachedUrl) (window : Tier × Option Time) (t : Time) where
  renew-IsStored :
      (r : SearchCacheRow) → IsStored q results window t (renew q results window (format t) r)
  unfolding renew
  renew-IsStored r = record {
    query_kept = refl;
    results_kept = refl;
    tier_kept = refl;
    no_hits = refl;
    expiry = refl;
    fetched = refl;
  }

  fresh_entry-IsStored :
      (id : String) (norm : Text)
      → IsStored q results window t (fresh_entry id norm q results window (format t))
  unfolding fresh_entry
  fresh_entry-IsStored id norm = record {
    query_kept = refl;
    results_kept = refl;
    tier_kept = refl;
    no_hits = refl;
    expiry = refl;
    fetched = refl;
  }

abbrev pub norm : Text → SearchCacheRow → Bool
norm q = has_norm (normalize_query q)

-- What a world holds for a query once it was stored.
pub record Holds (q : Text) (results : List CachedUrl) (window : Tier × Option Time) (t : Time)
    (w : World) : Type 0 where
  pub calm : w.faults ≡ []
  pub row : SearchCacheRow
  pub found : first (norm q) w.tables.search_cache ≡ some row
  pub stored : IsStored q results window t row

module _ (q : Text) (results : List CachedUrl) (window : Tier × Option Time) (t : Time) (w : World)
    (calm : w.faults ≡ []) where
  abbrev change : SearchCacheRow → SearchCacheRow
  change = renew q results window (format t)

  abbrev updated : World
  updated = record w { tables = on_cache (update (norm q) change) w.tables }

  update_cache_calm :
      update_cache (norm q) change w ≡ (ok (count (norm q) w.tables.search_cache), updated)
  unfolding update_cache
  update_cache_calm =
      exec_calm (λ t. (on_cache (update (norm q) change) t, count (norm q) t.search_cache)) w calm

  change_keeps : (x : SearchCacheRow) → norm q x ≡ true → norm q (change x) ≡ true
  unfolding renew
  change_keeps x e = e

  updated-Holds : 0 < count (norm q) w.tables.search_cache → Holds q results window t updated
  updated-Holds h =
      let (r, e) = first_of_count (norm q) w.tables.search_cache h in
      record {
        calm = calm;
        row = change r;
        found = first-update (norm q) change w.tables.search_cache r change_keeps e;
        stored = renew-IsStored q results window t r;
      }

  abbrev id : String
  id = updated.uuid updated.issued

  abbrev issued : World
  issued = record updated { issued = suc updated.issued }

  abbrev entry : SearchCacheRow
  entry = fresh_entry id (normalize_query q) q results window (format t)

  abbrev inserted : World
  inserted = record issued { tables = on_cache (λ rows. rows ++ entry ∷ []) issued.tables }

  abbrev queued : World
  queued = enqueued embed_job (Payload.embed (record { kind = search; id = id; text = q })) inserted

  store_new_inserts : store_new q results window (format t) zero updated ≡ (ok id, queued)
  unfolding store_new new_id insert_cache enqueue_embed
  store_new_inserts =
      let step : Tables → Tables × ℕ = λ t. (on_cache (λ rows. rows ++ entry ∷ []) t, 1) in
      bind_ok (exec step) (λ _. enqueue_embed search id q >> pure id) issued 1 inserted
        (exec_calm step issued calm)
      ∙ bind_ok (enqueue_embed search id q) (λ _. pure id) inserted _ queued
          (enqueue_job_calm embed_job _ inserted calm)

  store_new_finds :
      (n : ℕ) (r : SearchCacheRow)
      → first (norm q) updated.tables.search_cache ≡ some r
      → store_new q results window (format t) (suc n) updated ≡ (ok r.id, updated)
  unfolding store_new
  store_new_finds n r e =
      bind_ok (query (λ t. first (norm q) t.search_cache)) id_or_error updated (some r) updated
        (query_calm (λ t. first (norm q) t.search_cache) updated calm ∙ ap (λ o. (ok o, updated)) e)

  entry-norm : norm q entry ≡ true
  unfolding fresh_entry
  entry-norm = text_eq_refl (normalize_query q)

  queued-Holds : count (norm q) w.tables.search_cache ≡ 0 → Holds q results window t queued
  queued-Holds h = record {
    calm = (now_tables (record inserted { issued = suc inserted.issued })).1 ∙ calm;
    row = entry;
    found =
        ap (λ t. first (norm q) t.search_cache)
          ((now_tables (record inserted { issued = suc inserted.issued })).0)
        ∙ ap (λ rows. first (norm q) (rows ++ entry ∷ []))
            (update_nothing (norm q) change w.tables.search_cache h)
        ∙ first-append (norm q) w.tables.search_cache entry h entry-norm;
    stored = fresh_entry-IsStored q results window t id (normalize_query q);
  }

  -- Both ways to store a query end with its row in place.
  pub store_new-Holds :
      (n : ℕ)
      → count (norm q) w.tables.search_cache ≡ n
      → (new_id : String) × (w' : World) × (store_new q results window (format t) n updated
          ≡ (ok new_id, w'))
        × Holds q results window t w'
  store_new-Holds zero h = (id, queued, store_new_inserts, queued-Holds h)
  store_new-Holds (suc n) h =
      let held : Holds q results window t updated = updated-Holds (omega (arith, h)) in
      (held.row.id, updated, store_new_finds n (held.row) (held.found), held)

module _ (cfg : TierConfig) (q : Text) (results : List CachedUrl) (tier : Tier) (w : World)
    (calm : w.faults ≡ []) where
  abbrev pub store_time : Time
  store_time = (now w).1.clock

  abbrev pub window : Tier × Option Time
  window = next_expiry store_time tier 0 cfg

  pub store_search_cache-Holds :
      (id : String) × (w' : World) × (store_search_cache cfg q results tier w ≡ (ok id, w'))
      × Holds q results window store_time w'
  unfolding store_search_cache
  store_search_cache-Holds =
      let w1 : World = (now w).1 in
      let calm1 : w1.faults ≡ [] = (now_tables w).1 ∙ calm in
      let (id, w', run, held) =
        store_new-Holds q results window store_time w1 calm1 (count (norm q) w1.tables.search_cache)
          refl in
      (
        id,
        w',
        bind_ok (update_cache (norm q) (renew q results window (format store_time))) _ w1 _ _
              (update_cache_calm q results window store_time w1 calm1)
            ∙ run,
        held,
      )

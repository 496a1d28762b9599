-- ===== src/SearchCache/RoundTrip.antt =====
-- searchcache.go: `LookupSearchCacheExact` after `StoreSearchCache`.
use go_web_search.Prelude.{
  ℕ, suc, ◌≡◌, refl, Bool, true, List, [], Option, some, ap, ◌∙◌, sym, subst,
}
use go_web_search.Clock.{Time, Duration, stamp, format}
use go_web_search.Strings.{Text}
use go_web_search.Rows.{Tier, SearchCacheRow, CachedUrl, Tables}
use go_web_search.Sql.{first, update, count}
use go_web_search.Store.{ok, World, pure, exec, query, now}
use go_web_search.Store.Laws.{bind_ok, exec_calm, query_calm, now_tables}
use go_web_search.Tier.{TierConfig, next_expiry, exp_arg}
use go_web_search.Freshness.{fresh_at, fresh_enough, time_text}
use go_web_search.SearchCache.{
  SearchCacheEntry, normalize_query, on_cache, has_norm, entry_id, store_search_cache, with_results,
  read_entry, scan_search_cache, touch_search_cache, serve, lookup_exact,
}
use go_web_search.SearchCache.Stored.{Holds, store_search_cache-Holds}

-- The scanned row, with the results that its JSON decodes to.
abbrev pub entry_of : SearchCacheRow → List CachedUrl → SearchCacheEntry
entry_of r urls = record {
  id = r.id;
  query = r.query;
  results = urls;
  tier = r.tier;
  hit_count = r.hit_count;
  fetched_at = stamp r.fetched_at;
  expires_at = time_text r.expires_at;
}

module _ (w : World) (calm : w.faults ≡ []) where
  scan_search_cache_calm :
      (p : SearchCacheRow → Bool) (r : SearchCacheRow) (urls : List CachedUrl)
      → first p w.tables.search_cache ≡ some r
      → r.results ≡ some urls
      → scan_search_cache p w ≡ (ok (some (entry_of r urls)), w)
  unfolding scan_search_cache
  scan_search_cache_calm p r urls e e' =
      bind_ok (query (λ t. first p t.search_cache)) read_entry w (some r) w
        (query_calm (λ t. first p t.search_cache) w calm ∙ ap (λ o. (ok o, w)) e)
      ∙ ap (λ o. with_results r o w) e'

  -- The hit is recorded, and the entry that is returned has it.
  touch_search_cache_calm :
      (cfg : TierConfig) (e : SearchCacheEntry)
      → (e' : SearchCacheEntry) × (w' : World) × (touch_search_cache cfg e w ≡ (ok e', w'))
        × (e'.results ≡ e.results)
        × (e'.query ≡ e.query)
        × (e'.hit_count ≡ suc e.hit_count)
  unfolding touch_search_cache
  touch_search_cache_calm cfg e =
      let t : Time = (now w).1.clock in
      let next : Tier × Option Time = next_expiry t e.tier (suc e.hit_count) cfg in
      let change : SearchCacheRow → SearchCacheRow = λ r. record r {
        hit_count = suc e.hit_count;
        tier = next.0;
        expires_at = exp_arg next.1;
        updated_at = format t;
      } in
      let step : Tables → Tables × ℕ =
        λ t. (on_cache (update (entry_id e.id) change) t, count (entry_id e.id) t.search_cache) in
      (
        record e { hit_count = suc e.hit_count; tier = next.0 },
        _,
        bind_ok (exec step) (λ _. pure (record e { hit_count = suc e.hit_count; tier = next.0 }))
            (now w).1 _ _ (exec_calm step (now w).1 ((now_tables w).1 ∙ calm)),
        refl,
        refl,
        refl,
      )

module _ (cfg : TierConfig) (age : Duration) (w : World) (calm : w.faults ≡ []) where
  fresh_enough-now :
      (e : SearchCacheEntry)
      → fresh_enough e.expires_at e.fetched_at age w
        ≡ (ok (fresh_at (now w).1.clock e.expires_at e.fetched_at age), (now w).1)
  unfolding fresh_enough
  fresh_enough-now e = refl

  serve_fresh :
      (e : SearchCacheEntry)
      → fresh_at (now w).1.clock e.expires_at e.fetched_at age ≡ true
      → (e' : SearchCacheEntry) × (w' : World) × (serve cfg age (some e) w ≡ (ok (some e'), w'))
        × (e'.results ≡ e.results)
        × (e'.query ≡ e.query)
        × (e'.hit_count ≡ suc e.hit_count)
  serve_fresh e fresh =
      let w1 : World = (now w).1 in
      let (e', w', run, urls, text, hits) =
        touch_search_cache_calm w1 ((now_tables w).1 ∙ calm) cfg e in
      (
        e',
        w',
        bind_ok (fresh_enough e.expires_at e.fetched_at age) _ w true w1
              (fresh_enough-now e ∙ ap (λ b. (ok b, w1)) fresh)
            ∙ bind_ok (touch_search_cache cfg e) (λ e'. pure (some e')) w1 e' w' run,
        urls,
        text,
        hits,
      )

  lookup_exact_serves :
      (q : Text) (r : SearchCacheRow) (urls : List CachedUrl)
      → first (has_norm (normalize_query q)) w.tables.search_cache ≡ some r
      → r.results ≡ some urls
      → fresh_at (now w).1.clock (time_text r.expires_at) (stamp r.fetched_at) age ≡ true
      → (e' : SearchCacheEntry) × (w' : World) × (lookup_exact cfg q age w ≡ (ok (some e'), w'))
        × (e'.results ≡ urls)
        × (e'.query ≡ r.query)
        × (e'.hit_count ≡ suc r.hit_count)
  unfolding lookup_exact
  lookup_exact_serves q r urls found decoded fresh =
      let (e', w', run, same, text, hits) = serve_fresh (entry_of r urls) fresh in
      (
        e',
        w',
        bind_ok (scan_search_cache (has_norm (normalize_query q))) (serve cfg age) w _ w
              (scan_search_cache_calm w calm (has_norm (normalize_query q)) r urls found decoded)
            ∙ run,
        same,
        text,
        hits,
      )

module _ (cfg : TierConfig) (q q' : Text) (results : List CachedUrl) (tier : Tier × Option Time)
    (t : Time) (age : Duration) (alike : normalize_query q' ≡ normalize_query q) where
  pub read_back :
      (w : World) (held : Holds q results tier t w)
      → fresh_at (now w).1.clock (time_text (exp_arg (tier.1))) (stamp (format t)) age ≡ true
      → (e : SearchCacheEntry) × ((lookup_exact cfg q' age w).0 ≡ ok (some e))
        × (e.results ≡ results)
        × (e.query ≡ q)
        × (e.hit_count ≡ 1)
  read_back w held fresh =
      let r : SearchCacheRow = held.row in
      let (e, w', run, urls, text, hits) =
        lookup_exact_serves cfg age w (held.calm) q' r results
          (ap (λ n. first (has_norm n) w.tables.search_cache) alike ∙ held.found)
          (held.stored.results_kept)
          (ap (λ x. fresh_at (now w).1.clock (time_text x) (stamp r.fetched_at) age)
              (held.stored.expiry)
            ∙ ap (λ x. fresh_at (now w).1.clock (time_text (exp_arg (tier.1))) (stamp x) age)
                (held.stored.fetched)
            ∙ fresh) in
      (
        e,
        ap (λ o. o.0) run,
        urls,
        text ∙ held.stored.query_kept,
        hits ∙ ap suc (held.stored.no_hits),
      )

-- Without a fault of the driver, a query that was stored is found again by every text that
-- normalizes alike, whether its row was new or replaced: as long as the expiry that the tier gave it
-- and the maximum age that the reader asks for allow it, the lookup returns the stored results under
-- the stored query, with one hit.
pub lookup_exact-store_search_cache :
    (cfg : TierConfig) (q q' : Text) (results : List CachedUrl) (tier : Tier) (age : Duration)
    (w : World)
    → w.faults ≡ []
    → normalize_query q' ≡ normalize_query q
    → let stored = (store_search_cache cfg q results tier w).1 in
      fresh_at
          (now stored).1.clock
          (time_text (exp_arg (next_expiry (now w).1.clock tier 0 cfg).1))
          (stamp (format (now w).1.clock))
          age
        ≡ true
      → (e : SearchCacheEntry) × ((lookup_exact cfg q' age
            (store_search_cache cfg q results tier w).1).0
          ≡ ok (some e))
        × (e.results ≡ results)
        × (e.query ≡ q)
        × (e.hit_count ≡ 1)
lookup_exact-store_search_cache cfg q q' results tier age w calm alike fresh =
    let (id, w', run, held) = store_search_cache-Holds cfg q results tier w calm in
    let there : (store_search_cache cfg q results tier w).1 ≡ w' = ap (λ o. o.1) run in
    subst
      (λ v.
        (e : SearchCacheEntry) × ((lookup_exact cfg q' age v).0 ≡ ok (some e))
        × (e.results ≡ results)
        × (e.query ≡ q)
        × (e.hit_count ≡ 1))
      (sym there)
      (read_back cfg q q' results (next_expiry (now w).1.clock tier 0 cfg) (now w).1.clock age alike
        w' held
        (subst
          (λ v.
            fresh_at (now v).1.clock
              (time_text (exp_arg (next_expiry (now w).1.clock tier 0 cfg).1))
              (stamp (format (now w).1.clock)) age
            ≡ true)
          there fresh))

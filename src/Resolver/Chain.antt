-- ===== src/Resolver/Chain.antt =====
-- resolver.go, `Search`: the order of the chain.
use go_web_search.Prelude.{
  ◌≡◌, Bool, Option, true, false, List, [], none, some, String, ap, ◌∙◌, subst,
}
use go_web_search.Strings.{Text, runes}
use go_web_search.Clock.{Time, stamp, format}
use go_web_search.Rows.{CachedUrl, Tier, Tables}
use go_web_search.Store.{ok, World, M, ◌>>◌, pure, or_default, now, now_rfc3339}
use go_web_search.Store.Laws.{bind_ok, exec_calm, now_tables}
use go_web_search.Tier.{TierConfig, normalize_tier, next_expiry, exp_arg}
use go_web_search.Freshness.{fresh_at, time_text}
use go_web_search.Llm.{LlmClient}
use go_web_search.Memory.{MemoryConfig}
use go_web_search.Gate.{memory_answer}
use go_web_search.SearchCache.{SearchCacheEntry, lookup_exact, store_search_cache, normalize_query}
use go_web_search.SearchCache.RoundTrip.{read_back}
use go_web_search.SearchCache.Stored.{Holds, norm, store_search_cache-Holds}
use go_web_search.Runs.{start_run, finish_run}
use go_web_search.Sql.{first}
use go_web_search.Resolver.{
  ResolveOpts, from_cache, live, try_if, resolver_search, live_step, live_in, engines_found,
  cache_if,
}

-- Finishing a run leaves what is stored for a query.
finish_run-Holds :
    (q : Text) (urls : List CachedUrl) (window : Tier × Option Time) (t : Time) (run_id : String)
    (w : World)
    → Holds q urls window t w
    → Holds q urls window t (finish_run run_id w).1
unfolding finish_run now_rfc3339
finish_run-Holds q urls window t run_id w h =
    let done = exec_calm _ (now w).1 ((now_tables w).1 ∙ h.calm) in
    record {
      calm = ap (λ r. r.1.faults) done ∙ (now_tables w).1 ∙ h.calm;
      row = h.row;
      found =
          ap (λ r. first (norm q) r.1.tables.search_cache) done
          ∙ ap (λ (t : Tables). first (norm q) t.search_cache) (now_tables w).0
          ∙ h.found;
      stored = h.stored;
    }

module _ (llm : LlmClient) (cfg : TierConfig) (mem : MemoryConfig)
    (search : String → List Text → M Bool) where
  exact_found :
      (q : Text) (o : ResolveOpts) (w : World) (e : SearchCacheEntry) (w' : World)
      → o.use_memory ≡ false
      → o.use_cache ≡ true
      → lookup_exact cfg q o.max_age w ≡ (ok (some e), w')
      → resolver_search llm cfg mem search q o w ≡ (ok (from_cache e.results), w')
  unfolding resolver_search
  exact_found q o w e w' off on found =
      bind_ok (try_if o.use_memory (memory_answer llm cfg mem q)) _ w none w
        (ap (λ b. try_if b (memory_answer llm cfg mem q) w) off)
      ∙ bind_ok (try_if o.use_cache (lookup_exact cfg q o.max_age)) _ w (some e) w'
          (ap (λ b. try_if b (lookup_exact cfg q o.max_age) w) on ∙ ap (or_default none) found)

  live_in_world :
      (q : Text) (o : ResolveOpts) (run_id : String) (urls : List CachedUrl) (w w1 : World)
      → o.use_cache ≡ true
      → engines_found llm cfg mem search q run_id w ≡ (ok urls, w1)
      → (live_in llm cfg mem search q o run_id w).1
        ≡ (store_search_cache cfg q urls (normalize_tier o.remember mem.remember_default) w1).1
  unfolding live_in
  live_in_world q o run_id urls w w1 on found =
      ap (λ o. o.1)
        (bind_ok (engines_found llm cfg mem search q run_id) _ w urls w1 found
          ∙ ap
              (λ b. (cache_if llm cfg mem search b q urls o.remember >> pure (live run_id urls)) w1)
              on)

  live_step_world :
      (q : Text) (o : ResolveOpts) (run_id : String) (w w0 : World)
      → start_run (runes "resolve-search") [] w ≡ (ok run_id, w0)
      → (live_step llm cfg mem search q o w).1
        ≡ (finish_run run_id (live_in llm cfg mem search q o run_id w0).1).1
  unfolding live_step
  live_step_world q o run_id w w0 begun =
      ap (λ o. o.1) (bind_ok (start_run (runes "resolve-search") []) _ w run_id w0 begun)

  -- Without a fault of the driver after the engines have run: the URLs of a live search are cached,
  -- and while they are fresh enough for the next reader, every text that normalizes alike gets the
  -- same URLs from the cache, by a search that does not ask memory.
  pub live_step_cached :
      (q q' : Text) (o o' : ResolveOpts) (w w0 w1 : World) (run_id : String) (urls : List CachedUrl)
      → start_run (runes "resolve-search") [] w ≡ (ok run_id, w0)
      → engines_found llm cfg mem search q run_id w0 ≡ (ok urls, w1)
      → w1.faults ≡ []
      → o.use_cache ≡ true
      → o'.use_memory ≡ false
      → o'.use_cache ≡ true
      → normalize_query q' ≡ normalize_query q
      → let tier = normalize_tier o.remember mem.remember_default in
        fresh_at
            (now (live_step llm cfg mem search q o w).1).1.clock
            (time_text (exp_arg (next_expiry (now w1).1.clock tier 0 cfg).1))
            (stamp (format (now w1).1.clock))
            o'.max_age
          ≡ true
        → (resolver_search llm cfg mem search q' o' (live_step llm cfg mem search q o w).1).0
          ≡ ok (from_cache urls)
  live_step_cached q q' o o' w w0 w1 run_id urls begun found calm on off' on' alike fresh =
      let tier : Tier = normalize_tier o.remember mem.remember_default in
      let (id, w2, run, held) = store_search_cache-Holds cfg q urls tier w1 calm in
      let w3 : World = (finish_run run_id w2).1 in
      let there : (live_step llm cfg mem search q o w).1 ≡ w3 =
        live_step_world q o run_id w w0 begun
        ∙ ap (λ v. (finish_run run_id v).1)
            (live_in_world q o run_id urls w0 w1 on found ∙ ap (λ r. r.1) run) in
      let (e, read, same, text, hits) =
        read_back cfg q q' urls (next_expiry (now w1).1.clock tier 0 cfg) (now w1).1.clock
          o'.max_age alike w3 (finish_run-Holds q urls _ _ run_id w2 held)
          (subst
            (λ v.
              fresh_at (now v).1.clock
                (time_text (exp_arg (next_expiry (now w1).1.clock tier 0 cfg).1))
                (stamp (format (now w1).1.clock)) o'.max_age
              ≡ true)
            there fresh) in
      ap (λ v. (resolver_search llm cfg mem search q' o' v).0) there
      ∙ ap (λ r. r.0)
          (exact_found q' o' w3 e (lookup_exact cfg q' o'.max_age w3).1 off' on'
            (ap (λ r. (r, (lookup_exact cfg q' o'.max_age w3).1)) read))
      ∙ ap (λ us. ok (from_cache us)) same

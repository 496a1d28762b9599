-- ===== src/Resolver.antt =====
-- resolver.go: a query is answered from memory, else from the search cache, else by the engines.
pub mod Chain
use go_web_search.Prelude.{
  ℕ, Bool, true, false, List, [], ◌∷◌, map, Option, none, some, String, ◌&&◌,
}
use go_web_search.Clock.{Duration}
use go_web_search.Strings.{Text, runes}
use go_web_search.Rows.{CachedUrl, Tier, Vec}
use go_web_search.Store.{
  Result, ok, err, World, M, ◌>>=◌, ◌>>◌, pure, lift, ignore, attempt, ensuring,
}
use go_web_search.Tier.{TierConfig, normalize_tier}
use go_web_search.Runs.{start_run, finish_run}
use go_web_search.Runs.Listing.{RankedUrl, run_urls}
use go_web_search.Llm.{LlmClient}
use go_web_search.Memory.{MemoryConfig, MemoryFact}
use go_web_search.Gate.{memory_answer}
use go_web_search.SearchCache.{SearchCacheEntry, lookup_exact, lookup_semantic, store_search_cache}

pub record ResolveOpts : Type 0 where
  pub use_memory : Bool
  pub use_cache : Bool
  pub max_age : Duration
  pub remember : Tier

-- SearchOutcome, by its `Source`.
pub data SearchOutcome : Type 0 where
  from_memory : Text → List MemoryFact → SearchOutcome
  from_cache : List CachedUrl → SearchOutcome
  live : String → List CachedUrl → SearchOutcome

abbrev pub found_or_none : {A : Type 0} → Result (Option A) → Option A
found_or_none (ok o) = o
found_or_none (err e) = none

-- The next step of the chain where the one before it failed or found nothing.
abbrev pub or_next :
    {A : Type 0} → (A → SearchOutcome) → Option A → M SearchOutcome → M SearchOutcome
or_next f none next = next
or_next f (some a) next = pure (f a)

-- An enabled step; its error is dropped.
abbrev pub try_if : {A : Type 0} → Bool → M (Option A) → M (Option A)
try_if false m = pure none
try_if true m = ignore none m

abbrev pub cached_of : RankedUrl → CachedUrl
cached_of r = record { url = r.url; domain = r.domain; rank = r.rank }

module _ (llm : LlmClient) (cfg : TierConfig) (mem : MemoryConfig)
    -- The harvester's SearchTerms.
    (search : String → List Text → M Bool) where
  abbrev pub semantic_after : Duration → Result Vec → M (Option SearchCacheEntry)
  semantic_after max_age (err e) = pure none
  semantic_after max_age (ok v) = lookup_semantic cfg mem v max_age

  unfoldable pub semantic_step : Text → Duration → M (Option SearchCacheEntry)
  semantic_step q max_age = do vec ← attempt (lift (llm.embed true q)); semantic_after max_age vec

  abbrev pub cache_if : Bool → Text → List CachedUrl → Tier → M (Unit {0})
  cache_if false q urls remember = pure tt
  cache_if true q urls remember = do
    attempt (store_search_cache cfg q urls (normalize_tier remember mem.remember_default))
    pure tt

  -- The URLs that the engines find in the run.
  unfoldable pub engines_found : Text → String → M (List CachedUrl)
  engines_found q run_id = do
    search run_id (q ∷ [])
    rows ← run_urls run_id
    pure (map cached_of rows)

  unfoldable pub live_in : Text → ResolveOpts → String → M SearchOutcome
  unfolding engines_found
  live_in q o run_id = do
    urls ← engines_found q run_id
    cache_if o.use_cache q urls o.remember
    pure (live run_id urls)

  unfoldable pub live_step : Text → ResolveOpts → M SearchOutcome
  unfolding live_in
  live_step q o = do
    run_id ← start_run (runes "resolve-search") []
    ensuring (finish_run run_id) (live_in q o run_id)

  unfoldable pub resolver_search : Text → ResolveOpts → M SearchOutcome
  unfolding semantic_step live_step
  resolver_search q o = do
    remembered ← try_if o.use_memory (memory_answer llm cfg mem q)
    or_next (λ a. from_memory a.0 a.1) remembered
        (do
          exact ← try_if o.use_cache (lookup_exact cfg q o.max_age)
          or_next (λ (e : SearchCacheEntry). from_cache e.results) exact
              (do
                near ← try_if o.use_cache (semantic_step q o.max_age)
                or_next (λ (e : SearchCacheEntry). from_cache e.results) near (live_step q o)))

-- ===== src/Api/Operations.antt =====
-- server.go: runSearch, runScrape, runMemoryQuery, runMemoryStore and snippetsFor.
use go_web_search.Prelude.{
  ℕ, zero, suc, Bool, true, false, not, ◌&&◌, List, [], ◌∷◌, map, Option, none, some, String,
  str_eq, if◌then◌else◌, ltb, ℤ, pos, negsuc, length,
}
use go_web_search.Strings.{Text, runes, text_len, trim_space}
use go_web_search.Rows.{Tier, ScrapeRow}
use go_web_search.Store.{Error, Result, ok, err, M, ◌>>=◌, ◌>>◌, pure, fail, attempt, ensuring}
use go_web_search.Tier.{TierConfig}
use go_web_search.Llm.{LlmClient}
use go_web_search.Memory.{MemoryConfig, MemoryFact, store_fact}
use go_web_search.Gate.{memory_answer}
use go_web_search.Distill.{byte_prefix}
use go_web_search.Runs.{start_run, finish_run}
use go_web_search.Runs.Listing.{RankedUrl, run_urls}
use go_web_search.ScrapeCache.{ScrapeOutcome, get_scrape}
use go_web_search.Robots.{RobotsCache}
use go_web_search.Scraper.{ScrapeConfig, Net}
use go_web_search.Scraper.Groups.{scrape}
use go_web_search.Harvest.{SearchConfig, Web, search_terms}
use go_web_search.Resolver.{ResolveOpts, resolver_search}
use go_web_search.Api.{
  Found, ScrapeRequest, ScrapeResponse, SearchRequest, SearchResponse, Snippet, add_outcome,
  bool_or, combine_sources, note_for, remember_scrapes, remember_tier, seconds, tier_of, url_texts,
  usable,
}

module _ (cfg : ScrapeConfig) (tier : TierConfig) (mem : MemoryConfig) (llm : LlmClient) (net : Net)
    (search_cfg : SearchConfig) (web : Web) where
  unfoldable pub resolve_terms : List Text → ResolveOpts → Found → M Found
  unfolding add_outcome
  resolve_terms [] o st = pure st
  resolve_terms (term ∷ terms) o st = do
    out ← resolver_search llm tier mem (search_terms search_cfg web) term o
    resolve_terms terms o (add_outcome term out st)

  abbrev pub options : SearchRequest → ResolveOpts
  unfolding seconds
  options req = record {
    use_memory = bool_or req.use_memory true;
    use_cache = bool_or req.use_cache true;
    max_age = seconds req.max_age;
    remember = tier_of req.remember;
  }

  unfoldable pub response : SearchRequest → Found → List ScrapeOutcome → Text → SearchResponse
  unfolding combine_sources
  response req st scrapes note = record {
    run_id = st.run_id;
    terms = length req.terms;
    source = combine_sources st.sources;
    answers = st.answers;
    urls = st.urls;
    scrapes = scrapes;
    complete = true;
    note = note;
  }

  -- Scraping the URLs in a run.
  unfoldable pub scrape_found :
      SearchRequest → Found → RobotsCache → String → M (SearchResponse × RobotsCache)
  unfolding response remember_scrapes
  scrape_found req st c run_id = do
    let o = options req
    scraped ← scrape cfg tier net run_id o.use_cache o.max_age (url_texts st.urls) c
    remember_scrapes mem.remember_default req.remember [] [] scraped.0
    pure (response req st scraped.0 (note_for cfg.max_urls (length st.urls)), scraped.1)

  -- The run of the engines, or one that is started and finished here.
  unfoldable pub in_run : {A : Type 0} → String → (String → M A) → M A
  in_run run_id body =
      if str_eq run_id ""
      then (do id ← start_run (runes "api-scrape") []; ensuring (finish_run id) (body id))
      else body run_id

  abbrev pub is_empty : {A : Type 0} → List A → Bool
  is_empty [] = true
  is_empty (x ∷ xs) = false

  unfoldable pub scrape_if : SearchRequest → Found → RobotsCache → M (SearchResponse × RobotsCache)
  unfolding response scrape_found in_run
  scrape_if req st c =
      if req.scrape && cfg.enabled && not (is_empty st.urls)
      then in_run st.run_id (scrape_found req st c)
      else pure (response req st [] [], c)

  -- runSearch
  unfoldable pub run_search : SearchRequest → RobotsCache → M (SearchResponse × RobotsCache)
  unfolding resolve_terms options scrape_if
  run_search req c = if is_empty req.terms then fail Error.invalid else (do
    st ←
        resolve_terms req.terms (options req)
          (record { sources = []; answers = []; run_id = ""; urls = [] })
    scrape_if req st c)

  -- Scraping, remembering, and the answer.
  unfoldable pub scrape_in :
      ScrapeRequest → List Text → RobotsCache → String → M (ScrapeResponse × RobotsCache)
  unfolding seconds remember_scrapes
  scrape_in req urls c run_id = do
    scraped ← scrape cfg tier net run_id (bool_or req.use_cache true) (seconds req.max_age) urls c
    remember_scrapes mem.remember_default req.remember req.distill_detail req.distill_focus
        scraped.0
    pure (record { run_id = run_id; results = scraped.0 }, scraped.1)

  -- runScrape
  unfoldable pub run_scrape : ScrapeRequest → RobotsCache → M (ScrapeResponse × RobotsCache)
  unfolding in_run scrape_in
  run_scrape req c =
      if is_empty req.urls
      then (if str_eq req.run_id "" then fail Error.invalid else (do
        rows ← run_urls req.run_id
        scrape_in req (map (λ (r : RankedUrl). r.url) rows) c req.run_id))
      else in_run req.run_id (scrape_in req req.urls c)

  -- runMemoryQuery: whether there is an answer, the answer, and the facts used.
  abbrev pub memory_response : Option (Text × List MemoryFact) → Bool × Text × List MemoryFact
  memory_response none = (false, [], [])
  memory_response (some (answer, facts)) = (true, answer, facts)

  unfoldable pub run_memory_query : Text → M (Bool × Text × List MemoryFact)
  unfolding trim_space
  run_memory_query question =
      if is_empty (trim_space question)
      then fail Error.invalid
      else (do found ← memory_answer llm tier mem question; pure (memory_response found))

  abbrev pub store_in : Option Tier → Text → Text → Text → M String
  store_in none text source_url volatility = fail Error.invalid
  store_in (some t) text source_url volatility =
      store_fact tier mem llm text source_url volatility t

  -- runMemoryStore
  unfoldable pub run_memory_store : Text → Text → Text → String → M String
  unfolding trim_space remember_tier
  run_memory_store text source_url volatility remember =
      if is_empty (trim_space text)
      then fail Error.invalid
      else store_in (remember_tier remember mem.remember_default) text source_url volatility

  abbrev pub snippet_limit : ℤ → ℕ
  snippet_limit (pos zero) = 2000
  snippet_limit (pos (suc n)) = suc n
  snippet_limit (negsuc n) = 2000

  abbrev pub add_snippet : ScrapeOutcome → Result ScrapeRow → List Snippet → List Snippet
  unfolding byte_prefix
  add_snippet o (err e) rest = rest
  add_snippet o (ok r) rest =
      record {
        scrape_id = o.scrape_id;
        url = o.url;
        title = r.title;
        text = byte_prefix (snippet_limit cfg.snippet_chars) r.text_content;
        truncated = ltb (snippet_limit cfg.snippet_chars) (text_len r.text_content);
      }
      ∷ rest

  -- snippetsFor (a rune that the cut would split is left out)
  unfoldable pub snippets_for : List ScrapeOutcome → M (List Snippet)
  unfolding add_snippet
  snippets_for [] = pure []
  snippets_for (o ∷ os) =
      let rest = snippets_for os in
      if usable o
      then (do
        row ← attempt (get_scrape o.scrape_id false)
        snippets ← rest
        pure (add_snippet o row snippets))
      else rest

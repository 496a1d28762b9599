-- ===== src/Harvest.antt =====
-- harvest.go: every term across every engine, and the recording of what each engine found.
--
-- The browser is a parameter. The engines of a term run side by side; what they return is collected in
-- the order of the engines, so here one is asked after another.
pub mod Recorded
pub mod Complete
use go_web_search.Prelude.{
  ℕ, suc, ◌+◌, Bool, true, false, not, List, [], ◌∷◌, ◌++◌, map, Option, none, some, String,
  if◌then◌else◌, ℤ, pos, length,
}
use go_web_search.Clock.{Duration}
use go_web_search.Strings.{Text, runes, text_eq, join}
use go_web_search.Store.{Result, ok, err, M, ◌>>=◌, ◌>>◌, pure, lift}
use go_web_search.Tier.{TierConfig}
use go_web_search.Runs.{SearchRecord, save_search}
use go_web_search.Runs.Listing.{RankedUrl, member, run_urls}
use go_web_search.Extract.{Url, destinations}
use go_web_search.Engines.{EngineDef, engines_by_names, parse_engine_set, search_url, looks_blocked}
use go_web_search.ScrapeCache.{ScrapeOutcome}
use go_web_search.Robots.{RobotsCache}
use go_web_search.Scraper.{ScrapeConfig, Net}
use go_web_search.Scraper.Groups.{scrape}

-- The fields of config.go's SearchConfig that are read here; `results` is a map.
pub record SearchConfig : Type 0 where
  pub engines : List Text
  pub typed : List Text
  pub results : List (Text × ℤ)
  pub exclude_hosts : List Text

-- searchResult
pub record SearchResult : Type 0 where
  pub landed_url : Text
  pub html : Text
  pub links : List Text
  pub http_status : ℕ

-- What comes of asking the browser: no tab, a failed search, or a landed page.
pub data Visit : Type 0 where
  no_tab : Text → Visit
  failed : Text → Visit
  landed : SearchResult → Visit

-- What the code does not implement: net/url and encoding/base64, the browser (the visit of an engine
-- for a term, typed or by URL, with the milliseconds that it took), and the signals: whether the n-th
-- term is begun, whether the wait behind it is not cut short, and the error of an engine whose start
-- was.
pub record Web : Type 0 where
  pub parse : Text → Option Url
  pub base64 : Text → Option Text
  pub escape : Text → Text
  pub hostname : Text → Option Text
  pub visit : EngineDef → Text → Bool → ℤ → Visit × ℕ
  pub begins : ℕ → Bool
  pub waits : ℕ → Bool
  pub cut_short : ℕ → EngineDef → Option Text

pub record EngineOutcome : Type 0 where
  pub engine : Text
  pub rec : SearchRecord
  pub error : Option Text

-- The zero value of SearchRecord.
abbrev pub blank_record : SearchRecord
blank_record = record {
  run_id = "";
  term = [];
  engine = [];
  search_mode = [];
  requested_url = [];
  landed_url = [];
  http_status = 0;
  blocked = false;
  anchor_count = 0;
  err_text = [];
  duration_ms = 0;
  raw_html = [];
  urls = [];
}

-- counts[e.name]
unfoldable pub count_for : List (Text × ℤ) → Text → ℤ
count_for [] name = pos 0
count_for ((n, count) ∷ counts) name = if text_eq n name then count else count_for counts name

module _ (cfg : SearchConfig) (web : Web) where
  abbrev pub asked : String → Text → EngineDef → SearchRecord
  asked run_id term e = record blank_record {
    run_id = run_id;
    term = term;
    engine = e.name;
    search_mode = runes "url";
  }

  abbrev pub requested : Bool → ℤ → SearchRecord → Text → EngineDef → SearchRecord
  unfolding search_url
  requested true count rec term e = record rec {
    search_mode = runes "typed";
    requested_url = e.home;
  }
  requested false count rec term e = record rec {
    requested_url = search_url web.escape e term count;
  }

  abbrev pub visited : String → Text → EngineDef → Bool → ℤ → Visit × ℕ → EngineOutcome
  unfolding requested looks_blocked destinations
  visited run_id term e typed count (no_tab error, ms) = record {
    engine = e.name;
    rec = record (asked run_id term e) { err_text = error; duration_ms = ms };
    error = some error;
  }
  visited run_id term e typed count (failed error, ms) = record {
    engine = e.name;
    rec = record (requested typed count (asked run_id term e) term e) {
      err_text = error;
      duration_ms = ms;
    };
    error = some error;
  }
  visited run_id term e typed count (landed res, ms) = record {
    engine = e.name;
    rec = record (requested typed count (asked run_id term e) term e) {
      landed_url = res.landed_url;
      http_status = res.http_status;
      anchor_count = length res.links;
      raw_html = res.html;
      blocked = looks_blocked res.landed_url res.html;
      urls =
          destinations web.parse web.base64 e.skip_labels (e.skip_hosts ++ cfg.exclude_hosts)
            res.links;
      duration_ms = ms;
    };
    error = none;
  }

  -- queryEngine (its warnings are log lines)
  unfoldable pub query_engine : String → Text → EngineDef → Bool → ℤ → EngineOutcome
  unfolding visited
  query_engine run_id term e typed count =
      visited run_id term e typed count (web.visit e term typed count)

  -- An engine whose start is cut short leaves an outcome with a blank record.
  abbrev pub started : String → Text → List Text → EngineDef → Option Text → EngineOutcome
  unfolding query_engine count_for member
  started run_id term typed e (some error) = record {
    engine = e.name;
    rec = blank_record;
    error = some error;
  }
  started run_id term typed e none =
      query_engine run_id term e (member text_eq e.name typed) (count_for cfg.results e.name)

  -- searchOneTerm, for the n-th term.
  unfoldable pub search_one_term :
      ℕ → String → Text → List EngineDef → List Text → List EngineOutcome
  unfolding started
  search_one_term n run_id term engines typed =
      map (λ e. started run_id term typed e (web.cut_short n e)) engines

  unfoldable pub save_outcomes : List EngineOutcome → M (Unit {0})
  save_outcomes [] = pure tt
  save_outcomes (o ∷ os) = do save_search web.hostname o.rec; save_outcomes os

  abbrev pub unless_last : ℕ → List Text → M Bool → M Bool
  unless_last n [] more = pure true
  unless_last n (t ∷ ts) more = if web.waits n then more else pure false

  -- The loop of SearchTerms, from the n-th term on.
  unfoldable pub search_from : ℕ → String → List EngineDef → List Text → List Text → M Bool
  unfolding search_one_term save_outcomes
  search_from n run_id engines typed [] = pure true
  search_from n run_id engines typed (term ∷ terms) =
      let more = search_from (suc n) run_id engines typed terms in
      if web.begins n
      then (do
        save_outcomes (search_one_term n run_id term engines typed)
        unless_last n terms more)
      else pure false

  -- SearchTerms
  unfoldable pub search_terms : String → List Text → M Bool
  unfolding engines_by_names parse_engine_set join search_from
  search_terms run_id terms = do
    engines ← lift (engines_by_names (join (44 ∷ []) cfg.engines))
    search_from 0 run_id engines (parse_engine_set (join (44 ∷ []) cfg.typed)) terms

-- ScrapeRun
unfoldable pub scrape_run :
    ScrapeConfig → TierConfig → Net → RobotsCache → String → M (List ScrapeOutcome × RobotsCache)
scrape_run cfg tier net c run_id = do
  rows ← run_urls run_id
  scrape cfg tier net run_id true (pos 0) (map (λ (r : RankedUrl). r.url) rows) c

-- ScrapeURLs
unfoldable pub scrape_urls :
    ScrapeConfig
    → TierConfig
    → Net
    → RobotsCache
    → String
    → List Text
    → M (List ScrapeOutcome × RobotsCache)
scrape_urls cfg tier net c run_id urls = scrape cfg tier net run_id true (pos 0) urls c

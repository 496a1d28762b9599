-- ===== src/Api.antt =====
-- server.go, the operations behind the REST and the MCP interface: searching, scraping, remembering, and
-- the questions to memory. Routing, decoding and encoding are left out.
pub mod Operations
pub mod Remembered
pub mod Unique
use go_web_search.Prelude.{
  ℕ, zero, suc, ◌-◌, ◌*◌, ◌%◌, Bool, true, false, not, ◌&&◌, ◌||◌, List, [], ◌∷◌, ◌++◌, map, Option,
  none, some, String, str_eq, if◌then◌else◌, ltb, leb, ltb_ℤ, ℤ, pos, negsuc, length,
}
use go_web_search.Clock.{Duration, second}
use go_web_search.Decimal.{itoa, itoa_nat}
use go_web_search.Strings.{Text, runes, text_eq, text_len, to_lower, trim_space}
use go_web_search.Rows.{CachedUrl, Tier, short, long, permanent, other, ScrapeRow}
use go_web_search.Store.{
  Error, Result, ok, err, World, M, ◌>>=◌, ◌>>◌, pure, fail, attempt, ensuring,
}
use go_web_search.Tier.{TierConfig}
use go_web_search.Llm.{LlmClient}
use go_web_search.Memory.{MemoryConfig, MemoryFact, store_fact}
use go_web_search.Gate.{memory_answer}
use go_web_search.Distill.{enqueue_distill, byte_prefix}
use go_web_search.Runs.{start_run, finish_run}
use go_web_search.Runs.Listing.{RankedUrl, member, distinct, run_urls}
use go_web_search.ScrapeCache.{ScrapeOutcome, get_scrape}
use go_web_search.Robots.{RobotsCache}
use go_web_search.Scraper.{ScrapeConfig, Net}
use go_web_search.Scraper.Groups.{scrape}
use go_web_search.Harvest.{SearchConfig, Web, search_terms}
use go_web_search.Resolver.{
  ResolveOpts, SearchOutcome, from_memory, from_cache, live, resolver_search,
}

pub record SearchRequest : Type 0 where
  pub terms : List Text
  pub scrape : Bool
  pub use_cache : Option Bool
  pub use_memory : Option Bool
  pub max_age : ℤ
  pub remember : String

pub record SearchResponse : Type 0 where
  pub run_id : String
  pub terms : ℕ
  pub source : Text
  pub answers : List (Text × Text)
  pub urls : List CachedUrl
  pub scrapes : List ScrapeOutcome
  pub complete : Bool
  pub note : Text

pub record ScrapeRequest : Type 0 where
  pub urls : List Text
  pub run_id : String
  pub use_cache : Option Bool
  pub max_age : ℤ
  pub remember : String
  pub distill_detail : Text
  pub distill_focus : Text

pub record ScrapeResponse : Type 0 where
  pub run_id : String
  pub results : List ScrapeOutcome

pub record Snippet : Type 0 where
  pub scrape_id : String
  pub url : Text
  pub title : Text
  pub text : Text
  pub truncated : Bool

-- boolOr
abbrev pub bool_or : Option Bool → Bool → Bool
bool_or none default = default
bool_or (some b) default = b

-- An integer as an int64, which wraps around.
abbrev pub two_63 : ℕ
two_63 = 9223372036854775808

abbrev pub two_64 : ℕ
two_64 = 18446744073709551616

abbrev pub wrap_pos : ℕ → ℤ
wrap_pos n = let m = n % two_64 in if ltb m two_63 then pos m else negsuc (two_64 - m - 1)

abbrev pub neg : ℕ → ℤ
neg zero = pos zero
neg (suc n) = negsuc n

abbrev pub wrap_neg : ℕ → ℤ
wrap_neg n = let m = n % two_64 in if leb m two_63 then neg m else pos (two_64 - m)

-- time.Duration(n) * time.Second
unfoldable pub seconds : ℤ → Duration
seconds (pos n) = wrap_pos (n * second)
seconds (negsuc n) = wrap_neg (suc n * second)

-- A text as a tier.
abbrev pub tier_of : String → Tier
tier_of s =
    if str_eq s "short"
    then short
    else if str_eq s "long"
    then long
    else if str_eq s "permanent"
    then permanent
    else other s

abbrev pub off_words : List Text
off_words = runes "off" ∷ runes "none" ∷ runes "no" ∷ runes "false" ∷ []

abbrev pub tier_words : List Text
tier_words = runes "short" ∷ runes "long" ∷ runes "permanent" ∷ []

-- rememberTier; none where nothing is to be stored.
unfoldable pub remember_tier : String → Tier → Option Tier
unfolding member to_lower trim_space
remember_tier remember default =
    let flag = to_lower (trim_space (runes remember)) in
    if member text_eq flag off_words
    then none
    else if member text_eq flag tier_words
    then some (tier_of remember)
    else some default

-- combineSources, on the sources of the terms.
abbrev pub source_of : List Text → Text
source_of [] = runes "live"
source_of (k ∷ []) = k
source_of (k ∷ l ∷ ks) = runes "mixed"

unfoldable pub combine_sources : List Text → Text
unfolding distinct
combine_sources sources = source_of (distinct text_eq sources)

abbrev pub url_texts : List CachedUrl → List Text
url_texts = map (λ u. u.url)

-- A URL is added unless it was seen.
unfoldable pub add_urls : List CachedUrl → List CachedUrl → List CachedUrl
unfolding member
add_urls urls [] = urls
add_urls urls (u ∷ us) =
    let without = add_urls urls us in
    let with_u = add_urls (urls ++ u ∷ []) us in
    if member text_eq u.url (url_texts urls) then without else with_u

-- resp.Answers[term] = answer
unfoldable pub put_answer : Text → Text → List (Text × Text) → List (Text × Text)
put_answer term answer [] = (term, answer) ∷ []
put_answer term answer ((t, a) ∷ answers) =
    if text_eq t term then (t, answer) ∷ answers else (t, a) ∷ put_answer term answer answers

-- The loop of runSearch.
pub record Found : Type 0 where
  pub sources : List Text
  pub answers : List (Text × Text)
  pub run_id : String
  pub urls : List CachedUrl

abbrev pub add_outcome : Text → SearchOutcome → Found → Found
unfolding put_answer add_urls
add_outcome term (from_memory answer facts) st = record st {
  sources = st.sources ++ runes "memory" ∷ [];
  answers = put_answer term answer st.answers;
}
add_outcome term (from_cache us) st = record st {
  sources = st.sources ++ runes "cache" ∷ [];
  urls = add_urls st.urls us;
}
add_outcome term (live id us) st = record st {
  sources = st.sources ++ runes "live" ∷ [];
  run_id = if str_eq id "" then st.run_id else id;
  urls = add_urls st.urls us;
}

abbrev pub usable : ScrapeOutcome → Bool
usable o = not (str_eq o.scrape_id "") && ltb 0 o.text_chars

unfoldable pub enqueue_scrapes : Tier → Text → Text → List ScrapeOutcome → M (Unit {0})
enqueue_scrapes tier detail focus [] = pure tt
enqueue_scrapes tier detail focus (o ∷ os) =
    let rest = enqueue_scrapes tier detail focus os in
    if usable o then (do attempt (enqueue_distill o.scrape_id tier detail focus); rest) else rest

abbrev pub enqueue_if : Option Tier → Text → Text → List ScrapeOutcome → M (Unit {0})
unfolding enqueue_scrapes
enqueue_if none detail focus outcomes = pure tt
enqueue_if (some tier) detail focus outcomes = enqueue_scrapes tier detail focus outcomes

-- rememberScrapes
unfoldable pub remember_scrapes : Tier → String → Text → Text → List ScrapeOutcome → M (Unit {0})
unfolding enqueue_if remember_tier
remember_scrapes default remember detail focus outcomes =
    enqueue_if (remember_tier remember default) detail focus outcomes

-- The note of a search whose URLs exceed the cap.
abbrev pub note_for : ℤ → ℕ → Text
note_for max n =
    if ltb_ℤ max (pos n)
    then runes "scraped the first "
      ++ (itoa max
          ++ (runes " of "
              ++ (itoa_nat n
                  ++ runes " URLs (scrape.max_urls); fetch the rest with POST /api/scrape")))
    else []

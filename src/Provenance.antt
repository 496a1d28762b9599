-- ===== src/Provenance.antt =====
-- provenance.go, the chain around one URL: which searches found it, what was scraped from it, which
-- facts were distilled out of that, and which of these have a vector.
pub mod Graph
pub mod Closed
pub mod Sound
use go_web_search.Prelude.{
  ℕ, Bool, true, false, not, ◌&&◌, ◌||◌, List, [], ◌∷◌, ◌++◌, map, Option, none, some, String,
  str_eq, if◌then◌else◌, ltb, ◌==◌, length,
}
use go_web_search.Clock.{Stamp, text_lt}
use go_web_search.Strings.{Text, runes, text_eq}
use go_web_search.Rows.{
  SearchRow, UrlRow, SearchUrlRow, FactRow, ScrapeRow, VectorRow, Tier, Tables, memory,
}
use go_web_search.Sql.{select, order_by, first}
use go_web_search.Store.{Error, Result, ok, err, World, M, ◌>>=◌, pure, fail, query}
use go_web_search.Vectors.{active_vector_table, find_table, when_table, rows_of, owner_kind_eq}
use go_web_search.ScrapeCache.{has_url}
use go_web_search.Runs.{url_is}
use go_web_search.Runs.Listing.{member}

pub record FoundBySearch : Type 0 where
  pub search_id : String
  pub run_id : String
  pub term : Text
  pub engine : Text
  pub search_mode : Text
  pub rank : ℕ
  pub created_at : Stamp

pub record FactProvenance : Type 0 where
  pub id : String
  pub text : Text
  pub source_url : Text
  pub volatility : Text
  pub tier : Tier
  pub has_vector : Bool
  pub created_at : Stamp

-- ScrapeSizes of scrapecache.go.
pub record ScrapeSizes : Type 0 where
  pub scrape_id : String
  pub url : Text
  pub title : Text
  pub http_status : ℕ
  pub fetched_with : String
  pub text_chars : ℕ
  pub clean_chars : ℕ
  pub raw_chars : ℕ
  pub created_at : Stamp

pub record UrlProvenance : Type 0 where
  pub url : Text
  pub url_id : String
  pub known : Bool
  pub found_by : List FoundBySearch
  pub scrape : Option ScrapeSizes
  pub facts : List FactProvenance
  pub vectors_available : Bool
  pub note : Text

module _ {A B : Type 0} where
  -- The rows that a join finds for each row.
  unfoldable pub flat_map : (A → List B) → List A → List B
  flat_map f [] = []
  flat_map f (x ∷ xs) = f x ++ flat_map f xs

unfoldable pub found_by : SearchUrlRow → SearchRow → FoundBySearch
found_by l s = record {
  search_id = s.id;
  run_id = s.run_id;
  term = s.term;
  engine = s.engine;
  search_mode = s.search_mode;
  rank = l.rank;
  created_at = s.created_at;
}

abbrev pub links_to : UrlRow → Tables → List SearchUrlRow
links_to u t = select (λ (l : SearchUrlRow). str_eq l.url_id u.id) t.search_urls

abbrev pub search_of : SearchUrlRow → Tables → List SearchRow
search_of l t = select (λ (s : SearchRow). str_eq s.id l.search_id) t.searches

unfoldable pub found_rows : Text → Tables → List FoundBySearch
unfolding flat_map found_by
found_rows url t =
    flat_map (λ u. flat_map (λ l. map (found_by l) (search_of l t)) (links_to u t))
      (select (url_is url) t.urls)

abbrev pub ranks_before : FoundBySearch → FoundBySearch → Bool
ranks_before a b = ltb a.rank b.rank || (a.rank == b.rank && text_lt a.created_at b.created_at)

-- SearchesFindingURL
unfoldable pub searches_finding_url : Text → World → Result (List FoundBySearch) × World
unfolding found_rows
searches_finding_url url = query λ t. order_by ranks_before (found_rows url t)

unfoldable pub fact_provenance : FactRow → FactProvenance
fact_provenance r = record {
  id = r.id;
  text = r.text;
  source_url = r.source_url;
  volatility = r.volatility;
  tier = r.tier;
  has_vector = false;
  created_at = r.created_at;
}

abbrev pub older_fact : FactRow → FactRow → Bool
older_fact a b = text_lt a.created_at b.created_at

-- FactsBySourceURL
unfoldable pub facts_by_source_url : Text → World → Result (List FactProvenance) × World
unfolding fact_provenance
facts_by_source_url url = query λ t.
    map fact_provenance
      (order_by older_fact (select (λ (r : FactRow). text_eq r.source_url url) t.memory_facts))

-- urlID
abbrev pub id_if_known : Option UrlRow → String × Bool
id_if_known none = ("", false)
id_if_known (some u) = (u.id, true)

unfoldable pub url_id : Text → M (String × Bool)
url_id url = query (λ t. id_if_known (first (url_is url) t.urls))

abbrev pub vector_ids : List VectorRow → List String
vector_ids rows =
    map (λ (r : VectorRow). r.id)
      (select (λ (r : VectorRow). owner_kind_eq r.owner_kind memory) rows)

abbrev pub mark : List String → FactProvenance → FactProvenance
unfolding member
mark present f = record f { has_vector = member str_eq f.id present }

-- A table that is gone counts as vectors unknown; any other error is returned.
abbrev pub unless_gone : {A : Type 0} → A → Result A × World → Result A × World
unless_gone d (ok a, w) = (ok a, w)
unless_gone d (err Error.no_such_table, w) = (ok d, w)
unless_gone d (err e, w) = (err e, w)

-- The vectors of facts in one table.
unfoldable pub mark_in : Text → List FactProvenance → M (Bool × List FactProvenance)
unfolding find_table
mark_in table facts w =
    unless_gone (false, facts)
      (when_table table
        (query λ t. (true, map (mark (vector_ids (rows_of (find_table table t.vectors)))) facts)) w)

-- markVectors: whether the vectors are known, and the facts with their flags.
abbrev pub mark_if : Text × Bool → List FactProvenance → M (Bool × List FactProvenance)
mark_if ([], ready) facts = pure (false, facts)
mark_if (c ∷ s, ready) [] = pure (ready, [])
mark_if (c ∷ s, false) (f ∷ facts) = pure (false, f ∷ facts)
mark_if (c ∷ s, true) (f ∷ facts) = mark_in (c ∷ s) (f ∷ facts)

unfoldable pub mark_vectors : List FactProvenance → M (Bool × List FactProvenance)
unfolding mark_in
mark_vectors facts = do active ← active_vector_table; mark_if active facts

-- ScrapeSizesByURL of scrapecache.go; SQL's length counts characters.
abbrev pub size_of : Option Text → ℕ
size_of none = 0
size_of (some s) = length s

unfoldable pub scrape_sizes : ScrapeRow → ScrapeSizes
scrape_sizes r = record {
  scrape_id = r.id;
  url = r.url;
  title = r.title;
  http_status = r.http_status;
  fetched_with = r.fetched_with;
  text_chars = length r.text_content;
  clean_chars = size_of r.clean_html;
  raw_chars = size_of r.raw_html;
  created_at = r.created_at;
}

abbrev pub sizes_if_found : Option ScrapeRow → Option ScrapeSizes
unfolding scrape_sizes
sizes_if_found none = none
sizes_if_found (some r) = some (scrape_sizes r)

unfoldable pub scrape_sizes_by_url : Text → M (Option ScrapeSizes)
unfolding sizes_if_found
scrape_sizes_by_url url = query (λ t. sizes_if_found (first (has_url url) t.scrape_cache))

abbrev pub note_unless : Bool → Text
note_unless true = []
note_unless false =
    runes
      "vector store unavailable (no active table or re-embed in progress); vector presence not reported"

abbrev pub is_some : {A : Type 0} → Option A → Bool
is_some none = false
is_some (some a) = true

-- URLProvenance
unfoldable pub url_provenance : Text → M UrlProvenance
unfolding url_id searches_finding_url scrape_sizes_by_url facts_by_source_url mark_vectors
url_provenance url = do
  found_id ← url_id url
  found ← searches_finding_url url
  scrape ← scrape_sizes_by_url url
  facts ← facts_by_source_url url
  marked ← mark_vectors facts
  pure (record {
    url = url;
    url_id = found_id.0;
    known = found_id.1 || is_some scrape;
    found_by = found;
    scrape = scrape;
    facts = marked.1;
    vectors_available = marked.0;
    note = note_unless marked.0;
  })

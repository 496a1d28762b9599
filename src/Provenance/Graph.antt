-- ===== src/Provenance/Graph.antt =====
-- provenance.go, `RunCausality`: the graph of a run, from searches over URLs and scrapes to facts.
use go_web_search.Prelude.{
  ℕ, zero, suc, ◌+◌, Bool, false, List, [], ◌∷◌, ◌++◌, map, String, str_eq, if◌then◌else◌, ltb,
  ◌==◌, ◌||◌, ◌&&◌, length, take, ℤ, pos, negsuc,
}
use go_web_search.Clock.{bytes_lt}
use go_web_search.Decimal.{itoa_nat}
use go_web_search.Strings.{Text, runes, text_eq}
use go_web_search.Rows.{UrlRow, SearchUrlRow, ScrapeRow, FactRow, Tables}
use go_web_search.Sql.{select, order_by}
use go_web_search.Store.{M, ◌>>=◌, pure, query}
use go_web_search.Runs.Listing.{SearchSummary, list_searches, run_links, member}
use go_web_search.Provenance.{
  FactProvenance, flat_map, fact_provenance, older_fact, mark_vectors, note_unless,
}

pub data Kind : Type 0 where
  search_node url_node scrape_node fact_node : Kind

-- A node's id is its kind and the id of its row, joined by a colon; `unnamed` is the empty text.
pub data NodeId : Type 0 where
  node : Kind → String → NodeId
  unnamed : NodeId

pub record CausalityNode : Type 0 where
  pub id : NodeId
  pub kind : Kind
  pub ref_id : String
  pub label : Text
  pub detail : Text
  pub url : Text
  pub has_vector : Bool

pub record CausalityEdge : Type 0 where
  pub from : NodeId
  pub to : NodeId
  pub rank : ℕ

pub record CausalityGraph : Type 0 where
  pub run_id : String
  pub nodes : List CausalityNode
  pub edges : List CausalityEdge
  pub truncated : Bool
  pub limit : ℕ
  pub vectors_available : Bool
  pub note : Text

pub record Link : Type 0 where
  pub search_id : String
  pub url_id : String
  pub url : Text
  pub rank : ℕ

-- `maxURLs <= 0` gives 200.
abbrev pub url_limit : ℤ → ℕ
url_limit (pos zero) = 200
url_limit (pos (suc n)) = suc n
url_limit (negsuc n) = 200

-- "Engine · Term"
abbrev pub search_label : SearchSummary → Text
search_label s = s.engine ++ 32 ∷ 0xB7 ∷ 32 ∷ s.term

unfoldable pub search_node_of : SearchSummary → CausalityNode
search_node_of s = record {
  id = node search_node s.id;
  kind = search_node;
  ref_id = s.id;
  label = search_label s;
  detail = s.search_mode;
  url = [];
  has_vector = false;
}

abbrev pub urls_of : SearchUrlRow → Tables → List UrlRow
urls_of l t = select (λ (u : UrlRow). str_eq u.id l.url_id) t.urls

abbrev pub link_of : SearchUrlRow → UrlRow → Link
link_of l u = record { search_id = l.search_id; url_id = u.id; url = u.url; rank = l.rank }

abbrev pub link_before : Link → Link → Bool
link_before a b = ltb a.rank b.rank || (a.rank == b.rank && bytes_lt a.url b.url)

-- One row for each search and URL, and one more than the limit.
unfoldable pub link_rows : String → ℕ → Tables → List Link
unfolding run_links flat_map
link_rows run_id n t =
    take n
      (order_by link_before (flat_map (λ l. map (link_of l) (urls_of l t)) (run_links run_id t)))

-- The links to URLs that no link before them has.
unfoldable pub new_links : List String → List Link → List Link
unfolding member
new_links seen [] = []
new_links seen (l ∷ ls) =
    let rest = new_links (l.url_id ∷ seen) ls in
    let again = new_links seen ls in if member str_eq l.url_id seen then again else l ∷ rest

abbrev pub url_node_of : Link → CausalityNode
url_node_of l = record {
  id = node url_node l.url_id;
  kind = url_node;
  ref_id = l.url_id;
  label = l.url;
  detail = [];
  url = l.url;
  has_vector = false;
}

abbrev pub link_edge : Link → CausalityEdge
link_edge l = record {
  from = node search_node l.search_id;
  to = node url_node l.url_id;
  rank = l.rank;
}

-- The map from URLs to their nodes; of equal URLs the last one counts.
unfoldable pub node_at : Text → NodeId → List Link → NodeId
node_at url found [] = found
node_at url found (l ∷ ls) =
    node_at url (if text_eq l.url url then node url_node l.url_id else found) ls

abbrev pub node_for : List Link → Text → NodeId
unfolding node_at
node_for links url = node_at url unnamed links

abbrev pub title_or_url : ScrapeRow → Text → Text
title_or_url r [] = r.url
title_or_url r (c ∷ s) = c ∷ s

unfoldable pub scrape_node_of : ScrapeRow → CausalityNode
unfolding itoa_nat
scrape_node_of r = record {
  id = node scrape_node r.id;
  kind = scrape_node;
  ref_id = r.id;
  label = title_or_url r r.title;
  detail = runes "HTTP " ++ itoa_nat r.http_status;
  url = r.url;
  has_vector = false;
}

-- attachScrapes: the rows whose URL is in the list.
unfoldable pub scrape_rows : List Text → Tables → List ScrapeRow
unfolding member
scrape_rows urls t = select (λ (r : ScrapeRow). member text_eq r.url urls) t.scrape_cache

abbrev pub scrape_edge : List Link → ScrapeRow → CausalityEdge
scrape_edge links r = record { from = node_for links r.url; to = node scrape_node r.id; rank = 0 }

-- attachFacts
unfoldable pub fact_rows : List Text → Tables → List FactProvenance
unfolding member fact_provenance
fact_rows urls t = map fact_provenance (
    order_by older_fact (select (λ (r : FactRow). member text_eq r.source_url urls) t.memory_facts))

abbrev pub fact_edge : List Link → FactProvenance → CausalityEdge
fact_edge links f = record {
  from = node_for links f.source_url;
  to = node fact_node f.id;
  rank = 0;
}

-- The flag of the last fact with the id, once the vectors are known.
unfoldable pub flag_of : String → Bool → List FactProvenance → Bool
flag_of id flag [] = flag
flag_of id flag (f ∷ fs) = flag_of id (if str_eq f.id id then f.has_vector else flag) fs

unfoldable pub fact_node_of : Bool × List FactProvenance → FactProvenance → CausalityNode
unfolding flag_of
fact_node_of (known, marked) f = record {
  id = node fact_node f.id;
  kind = fact_node;
  ref_id = f.id;
  label = f.text;
  detail = f.volatility;
  url = f.source_url;
  has_vector = known && flag_of f.id false marked;
}

-- The graph without scrapes and facts, where no URL was found.
abbrev pub small_graph : String → ℕ → List CausalityNode → Bool → CausalityGraph
small_graph run_id n nodes available = record {
  run_id = run_id;
  nodes = nodes;
  edges = [];
  truncated = false;
  limit = n;
  vectors_available = available;
  note = note_unless available;
}

-- The graph of the links, behind the cap.
unfoldable pub link_graph : String → ℕ → Bool → List SearchSummary → List Link → M CausalityGraph
unfolding search_node_of new_links scrape_rows scrape_node_of fact_rows fact_node_of mark_vectors
link_graph run_id n truncated searches [] = do
  marked ← mark_vectors []
  pure (small_graph run_id n (map search_node_of searches) marked.0)
link_graph run_id n truncated searches (l ∷ ls) = do
  let links = l ∷ ls
  let urls = map (λ (x : Link). x.url) (new_links [] links)
  scrapes ← query (scrape_rows urls)
  facts ← query (fact_rows urls)
  marked ← mark_vectors facts
  pure (record {
    run_id = run_id;
    nodes =
        map search_node_of searches
        ++ (map url_node_of (new_links [] links)
            ++ (map scrape_node_of scrapes ++ map (fact_node_of marked) facts));
    edges = map link_edge links ++ (map (scrape_edge links) scrapes ++ map (fact_edge links) facts);
    truncated = truncated;
    limit = n;
    vectors_available = marked.0;
    note = note_unless marked.0;
  })

-- RunCausality
unfoldable pub run_causality : String → ℤ → M CausalityGraph
unfolding link_rows link_graph list_searches
run_causality run_id max_urls = do
  let n = url_limit max_urls
  searches ← list_searches run_id
  links ← query (link_rows run_id (n + 1))
  link_graph run_id n (ltb n (length links)) searches (take n links)

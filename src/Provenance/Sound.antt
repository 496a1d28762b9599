-- ===== src/Provenance/Sound.antt =====
-- provenance.go, `RunCausality`, on the store.
use go_web_search.Prelude.{
  ℕ, ◌+◌, ◌≡◌, refl, Bool, true, List, [], ◌∷◌, map, String, eq_iff, In, All, All-append, ap, ◌∙◌,
  sym, subst, take, ltb, length, ℤ,
}
use go_web_search.Clock.{text_lt}
use go_web_search.Strings.{Text, text_eq, text_eq_iff}
use go_web_search.Rows.{SearchRow, SearchUrlRow, ScrapeRow, FactRow, Tables}
use go_web_search.Sql.{select, order_by}
use go_web_search.Sql.Order.{In-map, In-order_by, In-select}
use go_web_search.Sql.Rows.{All-weaken, All-map, All-select, All-In, All-order_by, All-take}
use go_web_search.Store.{World, ok, query}
use go_web_search.Store.Triple.{
  Triple, Triple-pure, Triple-read, Triple-bind, Triple-any, Triple-given,
}
use go_web_search.Runs.Listing.{
  SearchSummary, list_searches, summarize_search, run_links, of_run, member,
}
use go_web_search.Runs.Ranked.{search_of_link}
use go_web_search.Provenance.{FactProvenance, flat_map, fact_provenance, older_fact, mark_vectors}
use go_web_search.Provenance.Graph.{
  CausalityGraph, Link, link_rows, link_of, link_before, urls_of, new_links, scrape_rows, fact_rows,
  link_graph, run_causality, url_limit,
}
use go_web_search.Provenance.Closed.{Joins, graph_edges-Joins, member-In}

-- The stored searches of the run, as the listing returns them.
abbrev summaries : String → Tables → List SearchSummary
summaries run_id t =
    map summarize_search
      (order_by (λ a b. text_lt a.created_at b.created_at) (select (of_run run_id) t.searches))

abbrev Listed : List SearchSummary → Link → Type 0
Listed searches l = In l.search_id (map (λ (s : SearchSummary). s.id) searches)

summary_of :
    (run_id : String) (t : Tables) (s : SearchRow)
    → In s t.searches
    → s.run_id ≡ run_id
    → In s.id (map (λ (s : SearchSummary). s.id) (summaries run_id t))
unfolding summarize_search
summary_of run_id t s i e =
    In-map (λ (s : SearchSummary). s.id) (summaries run_id t) (summarize_search s)
      (In-map summarize_search _ s (
        In-order_by (λ a b. text_lt a.created_at b.created_at) _ s
          (In-select (of_run run_id) t.searches s i ((eq_iff s.run_id run_id).1 e))))

All-flat_map :
    {A B : Type 0} (P : B → Type 0) (f : A → List B) (xs : List A)
    → All (λ x. All P (f x)) xs
    → All P (flat_map f xs)
unfolding flat_map
All-flat_map P f [] h = tt
All-flat_map P f (x ∷ xs) h = All-append P (f x) (flat_map f xs) h.0 (All-flat_map P f xs h.1)

-- Each link comes from a search that is listed.
link_rows-Listed :
    (run_id : String) (n : ℕ) (t : Tables)
    → All (Listed (summaries run_id t)) (link_rows run_id n t)
unfolding link_rows
link_rows-Listed run_id n t =
    let Q : Link → Type 0 = Listed (summaries run_id t) in
    All-take Q n _ (
      All-order_by Q link_before _ (
        All-flat_map Q (λ l. map (link_of l) (urls_of l t)) (run_links run_id t)
          (All-weaken (λ l. In l (run_links run_id t)) _ (run_links run_id t)
            (λ l i. All-map Q (link_of l) (urls_of l t) (
              All-weaken (λ u. In u (urls_of l t)) _ (urls_of l t) (λ u j. of_search l i)
                (All-In (urls_of l t))))
            (All-In (run_links run_id t)))))
  where
    of_search :
        (l : SearchUrlRow)
        → In l (run_links run_id t)
        → In l.search_id (map (λ (s : SearchSummary). s.id) (summaries run_id t))
    of_search l i =
        let (linked, (s, stored, of_link, of_run)) = search_of_link run_id t l i in
        subst (λ id. In id (map (λ (s : SearchSummary). s.id) (summaries run_id t))) of_link
          (summary_of run_id t s stored of_run)

member_text : (x : Text) (ys : List Text) → member text_eq x ys ≡ true → In x ys
member_text = member-In text_eq (λ a b. (text_eq_iff a b).0)

scrape_rows-In :
    (urls : List Text) (t : Tables) → All (λ (r : ScrapeRow). In r.url urls) (scrape_rows urls t)
unfolding scrape_rows
scrape_rows-In urls t =
    All-weaken _ _ (scrape_rows urls t) (λ r h. member_text r.url urls h.1)
      (All-select (λ r. In r t.scrape_cache) (λ (r : ScrapeRow). member text_eq r.url urls)
        t.scrape_cache (All-In t.scrape_cache))

fact_rows-In :
    (urls : List Text) (t : Tables)
    → All (λ (f : FactProvenance). In f.source_url urls) (fact_rows urls t)
unfolding fact_rows fact_provenance
fact_rows-In urls t =
    All-map (λ (f : FactProvenance). In f.source_url urls) fact_provenance _
      (All-order_by (λ (r : FactRow). In r.source_url urls) older_fact _
        (All-weaken _ (λ (r : FactRow). In r.source_url urls) _
          (λ r h. member_text r.source_url urls h.1)
          (All-select (λ r. In r t.memory_facts) (λ (r : FactRow). member text_eq r.source_url urls)
            t.memory_facts (All-In t.memory_facts))))

abbrev IsJoined : CausalityGraph → Tables → Type 0
IsJoined g t = All (Joins g.nodes) g.edges

link_graph-Joins :
    (P : Tables → Type 0) (run_id : String) (n : ℕ) (truncated : Bool)
    (searches : List SearchSummary) (links : List Link)
    → All (Listed searches) links
    → Triple P (link_graph run_id n truncated searches links) IsJoined
unfolding link_graph
link_graph-Joins P run_id n truncated searches [] h =
    Triple-bind P (λ _ t. Unit {0}) IsJoined (mark_vectors []) _
      (Triple-any P (mark_vectors []) (Unit {0}) (λ t p. tt))
      λ marked. Triple-pure _ _ IsJoined (λ t p. tt)
link_graph-Joins P run_id n truncated searches (l ∷ ls) h =
    let links : List Link = l ∷ ls in
    let urls : List Text = map (λ (x : Link). x.url) (new_links [] links) in
    Triple-bind P (λ scrapes t. All (λ (r : ScrapeRow). In r.url urls) scrapes) IsJoined
      (query (scrape_rows urls)) _
      (Triple-read P (scrape_rows urls) _ (λ t p. scrape_rows-In urls t))
      λ scrapes.
        Triple-bind _
          (λ facts t.
            All (λ (r : ScrapeRow). In r.url urls) scrapes
            × All (λ (f : FactProvenance). In f.source_url urls) facts)
          IsJoined (query (fact_rows urls)) _
          (Triple-read _ (fact_rows urls) _ (λ t p. (p, fact_rows-In urls t)))
          λ facts.
            Triple-bind _
              (λ _ t.
                All (λ (r : ScrapeRow). In r.url urls) scrapes
                × All (λ (f : FactProvenance). In f.source_url urls) facts)
              IsJoined (mark_vectors facts) _ (Triple-any _ (mark_vectors facts) _ (λ t p. p))
              λ marked.
                Triple-pure _ _ IsJoined
                  (λ t p. graph_edges-Joins searches links scrapes facts marked h p.0 p.1)

-- Wherever the driver fails: in a graph that RunCausality returns, both ends of every edge are nodes
-- of the graph, so that cutting the links off at the limit leaves no edge without its nodes.
pub run_causality-Joins :
    (run_id : String) (max_urls : ℤ) (w : World) (g : CausalityGraph)
    → (run_causality run_id max_urls w).0 ≡ ok g
    → All (Joins g.nodes) g.edges
unfolding run_causality list_searches
run_causality-Joins run_id max_urls w g e =
    let n : ℕ = url_limit max_urls in
    (Triple-bind (λ t. t ≡ w.tables)
        (λ searches t. (searches ≡ summaries run_id w.tables) × (t ≡ w.tables)) IsJoined
        (query (summaries run_id)) _
        (Triple-read _ (summaries run_id) _ (λ t p. (ap (summaries run_id) p, p)))
        λ searches.
          Triple-bind _ (λ links t. All (Listed searches) links) IsJoined
            (query (link_rows run_id (n + 1))) _
            (Triple-read _ (link_rows run_id (n + 1)) _ (λ t p.
              subst (λ ss. All (Listed ss) (link_rows run_id (n + 1) t))
                (ap (summaries run_id) p.1 ∙ sym p.0) (link_rows-Listed run_id (n + 1) t)))
            λ links. Triple-given _ _ _ (λ t h.
              link_graph-Joins _ run_id n (ltb n (length links)) searches (take n links)
                (All-take (Listed searches) n links h))).at
      w g refl e

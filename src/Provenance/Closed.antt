-- ===== src/Provenance/Closed.antt =====
-- provenance.go, `RunCausality`: every edge joins two nodes of the graph.
use go_web_search.Prelude.{
  ◌≡◌, ◌⊎◌, refl, inl, inr, Bool, true, false, List, [], ◌∷◌, ◌++◌, map, String, str_eq, eq_iff, In,
  All, All-append, In-append_left, In-append_right, arith, ap, ◌∙◌, sym, subst, Bool-cases,
  if-holds, if◌then◌else◌,
}
use go_web_search.Strings.{Text, text_eq, text_eq_iff}
use go_web_search.Rows.{ScrapeRow}
use go_web_search.Sql.Order.{In-map}
use go_web_search.Sql.Rows.{All-weaken, All-map, All-lookup, All-In}
use go_web_search.Runs.Listing.{SearchSummary, member}
use go_web_search.Provenance.{FactProvenance}
use go_web_search.Provenance.Graph.{
  NodeId, node, unnamed, search_node, url_node, CausalityNode, CausalityEdge, Link, search_node_of,
  url_node_of, scrape_node_of, fact_node_of, link_edge, scrape_edge, fact_edge, new_links, node_at,
  node_for,
}

abbrev pub node_ids : List CausalityNode → List NodeId
node_ids = map (λ n. n.id)

abbrev pub Joins : List CausalityNode → CausalityEdge → Type 0
Joins nodes e = In e.from (node_ids nodes) × In e.to (node_ids nodes)

module _ {A : Type 0} (eq : A → A → Bool) (sound : (a b : A) → eq a b ≡ true → a ≡ b) where
  pub member-In : (x : A) (ys : List A) → member eq x ys ≡ true → In x ys
  unfolding member
  member-In x [] e = absurd (no e)
    where
      no : false ≡ true → ⊥
      no e = cc
  member-In x (y ∷ ys) e = elim (Bool-cases (eq x y)) [
    | inl same ↦ inl (sym (sound x y same))
    | inr other ↦ inr (member-In x ys (ground (arith, e, other)))
  ]

-- Each link's URL has a node, or had one before.
new_links_cover :
    (seen : List String) (ls : List Link) (l : Link)
    → In l ls
    → (member str_eq l.url_id seen ≡ true)
      ⊎ In l.url_id (map (λ (x : Link). x.url_id) (new_links seen ls))
unfolding new_links member
new_links_cover seen [] l i = absurd i
new_links_cover seen (x ∷ ls) l i = elim (Bool-cases (member str_eq x.url_id seen)) [
  | inl old ↦ rw old (old_link old i (new_links_cover seen ls l))
  | inr new ↦ rw new (new_link i (new_links_cover (x.url_id ∷ seen) ls l))
]
  where
    old_link :
        member str_eq x.url_id seen ≡ true
        → In l (x ∷ ls)
        → (In l ls
            → (member str_eq l.url_id seen ≡ true)
              ⊎ In l.url_id (map (λ (y : Link). y.url_id) (new_links seen ls)))
        → (member str_eq l.url_id seen ≡ true)
          ⊎ In l.url_id (map (λ (y : Link). y.url_id) (new_links seen ls))
    old_link old (inl same) k =
        inl (subst (λ (y : Link). member str_eq y.url_id seen ≡ true) same old)
    old_link old (inr i) k = k i

    new_link :
        In l (x ∷ ls)
        → (In l ls
            → (member str_eq l.url_id (x.url_id ∷ seen) ≡ true)
              ⊎ In l.url_id (map (λ (y : Link). y.url_id) (new_links (x.url_id ∷ seen) ls)))
        → (member str_eq l.url_id seen ≡ true)
          ⊎ In l.url_id (x.url_id ∷ map (λ (y : Link). y.url_id) (new_links (x.url_id ∷ seen) ls))
    new_link (inl same) k = inr (inl (ap (λ (y : Link). y.url_id) same))
    new_link (inr i) k = elim (k i) [
      | inl known ↦ elim (Bool-cases (str_eq l.url_id x.url_id)) [
        | inl same ↦ inr (inl (sym ((eq_iff l.url_id x.url_id).0 same)))
        | inr other ↦ inl (ground (arith, known, other))
      ]
      | inr later ↦ inr (inr later)
    ]

-- The links that give a node are links.
new_links_of : (seen : List String) (ls : List Link) → All (λ l. In l ls) (new_links seen ls)
unfolding new_links
new_links_of seen [] = tt
new_links_of seen (x ∷ ls) =
    if-holds (λ rest. All (λ l. In l (x ∷ ls)) rest) (member str_eq x.url_id seen) _ _
      (λ old. All-weaken (λ l. In l ls) _ (new_links seen ls) (λ l i. inr i) (new_links_of seen ls))
      (λ new. (
        inl refl,
        All-weaken (λ l. In l ls) _ (new_links (x.url_id ∷ seen) ls) (λ l i. inr i)
            (new_links_of (x.url_id ∷ seen) ls),
      ))

-- What the map from URLs to nodes holds for the URL of a link: a link's node.
node_at-cases :
    (url : Text) (found : NodeId) (ls : List Link)
    → ((l : Link) × In l ls × (node_at url found ls ≡ node url_node l.url_id))
      ⊎ (node_at url found ls ≡ found)
unfolding node_at
node_at-cases url found [] = inr refl
node_at-cases url found (x ∷ ls) =
    elim (node_at-cases url (if text_eq x.url url then node url_node x.url_id else found) ls) [
      | inl (l, i, e) ↦ inl (l, inr i, e)
      | inr e ↦ elim (Bool-cases (text_eq x.url url)) [
        | inl here ↦
            inl (x, inl refl, e ∙ ap (λ b. if b then node url_node x.url_id else found) here)
        | inr other ↦ inr (e ∙ ap (λ b. if b then node url_node x.url_id else found) other)
      ]
    ]

node_at_link :
    (url : Text) (found : NodeId) (ls : List Link) (l : Link)
    → In l ls
    → l.url ≡ url
    → (k : Link) × In k ls × (node_at url found ls ≡ node url_node k.url_id)
unfolding node_at
node_at_link url found [] l i e = absurd i
node_at_link url found (x ∷ ls) l (inl same) e =
    let here : text_eq x.url url ≡ true =
      (text_eq_iff x.url url).1 (ap (λ (y : Link). y.url) same ∙ e) in
    elim (node_at-cases url (if text_eq x.url url then node url_node x.url_id else found) ls) [
      | inl (k, j, p) ↦ (k, inr j, p)
      | inr p ↦ (x, inl refl, p ∙ ap (λ b. if b then node url_node x.url_id else found) here)
    ]
node_at_link url found (x ∷ ls) l (inr i) e =
    let (k, j, p) =
      node_at_link url (if text_eq x.url url then node url_node x.url_id else found) ls l i e in
    (k, inr j, p)

module _ (searches : List SearchSummary) (links : List Link) (scrapes : List ScrapeRow)
    (facts : List FactProvenance) (marked : Bool × List FactProvenance) where
  abbrev pub link_urls : List Text
  link_urls = map (λ (l : Link). l.url) (new_links [] links)

  abbrev pub graph_nodes : List CausalityNode
  graph_nodes =
      map search_node_of searches
      ++ (map url_node_of (new_links [] links)
          ++ (map scrape_node_of scrapes ++ map (fact_node_of marked) facts))

  abbrev pub graph_edges : List CausalityEdge
  graph_edges =
      map link_edge links ++ (map (scrape_edge links) scrapes ++ map (fact_edge links) facts)

  -- The nodes of each kind are nodes of the graph.
  In-first :
      (n : CausalityNode) → In n (map search_node_of searches) → In n.id (node_ids graph_nodes)
  In-first n i = In-map (λ (n : CausalityNode). n.id) graph_nodes n (In-append_left _ _ n i)

  In-second :
      (n : CausalityNode)
      → In n (map url_node_of (new_links [] links))
      → In n.id (node_ids graph_nodes)
  In-second n i =
      In-map (λ (n : CausalityNode). n.id) graph_nodes n
        (In-append_right (map search_node_of searches) _ n (In-append_left _ _ n i))

  In-third :
      (n : CausalityNode) → In n (map scrape_node_of scrapes) → In n.id (node_ids graph_nodes)
  In-third n i =
      In-map (λ (n : CausalityNode). n.id) graph_nodes n
        (In-append_right (map search_node_of searches) _ n
          (In-append_right (map url_node_of (new_links [] links)) _ n (In-append_left _ _ n i)))

  In-fourth :
      (n : CausalityNode) → In n (map (fact_node_of marked) facts) → In n.id (node_ids graph_nodes)
  In-fourth n i =
      In-map (λ (n : CausalityNode). n.id) graph_nodes n
        (In-append_right (map search_node_of searches) _ n (
          In-append_right (map url_node_of (new_links [] links)) _ n
            (In-append_right (map scrape_node_of scrapes) _ n i)))

  search_joined :
      (id : String) (ss : List SearchSummary)
      → In id (map (λ (s : SearchSummary). s.id) ss)
      → (s : SearchSummary) × In s ss × (s.id ≡ id)
  search_joined id [] i = absurd i
  search_joined id (s ∷ ss) (inl e) = (s, inl refl, e)
  search_joined id (s ∷ ss) (inr i) = let (x, j, e) = search_joined id ss i in (x, inr j, e)

  url_joined :
      (id : String) (ls : List Link)
      → In id (map (λ (l : Link). l.url_id) ls)
      → (l : Link) × In l ls × (l.url_id ≡ id)
  url_joined id [] i = absurd i
  url_joined id (l ∷ ls) (inl e) = (l, inl refl, e)
  url_joined id (l ∷ ls) (inr i) = let (x, j, e) = url_joined id ls i in (x, inr j, e)

  -- Every link's URL has its node.
  url_node-In : (l : Link) → In l links → In (node url_node l.url_id) (node_ids graph_nodes)
  unfolding member
  url_node-In l i = elim (new_links_cover [] links l i) [
    | inl none_before ↦ absurd (nothing none_before)
    | inr j ↦
        let (k, at, e) = url_joined l.url_id (new_links [] links) j in
        subst (λ id. In (node url_node id) (node_ids graph_nodes)) e
          (In-second (url_node_of k) (In-map url_node_of (new_links [] links) k at))
  ]
    where
      nothing : member str_eq l.url_id [] ≡ true → ⊥
      nothing e = cc

  -- The map finds a node for each URL that the links have.
  node_for-In : (url : Text) → In url link_urls → In (node_for links url) (node_ids graph_nodes)
  unfolding node_at
  node_for-In url i =
      let (l, j, e) = of_url url (new_links [] links) i in
      let (k, at, p) =
        node_at_link url unnamed links l
          (All-lookup (λ l. In l links) _ l (new_links_of [] links) j) e in
      subst (λ id. In id (node_ids graph_nodes)) (sym p) (url_node-In k at)
    where
      of_url :
          (url : Text) (ls : List Link)
          → In url (map (λ (l : Link). l.url) ls)
          → (l : Link) × In l ls × (l.url ≡ url)
      of_url url [] i = absurd i
      of_url url (l ∷ ls) (inl e) = (l, inl refl, e)
      of_url url (l ∷ ls) (inr i) = let (x, j, e) = of_url url ls i in (x, inr j, e)

  pub graph_edges-Joins :
      All (λ (l : Link). In l.search_id (map (λ (s : SearchSummary). s.id) searches)) links
      → All (λ (r : ScrapeRow). In r.url link_urls) scrapes
      → All (λ (f : FactProvenance). In f.source_url link_urls) facts
      → All (Joins graph_nodes) graph_edges
  unfolding search_node_of scrape_node_of fact_node_of
  graph_edges-Joins from_search from_page from_fact =
      All-append (Joins graph_nodes) (map link_edge links) _
        (All-map (Joins graph_nodes) link_edge links (
          All-weaken (λ l. In l links) _ links
            (λ l i.
              let (s, j, e) =
                search_joined l.search_id searches
                  (All-lookup (λ (k : Link). In k.search_id _) links l from_search i) in
              (
                subst (λ id. In (node search_node id) (node_ids graph_nodes)) e
                    (In-first (search_node_of s) (In-map search_node_of searches s j)),
                url_node-In l i,
              ))
            (All-In links)))
        (All-append (Joins graph_nodes) (map (scrape_edge links) scrapes) _
          (All-map (Joins graph_nodes) (scrape_edge links) scrapes (
            All-weaken (λ r. In r scrapes) _ scrapes
              (λ r i. (
                node_for-In r.url
                    (All-lookup (λ (k : ScrapeRow). In k.url link_urls) scrapes r from_page i),
                In-third (scrape_node_of r) (In-map scrape_node_of scrapes r i),
              ))
              (All-In scrapes)))
          (All-map (Joins graph_nodes) (fact_edge links) facts (
            All-weaken (λ f. In f facts) _ facts
              (λ f i. (
                node_for-In f.source_url (
                    All-lookup (λ (k : FactProvenance). In k.source_url link_urls) facts f from_fact
                      i),
                In-fourth (fact_node_of marked f) (In-map (fact_node_of marked) facts f i),
              ))
              (All-In facts))))

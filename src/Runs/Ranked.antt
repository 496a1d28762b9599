-- ===== src/Runs/Ranked.antt =====
-- store.go, `RunURLs`: the URLs of a run with their best ranks.
use go_web_search.Prelude.{
  ℕ, ◌≤◌, ◌≡◌, ◌⊎◌, refl, inl, inr, true, List, [], ◌∷◌, Option, none, some, String, str_eq, eq_iff,
  In, All, arith, sym, subst, ap, ◌∙◌, Bool-cases, Option-cases, ltb,
}
use go_web_search.Rows.{SearchRow, UrlRow, SearchUrlRow, Tables}
use go_web_search.Sql.{count, order_by}
use go_web_search.Sql.First.{first_of_count, first-In}
use go_web_search.Sql.Rows.{All-select, All-In, All-lookup, All-order_by, All-weaken, count_pos}
use go_web_search.Sql.Order.{Ordered, order_by-before-Ordered, In-order_by, In-select}
use go_web_search.Store.{World, ok}
use go_web_search.Store.Laws.{query_calm}
use go_web_search.Runs.Listing.{
  RankedUrl, finds, run_links, best_rank, lesser, with_rank, rank_urls, better, run_urls,
}

-- A search of the run found the URL with the id at the rank.
pub record FoundAt (run_id : String) (t : Tables) (url_id : String) (rank : ℕ) : Type 0 where
  pub link : SearchUrlRow
  pub linked : In link t.search_urls
  pub search : SearchRow
  pub stored : In search t.searches
  pub of_link : search.id ≡ link.search_id
  pub of_run : search.run_id ≡ run_id
  pub to_url : link.url_id ≡ url_id
  pub at_rank : link.rank ≡ rank

module _ (run_id : String) (t : Tables) where
  finds_iff :
      (l : SearchUrlRow) (s : SearchRow)
      → finds run_id l s ≡ true
      → (s.id ≡ l.search_id) × (s.run_id ≡ run_id)
  finds_iff l s h = (
    ground (arith, eq_iff s.id l.search_id),
    ground (arith, eq_iff s.run_id run_id, eq_iff s.id l.search_id),
  )

  -- A link of the run is stored, and so is its search.
  pub search_of_link :
      (l : SearchUrlRow)
      → In l (run_links run_id t)
      → In l t.search_urls
        × ((s : SearchRow) × In s t.searches × (s.id ≡ l.search_id) × (s.run_id ≡ run_id))
  unfolding run_links
  search_of_link l i =
      let (linked, some_search) =
        All-lookup _ _ l
          (All-select (λ l. In l t.search_urls) (λ l. ltb 0 (count (finds run_id l) t.searches))
            t.search_urls (All-In t.search_urls))
          i in
      let (s, found) = first_of_count (finds run_id l) t.searches (ground (arith, some_search)) in
      let (stored, e) = first-In (finds run_id l) t.searches s found in
      let (of_link, of_run) = finds_iff l s e in (linked, (s, stored, of_link, of_run))

  of_run_link : (l : SearchUrlRow) → In l (run_links run_id t) → FoundAt run_id t l.url_id l.rank
  of_run_link l i =
      let (linked, (s, stored, of_link, of_run)) = search_of_link l i in
      record {
        link = l;
        linked = linked;
        search = s;
        stored = stored;
        of_link = of_link;
        of_run = of_run;
        to_url = refl;
        at_rank = refl;
      }

  run_link_of :
      {url_id : String} {rank : ℕ} (f : FoundAt run_id t url_id rank)
      → In f.link (run_links run_id t)
  unfolding run_links
  run_link_of f =
      In-select (λ l. ltb 0 (count (finds run_id l) t.searches)) t.search_urls f.link f.linked
        (ground (
          arith,
          count_pos (finds run_id f.link) t.searches f.search f.stored
              (ground (arith, eq_iff f.search.id f.link.search_id, eq_iff f.search.run_id run_id)),
        ))

lesser-cases : (n : ℕ) (o : Option ℕ) (m : ℕ) → some (lesser n o) ≡ some m → (n ≡ m) ⊎ (o ≡ some m)
lesser-cases n none m e = inl (ground (arith, e))
lesser-cases n (some k) m e = elim (Bool-cases (ltb k n)) [
  | inl lt ↦ inr (rw lt at e)
  | inr ge ↦ inl (ground (arith, rw ge at e))
]

lesser-le : (n : ℕ) (o : Option ℕ) → lesser n o ≤ n
lesser-le n none = omega arith
lesser-le n (some k) = ground arith

-- The best rank is that of a link, and no link's rank is smaller.
best_rank_link :
    (id : String) (ls : List SearchUrlRow) (n : ℕ)
    → best_rank id ls ≡ some n
    → (l : SearchUrlRow) × In l ls × (l.url_id ≡ id) × (l.rank ≡ n)
unfolding best_rank
best_rank_link id [] n e = absurd (no_rank e)
  where
    no_rank : none ≡ some n → ⊥
    no_rank e = cc
best_rank_link id (l ∷ ls) n e = elim (Bool-cases (str_eq l.url_id id)) [
  | inl t ↦ elim (lesser-cases l.rank (best_rank id ls) n (rw t at e)) [
    | inl same ↦ (l, inl refl, (eq_iff l.url_id id).0 t, same)
    | inr other ↦ let (x, i, to, rank) = best_rank_link id ls n other in (x, inr i, to, rank)
  ]
  | inr f ↦ let (x, i, to, rank) = best_rank_link id ls n (rw f at e) in (x, inr i, to, rank)
]

best_rank_least :
    (id : String) (ls : List SearchUrlRow) (l : SearchUrlRow)
    → In l ls
    → l.url_id ≡ id
    → (n : ℕ) × (best_rank id ls ≡ some n) × (n ≤ l.rank)
unfolding best_rank
best_rank_least id [] l i e = absurd i
best_rank_least id (x ∷ ls) l (inl same) e =
    let t : str_eq x.url_id id ≡ true =
      (eq_iff x.url_id id).1 (ap (λ (y : SearchUrlRow). y.url_id) same ∙ e) in
    (
      lesser x.rank (best_rank id ls),
      rw t refl,
      subst (λ (y : SearchUrlRow). lesser x.rank (best_rank id ls) ≤ y.rank) same
          (lesser-le x.rank (best_rank id ls)),
    )
best_rank_least id (x ∷ ls) l (inr i) e =
    let (m, best, le) = best_rank_least id ls l i e in
    elim (Bool-cases (str_eq x.url_id id)) [
      | inl t ↦ (lesser x.rank (some m), rw (t, best) refl, ground (arith, le))
      | inr f ↦ (m, rw f best, le)
    ]

ranked : UrlRow → ℕ → RankedUrl
ranked u n = record { id = u.id; url = u.url; domain = u.domain; rank = n }

module _ (links : List SearchUrlRow) where
  rank_urls_row :
      (us : List UrlRow) (r : RankedUrl)
      → In r (rank_urls links us)
      → (u : UrlRow) × In u us × (best_rank u.id links ≡ some r.rank) × (ranked u r.rank ≡ r)
  unfolding rank_urls ranked
  rank_urls_row [] r i = absurd i
  rank_urls_row (u ∷ us) r i = elim (Option-cases (best_rank u.id links)) [
    | inl e ↦ behind (rank_urls_row us r (rw e at i))
    | inr (n, e) ↦
        elim (let j : In r (with_rank u (some n) (rank_urls links us)) = rw e at i in j) [
          | inl same ↦ (
            u,
            inl refl,
            e ∙ ap (λ (y : RankedUrl). some y.rank) same,
            ap (λ (y : RankedUrl). ranked u y.rank) (sym same) ∙ same,
          )
          | inr j ↦ behind (rank_urls_row us r j)
        ]
  ]
    where
      behind :
          (u' : UrlRow) × In u' us × (best_rank u'.id links ≡ some r.rank) × (ranked u' r.rank ≡ r)
          → (u' : UrlRow) × In u' (u ∷ us)
            × (best_rank u'.id links ≡ some r.rank)
            × (ranked u' r.rank ≡ r)
      behind (u', j, best, same) = (u', inr j, best, same)

  rank_urls_has :
      (us : List UrlRow) (u : UrlRow) (n : ℕ)
      → In u us
      → best_rank u.id links ≡ some n
      → In (ranked u n) (rank_urls links us)
  unfolding rank_urls ranked
  rank_urls_has [] u n i e = absurd i
  rank_urls_has (x ∷ us) u n (inl same) e =
      let e' : best_rank x.id links ≡ some n = rw same e in rw e' (inl (ap (λ y. ranked y n) same))
  rank_urls_has (x ∷ us) u n (inr i) e = elim (Option-cases (best_rank x.id links)) [
    | inl none_here ↦ rw none_here (rank_urls_has us u n i e)
    | inr (m, here) ↦ rw here (inr (rank_urls_has us u n i e))
  ]

module _ (run_id : String) (t : Tables) where
  -- A row of the listing: a stored URL, with the least rank at which a search of the run found it.
  abbrev pub IsBest : RankedUrl → Type 0
  IsBest r =
      (u : UrlRow) × In u t.urls
      × (u.id ≡ r.id)
      × (u.url ≡ r.url)
      × (u.domain ≡ r.domain)
      × FoundAt run_id t u.id r.rank
      × ((n : ℕ) → FoundAt run_id t u.id n → r.rank ≤ n)

  abbrev rows : List RankedUrl
  rows = rank_urls (run_links run_id t) t.urls

  least :
      (id : String) (best n : ℕ)
      → best_rank id (run_links run_id t) ≡ some best
      → FoundAt run_id t id n
      → best ≤ n
  least id best n e f =
      let (m, e', le) =
        best_rank_least id (run_links run_id t) f.link (run_link_of run_id t f) f.to_url in
      ground (arith, le, f.at_rank, e, e')

  rows-IsBest : (r : RankedUrl) → In r rows → IsBest r
  unfolding ranked
  rows-IsBest r i =
      let (u, j, best, same) = rank_urls_row (run_links run_id t) t.urls r i in
      let (l, k, to, rank) = best_rank_link u.id (run_links run_id t) r.rank best in
      (
        u,
        j,
        ap (λ (y : RankedUrl). y.id) same,
        ap (λ (y : RankedUrl). y.url) same,
        ap (λ (y : RankedUrl). y.domain) same,
        subst (λ n. FoundAt run_id t u.id n) rank
            (subst (λ id. FoundAt run_id t id l.rank) to (of_run_link run_id t l k)),
        λ n f. least u.id r.rank n best f,
      )

  rows_complete :
      (u : UrlRow) (n : ℕ)
      → In u t.urls
      → FoundAt run_id t u.id n
      → (r : RankedUrl) × In r rows × (r.id ≡ u.id) × (r.url ≡ u.url)
  unfolding ranked
  rows_complete u n i f =
      let (m, e, le) =
        best_rank_least u.id (run_links run_id t) f.link (run_link_of run_id t f) f.to_url in
      (ranked u m, rank_urls_has (run_links run_id t) t.urls u m i e, refl, refl)

-- Without a fault of the driver, RunURLs returns the URLs that some search of the run found, each with
-- the least rank at which one did, and the smaller ranks first.
pub run_urls_lem :
    (run_id : String) (w : World)
    → w.faults ≡ []
    → (rs : List RankedUrl) × (run_urls run_id w ≡ (ok rs, w))
      × All (IsBest run_id w.tables) rs
      × ((u : UrlRow) (n : ℕ)
          → In u w.tables.urls
          → FoundAt run_id w.tables u.id n
          → (r : RankedUrl) × In r rs × (r.id ≡ u.id) × (r.url ≡ u.url))
      × Ordered (λ (r : RankedUrl). r.rank) rs
unfolding run_urls
run_urls_lem run_id w calm =
    let found : List RankedUrl = rows run_id w.tables in
    (
      order_by better found,
      query_calm _ w calm,
      All-order_by (IsBest run_id w.tables) better found (
          All-weaken (λ r. In r found) (IsBest run_id w.tables) found (rows-IsBest run_id w.tables)
            (All-In found)),
      λ u n i f.
          let (r, j, id, url) = rows_complete run_id w.tables u n i f in
          (r, In-order_by better found r j, id, url),
      order_by-before-Ordered (λ (r : RankedUrl). r.rank) better (λ a b h. ground (arith, h))
          (λ a b h. ground (arith, h)) found,
    )

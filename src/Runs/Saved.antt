-- ===== src/Runs/Saved.antt =====
-- store.go, `SaveSearch` and `upsertURL`, wherever the driver fails.
use go_web_search.Prelude.{
  ℕ, ◌+◌, ◌≡◌, ◌⊎◌, refl, inl, inr, Bool, true, false, List, [], ◌∷◌, map, Option, none, some,
  String, In, In-append_right, sym, subst,
}
use go_web_search.Clock.{Stamp}
use go_web_search.Strings.{Text, text_eq_iff}
use go_web_search.Rows.{UrlRow, Tables}
use go_web_search.Sql.{first}
use go_web_search.Sql.First.{first-In, first-none}
use go_web_search.Store.{
  Error, Result, ok, err, World, ◌>>◌, pure, exec, query, new_id, now_rfc3339, transaction,
  rolled_back,
}
use go_web_search.Store.Triple.{
  Triple, Triple-pure, Triple-query, Triple-exec, Triple-bind, Triple-new_id, Triple-now_rfc3339,
  Triple-transaction, Triple-weaken,
}
use go_web_search.Runs.{
  SearchRecord, search_row, url_is, domain_of, add_search, add_url, save_raw, found_or_new,
  upsert_url, save_urls, search_statements, save_search,
}
use go_web_search.Runs.Links.{
  IsLinked, IsPartial, OrNew, Stored, Found, url_texts, search_ids, add_search-IsPartial,
  add_raw-IsPartial, add_url-IsPartial, add_link-IsPartial,
}

clash : {b : Bool} → b ≡ false → b ≡ true → ⊥
clash e e' = cc

-- The URL that a statement looked up and did not find is not stored.
absent : (url : Text) (t : Tables) → first (url_is url) t.urls ≡ none → ¬ In url (url_texts t)
absent url t e i = no_row t.urls (first-none (url_is url) t.urls e) i
  where
    no_row :
        (rows : List UrlRow)
        → ((r : UrlRow) → In r rows → url_is url r ≡ false)
        → In url (map (λ (u : UrlRow). u.url) rows)
        → ⊥
    no_row [] h i = i
    no_row (r ∷ rows) h (inl same) = clash (h r (inl refl)) ((text_eq_iff r.url url).1 same)
    no_row (r ∷ rows) h (inr i) = no_row rows (λ x j. h x (inr j)) i

module _ (search_id : String) (D : Text → Type 0) where
  save_raw-IsPartial :
      (html : Text) (at : Stamp)
      → Triple (IsPartial search_id D) (save_raw html search_id at) (λ n t. IsPartial search_id D t)
  unfolding save_raw
  save_raw-IsPartial [] at = Triple-pure _ 0 _ λ t h. h
  save_raw-IsPartial (c ∷ s) at =
      Triple-bind _ (λ _ t. IsPartial search_id D t) _ new_id _ (Triple-new_id _)
        λ id.
          Triple-exec _ (IsPartial search_id D) _ λ t h. add_raw-IsPartial search_id D t h _ refl

module _ (hostname : Text → Option Text) (search_id : String) where
  found_or_new-Stored :
      (D : Text → Type 0) (url : Text) (at : Stamp) (row : Option UrlRow)
      → Triple
          (λ t. (row ≡ first (url_is url) t.urls) × IsPartial search_id D t)
          (found_or_new hostname url at row)
          (λ id t. IsPartial search_id D t × Stored url id t)
  unfolding found_or_new
  found_or_new-Stored D url at (some r) = Triple-pure _ r.id _ λ t h.
      let (i, e) = first-In (url_is url) t.urls r (sym h.0) in
      (h.1, (r, i, (text_eq_iff r.url url).0 e, refl))
  found_or_new-Stored D url at none =
      Triple-bind _ (λ _ t. (none ≡ first (url_is url) t.urls) × IsPartial search_id D t) _ new_id _
        (Triple-new_id _)
        λ id.
          let r : UrlRow = record {
            id = id;
            url = url;
            domain = domain_of hostname url;
            first_seen_at = at;
            created_at = at;
          } in
          Triple-bind _ (λ _ t. IsPartial search_id D t × Stored url id t) _ (exec (add_url r)) _
            (Triple-exec _ (λ t. IsPartial search_id D t × Stored url id t) (add_url r)
              λ t h. (
                add_url-IsPartial search_id D t (h.1) r (absent url t (sym h.0)),
                (r, In-append_right t.urls (r ∷ []) r (inl refl), refl, refl),
              ))
            λ n. Triple-pure _ id _ λ t h. h

  -- The id that upsertURL returns is that of a stored row of the URL.
  upsert_url-Stored :
      (D : Text → Type 0) (url : Text) (at : Stamp)
      → Triple
          (IsPartial search_id D)
          (upsert_url hostname url at)
          (λ id t. IsPartial search_id D t × Stored url id t)
  unfolding upsert_url
  upsert_url-Stored D url at =
      Triple-bind _ (λ row t. (row ≡ first (url_is url) t.urls) × IsPartial search_id D t) _
        (query (λ t. first (url_is url) t.urls)) _
        (Triple-query (IsPartial search_id D) (λ t. first (url_is url) t.urls))
        (found_or_new-Stored D url at)

  save_urls-IsPartial :
      (D : Text → Type 0) (at : Stamp) (rank : ℕ) (urls : List Text)
      → Triple
          (IsPartial search_id D)
          (save_urls hostname search_id at rank urls)
          (λ n t. IsPartial search_id (λ url. D url ⊎ In url urls) t)
  unfolding save_urls
  save_urls-IsPartial D at rank [] = Triple-pure _ tt _ λ t h. record {
    linked = h.linked;
    here = h.here;
    found = λ url d. elim d [ inl old ↦ h.found url old | inr i ↦ absurd i ];
  }
  save_urls-IsPartial D at rank (url ∷ urls) =
      Triple-bind _ (λ id t. IsPartial search_id D t × Stored url id t) _
        (upsert_url hostname url at) _ (upsert_url-Stored D url at)
        λ url_id.
          Triple-bind _ (λ _ t. IsPartial search_id D t × Stored url url_id t) _ new_id _
            (Triple-new_id _)
            λ id.
              Triple-bind _ (λ _ t. IsPartial search_id (OrNew D url) t) _ (exec _) _
                (Triple-exec _ (IsPartial search_id (OrNew D url)) _
                  (λ t h. add_link-IsPartial search_id D t h.0 _ url refl h.1))
                λ n.
                  Triple-weaken _ _ _ _ (save_urls-IsPartial (OrNew D url) at (rank + 1) urls)
                    λ k t h. record {
                      linked = h.linked;
                      here = h.here;
                      found = λ x d. h.found x (elim d [
                        | inl old ↦ inl (inl old)
                        | inr (inl e) ↦ inl (inr e)
                        | inr (inr i) ↦ inr i
                      ]);
                    }

  -- The statements behind the INSERT of the search.
  rest-IsPartial :
      (rec : SearchRecord) (at : Stamp)
      → Triple
          (IsPartial search_id (λ url. ⊥))
          (do
            save_raw rec.raw_html search_id at
            save_urls hostname search_id at 0 rec.urls
            pure search_id)
          (λ id t. (id ≡ search_id) × IsPartial search_id (λ url. ⊥ ⊎ In url rec.urls) t)
  rest-IsPartial rec at =
      Triple-bind _ (λ _ t. IsPartial search_id (λ url. ⊥) t) _ (save_raw rec.raw_html search_id at)
        _ (save_raw-IsPartial search_id (λ url. ⊥) rec.raw_html at)
        λ n.
          Triple-bind _ (λ _ t. IsPartial search_id (λ url. ⊥ ⊎ In url rec.urls) t) _
            (save_urls hostname search_id at 0 rec.urls) _
            (save_urls-IsPartial (λ url. ⊥) at 0 rec.urls)
            λ u. Triple-pure _ search_id _ λ t h. (refl, h)

-- The search is stored, and its URLs are linked to it.
abbrev pub IsSaved : SearchRecord → String → Tables → Type 0
IsSaved rec id t =
    In id (search_ids t) × IsLinked t × ((url : Text) → In url rec.urls → Found id url t)

module _ (hostname : Text → Option Text) (rec : SearchRecord) where
  search_statements-IsSaved : Triple IsLinked (search_statements hostname rec) (IsSaved rec)
  unfolding search_statements
  search_statements-IsSaved =
      Triple-bind _ (λ _ t. IsLinked t) _ now_rfc3339 _ (Triple-now_rfc3339 _)
        λ at.
          Triple-bind _ (λ _ t. IsLinked t) _ new_id _ (Triple-new_id _)
            λ id.
              Triple-bind _ (λ _ t. IsPartial id (λ url. ⊥) t) _
                (exec (add_search (search_row id rec at))) _
                (Triple-exec _ (IsPartial id (λ url. ⊥)) (add_search (search_row id rec at))
                  (λ t h. unfold search_row in add_search-IsPartial (search_row id rec at) t h))
                λ n. Triple-weaken _ _ _ _ (rest-IsPartial hostname id rec at) λ id' t h. (
                  subst (λ x. In x (search_ids t)) (sym h.0) (h.1).here,
                  (h.1).linked,
                  λ url i. subst (λ x. Found x url t) (sym h.0) ((h.1).found url (inr i)),
                )

  transaction_outcome :
      (t : Tables) (r : Result String × World)
      → IsLinked t
      → ((id : String) → (rolled_back t r).0 ≡ ok id → IsSaved rec id (rolled_back t r).1.tables)
      → IsLinked (rolled_back t r).1.tables
        × ((e : Error) → (rolled_back t r).0 ≡ err e → (rolled_back t r).1.tables ≡ t)
  transaction_outcome t (ok id, w) h k = ((k id refl).1, λ e f. absurd (not_both f))
    where
      not_both : {e : Error} → ok id ≡ err e → ⊥
      not_both f = cc
  transaction_outcome t (err x, w) h k = (h, λ e f. refl)

  -- Wherever the driver fails: SaveSearch leaves every link and every raw page attached to a stored
  -- search, every link to a stored URL, and the URLs distinct; where it returns an error, no table is
  -- changed; and where it returns an id, that search is stored and each of the record's URLs is
  -- linked to it.
  pub save_search_lem :
      (w : World)
      → IsLinked w.tables
      → IsLinked (save_search hostname rec w).1.tables
        × ((e : Error)
            → (save_search hostname rec w).0 ≡ err e
            → (save_search hostname rec w).1.tables ≡ w.tables)
        × ((id : String)
            → (save_search hostname rec w).0 ≡ ok id
            → IsSaved rec id (save_search hostname rec w).1.tables)
  unfolding save_search transaction
  save_search_lem w h =
      let done = (Triple-transaction IsLinked (IsSaved rec) _ search_statements-IsSaved).at w in
      let (linked, undone) = transaction_outcome w.tables _ h (λ id e. done id h e) in
      (linked, undone, λ id e. done id h e)

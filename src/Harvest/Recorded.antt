-- ===== src/Harvest/Recorded.antt =====
-- store.go, `SaveSearch`, for harvest.go: a saved search is recorded, and stays so.
use go_web_search.Prelude.{
  ℕ, zero, suc, ◌+◌, ◌≡◌, refl, inl, List, [], ◌∷◌, Option, none, some, String, In, In-append_left,
  In-append_right,
}
use go_web_search.Clock.{Stamp}
use go_web_search.Strings.{Text}
use go_web_search.Rows.{SearchRow, SearchUrlRow, UrlRow, Tables}
use go_web_search.Sql.{count}
use go_web_search.Store.{M, ◌>>◌, pure, exec, query, new_id, now_rfc3339}
use go_web_search.Store.Keeps.{Keeps, Keeps-pure, Keeps-bind, Keeps-exec, Keeps-query, Keeps-new_id}
use go_web_search.Store.Triple.{
  Triple, Triple-exec, Triple-bind, Triple-new_id, Triple-now_rfc3339, Triple-transaction,
}
use go_web_search.Runs.{
  same_link, SearchRecord, search_row, add_search, add_link, unless_linked, save_raw, found_or_new,
  upsert_url, save_urls, search_statements, save_search,
}

-- A search of the run is stored for the term and the engine.
abbrev pub Asked : String → Text → Text → Tables → Type 0
Asked run_id term engine t =
    (s : SearchRow) × In s t.searches × (s.run_id ≡ run_id) × (s.term ≡ term) × (s.engine ≡ engine)

-- The searches of the one are searches of the other.
abbrev pub Grows : Tables → Tables → Type 0
Grows t t' = (s : SearchRow) → In s t.searches → In s t'.searches

pub Asked-grow :
    (run_id : String) (term engine : Text) (t t' : Tables)
    → Grows t t'
    → Asked run_id term engine t
    → Asked run_id term engine t'
Asked-grow run_id term engine t t' g (s, i, run, same, by) = (s, g s i, run, same, by)

add_link-Grows : (r : SearchUrlRow) (t : Tables) → Grows t (add_link r t).0
unfolding add_link
add_link-Grows r t s i = by_count (count (same_link r) t.search_urls)
  where
    by_count : (n : ℕ) → In s (unless_linked n r t).0.searches
    by_count zero = i
    by_count (suc n) = i

-- What holds of the searches, and of more searches, is kept by every statement of SaveSearch.
module _ (P : Tables → Type 0) (grow : (t t' : Tables) → Grows t t' → P t → P t') where
  save_raw-Keeps : (html : Text) (id : String) (at : Stamp) → Keeps P (save_raw html id at)
  unfolding save_raw
  save_raw-Keeps [] id at = Keeps-pure P 0
  save_raw-Keeps (c ∷ s) id at =
      Keeps-bind P new_id _ (Keeps-new_id P) λ raw_id. Keeps-exec P _ λ t h. grow t _ (λ x i. i) h

  module _ (hostname : Text → Option Text) where
    found_or_new-Keeps :
        (url : Text) (at : Stamp) (row : Option UrlRow) → Keeps P (found_or_new hostname url at row)
    unfolding found_or_new
    found_or_new-Keeps url at (some r) = Keeps-pure P r.id
    found_or_new-Keeps url at none = Keeps-bind P new_id _ (Keeps-new_id P) λ id.
        Keeps-bind P (exec _) _ (Keeps-exec P _ λ t h. grow t _ (λ x i. i) h) λ n. Keeps-pure P id

    upsert_url-Keeps : (url : Text) (at : Stamp) → Keeps P (upsert_url hostname url at)
    unfolding upsert_url
    upsert_url-Keeps url at = Keeps-bind P (query _) _ (Keeps-query P _) (found_or_new-Keeps url at)

    save_urls-Keeps :
        (id : String) (at : Stamp) (rank : ℕ) (urls : List Text)
        → Keeps P (save_urls hostname id at rank urls)
    unfolding save_urls
    save_urls-Keeps id at rank [] = Keeps-pure P tt
    save_urls-Keeps id at rank (url ∷ urls) =
        Keeps-bind P (upsert_url hostname url at) _ (upsert_url-Keeps url at) λ url_id.
          Keeps-bind P new_id _ (Keeps-new_id P) λ link_id.
            Keeps-bind P (exec _) _ (Keeps-exec P _ λ t h. grow t _ (add_link-Grows _ t) h)
              λ n. save_urls-Keeps id at (rank + 1) urls

    -- After the INSERT of the search.
    rest-Keeps :
        (rec : SearchRecord) (id : String) (at : Stamp)
        → Keeps P (do save_raw rec.raw_html id at; save_urls hostname id at 0 rec.urls; pure id)
    rest-Keeps rec id at =
        Keeps-bind P (save_raw rec.raw_html id at) _ (save_raw-Keeps rec.raw_html id at) λ n.
          Keeps-bind P (save_urls hostname id at 0 rec.urls) _ (save_urls-Keeps id at 0 rec.urls)
            λ u. Keeps-pure P id

pub Triple_of_Keeps :
    {A : Type 0} (P : Tables → Type 0) (m : M A) → Keeps P m → Triple P m (λ _ t. P t)
Triple_of_Keeps P m k = record { at = λ w a h e. k.at w h }

module _ (hostname : Text → Option Text) (P : Tables → Type 0)
    (grow : (t t' : Tables) → Grows t t' → P t → P t') where
  -- A saved search is recorded, and what was recorded stays so.
  pub save_search-Asked :
      (rec : SearchRecord)
      → Triple P (save_search hostname rec) (λ id t. P t × Asked rec.run_id rec.term rec.engine t)
  unfolding save_search search_statements
  save_search-Asked rec = Triple-transaction P _ (search_statements hostname rec) (
      Triple-bind P (λ _ t. P t) _ now_rfc3339 _ (Triple-now_rfc3339 P)
        λ at.
          Triple-bind P (λ _ t. P t) _ new_id _ (Triple-new_id P)
            λ id.
              Triple-bind P (λ _ t. Both t) _ (exec (add_search (search_row id rec at))) _
                (Triple-exec P Both (add_search (search_row id rec at)) λ t h.
                  unfold search_row in
                  (
                    grow t _ (λ s i. In-append_left t.searches _ s i) h,
                    (
                      search_row id rec at,
                      In-append_right t.searches _ (search_row id rec at) (inl refl),
                      refl,
                      refl,
                      refl,
                    ),
                  ))
                λ n. Triple_of_Keeps Both _ (rest-Keeps Both both_grow hostname rec id at))
    where
      Both : Tables → Type 0
      Both t = P t × Asked rec.run_id rec.term rec.engine t

      both_grow : (t t' : Tables) → Grows t t' → Both t → Both t'
      both_grow t t' g (p, a) = (grow t t' g p, Asked-grow _ _ _ t t' g a)

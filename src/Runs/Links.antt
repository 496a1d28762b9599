-- ===== src/Runs/Links.antt =====
-- store.go, `SaveSearch`: what a search's URLs are attached to.
use go_web_search.Prelude.{
  ℕ, zero, suc, ◌≡◌, ◌⊎◌, refl, inl, inr, true, List, [], ◌∷◌, ◌++◌, map, String, eq_iff, In, All,
  Distinct, In-append_left, In-append_right, Distinct-snoc, map-snoc, arith, ◌∙◌, sym, subst,
}
use go_web_search.Strings.{Text}
use go_web_search.Rows.{SearchRow, RawRow, UrlRow, SearchUrlRow, Tables}
use go_web_search.Sql.{count}
use go_web_search.Sql.First.{first-In, first_of_count}
use go_web_search.Sql.Order.{In-map}
use go_web_search.Sql.Rows.{All-weaken}
use go_web_search.Runs.{same_link, add_search, add_raw, add_url, add_link, unless_linked}

abbrev pub search_ids : Tables → List String
search_ids t = map (λ (s : SearchRow). s.id) t.searches

abbrev pub url_texts : Tables → List Text
url_texts t = map (λ (u : UrlRow). u.url) t.urls

abbrev pub Refers : Tables → SearchUrlRow → Type 0
Refers t l = In l.search_id (search_ids t) × In l.url_id (map (λ (u : UrlRow). u.id) t.urls)

-- Every stored page and every link belongs to a stored search, every link leads to a stored URL, and
-- the URLs are distinct.
pub record IsLinked (t : Tables) : Type 0 where
  pub links : All (Refers t) t.search_urls
  pub raws : All (λ (r : RawRow). In r.search_id (search_ids t)) t.search_raw
  pub unique : Distinct (url_texts t)

-- The URL is stored under the id.
abbrev pub Stored : Text → String → Tables → Type 0
Stored url id t = (u : UrlRow) × In u t.urls × (u.url ≡ url) × (u.id ≡ id)

-- The search has a link to the URL.
pub record Found (search_id : String) (url : Text) (t : Tables) : Type 0 where
  pub row : UrlRow
  pub stored : In row t.urls
  pub same : row.url ≡ url
  pub link : SearchUrlRow
  pub linked : In link t.search_urls
  pub of_search : link.search_id ≡ search_id
  pub to_url : link.url_id ≡ row.id

Found-grow :
    (t t' : Tables) (search_id : String) (url : Text)
    → ((u : UrlRow) → In u t.urls → In u t'.urls)
    → ((l : SearchUrlRow) → In l t.search_urls → In l t'.search_urls)
    → Found search_id url t
    → Found search_id url t'
Found-grow t t' search_id url f g k = record {
  row = k.row;
  stored = f k.row k.stored;
  same = k.same;
  link = k.link;
  linked = g k.link k.linked;
  of_search = k.of_search;
  to_url = k.to_url;
}

-- Between the statements of SaveSearch: the URLs of D are linked.
pub record IsPartial (search_id : String) (D : Text → Type 0) (t : Tables) : Type 0 where
  pub linked : IsLinked t
  pub here : In search_id (search_ids t)
  pub found : (url : Text) → D url → Found search_id url t

abbrev pub OrNew : (Text → Type 0) → Text → Text → Type 0
OrNew D new url = D url ⊎ (new ≡ url)

pub add_search-IsPartial :
    (r : SearchRow) (t : Tables) → IsLinked t → IsPartial r.id (λ url. ⊥) (add_search r t).0
add_search-IsPartial r t h = record {
  linked = record {
    links =
        All-weaken (Refers t) (Refers (add_search r t).0) t.search_urls
          (λ l k. (later l.search_id k.0, k.1)) h.links;
    raws =
        All-weaken (λ x. In x.search_id (search_ids t)) _ t.search_raw (λ x k. later x.search_id k)
          h.raws;
    unique = h.unique;
  };
  here =
      rw (map-snoc (λ (s : SearchRow). s.id) t.searches r)
        (In-append_right (search_ids t) (r.id ∷ []) r.id (inl refl));
  found = λ url d. absurd d;
}
  where
    later : (id : String) → In id (search_ids t) → In id (search_ids (add_search r t).0)
    later id i =
        rw (map-snoc (λ (s : SearchRow). s.id) t.searches r)
          (In-append_left (search_ids t) (r.id ∷ []) id i)

same_link_iff :
    (l r : SearchUrlRow)
    → same_link r l ≡ true
    → (l.search_id ≡ r.search_id) × (l.url_id ≡ r.url_id)
same_link_iff l r h = (
  ground (arith, eq_iff l.search_id r.search_id),
  ground (arith, eq_iff l.url_id r.url_id, eq_iff l.search_id r.search_id),
)

module _ {A : Type 0} (P : A → Type 0) where
  All-snoc : (xs : List A) (a : A) → All P xs → P a → All P (xs ++ a ∷ [])
  All-snoc [] a h k = (k, tt)
  All-snoc (x ∷ xs) a h k = (h.0, All-snoc xs a h.1 k)

module _ (search_id : String) (D : Text → Type 0) (t : Tables) (h : IsPartial search_id D t) where
  pub add_raw-IsPartial :
      (r : RawRow) → r.search_id ≡ search_id → IsPartial search_id D (add_raw r t).0
  add_raw-IsPartial r e = record {
    linked = record {
      links = h.linked.links;
      raws =
          All-snoc (λ x. In x.search_id (search_ids t)) t.search_raw r h.linked.raws
            (rw e (h.here));
      unique = h.linked.unique;
    };
    here = h.here;
    found =
        λ url d. Found-grow t (add_raw r t).0 search_id url (λ u i. i) (λ l i. i) (h.found url d);
  }

  pub add_url-IsPartial :
      (r : UrlRow) → ¬ In r.url (url_texts t) → IsPartial search_id D (add_url r t).0
  add_url-IsPartial r new = record {
    linked = record {
      links =
          All-weaken (Refers t) (Refers (add_url r t).0) t.search_urls
            (λ l k. (
              k.0,
              rw (map-snoc (λ (u : UrlRow). u.id) t.urls r)
                  (In-append_left _ (r.id ∷ []) l.url_id (k.1)),
            ))
            h.linked.links;
      raws = h.linked.raws;
      unique =
          rw (map-snoc (λ (u : UrlRow). u.url) t.urls r)
            (Distinct-snoc (url_texts t) r.url h.linked.unique new);
    };
    here = h.here;
    found = λ url d.
        Found-grow t (add_url r t).0 search_id url (λ u i. In-append_left t.urls (r ∷ []) u i)
          (λ l i. i) (h.found url d);
  }

  -- A link that is new, or that is there and is left as it is.
  pub add_link-IsPartial :
      (r : SearchUrlRow) (url : Text)
      → r.search_id ≡ search_id
      → Stored url r.url_id t
      → IsPartial search_id (OrNew D url) (add_link r t).0
  unfolding add_link
  add_link-IsPartial r url e (u, stored, same, id) =
      by_count (count (same_link r) t.search_urls) refl
    where
      by_count :
          (n : ℕ)
          → count (same_link r) t.search_urls ≡ n
          → IsPartial search_id (OrNew D url) (unless_linked n r t).0
      by_count zero c = record {
        linked = record {
          links = All-snoc (Refers t) t.search_urls r h.linked.links (
            subst (λ s. In s (search_ids t)) (sym e) h.here,
            subst (λ s. In s (map (λ (x : UrlRow). x.id) t.urls)) id
                (In-map (λ (x : UrlRow). x.id) t.urls u stored),
          );
          raws = h.linked.raws;
          unique = h.linked.unique;
        };
        here = h.here;
        found = λ x d. elim d [
          | inl old ↦
              Found-grow t (unless_linked zero r t).0 search_id x (λ w i. i)
                (λ l i. In-append_left t.search_urls (r ∷ []) l i) (h.found x old)
          | inr new ↦ record {
            row = u;
            stored = stored;
            same = same ∙ new;
            link = r;
            linked = In-append_right t.search_urls (r ∷ []) r (inl refl);
            of_search = e;
            to_url = sym id;
          }
        ];
      }
      by_count (suc n) c = record {
        linked = h.linked;
        here = h.here;
        found = λ x d. elim d [
          | inl old ↦ h.found x old
          | inr new ↦
              let (l, found) = first_of_count (same_link r) t.search_urls (omega (arith, c)) in
              let (i, same_as) = first-In (same_link r) t.search_urls l found in
              let (of_search, to_url) = same_link_iff l r same_as in
              record {
                row = u;
                stored = stored;
                same = same ∙ new;
                link = l;
                linked = i;
                of_search = of_search ∙ e;
                to_url = to_url ∙ sym id;
              }
        ];
      }

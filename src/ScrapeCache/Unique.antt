-- ===== src/ScrapeCache/Unique.antt =====
-- scrapecache.go, `SaveScrape`: the URLs of the stored pages.
use go_web_search.Prelude.{
  ℕ, zero, suc, ◌≡◌, refl, inl, inr, Bool, List, [], ◌∷◌, ◌++◌, map, Option, none, some, In,
  Distinct, Distinct-snoc, map-snoc, arith, ap, ◌∙◌, sym, subst, Bool-cases, if◌then◌else◌,
}
use go_web_search.Clock.{Time, Stamp, format}
use go_web_search.Strings.{Text, text_eq, text_eq_iff}
use go_web_search.Rows.{Tier, short, ScrapeRow, Tables}
use go_web_search.Sql.{update, count, first}
use go_web_search.Store.{Result, ok, err, World, continue, pure, exec, query, now, new_id, driver}
use go_web_search.Store.Laws.{exec-cases, query_tables, now_tables}
use go_web_search.Store.Yields.{ok-injective}
use go_web_search.Tier.{TierConfig, next_expiry}
use go_web_search.Cleanup.{on_scrapes}
use go_web_search.ScrapeCache.{
  ScrapeRecord, has_url, update_pages, insert_page, page_id, refetch, fresh_page, save_page,
  save_scrape,
}

abbrev pub UniqueUrls : Tables → Type 0
UniqueUrls t = Distinct (map (λ (r : ScrapeRow). r.url) t.scrape_cache)

abbrev urls : List ScrapeRow → List Text
urls = map (λ r. r.url)

urls-update :
    (p : ScrapeRow → Bool) (f : ScrapeRow → ScrapeRow) (rows : List ScrapeRow)
    → ((r : ScrapeRow) → (f r).url ≡ r.url)
    → urls (update p f rows) ≡ urls rows
unfolding update
urls-update p f [] h = refl
urls-update p f (r ∷ rows) h = elim (Bool-cases (p r)) [
  | inl e ↦
      rw e (
        ap (λ u. u ∷ urls (update p f rows)) (h r) ∙ ap (λ us. r.url ∷ us) (urls-update p f rows h))
  | inr e ↦ rw e (ap (λ us. r.url ∷ us) (urls-update p f rows h))
]

count-update :
    (url : Text) (p : ScrapeRow → Bool) (f : ScrapeRow → ScrapeRow) (rows : List ScrapeRow)
    → ((r : ScrapeRow) → (f r).url ≡ r.url)
    → count (has_url url) (update p f rows) ≡ count (has_url url) rows
unfolding update count
count-update url p f [] h = refl
count-update url p f (r ∷ rows) h = elim (Bool-cases (p r)) [
  | inl e ↦
      rw (e, h r) (ap (λ n. if text_eq r.url url then suc n else n) (count-update url p f rows h))
  | inr e ↦ rw e (ap (λ n. if text_eq r.url url then suc n else n) (count-update url p f rows h))
]

absent : (url : Text) (rows : List ScrapeRow) → count (has_url url) rows ≡ 0 → ¬ In url (urls rows)
unfolding count
absent url [] h i = i
absent url (r ∷ rows) h (inl e) = absurd (ground (arith, h, (text_eq_iff r.url url).1 e))
absent url (r ∷ rows) h (inr i) = absent url rows (ground (arith, h)) i

Distinct-append :
    (rows : List ScrapeRow) (x : ScrapeRow)
    → Distinct (urls rows)
    → ¬ In x.url (urls rows)
    → Distinct (urls (rows ++ x ∷ []))
Distinct-append rows x d h =
    subst Distinct (sym (map-snoc (λ r. r.url) rows x)) (Distinct-snoc (urls rows) x.url d h)

-- A step that only returns something leaves the world as it is.
then_pure_world : {A B : Type 0} (r : Result A × World) (b : B) → (continue r (λ _. pure b)).1 ≡ r.1
then_pure_world (ok a, w) b = refl
then_pure_world (err e, w) b = refl

then_page_id_world : (r : Result (Option ScrapeRow) × World) → (continue r page_id).1 ≡ r.1
then_page_id_world (ok none, w) = refl
then_page_id_world (ok (some x), w) = refl
then_page_id_world (err e, w) = refl

module _ (sha256_hex : Text → Text) (rec : ScrapeRecord) (window : Tier × Option Time)
    (at : Stamp) where
  refetch-url : (r : ScrapeRow) → (refetch sha256_hex rec window at r).url ≡ r.url
  unfolding refetch
  refetch-url r = refl

  insert_page-UniqueUrls :
      (x : ScrapeRow) (w : World)
      → UniqueUrls w.tables
      → ¬ In x.url (urls w.tables.scrape_cache)
      → UniqueUrls (insert_page x w).1.tables
  unfolding insert_page
  insert_page-UniqueUrls x w u h =
      elim (exec-cases (λ t. (on_scrapes (λ rows. rows ++ x ∷ []) t, 1)) w) [
        | inl same ↦ subst UniqueUrls (sym (same.1)) u
        | inr done ↦ subst UniqueUrls (sym (done.1)) (Distinct-append w.tables.scrape_cache x u h)
      ]

  save_page-UniqueUrls :
      (n : ℕ) (w : World)
      → UniqueUrls w.tables
      → count (has_url rec.url) w.tables.scrape_cache ≡ n
      → UniqueUrls (save_page sha256_hex rec window at n w).1.tables
  unfolding save_page new_id fresh_page
  save_page-UniqueUrls zero w u h =
      let w1 : World = record w { issued = suc w.issued } in
      let x : ScrapeRow = fresh_page sha256_hex (w.uuid w.issued) rec window at in
      subst (λ v. UniqueUrls v.tables) (sym (then_pure_world (insert_page x w1) (w.uuid w.issued)))
        (insert_page-UniqueUrls x w1 u (absent rec.url w.tables.scrape_cache h))
  save_page-UniqueUrls (suc n) w u h =
      let f : Tables → Option ScrapeRow = λ t. first (has_url rec.url) t.scrape_cache in
      subst (λ v. UniqueUrls v.tables) (sym (then_page_id_world (query f w)))
        (subst UniqueUrls (sym (query_tables f w)) u)

  -- After the UPDATE, whether or not the driver performed it.
  saved :
      (r : Result ℕ × World)
      → UniqueUrls r.1.tables
      → ((n : ℕ) → r.0 ≡ ok n → count (has_url rec.url) r.1.tables.scrape_cache ≡ n)
      → UniqueUrls (continue r (save_page sha256_hex rec window at)).1.tables
  saved (ok n, w) u h = save_page-UniqueUrls n w u (h n refl)
  saved (err e, w) u h = u

  abbrev change : ScrapeRow → ScrapeRow
  change = refetch sha256_hex rec window at

  updated :
      (w : World)
      → UniqueUrls w.tables
      → UniqueUrls
          (continue
            (update_pages (has_url rec.url) change w)
            (save_page sha256_hex rec window at)).1.tables
  unfolding update_pages
  updated w u =
      let f : Tables → Tables × ℕ = λ t.
        (on_scrapes (update (has_url rec.url) change) t, count (has_url rec.url) t.scrape_cache) in
      saved (exec f w)
        (elim (exec-cases f w) [
          | inl same ↦ subst UniqueUrls (sym (same.1)) u
          | inr done ↦ subst UniqueUrls (sym (done.1)) (
              subst Distinct
                (sym (urls-update (has_url rec.url) change w.tables.scrape_cache refetch-url)) u)
        ])
        (λ n e. elim (exec-cases f w) [
          | inl same ↦ absurd (failed_not_ok n (same.0) e)
          | inr done ↦
              ap (λ t. count (has_url rec.url) t.scrape_cache) (done.1)
              ∙ count-update rec.url (has_url rec.url) change w.tables.scrape_cache refetch-url
              ∙ ok-injective _ n (sym (done.0) ∙ e)
        ])
    where
      failed_not_ok : {r : Result ℕ} (n : ℕ) → r ≡ err driver → r ≡ ok n → ⊥
      failed_not_ok n e e' = cc

-- Wherever the driver fails, saving a page keeps the pages' URLs distinct: a page that is there is
-- overwritten, and another one is added.
pub save_scrape-UniqueUrls :
    (sha256_hex : Text → Text) (cfg : TierConfig) (rec : ScrapeRecord) (w : World)
    → UniqueUrls w.tables
    → UniqueUrls (save_scrape sha256_hex cfg rec w).1.tables
unfolding save_scrape
save_scrape-UniqueUrls sha256_hex cfg rec w u =
    updated sha256_hex rec (next_expiry (now w).1.clock short 0 cfg) (format (now w).1.clock)
      (now w).1 (subst UniqueUrls (sym ((now_tables w).0)) u)

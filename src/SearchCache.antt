-- ===== src/SearchCache.antt =====
-- searchcache.go: query results, found again by the normalized query or by meaning.
pub mod Stored
pub mod RoundTrip
use go_web_search.Prelude.{
  ℕ, zero, suc, Bool, true, false, ◌&&◌, List, [], ◌∷◌, ◌++◌, Option, none, some, String, str_eq,
  if◌then◌else◌, ℤ, ltb_ℤ, drop, take,
}
use go_web_search.Clock.{Time, Duration, Stamp, TimeText, stamp, format, text_lt}
use go_web_search.Strings.{Text, text_eq, to_lower, fields, join, like}
use go_web_search.Rows.{
  Tier, SearchCacheRow, CachedUrl, Tables, Vec, OwnerKind, search, embed_job, Payload,
}
use go_web_search.Sql.{first, update, count, select, order_by}
use go_web_search.Store.{
  Error, Result, World, M, ◌>>=◌, ◌>>◌, pure, fail, now, new_id, exec, query, clamp_page,
}
use go_web_search.Tier.{TierConfig, tier_eq, next_expiry, exp_arg}
use go_web_search.Freshness.{fresh_enough, time_text}
use go_web_search.Jobs.{enqueue_job}
use go_web_search.Vectors.{VectorHit, active_vector_table, vector_search}
use go_web_search.Memory.{MemoryConfig, similarity_of}

pub record SearchCacheEntry : Type 0 where
  pub id : String
  pub query : Text
  pub results : List CachedUrl
  pub tier : Tier
  pub hit_count : ℕ
  pub fetched_at : TimeText
  pub expires_at : TimeText

unfoldable pub normalize_query : Text → Text
unfolding to_lower fields join
normalize_query q = join (b' ' ∷ []) (fields (to_lower q))

-- embed.go, `enqueueEmbed`
unfoldable pub enqueue_embed : OwnerKind → String → Text → M String
enqueue_embed kind id text =
    enqueue_job embed_job (Payload.embed (record { kind = kind; id = id; text = text }))

abbrev pub on_cache : (List SearchCacheRow → List SearchCacheRow) → Tables → Tables
on_cache f t = record t { search_cache = f t.search_cache }

unfoldable pub update_cache : (SearchCacheRow → Bool) → (SearchCacheRow → SearchCacheRow) → M ℕ
update_cache p f = exec (λ t. (on_cache (update p f) t, count p t.search_cache))

unfoldable pub insert_cache : SearchCacheRow → M ℕ
insert_cache r = exec (λ t. (on_cache (λ rows. rows ++ r ∷ []) t, 1))

abbrev pub has_norm : Text → SearchCacheRow → Bool
has_norm norm r = text_eq r.query_norm norm

abbrev pub entry_id : String → SearchCacheRow → Bool
entry_id id r = str_eq r.id id

unfoldable pub renew :
    Text → List CachedUrl → Tier × Option Time → Stamp → SearchCacheRow → SearchCacheRow
renew q results (tier, exp) at r = record r {
  query = q;
  results = some results;
  tier = tier;
  hit_count = 0;
  expires_at = exp_arg exp;
  fetched_at = at;
  updated_at = at;
}

unfoldable pub fresh_entry :
    String → Text → Text → List CachedUrl → Tier × Option Time → Stamp → SearchCacheRow
fresh_entry id norm q results (tier, exp) at = record {
  id = id;
  query_norm = norm;
  query = q;
  results = some results;
  tier = tier;
  hit_count = 0;
  expires_at = exp_arg exp;
  fetched_at = at;
  created_at = at;
  updated_at = at;
}

-- `SELECT id ... Scan(&id)`: an absent row is an error.
abbrev pub id_or_error : Option SearchCacheRow → M String
id_or_error none = fail Error.no_rows
id_or_error (some r) = pure r.id

-- StoreSearchCache, after the UPDATE affected n rows.
unfoldable pub store_new : Text → List CachedUrl → Tier × Option Time → Stamp → ℕ → M String
unfolding insert_cache fresh_entry enqueue_embed
store_new q results window at zero = do
  id ← new_id
  insert_cache (fresh_entry id (normalize_query q) q results window at)
  enqueue_embed search id q
  pure id
store_new q results window at (suc n) = do
  row ← query (λ t. first (has_norm (normalize_query q)) t.search_cache)
  id_or_error row

unfoldable pub store_search_cache : TierConfig → Text → List CachedUrl → Tier → M String
unfolding now update_cache renew store_new
store_search_cache cfg q results tier = do
  t ← now
  let window = next_expiry t tier 0 cfg
  n ← update_cache (has_norm (normalize_query q)) (renew q results window (format t))
  store_new q results window (format t) n

-- The row as the lookups return it; its JSON may fail to decode.
abbrev pub with_results : SearchCacheRow → Option (List CachedUrl) → M (Option SearchCacheEntry)
with_results r none = fail Error.decode
with_results r (some urls) = pure (
    some (record {
      id = r.id;
      query = r.query;
      results = urls;
      tier = r.tier;
      hit_count = r.hit_count;
      fetched_at = stamp r.fetched_at;
      expires_at = time_text r.expires_at;
    }))

abbrev pub read_entry : Option SearchCacheRow → M (Option SearchCacheEntry)
read_entry none = pure none
read_entry (some r) = with_results r r.results

unfoldable pub scan_search_cache : (SearchCacheRow → Bool) → M (Option SearchCacheEntry)
scan_search_cache where_ = do row ← query (λ t. first where_ t.search_cache); read_entry row

unfoldable pub touch_search_cache : TierConfig → SearchCacheEntry → M SearchCacheEntry
unfolding now update_cache
touch_search_cache cfg e = do
  t ← now
  let hits = suc e.hit_count
  let (tier, exp) = next_expiry t e.tier hits cfg
  update_cache (entry_id e.id) (λ r. record r {
    hit_count = hits;
    tier = tier;
    expires_at = exp_arg exp;
    updated_at = format t;
  })
  pure (record e { hit_count = hits; tier = tier })

-- A scanned entry is served if it is fresh, and its hit recorded.
abbrev pub serve : TierConfig → Duration → Option SearchCacheEntry → M (Option SearchCacheEntry)
serve cfg max_age none = pure none
serve cfg max_age (some e) = do
  fresh ← fresh_enough e.expires_at e.fetched_at max_age
  if fresh then (do e' ← touch_search_cache cfg e; pure (some e')) else pure none

unfoldable pub lookup_exact : TierConfig → Text → Duration → M (Option SearchCacheEntry)
unfolding scan_search_cache
lookup_exact cfg q max_age = do
  found ← scan_search_cache (has_norm (normalize_query q))
  serve cfg max_age found

-- The loop over the hits, nearest first: the first fresh one is served.
abbrev pub or_else :
    Option SearchCacheEntry → M (Option SearchCacheEntry) → M (Option SearchCacheEntry)
or_else none m = m
or_else (some e) m = pure (some e)

unfoldable pub first_fresh :
    TierConfig → MemoryConfig → Duration → List VectorHit → M (Option SearchCacheEntry)
first_fresh cfg mem max_age [] = pure none
first_fresh cfg mem max_age (h ∷ hs) =
    let rest = first_fresh cfg mem max_age hs in
    if ltb_ℤ (similarity_of h.distance) mem.similarity_threshold then pure none else (do
      found ← scan_search_cache (entry_id h.id)
      served ← serve cfg max_age found
      or_else served rest)

abbrev pub semantic_in :
    TierConfig → MemoryConfig → Vec → Duration → Text × Bool → M (Option SearchCacheEntry)
semantic_in cfg mem query_vec max_age (table, false) = pure none
semantic_in cfg mem query_vec max_age ([], true) = pure none
semantic_in cfg mem query_vec max_age (c ∷ s, true) = do
  hits ← vector_search (c ∷ s) search query_vec mem.top_k
  first_fresh cfg mem max_age hits

unfoldable pub lookup_semantic :
    TierConfig → MemoryConfig → Vec → Duration → M (Option SearchCacheEntry)
unfolding first_fresh
lookup_semantic cfg mem query_vec max_age = do
  active ← active_vector_table
  semantic_in cfg mem query_vec max_age active

unfoldable pub tier_matches : Option Tier → Tier → Bool
tier_matches none t = true
tier_matches (some want) t = tier_eq t want

-- ListSearchCache: the listing's rows (their results are shown as a count only). An empty tier does
-- not filter, and neither does an empty text.
unfoldable pub list_search_cache :
    Option Tier → Text → ℤ → ℤ → World → Result (List SearchCacheRow) × World
unfolding clamp_page tier_matches
list_search_cache tier q limit offset =
    let (n, skip) = clamp_page limit offset in
    query λ t. take n (
      drop skip (
        order_by (λ a b. text_lt b.fetched_at a.fetched_at)
          (select (λ r. tier_matches tier r.tier && like (normalize_query q) r.query_norm)
            t.search_cache)))

-- ===== src/Explorer.antt =====
-- explorer.go: the nearest neighbours of a text among the vectors of both kinds.
--
-- Distances are in millionths, and a similarity is 1 - distance.
pub mod Nearest
use go_web_search.Prelude.{
  ℕ, zero, suc, Bool, true, false, List, [], ◌∷◌, ◌++◌, map, Option, none, some, String, str_eq,
  if◌then◌else◌, ltb, ℤ, pos, negsuc, sub_ℕ, length, take,
}
use go_web_search.Strings.{Text, runes}
use go_web_search.Rows.{
  OwnerKind, memory, search, Tier, FactRow, SearchCacheRow, CachedUrl, Vec, Tables,
}
use go_web_search.Sql.{select, order_by}
use go_web_search.Store.{
  Error, Result, ok, err, World, M, ◌>>=◌, ◌>>◌, pure, fail, query, lift, attempt,
}
use go_web_search.Llm.{LlmClient}
use go_web_search.Runs.Listing.{member}
use go_web_search.Vectors.{VectorHit, active_vector_table, vector_search}

pub record Neighbor : Type 0 where
  pub owner_kind : OwnerKind
  pub id : String
  pub distance : ℕ
  pub similarity : ℤ
  pub text : Text
  pub source_url : Text
  pub tier : Tier
  pub result_count : ℕ

pub record ExploreResult : Type 0 where
  pub query : Text
  pub k : ℕ
  pub available : Bool
  pub note : Text
  pub neighbors : List Neighbor
  pub memory_hits : ℕ
  pub search_hits : ℕ

-- `k <= 0` gives 10, and 100 is the most.
abbrev pub explore_k : ℤ → ℕ
explore_k (pos zero) = 10
explore_k (pos (suc n)) = if ltb 100 (suc n) then 100 else suc n
explore_k (negsuc n) = 10

unfoldable pub is_hit : List VectorHit → String → Bool
unfolding member
is_hit hits id = member str_eq id (map (λ (h : VectorHit). h.id) hits)

-- byID[id]: of equal ids the last row counts.
unfoldable pub last_with : {A : Type 0} → (A → String) → String → Option A → List A → Option A
last_with id_of id found [] = found
last_with id_of id found (r ∷ rs) =
    last_with id_of id (if str_eq (id_of r) id then some r else found) rs

abbrev pub memory_neighbor : VectorHit → FactRow → Neighbor
memory_neighbor h f = record {
  owner_kind = memory;
  id = h.id;
  distance = h.distance;
  similarity = sub_ℕ 1000000 h.distance;
  text = f.text;
  source_url = f.source_url;
  tier = f.tier;
  result_count = 0;
}

-- countCachedURLs: 0 for a text that does not decode.
abbrev pub count_cached_urls : Option (List CachedUrl) → ℕ
count_cached_urls none = 0
count_cached_urls (some urls) = length urls

abbrev pub search_neighbor : VectorHit → SearchCacheRow → Neighbor
search_neighbor h r = record {
  owner_kind = search;
  id = h.id;
  distance = h.distance;
  similarity = sub_ℕ 1000000 h.distance;
  text = r.query;
  source_url = [];
  tier = r.tier;
  result_count = count_cached_urls r.results;
}

-- The hits whose row is there.
abbrev cons_found : {A : Type 0} → (A → Neighbor) → Option A → List Neighbor → List Neighbor
cons_found f none rest = rest
cons_found f (some r) rest = f r ∷ rest

unfoldable pub resolve_hits :
    {A : Type 0}
    → (A → String)
    → (VectorHit → A → Neighbor)
    → List A
    → List VectorHit
    → List Neighbor
unfolding last_with
resolve_hits id_of f rows [] = []
resolve_hits id_of f rows (h ∷ hs) =
    cons_found (f h) (last_with id_of h.id none rows) (resolve_hits id_of f rows hs)

-- resolveMemoryHits; without hits nothing is read.
unfoldable pub resolve_memory_hits : List VectorHit → M (List Neighbor)
unfolding resolve_hits
resolve_memory_hits [] = pure []
resolve_memory_hits (h ∷ hs) = do
  rows ← query (λ t. select (λ (r : FactRow). is_hit (h ∷ hs) r.id) t.memory_facts)
  pure (resolve_hits (λ (r : FactRow). r.id) memory_neighbor rows (h ∷ hs))

-- resolveSearchHits
unfoldable pub resolve_search_hits : List VectorHit → M (List Neighbor)
unfolding resolve_hits
resolve_search_hits [] = pure []
resolve_search_hits (h ∷ hs) = do
  rows ← query (λ t. select (λ (r : SearchCacheRow). is_hit (h ∷ hs) r.id) t.search_cache)
  pure (resolve_hits (λ (r : SearchCacheRow). r.id) search_neighbor rows (h ∷ hs))

abbrev pub closer : Neighbor → Neighbor → Bool
closer a b = ltb a.distance b.distance

abbrev pub unavailable : Text → ℕ → Text → ExploreResult
unavailable q k note = record {
  query = q;
  k = k;
  available = false;
  note = note;
  neighbors = [];
  memory_hits = 0;
  search_hits = 0;
}

abbrev pub no_vectors_note : Text
no_vectors_note = runes "no vectors have been stored yet, so there is nothing to search"

abbrev pub migrating_note : Text
migrating_note =
    runes "a re-embed migration is in progress; semantic search is unavailable until it finishes"

-- The neighbours of a vector, with the hits in memory.
unfoldable pub explore_hits : Text → ℕ → Text → Vec → List VectorHit → M ExploreResult
unfolding resolve_memory_hits resolve_search_hits
explore_hits q k table vec mem_hits = do
  search_hits ← vector_search table search vec (pos k)
  facts ← resolve_memory_hits mem_hits
  cached ← resolve_search_hits search_hits
  pure (record {
    query = q;
    k = k;
    available = true;
    note = [];
    neighbors = take k (order_by closer (facts ++ cached));
    memory_hits = length mem_hits;
    search_hits = length search_hits;
  })

-- A table that is gone is an answer; any other error is returned.
abbrev pub explore_found : Text → ℕ → Text → Vec → Result (List VectorHit) → M ExploreResult
unfolding explore_hits
explore_found q k table vec (ok hits) = explore_hits q k table vec hits
explore_found q k table vec (err Error.no_such_table) = pure (unavailable q k no_vectors_note)
explore_found q k table vec (err e) = fail e

abbrev pub explore_vec : Text → ℕ → Text → Vec → M ExploreResult
unfolding explore_found
explore_vec q k table [] = fail Error.no_vector
explore_vec q k table (x ∷ vec) = do
  found ← attempt (vector_search table memory (x ∷ vec) (pos k))
  explore_found q k table (x ∷ vec) found

abbrev pub explore_in : LlmClient → Text → ℕ → Text × Bool → M ExploreResult
unfolding explore_vec
explore_in llm q k ([], ready) = pure (unavailable q k no_vectors_note)
explore_in llm q k (c ∷ s, false) = pure (unavailable q k migrating_note)
explore_in llm q k (c ∷ s, true) = do vec ← lift (llm.embed true q); explore_vec q k (c ∷ s) vec

-- Explore
unfoldable pub explore : LlmClient → Text → ℤ → M ExploreResult
unfolding explore_in
explore llm q k = do active ← active_vector_table; explore_in llm q (explore_k k) active

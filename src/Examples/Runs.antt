-- ===== src/Examples/Runs.antt =====
-- The theorems on runs, searches and the causality graph, in a small store.
use go_web_search.Prelude.{
  ℕ, ◌≡◌, refl, false, List, [], ◌∷◌, some, Option, String, In, All, pos, inl,
}
use go_web_search.Clock.{format}
use go_web_search.Strings.{Text, runes, text_eq}
use go_web_search.Sql.{order_by, select, count, first}
use go_web_search.Vectors.{active_vector_table}
use go_web_search.Rows.{SearchRow, UrlRow, SearchUrlRow}
use go_web_search.Store.{Error, ok, err, World, query}
use go_web_search.Runs.{SearchRecord, save_search}
use go_web_search.Runs.Links.{IsLinked}
use go_web_search.Runs.Saved.{IsSaved, save_search_lem}
use go_web_search.Runs.Listing.{RankedUrl, run_urls}
use go_web_search.Runs.Ranked.{FoundAt, IsBest, run_urls_lem}
use go_web_search.Sql.Order.{Ordered}
use go_web_search.Provenance.Graph.{CausalityGraph, run_causality}
use go_web_search.Provenance.Closed.{Joins}
use go_web_search.Provenance.Sound.{run_causality-Joins}
use go_web_search.Examples.Data.{at_noon, tables, world}

-- One search of the run "r" that found one URL, which a fact came from.
abbrev pub search_row_a : SearchRow
search_row_a = record {
  id = "s";
  run_id = "r";
  term = runes "go";
  engine = runes "ddg";
  search_mode = runes "url";
  requested_url = [];
  landed_url = [];
  http_status = 200;
  blocked = false;
  anchor_count = 1;
  error = [];
  duration_ms = 5;
  created_at = format at_noon;
}

abbrev pub url_row_a : UrlRow
url_row_a = record {
  id = "u";
  url = runes "https://go.dev";
  domain = runes "go.dev";
  first_seen_at = format at_noon;
  created_at = format at_noon;
}

abbrev pub link_row_a : SearchUrlRow
link_row_a = record {
  id = "l";
  search_id = "s";
  url_id = "u";
  rank = 1;
  created_at = format at_noon;
}

abbrev searched : World
searched = record world {
  tables = record tables {
    searches = search_row_a ∷ [];
    urls = url_row_a ∷ [];
    search_urls = link_row_a ∷ [];
  };
}

searched-IsLinked : IsLinked searched.tables
searched-IsLinked = record { links = ((inl refl, inl refl), tt); raws = tt; unique = (λ i. i, tt) }

-- A second search, which finds the stored URL again.
abbrev second_search : SearchRecord
second_search = record {
  run_id = "r";
  term = runes "golang";
  engine = runes "ddg";
  search_mode = runes "url";
  requested_url = [];
  landed_url = [];
  http_status = 200;
  blocked = false;
  anchor_count = 1;
  err_text = [];
  duration_ms = 5;
  raw_html = runes "<html>";
  urls = runes "https://go.dev" ∷ runes "https://go.dev/doc" ∷ [];
}

abbrev host : Text → Option Text
host url = some (runes "go.dev")

save_search_lem_example :
    IsLinked (save_search host second_search searched).1.tables
    × ((e : Error)
        → (save_search host second_search searched).0 ≡ err e
        → (save_search host second_search searched).1.tables ≡ searched.tables)
    × ((id : String)
        → (save_search host second_search searched).0 ≡ ok id
        → IsSaved second_search id (save_search host second_search searched).1.tables)
save_search_lem_example = save_search_lem host second_search searched searched-IsLinked

run_urls_lem_example :
    (rs : List RankedUrl) × (run_urls "r" searched ≡ (ok rs, searched))
    × All (IsBest "r" searched.tables) rs
    × ((u : UrlRow) (n : ℕ)
        → In u searched.tables.urls
        → FoundAt "r" searched.tables u.id n
        → (r : RankedUrl) × In r rs × (r.id ≡ u.id) × (r.url ≡ u.url))
    × Ordered (λ (r : RankedUrl). r.rank) rs
run_urls_lem_example = run_urls_lem "r" searched refl

abbrev causality : CausalityGraph
causality = elim (run_causality "r" (pos 0) searched).0 [
  | ok g ↦ g
  | err e ↦ record {
    run_id = "r";
    nodes = [];
    edges = [];
    truncated = false;
    limit = 0;
    vectors_available = false;
    note = [];
  }
]

run_causality-Joins_example : All (Joins causality.nodes) causality.edges
unfolding run_causality query order_by select count active_vector_table first text_eq
run_causality-Joins_example = run_causality-Joins "r" (pos 0) searched causality refl
